-- ===== src/Radix/Heap.antt =====
-- What radix_cache.py relies on of `heapq`, and the leaves that its heap starts with.
use mathlib.Core.List.{Permᴰ}
use mathlib.Core.List.Permᴰ
use mini_infer.Prelude.{
  ◌≡◌, sym, ◌∙◌, subst, true, List, [], ◌∷◌, none, some, Elem, Distinct, inl, inr,
}
use mini_infer.Radix.Evict.{Entry, Heapq, get_at}
use mini_infer.Radix.Tree.{Label, Tree, node, nil}
use mini_infer.Radix.Lock.{is_pos}

pub record HeapLaws (q : Heapq) : Type 0 where
  pub heapify-perm : (heap : List Entry) → Permᴰ (q.heapify heap) heap
  pub push-perm : (e : Entry) (heap : List Entry) → Permᴰ (q.heappush e heap) (e ∷ heap)
  pub pop-none : (heap : List Entry) → q.heappop heap ≡ none → heap ≡ []
  pub pop-perm :
      (heap rest : List Entry) (x : Entry) → q.heappop heap ≡ some (x, rest) → Permᴰ heap (x ∷ rest)

module _ {A : Type 0} where
  pub Elem-perm : {xs ys : List A} (a : A) → Permᴰ xs ys → Elem a xs → Elem a ys
  Elem-perm a Permᴰ.nil h = h
  Elem-perm a (Permᴰ.cons e p) (inl h) = inl (h ∙ e)
  Elem-perm a (Permᴰ.cons e p) (inr h) = inr (Elem-perm a p h)
  Elem-perm a (Permᴰ.swap e f) (inl h) = inr (inl (h ∙ e))
  Elem-perm a (Permᴰ.swap e f) (inr (inl h)) = inl (h ∙ f)
  Elem-perm a (Permᴰ.swap e f) (inr (inr h)) = inr (inr h)
  Elem-perm a (Permᴰ.trans p q) h = Elem-perm a q (Elem-perm a p h)

  pub perm_sym : {xs ys : List A} → Permᴰ xs ys → Permᴰ ys xs
  perm_sym p = Permᴰ.symm p

  pub Distinct-perm : {xs ys : List A} → Permᴰ xs ys → Distinct xs → Distinct ys
  Distinct-perm Permᴰ.nil h = h
  Distinct-perm (Permᴰ.cons {a} {b} {l₁} {l₂} e p) (n, h) =
      (λ m. n (subst (λ x. Elem x l₁) (sym e) (Elem-perm b (perm_sym p) m)), Distinct-perm p h)
  Distinct-perm (Permᴰ.swap {a} {b} {a'} {b'} {l} e f) (n, (m, h)) = (
    λ k. elim k [
      | inl same ↦ n (inl (e ∙ sym same ∙ sym f))
      | inr in_l ↦ m (subst (λ x. Elem x l) (sym f) in_l)
    ],
    (λ k. n (inr (subst (λ x. Elem x l) (sym e) k)), h),
  )
  Distinct-perm (Permᴰ.trans p q) h = Distinct-perm q (Distinct-perm p h)

-- A leaf that no request holds, with the time that it was last used.
pub record FreeLeaf (root : Tree) (e : Entry) : Type 0 where
  pub leaf : Label
  pub there : get_at e.at root ≡ some (node leaf nil)
  pub free : is_pos 0 leaf.lock_ref ≡ true
  pub time : e.priority ≡ leaf.last_access_time
