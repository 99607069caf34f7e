-- ===== src/Radix/Eviction.antt =====
-- One round of `evict` of radix_cache.py.
use mathlib.Core.List.{Permᴰ}
use mini_infer.Prelude.{
  ℕ, zero, suc, ◌+◌, ◌≡◌, ◌≢◌, refl, sym, ap, ◌∙◌, subst, true, false, List, [], ◌∷◌, Option, none,
  some, length, Elem, Distinct, arith, Bool-cases, inl, inr, if_of_true, if_of_false, Result, ok,
}
use mini_infer.Prelude.Int.{ℤ, pos, negsuc, ◌-ℤ◌, int_laws}
use mini_infer.Radix.Keys.{same_list, same_list_self, get_child_key}
use mini_infer.Radix.Tree.{Label, Tree, node, nil, child, label, children}
use mini_infer.Radix.Cache.{RadixCache}
use mini_infer.Radix.Reads.{WfForest}
use mini_infer.Radix.Weight.{weight, weight_all}
use mini_infer.Radix.Sizes.{held, held_len, free_len}
use mini_infer.Radix.Lock.{is_pos}
use mini_infer.Radix.Lookup.{WfCache, weight_parts}
use mini_infer.Radix.Evict.{
  Address, Entry, ITokenAllocator, Heapq, Evicting, get_at, delete_at, parent_of, last_key,
  delete_leaf, push_parent, after_free, evict_one, evict_found, evict_deleted,
}
use mini_infer.Radix.Delete.{
  label-delete_at, delete_at-weight, delete_at-WfForest, get_at-WfChild, parent-get_at,
}
use mini_infer.Radix.Others.{Kept, delete_at-Kept}
use mini_infer.Radix.Complete.{entry, delete_at-leaf, push_parent-Elem}
use mathlib.Core.Path.{ap₂}
use mini_infer.Radix.Heap.{HeapLaws, FreeLeaf, Elem-perm, perm_sym, Distinct-perm}

-- The cache in the middle of the loop; its heap holds leaves that no request holds, each once.
pub record Going {A : Type 0} (cache : RadixCache) (st : Evicting A) : Type 0 where
  pub whole : WfCache (record cache { root = st.root; evictable_size_ = st.evictable_size_ })
  pub leaves : (e : Entry) → Elem e st.heap → FreeLeaf st.root e
  pub distinct : Distinct st.heap

push_parent-leaves :
    (q : Heapq) (laws : HeapLaws q) (root : Tree) (at : Address) (o : Option Tree)
    (heap : List Entry)
    → get_at at root ≡ o
    → ((e : Entry) → Elem e heap → FreeLeaf root e)
    → Distinct heap
    → ((e : Entry) → Elem e heap → e.at ≢ at)
    → ((e : Entry) → Elem e (push_parent q at o heap) → FreeLeaf root e)
      × Distinct (push_parent q at o heap)
push_parent-leaves q laws root at none heap o h d apart = (h, d)
push_parent-leaves q laws root at (some (node l (child k t rest))) heap o h d apart = (h, d)
push_parent-leaves q laws root at (some (node l nil)) heap o h d apart =
    elim (Bool-cases (is_pos 0 l.lock_ref)) [
      | inr n ↦ rw n (h, d)
      | inl y ↦
          let e0 : Entry = record { priority = l.last_access_time; at = at } in
          let fresh : FreeLeaf root e0 = record { leaf = l; there = o; free = y; time = refl } in
          let pushed = laws.push-perm e0 heap in
          rw y (
            (λ e m. elim (Elem-perm e pushed m) [
              | inl same ↦ subst (FreeLeaf root) (sym same) fresh
              | inr old ↦ h e old
            ]),
            Distinct-perm (perm_sym pushed) (λ m. apart e0 m refl, d),
          )
    ]

-- Two entries of the heap at one address are one.
FreeLeaf-eq : (root : Tree) (a b : Entry) → FreeLeaf root a → FreeLeaf root b → a.at ≡ b.at → a ≡ b
FreeLeaf-eq root a b h k e =
    let one : node h.leaf nil ≡ node k.leaf nil =
      (let d = sym h.there ∙ ap (λ x. get_at x root) e ∙ k.there in cc) in
    let time : a.priority ≡ b.priority =
      h.time ∙ ap (λ t. (label t).last_access_time) one ∙ sym k.time in
    ap (λ t. record { priority = t; at = a.at }) time ∙ ap (λ x. record b { at = x }) e

-- The leaf that goes is not the root, and no other leaf goes with it.
other-FreeLeaf :
    (root : Tree) (x e : Entry)
    → FreeLeaf root x
    → FreeLeaf root e
    → e ≢ x
    → FreeLeaf (delete_at x.at root) e
other-FreeLeaf root x e h k n =
    let kept =
      delete_at-Kept x.at e.at root h.there k.there (λ s. n (FreeLeaf-eq root e x k h s)) in
    record {
      leaf = k.leaf;
      there = kept.there ∙ ap some (leaf_of kept.now k.leaf kept.same_label (kept.still_leaf refl));
      free = k.free;
      time = k.time;
    }
  where
    leaf_of : (t : Tree) (l : Label) → label t ≡ l → children t ≡ nil → t ≡ node l nil
    leaf_of (node m kids) l e f = rw (e, f)

free_not_held : (a : ℤ) → is_pos 0 a ≡ true → held a ≡ false
free_not_held (pos zero) e = refl
free_not_held (pos (suc n)) e = absurd (ground (arith, e))
free_not_held (negsuc n) e = refl

pub root-not_leaf :
    {A : Type 0} (cache : RadixCache) (st : Evicting A) (x : Entry)
    → Going cache st
    → FreeLeaf st.root x
    → x.at ≢ []
root-not_leaf cache st x g h e =
    let top : st.root ≡ node h.leaf nil =
      (let d = sym (ap (λ a. get_at a st.root) e) ∙ h.there in cc) in
    let one : h.leaf.lock_ref ≡ pos 1 =
      sym (ap (λ t. (label t).lock_ref) top) ∙ g.whole.root_locked in
    let bad : is_pos 0 (pos 1) ≡ true = subst (λ a. is_pos 0 a ≡ true) one h.free in cc

-- The counters after the leaf is gone.
sub_pos : (a b c : ℕ) → b + c ≡ a → pos a -ℤ pos c ≡ pos b
sub_pos a b c e = omega int_laws

pub gone-sum :
    (f : Label → ℕ) (k : List ℕ) (at : Address) (root : Tree) (l : Label)
    → get_at (k ∷ at) root ≡ some (node l nil)
    → weight_all f (children (delete_at (k ∷ at) root)) + f l ≡ weight_all f (children root)
unfolding weight
gone-sum f k at root l h = omega (
  arith,
  delete_at-weight f k at root h,
  weight_parts f root,
  weight_parts f (delete_at (k ∷ at) root),
  ap f (label-delete_at (k ∷ at) root),
)

gone-WfCache :
    (cache : RadixCache) (root : Tree) (ev : ℤ) (k : List ℕ) (at : Address) (l : Label)
    → WfCache (record cache { root = root; evictable_size_ = ev })
    → get_at (k ∷ at) root ≡ some (node l nil)
    → is_pos 0 l.lock_ref ≡ true
    → WfCache (record cache {
      root = delete_at (k ∷ at) root;
      evictable_size_ = ev -ℤ pos (length l.key);
    })
gone-WfCache cache root ev k at l w h free =
    let fl = free_not_held l.lock_ref free in
    let a : weight_all free_len (children (delete_at (k ∷ at) root)) + length l.key
        ≡ weight_all free_len (children root) =
      omega (arith, gone-sum free_len k at root l h, if_of_false 0 (length l.key) fl) in
    let b : weight_all held_len (children (delete_at (k ∷ at) root))
        ≡ weight_all held_len (children root) =
      omega (arith, gone-sum held_len k at root l h, if_of_false (length l.key) 0 fl) in
    record {
      positive = w.positive;
      shape = delete_at-WfForest cache.page_size k at root h w.shape;
      root_locked = ap (λ x. x.lock_ref) (label-delete_at (k ∷ at) root) ∙ w.root_locked;
      root_empty = ap (λ x. x.value) (label-delete_at (k ∷ at) root) ∙ w.root_empty;
      evictable = rw w.evictable (
          sub_pos (weight_all free_len (children root))
            (weight_all free_len (children (delete_at (k ∷ at) root))) (length l.key) a);
      protected = w.protected ∙ ap pos (sym b);
    }

-- What a round comes to: no error, one node less, and every node that is not a free leaf as it was.
pub record Round {A : Type 0} (cache : RadixCache) (st : Evicting A) (r : Result (Evicting A))
    : Type 0 where
  pub next : Evicting A
  pub returns : r ≡ ok next
  pub going : Going cache next
  pub fewer :
      suc (weight_all (λ l. 1) (children next.root)) ≡ weight_all (λ l. 1) (children st.root)
  pub kept :
      (b : Address) (u : Tree)
      → get_at b st.root ≡ some u
      → is_pos 0 (label u).lock_ref ≡ false
      → Kept b u next.root
  pub full :
      ((e : Entry) → FreeLeaf st.root e → Elem e st.heap)
      → (e : Entry) → FreeLeaf next.root e
      → Elem e next.heap

module _ {A : Type 0} (al : ITokenAllocator A) (q : Heapq) (laws : HeapLaws q)
    (cache : RadixCache) where
  delete_leaf-ok :
      (root : Tree) (k : List ℕ) (at : Address) (l : Label)
      → WfForest cache.page_size (children root)
      → get_at (k ∷ at) root ≡ some (node l nil)
      → delete_leaf cache.page_size (k ∷ at) l root ≡ ok (delete_at (k ∷ at) root)
  unfolding delete_leaf WfForest
  delete_leaf-ok root k at l w h =
      let wc = get_at-WfChild cache.page_size k at root h w in
      let same : same_list (last_key (k ∷ at)) (get_child_key cache.page_size l.key) ≡ true =
        rw (sym wc.0.0) (same_list_self (last_key (k ∷ at))) in
      if_of_true _ _ same

  evict_one-ok :
      (k : List ℕ) (at : Address) (l : Label) (rest : List Entry) (st : Evicting A)
      → get_at (k ∷ at) st.root ≡ some (node l nil)
      → WfForest cache.page_size (children st.root)
      → evict_one al q cache.page_size (k ∷ at) rest st
        ≡ ok (after_free al q cache.page_size (k ∷ at) l st rest (delete_at (k ∷ at) st.root))
  unfolding evict_one
  evict_one-ok k at l rest st h w =
      ap (evict_found al q cache.page_size (k ∷ at) rest st) h
      ∙ ap (evict_deleted al q cache.page_size (k ∷ at) l rest st)
          (delete_leaf-ok st.root k at l w h)

  pub evict_one-Round :
      (time : ℕ) (a : Address) (rest : List Entry) (st : Evicting A)
      → Going cache st
      → Permᴰ st.heap (record { priority = time; at = a } ∷ rest)
      → Round cache st (evict_one al q cache.page_size a rest st)
  evict_one-Round time [] rest st g p =
      let x : Entry = record { priority = time; at = [] } in
      absurd (root-not_leaf cache st x g (g.leaves x (Elem-perm x (perm_sym p) (inl refl))) refl)
  evict_one-Round time (k ∷ at) rest st g p =
      let x : Entry = record { priority = time; at = k ∷ at } in
      let h = g.leaves x (Elem-perm x (perm_sym p) (inl refl)) in
      let d = Distinct-perm p g.distinct in
      let root = delete_at (k ∷ at) st.root in
      let old : (e : Entry) → Elem e rest → FreeLeaf st.root e =
        λ e m. g.leaves e (Elem-perm e (perm_sym p) (inr m)) in
      let others : (e : Entry) → Elem e rest → FreeLeaf root e =
        λ e m. other-FreeLeaf st.root x e h (old e m) (λ s. d.0 (subst (λ y. Elem y rest) s m)) in
      let above : (e : Entry) → Elem e rest → e.at ≢ parent_of (k ∷ at) = λ e m s.
        parent-get_at k at st.root h.there (sym (ap (λ y. get_at y st.root) s) ∙ (old e m).there) in
      let pushed =
        push_parent-leaves q laws root (parent_of (k ∷ at)) (get_at (parent_of (k ∷ at)) root) rest
          refl others d.1 above in
      let held_on =
        push_parent-Elem q laws (parent_of (k ∷ at)) (get_at (parent_of (k ∷ at)) root) rest in
      record {
        next = after_free al q cache.page_size (k ∷ at) h.leaf st rest root;
        returns = evict_one-ok k at h.leaf rest st h.there g.whole.shape;
        going = record {
          whole = gone-WfCache cache st.root st.evictable_size_ k at h.leaf g.whole h.there h.free;
          leaves = pushed.0;
          distinct = pushed.1;
        };
        fewer = omega (arith, gone-sum (λ l. 1) k at st.root h.leaf h.there);
        full = λ f e y.
            elim (delete_at-leaf cache.page_size k at e.at st.root g.whole.shape h.there y.there) [
              | inl (there, apart) ↦
                  let before : FreeLeaf st.root e = record {
                    leaf = y.leaf;
                    there = there;
                    free = y.free;
                    time = y.time;
                  } in
                  elim (Elem-perm e p (f e before)) [
                    | inl same ↦ absurd (apart (ap (λ z. z.at) same))
                    | inr m ↦ held_on.0 e m
                  ]
              | inr up ↦
                  let same : entry y.leaf.last_access_time (parent_of (k ∷ at)) ≡ e =
                    ap₂ entry (sym y.time) (sym up) in
                  subst
                    (λ z.
                      Elem z (
                        push_parent q (parent_of (k ∷ at)) (get_at (parent_of (k ∷ at)) root) rest))
                    same (held_on.1 y.leaf (sym (ap (λ z. get_at z root) up) ∙ y.there) y.free)
            ];
        kept = λ b u f n. delete_at-Kept (k ∷ at) b st.root h.there f (λ s.
            (let one : u ≡ node h.leaf nil =
                (let v = sym f ∙ ap (λ y. get_at y st.root) s ∙ h.there in cc) in
              let c = sym n ∙ ap (λ y. is_pos 0 (label y).lock_ref) one ∙ h.free in cc));
      }
