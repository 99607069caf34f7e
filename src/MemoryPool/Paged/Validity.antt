-- ===== src/MemoryPool/Paged/Validity.antt =====
-- The free list of `PagedTokenAllocator`, under its calls.
use mini_infer.Prelude.{
  ℕ, ◌/◌, ◌≤◌, ◌≡◌, subst, sym, ◌∙◌, if_of_true, if_of_false, ◌⊎◌, inl, inr, true, Option, List, [],
  ◌∷◌, ◌++◌, arith, leb, ok, >>=-eq-ok, ok-injective, Elem, Distinct, drop, map, Elem-append,
  Elem-drop, Distinct-drop, Elem-filter, Elem-range_from, Distinct-range_from, Bool-cases, ◌&&◌,
}
use mini_infer.MemoryPool.Torch.{Torch}
use mini_infer.MemoryPool.Sizes.{get_num_new_pages_decode, get_num_new_pages_extend}
use mini_infer.MemoryPool.Paged.{
  Paged, init, clear, alloc, alloc_extend, alloc_decode, free, pages_of, add_pages, merge_pages,
  check_free_pages, concat, flush_pages, flush_free_group, begin_free_group, end_free_group, Call,
  allocs, extends, decodes, frees, begins, flushes, ends, clears, step, run, after-eq-ok,
}

pub record IsValid (a : Paged) : Type 0 where
  pub distinct : Distinct a.free_pages
  pub in_range : (p : ℕ) → Elem p a.free_pages → (1 ≤ p) × (p ≤ a.num_pages)

-- A call that hands out the first `k` free pages, or none.
pub record Takes (k : ℕ) (a b : Paged) : Type 0 where
  pub pages : (b.free_pages ≡ a.free_pages) ⊎ (b.free_pages ≡ drop k a.free_pages)
  pub num : b.num_pages ≡ a.num_pages

Takes-IsValid : (k : ℕ) (a b : Paged) → Takes k a b → IsValid a → IsValid b
Takes-IsValid k a b h v = elim h.pages [
  | inl e ↦ record {
    distinct = subst Distinct (sym e) v.distinct;
    in_range = λ p m. rw h.num (v.in_range p (subst (Elem p) e m));
  }
  | inr e ↦ record {
    distinct = subst Distinct (sym e) (Distinct-drop k a.free_pages v.distinct);
    in_range = λ p m. rw h.num (v.in_range p (Elem-drop p k a.free_pages (subst (Elem p) e m)));
  }
]

alloc-Takes :
    (n : ℕ) (a b : Paged) (r : Option (List ℕ))
    → alloc n a ≡ ok (r, b)
    → Takes (n / a.page_size) a b
unfolding alloc
alloc-Takes n a b r e = ground arith

module _ (t : Torch) where
  extend-Takes :
      (pre pre_cpu seq seq_cpu : List ℕ) (last : List (Option ℕ)) (n : ℕ) (a b : Paged)
      (r : Option (List ℕ))
      → alloc_extend t pre pre_cpu seq seq_cpu last n a ≡ ok (r, b)
      → Takes (get_num_new_pages_extend seq_cpu a.page_size pre_cpu) a b
  unfolding alloc_extend
  extend-Takes pre pre_cpu seq seq_cpu last n a b r e = ground arith

  decode-Takes :
      (seq seq_cpu : List ℕ) (last : List (Option ℕ)) (a b : Paged) (r : Option (List ℕ))
      → alloc_decode t seq seq_cpu last a ≡ ok (r, b)
      → Takes (get_num_new_pages_decode seq_cpu a.page_size) a b
  unfolding alloc_decode
  decode-Takes seq seq_cpu last a b r e = ground arith

  add_pages-IsValid :
      (a : Paged) (pages : List ℕ)
      → ((p : ℕ) → Elem p pages → (1 ≤ p) × (p ≤ a.num_pages))
      → IsValid a
      → IsValid (add_pages t a pages)
  add_pages-IsValid a [] h v = v
  add_pages-IsValid a (q ∷ pages) h v = record {
    distinct = t.unique_distinct _;
    in_range = λ p m. elim (Elem-append p (q ∷ pages) a.free_pages ((t.unique_elem _ p).0 m)) [
      | inl k ↦ h p k
      | inr k ↦ v.in_range p k
    ];
  }

  pages_of-in_range :
      (a : Paged) (xs : List ℕ) (p : ℕ) → Elem p (pages_of t a xs) → (1 ≤ p) × (p ≤ a.num_pages)
  pages_of-in_range a xs p m = ground (
    arith,
    Elem-filter (λ p. leb 1 p && leb p a.num_pages) p (t.unique (map (λ i. i / a.page_size) xs)) m,
  )

  -- The asserts of debug mode let the allocator through as it is.
  check-eq : (a b : Paged) → check_free_pages t a ≡ ok b → a ≡ b
  check-eq a b e = ground arith

  merge_pages-eq :
      (a b : Paged) (pages : List ℕ) → merge_pages t a pages ≡ ok b → b ≡ add_pages t a pages
  merge_pages-eq a b [] e = cc
  merge_pages-eq a b (p ∷ pages) e = sym (check-eq _ b e)

  merge_pages_of-IsValid :
      (a b : Paged) (xs : List ℕ) → merge_pages t a (pages_of t a xs) ≡ ok b → IsValid a → IsValid b
  merge_pages_of-IsValid a b xs e v =
      subst IsValid (sym (merge_pages-eq a b _ e))
        (add_pages-IsValid a (pages_of t a xs) (pages_of-in_range a xs) v)

  check-IsValid : (a b : Paged) → check_free_pages t a ≡ ok b → IsValid a → IsValid b
  check-IsValid a b e = subst IsValid (check-eq a b e)

  free-IsValid : (xs : List ℕ) (a b : Paged) → free t xs a ≡ ok b → IsValid a → IsValid b
  unfolding free
  free-IsValid [] a b e v = subst IsValid (cc) v
  free-IsValid (x ∷ xs) a b e v = elim (Bool-cases a.is_not_in_free_group) [
    | inl on ↦ merge_pages_of-IsValid a b (x ∷ xs) (sym (if_of_true _ _ on) ∙ e) v
    | inr off ↦
        check-IsValid (record a { free_group = a.free_group ++ (x ∷ xs) ∷ [] }) b
          (sym (if_of_false _ _ off) ∙ e) (record { distinct = v.distinct; in_range = v.in_range })
  ]

  flush-IsValid : (a b : Paged) → flush_free_group t a ≡ ok b → IsValid a → IsValid b
  unfolding flush_free_group
  flush-IsValid a b e v =
      go (concat a.free_group) e (record { distinct = v.distinct; in_range = v.in_range })
    where
      cleared : Paged
      cleared = record a { free_group = [] }

      go : (xs : List ℕ) → flush_pages t cleared xs ≡ ok b → IsValid cleared → IsValid b
      go [] e c = subst IsValid (cc) c
      go (x ∷ xs) e c = merge_pages_of-IsValid cleared b (x ∷ xs) e c

  end-IsValid : (a b : Paged) → end_free_group t a ≡ ok b → IsValid a → IsValid b
  unfolding end_free_group
  end-IsValid a b e v =
      let (c, p, q) = >>=-eq-ok (flush_free_group t a) _ e in
      subst IsValid {x = record c { is_not_in_free_group = true }} (ok-injective q) (
        let u : IsValid c = flush-IsValid a c p v in
        record { distinct = u.distinct; in_range = u.in_range })

clear-IsValid : (a : Paged) → IsValid (clear a)
unfolding clear
clear-IsValid a = record {
  distinct = Distinct-range_from 1 a.num_pages;
  in_range = λ p m. omega (arith, Elem-range_from p 1 a.num_pages m);
}

init-IsValid : (size page_size : ℕ) → IsValid (init size page_size)
unfolding init
init-IsValid size page_size = record {
  distinct = Distinct-range_from 1 (size / page_size);
  in_range = λ p m. omega (arith, Elem-range_from p 1 (size / page_size) m);
}

step-IsValid : (t : Torch) (c : Call) (a b : Paged) → step t c a ≡ ok b → IsValid a → IsValid b
unfolding step
step-IsValid t (allocs n) a b e v =
    let (r, p) = after-eq-ok (alloc n a) e in Takes-IsValid _ a b (alloc-Takes n a b r p) v
step-IsValid t (extends pre pre_cpu seq seq_cpu last n) a b e v =
    let (r, p) = after-eq-ok (alloc_extend t pre pre_cpu seq seq_cpu last n a) e in
    Takes-IsValid _ a b (extend-Takes t pre pre_cpu seq seq_cpu last n a b r p) v
step-IsValid t (decodes seq seq_cpu last) a b e v =
    let (r, p) = after-eq-ok (alloc_decode t seq seq_cpu last a) e in
    Takes-IsValid _ a b (decode-Takes t seq seq_cpu last a b r p) v
step-IsValid t (frees xs) a b e v = free-IsValid t xs a b e v
step-IsValid t begins a b e v =
    subst IsValid {x = begin_free_group a} (ok-injective e)
      (unfold begin_free_group in record { distinct = v.distinct; in_range = v.in_range })
step-IsValid t flushes a b e v = flush-IsValid t a b e v
step-IsValid t ends a b e v = end-IsValid t a b e v
step-IsValid t clears a b e v = subst IsValid (ok-injective e) (clear-IsValid a)

run-IsValid :
    (t : Torch) (calls : List Call) (a b : Paged) → run t calls a ≡ ok b → IsValid a → IsValid b
unfolding run
run-IsValid t [] a b e v = subst IsValid (ok-injective e) v
run-IsValid t (c ∷ calls) a b e v =
    let (d, p, q) = >>=-eq-ok (step t c a) _ e in
    run-IsValid t calls d b q (step-IsValid t c a d p v)

-- After any sequence of allocator calls on a new allocator that raises nothing, no page stands twice
-- in the free list, and every page there lies between 1 and `num_pages`.
pub run-init-IsValid :
    (t : Torch) (size page_size : ℕ) (calls : List Call) (b : Paged)
    → run t calls (init size page_size) ≡ ok b
    → IsValid b
run-init-IsValid t size page_size calls b e =
    run-IsValid t calls (init size page_size) b e (init-IsValid size page_size)
