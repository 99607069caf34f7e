-- ===== src/Radix/EvictAll.antt =====
-- `evict` of radix_cache.py as a whole.
use mini_infer.Prelude.{
  ℕ, zero, suc, ◌≤◌, ◌≡◌, refl, sym, ap, ◌∙◌, subst, false, List, [], ◌∷◌, some, Elem, arith,
  Option-cases, inl, inr, ◌⊎◌, Result, ok, err, dec_lt, lt→ltb, le→ltb,
}
use mini_infer.Radix.Tree.{Tree, label, children}
use mini_infer.Radix.Cache.{RadixCache}
use mini_infer.Radix.Weight.{weight_all}
use mini_infer.Radix.Lock.{is_pos}
use mini_infer.Radix.Lookup.{WfCache}
use mini_infer.Radix.Evict.{
  Address, Entry, ITokenAllocator, Heapq, Evicting, collect_leaves, get_at, evict_loop, evict,
  evicted, evict_start, nodes,
}
use mini_infer.Radix.Others.{Kept, same-Kept}
use mini_infer.Radix.Heap.{HeapLaws, FreeLeaf, Elem-perm, perm_sym, Distinct-perm}
use mini_infer.Radix.Complete.{leaves-Elem}
use mini_infer.Radix.Leaves.{leaves-FreeLeaf, collect_leaves-Distinct}
use mini_infer.Radix.Eviction.{Going, Round, evict_one-Round, root-not_leaf, gone-sum}

-- What the loop comes to: it returns, and it has freed enough or has no leaf left to free.
record Ended {A : Type 0} (cache : RadixCache) (num_tokens : ℕ) (st : Evicting A)
    (r : Result (Evicting A)) : Type 0 where
  last : Evicting A
  returns : r ≡ ok last
  going : Going cache last
  stopped : (num_tokens ≤ last.num_evicted) ⊎ (last.heap ≡ [])
  kept :
      (b : Address) (u : Tree)
      → get_at b st.root ≡ some u
      → is_pos 0 (label u).lock_ref ≡ false
      → Kept b u last.root
  full :
      ((e : Entry) → FreeLeaf st.root e → Elem e st.heap)
      → (e : Entry) → FreeLeaf last.root e
      → Elem e last.heap

-- A node kept twice.
Kept-Kept : (b : Address) (u t v : Tree) (h : Kept b u t) → Kept b h.now v → Kept b u v
Kept-Kept b u t v h k = record {
  now = k.now;
  there = k.there;
  same_label = k.same_label ∙ h.same_label;
  still_leaf = λ e. k.still_leaf (h.still_leaf e);
}

-- With no node below the root there is nothing in the heap.
no_leaves :
    {A : Type 0} (cache : RadixCache) (st : Evicting A)
    → Going cache st
    → weight_all (λ l. 1) (children st.root) ≡ 0
    → (heap : List Entry) → st.heap ≡ heap
    → st.heap ≡ []
no_leaves cache st g z [] e = e
no_leaves cache st g z (x ∷ heap) e =
    let h = g.leaves x (subst (Elem x) (sym e) (inl refl)) in below_root x.at h refl
  where
    below_root : (a : Address) (h : FreeLeaf st.root x) → x.at ≡ a → st.heap ≡ []
    below_root [] h s = absurd (root-not_leaf cache st x g h s)
    below_root (k ∷ at) h s = absurd (
        omega (
          arith,
          gone-sum (λ l. 1) k at st.root h.leaf (sym (ap (λ y. get_at y st.root) s) ∙ h.there),
        ))

module _ {A : Type 0} (al : ITokenAllocator A) (q : Heapq) (laws : HeapLaws q) (cache : RadixCache)
    (num_tokens : ℕ) where
  stay-Ended :
      (st : Evicting A)
      → Going cache st
      → (num_tokens ≤ st.num_evicted) ⊎ (st.heap ≡ [])
      → Ended cache num_tokens st (ok st)
  stay-Ended st g s = record {
    last = st;
    returns = refl;
    going = g;
    stopped = s;
    kept = λ b u e n. same-Kept b u st.root e;
    full = λ f. f;
  }

  next-Ended :
      (st : Evicting A) (r : Result (Evicting A)) (again : Evicting A → Result (Evicting A))
      (h : Round cache st r)
      → Ended cache num_tokens h.next (again h.next)
      → Ended cache num_tokens st (elim r [ err e ↦ err e | ok next ↦ again next ])
  next-Ended st r again h k = rw h.returns (record {
    last = k.last;
    returns = k.returns;
    going = k.going;
    stopped = k.stopped;
    kept = λ b u e n.
        (let one = h.kept b u e n in
          Kept-Kept b u h.next.root k.last.root one
            (k.kept b one.now one.there (ap (λ x. is_pos 0 x.lock_ref) one.same_label ∙ n)));
    full = λ f. k.full (h.full f);
  })

  evict_loop-Ended :
      (fuel : ℕ) (st : Evicting A)
      → Going cache st
      → weight_all (λ l. 1) (children st.root) ≤ fuel
      → Ended cache num_tokens st (evict_loop al q cache.page_size fuel num_tokens st)
  unfolding evict_loop
  evict_loop-Ended zero st g b =
      stay-Ended st g (inr (no_leaves cache st g (omega arith) st.heap refl))
  evict_loop-Ended (suc fuel) st g b = elim (dec_lt st.num_evicted num_tokens) [
    | no enough ↦
        rw (le→ltb st.num_evicted num_tokens (omega arith)) (stay-Ended st g (inl (omega arith)))
    | yes more ↦
        rw (lt→ltb st.num_evicted num_tokens more) (elim (Option-cases (q.heappop st.heap)) [
          | inl none_left ↦ rw none_left (stay-Ended st g (inr (laws.pop-none st.heap none_left)))
          | inr ((x, rest), popped) ↦
              let r =
                evict_one-Round al q laws cache x.priority x.at rest st g
                  (laws.pop-perm st.heap rest x popped) in
              rw popped (
                next-Ended st _ (evict_loop al q cache.page_size fuel num_tokens) r
                  (evict_loop-Ended fuel r.next r.going (omega (arith, r.fewer))))
        ])
  ]

  start-Going :
      (allocator : A)
      → WfCache cache
      → Going cache (evict_start al q cache.page_size cache allocator)
  start-Going allocator w =
      let built = laws.heapify-perm (collect_leaves (children cache.root)) in
      record {
        whole = w;
        leaves = λ e m. leaves-FreeLeaf cache.page_size cache.root e w.shape (Elem-perm e built m);
        distinct =
            Distinct-perm (perm_sym built)
              (collect_leaves-Distinct cache.page_size (children cache.root) w.shape);
      }

  -- On a well formed cache, with a heap that keeps its entries, the loop of `evict` raises nothing
  -- and has fuel enough with a round for every node: it ends once enough is freed, or with no
  -- leaf left in the tree that no request holds.
  pub evict_loop-enough :
      (allocator : A)
      → WfCache cache
      → (last : Evicting A) × (evict_loop al q cache.page_size
            (nodes al q cache.page_size cache.root)
            num_tokens
            (evict_start al q cache.page_size cache allocator)
          ≡ ok last)
        × ((num_tokens ≤ last.num_evicted) ⊎ ((e : Entry) → ¬ FreeLeaf last.root e))
  evict_loop-enough allocator w =
      let going = start-Going allocator w in
      let e =
        evict_loop-Ended (weight_all (λ l. 1) (children cache.root))
          (evict_start al q cache.page_size cache allocator) going (omega arith) in
      let built = perm_sym (laws.heapify-perm (collect_leaves (children cache.root))) in
      let start : (y : Entry)
          → FreeLeaf cache.root y
          → Elem y (q.heapify (collect_leaves (children cache.root))) =
        λ y h. Elem-perm y built (
          leaves-Elem cache.root y
            (root-not_leaf cache (evict_start al q cache.page_size cache allocator) y going h) h) in
      (
        e.last,
        e.returns,
        elim e.stopped [
          | inl enough ↦ inl enough
          | inr empty ↦ inr (λ y h. subst (Elem y) empty (e.full start y h))
        ],
      )

  -- `evict` on a well formed cache raises nothing and leaves it well formed, its counters right; a
  -- node that a request holds stays where it was, with its key, its slots and its lock.
  pub evict-WfCache :
      (allocator : A)
      → WfCache cache
      → (r : A × RadixCache) × (evict al q cache.page_size cache allocator num_tokens ≡ ok r)
        × WfCache r.1
        × ((b : Address) (u : Tree)
            → get_at b cache.root ≡ some u
            → is_pos 0 (label u).lock_ref ≡ false
            → Kept b u r.1.root)
  unfolding evict
  evict-WfCache allocator w =
      let e =
        evict_loop-Ended (weight_all (λ l. 1) (children cache.root))
          (evict_start al q cache.page_size cache allocator) (start-Going allocator w)
          (omega arith) in
      (
        (
          e.last.allocator,
          record cache { root = e.last.root; evictable_size_ = e.last.evictable_size_ },
        ),
        ap (evicted al q cache.page_size cache) e.returns,
        e.going.whole,
        e.kept,
      )
