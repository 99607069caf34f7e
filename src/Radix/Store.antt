-- ===== src/Radix/Store.antt =====
-- `insert` of radix_cache.py as a whole: the answers of the cache after it.
use mini_infer.Prelude.{
  ℕ, ◌≤◌, ◌<◌, ◌≡◌, refl, sym, ap, ◌∙◌, subst, true, false, List, [], ◌++◌, some, length, take,
  drop, take_all, length-take, length-drop, length-append, arith, ltb, ◌==◌, ==_iff, if◌then◌else◌,
  Bool-cases, inl, inr, if_of_true, if_of_false, lt→ltb, Option, ok, err, ok-injective, type_error,
  ◌∷◌,
}
use native.Mathlib.Nat.{div-mul-le_self}
use mathlib.Core.List.{append-nil}
use mini_infer.Radix.Keys.{align_len, Pages}
use mini_infer.Radix.Tree.{touch}
use mini_infer.Radix.Cache.{RadixCache, aligned, insert_node, insert_loop, insert_helper, insert}
use mini_infer.Radix.Reads.{walk, WfForest, walk-touch, walk-nil}
use mini_infer.Radix.Insert.{Extends, Extends_self, insert_node-InsertOk}
use mini_infer.Radix.Lock.{in_tree}
use mini_infer.Radix.Nodes.{Keeps, touch-Keeps}
use mini_infer.Radix.Sizes.{held_len, free_len}
use mini_infer.Radix.Lookup.{
  WfCache, lookup, aligned_pages, aligned-Pages, children-touch, grown-WfCache, free_len-Stable,
  held_len-Stable,
}

-- `value` has a slot for each token of `key`, both of whole pages.
record Stored (cache : RadixCache) (key value : List ℕ) (r : ℕ × RadixCache) : Type 0 where
  found : r.0 ≡ length (walk cache.page_size (length key) key cache.root)
  slots :
      walk cache.page_size (length key) key r.1.root
      ≡ walk cache.page_size (length key) key cache.root ++ drop r.0 value
  within : r.0 ≤ length key
  same_pages : r.1.page_size ≡ cache.page_size
  others : (other : List ℕ) → Extends (lookup cache other) (lookup r.1 other)
  kept : Keeps cache.root r.1.root
  whole : WfCache r.1

insert_loop-Stored :
    (now n : ℕ) (cache : RadixCache) (key value : List ℕ)
    → WfCache cache
    → Pages cache.page_size n key
    → length value ≡ length key
    → Stored cache key value (insert_loop now cache key value)
unfolding insert_loop
insert_loop-Stored now n cache key value w p v =
    let ps = cache.page_size in
    let f = length key in
    let t = touch now cache.root in
    let shape = subst (WfForest ps) (sym (children-touch now cache.root)) w.shape in
    let m =
      insert_node-InsertOk ps now f n key value t cache.next_id w.positive shape p (omega arith)
        v in
    let same = walk-touch ps f now key cache.root in
    let i = insert_node ps now f key value t cache.next_id in
    record {
      found = m.found ∙ ap length same;
      slots = m.slots ∙ ap (λ x. x ++ drop i.total_prefix_len value) same;
      within = omega (arith, m.within);
      same_pages = refl;
      kept = λ j e. m.kept j (touch-Keeps now cache.root j e);
      others = λ other.
          subst (λ x. Extends x (walk ps (length (aligned ps other)) (aligned ps other) i.tree))
            (walk-touch ps _ now (aligned ps other) cache.root)
            (m.answers (length (aligned ps other)) (aligned_pages ps other) (aligned ps other)
              (aligned-Pages ps other w.positive) (omega arith));
      whole =
          grown-WfCache now i.added i.next_id cache i.tree _ w m.same_label m.shape
            (m.sums free_len true free_len-Stable (λ id key value e. refl))
            (m.sums held_len false held_len-Stable (λ id key value e. refl)) refl;
    }

nothing-Stored : (cache : RadixCache) → WfCache cache → Stored cache [] [] (0, cache)
nothing-Stored cache w = record {
  found = ap length (sym (walk-nil cache.page_size 0 cache.root));
  slots = sym (append-nil (walk cache.page_size 0 [] cache.root));
  within = omega arith;
  same_pages = refl;
  kept = λ j e. e;
  others = λ other. Extends_self (lookup cache other);
  whole = w;
}

-- With pages of several tokens the log lines raise nothing.
insert_helper-loop :
    (now : ℕ) (cache : RadixCache) (key value : List ℕ)
    → 1 < cache.page_size
    → 0 < length key
    → insert_helper now cache key value ≡ ok (insert_loop now cache key value)
unfolding insert_helper
insert_helper-loop now cache [] value h k = elim k [ ]
insert_helper-loop now cache (x ∷ key) value h k =
    let c : (cache.page_size == 1) ≡ false = ground arith in rw c

-- The whole pages go in, if there are any.
insert_paged :
    (now : ℕ) (cache : RadixCache) (key value : List ℕ)
    → 1 < cache.page_size
    → length value ≡ length key
    → insert now cache key (some value) ≡ (
        if align_len cache.page_size (length key) == 0
        then ok (0, cache)
        else insert_helper now cache
            (take (align_len cache.page_size (length key)) key)
            (take (align_len cache.page_size (length key)) value))
unfolding insert
insert_paged now cache key value h v =
    let al = align_len cache.page_size (length key) in
    rw (lt→ltb 1 cache.page_size h) (elim (Bool-cases (al == length key)) [
      | inl e ↦
          let same : al ≡ length key = (==_iff al (length key)).0 e in
          rw (e, take_all al key (omega arith), take_all al value (omega arith))
      | inr n ↦ rw n
    ])

align_len-le : (ps n : ℕ) → align_len ps n ≤ n
unfolding align_len
align_len-le ps n = div-mul-le_self n ps

insert-Stored :
    (now : ℕ) (cache : RadixCache) (key value : List ℕ)
    → WfCache cache
    → 1 < cache.page_size
    → length value ≡ length key
    → (r : ℕ × RadixCache) × (insert now cache key (some value) ≡ ok r)
      × Stored cache (aligned cache.page_size key) (aligned cache.page_size value) r
insert-Stored now cache key value w h v =
    let ps = cache.page_size in
    let al = align_len ps (length key) in
    let large = lt→ltb 1 ps h in
    let p : Pages ps (aligned_pages ps key) (take al key) =
      ap length (sym (if_of_true _ _ large)) ∙ aligned-Pages ps key w.positive in
    let fits : length (take al value) ≡ length (take al key) =
      omega (arith, length-take al key, length-take al value) in
    rw (large, v)
      (elim (Bool-cases (al == 0)) [
        | inl z ↦
            let none : al ≡ 0 = (==_iff al 0).0 z in
            (
              (0, cache),
              insert_paged now cache key value h v ∙ if_of_true _ _ z,
              rw none (nothing-Stored cache w),
            )
        | inr n ↦
            let whole : 0 < length (take al key) =
              ground (arith, length-take al key, align_len-le ps (length key)) in
            (
              insert_loop now cache (take al key) (take al value),
              insert_paged now cache key value h v
                  ∙ if_of_false _ _ n
                  ∙ insert_helper-loop now cache (take al key) (take al value) h whole,
              insert_loop-Stored now (aligned_pages ps key) cache (take al key) (take al value) w p
                  fits,
            )
      ])

length-aligned :
    (ps : ℕ) (key value : List ℕ)
    → length value ≡ length key
    → length (aligned ps value) ≡ length (aligned ps key)
length-aligned ps key value v =
    let n = align_len ps (length key) in
    elim (Bool-cases (ltb 1 ps)) [
      | inl h ↦ rw (v, h) (omega (arith, length-take n value, length-take n key))
      | inr h ↦ rw h v
    ]

length-aligned_le : (ps : ℕ) (key : List ℕ) → length (aligned ps key) ≤ length key
length-aligned_le ps key = elim (Bool-cases (ltb 1 ps)) [
  | inl h ↦ rw h (omega (arith, length-take (align_len ps (length key)) key))
  | inr h ↦ rw h (omega arith)
]

-- A cache has no more slots for a key than the key has tokens: an insertion would fill it up.
pub lookup-le :
    (cache : RadixCache) (key : List ℕ) → WfCache cache → length (lookup cache key) ≤ length key
lookup-le cache key w =
    let ps = cache.page_size in
    let s =
      insert_loop-Stored 0 (aligned_pages ps key) cache (aligned ps key) (aligned ps key) w
        (aligned-Pages ps key w.positive) refl in
    omega (arith, s.found, s.within, length-aligned_le ps key)

pub insert-lookup :
    (now : ℕ) (cache : RadixCache) (key value : List ℕ)
    → WfCache cache
    → 1 < cache.page_size
    → length value ≡ length key
    → (r : ℕ × RadixCache) × (insert now cache key (some value) ≡ ok r)
      × (r.0 ≡ length (lookup cache key))
      × (lookup r.1 key ≡ lookup cache key ++ drop r.0 (aligned cache.page_size value))
      × (length (lookup r.1 key) ≡ length (aligned cache.page_size key))
      × ((other : List ℕ) → Extends (lookup cache other) (lookup r.1 other))
      × WfCache r.1
insert-lookup now cache key value w h v =
    let (r, run, s) = insert-Stored now cache key value w h v in
    let ps = cache.page_size in
    let answer : lookup r.1 key ≡ lookup cache key ++ drop r.0 (aligned ps value) =
      subst
        (λ p.
          walk p (length (aligned p key)) (aligned p key) r.1.root
          ≡ lookup cache key ++ drop r.0 (aligned ps value))
        (sym s.same_pages) s.slots in
    let full : length (lookup r.1 key) ≡ length (aligned ps key) = omega (
      arith,
      ap length answer,
      length-append (lookup cache key) (drop r.0 (aligned ps value)),
      length-drop r.0 (aligned ps value),
      length-aligned ps key value v,
      s.within,
      s.found,
    ) in
    (r, run, s.found, answer, full, s.others, s.whole)

-- A node that the tree holds stays in it.
pub insert-Keeps :
    (now : ℕ) (cache : RadixCache) (key value : List ℕ)
    → WfCache cache
    → 1 < cache.page_size
    → length value ≡ length key
    → (r : ℕ × RadixCache) → insert now cache key (some value) ≡ ok r
    → Keeps cache.root r.1.root
insert-Keeps now cache key value w h v r e =
    let (x, run, s) = insert-Stored now cache key value w h v in
    let same : x ≡ r = ok-injective (sym run ∙ e) in
    λ j i. subst (λ (y : ℕ × RadixCache). in_tree j y.1.root ≡ true) same (s.kept j i)

pub insert-page_size :
    (now : ℕ) (cache : RadixCache) (key value : List ℕ)
    → WfCache cache
    → 1 < cache.page_size
    → length value ≡ length key
    → (r : ℕ × RadixCache) → insert now cache key (some value) ≡ ok r
    → r.1.page_size ≡ cache.page_size
insert-page_size now cache key value w h v r e =
    let (x, run, s) = insert-Stored now cache key value w h v in
    let same : r ≡ x = ok-injective (sym e ∙ run) in
    ap (λ (y : ℕ × RadixCache). y.1.page_size) same ∙ s.same_pages

-- With pages of one token a key with a token raises TypeError, whatever is cached.
pub insert-one_token :
    (now token : ℕ) (cache : RadixCache) (key : List ℕ) (value : Option (List ℕ))
    → cache.page_size ≡ 1
    → insert now cache (token ∷ key) value ≡ err type_error
unfolding insert insert_helper
insert-one_token now token cache key value one = rw one
