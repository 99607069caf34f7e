-- ===== src/Radix/Totals.antt =====
-- `total_size`, `evictable_size` and `protected_size` of radix_cache.py.
use native.Mathlib.Nat.{mul-div_cancel, add-mul, zero-mul}
use mini_infer.Prelude.{
  ℕ, suc, ◌+◌, ◌-◌, ◌*◌, ◌<◌, ◌≡◌, ap, ◌∙◌, Bool, true, false, List, Option, none, some, length,
  arith, if◌then◌else◌,
}
use mini_infer.Prelude.Int.{ℤ, pos, ◌+ℤ◌, floor_to, min_ℤ, int_laws}
use mini_infer.Radix.Tree.{Label, Tree, Forest, node, nil, child, children}
use mini_infer.Radix.Cache.{RadixCache}
use mini_infer.Radix.Reads.{WfForest, WfChild}
use mini_infer.Radix.Weight.{weight, weight_all}
use mini_infer.Radix.Sizes.{held, held_len, free_len}
use mini_infer.Radix.Lookup.{WfCache, weight_parts}

unfoldable pub total_size : RadixCache → ℕ
unfolding weight
total_size cache = weight (λ l. length l.value) cache.root

-- The allocator's size and what is available of it, if there is an allocator.
unfoldable pub evictable_size : RadixCache → Option (ℕ × ℕ) → ℤ
unfolding floor_to
evictable_size cache none = floor_to cache.page_size cache.evictable_size_
evictable_size cache (some (size, available)) =
    min_ℤ (floor_to cache.page_size cache.evictable_size_) (pos (size - available))

unfoldable pub protected_size : RadixCache → ℤ
unfolding floor_to
protected_size cache = floor_to cache.page_size cache.protected_size_

split_len : (b : Bool) (n : ℕ) → (if b then 0 else n) + (if b then n else 0) ≡ n
split_len true n = omega arith
split_len false n = omega arith

-- Every node holds whole pages, and a slot for each token.
mutual
  unfolding weight WfForest

  weight-halves :
      (ps : ℕ) (k : List ℕ) (t : Tree)
      → WfChild ps k t
      → weight (λ l. length l.value) t ≡ weight free_len t + weight held_len t
  weight-halves ps k (node l kids) w =
      let one : free_len l + held_len l ≡ length l.key =
        split_len (held l.lock_ref) (length l.key) in
      omega (arith, weight_all-halves ps kids w.1, w.0.2, one)

  weight_all-halves :
      (ps : ℕ) (kids : Forest)
      → WfForest ps kids
      → weight_all (λ l. length l.value) kids ≡ weight_all free_len kids + weight_all held_len kids
  weight_all-halves ps nil w = omega arith
  weight_all-halves ps (child k t rest) w =
      omega (arith, weight-halves ps k t w.0, weight_all-halves ps rest w.2)

-- A count that is all of a node's tokens or none of them.
mutual
  unfolding weight WfForest

  weight-Pages :
      (f : Label → ℕ) (ps : ℕ) (k : List ℕ) (t : Tree)
      → ((l : Label) (n : ℕ) → length l.key ≡ n * ps → (m : ℕ) × (f l ≡ m * ps))
      → WfChild ps k t
      → (n : ℕ) × (weight f t ≡ n * ps)
  weight-Pages f ps k (node l kids) h w =
      let (n, e) = weight_all-Pages f ps kids h w.1 in
      let (m, d) = h l (suc w.0.1.0) w.0.1.1 in (m + n, omega (arith, e, d, add-mul m n ps))

  weight_all-Pages :
      (f : Label → ℕ) (ps : ℕ) (kids : Forest)
      → ((l : Label) (n : ℕ) → length l.key ≡ n * ps → (m : ℕ) × (f l ≡ m * ps))
      → WfForest ps kids
      → (n : ℕ) × (weight_all f kids ≡ n * ps)
  weight_all-Pages f ps nil h w = (0, omega (arith, zero-mul ps))
  weight_all-Pages f ps (child k t rest) h w =
      let (n, e) = weight-Pages f ps k t h w.0 in
      let (m, d) = weight_all-Pages f ps rest h w.2 in (n + m, omega (arith, e, d, add-mul n m ps))

part-Pages : (b : Bool) (ps n len : ℕ) → len ≡ n * ps → (m : ℕ) × ((if b then len else 0) ≡ m * ps)
part-Pages true ps n len e = (n, e)
part-Pages false ps n len e = (0, omega (arith, zero-mul ps))

rest-Pages : (b : Bool) (ps n len : ℕ) → len ≡ n * ps → (m : ℕ) × ((if b then 0 else len) ≡ m * ps)
rest-Pages true ps n len e = (0, omega (arith, zero-mul ps))
rest-Pages false ps n len e = (n, e)

floor-Pages : (ps n : ℕ) → 0 < ps → floor_to ps (pos (n * ps)) ≡ pos (n * ps)
unfolding floor_to
floor-Pages ps n h = ap (λ x. pos (x * ps)) (mul-div_cancel n h)

add_pos : (a b : ℕ) → pos a +ℤ pos b ≡ pos (a + b)
add_pos a b = omega int_laws

-- The counters of a well formed cache are of whole pages, and together they are the tokens that it
-- holds: what is reported as evictable is the tokens that no request holds, or less if less than
-- that is in use, and what is reported as protected is the rest.
pub sizes-WfCache :
    (cache : RadixCache)
    → WfCache cache
    → (evictable_size cache none ≡ cache.evictable_size_)
      × ((size available : ℕ)
          → evictable_size cache (some (size, available))
            ≡ min_ℤ cache.evictable_size_ (pos (size - available)))
      × (protected_size cache ≡ cache.protected_size_)
      × (cache.evictable_size_ +ℤ cache.protected_size_ ≡ pos (total_size cache))
unfolding evictable_size protected_size total_size
sizes-WfCache cache w =
    let ps = cache.page_size in
    let kids = children cache.root in
    let (n, e) =
      weight_all-Pages free_len ps kids
        (λ l m h. rest-Pages (held l.lock_ref) ps m (length l.key) h) w.shape in
    let (m, d) =
      weight_all-Pages held_len ps kids
        (λ l m h. part-Pages (held l.lock_ref) ps m (length l.key) h) w.shape in
    let free : floor_to ps cache.evictable_size_ ≡ cache.evictable_size_ =
      rw (w.evictable ∙ ap pos e) (floor-Pages ps n w.positive) in
    let held : floor_to ps cache.protected_size_ ≡ cache.protected_size_ =
      rw (w.protected ∙ ap pos d) (floor-Pages ps m w.positive) in
    let all : weight (λ l. length l.value) cache.root
        ≡ weight_all free_len kids + weight_all held_len kids =
      omega (
        arith,
        weight_parts (λ l. length l.value) cache.root,
        ap length w.root_empty,
        weight_all-halves ps kids w.shape,
      ) in
    (
      free,
      (λ size available. ap (λ x. min_ℤ x (pos (size - available))) free),
      held,
      rw (w.evictable, w.protected, all)
          (add_pos (weight_all free_len kids) (weight_all held_len kids)),
    )
