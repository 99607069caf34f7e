-- ===== src/Radix/Held.antt =====
-- The invariant of radix_cache.py's cache under `inc_lock_ref` and `dec_lock_ref`.
use mini_infer.Prelude.{
  ℕ, ◌+◌, ◌≡◌, refl, true, false, List, none, length, arith, ◌==◌, Bool-cases, inl, inr,
}
use mini_infer.Prelude.Int.{ℤ, pos, ◌+ℤ◌, ◌-ℤ◌, int_laws}
use mini_infer.Radix.Tree.{Tree, Forest, node, nil, child, children, get_child}
use mini_infer.Radix.Cache.{RadixCache}
use mini_infer.Radix.Reads.{WfForest, WfChild}
use mini_infer.Radix.Weight.{weight_all}
use mini_infer.Radix.Lock.{bump_path, bump_child, add_one, sub_one, inc_held, dec_held}
use mini_infer.Radix.Sizes.{held_len, free_len, add_one_edge, sub_one_edge, bump_child-weight}
use mini_infer.Radix.Lookup.{WfCache}

pub bump_child-none :
    (edge : ℕ) (bump : ℤ → ℤ) (id : ℕ) (k : List ℕ) (kids : Forest)
    → get_child k kids ≡ none
    → get_child k (bump_child edge bump id kids).now ≡ none
unfolding bump_path
bump_child-none edge bump id k nil e = refl
bump_child-none edge bump id k (child j t rest) e =
    ground (arith, bump_child-none edge bump id k rest)

mutual
  unfolding bump_path WfForest

  bump_path-WfChild :
      (ps edge : ℕ) (bump : ℤ → ℤ) (id : ℕ) (k : List ℕ) (t : Tree)
      → WfChild ps k t
      → WfChild ps k (bump_path edge bump id t).now
  bump_path-WfChild ps edge bump id k (node l kids) w = elim (Bool-cases (l.id == id)) [
    | inl s ↦ rw s w
    | inr n ↦ elim (Bool-cases (bump_child edge bump id kids).met) [
      | inl m ↦ rw (n, m) (w.0, bump_child-WfForest ps edge bump id kids w.1)
      | inr m ↦ rw (n, m) w
    ]
  ]

  bump_child-WfForest :
      (ps edge : ℕ) (bump : ℤ → ℤ) (id : ℕ) (kids : Forest)
      → WfForest ps kids
      → WfForest ps (bump_child edge bump id kids).now
  bump_child-WfForest ps edge bump id nil w = tt
  bump_child-WfForest ps edge bump id (child j t rest) w =
      elim (Bool-cases (bump_path edge bump id t).met) [
        | inl m ↦ rw m (bump_path-WfChild ps edge bump id j t w.0, w.1, w.2)
        | inr m ↦ rw m (
          w.0,
          bump_child-none edge bump id j rest w.1,
          bump_child-WfForest ps edge bump id rest w.2,
        )
      ]

sub_pos : (a b c : ℕ) → a ≡ b + c → pos a -ℤ pos c ≡ pos b
sub_pos a b c e = omega int_laws

add_pos : (a b c : ℕ) → a + c ≡ b → pos a +ℤ pos c ≡ pos b
add_pos a b c e = omega int_laws

-- To lock a node and to release it both keep the tree well formed and the counters right.
pub held-WfCache :
    (cache : RadixCache) (id : ℕ)
    → WfCache cache
    → WfCache (inc_held cache id).1 × WfCache (dec_held cache id).1
unfolding inc_held dec_held
held-WfCache cache id w =
    let kids = children cache.root in
    let ps = cache.page_size in
    let inc = bump_child 0 add_one id kids in
    let dec = bump_child 1 sub_one id kids in
    let inc_free =
      bump_child-weight 0 add_one free_len false id kids
        (λ l. omega (arith, add_one_edge l.lock_ref (length l.key))) in
    let inc_held =
      bump_child-weight 0 add_one held_len true id kids
        (λ l. omega (arith, add_one_edge l.lock_ref (length l.key))) in
    let dec_free =
      bump_child-weight 1 sub_one free_len true id kids
        (λ l. omega (arith, sub_one_edge l.lock_ref (length l.key))) in
    let dec_held =
      bump_child-weight 1 sub_one held_len false id kids
        (λ l. omega (arith, sub_one_edge l.lock_ref (length l.key))) in
    (
      record {
        positive = w.positive;
        shape = bump_child-WfForest ps 0 add_one id kids w.shape;
        root_locked = w.root_locked;
        root_empty = w.root_empty;
        evictable = rw w.evictable (
            sub_pos (weight_all free_len kids) (weight_all free_len inc.now) inc.moved
              (omega (arith, inc_free)));
        protected = rw w.protected (
            add_pos (weight_all held_len kids) (weight_all held_len inc.now) inc.moved
              (omega (arith, inc_held)));
      },
      record {
        positive = w.positive;
        shape = bump_child-WfForest ps 1 sub_one id kids w.shape;
        root_locked = w.root_locked;
        root_empty = w.root_empty;
        evictable = rw w.evictable (
            add_pos (weight_all free_len kids) (weight_all free_len dec.now) dec.moved
              (omega (arith, dec_free)));
        protected = rw w.protected (
            sub_pos (weight_all held_len kids) (weight_all held_len dec.now) dec.moved
              (omega (arith, dec_held)));
      },
    )
