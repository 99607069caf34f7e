-- ===== src/Radix/Lock.antt =====
-- `inc_lock_ref` and `dec_lock_ref` of radix_cache.py: the way from a node up to the root, the root
-- left out, is the way down to the node here. A node that an eviction took out of the tree still has a
-- parent, and a call on it would change counters; such a call is left out, as `not_modelled`.
use mini_infer.Prelude.{
  ℕ, ◌+◌, Bool, true, false, ◌||◌, length, ◌==◌, if◌then◌else◌, Result, ok, err, not_modelled,
}
use mini_infer.Prelude.Int.{ℤ, pos, negsuc, ◌+ℤ◌, ◌-ℤ◌}
use mini_infer.Radix.Tree.{Label, Tree, Forest, node, nil, child, label, children}
use mini_infer.Radix.Cache.{RadixCache}

-- `lock_ref == n`
abbrev pub is_pos : ℕ → ℤ → Bool
is_pos n (pos m) = m == n
is_pos n (negsuc m) = false

-- What a walk changed: whether it met the node, the tree, and the tokens whose nodes it moved
-- between the evictable and the protected ones.
pub record Walked (A : Type 0) : Type 0 where
  pub met : Bool
  pub now : A
  pub moved : ℕ

-- `edge` is the count at which a node moves, `bump` the change of the count.
abbrev pub bump_label : ℕ → (ℤ → ℤ) → Label → Walked Forest → Walked Tree
bump_label edge bump l r = record {
  met = true;
  now = node (record l { lock_ref = bump l.lock_ref }) r.now;
  moved = (if is_pos edge l.lock_ref then length l.key else 0) + r.moved;
}

unfoldable mutual
  pub bump_path : ℕ → (ℤ → ℤ) → ℕ → Tree → Walked Tree
  bump_path edge bump id (node l kids) =
      let r = bump_child edge bump id kids in
      if l.id == id
      then bump_label edge bump l (record { met = true; now = kids; moved = 0 })
      else (if r.met
          then bump_label edge bump l r
          else record { met = false; now = node l kids; moved = 0 })

  pub bump_child : ℕ → (ℤ → ℤ) → ℕ → Forest → Walked Forest
  bump_child edge bump id nil = record { met = false; now = nil; moved = 0 }
  bump_child edge bump id (child k t rest) =
      let r = bump_path edge bump id t in
      let s = bump_child edge bump id rest in
      if r.met
      then record { met = true; now = child k r.now rest; moved = r.moved }
      else record { met = s.met; now = child k t s.now; moved = s.moved }

abbrev pub add_one : ℤ → ℤ
add_one a = a +ℤ pos 1

abbrev pub sub_one : ℤ → ℤ
sub_one a = a -ℤ pos 1

unfoldable mutual
  -- The root or a node under it.
  pub in_tree : ℕ → Tree → Bool
  in_tree id (node l kids) = let below = in_forest id kids in (l.id == id) || below

  pub in_forest : ℕ → Forest → Bool
  in_forest id nil = false
  in_forest id (child k t rest) =
      let here = in_tree id t in let later = in_forest id rest in here || later

-- `inc_lock_ref` of a node that the tree holds, and of every node above it up to the root: the size
-- that changes hands, as the call returns it, and the cache.
unfoldable pub inc_held : RadixCache → ℕ → ℤ × RadixCache
unfolding bump_path
inc_held cache id =
    let r = bump_child 0 add_one id (children cache.root) in
    (
      pos 0 -ℤ pos r.moved,
      record cache {
        root = node (label cache.root) r.now;
        evictable_size_ = cache.evictable_size_ -ℤ pos r.moved;
        protected_size_ = cache.protected_size_ +ℤ pos r.moved;
      },
    )

unfoldable pub dec_held : RadixCache → ℕ → ℤ × RadixCache
unfolding bump_path
dec_held cache id =
    let r = bump_child 1 sub_one id (children cache.root) in
    (
      pos r.moved,
      record cache {
        root = node (label cache.root) r.now;
        evictable_size_ = cache.evictable_size_ +ℤ pos r.moved;
        protected_size_ = cache.protected_size_ -ℤ pos r.moved;
      },
    )

unfoldable pub inc_lock_ref : RadixCache → ℕ → Result (ℤ × RadixCache)
unfolding inc_held in_tree
inc_lock_ref cache id = if in_tree id cache.root then ok (inc_held cache id) else err not_modelled

unfoldable pub dec_lock_ref : RadixCache → ℕ → Result (ℤ × RadixCache)
unfolding dec_held in_tree
dec_lock_ref cache id = if in_tree id cache.root then ok (dec_held cache id) else err not_modelled
