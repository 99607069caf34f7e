-- ===== src/Radix/Unlock.antt =====
-- `dec_lock_ref` of radix_cache.py after `inc_lock_ref`, and the sizes that both keep.
use mini_infer.Prelude.{
  ℕ, ◌+◌, ◌≡◌, refl, ap, ◌∙◌, true, false, length, arith, ◌==◌, if◌then◌else◌, Bool-cases, inl, inr,
  ok, if_of_true,
}
use mathlib.Core.Path.{ap₂}
use mini_infer.Prelude.Int.{ℤ, pos, ◌+ℤ◌, ◌-ℤ◌, int_laws}
use mini_infer.Radix.Tree.{Label, Tree, Forest, node, nil, child, label, children}
use mini_infer.Radix.Cache.{RadixCache}
use mini_infer.Radix.Lock.{
  is_pos, Walked, bump_label, bump_path, bump_child, add_one, sub_one, inc_lock_ref, dec_lock_ref,
  inc_held, dec_held, in_tree, in_forest,
}

sub_add : (a : ℤ) → sub_one (add_one a) ≡ a
sub_add a = omega int_laws

edge_after : (a : ℤ) → is_pos 1 (add_one a) ≡ is_pos 0 a
unfolding ◌+ℤ◌
edge_after a = ground arith

-- Whether a walk meets its node does not depend on what it changes; one that does not changes nothing.
mutual
  unfolding bump_path

  miss_path :
      (e d : ℕ) (b c : ℤ → ℤ) (id : ℕ) (t : Tree)
      → (bump_path e b id t).met ≡ false
      → bump_path d c id t ≡ record { met = false; now = t; moved = 0 }
  miss_path e d b c id (node l kids) h = ground (arith, miss_child e d b c id kids)

  miss_child :
      (e d : ℕ) (b c : ℤ → ℤ) (id : ℕ) (kids : Forest)
      → (bump_child e b id kids).met ≡ false
      → bump_child d c id kids ≡ record { met = false; now = kids; moved = 0 }
  miss_child e d b c id nil h = refl
  miss_child e d b c id (child k t rest) h =
      ground (arith, miss_path e d b c id t, miss_child e d b c id rest)

bump_back :
    (l : Label) (r s : Walked Forest) (kids : Forest)
    → s ≡ record { met = true; now = kids; moved = r.moved }
    → bump_label 1 sub_one (record l { lock_ref = add_one l.lock_ref }) s ≡ record {
      met = true;
      now = node l kids;
      moved = (if is_pos 0 l.lock_ref then length l.key else 0) + r.moved;
    }
bump_back l r s kids e = rw (e, edge_after l.lock_ref, sub_add l.lock_ref)

mutual
  unfolding bump_path

  back_path :
      (id : ℕ) (t : Tree)
      → bump_path 1 sub_one id (bump_path 0 add_one id t).now
        ≡ record (bump_path 0 add_one id t) { now = t }
  back_path id (node l kids) = elim (Bool-cases (l.id == id)) [
    | inl s ↦
        rw (s, s)
          (bump_back l (record { met = true; now = kids; moved = 0 })
            (record { met = true; now = kids; moved = 0 }) kids refl)
    | inr n ↦ elim (Bool-cases (bump_child 0 add_one id kids).met) [
      | inl m ↦
          let e =
            back_child id kids
            ∙ ap (λ b. record { met = b; now = kids; moved = (bump_child 0 add_one id kids).moved })
                m in
          rw (n, m, n, ap (λ r. r.met) e) (bump_back l (bump_child 0 add_one id kids) _ kids e)
      | inr m ↦ rw (n, m, n, ap (λ r. r.met) (miss_child 0 1 add_one sub_one id kids m))
    ]
  ]

  back_child :
      (id : ℕ) (kids : Forest)
      → bump_child 1 sub_one id (bump_child 0 add_one id kids).now
        ≡ record (bump_child 0 add_one id kids) { now = kids }
  back_child id nil = refl
  back_child id (child k t rest) = elim (Bool-cases (bump_path 0 add_one id t).met) [
    | inl m ↦ let e = back_path id t in rw (m, e, m)
    | inr m ↦ let e = miss_path 0 1 add_one sub_one id t m in rw (m, e, back_child id rest)
  ]

node_parts : (t : Tree) → node (label t) (children t) ≡ t
node_parts (node l kids) = refl

dec_held-inc_held :
    (cache : RadixCache) (id : ℕ)
    → ((dec_held (inc_held cache id).1 id).1 ≡ cache)
      × ((inc_held cache id).0 +ℤ (dec_held (inc_held cache id).1 id).0 ≡ pos 0)
unfolding inc_held dec_held
dec_held-inc_held cache id =
    let r = bump_child 0 add_one id (children cache.root) in
    let tree : node (label cache.root) (children cache.root) ≡ cache.root = node_parts cache.root in
    let free : cache.evictable_size_ -ℤ pos r.moved +ℤ pos r.moved ≡ cache.evictable_size_ =
      omega int_laws in
    let held : cache.protected_size_ +ℤ pos r.moved -ℤ pos r.moved ≡ cache.protected_size_ =
      omega int_laws in
    rw (back_child id (children cache.root)) (
      ap
            (λ t. record cache {
              root = t;
              evictable_size_ = cache.evictable_size_ -ℤ pos r.moved +ℤ pos r.moved;
              protected_size_ = cache.protected_size_ +ℤ pos r.moved -ℤ pos r.moved;
            })
            tree
          ∙ ap₂ (λ a b. record cache { evictable_size_ = a; protected_size_ = b }) free held,
      omega int_laws,
    )

mutual
  unfolding bump_path in_tree

  -- A walk takes no node out and puts none in.
  in_tree-bump :
      (edge : ℕ) (bump : ℤ → ℤ) (id other : ℕ) (t : Tree)
      → in_tree other (bump_path edge bump id t).now ≡ in_tree other t
  in_tree-bump edge bump id other (node l kids) = elim (Bool-cases (l.id == id)) [
    | inl s ↦ rw s
    | inr n ↦ elim (Bool-cases (bump_child edge bump id kids).met) [
      | inl m ↦ rw (n, m, in_forest-bump edge bump id other kids)
      | inr m ↦ rw (n, m)
    ]
  ]

  in_forest-bump :
      (edge : ℕ) (bump : ℤ → ℤ) (id other : ℕ) (kids : Forest)
      → in_forest other (bump_child edge bump id kids).now ≡ in_forest other kids
  in_forest-bump edge bump id other nil = refl
  in_forest-bump edge bump id other (child k t rest) =
      elim (Bool-cases (bump_path edge bump id t).met) [
        | inl m ↦ rw (m, in_tree-bump edge bump id other t)
        | inr m ↦ rw (m, in_forest-bump edge bump id other rest)
      ]

in_tree-parts :
    (id : ℕ) (t : Tree) (kids : Forest)
    → in_forest id kids ≡ in_forest id (children t)
    → in_tree id (node (label t) kids) ≡ in_tree id t
unfolding in_tree
in_tree-parts id (node l below) kids e = rw e

-- Releasing a node of the tree that was just locked raises nothing and leaves the cache as it was,
-- and the two sizes returned cancel.
pub dec_lock_ref-inc_lock_ref :
    (cache : RadixCache) (id : ℕ)
    → in_tree id cache.root ≡ true
    → (locked : ℤ × RadixCache) × (freed : ℤ) × (inc_lock_ref cache id ≡ ok locked)
      × (dec_lock_ref locked.1 id ≡ ok (freed, cache))
      × (locked.0 +ℤ freed ≡ pos 0)
unfolding inc_lock_ref dec_lock_ref inc_held
dec_lock_ref-inc_lock_ref cache id h =
    let back = dec_held-inc_held cache id in
    let still : in_tree id (inc_held cache id).1.root ≡ true =
      in_tree-parts id cache.root (bump_child 0 add_one id (children cache.root)).now
        (in_forest-bump 0 add_one id id (children cache.root))
      ∙ h in
    (
      inc_held cache id,
      (dec_held (inc_held cache id).1 id).0,
      if_of_true _ _ h,
      if_of_true _ _ still ∙ ap (λ c. ok ((dec_held (inc_held cache id).1 id).0, c)) back.0,
      back.1,
    )
