-- ===== src/Radix/Sizes.antt =====
-- What the counters of radix_cache.py count: the tokens of the nodes that no request holds, and of
-- those that one does.
use mini_infer.Prelude.{
  ℕ, zero, suc, ◌+◌, ◌≡◌, refl, Bool, true, false, length, arith, ◌==◌, if◌then◌else◌, Bool-cases,
  inl, inr,
}
use mini_infer.Prelude.Int.{ℤ, pos, negsuc, int_laws}
use mini_infer.Radix.Tree.{Label, Tree, Forest, node, nil, child}
use mini_infer.Radix.Weight.{weight, weight_all}
use mini_infer.Radix.Lock.{is_pos, bump_path, bump_child, add_one, sub_one}

abbrev pub held : ℤ → Bool
held (pos zero) = false
held (pos (suc n)) = true
held (negsuc n) = false

abbrev pub held_len : Label → ℕ
held_len l = if held l.lock_ref then length l.key else 0

abbrev pub free_len : Label → ℕ
free_len l = if held l.lock_ref then 0 else length l.key

pub add_one_edge :
    (a : ℤ) (n : ℕ)
    → ((if held (add_one a) then 0 else n) + (if is_pos 0 a then n else 0)
        ≡ (if held a then 0 else n))
      × ((if held (add_one a) then n else 0)
          ≡ (if held a then n else 0) + (if is_pos 0 a then n else 0))
add_one_edge (pos m) n =
    let e : add_one (pos m) ≡ pos (suc m) = omega int_laws in rw e (ground arith)
add_one_edge (negsuc zero) n =
    let e : add_one (negsuc zero) ≡ pos 0 = omega int_laws in rw e (ground arith)
add_one_edge (negsuc (suc m)) n =
    let e : add_one (negsuc (suc m)) ≡ negsuc m = omega int_laws in rw e (ground arith)

pub sub_one_edge :
    (a : ℤ) (n : ℕ)
    → ((if held (sub_one a) then 0 else n)
        ≡ (if held a then 0 else n) + (if is_pos 1 a then n else 0))
      × ((if held (sub_one a) then n else 0) + (if is_pos 1 a then n else 0)
          ≡ (if held a then n else 0))
sub_one_edge (pos zero) n =
    let e : sub_one (pos zero) ≡ negsuc 0 = omega int_laws in rw e (ground arith)
sub_one_edge (pos (suc zero)) n =
    let e : sub_one (pos 1) ≡ pos 0 = omega int_laws in rw e (ground arith)
sub_one_edge (pos (suc (suc m))) n =
    let e : sub_one (pos (suc (suc m))) ≡ pos (suc m) = omega int_laws in rw e (ground arith)
sub_one_edge (negsuc m) n =
    let e : sub_one (negsuc m) ≡ negsuc (suc m) = omega int_laws in rw e (ground arith)

-- `moved` more than before, or less.
abbrev pub Moves : Bool → ℕ → ℕ → ℕ → Type 0
Moves more before after moved =
    before + (if more then moved else 0) ≡ after + (if more then 0 else moved)

Moves-none : (more : Bool) (n : ℕ) → Moves more n n 0
Moves-none true n = refl
Moves-none false n = refl

Moves-add :
    (more : Bool) (a b m c d n : ℕ)
    → Moves more a b m
    → Moves more c d n
    → Moves more (a + c) (b + d) (m + n)
Moves-add true a b m c d n h k = omega arith
Moves-add false a b m c d n h k = omega arith

Moves-after : (more : Bool) (a c d n : ℕ) → Moves more c d n → Moves more (a + c) (a + d) n
Moves-after true a c d n h = omega arith
Moves-after false a c d n h = omega arith

Moves-before : (more : Bool) (a c b n : ℕ) → Moves more a b n → Moves more (a + c) (b + c) n
Moves-before true a c d n h = omega arith
Moves-before false a c d n h = omega arith

-- A walk that moves `moved` tokens out of one sum or into the other, by what it does to one node.
mutual
  unfolding bump_path weight

  bump_path-weight :
      (edge : ℕ) (bump : ℤ → ℤ) (f : Label → ℕ) (sign : Bool) (id : ℕ) (t : Tree)
      → ((l : Label)
          → Moves sign
              (f l)
              (f (record l { lock_ref = bump l.lock_ref }))
              (if is_pos edge l.lock_ref then length l.key else 0))
      → Moves sign
          (weight f t)
          (weight f (bump_path edge bump id t).now)
          (bump_path edge bump id t).moved
  bump_path-weight edge bump f sign id (node l kids) h = elim (Bool-cases (l.id == id)) [
    | inl s ↦ rw s (
        Moves-add sign (f l) _ _ (weight_all f kids) _ 0 (h l)
          (Moves-none sign (weight_all f kids)))
    | inr n ↦ elim (Bool-cases (bump_child edge bump id kids).met) [
      | inl m ↦
          rw (n, m)
            (Moves-add sign (f l) _ _ (weight_all f kids) _ _ (h l)
              (bump_child-weight edge bump f sign id kids h))
      | inr m ↦ rw (n, m) (Moves-none sign (f l + weight_all f kids))
    ]
  ]

  pub bump_child-weight :
      (edge : ℕ) (bump : ℤ → ℤ) (f : Label → ℕ) (sign : Bool) (id : ℕ) (kids : Forest)
      → ((l : Label)
          → Moves sign
              (f l)
              (f (record l { lock_ref = bump l.lock_ref }))
              (if is_pos edge l.lock_ref then length l.key else 0))
      → Moves sign
          (weight_all f kids)
          (weight_all f (bump_child edge bump id kids).now)
          (bump_child edge bump id kids).moved
  bump_child-weight edge bump f sign id nil h = Moves-none sign 0
  bump_child-weight edge bump f sign id (child k t rest) h =
      elim (Bool-cases (bump_path edge bump id t).met) [
        | inl m ↦ rw m (
            Moves-before sign (weight f t) (weight_all f rest) _ _
              (bump_path-weight edge bump f sign id t h))
        | inr m ↦ rw m (
            Moves-after sign (weight f t) (weight_all f rest) _ _
              (bump_child-weight edge bump f sign id rest h))
      ]
