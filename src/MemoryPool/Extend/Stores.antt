-- ===== src/MemoryPool/Extend/Stores.antt =====
-- What one instance of `alloc_extend_kernel` writes: the slot of each of its tokens, and nothing else.
use mini_infer.Prelude.{
  ℕ, ◌+◌, ◌-◌, ◌<◌, ◌≤◌, ◌≡◌, refl, inl, inr, false, Option, List, ◌++◌, arith, ◌==◌, Bool-cases,
  drop, dec_lt, lt→ltb, ==_iff,
}
use mini_infer.MemoryPool.Launch.{
  Write, ElemWrite, store_lanes-Elem, Elem-append, append-Elem_left, append-Elem_right,
}
use mini_infer.MemoryPool.Sizes.{new_pages}
use mini_infer.MemoryPool.Kernels.{next_loc, extend_stores}
use mini_infer.MemoryPool.Extend.Parts.{
  IsToken, old_end, full_end, le-old_end, old_end-le-full_end, full_end-le, part1_len, part2_len,
  part1, part2, part3, part1-Token, part2-Token, part3-Token,
}

-- Where the first test of the kernel fails, tokens lie behind the old page.
past_old :
    (ps pre seq : ℕ)
    → (pre + part1_len ps pre seq == seq) ≡ false
    → pre ≤ seq
    → old_end ps pre < seq
past_old ps pre seq f fits = ground arith

module _ (ps : ℕ) (pos : 0 < ps) (pre seq : ℕ) (fits : pre ≤ seq) (out new max_tokens : ℕ)
    (last : Option ℕ) (free_pages : List ℕ) where
  abbrev stores : List Write
  stores = extend_stores seq pre out new (new_pages ps pre seq) last free_pages ps max_tokens

  abbrev first : List Write
  first = part1 ps pos pre seq fits out new (next_loc last) free_pages

  abbrev second : List Write
  second = part2 ps pos pre seq fits out new (next_loc last) free_pages max_tokens

  abbrev third : List Write
  third = part3 ps pos pre seq fits out new (next_loc last) free_pages

  -- The early returns of the kernel.
  data Shape : Type 0 where
    old_only : pre + part1_len ps pre seq ≡ seq → stores ≡ first → Shape
    full_only : old_end ps pre < seq → full_end ps seq ≡ seq → stores ≡ first ++ second → Shape
    partial : old_end ps pre < seq → stores ≡ first ++ (second ++ third) → Shape

  stores-Shape : Shape
  unfolding extend_stores
  stores-Shape = elim (Bool-cases (pre + part1_len ps pre seq == seq)) [
    | inl a ↦ old_only ((==_iff _ _).0 a) (rw (a, extend_stores))
    | inr a ↦ elim (Bool-cases (pre + part1_len ps pre seq + part2_len ps pre seq == seq)) [
      | inl b ↦
          full_only (past_old ps pre seq a fits)
            (let p = past_old ps pre seq a fits in
              omega (
                arith,
                (==_iff _ _).0 b,
                old_end-le-full_end ps pos pre seq (omega arith),
                le-old_end ps pos pre,
              ))
            (rw (a, b, extend_stores))
      | inr b ↦ partial (past_old ps pre seq a fits) (rw (a, b, extend_stores))
    ]
  ]

  -- Whatever an instance writes is the slot of one of its tokens, at that token's place.
  pub stores-Token :
      (w : Write)
      → ElemWrite w stores
      → (j : ℕ) × IsToken ps pre seq out (next_loc last) (drop new free_pages) j w
  stores-Token w m = elim stores-Shape [
    | old_only a e ↦ one (rw e at m)
    | full_only p a e ↦ elim (Elem-append w first second (rw e at m)) [
      | inl n ↦ one n
      | inr n ↦ two p n
    ]
    | partial p e ↦ elim (Elem-append w first (second ++ third) (rw e at m)) [
      | inl n ↦ one n
      | inr n ↦ elim (Elem-append w second third n) [ inl n ↦ two p n | inr n ↦ three p n ]
    ]
  ]
    where
      one :
          ElemWrite w first
          → (j : ℕ) × IsToken ps pre seq out (next_loc last) (drop new free_pages) j w
      one = part1-Token ps pos pre seq fits out new (next_loc last) free_pages w

      two :
          old_end ps pre < seq
          → ElemWrite w second
          → (j : ℕ) × IsToken ps pre seq out (next_loc last) (drop new free_pages) j w
      two p = part2-Token ps pos pre seq fits out new (next_loc last) free_pages p max_tokens w

      three :
          old_end ps pre < seq
          → ElemWrite w third
          → (j : ℕ) × IsToken ps pre seq out (next_loc last) (drop new free_pages) j w
      three p = part3-Token ps pos pre seq fits out new (next_loc last) free_pages p w

  -- And every token is written.
  abbrev Stored : List Write → ℕ → Type 0
  Stored ws j = (w : Write) × ElemWrite w ws × (w.address ≡ out + j)

  Stored-first : (j : ℕ) → j < part1_len ps pre seq → Stored first j
  Stored-first j h =
      let old = le-old_end ps pos pre in
      (_, store_lanes-Elem _ _ _ ps j (omega arith) (lt→ltb _ _ h), refl)

  Stored-second :
      (j : ℕ)
      → part1_len ps pre seq ≤ j
      → j < part1_len ps pre seq + part2_len ps pre seq
      → j < max_tokens
      → Stored second j
  Stored-second j g h l = (
    _,
    store_lanes-Elem _ _ _ max_tokens (j - part1_len ps pre seq) (omega arith)
        (lt→ltb _ _ (omega arith)),
    omega arith,
  )

  Stored-third :
      (j : ℕ)
      → old_end ps pre < seq
      → part1_len ps pre seq + part2_len ps pre seq ≤ j
      → j < seq - pre
      → Stored third j
  Stored-third j p g h =
      let full = full_end-le ps pos seq in
      let old = le-old_end ps pos pre in
      let between = old_end-le-full_end ps pos pre seq (omega arith) in
      (
        _,
        store_lanes-Elem _ _ _ ps (j - part1_len ps pre seq - part2_len ps pre seq) (omega arith)
            (lt→ltb _ _ (omega arith)),
        omega arith,
      )

  left : (xs ys : List Write) (j : ℕ) → Stored xs j → Stored (xs ++ ys) j
  left xs ys j (w, m, e) = (w, append-Elem_left w xs ys m, e)

  right : (xs ys : List Write) (j : ℕ) → Stored ys j → Stored (xs ++ ys) j
  right xs ys j (w, m, e) = (w, append-Elem_right w xs ys m, e)

  pub token-Stored : (j : ℕ) → j < seq - pre → seq - pre ≤ max_tokens → Stored stores j
  token-Stored j h l = elim stores-Shape [
    | old_only a e ↦ rw e (Stored-first j (omega arith))
    | full_only p a e ↦ rw e (elim (dec_lt j (part1_len ps pre seq)) [
      | yes k ↦ left first second j (Stored-first j k)
      | no k ↦
          right first second j
            (Stored-second j (omega arith) (omega (arith, le-old_end ps pos pre)) (omega arith))
    ])
    | partial p e ↦ rw e (elim (dec_lt j (part1_len ps pre seq)) [
      | yes k ↦ left first (second ++ third) j (Stored-first j k)
      | no k ↦
          right first (second ++ third) j
            (elim (dec_lt j (part1_len ps pre seq + part2_len ps pre seq)) [
              | yes m ↦ left second third j (Stored-second j (omega arith) m (omega arith))
              | no m ↦ right second third j (Stored-third j p (omega arith) h)
            ])
    ])
  ]
