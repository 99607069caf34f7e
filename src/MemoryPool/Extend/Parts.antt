-- ===== src/MemoryPool/Extend/Parts.antt =====
-- The three parts of `alloc_extend_kernel`: the rest of the old page, the new full pages, and the new
-- partial page. Each writes the slots of the token-by-token placement.
use mini_infer.Prelude.{
  ℕ, ◌+◌, ◌-◌, ◌*◌, ◌/◌, ◌%◌, ◌<◌, ◌≤◌, ◌≡◌, ◌≢◌, sym, ap, ◌∙◌, min, false, List, arith, ltb,
  get_or, drop, ℕ_discrete, ltb→lt,
}
use native.Mathlib.Nat.{le-div_iff_mul-le, div-add-mod', mod-lt}
use mini_infer.MemoryPool.Launch.{Write, ElemWrite, store_lanes, Elem-store_lanes}
use mini_infer.MemoryPool.Sizes.{
  ceil_div, ceil_div_inside, start-mul, inside-mul, div_on_page, mod_on_page, new_pages,
}
use mini_infer.MemoryPool.Place.{slot_at, get_or-drop}

-- The write of the `j`-th new token.
abbrev pub IsToken : ℕ → ℕ → ℕ → ℕ → ℕ → List ℕ → ℕ → Write → Type 0
IsToken ps pre seq out slot pages j w =
    (j < seq - pre) × (w.address ≡ out + j) × (w.value ≡ slot_at ps pre slot pages j)

-- The end of the old page, and of the last full page.
abbrev pub old_end : ℕ → ℕ → ℕ
old_end ps pre = ceil_div pre ps * ps

abbrev pub full_end : ℕ → ℕ → ℕ
full_end ps seq = seq / ps * ps

module _ (ps : ℕ) (pos : 0 < ps) where
  pub le-old_end : (pre : ℕ) → (pre ≤ old_end ps pre) × (old_end ps pre < pre + ps)
  le-old_end pre = elim (ℕ_discrete (pre % ps) 0) [
    | yes e ↦ omega (arith, start-mul pre ps pos e)
    | no e ↦
        let below : pre / ps * ps ≤ pre = omega (arith, div-add-mod' pre ps) in
        let rest : pre % ps + pre / ps * ps ≡ pre = omega (arith, div-add-mod' pre ps) in
        (omega (arith, inside-mul pre ps pos e), rw (ceil_div_inside pre ps pos e) (grind arith))
  ]

  pub old_end-le-full_end : (pre seq : ℕ) → old_end ps pre ≤ seq → old_end ps pre ≤ full_end ps seq
  old_end-le-full_end pre seq h =
      let q : ceil_div pre ps ≤ seq / ps = (le-div_iff_mul-le pos).1 h in grind arith

  pub full_end-le : (seq : ℕ) → (full_end ps seq ≤ seq) × (seq < full_end ps seq + ps)
  full_end-le seq = omega (arith, div-add-mod' seq ps, mod-lt seq pos)

  module _ (pre slot : ℕ) (pages : List ℕ) where
    slot_at-old : (j : ℕ) → pre + j < old_end ps pre → slot_at ps pre slot pages j ≡ slot + j
    slot_at-old j h = ground arith

    slot_at-new :
        (q r j : ℕ)
        → ceil_div pre ps ≤ q
        → r < ps
        → pre + j ≡ q * ps + r
        → slot_at ps pre slot pages j ≡ get_or pages (q - ceil_div pre ps) 0 * ps + r
    slot_at-new q r j h l e =
        let old : old_end ps pre ≤ q * ps = grind arith in
        let d : (pre + j) / ps ≡ q = ap (λ k. k / ps) e ∙ div_on_page q r ps l in
        let m : (pre + j) % ps ≡ r = ap (λ k. k % ps) e ∙ mod_on_page q r ps l in
        let t : ltb (pre + j) (old_end ps pre) ≡ false = ground arith in rw (t, d, m)

abbrev pub part1_len : ℕ → ℕ → ℕ → ℕ
part1_len ps pre seq = min seq (old_end ps pre) - pre

abbrev pub part2_len : ℕ → ℕ → ℕ → ℕ
part2_len ps pre seq = full_end ps seq - old_end ps pre

abbrev pub part3_len : ℕ → ℕ → ℕ
part3_len ps seq = seq - full_end ps seq

module _ (ps : ℕ) (pos : 0 < ps) (pre seq : ℕ) (fits : pre ≤ seq) (out new slot : ℕ)
    (free_pages : List ℕ) where
  abbrev pub Token : Write → Type 0
  Token w = (j : ℕ) × IsToken ps pre seq out slot (drop new free_pages) j w

  abbrev pub part1 : List Write
  part1 = store_lanes (λ o. ltb o (part1_len ps pre seq)) (λ o. out + o) (λ o. slot + o) ps

  abbrev pub part2_value : ℕ → ℕ
  part2_value o = get_or free_pages (new + o / ps) 0 * ps + o % ps

  abbrev pub part2 : ℕ → List Write
  part2 max_tokens =
      store_lanes (λ o. ltb o (part2_len ps pre seq)) (λ o. out + part1_len ps pre seq + o)
        part2_value max_tokens

  abbrev pub part3_value : ℕ → ℕ
  part3_value o = get_or free_pages (new + new_pages ps pre seq - 1) 0 * ps + o

  abbrev pub part3 : List Write
  part3 =
      store_lanes (λ o. ltb o (part3_len ps seq))
        (λ o. out + part1_len ps pre seq + part2_len ps pre seq + o) part3_value ps

  pub part1-Token : (w : Write) → ElemWrite w part1 → Token w
  part1-Token w m =
      let (o, l, t, a, v) = Elem-store_lanes _ _ _ ps w m in
      let b : o < part1_len ps pre seq = ltb→lt _ _ t in
      (
        o,
        (
          omega arith,
          a,
          v ∙ sym (slot_at-old ps pos pre slot (drop new free_pages) o (omega arith)),
        ),
      )

  -- Behind the old page: the two other parts.
  module _ (past : old_end ps pre < seq) where
    part2_slot :
        (o : ℕ)
        → o < part2_len ps pre seq
        → slot_at ps pre slot (drop new free_pages) (part1_len ps pre seq + o) ≡ part2_value o
    part2_slot o b =
        let old = le-old_end ps pos pre in
        let split : ceil_div pre ps * ps + o ≡ (ceil_div pre ps + o / ps) * ps + o % ps =
          grind (arith, div-add-mod' o ps) in
        slot_at-new ps pos pre slot (drop new free_pages) (ceil_div pre ps + o / ps) (o % ps)
          (part1_len ps pre seq + o) (omega arith) (mod-lt o pos) (omega (arith, split))
        ∙ ap (λ k. k * ps + o % ps)
            (get_or-drop new free_pages _ 0 ∙ ap (λ k. get_or free_pages k 0) (omega arith))

    part3_slot :
        (o : ℕ)
        → o < part3_len ps seq
        → slot_at ps pre slot
            (drop new free_pages)
            (part1_len ps pre seq + part2_len ps pre seq + o)
          ≡ part3_value o
    part3_slot o b =
        let old = le-old_end ps pos pre in
        let full = full_end-le ps pos seq in
        let between = old_end-le-full_end ps pos pre seq (omega arith) in
        let q : ceil_div pre ps ≤ seq / ps = (le-div_iff_mul-le pos).1 (omega arith) in
        let inside : seq % ps ≢ 0 = λ z. omega (arith, z, b, div-add-mod' seq ps) in
        let c = ceil_div_inside seq ps pos inside in
        slot_at-new ps pos pre slot (drop new free_pages) (seq / ps) o
          (part1_len ps pre seq + part2_len ps pre seq + o) q (omega arith) (omega arith)
        ∙ ap (λ k. k * ps + o)
            (get_or-drop new free_pages _ 0 ∙ ap (λ k. get_or free_pages k 0) (omega (arith, c)))

    pub part2-Token : (max_tokens : ℕ) (w : Write) → ElemWrite w (part2 max_tokens) → Token w
    part2-Token max_tokens w m =
        let (o, l, t, a, v) = Elem-store_lanes _ _ _ max_tokens w m in
        let b : o < part2_len ps pre seq = ltb→lt _ _ t in
        let old = le-old_end ps pos pre in
        let full = full_end-le ps pos seq in
        (part1_len ps pre seq + o, (omega arith, omega (arith, a), v ∙ sym (part2_slot o b)))

    pub part3-Token : (w : Write) → ElemWrite w part3 → Token w
    part3-Token w m =
        let (o, l, t, a, v) = Elem-store_lanes _ _ _ ps w m in
        let b : o < part3_len ps seq = ltb→lt _ _ t in
        let old = le-old_end ps pos pre in
        let full = full_end-le ps pos seq in
        let between = old_end-le-full_end ps pos pre seq (omega arith) in
        (
          part1_len ps pre seq + part2_len ps pre seq + o,
          (omega arith, omega (arith, a), v ∙ sym (part3_slot o b)),
        )
