-- ===== src/MemoryPool/Place.antt =====
-- What the kernels are for, token by token: a token whose position starts a page takes the next free
-- page, and any other token takes the slot behind the token before it.
pub mod Index
use mini_infer.Prelude.{
  ℕ, zero, suc, ◌+◌, ◌-◌, ◌*◌, ◌/◌, ◌%◌, ◌<◌, ◌≤◌, ◌≡◌, ◌≢◌, refl, ap, ◌∙◌, Option, List, [], ◌∷◌,
  ◌++◌, arith, ◌==◌, ltb, if◌then◌else◌, get_or, drop, length, ℕ_discrete, dec_lt, sym, ==_iff,
  Bool, true, false,
}
use mini_infer.MemoryPool.Sizes.{
  ceil_div, ceil_div_step, new_pages, inside-mul, start-mul, ceil_div_start, ceil_div_inside,
  div_on_page, mod_on_page,
}
use native.Mathlib.Nat.{le-div_iff_mul-le}
use mini_infer.MemoryPool.Kernels.{next_loc}

-- `n` tokens from position `p` on; `slot` is the one behind the token before.
unfoldable pub place : ℕ → ℕ → ℕ → List ℕ → ℕ → List ℕ
place page_size p slot pages zero = []
place page_size p slot pages (suc n) =
    let here = if p % page_size == 0 then get_or pages 0 0 * page_size else slot in
    here ∷ place page_size (p + 1) (here + 1) (if p % page_size == 0 then drop 1 pages else pages) n

pub record Extent : Type 0 where
  pub prefix_len : ℕ
  pub seq_len : ℕ
  pub last_loc : Option ℕ

-- The sequences of a batch, one after another.
unfoldable pub place_all : ℕ → List Extent → List ℕ → List ℕ
unfolding place
place_all page_size [] pages = []
place_all page_size (e ∷ batch) pages =
    place page_size e.prefix_len (next_loc e.last_loc) pages (e.seq_len - e.prefix_len)
    ++ place_all page_size batch (drop (new_pages page_size e.prefix_len e.seq_len) pages)

pub length-place : (ps p s : ℕ) (pages : List ℕ) (n : ℕ) → length (place ps p s pages n) ≡ n
unfolding place
length-place ps p s pages zero = refl
length-place ps p s pages (suc n) = ap suc (length-place ps (p + 1) _ _ n)

-- The slot of the `j`-th token in closed form.
abbrev pub slot_at : ℕ → ℕ → ℕ → List ℕ → ℕ → ℕ
slot_at ps p slot pages j =
    if ltb (p + j) (ceil_div p ps * ps)
    then slot + j
    else get_or pages ((p + j) / ps - ceil_div p ps) 0 * ps + (p + j) % ps

pub get_or-drop : (n : ℕ) (xs : List ℕ) (i d : ℕ) → get_or (drop n xs) i d ≡ get_or xs (n + i) d
get_or-drop zero xs i d = ap (λ k. get_or xs k d) (omega arith)
get_or-drop (suc n) [] i d = refl
get_or-drop (suc n) (x ∷ xs) i d =
    get_or-drop n xs i d ∙ ap (λ k. get_or (x ∷ xs) k d) {x = suc (n + i)} (omega arith)

-- The first token, and the step from one token to the next, where a page starts and where none does.
module _ (ps p : ℕ) (pages : List ℕ) (pos : 0 < ps) where
  slot_at-first_start : (slot : ℕ) → p % ps ≡ 0 → slot_at ps p slot pages 0 ≡ get_or pages 0 0 * ps
  slot_at-first_start slot e =
      let x : p + 0 ≡ p = omega arith in
      rw x (
        ground (
          arith,
          start-mul p ps pos e,
          ceil_div_start p ps pos e,
          ap (λ k. get_or pages k 0) {x = p / ps - ceil_div p ps} {y = 0}
              (omega (arith, ceil_div_start p ps pos e)),
        ))

  slot_at-first_inside : (slot : ℕ) → p % ps ≢ 0 → slot_at ps p slot pages 0 ≡ slot
  slot_at-first_inside slot e = ground (arith, inside-mul p ps pos e)

  slot_at-step_start :
      (slot j : ℕ)
      → p % ps ≡ 0
      → slot_at ps (p + 1) (get_or pages 0 0 * ps + 1) (drop 1 pages) j
        ≡ slot_at ps p slot pages (suc j)
  slot_at-step_start slot j e =
      let c : ceil_div (p + 1) ps ≡ p / ps + 1 =
        ground (arith, ceil_div_start p ps pos e, ceil_div_step p ps pos) in
      let x : p + 1 + j ≡ p + suc j = omega arith in
      let m : p / ps * ps ≡ p = rw (ceil_div_start p ps pos e) at (start-mul p ps pos e) in
      rw (c, x, ceil_div_start p ps pos e)
        (elim (dec_lt (suc j) ps) [
          | yes l ↦
              let d : (p + suc j) / ps ≡ p / ps =
                ap (λ k. (k + suc j) / ps) (sym m) ∙ div_on_page (p / ps) (suc j) ps l in
              let r : (p + suc j) % ps ≡ suc j =
                ap (λ k. (k + suc j) % ps) (sym m) ∙ mod_on_page (p / ps) (suc j) ps l in
              let z : p / ps - p / ps ≡ 0 = omega arith in rw (d, r, z) (ground (arith, m))
          | no l ↦
              let f : p / ps + 1 ≤ (p + suc j) / ps =
                (le-div_iff_mul-le pos).1 (omega (arith, m)) in
              let g : get_or (drop 1 pages) ((p + suc j) / ps - (p / ps + 1)) 0
                  ≡ get_or pages ((p + suc j) / ps - p / ps) 0 =
                get_or-drop 1 pages _ 0 ∙ ap (λ k. get_or pages k 0) (omega arith) in
              rw g (ground (arith, m))
        ])

  slot_at-step_inside :
      (slot j : ℕ)
      → p % ps ≢ 0
      → slot_at ps (p + 1) (slot + 1) pages j ≡ slot_at ps p slot pages (suc j)
  slot_at-step_inside slot j e =
      let c : ceil_div (p + 1) ps ≡ ceil_div p ps = ground (arith, ceil_div_step p ps pos) in
      let x : p + 1 + j ≡ p + suc j = omega arith in rw (c, x) (ground arith)

pub place-slot_at :
    (ps p slot : ℕ) (pages : List ℕ) (n j : ℕ)
    → 0 < ps
    → j < n
    → get_or (place ps p slot pages n) j 0 ≡ slot_at ps p slot pages j
unfolding place
place-slot_at ps p slot pages zero j pos h = elim h [ ]
place-slot_at ps p slot pages (suc n) zero pos h = elim (ℕ_discrete (p % ps) 0) [
  | yes e ↦ rw ((==_iff (p % ps) 0).1 e) (sym (slot_at-first_start ps p pages pos slot e))
  | no e ↦ ground (arith, slot_at-first_inside ps p pages pos slot e)
]
place-slot_at ps p slot pages (suc n) (suc j) pos h = elim (ℕ_discrete (p % ps) 0) [
  | yes e ↦ rw ((==_iff (p % ps) 0).1 e) (
      place-slot_at ps (p + 1) _ (drop 1 pages) n j pos (omega arith)
      ∙ slot_at-step_start ps p pages pos slot j e)
  | no e ↦
      let f : (p % ps == 0) ≡ false = ground arith in
      rw f (
        place-slot_at ps (p + 1) (slot + 1) pages n j pos (omega arith)
        ∙ slot_at-step_inside ps p pages pos slot j e)
]

-- The free pages that a batch takes.
unfoldable pub pages_needed : ℕ → List Extent → ℕ
pages_needed page_size [] = 0
pages_needed page_size (e ∷ batch) =
    new_pages page_size e.prefix_len e.seq_len + pages_needed page_size batch
