-- ===== src/MemoryPool/Sizes.antt =====
-- `next_power_of_2` and `get_num_new_pages` of memory_pool.py, and the ceiling division that the
-- file writes out as `(n + page_size - 1) // page_size`.
use mini_infer.Prelude.{
  ℕ, zero, suc, ◌+◌, ◌-◌, ◌*◌, ◌/◌, ◌%◌, ◌^◌, ◌≤◌, ◌<◌, ◌≡◌, ◌≢◌, refl, ap, ◌∙◌, true, false, List,
  [], ◌∷◌, arith, ltb, ◌==◌, if◌then◌else◌, count, Bool-cases, inl, inr,
}
use native.Mathlib.Nat.{
  div-eq_of_lt-le, pow-suc, div-eq_of_lt, add-div_right, lt-div-mul-add, div-add-mod',
}

-- `(n + page_size - 1) // page_size`
abbrev pub ceil_div : ℕ → ℕ → ℕ
ceil_div n page_size = (n + page_size - 1) / page_size

-- `int.bit_length`, with fuel for the halvings.
abbrev pub bit_length_fuel : ℕ → ℕ → ℕ
bit_length_fuel zero n = 0
bit_length_fuel (suc f) n = elim (n == 0) [ true ↦ 0 | false ↦ suc (bit_length_fuel f (n / 2)) ]

unfoldable pub bit_length : ℕ → ℕ
bit_length n = bit_length_fuel n n

unfoldable pub next_power_of_2 : ℕ → ℕ
next_power_of_2 n = if ltb 0 n then 2 ^ bit_length (n - 1) else 1

-- The decode branch: how many sequences start a page with their last token.
unfoldable pub get_num_new_pages_decode : List ℕ → ℕ → ℕ
get_num_new_pages_decode seq_lens page_size = count (λ s. s % page_size == 1) seq_lens

-- The extend branch: the pages after, less the pages before, added up.
abbrev pub new_pages : ℕ → ℕ → ℕ → ℕ
new_pages page_size prefix_len seq_len = ceil_div seq_len page_size - ceil_div prefix_len page_size

unfoldable pub get_num_new_pages_extend : List ℕ → ℕ → List ℕ → ℕ
get_num_new_pages_extend [] page_size prefix_lens = 0
get_num_new_pages_extend (s ∷ seq_lens) page_size [] = 0
get_num_new_pages_extend (s ∷ seq_lens) page_size (p ∷ prefix_lens) =
    new_pages page_size p s + get_num_new_pages_extend seq_lens page_size prefix_lens

lt-pow-bit_length_fuel : (f n : ℕ) → n ≤ f → n < 2 ^ bit_length_fuel f n
lt-pow-bit_length_fuel zero n h = ground arith
lt-pow-bit_length_fuel (suc f) n h = elim (Bool-cases (n == 0)) [
  | inl e ↦ rw (e, bit_length_fuel) (ground arith)
  | inr e ↦
      rw (e, bit_length_fuel)
        (omega (
          arith,
          lt-pow-bit_length_fuel f (n / 2) (ground arith),
          pow-suc 2 (bit_length_fuel f (n / 2)),
        ))
]

-- A launch with `next_power_of_2 n` lanes has a lane for each of `n` entries.
pub le-next_power_of_2 : (n : ℕ) → n ≤ next_power_of_2 n
unfolding next_power_of_2 bit_length
le-next_power_of_2 zero = omega arith
le-next_power_of_2 (suc n) = ground (arith, lt-pow-bit_length_fuel n n (omega arith))

-- Multiples of a page: the page and the offset are recovered.
pub ceil_div_zero : (ps : ℕ) → 0 < ps → ceil_div 0 ps ≡ 0
ceil_div_zero ps h = div-eq_of_lt (omega arith)

pub ceil_div_suc : (n ps : ℕ) → 0 < ps → ceil_div (n + 1) ps ≡ n / ps + 1
ceil_div_suc n ps h = ap (λ (k : ℕ). k / ps) (omega arith) ∙ add-div_right n h ∙ omega arith

-- The quotient steps where the remainder comes back to 0.
div_step : (n ps : ℕ) → 0 < ps → suc n / ps ≡ n / ps + (if suc n % ps == 0 then 1 else 0)
div_step n ps h = elim (Bool-cases (suc n % ps == 0)) [
  | inl e ↦ rw e (step (suc n / ps) refl e)
  | inr e ↦ rw e (
      omega (
        arith,
        div-eq_of_lt-le {k = suc n / ps} ps {m = n} (grind (arith, div-add-mod' (suc n) ps))
            (grind (arith, lt-div-mul-add {a = suc n} h)),
      ))
]
  where
    step : (q : ℕ) → suc n / ps ≡ q → (suc n % ps == 0) ≡ true → suc n / ps ≡ n / ps + 1
    step zero e z = absurd (grind (arith, div-add-mod' (suc n) ps))
    step (suc q) e z = omega (
      arith,
      e,
      div-eq_of_lt-le {k = q} ps {m = n} (grind (arith, div-add-mod' (suc n) ps))
          (grind (arith, div-add-mod' (suc n) ps)),
    )

-- One more token needs one more page exactly when its position starts a page.
pub ceil_div_step :
    (n ps : ℕ) → 0 < ps → ceil_div (n + 1) ps ≡ ceil_div n ps + (if n % ps == 0 then 1 else 0)
ceil_div_step zero ps h = ground (arith, ceil_div_suc 0 ps h, ceil_div_zero ps)
ceil_div_step (suc n) ps h =
    let e : ceil_div (suc n) ps ≡ n / ps + 1 =
      ap (λ k. ceil_div k ps) (omega arith) ∙ ceil_div_suc n ps h in
    ceil_div_suc (suc n) ps h ∙ rw div_step (omega (arith, e))

pub ceil_div_mono : (m n ps : ℕ) → m ≤ n → ceil_div m ps ≤ ceil_div n ps
ceil_div_mono m n ps h = grind arith

pub le-ceil_div-mul : (n ps : ℕ) → 0 < ps → n ≤ ceil_div n ps * ps
le-ceil_div-mul n ps h = grind (arith, lt-div-mul-add)

-- The position of a token on its page.
pub ceil_div_start : (n ps : ℕ) → 0 < ps → n % ps ≡ 0 → ceil_div n ps ≡ n / ps
ceil_div_start n ps h e = ground (arith, ceil_div_suc n ps h, ceil_div_step n ps h)

pub ceil_div_inside : (n ps : ℕ) → 0 < ps → n % ps ≢ 0 → ceil_div n ps ≡ n / ps + 1
ceil_div_inside n ps h e = ground (arith, ceil_div_suc n ps h, ceil_div_step n ps h)

pub start-mul : (n ps : ℕ) → 0 < ps → n % ps ≡ 0 → ceil_div n ps * ps ≡ n
start-mul n ps h e = rw (ceil_div_start n ps h e) (omega (arith, div-add-mod' n ps))

pub inside-mul : (n ps : ℕ) → 0 < ps → n % ps ≢ 0 → n < ceil_div n ps * ps
inside-mul n ps h e = rw (ceil_div_inside n ps h e) (grind (arith, lt-div-mul-add {a = n} h))

pub div_on_page : (q r ps : ℕ) → r < ps → (q * ps + r) / ps ≡ q
div_on_page q r ps h = div-eq_of_lt-le ps (omega arith) (grind arith)

pub mod_on_page : (q r ps : ℕ) → r < ps → (q * ps + r) % ps ≡ r
mod_on_page q r ps h = grind (arith, div-add-mod' (q * ps + r) ps, div_on_page q r ps h)
