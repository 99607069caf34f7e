-- ===== src/Detokenizer/Text.antt =====
-- The end of the safe text: `_find_valid_utf8_boundary` and `_delta_text` of detokenizer.py.
use mini_infer.Prelude.{
  ℕ, zero, suc, ◌+◌, ◌-◌, ◌≤◌, ◌<◌, ◌≡◌, refl, sym, ◌∙◌, max, Bool, true, false, ◌&&◌, List, [],
  ◌∷◌, arith, ltb, leb, ◌==◌, if◌then◌else◌, length, length-drop, take, drop, get_or, dec_lt, ◌⊎◌,
  ◌≢◌, inl, inr,
}

abbrev pub replacement_char : ℕ
replacement_char = 65533

-- The loop that steps back over replacement characters.
unfoldable pub step_back : List ℕ → ℕ → ℕ
step_back text zero = 0
step_back text (suc safe_end) = elim (get_or text safe_end 0 == replacement_char) [
  | true ↦ step_back text safe_end
  | false ↦ suc safe_end
]

-- `text.endswith(REPLACEMENT_CHAR)`
abbrev pub ends_replaced : List ℕ → Bool
ends_replaced text = ltb 0 (length text) && (get_or text (length text - 1) 0 == replacement_char)

unfoldable pub find_valid_utf8_boundary : List ℕ → ℕ → ℕ
unfolding step_back
find_valid_utf8_boundary text read_offset =
    let new_text = drop read_offset text in
    if leb (length text) read_offset
    then read_offset
    else if length new_text == 0
    then read_offset
    else if ends_replaced new_text
    then read_offset + step_back new_text (length new_text - 1)
    else length text

-- The length of the longest common prefix.
abbrev pub common : List ℕ → List ℕ → ℕ
common [] ys = 0
common (x ∷ xs) [] = 0
common (x ∷ xs) (y ∷ ys) = let rest = common xs ys in if x == y then suc rest else 0

unfoldable pub delta_text : List ℕ → List ℕ → List ℕ
delta_text old_text new_text =
    if common old_text new_text == length old_text
    then drop (length old_text) new_text
    else drop (common old_text new_text) new_text

-- The text without the replacement characters at its end.
abbrev pub safe_len : List ℕ → ℕ
safe_len [] = 0
safe_len (x ∷ xs) =
    let rest = safe_len xs in
    if rest == 0 then (if x == replacement_char then 0 else 1) else suc rest

step_back-cons :
    (x : ℕ) (xs : List ℕ) (n : ℕ)
    → step_back (x ∷ xs) (suc n) ≡ (
        if step_back xs n == 0
        then (if x == replacement_char then 0 else 1)
        else suc (step_back xs n))
unfolding step_back
step_back-cons x xs zero = ground arith
step_back-cons x xs (suc n) = ground (arith, step_back-cons x xs n)

step_back-all : (xs : List ℕ) → step_back xs (length xs) ≡ safe_len xs
unfolding step_back
step_back-all [] = refl
step_back-all (x ∷ xs) = rw (step_back-all xs) at (step_back-cons x xs (length xs))

pub safe_len-le : (xs : List ℕ) → safe_len xs ≤ length xs
safe_len-le [] = omega arith
safe_len-le (x ∷ xs) = ground (arith, safe_len-le xs)

safe_len-drop :
    (n : ℕ) (xs : List ℕ) → n ≤ length xs → n + safe_len (drop n xs) ≡ max n (safe_len xs)
safe_len-drop zero xs h = omega arith
safe_len-drop (suc n) [] h = omega arith
safe_len-drop (suc n) (x ∷ xs) h = ground (arith, safe_len-drop n xs)

-- Text that ends in another character is safe to its end.
ends-safe_len :
    (xs : List ℕ)
    → 0 < length xs
    → safe_len xs ≡ (if ends_replaced xs then step_back xs (length xs - 1) else length xs)
unfolding step_back
ends-safe_len [] h = elim h [ ]
ends-safe_len (x ∷ xs) h = sym (step_back-all (x ∷ xs)) ∙ ground arith

-- What was safe stays so, and the rest is safe up to the replacement characters at the end.
pub find_valid_utf8_boundary_lem :
    (text : List ℕ) (read_offset : ℕ)
    → find_valid_utf8_boundary text read_offset ≡ max read_offset (safe_len text)
unfolding find_valid_utf8_boundary
find_valid_utf8_boundary_lem text read_offset = elim (dec_lt read_offset (length text)) [
  | yes l ↦
      let new : length (drop read_offset text) ≡ length text - read_offset =
        length-drop read_offset text in
      let ends = ends-safe_len (drop read_offset text) (omega arith) in
      ground (arith, new, ends, safe_len-drop read_offset text)
  | no g ↦ ground (arith, safe_len-le text)
]

-- The safe part is empty, or ends in a character that is not replaced.
safe_len-cons :
    (x : ℕ) (xs : List ℕ)
    → (safe_len (x ∷ xs) ≡ 0)
      ⊎ ((safe_len (x ∷ xs) ≡ suc (safe_len xs)) × ((safe_len xs ≡ 0) → x ≢ replacement_char))
safe_len-cons x xs = ground arith

first_and_rest : (y x : ℕ) (ys xs : List ℕ) → y ∷ ys ≡ x ∷ xs → (y ≡ x) × (ys ≡ xs)
first_and_rest y x ys xs e = (cc, cc)

no_text : (x : ℕ) (xs : List ℕ) → ¬ ([] ≡ x ∷ take (safe_len xs) xs)
no_text x xs e = cc

-- A text that keeps the safe part of another is safe as far as that.
pub safe_len_mono :
    (xs ys : List ℕ) → take (safe_len xs) ys ≡ take (safe_len xs) xs → safe_len xs ≤ safe_len ys
safe_len_mono [] ys e = omega arith
safe_len_mono (x ∷ xs) [] e = elim (safe_len-cons x xs) [
  | inl z ↦ omega (arith, z)
  | inr (n, other) ↦ absurd (no_text x xs (rw n at e))
]
safe_len_mono (x ∷ xs) (y ∷ ys) e = elim (safe_len-cons x xs) [
  | inl z ↦ omega (arith, z)
  | inr (n, other) ↦
      let (same, rest) = first_and_rest y x _ _ (rw n at e) in
      ground (arith, n, safe_len_mono xs ys rest)
]
