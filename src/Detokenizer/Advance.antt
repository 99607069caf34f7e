-- ===== src/Detokenizer/Advance.antt =====
-- What one decoded text makes of a request's state: the end of `_incremental_decode`.
use mini_infer.Prelude.{
  ℕ, zero, suc, ◌-◌, ◌≤◌, ◌≡◌, refl, sym, ap, ◌∙◌, true, false, List, [], ◌∷◌, ◌++◌, arith, leb,
  if_both, take, drop, dec_le,
}
use mathlib.Core.List.{append-nil}
use mini_infer.Detokenizer.{DecodeState, advance, slice}
use mini_infer.Detokenizer.Text.{
  safe_len, safe_len_mono, find_valid_utf8_boundary, find_valid_utf8_boundary_lem,
}

-- One more token leaves the safe part of the text as it is, and no tokens are no text.
pub record IsStable (text : List ℕ → List ℕ) : Type 0 where
  pub nothing : text [] ≡ []
  pub keeps :
      (ids : List ℕ) (x : ℕ)
      → take (safe_len (text ids)) (text (ids ++ x ∷ [])) ≡ take (safe_len (text ids)) (text ids)

take_nil : (n : ℕ) → take {A = ℕ} n [] ≡ []
take_nil zero = refl
take_nil (suc n) = refl

take_slice : (a b : ℕ) (xs : List ℕ) → a ≤ b → take a xs ++ take (b - a) (drop a xs) ≡ take b xs
take_slice zero b xs h = ap (λ k. take k xs) (omega arith)
take_slice (suc a) zero xs h = elim h [ ]
take_slice (suc a) (suc b) [] h = take_nil (suc b - suc a)
take_slice (suc a) (suc b) (x ∷ xs) h =
    ap (λ l. x ∷ l)
      (ap (λ k. take a xs ++ take k (drop a xs)) (omega arith) ∙ take_slice a b xs (omega arith))

take-drop : (a : ℕ) (xs : List ℕ) → take a xs ++ drop a xs ≡ xs
take-drop zero xs = refl
take-drop (suc a) [] = refl
take-drop (suc a) (x ∷ xs) = ap (λ l. x ∷ l) (take-drop a xs)

-- A state that has output all that is safe.
pub record IsStreaming (text : List ℕ → List ℕ) (s : DecodeState) : Type 0 where
  pub running : s.finished ≡ false
  pub offset : s.read_offset ≡ safe_len (text s.token_ids)
  pub output : s.output_text ≡ take s.read_offset (text s.token_ids)

module _ (text : List ℕ → List ℕ) (stable : IsStable text) (s : DecodeState)
    (h : IsStreaming text s) (x : ℕ) where
  abbrev pub ids : List ℕ
  ids = s.token_ids ++ x ∷ []

  abbrev pub pushed : DecodeState
  pushed = record s { token_ids = ids; dirty = true }

  kept : s.output_text ≡ take s.read_offset (text ids)
  kept = h.output ∙ rw h.offset (sym (stable.keeps s.token_ids x))

  grows : s.read_offset ≤ safe_len (text ids)
  grows = rw h.offset (safe_len_mono (text s.token_ids) (text ids) (stable.keeps s.token_ids x))

  pub advance-IsStreaming :
      IsStreaming text (advance false (text ids) pushed).1
      × (s.output_text ++ (advance false (text ids) pushed).0
          ≡ (advance false (text ids) pushed).1.output_text)
  unfolding advance
  advance-IsStreaming =
      let b : find_valid_utf8_boundary (text ids) s.read_offset ≡ safe_len (text ids) =
        find_valid_utf8_boundary_lem (text ids) s.read_offset ∙ omega (arith, grows) in
      elim (dec_le (safe_len (text ids)) s.read_offset) [
        | yes l ↦
            let c : leb (safe_len (text ids)) s.read_offset ≡ true = ground arith in
            let same : s.read_offset ≡ safe_len (text ids) = omega (arith, grows) in
            rw (b, c)
              (
                record { running = h.running; offset = same; output = kept },
                append-nil s.output_text,
              )
        | no l ↦
            let c : leb (safe_len (text ids)) s.read_offset ≡ false = ground arith in
            let more : s.output_text ++ slice (text ids) s.read_offset (safe_len (text ids))
                ≡ take (safe_len (text ids)) (text ids) =
              ap (λ l. l ++ slice (text ids) s.read_offset (safe_len (text ids))) kept
              ∙ take_slice s.read_offset (safe_len (text ids)) (text ids) grows in
            rw (b, c) (record { running = h.running; offset = refl; output = more }, refl)
      ]

  pub advance_last : s.output_text ++ (advance true (text ids) pushed).0 ≡ text ids
  unfolding advance
  advance_last =
      ap (λ l. l ++ drop s.read_offset (text ids)) kept ∙ take-drop s.read_offset (text ids)

pub advance-token_ids :
    (full_text : List ℕ) (s : DecodeState) → (advance false full_text s).1.token_ids ≡ s.token_ids
unfolding advance
advance-token_ids full_text s =
    if_both (λ (r : List ℕ × DecodeState). r.1.token_ids ≡ s.token_ids)
      (leb (find_valid_utf8_boundary full_text s.read_offset) s.read_offset) refl refl
