-- ===== src/Tests/Text.antt =====
-- The detokenizer's theorems on a tokenizer whose tokens are code points.
use mini_infer.Prelude.{
  ℕ, zero, suc, ◌≤◌, ◌≡◌, refl, sym, ap, ◌∙◌, true, false, none, some, List, [], ◌∷◌, ◌++◌, arith,
  ◌==◌, if◌then◌else◌, length, take, sum,
}
use mini_infer.Detokenizer.{
  Tokenizer, new_decoder, find, put, decode, decode_text, decode_with_cache, incremental_decode,
  advance, get_or_create_state,
}
use mini_infer.Detokenizer.Text.{safe_len, safe_len-le, find_valid_utf8_boundary, step_back}
use mini_infer.Detokenizer.Cache.{NoCollision, decode_seqs, decode_seqs-decode_text}
use mini_infer.Detokenizer.Advance.{IsStable}
use mini_infer.Detokenizer.Stream.{emitted, AllUsed, shown, emitted-new_decoder}

-- The hash is a sum; token 3 ends a text.
abbrev pub points : Tokenizer
points = record {
  accepts_clean_up = false;
  decode_ids = λ skip clean ids. ids;
  batch_decode_ids = none;
  eos_token_id = some 3;
  hash = sum;
}

-- The sequences of the tests, by their sums.
abbrev pub unhash : ℕ → List ℕ
unhash n =
    if n == 5
    then 5 ∷ []
    else if n == 9
    then 9 ∷ []
    else if n == 65538
    then 5 ∷ 65533 ∷ []
    else if n == 65545
    then 5 ∷ 65533 ∷ 7 ∷ []
    else if n == 65548
    then 5 ∷ 65533 ∷ 7 ∷ 3 ∷ []
    else if n == 65542
    then 9 ∷ 65533 ∷ []
    else 5 ∷ 65533 ∷ 7 ∷ 3 ∷ 8 ∷ []

abbrev pub Used : List ℕ → Type 0
Used xs = unhash (sum xs) ≡ xs

points-NoCollision : NoCollision points Used
points-NoCollision xs ys u v e = sym u ∙ ap unhash e ∙ v

take-append : (n : ℕ) (xs ys : List ℕ) → n ≤ length xs → take n (xs ++ ys) ≡ take n xs
take-append zero xs ys h = refl
take-append (suc n) [] ys h = elim h [ ]
take-append (suc n) (x ∷ xs) ys h = ap (λ l. x ∷ l) (take-append n xs ys (omega arith))

points-IsStable : IsStable (decode_text points (new_decoder true (some false)))
unfolding decode_text
points-IsStable = record {
  nothing = refl;
  keeps = λ ids x. take-append (safe_len ids) ids (x ∷ []) (safe_len-le ids);
}

decode_seqs-decode_text_example :
    let d = (decode_seqs points ((5 ∷ []) ∷ (9 ∷ []) ∷ (5 ∷ []) ∷ []) (new_decoder true none)) in
    (d.0 ≡ (5 ∷ []) ∷ (9 ∷ []) ∷ (5 ∷ []) ∷ []) × (length d.1.decode_cache ≤ 1024)
unfolding decode_text
decode_seqs-decode_text_example =
    decode_seqs-decode_text points Used true none ((5 ∷ []) ∷ (9 ∷ []) ∷ (5 ∷ []) ∷ [])
      points-NoCollision (refl, (refl, (refl, tt)))

-- Two requests in turn; the first goes on after its end token.
abbrev pub calls : List (ℕ × ℕ)
calls = (1, 5) ∷ (2, 9) ∷ (1, 65533) ∷ (2, 65533) ∷ (1, 7) ∷ (1, 3) ∷ (1, 8) ∷ []

emitted-new_decoder_example :
    emitted points none 1 calls (new_decoder true (some false)) ≡ 5 ∷ 65533 ∷ 7 ∷ 3 ∷ []
unfolding shown AllUsed decode new_decoder get_or_create_state find put incremental_decode
    decode_with_cache advance find_valid_utf8_boundary step_back decode_text
emitted-new_decoder_example =
    emitted-new_decoder points Used true (some false) none 1 calls points-NoCollision
      points-IsStable (refl, (refl, (refl, (refl, (refl, (refl, (refl, tt)))))))
