-- ===== src/Engine/Decoding.antt =====
-- `IncrementalDecoder` of miniinfer/engine/detokenizer.py behind the calls that the engine makes.
use mini_infer.Prelude.{
  ℕ, suc, ◌≤◌, ◌≡◌, refl, ap, ◌∙◌, Option, List, [], ◌∷◌, map, length, length-map, arith,
}
use mini_infer.Detokenizer.{Tokenizer, Decoder, or_else, flush, cleanup}
use mini_infer.Detokenizer.Batched.{
  Entry, Streamed, enrol_one, enrol, result_of, results_of, decode_batch,
}
use mini_infer.Engine.{Decoded, IDetokenizer}

-- `zip(req_ids, token_ids)`, which ends with the shorter list.
abbrev pub zip : List ℕ → List ℕ → List (ℕ × ℕ)
zip [] tokens = []
zip (r ∷ ids) [] = []
zip (r ∷ ids) (t ∷ tokens) = (r, t) ∷ zip ids tokens

abbrev pub decoded_of : Streamed → Decoded
decoded_of s = record { delta_text = s.0; is_eos = s.1; full_text = s.2 }

unfoldable pub decoder_calls : Tokenizer → IDetokenizer Decoder
unfolding decode_batch flush cleanup
decoder_calls t = record {
  decode_batch = λ ids tokens eos_id d.
      (let (results, d') = decode_batch t eos_id (zip ids tokens) d in
        (map decoded_of results, d'));
  flush = λ r d. flush t r d;
  cleanup = λ r d. cleanup r d;
}

length-zip :
    (ids tokens : List ℕ) → length ids ≡ length tokens → length (zip ids tokens) ≡ length ids
length-zip [] tokens h = refl
length-zip (r ∷ ids) [] h = absurd (omega (arith, h))
length-zip (r ∷ ids) (t ∷ tokens) h = omega (arith, h, length-zip ids tokens)

length-enrol :
    (eos_id : Option ℕ) (calls : List (ℕ × ℕ)) (d : Decoder)
    → length (enrol eos_id calls d).0 ≡ length calls
unfolding enrol
length-enrol eos_id [] d = refl
length-enrol eos_id ((r, t) ∷ calls) d =
    ap suc (length-enrol eos_id calls (enrol_one eos_id r t d).1)

length-results_of :
    (entries : List Entry) (d : Decoder) → length (results_of entries d).0 ≡ length entries
unfolding results_of
length-results_of [] d = refl
length-results_of (e ∷ entries) d = ap suc (length-results_of entries (result_of e d).1)

length-decode_batch :
    (t : Tokenizer) (eos_id : Option ℕ) (calls : List (ℕ × ℕ)) (d : Decoder)
    → length (decode_batch t eos_id calls d).0 ≡ length calls
unfolding decode_batch
length-decode_batch t eos_id calls d =
    length-results_of _ _ ∙ length-enrol (or_else eos_id t.eos_token_id) calls d

-- One answer for each request, if there is a token for each.
pub length-decoder_calls :
    (t : Tokenizer) (ids tokens : List ℕ) (eos_id : Option ℕ) (d : Decoder)
    → length ids ≡ length tokens
    → length ids ≤ length ((decoder_calls t).decode_batch ids tokens eos_id d).0
unfolding decoder_calls
length-decoder_calls t ids tokens eos_id d h = omega (
  arith,
  length-map (decode_batch t eos_id (zip ids tokens) d).0 decoded_of,
  length-decode_batch t eos_id (zip ids tokens) d,
  length-zip ids tokens h,
)
