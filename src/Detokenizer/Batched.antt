-- ===== src/Detokenizer/Batched.antt =====
-- `decode_batch` of detokenizer.py. One request may stand in a batch twice: the entries then share
-- its state.
use mini_infer.Prelude.{
  ℕ, Bool, true, false, Option, none, some, List, [], ◌∷◌, ◌++◌, map, ltb, if◌then◌else◌, length,
}
use mini_infer.Detokenizer.{
  Tokenizer, DecodeState, Decoder, find, state_or_new, get_or_create_state, store_state,
  batch_decode, is_token, or_else, slice,
}
use mini_infer.Detokenizer.Text.{find_valid_utf8_boundary}

-- What the first loop keeps of a request; one that was finished has no state.
pub record Entry : Type 0 where
  pub state : Option ℕ
  pub old_offset : ℕ
  pub is_eos : Bool

abbrev pub finished_entry : Entry
finished_entry = record { state = none; old_offset = 0; is_eos = true }

-- One turn of the first loop.
unfoldable pub enrol_one : Option ℕ → ℕ → ℕ → Decoder → Entry × Decoder
unfolding get_or_create_state
enrol_one eos_id req_id token_id d =
    let (s, d') = get_or_create_state req_id d in
    if s.finished then (finished_entry, d') else (
      record { state = some req_id; old_offset = s.read_offset; is_eos = is_token token_id eos_id },
      store_state req_id (record s { token_ids = s.token_ids ++ token_id ∷ []; dirty = true }) d',
    )

unfoldable pub enrol : Option ℕ → List (ℕ × ℕ) → Decoder → List Entry × Decoder
unfolding enrol_one
enrol eos_id [] d = ([], d)
enrol eos_id ((req_id, token_id) ∷ calls) d =
    let (e, d1) = enrol_one eos_id req_id token_id d in
    let (entries, d2) = enrol eos_id calls d1 in (e ∷ entries, d2)

abbrev pub state_at : ℕ → Decoder → DecodeState
state_at req_id d = state_or_new (find req_id d.states)

-- The requests whose text is to be decoded, with whether it is the last time.
unfoldable pub to_decode : List Entry → Decoder → List (ℕ × Bool)
to_decode [] d = []
to_decode (e ∷ entries) d =
    let rest = to_decode entries d in
    elim e.state [
      | none ↦ rest
      | some req_id ↦ if (state_at req_id d).dirty then (req_id, e.is_eos) ∷ rest else rest
    ]

abbrev pub safe_end_of : Bool → List ℕ → ℕ → ℕ
safe_end_of is_final full_text read_offset =
    if is_final then length full_text else find_valid_utf8_boundary full_text read_offset

-- The second loop: each text goes into its state.
unfoldable pub settle_one : Bool → List ℕ → DecodeState → DecodeState
unfolding find_valid_utf8_boundary
settle_one is_final full_text s =
    let safe_end = safe_end_of is_final full_text s.read_offset in
    if ltb s.read_offset safe_end
    then record s {
      text = full_text;
      dirty = false;
      output_text = s.output_text ++ slice full_text s.read_offset safe_end;
      read_offset = safe_end;
    }
    else record s { text = full_text; dirty = false }

unfoldable pub settle : List (ℕ × Bool) → List (List ℕ) → Decoder → Decoder
unfolding settle_one
settle [] texts d = d
settle (r ∷ requests) [] d = d
settle ((req_id, is_final) ∷ requests) (full_text ∷ texts) d =
    settle requests texts (store_state req_id (settle_one is_final full_text (state_at req_id d)) d)

-- A result is the delta, whether the request is finished, and its full text.
abbrev pub Streamed : Type 0
Streamed = List ℕ × Bool × List ℕ

-- The third loop.
unfoldable pub result_of : Entry → Decoder → Streamed × Decoder
result_of e d = elim e.state [
  | none ↦ (([], true, []), d)
  | some req_id ↦
      let s = state_at req_id d in
      let delta =
        if ltb e.old_offset s.read_offset then slice s.text e.old_offset s.read_offset else [] in
      (
        (delta, e.is_eos, s.text),
        store_state req_id (record s { finished = if e.is_eos then true else s.finished }) d,
      )
]

unfoldable pub results_of : List Entry → Decoder → List Streamed × Decoder
unfolding result_of
results_of [] d = ([], d)
results_of (e ∷ entries) d =
    let (r, d1) = result_of e d in let (results, d2) = results_of entries d1 in (r ∷ results, d2)

unfoldable pub decode_batch :
    Tokenizer → Option ℕ → List (ℕ × ℕ) → Decoder → List Streamed × Decoder
unfolding enrol to_decode settle results_of batch_decode
decode_batch t eos_token_id calls d =
    let (entries, d1) = enrol (or_else eos_token_id t.eos_token_id) calls d in
    let requests = to_decode entries d1 in
    let texts = batch_decode t d1 (map (λ r. (state_at r.0 d1).token_ids) requests) in
    results_of entries (settle requests texts d1)
