-- ===== src/Detokenizer.antt =====
-- `IncrementalDecoder` of miniinfer/engine/detokenizer.py. A text is a list of code points. A token
-- that comes in a list or a tensor is its number here. A state is found by its request's id, which
-- is what the references of `decode_batch` to states stand for. The calls to the tokenizer go
-- through a record; the rates that `get_stats` divides are not modelled.
pub mod Text
pub mod Cache
pub mod Advance
pub mod Stream
pub mod Batched
use mini_infer.Prelude.{
  ℕ, zero, suc, ◌+◌, ◌-◌, ◌*◌, ◌/◌, ◌≤◌, ◌≡◌, Bool, true, false, not, ◌&&◌, Option, none, some,
  List, [], ◌∷◌, ◌++◌, map, ltb, leb, ◌==◌, if◌then◌else◌, length, take, drop, get_or, count, sum,
}
use mini_infer.Detokenizer.Text.{find_valid_utf8_boundary}

-- The tokenizer and Python's hash. A tokenizer whose signature does not have
-- `clean_up_tokenization_spaces` raises TypeError when it is passed, and that is the only TypeError.
pub record Tokenizer : Type 0 where
  pub accepts_clean_up : Bool
  pub decode_ids : Bool → Option Bool → List ℕ → List ℕ
  pub batch_decode_ids : Option (Bool → Option Bool → List (List ℕ) → List (List ℕ))
  pub eos_token_id : Option ℕ
  pub hash : List ℕ → ℕ

pub record DecodeState : Type 0 where
  pub token_ids : List ℕ
  pub text : List ℕ
  pub read_offset : ℕ
  pub surr_offset : ℕ
  pub finished : Bool
  pub dirty : Bool
  pub output_text : List ℕ

abbrev pub new_state : DecodeState
new_state = record {
  token_ids = [];
  text = [];
  read_offset = 0;
  surr_offset = 0;
  finished = false;
  dirty = false;
  output_text = [];
}

-- Dictionaries are association lists, the oldest entry first.
pub record Decoder : Type 0 where
  pub skip_special_tokens : Bool
  pub clean_up_tokenization_spaces : Option Bool
  pub states : List (ℕ × DecodeState)
  pub decode_cache_size : ℕ
  pub decode_cache : List (ℕ × List ℕ)
  pub cache_hits : ℕ
  pub cache_misses : ℕ

unfoldable pub new_decoder : Bool → Option Bool → Decoder
new_decoder skip_special_tokens clean_up = record {
  skip_special_tokens = skip_special_tokens;
  clean_up_tokenization_spaces = clean_up;
  states = [];
  decode_cache_size = 1024;
  decode_cache = [];
  cache_hits = 0;
  cache_misses = 0;
}

-- `dict.get`, `dict[k] = v`, `del dict[k]`.
unfoldable pub find {ℓ} : {A : Type ℓ} → ℕ → List (ℕ × A) → Option A
find k [] = none
find k ((j, v) ∷ entries) = if j == k then some v else find k entries

unfoldable pub put {ℓ} : {A : Type ℓ} → ℕ → A → List (ℕ × A) → List (ℕ × A)
put k v [] = (k, v) ∷ []
put k v ((j, w) ∷ entries) = if j == k then (k, v) ∷ entries else (j, w) ∷ put k v entries

unfoldable pub remove {ℓ} : {A : Type ℓ} → ℕ → List (ℕ × A) → List (ℕ × A)
remove k [] = []
remove k ((j, w) ∷ entries) = if j == k then entries else (j, w) ∷ remove k entries

-- `full_text[start:stop]`
abbrev pub slice : List ℕ → ℕ → ℕ → List ℕ
slice xs start stop = take (stop - start) (drop start xs)

-- The keyword that the first call passes, or does without after a TypeError.
abbrev pub accepted : Tokenizer → Option Bool → Option Bool
accepted t none = none
accepted t (some b) = if t.accepts_clean_up then some b else none

abbrev pub or_else : Option ℕ → Option ℕ → Option ℕ
or_else none o = o
or_else (some n) o = some n

-- `token_id == eos_id`, false where there is no end token.
abbrev pub is_token : ℕ → Option ℕ → Bool
is_token token none = false
is_token token (some e) = token == e

-- `get_or_create_state`, without and with its effect.
abbrev pub state_or_new : Option DecodeState → DecodeState
state_or_new none = new_state
state_or_new (some s) = s

unfoldable pub get_or_create_state : ℕ → Decoder → DecodeState × Decoder
unfolding find put
get_or_create_state req_id d =
    let s = state_or_new (find req_id d.states) in (s, record d { states = put req_id s d.states })

abbrev pub store_state : ℕ → DecodeState → Decoder → Decoder
store_state req_id s d = record d { states = put req_id s d.states }

module _ (t : Tokenizer) where
  unfoldable pub decode_text : Decoder → List ℕ → List ℕ
  decode_text d token_ids =
      t.decode_ids d.skip_special_tokens (accepted t d.clean_up_tokenization_spaces) token_ids

  unfoldable pub batch_decode : Decoder → List (List ℕ) → List (List ℕ)
  batch_decode d seqs = elim t.batch_decode_ids [
    | none ↦ map (decode_text d) seqs
    | some f ↦ f d.skip_special_tokens (accepted t d.clean_up_tokenization_spaces) seqs
  ]

  -- A full cache loses its older half first.
  abbrev pub make_room : Decoder → List (ℕ × List ℕ)
  make_room d =
      if leb d.decode_cache_size (length d.decode_cache)
      then drop (d.decode_cache_size / 2) d.decode_cache
      else d.decode_cache

  abbrev pub cached : Option (List ℕ) → List ℕ → Decoder → List ℕ × Decoder
  cached (some text) token_ids d = (text, record d { cache_hits = d.cache_hits + 1 })
  cached none token_ids d = (
    decode_text d token_ids,
    record d {
      cache_misses = d.cache_misses + 1;
      decode_cache = make_room d ++ (t.hash token_ids, decode_text d token_ids) ∷ [];
    },
  )

  unfoldable pub decode_with_cache : List ℕ → Decoder → List ℕ × Decoder
  unfolding find
  decode_with_cache token_ids d = cached (find (t.hash token_ids) d.decode_cache) token_ids d

-- What a decoded text makes of a state: the delta, and the state after it. `final` outputs the rest.
unfoldable pub advance : Bool → List ℕ → DecodeState → List ℕ × DecodeState
unfolding find_valid_utf8_boundary
advance true full_text s =
    let delta = drop s.read_offset full_text in
    (
      delta,
      record s {
        text = full_text;
        dirty = false;
        read_offset = length full_text;
        output_text = s.output_text ++ delta;
      },
    )
advance false full_text s =
    let safe_end = find_valid_utf8_boundary full_text s.read_offset in
    let delta = slice full_text s.read_offset safe_end in
    if leb safe_end s.read_offset then ([], record s { text = full_text; dirty = false }) else (
      delta,
      record s {
        text = full_text;
        dirty = false;
        read_offset = safe_end;
        output_text = s.output_text ++ delta;
      },
    )

abbrev pub is_empty {ℓ} : {A : Type ℓ} → List A → Bool
is_empty [] = true
is_empty (x ∷ xs) = false

module _ (t : Tokenizer) where
  unfoldable pub incremental_decode : Bool → DecodeState → Decoder → List ℕ × DecodeState × Decoder
  unfolding advance decode_with_cache
  incremental_decode final s d =
      let (full_text, d') = decode_with_cache t s.token_ids d in
      let (delta, s') = advance final full_text s in
      if is_empty s.token_ids then ([], s, d) else (delta, s', d')

  -- The part of `decode` for a state that is not finished.
  abbrev pub decode_token : ℕ → ℕ → Bool → DecodeState → Decoder → (List ℕ × Bool) × Decoder
  decode_token req_id token_id is_eos s d =
      let s1 = record s { token_ids = s.token_ids ++ token_id ∷ []; dirty = true } in
      let (delta, s2, d') = incremental_decode is_eos s1 d in
      let s3 = record s2 { finished = if is_eos then true else s2.finished } in
      ((delta, is_eos), store_state req_id s3 d')

  unfoldable pub decode : ℕ → ℕ → Option ℕ → Decoder → (List ℕ × Bool) × Decoder
  unfolding get_or_create_state incremental_decode
  decode req_id token_id eos_token_id d =
      let (s, d') = get_or_create_state req_id d in
      let is_eos = is_token token_id (or_else eos_token_id t.eos_token_id) in
      if s.finished then (([], true), d') else decode_token req_id token_id is_eos s d'

  abbrev pub flush_state : ℕ → Option DecodeState → Decoder → List ℕ × Decoder
  flush_state req_id none d = ([], d)
  flush_state req_id (some s) d =
      let (delta, s', d') = incremental_decode true s d in (delta, store_state req_id s' d')

  unfoldable pub flush : ℕ → Decoder → List ℕ × Decoder
  unfolding incremental_decode
  flush req_id d = flush_state req_id (find req_id d.states) d

unfoldable pub get_full_text : ℕ → Decoder → List ℕ
unfolding find
get_full_text req_id d = elim (find req_id d.states) [ none ↦ [] | some s ↦ s.text ]

unfoldable pub get_output_tokens : ℕ → Decoder → List ℕ
unfolding find
get_output_tokens req_id d = elim (find req_id d.states) [ none ↦ [] | some s ↦ s.token_ids ]

unfoldable pub cleanup : ℕ → Decoder → Decoder
unfolding remove
cleanup req_id d = record d { states = remove req_id d.states }

unfoldable pub cleanup_all : Decoder → Decoder
cleanup_all d = record d { states = [] }

unfoldable pub is_finished : ℕ → Decoder → Bool
unfolding find
is_finished req_id d = elim (find req_id d.states) [ none ↦ false | some s ↦ s.finished ]

unfoldable pub clear_cache : Decoder → Decoder
clear_cache d = record d { decode_cache = []; cache_hits = 0; cache_misses = 0 }
