-- ===== src/FutureMap.antt =====
-- `FutureMap` of miniinfer/engine/future_map.py: the ring of sampled tokens, and the negative
-- placeholders that stand for them in `input_ids`. The device check is not modelled.
pub mod Ring
use mini_infer.Prelude.{
  ℕ, zero, suc, ◌+◌, ◌-◌, ◌*◌, ◌%◌, ◌<◌, ◌≤◌, ◌≡◌, Bool, true, false, ◌&&◌, Option, none, some,
  List, [], ◌∷◌, map, ltb, leb, ◌==◌, if◌then◌else◌, length, get_or, range_from, Result, ok, guard,
  ◌>>=◌, ◌>>◌, runtime_error, min,
}
use mini_infer.Prelude.Int.{ℤ, pos, negsuc, neg_part, ltb_ℤ, sub_ℕ}

-- The slots `start ... stop - 1`; `indices` is their `arange`.
pub record FutureIndices : Type 0 where
  pub start : ℕ
  pub stop : ℕ

pub record FutureMap : Type 0 where
  pub future_limit : ℕ
  pub buffer_len : ℕ
  pub token_ids_buf : ℕ → ℕ
  pub future_ct : ℕ

-- `FutureMap.__init__`; `fresh` is what `torch.empty` holds.
unfoldable pub new_map : (ℕ → ℕ) → ℕ → ℕ → FutureMap
new_map fresh max_running_requests max_chunks_per_request =
    let future_limit = max_running_requests * (3 + max_chunks_per_request) in
    record {
      future_limit = future_limit;
      buffer_len = future_limit + 2 * max_running_requests;
      token_ids_buf = fresh;
      future_ct = 0;
    }

unfoldable pub indices : FutureIndices → List ℕ
indices f = range_from f.start (f.stop - f.start)

unfoldable pub alloc_future_indices : ℕ → FutureMap → FutureIndices × FutureMap
alloc_future_indices batch_size m = (
  record { start = m.future_ct + 1; stop = m.future_ct + 1 + batch_size },
  record m { future_ct = (m.future_ct + batch_size) % m.future_limit },
)

-- `-i`
abbrev pub negate : ℕ → ℤ
negate i = sub_ℕ 0 i

unfoldable pub get_placeholder_input_ids : FutureIndices → List ℤ
unfolding indices
get_placeholder_input_ids f = map negate (indices f)

-- `buf[start:stop] = tokens`, which raises unless the slice has as many entries as there are tokens.
unfoldable pub store_to_map : FutureIndices → List ℕ → FutureMap → Result FutureMap
store_to_map f next_token_ids m = do
  guard (min f.stop m.buffer_len - f.start == length next_token_ids) runtime_error
  ok (record m {
    token_ids_buf = λ i.
        if leb f.start i && ltb i (f.start + length next_token_ids)
        then get_or next_token_ids (i - f.start) 0
        else m.token_ids_buf i;
  })

-- `(-id).clamp_(0, nbuf - 1)`
abbrev pub slot_of : FutureMap → ℤ → ℕ
slot_of m id = min (neg_part id) (m.buffer_len - 1)

-- A placeholder becomes its token, and a token stays; where the caller says that all ids are
-- placeholders, none is tested.
abbrev pub resolve_one : Bool → FutureMap → ℤ → ℤ
resolve_one all_placeholder m id =
    if all_placeholder
    then pos (m.token_ids_buf (slot_of m id))
    else if ltb_ℤ id (pos 0)
    then pos (m.token_ids_buf (slot_of m id))
    else id

unfoldable pub resolve_future_input_ids : Option (List ℤ) → Bool → FutureMap → Option (List ℤ)
resolve_future_input_ids none all_placeholder m = none
resolve_future_input_ids (some input_ids) all_placeholder m =
    some (map (resolve_one all_placeholder m) input_ids)

-- `buf[start:stop]`
unfoldable pub resolve_future : FutureIndices → FutureMap → List ℕ
resolve_future f m = map m.token_ids_buf (range_from f.start (min f.stop m.buffer_len - f.start))

unfoldable pub reset : FutureMap → FutureMap
reset m = record m { future_ct = 0 }

-- One step of the engine: slots for a batch, and its tokens once they are sampled.
unfoldable pub record_batch : List ℕ → FutureMap → Result FutureMap
unfolding alloc_future_indices store_to_map
record_batch tokens m =
    let (f, m') = alloc_future_indices (length tokens) m in store_to_map f tokens m'

unfoldable pub record_batches : List (List ℕ) → FutureMap → Result FutureMap
record_batches [] m = ok m
record_batches (b ∷ batches) m = do m' ← record_batch b m; record_batches batches m'
