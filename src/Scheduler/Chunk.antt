-- ===== src/Scheduler/Chunk.antt =====
-- `ChunkedReq` of miniinfer/scheduler/scheduler_batch.py.
use mini_infer.Prelude.{ℕ, ◌+◌, ◌-◌, Bool, false, List, take, drop, leb, if◌then◌else◌}
use mini_infer.Scheduler.Req.{Req}

pub record ChunkedReq : Type 0 where
  pub req : Req
  pub cached_len : ℕ
  pub chunk_size : ℕ

unfoldable pub input_len : ChunkedReq → ℕ
input_len c = c.req.total_input_len

-- Truncated at 0, where the source may go below: it is only compared with 0.
unfoldable pub remaining_len : ChunkedReq → ℕ
unfolding input_len
remaining_len c = input_len c - c.cached_len - c.chunk_size

unfoldable pub is_last_chunk : ChunkedReq → Bool
unfolding remaining_len
is_last_chunk c = leb (remaining_len c) 0

unfoldable pub get_chunk_input_ids : ChunkedReq → List ℕ
get_chunk_input_ids c = take c.chunk_size (drop c.cached_len c.req.origin_input_ids)

unfoldable pub update_after_chunk : ChunkedReq → ChunkedReq
unfolding is_last_chunk
update_after_chunk c = record c {
  req = record c.req {
    chunked_prefill_len = c.cached_len + c.chunk_size;
    is_chunked = if is_last_chunk c then false else c.req.is_chunked;
  };
}
