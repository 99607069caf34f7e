-- ===== src/Scheduler/Queues.antt =====
-- The state of `Scheduler` of miniinfer/scheduler/scheduler.py and the calls that only read it or
-- add to it. The cache manager is an interface; the token ratio, a float, is of a type `R`. A
-- request stands in the queues by its identity, and the store says what the object holds.
pub mod Decode
pub mod Pop
pub mod Retract
pub mod Check
pub mod Admit
pub mod Prefill
pub mod Admitted
pub mod Release
pub mod Released
pub mod Loop
pub mod Counters
use mini_infer.Prelude.{
  ℕ, zero, suc, ◌+◌, ◌-◌, Bool, true, false, ◌||◌, Option, none, some, List, [], ◌∷◌, ◌++◌, length,
  ltb, Result,
}
use mini_infer.Prelude.Int.{ℤ}
use mini_infer.Scheduler.Req.{Req}
use mini_infer.Scheduler.Batch.{Store, ScheduledBatch, new_batch}
use mini_infer.Scheduler.Chunk.{ChunkedReq}

-- A `ChunkedReq` whose request is known by its identity.
pub record Chunk : Type 0 where
  pub req : ℕ
  pub cached_len : ℕ
  pub chunk_size : ℕ

-- With what its request holds.
abbrev pub held_chunk : Store → Chunk → ChunkedReq
held_chunk s c = record { req = s c.req; cached_len = c.cached_len; chunk_size = c.chunk_size }

-- What `prepare_for_mixed` leaves: the batch, the requests, and the lengths of the decode requests,
-- which it raises in place.
pub record Mixed (K : Type 0) : Type 0 where
  pub manager : K
  pub store : Store
  pub batch : ScheduledBatch
  pub decode_seq_lens : Option (List ℕ)
  pub decode_seq_lens_cpu : Option (List ℕ)

-- The keyword arguments of `prepare_for_mixed`.
pub record MixedArgs : Type 0 where
  pub decode_seq_lens : Option (List ℕ)
  pub decode_seq_lens_cpu : Option (List ℕ)
  pub decode_input_ids : Option (List ℤ)

-- The calls of `KVCacheManager` that the scheduler makes.
pub record IKvCacheManager (K : Type 0) : Type 0 where
  pub available_tokens : K → ℤ
  pub prefix_for_waiting_req : Req → K → Req × K
  pub release_request : Bool → Req → K → Result K
  pub update_finished_req_radix_cache : Req → K → Result K
  pub begin_free_group : K → K
  pub end_free_group : K → K
  pub prepare_for_mixed :
      List ℕ → List ℕ → MixedArgs → Store → ScheduledBatch → K → Result (Mixed K)
  pub prepare_for_decode : Bool → Store → ScheduledBatch → K → Result (Store × ScheduledBatch × K)

pub record Scheduler (K R : Type 0) : Type 0 where
  pub kv_cache_mgr : K
  pub store : Store
  pub max_batch_size : ℕ
  pub max_extend_len : ℕ
  pub page_size : ℕ
  pub enable_chunked_prefill : Bool
  pub chunked_prefill_size : ℕ
  pub new_token_ratio : R
  pub num_continuous_retract : ℕ
  pub num_continuous_decode_ok : ℕ
  pub waiting_queue : List ℕ
  pub running_batch : ScheduledBatch
  pub chunking_reqs : List Chunk
  pub num_retracted_reqs : ℕ
  pub finished_reqs : List ℕ
  pub pending_release_reqs : List ℕ

pub record EngineConfig : Type 0 where
  pub max_num_seqs : ℕ
  pub max_extend_len : ℕ
  pub page_size : ℕ
  pub enable_chunked_prefill : Bool
  pub chunked_prefill_size : ℕ

module _ {K R : Type 0} where
  -- `Scheduler.__init__`, with the first ratio and the requests that there are.
  unfoldable pub new_scheduler : EngineConfig → K → R → Store → Scheduler K R
  new_scheduler config kv_cache_mgr init_new_token_ratio store = record {
    kv_cache_mgr = kv_cache_mgr;
    store = store;
    max_batch_size = config.max_num_seqs;
    max_extend_len = config.max_extend_len;
    page_size = config.page_size;
    enable_chunked_prefill = config.enable_chunked_prefill;
    chunked_prefill_size = config.chunked_prefill_size;
    new_token_ratio = init_new_token_ratio;
    num_continuous_retract = 0;
    num_continuous_decode_ok = 0;
    waiting_queue = [];
    running_batch = new_batch [];
    chunking_reqs = [];
    num_retracted_reqs = 0;
    finished_reqs = [];
    pending_release_reqs = [];
  }

  unfoldable pub add : ℕ → Scheduler K R → Scheduler K R
  add req s = record s { waiting_queue = s.waiting_queue ++ req ∷ [] }

  unfoldable pub has_unfinished : Scheduler K R → Bool
  has_unfinished s =
      ltb 0 (length s.waiting_queue)
      || ltb 0 (length s.running_batch.reqs)
      || ltb 0 (length s.chunking_reqs)

  unfoldable pub get_num_unfinished : Scheduler K R → ℕ
  get_num_unfinished s =
      length s.waiting_queue + length s.running_batch.reqs + length s.chunking_reqs
