-- ===== src/Scheduler/Req.antt =====
-- `Req` of miniinfer/scheduler/scheduler_batch.py. The pool index -1 is `none`; a device tensor of
-- cache slots is a list. The sampling parameters that are floats are not modelled.
pub mod Cached
use mini_infer.Prelude.{
  ℕ, zero, suc, ◌+◌, ◌-◌, ◌≤◌, ◌≡◌, Bool, true, false, Option, none, some, List, [], ◌∷◌, ◌++◌,
  length, leb,
}

-- `finished_reason`
pub data Reason : Type 0 where
  unfinished eos max_tokens_reached : Reason

pub record Req : Type 0 where
  pub req_id : ℕ
  pub origin_input_ids : List ℕ
  pub output_ids : List ℕ
  pub fill_ids : List ℕ
  pub max_tokens : ℕ
  pub is_retracted : Bool
  pub ever_retracted : Bool
  pub finished : Bool
  pub finished_reason : Reason
  pub req_pool_idx : Option ℕ
  pub extend_input_len : ℕ
  pub prefix_indices : List ℕ
  pub last_node : Option ℕ
  pub cache_protected_len : ℕ
  pub is_chunked : Bool
  pub chunked_prefill_len : ℕ
  pub total_input_len : ℕ
  pub cached_seq_len : ℕ
  pub cached_last_token : Option ℕ

-- `Req.__init__`, with the next value of the counter.
unfoldable pub new_req : ℕ → List ℕ → ℕ → Req
new_req id token_ids max_tokens = record {
  req_id = id;
  origin_input_ids = token_ids;
  output_ids = [];
  fill_ids = [];
  max_tokens = max_tokens;
  is_retracted = false;
  ever_retracted = false;
  finished = false;
  finished_reason = unfinished;
  req_pool_idx = none;
  extend_input_len = 0;
  prefix_indices = [];
  last_node = none;
  cache_protected_len = 0;
  is_chunked = false;
  chunked_prefill_len = 0;
  total_input_len = length token_ids;
  cached_seq_len = length token_ids;
  cached_last_token = none;
}

unfoldable pub remaining_prefill_len : Req → ℕ
remaining_prefill_len r = r.total_input_len - r.chunked_prefill_len - r.cache_protected_len

unfoldable pub is_prefill_complete : Req → Bool
is_prefill_complete r = leb r.total_input_len (r.chunked_prefill_len + r.cache_protected_len)

unfoldable pub current_seq_len : Req → ℕ
current_seq_len r = r.cached_seq_len

unfoldable pub append_output_token : ℕ → Req → Req
append_output_token token_id r = record r {
  output_ids = r.output_ids ++ token_id ∷ [];
  cached_seq_len = r.cached_seq_len + 1;
  cached_last_token = some token_id;
}

-- `xs[-1]` of a list that may be empty.
unfoldable pub last_of {ℓ} : {A : Type ℓ} → List A → Option A
last_of [] = none
last_of (x ∷ []) = some x
last_of (x ∷ y ∷ xs) = last_of (y ∷ xs)

-- The token, and the request with the cache filled.
unfoldable pub get_last_token : Req → Option ℕ × Req
unfolding last_of
get_last_token r = elim r.cached_last_token [
  | some t ↦ (some t, r)
  | none ↦ (last_of r.output_ids, record r { cached_last_token = last_of r.output_ids })
]

-- What `_check_decode_mem` writes to a request that it takes out of the running batch.
unfoldable pub retract : Req → Req
retract r = record r {
  is_retracted = true;
  ever_retracted = true;
  finished = false;
  is_chunked = false;
  output_ids = [];
  fill_ids = [];
  prefix_indices = [];
  cache_protected_len = 0;
  last_node = none;
  extend_input_len = 0;
  req_pool_idx = none;
  cached_seq_len = length r.origin_input_ids;
  cached_last_token = none;
}
