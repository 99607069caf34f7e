-- ===== src/Engine.antt =====
-- `LLMEngine` of miniinfer/engine/llm_engine.py: what is done with the tokens of a batch, and the
-- placeholders that go back to the running batch. The detokenizer and two calls of the cache manager
-- are interfaces. `ignore_eos` gives the setting of a request. A list of output tokens that is handed
-- out is copied, where the source shares it.
pub mod Decoding
pub mod Counts
pub mod Visit
pub mod Visits
pub mod Outputs
pub mod Progress
pub mod Finished
pub mod Propagate
pub mod Placeholders
use mini_infer.Prelude.{
  ℕ, zero, suc, ◌+◌, Bool, true, false, ◌&&◌, ◌||◌, not, Option, none, some, List, [], ◌∷◌, ◌++◌,
  map, length, leb, ◌==◌, get_elem?, if◌then◌else◌, Result, ok, err, index_error, ◌>>=◌,
}
use mini_infer.Scheduler.Req.{Req, Reason, unfinished, eos, max_tokens_reached, append_output_token}
use mini_infer.Scheduler.Batch.{Store, write_req}
use mini_infer.Scheduler.Queues.{Scheduler}
use mini_infer.Scheduler.Queues.Release.{handle_finished_requests}

pub record RequestOutput : Type 0 where
  pub request_id : ℕ
  pub delta_text : List ℕ
  pub full_text : List ℕ
  pub token_id : ℕ
  pub output_token_ids : List ℕ
  pub finished : Bool
  pub finish_reason : Option Reason

-- What `decode_batch` gives for one token.
pub record Decoded : Type 0 where
  pub delta_text : List ℕ
  pub is_eos : Bool
  pub full_text : List ℕ

-- The calls of `IncrementalDecoder` that the engine makes.
pub record IDetokenizer (D : Type 0) : Type 0 where
  pub decode_batch : List ℕ → List ℕ → Option ℕ → D → List Decoded × D
  pub flush : ℕ → D → List ℕ × D
  pub cleanup : ℕ → D → D

-- `update_unfinished_req_radix_cache`, and `request_pool.free` of the row of a request.
pub record IChunkCache (K : Type 0) : Type 0 where
  pub update_unfinished_req_radix_cache : Req → K → Result (Req × K)
  pub free_row : Option ℕ → K → K

-- What the loop over the requests of the batch carries.
pub record Sorting (K D : Type 0) : Type 0 where
  pub store : Store
  pub manager : K
  pub detokenizer : D
  pub active : List (ℕ × ℕ)

module _ {K D : Type 0} (cache : IChunkCache K) (dt : IDetokenizer D) where
  -- A request of which more is to be prefilled: its tokens go to the cache, and its row is freed.
  abbrev pub chunk_done : ℕ → Sorting K D → Result (Sorting K D)
  chunk_done r x = cache.update_unfinished_req_radix_cache (x.store r) x.manager >>= (λ u.
      ok (record x {
        store =
            write_req r
              (record u.0 {
                fill_ids = u.0.origin_input_ids ++ u.0.output_ids;
                req_pool_idx = none;
              })
              x.store;
        manager = cache.free_row u.0.req_pool_idx u.1;
      }))

  abbrev pub drop_token : ℕ → Sorting K D → Sorting K D
  drop_token r x = record x {
    store = write_req r (record (x.store r) { is_retracted = false }) x.store;
    detokenizer = dt.cleanup (x.store r).req_id x.detokenizer;
  }

  abbrev pub take_token : ℕ → Option ℕ → Sorting K D → Result (Sorting K D)
  take_token r none x = err index_error
  take_token r (some token_id) x = ok (record x {
    store = write_req r (append_output_token token_id (x.store r)) x.store;
    active = x.active ++ (r, token_id) ∷ [];
  })

  -- The request at position `i`.
  unfoldable pub visit : List ℕ → ℕ → ℕ → Sorting K D → Result (Sorting K D)
  unfolding append_output_token
  visit next_token_ids i r x =
      if (x.store r).is_chunked
      then chunk_done r x
      else if (x.store r).finished
      then ok x
      else if (x.store r).is_retracted
      then ok (drop_token r x)
      else take_token r (get_elem? next_token_ids i) x

  unfoldable pub visit_all : List ℕ → ℕ → List ℕ → Sorting K D → Result (Sorting K D)
  unfolding visit
  visit_all next_token_ids i [] x = ok x
  visit_all next_token_ids i (r ∷ reqs) x =
      visit next_token_ids i r x >>= visit_all next_token_ids (suc i) reqs

-- `token_id == eos_id`, where the latter may be None.
abbrev pub is_eos_token : Option ℕ → ℕ → Bool
is_eos_token none token_id = false
is_eos_token (some e) token_id = token_id == e

abbrev pub plain : Option ℕ → ℕ → Decoded
plain eos_id token_id = record {
  delta_text = [];
  is_eos = is_eos_token eos_id token_id;
  full_text = [];
}

-- What the second loop carries.
pub record Emitting (D : Type 0) : Type 0 where
  pub store : Store
  pub detokenizer : D
  pub outputs : List RequestOutput
  pub finished_req_ids : List ℕ

module _ {D : Type 0} (dt : IDetokenizer D) (ignore_eos : ℕ → Bool) where
  -- A request that ends here: the rest of its text, and its state.
  abbrev pub emit_last : ℕ → ℕ → Bool → Decoded → Emitting D → Emitting D
  emit_last r token_id is_eos d x =
      let req = x.store r in
      let (rest, detokenizer) = dt.flush req.req_id x.detokenizer in
      let reason = if is_eos then eos else max_tokens_reached in
      record {
        store = write_req r (record req { finished = true; finished_reason = reason }) x.store;
        detokenizer = dt.cleanup req.req_id detokenizer;
        outputs =
            x.outputs
            ++ record {
              request_id = req.req_id;
              delta_text = d.delta_text ++ rest;
              full_text = d.full_text;
              token_id = token_id;
              output_token_ids = req.output_ids;
              finished = true;
              finish_reason = some reason;
            }
              ∷ [];
        finished_req_ids = x.finished_req_ids ++ req.req_id ∷ [];
      }

  abbrev pub emit_more : ℕ → ℕ → Decoded → Emitting D → Emitting D
  emit_more r token_id d x = record x {
    outputs =
        x.outputs
        ++ record {
          request_id = (x.store r).req_id;
          delta_text = d.delta_text;
          full_text = d.full_text;
          token_id = token_id;
          output_token_ids = (x.store r).output_ids;
          finished = false;
          finish_reason = none;
        }
          ∷ [];
  }

  unfoldable pub emit : ℕ → ℕ → Decoded → Emitting D → Emitting D
  emit r token_id d x =
      let is_eos = d.is_eos && not (ignore_eos r) in
      if is_eos || leb (x.store r).max_tokens (length (x.store r).output_ids)
      then emit_last r token_id is_eos d x
      else emit_more r token_id d x

  -- `zip` stops with the shorter list.
  unfoldable pub emit_all : List (ℕ × ℕ) → List Decoded → Emitting D → Emitting D
  unfolding emit
  emit_all [] decoded x = x
  emit_all (a ∷ active) [] x = x
  emit_all ((r, token_id) ∷ active) (d ∷ decoded) x = emit_all active decoded (emit r token_id d x)

pub record Engine (K R D : Type 0) : Type 0 where
  pub scheduler : Scheduler K R
  pub detokenizer : D
  pub streaming : Bool
  pub eos_token_id : Option ℕ

module _ {K R D : Type 0} (cache : IChunkCache K) (dt : IDetokenizer D)
    (ignore_eos : ℕ → Bool) where
  -- Token by token with the texts, or without them where nothing is streamed.
  abbrev pub decode_active : Sorting K D → Engine K R D → List Decoded × D
  decode_active x e =
      if e.streaming
      then dt.decode_batch (map (λ a. (x.store a.0).req_id) x.active) (map (λ a. a.1) x.active)
          e.eos_token_id x.detokenizer
      else (map (λ a. plain e.eos_token_id a.1) x.active, x.detokenizer)

  abbrev pub decoded_or_none : Sorting K D → Engine K R D → List Decoded × D
  decoded_or_none x e = elim x.active [ [] ↦ ([], x.detokenizer) | a ∷ active ↦ decode_active x e ]

  abbrev pub process_sorted :
      List ℕ → Engine K R D → Sorting K D → List RequestOutput × Engine K R D
  process_sorted reqs e x =
      let (decoded, detokenizer) = decoded_or_none x e in
      let y = emit_all dt ignore_eos x.active decoded (record {
        store = x.store;
        detokenizer = detokenizer;
        outputs = [];
        finished_req_ids = [];
      }) in
      (
        y.outputs,
        record e {
          detokenizer = y.detokenizer;
          scheduler =
              handle_finished_requests reqs y.finished_req_ids
                (record e.scheduler { store = y.store; kv_cache_mgr = x.manager });
        },
      )

  -- `reqs` are those of the batch; for a decode batch they are those of the running batch by now.
  unfoldable pub process_step_result :
      List ℕ → List ℕ → Engine K R D → Result (List RequestOutput × Engine K R D)
  unfolding visit_all emit_all
  process_step_result reqs next_token_ids e = elim reqs [
    | [] ↦ ok ([], e)
    | r ∷ rest ↦
        visit_all cache dt next_token_ids 0 (r ∷ rest) (record {
          store = e.scheduler.store;
          manager = e.scheduler.kv_cache_mgr;
          detokenizer = e.detokenizer;
          active = [];
        })
        >>= (λ x. ok (process_sorted (r ∷ rest) e x))
  ]
