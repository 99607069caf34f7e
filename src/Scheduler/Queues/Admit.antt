-- ===== src/Scheduler/Queues/Admit.antt =====
-- The two loops of `_get_new_batch_prefill` of miniinfer/scheduler/scheduler.py, over the chunked
-- requests and over the waiting queue. The adder writes to the requests, so the store goes along.
use mini_infer.Prelude.{
  ℕ, ◌+◌, ◌-◌, Bool, true, false, Option, none, some, List, [], ◌∷◌, ◌++◌, ◌==◌, if◌then◌else◌,
}
use mini_infer.Scheduler.Req.{Req}
use mini_infer.Scheduler.Adder.{
  AddReqResult, continue, no_token, other, PrefillAdder, no_remaining_budget, try_add_prefill,
  add_chunked_req,
}
use mini_infer.Scheduler.Batch.{Store, write_req}
use mini_infer.Scheduler.Queues.{IKvCacheManager, Chunk}

-- `if adder.new_chunked_req is req`
abbrev pub is_chunk_of : Option ℕ → ℕ → Bool
is_chunk_of none req_id = false
is_chunk_of (some r) req_id = r == req_id

-- What the loop over `chunking_reqs` carries.
pub record Continuing : Type 0 where
  pub adder : PrefillAdder
  pub store : Store
  pub continuing_chunks : List Chunk
  pub remaining_chunks : List Chunk

-- One round; the length left is at least 0, since only chunks that are not the last are kept.
unfoldable pub continue_chunk : Chunk → Continuing → Continuing
continue_chunk c x =
    let cached_len = c.cached_len + c.chunk_size in
    let remaining_len = (x.store c.req).total_input_len - cached_len in
    let (still_truncated, req, adder) =
      add_chunked_req (record (x.store c.req) { extend_input_len = remaining_len }) x.adder in
    let actual_chunk_size = req.extend_input_len in
    record {
      adder = adder;
      store = write_req c.req req x.store;
      continuing_chunks =
          x.continuing_chunks
          ++ record { req = c.req; cached_len = cached_len; chunk_size = actual_chunk_size } ∷ [];
      remaining_chunks =
          if still_truncated
          then (x.remaining_chunks
              ++ record { req = c.req; cached_len = cached_len + actual_chunk_size; chunk_size = 0 }
                ∷ [])
          else x.remaining_chunks;
    }

unfoldable pub continue_chunks : List Chunk → Continuing → Continuing
unfolding continue_chunk
continue_chunks [] x = x
continue_chunks (c ∷ chunks) x = continue_chunks chunks (continue_chunk c x)

-- What the loop over `waiting_queue` carries.
pub record Admitting (K : Type 0) : Type 0 where
  pub adder : PrefillAdder
  pub store : Store
  pub manager : K
  pub prefill_reqs : List ℕ
  pub new_chunked_reqs : List Chunk
  pub remaining_waiting : List ℕ

-- The chunk that a cut request becomes.
abbrev pub first_chunk : ℕ → Req → Chunk
first_chunk r req = record {
  req = r;
  cached_len = req.cache_protected_len;
  chunk_size = req.extend_input_len;
}

module _ {K : Type 0} where
  -- A request that was added, whole or cut.
  abbrev pub added : ℕ → Req → PrefillAdder → Admitting K → Admitting K
  added r req adder x =
      if is_chunk_of adder.new_chunked_req req.req_id
      then record x {
        adder = record adder { new_chunked_req = none };
        new_chunked_reqs = x.new_chunked_reqs ++ first_chunk r req ∷ [];
      }
      else record x { adder = adder; prefill_reqs = x.prefill_reqs ++ r ∷ [] }

  abbrev pub wait : ℕ → Admitting K → Admitting K
  wait r x = record x { remaining_waiting = x.remaining_waiting ++ r ∷ [] }

  -- By the adder's answer; false in front where the loop breaks.
  abbrev pub answered : AddReqResult → ℕ → Req → PrefillAdder → Admitting K → Bool × Admitting K
  answered no_token r req adder x = (false, record x { adder = adder })
  answered other r req adder x = (true, wait r (record x { adder = adder }))
  answered continue r req adder x = (true, added r req adder x)

module _ {K : Type 0} (kv : IKvCacheManager K) where
  unfoldable pub try_waiting : ℕ → Admitting K → Bool × Admitting K
  try_waiting r x =
      let (req, manager) = kv.prefix_for_waiting_req (x.store r) x.manager in
      let (answer, req', adder) = try_add_prefill req x.adder in
      let next =
        answered answer r req' adder
          (record x { store = write_req r req' x.store; manager = manager }) in
      if no_remaining_budget x.adder then (true, wait r x) else next

  unfoldable pub admit : List ℕ → Admitting K → Admitting K
  unfolding try_waiting
  admit [] x = x
  admit (r ∷ queue) x =
      let (goes_on, x') = try_waiting r x in
      let rest = admit queue x' in
      if goes_on then rest else record x' { remaining_waiting = x'.remaining_waiting ++ r ∷ queue }
