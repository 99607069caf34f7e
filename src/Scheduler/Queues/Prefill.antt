-- ===== src/Scheduler/Queues/Prefill.antt =====
-- `_get_new_batch_prefill` of miniinfer/scheduler/scheduler.py. `discount` stands for `int(n * new_token_ratio)` at the present
-- ratio, and `reserve_pages` for the default of the adder's last argument.
use mini_infer.Prelude.{
  ℕ, Bool, true, false, ◌&&◌, Option, none, some, List, [], ◌∷◌, ◌++◌, map, length, ◌==◌,
  if◌then◌else◌, Result, ok, ◌>>=◌,
}
use mini_infer.Prelude.Int.{pos, ◌-ℤ◌, pos_part}
use mini_infer.Scheduler.Chunk.{is_last_chunk}
use mini_infer.Scheduler.Adder.{PrefillAdder, new_adder, no_remaining_budget}
use mini_infer.Scheduler.Batch.{
  extend, mixed, Store, ScheduledBatch, new_batch, keep_from, rebuild_metadata, append_metadata,
}
use mini_infer.Scheduler.Queues.{IKvCacheManager, Scheduler, Chunk, held_chunk, Mixed}
use mini_infer.Scheduler.Queues.Admit.{Continuing, continue_chunks, Admitting, admit}

-- The chunks that have more to come.
abbrev pub not_last : Store → List Chunk → List Chunk
not_last store [] = []
not_last store (c ∷ chunks) =
    let rest = not_last store chunks in
    if is_last_chunk (held_chunk store c) then rest else c ∷ rest

abbrev pub reqs_of : List Chunk → List ℕ
reqs_of = map (λ c. c.req)

-- `if self.running_batch.seq_lens is None or self.running_batch.seq_lens_cpu is None`
abbrev pub lens_known : Option (List ℕ) → Option (List ℕ) → Bool
lens_known none cpu = false
lens_known (some lens) none = false
lens_known (some lens) (some cpu) = true

abbrev pub is_some {ℓ} : {A : Type ℓ} → Option A → Bool
is_some none = false
is_some (some x) = true

module _ {K R : Type 0} (kv : IKvCacheManager K) where
  -- The requests whose prefill ends here join the running batch.
  abbrev pub join_running :
      List ℕ
      → List ℕ
      → Bool
      → Mixed K
      → Scheduler K R
      → Result (Option ScheduledBatch × Scheduler K R)
  join_running all_extend_reqs decode_reqs uses_placeholder m s =
      let (ready_indices, ready) = keep_from (λ r. (m.store r).is_chunked) 0 all_extend_reqs in
      let running = elim decode_reqs as (λ q. ScheduledBatch) [
        | [] ↦ s.running_batch
        | d ∷ ds ↦ record s.running_batch {
          seq_lens = m.decode_seq_lens;
          seq_lens_cpu = m.decode_seq_lens_cpu;
        }
      ] in
      append_metadata m.batch ready_indices (record running { reqs = running.reqs ++ ready })
      >>= (λ running'. ok (
        some (record m.batch { uses_placeholder = uses_placeholder }),
        record s { kv_cache_mgr = m.manager; store = m.store; running_batch = running' },
      ))

  abbrev pub with_lens : Scheduler K R → Scheduler K R
  with_lens s =
      if lens_known s.running_batch.seq_lens s.running_batch.seq_lens_cpu
      then s
      else record s { running_batch = rebuild_metadata s.store s.running_batch }

  -- A batch of the requests to extend, and of the decode requests if there are any.
  abbrev pub extend_batch : List ℕ → Scheduler K R → Result (Option ScheduledBatch × Scheduler K R)
  extend_batch all_extend_reqs s =
      kv.prepare_for_mixed all_extend_reqs []
        (record { decode_seq_lens = none; decode_seq_lens_cpu = none; decode_input_ids = none })
        s.store (record (new_batch all_extend_reqs) { forward_mode = extend }) s.kv_cache_mgr
      >>= (λ m. join_running all_extend_reqs [] false m s)

  abbrev pub mixed_batch :
      Bool → List ℕ → List ℕ → Scheduler K R → Result (Option ScheduledBatch × Scheduler K R)
  mixed_batch skip_decode_input_ids all_extend_reqs decode_reqs s =
      let s' = with_lens s in
      let ids = if skip_decode_input_ids then s'.running_batch.output_ids else none in
      kv.prepare_for_mixed all_extend_reqs decode_reqs
        (record {
          decode_seq_lens = s'.running_batch.seq_lens;
          decode_seq_lens_cpu = s'.running_batch.seq_lens_cpu;
          decode_input_ids = ids;
        })
        s'.store
        (record (new_batch (all_extend_reqs ++ decode_reqs)) {
          forward_mode = mixed;
          decoding_reqs = some decode_reqs;
        })
        s'.kv_cache_mgr
      >>= (λ m. join_running all_extend_reqs decode_reqs (is_some ids) m s')

  abbrev pub build_batch :
      Bool → List ℕ → List ℕ → Scheduler K R → Result (Option ScheduledBatch × Scheduler K R)
  build_batch skip_decode_input_ids all_extend_reqs [] s = extend_batch all_extend_reqs s
  build_batch skip_decode_input_ids all_extend_reqs (d ∷ ds) s =
      mixed_batch skip_decode_input_ids all_extend_reqs (d ∷ ds) s

  -- What was found to run, with the queues written back. With nothing to run there are no chunks.
  abbrev pub admitted : Continuing → Admitting K → Scheduler K R → List ℕ × Scheduler K R
  admitted c x s = (
    x.prefill_reqs ++ (reqs_of c.continuing_chunks ++ reqs_of x.new_chunked_reqs),
    record s {
      kv_cache_mgr = x.manager;
      store = x.store;
      waiting_queue = x.remaining_waiting;
      chunking_reqs =
          c.remaining_chunks ++ not_last x.store (c.continuing_chunks ++ x.new_chunked_reqs);
    },
  )

  abbrev pub nothing_left : Scheduler K R → Bool
  nothing_left s = length s.waiting_queue == 0 && length s.chunking_reqs == 0

  -- The adder for this round; what is available is at least 0.
  unfoldable pub round_adder : (ℕ → ℕ) → ℕ → Scheduler K R → PrefillAdder
  round_adder discount reserve_pages s =
      new_adder discount (pos_part (kv.available_tokens s.kv_cache_mgr))
        (map s.store s.running_batch.reqs) s.max_extend_len
        (pos s.max_batch_size -ℤ pos (length s.running_batch.reqs))
        (if s.enable_chunked_prefill then some s.chunked_prefill_size else none) s.page_size
        reserve_pages

  -- The two loops: the chunks first, then the waiting queue.
  unfoldable pub gather_reqs : PrefillAdder → Scheduler K R → List ℕ × Scheduler K R
  unfolding admit continue_chunks
  gather_reqs adder s =
      let c = continue_chunks s.chunking_reqs (record {
        adder = adder;
        store = s.store;
        continuing_chunks = [];
        remaining_chunks = [];
      }) in
      let x = admit kv s.waiting_queue (record {
        adder = c.adder;
        store = c.store;
        manager = s.kv_cache_mgr;
        prefill_reqs = [];
        new_chunked_reqs = [];
        remaining_waiting = [];
      }) in
      admitted c x s

  abbrev pub decode_reqs_of : Scheduler K R → List ℕ
  decode_reqs_of s = if s.enable_chunked_prefill then s.running_batch.reqs else []

  abbrev pub build_some :
      Bool → List ℕ × Scheduler K R → Result (Option ScheduledBatch × Scheduler K R)
  build_some skip_decode_input_ids ([], s) = ok (none, s)
  build_some skip_decode_input_ids (r ∷ reqs, s) =
      build_batch skip_decode_input_ids (r ∷ reqs) (decode_reqs_of s) s

  unfoldable pub get_new_batch_prefill :
      (ℕ → ℕ) → ℕ → Bool → Scheduler K R → Result (Option ScheduledBatch × Scheduler K R)
  unfolding gather_reqs round_adder
  get_new_batch_prefill discount reserve_pages skip_decode_input_ids s =
      let adder = round_adder discount reserve_pages s in
      if nothing_left s
      then ok (none, s)
      else if no_remaining_budget adder
      then ok (none, s)
      else build_some skip_decode_input_ids (gather_reqs adder s)
