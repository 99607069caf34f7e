-- ===== src/Tests/Queues.antt =====
-- The theorems on the queues of the scheduler at small inputs.
use mini_infer.Prelude.{
  ℕ, ◌+◌, ◌-◌, ◌≡◌, ◌⊎◌, inr, refl, Bool, true, false, not, some, List, [], ◌∷◌, ◌++◌, length,
  filter, take, ltb, ◌==◌, if◌then◌else◌, Distinct, arith, Result, ok, err,
}
use mini_infer.Prelude.Int.{pos, negsuc}
use mini_infer.Scheduler.Req.{Req, new_req, current_seq_len, retract}
use mini_infer.Scheduler.Adder.{PrefillAdder, new_adder}
use mini_infer.Scheduler.Batch.{
  Store, ScheduledBatch, new_batch, filter_batch, keep_from, append_metadata, rebuild_metadata,
}
use mini_infer.Scheduler.Batch.Aligned.{IsAligned, HasOutputs, filter_batch-IsAligned}
use mini_infer.Scheduler.Batch.Append.{append_metadata-IsAligned}
use mini_infer.Scheduler.Queues.{IKvCacheManager, Scheduler, Chunk, EngineConfig, new_scheduler}
use mini_infer.Scheduler.Queues.Decode.{
  check_decode_mem, get_decode_batch, retract_loop, retract_one, needed_tokens, prepare_decode,
}
use mini_infer.Scheduler.Queues.Check.{Checked, check_decode_mem-Checked}
use mini_infer.Scheduler.Queues.Release.{no_cap, cap_of, has_row, drain_pending_releases}
use mini_infer.Scheduler.Queues.Released.{Drained, drain_pending_releases-Drained}
use mini_infer.Scheduler.Queues.Counters.{Tracks, ratio_after, row_of, get_decode_batch-Tracks}

-- Requests of four tokens, in the rows of their own numbers.
abbrev store : Store
unfolding new_req
store j = record (new_req j (1 ∷ 2 ∷ 3 ∷ 4 ∷ []) 9) { req_pool_idx = some j }

-- A manager that counts what is free: a retracted request gives 2, a finished one 1.
abbrev counting : IKvCacheManager ℕ
counting = record {
  available_tokens = λ k. pos k;
  prefix_for_waiting_req = λ req k. (
    record req { fill_ids = req.origin_input_ids; extend_input_len = length req.origin_input_ids },
    k,
  );
  release_request = λ is_insert req k. ok (k + 2);
  update_finished_req_radix_cache = λ req k. ok (k + 1);
  begin_free_group = λ k. k;
  end_free_group = λ k. k;
  prepare_for_mixed = λ extends decodes args s b k. ok (record {
    manager = k;
    store = s;
    batch = b;
    decode_seq_lens = args.decode_seq_lens;
    decode_seq_lens_cpu = args.decode_seq_lens_cpu;
  });
  prepare_for_decode = λ skip s b k. ok (s, b, k);
}

abbrev four : ℕ → ℕ
four r = 4

abbrev three_reqs : ScheduledBatch
unfolding new_batch
three_reqs = record (new_batch (1 ∷ 2 ∷ 3 ∷ [])) {
  req_pool_indices = some (some 1 ∷ some 2 ∷ some 3 ∷ []);
  seq_lens = some (4 ∷ 4 ∷ 4 ∷ []);
  seq_lens_cpu = some (4 ∷ 4 ∷ 4 ∷ []);
  output_ids = some (negsuc 1 ∷ negsuc 2 ∷ negsuc 3 ∷ []);
}

three_reqs-IsAligned : IsAligned store four three_reqs
unfolding three_reqs store new_batch
three_reqs-IsAligned = record { pool = refl; lens = refl; lens_cpu = refl }

-- The second request is finished.
abbrev one_done : Store
one_done j = record (store j) { finished = j == 2 }

filter_batch-IsAligned_example :
    (b' : ScheduledBatch) × (filter_batch one_done three_reqs ≡ ok b')
    × (b'.reqs ≡ filter (λ r. not (one_done r).finished) three_reqs.reqs)
    × IsAligned one_done four b'
    × HasOutputs negsuc b'
unfolding three_reqs store new_batch
filter_batch-IsAligned_example =
    filter_batch-IsAligned one_done four negsuc three_reqs
      (record { pool = refl; lens = refl; lens_cpu = refl }) (inr refl)

-- Request 5 has more chunks to come, and 4 joins.
abbrev extended : ScheduledBatch
unfolding new_batch
extended = record (new_batch (4 ∷ 5 ∷ 1 ∷ [])) {
  req_pool_indices = some (some 4 ∷ some 5 ∷ some 1 ∷ []);
  seq_lens = some (4 ∷ 4 ∷ 4 ∷ []);
  seq_lens_cpu = some (4 ∷ 4 ∷ 4 ∷ []);
}

abbrev is_five : ℕ → Bool
is_five r = r == 5

append_metadata-IsAligned_example :
    (b : ScheduledBatch) × (append_metadata extended
        (keep_from is_five 0 (4 ∷ 5 ∷ [])).0
        (record three_reqs { reqs = 1 ∷ 2 ∷ 3 ∷ 4 ∷ [] })
      ≡ ok b)
    × (b.reqs ≡ 1 ∷ 2 ∷ 3 ∷ 4 ∷ [])
    × IsAligned store four b
unfolding three_reqs store new_batch extended
append_metadata-IsAligned_example =
    append_metadata-IsAligned store four is_five (1 ∷ 2 ∷ 3 ∷ []) (4 ∷ 5 ∷ []) (1 ∷ []) extended
      (record three_reqs { reqs = 1 ∷ 2 ∷ 3 ∷ 4 ∷ [] }) refl refl refl three_reqs-IsAligned refl

abbrev config : EngineConfig
config = record {
  max_num_seqs = 8;
  max_extend_len = 64;
  page_size = 4;
  enable_chunked_prefill = true;
  chunked_prefill_size = 4;
}

-- Three requests want a page each, and 5 tokens are available.
abbrev crowded : Scheduler ℕ ℕ
unfolding new_scheduler new_batch
crowded = record (new_scheduler config 5 30 store) {
  running_batch = three_reqs;
  waiting_queue = 4 ∷ 5 ∷ [];
  pending_release_reqs = 2 ∷ 6 ∷ [];
}

-- A request that has a row.
abbrev HasRow : Req → Type 0
HasRow req = has_row req.req_pool_idx ≡ true

crowded-Distinct : Distinct {A = ℕ} (1 ∷ 2 ∷ 3 ∷ [])
crowded-Distinct = (λ m. ground (arith, m), (λ m. ground (arith, m), (λ m. absurd m, tt)))

check_decode_mem-Checked_example :
    (s' : Scheduler ℕ ℕ) × (removed : List ℕ) × (check_decode_mem counting crowded
      ≡ ok (ltb 0 (length removed), s'))
    × Checked counting four negsuc crowded s' removed
unfolding three_reqs store new_batch crowded new_scheduler
check_decode_mem-Checked_example =
    check_decode_mem-Checked counting HasRow (λ req k h. (k + 2, refl)) four negsuc crowded
      crowded-Distinct (λ j m. refl) three_reqs-IsAligned (inr refl)

drain_pending_releases-Drained_example :
    (s' : Scheduler ℕ ℕ) × (rel : List ℕ) × (rest : List ℕ) × (drain_pending_releases counting true
        (some (pos 1))
        crowded
      ≡ ok (length rel, s'))
    × (crowded.pending_release_reqs ≡ rel ++ rest)
    × (rel ≡ (
        if no_cap (some (pos 1))
        then crowded.pending_release_reqs
        else take (cap_of (some (pos 1))) crowded.pending_release_reqs))
    × (((crowded.pending_release_reqs ≡ []) × (s' ≡ crowded))
        ⊎ Drained counting true crowded s' rel rest)
unfolding three_reqs store new_batch crowded new_scheduler
drain_pending_releases-Drained_example =
    drain_pending_releases-Drained counting HasRow (λ req h. h) (λ req k h. (k + 1, refl)) true
      (some (pos 1)) crowded (λ m. ground (arith, m), (λ m. absurd m, tt)) (λ j m. refl)

crowded-Tracks : Tracks (λ r. r + 8) (λ r. r - 2) 30 [] crowded
unfolding crowded three_reqs store new_scheduler ratio_after row_of
crowded-Tracks = record { ratio = refl; retracts = refl; oks = refl }

-- What a call gave; with an error, what was there.
abbrev given_state : Result (Bool × Scheduler ℕ ℕ) → Bool × Scheduler ℕ ℕ
unfolding crowded
given_state (err e) = (false, crowded)
given_state (ok x) = x

-- The round that retracts.
abbrev after_crowded : Bool × Scheduler ℕ ℕ
unfolding get_decode_batch crowded
after_crowded = given_state (get_decode_batch counting (λ r. r + 8) (λ r. r - 2) false crowded)

get_decode_batch-Tracks_example :
    (retracted : Bool) × (s₁ : Scheduler ℕ ℕ) × (check_decode_mem counting crowded
      ≡ ok (retracted, s₁))
    × Tracks (λ r. r + 8) (λ r. r - 2) 30 (retracted ∷ []) after_crowded.1
unfolding get_decode_batch check_decode_mem retract_loop retract_one needed_tokens prepare_decode
    retract rebuild_metadata current_seq_len crowded three_reqs store new_scheduler new_batch
    after_crowded
get_decode_batch-Tracks_example =
    get_decode_batch-Tracks counting (λ r. r + 8) (λ r. r - 2) 30 [] false crowded after_crowded.0
      after_crowded.1 (omega arith) crowded-Tracks refl

-- Two requests wait and one is chunked; there is room for one chunk of four tokens a round.
abbrev queued : Scheduler ℕ ℕ
unfolding crowded
queued = record crowded { chunking_reqs = record { req = 7; cached_len = 0; chunk_size = 2 } ∷ [] }

abbrev small_adder : PrefillAdder
small_adder = new_adder (λ n. n) 40 [] 64 (pos 8) (some 1) 4 2

-- No request waits; two tokens are left of the chunked one, and the chunk takes one.
abbrev one_chunked : Scheduler ℕ ℕ
unfolding queued
one_chunked = record queued { waiting_queue = [] }

abbrev seventh : Chunk
seventh = record { req = 7; cached_len = 0; chunk_size = 2 }
