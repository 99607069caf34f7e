-- ===== src/Tests/Serving.antt =====
-- The theorems on the engine at small inputs.
use mini_infer.Prelude.{
  filter, none, ◌≤◌, Result, err, length, ℕ, zero, suc, ◌+◌, ◌≡◌, ◌⊎◌, inl, inr, refl, true, false,
  some, List, [], ◌∷◌, ◌++◌, map, get_elem?, ◌==◌, arith, ok,
}
use mini_infer.Prelude.Int.{pos, negsuc}
use mini_infer.Scheduler.Req.{new_req}
use mini_infer.Scheduler.Batch.{Store, ScheduledBatch, new_batch, mixed}
use mini_infer.Scheduler.Queues.{new_scheduler}
use mini_infer.Engine.{IChunkCache, IDetokenizer, Engine, RequestOutput, process_step_result}
use mini_infer.Scheduler.Queues.Release.{is_in}
use mini_infer.Engine.Visit.{gets}
use mini_infer.Detokenizer.{Decoder, new_decoder}
use mini_infer.Tests.Text.{points}
use mini_infer.Engine.Decoding.{decoder_calls, length-decoder_calls}
use mini_infer.Engine.Outputs.{WithinMax, process_step_result-tokens}
use mini_infer.Engine.Counts.{step_counts, step_counts-mixed}
use mini_infer.Engine.Finished.{reported, process_step_result-HandedOn}
use mini_infer.Engine.Progress.{start, round, Served-finished}
use mini_infer.Engine.Propagate.{propagate_future}
use mini_infer.Engine.Placeholders.{propagated, propagate_future-outputs}

-- Requests that may have two tokens; 2 is chunked, and 3 was retracted.
abbrev requests : Store
unfolding new_req
requests j = record (new_req j (1 ∷ 2 ∷ []) 2) { is_chunked = j == 2; is_retracted = j == 3 }

abbrev chunk_cache : IChunkCache ℕ
chunk_cache = record {
  update_unfinished_req_radix_cache = λ req k. ok (req, k + 1);
  free_row = λ row k. k;
}

-- Each id is the code point of its text.
abbrev letters : IDetokenizer Decoder
letters = decoder_calls points

abbrev engine : Engine ℕ ℕ Decoder
unfolding new_scheduler
engine = record {
  scheduler =
      new_scheduler
        (record {
          max_num_seqs = 8;
          max_extend_len = 64;
          page_size = 4;
          enable_chunked_prefill = true;
          chunked_prefill_size = 4;
        })
        5 30 requests;
  detokenizer = new_decoder true none;
  streaming = true;
  eos_token_id = some 9;
}

process_step_result-tokens_example :
    (outputs : List RequestOutput) × (e' : Engine ℕ ℕ Decoder) × (process_step_result chunk_cache
        letters
        (λ r. false)
        (1 ∷ 2 ∷ 3 ∷ [])
        (7 ∷ 8 ∷ 9 ∷ [])
        engine
      ≡ ok (outputs, e'))
    × ((j : ℕ)
        → ((e'.scheduler.store j).output_ids
            ≡ (engine.scheduler.store j).output_ids
              ++ gets engine.scheduler.store (7 ∷ 8 ∷ 9 ∷ []) 0 (1 ∷ 2 ∷ 3 ∷ []) j)
          × ((e'.scheduler.store j).max_tokens ≡ (engine.scheduler.store j).max_tokens)
          × ((engine.scheduler.store j).finished ≡ true → (e'.scheduler.store j).finished ≡ true)
          × (WithinMax (engine.scheduler.store j) → WithinMax (e'.scheduler.store j)))
process_step_result-tokens_example =
    process_step_result-tokens chunk_cache letters (λ r. false) {Ready = λ req k. Unit {0}}
      (λ req k ready. ((req, k + 1), refl, refl, refl, refl, λ q other. tt))
      (λ ids tokens eos_id d same. length-decoder_calls points ids tokens eos_id d same)
      (1 ∷ 2 ∷ 3 ∷ []) (7 ∷ 8 ∷ 9 ∷ []) engine
      (λ m. ground (arith, m), (λ m. ground (arith, m), (λ m. absurd m, tt))) (omega arith)
      (λ j m c. tt)

-- Request 1 ran before and keeps its placeholder; 4 and 5 are in the batch, in another order.
abbrev ran : ScheduledBatch
unfolding new_batch
ran = record (new_batch (1 ∷ 4 ∷ 5 ∷ [])) { output_ids = some (negsuc 1 ∷ []) }

abbrev launched : ScheduledBatch
unfolding new_batch
launched = record (new_batch (5 ∷ 6 ∷ 4 ∷ [])) { output_ids = some (pos 5 ∷ pos 6 ∷ pos 4 ∷ []) }

ran_sources :
    (k r : ℕ)
    → get_elem? (1 ∷ 4 ∷ 5 ∷ []) k ≡ some r
    → (is_in r (5 ∷ 6 ∷ 4 ∷ []) ≡ true) ⊎ (get_elem? (negsuc 1 ∷ []) (0 + k) ≡ some (negsuc r))
ran_sources zero r e = inr (ground (arith, e))
ran_sources (suc zero) r e = inl (ground (arith, e))
ran_sources (suc (suc zero)) r e = inl (ground (arith, e))
ran_sources (suc (suc (suc k))) r e = cc

propagate_future-outputs_example :
    propagate_future launched ran
    ≡ ok (record ran { output_ids = some (map (propagated pos negsuc launched.reqs) ran.reqs) })
unfolding ran launched new_batch
propagate_future-outputs_example =
    propagate_future-outputs pos negsuc launched ran (refl, ran_sources) (omega arith)

-- Every request has one token of its two.
abbrev one_left : Engine ℕ ℕ Decoder
unfolding engine requests
one_left = record engine {
  scheduler = record engine.scheduler { store = λ j. record (requests j) { output_ids = 5 ∷ [] } };
}

abbrev given_outputs :
    Result (List RequestOutput × Engine ℕ ℕ Decoder) → List RequestOutput × Engine ℕ ℕ Decoder
unfolding one_left
given_outputs (err e) = ([], one_left)
given_outputs (ok x) = x

abbrev after_one : List RequestOutput × Engine ℕ ℕ Decoder
unfolding process_step_result one_left
after_one =
    given_outputs
      (process_step_result chunk_cache letters (λ r. false) (1 ∷ 4 ∷ []) (7 ∷ 8 ∷ []) one_left)

Served-finished_example :
    ((after_one.1.scheduler.store 1).finished ≡ true)
    × (length (after_one.1.scheduler.store 1).output_ids
        ≤ (after_one.1.scheduler.store 1).max_tokens)
unfolding process_step_result one_left after_one given_outputs engine requests new_req new_scheduler
Served-finished_example =
    Served-finished chunk_cache letters (λ r. false) {Ready = λ req k. Unit {0}}
      (λ req k ready. ((req, k + 1), refl, refl, refl, refl, λ q other. tt))
      (λ ids tokens eos_id d same. length-decoder_calls points ids tokens eos_id d same) {j = 1}
      {e = one_left} {n = 1} {e' = after_one.1} (omega arith, inr (omega arith))
      (round start one_left after_one.1 (record { output = refl; most = refl; done = refl })
        (1 ∷ 4 ∷ []) (7 ∷ 8 ∷ []) after_one.0 (λ m. ground (arith, m), (λ m. absurd m, tt))
        (omega arith) (λ i m c. tt) (inl refl) refl refl refl)
      (omega arith)

-- Two requests to extend, by 3 and 2 tokens, and one to decode.
abbrev both_kinds : ScheduledBatch
unfolding new_batch
both_kinds = record (new_batch (1 ∷ 4 ∷ 5 ∷ [])) {
  forward_mode = mixed;
  decoding_reqs = some (5 ∷ []);
  prefix_lens = some (0 ∷ 1 ∷ 4 ∷ []);
  extend_lens = some (3 ∷ 2 ∷ 1 ∷ []);
}

step_counts-mixed_example :
    ((step_counts requests both_kinds).num_prefill_tokens ≡ 3 + (2 + 0))
    × ((step_counts requests both_kinds).num_decode_tokens ≡ 1)
unfolding both_kinds
step_counts-mixed_example =
    step_counts-mixed requests both_kinds (1 ∷ 4 ∷ []) (5 ∷ []) (0 ∷ 1 ∷ 4 ∷ []) (3 ∷ 2 ∷ [])
      (1 ∷ []) refl refl refl refl refl (omega arith) refl refl refl (λ j m k. ground (arith, m, k))

process_step_result-HandedOn_example :
    let done =
      filter
        (λ r. is_in (after_one.1.scheduler.store r).req_id (reported after_one.0))
        (1 ∷ 4 ∷ []) in
    (after_one.1.scheduler.pending_release_reqs ≡ one_left.scheduler.pending_release_reqs ++ done)
    × (after_one.1.scheduler.finished_reqs ≡ one_left.scheduler.finished_reqs ++ done)
unfolding process_step_result one_left after_one given_outputs engine requests new_req new_scheduler
process_step_result-HandedOn_example =
    process_step_result-HandedOn chunk_cache letters (λ r. false) (1 ∷ 4 ∷ []) (7 ∷ 8 ∷ []) one_left
      after_one.0 after_one.1 refl
