-- ===== src/Tests/Engine.antt =====
-- The theorems on requests, the adder and the future map at small inputs.
use mini_infer.Prelude.{ℕ, ◌+◌, ◌/◌, ◌≡◌, refl, false, some, List, [], ◌∷◌, ok, arith}
use mini_infer.Prelude.Int.{pos, negsuc, ◌-ℤ◌, floor_to}
use mini_infer.Scheduler.Req.{Req, new_req, append_output_token, get_last_token, retract, last_of}
use mini_infer.Scheduler.Req.Cached.{outputs, reads, retracts, react, history, last_token-history}
use mini_infer.Scheduler.Adder.{
  PrefillAdder, new_adder, running_reserve, running_req_token_reserve, try_add_prefill,
  add_chunked_req, add_within_budget, do_chunked_prefill, run_chunk, run_next_chunk,
  chunk_allowance, rem_total_tokens, update_prefill_budget, ceil_paged_tokens, align_up,
}
use mini_infer.Scheduler.Adder.Account.{
  Op, tries, continues, run_ops, run_ops-new_adder, input_of, reserves_of,
}
use mini_infer.Scheduler.Adder.Outcome.{Told, try_add_prefill-Told}
use mini_infer.FutureMap.{
  FutureMap, new_map, record_batches, alloc_future_indices, resolve_future_input_ids,
  get_placeholder_input_ids, indices,
}
use mini_infer.FutureMap.Ring.{resolve-record_batches}

last_token-history_example :
    let r =
      history
        (new_req 0 (5 ∷ 6 ∷ []) 9)
        (outputs 7 ∷ reads ∷ retracts ∷ outputs 8 ∷ reads ∷ outputs 9 ∷ []) in
    (r.cached_seq_len ≡ 4) × (r.total_input_len ≡ 2) × ((get_last_token r).0 ≡ some 9)
unfolding history react new_req append_output_token get_last_token retract last_of
last_token-history_example =
    last_token-history 0 (5 ∷ 6 ∷ []) 9
      (outputs 7 ∷ reads ∷ retracts ∷ outputs 8 ∷ reads ∷ outputs 9 ∷ [])

abbrev request : ℕ → Req
request n = record (new_req 1 [] 6) {
  extend_input_len = n;
  fill_ids = 1 ∷ 2 ∷ 3 ∷ 4 ∷ 5 ∷ 6 ∷ 7 ∷ [];
}

abbrev ops : List Op
ops = continues (request 5) ∷ tries (request 7) ∷ tries (request 3) ∷ []

abbrev adder : PrefillAdder
adder = run_ops ops (new_adder (λ n. n / 2) 40 (request 0 ∷ []) 30 (pos 4) (some 12) 4 2)

-- A continued chunk takes 8 tokens of the chunk budget of 12, so the next request is cut to 4.
run_ops-new_adder_example :
    (adder.rem_input_tokens ≡ pos 18)
    × (adder.rem_chunk_tokens ≡ some (pos 0))
    × (adder.cur_rem_token_offset ≡ 12)
    × (adder.rem_total_token_offset ≡ 3 + 12 + 6)
unfolding run_ops try_add_prefill add_chunked_req add_within_budget do_chunked_prefill run_chunk
    run_next_chunk chunk_allowance rem_total_tokens update_prefill_budget ceil_paged_tokens align_up
    new_adder running_reserve running_req_token_reserve input_of reserves_of new_req ◌-ℤ◌ floor_to
run_ops-new_adder_example =
    run_ops-new_adder (λ n. n / 2) 40 (request 0 ∷ []) 30 (pos 4) (some 12) 4 2 ops (omega arith)

-- A new adder cuts a request of 7 tokens to its chunk of 4.
try_add_prefill-Told_example :
    let x = try_add_prefill (request 7) (new_adder (λ n. n) 40 [] 30 (pos 4) (some 4) 4 2) in
    Told (request 7) (new_adder (λ n. n) 40 [] 30 (pos 4) (some 4) 4 2) x.0 x.1 x.2
unfolding new_req
try_add_prefill-Told_example =
    try_add_prefill-Told (request 7) (new_adder (λ n. n) 40 [] 30 (pos 4) (some 4) 4 2)
      (omega arith)

-- The pointer is about to come round.
abbrev ring : FutureMap
ring = record (new_map (λ i. 0) 2 1) { future_ct = 7 }

resolve-record_batches_example :
    (n : FutureMap) × (record_batches ((11 ∷ 12 ∷ []) ∷ (13 ∷ []) ∷ (14 ∷ 15 ∷ []) ∷ []) ring
      ≡ ok n)
    × (resolve_future_input_ids (some (negsuc 7 ∷ negsuc 8 ∷ [])) false n
        ≡ some (pos 11 ∷ pos 12 ∷ []))
unfolding new_map alloc_future_indices get_placeholder_input_ids indices
resolve-record_batches_example =
    resolve-record_batches 2 ring (11 ∷ 12 ∷ []) ((13 ∷ []) ∷ (14 ∷ 15 ∷ []) ∷ []) false
      (record { room = refl; pointer = omega arith; running = omega arith })
      (omega arith, (omega arith, (omega arith, tt))) (omega arith)
