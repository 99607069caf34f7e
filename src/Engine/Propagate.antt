-- ===== src/Engine/Propagate.antt =====
-- `_propagate_future_to_running_batch` of miniinfer/engine/llm_engine.py: the placeholders of a batch
-- that is not the running one go back to the requests of the running batch.
use mini_infer.Prelude.{
  ℕ, suc, Bool, true, false, not, ◌&&◌, Option, none, some, List, [], ◌∷◌, map, length, get_elem?,
  leb, ◌==◌, if◌then◌else◌, Result, ok, err, index_error, ◌>>=◌,
}
use mini_infer.Prelude.Int.{ℤ}
use mini_infer.Scheduler.Batch.{ScheduledBatch}

-- `batch_req_map.get(r, -1)`: the last position of `r`, or none.
unfoldable pub index_of : ℕ → List ℕ → Option ℕ
index_of r [] = none
index_of r (q ∷ reqs) = elim (index_of r reqs) [
  | none ↦ if q == r then some 0 else none
  | some k ↦ some (suc k)
]

-- Every request that is not in the batch has a position, counted from `i`, in the old output ids.
unfoldable pub can_source : Option ℕ → ℕ → List (Option ℕ) → Bool
can_source old_len i [] = true
can_source old_len i (some k ∷ idx) = can_source old_len (suc i) idx
can_source none i (none ∷ idx) = false
can_source (some n) i (none ∷ idx) =
    let rest = can_source (some n) (suc i) idx in if leb n i then false else rest

-- `all(i == j for i, j in zip(idx_in_batch, range(bs)))`
unfoldable pub in_order : ℕ → List (Option ℕ) → Bool
in_order i [] = true
in_order i (none ∷ idx) = false
in_order i (some k ∷ idx) = k == i && in_order (suc i) idx

abbrev pub entry : List ℤ → ℕ → Result ℤ
entry xs i = elim (get_elem? xs i) [ none ↦ err index_error | some x ↦ ok x ]

-- Each entry from the batch where the request is in it, else the old one at its place.
unfoldable pub merge : List ℤ → List ℤ → ℕ → List (Option ℕ) → Result (List ℤ)
merge output_ids old i [] = ok []
merge output_ids old i (none ∷ idx) =
    entry old i >>= (λ x. merge output_ids old (suc i) idx >>= (λ xs. ok (x ∷ xs)))
merge output_ids old i (some k ∷ idx) =
    entry output_ids k >>= (λ x. merge output_ids old (suc i) idx >>= (λ xs. ok (x ∷ xs)))

abbrev pub old_length : Option (List ℤ) → Option ℕ
old_length none = none
old_length (some xs) = some (length xs)

abbrev pub or_empty : Option (List ℤ) → List ℤ
or_empty none = []
or_empty (some xs) = xs

abbrev pub with_ids : Option (List ℤ) → ScheduledBatch → ScheduledBatch
with_ids ids b = record b { output_ids = ids }

abbrev pub propagate_ids :
    List ℤ → List ℕ → List (Option ℕ) → ScheduledBatch → Result ScheduledBatch
propagate_ids output_ids batch_reqs idx running =
    let merged = merge output_ids (or_empty running.output_ids) 0 idx in
    if not (can_source (old_length running.output_ids) 0 idx)
    then ok (with_ids none running)
    else if length running.reqs == length batch_reqs && in_order 0 idx
    then ok (with_ids (some output_ids) running)
    else merged >>= (λ ids. ok (with_ids (some ids) running))

abbrev pub propagate_from :
    Option (List ℤ) → List ℕ → List ℕ → ScheduledBatch → Result ScheduledBatch
propagate_from none batch_reqs reqs running = ok (with_ids none running)
propagate_from (some ids) batch_reqs [] running = ok (with_ids none running)
propagate_from (some ids) batch_reqs (r ∷ reqs) running =
    propagate_ids ids batch_reqs (map (λ q. index_of q batch_reqs) (r ∷ reqs)) running

unfoldable pub propagate_future : ScheduledBatch → ScheduledBatch → Result ScheduledBatch
unfolding merge can_source in_order index_of
propagate_future batch running = propagate_from batch.output_ids batch.reqs running.reqs running
