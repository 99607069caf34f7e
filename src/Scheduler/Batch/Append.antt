-- ===== src/Scheduler/Batch/Append.antt =====
-- The metadata of the running batch where requests are added to it and where it is built again:
-- `_append_running_batch_metadata` and `_rebuild_running_batch_metadata` of scheduler.py.
use mathlib.Core.List.{append-nil}
use mini_infer.Prelude.{
  ℕ, ◌≡◌, ◌⊎◌, inl, inr, refl, sym, ap, ◌∙◌, Bool, Option, none, some, List, [], ◌∷◌, ◌++◌, map,
  length, take, arith, ok,
}
use mini_infer.Prelude.Int.{ℤ}
use mini_infer.Scheduler.Req.{current_seq_len}
use mini_infer.Scheduler.Batch.{
  Store, ScheduledBatch, keep_from, pool_of, rebuild_metadata, append_metadata, brought,
  append_brought, first_metadata,
}
use mini_infer.Scheduler.Batch.Aligned.{IsAligned, HasOutputs, gather-keep_from, length-keep_from}

map_append {ℓ} : {A : Type ℓ} (f : ℕ → A) (xs ys : List ℕ) → map f (xs ++ ys) ≡ map f xs ++ map f ys
map_append f [] ys = refl
map_append f (x ∷ xs) ys = ap (◌∷◌ (f x)) (map_append f xs ys)

-- What the batch brings for those of its first requests that are kept.
brought-keep_from :
    (s : Store) (len : ℕ → ℕ) (out : ℕ → Bool) (reqs decode_reqs : List ℕ) (pool : List (Option ℕ))
    (lens : List ℕ)
    → pool ≡ pool_of s (reqs ++ decode_reqs)
    → lens ≡ map len (reqs ++ decode_reqs)
    → brought (keep_from out 0 reqs).0 pool lens (some lens)
      ≡ ok (record {
        pool = pool_of s (keep_from out 0 reqs).1;
        lens = map len (keep_from out 0 reqs).1;
        lens_cpu = some (map len (keep_from out 0 reqs).1);
      })
brought-keep_from s len out reqs decode_reqs pool lens p l =
    let f = λ (r : ℕ). (s r).req_pool_idx in
    let g =
      gather-keep_from f out 0 reqs pool (map f decode_reqs) (p ∙ map_append f reqs decode_reqs) in
    let h =
      gather-keep_from len out 0 reqs lens (map len decode_reqs)
        (l ∙ map_append len reqs decode_reqs) in
    rw (g, h) refl

-- The running batch after `reqs` have joined those it had.
joined :
    (s : Store) (len : ℕ → ℕ) (old new : List ℕ) (r : ℕ) (b : ScheduledBatch)
    → IsAligned s len (record b { reqs = old })
    → b.reqs ≡ old ++ (r ∷ new)
    → (b' : ScheduledBatch) × (append_brought b.req_pool_indices b.reqs
          (record {
            pool = pool_of s (r ∷ new);
            lens = map len (r ∷ new);
            lens_cpu = some (map len (r ∷ new));
          })
          b
        ≡ ok b')
      × (b'.reqs ≡ b.reqs)
      × IsAligned s len b'
joined s len [] new r b a e = (
  first_metadata
      (record {
        pool = pool_of s (r ∷ new);
        lens = map len (r ∷ new);
        lens_cpu = some (map len (r ∷ new));
      })
      b,
  rw a.pool refl,
  refl,
  record { pool = rw e refl; lens = rw e refl; lens_cpu = rw e refl },
)
joined s len (q ∷ old) new r b a e = (
  record b {
    req_pool_indices = some (pool_of s (q ∷ old) ++ pool_of s (r ∷ new));
    seq_lens = some (map len (q ∷ old) ++ map len (r ∷ new));
    seq_lens_cpu = some (map len (q ∷ old) ++ map len (r ∷ new));
  },
  rw (a.pool, e, a.lens, a.lens_cpu) refl,
  refl,
  record {
    pool = rw e (ap some (sym (map_append (λ r. (s r).req_pool_idx) (q ∷ old) (r ∷ new))));
    lens = rw e (ap some (sym (map_append len (q ∷ old) (r ∷ new))));
    lens_cpu = rw e (ap some (sym (map_append len (q ∷ old) (r ∷ new))));
  },
)

-- By what is kept; nothing kept changes nothing.
append_kept :
    (s : Store) (len : ℕ → ℕ) (old : List ℕ) (batch running : ScheduledBatch)
    (indices kept : List ℕ) (pool : List (Option ℕ)) (lens : List ℕ)
    → batch.req_pool_indices ≡ some pool
    → batch.seq_lens ≡ some lens
    → batch.seq_lens_cpu ≡ some lens
    → length indices ≡ length kept
    → brought indices pool lens (some lens)
      ≡ ok (record { pool = pool_of s kept; lens = map len kept; lens_cpu = some (map len kept) })
    → IsAligned s len (record running { reqs = old })
    → running.reqs ≡ old ++ kept
    → (b : ScheduledBatch) × (append_metadata batch indices running ≡ ok b)
      × (b.reqs ≡ running.reqs)
      × IsAligned s len b
unfolding append_metadata
append_kept s len old batch running [] [] pool lens bp bl bc n m a e =
    let same : running.reqs ≡ old = e ∙ append-nil old in
    (
      running,
      refl,
      refl,
      record { pool = rw same a.pool; lens = rw same a.lens; lens_cpu = rw same a.lens_cpu },
    )
append_kept s len old batch running [] (r ∷ kept) pool lens bp bl bc n m a e =
    absurd (omega (arith, n))
append_kept s len old batch running (i ∷ is) [] pool lens bp bl bc n m a e =
    absurd (omega (arith, n))
append_kept s len old batch running (i ∷ is) (r ∷ kept) pool lens bp bl bc n m a e =
    let (b, run, same, aligned) = joined s len old kept r running a e in
    (b, rw (bp, bl, bc) (rw m run), same, aligned)

-- If the running batch had metadata for its requests `old`, then joins those of a new batch's first
-- requests that pass the test, and the batch has a row and a length for each of its requests, then
-- `_append_running_batch_metadata` raises nothing, and every request of the running batch, old and
-- new, has its own row and length, in the order of the requests.
pub append_metadata-IsAligned :
    (s : Store) (len : ℕ → ℕ) (out : ℕ → Bool) (old reqs decode_reqs : List ℕ)
    (batch running : ScheduledBatch)
    → batch.req_pool_indices ≡ some (pool_of s (reqs ++ decode_reqs))
    → batch.seq_lens ≡ some (map len (reqs ++ decode_reqs))
    → batch.seq_lens_cpu ≡ some (map len (reqs ++ decode_reqs))
    → IsAligned s len (record running { reqs = old })
    → running.reqs ≡ old ++ (keep_from out 0 reqs).1
    → (b : ScheduledBatch) × (append_metadata batch (keep_from out 0 reqs).0 running ≡ ok b)
      × (b.reqs ≡ running.reqs)
      × IsAligned s len b
append_metadata-IsAligned s len out old reqs decode_reqs batch running bp bl bc a e =
    append_kept s len old batch running (keep_from out 0 reqs).0 (keep_from out 0 reqs).1
      (pool_of s (reqs ++ decode_reqs)) (map len (reqs ++ decode_reqs)) bp bl bc
      (length-keep_from out 0 reqs).0 (brought-keep_from s len out reqs decode_reqs _ _ refl refl) a
      e

pub take-map {ℓ} :
    {A : Type ℓ} (f : ℕ → A) (xs ys : List ℕ) → take (length xs) (map f (xs ++ ys)) ≡ map f xs
take-map f [] ys = refl
take-map f (x ∷ xs) ys = ap (◌∷◌ (f x)) (take-map f xs ys)

rebuild_reqs :
    (s : Store) (out : ℕ → ℤ) (b : ScheduledBatch) (reqs removed : List ℕ)
    → (b.output_ids ≡ none) ⊎ (b.output_ids ≡ some (map out (reqs ++ removed)))
    → ((rebuild_metadata s (record b { reqs = reqs })).reqs ≡ reqs)
      × IsAligned s (λ r. current_seq_len (s r)) (rebuild_metadata s (record b { reqs = reqs }))
      × HasOutputs out (rebuild_metadata s (record b { reqs = reqs }))
unfolding rebuild_metadata
rebuild_reqs s out b [] removed o =
    (refl, record { pool = refl; lens = refl; lens_cpu = refl }, inl refl)
rebuild_reqs s out b (r ∷ reqs) removed (inl n) =
    (refl, record { pool = refl; lens = refl; lens_cpu = refl }, inl (rw n refl))
rebuild_reqs s out b (r ∷ reqs) removed (inr n) = (
  refl,
  record { pool = refl; lens = refl; lens_cpu = refl },
  inr (rw n (ap some (take-map out (r ∷ reqs) removed))),
)

-- If the output ids are None, or one for each request of the batch and then for those removed from
-- its end, then after `_rebuild_running_batch_metadata` every request of the batch has its own pool
-- row, the length that it says it has, and its own output id where there were any.
pub rebuild_metadata-IsAligned :
    (s : Store) (out : ℕ → ℤ) (b : ScheduledBatch) (removed : List ℕ)
    → (b.output_ids ≡ none) ⊎ (b.output_ids ≡ some (map out (b.reqs ++ removed)))
    → ((rebuild_metadata s b).reqs ≡ b.reqs)
      × IsAligned s (λ r. current_seq_len (s r)) (rebuild_metadata s b)
      × HasOutputs out (rebuild_metadata s b)
rebuild_metadata-IsAligned s out b removed o = rebuild_reqs s out b b.reqs removed o
