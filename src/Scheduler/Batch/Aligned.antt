-- ===== src/Scheduler/Batch/Aligned.antt =====
-- The metadata of the running batch against its requests: `_filter_batch`,
-- `_append_running_batch_metadata` and `_rebuild_running_batch_metadata` of scheduler.py.
use mathlib.Core.List.{append-nil}
use mini_infer.Prelude.{
  ℕ, zero, suc, ◌≡◌, ◌⊎◌, inl, inr, refl, sym, ap, ◌∙◌, ◌≤◌, Bool, not, Option, none, some, List,
  [], ◌∷◌, ◌++◌, map, length, drop, get_elem?, filter, ◌==◌, arith, Bool-cases, if_of_true,
  if_of_false, Result, ok,
}
use mini_infer.Prelude.Int.{ℤ}
use mini_infer.Scheduler.Batch.{
  Store, ScheduledBatch, gather, keep_from, no_metadata, filter_metadata, filter_kept, filter_batch,
  pool_of,
}

-- A tensor with one entry for each request; None where there is no request.
abbrev pub held {ℓ} : {A : Type ℓ} → List ℕ → (ℕ → A) → Option (List A)
held [] f = none
held (r ∷ reqs) f = some (map f (r ∷ reqs))

-- Each request has its row of the pool, and its length `len` twice.
pub record IsAligned (s : Store) (len : ℕ → ℕ) (b : ScheduledBatch) : Type 0 where
  pub pool : b.req_pool_indices ≡ held b.reqs (λ r. (s r).req_pool_idx)
  pub lens : b.seq_lens ≡ held b.reqs len
  pub lens_cpu : b.seq_lens_cpu ≡ held b.reqs len

-- There are no output ids, or one for each request.
abbrev pub HasOutputs : (ℕ → ℤ) → ScheduledBatch → Type 0
HasOutputs out b = (b.output_ids ≡ none) ⊎ (b.output_ids ≡ held b.reqs out)

drop-step {ℓ} :
    {A : Type ℓ} (i : ℕ) (xs : List A) {x : A} {rest : List A}
    → drop i xs ≡ x ∷ rest
    → (get_elem? xs i ≡ some x) × (drop (suc i) xs ≡ rest)
drop-step zero [] h = cc
drop-step zero (y ∷ ys) h = (cc, cc)
drop-step (suc i) [] h = cc
drop-step (suc i) (y ∷ ys) h = drop-step i ys h

-- Gathering at the positions kept is the map over what is kept.
pub gather-keep_from {ℓ} :
    {A : Type ℓ} (f : ℕ → A) (out : ℕ → Bool) (i : ℕ) (reqs : List ℕ) (whole more : List A)
    → drop i whole ≡ map f reqs ++ more
    → gather whole (keep_from out i reqs).0 ≡ ok (map f (keep_from out i reqs).1)
gather-keep_from f out i [] whole more h = refl
gather-keep_from f out i (r ∷ reqs) whole more h =
    let step = drop-step i whole h in
    let ih = gather-keep_from f out (suc i) reqs whole more step.1 in
    elim (Bool-cases (out r)) [ inl e ↦ rw e ih | inr e ↦ rw e (ground (arith, step.0, ih)) ]

pub keep_from-filter :
    (out : ℕ → Bool) (i : ℕ) (reqs : List ℕ)
    → (keep_from out i reqs).1 ≡ filter (λ r. not (out r)) reqs
keep_from-filter out i [] = refl
keep_from-filter out i (r ∷ reqs) = elim (Bool-cases (out r)) [
  | inl e ↦ rw e (keep_from-filter out (suc i) reqs)
  | inr e ↦ rw e (ap (◌∷◌ r) (keep_from-filter out (suc i) reqs))
]

pub length-keep_from :
    (out : ℕ → Bool) (i : ℕ) (reqs : List ℕ)
    → (length (keep_from out i reqs).0 ≡ length (keep_from out i reqs).1)
      × (length (keep_from out i reqs).1 ≤ length reqs)
length-keep_from out i [] = (refl, omega arith)
length-keep_from out i (r ∷ reqs) = ground (arith, length-keep_from out (suc i) reqs)

-- Where as many are kept as there are, all are.
all_kept :
    (out : ℕ → Bool) (i : ℕ) (reqs : List ℕ)
    → length (keep_from out i reqs).0 ≡ length reqs
    → (keep_from out i reqs).1 ≡ reqs
all_kept out i [] h = refl
all_kept out i (r ∷ reqs) h =
    ground (arith, length-keep_from out (suc i) reqs, all_kept out (suc i) reqs)

gather-map {ℓ} :
    {A : Type ℓ} (f : ℕ → A) (out : ℕ → Bool) (reqs : List ℕ)
    → gather (map f reqs) (keep_from out 0 reqs).0 ≡ ok (map f (keep_from out 0 reqs).1)
gather-map f out reqs =
    gather-keep_from f out 0 reqs (map f reqs) [] (sym (append-nil (map f reqs)))

-- Where there are requests before and after, the metadata is gathered.
gathered :
    (s : Store) (len : ℕ → ℕ) (out : ℕ → ℤ) (drops : ℕ → Bool) (reqs : List ℕ) (b : ScheduledBatch)
    (r : ℕ) (kept : List ℕ)
    → (keep_from drops 0 reqs).1 ≡ r ∷ kept
    → b.req_pool_indices ≡ some (map (λ r. (s r).req_pool_idx) reqs)
    → b.seq_lens ≡ some (map len reqs)
    → b.seq_lens_cpu ≡ some (map len reqs)
    → (b.output_ids ≡ none) ⊎ (b.output_ids ≡ some (map out reqs))
    → b.reqs ≡ r ∷ kept
    → (b' : ScheduledBatch) × (filter_metadata (keep_from drops 0 reqs).0 b ≡ ok b')
      × (b'.reqs ≡ b.reqs)
      × IsAligned s len b'
      × HasOutputs out b'
gathered s len out drops reqs b r kept k pool lens cpu (inl o) e =
    let p = gather-map (λ r. (s r).req_pool_idx) drops reqs in
    let l = gather-map len drops reqs in
    (
      record b {
        req_pool_indices = some (pool_of s (r ∷ kept));
        seq_lens = some (map len (r ∷ kept));
        seq_lens_cpu = some (map len (r ∷ kept));
        output_ids = none;
      },
      rw (pool, p, lens, cpu, l, o, k) refl,
      refl,
      record { pool = rw e refl; lens = rw e refl; lens_cpu = rw e refl },
      inl refl,
    )
gathered s len out drops reqs b r kept k pool lens cpu (inr o) e =
    let p = gather-map (λ r. (s r).req_pool_idx) drops reqs in
    let l = gather-map len drops reqs in
    let g = gather-map out drops reqs in
    (
      record b {
        req_pool_indices = some (pool_of s (r ∷ kept));
        seq_lens = some (map len (r ∷ kept));
        seq_lens_cpu = some (map len (r ∷ kept));
        output_ids = some (map out (r ∷ kept));
      },
      rw (pool, p, lens, cpu, l, o, g, k) refl,
      refl,
      record { pool = rw e refl; lens = rw e refl; lens_cpu = rw e refl },
      inr (rw e refl),
    )

-- Of a batch that has requests, what the tensors are.
held-some {ℓ} :
    {A : Type ℓ} (f : ℕ → A) (reqs : List ℕ) {n : ℕ}
    → suc n ≤ length reqs
    → held reqs f ≡ some (map f reqs)
held-some f [] h = absurd (omega arith)
held-some f (r ∷ reqs) h = refl

abbrev Filtered : Store → (ℕ → ℕ) → (ℕ → ℤ) → List ℕ → Result ScheduledBatch → Type 0
Filtered s len out reqs result =
    (b : ScheduledBatch) × (result ≡ ok b)
    × (b.reqs ≡ filter (λ r. not (s r).finished) reqs)
    × IsAligned s len b
    × HasOutputs out b

filter_kept-some :
    (indices : List ℕ) (pool : Option (List (Option ℕ))) (b : ScheduledBatch) {i : ℕ} {is : List ℕ}
    {xs : List (Option ℕ)}
    → indices ≡ i ∷ is
    → pool ≡ some xs
    → filter_kept indices pool b ≡ filter_metadata indices b
filter_kept-some [] pool b e p = cc
filter_kept-some (i ∷ is) none b e p = cc
filter_kept-some (i ∷ is) (some xs) b e p = refl

some_kept :
    (s : Store) (len : ℕ → ℕ) (out : ℕ → ℤ) (b : ScheduledBatch) (i : ℕ) (is : List ℕ) (r : ℕ)
    (kept : List ℕ)
    → IsAligned s len b
    → HasOutputs out b
    → (keep_from (λ r. (s r).finished) 0 b.reqs).0 ≡ i ∷ is
    → (keep_from (λ r. (s r).finished) 0 b.reqs).1 ≡ r ∷ kept
    → Filtered s len out b.reqs (
        filter_kept
          (keep_from (λ r. (s r).finished) 0 b.reqs).0
          b.req_pool_indices
          (record b { reqs = (keep_from (λ r. (s r).finished) 0 b.reqs).1 }))
some_kept s len out b i is r kept a o e k =
    let drops = λ (r : ℕ). (s r).finished in
    let m : suc (length kept) ≤ length b.reqs =
      omega (arith, (length-keep_from drops 0 b.reqs).1, ap length k) in
    let pool = a.pool ∙ held-some (λ r. (s r).req_pool_idx) b.reqs m in
    let (b', run, same, aligned, outs) =
      gathered s len out drops b.reqs (record b { reqs = (keep_from drops 0 b.reqs).1 }) r kept k
        pool (a.lens ∙ held-some len b.reqs m) (a.lens_cpu ∙ held-some len b.reqs m)
        (elim o [ inl n ↦ inl n | inr s ↦ inr (s ∙ held-some out b.reqs m) ]) k in
    (
      b',
      filter_kept-some (keep_from drops 0 b.reqs).0 b.req_pool_indices
            (record b { reqs = (keep_from drops 0 b.reqs).1 }) e pool
          ∙ run,
      same ∙ keep_from-filter drops 0 b.reqs,
      aligned,
      outs,
    )

-- By what is kept: nothing, or something.
by_kept :
    (s : Store) (len : ℕ → ℕ) (out : ℕ → ℤ) (b : ScheduledBatch) (kept : List ℕ × List ℕ)
    → kept ≡ keep_from (λ r. (s r).finished) 0 b.reqs
    → IsAligned s len b
    → HasOutputs out b
    → Filtered s len out b.reqs (
        filter_kept
          (keep_from (λ r. (s r).finished) 0 b.reqs).0
          b.req_pool_indices
          (record b { reqs = (keep_from (λ r. (s r).finished) 0 b.reqs).1 }))
by_kept s len out b ([], []) e a o =
    let drops = λ (r : ℕ). (s r).finished in
    (
      no_metadata (record b { reqs = [] }),
      rw (sym e) refl,
      ap (λ (k : List ℕ × List ℕ). k.1) e ∙ keep_from-filter drops 0 b.reqs,
      record { pool = refl; lens = refl; lens_cpu = refl },
      inl refl,
    )
by_kept s len out b (i ∷ is, r ∷ kept) e a o =
    some_kept s len out b i is r kept a o (sym (ap (λ (k : List ℕ × List ℕ). k.0) e))
      (sym (ap (λ (k : List ℕ × List ℕ). k.1) e))
by_kept s len out b ([], r ∷ kept) e a o = absurd (
    omega (
      arith,
      (length-keep_from (λ r. (s r).finished) 0 b.reqs).0,
      ap (λ (k : List ℕ × List ℕ). length k.0) e,
      ap (λ (k : List ℕ × List ℕ). length k.1) e,
    ))
by_kept s len out b (i ∷ is, []) e a o = absurd (
    omega (
      arith,
      (length-keep_from (λ r. (s r).finished) 0 b.reqs).0,
      ap (λ (k : List ℕ × List ℕ). length k.0) e,
      ap (λ (k : List ℕ × List ℕ). length k.1) e,
    ))

-- If each request of the running batch has its pool row and its length in the metadata, and its
-- output id where there are any, then `_filter_batch` raises nothing, keeps the requests that are
-- not finished, in order, and leaves each of them its own row, length and output id; a batch with
-- no request left has no metadata.
pub filter_batch-IsAligned :
    (s : Store) (len : ℕ → ℕ) (out : ℕ → ℤ) (b : ScheduledBatch)
    → IsAligned s len b
    → HasOutputs out b
    → (b' : ScheduledBatch) × (filter_batch s b ≡ ok b')
      × (b'.reqs ≡ filter (λ r. not (s r).finished) b.reqs)
      × IsAligned s len b'
      × HasOutputs out b'
unfolding filter_batch
filter_batch-IsAligned s len out b a o =
    let drops = λ (r : ℕ). (s r).finished in
    elim (Bool-cases (length (keep_from drops 0 b.reqs).0 == length b.reqs)) [
      | inl e ↦
          let same = all_kept drops 0 b.reqs (ground (arith, e)) in
          (
            record b { reqs = (keep_from drops 0 b.reqs).1 },
            if_of_true _ _ e,
            keep_from-filter drops 0 b.reqs,
            record { pool = rw same a.pool; lens = rw same a.lens; lens_cpu = rw same a.lens_cpu },
            rw same o,
          )
      | inr e ↦
          let (b', run, same, aligned, outs) =
            by_kept s len out b (keep_from drops 0 b.reqs) refl a o in
          (b', if_of_false _ _ e ∙ run, same, aligned, outs)
    ]
