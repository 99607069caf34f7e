-- ===== src/Engine/Placeholders.antt =====
-- The output ids of the running batch after `_propagate_future_to_running_batch` of
-- miniinfer/engine/llm_engine.py.
use mathlib.Core.Path.{ap₂}
use mini_infer.Prelude.{
  ℕ, zero, suc, ◌+◌, ◌≡◌, ◌⊎◌, ◌<◌, inl, inr, refl, sym, ap, ◌∙◌, Bool, true, false, not, ◌&&◌,
  Option, none, some, List, [], ◌∷◌, map, length, get_elem?, drop, drop_all, leb, ◌==◌,
  if◌then◌else◌, ℕ_discrete, arith, Bool-cases, Option-cases, if_of_true, if_of_false, Result, ok,
  ◌>>=◌, ==_iff,
}
use mini_infer.Prelude.Int.{ℤ}
use mini_infer.Scheduler.Batch.{ScheduledBatch}
use mini_infer.Scheduler.Queues.Release.{is_in}
use mini_infer.Engine.Propagate.{
  index_of, can_source, in_order, entry, merge, old_length, or_empty, with_ids, propagate_from,
  propagate_future,
}

-- The position of a request is its place in the list.
get_elem?-index_of :
    (r : ℕ) (reqs : List ℕ) (k : ℕ) → index_of r reqs ≡ some k → get_elem? reqs k ≡ some r
unfolding index_of
get_elem?-index_of r [] k e = cc
get_elem?-index_of r (q ∷ reqs) k e = elim (Option-cases (index_of r reqs)) [
  | inl n ↦ ground (arith, e, n)
  | inr (m, s) ↦ ground (arith, e, s, get_elem?-index_of r reqs m s)
]

is_in-index_of :
    (r : ℕ) (reqs : List ℕ)
    → ((index_of r reqs ≡ none) × (is_in r reqs ≡ false))
      ⊎ ((k : ℕ) × (index_of r reqs ≡ some k) × (is_in r reqs ≡ true))
unfolding index_of
is_in-index_of r [] = inl (refl, refl)
is_in-index_of r (q ∷ reqs) = elim (is_in-index_of r reqs) [
  | inr (k, e, i) ↦ inr (suc k, ground (arith, e), ground (arith, i))
  | inl (n, i) ↦ elim (ℕ_discrete q r) [
    | yes s ↦ inr (0, ground (arith, n, s), ground (arith, s))
    | no s ↦ inl (ground (arith, n, s), ground (arith, i, s))
  ]
]

get_elem?-map {ℓ κ} :
    {A : Type ℓ} {B : Type κ} (f : A → B) (xs : List A) (k : ℕ) {x : A}
    → get_elem? xs k ≡ some x
    → get_elem? (map f xs) k ≡ some (f x)
get_elem?-map f [] k e = cc
get_elem?-map f (y ∷ xs) zero e = cc
get_elem?-map f (y ∷ xs) (suc k) e = get_elem?-map f xs k e

-- What each request has afterwards.
abbrev pub propagated : (ℕ → ℤ) → (ℕ → ℤ) → List ℕ → ℕ → ℤ
propagated out old batch_reqs r = if is_in r batch_reqs then out r else old r

some_lt {ℓ} : {A : Type ℓ} (xs : List A) (i : ℕ) {x : A} → get_elem? xs i ≡ some x → i < length xs
some_lt [] i e = cc
some_lt (y ∷ xs) zero e = omega arith
some_lt (y ∷ xs) (suc i) e = omega (arith, some_lt xs i e)

sourced :
    (olds : Option (List ℤ)) (i : ℕ) (idx : List (Option ℕ)) {x : ℤ}
    → get_elem? (or_empty olds) i ≡ some x
    → can_source (old_length olds) (suc i) idx ≡ true
    → can_source (old_length olds) i (none ∷ idx) ≡ true
unfolding can_source
sourced none i idx e h = cc
sourced (some xs) i idx e h =
    let l = some_lt xs i e in
    let f : leb (length xs) i ≡ false = ground (arith, l) in if_of_false _ _ f ∙ h

found_at : (xs : List ℤ) (i : ℕ) {x : ℤ} → get_elem? xs i ≡ some x → entry xs i ≡ ok x
found_at xs i h = rw (h, entry) refl

merge-some :
    (output_ids old : List ℤ) (i k : ℕ) (idx : List (Option ℕ)) {x : ℤ} {xs : List ℤ}
    → get_elem? output_ids k ≡ some x
    → merge output_ids old (suc i) idx ≡ ok xs
    → merge output_ids old i (some k ∷ idx) ≡ ok (x ∷ xs)
unfolding merge
merge-some output_ids old i k idx {x} {xs} h e =
    ap (λ (z : Result ℤ). z >>= (λ y. merge output_ids old (suc i) idx >>= (λ ys. ok (y ∷ ys))))
      (found_at output_ids k h)
    ∙ ap (λ (z : Result (List ℤ)). z >>= (λ ys. ok (x ∷ ys))) e

merge-none :
    (output_ids old : List ℤ) (i : ℕ) (idx : List (Option ℕ)) {x : ℤ} {xs : List ℤ}
    → get_elem? old i ≡ some x
    → merge output_ids old (suc i) idx ≡ ok xs
    → merge output_ids old i (none ∷ idx) ≡ ok (x ∷ xs)
unfolding merge
merge-none output_ids old i idx {x} {xs} h k =
    let found : entry old i ≡ ok x = found_at old i h in
    ap (λ (z : Result ℤ). z >>= (λ y. merge output_ids old (suc i) idx >>= (λ ys. ok (y ∷ ys))))
      found
    ∙ ap (λ (z : Result (List ℤ)). z >>= (λ ys. ok (x ∷ ys))) k

both_true : (a b : Bool) → (a && b) ≡ true → (a ≡ true) × (b ≡ true)
both_true true b h = (refl, h)
both_true false b h = cc

drop-get_elem? {ℓ} :
    {A : Type ℓ} (xs : List A) (i : ℕ) {x : A}
    → get_elem? xs i ≡ some x
    → drop i xs ≡ x ∷ drop (suc i) xs
drop-get_elem? [] i e = cc
drop-get_elem? (y ∷ xs) zero e = cc
drop-get_elem? (y ∷ xs) (suc i) e = drop-get_elem? xs i e

module _ (out old : ℕ → ℤ) (batch_reqs : List ℕ) where
  abbrev idx_of : List ℕ → List (Option ℕ)
  idx_of = map (λ r. index_of r batch_reqs)

  -- The old ids are those of the first requests; each of the others is in the batch.
  abbrev Covered : List ℤ → ℕ → List ℕ → Type 0
  Covered olds i reqs =
      (k r : ℕ)
      → get_elem? reqs k ≡ some r
      → (is_in r batch_reqs ≡ true) ⊎ (get_elem? olds (i + k) ≡ some (old r))

  merge-propagated :
      (olds : List ℤ) (i : ℕ) (reqs : List ℕ)
      → Covered olds i reqs
      → merge (map out batch_reqs) olds i (idx_of reqs)
        ≡ ok (map (propagated out old batch_reqs) reqs)
  unfolding merge
  merge-propagated olds i [] h = refl
  merge-propagated olds i (r ∷ reqs) h =
      let ih = merge-propagated olds (suc i) reqs (λ k q e. elim (h (suc k) q e) [
        | inl m ↦ inl m
        | inr m ↦ inr (ap (get_elem? olds) (omega arith) ∙ m)
      ]) in
      elim (is_in-index_of r batch_reqs) [
        | inr (k, e, m) ↦
            let got = get_elem?-map out batch_reqs k (get_elem?-index_of r batch_reqs k e) in
            rw (e, m) (merge-some (map out batch_reqs) olds i k (idx_of reqs) got ih)
        | inl (e, m) ↦ elim (h 0 r refl) [
          | inl n ↦ absurd (cc)
          | inr s ↦
              let here : get_elem? olds i ≡ some (old r) = ap (get_elem? olds) (omega arith) ∙ s in
              rw (e, m) (merge-none (map out batch_reqs) olds i (idx_of reqs) here ih)
        ]
      ]

  -- Where the old ids are None, every request is in the batch.
  can_source-Covered :
      (olds : Option (List ℤ)) (i : ℕ) (reqs : List ℕ)
      → Covered (or_empty olds) i reqs
      → can_source (old_length olds) i (idx_of reqs) ≡ true
  unfolding can_source
  can_source-Covered olds i [] h = refl
  can_source-Covered olds i (r ∷ reqs) h =
      let ih = can_source-Covered olds (suc i) reqs (λ k q e. elim (h (suc k) q e) [
        | inl m ↦ inl m
        | inr m ↦ inr (ap (get_elem? (or_empty olds)) (omega arith) ∙ m)
      ]) in
      elim (is_in-index_of r batch_reqs) [
        | inr (k, e, m) ↦ rw e ih
        | inl (e, m) ↦ elim (h 0 r refl) [
          | inl n ↦ absurd (cc)
          | inr s ↦ rw e (sourced olds i _ (ap (get_elem? (or_empty olds)) (omega arith) ∙ s) ih)
        ]
      ]

  in_order-propagated :
      (i : ℕ) (reqs : List ℕ)
      → in_order i (idx_of reqs) ≡ true
      → i + length reqs ≡ length batch_reqs
      → map out (drop i batch_reqs) ≡ map (propagated out old batch_reqs) reqs
  unfolding in_order
  in_order-propagated i [] h l = ap (map out) (drop_all i batch_reqs (omega (arith, l)))
  in_order-propagated i (r ∷ reqs) h l = elim (is_in-index_of r batch_reqs) [
    | inl (e, m) ↦
        let bad : false ≡ true = ap (λ (o : Option ℕ). in_order i (o ∷ idx_of reqs)) (sym e) ∙ h in
        absurd (cc)
    | inr (k, e, m) ↦
        let parts =
          both_true (k == i) (in_order (suc i) (idx_of reqs))
            (ap (λ (o : Option ℕ). in_order i (o ∷ idx_of reqs)) (sym e) ∙ h) in
        let at : get_elem? batch_reqs i ≡ some r =
          ap (get_elem? batch_reqs) (sym ((==_iff k i).0 parts.0))
          ∙ get_elem?-index_of r batch_reqs k e in
        ap (map out) (drop-get_elem? batch_reqs i at)
        ∙ ap₂ ◌∷◌ (sym (if_of_true _ _ m))
            (in_order-propagated (suc i) reqs parts.1 (omega (arith, l)))
  ]

-- What `_propagate_future_to_running_batch` needs: the batch has an output id for each request, and
-- each request of the running batch is in the batch or has an old output id at its place.
abbrev pub Sourced : (ℕ → ℤ) → (ℕ → ℤ) → ScheduledBatch → ScheduledBatch → Type 0
Sourced out old batch running =
    (batch.output_ids ≡ some (map out batch.reqs))
    × ((k r : ℕ)
        → get_elem? running.reqs k ≡ some r
        → (is_in r batch.reqs ≡ true)
          ⊎ (get_elem? (or_empty running.output_ids) (0 + k) ≡ some (old r)))

propagate_reqs :
    (out old : ℕ → ℤ) (reqs : List ℕ) (batch running : ScheduledBatch)
    → Sourced out old batch (record running { reqs = reqs })
    → 0 < length reqs
    → propagate_future batch (record running { reqs = reqs })
      ≡ ok (record running {
        reqs = reqs;
        output_ids = some (map (propagated out old batch.reqs) reqs);
      })
unfolding propagate_future
propagate_reqs out old [] batch running s n = absurd (omega (arith, n))
propagate_reqs out old (r ∷ reqs) batch running s n =
    let b = record running { reqs = r ∷ reqs } in
    let ids = map out batch.reqs in
    let idx = map (λ q. index_of q batch.reqs) (r ∷ reqs) in
    let first = ap (λ (o : Option (List ℤ)). propagate_from o batch.reqs (r ∷ reqs) b) s.0 in
    let can = can_source-Covered out old batch.reqs running.output_ids 0 (r ∷ reqs) s.1 in
    let merged =
      merge-propagated out old batch.reqs (or_empty running.output_ids) 0 (r ∷ reqs) s.1 in
    first
    ∙ if_of_false _ _ (ap not can)
    ∙ elim (Bool-cases (length (r ∷ reqs) == length batch.reqs && in_order 0 idx)) [
      | inl e ↦
          let parts = both_true (length (r ∷ reqs) == length batch.reqs) (in_order 0 idx) e in
          if_of_true _ _ e
          ∙ ap (λ (l : List ℤ). ok (with_ids (some l) b))
              (in_order-propagated out old batch.reqs 0 (r ∷ reqs) parts.1
                (omega (arith, (==_iff (length (r ∷ reqs)) (length batch.reqs)).0 parts.0)))
      | inr e ↦
          if_of_false _ _ e
          ∙ ap (λ (z : Result (List ℤ)). z >>= (λ l. ok (with_ids (some l) b))) merged
    ]

-- If the batch has an output id for each of its requests, and each request of the running batch, of
-- which there are some, is in the batch or has an old output id at its place, then
-- `_propagate_future_to_running_batch` raises nothing and leaves the running batch with an output id
-- for each request, on its fast path too: that of the batch if the request is in it, else its own
-- old one.
pub propagate_future-outputs :
    (out old : ℕ → ℤ) (batch running : ScheduledBatch)
    → Sourced out old batch running
    → 0 < length running.reqs
    → propagate_future batch running
      ≡ ok (record running { output_ids = some (map (propagated out old batch.reqs) running.reqs) })
propagate_future-outputs out old batch running s n =
    propagate_reqs out old running.reqs batch running s n
