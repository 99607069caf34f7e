-- ===== src/Scheduler/Queues/Counters.antt =====
-- The counters of `_get_decode_batch` of miniinfer/scheduler/scheduler.py, and the ratio that they
-- steer.
use mini_infer.Prelude.{
  ℕ, zero, suc, ◌+◌, ◌%◌, ◌≡◌, ◌<◌, inl, inr, refl, sym, ap, ◌∙◌, Bool, true, false, List, [], ◌∷◌,
  length, leb, ltb, ◌==◌, if◌then◌else◌, arith, ok, >>=-eq-ok, Bool-cases, if_of_true, if_of_false,
  subst, ok-injective,
}
use mini_infer.Prelude.Int.{ℤ, pos, leb_ℤ}
use mini_infer.Scheduler.Queues.{IKvCacheManager, Scheduler}
use mini_infer.Scheduler.Queues.Decode.{
  retract_threshold, needed_tokens, pop, retract_one, with_reqs, remaining_needed, retract_loop,
  after_retract, count_retract, prepare_decode, check_decode_mem, get_decode_batch,
}

-- The ratio after some decode rounds, told by which of them retracted, the last round first: it
-- grows in each retracting round but the first of a row of such, and it falls at each fifth
-- round without one.
unfoldable pub row_of : Bool → List Bool → ℕ
row_of b [] = 0
row_of true (true ∷ rounds) = row_of true rounds + 1
row_of true (false ∷ rounds) = 0
row_of false (false ∷ rounds) = row_of false rounds + 1
row_of false (true ∷ rounds) = 0

unfoldable pub ratio_after {ℓ} : {R : Type ℓ} → (R → R) → (R → R) → R → List Bool → R
unfolding row_of
ratio_after grow decay r [] = r
ratio_after grow decay r (true ∷ rounds) =
    let before = ratio_after grow decay r rounds in
    if ltb 0 (row_of true rounds) then grow before else before
ratio_after grow decay r (false ∷ rounds) =
    let before = ratio_after grow decay r rounds in
    if row_of false rounds % 5 == 4 then decay before else before

leb-ltb : (n : ℕ) → leb retract_threshold (n + 1) ≡ ltb 0 n
leb-ltb n = ground arith

leb_mod : (n : ℕ) → leb 5 (n % 5 + 1) ≡ (n % 5 == 4)
leb_mod n = let h : n % 5 < 5 = omega arith in ground (arith, h)

next_mod : (n : ℕ) → (if leb 5 (n % 5 + 1) then 0 else n % 5 + 1) ≡ (n + 1) % 5
next_mod n = let h : n % 5 < 5 = omega arith in ground (arith, h)

module _ {K R : Type 0} where
  -- The state after the rounds, from the ratio `r`.
  pub record Tracks (grow decay : R → R) (r : R) (rounds : List Bool) (s : Scheduler K R)
      : Type 0 where
    pub ratio : s.new_token_ratio ≡ ratio_after grow decay r rounds
    pub retracts : s.num_continuous_retract ≡ row_of true rounds
    pub oks : s.num_continuous_decode_ok ≡ row_of false rounds % 5

  abbrev Same : Scheduler K R → Scheduler K R → Type 0
  Same s s' =
      (s'.new_token_ratio ≡ s.new_token_ratio)
      × (s'.num_continuous_retract ≡ s.num_continuous_retract)
      × (s'.num_continuous_decode_ok ≡ s.num_continuous_decode_ok)

  Tracks-Same :
      (grow decay : R → R) (r : R) (rounds : List Bool) (s s' : Scheduler K R)
      → Same s s'
      → Tracks grow decay r rounds s
      → Tracks grow decay r rounds s'
  Tracks-Same grow decay r rounds s s' h t = record {
    ratio = h.0 ∙ t.ratio;
    retracts = h.1 ∙ t.retracts;
    oks = h.2 ∙ t.oks;
  }

  Same-ok : (s : Scheduler K R) {s₁ s' : Scheduler K R} → Same s s₁ → ok s₁ ≡ ok s' → Same s s'
  Same-ok s h e = subst (Same s) (ok-injective e) h

  Same-trans : (s t u : Scheduler K R) → Same s t → Same t u → Same s u
  Same-trans s t u h k = (k.0 ∙ h.0, k.1 ∙ h.1, k.2 ∙ h.2)

  module _ (kv : IKvCacheManager K) where
    retract_one-Same : (req : ℕ) (s s' : Scheduler K R) → retract_one kv req s ≡ ok s' → Same s s'
    unfolding retract_one
    retract_one-Same req s s' e =
        let (k, p, q) = >>=-eq-ok (kv.release_request true (s.store req) s.kv_cache_mgr) _ e in
        Same-ok s (refl, refl, refl) q

    retract_loop-Same :
        (fuel n : ℕ) (available : ℤ) (reqs : List ℕ) (s : Scheduler K R) (m : ℕ)
        (s' : Scheduler K R)
        → retract_loop kv fuel n available (with_reqs kv reqs s) ≡ ok (m, s')
        → Same s s'
    unfolding retract_loop
    retract_loop-Same zero n available reqs s m s' e =
        subst (λ (x : ℕ × Scheduler K R). Same s x.1) (ok-injective e) (refl, refl, refl)
    retract_loop-Same (suc fuel) n available [] s m s' e =
        subst (λ (x : ℕ × Scheduler K R). Same s x.1) (ok-injective e) (refl, refl, refl)
    retract_loop-Same (suc fuel) n available (r ∷ reqs) s m s' e =
        let s₀ = with_reqs kv (r ∷ reqs) s in
        let s₁ = with_reqs kv (pop r reqs).1 s in
        elim (Bool-cases (leb_ℤ (pos (remaining_needed kv s₀)) available)) [
          | inl t ↦
              subst (λ (x : ℕ × Scheduler K R). Same s x.1)
                (ok-injective (sym (if_of_true _ _ t) ∙ e)) (refl, refl, refl)
          | inr f ↦
              let (s₂, p, q) =
                >>=-eq-ok (retract_one kv (pop r reqs).0 s₁) _ (sym (if_of_false _ _ f) ∙ e) in
              Same-trans s s₂ s' (retract_one-Same (pop r reqs).0 s₁ s₂ p) (
                retract_loop-Same fuel (n + 1) (kv.available_tokens s₂.kv_cache_mgr)
                  s₂.running_batch.reqs s₂ m s' q)
        ]

    after_retract-Same :
        (s : Scheduler K R) (x : ℕ × Scheduler K R) → Same s x.1 → Same s (after_retract kv x).1
    after_retract-Same s (zero, s') h = h
    after_retract-Same s (suc n, s') h = h

    check_decode_mem-Same :
        (reqs : List ℕ) (s : Scheduler K R) (b : Bool) (s' : Scheduler K R)
        → check_decode_mem kv (with_reqs kv reqs s) ≡ ok (b, s')
        → Same s s'
    unfolding check_decode_mem
    check_decode_mem-Same [] s b s' e =
        subst (λ (x : Bool × Scheduler K R). Same s x.1) (ok-injective e) (refl, refl, refl)
    check_decode_mem-Same (r ∷ reqs) s b s' e =
        let bs = length (r ∷ reqs) in
        let available = kv.available_tokens s.kv_cache_mgr in
        elim (Bool-cases
          (leb_ℤ (pos (needed_tokens s.page_size s.running_batch.seq_lens_cpu bs)) available)) [
            | inl t ↦
                subst (λ (x : Bool × Scheduler K R). Same s x.1)
                  (ok-injective (sym (if_of_true _ _ t) ∙ e)) (refl, refl, refl)
            | inr f ↦
                let (x, p, q) =
                  >>=-eq-ok (retract_loop kv bs 0 available (with_reqs kv (r ∷ reqs) s)) _
                    (sym (if_of_false _ _ f) ∙ e) in
                subst (λ (y : Bool × Scheduler K R). Same s y.1) (ok-injective q)
                  (after_retract-Same s x (retract_loop-Same bs 0 available (r ∷ reqs) s x.0 x.1 p))
          ]

    prepare_decode-Same :
        (skip : Bool) (reqs : List ℕ) (s : Scheduler K R) (b : Bool) (s' : Scheduler K R)
        → prepare_decode kv skip (with_reqs kv reqs s) ≡ ok (b, s')
        → Same s s'
    unfolding prepare_decode
    prepare_decode-Same skip [] s b s' e =
        subst (λ (x : Bool × Scheduler K R). Same s x.1) (ok-injective e) (refl, refl, refl)
    prepare_decode-Same skip (r ∷ reqs) s b s' e =
        let s₀ = with_reqs kv (r ∷ reqs) s in
        let (x, p, q) =
          >>=-eq-ok (kv.prepare_for_decode skip s.store s₀.running_batch s.kv_cache_mgr) _ e in
        subst (λ (y : Bool × Scheduler K R). Same s y.1) (ok-injective q) (refl, refl, refl)

    -- One round told, on the state's counters.
    count_retract-Tracks :
        (grow decay : R → R) (r : R) (rounds : List Bool) (b : Bool) (s : Scheduler K R)
        → Tracks grow decay r rounds s
        → Tracks grow decay r (b ∷ rounds) (count_retract kv grow decay b s)
    unfolding ratio_after row_of
    count_retract-Tracks grow decay r rounds true s t = record {
      ratio =
          rw (t.ratio, t.retracts)
            (ap
              (λ (b : Bool).
                if b
                then grow (ratio_after grow decay r rounds)
                else ratio_after grow decay r rounds)
              (leb-ltb (row_of true rounds)));
      retracts = ap (λ (n : ℕ). n + 1) t.retracts;
      oks = refl;
    }
    count_retract-Tracks grow decay r rounds false s t = record {
      ratio =
          rw (t.ratio, t.oks)
            (ap
              (λ (b : Bool).
                if b
                then decay (ratio_after grow decay r rounds)
                else ratio_after grow decay r rounds)
              (leb_mod (row_of false rounds)));
      retracts = refl;
      oks = rw t.oks (next_mod (row_of false rounds));
    }

    decode_reqs :
        (grow decay : R → R) (r : R) (rounds : List Bool) (skip : Bool) (reqs : List ℕ)
        (s : Scheduler K R) (b : Bool) (s' : Scheduler K R)
        → 0 < length reqs
        → Tracks grow decay r rounds s
        → get_decode_batch kv grow decay skip (with_reqs kv reqs s) ≡ ok (b, s')
        → (retracted : Bool) × (s₁ : Scheduler K R) × (check_decode_mem kv (with_reqs kv reqs s)
            ≡ ok (retracted, s₁))
          × Tracks grow decay r (retracted ∷ rounds) s'
    unfolding get_decode_batch
    decode_reqs grow decay r rounds skip [] s b s' n t e = absurd (omega (arith, n))
    decode_reqs grow decay r rounds skip (q ∷ reqs) s b s' n t e =
        let (x, p, next) = >>=-eq-ok (check_decode_mem kv (with_reqs kv (q ∷ reqs) s)) _ e in
        let counted = count_retract kv grow decay x.0 x.1 in
        let checked =
          Tracks-Same grow decay r rounds s x.1 (check_decode_mem-Same (q ∷ reqs) s x.0 x.1 p) t in
        (
          x.0,
          x.1,
          p,
          Tracks-Same grow decay r (x.0 ∷ rounds) counted s'
              (prepare_decode-Same skip counted.running_batch.reqs counted b s' next)
              (count_retract-Tracks grow decay r rounds x.0 x.1 checked),
        )

    -- If the counters and the ratio are those after some rounds, and there are running requests,
    -- then a `_get_decode_batch` that raises nothing leaves those after one round more, which
    -- retracted exactly if `_check_decode_mem` returned True.
    pub get_decode_batch-Tracks :
        (grow decay : R → R) (r : R) (rounds : List Bool) (skip : Bool) (s : Scheduler K R)
        (b : Bool) (s' : Scheduler K R)
        → 0 < length s.running_batch.reqs
        → Tracks grow decay r rounds s
        → get_decode_batch kv grow decay skip s ≡ ok (b, s')
        → (retracted : Bool) × (s₁ : Scheduler K R) × (check_decode_mem kv s ≡ ok (retracted, s₁))
          × Tracks grow decay r (retracted ∷ rounds) s'
    get_decode_batch-Tracks grow decay r rounds skip s b s' n t e =
        decode_reqs grow decay r rounds skip s.running_batch.reqs s b s' n t e
