-- ===== src/Engine/Progress.antt =====
-- A request over several calls of `_process_step_result` of miniinfer/engine/llm_engine.py.
use mini_infer.Prelude.{
  ℕ, zero, suc, ◌+◌, ◌-◌, ◌≡◌, ◌⊎◌, ◌≤◌, inl, inr, refl, sym, ap, ◌∙◌, subst, Bool, true, false,
  Option, List, [], ◌∷◌, length, length-append, get_elem?, ◌==◌, Elem, Distinct, arith, Bool-cases,
  if_of_true, if_of_false, ok, ok-injective, ℕ_discrete,
}
use mini_infer.Scheduler.Req.{Req}
use mini_infer.Scheduler.Batch.{Store}
use mini_infer.Engine.{IChunkCache, IDetokenizer, Engine, RequestOutput, process_step_result}
use mini_infer.Engine.Visit.{stopped, token_of, gets, same_id, not_same}
use mini_infer.Engine.Visits.{entry_at}
use mini_infer.Engine.Outputs.{WithinMax, process_step_result-tokens}

-- A request of the batch that is not stopped gets one token.
length-gets :
    (s : Store) (tokens : List ℕ) (i : ℕ) (reqs : List ℕ) (j : ℕ)
    → i + length reqs ≤ length tokens
    → stopped (s j) ≡ false
    → Elem j reqs
    → length (gets s tokens i reqs j) ≡ 1
unfolding gets
length-gets s tokens i [] j h f m = absurd m
length-gets s tokens i (r ∷ reqs) j h f m = elim (ℕ_discrete r j) [
  | yes q ↦
      let (t, e) = entry_at tokens i (length reqs) h in
      let here : token_of (s r) (get_elem? tokens i) ≡ t ∷ [] =
        ap (token_of (s r)) e ∙ if_of_false _ _ (subst (λ k. stopped (s k) ≡ false) (sym q) f) in
      let test : (r == j) ≡ true = subst (λ k. (r == k) ≡ true) q (same_id r) in
      ap length (if_of_true _ _ test ∙ here)
  | no n ↦
      let later : Elem j reqs = elim m [ inl e ↦ absurd (n (sym e)) | inr k ↦ k ] in
      ap length (if_of_false _ _ (not_same r j n))
      ∙ length-gets s tokens (suc i) reqs j (omega (arith, h)) f later
]

-- Finished by now, or with a token for each call.
abbrev Gone : ℕ → Req → Req → Type 0
Gone n req req' =
    WithinMax req'
    × (req'.max_tokens ≡ req.max_tokens)
    × ((req'.finished ≡ true) ⊎ (length req'.output_ids ≡ length req.output_ids + n))

module _ {K R D : Type 0} (cache : IChunkCache K) (dt : IDetokenizer D)
    (ignore_eos : ℕ → Bool) where
  -- What happens between two calls leaves the request its outputs, its maximum and whether it is
  -- finished.
  pub record IsLeft (j : ℕ) (e e' : Engine K R D) : Type 0 where
    pub output : (e'.scheduler.store j).output_ids ≡ (e.scheduler.store j).output_ids
    pub most : (e'.scheduler.store j).max_tokens ≡ (e.scheduler.store j).max_tokens
    pub done : (e'.scheduler.store j).finished ≡ (e.scheduler.store j).finished

  -- So many calls with batches that the request stands in, not chunked and not retracted. The chunked
  -- requests of a batch are ready for the cache.
  pub data Served (Ready : Req → K → Type 0) (j : ℕ) (e : Engine K R D)
      : ℕ → Engine K R D → Type 0 where
    start : Served Ready j e zero e
    round :
        {n : ℕ} {e₁ : Engine K R D}
        → Served Ready j e n e₁
        → (e₂ e₃ : Engine K R D) → IsLeft j e₁ e₂
        → (reqs tokens : List ℕ) (outputs : List RequestOutput) → Distinct reqs
        → length reqs ≤ length tokens
        → ((i : ℕ)
            → Elem i reqs
            → (e₂.scheduler.store i).is_chunked ≡ true
            → Ready (e₂.scheduler.store i) e₂.scheduler.kv_cache_mgr)
        → Elem j reqs
        → (e₂.scheduler.store j).is_chunked ≡ false
        → (e₂.scheduler.store j).is_retracted ≡ false
        → process_step_result cache dt ignore_eos reqs tokens e₂ ≡ ok (outputs, e₃)
        → Served Ready j e (suc n) e₃

  module _ {Ready : Req → K → Type 0}
      (total : (req : Req) (k : K)
        → Ready req k
        → (u : Req × K) × (cache.update_unfinished_req_radix_cache req k ≡ ok u)
          × (u.0.output_ids ≡ req.output_ids)
          × (u.0.max_tokens ≡ req.max_tokens)
          × (u.0.finished ≡ req.finished)
          × ((q : Req) → Ready q k → Ready q (cache.free_row u.0.req_pool_idx u.1)))
      (decodes : (ids tokens : List ℕ) (eos_id : Option ℕ) (d : D)
        → length ids ≡ length tokens
        → length ids ≤ length (dt.decode_batch ids tokens eos_id d).0) where
    Served-Gone :
        {j : ℕ} {e : Engine K R D} {n : ℕ} {e' : Engine K R D}
        → WithinMax (e.scheduler.store j)
        → Served Ready j e n e'
        → Gone n (e.scheduler.store j) (e'.scheduler.store j)
    Served-Gone w start = (w, refl, inr (omega arith))
    Served-Gone {j = j} {e = e} {n = suc n} w
          (round {e₁ = e₁} before e₂ e₃ left reqs tokens outputs d h can m c r p) =
        let (w₁, most₁, so_far) = Served-Gone w before in
        let (outputs', e', run, all) =
          process_step_result-tokens cache dt ignore_eos total decodes reqs tokens e₂ d h can in
        let same : e' ≡ e₃ =
          ap (λ (x : List RequestOutput × Engine K R D). x.1) (ok-injective (sym run ∙ p)) in
        let p₁ = e₁.scheduler.store j in
        let p₂ = e₂.scheduler.store j in
        let w₂ : WithinMax p₂ = (
          omega (arith, w₁.0, ap length left.output, left.most),
          elim w₁.1 [
            | inl f ↦ inl (left.done ∙ f)
            | inr l ↦ inr (omega (arith, l, ap length left.output, left.most))
          ],
        ) in
        let more : (p₂.finished ≡ true) ⊎ (length (gets e₂.scheduler.store tokens 0 reqs j) ≡ 1) =
          elim (Bool-cases p₂.finished) [
            | inl f ↦ inl f
            | inr f ↦ inr (
                length-gets e₂.scheduler.store tokens 0 reqs j (omega (arith, h))
                  (ground (arith, c, r, f)) m)
          ] in
        subst (λ (x : Engine K R D). Gone (suc n) (e.scheduler.store j) (x.scheduler.store j)) same
          (
            (all j).3 w₂,
            (all j).1 ∙ left.most ∙ most₁,
            elim so_far [
              | inl f ↦ inl ((all j).2 (left.done ∙ f))
              | inr l ↦ elim more [
                | inl f ↦ inl ((all j).2 f)
                | inr g ↦ inr (
                    omega (
                      arith,
                      l,
                      g,
                      ap length left.output,
                      ap length (all j).0,
                      length-append p₂.output_ids (gets e₂.scheduler.store tokens 0 reqs j),
                    ))
              ]
            ],
          )

    -- If a request has at most its maximum of tokens, and fewer or is finished, and then stands,
    -- neither chunked nor retracted, in the batches of as many calls of `_process_step_result` as it
    -- still may have tokens, and nothing else writes to its outputs, its maximum or whether it is
    -- finished, then it is finished, and has at most its maximum of tokens. The chunked requests of
    -- these batches are ready for the cache update: of such a request it raises nothing and keeps its
    -- outputs, its maximum and whether it is finished, and the others stay ready. `decode_batch`
    -- answers as many requests as it is given, if there is a token for each.
    pub Served-finished :
        {j : ℕ} {e : Engine K R D} {n : ℕ} {e' : Engine K R D}
        → WithinMax (e.scheduler.store j)
        → Served Ready j e n e'
        → (e.scheduler.store j).max_tokens - length (e.scheduler.store j).output_ids ≤ n
        → ((e'.scheduler.store j).finished ≡ true)
          × (length (e'.scheduler.store j).output_ids ≤ (e'.scheduler.store j).max_tokens)
    Served-finished {j = j} {e = e} {n = n} {e' = e'} w s h =
        let (w', most, so_far) = Served-Gone w s in
        (
          elim so_far [
            | inl f ↦ f
            | inr l ↦ elim w'.1 [ inl f ↦ f | inr less ↦ absurd (omega (arith, h, l, less, most)) ]
          ],
          w'.0,
        )
