-- ===== src/Scheduler/Queues/Check.antt =====
-- What is left after `_check_decode_mem` of miniinfer/scheduler/scheduler.py.
use mini_infer.Prelude.{
  ℕ, lt→ltb, ◌<◌, zero, suc, ◌+◌, ◌≡◌, ◌⊎◌, inl, inr, refl, sym, ap, ◌∙◌, subst, true, Option, none,
  some, List, [], ◌∷◌, ◌++◌, map, length, Elem, Distinct, arith, ltb, Bool-cases, if_of_true,
  if_of_false, Result, ok, ◌>>=◌,
}
use mini_infer.Prelude.Int.{ℤ, pos, leb_ℤ}
use mathlib.Core.Path.{ap₂}
use mini_infer.Scheduler.Req.{Req, current_seq_len}
use mini_infer.Scheduler.Batch.{take_some, rebuild_metadata}
use mini_infer.Scheduler.Batch.Aligned.{IsAligned, HasOutputs, held}
use mini_infer.Scheduler.Batch.Append.{take-map, rebuild_metadata-IsAligned}
use mini_infer.Scheduler.Queues.{IKvCacheManager, Scheduler}
use mini_infer.Scheduler.Queues.Decode.{needed_tokens, with_reqs, after_retract, check_decode_mem}
use mini_infer.Scheduler.Queues.Retract.{Retracted, Enough, Retracted-none, IsSame, loop-Ran}

held_cases {ℓ} :
    {A : Type ℓ} (f : ℕ → A) (reqs : List ℕ)
    → (held reqs f ≡ none) ⊎ (held reqs f ≡ some (map f reqs))
held_cases f [] = inl refl
held_cases f (r ∷ reqs) = inr refl

zero_add : (n : ℕ) → 0 + n ≡ n
zero_add n = omega arith

module _ {K R : Type 0} (kv : IKvCacheManager K) where
  -- Nothing is left to run, or a page for each request left whose last page is full is available.
  abbrev pub Fits : (ℕ → ℕ) → Scheduler K R → List ℕ → K → Type 0
  Fits len s reqs k =
      (reqs ≡ [])
      ⊎ (leb_ℤ (pos (needed_tokens s.page_size (some (map len reqs)) (length reqs)))
            (kv.available_tokens k)
          ≡ true)

  -- What the check comes to, from the state `s`: the requests taken out, and the state after.
  pub record Checked (len : ℕ → ℕ) (out : ℕ → ℤ) (s s' : Scheduler K R) (removed : List ℕ)
      : Type 0 where
    pub moved : Retracted kv s s' removed
    pub fits : Fits len s s'.running_batch.reqs s'.kv_cache_mgr
    pub counted : s'.num_retracted_reqs ≡ s.num_retracted_reqs + length removed
    pub metadata :
        ((removed ≡ []) × (s' ≡ s))
        ⊎ (IsAligned s'.store (λ r. current_seq_len (s'.store r)) s'.running_batch
            × HasOutputs out s'.running_batch)

  Checked-none :
      (len : ℕ → ℕ) (out : ℕ → ℤ) (s : Scheduler K R)
      → Fits len s s.running_batch.reqs s.kv_cache_mgr
      → Checked len out s s []
  Checked-none len out s f = record {
    moved = Retracted-none kv s;
    fits = f;
    counted = omega arith;
    metadata = inl (refl, refl);
  }

  -- From the end of the loop, where the requests left and those taken out had their lengths.
  fits_of :
      (len : ℕ → ℕ) (s s' : Scheduler K R) (removed : List ℕ)
      → s.running_batch.seq_lens_cpu ≡ some (map len s.running_batch.reqs)
      → Retracted kv s s' removed
      → IsSame kv s s'
      → Enough kv s'
      → (s'.running_batch.reqs ≡ [])
        ⊎ (leb_ℤ
              (pos (
                needed_tokens s.page_size
                  (some (map len s'.running_batch.reqs))
                  (length s'.running_batch.reqs)))
              (kv.available_tokens s'.kv_cache_mgr)
            ≡ true)
  fits_of len s s' removed l did same (inl e) = inl e
  fits_of len s s' removed l did same (inr e) =
      let lens : take_some (length s'.running_batch.reqs) s'.running_batch.seq_lens_cpu
          ≡ some (map len s'.running_batch.reqs) =
        ap (take_some (length s'.running_batch.reqs))
          (same.lens ∙ l ∙ ap (λ (q : List ℕ). some (map len q)) did.reqs)
        ∙ ap some (take-map len s'.running_batch.reqs removed) in
      let needed =
        ap₂ (λ (p : ℕ) (c : Option (List ℕ)). needed_tokens p c (length s'.running_batch.reqs))
          same.page lens in
      inr (ap (λ (n : ℕ). leb_ℤ (pos n) (kv.available_tokens s'.kv_cache_mgr)) (sym needed) ∙ e)

  after_some :
      (n : ℕ) (s' : Scheduler K R)
      → 0 < n
      → after_retract kv (n, s') ≡ (
        ltb 0 n,
        record s' {
          running_batch = rebuild_metadata s'.store s'.running_batch;
          num_retracted_reqs = s'.num_retracted_reqs + n;
        },
      )
  after_some zero s' h = absurd (omega (arith, h))
  after_some (suc n) s' h = rw (lt→ltb 0 (suc n) (omega arith)) refl

  -- The state at the end of the loop, with its metadata built again.
  Checked-some :
      (len : ℕ → ℕ) (out : ℕ → ℤ) (s s' : Scheduler K R) (removed : List ℕ)
      → s.running_batch.seq_lens_cpu ≡ some (map len s.running_batch.reqs)
      → HasOutputs out s.running_batch
      → Retracted kv s s' removed
      → IsSame kv s s'
      → Enough kv s'
      → Checked len out s
          (record s' {
            running_batch = rebuild_metadata s'.store s'.running_batch;
            num_retracted_reqs = s'.num_retracted_reqs + length removed;
          })
          removed
  Checked-some len out s s' removed l o did same enough =
      let ids : (s'.running_batch.output_ids ≡ none)
          ⊎ (s'.running_batch.output_ids ≡ some (map out (s'.running_batch.reqs ++ removed))) =
        elim o [
          | inl n ↦ inl (same.outputs ∙ n)
          | inr h ↦ elim (held_cases out s.running_batch.reqs) [
            | inl n ↦ inl (same.outputs ∙ h ∙ n)
            | inr m ↦ inr (same.outputs ∙ h ∙ m ∙ ap (λ (q : List ℕ). some (map out q)) did.reqs)
          ]
        ] in
      let (reqs, aligned, outs) =
        rebuild_metadata-IsAligned s'.store out s'.running_batch removed ids in
      record {
        moved = record {
          reqs = did.reqs ∙ ap (λ (q : List ℕ). q ++ removed) (sym reqs);
          waiting = did.waiting;
          pending = did.pending;
          reset = did.reset;
          others = did.others;
          chunking = did.chunking;
          finished = did.finished;
        };
        fits =
            subst (λ q. Fits len s q s'.kv_cache_mgr) (sym reqs)
              (fits_of len s s' removed l did same enough);
        counted = ap (λ (n : ℕ). n + length removed) same.retracted;
        metadata = inr (aligned, outs);
      }

module _ {K R : Type 0} (kv : IKvCacheManager K) (Ready : Req → Type 0)
    (releases : (req : Req) (k : K)
      → Ready req
      → (k' : K) × (kv.release_request true req k ≡ ok k')) where
  check_reqs :
      (len : ℕ → ℕ) (out : ℕ → ℤ) (reqs : List ℕ) (s : Scheduler K R)
      → Distinct reqs
      → ((j : ℕ) → Elem j reqs → Ready (s.store j))
      → IsAligned s.store len (record s.running_batch { reqs = reqs })
      → HasOutputs out (record s.running_batch { reqs = reqs })
      → (s' : Scheduler K R) × (removed : List ℕ) × (check_decode_mem kv (with_reqs kv reqs s)
          ≡ ok (ltb 0 (length removed), s'))
        × Checked kv len out (with_reqs kv reqs s) s' removed
  unfolding check_decode_mem
  check_reqs len out [] s d a m o =
      (with_reqs kv [] s, [], refl, Checked-none kv len out (with_reqs kv [] s) (inl refl))
  check_reqs len out (r ∷ reqs) s d a m o =
      let s₀ = with_reqs kv (r ∷ reqs) s in
      let bs = length (r ∷ reqs) in
      let available = kv.available_tokens s.kv_cache_mgr in
      elim (Bool-cases
        (leb_ℤ (pos (needed_tokens s.page_size s.running_batch.seq_lens_cpu bs)) available)) [
          | inl e ↦ (
            s₀,
            [],
            if_of_true _ _ e,
            Checked-none kv len out s₀ (
                inr (
                  ap
                    (λ (c : Option (List ℕ)).
                      leb_ℤ (pos (needed_tokens s.page_size c bs)) available)
                    (sym m.lens_cpu)
                  ∙ e)),
          )
          | inr e ↦
              let (s', removed, run, did, enough, same, more) =
                loop-Ran kv Ready releases bs 0 (r ∷ reqs) s (omega arith) d a in
              elim more [
                | inl (none_out, same_state) ↦ (
                  s₀,
                  [],
                  if_of_false _ _ e
                      ∙ ap
                          (λ (x : Result (ℕ × Scheduler K R)). x >>= (λ y. ok (after_retract kv y)))
                          run
                      ∙ ap₂
                          (λ (q : List ℕ) (x : Scheduler K R).
                            ok (after_retract kv (0 + length q, x)))
                          none_out same_state,
                  Checked-none kv len out s₀ (
                      subst
                        (λ (x : Scheduler K R). Fits kv len s₀ x.running_batch.reqs x.kv_cache_mgr)
                        same_state (fits_of kv len s₀ s' removed m.lens_cpu did same enough)),
                )
                | inr some_out ↦ (
                  record s' {
                    running_batch = rebuild_metadata s'.store s'.running_batch;
                    num_retracted_reqs = s'.num_retracted_reqs + length removed;
                  },
                  removed,
                  if_of_false _ _ e
                      ∙ ap
                          (λ (x : Result (ℕ × Scheduler K R)). x >>= (λ y. ok (after_retract kv y)))
                          run
                      ∙ ap (λ (n : ℕ). ok (after_retract kv (n, s'))) (zero_add (length removed))
                      ∙ ap ok (after_some kv (length removed) s' some_out),
                  Checked-some kv len out s₀ s' removed m.lens_cpu o did same enough,
                )
              ]
        ]

  -- If the requests of the running batch are distinct, their release raises nothing, and the batch
  -- has its metadata, then `_check_decode_mem` ends and raises nothing. It takes requests off the end
  -- of the batch and puts them, reset and in their order, in front of the waiting queue; other
  -- requests are left as they are. Then no request is left in the batch, or the pages that the rest
  -- needs are available. It returns whether it took any, counts them, takes them out of the pending
  -- releases, and has built the metadata of the rest again if it took any.
  pub check_decode_mem-Checked :
      (len : ℕ → ℕ) (out : ℕ → ℤ) (s : Scheduler K R)
      → Distinct s.running_batch.reqs
      → ((j : ℕ) → Elem j s.running_batch.reqs → Ready (s.store j))
      → IsAligned s.store len s.running_batch
      → HasOutputs out s.running_batch
      → (s' : Scheduler K R) × (removed : List ℕ) × (check_decode_mem kv s
          ≡ ok (ltb 0 (length removed), s'))
        × Checked kv len out s s' removed
  check_decode_mem-Checked len out s d a m o = check_reqs len out s.running_batch.reqs s d a m o
