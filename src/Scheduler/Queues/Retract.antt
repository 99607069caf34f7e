-- ===== src/Scheduler/Queues/Retract.antt =====
-- The retraction of requests in `_check_decode_mem` of miniinfer/scheduler/scheduler.py.
use mathlib.Core.List.{append_assoc, append-nil}
use mini_infer.Prelude.{
  ℕ, ◌<◌, zero, suc, ◌+◌, ◌≡◌, ◌⊎◌, inl, inr, refl, sym, ap, ◌∙◌, ◌≤◌, subst, true, false, List, [],
  ◌∷◌, ◌++◌, length, length-append, Elem, Distinct, append-Elem_right, arith, Bool-cases,
  if_of_true, if_of_false, Result, ok,
}
use mini_infer.Prelude.Int.{pos, leb_ℤ}
use mini_infer.Scheduler.Req.{Req, retract}
use mini_infer.Scheduler.Batch.{write_req}
use mini_infer.Scheduler.Queues.{IKvCacheManager, Scheduler}
use mini_infer.Scheduler.Queues.Decode.{
  pop, remove_req, retract_one, with_reqs, remaining_needed, retract_loop,
}
use mini_infer.Scheduler.Queues.Pop.{
  without, without-append, pop-append, length-pop, Elem-snoc, snoc-Elem, Distinct-snoc,
  write_req_ne, write_req_self, count_more,
}

module _ {K R : Type 0} (kv : IKvCacheManager K) where
  -- Between two states: `removed` has gone from the end of the running batch to the front of the
  -- waiting queue, and is reset; what is left of the batch fits what is available, or nothing is.
  pub record Retracted (s s' : Scheduler K R) (removed : List ℕ) : Type 0 where
    pub reqs : s.running_batch.reqs ≡ s'.running_batch.reqs ++ removed
    pub waiting : s'.waiting_queue ≡ removed ++ s.waiting_queue
    pub pending : s'.pending_release_reqs ≡ without removed s.pending_release_reqs
    pub reset : (j : ℕ) → Elem j removed → s'.store j ≡ retract (s.store j)
    pub others : (j : ℕ) → ¬ Elem j removed → s'.store j ≡ s.store j
    pub chunking : s'.chunking_reqs ≡ s.chunking_reqs
    pub finished : s'.finished_reqs ≡ s.finished_reqs

  -- Nothing is left to run, or what is left fits.
  abbrev pub Enough : Scheduler K R → Type 0
  Enough s =
      (s.running_batch.reqs ≡ [])
      ⊎ (leb_ℤ (pos (remaining_needed kv s)) (kv.available_tokens s.kv_cache_mgr) ≡ true)

  pub Retracted-none : (s : Scheduler K R) → Retracted s s []
  Retracted-none s = record {
    reqs = sym (append-nil s.running_batch.reqs);
    waiting = refl;
    pending = refl;
    reset = λ j m. absurd m;
    others = λ j m. refl;
    chunking = refl;
    finished = refl;
  }

  -- What the loop leaves as it is.
  pub record IsSame (s s' : Scheduler K R) : Type 0 where
    pub retracted : s'.num_retracted_reqs ≡ s.num_retracted_reqs
    pub outputs : s'.running_batch.output_ids ≡ s.running_batch.output_ids
    pub lens : s'.running_batch.seq_lens_cpu ≡ s.running_batch.seq_lens_cpu
    pub page : s'.page_size ≡ s.page_size

  IsSame-self : (s : Scheduler K R) → IsSame s s
  IsSame-self s = record { retracted = refl; outputs = refl; lens = refl; page = refl }

  module _ (Ready : Req → Type 0)
      (releases : (req : Req) (k : K)
        → Ready req
        → (k' : K) × (kv.release_request true req k ≡ ok k')) where
    abbrev pub AllReady : Scheduler K R → List ℕ → Type 0
    AllReady s reqs = (j : ℕ) → Elem j reqs → Ready (s.store j)

    -- The state after one request is taken out.
    abbrev out_of : ℕ → List ℕ → K → Scheduler K R → Scheduler K R
    out_of req rest released s = record s {
      running_batch = record s.running_batch { reqs = rest };
      pending_release_reqs = remove_req req s.pending_release_reqs;
      kv_cache_mgr = released;
      store = write_req req (retract (s.store req)) s.store;
      waiting_queue = req ∷ s.waiting_queue;
    }

    Retracted-more :
        (s s' : Scheduler K R) (req : ℕ) (reqs rest removed : List ℕ) (released : K)
        → reqs ≡ rest ++ (req ∷ [])
        → Distinct reqs
        → Retracted (out_of req rest released s) s' removed
        → Retracted (with_reqs kv reqs s) s' (removed ++ (req ∷ []))
    Retracted-more s s' req reqs rest removed released e d h =
        let apart = (Distinct-snoc rest req (subst Distinct e d)).1 in
        let sub : (j : ℕ) → Elem j removed → Elem j rest = λ j m.
          subst (Elem j) (sym h.reqs) (append-Elem_right j s'.running_batch.reqs removed m) in
        record {
          reqs =
              e ∙ ap (λ (l : List ℕ). l ++ (req ∷ [])) h.reqs ∙ append_assoc _ removed (req ∷ []);
          waiting = h.waiting ∙ sym (append_assoc removed (req ∷ []) s.waiting_queue);
          pending = h.pending ∙ sym (without-append removed (req ∷ []) s.pending_release_reqs);
          reset = λ j m. elim (Elem-snoc j removed req m) [
            | inl k ↦ h.reset j k ∙ ap retract (write_req_ne req _ s.store j (apart j (sub j k)))
            | inr q ↦
                subst (λ i. s'.store i ≡ retract (s.store i)) (sym q)
                  (h.others req (λ k. apart req (sub req k) refl) ∙ write_req_self req _ s.store)
          ];
          others = λ j m.
              h.others j (λ k. m (snoc-Elem j removed req (inl k)))
              ∙ write_req_ne req _ s.store j (λ q. m (snoc-Elem j removed req (inr (sym q))));
          chunking = h.chunking;
          finished = h.finished;
        }

    abbrev pub Ran : Scheduler K R → ℕ → Result (ℕ × Scheduler K R) → Type 0
    Ran s retract_count result =
        (s' : Scheduler K R) × (removed : List ℕ) × (result
          ≡ ok (retract_count + length removed, s'))
        × Retracted s s' removed
        × Enough s'
        × IsSame s s'
        × (((removed ≡ []) × (s' ≡ s)) ⊎ (0 < length removed))

    loop_out :
        (fuel n r : ℕ) (reqs : List ℕ) (s : Scheduler K R) (released : K)
        → leb_ℤ
            (pos (remaining_needed kv (with_reqs kv (r ∷ reqs) s)))
            (kv.available_tokens s.kv_cache_mgr)
          ≡ false
        → kv.release_request true (s.store (pop r reqs).0) s.kv_cache_mgr ≡ ok released
        → retract_loop kv
            (suc fuel)
            n
            (kv.available_tokens s.kv_cache_mgr)
            (with_reqs kv (r ∷ reqs) s)
          ≡ retract_loop kv fuel
              (n + 1)
              (kv.available_tokens released)
              (out_of (pop r reqs).0 (pop r reqs).1 released s)
    unfolding retract_loop retract_one
    loop_out fuel n r reqs s released e rel = if_of_false _ _ e ∙ rw rel refl

    -- With as much fuel as there are requests, the loop ends as it should.
    pub loop-Ran :
        (fuel n : ℕ) (reqs : List ℕ) (s : Scheduler K R)
        → length reqs ≤ fuel
        → Distinct reqs
        → AllReady s reqs
        → Ran
            (with_reqs kv reqs s)
            n
            (retract_loop kv fuel n (kv.available_tokens s.kv_cache_mgr) (with_reqs kv reqs s))
    unfolding retract_loop
    loop-Ran zero n [] s h d a =
        let s' = with_reqs kv [] s in
        (
          s',
          [],
          ap (λ (m : ℕ). ok (m, s')) (omega arith),
          Retracted-none s',
          inl refl,
          IsSame-self s',
          inl (refl, refl),
        )
    loop-Ran (suc fuel) n [] s h d a =
        let s' = with_reqs kv [] s in
        (
          s',
          [],
          ap (λ (m : ℕ). ok (m, s')) (omega arith),
          Retracted-none s',
          inl refl,
          IsSame-self s',
          inl (refl, refl),
        )
    loop-Ran zero n (r ∷ reqs) s h d a = absurd (omega (arith, h))
    loop-Ran (suc fuel) n (r ∷ reqs) s h d a =
        let s₀ = with_reqs kv (r ∷ reqs) s in
        let req = (pop r reqs).0 in
        let rest = (pop r reqs).1 in
        let parts = pop-append r reqs in
        let (first, apart) = Distinct-snoc rest req (subst Distinct parts d) in
        let within : (j : ℕ) → Elem j rest ⊎ (j ≡ req) → Elem j (r ∷ reqs) =
          λ j m. subst (Elem j) (sym parts) (snoc-Elem j rest req m) in
        let (released, rel) =
          releases (s.store req) s.kv_cache_mgr (a req (within req (inr refl))) in
        let (s', removed, run, did, enough, same, more) =
          loop-Ran fuel (n + 1) rest (out_of req rest released s) (omega (arith, length-pop r reqs))
            first
            (λ j m.
              subst Ready (sym (write_req_ne req _ s.store j (apart j m)))
                (a j (within j (inl m)))) in
        elim (Bool-cases
          (leb_ℤ (pos (remaining_needed kv s₀)) (kv.available_tokens s.kv_cache_mgr))) [
            | inl e ↦ (
              s₀,
              [],
              if_of_true _ _ e ∙ ap (λ (m : ℕ). ok (m, s₀)) (omega arith),
              Retracted-none s₀,
              inr e,
              IsSame-self s₀,
              inl (refl, refl),
            )
            | inr e ↦ (
              s',
              removed ++ (req ∷ []),
              loop_out fuel n r reqs s released e rel
                  ∙ run
                  ∙ ap (λ (m : ℕ). ok (m, s')) (count_more n removed req),
              Retracted-more s s' req (r ∷ reqs) rest removed released parts d did,
              enough,
              record {
                retracted = same.retracted;
                outputs = same.outputs;
                lens = same.lens;
                page = same.page;
              },
              inr (omega (arith, length-append removed (req ∷ []))),
            )
          ]
