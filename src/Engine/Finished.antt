-- ===== src/Engine/Finished.antt =====
-- The requests that `_process_step_result` of miniinfer/engine/llm_engine.py hands on for release.
use mathlib.Core.List.{append-nil}
use mini_infer.Prelude.{
  ℕ, ◌≡◌, refl, sym, ap, ◌∙◌, subst, inl, inr, Bool, not, ◌&&◌, ◌||◌, List, [], ◌∷◌, ◌++◌, length,
  leb, filter, if◌then◌else◌, Bool-cases, if_of_true, if_of_false, ok, ok-injective, >>=-eq-ok,
}
use mini_infer.Scheduler.Queues.Release.{is_in, handle_finished_requests}
use mini_infer.Engine.{
  IChunkCache, IDetokenizer, Decoded, Sorting, Emitting, RequestOutput, emit, emit_all, Engine,
  process_sorted, process_step_result, decoded_or_none, visit_all,
}

-- The requests that the outputs report as finished.
unfoldable pub reported : List RequestOutput → List ℕ
reported [] = []
reported (o ∷ outputs) =
    let rest = reported outputs in if o.finished then o.request_id ∷ rest else rest

reported_snoc :
    (outputs : List RequestOutput) (o : RequestOutput)
    → reported (outputs ++ (o ∷ []))
      ≡ reported outputs ++ (if o.finished then o.request_id ∷ [] else [])
unfolding reported
reported_snoc [] o = refl
reported_snoc (p ∷ outputs) o = elim (Bool-cases p.finished) [
  | inl e ↦ rw e (ap (◌∷◌ p.request_id) (reported_snoc outputs o))
  | inr e ↦ rw e (reported_snoc outputs o)
]

module _ {D : Type 0} (dt : IDetokenizer D) (ignore_eos : ℕ → Bool) where
  abbrev Reported : Emitting D → Type 0
  Reported x = x.finished_req_ids ≡ reported x.outputs

  emit-Reported :
      (r t : ℕ) (d : Decoded) (x : Emitting D) → Reported x → Reported (emit dt ignore_eos r t d x)
  unfolding emit
  emit-Reported r t d x h =
      elim (Bool-cases (
        (d.is_eos && not (ignore_eos r))
        || leb (x.store r).max_tokens (length (x.store r).output_ids))) [
          | inl e ↦ subst Reported (sym (if_of_true _ _ e)) (
              ap (λ (l : List ℕ). l ++ ((x.store r).req_id ∷ [])) h
              ∙ sym (reported_snoc x.outputs _))
          | inr e ↦
              subst Reported (sym (if_of_false _ _ e))
                (h ∙ sym (append-nil (reported x.outputs)) ∙ sym (reported_snoc x.outputs _))
        ]

  emit_all-Reported :
      (active : List (ℕ × ℕ)) (decoded : List Decoded) (x : Emitting D)
      → Reported x
      → Reported (emit_all dt ignore_eos active decoded x)
  unfolding emit_all
  emit_all-Reported [] decoded x h = h
  emit_all-Reported (a ∷ active) [] x h = h
  emit_all-Reported ((r, t) ∷ active) (d ∷ decoded) x h =
      emit_all-Reported active decoded (emit dt ignore_eos r t d x) (emit-Reported r t d x h)

module _ {K R D : Type 0} (cache : IChunkCache K) (dt : IDetokenizer D)
    (ignore_eos : ℕ → Bool) where
  -- The requests of the batch that are reported, after those that there were.
  abbrev HandedOn : List ℕ → Engine K R D → List RequestOutput × Engine K R D → Type 0
  HandedOn reqs e x =
      let done = filter (λ r. is_in (x.1.scheduler.store r).req_id (reported x.0)) reqs in
      (x.1.scheduler.pending_release_reqs ≡ e.scheduler.pending_release_reqs ++ done)
      × (x.1.scheduler.finished_reqs ≡ e.scheduler.finished_reqs ++ done)

  sorted-HandedOn :
      (reqs : List ℕ) (e : Engine K R D) (x : Sorting K D)
      → HandedOn reqs e (process_sorted cache dt ignore_eos reqs e x)
  unfolding handle_finished_requests reported
  sorted-HandedOn reqs e x =
      let decoded = decoded_or_none cache dt ignore_eos x e in
      let start : Emitting D = record {
        store = x.store;
        detokenizer = decoded.1;
        outputs = [];
        finished_req_ids = [];
      } in
      let y = emit_all dt ignore_eos x.active decoded.0 start in
      let same = emit_all-Reported dt ignore_eos x.active decoded.0 start refl in
      let done = ap (λ (ids : List ℕ). filter (λ r. is_in (y.store r).req_id ids) reqs) same in
      (
        ap (λ (l : List ℕ). e.scheduler.pending_release_reqs ++ l) done,
        ap (λ (l : List ℕ). e.scheduler.finished_reqs ++ l) done,
      )

  -- If `_process_step_result` raises nothing, then the requests of the batch that its outputs report
  -- as finished, and only those, are appended to the pending releases and to the finished requests,
  -- in the order of the batch.
  pub process_step_result-HandedOn :
      (reqs tokens : List ℕ) (e : Engine K R D) (outputs : List RequestOutput) (e' : Engine K R D)
      → process_step_result cache dt ignore_eos reqs tokens e ≡ ok (outputs, e')
      → let done = filter (λ r. is_in (e'.scheduler.store r).req_id (reported outputs)) reqs in
        (e'.scheduler.pending_release_reqs ≡ e.scheduler.pending_release_reqs ++ done)
        × (e'.scheduler.finished_reqs ≡ e.scheduler.finished_reqs ++ done)
  unfolding process_step_result
  process_step_result-HandedOn [] tokens e outputs e' h = subst (HandedOn [] e) (ok-injective h) (
    sym (append-nil e.scheduler.pending_release_reqs),
    sym (append-nil e.scheduler.finished_reqs),
  )
  process_step_result-HandedOn (r ∷ reqs) tokens e outputs e' h =
      let start : Sorting K D = record {
        store = e.scheduler.store;
        manager = e.scheduler.kv_cache_mgr;
        detokenizer = e.detokenizer;
        active = [];
      } in
      let (x, p, q) =
        >>=-eq-ok (visit_all cache dt tokens 0 (r ∷ reqs) start)
          (λ y. ok (process_sorted cache dt ignore_eos (r ∷ reqs) e y)) h in
      subst (HandedOn (r ∷ reqs) e) (ok-injective q) (sorted-HandedOn (r ∷ reqs) e x)
