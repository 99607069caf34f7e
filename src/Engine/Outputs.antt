-- ===== src/Engine/Outputs.antt =====
-- The tokens that `_process_step_result` of miniinfer/engine/llm_engine.py gives to the requests.
use mathlib.Core.List.{append-nil}
use mini_infer.Prelude.{
  ℕ, ◌≡◌, ◌⊎◌, ◌<◌, ◌≤◌, inl, inr, refl, sym, ap, ◌∙◌, subst, Bool, true, not, ◌&&◌, ◌||◌, Option,
  List, [], ◌∷◌, ◌++◌, map, length, length-append, length-map, leb, Elem, Distinct, ℕ_discrete,
  arith, Bool-cases, if_of_true, if_of_false, ok,
}
use mini_infer.Scheduler.Req.{Req}
use mini_infer.Scheduler.Batch.{Store, write_req}
use mini_infer.Scheduler.Queues.Pop.{write_req_ne, write_req_self}
use mini_infer.Scheduler.Queues.Release.{handle_finished_requests}
use mini_infer.Engine.{
  IChunkCache, IDetokenizer, Decoded, Sorting, plain, Emitting, emit, emit_all, Engine,
  RequestOutput, decoded_or_none, process_sorted, process_step_result,
}
use mini_infer.Engine.Visit.{gets, listed, Given}
use mini_infer.Engine.Visits.{visit_all-VisitedAll}

-- At most as many tokens as it may have; fewer, or it is finished.
abbrev pub WithinMax : Req → Type 0
WithinMax req =
    (length req.output_ids ≤ req.max_tokens)
    × ((req.finished ≡ true) ⊎ (length req.output_ids < req.max_tokens))

-- A request that keeps its tokens; one that is finished stays so.
record Kept (req req' : Req) : Type 0 where
  output : req'.output_ids ≡ req.output_ids
  most : req'.max_tokens ≡ req.max_tokens
  done : req.finished ≡ true → req'.finished ≡ true

Kept-refl : (req : Req) → Kept req req
Kept-refl req = record { output = refl; most = refl; done = λ h. h }

Kept-trans : (p q s : Req) → Kept p q → Kept q s → Kept p s
Kept-trans p q s g h = record {
  output = h.output ∙ g.output;
  most = h.most ∙ g.most;
  done = λ f. h.done (g.done f);
}

-- Finished, or with fewer tokens than it may have.
abbrev Settled : Req → Type 0
Settled req = (req.finished ≡ true) ⊎ (length req.output_ids < req.max_tokens)

Settled-Kept : (p q : Req) → Kept p q → Settled p → Settled q
Settled-Kept p q g (inl f) = inl (g.done f)
Settled-Kept p q g (inr l) = inr (omega (arith, l, ap length g.output, g.most))

write_req-Kept :
    (r : ℕ) (req : Req) (s : Store) (j : ℕ) → Kept (s r) req → Kept (s j) (write_req r req s j)
write_req-Kept r req s j k = elim (ℕ_discrete r j) [
  | yes q ↦
      subst (λ i. Kept (s i) (write_req r req s i)) q
        (subst (Kept (s r)) (sym (write_req_self r req s)) k)
  | no n ↦ subst (Kept (s j)) (sym (write_req_ne r req s j n)) (Kept-refl (s j))
]

module _ {D : Type 0} (dt : IDetokenizer D) (ignore_eos : ℕ → Bool) where
  emit-Kept :
      (r t : ℕ) (d : Decoded) (x : Emitting D) (j : ℕ)
      → Kept (x.store j) ((emit dt ignore_eos r t d x).store j)
  unfolding emit
  emit-Kept r t d x j =
      elim (Bool-cases (
        (d.is_eos && not (ignore_eos r))
        || leb (x.store r).max_tokens (length (x.store r).output_ids))) [
          | inl e ↦
              subst (λ (y : Emitting D). Kept (x.store j) (y.store j)) (sym (if_of_true _ _ e))
                (write_req-Kept r _ x.store j
                  (record { output = refl; most = refl; done = λ f. refl }))
          | inr e ↦
              subst (λ (y : Emitting D). Kept (x.store j) (y.store j)) (sym (if_of_false _ _ e))
                (Kept-refl (x.store j))
        ]

  emit-Settled :
      (r t : ℕ) (d : Decoded) (x : Emitting D) → Settled ((emit dt ignore_eos r t d x).store r)
  unfolding emit
  emit-Settled r t d x =
      elim (Bool-cases (
        (d.is_eos && not (ignore_eos r))
        || leb (x.store r).max_tokens (length (x.store r).output_ids))) [
          | inl e ↦
              subst (λ (y : Emitting D). Settled (y.store r)) (sym (if_of_true _ _ e))
                (inl (ap (λ (q : Req). q.finished) (write_req_self r _ x.store)))
          | inr e ↦
              subst (λ (y : Emitting D). Settled (y.store r)) (sym (if_of_false _ _ e))
                (inr (ground (arith, e)))
        ]

  emit_all-Kept :
      (active : List (ℕ × ℕ)) (decoded : List Decoded) (x : Emitting D) (j : ℕ)
      → Kept (x.store j) ((emit_all dt ignore_eos active decoded x).store j)
  unfolding emit_all
  emit_all-Kept [] decoded x j = Kept-refl (x.store j)
  emit_all-Kept (a ∷ active) [] x j = Kept-refl (x.store j)
  emit_all-Kept ((r, t) ∷ active) (d ∷ decoded) x j =
      Kept-trans (x.store j) ((emit dt ignore_eos r t d x).store j) _ (emit-Kept r t d x j)
        (emit_all-Kept active decoded (emit dt ignore_eos r t d x) j)

  emit_all-Settled :
      (active : List (ℕ × ℕ)) (decoded : List Decoded) (x : Emitting D) (j : ℕ)
      → length active ≤ length decoded
      → Elem j (listed active)
      → Settled ((emit_all dt ignore_eos active decoded x).store j)
  unfolding emit_all
  emit_all-Settled [] decoded x j h m = absurd m
  emit_all-Settled (a ∷ active) [] x j h m = absurd (omega (arith, h))
  emit_all-Settled ((r, t) ∷ active) (d ∷ decoded) x j h (inl e) =
      Settled-Kept _ _ (emit_all-Kept active decoded (emit dt ignore_eos r t d x) j)
        (subst (λ i. Settled ((emit dt ignore_eos r t d x).store i)) (sym e) (emit-Settled r t d x))
  emit_all-Settled ((r, t) ∷ active) (d ∷ decoded) x j h (inr m) =
      emit_all-Settled active decoded (emit dt ignore_eos r t d x) j (omega (arith, h)) m

-- What a request has after the two loops.
abbrev After : List ℕ → Req → Req → Type 0
After more req req' =
    (req'.output_ids ≡ req.output_ids ++ more)
    × (req'.max_tokens ≡ req.max_tokens)
    × (req.finished ≡ true → req'.finished ≡ true)
    × (WithinMax req → WithinMax req')

After-loops :
    (more : List ℕ) (L : Type 0) (p q s : Req)
    → Given more L p q
    → Kept q s
    → (L → Settled s)
    → After more p s
After-loops more L p q s g k f =
    let out = k.output ∙ g.output in
    let most = k.most ∙ g.most in
    (
      out,
      most,
      λ h. k.done (g.done ∙ h),
      λ w. elim g.named [
        | inl e ↦
            let len : length s.output_ids ≡ length p.output_ids =
              ap length
                (out ∙ ap (λ (m : List ℕ). p.output_ids ++ m) e ∙ append-nil p.output_ids) in
            (
              omega (arith, len, most, w.0),
              elim w.1 [
                | inl h ↦ inl (k.done (g.done ∙ h))
                | inr h ↦ inr (omega (arith, len, most, h))
              ],
            )
        | inr (o, l, n) ↦
            let room : length p.output_ids < p.max_tokens = elim w.1 [
              | inl h ↦ absurd (cc)
              | inr h ↦ h
            ] in
            (omega (arith, ap length out, length-append p.output_ids more, n, most, room), f l)
      ],
    )

module _ {K R D : Type 0} (cache : IChunkCache K) (dt : IDetokenizer D) (ignore_eos : ℕ → Bool)
    {Ready : Req → K → Type 0}
    (total : (req : Req) (k : K)
      → Ready req k
      → (u : Req × K) × (cache.update_unfinished_req_radix_cache req k ≡ ok u)
        × (u.0.output_ids ≡ req.output_ids)
        × (u.0.max_tokens ≡ req.max_tokens)
        × (u.0.finished ≡ req.finished)
        × ((q : Req) → Ready q k → Ready q (cache.free_row u.0.req_pool_idx u.1)))
    (decodes : (ids tokens : List ℕ) (eos_id : Option ℕ) (d : D)
      → length ids ≡ length tokens
      → length ids ≤ length (dt.decode_batch ids tokens eos_id d).0) where
  decoded-length :
      (active : List (ℕ × ℕ)) (x : Sorting K D) (e : Engine K R D)
      → length active
        ≤ length (decoded_or_none cache dt ignore_eos (record x { active = active }) e).0
  decoded-length [] x e = omega arith
  decoded-length (a ∷ active) x e =
      let ids = map (λ (b : ℕ × ℕ). (x.store b.0).req_id) (a ∷ active) in
      let tokens = map (λ (b : ℕ × ℕ). b.1) (a ∷ active) in
      let many : length ids ≡ length (a ∷ active) = length-map (a ∷ active) _ in
      let plains : length (map (λ (b : ℕ × ℕ). plain e.eos_token_id b.1) (a ∷ active))
          ≡ length (a ∷ active) =
        length-map (a ∷ active) _ in
      elim (Bool-cases e.streaming) [
        | inl s ↦ rw s (
            omega (
              arith,
              many,
              decodes ids tokens e.eos_token_id x.detokenizer
                  (many ∙ sym (length-map (a ∷ active) _)),
            ))
        | inr s ↦ rw s (omega (arith, plains))
      ]

  process_reqs :
      (reqs tokens : List ℕ) (e : Engine K R D)
      → Distinct reqs
      → length reqs ≤ length tokens
      → ((j : ℕ)
          → Elem j reqs
          → (e.scheduler.store j).is_chunked ≡ true
          → Ready (e.scheduler.store j) e.scheduler.kv_cache_mgr)
      → (outputs : List RequestOutput) × (e' : Engine K R D) × (process_step_result cache dt
            ignore_eos reqs tokens e
          ≡ ok (outputs, e'))
        × ((j : ℕ)
            → After
                (gets e.scheduler.store tokens 0 reqs j)
                (e.scheduler.store j)
                (e'.scheduler.store j))
  unfolding process_step_result gets handle_finished_requests
  process_reqs [] tokens e d h can =
      ([], e, refl, λ j. (sym (append-nil (e.scheduler.store j).output_ids), refl, λ h. h, λ w. w))
  process_reqs (r ∷ reqs) tokens e d h can =
      let start : Sorting K D = record {
        store = e.scheduler.store;
        manager = e.scheduler.kv_cache_mgr;
        detokenizer = e.detokenizer;
        active = [];
      } in
      let (x, run, all) =
        visit_all-VisitedAll cache dt total tokens 0 (r ∷ reqs) start d (omega (arith, h)) can in
      let decoded = decoded_or_none cache dt ignore_eos x e in
      let emitting : Emitting D = record {
        store = x.store;
        detokenizer = decoded.1;
        outputs = [];
        finished_req_ids = [];
      } in
      let result = process_sorted cache dt ignore_eos (r ∷ reqs) e x in
      (
        result.0,
        result.1,
        rw run refl,
        λ j.
            After-loops _ _ (e.scheduler.store j) (x.store j) (result.1.scheduler.store j)
              (all.each j) (emit_all-Kept dt ignore_eos x.active decoded.0 emitting j)
              (emit_all-Settled dt ignore_eos x.active decoded.0 emitting j
                (decoded-length x.active x e)),
      )

  -- If the requests of a batch are distinct and there is a token for each, then
  -- `_process_step_result` raises nothing, provided that the cache update of a chunked request of the
  -- batch can be made: of a request that is ready for it, it raises nothing and keeps its outputs,
  -- its maximum and whether it is finished, and the others stay ready; and that `decode_batch`
  -- answers as many requests as it is given, if there is a token for each. A request of the batch
  -- that is not chunked, finished or retracted gets the token at its position at the end of its
  -- outputs, and no other request gets one. A finished request stays so. If a request had at most its
  -- maximum of tokens, and fewer or was finished, then this holds afterwards, eos ignored or not.
  pub process_step_result-tokens :
      (reqs tokens : List ℕ) (e : Engine K R D)
      → Distinct reqs
      → length reqs ≤ length tokens
      → ((j : ℕ)
          → Elem j reqs
          → (e.scheduler.store j).is_chunked ≡ true
          → Ready (e.scheduler.store j) e.scheduler.kv_cache_mgr)
      → (outputs : List RequestOutput) × (e' : Engine K R D) × (process_step_result cache dt
            ignore_eos reqs tokens e
          ≡ ok (outputs, e'))
        × ((j : ℕ)
            → ((e'.scheduler.store j).output_ids
                ≡ (e.scheduler.store j).output_ids ++ gets e.scheduler.store tokens 0 reqs j)
              × ((e'.scheduler.store j).max_tokens ≡ (e.scheduler.store j).max_tokens)
              × ((e.scheduler.store j).finished ≡ true → (e'.scheduler.store j).finished ≡ true)
              × (WithinMax (e.scheduler.store j) → WithinMax (e'.scheduler.store j)))
  process_step_result-tokens reqs tokens e d h can = process_reqs reqs tokens e d h can
