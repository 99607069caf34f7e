-- ===== src/Engine/Visits.antt =====
-- The first loop of `_process_step_result` of miniinfer/engine/llm_engine.py.
use mathlib.Core.List.{append-nil}
use mathlib.Core.Path.{ap₂}
use mini_infer.Prelude.{
  ℕ, true, zero, suc, ◌+◌, ◌≡◌, ◌≢◌, ◌≤◌, inl, inr, refl, sym, ap, ◌∙◌, subst, some, List, [], ◌∷◌,
  ◌++◌, length, get_elem?, ◌==◌, if◌then◌else◌, Elem, Distinct, ℕ_discrete, arith, if_of_true,
  if_of_false, ok,
}
use mini_infer.Scheduler.Req.{Req}
use mini_infer.Scheduler.Batch.{Store}
use mini_infer.Engine.{IChunkCache, IDetokenizer, Sorting, visit_all}
use mini_infer.Engine.Visit.{
  token_of, gets, listed, not_same, same_id, Given, Visited, visit-Visited, same_Given,
}

-- A request that got its token in one round, and nothing in those behind it.
and_none :
    (a b : List ℕ) (La Lb Lc : Type 0) (p q s : Req)
    → Given a La p q
    → Given b Lb q s
    → b ≡ []
    → (La → Lc)
    → Given a Lc p s
and_none a b La Lb Lc p q s g h e f = record {
  output = h.output ∙ ap (λ (m : List ℕ). q.output_ids ++ m) e ∙ append-nil q.output_ids ∙ g.output;
  most = h.most ∙ g.most;
  done = h.done ∙ g.done;
  named = elim g.named [ inl n ↦ inl n | inr (o, l, k) ↦ inr (o, f l, k) ];
}

-- The position is there.
pub entry_at : (xs : List ℕ) (i n : ℕ) → i + suc n ≤ length xs → (t : ℕ) × (get_elem? xs i ≡ some t)
entry_at [] i n h = absurd (omega (arith, h))
entry_at (x ∷ xs) zero n h = (x, refl)
entry_at (x ∷ xs) (suc i) n h = entry_at xs i n (omega (arith, h))

gets_none :
    (s : Store) (tokens : List ℕ) (i : ℕ) (reqs : List ℕ) (j : ℕ)
    → ¬ Elem j reqs
    → gets s tokens i reqs j ≡ []
unfolding gets
gets_none s tokens i [] j n = refl
gets_none s tokens i (r ∷ reqs) j n =
    if_of_false _ _ (not_same r j (λ e. n (inl (sym e))))
    ∙ gets_none s tokens (suc i) reqs j (λ m. n (inr m))

gets_same :
    (s s' : Store) (tokens : List ℕ) (i : ℕ) (reqs : List ℕ) (j : ℕ)
    → ((k : ℕ) → Elem k reqs → s' k ≡ s k)
    → gets s' tokens i reqs j ≡ gets s tokens i reqs j
unfolding gets
gets_same s s' tokens i [] j h = refl
gets_same s s' tokens i (r ∷ reqs) j h =
    ap₂ (λ (a : List ℕ) (b : List ℕ). if r == j then a else b)
      (ap (λ (q : Req). token_of q (get_elem? tokens i)) (h r (inl refl)))
      (gets_same s s' tokens (suc i) reqs j (λ k m. h k (inr m)))

module _ {K D : Type 0} (cache : IChunkCache K) (dt : IDetokenizer D) {Ready : Req → K → Type 0}
    (total : (req : Req) (k : K)
      → Ready req k
      → (u : Req × K) × (cache.update_unfinished_req_radix_cache req k ≡ ok u)
        × (u.0.output_ids ≡ req.output_ids)
        × (u.0.max_tokens ≡ req.max_tokens)
        × (u.0.finished ≡ req.finished)
        × ((q : Req) → Ready q k → Ready q (cache.free_row u.0.req_pool_idx u.1))) where
  -- All rounds, for any request.
  pub record VisitedAll (tokens : List ℕ) (i : ℕ) (reqs : List ℕ) (x y : Sorting K D) : Type 0 where
    pub each :
        (j : ℕ)
        → Given (gets x.store tokens i reqs j) (Elem j (listed y.active)) (x.store j) (y.store j)
    pub kept : (j : ℕ) → Elem j (listed x.active) → Elem j (listed y.active)

  module _ (tokens : List ℕ) (i r : ℕ) (reqs : List ℕ) (x y z : Sorting K D)
      (d : Distinct (r ∷ reqs)) (here : Visited cache dt total tokens i r x y)
      (all : VisitedAll tokens (suc i) reqs y z) where
    abbrev Got : ℕ → Type 0
    Got j =
        Given (gets x.store tokens i (r ∷ reqs) j) (Elem j (listed z.active)) (x.store j)
          (z.store j)

    first_of : Got r
    unfolding gets
    first_of =
        subst (λ (m : List ℕ). Given m (Elem r (listed z.active)) (x.store r) (z.store r))
          (sym (if_of_true _ _ (same_id r)))
          (and_none _ _ _ _ _ (x.store r) (y.store r) (z.store r) here.own (all.each r)
            (gets_none y.store tokens (suc i) reqs r d.0) (all.kept r))

    other_of : (j : ℕ) → r ≢ j → Got j
    unfolding gets
    other_of j n =
        let same : gets y.store tokens (suc i) reqs j ≡ gets x.store tokens (suc i) reqs j =
          gets_same x.store y.store tokens (suc i) reqs j
            (λ k m. here.others k (λ q. d.0 (subst (λ l. Elem l reqs) (sym q) m))) in
        subst (λ (m : List ℕ). Given m (Elem j (listed z.active)) (x.store j) (z.store j))
          (same ∙ sym (if_of_false _ _ (not_same r j n)))
          (subst
            (λ (q : Req).
              Given (gets y.store tokens (suc i) reqs j) (Elem j (listed z.active)) q (z.store j))
            (here.others j n) (all.each j))

    each_of : (j : ℕ) → Got j
    each_of j = elim (ℕ_discrete r j) [ yes q ↦ subst Got q first_of | no n ↦ other_of j n ]

  pub visit_all-VisitedAll :
      (tokens : List ℕ) (i : ℕ) (reqs : List ℕ) (x : Sorting K D)
      → Distinct reqs
      → i + length reqs ≤ length tokens
      → ((j : ℕ) → Elem j reqs → (x.store j).is_chunked ≡ true → Ready (x.store j) x.manager)
      → (y : Sorting K D) × (visit_all cache dt tokens i reqs x ≡ ok y)
        × VisitedAll tokens i reqs x y
  unfolding visit_all gets
  visit_all-VisitedAll tokens i [] x d h can =
      (x, refl, record { each = λ j. same_Given cache dt total (x.store j) _; kept = λ j m. m })
  visit_all-VisitedAll tokens i (r ∷ reqs) x d h can =
      let (t, e) = entry_at tokens i (length reqs) h in
      let (y, run, here) = visit-Visited cache dt total tokens i r t x e (can r (inl refl)) in
      let later : (j : ℕ)
          → Elem j reqs
          → (y.store j).is_chunked ≡ true
          → Ready (y.store j) y.manager =
        λ j m c.
          (let same : y.store j ≡ x.store j =
              here.others j (λ q. d.0 (subst (λ l. Elem l reqs) (sym q) m)) in
            subst (λ q. Ready q y.manager) (sym same)
              (here.ready (x.store j)
                (can j (inr m) (sym (ap (λ (q : Req). q.is_chunked) same) ∙ c)))) in
      let (z, runs, all) =
        visit_all-VisitedAll tokens (suc i) reqs y d.1 (omega (arith, h)) later in
      (
        z,
        rw run runs,
        record {
          each = each_of tokens i r reqs x y z d here all;
          kept = λ j m. all.kept j (here.kept j m);
        },
      )
