-- ===== src/Engine/Visit.antt =====
-- One round of the first loop of `_process_step_result` of miniinfer/engine/llm_engine.py.
use mathlib.Core.List.{append-nil}
use mini_infer.Prelude.{
  ℕ, suc, ◌≡◌, ◌≢◌, ◌⊎◌, ◌<◌, ◌≤◌, inl, inr, refl, sym, ap, ◌∙◌, subst, Bool, true, false, ◌||◌,
  Option, none, some, List, [], ◌∷◌, ◌++◌, map, length, get_elem?, ◌==◌, if◌then◌else◌, Elem, arith,
  Bool-cases, if_of_true, if_of_false, Result, ok, append-Elem_left, append-Elem_right,
}
use mini_infer.Scheduler.Req.{Req, append_output_token}
use mini_infer.Scheduler.Batch.{Store, write_req}
use mini_infer.Scheduler.Queues.Pop.{write_req_ne, write_req_self}
use mini_infer.Engine.{
  IChunkCache, IDetokenizer, Sorting, chunk_done, drop_token, take_token, visit,
}

-- A request that gets no token.
abbrev pub stopped : Req → Bool
stopped req = req.is_chunked || req.finished || req.is_retracted

-- What a request gets where the entry of the tokens at its position is `o`.
abbrev pub token_of : Req → Option ℕ → List ℕ
token_of req none = []
token_of req (some t) = if stopped req then [] else t ∷ []

-- What the request `j` gets, with the positions counted from `i`.
unfoldable pub gets : Store → List ℕ → ℕ → List ℕ → ℕ → List ℕ
gets s tokens i [] j = []
gets s tokens i (r ∷ reqs) j =
    let rest = gets s tokens (suc i) reqs j in
    if r == j then token_of (s r) (get_elem? tokens i) else rest

-- At most as many tokens as it may have; fewer, or it is finished.
abbrev pub WithinMax : Req → Type 0
WithinMax req =
    (length req.output_ids ≤ req.max_tokens)
    × ((req.finished ≡ true) ⊎ (length req.output_ids < req.max_tokens))

abbrev pub listed : List (ℕ × ℕ) → List ℕ
listed = map (λ a. a.0)

pub listed_snoc :
    (xs : List (ℕ × ℕ)) (a : ℕ × ℕ) → listed (xs ++ (a ∷ [])) ≡ listed xs ++ (a.0 ∷ [])
listed_snoc [] a = refl
listed_snoc (x ∷ xs) a = ap (◌∷◌ x.0) (listed_snoc xs a)

-- From one state of a request to another: `more` is added to its output, and it stands in the list
-- of those that got something if so.
pub record Given (more : List ℕ) (listed_now : Type 0) (req req' : Req) : Type 0 where
  pub output : req'.output_ids ≡ req.output_ids ++ more
  pub most : req'.max_tokens ≡ req.max_tokens
  pub done : req'.finished ≡ req.finished
  pub named : (more ≡ []) ⊎ ((req.finished ≡ false) × listed_now × (length more ≡ 1))

pub not_same : (r j : ℕ) → r ≢ j → (r == j) ≡ false
not_same r j h = ground (arith, h)

pub same_id : (r : ℕ) → (r == r) ≡ true
same_id r = ground arith

module _ {K D : Type 0} (cache : IChunkCache K) (dt : IDetokenizer D) {Ready : Req → K → Type 0}
    (total : (req : Req) (k : K)
      → Ready req k
      → (u : Req × K) × (cache.update_unfinished_req_radix_cache req k ≡ ok u)
        × (u.0.output_ids ≡ req.output_ids)
        × (u.0.max_tokens ≡ req.max_tokens)
        × (u.0.finished ≡ req.finished)
        × ((q : Req) → Ready q k → Ready q (cache.free_row u.0.req_pool_idx u.1))) where
  -- One round, for the request at hand and for the others.
  pub record Visited (tokens : List ℕ) (i r : ℕ) (x y : Sorting K D) : Type 0 where
    pub own :
        Given
          (token_of (x.store r) (get_elem? tokens i))
          (Elem r (listed y.active))
          (x.store r)
          (y.store r)
    pub others : (j : ℕ) → r ≢ j → y.store j ≡ x.store j
    pub kept : (j : ℕ) → Elem j (listed x.active) → Elem j (listed y.active)
    pub ready : (q : Req) → Ready q x.manager → Ready q y.manager

  -- A request in a state `req'` that its round wrote.
  own_of :
      (req req' now : Req) (o : Option ℕ) (more : List ℕ) (L : Type 0)
      → token_of req o ≡ more
      → now ≡ req'
      → Given more L req req'
      → Given (token_of req o) L req now
  own_of req req' now o more L e w g =
      subst (λ (m : List ℕ). Given m L req now) (sym e)
        (subst (λ (q : Req). Given more L req q) (sym w) g)

  pub same_Given : (req : Req) (L : Type 0) → Given [] L req req
  same_Given req L = record {
    output = sym (append-nil req.output_ids);
    most = refl;
    done = refl;
    named = inl refl;
  }

  abbrev pub Round : List ℕ → ℕ → ℕ → Sorting K D → Result (Sorting K D) → Type 0
  Round tokens i r x result = (y : Sorting K D) × (result ≡ ok y) × Visited tokens i r x y

  none_of :
      (tokens : List ℕ) (i r t : ℕ) (x : Sorting K D)
      → get_elem? tokens i ≡ some t
      → stopped (x.store r) ≡ true
      → token_of (x.store r) (get_elem? tokens i) ≡ []
  none_of tokens i r t x e s = ap (token_of (x.store r)) e ∙ if_of_true _ _ s

  chunk_done-Round :
      (tokens : List ℕ) (i r t : ℕ) (x : Sorting K D)
      → get_elem? tokens i ≡ some t
      → stopped (x.store r) ≡ true
      → Ready (x.store r) x.manager
      → Round tokens i r x (chunk_done cache dt r x)
  chunk_done-Round tokens i r t x e s can =
      let (u, run, out, most, done, ready) = total (x.store r) x.manager can in
      let req : Req = record u.0 {
        fill_ids = u.0.origin_input_ids ++ u.0.output_ids;
        req_pool_idx = none;
      } in
      (
        record x { store = write_req r req x.store; manager = cache.free_row u.0.req_pool_idx u.1 },
        rw run refl,
        record {
          own =
              own_of (x.store r) req _ (get_elem? tokens i) [] _ (none_of tokens i r t x e s)
                (write_req_self r req x.store)
                (record {
                  output = out ∙ sym (append-nil (x.store r).output_ids);
                  most = most;
                  done = done;
                  named = inl refl;
                });
          others = λ j n. write_req_ne r req x.store j n;
          kept = λ j m. m;
          ready = ready;
        },
      )

  drop_token-Round :
      (tokens : List ℕ) (i r t : ℕ) (x : Sorting K D)
      → get_elem? tokens i ≡ some t
      → stopped (x.store r) ≡ true
      → Round tokens i r x (ok (drop_token cache dt r x))
  drop_token-Round tokens i r t x e s =
      let req : Req = record (x.store r) { is_retracted = false } in
      (
        drop_token cache dt r x,
        refl,
        record {
          own =
              own_of (x.store r) req _ (get_elem? tokens i) [] _ (none_of tokens i r t x e s)
                (write_req_self r req x.store)
                (record {
                  output = sym (append-nil (x.store r).output_ids);
                  most = refl;
                  done = refl;
                  named = inl refl;
                });
          others = λ j n. write_req_ne r req x.store j n;
          kept = λ j m. m;
          ready = λ q m. m;
        },
      )

  take_token-Round :
      (tokens : List ℕ) (i r t : ℕ) (x : Sorting K D)
      → get_elem? tokens i ≡ some t
      → stopped (x.store r) ≡ false
      → (x.store r).finished ≡ false
      → Round tokens i r x (take_token cache dt r (get_elem? tokens i) x)
  unfolding append_output_token
  take_token-Round tokens i r t x e s f =
      let req : Req = append_output_token t (x.store r) in
      let y : Sorting K D = record x {
        store = write_req r req x.store;
        active = x.active ++ (r, t) ∷ [];
      } in
      let names = listed_snoc x.active (r, t) in
      (
        y,
        ap (λ (o : Option ℕ). take_token cache dt r o x) e,
        record {
          own =
              own_of (x.store r) req _ (get_elem? tokens i) (t ∷ []) _
                (ap (token_of (x.store r)) e ∙ if_of_false _ _ s) (write_req_self r req x.store)
                (record {
                  output = refl;
                  most = refl;
                  done = refl;
                  named = inr (
                    f,
                    subst (Elem r) (sym names)
                        (append-Elem_right r (listed x.active) (r ∷ []) (inl refl)),
                    refl,
                  );
                });
          others = λ j n. write_req_ne r req x.store j n;
          kept =
              λ j m. subst (Elem j) (sym names) (append-Elem_left j (listed x.active) (r ∷ []) m);
          ready = λ q m. m;
        },
      )

  pub visit-Visited :
      (tokens : List ℕ) (i r t : ℕ) (x : Sorting K D)
      → get_elem? tokens i ≡ some t
      → ((x.store r).is_chunked ≡ true → Ready (x.store r) x.manager)
      → Round tokens i r x (visit cache dt tokens i r x)
  unfolding visit
  visit-Visited tokens i r t x e can = elim (Bool-cases (x.store r).is_chunked) [
    | inl c ↦
        subst (Round tokens i r x) (sym (if_of_true _ _ c))
          (chunk_done-Round tokens i r t x e (ground (arith, c)) (can c))
    | inr c ↦ elim (Bool-cases (x.store r).finished) [
      | inl f ↦ subst (Round tokens i r x) (sym (if_of_false _ _ c ∙ if_of_true _ _ f)) (
        x,
        refl,
        record {
          own =
              own_of (x.store r) (x.store r) _ (get_elem? tokens i) [] _
                (none_of tokens i r t x e (ground (arith, f))) refl (same_Given (x.store r) _);
          others = λ j n. refl;
          kept = λ j m. m;
          ready = λ q m. m;
        },
      )
      | inr f ↦ elim (Bool-cases (x.store r).is_retracted) [
        | inl d ↦
            subst (Round tokens i r x)
              (sym (if_of_false _ _ c ∙ if_of_false _ _ f ∙ if_of_true _ _ d))
              (drop_token-Round tokens i r t x e (ground (arith, d)))
        | inr d ↦
            subst (Round tokens i r x)
              (sym (if_of_false _ _ c ∙ if_of_false _ _ f ∙ if_of_false _ _ d))
              (take_token-Round tokens i r t x e (ground (arith, c, f, d)) f)
      ]
    ]
  ]
