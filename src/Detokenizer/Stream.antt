-- ===== src/Detokenizer/Stream.antt =====
-- Sequences of `decode` calls of detokenizer.py, and the deltas that come for a request.
use mini_infer.Prelude.{
  ℕ, ◌≡◌, ◌≢◌, refl, sym, ap, ◌∙◌, subst, Bool, true, false, Option, some, List, [], ◌∷◌, ◌++◌,
  arith, ◌==◌, ==_iff, if◌then◌else◌, if_of_false, take, inl, inr, Bool-cases, ℕ_discrete,
}
use mathlib.Core.List.{append-nil, append_assoc}
use mini_infer.Detokenizer.{
  Tokenizer, DecodeState, Decoder, new_decoder, find, put, state_or_new, get_or_create_state,
  decode_text, decode_with_cache, advance, incremental_decode, decode_token, decode, is_empty,
  is_token, or_else,
}
use mini_infer.Detokenizer.Text.{safe_len}
use mini_infer.Detokenizer.Cache.{
  NoCollision, IsCached, decode_with_cache_lem, states-IsCached, new_decoder-IsCached,
}
use mini_infer.Detokenizer.Advance.{
  IsStable, IsStreaming, ids, pushed, advance-IsStreaming, advance_last, advance-token_ids,
}

abbrev pub state_of : ℕ → Decoder → DecodeState
state_of req_id d = state_or_new (find req_id d.states)

-- `decode` on requests and tokens in any order, and what it outputs for one of the requests.
unfoldable pub emitted : Tokenizer → Option ℕ → ℕ → List (ℕ × ℕ) → Decoder → List ℕ
unfolding decode
emitted t eos req_id [] d = []
emitted t eos req_id ((q, x) ∷ calls) d =
    let (r, d') = decode t q x eos d in
    let rest = emitted t eos req_id calls d' in if q == req_id then r.0 ++ rest else rest

-- The sequences that these calls decode are all in a set.
unfoldable pub AllUsed : (List ℕ → Type 0) → Tokenizer → Option ℕ → List (ℕ × ℕ) → Decoder → Type 0
unfolding decode
AllUsed used t eos [] d = Unit
AllUsed used t eos ((q, x) ∷ calls) d =
    used ((state_of q d).token_ids ++ x ∷ []) × AllUsed used t eos calls (decode t q x eos d).1

abbrev pub tokens_of : ℕ → List (ℕ × ℕ) → List ℕ
tokens_of req_id [] = []
tokens_of req_id ((q, x) ∷ calls) =
    let rest = tokens_of req_id calls in if q == req_id then x ∷ rest else rest

-- What a reader has seen once `xs` follow `ids`: the text up to its safe end, or all of it, up to
-- the first end token.
unfoldable pub shown : (List ℕ → List ℕ) → (ℕ → Bool) → List ℕ → List ℕ → List ℕ
shown text is_eos ids [] = take (safe_len (text ids)) (text ids)
shown text is_eos ids (x ∷ xs) =
    let rest = shown text is_eos (ids ++ x ∷ []) xs in
    if is_eos x then text (ids ++ x ∷ []) else rest

find-put :
    (k : ℕ) (s : DecodeState) (entries : List (ℕ × DecodeState)) → find k (put k s entries) ≡ some s
unfolding find put
find-put k s [] = ground arith
find-put k s ((j, w) ∷ entries) = ground (arith, find-put k s entries)

find-put_other :
    (k q : ℕ) (s : DecodeState) (entries : List (ℕ × DecodeState))
    → q ≢ k
    → find k (put q s entries) ≡ find k entries
unfolding find put
find-put_other k q s [] n = ground arith
find-put_other k q s ((j, w) ∷ entries) n = ground (arith, find-put_other k q s entries n)

is_empty-append : (xs : List ℕ) (x : ℕ) → is_empty (xs ++ x ∷ []) ≡ false
is_empty-append [] x = refl
is_empty-append (y ∷ xs) x = refl

-- One call of `decode`: what it returns, and what it does to the states.
record Decoded (t : Tokenizer) (used : List ℕ → Type 0) (text : List ℕ → List ℕ) (is_eos : Bool)
    (q x : ℕ) (d : Decoder) (r : (List ℕ × Bool) × Decoder) : Type 0 where
  cached : IsCached t used text r.1
  others : (k : ℕ) → q ≢ k → find k r.1.states ≡ find k d.states
  stopped : (state_of q d).finished ≡ true → (r.0.0 ≡ []) × (state_of q r.1 ≡ state_of q d)
  advanced :
      (state_of q d).finished ≡ false
      → let s = state_of q d in
        let ids = s.token_ids ++ x ∷ [] in
        let (delta, s') = advance is_eos (text ids) (record s { token_ids = ids; dirty = true }) in
        (r.0.0 ≡ delta)
        × (state_of q r.1 ≡ record s' { finished = if is_eos then true else s'.finished })

module _ (t : Tokenizer) (used : List ℕ → Type 0) (text : List ℕ → List ℕ) (n : NoCollision t used)
    (eos : Option ℕ) where
  abbrev ends : ℕ → Bool
  ends x = is_token x (or_else eos t.eos_token_id)

  decode_lem :
      (q x : ℕ) (d : Decoder)
      → used ((state_of q d).token_ids ++ x ∷ [])
      → IsCached t used text d
      → Decoded t used text (ends x) q x d (decode t q x eos d)
  unfolding decode get_or_create_state incremental_decode
  decode_lem q x d u h = elim (Bool-cases (state_of q d).finished) [
    | inl f ↦ rw f (record {
      cached = states-IsCached t used text n (put q (state_of q d) d.states) d h;
      others = λ k m. find-put_other k q (state_of q d) d.states m;
      stopped = λ e. (refl, ap state_or_new (find-put q (state_of q d) d.states));
      advanced = λ e. cc;
    })
    | inr f ↦
        let s = state_of q d in
        let ids = s.token_ids ++ x ∷ [] in
        let d1 = record d { states = put q s d.states } in
        let (e, c, st) =
          decode_with_cache_lem t used text n ids d1 u
            (states-IsCached t used text n (put q s d.states) d h) in
        let w = (decode_with_cache t ids d1).1 in
        subst (Decoded t used text (ends x) q x d)
          (sym (if_of_false (([], true), d1) (decode_token t q x (ends x) s d1) f))
          (rw (is_empty-append s.token_ids x, e)
            (record {
              cached = states-IsCached t used text n _ w c;
              others = λ k m.
                  find-put_other k q _ w.states m
                  ∙ ap (find k) st
                  ∙ find-put_other k q s d.states m;
              stopped = λ e. cc;
              advanced = λ e. (refl, ap state_or_new (find-put q _ w.states));
            }))
  ]

  -- A finished request outputs nothing more.
  emitted_stopped :
      (req_id : ℕ) (calls : List (ℕ × ℕ)) (d : Decoder)
      → AllUsed used t eos calls d
      → IsCached t used text d
      → (state_of req_id d).finished ≡ true
      → emitted t eos req_id calls d ≡ []
  unfolding emitted AllUsed
  emitted_stopped req_id [] d u h f = refl
  emitted_stopped req_id ((q, x) ∷ calls) d (u, us) h f =
      let one = decode_lem q x d u h in
      elim (ℕ_discrete q req_id) [
        | yes e ↦
            let (silent, same) = one.stopped (ap (λ k. (state_of k d).finished) e ∙ f) in
            let f' =
              ap (λ k. (state_of k (decode t q x eos d).1).finished) (sym e)
              ∙ ap (λ (s : DecodeState). s.finished) same
              ∙ ap (λ k. (state_of k d).finished) e
              ∙ f in
            rw ((==_iff q req_id).1 e, silent) (emitted_stopped req_id calls _ us one.cached f')
        | no n ↦
            let f' = ap (λ o. (state_or_new o).finished) (one.others req_id n) ∙ f in
            let c : (q == req_id) ≡ false = ground arith in
            rw c (emitted_stopped req_id calls _ us one.cached f')
      ]

  own_call :
      (stable : IsStable text) (req_id x : ℕ) (xs : List ℕ) (d : Decoder)
      (r : (List ℕ × Bool) × Decoder) (rest : List ℕ)
      → Decoded t used text (ends x) req_id x d r
      → IsStreaming text (state_of req_id d)
      → ((state_of req_id r.1).finished ≡ true → rest ≡ [])
      → (IsStreaming text (state_of req_id r.1)
          → (state_of req_id r.1).output_text ++ rest
            ≡ shown text ends (state_of req_id r.1).token_ids xs)
      → (state_of req_id d).output_text ++ (r.0.0 ++ rest)
        ≡ shown text ends (state_of req_id d).token_ids (x ∷ xs)
  unfolding shown
  own_call stable req_id x xs d r rest one k stop go =
      let s = state_of req_id d in
      let (delta, same) = one.advanced k.running in
      elim (Bool-cases (ends x)) [
        | inl c ↦
            let silent : rest ≡ [] = stop (rw c at (ap (λ (w : DecodeState). w.finished) same)) in
            let d' : r.0.0
                ≡ (advance true (text (ids text stable s k x)) (pushed text stable s k x)).0 =
              rw c at delta in
            rw (c, silent, append-nil r.0.0, d') (advance_last text stable s k x)
        | inr c ↦
            let d' : r.0.0
                ≡ (advance false (text (ids text stable s k x)) (pushed text stable s k x)).0 =
              rw c at delta in
            let same' : state_of req_id r.1
                ≡ (advance false (text (ids text stable s k x)) (pushed text stable s k x)).1 =
              rw c at same in
            let (streaming, out) = advance-IsStreaming text stable s k x in
            let a = (advance false (text (ids text stable s k x)) (pushed text stable s k x)).1 in
            let g = go (subst (IsStreaming text) (sym same') streaming) in
            rw c (
              sym (append_assoc s.output_text r.0.0 rest)
              ∙ ap (λ l. l ++ rest)
                  (ap (λ l. s.output_text ++ l) d'
                    ∙ out
                    ∙ ap (λ (w : DecodeState). w.output_text) (sym same'))
              ∙ g
              ∙ ap (λ l. shown text ends l xs)
                  (ap (λ (w : DecodeState). w.token_ids) same'
                    ∙ advance-token_ids (text (ids text stable s k x)) (pushed text stable s k x)))
      ]

  emitted_running :
      (stable : IsStable text) (req_id : ℕ) (calls : List (ℕ × ℕ)) (d : Decoder)
      → AllUsed used t eos calls d
      → IsCached t used text d
      → IsStreaming text (state_of req_id d)
      → (state_of req_id d).output_text ++ emitted t eos req_id calls d
        ≡ shown text ends (state_of req_id d).token_ids (tokens_of req_id calls)
  unfolding emitted AllUsed shown
  emitted_running stable req_id [] d u h k =
      append-nil _ ∙ k.output ∙ ap (λ n. take n (text (state_of req_id d).token_ids)) k.offset
  emitted_running stable req_id ((q, x) ∷ calls) d (u, us) h k =
      let one = decode_lem q x d u h in
      elim (ℕ_discrete q req_id) [
        | yes e ↦
            let u' = subst (λ m. used ((state_of m d).token_ids ++ x ∷ [])) e u in
            let us' = subst (λ m. AllUsed used t eos calls (decode t m x eos d).1) e us in
            let mine = decode_lem req_id x d u' h in
            rw (e, (==_iff req_id req_id).1 refl)
              (own_call stable req_id x (tokens_of req_id calls) d (decode t req_id x eos d) _ mine
                k (emitted_stopped req_id calls _ us' mine.cached)
                (emitted_running stable req_id calls _ us' mine.cached))
        | no n ↦
            let same : state_of req_id (decode t q x eos d).1 ≡ state_of req_id d =
              ap state_or_new (one.others req_id n) in
            let c : (q == req_id) ≡ false = ground arith in
            rw c (
              rw same at (
                emitted_running stable req_id calls _ us one.cached
                  (subst (IsStreaming text) (sym same) k)))
      ]

-- On a new decoder, calls of `decode` for any requests in any order: the deltas that come for a
-- request, put together, are its text up to the trailing replacement characters, or the whole text
-- to the first end token once there is one, and nothing after that. The conditions are that a
-- further token leaves the text before the trailing replacement characters as it is, and that no two
-- of the decoded sequences have the same hash and differ.
pub emitted-new_decoder :
    (t : Tokenizer) (used : List ℕ → Type 0) (skip : Bool) (clean : Option Bool) (eos : Option ℕ)
    (req_id : ℕ) (calls : List (ℕ × ℕ))
    → NoCollision t used
    → IsStable (decode_text t (new_decoder skip clean))
    → AllUsed used t eos calls (new_decoder skip clean)
    → emitted t eos req_id calls (new_decoder skip clean)
      ≡ shown
          (decode_text t (new_decoder skip clean))
          (λ x. is_token x (or_else eos t.eos_token_id))
          []
          (tokens_of req_id calls)
emitted-new_decoder t used skip clean eos req_id calls n stable u =
    let text = decode_text t (new_decoder skip clean) in
    let h = new_decoder-IsCached t used skip clean in
    unfold new_decoder find in
    emitted_running t used text n eos stable req_id calls (new_decoder skip clean) u h
      (record { running = refl; offset = ap safe_len (sym stable.nothing); output = refl })
