-- ===== src/Scheduler/Req/Cached.antt =====
-- The cached length and last token of `Req`.
use mini_infer.Prelude.{
  ℕ, ◌+◌, ◌≡◌, refl, ◌⊎◌, inl, none, some, List, [], ◌∷◌, ◌++◌, length, length-append, arith,
}
use mini_infer.Scheduler.Req.{Req, new_req, append_output_token, last_of, get_last_token, retract}

pub record IsCached (r : Req) : Type 0 where
  pub seq_len : r.cached_seq_len ≡ length r.origin_input_ids + length r.output_ids
  pub total : r.total_input_len ≡ length r.origin_input_ids
  pub last_token : (r.cached_last_token ≡ none) ⊎ (r.cached_last_token ≡ last_of r.output_ids)

-- What the program does to a request's output.
pub data Event : Type 0 where
  outputs : ℕ → Event
  reads retracts : Event

unfoldable pub react : Req → Event → Req
react r (outputs t) = append_output_token t r
react r reads = (get_last_token r).1
react r retracts = retract r

unfoldable pub history : Req → List Event → Req
unfolding react
history r [] = r
history r (e ∷ events) = history (react r e) events

last_of-append {ℓ} : {A : Type ℓ} (xs : List A) (x : A) → last_of (xs ++ x ∷ []) ≡ some x
unfolding last_of
last_of-append [] x = refl
last_of-append (y ∷ []) x = refl
last_of-append (y ∷ z ∷ xs) x = last_of-append (z ∷ xs) x

react-IsCached : (r : Req) (e : Event) → IsCached r → IsCached (react r e)
unfolding react append_output_token get_last_token retract
react-IsCached r (outputs t) h = record {
  seq_len = omega (arith, h.seq_len, length-append r.output_ids (t ∷ []));
  total = h.total;
  last_token = ground (arith, last_of-append r.output_ids t);
}
react-IsCached r reads h = ground (arith, h.seq_len, h.total, h.last_token)
react-IsCached r retracts h = record {
  seq_len = omega arith;
  total = h.total;
  last_token = inl refl;
}

history-IsCached : (r : Req) (events : List Event) → IsCached r → IsCached (history r events)
unfolding history
history-IsCached r [] h = h
history-IsCached r (e ∷ events) h = history-IsCached (react r e) events (react-IsCached r e h)

-- Whatever tokens are appended, reads made and retractions, a request's cached length is that of its
-- input and output together, its total input length that of its input, and the last token that it
-- reports is the last of its output, or none if there is no output.
pub last_token-history :
    (id : ℕ) (token_ids : List ℕ) (max_tokens : ℕ) (events : List Event)
    → let r = history (new_req id token_ids max_tokens) events in
      (r.cached_seq_len ≡ length r.origin_input_ids + length r.output_ids)
      × (r.total_input_len ≡ length r.origin_input_ids)
      × ((get_last_token r).0 ≡ last_of r.output_ids)
unfolding get_last_token
last_token-history id token_ids max_tokens events =
    let r = history (new_req id token_ids max_tokens) events in
    let h : IsCached r =
      history-IsCached (new_req id token_ids max_tokens) events
        (unfold new_req in record { seq_len = omega arith; total = refl; last_token = inl refl }) in
    (h.seq_len, h.total, ground (arith, h.last_token))
