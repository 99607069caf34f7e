-- ===== src/Scheduler/Adder/Outcome.antt =====
-- The results of `try_add_prefill`.
use mini_infer.Prelude.{
  ℕ, suc, ◌+◌, ◌<◌, ◌≡◌, refl, inl, inr, Bool, true, false, ◌&&◌, Option, none, some, [], ◌∷◌, ◌++◌,
  length, arith, ltb, ◌==◌, if_both, Bool-cases,
}
use mini_infer.Prelude.Int.{ℤ, pos, negsuc, pos_part, leb_ℤ, ltb_ℤ, floor_to, ◌≤ℤ◌}
use mini_infer.Scheduler.Req.{Req}
use mini_infer.Scheduler.Adder.{
  PrefillAdder, AddReqResult, continue, no_token, other, ceil_paged_tokens, update_prefill_budget,
  Added, do_chunked_prefill, limited_len, as_no_token, add_cut, chunk_fits, chunk_limit,
  add_within_budget, add_over_budget, try_add_prefill, run_chunk, rem_total_tokens, clipped_rest,
  total_reqs,
}

-- The request joins the batch as the last one, with some tokens, and there was room for it.
pub record Joined (a : PrefillAdder) (r : Req) (b : PrefillAdder) : Type 0 where
  pub list : b.can_run_list ≡ a.can_run_list ++ r ∷ []
  pub tokens : 0 < r.extend_input_len
  pub room : pos (suc (length a.can_run_list)) ≤ℤ a.max_batch_size

-- What is true of an outcome for a request with tokens.
abbrev pub Told : Req → PrefillAdder → AddReqResult → Req → PrefillAdder → Type 0
Told req a continue r b = Joined a r b
Told req a no_token r b = (r ≡ req) × (b ≡ a)
Told req a other r b = (r ≡ req) × (b ≡ a)

abbrev pub ToldOf : Req → PrefillAdder → Added → Type 0
ToldOf req a (x, r, b) = Told req a x r b

positive : (z : ℤ) → leb_ℤ z (pos 0) ≡ false → 0 < pos_part z
positive (pos n) c = ground arith
positive (negsuc n) c = ground arith

below : (z : ℤ) (n : ℕ) → leb_ℤ z (pos n) ≡ false → pos (suc n) ≤ℤ z
below (pos m) n c = ground arith
below (negsuc m) n c = ground arith

module _ (a : PrefillAdder) (req : Req)
    (room : pos (suc (length a.can_run_list)) ≤ℤ a.max_batch_size) where
  run_chunk-Joined :
      (c : Bool) (len : ℕ)
      → 0 < len
      → Joined a (run_chunk c req len req.max_tokens a).0 (run_chunk c req len req.max_tokens a).1
  unfolding run_chunk update_prefill_budget
  run_chunk-Joined true len p = record { list = refl; tokens = p; room = room }
  run_chunk-Joined false len p = record { list = refl; tokens = p; room = room }

  do_chunked-Told : (z : ℤ) (n : ℕ) → ToldOf req a (do_chunked_prefill req z n req.max_tokens a)
  unfolding do_chunked_prefill
  do_chunked-Told z n = elim (Bool-cases (leb_ℤ z (pos 0))) [
    | inl c ↦ rw c (refl, refl)
    | inr c ↦ rw c (run_chunk-Joined (ltb (pos_part z) n) (pos_part z) (positive z c))
  ]

  as_no_token-Told : (x : Added) → ToldOf req a x → ToldOf req a (as_no_token x)
  as_no_token-Told (continue, r, b) k = k
  as_no_token-Told (no_token, r, b) k = k
  as_no_token-Told (other, r, b) k = k

  cut-Told : (z : Option ℤ) (n : ℕ) → ToldOf req a (add_cut z req n a)
  cut-Told none n = (refl, refl)
  cut-Told (some z) n =
      as_no_token-Told (do_chunked_prefill req z n req.max_tokens a) (do_chunked-Told z n)

  over-Told : (z : Option ℤ) (n : ℕ) → ToldOf req a (add_over_budget z req n a)
  over-Told none n = (refl, refl)
  over-Told (some z) n = cut-Told (limited_len n z a) n

  within-Told :
      0 < req.extend_input_len → ToldOf req a (add_within_budget req req.extend_input_len a)
  unfolding add_within_budget update_prefill_budget
  within-Told p =
      if_both (ToldOf req a)
        (leb_ℤ a.rem_input_tokens (pos (ceil_paged_tokens req.extend_input_len a))
          && ltb 0 (total_reqs a))
        (refl, refl)
        (if_both (ToldOf req a)
          (chunk_fits a.rem_chunk_tokens (ceil_paged_tokens req.extend_input_len a))
          (record { list = refl; tokens = p; room = room })
          (do_chunked-Told (floor_to a.page_size (chunk_limit a.rem_chunk_tokens))
            req.extend_input_len))

-- For a request with tokens to extend, `try_add_prefill` reports CONTINUE only if the request, with
-- some tokens, is now the last of a batch that had room for it, and any other result only if neither
-- the request nor the adder has changed.
pub try_add_prefill-Told :
    (req : Req) (a : PrefillAdder)
    → 0 < req.extend_input_len
    → let (x, r, b) = try_add_prefill req a in Told req a x r b
unfolding try_add_prefill
try_add_prefill-Told req a p = elim (Bool-cases (leb_ℤ a.max_batch_size (pos (total_reqs a)))) [
  | inl c ↦ rw c (refl, refl)
  | inr c ↦
      let room = below a.max_batch_size (total_reqs a) c in
      let some_tokens : (req.extend_input_len == 0) ≡ false = ground arith in
      rw (c, some_tokens)
        (if_both (ToldOf req a)
          (ltb_ℤ (rem_total_tokens a) (pos (req.extend_input_len + clipped_rest req)))
          (over-Told a req room a.rem_chunk_tokens req.extend_input_len) (within-Told a req room p))
]
