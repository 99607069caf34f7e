-- ===== src/Scheduler/Queues/Decode.antt =====
-- `_get_decode_batch` of miniinfer/scheduler/scheduler.py, with the check of the memory that the
-- next tokens need and the retraction of requests where there is too little.
use mini_infer.Prelude.{
  ℕ, zero, suc, ◌+◌, ◌*◌, ◌%◌, Bool, true, false, Option, none, some, List, [], ◌∷◌, length, count,
  leb, ◌==◌, if◌then◌else◌, Result, ok, ◌>>=◌,
}
use mini_infer.Prelude.Int.{ℤ, pos, leb_ℤ}
use mini_infer.Scheduler.Req.{retract}
use mini_infer.Scheduler.Batch.{decode, write_req, rebuild_metadata, take_some}
use mini_infer.Scheduler.Queues.{IKvCacheManager, Scheduler}

abbrev pub retract_threshold : ℕ
retract_threshold = 2

-- The tokens that the next decode step may need: a page for each request whose last page is full,
-- or for each request where the lengths are not known.
unfoldable pub needed_tokens : ℕ → Option (List ℕ) → ℕ → ℕ
needed_tokens page_size none bs = bs * page_size
needed_tokens page_size (some seq_lens_cpu) bs =
    count (λ n. n % page_size == 0) seq_lens_cpu * page_size

-- `reqs.pop()`: the last of `r ∷ reqs`, and the others.
abbrev pub pop : ℕ → List ℕ → ℕ × List ℕ
pop r [] = (r, [])
pop r (q ∷ reqs) = let (last, rest) = pop q reqs in (last, r ∷ rest)

-- `if req in xs: xs.remove(req)`
abbrev pub remove_req : ℕ → List ℕ → List ℕ
remove_req req [] = []
remove_req req (r ∷ rest) =
    let others = remove_req req rest in if r == req then rest else r ∷ others

module _ {K R : Type 0} (kv : IKvCacheManager K) where
  -- What is done with a request that has left the running batch.
  unfoldable pub retract_one : ℕ → Scheduler K R → Result (Scheduler K R)
  retract_one req s = kv.release_request true (s.store req) s.kv_cache_mgr >>= (λ released.
      ok (record s {
        pending_release_reqs = remove_req req s.pending_release_reqs;
        kv_cache_mgr = released;
        store = write_req req (retract (s.store req)) s.store;
        waiting_queue = req ∷ s.waiting_queue;
      }))

  abbrev pub with_reqs : List ℕ → Scheduler K R → Scheduler K R
  with_reqs reqs s = record s { running_batch = record s.running_batch { reqs = reqs } }

  -- The tokens that the requests left in the running batch need.
  abbrev pub remaining_needed : Scheduler K R → ℕ
  remaining_needed s =
      let remaining_bs = length s.running_batch.reqs in
      needed_tokens s.page_size (take_some remaining_bs s.running_batch.seq_lens_cpu) remaining_bs

  -- The `while` loop on fuel: the requests taken out so far and what is available, then the state.
  unfoldable pub retract_loop : ℕ → ℕ → ℤ → Scheduler K R → Result (ℕ × Scheduler K R)
  unfolding retract_one
  retract_loop zero retract_count available s = ok (retract_count, s)
  retract_loop (suc fuel) retract_count available s = elim s.running_batch.reqs [
    | [] ↦ ok (retract_count, s)
    | r ∷ reqs ↦
        let (req, rest) = pop r reqs in
        let next = retract_one req (with_reqs rest s) >>= (λ s'.
          retract_loop fuel (retract_count + 1) (kv.available_tokens s'.kv_cache_mgr) s') in
        if leb_ℤ (pos (remaining_needed s)) available then ok (retract_count, s) else next
  ]

  abbrev pub after_retract : ℕ × Scheduler K R → Bool × Scheduler K R
  after_retract (zero, s) = (false, s)
  after_retract (suc n, s) = (
    true,
    record s {
      running_batch = rebuild_metadata s.store s.running_batch;
      num_retracted_reqs = s.num_retracted_reqs + suc n;
    },
  )

  unfoldable pub check_decode_mem : Scheduler K R → Result (Bool × Scheduler K R)
  unfolding retract_loop needed_tokens
  check_decode_mem s = elim s.running_batch.reqs [
    | [] ↦ ok (false, s)
    | r ∷ reqs ↦
        let available = kv.available_tokens s.kv_cache_mgr in
        let bs = length (r ∷ reqs) in
        let retracted = retract_loop bs 0 available s in
        if leb_ℤ (pos (needed_tokens s.page_size s.running_batch.seq_lens_cpu bs)) available
        then ok (false, s)
        else retracted >>= (λ x. ok (after_retract x))
  ]

  -- `grow` and `decay` are the two steps of the ratio, within its bounds.
  abbrev pub count_retract : (R → R) → (R → R) → Bool → Scheduler K R → Scheduler K R
  count_retract grow decay true s = record s {
    num_continuous_retract = s.num_continuous_retract + 1;
    num_continuous_decode_ok = 0;
    new_token_ratio =
        if leb retract_threshold (s.num_continuous_retract + 1)
        then grow s.new_token_ratio
        else s.new_token_ratio;
  }
  count_retract grow decay false s = record s {
    num_continuous_retract = 0;
    num_continuous_decode_ok =
        if leb 5 (s.num_continuous_decode_ok + 1) then 0 else s.num_continuous_decode_ok + 1;
    new_token_ratio =
        if leb 5 (s.num_continuous_decode_ok + 1)
        then decay s.new_token_ratio
        else s.new_token_ratio;
  }

  -- The part behind the check: True in front if there is a batch, which is the running one.
  unfoldable pub prepare_decode : Bool → Scheduler K R → Result (Bool × Scheduler K R)
  prepare_decode skip_decode_input_ids s = elim s.running_batch.reqs [
    | [] ↦ ok (false, s)
    | r ∷ reqs ↦
        kv.prepare_for_decode skip_decode_input_ids s.store s.running_batch s.kv_cache_mgr >>= (λ x.
          ok (
            true,
            record s {
              store = x.0;
              running_batch = record x.1 {
                uses_placeholder = skip_decode_input_ids;
                forward_mode = decode;
              };
              kv_cache_mgr = x.2;
            },
          ))
  ]

  unfoldable pub get_decode_batch :
      (R → R) → (R → R) → Bool → Scheduler K R → Result (Bool × Scheduler K R)
  unfolding check_decode_mem prepare_decode
  get_decode_batch grow decay skip_decode_input_ids s = elim s.running_batch.reqs [
    | [] ↦ ok (false, s)
    | r ∷ reqs ↦
        check_decode_mem s
        >>= (λ x. prepare_decode skip_decode_input_ids (count_retract grow decay x.0 x.1))
  ]
