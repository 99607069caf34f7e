-- ===== src/Scheduler/Queues/Release.antt =====
-- `_handle_finished_requests` and `drain_pending_releases` of miniinfer/scheduler/scheduler.py.
use mini_infer.Prelude.{
  ℕ, Bool, true, false, Option, none, some, List, [], ◌∷◌, ◌++◌, length, take, drop, filter, ◌==◌,
  ◌||◌, if◌then◌else◌, Result, ok, err, assertion_error, ◌>>=◌,
}
use mini_infer.Prelude.Int.{ℤ, pos, leb_ℤ, pos_part}
use mini_infer.Scheduler.Batch.{Store, write_req}
use mini_infer.Scheduler.Queues.{IKvCacheManager, Scheduler}

abbrev pub is_in : ℕ → List ℕ → Bool
is_in x [] = false
is_in x (y ∷ ys) = x == y || is_in x ys

-- `max_reqs is None or max_reqs <= 0`
abbrev pub no_cap : Option ℤ → Bool
no_cap none = true
no_cap (some z) = leb_ℤ z (pos 0)

abbrev pub cap_of : Option ℤ → ℕ
cap_of none = 0
cap_of (some z) = pos_part z

module _ {K R : Type 0} where
  unfoldable pub handle_finished_requests : List ℕ → List ℕ → Scheduler K R → Scheduler K R
  handle_finished_requests reqs finished_req_ids s =
      let done = filter (λ r. is_in (s.store r).req_id finished_req_ids) reqs in
      record s {
        pending_release_reqs = s.pending_release_reqs ++ done;
        finished_reqs = s.finished_reqs ++ done;
      }

-- `if req.req_pool_idx != -1`
abbrev pub has_row : Option ℕ → Bool
has_row none = false
has_row (some i) = true

module _ {K : Type 0} (kv : IKvCacheManager K) where
  -- One request released: the manager, and the store with its row gone.
  unfoldable pub release_pending : ℕ → Store → K → Result (Store × K)
  release_pending r store k =
      let next =
        kv.update_finished_req_radix_cache (store r) k
        >>= (λ k'. ok (write_req r (record (store r) { req_pool_idx = none }) store, k')) in
      if has_row (store r).req_pool_idx then next else err assertion_error

  unfoldable pub release_all : List ℕ → Store → K → Result (Store × K)
  unfolding release_pending
  release_all [] store k = ok (store, k)
  release_all (r ∷ reqs) store k = release_pending r store k >>= (λ x. release_all reqs x.0 x.1)

-- The requests to release and those that stay.
abbrev pub drain_split : Option ℤ → List ℕ → List ℕ × List ℕ
drain_split max_reqs pending =
    if no_cap max_reqs
    then (pending, [])
    else (take (cap_of max_reqs) pending, drop (cap_of max_reqs) pending)

module _ {K R : Type 0} (kv : IKvCacheManager K) where
  -- The release in one group of frees, where the allocator can group them.
  abbrev pub drain_some : Bool → List ℕ × List ℕ → Scheduler K R → Result (ℕ × Scheduler K R)
  drain_some free_group (to_release, pending) s =
      let start = if free_group then kv.begin_free_group s.kv_cache_mgr else s.kv_cache_mgr in
      release_all kv to_release s.store start >>= (λ x. ok (
        length to_release,
        record s {
          pending_release_reqs = pending;
          store = x.0;
          kv_cache_mgr = if free_group then kv.end_free_group x.1 else x.1;
        },
      ))

  unfoldable pub drain_pending_releases :
      Bool → Option ℤ → Scheduler K R → Result (ℕ × Scheduler K R)
  unfolding release_all
  drain_pending_releases free_group max_reqs s = elim s.pending_release_reqs [
    | [] ↦ ok (0, s)
    | r ∷ reqs ↦ drain_some free_group (drain_split max_reqs (r ∷ reqs)) s
  ]
