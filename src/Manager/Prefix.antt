-- ===== src/Manager/Prefix.antt =====
-- What `prefix_for_waiting_req` of kv_cache_manager.py gives a request.
use mini_infer.Prelude.{
  ℕ, ◌+◌, ◌-◌, ◌<◌, ◌≡◌, refl, ap, ◌∙◌, ◌++◌, some, length, take, length-take, arith, ok,
  if_of_true, ok-injective, sym, subst,
}
use mini_infer.Prelude.Int.{ℤ}
use mini_infer.Radix.Cache.{RadixCache, match_prefix}
use mini_infer.Radix.Lock.{inc_held, inc_lock_ref, dec_lock_ref}
use mini_infer.Radix.Unlock.{dec_lock_ref-inc_lock_ref}
use mini_infer.Radix.Lookup.{WfCache, lookup, match_prefix-lookup}
use mini_infer.Radix.Held.{held-WfCache}
use mini_infer.Radix.Ends.{match_prefix-Held}
use mini_infer.Radix.Store.{lookup-le}
use mini_infer.Radix.Evict.{ITokenAllocator}
use mini_infer.Scheduler.Req.{Req}
use mini_infer.Manager.{IRequestPool, KvCacheManager, prefix_for_waiting_req}

-- A waiting request with a token gets the slots that the cache has for all its tokens but the last.
-- They are its prefix and protected, and the rest of its tokens, one at least, are left to compute.
-- The request holds the node that `match_prefix` ends at, which is locked once more: to release it
-- raises nothing and gives back the cache that `match_prefix` left. The cache stays well formed, and
-- nothing else of the manager changes.
pub prefix_for_waiting_req-Prefix :
    {A P : Type 0} (al : ITokenAllocator A) (pool : IRequestPool P) (time : ℕ) (req : Req)
    (m : KvCacheManager A P) (cache : RadixCache)
    → m.prefix_cache ≡ some cache
    → WfCache cache
    → 0 < length (req.origin_input_ids ++ req.output_ids)
    → let fill_ids = req.origin_input_ids ++ req.output_ids in
      let ids = take (length fill_ids - 1) fill_ids in
      let matched = match_prefix time cache ids in
      let r = prefix_for_waiting_req al pool time req m in
      (after : RadixCache) × (moved : ℤ) × (freed : ℤ) × (r.0.fill_ids ≡ fill_ids)
      × (r.0.prefix_indices ≡ lookup cache ids)
      × (r.0.cache_protected_len ≡ length r.0.prefix_indices)
      × (0 < r.0.extend_input_len)
      × (length r.0.prefix_indices + r.0.extend_input_len ≡ length fill_ids)
      × (r.0.last_node ≡ some matched.1)
      × (r.1 ≡ record m { prefix_cache = some after })
      × (inc_lock_ref matched.2 matched.1 ≡ ok (moved, after))
      × (dec_lock_ref after matched.1 ≡ ok (freed, matched.2))
      × WfCache after
unfolding prefix_for_waiting_req inc_lock_ref
prefix_for_waiting_req-Prefix al pool time req m cache c w h =
    let fill_ids = req.origin_input_ids ++ req.output_ids in
    let ids = take (length fill_ids - 1) fill_ids in
    let found = match_prefix-lookup time cache ids w in
    let (kv_indices, at, matched) = match_prefix time cache ids in
    let there = match_prefix-Held time cache ids in
    let (locked, freed, inc, dec, z) = dec_lock_ref-inc_lock_ref matched at there in
    let same : locked ≡ inc_held matched at = ok-injective (sym inc ∙ if_of_true _ _ there) in
    let short : length kv_indices < length fill_ids = omega (
      arith,
      lookup-le cache ids w,
      length-take (length fill_ids - 1) fill_ids,
      ap length found.0,
    ) in
    let back : dec_lock_ref (inc_held matched at).1 at ≡ ok (freed, matched) =
      subst (λ (x : ℤ × RadixCache). dec_lock_ref x.1 at ≡ ok (freed, matched)) same dec in
    rw c (
      (inc_held matched at).1,
      (inc_held matched at).0,
      freed,
      refl,
      found.0,
      refl,
      omega (arith, short),
      omega (arith, short),
      refl,
      refl,
      if_of_true _ _ there,
      back,
      (held-WfCache matched at found.2).0,
    )
