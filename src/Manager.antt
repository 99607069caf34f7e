-- ===== src/Manager.antt =====
-- `KVCacheManager` of miniinfer/kvcache/kv_cache_manager.py: the calls that give a request its cached
-- prefix and take its slots back. The token allocator and the request pool are the interfaces of
-- kvcache/interface.py; the radix tree is the modelled one, or none. The steps that fill tensors
-- for a batch are not modelled.
pub mod Release
pub mod Prefix
pub mod Calls
use mini_infer.Prelude.{
  ℕ, ◌+◌, ◌-◌, ◌*◌, ◌/◌, max, min, Bool, true, false, List, [], ◌∷◌, ◌++◌, Option, none, some,
  length, take, drop, ltb, leb, if◌then◌else◌, Result, ok, err, attribute_error, runtime_error,
  ◌>>=◌,
}
use mini_infer.Prelude.Int.{ℤ, pos, ◌+ℤ◌, ltb_ℤ, leb_ℤ}
use mini_infer.Radix.Cache.{RadixCache, match_prefix, insert}
use mini_infer.Radix.Lock.{inc_held, dec_lock_ref}
use mini_infer.Radix.Totals.{evictable_size}
use mini_infer.Radix.Evict.{ITokenAllocator}
use mini_infer.Scheduler.Req.{Req}

-- `read` and `write` of the slots of a request at a slice of its positions.
pub record IRequestPool (P : Type 0) : Type 0 where
  pub read : ℕ → ℕ → ℕ → P → Result (List ℕ)
  pub write : ℕ → ℕ → ℕ → List ℕ → P → Result P
  pub free : List ℕ → P → P

pub record KvCacheManager (A P : Type 0) : Type 0 where
  pub size : ℕ
  pub page_size : ℕ
  pub token_allocator : A
  pub request_pool : P
  pub prefix_cache : Option RadixCache

-- `xs[start:stop]`
abbrev pub span : ℕ → ℕ → List ℕ → List ℕ
span start stop xs = drop start (take stop xs)

abbrev pub page_aligned : ℕ → ℕ → ℕ
page_aligned page_size num_tokens = num_tokens / page_size * page_size

module _ {A P : Type 0} (al : ITokenAllocator A) (pool : IRequestPool P) where
  -- `time` is what the clock shows. The node to lock is the one that `match_prefix` ended at, which the
  -- tree holds.
  unfoldable pub prefix_for_waiting_req : ℕ → Req → KvCacheManager A P → Req × KvCacheManager A P
  prefix_for_waiting_req time req m =
      let fill_ids = req.origin_input_ids ++ req.output_ids in
      let token_ids = take (length fill_ids - 1) fill_ids in
      elim m.prefix_cache [
        | none ↦ (
          record req {
            fill_ids = fill_ids;
            prefix_indices = [];
            cache_protected_len = 0;
            last_node = none;
            extend_input_len = length fill_ids;
          },
          m,
        )
        | some cache ↦
            let (kv_indices, at, matched) = match_prefix time cache token_ids in
            (
              record req {
                fill_ids = fill_ids;
                prefix_indices = kv_indices;
                cache_protected_len = length kv_indices;
                last_node = some at;
                extend_input_len = length fill_ids - length kv_indices;
              },
              record m { prefix_cache = some (inc_held matched at).1 },
            )
      ]

  -- `dec_lock_ref(req.last_node)`, which raises on `None`.
  abbrev pub unlock : Req → RadixCache → Result RadixCache
  unlock req cache = elim req.last_node [
    | none ↦ err attribute_error
    | some at ↦ dec_lock_ref cache at >>= (λ (r : ℤ × RadixCache). ok r.1)
  ]

  -- What `release_request` gives back of the slots of a request that is cached: those that were
  -- cached before, and those behind the last whole page.
  abbrev pub free_cached : ℕ → ℕ → ℕ → ℕ → List ℕ → A → A
  free_cached num_tokens protected_len new_prefix_len page_aligned_len kv_indices allocator =
      let first =
        if ltb protected_len new_prefix_len
        then al.free (span protected_len new_prefix_len kv_indices) allocator
        else allocator in
      if ltb page_aligned_len num_tokens
      then al.free (drop page_aligned_len kv_indices) first
      else first

  abbrev pub release_cached :
      ℕ → Bool → Req → ℕ → List ℕ → KvCacheManager A P → Result (KvCacheManager A P)
  release_cached time is_insert req idx kv_indices m = elim m.prefix_cache [
    | none ↦ ok (record m {
      token_allocator = al.free (drop req.cache_protected_len kv_indices) m.token_allocator;
      request_pool = pool.free (idx ∷ []) m.request_pool;
    })
    | some cache ↦
        let token_ids = req.origin_input_ids ++ req.output_ids in
        let kept : Result (A × RadixCache) =
          if is_insert
          then (insert time cache token_ids (some kv_indices) >>= (λ (r : ℕ × RadixCache). ok (
            free_cached (length token_ids) req.cache_protected_len r.0
                (page_aligned m.page_size (length token_ids)) kv_indices m.token_allocator,
            r.1,
          )))
          else ok (al.free (drop req.cache_protected_len kv_indices) m.token_allocator, cache) in
        kept >>= (λ (k : A × RadixCache).
          (unlock req k.1 >>= (λ unlocked. ok (record m {
            token_allocator = k.0;
            request_pool = pool.free (idx ∷ []) m.request_pool;
            prefix_cache = some unlocked;
          }))))
  ]

  unfoldable pub release_request : ℕ → Bool → Req → KvCacheManager A P → Result (KvCacheManager A P)
  release_request time is_insert req m = elim req.req_pool_idx [
    | none ↦ err runtime_error
    | some idx ↦
        pool.read idx 0 (length (req.origin_input_ids ++ req.output_ids)) m.request_pool
        >>= (λ kv_indices. release_cached time is_insert req idx kv_indices m)
  ]

  -- The same body a second time.
  unfoldable pub update_finished_req_radix_cache :
      ℕ → Bool → Req → KvCacheManager A P → Result (KvCacheManager A P)
  unfolding release_request
  update_finished_req_radix_cache time is_insert req m = release_request time is_insert req m

  -- `idx` is the row of the request. The slots that it got twice are not given back here.
  unfoldable pub update_unfinished_req_radix_cache :
      ℕ → Req → ℕ → KvCacheManager A P → Result (Req × KvCacheManager A P)
  update_unfinished_req_radix_cache time req idx m = elim m.prefix_cache [
    | none ↦ ok (req, m)
    | some cache ↦ pool.read idx 0 (length req.fill_ids) m.request_pool >>= (λ kv_indices.
        (let (new_indices, at, matched) = match_prefix time cache req.fill_ids in
          pool.write idx req.cache_protected_len (length new_indices)
            (drop req.cache_protected_len new_indices) m.request_pool
          >>= (λ written. unlock req matched >>= (λ unlocked. ok (
            record req {
              cache_protected_len = length new_indices;
              prefix_indices = new_indices;
              last_node = some at;
            },
            record m { request_pool = written; prefix_cache = some (inc_held unlocked at).1 },
          )))))
  ]

  -- The slots that are free, and those that the radix tree could free, at most all there are.
  unfoldable pub available_tokens : KvCacheManager A P → ℤ
  available_tokens m =
      let free = al.available_size m.token_allocator in
      let available = elim m.prefix_cache as (λ c. ℤ) [
        | none ↦ pos free
        | some cache ↦ pos free +ℤ evictable_size cache (some (m.size, free))
      ] in
      if ltb_ℤ (pos m.size) available then pos m.size else available

  unfoldable pub can_allocate : ℕ → KvCacheManager A P → Bool
  unfolding available_tokens
  can_allocate num_tokens m = leb_ℤ (pos num_tokens) (available_tokens m)
