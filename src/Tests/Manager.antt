-- ===== src/Tests/Manager.antt =====
-- The cache manager at small inputs.
use mini_infer.Prelude.{
  ℕ, ◌+◌, ◌-◌, ◌<◌, ◌≡◌, refl, List, [], ◌∷◌, ◌++◌, some, length, take, drop, arith, ok, subst, sym,
  ◌∙◌, ok-injective,
}
use mini_infer.Radix.Keys.{align_len}
use mini_infer.Radix.Cache.{RadixCache, new_cache, match_prefix, insert_loop, insert_helper, insert}
use mini_infer.Radix.Lock.{inc_lock_ref, dec_lock_ref}
use mini_infer.Prelude.Int.{ℤ}
use mini_infer.Radix.Lookup.{WfCache, lookup}
use mini_infer.Radix.Evict.{ITokenAllocator}
use mini_infer.Radix.Store.{insert-lookup}
use mini_infer.Radix.Runs.{new_cache-WfCache}
use mini_infer.Scheduler.Req.{Req, new_req}
use mini_infer.Manager.{IRequestPool, KvCacheManager, prefix_for_waiting_req}
use mini_infer.Manager.Prefix.{prefix_for_waiting_req-Prefix}

-- An allocator that lists what is free, and a pool with one row.
abbrev free_list : ITokenAllocator (List ℕ)
free_list = record { free = λ slots a. slots ++ a; available_size = λ a. length a }

abbrev one_row : IRequestPool (List ℕ)
one_row = record {
  read = λ idx start stop row. ok (drop start (take stop row));
  write = λ idx start stop slots row. ok (take start row ++ slots ++ drop stop row);
  free = λ rows row. row;
}

abbrev prompt : List ℕ
prompt = 1 ∷ 2 ∷ 3 ∷ 4 ∷ 5 ∷ []

abbrev slots : List ℕ
slots = 10 ∷ 11 ∷ 12 ∷ 13 ∷ 14 ∷ []

-- The first page of the prompt, under other slots.
abbrev cached : RadixCache
cached = (insert_loop 1 (new_cache 2) (1 ∷ 2 ∷ []) (20 ∷ 21 ∷ [])).1

cached-insert : insert 1 (new_cache 2) (1 ∷ 2 ∷ []) (some (20 ∷ 21 ∷ [])) ≡ ok (0, cached)
unfolding insert insert_helper insert_loop new_cache align_len
cached-insert = refl

two_tokens : 1 < (new_cache 2).page_size
unfolding new_cache
two_tokens = omega arith

cached-WfCache : WfCache cached
cached-WfCache =
    let (r, run, a, b, c, d, w) =
      insert-lookup 1 (new_cache 2) (1 ∷ 2 ∷ []) (20 ∷ 21 ∷ []) (new_cache-WfCache 2 (omega arith))
        two_tokens refl in
    subst (λ (x : ℕ × RadixCache). WfCache x.1) (ok-injective (sym run ∙ cached-insert)) w

abbrev manager : KvCacheManager (List ℕ) (List ℕ)
manager = record {
  size = 64;
  page_size = 2;
  token_allocator = [];
  request_pool = slots;
  prefix_cache = some cached;
}

abbrev waiting : Req
unfolding new_req
waiting = new_req 7 prompt 16

abbrev running : Req
running = record waiting { req_pool_idx = some 0; last_node = some 0; cache_protected_len = 0 }

prefix_for_waiting_req-Prefix_example :
    let fill_ids = running.origin_input_ids ++ running.output_ids in
    let ids = take (length fill_ids - 1) fill_ids in
    let matched = match_prefix 3 cached ids in
    let r = prefix_for_waiting_req free_list one_row 3 running manager in
    (after : RadixCache) × (moved : ℤ) × (freed : ℤ) × (r.0.fill_ids ≡ fill_ids)
    × (r.0.prefix_indices ≡ lookup cached ids)
    × (r.0.cache_protected_len ≡ length r.0.prefix_indices)
    × (0 < r.0.extend_input_len)
    × (length r.0.prefix_indices + r.0.extend_input_len ≡ length fill_ids)
    × (r.0.last_node ≡ some matched.1)
    × (r.1 ≡ record manager { prefix_cache = some after })
    × (inc_lock_ref matched.2 matched.1 ≡ ok (moved, after))
    × (dec_lock_ref after matched.1 ≡ ok (freed, matched.2))
    × WfCache after
unfolding new_req
prefix_for_waiting_req-Prefix_example =
    prefix_for_waiting_req-Prefix free_list one_row 3 running manager cached refl cached-WfCache
      (omega arith)
