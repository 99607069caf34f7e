-- ===== src/Manager/Calls.antt =====
-- `KVCacheManager` of miniinfer/kvcache/kv_cache_manager.py as the scheduler calls it.
use mini_infer.Prelude.{ℕ, Bool, true, List, Result}
use mini_infer.Radix.Evict.{ITokenAllocator}
use mini_infer.Scheduler.Batch.{Store, ScheduledBatch}
use mini_infer.Scheduler.Queues.{IKvCacheManager, Mixed, MixedArgs}
use mini_infer.Manager.{
  IRequestPool, KvCacheManager, prefix_for_waiting_req, release_request,
  update_finished_req_radix_cache, available_tokens,
}

-- The calls that prepare a batch, and the group of frees, are given.
pub record Prepare (M : Type 0) : Type 0 where
  pub begin_free_group : M → M
  pub end_free_group : M → M
  pub prepare_for_mixed :
      List ℕ → List ℕ → MixedArgs → Store → ScheduledBatch → M → Result (Mixed M)
  pub prepare_for_decode : Bool → Store → ScheduledBatch → M → Result (Store × ScheduledBatch × M)

module _ {A P : Type 0} (al : ITokenAllocator A) (pool : IRequestPool P) where
  -- At the time that the clock shows.
  unfoldable pub manager_calls :
      ℕ → Prepare (KvCacheManager A P) → IKvCacheManager (KvCacheManager A P)
  manager_calls time given = record {
    available_tokens = available_tokens al pool;
    prefix_for_waiting_req = prefix_for_waiting_req al pool time;
    release_request = release_request al pool time;
    update_finished_req_radix_cache = update_finished_req_radix_cache al pool time true;
    begin_free_group = given.begin_free_group;
    end_free_group = given.end_free_group;
    prepare_for_mixed = given.prepare_for_mixed;
    prepare_for_decode = given.prepare_for_decode;
  }
