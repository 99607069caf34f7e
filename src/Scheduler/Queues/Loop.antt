-- ===== src/Scheduler/Queues/Loop.antt =====
-- `schedule` of miniinfer/scheduler/scheduler.py.
use mini_infer.Prelude.{
  ℕ, Bool, true, false, Option, none, some, length, ltb, if◌then◌else◌, Result, ok, ◌>>=◌,
}
use mini_infer.Scheduler.Batch.{ScheduledBatch, filter_batch}
use mini_infer.Scheduler.Queues.{IKvCacheManager, Scheduler}
use mini_infer.Scheduler.Queues.Decode.{get_decode_batch}
use mini_infer.Scheduler.Queues.Prefill.{get_new_batch_prefill}

-- What `schedule` returns: None, a batch of its own, or the running batch itself.
pub data Scheduled : Type 0 where
  nothing running : Scheduled
  fresh : ScheduledBatch → Scheduled

-- The functions of floats: the reserve at a ratio, and the two steps of the ratio.
pub record Ratio (R : Type 0) : Type 0 where
  pub discount : R → ℕ → ℕ
  pub grow : R → R
  pub decay : R → R

module _ {K R : Type 0} (kv : IKvCacheManager K) (ratio : Ratio R) (reserve_pages : ℕ) where
  abbrev pub decode_or_none : Bool × Scheduler K R → Scheduled × Scheduler K R
  decode_or_none (true, s) = (running, s)
  decode_or_none (false, s) = (nothing, s)

  -- By what the prefill gave and the size of the running batch before it.
  abbrev pub after_prefill :
      Bool → ℕ → Option ScheduledBatch × Scheduler K R → Result (Scheduled × Scheduler K R)
  after_prefill skip_decode_input_ids running_bs (some batch, s) = ok (fresh batch, s)
  after_prefill skip_decode_input_ids running_bs (none, s) =
      if ltb 0 running_bs
      then (get_decode_batch kv ratio.grow ratio.decay skip_decode_input_ids s
          >>= (λ x. ok (decode_or_none x)))
      else ok (nothing, s)

  unfoldable pub schedule : Bool → Scheduler K R → Result (Scheduled × Scheduler K R)
  unfolding get_decode_batch get_new_batch_prefill
  schedule skip_decode_input_ids s = filter_batch s.store s.running_batch >>= (λ b.
      get_new_batch_prefill kv (ratio.discount s.new_token_ratio) reserve_pages
        skip_decode_input_ids (record s { running_batch = b })
      >>= after_prefill skip_decode_input_ids (length b.reqs))
