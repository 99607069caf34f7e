-- ===== src/Scheduler.antt =====
-- miniinfer/scheduler: requests and their chunks (scheduler_batch.py) and the prefill budget
-- (prefill_adder.py).
pub mod Req
pub mod Chunk
pub mod Adder
pub mod Batch
pub mod Queues
