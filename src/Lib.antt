-- ===== src/Lib.antt =====
-- MiniInfer: a language model server. A request is tokenized, queued by the scheduler, given a place
-- in the request pool and pages of the KV cache, run in batches of prefill and decode steps, and
-- detokenized as its tokens appear. Modelled are parts that decide which cache slots, batches and
-- tokens a request gets; the tensors that the model computes with are not.
--
-- Memory pool (miniinfer/kvcache/memory_pool.py), MemoryPool:
--   Sizes     next_power_of_2 and get_num_new_pages
--   Torch     what torch and triton do, as a record of operations and laws
--   Launch    the writes of a grid of kernel instances to a device buffer
--   Kernels   alloc_extend_kernel and alloc_decode_kernel, one function of `pid` each
--   Place     what the kernels compute, token by token
--   Paged     PagedTokenAllocator; Paged/Validity: its free list
--   Decode    alloc_decode against Place; Decode/Stale: a length that leaves the new token out
--   Extend    alloc_extend against Place: Parts and Stores one instance, Batch the launch
--   Slots     TokenAllocator and RequestPool; Shared: what is free and held; Table: req_to_token
-- A device and a host copy of a length tensor are two arguments, as in the source, and the theorems
-- take them equal. Slots, pages and lengths are unbounded, where the source has 64 bits.
--
-- Radix tree (miniinfer/kvcache/radix_cache.py), Radix:
--   Keys      _key_match_page_size1, _key_match_paged, get_child_key, _align_len
--   Tree      TreeNode with its dictionary of children, _split_node
--   Cache     RadixCache: match_prefix, insert
--   Reads     what a tree answers to a key, and its shape; Change and Split: how a change at one child,
--             or a split of it, changes the answers
--   Match, Descent, Insert      the loops of the two operations; Lookup, Store: the operations
--   Weight, Sizes      sums over the nodes; Totals: total_size, evictable_size, protected_size
--   Lock      inc_lock_ref, dec_lock_ref; Unlock, Held, Locked: the one after the other, the counters,
--             the answers
--   Evict     evict, _collect_leaves, _delete_leaf; Delete, Others: the tree without a leaf; Heap,
--             Leaves, Complete: what the heap holds; Eviction, EvictAll: a round, the loop
--   Nodes, Ends        the nodes that stay in a tree, and the one that match_prefix ends at
--   Runs      any calls in any order
-- A node's parent is the node above it. A node is known by a number to the lock calls, which hold it
-- while others split nodes, and by its address inside evict. A lock call on a node that an eviction
-- took out of the tree is left out. The clock is an argument; heapq and the allocator are records of
-- functions.
--
-- Cache manager (miniinfer/kvcache/kv_cache_manager.py), Manager: KVCacheManager over the
-- allocator, the request pool and the radix tree; Release: release_request, Prefix:
-- prefix_for_waiting_req, Calls: the manager behind the interface of the scheduler. The allocator
-- and the pool are the interfaces of miniinfer/kvcache/interface.py;
-- update_finished_req_radix_cache has the body of release_request.
--
-- Scheduler (miniinfer/scheduler), Scheduler:
--   Req       Req of scheduler_batch.py, and its reset in scheduler.py's _check_decode_mem
--   Chunk     ChunkedReq of scheduler_batch.py
--   Adder     PrefillAdder of prefill_adder.py; Adder/Account: its
--             budgets; Adder/Outcome: its results
--   Batch     ScheduledBatch of scheduler_batch.py, and the calls of scheduler.py that keep the
--             metadata of the running batch; Batch/Aligned: _filter_batch, Batch/Append: the others
--   Queues    the state of Scheduler, and the calls of the cache manager that it makes
--     Decode    _get_decode_batch, _check_decode_mem; Queues/Pop, Retract, Check: the retraction of
--               requests; Queues/Counters: the counters and the ratio
--     Admit, Prefill  _get_new_batch_prefill; Queues/Admitted: where the requests go
--     Release   _handle_finished_requests, drain_pending_releases; Queues/Released: what they do
--     Loop      schedule
-- The requests in the queues are objects that several lists share: a queue holds identities, and a
-- store gives what each object holds. `schedule` tells the running batch, which it may return itself,
-- from a batch of its own.
-- A budget that may fall below 0 is an integer. The product with the float new_token_ratio is a
-- parameter.
--
-- Engine (miniinfer/engine/llm_engine.py), Engine: _process_step_result; Visit and Visits: its
-- first loop; Outputs and Progress: the tokens that a request gets; Finished: the requests handed
-- on; Propagate: _propagate_future_to_running_batch; Placeholders: the output ids that it leaves;
-- Counts: the tokens counted for a step. The detokenizer and the cache manager are interfaces;
-- Decoding: the modelled detokenizer behind the former.
--
-- Token ring (miniinfer/engine/future_map.py), FutureMap: FutureMap with its placeholders; Ring: the
-- tokens behind them.
--
-- Detokenizer (miniinfer/engine/detokenizer.py), Detokenizer: IncrementalDecoder
--   Text      the safe end of a text
--   Cache     _decode_with_cache
--   Advance   what one decoded text makes of a request's state
--   Stream    sequences of decode calls
--   Batched   decode_batch
-- A text is a list of code points. The tokenizer and Python's hash are a record of functions.
--
-- Batch tokenizer (miniinfer/engine/incremental_batch_tokenizer.py), BatchTokenizer:
--   Encoded   what the LRU cache holds
--   Batch     encode_one and encode_batch
--   Calls     sequences of both
--   Chat      ChatTemplateHandler of miniinfer/engine/detokenizer.py behind them
-- The tokenizer is a record of functions.
--
-- The fuel of `bit_length` is the number, which is halved at most as often as it is large; that of
-- `match_prefix` and `insert` is the length of the key, of which each round takes a page; that of
-- `evict` is the number of nodes, of which each round deletes one; that of `_check_decode_mem` is the
-- number of running requests, of which each round takes out one.
--
-- Not modelled: the cache manager's preparation of batches, the warm-up and the steps of the
-- scheduler that LLMEngine does itself, the loop of the engine and its processes, and everything
-- that runs on the device, floats included.
mod Prelude
pub mod MemoryPool
pub mod Scheduler
pub mod Engine
pub mod FutureMap
pub mod Detokenizer
pub mod BatchTokenizer
pub mod Radix
pub mod Manager
mod Tests
