-- ===== src/MemoryPool/Slots.antt =====
-- `TokenAllocator` and `RequestPool` of memory_pool.py, the two pools that hand out single slots, and
-- what they have in common. A pool index that the caller passes is not negative here.
pub mod Shared
pub mod Table
use mini_infer.Prelude.{
  ℕ, zero, suc, ◌+◌, ◌-◌, ◌*◌, ◌%◌, ◌^◌, ◌≤◌, ◌<◌, ◌≡◌, min, Bool, true, false, not, ◌&&◌, ◌||◌,
  Option, none, some, List, [], ◌∷◌, ◌++◌, map, ltb, leb, ◌==◌, if◌then◌else◌, length, take, drop,
  get_or, range_from, Result, ok, err, guard, ◌>>=◌, ◌>>◌, runtime_error, index_error,
}
use mini_infer.Prelude.Int.{ℤ, pos, sub_ℕ}

pub record TokenAllocator : Type 0 where
  pub size : ℕ
  pub free_slots : List ℕ

-- Slot 0 is reserved.
unfoldable pub new_token_allocator : ℕ → TokenAllocator
new_token_allocator size = record { size = size; free_slots = range_from 1 size }

unfoldable pub alloc_tokens : ℕ → TokenAllocator → Option (List ℕ) × TokenAllocator
alloc_tokens num_tokens a = if ltb (length a.free_slots) num_tokens then (none, a) else (
  some (take num_tokens a.free_slots),
  record a { free_slots = drop num_tokens a.free_slots },
)

unfoldable pub free_tokens : List ℕ → TokenAllocator → TokenAllocator
free_tokens indices a =
    if ltb 0 (length indices) then record a { free_slots = a.free_slots ++ indices } else a

pub record RequestPool : Type 0 where
  pub max_requests : ℕ
  pub max_context_len : ℕ
  pub req_to_token : ℕ → ℕ → ℤ
  pub free_slots : List ℕ

unfoldable pub new_request_pool : ℕ → ℕ → RequestPool
new_request_pool max_requests max_context_len = record {
  max_requests = max_requests;
  max_context_len = max_context_len;
  req_to_token = λ r i. pos 0;
  free_slots = range_from 0 max_requests;
}

unfoldable pub alloc_requests : ℕ → RequestPool → Option (List ℕ) × RequestPool
alloc_requests num_reqs p =
    if ltb (length p.free_slots) num_reqs
    then (none, p)
    else (some (take num_reqs p.free_slots), record p { free_slots = drop num_reqs p.free_slots })

unfoldable pub free_requests : List ℕ → RequestPool → RequestPool
free_requests indices p = record p { free_slots = p.free_slots ++ indices }

-- `.to(torch.int32)` of an int64 that is not negative.
unfoldable pub to_int32 : ℕ → ℤ
to_int32 v = if ltb (v % 2 ^ 32) (2 ^ 31) then pos (v % 2 ^ 32) else sub_ℕ (v % 2 ^ 32) (2 ^ 32)

-- What an assignment to `n` entries takes from the list: one for each, or the same for all.
abbrev pub spread : List ℕ → ℕ → ℕ
spread kv_indices i =
    if length kv_indices == 1 then get_or kv_indices 0 0 else get_or kv_indices i 0

-- `req_to_token[req_idx, start:stop] = kv_indices`
unfoldable pub write : ℕ → ℕ → ℕ → List ℕ → RequestPool → Result RequestPool
unfolding to_int32
write req_idx start stop kv_indices p = do
  guard (ltb req_idx p.max_requests) index_error
  let n = min stop p.max_context_len - start
  guard ((length kv_indices == n) || (length kv_indices == 1)) runtime_error
  ok (record p {
    req_to_token = λ r i.
        if (r == req_idx) && (leb start i && ltb i (start + n))
        then to_int32 (spread kv_indices (i - start))
        else p.req_to_token r i;
  })

-- `req_to_token[req_idx, start:stop]`
unfoldable pub read : ℕ → ℕ → ℕ → RequestPool → Result (List ℤ)
read req_idx start stop p = do
  guard (ltb req_idx p.max_requests) index_error
  ok (map (p.req_to_token req_idx) (range_from start (min stop p.max_context_len - start)))
