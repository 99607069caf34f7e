-- ===== src/Tests/Slots.antt =====
-- The pools of single slots at small inputs.
use mini_infer.Prelude.{ℕ, ◌+◌, ◌≡◌, ◌≢◌, List, [], ◌∷◌, ok, arith}
use mini_infer.Prelude.Int.{pos}
use mini_infer.MemoryPool.Slots.{new_token_allocator, RequestPool, new_request_pool, write, read}
use mini_infer.MemoryPool.Slots.Shared.{
  Use, takes, releases, serve, occurrences, in_all, token_slots, request_slots,
  serve-new_request_pool, serve-new_token_allocator,
}
use mini_infer.MemoryPool.Slots.Table.{read-write}

-- Two allocations, one given back, one refused.
abbrev uses : List Use
uses = takes 2 ∷ takes 1 ∷ releases 1 ∷ takes 9 ∷ []

serve-new_request_pool_example :
    let (p, held) = serve request_slots uses (new_request_pool 4 8) [] in
    occurrences 1 p.free_slots + in_all 1 held ≡ 1
serve-new_request_pool_example = serve-new_request_pool 4 8 1 uses

serve-new_token_allocator_example :
    let (t, held) = serve token_slots uses (new_token_allocator 4) [] in
    occurrences 0 t.free_slots + in_all 0 held ≡ 0
serve-new_token_allocator_example = serve-new_token_allocator 4 0 uses

read-write_example :
    (q : RequestPool) × (write 1 2 4 (70 ∷ 71 ∷ []) (new_request_pool 4 8) ≡ ok q)
    × (read 1 2 4 q ≡ ok (pos 70 ∷ pos 71 ∷ []))
    × ((r a b : ℕ) → r ≢ 1 → read r a b q ≡ read r a b (new_request_pool 4 8))
unfolding new_request_pool
read-write_example =
    read-write (new_request_pool 4 8) 1 2 (70 ∷ 71 ∷ []) (omega arith) (omega arith)
      (omega arith, (omega arith, tt))
