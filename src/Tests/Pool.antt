-- ===== src/Tests/Pool.antt =====
-- The allocator's theorems on a device and small batches.
use mini_infer.Prelude.{◌≡◌, refl, none, some, List, [], ◌∷◌, ok, arith}
use mini_infer.MemoryPool.Sizes.{next_power_of_2, bit_length}
use mini_infer.MemoryPool.Paged.{
  Paged, init, clear, alloc, page_slots, alloc_extend, alloc_decode, free, Call, allocs, frees,
  begins, ends, step, run, begin_free_group, end_free_group, flush_free_group,
}
use mini_infer.MemoryPool.Paged.Validity.{IsValid, run-init-IsValid}
use mini_infer.MemoryPool.Kernels.{sum_lanes}
use mini_infer.MemoryPool.Place.{Extent, place, place_all, pages_needed}
use mini_infer.MemoryPool.Decode.{alloc_decode-place}
use mini_infer.MemoryPool.Decode.Stale.{alloc_decode_stale}
use mini_infer.MemoryPool.Extend.Batch.{alloc_extend-place}
use mini_infer.Tests.Device.{device}

-- Pages of 4 slots, of which pages 3 to 6 are free.
abbrev pool : Paged
pool = record (init 24 4) { free_pages = 3 ∷ 4 ∷ 5 ∷ 6 ∷ [] }

abbrev decoding : List Extent
decoding =
    record { prefix_len = 3; seq_len = 4; last_loc = some 6 }
    ∷ record { prefix_len = 8; seq_len = 9; last_loc = some 11 }
    ∷ []

-- The first sequence has room on its last page, the second takes page 3.
alloc_decode-place_example :
    alloc_decode device (4 ∷ 9 ∷ []) (4 ∷ 9 ∷ []) (some 6 ∷ some 11 ∷ []) pool
    ≡ ok (some (7 ∷ 12 ∷ []), record pool { free_pages = 4 ∷ 5 ∷ 6 ∷ [] })
unfolding init clear place_all place pages_needed
alloc_decode-place_example =
    alloc_decode-place device pool decoding (omega arith) refl refl (refl, (refl, tt))

abbrev extending : List Extent
extending =
    record { prefix_len = 3; seq_len = 6; last_loc = some 6 }
    ∷ record { prefix_len = 0; seq_len = 5; last_loc = none }
    ∷ []

power : next_power_of_2 pool.page_size ≡ pool.page_size
unfolding next_power_of_2 init bit_length
power = refl

alloc_extend-place_example :
    alloc_extend device
      (3 ∷ 0 ∷ [])
      (3 ∷ 0 ∷ [])
      (6 ∷ 5 ∷ [])
      (6 ∷ 5 ∷ [])
      (some 6 ∷ none ∷ [])
      8
      pool
    ≡ ok (
      some (7 ∷ 12 ∷ 13 ∷ 16 ∷ 17 ∷ 18 ∷ 19 ∷ 20 ∷ []),
      record pool { seen_max_num_extend_tokens = 8; free_pages = 6 ∷ [] },
    )
unfolding init clear place_all place pages_needed next_power_of_2 bit_length sum_lanes
alloc_extend-place_example =
    alloc_extend-place device pool extending (omega arith) power (λ lane. refl) refl
      (omega arith, (omega arith, tt))

abbrev calls : List Call
calls = allocs 8 ∷ begins ∷ frees (4 ∷ 5 ∷ []) ∷ frees (9 ∷ 4 ∷ 99 ∷ []) ∷ ends ∷ []

-- Two pages are taken, and given back in one group with slots named twice and one out of range.
run-init-IsValid_example : IsValid (record (init 12 4) { free_pages = 1 ∷ 2 ∷ 3 ∷ [] })
unfolding run step init clear alloc page_slots free begin_free_group end_free_group flush_free_group
run-init-IsValid_example = run-init-IsValid device 12 4 calls _ refl

-- A sequence of 8 tokens on pages 1 and 2 of 4 slots each.
alloc_decode_stale_example :
    (alloc_decode device (8 ∷ []) (8 ∷ []) (some 11 ∷ []) pool ≡ ok (some (12 ∷ []), pool))
    × (alloc_decode device (9 ∷ []) (9 ∷ []) (some 11 ∷ []) pool
        ≡ ok (some (12 ∷ []), record pool { free_pages = 4 ∷ 5 ∷ 6 ∷ [] }))
unfolding init clear
alloc_decode_stale_example =
    alloc_decode_stale device pool 7 11 3 (4 ∷ 5 ∷ 6 ∷ []) (omega arith) refl refl refl refl
