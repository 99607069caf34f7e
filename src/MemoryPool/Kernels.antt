-- ===== src/MemoryPool/Kernels.antt =====
-- `alloc_extend_kernel` and `alloc_decode_kernel` of memory_pool.py: the writes of one instance. The
-- kernels compile for ranges of a power of 2 only; a `page_size` that is none is refused in Paged, where
-- the first one is launched.
use mini_infer.Prelude.{
  ℕ, zero, suc, ◌+◌, ◌-◌, ◌*◌, ◌/◌, ◌%◌, min, Option, none, some, List, [], ◌∷◌, ◌++◌, ltb, leb,
  ◌==◌, if◌then◌else◌, get_or,
}
use mini_infer.MemoryPool.Sizes.{ceil_div, new_pages}
use mini_infer.MemoryPool.Launch.{Write, store_lanes}
use mini_infer.MemoryPool.Torch.{Torch}

-- `tl.sum` over the lanes below `n`.
unfoldable pub sum_lanes : (ℕ → ℕ) → ℕ → ℕ
sum_lanes f zero = 0
sum_lanes f (suc n) = sum_lanes f n + f n

-- `last_loc + 1`. The callers pass -1 for an empty prefix, which is `none` here.
abbrev pub next_loc : Option ℕ → ℕ
next_loc none = 0
next_loc (some l) = l + 1

module _ (t : Torch) where
  -- `tl.load(ptr + load_offset, mask=load_offset <= pid)`, for the first or the second such load of a
  -- kernel.
  abbrev pub load_upto : ℕ → ℕ → List ℕ → ℕ → ℕ
  load_upto load pid xs lane = if leb lane pid then get_or xs lane 0 else t.masked load lane

-- The stores of `alloc_extend_kernel`, from the scalars that its first half computes.
unfoldable pub extend_stores :
    (seq_len pre_len : ℕ)
    → (output_start_loc new_page_start_loc num_page_start_loc_self : ℕ) → (last_loc : Option ℕ)
    → (free_pages : List ℕ) → (page_size max_num_extend_tokens : ℕ) → List Write
unfolding store_lanes
extend_stores seq_len pre_len out new_page self last_loc free_pages page_size max_tokens =
    let num_part1 = min seq_len (ceil_div pre_len page_size * page_size) - pre_len in
    let part1 =
      store_lanes (λ o. ltb o num_part1) (λ o. out + o) (λ o. next_loc last_loc + o) page_size in
    let num_part2 = seq_len / page_size * page_size - ceil_div pre_len page_size * page_size in
    let part2 =
      store_lanes (λ o. ltb o num_part2) (λ o. out + num_part1 + o)
        (λ o. get_or free_pages (new_page + o / page_size) 0 * page_size + o % page_size)
        max_tokens in
    let num_part3 = seq_len - seq_len / page_size * page_size in
    let part3 =
      store_lanes (λ o. ltb o num_part3) (λ o. out + num_part1 + num_part2 + o)
        (λ o. get_or free_pages (new_page + self - 1) 0 * page_size + o) page_size in
    if pre_len + num_part1 == seq_len
    then part1
    else if pre_len + num_part1 + num_part2 == seq_len
    then part1 ++ part2
    else part1 ++ (part2 ++ part3)

unfoldable pub alloc_extend_kernel :
    Torch
    → (pre_lens seq_lens : List ℕ) → (last_loc : List (Option ℕ)) → (free_pages : List ℕ)
    → (bs_upper page_size max_num_extend_tokens pid : ℕ) → List Write
alloc_extend_kernel t pre_lens seq_lens last_loc free_pages bs_upper page_size max_tokens pid =
    let seqs = load_upto t 0 pid seq_lens in
    let pres = load_upto t 1 pid pre_lens in
    let seq_len = get_or seq_lens pid 0 in
    let pre_len = get_or pre_lens pid 0 in
    let extend_len = seq_len - pre_len in
    let sum_extend_lens = sum_lanes (λ lane. seqs lane - pres lane) bs_upper in
    let output_start_loc = sum_extend_lens - extend_len in
    let sum_num_new_pages =
      sum_lanes (λ lane. new_pages page_size (pres lane) (seqs lane)) bs_upper in
    let num_page_start_loc_self = new_pages page_size pre_len seq_len in
    let new_page_start_loc = sum_num_new_pages - num_page_start_loc_self in
    extend_stores seq_len pre_len output_start_loc new_page_start_loc num_page_start_loc_self
      (get_or last_loc pid none) free_pages page_size max_tokens

unfoldable pub alloc_decode_kernel :
    Torch
    → (seq_lens : List ℕ) → (last_loc : List (Option ℕ)) → (free_pages : List ℕ)
    → (bs_upper page_size pid : ℕ) → List Write
alloc_decode_kernel t seq_lens last_loc free_pages bs_upper page_size pid =
    let seqs = load_upto t 0 pid seq_lens in
    let pres = λ (lane : ℕ). if leb lane pid then seqs lane - 1 else seqs lane in
    let seq_len = get_or seq_lens pid 0 in
    let num_page_start_loc_self = new_pages page_size (seq_len - 1) seq_len in
    let sum_num_new_pages =
      sum_lanes (λ lane. new_pages page_size (pres lane) (seqs lane)) bs_upper in
    let new_page_start_loc = sum_num_new_pages - num_page_start_loc_self in
    if num_page_start_loc_self == 0
    then record { address = pid; value = next_loc (get_or last_loc pid none) } ∷ []
    else record { address = pid; value = get_or free_pages new_page_start_loc 0 * page_size } ∷ []
