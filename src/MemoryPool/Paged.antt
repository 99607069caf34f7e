-- ===== src/MemoryPool/Paged.antt =====
-- `PagedTokenAllocator` of memory_pool.py. Slot `s` lies on page `s // page_size`; page 0 is the
-- padded page and is never handed out. The lemmas and theorems are in the modules below.
pub mod Validity
use mini_infer.Prelude.{
  ℕ, zero, suc, ◌+◌, ◌-◌, ◌*◌, ◌/◌, ◌%◌, ◌<◌, ◌≤◌, ◌≡◌, max, Bool, true, false, not, ◌&&◌, ◌||◌,
  Option, none, some, List, [], ◌∷◌, ◌++◌, map, arith, ltb, leb, ◌==◌, if◌then◌else◌, length, take,
  drop, get_or, filter, range_from, tabulate_from, Result, ok, err, guard, ◌>>=◌, ◌>>◌, Error,
  assertion_error, attribute_error, compilation_error,
}
use mini_infer.MemoryPool.Torch.{Torch}
use mini_infer.MemoryPool.Launch.{store_all}
use mini_infer.MemoryPool.Sizes.{
  next_power_of_2, get_num_new_pages_decode, get_num_new_pages_extend,
}
use mini_infer.MemoryPool.Kernels.{alloc_extend_kernel, alloc_decode_kernel, next_loc}

pub record Paged : Type 0 where
  pub size : ℕ
  pub page_size : ℕ
  pub num_pages : ℕ
  pub seen_max_num_extend_tokens : ℕ
  pub debug_mode : Bool
  pub need_sort : Bool
  pub free_pages : List ℕ
  pub is_not_in_free_group : Bool
  pub free_group : List (List ℕ)

unfoldable pub clear : Paged → Paged
clear a = record a {
  free_pages = range_from 1 a.num_pages;
  is_not_in_free_group = true;
  free_group = [];
}

unfoldable pub init : ℕ → ℕ → Paged
unfolding clear
init size page_size = clear (record {
  size = size;
  page_size = page_size;
  num_pages = size / page_size;
  seen_max_num_extend_tokens = 1;
  debug_mode = false;
  need_sort = false;
  free_pages = [];
  is_not_in_free_group = true;
  free_group = [];
})

-- `(pages[:, None] * page_size + arange(page_size)).reshape(-1)`
unfoldable pub page_slots : ℕ → List ℕ → List ℕ
page_slots page_size [] = []
page_slots page_size (p ∷ pages) =
    range_from (p * page_size) page_size ++ page_slots page_size pages

unfoldable pub alloc : ℕ → Paged → Result (Option (List ℕ) × Paged)
unfolding page_slots
alloc need_size a = do
  guard (need_size % a.page_size == 0) assertion_error
  let num_pages = need_size / a.page_size
  if ltb (length a.free_pages) num_pages
      then ok (none, a)
      else ok (
        some (page_slots a.page_size (take num_pages a.free_pages)),
        record a { free_pages = drop num_pages a.free_pages },
      )

-- `torch.all((last_loc + off) % page_size == lens % page_size)`
abbrev all_aligned : ℕ → ℕ → List (Option ℕ) → List ℕ → Bool
all_aligned off page_size [] lens = true
all_aligned off page_size (l ∷ last_loc) [] = true
all_aligned off page_size (l ∷ last_loc) (n ∷ lens) =
    ((next_loc l + off) % page_size == n % page_size) && all_aligned off page_size last_loc lens

unfoldable pub begin_free_group : Paged → Paged
begin_free_group a = record a { is_not_in_free_group = false }

-- `torch.cat` of the collected frees.
abbrev pub concat : List (List ℕ) → List ℕ
concat [] = []
concat (xs ∷ xss) = xs ++ concat xss

module _ (t : Torch) where
  unfoldable pub alloc_extend :
      (prefix_lens prefix_lens_cpu seq_lens seq_lens_cpu : List ℕ)
      → (last_loc : List (Option ℕ)) → (extend_num_tokens : ℕ) → Paged
      → Result (Option (List ℕ) × Paged)
  alloc_extend prefix_lens prefix_lens_cpu seq_lens seq_lens_cpu last_loc extend_num_tokens a = do
    guard (not a.debug_mode || all_aligned 0 a.page_size last_loc prefix_lens) assertion_error
    let num_new_pages = get_num_new_pages_extend seq_lens_cpu a.page_size prefix_lens_cpu
    let seen = max a.seen_max_num_extend_tokens (next_power_of_2 extend_num_tokens)
    let bs = length prefix_lens
    let kernel =
        alloc_extend_kernel t prefix_lens seq_lens last_loc a.free_pages (next_power_of_2 bs)
          a.page_size seen
    -- `tl.arange(0, page_size)` does not compile if the size is no power of 2
    guard (next_power_of_2 a.page_size == a.page_size) compilation_error
    let out_indices = tabulate_from (store_all (t.grid kernel bs) t.uninit) 0 extend_num_tokens
    if ltb (length a.free_pages) num_new_pages then ok (none, a) else do
      guard (length (t.unique out_indices) == length out_indices) assertion_error
      ok (
        some out_indices,
        record a {
          seen_max_num_extend_tokens = seen;
          free_pages = drop num_new_pages a.free_pages;
        },
      )

  unfoldable pub alloc_decode :
      (seq_lens seq_lens_cpu : List ℕ)
      → (last_loc : List (Option ℕ)) → Paged
      → Result (Option (List ℕ) × Paged)
  alloc_decode seq_lens seq_lens_cpu last_loc a = do
    guard (not a.debug_mode || all_aligned 1 a.page_size last_loc seq_lens) assertion_error
    let bs = length seq_lens
    -- `merge_and_sort_free` is defined nowhere
    guard (not (a.need_sort && ltb (length a.free_pages) bs)) attribute_error
    let num_new_pages = get_num_new_pages_decode seq_lens_cpu a.page_size
    let kernel =
        alloc_decode_kernel t seq_lens last_loc a.free_pages (next_power_of_2 bs) a.page_size
    let out_indices = tabulate_from (store_all (t.grid kernel bs) t.uninit) 0 bs
    if ltb (length a.free_pages) num_new_pages then ok (none, a) else do
      guard (not a.debug_mode || (length (t.unique out_indices) == length out_indices))
          assertion_error
      ok (some out_indices, record a { free_pages = drop num_new_pages a.free_pages })

  -- The asserts that close `free` and `flush_free_group` in debug mode.
  abbrev check_free_pages : Paged → Result Paged
  check_free_pages a = do
    guard
        (not a.debug_mode
          || ((length (t.unique a.free_pages) == length a.free_pages)
              && leb (length a.free_pages) a.num_pages
              && (length (filter (λ p. leb 1 p && leb p a.num_pages) a.free_pages)
                  == length a.free_pages)))
        assertion_error
    ok a

  -- `torch.unique(free_index // page_size)`, then the pages that `valid_mask` keeps.
  abbrev pub pages_of : Paged → List ℕ → List ℕ
  pages_of a free_index =
      filter (λ p. leb 1 p && leb p a.num_pages) (t.unique (map (λ i. i / a.page_size) free_index))

  abbrev pub add_pages : Paged → List ℕ → Paged
  add_pages a [] = a
  add_pages a (p ∷ pages) = record a { free_pages = t.unique ((p ∷ pages) ++ a.free_pages) }

  -- No page left after the mask returns before the asserts.
  abbrev merge_pages : Paged → List ℕ → Result Paged
  merge_pages a [] = ok a
  merge_pages a (p ∷ pages) = check_free_pages (add_pages a (p ∷ pages))

  unfoldable pub free : List ℕ → Paged → Result Paged
  free [] a = ok a
  free (i ∷ free_index) a =
      if a.is_not_in_free_group
      then merge_pages a (pages_of a (i ∷ free_index))
      else check_free_pages (record a { free_group = a.free_group ++ (i ∷ free_index) ∷ [] })

  abbrev flush_pages : Paged → List ℕ → Result Paged
  flush_pages a [] = ok a
  flush_pages a (i ∷ free_index) = merge_pages a (pages_of a (i ∷ free_index))

  unfoldable pub flush_free_group : Paged → Result Paged
  flush_free_group a = flush_pages (record a { free_group = [] }) (concat a.free_group)

  unfoldable pub end_free_group : Paged → Result Paged
  unfolding flush_free_group
  end_free_group a = do b ← flush_free_group a; ok (record b { is_not_in_free_group = true })

-- What a client may call, with its arguments.
pub data Call : Type 0 where
  allocs : ℕ → Call
  extends : List ℕ → List ℕ → List ℕ → List ℕ → List (Option ℕ) → ℕ → Call
  decodes : List ℕ → List ℕ → List (Option ℕ) → Call
  frees : List ℕ → Call
  begins flushes ends clears : Call

abbrev pub after {ℓ} : {A : Type ℓ} → Result (A × Paged) → Result Paged
after (ok (r, b)) = ok b
after (err e) = err e

pub after-eq-ok {ℓ} :
    {A : Type ℓ} (r : Result (A × Paged)) {b : Paged} → after r ≡ ok b → (x : A) × (r ≡ ok (x, b))
after-eq-ok (ok (x, b)) e = (x, cc)
after-eq-ok (err _) e = cc

unfoldable pub step : Torch → Call → Paged → Result Paged
step t (allocs n) a = after (alloc n a)
step t (extends pre pre_cpu seq seq_cpu last n) a =
    after (alloc_extend t pre pre_cpu seq seq_cpu last n a)
step t (decodes seq seq_cpu last) a = after (alloc_decode t seq seq_cpu last a)
step t (frees free_index) a = free t free_index a
step t begins a = ok (begin_free_group a)
step t flushes a = flush_free_group t a
step t ends a = end_free_group t a
step t clears a = ok (clear a)

unfoldable pub run : Torch → List Call → Paged → Result Paged
run t [] a = ok a
run t (c ∷ calls) a = do b ← step t c a; run t calls b

unfoldable pub available_size : Paged → ℕ
available_size a = length a.free_pages * a.page_size
