-- ===== src/MemoryPool/Extend/Batch.antt =====
-- The launch of `alloc_extend_kernel`, and `alloc_extend`.
use mini_infer.Prelude.{
  ℕ, zero, suc, ◌+◌, ◌-◌, ◌<◌, ◌≤◌, ◌≡◌, refl, sym, ap, ◌∙◌, max, true, false, none, some, List, [],
  ◌∷◌, map, arith, ltb, leb, ◌==◌, if◌then◌else◌, get_or, drop, length, length-map, All,
  tabulate_from-eq, ok, err, assertion_error,
}
use mini_infer.MemoryPool.Torch.{Torch}
use mini_infer.MemoryPool.Launch.{Write, store_all, store_all-agree}
use mini_infer.MemoryPool.Sizes.{
  new_pages, next_power_of_2, le-next_power_of_2, get_num_new_pages_extend,
}
use mini_infer.MemoryPool.Kernels.{
  sum_lanes, next_loc, load_upto, extend_stores, alloc_extend_kernel,
}
use mini_infer.MemoryPool.Place.{Extent, place_all, pages_needed, slot_at, place-slot_at}
use mini_infer.MemoryPool.Place.Index.{
  sum_lanes_upto, get_or-map, nothing, extent, extend_len, tokens_before, pages_before,
  place_all-at, length-place_all, locate,
}
use mini_infer.MemoryPool.Paged.{Paged, alloc_extend}
use mini_infer.MemoryPool.Extend.Parts.{IsToken}
use mini_infer.MemoryPool.Extend.Stores.{stores-Token, token-Stored}

-- An extend batch: no prefix is longer than its sequence.
abbrev pub IsExtend : List Extent → Type 0
IsExtend = All (λ e. e.prefix_len ≤ e.seq_len)

prefix-le :
    (batch : List Extent) (i : ℕ)
    → IsExtend batch
    → (extent batch i).prefix_len ≤ (extent batch i).seq_len
prefix-le [] i h = omega arith
prefix-le (e ∷ batch) zero h = h.0
prefix-le (e ∷ batch) (suc i) h = prefix-le batch i h.1

num_new_pages_extend :
    (batch : List Extent) (ps : ℕ)
    → get_num_new_pages_extend
        (map (λ (e : Extent). e.seq_len) batch)
        ps
        (map (λ (e : Extent). e.prefix_len) batch)
      ≡ pages_needed ps batch
unfolding get_num_new_pages_extend pages_needed
num_new_pages_extend [] ps = refl
num_new_pages_extend (e ∷ batch) ps = omega (arith, num_new_pages_extend batch ps)

tokens_before-step :
    (batch : List Extent) (i : ℕ)
    → tokens_before batch (suc i) ≡ tokens_before batch i + extend_len (extent batch i)
unfolding sum_lanes
tokens_before-step batch i = refl

tokens_before_mono :
    (batch : List Extent) (i k : ℕ) → tokens_before batch i ≤ tokens_before batch (k + i)
unfolding sum_lanes
tokens_before_mono batch i zero =
    omega (arith, ap (tokens_before batch) {x = 0 + i} {y = i} (omega arith))
tokens_before_mono batch i (suc k) = omega (
  arith,
  tokens_before_mono batch i k,
  ap (tokens_before batch) {x = suc k + i} {y = suc (k + i)} (omega arith),
)

tokens_before_le :
    (batch : List Extent) (i k : ℕ) → i ≤ k → tokens_before batch i ≤ tokens_before batch k
tokens_before_le batch i k h = omega (
  arith,
  tokens_before_mono batch i (k - i),
  ap (tokens_before batch) {x = k - i + i} {y = k} (omega arith),
)

-- A sequence has no more new tokens than the batch.
extend_len-le :
    (batch : List Extent) (i : ℕ)
    → i < length batch
    → extend_len (extent batch i) ≤ tokens_before batch (length batch)
extend_len-le batch i h =
    omega (arith, tokens_before_le batch (suc i) (length batch) h, tokens_before-step batch i)

module _ (t : Torch) (batch : List Extent) (free_pages : List ℕ) (ps max_tokens : ℕ) (pos : 0 < ps)
    (x : IsExtend batch) (alike : (lane : ℕ) → t.masked 0 lane ≡ t.masked 1 lane) where
  abbrev kernel : ℕ → List Write
  kernel =
      alloc_extend_kernel t (map (λ e. e.prefix_len) batch) (map (λ e. e.seq_len) batch)
        (map (λ e. e.last_loc) batch) free_pages (next_power_of_2 (length batch)) ps max_tokens

  abbrev loaded : ℕ → (Extent → ℕ) → ℕ → ℕ → ℕ
  loaded load f pid lane = load_upto t load pid (map f batch) lane

  loaded_upto :
      (load : ℕ) (f : Extent → ℕ)
      → f nothing ≡ 0
      → (pid lane : ℕ) → lane ≤ pid
      → loaded load f pid lane ≡ f (extent batch lane)
  loaded_upto load f z pid lane l =
      let c : leb lane pid ≡ true = ground arith in
      rw c (ap (get_or (map f batch) lane) (sym z) ∙ get_or-map f batch lane nothing)

  loaded_beyond :
      (load : ℕ) (f : Extent → ℕ) (pid lane : ℕ)
      → pid < lane
      → loaded load f pid lane ≡ t.masked load lane
  loaded_beyond load f pid lane l = let c : leb lane pid ≡ false = ground arith in rw c

  -- A sum over all lanes of what the two loads hold.
  lanes_sum :
      (g : ℕ → ℕ → ℕ) (pid : ℕ)
      → ((m : ℕ) → g m m ≡ 0)
      → pid < length batch
      → sum_lanes
          (λ lane. g (loaded 1 (λ e. e.prefix_len) pid lane) (loaded 0 (λ e. e.seq_len) pid lane))
          (next_power_of_2 (length batch))
        ≡ sum_lanes (λ l. g (extent batch l).prefix_len (extent batch l).seq_len) pid
          + g (extent batch pid).prefix_len (extent batch pid).seq_len
  lanes_sum g pid z l =
      sum_lanes_upto (λ l. g (extent batch l).prefix_len (extent batch l).seq_len) _ pid
        (next_power_of_2 (length batch))
        (λ k m. rw (
          loaded_upto 1 (λ e. e.prefix_len) refl pid k m,
          loaded_upto 0 (λ e. e.seq_len) refl pid k m,
        ))
        (λ k m.
          rw (loaded_beyond 1 (λ e. e.prefix_len) pid k m, loaded_beyond 0 (λ e. e.seq_len) pid k m)
            (rw (alike k) (z (t.masked 1 k))))
        (omega (arith, le-next_power_of_2 (length batch)))

  -- Instance `pid` starts where the sequences before it end, in the output and in the free list.
  kernel-stores :
      (pid : ℕ)
      → pid < length batch
      → kernel pid
        ≡ extend_stores
            (extent batch pid).seq_len
            (extent batch pid).prefix_len
            (tokens_before batch pid)
            (pages_before ps batch pid)
            (new_pages ps (extent batch pid).prefix_len (extent batch pid).seq_len)
            (extent batch pid).last_loc
            free_pages
            ps
            max_tokens
  unfolding alloc_extend_kernel
  kernel-stores pid l =
      let cancel : (a b : ℕ) → a + b - b ≡ a = λ a b. omega arith in
      rw (
        get_or-map (λ (e : Extent). e.seq_len) batch pid nothing,
        get_or-map (λ (e : Extent). e.prefix_len) batch pid nothing,
        get_or-map (λ (e : Extent). e.last_loc) batch pid nothing,
        lanes_sum (λ p s. s - p) pid (λ m. omega arith) l,
        lanes_sum (new_pages ps) pid (λ m. omega arith) l,
        cancel (tokens_before batch pid) (extend_len (extent batch pid)),
        cancel (pages_before ps batch pid)
            (new_pages ps (extent batch pid).prefix_len (extent batch pid).seq_len),
      )

  -- What is written at the place of a token is that token's slot.
  placed-at :
      (i j : ℕ)
      → i < length batch
      → j < extend_len (extent batch i)
      → get_or (place_all ps batch free_pages) (tokens_before batch i + j) 0
        ≡ slot_at ps
            (extent batch i).prefix_len
            (next_loc (extent batch i).last_loc)
            (drop (pages_before ps batch i) free_pages)
            j
  placed-at i j h k =
      place_all-at ps batch free_pages i j h k
      ∙ place-slot_at ps (extent batch i).prefix_len (next_loc (extent batch i).last_loc)
          (drop (pages_before ps batch i) free_pages) (extend_len (extent batch i)) j pos k

  launched :
      (n : ℕ)
      → n < tokens_before batch (length batch)
      → ((i : ℕ) → i < length batch → extend_len (extent batch i) ≤ max_tokens)
      → store_all (t.grid kernel (length batch)) t.uninit n
        ≡ get_or (place_all ps batch free_pages) n 0
  launched n h enough =
      let (i, j, a, b, e) = locate batch (length batch) n h in
      let (w, m, at) =
        token-Stored ps pos (extent batch i).prefix_len (extent batch i).seq_len
          (prefix-le batch i x) (tokens_before batch i) (pages_before ps batch i) max_tokens
          (extent batch i).last_loc free_pages j b (enough i a) in
      rw e (
        store_all-agree (t.grid kernel (length batch)) t.uninit (tokens_before batch i + j) _ w
          (t.grid_complete kernel (length batch) i w a (rw (kernel-stores i a) m)) at
          (λ u k p.
            let (q, c, r) = t.grid_sound kernel (length batch) u k in
            agree i j a b u p q c (
              stores-Token ps pos (extent batch q).prefix_len (extent batch q).seq_len
                (prefix-le batch q x) (tokens_before batch q) (pages_before ps batch q) max_tokens
                (extent batch q).last_loc free_pages u (rw (kernel-stores q c) at r))))
    where
      agree :
          (i j : ℕ)
          → i < length batch
          → j < extend_len (extent batch i)
          → (u : Write) → u.address ≡ tokens_before batch i + j
          → (q : ℕ) → q < length batch
          → (l : ℕ) × IsToken ps
              (extent batch q).prefix_len
              (extent batch q).seq_len
              (tokens_before batch q)
              (next_loc (extent batch q).last_loc)
              (drop (pages_before ps batch q) free_pages)
              l
              u
          → u.value ≡ get_or (place_all ps batch free_pages) (tokens_before batch i + j) 0
      agree i j a b u p q c (l, (d, s, v)) =
          v
          ∙ sym (placed-at q l c d)
          ∙ ap (λ k. get_or (place_all ps batch free_pages) k 0) (sym s ∙ p)

-- On an allocator in its default mode, with pages of a power of 2 slots, for sequences whose prefixes
-- are no longer than they are, and where the two masked loads of the kernel leave the same in a lane
-- that their mask switches off, `alloc_extend` hands out exactly the slots that the token-by-token
-- placement gives the batch, and drops exactly the pages that it takes, or hands out nothing and
-- keeps its state if there are too few pages. The only other outcome is the assertion that no slot
-- is handed out twice. This holds for every order in which the kernel's instances write, and
-- whatever those lanes and fresh memory hold.
pub alloc_extend-place :
    (t : Torch) (a : Paged) (batch : List Extent)
    → 0 < a.page_size
    → next_power_of_2 a.page_size ≡ a.page_size
    → ((lane : ℕ) → t.masked 0 lane ≡ t.masked 1 lane)
    → a.debug_mode ≡ false
    → IsExtend batch
    → let slots = place_all a.page_size batch a.free_pages in
      let tokens = tokens_before batch (length batch) in
      alloc_extend t
        (map (λ e. e.prefix_len) batch)
        (map (λ e. e.prefix_len) batch)
        (map (λ e. e.seq_len) batch)
        (map (λ e. e.seq_len) batch)
        (map (λ e. e.last_loc) batch)
        tokens
        a
      ≡ (if ltb (length a.free_pages) (pages_needed a.page_size batch)
          then ok (none, a)
          else if length (t.unique slots) == length slots
          then ok (
            some slots,
            record a {
              seen_max_num_extend_tokens =
                  max a.seen_max_num_extend_tokens (next_power_of_2 tokens);
              free_pages = drop (pages_needed a.page_size batch) a.free_pages;
            },
          )
          else err assertion_error)
unfolding alloc_extend
alloc_extend-place t a batch pos power alike debug x =
    let tokens = tokens_before batch (length batch) in
    let seen = max a.seen_max_num_extend_tokens (next_power_of_2 tokens) in
    let enough : (i : ℕ) → i < length batch → extend_len (extent batch i) ≤ seen =
      λ i h. omega (arith, extend_len-le batch i h, le-next_power_of_2 tokens) in
    let fits : (next_power_of_2 a.page_size == a.page_size) ≡ true = ground (arith, power) in
    let buffer =
      store_all (t.grid (kernel t batch a.free_pages a.page_size seen pos x alike) (length batch))
        t.uninit in
    let table =
      tabulate_from-eq 0 buffer (place_all a.page_size batch a.free_pages) 0 tokens
        (length-place_all a.page_size batch a.free_pages)
        (λ i l.
          ap buffer (omega arith)
          ∙ launched t batch a.free_pages a.page_size seen pos x alike i l enough) in
    rw
      (
        debug,
        fits,
        num_new_pages_extend batch a.page_size,
        length-map batch (λ (e : Extent). e.prefix_len),
        table,
      )
      (ground arith)
