-- ===== src/MemoryPool/Decode.antt =====
-- `alloc_decode` and the launch of `alloc_decode_kernel`, against the token-by-token placement.
pub mod Stale
use mini_infer.Prelude.{
  ℕ, zero, suc, ◌+◌, ◌-◌, ◌*◌, ◌%◌, ◌<◌, ◌≤◌, ◌≡◌, refl, sym, ap, ◌∙◌, true, false, Option, none,
  some, List, [], ◌∷◌, map, arith, ltb, leb, ◌==◌, if◌then◌else◌, Bool-cases, inl, inr, get_or,
  drop, length, length-map, All, tabulate_from-eq, ok, ℕ_discrete,
}
use native.Mathlib.Nat.{mod-add-mod, mod_self, mod-eq_of_lt, mod-lt}
use mini_infer.MemoryPool.Torch.{Torch}
use mini_infer.MemoryPool.Launch.{Write, ElemWrite, store_all, store_all-agree}
use mini_infer.MemoryPool.Sizes.{
  ceil_div_step, new_pages, next_power_of_2, le-next_power_of_2, get_num_new_pages_decode,
}
use mini_infer.MemoryPool.Kernels.{sum_lanes, next_loc, load_upto, alloc_decode_kernel}
use mini_infer.MemoryPool.Place.{Extent, place, place_all, pages_needed, get_or-drop}
use mini_infer.MemoryPool.Place.Index.{
  sum_lanes_upto, get_or-map, nothing, extent, extend_len, tokens_before, pages_before,
  place_all-at, length-place_all,
}
use mini_infer.MemoryPool.Paged.{Paged, alloc_decode}

-- A decode batch: each length counts the one token to place.
abbrev pub IsDecode : List Extent → Type 0
IsDecode = All (λ e. e.seq_len ≡ e.prefix_len + 1)

one_token :
    (batch : List Extent) (i : ℕ)
    → IsDecode batch
    → i < length batch
    → (extent batch i).seq_len ≡ (extent batch i).prefix_len + 1
one_token [] i h l = elim l [ ]
one_token (e ∷ batch) zero h l = h.0
one_token (e ∷ batch) (suc i) h l = one_token batch i h.1 (omega arith)

tokens_before-decode :
    (batch : List Extent) (i : ℕ) → IsDecode batch → i ≤ length batch → tokens_before batch i ≡ i
unfolding sum_lanes
tokens_before-decode batch zero h l = refl
tokens_before-decode batch (suc i) h l =
    omega (arith, tokens_before-decode batch i h (omega arith), one_token batch i h (omega arith))

-- A new page for the last token means that the length is 1 over a multiple of the page.
starts_page : (p ps : ℕ) → 2 ≤ ps → ((p + 1) % ps == 1) ≡ (p % ps == 0)
starts_page p ps h = elim (ℕ_discrete (p % ps + 1) ps) [
  | yes e ↦
      let z : (p + 1) % ps ≡ 0 =
        sym (mod-add-mod p ps 1) ∙ ap (λ (k : ℕ). k % ps) e ∙ mod_self ps in
      rw z (ground arith)
  | no e ↦
      let z : (p + 1) % ps ≡ p % ps + 1 =
        sym (mod-add-mod p ps 1) ∙ mod-eq_of_lt (omega (arith, mod-lt p {m = ps} (omega arith))) in
      rw z (ground arith)
]

new_pages_one : (p ps : ℕ) → 0 < ps → new_pages ps p (p + 1) ≡ (if p % ps == 0 then 1 else 0)
new_pages_one p ps h = rw (ceil_div_step p ps h) (omega arith)

needs : (p ps : ℕ) → 2 ≤ ps → new_pages ps p (p + 1) ≡ (if (p + 1) % ps == 1 then 1 else 0)
needs p ps h = rw starts_page (ground (arith, ceil_div_step p ps))

pub num_new_pages_decode :
    (batch : List Extent) (ps : ℕ)
    → 2 ≤ ps
    → IsDecode batch
    → get_num_new_pages_decode (map (λ (e : Extent). e.seq_len) batch) ps ≡ pages_needed ps batch
unfolding get_num_new_pages_decode pages_needed
num_new_pages_decode [] ps h d = refl
num_new_pages_decode (e ∷ batch) ps h d =
    rw d.0 (omega (arith, needs e.prefix_len ps h, num_new_pages_decode batch ps h d.1))

module _ (t : Torch) (batch : List Extent) (free_pages : List ℕ) (ps : ℕ) (h : 2 ≤ ps)
    (d : IsDecode batch) where
  abbrev seqs : List ℕ
  seqs = map (λ e. e.seq_len) batch

  abbrev lasts : List (Option ℕ)
  lasts = map (λ e. e.last_loc) batch

  abbrev kernel : ℕ → List Write
  kernel = alloc_decode_kernel t seqs lasts free_pages (next_power_of_2 (length batch)) ps

  -- The one value that instance `pid` writes.
  abbrev decoded : ℕ → ℕ
  decoded pid = get_or (place_all ps batch free_pages) pid 0

  -- What the loads of instance `pid` find in a lane that counts, and in one that does not.
  abbrev loaded : ℕ → ℕ → ℕ
  loaded pid lane = load_upto t 0 pid seqs lane

  seq_len-at : (i : ℕ) → get_or seqs i 0 ≡ (extent batch i).seq_len
  seq_len-at i = get_or-map (λ e. e.seq_len) batch i nothing

  last_loc-at : (i : ℕ) → get_or lasts i none ≡ (extent batch i).last_loc
  last_loc-at i = get_or-map (λ e. e.last_loc) batch i nothing

  abbrev lane_pages : ℕ → ℕ → ℕ
  lane_pages pid lane =
      new_pages ps (if leb lane pid then loaded pid lane - 1 else loaded pid lane) (loaded pid lane)

  abbrev own_pages : ℕ → ℕ
  own_pages i = new_pages ps (extent batch i).prefix_len (extent batch i).seq_len

  lane_pages_upto :
      (pid lane : ℕ) → pid < length batch → lane ≤ pid → lane_pages pid lane ≡ own_pages lane
  lane_pages_upto pid lane l m =
      let c : leb lane pid ≡ true = ground arith in
      let s : (extent batch lane).seq_len - 1 ≡ (extent batch lane).prefix_len =
        omega (arith, one_token batch lane d (omega arith)) in
      rw (c, seq_len-at lane, s)

  lane_pages_beyond : (pid lane : ℕ) → pid < lane → lane_pages pid lane ≡ 0
  lane_pages_beyond pid lane m = let c : leb lane pid ≡ false = ground arith in rw c (omega arith)

  lanes_sum :
      (pid : ℕ)
      → pid < length batch
      → sum_lanes (lane_pages pid) (next_power_of_2 (length batch))
        ≡ pages_before ps batch pid + own_pages pid
  lanes_sum pid l =
      sum_lanes_upto own_pages (lane_pages pid) pid (next_power_of_2 (length batch))
        (λ k m. lane_pages_upto pid k l m) (λ k m. lane_pages_beyond pid k m)
        (omega (arith, le-next_power_of_2 (length batch)))

  decoded-eq :
      (pid : ℕ)
      → pid < length batch
      → decoded pid ≡ (
          if (extent batch pid).prefix_len % ps == 0
          then get_or free_pages (pages_before ps batch pid) 0 * ps
          else next_loc (extent batch pid).last_loc)
  unfolding place
  decoded-eq pid l =
      let one : extend_len (extent batch pid) ≡ 1 = omega (arith, one_token batch pid d l) in
      let at = place_all-at ps batch free_pages pid 0 l (omega arith) in
      let x : tokens_before batch pid + 0 ≡ pid =
        omega (arith, tokens_before-decode batch pid d (omega arith)) in
      let first : get_or (drop (pages_before ps batch pid) free_pages) 0 0
          ≡ get_or free_pages (pages_before ps batch pid) 0 =
        get_or-drop (pages_before ps batch pid) free_pages 0 0
        ∙ ap (λ k. get_or free_pages k 0) (omega arith) in
      ap (λ k. get_or (place_all ps batch free_pages) k 0) (sym x) ∙ at ∙ rw (one, place, first)

  kernel-writes :
      (pid : ℕ)
      → pid < length batch
      → kernel pid ≡ record { address = pid; value = decoded pid } ∷ []
  unfolding alloc_decode_kernel
  kernel-writes pid l =
      let one = one_token batch pid d l in
      let s : (extent batch pid).seq_len - 1 ≡ (extent batch pid).prefix_len = omega (arith, one) in
      let z : pages_before ps batch pid + own_pages pid - own_pages pid
          ≡ pages_before ps batch pid =
        omega arith in
      let own : own_pages pid ≡ (if (extent batch pid).prefix_len % ps == 0 then 1 else 0) =
        rw one (new_pages_one (extent batch pid).prefix_len ps (omega arith)) in
      rw (seq_len-at pid, last_loc-at pid, s, lanes_sum pid l, z, own, decoded-eq pid l)
        (elim (Bool-cases ((extent batch pid).prefix_len % ps == 0)) [
          | inl c ↦ rw c
          | inr c ↦ rw c
        ])

  -- The buffer after the launch, at the address of sequence `pid`.
  launched :
      (pid : ℕ)
      → pid < length batch
      → store_all (t.grid kernel (length batch)) t.uninit pid ≡ decoded pid
  launched pid l =
      store_all-agree (t.grid kernel (length batch)) t.uninit pid (decoded pid)
        (record { address = pid; value = decoded pid })
        (t.grid_complete kernel (length batch) pid _ l (rw (kernel-writes pid l) (inl refl))) refl
        (λ w m e.
          let (q, k, n) = t.grid_sound kernel (length batch) w m in
          agree pid q w e (rw (kernel-writes q k) at n))
    where
      agree :
          (pid q : ℕ) (w : Write)
          → w.address ≡ pid
          → ElemWrite w (record { address = q; value = decoded q } ∷ [])
          → w.value ≡ decoded pid
      agree pid q w e (inl p) =
          ap (λ (u : Write). u.value) p ∙ ap decoded (sym (ap (λ (u : Write). u.address) p) ∙ e)
      agree pid q w e (inr n) = absurd n

-- On an allocator in its default mode, with pages of two slots or more, for sequences with one
-- token to place, which their lengths count, `alloc_decode` hands out exactly the slots that the
-- token-by-token placement gives the batch, and drops exactly the pages that it takes; it hands out
-- nothing and keeps its state if there are too few. This holds for every order in which the
-- kernel's instances write, and whatever masked lanes and fresh memory hold.
pub alloc_decode-place :
    (t : Torch) (a : Paged) (batch : List Extent)
    → 2 ≤ a.page_size
    → a.debug_mode ≡ false
    → a.need_sort ≡ false
    → IsDecode batch
    → alloc_decode t
        (map (λ e. e.seq_len) batch)
        (map (λ e. e.seq_len) batch)
        (map (λ e. e.last_loc) batch)
        a
      ≡ (if ltb (length a.free_pages) (pages_needed a.page_size batch)
          then ok (none, a)
          else ok (
            some (place_all a.page_size batch a.free_pages),
            record a { free_pages = drop (pages_needed a.page_size batch) a.free_pages },
          ))
unfolding alloc_decode
alloc_decode-place t a batch two debug sort d =
    let count = num_new_pages_decode batch a.page_size two d in
    let len : length (map (λ (e : Extent). e.seq_len) batch) ≡ length batch =
      length-map batch (λ e. e.seq_len) in
    let table =
      tabulate_from-eq 0
        (store_all (t.grid (kernel t batch a.free_pages a.page_size two d) (length batch)) t.uninit)
        (place_all a.page_size batch a.free_pages) 0 (length batch)
        (length-place_all a.page_size batch a.free_pages
          ∙ tokens_before-decode batch (length batch) d (omega arith))
        (λ i l.
          ap
            (store_all (t.grid (kernel t batch a.free_pages a.page_size two d) (length batch))
              t.uninit)
            (omega arith)
          ∙ launched t batch a.free_pages a.page_size two d i l) in
    rw (debug, sort, len, count, table) (ground arith)
