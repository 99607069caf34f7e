-- ===== src/MemoryPool/Decode/Stale.antt =====
-- `alloc_decode` with a length that does not count the token to place.
use mini_infer.Prelude.{
  ℕ, ◌+◌, ◌-◌, ◌*◌, ◌%◌, ◌≤◌, ◌≡◌, ◌≢◌, refl, sym, ap, ◌∙◌, true, false, some, List, [], ◌∷◌, arith,
  ◌==◌, ok,
}
use native.Mathlib.Nat.{mod-add-mod, mod-eq_of_lt}
use mini_infer.MemoryPool.Torch.{Torch}
use mini_infer.MemoryPool.Sizes.{ceil_div_step, new_pages}
use mini_infer.MemoryPool.Place.{place, place_all, pages_needed}
use mini_infer.MemoryPool.Paged.{Paged, alloc_decode}
use mini_infer.MemoryPool.Decode.{alloc_decode-place}

-- The last position of a full page starts no page.
last_inside : (n ps : ℕ) → 2 ≤ ps → (n + 1) % ps ≡ 0 → n % ps ≢ 0
last_inside n ps h e z =
    let one : (n + 1) % ps ≡ 1 =
      sym (mod-add-mod n ps 1) ∙ ap (λ (k : ℕ). (k + 1) % ps) z ∙ mod-eq_of_lt (omega arith) in
    omega (arith, e, one)

-- On an allocator in its default mode, with pages of two slots or more and a free page, a sequence
-- that fills its pages, whose length is passed to `alloc_decode` without the token to place, gets
-- the slot behind its last one, and no page is taken from the free
-- list; with the length that counts the token it gets the first slot of the first free page, and
-- that page leaves the list.
pub alloc_decode_stale :
    (t : Torch) (a : Paged) (n slot page : ℕ) (pages : List ℕ)
    → 2 ≤ a.page_size
    → a.debug_mode ≡ false
    → a.need_sort ≡ false
    → a.free_pages ≡ page ∷ pages
    → (n + 1) % a.page_size ≡ 0
    → (alloc_decode t ((n + 1) ∷ []) ((n + 1) ∷ []) (some slot ∷ []) a
        ≡ ok (some ((slot + 1) ∷ []), a))
      × (alloc_decode t ((n + 1 + 1) ∷ []) ((n + 1 + 1) ∷ []) (some slot ∷ []) a
          ≡ ok (some (page * a.page_size ∷ []), record a { free_pages = pages }))
unfolding place_all place pages_needed
alloc_decode_stale t a n slot page pages two debug sort free full =
    let inside : (n % a.page_size == 0) ≡ false =
      ground (arith, last_inside n a.page_size two full) in
    let start : ((n + 1) % a.page_size == 0) ≡ true = ground (arith, full) in
    let none_new : new_pages a.page_size n (n + 1) ≡ 0 =
      rw (ceil_div_step n a.page_size (omega (arith, two))) (ground (arith, inside)) in
    let one_new : new_pages a.page_size (n + 1) (n + 1 + 1) ≡ 1 =
      rw (ceil_div_step (n + 1) a.page_size (omega (arith, two))) (ground (arith, start)) in
    let x : n + 1 - n ≡ 1 = omega arith in
    let y : n + 1 + 1 - (n + 1) ≡ 1 = omega arith in
    (
      alloc_decode-place t a (record { prefix_len = n; seq_len = n + 1; last_loc = some slot } ∷ [])
            two debug sort (refl, tt)
          ∙ rw (none_new, x, inside) (ground arith),
      alloc_decode-place t a
            (record { prefix_len = n + 1; seq_len = n + 1 + 1; last_loc = some slot } ∷ []) two
            debug sort (refl, tt)
          ∙ rw (one_new, y, start, free) (ground arith),
    )
