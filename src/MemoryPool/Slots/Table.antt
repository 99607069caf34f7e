-- ===== src/MemoryPool/Slots/Table.antt =====
-- The table from requests and positions to cache slots.
use mini_infer.Prelude.{
  ℕ, zero, suc, ◌+◌, ◌-◌, ◌%◌, ◌^◌, ◌≤◌, ◌<◌, ◌≡◌, ◌≢◌, refl, ap, min, true, false, ◌&&◌, List, [],
  ◌∷◌, map, arith, ltb, leb, ◌==◌, if◌then◌else◌, length, get_or, map-range_from, All, ok,
}
use mathlib.Core.Path.{fun_ext}
use native.Mathlib.Nat.{mod-eq_of_lt}
use mini_infer.Prelude.Int.{pos}
use mini_infer.MemoryPool.Slots.{RequestPool, to_int32, spread, write, read}

to_int32_small : (v : ℕ) → v < 2 ^ 31 → to_int32 v ≡ pos v
unfolding to_int32
to_int32_small v l =
    let small : v % 2 ^ 32 ≡ v = mod-eq_of_lt (omega arith) in ground (arith, small)

All-get_or : (xs : List ℕ) (i : ℕ) → All (λ v. v < 2 ^ 31) xs → get_or xs i 0 < 2 ^ 31
All-get_or [] i h = omega arith
All-get_or (x ∷ xs) zero h = h.0
All-get_or (x ∷ xs) (suc i) h = All-get_or xs i h.1

module _ (p : RequestPool) (req_idx start : ℕ) (kv : List ℕ) (inside : req_idx < p.max_requests)
    (fits : start + length kv ≤ p.max_context_len) where
  -- What `write` leaves.
  abbrev written : RequestPool
  written = record p {
    req_to_token = λ r i.
        if (r == req_idx)
          && (leb start i && ltb i (start + (min (start + length kv) p.max_context_len - start)))
        then to_int32 (spread kv (i - start))
        else p.req_to_token r i;
  }

  write_lem : write req_idx start (start + length kv) kv p ≡ ok written
  unfolding write
  write_lem = ground (arith, inside, fits)

  written-at :
      All (λ v. v < 2 ^ 31) kv
      → (i : ℕ) → i < length kv
      → written.req_to_token req_idx (start + i) ≡ pos (get_or kv i 0)
  written-at small i l =
      let at : start + i - start ≡ i = omega arith in
      let one : spread kv i ≡ get_or kv i 0 = ground arith in
      rw (at, one) (ground (arith, to_int32_small (get_or kv i 0) (All-get_or kv i small)))

  other_row : (r : ℕ) → r ≢ req_idx → written.req_to_token r ≡ p.req_to_token r
  other_row r n = fun_ext (λ i. (let c : (r == req_idx) ≡ false = ground arith in rw c refl))

-- A row slice that is written inside the table and below 2^31 is read back as it was, through
-- int32 and back, and the rows of all other requests read as before.
pub read-write :
    (p : RequestPool) (req_idx start : ℕ) (kv : List ℕ)
    → req_idx < p.max_requests
    → start + length kv ≤ p.max_context_len
    → All (λ v. v < 2 ^ 31) kv
    → (q : RequestPool) × (write req_idx start (start + length kv) kv p ≡ ok q)
      × (read req_idx start (start + length kv) q ≡ ok (map pos kv))
      × ((r a b : ℕ) → r ≢ req_idx → read r a b q ≡ read r a b p)
unfolding read
read-write p req_idx start kv inside fits small =
    let len : min (start + length kv) p.max_context_len - start ≡ length kv = omega (arith, fits) in
    let rows =
      map-range_from ((written p req_idx start kv inside fits).req_to_token req_idx) pos kv start
        (written-at p req_idx start kv inside fits small) in
    let t : ltb req_idx p.max_requests ≡ true = ground (arith, inside) in
    (
      written p req_idx start kv inside fits,
      write_lem p req_idx start kv inside fits,
      rw t (rw len (ap ok rows)),
      λ r a b n. rw (other_row p req_idx start kv inside fits r n) refl,
    )
