-- ===== src/FutureMap/Ring.antt =====
-- `FutureMap` with batches that follow one another round the ring.
use mini_infer.Prelude.{
  map-range_from, ℕ, zero, suc, ◌+◌, ◌-◌, ◌*◌, ◌%◌, ◌<◌, ◌≤◌, ◌≡◌, refl, ap, ◌∙◌, Bool, true, false,
  ◌&&◌, some, List, [], ◌∷◌, map, arith, ltb, leb, if◌then◌else◌, length, get_or, All, ok, min,
  dec_lt,
}
use native.Mathlib.Nat.{mod-eq_of_lt, mod-eq-sub-mod, mod-lt, mod-add-mod}
use mini_infer.Prelude.Int.{pos, negsuc}
use mini_infer.FutureMap.{
  FutureMap, alloc_future_indices, get_placeholder_input_ids, negate, resolve_one,
  resolve_future_input_ids, record_batch, record_batches,
}

-- The sizes of a map made by `new_map` for `max_running` requests.
pub record IsRing (max_running : ℕ) (m : FutureMap) : Type 0 where
  pub room : m.buffer_len ≡ m.future_limit + 2 * max_running
  pub pointer : m.future_ct < m.future_limit
  pub running : 0 < max_running

-- `tokens` stand in the slots behind `base`.
abbrev Holds : FutureMap → ℕ → List ℕ → Type 0
Holds m base tokens =
    (i : ℕ) → i < length tokens → m.token_ids_buf (base + 1 + i) ≡ get_or tokens i 0

-- The pointer after `used` slots from `base` on.
abbrev At : FutureMap → ℕ → ℕ → Type 0
At m base used = m.future_ct ≡ (base + used) % m.future_limit

module _ (max_running : ℕ) (m : FutureMap) (r : IsRing max_running m) (tokens : List ℕ)
    (small : length tokens ≤ max_running) where
  -- What `record_batch` leaves: it never raises.
  abbrev written : FutureMap
  written = record m {
    future_ct = (m.future_ct + length tokens) % m.future_limit;
    token_ids_buf = λ i.
        if leb (m.future_ct + 1) i && ltb i (m.future_ct + 1 + length tokens)
        then get_or tokens (i - (m.future_ct + 1)) 0
        else m.token_ids_buf i;
  }

  record_batch_lem : record_batch tokens m ≡ ok written
  unfolding record_batch
  record_batch_lem = ground (arith, r.room, r.pointer)

  written-IsRing : IsRing max_running written
  written-IsRing = record {
    room = r.room;
    pointer = mod-lt _ (omega (arith, r.pointer));
    running = r.running;
  }

  written-Holds : Holds written m.future_ct tokens
  written-Holds i l = ground (
    arith,
    ap (λ k. get_or tokens k 0) {x = m.future_ct + 1 + i - (m.future_ct + 1)} {y = i} (omega arith),
  )

  -- A batch that still holds is not overwritten while the slots used since it began fit the ring.
  written-keeps :
      (base used : ℕ) (old : List ℕ)
      → base < m.future_limit
      → length old ≤ used
      → used + length tokens ≤ m.future_limit
      → At m base used
      → Holds m base old
      → Holds written base old
  written-keeps base used old b l u at h i k = elim (dec_lt (base + used) m.future_limit) [
    | yes before ↦
        let ct : m.future_ct ≡ base + used = at ∙ mod-eq_of_lt before in ground (arith, ct, h i)
    | no past ↦
        let ct : m.future_ct ≡ base + used - m.future_limit =
          at ∙ mod-eq-sub-mod (omega arith) ∙ mod-eq_of_lt (omega arith) in
        ground (arith, ct, h i)
  ]

  written-At : (base used : ℕ) → At m base used → At written base (used + length tokens)
  written-At base used at =
      ap (λ k. (k + length tokens) % m.future_limit) at
      ∙ mod-add-mod (base + used) m.future_limit (length tokens)
      ∙ ap (λ k. k % m.future_limit) (omega arith)

-- The slots that a sequence of batches takes.
abbrev pub total_tokens : List (List ℕ) → ℕ
total_tokens [] = 0
total_tokens (b ∷ batches) = length b + total_tokens batches

abbrev pub AllSmall : ℕ → List (List ℕ) → Type 0
AllSmall max_running = All (λ b. length b ≤ max_running)

-- The later batches are all recorded, and the old one still holds.
later_batches :
    (max_running : ℕ) (batches : List (List ℕ)) (m : FutureMap) (base used : ℕ) (old : List ℕ)
    → IsRing max_running m
    → AllSmall max_running batches
    → base < m.future_limit
    → length old ≤ used
    → used + total_tokens batches ≤ m.future_limit
    → At m base used
    → Holds m base old
    → (n : FutureMap) × (record_batches batches m ≡ ok n)
      × Holds n base old
      × (n.buffer_len ≡ m.buffer_len)
unfolding record_batches
later_batches max_running [] m base used old r s b l u at h = (m, refl, h, refl)
later_batches max_running (x ∷ batches) m base used old r s b l u at h =
    let m' = written max_running m r x s.0 in
    let (n, e, k, c) =
      later_batches max_running batches m' base (used + length x) old
        (written-IsRing max_running m r x s.0) s.1 b (omega arith) (omega arith)
        (written-At max_running m r x s.0 base used at)
        (written-keeps max_running m r x s.0 base used old b l (omega arith) at h) in
    (n, rw (record_batch_lem max_running m r x s.0) e, k, c)

map-map :
    {A B C : Type 0} (g : B → C) (f : A → B) (xs : List A)
    → map g (map f xs) ≡ map (λ x. g (f x)) xs
map-map g f [] = refl
map-map g f (x ∷ xs) = ap (λ l. g (f x) ∷ l) (map-map g f xs)

negate-suc : (k : ℕ) → negate (suc k) ≡ negsuc k
negate-suc k = ground arith

-- A placeholder inside the buffer is read at its own slot.
resolve_one_lem :
    (fast : Bool) (n : FutureMap) (k : ℕ)
    → 0 < k
    → k < n.buffer_len
    → resolve_one fast n (negate k) ≡ pos (n.token_ids_buf k)
resolve_one_lem fast n zero l b = ground arith
resolve_one_lem false n (suc k) l b =
    ap (resolve_one false n) (negate-suc k)
    ∙ (ground
        (arith, ap n.token_ids_buf {x = min (suc k) (n.buffer_len - 1)} {y = suc k} (omega arith)))
resolve_one_lem true n (suc k) l b =
    ap (resolve_one true n) (negate-suc k) ∙ ap (λ i. pos (n.token_ids_buf i)) (omega arith)

-- In a map with the sizes that `new_map` gives it for one request or more: record a batch, then any
-- batches, each of at most that many tokens and all together of at most one round of the ring.
-- Nothing raises, and resolving the placeholders of the first batch still gives exactly its tokens,
-- with and without the fast path for ids that are all placeholders.
pub resolve-record_batches :
    (max_running : ℕ) (m : FutureMap) (tokens : List ℕ) (batches : List (List ℕ)) (fast : Bool)
    → IsRing max_running m
    → AllSmall max_running (tokens ∷ batches)
    → total_tokens (tokens ∷ batches) ≤ m.future_limit
    → (n : FutureMap) × (record_batches (tokens ∷ batches) m ≡ ok n)
      × (resolve_future_input_ids
            (some (get_placeholder_input_ids (alloc_future_indices (length tokens) m).0))
            fast
            n
          ≡ some (map pos tokens))
unfolding record_batches resolve_future_input_ids get_placeholder_input_ids alloc_future_indices
resolve-record_batches max_running m tokens batches fast r s fits =
    let m' = written max_running m r tokens s.0 in
    let (n, e, h, c) =
      later_batches max_running batches m' m.future_ct (length tokens) tokens
        (written-IsRing max_running m r tokens s.0) s.1 r.pointer (omega arith) fits refl
        (written-Holds max_running m r tokens s.0) in
    let len : m.future_ct + 1 + length tokens - (m.future_ct + 1) ≡ length tokens = omega arith in
    let one : (i : ℕ)
        → i < length tokens
        → resolve_one fast n (negate (m.future_ct + 1 + i)) ≡ pos (get_or tokens i 0) =
      λ i l.
        resolve_one_lem fast n (m.future_ct + 1 + i) (omega arith)
          (omega (arith, c, r.room, r.pointer, r.running, s.0))
        ∙ ap pos (h i l) in
    (
      n,
      rw (record_batch_lem max_running m r tokens s.0) e,
      rw len (
          ap some (
            map-map (resolve_one fast n) negate _
            ∙ map-range_from (λ k. resolve_one fast n (negate k)) pos tokens (m.future_ct + 1)
                one)),
    )
