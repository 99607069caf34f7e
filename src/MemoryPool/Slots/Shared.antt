-- ===== src/MemoryPool/Slots/Shared.antt =====
-- `TokenAllocator` and `RequestPool` as pools of slots, with a client that takes and gives back.
use mini_infer.Prelude.{
  ℕ, zero, suc, ◌+◌, ◌≡◌, refl, sym, ap, ◌∙◌, ◌⊎◌, inl, inr, ◌&&◌, Option, none, some, List, [],
  ◌∷◌, ◌++◌, arith, ltb, leb, ◌==◌, if◌then◌else◌, take, drop, take-append-drop, count, range_from,
}
use mathlib.Core.List.{append-nil}
use mini_infer.MemoryPool.Slots.{
  TokenAllocator, new_token_allocator, alloc_tokens, free_tokens, RequestPool, new_request_pool,
  alloc_requests, free_requests,
}

pub record SlotAllocator (S : Type 0) : Type 0 where
  pub slots : S → List ℕ
  pub alloc : ℕ → S → Option (List ℕ) × S
  pub free : List ℕ → S → S
  pub alloc_takes :
      (n : ℕ) (s : S)
      → (((alloc n s).0 ≡ none) × (slots (alloc n s).1 ≡ slots s))
        ⊎ (((alloc n s).0 ≡ some (take n (slots s))) × (slots (alloc n s).1 ≡ drop n (slots s)))
  pub free_adds : (xs : List ℕ) (s : S) → slots (free xs s) ≡ slots s ++ xs

pub alloc_tokens-takes :
    (n : ℕ) (a : TokenAllocator)
    → (((alloc_tokens n a).0 ≡ none) × ((alloc_tokens n a).1.free_slots ≡ a.free_slots))
      ⊎ (((alloc_tokens n a).0 ≡ some (take n a.free_slots))
          × ((alloc_tokens n a).1.free_slots ≡ drop n a.free_slots))
unfolding alloc_tokens
alloc_tokens-takes n a = ground arith

pub free_tokens-adds :
    (xs : List ℕ) (a : TokenAllocator) → (free_tokens xs a).free_slots ≡ a.free_slots ++ xs
unfolding free_tokens
free_tokens-adds [] a = sym (append-nil a.free_slots)
free_tokens-adds (x ∷ xs) a = ground arith

pub alloc_requests-takes :
    (n : ℕ) (p : RequestPool)
    → (((alloc_requests n p).0 ≡ none) × ((alloc_requests n p).1.free_slots ≡ p.free_slots))
      ⊎ (((alloc_requests n p).0 ≡ some (take n p.free_slots))
          × ((alloc_requests n p).1.free_slots ≡ drop n p.free_slots))
unfolding alloc_requests
alloc_requests-takes n p = ground arith

pub free_requests-adds :
    (xs : List ℕ) (p : RequestPool) → (free_requests xs p).free_slots ≡ p.free_slots ++ xs
unfolding free_requests
free_requests-adds xs p = refl

abbrev pub token_slots : SlotAllocator TokenAllocator
token_slots = record {
  slots = λ a. a.free_slots;
  alloc = alloc_tokens;
  free = free_tokens;
  alloc_takes = alloc_tokens-takes;
  free_adds = free_tokens-adds;
}

abbrev pub request_slots : SlotAllocator RequestPool
request_slots = record {
  slots = λ p. p.free_slots;
  alloc = alloc_requests;
  free = free_requests;
  alloc_takes = alloc_requests-takes;
  free_adds = free_requests-adds;
}

-- A client and what it holds, the newest allocation first; it gives back whole allocations.
pub data Use : Type 0 where
  takes releases : ℕ → Use

abbrev pub occurrences : ℕ → List ℕ → ℕ
occurrences a xs = count (λ x. x == a) xs

abbrev pub in_all : ℕ → List (List ℕ) → ℕ
in_all a [] = 0
in_all a (xs ∷ held) = occurrences a xs + in_all a held

abbrev pub nth : ℕ → List (List ℕ) → List ℕ
nth i [] = []
nth zero (xs ∷ held) = xs
nth (suc i) (xs ∷ held) = nth i held

abbrev pub without : ℕ → List (List ℕ) → List (List ℕ)
without i [] = []
without zero (xs ∷ held) = held
without (suc i) (xs ∷ held) = xs ∷ without i held

in_all-without :
    (a i : ℕ) (held : List (List ℕ))
    → occurrences a (nth i held) + in_all a (without i held) ≡ in_all a held
in_all-without a i [] = refl
in_all-without a zero (xs ∷ held) = refl
in_all-without a (suc i) (xs ∷ held) = omega (arith, in_all-without a i held)

occurrences-append :
    (a : ℕ) (xs ys : List ℕ) → occurrences a (xs ++ ys) ≡ occurrences a xs + occurrences a ys
occurrences-append a [] ys = omega arith
occurrences-append a (x ∷ xs) ys = ground (arith, occurrences-append a xs ys)

occurrences-range_from :
    (a k n : ℕ) → occurrences a (range_from k n) ≡ (if leb k a && ltb a (k + n) then 1 else 0)
occurrences-range_from a k zero = ground arith
occurrences-range_from a k (suc n) = ground (arith, occurrences-range_from a (k + 1) n)

module _ {S : Type 0} (A : SlotAllocator S) where
  abbrev pub hold : Option (List ℕ) → List (List ℕ) → List (List ℕ)
  hold none held = held
  hold (some xs) held = xs ∷ held

  unfoldable pub serve : List Use → S → List (List ℕ) → S × List (List ℕ)
  serve [] s held = (s, held)
  serve (takes n ∷ uses) s held = let (r, s') = A.alloc n s in serve uses s' (hold r held)
  serve (releases i ∷ uses) s held = serve uses (A.free (nth i held) s) (without i held)

  pub serve_keeps :
      (a : ℕ) (uses : List Use) (s : S) (held : List (List ℕ))
      → let (s', held') = serve uses s held in
        occurrences a (A.slots s') + in_all a held' ≡ occurrences a (A.slots s) + in_all a held
  unfolding serve
  serve_keeps a [] s held = refl
  serve_keeps a (takes n ∷ uses) s held =
      serve_keeps a uses (A.alloc n s).1 (hold (A.alloc n s).0 held) ∙ elim (A.alloc_takes n s) [
        | inl (r, e) ↦ rw (r, e)
        | inr (r, e) ↦
            rw (r, e)
              (omega (
                arith,
                ap (occurrences a) (take-append-drop n (A.slots s)),
                occurrences-append a (take n (A.slots s)) (drop n (A.slots s)),
              ))
      ]
  serve_keeps a (releases i ∷ uses) s held =
      serve_keeps a uses (A.free (nth i held) s) (without i held)
      ∙ omega (
        arith,
        ap (occurrences a) (A.free_adds (nth i held) s),
        occurrences-append a (A.slots s) (nth i held),
        in_all-without a i held,
      )

-- Whatever a client takes from a new request pool and gives back, each index below `max_requests` is
-- free or held by one allocation, once, and no other index is either.
pub serve-new_request_pool :
    (max_requests max_context_len a : ℕ) (uses : List Use)
    → let (p, held) = serve request_slots uses (new_request_pool max_requests max_context_len) [] in
      occurrences a p.free_slots + in_all a held ≡ (if ltb a max_requests then 1 else 0)
serve-new_request_pool max_requests max_context_len a uses =
    unfold new_request_pool in
    serve_keeps request_slots a uses (new_request_pool max_requests max_context_len) []
    ∙ ground (arith, occurrences-range_from a 0 max_requests)

-- Whatever a client takes from a new token allocator and gives back, each slot from 1 to `size` is
-- free or held by one allocation, once, and no other slot is either.
pub serve-new_token_allocator :
    (size a : ℕ) (uses : List Use)
    → let (t, held) = serve token_slots uses (new_token_allocator size) [] in
      occurrences a t.free_slots + in_all a held ≡ (if leb 1 a && leb a size then 1 else 0)
serve-new_token_allocator size a uses =
    unfold new_token_allocator in
    serve_keeps token_slots a uses (new_token_allocator size) []
    ∙ ground (arith, occurrences-range_from a 1 size)
