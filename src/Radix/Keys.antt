-- ===== src/Radix/Keys.antt =====
-- How radix_cache.py compares keys: `_key_match_page_size1`, `_key_match_paged`, `get_child_key`. On
-- pages of one token a child key is that token, an int, which stands as a list of one token here;
-- `len_child_key` is what `len` makes of it.
use native.Mathlib.Nat.{suc-mul, zero-mul}
use mini_infer.Prelude.{
  if_of_true, if_of_false, ℕ, zero, suc, ◌+◌, ◌-◌, ◌*◌, ◌/◌, ◌≤◌, ◌<◌, ◌≡◌, refl, sym, ap, ◌∙◌, min,
  Bool, true, false, ◌&&◌, List, [], ◌∷◌, arith, ltb, ◌==◌, if◌then◌else◌, length, drop_add,
  take-take_add, drop-take_add, length-take, length-drop, take, drop, Bool-cases, inl, inr,
  ℕ_discrete, Result, ok, err, type_error,
}

abbrev pub same_list : List ℕ → List ℕ → Bool
same_list [] [] = true
same_list [] (y ∷ ys) = false
same_list (x ∷ xs) [] = false
same_list (x ∷ xs) (y ∷ ys) = let rest = same_list xs ys in (x == y) && rest

abbrev pub key_match_page_size1 : List ℕ → List ℕ → ℕ
key_match_page_size1 [] key1 = 0
key_match_page_size1 (x ∷ key0) [] = 0
key_match_page_size1 (x ∷ key0) (y ∷ key1) =
    let rest = key_match_page_size1 key0 key1 in if x == y then suc rest else 0

-- The loop from page to page, on what is left of the keys; each round takes a token at least.
unfoldable pub match_pages : ℕ → ℕ → List ℕ → List ℕ → ℕ
match_pages page_size zero key0 key1 = 0
match_pages page_size (suc rounds) key0 key1 =
    let rest = match_pages page_size rounds (drop page_size key0) (drop page_size key1) in
    if ltb 0 (min (length key0) (length key1))
    then (if same_list (take page_size key0) (take page_size key1) then page_size + rest else 0)
    else 0

unfoldable pub key_match_paged : ℕ → List ℕ → List ℕ → ℕ
unfolding match_pages
key_match_paged page_size key0 key1 =
    match_pages page_size (min (length key0) (length key1)) key0 key1

-- `key_match_fn`
unfoldable pub key_match : ℕ → List ℕ → List ℕ → ℕ
unfolding key_match_paged
key_match page_size key0 key1 =
    if page_size == 1 then key_match_page_size1 key0 key1 else key_match_paged page_size key0 key1

abbrev pub get_child_key : ℕ → List ℕ → List ℕ
get_child_key page_size key = take page_size key

-- `len(child_key)`, which an int has not.
abbrev pub len_child_key : ℕ → List ℕ → Result ℕ
len_child_key page_size child_key = if page_size == 1 then err type_error else ok (length child_key)

unfoldable pub align_len : ℕ → ℕ → ℕ
align_len page_size length = length / page_size * page_size

pub same_list_iff : (xs ys : List ℕ) → same_list xs ys ≡ true → xs ≡ ys
same_list_iff [] [] h = refl
same_list_iff [] (y ∷ ys) h = cc
same_list_iff (x ∷ xs) [] h = cc
same_list_iff (x ∷ xs) (y ∷ ys) h = ground (arith, same_list_iff xs ys)

pub same_list_self : (xs : List ℕ) → same_list xs xs ≡ true
same_list_self [] = refl
same_list_self (x ∷ xs) = ground (arith, same_list_self xs)

pub same_list_comm : (xs ys : List ℕ) → same_list xs ys ≡ same_list ys xs
same_list_comm [] [] = refl
same_list_comm [] (y ∷ ys) = refl
same_list_comm (x ∷ xs) [] = refl
same_list_comm (x ∷ xs) (y ∷ ys) = ground (arith, same_list_comm xs ys)

-- The two loops agree on pages of one token.
match_pages_one :
    (f : ℕ) (a b : List ℕ)
    → min (length a) (length b) ≤ f
    → match_pages 1 f a b ≡ key_match_page_size1 a b
unfolding match_pages
match_pages_one zero [] b h = refl
match_pages_one zero (x ∷ a) [] h = refl
match_pages_one zero (x ∷ a) (y ∷ b) h = ground arith
match_pages_one (suc f) [] b h = ground arith
match_pages_one (suc f) (x ∷ a) [] h = ground arith
match_pages_one (suc f) (x ∷ a) (y ∷ b) h = ground (arith, match_pages_one f a b)

pub key_match_lem : (ps : ℕ) (a b : List ℕ) → key_match ps a b ≡ key_match_paged ps a b
unfolding key_match key_match_paged
key_match_lem ps a b = elim (ℕ_discrete ps 1) [
  | yes e ↦ rw e (sym (match_pages_one (min (length a) (length b)) a b (omega arith)))
  | no n ↦ let c : (ps == 1) ≡ false = ground arith in rw c
]

-- More rounds than tokens change nothing.
match_pages_enough :
    (ps f g : ℕ) (a b : List ℕ)
    → 0 < ps
    → min (length a) (length b) ≤ f
    → min (length a) (length b) ≤ g
    → match_pages ps f a b ≡ match_pages ps g a b
unfolding match_pages
match_pages_enough ps zero zero a b p h k = refl
match_pages_enough ps zero (suc g) a b p h k = ground arith
match_pages_enough ps (suc f) zero a b p h k = ground arith
match_pages_enough ps (suc f) (suc g) a b p h k =
    ground (
      arith,
      match_pages_enough ps f g (drop ps a) (drop ps b) p,
      length-drop ps a,
      length-drop ps b,
    )

abbrev pub nonempty {ℓ} : {A : Type ℓ} → List A → Bool
nonempty [] = false
nonempty (x ∷ xs) = true

module _ (ps : ℕ) (pos : 0 < ps) where
  pub key_match-step :
      (a b : List ℕ)
      → 0 < length a
      → 0 < length b
      → key_match ps a b ≡ (
          if same_list (get_child_key ps a) (get_child_key ps b)
          then ps + key_match ps (drop ps a) (drop ps b)
          else 0)
  unfolding key_match_paged match_pages
  key_match-step [] b h k = elim h [ ]
  key_match-step (x ∷ a) [] h k = elim k [ ]
  key_match-step (x ∷ a) (y ∷ b) h k =
      rw (key_match_lem ps (x ∷ a) (y ∷ b), key_match_lem ps (drop ps (x ∷ a)) (drop ps (y ∷ b)))
        (let n = min (length a) (length b) in
          let first =
            match_pages_enough ps (min (suc (length a)) (suc (length b))) (suc n) (x ∷ a) (y ∷ b)
              pos (omega arith) (omega arith) in
          let next =
            match_pages_enough ps n (min (length (drop ps (x ∷ a))) (length (drop ps (y ∷ b))))
              (drop ps (x ∷ a)) (drop ps (y ∷ b)) pos
              (omega (arith, length-drop ps (x ∷ a), length-drop ps (y ∷ b))) (omega arith) in
          let c : ltb 0 (min (suc (length a)) (suc (length b))) ≡ true = ground arith in
          first ∙ rw (c, next))

  pub key_match-nil : (b : List ℕ) → key_match ps [] b ≡ 0
  unfolding key_match_paged match_pages
  key_match-nil b = rw (key_match_lem ps [] b) (let z : min 0 (length b) ≡ 0 = omega arith in rw z)

  pub key_match-nil_right : (a : List ℕ) → key_match ps a [] ≡ 0
  unfolding key_match_paged match_pages
  key_match-nil_right a =
      rw (key_match_lem ps a []) (let z : min (length a) 0 ≡ 0 = omega arith in rw z)

-- A key of `n` pages.
abbrev pub Pages : ℕ → ℕ → List ℕ → Type 0
Pages ps n key = length key ≡ n * ps

module _ (ps : ℕ) (pos : 0 < ps) where
  pub drop-Pages : (n : ℕ) (key : List ℕ) → Pages ps (suc n) key → Pages ps n (drop ps key)
  drop-Pages n key h = omega (arith, length-drop ps key, suc-mul n ps)

  Pages-nonempty : (n : ℕ) (key : List ℕ) → Pages ps (suc n) key → 0 < length key
  Pages-nonempty n key h = omega (arith, suc-mul n ps)

  Pages-zero : (key : List ℕ) → Pages ps 0 key → key ≡ []
  Pages-zero [] h = refl
  Pages-zero (x ∷ key) h = absurd (omega (arith, zero-mul ps))

  -- A match is of whole pages, and no longer than the keys.
  pub key_match-Pages :
      (q r : ℕ) (a b : List ℕ)
      → Pages ps q a
      → Pages ps r b
      → (j : ℕ) × (key_match ps a b ≡ j * ps) × (j ≤ q) × (j ≤ r)
  key_match-Pages zero r a b h k = (
    0,
    rw (Pages-zero a h) (key_match-nil ps pos b ∙ omega (arith, zero-mul ps)),
    omega arith,
    omega arith,
  )
  key_match-Pages (suc q) zero a b h k = (
    0,
    rw (Pages-zero b k) (key_match-nil_right ps pos a ∙ omega (arith, zero-mul ps)),
    omega arith,
    omega arith,
  )
  key_match-Pages (suc q) (suc r) a b h k =
      let (j, e, l, m) =
        key_match-Pages q r (drop ps a) (drop ps b) (drop-Pages q a h) (drop-Pages r b k) in
      let s = key_match-step ps pos a b (Pages-nonempty q a h) (Pages-nonempty r b k) in
      elim (Bool-cases (same_list (get_child_key ps a) (get_child_key ps b))) [
        | inl c ↦
            (suc j, s ∙ if_of_true _ _ c ∙ omega (arith, e, suc-mul j ps), omega arith, omega arith)
        | inr c ↦ (0, s ∙ if_of_false _ _ c ∙ omega (arith, zero-mul ps), omega arith, omega arith)
      ]

  -- The child keys of two keys are the same exactly if the keys match at all.
  pub get_child_key-key_match :
      (a b : List ℕ)
      → 0 < length a
      → 0 < length b
      → same_list (get_child_key ps a) (get_child_key ps b) ≡ ltb 0 (key_match ps a b)
  get_child_key-key_match a b h k = ground (arith, key_match-step ps pos a b h k)

  pub key_match_self : (q : ℕ) (a : List ℕ) → Pages ps q a → key_match ps a a ≡ length a
  key_match_self zero a h = rw (Pages-zero a h) (key_match-nil ps pos [])
  key_match_self (suc q) a h =
      key_match-step ps pos a a (Pages-nonempty q a h) (Pages-nonempty q a h)
      ∙ rw (same_list_self (get_child_key ps a), key_match_self q (drop ps a) (drop-Pages q a h))
          (omega (arith, length-drop ps a, suc-mul q ps))

  page_first : (j : ℕ) → suc j * ps ≡ ps + j * ps
  page_first j = omega (arith, suc-mul j ps)

  -- A match of a page at least is a match of the first page.
  key_match-next :
      (q r m : ℕ) (a b : List ℕ)
      → Pages ps (suc q) a
      → Pages ps (suc r) b
      → key_match ps a b ≡ suc m * ps
      → (same_list (get_child_key ps a) (get_child_key ps b) ≡ true)
        × (key_match ps (drop ps a) (drop ps b) ≡ m * ps)
  key_match-next q r m a b h k e =
      let s = key_match-step ps pos a b (Pages-nonempty q a h) (Pages-nonempty r b k) in
      elim (Bool-cases (same_list (get_child_key ps a) (get_child_key ps b))) [
        | inl c ↦ (c, let t = s ∙ if_of_true _ _ c in omega (arith, t, suc-mul m ps))
        | inr c ↦ let t = s ∙ if_of_false _ _ c in absurd (omega (arith, t, suc-mul m ps))
      ]

  -- Behind `j` pages that match, the rest matches as far as it did.
  pub key_match-drop :
      (j q r m : ℕ) (a b : List ℕ)
      → Pages ps q a
      → Pages ps r b
      → key_match ps a b ≡ m * ps
      → j ≤ m
      → key_match ps (drop (j * ps) a) (drop (j * ps) b) ≡ m * ps - j * ps
  key_match-drop zero q r m a b h k e l = rw (zero-mul ps) (omega (arith, e))
  key_match-drop (suc j) q r zero a b h k e l = absurd (omega arith)
  key_match-drop (suc j) zero r (suc m) a b h k e l = absurd (
      omega (
        arith,
        e,
        suc-mul m ps,
        ap (λ x. key_match ps x b) (Pages-zero a h),
        key_match-nil ps pos b,
      ))
  key_match-drop (suc j) (suc q) zero (suc m) a b h k e l = absurd (
      omega (
        arith,
        e,
        suc-mul m ps,
        ap (key_match ps a) (Pages-zero b k),
        key_match-nil_right ps pos a,
      ))
  key_match-drop (suc j) (suc q) (suc r) (suc m) a b h k e l =
      let (c, n) = key_match-next q r m a b h k e in
      let rest =
        key_match-drop j q r m (drop ps a) (drop ps b) (drop-Pages q a h) (drop-Pages r b k) n
          (omega arith) in
      rw (page_first j, drop_add ps (j * ps) a, drop_add ps (j * ps) b, rest)
        (omega (arith, page_first m))

  -- The first `j` pages of a key match as far as the key does, and no further than they go.
  pub key_match-take :
      (j q r : ℕ) (a b : List ℕ)
      → Pages ps q a
      → Pages ps r b
      → j ≤ q
      → key_match ps (take (j * ps) a) b ≡ min (j * ps) (key_match ps a b)
  key_match-take zero q r a b h k l = rw (zero-mul ps, key_match-nil ps pos b) (omega arith)
  key_match-take (suc j) zero r a b h k l = absurd (omega arith)
  key_match-take (suc j) (suc q) zero a b h k l =
      rw
        (
          Pages-zero b k,
          key_match-nil_right ps pos a,
          key_match-nil_right ps pos (take (suc j * ps) a),
        )
        (omega arith)
  key_match-take (suc j) (suc q) (suc r) a b h k l =
      let s = key_match-step ps pos a b (Pages-nonempty q a h) (Pages-nonempty r b k) in
      let rest =
        key_match-take j q r (drop ps a) (drop ps b) (drop-Pages q a h) (drop-Pages r b k)
          (omega arith) in
      let long : 0 < length (take (ps + j * ps) a) =
        omega (arith, length-take (ps + j * ps) a, Pages-nonempty q a h) in
      let t = key_match-step ps pos (take (ps + j * ps) a) b long (Pages-nonempty r b k) in
      rw (page_first j, t, s, take-take_add ps (j * ps) a, drop-take_add ps (j * ps) a, rest)
        (ground arith)
