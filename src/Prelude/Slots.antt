-- ===== src/Prelude/Slots.antt =====
-- Index functions and predicates by recursion on lists of native numbers.
use Prim.Native.Nat.{ℕ, zero, suc, ◌+◌, ◌<◌, ◌≤◌}
use mathlib.Core.Path.{◌≡◌, refl, ap, ◌∙◌, subst}
use mathlib.Core.Logic.{◌⊎◌, inl, inr}
use mathlib.Core.Bool.{Bool, true}
use mathlib.Core.List.{map, List, [], ◌∷◌, ◌++◌}
use native.Mathlib.Omega.{arith}
use native.Mathlib.Decide.{ℕ_discrete}
use mini_infer.Prelude.Tests.{if◌then◌else◌}
use mini_infer.Prelude.Lists.{length, get_or, take, drop}

-- Every element satisfies the predicate; the element occurs; no element occurs twice.
abbrev pub All {ℓ κ} : {A : Type ℓ} → (A → Type κ) → List A → Type κ
All P [] = Unit
All P (x ∷ xs) = P x × All P xs

abbrev pub Elem : {A : Type 0} → A → List A → Type 0
Elem a [] = ⊥
Elem a (x ∷ xs) = (a ≡ x) ⊎ Elem a xs

abbrev pub Distinct : {A : Type 0} → List A → Type 0
Distinct [] = Unit
Distinct (x ∷ xs) = ¬ Elem x xs × Distinct xs

-- `[f 0, f 1, ..., f (n - 1)]`.
abbrev pub tabulate_from {ℓ} : {A : Type ℓ} → (ℕ → A) → ℕ → ℕ → List A
tabulate_from f k zero = []
tabulate_from f k (suc n) = f k ∷ tabulate_from f (k + 1) n

-- `torch.arange(k, k + n)`, `range(k, k + n)`.
abbrev pub range_from : ℕ → ℕ → List ℕ
range_from k zero = []
range_from k (suc n) = k ∷ range_from (k + 1) n

-- `(xs == y).sum()` and the like: how many elements pass a test.
abbrev pub count {ℓ} : {A : Type ℓ} → (A → Bool) → List A → ℕ
count p [] = 0
count p (x ∷ xs) = (if p x then 1 else 0) + count p xs

abbrev pub sum : List ℕ → ℕ
sum [] = 0
sum (x ∷ xs) = x + sum xs

-- `xs[mask]`, with the mask given as a test.
abbrev pub filter {ℓ} : {A : Type ℓ} → (A → Bool) → List A → List A
filter p [] = []
filter p (x ∷ xs) = let rest = filter p xs in if p x then x ∷ rest else rest

pub length-range_from : (k n : ℕ) → length (range_from k n) ≡ n
length-range_from k zero = refl
length-range_from k (suc n) = ap suc (length-range_from (k + 1) n)

pub Elem-range_from : (a k n : ℕ) → Elem a (range_from k n) → (k ≤ a) × (a < k + n)
Elem-range_from a k zero h = absurd h
Elem-range_from a k (suc n) (inl e) = omega arith
Elem-range_from a k (suc n) (inr h) = omega (arith, Elem-range_from a (k + 1) n h)

pub range_from-Elem : (a k n : ℕ) → k ≤ a → a < k + n → Elem a (range_from k n)
range_from-Elem a k zero h j = absurd (omega arith)
range_from-Elem a k (suc n) h j = elim (ℕ_discrete a k) [
  | yes e ↦ inl e
  | no e ↦ inr (range_from-Elem a (k + 1) n (omega arith) (omega arith))
]

pub Distinct-range_from : (k n : ℕ) → Distinct (range_from k n)
Distinct-range_from k zero = tt
Distinct-range_from k (suc n) =
    (λ h. omega (arith, Elem-range_from k (k + 1) n h), Distinct-range_from (k + 1) n)

-- A list of length `n` is the table of its entries.
pub tabulate_from-eq {ℓ} :
    {A : Type ℓ} (d : A) (f : ℕ → A) (xs : List A) (k n : ℕ)
    → length xs ≡ n
    → ((i : ℕ) → i < n → f (k + i) ≡ get_or xs i d)
    → tabulate_from f k n ≡ xs
tabulate_from-eq d f [] k zero e h = refl
tabulate_from-eq d f [] k (suc n) e h = absurd (omega arith)
tabulate_from-eq d f (x ∷ xs) k zero e h = absurd (omega arith)
tabulate_from-eq d f (x ∷ xs) k (suc n) e h =
    let head : f k ≡ x = ap f (omega arith) ∙ h 0 (omega arith) in
    let tail : tabulate_from f (k + 1) n ≡ xs =
      tabulate_from-eq d f xs (k + 1) n (omega arith)
        (λ i j. ap f (omega arith) ∙ h (suc i) (omega arith)) in
    cc

pub Elem-drop : (a n : ℕ) (xs : List ℕ) → Elem a (drop n xs) → Elem a xs
Elem-drop a zero xs h = h
Elem-drop a (suc n) [] h = h
Elem-drop a (suc n) (x ∷ xs) h = inr (Elem-drop a n xs h)

pub Elem-take : (a n : ℕ) (xs : List ℕ) → Elem a (take n xs) → Elem a xs
Elem-take a zero xs h = absurd h
Elem-take a (suc n) [] h = h
Elem-take a (suc n) (x ∷ xs) (inl e) = inl e
Elem-take a (suc n) (x ∷ xs) (inr h) = inr (Elem-take a n xs h)

pub Distinct-drop : (n : ℕ) (xs : List ℕ) → Distinct xs → Distinct (drop n xs)
Distinct-drop zero xs h = h
Distinct-drop (suc n) [] h = h
Distinct-drop (suc n) (x ∷ xs) h = Distinct-drop n xs h.1

pub Distinct-take : (n : ℕ) (xs : List ℕ) → Distinct xs → Distinct (take n xs)
Distinct-take zero xs h = tt
Distinct-take (suc n) [] h = h
Distinct-take (suc n) (x ∷ xs) h = (λ m. h.0 (Elem-take x n xs m), Distinct-take n xs h.1)

-- What is taken and what is left do not meet.
pub take-drop_apart :
    (a n : ℕ) (xs : List ℕ) → Distinct xs → Elem a (take n xs) → ¬ Elem a (drop n xs)
take-drop_apart a zero xs h t m = t
take-drop_apart a (suc n) [] h t m = t
take-drop_apart a (suc n) (x ∷ xs) h (inl e) m = h.0 (subst (λ b. Elem b xs) e (Elem-drop a n xs m))
take-drop_apart a (suc n) (x ∷ xs) h (inr t) m = take-drop_apart a n xs h.1 t m

pub Elem-filter :
    (p : ℕ → Bool) (a : ℕ) (xs : List ℕ) → Elem a (filter p xs) → Elem a xs × (p a ≡ true)
Elem-filter p a [] h = absurd h
Elem-filter p a (x ∷ xs) h = ground (arith, Elem-filter p a xs)

pub filter-Elem :
    (p : ℕ → Bool) (a : ℕ) (xs : List ℕ) → Elem a xs → p a ≡ true → Elem a (filter p xs)
filter-Elem p a [] h e = h
filter-Elem p a (x ∷ xs) h e = ground (arith, filter-Elem p a xs)

pub Elem-append : (a : ℕ) (xs ys : List ℕ) → Elem a (xs ++ ys) → Elem a xs ⊎ Elem a ys
Elem-append a [] ys m = inr m
Elem-append a (x ∷ xs) ys (inl e) = inl (inl e)
Elem-append a (x ∷ xs) ys (inr m) = elim (Elem-append a xs ys m) [
  | inl k ↦ inl (inr k)
  | inr k ↦ inr k
]

pub append-Elem_left : (a : ℕ) (xs ys : List ℕ) → Elem a xs → Elem a (xs ++ ys)
append-Elem_left a [] ys m = absurd m
append-Elem_left a (x ∷ xs) ys (inl e) = inl e
append-Elem_left a (x ∷ xs) ys (inr m) = inr (append-Elem_left a xs ys m)

pub append-Elem_right : (a : ℕ) (xs ys : List ℕ) → Elem a ys → Elem a (xs ++ ys)
append-Elem_right a [] ys m = m
append-Elem_right a (x ∷ xs) ys m = inr (append-Elem_right a xs ys m)

-- A map over positions that gives at each what `f` makes of the entry there.
pub map-range_from {ℓ} :
    {A : Type ℓ} (g f : ℕ → A) (xs : List ℕ) (k : ℕ)
    → ((i : ℕ) → i < length xs → g (k + i) ≡ f (get_or xs i 0))
    → map g (range_from k (length xs)) ≡ map f xs
map-range_from g f [] k h = refl
map-range_from g f (x ∷ xs) k h =
    let first : g k ≡ f x = ap g (omega arith) ∙ h 0 (omega arith) in
    let rest : map g (range_from (k + 1) (length xs)) ≡ map f xs =
      map-range_from g f xs (k + 1) (λ i l. ap g (omega arith) ∙ h (suc i) (omega arith)) in
    cc

pub All-append {ℓ} :
    {A : Type ℓ} (P : A → Type 0) (xs ys : List A) → All P xs → All P ys → All P (xs ++ ys)
All-append P [] ys h k = k
All-append P (x ∷ xs) ys h k = (h.0, All-append P xs ys h.1 k)

pub All-drop {ℓ} :
    {A : Type ℓ} (P : A → Type 0) (n : ℕ) (xs : List A) → All P xs → All P (drop n xs)
All-drop P zero xs h = h
All-drop P (suc n) [] h = h
All-drop P (suc n) (x ∷ xs) h = All-drop P n xs h.1
