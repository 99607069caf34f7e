-- ===== src/Prelude/Sublists.antt =====
-- Beginnings and ends of lists, taken and dropped in two steps.
use Prim.Native.Nat.{ℕ, zero, suc, ◌+◌, ◌≤◌}
use mathlib.Core.Path.{◌≡◌, refl, ap, sym, ◌∙◌}
use mathlib.Core.List.{List, [], ◌∷◌, ◌++◌}
use native.Mathlib.Omega.{arith}
use mini_infer.Prelude.Lists.{length, take, drop}

module _ {ℓ} {A : Type ℓ} where
  pub drop-nil : (n : ℕ) → drop {A = A} n [] ≡ []
  drop-nil zero = refl
  drop-nil (suc n) = refl

  pub take-nil : (n : ℕ) → take {A = A} n [] ≡ []
  take-nil zero = refl
  take-nil (suc n) = refl

  pub drop_add : (m n : ℕ) (xs : List A) → drop (m + n) xs ≡ drop n (drop m xs)
  drop_add zero n xs = ap (λ k. drop k xs) (omega arith)
  drop_add (suc m) n [] =
      ap (λ k. drop {A = A} k []) {y = suc (m + n)} (omega arith) ∙ sym (drop-nil n)
  drop_add (suc m) n (x ∷ xs) =
      ap (λ k. drop k (x ∷ xs)) {y = suc (m + n)} (omega arith) ∙ drop_add m n xs

  pub take_add : (m n : ℕ) (xs : List A) → take (m + n) xs ≡ take m xs ++ take n (drop m xs)
  take_add zero n xs = ap (λ k. take k xs) (omega arith)
  take_add (suc m) n [] =
      ap (λ k. take {A = A} k []) {y = suc (m + n)} (omega arith) ∙ sym (take-nil n)
  take_add (suc m) n (x ∷ xs) =
      ap (λ k. take k (x ∷ xs)) {y = suc (m + n)} (omega arith) ∙ ap (λ l. x ∷ l) (take_add m n xs)

  pub take-take_add : (m n : ℕ) (xs : List A) → take m (take (m + n) xs) ≡ take m xs
  take-take_add zero n xs = refl
  take-take_add (suc m) n [] =
      ap (λ k. take (suc m) (take {A = A} k [])) {y = suc (m + n)} (omega arith)
  take-take_add (suc m) n (x ∷ xs) =
      ap (λ k. take (suc m) (take k (x ∷ xs))) {y = suc (m + n)} (omega arith)
      ∙ ap (λ l. x ∷ l) (take-take_add m n xs)

  pub drop-take_add : (m n : ℕ) (xs : List A) → drop m (take (m + n) xs) ≡ take n (drop m xs)
  drop-take_add zero n xs = ap (λ k. take k xs) (omega arith)
  drop-take_add (suc m) n [] =
      ap (λ k. drop (suc m) (take {A = A} k [])) {y = suc (m + n)} (omega arith) ∙ sym (take-nil n)
  drop-take_add (suc m) n (x ∷ xs) =
      ap (λ k. drop (suc m) (take k (x ∷ xs))) {y = suc (m + n)} (omega arith)
      ∙ drop-take_add m n xs

  pub take_all : (n : ℕ) (xs : List A) → length xs ≤ n → take n xs ≡ xs
  take_all zero [] h = refl
  take_all zero (x ∷ xs) h = absurd (omega arith)
  take_all (suc n) [] h = refl
  take_all (suc n) (x ∷ xs) h = ap (λ l. x ∷ l) (take_all n xs (omega arith))

  pub drop_all : (n : ℕ) (xs : List A) → length xs ≤ n → drop n xs ≡ []
  drop_all zero [] h = refl
  drop_all zero (x ∷ xs) h = absurd (omega arith)
  drop_all (suc n) [] h = refl
  drop_all (suc n) (x ∷ xs) h = drop_all n xs (omega arith)
