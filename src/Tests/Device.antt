-- ===== src/Tests/Device.antt =====
-- A concrete device: `unique` keeps the last of equal values, the instances of a launch write one
-- after another, the last first, and masked lanes and fresh memory hold 7.
use mini_infer.Prelude.{
  ℕ, zero, suc, ◌<◌, ◌≡◌, ◌≢◌, subst, ◌⊎◌, inl, inr, Bool, true, not, List, [], ◌∷◌, ◌++◌, arith,
  ◌==◌, Elem, Distinct, filter, Elem-filter, filter-Elem, ℕ_discrete, if_both,
}
use mini_infer.MemoryPool.Torch.{Torch}
use mini_infer.MemoryPool.Launch.{Write, ElemWrite}

abbrev pub others : ℕ → List ℕ → List ℕ
others x xs = filter (λ y. not (y == x)) xs

abbrev pub dedup : List ℕ → List ℕ
dedup [] = []
dedup (x ∷ xs) = x ∷ others x (dedup xs)

Distinct-filter : (p : ℕ → Bool) (xs : List ℕ) → Distinct xs → Distinct (filter p xs)
Distinct-filter p [] d = d
Distinct-filter p (x ∷ xs) d =
    let rest = Distinct-filter p xs d.1 in
    if_both Distinct (p x) ((λ m. d.0 (Elem-filter p x xs m).0), rest) rest

other_test : (y x : ℕ) → y ≢ x → not (y == x) ≡ true
other_test y x n = elim (ℕ_discrete y x) [ yes e ↦ absurd (n e) | no e ↦ ground arith ]

pub dedup-Distinct : (xs : List ℕ) → Distinct (dedup xs)
dedup-Distinct [] = tt
dedup-Distinct (x ∷ xs) = (
  (λ m. ground (arith, Elem-filter (λ y. not (y == x)) x (dedup xs) m)),
  Distinct-filter (λ y. not (y == x)) (dedup xs) (dedup-Distinct xs),
)

pub dedup-Elem : (xs : List ℕ) (a : ℕ) → Elem a (dedup xs) → Elem a xs
dedup-Elem [] a m = m
dedup-Elem (x ∷ xs) a (inl e) = inl e
dedup-Elem (x ∷ xs) a (inr m) =
    inr (dedup-Elem xs a (Elem-filter (λ y. not (y == x)) a (dedup xs) m).0)

pub Elem-dedup : (xs : List ℕ) (a : ℕ) → Elem a xs → Elem a (dedup xs)
Elem-dedup [] a m = m
Elem-dedup (x ∷ xs) a (inl e) = inl e
Elem-dedup (x ∷ xs) a (inr m) = elim (ℕ_discrete a x) [
  | yes e ↦ inl e
  | no n ↦ inr (filter-Elem (λ y. not (y == x)) a (dedup xs) (Elem-dedup xs a m) (other_test a x n))
]

abbrev pub instances : (ℕ → List Write) → ℕ → List Write
instances kernel zero = []
instances kernel (suc n) = kernel n ++ instances kernel n

append-cases :
    (w : Write) (xs ys : List Write) → ElemWrite w (xs ++ ys) → ElemWrite w xs ⊎ ElemWrite w ys
append-cases w [] ys m = inr m
append-cases w (x ∷ xs) ys (inl e) = inl (inl e)
append-cases w (x ∷ xs) ys (inr m) = elim (append-cases w xs ys m) [
  | inl k ↦ inl (inr k)
  | inr k ↦ inr k
]

append_left : (w : Write) (xs ys : List Write) → ElemWrite w xs → ElemWrite w (xs ++ ys)
append_left w [] ys m = absurd m
append_left w (x ∷ xs) ys (inl e) = inl e
append_left w (x ∷ xs) ys (inr m) = inr (append_left w xs ys m)

append_right : (w : Write) (xs ys : List Write) → ElemWrite w ys → ElemWrite w (xs ++ ys)
append_right w [] ys m = m
append_right w (x ∷ xs) ys m = inr (append_right w xs ys m)

pub instances_sound :
    (kernel : ℕ → List Write) (n : ℕ) (w : Write)
    → ElemWrite w (instances kernel n)
    → (pid : ℕ) × (pid < n) × ElemWrite w (kernel pid)
instances_sound kernel zero w m = absurd m
instances_sound kernel (suc n) w m = elim (append-cases w (kernel n) (instances kernel n) m) [
  | inl k ↦ (n, omega arith, k)
  | inr k ↦ let (pid, l, h) = instances_sound kernel n w k in (pid, omega arith, h)
]

pub instances_complete :
    (kernel : ℕ → List Write) (n pid : ℕ) (w : Write)
    → pid < n
    → ElemWrite w (kernel pid)
    → ElemWrite w (instances kernel n)
instances_complete kernel zero pid w l m = elim l [ ]
instances_complete kernel (suc n) pid w l m = elim (ℕ_discrete pid n) [
  | yes e ↦ append_left w (kernel n) (instances kernel n) (subst (λ k. ElemWrite w (kernel k)) e m)
  | no e ↦
      append_right w (kernel n) (instances kernel n)
        (instances_complete kernel n pid w (omega arith) m)
]

abbrev pub device : Torch
device = record {
  unique = dedup;
  unique_distinct = dedup-Distinct;
  unique_elem = λ xs a. (dedup-Elem xs a, Elem-dedup xs a);
  masked = λ load lane. 7;
  uninit = λ a. 7;
  grid = instances;
  grid_sound = instances_sound;
  grid_complete = instances_complete;
}
