-- ===== src/MemoryPool/Launch.antt =====
-- Device buffers and the writes of a grid of kernel instances.
use mini_infer.Prelude.{
  ℕ, zero, suc, ◌<◌, ◌≡◌, refl, sym, ◌∙◌, ap, ◌⊎◌, inl, inr, Bool, true, false, List, [], ◌∷◌,
  arith, ◌==◌, ◌++◌, ℕ_discrete, if◌then◌else◌, Bool-cases, ==_iff,
}

pub record Write : Type 0 where
  pub address : ℕ
  pub value : ℕ

abbrev pub Buffer : Type 0
Buffer = ℕ → ℕ

abbrev pub ElemWrite : Write → List Write → Type 0
ElemWrite w [] = ⊥
ElemWrite w (x ∷ xs) = (w ≡ x) ⊎ ElemWrite w xs

-- The buffer after the writes, the first in the list first.
unfoldable pub store_all : List Write → Buffer → Buffer
store_all [] b = b
store_all (w ∷ ws) b = store_all ws (λ x. if x == w.address then w.value else b x)

-- `tl.store(address, value, mask=mask)` over the lanes below `n`.
unfoldable pub store_lanes : (ℕ → Bool) → (ℕ → ℕ) → (ℕ → ℕ) → ℕ → List Write
store_lanes mask address value zero = []
store_lanes mask address value (suc n) =
    let rest = store_lanes mask address value n in
    if mask n then record { address = address n; value = value n } ∷ rest else rest

-- An address that no write of the list has keeps its value.
store_all-untouched :
    (ws : List Write) (b : Buffer) (a v : ℕ)
    → ((w : Write) → ElemWrite w ws → w.address ≡ a → w.value ≡ v)
    → b a ≡ v
    → store_all ws b a ≡ v
unfolding store_all
store_all-untouched [] b a v h e = e
store_all-untouched (w ∷ ws) b a v h e =
    store_all-untouched ws _ a v (λ x m. h x (inr m))
      (elim (Bool-cases (a == w.address)) [
        | inl t ↦ rw t (h w (inl refl) (sym ((==_iff a w.address).0 t)))
        | inr f ↦ rw f e
      ])

-- If all writes to an address agree and there is one, the address holds their value.
pub store_all-agree :
    (ws : List Write) (b : Buffer) (a v : ℕ) (w : Write)
    → ElemWrite w ws
    → w.address ≡ a
    → ((w : Write) → ElemWrite w ws → w.address ≡ a → w.value ≡ v)
    → store_all ws b a ≡ v
unfolding store_all
store_all-agree [] b a v w m e h = absurd m
store_all-agree (x ∷ ws) b a v w (inl p) e h =
    store_all-untouched ws _ a v (λ y k. h y (inr k))
      (here (ap (λ (u : Write). u.address) (sym p) ∙ e))
  where
    here : x.address ≡ a → (if a == x.address then x.value else b a) ≡ v
    here q = rw ((==_iff a x.address).1 (sym q)) (h x (inl refl) q)
store_all-agree (x ∷ ws) b a v w (inr m) e h = store_all-agree ws _ a v w m e (λ y k. h y (inr k))

-- A write that a mask may leave out.
Elem-if :
    (c : Bool) (w x : Write) (rest : List Write)
    → ElemWrite w (if c then x ∷ rest else rest)
    → ((c ≡ true) × (w ≡ x)) ⊎ ElemWrite w rest
Elem-if true w x rest (inl e) = inl (refl, e)
Elem-if true w x rest (inr m) = inr m
Elem-if false w x rest m = inr m

Elem-if_rest :
    (c : Bool) (w x : Write) (rest : List Write)
    → ElemWrite w rest
    → ElemWrite w (if c then x ∷ rest else rest)
Elem-if_rest true w x rest m = inr m
Elem-if_rest false w x rest m = m

-- The write of some lane that the mask lets through.
abbrev pub Lane : (ℕ → Bool) → (ℕ → ℕ) → (ℕ → ℕ) → ℕ → Write → Type 0
Lane mask address value n w =
    (o : ℕ) × (o < n) × (mask o ≡ true) × (w.address ≡ address o) × (w.value ≡ value o)

pub Elem-store_lanes :
    (mask : ℕ → Bool) (address value : ℕ → ℕ) (n : ℕ) (w : Write)
    → ElemWrite w (store_lanes mask address value n)
    → Lane mask address value n w
unfolding store_lanes
Elem-store_lanes mask address value zero w m = absurd m
Elem-store_lanes mask address value (suc n) w m =
    elim (Elem-if (mask n) w (record { address = address n; value = value n })
      (store_lanes mask address value n) m) [
        | inl (e, p) ↦
            (n, omega arith, e, ap (λ (u : Write). u.address) p, ap (λ (u : Write). u.value) p)
        | inr k ↦
            let (o, l, r, s, t) = Elem-store_lanes mask address value n w k in
            (o, omega arith, r, s, t)
      ]

pub store_lanes-Elem :
    (mask : ℕ → Bool) (address value : ℕ → ℕ) (n o : ℕ)
    → o < n
    → mask o ≡ true
    → ElemWrite (record { address = address o; value = value o }) (store_lanes mask address value n)
unfolding store_lanes
store_lanes-Elem mask address value zero o l e = elim l [ ]
store_lanes-Elem mask address value (suc n) o l e = elim (ℕ_discrete o n) [
  | yes p ↦ rw (← p) (rw e (inl refl))
  | no p ↦ Elem-if_rest (mask n) _ _ _ (store_lanes-Elem mask address value n o (omega arith) e)
]

pub Elem-append :
    (w : Write) (xs ys : List Write) → ElemWrite w (xs ++ ys) → ElemWrite w xs ⊎ ElemWrite w ys
Elem-append w [] ys m = inr m
Elem-append w (x ∷ xs) ys (inl e) = inl (inl e)
Elem-append w (x ∷ xs) ys (inr m) = elim (Elem-append w xs ys m) [
  | inl k ↦ inl (inr k)
  | inr k ↦ inr k
]

pub append-Elem_left : (w : Write) (xs ys : List Write) → ElemWrite w xs → ElemWrite w (xs ++ ys)
append-Elem_left w [] ys m = absurd m
append-Elem_left w (x ∷ xs) ys (inl e) = inl e
append-Elem_left w (x ∷ xs) ys (inr m) = inr (append-Elem_left w xs ys m)

pub append-Elem_right : (w : Write) (xs ys : List Write) → ElemWrite w ys → ElemWrite w (xs ++ ys)
append-Elem_right w [] ys m = m
append-Elem_right w (x ∷ xs) ys m = inr (append-Elem_right w xs ys m)
