-- ===== src/Prelude/Errors.antt =====
-- What a Python call comes to: a value, or the exception that it raises.
use mathlib.Core.Bool.{Bool, true, false}
use mathlib.Core.Path.{◌≡◌, refl}

pub data Error : Type 0 where
  assertion_error attribute_error compilation_error index_error key_error not_implemented
        runtime_error type_error :
      Error
  -- No exception of the program: a call that the model leaves out.
  not_modelled : Error

pub data Result {ℓ} (A : Type ℓ) : Type ℓ where
  err : Error → Result A
  ok : A → Result A

pub ok-injective {ℓ} : {A : Type ℓ} {a b : A} → ok a ≡ ok b → a ≡ b
ok-injective h = cc

-- `assert test`, and `if not test: raise ...`.
abbrev pub guard : Bool → Error → Result (Unit {0})
guard test e = elim test [ true ↦ ok tt | false ↦ err e ]

infixl 5 ◌>>=◌ ◌>>◌
abbrev pub ◌>>=◌ {ℓ κ} : {A : Type ℓ} {B : Type κ} → Result A → (A → Result B) → Result B
err e >>= f = err e
ok a >>= f = f a

-- What a `do` with no name bound stands for.
abbrev pub ◌>>◌ {ℓ} : {B : Type ℓ} → Result (Unit {0}) → Result B → Result B
err e >> k = err e
ok u >> k = k

-- A sequence that raises nothing: neither of its parts does.
pub >>=-eq-ok {κ ℓ} :
    {A : Type ℓ} {B : Type κ} (first : Result A) (then_do : A → Result B) {r : B}
    → (first >>= then_do) ≡ ok r
    → (x : A) × (first ≡ ok x) × (then_do x ≡ ok r)
>>=-eq-ok (err e) then_do p = cc
>>=-eq-ok (ok x) then_do p = (x, refl, p)
