-- ===== src/Prelude/Result.antt =====
-- Exceptions as values: what a call returns, or the exception that leaves it.
use mathlib.Core.Path.{◌≡◌, refl}
use mathlib.Core.Logic.{◌⊎◌, inl, inr}
use mathlib.Core.Bool.{Bool, true, false}

pub data Error : Type 0 where
  validation_error value_error type_error attribute_error key_error index_error : Error
  name_error not_implemented_error duplicate_error not_found_error : Error
  name_exists_error empty_name_error root_remove_error failed_checksum_error : Error
  input_error invalid_private_key store_type_not_found response_error runtime_error timeout_error :
      Error

pub data Result {ℓ} (A : Type ℓ) : Type ℓ where
  err : Error → Result A
  ok : A → Result A

-- `if not b: raise e`
abbrev pub guard : Bool → Error → Result (Unit {0})
guard b e = elim b [ true ↦ ok tt | false ↦ err e ]

module _ {ℓ} {A : Type ℓ} where
  pub Result-cases : (r : Result A) → ((a : A) × (r ≡ ok a)) ⊎ ((e : Error) × (r ≡ err e))
  Result-cases (err e) = inr (e, refl)
  Result-cases (ok a) = inl (a, refl)

  pub ok-inj : {a b : A} → Path (Result A) (ok a) (ok b) → a ≡ b
  ok-inj h = cc h

  infixl 5 ◌>>◌
  abbrev pub ◌>>◌ : Result (Unit {0}) → Result A → Result A
  err e >> rest = err e
  ok u >> rest = rest

pub >>-eq-ok {ℓ} :
    {A : Type ℓ} (r : Result (Unit {0})) (rest : Result A) {b : A}
    → r >> rest ≡ ok b
    → (r ≡ ok tt) × (rest ≡ ok b)
>>-eq-ok (err e) rest h = cc
>>-eq-ok (ok u) rest h = (refl, h)

module _ {ℓ κ} {A : Type ℓ} {B : Type κ} where
  infixl 5 ◌>>=◌
  abbrev pub ◌>>=◌ : Result A → (A → Result B) → Result B
  err e >>= rest = err e
  ok a >>= rest = rest a

  -- The value that a successful chain passes on.
  pub >>=-eq-ok :
      (r : Result A) (rest : A → Result B) {b : B}
      → r >>= rest ≡ ok b
      → (a : A) × (r ≡ ok a) × (rest a ≡ ok b)
  >>=-eq-ok (err e) rest h = cc
  >>=-eq-ok (ok a) rest h = (a, refl, h)
