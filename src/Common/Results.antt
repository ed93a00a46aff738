-- ===== src/Common/Results.antt =====
-- Errors as values: `Result<A, E>` of the source, the error's type first.
use mathlib.Core.Path.{◌≡◌, refl}
use mathlib.Core.Logic.{◌⊎◌, inl, inr}
use mathlib.Core.Bool.{Bool, true, false}
use mathlib.Core.Option.{Option, none, some}

pub data Result {ℓ κ} (E : Type κ) (A : Type ℓ) : Type (ℓ ⊔ κ) where
  err : E → Result E A
  ok : A → Result E A

module _ {κ} {E : Type κ} where
  infixl 5 ◌>>=◌ ◌>>◌
  -- `?` after a step that yields a value.
  abbrev pub ◌>>=◌ {ℓ μ} : {A : Type ℓ} → {B : Type μ} → Result E A → (A → Result E B) → Result E B
  err why >>= next = err why
  ok value >>= next = next value

  -- `?` after a step that yields nothing.
  abbrev pub ◌>>◌ {μ} : {B : Type μ} → Result E (Unit {0}) → Result E B → Result E B
  err why >> later = err why
  ok done >> later = later

  -- `if !b { return Err(why) }`
  abbrev pub guard : (b : Bool) → (why : E) → Result E (Unit {0})
  guard false why = err why
  guard true why = ok tt

  module _ {ℓ} {A : Type ℓ} where
    -- `Option::ok_or`
    abbrev pub ok_or : Option A → E → Result E A
    ok_or (some value) why = ok value
    ok_or none why = err why

    abbrev pub is_ok : Result E A → Bool
    is_ok (err why) = false
    is_ok (ok value) = true

    pub Result-cases : (r : Result E A) → ((e : E) × (r ≡ err e)) ⊎ ((a : A) × (r ≡ ok a))
    Result-cases (err why) = inl (why, refl)
    Result-cases (ok value) = inr (value, refl)
