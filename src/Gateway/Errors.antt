-- ===== src/Gateway/Errors.antt =====
-- What the gateway raises (services/api-gateway/app/exceptions/gateway.py), and results.
use backend_platform.Prelude.{◌≡◌, ◌⊎◌, inl, inr, refl, Bool, true, false, Option, none, some}

pub data Error : Type 0 where
  unauthorized forbidden route_not_found too_many_requests : Error
  upstream_failed service_unavailable : Error
  -- an exception of Python's that no handler expects
  unhandled : Error

pub data Result (A : Type 0) : Type 0 where
  err : Error → Result A
  ok : A → Result A

pub Result-cases :
    {A : Type 0} (r : Result A) → ((a : A) × (r ≡ ok a)) ⊎ ((e : Error) × (r ≡ err e))
Result-cases (err e) = inr (e, refl)
Result-cases (ok a) = inl (a, refl)

-- `if test: raise e`
abbrev pub refuse_if : Bool → Error → Result (Unit {0})
refuse_if true e = err e
refuse_if false e = ok tt

module _ {A : Type 0} where
  -- `if value is None: raise e`
  abbrev pub or_refuse : Option A → Error → Result A
  or_refuse (some a) e = ok a
  or_refuse none e = err e

infixl 5 ◌>>=◌ ◌>>◌
abbrev pub ◌>>=◌ : {A B : Type 0} → Result A → (A → Result B) → Result B
err e >>= f = err e
ok a >>= f = f a

abbrev pub ◌>>◌ : {A B : Type 0} → Result A → Result B → Result B
m >> k = m >>= λ _. k
