-- ===== src/Auth/Errors.antt =====
-- What a service call raises (services/auth-service/app/exceptions), and results.
use backend_platform.Prelude.{ℕ, ◌≡◌, ◌⊎◌, inl, inr, refl, Option, none, some, Bool, true, false}

-- One constructor for each exception class that the services raise. The texts of the messages are
-- left out but for the seconds that a lock has left. `integrity_error` is the database's refusal
-- of a row that breaks a uniqueness constraint.
pub data Error : Type 0 where
  unauthorized invalid_credentials user_already_exists account_login_blocked : Error
  password_reset_flow_blocked too_many_requests bad_request service_unavailable : Error
  unknown_user_password_reset : Error
  account_locked : ℕ → Error
  invalid_token : Error
  -- the session and the family of a refresh token that was used again
  token_reuse_detected : ℕ → ℕ → Error
  invalid_two_factor_code two_factor_not_enabled two_factor_already_enabled : Error
  invalid_challenge : Error
  integrity_error runtime_error : Error

-- The HTTP status that the exception handler of main.py answers with.
unfoldable pub status_code : Error → ℕ
status_code unauthorized = 401
status_code invalid_credentials = 401
status_code user_already_exists = 409
status_code account_login_blocked = 403
status_code password_reset_flow_blocked = 403
status_code too_many_requests = 429
status_code bad_request = 400
status_code service_unavailable = 503
status_code unknown_user_password_reset = 404
status_code (account_locked _) = 423
status_code invalid_token = 401
status_code (token_reuse_detected _ _) = 401
status_code invalid_two_factor_code = 401
status_code two_factor_not_enabled = 400
status_code two_factor_already_enabled = 409
status_code invalid_challenge = 401
status_code integrity_error = 500
status_code runtime_error = 500

pub data Result {ℓ} (A : Type ℓ) : Type ℓ where
  ok : A → Result A
  err : Error → Result A

abbrev pub is_ok {ℓ} : {A : Type ℓ} → Result A → Bool
is_ok (ok _) = true
is_ok (err _) = false

-- `if test: raise e`
abbrev pub refuse_if : Bool → Error → Result (Unit {0})
refuse_if true e = err e
refuse_if false e = ok tt

-- `if value is None: raise e`
abbrev pub or_refuse {ℓ} : {A : Type ℓ} → Option A → Error → Result A
or_refuse none e = err e
or_refuse (some a) e = ok a

infixl 5 ◌>>=◌ ◌>>◌
abbrev pub ◌>>=◌ : {A B : Type 0} → Result A → (A → Result B) → Result B
err e >>= f = err e
ok a >>= f = f a

abbrev pub ◌>>◌ : {A B : Type 0} → Result A → Result B → Result B
m >> k = m >>= λ _. k

pub Result-cases {ℓ} :
    {A : Type ℓ} (r : Result A) → ((a : A) × (r ≡ ok a)) ⊎ ((e : Error) × (r ≡ err e))
Result-cases (ok a) = inl (a, refl)
Result-cases (err e) = inr (e, refl)

pub ok_injective {ℓ} : {A : Type ℓ} (a b : A) → ok a ≡ ok b → a ≡ b
ok_injective a b h = cc
