-- ===== src/ServiceConfig/Started.antt =====
-- All settings of the gateway and of the user service, as they start
-- (services/api-gateway/app/core/config.py, services/user-service/app/core/config.py).
use backend_platform.Prelude.{
  ℕ, ◌≡◌, refl, ◌+◌, ◌*◌, ◌-◌, ◌&&◌, not, Bool, true, false, Option, none, some, [], ◌∷◌, any, leb,
}
use backend_platform.Prelude.Text.{Text, codes}
use backend_platform.ServiceConfig.{Checked, checked_settings, setting_or, ◌>>=◌}

abbrev pub is_digit : ℕ → Bool
is_digit c = leb 48 c && leb c 57

-- The number that decimal digits stand for.
abbrev pub whole : ℕ → Text → ℕ
whole n [] = n
whole n (c ∷ s) = whole (n * 10 + (c - 48)) s

-- How pydantic reads the text of an integer, of a floating-point number and of a flag, and the values
-- of the whole numbers in the code. Digits are read as the number that they stand for.
pub record Parsers (N F : Type 0) : Type 0 where
  pub int_of : Text → Option N
  pub float_of : Text → Option F
  pub bool_of : Text → Option Bool
  pub number : ℕ → N
  pub decimal : ℕ → F
  pub int_of-digits :
      (c : ℕ) (s : Text)
      → any (λ d. not (is_digit d)) (c ∷ s) ≡ false
      → int_of (c ∷ s) ≡ some (number (whole 0 (c ∷ s)))
  pub float_of-digits :
      (c : ℕ) (s : Text)
      → any (λ d. not (is_digit d)) (c ∷ s) ≡ false
      → float_of (c ∷ s) ≡ some (decimal (whole 0 (c ∷ s)))
  pub bool_of-true : bool_of (codes "true") ≡ some true
  pub bool_of-false : bool_of (codes "false") ≡ some false

pub record GatewaySettings (N F : Type 0) : Type 0 where
  pub checked : Checked
  pub service_name : Text
  pub service_port : N
  pub redis_url : Text
  pub auth_service_url : Text
  pub user_service_url : Text
  pub notification_service_url : Option Text
  pub jwt_issuer : Text
  pub jwt_audience : Text
  pub upstream_timeout_seconds : F
  pub rate_limit_public_auth_per_minute : N
  pub rate_limit_protected_per_minute : N
  pub refresh_cookie_name : Text
  pub refresh_cookie_max_age_seconds : N
  pub refresh_cookie_secure : Option Bool

pub record UserSettings (N : Type 0) : Type 0 where
  pub checked : Checked
  pub service_name : Text
  pub service_port : N
  pub database_url : Text
  pub redis_url : Text
  pub jwt_issuer : Text
  pub jwt_audience : Text
  pub rate_limit_profile_write_per_minute : N
  pub rate_limit_roles_write_per_minute : N
  pub health_timeout_seconds : N

module _ {N F : Type 0} (p : Parsers N F) (given : Text → Option Text) where
  -- A field with a default, whose text is parsed where there is one.
  unfoldable pub typed : {A : Type 0} → (Text → Option A) → Text → A → Option A
  typed parse key default = elim (given key) [ none ↦ some default | some raw ↦ parse raw ]

  -- `bool | None`
  abbrev pub flag_of : Text → Option (Option Bool)
  flag_of raw = elim (p.bool_of raw) [ none ↦ none | some b ↦ some (some b) ]

  -- `get_settings` of the gateway, `none` where it raises
  unfoldable pub start_gateway : Option (GatewaySettings N F)
  start_gateway = do
    checked ← checked_settings given
    service_port ← typed p.int_of (codes "SERVICE_PORT") (p.number 8000)
    redis_url ← given (codes "REDIS_URL")
    auth_service_url ← given (codes "AUTH_SERVICE_URL")
    user_service_url ← given (codes "USER_SERVICE_URL")
    upstream_timeout_seconds ← typed p.float_of (codes "UPSTREAM_TIMEOUT_SECONDS") (p.decimal 10)
    public_auth ← typed p.int_of (codes "RATE_LIMIT_PUBLIC_AUTH_PER_MINUTE") (p.number 30)
    protected ← typed p.int_of (codes "RATE_LIMIT_PROTECTED_PER_MINUTE") (p.number 120)
    max_age ← typed p.int_of (codes "REFRESH_COOKIE_MAX_AGE_SECONDS") (p.number 2592000)
    secure ← typed flag_of (codes "REFRESH_COOKIE_SECURE") none
    some (record {
      checked = checked;
      service_name = setting_or given (codes "SERVICE_NAME") (codes "api-gateway");
      service_port = service_port;
      redis_url = redis_url;
      auth_service_url = auth_service_url;
      user_service_url = user_service_url;
      notification_service_url = given (codes "NOTIFICATION_SERVICE_URL");
      jwt_issuer = setting_or given (codes "JWT_ISSUER") (codes "backend-platform");
      jwt_audience = setting_or given (codes "JWT_AUDIENCE") (codes "backend-clients");
      upstream_timeout_seconds = upstream_timeout_seconds;
      rate_limit_public_auth_per_minute = public_auth;
      rate_limit_protected_per_minute = protected;
      refresh_cookie_name = setting_or given (codes "REFRESH_COOKIE_NAME") (codes "bp_rt");
      refresh_cookie_max_age_seconds = max_age;
      refresh_cookie_secure = secure;
    })

  -- `get_settings` of the user service
  unfoldable pub start_user : Option (UserSettings N)
  start_user = do
    checked ← checked_settings given
    service_port ← typed p.int_of (codes "SERVICE_PORT") (p.number 8002)
    database_url ← given (codes "DATABASE_URL")
    redis_url ← given (codes "REDIS_URL")
    profile_write ← typed p.int_of (codes "RATE_LIMIT_PROFILE_WRITE_PER_MINUTE") (p.number 30)
    roles_write ← typed p.int_of (codes "RATE_LIMIT_ROLES_WRITE_PER_MINUTE") (p.number 10)
    health_timeout ← typed p.int_of (codes "HEALTH_TIMEOUT_SECONDS") (p.number 2)
    some (record {
      checked = checked;
      service_name = setting_or given (codes "SERVICE_NAME") (codes "user-service");
      service_port = service_port;
      database_url = database_url;
      redis_url = redis_url;
      jwt_issuer = setting_or given (codes "JWT_ISSUER") (codes "backend-platform");
      jwt_audience = setting_or given (codes "JWT_AUDIENCE") (codes "backend-clients");
      rate_limit_profile_write_per_minute = profile_write;
      rate_limit_roles_write_per_minute = roles_write;
      health_timeout_seconds = health_timeout;
    })

  module _ {A : Type 0} (parse : Text → Option A) (key : Text) (default : A) where
    pub typed-given : (raw : Text) → given key ≡ some raw → typed parse key default ≡ parse raw
    unfolding typed
    typed-given raw there = rw (there, typed) refl

    pub typed_absent : given key ≡ none → typed parse key default ≡ some default
    unfolding typed
    typed_absent gone = rw (gone, typed) refl
