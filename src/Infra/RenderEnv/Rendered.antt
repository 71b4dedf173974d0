-- ===== src/Infra/RenderEnv/Rendered.antt =====
-- What infra/scripts/render_prod_env_from_secrets.py says to the gateway and the user service, as raw
-- text and as settings.
use backend_platform.Prelude.{
  ◌≡◌, refl, Bool, true, false, Option, none, some, List, [], ◌++◌, Bool-cases, inl, inr,
  if◌then◌else◌,
}
use backend_platform.Prelude.Text.{Text, codes, text_eq}
use backend_platform.Prelude.Split.{is_full}
use backend_platform.ServiceConfig.Started.{Parsers, GatewaySettings, UserSettings}
use backend_platform.Infra.RenderEnv.{Sources, compose_get}
use backend_platform.Infra.RenderEnv.Files.{Secrets, user_env, gateway_env}
use backend_platform.Infra.RenderEnv.Dotenv.{raw_value}
use backend_platform.Infra.RenderEnv.Services.{rendered_settings}

abbrev pub cookie_secure : Sources → Text
cookie_secure from = compose_get from.compose (codes "REFRESH_COOKIE_SECURE")

-- The addresses that the files give.
abbrev pub gateway_redis_url : (Text → Text) → Secrets → Text
gateway_redis_url quote_plus s =
    codes "redis://:" ++ (quote_plus s.redis_pw ++ codes "@redis:6379/2")

abbrev pub user_redis_url : (Text → Text) → Secrets → Text
user_redis_url quote_plus s = codes "redis://:" ++ (quote_plus s.redis_pw ++ codes "@redis:6379/1")

abbrev pub user_database_url : (Text → Text) → Secrets → Text
user_database_url quote_plus s =
    codes "postgresql+asyncpg://user_service:"
    ++ (quote_plus s.user_db ++ codes "@postgres-user:5432/user_service")

-- The flag that the compose file gives, if it does.
abbrev pub flag_value : Text → Option Bool
flag_value t =
    if text_eq t (codes "true")
    then some true
    else if text_eq t (codes "false")
    then some false
    else none

-- The settings with which the two services are to start.
abbrev pub rendered_gateway :
    {N F : Type 0} → Parsers N F → (Text → Text) → Sources → Text → Secrets → GatewaySettings N F
rendered_gateway p quote_plus from cors_origins s = record {
  checked = rendered_settings cors_origins s;
  service_name = codes "api-gateway";
  service_port = p.number 8000;
  redis_url = gateway_redis_url quote_plus s;
  auth_service_url = codes "http://auth-service:8001";
  user_service_url = codes "http://user-service:8002";
  notification_service_url = some [];
  jwt_issuer = codes "backend-platform";
  jwt_audience = codes "backend-clients";
  upstream_timeout_seconds = p.decimal 10;
  rate_limit_public_auth_per_minute = p.number 30;
  rate_limit_protected_per_minute = p.number 120;
  refresh_cookie_name = codes "bp_rt";
  refresh_cookie_max_age_seconds = p.number 2592000;
  refresh_cookie_secure = flag_value (cookie_secure from);
}

abbrev pub rendered_user :
    {N F : Type 0} → Parsers N F → (Text → Text) → Text → Secrets → UserSettings N
rendered_user p quote_plus cors_origins s = record {
  checked = rendered_settings cors_origins s;
  service_name = codes "user-service";
  service_port = p.number 8002;
  database_url = user_database_url quote_plus s;
  redis_url = user_redis_url quote_plus s;
  jwt_issuer = codes "backend-platform";
  jwt_audience = codes "backend-clients";
  rate_limit_profile_write_per_minute = p.number 30;
  rate_limit_roles_write_per_minute = p.number 10;
  health_timeout_seconds = p.number 2;
}

-- What the gateway's file says besides what is checked, as raw text.
pub record SaysGateway (quote_plus : Text → Text) (from : Sources) (s : Secrets) (lines : List Text)
    : Type 0 where
  pub name : raw_value (codes "SERVICE_NAME") lines ≡ some (codes "api-gateway")
  pub port : raw_value (codes "SERVICE_PORT") lines ≡ some (codes "8000")
  pub redis_url : raw_value (codes "REDIS_URL") lines ≡ some (gateway_redis_url quote_plus s)
  pub auth_url :
      raw_value (codes "AUTH_SERVICE_URL") lines ≡ some (codes "http://auth-service:8001")
  pub user_url :
      raw_value (codes "USER_SERVICE_URL") lines ≡ some (codes "http://user-service:8002")
  pub notification_url : raw_value (codes "NOTIFICATION_SERVICE_URL") lines ≡ some []
  pub timeout : raw_value (codes "UPSTREAM_TIMEOUT_SECONDS") lines ≡ some (codes "10")
  pub public_auth : raw_value (codes "RATE_LIMIT_PUBLIC_AUTH_PER_MINUTE") lines ≡ some (codes "30")
  pub protected : raw_value (codes "RATE_LIMIT_PROTECTED_PER_MINUTE") lines ≡ some (codes "120")
  pub cookie_name : raw_value (codes "REFRESH_COOKIE_NAME") lines ≡ none
  pub max_age : raw_value (codes "REFRESH_COOKIE_MAX_AGE_SECONDS") lines ≡ none
  pub secure :
      raw_value (codes "REFRESH_COOKIE_SECURE") lines
      ≡ (if is_full (cookie_secure from) then some (cookie_secure from) else none)

-- The same for the user service's file.
pub record SaysUser (quote_plus : Text → Text) (s : Secrets) (lines : List Text) : Type 0 where
  pub name : raw_value (codes "SERVICE_NAME") lines ≡ some (codes "user-service")
  pub port : raw_value (codes "SERVICE_PORT") lines ≡ some (codes "8002")
  pub database_url : raw_value (codes "DATABASE_URL") lines ≡ some (user_database_url quote_plus s)
  pub redis_url : raw_value (codes "REDIS_URL") lines ≡ some (user_redis_url quote_plus s)
  pub profile_write :
      raw_value (codes "RATE_LIMIT_PROFILE_WRITE_PER_MINUTE") lines ≡ some (codes "30")
  pub roles_write : raw_value (codes "RATE_LIMIT_ROLES_WRITE_PER_MINUTE") lines ≡ some (codes "10")
  pub health_timeout : raw_value (codes "HEALTH_TIMEOUT_SECONDS") lines ≡ none

module _ (quote_plus : Text → Text) (from : Sources) (cors : Text) (s : Secrets) where
  pub user_env-SaysUser : SaysUser quote_plus s (user_env quote_plus from cors s)
  unfolding raw_value user_env
  user_env-SaysUser = record {
    name = refl;
    port = refl;
    database_url = refl;
    redis_url = refl;
    profile_write = refl;
    roles_write = refl;
    health_timeout = refl;
  }

  pub gateway_env-SaysGateway : SaysGateway quote_plus from s (gateway_env quote_plus from cors s)
  unfolding raw_value gateway_env
  gateway_env-SaysGateway = elim (Bool-cases (is_full (cookie_secure from))) [
    | inl given ↦ record {
      name = rw given refl;
      port = rw given refl;
      redis_url = rw given refl;
      auth_url = rw given refl;
      user_url = rw given refl;
      notification_url = rw given refl;
      timeout = rw given refl;
      public_auth = rw given refl;
      protected = rw given refl;
      cookie_name = rw given refl;
      max_age = rw given refl;
      secure = rw given refl;
    }
    | inr left ↦ record {
      name = rw left refl;
      port = rw left refl;
      redis_url = rw left refl;
      auth_url = rw left refl;
      user_url = rw left refl;
      notification_url = rw left refl;
      timeout = rw left refl;
      public_auth = rw left refl;
      protected = rw left refl;
      cookie_name = rw left refl;
      max_age = rw left refl;
      secure = rw left refl;
    }
  ]
