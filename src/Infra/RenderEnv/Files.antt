-- ===== src/Infra/RenderEnv/Files.antt =====
-- The files that `main` of infra/scripts/render_prod_env_from_secrets.py writes, each as the list of
-- its lines, which are joined by line breaks. `quote_plus` of urllib is a parameter. `none` where the
-- script ends with a message.
use backend_platform.Prelude.{
  Option, none, some, List, [], ◌∷◌, ◌++◌, map, select, ◌==◌, if◌then◌else◌,
}
use backend_platform.Prelude.Text.{Text, codes, strip}
use backend_platform.Prelude.Split.{is_full, split}
use backend_platform.Infra.RenderEnv.{
  Sources, SmtpLines, compose_get, get, or_text, quote_env_value, read_text,
  resolve_smtp_for_auth_env,
}

-- `_escape_pem`
unfoldable pub escape_pem : Text → Text
escape_pem [] = []
escape_pem (c ∷ s) = let rest = escape_pem s in if c == 10 then 92 ∷ 110 ∷ rest else c ∷ rest

-- `",".join(parts)`
abbrev pub join_commas : List Text → Text
join_commas [] = []
join_commas (part ∷ []) = part
join_commas (part ∷ next ∷ parts) = part ++ (44 ∷ join_commas (next ∷ parts))

-- The origins of the command line, in one line.
unfoldable pub cors_line : Text → Text
cors_line cors_origins =
    join_commas (map strip (select (λ part. is_full (strip part)) (split 44 cors_origins)))

-- What every file is made from: the secrets, and the passwords of the compose file.
pub record Secrets : Type 0 where
  pub auth_db : Text
  pub user_db : Text
  pub redis_pw : Text
  pub priv_pem : Text
  pub pub_pem : Text
  pub refresh_pepper : Text
  pub privacy_pepper : Text
  pub reset_pepper : Text
  pub totp_key : Text

pub record EnvFiles : Type 0 where
  pub auth : List Text
  pub user : List Text
  pub gateway : List Text

infixl 5 ◌>>=◌
abbrev ◌>>=◌ : {A B : Type 0} → Option A → (A → Option B) → Option B
none >>= f = none
some a >>= f = f a

-- A secret that has to be there.
abbrev pub secret : Sources → Text → Option Text
secret from name = elim (from.secrets name) [ none ↦ none | some s ↦ some (read_text s) ]

unfoldable pub read_secrets : Sources → Option Secrets
read_secrets from = do
  priv_pem ← secret from (codes "jwt_private.pem")
  pub_pem ← secret from (codes "jwt_public.pem")
  refresh_pepper ← secret from (codes "refresh_token_pepper.txt")
  privacy_pepper ← secret from (codes "privacy_key_pepper.txt")
  reset_pepper ← secret from (codes "password_reset_pepper.txt")
  totp_key ← secret from (codes "totp_fernet.key")
  auth_db ← get (codes "AUTH_DB_PASSWORD") from.compose
  user_db ← get (codes "USER_DB_PASSWORD") from.compose
  redis_pw ← get (codes "REDIS_PASSWORD") from.compose
  some (record {
    auth_db = auth_db;
    user_db = user_db;
    redis_pw = redis_pw;
    priv_pem = priv_pem;
    pub_pem = pub_pem;
    refresh_pepper = refresh_pepper;
    privacy_pepper = privacy_pepper;
    reset_pepper = reset_pepper;
    totp_key = totp_key;
  })

-- A limit that the compose file gives under one of two names.
abbrev pub limit : Sources → Text → Text → Text
limit from key other =
    or_text (or_text (compose_get from.compose key) (compose_get from.compose other)) (codes "3")

abbrev quoted_line : Text → Text → Text
quoted_line key value = key ++ (codes "=\"" ++ (value ++ codes "\""))

module _ (quote_plus : Text → Text) (from : Sources) (cors : Text) (s : Secrets) where
  abbrev auth_head : List Text
  auth_head =
      codes "SERVICE_NAME=auth-service"
      ∷ codes "SERVICE_ENV=production"
      ∷ codes "SERVICE_PORT=8001"
      ∷ (codes "CORS_ALLOWED_ORIGINS=" ++ cors)
      ∷ codes "TRUSTED_PROXY_IPS=172.16.0.0/12"
      ∷ []
      ∷ (codes "DATABASE_URL=postgresql+asyncpg://auth_service:"
          ++ (quote_plus s.auth_db ++ codes "@postgres-auth:5432/auth_service"))
      ∷ (codes "REDIS_URL=redis://:" ++ (quote_plus s.redis_pw ++ codes "@redis:6379/0"))
      ∷ []
      ∷ codes "JWT_ALGORITHM=RS256"
      ∷ codes "JWT_ISSUER=backend-platform"
      ∷ codes "JWT_AUDIENCE=backend-clients"
      ∷ codes "JWT_ACCESS_TTL_SECONDS=900"
      ∷ codes "JWT_REFRESH_TTL_SECONDS=2592000"
      ∷ quoted_line (codes "JWT_PRIVATE_KEY") (escape_pem s.priv_pem)
      ∷ quoted_line (codes "JWT_PUBLIC_KEY") (escape_pem s.pub_pem)
      ∷ []
      ∷ (codes "REFRESH_TOKEN_HASH_PEPPER=" ++ s.refresh_pepper)
      ∷ (codes "PRIVACY_KEY_PEPPER=" ++ s.privacy_pepper)
      ∷ (codes "PASSWORD_RESET_TOKEN_PEPPER=" ++ s.reset_pepper)
      ∷ []
      ∷ codes "TOTP_ISSUER=Backend Platform"
      ∷ (codes "TOTP_ENCRYPTION_KEY=" ++ s.totp_key)
      ∷ codes "TOTP_CODE_DIGITS=6"
      ∷ codes "TOTP_INTERVAL_SECONDS=30"
      ∷ []
      ∷ codes "LOGIN_CHALLENGE_TTL_SECONDS=300"
      ∷ codes "PASSWORD_RESET_TOKEN_TTL_SECONDS=900"
      ∷ []

  abbrev mail_lines : SmtpLines → List Text
  mail_lines mail =
      (codes "SMTP_HOST=" ++ mail.host)
      ∷ (codes "SMTP_PORT=" ++ mail.port)
      ∷ (codes "SMTP_USERNAME=" ++ mail.username)
      ∷ (codes "SMTP_PASSWORD=" ++ mail.password)
      ∷ (codes "SMTP_USE_TLS=" ++ mail.use_tls)
      ∷ (codes "SMTP_FROM_EMAIL=" ++ mail.from_email)
      ∷ (codes "SMTP_FROM_NAME=" ++ mail.from_name)
      ∷ (codes "SMTP_REQUIRE_DELIVERY=" ++ mail.require_delivery)
      ∷ (codes "AUTH_ALLOW_MISSING_SMTP=" ++ mail.allow_missing)
      ∷ (codes "SUPPORT_EMAIL="
          ++ quote_env_value (compose_get from.compose (codes "SUPPORT_EMAIL")))
      ∷ []
      ∷ []

  abbrev auth_tail : List Text
  auth_tail =
      codes "RATE_LIMIT_LOGIN_PER_MINUTE=10"
      ∷ codes "RATE_LIMIT_2FA_PER_MINUTE=10"
      ∷ codes "RATE_LIMIT_REFRESH_PER_MINUTE=30"
      ∷ codes "RATE_LIMIT_REGISTER_PER_MINUTE=5"
      ∷ codes "RATE_LIMIT_PASSWORD_RESET_PER_MINUTE=5"
      ∷ []
      ∷ (codes "BRUTE_FORCE_LOGIN_MAX_ATTEMPTS="
          ++ limit from (codes "LOGIN_MAX_FAILED_ATTEMPTS")
              (codes "BRUTE_FORCE_LOGIN_MAX_ATTEMPTS"))
      ∷ codes "BRUTE_FORCE_LOGIN_WINDOW_SECONDS=300"
      ∷ codes "BRUTE_FORCE_LOGIN_LOCK_SECONDS=900"
      ∷ codes "BRUTE_FORCE_2FA_MAX_ATTEMPTS=5"
      ∷ codes "BRUTE_FORCE_2FA_WINDOW_SECONDS=300"
      ∷ codes "BRUTE_FORCE_2FA_LOCK_SECONDS=900"
      ∷ (codes "BRUTE_FORCE_PASSWORD_RESET_MAX_ATTEMPTS="
          ++ limit from (codes "RESET_CODE_MAX_FAILED_ATTEMPTS")
              (codes "BRUTE_FORCE_PASSWORD_RESET_MAX_ATTEMPTS"))
      ∷ codes "BRUTE_FORCE_PASSWORD_RESET_WINDOW_SECONDS=300"
      ∷ codes "BRUTE_FORCE_PASSWORD_RESET_LOCK_SECONDS=900"
      ∷ []
      ∷ codes "ARGON2_TIME_COST=3"
      ∷ codes "ARGON2_MEMORY_COST=65536"
      ∷ codes "ARGON2_PARALLELISM=4"
      ∷ codes "ARGON2_HASH_LENGTH=32"
      ∷ codes "ARGON2_SALT_LENGTH=16"
      ∷ []
      ∷ []

  unfoldable pub auth_env : List Text
  auth_env = auth_head ++ (mail_lines (resolve_smtp_for_auth_env from) ++ auth_tail)

  unfoldable pub user_env : List Text
  user_env =
      codes "SERVICE_NAME=user-service"
      ∷ codes "SERVICE_ENV=production"
      ∷ codes "SERVICE_PORT=8002"
      ∷ (codes "CORS_ALLOWED_ORIGINS=" ++ cors)
      ∷ codes "TRUSTED_PROXY_IPS=172.16.0.0/12"
      ∷ []
      ∷ (codes "DATABASE_URL=postgresql+asyncpg://user_service:"
          ++ (quote_plus s.user_db ++ codes "@postgres-user:5432/user_service"))
      ∷ (codes "REDIS_URL=redis://:" ++ (quote_plus s.redis_pw ++ codes "@redis:6379/1"))
      ∷ []
      ∷ codes "JWT_ALGORITHM=RS256"
      ∷ codes "JWT_ISSUER=backend-platform"
      ∷ codes "JWT_AUDIENCE=backend-clients"
      ∷ quoted_line (codes "JWT_PUBLIC_KEY") (escape_pem s.pub_pem)
      ∷ (codes "PRIVACY_KEY_PEPPER=" ++ s.privacy_pepper)
      ∷ []
      ∷ codes "RATE_LIMIT_PROFILE_WRITE_PER_MINUTE=30"
      ∷ codes "RATE_LIMIT_ROLES_WRITE_PER_MINUTE=10"
      ∷ []
      ∷ []

  abbrev pub cookie_lines : List Text
  cookie_lines =
      let refresh_secure = compose_get from.compose (codes "REFRESH_COOKIE_SECURE") in
      if is_full refresh_secure
      then (codes "REFRESH_COOKIE_SECURE=" ++ refresh_secure) ∷ [] ∷ []
      else []

  unfoldable pub gateway_env : List Text
  gateway_env =
      codes "SERVICE_NAME=api-gateway"
      ∷ codes "SERVICE_ENV=production"
      ∷ codes "SERVICE_PORT=8000"
      ∷ (codes "CORS_ALLOWED_ORIGINS=" ++ cors)
      ∷ []
      ∷ (codes "REDIS_URL=redis://:" ++ (quote_plus s.redis_pw ++ codes "@redis:6379/2"))
      ∷ codes "AUTH_SERVICE_URL=http://auth-service:8001"
      ∷ codes "USER_SERVICE_URL=http://user-service:8002"
      ∷ codes "NOTIFICATION_SERVICE_URL="
      ∷ []
      ∷ codes "JWT_ALGORITHM=RS256"
      ∷ codes "JWT_ISSUER=backend-platform"
      ∷ codes "JWT_AUDIENCE=backend-clients"
      ∷ quoted_line (codes "JWT_PUBLIC_KEY") (escape_pem s.pub_pem)
      ∷ (codes "PRIVACY_KEY_PEPPER=" ++ s.privacy_pepper)
      ∷ []
      ∷ codes "UPSTREAM_TIMEOUT_SECONDS=10"
      ∷ codes "TRUSTED_PROXY_IPS=172.16.0.0/12"
      ∷ codes "RATE_LIMIT_PUBLIC_AUTH_PER_MINUTE=30"
      ∷ codes "RATE_LIMIT_PROTECTED_PER_MINUTE=120"
      ∷ []
      ∷ cookie_lines

-- `main`
unfoldable pub render : (Text → Text) → Sources → Text → Option EnvFiles
render quote_plus from cors_origins = do
  s ← read_secrets from
  let cors = cors_line cors_origins
  some (record {
    auth = auth_env quote_plus from cors s;
    user = user_env quote_plus from cors s;
    gateway = gateway_env quote_plus from cors s;
  })
