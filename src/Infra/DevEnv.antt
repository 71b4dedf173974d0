-- ===== src/Infra/DevEnv.antt =====
-- infra/scripts/generate_dev_env.py: environment files with fresh secrets for development. A file is
-- the list of its lines; what is drawn at random is an argument. No secret holds a line break.
pub mod Merged
pub mod Prefixed
pub mod Runs
use backend_platform.Prelude.{
  Bool, true, false, not, ◌&&◌, Option, none, some, List, [], ◌∷◌, ◌++◌, map, if◌then◌else◌,
}
use backend_platform.Prelude.Text.{Text, codes, is_empty, starts_with, strip}
use backend_platform.Prelude.Split.{is_full}
use backend_platform.Infra.RenderEnv.{Entries, parse_line, partition, get}
use backend_platform.Infra.RenderEnv.Files.{escape_pem}

-- `_escape_multiline`
unfoldable pub escape_multiline : Text → Text
escape_multiline value = escape_pem value

-- The entry of a line; the test for the prefix is made on the stripped line.
unfoldable pub smtp_entry : Text → Option (Text × Text)
smtp_entry line =
    if starts_with (strip line) (codes "SMTP_")
    then elim (parse_line line) [
      | none ↦ none
      | some (key, val) ↦ if is_full val then some (key, val) else none
    ]
    else none

-- `_smtp_key_values_from_env_text`
unfoldable pub smtp_key_values_from_env_text : List Text → Entries
smtp_key_values_from_env_text [] = []
smtp_key_values_from_env_text (line ∷ lines) =
    let rest = smtp_key_values_from_env_text lines in
    elim (smtp_entry line) [ none ↦ rest | some e ↦ e ∷ rest ]

-- A line of `_merge_smtp_into_auth_env`.
unfoldable pub merge_line : Entries → Text → Text
merge_line smtp line = elim (partition line) [
  | none ↦ line
  | some (k, v) ↦ elim (get (strip k) smtp) [ none ↦ line | some val ↦ strip k ++ (61 ∷ val) ]
]

-- `_merge_smtp_into_auth_env`
unfoldable pub merge_smtp_into_auth_env : List Text → Entries → List Text
merge_smtp_into_auth_env lines smtp = map (merge_line smtp) lines

-- What `main` draws.
pub record DevSecrets : Type 0 where
  pub private_pem : Text
  pub public_pem : Text
  pub fernet_key : Text
  pub refresh_pepper : Text
  pub auth_privacy_pepper : Text
  pub user_privacy_pepper : Text
  pub gateway_privacy_pepper : Text
  pub reset_pepper : Text
  pub auth_db_password : Text
  pub user_db_password : Text
  pub redis_password : Text

abbrev key_line : Text → Text → Text
key_line key pem = key ++ (codes "=\"" ++ (escape_multiline pem ++ codes "\""))

module _ (s : DevSecrets) where
  abbrev service_lines : Text → Text → List Text
  service_lines name port =
      (codes "SERVICE_NAME=" ++ name)
      ∷ codes "SERVICE_ENV=development"
      ∷ (codes "SERVICE_PORT=" ++ port)
      ∷ codes "CORS_ALLOWED_ORIGINS=http://localhost:3000,http://localhost:8000"
      ∷ []

  abbrev jwt_lines : List Text
  jwt_lines =
      codes "JWT_ALGORITHM=RS256"
      ∷ codes "JWT_ISSUER=backend-platform"
      ∷ codes "JWT_AUDIENCE=backend-clients"
      ∷ []

  abbrev auth_secret_lines : List Text
  auth_secret_lines =
      codes "JWT_ACCESS_TTL_SECONDS=900"
      ∷ codes "JWT_REFRESH_TTL_SECONDS=2592000"
      ∷ key_line (codes "JWT_PRIVATE_KEY") s.private_pem
      ∷ key_line (codes "JWT_PUBLIC_KEY") s.public_pem
      ∷ []
      ∷ (codes "REFRESH_TOKEN_HASH_PEPPER=" ++ s.refresh_pepper)
      ∷ (codes "PRIVACY_KEY_PEPPER=" ++ s.auth_privacy_pepper)
      ∷ (codes "PASSWORD_RESET_TOKEN_PEPPER=" ++ s.reset_pepper)
      ∷ []
      ∷ codes "TOTP_ISSUER=Backend Platform"
      ∷ (codes "TOTP_ENCRYPTION_KEY=" ++ s.fernet_key)
      ∷ codes "TOTP_CODE_DIGITS=6"
      ∷ codes "TOTP_INTERVAL_SECONDS=30"
      ∷ []
      ∷ []

  abbrev mail_lines : List Text
  mail_lines =
      codes "LOGIN_CHALLENGE_TTL_SECONDS=300"
      ∷ codes "PASSWORD_RESET_TOKEN_TTL_SECONDS=900"
      ∷ codes "SMTP_HOST="
      ∷ codes "SMTP_PORT=587"
      ∷ codes "SMTP_USERNAME="
      ∷ codes "SMTP_PASSWORD="
      ∷ codes "SMTP_USE_TLS=true"
      ∷ codes "SMTP_FROM_EMAIL="
      ∷ []
      ∷ []

  abbrev limit_lines : List Text
  limit_lines =
      codes "RATE_LIMIT_LOGIN_PER_MINUTE=10"
      ∷ codes "RATE_LIMIT_2FA_PER_MINUTE=10"
      ∷ codes "RATE_LIMIT_REFRESH_PER_MINUTE=30"
      ∷ codes "RATE_LIMIT_REGISTER_PER_MINUTE=5"
      ∷ codes "RATE_LIMIT_PASSWORD_RESET_PER_MINUTE=5"
      ∷ []
      ∷ codes "BRUTE_FORCE_LOGIN_MAX_ATTEMPTS=5"
      ∷ codes "BRUTE_FORCE_LOGIN_WINDOW_SECONDS=300"
      ∷ codes "BRUTE_FORCE_LOGIN_LOCK_SECONDS=900"
      ∷ codes "BRUTE_FORCE_2FA_MAX_ATTEMPTS=5"
      ∷ codes "BRUTE_FORCE_2FA_WINDOW_SECONDS=300"
      ∷ codes "BRUTE_FORCE_2FA_LOCK_SECONDS=900"
      ∷ codes "BRUTE_FORCE_PASSWORD_RESET_MAX_ATTEMPTS=5"
      ∷ codes "BRUTE_FORCE_PASSWORD_RESET_WINDOW_SECONDS=300"
      ∷ codes "BRUTE_FORCE_PASSWORD_RESET_LOCK_SECONDS=900"
      ∷ []
      ∷ codes "ARGON2_TIME_COST=3"
      ∷ codes "ARGON2_MEMORY_COST=65536"
      ∷ codes "ARGON2_PARALLELISM=4"
      ∷ codes "ARGON2_HASH_LENGTH=32"
      ∷ codes "ARGON2_SALT_LENGTH=16"
      ∷ []
      ∷ []

  unfoldable pub auth_env : List Text
  auth_env =
      service_lines (codes "auth-service") (codes "8001")
      ++ (codes "TRUSTED_PROXY_IPS=172.16.0.0/12"
          ∷ []
          ∷ (codes "DATABASE_URL=postgresql+asyncpg://auth_service:"
              ++ (s.auth_db_password ++ codes "@postgres-auth:5432/auth_service"))
          ∷ (codes "REDIS_URL=redis://:" ++ (s.redis_password ++ codes "@redis:6379/0"))
          ∷ []
          ∷ (jwt_lines ++ (auth_secret_lines ++ (mail_lines ++ limit_lines))))

  unfoldable pub user_env : List Text
  user_env =
      service_lines (codes "user-service") (codes "8002")
      ++ (codes "TRUSTED_PROXY_IPS=172.16.0.0/12"
          ∷ []
          ∷ (codes "DATABASE_URL=postgresql+asyncpg://user_service:"
              ++ (s.user_db_password ++ codes "@postgres-user:5432/user_service"))
          ∷ (codes "REDIS_URL=redis://:" ++ (s.redis_password ++ codes "@redis:6379/1"))
          ∷ []
          ∷ (jwt_lines
              ++ (key_line (codes "JWT_PUBLIC_KEY") s.public_pem
                  ∷ (codes "PRIVACY_KEY_PEPPER=" ++ s.user_privacy_pepper)
                  ∷ []
                  ∷ codes "RATE_LIMIT_PROFILE_WRITE_PER_MINUTE=30"
                  ∷ codes "RATE_LIMIT_ROLES_WRITE_PER_MINUTE=10"
                  ∷ []
                  ∷ [])))

  unfoldable pub gateway_env : List Text
  gateway_env =
      service_lines (codes "api-gateway") (codes "8000")
      ++ ([]
          ∷ (codes "REDIS_URL=redis://:" ++ (s.redis_password ++ codes "@redis:6379/2"))
          ∷ codes "AUTH_SERVICE_URL=http://auth-service:8001"
          ∷ codes "USER_SERVICE_URL=http://user-service:8002"
          ∷ codes "NOTIFICATION_SERVICE_URL="
          ∷ []
          ∷ (jwt_lines
              ++ (key_line (codes "JWT_PUBLIC_KEY") s.public_pem
                  ∷ (codes "PRIVACY_KEY_PEPPER=" ++ s.gateway_privacy_pepper)
                  ∷ []
                  ∷ codes "UPSTREAM_TIMEOUT_SECONDS=10"
                  ∷ codes "TRUSTED_PROXY_IPS="
                  ∷ codes "RATE_LIMIT_PUBLIC_AUTH_PER_MINUTE=30"
                  ∷ codes "RATE_LIMIT_PROTECTED_PER_MINUTE=120"
                  ∷ []
                  ∷ [])))

  unfoldable pub compose_env : List Text
  compose_env =
      codes "COMPOSE_PROJECT_NAME=backend-platform"
      ∷ (codes "AUTH_DB_PASSWORD=" ++ s.auth_db_password)
      ∷ (codes "USER_DB_PASSWORD=" ++ s.user_db_password)
      ∷ (codes "REDIS_PASSWORD=" ++ s.redis_password)
      ∷ codes "GATEWAY_PORT=8080"
      ∷ []
      ∷ []

-- The files that the script may find and write.
pub record Disk : Type 0 where
  pub auth : Option (List Text)
  pub user : Option (List Text)
  pub gateway : Option (List Text)
  pub compose : Option (List Text)

-- Whether a file holds a character: an empty one has one line, which is blank.
abbrev pub has_text : Option (List Text) → Bool
has_text none = false
has_text (some []) = false
has_text (some (line ∷ [])) = is_full line
has_text (some (line ∷ next ∷ lines)) = true

-- `_write_if_allowed`
unfoldable pub write_if_allowed : Bool → List Text → Option (List Text) → Option (List Text)
write_if_allowed force content found = if has_text found && not force then found else some content

-- The file of the auth service, with the mail settings of the one that is there.
unfoldable pub auth_content : DevSecrets → Bool → Option (List Text) → List Text
auth_content s force none = auth_env s
auth_content s force (some found) =
    if force
    then merge_smtp_into_auth_env (auth_env s) (smtp_key_values_from_env_text found)
    else auth_env s

-- `main`
unfoldable pub generate : DevSecrets → Bool → Disk → Disk
generate s force disk = record {
  auth = write_if_allowed force (auth_content s force disk.auth) disk.auth;
  user = write_if_allowed force (user_env s) disk.user;
  gateway = write_if_allowed force (gateway_env s) disk.gateway;
  compose = write_if_allowed force (compose_env s) disk.compose;
}
