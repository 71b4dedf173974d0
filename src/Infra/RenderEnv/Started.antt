-- ===== src/Infra/RenderEnv/Started.antt =====
-- The gateway and the user service start on the files that
-- infra/scripts/render_prod_env_from_secrets.py writes (services/*/app/core/config.py).
use backend_platform.Prelude.{
  ℕ, ◌≡◌, refl, not, ◌∙◌, true, false, Option, none, some, List, ◌∷◌, All, any, inl, inr,
  if◌then◌else◌,
}
use backend_platform.Prelude.Text.{Text, codes, member, member_iff}
use backend_platform.Prelude.Split.{is_full}
use backend_platform.ServiceConfig.{setting_or, setting_or_given, setting_or_absent}
use backend_platform.ServiceConfig.Started.{
  Parsers, typed, typed-given, typed_absent, flag_of, is_digit, whole, start_gateway, start_user,
}
use backend_platform.Infra.RenderEnv.{Sources}
use backend_platform.Infra.RenderEnv.Files.{
  Secrets, EnvFiles, auth_env, user_env, gateway_env, cors_line, read_secrets, render,
}
use backend_platform.Infra.RenderEnv.Dotenv.{raw_value, needs_care, IsLine, Dotenv}
use backend_platform.Infra.RenderEnv.Lines.{
  IsFit, flags, parts-plain, user_env-IsLine, gateway_env-IsLine,
}
use backend_platform.Infra.RenderEnv.Rendered.{
  cookie_secure, flag_value, rendered_gateway, rendered_user, SaysGateway, SaysUser,
  user_env-SaysUser, gateway_env-SaysGateway,
}
use backend_platform.Infra.RenderEnv.Services.{
  Says, user_env-Says, auth_env-Says, gateway_env-Says, checked-Says,
}

module _ {N F : Type 0} (p : Parsers N F) (dotenv : List Text → Text → Option Text)
    (d : Dotenv dotenv) (lines : List Text) (tidy : All IsLine lines) where
  given_plain :
      (key value : Text)
      → raw_value key lines ≡ some value
      → any needs_care value ≡ false
      → dotenv lines key ≡ some value
  given_plain key value = d.reads_plain lines key value tidy

  text_setting :
      (key value default : Text)
      → raw_value key lines ≡ some value
      → any needs_care value ≡ false
      → setting_or (dotenv lines) key default ≡ value
  text_setting key value default found bare =
      setting_or_given (dotenv lines) key value (given_plain key value found bare) default

  int_setting :
      (key : Text) (c : ℕ) (s : Text) (default : N)
      → raw_value key lines ≡ some (c ∷ s)
      → any needs_care (c ∷ s) ≡ false
      → any (λ x. not (is_digit x)) (c ∷ s) ≡ false
      → typed p (dotenv lines) p.int_of key default ≡ some (p.number (whole 0 (c ∷ s)))
  int_setting key c s default found bare digits =
      typed-given p (dotenv lines) p.int_of key default (c ∷ s) (given_plain key (c ∷ s) found bare)
      ∙ p.int_of-digits c s digits

  -- The flag is read as the compose file has it, and is not there where the compose file leaves it out.
  flag_setting :
      (key t : Text)
      → raw_value key lines ≡ (if is_full t then some t else none)
      → member t flags ≡ true
      → typed p (dotenv lines) (flag_of p (dotenv lines)) key none ≡ some (flag_value t)
  flag_setting key t found h = elim ((member_iff t flags).0 h) [
    | inl blank ↦ rw blank (
        typed_absent p (dotenv lines) (flag_of p (dotenv lines)) key none
          (d.reads_absent lines key tidy (rw blank at found)))
    | inr (inl on) ↦ rw on (
        typed-given p (dotenv lines) (flag_of p (dotenv lines)) key none (codes "true")
          (given_plain key (codes "true") (rw on at found) refl)
        ∙ (rw (p.bool_of-true, flag_of) refl))
    | inr (inr (inl off)) ↦ rw off (
        typed-given p (dotenv lines) (flag_of p (dotenv lines)) key none (codes "false")
          (given_plain key (codes "false") (rw off at found) refl)
        ∙ (rw (p.bool_of-false, flag_of) refl))
    | inr (inr (inr never)) ↦ absurd never
  ]

module _ {N F : Type 0} (p : Parsers N F) (dotenv : List Text → Text → Option Text)
    (d : Dotenv dotenv) (quote_plus : Text → Text)
    (bare : (t : Text) → any needs_care (quote_plus t) ≡ false) (from : Sources)
    (cors_origins : Text) (s : Secrets) (fit : IsFit from cors_origins s) where
  gateway_starts :
      (lines : List Text)
      → All IsLine lines
      → Says (cors_line cors_origins) s lines
      → SaysGateway quote_plus from s lines
      → start_gateway p (dotenv lines) ≡ some (rendered_gateway p quote_plus from cors_origins s)
  unfolding start_gateway
  gateway_starts lines tidy says g =
      rw
        (
          checked-Says dotenv d from cors_origins s fit lines tidy says,
          int_setting p dotenv d lines tidy (codes "SERVICE_PORT") _ _ (p.number 8000) g.port refl
              refl,
          given_plain p dotenv d lines tidy (codes "REDIS_URL") _ g.redis_url (
              parts-plain (codes "redis://:") (quote_plus s.redis_pw) (codes "@redis:6379/2") refl
                (bare s.redis_pw) refl),
          given_plain p dotenv d lines tidy (codes "AUTH_SERVICE_URL") _ g.auth_url refl,
          given_plain p dotenv d lines tidy (codes "USER_SERVICE_URL") _ g.user_url refl,
          typed-given p (dotenv lines) p.float_of (codes "UPSTREAM_TIMEOUT_SECONDS") (p.decimal 10)
                _
                (given_plain p dotenv d lines tidy (codes "UPSTREAM_TIMEOUT_SECONDS") _ g.timeout
                  refl)
              ∙ p.float_of-digits 49 (codes "0") refl,
          int_setting p dotenv d lines tidy (codes "RATE_LIMIT_PUBLIC_AUTH_PER_MINUTE") _ _
              (p.number 30) g.public_auth refl refl,
          int_setting p dotenv d lines tidy (codes "RATE_LIMIT_PROTECTED_PER_MINUTE") _ _
              (p.number 120) g.protected refl refl,
          typed_absent p (dotenv lines) p.int_of (codes "REFRESH_COOKIE_MAX_AGE_SECONDS")
              (p.number 2592000) (d.reads_absent lines _ tidy g.max_age),
          flag_setting p dotenv d lines tidy (codes "REFRESH_COOKIE_SECURE") (cookie_secure from)
              g.secure fit.cookie_flag,
          text_setting p dotenv d lines tidy (codes "SERVICE_NAME") _ (codes "api-gateway") g.name
              refl,
          given_plain p dotenv d lines tidy (codes "NOTIFICATION_SERVICE_URL") _ g.notification_url
              refl,
          text_setting p dotenv d lines tidy (codes "JWT_ISSUER") _ (codes "backend-platform")
              says.issuer refl,
          text_setting p dotenv d lines tidy (codes "JWT_AUDIENCE") _ (codes "backend-clients")
              says.audience refl,
          setting_or_absent (dotenv lines) (codes "REFRESH_COOKIE_NAME") (codes "bp_rt")
              (d.reads_absent lines _ tidy g.cookie_name),
          start_gateway,
        )
        refl

  user_starts :
      (lines : List Text)
      → All IsLine lines
      → Says (cors_line cors_origins) s lines
      → SaysUser quote_plus s lines
      → start_user p (dotenv lines) ≡ some (rendered_user p quote_plus cors_origins s)
  unfolding start_user
  user_starts lines tidy says u =
      rw
        (
          checked-Says dotenv d from cors_origins s fit lines tidy says,
          int_setting p dotenv d lines tidy (codes "SERVICE_PORT") _ _ (p.number 8002) u.port refl
              refl,
          given_plain p dotenv d lines tidy (codes "DATABASE_URL") _ u.database_url (
              parts-plain (codes "postgresql+asyncpg://user_service:") (quote_plus s.user_db)
                (codes "@postgres-user:5432/user_service") refl (bare s.user_db) refl),
          given_plain p dotenv d lines tidy (codes "REDIS_URL") _ u.redis_url (
              parts-plain (codes "redis://:") (quote_plus s.redis_pw) (codes "@redis:6379/1") refl
                (bare s.redis_pw) refl),
          int_setting p dotenv d lines tidy (codes "RATE_LIMIT_PROFILE_WRITE_PER_MINUTE") _ _
              (p.number 30) u.profile_write refl refl,
          int_setting p dotenv d lines tidy (codes "RATE_LIMIT_ROLES_WRITE_PER_MINUTE") _ _
              (p.number 10) u.roles_write refl refl,
          typed_absent p (dotenv lines) p.int_of (codes "HEALTH_TIMEOUT_SECONDS") (p.number 2)
              (d.reads_absent lines _ tidy u.health_timeout),
          text_setting p dotenv d lines tidy (codes "SERVICE_NAME") _ (codes "user-service") u.name
              refl,
          text_setting p dotenv d lines tidy (codes "JWT_ISSUER") _ (codes "backend-platform")
              says.issuer refl,
          text_setting p dotenv d lines tidy (codes "JWT_AUDIENCE") _ (codes "backend-clients")
              says.audience refl,
          start_user,
        )
        refl

-- Where the secrets are there and fit, and a password is quoted to plain characters: the script writes
-- the three files. With a reader of files and parsers of numbers and flags that follow their documented
-- rules, the gateway and the user service start on theirs, each of their settings being what the command
-- line, the compose file and the secrets say, or its default; and the file of the auth service names the
-- same key, pepper, issuer, audience and algorithm.
pub rendered_services_start :
    {N F : Type 0} (p : Parsers N F) (dotenv : List Text → Text → Option Text)
    (quote_plus : Text → Text) (from : Sources) (cors_origins : Text) (s : Secrets)
    → Dotenv dotenv
    → ((t : Text) → any needs_care (quote_plus t) ≡ false)
    → read_secrets from ≡ some s
    → IsFit from cors_origins s
    → (files : EnvFiles) × (render quote_plus from cors_origins ≡ some files)
      × (start_gateway p (dotenv files.gateway)
          ≡ some (rendered_gateway p quote_plus from cors_origins s))
      × (start_user p (dotenv files.user) ≡ some (rendered_user p quote_plus cors_origins s))
      × Says (cors_line cors_origins) s files.auth
unfolding render
rendered_services_start p dotenv quote_plus from cors_origins s d bare found fit =
    let cors = cors_line cors_origins in
    (
      record {
        auth = auth_env quote_plus from cors s;
        user = user_env quote_plus from cors s;
        gateway = gateway_env quote_plus from cors s;
      },
      rw (found, render) refl,
      gateway_starts p dotenv d quote_plus bare from cors_origins s fit
          (gateway_env quote_plus from cors s)
          (gateway_env-IsLine quote_plus bare from cors_origins s fit)
          (gateway_env-Says quote_plus from cors s)
          (gateway_env-SaysGateway quote_plus from cors s),
      user_starts p dotenv d quote_plus bare from cors_origins s fit
          (user_env quote_plus from cors s)
          (user_env-IsLine quote_plus bare from cors_origins s fit)
          (user_env-Says quote_plus from cors s) (user_env-SaysUser quote_plus from cors s),
      auth_env-Says quote_plus from cors s,
    )
