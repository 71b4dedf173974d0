-- ===== src/Auth/Config.antt =====
-- The settings of the service and how they are checked as it starts
-- (services/auth-service/app/core/config.py). The settings that no modelled code reads are left out,
-- and so are the texts of the validation errors: a rejected configuration is `none`. The file system
-- and the test for a Fernet key are parameters; a file holds UTF-8 text.
pub mod Smtp
pub mod Load
pub mod Deployed
pub mod Placeholder
use backend_platform.Prelude.{
  ℕ, max, Bool, true, false, not, ◌&&◌, ◌||◌, Option, none, some, List, [], ◌∷◌, ◌++◌, map, any,
  select, is_some, if◌then◌else◌,
}
use backend_platform.Prelude.Text.{Text, codes, is_empty, is_space, member, strip, upper}
use backend_platform.Prelude.Split.{concat, is_full, split, words}
use backend_platform.Auth.Settings.{Settings}

pub data Environment : Type 0 where
  development staging production : Environment

abbrev pub is_deployed : Environment → Bool
is_deployed development = false
is_deployed staging = true
is_deployed production = true

pub record Config : Type 0 where
  pub service_env : Environment
  pub cors_allowed_origins : List Text
  pub trusted_proxy_ips : List Text
  pub jwt_algorithm : Text
  pub jwt_issuer : Text
  pub jwt_audience : Text
  pub jwt_access_ttl_seconds : ℕ
  pub jwt_refresh_ttl_seconds : ℕ
  pub jwt_private_key : Text
  pub jwt_public_key : Text
  pub refresh_token_hash_pepper : Text
  pub privacy_key_pepper : Text
  pub password_reset_token_pepper : Text
  pub totp_encryption_key : Text
  pub totp_interval_seconds : ℕ
  pub login_challenge_ttl_seconds : ℕ
  pub password_reset_token_ttl_seconds : ℕ
  pub brute_force_login_max_attempts : ℕ
  pub brute_force_login_window_seconds : ℕ
  pub brute_force_login_lock_seconds : ℕ
  pub brute_force_2fa_max_attempts : ℕ
  pub brute_force_2fa_window_seconds : ℕ
  pub brute_force_2fa_lock_seconds : ℕ
  pub brute_force_password_reset_max_attempts : ℕ
  pub brute_force_password_reset_window_seconds : ℕ
  pub brute_force_password_reset_lock_seconds : ℕ
  pub smtp_host : Option Text
  pub smtp_port : ℕ
  pub smtp_username : Option Text
  pub smtp_password : Option Text
  pub smtp_password_file : Option Text
  pub smtp_require_delivery : Option Bool
  pub smtp_use_tls : Bool
  pub smtp_from_email : Option Text
  pub smtp_from_name : Option Text
  pub auth_allow_missing_smtp : Bool
  pub support_email : Option Text

-- `_normalize_smtp_secret`
unfoldable pub normalize_smtp_secret : Text → Text
normalize_smtp_secret raw = let s = strip raw in if is_empty s then [] else concat (words s)

-- The characters at which `splitlines` ends a line.
abbrev pub is_line_break : ℕ → Bool
is_line_break c = member (c ∷ []) (map (λ n. n ∷ []) line_breaks)
  where
    line_breaks : List ℕ
    line_breaks = 10 ∷ 11 ∷ 12 ∷ 13 ∷ 28 ∷ 29 ∷ 30 ∷ 133 ∷ 8232 ∷ 8233 ∷ []

-- `s.splitlines()[0]` of a text that is not empty
abbrev pub first_line : Text → Text
first_line [] = []
first_line (c ∷ s) = let rest = first_line s in if is_line_break c then [] else c ∷ rest

-- `_normalize_smtp_identity_line`
unfoldable pub normalize_smtp_identity_line : Text → Text
normalize_smtp_identity_line raw =
    let s = strip raw in let line = if is_empty s then [] else first_line s in strip line

abbrev pub smtp_password_placeholders : List Text
smtp_password_placeholders =
    codes "PASTE_YOUR_GMAIL_APP_PASSWORD_HERE" ∷ codes "REPLACE_WITH_GMAIL_APP_PASSWORD" ∷ []

-- `bool(value)` of a text or `None`
abbrev pub truthy : Option Text → Bool
truthy none = false
truthy (some s) = is_full s

-- `a or b`
abbrev pub or_else : Option Text → Option Text → Option Text
or_else a b = if truthy a then a else b

-- `value or ""`
abbrev pub or_blank : Option Text → Text
or_blank none = []
or_blank (some s) = s

-- `password_reset_token_ttl_value`
unfoldable pub password_reset_token_ttl_value : Config → ℕ
password_reset_token_ttl_value c = max 60 c.password_reset_token_ttl_seconds

-- `smtp_from_email_value`
unfoldable pub smtp_from_email_value : Config → Option Text
smtp_from_email_value c = or_else c.smtp_from_email c.smtp_username

abbrev pub usable_password : Option Text → Option Text
usable_password none = none
usable_password (some secret) =
    let normalized = normalize_smtp_secret secret in
    if is_empty normalized
    then none
    else if member (upper normalized) (map upper smtp_password_placeholders)
    then none
    else some normalized

-- `smtp_password_value`
unfoldable pub smtp_password_value : Config → Option Text
smtp_password_value c = usable_password c.smtp_password

-- `smtp_is_configured`
unfoldable pub smtp_is_configured : Config → Bool
smtp_is_configured c =
    truthy c.smtp_host && (truthy (smtp_from_email_value c) && truthy (smtp_password_value c))

-- `smtp_require_delivery_value`
unfoldable pub smtp_require_delivery_value : Config → Bool
smtp_require_delivery_value c = elim c.smtp_require_delivery [
  | some required ↦ required
  | none ↦
      let smtp_partially_configured =
        truthy c.smtp_host
        || truthy c.smtp_username
        || truthy c.smtp_password
        || truthy c.smtp_from_email in
      is_deployed c.service_env || smtp_partially_configured
]

-- `support_contact_sentence`
unfoldable pub support_contact_sentence : Config → Text
support_contact_sentence c =
    if truthy c.support_email
    then codes "If you need assistance, email " ++ or_blank c.support_email ++ codes "."
    else codes "If you need assistance, contact your platform administrator."

-- What the services read of the settings.
unfoldable pub settings_of : Config → Settings
settings_of c = record {
  jwt_issuer = c.jwt_issuer;
  jwt_audience = c.jwt_audience;
  jwt_access_ttl_seconds = c.jwt_access_ttl_seconds;
  jwt_refresh_ttl_seconds = c.jwt_refresh_ttl_seconds;
  refresh_token_hash_pepper = c.refresh_token_hash_pepper;
  privacy_key_pepper = c.privacy_key_pepper;
  password_reset_token_pepper = c.password_reset_token_pepper;
  password_reset_token_ttl = password_reset_token_ttl_value c;
  login_challenge_ttl_seconds = c.login_challenge_ttl_seconds;
  totp_interval_seconds = c.totp_interval_seconds;
  smtp_is_configured = smtp_is_configured c;
  auth_allow_missing_smtp = c.auth_allow_missing_smtp;
  brute_force_login_max_attempts = c.brute_force_login_max_attempts;
  brute_force_login_window_seconds = c.brute_force_login_window_seconds;
  brute_force_login_lock_seconds = c.brute_force_login_lock_seconds;
  brute_force_2fa_max_attempts = c.brute_force_2fa_max_attempts;
  brute_force_2fa_window_seconds = c.brute_force_2fa_window_seconds;
  brute_force_2fa_lock_seconds = c.brute_force_2fa_lock_seconds;
  brute_force_password_reset_max_attempts = c.brute_force_password_reset_max_attempts;
  brute_force_password_reset_window_seconds = c.brute_force_password_reset_window_seconds;
  brute_force_password_reset_lock_seconds = c.brute_force_password_reset_lock_seconds;
}

-- `account_login_locked_message`
unfoldable pub account_login_locked_message : Config → Text
account_login_locked_message c =
    codes
      "Too many failed sign-in attempts. Password sign-in is blocked for this account. Use password reset with your email to regain access. "
    ++ support_contact_sentence c

-- `password_reset_flow_blocked_message`
unfoldable pub password_reset_flow_blocked_message : Config → Text
password_reset_flow_blocked_message c =
    codes "Self-service password reset is not available for this account for security reasons. "
    ++ support_contact_sentence c
