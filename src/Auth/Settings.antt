-- ===== src/Auth/Settings.antt =====
-- The settings that the services read (services/auth-service/app/core/config.py).
use backend_platform.Prelude.{ℕ, Bool}
use backend_platform.Prelude.Text.{Text}

pub record Settings : Type 0 where
  pub jwt_issuer : Text
  pub jwt_audience : Text
  pub jwt_access_ttl_seconds : ℕ
  pub jwt_refresh_ttl_seconds : ℕ
  pub refresh_token_hash_pepper : Text
  pub privacy_key_pepper : Text
  pub password_reset_token_pepper : Text
  pub password_reset_token_ttl : ℕ
  pub login_challenge_ttl_seconds : ℕ
  pub totp_interval_seconds : ℕ
  pub smtp_is_configured : Bool
  pub auth_allow_missing_smtp : Bool
  pub brute_force_login_max_attempts : ℕ
  pub brute_force_login_window_seconds : ℕ
  pub brute_force_login_lock_seconds : ℕ
  pub brute_force_2fa_max_attempts : ℕ
  pub brute_force_2fa_window_seconds : ℕ
  pub brute_force_2fa_lock_seconds : ℕ
  pub brute_force_password_reset_max_attempts : ℕ
  pub brute_force_password_reset_window_seconds : ℕ
  pub brute_force_password_reset_lock_seconds : ℕ
