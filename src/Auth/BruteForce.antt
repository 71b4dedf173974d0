-- ===== src/Auth/BruteForce.antt =====
-- The guard against guessing (services/auth-service/app/services/brute_force_protection_service.py).
-- `hmac pepper value` is the keyed digest of core/privacy.py, a function of the standard library.

pub mod Steps
pub mod Lock
use backend_platform.Prelude.{
  ℕ, zero, suc, ◌-◌, max, Bool, Option, none, some, ltb, leb, ◌==◌, if◌then◌else◌,
}
use backend_platform.Prelude.Text.{Text, codes}
use backend_platform.Redis.{Redis, Entry, counted, get, exists}
use backend_platform.Redis.Keys.{
  Scope, login, login_account, two_factor, password_reset, password_reset_account, scope_text,
  brute_force_fail_key, brute_force_lock_key,
}
use backend_platform.Auth.Errors.{Result, ok, err, account_locked}
use backend_platform.Auth.Settings.{Settings}

pub record Policy : Type 0 where
  pub max_attempts : ℕ
  pub window_seconds : ℕ
  pub lock_seconds : ℕ

-- `_policy`; the other scopes are refused there, and none is asked for.
unfoldable pub policy : Settings → Scope → Policy
policy s login = record {
  max_attempts = s.brute_force_login_max_attempts;
  window_seconds = s.brute_force_login_window_seconds;
  lock_seconds = s.brute_force_login_lock_seconds;
}
policy s login_account = record {
  max_attempts = s.brute_force_login_max_attempts;
  window_seconds = s.brute_force_login_window_seconds;
  lock_seconds = s.brute_force_login_lock_seconds;
}
policy s two_factor = record {
  max_attempts = s.brute_force_2fa_max_attempts;
  window_seconds = s.brute_force_2fa_window_seconds;
  lock_seconds = s.brute_force_2fa_lock_seconds;
}
policy s password_reset = record {
  max_attempts = s.brute_force_password_reset_max_attempts;
  window_seconds = s.brute_force_password_reset_window_seconds;
  lock_seconds = s.brute_force_password_reset_lock_seconds;
}
policy s password_reset_account = record {
  max_attempts = s.brute_force_password_reset_max_attempts;
  window_seconds = s.brute_force_password_reset_window_seconds;
  lock_seconds = s.brute_force_password_reset_lock_seconds;
}

-- TTL key, where the key is there and expires.
abbrev seconds_left : ℕ → Option Entry → ℕ
seconds_left now none = 0
seconds_left now (some e) = elim e.deadline [ none ↦ 0 | some t ↦ t - now ]

module _ {S : Type 0} (redis : Redis S) (hmac : Text → Text → Text) (settings : Settings) where
  -- `_identifier_digest`
  unfoldable pub identifier_digest : Text → Text
  identifier_digest identifier = hmac settings.privacy_key_pepper identifier

  unfoldable pub assert_not_locked : Scope → Text → ℕ → S → Result (Unit {0})
  unfolding identifier_digest
  assert_not_locked scope identifier now s =
      let lock_key = brute_force_lock_key (scope_text scope) (identifier_digest identifier) in
      if exists redis s now lock_key
      then err (account_locked (max (seconds_left now (get redis s now lock_key)) 1))
      else ok tt

  -- The number of failures, and the state after it.
  unfoldable pub record_failure : Scope → Text → ℕ → S → ℕ × S
  unfolding identifier_digest policy
  record_failure scope identifier now s =
      let p = policy settings scope in
      let key_identifier = identifier_digest identifier in
      let fail_key = brute_force_fail_key (scope_text scope) key_identifier in
      let lock_key = brute_force_lock_key (scope_text scope) key_identifier in
      let s1 = redis.incr s now fail_key in
      let attempts = counted (get redis s1 now fail_key) in
      let s2 = if attempts == 1 then redis.expire s1 now fail_key p.window_seconds else s1 in
      let s3 =
        if leb p.max_attempts attempts
        then redis.delete (redis.set s2 now lock_key (codes "1") p.lock_seconds) fail_key
        else s2 in
      (attempts, s3)

  unfoldable pub clear_failures : Scope → Text → S → S
  unfolding identifier_digest
  clear_failures scope identifier s =
      let key_identifier = identifier_digest identifier in
      let fail_key = brute_force_fail_key (scope_text scope) key_identifier in
      let lock_key = brute_force_lock_key (scope_text scope) key_identifier in
      redis.delete (redis.delete s fail_key) lock_key
