-- ===== src/Auth/Endpoints.antt =====
-- The user of a request (services/auth-service/app/api/deps.py), and the handlers of the second
-- factor for a user who is logged in (services/auth-service/app/api/v1/two_factor.py).
use backend_platform.Prelude.{ℕ, not, Option, some, List, []}
use backend_platform.Prelude.Text.{Text, codes}
use backend_platform.Audit.{end}
use backend_platform.Redis.{Redis}
use backend_platform.Auth.Db.{User}
use backend_platform.Auth.Errors.{invalid_credentials, unauthorized}
use backend_platform.Auth.Settings.{Settings}
use backend_platform.Auth.Providers.{Providers}
use backend_platform.Auth.World.{
  Action, pure, lift, gets, or_raise, raise_if, clock, lift_redis, commit, ◌>>=◌, ◌>>◌,
}
use backend_platform.Auth.Access.{extract_bearer_token, access_ids, ensure_access_session_active}
use backend_platform.Auth.Events.{log_event}
use backend_platform.Auth.Passwords.{verify_password}
use backend_platform.Auth.Repositories.Users
use backend_platform.Auth.TwoFactorService.{
  DrawnCode, TwoFactorSetupData, create_setup, enable, disable, regenerate_backup_codes,
}

unfoldable pub get_current_user :
    {S : Type 0} → Redis S → Providers → Settings → Text → Action S User
get_current_user redis p settings authorization = do
  token ← lift (extract_bearer_token authorization)
  now ← clock
  ids ← lift (access_ids p settings token now)
  lift_redis (ensure_access_session_active redis p ids.1)
  found ← gets (Users.get_by_id ids.0)
  user ← or_raise found unauthorized
  raise_if (not user.is_active) unauthorized
  pure user

module _ {S : Type 0} (redis : Redis S) (p : Providers) (settings : Settings) (authorization : Text)
    (ip_address user_agent : Option Text) where
  abbrev logged : Text → ℕ → Action S (Unit {0})
  logged event_type user_id =
      log_event event_type (codes "success") (some user_id) (some user_id) ip_address user_agent end

  unfoldable pub setup_two_factor : Text → Text → List DrawnCode → Action S TwoFactorSetupData
  setup_two_factor secret nonce drawn = do
    current_user ← get_current_user redis p settings authorization
    setup_data ← create_setup p settings current_user secret nonce drawn
    logged (codes "auth.2fa.setup.initiated") current_user.id
    commit
    pure setup_data

  unfoldable pub enable_two_factor : Text → Action S (List Text)
  enable_two_factor totp_code = do
    current_user ← get_current_user redis p settings authorization
    enable p settings current_user totp_code
    logged (codes "auth.2fa.enabled") current_user.id
    commit
    pure []

  unfoldable pub disable_two_factor : Text → Option Text → Option Text → Action S (Unit {0})
  disable_two_factor password totp_code backup_code = do
    current_user ← get_current_user redis p settings authorization
    raise_if (not (verify_password p password current_user.password_hash)) invalid_credentials
    disable p settings current_user totp_code backup_code
    logged (codes "auth.2fa.disabled") current_user.id
    commit

  unfoldable pub regenerate_codes :
      Option Text → Option Text → List DrawnCode → Action S (List Text)
  regenerate_codes totp_code backup_code drawn = do
    current_user ← get_current_user redis p settings authorization
    plain_codes ← regenerate_backup_codes p settings current_user totp_code backup_code drawn
    logged (codes "auth.2fa.backup.regenerated") current_user.id
    commit
    pure plain_codes
