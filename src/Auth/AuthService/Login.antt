-- ===== src/Auth/AuthService/Login.antt =====
-- `login` (services/auth-service/app/services/auth_service.py), up to the tokens or to the
-- challenge of the second factor.
use backend_platform.Prelude.{ℕ, Bool, true, false, not, Option, none, some, leb, if◌then◌else◌}
use backend_platform.Prelude.Text.{Text, codes, lower}
use backend_platform.Audit.{Fields, plain, field, end}
use backend_platform.Redis.{Redis}
use backend_platform.Redis.Keys.{login, login_account}
use backend_platform.Auth.Db.{User}
use backend_platform.Auth.Errors.{account_login_blocked, invalid_credentials}
use backend_platform.Auth.Settings.{Settings}
use backend_platform.Auth.Providers.{Providers}
use backend_platform.Auth.World.{
  Action, pure, raise, gets, raise_if, modify_redis, on_redis, lift_redis, commit, when, branch,
  ◌>>=◌, ◌>>◌,
}
use backend_platform.Auth.BruteForce.{assert_not_locked, record_failure, clear_failures}
use backend_platform.Auth.Events.{entry, log_event}
use backend_platform.Auth.Passwords.{verify_password}
use backend_platform.Auth.Privacy.{client_identifier}
use backend_platform.Auth.Repositories.Users
use backend_platform.Auth.TokenService.{TokenPair, NewSession, issue_for_user}
use backend_platform.Auth.AuthService.Steps.{create_login_challenge}

pub record LoginStepResult : Type 0 where
  pub requires_2fa : Bool
  pub challenge_id : Option Text
  pub tokens : Option TokenPair

module _ {S : Type 0} (redis : Redis S) (p : Providers) (settings : Settings)
    (normalized_email : Text) (ip_address user_agent : Option Text) where
  abbrev identifier : Text
  identifier = client_identifier normalized_email ip_address

  abbrev failed : Option ℕ → Fields → Action S (Unit {0})
  failed user_id payload =
      log_event (codes "auth.login.failed") (codes "failure") user_id user_id ip_address user_agent
        payload

  -- A name that nobody has. The verification against a dummy hash, which takes the time of a real
  -- one, has no other effect.
  unfoldable pub reject_unknown : Action S LoginStepResult
  reject_unknown = do
    lift_redis (assert_not_locked redis p.hmac settings login identifier)
    on_redis (record_failure redis p.hmac settings login identifier)
    failed none (entry (codes "email") normalized_email)
    commit
    raise invalid_credentials

  -- A wrong password.
  unfoldable pub reject_password : User → Action S LoginStepResult
  reject_password user = do
    on_redis (record_failure redis p.hmac settings login identifier)
    acct_attempts ← on_redis (record_failure redis p.hmac settings login_account normalized_email)
    let blocked = leb settings.brute_force_login_max_attempts acct_attempts
    when blocked (Users.save (record user { login_blocked = true }))
    failed (some user.id) (entry (codes "email") normalized_email)
    commit
    raise (if blocked then account_login_blocked else invalid_credentials)

  unfoldable pub reject_inactive : User → Action S LoginStepResult
  reject_inactive user = do
    failed (some user.id) (
        field (codes "email") (plain normalized_email)
          (entry (codes "reason") (codes "inactive_account")))
    commit
    raise invalid_credentials

  -- The first step of a login with a second factor.
  unfoldable pub challenge_user : User → ℕ → Action S LoginStepResult
  challenge_user user challenge_uuid = do
    challenge_id ← create_login_challenge redis p settings user.id ip_address challenge_uuid
    pure (record { requires_2fa = true; challenge_id = some challenge_id; tokens = none })

  unfoldable pub admit_user : User → NewSession → Action S LoginStepResult
  admit_user user drawn = do
    token_pair ← issue_for_user p settings user.id ip_address user_agent drawn
    log_event (codes "auth.login.success") (codes "success") (some user.id) (some user.id)
        ip_address user_agent end
    commit
    pure (record { requires_2fa = false; challenge_id = none; tokens = some token_pair })

  unfoldable pub accept_password : User → NewSession → ℕ → Action S LoginStepResult
  accept_password user drawn challenge_uuid = do
    modify_redis λ now s. clear_failures redis p.hmac settings login identifier s
    modify_redis λ now s. clear_failures redis p.hmac settings login_account normalized_email s
    branch user.two_factor_enabled (challenge_user user challenge_uuid) (admit_user user drawn)

  unfoldable pub login_user : Text → NewSession → ℕ → Option User → Action S LoginStepResult
  login_user password drawn challenge_uuid none = reject_unknown
  login_user password drawn challenge_uuid (some user) = do
    raise_if user.login_blocked account_login_blocked
    lift_redis (assert_not_locked redis p.hmac settings login identifier)
    lift_redis (assert_not_locked redis p.hmac settings login_account normalized_email)
    branch (not (verify_password p password user.password_hash)) (reject_password user) (
        branch (not user.is_active) (reject_inactive user)
          (accept_password user drawn challenge_uuid))

unfoldable pub log_in :
    {S : Type 0}
    → Redis S
    → Providers
    → Settings
    → Text
    → Text
    → Option Text
    → Option Text
    → NewSession
    → ℕ
    → Action S LoginStepResult
unfolding login_user
log_in redis p settings email password ip_address user_agent drawn challenge_uuid = do
  user ← gets (Users.get_by_email (lower email))
  login_user redis p settings (lower email) ip_address user_agent password drawn challenge_uuid user
