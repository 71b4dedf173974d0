-- ===== src/Auth/PasswordReset.antt =====
-- Password reset by a mailed code (services/auth-service/app/services/password_reset_service.py).
-- The number that is drawn, the salt of the new hash and what the mail server does are arguments.
pub mod Mailing
pub mod Codes
pub mod Completed
pub mod Alive
use backend_platform.Prelude.{
  ℕ, ◌+◌, ◌/◌, ◌%◌, Bool, true, false, not, Option, none, some, List, [], ◌∷◌, is_some, ltb, leb,
}
use backend_platform.Prelude.Text.{Text, codes, lower}
use backend_platform.Audit.{end}
use backend_platform.Redis.{Redis}
use backend_platform.Redis.Keys.{password_reset, password_reset_account}
use backend_platform.Auth.Db.{User, PasswordResetToken}
use backend_platform.Auth.Errors.{
  bad_request, service_unavailable, unknown_user_password_reset, password_reset_flow_blocked,
}
use backend_platform.Auth.Settings.{Settings}
use backend_platform.Auth.Providers.{Providers}
use backend_platform.Auth.World.{
  Action, pure, raise, lift, gets, or_raise, raise_if, clock, modify_redis, on_redis, lift_redis,
  commit, rollback, when, branch, ◌>>=◌, ◌>>◌,
}
use backend_platform.Auth.BruteForce.{assert_not_locked, record_failure, clear_failures}
use backend_platform.Auth.Events.{entry, log_event}
use backend_platform.Auth.Passwords.{hash_password}
use backend_platform.Auth.Privacy.{normalize_optional, client_identifier}
use backend_platform.Auth.Repositories.Users
use backend_platform.Auth.Repositories.ResetTokens
use backend_platform.Auth.Repositories.RefreshTokens
use backend_platform.Auth.Repositories.Sessions
use backend_platform.Auth.AuthService.Steps.{mark_access_session_revoked}

-- `email_provider.send`: it returns `True`, it returns something else, or it raises.
pub data Delivery : Type 0 where
  delivered refused raised : Delivery

pub record PasswordResetRequestResult : Type 0 where
  pub email_sent : Bool

abbrev pub digit : ℕ → ℕ
digit n = 48 + n % 10

-- `_generate_code`: f"{n:06d}" of the number that `randbelow(1_000_000)` draws.
unfoldable pub generate_code : ℕ → Text
generate_code n =
    digit (n / 100000)
    ∷ digit (n / 10000)
    ∷ digit (n / 1000)
    ∷ digit (n / 100)
    ∷ digit (n / 10)
    ∷ digit n
    ∷ []

-- `_hash_token`
unfoldable pub hash_token : Providers → Settings → Text → Text
hash_token p settings raw_token = p.hmac settings.password_reset_token_pepper raw_token

module _ {S : Type 0} (redis : Redis S) (p : Providers) (settings : Settings) where
  -- `_mark_access_sessions_revoked`
  unfoldable pub mark_access_sessions_revoked : List ℕ → Action S (Unit {0})
  mark_access_sessions_revoked [] = pure tt
  mark_access_sessions_revoked (session_id ∷ session_ids) =
      mark_access_session_revoked redis p settings session_id
      >> mark_access_sessions_revoked session_ids

  -- `user.password_reset_blocked = True`, for a user that there is.
  unfoldable pub block_reset : Option User → Bool → Action S (Unit {0})
  block_reset none over = pure tt
  block_reset (some user) over =
      when over (Users.save (record user { password_reset_blocked = true }) >> commit)

  -- `_record_reset_failure`
  unfoldable pub record_reset_failure : Text → Text → Option User → Action S (Unit {0})
  unfolding block_reset
  record_reset_failure identifier account_identifier user = do
    on_redis (record_failure redis p.hmac settings password_reset identifier)
    acct_attempts ←
        on_redis (record_failure redis p.hmac settings password_reset_account account_identifier)
    block_reset user (leb settings.brute_force_password_reset_max_attempts acct_attempts)

module _ {S : Type 0} (redis : Redis S) (p : Providers) (settings : Settings)
    (ip_address user_agent : Option Text) where
  -- The new row, in place of the codes that were issued before.
  unfoldable pub issue_code : User → ℕ → Action S (Unit {0})
  issue_code user drawn = do
    now ← clock
    ResetTokens.mark_active_for_user_used user.id now
    ResetTokens.create (record {
      user_id = user.id;
      token_hash = hash_token p settings (generate_code drawn);
      requested_ip = normalize_optional ip_address;
      requested_user_agent = normalize_optional user_agent;
      expires_at = now + settings.password_reset_token_ttl;
      used_at = none;
    })

  unfoldable pub deliver : User → Delivery → Action S PasswordResetRequestResult
  deliver user delivered = do
    log_event (codes "auth.password_reset.requested") (codes "success") (some user.id)
        (some user.id) ip_address user_agent (entry (codes "email") user.email)
    commit
    pure (record { email_sent = true })
  deliver user _ = do rollback; raise service_unavailable

  unfoldable pub request_reset : Text → ℕ → Delivery → Action S PasswordResetRequestResult
  unfolding deliver
  request_reset email drawn delivery = do
    found ← gets (Users.get_by_email (lower email))
    user ← or_raise found unknown_user_password_reset
    raise_if user.password_reset_blocked password_reset_flow_blocked
    branch (not settings.smtp_is_configured)
        (branch settings.auth_allow_missing_smtp (pure (record { email_sent = false }))
          (raise service_unavailable))
        (do issue_code user drawn; deliver user delivery)

  -- The writes of `reset_password` to the tables once the code is found good. The sessions that
  -- were active come back.
  unfoldable pub replace_password : Text → User → PasswordResetToken → Action S (List ℕ)
  replace_password password_hash user row = do
    now ← clock
    Users.update_password user password_hash
    ResetTokens.mark_used row now
    active_session_ids ← gets (Sessions.list_active_session_ids_for_user user.id)
    RefreshTokens.revoke_all_for_user user.id (codes "password_reset")
    Sessions.revoke_user_sessions user.id
    pure active_session_ids

  -- The rest of `reset_password`.
  unfoldable pub conclude_reset : Text → Text → User → List ℕ → Action S (Unit {0})
  conclude_reset identifier account_identifier user active_session_ids = do
    mark_access_sessions_revoked redis p settings active_session_ids
    modify_redis λ now s. clear_failures redis p.hmac settings password_reset identifier s
    modify_redis
        λ now s. clear_failures redis p.hmac settings password_reset_account account_identifier s
    log_event (codes "auth.password_reset.completed") (codes "success") (some user.id)
        (some user.id) ip_address user_agent end
    commit

  unfoldable pub complete_reset :
      Text → Text → Text → Text → User → PasswordResetToken → Action S (Unit {0})
  complete_reset identifier account_identifier new_password salt user row = do
    password_hash ← lift (hash_password p salt new_password)
    active_session_ids ← replace_password password_hash user row
    conclude_reset identifier account_identifier user active_session_ids

  -- A code that is not accepted.
  unfoldable pub refuse_code : Text → Text → Option User → Action S (Unit {0})
  refuse_code identifier account_identifier user = do
    record_reset_failure redis p settings identifier account_identifier user
    raise bad_request

  -- What follows the search for the code.
  unfoldable pub check_code :
      Text → Text → Text → Text → User → Option PasswordResetToken → Action S (Unit {0})
  check_code identifier account_identifier new_password salt user none =
      refuse_code identifier account_identifier (some user)
  check_code identifier account_identifier new_password salt user (some row) = do
    now ← clock
    branch (is_some row.used_at) (refuse_code identifier account_identifier (some user)) (
        branch (ltb row.expires_at now) (refuse_code identifier account_identifier (some user))
          (complete_reset identifier account_identifier new_password salt user row))

  -- What follows the search for the user.
  unfoldable pub reset_user : Text → Text → Text → Text → Text → Option User → Action S (Unit {0})
  reset_user identifier account_identifier code new_password salt none =
      refuse_code identifier account_identifier none
  reset_user identifier account_identifier code new_password salt (some user) = do
    raise_if user.password_reset_blocked password_reset_flow_blocked
    row ← gets (ResetTokens.get_active_for_user_by_hash user.id (hash_token p settings code))
    check_code identifier account_identifier new_password salt user row

  unfoldable pub reset_password : Text → Text → Text → Text → Action S (Unit {0})
  unfolding reset_user check_code
  reset_password email code new_password salt = do
    let account_identifier = lower email
    let identifier = client_identifier account_identifier ip_address
    lift_redis (assert_not_locked redis p.hmac settings password_reset identifier)
    lift_redis (assert_not_locked redis p.hmac settings password_reset_account account_identifier)
    user ← gets (Users.get_by_email account_identifier)
    reset_user identifier account_identifier code new_password salt user
