-- ===== src/Auth/AuthService/Session.antt =====
-- `verify_login_challenge` (services/auth-service/app/services/auth_service.py): the second step of
-- a login.
use backend_platform.Prelude.{ℕ, not, Option, none, some}
use backend_platform.Prelude.Text.{Text, codes}
use backend_platform.Audit.{Fields, plain, field}
use backend_platform.Redis.{Redis}
use backend_platform.Redis.Keys.{two_factor}
use backend_platform.Auth.Db.{User}
use backend_platform.Auth.Errors.{
  Error, invalid_credentials, invalid_challenge, invalid_two_factor_code,
}
use backend_platform.Auth.Settings.{Settings}
use backend_platform.Auth.Providers.{Providers, Challenge}
use backend_platform.Auth.World.{
  Action, pure, raise, gets, or_raise, raise_if, modify_redis, on_redis, lift_redis, commit, branch,
  catch, ◌>>=◌, ◌>>◌,
}
use backend_platform.Auth.BruteForce.{assert_not_locked, record_failure, clear_failures}
use backend_platform.Auth.Events.{entry, log_event}
use backend_platform.Auth.Privacy.{client_identifier, truthy}
use backend_platform.Auth.Repositories.Users
use backend_platform.Auth.TwoFactorService.{verify_for_login}
use backend_platform.Auth.TokenService.{TokenPair, NewSession, issue_for_user}
use backend_platform.Auth.AuthService.Steps.{
  challenge_context_matches, get_login_challenge, delete_login_challenge,
}

-- `UUID(user_id_raw)`
abbrev pub parse_optional : Providers → Option Text → Option ℕ
parse_optional p none = none
parse_optional p (some t) = p.parse_uuid t

module _ {S : Type 0} (redis : Redis S) (p : Providers) (settings : Settings) (challenge_id : Text)
    (totp_code backup_code ip_address user_agent : Option Text) where
  abbrev identifier : Text
  identifier = client_identifier challenge_id ip_address

  abbrev failed : Option ℕ → Fields → Action S (Unit {0})
  failed user_id payload =
      log_event (codes "auth.login.failed") (codes "failure") user_id user_id ip_address user_agent
        payload

  -- A challenge that another address was given.
  unfoldable pub reject_context : Action S TokenPair
  reject_context = do
    on_redis (record_failure redis p.hmac settings two_factor identifier)
    delete_login_challenge redis p settings challenge_id
    failed none (entry (codes "reason") (codes "challenge_context_mismatch"))
    commit
    raise invalid_challenge

  unfoldable pub reject_inactive_user : User → Action S TokenPair
  reject_inactive_user user = do
    delete_login_challenge redis p settings challenge_id
    failed (some user.id) (
        field (codes "reason") (plain (codes "inactive_account"))
          (entry (codes "via") (codes "2fa_challenge")))
    commit
    raise invalid_credentials

  -- `except InvalidTwoFactorCodeException`
  unfoldable pub code_failed : User → Error → Action S (Unit {0})
  code_failed user invalid_two_factor_code = do
    on_redis (record_failure redis p.hmac settings two_factor identifier)
    failed (some user.id) (entry (codes "reason") (codes "invalid_2fa"))
    commit
    raise invalid_two_factor_code
  code_failed user e = raise e

  -- The code, and the tokens where it is right.
  unfoldable pub verify_user : User → NewSession → Action S TokenPair
  unfolding code_failed
  verify_user user drawn = do
    catch (verify_for_login p settings user totp_code backup_code) (code_failed user)
    modify_redis λ now s. clear_failures redis p.hmac settings two_factor identifier s
    delete_login_challenge redis p settings challenge_id
    token_pair ← issue_for_user p settings user.id ip_address user_agent drawn
    log_event (codes "auth.login.success") (codes "success") (some user.id) (some user.id)
        ip_address user_agent (entry (codes "via") (codes "2fa_challenge"))
    commit
    pure token_pair

  unfoldable pub verify_challenge : Challenge → NewSession → Action S TokenPair
  verify_challenge challenge drawn = do
    raise_if (not (truthy challenge.user_id)) invalid_challenge
    challenge_user_id ← or_raise (parse_optional p challenge.user_id) invalid_challenge
    found ← gets (Users.get_by_id challenge_user_id)
    user ← or_raise found invalid_challenge
    branch (not user.is_active) (reject_inactive_user user) (verify_user user drawn)

  unfoldable pub verify_login_challenge : NewSession → Action S TokenPair
  verify_login_challenge drawn = do
    lift_redis (assert_not_locked redis p.hmac settings two_factor identifier)
    found ← get_login_challenge redis p settings challenge_id
    challenge ← or_raise found invalid_challenge
    branch (not (challenge_context_matches p settings challenge ip_address)) reject_context
        (verify_challenge challenge drawn)
