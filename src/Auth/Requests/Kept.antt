-- ===== src/Auth/Requests/Kept.antt =====
-- What every request of the auth service (services/auth-service/app/api/v1) does to the table of
-- refresh tokens, from what the operations of the token service do to it.
use backend_platform.Prelude.{ℕ, refl, Bool, Option, none, some}
use backend_platform.Prelude.Text.{Text}
use backend_platform.Redis.{Redis}
use backend_platform.Auth.Db.{Db, User}
use backend_platform.Auth.Errors.{
  Error, token_reuse_detected, invalid_token, invalid_two_factor_code,
}
use backend_platform.Auth.Settings.{Settings}
use backend_platform.Auth.Providers.{Providers}
use backend_platform.Auth.World.Keeps.{
  Keeps, Keeps-bind, Keeps-clock, Keeps-raise, Keeps-in_session, keeps_rules,
}
use backend_platform.Auth.TokenService.{NewSession, RefreshRevocationResult}
use backend_platform.Auth.TokenService.Kept.{TokenProperty}
use backend_platform.Auth.TwoFactorService.{
  create_setup, enable, verify_totp, verify_backup_code, verify_for_login, disable,
  regenerate_backup_codes,
}
use backend_platform.Auth.AuthService.Steps
use backend_platform.Auth.AuthService.Login
use backend_platform.Auth.AuthService.Session
use backend_platform.Auth.AuthService.Refresh
use backend_platform.Auth.Endpoints.{get_current_user}
use backend_platform.Auth.Endpoints
use backend_platform.Auth.Requests.{
  Request, registering, logging_in, answering, refreshing, revoking, forgetting, resetting,
  setting_up, enabling, disabling, regenerating, handle, serve,
}
use backend_platform.Auth.Requests.Tables.{modify-Keeps, table_rules}
use backend_platform.Auth.Requests.Resets.{request_reset-Keeps, reset_password-Keeps}

module _ {S : Type 0} {p : Providers} {settings : Settings} {P : Db → Type 0}
    (k : TokenProperty S p settings P) where
  verify_backup_code-Keeps :
      (user : User) (code : Text) → Keeps P (verify_backup_code {S = S} p settings user code)
  unfolding verify_backup_code
  verify_backup_code-Keeps user code = Keeps-bind _ _ Keeps-clock λ now.
      Keeps-bind _ _ (search keeps_rules)
        λ found. Keeps-bind _ _ (search keeps_rules) λ rows. modify-Keeps k _ λ db. refl

  verify_for_login-Keeps :
      (user : User) (totp backup : Option Text)
      → Keeps P (verify_for_login {S = S} p settings user totp backup)
  unfolding verify_for_login verify_totp
  verify_for_login-Keeps user totp backup = search (table_rules, verify_backup_code-Keeps) depth 30

module _ {S : Type 0} (redis : Redis S) {p : Providers} {settings : Settings} (ip ua : Option Text)
    {P : Db → Type 0} (k : TokenProperty S p settings P) where
  login_user-Keeps :
      (email password : Text) (drawn : NewSession) (challenge : ℕ) (found : Option User)
      → Keeps P (Login.login_user redis p settings email ip ua password drawn challenge found)
  unfolding Login.login_user Login.reject_unknown Login.reject_password Login.reject_inactive
      Login.accept_password Login.challenge_user Login.admit_user Steps.create_login_challenge
  login_user-Keeps email password drawn challenge none = search table_rules depth 40
  login_user-Keeps email password drawn challenge (some user) =
      search (table_rules, k.issue) depth 40

  log_in-Keeps :
      (email password : Text) (drawn : NewSession) (challenge : ℕ)
      → Keeps P (Login.log_in redis p settings email password ip ua drawn challenge)
  unfolding Login.log_in
  log_in-Keeps email password drawn challenge = search (table_rules, login_user-Keeps)

  code_failed-Keeps :
      (id : Text) (totp backup : Option Text) (user : User) (e : Error)
      → Keeps P (Session.code_failed redis p settings id totp backup ip ua user e)
  unfolding Session.code_failed
  code_failed-Keeps id totp backup user invalid_two_factor_code = search table_rules depth 20
  code_failed-Keeps id totp backup user _ = Keeps-raise _

  verify_login_challenge-Keeps :
      (id : Text) (totp backup : Option Text) (drawn : NewSession)
      → Keeps P (Session.verify_login_challenge redis p settings id totp backup ip ua drawn)
  unfolding Session.verify_login_challenge Session.verify_challenge Session.verify_user
      Session.reject_inactive_user Session.reject_context Steps.get_login_challenge
      Steps.delete_login_challenge
  verify_login_challenge-Keeps id totp backup drawn =
      search (table_rules, k.issue, verify_for_login-Keeps, code_failed-Keeps) depth 40

  refresh_failed-Keeps : (e : Error) → Keeps P (Refresh.refresh_failed redis p settings ip ua e)
  unfolding Refresh.refresh_failed Steps.mark_access_session_revoked
  refresh_failed-Keeps (token_reuse_detected s f) = search table_rules depth 20
  refresh_failed-Keeps invalid_token = search table_rules depth 20
  refresh_failed-Keeps _ = Keeps-raise _

  pub refresh_tokens-Keeps :
      (raw : Text) (new_jti access_jti : ℕ)
      → Keeps P (Refresh.refresh_tokens redis p settings ip ua raw new_jti access_jti)
  unfolding Refresh.refresh_tokens
  refresh_tokens-Keeps raw new_jti access_jti =
      search (table_rules, k.rotates, refresh_failed-Keeps) depth 20

  mark_revocation-Keeps :
      (r : Option RefreshRevocationResult)
      → Keeps P (Refresh.mark_revocation redis p settings ip ua r)
  unfolding Refresh.mark_revocation Steps.mark_access_session_revoked
  mark_revocation-Keeps none = search table_rules
  mark_revocation-Keeps (some r) = search table_rules

  revoke_refresh_token-Keeps :
      (raw : Text) (family : Bool)
      → Keeps P (Refresh.revoke_refresh_token redis p settings ip ua raw family)
  unfolding Refresh.revoke_refresh_token
  revoke_refresh_token-Keeps raw family =
      search (table_rules, k.revokes, mark_revocation-Keeps) depth 20

  register-Keeps :
      (email password : Text) (id : ℕ) (salt : Text)
      → Keeps P (Steps.register redis p settings email password ip ua id salt)
  unfolding Steps.register
  register-Keeps email password id salt = search table_rules depth 20

  get_current_user-Keeps : (a : Text) → Keeps P (get_current_user redis p settings a)
  unfolding get_current_user
  get_current_user-Keeps a = search table_rules depth 20

  handle-Keeps : (request : Request) → Keeps P (handle redis p settings ip ua request)
  unfolding handle Endpoints.setup_two_factor Endpoints.enable_two_factor
      Endpoints.disable_two_factor Endpoints.regenerate_codes create_setup enable disable
      regenerate_backup_codes
  handle-Keeps (registering b c d e) = search register-Keeps
  handle-Keeps (logging_in b c d e) = search (table_rules, log_in-Keeps)
  handle-Keeps (answering b c d e) = search (table_rules, verify_login_challenge-Keeps)
  handle-Keeps (refreshing b c d) = search (table_rules, refresh_tokens-Keeps)
  handle-Keeps (revoking b c) = search revoke_refresh_token-Keeps
  handle-Keeps (forgetting b c d) = search (table_rules, request_reset-Keeps)
  handle-Keeps (resetting b c d e) = search reset_password-Keeps
  handle-Keeps (setting_up b c d e) = search (table_rules, get_current_user-Keeps) depth 40
  handle-Keeps (enabling b c) = search (table_rules, get_current_user-Keeps) depth 40
  handle-Keeps (disabling b c d e) =
      search (table_rules, get_current_user-Keeps, verify_for_login-Keeps) depth 40
  handle-Keeps (regenerating b c d e) =
      search (table_rules, get_current_user-Keeps, verify_for_login-Keeps) depth 40

  pub serve-Keeps : (request : Request) → Keeps P (serve redis p settings ip ua request)
  unfolding serve
  serve-Keeps request = Keeps-in_session _ (handle-Keeps request)
