-- ===== src/Auth/Requests/Resets.antt =====
-- What a password reset (services/auth-service/app/services/password_reset_service.py) does to the
-- table of refresh tokens.
use backend_platform.Prelude.{ℕ, Bool, Option, none, some, List, [], ◌∷◌}
use backend_platform.Prelude.Text.{Text}
use backend_platform.Redis.{Redis}
use backend_platform.Auth.Db.{Db, User, PasswordResetToken}
use backend_platform.Auth.Settings.{Settings}
use backend_platform.Auth.Providers.{Providers}
use backend_platform.Auth.World.Keeps.{Keeps, Keeps-bind}
use backend_platform.Auth.TokenService.Kept.{TokenProperty}
use backend_platform.Auth.AuthService.Steps
use backend_platform.Auth.PasswordReset
use backend_platform.Auth.PasswordReset.{delivered, refused, raised}
use backend_platform.Auth.Requests.Tables.{table_rules}

module _ {S : Type 0} (redis : Redis S) {p : Providers} {settings : Settings} (ip ua : Option Text)
    {P : Db → Type 0} (k : TokenProperty S p settings P) where
  deliver-Keeps :
      (user : User) (d : PasswordReset.Delivery)
      → Keeps P (PasswordReset.deliver redis p settings ip ua user d)
  unfolding PasswordReset.deliver
  deliver-Keeps user delivered = search table_rules
  deliver-Keeps user refused = search table_rules
  deliver-Keeps user raised = search table_rules

  pub request_reset-Keeps :
      (email : Text) (drawn : ℕ) (d : PasswordReset.Delivery)
      → Keeps P (PasswordReset.request_reset redis p settings ip ua email drawn d)
  unfolding PasswordReset.request_reset PasswordReset.issue_code
  request_reset-Keeps email drawn d = search (table_rules, deliver-Keeps) depth 20

  block_reset-Keeps :
      (user : Option User) (over : Bool)
      → Keeps P (PasswordReset.block_reset redis p settings user over)
  unfolding PasswordReset.block_reset
  block_reset-Keeps none over = search table_rules
  block_reset-Keeps (some user) over = search table_rules

  refuse_code-Keeps :
      (id account : Text) (user : Option User)
      → Keeps P (PasswordReset.refuse_code redis p settings ip ua id account user)
  unfolding PasswordReset.refuse_code PasswordReset.record_reset_failure
  refuse_code-Keeps id account user = search (table_rules, block_reset-Keeps) depth 20

  mark_sessions-Keeps :
      (ids : List ℕ) → Keeps P (PasswordReset.mark_access_sessions_revoked redis p settings ids)
  unfolding PasswordReset.mark_access_sessions_revoked Steps.mark_access_session_revoked
  mark_sessions-Keeps [] = search table_rules
  mark_sessions-Keeps (i ∷ is) = Keeps-bind _ _ (search table_rules) λ _. mark_sessions-Keeps is

  complete_reset-Keeps :
      (id account password salt : Text) (user : User) (row : PasswordResetToken)
      → Keeps P
          (PasswordReset.complete_reset redis p settings ip ua id account password salt user row)
  unfolding PasswordReset.complete_reset PasswordReset.replace_password PasswordReset.conclude_reset
  complete_reset-Keeps id account password salt user row =
      search (table_rules, k.revokes_all, mark_sessions-Keeps) depth 40

  check_code-Keeps :
      (id account password salt : Text) (user : User) (found : Option PasswordResetToken)
      → Keeps P
          (PasswordReset.check_code redis p settings ip ua id account password salt user found)
  unfolding PasswordReset.check_code
  check_code-Keeps id account password salt user none = search (table_rules, refuse_code-Keeps)
  check_code-Keeps id account password salt user (some row) =
      search (table_rules, refuse_code-Keeps, complete_reset-Keeps) depth 20

  reset_user-Keeps :
      (id account code password salt : Text) (found : Option User)
      → Keeps P
          (PasswordReset.reset_user redis p settings ip ua id account code password salt found)
  unfolding PasswordReset.reset_user
  reset_user-Keeps id account code password salt none = search (table_rules, refuse_code-Keeps)
  reset_user-Keeps id account code password salt (some user) =
      search (table_rules, check_code-Keeps) depth 20

  pub reset_password-Keeps :
      (email code password salt : Text)
      → Keeps P (PasswordReset.reset_password redis p settings ip ua email code password salt)
  unfolding PasswordReset.reset_password
  reset_password-Keeps email code password salt = search (table_rules, reset_user-Keeps) depth 20
