-- ===== src/Auth/AuthService/Outcomes.antt =====
-- Who a login lets in (services/auth-service/app/services/auth_service.py).
use backend_platform.Prelude.{
  ℕ, ◌≡◌, true, false, not, Option, some, is_some, Option-cases, arith, inl, inr,
}
use backend_platform.Prelude.Text.{Text, lower}
use backend_platform.Redis.{Redis}
use backend_platform.Redis.Keys.{login, login_account}
use backend_platform.Auth.Db.{User}
use backend_platform.Auth.Errors.{ok}
use backend_platform.Auth.Settings.{Settings}
use backend_platform.Auth.Providers.{Providers}
use backend_platform.Auth.World.{World, ◌>>=◌}
use backend_platform.Auth.Passwords.{verify_password}
use backend_platform.Auth.Privacy.{client_identifier}
use backend_platform.Auth.BruteForce.{assert_not_locked}
use backend_platform.Auth.Events.{log_event}
use backend_platform.Auth.Repositories.Users
use backend_platform.Auth.TokenService.{NewSession}
use backend_platform.Auth.AuthService.Steps.{create_login_challenge}
use backend_platform.Auth.AuthService.Login.{
  LoginStepResult, reject_unknown, reject_password, reject_inactive, challenge_user, admit_user,
  accept_password, login_user, log_in,
}

-- The user whose login goes through.
pub record IsAdmitted {S : Type 0} (redis : Redis S) (p : Providers) (settings : Settings)
    (email password : Text) (ip : Option Text) (w : World S) (r : LoginStepResult) : Type 0 where
  pub user : User
  pub known : Users.get_by_email (lower email) w.db ≡ some user
  pub password_right : verify_password p password user.password_hash ≡ true
  pub active : user.is_active ≡ true
  pub not_blocked : user.login_blocked ≡ false
  pub not_locked :
      assert_not_locked redis p.hmac settings login
        (client_identifier (lower email) ip)
        w.now
        w.redis
      ≡ ok tt
  pub account_not_locked :
      assert_not_locked redis p.hmac settings login_account (lower email) w.now w.redis ≡ ok tt
  -- Tokens are handed out where there is no second factor, and only there.
  pub second_factor : r.requires_2fa ≡ user.two_factor_enabled
  pub tokens : is_some r.tokens ≡ not user.two_factor_enabled

module _ {S : Type 0} (redis : Redis S) (p : Providers) (settings : Settings)
    (email password : Text) (ip ua : Option Text) (drawn : NewSession) (challenge : ℕ)
    (w : World S) where
  -- A login that goes through was of a known and active user who is not blocked, with the right
  -- password, while neither the email with the address nor the account was locked; it hands out
  -- tokens exactly where the user has no second factor, and says so.
  pub log_in-IsAdmitted :
      (r : LoginStepResult)
      → (log_in redis p settings email password ip ua drawn challenge w).0 ≡ ok r
      → IsAdmitted redis p settings email password ip w r
  unfolding log_in login_user reject_unknown reject_password reject_inactive accept_password
      challenge_user admit_user ◌>>=◌ log_event create_login_challenge
  log_in-IsAdmitted r h = elim (Option-cases (Users.get_by_email (lower email) w.db)) [
    | inl e ↦ absurd (ground (arith, e, h))
    | inr (user, e) ↦ record {
      user = user;
      known = e;
      password_right = ground (arith, e, h);
      active = ground (arith, e, h);
      not_blocked = ground (arith, e, h);
      not_locked = ground (arith, e, h);
      account_not_locked = ground (arith, e, h);
      second_factor = ground (arith, e, h);
      tokens = ground (arith, e, h);
    }
  ]
