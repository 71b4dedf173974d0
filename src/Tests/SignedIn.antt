-- ===== src/Tests/SignedIn.antt =====
-- A login and the refresh after it, a mailed code and the reset after it.
use backend_platform.Prelude.{◌≡◌, refl, true, false, some, none, arith, any}
use backend_platform.Prelude.Text.{codes, lower}
use backend_platform.Redis.Memory.{Memory, memory, memory_laws}
use backend_platform.Auth.Db.{User}
use backend_platform.Auth.Errors.{Result, ok, is_ok}
use backend_platform.Auth.World.{World, in_session}
use backend_platform.Auth.World
use backend_platform.Auth.Events.{log_event}
use backend_platform.Auth.Jwt.{issue_refresh_token, issue_access_token}
use backend_platform.Auth.Passwords.{verify_password, validate_password_policy}
use backend_platform.Auth.BruteForce.{assert_not_locked}
use backend_platform.Auth.Privacy.{client_identifier}
use backend_platform.Redis.Keys.{password_reset, password_reset_account}
use backend_platform.Auth.Repositories.Users
use backend_platform.Auth.Repositories.ResetTokens
use backend_platform.Auth.Repositories.RefreshTokens
use backend_platform.Auth.Repositories.RefreshTokens.{has_jti}
use backend_platform.Auth.Repositories.Sessions
use backend_platform.Auth.TokenService.{TokenPair, hash_refresh_token, issue_for_user}
use backend_platform.Auth.AuthService.Login.{
  LoginStepResult, log_in, login_user, accept_password, admit_user,
}
use backend_platform.Auth.AuthService.Refresh.{refresh_tokens}
use backend_platform.Auth.PasswordReset.{
  PasswordResetRequestResult, delivered, generate_code, hash_token, request_reset, issue_code,
  deliver, reset_password,
}
use backend_platform.Auth.PasswordReset.Alive.{mailed_code_accepted}
use backend_platform.Auth.PasswordReset.Completed.{renewed}
use backend_platform.Auth.Requests.SignedIn.{
  IsAdmissible, signed_in, admissible_signed_in, login_token_accepted,
}
use backend_platform.Tests.Doubles.{providers, settings, world, alice}
use backend_platform.Tests.Families.{signing, reads, drawn, newcomers}

abbrev newcomer : User
newcomer = record alice { two_factor_enabled = false }

abbrev logged_in : Result LoginStepResult × World Memory
logged_in =
    in_session (log_in memory signing settings (codes "A@b") (codes "pw") none none drawn 9)
      newcomers

abbrev handed_out : TokenPair
handed_out = record {
  access_token = (issue_access_token signing settings 1 12 14 3000).0;
  refresh_token = (issue_refresh_token signing settings 1 12 11 13 3000).0;
  access_expires_in = 900;
  refresh_family_id = 11;
  session_id = 12;
}

abbrev let_in : LoginStepResult
let_in = record { requires_2fa = false; challenge_id = none; tokens = some handed_out }

logged_in_ok : logged_in.0 ≡ ok let_in
unfolding log_in login_user accept_password admit_user verify_password assert_not_locked
    issue_for_user in_session hash_refresh_token issue_refresh_token issue_access_token log_event
    RefreshTokens.create Sessions.create World.◌>>=◌ Users.get_by_email
logged_in_ok = refl

successor_is_free : any (has_jti 15) logged_in.1.committed.refresh_tokens ≡ false
unfolding log_in login_user accept_password admit_user verify_password assert_not_locked
    issue_for_user in_session hash_refresh_token issue_refresh_token issue_access_token log_event
    RefreshTokens.create Sessions.create World.◌>>=◌ Users.get_by_email
successor_is_free = refl

login_token_accepted_example :
    is_ok
      (in_session
        (refresh_tokens memory signing settings
          (some (codes "x"))
          none
          handed_out.refresh_token
          15
          16)
        (record logged_in.1 { now = 9000 })).0
    ≡ true
login_token_accepted_example =
    login_token_accepted memory signing settings (codes "A@b") (codes "pw") none none
      (some (codes "x")) none drawn 9 15 16 9000 newcomers let_in handed_out reads logged_in_ok refl
      (omega arith) (omega arith) successor_is_free

admissible :
    IsAdmissible memory signing settings (codes "A@b") (codes "pw") none drawn newcomers newcomer
unfolding Users.get_by_email verify_password assert_not_locked
admissible = record {
  known = refl;
  password_right = refl;
  active = refl;
  not_blocked = refl;
  not_locked = refl;
  account_not_locked = refl;
  single_factor = refl;
  session_free = refl;
  name_free = refl;
}

admissible_signed_in_example :
    logged_in.0
    ≡ ok (signed_in memory signing settings (codes "A@b") (codes "pw") none none drawn 9 1 3000)
admissible_signed_in_example =
    admissible_signed_in memory signing settings (codes "A@b") (codes "pw") none none drawn 9
      newcomers newcomer admissible

abbrev mailed : Result PasswordResetRequestResult × World Memory
mailed =
    in_session (request_reset memory providers settings none none (codes "a@b") 8 delivered) world

abbrev answer : PasswordResetRequestResult
answer = record { email_sent = true }

mailed_ok : mailed.0 ≡ ok answer
unfolding in_session request_reset issue_code deliver generate_code hash_token assert_not_locked
    log_event World.◌>>=◌ Users.get_by_email ResetTokens.mark_active_for_user_used
    ResetTokens.create
mailed_ok = refl

abbrev reset_later : World Memory
reset_later = record mailed.1 { now = 3600 }

abbrev reset_run : Result (Unit {0}) × World Memory
reset_run =
    in_session
      (reset_password memory providers settings (some (codes "x")) none (codes "a@b")
        (generate_code 8) (codes "abcdefg1") (codes "z"))
      reset_later

not_locked :
    (assert_not_locked memory providers.hmac settings password_reset
        (client_identifier (lower (codes "a@b")) (some (codes "x")))
        3600
        mailed.1.redis
      ≡ ok tt)
    × (assert_not_locked memory providers.hmac settings password_reset_account
          (lower (codes "a@b"))
          3600
          mailed.1.redis
        ≡ ok tt)
unfolding in_session request_reset issue_code deliver generate_code hash_token assert_not_locked
    log_event World.◌>>=◌ Users.get_by_email ResetTokens.mark_active_for_user_used
    ResetTokens.create
not_locked = (refl, refl)

policy_fits : validate_password_policy (codes "abcdefg1") ≡ ok tt
unfolding validate_password_policy
policy_fits = refl

mailed_code_accepted_example :
    (reset_run.0 ≡ ok tt)
    × (user : User) × (Users.get_by_email (lower (codes "a@b")) world.committed ≡ some user)
    × (Users.get_by_email (lower (codes "a@b")) reset_run.1.committed
        ≡ some (renewed (providers.argon2_hash (codes "z") (codes "abcdefg1")) user))
mailed_code_accepted_example =
    mailed_code_accepted memory memory_laws providers settings (codes "a@b") (codes "abcdefg1")
      (codes "z") none none (some (codes "x")) none 8 3600 world answer mailed_ok refl (omega arith)
      policy_fits not_locked.0 not_locked.1
