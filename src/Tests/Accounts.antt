-- ===== src/Tests/Accounts.antt =====
-- Logins, codes and resets.
use backend_platform.Prelude.{suc, ◌<◌, ◌≡◌, refl, true, some, none, [], ◌∷◌, count}
use backend_platform.Prelude.Text.{codes}
use backend_platform.Redis.Memory.{Memory, memory, memory_laws}
use backend_platform.Auth.Errors.{ok, err, integrity_error}
use backend_platform.Auth.World.{World}
use backend_platform.Auth.World
use backend_platform.Auth.Events.{log_event}
use backend_platform.Auth.Passwords.{verify_password, hash_password, validate_password_policy}
use backend_platform.Auth.Totp.{verify_totp_code}
use backend_platform.Auth.BruteForce.{assert_not_locked}
use backend_platform.Auth.Repositories.Users
use backend_platform.Auth.Repositories.TwoFactor
use backend_platform.Auth.Repositories.ResetTokens
use backend_platform.Auth.Repositories.RefreshTokens
use backend_platform.Auth.Repositories.Sessions
use backend_platform.Auth.TwoFactorService.{use_code, verify_totp, verify_backup_code}
use backend_platform.Auth.TwoFactorService.Accepted.{
  IsAccepted, unused_code, accepted_once, verify_totp-IsAccepted, periods_increase,
}
use backend_platform.Auth.AuthService.Steps.{create_login_challenge, mark_access_session_revoked}
use backend_platform.Auth.AuthService.Login.{
  LoginStepResult, log_in, accept_password, challenge_user,
}
use backend_platform.Auth.AuthService.Outcomes.{IsAdmitted, log_in-IsAdmitted}
use backend_platform.Auth.TokenService.{NewSession}
use backend_platform.Auth.PasswordReset.{
  delivered, generate_code, hash_token, request_reset, reset_password, reset_user, check_code,
  complete_reset, replace_password, conclude_reset, mark_access_sessions_revoked,
}
use backend_platform.Auth.PasswordReset.Mailing.{drawn_code_refused}
use backend_platform.Auth.PasswordReset.Completed.{IsReset, reset_password-IsReset}
use backend_platform.Tests.Doubles.{providers, settings, world, alice}

abbrev drawn : NewSession
drawn = record { family_id = 11; session_id = 12; refresh_jti = 13; access_jti = 14 }

abbrev challenged : LoginStepResult
challenged = record { requires_2fa = true; challenge_id = some (9 ∷ []); tokens = none }

log_in_run :
    (log_in memory providers settings (codes "A@b") (codes "pw") none none drawn 9 world).0
    ≡ ok challenged
unfolding log_in accept_password challenge_user create_login_challenge assert_not_locked
    verify_password World.◌>>=◌ Users.get_by_email
log_in_run = refl

log_in-IsAdmitted_example :
    IsAdmitted memory providers settings (codes "A@b") (codes "pw") none world challenged
log_in-IsAdmitted_example =
    log_in-IsAdmitted memory providers settings (codes "A@b") (codes "pw") none none drawn 9 world
      challenged log_in_run

totp_run : (verify_totp providers settings alice (codes "123456") world).0 ≡ ok tt
unfolding verify_totp verify_totp_code World.◌>>=◌ TwoFactor.get_secret
    TwoFactor.update_last_used_timecode
totp_run = refl

abbrev after_totp : World Memory
after_totp = (verify_totp providers settings alice (codes "123456") world).1

verify_totp-IsAccepted_example : IsAccepted providers settings 1 (codes "123456") world after_totp
verify_totp-IsAccepted_example =
    verify_totp-IsAccepted providers settings alice (codes "123456") world totp_run

abbrev next_world : World Memory
next_world = record after_totp { now = 3300 }

next_run : (verify_totp providers settings alice (codes "123456") next_world).0 ≡ ok tt
unfolding verify_totp verify_totp_code World.◌>>=◌ TwoFactor.get_secret
    TwoFactor.update_last_used_timecode
next_run = refl

periods_increase_example :
    (a : IsAccepted providers settings 1 (codes "123456") world after_totp) × (b : IsAccepted
      providers settings 1
      (codes "123456")
      next_world
      (verify_totp providers settings alice (codes "123456") next_world).1)
    × (a.timecode < b.timecode)
periods_increase_example =
    periods_increase providers settings alice (codes "123456") (codes "123456") world next_world
      totp_run next_run refl

backup_run : (verify_backup_code providers settings alice (codes "AAAA-BBBB") world).0 ≡ ok tt
unfolding verify_backup_code use_code World.◌>>=◌
backup_run = refl

accepted_once_example :
    count (unused_code 1) world.db.backup_codes
    ≡ suc (
        count
          (unused_code 1)
          (verify_backup_code providers settings alice (codes "AAAA-BBBB") world).1.db.backup_codes)
accepted_once_example = accepted_once providers settings alice (codes "AAAA-BBBB") world backup_run

drawn_code_refused_example :
    (request_reset memory providers settings none none (codes "a@b") 7 delivered world).0
    ≡ err integrity_error
unfolding Users.get_by_email generate_code hash_token
drawn_code_refused_example =
    drawn_code_refused memory providers settings none none (codes "a@b") 7 world alice delivered
      refl refl refl refl

reset_run :
    (reset_password memory providers settings none none
      (codes "a@b")
      (codes "000007")
      (codes "abcdefg1")
      (codes "z")
      world).0
    ≡ ok tt
unfolding reset_password reset_user check_code complete_reset replace_password conclude_reset
    mark_access_sessions_revoked mark_access_session_revoked hash_password validate_password_policy
    hash_token assert_not_locked log_event World.◌>>=◌ Users.get_by_email Users.update_password
    Users.save ResetTokens.get_active_for_user_by_hash ResetTokens.mark_used
    RefreshTokens.revoke_all_for_user Sessions.revoke_user_sessions
    Sessions.list_active_session_ids_for_user
reset_run = refl

reset_password-IsReset_example :
    IsReset memory memory_laws providers settings none none
      (codes "a@b")
      (codes "000007")
      world
      (reset_password memory providers settings none none
        (codes "a@b")
        (codes "000007")
        (codes "abcdefg1")
        (codes "z")
        world).1
reset_password-IsReset_example =
    reset_password-IsReset memory memory_laws providers settings none none (codes "a@b")
      (codes "000007") (codes "abcdefg1") (codes "z") world reset_run
