-- ===== src/Tests/Tokens.antt =====
-- Refresh tokens and sessions.
use backend_platform.Prelude.{◌+◌, ◌≡◌, refl, true, false, some, none, arith}
use backend_platform.Prelude.Text.{codes}
use backend_platform.Redis.Memory.{Memory, memory, memory_laws}
use backend_platform.Auth.Errors.{err, is_ok, token_reuse_detected, unauthorized}
use backend_platform.Auth.World.{World, in_session}
use backend_platform.Auth.World
use backend_platform.Auth.RefreshClaims.{refresh_ids}
use backend_platform.Auth.Jwt.{decode_and_validate, issue_refresh_token, issue_access_token}
use backend_platform.Auth.Events.{log_event}
use backend_platform.Auth.Access.{ensure_access_session_active}
use backend_platform.Auth.Repositories.RefreshTokens
use backend_platform.Auth.Repositories.Sessions
use backend_platform.Auth.TokenService.{hash_refresh_token, check_rotation, replace, rotate}
use backend_platform.Auth.TokenService.Checks.{IsMatch}
use backend_platform.Auth.TokenService.SingleUse.{ClaimsAreFixed}
use backend_platform.Auth.AuthService.Steps.{mark_access_session_revoked}
use backend_platform.Auth.AuthService.Refresh.{refresh_tokens}
use backend_platform.Auth.AuthService.Reuse.{IsShut, reuse_shuts_family, ended_session_refused}
use backend_platform.Auth.Requests.{serve, revoking, here, served, later}
use backend_platform.Auth.Requests.SingleUse.{used_token_refused}
use backend_platform.Tests.Doubles.{providers, settings, world, used_world, used_db, used_row, ids}

fixed : ClaimsAreFixed providers settings (codes "r")
fixed = record { same = λ now now' a b ha hb. cc }

accepted :
    is_ok (in_session (refresh_tokens memory providers settings none none (codes "r") 7 8) world).0
    ≡ true
unfolding in_session refresh_tokens rotate check_rotation replace refresh_ids decode_and_validate
    hash_refresh_token issue_refresh_token issue_access_token log_event
    RefreshTokens.get_by_jti_for_update RefreshTokens.create RefreshTokens.mark_rotated
    Sessions.is_family_active Sessions.touch_family World.◌>>=◌
accepted = refl

abbrev refreshed_world : World Memory
refreshed_world =
    (in_session (refresh_tokens memory providers settings none none (codes "r") 7 8) world).1

used_token_refused_example :
    is_ok
      (in_session
        (refresh_tokens memory providers settings (some (codes "x")) none (codes "r") 9 10)
        (record (serve memory providers settings none none
          (revoking (codes "r") true)
          refreshed_world).1 {
            now =
                (serve memory providers settings none none
                  (revoking (codes "r") true)
                  refreshed_world).1.now
                + 60;
          })).0
    ≡ false
used_token_refused_example =
    used_token_refused memory providers settings (codes "r") none none (some (codes "x")) none 7 8 9
      10 world _ fixed accepted (later 60 (served none none (revoking (codes "r") true) here))

matched : IsMatch providers settings (codes "r") 3000 used_db ids used_row
unfolding refresh_ids decode_and_validate hash_refresh_token RefreshTokens.get_by_jti_for_update
    Sessions.is_family_active
matched = record {
  named = refl;
  stored = refl;
  owner = refl;
  family = refl;
  digest = refl;
  active = refl;
  unexpired = omega arith;
}

reuse_shuts_family_example :
    ((in_session (refresh_tokens memory providers settings none none (codes "r") 7 8) used_world).0
      ≡ err (token_reuse_detected 3 4))
    × IsShut memory memory_laws providers settings 4 3 used_world
        (in_session
          (refresh_tokens memory providers settings none none (codes "r") 7 8)
          used_world).1
reuse_shuts_family_example =
    reuse_shuts_family memory memory_laws providers settings none none (codes "r") 7 8 used_world
      ids used_row matched refl

ended_session_refused_example :
    ensure_access_session_active memory providers 3 3500
      (mark_access_session_revoked memory providers settings 3 world).1.redis
    ≡ err unauthorized
ended_session_refused_example =
    ended_session_refused memory memory_laws providers settings 3 2900 3500 world (omega arith)
      (omega arith)
