-- ===== src/Tests/Families.antt =====
-- Refresh tokens from one request to the next.
use backend_platform.Prelude.{
  ℕ, ◌+◌, ◌≤◌, ◌≡◌, refl, true, false, ◌&&◌, Option, some, none, [], ◌∷◌, ◌++◌, arith, leb, ltb,
  any, length, All, if◌then◌else◌,
}
use backend_platform.Prelude.Text.{Text, codes}
use backend_platform.Redis.Memory.{Memory, memory}
use backend_platform.Auth.Db.{Db, empty_db}
use backend_platform.Auth.Errors.{Result, ok, is_ok}
use backend_platform.Auth.Settings.{Settings}
use backend_platform.Auth.Providers.{Providers, Claim, string, Payload}
use backend_platform.Auth.Jwt.{
  refresh_payload, issue_refresh_token, issue_access_token, decode_and_validate,
}
use backend_platform.Auth.World.{World, in_session}
use backend_platform.Auth.World
use backend_platform.Auth.Events.{log_event}
use backend_platform.Auth.RefreshClaims.{RefreshIds, refresh_ids}
use backend_platform.Auth.Repositories.RefreshTokens
use backend_platform.Auth.Repositories.RefreshTokens.{has_jti}
use backend_platform.Auth.Repositories.Sessions
use backend_platform.Auth.TokenService.{
  NewSession, TokenPair, hash_refresh_token, check_rotation, replace, rotate,
}
use backend_platform.Auth.TokenService.Issued.{ReadsBack, refresh_ids-issue_refresh_token}
use backend_platform.Auth.TokenService.OneLive.{live, opened}
use backend_platform.Auth.TokenService.Refines.{Moves, view, rotate-Moves}
use backend_platform.Auth.AuthService.Refresh.{refresh_tokens}
use backend_platform.Auth.PasswordReset.{generate_code}
use backend_platform.Auth.PasswordReset.Codes.{IsDigit, read_number, generate_code-digits}
use backend_platform.Auth.Requests.{serve, logging_in, refreshing, here, served, later}
use backend_platform.Auth.Requests.Families.{one_live_token}
use backend_platform.Auth.Requests.Alive.{refreshed_token_accepted}
use backend_platform.Tests.Doubles.{providers, settings, world, alice, token_row, session_row}

abbrev claim_text : Claim → Text
claim_text (string t) = t
claim_text _ = []

-- A token that holds its claims in the clear.
abbrev written : Settings → Payload → Text
written _ x =
    claim_text x.sub
    ++ claim_text x.jti
    ++ claim_text x.sid
    ++ claim_text x.family_id
    ++ (x.iat ∷ [])

abbrev read_back : Settings → ℕ → Text → Option Payload
read_back given now (sub ∷ jti ∷ sid ∷ family ∷ issued ∷ []) =
    if leb issued now && ltb now (issued + given.jwt_refresh_ttl_seconds)
    then some (refresh_payload providers given sub sid family jti issued)
    else none
read_back _ _ _ = none

abbrev pub signing : Providers
signing = record providers { jwt_encode = written; jwt_decode = read_back }

pub reads : ReadsBack signing settings
reads = record {
  tokens = λ user session family jti issued now after before. ground (arith, after, before);
  uuids = λ n. refl;
}

abbrev first_token : Text
first_token = (issue_refresh_token signing settings 1 3 4 2 0).0

refresh_ids-issue_refresh_token_example :
    refresh_ids signing settings first_token 5
    ≡ ok (record { token_jti = 2; family_id = 4; session_id = 3; user_id = 1 })
refresh_ids-issue_refresh_token_example =
    refresh_ids-issue_refresh_token signing settings reads 1 3 4 2 0 5 (omega arith) (omega arith)

abbrev signed_in : Db
signed_in = record empty_db {
  users = alice ∷ [];
  refresh_tokens = record token_row { token_hash = first_token } ∷ [];
  sessions = session_row ∷ [];
}

abbrev start : World Memory
start = record world { db = signed_in; committed = signed_in; now = 10 }

abbrev refreshing_run : Result TokenPair × World Memory
refreshing_run = in_session (refresh_tokens memory signing settings none none first_token 7 8) start

abbrev second_pair : TokenPair
second_pair = record {
  access_token = (issue_access_token signing settings 1 3 8 10).0;
  refresh_token = (issue_refresh_token signing settings 1 3 4 7 10).0;
  access_expires_in = 900;
  refresh_family_id = 4;
  session_id = 3;
}

refreshing_run_ok : refreshing_run.0 ≡ ok second_pair
unfolding in_session refresh_tokens rotate check_rotation replace refresh_ids decode_and_validate
    hash_refresh_token issue_refresh_token issue_access_token log_event
    RefreshTokens.get_by_jti_for_update RefreshTokens.create RefreshTokens.mark_rotated
    Sessions.is_family_active Sessions.touch_family World.◌>>=◌
refreshing_run_ok = refl

name_is_free : any (has_jti 9) refreshing_run.1.committed.refresh_tokens ≡ false
unfolding in_session refresh_tokens rotate check_rotation replace refresh_ids decode_and_validate
    hash_refresh_token issue_refresh_token issue_access_token log_event
    RefreshTokens.get_by_jti_for_update RefreshTokens.create RefreshTokens.mark_rotated
    Sessions.is_family_active Sessions.touch_family World.◌>>=◌
name_is_free = refl

refreshed_token_accepted_example :
    is_ok
      (in_session
        (refresh_tokens memory signing settings
          (some (codes "x"))
          none
          second_pair.refresh_token
          9
          11)
        (record refreshing_run.1 { now = 9000 })).0
    ≡ true
refreshed_token_accepted_example =
    refreshed_token_accepted memory signing settings first_token none none (some (codes "x")) none 7
      8 9 11 9000 start second_pair reads refreshing_run_ok (omega arith) (omega arith) name_is_free

abbrev pub drawn : NewSession
drawn = record { family_id = 11; session_id = 12; refresh_jti = 13; access_jti = 14 }

abbrev pub newcomers : World Memory
newcomers =
    let db = record empty_db { users = record alice { two_factor_enabled = false } ∷ [] } in
    record world { db = db; committed = db }

-- A login, and a refresh a minute later.
abbrev logged_in : World Memory
logged_in =
    (serve memory providers settings none none (logging_in (codes "A@b") (codes "pw") drawn 9)
      newcomers).1

abbrev later_on : World Memory
later_on =
    (serve memory providers settings none none (refreshing (codes "r") 21 22)
      (record logged_in { now = logged_in.now + 60 })).1

one_live_token_example : live 11 later_on.committed ≤ opened 11 later_on.committed
one_live_token_example = one_live_token memory providers settings newcomers later_on 11 refl refl (
    served none none (refreshing (codes "r") 21 22)
      (later 60 (served none none (logging_in (codes "A@b") (codes "pw") drawn 9) here)))

generate_code-digits_example :
    (length (generate_code 42) ≡ 6)
    × All IsDigit (generate_code 42)
    × (read_number 0 (generate_code 42) ≡ 42)
generate_code-digits_example = generate_code-digits 42 (omega arith)

abbrev first_ids : RefreshIds
first_ids = record { token_jti = 2; family_id = 4; session_id = 3; user_id = 1 }

abbrev rotation : Result TokenPair × World Memory
rotation = rotate signing settings first_token none none 7 8 start

rotate-Moves_example : Moves 4 (view 4 start.db) rotation.0 (view 4 rotation.1.db)
rotate-Moves_example = rotate-Moves signing settings first_token none none 7 8 start first_ids (
    refresh_ids-issue_refresh_token signing settings reads 1 3 4 2 0 10 (omega arith) (omega arith))
