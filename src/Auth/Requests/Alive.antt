-- ===== src/Auth/Requests/Alive.antt =====
-- A client that presents the newest refresh token stays signed in
-- (services/auth-service/app/services/auth_service.py).
use backend_platform.Prelude.{
  ℕ, ◌+◌, ◌≤◌, ◌<◌, ◌≡◌, refl, ◌∙◌, sym, true, false, Option, arith, inl, inr, any,
}
use backend_platform.Prelude.Text.{Text}
use backend_platform.Redis.{Redis}
use backend_platform.Auth.Errors.{Result, ok, is_ok, Result-cases}
use backend_platform.Auth.Settings.{Settings}
use backend_platform.Auth.Providers.{Providers}
use backend_platform.Auth.World.{World, ◌>>=◌, in_session}
use backend_platform.Auth.Events.{log_event}
use backend_platform.Auth.Repositories.RefreshTokens.{has_jti}
use backend_platform.Auth.TokenService.{TokenPair}
use backend_platform.Auth.TokenService.Issued.{ReadsBack, rotated_rotates}
use backend_platform.Auth.AuthService.Refresh.{refresh_tokens}
use backend_platform.Auth.Requests.SingleUse.{rotation, refreshed, refused_rotation}

module _ {S : Type 0} (redis : Redis S) (p : Providers) (settings : Settings) (ip ua : Option Text)
    (raw : Text) (new_jti access_jti : ℕ) where
  abbrev run : World S → Result TokenPair × World S
  run = refreshed redis p settings ip ua raw new_jti access_jti

  abbrev turn : World S → Result TokenPair × World S
  turn = rotation redis p settings ip ua raw new_jti access_jti

  -- A refresh is its rotation, logged and committed.
  granted_refresh :
      (w : World S) (pair : TokenPair)
      → (turn w).0 ≡ ok pair
      → ((run w).0 ≡ ok pair)
        × ((run w).1.committed.refresh_tokens ≡ (turn w).1.db.refresh_tokens)
        × ((run w).1.committed.sessions ≡ (turn w).1.db.sessions)
  unfolding refresh_tokens ◌>>=◌ log_event
  granted_refresh w pair h = (ground (arith, h), ground (arith, h), ground (arith, h))

  -- A refresh that returns tokens rotated.
  refresh_rotated : (w : World S) (pair : TokenPair) → (run w).0 ≡ ok pair → (turn w).0 ≡ ok pair
  refresh_rotated w pair h = elim (Result-cases (turn w).0) [
    | inr (e, failed) ↦ absurd (
        ground
          (arith, h, refused_rotation redis p settings ip ua raw new_jti access_jti w e failed))
    | inl (other, granted) ↦ granted ∙ sym (granted_refresh w other granted).0 ∙ h
  ]

  pub granted_ok : (w : World S) → is_ok (turn w).0 ≡ true → is_ok (run w).0 ≡ true
  granted_ok w h = elim (Result-cases (turn w).0) [
    | inr (e, failed) ↦ absurd (ground (arith, h, failed))
    | inl (pair, granted) ↦ rw (granted_refresh w pair granted).0 refl
  ]

-- The token that a refresh returned is refreshed in turn by the next request, from any address, up to
-- the end of its lifetime, where the name that is drawn for its successor is free: a client that
-- presents the newest token stays signed in.
pub refreshed_token_accepted :
    {S : Type 0} (redis : Redis S) (p : Providers) (settings : Settings) (raw : Text)
    (ip ua ip' ua' : Option Text) (new_jti access_jti new_jti' access_jti' now : ℕ) (w : World S)
    (pair : TokenPair)
    → ReadsBack p settings
    → (in_session (refresh_tokens redis p settings ip ua raw new_jti access_jti) w).0 ≡ ok pair
    → w.now ≤ now
    → now < w.now + settings.jwt_refresh_ttl_seconds
    → any
        (has_jti new_jti')
        (in_session
          (refresh_tokens redis p settings ip ua raw new_jti access_jti)
          w).1.committed.refresh_tokens
      ≡ false
    → is_ok
        (in_session
          (refresh_tokens redis p settings ip' ua' pair.refresh_token new_jti' access_jti')
          (record (in_session (refresh_tokens redis p settings ip ua raw new_jti access_jti) w).1 {
            now = now;
          })).0
      ≡ true
unfolding in_session
refreshed_token_accepted redis p settings raw ip ua ip' ua' new_jti access_jti new_jti' access_jti'
      now w pair reads accepted after before free =
    let u = record w { db = w.committed } in
    let granted = refresh_rotated redis p settings ip ua raw new_jti access_jti u pair accepted in
    let (_, rows, sessions) =
      granted_refresh redis p settings ip ua raw new_jti access_jti u pair granted in
    granted_ok redis p settings ip' ua' pair.refresh_token new_jti' access_jti' _ (
      rotated_rotates p settings reads raw ip ua new_jti access_jti u _ pair ip' ua' new_jti'
        access_jti' granted rows sessions after before free)
