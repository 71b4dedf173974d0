-- ===== src/Auth/Requests/SingleUse.antt =====
-- Refresh tokens over sequences of requests (services/auth-service/app/services/auth_service.py).
use backend_platform.Prelude.{ℕ, ◌≡◌, refl, ◌∙◌, sym, ap, true, false, Option, arith, inl, inr}
use backend_platform.Prelude.Text.{Text}
use backend_platform.Redis.{Redis}
use backend_platform.Auth.Errors.{
  Error, token_reuse_detected, invalid_token, Result, ok, err, is_ok, Result-cases,
}
use backend_platform.Auth.Settings.{Settings}
use backend_platform.Auth.Providers.{Providers}
use backend_platform.Auth.World.{World, ◌>>=◌, in_session}
use backend_platform.Auth.Events.{log_event}
use backend_platform.Auth.RefreshClaims.{RefreshIds, refresh_ids}
use backend_platform.Auth.TokenService.{TokenPair, rotate}
use backend_platform.Auth.TokenService.Rotation.{rotate_sound}
use backend_platform.Auth.TokenService.SingleUse.{
  ClaimsAreFixed, refresh_ids_fixed, rotate_spends, spent_refused,
}
use backend_platform.Auth.TokenService.Spent.{IsSpent, same_tokens, IsSpent-kept}
use backend_platform.Auth.AuthService.Steps.{mark_access_session_revoked}
use backend_platform.Auth.AuthService.Refresh.{refresh_failed, refresh_tokens}
use backend_platform.Auth.Requests.{Reaches}
use backend_platform.Auth.Requests.Reached.{reached-Holds}

module _ {S : Type 0} (redis : Redis S) (p : Providers) (settings : Settings) (ip ua : Option Text)
    (raw : Text) (new_jti access_jti : ℕ) where
  abbrev pub rotation : World S → Result TokenPair × World S
  rotation = rotate p settings raw ip ua new_jti access_jti

  abbrev pub refreshed : World S → Result TokenPair × World S
  refreshed = refresh_tokens redis p settings ip ua raw new_jti access_jti

  -- The handlers never turn a failure into a success.
  failed_stays :
      (e : Error) (w : World S) → is_ok (refresh_failed redis p settings ip ua e w).0 ≡ false
  unfolding refresh_failed ◌>>=◌ mark_access_session_revoked log_event
  failed_stays (token_reuse_detected s f) w = refl
  failed_stays invalid_token w = refl
  failed_stays _ w = refl

  pub refused_rotation :
      (w : World S) (e : Error) → (rotation w).0 ≡ err e → is_ok (refreshed w).0 ≡ false
  unfolding refresh_tokens ◌>>=◌
  refused_rotation w e h = ground (arith, h, failed_stays e (rotation w).1)

  pub granted_rotation :
      (w : World S) (pair : TokenPair)
      → (rotation w).0 ≡ ok pair
      → (refreshed w).1.committed.refresh_tokens ≡ (rotation w).1.db.refresh_tokens
  unfolding refresh_tokens ◌>>=◌ log_event
  granted_rotation w pair h = ground (arith, h)

  -- A refresh that succeeds leaves its token spent, and committed so.
  refresh_spends :
      (w : World S)
      → is_ok (refreshed w).0 ≡ true
      → (ids : RefreshIds) × (refresh_ids p settings raw w.now ≡ ok ids)
        × IsSpent ids.token_jti (refreshed w).1.committed
  refresh_spends w h = elim (Result-cases (rotation w).0) [
    | inr (e, failed) ↦ cc (refused_rotation w e failed)
    | inl (pair, granted) ↦
        let (ids, named, spent) =
          rotate_spends p settings raw ip ua new_jti access_jti w pair granted in
        (ids, named, same_tokens ids.token_jti _ _ (granted_rotation w pair granted) spent)
  ]

  -- A token whose row is spent is refused.
  refresh_refused :
      (w : World S) (ids : RefreshIds)
      → ((ids' : RefreshIds) → refresh_ids p settings raw w.now ≡ ok ids' → ids ≡ ids')
      → IsSpent ids.token_jti w.db
      → is_ok (refreshed w).0 ≡ false
  refresh_refused w ids same spent = elim (Result-cases (rotation w).0) [
    | inr (e, failed) ↦ refused_rotation w e failed
    | inl (pair, granted) ↦
        let (ids', t, m, _, _) =
          rotate_sound p settings raw ip ua new_jti access_jti w pair granted in
        let named : refresh_ids p settings raw w.now ≡ ok ids =
          m.named ∙ ap ok (sym (same ids' m.named)) in
        refused_rotation w invalid_token (
          absurd (
            ground (
              arith,
              granted,
              spent_refused p settings raw ip ua new_jti access_jti w ids named spent,
            )))
  ]

-- A refresh token that was accepted is refused ever after: whatever requests are served and however
-- much time passes, presenting it again, from any address, yields no tokens, as long as what its
-- verification returns does not depend on when it succeeds.
pub used_token_refused :
    {S : Type 0} (redis : Redis S) (p : Providers) (settings : Settings) (raw : Text)
    (ip ua ip' ua' : Option Text) (new_jti access_jti new_jti' access_jti' : ℕ) (w v : World S)
    → ClaimsAreFixed p settings raw
    → is_ok (in_session (refresh_tokens redis p settings ip ua raw new_jti access_jti) w).0 ≡ true
    → Reaches redis p settings
        (in_session (refresh_tokens redis p settings ip ua raw new_jti access_jti) w).1
        v
    → is_ok (in_session (refresh_tokens redis p settings ip' ua' raw new_jti' access_jti') v).0
      ≡ false
unfolding in_session
used_token_refused redis p settings raw ip ua ip' ua' new_jti access_jti new_jti' access_jti' w v
      fixed accepted reached =
    let (ids, named, spent) =
      refresh_spends redis p settings ip ua raw new_jti access_jti (record w { db = w.committed })
        accepted in
    let k =
      reached-Holds redis (IsSpent-kept p settings ids.token_jti) v reached
        (record { here = spent; there = spent }) in
    refresh_refused redis p settings ip' ua' raw new_jti' access_jti'
      (record v { db = v.committed }) ids
      (λ ids' named'. refresh_ids_fixed p settings raw fixed w.now v.now ids ids' named named')
      k.there
