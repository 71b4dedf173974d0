-- ===== src/Auth/TokenService/SingleUse.antt =====
-- Rotations of one token, one after the other (services/auth-service/app/services/refresh_token_service.py).
use backend_platform.Prelude.{
  ℕ, ◌≡◌, refl, true, false, ◌||◌, Option, some, arith, is_some, find, update, ==_refl,
  Option-cases, find-append, find-update, inl, inr,
}
use backend_platform.Prelude.Text.{Text}
use backend_platform.Auth.Db.{Db, RefreshToken}
use backend_platform.Auth.Errors.{ok, is_ok, Result-cases}
use backend_platform.Auth.Settings.{Settings}
use backend_platform.Auth.Providers.{Providers, Payload}
use backend_platform.Auth.Jwt.{decode_and_validate}
use backend_platform.Auth.World.{World}
use backend_platform.Auth.RefreshClaims.{RefreshIds, refresh_ids}
use backend_platform.Auth.Repositories.RefreshTokens
use backend_platform.Auth.Repositories.RefreshTokens.{has_jti, rotated}
use backend_platform.Auth.TokenService.{TokenPair, rotate}
use backend_platform.Auth.TokenService.Rotation.{rotated_rows, rotate_sound, rotate_fresh}
use backend_platform.Auth.TokenService.Spent.{IsSpent}

-- What the verification of a token returns does not depend on when it succeeds.
pub record ClaimsAreFixed (p : Providers) (settings : Settings) (raw : Text) : Type 0 where
  pub same :
      (now now' : ℕ) (a b : Payload)
      → p.jwt_decode settings now raw ≡ some a
      → p.jwt_decode settings now' raw ≡ some b
      → a ≡ b

module _ (p : Providers) (settings : Settings) (raw : Text)
    (fixed : ClaimsAreFixed p settings raw) where
  pub refresh_ids_fixed :
      (now now' : ℕ) (a b : RefreshIds)
      → refresh_ids p settings raw now ≡ ok a
      → refresh_ids p settings raw now' ≡ ok b
      → a ≡ b
  unfolding refresh_ids decode_and_validate
  refresh_ids_fixed now now' a b ha hb = elim (Option-cases (p.jwt_decode settings now raw)) [
    | inl nothing ↦ cc
    | inr (x, ex) ↦ elim (Option-cases (p.jwt_decode settings now' raw)) [
      | inl nothing ↦ cc
      | inr (y, ey) ↦ ground (arith, fixed.same now now' x y)
    ]
  ]

-- One token names one row, which cannot be both spent and fresh.
same_row :
    (p : Providers) (settings : Settings) (raw : Text) (ids ids' : RefreshIds) (now : ℕ) (db : Db)
    (t t' : RefreshToken)
    → refresh_ids p settings raw now ≡ ok ids
    → refresh_ids p settings raw now ≡ ok ids'
    → RefreshTokens.get_by_jti_for_update ids.token_jti db ≡ some t
    → RefreshTokens.get_by_jti_for_update ids'.token_jti db ≡ some t'
    → is_some t.revoked_at ≡ true
    → (is_some t'.revoked_at || is_some t'.rotated_at) ≡ false
    → ⊥
same_row p settings raw ids ids' now db t t' a b c d e f = ground arith

module _ {S : Type 0} (p : Providers) (settings : Settings) (raw : Text) (ip ua : Option Text)
    (new_jti access_jti : ℕ) where
  -- A rotation that succeeds leaves its token spent.
  pub rotate_spends :
      (w : World S) (pair : TokenPair)
      → (rotate p settings raw ip ua new_jti access_jti w).0 ≡ ok pair
      → (ids : RefreshIds) × (refresh_ids p settings raw w.now ≡ ok ids)
        × IsSpent ids.token_jti (rotate p settings raw ip ua new_jti access_jti w).1.db
  unfolding RefreshTokens.get_by_jti_for_update
  rotate_spends w pair h =
      let (ids, t, m, fresh, free) =
        rotate_sound p settings raw ip ua new_jti access_jti w pair h in
      let rows = rotated_rows p settings raw ip ua new_jti access_jti ids t w in
      let moved : find (has_jti ids.token_jti) rows ≡ some (rotated w.now new_jti t) =
        find-append (has_jti ids.token_jti)
          (update (has_jti t.jti) (rotated w.now new_jti) w.db.refresh_tokens) _
          (rotated w.now new_jti t)
          (rw (==_refl t.jti) at (
            find-update (has_jti ids.token_jti) (has_jti t.jti) (rotated w.now new_jti) (λ r. refl)
              w.db.refresh_tokens t m.stored)) in
      (
        ids,
        m.named,
        rw (rotate_fresh p settings raw ip ua new_jti access_jti w ids t m fresh free)
            (record { token = rotated w.now new_jti t; stored = moved; dead = refl }),
      )

  -- A token whose row is spent is refused.
  pub spent_refused :
      (w : World S) (ids : RefreshIds)
      → refresh_ids p settings raw w.now ≡ ok ids
      → IsSpent ids.token_jti w.db
      → is_ok (rotate p settings raw ip ua new_jti access_jti w).0 ≡ false
  spent_refused w ids named spent =
      elim (Result-cases (rotate p settings raw ip ua new_jti access_jti w).0) [
        | inr (e, refused) ↦ rw refused
        | inl (pair, granted) ↦
            let (ids', t, m, fresh, free) =
              rotate_sound p settings raw ip ua new_jti access_jti w pair granted in
            absurd (
              same_row p settings raw ids ids' w.now w.db spent.token t named m.named spent.stored
                m.stored spent.dead fresh)
      ]
