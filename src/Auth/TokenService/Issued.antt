-- ===== src/Auth/TokenService/Issued.antt =====
-- Refresh tokens that were handed out can be presented in time
-- (services/auth-service/app/services/refresh_token_service.py, jwt_service.py).
use backend_platform.Prelude.{
  ℕ, ◌+◌, ◌≤◌, ◌<◌, ◌≡◌, refl, ◌∙◌, sym, ap, true, false, Option, some, arith, ==_refl, update, any,
  any-update, count-update_same, find-append_last,
}
use backend_platform.Prelude.Text.{Text}
use backend_platform.Auth.Db.{Db, RefreshToken}
use backend_platform.Auth.Errors.{ok, is_ok, ok_injective}
use backend_platform.Auth.Settings.{Settings}
use backend_platform.Auth.Providers.{Providers}
use backend_platform.Auth.Jwt.{refresh_payload, issue_refresh_token, decode_and_validate}
use backend_platform.Auth.World.{World}
use backend_platform.Auth.RefreshClaims.{RefreshIds, refresh_ids}
use backend_platform.Auth.Repositories.RefreshTokens
use backend_platform.Auth.Repositories.RefreshTokens.{has_jti, rotated}
use backend_platform.Auth.Repositories.Sessions
use backend_platform.Auth.Repositories.Sessions.{is_active_of_family, touched}
use backend_platform.Auth.TokenService.Checks.{IsMatch}
use backend_platform.Auth.TokenService.Rotation.{
  successor, rotated_rows, new_pair, rotate_sound, rotate_fresh,
}
use backend_platform.Auth.TokenService.{TokenPair, rotate}

-- What the service relies on in PyJWT and `uuid`: a token that it signed is read back while it is
-- valid, and the text of a UUID is parsed to the UUID.
pub record ReadsBack (p : Providers) (settings : Settings) : Type 0 where
  pub tokens :
      (user session family jti issued now : ℕ)
      → issued ≤ now
      → now < issued + settings.jwt_refresh_ttl_seconds
      → p.jwt_decode settings now
          (p.jwt_encode settings (refresh_payload p settings user session family jti issued))
        ≡ some (refresh_payload p settings user session family jti issued)
  pub uuids : (n : ℕ) → p.parse_uuid (p.uuid_text n) ≡ some n

module _ (p : Providers) (settings : Settings) (reads : ReadsBack p settings) where
  -- What a token says is what it was issued for.
  pub refresh_ids-issue_refresh_token :
      (user session family jti issued now : ℕ)
      → issued ≤ now
      → now < issued + settings.jwt_refresh_ttl_seconds
      → refresh_ids p settings (issue_refresh_token p settings user session family jti issued).0 now
        ≡ ok (record { token_jti = jti; family_id = family; session_id = session; user_id = user })
  unfolding refresh_ids decode_and_validate issue_refresh_token
  refresh_ids-issue_refresh_token user session family jti issued now after before = ground (
    arith,
    reads.tokens user session family jti issued now after before,
    reads.uuids user,
    reads.uuids session,
    reads.uuids family,
    reads.uuids jti,
  )

  module _ (raw : Text) (ip ua : Option Text) (new_jti access_jti : ℕ) where
    -- The token that a rotation handed out passes the checks while it lasts.
    successor-IsMatch :
        {S : Type 0} (w : World S) (now : ℕ) (db : Db) (ids : RefreshIds) (t : RefreshToken)
        → IsMatch p settings raw w.now w.db ids t
        → any (has_jti new_jti) (update (has_jti t.jti) (rotated w.now new_jti) w.db.refresh_tokens)
          ≡ false
        → db.refresh_tokens ≡ rotated_rows p settings raw ip ua new_jti access_jti ids t w
        → db.sessions ≡ update (is_active_of_family ids.family_id) (touched w.now) w.db.sessions
        → w.now ≤ now
        → now < w.now + settings.jwt_refresh_ttl_seconds
        → IsMatch p settings
            (new_pair p settings raw ip ua new_jti access_jti ids w).refresh_token
            now
            db
            (record ids { token_jti = new_jti })
            (successor p settings w.now ids t ip ua new_jti)
    unfolding RefreshTokens.get_by_jti_for_update Sessions.is_family_active issue_refresh_token
    successor-IsMatch w now db ids t m free rows sessions after before = record {
      named =
          refresh_ids-issue_refresh_token ids.user_id ids.session_id ids.family_id new_jti w.now now
            after before;
      stored = rw rows (
          find-append_last (has_jti new_jti)
            (update (has_jti t.jti) (rotated w.now new_jti) w.db.refresh_tokens) _ free
            (==_refl new_jti));
      owner = refl;
      family = refl;
      digest = refl;
      active =
          rw
            (
              sessions,
              count-update_same (is_active_of_family ids.family_id)
                  (is_active_of_family ids.family_id) (touched w.now) (λ s. refl) w.db.sessions,
            )
            m.active;
      unexpired = ground (arith, before);
    }

    -- The token of a rotation that succeeded is rotated in turn, in any state with the rows that the
    -- rotation left, while it lasts and where the name that is drawn is free.
    pub rotated_rotates :
        {S : Type 0} (w v : World S) (pair : TokenPair) (ip' ua' : Option Text)
        (new_jti' access_jti' : ℕ)
        → (rotate p settings raw ip ua new_jti access_jti w).0 ≡ ok pair
        → v.db.refresh_tokens
          ≡ (rotate p settings raw ip ua new_jti access_jti w).1.db.refresh_tokens
        → v.db.sessions ≡ (rotate p settings raw ip ua new_jti access_jti w).1.db.sessions
        → w.now ≤ v.now
        → v.now < w.now + settings.jwt_refresh_ttl_seconds
        → any (has_jti new_jti') v.db.refresh_tokens ≡ false
        → is_ok (rotate p settings pair.refresh_token ip' ua' new_jti' access_jti' v).0 ≡ true
    rotated_rotates w v pair ip' ua' new_jti' access_jti' granted rows sessions after before free' =
        let (ids, t, m, fresh, free) =
          rotate_sound p settings raw ip ua new_jti access_jti w pair granted in
        let run = rotate_fresh p settings raw ip ua new_jti access_jti w ids t m fresh free in
        let new = successor p settings w.now ids t ip ua new_jti in
        let same : pair.refresh_token
            ≡ (new_pair p settings raw ip ua new_jti access_jti ids w).refresh_token =
          sym (ap (λ (q : TokenPair). q.refresh_token) (ok_injective _ pair (rw run at granted))) in
        let m' =
          successor-IsMatch w v.now v.db ids t m free (rw run at rows) (rw run at sessions) after
            before in
        rw
          (
            same,
            rotate_fresh p settings _ ip' ua' new_jti' access_jti' v _ new m' refl (
                any-update (has_jti new_jti') (has_jti new_jti) (rotated v.now new_jti') (λ r. refl)
                  v.db.refresh_tokens
                ∙ free'),
          )
          refl
