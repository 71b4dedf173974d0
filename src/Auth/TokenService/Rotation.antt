-- ===== src/Auth/TokenService/Rotation.antt =====
-- What a rotation does to the tables (services/auth-service/app/services/refresh_token_service.py).
use backend_platform.Prelude.{
  ℕ, ◌≡◌, ◌∙◌, ap, true, false, ◌||◌, Option, none, some, List, [], ◌∷◌, ◌++◌, arith, is_some,
  update, any, Bool-cases, inl, inr,
}
use backend_platform.Prelude.Text.{Text, codes}
use backend_platform.Auth.Db.{RefreshToken}
use backend_platform.Auth.Errors.{
  Result, ok, err, Result-cases, Error, token_reuse_detected, integrity_error,
}
use backend_platform.Auth.Settings.{Settings}
use backend_platform.Auth.Providers.{Providers}
use backend_platform.Auth.Jwt.{issue_refresh_token, issue_access_token}
use backend_platform.Auth.World.{World, branch, ◌>>=◌, bind_ok, bind_err}
use backend_platform.Auth.RefreshClaims.{RefreshIds}
use backend_platform.Auth.Repositories.RefreshTokens
use backend_platform.Auth.Repositories.RefreshTokens.{
  has_jti, rotated, revoked, is_unrevoked_of_family,
}
use backend_platform.Auth.Repositories.Sessions.{is_active_of_family, ended, touched}
use backend_platform.Auth.Repositories.Sessions
use backend_platform.Auth.TokenService.{
  TokenPair, hash_refresh_token, check_rotation, reject_reuse, replace, rotate,
}
use backend_platform.Auth.TokenService.Checks.{
  IsMatch, check_rotation_reads, check_rotation_sound, check_rotation_complete,
}

-- The row that a rotation adds.
abbrev pub successor :
    (p : Providers) (settings : Settings)
    → ℕ
    → RefreshIds
    → RefreshToken
    → Option Text
    → Option Text
    → ℕ
    → RefreshToken
successor p settings now ids t ip ua new_jti =
    let issued =
      issue_refresh_token p settings ids.user_id ids.session_id ids.family_id new_jti now in
    record {
      user_id = ids.user_id;
      jti = new_jti;
      family_id = ids.family_id;
      parent_jti = some t.jti;
      token_hash = hash_refresh_token p settings issued.0;
      expires_at = issued.1;
      rotated_at = none;
      revoked_at = none;
      replaced_by_jti = none;
      revocation_reason = none;
      ip_address = ip;
      user_agent = ua;
    }

module _ {S : Type 0} (p : Providers) (settings : Settings) (raw : Text) (ip ua : Option Text)
    (new_jti access_jti : ℕ) where
  -- The table after a rotation.
  abbrev pub rotated_rows : RefreshIds → RefreshToken → World S → List RefreshToken
  rotated_rows ids t w =
      update (has_jti t.jti) (rotated w.now new_jti) w.db.refresh_tokens
      ++ (successor p settings w.now ids t ip ua new_jti ∷ [])

  -- What a rotation hands out.
  abbrev pub new_pair : RefreshIds → World S → TokenPair
  new_pair ids w =
      let access = issue_access_token p settings ids.user_id ids.session_id access_jti w.now in
      record {
        access_token = access.0;
        refresh_token =
            (issue_refresh_token p settings ids.user_id ids.session_id ids.family_id new_jti
              w.now).0;
        access_expires_in = access.1;
        refresh_family_id = ids.family_id;
        session_id = ids.session_id;
      }

  rotate_ok_check :
      (w : World S) (ids : RefreshIds) (t : RefreshToken)
      → check_rotation p settings raw w ≡ (ok (ids, t), w)
      → rotate p settings raw ip ua new_jti access_jti w
        ≡ branch
            (is_some t.revoked_at || is_some t.rotated_at)
            (reject_reuse p settings ids)
            (replace p settings ids t ip ua new_jti access_jti)
            w
  unfolding rotate
  rotate_ok_check w ids t h = bind_ok _ _ w w (ids, t) h

  pub rotate_err_check :
      (w : World S) (e : Error)
      → (check_rotation p settings raw w).0 ≡ err e
      → rotate p settings raw ip ua new_jti access_jti w ≡ (err e, w)
  unfolding rotate
  rotate_err_check w e h =
      bind_err _ _ w w e (ground (arith, check_rotation_reads p settings raw w))

  -- A token that passes the checks and was used or revoked before: both tables lose its family.
  pub rotate_reused :
      (w : World S) (ids : RefreshIds) (t : RefreshToken)
      → IsMatch p settings raw w.now w.db ids t
      → (is_some t.revoked_at || is_some t.rotated_at) ≡ true
      → rotate p settings raw ip ua new_jti access_jti w ≡ (
        err (token_reuse_detected ids.session_id ids.family_id),
        record w {
          db = record w.db {
            refresh_tokens =
                update
                  (is_unrevoked_of_family ids.family_id)
                  (revoked w.now (codes "reuse_detected"))
                  w.db.refresh_tokens;
            sessions = update (is_active_of_family ids.family_id) (ended w.now) w.db.sessions;
          };
        },
      )
  unfolding reject_reuse RefreshTokens.revoke_family Sessions.revoke_family ◌>>=◌ branch
  rotate_reused w ids t m used =
      rotate_ok_check w ids t (check_rotation_complete p settings raw w ids t m) ∙ ground arith

  -- The name of the new row is taken: the uniqueness constraint refuses it.
  pub rotate_taken :
      (w : World S) (ids : RefreshIds) (t : RefreshToken)
      → IsMatch p settings raw w.now w.db ids t
      → (is_some t.revoked_at || is_some t.rotated_at) ≡ false
      → any (has_jti new_jti) (update (has_jti t.jti) (rotated w.now new_jti) w.db.refresh_tokens)
        ≡ true
      → rotate p settings raw ip ua new_jti access_jti w ≡ (
        err integrity_error,
        record w {
          db = record w.db {
            refresh_tokens = update (has_jti t.jti) (rotated w.now new_jti) w.db.refresh_tokens;
          };
        },
      )
  unfolding replace RefreshTokens.mark_rotated RefreshTokens.create Sessions.touch_family ◌>>=◌
      branch
  rotate_taken w ids t m unused taken =
      rotate_ok_check w ids t (check_rotation_complete p settings raw w ids t m) ∙ ground arith

  -- A token that passes the checks and is fresh gives way to its successor.
  pub rotate_fresh :
      (w : World S) (ids : RefreshIds) (t : RefreshToken)
      → IsMatch p settings raw w.now w.db ids t
      → (is_some t.revoked_at || is_some t.rotated_at) ≡ false
      → any (has_jti new_jti) (update (has_jti t.jti) (rotated w.now new_jti) w.db.refresh_tokens)
        ≡ false
      → rotate p settings raw ip ua new_jti access_jti w ≡ (
        ok (new_pair ids w),
        record w {
          db = record w.db {
            refresh_tokens = rotated_rows ids t w;
            sessions = update (is_active_of_family ids.family_id) (touched w.now) w.db.sessions;
          };
        },
      )
  unfolding replace RefreshTokens.mark_rotated RefreshTokens.create Sessions.touch_family ◌>>=◌
      branch
  rotate_fresh w ids t m unused free =
      rotate_ok_check w ids t (check_rotation_complete p settings raw w ids t m) ∙ ground arith

  -- A rotation that succeeds was of a token that passes the checks, was never rotated or revoked, and
  -- the new row's name was free.
  pub rotate_sound :
      (w : World S) (pair : TokenPair)
      → (rotate p settings raw ip ua new_jti access_jti w).0 ≡ ok pair
      → (ids : RefreshIds) × (t : RefreshToken) × IsMatch p settings raw w.now w.db ids t
        × ((is_some t.revoked_at || is_some t.rotated_at) ≡ false)
        × (any
              (has_jti new_jti)
              (update (has_jti t.jti) (rotated w.now new_jti) w.db.refresh_tokens)
            ≡ false)
  rotate_sound w pair h = elim (Result-cases (check_rotation p settings raw w).0) [
    | inr (e, refused) ↦
        cc (ap (λ (r : Result TokenPair × World S). r.0) (rotate_err_check w e refused))
    | inl ((ids, t), passed) ↦
        let m = check_rotation_sound p settings raw w ids t passed in
        elim (Bool-cases (is_some t.revoked_at || is_some t.rotated_at)) [
          | inl used ↦
              cc (ap (λ (r : Result TokenPair × World S). r.0) (rotate_reused w ids t m used))
          | inr fresh ↦
              elim (Bool-cases (
                any (has_jti new_jti)
                  (update (has_jti t.jti) (rotated w.now new_jti) w.db.refresh_tokens))) [
                    | inl taken ↦ cc (
                        ap (λ (r : Result TokenPair × World S). r.0)
                          (rotate_taken w ids t m fresh taken))
                    | inr free ↦ (ids, t, m, fresh, free)
                  ]
        ]
  ]
