-- ===== src/Auth/TokenService/Opened.antt =====
-- The token with which `issue_for_user` opens a family can be presented in time
-- (services/auth-service/app/services/refresh_token_service.py).
use backend_platform.Prelude.{
  ℕ, ◌+◌, ◌≤◌, ◌<◌, ◌≡◌, refl, ◌∙◌, true, false, Option, none, [], ◌∷◌, ◌++◌, arith, ==_refl, any,
  any-update, count-append, find-append_last, ◌==◌,
}
use backend_platform.Prelude.Text.{Text}
use backend_platform.Auth.Db.{Db, RefreshToken, UserSession}
use backend_platform.Auth.Errors.{ok, is_ok}
use backend_platform.Auth.Settings.{Settings}
use backend_platform.Auth.Providers.{Providers}
use backend_platform.Auth.Jwt.{issue_access_token, issue_refresh_token}
use backend_platform.Auth.World.{World, ◌>>=◌}
use backend_platform.Auth.RefreshClaims.{RefreshIds}
use backend_platform.Auth.Repositories.RefreshTokens
use backend_platform.Auth.Repositories.RefreshTokens.{has_jti, rotated}
use backend_platform.Auth.Repositories.Sessions
use backend_platform.Auth.Repositories.Sessions.{is_active_of_family}
use backend_platform.Auth.TokenService.Checks.{IsMatch}
use backend_platform.Auth.TokenService.Issued.{ReadsBack, refresh_ids-issue_refresh_token}
use backend_platform.Auth.TokenService.Rotation.{rotate_fresh}
use backend_platform.Auth.TokenService.{
  TokenPair, NewSession, hash_refresh_token, issue_for_user, rotate,
}

module _ (p : Providers) (settings : Settings) (user : ℕ) (ip ua : Option Text)
    (drawn : NewSession) where
  -- The rows of a new family.
  abbrev pub opening : ℕ → RefreshToken
  opening now = record {
    user_id = user;
    jti = drawn.refresh_jti;
    family_id = drawn.family_id;
    parent_jti = none;
    token_hash =
        hash_refresh_token p settings
          (issue_refresh_token p settings user drawn.session_id drawn.family_id drawn.refresh_jti
            now).0;
    expires_at =
        (issue_refresh_token p settings user drawn.session_id drawn.family_id drawn.refresh_jti
          now).1;
    rotated_at = none;
    revoked_at = none;
    replaced_by_jti = none;
    revocation_reason = none;
    ip_address = ip;
    user_agent = ua;
  }

  abbrev pub opening_session : ℕ → UserSession
  opening_session now = record {
    id = drawn.session_id;
    user_id = user;
    refresh_family_id = drawn.family_id;
    ip_address = ip;
    user_agent = ua;
    last_seen_at = now;
    revoked_at = none;
  }

  -- What an issue that succeeds leaves.
  pub record IsOpened {S : Type 0} (w : World S) (pair : TokenPair) (db : Db) : Type 0 where
    pub token :
        pair.refresh_token
        ≡ (issue_refresh_token p settings user drawn.session_id drawn.family_id drawn.refresh_jti
            w.now).0
    pub free : any (has_jti drawn.refresh_jti) w.db.refresh_tokens ≡ false
    pub rows : db.refresh_tokens ≡ w.db.refresh_tokens ++ (opening w.now ∷ [])
    pub sessions : db.sessions ≡ w.db.sessions ++ (opening_session w.now ∷ [])

  pub issue-IsOpened :
      {S : Type 0} (w : World S) (pair : TokenPair)
      → (issue_for_user p settings user ip ua drawn w).0 ≡ ok pair
      → IsOpened w pair (issue_for_user p settings user ip ua drawn w).1.db
  unfolding issue_for_user Sessions.create RefreshTokens.create ◌>>=◌
  issue-IsOpened w pair h = record {
    token = ground (arith, h);
    free = ground (arith, h);
    rows = ground (arith, h);
    sessions = ground (arith, h);
  }

  abbrev pub issued_pair : ℕ → TokenPair
  issued_pair now = record {
    access_token = (issue_access_token p settings user drawn.session_id drawn.access_jti now).0;
    refresh_token =
        (issue_refresh_token p settings user drawn.session_id drawn.family_id drawn.refresh_jti
          now).0;
    access_expires_in =
        (issue_access_token p settings user drawn.session_id drawn.access_jti now).1;
    refresh_family_id = drawn.family_id;
    session_id = drawn.session_id;
  }

  -- It succeeds where what is drawn is new.
  pub issue_succeeds :
      {S : Type 0} (w : World S)
      → any (λ s. s.id == drawn.session_id) w.db.sessions ≡ false
      → any (has_jti drawn.refresh_jti) w.db.refresh_tokens ≡ false
      → (issue_for_user p settings user ip ua drawn w).0 ≡ ok (issued_pair w.now)
  unfolding issue_for_user Sessions.create RefreshTokens.create ◌>>=◌
  issue_succeeds w session_free name_free = ground (arith, session_free, name_free)

  module _ (reads : ReadsBack p settings) {S : Type 0} (w v : World S) (pair : TokenPair)
      (o : IsOpened w pair v.db) (after : w.now ≤ v.now)
      (before : v.now < w.now + settings.jwt_refresh_ttl_seconds) where
    abbrev named : RefreshIds
    named = record {
      token_jti = drawn.refresh_jti;
      family_id = drawn.family_id;
      session_id = drawn.session_id;
      user_id = user;
    }

    opened-IsMatch : IsMatch p settings pair.refresh_token v.now v.db named (opening w.now)
    unfolding RefreshTokens.get_by_jti_for_update Sessions.is_family_active issue_refresh_token
    opened-IsMatch = record {
      named = rw o.token (
          refresh_ids-issue_refresh_token p settings reads user drawn.session_id drawn.family_id
            drawn.refresh_jti w.now v.now after before);
      stored = rw o.rows (
          find-append_last (has_jti drawn.refresh_jti) w.db.refresh_tokens (opening w.now) o.free
            (==_refl drawn.refresh_jti));
      owner = refl;
      family = refl;
      digest = rw o.token refl;
      active = rw o.sessions (
          ground (
            arith,
            ==_refl drawn.family_id,
            count-append (is_active_of_family drawn.family_id) w.db.sessions
                (opening_session w.now ∷ []),
          ));
      unexpired = ground (arith, before);
    }

    -- It is rotated while it lasts, where the name that is drawn for its successor is free.
    pub opened_rotates :
        (ip' ua' : Option Text) (new_jti' access_jti' : ℕ)
        → any (has_jti new_jti') v.db.refresh_tokens ≡ false
        → is_ok (rotate p settings pair.refresh_token ip' ua' new_jti' access_jti' v).0 ≡ true
    opened_rotates ip' ua' new_jti' access_jti' free =
        rw
          (rotate_fresh p settings pair.refresh_token ip' ua' new_jti' access_jti' v named
            (opening w.now) opened-IsMatch refl
            (any-update (has_jti new_jti') (has_jti drawn.refresh_jti) (rotated v.now new_jti')
                (λ r. refl) v.db.refresh_tokens
              ∙ free))
          refl
