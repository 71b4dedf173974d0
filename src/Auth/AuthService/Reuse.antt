-- ===== src/Auth/AuthService/Reuse.antt =====
-- What `refresh_tokens` does with a token that was used or revoked before
-- (services/auth-service/app/services/auth_service.py), and how long the flag on a session lasts.
use backend_platform.Prelude.{
  ℕ, ◌+◌, ◌<◌, max, ◌≡◌, refl, true, false, ◌||◌, Option, some, is_some, All, update-clears,
  count-clears, arith,
}
use backend_platform.Prelude.Text.{Text, codes, text_eq_refl}
use backend_platform.Redis.{Redis, RedisLaws, text, Entry}
use backend_platform.Redis.Keys.{access_session_revoked_key}
use backend_platform.Auth.Db.{RefreshToken}
use backend_platform.Auth.Errors.{err, token_reuse_detected, unauthorized}
use backend_platform.Auth.Settings.{Settings}
use backend_platform.Auth.Providers.{Providers}
use backend_platform.Auth.World.{World, ◌>>=◌, in_session}
use backend_platform.Auth.Events.{log_event}
use backend_platform.Auth.RefreshClaims.{RefreshIds}
use backend_platform.Auth.Access.{ensure_access_session_active}
use backend_platform.Auth.Repositories.RefreshTokens.{is_unrevoked_of_family, revoked}
use backend_platform.Auth.Repositories.Sessions.{is_family_active, is_active_of_family, ended}
use backend_platform.Auth.TokenService.{rotate}
use backend_platform.Auth.TokenService.Checks.{IsMatch}
use backend_platform.Auth.TokenService.Rotation.{rotate_reused}
use backend_platform.Auth.AuthService.Steps.{mark_access_session_revoked}
use backend_platform.Auth.AuthService.Refresh.{refresh_failed, refresh_tokens}

module _ {S : Type 0} (redis : Redis S) (laws : RedisLaws redis) (p : Providers)
    (settings : Settings) where
  -- The entry that flags a session as ended.
  abbrev pub flag : ℕ → Option Entry
  flag now = some (record {
    value = text (codes "1");
    deadline = some (now + max settings.jwt_access_ttl_seconds 60);
  })

  pub flagged :
      (session_id : ℕ) (w : World S)
      → redis.stored
          (mark_access_session_revoked redis p settings session_id w).1.redis
          (access_session_revoked_key (p.uuid_text session_id))
        ≡ flag w.now
  unfolding mark_access_session_revoked ◌>>=◌
  flagged session_id w = ground (
    arith,
    laws.stored-set w.redis w.now (access_session_revoked_key (p.uuid_text session_id)) (codes "1")
        (max settings.jwt_access_ttl_seconds 60)
        (access_session_revoked_key (p.uuid_text session_id)),
    text_eq_refl (access_session_revoked_key (p.uuid_text session_id)),
  )

  -- After a session's flag is set, its access tokens are refused at every second at which one that
  -- was issued by then could still be valid.
  pub ended_session_refused :
      (session_id issued now : ℕ) (w : World S)
      → issued < w.now + 1
      → now < issued + settings.jwt_access_ttl_seconds
      → ensure_access_session_active redis p session_id now
          (mark_access_session_revoked redis p settings session_id w).1.redis
        ≡ err unauthorized
  unfolding ensure_access_session_active
  ended_session_refused session_id issued now w before valid =
      rw (flagged session_id w) (ground arith)

  after_reuse :
      (ip ua : Option Text) (raw : Text) (new_jti access_jti : ℕ) (session family : ℕ)
      (w w' : World S)
      → rotate p settings raw ip ua new_jti access_jti w
        ≡ (err (token_reuse_detected session family), w')
      → refresh_tokens redis p settings ip ua raw new_jti access_jti w
        ≡ refresh_failed redis p settings ip ua (token_reuse_detected session family) w'
  unfolding refresh_tokens refresh_failed ◌>>=◌ log_event mark_access_session_revoked
  after_reuse ip ua raw new_jti access_jti session family w w' h = ground (arith, h)

  -- What is left of a family after its token is presented again.
  pub record IsShut (family_id : ℕ) (session_id : ℕ) (w w' : World S) : Type 0 where
    pub no_token : All (λ t. is_unrevoked_of_family family_id t ≡ false) w'.committed.refresh_tokens
    pub no_session : is_family_active family_id w'.committed ≡ false
    pub access_refused :
        redis.stored w'.redis (access_session_revoked_key (p.uuid_text session_id)) ≡ flag w.now

  -- A token that passes the checks and was used or revoked before is answered with an error, and its
  -- whole family is shut, which is committed: no token of it is unrevoked, no session of it is active,
  -- and the session's access tokens are flagged.
  pub reuse_shuts_family :
      (ip ua : Option Text) (raw : Text) (new_jti access_jti : ℕ) (w : World S) (ids : RefreshIds)
      (t : RefreshToken)
      → IsMatch p settings raw w.now w.committed ids t
      → (is_some t.revoked_at || is_some t.rotated_at) ≡ true
      → ((in_session (refresh_tokens redis p settings ip ua raw new_jti access_jti) w).0
          ≡ err (token_reuse_detected ids.session_id ids.family_id))
        × IsShut ids.family_id ids.session_id w
            (in_session (refresh_tokens redis p settings ip ua raw new_jti access_jti) w).1
  unfolding in_session refresh_failed ◌>>=◌ log_event is_family_active mark_access_session_revoked
  reuse_shuts_family ip ua raw new_jti access_jti w ids t m used =
      let start : World S = record w { db = w.committed } in
      let ended_family =
        after_reuse ip ua raw new_jti access_jti ids.session_id ids.family_id start _
          (rotate_reused p settings raw ip ua new_jti access_jti start ids t m used) in
      rw ended_family (
        refl,
        record {
          no_token =
              update-clears (is_unrevoked_of_family ids.family_id)
                (revoked w.now (codes "reuse_detected")) (λ x. ground arith)
                w.committed.refresh_tokens;
          no_session = ground (
            arith,
            count-clears (is_active_of_family ids.family_id) (ended w.now) (λ x. ground arith)
                w.committed.sessions,
          );
          access_refused = flagged ids.session_id w;
        },
      )
