-- ===== src/Auth/AuthService/Refresh.antt =====
-- `refresh_tokens` and `revoke_refresh_token`
-- (services/auth-service/app/services/auth_service.py).
use backend_platform.Prelude.{ℕ, Bool, Option, none, some}
use backend_platform.Prelude.Text.{Text, codes}
use backend_platform.Audit.{Fields, end}
use backend_platform.Redis.{Redis}
use backend_platform.Auth.Errors.{Error, invalid_token, token_reuse_detected}
use backend_platform.Auth.Settings.{Settings}
use backend_platform.Auth.Providers.{Providers}
use backend_platform.Auth.World.{Action, pure, raise, commit, catch, ◌>>=◌, ◌>>◌}
use backend_platform.Auth.Events.{entry, log_event}
use backend_platform.Auth.TokenService.{TokenPair, RefreshRevocationResult, rotate, revoke}
use backend_platform.Auth.AuthService.Steps.{mark_access_session_revoked}

module _ {S : Type 0} (redis : Redis S) (p : Providers) (settings : Settings)
    (ip_address user_agent : Option Text) where
  abbrev reuse_event : Text → Action S (Unit {0})
  reuse_event reason =
      log_event (codes "auth.refresh.reuse_detected") (codes "failure") none none ip_address
        user_agent (entry (codes "reason") reason)

  -- The two handlers.
  unfoldable pub refresh_failed : Error → Action S TokenPair
  refresh_failed (token_reuse_detected session_id family_id) = do
    mark_access_session_revoked redis p settings session_id
    reuse_event (codes "reused_refresh")
    commit
    raise (token_reuse_detected session_id family_id)
  refresh_failed invalid_token = do
    reuse_event (codes "invalid_or_reused_refresh")
    commit
    raise invalid_token
  refresh_failed e = raise e

  unfoldable pub refresh_tokens : Text → ℕ → ℕ → Action S TokenPair
  unfolding refresh_failed
  refresh_tokens refresh_token new_jti access_jti = do
    token_pair ←
        catch (rotate p settings refresh_token ip_address user_agent new_jti access_jti)
          refresh_failed
    log_event (codes "auth.refresh.success") (codes "success") none none ip_address user_agent end
    commit
    pure token_pair

  -- What follows a revocation: the flag on the session, where there was one.
  unfoldable pub mark_revocation : Option RefreshRevocationResult → Action S Fields
  mark_revocation none = pure (entry (codes "family_id") (codes "null"))
  mark_revocation (some revocation) = do
    mark_access_session_revoked redis p settings revocation.session_id
    pure (entry (codes "family_id") (p.uuid_text revocation.family_id))

  unfoldable pub revoke_refresh_token : Text → Bool → Action S (Unit {0})
  unfolding mark_revocation
  revoke_refresh_token refresh_token revoke_family = do
    revocation ← revoke p settings refresh_token revoke_family (codes "logout")
    payload ← mark_revocation revocation
    log_event (codes "auth.refresh.revoked") (codes "success") none none ip_address user_agent
        payload
    commit
