-- ===== src/Auth/Access.antt =====
-- Who sends a request (services/auth-service/app/core/security.py, app/api/deps.py).
use backend_platform.Prelude.{ℕ}
use backend_platform.Prelude.Text.{Text, codes, is_empty, strip, drop_prefix}
use backend_platform.Redis.{Redis, exists}
use backend_platform.Redis.Keys.{access_session_revoked_key}
use backend_platform.Auth.Errors.{Result, ok, unauthorized, ◌>>=◌, ◌>>◌, refuse_if, or_refuse}
use backend_platform.Auth.Settings.{Settings}
use backend_platform.Auth.Providers.{Providers}
use backend_platform.Auth.Jwt.{access, decode_and_validate}

-- `extract_bearer_token`, of the header `authorization`, empty where it is missing.
unfoldable pub extract_bearer_token : Text → Result Text
extract_bearer_token authorization = do
  rest ← or_refuse (drop_prefix authorization (codes "Bearer ")) unauthorized
  let token = strip rest
  refuse_if (is_empty token) unauthorized
  ok token

-- The user and the session that an access token names.
unfoldable pub access_ids : Providers → Settings → Text → ℕ → Result (ℕ × ℕ)
access_ids p settings token now = do
  claims ← decode_and_validate p settings token access now
  user_id ← or_refuse (p.parse_uuid claims.sub) unauthorized
  session_text ← or_refuse claims.session_id unauthorized
  session_id ← or_refuse (p.parse_uuid session_text) unauthorized
  ok (user_id, session_id)

-- `ensure_access_session_active`
unfoldable pub ensure_access_session_active :
    {S : Type 0} → Redis S → Providers → ℕ → ℕ → S → Result (Unit {0})
ensure_access_session_active redis p session_id now s =
    refuse_if (exists redis s now (access_session_revoked_key (p.uuid_text session_id)))
      unauthorized
