-- ===== src/Auth/RefreshClaims.antt =====
-- The identifiers that a refresh token carries: the first lines of `rotate` and of `revoke`
-- (services/auth-service/app/services/refresh_token_service.py).
use backend_platform.Prelude.{ℕ}
use backend_platform.Prelude.Text.{Text}
use backend_platform.Auth.Errors.{Result, ok, invalid_token, ◌>>=◌, or_refuse}
use backend_platform.Auth.Settings.{Settings}
use backend_platform.Auth.Providers.{Providers}
use backend_platform.Auth.Jwt.{refresh, decode_and_validate}

pub record RefreshIds : Type 0 where
  pub token_jti : ℕ
  pub family_id : ℕ
  pub session_id : ℕ
  pub user_id : ℕ

unfoldable pub refresh_ids : Providers → Settings → Text → ℕ → Result RefreshIds
refresh_ids p settings raw_refresh_token now = do
  claims ← decode_and_validate p settings raw_refresh_token refresh now
  family_text ← or_refuse claims.family_id invalid_token
  session_text ← or_refuse claims.session_id invalid_token
  token_jti ← or_refuse (p.parse_uuid claims.jti) invalid_token
  family_id ← or_refuse (p.parse_uuid family_text) invalid_token
  session_id ← or_refuse (p.parse_uuid session_text) invalid_token
  user_id ← or_refuse (p.parse_uuid claims.sub) invalid_token
  ok (record {
    token_jti = token_jti;
    family_id = family_id;
    session_id = session_id;
    user_id = user_id;
  })
