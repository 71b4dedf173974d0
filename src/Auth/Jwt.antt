-- ===== src/Auth/Jwt.antt =====
-- Issuing and reading tokens (services/auth-service/app/services/jwt_service.py, core/jwt.py). The
-- identifiers that `uuid4` draws are arguments.
use backend_platform.Prelude.{ℕ, ◌+◌, Bool, true, false, not, ◌&&◌, ◌||◌, Option, none, some}
use backend_platform.Prelude.Text.{Text, codes, text_eq}
use backend_platform.Auth.Errors.{Result, ok, invalid_token, ◌>>=◌, ◌>>◌, refuse_if, or_refuse}
use backend_platform.Auth.Settings.{Settings}
use backend_platform.Auth.Providers.{Providers, Payload, Claim, missing, other, string}

-- `TOKEN_TYPE_ACCESS` and `TOKEN_TYPE_REFRESH`
pub data TokenType : Type 0 where
  access refresh : TokenType

abbrev pub type_text : TokenType → Text
type_text access = codes "access"
type_text refresh = codes "refresh"

pub record TokenClaims : Type 0 where
  pub sub : Text
  pub jti : Text
  pub token_type : TokenType
  pub session_id : Option Text
  pub family_id : Option Text

-- `isinstance(claim, str)`
abbrev string_of : Claim → Option Text
string_of (string t) = some t
string_of _ = none

abbrev is_missing : Claim → Bool
is_missing missing = true
is_missing _ = false

abbrev is_other : Claim → Bool
is_other other = true
is_other _ = false

abbrev has_type : Claim → TokenType → Bool
has_type (string t) expected = text_eq t (type_text expected)
has_type _ _ = false

abbrev is_access : TokenType → Bool
is_access access = true
is_access refresh = false

module _ (p : Providers) (settings : Settings) where
  -- The token and the seconds that it lasts.
  unfoldable pub issue_access_token : ℕ → ℕ → ℕ → ℕ → Text × ℕ
  issue_access_token subject session_id jti now = (
    p.jwt_encode settings (record {
      sub = string (p.uuid_text subject);
      jti = string (p.uuid_text jti);
      iss = settings.jwt_issuer;
      aud = settings.jwt_audience;
      iat = now;
      nbf = now;
      exp = now + settings.jwt_access_ttl_seconds;
      token_type = string (codes "access");
      sid = string (p.uuid_text session_id);
      family_id = missing;
    }),
    settings.jwt_access_ttl_seconds,
  )

  -- The payload of a refresh token that is issued at a second.
  abbrev pub refresh_payload : ℕ → ℕ → ℕ → ℕ → ℕ → Payload
  refresh_payload subject session_id family_id jti now = record {
    sub = string (p.uuid_text subject);
    jti = string (p.uuid_text jti);
    iss = settings.jwt_issuer;
    aud = settings.jwt_audience;
    iat = now;
    nbf = now;
    exp = now + settings.jwt_refresh_ttl_seconds;
    token_type = string (codes "refresh");
    sid = string (p.uuid_text session_id);
    family_id = string (p.uuid_text family_id);
  }

  -- The token and the second at which it expires.
  unfoldable pub issue_refresh_token : ℕ → ℕ → ℕ → ℕ → ℕ → Text × ℕ
  issue_refresh_token subject session_id family_id jti now =
      let payload = refresh_payload subject session_id family_id jti now in
      (p.jwt_encode settings payload, payload.exp)

  unfoldable pub decode_and_validate : Text → TokenType → ℕ → Result TokenClaims
  decode_and_validate token expected_type now = do
    payload ← or_refuse (p.jwt_decode settings now token) invalid_token
    refuse_if (not (has_type payload.token_type expected_type)) invalid_token
    sub ← or_refuse (string_of payload.sub) invalid_token
    jti ← or_refuse (string_of payload.jti) invalid_token
    refuse_if (is_access expected_type && is_missing payload.sid) invalid_token
    refuse_if
        (not (is_access expected_type) && (is_missing payload.sid || is_missing payload.family_id))
        invalid_token
    refuse_if (is_other payload.sid) invalid_token
    refuse_if (is_other payload.family_id) invalid_token
    ok (record {
      sub = sub;
      jti = jti;
      token_type = expected_type;
      session_id = string_of payload.sid;
      family_id = string_of payload.family_id;
    })
