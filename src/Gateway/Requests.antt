-- ===== src/Gateway/Requests.antt =====
-- Requests as the handlers of the gateway see them, its settings
-- (services/api-gateway/app/core/config.py), and what it takes from elsewhere: the address parser,
-- the keyed digest, PyJWT and the UUID parser, as functions.
use backend_platform.Prelude.{ℕ, Bool, Option, none, some, List, [], ◌∷◌, if◌then◌else◌}
use backend_platform.Prelude.Text.{Text, text_eq}

abbrev pub Headers : Type 0
Headers = List (Text × Text)

-- `headers.get(name)`; the names of a request's headers are in lower case.
unfoldable pub header : Text → Headers → Option Text
header name [] = none
header name ((key, value) ∷ rest) =
    let found = header name rest in if text_eq key name then some value else found

pub record Request : Type 0 where
  pub method : Text
  pub full_path : Text
  pub headers : Headers
  pub client_host : Option Text
  pub scheme : Text
  pub query : Text
  pub body : Text
  -- request.cookies.get(settings.refresh_cookie_name)
  pub refresh_cookie : Option Text

pub record Settings : Type 0 where
  pub trusted_proxy_ips : List Text
  pub refresh_cookie_secure : Option Bool
  pub privacy_key_pepper : Text
  pub rate_limit_public_auth_per_minute : ℕ
  pub rate_limit_protected_per_minute : ℕ
  pub notification_is_configured : Bool

-- The claims of a decoded access token, as `str(payload.get(…))` prints them.
pub record Payload : Type 0 where
  pub sub : Text
  pub jti : Text
  pub sid : Text
  pub token_type : Option Text

pub record Providers : Type 0 where
  -- ip_address(a) == ip_address(b), and ip_address(a) in ip_network(b, strict=False); `none` where
  -- one of the texts is not an address
  pub same_address : Text → Text → Option Bool
  pub in_network : Text → Text → Option Bool
  pub hmac : Text → Text → Text
  pub number_text : ℕ → Text
  pub uuid_text : ℕ → Text
  pub parse_uuid : Text → Option ℕ
  -- jwt.decode at a second, with the required claims, the audience and the issuer
  pub jwt_decode : ℕ → Text → Option Payload
