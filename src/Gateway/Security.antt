-- ===== src/Gateway/Security.antt =====
-- services/api-gateway/app/core/security.py and core/constants.py
use backend_platform.Prelude.{
  ℕ, Bool, false, not, ◌&&◌, ◌||◌, Option, none, some, List, [], ◌∷◌, any, ◌==◌, if◌then◌else◌,
}
use backend_platform.Prelude.Text.{
  Text, codes, text_eq, is_empty, strip, lower, upper, before, drop_prefix, starts_with, rstrip,
}
use backend_platform.Redis.{Redis, exists}
use backend_platform.Redis.Keys.{access_session_revoked_key}
use backend_platform.Gateway.Errors.{
  Result, ok, unauthorized, forbidden, ◌>>=◌, ◌>>◌, refuse_if, or_refuse,
}
use backend_platform.Gateway.Requests.{Headers, header, Request, Settings, Providers}

pub record AccessTokenClaims : Type 0 where
  pub sub : ℕ
  pub jti : ℕ
  pub sid : ℕ

-- `token_type != TOKEN_TYPE_ACCESS`
abbrev is_access : Option Text → Bool
is_access none = false
is_access (some t) = text_eq t (codes "access")

abbrev is_true : Option Bool → Bool
is_true none = false
is_true (some b) = b

-- `value or ""`
abbrev or_empty : Option Text → Text
or_empty none = []
or_empty (some t) = t

module _ (p : Providers) where
  unfoldable pub decode_access_token : Text → ℕ → Result AccessTokenClaims
  decode_access_token raw_token now = do
    payload ← or_refuse (p.jwt_decode now raw_token) unauthorized
    refuse_if (not (is_access payload.token_type)) unauthorized
    sub ← or_refuse (p.parse_uuid payload.sub) unauthorized
    jti ← or_refuse (p.parse_uuid payload.jti) unauthorized
    sid ← or_refuse (p.parse_uuid payload.sid) unauthorized
    ok (record { sub = sub; jti = jti; sid = sid })

  unfoldable pub ensure_access_session_active :
      {S : Type 0} → Redis S → ℕ → ℕ → S → Result (Unit {0})
  ensure_access_session_active redis session_id now s =
      refuse_if (exists redis s now (access_session_revoked_key (p.uuid_text session_id)))
        unauthorized

  -- One entry of the list of trusted proxies; a text that is no address fits nothing.
  abbrev fits_candidate : Text → Text → Bool
  fits_candidate client_host candidate =
      not (is_empty candidate)
      && (text_eq candidate client_host
          || (if any (λ c. c == 47) candidate
              then is_true (p.in_network client_host candidate)
              else is_true (p.same_address client_host candidate)))

  -- `_is_trusted_proxy`
  unfoldable pub is_trusted_proxy : Option Text → List Text → Bool
  is_trusted_proxy none trusted_proxy_ips = false
  is_trusted_proxy (some client_host) trusted_proxy_ips =
      not (is_empty client_host)
      && any (λ trusted. fits_candidate client_host (strip trusted)) trusted_proxy_ips

  abbrev pub peer : Option Text → Text
  peer none = codes "unknown"
  peer (some client_host) = if is_empty client_host then codes "unknown" else client_host

  abbrev first_hop : Text → Text
  first_hop xff = strip (before 44 xff)

  -- The address in `X-Forwarded-For` where a trusted peer sent one, else the peer's.
  unfoldable pub get_client_ip : Request → List Text → Text
  get_client_ip request trusted_proxy_ips =
      let first = first_hop (or_empty (header (codes "x-forwarded-for") request.headers)) in
      if is_trusted_proxy request.client_host trusted_proxy_ips && not (is_empty first)
      then first
      else peer request.client_host

  unfoldable pub effective_refresh_cookie_secure : Request → Settings → Bool
  effective_refresh_cookie_secure request settings = elim settings.refresh_cookie_secure [
    | some forced ↦ forced
    | none ↦
        text_eq (lower request.scheme) (codes "https")
        || (is_trusted_proxy request.client_host settings.trusted_proxy_ips
            && (not (is_empty (strip (or_empty (header (codes "x-forwarded-for") request.headers))))
                && text_eq
                    (lower (
                      strip (
                        before 44
                          (strip (or_empty (header (codes "x-forwarded-proto") request.headers))))))
                    (codes "https")))
  ]

unfoldable pub extract_bearer_token : Headers → Result Text
extract_bearer_token headers = do
  rest ←
      or_refuse (drop_prefix (or_empty (header (codes "authorization") headers)) (codes "Bearer "))
        unauthorized
  let token = strip rest
  refuse_if (is_empty token) unauthorized
  ok token

-- `PUBLIC_ENDPOINTS`
abbrev pub public_endpoints : List (Text × Text)
public_endpoints =
    (codes "POST", codes "/v1/auth/register")
    ∷ (codes "POST", codes "/v1/auth/login")
    ∷ (codes "POST", codes "/v1/auth/login/2fa")
    ∷ (codes "POST", codes "/v1/auth/password/forgot")
    ∷ (codes "POST", codes "/v1/auth/password/reset")
    ∷ (codes "POST", codes "/v1/tokens/refresh")
    ∷ (codes "POST", codes "/v1/tokens/revoke")
    ∷ (codes "POST", codes "/v1/browser-auth/register")
    ∷ (codes "POST", codes "/v1/browser-auth/login")
    ∷ (codes "POST", codes "/v1/browser-auth/login/2fa")
    ∷ (codes "POST", codes "/v1/browser-auth/refresh")
    ∷ (codes "POST", codes "/v1/browser-auth/revoke")
    ∷ (codes "GET", codes "/v1/health/live")
    ∷ (codes "GET", codes "/v1/health/ready")
    ∷ []

unfoldable pub is_public_endpoint : Text → Text → Bool
is_public_endpoint method path =
    let stripped = rstrip (λ c. c == 47) path in
    let normalized = if is_empty stripped then codes "/" else stripped in
    any (λ (m, q). text_eq m (upper method) && text_eq q normalized) public_endpoints

unfoldable pub ensure_authenticated_endpoint : Text → Text → Result (Unit {0})
ensure_authenticated_endpoint method path =
    refuse_if
      (not (is_public_endpoint method path)
        && (not (starts_with path (codes "/v1/health"))
            && (starts_with path (codes "/v1/auth") && text_eq (upper method) (codes "POST"))))
      forbidden
