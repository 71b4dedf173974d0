-- ===== src/Gateway/Proxy.antt =====
-- services/api-gateway/app/api/v1/proxy.py
pub mod Guarded
use backend_platform.Prelude.{ℕ, Bool, true, false, not, Option, List, ◌++◌, ◌==◌, if◌then◌else◌}
use backend_platform.Prelude.Text.{Text, codes, upper, lstrip, starts_with}
use backend_platform.Redis.{Redis}
use backend_platform.Gateway.Errors.{Result, ok, err, ◌>>=◌, ◌>>◌}
use backend_platform.Gateway.Requests.{Headers, Request, Settings, Providers}
use backend_platform.Gateway.Security.{
  decode_access_token, ensure_access_session_active, extract_bearer_token, get_client_ip,
  is_public_endpoint,
}
use backend_platform.Gateway.RateLimit.{check}
use backend_platform.Gateway.Routing.{UpstreamRequest, ProxiedResponse, outgoing, answered}

-- The path that is looked up and sent on.
unfoldable pub proxied_path : Text → Text
proxied_path full_path =
    let path = codes "/" ++ lstrip (λ c. c == 47) full_path in
    if starts_with path (codes "/v1/") then path else codes "/v1/" ++ lstrip (λ c. c == 47) path

module _ {S : Type 0} (redis : Redis S) (p : Providers) (settings : Settings)
    (available : Bool) where
  -- The checks of a request before it is passed on.
  unfoldable pub guard : Bool → Request → ℕ → S → Result (Unit {0}) × S
  guard true request now s =
      check redis p settings available request (codes "public_auth")
        settings.rate_limit_public_auth_per_minute now s
  guard false request now s =
      let (limited, s') =
        check redis p settings available request (codes "protected")
          settings.rate_limit_protected_per_minute now s in
      (
        (do
          limited
          token ← extract_bearer_token request.headers
          claims ← decode_access_token p token now
          ensure_access_session_active p redis claims.sid now s'),
        s',
      )

  -- What `proxy_request` sends to a service, if it gets so far. The headers are those of
  -- `dict(request.headers)`.
  unfoldable pub sent_on : Request → ℕ → S → Result UpstreamRequest × S
  unfolding guard proxied_path
  sent_on request now s =
      let path = proxied_path request.full_path in
      let method = upper request.method in
      let (passed, s') = guard (is_public_endpoint method path) request now s in
      (
        (passed
            >> outgoing settings method path request.query request.headers request.body
                (get_client_ip p request settings.trusted_proxy_ips)),
        s',
      )

  unfoldable pub proxy_request :
      (UpstreamRequest → Option ProxiedResponse) → Request → ℕ → S → Result ProxiedResponse × S
  proxy_request upstream request now s =
      let (sent, s') = sent_on request now s in (sent >>= (λ r. answered (upstream r)), s')
