-- ===== src/Gateway/Proxy/Guarded.antt =====
-- Which requests reach a service (services/api-gateway/app/api/v1/proxy.py).
use backend_platform.Prelude.{ℕ, ◌≡◌, Bool, false, List, arith, inl, inr}
use backend_platform.Prelude.Text.{Text, codes, upper}
use backend_platform.Redis.{Redis}
use backend_platform.Gateway.Errors.{ok, Result-cases}
use backend_platform.Gateway.Requests.{Request, Settings, Providers}
use backend_platform.Gateway.Security.{
  AccessTokenClaims, decode_access_token, ensure_access_session_active, extract_bearer_token,
  get_client_ip, is_public_endpoint, is_trusted_proxy, peer,
}
use backend_platform.Gateway.RateLimit.{check}
use backend_platform.Gateway.Routing.{UpstreamRequest, resolve_service, outgoing, outgoing_headers}
use backend_platform.Gateway.Proxy.{proxied_path, guard, sent_on}

module _ {S : Type 0} (redis : Redis S) (p : Providers) (settings : Settings) (available : Bool)
    (request : Request) (now : ℕ) (s : S) where
  -- The bearer of a request holds a valid access token of a session that has not been ended.
  pub record IsBearer : Type 0 where
    pub token : Text
    pub claims : AccessTokenClaims
    pub shown : extract_bearer_token request.headers ≡ ok token
    pub valid : decode_access_token p token now ≡ ok claims
    pub active :
        ensure_access_session_active p redis claims.sid now
          (guard redis p settings available false request now s).1
        ≡ ok tt

  guard-IsBearer : (guard redis p settings available false request now s).0 ≡ ok tt → IsBearer
  unfolding guard
  guard-IsBearer h = elim (Result-cases (extract_bearer_token request.headers)) [
    | inr (e, bad) ↦ absurd (ground (arith, bad, h))
    | inl (token, shown) ↦ elim (Result-cases (decode_access_token p token now)) [
      | inr (e, bad) ↦ absurd (ground (arith, bad, shown, h))
      | inl (claims, valid) ↦ record {
        token = token;
        claims = claims;
        shown = shown;
        valid = valid;
        active = ground (arith, shown, valid, h);
      }
    ]
  ]

  -- A request that is not for a public endpoint reaches a service only with a valid access token of a
  -- session that has not been ended, within the limit on the client's requests; what the service is sent
  -- is for the path that was checked, with the headers of the gateway.
  pub reached-IsBearer :
      (r : UpstreamRequest)
      → is_public_endpoint (upper request.method) (proxied_path request.full_path) ≡ false
      → (sent_on redis p settings available request now s).0 ≡ ok r
      → IsBearer
        × ((check redis p settings available request
              (codes "protected")
              settings.rate_limit_protected_per_minute
              now
              s).0
            ≡ ok tt)
        × (r.path ≡ proxied_path request.full_path)
        × (r.headers
            ≡ outgoing_headers request.headers (get_client_ip p request settings.trusted_proxy_ips))
        × (resolve_service settings r.path ≡ ok r.target)
  unfolding sent_on guard outgoing
  reached-IsBearer r private_ h = (
    guard-IsBearer (ground (arith, private_, h)),
    ground (arith, private_, h),
    ground (arith, private_, h),
    ground (arith, private_, h),
    ground (arith, private_, h),
  )

-- A client that is not a trusted proxy is known by the address it connects from, whatever headers
-- it sends.
pub untrusted_peer_ip :
    (p : Providers) (request : Request) (trusted : List Text)
    → is_trusted_proxy p request.client_host trusted ≡ false
    → get_client_ip p request trusted ≡ peer p request.client_host
unfolding get_client_ip
untrusted_peer_ip p request trusted h = ground (arith, h)
