-- ===== src/Gateway/Routing.antt =====
-- services/api-gateway/app/services/routing_service.py. What the upstream service answers is an
-- argument.
pub mod Passed
use backend_platform.Prelude.{
  ℕ, Bool, not, ◌||◌, ◌&&◌, Option, none, some, List, [], ◌∷◌, ◌++◌, if◌then◌else◌,
}
use backend_platform.Prelude.Text.{Text, codes, text_eq, is_empty, lower, member, starts_with}
use backend_platform.Gateway.Errors.{Result, ok, err, route_not_found, upstream_failed, ◌>>=◌}
use backend_platform.Gateway.Requests.{Headers, Settings}

pub data Service : Type 0 where
  auth user notification : Service

pub record UpstreamRequest : Type 0 where
  pub target : Service
  pub method : Text
  pub path : Text
  pub query : Text
  pub headers : Headers
  pub content : Text

pub record ProxiedResponse : Type 0 where
  pub status_code : ℕ
  pub body : Text
  pub headers : Headers

abbrev pub hop_by_hop_headers : List Text
hop_by_hop_headers =
    codes "connection"
    ∷ codes "keep-alive"
    ∷ codes "proxy-authenticate"
    ∷ codes "proxy-authorization"
    ∷ codes "te"
    ∷ codes "trailers"
    ∷ codes "transfer-encoding"
    ∷ codes "upgrade"
    ∷ []

abbrev pub forwarded_headers : List Text
forwarded_headers = codes "forwarded" ∷ codes "x-forwarded-for" ∷ codes "x-real-ip" ∷ []

abbrev pub blocked_response_headers : List Text
blocked_response_headers = codes "server" ∷ codes "set-cookie" ∷ codes "x-powered-by" ∷ []

-- `resolve_service`
unfoldable pub resolve_service : Settings → Text → Result Service
resolve_service settings path =
    if starts_with path (codes "/v1/auth") || starts_with path (codes "/v1/tokens")
    then ok auth
    else if starts_with path (codes "/v1/two-factor") || starts_with path (codes "/v1/sessions")
    then ok auth
    else if starts_with path (codes "/v1/users") || starts_with path (codes "/v1/profiles")
    then ok user
    else if starts_with path (codes "/v1/roles") || starts_with path (codes "/v1/permissions")
    then ok user
    else if starts_with path (codes "/v1/notify") && settings.notification_is_configured
    then ok notification
    else err route_not_found

-- The names that are not passed on to a service.
abbrev pub is_dropped_request_header : Text → Bool
is_dropped_request_header name =
    member (lower name) hop_by_hop_headers
    || (member (lower name) forwarded_headers
        || (text_eq (lower name) (codes "host") || text_eq (lower name) (codes "content-length")))

abbrev pub is_dropped_response_header : Text → Bool
is_dropped_response_header name =
    member (lower name) hop_by_hop_headers
    || (member (lower name) blocked_response_headers
        || text_eq (lower name) (codes "content-length"))

-- `_sanitize_request_headers`
unfoldable pub sanitize_request_headers : Headers → Headers
sanitize_request_headers [] = []
sanitize_request_headers ((key, value) ∷ rest) =
    let safe = sanitize_request_headers rest in
    if is_dropped_request_header key then safe else (key, value) ∷ safe

-- `_sanitize_response_headers`
unfoldable pub sanitize_response_headers : Headers → Headers
sanitize_response_headers [] = []
sanitize_response_headers ((key, value) ∷ rest) =
    let safe = sanitize_response_headers rest in
    if is_dropped_response_header key then safe else (key, value) ∷ safe

-- The headers that a service is sent: the client's address goes last.
unfoldable pub outgoing_headers : Headers → Text → Headers
unfolding sanitize_request_headers
outgoing_headers headers client_ip =
    let safe = sanitize_request_headers headers in
    if is_empty client_ip then safe else safe ++ ((codes "X-Forwarded-For", client_ip) ∷ [])

-- An answer of a service, `none` where the call times out or fails.
unfoldable pub answered : Option ProxiedResponse → Result ProxiedResponse
unfolding sanitize_response_headers
answered none = err upstream_failed
answered (some response) =
    ok (record response { headers = sanitize_response_headers response.headers })

-- What `forward` sends, and where.
unfoldable pub outgoing :
    Settings → Text → Text → Text → Headers → Text → Text → Result UpstreamRequest
unfolding outgoing_headers
outgoing settings method path query headers body client_ip = do
  target ← resolve_service settings path
  ok (record {
    target = target;
    method = method;
    path = path;
    query = query;
    headers = outgoing_headers headers client_ip;
    content = body;
  })

unfoldable pub forward :
    Settings
    → (UpstreamRequest → Option ProxiedResponse)
    → Text
    → Text
    → Text
    → Headers
    → Text
    → Text
    → Result ProxiedResponse
forward settings upstream method path query headers body client_ip = do
  sent ← outgoing settings method path query headers body client_ip
  answered (upstream sent)
