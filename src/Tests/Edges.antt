-- ===== src/Tests/Edges.antt =====
-- The gateway and the user service.
use backend_platform.Prelude.{
  ℕ, ◌≡◌, refl, true, false, Option, some, none, [], ◌∷◌, All, is_some, ◌⊎◌, if◌then◌else◌,
}
use backend_platform.Prelude.Text.{Text, codes, text_eq, upper}
use backend_platform.Redis.Keys.{rate_limit_key, access_session_revoked_key}
use backend_platform.Redis.Memory.{memory, blank}
use backend_platform.Gateway.Errors
use backend_platform.Gateway.Requests.{Request, Settings, Providers, Payload, header}
use backend_platform.Gateway.Security.{
  decode_access_token, ensure_access_session_active, extract_bearer_token, get_client_ip,
  is_public_endpoint, is_trusted_proxy,
}
use backend_platform.Gateway.RateLimit.{counter_key, check}
use backend_platform.Gateway.Routing.{
  UpstreamRequest, ProxiedResponse, user, resolve_service, outgoing, outgoing_headers,
}
use backend_platform.Gateway.Routing.Passed.{IsTruthful, outgoing_headers-IsTruthful}
use backend_platform.Gateway.Proxy.{proxied_path, guard, sent_on}
use backend_platform.Gateway.Proxy.Guarded.{IsBearer, reached-IsBearer}
use backend_platform.Gateway.Json
use backend_platform.Gateway.BrowserAuth.{Codec, Response, set}
use backend_platform.Users.Store
use backend_platform.Users.Endpoints
use backend_platform.Users.Bootstrap.{IsGranted, my_profile_stores_nothing, assign_role_permitted}

abbrev gateway_payload : Payload
gateway_payload = record {
  sub = 1 ∷ [];
  jti = 2 ∷ [];
  sid = 3 ∷ [];
  token_type = some (codes "access");
}

abbrev parse_uuid : Text → Option ℕ
parse_uuid (n ∷ []) = some n
parse_uuid _ = none

abbrev gateway_providers : Providers
gateway_providers = record {
  same_address = λ a b. some (text_eq a b);
  in_network = λ a b. some false;
  hmac = λ key value. value;
  number_text = λ n. n ∷ [];
  uuid_text = λ n. n ∷ [];
  parse_uuid = parse_uuid;
  jwt_decode = λ now token. if text_eq token (codes "t") then some gateway_payload else none;
}

abbrev gateway_settings : Settings
gateway_settings = record {
  trusted_proxy_ips = codes "10.0.0.1" ∷ [];
  refresh_cookie_secure = none;
  privacy_key_pepper = codes "k";
  rate_limit_public_auth_per_minute = 2;
  rate_limit_protected_per_minute = 2;
  notification_is_configured = false;
}

abbrev request : Request
request = record {
  method = codes "GET";
  full_path = codes "v1/users/me";
  headers =
      (codes "authorization", codes "Bearer t") ∷ (codes "x-forwarded-for", codes "6.6.6.6") ∷ [];
  client_host = some (codes "1.2.3.4");
  scheme = codes "http";
  query = [];
  body = codes "x";
  refresh_cookie = some (codes "r");
}

abbrev sent : UpstreamRequest
sent = record {
  target = user;
  method = codes "GET";
  path = codes "/v1/users/me";
  query = [];
  headers =
      (codes "authorization", codes "Bearer t") ∷ (codes "X-Forwarded-For", codes "1.2.3.4") ∷ [];
  content = codes "x";
}

sent_run :
    (sent_on memory gateway_providers gateway_settings true request 100 blank).0 ≡ Errors.ok sent
unfolding sent_on guard check counter_key proxied_path outgoing outgoing_headers resolve_service
    extract_bearer_token decode_access_token ensure_access_session_active get_client_ip
    is_public_endpoint is_trusted_proxy header rate_limit_key access_session_revoked_key
sent_run = refl

private_path : is_public_endpoint (upper (codes "GET")) (proxied_path (codes "v1/users/me")) ≡ false
unfolding is_public_endpoint proxied_path
private_path = refl

reached-IsBearer_example :
    IsBearer memory gateway_providers gateway_settings true request 100 blank
    × ((check memory gateway_providers gateway_settings true request
          (codes "protected")
          2
          100
          blank).0
        ≡ Errors.ok tt)
    × (sent.path ≡ proxied_path (codes "v1/users/me"))
    × (sent.headers
        ≡ outgoing_headers request.headers
            (get_client_ip gateway_providers request gateway_settings.trusted_proxy_ips))
    × (resolve_service gateway_settings sent.path ≡ Errors.ok user)
reached-IsBearer_example =
    reached-IsBearer memory gateway_providers gateway_settings true request 100 blank sent
      private_path sent_run

outgoing_headers-IsTruthful_example :
    All (IsTruthful (codes "1.2.3.4")) (outgoing_headers request.headers (codes "1.2.3.4"))
outgoing_headers-IsTruthful_example = outgoing_headers-IsTruthful request.headers (codes "1.2.3.4")

abbrev answer_object : Json.Members
answer_object =
    Json.member (codes "tokens")
      (Json.object (Json.member (codes "refresh_token") (Json.string (codes "r")) Json.end))
      (Json.member (codes "refresh_token") (Json.string (codes "q")) Json.end)

abbrev admin_store : Store.Store
admin_store = record {
  users = record { id = 1; external_subject = codes "s"; is_active = true } ∷ [];
  profiles =
      record {
        user_id = 1;
        display_name = none;
        locale = codes "en-US";
        timezone = codes "UTC";
        avatar_url = none;
      }
      ∷ [];
  roles = record { id = 5; name = codes "user" } ∷ record { id = 6; name = codes "admin" } ∷ [];
  permissions = record { id = 7; name = codes "roles:assign" } ∷ [];
  role_permissions = (6, 7) ∷ [];
  user_roles = (1, 6) ∷ [];
  audit_events = [];
}

my_profile_stores_nothing_example :
    (Store.in_session (Endpoints.my_profile 9 (codes "new") none none) admin_store).1 ≡ admin_store
my_profile_stores_nothing_example = my_profile_stores_nothing 9 (codes "new") none none admin_store

-- A service that answers with tokens, and a codec that knows its text.
abbrev codec : Codec
codec = record {
  loads = λ t. if text_eq t (codes "tokens") then some (Json.object answer_object) else none;
  dumps =
      λ m. if is_some (Json.lookup (codes "refresh_token") m) then codes "leak" else codes "clean";
  contains = text_eq;
  is_utf8 = λ t. true;
  truthy = λ v. true;
}

abbrev token_service : UpstreamRequest → Option ProxiedResponse
token_service r = some (record {
  status_code = 200;
  body = codes "tokens";
  headers = (codes "content-type", codes "application/json") ∷ [];
})

abbrev browser_response : Response
browser_response = record {
  status_code = 200;
  body = codes "clean";
  cookie = set (codes "q") false;
}

assign_role_permitted_example :
    ((Store.in_session
          (Endpoints.assign_role 1 (codes "s") none none 1 (codes "user"))
          admin_store).0
        ≡ Store.ok tt
      × IsGranted 1
          (codes "s")
          none
          none
          1
          (codes "user")
          admin_store
          (Store.in_session
            (Endpoints.assign_role 1 (codes "s") none none 1 (codes "user"))
            admin_store).1)
    ⊎ ((e : Store.Error) × ((Store.in_session
            (Endpoints.assign_role 1 (codes "s") none none 1 (codes "user"))
            admin_store).0
          ≡ Store.err e)
        × ((Store.in_session
              (Endpoints.assign_role 1 (codes "s") none none 1 (codes "user"))
              admin_store).1
            ≡ admin_store))
assign_role_permitted_example =
    assign_role_permitted 1 (codes "s") none none 1 (codes "user") admin_store
