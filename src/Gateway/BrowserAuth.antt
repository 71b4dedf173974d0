-- ===== src/Gateway/BrowserAuth.antt =====
-- services/api-gateway/app/api/v1/browser_auth.py: refresh tokens in cookies and not in the body.
pub mod Hidden
use backend_platform.Prelude.{
  ℕ, Bool, true, false, not, ◌&&◌, Option, none, some, is_some, [], ltb, if◌then◌else◌,
}
use backend_platform.Prelude.Text.{Text, codes, is_empty, lower}
use backend_platform.Redis.{Redis}
use backend_platform.Gateway.Errors.{Result, ok, err, unhandled, ◌>>=◌, ◌>>◌}
use backend_platform.Gateway.Requests.{Headers, header, Request, Settings, Providers}
use backend_platform.Gateway.Security.{effective_refresh_cookie_secure, get_client_ip}
use backend_platform.Gateway.RateLimit.{check}
use backend_platform.Gateway.Routing.{UpstreamRequest, ProxiedResponse, forward}
use backend_platform.Gateway.Json.{
  Json, string, object, scalar, Members, end, member, lookup, remove, replace, string_of,
}

abbrev pub refresh_name : Text
refresh_name = codes "refresh_token"

-- `nested` where `data["tokens"]` is an object
abbrev pub nested_of : Option Json → Option Members
nested_of none = none
nested_of (some (object m)) = some m
nested_of (some (string _)) = none
nested_of (some (scalar _)) = none

-- The first part of `_strip_refresh_from_json`, on the nested object.
unfoldable pub strip_nested : Members → Option Members → Members × Option Text
strip_nested out none = (out, none)
strip_nested out (some nested) =
    let rt = string_of (lookup refresh_name nested) in
    (
      (if is_some rt
          then replace (codes "tokens") (object (remove refresh_name nested)) out
          else out),
      rt,
    )

-- The second part, on the object itself.
unfoldable pub strip_top : Members → Option Text → Members × Option Text
strip_top out refresh =
    let rt_top = string_of (lookup refresh_name out) in
    if is_some rt_top then (remove refresh_name out, rt_top) else (out, refresh)

-- `_strip_refresh_from_json`
unfoldable pub strip_refresh_from_json : Members → Members × Option Text
strip_refresh_from_json data_ =
    let (out, refresh) = strip_nested data_ (nested_of (lookup (codes "tokens") data_)) in
    strip_top out refresh

-- What becomes of the browser's cookie, with its `Secure` mark.
pub data Cookie : Type 0 where
  untouched : Cookie
  set : Text → Bool → Cookie
  cleared : Bool → Cookie

pub record Response : Type 0 where
  pub status_code : ℕ
  pub body : Text
  pub cookie : Cookie

-- The JSON library: a text's value, `none` where it is not JSON in UTF-8, and an object's text; and
-- whether a text contains another, whether bytes are UTF-8 and `bool` of a value.
pub record Codec : Type 0 where
  pub loads : Text → Option Json
  pub dumps : Members → Text
  pub contains : Text → Text → Bool
  pub is_utf8 : Text → Bool
  pub truthy : Json → Bool

-- The object that a text stands for, if it is one.
abbrev pub object_of : Option Json → Option Members
object_of = nested_of

abbrev pub cookie_for : Request → Settings → Providers → Bool → Option Text → Cookie
cookie_for request settings p clear_cookie_on_ok refresh =
    let secure = effective_refresh_cookie_secure p request settings in
    if clear_cookie_on_ok
    then cleared secure
    else elim refresh [ none ↦ untouched | some t ↦ if is_empty t then untouched else set t secure ]

abbrev pub content_type : Headers → Text
content_type headers = elim (header (codes "content-type") headers) [ none ↦ [] | some t ↦ lower t ]

module _ {S : Type 0} (codec : Codec) (redis : Redis S) (p : Providers) (settings : Settings)
    (available : Bool) (upstream : UpstreamRequest → Option ProxiedResponse) where
  -- The answer to an object that came back with success.
  unfoldable pub rewritten : Request → Bool → Bool → ℕ → Members → Response
  rewritten request set_cookie_on_ok clear_cookie_on_ok status parsed =
      let stripped = strip_refresh_from_json parsed in
      record {
        status_code = status;
        body = codec.dumps (if set_cookie_on_ok then stripped.0 else parsed);
        cookie =
            cookie_for request settings p clear_cookie_on_ok
              (if set_cookie_on_ok then stripped.1 else none);
      }

  -- Any other answer goes through as it is.
  unfoldable pub passed_through : ProxiedResponse → Response
  passed_through proxied = record {
    status_code = proxied.status_code;
    body = proxied.body;
    cookie = untouched;
  }

  unfoldable pub answer : Request → Bool → Bool → ProxiedResponse → Response
  answer request set_cookie_on_ok clear_cookie_on_ok proxied =
      let parsed = object_of (codec.loads proxied.body) in
      if ltb proxied.status_code 400
        && codec.contains (codes "application/json") (content_type proxied.headers)
      then elim parsed [
        | none ↦ passed_through proxied
        | some m ↦ rewritten request set_cookie_on_ok clear_cookie_on_ok proxied.status_code m
      ]
      else passed_through proxied

  -- `_forward_json`
  unfoldable pub forward_json : Request → Text → Text → Bool → Bool → ℕ → S → Result Response × S
  forward_json request upstream_path body set_cookie_on_ok clear_cookie_on_ok now s =
      let (limited, s') =
        check redis p settings available request (codes "public_auth")
          settings.rate_limit_public_auth_per_minute now s in
      (
        (do
          limited
          proxied ←
              forward settings upstream (codes "POST") upstream_path [] request.headers body
                (get_client_ip p request settings.trusted_proxy_ips)
          ok (answer request set_cookie_on_ok clear_cookie_on_ok proxied)),
        s',
      )

  unfoldable pub browser_register : Request → ℕ → S → Result Response × S
  browser_register request =
      forward_json request (codes "/v1/auth/register") request.body false false

  unfoldable pub browser_login : Request → ℕ → S → Result Response × S
  browser_login request = forward_json request (codes "/v1/auth/login") request.body true false

  unfoldable pub browser_login_2fa : Request → ℕ → S → Result Response × S
  browser_login_2fa request =
      forward_json request (codes "/v1/auth/login/2fa") request.body true false

  -- The answer to a request without the cookie; its text is left out.
  abbrev pub missing_cookie : Response
  missing_cookie = record { status_code = 401; body = []; cookie = untouched }

  -- `if not refresh_from_cookie`
  unfoldable pub with_cookie :
      Option Text → (Text → S → Result Response × S) → S → Result Response × S
  with_cookie none k s = (ok missing_cookie, s)
  with_cookie (some refresh_from_cookie) k s =
      if is_empty refresh_from_cookie then (ok missing_cookie, s) else k refresh_from_cookie s

  unfoldable pub browser_refresh : Request → ℕ → S → Result Response × S
  browser_refresh request now = with_cookie request.refresh_cookie λ refresh_from_cookie.
      forward_json request (codes "/v1/tokens/refresh")
        (codec.dumps (member refresh_name (string refresh_from_cookie) end)) true false now

  -- `bool(extra["revoke_family"])` where it is there
  abbrev asked_family : Option Members → Bool
  asked_family none = true
  asked_family (some m) = elim (lookup (codes "revoke_family") m) [
    | none ↦ true
    | some v ↦ codec.truthy v
  ]

  -- What the body says: no body, a text that is not JSON and a value that is no object ask for the
  -- whole family. Bytes that are not UTF-8 raise `UnicodeDecodeError`, which is not handled here.
  unfoldable pub revoke_family_of : Text → Result Bool
  revoke_family_of raw_body =
      if is_empty raw_body
      then ok true
      else if not (codec.is_utf8 raw_body)
      then err unhandled
      else ok (asked_family (object_of (codec.loads raw_body)))

  unfoldable pub revoke_with : Request → ℕ → Result Bool → Text → S → Result Response × S
  revoke_with request now (err e) refresh_from_cookie s = (err e, s)
  revoke_with request now (ok revoke_family) refresh_from_cookie s =
      forward_json request (codes "/v1/tokens/revoke")
        (codec.dumps (
          member refresh_name (string refresh_from_cookie) (
            member (codes "revoke_family")
              (scalar (if revoke_family then codes "true" else codes "false")) end)))
        false true now s

  unfoldable pub browser_revoke : Request → ℕ → S → Result Response × S
  unfolding revoke_with
  browser_revoke request now =
      with_cookie request.refresh_cookie (revoke_with request now (revoke_family_of request.body))
