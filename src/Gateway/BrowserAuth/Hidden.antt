-- ===== src/Gateway/BrowserAuth/Hidden.antt =====
-- What a browser is sent (services/api-gateway/app/api/v1/browser_auth.py).
use backend_platform.Prelude.{
  ℕ, ◌≡◌, refl, Bool, true, false, Option, none, some, is_some, arith, Option-cases, inl, inr, [],
  ◌&&◌, ltb, if◌then◌else◌,
}
use backend_platform.Prelude.Text.{Text, codes, is_empty, text_eq, text_eq_iff}
use backend_platform.Gateway.Json.{
  Json, object, Members, end, member, lookup, remove, replace, string_of,
}
use backend_platform.Redis.{Redis}
use backend_platform.Gateway.Errors.{Result, ok, err, unhandled}
use backend_platform.Gateway.Requests.{Request, Settings, Providers}
use backend_platform.Gateway.Routing.{UpstreamRequest, ProxiedResponse, forward}
use backend_platform.Gateway.Security.{get_client_ip}
use backend_platform.Gateway.BrowserAuth.{
  Codec, browser_revoke, revoke_family_of, with_cookie, revoke_with, refresh_name, nested_of,
  strip_nested, strip_top, strip_refresh_from_json, Response, untouched, cookie_for, content_type,
  object_of, missing_cookie, browser_login, browser_login_2fa, browser_refresh,
}

lookup-remove : (key : Text) (m : Members) → lookup key (remove key m) ≡ none
unfolding lookup remove
lookup-remove key end = refl
lookup-remove key (member k v m) = ground (arith, lookup-remove key m)

lookup-remove_other :
    (key other : Text) (m : Members)
    → text_eq key other ≡ false
    → lookup other (remove key m) ≡ lookup other m
unfolding lookup remove
lookup-remove_other key other end h = refl
lookup-remove_other key other (member k v m) h = ground (
  arith,
  h,
  lookup-remove_other key other m h,
  text_eq_iff k key,
  text_eq_iff k other,
  text_eq_iff key other,
)

lookup-replace :
    (key : Text) (v : Json) (m : Members)
    → is_some (lookup key m) ≡ true
    → lookup key (replace key v m) ≡ some v
unfolding lookup replace
lookup-replace key v end h = absurd (ground (arith, h))
lookup-replace key v (member k u m) h = ground (arith, h, lookup-replace key v m)

-- An object in which no refresh token can be read, at the top or in its tokens.
pub record IsHidden (m : Members) : Type 0 where
  pub top : string_of (lookup refresh_name m) ≡ none
  pub nested :
      (n : Members)
      → nested_of (lookup (codes "tokens") m) ≡ some n
      → string_of (lookup refresh_name n) ≡ none

strip_top-IsHidden :
    (m : Members) (r : Option Text)
    → ((n : Members)
        → nested_of (lookup (codes "tokens") m) ≡ some n
        → string_of (lookup refresh_name n) ≡ none)
    → IsHidden (strip_top m r).0
unfolding strip_top
strip_top-IsHidden m r h = elim (Option-cases (string_of (lookup refresh_name m))) [
  | inl e ↦ rw e (record { top = e; nested = h })
  | inr (t, e) ↦ rw e (record {
    top = rw (lookup-remove refresh_name m) refl;
    nested = λ n e'. h n (rw (lookup-remove_other refresh_name (codes "tokens") m refl) at e');
  })
]

strip_nested-hides :
    (m : Members) (found : Option Members)
    → nested_of (lookup (codes "tokens") m) ≡ found
    → (n : Members) → nested_of (lookup (codes "tokens") (strip_nested m found).0) ≡ some n
    → string_of (lookup refresh_name n) ≡ none
unfolding strip_nested
strip_nested-hides m none e n h = absurd (ground (arith, e, h))
strip_nested-hides m (some k) e n h = elim (Option-cases (string_of (lookup refresh_name k))) [
  | inl plain ↦ ground (arith, plain, e, h)
  | inr (t, shown) ↦ ground (
    arith,
    shown,
    e,
    h,
    lookup-remove refresh_name k,
    lookup-replace (codes "tokens") (object (remove refresh_name k)) m (ground (arith, e)),
  )
]

-- In what is left of any object once it is stripped, `refresh_token` is no string, neither at the
-- top nor in an object under `tokens`.
pub strip_refresh_from_json-IsHidden : (m : Members) → IsHidden (strip_refresh_from_json m).0
unfolding strip_refresh_from_json
strip_refresh_from_json-IsHidden m =
    strip_top-IsHidden _ _ (strip_nested-hides m (nested_of (lookup (codes "tokens") m)) refl)

module _ {S : Type 0} (codec : Codec) (redis : Redis S) (p : Providers) (settings : Settings)
    (available : Bool) (upstream : UpstreamRequest → Option ProxiedResponse) where
  -- The handlers whose answers hold tokens, and the paths that they ask.
  pub data TokenHandler : Type 0 where
    on_login on_login_2fa on_refresh : TokenHandler

  abbrev pub handle : TokenHandler → Request → ℕ → S → Result Response × S
  handle on_login = browser_login codec redis p settings available upstream
  handle on_login_2fa = browser_login_2fa codec redis p settings available upstream
  handle on_refresh = browser_refresh codec redis p settings available upstream

  abbrev pub asked_path : TokenHandler → Text
  asked_path on_login = codes "/v1/auth/login"
  asked_path on_login_2fa = codes "/v1/auth/login/2fa"
  asked_path on_refresh = codes "/v1/tokens/refresh"

  -- What the service is asked, with some body.
  abbrev reply : Text → Request → Text → Result ProxiedResponse
  reply path request body =
      forward settings upstream (codes "POST") path [] request.headers body
        (get_client_ip p request settings.trusted_proxy_ips)

  -- A JSON object that came back with success.
  abbrev success_object : ProxiedResponse → Option Members
  success_object proxied =
      if ltb proxied.status_code 400
        && codec.contains (codes "application/json") (content_type proxied.headers)
      then object_of (codec.loads proxied.body)
      else none

  -- An answer to a browser: that a cookie is missing; an object without the refresh token, which goes
  -- into the cookie; or what is no success with a JSON object, as the service sent it.
  pub data IsSafe (path : Text) (request : Request) (r : Response) : Type 0 where
    no_cookie : r ≡ missing_cookie codec redis p settings available upstream → IsSafe path request r
    stripped :
        (body : Text) (proxied : ProxiedResponse) (m n : Members) (token : Option Text)
        → reply path request body ≡ ok proxied
        → success_object proxied ≡ some m
        → strip_refresh_from_json m ≡ (n, token)
        → IsHidden n
        → r.body ≡ codec.dumps n
        → r.cookie ≡ cookie_for request settings p false token
        → IsSafe path request r
    passed :
        (body : Text) (proxied : ProxiedResponse)
        → reply path request body ≡ ok proxied
        → success_object proxied ≡ none
        → r.body ≡ proxied.body
        → r.cookie ≡ untouched
        → IsSafe path request r

  -- A logout whose body is not UTF-8 fails with an exception that nothing handles, before a service is
  -- asked: the session stays as it was.
  pub undecodable_logout_fails :
      (request : Request) (now : ℕ) (s : S) (token : Text)
      → request.refresh_cookie ≡ some token
      → is_empty token ≡ false
      → is_empty request.body ≡ false
      → codec.is_utf8 request.body ≡ false
      → browser_revoke codec redis p settings available upstream request now s ≡ (err unhandled, s)
  unfolding browser_revoke revoke_family_of with_cookie revoke_with
  undecodable_logout_fails request now s token cookie full there bad =
      ground (arith, cookie, full, there, bad)
