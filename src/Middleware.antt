-- ===== src/Middleware.antt =====
-- What the services wrap around every request (services/*/app/core/middleware.py, which is the same
-- in all of them but for the pages of the gateway): the request's id and the headers that restrict a
-- browser. A response is Starlette's: an interface to its headers.
pub mod Guarded
use backend_platform.Prelude.{
  ℕ, ◌≡◌, refl, Bool, true, false, ◌||◌, Option, none, some, List, [], ◌∷◌, ltb, length,
  if◌then◌else◌,
}
use backend_platform.Prelude.Text.{
  Text, codes, is_empty, lower, member, starts_with, strip, text_eq,
}

-- `response.headers`: an assignment replaces what stood under the name, whose case does not matter.
pub record Headers (R : Type 0) : Type 0 where
  pub set : Text → Text → R → R
  pub get : Text → R → Option Text
  pub get-set : (name value : Text) (r : R) → get name (set name value r) ≡ some value
  pub get-set_other :
      (name other value : Text) (r : R)
      → text_eq (lower name) (lower other) ≡ false
      → get other (set name value r) ≡ get other r

-- What `await call_next(request)` comes to.
pub data Outcome (R : Type 0) : Type 0 where
  answered : R → Outcome R
  raised : Outcome R

-- What is done to the response of a request that was answered.
abbrev pub on_answer : {R : Type 0} → (R → R) → Outcome R → Outcome R
on_answer f (answered r) = answered (f r)
on_answer f raised = raised

pub on_answer-answered :
    {R : Type 0} (f : R → R) (o : Outcome R) (r : R)
    → on_answer f o ≡ answered r
    → (inner : R) × (o ≡ answered inner) × (f inner ≡ r)
on_answer-answered f (answered inner) r h = (inner, refl, cc)
on_answer-answered f raised r h = cc

-- `MAX_REQUEST_ID_LENGTH`
abbrev pub max_request_id_length : ℕ
max_request_id_length = 128

-- `_request_id_from_header`, with the text that `uuid4` draws
unfoldable pub request_id_from_header : Text → Option Text → Text
request_id_from_header drawn none = drawn
request_id_from_header drawn (some value) =
    let normalized = strip value in
    if is_empty normalized || ltb max_request_id_length (length normalized)
    then drawn
    else normalized

abbrev pub documentation_paths : List Text
documentation_paths =
    codes "/docs"
    ∷ codes "/docs/"
    ∷ codes "/docs/oauth2-redirect"
    ∷ codes "/openapi.json"
    ∷ codes "/redoc"
    ∷ codes "/redoc/"
    ∷ []

-- The policies that the middleware sends.
abbrev pub interface_policy : Text
interface_policy =
    codes
      "default-src 'self'; frame-ancestors 'none'; script-src 'self'; style-src 'self'; img-src 'self' data:; font-src 'self'; connect-src 'self';"

abbrev pub documentation_policy : Text
documentation_policy =
    codes
      "default-src 'self'; frame-ancestors 'none'; script-src 'self' 'unsafe-inline' https://cdn.jsdelivr.net; style-src 'self' 'unsafe-inline' https://cdn.jsdelivr.net; img-src 'self' data: https://cdn.jsdelivr.net; font-src 'self' data: https://cdn.jsdelivr.net; connect-src 'self';"

abbrev pub closed_policy : Text
closed_policy = codes "default-src 'none'; frame-ancestors 'none';"

abbrev pub is_interface : Text → Bool
is_interface path = text_eq path (codes "/ui") || starts_with path (codes "/ui/")

-- The policy for a path of the gateway, and of another service.
unfoldable pub gateway_policy : Text → Text
gateway_policy path =
    if is_interface path
    then interface_policy
    else if member path documentation_paths
    then documentation_policy
    else closed_policy

unfoldable pub service_policy : Text → Text
service_policy path =
    if member path documentation_paths then documentation_policy else closed_policy

-- The gateway, which has pages of its own, and the other services.
pub data Application : Type 0 where
  gateway : Application
  service : Application

abbrev pub policy_of : Application → Text → Text
policy_of gateway = gateway_policy
policy_of service = service_policy

module _ {R : Type 0} (headers : Headers R) where
  -- The headers that `RequestContextMiddleware` sets.
  abbrev pub named : Text → Text → R → R
  named request_id duration_ms response =
      headers.set (codes "X-Process-Time-Ms") duration_ms
        (headers.set (codes "X-Request-ID") request_id response)

  -- `RequestContextMiddleware.dispatch`; the handlers read the id from the request's state.
  unfoldable pub request_context : (Text → Outcome R) → Text → Text → Option Text → Outcome R
  request_context call_next drawn duration_ms given =
      let request_id = request_id_from_header drawn given in
      on_answer (named request_id duration_ms) (call_next request_id)

  -- The headers that `SecurityHeadersMiddleware` sets.
  abbrev pub restricted : Text → R → R
  restricted policy response = headers.set (codes "Content-Security-Policy") policy (
      headers.set (codes "Permissions-Policy") (codes "geolocation=(), camera=(), microphone=()") (
        headers.set (codes "Referrer-Policy") (codes "same-origin") (
          headers.set (codes "X-Frame-Options") (codes "DENY")
            (headers.set (codes "X-Content-Type-Options") (codes "nosniff") response))))

  -- `SecurityHeadersMiddleware.dispatch`
  unfoldable pub security_headers : (Text → Text) → Text → Outcome R → Outcome R
  security_headers policy path outcome = on_answer (restricted (policy path)) outcome

  -- Both, as the applications add them: the security headers go around the request's id. What lies
  -- outside of the two is no part of this: CORSMiddleware, which answers preflights by itself, and the
  -- framework's answer to an exception that nothing handles.
  unfoldable pub served :
      (Text → Text) → (Text → Outcome R) → Text → Text → Text → Option Text → Outcome R
  served policy call_next drawn duration_ms path given =
      security_headers policy path (request_context call_next drawn duration_ms given)
