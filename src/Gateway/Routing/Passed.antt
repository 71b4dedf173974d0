-- ===== src/Gateway/Routing/Passed.antt =====
-- The headers that go to the services and to the clients (services/api-gateway/app/services/routing_service.py).
use backend_platform.Prelude.{
  ◌≡◌, refl, true, false, List, [], ◌∷◌, ◌++◌, All, Bool-cases, inl, inr, arith,
}
use backend_platform.Prelude.Text.{Text, codes, is_empty, lower, member}
use backend_platform.Gateway.Requests.{Headers}
use backend_platform.Gateway.Routing.{
  is_dropped_request_header, is_dropped_response_header, sanitize_request_headers,
  sanitize_response_headers, outgoing_headers,
}

sanitize_request_headers-clean :
    (hs : Headers) → All (λ h. is_dropped_request_header h.0 ≡ false) (sanitize_request_headers hs)
unfolding sanitize_request_headers
sanitize_request_headers-clean [] = tt
sanitize_request_headers-clean ((k, v) ∷ hs) = elim (Bool-cases (is_dropped_request_header k)) [
  | inl e ↦ rw e (sanitize_request_headers-clean hs)
  | inr e ↦ rw e (e, sanitize_request_headers-clean hs)
]

-- No answer carries a hop-by-hop header, a cookie of the service or its software's name.
pub sanitize_response_headers-clean :
    (hs : Headers)
    → All (λ h. is_dropped_response_header h.0 ≡ false) (sanitize_response_headers hs)
unfolding sanitize_response_headers
sanitize_response_headers-clean [] = tt
sanitize_response_headers-clean ((k, v) ∷ hs) = elim (Bool-cases (is_dropped_response_header k)) [
  | inl e ↦ rw e (sanitize_response_headers-clean hs)
  | inr e ↦ rw e (e, sanitize_response_headers-clean hs)
]

-- The names under which a header tells who the client is.
abbrev address_names : List Text
address_names = codes "x-forwarded-for" ∷ codes "x-real-ip" ∷ codes "forwarded" ∷ []

-- A header that tells who the client is tells it under one name, as the gateway found it.
abbrev pub IsTruthful : Text → Text × Text → Type 0
IsTruthful client_ip h =
    member (lower h.0) address_names ≡ true
    → (lower h.0 ≡ codes "x-forwarded-for") × (h.1 ≡ client_ip)

dropped_address :
    (name : Text)
    → is_dropped_request_header name ≡ false
    → member (lower name) address_names ≡ false
dropped_address name h = ground (arith, h)

dropped-IsTruthful :
    (client_ip : Text) (hs : Headers)
    → All (λ h. is_dropped_request_header h.0 ≡ false) hs
    → All (IsTruthful client_ip) hs
dropped-IsTruthful client_ip [] a = tt
dropped-IsTruthful client_ip ((k, v) ∷ hs) (a, as_) =
    (λ e. absurd (ground (arith, e, dropped_address k a)), dropped-IsTruthful client_ip hs as_)

IsTruthful-append :
    (client_ip : Text) (hs : Headers)
    → All (IsTruthful client_ip) hs
    → All (IsTruthful client_ip) (hs ++ ((codes "X-Forwarded-For", client_ip) ∷ []))
IsTruthful-append client_ip [] a = (λ _. (refl, refl), tt)
IsTruthful-append client_ip (h ∷ hs) (a, as_) = (a, IsTruthful-append client_ip hs as_)

-- Whatever a client writes into its headers, a service is sent no header named Forwarded or
-- X-Real-IP, and each that is named X-Forwarded-For has the client's address as the gateway found it,
-- the names in upper or lower case.
pub outgoing_headers-IsTruthful :
    (hs : Headers) (client_ip : Text) → All (IsTruthful client_ip) (outgoing_headers hs client_ip)
unfolding outgoing_headers
outgoing_headers-IsTruthful hs client_ip = elim (Bool-cases (is_empty client_ip)) [
  | inl e ↦ rw e (dropped-IsTruthful client_ip _ (sanitize_request_headers-clean hs))
  | inr e ↦ rw e (
      IsTruthful-append client_ip _
        (dropped-IsTruthful client_ip _ (sanitize_request_headers-clean hs)))
]
