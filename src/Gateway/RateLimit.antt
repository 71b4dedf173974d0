-- ===== src/Gateway/RateLimit.antt =====
-- services/api-gateway/app/core/rate_limit.py; the limiter of the auth service
-- (services/auth-service/app/core/rate_limit.py) is the same.
pub mod Window
use backend_platform.Prelude.{ℕ, ◌/◌, Bool, true, false, not, ltb, ◌==◌, if◌then◌else◌}
use backend_platform.Prelude.Text.{Text}
use backend_platform.Redis.{Redis, counted, get}
use backend_platform.Redis.Keys.{rate_limit_key}
use backend_platform.Gateway.Errors.{Result, ok, err, service_unavailable, too_many_requests}
use backend_platform.Gateway.Requests.{Request, Settings, Providers}
use backend_platform.Gateway.Security.{get_client_ip}

module _ {S : Type 0} (redis : Redis S) (p : Providers) (settings : Settings) where
  -- The name of the counter of a client in the minute of a second.
  unfoldable pub counter_key : Request → Text → ℕ → Text
  counter_key request scope now =
      rate_limit_key scope
        (p.hmac settings.privacy_key_pepper (get_client_ip p request settings.trusted_proxy_ips))
        (p.number_text (now / 60))

  -- `check`, the server answering or not.
  unfoldable pub check : Bool → Request → Text → ℕ → ℕ → S → Result (Unit {0}) × S
  unfolding counter_key
  check false request scope limit_per_minute now s = (err service_unavailable, s)
  check true request scope limit_per_minute now s =
      let key = counter_key request scope now in
      let s1 = redis.incr s now key in
      let current = counted (get redis s1 now key) in
      let s2 = if current == 1 then redis.expire s1 now key 61 else s1 in
      (if ltb limit_per_minute current then err too_many_requests else ok tt, s2)
