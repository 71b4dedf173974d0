-- ===== src/Auth/Api.antt =====
-- The handlers of services/auth-service/app/api/v1/auth.py and tokens.py, behind the rate limit of
-- app/core/rate_limit.py. The client's address is what `get_client_ip` finds, `up` says whether the
-- server of the counters answers, and `number_text` is `str` of a number. The checks that the request
-- models make of a body's fields are left out.
pub mod Answers
use backend_platform.Prelude.{
  ℕ, ◌/◌, Bool, true, false, Option, none, some, ltb, ◌==◌, if◌then◌else◌,
}
use backend_platform.Prelude.Text.{Text, codes}
use backend_platform.Redis.{Redis, counted, get}
use backend_platform.Redis.Keys.{rate_limit_key}
use backend_platform.Auth.Errors.{
  Result, ok, err, too_many_requests, service_unavailable, runtime_error,
}
use backend_platform.Auth.Settings.{Settings}
use backend_platform.Auth.Providers.{Providers}
use backend_platform.Auth.World.{
  Action, pure, lift, raise, raise_if, on_redis, or_raise, branch, ◌>>=◌, ◌>>◌,
}
use backend_platform.Auth.TokenService.{TokenPair, NewSession}
use backend_platform.Auth.AuthService.Login.{LoginStepResult, log_in}
use backend_platform.Auth.AuthService.Session.{verify_login_challenge}
use backend_platform.Auth.AuthService.Steps
use backend_platform.Auth.AuthService.Refresh
use backend_platform.Auth.PasswordReset.{Delivery}
use backend_platform.Auth.PasswordReset

-- The limits per minute (app/core/config.py).
pub record RateLimits : Type 0 where
  pub login : ℕ
  pub two_factor : ℕ
  pub refresh : ℕ
  pub revoke : ℕ
  pub register : ℕ
  pub password_reset : ℕ

pub record TokenPairResponse : Type 0 where
  pub access_token : Text
  pub refresh_token : Text
  pub expires_in : ℕ

pub record LoginResponse : Type 0 where
  pub requires_2fa : Bool
  pub challenge_id : Option Text
  pub tokens : Option TokenPairResponse

abbrev pub pair_response : TokenPair → TokenPairResponse
pair_response pair = record {
  access_token = pair.access_token;
  refresh_token = pair.refresh_token;
  expires_in = pair.access_expires_in;
}

module _ {S : Type 0} (redis : Redis S) where
  -- INCR, and EXPIRE for the first request of a window; the number of requests in it
  abbrev pub count_request : Text → ℕ → ℕ → S → ℕ × S
  count_request key window_seconds now s =
      let s1 = redis.incr s now key in
      let current = counted (get redis s1 now key) in
      (current, if current == 1 then redis.expire s1 now key window_seconds else s1)

  -- `_apply_rate_limit`
  unfoldable pub apply_rate_limit : Bool → (ℕ → Text) → ℕ → ℕ → Action S (Unit {0})
  apply_rate_limit up key limit window_seconds =
      branch up
        (do
          current ← on_redis (λ now s. count_request (key now) window_seconds now s)
          raise_if (ltb limit current) too_many_requests)
        (raise service_unavailable)

module _ {S : Type 0} (redis : Redis S) (p : Providers) (settings : Settings) (limits : RateLimits)
    (number_text : ℕ → Text) (up : Bool) (client_ip : Text) (user_agent : Option Text) where
  -- `rate_limit_dependency`
  unfoldable pub rate_limit_dependency : Text → ℕ → Action S (Unit {0})
  rate_limit_dependency scope limit_per_minute =
      apply_rate_limit redis up
        (λ now.
          rate_limit_key scope (p.hmac settings.privacy_key_pepper client_ip)
            (number_text (now / 60)))
        limit_per_minute 61

  unfoldable pub register : Text → Text → ℕ → Text → Action S (Unit {0})
  register email password id salt = do
    rate_limit_dependency (codes "register") limits.register
    Steps.register redis p settings email password (some client_ip) user_agent id salt

  -- What `login` answers once the service has returned.
  unfoldable pub login_response : LoginStepResult → Result LoginResponse
  login_response result =
      if result.requires_2fa
      then ok (record { requires_2fa = true; challenge_id = result.challenge_id; tokens = none })
      else elim result.tokens [
        | none ↦ err runtime_error
        | some tokens ↦ ok (record {
          requires_2fa = false;
          challenge_id = none;
          tokens = some (pair_response tokens);
        })
      ]

  unfoldable pub login : Text → Text → NewSession → ℕ → Action S LoginResponse
  unfolding login_response
  login email password drawn challenge = do
    rate_limit_dependency (codes "login") limits.login
    result ← log_in redis p settings email password (some client_ip) user_agent drawn challenge
    lift (login_response result)

  unfoldable pub verify_login_2fa :
      Text → Option Text → Option Text → NewSession → Action S TokenPairResponse
  verify_login_2fa challenge_id totp_code backup_code drawn = do
    rate_limit_dependency (codes "2fa") limits.two_factor
    token_pair ←
        verify_login_challenge redis p settings challenge_id totp_code backup_code (some client_ip)
          user_agent drawn
    pure (pair_response token_pair)

  -- Whether a mail was sent.
  unfoldable pub request_password_reset : Text → ℕ → Delivery → Action S Bool
  request_password_reset email drawn delivery = do
    rate_limit_dependency (codes "password_reset") limits.password_reset
    result ←
        PasswordReset.request_reset redis p settings (some client_ip) user_agent email drawn
          delivery
    pure result.email_sent

  unfoldable pub reset_password : Text → Text → Text → Text → Action S (Unit {0})
  reset_password email code password salt = do
    rate_limit_dependency (codes "password_reset_confirm") limits.password_reset
    PasswordReset.reset_password redis p settings (some client_ip) user_agent email code password
        salt

  unfoldable pub refresh_tokens : Text → ℕ → ℕ → Action S TokenPairResponse
  refresh_tokens refresh_token new_jti access_jti = do
    rate_limit_dependency (codes "refresh") limits.refresh
    token_pair ←
        Refresh.refresh_tokens redis p settings (some client_ip) user_agent refresh_token new_jti
          access_jti
    pure (pair_response token_pair)

  unfoldable pub revoke_token : Text → Bool → Action S (Unit {0})
  revoke_token refresh_token revoke_family = do
    rate_limit_dependency (codes "revoke") limits.revoke
    Refresh.revoke_refresh_token redis p settings (some client_ip) user_agent refresh_token
        revoke_family
