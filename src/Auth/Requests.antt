-- ===== src/Auth/Requests.antt =====
-- The requests that the service answers (services/auth-service/app/api/v1), each in a session of
-- its own, and the states that they lead to. What a request draws comes with it.
pub mod Tables
pub mod Resets
pub mod Kept
pub mod Reached
pub mod Families
pub mod Alive
pub mod SignedIn
pub mod SingleUse
use backend_platform.Prelude.{ℕ, ◌+◌, Bool, Option, List}
use backend_platform.Prelude.Text.{Text}
use backend_platform.Redis.{Redis}
use backend_platform.Auth.Errors.{Result}
use backend_platform.Auth.Settings.{Settings}
use backend_platform.Auth.Providers.{Providers}
use backend_platform.Auth.World.{World, Action, pure, ◌>>◌, in_session}
use backend_platform.Auth.TokenService.{NewSession}
use backend_platform.Auth.TwoFactorService.{DrawnCode}
use backend_platform.Auth.AuthService.Steps.{register}
use backend_platform.Auth.AuthService.Login.{log_in}
use backend_platform.Auth.AuthService.Session.{verify_login_challenge}
use backend_platform.Auth.AuthService.Refresh.{refresh_tokens, revoke_refresh_token}
use backend_platform.Auth.PasswordReset.{Delivery, request_reset, reset_password}
use backend_platform.Auth.Endpoints.{
  setup_two_factor, enable_two_factor, disable_two_factor, regenerate_codes,
}

pub data Request : Type 0 where
  registering : Text → Text → ℕ → Text → Request
  logging_in : Text → Text → NewSession → ℕ → Request
  answering : Text → Option Text → Option Text → NewSession → Request
  refreshing : Text → ℕ → ℕ → Request
  revoking : Text → Bool → Request
  forgetting : Text → ℕ → Delivery → Request
  resetting : Text → Text → Text → Text → Request
  setting_up : Text → Text → Text → List DrawnCode → Request
  enabling : Text → Text → Request
  disabling : Text → Text → Option Text → Option Text → Request
  regenerating : Text → Option Text → Option Text → List DrawnCode → Request

module _ {S : Type 0} (redis : Redis S) (p : Providers) (settings : Settings) where
  unfoldable pub handle : Option Text → Option Text → Request → Action S (Unit {0})
  handle ip ua (registering email password id salt) =
      register redis p settings email password ip ua id salt
  handle ip ua (logging_in email password drawn challenge) =
      log_in redis p settings email password ip ua drawn challenge >> pure tt
  handle ip ua (answering challenge totp backup drawn) =
      verify_login_challenge redis p settings challenge totp backup ip ua drawn >> pure tt
  handle ip ua (refreshing token new_jti access_jti) =
      refresh_tokens redis p settings ip ua token new_jti access_jti >> pure tt
  handle ip ua (revoking token family) = revoke_refresh_token redis p settings ip ua token family
  handle ip ua (forgetting email drawn delivery) =
      request_reset redis p settings ip ua email drawn delivery >> pure tt
  handle ip ua (resetting email code password salt) =
      reset_password redis p settings ip ua email code password salt
  handle ip ua (setting_up authorization secret nonce drawn) =
      setup_two_factor redis p settings authorization ip ua secret nonce drawn >> pure tt
  handle ip ua (enabling authorization totp) =
      enable_two_factor redis p settings authorization ip ua totp >> pure tt
  handle ip ua (disabling authorization password totp backup) =
      disable_two_factor redis p settings authorization ip ua password totp backup
  handle ip ua (regenerating authorization totp backup drawn) =
      regenerate_codes redis p settings authorization ip ua totp backup drawn >> pure tt

  unfoldable pub serve : Option Text → Option Text → Request → World S → Result (Unit {0}) × World S
  serve ip ua request = in_session (handle ip ua request)

  -- The states that a sequence of requests leads to, with time passing between them.
  pub data Reaches (w : World S) : World S → Type 0 where
    here : Reaches w w
    served :
        {v : World S} (ip ua : Option Text) (request : Request)
        → Reaches w v
        → Reaches w (serve ip ua request v).1
    later :
        {v : World S} (seconds : ℕ) → Reaches w v → Reaches w (record v { now = v.now + seconds })
