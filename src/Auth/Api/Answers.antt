-- ===== src/Auth/Api/Answers.antt =====
-- What a login is answered (services/auth-service/app/api/v1/auth.py).
use backend_platform.Prelude.{
  ℕ, ◌≡◌, inl, inr, refl, Bool, true, false, not, Option, none, some, is_some, arith, Bool-cases,
  Option-cases,
}
use backend_platform.Prelude.Text.{Text, codes}
use backend_platform.Redis.{Redis}
use backend_platform.Auth.Errors.{ok}
use backend_platform.Auth.Settings.{Settings}
use backend_platform.Auth.Providers.{Providers}
use backend_platform.Auth.World.{World, ◌>>=◌}
use backend_platform.Auth.TokenService.{NewSession}
use backend_platform.Auth.AuthService.Login.{LoginStepResult, log_in}
use backend_platform.Auth.AuthService.Outcomes.{log_in-IsAdmitted}
use backend_platform.Auth.Api.{
  LoginResponse, RateLimits, pair_response, rate_limit_dependency, login_response, login,
}

module _ {S : Type 0} (redis : Redis S) (p : Providers) (settings : Settings) (limits : RateLimits)
    (number_text : ℕ → Text) (up : Bool) (ip : Text) (ua : Option Text) where
  -- The answer to a step of a login that hands out tokens exactly where it asks for no second factor.
  response_whole :
      (result : LoginStepResult)
      → is_some result.tokens ≡ not result.requires_2fa
      → (r : LoginResponse) × (login_response redis p settings limits number_text up ip ua result
          ≡ ok r)
        × (r.requires_2fa ≡ result.requires_2fa)
        × (is_some r.tokens ≡ not r.requires_2fa)
  unfolding login_response
  response_whole result whole = elim (Bool-cases result.requires_2fa) [
    | inl second ↦ (
      record { requires_2fa = true; challenge_id = result.challenge_id; tokens = none },
      ground (arith, second),
      ground (arith, second),
      refl,
    )
    | inr single ↦ elim (Option-cases result.tokens) [
      | inl bare ↦ absurd (ground (arith, whole, bare, single))
      | inr (pair, there) ↦ (
        record { requires_2fa = false; challenge_id = none; tokens = some (pair_response pair) },
        ground (arith, single, there),
        ground (arith, single),
        refl,
      )
    ]
  ]

  -- A login that the limiter lets through and the service grants is answered, with tokens exactly
  -- where no second factor is asked for: the state that the handler calls unexpected never occurs.
  pub login_answers :
      (email password : Text) (drawn : NewSession) (challenge : ℕ) (w : World S)
      (result : LoginStepResult)
      → let limited =
          rate_limit_dependency redis p settings limits number_text up ip ua
            (codes "login")
            limits.login in
        (limited w).0 ≡ ok tt
        → (log_in redis p settings email password (some ip) ua drawn challenge (limited w).1).0
          ≡ ok result
        → (r : LoginResponse) × ((login redis p settings limits number_text up ip ua email password
              drawn challenge w).0
            ≡ ok r)
          × (r.requires_2fa ≡ result.requires_2fa)
          × (is_some r.tokens ≡ not r.requires_2fa)
  unfolding login ◌>>=◌
  login_answers email password drawn challenge w result passed granted =
      let limited =
        rate_limit_dependency redis p settings limits number_text up ip ua (codes "login")
          limits.login in
      let admitted =
        log_in-IsAdmitted redis p settings email password (some ip) ua drawn challenge (limited w).1
          result granted in
      let (r, answer, second, whole) =
        response_whole result (ground (arith, admitted.tokens, admitted.second_factor)) in
      (r, ground (arith, passed, granted, answer), second, whole)
