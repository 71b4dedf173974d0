-- ===== src/Tests/Answers.antt =====
-- A login through its handler.
use backend_platform.Prelude.{◌≡◌, refl, not, true, none, some, is_some, ℕ, [], ◌∷◌}
use backend_platform.Prelude.Text.{Text, codes}
use backend_platform.Redis.Memory.{Memory, memory}
use backend_platform.Redis.Keys.{rate_limit_key, brute_force_lock_key}
use backend_platform.Auth.Errors.{Result, ok}
use backend_platform.Auth.World.{World}
use backend_platform.Auth.World
use backend_platform.Auth.Passwords.{verify_password}
use backend_platform.Auth.BruteForce.{assert_not_locked}
use backend_platform.Auth.Repositories.Users
use backend_platform.Auth.AuthService.Steps.{create_login_challenge}
use backend_platform.Auth.AuthService.Login.{
  LoginStepResult, log_in, accept_password, challenge_user,
}
use backend_platform.Auth.TokenService.{NewSession}
use backend_platform.Auth.Api.{
  RateLimits, LoginResponse, apply_rate_limit, rate_limit_dependency, login,
}
use backend_platform.Auth.Api.Answers.{login_answers}
use backend_platform.Tests.Doubles.{providers, settings, world}

abbrev limits : RateLimits
limits = record {
  login = 10;
  two_factor = 10;
  refresh = 30;
  revoke = 30;
  register = 5;
  password_reset = 5;
}

abbrev number_text : ℕ → Text
number_text n = n ∷ []

abbrev drawn : NewSession
drawn = record { family_id = 11; session_id = 12; refresh_jti = 13; access_jti = 14 }

abbrev limited : Result (Unit {0}) × World Memory
limited =
    rate_limit_dependency memory providers settings limits number_text true (codes "ip") none
      (codes "login") limits.login world

abbrev challenged : LoginStepResult
challenged = record { requires_2fa = true; challenge_id = some (9 ∷ []); tokens = none }

passed : limited.0 ≡ ok tt
unfolding rate_limit_dependency apply_rate_limit World.◌>>=◌ rate_limit_key
passed = refl

granted :
    (log_in memory providers settings
      (codes "A@b")
      (codes "pw")
      (some (codes "ip"))
      none
      drawn
      9
      limited.1).0
    ≡ ok challenged
unfolding log_in accept_password challenge_user create_login_challenge assert_not_locked
    verify_password World.◌>>=◌ Users.get_by_email rate_limit_dependency apply_rate_limit
    rate_limit_key brute_force_lock_key
granted = refl

login_answers_example :
    (r : LoginResponse) × ((login memory providers settings limits number_text true
        (codes "ip")
        none
        (codes "A@b")
        (codes "pw")
        drawn
        9
        world).0
      ≡ ok r)
    × (r.requires_2fa ≡ true)
    × (is_some r.tokens ≡ not r.requires_2fa)
login_answers_example =
    login_answers memory providers settings limits number_text true (codes "ip") none (codes "A@b")
      (codes "pw") drawn 9 world challenged passed granted
