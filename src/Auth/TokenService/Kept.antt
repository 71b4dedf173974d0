-- ===== src/Auth/TokenService/Kept.antt =====
-- What is true of the table of refresh tokens, and kept by each operation of
-- services/auth-service/app/services/refresh_token_service.py.
use backend_platform.Prelude.{ℕ, ◌≡◌, Bool, Option}
use backend_platform.Prelude.Text.{Text}
use backend_platform.Auth.Db.{Db}
use backend_platform.Auth.Settings.{Settings}
use backend_platform.Auth.Providers.{Providers}
use backend_platform.Auth.World.Keeps.{Keeps}
use backend_platform.Auth.Repositories.RefreshTokens
use backend_platform.Auth.TokenService.{NewSession, issue_for_user, rotate, revoke}

-- A property that reads no other table, with a rule for each operation that writes this one.
pub record TokenProperty (S : Type 0) (p : Providers) (settings : Settings) (P : Db → Type 0)
    : Type 0 where
  pub same : (db db' : Db) → db'.refresh_tokens ≡ db.refresh_tokens → P db → P db'
  pub issue :
      (user : ℕ) (ip ua : Option Text) (drawn : NewSession)
      → Keeps P (issue_for_user {S = S} p settings user ip ua drawn)
  pub rotates :
      (raw : Text) (ip ua : Option Text) (new_jti access_jti : ℕ)
      → Keeps P (rotate {S = S} p settings raw ip ua new_jti access_jti)
  pub revokes :
      (raw : Text) (family : Bool) (reason : Text)
      → Keeps P (revoke {S = S} p settings raw family reason)
  pub revokes_all :
      (user : ℕ) (reason : Text) → Keeps P (RefreshTokens.revoke_all_for_user {S = S} user reason)
