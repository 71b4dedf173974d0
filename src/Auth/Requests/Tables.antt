-- ===== src/Auth/Requests/Tables.antt =====
-- What the repositories and the audit trail of the auth service
-- (services/auth-service/app/repositories) do to the table of refresh tokens where they write others.
use backend_platform.Prelude.{ℕ, ◌≡◌, refl, Bool, Option, List}
use backend_platform.Prelude.Text.{Text}
use backend_platform.Audit.{Fields}
use backend_platform.Auth.Db.{Db, User, PasswordResetToken}
use backend_platform.Auth.Settings.{Settings}
use backend_platform.Auth.Providers.{Providers}
use backend_platform.Auth.World.{modify, flush}
use backend_platform.Auth.World.Keeps.{
  Keeps, Keeps-modify, Keeps-flush, Keeps-bind, Keeps-clock, Keeps-raise, Keeps-in_session,
  keeps_rules,
}
use backend_platform.Auth.Events.{log_event}
use backend_platform.Auth.Repositories.Users
use backend_platform.Auth.Repositories.TwoFactor
use backend_platform.Auth.Repositories.ResetTokens
use backend_platform.Auth.Repositories.Sessions
use backend_platform.Auth.TokenService.Kept.{TokenProperty}

module _ {S : Type 0} {p : Providers} {settings : Settings} {P : Db → Type 0}
    (k : TokenProperty S p settings P) where
  pub modify-Keeps :
      (f : Db → Db)
      → ((db : Db) → (f db).refresh_tokens ≡ db.refresh_tokens)
      → Keeps P (modify {S = S} f)
  modify-Keeps f same = Keeps-modify f λ db. k.same db (f db) (same db)

  pub log_event-Keeps :
      (event_type outcome : Text) (actor target : Option ℕ) (ip ua : Option Text) (payload : Fields)
      → Keeps P (log_event {S = S} event_type outcome actor target ip ua payload)
  unfolding log_event
  log_event-Keeps event_type outcome actor target ip ua payload = modify-Keeps _ λ db. refl

  pub save-Keeps : (user : User) → Keeps P (Users.save {S = S} user)
  unfolding Users.save
  save-Keeps user = modify-Keeps _ λ db. refl

  flush-Keeps :
      (clash : Db → Bool) (f : Db → Db)
      → ((db : Db) → (f db).refresh_tokens ≡ db.refresh_tokens)
      → Keeps P (flush {S = S} clash f)
  flush-Keeps clash f same = Keeps-flush clash f λ db free. k.same db (f db) (same db)

  pub create_user-Keeps :
      (id : ℕ) (email hash : Text) → Keeps P (Users.create {S = S} id email hash)
  unfolding Users.create
  create_user-Keeps id email hash =
      Keeps-bind _ _ (flush-Keeps _ _ λ db. refl) λ _. search keeps_rules

  pub update_password-Keeps :
      (user : User) (hash : Text) → Keeps P (Users.update_password {S = S} user hash)
  unfolding Users.update_password
  update_password-Keeps user hash = Keeps-bind _ _ (save-Keeps _) λ _. search keeps_rules

  pub upsert-Keeps :
      (user : ℕ) (secret : Text) → Keeps P (TwoFactor.upsert_secret {S = S} user secret)
  unfolding TwoFactor.upsert_secret
  upsert-Keeps user secret = modify-Keeps _ λ db. refl

  pub confirm-Keeps : (user timecode : ℕ) → Keeps P (TwoFactor.confirm_secret {S = S} user timecode)
  unfolding TwoFactor.confirm_secret
  confirm-Keeps user timecode = Keeps-bind _ _ Keeps-clock λ now. modify-Keeps _ λ db. refl

  pub timecode-Keeps :
      (user timecode : ℕ) → Keeps P (TwoFactor.update_last_used_timecode {S = S} user timecode)
  unfolding TwoFactor.update_last_used_timecode
  timecode-Keeps user timecode = modify-Keeps _ λ db. refl

  pub replace_codes-Keeps :
      (user : ℕ) (hashes : List Text) → Keeps P (TwoFactor.replace_backup_codes {S = S} user hashes)
  unfolding TwoFactor.replace_backup_codes
  replace_codes-Keeps user hashes = modify-Keeps _ λ db. refl

  pub delete_data-Keeps : (user : ℕ) → Keeps P (TwoFactor.delete_two_factor_data {S = S} user)
  unfolding TwoFactor.delete_two_factor_data
  delete_data-Keeps user = modify-Keeps _ λ db. refl

  pub used_codes-Keeps :
      (user now : ℕ) → Keeps P (ResetTokens.mark_active_for_user_used {S = S} user now)
  unfolding ResetTokens.mark_active_for_user_used
  used_codes-Keeps user now = modify-Keeps _ λ db. refl

  pub used_code-Keeps :
      (row : PasswordResetToken) (now : ℕ) → Keeps P (ResetTokens.mark_used {S = S} row now)
  unfolding ResetTokens.mark_used
  used_code-Keeps row now = modify-Keeps _ λ db. refl

  pub create_code-Keeps : (row : PasswordResetToken) → Keeps P (ResetTokens.create {S = S} row)
  unfolding ResetTokens.create
  create_code-Keeps row = flush-Keeps _ _ λ db. refl

  pub end_user-Keeps : (user : ℕ) → Keeps P (Sessions.revoke_user_sessions {S = S} user)
  unfolding Sessions.revoke_user_sessions
  end_user-Keeps user = Keeps-bind _ _ Keeps-clock λ now. modify-Keeps _ λ db. refl

pub ruleset table_rules = (
  keeps_rules, log_event-Keeps, save-Keeps, create_user-Keeps, update_password-Keeps, upsert-Keeps,
  confirm-Keeps, timecode-Keeps, replace_codes-Keeps, delete_data-Keeps, used_codes-Keeps,
  used_code-Keeps, create_code-Keeps, end_user-Keeps,
)
