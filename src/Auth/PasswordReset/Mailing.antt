-- ===== src/Auth/PasswordReset/Mailing.antt =====
-- What `request_reset` leaves behind (services/auth-service/app/services/password_reset_service.py).
use backend_platform.Prelude.{ℕ, ◌≡◌, ◌≢◌, refl, true, false, Option, some, any, arith, any-update}
use backend_platform.Prelude.Text.{Text, lower}
use backend_platform.Redis.{Redis}
use backend_platform.Auth.Db.{User}
use backend_platform.Auth.Errors.{Result, err, integrity_error, service_unavailable}
use backend_platform.Auth.Settings.{Settings}
use backend_platform.Auth.Providers.{Providers}
use backend_platform.Auth.World.{World, ◌>>=◌}
use backend_platform.Auth.Repositories.Users
use backend_platform.Auth.Repositories.ResetTokens
use backend_platform.Auth.Repositories.ResetTokens.{has_hash, is_unused_of_user, used}
use backend_platform.Auth.PasswordReset.{
  Delivery, delivered, refused, raised, PasswordResetRequestResult, generate_code, hash_token,
  issue_code, deliver, request_reset,
}

module _ {S : Type 0} (redis : Redis S) (p : Providers) (settings : Settings) (ip ua : Option Text)
    (email : Text) (drawn : ℕ) (w : World S) where
  abbrev asked : Delivery → Result PasswordResetRequestResult × World S
  asked mail = request_reset redis p settings ip ua email drawn mail w

  abbrev code_hash : Text
  code_hash = hash_token p settings (generate_code drawn)

  -- For a known user whose resets are not blocked, with mail configured: a code whose digest any
  -- row carries, of whichever user, used or not, cannot be issued. The uniqueness constraint
  -- refuses the row, and the request fails whatever the mail server would have done.
  pub drawn_code_refused :
      (user : User) (mail : Delivery)
      → Users.get_by_email (lower email) w.db ≡ some user
      → user.password_reset_blocked ≡ false
      → settings.smtp_is_configured ≡ true
      → any (has_hash code_hash) w.db.reset_tokens ≡ true
      → (asked mail).0 ≡ err integrity_error
  unfolding request_reset issue_code ◌>>=◌ ResetTokens.mark_active_for_user_used ResetTokens.create
  drawn_code_refused user mail known open_ smtp taken = ground (
    arith,
    known,
    open_,
    smtp,
    taken,
    any-update (has_hash code_hash) (is_unused_of_user user.id) (used w.now) (λ t. refl)
        w.db.reset_tokens,
  )

  -- For a known user whose resets are not blocked, with mail configured, a code of a new digest
  -- and nothing uncommitted before: a mail that is not delivered leaves the whole state as it was,
  -- and the client is told that the service is unavailable.
  pub undelivered_leaves_nothing :
      (mail : Delivery) (user : User)
      → mail ≢ delivered
      → Users.get_by_email (lower email) w.committed ≡ some user
      → user.password_reset_blocked ≡ false
      → settings.smtp_is_configured ≡ true
      → any (has_hash code_hash) w.committed.reset_tokens ≡ false
      → w.db ≡ w.committed
      → asked mail ≡ (err service_unavailable, w)
  unfolding request_reset issue_code deliver ◌>>=◌ ResetTokens.mark_active_for_user_used
      ResetTokens.create
  undelivered_leaves_nothing delivered user failed known open_ smtp free clean =
      absurd (failed refl)
  undelivered_leaves_nothing refused user failed known open_ smtp free clean = ground (
    arith,
    known,
    open_,
    smtp,
    free,
    clean,
    any-update (has_hash code_hash) (is_unused_of_user user.id) (used w.now) (λ t. refl)
        w.committed.reset_tokens,
  )
  undelivered_leaves_nothing raised user failed known open_ smtp free clean = ground (
    arith,
    known,
    open_,
    smtp,
    free,
    clean,
    any-update (has_hash code_hash) (is_unused_of_user user.id) (used w.now) (λ t. refl)
        w.committed.reset_tokens,
  )
