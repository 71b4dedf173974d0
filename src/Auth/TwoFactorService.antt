-- ===== src/Auth/TwoFactorService.antt =====
-- One-time codes and backup codes (services/auth-service/app/services/two_factor_service.py). The
-- secret, the letters of the backup codes, the salts and the nonce that are drawn are arguments;
-- the URI and the picture that are made of the secret, by pyotp and qrcode, are left out.
pub mod Accepted
use backend_platform.Prelude.{
  ℕ, Bool, true, false, not, ◌&&◌, Option, none, some, is_some, List, [], ◌∷◌, ◌++◌, map, leb, ◌==◌,
  if◌then◌else◌,
}
use backend_platform.Prelude.Text.{Text, codes}
use backend_platform.Auth.Db.{Db, User, TwoFactorSecret, BackupCode}
use backend_platform.Auth.Errors.{
  invalid_two_factor_code, two_factor_not_enabled, two_factor_already_enabled, bad_request,
}
use backend_platform.Auth.Settings.{Settings}
use backend_platform.Auth.Providers.{Providers}
use backend_platform.Auth.World.{
  Action, pure, raise, gets, or_raise, raise_if, clock, modify, branch, ◌>>=◌, ◌>>◌,
}
use backend_platform.Auth.Passwords.{verify_password}
use backend_platform.Auth.Privacy.{truthy}
use backend_platform.Auth.Totp.{verify_totp_code}
use backend_platform.Auth.Repositories.Users
use backend_platform.Auth.Repositories.TwoFactor

-- The letters drawn for a backup code, four and four, and the salt of its hash.
pub record DrawnCode : Type 0 where
  pub left : Text
  pub right : Text
  pub salt : Text

-- `_generate_plain_backup_codes`
unfoldable pub plain_code : DrawnCode → Text
plain_code d = d.left ++ (codes "-" ++ d.right)

unfoldable pub hash_backup_code : Providers → DrawnCode → Text
unfolding plain_code
hash_backup_code p d = p.argon2_hash d.salt (plain_code d)

pub record TwoFactorSetupData : Type 0 where
  pub secret : Text
  pub backup_codes : List Text

-- The row with its use recorded.
abbrev pub spent_code : ℕ → BackupCode → BackupCode
spent_code now c = record c { used_at = some now }

abbrev pub matches_code : Providers → Text → ℕ → BackupCode → Bool
matches_code p backup_code user_id c =
    c.user_id == user_id && (not (is_some c.used_at) && p.argon2_verify c.code_hash backup_code)

-- The loop of `_verify_backup_code`, over the table: the first unused row of the user that the code
-- verifies against is marked as used.
unfoldable pub use_code : Providers → Text → ℕ → ℕ → List BackupCode → Option (List BackupCode)
use_code p backup_code user_id now [] = none
use_code p backup_code user_id now (c ∷ cs) =
    let rest = use_code p backup_code user_id now cs in
    if matches_code p backup_code user_id c
    then some (spent_code now c ∷ cs)
    else elim rest [ none ↦ none | some cs' ↦ some (c ∷ cs') ]

-- `last_used_timecode is not None and timecode <= last_used_timecode`
abbrev pub is_replayed : Option ℕ → ℕ → Bool
is_replayed none timecode = false
is_replayed (some last) timecode = leb timecode last

-- `backup_code or ""`
abbrev or_empty : Option Text → Text
or_empty none = []
or_empty (some t) = t

module _ {S : Type 0} (p : Providers) (settings : Settings) where
  unfoldable pub create_setup : User → Text → Text → List DrawnCode → Action S TwoFactorSetupData
  create_setup user secret nonce drawn = do
    raise_if user.two_factor_enabled two_factor_already_enabled
    TwoFactor.upsert_secret user.id (p.encrypt nonce secret)
    TwoFactor.replace_backup_codes user.id (map (hash_backup_code p) drawn)
    pure (record { secret = secret; backup_codes = map plain_code drawn })

  unfoldable pub enable : User → Text → Action S User
  enable user totp_code = do
    raise_if user.two_factor_enabled two_factor_already_enabled
    found ← gets (TwoFactor.get_secret user.id)
    secret_record ← or_raise found bad_request
    now ← clock
    let (is_valid, timecode) =
        verify_totp_code p (p.decrypt secret_record.encrypted_secret) totp_code
          settings.totp_interval_seconds 1 now
    raise_if (not is_valid) invalid_two_factor_code
    TwoFactor.confirm_secret user.id timecode
    Users.save (record user { two_factor_enabled = true })
    pure (record user { two_factor_enabled = true })

  -- `_verify_totp` on the secret found
  unfoldable pub verify_totp : User → Text → Action S (Unit {0})
  verify_totp user totp_code = do
    found ← gets (TwoFactor.get_secret user.id)
    secret_record ← or_raise found two_factor_not_enabled
    raise_if (not (is_some secret_record.confirmed_at)) two_factor_not_enabled
    now ← clock
    let (is_valid, timecode) =
        verify_totp_code p (p.decrypt secret_record.encrypted_secret) totp_code
          settings.totp_interval_seconds 1 now
    raise_if (not is_valid) invalid_two_factor_code
    raise_if (is_replayed secret_record.last_used_timecode timecode) invalid_two_factor_code
    TwoFactor.update_last_used_timecode user.id timecode

  -- `_verify_backup_code`
  unfoldable pub verify_backup_code : User → Text → Action S (Unit {0})
  verify_backup_code user backup_code = do
    now ← clock
    found ← gets (λ db. use_code p backup_code user.id now db.backup_codes)
    rows ← or_raise found invalid_two_factor_code
    modify λ db. record db { backup_codes = rows }

  unfoldable pub verify_for_login : User → Option Text → Option Text → Action S (Unit {0})
  verify_for_login user totp_code backup_code = do
    raise_if (not user.two_factor_enabled) two_factor_not_enabled
    raise_if (if truthy totp_code then truthy backup_code else not (truthy backup_code)) bad_request
    branch (truthy totp_code) (verify_totp user (or_empty totp_code))
        (verify_backup_code user (or_empty backup_code))

  unfoldable pub disable : User → Option Text → Option Text → Action S User
  disable user totp_code backup_code = do
    verify_for_login user totp_code backup_code
    TwoFactor.delete_two_factor_data user.id
    Users.save (record user { two_factor_enabled = false })
    pure (record user { two_factor_enabled = false })

  unfoldable pub regenerate_backup_codes :
      User → Option Text → Option Text → List DrawnCode → Action S (List Text)
  regenerate_backup_codes user totp_code backup_code drawn = do
    verify_for_login user totp_code backup_code
    TwoFactor.replace_backup_codes user.id (map (hash_backup_code p) drawn)
    pure (map plain_code drawn)
