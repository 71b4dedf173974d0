-- ===== src/Auth/Repositories/TwoFactor.antt =====
-- services/auth-service/app/repositories/two_factor_repository.py
use backend_platform.Prelude.{
  ℕ, Bool, Option, none, some, List, [], ◌∷◌, ◌++◌, map, find, select, update, delete, ◌==◌,
}
use backend_platform.Prelude.Text.{Text}
use backend_platform.Auth.Db.{Db, TwoFactorSecret, BackupCode}
use backend_platform.Auth.World.{Action, modify, clock, ◌>>=◌}

abbrev pub secret_of : ℕ → TwoFactorSecret → Bool
secret_of user_id s = s.user_id == user_id

abbrev pub code_of : ℕ → BackupCode → Bool
code_of user_id c = c.user_id == user_id

-- `get_secret` and `get_secret_for_update`; the column `user_id` is unique.
unfoldable pub get_secret : ℕ → Db → Option TwoFactorSecret
get_secret user_id db = find (secret_of user_id) db.secrets

unfoldable pub list_backup_codes : ℕ → Db → List BackupCode
list_backup_codes user_id db = select (code_of user_id) db.backup_codes

abbrev pub written : Text → Option TwoFactorSecret → ℕ → List TwoFactorSecret → List TwoFactorSecret
written encrypted_secret none user_id rows =
    rows
    ++ (record {
      user_id = user_id;
      encrypted_secret = encrypted_secret;
      confirmed_at = none;
      last_used_timecode = none;
    }
        ∷ [])
written encrypted_secret (some _) user_id rows =
    update (secret_of user_id)
      (λ s. record s {
        encrypted_secret = encrypted_secret;
        confirmed_at = none;
        last_used_timecode = none;
      })
      rows

module _ {S : Type 0} where
  unfoldable pub upsert_secret : ℕ → Text → Action S (Unit {0})
  unfolding get_secret
  upsert_secret user_id encrypted_secret = modify λ db. record db {
    secrets = written encrypted_secret (get_secret user_id db) user_id db.secrets;
  }

  unfoldable pub confirm_secret : ℕ → ℕ → Action S (Unit {0})
  confirm_secret user_id last_used_timecode = do
    now ← clock
    modify λ db. record db {
      secrets =
          update (secret_of user_id)
            (λ s. record s {
              confirmed_at = some now;
              last_used_timecode = some last_used_timecode;
            })
            db.secrets;
    }

  unfoldable pub update_last_used_timecode : ℕ → ℕ → Action S (Unit {0})
  update_last_used_timecode user_id last_used_timecode = modify λ db. record db {
    secrets =
        update (secret_of user_id) (λ s. record s { last_used_timecode = some last_used_timecode })
          db.secrets;
  }

  unfoldable pub replace_backup_codes : ℕ → List Text → Action S (Unit {0})
  replace_backup_codes user_id hashes = modify λ db. record db {
    backup_codes =
        delete (code_of user_id) db.backup_codes
        ++ map (λ value. record { user_id = user_id; code_hash = value; used_at = none }) hashes;
  }

  unfoldable pub delete_two_factor_data : ℕ → Action S (Unit {0})
  delete_two_factor_data user_id = modify λ db. record db {
    backup_codes = delete (code_of user_id) db.backup_codes;
    secrets = delete (secret_of user_id) db.secrets;
  }
