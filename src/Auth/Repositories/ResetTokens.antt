-- ===== src/Auth/Repositories/ResetTokens.antt =====
-- services/auth-service/app/repositories/password_reset_repository.py
use backend_platform.Prelude.{
  ℕ, Bool, not, ◌&&◌, Option, some, is_some, [], ◌∷◌, ◌++◌, find, update, any, ◌==◌,
}
use backend_platform.Prelude.Text.{Text, text_eq}
use backend_platform.Auth.Db.{Db, PasswordResetToken}
use backend_platform.Auth.World.{Action, flush, modify}

abbrev pub has_hash : Text → PasswordResetToken → Bool
has_hash token_hash t = text_eq t.token_hash token_hash

-- `used_at IS NULL`
abbrev pub is_unused : PasswordResetToken → Bool
is_unused t = not (is_some t.used_at)

abbrev pub is_unused_of_user : ℕ → PasswordResetToken → Bool
is_unused_of_user user_id t = t.user_id == user_id && is_unused t

abbrev pub used : ℕ → PasswordResetToken → PasswordResetToken
used now t = record t { used_at = some now }

unfoldable pub get_active_for_user_by_hash : ℕ → Text → Db → Option PasswordResetToken
get_active_for_user_by_hash user_id token_hash db =
    find (λ t. has_hash token_hash t && is_unused_of_user user_id t) db.reset_tokens

module _ {S : Type 0} where
  -- The column `token_hash` is unique over the rows of all users, used ones included.
  unfoldable pub create : PasswordResetToken → Action S (Unit {0})
  create token =
      flush (λ db. any (has_hash token.token_hash) db.reset_tokens)
        (λ db. record db { reset_tokens = db.reset_tokens ++ (token ∷ []) })

  unfoldable pub mark_active_for_user_used : ℕ → ℕ → Action S (Unit {0})
  mark_active_for_user_used user_id used_at = modify λ db. record db {
    reset_tokens = update (is_unused_of_user user_id) (used used_at) db.reset_tokens;
  }

  unfoldable pub mark_used : PasswordResetToken → ℕ → Action S (Unit {0})
  mark_used token used_at = modify λ db. record db {
    reset_tokens = update (has_hash token.token_hash) (used used_at) db.reset_tokens;
  }
