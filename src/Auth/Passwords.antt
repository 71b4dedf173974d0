-- ===== src/Auth/Passwords.antt =====
-- The password policy and the hashing of passwords and backup codes
-- (services/auth-service/app/services/password_service.py). The salt that the hasher draws is an
-- argument.
use backend_platform.Prelude.{ℕ, Bool, not, ◌&&◌, ◌||◌, any, length, ltb, leb}
use backend_platform.Prelude.Text.{Text}
use backend_platform.Auth.Errors.{Result, ok, bad_request, ◌>>◌, refuse_if}
use backend_platform.Auth.Providers.{Providers}

-- [A-Za-z]
abbrev pub is_letter : ℕ → Bool
is_letter c = leb 65 c && leb c 90 || leb 97 c && leb c 122

-- \d
abbrev pub is_digit : ℕ → Bool
is_digit c = leb 48 c && leb c 57

unfoldable pub validate_password_policy : Text → Result (Unit {0})
validate_password_policy password = do
  refuse_if (ltb (length password) 8) bad_request
  refuse_if (not (any is_letter password)) bad_request
  refuse_if (not (any is_digit password)) bad_request
  ok tt

unfoldable pub hash_password : Providers → Text → Text → Result Text
hash_password p salt password = do
  validate_password_policy password
  ok (p.argon2_hash salt password)

-- `verify_password` and `verify_backup_code`: a mismatch is an answer.
unfoldable pub verify_password : Providers → Text → Text → Bool
verify_password p password password_hash = p.argon2_verify password_hash password
