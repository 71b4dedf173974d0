-- ===== src/Auth/PasswordReset/Codes.antt =====
-- The codes that a reset mails (`_generate_code` of
-- services/auth-service/app/services/password_reset_service.py).
use backend_platform.Prelude.{
  ℕ, ◌+◌, ◌-◌, ◌*◌, ◌/◌, ◌≤◌, ◌<◌, ◌≡◌, refl, [], ◌∷◌, length, All, arith,
}
use backend_platform.Prelude.Text.{Text}
use backend_platform.Auth.PasswordReset.{digit, generate_code}

-- The number that a text of digits writes, after one that is read already.
abbrev pub read_number : ℕ → Text → ℕ
read_number n [] = n
read_number n (c ∷ s) = read_number (n * 10 + (c - 48)) s

abbrev pub IsDigit : ℕ → Type 0
IsDigit c = (48 ≤ c) × (c ≤ 57)

digit-IsDigit : (n : ℕ) → IsDigit (digit n)
digit-IsDigit n = (omega arith, omega arith)

-- Every number that can be drawn has six decimal digits for its code, and is read back from it: two
-- different draws never mail the same code.
pub generate_code-digits :
    (n : ℕ)
    → n < 1000000
    → (length (generate_code n) ≡ 6)
      × All IsDigit (generate_code n)
      × (read_number 0 (generate_code n) ≡ n)
unfolding generate_code
generate_code-digits n small = (
  refl,
  (
    digit-IsDigit (n / 100000),
    (
      digit-IsDigit (n / 10000),
      (
        digit-IsDigit (n / 1000),
        (digit-IsDigit (n / 100), (digit-IsDigit (n / 10), (digit-IsDigit n, tt))),
      ),
    ),
  ),
  omega arith,
)
