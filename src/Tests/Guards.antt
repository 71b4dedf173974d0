-- ===== src/Tests/Guards.antt =====
-- The guard against guessing, the names of entries and the audit trail.
use backend_platform.Prelude.{◌≡◌, refl, [], ◌∷◌, arith}
use backend_platform.Prelude.Text.{codes}
use backend_platform.Redis.Memory.{memory, memory_laws, blank}
use backend_platform.Redis.Keys.{login}
use backend_platform.Redis.Entries.{counter, entry_text-injective}
use backend_platform.Audit.{Fields, field, end, plain, sanitize_payload}
use backend_platform.Audit.Sanitized.{AreCleanFields, sanitize_payload-AreCleanFields}
use backend_platform.Auth.Errors.{err, account_locked}
use backend_platform.Auth.BruteForce.{policy, assert_not_locked}
use backend_platform.Auth.BruteForce.Lock.{record_failures, lockout}
use backend_platform.Tests.Doubles.{providers, settings}

entry_text-injective_example :
    counter (codes "login") (codes "a:b") (codes "12")
    ≡ counter (codes "login") (codes "a:b") (codes "12")
entry_text-injective_example =
    entry_text-injective (counter (codes "login") (codes "a:b") (codes "12"))
      (counter (codes "login") (codes "a:b") (codes "12")) (refl, refl) (refl, refl) refl

lockout_example :
    assert_not_locked memory providers.hmac settings login
      (codes "a")
      110
      (record_failures memory providers.hmac settings login (codes "a") (0 ∷ 10 ∷ []) blank)
    ≡ err (account_locked 200)
unfolding policy
lockout_example =
    lockout memory providers.hmac settings memory_laws login (codes "a") 0 (10 ∷ []) blank 110 refl
      (omega arith, tt) refl

abbrev payload : Fields
payload =
    field (codes "email") (plain (codes "a@b")) (field (codes "Token") (plain (codes "t")) end)

sanitize_payload-AreCleanFields_example :
    AreCleanFields (sanitize_payload payload)
    × (sanitize_payload (sanitize_payload payload) ≡ sanitize_payload payload)
sanitize_payload-AreCleanFields_example = sanitize_payload-AreCleanFields payload
