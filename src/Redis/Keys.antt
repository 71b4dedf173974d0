-- ===== src/Redis/Keys.antt =====
-- The names under which the services keep their entries
-- (services/auth-service/app/integrations/redis/keys.py).
use backend_platform.Prelude.{ℕ, ◌≡◌, refl, ◌≢◌, ◌∙◌, sym, ap, true, false, [], ◌∷◌, ◌++◌, arith}
use mathlib.Core.List.{append_cancel_left, append_cancel_right}
use backend_platform.Prelude.Text.{Text, codes, text_eq, text_eq_iff}

-- f"rate_limit:{scope}:{ip}:{bucket}", the bucket printed by the caller.
unfoldable pub rate_limit_key : Text → Text → Text → Text
rate_limit_key scope ip bucket =
    codes "rate_limit:" ++ (scope ++ (codes ":" ++ (ip ++ (codes ":" ++ bucket))))

unfoldable pub access_session_revoked_key : Text → Text
access_session_revoked_key session_id = codes "access_session_revoked:" ++ session_id

unfoldable pub brute_force_fail_key : Text → Text → Text
brute_force_fail_key scope identifier =
    codes "brute_force:" ++ (scope ++ (codes ":" ++ (identifier ++ codes ":fail")))

unfoldable pub brute_force_lock_key : Text → Text → Text
brute_force_lock_key scope identifier =
    codes "brute_force:" ++ (scope ++ (codes ":" ++ (identifier ++ codes ":lock")))

unfoldable pub login_challenge_key : Text → Text
login_challenge_key challenge_id = codes "login_challenge:" ++ challenge_id

-- The scopes that `_policy` of brute_force_protection_service.py supports.
pub data Scope : Type 0 where
  login login_account two_factor password_reset password_reset_account : Scope

unfoldable pub scope_text : Scope → Text
scope_text login = codes "login"
scope_text login_account = codes "login_account"
scope_text two_factor = codes "2fa"
scope_text password_reset = codes "password_reset"
scope_text password_reset_account = codes "password_reset_account"

-- The entries that the auth service keeps besides the counters of the rate limit, by what they are for;
-- Redis/Entries adds the counters.
pub data Key : Type 0 where
  fail lock : Scope → Text → Key
  challenge revoked : Text → Key

unfoldable pub key_text : Key → Text
unfolding scope_text
key_text (fail scope identifier) = brute_force_fail_key (scope_text scope) identifier
key_text (lock scope identifier) = brute_force_lock_key (scope_text scope) identifier
key_text (challenge challenge_id) = login_challenge_key challenge_id
key_text (revoked session_id) = access_session_revoked_key session_id

abbrev last : ℕ → Text → ℕ
last d [] = d
last d (c ∷ s) = last c s

last-append : (d : ℕ) (s : Text) (c : ℕ) (t : Text) → last d (s ++ (c ∷ t)) ≡ last c t
last-append d [] c t = refl
last-append d (x ∷ s) c t = last-append x s c t

-- A scope's name is read off a key: it ends at the first colon.
scope_text-colon-injective :
    (a b : Scope) (s t : Text)
    → scope_text a ++ (codes ":" ++ s) ≡ scope_text b ++ (codes ":" ++ t)
    → (a ≡ b) × (s ≡ t)
unfolding scope_text
scope_text-colon-injective login login s t h = (refl, cc)
scope_text-colon-injective login_account login_account s t h = (refl, cc)
scope_text-colon-injective two_factor two_factor s t h = (refl, cc)
scope_text-colon-injective password_reset password_reset s t h = (refl, cc)
scope_text-colon-injective password_reset_account password_reset_account s t h = (refl, cc)
scope_text-colon-injective _ _ s t h = absurd (ground arith)

-- What a failure counter's name ends in, and what a lock's name ends in.
last-fail : (scope : Scope) (i : Text) → last 0 (key_text (fail scope i)) ≡ 108
unfolding key_text brute_force_fail_key
last-fail scope i =
    last-append 58 (scope_text scope) 58 (i ++ codes ":fail") ∙ last-append 58 i 58 (codes "fail")

last-lock : (scope : Scope) (i : Text) → last 0 (key_text (lock scope i)) ≡ 107
unfolding key_text brute_force_lock_key
last-lock scope i =
    last-append 58 (scope_text scope) 58 (i ++ codes ":lock") ∙ last-append 58 i 58 (codes "lock")

fail-ne-lock : (a b : Scope) (i j : Text) → key_text (fail a i) ≢ key_text (lock b j)
fail-ne-lock a b i j h = omega (arith, last-fail a i, last-lock b j, ap (λ (s : Text). last 0 s) h)

-- Such entries with the same name are the same entry.
pub key_text-injective : (a b : Key) → key_text a ≡ key_text b → a ≡ b
unfolding key_text brute_force_fail_key brute_force_lock_key login_challenge_key
    access_session_revoked_key
key_text-injective (fail a i) (fail b j) h =
    let (e, r) =
      scope_text-colon-injective a b _ _ (append_cancel_left (codes "brute_force:") _ _ h) in
    cc (append_cancel_right i j (codes ":fail") r)
key_text-injective (lock a i) (lock b j) h =
    let (e, r) =
      scope_text-colon-injective a b _ _ (append_cancel_left (codes "brute_force:") _ _ h) in
    cc (append_cancel_right i j (codes ":lock") r)
key_text-injective (challenge i) (challenge j) h =
    ap challenge (append_cancel_left (codes "login_challenge:") i j h)
key_text-injective (revoked i) (revoked j) h =
    ap revoked (append_cancel_left (codes "access_session_revoked:") i j h)
key_text-injective (fail a i) (lock b j) h = absurd (fail-ne-lock a b i j h)
key_text-injective (lock a i) (fail b j) h = absurd (fail-ne-lock b a j i (sym h))
key_text-injective _ _ h = absurd (ground arith)

-- The comparison of two names decides whether the entries are the same.
pub key_text-eq : (a b : Key) → text_eq (key_text a) (key_text b) ≡ true → a ≡ b
key_text-eq a b h = key_text-injective a b ((text_eq_iff _ _).0 h)

pub key_text-ne : (a b : Key) → a ≢ b → text_eq (key_text a) (key_text b) ≡ false
key_text-ne a b h = ground (arith, key_text-eq a b)
