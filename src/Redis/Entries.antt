-- ===== src/Redis/Entries.antt =====
-- All names under which the services keep their entries, the counters of the rate limit with them
-- (services/auth-service/app/integrations/redis/keys.py).
use backend_platform.Prelude.{
  ℕ, ◌≡◌, refl, ◌∙◌, sym, ap, subst, Bool, true, false, [], ◌∷◌, ◌++◌, any, ◌==◌, arith,
  if◌then◌else◌,
}
use mathlib.Core.List.{append_cancel_left, append_cancel_right}
use backend_platform.Prelude.Text.{Text, codes}
use backend_platform.Redis.Keys.{
  Key, fail, lock, challenge, revoked, key_text, key_text-injective, rate_limit_key,
  brute_force_fail_key, brute_force_lock_key, login_challenge_key, access_session_revoked_key,
}

abbrev is_colon : ℕ → Bool
is_colon c = c == 58

-- An entry: one of a kind that the auth service keeps by itself, or a counter of a client's requests
-- in a minute, which the bucket numbers.
pub data Entry : Type 0 where
  key : Key → Entry
  counter : Text → Text → Text → Entry

unfoldable pub entry_text : Entry → Text
entry_text (key k) = key_text k
entry_text (counter scope client bucket) = rate_limit_key scope client bucket

-- The scopes of counters, which the code spells out, and printed numbers have no colon.
abbrev pub IsEntry : Entry → Type 0
IsEntry (key k) = Unit {0}
IsEntry (counter scope client bucket) = (any is_colon scope ≡ false) × (any is_colon bucket ≡ false)

-- What stands before the first colon of a text, and behind the last.
abbrev before_colon : Text → Text
before_colon [] = []
before_colon (c ∷ s) = let rest = before_colon s in if c == 58 then [] else c ∷ rest

abbrev behind_colon : Text → Text
behind_colon [] = []
behind_colon (c ∷ s) =
    let rest = behind_colon s in if any is_colon s then rest else if c == 58 then s else c ∷ s

before_colon-append : (s t : Text) → any is_colon s ≡ false → before_colon (s ++ (58 ∷ t)) ≡ s
before_colon-append [] t h = refl
before_colon-append (c ∷ s) t h = ground (arith, h, before_colon-append s t)

any-colon : (s t : Text) → any is_colon (s ++ (58 ∷ t)) ≡ true
any-colon [] t = refl
any-colon (c ∷ s) t = ground (arith, any-colon s t)

behind_colon-append : (s t : Text) → any is_colon t ≡ false → behind_colon (s ++ (58 ∷ t)) ≡ t
behind_colon-append [] t h = rw h refl
behind_colon-append (c ∷ s) t h = rw (any-colon s t) (behind_colon-append s t h)

counter-injective :
    (a b i j c d : Text)
    → IsEntry (counter a i c)
    → IsEntry (counter b j d)
    → rate_limit_key a i c ≡ rate_limit_key b j d
    → counter a i c ≡ counter b j d
unfolding rate_limit_key
counter-injective a b i j c d (plain_a, plain_c) (plain_b, plain_d) h =
    let rest = append_cancel_left (codes "rate_limit:") _ _ h in
    let scopes : a ≡ b =
      sym (before_colon-append a (i ++ (58 ∷ c)) plain_a)
      ∙ ap before_colon rest
      ∙ before_colon-append b (j ++ (58 ∷ d)) plain_b in
    let tails : i ++ (58 ∷ c) ≡ j ++ (58 ∷ d) = append_cancel_left (codes ":") _ _ (
      append_cancel_left b _ _
        (subst (λ x. x ++ (58 ∷ (i ++ (58 ∷ c))) ≡ b ++ (58 ∷ (j ++ (58 ∷ d)))) scopes rest)) in
    let buckets : c ≡ d =
      sym (behind_colon-append i c plain_c)
      ∙ ap behind_colon tails
      ∙ behind_colon-append j d plain_d in
    let clients : i ≡ j =
      append_cancel_right i j (58 ∷ d) (subst (λ x. i ++ (58 ∷ x) ≡ j ++ (58 ∷ d)) buckets tails) in
    cc (scopes, buckets, clients)

counter-ne-key : (k : Key) (a i c : Text) → key_text k ≡ rate_limit_key a i c → ⊥
unfolding key_text rate_limit_key brute_force_fail_key brute_force_lock_key login_challenge_key
    access_session_revoked_key
counter-ne-key (fail _ _) a i c h = ground (arith, h)
counter-ne-key (lock _ _) a i c h = ground (arith, h)
counter-ne-key (challenge _) a i c h = ground (arith, h)
counter-ne-key (revoked _) a i c h = ground (arith, h)

-- Entries with the same name are the same entry, where the scopes and the numbers of counters have no
-- colon: neither an identifier nor a challenge id that a client sends can reach an entry of another
-- kind, scope or owner, the counters of the rate limit included.
pub entry_text-injective :
    (a b : Entry) → IsEntry a → IsEntry b → entry_text a ≡ entry_text b → a ≡ b
unfolding entry_text
entry_text-injective (key a) (key b) x y h = ap key (key_text-injective a b h)
entry_text-injective (counter a i c) (counter b j d) x y h = counter-injective a b i j c d x y h
entry_text-injective (key k) (counter a i c) x y h = absurd (counter-ne-key k a i c h)
entry_text-injective (counter a i c) (key k) x y h = absurd (counter-ne-key k a i c (sym h))
