-- ===== src/Auth/BruteForce/Lock.antt =====
-- When the guard locks, for how long, and whom.
use backend_platform.Prelude.{
  ℕ, suc, ◌+◌, ◌-◌, ◌<◌, ◌≡◌, inl, inr, refl, ◌∙◌, false, Option, none, some, List, [], ◌∷◌, arith,
  length, All, ltb, Bool-cases, if◌then◌else◌,
}
use backend_platform.Prelude.Text.{Text, codes, text_eq, text_eq_refl}
use backend_platform.Redis.{Redis, RedisLaws, Entry, number, text, IsCounter, live, get}
use backend_platform.Redis.Keys.{Scope, Key, fail, lock, key_text, key_text-ne}
use backend_platform.Auth.Errors.{ok, err, account_locked}
use backend_platform.Auth.Settings.{Settings}
use backend_platform.Auth.BruteForce.{
  policy, identifier_digest, assert_not_locked, record_failure, clear_failures,
}
use backend_platform.Auth.BruteForce.Steps.{
  fail_name, lock_name, fail-ne-lock, stored-record_failure, stored-clear_failures,
}

-- The last of the seconds `t ∷ ts`.
abbrev pub last : ℕ → List ℕ → ℕ
last t [] = t
last t (u ∷ us) = last u us

module _ {S : Type 0} (redis : Redis S) (hmac : Text → Text → Text) (settings : Settings)
    (scope : Scope) (identifier : Text) where
  -- One failure at each of the seconds.
  pub record_failures : List ℕ → S → S
  record_failures [] s = s
  record_failures (t ∷ ts) s =
      record_failures ts (record_failure redis hmac settings scope identifier t s).1

module _ {S : Type 0} (redis : Redis S) (hmac : Text → Text → Text) (settings : Settings)
    (laws : RedisLaws redis) (scope : Scope) (identifier : Text) where
  abbrev F : Text
  F = fail_name redis hmac settings laws scope identifier

  abbrev L : Text
  L = lock_name redis hmac settings laws scope identifier

  abbrev counting : ℕ → ℕ → Option Entry
  counting m d = some (record { value = number m; deadline = some d })

  abbrev locked_until : ℕ → Option Entry
  locked_until d = some (record { value = text (codes "1"); deadline = some d })

  abbrev after : ℕ → S → S
  after t s = (record_failure redis hmac settings scope identifier t s).1

  IsCounter-counting : (t m d : ℕ) (e : Option Entry) → e ≡ counting m d → IsCounter (live t e)
  IsCounter-counting t m d e h =
      rw h (elim (Bool-cases (ltb t d)) [ inl a ↦ rw a tt | inr b ↦ rw b tt ])

  abbrev name : Text
  name = identifier_digest redis hmac settings identifier

  -- A failure inside the window that the first one opened.
  next_failure :
      (t m d : ℕ) (s : S)
      → redis.stored s F ≡ counting m d
      → 0 < m
      → t < d
      → suc m < (policy settings scope).max_attempts
      → (redis.stored (after t s) F ≡ counting (suc m) d)
        × (redis.stored (after t s) L ≡ redis.stored s L)
  next_failure t m d s e pos lt below =
      let c = IsCounter-counting t m d (redis.stored s F) e in
      (
        ground (
          arith,
          stored-record_failure redis hmac settings laws scope identifier t s c F,
          text_eq_refl F,
        ),
        ground (
          arith,
          stored-record_failure redis hmac settings laws scope identifier t s c L,
          fail-ne-lock scope name,
          text_eq_refl L,
        ),
      )

  last_failure :
      (t m d : ℕ) (s : S)
      → redis.stored s F ≡ counting m d
      → t < d
      → suc m ≡ (policy settings scope).max_attempts
      → redis.stored (after t s) L ≡ locked_until (t + (policy settings scope).lock_seconds)
  last_failure t m d s e lt at = ground (
    arith,
    stored-record_failure redis hmac settings laws scope identifier t s
        (IsCounter-counting t m d (redis.stored s F) e) L,
    fail-ne-lock scope name,
    text_eq_refl L,
  )

  -- With a counter already running, the failures that fill it lock.
  running_locks :
      (t : ℕ) (ts : List ℕ) (m d : ℕ) (s : S)
      → redis.stored s F ≡ counting m d
      → 0 < m
      → All (λ u. u < d) (t ∷ ts)
      → length (t ∷ ts) + m ≡ (policy settings scope).max_attempts
      → redis.stored (record_failures redis hmac settings scope identifier (t ∷ ts) s) L
        ≡ locked_until (last t ts + (policy settings scope).lock_seconds)
  unfolding record_failures
  running_locks t [] m d s e pos h len = last_failure t m d s e h.0 (omega arith)
  running_locks t (u ∷ us) m d s e pos h len =
      let (counts, same) = next_failure t m d s e pos h.0 (omega arith) in
      running_locks u us (suc m) d (after t s) counts (omega arith) h.1 (omega arith)

  -- With fewer failures than the limit the lock is left as it was.
  running_keeps :
      (ts : List ℕ) (m d : ℕ) (s : S)
      → redis.stored s F ≡ counting m d
      → 0 < m
      → All (λ u. u < d) ts
      → length ts + m < (policy settings scope).max_attempts
      → redis.stored (record_failures redis hmac settings scope identifier ts s) L
        ≡ redis.stored s L
  unfolding record_failures
  running_keeps [] m d s e pos h len = refl
  running_keeps (t ∷ ts) m d s e pos h len =
      let (counts, same) = next_failure t m d s e pos h.0 (omega arith) in
      running_keeps ts (suc m) d (after t s) counts (omega arith) h.1 (omega arith) ∙ same

  -- The first failure of a window.
  first_failure :
      (t : ℕ) (s : S)
      → get redis s t F ≡ none
      → 1 < (policy settings scope).max_attempts
      → (redis.stored (after t s) F ≡ counting 1 (t + (policy settings scope).window_seconds))
        × (redis.stored (after t s) L ≡ redis.stored s L)
  first_failure t s e below =
      let c : IsCounter (get redis s t F) = rw e tt in
      (
        ground (
          arith,
          stored-record_failure redis hmac settings laws scope identifier t s c F,
          text_eq_refl F,
        ),
        ground (
          arith,
          stored-record_failure redis hmac settings laws scope identifier t s c L,
          fail-ne-lock scope name,
          text_eq_refl L,
        ),
      )

  only_failure :
      (t : ℕ) (s : S)
      → get redis s t F ≡ none
      → (policy settings scope).max_attempts ≡ 1
      → redis.stored (after t s) L ≡ locked_until (t + (policy settings scope).lock_seconds)
  only_failure t s e one = ground (
    arith,
    stored-record_failure redis hmac settings laws scope identifier t s (rw e tt) L,
    fail-ne-lock scope name,
    text_eq_refl L,
  )

  fresh_locks :
      (t : ℕ) (ts : List ℕ) (s : S)
      → get redis s t F ≡ none
      → All (λ u. u < t + (policy settings scope).window_seconds) ts
      → length (t ∷ ts) ≡ (policy settings scope).max_attempts
      → redis.stored (record_failures redis hmac settings scope identifier (t ∷ ts) s) L
        ≡ locked_until (last t ts + (policy settings scope).lock_seconds)
  unfolding record_failures
  fresh_locks t [] s e h len = only_failure t s e (omega arith)
  fresh_locks t (u ∷ us) s e h len =
      let (counts, same) = first_failure t s e (omega arith) in
      running_locks u us 1 _ (after t s) counts (omega arith) h (omega arith)

  -- From a state with no running counter, as many failures as the limit, all inside the window that
  -- the first of them opens, lock the identifier: until the lock's time has passed since the last
  -- of them every attempt is refused with the seconds left, and from then on it is let through.
  pub lockout :
      (t : ℕ) (ts : List ℕ) (s : S) (now : ℕ)
      → get redis s t F ≡ none
      → All (λ u. u < t + (policy settings scope).window_seconds) ts
      → length (t ∷ ts) ≡ (policy settings scope).max_attempts
      → let until = last t ts + (policy settings scope).lock_seconds in
        let s' = record_failures redis hmac settings scope identifier (t ∷ ts) s in
        assert_not_locked redis hmac settings scope identifier now s'
        ≡ (if ltb now until then err (account_locked (until - now)) else ok tt)
  unfolding assert_not_locked key_text
  lockout t ts s now e h len = ground (arith, fresh_locks t ts s e h len)

  -- From a state with no running counter, fewer failures than the limit inside the window that the
  -- first of them opens leave every later attempt as free, or as locked, as it was.
  pub below_limit :
      (t : ℕ) (ts : List ℕ) (s : S) (now : ℕ)
      → get redis s t F ≡ none
      → All (λ u. u < t + (policy settings scope).window_seconds) ts
      → length (t ∷ ts) < (policy settings scope).max_attempts
      → assert_not_locked redis hmac settings scope identifier now
          (record_failures redis hmac settings scope identifier (t ∷ ts) s)
        ≡ assert_not_locked redis hmac settings scope identifier now s
  unfolding assert_not_locked record_failures key_text
  below_limit t ts s now e h len =
      let (counts, same) = first_failure t s e (omega arith) in
      rw (running_keeps ts 1 _ (after t s) counts (omega arith) h (omega arith), same)

  module _ (scope' : Scope) (identifier' : Text)
      (apart : ¬ (
        (scope ≡ scope') × (name ≡ identifier_digest redis hmac settings identifier'))) where
    abbrev other_lock : Key
    other_lock = lock scope' (identifier_digest redis hmac settings identifier')

    fail-ne-other : text_eq F (key_text other_lock) ≡ false
    fail-ne-other = key_text-ne (fail scope name) other_lock (λ h. cc)

    lock-ne-other : text_eq L (key_text other_lock) ≡ false
    lock-ne-other = key_text-ne (lock scope name) other_lock (λ h. apart (cc, cc))

    -- Where the scopes differ or the digests of the identifiers do, neither a failure of the one, whose
    -- counter holds a number, nor its clearing changes whether the other is locked.
    pub isolation :
        (now now' : ℕ) (s : S)
        → IsCounter (get redis s now F)
        → (assert_not_locked redis hmac settings scope' identifier' now' (after now s)
            ≡ assert_not_locked redis hmac settings scope' identifier' now' s)
          × (assert_not_locked redis hmac settings scope' identifier' now'
                (clear_failures redis hmac settings scope identifier s)
              ≡ assert_not_locked redis hmac settings scope' identifier' now' s)
    unfolding assert_not_locked key_text
    isolation now now' s c = (
      ground (
        arith,
        stored-record_failure redis hmac settings laws scope identifier now s c
            (key_text other_lock),
        fail-ne-other,
        lock-ne-other,
      ),
      ground (
        arith,
        stored-clear_failures redis hmac settings laws scope identifier s (key_text other_lock),
        fail-ne-other,
        lock-ne-other,
      ),
    )
