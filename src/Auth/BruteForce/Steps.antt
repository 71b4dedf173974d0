-- ===== src/Auth/BruteForce/Steps.antt =====
-- What one failure does to the counter, to the lock and to every other entry.
use backend_platform.Prelude.{
  ℕ, suc, ◌+◌, ◌≡◌, true, false, Option, none, some, arith, leb, ◌==◌, if◌then◌else◌,
}
use backend_platform.Prelude.Text.{Text, codes, text_eq, text_eq_refl}
use backend_platform.Redis.{
  Redis, RedisLaws, Entry, number, text, IsCounter, live, is_live, counted, deadline_of, get,
}
use backend_platform.Redis.Keys.{Scope, fail, lock, key_text, key_text-ne}
use backend_platform.Auth.Settings.{Settings}
use backend_platform.Auth.BruteForce.{
  Policy, policy, identifier_digest, record_failure, clear_failures,
}

-- The counter after one more failure: gone at the limit, and a first failure opens the window.
abbrev pub counter_after : Policy → ℕ → Option Entry → Option Entry
counter_after p now c =
    let n = suc (counted c) in
    if leb p.max_attempts n
    then none
    else some (record {
      value = number n;
      deadline = if n == 1 then some (now + p.window_seconds) else deadline_of c;
    })

-- The lock after a failure: renewed at the limit.
abbrev pub lock_after : Policy → ℕ → Option Entry → Option Entry → Option Entry
lock_after p now c l =
    if leb p.max_attempts (suc (counted c))
    then some (record { value = text (codes "1"); deadline = some (now + p.lock_seconds) })
    else l

is_live-deadline_of : (now : ℕ) (e : Option Entry) → is_live now (deadline_of (live now e)) ≡ true
is_live-deadline_of now e = ground arith

pub fail-ne-lock :
    (scope : Scope) (i : Text) → text_eq (key_text (fail scope i)) (key_text (lock scope i)) ≡ false
fail-ne-lock scope i = key_text-ne (fail scope i) (lock scope i) (λ h. cc)

pub lock-ne-fail :
    (scope : Scope) (i : Text) → text_eq (key_text (lock scope i)) (key_text (fail scope i)) ≡ false
lock-ne-fail scope i = key_text-ne (lock scope i) (fail scope i) (λ h. cc)

module _ {S : Type 0} (redis : Redis S) (hmac : Text → Text → Text) (settings : Settings)
    (laws : RedisLaws redis) (scope : Scope) (identifier : Text) where
  abbrev pub fail_name : Text
  fail_name = key_text (fail scope (identifier_digest redis hmac settings identifier))

  abbrev pub lock_name : Text
  lock_name = key_text (lock scope (identifier_digest redis hmac settings identifier))

  module _ (now : ℕ) (s : S) (counter : IsCounter (live now (redis.stored s fail_name))) where
    attempts-incr :
        counted (get redis (redis.incr s now fail_name) now fail_name)
        ≡ suc (counted (get redis s now fail_name))
    attempts-incr = ground (
      arith,
      laws.stored-incr s now fail_name fail_name counter,
      text_eq_refl fail_name,
      is_live-deadline_of now (redis.stored s fail_name),
    )

    pub attempts-record_failure :
        (record_failure redis hmac settings scope identifier now s).0
        ≡ suc (counted (get redis s now fail_name))
    unfolding record_failure key_text
    attempts-record_failure = attempts-incr

    -- The window opens at the first failure.
    abbrev opened : S
    opened =
        let s1 = redis.incr s now fail_name in
        if suc (counted (get redis s now fail_name)) == 1
        then redis.expire s1 now fail_name (policy settings scope).window_seconds
        else s1

    stored-opened :
        (k : Text)
        → redis.stored opened k ≡ (
            if text_eq fail_name k
            then some (record {
              value = number (suc (counted (get redis s now fail_name)));
              deadline =
                  if suc (counted (get redis s now fail_name)) == 1
                  then some (now + (policy settings scope).window_seconds)
                  else deadline_of (get redis s now fail_name);
            })
            else redis.stored s k)
    stored-opened k = ground (
      arith,
      laws.stored-incr s now fail_name fail_name counter,
      laws.stored-incr s now fail_name k counter,
      laws.stored-expire (redis.incr s now fail_name) now fail_name
          (policy settings scope).window_seconds k,
      text_eq_refl fail_name,
      is_live-deadline_of now (redis.stored s fail_name),
    )

    -- A failure counts, locks at the limit, and touches no other entry.
    pub stored-record_failure :
        (k : Text)
        → redis.stored (record_failure redis hmac settings scope identifier now s).1 k ≡ (
            if text_eq fail_name k
            then counter_after (policy settings scope) now (get redis s now fail_name)
            else if text_eq lock_name k
            then lock_after
                (policy settings scope)
                now
                (get redis s now fail_name)
                (redis.stored s k)
            else redis.stored s k)
    unfolding record_failure key_text
    stored-record_failure k = rw attempts-incr (
        ground (
          arith,
          stored-opened k,
          laws.stored-set opened now lock_name (codes "1") (policy settings scope).lock_seconds k,
          laws.stored-delete
              (redis.set opened now lock_name (codes "1") (policy settings scope).lock_seconds)
              fail_name k,
        ))

  -- Clearing removes both entries and no other.
  pub stored-clear_failures :
      (s : S) (k : Text)
      → redis.stored (clear_failures redis hmac settings scope identifier s) k ≡ (
          if text_eq fail_name k
          then none
          else if text_eq lock_name k
          then none
          else redis.stored s k)
  unfolding clear_failures key_text
  stored-clear_failures s k = ground (
    arith,
    laws.stored-delete (redis.delete s fail_name) lock_name k,
    laws.stored-delete s fail_name k,
  )
