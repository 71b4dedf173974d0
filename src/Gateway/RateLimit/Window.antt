-- ===== src/Gateway/RateLimit/Window.antt =====
-- The counter of a client in one minute (services/api-gateway/app/core/rate_limit.py).
use backend_platform.Prelude.{
  ℕ, suc, ◌+◌, ◌*◌, ◌/◌, ◌≤◌, ◌<◌, ◌≡◌, refl, ◌∙◌, ap, true, Option, none, some, List, [], ◌∷◌,
  length, All, arith, if◌then◌else◌, ltb,
}
use backend_platform.Prelude.Text.{Text, text_eq_refl}
use backend_platform.Redis.{Redis, RedisLaws, Entry, number, live}
use backend_platform.Gateway.Errors.{ok, err, too_many_requests}
use backend_platform.Gateway.Requests.{Request, Settings, Providers}
use backend_platform.Gateway.RateLimit.{counter_key, check}

module _ {S : Type 0} (redis : Redis S) (p : Providers) (settings : Settings) (request : Request)
    (scope : Text) (limit : ℕ) where
  -- The server after a request of the client at each of the seconds.
  abbrev pub checks : List ℕ → S → S
  checks [] s = s
  checks (t ∷ ts) s = checks ts (check redis p settings true request scope limit t s).1

module _ {S : Type 0} (redis : Redis S) (laws : RedisLaws redis) (p : Providers)
    (settings : Settings) (request : Request) (scope : Text) (limit : ℕ) where
  abbrev key : ℕ → Text
  key now = counter_key redis p settings request scope now

  abbrev counting : ℕ → ℕ → Option Entry
  counting n d = some (record { value = number n; deadline = some d })

  -- The first request of a minute.
  first_check :
      (now : ℕ) (s : S)
      → redis.stored s (key now) ≡ none
      → ((check redis p settings true request scope limit now s).0
          ≡ (if ltb 0 limit then ok tt else err too_many_requests))
        × (redis.stored (check redis p settings true request scope limit now s).1 (key now)
            ≡ counting 1 (now + 61))
  unfolding check
  first_check now s h =
      let k = key now in
      let counted_one : redis.stored (redis.incr s now k) k
          ≡ some (record { value = number 1; deadline = none }) =
        ground (arith, h, text_eq_refl k, laws.stored-incr s now k k (rw h tt)) in
      let expiring_one = laws.stored-expire (redis.incr s now k) now k 61 k in
      (ground (arith, counted_one), ground (arith, counted_one, expiring_one, text_eq_refl k))

  -- A later one, while the counter lives.
  next_check :
      (now n d : ℕ) (s : S)
      → redis.stored s (key now) ≡ counting n d
      → 0 < n
      → now < d
      → ((check redis p settings true request scope limit now s).0
          ≡ (if ltb n limit then ok tt else err too_many_requests))
        × (redis.stored (check redis p settings true request scope limit now s).1 (key now)
            ≡ counting (suc n) d)
  unfolding check
  next_check now n d s h positive alive =
      let k = key now in
      let alive' : live now (redis.stored s k) ≡ counting n d = rw h (ground (arith, alive)) in
      let counted_next : redis.stored (redis.incr s now k) k ≡ counting (suc n) d =
        ground (arith, h, alive', text_eq_refl k, laws.stored-incr s now k k (rw alive' tt)) in
      (ground (arith, counted_next, alive, positive), ground (arith, counted_next, alive, positive))

  same_key : (now t : ℕ) → t / 60 ≡ now / 60 → key t ≡ key now
  unfolding counter_key
  same_key now t h = rw h refl

  -- The counter after further requests of the minute.
  checks_count :
      (now n d : ℕ) (ts : List ℕ) (s : S)
      → redis.stored s (key now) ≡ counting n d
      → 0 < n
      → 60 * (now / 60) + 60 ≤ d
      → All (λ t. t / 60 ≡ now / 60) ts
      → redis.stored (checks redis p settings request scope limit ts s) (key now)
        ≡ counting (n + length ts) d
  checks_count now n d [] s h positive alive same = h ∙ ap (λ m. counting m d) (ground arith)
  checks_count now n d (t ∷ ts) s h positive alive (e, es) =
      let before : redis.stored s (key t) ≡ counting n d = rw (same_key now t e) h in
      let (_, after) = next_check t n d s before positive (omega (arith, e, alive)) in
      checks_count now (suc n) d ts (check redis p settings true request scope limit t s).1
        (rw (same_key now t e) at after) (omega arith) alive es
      ∙ ap (λ m. counting m d) (omega arith)

  pub limit_per_minute :
      (t0 t : ℕ) (ts : List ℕ) (s : S)
      → redis.stored s (key t0) ≡ none
      → All (λ u. u / 60 ≡ t0 / 60) ts
      → t / 60 ≡ t0 / 60
      → (check redis p settings true request scope limit t
          (checks redis p settings request scope limit (t0 ∷ ts) s)).0
        ≡ (if ltb (1 + length ts) limit then ok tt else err too_many_requests)
  limit_per_minute t0 t ts s h es e =
      let (_, first) = first_check t0 s h in
      let counted_all = checks_count t0 1 (t0 + 61) ts _ first (omega arith) (omega arith) es in
      let (answer, _) =
        next_check t (1 + length ts) (t0 + 61) _ (rw (same_key t0 t e) counted_all) (omega arith)
          (omega (arith, e)) in
      answer
