-- ===== src/Redis.antt =====
-- The Redis server as its clients see it (services/*/app/integrations/redis/client.py connects to
-- it): an interface with the documented effect of the commands that the services send. The server
-- is not code of the repository, so every service takes it as a parameter.
pub mod Keys
pub mod Entries
pub mod Memory
use backend_platform.Prelude.{
  ℕ, suc, ◌+◌, ◌-◌, ◌≡◌, Bool, true, false, Option, none, some, ltb, if◌then◌else◌, is_some,
}
use backend_platform.Prelude.Text.{Text, text_eq}

-- What the services store: the number that INCR keeps, or a text.
pub data Value : Type 0 where
  number : ℕ → Value
  text : Text → Value

-- A value and the second at which it expires, if it has a time to live.
pub record Entry : Type 0 where
  pub value : Value
  pub deadline : Option ℕ

-- An entry is there until its deadline.
abbrev pub is_live : ℕ → Option ℕ → Bool
is_live now none = true
is_live now (some t) = ltb now t

abbrev pub live : ℕ → Option Entry → Option Entry
live now none = none
live now (some e) = if is_live now e.deadline then some e else none

-- The number under a key that INCR counts, 0 where there is none.
abbrev pub counted : Option Entry → ℕ
counted none = 0
counted (some e) = elim e.value [ number n ↦ n | text _ ↦ 0 ]

-- INCR is refused on an entry that holds no number.
abbrev pub IsCounter : Option Entry → Type 0
IsCounter none = Unit
IsCounter (some e) = elim e.value [ number _ ↦ Unit | text _ ↦ ⊥ ]

abbrev pub deadline_of : Option Entry → Option ℕ
deadline_of none = none
deadline_of (some e) = e.deadline

abbrev pub expiring : ℕ → Option Entry → Option Entry
expiring t none = none
expiring t (some e) = some (record e { deadline = some t })

-- `S` is the server's state. `stored` is the entry last written under a key, and a command at the
-- second `now` reads it through `live now`.
pub record Redis (S : Type 0) : Type 0 where
  pub stored : S → Text → Option Entry
  -- SET key value EX ttl
  pub set : S → ℕ → Text → Text → ℕ → S
  -- INCR key; the new number is read by `counted`
  pub incr : S → ℕ → Text → S
  -- EXPIRE key ttl
  pub expire : S → ℕ → Text → ℕ → S
  -- DEL key
  pub delete : S → Text → S

-- The documented effects: a command changes the entry under its key and no other.
pub record RedisLaws {S : Type 0} (redis : Redis S) : Type 0 where
  pub stored-set :
      (s : S) (now : ℕ) (k v : Text) (ttl : ℕ) (j : Text)
      → redis.stored (redis.set s now k v ttl) j ≡ (
          if text_eq k j
          then some (record { value = text v; deadline = some (now + ttl) })
          else redis.stored s j)
  pub stored-incr :
      (s : S) (now : ℕ) (k j : Text)
      → IsCounter (live now (redis.stored s k))
      → redis.stored (redis.incr s now k) j ≡ (
          if text_eq k j
          then some (record {
            value = number (suc (counted (live now (redis.stored s k))));
            deadline = deadline_of (live now (redis.stored s k));
          })
          else redis.stored s j)
  pub stored-expire :
      (s : S) (now : ℕ) (k : Text) (ttl : ℕ) (j : Text)
      → redis.stored (redis.expire s now k ttl) j ≡ (
          if text_eq k j
          then expiring (now + ttl) (live now (redis.stored s k))
          else redis.stored s j)
  pub stored-delete :
      (s : S) (k j : Text)
      → redis.stored (redis.delete s k) j ≡ (if text_eq k j then none else redis.stored s j)

module _ {S : Type 0} (redis : Redis S) where
  -- GET key
  abbrev pub get : S → ℕ → Text → Option Entry
  get s now k = live now (redis.stored s k)

  -- EXISTS key
  abbrev pub exists : S → ℕ → Text → Bool
  exists s now k = is_some (get s now k)
