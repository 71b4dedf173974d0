-- ===== src/Auth/World.antt =====
-- A request's effects: the database behind a session of transactions (app/db/session.py), the Redis
-- server, and the clock, which one request reads as one second. What was written before a raise
-- stays written in the state that comes back; what was not committed is dropped when the request's
-- session closes.
pub mod Keeps
use backend_platform.Prelude.{ℕ, ◌≡◌, arith, Bool, true, false, Option, none, some, if◌then◌else◌}
use backend_platform.Auth.Db.{Db}
use backend_platform.Auth.Errors.{Error, Result, ok, err}

-- `db` is what the session sees, `committed` what the last commit left.
pub record World (S : Type 0) : Type 0 where
  pub db : Db
  pub committed : Db
  pub redis : S
  pub now : ℕ

abbrev pub Action : Type 0 → Type 0 → Type 0
Action S A = World S → Result A × World S

module _ {S A : Type 0} where
  -- A test in the middle of a block.
  unfoldable pub branch : Bool → Action S A → Action S A → Action S A
  branch true m n = m
  branch false m n = n

  unfoldable pub pure : A → Action S A
  pure a w = (ok a, w)

  unfoldable pub raise : Error → Action S A
  raise e w = (err e, w)

  unfoldable pub lift : Result A → Action S A
  lift r w = (r, w)

  unfoldable pub gets : (Db → A) → Action S A
  gets f w = (ok (f w.db), w)

  -- A call to the server that answers.
  unfoldable pub on_redis : (ℕ → S → A × S) → Action S A
  on_redis f w = let (a, s) = f w.now w.redis in (ok a, record w { redis = s })

  unfoldable pub reads_redis : (ℕ → S → A) → Action S A
  reads_redis f w = (ok (f w.now w.redis), w)

  -- A call to the server after which the caller may raise.
  unfoldable pub lift_redis : (ℕ → S → Result A) → Action S A
  lift_redis f w = (f w.now w.redis, w)

  -- `try: … except …`, the handler told the exception; what it does not handle it raises again.
  unfoldable pub catch : Action S A → (Error → Action S A) → Action S A
  catch m handler w = let (r, w') = m w in elim r [ ok a ↦ (ok a, w') | err e ↦ handler e w' ]

  unfoldable pub or_raise : Option A → Error → Action S A
  or_raise none e w = (err e, w)
  or_raise (some a) e w = (ok a, w)

module _ {S : Type 0} where
  unfoldable pub raise_if : Bool → Error → Action S (Unit {0})
  raise_if true e w = (err e, w)
  raise_if false e w = (ok tt, w)

  unfoldable pub clock : Action S ℕ
  clock w = (ok w.now, w)

  unfoldable pub modify : (Db → Db) → Action S (Unit {0})
  modify f w = (ok tt, record w { db = f w.db })

  -- A write that a uniqueness constraint may refuse.
  unfoldable pub flush : (Db → Bool) → (Db → Db) → Action S (Unit {0})
  flush clash f w =
      if clash w.db then (err Error.integrity_error, w) else (ok tt, record w { db = f w.db })

  unfoldable pub modify_redis : (ℕ → S → S) → Action S (Unit {0})
  modify_redis f w = (ok tt, record w { redis = f w.now w.redis })

  -- `session.commit()`
  unfoldable pub commit : Action S (Unit {0})
  commit w = (ok tt, record w { committed = w.db })

  -- `session.rollback()`
  unfoldable pub rollback : Action S (Unit {0})
  rollback w = (ok tt, record w { db = w.committed })

  unfoldable pub when : Bool → Action S (Unit {0}) → Action S (Unit {0})
  when true m w = m w
  when false m w = (ok tt, w)

infixl 5 ◌>>=◌ ◌>>◌
-- Opening this opens the steps above too.
unfoldable pub ◌>>=◌ : {S : Type 0} {A B : Type 0} → Action S A → (A → Action S B) → Action S B
unfolding pure raise lift gets or_raise raise_if clock modify flush modify_redis commit rollback
    when branch on_redis reads_redis lift_redis catch
◌>>=◌ m f w = let (r, w') = m w in elim r [ ok a ↦ f a w' | err e ↦ (err e, w') ]

abbrev pub ◌>>◌ : {S A B : Type 0} → Action S A → Action S B → Action S B
m >> k = m >>= λ _. k

-- `get_session` of db/session.py: a request starts from what is committed, and what it leaves
-- uncommitted is rolled back as its session closes.
unfoldable pub in_session : {S A : Type 0} → Action S A → Action S A
in_session m w =
    let (r, w') = m (record w { db = w.committed }) in (r, record w' { db = w'.committed })

module _ {S A B : Type 0} (m : Action S A) (f : A → Action S B) (w w' : World S) where
  pub bind_ok : (a : A) → m w ≡ (ok a, w') → (m >>= f) w ≡ f a w'
  unfolding ◌>>=◌
  bind_ok a h = ground arith

  pub bind_err : (e : Error) → m w ≡ (err e, w') → (m >>= f) w ≡ (err e, w')
  unfolding ◌>>=◌
  bind_err e h = ground arith
