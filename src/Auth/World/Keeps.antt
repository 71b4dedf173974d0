-- ===== src/Auth/World/Keeps.antt =====
-- What an action leaves true of the database, on every path through it: one rule for each way to
-- build an action.
use backend_platform.Prelude.{ℕ, ◌≡◌, Bool, true, false, Option, none, some, Bool-cases, inl, inr}
use backend_platform.Auth.Db.{Db}
use backend_platform.Auth.Errors.{Error, Result, ok, err}
use backend_platform.Auth.World.{
  World, Action, pure, raise, lift, gets, or_raise, raise_if, clock, modify, flush, modify_redis,
  commit, rollback, when, branch, on_redis, reads_redis, lift_redis, catch, ◌>>=◌, in_session,
}

-- The property holds of the session's view and of what is committed.
pub record Holds {S : Type 0} (P : Db → Type 0) (w : World S) : Type 0 where
  pub here : P w.db
  pub there : P w.committed

-- Whether the action returns or raises, the property is kept.
pub record Keeps {S A : Type 0} (P : Db → Type 0) (m : Action S A) : Type 0 where
  pub at : (w : World S) → Holds P w → Holds P (m w).1

module _ {S A : Type 0} {P : Db → Type 0} where
  pub Keeps-pure : (a : A) → Keeps P (pure {S = S} a)
  unfolding pure
  Keeps-pure a = record { at = λ w h. h }

  pub Keeps-raise : (e : Error) → Keeps P (raise {S = S} {A = A} e)
  unfolding raise
  Keeps-raise e = record { at = λ w h. h }

  pub Keeps-lift : (r : Result A) → Keeps P (lift {S = S} r)
  unfolding lift
  Keeps-lift r = record { at = λ w h. h }

  pub Keeps-gets : (f : Db → A) → Keeps P (gets {S = S} f)
  unfolding gets
  Keeps-gets f = record { at = λ w h. h }

  pub Keeps-or_raise : (o : Option A) (e : Error) → Keeps P (or_raise {S = S} o e)
  unfolding or_raise
  Keeps-or_raise none e = record { at = λ w h. h }
  Keeps-or_raise (some a) e = record { at = λ w h. h }

  pub Keeps-branch : (b : Bool) (m n : Action S A) → Keeps P m → Keeps P n → Keeps P (branch b m n)
  unfolding branch
  Keeps-branch true m n km kn = km
  Keeps-branch false m n km kn = kn

  pub Keeps-on_redis : (f : ℕ → S → A × S) → Keeps P (on_redis f)
  unfolding on_redis
  Keeps-on_redis f = record { at = λ w h. record { here = h.here; there = h.there } }

  pub Keeps-reads_redis : (f : ℕ → S → A) → Keeps P (reads_redis f)
  unfolding reads_redis
  Keeps-reads_redis f = record { at = λ w h. h }

  pub Keeps-lift_redis : (f : ℕ → S → Result A) → Keeps P (lift_redis f)
  unfolding lift_redis
  Keeps-lift_redis f = record { at = λ w h. h }

  handled :
      (r : Result A) (w : World S) (handler : Error → Action S A)
      → ((e : Error) → Keeps P (handler e))
      → Holds P w
      → Holds P (catch (lift r) handler w).1
  unfolding catch lift
  handled (ok a) w handler kh h = h
  handled (err e) w handler kh h = (kh e).at w h

  pub Keeps-catch :
      (m : Action S A) (handler : Error → Action S A)
      → Keeps P m
      → ((e : Error) → Keeps P (handler e))
      → Keeps P (catch m handler)
  unfolding catch lift
  Keeps-catch m handler km kh = record {
    at = λ w h. handled (m w).0 (m w).1 handler kh (km.at w h);
  }

  pub Keeps-in_session : (m : Action S A) → Keeps P m → Keeps P (in_session m)
  unfolding in_session
  Keeps-in_session m km = record {
    at = λ w h.
        let kept =
          km.at (record w { db = w.committed }) (record { here = h.there; there = h.there }) in
        record { here = kept.there; there = kept.there };
  }

module _ {S : Type 0} {P : Db → Type 0} where
  pub Keeps-raise_if : (b : Bool) (e : Error) → Keeps P (raise_if {S = S} b e)
  unfolding raise_if
  Keeps-raise_if true e = record { at = λ w h. h }
  Keeps-raise_if false e = record { at = λ w h. h }

  pub Keeps-clock : Keeps P (clock {S = S})
  unfolding clock
  Keeps-clock = record { at = λ w h. h }

  pub Keeps-modify : (f : Db → Db) → ((db : Db) → P db → P (f db)) → Keeps P (modify {S = S} f)
  unfolding modify
  Keeps-modify f kf = record { at = λ w h. record { here = kf w.db h.here; there = h.there } }

  pub Keeps-flush :
      (clash : Db → Bool) (f : Db → Db)
      → ((db : Db) → clash db ≡ false → P db → P (f db))
      → Keeps P (flush {S = S} clash f)
  unfolding flush
  Keeps-flush clash f kf = record {
    at = λ w h. elim (Bool-cases (clash w.db)) [
      | inl refused ↦ rw refused h
      | inr free ↦ rw free (record { here = kf w.db free h.here; there = h.there })
    ];
  }

  pub Keeps-modify_redis : (f : ℕ → S → S) → Keeps P (modify_redis f)
  unfolding modify_redis
  Keeps-modify_redis f = record { at = λ w h. record { here = h.here; there = h.there } }

  pub Keeps-commit : Keeps P (commit {S = S})
  unfolding commit
  Keeps-commit = record { at = λ w h. record { here = h.here; there = h.here } }

  pub Keeps-rollback : Keeps P (rollback {S = S})
  unfolding rollback
  Keeps-rollback = record { at = λ w h. record { here = h.there; there = h.there } }

  pub Keeps-when : (b : Bool) (m : Action S (Unit {0})) → Keeps P m → Keeps P (when b m)
  unfolding when
  Keeps-when true m km = km
  Keeps-when false m km = record { at = λ w h. h }

module _ {S A B : Type 0} {P : Db → Type 0} where
  after :
      (r : Result A) (w : World S) (f : A → Action S B)
      → ((a : A) → Keeps P (f a))
      → Holds P w
      → Holds P ((lift r >>= f) w).1
  unfolding ◌>>=◌
  after (ok a) w f kf h = (kf a).at w h
  after (err e) w f kf h = h

  pub Keeps-bind :
      (m : Action S A) (f : A → Action S B)
      → Keeps P m
      → ((a : A) → Keeps P (f a))
      → Keeps P (m >>= f)
  unfolding ◌>>=◌
  Keeps-bind m f km kf = record { at = λ w h. after (m w).0 (m w).1 f kf (km.at w h) }

pub ruleset keeps_rules = (
  Keeps-pure, Keeps-raise, Keeps-lift, Keeps-gets, Keeps-or_raise, Keeps-branch, Keeps-raise_if,
  Keeps-clock, Keeps-modify_redis, Keeps-commit, Keeps-rollback, Keeps-when, Keeps-bind,
  Keeps-on_redis, Keeps-reads_redis, Keeps-lift_redis, Keeps-catch,
)
