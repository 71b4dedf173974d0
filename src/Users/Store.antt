-- ===== src/Users/Store.antt =====
-- The tables of the service (services/user-service/app/models) and a request's database session
-- (app/db/session.py). A session sends what was added when it is flushed; until then it counts it as
-- new, and after that no longer.
use backend_platform.Prelude.{
  ℕ, ◌≡◌, ◌⊎◌, inl, inr, refl, Bool, true, false, Option, none, some, List, arith, if◌then◌else◌,
}
use backend_platform.Prelude.Text.{Text}
use backend_platform.Audit.{AuditEvent}

pub record Role : Type 0 where
  pub id : ℕ
  pub name : Text

pub record Permission : Type 0 where
  pub id : ℕ
  pub name : Text

pub record AppUser : Type 0 where
  pub id : ℕ
  pub external_subject : Text
  pub is_active : Bool

pub record UserProfile : Type 0 where
  pub user_id : ℕ
  pub display_name : Option Text
  pub locale : Text
  pub timezone : Text
  pub avatar_url : Option Text

pub record Store : Type 0 where
  pub users : List AppUser
  pub profiles : List UserProfile
  pub roles : List Role
  pub permissions : List Permission
  -- role and permission; user and role
  pub role_permissions : List (ℕ × ℕ)
  pub user_roles : List (ℕ × ℕ)
  pub audit_events : List AuditEvent

-- `unflushed` is `session.new or session.dirty`.
pub record Session : Type 0 where
  pub store : Store
  pub committed : Store
  pub unflushed : Bool

pub data Error : Type 0 where
  unauthorized forbidden bad_request not_found runtime_error : Error

pub data Result (A : Type 0) : Type 0 where
  ok : A → Result A
  err : Error → Result A

abbrev pub Action : Type 0 → Type 0
Action A = Session → Result A × Session

module _ {A : Type 0} where
  unfoldable pub pure : A → Action A
  pure a w = (ok a, w)

  unfoldable pub gets : (Store → A) → Action A
  gets f w = (ok (f w.store), w)

  unfoldable pub or_raise : Option A → Error → Action A
  or_raise none e w = (err e, w)
  or_raise (some a) e w = (ok a, w)

unfoldable pub raise_if : Bool → Error → Action (Unit {0})
raise_if true e w = (err e, w)
raise_if false e w = (ok tt, w)

-- `session.add(…)`, or a change to an object of the session
unfoldable pub add : (Store → Store) → Action (Unit {0})
add f w = (ok tt, record w { store = f w.store; unflushed = true })

-- `session.flush()`
unfoldable pub flush : Action (Unit {0})
flush w = (ok tt, record w { unflushed = false })

-- `session.commit()`
unfoldable pub commit : Action (Unit {0})
commit w = (ok tt, record w { committed = w.store; unflushed = false })

-- `if session.new or session.dirty: await session.commit()`
unfoldable pub commit_if_unflushed : Action (Unit {0})
unfolding commit
commit_if_unflushed w = if w.unflushed then commit w else (ok tt, w)

infixl 5 ◌>>=◌ ◌>>◌
-- Opening this opens the steps above too.
unfoldable pub ◌>>=◌ : {A B : Type 0} → Action A → (A → Action B) → Action B
unfolding pure gets or_raise raise_if add flush commit commit_if_unflushed
◌>>=◌ m f w = let (r, w') = m w in elim r [ ok a ↦ f a w' | err e ↦ (err e, w') ]

abbrev pub ◌>>◌ : {A B : Type 0} → Action A → Action B → Action B
m >> k = m >>= λ _. k

-- `get_session`: what is not committed is lost as the session closes.
unfoldable pub in_session : {A : Type 0} → Action A → Store → Result A × Store
in_session m s =
    let (r, w) = m (record { store = s; committed = s; unflushed = false }) in (r, w.committed)

pub Result-cases :
    {A : Type 0} (r : Result A) → ((a : A) × (r ≡ ok a)) ⊎ ((e : Error) × (r ≡ err e))
Result-cases (ok a) = inl (a, refl)
Result-cases (err e) = inr (e, refl)

pub bind_ok :
    {A B : Type 0} (m : Action A) (f : A → Action B) (w w' : Session) (a : A)
    → m w ≡ (ok a, w')
    → (m >>= f) w ≡ f a w'
unfolding ◌>>=◌
bind_ok m f w w' a h = ground arith
