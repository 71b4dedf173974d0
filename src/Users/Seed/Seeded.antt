-- ===== src/Users/Seed/Seeded.antt =====
-- What the start of the user service leaves in its tables
-- (services/user-service/app/services/rbac_service.py).
use backend_platform.Prelude.{
  ℕ, ◌≡◌, refl, true, false, some, List, [], ◌∷◌, ◌++◌, find-append, find-append_missing,
  any-append, any, arith, Option-cases, inl, inr,
}
use backend_platform.Prelude.Text.{Text, codes, text_eq, text_eq_refl}
use backend_platform.Users.Store.{Role, Permission, Store, Session, Action, ok, pure, ◌>>=◌}
use backend_platform.Users.Service.{
  get_role_by_name, get_permission_by_name, ensure_role_permission, is_pair, with_pair,
}
use backend_platform.Users.Seed.{
  SeedIds, create_role, create_permission, or_create_role, or_create_permission, get_or_create_role,
  get_or_create_permission, grant_all, ensure_seed_data,
}

-- A role that is granted a permission.
abbrev pub IsGranted : ℕ → ℕ → Store → Type 0
IsGranted role permission s = any (is_pair role permission) s.role_permissions ≡ true

-- Nothing that was found is lost.
pub record Extends (s s' : Store) : Type 0 where
  pub roles :
      (name : Text) (r : Role)
      → get_role_by_name name s ≡ some r
      → get_role_by_name name s' ≡ some r
  pub permissions :
      (name : Text) (q : Permission)
      → get_permission_by_name name s ≡ some q
      → get_permission_by_name name s' ≡ some q
  pub grants : (a b : ℕ) → IsGranted a b s → IsGranted a b s'

Extends-trans : {s t u : Store} → Extends s t → Extends t u → Extends s u
Extends-trans e f = record {
  roles = λ name r h. f.roles name r (e.roles name r h);
  permissions = λ name q h. f.permissions name q (e.permissions name q h);
  grants = λ a b h. f.grants a b (e.grants a b h);
}

-- An action that returns, and loses nothing.
pub record Goes {A : Type 0} (m : Action A) (w : Session) (a : A) (w' : Session) : Type 0 where
  pub runs : m w ≡ (ok a, w')
  pub extends : Extends w.store w'.store

Goes-bind :
    {A B : Type 0} {m : Action A} (f : A → Action B) {w w' w'' : Session} {a : A} {b : B}
    → Goes m w a w'
    → Goes (f a) w' b w''
    → Goes (m >>= f) w b w''
unfolding ◌>>=◌
Goes-bind f g h = record {
  runs = ground (arith, g.runs, h.runs);
  extends = Extends-trans g.extends h.extends;
}

role-Goes :
    (id : ℕ) (name : Text) (w : Session)
    → (r : Role) × (w' : Session) × Goes (get_or_create_role id name) w r w'
      × (get_role_by_name name w'.store ≡ some r)
unfolding get_or_create_role or_create_role create_role ◌>>=◌ get_role_by_name
    get_permission_by_name
role-Goes id name w = elim (Option-cases (get_role_by_name name w.store)) [
  | inr (r, found) ↦ (
    r,
    w,
    record {
      runs = ground (arith, found);
      extends = record { roles = λ n x h. h; permissions = λ n x h. h; grants = λ a b h. h };
    },
    found,
  )
  | inl missing ↦
      let role : Role = record { id = id; name = name } in
      (
        role,
        record w {
          store = record w.store { roles = w.store.roles ++ (role ∷ []) };
          unflushed = false;
        },
        record {
          runs = ground (arith, missing);
          extends = record {
            roles = λ n x h. find-append (λ r. text_eq r.name n) w.store.roles (role ∷ []) x h;
            permissions = λ n x h. h;
            grants = λ a b h. h;
          };
        },
        find-append_missing (λ r. text_eq r.name name) w.store.roles role missing
            (text_eq_refl name),
      )
]

permission-Goes :
    (id : ℕ) (name : Text) (w : Session)
    → (q : Permission) × (w' : Session) × Goes (get_or_create_permission id name) w q w'
      × (get_permission_by_name name w'.store ≡ some q)
unfolding get_or_create_permission or_create_permission create_permission ◌>>=◌ get_role_by_name
    get_permission_by_name
permission-Goes id name w = elim (Option-cases (get_permission_by_name name w.store)) [
  | inr (q, found) ↦ (
    q,
    w,
    record {
      runs = ground (arith, found);
      extends = record { roles = λ n x h. h; permissions = λ n x h. h; grants = λ a b h. h };
    },
    found,
  )
  | inl missing ↦
      let permission : Permission = record { id = id; name = name } in
      (
        permission,
        record w {
          store = record w.store { permissions = w.store.permissions ++ (permission ∷ []) };
          unflushed = false;
        },
        record {
          runs = ground (arith, missing);
          extends = record {
            roles = λ n x h. h;
            permissions = λ n x h.
                find-append (λ q. text_eq q.name n) w.store.permissions (permission ∷ []) x h;
            grants = λ a b h. h;
          };
        },
        find-append_missing (λ q. text_eq q.name name) w.store.permissions permission missing
            (text_eq_refl name),
      )
]

with_pair-kept :
    (a b c d : ℕ) (rows : List (ℕ × ℕ))
    → any (is_pair a b) rows ≡ true
    → any (is_pair a b) (with_pair c d rows) ≡ true
with_pair-kept a b c d rows h = ground (arith, h, any-append (is_pair a b) rows ((c, d) ∷ []))

pub with_pair-there :
    (a b : ℕ) (rows : List (ℕ × ℕ)) → any (is_pair a b) (with_pair a b rows) ≡ true
with_pair-there a b rows = ground (arith, any-append (is_pair a b) rows ((a, b) ∷ []))

grant-Goes :
    (a b : ℕ) (w : Session)
    → (w' : Session) × Goes (ensure_role_permission a b) w tt w' × IsGranted a b w'.store
unfolding ensure_role_permission ◌>>=◌ get_role_by_name get_permission_by_name
grant-Goes a b w = (
  record w {
    store = record w.store { role_permissions = with_pair a b w.store.role_permissions };
    unflushed = false;
  },
  record {
    runs = refl;
    extends = record {
      roles = λ n x h. h;
      permissions = λ n x h. h;
      grants = λ c d h. with_pair-kept c d a b w.store.role_permissions h;
    };
  },
  with_pair-there a b w.store.role_permissions,
)

-- Every permission of a list is granted.
abbrev pub AllGranted : ℕ → List Permission → Store → Type 0
AllGranted role [] s = Unit
AllGranted role (q ∷ qs) s = IsGranted role q.id s × AllGranted role qs s

grant_all-Goes :
    (role : ℕ) (qs : List Permission) (w : Session)
    → (w' : Session) × Goes (grant_all role qs) w tt w' × AllGranted role qs w'.store
unfolding grant_all pure
grant_all-Goes role [] w = (
  w,
  record {
    runs = refl;
    extends = record { roles = λ n x h. h; permissions = λ n x h. h; grants = λ a b h. h };
  },
  tt,
)
grant_all-Goes role (q ∷ qs) w =
    let (w', g, granted) = grant-Goes role q.id w in
    let (w'', g', rest) = grant_all-Goes role qs w' in
    (w'', Goes-bind _ g g', (g'.extends.grants role q.id granted, rest))

-- The roles and permissions are there, and the roles are granted what they are to be granted.
pub record IsSeeded (s : Store) : Type 0 where
  pub user_role : Role
  pub admin_role : Role
  pub profile_read : Permission
  pub profile_write : Permission
  pub users_read : Permission
  pub users_write : Permission
  pub roles_assign : Permission
  pub has_user : get_role_by_name (codes "user") s ≡ some user_role
  pub has_admin : get_role_by_name (codes "admin") s ≡ some admin_role
  pub has_profile_read : get_permission_by_name (codes "profile:read:self") s ≡ some profile_read
  pub has_profile_write : get_permission_by_name (codes "profile:write:self") s ≡ some profile_write
  pub has_users_read : get_permission_by_name (codes "users:read") s ≡ some users_read
  pub has_users_write : get_permission_by_name (codes "users:write") s ≡ some users_write
  pub has_roles_assign : get_permission_by_name (codes "roles:assign") s ≡ some roles_assign
  pub user_reads : IsGranted user_role.id profile_read.id s
  pub user_writes : IsGranted user_role.id profile_write.id s
  pub admin_all :
      AllGranted admin_role.id
        (profile_read ∷ profile_write ∷ users_read ∷ users_write ∷ roles_assign ∷ [])
        s

-- The seeding returns, and leaves all of it.
pub seed-Goes :
    (drawn : SeedIds) (w : Session)
    → (w' : Session) × Goes (ensure_seed_data drawn) w tt w' × IsSeeded w'.store
unfolding ensure_seed_data
seed-Goes drawn w =
    let (u, w1, g1, h1) = role-Goes drawn.user_role (codes "user") w in
    let (a, w2, g2, h2) = role-Goes drawn.admin_role (codes "admin") w1 in
    let (q3, w3, g3, h3) = permission-Goes drawn.profile_read (codes "profile:read:self") w2 in
    let (q4, w4, g4, h4) = permission-Goes drawn.profile_write (codes "profile:write:self") w3 in
    let (q5, w5, g5, h5) = permission-Goes drawn.users_read (codes "users:read") w4 in
    let (q6, w6, g6, h6) = permission-Goes drawn.users_write (codes "users:write") w5 in
    let (q7, w7, g7, h7) = permission-Goes drawn.roles_assign (codes "roles:assign") w6 in
    let (w8, g8, h8) = grant-Goes u.id q3.id w7 in
    let (w9, g9, h9) = grant-Goes u.id q4.id w8 in
    let (w10, g10, h10) = grant_all-Goes a.id (q3 ∷ q4 ∷ q5 ∷ q6 ∷ q7 ∷ []) w9 in
    let e9 = Extends-trans g9.extends g10.extends in
    let e8 = Extends-trans g8.extends e9 in
    let e7 = Extends-trans g7.extends e8 in
    let e6 = Extends-trans g6.extends e7 in
    let e5 = Extends-trans g5.extends e6 in
    let e4 = Extends-trans g4.extends e5 in
    let e3 = Extends-trans g3.extends e4 in
    (
      w10,
      Goes-bind _ g1 (
          Goes-bind _ g2 (
            Goes-bind _ g3 (
              Goes-bind _ g4 (
                Goes-bind _ g5
                  (Goes-bind _ g6 (Goes-bind _ g7 (Goes-bind _ g8 (Goes-bind _ g9 g10)))))))),
      record {
        user_role = u;
        admin_role = a;
        profile_read = q3;
        profile_write = q4;
        users_read = q5;
        users_write = q6;
        roles_assign = q7;
        has_user = e3.roles (codes "user") u (g2.extends.roles (codes "user") u h1);
        has_admin = e3.roles (codes "admin") a h2;
        has_profile_read = e4.permissions _ q3 h3;
        has_profile_write = e5.permissions _ q4 h4;
        has_users_read = e6.permissions _ q5 h5;
        has_users_write = e7.permissions _ q6 h6;
        has_roles_assign = e8.permissions _ q7 h7;
        user_reads = e9.grants u.id q3.id h8;
        user_writes = g10.extends.grants u.id q4.id h9;
        admin_all = h10;
      },
    )
