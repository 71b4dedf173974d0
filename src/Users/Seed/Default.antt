-- ===== src/Users/Seed/Default.antt =====
-- A new user's role after the start of the service
-- (services/user-service/app/services/rbac_service.py, lifecycle.py).
use backend_platform.Prelude.{
  ℕ, ◌≡◌, refl, ap, ◌∙◌, sym, subst, Bool, true, false, ◌&&◌, some, List, [], ◌∷◌, any, any-find,
  arith, ◌==◌, ==_iff, ==_refl, find_sound,
}
use backend_platform.Prelude.Text.{Text, codes, text_eq}
use backend_platform.Users.Store.{
  Role, Permission, Store, Session, Result, ok, pure, ◌>>=◌, bind_ok, in_session,
}
use backend_platform.Users.Service.{
  get_role_by_name, get_permission_by_name, ensure_role_permission, is_pair, with_pair,
  ensure_default_user_role, assign_role_to_user, has_permission,
}
use backend_platform.Users.Seed.{
  SeedIds, or_create_role, or_create_permission, get_or_create_role, get_or_create_permission,
  grant_all, ensure_seed_data, start_up,
}
use backend_platform.Users.Seed.Seeded.{IsGranted, AllGranted, IsSeeded, seed-Goes, with_pair-there}

-- The session of a request on a store.
abbrev pub session_on : Store → Session
session_on s = record { store = s; committed = s; unflushed = false }

-- What holds of a pair that is there holds of some pair.
any-pair :
    (p : ℕ × ℕ → Bool) (a b : ℕ) (rows : List (ℕ × ℕ))
    → any (is_pair a b) rows ≡ true
    → p (a, b) ≡ true
    → any p rows ≡ true
any-pair p a b [] h fits = cc
any-pair p a b ((c, d) ∷ rows) h fits =
    ground (arith, h, fits, ==_iff c a, ==_iff d b, any-pair p a b rows)

role_found :
    (id : ℕ) (name : Text) (w : Session) (r : Role)
    → get_role_by_name name w.store ≡ some r
    → get_or_create_role id name w ≡ (ok r, w)
unfolding get_or_create_role or_create_role ◌>>=◌
role_found id name w r found = ground (arith, found)

permission_found :
    (id : ℕ) (name : Text) (w : Session) (q : Permission)
    → get_permission_by_name name w.store ≡ some q
    → get_or_create_permission id name w ≡ (ok q, w)
unfolding get_or_create_permission or_create_permission ◌>>=◌
permission_found id name w q found = ground (arith, found)

-- The session once what was added is flushed.
abbrev flushed : Session → Session
flushed w = record w { unflushed = false }

grant_found :
    (a b : ℕ) (w : Session)
    → IsGranted a b w.store
    → ensure_role_permission a b w ≡ (ok tt, flushed w)
unfolding ensure_role_permission ◌>>=◌
grant_found a b w granted = ground (arith, granted)

grant_all_found :
    (role : ℕ) (qs : List Permission) (w : Session)
    → w.unflushed ≡ false
    → AllGranted role qs w.store
    → grant_all role qs w ≡ (ok tt, flushed w)
unfolding grant_all pure
grant_all_found role [] w clean granted = ground (arith, clean)
grant_all_found role (q ∷ qs) w clean granted =
    bind_ok (ensure_role_permission role q.id) _ w (flushed w) tt
      (grant_found role q.id w granted.0)
    ∙ grant_all_found role qs (flushed w) refl granted.1

-- Where everything is there, seeding changes no row.
seeded_again :
    (drawn : SeedIds) (w : Session)
    → IsSeeded w.store
    → ensure_seed_data drawn w ≡ (ok tt, flushed w)
unfolding ensure_seed_data
seeded_again drawn w s =
    bind_ok _ _ w w s.user_role (role_found drawn.user_role _ w s.user_role s.has_user)
    ∙ bind_ok _ _ w w s.admin_role (role_found drawn.admin_role _ w s.admin_role s.has_admin)
    ∙ bind_ok _ _ w w s.profile_read
        (permission_found drawn.profile_read _ w s.profile_read s.has_profile_read)
    ∙ bind_ok _ _ w w s.profile_write
        (permission_found drawn.profile_write _ w s.profile_write s.has_profile_write)
    ∙ bind_ok _ _ w w s.users_read
        (permission_found drawn.users_read _ w s.users_read s.has_users_read)
    ∙ bind_ok _ _ w w s.users_write
        (permission_found drawn.users_write _ w s.users_write s.has_users_write)
    ∙ bind_ok _ _ w w s.roles_assign
        (permission_found drawn.roles_assign _ w s.roles_assign s.has_roles_assign)
    ∙ bind_ok _ _ w (flushed w) tt (grant_found s.user_role.id s.profile_read.id w s.user_reads)
    ∙ bind_ok _ _ (flushed w) (flushed w) tt
        (grant_found s.user_role.id s.profile_write.id (flushed w) s.user_writes)
    ∙ grant_all_found s.admin_role.id _ (flushed w) refl s.admin_all

-- What the start leaves committed.
start_up-IsSeeded :
    (drawn : SeedIds) (s : Store)
    → ((in_session (start_up drawn) s).0 ≡ ok tt) × IsSeeded (in_session (start_up drawn) s).1
unfolding in_session start_up ◌>>=◌
start_up-IsSeeded drawn s =
    let (w', g, seeded) = seed-Goes drawn (session_on s) in
    let run : in_session (start_up drawn) s ≡ (ok tt, w'.store) = ground (arith, g.runs) in
    (
      ap (λ (r : Result (Unit {0}) × Store). r.0) run,
      subst (λ (r : Result (Unit {0}) × Store). IsSeeded r.1) (sym run) seeded,
    )

-- A user with a role that is granted a permission has the permission.
permitted :
    (user_id : ℕ) (role : Role) (q : Permission) (role_name name : Text) (s : Store)
    → any (is_pair user_id role.id) s.user_roles ≡ true
    → get_role_by_name role_name s ≡ some role
    → get_permission_by_name name s ≡ some q
    → IsGranted role.id q.id s
    → has_permission user_id name s ≡ true
unfolding has_permission get_role_by_name get_permission_by_name
permitted user_id role q role_name name s assigned r found granted =
    let fits : any (λ perm. perm.id == q.id && text_eq perm.name name) s.permissions ≡ true =
      any-find (λ x. text_eq x.name name) (λ perm. perm.id == q.id && text_eq perm.name name)
        s.permissions q found
        (ground (arith, find_sound (λ x. text_eq x.name name) s.permissions q found)) in
    any-pair _ user_id role.id s.user_roles assigned (
      ground (
        arith,
        any-find (λ x. text_eq x.name role_name) (λ x. x.id == role.id) s.roles role r
            (==_refl role.id),
        any-pair
            (λ (r', q').
              r' == role.id && any (λ perm. perm.id == q' && text_eq perm.name name) s.permissions)
            role.id q.id s.role_permissions granted (ground (arith, fits)),
      ))

-- Starting the service again, whatever identifiers are drawn, changes no table.
pub restart_changes_nothing :
    (drawn drawn' : SeedIds) (s : Store)
    → in_session (start_up drawn') (in_session (start_up drawn) s).1
      ≡ (ok tt, (in_session (start_up drawn) s).1)
unfolding in_session start_up ◌>>=◌
restart_changes_nothing drawn drawn' s =
    let (_, seeded) = start_up-IsSeeded drawn s in
    ground (arith, seeded_again drawn' (session_on (in_session (start_up drawn) s).1) seeded)

-- After the start of the service, from whatever tables, giving a new user the default role does not
-- fail, and lets the user read and write the own profile.
pub default_role_permits :
    (drawn : SeedIds) (s : Store) (user_id : ℕ)
    → let run = ensure_default_user_role user_id (session_on (in_session (start_up drawn) s).1) in
      (run.0 ≡ ok tt)
      × (has_permission user_id (codes "profile:read:self") run.1.store ≡ true)
      × (has_permission user_id (codes "profile:write:self") run.1.store ≡ true)
unfolding ensure_default_user_role assign_role_to_user ◌>>=◌ get_role_by_name get_permission_by_name
default_role_permits drawn s user_id =
    let (_, h) = start_up-IsSeeded drawn s in
    let t = (in_session (start_up drawn) s).1 in
    let w' = record t { user_roles = with_pair user_id h.user_role.id t.user_roles } in
    (
      ground (arith, h.has_user),
      rw h.has_user (
          permitted user_id h.user_role h.profile_read (codes "user") (codes "profile:read:self") w'
            (with_pair-there user_id h.user_role.id t.user_roles) h.has_user h.has_profile_read
            h.user_reads),
      rw h.has_user (
          permitted user_id h.user_role h.profile_write (codes "user") (codes "profile:write:self")
            w' (with_pair-there user_id h.user_role.id t.user_roles) h.has_user h.has_profile_write
            h.user_writes),
    )
