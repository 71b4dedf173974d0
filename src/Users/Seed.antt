-- ===== src/Users/Seed.antt =====
-- The roles and permissions that the service stores as it starts (`ensure_seed_data` of
-- services/user-service/app/services/rbac_service.py, lifecycle.py). The identifiers that the
-- database draws are arguments.
pub mod Seeded
pub mod Default
use backend_platform.Prelude.{ℕ, Option, none, some, List, [], ◌∷◌, ◌++◌}
use backend_platform.Prelude.Text.{Text, codes}
use backend_platform.Users.Store.{
  Role, Permission, Action, pure, gets, add, flush, commit, ◌>>=◌, ◌>>◌,
}
use backend_platform.Users.Service.{
  get_role_by_name, get_permission_by_name, ensure_role_permission,
}

-- `create_role` and `create_permission`
unfoldable pub create_role : ℕ → Text → Action Role
create_role id name =
    let role : Role = record { id = id; name = name } in
    do add λ s. record s { roles = s.roles ++ (role ∷ []) }; flush; pure role

unfoldable pub create_permission : ℕ → Text → Action Permission
create_permission id name =
    let permission : Permission = record { id = id; name = name } in
    do
      add λ s. record s { permissions = s.permissions ++ (permission ∷ []) }
      flush
      pure permission

unfoldable pub or_create_role : ℕ → Text → Option Role → Action Role
or_create_role id name (some role) = pure role
or_create_role id name none = create_role id name

unfoldable pub or_create_permission : ℕ → Text → Option Permission → Action Permission
or_create_permission id name (some permission) = pure permission
or_create_permission id name none = create_permission id name

-- `_get_or_create_role` and `_get_or_create_permission`
unfoldable pub get_or_create_role : ℕ → Text → Action Role
get_or_create_role id name = do found ← gets (get_role_by_name name); or_create_role id name found

unfoldable pub get_or_create_permission : ℕ → Text → Action Permission
get_or_create_permission id name = do
  found ← gets (get_permission_by_name name)
  or_create_permission id name found

-- The identifiers drawn for the rows that are not there.
pub record SeedIds : Type 0 where
  pub user_role : ℕ
  pub admin_role : ℕ
  pub profile_read : ℕ
  pub profile_write : ℕ
  pub users_read : ℕ
  pub users_write : ℕ
  pub roles_assign : ℕ

-- The loop over the administrator's permissions.
unfoldable pub grant_all : ℕ → List Permission → Action (Unit {0})
grant_all role_id [] = pure tt
grant_all role_id (permission ∷ permissions) =
    ensure_role_permission role_id permission.id >> grant_all role_id permissions

unfoldable pub ensure_seed_data : SeedIds → Action (Unit {0})
ensure_seed_data drawn = do
  user_role ← get_or_create_role drawn.user_role (codes "user")
  admin_role ← get_or_create_role drawn.admin_role (codes "admin")
  p_profile_read ← get_or_create_permission drawn.profile_read (codes "profile:read:self")
  p_profile_write ← get_or_create_permission drawn.profile_write (codes "profile:write:self")
  p_users_read ← get_or_create_permission drawn.users_read (codes "users:read")
  p_users_write ← get_or_create_permission drawn.users_write (codes "users:write")
  p_roles_assign ← get_or_create_permission drawn.roles_assign (codes "roles:assign")
  ensure_role_permission user_role.id p_profile_read.id
  ensure_role_permission user_role.id p_profile_write.id
  grant_all admin_role.id
      (p_profile_read ∷ p_profile_write ∷ p_users_read ∷ p_users_write ∷ p_roles_assign ∷ [])

-- What the service does with the session of its start.
unfoldable pub start_up : SeedIds → Action (Unit {0})
start_up drawn = ensure_seed_data drawn >> commit
