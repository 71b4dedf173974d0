-- ===== src/Users/Endpoints.antt =====
-- The handlers (services/user-service/app/api/v1) and the caller that they share (app/api/deps.py).
-- The subject is that of an access token that was verified and whose session is active.
use backend_platform.Prelude.{ℕ, not, Option, some}
use backend_platform.Prelude.Text.{Text, codes}
use backend_platform.Audit.{Fields, field, plain, end}
use backend_platform.Users.Store.{
  Action, pure, gets, or_raise, raise_if, commit, commit_if_unflushed, ◌>>=◌, ◌>>◌, unauthorized,
  forbidden, not_found, UserProfile, AppUser,
}
use backend_platform.Users.Service.{
  UserContext, context_for_subject, get_by_id, assign_role_by_name, update_own_profile, log_event,
}

-- `ensure_permission`
unfoldable pub ensure_permission : UserContext → Text → Action (Unit {0})
ensure_permission context required = raise_if (not (context.permissions required)) forbidden

module _ (subject : ℕ) (subject_text : Text) (ip_address user_agent : Option Text) where
  unfoldable pub get_current_context : Action UserContext
  get_current_context = do
    context ← context_for_subject subject subject_text ip_address user_agent
    raise_if (not context.user.is_active) unauthorized
    commit_if_unflushed
    pure context

  unfoldable pub my_profile : Action UserProfile
  my_profile = do
    context ← get_current_context
    ensure_permission context (codes "profile:read:self")
    pure context.profile

  unfoldable pub update_profile :
      Option Text → Text → Text → Option Text → Fields → Action UserProfile
  update_profile display_name locale timezone avatar_url payload = do
    context ← get_current_context
    ensure_permission context (codes "profile:write:self")
    updated ←
        update_own_profile context.user.id context.user.id display_name locale timezone avatar_url
          ip_address user_agent payload
    commit
    pure updated

  unfoldable pub assign_role : ℕ → Text → Action (Unit {0})
  assign_role user_id role_name = do
    context ← get_current_context
    ensure_permission context (codes "roles:assign")
    found ← gets (get_by_id user_id)
    or_raise found not_found
    assign_role_by_name user_id role_name
    log_event (codes "user.role.assigned") (codes "success") (some context.user.id) (some user_id)
        ip_address user_agent (field (codes "role_name") (plain role_name) end)
    commit

  -- `get_user` of api/v1/users.py, with `get_user_by_id`
  unfoldable pub get_user : ℕ → Action AppUser
  get_user user_id = do
    context ← get_current_context
    ensure_permission context (codes "users:read")
    found ← gets (get_by_id user_id)
    or_raise found not_found
