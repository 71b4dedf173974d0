-- ===== src/Users/Service.antt =====
-- services/user-service/app/services/{rbac_service,user_service,audit_service}.py over
-- app/repositories. Identifiers that the database draws are arguments; the texts that describe roles
-- and permissions are left out.
use backend_platform.Prelude.{
  ℕ, Bool, true, ◌&&◌, Option, none, some, List, [], ◌∷◌, ◌++◌, find, update, any, ◌==◌,
  if◌then◌else◌,
}
use backend_platform.Prelude.Text.{Text, codes, text_eq, lower, member}
use backend_platform.Audit.{Fields, end, field}
use backend_platform.Users.Store.{
  Role, Permission, AppUser, UserProfile, Store, Action, pure, gets, or_raise, add, flush, ◌>>=◌,
  ◌>>◌, bad_request, not_found, runtime_error,
}

abbrev pub sensitive_fields : List Text
sensitive_fields =
    codes "password"
    ∷ codes "token"
    ∷ codes "access_token"
    ∷ codes "refresh_token"
    ∷ codes "secret"
    ∷ []

-- `_sanitize_payload`
unfoldable pub sanitize_payload : Fields → Fields
sanitize_payload end = end
sanitize_payload (field key value rest) =
    let sanitized = sanitize_payload rest in
    if member (lower key) sensitive_fields then sanitized else field key value sanitized

unfoldable pub log_event :
    Text → Text → Option ℕ → Option ℕ → Option Text → Option Text → Fields → Action (Unit {0})
log_event event_type outcome actor target ip_address user_agent payload = do
  add λ s. record s {
    audit_events =
        s.audit_events
        ++ (record {
          event_type = event_type;
          outcome = outcome;
          actor_user_id = actor;
          target_user_id = target;
          ip_address = ip_address;
          user_agent = user_agent;
          payload = sanitize_payload payload;
        }
            ∷ []);
  }
  flush

-- `get_role_by_name` and `get_permission_by_name`; the names are unique.
unfoldable pub get_role_by_name : Text → Store → Option Role
get_role_by_name name s = find (λ r. text_eq r.name name) s.roles

unfoldable pub get_permission_by_name : Text → Store → Option Permission
get_permission_by_name name s = find (λ q. text_eq q.name name) s.permissions

abbrev pub is_pair : ℕ → ℕ → ℕ × ℕ → Bool
is_pair a b p = p.0 == a && p.1 == b

-- A row that is added unless it is there.
abbrev pub with_pair : ℕ → ℕ → List (ℕ × ℕ) → List (ℕ × ℕ)
with_pair a b rows = if any (is_pair a b) rows then rows else rows ++ ((a, b) ∷ [])

unfoldable pub ensure_role_permission : ℕ → ℕ → Action (Unit {0})
ensure_role_permission role_id permission_id = do
  add λ s. record s { role_permissions = with_pair role_id permission_id s.role_permissions }
  flush

unfoldable pub assign_role_to_user : ℕ → ℕ → Action (Unit {0})
assign_role_to_user user_id role_id = do
  add λ s. record s { user_roles = with_pair user_id role_id s.user_roles }
  flush

-- Whether the user's joined roles grant a permission: membership in
-- `list_permission_names_for_user`, whose order the callers drop.
unfoldable pub has_permission : ℕ → Text → Store → Bool
has_permission user_id name s =
    any
      (λ (u, r).
        u == user_id
        && (any (λ role. role.id == r) s.roles
            && any
                (λ (r', q).
                  r' == r && any (λ perm. perm.id == q && text_eq perm.name name) s.permissions)
                s.role_permissions))
      s.user_roles

unfoldable pub ensure_default_user_role : ℕ → Action (Unit {0})
ensure_default_user_role user_id = do
  found ← gets (get_role_by_name (codes "user"))
  role ← or_raise found runtime_error
  assign_role_to_user user_id role.id

unfoldable pub assign_role_by_name : ℕ → Text → Action (Unit {0})
assign_role_by_name user_id role_name = do
  found ← gets (get_role_by_name role_name)
  role ← or_raise found bad_request
  assign_role_to_user user_id role.id

unfoldable pub get_by_subject : Text → Store → Option AppUser
get_by_subject subject s = find (λ u. text_eq u.external_subject subject) s.users

unfoldable pub get_by_id : ℕ → Store → Option AppUser
get_by_id user_id s = find (λ u. u.id == user_id) s.users

unfoldable pub get_by_user_id : ℕ → Store → Option UserProfile
get_by_user_id user_id s = find (λ q. q.user_id == user_id) s.profiles

-- The user and the profile with the defaults of the models.
unfoldable pub create_user : ℕ → Text → Action AppUser
create_user user_id external_subject =
    let user : AppUser = record {
      id = user_id;
      external_subject = external_subject;
      is_active = true;
    } in
    do
      add λ s. record s {
        users = s.users ++ (user ∷ []);
        profiles =
            s.profiles
            ++ (record {
              user_id = user_id;
              display_name = none;
              locale = codes "en-US";
              timezone = codes "UTC";
              avatar_url = none;
            }
                ∷ []);
      }
      flush
      pure user

-- `bootstrap_from_subject`, on the user found; `subject_text` is `str(subject)`.
unfoldable pub bootstrap_found :
    ℕ → Text → Option Text → Option Text → Option AppUser → Action AppUser
bootstrap_found subject subject_text ip_address user_agent (some existing) = pure existing
bootstrap_found subject subject_text ip_address user_agent none = do
  user ← create_user subject subject_text
  ensure_default_user_role user.id
  log_event (codes "user.bootstrap") (codes "success") (some user.id) (some user.id) ip_address
      user_agent end
  pure user

unfoldable pub bootstrap_from_subject : ℕ → Text → Option Text → Option Text → Action AppUser
unfolding bootstrap_found
bootstrap_from_subject subject subject_text ip_address user_agent = do
  existing ← gets (get_by_subject subject_text)
  bootstrap_found subject subject_text ip_address user_agent existing

-- The permissions are a test of membership.
pub record UserContext : Type 0 where
  pub user : AppUser
  pub profile : UserProfile
  pub permissions : Text → Bool

unfoldable pub context_for_subject : ℕ → Text → Option Text → Option Text → Action UserContext
context_for_subject subject subject_text ip_address user_agent = do
  user ← bootstrap_from_subject subject subject_text ip_address user_agent
  found ← gets (get_by_user_id user.id)
  profile ← or_raise found not_found
  permissions ← gets (λ s name. has_permission user.id name s)
  pure (record { user = user; profile = profile; permissions = permissions })

unfoldable pub update_own_profile :
    ℕ
    → ℕ
    → Option Text
    → Text
    → Text
    → Option Text
    → Option Text
    → Option Text
    → Fields
    → Action UserProfile
update_own_profile user_id actor_user_id display_name locale timezone avatar_url ip_address
      user_agent payload =
    do
      found ← gets (get_by_user_id user_id)
      profile ← or_raise found not_found
      let updated : UserProfile = record profile {
        display_name = display_name;
        locale = locale;
        timezone = timezone;
        avatar_url = avatar_url;
      }
      add λ s. record s {
        profiles = update (λ q. q.user_id == profile.user_id) (λ _. updated) s.profiles;
      }
      flush
      log_event (codes "user.profile.updated") (codes "success") (some actor_user_id) (some user_id)
          ip_address user_agent payload
      pure updated
