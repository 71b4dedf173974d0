-- ===== src/Tests/Starting.antt =====
-- The start of the user service, and an environment file for the auth service.
use backend_platform.Prelude.{
  ◌≡◌, refl, true, false, none, some, Option, [], ◌∷◌, ◌⊎◌, if◌then◌else◌,
}
use backend_platform.Prelude.Text.{Text, codes, text_eq}
use backend_platform.Users.Store.{Store, ok, in_session}
use backend_platform.Users.Service.{ensure_default_user_role, has_permission}
use backend_platform.Users.Seed.{SeedIds, start_up}
use backend_platform.Users.Seed.Default.{session_on, default_role_permits}
use backend_platform.Auth.Config.{Config, normalize_smtp_secret, smtp_is_configured}
use backend_platform.Auth.Config.Load.{absent, line, completed, load, with_fields}
use backend_platform.Auth.Config.Placeholder.{is_placeholder, placeholder_refused}
use backend_platform.Infra.RenderEnv.{
  Sources, allow_raw, compose_get, get, quote_env_value, read_optional_one_line, read_text,
  resolve_smtp_for_auth_env, setting, smtp_password, smtp_host, smtp_username, smtp_from_email,
  says_no,
}
use backend_platform.Infra.RenderEnv.Starts.{IsReadBack, IsGiven, rendered_mail_accepted}
use backend_platform.Tests.Deployment.{given, outside}

-- Tables with one role, which was stored before.
abbrev store : Store
store = record {
  users = [];
  profiles = [];
  roles = record { id = 50; name = codes "user" } ∷ [];
  permissions = [];
  role_permissions = [];
  user_roles = [];
  audit_events = [];
}

abbrev drawn : SeedIds
drawn = record {
  user_role = 1;
  admin_role = 2;
  profile_read = 3;
  profile_write = 4;
  users_read = 5;
  users_write = 6;
  roles_assign = 7;
}

abbrev drawn_again : SeedIds
drawn_again = record drawn { user_role = 11; admin_role = 12 }

default_role_permits_example :
    let run = ensure_default_user_role 9 (session_on (in_session (start_up drawn) store).1) in
    (run.0 ≡ ok tt)
    × (has_permission 9 (codes "profile:read:self") run.1.store ≡ true)
    × (has_permission 9 (codes "profile:write:self") run.1.store ≡ true)
default_role_permits_example = default_role_permits drawn store 9

abbrev example_password : Text
example_password = codes "PASTE_YOUR_GMAIL_APP_PASSWORD_HERE"

abbrev unfilled : Config
unfilled = record given { smtp_password = some example_password }

example_is_placeholder : is_placeholder example_password ≡ true
unfolding normalize_smtp_secret
example_is_placeholder = refl

placeholder_refused_example :
    load outside (line (codes "https://x, https://y,")) absent unfilled ≡ none
placeholder_refused_example =
    placeholder_refused outside (line (codes "https://x, https://y,")) absent unfilled
      example_password refl example_is_placeholder refl refl

-- A directory with a password and a sender, and a compose file with a server.
abbrev secret_file : Text → Option Text
secret_file name =
    if text_eq name (codes "smtp_app_password.txt")
    then some (codes "abcd\n")
    else if text_eq name (codes "smtp_from_email.txt")
    then some (codes "# me\nme@x\n")
    else none

abbrev sources : Sources
sources = record { compose = (codes "SMTP_HOST", codes " mail ") ∷ []; secrets = secret_file }

-- These values need no quotes.
abbrev as_written : Text → Text
as_written s = s

read_back : IsReadBack as_written sources
unfolding resolve_smtp_for_auth_env quote_env_value smtp_host smtp_username smtp_password
    smtp_from_email setting compose_get get read_optional_one_line read_text
read_back = record { host = refl; username = refl; password = refl; from_email = refl }

abbrev from_file : Config
from_file = record given {
  smtp_host = some (resolve_smtp_for_auth_env sources).host;
  smtp_username = some (resolve_smtp_for_auth_env sources).username;
  smtp_password = some (resolve_smtp_for_auth_env sources).password;
  smtp_from_email = some (resolve_smtp_for_auth_env sources).from_email;
  auth_allow_missing_smtp =
      text_eq (resolve_smtp_for_auth_env sources).allow_missing (codes "true");
}

is_given : IsGiven as_written sources from_file
is_given = record { host = refl; username = refl; password = refl; from_email = refl; allow = refl }

unsaid : says_no (allow_raw sources) ≡ false
unfolding compose_get get
unsaid = refl

real_password : is_placeholder (smtp_password sources) ≡ false
unfolding smtp_password compose_get get read_text normalize_smtp_secret
real_password = refl

rendered_mail_accepted_example :
    let c = completed outside (with_fields outside absent absent (codes "RS256") from_file) in
    (smtp_is_configured c ≡ true) ⊎ (c.auth_allow_missing_smtp ≡ true)
rendered_mail_accepted_example =
    rendered_mail_accepted as_written sources outside absent absent (codes "RS256") from_file
      read_back is_given unsaid real_password
