-- ===== src/Tests/Deployment.antt =====
-- The start of a service for production, and its mails.
use backend_platform.Prelude.{
  ◌≡◌, ◌≢◌, refl, true, false, Option, some, none, [], ◌∷◌, if◌then◌else◌,
}
use backend_platform.Prelude.Text.{Text, codes, text_eq, member}
use backend_platform.Auth.Config.{
  Config, production, normalize_smtp_secret, normalize_smtp_identity_line, smtp_is_configured,
  smtp_from_email_value, smtp_password_value,
}
use backend_platform.Auth.Config.Load.{
  Outside, line, absent, load, validate_fields, validate_jwt_algorithm, validate_pepper_length,
  blank_smtp_strings_to_none, parse_list, first_secret, load_smtp_password_from_file,
  apply_smtp_ec2_defaults, validate_deployed_security,
}
use backend_platform.Auth.Config.Deployed.{IsSound, IsHardened, load-IsHardened}
use backend_platform.Auth.PasswordReset.{delivered, refused}
use backend_platform.Auth.Email.{
  EmailProvider, Server, get_email_provider, send, send_script, send_with, run_script,
  missing_for_delivery,
}
use backend_platform.Auth.Email.Sending.{
  IsAttempt, is_guarded, send-guarded, deployed_mail_attempted,
}

abbrev pepper : Text
pepper = codes "0123456789abcdef0123456789abcdef"

-- The repository's secrets: a password in the legacy file, and an identity.
abbrev file_text : Text → Option Text
file_text path =
    if text_eq path (codes "b")
    then some (codes " ab cd ")
    else if text_eq path (codes "c")
    then some (codes "me@x")
    else none

abbrev pub outside : Outside
outside = record {
  resolve = λ path. some path;
  is_file = λ path. some (member path (codes "b" ∷ codes "c" ∷ []));
  read_text = file_text;
  default_password_file = codes "a";
  legacy_password_file = codes "b";
  identity_file = codes "c";
  is_fernet_key = λ key. true;
}

abbrev pub given : Config
given = record {
  service_env = production;
  cors_allowed_origins = [];
  trusted_proxy_ips = [];
  jwt_algorithm = codes " rs256";
  jwt_issuer = codes "auth";
  jwt_audience = codes "api";
  jwt_access_ttl_seconds = 900;
  jwt_refresh_ttl_seconds = 9000;
  jwt_private_key = codes "-BEGIN-";
  jwt_public_key = codes "-BEGIN-";
  refresh_token_hash_pepper = pepper;
  privacy_key_pepper = pepper;
  password_reset_token_pepper = pepper;
  totp_encryption_key = codes "k";
  totp_interval_seconds = 30;
  login_challenge_ttl_seconds = 300;
  password_reset_token_ttl_seconds = 900;
  brute_force_login_max_attempts = 3;
  brute_force_login_window_seconds = 300;
  brute_force_login_lock_seconds = 900;
  brute_force_2fa_max_attempts = 5;
  brute_force_2fa_window_seconds = 300;
  brute_force_2fa_lock_seconds = 900;
  brute_force_password_reset_max_attempts = 3;
  brute_force_password_reset_window_seconds = 300;
  brute_force_password_reset_lock_seconds = 900;
  smtp_host = some (codes "  ");
  smtp_port = 587;
  smtp_username = none;
  smtp_password = none;
  smtp_password_file = none;
  smtp_require_delivery = none;
  smtp_use_tls = true;
  smtp_from_email = none;
  smtp_from_name = none;
  auth_allow_missing_smtp = false;
  support_email = none;
}

-- The settings that it starts with.
abbrev started : Config
started = record given {
  cors_allowed_origins = codes "https://x" ∷ codes "https://y" ∷ [];
  jwt_algorithm = codes "RS256";
  smtp_host = some (codes "smtp.gmail.com");
  smtp_username = some (codes "me@x");
  smtp_password = some (codes "abcd");
  smtp_from_email = some (codes "me@x");
}

starts : load outside (line (codes "https://x, https://y,")) absent given ≡ some started
unfolding load validate_fields validate_jwt_algorithm validate_pepper_length
    blank_smtp_strings_to_none parse_list first_secret load_smtp_password_from_file
    apply_smtp_ec2_defaults validate_deployed_security normalize_smtp_secret
    normalize_smtp_identity_line smtp_is_configured smtp_from_email_value smtp_password_value
starts = refl

load-IsHardened_example : IsSound outside started × IsHardened started
load-IsHardened_example =
    load-IsHardened outside (line (codes "https://x, https://y,")) absent given started starts refl

abbrev willing : Server
willing made call = true

abbrev provider : EmailProvider
provider = get_email_provider started

deployed_mail_attempted_example :
    ((host : Text) × (from_email : Text) × (password : Text) × IsAttempt willing provider
        (codes "a@b")
        (codes "s")
        (codes "t")
        host
        from_email
        password)
    × ((send willing provider (codes "a@b") (codes "s") (codes "t")).0 ≢ refused)
deployed_mail_attempted_example =
    deployed_mail_attempted outside (line (codes "https://x, https://y,")) absent given started
      willing (codes "a@b") (codes "s") (codes "t") starts refl refl

abbrev complete : EmailProvider
complete = record {
  host = some (codes "h");
  port = 587;
  from_email = some (codes "me@x");
  username = some (codes "me@x");
  password = some (codes "abcd");
  use_tls = true;
  from_name = none;
  require_delivery = true;
}

send-guarded_example :
    is_guarded false (send willing complete (codes "a@b") (codes "s") (codes "t")).1 ≡ true
send-guarded_example = send-guarded willing complete (codes "a@b") (codes "s") (codes "t") refl

sent : (send willing complete (codes "a@b") (codes "s") (codes "t")).0 ≡ delivered
unfolding send send_with run_script send_script missing_for_delivery
sent = refl
