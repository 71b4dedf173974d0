-- ===== src/Tests/Scripts.antt =====
-- The headers of an answer, and the files for development.
use backend_platform.Prelude.{
  ◌≡◌, refl, true, false, Option, some, none, List, [], ◌∷◌, arith, is_some, if◌then◌else◌,
}
use backend_platform.Prelude.Text.{Text, codes, lower, text_eq, text_eq_refl}
use backend_platform.Middleware.{Headers, Outcome, answered}
use backend_platform.Infra.RenderEnv.{get, parse_line}
use backend_platform.Infra.RenderEnv.Dotenv.{raw_value}
use backend_platform.Infra.DevEnv.{
  DevSecrets, Disk, auth_env, generate, smtp_entry, smtp_key_values_from_env_text,
}
use backend_platform.Infra.DevEnv.Runs.{
  IsConsistent, file_value, written_key, generate-IsConsistent, forced_mail_setting,
  kept_compose_clashes,
}

-- Headers as a list, the newest first.
abbrev get_header : Text → List (Text × Text) → Option Text
get_header name [] = none
get_header name ((key, value) ∷ rest) =
    let found = get_header name rest in
    if text_eq (lower key) (lower name) then some value else found

header_set :
    (name value : Text) (r : List (Text × Text)) → get_header name ((name, value) ∷ r) ≡ some value
header_set name value r = rw (text_eq_refl (lower name)) refl

header_set_other :
    (name other value : Text) (r : List (Text × Text))
    → text_eq (lower name) (lower other) ≡ false
    → get_header other ((name, value) ∷ r) ≡ get_header other r
header_set_other name other value r apart = rw apart refl

abbrev list_headers : Headers (List (Text × Text))
list_headers = record {
  set = λ name value r. (name, value) ∷ r;
  get = get_header;
  get-set = header_set;
  get-set_other = header_set_other;
}

-- A handler that asks for an open policy and answers with the id that it saw.
abbrev handler : Text → Outcome (List (Text × Text))
handler request_id =
    answered
      ((codes "Content-Security-Policy", codes "default-src *") ∷ (codes "seen", request_id) ∷ [])

abbrev answer : List (Text × Text)
answer =
    (codes "Content-Security-Policy", codes "default-src 'none'; frame-ancestors 'none';")
    ∷ (codes "Permissions-Policy", codes "geolocation=(), camera=(), microphone=()")
    ∷ (codes "Referrer-Policy", codes "same-origin")
    ∷ (codes "X-Frame-Options", codes "DENY")
    ∷ (codes "X-Content-Type-Options", codes "nosniff")
    ∷ (codes "X-Process-Time-Ms", codes "1.5")
    ∷ (codes "X-Request-ID", codes "abc")
    ∷ (codes "Content-Security-Policy", codes "default-src *")
    ∷ (codes "seen", codes "abc")
    ∷ []

abbrev drawn : DevSecrets
drawn = record {
  private_pem = codes "p";
  public_pem = codes "q";
  fernet_key = codes "f";
  refresh_pepper = codes "r1";
  auth_privacy_pepper = codes "r2";
  user_privacy_pepper = codes "r3";
  gateway_privacy_pepper = codes "r4";
  reset_pepper = codes "r5";
  auth_db_password = codes "new_a";
  user_db_password = codes "new_u";
  redis_password = codes "new_r";
}

abbrev old_auth : List Text
old_auth = codes "SMTP_HOST=\"mail\"" ∷ codes "SMTP_FROM_NAME=Us" ∷ codes "A=1" ∷ []

abbrev disk : Disk
disk = record {
  auth = some old_auth;
  user = none;
  gateway = none;
  compose = some (codes "AUTH_DB_PASSWORD=old_a" ∷ []);
}

generate-IsConsistent_example :
    IsConsistent
      (generate drawn true disk)
      (codes "new_a")
      (codes "new_u")
      (codes "new_r")
      (written_key drawn)
generate-IsConsistent_example = generate-IsConsistent drawn true disk refl

host_read : get (codes "SMTP_HOST") (smtp_key_values_from_env_text old_auth) ≡ some (codes "mail")
unfolding smtp_key_values_from_env_text smtp_entry parse_line get
host_read = refl

host_known : is_some (raw_value (codes "SMTP_HOST") (auth_env drawn)) ≡ true
unfolding raw_value auth_env
host_known = refl

name_read :
    get (codes "SMTP_FROM_NAME") (smtp_key_values_from_env_text old_auth) ≡ some (codes "Us")
unfolding smtp_key_values_from_env_text smtp_entry parse_line get
name_read = refl

name_unknown : is_some (raw_value (codes "SMTP_FROM_NAME") (auth_env drawn)) ≡ false
unfolding raw_value auth_env
name_unknown = refl

forced_mail_setting_example :
    file_value (codes "SMTP_FROM_NAME") (generate drawn true disk).auth ≡ (
      if is_some (raw_value (codes "SMTP_FROM_NAME") (auth_env drawn))
      then some (codes "Us")
      else none)
forced_mail_setting_example =
    forced_mail_setting drawn disk old_auth (codes "SMTP_FROM_NAME") (codes "Us") refl name_read
      refl

abbrev half_disk : Disk
half_disk = record disk { auth = none }

old_password : file_value (codes "AUTH_DB_PASSWORD") half_disk.compose ≡ some (codes "old_a")
unfolding raw_value
old_password = refl

kept_compose_clashes_example :
    ¬ IsConsistent
      (generate drawn false half_disk)
      (codes "old_a")
      (codes "new_u")
      (codes "new_r")
      (codes "k")
kept_compose_clashes_example =
    kept_compose_clashes drawn half_disk (codes "old_a") (codes "old_a") (codes "new_u")
      (codes "new_r") (codes "k") refl refl old_password (ground arith)
