-- ===== src/Tests/Rendered.antt =====
-- The files of the deployment script, read by the services.
use backend_platform.Prelude.{
  ℕ, ◌≡◌, refl, true, false, Bool, not, ◌++◌, Option, some, none, List, [], ◌∷◌, any, arith, ◌==◌,
  select, ap, if◌then◌else◌,
}
use backend_platform.Prelude.Text.{Text, codes, text_eq}
use backend_platform.Auth.Config.Load.{parse_list}
use backend_platform.ServiceConfig.Started.{Parsers, is_digit, whole, start_gateway, start_user}
use backend_platform.Infra.RenderEnv.{Sources, compose_get, get, read_text}
use backend_platform.Infra.RenderEnv.Files.{
  Secrets, EnvFiles, cors_line, escape_pem, read_secrets, render,
}
use backend_platform.Infra.RenderEnv.Dotenv.{raw_value, Dotenv, needs_care, is_escape}
use backend_platform.Infra.RenderEnv.Lines.{IsFit}
use backend_platform.Infra.RenderEnv.Services.{Says}
use backend_platform.Infra.RenderEnv.Rendered.{rendered_gateway, rendered_user}
use backend_platform.Infra.RenderEnv.Started.{rendered_services_start}

abbrev pepper : Text
pepper = codes "0123456789abcdef0123456789abcdef"

-- A reader of values that takes off double quotes and reads their line breaks.
abbrev unquoted : Bool → Text → Text
unquoted escaped [] = []
unquoted true (c ∷ s) = (if c == 110 then 10 else c) ∷ unquoted false s
unquoted false (c ∷ s) =
    let escape = unquoted true s in
    let next = unquoted false s in if c == 34 then [] else if c == 92 then escape else c ∷ next

abbrev reader : Text → Text
reader [] = []
reader (c ∷ s) = if c == 34 then unquoted false s else c ∷ s

reader_plain : (value : Text) → any needs_care value ≡ false → reader value ≡ value
reader_plain [] h = refl
reader_plain (c ∷ s) h = ground (arith, h)

unquoted-escape_pem :
    (value : Text)
    → any is_escape value ≡ false
    → unquoted false (escape_pem value ++ codes "\"") ≡ value
unfolding escape_pem
unquoted-escape_pem [] h = refl
unquoted-escape_pem (c ∷ s) h = ground (arith, h, unquoted-escape_pem s)

unfoldable file_reader : List Text → Text → Option Text
file_reader lines key = elim (raw_value key lines) [ none ↦ none | some raw ↦ some (reader raw) ]

file_reader-found :
    (lines : List Text) (key raw value : Text)
    → raw_value key lines ≡ some raw
    → reader raw ≡ value
    → file_reader lines key ≡ some value
unfolding file_reader
file_reader-found lines key raw value found same = rw (found, file_reader) (ap (λ t. some t) same)

file_reader-absent :
    (lines : List Text) (key : Text) → raw_value key lines ≡ none → file_reader lines key ≡ none
unfolding file_reader
file_reader-absent lines key gone = rw (gone, file_reader) refl

file_reader-Dotenv : Dotenv file_reader
file_reader-Dotenv = record {
  reads_plain = λ lines key value tidy found h.
      file_reader-found lines key value value found (reader_plain value h);
  reads_quoted = λ lines key value tidy found h.
      file_reader-found lines key _ value found (unquoted-escape_pem value h);
  reads_absent = λ lines key tidy gone. file_reader-absent lines key gone;
}

-- A stand-in for the quoting of URLs that leaves no character that needs care.
abbrev careless : Text → Text
careless = select (λ c. not (needs_care c))

careless-plain : (t : Text) → any needs_care (careless t) ≡ false
careless-plain [] = refl
careless-plain (c ∷ t) = ground (arith, careless-plain t)

-- A directory with all secrets, and a compose file with the passwords.
abbrev secret_text : Text → Option Text
secret_text name =
    if text_eq name (codes "jwt_public.pem")
    then some (codes "BEGIN\nkey\n")
    else some (codes "0123456789abcdef0123456789abcdef\n")

abbrev sources : Sources
sources = record {
  compose =
      (codes "AUTH_DB_PASSWORD", codes "a")
      ∷ (codes "USER_DB_PASSWORD", codes "u")
      ∷ (codes "REDIS_PASSWORD", codes "r")
      ∷ [];
  secrets = secret_text;
}

abbrev secrets : Secrets
secrets = record {
  auth_db = codes "a";
  user_db = codes "u";
  redis_pw = codes "r";
  priv_pem = pepper;
  pub_pem = codes "BEGIN\nkey";
  refresh_pepper = pepper;
  privacy_pepper = pepper;
  reset_pepper = pepper;
  totp_key = pepper;
}

secrets_read : read_secrets sources ≡ some secrets
unfolding read_secrets read_text get
secrets_read = refl

secrets-IsFit : IsFit sources (codes "https://x, https://y,") secrets
unfolding parse_list cors_line compose_get get
secrets-IsFit = record {
  named = refl;
  no_wildcard = refl;
  origins_plain = refl;
  pepper_long = omega arith;
  pepper_plain = refl;
  key_pem = refl;
  key_plain = refl;
  cookie_flag = refl;
}

abbrev parse_digits : Text → Option ℕ
parse_digits t = if any (λ d. not (is_digit d)) t then none else some (whole 0 t)

parse_digits-whole :
    (c : ℕ) (s : Text)
    → any (λ d. not (is_digit d)) (c ∷ s) ≡ false
    → parse_digits (c ∷ s) ≡ some (whole 0 (c ∷ s))
parse_digits-whole c s h = rw (h, parse_digits) refl

abbrev parse_flag : Text → Option Bool
parse_flag t =
    if text_eq t (codes "true")
    then some true
    else if text_eq t (codes "false")
    then some false
    else none

abbrev parsers : Parsers ℕ ℕ
parsers = record {
  int_of = parse_digits;
  float_of = parse_digits;
  bool_of = parse_flag;
  number = λ n. n;
  decimal = λ n. n;
  int_of-digits = parse_digits-whole;
  float_of-digits = parse_digits-whole;
  bool_of-true = refl;
  bool_of-false = refl;
}

rendered_services_start_example :
    (files : EnvFiles) × (render careless sources (codes "https://x, https://y,") ≡ some files)
    × (start_gateway parsers (file_reader files.gateway)
        ≡ some (rendered_gateway parsers careless sources (codes "https://x, https://y,") secrets))
    × (start_user parsers (file_reader files.user)
        ≡ some (rendered_user parsers careless (codes "https://x, https://y,") secrets))
    × Says (cors_line (codes "https://x, https://y,")) secrets files.auth
rendered_services_start_example =
    rendered_services_start parsers file_reader careless sources (codes "https://x, https://y,")
      secrets file_reader-Dotenv careless-plain secrets_read secrets-IsFit
