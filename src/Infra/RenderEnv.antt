-- ===== src/Infra/RenderEnv.antt =====
-- The mail settings of the environment files that infra/scripts/render_prod_env_from_secrets.py
-- writes from the compose file and a directory of secrets. A file of the directory is its text, or
-- nothing where there is none.
pub mod Starts
pub mod Files
pub mod Dotenv
pub mod Lines
pub mod Services
pub mod Rendered
pub mod Started
use backend_platform.Prelude.{
  ℕ, Bool, true, false, not, ◌&&◌, ◌||◌, Option, none, some, List, [], ◌∷◌, ◌++◌, any, is_some,
  ◌==◌, if◌then◌else◌,
}
use backend_platform.Prelude.Text.{
  Text, codes, is_empty, lower, lstrip, member, rstrip, starts_with, strip, text_eq,
}
use backend_platform.Prelude.Split.{is_full, split_on}
use backend_platform.Auth.Config.{is_line_break, or_blank}

-- `value.strip(c)`
abbrev pub strip_char : ℕ → Text → Text
strip_char c s = lstrip (λ d. d == c) (rstrip (λ d. d == c) s)

-- `line.partition("=")`, where there is the character
abbrev pub partition : Text → Option (Text × Text)
partition [] = none
partition (c ∷ s) =
    let rest = partition s in
    if c == 61 then some ([], s) else elim rest [ none ↦ none | some (k, v) ↦ some (c ∷ k, v) ]

abbrev pub Entries : Type 0
Entries = List (Text × Text)

-- A line of `_parse_dotenv`.
unfoldable pub parse_line : Text → Option (Text × Text)
parse_line raw =
    let line = strip raw in
    if is_empty line || starts_with line (codes "#") then none else elim (partition line) [
      | none ↦ none
      | some (k, v) ↦ some (strip k, strip_char 39 (strip_char 34 (strip v)))
    ]

unfoldable pub parse_lines : List Text → Entries
parse_lines [] = []
parse_lines (line ∷ lines) =
    let rest = parse_lines lines in elim (parse_line line) [ none ↦ rest | some e ↦ e ∷ rest ]

-- `_parse_dotenv`; a blank part between two line breaks is a line that is skipped.
unfoldable pub parse_dotenv : Text → Entries
parse_dotenv s = parse_lines (split_on is_line_break s)

-- `compose.get(key)`: a later entry replaces an earlier one.
unfoldable pub get : Text → Entries → Option Text
get key [] = none
get key ((k, v) ∷ entries) =
    let rest = get key entries in
    if is_some rest then rest else if text_eq k key then some v else none

-- `_compose_get`
unfoldable pub compose_get : Entries → Text → Text
compose_get compose key = strip (or_blank (get key compose))

-- `_quote_env_value`
abbrev pub is_quoted_char : ℕ → Bool
is_quoted_char c = member (c ∷ []) (codes " " ∷ codes "\"" ∷ (10 ∷ []) ∷ (92 ∷ []) ∷ codes "#" ∷ [])

abbrev pub escape : Text → Text
escape [] = []
escape (c ∷ s) = let rest = escape s in if c == 92 || c == 34 then 92 ∷ c ∷ rest else c ∷ rest

unfoldable pub quote_env_value : Text → Text
quote_env_value val =
    if is_empty val
    then []
    else if any is_quoted_char val
    then 34 ∷ (escape val ++ (34 ∷ []))
    else val

-- `a or b` of two texts
abbrev pub or_text : Text → Text → Text
or_text a b = if is_full a then a else b

-- What the script reads: the compose file's entries, and the files of the directory.
pub record Sources : Type 0 where
  pub compose : Entries
  pub secrets : Text → Option Text

-- `_read_text`
unfoldable pub read_text : Text → Text
read_text content = strip content

abbrev first_entry : List Text → Text
first_entry [] = []
first_entry (raw ∷ lines) =
    let rest = first_entry lines in
    let s = strip raw in if is_full s && not (starts_with s (codes "#")) then s else rest

-- `_read_optional_one_line`
unfoldable pub read_optional_one_line : Option Text → Text
read_optional_one_line none = []
read_optional_one_line (some content) = first_entry (split_on is_line_break content)

-- The text of a file, and nothing where there is none.
abbrev pub file_text : Option Text → Text
file_text none = []
file_text (some content) = read_text content

abbrev pub says_no : Text → Bool
says_no raw = member raw (codes "false" ∷ codes "0" ∷ codes "no" ∷ [])

abbrev pub says_yes : Text → Bool
says_yes raw = member raw (codes "true" ∷ codes "1" ∷ codes "yes" ∷ [])

-- The values of `_resolve_smtp_for_auth_env` before they are quoted.
module _ (from : Sources) where
  unfoldable pub smtp_password : Text
  smtp_password =
      or_text
        (or_text (file_text (from.secrets (codes "smtp_app_password.txt")))
          (file_text (from.secrets (codes "smtp_password.txt"))))
        (compose_get from.compose (codes "SMTP_PASSWORD"))

  -- A line of a file, or else an entry of the compose file.
  unfoldable pub setting : Text → Text → Text
  setting file key =
      or_text (read_optional_one_line (from.secrets file)) (compose_get from.compose key)

  abbrev pub identity_fallback : Text
  identity_fallback = read_optional_one_line (from.secrets (codes "smtp_identity_email.txt"))

  unfoldable pub smtp_host : Text
  smtp_host =
      let host = setting (codes "smtp_host.txt") (codes "SMTP_HOST") in
      if is_full smtp_password && is_empty host then codes "smtp.gmail.com" else host

  unfoldable pub smtp_username : Text
  smtp_username =
      or_text (setting (codes "smtp_username.txt") (codes "SMTP_USERNAME")) identity_fallback

  unfoldable pub smtp_from_email : Text
  smtp_from_email =
      or_text
        (or_text (setting (codes "smtp_from_email.txt") (codes "SMTP_FROM_EMAIL"))
          (setting (codes "smtp_username.txt") (codes "SMTP_USERNAME")))
        identity_fallback

  unfoldable pub smtp_from_name : Text
  smtp_from_name =
      or_text (setting (codes "smtp_from_name.txt") (codes "SMTP_FROM_NAME"))
        (codes "Backend Platform")

  abbrev pub allow_raw : Text
  allow_raw = lower (compose_get from.compose (codes "AUTH_ALLOW_MISSING_SMTP"))

  -- Whether everything is there that a delivery needs.
  unfoldable pub delivery_ready : Bool
  delivery_ready =
      is_full smtp_host
      && ((is_full smtp_from_email || is_full smtp_username) && is_full smtp_password)

  unfoldable pub auth_allow_missing : Text
  auth_allow_missing =
      if says_yes allow_raw
      then codes "true"
      else if says_no allow_raw
      then codes "false"
      else if delivery_ready
      then codes "false"
      else codes "true"

-- `_resolve_smtp_for_auth_env`
pub record SmtpLines : Type 0 where
  pub host : Text
  pub port : Text
  pub username : Text
  pub password : Text
  pub use_tls : Text
  pub from_email : Text
  pub from_name : Text
  pub require_delivery : Text
  pub allow_missing : Text

unfoldable pub resolve_smtp_for_auth_env : Sources → SmtpLines
resolve_smtp_for_auth_env from = record {
  host = quote_env_value (smtp_host from);
  port = or_text (compose_get from.compose (codes "SMTP_PORT")) (codes "587");
  username = quote_env_value (smtp_username from);
  password = quote_env_value (smtp_password from);
  use_tls =
      if says_no (lower (compose_get from.compose (codes "SMTP_USE_TLS")))
      then codes "false"
      else codes "true";
  from_email = quote_env_value (smtp_from_email from);
  from_name = quote_env_value (smtp_from_name from);
  require_delivery =
      or_text (compose_get from.compose (codes "SMTP_REQUIRE_DELIVERY")) (codes "true");
  allow_missing = auth_allow_missing from;
}
