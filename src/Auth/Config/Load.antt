-- ===== src/Auth/Config/Load.antt =====
-- Reading the settings as the service starts: the validators of
-- services/auth-service/app/core/config.py, in the order in which they run.
use backend_platform.Prelude.{
  ℕ, Bool, true, false, not, ◌&&◌, ◌||◌, Option, none, some, List, [], ◌∷◌, ◌++◌, map, any, leb,
  length, select, if◌then◌else◌,
}
use backend_platform.Prelude.Text.{
  Text, codes, is_empty, member, starts_with, strip, text_eq, upper,
}
use backend_platform.Prelude.Split.{contains, is_full, split}
use backend_platform.Auth.Config.{
  Config, is_deployed, normalize_smtp_secret, normalize_smtp_identity_line, or_blank,
  smtp_is_configured, truthy,
}

-- What the service starts among: the files, with `none` where the operating system raises, the
-- paths of the repository's own secrets, and the test that `Fernet(key)` makes.
pub record Outside : Type 0 where
  pub resolve : Text → Option Text
  pub is_file : Text → Option Bool
  pub read_text : Text → Option Text
  pub default_password_file : Text
  pub legacy_password_file : Text
  pub identity_file : Text
  pub is_fernet_key : Text → Bool

-- A setting that is a list: absent, a text to be split, or a list.
pub data ListInput : Type 0 where
  absent : ListInput
  line : Text → ListInput
  items : List Text → ListInput

-- `_parse_origins` and `_parse_trusted_proxy_ips`
unfoldable pub parse_list : ListInput → List Text
parse_list absent = []
parse_list (line value) = map strip (select (λ v. is_full (strip v)) (split 44 value))
parse_list (items values) = values

-- `ALLOWED_JWT_ALGORITHMS`
abbrev pub allowed_jwt_algorithms : List Text
allowed_jwt_algorithms =
    codes "HS256"
    ∷ codes "HS384"
    ∷ codes "HS512"
    ∷ codes "RS256"
    ∷ codes "RS384"
    ∷ codes "RS512"
    ∷ codes "ES256"
    ∷ codes "ES384"
    ∷ codes "ES512"
    ∷ []

-- `_validate_jwt_algorithm`
unfoldable pub validate_jwt_algorithm : Text → Option Text
validate_jwt_algorithm value =
    let normalized = strip (upper value) in
    if member normalized allowed_jwt_algorithms then some normalized else none

-- `MIN_SECRET_LENGTH`
abbrev pub min_secret_length : ℕ
min_secret_length = 32

-- `_validate_pepper_length`: whether the pepper is accepted
unfoldable pub validate_pepper_length : Text → Bool
validate_pepper_length value = leb min_secret_length (length value)

-- `_blank_smtp_strings_to_none`
unfoldable pub blank_smtp_strings_to_none : Option Text → Option Text
blank_smtp_strings_to_none none = none
blank_smtp_strings_to_none (some value) = if is_empty (strip value) then none else some value

abbrev pub is_wildcard : Text → Bool
is_wildcard origin = text_eq origin (codes "*")

abbrev pub is_nil : List Text → Bool
is_nil [] = true
is_nil (_ ∷ _) = false

-- `_validate_deployed_security`: whether it raises nothing
unfoldable pub validate_deployed_security : Config → Bool
validate_deployed_security c =
    if not (is_deployed c.service_env)
    then true
    else if starts_with c.jwt_algorithm (codes "HS")
    then false
    else if is_nil c.cors_allowed_origins
    then false
    else if any is_wildcard c.cors_allowed_origins
    then false
    else if not (contains (codes "BEGIN") c.jwt_private_key)
        || not (contains (codes "BEGIN") c.jwt_public_key)
    then false
    else if not (smtp_is_configured c) && not c.auth_allow_missing_smtp
    then false
    else true

module _ (outside : Outside) where
  -- The validators of the secrets, each on its own.
  abbrev pub accepts_secrets : Config → Bool
  accepts_secrets c =
      validate_pepper_length c.refresh_token_hash_pepper
      && (validate_pepper_length c.privacy_key_pepper
          && (validate_pepper_length c.password_reset_token_pepper
              && outside.is_fernet_key c.totp_encryption_key))

  -- The fields as their validators return them.
  abbrev pub with_fields : ListInput → ListInput → Text → Config → Config
  with_fields origins proxies algorithm c = record c {
    cors_allowed_origins = parse_list origins;
    trusted_proxy_ips = parse_list proxies;
    jwt_algorithm = algorithm;
    smtp_host = blank_smtp_strings_to_none c.smtp_host;
    smtp_username = blank_smtp_strings_to_none c.smtp_username;
    smtp_from_email = blank_smtp_strings_to_none c.smtp_from_email;
    smtp_from_name = blank_smtp_strings_to_none c.smtp_from_name;
    support_email = blank_smtp_strings_to_none c.support_email;
  }

  -- The validators of single fields. The two lists come in the form in which they were given.
  unfoldable pub validate_fields : ListInput → ListInput → Config → Option Config
  validate_fields origins proxies c = elim (validate_jwt_algorithm c.jwt_algorithm) [
    | none ↦ none
    | some algorithm ↦
        if accepts_secrets c then some (with_fields origins proxies algorithm c) else none
  ]

  -- `str(path.resolve())`, or the path itself
  abbrev pub resolved : Text → Text
  resolved path = elim (outside.resolve path) [ some key ↦ key | none ↦ path ]

  -- The normalised text of a candidate, and nothing where it is no file that can be read.
  abbrev pub secret_at : Text → Text
  secret_at path = elim (outside.is_file path) [
    | some true ↦ normalize_smtp_secret (or_blank (outside.read_text path))
    | _ ↦ []
  ]

  -- The loop of `_load_smtp_password_from_file` over the candidates, past those seen before.
  unfoldable pub first_secret : List Text → List Text → Option Text
  first_secret seen [] = none
  first_secret seen (path ∷ candidates) =
      let key = resolved path in
      let raw = secret_at path in
      let passed = first_secret seen candidates in
      let tried = first_secret (key ∷ seen) candidates in
      if member key seen then passed else if is_empty raw then tried else some raw

  abbrev pub password_candidates : Config → List Text
  password_candidates c =
      let explicit = strip (or_blank c.smtp_password_file) in
      (if is_empty explicit then [] else explicit ∷ [])
      ++ (outside.default_password_file ∷ outside.legacy_password_file ∷ [])

  -- `_load_smtp_password_from_file`
  unfoldable pub load_smtp_password_from_file : Config → Config
  load_smtp_password_from_file c =
      if is_full (normalize_smtp_secret (or_blank c.smtp_password))
      then c
      else elim (first_secret [] (password_candidates c)) [
        | some raw ↦ record c { smtp_password = some raw }
        | none ↦ c
      ]

  -- The line of the identity file, and nothing where it cannot be read.
  abbrev pub ident : Text
  ident = normalize_smtp_identity_line (or_blank (outside.read_text outside.identity_file))

  abbrev pub lacks_mailbox : Config → Bool
  lacks_mailbox c =
      is_full ident && (not (truthy c.smtp_username) && not (truthy c.smtp_from_email))

  abbrev pub lacks_host : Config → Bool
  lacks_host c =
      is_full (normalize_smtp_secret (or_blank c.smtp_password)) && not (truthy c.smtp_host)

  -- The mailbox that `_apply_smtp_ec2_defaults` fills in, and then the server.
  abbrev pub with_identity : Config → Config
  with_identity c =
      if lacks_mailbox c
      then record c { smtp_username = some ident; smtp_from_email = some ident }
      else c

  abbrev pub with_host : Config → Config
  with_host c = if lacks_host c then record c { smtp_host = some (codes "smtp.gmail.com") } else c

  -- `_apply_smtp_ec2_defaults`
  unfoldable pub apply_smtp_ec2_defaults : Config → Config
  apply_smtp_ec2_defaults c = with_host (with_identity c)

  -- The validators that run once every field is accepted.
  abbrev pub completed : Config → Config
  completed c = apply_smtp_ec2_defaults (load_smtp_password_from_file c)

  -- `Settings()`
  unfoldable pub load : ListInput → ListInput → Config → Option Config
  load origins proxies given = elim (validate_fields origins proxies given) [
    | none ↦ none
    | some c ↦ if validate_deployed_security (completed c) then some (completed c) else none
  ]
