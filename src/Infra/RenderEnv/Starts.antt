-- ===== src/Infra/RenderEnv/Starts.antt =====
-- The auth service starts on the mail settings that infra/scripts/render_prod_env_from_secrets.py
-- writes (services/auth-service/app/core/config.py).
use backend_platform.Prelude.{
  ◌≡◌, ◌⊎◌, inl, inr, refl, ◌∙◌, true, false, Option, none, some, List, [], ◌∷◌, any, arith,
  Bool-cases,
}
use backend_platform.Prelude.Text.{Text, codes, strip, text_eq}
use backend_platform.Prelude.Split.{
  is_full, non_space, any-strip, is_empty-strip, is_empty-select-non_space, split_on,
}
use backend_platform.Auth.Config.{
  Config, is_line_break, normalize_smtp_secret, or_blank, smtp_is_configured, smtp_from_email_value,
  smtp_password_value, usable_password, truthy,
}
use backend_platform.Auth.Config.Load.{
  Outside, ListInput, apply_smtp_ec2_defaults, lacks_mailbox, lacks_host, with_identity, with_host,
  blank_smtp_strings_to_none, completed, load_smtp_password_from_file, with_fields,
}
use backend_platform.Auth.Config.Deployed.{completed-IsSame}
use backend_platform.Auth.Config.Smtp.{normalize_smtp_secret-select}
use backend_platform.Auth.Config.Placeholder.{is_placeholder}
use backend_platform.Infra.RenderEnv.{
  Sources, get, compose_get, or_text, read_text, first_entry, file_text, read_optional_one_line,
  setting, smtp_password, smtp_host, smtp_username, smtp_from_email, delivery_ready,
  auth_allow_missing, allow_raw, says_no, identity_fallback, resolve_smtp_for_auth_env,
}

-- A text that is there shows.
abbrev Shows : Text → Type 0
Shows s = is_full s ≡ true → any non_space s ≡ true

strip-Shows : (s : Text) → Shows (strip s)
strip-Shows s h = ground (arith, is_empty-strip s, any-strip s)

or_text-Shows : (a b : Text) → Shows a → Shows b → Shows (or_text a b)
or_text-Shows a b h k t = elim (Bool-cases (is_full a)) [
  | inl full ↦ rw full (h full)
  | inr bare ↦ rw bare (k (rw bare at t))
]

file_text-Shows : (o : Option Text) → Shows (file_text o)
unfolding read_text
file_text-Shows none h = cc
file_text-Shows (some s) h = strip-Shows s h

first_entry-Shows : (lines : List Text) → Shows (first_entry lines)
first_entry-Shows [] h = cc
first_entry-Shows (raw ∷ lines) h = ground (arith, strip-Shows raw, first_entry-Shows lines)

one_line-Shows : (o : Option Text) → Shows (read_optional_one_line o)
unfolding read_optional_one_line
one_line-Shows none h = cc
one_line-Shows (some s) h = first_entry-Shows (split_on is_line_break s) h

module _ (from : Sources) where
  compose_get-Shows : (key : Text) → Shows (compose_get from.compose key)
  unfolding compose_get
  compose_get-Shows key = strip-Shows (or_blank (get key from.compose))

  setting-Shows : (file key : Text) → Shows (setting from file key)
  unfolding setting
  setting-Shows file key =
      or_text-Shows (read_optional_one_line (from.secrets file)) (compose_get from.compose key)
        (one_line-Shows (from.secrets file)) (compose_get-Shows key)

  password-Shows : Shows (smtp_password from)
  unfolding smtp_password
  password-Shows =
      let own = file_text (from.secrets (codes "smtp_app_password.txt")) in
      let legacy = file_text (from.secrets (codes "smtp_password.txt")) in
      or_text-Shows (or_text own legacy) (compose_get from.compose (codes "SMTP_PASSWORD"))
        (or_text-Shows own legacy (file_text-Shows (from.secrets (codes "smtp_app_password.txt")))
          (file_text-Shows (from.secrets (codes "smtp_password.txt"))))
        (compose_get-Shows (codes "SMTP_PASSWORD"))

  abbrev named_user : Text
  named_user = setting from (codes "smtp_username.txt") (codes "SMTP_USERNAME")

  identity-Shows : Shows (identity_fallback from)
  identity-Shows = one_line-Shows (from.secrets (codes "smtp_identity_email.txt"))

  username-Shows : Shows (smtp_username from)
  unfolding smtp_username
  username-Shows =
      or_text-Shows named_user (identity_fallback from)
        (setting-Shows (codes "smtp_username.txt") (codes "SMTP_USERNAME")) identity-Shows

  from_email-Shows : Shows (smtp_from_email from)
  unfolding smtp_from_email
  from_email-Shows =
      let own = setting from (codes "smtp_from_email.txt") (codes "SMTP_FROM_EMAIL") in
      or_text-Shows (or_text own named_user) (identity_fallback from)
        (or_text-Shows own named_user
          (setting-Shows (codes "smtp_from_email.txt") (codes "SMTP_FROM_EMAIL"))
          (setting-Shows (codes "smtp_username.txt") (codes "SMTP_USERNAME")))
        identity-Shows

  host-Shows : Shows (smtp_host from)
  unfolding smtp_host
  host-Shows h = ground (arith, h, setting-Shows (codes "smtp_host.txt") (codes "SMTP_HOST"))

-- What is read back of a text that shows is not taken for blank.
kept_setting :
    (s : Text) → Shows s → is_full s ≡ true → blank_smtp_strings_to_none (some s) ≡ some s
unfolding blank_smtp_strings_to_none
kept_setting s shows full = ground (arith, shows full, is_empty-strip s)

blank_bare : (s : Text) → is_full s ≡ false → truthy (blank_smtp_strings_to_none (some s)) ≡ false
unfolding blank_smtp_strings_to_none
blank_bare [] h = refl
blank_bare (c ∷ s) h = cc

-- A real password is usable.
usable :
    (s : Text)
    → Shows s
    → is_full s ≡ true
    → is_placeholder s ≡ false
    → truthy (usable_password (some s)) ≡ true
usable s shows full real =
    ground (arith, shows full, real, normalize_smtp_secret-select s, is_empty-select-non_space s)

-- A usable password is not blank.
usable_full :
    (o : Option Text)
    → truthy (usable_password o) ≡ true
    → is_full (normalize_smtp_secret (or_blank o)) ≡ true
usable_full none h = cc
usable_full (some s) h = ground (arith, h)

-- The mail settings that are there are left alone.
module _ (outside : Outside) (c : Config) where
  password_left :
      is_full (normalize_smtp_secret (or_blank c.smtp_password)) ≡ true
      → load_smtp_password_from_file outside c ≡ c
  unfolding load_smtp_password_from_file
  password_left full = rw full refl

  identity_left : lacks_mailbox outside c ≡ false → with_identity outside c ≡ c
  identity_left has = rw has refl

  host_left : lacks_host outside c ≡ false → with_host outside c ≡ c
  host_left has = rw has refl

  mailbox_there : truthy (smtp_from_email_value c) ≡ true → lacks_mailbox outside c ≡ false
  unfolding smtp_from_email_value
  mailbox_there h = ground (arith, h)

  completed-configured : smtp_is_configured c ≡ true → completed outside c ≡ c
  unfolding smtp_is_configured smtp_password_value apply_smtp_ec2_defaults
  completed-configured h =
      rw
        (
          password_left (usable_full c.smtp_password (ground (arith, h))),
          identity_left (mailbox_there (ground (arith, h))),
          host_left (ground (arith, h)),
        )
        refl

-- The environment file is read back: `reads` is what the reader of the settings makes of a value.
pub record IsReadBack (reads : Text → Text) (from : Sources) : Type 0 where
  pub host : reads (resolve_smtp_for_auth_env from).host ≡ smtp_host from
  pub username : reads (resolve_smtp_for_auth_env from).username ≡ smtp_username from
  pub password : reads (resolve_smtp_for_auth_env from).password ≡ smtp_password from
  pub from_email : reads (resolve_smtp_for_auth_env from).from_email ≡ smtp_from_email from

-- The settings that are given are those of the file.
pub record IsGiven (reads : Text → Text) (from : Sources) (given : Config) : Type 0 where
  pub host : given.smtp_host ≡ some (reads (resolve_smtp_for_auth_env from).host)
  pub username : given.smtp_username ≡ some (reads (resolve_smtp_for_auth_env from).username)
  pub password : given.smtp_password ≡ some (reads (resolve_smtp_for_auth_env from).password)
  pub from_email : given.smtp_from_email ≡ some (reads (resolve_smtp_for_auth_env from).from_email)
  pub allow :
      given.auth_allow_missing_smtp
      ≡ text_eq (resolve_smtp_for_auth_env from).allow_missing (codes "true")

allow_unready :
    (from : Sources)
    → says_no (allow_raw from) ≡ false
    → delivery_ready from ≡ false
    → text_eq (resolve_smtp_for_auth_env from).allow_missing (codes "true") ≡ true
unfolding resolve_smtp_for_auth_env auth_allow_missing
allow_unready from unsaid bare = ground (arith, unsaid, bare)

module _ (reads : Text → Text) (from : Sources) (outside : Outside) (origins proxies : ListInput)
    (algorithm : Text) (given : Config) (back : IsReadBack reads from)
    (file : IsGiven reads from given) where
  abbrev fields : Config
  fields = with_fields outside origins proxies algorithm given

  ready_configured :
      delivery_ready from ≡ true
      → is_placeholder (smtp_password from) ≡ false
      → smtp_is_configured fields ≡ true
  unfolding delivery_ready smtp_is_configured smtp_from_email_value smtp_password_value
  ready_configured ready real =
      let host : fields.smtp_host ≡ blank_smtp_strings_to_none (some (smtp_host from)) =
        rw (file.host, back.host) refl in
      let username : fields.smtp_username ≡ blank_smtp_strings_to_none (some (smtp_username from)) =
        rw (file.username, back.username) refl in
      let from_email : fields.smtp_from_email
          ≡ blank_smtp_strings_to_none (some (smtp_from_email from)) =
        rw (file.from_email, back.from_email) refl in
      let password : fields.smtp_password ≡ some (smtp_password from) =
        rw (file.password, back.password) refl in
      ground (
        arith,
        ready,
        host,
        username,
        from_email,
        password,
        kept_setting (smtp_host from) (host-Shows from),
        kept_setting (smtp_username from) (username-Shows from),
        kept_setting (smtp_from_email from) (from_email-Shows from),
        blank_bare (smtp_from_email from),
        usable (smtp_password from) (password-Shows from),
        real,
      )

-- The mail settings that the script writes pass the check that the auth service makes as it starts,
-- where they are read back as they were written: mail is configured, or there is leave to go without,
-- as long as the compose file does not forbid it by hand and the password is not one of the examples.
pub rendered_mail_accepted :
    (reads : Text → Text) (from : Sources) (outside : Outside) (origins proxies : ListInput)
    (algorithm : Text) (given : Config)
    → IsReadBack reads from
    → IsGiven reads from given
    → says_no (allow_raw from) ≡ false
    → is_placeholder (smtp_password from) ≡ false
    → let c = completed outside (with_fields outside origins proxies algorithm given) in
      (smtp_is_configured c ≡ true) ⊎ (c.auth_allow_missing_smtp ≡ true)
rendered_mail_accepted reads from outside origins proxies algorithm given back file unsaid real =
    let c0 = with_fields outside origins proxies algorithm given in
    elim (Bool-cases (delivery_ready from)) [
      | inl ready ↦
          let configured =
            ready_configured reads from outside origins proxies algorithm given back file ready
              real in
          inl (rw (completed-configured outside c0 configured) configured)
      | inr bare ↦
          inr ((completed-IsSame outside c0).allow ∙ file.allow ∙ allow_unready from unsaid bare)
    ]
