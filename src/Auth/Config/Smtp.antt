-- ===== src/Auth/Config/Smtp.antt =====
-- The mail settings after the validators of services/auth-service/app/core/config.py.
use backend_platform.Prelude.{
  ◌≡◌, refl, subst, Bool, true, false, Option, none, some, [], ◌∷◌, arith, any, select,
  if◌then◌else◌,
}
use backend_platform.Prelude.Text.{Text, codes, is_empty, strip}
use backend_platform.Prelude.Split.{
  non_space, concat-words, select-strip, is_empty-strip, any-strip, is_full, any-non_space-select,
  is_empty-select-non_space,
}
use backend_platform.Auth.Config.{
  Config, or_blank, normalize_smtp_secret, normalize_smtp_identity_line, first_line, truthy,
  usable_password, smtp_from_email_value, smtp_password_value, smtp_is_configured,
}
use backend_platform.Auth.Config.Load.{
  Outside, ListInput, blank_smtp_strings_to_none, with_fields, load_smtp_password_from_file,
  apply_smtp_ec2_defaults, with_identity, with_host, ident, lacks_mailbox, lacks_host, load,
}
use backend_platform.Auth.Config.Deployed.{load_sound}

-- Normalising a mail password is dropping its white space, wherever it stands.
pub normalize_smtp_secret-select : (raw : Text) → normalize_smtp_secret raw ≡ select non_space raw
unfolding normalize_smtp_secret
normalize_smtp_secret-select raw = ground (
  arith,
  concat-words (strip raw),
  select-strip raw,
  is_empty-strip raw,
  is_empty-select-non_space raw,
  empty-is (select non_space raw),
)
  where
    empty-is : (s : Text) → is_empty s ≡ true → s ≡ []
    empty-is [] h = refl
    empty-is (c ∷ s) h = cc

-- There is a character that is not white space.
abbrev pub is_visible : Option Text → Bool
is_visible none = false
is_visible (some s) = any non_space s

-- A text that is there has a character that shows.
abbrev pub IsClean : Option Text → Type 0
IsClean o = truthy o ≡ true → is_visible o ≡ true

blank-IsClean : (o : Option Text) → IsClean (blank_smtp_strings_to_none o)
unfolding blank_smtp_strings_to_none
blank-IsClean none h = h
blank-IsClean (some s) h = ground (arith, is_empty-strip s)

choose-IsClean :
    (test : Bool) (a b : Option Text) → IsClean a → IsClean b → IsClean (if test then a else b)
choose-IsClean true a b h k = h
choose-IsClean false a b h k = k

identity-IsClean :
    (raw : Text)
    → is_full (normalize_smtp_identity_line raw) ≡ true
    → is_visible (some (normalize_smtp_identity_line raw)) ≡ true
unfolding normalize_smtp_identity_line
identity-IsClean raw h = stripped (if is_empty (strip raw) then [] else first_line (strip raw)) h
  where
    stripped : (s : Text) → is_full (strip s) ≡ true → any non_space (strip s) ≡ true
    stripped s h = ground (arith, is_empty-strip s, any-strip s)

-- The three settings that name the server and the mailbox.
record AreClean (c : Config) : Type 0 where
  pub host : IsClean c.smtp_host
  pub username : IsClean c.smtp_username
  pub from_email : IsClean c.smtp_from_email

module _ (outside : Outside) where
  fields-AreClean :
      (origins proxies : ListInput) (algorithm : Text) (given : Config)
      → AreClean (with_fields outside origins proxies algorithm given)
  fields-AreClean origins proxies algorithm given = record {
    host = blank-IsClean given.smtp_host;
    username = blank-IsClean given.smtp_username;
    from_email = blank-IsClean given.smtp_from_email;
  }

  password-AreClean : (c : Config) → AreClean c → AreClean (load_smtp_password_from_file outside c)
  unfolding load_smtp_password_from_file
  password-AreClean c h = record {
    host = subst IsClean (ground arith) h.host;
    username = subst IsClean (ground arith) h.username;
    from_email = subst IsClean (ground arith) h.from_email;
  }

  mailbox-AreClean :
      (test : Bool) (c : Config)
      → AreClean c
      → IsClean (some (ident outside))
      → AreClean (
          if test
          then (record c {
            smtp_username = some (ident outside);
            smtp_from_email = some (ident outside);
          })
          else c)
  mailbox-AreClean true c h k = record { host = h.host; username = k; from_email = k }
  mailbox-AreClean false c h k = h

  identity-AreClean : (c : Config) → AreClean c → AreClean (with_identity outside c)
  identity-AreClean c h =
      mailbox-AreClean (lacks_mailbox outside c) c h
        (identity-IsClean (or_blank (outside.read_text outside.identity_file)))

  server-AreClean :
      (test : Bool) (c : Config)
      → AreClean c
      → AreClean (if test then (record c { smtp_host = some (codes "smtp.gmail.com") }) else c)
  server-AreClean true c h = record {
    host = λ t. refl;
    username = h.username;
    from_email = h.from_email;
  }
  server-AreClean false c h = h

  host-AreClean : (c : Config) → AreClean c → AreClean (with_host outside c)
  host-AreClean c h = server-AreClean (lacks_host outside c) c h

-- The settings that the service starts with name no server and no mailbox by white space alone.
loaded-AreClean :
    (outside : Outside) (origins proxies : ListInput) (given c : Config)
    → load outside origins proxies given ≡ some c
    → AreClean c
unfolding apply_smtp_ec2_defaults
loaded-AreClean outside origins proxies given c h =
    let (algorithm, _, _, final, _) = load_sound outside origins proxies given c h in
    subst AreClean final (
      host-AreClean outside _ (
        identity-AreClean outside _
          (password-AreClean outside _ (fields-AreClean outside origins proxies algorithm given))))

password_visible :
    (o : Option Text) → truthy (usable_password o) ≡ true → is_visible (usable_password o) ≡ true
password_visible none h = cc
password_visible (some secret) h = ground (
  arith,
  normalize_smtp_secret-select secret,
  any-non_space-select secret,
  is_empty-select-non_space secret,
)

-- Where mail is configured as the service starts, the server, the sender and the password all have
-- characters that show.
pub configured_visible :
    (outside : Outside) (origins proxies : ListInput) (given c : Config)
    → load outside origins proxies given ≡ some c
    → smtp_is_configured c ≡ true
    → (is_visible c.smtp_host ≡ true)
      × (is_visible (smtp_from_email_value c) ≡ true)
      × (is_visible (smtp_password_value c) ≡ true)
unfolding smtp_is_configured smtp_from_email_value smtp_password_value
configured_visible outside origins proxies given c h configured =
    let clean = loaded-AreClean outside origins proxies given c h in
    (
      clean.host (ground arith),
      choose-IsClean (truthy c.smtp_from_email) c.smtp_from_email c.smtp_username clean.from_email
          clean.username (ground arith),
      password_visible c.smtp_password (ground arith),
    )
