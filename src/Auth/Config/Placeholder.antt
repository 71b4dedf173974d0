-- ===== src/Auth/Config/Placeholder.antt =====
-- A mail password that was never filled in (services/auth-service/app/core/config.py,
-- services/auth-service/.env.example).
use backend_platform.Prelude.{
  ◌≡◌, ◌∙◌, refl, Bool, true, false, none, some, [], ◌∷◌, map, arith, Option-cases, inl, inr,
}
use backend_platform.Prelude.Text.{Text, member, upper}
use backend_platform.Prelude.Split.{is_full}
use backend_platform.Auth.Config.{
  Config, is_deployed, normalize_smtp_secret, or_blank, smtp_is_configured,
  smtp_password_placeholders, smtp_password_value,
}
use backend_platform.Auth.Config.Load.{
  Outside, ListInput, apply_smtp_ec2_defaults, completed, load, load_smtp_password_from_file,
  validate_deployed_security, with_fields,
}
use backend_platform.Auth.Config.Deployed.{load_sound, completed-IsSame}

-- The password is a documented example value.
abbrev pub is_placeholder : Text → Bool
is_placeholder secret =
    member (upper (normalize_smtp_secret secret)) (map upper smtp_password_placeholders)

-- An empty text is none of the examples.
placeholder_full :
    (s : Text) → member (upper s) (map upper smtp_password_placeholders) ≡ true → is_full s ≡ true
placeholder_full [] h = cc
placeholder_full (c ∷ s) h = refl

-- A password of the environment is not replaced by a file's.
completed-password :
    (outside : Outside) (c : Config)
    → is_full (normalize_smtp_secret (or_blank c.smtp_password)) ≡ true
    → (completed outside c).smtp_password ≡ c.smtp_password
unfolding load_smtp_password_from_file apply_smtp_ec2_defaults
completed-password outside c full = ground (arith, full)

placeholder_unconfigured :
    (c : Config) (secret : Text)
    → c.smtp_password ≡ some secret
    → is_placeholder secret ≡ true
    → smtp_is_configured c ≡ false
unfolding smtp_is_configured smtp_password_value
placeholder_unconfigured c secret at example = ground (arith, at, example)

-- With the example password of the environment file, a service for staging or production that was not
-- given leave to go without mail does not start, whatever the secrets' files hold: a real password in
-- them is not looked at.
pub placeholder_refused :
    (outside : Outside) (origins proxies : ListInput) (given : Config) (secret : Text)
    → given.smtp_password ≡ some secret
    → is_placeholder secret ≡ true
    → is_deployed given.service_env ≡ true
    → given.auth_allow_missing_smtp ≡ false
    → load outside origins proxies given ≡ none
unfolding validate_deployed_security
placeholder_refused outside origins proxies given secret at example deployed strict =
    elim (Option-cases (load outside origins proxies given)) [
      | inl refused ↦ refused
      | inr (c, loaded) ↦
          let (algorithm, _, _, final, hard) = load_sound outside origins proxies given c loaded in
          let fields = with_fields outside origins proxies algorithm given in
          let same = completed-IsSame outside fields in
          let full : is_full (normalize_smtp_secret (or_blank fields.smtp_password)) ≡ true =
            rw at (placeholder_full (normalize_smtp_secret secret) example) in
          let kept : c.smtp_password ≡ some secret =
            rw final at (completed-password outside fields full) ∙ at in
          let bare = placeholder_unconfigured c secret kept example in
          absurd (ground (arith, hard, bare, rw final at same.env, rw final at same.allow))
    ]
