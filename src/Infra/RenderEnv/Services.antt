-- ===== src/Infra/RenderEnv/Services.antt =====
-- The gateway and the user service accept what they check in the files that
-- infra/scripts/render_prod_env_from_secrets.py writes (services/api-gateway/app/core/config.py).
use backend_platform.Prelude.{
  ℕ, ◌≡◌, refl, ◌∙◌, ap, Bool, Option, some, List, [], ◌∷◌, ◌++◌, All, arith, Bool-cases, inl, inr,
  ◌==◌,
}
use backend_platform.Prelude.Text.{Text, codes}
use backend_platform.Prelude.Split.{split, split_on, is_full}
use backend_platform.Prelude.Parts.{
  IsPart, clean, clean-IsPart, clean-parts, any-split_on, split_on-whole, split_on-append,
}
use backend_platform.Auth.Config.{production}
use backend_platform.Auth.Config.Load.{
  ListInput, parse_list, validate_jwt_algorithm, validate_pepper_length,
}
use backend_platform.Infra.RenderEnv.{Sources, compose_get}
use backend_platform.Infra.RenderEnv.Files.{
  Secrets, auth_env, user_env, gateway_env, cors_line, join_commas, escape_pem,
}
use backend_platform.ServiceConfig.Deployed.{accepted, load_accepts}
use backend_platform.Infra.RenderEnv.Lines.{IsFit}
use backend_platform.Infra.RenderEnv.Dotenv.{raw_value, IsLine, Dotenv}
use backend_platform.ServiceConfig.{
  Checked, checked_settings, given_checked, environment_of, setting_or_given, list_setting_given,
  validate_deployed_security,
}

abbrev is_comma : ℕ → Bool
is_comma c = c == 44

split-join_commas :
    (part : Text) (parts : List Text)
    → All (IsPart is_comma) (part ∷ parts)
    → split_on is_comma (join_commas (part ∷ parts)) ≡ part ∷ parts
split-join_commas part [] (a, h) = split_on-whole is_comma part a.whole
split-join_commas part (next ∷ parts) (a, h) =
    split_on-append is_comma part (join_commas (next ∷ parts)) 44 a.whole refl
    ∙ ap (λ r. part ∷ r) (split-join_commas next parts h)

clean-split-join_commas :
    (parts : List Text)
    → All (IsPart is_comma) parts
    → clean (split_on is_comma (join_commas parts)) ≡ parts
clean-split-join_commas [] h = refl
clean-split-join_commas (part ∷ parts) h =
    rw (split-join_commas part parts h) (clean-parts is_comma (part ∷ parts) h)

-- The services get the origins that the command line names, each stripped, and no blank ones.
pub parse_list-cors_line :
    (cors_origins : Text)
    → parse_list (ListInput.line (cors_line cors_origins))
      ≡ parse_list (ListInput.line cors_origins)
unfolding parse_list cors_line
parse_list-cors_line cors_origins =
    clean-split-join_commas (clean (split 44 cors_origins))
      (clean-IsPart is_comma (split 44 cors_origins) (any-split_on is_comma cors_origins))

-- What a file of the script says, as raw text.
pub record Says (cors : Text) (s : Secrets) (lines : List Text) : Type 0 where
  pub environment : raw_value (codes "SERVICE_ENV") lines ≡ some (codes "production")
  pub origins : raw_value (codes "CORS_ALLOWED_ORIGINS") lines ≡ some cors
  pub proxies : raw_value (codes "TRUSTED_PROXY_IPS") lines ≡ some (codes "172.16.0.0/12")
  pub algorithm : raw_value (codes "JWT_ALGORITHM") lines ≡ some (codes "RS256")
  pub issuer : raw_value (codes "JWT_ISSUER") lines ≡ some (codes "backend-platform")
  pub audience : raw_value (codes "JWT_AUDIENCE") lines ≡ some (codes "backend-clients")
  pub public_key :
      raw_value (codes "JWT_PUBLIC_KEY") lines ≡ some (34 ∷ (escape_pem s.pub_pem ++ codes "\""))
  pub pepper : raw_value (codes "PRIVACY_KEY_PEPPER") lines ≡ some s.privacy_pepper

module _ (quote_plus : Text → Text) (from : Sources) (cors : Text) (s : Secrets) where
  pub user_env-Says : Says cors s (user_env quote_plus from cors s)
  unfolding raw_value user_env
  user_env-Says = record {
    environment = refl;
    origins = refl;
    proxies = refl;
    algorithm = refl;
    issuer = refl;
    audience = refl;
    public_key = refl;
    pepper = refl;
  }

  pub auth_env-Says : Says cors s (auth_env quote_plus from cors s)
  unfolding raw_value auth_env
  auth_env-Says = record {
    environment = refl;
    origins = refl;
    proxies = refl;
    algorithm = refl;
    issuer = refl;
    audience = refl;
    public_key = refl;
    pepper = refl;
  }

  pub gateway_env-Says : Says cors s (gateway_env quote_plus from cors s)
  unfolding raw_value gateway_env
  gateway_env-Says =
      elim (Bool-cases (is_full (compose_get from.compose (codes "REFRESH_COOKIE_SECURE")))) [
        | inl given ↦ record {
          environment = rw given refl;
          origins = rw given refl;
          proxies = rw given refl;
          algorithm = rw given refl;
          issuer = rw given refl;
          audience = rw given refl;
          public_key = rw given refl;
          pepper = rw given refl;
        }
        | inr left ↦ record {
          environment = rw left refl;
          origins = rw left refl;
          proxies = rw left refl;
          algorithm = rw left refl;
          issuer = rw left refl;
          audience = rw left refl;
          public_key = rw left refl;
          pepper = rw left refl;
        }
      ]

-- The checked settings with which a service starts.
abbrev pub rendered_settings : Text → Secrets → Checked
rendered_settings cors_origins s = record {
  service_env = production;
  cors_allowed_origins = parse_list (ListInput.line cors_origins);
  trusted_proxy_ips = codes "172.16.0.0/12" ∷ [];
  jwt_algorithm = codes "RS256";
  jwt_public_key = s.pub_pem;
  privacy_key_pepper = s.privacy_pepper;
}

abbrev rendered_given : Secrets → Checked
rendered_given s = record {
  service_env = production;
  cors_allowed_origins = [];
  trusted_proxy_ips = [];
  jwt_algorithm = codes "RS256";
  jwt_public_key = s.pub_pem;
  privacy_key_pepper = s.privacy_pepper;
}

module _ (dotenv : List Text → Text → Option Text) (d : Dotenv dotenv) (from : Sources)
    (cors_origins : Text) (s : Secrets) (fit : IsFit from cors_origins s) where
  accepted-rendered :
      some (
        accepted
          (ListInput.line (cors_line cors_origins))
          (ListInput.line (codes "172.16.0.0/12"))
          (rendered_given s)
          (codes "RS256"))
      ≡ some (rendered_settings cors_origins s)
  unfolding parse_list
  accepted-rendered =
      ap
        (λ origins.
          some (record (rendered_settings cors_origins s) { cors_allowed_origins = origins }))
        (parse_list-cors_line cors_origins)

  module _ (lines : List Text) (tidy : All IsLine lines)
      (says : Says (cors_line cors_origins) s lines) where
    given-Says : given_checked (dotenv lines) ≡ some (rendered_given s)
    unfolding given_checked environment_of
    given-Says =
        rw
          (
            setting_or_given (dotenv lines) (codes "SERVICE_ENV") _
                (d.reads_plain lines _ _ tidy says.environment refl) (codes "development"),
            d.reads_quoted lines (codes "JWT_PUBLIC_KEY") s.pub_pem tidy says.public_key
                fit.key_plain,
            d.reads_plain lines (codes "PRIVACY_KEY_PEPPER") _ tidy says.pepper fit.pepper_plain,
            setting_or_given (dotenv lines) (codes "JWT_ALGORITHM") _
                (d.reads_plain lines _ _ tidy says.algorithm refl) (codes "RS256"),
            given_checked,
          )
          refl

    pub checked-Says : checked_settings (dotenv lines) ≡ some (rendered_settings cors_origins s)
    unfolding checked_settings validate_jwt_algorithm validate_pepper_length
        validate_deployed_security
    checked-Says =
        rw
          (
            given-Says,
            list_setting_given (dotenv lines) (codes "CORS_ALLOWED_ORIGINS") _
                (d.reads_plain lines _ _ tidy says.origins fit.origins_plain),
            list_setting_given (dotenv lines) (codes "TRUSTED_PROXY_IPS") _
                (d.reads_plain lines _ _ tidy says.proxies refl),
            checked_settings,
          )
          (load_accepts (ListInput.line (cors_line cors_origins))
              (ListInput.line (codes "172.16.0.0/12")) (rendered_given s) (codes "RS256") refl
              (ground (arith, fit.pepper_long))
              (rw (parse_list-cors_line cors_origins, fit.named, fit.no_wildcard, fit.key_pem) refl)
            ∙ accepted-rendered)
