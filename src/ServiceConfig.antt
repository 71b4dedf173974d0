-- ===== src/ServiceConfig.antt =====
-- The settings that the gateway and the user service check, and how they check them as they start:
-- the validators of services/api-gateway/app/core/config.py, which services/user-service repeats word
-- for word. Those of single fields are the ones of the auth service.
pub mod Deployed
pub mod Started
use backend_platform.Prelude.{
  ◌≡◌, refl, Bool, true, false, not, Option, none, some, List, [], ◌∷◌, ◌++◌, any, is_some,
  if◌then◌else◌,
}
use backend_platform.Prelude.Text.{Text, codes, drop_prefix, starts_with, text_eq}
use backend_platform.Prelude.Split.{contains}
use backend_platform.Auth.Config.{Environment, development, staging, production, is_deployed}
use backend_platform.Auth.Config.Load.{
  ListInput, absent, parse_list, validate_jwt_algorithm, validate_pepper_length, is_wildcard,
  is_nil,
}

pub record Checked : Type 0 where
  pub service_env : Environment
  pub cors_allowed_origins : List Text
  pub trusted_proxy_ips : List Text
  pub jwt_algorithm : Text
  pub jwt_public_key : Text
  pub privacy_key_pepper : Text

infixl 5 ◌>>=◌
abbrev pub ◌>>=◌ : {A B : Type 0} → Option A → (A → Option B) → Option B
none >>= f = none
some a >>= f = f a

-- The validators of single fields. The two lists come in the form in which they were given.
unfoldable pub validate_fields : ListInput → ListInput → Checked → Option Checked
validate_fields origins proxies c = elim (validate_jwt_algorithm c.jwt_algorithm) [
  | none ↦ none
  | some algorithm ↦
      if validate_pepper_length c.privacy_key_pepper
      then some (record c {
        cors_allowed_origins = parse_list origins;
        trusted_proxy_ips = parse_list proxies;
        jwt_algorithm = algorithm;
      })
      else none
]

-- `_validate_deployed_security`: whether it raises nothing
unfoldable pub validate_deployed_security : Checked → Bool
validate_deployed_security c =
    if not (is_deployed c.service_env)
    then true
    else if starts_with c.jwt_algorithm (codes "HS")
    then false
    else if is_nil c.cors_allowed_origins
    then false
    else if any is_wildcard c.cors_allowed_origins
    then false
    else if not (contains (codes "BEGIN") c.jwt_public_key)
    then false
    else true

unfoldable pub load : ListInput → ListInput → Checked → Option Checked
load origins proxies given = elim (validate_fields origins proxies given) [
  | none ↦ none
  | some c ↦ if validate_deployed_security c then some c else none
]

-- `Literal["development", "staging", "production"]`
unfoldable pub environment_of : Text → Option Environment
environment_of s =
    if text_eq s (codes "development")
    then some development
    else if text_eq s (codes "staging")
    then some staging
    else if text_eq s (codes "production")
    then some production
    else none

-- `given` is the text that the environment file has for a setting, if any. A setting with no default
-- has to be there.
module _ (given : Text → Option Text) where
  unfoldable pub setting_or : Text → Text → Text
  setting_or key default = elim (given key) [ none ↦ default | some value ↦ value ]

  unfoldable pub list_setting : Text → ListInput
  list_setting key = elim (given key) [ none ↦ absent | some value ↦ ListInput.line value ]

  module _ (key value : Text) (there : given key ≡ some value) where
    pub setting_or_given : (default : Text) → setting_or key default ≡ value
    unfolding setting_or
    setting_or_given default = rw (there, setting_or) refl

    pub list_setting_given : list_setting key ≡ ListInput.line value
    unfolding list_setting
    list_setting_given = rw (there, list_setting) refl

  pub setting_or_absent : (key default : Text) → given key ≡ none → setting_or key default ≡ default
  unfolding setting_or
  setting_or_absent key default gone = rw (gone, setting_or) refl

  -- The fields of `Settings` that the validators look at.
  unfoldable pub given_checked : Option Checked
  given_checked = do
    service_env ← environment_of (setting_or (codes "SERVICE_ENV") (codes "development"))
    jwt_public_key ← given (codes "JWT_PUBLIC_KEY")
    privacy_key_pepper ← given (codes "PRIVACY_KEY_PEPPER")
    some (record {
      service_env = service_env;
      cors_allowed_origins = [];
      trusted_proxy_ips = [];
      jwt_algorithm = setting_or (codes "JWT_ALGORITHM") (codes "RS256");
      jwt_public_key = jwt_public_key;
      privacy_key_pepper = privacy_key_pepper;
    })

  -- These fields as the validators leave them.
  unfoldable pub checked_settings : Option Checked
  checked_settings = do
    checked ← given_checked
    load (list_setting (codes "CORS_ALLOWED_ORIGINS")) (list_setting (codes "TRUSTED_PROXY_IPS"))
        checked
