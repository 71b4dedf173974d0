-- ===== src/ServiceConfig/Deployed.antt =====
-- What the checks of services/api-gateway/app/core/config.py let through, and that they let it.
use backend_platform.Prelude.{
  ◌≡◌, refl, ◌∙◌, subst, ◌≤◌, ◌≢◌, inl, inr, true, some, [], All, arith, length, Option-cases,
  keep_sound,
}
use backend_platform.Prelude.Text.{Text, codes, Among}
use backend_platform.Prelude.Split.{contains}
use backend_platform.Auth.Config.{is_deployed}
use backend_platform.Auth.Config.Load.{
  ListInput, allowed_jwt_algorithms, validate_jwt_algorithm, validate_pepper_length, parse_list,
}
use backend_platform.Auth.Config.Deployed.{
  asymmetric_algorithms, not_symmetric, no_star, validated_algorithm,
}
use backend_platform.ServiceConfig.{Checked, validate_fields, validate_deployed_security, load}

module _ (origins proxies : ListInput) (given : Checked) where
  abbrev pub accepted : Text → Checked
  accepted algorithm = record given {
    cors_allowed_origins = parse_list origins;
    trusted_proxy_ips = parse_list proxies;
    jwt_algorithm = algorithm;
  }

  pub fields_accept :
      (algorithm : Text)
      → validate_jwt_algorithm given.jwt_algorithm ≡ some algorithm
      → validate_pepper_length given.privacy_key_pepper ≡ true
      → validate_fields origins proxies given ≡ some (accepted algorithm)
  unfolding validate_fields
  fields_accept algorithm named long = rw (named, long, validate_fields) refl

  fields_sound :
      (c : Checked)
      → validate_fields origins proxies given ≡ some c
      → (algorithm : Text) × (validate_jwt_algorithm given.jwt_algorithm ≡ some algorithm)
        × (validate_pepper_length given.privacy_key_pepper ≡ true)
        × (accepted algorithm ≡ c)
  unfolding validate_fields
  fields_sound c h = elim (Option-cases (validate_jwt_algorithm given.jwt_algorithm)) [
    | inl refused ↦ cc (rw (refused, validate_fields) at h)
    | inr (algorithm, named) ↦
        let (long, same) =
          keep_sound (validate_pepper_length given.privacy_key_pepper) (accepted algorithm) c
            (rw (named, validate_fields) at h) in
        (algorithm, named, long, same)
  ]

  -- A configuration whose fields are accepted and that passes the check of deployed ones is loaded.
  pub load_accepts :
      (algorithm : Text)
      → validate_jwt_algorithm given.jwt_algorithm ≡ some algorithm
      → validate_pepper_length given.privacy_key_pepper ≡ true
      → validate_deployed_security (accepted algorithm) ≡ true
      → load origins proxies given ≡ some (accepted algorithm)
  unfolding load
  load_accepts algorithm named long hard = rw (fields_accept algorithm named long, hard, load) refl

  load_sound :
      (c : Checked)
      → load origins proxies given ≡ some c
      → (algorithm : Text) × (validate_jwt_algorithm given.jwt_algorithm ≡ some algorithm)
        × (validate_pepper_length given.privacy_key_pepper ≡ true)
        × (accepted algorithm ≡ c)
        × (validate_deployed_security c ≡ true)
  unfolding load
  load_sound c h = elim (Option-cases (validate_fields origins proxies given)) [
    | inl refused ↦ cc (rw (refused, load) at h)
    | inr (mid, passed) ↦
        let (algorithm, named, long, same) = fields_sound mid passed in
        let (hard, final) =
          keep_sound (validate_deployed_security mid) mid c (rw (passed, load) at h) in
        (algorithm, named, long, same ∙ final, rw final at hard)
  ]

-- What a configuration for staging or production has.
pub record IsHardened (c : Checked) : Type 0 where
  pub asymmetric : Among c.jwt_algorithm asymmetric_algorithms
  pub pepper : 32 ≤ length c.privacy_key_pepper
  pub origins : c.cors_allowed_origins ≢ []
  pub no_wildcard : All (λ origin. origin ≢ codes "*") c.cors_allowed_origins
  pub public_pem : contains (codes "BEGIN") c.jwt_public_key ≡ true

-- The gateway or the user service starts for staging or production only with an asymmetric
-- algorithm, a PEM key, a pepper of at least 32 characters, and origins that are named and hold no
-- wildcard.
pub loaded-IsHardened :
    (origins proxies : ListInput) (given c : Checked)
    → load origins proxies given ≡ some c
    → is_deployed c.service_env ≡ true
    → IsHardened c
unfolding validate_deployed_security validate_pepper_length
loaded-IsHardened origins proxies given c h deployed =
    let (algorithm, named, long, same, hard) = load_sound origins proxies given c h in
    let allowed = validated_algorithm given.jwt_algorithm algorithm named in
    let allowed_c : Among c.jwt_algorithm allowed_jwt_algorithms =
      subst (λ d. Among d.jwt_algorithm allowed_jwt_algorithms) same allowed in
    record {
      asymmetric = not_symmetric c.jwt_algorithm allowed_c (ground arith);
      pepper = subst (λ d. 32 ≤ length d.privacy_key_pepper) same (ground arith);
      origins = ground arith;
      no_wildcard = no_star c.cors_allowed_origins (ground arith);
      public_pem = ground arith;
    }
