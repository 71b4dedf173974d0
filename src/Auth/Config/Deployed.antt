-- ===== src/Auth/Config/Deployed.antt =====
-- What the checks of services/auth-service/app/core/config.py let through.
use backend_platform.Prelude.{
  ◌≡◌, ◌∙◌, ap, subst, ◌≤◌, ◌≢◌, ◌⊎◌, inl, inr, true, false, some, List, [], ◌∷◌, All, arith,
  length, Option-cases, keep_sound, any,
}
use backend_platform.Prelude.Text.{
  Text, codes, Among, member_iff, starts_with, strip, upper, text_eq_iff,
}
use backend_platform.Prelude.Split.{contains}
use backend_platform.Auth.Config.{Config, is_deployed, smtp_is_configured}
use backend_platform.Auth.Config.Load.{
  Outside, ListInput, allowed_jwt_algorithms, validate_jwt_algorithm, validate_pepper_length,
  validate_fields, accepts_secrets, with_fields, load_smtp_password_from_file,
  apply_smtp_ec2_defaults, completed, is_wildcard, validate_deployed_security, load,
}

-- The algorithms that sign with a private key.
abbrev pub asymmetric_algorithms : List Text
asymmetric_algorithms =
    codes "RS256"
    ∷ codes "RS384"
    ∷ codes "RS512"
    ∷ codes "ES256"
    ∷ codes "ES384"
    ∷ codes "ES512"
    ∷ []

-- What every accepted configuration has.
pub record IsSound (outside : Outside) (c : Config) : Type 0 where
  pub algorithm : Among c.jwt_algorithm allowed_jwt_algorithms
  pub refresh_pepper : 32 ≤ length c.refresh_token_hash_pepper
  pub privacy_pepper : 32 ≤ length c.privacy_key_pepper
  pub reset_pepper : 32 ≤ length c.password_reset_token_pepper
  pub fernet : outside.is_fernet_key c.totp_encryption_key ≡ true

-- What one for staging or production has besides.
pub record IsHardened (c : Config) : Type 0 where
  pub asymmetric : Among c.jwt_algorithm asymmetric_algorithms
  pub origins : c.cors_allowed_origins ≢ []
  pub no_wildcard : All (λ origin. origin ≢ codes "*") c.cors_allowed_origins
  pub private_pem : contains (codes "BEGIN") c.jwt_private_key ≡ true
  pub public_pem : contains (codes "BEGIN") c.jwt_public_key ≡ true
  pub mail : (smtp_is_configured c ≡ true) ⊎ (c.auth_allow_missing_smtp ≡ true)

-- The fields that the validators of the mail settings leave alone.
pub record IsSame (a b : Config) : Type 0 where
  pub env : a.service_env ≡ b.service_env
  pub alg : a.jwt_algorithm ≡ b.jwt_algorithm
  pub refresh_pep : a.refresh_token_hash_pepper ≡ b.refresh_token_hash_pepper
  pub privacy_pep : a.privacy_key_pepper ≡ b.privacy_key_pepper
  pub reset_pep : a.password_reset_token_pepper ≡ b.password_reset_token_pepper
  pub totp : a.totp_encryption_key ≡ b.totp_encryption_key
  pub allow : a.auth_allow_missing_smtp ≡ b.auth_allow_missing_smtp

module _ (outside : Outside) where
  loaded-IsSame : (c : Config) → IsSame (load_smtp_password_from_file outside c) c
  unfolding load_smtp_password_from_file
  loaded-IsSame c = record {
    env = ground arith;
    alg = ground arith;
    refresh_pep = ground arith;
    privacy_pep = ground arith;
    reset_pep = ground arith;
    totp = ground arith;
    allow = ground arith;
  }

  defaults-IsSame : (c : Config) → IsSame (apply_smtp_ec2_defaults outside c) c
  unfolding apply_smtp_ec2_defaults
  defaults-IsSame c = record {
    env = ground arith;
    alg = ground arith;
    refresh_pep = ground arith;
    privacy_pep = ground arith;
    reset_pep = ground arith;
    totp = ground arith;
    allow = ground arith;
  }

  pub completed-IsSame : (c : Config) → IsSame (completed outside c) c
  completed-IsSame c =
      let a = loaded-IsSame c in
      let b = defaults-IsSame (load_smtp_password_from_file outside c) in
      record {
        env = b.env ∙ a.env;
        alg = b.alg ∙ a.alg;
        refresh_pep = b.refresh_pep ∙ a.refresh_pep;
        privacy_pep = b.privacy_pep ∙ a.privacy_pep;
        reset_pep = b.reset_pep ∙ a.reset_pep;
        totp = b.totp ∙ a.totp;
        allow = b.allow ∙ a.allow;
      }

  fields_sound :
      (origins proxies : ListInput) (given c : Config)
      → validate_fields outside origins proxies given ≡ some c
      → (algorithm : Text) × (validate_jwt_algorithm given.jwt_algorithm ≡ some algorithm)
        × (accepts_secrets outside given ≡ true)
        × (with_fields outside origins proxies algorithm given ≡ c)
  unfolding validate_fields
  fields_sound origins proxies given c h =
      elim (Option-cases (validate_jwt_algorithm given.jwt_algorithm)) [
        | inl refused ↦ cc (rw (refused, validate_fields) at h)
        | inr (algorithm, accepted) ↦
            let (long, same) =
              keep_sound (accepts_secrets outside given) _ c
                (rw (accepted, validate_fields) at h) in
            (algorithm, accepted, long, same)
      ]

  -- An accepted configuration went through every validator.
  pub load_sound :
      (origins proxies : ListInput) (given c : Config)
      → load outside origins proxies given ≡ some c
      → (algorithm : Text) × (validate_jwt_algorithm given.jwt_algorithm ≡ some algorithm)
        × (accepts_secrets outside given ≡ true)
        × (completed outside (with_fields outside origins proxies algorithm given) ≡ c)
        × (validate_deployed_security c ≡ true)
  unfolding load
  load_sound origins proxies given c h =
      elim (Option-cases (validate_fields outside origins proxies given)) [
        | inl refused ↦ cc (rw (refused, load) at h)
        | inr (mid, accepted) ↦
            let (algorithm, named, long, same) = fields_sound origins proxies given mid accepted in
            let (hard, final) =
              keep_sound (validate_deployed_security (completed outside mid)) _ c
                (rw (accepted, load) at h) in
            (algorithm, named, long, ap (completed outside) same ∙ final, rw final at hard)
      ]

pub not_symmetric :
    (s : Text)
    → Among s allowed_jwt_algorithms
    → starts_with s (codes "HS") ≡ false
    → Among s asymmetric_algorithms
not_symmetric s a h = ground (arith, a, h)

pub no_star :
    (origins : List Text) → any is_wildcard origins ≡ false → All (λ o. o ≢ codes "*") origins
no_star [] h = tt
no_star (o ∷ origins) h =
    (ground (arith, text_eq_iff o (codes "*")), no_star origins (ground arith))

pub validated_algorithm :
    (value algorithm : Text)
    → validate_jwt_algorithm value ≡ some algorithm
    → Among algorithm allowed_jwt_algorithms
unfolding validate_jwt_algorithm
validated_algorithm value algorithm h =
    let (found, same) = keep_sound _ (strip (upper value)) algorithm h in
    subst (λ a. Among a allowed_jwt_algorithms) same
      ((member_iff (strip (upper value)) allowed_jwt_algorithms).0 found)

-- What the checks of the secrets say.
secrets_sound :
    (outside : Outside) (c : Config)
    → accepts_secrets outside c ≡ true
    → (32 ≤ length c.refresh_token_hash_pepper)
      × (32 ≤ length c.privacy_key_pepper)
      × (32 ≤ length c.password_reset_token_pepper)
      × (outside.is_fernet_key c.totp_encryption_key ≡ true)
unfolding validate_pepper_length
secrets_sound outside c h = (ground arith, ground arith, ground arith, ground arith)

-- Every configuration that the service starts with has an algorithm that is allowed, peppers of at
-- least 32 characters and a key that the cipher accepts.
pub load-IsSound :
    (outside : Outside) (origins proxies : ListInput) (given c : Config)
    → load outside origins proxies given ≡ some c
    → IsSound outside c
load-IsSound outside origins proxies given c h =
    let (algorithm, named, long, final, hard) = load_sound outside origins proxies given c h in
    let fields = with_fields outside origins proxies algorithm given in
    let same : IsSame c fields =
      subst (λ d. IsSame d fields) final (completed-IsSame outside fields) in
    let (r, q, s, f) = secrets_sound outside given long in
    record {
      algorithm = rw same.alg (validated_algorithm given.jwt_algorithm algorithm named);
      refresh_pepper = rw same.refresh_pep r;
      privacy_pepper = rw same.privacy_pep q;
      reset_pepper = rw same.reset_pep s;
      fernet = rw same.totp f;
    }

-- A service for staging or production starts only with an asymmetric algorithm, PEM keys, origins
-- that are named and hold no wildcard, and either mail that can be delivered or the explicit leave
-- to go without.
pub load-IsHardened :
    (outside : Outside) (origins proxies : ListInput) (given c : Config)
    → load outside origins proxies given ≡ some c
    → is_deployed c.service_env ≡ true
    → IsSound outside c × IsHardened c
unfolding validate_deployed_security
load-IsHardened outside origins proxies given c h deployed =
    let (algorithm, named, long, final, hard) = load_sound outside origins proxies given c h in
    let sound = load-IsSound outside origins proxies given c h in
    (
      sound,
      record {
        asymmetric = not_symmetric c.jwt_algorithm sound.algorithm (ground arith);
        origins = ground arith;
        no_wildcard = no_star c.cors_allowed_origins (ground arith);
        private_pem = ground arith;
        public_pem = ground arith;
        mail = ground arith;
      },
    )
