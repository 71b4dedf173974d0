-- ===== src/Infra/DevEnv/Runs.antt =====
-- What a run of infra/scripts/generate_dev_env.py leaves.
use backend_platform.Prelude.{
  ◌≡◌, ◌≢◌, refl, sym, ◌∙◌, true, false, Bool, not, ◌||◌, Option, none, some, List, ◌∷◌, ◌++◌, any,
  arith, ◌==◌, is_some, ap, Option-cases, inl, inr, if◌then◌else◌,
}
use mathlib.Core.List.{append_cancel_left, append_cancel_right}
use backend_platform.Prelude.Text.{Text, codes, starts_with}
use backend_platform.Infra.RenderEnv.{Entries, get}
use backend_platform.Infra.RenderEnv.Dotenv.{raw_value}
use backend_platform.Infra.DevEnv.{
  DevSecrets, Disk, has_text, auth_env, user_env, gateway_env, compose_env, auth_content,
  smtp_key_values_from_env_text, merge_smtp_into_auth_env, write_if_allowed, generate,
  escape_multiline,
}
use backend_platform.Infra.DevEnv.Merged.{overridden, raw_value-merge, auth_env-tidy}
use backend_platform.Infra.DevEnv.Prefixed.{get-smtp_key_values}

-- The value that a file has under a key.
abbrev pub file_value : Text → Option (List Text) → Option Text
file_value key none = none
file_value key (some lines) = raw_value key lines

forced_write :
    (content : List Text) (found : Option (List Text))
    → write_if_allowed true content found ≡ some content
unfolding write_if_allowed
forced_write content found = ground arith

module _ (s : DevSecrets) (disk : Disk) where
  -- The file of the auth service after a forced run, where there was one.
  forced_value :
      (key : Text) (found : List Text)
      → disk.auth ≡ some found
      → any (λ c. c == 61) key ≡ false
      → file_value key (generate s true disk).auth
        ≡ overridden (smtp_key_values_from_env_text found) key (raw_value key (auth_env s))
  unfolding generate auth_content
  forced_value key found there signless =
      rw
        (
          there,
          forced_write (merge_smtp_into_auth_env (auth_env s) (smtp_key_values_from_env_text found))
              (some found),
        )
        (raw_value-merge (smtp_key_values_from_env_text found) key signless (auth_env s)
          (auth_env-tidy s))

module _ (s : DevSecrets) (key : Text) (other : starts_with key (codes "SMTP_") ≡ false)
    (signless : any (λ c. c == 61) key ≡ false) where
  overridden-none :
      (smtp : Entries) (o : Option Text) → get key smtp ≡ none → overridden smtp key o ≡ o
  overridden-none smtp none h = refl
  overridden-none smtp (some v) h = ground (arith, h)

  -- A setting that is not for mail is fresh where the file is written.
  fresh_auth :
      (force : Bool) (found : Option (List Text))
      → force || not (has_text found) ≡ true
      → file_value key (write_if_allowed force (auth_content s force found) found)
        ≡ raw_value key (auth_env s)
  unfolding auth_content write_if_allowed
  fresh_auth true none h = refl
  fresh_auth true (some found) h =
      rw
        (forced_write (merge_smtp_into_auth_env (auth_env s) (smtp_key_values_from_env_text found))
          (some found))
        (raw_value-merge (smtp_key_values_from_env_text found) key signless (auth_env s)
            (auth_env-tidy s)
          ∙ overridden-none (smtp_key_values_from_env_text found) (raw_value key (auth_env s))
              (get-smtp_key_values key found other))
  fresh_auth false none h = refl
  fresh_auth false (some found) h =
      let blank : has_text (some found) ≡ false = ground (arith, h) in
      rw (blank, write_if_allowed) refl

fresh_write :
    (force : Bool) (content : List Text) (found : Option (List Text))
    → force || not (has_text found) ≡ true
    → write_if_allowed force content found ≡ some content
unfolding write_if_allowed
fresh_write force content found h = ground (arith, h)

-- The passwords in the addresses of the services are those of the compose file, and all services
-- have one key.
pub record IsConsistent (disk : Disk) (auth_db user_db redis key : Text) : Type 0 where
  pub compose_auth : file_value (codes "AUTH_DB_PASSWORD") disk.compose ≡ some auth_db
  pub compose_user : file_value (codes "USER_DB_PASSWORD") disk.compose ≡ some user_db
  pub compose_redis : file_value (codes "REDIS_PASSWORD") disk.compose ≡ some redis
  pub auth_url :
      file_value (codes "DATABASE_URL") disk.auth
      ≡ some (
          codes "postgresql+asyncpg://auth_service:"
          ++ (auth_db ++ codes "@postgres-auth:5432/auth_service"))
  pub user_url :
      file_value (codes "DATABASE_URL") disk.user
      ≡ some (
          codes "postgresql+asyncpg://user_service:"
          ++ (user_db ++ codes "@postgres-user:5432/user_service"))
  pub auth_redis :
      file_value (codes "REDIS_URL") disk.auth
      ≡ some (codes "redis://:" ++ (redis ++ codes "@redis:6379/0"))
  pub user_redis :
      file_value (codes "REDIS_URL") disk.user
      ≡ some (codes "redis://:" ++ (redis ++ codes "@redis:6379/1"))
  pub gateway_redis :
      file_value (codes "REDIS_URL") disk.gateway
      ≡ some (codes "redis://:" ++ (redis ++ codes "@redis:6379/2"))
  pub auth_key : file_value (codes "JWT_PUBLIC_KEY") disk.auth ≡ some key
  pub user_key : file_value (codes "JWT_PUBLIC_KEY") disk.user ≡ some key
  pub gateway_key : file_value (codes "JWT_PUBLIC_KEY") disk.gateway ≡ some key

abbrev pub written_key : DevSecrets → Text
written_key s = 34 ∷ (escape_multiline s.public_pem ++ codes "\"")

-- Whether every file is written.
abbrev pub writes_all : Bool → Disk → Bool
writes_all force disk =
    force
    || not (
        has_text disk.auth
        || (has_text disk.user || (has_text disk.gateway || has_text disk.compose)))

-- A run that writes every file leaves files that fit together: the passwords in the addresses of
-- the services are those of the compose file, and all services have the public key that was drawn.
pub generate-IsConsistent :
    (s : DevSecrets) (force : Bool) (disk : Disk)
    → writes_all force disk ≡ true
    → IsConsistent
        (generate s force disk)
        s.auth_db_password
        s.user_db_password
        s.redis_password
        (written_key s)
unfolding generate raw_value auth_env user_env gateway_env compose_env
generate-IsConsistent s force disk h =
    let user = fresh_write force (user_env s) disk.user (ground (arith, h)) in
    let gateway = fresh_write force (gateway_env s) disk.gateway (ground (arith, h)) in
    let compose = fresh_write force (compose_env s) disk.compose (ground (arith, h)) in
    let auth : force || not (has_text disk.auth) ≡ true = ground (arith, h) in
    record {
      compose_auth = rw compose refl;
      compose_user = rw compose refl;
      compose_redis = rw compose refl;
      auth_url = fresh_auth s (codes "DATABASE_URL") refl refl force disk.auth auth;
      user_url = rw user refl;
      auth_redis = fresh_auth s (codes "REDIS_URL") refl refl force disk.auth auth;
      user_redis = rw user refl;
      gateway_redis = rw gateway refl;
      auth_key = fresh_auth s (codes "JWT_PUBLIC_KEY") refl refl force disk.auth auth;
      user_key = rw user refl;
      gateway_key = rw gateway refl;
    }

-- A forced run keeps a mail setting of the auth service's file that is not blank, its key without
-- an equals sign, where the script's own file has the key too. Any other is lost, though the
-- script has read it.
pub forced_mail_setting :
    (s : DevSecrets) (disk : Disk) (found : List Text) (key value : Text)
    → disk.auth ≡ some found
    → get key (smtp_key_values_from_env_text found) ≡ some value
    → any (λ c. c == 61) key ≡ false
    → file_value key (generate s true disk).auth
      ≡ (if is_some (raw_value key (auth_env s)) then some value else none)
forced_mail_setting s disk found key value there kept signless =
    forced_value s disk key found there signless
    ∙ (elim (Option-cases (raw_value key (auth_env s))) [
      | inl absent ↦ rw absent refl
      | inr (v, has) ↦ rw has (ground (arith, kept))
    ])

kept_write :
    (content : List Text) (found : Option (List Text))
    → has_text found ≡ true
    → write_if_allowed false content found ≡ found
unfolding write_if_allowed
kept_write content found h = rw (h, write_if_allowed) refl

abbrev prefix : Text
prefix = codes "postgresql+asyncpg://auth_service:"

abbrev suffix : Text
suffix = codes "@postgres-auth:5432/auth_service"

-- Without force, where the compose file is kept with another password than the one that was drawn
-- and the file of the auth service is written, the files do not fit together, whichever passwords
-- one expects.
pub kept_compose_clashes :
    (s : DevSecrets) (disk : Disk) (old auth_db user_db redis key : Text)
    → has_text disk.compose ≡ true
    → has_text disk.auth ≡ false
    → file_value (codes "AUTH_DB_PASSWORD") disk.compose ≡ some old
    → old ≢ s.auth_db_password
    → ¬ IsConsistent (generate s false disk) auth_db user_db redis key
unfolding generate raw_value auth_env
kept_compose_clashes s disk old auth_db user_db redis key kept bare was changed c =
    let same : write_if_allowed false (compose_env s) disk.compose ≡ disk.compose =
      kept_write (compose_env s) disk.compose kept in
    let url = fresh_auth s (codes "DATABASE_URL") refl refl false disk.auth (rw bare refl) in
    let named : some old ≡ some auth_db =
      sym was ∙ ap (file_value (codes "AUTH_DB_PASSWORD")) (sym same) ∙ c.compose_auth in
    let addressed : some (prefix ++ (s.auth_db_password ++ suffix))
        ≡ some (prefix ++ (auth_db ++ suffix)) =
      sym url ∙ c.auth_url in
    let tails : s.auth_db_password ++ suffix ≡ auth_db ++ suffix =
      append_cancel_left prefix (s.auth_db_password ++ suffix) (auth_db ++ suffix)
        (cc (addressed)) in
    changed (cc (named, append_cancel_right s.auth_db_password auth_db suffix tails))
