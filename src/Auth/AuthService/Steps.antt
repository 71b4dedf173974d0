-- ===== src/Auth/AuthService/Steps.antt =====
-- The private methods of the service, and registration
-- (services/auth-service/app/services/auth_service.py).
use backend_platform.Prelude.{ℕ, max, Bool, false, Option, none, some, is_some}
use backend_platform.Prelude.Text.{Text, codes, text_eq}
use backend_platform.Redis.{Redis, number, text, Entry, get}
use backend_platform.Redis.Keys.{access_session_revoked_key, login_challenge_key}
use backend_platform.Auth.Errors.{user_already_exists}
use backend_platform.Auth.Settings.{Settings}
use backend_platform.Auth.Providers.{Providers, Challenge}
use backend_platform.Auth.World.{
  Action, pure, lift, gets, raise_if, modify_redis, reads_redis, commit, ◌>>=◌, ◌>>◌,
}
use backend_platform.Auth.Events.{entry, log_event}
use backend_platform.Auth.Passwords.{hash_password}
use backend_platform.Auth.Privacy.{normalize_optional}
use backend_platform.Auth.Repositories.Users

-- The fields of the text under a challenge's name.
abbrev pub challenge_of : Providers → Option Entry → Option Challenge
challenge_of p none = none
challenge_of p (some e) = elim e.value [ number _ ↦ none | text raw ↦ p.load_challenge raw ]

-- `_context_fingerprint`
unfoldable pub context_fingerprint : Providers → Settings → Option Text → Text
context_fingerprint p settings value = p.hmac settings.privacy_key_pepper (normalize_optional value)

-- `_challenge_context_matches`; the user agent is not compared.
abbrev pub fingerprint_matches : Option Text → Text → Bool
fingerprint_matches none actual_ip = false
fingerprint_matches (some expected_ip) actual_ip = text_eq expected_ip actual_ip

unfoldable pub challenge_context_matches : Providers → Settings → Challenge → Option Text → Bool
challenge_context_matches p settings challenge ip_address =
    fingerprint_matches challenge.ip_fingerprint (context_fingerprint p settings ip_address)

module _ {S : Type 0} (redis : Redis S) (p : Providers) (settings : Settings) where
  -- `_mark_access_session_revoked`, here and in password_reset_service.py
  unfoldable pub mark_access_session_revoked : ℕ → Action S (Unit {0})
  mark_access_session_revoked session_id = modify_redis λ now s.
      redis.set s now (access_session_revoked_key (p.uuid_text session_id)) (codes "1")
        (max settings.jwt_access_ttl_seconds 60)

  -- `_create_login_challenge`
  unfoldable pub create_login_challenge : ℕ → Option Text → ℕ → Action S Text
  create_login_challenge user_id ip_address challenge_uuid = do
    let challenge_id = p.uuid_text challenge_uuid
    modify_redis λ now s.
        redis.set s now (login_challenge_key challenge_id)
          (p.dump_challenge (p.uuid_text user_id) (context_fingerprint p settings ip_address))
          settings.login_challenge_ttl_seconds
    pure challenge_id

  -- `_get_login_challenge`
  unfoldable pub get_login_challenge : Text → Action S (Option Challenge)
  get_login_challenge challenge_id =
      reads_redis λ now s. challenge_of p (get redis s now (login_challenge_key challenge_id))

  -- `_delete_login_challenge`
  unfoldable pub delete_login_challenge : Text → Action S (Unit {0})
  delete_login_challenge challenge_id =
      modify_redis λ now s. redis.delete s (login_challenge_key challenge_id)

  unfoldable pub register : Text → Text → Option Text → Option Text → ℕ → Text → Action S (Unit {0})
  register email password ip_address user_agent id salt = do
    existing ← gets (Users.get_by_email email)
    raise_if (is_some existing) user_already_exists
    password_hash ← lift (hash_password p salt password)
    user ← Users.create id email password_hash
    log_event (codes "auth.register.success") (codes "success") (some user.id) (some user.id)
        ip_address user_agent (entry (codes "email") user.email)
    commit
