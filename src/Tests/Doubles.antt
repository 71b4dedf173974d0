-- ===== src/Tests/Doubles.antt =====
-- Stand-ins for what the services take from elsewhere, settings, and a database to run on.
use backend_platform.Prelude.{ℕ, true, false, Option, none, some, [], ◌∷◌, if◌then◌else◌}
use backend_platform.Prelude.Text.{Text, codes, text_eq}
use backend_platform.Redis.Memory.{Memory, blank}
use backend_platform.Auth.Db.{
  Db, User, RefreshToken, UserSession, PasswordResetToken, TwoFactorSecret, BackupCode, empty_db,
}
use backend_platform.Auth.Providers.{Providers, Payload, string}
use backend_platform.Auth.Settings.{Settings}
use backend_platform.Auth.RefreshClaims.{RefreshIds}
use backend_platform.Auth.World.{World}

abbrev pub uuid_text : ℕ → Text
uuid_text n = n ∷ []

abbrev pub parse_uuid : Text → Option ℕ
parse_uuid (n ∷ []) = some n
parse_uuid _ = none

-- What the token `r` carries.
abbrev pub refresh_payload : Payload
refresh_payload = record {
  sub = string (uuid_text 1);
  jti = string (uuid_text 2);
  iss = codes "auth";
  aud = codes "api";
  iat = 0;
  nbf = 0;
  exp = 9000;
  token_type = string (codes "refresh");
  sid = string (uuid_text 3);
  family_id = string (uuid_text 4);
}

abbrev pub decode : Settings → ℕ → Text → Option Payload
decode settings now token = if text_eq token (codes "r") then some refresh_payload else none

abbrev pub providers : Providers
providers = record {
  hmac = λ key value. value;
  uuid_text = uuid_text;
  parse_uuid = parse_uuid;
  jwt_encode = λ settings payload. codes "new";
  jwt_decode = decode;
  argon2_hash = λ salt value. value;
  argon2_verify = text_eq;
  encrypt = λ nonce value. value;
  decrypt = λ value. value;
  totp_at = λ secret interval at. codes "123456";
  dump_challenge = λ user_id fingerprint. user_id;
  load_challenge = λ raw. none;
}

abbrev pub settings : Settings
settings = record {
  jwt_issuer = codes "auth";
  jwt_audience = codes "api";
  jwt_access_ttl_seconds = 900;
  jwt_refresh_ttl_seconds = 9000;
  refresh_token_hash_pepper = codes "a";
  privacy_key_pepper = codes "b";
  password_reset_token_pepper = codes "c";
  password_reset_token_ttl = 600;
  login_challenge_ttl_seconds = 300;
  totp_interval_seconds = 30;
  smtp_is_configured = true;
  auth_allow_missing_smtp = false;
  brute_force_login_max_attempts = 2;
  brute_force_login_window_seconds = 60;
  brute_force_login_lock_seconds = 300;
  brute_force_2fa_max_attempts = 3;
  brute_force_2fa_window_seconds = 60;
  brute_force_2fa_lock_seconds = 300;
  brute_force_password_reset_max_attempts = 3;
  brute_force_password_reset_window_seconds = 60;
  brute_force_password_reset_lock_seconds = 300;
}

abbrev pub alice : User
alice = record {
  id = 1;
  email = codes "a@b";
  password_hash = codes "pw";
  is_active = true;
  is_superuser = false;
  two_factor_enabled = true;
  login_blocked = false;
  password_reset_blocked = false;
}

abbrev pub token_row : RefreshToken
token_row = record {
  user_id = 1;
  jti = 2;
  family_id = 4;
  parent_jti = none;
  token_hash = codes "r";
  expires_at = 9000;
  rotated_at = none;
  revoked_at = none;
  replaced_by_jti = none;
  revocation_reason = none;
  ip_address = none;
  user_agent = none;
}

-- The same row after a rotation.
abbrev pub used_row : RefreshToken
used_row = record token_row { rotated_at = some 5; revoked_at = some 5; replaced_by_jti = some 6 }

abbrev pub session_row : UserSession
session_row = record {
  id = 3;
  user_id = 1;
  refresh_family_id = 4;
  ip_address = none;
  user_agent = none;
  last_seen_at = 0;
  revoked_at = none;
}

abbrev pub code_row : PasswordResetToken
code_row = record {
  user_id = 1;
  token_hash = codes "000007";
  requested_ip = codes "x";
  requested_user_agent = codes "y";
  expires_at = 4000;
  used_at = none;
}

abbrev pub secret_row : TwoFactorSecret
secret_row = record {
  user_id = 1;
  encrypted_secret = codes "s";
  confirmed_at = some 1;
  last_used_timecode = none;
}

abbrev pub backup_row : BackupCode
backup_row = record { user_id = 1; code_hash = codes "AAAA-BBBB"; used_at = none }

abbrev pub db : Db
db = record empty_db {
  users = alice ∷ [];
  refresh_tokens = token_row ∷ [];
  sessions = session_row ∷ [];
  reset_tokens = code_row ∷ [];
  secrets = secret_row ∷ [];
  backup_codes = backup_row ∷ [];
}

abbrev pub world : World Memory
world = record { db = db; committed = db; redis = blank; now = 3000 }

abbrev pub used_db : Db
used_db = record db { refresh_tokens = used_row ∷ [] }

abbrev pub used_world : World Memory
used_world = record { db = used_db; committed = used_db; redis = blank; now = 3000 }

abbrev pub ids : RefreshIds
ids = record { token_jti = 2; family_id = 4; session_id = 3; user_id = 1 }
