-- ===== src/Auth/Db.antt =====
-- The tables of the service (services/auth-service/app/models). Identifiers are the numbers that
-- the UUIDs stand for, and times are whole seconds. A row's creation and update stamps, which no
-- service reads, are left out, and so are the keys of tokens and codes, whose rows are named by
-- `jti`, by `token_hash` or by their place.
use backend_platform.Prelude.{ℕ, Bool, Option, List, []}
use backend_platform.Prelude.Text.{Text}
use backend_platform.Audit.{AuditEvent}

pub record User : Type 0 where
  pub id : ℕ
  pub email : Text
  pub password_hash : Text
  pub is_active : Bool
  pub is_superuser : Bool
  pub two_factor_enabled : Bool
  pub login_blocked : Bool
  pub password_reset_blocked : Bool

pub record RefreshToken : Type 0 where
  pub user_id : ℕ
  pub jti : ℕ
  pub family_id : ℕ
  pub parent_jti : Option ℕ
  pub token_hash : Text
  pub expires_at : ℕ
  pub rotated_at : Option ℕ
  pub revoked_at : Option ℕ
  pub replaced_by_jti : Option ℕ
  pub revocation_reason : Option Text
  pub ip_address : Option Text
  pub user_agent : Option Text

pub record UserSession : Type 0 where
  pub id : ℕ
  pub user_id : ℕ
  pub refresh_family_id : ℕ
  pub ip_address : Option Text
  pub user_agent : Option Text
  pub last_seen_at : ℕ
  pub revoked_at : Option ℕ

pub record PasswordResetToken : Type 0 where
  pub user_id : ℕ
  pub token_hash : Text
  pub requested_ip : Text
  pub requested_user_agent : Text
  pub expires_at : ℕ
  pub used_at : Option ℕ

pub record TwoFactorSecret : Type 0 where
  pub user_id : ℕ
  pub encrypted_secret : Text
  pub confirmed_at : Option ℕ
  pub last_used_timecode : Option ℕ

pub record BackupCode : Type 0 where
  pub user_id : ℕ
  pub code_hash : Text
  pub used_at : Option ℕ

-- Each table's rows in the order of their creation.
pub record Db : Type 0 where
  pub users : List User
  pub refresh_tokens : List RefreshToken
  pub sessions : List UserSession
  pub reset_tokens : List PasswordResetToken
  pub secrets : List TwoFactorSecret
  pub backup_codes : List BackupCode
  pub audit_events : List AuditEvent

abbrev pub empty_db : Db
empty_db = record {
  users = [];
  refresh_tokens = [];
  sessions = [];
  reset_tokens = [];
  secrets = [];
  backup_codes = [];
  audit_events = [];
}
