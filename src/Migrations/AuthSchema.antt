-- ===== src/Migrations/AuthSchema.antt =====
-- The tables of the auth service (services/auth-service/migrations/versions).
use backend_platform.Prelude.{true, false, none, some, List, [], ◌∷◌}
use backend_platform.Prelude.Text.{codes}
use backend_platform.Migrations.{
  uuid, string, text, boolean, integer, timestamp, jsonb, sql, required, optional, defaulted,
  primary_key, unique, foreign_key, Table, create_table, drop_table, create_index, drop_index,
  add_column, drop_column, drop_default, Migration,
}

abbrev pub users_table : Table
users_table = record {
  name = codes "users";
  columns =
      required (codes "id") uuid
      ∷ required (codes "email") (string 320)
      ∷ required (codes "password_hash") (string 512)
      ∷ defaulted (codes "is_active") boolean (sql (codes "true"))
      ∷ defaulted (codes "is_superuser") boolean (sql (codes "false"))
      ∷ defaulted (codes "two_factor_enabled") boolean (sql (codes "false"))
      ∷ defaulted (codes "created_at") timestamp (sql (codes "now()"))
      ∷ defaulted (codes "updated_at") timestamp (sql (codes "now()"))
      ∷ [];
  constraints =
      primary_key (codes "pk_users") (codes "id" ∷ [])
      ∷ unique (codes "uq_users_email") (codes "email" ∷ [])
      ∷ [];
}

abbrev pub two_factor_secrets_table : Table
two_factor_secrets_table = record {
  name = codes "two_factor_secrets";
  columns =
      required (codes "id") uuid
      ∷ required (codes "user_id") uuid
      ∷ required (codes "encrypted_secret") text
      ∷ optional (codes "confirmed_at") timestamp
      ∷ optional (codes "last_used_timecode") integer
      ∷ defaulted (codes "created_at") timestamp (sql (codes "now()"))
      ∷ defaulted (codes "updated_at") timestamp (sql (codes "now()"))
      ∷ [];
  constraints =
      foreign_key (codes "fk_two_factor_secrets_user_id_users") (codes "user_id") (codes "users.id")
      ∷ primary_key (codes "pk_two_factor_secrets") (codes "id" ∷ [])
      ∷ unique (codes "uq_two_factor_secrets_user_id") (codes "user_id" ∷ [])
      ∷ [];
}

abbrev pub backup_codes_table : Table
backup_codes_table = record {
  name = codes "backup_codes";
  columns =
      required (codes "id") uuid
      ∷ required (codes "user_id") uuid
      ∷ required (codes "code_hash") (string 512)
      ∷ optional (codes "used_at") timestamp
      ∷ defaulted (codes "created_at") timestamp (sql (codes "now()"))
      ∷ [];
  constraints =
      foreign_key (codes "fk_backup_codes_user_id_users") (codes "user_id") (codes "users.id")
      ∷ primary_key (codes "pk_backup_codes") (codes "id" ∷ [])
      ∷ [];
}

abbrev pub user_sessions_table : Table
user_sessions_table = record {
  name = codes "user_sessions";
  columns =
      required (codes "id") uuid
      ∷ required (codes "user_id") uuid
      ∷ required (codes "refresh_family_id") uuid
      ∷ optional (codes "ip_address") (string 64)
      ∷ optional (codes "user_agent") (string 512)
      ∷ defaulted (codes "created_at") timestamp (sql (codes "now()"))
      ∷ defaulted (codes "last_seen_at") timestamp (sql (codes "now()"))
      ∷ optional (codes "revoked_at") timestamp
      ∷ [];
  constraints =
      foreign_key (codes "fk_user_sessions_user_id_users") (codes "user_id") (codes "users.id")
      ∷ primary_key (codes "pk_user_sessions") (codes "id" ∷ [])
      ∷ [];
}

abbrev pub refresh_tokens_table : Table
refresh_tokens_table = record {
  name = codes "refresh_tokens";
  columns =
      required (codes "id") uuid
      ∷ required (codes "user_id") uuid
      ∷ required (codes "jti") uuid
      ∷ required (codes "family_id") uuid
      ∷ optional (codes "parent_jti") uuid
      ∷ required (codes "token_hash") text
      ∷ defaulted (codes "issued_at") timestamp (sql (codes "now()"))
      ∷ required (codes "expires_at") timestamp
      ∷ optional (codes "rotated_at") timestamp
      ∷ optional (codes "revoked_at") timestamp
      ∷ optional (codes "replaced_by_jti") uuid
      ∷ optional (codes "revocation_reason") (string 128)
      ∷ optional (codes "ip_address") (string 64)
      ∷ optional (codes "user_agent") (string 512)
      ∷ [];
  constraints =
      foreign_key (codes "fk_refresh_tokens_user_id_users") (codes "user_id") (codes "users.id")
      ∷ primary_key (codes "pk_refresh_tokens") (codes "id" ∷ [])
      ∷ unique (codes "uq_refresh_tokens_jti") (codes "jti" ∷ [])
      ∷ [];
}

abbrev pub audit_events_table : Table
audit_events_table = record {
  name = codes "audit_events";
  columns =
      required (codes "id") uuid
      ∷ required (codes "event_type") (string 128)
      ∷ required (codes "outcome") (string 16)
      ∷ optional (codes "actor_user_id") uuid
      ∷ optional (codes "target_user_id") uuid
      ∷ optional (codes "ip_address") (string 64)
      ∷ optional (codes "user_agent") (string 512)
      ∷ defaulted (codes "payload") jsonb (sql (codes "'{}'::jsonb"))
      ∷ defaulted (codes "created_at") timestamp (sql (codes "now()"))
      ∷ [];
  constraints = primary_key (codes "pk_audit_events") (codes "id" ∷ []) ∷ [];
}

-- The operations of the migration, in the order of its `upgrade` and of its `downgrade`.
abbrev pub initial_auth_schema : Migration
initial_auth_schema = record {
  revision = codes "20260411_0001";
  down_revision = none;
  upgrade =
      create_table users_table
      ∷ create_index (codes "ix_users_email") (codes "users") (codes "email" ∷ []) true
      ∷ create_table two_factor_secrets_table
      ∷ create_table backup_codes_table
      ∷ create_index (codes "ix_backup_codes_user_id") (codes "backup_codes") (codes "user_id" ∷ [])
          false
      ∷ create_table user_sessions_table
      ∷ create_index (codes "ix_user_sessions_user_id") (codes "user_sessions")
          (codes "user_id" ∷ []) false
      ∷ create_index (codes "ix_user_sessions_refresh_family_id") (codes "user_sessions")
          (codes "refresh_family_id" ∷ []) false
      ∷ create_table refresh_tokens_table
      ∷ create_index (codes "ix_refresh_tokens_jti") (codes "refresh_tokens") (codes "jti" ∷ [])
          true
      ∷ create_index (codes "ix_refresh_tokens_user_id") (codes "refresh_tokens")
          (codes "user_id" ∷ []) false
      ∷ create_index (codes "ix_refresh_tokens_family_id") (codes "refresh_tokens")
          (codes "family_id" ∷ []) false
      ∷ create_table audit_events_table
      ∷ create_index (codes "ix_audit_events_event_type") (codes "audit_events")
          (codes "event_type" ∷ []) false
      ∷ [];
  downgrade =
      drop_index (codes "ix_audit_events_event_type") (codes "audit_events")
      ∷ drop_table (codes "audit_events")
      ∷ drop_index (codes "ix_refresh_tokens_family_id") (codes "refresh_tokens")
      ∷ drop_index (codes "ix_refresh_tokens_user_id") (codes "refresh_tokens")
      ∷ drop_index (codes "ix_refresh_tokens_jti") (codes "refresh_tokens")
      ∷ drop_table (codes "refresh_tokens")
      ∷ drop_index (codes "ix_user_sessions_refresh_family_id") (codes "user_sessions")
      ∷ drop_index (codes "ix_user_sessions_user_id") (codes "user_sessions")
      ∷ drop_table (codes "user_sessions")
      ∷ drop_index (codes "ix_backup_codes_user_id") (codes "backup_codes")
      ∷ drop_table (codes "backup_codes")
      ∷ drop_table (codes "two_factor_secrets")
      ∷ drop_index (codes "ix_users_email") (codes "users")
      ∷ drop_table (codes "users")
      ∷ [];
}

abbrev pub password_reset_tokens_table : Table
password_reset_tokens_table = record {
  name = codes "password_reset_tokens";
  columns =
      required (codes "id") uuid
      ∷ required (codes "user_id") uuid
      ∷ required (codes "token_hash") (string 128)
      ∷ optional (codes "requested_ip") (string 64)
      ∷ optional (codes "requested_user_agent") (string 512)
      ∷ defaulted (codes "created_at") timestamp (sql (codes "now()"))
      ∷ required (codes "expires_at") timestamp
      ∷ optional (codes "used_at") timestamp
      ∷ [];
  constraints =
      foreign_key (codes "fk_password_reset_tokens_user_id_users") (codes "user_id")
        (codes "users.id")
      ∷ primary_key (codes "pk_password_reset_tokens") (codes "id" ∷ [])
      ∷ unique (codes "uq_password_reset_tokens_token_hash") (codes "token_hash" ∷ [])
      ∷ [];
}

-- The operations of the migration, in the order of its `upgrade` and of its `downgrade`.
abbrev pub add_password_reset_tokens : Migration
add_password_reset_tokens = record {
  revision = codes "20260413_0002";
  down_revision = some (codes "20260411_0001");
  upgrade =
      create_table password_reset_tokens_table
      ∷ create_index (codes "ix_password_reset_tokens_user_id") (codes "password_reset_tokens")
          (codes "user_id" ∷ []) false
      ∷ [];
  downgrade =
      drop_index (codes "ix_password_reset_tokens_user_id") (codes "password_reset_tokens")
      ∷ drop_table (codes "password_reset_tokens")
      ∷ [];
}

-- The operations of the migration, in the order of its `upgrade` and of its `downgrade`.
abbrev pub user_security_lock_flags : Migration
user_security_lock_flags = record {
  revision = codes "20260421_0003";
  down_revision = some (codes "20260413_0002");
  upgrade =
      add_column (codes "users") (defaulted (codes "login_blocked") boolean (sql (codes "false")))
      ∷ add_column (codes "users")
          (defaulted (codes "password_reset_blocked") boolean (sql (codes "false")))
      ∷ drop_default (codes "users") (codes "login_blocked")
      ∷ drop_default (codes "users") (codes "password_reset_blocked")
      ∷ [];
  downgrade =
      drop_column (codes "users") (codes "password_reset_blocked")
      ∷ drop_column (codes "users") (codes "login_blocked")
      ∷ [];
}

abbrev pub auth_migrations : List Migration
auth_migrations = initial_auth_schema ∷ add_password_reset_tokens ∷ user_security_lock_flags ∷ []
