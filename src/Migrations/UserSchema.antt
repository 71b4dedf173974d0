-- ===== src/Migrations/UserSchema.antt =====
-- The tables of the user service (services/user-service/migrations/versions).
use backend_platform.Prelude.{true, false, none, List, [], ◌∷◌}
use backend_platform.Prelude.Text.{codes}
use backend_platform.Migrations.{
  uuid, string, boolean, timestamp, jsonb, literal, sql, required, optional, defaulted, primary_key,
  unique, foreign_key, Table, create_table, drop_table, create_index, drop_index, Migration,
}

abbrev pub app_users_table : Table
app_users_table = record {
  name = codes "app_users";
  columns =
      required (codes "id") uuid
      ∷ required (codes "external_subject") (string 64)
      ∷ optional (codes "email") (string 320)
      ∷ defaulted (codes "is_active") boolean (sql (codes "true"))
      ∷ defaulted (codes "created_at") timestamp (sql (codes "now()"))
      ∷ defaulted (codes "updated_at") timestamp (sql (codes "now()"))
      ∷ [];
  constraints =
      primary_key (codes "pk_app_users") (codes "id" ∷ [])
      ∷ unique (codes "uq_app_users_external_subject") (codes "external_subject" ∷ [])
      ∷ [];
}

abbrev pub user_profiles_table : Table
user_profiles_table = record {
  name = codes "user_profiles";
  columns =
      required (codes "id") uuid
      ∷ required (codes "user_id") uuid
      ∷ optional (codes "display_name") (string 100)
      ∷ defaulted (codes "locale") (string 16) (literal (codes "en-US"))
      ∷ defaulted (codes "timezone") (string 64) (literal (codes "UTC"))
      ∷ optional (codes "avatar_url") (string 512)
      ∷ defaulted (codes "created_at") timestamp (sql (codes "now()"))
      ∷ defaulted (codes "updated_at") timestamp (sql (codes "now()"))
      ∷ [];
  constraints =
      foreign_key (codes "fk_user_profiles_user_id_app_users") (codes "user_id")
        (codes "app_users.id")
      ∷ primary_key (codes "pk_user_profiles") (codes "id" ∷ [])
      ∷ unique (codes "uq_user_profiles_user_id") (codes "user_id" ∷ [])
      ∷ [];
}

abbrev pub roles_table : Table
roles_table = record {
  name = codes "roles";
  columns =
      required (codes "id") uuid
      ∷ required (codes "name") (string 64)
      ∷ optional (codes "description") (string 255)
      ∷ defaulted (codes "created_at") timestamp (sql (codes "now()"))
      ∷ [];
  constraints =
      primary_key (codes "pk_roles") (codes "id" ∷ [])
      ∷ unique (codes "uq_roles_name") (codes "name" ∷ [])
      ∷ [];
}

abbrev pub permissions_table : Table
permissions_table = record {
  name = codes "permissions";
  columns =
      required (codes "id") uuid
      ∷ required (codes "name") (string 128)
      ∷ optional (codes "description") (string 255)
      ∷ defaulted (codes "created_at") timestamp (sql (codes "now()"))
      ∷ [];
  constraints =
      primary_key (codes "pk_permissions") (codes "id" ∷ [])
      ∷ unique (codes "uq_permissions_name") (codes "name" ∷ [])
      ∷ [];
}

abbrev pub user_roles_table : Table
user_roles_table = record {
  name = codes "user_roles";
  columns =
      required (codes "id") uuid
      ∷ required (codes "user_id") uuid
      ∷ required (codes "role_id") uuid
      ∷ defaulted (codes "created_at") timestamp (sql (codes "now()"))
      ∷ [];
  constraints =
      foreign_key (codes "fk_user_roles_role_id_roles") (codes "role_id") (codes "roles.id")
      ∷ foreign_key (codes "fk_user_roles_user_id_app_users") (codes "user_id")
          (codes "app_users.id")
      ∷ primary_key (codes "pk_user_roles") (codes "id" ∷ [])
      ∷ unique (codes "uq_user_roles_user_id_role_id") (codes "user_id" ∷ codes "role_id" ∷ [])
      ∷ [];
}

abbrev pub role_permissions_table : Table
role_permissions_table = record {
  name = codes "role_permissions";
  columns =
      required (codes "id") uuid
      ∷ required (codes "role_id") uuid
      ∷ required (codes "permission_id") uuid
      ∷ defaulted (codes "created_at") timestamp (sql (codes "now()"))
      ∷ [];
  constraints =
      foreign_key (codes "fk_role_permissions_permission_id_permissions") (codes "permission_id")
        (codes "permissions.id")
      ∷ foreign_key (codes "fk_role_permissions_role_id_roles") (codes "role_id") (codes "roles.id")
      ∷ primary_key (codes "pk_role_permissions") (codes "id" ∷ [])
      ∷ unique (codes "uq_role_permissions_role_id_permission_id")
          (codes "role_id" ∷ codes "permission_id" ∷ [])
      ∷ [];
}

abbrev pub audit_events_table : Table
audit_events_table = record {
  name = codes "audit_events";
  columns =
      required (codes "id") uuid
      ∷ required (codes "event_type") (string 128)
      ∷ required (codes "outcome") (string 16)
      ∷ optional (codes "actor_user_id") uuid
      ∷ optional (codes "target_user_id") uuid
      ∷ optional (codes "ip_address") (string 64)
      ∷ optional (codes "user_agent") (string 512)
      ∷ defaulted (codes "payload") jsonb (sql (codes "'{}'::jsonb"))
      ∷ defaulted (codes "created_at") timestamp (sql (codes "now()"))
      ∷ [];
  constraints = primary_key (codes "pk_audit_events") (codes "id" ∷ []) ∷ [];
}

-- The operations of the migration, in the order of its `upgrade` and of its `downgrade`.
abbrev pub initial_user_schema : Migration
initial_user_schema = record {
  revision = codes "20260411_0001";
  down_revision = none;
  upgrade =
      create_table app_users_table
      ∷ create_index (codes "ix_app_users_external_subject") (codes "app_users")
          (codes "external_subject" ∷ []) true
      ∷ create_table user_profiles_table
      ∷ create_table roles_table
      ∷ create_index (codes "ix_roles_name") (codes "roles") (codes "name" ∷ []) true
      ∷ create_table permissions_table
      ∷ create_index (codes "ix_permissions_name") (codes "permissions") (codes "name" ∷ []) true
      ∷ create_table user_roles_table
      ∷ create_index (codes "ix_user_roles_user_id") (codes "user_roles") (codes "user_id" ∷ [])
          false
      ∷ create_index (codes "ix_user_roles_role_id") (codes "user_roles") (codes "role_id" ∷ [])
          false
      ∷ create_table role_permissions_table
      ∷ create_index (codes "ix_role_permissions_role_id") (codes "role_permissions")
          (codes "role_id" ∷ []) false
      ∷ create_index (codes "ix_role_permissions_permission_id") (codes "role_permissions")
          (codes "permission_id" ∷ []) false
      ∷ create_table audit_events_table
      ∷ create_index (codes "ix_audit_events_event_type") (codes "audit_events")
          (codes "event_type" ∷ []) false
      ∷ [];
  downgrade =
      drop_index (codes "ix_audit_events_event_type") (codes "audit_events")
      ∷ drop_table (codes "audit_events")
      ∷ drop_index (codes "ix_role_permissions_permission_id") (codes "role_permissions")
      ∷ drop_index (codes "ix_role_permissions_role_id") (codes "role_permissions")
      ∷ drop_table (codes "role_permissions")
      ∷ drop_index (codes "ix_user_roles_role_id") (codes "user_roles")
      ∷ drop_index (codes "ix_user_roles_user_id") (codes "user_roles")
      ∷ drop_table (codes "user_roles")
      ∷ drop_index (codes "ix_permissions_name") (codes "permissions")
      ∷ drop_table (codes "permissions")
      ∷ drop_index (codes "ix_roles_name") (codes "roles")
      ∷ drop_table (codes "roles")
      ∷ drop_table (codes "user_profiles")
      ∷ drop_index (codes "ix_app_users_external_subject") (codes "app_users")
      ∷ drop_table (codes "app_users")
      ∷ [];
}

abbrev pub user_migrations : List Migration
user_migrations = initial_user_schema ∷ []
