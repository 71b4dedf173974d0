-- ===== src/Audit.antt =====
-- Audit events and the removal of secrets from their payloads
-- (services/auth-service/app/services/audit_service.py, app/repositories/audit_repository.py).
pub mod Sanitized
use backend_platform.Prelude.{ℕ, Bool, Option, List, [], ◌∷◌, if◌then◌else◌}
use backend_platform.Prelude.Text.{Text, codes, lower, member}

-- The values of a payload; `plain` is any value that is neither a mapping nor a list.
mutual
  pub data Value : Type 0 where
    plain : Text → Value
    mapping : Fields → Value
    items : Items → Value

  pub data Fields : Type 0 where
    end : Fields
    field : Text → Value → Fields → Fields

  pub data Items : Type 0 where
    nil : Items
    cons : Value → Items → Items

-- `SENSITIVE_FIELDS`
abbrev pub sensitive_fields : List Text
sensitive_fields =
    codes "password"
    ∷ codes "password_hash"
    ∷ codes "access_token"
    ∷ codes "refresh_token"
    ∷ codes "authorization"
    ∷ codes "totp_code"
    ∷ codes "backup_code"
    ∷ codes "backup_codes"
    ∷ codes "secret"
    ∷ codes "encrypted_secret"
    ∷ codes "private_key"
    ∷ codes "token"
    ∷ []

-- `key.lower() in SENSITIVE_FIELDS`
unfoldable pub is_sensitive : Text → Bool
is_sensitive key = member (lower key) sensitive_fields

unfoldable mutual
  pub sanitize_value : Value → Value
  sanitize_value (plain t) = plain t
  sanitize_value (mapping fields) = mapping (sanitize_payload fields)
  sanitize_value (items values) = items (sanitize_items values)

  -- The loop over a mapping, at the top and below it.
  pub sanitize_payload : Fields → Fields
  sanitize_payload end = end
  sanitize_payload (field key value rest) =
      let cleaned = sanitize_payload rest in
      if is_sensitive key then cleaned else field key (sanitize_value value) cleaned

  pub sanitize_items : Items → Items
  sanitize_items nil = nil
  sanitize_items (cons value rest) = cons (sanitize_value value) (sanitize_items rest)

pub record AuditEvent : Type 0 where
  pub event_type : Text
  pub outcome : Text
  pub actor_user_id : Option ℕ
  pub target_user_id : Option ℕ
  pub ip_address : Option Text
  pub user_agent : Option Text
  pub payload : Fields
