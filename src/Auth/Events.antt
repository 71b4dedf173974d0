-- ===== src/Auth/Events.antt =====
-- The audit trail of the service (services/auth-service/app/services/audit_service.py): an event
-- is added to the session with its payload sanitised.
use backend_platform.Prelude.{ℕ, Option, [], ◌∷◌, ◌++◌}
use backend_platform.Prelude.Text.{Text}
use backend_platform.Audit.{plain, Fields, end, field, sanitize_payload}
use backend_platform.Auth.World.{Action, modify}

-- {key: text}
abbrev pub entry : Text → Text → Fields
entry key text = field key (plain text) end

unfoldable pub log_event :
    {S : Type 0}
    → Text
    → Text
    → Option ℕ
    → Option ℕ
    → Option Text
    → Option Text
    → Fields
    → Action S (Unit {0})
log_event event_type outcome actor_user_id target_user_id ip_address user_agent payload =
    modify λ db. record db {
      audit_events =
          db.audit_events
          ++ (record {
            event_type = event_type;
            outcome = outcome;
            actor_user_id = actor_user_id;
            target_user_id = target_user_id;
            ip_address = ip_address;
            user_agent = user_agent;
            payload = sanitize_payload payload;
          }
              ∷ []);
    }
