-- ===== src/Server/Models.antt =====
-- The whole database, and the audit log of models/audit.py and services/audit_service.py.
use enactspace.Shared.{ℕ, ◌+◌, String, Option, List, [], ◌∷◌, ◌++◌}
use enactspace.Shared.Env.{Env}
use enactspace.Ledger.Models.{Ledger}
use enactspace.Outbox.Models.{Outbox}
use enactspace.People.Models.{People}
use enactspace.Mobile.Models.{MobileMoney}
use enactspace.Attendance.Models.{Attendance}
pub use enactspace.Shared.Json.{Json}

pub record AuditLog : Type 0 where
  pub id : ℕ
  pub user_id : Option ℕ
  pub action : String
  pub entity_type : Option String
  pub entity_id : Option ℕ
  pub old_value : Option (List (String × Json))
  pub new_value : Option (List (String × Json))
  pub ip_address : Option String
  pub created_at : ℕ

pub record AuditTrail : Type 0 where
  pub logs : List AuditLog
  pub drawn : ℕ

-- `InstitutionalEvent` of models/institutional_memory.py: the columns that a capture writes
pub record InstitutionalEvent : Type 0 where
  pub id : ℕ
  pub title : String
  pub event_type : String
  pub event_date : Option ℕ
  pub year : ℕ
  pub description : Option String
  pub visibility : String
  pub status : String
  pub validation_status : String
  pub validated_by_id : Option ℕ
  pub validated_at : Option ℕ
  pub origin : String
  pub capture_key : Option String
  pub source_entity_type : Option String
  pub source_entity_id : Option ℕ
  pub source_entity_version : Option String
  pub captured_at : Option ℕ
  pub operational_project_id : Option ℕ
  pub pole_id : Option ℕ
  pub operational_event_id : Option ℕ
  pub created_at : ℕ
  pub updated_at : ℕ

pub record InstitutionalMemory : Type 0 where
  pub events : List InstitutionalEvent
  pub drawn : ℕ

pub record Db : Type 0 where
  pub people : People
  pub ledger : Ledger
  pub outbox : Outbox
  pub audit : AuditTrail
  pub mobile : MobileMoney
  pub attendance : Attendance
  pub memory : InstitutionalMemory

-- `create_audit_log`
unfoldable pub create_audit_log :
    Env
    → String
    → Option ℕ
    → Option String
    → Option ℕ
    → Option (List (String × Json))
    → Option (List (String × Json))
    → Option String
    → AuditTrail
    → AuditTrail
create_audit_log env action user_id entity_type entity_id old_value new_value ip_address t =
    record {
      logs =
          t.logs
          ++ record {
            id = env.uuid4 t.drawn;
            user_id = user_id;
            action = action;
            entity_type = entity_type;
            entity_id = entity_id;
            old_value = old_value;
            new_value = new_value;
            ip_address = ip_address;
            created_at = env.utcnow;
          }
            ∷ [];
      drawn = t.drawn + 1;
    }
