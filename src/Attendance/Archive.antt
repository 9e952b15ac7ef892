-- ===== src/Attendance/Archive.antt =====
-- `capture_attendance_archive` and `_persist_capture` of services/institutional_memory_capture.py: the
-- event that an archived session leaves in the institutional memory, with its audit.
pub mod Again
use enactspace.Shared.{
  ℕ, ◌+◌, String, ◌&&◌, Option, none, some, [], ◌∷◌, ◌++◌, ◌==◌, str_eq, same_text, is_none,
  fstring, if◌then◌else◌,
}
use enactspace.Shared.Env.{Env}
use enactspace.Shared.Table.{first, select, length}
use enactspace.Server.Models.{
  Db, Json, InstitutionalEvent, InstitutionalMemory, AuditTrail, create_audit_log,
}
use enactspace.Attendance.Models.{
  Attendance, AttendanceSession, AttendanceRecord, AttendanceExpectedMember, AttendanceStatus,
  attendance_status_text,
}

-- `_existing_capture`
unfoldable pub existing_capture : Option String → InstitutionalMemory → Option InstitutionalEvent
existing_capture capture_key m =
    first (λ (e : InstitutionalEvent). same_text e.capture_key capture_key) m.events

-- `int(counts.get(status, 0))`
unfoldable pub status_count : ℕ → AttendanceStatus → Attendance → ℕ
status_count session status t = length (
    select
      (λ (r : AttendanceRecord).
        r.session_id == session
        && str_eq (attendance_status_text r.status) (attendance_status_text status))
      t.records)

unfoldable pub expected_count : ℕ → Attendance → ℕ
expected_count session t =
    length (select (λ (e : AttendanceExpectedMember). e.session_id == session) t.expected)

module _ (env : Env) where
  abbrev pub time_or : Option ℕ → ℕ → ℕ
  time_or none created_at = created_at
  time_or (some t) created_at = t

  unfoldable pub archive_summary : AttendanceSession → Attendance → String
  archive_summary session t = fstring (
      "Type: "
      ∷ session.session_type
      ∷ "; perimetre: "
      ∷ session.scope_type
      ∷ "; attendus: "
      ∷ env.number_text (expected_count session.id t)
      ∷ "; presents: "
      ∷ env.number_text (status_count session.id AttendanceStatus.present t)
      ∷ "; retards: "
      ∷ env.number_text (status_count session.id AttendanceStatus.late t)
      ∷ "; absents/excuses: "
      ∷ env.number_text (
          status_count session.id AttendanceStatus.absent t
          + status_count session.id AttendanceStatus.justified_absence t)
      ∷ "."
      ∷ [])

  unfoldable pub archive_event : ℕ → AttendanceSession → Attendance → ℕ → InstitutionalEvent
  archive_event actor_id session t drawn =
      let scheduled = time_or session.scheduled_at session.created_at in
      record {
        id = env.uuid4 drawn;
        title = fstring ("Seance archivee : " ∷ session.title ∷ []);
        event_type = "attendance_session_archived";
        event_date = some (env.date_of scheduled);
        year = env.year_of scheduled;
        description = some (archive_summary session t);
        visibility = "private";
        status = "archived";
        validation_status = "VERIFIED";
        validated_by_id = some actor_id;
        validated_at = some env.utcnow;
        origin = "operational";
        capture_key =
            some (fstring ("attendance_session:" ∷ env.id_text session.id ∷ ":archived" ∷ []));
        source_entity_type = some "attendance_session";
        source_entity_id = some session.id;
        source_entity_version = some "archived";
        captured_at = some env.utcnow;
        operational_project_id = session.project_id;
        pole_id = session.pole_id;
        operational_event_id = session.event_id;
        created_at = env.utcnow;
        updated_at = env.utcnow;
      }

  abbrev pub text_of : Option String → String
  text_of none = "None"
  text_of (some s) = s

  abbrev pub id_text_of : Option ℕ → String
  id_text_of none = "None"
  id_text_of (some k) = env.id_text k

  unfoldable pub audit_capture : ℕ → InstitutionalEvent → AuditTrail → AuditTrail
  audit_capture actor_id event =
      create_audit_log env "institutional_memory_operational_capture" (some actor_id)
        (some "institutional_event") (some event.id) none
        (some (
          ("capture_key", Json.text (text_of event.capture_key))
          ∷ ("source_entity_type", Json.text (text_of event.source_entity_type))
          ∷ ("source_entity_id", Json.text (id_text_of event.source_entity_id))
          ∷ []))
        none

  -- `_persist_capture`: an event of the same key is left as it is. The IntegrityError of the savepoint
  -- is raised only where another request has captured since the query; the flushes of the savepoint
  -- are left to the commit that follows.
  unfoldable pub persist_capture : ℕ → InstitutionalEvent → Db → Db
  persist_capture actor_id event db =
      let fresh = is_none (existing_capture event.capture_key db.memory) in
      record db {
        memory =
            if fresh
            then record { events = db.memory.events ++ event ∷ []; drawn = db.memory.drawn + 1 }
            else db.memory;
        audit = if fresh then audit_capture actor_id event db.audit else db.audit;
      }

  unfoldable pub capture_attendance_archive : ℕ → AttendanceSession → Db → Db
  capture_attendance_archive actor_id session db =
      persist_capture actor_id (archive_event actor_id session db.attendance db.memory.drawn) db
