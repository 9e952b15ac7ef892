-- ===== src/Attendance/Manual.antt =====
-- The records that a manager writes: `create_session_attendance_record`,
-- `update_attendance_record` and `create_manual_attendance` of api/routes/attendance.py.
use enactspace.Shared.{
  ℕ, String, Bool, ◌||◌, not, Option, none, some, [], ◌∷◌, str_eq, mem_text, if◌then◌else◌,
}
use enactspace.Shared.Int.{ℤ, pos}
use enactspace.Shared.Env.{Env}
use enactspace.Shared.Table.{find_row}
use enactspace.People.Models.{User}
use enactspace.Server.Models.{Json}
use enactspace.Server.Handler.{Handler, pure, or_raise, raise_if, gets, audit, ◌>>=◌, ◌>>◌}
use enactspace.Server.Deps.{current_active_validated_user}
use enactspace.Attendance.Models.{
  AttendanceSession, AttendanceRecord, attendance_status_text, justification_status_text,
}
use enactspace.Attendance.Access.{require_can_manage_session}
use enactspace.Attendance.Records.{RecordInput, upsert_record, notify_record_change}
use enactspace.Attendance.Scan.{is_open_session}
use enactspace.Attendance.Sessions.{managed_session, commit_all}
use enactspace.Attendance.Justifications.{locked_record}

-- `AttendanceRecordUpdate`, with whether the request names one of the protected fields
pub record RecordUpdate : Type 0 where
  pub status : Option String
  pub arrival_time : Option ℕ
  pub delay_minutes : Option ℤ
  pub justification : Option String
  pub justification_reason : Option String
  pub justification_file_id : Option ℕ
  pub justification_file_url : Option String
  pub note : Option String
  pub names_protected_field : Bool

-- `given if given is not None else kept`
abbrev pub given_or {ℓ} : {A : Type ℓ} → Option A → Option A → Option A
given_or none kept = kept
given_or (some a) kept = some a

abbrev pub as_delay : Option ℕ → Option ℤ
as_delay none = none
as_delay (some n) = some (pos n)

abbrev pub status_or : Option String → String → String
status_or none kept = kept
status_or (some s) kept = if str_eq s "" then kept else s

-- `assert_active_operational_member` of services/operational_integrity.py
unfoldable pub assert_active_operational_member : User → Handler (Unit {0})
assert_active_operational_member user =
    raise_if
      (not (str_eq user.status "active")
        || not user.is_active
        || not (mem_text user.profile_type ("enacteur" ∷ "enactrice" ∷ [])))
      409 "Le membre sélectionné n'est pas un membre opérationnel actif"

module _ (env : Env) (current_user : User) (ip : Option String) where
  -- the notification, the audit and the commit of the two routes that create a record
  unfoldable pub log_entry :
      String → AttendanceSession → AttendanceRecord → Handler AttendanceRecord
  log_entry action session r = do
    notify_record_change env r session
    audit env action (some current_user.id) (some "attendance_record") (some r.id) none
        (some (
          ("status", Json.text (attendance_status_text r.status))
          ∷ ("user_id", Json.text (env.id_text r.user_id))
          ∷ []))
        ip
    commit_all
    pure r

  unfoldable pub enter_record : String → AttendanceSession → RecordInput → Handler AttendanceRecord
  enter_record action session i = do
    r ← upsert_record env current_user session i
    log_entry action session r

  unfoldable pub require_open : AttendanceSession → Handler (Unit {0})
  require_open session =
      raise_if (not (is_open_session session.status) || session.is_closed) 409
        "La séance doit être ouverte"

  -- on the session that is locked
  unfoldable pub create_in : AttendanceSession → RecordInput → Handler AttendanceRecord
  create_in session i = do require_open session; enter_record "creation_presence_admin" session i

  unfoldable pub create_session_attendance_record : ℕ → RecordInput → Handler AttendanceRecord
  create_session_attendance_record id i = do
    session ← managed_session env current_user id
    create_in session i

  -- the member of `create_manual_attendance`, its 404 and its 409
  unfoldable pub operational_member : ℕ → Handler User
  operational_member id = do
    found ← gets (λ db. find_row (λ (u : User). u.id) id db.people.users)
    target_user ← or_raise found 404 "Utilisateur introuvable"
    assert_active_operational_member target_user
    pure target_user

  unfoldable pub manual_in : AttendanceSession → RecordInput → Handler AttendanceRecord
  manual_in session i = do
    require_open session
    target_user ← operational_member i.user_id
    enter_record "pointage_manuel" session i

  unfoldable pub create_manual_attendance : ℕ → RecordInput → Handler AttendanceRecord
  create_manual_attendance id i = do
    session ← managed_session env current_user id
    manual_in session i

  -- the arguments that `update_attendance_record` gives to `_upsert_record`
  unfoldable pub updated_input : RecordUpdate → AttendanceRecord → RecordInput
  updated_input payload r = record {
    user_id = r.user_id;
    attendance_status = status_or payload.status (attendance_status_text r.status);
    arrival_time = given_or payload.arrival_time r.checkin_time;
    delay_minutes = given_or payload.delay_minutes (as_delay r.delay_minutes);
    justification = given_or payload.justification r.justification;
    justification_status = some (justification_status_text r.justification_status);
    justification_reason = given_or payload.justification_reason r.justification_reason;
    justification_file_id = given_or payload.justification_file_id r.justification_file_id;
    justification_file_url = given_or payload.justification_file_url r.justification_file_url;
    note = given_or payload.note r.note;
    source = "manual";
  }

  unfoldable pub log_update :
      AttendanceSession → AttendanceRecord → AttendanceRecord → Handler AttendanceRecord
  log_update session r r' = do
    notify_record_change env r' session
    audit env "modification_presence_admin" (some current_user.id) (some "attendance_record")
        (some r'.id) (some (("status", Json.text (attendance_status_text r.status)) ∷ []))
        (some (("status", Json.text (attendance_status_text r'.status)) ∷ [])) ip
    commit_all
    pure r'

  -- on the session and the record that are locked
  unfoldable pub update_in :
      RecordUpdate → AttendanceSession → AttendanceRecord → Handler AttendanceRecord
  update_in payload session r = do
    require_can_manage_session env current_user session
    raise_if payload.names_protected_field 409
        "Utilisez le workflow de justification pour modifier cet état"
    r' ← upsert_record env current_user session (updated_input payload r)
    log_update session r r'

  unfoldable pub update_attendance_record : ℕ → RecordUpdate → Handler AttendanceRecord
  update_attendance_record id payload = do
    current_active_validated_user current_user
    locked ← locked_record env id
    update_in payload locked.0 locked.1
