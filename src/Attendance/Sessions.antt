-- ===== src/Attendance/Sessions.antt =====
-- The life of an attendance session: `open_attendance_session`, `close_attendance_session` and
-- `archive_attendance_session` of api/routes/attendance.py. The routes answer with the session, or
-- with the number of absences.
use enactspace.Shared.{
  ℕ, ◌+◌, String, Bool, true, false, Option, none, some, List, [], ◌∷◌, map, is_none, fstring,
  if◌then◌else◌,
}
use enactspace.Shared.Env.{Env}
use enactspace.Shared.Table.{find_row}
use enactspace.People.Models.{User}
use enactspace.Outbox.Service.{NotificationRequest}
use enactspace.Server.Models.{Json}
use enactspace.Server.Handler.{
  Handler, pure, raise, gets, on_db, modify_attendance, commit, audit, notify_users, ◌>>=◌, ◌>>◌,
}
use enactspace.Server.Deps.{current_active_validated_user}
use enactspace.Attendance.Models.{
  AttendanceSession, AttendanceExpectedMember, SessionStatus, session_id, record_of, save_session,
  flush_expected, session_status_text,
}
use enactspace.Attendance.Archive.{capture_attendance_archive}
use enactspace.Attendance.Access.{require_can_manage_session}
use enactspace.Attendance.Expected.{ensure_expected_members, expected_members}
use enactspace.Attendance.Records.{RecordInput, plain_record, upsert_record, notify_record_change}

-- `_ensure_expected_members(db, session)` in a route
abbrev pub ensure_expected : Env → AttendanceSession → Handler ℕ
ensure_expected env session = on_db λ db.
    let (created, t) = ensure_expected_members env session db.people db.attendance in
    (created, record db { attendance = t })

-- `db.commit()`, which flushes
abbrev pub commit_all : Handler (Unit {0})
commit_all = modify_attendance flush_expected >> commit

abbrev pub forbidden_transition : SessionStatus → String → String
forbidden_transition status target =
    fstring
      ("Transition de séance interdite : " ∷ session_status_text status ∷ " -> " ∷ target ∷ [])

module _ (env : Env) where
  unfoldable pub found_session : User → Option AttendanceSession → Handler AttendanceSession
  found_session current_user none = raise 404 "Seance de presence introuvable"
  found_session current_user (some session) = do
    require_can_manage_session env current_user session
    pure session

  -- `lock_row(db, AttendanceSession, …)`, its 404 and the permission
  unfoldable pub managed_session : User → ℕ → Handler AttendanceSession
  managed_session current_user id = do
    current_active_validated_user current_user
    found ← gets (λ db. find_row session_id id db.attendance.sessions)
    found_session current_user found

  -- the writes of `open_attendance_session`
  unfoldable pub opened_session : AttendanceSession → AttendanceSession
  opened_session session = record session {
    status = SessionStatus.opened;
    checkin_start =
        if is_none session.checkin_start then some env.utcnow else session.checkin_start;
    updated_at = env.utcnow;
  }

  abbrev pub opening_notice : AttendanceSession → NotificationRequest
  opening_notice session = record {
    title = "Appel ouvert";
    body = none;
    message = some (fstring ("L'appel est ouvert pour " ∷ session.title ∷ "." ∷ []));
    type = none;
    notification_type = some "attendance_session_open";
    category = none;
    entity_type = none;
    entity_id = none;
    related_type = some "attendance_session";
    related_id = some session.id;
    dedupe = true;
  }

  module _ (current_user : User) (ip : Option String) where
    unfoldable pub open_draft : AttendanceSession → Handler AttendanceSession
    open_draft session = do
      let session' = opened_session session
      modify_attendance (save_session session')
      generated ← ensure_expected env session'
      members ← gets (λ db. expected_members session.id db.attendance)
      notify_users env (map (λ (e : AttendanceExpectedMember). e.user_id) members)
          (opening_notice session')
      audit env "ouverture_seance_presence" (some current_user.id) (some "attendance_session")
          (some session.id) none
          (some (("status", Json.text "open") ∷ ("expected_generated", Json.number generated) ∷ []))
          ip
      commit_all
      pure session'

    -- the route on the session that is locked, by its status
    unfoldable pub open_locked :
        AttendanceSession → SessionStatus → Bool → Handler AttendanceSession
    open_locked session SessionStatus.opened is_closed = pure session
    open_locked session SessionStatus.draft true =
        raise 409 (forbidden_transition SessionStatus.draft "open")
    open_locked session SessionStatus.draft false = open_draft session
    open_locked session SessionStatus.closed is_closed =
        raise 409 (forbidden_transition SessionStatus.closed "open")
    open_locked session SessionStatus.archived is_closed =
        raise 409 (forbidden_transition SessionStatus.archived "open")

    unfoldable pub open_attendance_session : ℕ → Handler AttendanceSession
    open_attendance_session id = do
      session ← managed_session current_user id
      open_locked session session.status session.is_closed

    abbrev pub absence : ℕ → RecordInput
    absence user_id = record (plain_record user_id "absent") {
      justification_status = some "not_submitted";
    }

    -- one round of the loop of `close_attendance_session`, for a member without a record
    unfoldable pub record_absence : AttendanceSession → ℕ → Handler ℕ
    record_absence session user_id = do
      r ← upsert_record env current_user session (absence user_id)
      notify_record_change env r session
      pure 1

    unfoldable pub absence_of : AttendanceSession → ℕ → Bool → Handler ℕ
    absence_of session user_id true = record_absence session user_id
    absence_of session user_id false = pure 0

    -- The loop over the expected members, with the number of absences that it records.
    unfoldable pub record_absences : AttendanceSession → List AttendanceExpectedMember → Handler ℕ
    record_absences session [] = pure 0
    record_absences session (e ∷ es) = do
      missing ← gets (λ db. is_none (record_of session.id e.user_id db.attendance.records))
      n ← absence_of session e.user_id missing
      rest ← record_absences session es
      pure (n + rest)

    unfoldable pub closed_session : AttendanceSession → AttendanceSession
    closed_session session = record session {
      status = SessionStatus.closed;
      is_closed = true;
      updated_at = env.utcnow;
    }

    -- the close itself, after the absences
    unfoldable pub finish_close : AttendanceSession → ℕ → Handler ℕ
    finish_close session created_absences = do
      modify_attendance (save_session (closed_session session))
      audit env "cloture_seance_presence" (some current_user.id) (some "attendance_session")
          (some session.id)
          (some (("status", Json.text "open") ∷ ("is_closed", Json.flag false) ∷ []))
          (some (
            ("status", Json.text "closed")
            ∷ ("absences_generated", Json.number created_absences)
            ∷ []))
          ip
      commit_all
      pure created_absences

    unfoldable pub close_open : AttendanceSession → Handler ℕ
    close_open session = do
      generated ← ensure_expected env session
      members ← gets (λ db. expected_members session.id db.attendance)
      created_absences ← record_absences session members
      finish_close session created_absences

    unfoldable pub close_locked : AttendanceSession → SessionStatus → Handler ℕ
    close_locked session SessionStatus.closed = pure 0
    close_locked session SessionStatus.archived = pure 0
    close_locked session SessionStatus.opened = close_open session
    close_locked session SessionStatus.draft =
        raise 409 (forbidden_transition SessionStatus.draft "closed")

    unfoldable pub close_attendance_session : ℕ → Handler ℕ
    close_attendance_session id = do
      session ← managed_session current_user id
      close_locked session session.status

    unfoldable pub archived_session : AttendanceSession → AttendanceSession
    archived_session session = record session {
      status = SessionStatus.archived;
      is_closed = true;
      updated_at = env.utcnow;
    }

    unfoldable pub archive_closed : AttendanceSession → Handler AttendanceSession
    archive_closed session = do
      modify_attendance (save_session (archived_session session))
      audit env "archivage_seance_presence" (some current_user.id) (some "attendance_session")
          (some session.id) (some (("status", Json.text "closed") ∷ []))
          (some (("status", Json.text "archived") ∷ [])) ip
      on_db
          (λ db. (tt, capture_attendance_archive env current_user.id (archived_session session) db))
      commit_all
      pure (archived_session session)

    unfoldable pub archive_locked : AttendanceSession → SessionStatus → Handler AttendanceSession
    archive_locked session SessionStatus.archived = pure session
    archive_locked session SessionStatus.closed = archive_closed session
    archive_locked session SessionStatus.draft =
        raise 409 (forbidden_transition SessionStatus.draft "archived")
    archive_locked session SessionStatus.opened =
        raise 409 (forbidden_transition SessionStatus.opened "archived")

    unfoldable pub archive_attendance_session : ℕ → Handler AttendanceSession
    archive_attendance_session id = do
      session ← managed_session current_user id
      archive_locked session session.status
