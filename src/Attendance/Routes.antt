-- ===== src/Attendance/Routes.antt =====
-- The attendance routes that write the database, as requests, and runs of them one after the other.
pub mod Guards
pub mod Steps
pub mod SessionRoutes
pub mod ScanRoutes
pub mod Entries
pub mod RosterRoutes
pub mod Soundness
use enactspace.Shared.{ℕ, Bool, String, Option, List}
use enactspace.Shared.Env.{Env}
use enactspace.People.Models.{User}
use enactspace.Server.Models.{Db}
use enactspace.Server.Handler.{after}
use enactspace.Attendance.QrToken.{QrEnv}
use enactspace.Attendance.Records.{RecordInput}
use enactspace.Attendance.Sessions
use enactspace.Attendance.Scan
use enactspace.Attendance.Scan.{QrSettings, ScanAttempts}
use enactspace.Attendance.Justifications
use enactspace.Attendance.Manual
use enactspace.Attendance.Manual.{RecordUpdate}
use enactspace.Attendance.Roster

pub data AttendanceRequest : Type 0 where
  open_session close_session archive_session show_qr : (session_id : ℕ) → AttendanceRequest
  expect_member : (session_id user_id : ℕ) (is_required : Bool) → AttendanceRequest
  scan_qr : (token : String) (attempts : List ScanAttempts) → AttendanceRequest
  create_record create_manual : (session_id : ℕ) → RecordInput → AttendanceRequest
  update_record : (record_id : ℕ) → RecordUpdate → AttendanceRequest
  submit_justification :
      (record_id : ℕ) (reason : String) (file_id : Option ℕ) (file_url : Option String)
      → AttendanceRequest
  approve_justification reject_justification :
      (record_id : ℕ) (reason : Option String) → AttendanceRequest

-- A request with its sender, the address it came from and the time at which it is served.
pub record AttendanceCall : Type 0 where
  pub utcnow : ℕ
  pub current_user : User
  pub ip : Option String
  pub request : AttendanceRequest

module _ (env : Env) (qr : QrEnv) (config : QrSettings) where
  -- What the service of a call leaves in the database.
  unfoldable pub serve : AttendanceCall → Db → Db
  serve c db =
      let env' = record env { utcnow = c.utcnow } in
      let user = c.current_user in
      elim c.request [
        | AttendanceRequest.open_session id ↦
            after (Sessions.open_attendance_session env' user c.ip id) db
        | AttendanceRequest.close_session id ↦
            after (Sessions.close_attendance_session env' user c.ip id) db
        | AttendanceRequest.archive_session id ↦
            after (Sessions.archive_attendance_session env' user c.ip id) db
        | AttendanceRequest.show_qr id ↦
            after (Roster.create_attendance_qr_token env' user c.ip qr config id) db
        | AttendanceRequest.expect_member id user_id is_required ↦
            after (Roster.add_expected_member env' user c.ip id user_id is_required) db
        | AttendanceRequest.scan_qr token attempts ↦
            after (Scan.scan_attendance_qr env' user c.ip qr config token attempts).0 db
        | AttendanceRequest.create_record id i ↦
            after (Manual.create_session_attendance_record env' user c.ip id i) db
        | AttendanceRequest.create_manual id i ↦
            after (Manual.create_manual_attendance env' user c.ip id i) db
        | AttendanceRequest.update_record id payload ↦
            after (Manual.update_attendance_record env' user c.ip id payload) db
        | AttendanceRequest.submit_justification id reason file_id file_url ↦
            after
              (Justifications.submit_absence_justification env' user c.ip id reason file_id
                file_url)
              db
        | AttendanceRequest.approve_justification id reason ↦
            after (Justifications.approve_absence_justification env' user c.ip id reason) db
        | AttendanceRequest.reject_justification id reason ↦
            after (Justifications.reject_absence_justification env' user c.ip id reason) db
      ]

  -- The databases that calls reach.
  pub data Reaches (db : Db) : Db → Type 0 where
    start : Reaches db db
    then : {db' : Db} → Reaches db db' → (c : AttendanceCall) → Reaches db (serve c db')
