-- ===== src/Attendance/Models.antt =====
-- The tables of models/attendance.py. The check constraints of the columns `status` are data types;
-- identifiers and times are numbers, amounts are counted in hundredths.
use enactspace.Shared.{ℕ, String, Bool, Option, List, [], ◌++◌, ◌==◌, ◌&&◌}
use enactspace.Shared.Table.{first, save_row}

pub record AttendanceSetting : Type 0 where
  pub id : ℕ
  pub key : String
  pub value : String
  pub description : Option String
  pub updated_at : ℕ

-- SESSION_STATUSES
pub data SessionStatus : Type 0 where
  draft opened closed archived : SessionStatus

pub record AttendanceSession : Type 0 where
  pub id : ℕ
  pub title : String
  pub description : Option String
  pub session_type : String
  pub scope_type : String
  pub group_name : Option String
  pub status : SessionStatus
  pub event_id : Option ℕ
  pub pole_id : Option ℕ
  pub project_id : Option ℕ
  pub created_by : Option ℕ
  pub qr_token : Option String
  pub scheduled_at : Option ℕ
  pub checkin_start : Option ℕ
  pub checkin_end : Option ℕ
  pub late_after_minutes : ℕ
  pub is_closed : Bool
  pub notes : Option String
  pub created_at : ℕ
  pub updated_at : ℕ

pub record AttendanceExpectedMember : Type 0 where
  pub id : ℕ
  pub session_id : ℕ
  pub user_id : ℕ
  pub is_required : Bool
  pub created_at : ℕ

-- the values of CANONICAL_STATUS_BY_ALIAS
pub data AttendanceStatus : Type 0 where
  present late absent justified_absence excused not_recorded : AttendanceStatus

-- VALID_JUSTIFICATION_STATUSES
pub data JustificationStatus : Type 0 where
  not_submitted pending approved rejected expired : JustificationStatus

pub record AttendanceRecord : Type 0 where
  pub id : ℕ
  pub session_id : ℕ
  pub user_id : ℕ
  pub status : AttendanceStatus
  pub checkin_time : Option ℕ
  pub delay_minutes : Option ℕ
  pub recorded_by : Option ℕ
  pub source : String
  pub recorded_at : Option ℕ
  pub justification : Option String
  pub justification_status : JustificationStatus
  pub justification_reason : Option String
  pub justification_file_id : Option ℕ
  pub justification_file_url : Option String
  pub is_justified : Bool
  pub penalty_amount : ℕ
  pub penalty_fee_id : Option ℕ
  pub note : Option String
  pub created_at : ℕ
  pub updated_at : ℕ

-- The tables. The database session does not flush before a query: expected members that were added
-- wait in `pending` until the next flush, and no query sees them there.
pub record Attendance : Type 0 where
  pub settings : List AttendanceSetting
  pub sessions : List AttendanceSession
  pub expected : List AttendanceExpectedMember
  pub pending : List AttendanceExpectedMember
  pub records : List AttendanceRecord
  pub drawn : ℕ

-- `db.flush()`
unfoldable pub flush_expected : Attendance → Attendance
flush_expected t = record t { expected = t.expected ++ t.pending; pending = [] }

abbrev pub record_id : AttendanceRecord → ℕ
record_id r = r.id

abbrev pub session_id : AttendanceSession → ℕ
session_id s = s.id

-- the query for the record of a member in a session
abbrev pub is_record_of : ℕ → ℕ → AttendanceRecord → Bool
is_record_of session user_id r = r.session_id == session && r.user_id == user_id

unfoldable pub record_of : ℕ → ℕ → List AttendanceRecord → Option AttendanceRecord
record_of session user_id = first (is_record_of session user_id)

abbrev pub is_expected : ℕ → ℕ → AttendanceExpectedMember → Bool
is_expected session user_id e = e.session_id == session && e.user_id == user_id

-- the query for the place of a member among the expected ones
unfoldable pub expected_of : ℕ → ℕ → List AttendanceExpectedMember → Option AttendanceExpectedMember
expected_of session user_id = first (is_expected session user_id)

-- The write of a loaded record.
unfoldable pub save_record : AttendanceRecord → Attendance → Attendance
save_record r t = record t { records = save_row record_id r t.records }

-- The write of a loaded session.
unfoldable pub save_session : AttendanceSession → Attendance → Attendance
save_session s t = record t { sessions = save_row session_id s t.sessions }

abbrev pub attendance_status_text : AttendanceStatus → String
attendance_status_text AttendanceStatus.present = "present"
attendance_status_text AttendanceStatus.late = "late"
attendance_status_text AttendanceStatus.absent = "absent"
attendance_status_text AttendanceStatus.justified_absence = "justified_absence"
attendance_status_text AttendanceStatus.excused = "excused"
attendance_status_text AttendanceStatus.not_recorded = "not_recorded"

abbrev pub session_status_text : SessionStatus → String
session_status_text SessionStatus.draft = "draft"
session_status_text SessionStatus.opened = "open"
session_status_text SessionStatus.closed = "closed"
session_status_text SessionStatus.archived = "archived"

abbrev pub justification_status_text : JustificationStatus → String
justification_status_text JustificationStatus.not_submitted = "not_submitted"
justification_status_text JustificationStatus.pending = "pending"
justification_status_text JustificationStatus.approved = "approved"
justification_status_text JustificationStatus.rejected = "rejected"
justification_status_text JustificationStatus.expired = "expired"
