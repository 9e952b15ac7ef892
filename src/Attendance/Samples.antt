-- ===== src/Attendance/Samples.antt =====
-- An open session of the small club, which expects its member.
use enactspace.Shared.{true, false, none, some, [], ◌∷◌}
use enactspace.Ledger.Samples.{db as club}
use enactspace.Server.Models.{Db}
use enactspace.Attendance.Models.{
  AttendanceSession, AttendanceExpectedMember, AttendanceRecord, AttendanceStatus, SessionStatus,
  JustificationStatus,
}

abbrev pub meeting : AttendanceSession
meeting = record {
  id = 5;
  title = "Assemblee";
  description = none;
  session_type = "general_meeting";
  scope_type = "group";
  group_name = none;
  status = SessionStatus.opened;
  event_id = none;
  pole_id = none;
  project_id = none;
  created_by = some 7;
  qr_token = none;
  scheduled_at = none;
  checkin_start = some 10;
  checkin_end = none;
  late_after_minutes = 15;
  is_closed = false;
  notes = none;
  created_at = 1;
  updated_at = 1;
}

abbrev pub expected : AttendanceExpectedMember
expected = record { id = 6; session_id = 5; user_id = 8; is_required = true; created_at = 1 }

abbrev pub absence : AttendanceRecord
absence = record {
  id = 9;
  session_id = 5;
  user_id = 8;
  status = AttendanceStatus.absent;
  checkin_time = none;
  delay_minutes = none;
  recorded_by = some 7;
  source = "manual";
  recorded_at = some 20;
  justification = none;
  justification_status = JustificationStatus.not_submitted;
  justification_reason = none;
  justification_file_id = none;
  justification_file_url = none;
  is_justified = false;
  penalty_amount = 0;
  penalty_fee_id = none;
  note = none;
  created_at = 20;
  updated_at = 20;
}

abbrev pub db : Db
db = record club {
  attendance = record {
    settings = [];
    sessions = meeting ∷ [];
    expected = expected ∷ [];
    pending = [];
    records = [];
    drawn = 10;
  };
}
