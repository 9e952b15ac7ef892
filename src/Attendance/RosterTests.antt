-- ===== src/Attendance/RosterTests.antt =====
-- The treasurer is added to the meeting, and shows its token; the meeting is captured twice.
use enactspace.Shared.{
  ◌≡◌, ◌≤◌, refl, String, Bool, true, false, str_eq, mem_text, mem_id, none, some, List, [], ◌∷◌,
  ◌==◌, arith,
}
use enactspace.Shared.Table.{find_row, first, select}
use enactspace.Ledger.Samples.{env as club, treasurer, people}
use enactspace.Server.Models.{Db}
use enactspace.Server.Handler.{ok}
use enactspace.Server.Deps.{current_active_validated_user}
use enactspace.People.Roles.{intersects, get_user_role_names}
use enactspace.Attendance.Access.{
  require_can_manage_session, can_manage_session, is_global_attendance_manager,
}
use enactspace.Attendance.Manual.{operational_member, assert_active_operational_member}
use enactspace.Attendance.Expected.{new_expected}
use enactspace.Attendance.Samples.{db as small_club, meeting}
use enactspace.Attendance.Models.{
  Attendance, AttendanceSession, AttendanceExpectedMember, SessionStatus, session_id, expected_of,
}
use enactspace.Attendance.QrToken.{
  AttendanceQrPayload, QrEnv, valid, to_public_dict, validate_attendance_qr_token,
  generate_attendance_qr_token,
}
use enactspace.Attendance.Base64.{append_text, equals_text, text_length}
use enactspace.Attendance.Base64.Laws.{is_plain}
use enactspace.Attendance.RoundTrip.{IsCodec}
use enactspace.Attendance.Scan.{QrSettings}
use enactspace.Attendance.Sessions.{managed_session, found_session}
use enactspace.Attendance.Roster.{
  QrTokenRead, token_read, add_in, add_missing, required_row, token_in, add_expected_member,
  create_attendance_qr_token,
}
use enactspace.Attendance.Archive.{capture_attendance_archive}
use enactspace.Attendance.Archive.Again.{capture-again}
use enactspace.Attendance.Roster.Again.{quiet, with_attendance, add_expected_member-again}
use enactspace.Attendance.Roster.Display.{payload_at, create_token-validates}

-- the club, with its treasurer as an operational member
abbrev db : Db
db = record small_club {
  people = record people { users = record treasurer { profile_type = "enactrice" } ∷ [] };
}

abbrev row : AttendanceExpectedMember
row = record { id = 10; session_id = 5; user_id = 7; is_required = true; created_at = 100 }

added : (add_expected_member club treasurer none 5 7 true (quiet db)).0 ≡ ok row
unfolding add_expected_member current_active_validated_user mem_text managed_session found_session
    find_row require_can_manage_session can_manage_session is_global_attendance_manager intersects
    get_user_role_names select add_in operational_member assert_active_operational_member
    add_missing expected_of first required_row new_expected mem_id
added = refl

add_expected_member-again_example :
    (t : Attendance) × ((add_expected_member club treasurer none 5 7 true (quiet db)).1
      ≡ quiet (with_attendance db t))
    × (expected_of 5 7 t.expected ≡ some row)
    × ((other : Bool)
        → add_expected_member club treasurer none 5 7 other (quiet (with_attendance db t))
          ≡ (ok row, quiet (with_attendance db t)))
add_expected_member-again_example =
    add_expected_member-again club treasurer none 5 7 true db row refl refl added

abbrev entries : List (String × String)
entries =
    ("session_id", "id")
    ∷ ("issued_at", "at 100")
    ∷ ("expires_at", "at 130")
    ∷ ("nonce", "N")
    ∷ ("version", "v1")
    ∷ []

-- an encoding of that session's object alone
abbrev qr : QrEnv
qr = record {
  utcnow = 0;
  default_ttl = 30;
  nonce = "N";
  digest = λ s. 1 ∷ [];
  dumps = λ d. [];
  loads = λ b. elim b [ [] ↦ some entries | n ∷ ns ↦ none ];
  urlsafe_b64encode = λ b. elim b [ [] ↦ "ey==" | n ∷ ns ↦ "AQ==" ];
  urlsafe_b64decode = λ s. elim (str_eq s "ey==") [ true ↦ some [] | false ↦ none ];
  isoformat = λ n. elim (n == 100) [ true ↦ "at 100" | false ↦ "at 130" ];
  fromisoformat = λ s. elim (str_eq s "at 100") [ true ↦ some 100 | false ↦ some 130 ];
}

abbrev config : QrSettings
config = record { enabled = true; rate_limit_per_minute = 10; rotation_seconds = 30 }

qr-IsCodec : IsCodec qr (payload_at club qr 5)
unfolding to_public_dict generate_attendance_qr_token append_text equals_text text_length is_plain
qr-IsCodec = record {
  issued = refl;
  expires = refl;
  loads = refl;
  decodes = refl;
  base64 = record {
    letters = "ey";
    padding = 2;
    whole = refl;
    plain = refl;
    few = omega arith;
    aligned = refl;
  };
}

abbrev read : QrTokenRead
read = token_read club treasurer none qr config meeting

shown : (create_attendance_qr_token club treasurer none qr config 5 (quiet db)).0 ≡ ok read
unfolding create_attendance_qr_token current_active_validated_user mem_text found_session find_row
    require_can_manage_session can_manage_session is_global_attendance_manager intersects
    get_user_role_names select token_in
shown = refl

in_time : 120 ≤ read.expires_at
unfolding generate_attendance_qr_token
in_time = omega arith

create_token-validates_example :
    (session : AttendanceSession) × (p : AttendanceQrPayload) × (find_row session_id 5
        db.attendance.sessions
      ≡ some session)
    × (session.status ≡ SessionStatus.opened)
    × (session.is_closed ≡ false)
    × (validate_attendance_qr_token qr 120 read.token ≡ valid p)
    × (p.session_id ≡ "id")
    × (p.expires_at ≡ read.expires_at)
create_token-validates_example =
    create_token-validates club treasurer none qr config 5 (quiet db) read 120 qr-IsCodec shown
      in_time

capture-again_example :
    let db' = capture_attendance_archive club 7 meeting small_club in
    capture_attendance_archive (record club { utcnow = 5000 }) 8 meeting db' ≡ db'
capture-again_example = capture-again club 5000 7 8 meeting meeting small_club refl
