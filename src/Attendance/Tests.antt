-- ===== src/Attendance/Tests.antt =====
-- A token of a session, in an encoding of that session alone.
use enactspace.Shared.{
  ltb, ◌*◌, ◌/◌, ℕ, ◌-◌, ◌<◌, ◌↔◌, ◌≡◌, ◌≤◌, refl, String, true, false, none, some, List, [], ◌∷◌,
  arith, mem_text, ◌==◌, str_eq, if◌then◌else◌,
}
use enactspace.Attendance.QrToken.{
  AttendanceQrPayload, Validation, QrEnv, split_dot, value_of, to_public_dict, payload_of,
  check_payload, generate_attendance_qr_token, validate_attendance_qr_token, token_version, sign,
  base64url, decode_base64url_json,
}
use enactspace.Attendance.Base64.{rstrip_equals, pad_base64, append_text, equals_text, text_length}
use enactspace.Attendance.Base64.Laws.{is_plain}
use enactspace.Attendance.RoundTrip.{IsCodec, validate-generate, validate-IsSigned, IsSigned}
use mathlib.Core.Bool.{false≢true}
use enactspace.Shared.Int.{pos}
use enactspace.Shared.Table.{All, find_row, first, sum_by, length}
use enactspace.Shared.Table.Queries.{count}
use enactspace.Ledger.Samples.{env as club, treasurer, ledger}
use enactspace.Ledger.Tests.{env-NeverRepeats, ledger-IsConsistent}
use enactspace.Server.Handler.{ok}
use enactspace.Attendance.Samples.{meeting, absence, db}
use enactspace.Attendance.Models.{AttendanceSession, AttendanceStatus, SessionStatus, session_id}
use enactspace.Attendance.Penalty.{penalty_of, sync_penalty}
use enactspace.Attendance.Penalty.Moves.{Moved}
use enactspace.Attendance.Penalty.Consistency.{sync_penalty-Moved}
use enactspace.Attendance.Records.{
  compute_checkin_status, calculate_delay_minutes, reference_time, normalize_attendance_status,
  normalize_justification_status, canonical_status, valid_justification,
}
use enactspace.Attendance.Expected.{expected_members}
use enactspace.Attendance.Sessions.{close_open, closed_session, open_draft, opened_session}
use enactspace.Attendance.Scan.{QrSettings, rate_limit_qr_scan, attempts_of, recent}
use enactspace.Attendance.CheckIn.{open_draft-checkin, late-delay, IsBounded, rate_limit-IsBounded}
use enactspace.Attendance.Closing.{HaveRecords, close_open-records}
use enactspace.Attendance.Invariant.{IsSound}
use enactspace.Attendance.Routes.{AttendanceRequest, AttendanceCall, serve, start, then}
use enactspace.Attendance.Routes.Soundness.{Reaches-IsSound, Reaches-Follows}
use enactspace.Attendance.Invariant.Sessions.{Follows}

abbrev shown : List (String × String)
shown =
    ("session_id", "S1")
    ∷ ("issued_at", "at 100")
    ∷ ("expires_at", "at 130")
    ∷ ("nonce", "N")
    ∷ ("version", "v1")
    ∷ []

abbrev env : QrEnv
env = record {
  utcnow = 100;
  default_ttl = 30;
  nonce = "N";
  digest = λ s. 1 ∷ [];
  dumps = λ d. [];
  loads = λ b. elim b [ [] ↦ some shown | n ∷ ns ↦ none ];
  urlsafe_b64encode = λ b. elim b [ [] ↦ "ey==" | n ∷ ns ↦ "AQ==" ];
  urlsafe_b64decode = λ s. elim (str_eq s "ey==") [ true ↦ some [] | false ↦ none ];
  isoformat = λ n. if n == 100 then "at 100" else "at 130";
  fromisoformat = λ s. if str_eq s "at 100" then some 100 else some 130;
}

abbrev payload : AttendanceQrPayload
payload = record {
  session_id = "S1";
  issued_at = 100;
  expires_at = 130;
  nonce = "N";
  version = "v1";
}

env-IsCodec : IsCodec env (generate_attendance_qr_token env "S1" none).1
unfolding generate_attendance_qr_token to_public_dict append_text equals_text text_length is_plain
env-IsCodec = record {
  issued = refl;
  expires = refl;
  loads = refl;
  decodes = refl;
  base64 = record {
    letters = "ey";
    padding = 2;
    whole = refl;
    plain = refl;
    few = omega arith;
    aligned = refl;
  };
}

validate-generate_example :
    validate_attendance_qr_token env 120 (generate_attendance_qr_token env "S1" none).0
    ≡ Validation.valid (generate_attendance_qr_token env "S1" none).1
unfolding generate_attendance_qr_token
validate-generate_example = validate-generate env "S1" none 120 env-IsCodec (omega arith)

accepted : validate_attendance_qr_token env 120 "ey.AQ" ≡ Validation.valid payload
unfolding validate_attendance_qr_token split_dot payload_of value_of check_payload sign base64url
    decode_base64url_json rstrip_equals pad_base64 append_text equals_text text_length
accepted = refl

validate-IsSigned_example :
    IsSigned env "ey.AQ" payload × (120 ≤ 130) × (payload.version ≡ token_version)
validate-IsSigned_example = validate-IsSigned env 120 "ey.AQ" payload accepted

-- the attendance of the small club
db-IsSound : IsSound club.uuid4 db
unfolding count
db-IsSound = record {
  consistent = ledger-IsConsistent;
  ids = tt;
  fresh = λ k d. unfold find_row in refl;
  single = λ s u. unfold sum_by in omega arith;
  penalty = λ a. unfold sum_by in omega arith;
  linked = ((λ a e. cc), tt);
}

abbrev config : QrSettings
config = record { enabled = true; rate_limit_per_minute = 10; rotation_seconds = 30 }

abbrev closes : AttendanceCall
closes = record {
  utcnow = 2000;
  current_user = treasurer;
  ip = none;
  request = AttendanceRequest.close_session 5;
}

Reaches-IsSound_example : IsSound club.uuid4 (serve club env config closes db)
Reaches-IsSound_example =
    Reaches-IsSound club env config db (serve club env config closes db) env-NeverRepeats db-IsSound
      ((then) start closes)

Reaches-Follows_example :
    Follows db.attendance.sessions (serve club env config closes db).attendance.sessions
Reaches-Follows_example =
    Reaches-Follows club env config db (serve club env config closes db) env-NeverRepeats db-IsSound
      ((then) start closes)

sync_penalty-Moved_example :
    Moved club.uuid4 8 0 50000 ledger (sync_penalty club treasurer absence (pos 50000) ledger).1
unfolding penalty_of first
sync_penalty-Moved_example =
    sync_penalty-Moved club env-NeverRepeats ledger ledger-IsConsistent absence
      ((λ e. absurd (false≢true e)), tt) treasurer (pos 50000)

close_open-records_example :
    let closed = close_open club treasurer none meeting (record { saved = db; work = db }) in
    (n : ℕ) × (closed.0 ≡ ok n)
    × HaveRecords 5 (expected_members 5 db.attendance) closed.1.saved
    × (find_row session_id 5 closed.1.saved.attendance.sessions
        ≡ some (closed_session club treasurer none meeting))
unfolding normalize_attendance_status normalize_justification_status canonical_status
    valid_justification mem_text find_row
close_open-records_example =
    close_open-records club treasurer none meeting (record { saved = db; work = db })
      env-NeverRepeats (record { status = refl; justification = refl }) db-IsSound refl

-- the meeting before it was opened, set for a later time
abbrev draft : AttendanceSession
draft = record meeting {
  status = SessionStatus.draft;
  scheduled_at = some 5000;
  checkin_start = none;
}

open_draft-checkin_example :
    let session' = opened_session club draft in
    let late = ltb (15 * 60) (1100 - 100) in
    (compute_checkin_status session' 1100
      ≡ (if late then AttendanceStatus.late else AttendanceStatus.present))
    × (calculate_delay_minutes session' (compute_checkin_status session' 1100) (some 1100) none
        ≡ (if late then some ((1100 - 100) / 60) else none))
open_draft-checkin_example =
    open_draft-checkin club treasurer none draft (opened_session club draft)
      (record { saved = db; work = db }) 1100 (unfold open_draft in refl)

late-delay_example : 15 ≤ 16
unfolding compute_checkin_status calculate_delay_minutes reference_time
late-delay_example = late-delay meeting 970 16 refl

rate_limit-IsBounded_example :
    All (IsBounded 10) (rate_limit_qr_scan 10 100 8 "::1" []).1
    × (((rate_limit_qr_scan 10 100 8 "::1" []).0 ≡ true)
        ↔ (length (recent 100 (attempts_of 8 "::1" [])) < 10))
rate_limit-IsBounded_example = rate_limit-IsBounded 10 100 8 "::1" [] tt
