-- ===== src/Attendance/Scan.antt =====
-- The scan of a code: `_rate_limit_qr_scan`, `_qr_scan_message`, `_qr_scan_result`, `_audit_qr_scan`
-- and `scan_attendance_qr` of api/routes/attendance.py.
use enactspace.Shared.{
  ℕ, ◌+◌, String, Bool, true, false, ◌&&◌, ◌||◌, not, Option, none, some, List, [], ◌∷◌, ◌++◌,
  str_eq, ltb, leb, is_none, same_text, ◌==◌, if◌then◌else◌,
}
use enactspace.Shared.Env.{Env}
use enactspace.Shared.Table.{first, select, length}
use enactspace.People.Models.{User}
use enactspace.Server.Models.{Json}
use enactspace.Server.Handler.{Handler, pure, gets, audit, ◌>>=◌, ◌>>◌}
use enactspace.Attendance.QrToken.{QrEnv, Validation, validate_attendance_qr_token}
use enactspace.Attendance.Models.{
  AttendanceSession, AttendanceRecord, AttendanceStatus, SessionStatus, session_id, record_of,
  expected_of, attendance_status_text,
}
use enactspace.Attendance.Records.{
  RecordInput, plain_record, compute_checkin_status, upsert_record, notify_record_change,
}
use enactspace.Attendance.Sessions.{ensure_expected, commit_all}

-- `settings.ATTENDANCE_QR_ENABLED` and `settings.ATTENDANCE_QR_RATE_LIMIT_PER_MINUTE`
pub record QrSettings : Type 0 where
  pub enabled : Bool
  pub rate_limit_per_minute : ℕ
  pub rotation_seconds : ℕ

-- an entry of QR_SCAN_RATE_LIMIT: a user, a client address, and the times of the attempts
pub record ScanAttempts : Type 0 where
  pub user_id : ℕ
  pub address : String
  pub times : List ℕ

-- `QR_SCAN_RATE_LIMIT.get(key, [])`
unfoldable pub attempts_of : ℕ → String → List ScanAttempts → List ℕ
attempts_of user_id address [] = []
attempts_of user_id address (a ∷ entries) =
    if a.user_id == user_id && str_eq a.address address
    then a.times
    else attempts_of user_id address entries

-- `QR_SCAN_RATE_LIMIT[key] = attempts`
unfoldable pub set_attempts : ℕ → String → List ℕ → List ScanAttempts → List ScanAttempts
set_attempts user_id address times [] =
    record { user_id = user_id; address = address; times = times } ∷ []
set_attempts user_id address times (a ∷ entries) =
    if a.user_id == user_id && str_eq a.address address
    then record a { times = times } ∷ entries
    else a ∷ set_attempts user_id address times entries

-- `get_client_ip(request) or "unknown"`
abbrev pub address_or_unknown : Option String → String
address_or_unknown none = "unknown"
address_or_unknown (some s) = if str_eq s "" then "unknown" else s

-- the attempts of the last minute
abbrev pub recent : ℕ → List ℕ → List ℕ
recent now = select (λ t. leb now (t + 60))

unfoldable pub rate_limit_qr_scan :
    ℕ → ℕ → ℕ → String → List ScanAttempts → Bool × List ScanAttempts
rate_limit_qr_scan limit now user_id address entries =
    let attempts = recent now (attempts_of user_id address entries) in
    if leb limit (length attempts)
    then (false, set_attempts user_id address attempts entries)
    else (true, set_attempts user_id address (attempts ++ now ∷ []) entries)

-- the outcomes of a scan, by the texts of `result`
pub data ScanOutcome : Type 0 where
  present late already_recorded expired_token invalid_token session_closed not_eligible :
      ScanOutcome
  qr_disabled rate_limited : ScanOutcome

abbrev pub outcome_text : ScanOutcome → String
outcome_text ScanOutcome.present = "present"
outcome_text ScanOutcome.late = "late"
outcome_text ScanOutcome.already_recorded = "already_recorded"
outcome_text ScanOutcome.expired_token = "expired_token"
outcome_text ScanOutcome.invalid_token = "invalid_token"
outcome_text ScanOutcome.session_closed = "session_closed"
outcome_text ScanOutcome.not_eligible = "not_eligible"
outcome_text ScanOutcome.qr_disabled = "qr_disabled"
outcome_text ScanOutcome.rate_limited = "rate_limited"

-- `messages.get(result, …)`
abbrev pub outcome_message : ScanOutcome → String
outcome_message ScanOutcome.already_recorded = "Vous avez déjà été pointé(e)."
outcome_message ScanOutcome.expired_token = "Le QR a expiré."
outcome_message ScanOutcome.invalid_token = "Ce QR n'est pas valide."
outcome_message ScanOutcome.session_closed = "Cette séance est fermée."
outcome_message ScanOutcome.not_eligible = "Vous n'êtes pas concerné(e) par cette séance."
outcome_message ScanOutcome.qr_disabled = "Le pointage QR est désactivé."
outcome_message ScanOutcome.rate_limited = "Trop de tentatives. Réessayez dans un instant."
outcome_message _ = "Pointage QR indisponible."

abbrev pub is_present_text : Option String → Bool
is_present_text s = same_text s (some "present")

abbrev pub is_late_text : Option String → Bool
is_late_text s = same_text s (some "late")

unfoldable pub qr_scan_message : ScanOutcome → Option String → String
qr_scan_message result status =
    if is_present_text (some (outcome_text result)) || is_present_text status
    then "Votre présence a été enregistrée."
    else if is_late_text (some (outcome_text result)) || is_late_text status
    then "Votre retard a été enregistré."
    else outcome_message result

-- `AttendanceQrScanResult`
pub record ScanResult : Type 0 where
  pub success : Bool
  pub result : ScanOutcome
  pub attendance_status : Option String
  pub message : String
  pub recorded_at : Option ℕ

unfoldable pub qr_scan_result : ScanOutcome → Bool → Option String → Option ℕ → ScanResult
qr_scan_result result success status recorded_at = record {
  success = success;
  result = result;
  attendance_status = status;
  message = qr_scan_message result status;
  recorded_at = recorded_at;
}

-- `result=attendance_status` of a check-in
abbrev pub outcome_of : AttendanceStatus → ScanOutcome
outcome_of AttendanceStatus.late = ScanOutcome.late
outcome_of _ = ScanOutcome.present

abbrev pub is_recorded : AttendanceStatus → Bool
is_recorded AttendanceStatus.not_recorded = false
is_recorded _ = true

abbrev pub is_open_session : SessionStatus → Bool
is_open_session SessionStatus.opened = true
is_open_session _ = false

abbrev pub before : ℕ → Option ℕ → Bool
before now none = false
before now (some start) = ltb now start

abbrev pub beyond : ℕ → Option ℕ → Bool
beyond now none = false
beyond now (some end) = ltb end now

-- the sessions at which nobody checks in at the moment
unfoldable pub refuses_checkin : ℕ → AttendanceSession → Bool
refuses_checkin now session =
    session.is_closed
    || not (is_open_session session.status)
    || before now session.checkin_start
    || beyond now session.checkin_end

module _ (env : Env) (current_user : User) (ip : Option String) where
  abbrev pub optional_id : Option ℕ → Json
  optional_id none = Json.null
  optional_id (some id) = Json.text (env.id_text id)

  abbrev pub audit_qr_scan : ScanOutcome → Option ℕ → Option ℕ → Handler (Unit {0})
  audit_qr_scan result session_id record_id =
      audit env "attendance_qr_scan" (some current_user.id) (some "attendance_session") session_id
        none
        (some (
          ("result", Json.text (outcome_text result))
          ∷ ("source", Json.text "qr")
          ∷ ("record_id", optional_id record_id)
          ∷ []))
        ip

  -- the refusals: the audit, the commit and the answer
  unfoldable pub refuse_scan : ScanOutcome → Option ℕ → Handler ScanResult
  refuse_scan result session_id = do
    audit_qr_scan result session_id none
    commit_all
    pure (qr_scan_result result false none none)

  unfoldable pub already_scanned : AttendanceSession → AttendanceRecord → Handler ScanResult
  already_scanned session r = do
    audit_qr_scan ScanOutcome.already_recorded (some session.id) (some r.id)
    commit_all
    pure (
        qr_scan_result ScanOutcome.already_recorded false (some (attendance_status_text r.status))
          r.recorded_at)

  abbrev pub scanned_record : AttendanceStatus → RecordInput
  scanned_record status = record (plain_record current_user.id (attendance_status_text status)) {
    arrival_time = some env.utcnow;
    source = "qr";
  }

  -- the notification, the audit, the commit and the answer of a scan that is recorded
  unfoldable pub finish_scan :
      AttendanceSession → AttendanceStatus → AttendanceRecord → Handler ScanResult
  finish_scan session status r = do
    notify_record_change env r session
    audit_qr_scan (outcome_of status) (some session.id) (some r.id)
    commit_all
    pure (
        qr_scan_result (outcome_of status) true (some (attendance_status_text status))
          r.recorded_at)

  unfoldable pub check_in : AttendanceSession → Handler ScanResult
  check_in session = do
    let status = compute_checkin_status session env.utcnow
    r ← upsert_record env current_user session (scanned_record status)
    finish_scan session status r

  -- by the record that is there
  unfoldable pub scan_record : AttendanceSession → Option AttendanceRecord → Handler ScanResult
  scan_record session none s = check_in session s
  scan_record session (some r) s =
      let again = already_scanned session r s in
      if is_recorded r.status then again else check_in session s

  unfoldable pub scan_expected : AttendanceSession → Bool → Handler ScanResult
  scan_expected session true = refuse_scan ScanOutcome.not_eligible (some session.id)
  scan_expected session false = do
    existing ← gets (λ db. record_of session.id current_user.id db.attendance.records)
    scan_record session existing

  unfoldable pub scan_open : AttendanceSession → Bool → Handler ScanResult
  scan_open session true = refuse_scan ScanOutcome.session_closed (some session.id)
  scan_open session false = do
    generated ← ensure_expected env session
    absent ← gets (λ db. is_none (expected_of session.id current_user.id db.attendance.expected))
    scan_expected session absent

  -- on the session that is locked
  unfoldable pub scan_session : Option AttendanceSession → Handler ScanResult
  scan_session none = refuse_scan ScanOutcome.invalid_token none
  scan_session (some session) = scan_open session (refuses_checkin env.utcnow session)

  -- on what the validation of the code gives; the primary key of the session is compared as text
  unfoldable pub scan_validated : Validation → Handler ScanResult
  scan_validated Validation.expired_token = refuse_scan ScanOutcome.expired_token none
  scan_validated Validation.invalid_token = refuse_scan ScanOutcome.invalid_token none
  scan_validated (Validation.valid p) = do
    found ← gets λ db.
        first (λ (s : AttendanceSession). str_eq (env.id_text s.id) p.session_id)
          db.attendance.sessions
    scan_session found

  module _ (qr : QrEnv) (config : QrSettings) where
    unfoldable pub scan_allowed : String → Bool → Handler ScanResult
    scan_allowed token false = refuse_scan ScanOutcome.rate_limited none
    scan_allowed token true = scan_validated (validate_attendance_qr_token qr env.utcnow token)

    -- For a user that `get_current_active_validated_user` lets pass. The attempts of the process are
    -- no part of the database: the route gives what it leaves there.
    unfoldable pub scan_attendance_qr :
        String → List ScanAttempts → Handler ScanResult × List ScanAttempts
    scan_attendance_qr token entries =
        let (allowed, entries') =
          rate_limit_qr_scan config.rate_limit_per_minute env.utcnow current_user.id
            (address_or_unknown ip) entries in
        if not config.enabled
        then (refuse_scan ScanOutcome.qr_disabled none, entries)
        else (scan_allowed token allowed, entries')
