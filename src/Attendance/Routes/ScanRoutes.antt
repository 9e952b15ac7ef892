-- ===== src/Attendance/Routes/ScanRoutes.antt =====
-- Soundness of the database over the routes of attendance records: the scan of a code.
use enactspace.Shared.{
  ℕ, refl, inl, inr, Bool, true, false, String, Option, none, some, List, Bool-cases, arith,
  is_none, str_eq,
}
use enactspace.Shared.Env.{Env}
use enactspace.Shared.Table.{first}
use enactspace.People.Models.{User}
use enactspace.Ledger.Balance.{NeverRepeats}
use enactspace.Server.Handler.{Session}
use enactspace.Server.Handler.Laws.{then-Keeps}
use enactspace.Attendance.Models.{
  AttendanceSession, AttendanceRecord, AttendanceStatus, expected_of, record_of, flush_expected,
}
use enactspace.Attendance.Expected.{ensure_expected_members, expected_member_ids_for_scope}
use enactspace.Attendance.Records.{upsert_record, notify_record_change, compute_checkin_status}
use enactspace.Attendance.QrToken.{QrEnv, Validation, validate_attendance_qr_token}
use enactspace.Attendance.Scan.{
  QrSettings, ScanAttempts, ScanOutcome, refuse_scan, already_scanned, scanned_record, finish_scan,
  check_in, scan_record, scan_expected, scan_open, scan_session, scan_validated, scan_allowed,
  scan_attendance_qr, rate_limit_qr_scan, address_or_unknown, is_recorded, refuses_checkin,
}
use enactspace.Attendance.Routes.Steps.{
  Sound, works, commits, upsert-Sound, notify_change-Sound, ensure_loop-later,
}

module _ (env : Env) (inj : NeverRepeats env.uuid4) (user : User) (ip : Option String)
    (t0 : List AttendanceSession) where
  abbrev Q : Session → Type 0
  Q = Sound env.uuid4 t0

  refuse_scan-Sound :
      (o : ScanOutcome) (k : Option ℕ) (s : Session) → Q s → Q (refuse_scan env user ip o k s).1
  unfolding refuse_scan flush_expected
  refuse_scan-Sound o k s h =
      commits env.uuid4 t0 s (refuse_scan env user ip o k s).1 refl
        (record { ledger = refl; records = refl; later = omega arith; sessions = refl }) h

  already_scanned-Sound :
      (session : AttendanceSession) (r : AttendanceRecord) (s : Session)
      → Q s
      → Q (already_scanned env user ip session r s).1
  unfolding already_scanned flush_expected
  already_scanned-Sound session r s h =
      commits env.uuid4 t0 s (already_scanned env user ip session r s).1 refl
        (record { ledger = refl; records = refl; later = omega arith; sessions = refl }) h

  module _ (session : AttendanceSession) where
    finish_scan-Sound :
        (status : AttendanceStatus) (r : AttendanceRecord) (s : Session)
        → Q s
        → Q (finish_scan env user ip session status r s).1
    unfolding finish_scan flush_expected notify_record_change
    finish_scan-Sound status r s h =
        let s' = (notify_record_change env r session s).1 in
        commits env.uuid4 t0 s' (finish_scan env user ip session status r s).1 refl
          (record { ledger = refl; records = refl; later = omega arith; sessions = refl })
          (notify_change-Sound env inj user ip t0 r session s h)

    check_in-Sound : (s : Session) → Q s → Q (check_in env user ip session s).1
    unfolding check_in
    check_in-Sound s h =
        let status = compute_checkin_status session env.utcnow in
        let i = scanned_record env user ip status in
        let r = upsert_record env user session i s in
        then-Keeps Q (λ a. finish_scan env user ip session status a) (finish_scan-Sound status) r.0
          r.1 (upsert-Sound env inj user ip t0 session i s h)

    scan_record-Sound :
        (found : Option AttendanceRecord) (s : Session)
        → Q s
        → Q (scan_record env user ip session found s).1
    unfolding scan_record
    scan_record-Sound none s h = check_in-Sound s h
    scan_record-Sound (some r) s h = elim (Bool-cases (is_recorded r.status)) [
      | inl e ↦ rw e (already_scanned-Sound session r s h)
      | inr e ↦ rw e (check_in-Sound s h)
    ]

    scan_expected-Sound :
        (absent : Bool) (s : Session) → Q s → Q (scan_expected env user ip session absent s).1
    unfolding scan_expected
    scan_expected-Sound true s h = refuse_scan-Sound ScanOutcome.not_eligible (some session.id) s h
    scan_expected-Sound false s h =
        scan_record-Sound (record_of session.id user.id s.work.attendance.records) s h

    scan_open-Sound :
        (refused : Bool) (s : Session) → Q s → Q (scan_open env user ip session refused s).1
    unfolding scan_open ensure_expected_members
    scan_open-Sound true s h = refuse_scan-Sound ScanOutcome.session_closed (some session.id) s h
    scan_open-Sound false s h =
        let ids =
          expected_member_ids_for_scope session.scope_type session.pole_id session.project_id
            s.work.people in
        let kept = ensure_loop-later env inj user ip t0 session.id ids s.work.attendance in
        let (_, t) = ensure_expected_members env session s.work.people s.work.attendance in
        let s' : Session = record s { work = record s.work { attendance = t } } in
        scan_expected-Sound (is_none (expected_of session.id user.id t.expected)) s' (
          works env.uuid4 t0 s s' refl
            (record { ledger = refl; records = kept.0; later = kept.3; sessions = kept.1 }) h)

  scan_session-Sound :
      (found : Option AttendanceSession) (s : Session)
      → Q s
      → Q (scan_session env user ip found s).1
  unfolding scan_session
  scan_session-Sound none s h = refuse_scan-Sound ScanOutcome.invalid_token none s h
  scan_session-Sound (some session) s h =
      scan_open-Sound session (refuses_checkin env.utcnow session) s h

  scan_validated-Sound : (v : Validation) (s : Session) → Q s → Q (scan_validated env user ip v s).1
  unfolding scan_validated
  scan_validated-Sound Validation.expired_token s h =
      refuse_scan-Sound ScanOutcome.expired_token none s h
  scan_validated-Sound Validation.invalid_token s h =
      refuse_scan-Sound ScanOutcome.invalid_token none s h
  scan_validated-Sound (Validation.valid p) s h =
      scan_session-Sound
        (first (λ (x : AttendanceSession). str_eq (env.id_text x.id) p.session_id)
          s.work.attendance.sessions)
        s h

  pub scan_qr-Sound :
      (qr : QrEnv) (config : QrSettings) (token : String) (entries : List ScanAttempts)
      (s : Session)
      → Q s
      → Q ((scan_attendance_qr env user ip qr config token entries).0 s).1
  unfolding scan_attendance_qr scan_allowed
  scan_qr-Sound qr config token entries s h =
      let allowed =
        (rate_limit_qr_scan config.rate_limit_per_minute env.utcnow user.id (address_or_unknown ip)
          entries).0 in
      elim (Bool-cases config.enabled) [
        | inr e ↦ rw e (refuse_scan-Sound ScanOutcome.qr_disabled none s h)
        | inl e ↦ elim (Bool-cases allowed) [
          | inl a ↦
              rw (e, a)
                (scan_validated-Sound (validate_attendance_qr_token qr env.utcnow token) s h)
          | inr a ↦ rw (e, a) (refuse_scan-Sound ScanOutcome.rate_limited none s h)
        ]
      ]
