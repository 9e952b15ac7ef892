-- ===== src/Attendance/Closing.antt =====
-- The close of a session records an absence for every member who was expected and has no record.
pub mod Counts
pub mod Absences
use enactspace.Shared.{
  ℕ, ◌+◌, ◌≤◌, ◌≡◌, ap, subst, ◌∙◌, refl, sym, inl, inr, Bool, true, false, String, Option, none,
  some, List, [], ◌∷◌, ◌++◌, Bool-cases, Option-cases, arith, is_none, if◌then◌else◌, ◌==◌, ◌&&◌,
}
use enactspace.Shared.Env.{Env}
use enactspace.Shared.Table.{All, find_row}
use enactspace.Shared.Table.Queries.{
  first-find_row, count, count-append, count-save, count-some, some-count, All-imp,
}
use enactspace.Shared.Table.Laws.{find_row-save_self}
use enactspace.People.Models.{User}
use enactspace.Ledger.Balance.{NeverRepeats}
use enactspace.Server.Models.{Db}
use enactspace.Server.Handler.{Handler, Result, ok, err, Session, pure, ◌>>=◌, ◌>>◌}
use enactspace.Server.Handler.Laws.{then-of}
use enactspace.Attendance.Models.{
  Attendance, AttendanceSession, AttendanceRecord, AttendanceStatus, JustificationStatus,
  AttendanceExpectedMember, record_id, is_record_of, record_of, save_record, flush_expected,
  session_id, save_session,
}
use enactspace.Attendance.Expected.{
  ensure_expected_members, ensure_loop, expected_members, expected_member_ids_for_scope,
}
use enactspace.Attendance.Penalty.{
  attendance_penalty_amount, sync_penalty, sync_attendance_penalty, is_late,
}
use enactspace.Attendance.Records.{
  RecordInput, filled_record, empty_record, put_record, write_record, upsert_record,
  notify_record_change, normalize_attendance_status, normalize_justification_status,
}
use enactspace.Attendance.Invariant.{IsSound, Stored}
use enactspace.Attendance.Invariant.Records.{
  append_record-Stored, save_record-Stored, append_record-RecordsFit,
}
use enactspace.Attendance.Invariant.Settings.{attendance_penalty_amount-only}
use enactspace.Attendance.Invariant.Writes.{
  IsSound-Parts, synced-SameKeys, Stored-SameKeys, write_record-IsSound,
}
use enactspace.Attendance.Routes.Steps.{same-IsSound, ensure-rest}
use enactspace.Attendance.Sessions.{
  absence, record_absence, absence_of, record_absences, close_open, finish_close, closed_session,
}
use enactspace.Attendance.Closing.Absences.{ReadsAbsence, Progress, record_absences-Progress}

-- the run of the close, after the absences
close_open-step :
    (env : Env) (user : User) (ip : Option String) (session : AttendanceSession) (s : Session)
    (n : ℕ)
    → let (_, t) = ensure_expected_members env session s.work.people s.work.attendance in
      let s' : Session = record s { work = record s.work { attendance = t } } in
      let r = record_absences env user ip session (expected_members session.id t) s' in
      r.0 ≡ ok n → close_open env user ip session s ≡ finish_close env user ip session n r.1
unfolding close_open
close_open-step env user ip session s n e =
    let (_, t) = ensure_expected_members env session s.work.people s.work.attendance in
    let s' : Session = record s { work = record s.work { attendance = t } } in
    let r = record_absences env user ip session (expected_members session.id t) s' in
    then-of r.0 r.1 (λ m. finish_close env user ip session m) n e

finish_close-rest :
    (env : Env) (user : User) (ip : Option String) (session : AttendanceSession) (s : Session)
    (n : ℕ)
    → find_row session_id session.id s.work.attendance.sessions ≡ some session
    → let closed = finish_close env user ip session n s in
      (closed.0 ≡ ok n)
      × (closed.1.saved.attendance.records ≡ s.work.attendance.records)
      × (find_row session_id session.id closed.1.saved.attendance.sessions
          ≡ some (closed_session env user ip session))
unfolding finish_close flush_expected save_session closed_session
finish_close-rest env user ip session s n row = (
  refl,
  refl,
  find_row-save_self session_id session.id (closed_session env user ip session) session
      s.work.attendance.sessions refl row,
)

-- Every member of a list has a record in the session of the committed database.
abbrev pub HaveRecords : ℕ → List AttendanceExpectedMember → Db → Type 0
HaveRecords id es db =
    All
      (λ (e : AttendanceExpectedMember).
        is_none (record_of id e.user_id db.attendance.records) ≡ false)
      es

recorded_some :
    (id : ℕ) (db : Db) (e : AttendanceExpectedMember)
    → 1 ≤ count (is_record_of id e.user_id) db.attendance.records
    → is_none (record_of id e.user_id db.attendance.records) ≡ false
unfolding record_of
recorded_some id db e h = some-count (is_record_of id e.user_id) db.attendance.records h

-- The close of an open session of a sound database answers without an error; in what it commits,
-- every member who was among the session's expected ones in the table before the close has a record
-- in the session, and the session is closed. Members of the scope whom the close itself adds to the
-- expected ones are not among these. The two texts of an absence are known to the normalisers, and
-- `uuid4` gives no value twice.
pub close_open-records :
    (env : Env) (user : User) (ip : Option String) (session : AttendanceSession) (s : Session)
    → NeverRepeats env.uuid4
    → ReadsAbsence env
    → IsSound env.uuid4 s.work
    → find_row session_id session.id s.work.attendance.sessions ≡ some session
    → let closed = close_open env user ip session s in
      (n : ℕ) × (closed.0 ≡ ok n)
      × HaveRecords session.id (expected_members session.id s.work.attendance) closed.1.saved
      × (find_row session_id session.id closed.1.saved.attendance.sessions
          ≡ some (closed_session env user ip session))
close_open-records env user ip session s inj reads h row =
    let kept = ensure-rest env inj user ip [] session s.work.people s.work.attendance in
    let (_, t) = ensure_expected_members env session s.work.people s.work.attendance in
    let s' : Session = record s { work = record s.work { attendance = t } } in
    let members = expected_members session.id t in
    let same : members ≡ expected_members session.id s.work.attendance =
      unfold expected_members in rw kept.2 refl in
    let h' = same-IsSound env.uuid4 s.work s'.work refl kept.0 kept.3 h in
    let (p, all) = record_absences-Progress env inj reads user ip session members s' h' in
    let s2 = (record_absences env user ip session members s').1 in
    let kept_row : find_row session_id session.id s2.work.attendance.sessions ≡ some session =
      rw (p.sessions ∙ kept.1) row in
    let (okay, records, closed) = finish_close-rest env user ip session s2 p.answer kept_row in
    let all' = All-imp _ _ members (recorded_some session.id s2.work) all in
    rw (close_open-step env user ip session s p.answer p.okay) (
      p.answer,
      okay,
      rw records (subst (λ es. HaveRecords session.id es s2.work) same all'),
      closed,
    )
