-- ===== src/Attendance/Closing/Absences.antt =====
-- The loop of the close: after it, every member that it went over has a record.
use enactspace.Shared.{
  ℕ, ◌+◌, ◌≤◌, ◌≡◌, ap, subst, ◌∙◌, refl, sym, inl, inr, true, String, Option, some, List, [], ◌∷◌,
  Bool-cases, arith, is_none,
}
use enactspace.Shared.Env.{Env}
use enactspace.Shared.Table.{All}
use enactspace.Shared.Table.Queries.{count, count-some}
use enactspace.People.Models.{User}
use enactspace.Ledger.Balance.{NeverRepeats}
use enactspace.Server.Models.{Db}
use enactspace.Server.Handler.{Result, ok, Session, pure, ◌>>=◌, ◌>>◌}
use enactspace.Server.Handler.Laws.{then-of}
use enactspace.Attendance.Models.{
  AttendanceSession, AttendanceRecord, AttendanceStatus, JustificationStatus,
  AttendanceExpectedMember, is_record_of, record_of,
}
use enactspace.Attendance.Penalty.{is_late}
use enactspace.Attendance.Records.{
  write_record, upsert_record, notify_record_change, normalize_attendance_status,
  normalize_justification_status,
}
use enactspace.Attendance.Invariant.{IsSound}
use enactspace.Attendance.Invariant.Writes.{write_record-IsSound}
use enactspace.Attendance.Routes.Steps.{same-IsSound, write-sessions}
use enactspace.Attendance.Sessions.{absence, record_absence, absence_of, record_absences}
use enactspace.Attendance.Closing.Counts.{write-count}

-- The two texts that the close gives to the normalisers, which Python's `strip` and `lower` leave.
pub record ReadsAbsence (env : Env) : Type 0 where
  pub status : normalize_attendance_status env "absent" ≡ some AttendanceStatus.absent
  pub justification :
      normalize_justification_status env (some "not_submitted") AttendanceStatus.absent
      ≡ some JustificationStatus.not_submitted

module _ (env : Env) (inj : NeverRepeats env.uuid4) (reads : ReadsAbsence env) (user : User)
    (ip : Option String) (session : AttendanceSession) where
  -- the database after the absence of one member
  abbrev written : ℕ → Db → Db
  written user_id db =
      (write_record env user session (absence env user ip user_id) AttendanceStatus.absent
        JustificationStatus.not_submitted db).1

  -- the records of a member in the session
  abbrev recorded : ℕ → Session → ℕ
  recorded u s = count (is_record_of session.id u) s.work.attendance.records

  -- What the loop has done after some members: it did not fail, and they have a record.
  pub record Progress (s s' : Session) (r : Result ℕ) : Type 0 where
    pub answer : ℕ
    pub okay : r ≡ ok answer
    pub sound : IsSound env.uuid4 s'.work
    pub grows : (u : ℕ) → recorded u s ≤ recorded u s'
    pub sessions : s'.work.attendance.sessions ≡ s.work.attendance.sessions

  upsert_absence :
      (u : ℕ) (s : Session)
      → upsert_record env user session (absence env user ip u) s ≡ (
        ok
            (write_record env user session
              (absence env user ip u)
              AttendanceStatus.absent
              JustificationStatus.not_submitted
              s.work).0,
        record s { work = written u s.work },
      )
  unfolding upsert_record normalize_justification_status
  upsert_absence u s = rw (reads.status, reads.justification) refl

  -- a notification leaves the records
  notify-rest :
      (r : AttendanceRecord) (s : Session)
      → ((notify_record_change env r session s).1.work.attendance ≡ s.work.attendance)
        × ((notify_record_change env r session s).1.work.ledger ≡ s.work.ledger)
  unfolding notify_record_change
  notify-rest r s = elim (Bool-cases (is_late r.status)) [
    | inl e ↦ rw e (refl, refl)
    | inr e ↦ rw e (refl, refl)
  ]

  -- the record of one absence
  abbrev absent_record : ℕ → Db → AttendanceRecord
  absent_record u db =
      (write_record env user session (absence env user ip u) AttendanceStatus.absent
        JustificationStatus.not_submitted db).0

  record_absence-step :
      (u : ℕ) (s : Session)
      → record_absence env user ip session u s ≡ (
        ok 1,
        (notify_record_change env
            (absent_record u s.work)
            session
            (record s { work = written u s.work })).1,
      )
  unfolding record_absence notify_record_change
  record_absence-step u s =
      ap
        (λ (x : Result AttendanceRecord × Session).
          ◌>>=◌ (λ _. x) (λ r. notify_record_change env r session >> pure 1) s)
        (upsert_absence u s)

  record_absence-Progress :
      (u : ℕ) (s : Session)
      → IsSound env.uuid4 s.work
      → is_none (record_of session.id u s.work.attendance.records) ≡ true
      → Progress s
          (record_absence env user ip session u s).1
          (record_absence env user ip session u s).0
        × (1 ≤ recorded u (record_absence env user ip session u s).1)
  record_absence-Progress u s h missing =
      let i = absence env user ip u in
      let db = written u s.work in
      let r =
        (write_record env user session i AttendanceStatus.absent JustificationStatus.not_submitted
          s.work).0 in
      let s1 : Session = record s { work = db } in
      let told = notify-rest r s1 in
      let sound =
        write_record-IsSound env user inj session i AttendanceStatus.absent
          JustificationStatus.not_submitted s.work h in
      let more = λ (v : ℕ).
        write-count env user session.id v session i AttendanceStatus.absent
          JustificationStatus.not_submitted s.work h in
      rw (record_absence-step u s) (
        record {
          answer = 1;
          okay = refl;
          sound =
              same-IsSound env.uuid4 db (notify_record_change env r session s1).1.work told.1
                (rw told.0 refl) (rw told.0 (omega arith)) sound;
          grows = λ v. rw told.0 (omega (arith, more v));
          sessions = rw told.0 (
              write-sessions env user session i AttendanceStatus.absent
                JustificationStatus.not_submitted s.work);
        },
        rw told.0 (ground (arith, more u, missing)),
      )

  absence_of-Progress :
      (u : ℕ) (s : Session)
      → IsSound env.uuid4 s.work
      → let missing = is_none (record_of session.id u s.work.attendance.records) in
        Progress s
          (absence_of env user ip session u missing s).1
          (absence_of env user ip session u missing s).0
        × (1 ≤ recorded u (absence_of env user ip session u missing s).1)
  unfolding absence_of
  absence_of-Progress u s h =
      let records = s.work.attendance.records in
      elim (Bool-cases (is_none (record_of session.id u records))) [
        | inl e ↦ rw e (record_absence-Progress u s h e)
        | inr e ↦ rw e (
          record { answer = 0; okay = refl; sound = h; grows = λ v. omega arith; sessions = refl },
          unfold record_of in count-some (is_record_of session.id u) records e,
        )
      ]

  record_absences-step :
      (e : AttendanceExpectedMember) (es : List AttendanceExpectedMember) (s : Session) (n m : ℕ)
      → let missing = is_none (record_of session.id e.user_id s.work.attendance.records) in
        let first = absence_of env user ip session e.user_id missing s in
        let rest = record_absences env user ip session es first.1 in
        first.0 ≡ ok n
        → rest.0 ≡ ok m
        → record_absences env user ip session (e ∷ es) s ≡ (ok (n + m), rest.1)
  unfolding record_absences
  record_absences-step e es s n m e1 e2 =
      let missing = is_none (record_of session.id e.user_id s.work.attendance.records) in
      let first = absence_of env user ip session e.user_id missing s in
      let rest = record_absences env user ip session es first.1 in
      then-of first.0 first.1
        (λ n'. record_absences env user ip session es >>= λ m'. pure (n' + m')) n e1
      ∙ then-of rest.0 rest.1 (λ m'. pure (n + m')) m e2

  pub record_absences-Progress :
      (es : List AttendanceExpectedMember) (s : Session)
      → IsSound env.uuid4 s.work
      → Progress s
          (record_absences env user ip session es s).1
          (record_absences env user ip session es s).0
        × All
            (λ (e : AttendanceExpectedMember).
              1 ≤ recorded e.user_id (record_absences env user ip session es s).1)
            es
  record_absences-Progress [] s h =
      unfold record_absences in
      (record { answer = 0; okay = refl; sound = h; grows = λ v. omega arith; sessions = refl }, tt)
  record_absences-Progress (e ∷ es) s h =
      let missing = is_none (record_of session.id e.user_id s.work.attendance.records) in
      let first = absence_of env user ip session e.user_id missing s in
      let (p, here_now) = absence_of-Progress e.user_id s h in
      let (q, later) = record_absences-Progress es first.1 p.sound in
      let step = record_absences-step e es s p.answer q.answer p.okay q.okay in
      subst
        (λ (x : Result ℕ × Session).
          Progress s x.1 x.0
          × All (λ (e : AttendanceExpectedMember). 1 ≤ recorded e.user_id x.1) (e ∷ es))
        (sym step)
        (
          record {
            answer = p.answer + q.answer;
            okay = refl;
            sound = q.sound;
            grows = λ v. omega (arith, p.grows v, q.grows v);
            sessions = q.sessions ∙ p.sessions;
          },
          (omega (arith, here_now, q.grows e.user_id), later),
        )
