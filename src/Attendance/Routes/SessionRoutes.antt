-- ===== src/Attendance/Routes/SessionRoutes.antt =====
-- Soundness of the database over the routes of attendance sessions.
use enactspace.Shared.{
  ℕ, ◌+◌, ◌≡◌, refl, some, Bool, true, false, String, Option, List, [], ◌∷◌, arith, is_none,
}
use enactspace.Shared.Table.{find_row}
use enactspace.Shared.Env.{Env}
use enactspace.People.Models.{User}
use enactspace.Ledger.Balance.{NeverRepeats}
use enactspace.Server.Handler.{Handler, Session, pure, ◌>>=◌, ◌>>◌}
use enactspace.Server.Handler.Laws.{then-Keeps, then-Gives, guard-Keeps}
use enactspace.Attendance.Models.{
  AttendanceSession, AttendanceExpectedMember, SessionStatus, session_id, save_session, record_of,
  flush_expected,
}
use enactspace.Attendance.Expected.{ensure_expected_members, expected_members}
use enactspace.Attendance.Records.{upsert_record, notify_record_change}
use enactspace.Attendance.Archive.{capture_attendance_archive, persist_capture}
use enactspace.Attendance.Sessions.{
  managed_session, opened_session, open_draft, open_locked, open_attendance_session, absence,
  record_absence, absence_of, record_absences, closed_session, archived_session, finish_close,
  close_open, close_locked, close_attendance_session, archive_closed, archive_locked,
  archive_attendance_session,
}
use enactspace.Attendance.Routes.Guards.{managed_session_same, managed_session_row}
use enactspace.Attendance.Routes.Steps.{
  Sound, works, upsert-Sound, notify_change-Sound, ensure-rest, Done, Sound-Done, commits_session,
}

module _ (env : Env) (inj : NeverRepeats env.uuid4) (user : User) (ip : Option String)
    (t0 : List AttendanceSession) where
  abbrev Q : Session → Type 0
  Q = Sound env.uuid4 t0

  -- what a route leaves
  abbrev P : Session → Type 0
  P = Done env.uuid4 t0

  leaves : (s : Session) → Q s → P s
  leaves = Sound-Done env.uuid4 t0

  module _ (session : AttendanceSession)
      (row : find_row session_id session.id t0 ≡ some session) where
    open_draft-Done :
        (s : Session)
        → session.status ≡ SessionStatus.draft
        → session.is_closed ≡ false
        → Q s
        → P (open_draft env user ip session s).1
    unfolding open_draft flush_expected save_session
    open_draft-Done s draft closed h =
        let session' = opened_session env session in
        let t = save_session session' s.work.attendance in
        let kept = ensure-rest env inj user ip t0 session' s.work.people t in
        commits_session env.uuid4 t0 s (open_draft env user ip session s).1 session session' refl
          refl kept.0 kept.3 kept.1 (unfold opened_session in refl) row
          (record {
            forward = unfold opened_session in ground (arith, draft);
            fits = λ f. unfold opened_session in closed;
          })
          h

    open_locked-Done :
        (status : SessionStatus) (is_closed : Bool) (s : Session)
        → session.status ≡ status
        → session.is_closed ≡ is_closed
        → Q s
        → P (open_locked env user ip session status is_closed s).1
    unfolding open_locked
    open_locked-Done SessionStatus.opened c s e f h = leaves s h
    open_locked-Done SessionStatus.draft true s e f h = leaves s h
    open_locked-Done SessionStatus.draft false s e f h = open_draft-Done s e f h
    open_locked-Done SessionStatus.closed c s e f h = leaves s h
    open_locked-Done SessionStatus.archived c s e f h = leaves s h

    record_absence-Sound :
        (user_id : ℕ) (s : Session) → Q s → Q (record_absence env user ip session user_id s).1
    unfolding record_absence notify_record_change
    record_absence-Sound user_id s h =
        let r = upsert_record env user session (absence env user ip user_id) s in
        then-Keeps Q (λ a. notify_record_change env a session >> pure 1)
          (λ a t k. notify_change-Sound env inj user ip t0 a session t k) r.0 r.1
          (upsert-Sound env inj user ip t0 session (absence env user ip user_id) s h)

    absence_of-Sound :
        (user_id : ℕ) (missing : Bool) (s : Session)
        → Q s
        → Q (absence_of env user ip session user_id missing s).1
    unfolding absence_of
    absence_of-Sound user_id true s h = record_absence-Sound user_id s h
    absence_of-Sound user_id false s h = h

    record_absences-Sound :
        (es : List AttendanceExpectedMember) (s : Session)
        → Q s
        → Q (record_absences env user ip session es s).1
    unfolding record_absences
    record_absences-Sound [] s h = h
    record_absences-Sound (e ∷ es) s h =
        let missing = is_none (record_of session.id e.user_id s.work.attendance.records) in
        let first = absence_of env user ip session e.user_id missing s in
        then-Keeps Q (λ n. record_absences env user ip session es >>= λ rest. pure (n + rest))
          (λ n t k.
            let later = record_absences env user ip session es t in
            then-Keeps Q (λ rest. pure (n + rest)) (λ rest u q. q) later.0 later.1
              (record_absences-Sound es t k))
          first.0 first.1 (absence_of-Sound e.user_id missing s h)

    finish_close-Done :
        (n : ℕ) (s : Session)
        → session.status ≡ SessionStatus.opened
        → Q s
        → P (finish_close env user ip session n s).1
    unfolding finish_close flush_expected save_session
    finish_close-Done n s open_now h =
        commits_session env.uuid4 t0 s (finish_close env user ip session n s).1 session
          (closed_session env user ip session) refl refl refl (omega arith) refl
          (unfold closed_session in refl) row
          (record {
            forward = unfold closed_session in ground (arith, open_now);
            fits = λ f. unfold closed_session in refl;
          })
          h

    close_open-Done :
        (s : Session)
        → session.status ≡ SessionStatus.opened
        → Q s
        → P (close_open env user ip session s).1
    unfolding close_open
    close_open-Done s open_now h =
        let kept = ensure-rest env inj user ip t0 session s.work.people s.work.attendance in
        let (_, t) = ensure_expected_members env session s.work.people s.work.attendance in
        let s' : Session = record s { work = record s.work { attendance = t } } in
        let h' =
          works env.uuid4 t0 s s' refl
            (record { ledger = refl; records = kept.0; later = kept.3; sessions = kept.1 }) h in
        let members = expected_members session.id t in
        let r = record_absences env user ip session members s' in
        then-Gives Q P leaves (λ n. finish_close env user ip session n)
          (λ n u q. finish_close-Done n u open_now q) r.0 r.1 (record_absences-Sound members s' h')

    close_locked-Done :
        (status : SessionStatus) (s : Session)
        → session.status ≡ status
        → Q s
        → P (close_locked env user ip session status s).1
    unfolding close_locked
    close_locked-Done SessionStatus.opened s e h = close_open-Done s e h
    close_locked-Done SessionStatus.draft s e h = leaves s h
    close_locked-Done SessionStatus.closed s e h = leaves s h
    close_locked-Done SessionStatus.archived s e h = leaves s h

    archive_locked-Done :
        (status : SessionStatus) (s : Session)
        → session.status ≡ status
        → Q s
        → P (archive_locked env user ip session status s).1
    unfolding archive_locked archive_closed capture_attendance_archive persist_capture
        flush_expected save_session
    archive_locked-Done SessionStatus.opened s e h = leaves s h
    archive_locked-Done SessionStatus.draft s e h = leaves s h
    archive_locked-Done SessionStatus.closed s e h =
        commits_session env.uuid4 t0 s (archive_closed env user ip session s).1 session
          (archived_session env user ip session) refl refl refl (omega arith) refl
          (unfold archived_session in refl) row
          (record {
            forward = unfold archived_session in ground (arith, e);
            fits = λ f. unfold archived_session in refl;
          })
          h
    archive_locked-Done SessionStatus.archived s e h = leaves s h

  module _ (id : ℕ) (s : Session) (h : Q s) where
    -- the session that is locked, and the route on it
    pub managed-Gives :
        (R : Session → Type 0) {A : Type 0} (k : AttendanceSession → Handler A)
        → R s
        → ((session : AttendanceSession)
            → find_row session_id session.id t0 ≡ some session
            → R (k session s).1)
        → R (◌>>=◌ (managed_session env user id) k s).1
    managed-Gives R k still keeps =
        let managed = managed_session env user id s in
        guard-Keeps R k managed.0 s managed.1 (managed_session_same env user id s) still
          (λ session e.
            keeps session (rw h.sessions at (managed_session_row env user id s session e)))

    pub open_session-Done : P (open_attendance_session env user ip id s).1
    unfolding open_attendance_session
    open_session-Done =
        managed-Gives P
          (λ session. open_locked env user ip session session.status session.is_closed) (leaves s h)
          (λ session row.
            open_locked-Done session row session.status session.is_closed s refl refl h)

    pub close_session-Done : P (close_attendance_session env user ip id s).1
    unfolding close_attendance_session
    close_session-Done =
        managed-Gives P (λ session. close_locked env user ip session session.status) (leaves s h)
          (λ session row. close_locked-Done session row session.status s refl h)

    pub archive_session-Done : P (archive_attendance_session env user ip id s).1
    unfolding archive_attendance_session
    archive_session-Done =
        managed-Gives P (λ session. archive_locked env user ip session session.status) (leaves s h)
          (λ session row. archive_locked-Done session row session.status s refl h)
