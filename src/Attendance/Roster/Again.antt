-- ===== src/Attendance/Roster/Again.antt =====
-- The member that `add_expected_member` adds, and a second call of it.
use enactspace.Shared.{
  ℕ, ◌≡◌, ◌∙◌, refl, sym, ap, inl, inr, Bool, true, false, String, Option, none, some, List, [],
  ◌∷◌, ◌++◌, arith, Bool-cases, Option-cases,
}
use enactspace.Shared.Env.{Env}
use enactspace.Shared.Table.{find_row, first}
use enactspace.Shared.Table.Laws.{find_row-key}
use enactspace.People.Models.{User}
use mathlib.Core.List.{append-nil}
use enactspace.Outbox.Models.{Outbox, Notification, flush_notifications}
use enactspace.Server.Models.{Db}
use enactspace.Server.Handler.{Handler, Session, ok, raise_if, gets, pure, ◌>>=◌, ◌>>◌}
use enactspace.Server.Handler.Laws.{then-parts, then-run, then-reads, then-same}
use enactspace.Attendance.Models.{
  Attendance, AttendanceSession, AttendanceExpectedMember, session_id, is_expected, expected_of,
  flush_expected,
}
use enactspace.Attendance.Expected.{new_expected}
use enactspace.Attendance.Manual.{operational_member, assert_active_operational_member}
use enactspace.Attendance.Sessions.{managed_session, found_session}
use enactspace.Attendance.Access.{require_can_manage_session}
use enactspace.Server.Deps.{current_active_validated_user}
use enactspace.Attendance.Routes.Guards.{
  current_active_same, operational_same, managed_session_same, managed_session_found,
}
use enactspace.Attendance.Roster.{
  is_over, required_row, add_row, add_missing, add_in, add_expected_member,
}

-- a row that is appended is found where none was
first-append :
    (p : AttendanceExpectedMember → Bool) (xs : List AttendanceExpectedMember)
    (x : AttendanceExpectedMember)
    → first p xs ≡ none
    → p x ≡ true
    → first p (xs ++ x ∷ []) ≡ some x
unfolding first
first-append p [] x e h = rw h refl
first-append p (y ∷ ys) x e h = ground (arith, e, first-append p ys x, h)

-- Where the database's committed and working states agree, and no row waits.
abbrev pub quiet : Db → Session
quiet db = record { saved = db; work = db }

-- The member is expected in the table `t'`, at the row `e`, and the sessions are those of `t`.
record Expects (session user_id : ℕ) (e : AttendanceExpectedMember) (t t' : Attendance)
    : Type 0 where
  expected : expected_of session user_id t'.expected ≡ some e
  sessions : t'.sessions ≡ t.sessions

abbrev pub with_attendance : Db → Attendance → Db
with_attendance db t = record db { attendance = t }

-- a flush of nothing
flush_quiet : (o : Outbox) → o.pending ≡ [] → flush_notifications o ≡ o
unfolding flush_notifications
flush_quiet o e =
    ap (λ (ns : List Notification). record o { notifications = ns; pending = [] })
      (ap (λ (ps : List Notification). o.notifications ++ ps) e ∙ append-nil o.notifications)
    ∙ ap (λ (ps : List Notification). record o { pending = ps }) (sym e)

module _ (env : Env) (user : User) (ip : Option String) where
  add_missing-Expects :
      (k u : ℕ) (required : Bool) (found : Option AttendanceExpectedMember) (db : Db)
      (e : AttendanceExpectedMember)
      → db.attendance.pending ≡ []
      → db.outbox.pending ≡ []
      → expected_of k u db.attendance.expected ≡ found
      → (add_missing env user ip k u required found (quiet db)).0 ≡ ok e
      → (t : Attendance) × ((add_missing env user ip k u required found (quiet db)).1
          ≡ quiet (with_attendance db t))
        × Expects k u e db.attendance t
  unfolding add_missing required_row new_expected add_row flush_expected expected_of
  add_missing-Expects k u required (some e0) db e no_rows no_notices at answer =
      let same : e0 ≡ e = ground (arith, answer) in
      (db.attendance, refl, record { expected = at ∙ ap some same; sessions = refl })
  add_missing-Expects k u required none db e no_rows no_notices at answer =
      let t = db.attendance in
      let row = required_row env user ip k u required t.drawn in
      let same : row ≡ e = ground (arith, answer) in
      let keyed : is_expected k u row ≡ true = ground arith in
      let added : expected_of k u (t.expected ++ (t.pending ++ row ∷ [])) ≡ some row =
        rw no_rows (first-append (is_expected k u) t.expected row at keyed) in
      (
        flush_expected (add_row env user ip row t),
        ap
            (λ (o : Outbox).
              quiet
                (record db { attendance = flush_expected (add_row env user ip row t); outbox = o }))
            (flush_quiet db.outbox no_notices),
        record { expected = added ∙ ap some same; sessions = refl },
      )

  -- where the member is expected, the call finds the row and writes nothing
  add_in-found :
      (u : ℕ) (required : Bool) (session : AttendanceSession) (member : User)
      (e : AttendanceExpectedMember) (s : Session)
      → (operational_member env user ip u s).0 ≡ ok member
      → is_over session.status ≡ false
      → expected_of session.id u s.work.attendance.expected ≡ some e
      → add_in env user ip u required session s ≡ (ok e, s)
  unfolding add_in add_missing
  add_in-found u required session member e s known running found =
      let rest : User → Handler AttendanceExpectedMember = λ _.
        raise_if (is_over session.status) 409 "Cette séance est clôturée"
        >> (gets (λ db. expected_of session.id u db.attendance.expected)
            >>= add_missing env user ip session.id u required) in
      let m = operational_member env user ip u s in
      then-run m.0 m.1 s rest member known (operational_same env user ip u s)
      ∙ (rw (running, found) refl)

  -- an answered call leaves a database in which the member is expected, at the row it answers
  add_in-Expects :
      (u : ℕ) (required : Bool) (session : AttendanceSession) (e : AttendanceExpectedMember)
      (db : Db)
      → db.attendance.pending ≡ []
      → db.outbox.pending ≡ []
      → (add_in env user ip u required session (quiet db)).0 ≡ ok e
      → (member : User) × (t : Attendance) × ((operational_member env user ip u (quiet db)).0
          ≡ ok member)
        × (is_over session.status ≡ false)
        × ((add_in env user ip u required session (quiet db)).1 ≡ quiet (with_attendance db t))
        × Expects session.id u e db.attendance t
  unfolding add_in
  add_in-Expects u required session e db no_rows no_notices answer =
      let s = quiet db in
      let found = expected_of session.id u db.attendance.expected in
      let member = operational_member env user ip u s in
      let over : Handler (Unit {0}) =
        raise_if (is_over session.status) 409 "Cette séance est clôturée" in
      let add : Handler AttendanceExpectedMember =
        gets (λ db. expected_of session.id u db.attendance.expected)
        >>= add_missing env user ip session.id u required in
      let (m, known, rest) = then-parts member.0 member.1 (λ _. over >> add) e answer in
      let rest2 : ((over >> add) s).0 ≡ ok e = rw (operational_same env user ip u s) at rest in
      elim (Bool-cases (is_over session.status)) [
        | inl ended ↦ ground (arith, rw ended at rest2)
        | inr running ↦
            let kept =
              then-run member.0 member.1 s (λ _. over >> add) m known
                (operational_same env user ip u s) in
            let (t, left, expects) =
              add_missing-Expects session.id u required found db e no_rows no_notices refl
                (rw running at rest2) in
            (m, t, known, running, ap (λ p. p.1) kept ∙ (rw running left), expects)
      ]

  -- the guards read people and sessions alone
  module _ (db : Db) (t : Attendance) where
    abbrev db' : Db
    db' = with_attendance db t

    member_reads :
        (u : ℕ)
        → (operational_member env user ip u (quiet db')).0
          ≡ (operational_member env user ip u (quiet db)).0
    unfolding operational_member assert_active_operational_member
    member_reads u = elim (Option-cases (find_row (λ (v : User). v.id) u db.people.users)) [
      | inl e ↦ rw e refl
      | inr (v, e) ↦
          let check = assert_active_operational_member v in
          rw e (
            then-reads (check (quiet db)).0 (check (quiet db')).0 (quiet db) (quiet db')
              (λ _. pure v) refl (λ a. refl))
    ]

    found_reads :
        (found : Option AttendanceSession)
        → (found_session env user found (quiet db')).0 ≡ (found_session env user found (quiet db)).0
    unfolding found_session require_can_manage_session
    found_reads none = refl
    found_reads (some v) =
        let check = require_can_manage_session env user v in
        then-reads (check (quiet db)).0 (check (quiet db')).0 (quiet db) (quiet db') (λ _. pure v)
          refl (λ a. refl)

    session_reads :
        (id : ℕ)
        → t.sessions ≡ db.attendance.sessions
        → (managed_session env user id (quiet db')).0 ≡ (managed_session env user id (quiet db)).0
    unfolding managed_session
    session_reads id sessions =
        let rest : Unit {0} → Handler AttendanceSession = λ _.
          gets (λ db. find_row session_id id db.attendance.sessions) >>= found_session env user in
        let active = current_active_validated_user user in
        let kept = λ (s : Session).
          ap (λ p. p.0) (then-same (active s).0 (active s).1 s rest (current_active_same user s)) in
        kept (quiet db')
        ∙ (then-reads (active (quiet db)).0 (active (quiet db')).0 (quiet db) (quiet db') rest
              (unfold current_active_validated_user in ground arith)
              (λ _.
                ap
                  (λ (ts : List AttendanceSession).
                    (found_session env user (find_row session_id id ts) (quiet db')).0)
                  sessions
                ∙ found_reads (find_row session_id id db.attendance.sessions))
            ∙ sym (kept (quiet db)))

  -- Where no added row or notification waits to be flushed, a call of `add_expected_member` that
  -- answers leaves a committed database in which the member is expected, at the row that it answers,
  -- and a second call of it, whatever its flag, answers the same row and leaves the database as it
  -- is.
  pub add_expected_member-again :
      (id u : ℕ) (required : Bool) (db : Db) (e : AttendanceExpectedMember)
      → db.attendance.pending ≡ []
      → db.outbox.pending ≡ []
      → (add_expected_member env user ip id u required (quiet db)).0 ≡ ok e
      → (t : Attendance) × ((add_expected_member env user ip id u required (quiet db)).1
          ≡ quiet (with_attendance db t))
        × (expected_of id u t.expected ≡ some e)
        × ((other : Bool)
            → add_expected_member env user ip id u other (quiet (with_attendance db t))
              ≡ (ok e, quiet (with_attendance db t)))
  unfolding add_expected_member
  add_expected_member-again id u required db e no_rows no_notices answer =
      let s = quiet db in
      let managed = managed_session env user id s in
      let (session, locked, rest) =
        then-parts managed.0 managed.1 (add_in env user ip u required) e answer in
      let (member, t, known, running, left, expects) =
        add_in-Expects u required session e db no_rows no_notices
          (rw (managed_session_same env user id s) at rest) in
      let s' = quiet (with_attendance db t) in
      let again = managed_session env user id s' in
      let keyed : session.id ≡ id =
        find_row-key session_id id db.attendance.sessions session
          (managed_session_found env user id s session locked) in
      (
        t,
        ap (λ p. p.1)
              (then-run managed.0 managed.1 s (add_in env user ip u required) session locked
                (managed_session_same env user id s))
            ∙ left,
        rw keyed at expects.expected,
        λ other.
            then-run again.0 again.1 s' (add_in env user ip u other) session
              (session_reads db t id expects.sessions ∙ locked)
              (managed_session_same env user id s')
            ∙ add_in-found u other session member e s' (member_reads db t u ∙ known) running
                expects.expected,
      )
