-- ===== src/Attendance/Routes/Guards.antt =====
-- The checks that the attendance routes make before they write.
use enactspace.Shared.{String, ℕ, ◌≡◌, refl, inl, inr, none, some, Option, Option-cases, arith}
use enactspace.Shared.Env.{Env}
use enactspace.Shared.Table.{find_row}
use enactspace.Shared.Table.Laws.{find_row_self}
use enactspace.People.Models.{User}
use enactspace.Server.Handler.{ok, Session, pure}
use enactspace.Server.Handler.Laws.{guard-Keeps, then-parts}
use enactspace.Server.Deps.{current_active_validated_user}
use enactspace.Attendance.Models.{AttendanceSession, AttendanceRecord, record_id, session_id}
use enactspace.Attendance.Access.{require_can_manage_session}
use enactspace.Attendance.Sessions.{managed_session, found_session}
use enactspace.Attendance.Manual.{operational_member, assert_active_operational_member}
use enactspace.Attendance.Justifications.{locked_record, found_record}

pub current_active_same : (user : User) (s : Session) → (current_active_validated_user user s).1 ≡ s
unfolding current_active_validated_user
current_active_same user s = ground arith

pub require_can_manage_same :
    (env : Env) (user : User) (session : AttendanceSession) (s : Session)
    → (require_can_manage_session env user session s).1 ≡ s
unfolding require_can_manage_session
require_can_manage_same env user session s = refl

pub operational_same :
    (env : Env) (user : User) (ip : Option String) (id : ℕ) (s : Session)
    → (operational_member env user ip id s).1 ≡ s
unfolding operational_member assert_active_operational_member
operational_same env user ip id s =
    elim (Option-cases (find_row (λ (u : User). u.id) id s.work.people.users)) [
      | inl e ↦ rw e refl
      | inr (u, e) ↦ rw e (
          guard-Keeps (λ t. t ≡ s) (λ _. pure u) (assert_active_operational_member u s).0 s
            (assert_active_operational_member u s).1 refl refl (λ a f. refl))
    ]

pub found_session_same :
    (env : Env) (user : User) (found : Option AttendanceSession) (s : Session)
    → (found_session env user found s).1 ≡ s
unfolding found_session
found_session_same env user none s = refl
found_session_same env user (some session) s =
    guard-Keeps (λ t. t ≡ s) (λ _. pure session) (require_can_manage_session env user session s).0 s
      (require_can_manage_session env user session s).1 (require_can_manage_same env user session s)
      refl (λ a e. refl)

pub managed_session_same :
    (env : Env) (user : User) (id : ℕ) (s : Session) → (managed_session env user id s).1 ≡ s
unfolding managed_session
managed_session_same env user id s =
    let found = find_row session_id id s.work.attendance.sessions in
    guard-Keeps (λ t. t ≡ s)
      (λ (_ : Unit {0}) (t : Session).
        found_session env user (find_row session_id id t.work.attendance.sessions) t)
      (current_active_validated_user user s).0 s (current_active_validated_user user s).1
      (current_active_same user s) refl (λ a e. found_session_same env user found s)

pub managed_found :
    (env : Env) (user : User) (found : Option AttendanceSession) (s : Session)
    (session : AttendanceSession)
    → (found_session env user found s).0 ≡ ok session
    → found ≡ some session
unfolding found_session
managed_found env user none s session e = ground (arith, e)
managed_found env user (some x) s session e =
    let allowed = require_can_manage_session env user x s in
    let parts = then-parts allowed.0 allowed.1 (λ _. pure x) session e in ground (arith, parts.2)

-- what is known of the session that is locked
pub managed_session_found :
    (env : Env) (user : User) (id : ℕ) (s : Session) (session : AttendanceSession)
    → (managed_session env user id s).0 ≡ ok session
    → find_row session_id id s.work.attendance.sessions ≡ some session
unfolding managed_session
managed_session_found env user id s session e =
    let active = current_active_validated_user user s in
    let parts =
      then-parts active.0 active.1
        (λ (_ : Unit {0}) (t : Session).
          found_session env user (find_row session_id id t.work.attendance.sessions) t)
        session e in
    let found = find_row session_id id s.work.attendance.sessions in
    managed_found env user found s session (rw (current_active_same user s) at parts.2)

-- the session that is locked stands in the table
pub managed_session_row :
    (env : Env) (user : User) (id : ℕ) (s : Session) (session : AttendanceSession)
    → (managed_session env user id s).0 ≡ ok session
    → find_row session_id session.id s.work.attendance.sessions ≡ some session
managed_session_row env user id s session e =
    find_row_self session_id id s.work.attendance.sessions session
      (managed_session_found env user id s session e)

found_record_same :
    (env : Env) (found : Option AttendanceRecord) (s : Session) → (found_record env found s).1 ≡ s
unfolding found_record
found_record_same env none s = refl
found_record_same env (some r) s =
    elim (Option-cases (find_row session_id r.session_id s.work.attendance.sessions)) [
      | inl e ↦ rw e refl
      | inr (session, e) ↦ rw e refl
    ]

pub locked_record_same : (env : Env) (id : ℕ) (s : Session) → (locked_record env id s).1 ≡ s
unfolding locked_record
locked_record_same env id s =
    found_record_same env (find_row record_id id s.work.attendance.records) s

found_record_row :
    (env : Env) (found : Option AttendanceRecord) (s : Session)
    (p : AttendanceSession × AttendanceRecord)
    → (found_record env found s).0 ≡ ok p
    → found ≡ some p.1
unfolding found_record
found_record_row env none s p e = ground (arith, e)
found_record_row env (some r) s p e =
    elim (Option-cases (find_row session_id r.session_id s.work.attendance.sessions)) [
      | inl none_held ↦ ground (arith, rw none_held at e)
      | inr (session, held) ↦ ground (arith, rw held at e)
    ]

-- the record that is locked stands in the table
pub locked_record_row :
    (env : Env) (id : ℕ) (s : Session) (p : AttendanceSession × AttendanceRecord)
    → (locked_record env id s).0 ≡ ok p
    → find_row record_id p.1.id s.work.attendance.records ≡ some p.1
unfolding locked_record
locked_record_row env id s p e =
    let records = s.work.attendance.records in
    find_row_self record_id id records p.1
      (found_record_row env (find_row record_id id records) s p e)
