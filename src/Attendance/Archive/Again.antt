-- ===== src/Attendance/Archive/Again.antt =====
-- A session is captured once in the institutional memory.
use enactspace.Shared.{
  ℕ, ◌≡◌, refl, Bool, true, false, is_none, List, [], ◌∷◌, ◌++◌, arith, same_text, inl, inr,
  Option-cases,
}
use enactspace.Shared.Env.{Env}
use enactspace.Shared.Table.{first}
use enactspace.Outbox.Dedupe.{same_text_refl}
use enactspace.Server.Models.{Db, InstitutionalEvent}
use enactspace.Attendance.Models.{AttendanceSession}
use enactspace.Attendance.Archive.{
  existing_capture, archive_event, persist_capture, capture_attendance_archive,
}

-- a row that meets the query is found, the last one or an earlier one
first-appended :
    (p : InstitutionalEvent → Bool) (es : List InstitutionalEvent) (e : InstitutionalEvent)
    → p e ≡ true
    → is_none (first p (es ++ e ∷ [])) ≡ false
unfolding first
first-appended p [] e h = rw h refl
first-appended p (x ∷ es) e h = ground (arith, first-appended p es e h)

-- an event of the key stands after a capture
captured :
    (env : Env) (actor_id : ℕ) (event : InstitutionalEvent) (db : Db)
    → is_none (existing_capture event.capture_key (persist_capture env actor_id event db).memory)
      ≡ false
unfolding persist_capture existing_capture
captured env actor_id event db =
    let p = λ (e : InstitutionalEvent). same_text e.capture_key event.capture_key in
    elim (Option-cases (first p db.memory.events)) [
      | inl absent ↦
          rw absent (first-appended p db.memory.events event (same_text_refl event.capture_key))
      | inr (old, found) ↦ rw found (rw found refl)
    ]

-- where one stands, the next capture writes nothing
persisted :
    (env : Env) (actor_id : ℕ) (event : InstitutionalEvent) (db : Db)
    → is_none (existing_capture event.capture_key db.memory) ≡ false
    → persist_capture env actor_id event db ≡ db
unfolding persist_capture
persisted env actor_id event db stands = rw stands refl

-- Once an archived session has been captured in the institutional memory, a second capture of that
-- session, at any time, by any member and whatever has become of the session's other fields, leaves
-- the database as it was: neither an event nor an audit entry is added.
pub capture-again :
    (env : Env) (utcnow' actor_id actor_id' : ℕ) (session session' : AttendanceSession) (db : Db)
    → session'.id ≡ session.id
    → let db' = capture_attendance_archive env actor_id session db in
      capture_attendance_archive (record env { utcnow = utcnow' }) actor_id' session' db' ≡ db'
unfolding capture_attendance_archive archive_event
capture-again env utcnow' actor_id actor_id' session session' db same =
    let db' = capture_attendance_archive env actor_id session db in
    let event = archive_event env actor_id session db.attendance db.memory.drawn in
    let event' =
      archive_event (record env { utcnow = utcnow' }) actor_id' session' db'.attendance
        db'.memory.drawn in
    persisted (record env { utcnow = utcnow' }) actor_id' event' db'
      (rw same (captured env actor_id event db))
