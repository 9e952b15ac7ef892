-- ===== src/Attendance/Routes/Steps.antt =====
-- Soundness of the database over the single steps of the attendance routes.
use enactspace.Shared.{
  ℕ, ◌≤◌, ◌≡◌, refl, ◌∙◌, inl, inr, String, Option, some, List, [], ◌∷◌, Bool-cases, Option-cases,
  arith, is_none,
}
use enactspace.Shared.Env.{Env}
use enactspace.People.Models.{User, People}
use enactspace.Ledger.Balance.{NeverRepeats}
use enactspace.Ledger.Balance.Keys.{Fresh-later}
use enactspace.Server.Models.{Db}
use enactspace.Server.Handler.{Session}
use enactspace.Attendance.Models.{
  Attendance, AttendanceSession, AttendanceRecord, AttendanceStatus, JustificationStatus, record_id,
  session_id, record_of, expected_of, save_record, flush_expected,
}
use enactspace.Attendance.Expected.{
  ensure_expected_members, ensure_loop, add_expected, expected_member_ids_for_scope,
}
use enactspace.Attendance.Penalty.{is_late, sync_attendance_penalty}
use enactspace.Attendance.Invariant.Settings.{attendance_penalty_amount-only}
use enactspace.Attendance.Records.{
  RecordInput, put_record, write_record, upsert_record, notify_record_change,
  normalize_attendance_status, normalize_justification_status,
}
use enactspace.Attendance.Invariant.{IsSound}
use enactspace.Attendance.Invariant.Sessions.{Advances, Follows, Follows-refl, Follows-save}
use enactspace.Shared.Table.{find_row, save_row}
use enactspace.Attendance.Invariant.Writes.{write_record-IsSound}

-- What a write of other tables leaves.
pub record Untouched (db db' : Db) : Type 0 where
  pub ledger : db'.ledger ≡ db.ledger
  pub records : db'.attendance.records ≡ db.attendance.records
  pub later : db.attendance.drawn ≤ db'.attendance.drawn
  pub sessions : db'.attendance.sessions ≡ db.attendance.sessions

pub same-IsSound :
    (uuid4 : ℕ → ℕ) (db db' : Db)
    → db'.ledger ≡ db.ledger
    → db'.attendance.records ≡ db.attendance.records
    → db.attendance.drawn ≤ db'.attendance.drawn
    → IsSound uuid4 db
    → IsSound uuid4 db'
same-IsSound uuid4 db db' ledger records later h = record {
  consistent = rw ledger h.consistent;
  ids = rw records h.ids;
  fresh = rw records (
      Fresh-later uuid4 record_id db.attendance.drawn db'.attendance.drawn db.attendance.records
        later h.fresh);
  single = rw records h.single;
  penalty = rw ledger h.penalty;
  linked = rw (ledger, records) h.linked;
}

untouched : (db db' : Db) (uuid4 : ℕ → ℕ) → Untouched db db' → IsSound uuid4 db → IsSound uuid4 db'
untouched db db' uuid4 u = same-IsSound uuid4 db db' u.ledger u.records u.later

-- Both what is committed and the working state are sound, and hold the sessions `t0`.
pub record Sound (uuid4 : ℕ → ℕ) (t0 : List AttendanceSession) (s : Session) : Type 0 where
  pub saved : IsSound uuid4 s.saved
  pub work : IsSound uuid4 s.work
  pub saved_sessions : s.saved.attendance.sessions ≡ t0
  pub sessions : s.work.attendance.sessions ≡ t0

-- A step that commits nothing and writes other tables, and one that commits what it wrote.
pub works :
    (uuid4 : ℕ → ℕ) (t0 : List AttendanceSession) (s s' : Session)
    → s'.saved ≡ s.saved
    → Untouched s.work s'.work
    → Sound uuid4 t0 s
    → Sound uuid4 t0 s'
works uuid4 t0 s s' e u h = record {
  saved = rw e h.saved;
  work = untouched s.work s'.work uuid4 u h.work;
  saved_sessions = rw e h.saved_sessions;
  sessions = u.sessions ∙ h.sessions;
}

pub commits :
    (uuid4 : ℕ → ℕ) (t0 : List AttendanceSession) (s s' : Session)
    → s'.saved ≡ s'.work
    → Untouched s.work s'.work
    → Sound uuid4 t0 s
    → Sound uuid4 t0 s'
commits uuid4 t0 s s' e u h =
    let w = untouched s.work s'.work uuid4 u h.work in
    let same : s'.work.attendance.sessions ≡ t0 = u.sessions ∙ h.sessions in
    record { saved = rw e w; work = w; saved_sessions = rw e same; sessions = same }

-- What a request leaves: a sound database, whose sessions are no earlier in their lives.
pub record Done (uuid4 : ℕ → ℕ) (t0 : List AttendanceSession) (s : Session) : Type 0 where
  pub saved : IsSound uuid4 s.saved
  pub follows : Follows t0 s.saved.attendance.sessions

pub Sound-Done :
    (uuid4 : ℕ → ℕ) (t0 : List AttendanceSession) (s : Session) → Sound uuid4 t0 s → Done uuid4 t0 s
Sound-Done uuid4 t0 s h = record {
  saved = h.saved;
  follows = rw h.saved_sessions (Follows-refl t0);
}

-- The last step of a request that writes a session, and commits.
pub commits_session :
    (uuid4 : ℕ → ℕ) (t0 : List AttendanceSession) (s s' : Session)
    (session session' : AttendanceSession)
    → s'.saved ≡ s'.work
    → s'.work.ledger ≡ s.work.ledger
    → s'.work.attendance.records ≡ s.work.attendance.records
    → s.work.attendance.drawn ≤ s'.work.attendance.drawn
    → s'.work.attendance.sessions ≡ save_row session_id session' s.work.attendance.sessions
    → session'.id ≡ session.id
    → find_row session_id session.id t0 ≡ some session
    → Advances session session'
    → Sound uuid4 t0 s
    → Done uuid4 t0 s'
commits_session uuid4 t0 s s' session session' e ledger records later wrote same row step h =
    record {
      saved = rw e (same-IsSound uuid4 s.work s'.work ledger records later h.work);
      follows = rw (e, wrote, h.sessions) (Follows-save session session' t0 same row step);
    }

-- The sync of a penalty, and the write of a record, leave the sessions.
pub sync-sessions :
    (env : Env) (user : User) (r : AttendanceRecord) (db : Db)
    → (sync_attendance_penalty env user r db).1.attendance.sessions ≡ db.attendance.sessions
unfolding sync_attendance_penalty save_record
sync-sessions env user r db = (attendance_penalty_amount-only env r db.attendance).sessions

pub write-sessions :
    (env : Env) (user : User) (session : AttendanceSession) (i : RecordInput)
    (status : AttendanceStatus) (j : JustificationStatus) (db : Db)
    → (write_record env user session i status j db).1.attendance.sessions ≡ db.attendance.sessions
unfolding write_record put_record flush_expected save_record
write-sessions env user session i status j db =
    elim (Option-cases (record_of session.id i.user_id db.attendance.records)) [
      | inl e ↦ rw e (sync-sessions env user _ _)
      | inr (r, e) ↦ rw e (sync-sessions env user _ _)
    ]

module _ (env : Env) (inj : NeverRepeats env.uuid4) (user : User) (ip : Option String)
    (t0 : List AttendanceSession) where
  abbrev Q : Session → Type 0
  Q = Sound env.uuid4 t0

  pub upsert-Sound :
      (session : AttendanceSession) (i : RecordInput) (s : Session)
      → Q s
      → Q (upsert_record env user session i s).1
  unfolding upsert_record
  upsert-Sound session i s h =
      elim (Option-cases (normalize_attendance_status env i.attendance_status)) [
        | inl e ↦ rw e h
        | inr (status, e) ↦
            elim (Option-cases (normalize_justification_status env i.justification_status status)) [
              | inl f ↦ rw (e, f) h
              | inr (j, f) ↦
                  rw (e, f)
                    (record {
                      saved = h.saved;
                      work = write_record-IsSound env user inj session i status j s.work h.work;
                      saved_sessions = h.saved_sessions;
                      sessions = write-sessions env user session i status j s.work ∙ h.sessions;
                    })
            ]
      ]

  pub notify_change-Sound :
      (r : AttendanceRecord) (session : AttendanceSession) (s : Session)
      → Q s
      → Q (notify_record_change env r session s).1
  unfolding notify_record_change
  notify_change-Sound r session s h = elim (Bool-cases (is_late r.status)) [
    | inl e ↦ rw e (
        works env.uuid4 t0 s _ refl
          (record { ledger = refl; records = refl; later = omega arith; sessions = refl }) h)
    | inr e ↦ rw e h
  ]

  pub ensure_loop-later :
      (k : ℕ) (us : List ℕ) (t : Attendance)
      → ((ensure_loop env k us t).1.records ≡ t.records)
        × ((ensure_loop env k us t).1.sessions ≡ t.sessions)
        × ((ensure_loop env k us t).1.expected ≡ t.expected)
        × (t.drawn ≤ (ensure_loop env k us t).1.drawn)
  unfolding ensure_loop add_expected
  ensure_loop-later k [] t = (refl, refl, refl, omega arith)
  ensure_loop-later k (u ∷ us) t =
      let rest = ensure_loop-later k us t in
      let added = ensure_loop-later k us (add_expected env k u t) in
      elim (Bool-cases (is_none (expected_of k u t.expected))) [
        | inl e ↦ rw e (added.0, added.1, added.2, omega (arith, added.3))
        | inr e ↦ rw e rest
      ]

  -- the members that a session expects are added where no query sees them yet
  pub ensure-rest :
      (session : AttendanceSession) (p : People) (t : Attendance)
      → ((ensure_expected_members env session p t).1.records ≡ t.records)
        × ((ensure_expected_members env session p t).1.sessions ≡ t.sessions)
        × ((ensure_expected_members env session p t).1.expected ≡ t.expected)
        × (t.drawn ≤ (ensure_expected_members env session p t).1.drawn)
  unfolding ensure_expected_members
  ensure-rest session p t =
      ensure_loop-later session.id
        (expected_member_ids_for_scope session.scope_type session.pole_id session.project_id p) t
