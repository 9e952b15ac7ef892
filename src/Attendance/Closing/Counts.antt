-- ===== src/Attendance/Closing/Counts.antt =====
-- The number of a member's records in a session, over the writes of records.
use enactspace.Shared.{
  ℕ, ◌+◌, ◌≡◌, ◌∙◌, refl, inl, inr, some, List, [], ◌∷◌, ◌++◌, Option-cases, arith, is_none,
  if◌then◌else◌, ◌==◌, ◌&&◌,
}
use enactspace.Shared.Env.{Env}
use enactspace.Shared.Table.{find_row}
use enactspace.Shared.Table.Queries.{first-find_row, count, count-append, count-save}
use enactspace.People.Models.{User}
use enactspace.Server.Models.{Db}
use enactspace.Server.Handler.{flushed}
use enactspace.Attendance.Models.{
  Attendance, AttendanceSession, AttendanceRecord, AttendanceStatus, JustificationStatus, record_id,
  is_record_of, record_of, save_record, flush_expected,
}
use enactspace.Attendance.Penalty.{attendance_penalty_amount, sync_penalty, sync_attendance_penalty}
use enactspace.Attendance.Records.{
  RecordInput, filled_record, empty_record, put_record, write_record,
}
use enactspace.Attendance.Invariant.{IsSound, Stored}
use enactspace.Attendance.Invariant.Records.{append_record-Stored, save_record-Stored}
use enactspace.Attendance.Invariant.Settings.{attendance_penalty_amount-only}
use enactspace.Attendance.Invariant.Writes.{IsSound-Parts, synced-SameKeys, Stored-SameKeys}

module _ (env : Env) (user : User) (a u : ℕ) where
  abbrev at : List AttendanceRecord → ℕ
  at = count (is_record_of a u)

  -- a write of a stored record, with its member and session
  save-count :
      (r : AttendanceRecord) (t : Attendance)
      → Stored t.records r
      → at (save_record r t).records ≡ at t.records
  unfolding save_record
  save-count r t stored =
      let kept : is_record_of a u r ≡ is_record_of a u stored.row =
        rw (stored.same_session, stored.same_user) refl in
      count-save (is_record_of a u) record_id r stored.row t.records stored.found kept

  sync-count :
      (r : AttendanceRecord) (db : Db)
      → Stored db.attendance.records r
      → at (sync_attendance_penalty env user r db).1.attendance.records ≡ at db.attendance.records
  unfolding sync_attendance_penalty
  sync-count r db stored =
      let amount = (attendance_penalty_amount env r db.attendance).0 in
      let t = (attendance_penalty_amount env r db.attendance).1 in
      let only = attendance_penalty_amount-only env r db.attendance in
      let r' = (sync_penalty env user r amount db.ledger).0 in
      let stored' : Stored t.records r' = rw only.records (
        Stored-SameKeys env user db.attendance.records r r'
          (synced-SameKeys env user r amount db.ledger) stored) in
      save-count r' t stored' ∙ (rw only.records refl)

  module _ (session : AttendanceSession) (i : RecordInput) (status : AttendanceStatus)
      (justification : JustificationStatus) where
    -- The records of a member in a session only grow, and the one that is written is among them.
    pub write-count :
        (db : Db)
        → IsSound env.uuid4 db
        → at (write_record env user session i status justification db).1.attendance.records
          ≡ at db.attendance.records
            + (if is_none (record_of session.id i.user_id db.attendance.records)
                  && (session.id == a && i.user_id == u)
                then 1
                else 0)
    unfolding write_record put_record filled_record flush_expected
    write-count db h =
        let p = IsSound-Parts env.uuid4 db h in
        let t = db.attendance in
        elim (Option-cases (record_of session.id i.user_id t.records)) [
          | inl e ↦
              let r =
                filled_record env user session i status justification
                  (empty_record env session.id i.user_id t.drawn) in
              let grown : Attendance =
                flush_expected (record t { records = t.records ++ r ∷ []; drawn = t.drawn + 1 }) in
              let drawn : r.id ≡ env.uuid4 t.drawn = unfold empty_record in refl in
              let stored = append_record-Stored env.uuid4 t p.records r drawn in
              rw e (
                sync-count r (flushed (record db { attendance = grown })) stored
                ∙ (count-append (is_record_of a u) t.records r ∙ (unfold empty_record in refl)))
          | inr (r0, e) ↦
              let r = filled_record env user session i status justification r0 in
              let found : find_row record_id r.id t.records ≡ some r0 =
                unfold record_of in
                first-find_row (is_record_of session.id i.user_id) record_id t.records r0
                  p.records.ids e in
              let stored : Stored t.records r = record {
                row = r0;
                found = found;
                same_session = refl;
                same_user = refl;
              } in
              let saved = flush_expected (save_record r t) in
              rw e (
                sync-count r (flushed (record db { attendance = saved }))
                  (save_record-Stored env.uuid4 t p.records r stored)
                ∙ (save-count r t stored ∙ omega arith))
        ]
