-- ===== src/Attendance/Invariant/Writes.antt =====
-- The database is sound after a record is written and its penalty synced.
use enactspace.Shared.{
  ℕ, ◌+◌, ◌≡◌, refl, inl, inr, none, some, List, [], ◌∷◌, ◌++◌, Bool-cases, Option-cases,
}
use enactspace.Shared.Int.{ℤ, nonpositive}
use enactspace.Shared.Env.{Env}
use enactspace.Shared.Table.{find_row}
use enactspace.Shared.Table.Queries.{first-find_row}
use enactspace.People.Models.{User}
use enactspace.Ledger.Models.{Ledger}
use enactspace.Ledger.Balance.{NeverRepeats, IsConsistent}
use enactspace.Ledger.Balance.Keys.{Fresh-later}
use enactspace.Server.Models.{Db}
use enactspace.Server.Handler.{flushed}
use enactspace.Attendance.Models.{
  Attendance, AttendanceRecord, AttendanceSession, AttendanceStatus, JustificationStatus, record_id,
  record_of, is_record_of, save_record, flush_expected,
}
use enactspace.Attendance.Penalty.{
  penalty_of, attendance_penalty_amount, sync_penalty, sync_attendance_penalty, set_penalty,
  remove_attendance_penalty, remove_found, revise_penalty, add_penalty,
}
use enactspace.Attendance.Penalty.Consistency.{sync_penalty-Moved}
use enactspace.Attendance.Records.{
  RecordInput, filled_record, empty_record, put_record, write_record,
}
use enactspace.Attendance.Invariant.{IsSound, Stored}
use enactspace.Attendance.Invariant.Fees.{FeesFit, sync_penalty-fit, linked-All-OfRecord}
use enactspace.Attendance.Invariant.Records.{
  RecordsFit, FeesFit-Extends, save_record-RecordsFit, save_record-Extends, save_record-Stored,
  append_record-RecordsFit, append_record-Extends, append_record-Stored,
}
use enactspace.Attendance.Invariant.Settings.{attendance_penalty_amount-only}

-- The parts of soundness, by the tables that they are of.
pub record Parts (uuid4 : ℕ → ℕ) (l : Ledger) (t : Attendance) : Type 0 where
  pub consistent : IsConsistent uuid4 l
  pub records : RecordsFit uuid4 t
  pub fees : FeesFit t.records l.fees

pub IsSound-Parts :
    (uuid4 : ℕ → ℕ) (db : Db) → IsSound uuid4 db → Parts uuid4 db.ledger db.attendance
IsSound-Parts uuid4 db h = record {
  consistent = h.consistent;
  records = record { ids = h.ids; fresh = h.fresh; single = h.single };
  fees = record { single = h.penalty; linked = h.linked };
}

pub Parts-IsSound :
    (uuid4 : ℕ → ℕ) (db : Db) → Parts uuid4 db.ledger db.attendance → IsSound uuid4 db
Parts-IsSound uuid4 db p = record {
  consistent = p.consistent;
  ids = p.records.ids;
  fresh = p.records.fresh;
  single = p.records.single;
  penalty = p.fees.single;
  linked = p.fees.linked;
}

-- The columns that the writes of a record leave.
pub record SameKeys (r r' : AttendanceRecord) : Type 0 where
  pub id : r'.id ≡ r.id
  pub session : r'.session_id ≡ r.session_id
  pub user : r'.user_id ≡ r.user_id

module _ (env : Env) (current_user : User) where
  pub synced-SameKeys :
      (r : AttendanceRecord) (amount : ℤ) (l : Ledger)
      → SameKeys r (sync_penalty env current_user r amount l).0
  unfolding sync_penalty set_penalty remove_attendance_penalty remove_found revise_penalty
      add_penalty
  synced-SameKeys r amount l = elim (Option-cases (penalty_of r.id l.fees)) [
    | inl e ↦ elim (Bool-cases (nonpositive amount)) [
      | inl z ↦ rw (z, e) (record { id = refl; session = refl; user = refl })
      | inr z ↦ rw (z, e) (record { id = refl; session = refl; user = refl })
    ]
    | inr (fee, e) ↦ elim (Bool-cases (nonpositive amount)) [
      | inl z ↦ rw (z, e) (record { id = refl; session = refl; user = refl })
      | inr z ↦ rw (z, e) (record { id = refl; session = refl; user = refl })
    ]
  ]

  pub Stored-SameKeys :
      (t : List AttendanceRecord) (r r' : AttendanceRecord)
      → SameKeys r r'
      → Stored t r
      → Stored t r'
  Stored-SameKeys t r r' same stored = record {
    row = stored.row;
    found = rw same.id stored.found;
    same_session = rw same.session stored.same_session;
    same_user = rw same.user stored.same_user;
  }

  module _ (inj : NeverRepeats env.uuid4) where
    -- The sync of a record that stands in the table.
    pub sync-IsSound :
        (r : AttendanceRecord) (db : Db)
        → Stored db.attendance.records r
        → IsSound env.uuid4 db
        → IsSound env.uuid4 (sync_attendance_penalty env current_user r db).1
    unfolding sync_attendance_penalty
    sync-IsSound r db stored h =
        let p = IsSound-Parts env.uuid4 db h in
        let amount = (attendance_penalty_amount env r db.attendance).0 in
        let t = (attendance_penalty_amount env r db.attendance).1 in
        let only = attendance_penalty_amount-only env r db.attendance in
        let r' = (sync_penalty env current_user r amount db.ledger).0 in
        let l' = (sync_penalty env current_user r amount db.ledger).1 in
        let own = linked-All-OfRecord env db.attendance.records r stored db.ledger.fees h.linked in
        let moved = sync_penalty-Moved env inj db.ledger h.consistent r own current_user amount in
        let fees =
          sync_penalty-fit env db.attendance.records r stored db.ledger h.consistent p.fees
            current_user amount in
        let kept : RecordsFit env.uuid4 t = record {
          ids = rw only.records p.records.ids;
          fresh = rw only.records (
              Fresh-later env.uuid4 record_id db.attendance.drawn t.drawn db.attendance.records
                only.later p.records.fresh);
          single = rw only.records p.records.single;
        } in
        let stored' : Stored t.records r' = rw only.records (
          Stored-SameKeys db.attendance.records r r' (synced-SameKeys r amount db.ledger) stored) in
        Parts-IsSound env.uuid4 (sync_attendance_penalty env current_user r db).1 (record {
          consistent = moved.consistent;
          records = save_record-RecordsFit env.uuid4 t kept r' stored';
          fees =
              FeesFit-Extends t.records (save_record r' t).records l'.fees
                (save_record-Extends env.uuid4 t kept r' stored') (rw only.records fees);
        })

    module _ (session : AttendanceSession) (i : RecordInput) (status : AttendanceStatus)
        (justification : JustificationStatus) where
      -- `_upsert_record`, up to its errors
      pub write_record-IsSound :
          (db : Db)
          → IsSound env.uuid4 db
          → IsSound env.uuid4 (write_record env current_user session i status justification db).1
      unfolding write_record put_record filled_record flush_expected
      write_record-IsSound db h =
          let p = IsSound-Parts env.uuid4 db h in
          let t = db.attendance in
          elim (Option-cases (record_of session.id i.user_id t.records)) [
            | inl e ↦
                let r =
                  filled_record env current_user session i status justification
                    (empty_record env session.id i.user_id t.drawn) in
                let grown : Attendance =
                  flush_expected
                    (record t { records = t.records ++ r ∷ []; drawn = t.drawn + 1 }) in
                let drawn : r.id ≡ env.uuid4 t.drawn = unfold empty_record in refl in
                let absent : record_of r.session_id r.user_id t.records ≡ none =
                  unfold empty_record in e in
                let fit = append_record-RecordsFit env.uuid4 t p.records r drawn inj absent in
                let stored = append_record-Stored env.uuid4 t p.records r drawn in
                let fees =
                  FeesFit-Extends t.records grown.records db.ledger.fees
                    (append_record-Extends env.uuid4 t p.records r drawn) p.fees in
                rw e (
                  sync-IsSound r (flushed (record db { attendance = grown })) stored (
                    Parts-IsSound env.uuid4 (flushed (record db { attendance = grown })) (record {
                      consistent = p.consistent;
                      records = record { ids = fit.ids; fresh = fit.fresh; single = fit.single };
                      fees = fees;
                    })))
            | inr (r0, e) ↦
                let r = filled_record env current_user session i status justification r0 in
                let found : find_row record_id r.id t.records ≡ some r0 =
                  unfold record_of in
                  first-find_row (is_record_of session.id i.user_id) record_id t.records r0
                    p.records.ids e in
                let stored : Stored t.records r = record {
                  row = r0;
                  found = found;
                  same_session = refl;
                  same_user = refl;
                } in
                let saved = flush_expected (save_record r t) in
                let fit = save_record-RecordsFit env.uuid4 t p.records r stored in
                let fees =
                  FeesFit-Extends t.records saved.records db.ledger.fees
                    (save_record-Extends env.uuid4 t p.records r stored) p.fees in
                rw e (
                  sync-IsSound r (flushed (record db { attendance = saved }))
                    (save_record-Stored env.uuid4 t p.records r stored)
                    (Parts-IsSound env.uuid4 (flushed (record db { attendance = saved })) (record {
                      consistent = p.consistent;
                      records = record { ids = fit.ids; fresh = fit.fresh; single = fit.single };
                      fees = fees;
                    })))
          ]
