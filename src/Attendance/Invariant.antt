-- ===== src/Attendance/Invariant.antt =====
-- What the attendance routes keep of the database: a record per member and session, a penalty per
-- record, each a fee of the record's member, and a consistent ledger.
pub mod Fees
pub mod Records
pub mod Settings
pub mod Writes
pub mod Sessions
use enactspace.Shared.{
  ℕ, ◌+◌, ◌≤◌, ◌≡◌, refl, Bool, true, some, List, [], ◌∷◌, ◌==◌, same_id, arith,
}
use enactspace.Shared.Table.{All, find_row, Unique}
use enactspace.Shared.Table.Queries.{count}
use enactspace.Ledger.Models.{Fee}
use enactspace.Ledger.Balance.{Fresh, IsConsistent}
use enactspace.Server.Models.{Db}
use enactspace.Attendance.Models.{AttendanceRecord, record_id, is_record_of}
use enactspace.Attendance.Penalty.Consistency.{PaidInFull}

-- A fee that names an attendance record names one of the table, of the fee's member.
pub record Linked (t : List AttendanceRecord) (f : Fee) (a : ℕ) : Type 0 where
  pub row : AttendanceRecord
  pub found : find_row record_id a t ≡ some row
  pub owner : row.user_id ≡ f.user_id
  pub full : PaidInFull f

abbrev pub IsLinked : List AttendanceRecord → Fee → Type 0
IsLinked t f = (a : ℕ) → f.related_attendance_id ≡ some a → Linked t f a

-- the fees of a record
abbrev pub is_penalty_of : ℕ → Fee → Bool
is_penalty_of a f = same_id f.related_attendance_id (some a)

pub record IsSound (uuid4 : ℕ → ℕ) (db : Db) : Type 0 where
  pub consistent : IsConsistent uuid4 db.ledger
  pub ids : Unique record_id db.attendance.records
  pub fresh : Fresh uuid4 record_id db.attendance.drawn db.attendance.records
  pub single :
      (session user_id : ℕ) → count (is_record_of session user_id) db.attendance.records ≤ 1
  pub penalty : (a : ℕ) → count (is_penalty_of a) db.ledger.fees ≤ 1
  pub linked : All (IsLinked db.attendance.records) db.ledger.fees

-- The row of the table that a loaded record was read from.
pub record Stored (t : List AttendanceRecord) (r : AttendanceRecord) : Type 0 where
  pub row : AttendanceRecord
  pub found : find_row record_id r.id t ≡ some row
  pub same_session : row.session_id ≡ r.session_id
  pub same_user : row.user_id ≡ r.user_id
