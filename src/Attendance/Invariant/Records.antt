-- ===== src/Attendance/Invariant/Records.antt =====
-- The writes of the table of records keep its keys, one record per member and session, and the
-- records that the fees name.
use enactspace.Shared.{
  ℕ, ◌+◌, ◌≤◌, ◌≡◌, refl, sym, ◌∙◌, inl, inr, none, some, List, [], ◌∷◌, ◌++◌, arith, Bool-cases,
  ◌==◌,
}
use enactspace.Shared.Table.{find_row, Unique}
use enactspace.Shared.Table.Laws.{
  save-Unique, find_row-save_none, find_row-save_self, find_row-save_ne, find_row-append,
}
use enactspace.Shared.Table.Queries.{count, count-none, count-append, count-save, All-imp}
use enactspace.Ledger.Models.{Fee}
use enactspace.Ledger.Balance.{Fresh, NeverRepeats}
use enactspace.Ledger.Balance.Keys.{drawn-Unique, drawn-Fresh}
use enactspace.Attendance.Models.{
  Attendance, AttendanceRecord, record_id, is_record_of, record_of, save_record,
}
use enactspace.Attendance.Invariant.{IsLinked, Stored}
use enactspace.Attendance.Invariant.Fees.{FeesFit, same_row}

pub record RecordsFit (uuid4 : ℕ → ℕ) (t : Attendance) : Type 0 where
  pub ids : Unique record_id t.records
  pub fresh : Fresh uuid4 record_id t.drawn t.records
  pub single : (session user_id : ℕ) → count (is_record_of session user_id) t.records ≤ 1

-- A row that the old table finds, the new one finds with its member.
abbrev pub Extends : List AttendanceRecord → List AttendanceRecord → Type 0
Extends t t' =
    (k : ℕ) (x : AttendanceRecord)
    → find_row record_id k t ≡ some x
    → (y : AttendanceRecord) × (find_row record_id k t' ≡ some y) × (y.user_id ≡ x.user_id)

pub FeesFit-Extends :
    (t t' : List AttendanceRecord) (fees : List Fee)
    → Extends t t'
    → FeesFit t fees
    → FeesFit t' fees
FeesFit-Extends t t' fees grows fit = record {
  single = fit.single;
  linked =
      All-imp (IsLinked t) (IsLinked t') fees
        (λ f link a e.
          let l = link a e in
          let (row, found, same) = grows a l.row l.found in
          record { row = row; found = found; owner = same ∙ l.owner; full = l.full })
        fit.linked;
}

module _ (uuid4 : ℕ → ℕ) (t : Attendance) (h : RecordsFit uuid4 t) (r : AttendanceRecord) where
  module _ (stored : Stored t.records r) where
    pub save_record-RecordsFit : RecordsFit uuid4 (save_record r t)
    unfolding save_record
    save_record-RecordsFit = record {
      ids = save-Unique record_id r t.records h.ids;
      fresh = λ k d. find_row-save_none record_id (uuid4 k) r t.records (h.fresh k d);
      single = λ s u.
          let kept : is_record_of s u r ≡ is_record_of s u stored.row =
            rw (stored.same_session, stored.same_user) refl in
          ground (
            arith,
            h.single s u,
            count-save (is_record_of s u) record_id r stored.row t.records stored.found kept,
          );
    }

    pub save_record-Stored : Stored (save_record r t).records r
    unfolding save_record
    save_record-Stored = record {
      row = r;
      found = find_row-save_self record_id r.id r stored.row t.records refl stored.found;
      same_session = refl;
      same_user = refl;
    }

    pub save_record-Extends : Extends t.records (save_record r t).records
    unfolding save_record
    save_record-Extends k x e = elim (Bool-cases (r.id == k)) [
      | inl hit ↦
          let met : r.id ≡ k = ground (arith, hit) in
          let row : stored.row ≡ x =
            same_row (find_row record_id k t.records) stored.row x (rw met at stored.found) e in
          (
            r,
            find_row-save_self record_id k r x t.records met e,
            rw (sym row) (sym stored.same_user),
          )
      | inr miss ↦ (x, find_row-save_ne record_id k r t.records (ground (arith, miss)) ∙ e, refl)
    ]

  module _ (drawn : r.id ≡ uuid4 t.drawn) where
    abbrev grown : Attendance
    grown = record t { records = t.records ++ r ∷ []; drawn = t.drawn + 1 }

    pub append_record-RecordsFit :
        NeverRepeats uuid4
        → record_of r.session_id r.user_id t.records ≡ none
        → RecordsFit uuid4 grown
    unfolding record_of
    append_record-RecordsFit inj absent = record {
      ids =
          drawn-Unique uuid4 record_id t.drawn t.drawn t.records (omega arith) h.fresh r drawn
            h.ids;
      fresh =
          drawn-Fresh uuid4 record_id t.drawn t.drawn t.records (omega arith) h.fresh r drawn inj;
      single = λ s u. ground (
        arith,
        h.single s u,
        count-append (is_record_of s u) t.records r,
        count-none (is_record_of r.session_id r.user_id) t.records absent,
      );
    }

    pub append_record-Extends : Extends t.records grown.records
    append_record-Extends k x e =
        (x, ground (arith, find_row-append record_id k r t.records, e), refl)

    pub append_record-Stored : Stored grown.records r
    append_record-Stored = record {
      row = r;
      found = ground (
        arith,
        find_row-append record_id r.id r t.records,
        rw (sym drawn) at (h.fresh t.drawn (omega arith)),
      );
      same_session = refl;
      same_user = refl;
    }
