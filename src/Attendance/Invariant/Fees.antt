-- ===== src/Attendance/Invariant/Fees.antt =====
-- The sync of a penalty writes at most one fee of its record.
use enactspace.Shared.{
  ℕ, ◌+◌, ◌≤◌, ◌≡◌, ◌-◌, ◌⊎◌, refl, sym, ◌∙◌, inl, inr, true, false, none, some, List, [], ◌∷◌,
  ◌++◌, Option, same_id, arith, Bool-cases, Option-cases, ◌==◌,
}
use enactspace.Shared.Int.{ℤ, nonpositive, to_ℕ}
use enactspace.Shared.Env.{Env}
use enactspace.Shared.Table.{All, find_row, save_row}
use enactspace.Shared.Table.Laws.{All-append, All-save, All-find}
use enactspace.Shared.Table.Queries.{
  first-find_row, count, count-none, count-append, count-save, All-imp,
}
use enactspace.People.Models.{User}
use enactspace.Ledger.Models.{FinancialAccount, Fee, Ledger}
use enactspace.Ledger.Accounts.{update_account, save_fee, discharge, charge}
use enactspace.Ledger.Balance.{fee_id, IsConsistent}
use enactspace.Ledger.Balance.Accounts.{KeepsKeys, updated-rest}
use enactspace.Attendance.Models.{AttendanceRecord, record_id}
use enactspace.Attendance.Penalty.{
  penalty_of, fee_is_cancelled, cancelled_penalty, cancel_penalty, revised_penalty,
  previous_remaining, rebalance, new_penalty, remove_attendance_penalty, remove_found,
  revise_penalty, add_penalty, set_penalty, sync_penalty,
}
use enactspace.Attendance.Penalty.Consistency.{OfRecord, PaidInFull}
use enactspace.Attendance.Invariant.{IsLinked, Stored, is_penalty_of}

-- What the tables of fees and records keep.
pub record FeesFit (t : List AttendanceRecord) (fees : List Fee) : Type 0 where
  pub single : (a : ℕ) → count (is_penalty_of a) fees ≤ 1
  pub linked : All (IsLinked t) fees

same_id-eq : (o : Option ℕ) (a : ℕ) → same_id o (some a) ≡ true → o ≡ some a
same_id-eq none a e = ground (arith, e)
same_id-eq (some b) a e = ground (arith, e)

pub same_row :
    (o : Option AttendanceRecord) (x y : AttendanceRecord) → o ≡ some x → o ≡ some y → x ≡ y
same_row none x y e f = cc
same_row (some z) x y e f = cc

same_value : (a b : ℕ) (o : Option ℕ) → o ≡ some a → o ≡ some b → a ≡ b
same_value a b none e f = cc
same_value a b (some c) e f = cc

Nat-cases : (a b : ℕ) → (a ≡ b) ⊎ (a == b ≡ false)
Nat-cases a b = elim (Bool-cases (a == b)) [ inl h ↦ inl (ground (arith, h)) | inr h ↦ inr h ]

module _ (env : Env) (t : List AttendanceRecord) (r : AttendanceRecord) (stored : Stored t r) where
  -- a fee of the record is one of its member
  linked-OfRecord : (f : Fee) → IsLinked t f → OfRecord r f
  linked-OfRecord f link e =
      let l = link r.id (same_id-eq f.related_attendance_id r.id e) in
      let same = same_row (find_row record_id r.id t) l.row stored.row l.found stored.found in
      let user : l.row.user_id ≡ stored.row.user_id = rw same refl in
      (ground (arith, user, l.owner, stored.same_user), l.full)

  -- a fee of the record that lacks nothing where it says it is paid
  IsLinked-new :
      (f : Fee)
      → f.related_attendance_id ≡ some r.id
      → f.user_id ≡ r.user_id
      → PaidInFull f
      → IsLinked t f
  IsLinked-new f related owner full a e = record {
    row = stored.row;
    found = rw (same_value r.id a f.related_attendance_id related e) at stored.found;
    owner = ground (arith, stored.same_user, owner);
    full = full;
  }

  -- the fee of a link may change its other columns
  IsLinked-changed :
      (f f' : Fee)
      → f'.related_attendance_id ≡ f.related_attendance_id
      → f'.user_id ≡ f.user_id
      → PaidInFull f'
      → IsLinked t f
      → IsLinked t f'
  IsLinked-changed f f' related owner full link a e =
      let l = link a (sym related ∙ e) in
      record { row = l.row; found = l.found; owner = ground (arith, l.owner, owner); full = full }

  module _ (l : Ledger) (h : IsConsistent env.uuid4 l) (fit : FeesFit t l.fees) where
    -- the penalty of the record is written over
    saved_fit :
        (fee fee' : Fee)
        → find_row fee_id fee.id l.fees ≡ some fee
        → fee'.id ≡ fee.id
        → fee'.related_attendance_id ≡ fee.related_attendance_id
        → fee'.user_id ≡ fee.user_id
        → PaidInFull fee'
        → FeesFit t (save_row fee_id fee' l.fees)
    saved_fit fee fee' found id related owner full =
        let at : find_row fee_id fee'.id l.fees ≡ some fee = rw id found in
        record {
          single = λ a.
              let kept : is_penalty_of a fee' ≡ is_penalty_of a fee = rw related refl in
              let n = count-save (is_penalty_of a) fee_id fee' fee l.fees at kept in
              omega (arith, n, fit.single a);
          linked =
              All-save fee_id (IsLinked t) fee' l.fees
                (IsLinked-changed fee fee' related owner full
                  (All-find fee_id (IsLinked t) fee.id l.fees fee fit.linked found))
                fit.linked;
        }

    found_row :
        (fee : Fee) → penalty_of r.id l.fees ≡ some fee → find_row fee_id fee.id l.fees ≡ some fee
    unfolding penalty_of
    found_row fee e = first-find_row (is_penalty_of r.id) fee_id l.fees fee h.fees.ids e

    rest :
        (write : FinancialAccount → FinancialAccount) (l1 : Ledger)
        → KeepsKeys write
        → (update_account env r.user_id write l1).fees ≡ l1.fees
    rest write l1 keeps = (updated-rest env r.user_id l1 write keeps).0

    cancel_fit :
        (fee : Fee)
        → penalty_of r.id l.fees ≡ some fee
        → FeesFit t (cancel_penalty env r.user_id fee l).fees
    unfolding cancel_penalty cancelled_penalty save_fee
    cancel_fit fee e = elim (Bool-cases (fee_is_cancelled fee.status)) [
      | inl c ↦ rw c fit
      | inr c ↦
          rw (c, rest (discharge env (fee.amount - fee.amount_paid)) l (λ a. (refl, refl)))
            (saved_fit fee (cancelled_penalty env fee) (found_row fee e) refl refl refl
              (λ p. ground (arith, p)))
    ]

    revise_fit :
        (amount : ℕ) (fee : Fee)
        → penalty_of r.id l.fees ≡ some fee
        → FeesFit t (revise_penalty env r amount fee l).1.fees
    unfolding revise_penalty revised_penalty save_fee
    revise_fit amount fee e =
        let fee' = revised_penalty env r amount fee in
        rw
          (rest (rebalance env (previous_remaining env fee) (fee'.amount - fee.amount_paid))
            (save_fee fee' l) (λ a. (refl, refl)))
          (saved_fit fee fee' (found_row fee e) refl refl refl (λ p. ground (arith, p)))

    add_fit :
        (current_user : User) (amount : ℕ)
        → penalty_of r.id l.fees ≡ none
        → FeesFit t (add_penalty env current_user r amount l).1.fees
    unfolding add_penalty new_penalty penalty_of
    add_fit current_user amount e =
        let fee = new_penalty env current_user r amount l.drawn in
        let grown : Ledger = record l { fees = l.fees ++ fee ∷ []; drawn = l.drawn + 1 } in
        rw (rest (charge env amount) grown (λ a. (refl, refl))) (record {
          single = λ a.
              let n = count-append (is_penalty_of a) l.fees fee in
              let none_yet = count-none (is_penalty_of r.id) l.fees e in
              let before = fit.single a in
              elim (Nat-cases r.id a) [
                | inl same ↦ ground (arith, n, rw same at none_yet)
                | inr other ↦ ground (arith, n, before, other)
              ];
          linked =
              All-append (IsLinked t) l.fees fee fit.linked
                (IsLinked-new fee refl refl (λ p. ground (arith, p)));
        })

    pub sync_penalty-fit :
        (current_user : User) (amount : ℤ)
        → FeesFit t (sync_penalty env current_user r amount l).1.fees
    unfolding sync_penalty set_penalty remove_attendance_penalty remove_found
    sync_penalty-fit current_user amount = elim (Option-cases (penalty_of r.id l.fees)) [
      | inl e ↦ elim (Bool-cases (nonpositive amount)) [
        | inl z ↦ rw (z, e) fit
        | inr z ↦ rw (z, e) (add_fit current_user (to_ℕ amount) e)
      ]
      | inr (fee, e) ↦ elim (Bool-cases (nonpositive amount)) [
        | inl z ↦ rw (z, e) (cancel_fit fee e)
        | inr z ↦ rw (z, e) (revise_fit (to_ℕ amount) fee e)
      ]
    ]

  pub linked-All-OfRecord : (fees : List Fee) → All (IsLinked t) fees → All (OfRecord r) fees
  linked-All-OfRecord fees h = All-imp (IsLinked t) (OfRecord r) fees linked-OfRecord h
