-- ===== src/Ledger/Balance/Cancellation.antt =====
-- The write of `cancel_fee` on a consistent ledger, for a fee that is open and for one that was
-- cancelled before.

use enactspace.Shared.{String}
use enactspace.Ledger.Models.{FeeStatus}
use enactspace.Ledger.Balance.Allocation.{lack}
use enactspace.Shared.Table.Laws.{All-save, All-find}
use enactspace.Shared.{ℕ, ◌+◌, ◌-◌, ◌≤◌, ◌≡◌, refl, true, some, ◌==◌, arith, if◌then◌else◌}
use enactspace.Shared.Env.{Env}
use enactspace.Shared.Table.{find_row}
use enactspace.Shared.Table.Laws.{sum_by-save, save-Unique, find_row-save_none}
use enactspace.Ledger.Models.{FinancialAccount, Fee, Ledger, is_open}
use enactspace.Ledger.Accounts.{discharge, save_fee}
use enactspace.Ledger.Fees.{settle_cancelled, cancelled_fee}
use enactspace.Ledger.Balance.{
  fee_id, NeverRepeats, KeyedAccounts, InRange, balance_of, total_paid_of, due_of, fee_due,
  IsConsistent,
}
use enactspace.Ledger.Balance.Keys.{KeyedAccounts-later, KeyedPayments-later}
use enactspace.Ledger.Balance.Accounts.{
  KeepsKeys, balance_of-updated, total_paid_of-updated, ensured-balance, updated-KeyedAccounts,
  updated-rest,
}

module _ (env : Env) (inj : NeverRepeats env.uuid4) (l : Ledger) (h : IsConsistent env.uuid4 l)
    (reason : String) (fee : Fee) (found : find_row fee_id fee.id l.fees ≡ some fee) where
  abbrev u : ℕ
  u = fee.user_id

  abbrev fee' : Fee
  fee' = cancelled_fee env reason fee

  abbrev marked : Ledger
  marked = save_fee fee' l

  abbrev write : FinancialAccount → FinancialAccount
  write = discharge env (lack fee)

  abbrev after_cancel : Ledger
  after_cancel = settle_cancelled env reason fee l

  keeps : KeepsKeys write
  keeps a = (refl, refl)

  keyed : KeyedAccounts env.uuid4 marked
  unfolding save_fee
  keyed = KeyedAccounts-later env.uuid4 l marked (omega arith) refl h.accounts

  same :
      (after_cancel.fees ≡ marked.fees)
      × (after_cancel.payments ≡ l.payments)
      × (after_cancel.transactions ≡ l.transactions)
      × (l.drawn ≤ after_cancel.drawn)
  unfolding settle_cancelled
  same =
      let (fees, payments, _, transactions, later) = updated-rest env u marked write keeps in
      (fees, payments, transactions, later)

  balance :
      (v : ℕ)
      → balance_of v after_cancel ≡ (if u == v then balance_of v l - lack fee else balance_of v l)
  unfolding settle_cancelled
  balance v =
      rw (balance_of-updated env u marked write keeps v inj keyed)
        (ground (arith, ensured-balance env u marked))

  same_credit : (v : ℕ) → total_paid_of v after_cancel ≡ total_paid_of v l
  unfolding settle_cancelled
  same_credit v =
      rw (total_paid_of-updated env u marked write keeps v inj keyed)
        (ground (arith, ensured-balance env u marked))

  -- a cancelled fee is no debt
  debt : (v : ℕ) → due_of v after_cancel + fee_due v fee ≡ due_of v l
  unfolding cancelled_fee save_fee
  debt v =
      rw same.0
        (unfold fee_due in ground (arith, sum_by-save fee_id (fee_due v) fee' fee l.fees found))

  pub cancel_open-IsConsistent : is_open fee.status ≡ true → IsConsistent env.uuid4 after_cancel
  unfolding cancelled_fee save_fee
  cancel_open-IsConsistent is_due =
      let (fees, payments, transactions, later) = same in
      record {
        accounts =
            unfold settle_cancelled in updated-KeyedAccounts env u marked write keeps inj keyed;
        fees = record {
          ids = rw fees (save-Unique fee_id fee' l.fees h.fees.ids);
          fresh = λ k d. rw fees (
              find_row-save_none fee_id (env.uuid4 k) fee' l.fees
                (h.fees.fresh k (omega (arith, later))));
        };
        payments = KeyedPayments-later env.uuid4 l after_cancel later payments h.payments;
        range = rw fees (
            All-save fee_id InRange fee' l.fees
              (All-find fee_id InRange fee.id l.fees fee h.range found) h.range);
        balanced = λ v. unfold fee_due in ground (arith, balance v, debt v, h.balanced v);
        credited = λ v. rw (same_credit v, payments) (h.credited v);
        booked = rw (transactions, payments) h.booked;
      }

  -- A second cancellation of a cancelled fee, on a consistent ledger, leaves the member's balance
  -- short of the member's debt by what the fee lacked, down to 0. `uuid4` gives no value twice.
  pub cancel_again-understates :
      fee.status ≡ FeeStatus.cancelled
      → balance_of u after_cancel ≡ due_of u after_cancel - lack fee
  cancel_again-understates was_cancelled =
      unfold fee_due in ground (arith, balance u, debt u, h.balanced u)
