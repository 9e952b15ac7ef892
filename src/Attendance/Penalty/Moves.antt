-- ===== src/Attendance/Penalty/Moves.antt =====
-- Fees that change with the balance of one member: what the change adds to the member's debt is what
-- the write adds to the account.
use enactspace.Shared.{ℕ, ◌+◌, ◌-◌, ◌≤◌, ◌≡◌, refl, ◌==◌, arith, if◌then◌else◌}
use enactspace.Shared.Env.{Env}
use enactspace.Shared.Table.{All}
use enactspace.Ledger.Models.{FinancialAccount, Ledger}
use enactspace.Ledger.Accounts.{update_account}
use enactspace.Ledger.Balance.{
  NeverRepeats, KeyedAccounts, KeyedFees, InRange, balance_of, total_paid_of, due_of, IsConsistent,
}
use enactspace.Ledger.Balance.Keys.{KeyedAccounts-later, KeyedFees-later, KeyedPayments-later}
use enactspace.Ledger.Balance.Accounts.{
  ensured, KeepsKeys, balance_of-updated, total_paid_of-updated, ensured-balance,
  updated-KeyedAccounts, updated-rest,
}

-- The tables that a change of fees leaves alone.
pub record OnlyFees (l l1 : Ledger) : Type 0 where
  pub accounts : l1.accounts ≡ l.accounts
  pub payments : l1.payments ≡ l.payments
  pub transactions : l1.transactions ≡ l.transactions
  pub later : l.drawn ≤ l1.drawn

-- The debt of the member `u` loses `gone` and gains `due`, that of the others stays.
abbrev pub MovesDebt : ℕ → ℕ → ℕ → Ledger → Ledger → Type 0
MovesDebt u gone due l l1 =
    (v : ℕ) → due_of v l1 + (if u == v then gone else 0) ≡ due_of v l + (if u == v then due else 0)

-- The write does to an account what the change does to the debt.
pub record Rebalances (gone due : ℕ) (write : FinancialAccount → FinancialAccount) : Type 0 where
  pub keeps : KeepsKeys write
  pub balance : (a : FinancialAccount) → (write a).balance_due ≡ a.balance_due + due - gone
  pub credit : (a : FinancialAccount) → (write a).total_paid ≡ a.total_paid

-- A consistent ledger, in which the balance of the member has moved.
pub record Moved (uuid4 : ℕ → ℕ) (u gone due : ℕ) (l l' : Ledger) : Type 0 where
  pub consistent : IsConsistent uuid4 l'
  pub balance :
      (v : ℕ) → balance_of v l' ≡ (if u == v then balance_of v l + due - gone else balance_of v l)

pub unmoved : (uuid4 : ℕ → ℕ) (u : ℕ) (l : Ledger) → IsConsistent uuid4 l → Moved uuid4 u 0 0 l l
unmoved uuid4 u l h = record { consistent = h; balance = λ v. ground arith }

module _ (env : Env) (inj : NeverRepeats env.uuid4) (l l1 : Ledger) (h : IsConsistent env.uuid4 l)
    (only : OnlyFees l l1) (fees : KeyedFees env.uuid4 l1) (range : All InRange l1.fees)
    (u gone due : ℕ) (write : FinancialAccount → FinancialAccount)
    (moves : MovesDebt u gone due l l1) (rebalances : Rebalances gone due write) where
  abbrev l' : Ledger
  l' = update_account env u write l1

  keyed : KeyedAccounts env.uuid4 l1
  keyed = KeyedAccounts-later env.uuid4 l l1 only.later only.accounts h.accounts

  same :
      (l'.fees ≡ l1.fees)
      × (l'.payments ≡ l1.payments)
      × (l'.transactions ≡ l1.transactions)
      × (l1.drawn ≤ l'.drawn)
  same =
      let (fees, payments, _, transactions, later) = updated-rest env u l1 write rebalances.keeps in
      (fees, payments, transactions, later)

  same_balance : (v : ℕ) → balance_of v l1 ≡ balance_of v l
  same_balance v = rw only.accounts refl

  same_credit : (v : ℕ) → total_paid_of v l1 ≡ total_paid_of v l
  same_credit v = rw only.accounts refl

  moved_balance :
      (v : ℕ) → balance_of v l' ≡ (if u == v then balance_of v l + due - gone else balance_of v l)
  moved_balance v = rw (balance_of-updated env u l1 write rebalances.keeps v inj keyed) (
      ground (
        arith,
        rebalances.balance (ensured env u l1),
        ensured-balance env u l1,
        same_balance u,
        same_balance v,
      ))

  moved_credit : (v : ℕ) → total_paid_of v l' ≡ total_paid_of v l
  moved_credit v = rw (total_paid_of-updated env u l1 write rebalances.keeps v inj keyed) (
      ground (
        arith,
        rebalances.credit (ensured env u l1),
        ensured-balance env u l1,
        same_credit u,
        same_credit v,
      ))

  moved-IsConsistent : IsConsistent env.uuid4 l'
  moved-IsConsistent =
      let (same_fees, payments, transactions, later) = same in
      record {
        accounts = updated-KeyedAccounts env u l1 write rebalances.keeps inj keyed;
        fees = KeyedFees-later env.uuid4 l1 l' later same_fees fees;
        payments =
            KeyedPayments-later env.uuid4 l l' (omega (arith, later, only.later))
              (rw (payments, only.payments) refl) h.payments;
        range = rw same_fees range;
        balanced = λ v. rw same_fees (ground (arith, moved_balance v, moves v, h.balanced v));
        credited = λ v. rw (moved_credit v, payments, only.payments) (h.credited v);
        booked = rw (transactions, payments, only.transactions, only.payments) h.booked;
      }

  pub moves-Moved : Moved env.uuid4 u gone due l l'
  moves-Moved = record { consistent = moved-IsConsistent; balance = moved_balance }
