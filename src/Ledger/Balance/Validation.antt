-- ===== src/Ledger/Balance/Validation.antt =====
-- The write of `validate_payment` on a consistent ledger.
use enactspace.People.Models.{User}
use enactspace.Ledger.Models.{PaymentAllocation}
use enactspace.Ledger.Balance.Settles.{Settles}
use enactspace.Ledger.Balance.Allocation.{allocated, allocate-Settles}
use enactspace.Ledger.Accounts.{allocate_payment_to_unpaid_fees}
use enactspace.Ledger.Payments.{validated_payment}
use enactspace.Shared.{ℕ, ◌+◌, ◌≤◌, ◌≡◌, refl, ◌∙◌, some, List, ◌==◌, arith, if◌then◌else◌}
use enactspace.Shared.Env.{Env}
use enactspace.Shared.Table.{find_row, sum_by, Unique, All}
use enactspace.Shared.Table.Laws.{sum_by-append, sum_by-save, save-Unique, find_row-save_none}
use enactspace.Ledger.Models.{FinancialAccount, Payment, PaymentStatus, Ledger}
use enactspace.Ledger.Accounts.{update_account, credit, save_payment}
use enactspace.Ledger.Payments.{settle_payment}
use enactspace.Ledger.Balance.{
  fee_id, payment_id, NeverRepeats, KeyedAccounts, InRange, balance_of, total_paid_of, due_of,
  credit_of, cash_of, payment_income, IsConsistent,
}
use enactspace.Ledger.Balance.Keys.{KeyedAccounts-later}
use enactspace.Ledger.Balance.Accounts.{
  KeepsKeys, balance_of-updated, total_paid_of-updated, ensured-balance, updated-KeyedAccounts,
  updated-rest,
}

module _ (env : Env) (inj : NeverRepeats env.uuid4) (l : Ledger) (h : IsConsistent env.uuid4 l)
    (user : User) (payment : Payment)
    (found : find_row payment_id payment.id l.payments ≡ some payment)
    (pending : payment.status ≡ PaymentStatus.pending) where
  abbrev u : ℕ
  u = payment.user_id

  abbrev payment' : Payment
  payment' = validated_payment env user payment

  abbrev marked : Ledger
  marked = save_payment payment' l

  abbrev allocations : List PaymentAllocation
  allocations = (allocate_payment_to_unpaid_fees env payment' marked).0

  abbrev allocating : Ledger
  allocating = (allocate_payment_to_unpaid_fees env payment' marked).1

  abbrev write : FinancialAccount → FinancialAccount
  write = credit env payment.amount (allocated allocations)

  abbrev credited : Ledger
  credited = update_account env u write allocating

  keeps : KeepsKeys write
  keeps a = (refl, refl)

  pub settles : Settles env u (allocated allocations) marked allocating
  unfolding validated_payment save_payment
  settles = allocate-Settles env payment' marked h.fees.ids h.range

  keyed : KeyedAccounts env.uuid4 allocating
  unfolding save_payment
  keyed = KeyedAccounts-later env.uuid4 l allocating settles.drawn settles.accounts h.accounts

  same :
      (credited.fees ≡ allocating.fees)
      × (credited.payments ≡ marked.payments)
      × (credited.transactions ≡ l.transactions)
      × (l.drawn ≤ credited.drawn)
  unfolding save_payment
  same =
      let (fees, payments, _, transactions, later) = updated-rest env u allocating write keeps in
      (
        fees,
        payments ∙ settles.payments,
        transactions ∙ settles.transactions,
        omega (arith, later, settles.drawn),
      )

  -- the row of the payment, as the sums see it before and after
  pub marked-credit :
      (v : ℕ)
      → sum_by (credit_of v) marked.payments
        ≡ sum_by (credit_of v) l.payments + (if u == v then payment.amount else 0)
  unfolding save_payment validated_payment
  marked-credit v =
      unfold credit_of in
      ground (arith, sum_by-save payment_id (credit_of v) payment' payment l.payments found)

  marked-cash : sum_by cash_of marked.payments ≡ sum_by cash_of l.payments + payment.amount
  unfolding save_payment validated_payment
  marked-cash =
      unfold cash_of in
      ground (arith, sum_by-save payment_id cash_of payment' payment l.payments found)

  pub settled_balance : (v : ℕ) → balance_of v credited ≡ due_of v allocating
  unfolding save_payment
  settled_balance v = rw (balance_of-updated env u allocating write keeps v inj keyed) (
      ground (
        arith,
        ensured-balance env u allocating,
        settles.accounts,
        h.balanced v,
        h.balanced u,
        settles.due,
        settles.others v,
      ))

  pub settled_credit : (v : ℕ) → total_paid_of v credited ≡ sum_by (credit_of v) marked.payments
  unfolding save_payment
  settled_credit v = rw (total_paid_of-updated env u allocating write keeps v inj keyed) (
      ground (
        arith,
        ensured-balance env u allocating,
        settles.accounts,
        h.credited v,
        h.credited u,
        marked-credit v,
      ))

  pub settle_payment-IsConsistent : IsConsistent env.uuid4 (settle_payment env user payment l).1
  unfolding settle_payment
  settle_payment-IsConsistent =
      let l' = (settle_payment env user payment l).1 in
      let (fees, payments, transactions, later) = same in
      record {
        accounts =
            KeyedAccounts-later env.uuid4 credited l' (omega arith) refl
              (updated-KeyedAccounts env u allocating write keeps inj keyed);
        fees = record {
          ids = rw fees (settles.ids h.fees.ids);
          fresh = λ k d. rw fees (settles.fresh (env.uuid4 k) (h.fees.fresh k (omega arith)));
        };
        payments = record {
          ids = rw payments (save-Unique payment_id payment' l.payments h.payments.ids);
          fresh = λ k d. rw payments (
              find_row-save_none payment_id (env.uuid4 k) payment' l.payments
                (h.payments.fresh k (omega arith)));
        };
        range = rw fees (settles.range h.range);
        balanced = λ v. rw (settled_balance v, fees) refl;
        credited = λ v. rw (settled_credit v, payments) refl;
        booked =
            rw (transactions, payments, sum_by-append)
              (unfold payment_income sum_by in ground (arith, marked-cash, h.booked));
      }

-- Of the payments, `validate_payment` writes the validated one alone.
pub settle_payment-payments :
    (env : Env) (user : User) (payment : Payment) (l : Ledger)
    → Unique fee_id l.fees
    → All InRange l.fees
    → (settle_payment env user payment l).1.payments
      ≡ (save_payment (validated_payment env user payment) l).payments
unfolding settle_payment save_payment
settle_payment-payments env user payment l ids range =
    let payment' = validated_payment env user payment in
    let marked = save_payment payment' l in
    let (allocations, l') = allocate_payment_to_unpaid_fees env payment' marked in
    (updated-rest env payment.user_id l' (credit env payment.amount (allocated allocations))
      (λ a. (refl, refl))).1
    ∙ (allocate-Settles env payment' marked ids range).payments
