-- ===== src/Ledger/Accounts.antt =====
-- The helpers of api/routes/finance.py that the handlers share: the account of a member, the status
-- of a fee, and the allocation of a payment to the open fees.
use enactspace.Shared.{
  ℕ, ◌+◌, ◌-◌, min, ◌&&◌, Option, none, some, List, [], ◌∷◌, ◌++◌, ◌==◌, ltb, is_none,
  if◌then◌else◌,
}
use enactspace.Shared.Env.{Env}
use enactspace.Shared.Table.{select, order_by, find_row, save_row}
use enactspace.Ledger.Models.{
  FinancialAccount, Fee, FeeStatus, Payment, PaymentAllocation, Ledger, is_open,
}

-- The write of a loaded fee.
unfoldable pub save_fee : Fee → Ledger → Ledger
save_fee fee l = record l { fees = save_row (λ (f : Fee). f.id) fee l.fees }

-- The write of a loaded account.
unfoldable pub save_account : FinancialAccount → Ledger → Ledger
save_account account l = record l {
  accounts = save_row (λ (a : FinancialAccount). a.id) account l.accounts;
}

-- The write of a loaded payment.
unfoldable pub save_payment : Payment → Ledger → Ledger
save_payment payment l = record l { payments = save_row (λ (p : Payment). p.id) payment l.payments }

-- the query for the account of a member
abbrev pub account_of : ℕ → List FinancialAccount → Option FinancialAccount
account_of = find_row (λ (a : FinancialAccount). a.user_id)

module _ (env : Env) where
  unfoldable pub new_account : ℕ → ℕ → FinancialAccount
  new_account drawn user_id = record {
    id = env.uuid4 drawn;
    user_id = user_id;
    balance_due = 0;
    total_paid = 0;
    updated_at = env.utcnow;
  }

  unfoldable pub ensure_financial_account : ℕ → Ledger → FinancialAccount × Ledger
  unfolding new_account
  ensure_financial_account user_id l = elim (account_of user_id l.accounts) [
    | some account ↦ (account, l)
    | none ↦
        let account = new_account l.drawn user_id in
        (account, record l { accounts = l.accounts ++ account ∷ []; drawn = l.drawn + 1 })
  ]

  unfoldable pub update_fee_status : Fee → Fee
  update_fee_status fee =
      if fee.amount_paid == 0
      then record fee { status = FeeStatus.unpaid; updated_at = env.utcnow }
      else if ltb fee.amount_paid fee.amount
      then record fee { status = FeeStatus.partial; updated_at = env.utcnow }
      else record fee {
        status = FeeStatus.paid;
        paid_at = if is_none fee.paid_at then some env.utcnow else fee.paid_at;
        updated_at = env.utcnow;
      }

  -- The handlers write the fields of the account that `ensure_financial_account` gives.
  unfoldable pub update_account : ℕ → (FinancialAccount → FinancialAccount) → Ledger → Ledger
  unfolding ensure_financial_account save_account
  update_account user_id write l =
      let (account, l') = ensure_financial_account user_id l in save_account (write account) l'

  -- `account.balance_due = float(account.balance_due or 0) + amount`
  abbrev pub charge : ℕ → FinancialAccount → FinancialAccount
  charge amount account = record account {
    balance_due = account.balance_due + amount;
    updated_at = env.utcnow;
  }

  -- `account.total_paid += paid` and `account.balance_due = max(0, balance_due - settled)`: on
  -- natural numbers `-` stops at 0.
  abbrev pub credit : ℕ → ℕ → FinancialAccount → FinancialAccount
  credit paid settled account = record account {
    total_paid = account.total_paid + paid;
    balance_due = account.balance_due - settled;
    updated_at = env.utcnow;
  }

  -- `account.balance_due = max(0, float(account.balance_due or 0) - remaining)`
  abbrev pub discharge : ℕ → FinancialAccount → FinancialAccount
  discharge remaining account = record account {
    balance_due = account.balance_due - remaining;
    updated_at = env.utcnow;
  }

  module _ (payment : Payment) where
    unfoldable pub new_allocation : ℕ → ℕ → ℕ → PaymentAllocation
    new_allocation drawn fee_id amount = record {
      id = env.uuid4 drawn;
      payment_id = payment.id;
      fee_id = fee_id;
      amount = amount;
      created_at = env.utcnow;
    }

    -- The writes of one round of the loop that allocates `amount` to `fee`.
    unfoldable pub allocate_to : Fee → ℕ → Ledger → PaymentAllocation × Ledger
    unfolding new_allocation update_fee_status save_fee
    allocate_to fee amount l =
        let allocation = new_allocation l.drawn fee.id amount in
        (
          allocation,
          save_fee (update_fee_status (record fee { amount_paid = fee.amount_paid + amount }))
              (record l { allocations = l.allocations ++ allocation ∷ []; drawn = l.drawn + 1 }),
        )

    -- The loop over the loaded fees, with what remains of the payment.
    unfoldable pub allocate_loop : ℕ → List Fee → Ledger → List PaymentAllocation × Ledger
    unfolding allocate_to update_fee_status save_fee
    allocate_loop remaining [] l = ([], l)
    allocate_loop remaining (fee ∷ fees) l =
        let fee_remaining : ℕ = fee.amount - fee.amount_paid in
        let allocation_amount : ℕ = min remaining fee_remaining in
        let skipped = allocate_loop remaining fees (save_fee (update_fee_status fee) l) in
        let (allocation, l') = allocate_to fee allocation_amount l in
        let (allocations, l'') = allocate_loop (remaining - allocation_amount) fees l' in
        if remaining == 0
        then ([], l)
        else if fee_remaining == 0
        then skipped
        else (allocation ∷ allocations, l'')

    -- the fees that the payment may settle, in the order of their identifiers
    unfoldable pub open_fees : Ledger → List Fee
    open_fees l =
        order_by (λ (f : Fee). f.id)
          (select (λ f. f.user_id == payment.user_id && is_open f.status) l.fees)

    unfoldable pub allocate_payment_to_unpaid_fees : Ledger → List PaymentAllocation × Ledger
    unfolding allocate_loop open_fees
    allocate_payment_to_unpaid_fees l = allocate_loop payment.amount (open_fees l) l
