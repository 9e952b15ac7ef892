-- ===== src/Ledger/Balance.antt =====
-- What the ledger promises: a member's balance is what the member's open fees still lack, and the
-- credits and the cash book are those of the validated payments.
pub mod Accounts
pub mod Settles
pub mod Allocation
pub mod Keys
pub mod Keeps
pub mod Validation
pub mod Cancellation
pub mod Figures
pub mod Totals
use enactspace.Shared.{
  ℕ, ◌+◌, ◌-◌, ◌≤◌, ◌≡◌, Bool, ◌&&◌, Option, none, some, List, ◌==◌, is_none, if◌then◌else◌,
}
use enactspace.Shared.Table.{All, find_row, sum_by, Unique}
use enactspace.Ledger.Models.{
  FinancialAccount, Fee, Payment, PaymentStatus, ClubTransaction, Ledger, is_open,
}
use enactspace.Ledger.Accounts.{account_of}

abbrev pub account_id : FinancialAccount → ℕ
account_id a = a.id

abbrev pub account_user : FinancialAccount → ℕ
account_user a = a.user_id

abbrev pub fee_id : Fee → ℕ
fee_id f = f.id

abbrev pub payment_id : Payment → ℕ
payment_id p = p.id

-- `uuid4` never gives a value twice.
abbrev pub NeverRepeats : (ℕ → ℕ) → Type 0
NeverRepeats uuid4 = (i j : ℕ) → uuid4 i ≡ uuid4 j → i ≡ j

-- The identifiers that are still to be drawn are not in a table.
abbrev pub Fresh {ℓ} : {A : Type ℓ} → (ℕ → ℕ) → (A → ℕ) → ℕ → List A → Type ℓ
Fresh uuid4 key drawn t = (k : ℕ) → drawn ≤ k → find_row key (uuid4 k) t ≡ none

-- The primary key and the unique column of the accounts.
pub record KeyedAccounts (uuid4 : ℕ → ℕ) (l : Ledger) : Type 0 where
  pub ids : Unique account_id l.accounts
  pub users : Unique account_user l.accounts
  pub fresh : Fresh uuid4 account_id l.drawn l.accounts

pub record KeyedFees (uuid4 : ℕ → ℕ) (l : Ledger) : Type 0 where
  pub ids : Unique fee_id l.fees
  pub fresh : Fresh uuid4 fee_id l.drawn l.fees

pub record KeyedPayments (uuid4 : ℕ → ℕ) (l : Ledger) : Type 0 where
  pub ids : Unique payment_id l.payments
  pub fresh : Fresh uuid4 payment_id l.drawn l.payments

abbrev pub due_in : Option FinancialAccount → ℕ
due_in none = 0
due_in (some a) = a.balance_due

abbrev pub paid_in : Option FinancialAccount → ℕ
paid_in none = 0
paid_in (some a) = a.total_paid

-- What the account of a member says is due, and paid: nothing where there is no account.
abbrev pub balance_of : ℕ → Ledger → ℕ
balance_of u l = due_in (account_of u l.accounts)

abbrev pub total_paid_of : ℕ → Ledger → ℕ
total_paid_of u l = paid_in (account_of u l.accounts)

-- What a fee adds to the debt of the member `u`.
unfoldable pub fee_due : ℕ → Fee → ℕ
fee_due u f = if f.user_id == u && is_open f.status then f.amount - f.amount_paid else 0

abbrev pub due_of : ℕ → Ledger → ℕ
due_of u l = sum_by (fee_due u) l.fees

-- What a payment adds to the credits of the member `u`.
unfoldable pub credit_of : ℕ → Payment → ℕ
credit_of u p = elim p.status [
  | PaymentStatus.validated ↦ (if p.user_id == u then p.amount else 0)
  | _ ↦ 0
]

-- What a payment adds to the cash book.
unfoldable pub cash_of : Payment → ℕ
cash_of p = elim p.status [ PaymentStatus.validated ↦ p.amount | _ ↦ 0 ]

-- What a line of the cash book owes to a payment.
unfoldable pub payment_income : ClubTransaction → ℕ
payment_income t = if is_none t.payment_id then 0 else t.amount

-- The check constraint of `Fee`.
abbrev pub InRange : Fee → Type 0
InRange f = f.amount_paid ≤ f.amount

pub record IsConsistent (uuid4 : ℕ → ℕ) (l : Ledger) : Type 0 where
  pub accounts : KeyedAccounts uuid4 l
  pub fees : KeyedFees uuid4 l
  pub payments : KeyedPayments uuid4 l
  pub range : All InRange l.fees
  pub balanced : (u : ℕ) → balance_of u l ≡ due_of u l
  pub credited : (u : ℕ) → total_paid_of u l ≡ sum_by (credit_of u) l.payments
  pub booked : sum_by payment_income l.transactions ≡ sum_by cash_of l.payments
