-- ===== src/Ledger/CashBook.antt =====
-- The cash book of api/routes/finance.py: `create_club_transaction` and the statistics.
use enactspace.Shared.{
  ℕ, ◌+◌, String, Bool, true, false, not, ◌||◌, Option, none, some, List, [], ◌∷◌, ◌++◌, ◌==◌, ltb,
  str_eq, if◌then◌else◌,
}
use enactspace.Shared.Env.{Env}
use enactspace.Shared.Int.{ℤ, nonpositive, to_ℕ, sub_ℕ}
use enactspace.Shared.Table.{select, sum_by, length}
use enactspace.People.Models.{User}
use enactspace.Ledger.Models.{
  FinancialAccount, Fee, Payment, PaymentStatus, ClubTransaction, TransactionType, Ledger, is_open,
}
use enactspace.Ledger.Payments.{is_pending, is_validated}
use enactspace.Ledger.Accounts.{ensure_financial_account}
use enactspace.Server.Handler.{Handler, pure, raise_if, gets, on_ledger, commit, ◌>>=◌, ◌>>◌}
use enactspace.Server.Deps.{require_finance_or_admin, current_active_validated_user}

-- schemas/finance.py
pub record ClubTransactionCreate : Type 0 where
  pub season_id : Option ℕ
  pub type : String
  pub category : Option String
  pub label : String
  pub description : Option String
  pub amount : ℤ
  pub currency : String
  pub project_id : Option ℕ
  pub pole_id : Option ℕ
  pub proof_url : Option String
  pub proof_file_id : Option ℕ

abbrev pub is_income : TransactionType → Bool
is_income TransactionType.income = true
is_income TransactionType.expense = false

abbrev pub is_expense : TransactionType → Bool
is_expense TransactionType.income = false
is_expense TransactionType.expense = true

abbrev pub is_rejected : PaymentStatus → Bool
is_rejected PaymentStatus.rejected = true
is_rejected _ = false

-- the dictionary of `finance_stats_payload`
pub record FinanceStats : Type 0 where
  pub total_due : ℕ
  pub total_paid : ℕ
  pub pending_payment_amount : ℕ
  pub validated_payment_amount : ℕ
  pub pending_payment_count : ℕ
  pub rejected_payment_count : ℕ
  pub debtor_count : ℕ
  pub unpaid_fee_count : ℕ
  pub income : ℕ
  pub expenses : ℕ
  pub cash_balance : ℤ

-- sum(float(x.amount or 0) for x in … if …)
abbrev pub sum_payments : (PaymentStatus → Bool) → List Payment → ℕ
sum_payments p payments =
    sum_by (λ (x : Payment). x.amount) (select (λ (x : Payment). p x.status) payments)

abbrev pub sum_transactions : (TransactionType → Bool) → List ClubTransaction → ℕ
sum_transactions p transactions =
    sum_by (λ (x : ClubTransaction). x.amount)
      (select (λ (x : ClubTransaction). p x.type) transactions)

unfoldable pub finance_stats_payload :
    List FinancialAccount → List Fee → List Payment → List ClubTransaction → FinanceStats
finance_stats_payload accounts fees payments transactions = record {
  total_due = sum_by (λ (a : FinancialAccount). a.balance_due) accounts;
  total_paid = sum_by (λ (a : FinancialAccount). a.total_paid) accounts;
  pending_payment_amount = sum_payments is_pending payments;
  validated_payment_amount = sum_payments is_validated payments;
  pending_payment_count = length (select (λ (x : Payment). is_pending x.status) payments);
  rejected_payment_count = length (select (λ (x : Payment). is_rejected x.status) payments);
  debtor_count = length (select (λ (a : FinancialAccount). ltb 0 a.balance_due) accounts);
  unpaid_fee_count = length (select (λ (f : Fee). is_open f.status) fees);
  income = sum_transactions is_income transactions;
  expenses = sum_transactions is_expense transactions;
  cash_balance =
      sub_ℕ (sum_transactions is_income transactions) (sum_transactions is_expense transactions);
}

module _ (env : Env) where
  unfoldable pub new_transaction :
      User → ClubTransactionCreate → TransactionType → ℕ → ClubTransaction
  new_transaction current_user p type drawn = record {
    id = env.uuid4 drawn;
    season_id = p.season_id;
    type = type;
    category = p.category;
    label = p.label;
    description = p.description;
    amount = to_ℕ p.amount;
    currency = p.currency;
    project_id = p.project_id;
    pole_id = p.pole_id;
    payment_id = none;
    proof_url = p.proof_url;
    proof_file_id = p.proof_file_id;
    created_by = some current_user.id;
    validated_by = none;
    created_at = env.utcnow;
  }

  unfoldable pub add_transaction :
      User → ClubTransactionCreate → TransactionType → Ledger → ClubTransaction × Ledger
  unfolding new_transaction
  add_transaction current_user p type l =
      let t = new_transaction current_user p type l.drawn in
      (t, record l { transactions = l.transactions ++ t ∷ []; drawn = l.drawn + 1 })

  -- `payload.type`, once it is known to be "income" or "expense"
  abbrev pub transaction_type : String → TransactionType
  transaction_type s = if str_eq s "income" then TransactionType.income else TransactionType.expense

  unfoldable pub create_club_transaction : User → ClubTransactionCreate → Handler ClubTransaction
  unfolding require_finance_or_admin
  create_club_transaction current_user payload = do
    require_finance_or_admin env current_user
    raise_if (nonpositive payload.amount) 400 "Le montant doit être supérieur à zéro"
    raise_if (not (str_eq payload.type "income" || str_eq payload.type "expense")) 400
        "Le type doit être income ou expense"
    transaction ← on_ledger (add_transaction current_user payload (transaction_type payload.type))
    commit
    pure transaction

  unfoldable pub get_finance_stats : User → Handler FinanceStats
  unfolding finance_stats_payload require_finance_or_admin
  get_finance_stats current_user = do
    require_finance_or_admin env current_user
    gets (λ db.
        finance_stats_payload db.ledger.accounts db.ledger.fees db.ledger.payments
          db.ledger.transactions)

  -- No commit follows, so an account that is made here is dropped with the session.
  unfoldable pub get_my_finance_stats : User → Handler FinanceStats
  unfolding finance_stats_payload ensure_financial_account current_active_validated_user
  get_my_finance_stats current_user = do
    current_active_validated_user current_user
    account ← on_ledger (ensure_financial_account env current_user.id)
    gets (λ db.
        finance_stats_payload (account ∷ [])
          (select (λ (f : Fee). f.user_id == current_user.id) db.ledger.fees)
          (select (λ (p : Payment). p.user_id == current_user.id) db.ledger.payments) [])
