-- ===== src/Ledger/Models.antt =====
-- The tables of models/finance.py. Amounts are `Numeric(12, 2)` columns, counted in hundredths;
-- identifiers and times are numbers.
use enactspace.Shared.{ℕ, String, Bool, true, false, Option, List}

pub record FinancialAccount : Type 0 where
  pub id : ℕ
  pub user_id : ℕ
  pub balance_due : ℕ
  pub total_paid : ℕ
  pub updated_at : ℕ

-- the column `status` of `Fee`, by VALID_FEE_STATUSES
pub data FeeStatus : Type 0 where
  unpaid partial paid cancelled : FeeStatus

pub record Fee : Type 0 where
  pub id : ℕ
  pub user_id : ℕ
  pub season_id : Option ℕ
  pub type : String
  pub category : Option String
  pub label : String
  pub description : Option String
  pub amount : ℕ
  pub amount_paid : ℕ
  pub currency : String
  pub status : FeeStatus
  pub due_date : Option ℕ
  pub paid_at : Option ℕ
  pub cancelled_at : Option ℕ
  pub related_attendance_id : Option ℕ
  pub source_type : Option String
  pub source_id : Option ℕ
  pub proof_file_id : Option ℕ
  pub created_by : Option ℕ
  pub created_at : ℕ
  pub updated_at : ℕ

-- the values that the code gives to the column `status` of `Payment`
pub data PaymentStatus : Type 0 where
  pending validated rejected cancelled : PaymentStatus

pub record Payment : Type 0 where
  pub id : ℕ
  pub user_id : ℕ
  pub amount : ℕ
  pub currency : String
  pub method : String
  pub status : PaymentStatus
  pub reference : Option String
  pub proof_url : Option String
  pub proof_file_id : Option ℕ
  pub validated_by : Option ℕ
  pub validated_at : Option ℕ
  pub rejected_at : Option ℕ
  pub rejection_reason : Option String
  pub receipt_url : Option String
  pub receipt_file_id : Option ℕ
  pub created_at : ℕ

pub record PaymentAllocation : Type 0 where
  pub id : ℕ
  pub payment_id : ℕ
  pub fee_id : ℕ
  pub amount : ℕ
  pub created_at : ℕ

-- the column `type` of `ClubTransaction`, as `create_club_transaction` restricts it
pub data TransactionType : Type 0 where
  income expense : TransactionType

pub record ClubTransaction : Type 0 where
  pub id : ℕ
  pub season_id : Option ℕ
  pub type : TransactionType
  pub category : Option String
  pub label : String
  pub description : Option String
  pub amount : ℕ
  pub currency : String
  pub project_id : Option ℕ
  pub pole_id : Option ℕ
  pub payment_id : Option ℕ
  pub proof_url : Option String
  pub proof_file_id : Option ℕ
  pub created_by : Option ℕ
  pub validated_by : Option ℕ
  pub created_at : ℕ

-- The tables, with the number of identifiers drawn for their rows.
pub record Ledger : Type 0 where
  pub accounts : List FinancialAccount
  pub fees : List Fee
  pub payments : List Payment
  pub allocations : List PaymentAllocation
  pub transactions : List ClubTransaction
  pub drawn : ℕ

-- `fee.status in {"unpaid", "partial"}`
abbrev pub is_open : FeeStatus → Bool
is_open FeeStatus.unpaid = true
is_open FeeStatus.partial = true
is_open FeeStatus.paid = false
is_open FeeStatus.cancelled = false

abbrev pub is_paid : FeeStatus → Bool
is_paid FeeStatus.paid = true
is_paid _ = false

abbrev pub fee_status_text : FeeStatus → String
fee_status_text FeeStatus.unpaid = "unpaid"
fee_status_text FeeStatus.partial = "partial"
fee_status_text FeeStatus.paid = "paid"
fee_status_text FeeStatus.cancelled = "cancelled"

abbrev pub payment_status_text : PaymentStatus → String
payment_status_text PaymentStatus.pending = "pending"
payment_status_text PaymentStatus.validated = "validated"
payment_status_text PaymentStatus.rejected = "rejected"
payment_status_text PaymentStatus.cancelled = "cancelled"
