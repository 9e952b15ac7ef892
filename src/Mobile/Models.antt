-- ===== src/Mobile/Models.antt =====
-- models/mobile_money.py, and `PaymentProviderResult` of services/payments/base.py. The amounts of
-- transactions are whole francs. Of `metadata_json`, the fees that the payer selected are kept: an
-- entry that is no identifier is none.
use enactspace.Shared.{ℕ, String, Bool, Option, List}
use enactspace.Shared.Int.{ℤ}
use enactspace.Shared.Json.{Json}

pub record MobileMoneyTransaction : Type 0 where
  pub id : ℕ
  pub member_id : ℕ
  pub finance_item_id : Option ℕ
  pub payment_id : Option ℕ
  pub provider : String
  pub provider_transaction_id : Option String
  pub provider_invoice_token : Option String
  pub idempotency_key : String
  pub amount : ℕ
  pub currency : String
  pub phone_number_masked : Option String
  pub channel : Option String
  pub status : String
  pub provider_status : Option String
  pub checkout_url : Option String
  pub failure_code : Option String
  pub failure_message : Option String
  pub created_at : ℕ
  pub updated_at : ℕ
  pub expires_at : Option ℕ
  pub completed_at : Option ℕ
  pub cancelled_at : Option ℕ
  pub refunded_at : Option ℕ
  pub last_verified_at : Option ℕ
  pub finance_item_ids : List (Option ℕ)

pub record MobileMoneyTransactionEvent : Type 0 where
  pub id : ℕ
  pub transaction_id : ℕ
  pub event_type : String
  pub old_status : Option String
  pub new_status : Option String
  pub provider_event_id : Option String
  pub received_at : ℕ
  pub processed_at : ℕ
  pub is_duplicate : Bool
  pub error_message : Option String
  pub metadata_json : List (String × Json)

-- The tables, with the number of identifiers drawn for their rows.
pub record MobileMoney : Type 0 where
  pub transactions : List MobileMoneyTransaction
  pub events : List MobileMoneyTransactionEvent
  pub drawn : ℕ

-- `Decimal(str(value))` of an amount that the provider reports
pub data ProviderAmount : Type 0 where
  absent invalid fractional : ProviderAmount
  whole : ℤ → ProviderAmount

-- `PaymentProviderResult`, with the entries of its metadata that are read
pub record PaymentProviderResult : Type 0 where
  pub status : String
  pub provider_token : Option String
  pub provider_transaction_id : Option String
  pub provider_status : Option String
  -- metadata: "event_id", "amount", "currency", and the transaction of "custom_data", where it is an
  -- identifier
  pub event_id : Option String
  pub amount : ProviderAmount
  pub currency : Option String
  pub internal_transaction_id : Option ℕ
