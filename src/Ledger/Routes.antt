-- ===== src/Ledger/Routes.antt =====
-- The finance routes that write the ledger, as requests, and runs of them one after the other.
pub mod Effects
pub mod Consistency
pub mod Statistics
pub mod Finality
pub mod Guards
pub mod Refused
pub mod Again
use enactspace.Shared.{ℕ, String, Bool, true, false, ◌≡◌, Option, none, some}
use enactspace.Shared.Env.{Env}
use enactspace.Shared.Table.{find_row}
use enactspace.People.Models.{User}
use enactspace.Ledger.Models.{Fee, FeeStatus}
use enactspace.Ledger.Requests.{FeeCreate, FeeBulkCreate, PaymentCreate}
use enactspace.Ledger.CashBook
use enactspace.Ledger.CashBook.{ClubTransactionCreate}
use enactspace.Ledger.BulkFees
use enactspace.Ledger.Fees
use enactspace.Ledger.Payments
use enactspace.Ledger.Refusals
use enactspace.Server.Models.{Db}
use enactspace.Server.Handler.{Error, Result, ok, err, reply, after}

pub data FinanceRequest : Type 0 where
  create_fee : FeeCreate → FinanceRequest
  create_bulk_fees : FeeBulkCreate → FinanceRequest
  create_manual_penalty : FeeCreate → FinanceRequest
  cancel_fee : (fee_id : ℕ) (reason : String) → FinanceRequest
  create_payment : PaymentCreate → FinanceRequest
  validate_payment : (payment_id : ℕ) → FinanceRequest
  reject_payment : (payment_id : ℕ) (reason : String) → FinanceRequest
  cancel_payment : (payment_id : ℕ) → FinanceRequest
  create_club_transaction : ClubTransactionCreate → FinanceRequest

-- A request with its sender, the address it came from and the time at which it is served.
pub record Call : Type 0 where
  pub utcnow : ℕ
  pub current_user : User
  pub ip : Option String
  pub request : FinanceRequest

abbrev pub error_of : {A : Type 0} → Result A → Option Error
error_of (ok a) = none
error_of (err e) = some e

abbrev pub is_cancelled : FeeStatus → Bool
is_cancelled FeeStatus.cancelled = true
is_cancelled _ = false

-- The request is no second cancellation of a fee.
abbrev pub CancelsOnce : FinanceRequest → Db → Type 0
CancelsOnce (FinanceRequest.cancel_fee fee_id reason) db =
    (fee : Fee)
    → find_row (λ (f : Fee). f.id) fee_id db.ledger.fees ≡ some fee
    → is_cancelled fee.status ≡ false
CancelsOnce _ db = Unit

module _ (env : Env) where
  -- What the service of a call leaves in the database.
  unfoldable pub serve : Call → Db → Db
  serve c db =
      let env' = record env { utcnow = c.utcnow } in
      let user = c.current_user in
      elim c.request [
        | FinanceRequest.create_fee payload ↦ after (Fees.create_fee env' user payload) db
        | FinanceRequest.create_bulk_fees payload ↦
            after (BulkFees.create_bulk_fees env' user payload) db
        | FinanceRequest.create_manual_penalty payload ↦
            after (Fees.create_manual_penalty env' user payload) db
        | FinanceRequest.cancel_fee fee_id reason ↦
            after (Fees.cancel_fee env' user c.ip fee_id reason) db
        | FinanceRequest.create_payment payload ↦
            after (Payments.create_payment env' user payload) db
        | FinanceRequest.validate_payment payment_id ↦
            after (Payments.validate_payment env' user c.ip payment_id) db
        | FinanceRequest.reject_payment payment_id reason ↦
            after (Refusals.reject_payment env' user c.ip payment_id reason) db
        | FinanceRequest.cancel_payment payment_id ↦
            after (Refusals.cancel_payment env' user c.ip payment_id) db
        | FinanceRequest.create_club_transaction payload ↦
            after (CashBook.create_club_transaction env' user payload) db
      ]

  -- The error that the service of a call answers with, if it is refused.
  unfoldable pub refusal : Call → Db → Option Error
  refusal c db =
      let env' = record env { utcnow = c.utcnow } in
      let user = c.current_user in
      elim c.request [
        | FinanceRequest.create_fee payload ↦
            error_of (reply (Fees.create_fee env' user payload) db)
        | FinanceRequest.create_bulk_fees payload ↦
            error_of (reply (BulkFees.create_bulk_fees env' user payload) db)
        | FinanceRequest.create_manual_penalty payload ↦
            error_of (reply (Fees.create_manual_penalty env' user payload) db)
        | FinanceRequest.cancel_fee fee_id reason ↦
            error_of (reply (Fees.cancel_fee env' user c.ip fee_id reason) db)
        | FinanceRequest.create_payment payload ↦
            error_of (reply (Payments.create_payment env' user payload) db)
        | FinanceRequest.validate_payment payment_id ↦
            error_of (reply (Payments.validate_payment env' user c.ip payment_id) db)
        | FinanceRequest.reject_payment payment_id reason ↦
            error_of (reply (Refusals.reject_payment env' user c.ip payment_id reason) db)
        | FinanceRequest.cancel_payment payment_id ↦
            error_of (reply (Refusals.cancel_payment env' user c.ip payment_id) db)
        | FinanceRequest.create_club_transaction payload ↦
            error_of (reply (CashBook.create_club_transaction env' user payload) db)
      ]

  -- The databases that calls reach, none of which cancels a fee a second time.
  pub data Reaches (db : Db) : Db → Type 0 where
    start : Reaches db db
    then :
        {db' : Db}
        → Reaches db db'
        → (c : Call) → CancelsOnce c.request db'
        → Reaches db (serve c db')
