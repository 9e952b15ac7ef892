-- ===== src/Ledger/Routes/Refused.antt =====
-- Finance requests that are refused, and the database after them.
use enactspace.Shared.{ℕ, ◌≡◌, refl, String, List, Option, some, inl, inr, arith, Option-cases}
use enactspace.Shared.Env.{Env}
use enactspace.Shared.Table.{find_row}
use enactspace.People.Models.{User}
use enactspace.Ledger.Models.{Fee}
use enactspace.Ledger.Requests.{FeeCreate, FeeBulkCreate, FeeRecord}
use enactspace.Ledger.CashBook.{create_club_transaction}
use enactspace.Ledger.Fees.{
  create_fee, create_manual_penalty, cancel_fee, create_fee_record, existing_fee,
}
use enactspace.Ledger.BulkFees.{create_bulk_fees, create_fee_records, target_user_ids_for_fee_scope}
use enactspace.Ledger.Payments.{create_payment, validate_payment, payment_row}
use enactspace.Ledger.Refusals.{reject_payment, cancel_payment}
use enactspace.Ledger.Routes.{FinanceRequest, Call, serve, refusal}
use enactspace.Ledger.Routes.Effects.{create_fee_records-Keeps}
use enactspace.Server.Models.{Db}
use enactspace.Server.Handler.{Error, Session, respond}

-- the bulk loop writes the session alone
module _ (env : Env) (user : User) (payload : FeeBulkCreate) (db : Db) where
  abbrev Uncommitted : Session → Type 0
  Uncommitted s = s.saved ≡ db

  create_fee_record-Uncommitted :
      (r : FeeRecord) (s : Session)
      → Uncommitted s
      → Uncommitted (create_fee_record env user.id r s).1
  unfolding create_fee_record
  create_fee_record-Uncommitted r s h =
      elim (Option-cases (existing_fee env r s.work.ledger.fees)) [
        | inl absent ↦ ground (arith, h)
        | inr (fee, found) ↦ ground (arith, h)
      ]

  create_fee_records-Uncommitted :
      (user_ids : List ℕ) (s : Session)
      → Uncommitted s
      → Uncommitted (create_fee_records env user payload user_ids s).1
  create_fee_records-Uncommitted =
      create_fee_records-Keeps env user payload Uncommitted create_fee_record-Uncommitted

module _ (env : Env) (utcnow : ℕ) (user : User) (ip : Option String) (db : Db) (e : Error) where
  abbrev env' : Env
  env' = record env { utcnow = utcnow }

  abbrev Unchanged : FinanceRequest → Type 0
  Unchanged request =
      let c : Call = record { utcnow = utcnow; current_user = user; ip = ip; request = request } in
      refusal env c db ≡ some e → serve env c db ≡ db

  create_bulk_fees-Unchanged : (p : FeeBulkCreate) → Unchanged (FinanceRequest.create_bulk_fees p)
  unfolding serve refusal respond create_bulk_fees
  create_bulk_fees-Unchanged p refused =
      elim (Option-cases (target_user_ids_for_fee_scope env' p db.people)) [
        | inl absent ↦ ground arith
        | inr (us, found) ↦ ground (
          arith,
          create_fee_records-Uncommitted env' user p db us (record { saved = db; work = db }) refl,
        )
      ]

  create_manual_penalty-Unchanged :
      (p : FeeCreate) → Unchanged (FinanceRequest.create_manual_penalty p)
  unfolding serve refusal respond create_manual_penalty create_fee_record
  create_manual_penalty-Unchanged p refused = ground arith

  request-Unchanged : (request : FinanceRequest) → Unchanged request
  unfolding serve refusal respond create_fee cancel_fee create_payment validate_payment
      reject_payment cancel_payment create_club_transaction
  request-Unchanged (FinanceRequest.create_fee p) refused = ground arith
  request-Unchanged (FinanceRequest.create_bulk_fees p) refused =
      create_bulk_fees-Unchanged p refused
  request-Unchanged (FinanceRequest.create_manual_penalty p) refused =
      create_manual_penalty-Unchanged p refused
  request-Unchanged (FinanceRequest.cancel_fee k reason) refused =
      elim (Option-cases (find_row (λ (f : Fee). f.id) k db.ledger.fees)) [
        | inl absent ↦ ground arith
        | inr (fee, found) ↦ ground arith
      ]
  request-Unchanged (FinanceRequest.create_payment p) refused = ground arith
  request-Unchanged (FinanceRequest.validate_payment k) refused =
      elim (Option-cases (payment_row env' k db.ledger)) [
        | inl absent ↦ ground arith
        | inr (payment, found) ↦ ground arith
      ]
  request-Unchanged (FinanceRequest.reject_payment k reason) refused =
      elim (Option-cases (payment_row env' k db.ledger)) [
        | inl absent ↦ ground arith
        | inr (payment, found) ↦ ground arith
      ]
  request-Unchanged (FinanceRequest.cancel_payment k) refused =
      elim (Option-cases (payment_row env' k db.ledger)) [
        | inl absent ↦ ground arith
        | inr (payment, found) ↦ ground arith
      ]
  request-Unchanged (FinanceRequest.create_club_transaction p) refused = ground arith

-- A finance request that answers with an error leaves the database as it was: ledger, notifications
-- and audit log.
pub serve-refused :
    (env : Env) (c : Call) (db : Db) (e : Error) → refusal env c db ≡ some e → serve env c db ≡ db
serve-refused env c db e refused =
    request-Unchanged env c.utcnow c.current_user c.ip db e c.request refused
