-- ===== src/Ledger/Routes/Effects.antt =====
-- What each finance route leaves in the ledger: what was there, or one write of the route.
use enactspace.Server.Handler.Laws.{then-Keeps}
use enactspace.Shared.{List, [], ◌∷◌}
use enactspace.Outbox.Service.{or_default}
use enactspace.Server.Handler.{Session}
use enactspace.Ledger.Accounts.{save_payment}
use enactspace.Ledger.Payments.{is_cancellable}
use enactspace.Ledger.Refusals.{reject_payment, rejected_payment, cancel_payment, cancelled_payment}
use enactspace.Ledger.CashBook.{
  ClubTransactionCreate, create_club_transaction, add_transaction, transaction_type,
}
use enactspace.Ledger.Requests.{FeeBulkCreate}
use enactspace.Ledger.BulkFees.{create_fee_records, create_bulk_fees}
use enactspace.Shared.{ℕ, String, Option, some, ◌≡◌, true, false, inl, inr, arith, Option-cases}
use enactspace.Ledger.BulkFees.{bulk_record, target_user_ids_for_fee_scope}
use enactspace.Server.Handler.{pure, commit, ◌>>=◌, ◌>>◌}
use enactspace.Ledger.Fees.{existing_fee}
use enactspace.Shared.Env.{Env}
use enactspace.Shared.Table.{find_row}
use enactspace.People.Models.{User}
use enactspace.Ledger.Models.{Fee, Payment, PaymentStatus, Ledger, is_paid}
use enactspace.Ledger.Requests.{FeeCreate, FeeRecord, PaymentCreate}
use enactspace.Ledger.Fees.{
  create_fee, add_fee, record_of_payload, cancel_fee, settle_cancelled, create_fee_record,
  create_manual_penalty,
}
use enactspace.Ledger.Payments.{
  create_payment, add_payment, validate_payment, settle_payment, payment_row,
}
use enactspace.Server.Models.{Db}
use enactspace.Server.Handler.{after, respond}

module _ (env : Env) (user : User) (db : Db) (P : Ledger → Type 0) (kept : P db.ledger) where
  pub create_fee-effect :
      (p : FeeCreate)
      → P (add_fee env user.id (record_of_payload env p) db.ledger).1
      → P (after (create_fee env user p) db).ledger
  unfolding respond create_fee
  create_fee-effect p added = ground arith

  pub validate_payment-effect :
      (ip : Option String) (payment_id : ℕ)
      → ((payment : Payment)
          → payment_row env payment_id db.ledger ≡ some payment
          → payment.status ≡ PaymentStatus.pending
          → P (settle_payment env user payment db.ledger).1)
      → P (after (validate_payment env user ip payment_id) db).ledger
  unfolding respond validate_payment
  validate_payment-effect ip payment_id settled =
      elim (Option-cases (payment_row env payment_id db.ledger)) [
        | inl absent ↦ ground arith
        | inr (payment, found) ↦ ground (arith, settled payment found)
      ]

  pub create_payment-effect :
      (p : PaymentCreate)
      → P (add_payment env p db.ledger).1
      → P (after (create_payment env user p) db).ledger
  unfolding respond create_payment
  create_payment-effect p added = ground arith

  pub cancel_fee-effect :
      (ip : Option String) (fee_id : ℕ) (reason : String)
      → ((fee : Fee)
          → find_row (λ (f : Fee). f.id) fee_id db.ledger.fees ≡ some fee
          → is_paid fee.status ≡ false
          → P (settle_cancelled env (env.strip reason) fee db.ledger))
      → P (after (cancel_fee env user ip fee_id reason) db).ledger
  unfolding respond cancel_fee
  cancel_fee-effect ip fee_id reason settled =
      elim (Option-cases (find_row (λ (f : Fee). f.id) fee_id db.ledger.fees)) [
        | inl absent ↦ ground arith
        | inr (fee, found) ↦ ground (arith, settled fee found)
      ]

  pub reject_payment-effect :
      (ip : Option String) (payment_id : ℕ) (reason : String)
      → ((payment : Payment)
          → payment_row env payment_id db.ledger ≡ some payment
          → payment.status ≡ PaymentStatus.pending
          → P (save_payment (rejected_payment env (env.strip reason) payment) db.ledger))
      → P (after (reject_payment env user ip payment_id reason) db).ledger
  unfolding respond reject_payment
  reject_payment-effect ip payment_id reason settled =
      elim (Option-cases (payment_row env payment_id db.ledger)) [
        | inl absent ↦ ground arith
        | inr (payment, found) ↦ ground (arith, settled payment found)
      ]

  pub cancel_payment-effect :
      (ip : Option String) (payment_id : ℕ)
      → ((payment : Payment)
          → payment_row env payment_id db.ledger ≡ some payment
          → is_cancellable payment.status ≡ true
          → P (save_payment (cancelled_payment env payment) db.ledger))
      → P (after (cancel_payment env user ip payment_id) db).ledger
  unfolding respond cancel_payment
  cancel_payment-effect ip payment_id settled =
      elim (Option-cases (payment_row env payment_id db.ledger)) [
        | inl absent ↦ ground arith
        | inr (payment, found) ↦ ground (arith, settled payment found)
      ]

  pub create_club_transaction-effect :
      (p : ClubTransactionCreate)
      → P (add_transaction env user p (transaction_type env p.type) db.ledger).1
      → P (after (create_club_transaction env user p) db).ledger
  unfolding respond create_club_transaction
  create_club_transaction-effect p added = ground arith

  pub create_manual_penalty-effect :
      (p : FeeCreate)
      → ((r : FeeRecord) → P (add_fee env user.id r db.ledger).1)
      → P (after (create_manual_penalty env user p) db).ledger
  unfolding respond create_manual_penalty create_fee_record
  create_manual_penalty-effect p added = ground (
    arith,
    added (record (record_of_payload env p) {
      fee_type = "manual_penalty";
      category = some (or_default p.category "manual_penalty");
      source_type = some (or_default p.source_type "manual_penalty");
    }),
  )

-- A property of sessions that one record keeps is one that the loop of the bulk route keeps.
module _ (env : Env) (user : User) (payload : FeeBulkCreate) (Q : Session → Type 0)
    (step : (r : FeeRecord) (s : Session) → Q s → Q (create_fee_record env user.id r s).1) where
  pub create_fee_records-Keeps :
      (user_ids : List ℕ) (s : Session) → Q s → Q (create_fee_records env user payload user_ids s).1
  unfolding create_fee_records
  create_fee_records-Keeps [] s h = h
  create_fee_records-Keeps (u ∷ us) s h =
      let made = create_fee_record env user.id (bulk_record env user payload u) s in
      then-Keeps Q (λ fee. create_fee_records env user payload us >>= λ fees. pure (fee ∷ fees))
        (λ fee s' h'.
          let rest = create_fee_records env user payload us s' in
          then-Keeps Q (λ fees. pure (fee ∷ fees)) (λ fees s'' h''. h'') rest.0 rest.1
            (create_fee_records-Keeps us s' h'))
        made.0 made.1 (step (bulk_record env user payload u) s h)

-- The bulk route, for a property of the ledger that one new fee keeps.
module _ (env : Env) (user : User) (payload : FeeBulkCreate) (P : Ledger → Type 0)
    (step : (r : FeeRecord) (l : Ledger) → P l → P (add_fee env user.id r l).1) where
  abbrev Holds : Session → Type 0
  Holds s = P s.work.ledger × P s.saved.ledger

  create_fee_record-Holds :
      (r : FeeRecord) (s : Session) → Holds s → Holds (create_fee_record env user.id r s).1
  unfolding create_fee_record
  create_fee_record-Holds r s h = elim (Option-cases (existing_fee env r s.work.ledger.fees)) [
    | inl absent ↦ ground (arith, step r s.work.ledger h.0)
    | inr (fee, found) ↦ ground arith
  ]

  pub create_bulk_fees-effect :
      (db : Db) → P db.ledger → P (after (create_bulk_fees env user payload) db).ledger
  unfolding respond create_bulk_fees
  create_bulk_fees-effect db h =
      let s : Session = record { saved = db; work = db } in
      elim (Option-cases (target_user_ids_for_fee_scope env payload db.people)) [
        | inl absent ↦ ground arith
        | inr (us, found) ↦
            let made = create_fee_records env user payload us s in
            ground (
              arith,
              (then-Keeps Holds (λ (fees : List Fee). commit >> pure fees)
                  (λ fees s' h'. (h'.0, h'.0)) made.0 made.1
                  (create_fee_records-Keeps env user payload Holds create_fee_record-Holds us s
                    (h, h))).1,
            )
      ]
