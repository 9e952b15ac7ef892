-- ===== src/Ledger/Routes/Consistency.antt =====
-- Consistency of the ledger over the finance requests and their runs.
use enactspace.Shared.{ℕ, ◌≡◌, refl, String, true, false, Option, some, arith}
use enactspace.Shared.Env.{Env}
use enactspace.Shared.Table.{find_row, sum_by}
use enactspace.Shared.Table.Laws.{sum_by-append}
use enactspace.People.Models.{User}
use enactspace.Ledger.Models.{
  Fee, FeeStatus, Payment, PaymentStatus, TransactionType, Ledger, is_open, is_paid,
}
use enactspace.Ledger.CashBook.{ClubTransactionCreate, add_transaction, new_transaction}
use enactspace.Ledger.Balance.{NeverRepeats, IsConsistent, fee_id, payment_id, payment_income}
use enactspace.Ledger.Balance.Keys.{KeyedAccounts-later, KeyedFees-later, KeyedPayments-later}
use enactspace.Ledger.Balance.Keeps.{
  add_fee-IsConsistent, add_payment-IsConsistent, save_payment-IsConsistent,
}
use enactspace.Ledger.Balance.Validation.{settle_payment-IsConsistent}
use enactspace.Ledger.Balance.Cancellation.{cancel_open-IsConsistent}
use enactspace.Ledger.Refusals.{rejected_payment}
use enactspace.Ledger.Routes.{
  FinanceRequest, Call, serve, CancelsOnce, Reaches, start, then, is_cancelled,
}
use enactspace.Ledger.Routes.Effects.{
  create_fee-effect, create_bulk_fees-effect, create_manual_penalty-effect, cancel_fee-effect,
  create_payment-effect, validate_payment-effect, reject_payment-effect, cancel_payment-effect,
  create_club_transaction-effect,
}
use enactspace.Server.Models.{Db}
use enactspace.Ledger.Payments.{is_validated, is_cancellable, payment_row, settle_payment}
use enactspace.Ledger.Accounts.{save_payment}
use enactspace.Ledger.Fees.{add_fee, settle_cancelled}
use enactspace.Ledger.Requests.{FeeRecord}
use enactspace.Shared.Table.Laws.{find_row_self}

-- A line of the cash book that no payment made does not count for the payments.
add_transaction-IsConsistent :
    (env : Env) (user : User) (p : ClubTransactionCreate) (t : TransactionType) (l : Ledger)
    → IsConsistent env.uuid4 l
    → IsConsistent env.uuid4 (add_transaction env user p t l).1
unfolding add_transaction new_transaction
add_transaction-IsConsistent env user p t l h =
    let l' = (add_transaction env user p t l).1 in
    record {
      accounts = KeyedAccounts-later env.uuid4 l l' (omega arith) refl h.accounts;
      fees = KeyedFees-later env.uuid4 l l' (omega arith) refl h.fees;
      payments = KeyedPayments-later env.uuid4 l l' (omega arith) refl h.payments;
      range = h.range;
      balanced = h.balanced;
      credited = h.credited;
      booked = rw sum_by-append (unfold payment_income sum_by in ground (arith, h.booked));
    }

still_open : (s : FeeStatus) → is_paid s ≡ false → is_cancelled s ≡ false → is_open s ≡ true
still_open FeeStatus.unpaid p c = refl
still_open FeeStatus.partial p c = refl
still_open FeeStatus.paid p c = ground arith
still_open FeeStatus.cancelled p c = ground arith

idle_pending : (s : PaymentStatus) → s ≡ PaymentStatus.pending → is_validated s ≡ false
idle_pending s e = rw e refl

idle_cancellable : (s : PaymentStatus) → is_cancellable s ≡ true → is_validated s ≡ false
idle_cancellable PaymentStatus.pending e = refl
idle_cancellable PaymentStatus.rejected e = refl
idle_cancellable PaymentStatus.cancelled e = refl
idle_cancellable PaymentStatus.validated e = ground arith

-- what each route writes, on a consistent ledger
module _ (env : Env) (inj : NeverRepeats env.uuid4) (user : User) (db : Db)
    (h : IsConsistent env.uuid4 db.ledger) where
  abbrev P : Ledger → Type 0
  P = IsConsistent env.uuid4

  add : (r : FeeRecord) (l : Ledger) → P l → P (add_fee env user.id r l).1
  add r l k = add_fee-IsConsistent env inj l k user.id r

  cancel :
      (fee_id : ℕ) (reason : String)
      → CancelsOnce (FinanceRequest.cancel_fee fee_id reason) db
      → (fee : Fee) → find_row (λ (f : Fee). f.id) fee_id db.ledger.fees ≡ some fee
      → is_paid fee.status ≡ false
      → P (settle_cancelled env (env.strip reason) fee db.ledger)
  cancel k reason once fee found unpaid =
      cancel_open-IsConsistent env inj db.ledger h (env.strip reason) fee
        (find_row_self fee_id k db.ledger.fees fee found)
        (still_open fee.status unpaid (once fee found))

  module _ (k : ℕ) (payment : Payment) (found : payment_row env k db.ledger ≡ some payment) where
    stored : find_row payment_id payment.id db.ledger.payments ≡ some payment
    stored = find_row_self payment_id k db.ledger.payments payment found

    settle :
        payment.status ≡ PaymentStatus.pending → P (settle_payment env user payment db.ledger).1
    settle pending = settle_payment-IsConsistent env inj db.ledger h user payment stored pending

    refuse :
        (payment' : Payment)
        → payment'.id ≡ payment.id
        → is_validated payment.status ≡ false
        → is_validated payment'.status ≡ false
        → P (save_payment payment' db.ledger)
    refuse = save_payment-IsConsistent env inj db.ledger h payment stored

module _ (env : Env) (inj : NeverRepeats env.uuid4) (utcnow : ℕ) (user : User) (ip : Option String)
    (db : Db) (h : IsConsistent env.uuid4 db.ledger) where
  abbrev env' : Env
  env' = record env { utcnow = utcnow }

  request-IsConsistent :
      (request : FinanceRequest)
      → CancelsOnce request db
      → IsConsistent env.uuid4
          (serve env
            (record { utcnow = utcnow; current_user = user; ip = ip; request = request })
            db).ledger
  unfolding serve rejected_payment
  request-IsConsistent (FinanceRequest.create_fee p) once =
      create_fee-effect env' user db (P env' inj user db h) h p
        (add env' inj user db h _ db.ledger h)
  request-IsConsistent (FinanceRequest.create_bulk_fees p) once =
      create_bulk_fees-effect env' user p (P env' inj user db h) (add env' inj user db h) db h
  request-IsConsistent (FinanceRequest.create_manual_penalty p) once =
      create_manual_penalty-effect env' user db (P env' inj user db h) h p
        (λ r. add env' inj user db h r db.ledger h)
  request-IsConsistent (FinanceRequest.cancel_fee k reason) once =
      cancel_fee-effect env' user db (P env' inj user db h) h ip k reason
        (cancel env' inj user db h k reason once)
  request-IsConsistent (FinanceRequest.create_payment p) once =
      create_payment-effect env' user db (P env' inj user db h) h p
        (add_payment-IsConsistent env' inj db.ledger h p)
  request-IsConsistent (FinanceRequest.validate_payment k) once =
      validate_payment-effect env' user db (P env' inj user db h) h ip k
        (settle env' inj user db h k)
  request-IsConsistent (FinanceRequest.reject_payment k reason) once =
      reject_payment-effect env' user db (P env' inj user db h) h ip k reason
        (λ payment found pending.
          refuse env' inj user db h k payment found _ refl (idle_pending payment.status pending)
            refl)
  request-IsConsistent (FinanceRequest.cancel_payment k) once =
      cancel_payment-effect env' user db (P env' inj user db h) h ip k (λ payment found cancellable.
        refuse env' inj user db h k payment found _ refl
          (idle_cancellable payment.status cancellable) refl)
  request-IsConsistent (FinanceRequest.create_club_transaction p) once =
      create_club_transaction-effect env' user db (P env' inj user db h) h p
        (add_transaction-IsConsistent env' user p _ db.ledger h)

pub serve-IsConsistent :
    (env : Env) (c : Call) (db : Db)
    → NeverRepeats env.uuid4
    → CancelsOnce c.request db
    → IsConsistent env.uuid4 db.ledger
    → IsConsistent env.uuid4 (serve env c db).ledger
serve-IsConsistent env c db inj once h =
    request-IsConsistent env inj c.utcnow c.current_user c.ip db h c.request once

-- On every database that finance requests reach from a consistent ledger, none of which cancels a
-- fee a second time, the ledger is consistent: keys stand once, no fee is overpaid, each member's
-- balance is what the member's open fees lack, a member's credits are the sum of the member's
-- validated payments, and the cash book's income from payments is the sum of all validated payments.
-- `uuid4` gives no value twice.
pub Reaches-IsConsistent :
    (env : Env) (db db' : Db)
    → NeverRepeats env.uuid4
    → IsConsistent env.uuid4 db.ledger
    → Reaches env db db'
    → IsConsistent env.uuid4 db'.ledger
Reaches-IsConsistent env db db' inj h start = h
Reaches-IsConsistent env db db' inj h (then {db' = db''} r c once) =
    serve-IsConsistent env c db'' inj once (Reaches-IsConsistent env db db'' inj h r)
