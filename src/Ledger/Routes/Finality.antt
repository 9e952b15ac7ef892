-- ===== src/Ledger/Routes/Finality.antt =====
-- The end states of a payment, over the finance requests and their runs.
use enactspace.Shared.{ℕ, ◌-◌, ◌≡◌, refl, ◌∙◌, String, Bool, true, false, Option, some, arith}
use enactspace.Shared.Env.{Env}
use enactspace.Shared.Table.{find_row}
use enactspace.Shared.Table.Laws.{find_row-append, find_row-save_ne, find_row-key}
use enactspace.People.Models.{User}
use enactspace.Ledger.Models.{Payment, PaymentStatus, Ledger}
use enactspace.Ledger.Accounts.{save_fee, discharge, charge, save_payment}
use enactspace.Ledger.Requests.{FeeRecord}
use enactspace.Ledger.Fees.{cancelled_fee, add_fee, settle_cancelled}
use enactspace.Ledger.Payments.{
  is_cancellable, new_payment, payment_row, add_payment, validated_payment,
}
use enactspace.Ledger.Refusals.{rejected_payment}
use enactspace.Ledger.Balance.{NeverRepeats, IsConsistent, payment_id}
use enactspace.Ledger.Balance.Accounts.{updated-rest}
use enactspace.Ledger.Balance.Validation.{settle_payment-payments}
use enactspace.Ledger.Routes.{FinanceRequest, Call, serve, Reaches, start, then}
use enactspace.Ledger.Routes.Consistency.{Reaches-IsConsistent}
use enactspace.Ledger.Routes.Effects.{
  create_fee-effect, create_bulk_fees-effect, create_manual_penalty-effect, cancel_fee-effect,
  create_payment-effect, validate_payment-effect, reject_payment-effect, cancel_payment-effect,
  create_club_transaction-effect,
}
use enactspace.Server.Models.{Db}
use enactspace.Ledger.CashBook.{add_transaction}
use enactspace.Shared.Int.{to_ℕ}

-- `payment.status` is "validated" or "cancelled"
abbrev pub is_final : PaymentStatus → Bool
is_final PaymentStatus.pending = false
is_final PaymentStatus.rejected = false
is_final PaymentStatus.validated = true
is_final PaymentStatus.cancelled = true

open_status : (s : PaymentStatus) → is_cancellable s ≡ true → is_final s ≡ false
open_status PaymentStatus.pending e = refl
open_status PaymentStatus.rejected e = refl
open_status PaymentStatus.cancelled e = ground arith
open_status PaymentStatus.validated e = ground arith

module _ (env : Env) (inj : NeverRepeats env.uuid4) (utcnow : ℕ) (user : User) (ip : Option String)
    (db : Db) (h : IsConsistent env.uuid4 db.ledger) (k : ℕ) (payment : Payment)
    (found : find_row payment_id k db.ledger.payments ≡ some payment)
    (final : is_final payment.status ≡ true) where
  abbrev env' : Env
  env' = record env { utcnow = utcnow }

  -- the row still stands
  abbrev Stands : Ledger → Type 0
  Stands l = find_row payment_id k l.payments ≡ some payment

  add : (r : FeeRecord) (l : Ledger) → Stands l → Stands (add_fee env' user.id r l).1
  unfolding add_fee
  add r l s =
      rw (updated-rest env' r.user_id l (charge env' (to_ℕ r.amount)) (λ a. (refl, refl))).1 s

  -- another payment's row is written
  other :
      (j : ℕ) (q q' : Payment)
      → payment_row env' j db.ledger ≡ some q
      → q'.id ≡ q.id
      → is_final q.status ≡ false
      → Stands (save_payment q' db.ledger)
  unfolding save_payment
  other j q q' at same open_q =
      find_row-save_ne payment_id k q' db.ledger.payments
        (λ e. ground (arith, at, found, same, find_row-key payment_id j db.ledger.payments q at))
      ∙ found

  request-Stands :
      (request : FinanceRequest)
      → Stands
          (serve env
            (record { utcnow = utcnow; current_user = user; ip = ip; request = request })
            db).ledger
  unfolding serve rejected_payment settle_cancelled add_payment add_transaction validated_payment
  request-Stands (FinanceRequest.create_fee p) =
      create_fee-effect env' user db Stands found p (add _ db.ledger found)
  request-Stands (FinanceRequest.create_bulk_fees p) =
      create_bulk_fees-effect env' user p Stands add db found
  request-Stands (FinanceRequest.create_manual_penalty p) =
      create_manual_penalty-effect env' user db Stands found p (λ r. add r db.ledger found)
  request-Stands (FinanceRequest.cancel_fee j reason) =
      cancel_fee-effect env' user db Stands found ip j reason (λ fee at unpaid.
        rw
          (updated-rest env' fee.user_id
            (save_fee (cancelled_fee env' (env.strip reason) fee) db.ledger)
            (discharge env' (fee.amount - fee.amount_paid)) (λ a. (refl, refl))).1
          (unfold save_fee in found))
  request-Stands (FinanceRequest.create_payment p) =
      create_payment-effect env' user db Stands found p (
        ground (
          arith,
          found,
          find_row-append payment_id k (new_payment env' p db.ledger.drawn) db.ledger.payments,
        ))
  request-Stands (FinanceRequest.validate_payment j) =
      validate_payment-effect env' user db Stands found ip j (λ q at pending.
        rw (settle_payment-payments env' user q db.ledger h.fees.ids h.range)
          (other j q (validated_payment env' user q) at refl (ground (arith, pending))))
  request-Stands (FinanceRequest.reject_payment j reason) =
      reject_payment-effect env' user db Stands found ip j reason
        (λ q at pending. other j q _ at refl (ground arith))
  request-Stands (FinanceRequest.cancel_payment j) =
      cancel_payment-effect env' user db Stands found ip j
        (λ q at cancellable. other j q _ at refl (open_status q.status cancellable))
  request-Stands (FinanceRequest.create_club_transaction p) =
      create_club_transaction-effect env' user db Stands found p found

serve-Stands :
    (env : Env) (inj : NeverRepeats env.uuid4) (c : Call) (db : Db)
    (h : IsConsistent env.uuid4 db.ledger) (k : ℕ) (payment : Payment)
    → is_final payment.status ≡ true
    → find_row payment_id k db.ledger.payments ≡ some payment
    → find_row payment_id k (serve env c db).ledger.payments ≡ some payment
serve-Stands env inj c db h k payment final found =
    request-Stands env inj c.utcnow c.current_user c.ip db h k payment found final c.request

-- A payment that is validated or cancelled keeps its whole row under every sequence of finance
-- requests, none of which cancels a fee a second time, from a consistent ledger. `uuid4` gives no
-- value twice.
pub Reaches-final_payment :
    (env : Env) (db db' : Db) (k : ℕ) (payment : Payment)
    → NeverRepeats env.uuid4
    → IsConsistent env.uuid4 db.ledger
    → find_row payment_id k db.ledger.payments ≡ some payment
    → is_final payment.status ≡ true
    → Reaches env db db'
    → find_row payment_id k db'.ledger.payments ≡ some payment
Reaches-final_payment env db db' k payment inj h found final start = found
Reaches-final_payment env db db' k payment inj h found final (then {db' = db''} r c once) =
    serve-Stands env inj c db'' (Reaches-IsConsistent env db db'' inj h r) k payment final
      (Reaches-final_payment env db db'' k payment inj h found final r)
