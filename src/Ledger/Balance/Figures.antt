-- ===== src/Ledger/Balance/Figures.antt =====
-- The figures that members and managers read: balances after a validation, the status of a fee, and
-- the statistics.
use enactspace.Shared.{
  ℕ, ◌+◌, ◌-◌, ◌<◌, ◌≡◌, refl, ◌==◌, ltb, some, List, [], ◌∷◌, arith, if◌then◌else◌,
}
use enactspace.Shared.Env.{Env}
use enactspace.Shared.Table.{find_row, select, sum_by}
use enactspace.People.Models.{User}
use enactspace.Ledger.Models.{Fee, Payment, PaymentStatus, Ledger, is_open}
use enactspace.Ledger.Accounts.{update_fee_status, save_payment}
use enactspace.Ledger.Payments.{settle_payment, validated_payment, is_validated}
use enactspace.Ledger.CashBook.{finance_stats_payload}
use enactspace.Ledger.Balance.{
  NeverRepeats, IsConsistent, payment_id, balance_of, total_paid_of, cash_of, payment_income,
}
use enactspace.Ledger.Balance.Allocation.{allocate-amount}
use enactspace.Ledger.Balance.Validation.{settled_balance, settled_credit, settles, marked-credit}

-- The status given to a fee of a positive amount is open exactly while less than the amount is paid.
pub update_fee_status-open :
    (env : Env) (fee : Fee)
    → 0 < fee.amount
    → is_open (update_fee_status env fee).status ≡ ltb fee.amount_paid fee.amount
unfolding update_fee_status
update_fee_status-open env fee priced = ground arith

-- The validation of a pending payment, on a consistent ledger, lowers the balance of its member by
-- its amount, down to 0, raises the member's credit by its amount, and leaves both figures of every
-- other member. `uuid4` gives no value twice.
pub settle_payment-amounts :
    (env : Env) (user : User) (payment : Payment) (l : Ledger) (v : ℕ)
    → NeverRepeats env.uuid4
    → IsConsistent env.uuid4 l
    → find_row payment_id payment.id l.payments ≡ some payment
    → payment.status ≡ PaymentStatus.pending
    → let l' = (settle_payment env user payment l).1 in
      let paid = if payment.user_id == v then payment.amount else 0 in
      (balance_of v l' ≡ balance_of v l - paid) × (total_paid_of v l' ≡ total_paid_of v l + paid)
unfolding settle_payment validated_payment save_payment
settle_payment-amounts env user payment l v inj h found pending =
    let marked = save_payment (validated_payment env user payment) l in
    let s = settles env inj l h user payment found pending in
    (
      ground (
        arith,
        settled_balance env inj l h user payment found pending v,
        s.due,
        s.others v,
        h.balanced v,
        allocate-amount env (validated_payment env user payment) marked,
      ),
      ground (
        arith,
        settled_credit env inj l h user payment found pending v,
        marked-credit env inj l h user payment found pending v,
        h.credited v,
      ),
    )

validated-cash :
    (payments : List Payment)
    → sum_by (λ (x : Payment). x.amount) (select (λ x. is_validated x.status) payments)
      ≡ sum_by cash_of payments
unfolding sum_by select cash_of
validated-cash [] = refl
validated-cash (p ∷ ps) = ground (arith, validated-cash ps)

-- what is validated is booked
pub validated_booked :
    (uuid4 : ℕ → ℕ) (l : Ledger)
    → IsConsistent uuid4 l
    → (finance_stats_payload l.accounts l.fees l.payments l.transactions).validated_payment_amount
      ≡ sum_by payment_income l.transactions
unfolding finance_stats_payload
validated_booked uuid4 l h = ground (arith, validated-cash l.payments, h.booked)
