-- ===== src/Ledger/Balance/Keeps.antt =====
-- Consistency of the ledger over the single writes of the finance routes.
use enactspace.Shared.{ℕ, ◌+◌, ◌≡◌, refl, false, some, [], ◌∷◌, ◌++◌, arith}
use enactspace.Shared.Env.{Env}
use enactspace.Shared.Int.{to_ℕ}
use enactspace.Shared.Table.{find_row, sum_by}
use enactspace.Shared.Table.Laws.{
  sum_by-append, sum_by-save, save-Unique, find_row-save_none, All-append,
}
use enactspace.Ledger.Models.{Payment, Ledger}
use enactspace.Ledger.Accounts.{update_account, charge, save_payment}
use enactspace.Ledger.Requests.{FeeRecord, PaymentCreate}
use enactspace.Ledger.Fees.{add_fee, new_fee}
use enactspace.Ledger.Payments.{add_payment, new_payment, is_validated}
use enactspace.Ledger.Balance.{
  fee_id, payment_id, NeverRepeats, InRange, fee_due, credit_of, cash_of, IsConsistent,
}
use enactspace.Ledger.Balance.Keys.{
  drawn-Unique, drawn-Fresh, KeyedAccounts-later, KeyedFees-later, KeyedPayments-later,
}
use enactspace.Ledger.Balance.Accounts.{
  KeepsKeys, balance_of-updated, total_paid_of-updated, ensured-balance, updated-KeyedAccounts,
  updated-rest,
}

module _ (env : Env) (inj : NeverRepeats env.uuid4) (l : Ledger)
    (h : IsConsistent env.uuid4 l) where
  -- A new fee raises the balance and the debt of its member by its amount.
  pub add_fee-IsConsistent :
      (creator : ℕ) (r : FeeRecord) → IsConsistent env.uuid4 (add_fee env creator r l).1
  unfolding add_fee new_fee
  add_fee-IsConsistent creator r =
      let u = r.user_id in
      let write = charge env (to_ℕ r.amount) in
      let keeps : KeepsKeys write = λ a. (refl, refl) in
      let l' = update_account env u write l in
      let fee = new_fee env creator r l'.drawn in
      let grown : Ledger = record l' { fees = l'.fees ++ fee ∷ []; drawn = l'.drawn + 1 } in
      let (same_fees, same_payments, _, same_transactions, later) =
        updated-rest env u l write keeps in
      let keyed = updated-KeyedAccounts env u l write keeps inj h.accounts in
      record {
        accounts = KeyedAccounts-later env.uuid4 l' grown (omega arith) refl keyed;
        fees = record {
          ids = rw same_fees (
              drawn-Unique env.uuid4 fee_id l.drawn l'.drawn l.fees later h.fees.fresh fee refl
                h.fees.ids);
          fresh = rw same_fees (
              drawn-Fresh env.uuid4 fee_id l.drawn l'.drawn l.fees later h.fees.fresh fee refl inj);
        };
        payments = KeyedPayments-later env.uuid4 l grown (omega arith) same_payments h.payments;
        range = rw same_fees (All-append InRange l.fees fee h.range (omega arith));
        balanced = λ v.
            rw (balance_of-updated env u l write keeps v inj h.accounts, same_fees, sum_by-append)
              (unfold fee_due sum_by in ground (arith, h.balanced v, ensured-balance env u l));
        credited = λ v.
            rw (total_paid_of-updated env u l write keeps v inj h.accounts, same_payments)
              (ground (arith, h.credited v, ensured-balance env u l));
        booked = rw (same_transactions, same_payments) h.booked;
      }

  -- A declared payment changes no balance: it counts once it is validated.
  pub add_payment-IsConsistent :
      (p : PaymentCreate) → IsConsistent env.uuid4 (add_payment env p l).1
  unfolding add_payment new_payment
  add_payment-IsConsistent p =
      let payment = new_payment env p l.drawn in
      let grown : Ledger = record l {
        payments = l.payments ++ payment ∷ [];
        drawn = l.drawn + 1;
      } in
      record {
        accounts = KeyedAccounts-later env.uuid4 l grown (omega arith) refl h.accounts;
        fees = KeyedFees-later env.uuid4 l grown (omega arith) refl h.fees;
        payments = record {
          ids =
              drawn-Unique env.uuid4 payment_id l.drawn l.drawn l.payments (omega arith)
                h.payments.fresh payment refl h.payments.ids;
          fresh =
              drawn-Fresh env.uuid4 payment_id l.drawn l.drawn l.payments (omega arith)
                h.payments.fresh payment refl inj;
        };
        range = h.range;
        balanced = h.balanced;
        credited = λ v. rw sum_by-append (unfold credit_of sum_by in ground (arith, h.credited v));
        booked = rw sum_by-append (unfold cash_of sum_by in ground (arith, h.booked));
      }

  module _ (payment : Payment)
      (found : find_row payment_id payment.id l.payments ≡ some payment) where
    -- A payment that does not count may be marked as another that does not count.
    pub save_payment-IsConsistent :
        (payment' : Payment)
        → payment'.id ≡ payment.id
        → is_validated payment.status ≡ false
        → is_validated payment'.status ≡ false
        → IsConsistent env.uuid4 (save_payment payment' l)
    unfolding save_payment
    save_payment-IsConsistent payment' same idle idle' =
        let at : find_row payment_id payment'.id l.payments ≡ some payment = rw same found in
        record {
          accounts =
              KeyedAccounts-later env.uuid4 l (save_payment payment' l) (omega arith) refl
                h.accounts;
          fees = KeyedFees-later env.uuid4 l (save_payment payment' l) (omega arith) refl h.fees;
          payments = record {
            ids = save-Unique payment_id payment' l.payments h.payments.ids;
            fresh = λ k d.
                find_row-save_none payment_id (env.uuid4 k) payment' l.payments
                  (h.payments.fresh k d);
          };
          range = h.range;
          balanced = h.balanced;
          credited = λ v.
              unfold credit_of in
              ground (
                arith,
                h.credited v,
                sum_by-save payment_id (credit_of v) payment' payment l.payments at,
              );
          booked =
              unfold cash_of in
              ground
                (arith, h.booked, sum_by-save payment_id cash_of payment' payment l.payments at);
        }
