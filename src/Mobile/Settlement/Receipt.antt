-- ===== src/Mobile/Settlement/Receipt.antt =====
-- The ledger after a confirmation: the payment, the member's account and the cash book.
use enactspace.Shared.{
  ℕ, ◌+◌, ◌*◌, ◌≡◌, refl, sym, ap, ◌∙◌, inl, inr, Option, [], ◌∷◌, ◌++◌, ◌==◌, arith, Bool-cases,
  if◌then◌else◌, String,
}
use enactspace.Shared.Env.{Env}
use enactspace.Shared.Table.{All, sum_by}
use enactspace.Shared.Table.Laws.{sum_by-append}
use enactspace.Ledger.Models.{FinancialAccount, Payment, Ledger}
use enactspace.Ledger.Accounts.{update_account, credit}
use enactspace.Ledger.Balance.{
  payment_id, NeverRepeats, KeyedAccounts, KeyedPayments, due_of, credit_of, cash_of,
  payment_income, IsConsistent,
}
use enactspace.Ledger.Balance.Keys.{
  drawn-Unique, drawn-Fresh, KeyedAccounts-later, KeyedPayments-later,
}
use enactspace.Ledger.Balance.Accounts.{
  KeepsKeys, balance_of-updated, total_paid_of-updated, ensured-balance, updated-KeyedAccounts,
  updated-rest,
}
use enactspace.Ledger.Balance.Settles.{Settles}
use enactspace.Server.Handler.{ok}
use enactspace.Mobile.Models.{MobileMoneyTransaction}
use enactspace.Mobile.Allocation.{parsed_ids, none_found, allocate_selected, allocate_payment}
use enactspace.Mobile.Confirmation.{cents, mobile_payment, mobile_income, settle_transaction}
use enactspace.Mobile.Settlement.{
  Distinct, Payable, Settled-ok, value, Result-cases, allocate_selected-Settled,
}

module _ (env : Env) (inj : NeverRepeats env.uuid4) (l : Ledger) (h : IsConsistent env.uuid4 l)
    (t : MobileMoneyTransaction) (reference : Option String) where
  abbrev u : ℕ
  u = t.member_id

  abbrev payment : Payment
  payment = mobile_payment env t reference l.drawn

  abbrev marked : Ledger
  marked = record l { payments = l.payments ++ payment ∷ []; drawn = l.drawn + 1 }

  marked-KeyedPayments : KeyedPayments env.uuid4 marked
  unfolding mobile_payment
  marked-KeyedPayments = record {
    ids =
        drawn-Unique env.uuid4 payment_id l.drawn l.drawn l.payments (omega arith) h.payments.fresh
          payment refl h.payments.ids;
    fresh =
        drawn-Fresh env.uuid4 payment_id l.drawn l.drawn l.payments (omega arith) h.payments.fresh
          payment refl inj;
  }

  marked-credit :
      (v : ℕ)
      → sum_by (credit_of v) marked.payments
        ≡ sum_by (credit_of v) l.payments + (if u == v then cents t else 0)
  unfolding mobile_payment credit_of sum_by
  marked-credit v = rw sum_by-append (ground arith)

  marked-cash : sum_by cash_of marked.payments ≡ sum_by cash_of l.payments + cents t
  unfolding mobile_payment cash_of sum_by
  marked-cash = rw sum_by-append (ground arith)

  -- The writes after an allocation that settled `n`.
  module _ (n : ℕ) (l₂ : Ledger) (s : Settles env u n marked l₂) where
    abbrev write : FinancialAccount → FinancialAccount
    write = credit env (cents t) n

    abbrev credited : Ledger
    credited = update_account env u write l₂

    abbrev booked : Ledger
    booked = record credited {
      transactions = credited.transactions ++ mobile_income env t payment.id credited.drawn ∷ [];
      drawn = credited.drawn + 1;
    }

    keeps : KeepsKeys write
    keeps a = (refl, refl)

    keyed : KeyedAccounts env.uuid4 l₂
    keyed = KeyedAccounts-later env.uuid4 l l₂ (omega (arith, s.drawn)) s.accounts h.accounts

    booked-IsConsistent : IsConsistent env.uuid4 booked
    booked-IsConsistent =
        let (fees, payments, _, transactions, later) = updated-rest env u l₂ write keeps in
        let paid : credited.payments ≡ marked.payments = payments ∙ s.payments in
        let lines : credited.transactions ≡ l.transactions = transactions ∙ s.transactions in
        record {
          accounts =
              KeyedAccounts-later env.uuid4 credited booked (omega arith) refl
                (updated-KeyedAccounts env u l₂ write keeps inj keyed);
          fees = record {
            ids = rw fees (s.ids h.fees.ids);
            fresh = λ k d.
                rw fees (s.fresh (env.uuid4 k) (h.fees.fresh k (omega (arith, d, later, s.drawn))));
          };
          payments =
              KeyedPayments-later env.uuid4 marked booked (omega (arith, later, s.drawn)) paid
                marked-KeyedPayments;
          range = rw fees (s.range h.range);
          balanced = λ v.
              rw (fees, balance_of-updated env u l₂ write keeps v inj keyed)
                (ground (
                  arith,
                  ensured-balance env u l₂,
                  s.accounts,
                  h.balanced v,
                  h.balanced u,
                  s.due,
                  s.others v,
                ));
          credited = λ v.
              rw (paid, total_paid_of-updated env u l₂ write keeps v inj keyed, marked-credit v)
                (ground (arith, ensured-balance env u l₂, s.accounts, h.credited v, h.credited u));
          booked =
              rw (lines, paid, marked-cash, sum_by-append)
                (unfold payment_income sum_by mobile_income in ground (arith, h.booked));
        }

  -- the member's fees that the payer selected
  abbrev pub IsPayable : Type 0
  IsPayable =
      Distinct (parsed_ids t.finance_item_ids) × All (Payable u l) (parsed_ids t.finance_item_ids)

  settled :
      (p : Payment) (total : ℕ) (l' : Ledger) (n : ℕ) (l₂ : Ledger)
      (s : Settles env u (100 * n) marked l₂)
      → n ≡ t.amount
      → Path ((Payment × ℕ) × Ledger) ((payment, n), booked (100 * n) l₂ s) ((p, total), l')
      → IsConsistent env.uuid4 l' × (total ≡ t.amount) × (due_of u l' + 100 * t.amount ≡ due_of u l)
  settled p total l' n l₂ s exact e =
      let same : booked (100 * n) l₂ s ≡ l' = ap (λ r. r.1) e in
      let all : n ≡ total = ap (λ r. r.0.1) e in
      let (fees, _, _, _, _) =
        updated-rest env u l₂ (write (100 * n) l₂ s) (keeps (100 * n) l₂ s) in
      rw (← same) (
        booked-IsConsistent (100 * n) l₂ s,
        sym all ∙ exact,
        rw (fees) (omega (arith, s.due, exact)),
      )

  -- When a mobile payment is confirmed on a consistent ledger, for fees that are distinct and, where
  -- they stand, open fees of the member, the ledger stays consistent, the total allocated is the
  -- amount of the transaction, and the member's debt falls by exactly that. `uuid4` gives no value
  -- twice.
  pub settle_transaction-IsConsistent :
      IsPayable
      → (p : Payment) (total : ℕ) (l' : Ledger)
      → settle_transaction env t reference l ≡ ok ((p, total), l')
      → IsConsistent env.uuid4 l' × (total ≡ t.amount) × (due_of u l' + 100 * t.amount ≡ due_of u l)
  unfolding settle_transaction allocate_payment
  settle_transaction-IsConsistent (distinct, payable) p total l' =
      elim (Bool-cases (none_found (parsed_ids t.finance_item_ids) marked)) [
        | inl nothing ↦ rw (settle_transaction, nothing) (λ e. ground (arith, e))
        | inr some_fee ↦
            rw (settle_transaction, some_fee)
              (elim (Result-cases
                (allocate_selected env payment t.amount (parsed_ids t.finance_item_ids) marked)) [
                  | inr (e, bad) ↦ rw (settle_transaction, bad) (λ e. ground (arith, e))
                  | inl ((n, l₂), done) ↦
                      rw (settle_transaction, done)
                        (elim (Bool-cases (n == t.amount)) [
                          | inr short ↦ rw (short) (λ e. ground (arith, e))
                          | inl exact ↦ rw (exact) (λ e.
                              let s = Settled-ok env u t.amount n marked l₂ _ done (
                                allocate_selected-Settled env payment u t.amount
                                  (parsed_ids t.finance_item_ids) marked distinct payable) in
                              settled p total l' n l₂ s (ground (arith, exact))
                                (ap (value ((p, total), l')) e))
                        ])
                ])
      ]
