-- ===== src/Mobile/Payments.antt =====
-- Of the payments, a confirmation adds one and leaves the others.
use enactspace.Shared.{
  ℕ, ◌+◌, ◌-◌, ◌*◌, ◌≡◌, refl, sym, ap, ◌∙◌, min, inl, inr, String, Option, List, [], ◌∷◌, ◌++◌,
  ◌==◌, arith, Bool-cases, Option-cases,
}
use enactspace.Shared.Env.{Env}
use enactspace.Ledger.Models.{Payment, Ledger}
use enactspace.Ledger.Accounts.{save_fee, update_fee_status, allocate_to, credit}
use enactspace.Ledger.Balance.Accounts.{updated-rest}
use enactspace.Server.Handler.{Result, ok, err, Error}
use enactspace.Mobile.Models.{MobileMoneyTransaction}
use enactspace.Mobile.Allocation.{
  fee_row, add_total, fee_remaining_amount, allocate_selected, allocate_payment, parsed_ids,
  none_found,
}
use enactspace.Mobile.Confirmation.{mobile_payment, cents, settle_transaction}
use enactspace.Mobile.Settlement.{Result-cases, value}

-- A result that leaves the payments of `l`.
unfoldable pub Leaves : Ledger → Result (ℕ × Ledger) → Type 0
Leaves l (ok r) = r.1.payments ≡ l.payments
Leaves l (err e) = Unit

add_total-Leaves :
    (n : ℕ) (l l₁ : Ledger) (r : Result (ℕ × Ledger))
    → l₁.payments ≡ l.payments
    → Leaves l₁ r
    → Leaves l (add_total n r)
unfolding Leaves
add_total-Leaves n l l₁ (ok r) e h = h ∙ e
add_total-Leaves n l l₁ (err x) e h = tt

Leaves-later :
    (l l₁ : Ledger) (r : Result (ℕ × Ledger)) → l₁.payments ≡ l.payments → Leaves l₁ r → Leaves l r
unfolding Leaves
Leaves-later l l₁ (ok r) e h = h ∙ e
Leaves-later l l₁ (err x) e h = tt

Leaves-none : (n : ℕ) (l : Ledger) → Leaves l (ok (n, l))
unfolding Leaves
Leaves-none n l = refl

Leaves-err : (l : Ledger) (e : Error) → Leaves l (err e)
unfolding Leaves
Leaves-err l e = tt

Leaves-ok :
    (l l' : Ledger) (n : ℕ) (r : Result (ℕ × Ledger))
    → r ≡ ok (n, l')
    → Leaves l r
    → l'.payments ≡ l.payments
Leaves-ok l l' n r e h = let at : Leaves l (ok (n, l')) = rw (sym e) h in (unfold Leaves in at)

module _ (env : Env) (payment : Payment) where
  allocate_selected-Leaves :
      (remaining : ℕ) (ks : List ℕ) (l : Ledger)
      → Leaves l (allocate_selected env payment remaining ks l)
  unfolding allocate_selected allocate_to save_fee
  allocate_selected-Leaves remaining [] l = Leaves-none 0 l
  allocate_selected-Leaves remaining (k ∷ ks) l = elim (Option-cases (fee_row k l)) [
    | inl absent ↦ rw (allocate_selected, absent) (allocate_selected-Leaves remaining ks l)
    | inr (fee, row) ↦
        rw (allocate_selected, row)
          (elim (Bool-cases (remaining == 0)) [
            | inl done ↦ rw done (Leaves-none 0 l)
            | inr left ↦ rw left (elim (Result-cases (fee_remaining_amount env fee)) [
              | inr (e, bad) ↦ rw bad (Leaves-err l e)
              | inl (n, known) ↦
                  let a : ℕ = min remaining n in
                  let skip = save_fee (update_fee_status env fee) l in
                  let paid = (allocate_to env payment fee (100 * a) l).1 in
                  rw known (elim (Bool-cases (n == 0)) [
                    | inl full ↦
                        rw full
                          (Leaves-later l skip _ refl (allocate_selected-Leaves remaining ks skip))
                    | inr owed ↦ rw owed (
                        add_total-Leaves a l paid _ refl
                          (allocate_selected-Leaves (remaining - a) ks paid))
                  ])
            ])
          ])
  ]

-- The payment of a confirmation stands at the end.
pub settle_transaction-payments :
    (env : Env) (t : MobileMoneyTransaction) (reference : Option String) (l : Ledger) (p : Payment)
    (total : ℕ) (l' : Ledger)
    → settle_transaction env t reference l ≡ ok ((p, total), l')
    → (p ≡ mobile_payment env t reference l.drawn) × (l'.payments ≡ l.payments ++ p ∷ [])
unfolding settle_transaction allocate_payment
settle_transaction-payments env t reference l p total l' =
    let payment = mobile_payment env t reference l.drawn in
    let marked : Ledger = record l { payments = l.payments ++ payment ∷ []; drawn = l.drawn + 1 } in
    elim (Bool-cases (none_found (parsed_ids t.finance_item_ids) marked)) [
      | inl nothing ↦ rw (settle_transaction, nothing) (λ e. ground (arith, e))
      | inr some_fee ↦
          rw (settle_transaction, some_fee)
            (elim (Result-cases
              (allocate_selected env payment t.amount (parsed_ids t.finance_item_ids) marked)) [
                | inr (e, bad) ↦ rw (settle_transaction, bad) (λ e. ground (arith, e))
                | inl ((n, l₂), done) ↦
                    rw (settle_transaction, done)
                      (elim (Bool-cases (n == t.amount)) [
                        | inr short ↦ rw short (λ e. ground (arith, e))
                        | inl exact ↦ rw exact (λ e.
                            let out = ap (value ((p, total), l')) e in
                            let kept = Leaves-ok marked l₂ n _ done (
                              allocate_selected-Leaves env payment t.amount
                                (parsed_ids t.finance_item_ids) marked) in
                            let credited =
                              updated-rest env t.member_id l₂ (credit env (cents t) (100 * n))
                                (λ a. (refl, refl)) in
                            let same : payment ≡ p = ap (λ r. r.0.0) out in
                            (sym same, rw (← ap (λ r. r.1) out, ← same) (credited.1 ∙ kept)))
                      ])
              ])
    ]
