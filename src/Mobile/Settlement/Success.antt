-- ===== src/Mobile/Settlement/Success.antt =====
-- When a mobile payment goes through.
use enactspace.Shared.{
  ℕ, ◌+◌, ◌-◌, ◌*◌, ◌≤◌, ◌≡◌, ◌≢◌, refl, sym, ap, ◌∙◌, min, inl, inr, true, false, Option, none,
  some, List, [], ◌∷◌, ◌++◌, String, ◌==◌, arith, Bool-cases,
}
use enactspace.Shared.Env.{Env}
use enactspace.Shared.Table.{All, find_row, save_row}
use enactspace.Shared.Table.Laws.{find_row-key, find_row-save_ne}
use enactspace.Ledger.Models.{Fee, Payment, Ledger}
use enactspace.Ledger.Accounts.{save_fee, update_fee_status, allocate_to, update_account, credit}
use enactspace.Ledger.Balance.{fee_id}
use enactspace.Ledger.Balance.Allocation.{lack}
use enactspace.Server.Handler.{Result, ok}
use enactspace.Mobile.Allocation.{
  fee_row, add_total, fee_remaining_amount, allocate_selected, allocate_payment, parsed_ids,
  none_found,
}
use enactspace.Mobile.Models.{MobileMoneyTransaction}
use enactspace.Mobile.Confirmation.{cents, mobile_payment, mobile_income, settle_transaction}
use enactspace.Mobile.Settlement.{Distinct, fee_remaining_amount-lack}

-- What the fees of the keys lack.
unfoldable pub lacks : List ℕ → List Fee → ℕ
lacks [] fees = 0
lacks (k ∷ ks) fees = elim (find_row fee_id k fees) [ none ↦ 0 | some f ↦ lack f ] + lacks ks fees

-- The fee stands, and lacks whole francs in a known currency.
abbrev pub IsWhole : Env → Ledger → ℕ → Type 0
IsWhole env l k = (f : Fee) × (n : ℕ) × (fee_row k l ≡ some f) × (fee_remaining_amount env f ≡ ok n)

module _ (env : Env) (payment : Payment) where
  -- The rows of other keys are the same after a write.
  unwritten :
      (k : ℕ) (ks : List ℕ) (f : Fee) (l l₁ : Ledger)
      → f.id ≡ k
      → l₁.fees ≡ save_row fee_id f l.fees
      → All (λ j. k ≢ j) ks
      → All (IsWhole env l) ks
      → All (IsWhole env l₁) ks × (lacks ks l₁.fees ≡ lacks ks l.fees)
  unfolding lacks
  unwritten k [] f l l₁ at e apart whole = (tt, refl)
  unwritten k (j ∷ ks) f l l₁ at e apart ((g, n, row, known), whole) =
      let same : fee_row j l₁ ≡ fee_row j l =
        rw e (find_row-save_ne fee_id j f l.fees (λ h. apart.0 (sym at ∙ h))) in
      let (rest, equal) = unwritten k ks f l l₁ at e apart.1 whole in
      (((g, n, same ∙ row, known), rest), rw (same, equal) refl)

  status_id : (f : Fee) → (update_fee_status env f).id ≡ f.id
  unfolding update_fee_status
  status_id f = ground arith

  -- a round that pays
  pays :
      (remaining k : ℕ) (ks : List ℕ) (l : Ledger) (f : Fee) (n : ℕ)
      → fee_row k l ≡ some f
      → (remaining == 0) ≡ false
      → fee_remaining_amount env f ≡ ok n
      → (n == 0) ≡ false
      → let a : ℕ = min remaining n in
        allocate_selected env payment remaining (k ∷ ks) l
        ≡ add_total a (
            allocate_selected env payment
              (remaining - a)
              ks
              (allocate_to env payment f (100 * a) l).1)
  unfolding allocate_selected
  pays remaining k ks l f n row left known owed =
      rw (allocate_selected, row, left, known, owed) refl

  -- Where the fees lack at least the amount, all of it is allocated.
  pub allocate_selected-whole :
      (remaining : ℕ) (ks : List ℕ) (l : Ledger)
      → Distinct ks
      → All (IsWhole env l) ks
      → 100 * remaining ≤ lacks ks l.fees
      → (l' : Ledger) × (allocate_selected env payment remaining ks l ≡ ok (remaining, l'))
  unfolding allocate_selected lacks allocate_to save_fee
  allocate_selected-whole remaining [] l distinct whole enough =
      let none_left : remaining ≡ 0 = omega (arith, enough) in (l, rw none_left refl)
  allocate_selected-whole remaining (k ∷ ks) l distinct ((f, n, row, known), whole) enough =
      elim (Bool-cases (remaining == 0)) [
        | inl done ↦
            let none_left : remaining ≡ 0 = ground (arith, done) in
            (l, rw (allocate_selected, row, done, none_left) refl)
        | inr left ↦
            let owes : 100 * remaining ≤ lack f + lacks ks l.fees = rw row at enough in
            let short = fee_remaining_amount-lack env f n known in
            let at : f.id ≡ k = find_row-key fee_id k l.fees f row in
            let a : ℕ = min remaining n in
            let skip = save_fee (update_fee_status env f) l in
            let paid = (allocate_to env payment f (100 * a) l).1 in
            elim (Bool-cases (n == 0)) [
              | inl full ↦
                  let (rest, same) =
                    unwritten k ks (update_fee_status env f) l skip (status_id f ∙ at) refl
                      distinct.0 whole in
                  let (l', e) =
                    allocate_selected-whole remaining ks skip distinct.1 rest
                      (rw same (ground (arith, owes, short, full))) in
                  (l', rw (allocate_selected, row, left, known, full) e)
              | inr owed ↦
                  let written = record f { amount_paid = f.amount_paid + 100 * a } in
                  let (rest, same) =
                    unwritten k ks (update_fee_status env written) l paid (status_id written ∙ at)
                      refl distinct.0 whole in
                  let (l', e) =
                    allocate_selected-whole (remaining - a) ks paid distinct.1 rest
                      (rw same (omega (arith, owes, short))) in
                  let sum : a + (remaining - a) ≡ remaining = omega arith in
                  let split : allocate_selected env payment remaining (k ∷ ks) l
                      ≡ ok (a + (remaining - a), l') =
                    pays remaining k ks l f n row left known owed ∙ ap (add_total a) e in
                  (l', split ∙ ap (λ (m : ℕ). Result.ok (m, l')) sum)
            ]
      ]

-- A mobile payment is confirmed, with all of its amount allocated, where the selected fees are
-- distinct, each of them stands and lacks whole francs in a known currency, there is at least one,
-- and together they lack at least the amount.
pub settle_transaction-whole :
    (env : Env) (t : MobileMoneyTransaction) (reference : Option String) (l : Ledger) (k : ℕ)
    (ks : List ℕ)
    → parsed_ids t.finance_item_ids ≡ k ∷ ks
    → Distinct (k ∷ ks)
    → All (IsWhole env l) (k ∷ ks)
    → 100 * t.amount ≤ lacks (k ∷ ks) l.fees
    → (p : Payment) × (l' : Ledger) × (settle_transaction env t reference l
        ≡ ok ((p, t.amount), l'))
unfolding settle_transaction allocate_payment none_found lacks
settle_transaction-whole env t reference l k ks ids distinct whole enough =
    let payment = mobile_payment env t reference l.drawn in
    let marked : Ledger = record l { payments = l.payments ++ payment ∷ []; drawn = l.drawn + 1 } in
    let (l₂, done) =
      allocate_selected-whole env payment t.amount (k ∷ ks) marked distinct whole enough in
    let found : none_found (k ∷ ks) marked ≡ false = rw whole.0.2 refl in
    let exact : (t.amount == t.amount) ≡ true = ground arith in
    let l₃ = update_account env t.member_id (credit env (cents t) (100 * t.amount)) l₂ in
    let booked : Ledger = record l₃ {
      transactions = l₃.transactions ++ mobile_income env t payment.id l₃.drawn ∷ [];
      drawn = l₃.drawn + 1;
    } in
    (payment, booked, rw (settle_transaction, ids, found, done, exact) refl)
