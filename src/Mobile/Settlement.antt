-- ===== src/Mobile/Settlement.antt =====
-- The allocation of a mobile payment, as the debts of the members see it.
pub mod Receipt
pub mod Success
use enactspace.Shared.{
  ℕ, ◌+◌, ◌-◌, ◌*◌, ◌/◌, ◌%◌, ◌≤◌, ◌≡◌, ◌≢◌, refl, sym, ◌∙◌, min, inl, inr, String, Bool, true,
  false, not, Option, none, some, List, [], ◌∷◌, ◌==◌, arith, Bool-cases, Option-cases, ◌⊎◌,
}
use enactspace.Shared.Env.{Env}
use enactspace.Shared.Table.{All, find_row, save_row}
use enactspace.Shared.Table.Laws.{find_row-key, find_row_self, find_row-save_ne, All-and}
use enactspace.Ledger.Models.{Fee, Payment, Ledger, is_open}
use enactspace.Ledger.Accounts.{save_fee, update_fee_status, allocate_to}
use enactspace.Ledger.Balance.{fee_id, InRange}
use enactspace.Ledger.Balance.Settles.{
  Settles, Settles-refl, Settles-trans, paid_on, paid_on-id, paid_on-Settles,
}
use enactspace.Ledger.Balance.Allocation.{lack, IsOpenFee}
use enactspace.Server.Handler.{Result, ok, err, Error}
use enactspace.Mobile.Allocation.{
  fee_row, add_total, normalize_currency, fee_remaining_amount, allocate_selected,
}

pub Result-cases :
    {A : Type 0} (r : Result A) → ((a : A) × (r ≡ Result.ok a)) ⊎ ((e : Error) × (r ≡ Result.err e))
Result-cases (ok a) = inl (a, refl)
Result-cases (err e) = inr (e, refl)

abbrev pub value : {A : Type 0} → A → Result A → A
value d (ok a) = a
value d (err e) = d

-- No key stands twice.
abbrev pub Distinct : List ℕ → Type 0
Distinct [] = Unit
Distinct (k ∷ ks) = All (λ j. k ≢ j) ks × Distinct ks

-- The fee of the key, where it stands, is an open fee of the member within its range.
abbrev pub Payable : ℕ → Ledger → ℕ → Type 0
Payable u l k = (f : Fee) → fee_row k l ≡ some f → IsOpenFee u f

module _ (env : Env) where
  -- What is left of a fee, in whole francs.
  pub fee_remaining_amount-lack :
      (fee : Fee) (n : ℕ) → fee_remaining_amount env fee ≡ ok n → 100 * n ≡ lack fee
  unfolding fee_remaining_amount
  fee_remaining_amount-lack fee n =
      elim (Result-cases (normalize_currency env (some fee.currency))) [
        | inr (bad, refused) ↦ rw (fee_remaining_amount, refused) (λ e. ground (arith, e))
        | inl (xof, known) ↦ rw (fee_remaining_amount, known) (λ e. ground (arith, e))
      ]

  -- The result settles that much of the debt of `u`, and no more than `remaining`.
  unfoldable pub Settled : ℕ → Ledger → ℕ → Result (ℕ × Ledger) → Type 0
  Settled u l remaining (ok r) = Settles env u (100 * r.0) l r.1 × (r.0 ≤ remaining)
  Settled u l remaining (err e) = Unit

  Settled-later :
      (u a remaining : ℕ) (l l₁ : Ledger) (r : Result (ℕ × Ledger))
      → a ≤ remaining
      → Settles env u (100 * a) l l₁
      → Settled u l₁ (remaining - a) r
      → Settled u l remaining (add_total a r)
  unfolding Settled
  Settled-later u a remaining l l₁ (ok (total, l₂)) fits s h =
      (Settles-trans (omega arith) s h.0, omega (arith, fits, h.1))
  Settled-later u a remaining l l₁ (err e) fits s h = tt

  Settled-none : (u remaining : ℕ) (l : Ledger) → Settled u l remaining (ok (0, l))
  unfolding Settled
  Settled-none u remaining l = (Settles-refl l, omega arith)

  Settled-Settles :
      (u remaining n : ℕ) (l l' : Ledger)
      → Settled u l remaining (ok (n, l'))
      → Settles env u (100 * n) l l'
  unfolding Settled
  Settled-Settles u remaining n l l' h = h.0

  pub Settled-ok :
      (u remaining n : ℕ) (l l' : Ledger) (r : Result (ℕ × Ledger))
      → r ≡ ok (n, l')
      → Settled u l remaining r
      → Settles env u (100 * n) l l'
  Settled-ok u remaining n l l' r e h =
      let done : Settled u l remaining (ok (n, l')) = rw (sym e) h in
      Settled-Settles u remaining n l l' done

  Settled-err : (u remaining : ℕ) (l : Ledger) (e : Error) → Settled u l remaining (err e)
  unfolding Settled
  Settled-err u remaining l e = tt

  Settled-after :
      (u remaining : ℕ) (l l₁ : Ledger) (r : Result (ℕ × Ledger))
      → Settles env u 0 l l₁
      → Settled u l₁ remaining r
      → Settled u l remaining r
  unfolding Settled
  Settled-after u remaining l l₁ (ok (total, l₂)) s h = (Settles-trans (omega arith) s h.0, h.1)
  Settled-after u remaining l l₁ (err e) s h = tt

module _ (env : Env) (payment : Payment) (u : ℕ) where
  module _ (fee : Fee) (k : ℕ) (ks : List ℕ) (l : Ledger) (row : fee_row k l ≡ some fee)
      (payable : All (Payable u l) (k ∷ ks)) (apart : All (λ j. k ≢ j) ks) where
    -- a round that pays `n` on the fee, which leaves `p` paid on it
    round-Settles :
        (p n : ℕ) (l₁ : Ledger) (paid : p ≡ fee.amount_paid + n) (fits : n ≤ lack fee)
        → l₁.fees ≡ save_row fee_id (paid_on env fee p n paid (payable.0 fee row).1 fits) l.fees
        → l₁.accounts ≡ l.accounts
        → l₁.payments ≡ l.payments
        → l₁.transactions ≡ l.transactions
        → l.drawn ≤ l₁.drawn
        → Settles env u n l l₁ × All (Payable u l₁) ks
    round-Settles p n l₁ paid fits e a q t d =
        let (owner, is_due, range) = payable.0 fee row in
        let at : fee.id ≡ k = find_row-key fee_id k l.fees fee row in
        (
          paid_on-Settles env fee p n paid is_due fits u l l₁ owner
              (find_row_self fee_id k l.fees fee row) range e a q t d,
          All-and (λ j. k ≢ j) (Payable u l) (Payable u l₁) ks
              (λ j ne open_fee f found.
                let same = paid_on-id env fee p n paid is_due fits in
                let moved : fee_row j l₁ ≡ fee_row j l = rw e (
                  find_row-save_ne fee_id j (paid_on env fee p n paid is_due fits) l.fees
                    (λ h. ne (sym at ∙ sym same ∙ h))) in
                open_fee f (sym moved ∙ found))
              apart payable.1,
        )

  -- Of the selected fees, each is settled up to what is left of the amount.
  pub allocate_selected-Settled :
      (remaining : ℕ) (ks : List ℕ) (l : Ledger)
      → Distinct ks
      → All (Payable u l) ks
      → Settled env u l remaining (allocate_selected env payment remaining ks l)
  unfolding allocate_selected allocate_to save_fee
  allocate_selected-Settled remaining [] l distinct payable = Settled-none env u remaining l
  allocate_selected-Settled remaining (k ∷ ks) l distinct payable =
      elim (Option-cases (fee_row k l)) [
        | inl absent ↦
            rw (allocate_selected, absent)
              (allocate_selected-Settled remaining ks l distinct.1 payable.1)
        | inr (fee, row) ↦
            rw (allocate_selected, row)
              (elim (Bool-cases (remaining == 0)) [
                | inl done ↦ rw done (Settled-none env u remaining l)
                | inr left ↦ rw left (elim (Result-cases (fee_remaining_amount env fee)) [
                  | inr (e, bad) ↦ rw bad (Settled-err env u remaining l e)
                  | inl (n, known) ↦
                      let fits = fee_remaining_amount-lack env fee n known in
                      let a : ℕ = min remaining n in
                      let skip = save_fee (update_fee_status env fee) l in
                      let paid = (allocate_to env payment fee (100 * a) l).1 in
                      let (skipped, payable₁) =
                        round-Settles fee k ks l row payable distinct.0 fee.amount_paid 0 skip
                          (omega arith) (omega arith) refl refl refl refl (omega arith) in
                      let (settled, payable₂) =
                        round-Settles fee k ks l row payable distinct.0 (fee.amount_paid + 100 * a)
                          (100 * a) paid refl (omega (arith, fits)) refl refl refl refl
                          (omega arith) in
                      rw known (elim (Bool-cases (n == 0)) [
                        | inl full ↦ rw full (
                            Settled-after env u remaining l skip _ skipped
                              (allocate_selected-Settled remaining ks skip distinct.1 payable₁))
                        | inr owed ↦ rw owed (
                            Settled-later env u a remaining l paid _ (omega arith) settled (
                              allocate_selected-Settled (remaining - a) ks paid distinct.1
                                payable₂))
                      ])
                ])
              ])
      ]
