-- ===== src/Ledger/Balance/Allocation.antt =====
-- `allocate_payment_to_unpaid_fees`, and what it does to the debts of the members.
use enactspace.Shared.{
  ℕ, ◌+◌, ◌-◌, ◌≤◌, ◌≡◌, refl, ◌∙◌, min, inl, inr, Bool, true, ◌&&◌, List, [], ◌∷◌, ◌==◌, arith,
  Bool-cases,
}
use enactspace.Shared.Env.{Env}
use enactspace.Shared.Table.{save_row, select, sum_by, Unique, All}
use enactspace.Shared.Table.Laws.{select-All, All-select, All-and, sum_by-order_by, sum_by-select}
use enactspace.Shared.Table.Loaded.{Stored, save-Stored, All-order_by, loaded-Stored, loaded-Unique}
use enactspace.Ledger.Models.{Fee, Payment, PaymentAllocation, Ledger, is_open}
use enactspace.Ledger.Accounts.{
  save_fee, update_fee_status, allocate_to, allocate_loop, allocate_payment_to_unpaid_fees,
  open_fees,
}
use enactspace.Ledger.Balance.{fee_id, InRange, due_of, fee_due}
use enactspace.Ledger.Balance.Settles.{
  Settles, Settles-refl, Settles-trans, paid_on, paid_on-id, paid_on-Settles,
}

abbrev pub allocated : List PaymentAllocation → ℕ
allocated = sum_by (λ (a : PaymentAllocation). a.amount)

abbrev pub lack : Fee → ℕ
lack f = f.amount - f.amount_paid

-- An open fee of the member `u`, within its range.
abbrev pub IsOpenFee : ℕ → Fee → Type 0
IsOpenFee u f = (f.user_id ≡ u) × (is_open f.status ≡ true) × InRange f

module _ (env : Env) (payment : Payment) (u : ℕ) where
  -- The loop pays as much as is left, over the fees that are loaded.
  allocate_loop-amount :
      (remaining : ℕ) (fees : List Fee) (l : Ledger)
      → allocated (allocate_loop env payment remaining fees l).0 ≡ min remaining (sum_by lack fees)
  unfolding allocate_loop sum_by
  allocate_loop-amount remaining [] l = omega arith
  allocate_loop-amount remaining (fee ∷ fees) l = ground (
    arith,
    allocate_loop-amount remaining fees (save_fee (update_fee_status env fee) l),
    allocate_loop-amount (remaining - min remaining (lack fee)) fees
        (allocate_to env payment fee (min remaining (lack fee)) l).1,
  )

  module _ (fee : Fee) (fees : List Fee) (l : Ledger) (stored : Stored fee_id l.fees (fee ∷ fees))
      (distinct : Unique fee_id (fee ∷ fees)) (open_fee : IsOpenFee u fee) where
    -- a round of the loop that pays `n`, which leaves `p` paid on the fee
    round-Settles :
        (p n : ℕ) (l' : Ledger) (paid : p ≡ fee.amount_paid + n) (fits : n ≤ lack fee)
        → l'.fees ≡ save_row fee_id (paid_on env fee p n paid open_fee.1 fits) l.fees
        → l'.accounts ≡ l.accounts
        → l'.payments ≡ l.payments
        → l'.transactions ≡ l.transactions
        → l.drawn ≤ l'.drawn
        → Settles env u n l l' × Stored fee_id l'.fees fees
    round-Settles p n l' paid fits e a q t d =
        let same_id = paid_on-id env fee p n paid open_fee.1 fits in
        (
          paid_on-Settles env fee p n paid open_fee.1 fits u l l' open_fee.0 stored.0 open_fee.2 e a
              q t d,
          rw e (
              save-Stored fee_id (paid_on env fee p n paid open_fee.1 fits) l.fees fees
                (rw same_id distinct.0) stored.1),
        )

  allocate_loop-Settles :
      (remaining : ℕ) (fees : List Fee) (l : Ledger)
      → Stored fee_id l.fees fees
      → Unique fee_id fees
      → All (IsOpenFee u) fees
      → let (allocations, l') = allocate_loop env payment remaining fees l in
        Settles env u (allocated allocations) l l'
  unfolding allocate_loop sum_by
  allocate_loop-Settles remaining [] l s d o = Settles-refl l
  allocate_loop-Settles remaining (fee ∷ fees) l s d o =
      let n : ℕ = min remaining (lack fee) in
      let skip = save_fee (update_fee_status env fee) l in
      let pay = (allocate_to env payment fee n l).1 in
      let (skipped, skipped_stored) =
        round-Settles fee fees l s d o.0 fee.amount_paid 0 skip (omega arith) (omega arith) refl
          refl refl refl (omega arith) in
      let (settled, settled_stored) =
        round-Settles fee fees l s d o.0 (fee.amount_paid + n) n pay refl (omega arith) refl refl
          refl refl (omega arith) in
      elim (Bool-cases (remaining == 0)) [
        | inl done ↦ rw done (Settles-refl l)
        | inr left ↦ rw left (elim (Bool-cases (lack fee == 0)) [
          | inl full ↦ rw full (
              Settles-trans (omega arith) skipped
                (allocate_loop-Settles remaining fees skip skipped_stored d.1 o.1))
          | inr owed ↦ rw owed (
              Settles-trans refl settled
                (allocate_loop-Settles (remaining - n) fees pay settled_stored d.1 o.1))
        ])
      ]

module _ (env : Env) (payment : Payment) (l : Ledger) where
  abbrev u : ℕ
  u = payment.user_id

  abbrev may_settle : Fee → Bool
  may_settle f = f.user_id == u && is_open f.status

  loaded_lack : sum_by lack (open_fees env payment l) ≡ due_of u l
  unfolding open_fees fee_due
  loaded_lack =
      sum_by-order_by fee_id lack (select may_settle l.fees) ∙ sum_by-select lack may_settle l.fees

  loaded_open : All InRange l.fees → All (IsOpenFee u) (open_fees env payment l)
  unfolding open_fees
  loaded_open range = All-order_by fee_id (IsOpenFee u) (select may_settle l.fees) (
      All-and (λ f. may_settle f ≡ true) InRange (IsOpenFee u) (select may_settle l.fees)
        (λ f h r. ground arith) (select-All may_settle l.fees)
        (All-select InRange may_settle l.fees range))

  -- A payment is allocated up to the smaller of its amount and what the member's open fees lack.
  pub allocate-amount :
      allocated (allocate_payment_to_unpaid_fees env payment l).0 ≡ min payment.amount (due_of u l)
  unfolding allocate_payment_to_unpaid_fees
  allocate-amount =
      rw (← loaded_lack)
        (allocate_loop-amount env payment u payment.amount (open_fees env payment l) l)

  -- Where fees have distinct identifiers and none is overpaid, the debt of the member falls by what
  -- is allocated, no other debt changes, no fee is overpaid, no fee identifier is added, the
  -- identifiers stay distinct, and accounts, payments and the cash book stay as they were.
  pub allocate-Settles :
      Unique fee_id l.fees
      → All InRange l.fees
      → let (allocations, l') = allocate_payment_to_unpaid_fees env payment l in
        Settles env u (allocated allocations) l l'
  unfolding allocate_payment_to_unpaid_fees
  allocate-Settles ids range =
      allocate_loop-Settles env payment u payment.amount (open_fees env payment l) l
        (unfold open_fees in loaded-Stored fee_id may_settle l.fees ids)
        (unfold open_fees in loaded-Unique fee_id may_settle l.fees ids) (loaded_open range)
