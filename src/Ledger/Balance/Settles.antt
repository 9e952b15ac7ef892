-- ===== src/Ledger/Balance/Settles.antt =====
-- Writes of fees that lower the debt of one member by a known amount.
use enactspace.Shared.{
  ℕ, ◌+◌, ◌-◌, ◌≤◌, ◌≡◌, ◌≢◌, refl, ◌∙◌, true, none, some, ◌==◌, arith, if◌then◌else◌,
}
use enactspace.Shared.Env.{Env}
use enactspace.Shared.Table.{find_row, save_row, Unique, All}
use enactspace.Shared.Table.Laws.{find_row-save_none, save-Unique, sum_by-save, All-save}
use enactspace.Ledger.Models.{Fee, Ledger, is_open}
use enactspace.Ledger.Accounts.{update_fee_status}
use enactspace.Ledger.Balance.{fee_id, InRange, due_of, fee_due}

pub record Settles (env : Env) (u n : ℕ) (l l' : Ledger) : Type 0 where
  pub due : due_of u l' + n ≡ due_of u l
  pub others : (v : ℕ) → u ≢ v → due_of v l' ≡ due_of v l
  pub range : All InRange l.fees → All InRange l'.fees
  pub ids : Unique fee_id l.fees → Unique fee_id l'.fees
  pub fresh : (k : ℕ) → find_row fee_id k l.fees ≡ none → find_row fee_id k l'.fees ≡ none
  pub accounts : l'.accounts ≡ l.accounts
  pub payments : l'.payments ≡ l.payments
  pub transactions : l'.transactions ≡ l.transactions
  pub drawn : l.drawn ≤ l'.drawn

module _ {env : Env} {u : ℕ} where
  pub Settles-refl : (l : Ledger) → Settles env u 0 l l
  Settles-refl l = record {
    due = omega arith;
    others = λ v h. refl;
    range = λ h. h;
    ids = λ h. h;
    fresh = λ k h. h;
    accounts = refl;
    payments = refl;
    transactions = refl;
    drawn = omega arith;
  }

  pub Settles-trans :
      {m n k : ℕ} {l l' l'' : Ledger}
      → k ≡ m + n
      → Settles env u m l l'
      → Settles env u n l' l''
      → Settles env u k l l''
  Settles-trans e s t = record {
    due = omega (arith, s.due, t.due);
    others = λ v h. t.others v h ∙ s.others v h;
    range = λ h. t.range (s.range h);
    ids = λ h. t.ids (s.ids h);
    fresh = λ k h. t.fresh k (s.fresh k h);
    accounts = t.accounts ∙ s.accounts;
    payments = t.payments ∙ s.payments;
    transactions = t.transactions ∙ s.transactions;
    drawn = omega arith;
  }

-- The status never hides or shows a debt: what a fee of `u` adds to it is what the fee lacks.
pub fee_due-update_fee_status :
    (env : Env) (v : ℕ) (fee : Fee)
    → fee_due v (update_fee_status env fee)
      ≡ (if fee.user_id == v then fee.amount - fee.amount_paid else 0)
unfolding fee_due update_fee_status
fee_due-update_fee_status env v fee = ground arith

module _ (env : Env) (fee : Fee) (p n : ℕ) (paid : p ≡ fee.amount_paid + n)
    (open_fee : is_open fee.status ≡ true) (fits : n ≤ fee.amount - fee.amount_paid) where
  -- the fee after `n` more has been paid on it
  abbrev pub paid_on : Fee
  paid_on = update_fee_status env (record fee { amount_paid = p })

  pub paid_on-id : paid_on.id ≡ fee.id
  unfolding update_fee_status
  paid_on-id = ground arith

  paid_on-InRange : InRange fee → InRange paid_on
  unfolding update_fee_status
  paid_on-InRange r = ground arith

  paid_on-fee_due :
      (v : ℕ) → fee_due v paid_on + (if fee.user_id == v then n else 0) ≡ fee_due v fee
  paid_on-fee_due v =
      rw (fee_due-update_fee_status env v (record fee { amount_paid = p }))
        (unfold fee_due in rw open_fee (ground arith))

  -- The write of that fee, with whatever else happens outside the fees.
  pub paid_on-Settles :
      (u : ℕ) (l l' : Ledger)
      → fee.user_id ≡ u
      → find_row fee_id fee.id l.fees ≡ some fee
      → InRange fee
      → l'.fees ≡ save_row fee_id paid_on l.fees
      → l'.accounts ≡ l.accounts
      → l'.payments ≡ l.payments
      → l'.transactions ≡ l.transactions
      → l.drawn ≤ l'.drawn
      → Settles env u n l l'
  paid_on-Settles u l l' owner found r e a q t d = record {
    due = rw e (
        ground (
          arith,
          sum_by-save fee_id (fee_due u) paid_on fee l.fees (rw paid_on-id found),
          paid_on-fee_due u,
        ));
    others = λ v ne. rw e (
        ground (
          arith,
          sum_by-save fee_id (fee_due v) paid_on fee l.fees (rw paid_on-id found),
          paid_on-fee_due v,
        ));
    range = λ all. rw e (All-save fee_id InRange paid_on l.fees (paid_on-InRange r) all);
    ids = λ u. rw e (save-Unique fee_id paid_on l.fees u);
    fresh = λ k free. rw e (find_row-save_none fee_id k paid_on l.fees free);
    accounts = a;
    payments = q;
    transactions = t;
    drawn = d;
  }
