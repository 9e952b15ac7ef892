-- ===== src/Attendance/Penalty/Consistency.antt =====
-- Consistency of the ledger over the sync of a penalty.
use enactspace.Shared.{
  ℕ, ◌+◌, ◌-◌, ◌≤◌, ◌≡◌, refl, inl, inr, true, none, some, [], ◌∷◌, ◌++◌, same_id, arith,
  Bool-cases, Option-cases, if◌then◌else◌, Option,
}
use enactspace.Shared.Int.{ℤ, nonpositive, to_ℕ}
use enactspace.Shared.Env.{Env}
use enactspace.Shared.Table.{All, find_row, sum_by}
use enactspace.Shared.Table.Laws.{
  sum_by-append, sum_by-save, save-Unique, find_row-save_none, All-append, All-save, All-find,
}
use enactspace.Shared.Table.Queries.{first-find_row, first-true}
use enactspace.People.Models.{User}
use enactspace.Ledger.Models.{FinancialAccount, Fee, Ledger, is_paid}
use enactspace.Ledger.Accounts.{
  update_account, charge, discharge, save_fee, ensure_financial_account, save_account, account_of,
}
use enactspace.Ledger.Balance.{fee_id, NeverRepeats, InRange, fee_due, KeyedFees, IsConsistent}
use enactspace.Ledger.Balance.Accounts.{ensured, opened}
use enactspace.Ledger.Balance.Keys.{drawn-Unique, drawn-Fresh}
use enactspace.Attendance.Models.{AttendanceRecord}
use enactspace.Attendance.Penalty.{
  penalty_of, fee_is_cancelled, cancelled_penalty, cancel_penalty, revised_penalty,
  previous_remaining, rebalance, new_penalty, remove_attendance_penalty, remove_found,
  revise_penalty, add_penalty, set_penalty, sync_penalty,
}
use enactspace.Attendance.Penalty.Moves.{
  OnlyFees, MovesDebt, Rebalances, Moved, moves-Moved, unmoved,
}

-- A fee that says it is paid lacks nothing.
abbrev pub PaidInFull : Fee → Type 0
PaidInFull f = is_paid f.status ≡ true → f.amount ≤ f.amount_paid

-- A penalty of the record is a fee of its member.
abbrev pub OfRecord : AttendanceRecord → Fee → Type 0
OfRecord r f =
    same_id f.related_attendance_id (some r.id) ≡ true → (f.user_id ≡ r.user_id) × PaidInFull f

-- What the penalty of a record lacks before a sync, and what was paid on it.
abbrev pub outstanding : Env → Option Fee → ℕ
outstanding env none = 0
outstanding env (some fee) = previous_remaining env fee

abbrev pub paid_of : Option Fee → ℕ
paid_of none = 0
paid_of (some fee) = fee.amount_paid

-- What a sync to the amount leaves to pay.
abbrev pub demanded : ℤ → Option Fee → ℕ
demanded amount penalty = if nonpositive amount then 0 else to_ℕ amount - paid_of penalty

sub_zero : (n : ℕ) → n - 0 ≡ n
sub_zero n = omega arith

-- The write of a fee and that of an account are of two tables.
module _ (env : Env) (u : ℕ) (fee : Fee) (l : Ledger) where
  ensured_after : ensured env u (save_fee fee l) ≡ ensured env u l
  unfolding save_fee ensure_financial_account
  ensured_after = elim (Option-cases (account_of u l.accounts)) [
    | inl e ↦ rw (e, ensured) refl
    | inr (a, e) ↦ rw (e, ensured) refl
  ]

  opened_after : opened env u (save_fee fee l) ≡ save_fee fee (opened env u l)
  unfolding save_fee ensure_financial_account
  opened_after = elim (Option-cases (account_of u l.accounts)) [
    | inl e ↦ rw (e, opened) refl
    | inr (a, e) ↦ rw (e, opened) refl
  ]

  save_fee-update_account :
      (write : FinancialAccount → FinancialAccount)
      → save_fee fee (update_account env u write l) ≡ update_account env u write (save_fee fee l)
  unfolding update_account save_account
  save_fee-update_account write = rw (ensured_after, opened_after) (unfold save_fee in refl)

module _ (env : Env) (inj : NeverRepeats env.uuid4) (l : Ledger)
    (h : IsConsistent env.uuid4 l) where
  -- The fee of a member is written over by another of the member, and the balance with it.
  module _ (fee fee' : Fee) (found : find_row fee_id fee.id l.fees ≡ some fee)
      (same : (fee'.id ≡ fee.id) × (fee'.user_id ≡ fee.user_id)) (range : InRange fee')
      (u gone due : ℕ) (owner : fee.user_id ≡ u) (lost : fee_due u fee ≡ gone)
      (gained : fee_due u fee' ≡ due) where
    at : find_row fee_id fee'.id l.fees ≡ some fee
    at = rw same.0 found

    only : OnlyFees l (save_fee fee' l)
    unfolding save_fee
    only = record { accounts = refl; payments = refl; transactions = refl; later = omega arith }

    keyed : KeyedFees env.uuid4 (save_fee fee' l)
    unfolding save_fee
    keyed = record {
      ids = save-Unique fee_id fee' l.fees h.fees.ids;
      fresh = λ k d. find_row-save_none fee_id (env.uuid4 k) fee' l.fees (h.fees.fresh k d);
    }

    moves : MovesDebt u gone due l (save_fee fee' l)
    unfolding save_fee
    moves v =
        unfold fee_due in
        ground
          (arith, same.1, owner, lost, gained, sum_by-save fee_id (fee_due v) fee' fee l.fees at)

    rewrite_fee-Moved :
        (write : FinancialAccount → FinancialAccount)
        → Rebalances gone due write
        → Moved env.uuid4 u gone due l (update_account env u write (save_fee fee' l))
    rewrite_fee-Moved write rebalances =
        moves-Moved env inj l (save_fee fee' l) h only keyed
          (unfold save_fee in All-save fee_id InRange fee' l.fees range h.range) u gone due write
          moves rebalances

  module _ (r : AttendanceRecord) where
    -- A fee that is open, or was cancelled, takes the amount; its member is the record's.
    revise-Moved :
        (amount : ℕ) (fee : Fee)
        → find_row fee_id fee.id l.fees ≡ some fee
        → fee.user_id ≡ r.user_id
        → PaidInFull fee
        → Moved env.uuid4 r.user_id
            (previous_remaining env fee)
            (amount - fee.amount_paid)
            l
            (revise_penalty env r amount fee l).1
    unfolding revise_penalty revised_penalty
    revise-Moved amount fee found owner full =
        let fee' = revised_penalty env r amount fee in
        let range : InRange fee' = ground arith in
        let within = All-find fee_id InRange fee.id l.fees fee h.range found in
        rewrite_fee-Moved fee fee' found (refl, refl) range r.user_id (previous_remaining env fee)
          (amount - fee.amount_paid) owner (unfold fee_due in ground arith)
          (unfold fee_due in ground arith)
          (rebalance env (previous_remaining env fee) (fee'.amount - fee.amount_paid))
          (record { keeps = λ a. (refl, refl); balance = λ a. ground arith; credit = λ a. refl })

    cancel-Moved :
        (fee : Fee)
        → find_row fee_id fee.id l.fees ≡ some fee
        → fee.user_id ≡ r.user_id
        → PaidInFull fee
        → Moved env.uuid4 r.user_id
            (previous_remaining env fee)
            0
            l
            (cancel_penalty env r.user_id fee l)
    unfolding cancel_penalty cancelled_penalty
    cancel-Moved fee found owner full = elim (Bool-cases (fee_is_cancelled fee.status)) [
      | inl e ↦ rw e (unmoved env.uuid4 r.user_id l h)
      | inr e ↦
          let fee' = cancelled_penalty env fee in
          let range = All-find fee_id InRange fee.id l.fees fee h.range found in
          let lack = fee.amount - fee.amount_paid in
          rw (e, save_fee-update_account)
            (rewrite_fee-Moved fee fee' found (refl, refl) range r.user_id lack 0 owner
              (unfold fee_due in ground arith) (unfold fee_due in ground arith) (discharge env lack)
              (record {
                keeps = λ a. (refl, refl);
                balance = λ a. omega arith;
                credit = λ a. refl;
              }))
    ]

    -- what the query for the penalty gives
    found_row :
        (fee : Fee) → penalty_of r.id l.fees ≡ some fee → find_row fee_id fee.id l.fees ≡ some fee
    unfolding penalty_of
    found_row fee e =
        first-find_row (λ (f : Fee). same_id f.related_attendance_id (some r.id)) fee_id l.fees fee
          h.fees.ids e

    found_owner :
        (fee : Fee)
        → All (OfRecord r) l.fees
        → penalty_of r.id l.fees ≡ some fee
        → (fee.user_id ≡ r.user_id) × PaidInFull fee
    unfolding penalty_of
    found_owner fee own e =
        All-find fee_id (OfRecord r) fee.id l.fees fee own (found_row fee e)
          (first-true (λ (f : Fee). same_id f.related_attendance_id (some r.id)) l.fees fee e)

    -- A new fee raises the balance and the debt of its member by its amount.
    add-Moved :
        (current_user : User) (amount : ℕ)
        → Moved env.uuid4 r.user_id 0 amount l (add_penalty env current_user r amount l).1
    unfolding add_penalty new_penalty
    add-Moved current_user amount =
        let fee = new_penalty env current_user r amount l.drawn in
        let grown : Ledger = record l { fees = l.fees ++ fee ∷ []; drawn = l.drawn + 1 } in
        let keyed : KeyedFees env.uuid4 grown = record {
          ids =
              drawn-Unique env.uuid4 fee_id l.drawn l.drawn l.fees (omega arith) h.fees.fresh fee
                refl h.fees.ids;
          fresh =
              drawn-Fresh env.uuid4 fee_id l.drawn l.drawn l.fees (omega arith) h.fees.fresh fee
                refl inj;
        } in
        let moves : MovesDebt r.user_id 0 amount l grown =
          λ v. rw sum_by-append (unfold fee_due sum_by in ground arith) in
        moves-Moved env inj l grown h
          (record { accounts = refl; payments = refl; transactions = refl; later = omega arith })
          keyed (All-append InRange l.fees fee h.range (omega arith)) r.user_id 0 amount
          (charge env amount) moves
          (record { keeps = λ a. (refl, refl); balance = λ a. omega arith; credit = λ a. refl })

    module _ (own : All (OfRecord r) l.fees) where
      remove-Moved :
          Moved env.uuid4 r.user_id
            (outstanding env (penalty_of r.id l.fees))
            0
            l
            (remove_attendance_penalty env r l).1
      unfolding remove_attendance_penalty remove_found
      remove-Moved = elim (Option-cases (penalty_of r.id l.fees)) [
        | inl e ↦ rw e (unmoved env.uuid4 r.user_id l h)
        | inr (fee, e) ↦
            let (owner, full) = found_owner fee own e in
            rw e (cancel-Moved fee (found_row fee e) owner full)
      ]

      set-Moved :
          (current_user : User) (amount : ℕ)
          → Moved env.uuid4 r.user_id
              (outstanding env (penalty_of r.id l.fees))
              (amount - paid_of (penalty_of r.id l.fees))
              l
              (set_penalty env current_user r amount (penalty_of r.id l.fees) l).1
      unfolding set_penalty
      set-Moved current_user amount = elim (Option-cases (penalty_of r.id l.fees)) [
        | inl e ↦ rw e (rw (sub_zero amount) (add-Moved current_user amount))
        | inr (fee, e) ↦
            let (owner, full) = found_owner fee own e in
            rw e (revise-Moved amount fee (found_row fee e) owner full)
      ]

      -- On a consistent ledger, the sync of a record's penalty keeps the ledger consistent and moves
      -- the balance of the record's member alone: it loses what the penalty lacked, and gains the
      -- amount that is asked for less what was paid on the penalty, or nothing where no positive
      -- amount is asked for. The fees of the record are the member's, and one that says it is paid
      -- lacks nothing. `uuid4` gives no value twice.
      pub sync_penalty-Moved :
          (current_user : User) (amount : ℤ)
          → Moved env.uuid4 r.user_id
              (outstanding env (penalty_of r.id l.fees))
              (demanded amount (penalty_of r.id l.fees))
              l
              (sync_penalty env current_user r amount l).1
      unfolding sync_penalty
      sync_penalty-Moved current_user amount = elim (Bool-cases (nonpositive amount)) [
        | inl e ↦ rw e remove-Moved
        | inr e ↦ rw e (set-Moved current_user (to_ℕ amount))
      ]
