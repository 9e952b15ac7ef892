-- ===== src/Ledger/Balance/Totals.antt =====
-- The total of the members' balances, which the managers' statistics show.
use enactspace.Shared.{
  ℕ, ◌+◌, ◌-◌, ◌≡◌, refl, sym, ◌∙◌, is_none, Option-cases, inl, inr, none, some, List, [], ◌∷◌,
  arith, if◌then◌else◌,
}
use enactspace.Shared.Table.{find_row, sum_by, All, Unique}
use enactspace.Shared.Table.Loaded.{Stored-self}
use enactspace.Ledger.Models.{FinancialAccount, Fee, Ledger, is_open}
use enactspace.Ledger.Accounts.{account_of}
use enactspace.Ledger.CashBook.{finance_stats_payload}
use enactspace.Ledger.Balance.{IsConsistent, account_user, due_of, fee_due}

-- What a fee still lacks, whoever owes it.
unfoldable pub open_lack : Fee → ℕ
open_lack f = if is_open f.status then f.amount - f.amount_paid else 0

sum_by-zero : {A : Type 0} (xs : List A) → sum_by (λ _. 0) xs ≡ 0
unfolding sum_by
sum_by-zero [] = refl
sum_by-zero (x ∷ xs) = ground (arith, sum_by-zero xs)

sum_by-add :
    {A : Type 0} (v w : A → ℕ) (xs : List A)
    → sum_by (λ x. v x + w x) xs ≡ sum_by v xs + sum_by w xs
unfolding sum_by
sum_by-add v w [] = refl
sum_by-add v w (x ∷ xs) = ground (arith, sum_by-add v w xs)

sum_by-swap :
    {A B : Type 0} (w : A → B → ℕ) (xs : List A) (ys : List B)
    → sum_by (λ x. sum_by (w x) ys) xs ≡ sum_by (λ y. sum_by (λ x. w x y) xs) ys
unfolding sum_by
sum_by-swap w [] ys = sym (sum_by-zero ys)
sum_by-swap w (x ∷ xs) ys =
    ground (arith, sum_by-swap w xs ys, sum_by-add (w x) (λ y. sum_by (λ x'. w x' y) xs) ys)

sum_by-All :
    {A : Type 0} (v w : A → ℕ) (xs : List A) → All (λ x. v x ≡ w x) xs → sum_by v xs ≡ sum_by w xs
unfolding sum_by
sum_by-All v w [] h = refl
sum_by-All v w (x ∷ xs) h = ground (arith, h.0, sum_by-All v w xs h.1)

-- a fee counts at the one account of its member
fee_accounts :
    (f : Fee) (accounts : List FinancialAccount)
    → Unique account_user accounts
    → sum_by (λ a. fee_due (account_user a) f) accounts
      ≡ (if is_none (account_of f.user_id accounts) then 0 else open_lack f)
unfolding sum_by fee_due open_lack find_row
fee_accounts f [] u = refl
fee_accounts f (a ∷ rest) u = ground (arith, u.0, fee_accounts f rest u.1)

zero_terms : {A : Type 0} (w : A → ℕ) (xs : List A) → sum_by w xs ≡ 0 → All (λ x. w x ≡ 0) xs
unfolding sum_by
zero_terms w [] e = tt
zero_terms w (x ∷ xs) e = (omega arith, zero_terms w xs (omega arith))

module _ {A : Type 0} where
  All-map : (P Q : A → Type 0) → ((x : A) → P x → Q x) → (xs : List A) → All P xs → All Q xs
  All-map P Q f [] h = tt
  All-map P Q f (x ∷ xs) h = (f x h.0, All-map P Q f xs h.1)

module _ (uuid4 : ℕ → ℕ) (l : Ledger) (h : IsConsistent uuid4 l) where
  account_balances :
      sum_by (λ (a : FinancialAccount). a.balance_due) l.accounts
      ≡ sum_by (λ (a : FinancialAccount). due_of a.user_id l) l.accounts
  account_balances = sum_by-All _ _ l.accounts (
      All-map (λ a. account_of a.user_id l.accounts ≡ some a)
        (λ a. a.balance_due ≡ due_of a.user_id l)
        (λ a own. ground (arith, own, h.balanced a.user_id)) l.accounts
        (Stored-self account_user l.accounts h.accounts.users))

  -- the fees of a member without an account lack nothing
  fee_counts :
      (fees : List Fee)
      → ((u : ℕ) → account_of u l.accounts ≡ none → sum_by (fee_due u) fees ≡ 0)
      → All
          (λ f.
            (if is_none (account_of f.user_id l.accounts) then 0 else open_lack f) ≡ open_lack f)
          fees
  unfolding sum_by fee_due open_lack
  fee_counts [] z = tt
  fee_counts (f ∷ fs) z = (
    elim (Option-cases (account_of f.user_id l.accounts)) [
      | inl absent ↦ ground (arith, z f.user_id absent)
      | inr (a, found) ↦ ground (arith, found)
    ],
    fee_counts fs (λ u absent. omega (arith, z u absent)),
  )

  balances-open_lack :
      sum_by (λ (a : FinancialAccount). a.balance_due) l.accounts ≡ sum_by open_lack l.fees
  balances-open_lack =
      account_balances
      ∙ sum_by-swap (λ a. fee_due (account_user a)) l.accounts l.fees
      ∙ sum_by-All _ _ l.fees (
          All-map
            (λ f.
              (if is_none (account_of f.user_id l.accounts) then 0 else open_lack f) ≡ open_lack f)
            (λ f. sum_by (λ a. fee_due (account_user a) f) l.accounts ≡ open_lack f)
            (λ f e. fee_accounts f l.accounts h.accounts.users ∙ e) l.fees
            (fee_counts l.fees (λ u absent. ground (arith, absent, h.balanced u))))

-- On a consistent ledger, the total due of the statistics is the sum of what the open fees lack.
pub finance_stats-total_due :
    (uuid4 : ℕ → ℕ) (l : Ledger)
    → IsConsistent uuid4 l
    → (finance_stats_payload l.accounts l.fees l.payments l.transactions).total_due
      ≡ sum_by open_lack l.fees
unfolding finance_stats_payload
finance_stats-total_due uuid4 l h = balances-open_lack uuid4 l h
