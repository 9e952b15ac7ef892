-- ===== src/Ledger/Balance/Accounts.antt =====
-- The write of one member's account, as all members see it.
use enactspace.Shared.{
  ℕ, ◌+◌, ◌≤◌, ◌≡◌, ◌≢◌, ◌⊎◌, inl, inr, refl, none, some, List, [], ◌∷◌, ◌++◌, ◌==◌, arith,
  if◌then◌else◌, Option-cases,
}
use enactspace.Shared.Env.{Env}
use enactspace.Shared.Table.{find_row, save_row}
use enactspace.Shared.Table.Laws.{
  find_row-key, find_row-save_ne, find_row-save_self, find_row-save_none, save-Unique,
  append-Unique, find_row-append, find_row-other, save_row-other,
}
use enactspace.Ledger.Models.{FinancialAccount, Ledger}
use enactspace.Ledger.Accounts.{
  account_of, ensure_financial_account, new_account, save_account, update_account,
}
use enactspace.Ledger.Balance.{
  account_id, account_user, NeverRepeats, KeyedAccounts, balance_of, total_paid_of,
}

module _ (env : Env) (u : ℕ) (l : Ledger) where
  -- the account that a handler writes, and the ledger that holds it
  abbrev pub ensured : FinancialAccount
  ensured = (ensure_financial_account env u l).0

  abbrev pub opened : Ledger
  opened = (ensure_financial_account env u l).1

  -- Either the account was there, or a new one stands at the end.
  opened-cases :
      ((account_of u l.accounts ≡ some ensured) × (opened ≡ l))
      ⊎ ((account_of u l.accounts ≡ none)
          × (ensured ≡ new_account env l.drawn u)
          × (opened ≡ record l {
            accounts = l.accounts ++ new_account env l.drawn u ∷ [];
            drawn = l.drawn + 1;
          }))
  unfolding ensure_financial_account
  opened-cases = elim (Option-cases (account_of u l.accounts)) [
    | inl absent ↦ inr (absent, rw (absent, ensured), rw (absent, opened))
    | inr (a, found) ↦ inl (rw (found, ensured), rw (found, opened))
  ]

  pub ensured-user : ensured.user_id ≡ u
  unfolding new_account
  ensured-user = elim opened-cases [
    | inl (found, same) ↦ find_row-key account_user u l.accounts ensured found
    | inr (absent, new, grown) ↦ rw new refl
  ]

  pub opened-KeyedAccounts :
      NeverRepeats env.uuid4 → KeyedAccounts env.uuid4 l → KeyedAccounts env.uuid4 opened
  unfolding new_account
  opened-KeyedAccounts inj keyed = elim opened-cases [
    | inl (found, same) ↦ rw same keyed
    | inr (absent, new, grown) ↦ rw grown (record {
      ids =
          append-Unique account_id (new_account env l.drawn u) l.accounts keyed.ids
            (keyed.fresh l.drawn (omega arith));
      users = append-Unique account_user (new_account env l.drawn u) l.accounts keyed.users absent;
      fresh = λ k h. ground (
        arith,
        find_row-append account_id (env.uuid4 k) (new_account env l.drawn u) l.accounts,
        keyed.fresh k,
        inj l.drawn k,
      );
    })
  ]

  pub opened-finds : find_row account_user u opened.accounts ≡ some ensured
  unfolding new_account
  opened-finds = elim opened-cases [
    | inl (found, same) ↦ rw same found
    | inr (absent, new, grown) ↦
        rw (grown, new)
          (ground (arith, find_row-append account_user u (new_account env l.drawn u) l.accounts))
  ]

  pub opened-finds_ne :
      (v : ℕ) → u ≢ v → find_row account_user v opened.accounts ≡ find_row account_user v l.accounts
  unfolding new_account
  opened-finds_ne v h = elim opened-cases [
    | inl (found, same) ↦ rw same refl
    | inr (absent, new, grown) ↦ rw grown (
        ground (
          arith,
          find_row-append account_user v (new_account env l.drawn u) l.accounts,
          Option-cases (find_row account_user v l.accounts),
        ))
  ]

  -- A new account owes and has paid nothing.
  pub ensured-balance :
      (ensured.balance_due ≡ balance_of u l) × (ensured.total_paid ≡ total_paid_of u l)
  unfolding new_account
  ensured-balance = elim opened-cases [
    | inl (found, same) ↦ rw found (refl, refl)
    | inr (absent, new, grown) ↦ rw (absent, new) (refl, refl)
  ]

  -- Nothing but the accounts is written.
  pub opened-rest :
      (opened.fees ≡ l.fees)
      × (opened.payments ≡ l.payments)
      × (opened.allocations ≡ l.allocations)
      × (opened.transactions ≡ l.transactions)
      × (l.drawn ≤ opened.drawn)
  opened-rest = elim opened-cases [
    | inl (found, same) ↦ rw same (refl, refl, refl, refl, omega arith)
    | inr (absent, new, grown) ↦ rw grown (refl, refl, refl, refl, omega arith)
  ]

-- A write of other columns than the two keys.
abbrev pub KeepsKeys : (FinancialAccount → FinancialAccount) → Type 0
KeepsKeys write = (a : FinancialAccount) → ((write a).id ≡ a.id) × ((write a).user_id ≡ a.user_id)

module _ (env : Env) (u : ℕ) (l : Ledger) (write : FinancialAccount → FinancialAccount)
    (keeps : KeepsKeys write) where
  abbrev updated : Ledger
  updated = update_account env u write l

  abbrev a : FinancialAccount
  a = ensured env u l

  abbrev t : List FinancialAccount
  t = (opened env u l).accounts

  finds_id : KeyedAccounts env.uuid4 (opened env u l) → find_row account_id (write a).id t ≡ some a
  finds_id keyed =
      rw (keeps a).0 (find_row-other account_user account_id u t a keyed.ids (opened-finds env u l))

  finds_user : find_row account_user (write a).user_id t ≡ some a
  finds_user = rw ((keeps a).1, ensured-user env u l) (opened-finds env u l)

  saved_by_user :
      KeyedAccounts env.uuid4 (opened env u l)
      → save_row account_id (write a) t ≡ save_row account_user (write a) t
  saved_by_user keyed =
      save_row-other account_id account_user (write a) a t (finds_id keyed) finds_user

  -- A write keeps the keys of the accounts.
  pub updated-KeyedAccounts :
      NeverRepeats env.uuid4 → KeyedAccounts env.uuid4 l → KeyedAccounts env.uuid4 updated
  unfolding update_account save_account
  updated-KeyedAccounts inj keyed =
      let keyed' = opened-KeyedAccounts env u l inj keyed in
      record {
        ids = save-Unique account_id (write a) t keyed'.ids;
        users = rw (saved_by_user keyed') (save-Unique account_user (write a) t keyed'.users);
        fresh = λ k h. find_row-save_none account_id (env.uuid4 k) (write a) t (keyed'.fresh k h);
      }

  -- The member sees the new account, every other member the account that was there.
  pub account_of-updated :
      (v : ℕ)
      → NeverRepeats env.uuid4
      → KeyedAccounts env.uuid4 l
      → account_of v updated.accounts ≡ (if u == v then some (write a) else account_of v l.accounts)
  unfolding update_account save_account
  account_of-updated v inj keyed = rw (saved_by_user (opened-KeyedAccounts env u l inj keyed)) (
      ground (
        arith,
        (keeps a).1,
        ensured-user env u l,
        find_row-save_self account_user v (write a) a t,
        opened-finds env u l,
        find_row-save_ne account_user v (write a) t,
        opened-finds_ne env u l v,
      ))

  pub updated-rest :
      (updated.fees ≡ l.fees)
      × (updated.payments ≡ l.payments)
      × (updated.allocations ≡ l.allocations)
      × (updated.transactions ≡ l.transactions)
      × (l.drawn ≤ updated.drawn)
  unfolding update_account save_account
  updated-rest = opened-rest env u l

  pub balance_of-updated :
      (v : ℕ)
      → NeverRepeats env.uuid4
      → KeyedAccounts env.uuid4 l
      → balance_of v updated ≡ (if u == v then (write a).balance_due else balance_of v l)
  balance_of-updated v inj keyed = rw (account_of-updated v inj keyed) (ground arith)

  pub total_paid_of-updated :
      (v : ℕ)
      → NeverRepeats env.uuid4
      → KeyedAccounts env.uuid4 l
      → total_paid_of v updated ≡ (if u == v then (write a).total_paid else total_paid_of v l)
  total_paid_of-updated v inj keyed = rw (account_of-updated v inj keyed) (ground arith)
