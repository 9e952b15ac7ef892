-- ===== src/Ledger/Balance/Keys.antt =====
-- Primary keys drawn from `uuid4`: a new row keeps them distinct, and the later draws free.
use enactspace.Shared.{ℕ, ◌+◌, ◌≤◌, ◌≡◌, List, [], ◌∷◌, ◌++◌, arith}
use enactspace.Ledger.Models.{Ledger}
use enactspace.Shared.Table.{Unique}
use enactspace.Shared.Table.Laws.{append-Unique, find_row-append}
use enactspace.Ledger.Balance.{
  account_id, fee_id, payment_id, NeverRepeats, Fresh, KeyedAccounts, KeyedFees, KeyedPayments,
}

module _ {ℓ} {A : Type ℓ} (uuid4 : ℕ → ℕ) (key : A → ℕ) (d d' : ℕ) (t : List A) (later : d ≤ d')
    (fresh : Fresh uuid4 key d t) where
  pub Fresh-later : Fresh uuid4 key d' t
  Fresh-later k h = fresh k (omega arith)

  module _ (x : A) (drawn : key x ≡ uuid4 d') where
    pub drawn-Unique : Unique key t → Unique key (t ++ x ∷ [])
    drawn-Unique u = append-Unique key x t u (rw drawn (fresh d' later))

    pub drawn-Fresh : NeverRepeats uuid4 → Fresh uuid4 key (d' + 1) (t ++ x ∷ [])
    drawn-Fresh inj k h =
        ground (arith, find_row-append key (uuid4 k) x t, fresh k, inj d' k, drawn)

-- Tables that an operation leaves alone stay keyed, as later draws are free too.
module _ (uuid4 : ℕ → ℕ) (l l' : Ledger) (later : l.drawn ≤ l'.drawn) where
  pub KeyedAccounts-later :
      l'.accounts ≡ l.accounts → KeyedAccounts uuid4 l → KeyedAccounts uuid4 l'
  KeyedAccounts-later e h = record {
    ids = rw e h.ids;
    users = rw e h.users;
    fresh = rw e (Fresh-later uuid4 account_id l.drawn l'.drawn l.accounts later h.fresh);
  }

  pub KeyedFees-later : l'.fees ≡ l.fees → KeyedFees uuid4 l → KeyedFees uuid4 l'
  KeyedFees-later e h = record {
    ids = rw e h.ids;
    fresh = rw e (Fresh-later uuid4 fee_id l.drawn l'.drawn l.fees later h.fresh);
  }

  pub KeyedPayments-later :
      l'.payments ≡ l.payments → KeyedPayments uuid4 l → KeyedPayments uuid4 l'
  KeyedPayments-later e h = record {
    ids = rw e h.ids;
    fresh = rw e (Fresh-later uuid4 payment_id l.drawn l'.drawn l.payments later h.fresh);
  }
