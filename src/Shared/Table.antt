-- ===== src/Shared/Table.antt =====
-- A database table as a list of rows: the queries and the writes of the SQLAlchemy session that the
-- handlers use, over the column `key` that holds the primary key.
pub mod Laws
pub mod Loaded
pub mod Aligned
pub mod Queries
use mathlib.Core.Path.{◌≡◌}
use mathlib.Core.Bool.{Bool}
use mathlib.Core.Option.{Option, none, some}
use mathlib.Core.List.{List, [], ◌∷◌}
use Prim.Native.Nat.{ℕ, zero, suc, ◌+◌}
use enactspace.Shared.Tests.{◌==◌, ltb, if◌then◌else◌}

module _ {ℓ} {A : Type ℓ} where
  -- `query.filter(p).first()`
  unfoldable pub first : (A → Bool) → List A → Option A
  first p [] = none
  first p (x ∷ xs) = if p x then some x else first p xs

  -- `query.filter(p).all()`
  unfoldable pub select : (A → Bool) → List A → List A
  select p [] = []
  select p (x ∷ xs) = let rest = select p xs in if p x then x ∷ rest else rest

  -- `query.limit(n)`
  unfoldable pub take : ℕ → List A → List A
  take zero xs = []
  take (suc n) [] = []
  take (suc n) (x ∷ xs) = x ∷ take n xs

  -- an UPDATE of every row that meets `p`
  unfoldable pub amend : (A → Bool) → (A → A) → List A → List A
  amend p f [] = []
  amend p f (x ∷ xs) = (if p x then f x else x) ∷ amend p f xs

  -- The sum of a column over the rows.
  unfoldable pub sum_by : (A → ℕ) → List A → ℕ
  sum_by w [] = 0
  sum_by w (x ∷ xs) = w x + sum_by w xs

  abbrev pub length : List A → ℕ
  length [] = 0
  length (x ∷ xs) = suc (length xs)

  -- A predicate that holds of every row.
  abbrev pub All {κ} : (A → Type κ) → List A → Type κ
  All P [] = Unit
  All P (x ∷ xs) = P x × All P xs

  module _ (key : A → ℕ) where
    -- `query.filter(Model.id == k).first()`
    unfoldable pub find_row : ℕ → List A → Option A
    find_row k [] = none
    find_row k (x ∷ xs) = if key x == k then some x else find_row k xs

    -- The write of one loaded object, at its primary key.
    unfoldable pub save_row : A → List A → List A
    save_row x [] = []
    save_row x (y ∷ ys) = if key y == key x then x ∷ ys else y ∷ save_row x ys

    unfoldable pub insert_row : A → List A → List A
    insert_row x [] = x ∷ []
    insert_row x (y ∷ ys) = if ltb (key y) (key x) then y ∷ insert_row x ys else x ∷ y ∷ ys

    -- `query.order_by(Model.id.asc())`
    unfoldable pub order_by : List A → List A
    order_by [] = []
    order_by (x ∷ xs) = insert_row x (order_by xs)

    -- No primary key stands twice.
    abbrev pub Unique : List A → Type ℓ
    Unique [] = Unit
    Unique (x ∷ xs) = (find_row (key x) xs ≡ none) × Unique xs
