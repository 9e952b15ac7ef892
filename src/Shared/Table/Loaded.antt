-- ===== src/Shared/Table/Loaded.antt =====
-- What a query loads: the rows of `select` and `order_by` are rows of the table, each once, and a
-- write of one loaded row leaves the others as they were loaded.
use mathlib.Core.Path.{◌≡◌, refl, ◌∙◌}
use mathlib.Core.Logic.{◌≢◌, inl, inr}
use mathlib.Core.Bool.{Bool}
use mathlib.Core.Option.{none, some}
use mathlib.Core.List.{List, [], ◌∷◌}
use native.Mathlib.Omega.{arith}
use Prim.Native.Nat.{ℕ}
use enactspace.Shared.Tests.{ltb, Bool-cases}
use enactspace.Shared.Table.{select, All, find_row, save_row, insert_row, order_by, Unique}
use enactspace.Shared.Table.Laws.{All-select, find_row-save_ne, select-Unique}

module _ {ℓ} {A : Type ℓ} (key : A → ℕ) where
  -- Every row of `xs` stands in the table `t` as it was loaded.
  abbrev pub Stored : List A → List A → Type ℓ
  Stored t xs = All (λ x. find_row key (key x) t ≡ some x) xs

  taken_ne :
      (k : ℕ) (x y : A) (t : List A)
      → find_row key k t ≡ none
      → find_row key (key y) t ≡ some y
      → k ≢ key y
  taken_ne k x y t e f h = cc (e, f, h)

  Stored-cons :
      (x : A) (t xs : List A) → find_row key (key x) t ≡ none → Stored t xs → Stored (x ∷ t) xs
  unfolding find_row
  Stored-cons x t [] e s = tt
  Stored-cons x t (y ∷ ys) e s =
      (ground (arith, taken_ne (key x) x y t e s.0), Stored-cons x t ys e s.1)

  pub Stored-self : (t : List A) → Unique key t → Stored t t
  unfolding find_row
  Stored-self [] u = tt
  Stored-self (x ∷ t) u = (ground arith, Stored-cons x t t u.0 (Stored-self t u.1))

  module _ {κ} (P : A → Type κ) where
    pub All-insert_row : (x : A) (xs : List A) → P x → All P xs → All P (insert_row key x xs)
    unfolding insert_row
    All-insert_row x [] h hs = (h, tt)
    All-insert_row x (y ∷ ys) h hs = ground (arith, All-insert_row x ys h hs.1)

    pub All-order_by : (xs : List A) → All P xs → All P (order_by key xs)
    unfolding order_by
    All-order_by [] h = tt
    All-order_by (x ∷ xs) h = All-insert_row x (order_by key xs) h.0 (All-order_by xs h.1)

  find_row-insert_row :
      (k : ℕ) (x : A) (xs : List A)
      → find_row key k xs ≡ none
      → key x ≢ k
      → find_row key k (insert_row key x xs) ≡ none
  unfolding find_row insert_row
  find_row-insert_row k x [] e h = ground arith
  find_row-insert_row k x (y ∷ ys) e h = ground (arith, find_row-insert_row k x ys)

  insert_row-Unique :
      (x : A) (xs : List A)
      → find_row key (key x) xs ≡ none
      → Unique key xs
      → Unique key (insert_row key x xs)
  unfolding find_row insert_row
  insert_row-Unique x [] e u = (refl, tt)
  insert_row-Unique x (y ∷ ys) e u = elim (Bool-cases (ltb (key y) (key x))) [
    | inl later ↦ rw later (
      find_row-insert_row (key y) x ys u.0 (ground arith),
      insert_row-Unique x ys (ground arith) u.1,
    )
    | inr here ↦ rw here (e, u)
  ]

  find_row-order_by :
      (k : ℕ) (xs : List A) → find_row key k xs ≡ none → find_row key k (order_by key xs) ≡ none
  unfolding find_row order_by
  find_row-order_by k [] e = refl
  find_row-order_by k (x ∷ xs) e =
      find_row-insert_row k x (order_by key xs) (find_row-order_by k xs (ground arith))
        (ground arith)

  pub order_by-Unique : (xs : List A) → Unique key xs → Unique key (order_by key xs)
  unfolding order_by
  order_by-Unique [] u = tt
  order_by-Unique (x ∷ xs) u =
      insert_row-Unique x (order_by key xs) (find_row-order_by (key x) xs u.0)
        (order_by-Unique xs u.1)

  -- The rows that a filtered and ordered query loads from a table with distinct keys.
  pub loaded-Stored :
      (p : A → Bool) (t : List A) → Unique key t → Stored t (order_by key (select p t))
  loaded-Stored p t u =
      All-order_by (λ x. find_row key (key x) t ≡ some x) (select p t)
        (All-select (λ x. find_row key (key x) t ≡ some x) p t (Stored-self t u))

  pub loaded-Unique :
      (p : A → Bool) (t : List A) → Unique key t → Unique key (order_by key (select p t))
  loaded-Unique p t u = order_by-Unique (select p t) (select-Unique key p t u)

  -- A write of a row that is not among `xs` leaves `xs` as loaded.
  pub save-Stored :
      (x : A) (t xs : List A)
      → find_row key (key x) xs ≡ none
      → Stored t xs
      → Stored (save_row key x t) xs
  unfolding find_row
  save-Stored x t [] e s = tt
  save-Stored x t (y ∷ ys) e s =
      (find_row-save_ne key (key y) x t (ground arith) ∙ s.0, save-Stored x t ys (ground arith) s.1)
