-- ===== src/Shared/Table/Queries.antt =====
-- The row that a query finds, and the row of its primary key.
use mathlib.Core.Path.{◌≡◌, refl}
use mathlib.Core.Logic.{inl, inr}
use mathlib.Core.Bool.{Bool, true, false}
use mathlib.Core.Option.{none, some}
use mathlib.Core.List.{List, [], ◌∷◌, ◌++◌}
use native.Mathlib.Omega.{arith}
use Prim.Native.Nat.{ℕ, ◌+◌, ◌≤◌}
use enactspace.Shared.Tests.{is_none, Bool-cases, if◌then◌else◌}
use enactspace.Shared.Table.{first, find_row, save_row, sum_by, All, Unique}
use enactspace.Shared.Table.Laws.{sum_by-append, sum_by-save}

module _ {ℓ} {A : Type ℓ} (p : A → Bool) where
  -- the row that a query finds meets its test
  pub first-true : (xs : List A) (x : A) → first p xs ≡ some x → p x ≡ true
  unfolding first
  first-true [] x e = cc
  first-true (y ∷ ys) x e = elim (Bool-cases (p y)) [
    | inl h ↦ ground (arith, h, e)
    | inr h ↦ first-true ys x (ground (arith, h, e))
  ]

  -- and stands at its primary key
  pub first-find_row :
      (key : A → ℕ) (xs : List A) (x : A)
      → Unique key xs
      → first p xs ≡ some x
      → find_row key (key x) xs ≡ some x
  unfolding first find_row
  first-find_row key [] x u e = cc
  first-find_row key (y ∷ ys) x u e = elim (Bool-cases (p y)) [
    | inl h ↦ ground (arith, h, e)
    | inr h ↦ ground (arith, h, e, u.0, first-find_row key ys x u.1)
  ]

  -- the rows that meet the test
  unfoldable pub count : List A → ℕ
  count = sum_by (λ x. if p x then 1 else 0)

  pub count-none : (xs : List A) → first p xs ≡ none → count xs ≡ 0
  unfolding count first sum_by
  count-none [] e = refl
  count-none (x ∷ xs) e = ground (arith, e, count-none xs)

  pub count-append :
      (xs : List A) (x : A) → count (xs ++ x ∷ []) ≡ count xs + (if p x then 1 else 0)
  unfolding count
  count-append xs x =
      rw (sum_by-append (λ x. if p x then 1 else 0) xs (x ∷ [])) (unfold sum_by in omega arith)

  -- A write that keeps the outcome of the test keeps the number of the rows.
  pub count-save :
      (key : A → ℕ) (x y : A) (xs : List A)
      → find_row key (key x) xs ≡ some y
      → p x ≡ p y
      → count (save_row key x xs) ≡ count xs
  unfolding count
  count-save key x y xs found same =
      ground (arith, same, sum_by-save key (λ x. if p x then 1 else 0) x y xs found)

pub All-imp {ℓ κ} :
    {A : Type ℓ} (P Q : A → Type κ) (xs : List A) → ((x : A) → P x → Q x) → All P xs → All Q xs
All-imp P Q [] f h = tt
All-imp P Q (x ∷ xs) f h = (f x h.0, All-imp P Q xs f h.1)

-- a query that finds nothing and one that finds a row, by the count
pub count-some :
    {A : Type 0} (p : A → Bool) (xs : List A) → is_none (first p xs) ≡ false → 1 ≤ count p xs
unfolding count first sum_by
count-some p [] e = ground (arith, e)
count-some p (x ∷ xs) e = ground (arith, e, count-some p xs)

pub some-count :
    {A : Type 0} (p : A → Bool) (xs : List A) → 1 ≤ count p xs → is_none (first p xs) ≡ false
unfolding count first sum_by
some-count p [] h = ground (arith, h)
some-count p (x ∷ xs) h = ground (arith, h, some-count p xs)
