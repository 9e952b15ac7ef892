-- ===== src/Shared/Table/Laws.antt =====
-- The laws of tables: a write at a primary key, sums of a column, and the rows that a query loads.
use mathlib.Core.Path.{◌≡◌, refl}
use mathlib.Core.Logic.{◌≢◌, inl, inr}
use mathlib.Core.Bool.{false, Bool, true}
use mathlib.Core.Option.{none, some}
use mathlib.Core.List.{List, [], ◌∷◌, ◌++◌}
use native.Mathlib.Omega.{arith}
use Prim.Native.Nat.{ℕ, ◌+◌}
use enactspace.Shared.Tests.{is_none, ◌==◌, if◌then◌else◌, Bool-cases}
use enactspace.Shared.Table.{
  first, select, sum_by, All, find_row, save_row, insert_row, order_by, Unique,
}

module _ {ℓ} {A : Type ℓ} where
  pub sum_by-append : (w : A → ℕ) (xs ys : List A) → sum_by w (xs ++ ys) ≡ sum_by w xs + sum_by w ys
  unfolding sum_by
  sum_by-append w [] ys = omega arith
  sum_by-append w (x ∷ xs) ys = omega (arith, sum_by-append w xs ys)

  pub All-select {κ} :
      (P : A → Type κ) (p : A → Bool) (xs : List A) → All P xs → All P (select p xs)
  unfolding select
  All-select P p [] h = tt
  All-select P p (x ∷ xs) h = elim (Bool-cases (p x)) [
    | inl e ↦ rw e (h.0, All-select P p xs h.1)
    | inr e ↦ rw e (All-select P p xs h.1)
  ]

  pub select-All : (p : A → Bool) (xs : List A) → All (λ x. p x ≡ true) (select p xs)
  unfolding select
  select-All p [] = tt
  select-All p (x ∷ xs) = elim (Bool-cases (p x)) [
    | inl e ↦ rw e (e, select-All p xs)
    | inr e ↦ rw e (select-All p xs)
  ]

module _ {ℓ} {A : Type ℓ} (key : A → ℕ) where
  pub find_row-key : (k : ℕ) (xs : List A) (x : A) → find_row key k xs ≡ some x → key x ≡ k
  unfolding find_row
  find_row-key k [] x e = cc
  find_row-key k (y ∷ ys) x e = ground (arith, find_row-key k ys x)

  pub find_row_self :
      (k : ℕ) (xs : List A) (x : A) → find_row key k xs ≡ some x → find_row key (key x) xs ≡ some x
  find_row_self k xs x found = rw (find_row-key k xs x found) found

  pub find_row-save_ne :
      (k : ℕ) (x : A) (xs : List A)
      → key x ≢ k
      → find_row key k (save_row key x xs) ≡ find_row key k xs
  unfolding find_row save_row
  find_row-save_ne k x [] h = refl
  find_row-save_ne k x (y ∷ ys) h = ground (arith, find_row-save_ne k x ys h)

  pub find_row-save_self :
      (k : ℕ) (x y : A) (xs : List A)
      → key x ≡ k
      → find_row key k xs ≡ some y
      → find_row key k (save_row key x xs) ≡ some x
  unfolding find_row save_row
  find_row-save_self k x y [] h e = cc
  find_row-save_self k x y (z ∷ zs) h e = ground (arith, find_row-save_self k x y zs h)

  -- A write leaves the keys that are taken as they were.
  pub find_row-save_none :
      (k : ℕ) (x : A) (xs : List A)
      → find_row key k xs ≡ none
      → find_row key k (save_row key x xs) ≡ none
  unfolding find_row save_row
  find_row-save_none k x [] h = refl
  find_row-save_none k x (y ∷ ys) h = ground (arith, find_row-save_none k x ys)

  pub save-Unique : (x : A) (xs : List A) → Unique key xs → Unique key (save_row key x xs)
  unfolding save_row
  save-Unique x [] u = tt
  save-Unique x (y ∷ ys) u =
      ground (arith, save-Unique x ys u.1, find_row-save_none (key y) x ys u.0)

  -- A write of one row moves the sum of a column by what the row gained or lost.
  pub sum_by-save :
      (w : A → ℕ) (x y : A) (xs : List A)
      → find_row key (key x) xs ≡ some y
      → sum_by w (save_row key x xs) + w y ≡ sum_by w xs + w x
  unfolding find_row save_row sum_by
  sum_by-save w x y [] e = cc
  sum_by-save w x y (z ∷ zs) e = ground (arith, sum_by-save w x y zs)

  pub find_row-append :
      (k : ℕ) (x : A) (xs : List A)
      → find_row key k (xs ++ x ∷ [])
        ≡ elim (find_row key k xs) [ none ↦ if key x == k then some x else none | some y ↦ some y ]
  unfolding find_row
  find_row-append k x [] = ground arith
  find_row-append k x (y ∷ ys) = ground (arith, find_row-append k x ys)

  -- A new row at the end under a key that is free keeps the keys distinct.
  pub append-Unique :
      (x : A) (xs : List A)
      → Unique key xs
      → find_row key (key x) xs ≡ none
      → Unique key (xs ++ x ∷ [])
  unfolding find_row
  append-Unique x [] u h = (refl, tt)
  append-Unique x (y ∷ ys) u h =
      (rw (find_row-append (key y) x ys, u.0) (ground arith), append-Unique x ys u.1 (ground arith))

  find_row-select-none :
      (k : ℕ) (p : A → Bool) (xs : List A)
      → find_row key k xs ≡ none
      → find_row key k (select p xs) ≡ none
  unfolding find_row select
  find_row-select-none k p [] h = refl
  find_row-select-none k p (x ∷ xs) h = ground (arith, find_row-select-none k p xs)

  pub select-Unique : (p : A → Bool) (xs : List A) → Unique key xs → Unique key (select p xs)
  unfolding select
  select-Unique p [] u = tt
  select-Unique p (x ∷ xs) u =
      ground (arith, select-Unique p xs u.1, find_row-select-none (key x) p xs u.0)

module _ {ℓ} {A : Type ℓ} (key other : A → ℕ) where
  -- A row that one key finds is found by the other, where that is a primary key.
  pub find_row-other :
      (k : ℕ) (t : List A) (x : A)
      → Unique other t
      → find_row key k t ≡ some x
      → find_row other (other x) t ≡ some x
  unfolding find_row
  find_row-other k [] x u e = cc
  find_row-other k (y ∷ ys) x u e = elim (Bool-cases (key y == k)) [
    | inl hit ↦ ground arith
    | inr miss ↦ ground (arith, find_row-other k ys x u.1)
  ]

  -- Two keys that find one row write at one place.
  pub save_row-other :
      (x y : A) (t : List A)
      → find_row key (key x) t ≡ some y
      → find_row other (other x) t ≡ some y
      → save_row key x t ≡ save_row other x t
  unfolding find_row save_row
  save_row-other x y [] e f = refl
  save_row-other x y (z ∷ zs) e f = ground (
    arith,
    save_row-other x y zs,
    find_row-key key (key x) (z ∷ zs) y e,
    find_row-key other (other x) (z ∷ zs) y f,
  )

module _ {ℓ} {A : Type ℓ} (key : A → ℕ) where
  pub All-save {κ} :
      (P : A → Type κ) (x : A) (xs : List A) → P x → All P xs → All P (save_row key x xs)
  unfolding save_row
  All-save P x [] h hs = tt
  All-save P x (y ∷ ys) h hs = elim (Bool-cases (key y == key x)) [
    | inl e ↦ rw e (h, hs.1)
    | inr e ↦ rw e (hs.0, All-save P x ys h hs.1)
  ]

  pub All-find {κ} :
      (P : A → Type κ) (k : ℕ) (xs : List A) (x : A) → All P xs → find_row key k xs ≡ some x → P x
  unfolding find_row
  All-find P k [] x hs e = cc
  All-find P k (y ∷ ys) x hs e = elim (Bool-cases (key y == k)) [
    | inl h ↦ let same : y ≡ x = ground arith in rw same at hs.0
    | inr h ↦ All-find P k ys x hs.1 (ground arith)
  ]

module _ {ℓ} {A : Type ℓ} where
  pub All-and {κ} :
      (P Q R : A → Type κ) (xs : List A)
      → ((x : A) → P x → Q x → R x)
      → All P xs
      → All Q xs
      → All R xs
  All-and P Q R [] f hp hq = tt
  All-and P Q R (x ∷ xs) f hp hq = (f x hp.0 hq.0, All-and P Q R xs f hp.1 hq.1)

  pub All-append {κ} :
      (P : A → Type κ) (xs : List A) (x : A) → All P xs → P x → All P (xs ++ x ∷ [])
  All-append P [] x hs h = (h, tt)
  All-append P (y ∷ ys) x hs h = (hs.0, All-append P ys x hs.1 h)

  pub sum_by-select :
      (w : A → ℕ) (p : A → Bool) (xs : List A)
      → sum_by w (select p xs) ≡ sum_by (λ x. if p x then w x else 0) xs
  unfolding sum_by select
  sum_by-select w p [] = refl
  sum_by-select w p (x ∷ xs) = ground (arith, sum_by-select w p xs)

  sum_by-insert_row :
      (key w : A → ℕ) (x : A) (xs : List A) → sum_by w (insert_row key x xs) ≡ w x + sum_by w xs
  unfolding sum_by insert_row
  sum_by-insert_row key w x [] = refl
  sum_by-insert_row key w x (y ∷ ys) = ground (arith, sum_by-insert_row key w x ys)

  pub sum_by-order_by : (key w : A → ℕ) (xs : List A) → sum_by w (order_by key xs) ≡ sum_by w xs
  unfolding sum_by order_by
  sum_by-order_by key w [] = refl
  sum_by-order_by key w (x ∷ xs) =
      ground (arith, sum_by-insert_row key w x (order_by key xs), sum_by-order_by key w xs)

-- an appended row does not take away what a query finds
pub first-append_some :
    {A : Type 0} (q : A → Bool) (xs : List A) (x : A)
    → is_none (first q xs) ≡ false
    → is_none (first q (xs ++ x ∷ [])) ≡ false
unfolding first
first-append_some q [] x e = ground (arith, e)
first-append_some q (y ∷ ys) x e = ground (arith, e, first-append_some q ys x)

pub first-append_last :
    {A : Type 0} (q : A → Bool) (xs : List A) (x : A)
    → q x ≡ true
    → is_none (first q (xs ++ x ∷ [])) ≡ false
unfolding first
first-append_last q [] x e = ground (arith, e)
first-append_last q (y ∷ ys) x e = ground (arith, e, first-append_last q ys x e)
