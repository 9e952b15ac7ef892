-- ===== src/Shared/Table/Aligned.antt =====
-- Two tables of the same rows, before and after some writes.
use mathlib.Core.Path.{◌≡◌, refl, sym, ◌∙◌, subst}
use mathlib.Core.Logic.{inl, inr}
use mathlib.Core.Bool.{Bool, true}
use mathlib.Core.Option.{none, some}
use mathlib.Core.List.{List, [], ◌∷◌}
use native.Mathlib.Omega.{arith}
use Prim.Native.Nat.{ℕ}
use enactspace.Shared.Tests.{◌==◌, Bool-cases}
use enactspace.Shared.Table.{All, amend, find_row, save_row, Unique}

module _ {ℓ} {A : Type ℓ} (key : A → ℕ) (R : A → A → Type 0) where
  -- The rows stand in the same order under the same keys, and each is related to its old one.
  abbrev pub Aligned : List A → List A → Type 0
  Aligned [] [] = Unit
  Aligned [] (y ∷ ys) = ⊥
  Aligned (x ∷ xs) [] = ⊥
  Aligned (x ∷ xs) (y ∷ ys) = (key y ≡ key x) × R x y × Aligned xs ys

  pub Aligned-refl : ((x : A) → R x x) → (xs : List A) → Aligned xs xs
  Aligned-refl same [] = tt
  Aligned-refl same (x ∷ xs) = (refl, same x, Aligned-refl same xs)

  pub Aligned-trans :
      ((x y z : A) → R x y → R y z → R x z)
      → (xs ys zs : List A) → Aligned xs ys
      → Aligned ys zs
      → Aligned xs zs
  Aligned-trans joins [] [] [] f g = tt
  Aligned-trans joins [] [] (z ∷ zs) f g = g
  Aligned-trans joins [] (y ∷ ys) zs f g = absurd f
  Aligned-trans joins (x ∷ xs) [] zs f g = absurd f
  Aligned-trans joins (x ∷ xs) (y ∷ ys) [] f g = g
  Aligned-trans joins (x ∷ xs) (y ∷ ys) (z ∷ zs) f g =
      (g.0 ∙ f.0, joins x y z f.1 g.1, Aligned-trans joins xs ys zs f.2 g.2)

  -- The row of a key, before and after.
  pub Aligned-row :
      (k : ℕ) (d : A) (xs ys : List A)
      → Aligned xs ys
      → find_row key k xs ≡ some d
      → (d' : A) × (find_row key k ys ≡ some d') × R d d'
  unfolding find_row
  Aligned-row k d [] [] f found = ground (arith, found)
  Aligned-row k d [] (y ∷ ys) f found = absurd f
  Aligned-row k d (x ∷ xs) [] f found = absurd f
  Aligned-row k d (x ∷ xs) (y ∷ ys) f found = elim (Bool-cases (key x == k)) [
    | inl hit ↦
        let same : x ≡ d = ground (arith, hit, found) in
        (y, ground (arith, hit, f.0), subst (λ z. R z y) same f.1)
    | inr miss ↦
        let (d', found', related) = Aligned-row k d xs ys f.2 (ground (arith, miss, found)) in
        (d', ground (arith, miss, f.0, found'), related)
  ]

  -- A write of many rows, each of which stands in the table `t`.
  pub Aligned-amend_of :
      (same : (x : A) → R x x) (p : A → Bool) (f : A → A) (t : List A)
      → ((x : A) → key (f x) ≡ key x)
      → ((x : A) → find_row key (key x) t ≡ some x → p x ≡ true → R x (f x))
      → (xs : List A) → All (λ x. find_row key (key x) t ≡ some x) xs
      → Aligned xs (amend p f xs)
  unfolding amend
  Aligned-amend_of same p f t keeps writes [] stored = tt
  Aligned-amend_of same p f t keeps writes (x ∷ xs) stored = elim (Bool-cases (p x)) [
    | inl hit ↦
        rw hit
          (keeps x, writes x stored.0 hit, Aligned-amend_of same p f t keeps writes xs stored.1)
    | inr miss ↦ rw miss (refl, same x, Aligned-amend_of same p f t keeps writes xs stored.1)
  ]

  pub Aligned-amend :
      (same : (x : A) → R x x) (p : A → Bool) (f : A → A)
      → ((x : A) → key (f x) ≡ key x)
      → ((x : A) → p x ≡ true → R x (f x))
      → (xs : List A) → Aligned xs (amend p f xs)
  unfolding amend
  Aligned-amend same p f keeps writes [] = tt
  Aligned-amend same p f keeps writes (x ∷ xs) = elim (Bool-cases (p x)) [
    | inl hit ↦ rw hit (keeps x, writes x hit, Aligned-amend same p f keeps writes xs)
    | inr miss ↦ rw miss (refl, same x, Aligned-amend same p f keeps writes xs)
  ]

  pub Aligned-save :
      (d d' : A) (xs ys : List A)
      → find_row key (key d') xs ≡ some d
      → R d d'
      → Aligned xs ys
      → Aligned xs (save_row key d' ys)
  unfolding find_row save_row
  Aligned-save d d' [] [] found related f = tt
  Aligned-save d d' [] (y ∷ ys) found related f = absurd f
  Aligned-save d d' (x ∷ xs) [] found related f = f
  Aligned-save d d' (x ∷ xs) (y ∷ ys) found related f = elim (Bool-cases (key y == key d')) [
    | inl hit ↦
        let at : key x ≡ key d' = ground (arith, hit, f.0) in
        let same : x ≡ d = ground (arith, at, found) in
        rw hit (sym at, subst (λ z. R z d') (sym same) related, f.2)
    | inr miss ↦
        let rest : find_row key (key d') xs ≡ some d = ground (arith, miss, f.0, found) in
        rw miss (f.0, f.1, Aligned-save d d' xs ys rest related f.2)
  ]

  pub Aligned-All {κ} :
      (P : A → Type κ)
      → ((x y : A) → R x y → P x → P y)
      → (xs ys : List A) → Aligned xs ys
      → All P xs
      → All P ys
  Aligned-All P keeps [] [] f h = h
  Aligned-All P keeps [] (y ∷ ys) f h = absurd f
  Aligned-All P keeps (x ∷ xs) [] f h = tt
  Aligned-All P keeps (x ∷ xs) (y ∷ ys) f h = (keeps x y f.1 h.0, Aligned-All P keeps xs ys f.2 h.1)

  Aligned-free :
      (k : ℕ) (xs ys : List A) → Aligned xs ys → find_row key k xs ≡ none → find_row key k ys ≡ none
  unfolding find_row
  Aligned-free k [] [] f free = refl
  Aligned-free k [] (y ∷ ys) f free = absurd f
  Aligned-free k (x ∷ xs) [] f free = refl
  Aligned-free k (x ∷ xs) (y ∷ ys) f free = ground (arith, f.0, free, Aligned-free k xs ys f.2)

  pub Aligned-Unique : (xs ys : List A) → Aligned xs ys → Unique key xs → Unique key ys
  Aligned-Unique [] [] f u = u
  Aligned-Unique [] (y ∷ ys) f u = absurd f
  Aligned-Unique (x ∷ xs) [] f u = tt
  Aligned-Unique (x ∷ xs) (y ∷ ys) f u =
      (rw f.0 (Aligned-free (key x) xs ys f.2 u.0), Aligned-Unique xs ys f.2 u.1)
