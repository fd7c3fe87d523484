-- ===== src/Prelude/Sums.antt =====
-- Sums and counts over a list, and what sorting, appending and selecting make of them.
use mathlib.Core.Path.{◌≡◌, refl}
use mathlib.Core.Bool.{Bool}
use mathlib.Core.List.{List, [], ◌∷◌, ◌++◌}
use crypto_exchange_pro.Prelude.Tests.{if◌then◌else◌}
use crypto_exchange_pro.Prelude.Lists.{select}
use crypto_exchange_pro.Prelude.Sorting.{insert, sort}
use crypto_exchange_pro.Prelude.Int.{ℤ, pos, ◌+ℤ◌, int_laws}

module _ {ℓ} {A : Type ℓ} where
  -- The sum of a measure of the elements.
  unfoldable pub sum_by : (A → ℤ) → List A → ℤ
  sum_by f [] = pos 0
  sum_by f (x ∷ xs) = f x +ℤ sum_by f xs

  pub sum_by-append :
      (f : A → ℤ) (xs ys : List A) → sum_by f (xs ++ ys) ≡ sum_by f xs +ℤ sum_by f ys
  unfolding sum_by
  sum_by-append f [] ys = omega int_laws
  sum_by-append f (x ∷ xs) ys = grind (int_laws, sum_by-append f xs ys)

  sum_by-insert :
      (f : A → ℤ) (before : A → A → Bool) (x : A) (xs : List A)
      → sum_by f (insert before x xs) ≡ f x +ℤ sum_by f xs
  unfolding sum_by
  sum_by-insert f before x [] = refl
  sum_by-insert f before x (y ∷ ys) = grind (int_laws, sum_by-insert f before x ys)

  pub sum_by-sort :
      (f : A → ℤ) (before : A → A → Bool) (xs : List A) → sum_by f (sort before xs) ≡ sum_by f xs
  unfolding sum_by
  sum_by-sort f before [] = refl
  sum_by-sort f before (x ∷ xs) =
      grind (int_laws, sum_by-insert f before x (sort before xs), sum_by-sort f before xs)

  pub sum_by-select :
      (f : A → ℤ) (p : A → Bool) (xs : List A)
      → sum_by f (select p xs) ≡ sum_by (λ x. if p x then f x else pos 0) xs
  unfolding sum_by
  sum_by-select f p [] = refl
  sum_by-select f p (x ∷ xs) = grind (int_laws, sum_by-select f p xs)
