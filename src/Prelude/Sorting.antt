-- ===== src/Prelude/Sorting.antt =====
-- Stable sorting by a strict order (`sorted`, `list.sort` and `ORDER BY`), and pages of rows.
use Prim.Native.Nat.{ℕ, zero, suc, ◌+◌, ◌≤◌}
use mathlib.Core.Path.{◌≡◌, refl, sym, ap, ◌∙◌}
use mathlib.Core.Bool.{Bool, true, false}
use mathlib.Core.List.{List, [], ◌∷◌, ◌++◌, reverse, reverse-cons}
use native.Mathlib.Omega.{arith}
use crypto_exchange_pro.Prelude.Tests.{if◌then◌else◌, Bool-cases}
use mathlib.Core.Logic.{inl, inr}
use crypto_exchange_pro.Prelude.Lists.{All, length, take, drop, select, length-take}

module _ {ℓ} {A : Type ℓ} where
  abbrev pub insert : (A → A → Bool) → A → List A → List A
  insert before x [] = x ∷ []
  insert before x (y ∷ ys) =
      let rest = insert before x ys in if before y x then y ∷ rest else x ∷ y ∷ ys

  abbrev pub sort : (A → A → Bool) → List A → List A
  sort before [] = []
  sort before (x ∷ xs) = insert before x (sort before xs)

  -- No element comes before the one in front of it.
  abbrev pub IsSorted : (A → A → Bool) → List A → Type 0
  IsSorted before [] = Unit
  IsSorted before (x ∷ xs) = All (λ y. before y x ≡ false) xs × IsSorted before xs

  length-insert :
      (before : A → A → Bool) (x : A) (xs : List A) → length (insert before x xs) ≡ length xs + 1
  length-insert before x [] = omega arith
  length-insert before x (y ∷ ys) = ground (arith, length-insert before x ys)

  pub length-sort : (before : A → A → Bool) (xs : List A) → length (sort before xs) ≡ length xs
  length-sort before [] = refl
  length-sort before (x ∷ xs) =
      omega (arith, length-insert before x (sort before xs), length-sort before xs)

  All-insert {κ} :
      (P : A → Type κ) (before : A → A → Bool) (x : A) (xs : List A)
      → P x
      → All P xs
      → All P (insert before x xs)
  All-insert P before x [] h all = (h, tt)
  All-insert P before x (y ∷ ys) h all = elim (Bool-cases (before y x)) [
    | inl t ↦ rw t (all.0, All-insert P before x ys h all.1)
    | inr f ↦ rw f (h, all)
  ]

  -- What holds of all holds of all in order.
  pub All-sort {κ} :
      (P : A → Type κ) (before : A → A → Bool) (xs : List A) → All P xs → All P (sort before xs)
  All-sort P before [] all = tt
  All-sort P before (x ∷ xs) all =
      All-insert P before x (sort before xs) all.0 (All-sort P before xs all.1)

  module _ (before : A → A → Bool) (asymmetric : (x y : A) → before x y ≡ true → before y x ≡ false)
      (transitive : (x y z : A)
        → before y x ≡ false
        → before z y ≡ false
        → before z x ≡ false) where
    later :
        (x y : A) (ys : List A)
        → before y x ≡ false
        → All (λ z. before z y ≡ false) ys
        → All (λ z. before z x ≡ false) ys
    later x y [] h all = tt
    later x y (z ∷ zs) h all = (transitive x y z h all.0, later x y zs h all.1)

    insert-IsSorted :
        (x : A) (xs : List A) → IsSorted before xs → IsSorted before (insert before x xs)
    insert-IsSorted x [] s = (tt, tt)
    insert-IsSorted x (y ∷ ys) s = elim (Bool-cases (before y x)) [
      | inl t ↦ rw t (
        All-insert (λ z. before z y ≡ false) before x ys (asymmetric y x t) s.0,
        insert-IsSorted x ys s.1,
      )
      | inr f ↦ rw f ((f, later x y ys f s.0), s)
    ]

    pub sort-IsSorted : (xs : List A) → IsSorted before (sort before xs)
    sort-IsSorted [] = tt
    sort-IsSorted (x ∷ xs) = insert-IsSorted x (sort before xs) (sort-IsSorted xs)

  -- The first rows after an offset, the newest row first.
  abbrev pub page : ℕ → ℕ → List A → List A
  page limit offset rows = take limit (drop offset (reverse rows))

  pub length-page : (limit offset : ℕ) (rows : List A) → length (page limit offset rows) ≤ limit
  length-page limit offset rows = omega (arith, length-take limit (drop offset (reverse rows)))

  take_nil : (n : ℕ) → ◌≡◌ {A = List A} (take n []) []
  take_nil zero = refl
  take_nil (suc n) = refl

  take-drop : (m n : ℕ) (xs : List A) → take m xs ++ take n (drop m xs) ≡ take (m + n) xs
  take-drop zero n xs = let e : 0 + n ≡ n = omega arith in rw e refl
  take-drop (suc m) n [] = take_nil n ∙ sym (take_nil (suc m + n))
  take-drop (suc m) n (x ∷ xs) =
      let e : suc m + n ≡ suc (m + n) = omega arith in rw e (ap (λ ys. x ∷ ys) (take-drop m n xs))

  drop-drop : (m n : ℕ) (xs : List A) → drop n (drop m xs) ≡ drop (m + n) xs
  drop-drop zero n xs = let e : 0 + n ≡ n = omega arith in rw e refl
  drop-drop (suc m) n [] = drop_nil n ∙ sym (drop_nil (suc m + n))
    where
      drop_nil : (n : ℕ) → ◌≡◌ {A = List A} (drop n []) []
      drop_nil zero = refl
      drop_nil (suc n) = refl
  drop-drop (suc m) n (x ∷ xs) =
      let e : suc m + n ≡ suc (m + n) = omega arith in rw e (drop-drop m n xs)

  -- Two pages in a row are one longer page.
  pub page-append :
      (m n offset : ℕ) (rows : List A)
      → page m offset rows ++ page n (offset + m) rows ≡ page (m + n) offset rows
  page-append m n offset rows =
      rw (← drop-drop offset m (reverse rows)) (take-drop m n (drop offset (reverse rows)))

  pub All-append {κ} : (P : A → Type κ) (xs ys : List A) → All P xs → All P ys → All P (xs ++ ys)
  All-append P [] ys f g = g
  All-append P (x ∷ xs) ys f g = (f.0, All-append P xs ys f.1 g)

  All-reverse {κ} : (P : A → Type κ) (xs : List A) → All P xs → All P (reverse xs)
  All-reverse P [] all = tt
  All-reverse P (x ∷ xs) all =
      rw reverse-cons (All-append P (reverse xs) (x ∷ []) (All-reverse P xs all.1) (all.0, tt))

  All-drop {κ} : (P : A → Type κ) (n : ℕ) (xs : List A) → All P xs → All P (drop n xs)
  All-drop P zero xs all = all
  All-drop P (suc n) [] all = tt
  All-drop P (suc n) (x ∷ xs) all = All-drop P n xs all.1

  All-take {κ} : (P : A → Type κ) (n : ℕ) (xs : List A) → All P xs → All P (take n xs)
  All-take P zero xs all = tt
  All-take P (suc n) [] all = tt
  All-take P (suc n) (x ∷ xs) all = (all.0, All-take P n xs all.1)

  -- What holds of all rows holds of a page of them.
  pub All-page {κ} :
      (P : A → Type κ) (limit offset : ℕ) (rows : List A)
      → All P rows
      → All P (page limit offset rows)
  All-page P limit offset rows all =
      All-take P limit (drop offset (reverse rows))
        (All-drop P offset (reverse rows) (All-reverse P rows all))

  pub All-select : (p : A → Bool) (rows : List A) → All (λ x. p x ≡ true) (select p rows)
  All-select p [] = tt
  All-select p (x ∷ rows) = elim (Bool-cases (p x)) [
    | inl t ↦ rw t (t, All-select p rows)
    | inr f ↦ rw f (All-select p rows)
  ]

  pub All-kept {κ} :
      (P : A → Type κ) (p : A → Bool) (rows : List A) → All P rows → All P (select p rows)
  All-kept P p [] all = tt
  All-kept P p (x ∷ rows) all = elim (Bool-cases (p x)) [
    | inl t ↦ rw t (all.0, All-kept P p rows all.1)
    | inr f ↦ rw f (All-kept P p rows all.1)
  ]
