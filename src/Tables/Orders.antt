-- ===== src/Tables/Orders.antt =====
-- Rows found by their primary key: pairs, assets, orders.
use crypto_exchange_pro.Prelude.{
  ℕ, ◌<◌, ◌≤◌, ◌+◌, ◌++◌, ◌≡◌, refl, ap, subst, inl, inr, String, Bool, true, false, ◌||◌, Option,
  none, some, List, [], ◌∷◌, map, select, All, arith, Bool-cases, ◌==◌, if◌then◌else◌,
}
use text.Mathlib.Text.{◌==◌ as str_eq}
use crypto_exchange_pro.Models.{Asset, TradingPair, Order}

unfoldable pub find_asset : String → List Asset → Option Asset
find_asset s [] = none
find_asset s (a ∷ xs) = if str_eq a.symbol s then some a else find_asset s xs

unfoldable pub find_pair : ℕ → List TradingPair → Option TradingPair
find_pair i [] = none
find_pair i (p ∷ ps) = if p.id == i then some p else find_pair i ps

unfoldable pub find_symbol : String → List TradingPair → Option TradingPair
find_symbol s [] = none
find_symbol s (p ∷ ps) = if str_eq p.symbol s then some p else find_symbol s ps

unfoldable pub find_order : ℕ → List Order → Option Order
find_order i [] = none
find_order i (o ∷ os) = if o.id == i then some o else find_order i os

-- An assignment to the columns of an order's row.
unfoldable pub write_order : ℕ → (Order → Order) → List Order → List Order
write_order i f [] = []
write_order i f (o ∷ os) = if o.id == i then f o ∷ os else o ∷ write_order i f os

abbrev pub order_ids : List Order → List ℕ
order_ids = map (λ o. o.id)

abbrev pub contains : ℕ → List ℕ → Bool
contains i [] = false
contains i (j ∷ js) = j == i || contains i js

-- The row found has the key it was looked up by.
pub find_order-id : (i : ℕ) (os : List Order) (o : Order) → find_order i os ≡ some o → o.id ≡ i
unfolding find_order
find_order-id i [] o e = cc
find_order-id i (x ∷ os) o e = ground (arith, find_order-id i os o)

-- A key that is listed is found.
pub find_order-contains :
    (i : ℕ) (os : List Order)
    → contains i (order_ids os) ≡ true
    → (o : Order) × (find_order i os ≡ some o)
unfolding find_order
find_order-contains i [] e = cc
find_order-contains i (x ∷ os) e = elim (Bool-cases (x.id == i)) [
  | inl t ↦ (x, rw t)
  | inr f ↦ let (o, h) = find_order-contains i os (rw f at e) in (o, rw f h)
]

pub order_ids-write_order :
    (i : ℕ) (f : Order → Order) (os : List Order)
    → ((o : Order) → (f o).id ≡ o.id)
    → order_ids (write_order i f os) ≡ order_ids os
unfolding write_order
order_ids-write_order i f [] h = refl
order_ids-write_order i f (o ∷ os) h = elim (Bool-cases (o.id == i)) [
  | inl t ↦ rw t (rw (h o))
  | inr t ↦ rw t (ap (λ ids. o.id ∷ ids) (order_ids-write_order i f os h))
]

-- What holds of every row holds of the row found.
pub All-find_order {κ} :
    (P : Order → Type κ) (i : ℕ) (os : List Order) (o : Order)
    → All P os
    → find_order i os ≡ some o
    → P o
unfolding find_order
All-find_order P i [] o all e = absurd (cc)
All-find_order P i (x ∷ os) o all e = elim (Bool-cases (x.id == i)) [
  | inl t ↦ let same : x ≡ o = ground arith in subst P same all.0
  | inr f ↦ All-find_order P i os o all.1 (rw f at e)
]

pub All-write_order {κ} :
    (P : Order → Type κ) (i : ℕ) (f : Order → Order) (os : List Order)
    → ((o : Order) → P (f o))
    → All P os
    → All P (write_order i f os)
unfolding write_order
All-write_order P i f [] h all = tt
All-write_order P i f (o ∷ os) h all = elim (Bool-cases (o.id == i)) [
  | inl e ↦ rw e (h o, all.1)
  | inr e ↦ rw e (all.0, All-write_order P i f os h all.1)
]

contained-cons :
    (j : ℕ) (js ids : List ℕ)
    → All (λ i. contains i js ≡ true) ids
    → All (λ i. contains i (j ∷ js) ≡ true) ids
contained-cons j js [] all = tt
contained-cons j js (i ∷ ids) all = (ground arith, contained-cons j js ids all.1)

-- A query's rows are in the table.
pub order_ids-select :
    (p : Order → Bool) (os : List Order)
    → All (λ i. contains i (order_ids os) ≡ true) (order_ids (select p os))
order_ids-select p [] = tt
order_ids-select p (o ∷ os) =
    let rest = contained-cons o.id (order_ids os) _ (order_ids-select p os) in
    elim (Bool-cases (p o)) [ inl t ↦ rw t (ground arith, rest) | inr f ↦ rw f rest ]

-- The keys differ, and the next one is above them all.
abbrev pub IsFresh : ℕ → List ℕ → Type 0
IsFresh n [] = Unit
IsFresh n (i ∷ is) = (i < n) × (contains i is ≡ false) × IsFresh n is

pub IsFresh-mono : (m n : ℕ) (is : List ℕ) → m ≤ n → IsFresh m is → IsFresh n is
IsFresh-mono m n [] h all = tt
IsFresh-mono m n (i ∷ is) h all = (omega (arith, all.0), all.1, IsFresh-mono m n is h all.2)

-- A write to a row whose key no earlier row has.
pub write_order-append :
    (f : Order → Order) (os : List Order) (o : Order)
    → IsFresh o.id (order_ids os)
    → write_order o.id f (os ++ o ∷ []) ≡ os ++ f o ∷ []
unfolding write_order
write_order-append f [] o all = ground arith
write_order-append f (x ∷ os) o all = ground (arith, write_order-append f os o all.2)

pub All-append_one {κ} :
    (P : Order → Type κ) (os : List Order) (o : Order) → All P os → P o → All P (os ++ o ∷ [])
All-append_one P [] o all h = (h, tt)
All-append_one P (x ∷ os) o all h = (all.0, All-append_one P os o all.1 h)

contains_not-append :
    (i : ℕ) (os : List Order) (o : Order)
    → i < o.id
    → contains i (order_ids os) ≡ false
    → contains i (order_ids (os ++ o ∷ [])) ≡ false
contains_not-append i [] o h e = ground arith
contains_not-append i (x ∷ os) o h e = ground (arith, contains_not-append i os o h)

pub IsFresh-append :
    (n : ℕ) (os : List Order) (o : Order)
    → o.id ≡ n
    → IsFresh n (order_ids os)
    → IsFresh (n + 1) (order_ids (os ++ o ∷ []))
IsFresh-append n [] o e all = (omega arith, refl, tt)
IsFresh-append n (x ∷ os) o e all = (
  omega (arith, all.0),
  contains_not-append x.id os o (omega (arith, all.0)) all.1,
  IsFresh-append n os o e all.2,
)

pub contains-append :
    (i : ℕ) (os : List Order) (o : Order) → o.id ≡ i → contains i (order_ids (os ++ o ∷ [])) ≡ true
contains-append i [] o e = ground arith
contains-append i (x ∷ os) o e = ground (arith, contains-append i os o e)

pub order_ids-append :
    (os : List Order) (o o' : Order)
    → o.id ≡ o'.id
    → order_ids (os ++ o ∷ []) ≡ order_ids (os ++ o' ∷ [])
order_ids-append [] o o' e = rw e
order_ids-append (x ∷ os) o o' e = ap (λ ids. x.id ∷ ids) (order_ids-append os o o' e)

pub contains-find_order :
    (i : ℕ) (os : List Order) (o : Order)
    → find_order i os ≡ some o
    → contains i (order_ids os) ≡ true
unfolding find_order
contains-find_order i [] o e = cc
contains-find_order i (x ∷ os) o e = ground (arith, contains-find_order i os o)

-- A new row is found by its key, which no earlier row has.
pub find_order-append_new :
    (n : ℕ) (os : List Order) (o : Order)
    → o.id ≡ n
    → IsFresh n (order_ids os)
    → find_order o.id (os ++ o ∷ []) ≡ some o
unfolding find_order
find_order-append_new n [] o e fresh = ground arith
find_order-append_new n (x ∷ os) o e fresh = ground (arith, find_order-append_new n os o e fresh.2)

pub find_order-fresh :
    (n i : ℕ) (os : List Order) (o : Order)
    → IsFresh n (order_ids os)
    → find_order i os ≡ some o
    → i < n
unfolding find_order
find_order-fresh n i [] o fresh e = absurd (cc)
find_order-fresh n i (x ∷ os) o fresh e = ground (arith, find_order-fresh n i os o fresh.2)
