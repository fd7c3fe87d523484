-- ===== src/Lifecycle.antt =====
-- The steps of an order's row over its life: the orders that backend/app/services/trading.py writes.
use crypto_exchange_pro.Prelude.{
  ℕ, ◌≡◌, refl, sym, ap, subst, ◌∙◌, true, false, some, List, [], ◌∷◌, ◌++◌, ◌==◌, arith,
  if◌then◌else◌, Bool-cases, inl, inr,
}
use mathlib.Core.Bool.{false≢true}
use crypto_exchange_pro.Prelude.Decimal.{Decimal}
use crypto_exchange_pro.Models.{Order, is_open}
use crypto_exchange_pro.Tables.Orders.{find_order, write_order}
use crypto_exchange_pro.Trading.Limit.{fill_order}
use crypto_exchange_pro.Trading.Cancel.{cancel_row}

pub data Advance (o o' : Order) : Type 0 where
  stays : o' ≡ o → Advance o o'
  fills : (price : Decimal) → is_open o.status ≡ true → o' ≡ fill_order o.qty price o → Advance o o'
  cancels : is_open o.status ≡ true → o' ≡ cancel_row o → Advance o o'

-- Every row of the first table is in the second, advanced.
abbrev pub Advances : List Order → List Order → Type 0
Advances os os' =
    (i : ℕ) (o : Order)
    → find_order i os ≡ some o
    → (o' : Order) × (find_order i os' ≡ some o') × Advance o o'

pub Advances-refl : (os : List Order) → Advances os os
Advances-refl os i o e = (o, e, stays refl)

-- A row that is no longer open stays as it is.
pub Advance-closed : (o o' : Order) → is_open o.status ≡ false → Advance o o' → o' ≡ o
Advance-closed o o' c (stays e) = e
Advance-closed o o' c (fills price t e) = absurd (false≢true (sym c ∙ t))
Advance-closed o o' c (cancels t e) = absurd (false≢true (sym c ∙ t))

Advance-trans : (o o1 o2 : Order) → Advance o o1 → Advance o1 o2 → Advance o o2
Advance-trans o o1 o2 (stays e) h = subst (λ x. Advance x o2) e h
Advance-trans o o1 o2 (fills price t e) h =
    fills price t (Advance-closed o1 o2 (ap (λ x. is_open x.status) e) h ∙ e)
Advance-trans o o1 o2 (cancels t e) h =
    cancels t (Advance-closed o1 o2 (ap (λ x. is_open x.status) e) h ∙ e)

pub Advances-trans : (a b c : List Order) → Advances a b → Advances b c → Advances a c
Advances-trans a b c f g i o e =
    let (o1, e1, s1) = f i o e in
    let (o2, e2, s2) = g i o1 e1 in (o2, e2, Advance-trans o o1 o2 s1 s2)

-- Looking up after a write to one row.
pub find_order-write_order :
    (i j : ℕ) (f : Order → Order) (os : List Order) (o : Order)
    → ((x : Order) → (f x).id ≡ x.id)
    → find_order i os ≡ some o
    → find_order i (write_order j f os) ≡ some (if i == j then f o else o)
unfolding find_order write_order
find_order-write_order i j f [] o keeps e = absurd (cc)
find_order-write_order i j f (x ∷ os) o keeps e =
    ground (arith, keeps x, find_order-write_order i j f os o keeps)

pub find_order-append :
    (i : ℕ) (os : List Order) (x o : Order)
    → find_order i os ≡ some o
    → find_order i (os ++ x ∷ []) ≡ some o
unfolding find_order
find_order-append i [] x o e = absurd (cc)
find_order-append i (y ∷ os) x o e = ground (arith, find_order-append i os x o)

pub Advances-append : (os : List Order) (x : Order) → Advances os (os ++ x ∷ [])
Advances-append os x i o e = (o, find_order-append i os x o e, stays refl)

-- A write that advances the row of one order.
pub Advances-write_order :
    (os : List Order) (f : Order → Order) (o : Order)
    → ((x : Order) → (f x).id ≡ x.id)
    → find_order o.id os ≡ some o
    → Advance o (f o)
    → Advances os (write_order o.id f os)
Advances-write_order os f o keeps found step i x e = elim (Bool-cases (i == o.id)) [
  | inl t ↦
      let same : x ≡ o = ground (arith, ap (λ j. find_order j os) (eq_of_test i o.id t)) in
      (
        f x,
        find_order-write_order i o.id f os x keeps e ∙ rw t refl,
        subst (λ y. Advance y (f y)) (sym same) step,
      )
  | inr n ↦ (x, find_order-write_order i o.id f os x keeps e ∙ rw n refl, stays refl)
]
  where
    eq_of_test : (a b : ℕ) → (a == b) ≡ true → a ≡ b
    eq_of_test a b h = ground arith
