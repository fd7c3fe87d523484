-- ===== src/Solvency/Validation.antt =====
-- The validation of a request for an order (backend/app/schemas/order.py).
use crypto_exchange_pro.Prelude.{
  ◌&&◌, ◌⊎◌, is_some, ◌≡◌, refl, not, some, Bool-cases, Option-cases, inl, inr,
}
use crypto_exchange_pro.Prelude.Int.{pos, leb_ℤ}
use crypto_exchange_pro.Models.{OrderType, is_market}
use crypto_exchange_pro.Session.{Db, Error, ok, err}
use crypto_exchange_pro.Routers.Orders.{
  PlaceOrderRequest, parse_type, validate_order, is_given_nonpositive,
}

-- Validation writes nothing.
pub validate_order-cases :
    (r : PlaceOrderRequest) (db : Db)
    → ((type : OrderType) × (validate_order r db ≡ (ok type, db)) × (parse_type r.type ≡ some type))
      ⊎ ((e : Error) × (validate_order r db ≡ (err e, db)))
unfolding validate_order
validate_order-cases r db = elim (Bool-cases (leb_ℤ r.qty (pos 0))) [
  | inl t ↦ inr (Error.quantity_invalid, rw t refl)
  | inr f ↦ elim (Bool-cases (is_given_nonpositive r.price)) [
    | inl t ↦ inr (Error.price_invalid, rw (f, t) refl)
    | inr g ↦ elim (Option-cases (parse_type r.type)) [
      | inl e ↦ inr (Error.invalid_type, rw (f, g, e) refl)
      | inr (type, e) ↦ elim (Bool-cases (not (is_market type) && not (is_some r.price))) [
        | inl t ↦ inr (Error.price_required, rw (f, g, e, t) refl)
        | inr h ↦ inl (type, rw (f, g, e, h) refl, e)
      ]
    ]
  ]
]
