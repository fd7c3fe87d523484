-- ===== src/Trading/Matching.antt =====
-- What the query of a user's orders asks for (backend/app/services/trading.py, lines 416 to 432).
use text.Mathlib.Text.{◌==◌ as str_eq}
use text.Mathlib.TextEquality.{eq_iff}
use crypto_exchange_pro.Prelude.{
  ℕ, ◌≤◌, ◌≡◌, ◌≢◌, ◌↔◌, refl, sym, subst, ◌∙◌, String, Bool, true, false, Option, none, some, List,
  ◌&&◌, ◌==◌, leb, given, arith, Bool-cases, inl, inr,
}
use mathlib.Core.Bool.{false≢true}
use crypto_exchange_pro.Models.{
  Order, OrderSide, OrderType, OrderStatus, buy, sell, market, limit, take_profit, stop_loss, open_,
  filled, partially_filled, cancelled, rejected, side_eq, type_eq, status_eq, TradingPair,
}
use crypto_exchange_pro.Tables.Orders.{find_pair}
use crypto_exchange_pro.Trading.Listing.{OrderQuery, is_listed, pair_is}

-- The user's order, on a known pair, with whatever the query gives; an empty symbol asks for nothing.
pub record Matches (user_id : ℕ) (q : OrderQuery) (pairs : List TradingPair) (o : Order)
    : Type 0 where
  pub owner : o.user_id ≡ user_id
  pub paired :
      (p : TradingPair) × (find_pair o.pair_id pairs ≡ some p)
      × ((s : String) → q.pair_symbol ≡ some s → s ≢ "" → p.symbol ≡ s)
  pub status : (s : OrderStatus) → q.order_status ≡ some s → o.status ≡ s
  pub side : (s : OrderSide) → q.side ≡ some s → o.side ≡ s
  pub type : (t : OrderType) → q.order_type ≡ some t → o.type ≡ t
  pub from_time : (t : ℕ) → q.date_from ≡ some t → t ≤ o.created_at
  pub to_time : (t : ℕ) → q.date_to ≡ some t → o.created_at ≤ t

status_eq-eq : (s t : OrderStatus) → status_eq s t ≡ true → s ≡ t
status_eq-eq open_ open_ e = refl
status_eq-eq open_ filled e = cc
status_eq-eq open_ partially_filled e = cc
status_eq-eq open_ cancelled e = cc
status_eq-eq open_ rejected e = cc
status_eq-eq filled open_ e = cc
status_eq-eq filled filled e = refl
status_eq-eq filled partially_filled e = cc
status_eq-eq filled cancelled e = cc
status_eq-eq filled rejected e = cc
status_eq-eq partially_filled open_ e = cc
status_eq-eq partially_filled filled e = cc
status_eq-eq partially_filled partially_filled e = refl
status_eq-eq partially_filled cancelled e = cc
status_eq-eq partially_filled rejected e = cc
status_eq-eq cancelled open_ e = cc
status_eq-eq cancelled filled e = cc
status_eq-eq cancelled partially_filled e = cc
status_eq-eq cancelled cancelled e = refl
status_eq-eq cancelled rejected e = cc
status_eq-eq rejected open_ e = cc
status_eq-eq rejected filled e = cc
status_eq-eq rejected partially_filled e = cc
status_eq-eq rejected cancelled e = cc
status_eq-eq rejected rejected e = refl

status_eq_refl : (s : OrderStatus) → status_eq s s ≡ true
status_eq_refl open_ = refl
status_eq_refl filled = refl
status_eq_refl partially_filled = refl
status_eq_refl cancelled = refl
status_eq_refl rejected = refl

type_eq-eq : (s t : OrderType) → type_eq s t ≡ true → s ≡ t
type_eq-eq market market e = refl
type_eq-eq market limit e = cc
type_eq-eq market take_profit e = cc
type_eq-eq market stop_loss e = cc
type_eq-eq limit market e = cc
type_eq-eq limit limit e = refl
type_eq-eq limit take_profit e = cc
type_eq-eq limit stop_loss e = cc
type_eq-eq take_profit market e = cc
type_eq-eq take_profit limit e = cc
type_eq-eq take_profit take_profit e = refl
type_eq-eq take_profit stop_loss e = cc
type_eq-eq stop_loss market e = cc
type_eq-eq stop_loss limit e = cc
type_eq-eq stop_loss take_profit e = cc
type_eq-eq stop_loss stop_loss e = refl

type_eq_refl : (s : OrderType) → type_eq s s ≡ true
type_eq_refl market = refl
type_eq_refl limit = refl
type_eq_refl take_profit = refl
type_eq_refl stop_loss = refl

side_eq-eq : (s t : OrderSide) → side_eq s t ≡ true → s ≡ t
side_eq-eq buy buy e = refl
side_eq-eq buy sell e = cc
side_eq-eq sell buy e = cc
side_eq-eq sell sell e = refl

side_eq_refl : (s : OrderSide) → side_eq s s ≡ true
side_eq_refl buy = refl
side_eq_refl sell = refl

module _ {A : Type 0} (test : A → Bool) (P : A → Type 0) where
  given-holds :
      (o : Option A)
      → ((a : A) → test a ≡ true → P a)
      → given o test ≡ true
      → (a : A) → o ≡ some a
      → P a
  given-holds none f h a e = absurd (cc)
  given-holds (some x) f h a e = let same : x ≡ a = cc in subst P same (f x h)

  holds-given :
      (o : Option A)
      → ((a : A) → P a → test a ≡ true)
      → ((a : A) → o ≡ some a → P a)
      → given o test ≡ true
  holds-given none f h = refl
  holds-given (some x) f h = f x (h x refl)

pair_is-holds :
    (symbol : Option String) (o : Option TradingPair)
    → pair_is symbol o ≡ true
    → (p : TradingPair) × (o ≡ some p) × ((s : String) → symbol ≡ some s → s ≢ "" → p.symbol ≡ s)
pair_is-holds symbol none h = absurd (cc)
pair_is-holds none (some p) h = (p, refl, λ s e n. absurd (cc))
pair_is-holds (some x) (some p) h = (
  p,
  refl,
  λ s e n.
      let same : x ≡ s = cc in
      let other : str_eq x "" ≡ false = elim (Bool-cases (str_eq x "")) [
        | inl t ↦ absurd (n (sym same ∙ (eq_iff x "").0 t))
        | inr f ↦ f
      ] in
      (eq_iff p.symbol x).0 (rw other at h) ∙ same,
)

holds-pair_is :
    (symbol : Option String) (p : TradingPair)
    → ((s : String) → symbol ≡ some s → s ≢ "" → p.symbol ≡ s)
    → pair_is symbol (some p) ≡ true
holds-pair_is none p h = refl
holds-pair_is (some x) p h = elim (Bool-cases (str_eq x "")) [
  | inl t ↦ rw t refl
  | inr f ↦ rw f ((eq_iff p.symbol x).1 (h x refl (λ e. false≢true (sym f ∙ (eq_iff x "").1 e))))
]

both : (a b : Bool) → (a && b) ≡ true → (a ≡ true) × (b ≡ true)
both true b h = (refl, h)
both false b h = absurd (cc)

module _ (user_id : ℕ) (q : OrderQuery) (pairs : List TradingPair) (o : Order) where
  is_listed-Matches : is_listed user_id q pairs o ≡ true → Matches user_id q pairs o
  unfolding is_listed
  is_listed-Matches h =
      let (h1, r1) = both (o.user_id == user_id) _ h in
      let (h2, r2) = both (pair_is q.pair_symbol (find_pair o.pair_id pairs)) _ r1 in
      let (h3, r3) = both (given q.order_status (status_eq o.status)) _ r2 in
      let (h4, r4) = both (given q.side (side_eq o.side)) _ r3 in
      let (h5, r5) = both (given q.order_type (type_eq o.type)) _ r4 in
      let (h6, h7) = both (given q.date_from (λ t. leb t o.created_at)) _ r5 in
      record {
        owner = ground (arith, h1);
        paired = pair_is-holds q.pair_symbol (find_pair o.pair_id pairs) h2;
        status = given-holds (status_eq o.status) _ q.order_status (status_eq-eq o.status) h3;
        side = given-holds (side_eq o.side) _ q.side (side_eq-eq o.side) h4;
        type = given-holds (type_eq o.type) _ q.order_type (type_eq-eq o.type) h5;
        from_time = given-holds (λ t. leb t o.created_at) _ q.date_from (λ t e. ground arith) h6;
        to_time = given-holds (λ t. leb o.created_at t) _ q.date_to (λ t e. ground arith) h7;
      }

  Matches-is_listed : Matches user_id q pairs o → is_listed user_id q pairs o ≡ true
  unfolding is_listed
  Matches-is_listed m =
      let (p, found, symbol) = m.paired in
      let owner : (o.user_id == user_id) ≡ true = ground (arith, m.owner) in
      let listed : pair_is q.pair_symbol (find_pair o.pair_id pairs) ≡ true =
        rw found (holds-pair_is q.pair_symbol p symbol) in
      let status =
        holds-given (status_eq o.status) _ q.order_status (λ s e. rw⁻¹ e (status_eq_refl o.status))
          m.status in
      let side =
        holds-given (side_eq o.side) _ q.side (λ s e. rw⁻¹ e (side_eq_refl o.side)) m.side in
      let type =
        holds-given (type_eq o.type) _ q.order_type (λ s e. rw⁻¹ e (type_eq_refl o.type)) m.type in
      let from_time =
        holds-given (λ t. leb t o.created_at) _ q.date_from (λ t e. ground arith) m.from_time in
      let to_time =
        holds-given (λ t. leb o.created_at t) _ q.date_to (λ t e. ground arith) m.to_time in
      simp (owner, listed, status, side, type, from_time, to_time) refl

  pub is_listed_iff : (is_listed user_id q pairs o ≡ true) ↔ Matches user_id q pairs o
  is_listed_iff = (is_listed-Matches, Matches-is_listed)
