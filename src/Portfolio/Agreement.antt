-- ===== src/Portfolio/Agreement.antt =====
-- The live value at the end of a history against the portfolio's total.
use crypto_exchange_pro.Prelude.{
  ℕ, String, true, false, Option, none, some, List, [], ◌∷◌, ◌++◌, ◌*◌, ◌≡◌, refl, sym, ◌∙◌, ◌&&◌,
  ◌==◌, select, sort, All, arith, Bool-cases, inl, inr, sort-IsSorted, IsSorted,
}
use crypto_exchange_pro.Prelude.Int.{pos, ◌+ℤ◌, ◌≤ℤ◌, ltb_ℤ, int_laws}
use crypto_exchange_pro.Prelude.Sums.{sum_by}
use crypto_exchange_pro.Prelude.Decimal.{Decimal}
use crypto_exchange_pro.Models.{Asset, Wallet}
use crypto_exchange_pro.Session.{Db}
use crypto_exchange_pro.Market.{Feed}
use crypto_exchange_pro.WalletService.Listing.{asset_of}
use crypto_exchange_pro.Portfolio.{
  QuoteCache, Portfolio, quote_cache, best_pair, is_spot_of, add_coin, add_wallet, add_wallets,
  get_portfolio,
}
use crypto_exchange_pro.Portfolio.History.{
  Holding, Point, holdings, add_holding, add_price, add_value, add_live_price, add_live_value,
  live_usd_value, sampling, newer, newest_first, current_holdings, is_of, earlier,
  get_portfolio_history,
}
use crypto_exchange_pro.Portfolio.Unwinding.{direct_samples, samples_direct, AreHeld}

-- Live prices that stand still.
abbrev pub still : (String → Decimal) → Feed
still price n symbol = price symbol

abbrev pub HasFunds : Wallet → Type 0
HasFunds w = pos 0 ≤ℤ w.funds.balance

module _ (prices : QuoteCache) (price : String → Decimal) where
  worth : Holding → Decimal
  worth h = add_value prices price h (pos 0)

  add_live_price-worth :
      (v : Decimal) (pair : Option String) (s : Decimal × Db)
      → (add_live_price (still price) v pair s).0 ≡ s.0 +ℤ add_price price v pair (pos 0)
  add_live_price-worth v none s = grind int_laws
  add_live_price-worth v (some p) s = grind int_laws

  add_live_value-worth :
      (h : Holding) (s : Decimal × Db)
      → (add_live_value (still price) prices h s).0 ≡ s.0 +ℤ worth h
  unfolding worth
  add_live_value-worth h s =
      grind (int_laws, add_live_price-worth h.amount (best_pair prices h.symbol) s)

  live_usd_value-worth :
      (hs : List Holding) (s : Decimal × Db)
      → (live_usd_value (still price) prices hs s).0 ≡ s.0 +ℤ sum_by worth hs
  unfolding live_usd_value sum_by
  live_usd_value-worth [] s = grind int_laws
  live_usd_value-worth (h ∷ hs) s = grind (
    int_laws,
    live_usd_value-worth hs (add_live_value (still price) prices h s),
    add_live_value-worth h s,
  )

  add_coin-total :
      (u : ℕ) (w : Wallet) (a : Asset) (pair : Option String) (s : Portfolio × Db)
      → (add_coin (still price) u w a pair s).0.total_usd
        ≡ s.0.total_usd +ℤ add_price price w.funds.balance pair (pos 0)
  add_coin-total u w a none s = grind int_laws
  add_coin-total u w a (some p) s = grind int_laws

  add_wallet-total :
      (u : ℕ) (w : Wallet) (a : Option Asset) (s : Portfolio × Db)
      → ltb_ℤ (pos 0) w.funds.balance ≡ true
      → (add_wallet (still price) u prices w a s).0.total_usd
        ≡ s.0.total_usd +ℤ sum_by worth (add_holding w a [])
  unfolding sum_by worth
  add_wallet-total u w none s h = grind int_laws
  add_wallet-total u w (some a) s h =
      grind (int_laws, add_coin-total u w a (best_pair prices a.symbol) s)

  no_worth :
      (w : Wallet) (a : Option Asset)
      → ltb_ℤ (pos 0) w.funds.balance ≡ false
      → pos 0 ≤ℤ w.funds.balance
      → sum_by worth (add_holding w a []) ≡ pos 0
  unfolding sum_by worth
  no_worth w none f h = refl
  no_worth w (some a) f h = grind int_laws

  add_holding-sum :
      (w : Wallet) (a : Option Asset) (hs : List Holding)
      → sum_by worth (add_holding w a hs) ≡ sum_by worth (add_holding w a []) +ℤ sum_by worth hs
  unfolding sum_by
  add_holding-sum w none hs = grind int_laws
  add_holding-sum w (some a) hs = grind int_laws

  add_wallets-total :
      (u : ℕ) (assets : List Asset) (ws : List Wallet) (s : Portfolio × Db)
      → All HasFunds ws
      → (add_wallets
          (still price)
          u
          prices
          assets
          (select (λ w. is_spot_of u w && ltb_ℤ (pos 0) w.funds.balance) ws)
          s).0.total_usd
        ≡ s.0.total_usd +ℤ sum_by worth (holdings assets (select (is_spot_of u) ws))
  unfolding add_wallets holdings sum_by
  add_wallets-total u assets [] s all = grind int_laws
  add_wallets-total u assets (w ∷ ws) s all =
      let a = asset_of w.key.asset_id assets in
      let split = add_holding-sum w a (holdings assets (select (is_spot_of u) ws)) in
      elim (Bool-cases (is_spot_of u w)) [
        | inr f ↦ rw f (add_wallets-total u assets ws s all.1)
        | inl t ↦ elim (Bool-cases (ltb_ℤ (pos 0) w.funds.balance)) [
          | inl p ↦
              let rest =
                add_wallets-total u assets ws (add_wallet (still price) u prices w a s) all.1 in
              let first = add_wallet-total u w a s p in
              rw (t, p) (grind (int_laws, split, rest, first))
          | inr p ↦
              let rest = add_wallets-total u assets ws s all.1 in
              let nothing = no_worth w a p all.0 in
              rw (t, p) (grind (int_laws, split, rest, nothing))
        ]
      ]

-- At prices that stand still, with no balance below zero, the live value is the portfolio's total.
total-live :
    (price : String → Decimal) (u : ℕ) (db : Db)
    → All HasFunds db.wallets
    → (live_usd_value
        (still price)
        (quote_cache db.assets db.pairs)
        (current_holdings u db)
        (pos 0, db)).0
      ≡ (get_portfolio (still price) u db).0.total_usd
unfolding get_portfolio
total-live price u db all =
    let prices = quote_cache db.assets db.pairs in
    let live = live_usd_value-worth prices price (current_holdings u db) (pos 0, db) in
    let total =
      add_wallets-total prices price u db.assets db.wallets
        (record { total_usd = pos 0; items = [] }, db) all in
    live ∙ sym total

pub newest_first-IsSorted : (u : ℕ) (db : Db) → IsSorted newer (newest_first u db)
newest_first-IsSorted u db =
    sort-IsSorted newer (λ x y h. ground (arith, h)) (λ x y z h k. ground (arith, h, k))
      (select (is_of u) db.transactions)

module _ (feed : Feed) (hash : String → ℕ → ℕ) (u days points_per_day : ℕ) (db : Db) where
  abbrev pub direct_history : List Point
  direct_history =
      let total_points = days * points_per_day in
      direct_samples (sampling hash days total_points db) total_points (newest_first u db)
        (current_holdings u db)

  -- With at least one sample, and a spot wallet for the asset of each of the user's ledger rows, the
  -- history succeeds. Its samples are those that one gets by taking, for each time by itself, every
  -- row after that time off the current balances; a last point at the present has the balances as
  -- they are at live prices; and the points are sorted by time.
  pub get_portfolio_history_direct :
      (days * points_per_day) == 0 ≡ false
      → AreHeld (current_holdings u db) (newest_first u db)
      → let value =
          (live_usd_value feed
            (quote_cache db.assets db.pairs)
            (current_holdings u db)
            (pos 0, db)).0 in
        (get_portfolio_history feed hash u days points_per_day db).0
        ≡ some (sort earlier (direct_history ++ record { time = db.now; value = value } ∷ []))
  unfolding get_portfolio_history
  get_portfolio_history_direct some_points held =
      let total_points = days * points_per_day in
      let taken =
        samples_direct (sampling hash days total_points db) total_points (newest_first u db)
          (current_holdings u db) held (newest_first-IsSorted u db) in
      rw (some_points, taken) refl

-- At live prices that stand still, with no balance below zero, at least one sample, and a spot wallet
-- for the asset of each of the user's ledger rows, the history's point at the present has the total
-- of the user's portfolio.
pub get_portfolio_history-total :
    (price : String → Decimal) (hash : String → ℕ → ℕ) (u days points_per_day : ℕ) (db : Db)
    → All HasFunds db.wallets
    → (days * points_per_day) == 0 ≡ false
    → AreHeld (current_holdings u db) (newest_first u db)
    → let total = (get_portfolio (still price) u db).0.total_usd in
      (get_portfolio_history (still price) hash u days points_per_day db).0
      ≡ some (
          sort earlier (
            direct_history (still price) hash u days points_per_day db
            ++ record { time = db.now; value = total } ∷ []))
get_portfolio_history-total price hash u days points_per_day db funds some_points held =
    rw (← total-live price u db funds)
      (get_portfolio_history_direct (still price) hash u days points_per_day db some_points held)
