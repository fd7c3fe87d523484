-- ===== src/MarketMaker/Engine.antt =====
-- The engine's states by pair (backend/app/services/market_maker.py, lines 84 to 121). A state is laid out
-- around the anchor price when its pair is first asked for, and draws from a generator of its own, which
-- begins anew with the pair's seed. None where a division by a price of zero raises.
use text.Mathlib.Text.{◌==◌ as str_eq}
use crypto_exchange_pro.Prelude.{ℕ, String, Option, none, some, List, [], ◌∷◌, if◌then◌else◌}
use crypto_exchange_pro.Prelude.Decimal.{Decimal}
use crypto_exchange_pro.MarketMaker.{Rng, Level, PairState, Settings, layout}
use crypto_exchange_pro.MarketMaker.Book.{tick_pair}

-- `_states`, each state with the number of draws that its generator has made.
pub record Running : Type 0 where
  pub symbol : String
  pub state : PairState
  pub draws : ℕ

abbrev pub Engine : Type 0
Engine = List Running

unfoldable pub running : String → Engine → Option Running
running symbol [] = none
running symbol (r ∷ rs) = if str_eq r.symbol symbol then some r else running symbol rs

-- An assignment to the state of a pair, which is added if there is none.
unfoldable pub keep_running : Running → Engine → Engine
keep_running new [] = new ∷ []
keep_running new (r ∷ rs) =
    let rest = keep_running new rs in if str_eq r.symbol new.symbol then new ∷ rs else r ∷ rest

-- What the engine is built with: the generators by the pair's symbol, the anchor prices, the settings.
pub record Making : Type 0 where
  pub rng : String → Rng
  pub anchor : String → Decimal
  pub settings : Settings

abbrev pub laid_out : String → Decimal → ℕ → Option ((List Level × List Level) × ℕ) → Option Running
laid_out symbol mid now none = none
laid_out symbol mid now (some (books, draws)) = some (record {
  symbol = symbol;
  state = record { mid = mid; bids = books.0; asks = books.1; tape = []; anchor_ts = now };
  draws = draws;
})

abbrev pub or_new : Making → String → ℕ → Option Running → Option Running
or_new making symbol now (some r) = some r
or_new making symbol now none =
    let mid = making.anchor symbol in
    laid_out symbol mid now (layout (making.rng symbol) mid making.settings.levels 0)

abbrev pub then_keep : Option Running → Engine → Option (Running × Engine)
then_keep none e = none
then_keep (some r) e = some (r, keep_running r e)

-- `_ensure`. A state that is laid out in a tick has the tick's time.
unfoldable pub ensure : Making → String → ℕ → Engine → Option (Running × Engine)
ensure making symbol now e = then_keep (or_new making symbol now (running symbol e)) e

abbrev pub mid_of : Option (Running × Engine) → Option (Decimal × Engine)
mid_of none = none
mid_of (some (r, e)) = some (r.state.mid, e)

-- `price`.
unfoldable pub engine_price : Making → String → ℕ → Engine → Option (Decimal × Engine)
engine_price making symbol now e = mid_of (ensure making symbol now e)

abbrev pub keep_ticked : String → Engine → Option (PairState × ℕ) → Option Engine
keep_ticked symbol e none = none
keep_ticked symbol e (some (state, draws)) =
    some (keep_running (record { symbol = symbol; state = state; draws = draws }) e)

abbrev pub tick_running : Making → String → ℕ → Option (Running × Engine) → Option Engine
tick_running making symbol now none = none
tick_running making symbol now (some (r, e)) =
    keep_ticked symbol e
      (tick_pair (making.rng symbol) making.settings (making.anchor symbol) now r.state r.draws)

abbrev pub then_engine : Option Engine → (Engine → Option Engine) → Option Engine
then_engine none f = none
then_engine (some e) f = f e

unfoldable pub engine_tick : Making → ℕ → List String → Engine → Option Engine
engine_tick making now [] e = some e
engine_tick making now (symbol ∷ symbols) e =
    then_engine (tick_running making symbol now (ensure making symbol now e))
      (engine_tick making now symbols)
