-- ===== src/Tests/Engine.antt =====
-- A tick of two pairs, one of them new.
use crypto_exchange_pro.Tests.Market.{least, least-IsUniform, drifted, drifted-IsState, settings}
use text.Mathlib.Text.{◌==◌ as str_eq}
use crypto_exchange_pro.Prelude.{String, ◌≡◌, refl, false, some, List, [], ◌∷◌, All, arith, subst}
use crypto_exchange_pro.Prelude.Decimal.{whole}
use crypto_exchange_pro.MarketMaker.Engine.{Running, Engine, Making, running, engine_tick}
use crypto_exchange_pro.MarketMaker.Pairs.{
  IsMaking, MayTick, IsReady, HasTicked, engine_tick_returns,
}

abbrev making : Making
making = record { rng = λ s. least; anchor = λ s. whole 101; settings = settings }

making-IsMaking : IsMaking making
making-IsMaking = record {
  uniform_rng = λ s. least-IsUniform;
  anchors = λ s. omega arith;
  few_levels = omega arith;
}

abbrev btc : Running
btc = record { symbol = "BTC/USDT"; state = drifted; draws = 0 }

abbrev btc_running : Engine
btc_running = btc ∷ []

abbrev two_pairs : List String
two_pairs = "BTC/USDT" ∷ "ETH/USDT" ∷ []

may_tick : All (MayTick making btc_running) two_pairs
unfolding running
may_tick = (
  λ r found.
      let same : btc ≡ r = cc in
      subst (λ (x : Running). IsReady making x.state) same (omega arith, drifted-IsState),
  (λ r found. absurd (cc), tt),
)

engine_tick_returns_example :
    (e' : Engine) × (engine_tick making 90 two_pairs btc_running ≡ some e')
    × All (HasTicked making e') two_pairs
    × ((t : String)
        → All (λ s. str_eq s t ≡ false) two_pairs
        → running t e' ≡ running t btc_running)
engine_tick_returns_example =
    engine_tick_returns making making-IsMaking 90 two_pairs btc_running ((refl, tt), (tt, tt))
      may_tick
