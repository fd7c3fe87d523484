-- ===== src/MarketMaker/Pairs.antt =====
-- Ticks of the engine over all pairs (backend/app/services/market_maker.py, lines 103 to 121).
use text.Mathlib.Text.{◌==◌ as str_eq}
use text.Mathlib.TextEquality.{eq_iff}
use crypto_exchange_pro.Prelude.{
  str_eq_refl, str_eq_sym, ℕ, ◌≤◌, ◌≡◌, refl, sym, ◌∙◌, String, false, Option, none, some, List, [],
  ◌∷◌, arith, All, All-mono, length, Bool-cases, inl, inr,
}
use crypto_exchange_pro.Prelude.Int.{◌≤ℤ◌}
use crypto_exchange_pro.Prelude.Decimal.{cents}
use crypto_exchange_pro.MarketMaker.{PairState}
use crypto_exchange_pro.MarketMaker.Book.{dearer, cheaper}
use crypto_exchange_pro.MarketMaker.Ladder.{IsLadder}
use crypto_exchange_pro.MarketMaker.Ticks.{IsUniform, IsState, tick_pair_returns}
use crypto_exchange_pro.MarketMaker.Layout.{layout_returns}
use crypto_exchange_pro.MarketMaker.Engine.{
  Running, Engine, Making, running, keep_running, or_new, ensure, engine_tick, tick_running,
}

running-symbol : (s : String) (e : Engine) (r : Running) → running s e ≡ some r → r.symbol ≡ s
unfolding running
running-symbol s [] r found = absurd (cc)
running-symbol s (x ∷ e) r found = elim (Bool-cases (str_eq x.symbol s)) [
  | inl t ↦ let same : x ≡ r = cc (rw t at found) in rw (sym same) ((eq_iff x.symbol s).0 t)
  | inr f ↦ running-symbol s e r (rw f at found)
]

running-keep_running : (r : Running) (e : Engine) → running r.symbol (keep_running r e) ≡ some r
unfolding running keep_running
running-keep_running r [] = rw (str_eq_refl r.symbol) refl
running-keep_running r (x ∷ e) = elim (Bool-cases (str_eq x.symbol r.symbol)) [
  | inl t ↦ rw (t, str_eq_refl r.symbol) refl
  | inr f ↦ rw f (rw f (running-keep_running r e))
]

running-keep_running_other :
    (s : String) (r : Running) (e : Engine)
    → str_eq r.symbol s ≡ false
    → running s (keep_running r e) ≡ running s e
unfolding running keep_running
running-keep_running_other s r [] other = rw other refl
running-keep_running_other s r (x ∷ e) other = elim (Bool-cases (str_eq x.symbol r.symbol)) [
  | inl t ↦
      let same : x.symbol ≡ r.symbol = (eq_iff x.symbol r.symbol).0 t in
      rw t (rw other (rw same (rw other refl)))
  | inr f ↦ rw f (rw (running-keep_running_other s r e other) refl)
]

-- Generators within their bounds, anchors of two cents or more, and at most 1000 levels a side.
pub record IsMaking (making : Making) : Type 0 where
  pub uniform_rng : (s : String) → IsUniform (making.rng s)
  pub anchors : (s : String) → cents 2 ≤ℤ making.anchor s
  pub few_levels : making.settings.levels ≤ 1000

-- A state that a tick can start from.
abbrev pub IsReady : Making → PairState → Type 0
IsReady making state = (cents 2 ≤ℤ state.mid) × IsState making.settings.tape_maxlen state

-- The pair has such a state, or none yet.
abbrev pub MayTick : Making → Engine → String → Type 0
MayTick making e s = (r : Running) → running s e ≡ some r → IsReady making r.state

-- What a tick leaves.
abbrev pub IsTicked : Making → PairState → Type 0
IsTicked making state =
    (cents 1 ≤ℤ state.mid)
    × IsLadder making.settings.levels dearer state.bids
    × IsLadder making.settings.levels cheaper state.asks
    × (length state.tape ≤ making.settings.tape_maxlen)

abbrev pub HasTicked : Making → Engine → String → Type 0
HasTicked making e s = (r : Running) × (running s e ≡ some r) × IsTicked making r.state

-- No pair twice.
abbrev pub Different : List String → Type 0
Different [] = Unit
Different (s ∷ ss) = All (λ t. str_eq s t ≡ false) ss × Different ss

module _ (making : Making) (made : IsMaking making) (now : ℕ) where
  or_new_returns :
      (s : String) (o : Option Running)
      → ((r : Running) → o ≡ some r → (r.symbol ≡ s) × IsReady making r.state)
      → (r : Running) × (or_new making s now o ≡ some r) × (r.symbol ≡ s) × IsReady making r.state
  or_new_returns s (some r) ready = let (same, ok) = ready r refl in (r, refl, same, ok)
  or_new_returns s none ready =
      let (bids, asks, n, runs, bids_ok, asks_ok) =
        layout_returns (making.rng s) (made.uniform_rng s) (making.anchor s) (made.anchors s)
          making.settings.levels 0 made.few_levels in
      (
        record {
          symbol = s;
          state = record {
            mid = making.anchor s;
            bids = bids;
            asks = asks;
            tape = [];
            anchor_ts = now;
          };
          draws = n;
        },
        rw runs refl,
        refl,
        (
          made.anchors s,
          record { bids_sound = bids_ok; asks_sound = asks_ok; tape_bounded = omega arith },
        ),
      )

  tick_running_returns :
      (s : String) (e : Engine)
      → MayTick making e s
      → (e' : Engine) × (tick_running making s now (ensure making s now e) ≡ some e')
        × HasTicked making e' s
        × ((t : String) → str_eq s t ≡ false → running t e' ≡ running t e)
  unfolding ensure
  tick_running_returns s e may =
      let (r, runs, same, (mid, sound)) =
        or_new_returns s (running s e) (λ r found. (running-symbol s e r found, may r found)) in
      let (state, n, ticks, cent, bids, asks, tape) =
        tick_pair_returns (making.rng s) making.settings (making.anchor s) now r.state r.draws
          (made.uniform_rng s) mid (made.anchors s) sound in
      let kept = keep_running r e in
      let new : Running = record { symbol = s; state = state; draws = n } in
      (
        keep_running new kept,
        rw (runs, ticks) refl,
        (new, running-keep_running new kept, (cent, bids, asks, tape)),
        λ t other.
            running-keep_running_other t new kept other
            ∙ running-keep_running_other t r e (rw same other),
      )

  MayTick-frame :
      (s : String) (e e' : Engine) (ts : List String)
      → ((t : String) → str_eq s t ≡ false → running t e' ≡ running t e)
      → All (λ t. str_eq s t ≡ false) ts
      → All (MayTick making e) ts
      → All (MayTick making e') ts
  MayTick-frame s e e' [] frame other may = tt
  MayTick-frame s e e' (t ∷ ts) frame other may = (
    λ r found. may.0 r (sym (frame t other.0) ∙ found),
    MayTick-frame s e e' ts frame other.1 may.1,
  )

  -- A tick of different pairs, each with a mid price of two cents or more, sound levels and a tape within
  -- its bound, or not seen before, returns: with generators within their bounds, anchors of two cents or
  -- more, and at most 1000 levels a side. Then every pair that was ticked has a mid price of a cent or
  -- more, full sides in order, sound levels, and a tape within its bound; and the other pairs are as they were.
  pub engine_tick_returns :
      (symbols : List String) (e : Engine)
      → Different symbols
      → All (MayTick making e) symbols
      → (e' : Engine) × (engine_tick making now symbols e ≡ some e')
        × All (HasTicked making e') symbols
        × ((t : String) → All (λ s. str_eq s t ≡ false) symbols → running t e' ≡ running t e)
  unfolding engine_tick
  engine_tick_returns [] e different may = (e, refl, tt, λ t none_of. refl)
  engine_tick_returns (s ∷ symbols) e different may =
      let (e1, runs1, ticked1, frame1) = tick_running_returns s e may.0 in
      let (e2, runs2, ticked2, frame2) =
        engine_tick_returns symbols e1 different.1
          (MayTick-frame s e e1 symbols frame1 different.0 may.1) in
      let (r, found, ticked) = ticked1 in
      (
        e2,
        rw runs1 runs2,
        ((r, frame2 s (All-mono _ _ symbols (str_eq_sym s) different.0) ∙ found, ticked), ticked2),
        λ t others. frame2 t others.1 ∙ frame1 t others.0,
      )
