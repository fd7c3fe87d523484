-- ===== src/Portfolio/Unwinding.antt =====
-- The samples of a portfolio's history against balances computed from scratch.
use crypto_exchange_pro.Prelude.{
  ℕ, zero, suc, true, false, some, List, [], ◌∷◌, ◌+◌, ◌*◌, ◌≤◌, ◌≡◌, refl, sym, ap, ◌∙◌, ◌&&◌,
  ◌==◌, ltb, if◌then◌else◌, map, All, arith, Bool-cases, inl, inr, IsSorted,
}
use crypto_exchange_pro.Prelude.Int.{pos, ◌+ℤ◌, ◌-ℤ◌, int_laws}
use crypto_exchange_pro.Prelude.Decimal.{Decimal}
use crypto_exchange_pro.Models.{Transaction}
use crypto_exchange_pro.Portfolio.History.{
  Holding, Past, Point, Sampling, holds, take_off, unwrap, unwind, value_at, samples, newer,
}

-- The sum of the rows of an asset after a time.
unfoldable pub moved : ℕ → ℕ → List Transaction → Decimal
moved asset_id ts [] = pos 0
moved asset_id ts (t ∷ txs) =
    let rest = moved asset_id ts txs in
    if ltb ts t.created_at && t.wallet.asset_id == asset_id then t.delta +ℤ rest else rest

abbrev pub before_moves : ℕ → List Transaction → Holding → Holding
before_moves ts txs h = record h { amount = h.amount -ℤ moved h.asset_id ts txs }

-- The balances at a time: each less the sum of its asset's rows after that time.
abbrev pub balances_at : ℕ → List Transaction → List Holding → List Holding
balances_at ts txs hs = map (before_moves ts txs) hs

balances_at_nil : (ts : ℕ) (hs : List Holding) → balances_at ts [] hs ≡ hs
unfolding moved
balances_at_nil ts [] = refl
balances_at_nil ts (h ∷ hs) = grind (int_laws, balances_at_nil ts hs)

-- A row after the time, taken off first.
balances_at-take_off :
    (ts : ℕ) (t : Transaction) (txs : List Transaction) (hs : List Holding)
    → ltb ts t.created_at ≡ true
    → balances_at ts txs (map (take_off t.wallet.asset_id t.delta) hs) ≡ balances_at ts (t ∷ txs) hs
unfolding moved
balances_at-take_off ts t txs [] e = refl
balances_at-take_off ts t txs (h ∷ hs) e = grind (int_laws, balances_at-take_off ts t txs hs e)

-- Rows up to the time move nothing.
moved-none :
    (asset_id ts : ℕ) (txs : List Transaction)
    → All (λ (t : Transaction). ltb ts t.created_at ≡ false) txs
    → moved asset_id ts txs ≡ pos 0
unfolding moved
moved-none asset_id ts [] all = refl
moved-none asset_id ts (t ∷ txs) all = rw all.0 (moved-none asset_id ts txs all.1)

balances_at-none :
    (ts : ℕ) (txs : List Transaction) (hs : List Holding)
    → All (λ (t : Transaction). ltb ts t.created_at ≡ false) txs
    → balances_at ts txs hs ≡ hs
balances_at-none ts txs [] all = refl
balances_at-none ts txs (h ∷ hs) all =
    grind (int_laws, moved-none h.asset_id ts txs all, balances_at-none ts txs hs all)

holds-take_off :
    (asset_id a : ℕ) (delta : Decimal) (hs : List Holding)
    → holds asset_id (map (take_off a delta) hs) ≡ holds asset_id hs
unfolding holds
holds-take_off asset_id a delta [] = refl
holds-take_off asset_id a delta (h ∷ hs) = ground (arith, holds-take_off asset_id a delta hs)

-- Every row's asset has an entry.
abbrev pub AreHeld : List Holding → List Transaction → Type 0
AreHeld hs txs = All (λ (t : Transaction). holds t.wallet.asset_id hs ≡ true) txs

AreHeld-take_off :
    (a : ℕ) (delta : Decimal) (hs : List Holding) (txs : List Transaction)
    → AreHeld hs txs
    → AreHeld (map (take_off a delta) hs) txs
AreHeld-take_off a delta hs [] all = tt
AreHeld-take_off a delta hs (t ∷ txs) all =
    (holds-take_off t.wallet.asset_id a delta hs ∙ all.0, AreHeld-take_off a delta hs txs all.1)

-- What the inner loop leaves: no row after the time, and the same balances at earlier times.
record IsUnwound (ts : ℕ) (past left : Past) : Type 0 where
  held : AreHeld left.1 left.0
  sorted : IsSorted newer left.0
  up_to : All (λ (t : Transaction). ltb ts t.created_at ≡ false) left.0
  same : (ts' : ℕ) → ts' ≤ ts → balances_at ts' left.0 left.1 ≡ balances_at ts' past.0 past.1

not_after :
    (ts : ℕ) (t : Transaction) (txs : List Transaction)
    → ltb ts t.created_at ≡ false
    → All (λ u. newer u t ≡ false) txs
    → All (λ (u : Transaction). ltb ts u.created_at ≡ false) txs
not_after ts t [] e all = tt
not_after ts t (u ∷ txs) e all = (ground (arith, all.0), not_after ts t txs e all.1)

unwind-IsUnwound :
    (ts : ℕ) (txs : List Transaction) (hs : List Holding)
    → AreHeld hs txs
    → IsSorted newer txs
    → (left : Past) × (unwind ts txs hs ≡ some left) × IsUnwound ts (txs, hs) left
unfolding unwind unwrap
unwind-IsUnwound ts [] hs held sorted =
    (([], hs), refl, record { held = tt; sorted = tt; up_to = tt; same = λ ts' h. refl })
unwind-IsUnwound ts (t ∷ txs) hs held sorted = elim (Bool-cases (ltb ts t.created_at)) [
  | inl e ↦
      let hs' = map (take_off t.wallet.asset_id t.delta) hs in
      let (left, runs, u) =
        unwind-IsUnwound ts txs hs' (AreHeld-take_off t.wallet.asset_id t.delta hs txs held.1)
          sorted.1 in
      (
        left,
        rw (e, held.0) runs,
        record {
          held = u.held;
          sorted = u.sorted;
          up_to = u.up_to;
          same = λ ts' h. u.same ts' h ∙ balances_at-take_off ts' t txs hs (ground (arith, h));
        },
      )
  | inr e ↦ (
    (t ∷ txs, hs),
    rw e refl,
    record {
      held = held;
      sorted = sorted;
      up_to = (e, not_after ts t txs e sorted.0);
      same = λ ts' h. refl;
    },
  )
]

-- What the inner loop leaves is the balances at its time.
pub unwind-balances_at :
    (ts : ℕ) (txs : List Transaction) (hs : List Holding)
    → AreHeld hs txs
    → IsSorted newer txs
    → (left : Past) × (unwind ts txs hs ≡ some left) × (left.1 ≡ balances_at ts txs hs)
unwind-balances_at ts txs hs held sorted =
    let (left, runs, u) = unwind-IsUnwound ts txs hs held sorted in
    (left, runs, sym (balances_at-none ts left.0 left.1 u.up_to) ∙ u.same ts (omega arith))

-- The samples, each from the balances at its time.
unfoldable pub direct_samples : Sampling → ℕ → List Transaction → List Holding → List Point
direct_samples s zero txs hs = []
direct_samples s (suc i) txs hs =
    let ts = s.start + s.step * i in
    let rest = direct_samples s i txs hs in
    if ltb s.now ts
    then rest
    else record { time = ts; value = value_at s ts (balances_at ts txs hs) } ∷ rest

earlier_sample : (start step i : ℕ) → start + step * i ≤ start + step * suc i
earlier_sample start step i = omega arith

-- They depend on the balances alone, up to the last time.
direct_samples_congr :
    (s : Sampling) (n : ℕ) (past left : Past)
    → ((ts : ℕ)
        → ts ≤ s.start + s.step * n
        → balances_at ts left.0 left.1 ≡ balances_at ts past.0 past.1)
    → direct_samples s n left.0 left.1 ≡ direct_samples s n past.0 past.1
unfolding direct_samples
direct_samples_congr s zero past left same = refl
direct_samples_congr s (suc i) past left same =
    let ts = s.start + s.step * i in
    let bound = earlier_sample s.start s.step i in
    rw (same ts bound, direct_samples_congr s i past left (λ t h. same t (omega (arith, bound, h))))
      refl

-- The loop that unwinds as it goes takes the same samples.
pub samples_direct :
    (s : Sampling) (n : ℕ) (txs : List Transaction) (hs : List Holding)
    → AreHeld hs txs
    → IsSorted newer txs
    → samples s n (txs, hs) ≡ some (direct_samples s n txs hs)
unfolding samples direct_samples
samples_direct s zero txs hs held sorted = refl
samples_direct s (suc i) txs hs held sorted =
    let ts = s.start + s.step * i in
    let (left, runs, u) = unwind-IsUnwound ts txs hs held sorted in
    elim (Bool-cases (ltb s.now ts)) [
      | inl e ↦ rw e (samples_direct s i txs hs held sorted)
      | inr e ↦
          let here : left.1 ≡ balances_at ts txs hs =
            sym (balances_at-none ts left.0 left.1 u.up_to) ∙ u.same ts (omega arith) in
          let rest = direct_samples_congr s i (txs, hs) left u.same in
          let left_samples = samples_direct s i left.0 left.1 u.held u.sorted in
          rw (e, runs, left_samples, rest)
            (ap
              (λ b.
                some (record { time = ts; value = value_at s ts b } ∷ direct_samples s i txs hs))
              here)
    ]
