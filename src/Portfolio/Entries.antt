-- ===== src/Portfolio/Entries.antt =====
-- The entries of the volume report: one for each pair.
use crypto_exchange_pro.Prelude.{
  str_eq_sym, String, Bool, true, false, List, [], ◌∷◌, ◌≡◌, refl, ap, ◌∙◌, ◌||◌, insert, sort, All,
  arith, Bool-cases, inl, inr,
}
use text.Mathlib.Text.{◌==◌ as str_eq}
use text.Mathlib.TextEquality.{eq_iff}
use crypto_exchange_pro.Prelude.Int.{pos, int_laws}
use crypto_exchange_pro.Prelude.Sums.{sum_by}
use crypto_exchange_pro.Models.{OrderSide}
use crypto_exchange_pro.Portfolio.Volume.{
  VolumeRow, VolumeReport, PairVolume, no_volume, add_to_pair, add_rows,
}
use crypto_exchange_pro.Portfolio.Grouping.{
  notional_of, pair_notional, add_row-pair, lists, AreDistinct,
}

-- Which symbols are listed.
lists-add_to_pair :
    (s : String) (r : VolumeRow) (ps : List PairVolume)
    → str_eq r.symbol s ≡ false
    → lists s (add_to_pair r ps) ≡ lists s ps
unfolding add_to_pair
lists-add_to_pair s r [] f = rw (add_row-pair r.side r (no_volume r.symbol), f) refl
lists-add_to_pair s r (p ∷ ps) f = elim (Bool-cases (str_eq p.pair r.symbol)) [
  | inl e ↦ rw (e, add_row-pair r.side r p) refl
  | inr e ↦ rw e (ap (λ b. str_eq p.pair s || b) (lists-add_to_pair s r ps f))
]

add_to_pair-AreDistinct :
    (r : VolumeRow) (ps : List PairVolume) → AreDistinct ps → AreDistinct (add_to_pair r ps)
unfolding add_to_pair
add_to_pair-AreDistinct r [] d = (refl, tt)
add_to_pair-AreDistinct r (p ∷ ps) d = elim (Bool-cases (str_eq p.pair r.symbol)) [
  | inl e ↦ rw (e, add_row-pair r.side r p) d
  | inr f ↦ rw f (
    lists-add_to_pair p.pair r ps (str_eq_sym p.pair r.symbol f) ∙ d.0,
    add_to_pair-AreDistinct r ps d.1,
  )
]

pub add_rows-AreDistinct :
    (rows : List VolumeRow) (v : VolumeReport)
    → AreDistinct v.pairs
    → AreDistinct (add_rows rows v).pairs
unfolding add_rows
add_rows-AreDistinct [] v d = d
add_rows-AreDistinct (r ∷ rows) v d =
    add_rows-AreDistinct rows _ (add_to_pair-AreDistinct r v.pairs d)

module _ (before : PairVolume → PairVolume → Bool) where
  lists-insert :
      (s : String) (p : PairVolume) (ps : List PairVolume)
      → lists s (insert before p ps) ≡ str_eq p.pair s || lists s ps
  lists-insert s p [] = refl
  lists-insert s p (q ∷ ps) = ground (arith, lists-insert s p ps)

  lists-sort : (s : String) (ps : List PairVolume) → lists s (sort before ps) ≡ lists s ps
  lists-sort s [] = refl
  lists-sort s (p ∷ ps) =
      lists-insert s p (sort before ps) ∙ ap (λ b. str_eq p.pair s || b) (lists-sort s ps)

  insert-AreDistinct :
      (p : PairVolume) (ps : List PairVolume)
      → lists p.pair ps ≡ false
      → AreDistinct ps
      → AreDistinct (insert before p ps)
  insert-AreDistinct p [] f d = (f, d)
  insert-AreDistinct p (q ∷ ps) f d = elim (Bool-cases (before q p)) [
    | inr e ↦ rw e (f, d)
    | inl e ↦
        let other : str_eq p.pair q.pair ≡ false = str_eq_sym q.pair p.pair (ground (arith, f)) in
        rw e
          (lists-insert q.pair p ps ∙ rw other d.0, insert-AreDistinct p ps (ground (arith, f)) d.1)
  ]

  pub sort-AreDistinct : (ps : List PairVolume) → AreDistinct ps → AreDistinct (sort before ps)
  sort-AreDistinct [] d = tt
  sort-AreDistinct (p ∷ ps) d =
      insert-AreDistinct p (sort before ps) (lists-sort p.pair ps ∙ d.0) (sort-AreDistinct ps d.1)

-- A sum over the entries of one pair is its entry.
pair_notional-unlisted :
    (side : OrderSide) (s : String) (ps : List PairVolume)
    → lists s ps ≡ false
    → sum_by (pair_notional side s) ps ≡ pos 0
unfolding sum_by
pair_notional-unlisted side s [] f = refl
pair_notional-unlisted side s (p ∷ ps) f = grind (int_laws, f, pair_notional-unlisted side s ps)

abbrev pub IsEntry : OrderSide → List PairVolume → PairVolume → Type 0
IsEntry side ps p =
    (lists p.pair ps ≡ true) × (notional_of side p ≡ sum_by (pair_notional side p.pair) ps)

IsEntry-cons :
    (side : OrderSide) (q : PairVolume) (ps rest : List PairVolume)
    → lists q.pair ps ≡ false
    → All (IsEntry side ps) rest
    → All (IsEntry side (q ∷ ps)) rest
unfolding sum_by
IsEntry-cons side q ps [] f all = tt
IsEntry-cons side q ps (p ∷ rest) f all =
    let other : str_eq q.pair p.pair ≡ false = elim (Bool-cases (str_eq q.pair p.pair)) [
      | inl e ↦ absurd (cc ((eq_iff q.pair p.pair).0 e, f, all.0.0))
      | inr e ↦ e
    ] in
    (
      (rw (other, all.0.0) refl, rw (other, all.0.1) (grind int_laws)),
      IsEntry-cons side q ps rest f all.1,
    )

pub AreDistinct-IsEntry :
    (side : OrderSide) (ps : List PairVolume) → AreDistinct ps → All (IsEntry side ps) ps
unfolding sum_by
AreDistinct-IsEntry side [] d = tt
AreDistinct-IsEntry side (p ∷ ps) d =
    let same : str_eq p.pair p.pair ≡ true = (eq_iff p.pair p.pair).1 refl in
    (
      (rw same refl, rw (same, pair_notional-unlisted side p.pair ps d.0) (grind int_laws)),
      IsEntry-cons side p ps ps d.0 (AreDistinct-IsEntry side ps d.1),
    )
