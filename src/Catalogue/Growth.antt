-- ===== src/Catalogue/Growth.antt =====
-- New assets and pairs on tables in use.
use crypto_exchange_pro.Prelude.{
  ℕ, none, some, List, [], ◌∷◌, ◌++◌, ◌+◌, ◌<◌, ◌≡◌, refl, All, arith, Bool-cases, inl, inr,
}
use crypto_exchange_pro.Models.{Asset, TradingPair, Order, WalletKey, is_open}
use crypto_exchange_pro.Session.{Db}
use crypto_exchange_pro.Tables.Orders.{find_pair, order_ids, IsFresh-mono}
use crypto_exchange_pro.Solvency.Claims.{reserved, reserved_by}
use crypto_exchange_pro.Solvency.Invariant.{IsSolvent, IsKeyed, IsSound}

find_pair-append :
    (i : ℕ) (ps : List TradingPair) (p q : TradingPair)
    → find_pair i ps ≡ some q
    → find_pair i (ps ++ p ∷ []) ≡ some q
unfolding find_pair
find_pair-append i [] p q e = absurd (cc)
find_pair-append i (x ∷ ps) p q e = ground (arith, find_pair-append i ps p q)

-- Every pair's key is below the next one.
abbrev pub AreBelow : ℕ → List TradingPair → Type 0
AreBelow n = All (λ (p : TradingPair). p.id < n)

AreBelow-mono : (n : ℕ) (ps : List TradingPair) → AreBelow n ps → AreBelow (n + 1) ps
AreBelow-mono n [] all = tt
AreBelow-mono n (p ∷ ps) all = (omega (arith, all.0), AreBelow-mono n ps all.1)

AreBelow-append :
    (n : ℕ) (ps : List TradingPair) (p : TradingPair)
    → p.id ≡ n
    → AreBelow n ps
    → AreBelow (n + 1) (ps ++ p ∷ [])
AreBelow-append n [] p e all = (omega (arith, e), tt)
AreBelow-append n (x ∷ ps) p e all = (omega (arith, all.0), AreBelow-append n ps p e all.1)

find_pair-unlisted :
    (i : ℕ) (ps : List TradingPair) (p : TradingPair)
    → i < p.id
    → find_pair i ps ≡ none
    → find_pair i (ps ++ p ∷ []) ≡ none
unfolding find_pair
find_pair-unlisted i [] p h e = ground (arith, h)
find_pair-unlisted i (x ∷ ps) p h e = ground (arith, find_pair-unlisted i ps p h, e)

IsKeyed-append :
    (n : ℕ) (ps : List TradingPair) (p : TradingPair)
    → p.id ≡ n
    → AreBelow n ps
    → IsKeyed ps
    → IsKeyed (ps ++ p ∷ [])
unfolding find_pair
IsKeyed-append n [] p e below keyed = (refl, tt)
IsKeyed-append n (x ∷ ps) p e below keyed = (
  find_pair-unlisted x.id ps p (omega (arith, e, below.0)) keyed.0,
  IsKeyed-append n ps p e below.1 keyed.1,
)

-- A new pair changes no order's claim.
module _ (ps : List TradingPair) (p : TradingPair) where
  reserved_by-append :
      (k : WalletKey) (o : Order)
      → IsSound ps o
      → reserved_by (ps ++ p ∷ []) k o ≡ reserved_by ps k o
  unfolding reserved_by
  reserved_by-append k o sound = elim (Bool-cases (is_open o.status)) [
    | inr f ↦ rw f refl
    | inl t ↦
        let (q, price, found, a, b, c, d) = sound t in
        rw (t, found, find_pair-append o.pair_id ps p q found) refl
  ]

  reserved-append_pair :
      (k : WalletKey) (os : List Order)
      → All (IsSound ps) os
      → reserved (ps ++ p ∷ []) k os ≡ reserved ps k os
  unfolding reserved
  reserved-append_pair k [] all = refl
  reserved-append_pair k (o ∷ os) all =
      rw (reserved_by-append k o all.0, reserved-append_pair k os all.1) refl

  IsSound-append : (os : List Order) → All (IsSound ps) os → All (IsSound (ps ++ p ∷ [])) os
  IsSound-append [] all = tt
  IsSound-append (o ∷ os) all = (
    λ t.
        let (q, price, found, a, b, c, d) = all.0 t in
        (q, price, find_pair-append o.pair_id ps p q found, a, b, c, d),
    IsSound-append os all.1,
  )

pub record IsReadyToSeed (db : Db) : Type 0 where
  pub solvent : IsSolvent db
  pub below : AreBelow db.next_id db.pairs

pub with_asset :
    (db : Db) (xs : List Asset)
    → IsReadyToSeed db
    → IsReadyToSeed (record db { assets = xs; next_id = db.next_id + 1 })
with_asset db xs r =
    let s = r.solvent in
    record {
      solvent = record {
        backed = s.backed;
        sound = s.sound;
        fresh =
            IsFresh-mono db.next_id (db.next_id + 1) (order_ids db.orders) (omega arith) s.fresh;
        keyed = s.keyed;
      };
      below = AreBelow-mono db.next_id db.pairs r.below;
    }

pub with_pair :
    (db : Db) (p : TradingPair)
    → p.id ≡ db.next_id
    → IsReadyToSeed db
    → IsReadyToSeed (record db { pairs = db.pairs ++ p ∷ []; next_id = db.next_id + 1 })
with_pair db p e r =
    let s = r.solvent in
    record {
      solvent = record {
        backed = λ k. rw (reserved-append_pair db.pairs p k db.orders s.sound) (s.backed k);
        sound = IsSound-append db.pairs p db.orders s.sound;
        fresh =
            IsFresh-mono db.next_id (db.next_id + 1) (order_ids db.orders) (omega arith) s.fresh;
        keyed = IsKeyed-append db.next_id db.pairs p e r.below s.keyed;
      };
      below = AreBelow-append db.next_id db.pairs p e r.below;
    }
