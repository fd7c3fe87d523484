-- ===== src/Catalogue/Restart.antt =====
-- Seeding the catalogue on tables in use, and again (backend/app/core/seed.py, lines 26 to 62).
use crypto_exchange_pro.Prelude.{
  true, Option, none, some, List, [], ◌∷◌, ◌++◌, ◌+◌, ◌≡◌, refl, ap, ◌∙◌, is_some, All,
  Option-cases, inl, inr,
}
use crypto_exchange_pro.Models.{Asset}
use crypto_exchange_pro.Session.{Db}
use crypto_exchange_pro.Tables.Orders.{find_asset, find_symbol}
use crypto_exchange_pro.Solvency.Invariant.{IsSolvent}
use crypto_exchange_pro.Catalogue.{
  AssetSpec, PairSpec, AssetIds, listed_assets, listed_pairs, id_of, seed_asset, seed_assets,
  pair_symbol, new_pair, seed_pair, seed_pairs, seed_catalog,
}
use crypto_exchange_pro.Catalogue.Seeding.{
  HasAsset, InTable, seed_assets-adds, find_symbol-append, find_symbol-added,
}
use crypto_exchange_pro.Catalogue.Growth.{AreBelow, with_asset, with_pair, IsReadyToSeed}

seed_asset-ready :
    (a : AssetSpec) (found : Option Asset) (s : AssetIds × Db)
    → IsReadyToSeed s.1
    → IsReadyToSeed (seed_asset a found s).1
seed_asset-ready a none s r = with_asset s.1 _ r
seed_asset-ready a (some x) s r = r

seed_assets-ready :
    (specs : List AssetSpec) (s : AssetIds × Db)
    → IsReadyToSeed s.1
    → IsReadyToSeed (seed_assets specs s).1
unfolding seed_assets
seed_assets-ready [] s r = r
seed_assets-ready (a ∷ specs) s r =
    seed_assets-ready specs _ (seed_asset-ready a (find_asset a.symbol s.1.assets) s r)

-- Assets that are all there are left alone.
seed_assets-again :
    (specs : List AssetSpec) (s : AssetIds × Db)
    → All (λ (a : AssetSpec). InTable a.symbol s.1) specs
    → (seed_assets specs s).1 ≡ s.1
unfolding seed_assets
seed_assets-again [] s all = refl
seed_assets-again (a ∷ specs) s all = elim (Option-cases (find_asset a.symbol s.1.assets)) [
  | inl e ↦ absurd (cc (rw e at all.0))
  | inr (x, e) ↦ rw (seed_assets, e) (seed_assets-again specs ((a.symbol, x.id) ∷ s.0, s.1) all.1)
]

abbrev HasPair : Db → PairSpec → Type 0
HasPair db p = is_some (find_symbol (pair_symbol p) db.pairs) ≡ true

abbrev HasIds : AssetIds → PairSpec → Type 0
HasIds ids p = (is_some (id_of p.base ids) ≡ true) × (is_some (id_of p.quote ids) ≡ true)

seed_pairs-again :
    (specs : List PairSpec) (ids : AssetIds) (db : Db)
    → All (HasPair db) specs
    → seed_pairs specs ids db ≡ some db
unfolding seed_pairs
seed_pairs-again [] ids db all = refl
seed_pairs-again (p ∷ specs) ids db all =
    elim (Option-cases (find_symbol (pair_symbol p) db.pairs)) [
      | inl e ↦ absurd (cc (rw e at all.0))
      | inr (x, e) ↦ rw e (seed_pairs-again specs ids db all.1)
    ]

-- What seeding one pair or several leaves.
record IsSeeded (before after : Db) : Type 0 where
  ready : IsReadyToSeed after
  same_assets : after.assets ≡ before.assets
  kept : (p : PairSpec) → HasPair before p → HasPair after p

seed_pair-IsSeeded :
    (p : PairSpec) (ids : AssetIds) (db : Db)
    → HasIds ids p
    → IsReadyToSeed db
    → (db' : Db) × (seed_pair p ids (find_symbol (pair_symbol p) db.pairs) db ≡ some db')
      × IsSeeded db db'
      × HasPair db' p
seed_pair-IsSeeded p ids db has r = elim (Option-cases (find_symbol (pair_symbol p) db.pairs)) [
  | inr (x, e) ↦
      (db, rw e refl, record { ready = r; same_assets = refl; kept = λ q h. h }, rw e refl)
  | inl e ↦ elim (Option-cases (id_of p.base ids)) [
    | inl b ↦ absurd (cc (rw b at has.0))
    | inr (base_id, b) ↦ elim (Option-cases (id_of p.quote ids)) [
      | inl q ↦ absurd (cc (rw q at has.1))
      | inr (quote_id, q) ↦ (
        record db {
          pairs = db.pairs ++ new_pair p db.next_id base_id quote_id ∷ [];
          next_id = db.next_id + 1;
        },
        rw (e, b, q) refl,
        record {
          ready = with_pair db (new_pair p db.next_id base_id quote_id) refl r;
          same_assets = refl;
          kept = λ t h.
              find_symbol-append (pair_symbol t) db.pairs (new_pair p db.next_id base_id quote_id)
                h;
        },
        find_symbol-added db.pairs (new_pair p db.next_id base_id quote_id),
      )
    ]
  ]
]

seed_pairs-IsSeeded :
    (specs : List PairSpec) (ids : AssetIds) (db : Db)
    → All (HasIds ids) specs
    → IsReadyToSeed db
    → (db' : Db) × (seed_pairs specs ids db ≡ some db') × IsSeeded db db' × All (HasPair db') specs
unfolding seed_pairs
seed_pairs-IsSeeded [] ids db has r =
    (db, refl, record { ready = r; same_assets = refl; kept = λ q h. h }, tt)
seed_pairs-IsSeeded (p ∷ specs) ids db has r =
    let (db1, runs, one, mine) = seed_pair-IsSeeded p ids db has.0 r in
    let (db2, rest_runs, rest, all) = seed_pairs-IsSeeded specs ids db1 has.1 one.ready in
    (
      db2,
      rw runs rest_runs,
      record {
        ready = rest.ready;
        same_assets = rest.same_assets ∙ one.same_assets;
        kept = λ q h. rest.kept q (one.kept q h);
      },
      (rest.kept p mine, all),
    )

module _ (db : Db) (solvent : IsSolvent db) (below : AreBelow db.next_id db.pairs) where
  abbrev after_assets : AssetIds × Db
  after_assets = seed_assets listed_assets ([], db)

  -- The catalogue's assets are in the table, and in the dictionary.
  listed : All (λ (a : AssetSpec). HasAsset a.symbol after_assets) listed_assets
  listed = seed_assets-adds listed_assets ([], db)

  in_table :
      (specs : List AssetSpec) (db' : Db)
      → db'.assets ≡ after_assets.1.assets
      → All (λ (a : AssetSpec). HasAsset a.symbol after_assets) specs
      → All (λ (a : AssetSpec). InTable a.symbol db') specs
  in_table [] db' e all = tt
  in_table (a ∷ specs) db' e all =
      (ap (λ xs. is_some (find_asset a.symbol xs)) e ∙ all.0.0, in_table specs db' e all.1)

  -- On solvent tables, with the keys of the pairs below the next key, seeding succeeds and leaves
  -- solvent tables in which every pair of the catalogue is found by its symbol; and seeding again
  -- changes nothing.
  pub seed_catalog_lem :
      (db' : Db) × (seed_catalog db ≡ some db')
      × IsSolvent db'
      × All (λ (p : PairSpec). is_some (find_symbol (pair_symbol p) db'.pairs) ≡ true) listed_pairs
      × (seed_catalog db' ≡ some db')
  unfolding seed_catalog
  seed_catalog_lem =
      let (usd, (usdt, (btc, (eth, end)))) = listed in
      let has : All (HasIds after_assets.0) listed_pairs =
        ((btc.1, usdt.1), ((eth.1, usdt.1), ((btc.1, usd.1), ((eth.1, usd.1), tt)))) in
      let ready =
        seed_assets-ready listed_assets ([], db) (record { solvent = solvent; below = below }) in
      let (db', runs, seeded, all) =
        seed_pairs-IsSeeded listed_pairs after_assets.0 after_assets.1 has ready in
      let again =
        seed_assets-again listed_assets ([], db')
          (in_table listed_assets db' seeded.same_assets listed) in
      let ids = (seed_assets listed_assets ([], db')).0 in
      (
        db',
        runs,
        seeded.ready.solvent,
        all,
        ap (seed_pairs listed_pairs ids) again ∙ seed_pairs-again listed_pairs ids db' all,
      )
