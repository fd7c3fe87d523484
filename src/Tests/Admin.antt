-- ===== src/Tests/Admin.antt =====
-- Accounts, statistics and the catalogue on small tables, and instances of their theorems.
use crypto_exchange_pro.Tests.Portfolio.{shop, no_hash}
use crypto_exchange_pro.Prelude.{
  ℕ, true, false, none, some, List, [], ◌∷◌, ◌≡◌, refl, ◌⊎◌, ◌&&◌, ◌||◌, ◌==◌, is_some,
  if◌then◌else◌, All, select, length, ◌-◌, ◌*◌, ◌/◌,
}
use crypto_exchange_pro.Prelude.Int.{pos, ◌+ℤ◌}
use crypto_exchange_pro.Prelude.Sums.{sum_by}
use crypto_exchange_pro.Session.{Db}
use crypto_exchange_pro.Exchange.{seeded}
use crypto_exchange_pro.Tables.Orders.{find_symbol}
use crypto_exchange_pro.Solvency.Invariant.{IsSolvent}
use crypto_exchange_pro.Solvency.History.{seeded-IsSolvent}
use crypto_exchange_pro.Auth.{User, UserRole, find_user}
use crypto_exchange_pro.Admin.{AdminError, done, refused, is_block, change, update_user, write_user}
use crypto_exchange_pro.Admin.Accounts.{update_user_lem}
use crypto_exchange_pro.Portfolio.History.{day}
use crypto_exchange_pro.Admin.Stats.{since, pair_trades, PairStats, get_admin_stats}
use crypto_exchange_pro.Admin.Consistency.{
  pair_trade_count, day_trades, day_volume, usd_volume, volume_from, get_admin_stats_lem,
}
use crypto_exchange_pro.Catalogue.{PairSpec, listed_pairs, pair_symbol, seed_catalog}
use crypto_exchange_pro.Catalogue.Restart.{seed_catalog_lem}

abbrev user_of : ℕ → UserRole → User
user_of id role = record {
  id = id;
  email = "u@x";
  username = "u";
  hashed_password = "h";
  role = role;
  is_active = true;
  created_at = 0;
}

abbrev boss : User
boss = user_of 1 UserRole.admin

abbrev users : List User
users = boss ∷ user_of 2 UserRole.user ∷ []

blocks_other : update_user boss 2 none (some false) users ≡ (
  done (record (user_of 2 UserRole.user) { is_active = false }),
  boss ∷ record (user_of 2 UserRole.user) { is_active = false } ∷ [],
)
unfolding update_user write_user find_user
blocks_other = refl

blocks_own : (update_user boss 1 none (some false) users).0 ≡ refused AdminError.own_account
unfolding update_user find_user
blocks_own = refl

update_user_lem_example :
    let (r, users') = update_user boss 2 none (some false) users in
    ((find_user 2 users ≡ none) × (r ≡ refused AdminError.user_not_found) × (users' ≡ users))
    ⊎ ((2 == boss.id && (is_some {A = UserRole} none || is_block (some false)) ≡ true)
        × (r ≡ refused AdminError.own_account)
        × (users' ≡ users))
    ⊎ ((target : User) × (find_user 2 users ≡ some target)
        × (2 == boss.id && (is_some {A = UserRole} none || is_block (some false)) ≡ false)
        × (r ≡ done (change none (some false) target))
        × (find_user 1 users'
            ≡ (if 1 == 2 then some (change none (some false) target) else find_user 1 users)))
update_user_lem_example = update_user_lem boss 2 1 none (some false) users

get_admin_stats_lem_example :
    let s = get_admin_stats no_hash 30 users shop in
    let ts = pair_trades shop.pairs (select (since (shop.now - 30 * day)) shop.trades) in
    All (λ (e : PairStats). e.volume_notional ≡ e.buy_notional +ℤ e.sell_notional) s.volume_by_pair
    × (sum_by pair_trade_count s.volume_by_pair ≡ pos (length ts))
    × (sum_by day_trades s.volume_timeline ≡ pos (length ts))
    × (sum_by day_volume s.volume_timeline ≡ sum_by (usd_volume no_hash shop) ts)
    × (s.today_volume_usd ≡ sum_by (volume_from (shop.now / day)) s.volume_timeline)
get_admin_stats_lem_example = get_admin_stats_lem no_hash 30 users shop

abbrev empty : Db
empty = seeded [] [] 1000

seed_catalog_lem_example :
    (db' : Db) × (seed_catalog empty ≡ some db')
    × IsSolvent db'
    × All (λ (p : PairSpec). is_some (find_symbol (pair_symbol p) db'.pairs) ≡ true) listed_pairs
    × (seed_catalog db' ≡ some db')
unfolding seeded
seed_catalog_lem_example = seed_catalog_lem empty (seeded-IsSolvent [] [] 1000 tt) tt
