-- ===== src/Routers/Symbols.antt =====
-- The symbols that the listing of the ledger remembers (backend/app/routers/wallets.py, lines 68 to 86).
use crypto_exchange_pro.Prelude.{ℕ, String, Option, some, List, ◌≡◌}
use crypto_exchange_pro.Models.{Asset}
use crypto_exchange_pro.Routers.History.{Symbols, looked_up, symbol_of}

-- All symbols that were looked up are those of their assets.
Remembers : List Asset → Symbols → Type 0
Remembers assets symbols =
    (id : ℕ) (s : Option String) → looked_up id symbols ≡ some s → s ≡ symbol_of id assets
