-- ===== src/Market/Upstream.antt =====
-- What the cache and Binance answer (backend/app/core/cache.py, backend/app/services/binance_client.py): no
-- JSON, JSON of another shape, or a value.
use crypto_exchange_pro.Prelude.{Option, none, some}

pub data Fetched (A : Type 0) : Type 0 where
  missing malformed : Fetched A
  payload : A → Fetched A

-- The cached answer, and a fetched one if there is none.
abbrev pub first_payload : {A : Type 0} → Fetched A → Fetched A → Fetched A
first_payload missing fetched = fetched
first_payload malformed fetched = malformed
first_payload (payload a) fetched = payload a

-- The response of a cached endpoint, and what it writes to the cache.
abbrev pub served : {A : Type 0} → Option A → A → A × Option A
served none built = (built, some built)
served (some a) built = (a, none)
