-- ===== src/Routers/Transaction.antt =====
-- A request's session (backend/app/core/database.py): the session is closed when the request ends,
-- and what was not committed is lost.
use crypto_exchange_pro.Session.{Db, Result, Action, or_rollback}

-- An endpoint that commits after the service has returned.
unfoldable pub commits : {A : Type 0} → Action A → Action A
commits m db = or_rollback db (m db)

-- A session: the tables as they were committed last, and as the session's own calls see them.
pub record RequestSession : Type 0 where
  pub committed : Db
  pub current : Db

abbrev pub async_session : Db → RequestSession
async_session db = record { committed = db; current = db }

-- A call within the session, whose rows are flushed and not committed.
abbrev pub run_within : {A : Type 0} → RequestSession → Action A → Result A × RequestSession
run_within session m = let (r, db) = m session.current in (r, record session { current = db })

-- The end of `get_db`'s block: what was not committed is rolled back.
abbrev pub close_session : RequestSession → Db
close_session session = session.committed

-- An endpoint with no `commit`.
unfoldable pub answers : {A : Type 0} → Action A → Action A
answers m db = let (r, session) = run_within (async_session db) m in (r, close_session session)
