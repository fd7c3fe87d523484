-- ===== src/Tests.antt =====
-- Runs of the model at concrete inputs, and instances of the theorems.
mod Sample
mod Exchange
mod Trading
mod Readings
mod Ledgers
mod Market
mod Store
mod Accounts
mod Portfolio
mod Admin
mod Sockets
mod Hosts
mod Engine
