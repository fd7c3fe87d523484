-- ===== src/Routers.antt =====
-- The HTTP endpoints: what they validate, the service that they call, and whether they commit. The user
-- is an argument, except in Admin, which checks the token itself. Rate limits come before them.
pub mod Transaction
pub mod Orders
pub mod Wallets
pub mod Notifications
pub mod Listings
pub mod Admin
pub mod Portfolio
pub mod Market
pub mod Literals
pub mod History
pub mod Symbols
