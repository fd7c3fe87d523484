-- ===== src/Tables.antt =====
-- Reading and writing rows of the tables by their keys.
pub mod Wallets
pub mod Orders
