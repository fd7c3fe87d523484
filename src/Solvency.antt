-- ===== src/Solvency.antt =====
-- The invariant of the tables, and every operation of the exchange against it.
pub mod Claims
pub mod Invariant
pub mod Effects
pub mod Fills
pub mod Stored
pub mod Sweeps
pub mod Placing
pub mod Cancelling
pub mod Deposits
pub mod Rows
pub mod Requests
pub mod Validation
pub mod Events
pub mod History
pub mod Completeness
pub mod Purging
pub mod RoundTrip
