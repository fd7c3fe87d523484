-- ===== src/Trading.antt =====
-- backend/app/services/trading.py, in children: the reservation of funds and the execution of
-- orders, the sweeps that fill them, the placing and the cancelling of an order.
pub mod Limit
pub mod Sweep
pub mod Place
pub mod Cancel
pub mod Listing
pub mod Matching
pub mod Pages
