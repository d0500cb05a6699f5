-- ===== src/Orders.antt =====
-- The routes of the order book (backend/app/orderbook/router.py) and the signatures of orders
-- (backend/app/orderbook/eip712.py).
pub mod Signing
pub mod Post
pub mod Cancel
pub mod Posting
pub mod Cancelling
