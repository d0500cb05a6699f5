-- ===== src/Orderbook.antt =====
-- The off-chain crossing engine (backend/app/orderbook/matcher.py) and the order routes.
-- A row is read and written as it stands in the table; a Python object is a copy of a row, which
-- goes stale until it is refreshed. Quantities are non-negative, so `amount - filled` stops at 0
-- where the source goes below: every reader tests it against 0 or takes a minimum first.
pub mod Rows
pub mod Match
