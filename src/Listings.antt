-- ===== src/Listings.antt =====
-- User listings (backend/app/markets: listing_gates.py, visibility.py, listing.py) and the indexer's
-- part in them (backend/app/indexer/listener.py).
pub mod Gates
pub mod Review
pub mod Confirm
pub mod Prepare
pub mod Indexed
pub mod Duplicates
pub mod Sound
pub mod Roundtrip
pub mod Publishing
