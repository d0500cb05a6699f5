-- ===== src/Tests.antt =====
-- Concrete books, jobs and chains, at which the theorems of the other modules are applied.
mod Data
mod Trading
mod Relaying
mod Exchanging
mod Resolving
mod Listing
mod Indexing
mod Ordering
mod Paying
