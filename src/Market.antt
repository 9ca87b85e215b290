-- ===== src/Market.antt =====
-- The elevation groups of a market: src/classes/market.ts.
pub mod Groups
