-- ===== src/Examples.antt =====
-- Runs of the model on concrete inputs: keys and decimals are numbers.
pub mod Maps
pub mod Reserves
pub mod Tables
pub mod Market
pub mod Actions
pub mod Builds
pub mod Rates
pub mod Groups
pub mod Caps
