-- ===== src/Reserve.antt =====
-- The reserves of src/classes/reserve.ts: the update of a reserve's configuration.
pub mod Modes
pub mod Bytes
pub mod Data
pub mod Interfaces
pub mod Encode
pub mod Change
pub mod Update
pub mod Rates
pub mod Caps
