-- ===== src/Action.antt =====
-- src/classes/action.ts: `KaminoAction`, which builds the instructions of a lending action.
pub mod Interfaces
pub mod Data
pub mod State
pub mod Keys
pub mod Refresh
pub mod Init
pub mod Lending
pub mod Ata
pub mod Elevation
pub mod Positions
pub mod Requests
pub mod Support
pub mod Initialize
pub mod Build
pub mod Transactions
pub mod Frame
