-- ===== src/Metadata.antt =====
-- A user's metadata and address lookup table: src/utils/userMetadata.ts and src/utils/lookupTable.ts.
pub mod Tables
pub mod Addresses
pub mod Setup
