-- ===== src/Pubkey.antt =====
-- What the program uses of `PublicKey` of @solana/web3.js, and the test of src/utils/pubkey.ts for
-- configured keys.
pub mod Keys
pub mod Set
pub mod Counting
pub mod LinearMap
pub mod HashMap
use klend_sdk.Prelude.{Bool, not, ◌&&◌}
use klend_sdk.Pubkey.Keys.{PublicKeys}

-- A key is an object here, so the test for `undefined` passes.
unfoldable pub is_not_null_pubkey {ℓ} : {K : Type ℓ} ⦃p : PublicKeys K⦄ → K → Bool
is_not_null_pubkey ⦃p⦄ k = not (p.equals k p.null_pubkey) && not (p.equals k p.default)
