-- ===== src/Examples/Tables.antt =====
-- The lookup table of a user of src/utils/userMetadata.ts, in the market of two reserves.
use klend_sdk.Prelude.{ℕ, ◌≡◌, refl, List, [], ◌∷◌, true, none, some, drop, All, replicate}
use klend_sdk.Prelude.Outcome.{Outcome, ok, error}
use klend_sdk.Pubkey.Keys.{numbered_keys}
use klend_sdk.Metadata.Tables.{TableIx, extend_lookup_table_ixs}
use klend_sdk.Metadata.Tables.Laws.{all_added, IsChunk, extend_lookup_table_ixs_lem}
use klend_sdk.Metadata.Addresses
use klend_sdk.Metadata.Addresses.{MintPair, RepaidObligation, get_user_lookup_table_addresses}
use klend_sdk.Metadata.Addresses.Coverage.{Covers, get_user_lookup_table_addresses-Covers}
use klend_sdk.Metadata.Setup
use klend_sdk.Metadata.Setup.{Chain, get_user_lut_address_and_setup_ixns}
use klend_sdk.Metadata.Setup.Laws.{
  Completes, added_by, get_user_lut_address_and_setup_ixns-Completes,
}
use klend_sdk.Examples.Market.{number_web3, small_market}

abbrev thirty : List ℕ
thirty = replicate 30 7

extend_lookup_table_ixs_lem_example :
    (all_added (extend_lookup_table_ixs 1 2 thirty 0) ≡ thirty)
    × All (IsChunk 2) (extend_lookup_table_ixs 1 2 thirty 0)
extend_lookup_table_ixs_lem_example = extend_lookup_table_ixs_lem 1 2 0 thirty

abbrev sol_usdc : List (MintPair ℕ)
sol_usdc = record { coll = 201; debt = 90 } ∷ []

-- The user 61 has the table 77, which holds the key of the user.
abbrev one_table : Chain ℕ
one_table = record { user_lookup_table = λ k. some 77; table_addresses = λ t. some (61 ∷ []) }

abbrev keys_or_none : Outcome (List ℕ) → List ℕ
keys_or_none (ok keys) = keys
keys_or_none (error message) = []

abbrev txs_or_none : Outcome (ℕ × List (List (TableIx ℕ))) → List (List (TableIx ℕ))
txs_or_none (ok (table, txs)) = txs
txs_or_none (error message) = []

abbrev user_keys : List ℕ
user_keys = keys_or_none (get_user_lookup_table_addresses small_market 61 0 [] sol_usdc none)

abbrev user_txs : List (List (TableIx ℕ))
user_txs =
    txs_or_none
      (get_user_lut_address_and_setup_ixns one_table small_market 61 0 true [] sol_usdc none 0)

user_keys-ok : get_user_lookup_table_addresses small_market 61 0 [] sol_usdc none ≡ ok user_keys
unfolding get_user_lookup_table_addresses Addresses.repay_with_coll_addresses
user_keys-ok = refl

user_txs-ok :
    get_user_lut_address_and_setup_ixns one_table small_market 61 0 true [] sol_usdc none 0
    ≡ ok (77, user_txs)
unfolding get_user_lut_address_and_setup_ixns get_user_lookup_table_addresses
    Setup.get_dedup_user_lookup_table_addresses Setup.init_metadata_ixs
    Addresses.repay_with_coll_addresses
user_txs-ok = refl

get_user_lookup_table_addresses-Covers_example : Covers small_market 61 [] sol_usdc none user_keys
get_user_lookup_table_addresses-Covers_example =
    get_user_lookup_table_addresses-Covers small_market 61 0 [] sol_usdc none user_keys user_keys-ok

get_user_lut_address_and_setup_ixns-Completes_example :
    Completes (61 ∷ []) user_keys (added_by user_txs) × All (All (IsChunk 77)) (drop 1 user_txs)
get_user_lut_address_and_setup_ixns-Completes_example =
    get_user_lut_address_and_setup_ixns-Completes one_table small_market 61 0 0 [] sol_usdc none
      user_keys user_keys-ok 77 user_txs user_txs-ok
