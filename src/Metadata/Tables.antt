-- ===== src/Metadata/Tables.antt =====
-- The instructions on lookup tables of src/utils/lookupTable.ts.
pub mod Laws
use klend_sdk.Prelude.{
  ℕ, zero, suc, ◌+◌, List, [], ◌∷◌, Bool, true, false, if◌then◌else◌, ltb, length, take, drop,
}
use klend_sdk.Pubkey.Keys.{PublicKeys}
use klend_sdk.Action.Interfaces.{Web3}

-- The instructions of the setup. Accounts that are the same in every call are left out.
pub data TableIx (K : Type 0) : Type 0 where
  create_lookup_table : (authority payer table : K) → TableIx K
  extend_lookup_table : (authority payer table : K) (addresses : List K) → TableIx K
  init_user_metadata :
      (user_lookup_table owner fee_payer user_metadata referrer_user_metadata program : K)
      → TableIx K

abbrev pub chunk_size : ℕ
chunk_size = 25

module _ {K : Type 0} ⦃p : PublicKeys K⦄ where
  -- `payer.equals(PublicKey.default) ? wallet : payer`.
  abbrev pub payer_or : K → K → K
  payer_or payer wallet = if p.equals payer p.default then wallet else payer

  unfoldable pub extend_lookup_table_chunk_ix : K → K → List K → K → TableIx K
  extend_lookup_table_chunk_ix wallet lookup_table_pk keys payer =
      extend_lookup_table wallet (payer_or payer wallet) lookup_table_pk keys

  -- The loop of `extendLookupTableIxs` from `i`, with fuel for its rounds.
  unfoldable pub extend_from : K → K → List K → K → ℕ → ℕ → List (TableIx K)
  unfolding extend_lookup_table_chunk_ix
  extend_from wallet table keys payer zero i = []
  extend_from wallet table keys payer (suc fuel) i =
      let rest =
        extend_lookup_table_chunk_ix wallet table (take chunk_size (drop i keys)) payer
        ∷ extend_from wallet table keys payer fuel (i + chunk_size) in
      if ltb i (length keys) then rest else []

  -- No more rounds than keys are needed.
  unfoldable pub extend_lookup_table_ixs : K → K → List K → K → List (TableIx K)
  unfolding extend_from
  extend_lookup_table_ixs wallet table keys payer =
      extend_from wallet table keys payer (length keys) 0

  module _ ⦃w : Web3 K⦄ where
    -- The instruction, and the address of the new table.
    unfoldable pub create_lookup_table_ix : K → TableIx K × K
    create_lookup_table_ix wallet =
        let table = w.new_lookup_table wallet in (create_lookup_table wallet wallet table, table)
