-- ===== src/Metadata/Setup.antt =====
-- `getUserLutAddressAndSetupIxns` and `getDedupUserLookupTableAddresses` of src/utils/userMetadata.ts.
pub mod Laws
use klend_sdk.Prelude.{
  ℕ, List, [], ◌∷◌, ◌++◌, Bool, true, false, Option, none, some, if◌then◌else◌, map, filter, not,
}
use klend_sdk.Prelude.Outcome.{Outcome, ok, error, ◌>>=◌, or_throw}
use klend_sdk.Pubkey.Keys.{PublicKeys, includes}
use klend_sdk.Pubkey.Set
use klend_sdk.Action.Interfaces.{Web3}
use klend_sdk.Action.Data.{KaminoMarket}
use klend_sdk.Action.Keys.{user_metadata_pda}
use klend_sdk.Metadata.Tables.{
  TableIx, init_user_metadata, payer_or, create_lookup_table_ix, extend_lookup_table_ixs,
}
use klend_sdk.Metadata.Addresses.{MintPair, RepaidObligation, get_user_lookup_table_addresses}

-- What is read from the chain.
pub record Chain (K : Type 0) : Type 0 where
  -- The lookup table that a user's metadata account names, if there is one.
  pub user_lookup_table : K → Option K
  -- The addresses of a lookup table, if there is one.
  pub table_addresses : K → Option (List K)

abbrev pub is_some : {K : Type 0} → Option K → Bool
is_some none = false
is_some (some k) = true

module _ {K D : Type 0} ⦃p : PublicKeys K⦄ ⦃w : Web3 K⦄ where
  unfoldable pub get_dedup_user_lookup_table_addresses :
      Chain K
      → KaminoMarket K D
      → K
      → K
      → K
      → List (MintPair K)
      → List (MintPair K)
      → Bool
      → Option (RepaidObligation K)
      → Outcome (List K)
  get_dedup_user_lookup_table_addresses chain m table user referrer multiply leverage exists
        repaid =
      do
        required ← get_user_lookup_table_addresses m user referrer multiply leverage repaid
        elim exists [
          | true ↦ do
            held ← or_throw (chain.table_addresses table) "Cannot read properties of undefined"
            ok (Set.to_array (Set.of_items (filter (λ k. not (includes held k)) required)))
          | false ↦ ok (Set.to_array (Set.of_items required))
        ]

  -- The table of the user, and the instructions that make it and the metadata account.
  unfoldable pub init_metadata_ixs :
      Chain K → KaminoMarket K D → K → K → K → Option K → K × List (TableIx K)
  unfolding create_lookup_table_ix
  init_metadata_ixs chain m user referrer payer (some table) = (table, [])
  init_metadata_ixs chain m user referrer payer none =
      let (create_ix, table) = create_lookup_table_ix user in
      let referrer_metadata =
        if p.equals referrer p.default
        then m.program_id
        else user_metadata_pda referrer m.program_id in
      (
        table,
        create_ix
            ∷ init_user_metadata table user (payer_or payer user)
                (user_metadata_pda user m.program_id) referrer_metadata m.program_id
            ∷ [],
      )

  -- The table and the transactions: that of the metadata, then one for each extension.
  unfoldable pub get_user_lut_address_and_setup_ixns :
      Chain K
      → KaminoMarket K D
      → K
      → K
      → Bool
      → List (MintPair K)
      → List (MintPair K)
      → Option (RepaidObligation K)
      → K
      → Outcome (K × List (List (TableIx K)))
  unfolding init_metadata_ixs get_dedup_user_lookup_table_addresses
  get_user_lut_address_and_setup_ixns chain m user referrer with_extend_lut multiply leverage repaid
        payer =
      do
        let state = chain.user_lookup_table user
        let (table, init_ixs) = init_metadata_ixs chain m user referrer payer state
        elim with_extend_lut [
          | false ↦ ok (table, init_ixs ∷ [])
          | true ↦ do
            addresses ←
                get_dedup_user_lookup_table_addresses chain m table user referrer multiply leverage
                  (is_some state) repaid
            ok (
              table,
              init_ixs ∷ map (λ ix. ix ∷ []) (extend_lookup_table_ixs user table addresses payer),
            )
        ]
