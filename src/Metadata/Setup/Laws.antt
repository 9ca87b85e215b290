-- ===== src/Metadata/Setup/Laws.antt =====
-- What the setup of a user's lookup table of src/utils/userMetadata.ts leaves in it.
use mathlib.Core.Path.{subst}
use klend_sdk.Prelude.{
  Option-cases, drop, ◌≡◌, refl, sym, ap, ◌∙◌, List, [], ◌∷◌, ◌++◌, true, false, Option, none, some,
  map, filter, not, inl, inr, arith, All, append-nil,
}
use klend_sdk.Prelude.Outcome.{ok, error, >>=-eq-ok, ok-injective}
use klend_sdk.Pubkey.Keys.{PublicKeys, includes, includes-append, includes-filter, Distinct}
use klend_sdk.Pubkey.Set
use klend_sdk.Pubkey.Set.{to_array-of_items}
use klend_sdk.Action.Interfaces.{Web3}
use klend_sdk.Action.Data.{KaminoMarket}
use klend_sdk.Metadata.Tables.{TableIx, extend_lookup_table_ixs, create_lookup_table_ix}
use klend_sdk.Metadata.Tables.Laws.{added, all_added, IsChunk, extend_lookup_table_ixs_lem}
use klend_sdk.Metadata.Addresses.{MintPair, RepaidObligation, get_user_lookup_table_addresses}
use klend_sdk.Metadata.Setup.{
  Chain, is_some, get_dedup_user_lookup_table_addresses, init_metadata_ixs,
  get_user_lut_address_and_setup_ixns,
}

abbrev pub or_empty : {K : Type 0} → Option (List K) → List K
or_empty none = []
or_empty (some held) = held

-- What the table of a user holds before the setup.
abbrev pub held_before : {K : Type 0} → Chain K → Option K → List K
held_before chain none = []
held_before chain (some table) = or_empty (chain.table_addresses table)

-- What transactions add to tables.
abbrev pub added_by : {K : Type 0} → List (List (TableIx K)) → List K
added_by [] = []
added_by (tx ∷ txs) = all_added tx ++ added_by txs

-- The transactions complete a table: with what it holds it then has every required address, and they add
-- required addresses alone, each once, and none that it holds.
pub record Completes {K : Type 0} ⦃p : PublicKeys K⦄ (held required added : List K) : Type 0 where
  pub complete : (k : K) → includes required k ≡ true → includes (held ++ added) k ≡ true
  pub needed :
      (k : K) → includes added k ≡ true → (includes required k ≡ true) × (includes held k ≡ false)
  pub distinct : Distinct added

module _ {K : Type 0} ⦃p : PublicKeys K⦄ where
  module _ (held required added : List K) (k : K)
      (same : includes added k ≡ includes (filter (λ k. not (includes held k)) required) k) where
    completes_one : includes required k ≡ true → includes (held ++ added) k ≡ true
    completes_one h = ground (
      arith,
      includes-append held added k,
      includes-filter (λ k. not (includes held k)) required k,
    )

    needs_one : includes added k ≡ true → (includes required k ≡ true) × (includes held k ≡ false)
    needs_one h = ground (arith, includes-filter (λ k. not (includes held k)) required k)

  -- The set of the required addresses that a table lacks completes it.
  missing-Completes :
      (held required : List K)
      → Completes held required
          (Set.to_array (Set.of_items (filter (λ k. not (includes held k)) required)))
  missing-Completes held required =
      let missing = filter (λ (k : K). not (includes held k)) required in
      let (same, distinct, shorter) = to_array-of_items missing in
      record {
        complete =
            λ k h. completes_one held required (Set.to_array (Set.of_items missing)) k (same k) h;
        needed = λ k h. needs_one held required (Set.to_array (Set.of_items missing)) k (same k) h;
        distinct = distinct;
      }

  whole-Completes :
      (required : List K) → Completes [] required (Set.to_array (Set.of_items required))
  whole-Completes required =
      let (same, distinct, shorter) = to_array-of_items required in
      record {
        complete = λ k h. same k ∙ h;
        needed = λ k h. (sym (same k) ∙ h, refl);
        distinct = distinct;
      }

module _ {K D : Type 0} ⦃p : PublicKeys K⦄ ⦃w : Web3 K⦄ (chain : Chain K) (m : KaminoMarket K D)
    (user referrer payer : K) where
  init_metadata_ixs_add_none :
      (state : Option K) → all_added (init_metadata_ixs chain m user referrer payer state).1 ≡ []
  unfolding init_metadata_ixs create_lookup_table_ix
  init_metadata_ixs_add_none none = refl
  init_metadata_ixs_add_none (some table) = refl

  single-chunks :
      (table : K) (ixs : List (TableIx K))
      → All (IsChunk table) ixs
      → All (All (IsChunk table)) (map (λ ix. ix ∷ []) ixs)
  single-chunks table [] h = tt
  single-chunks table (ix ∷ ixs) (h, hs) = ((h, tt), single-chunks table ixs hs)

  -- Each extension is a transaction of its own.
  added_by_single : (ixs : List (TableIx K)) → added_by (map (λ ix. ix ∷ []) ixs) ≡ all_added ixs
  added_by_single [] = refl
  added_by_single (ix ∷ ixs) =
      rw (append-nil (added ix)) (ap (λ ks. added ix ++ ks) (added_by_single ixs))

  module _ (multiply leverage : List (MintPair K)) (repaid : Option (RepaidObligation K))
      (required : List K)
      (r : get_user_lookup_table_addresses m user referrer multiply leverage repaid
        ≡ ok required) where
    dedup-Completes :
        (state : Option K) (addresses : List K)
        → get_dedup_user_lookup_table_addresses chain m
            (init_metadata_ixs chain m user referrer payer state).0
            user
            referrer
            multiply
            leverage
            (is_some state)
            repaid
          ≡ ok addresses
        → Completes (held_before chain state) required addresses
    unfolding get_dedup_user_lookup_table_addresses init_metadata_ixs
    dedup-Completes none addresses h =
        let returned : ok (Set.to_array (Set.of_items required)) ≡ ok addresses = rw r at h in
        subst (Completes [] required) (ok-injective _ _ returned) (whole-Completes required)
    dedup-Completes (some own) addresses h = elim (Option-cases (chain.table_addresses own)) [
      | inl missing ↦
          let thrown : error "Cannot read properties of undefined" ≡ ok addresses =
            rw (r, missing) at h in
          cc thrown
      | inr (held, found) ↦
          let lacking =
            Set.to_array (Set.of_items (filter (λ (k : K). not (includes held k)) required)) in
          let returned : ok lacking ≡ ok addresses = rw (r, found) at h in
          rw found (
            subst (Completes held required) (ok-injective _ _ returned)
              (missing-Completes held required))
    ]

    -- If the required addresses are computed and the setup of a user's lookup table with its extension
    -- returns, then the table has every required address after the transactions; they add required
    -- addresses alone, each once, and none that the table held; and every transaction behind the first
    -- extends this table by 1 to 25 addresses.
    pub get_user_lut_address_and_setup_ixns-Completes :
        (table : K) (txs : List (List (TableIx K)))
        → get_user_lut_address_and_setup_ixns chain m user referrer true multiply leverage repaid
            payer
          ≡ ok (table, txs)
        → Completes (held_before chain (chain.user_lookup_table user)) required (added_by txs)
          × All (All (IsChunk table)) (drop 1 txs)
    unfolding get_user_lut_address_and_setup_ixns
    get_user_lut_address_and_setup_ixns-Completes table txs h =
        let state = chain.user_lookup_table user in
        let start = init_metadata_ixs chain m user referrer payer state in
        let (addresses, e, done) =
          >>=-eq-ok
            (get_dedup_user_lookup_table_addresses chain m start.0 user referrer multiply leverage
              (is_some state) repaid)
            _ h in
        let ixs = extend_lookup_table_ixs user start.0 addresses payer in
        let pair : (start.0, start.1 ∷ map (λ (ix : TableIx K). ix ∷ []) ixs) ≡ (table, txs) =
          ok-injective _ _ done in
        let laws = extend_lookup_table_ixs_lem user start.0 payer addresses in
        let gained : all_added start.1 ++ added_by (map (λ ix. ix ∷ []) ixs) ≡ addresses =
          rw (init_metadata_ixs_add_none state) (added_by_single ixs ∙ laws.0) in
        (
          subst (λ t. Completes (held_before chain state) required (added_by t))
              (ap (λ q. q.1) pair) (rw gained (dedup-Completes state addresses e)),
          subst (λ (q : K × List (List (TableIx K))). All (All (IsChunk q.0)) (drop 1 q.1)) pair
              (single-chunks start.0 ixs laws.1),
        )
