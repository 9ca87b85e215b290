-- ===== src/Action/Init.antt =====
-- The instructions of src/classes/action.ts that make accounts, set the compute budget and refresh prices.
use Prim.Native.String.{String}
use klend_sdk.Prelude.{
  ℕ, List, [], ◌∷◌, ◌++◌, Bool, none, some, if◌then◌else◌, filter, not, ◌&&◌, ◌==◌,
}
use klend_sdk.Prelude.Outcome.{Outcome, ok, ◌>>=◌, or_throw}
use klend_sdk.Pubkey.{is_not_null_pubkey}
use klend_sdk.Pubkey.Set
use klend_sdk.Pubkey.Keys.{PublicKeys}
use klend_sdk.Action.Interfaces.{Web3}
use klend_sdk.Action.Data.{
  KaminoMarket, KaminoReserve, ReserveFarmKind, AuxiliaryIx, setup, in_between, cleanup,
  Instruction, Label, set_compute_unit_limit, refresh_price_list, init_obligation_farms,
  init_obligation, create_lookup_table, init_user_metadata, init_referrer_token_state,
  withdraw_referrer_fees, key, number,
}
use klend_sdk.Action.State.{KaminoAction, push, unshift, push_to, ix, label}
use klend_sdk.Action.Keys.{
  get_obligation_pda, referrer_token_state_pda, user_metadata_pda, farm_user_state_pda,
}
use klend_sdk.Action.Refresh.{get_reserve_by_address, farm_of}

module _ {K D : Type 0} where
  unfoldable pub add_compute_budget_ixn : ℕ → KaminoAction K D → KaminoAction K D
  add_compute_budget_ixn units a =
      push_to setup (ix (set_compute_unit_limit units))
        (label "AddComputeBudget" (number units ∷ [])) a

  unfoldable pub add_scope_refresh_ixs : List ℕ → String → KaminoAction K D → KaminoAction K D
  add_scope_refresh_ixs tokens feed a = record a {
    pre_txn_ixs =
        unshift (ix (refresh_price_list tokens feed)) (label "refreshScopePrices" []) a.pre_txn_ixs;
  }

-- The entries of a chain, less its padding.
abbrev pub used_entries : ℕ → List ℕ → List ℕ
used_entries padding = filter (λ x. not (x == padding))

module _ {K : Type 0} ⦃p : PublicKeys K⦄ ⦃w : Web3 K⦄ where
  -- `tokenStatesToCreate`, each with its reserve.
  abbrev pub token_states_to_create : K → K → List K → List (K × K)
  token_states_to_create referrer program_id [] = []
  token_states_to_create referrer program_id (r ∷ rs) =
      let state = referrer_token_state_pda referrer r program_id in
      let later = token_states_to_create referrer program_id rs in
      if w.account_exists state then later else (state, r) ∷ later

module _ {K D : Type 0} ⦃p : PublicKeys K⦄ ⦃w : Web3 K⦄ where
  unfoldable pub get_token_ids_for_scope_refresh : KaminoMarket K D → List K → Outcome (List ℕ)
  unfolding get_reserve_by_address
  get_token_ids_for_scope_refresh m [] = ok []
  get_token_ids_for_scope_refresh m (reserve_address ∷ rest) = do
    r ← or_throw (get_reserve_by_address m reserve_address) "Reserve not found for reserve"
    ids ← get_token_ids_for_scope_refresh m rest
    ok (
        if p.equals r.scope_price_feed p.default
        then ids
        else used_entries w.u16_max r.scope_price_chain
          ++ (used_entries w.u16_max r.scope_twap_chain ++ ids))

  unfoldable pub init_farm_ix :
      KaminoReserve K D → ReserveFarmKind → KaminoAction K D → Instruction K
  unfolding farm_user_state_pda get_obligation_pda
  init_farm_ix r mode a =
      let pda = get_obligation_pda a in
      let farm = farm_of mode r in
      let owner : K = elim a.obligation [ some o ↦ o.owner | none ↦ a.owner ] in
      ix (
        init_obligation_farms mode owner a.owner pda a.kamino_market.lending_market_authority
          r.address farm (farm_user_state_pda farm pda) a.kamino_market.address
          a.kamino_market.program_id)

  -- The obligation has no state in the reserve's farm, and the reserve has a farm.
  unfoldable pub lacks_farm_state : KaminoReserve K D → ReserveFarmKind → KaminoAction K D → Bool
  unfolding is_not_null_pubkey farm_user_state_pda get_obligation_pda
  lacks_farm_state r mode a =
      let farm = farm_of mode r in
      is_not_null_pubkey farm
      && not (w.account_exists (farm_user_state_pda farm (get_obligation_pda a)))

  abbrev pub init_farm_label : KaminoReserve K D → KaminoAction K D → Label K
  init_farm_label r a =
      label "InitObligationForFarm" (key r.address ∷ key (get_obligation_pda a) ∷ [])

  abbrev pub push_init_farm :
      AuxiliaryIx → Instruction K → Label K → KaminoAction K D → KaminoAction K D
  push_init_farm setup i l a = push_to setup i l a
  push_init_farm in_between i l a = push_to in_between i l a
  push_init_farm cleanup i l a = a

  unfoldable pub add_init_obligation_for_farm :
      KaminoReserve K D → ReserveFarmKind → AuxiliaryIx → KaminoAction K D → KaminoAction K D
  unfolding init_farm_ix lacks_farm_state
  add_init_obligation_for_farm r mode phase a =
      if lacks_farm_state r mode a
      then push_init_farm phase (init_farm_ix r mode a) (init_farm_label r a) a
      else a

  unfoldable pub add_init_obligation_ixs : KaminoAction K D → KaminoAction K D
  unfolding get_obligation_pda user_metadata_pda
  add_init_obligation_ixs a = elim a.obligation [
    | some o ↦ a
    | none ↦
        let pda = get_obligation_pda a in
        let m = a.kamino_market in
        let t = a.obligation_type in
        push_to setup
          (ix (
            init_obligation t.tag t.id a.owner a.payer pda m.address t.seed1 t.seed2
              (user_metadata_pda a.owner m.program_id) m.program_id))
          (label "InitObligation" (key pda ∷ [])) a
  ]

  unfoldable pub add_init_user_metadata_ixs : KaminoAction K D → KaminoAction K D
  unfolding user_metadata_pda
  add_init_user_metadata_ixs a =
      let program_id = a.kamino_market.program_id in
      let table = w.new_lookup_table a.owner in
      let metadata = user_metadata_pda a.owner program_id in
      let referrer_metadata =
        if p.equals a.referrer p.default
        then program_id
        else user_metadata_pda a.referrer program_id in
      push_to setup
        (ix (init_user_metadata table a.owner a.payer metadata referrer_metadata program_id))
        (label "initUserMetadata" (key metadata ∷ []))
        (push_to setup (ix (create_lookup_table a.owner a.owner table))
          (label "createUserLutIx" (key table ∷ [])) a)

  unfoldable pub unshift_token_states : List (K × K) → KaminoAction K D → KaminoAction K D
  unshift_token_states [] a = a
  unshift_token_states ((state, r) ∷ rest) a =
      let m = a.kamino_market in
      unshift_token_states rest (record a {
        setup_ixs =
            unshift
              (ix (init_referrer_token_state a.referrer m.address a.owner r state m.program_id))
              (label "InitReferrerTokenState" (key state ∷ key r ∷ [])) a.setup_ixs;
      })

  -- `tokenStatesToCreate` for the reserves of the action, as no reserves are given.
  unfoldable pub missing_token_states : KaminoAction K D → List (K × K)
  unfolding Set.of_items Set.to_array
  missing_token_states a =
      let outflow : List K = elim a.outflow_reserve [ some r ↦ r.address ∷ [] | none ↦ [] ] in
      let reserves = Set.to_array (Set.of_items (a.reserve.address ∷ outflow)) in
      token_states_to_create a.referrer a.kamino_market.program_id reserves

  unfoldable pub add_init_referrer_token_state_ixs : KaminoAction K D → KaminoAction K D
  unfolding missing_token_states unshift_token_states
  add_init_referrer_token_state_ixs a =
      if p.equals a.referrer p.default then a else unshift_token_states (missing_token_states a) a

  unfoldable pub add_withdraw_referrer_fees_ixs : KaminoAction K D → KaminoAction K D
  unfolding referrer_token_state_pda
  add_withdraw_referrer_fees_ixs a =
      let m = a.kamino_market in
      let r = a.reserve in
      record a {
        lending_ixs =
            push
              (ix (
                withdraw_referrer_fees a.owner m.address r.address r.liquidity_mint
                  (referrer_token_state_pda a.owner r.address m.program_id) r.liquidity_supply_vault
                  a.user_token_account_address m.lending_market_authority r.liquidity_token_program
                  m.program_id))
              (label "WithdrawReferrerFeesIx" (key a.owner ∷ [])) a.lending_ixs;
      }
