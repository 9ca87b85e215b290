-- ===== src/Action/Refresh.antt =====
-- The refresh instructions of src/classes/action.ts: of reserves, of the obligation, of its farms; and
-- the request of an elevation group.
pub mod Reserves
pub mod Farms
use klend_sdk.Prelude.{
  ℕ, List, [], ◌∷◌, ◌++◌, Bool, true, false, Option, none, some, if◌then◌else◌, map, filter, not,
}
use klend_sdk.Prelude.Outcome.{Outcome, ok, error, ◌>>=◌, or_throw}
use klend_sdk.Pubkey.HashMap
use klend_sdk.Pubkey.Keys.{PublicKeys, includes}
use klend_sdk.Action.Interfaces.{Web3}
use klend_sdk.Action.Data.{
  KaminoMarket, KaminoReserve, ReserveFarmKind, collateral, debt, AuxiliaryIx, setup, in_between,
  cleanup, Queue, Call, Instruction, Label, refresh_reserve, refresh_obligation,
  request_elevation_group, refresh_obligation_farms, key, kind, number,
}
use klend_sdk.Action.State.{KaminoAction, push, push_to, push_front, ix, ix_with, label}
use klend_sdk.Action.Keys.{
  optional_account, get_obligation_pda, referrer_token_state_pda, farm_user_state_pda,
  get_additional_deposit_reserves_list,
}

module _ {K D : Type 0} ⦃p : PublicKeys K⦄ ⦃w : Web3 K⦄ where
  unfoldable pub get_reserve_by_address : KaminoMarket K D → K → Option (KaminoReserve K D)
  get_reserve_by_address m address = HashMap.get m.reserves address

  -- The instruction of one round of `addRefreshReserveIxs`.
  unfoldable pub refresh_reserve_ix : KaminoMarket K D → K → KaminoReserve K D → Instruction K
  refresh_reserve_ix m reserve_address state = ix (
      refresh_reserve m.address reserve_address (optional_account state.pyth_price m.program_id)
        (optional_account state.switchboard_price_aggregator m.program_id)
        (optional_account state.switchboard_twap_aggregator m.program_id)
        (optional_account state.scope_price_feed m.program_id) m.program_id)

  unfoldable pub add_refresh_reserve_ixs :
      List K → AuxiliaryIx → KaminoAction K D → Outcome (KaminoAction K D)
  unfolding refresh_reserve_ix get_reserve_by_address
  add_refresh_reserve_ixs [] phase a = ok a
  add_refresh_reserve_ixs (reserve_address ∷ rest) phase a = do
    state ←
        or_throw (get_reserve_by_address a.kamino_market reserve_address)
          "Could not find reserve in reserves"
    add_refresh_reserve_ixs rest phase (
        push_to phase (refresh_reserve_ix a.kamino_market reserve_address state)
          (label "RefreshReserve" (key reserve_address ∷ [])) a)

  -- The borrow reserves that are not repaid in full by the same transaction.
  abbrev pub remaining_borrow_reserves : KaminoAction K D → List K
  remaining_borrow_reserves a =
      filter (λ r. not (includes a.pre_loaded_borrow_reserves_same_tx r)) a.borrow_reserves

  -- `borrowReservesReferrerTokenStates`.
  abbrev pub referrer_token_states : KaminoAction K D → List K
  referrer_token_states a =
      let program_id = a.kamino_market.program_id in
      filter (λ k. not (p.equals k program_id))
        (map
          (λ r.
            if p.equals a.referrer p.default
            then program_id
            else referrer_token_state_pda a.referrer r program_id)
          (remaining_borrow_reserves a))

  -- The keys that the refresh appends, for an action whose additional deposit reserves are loaded.
  abbrev pub position_keys : KaminoAction K D → Bool → List K
  position_keys a skip_borrow_obligations =
      a.deposit_reserves
      ++ (if skip_borrow_obligations
          then []
          else remaining_borrow_reserves a ++ referrer_token_states a)

  unfoldable pub add_refresh_obligation_ix :
      AuxiliaryIx → Bool → KaminoAction K D → KaminoAction K D
  unfolding get_obligation_pda get_additional_deposit_reserves_list
  add_refresh_obligation_ix phase skip_borrow_obligations a =
      let pda = get_obligation_pda a in
      let loaded = get_additional_deposit_reserves_list a in
      push_to phase
        (ix_with (refresh_obligation a.kamino_market.address pda a.kamino_market.program_id)
          (position_keys loaded skip_borrow_obligations))
        (label "RefreshObligation" (key pda ∷ [])) loaded

  -- The same states for the request of a group, which reads each reserve of the market.
  unfoldable pub read_token_states : KaminoAction K D → List K → Outcome (List K)
  unfolding get_reserve_by_address
  read_token_states a [] = ok []
  read_token_states a (r ∷ rest) = do
    state ←
        (if p.equals a.referrer p.default
          then ok a.kamino_market.program_id
          else (or_throw (get_reserve_by_address a.kamino_market r) "TypeError" >>= λ reserve.
              ok (referrer_token_state_pda a.referrer reserve.address a.kamino_market.program_id)))
    states ← read_token_states a rest
    ok (state ∷ states)

  unfoldable pub add_request_elevation_ix :
      ℕ → AuxiliaryIx → Bool → KaminoAction K D → Outcome (KaminoAction K D)
  unfolding get_obligation_pda get_additional_deposit_reserves_list read_token_states
  add_request_elevation_ix group phase skip_borrow_obligations a = do
    let pda = get_obligation_pda a
    let loaded = get_additional_deposit_reserves_list a
    let borrows = remaining_borrow_reserves loaded
    let program_id = a.kamino_market.program_id
    states ← read_token_states loaded borrows
    let token_states = filter (λ k. not (p.equals k program_id)) states
    ok (
        push_to phase
          (ix_with (request_elevation_group group a.owner pda a.kamino_market.address program_id) (
            loaded.deposit_reserves
            ++ (if skip_borrow_obligations then [] else borrows ++ token_states)))
          (label "RequestElevation" (key pda ∷ number group ∷ [])) loaded)

  abbrev pub farm_of : ReserveFarmKind → KaminoReserve K D → K
  farm_of collateral r = r.farm_collateral
  farm_of debt r = r.farm_debt

  unfoldable pub refresh_farm_ix :
      ReserveFarmKind → K → KaminoReserve K D → KaminoAction K D → Instruction K
  unfolding farm_user_state_pda get_obligation_pda
  refresh_farm_ix mode crank r a =
      let pda = get_obligation_pda a in
      let farm = farm_of mode r in
      ix (
        refresh_obligation_farms mode crank pda a.kamino_market.lending_market_authority r.address
          farm (farm_user_state_pda farm pda) a.kamino_market.address a.kamino_market.program_id)

  abbrev pub refresh_farm_label : ReserveFarmKind → KaminoReserve K D → KaminoAction K D → Label K
  refresh_farm_label mode r a =
      label "RefreshFarmForObligation" (kind mode ∷ key r.address ∷ key (get_obligation_pda a) ∷ [])

  -- One round of `farms.forEach`.
  abbrev pub push_farm :
      AuxiliaryIx → Bool → Instruction K → Label K → KaminoAction K D → KaminoAction K D
  push_farm setup two_token_action i l a =
      let b = push_to setup i l a in
      if two_token_action
      then push_to in_between i l b
      else record b { refresh_farms_cleanup_txn_ixs = push i l b.refresh_farms_cleanup_txn_ixs }
  push_farm in_between two_token_action i l a =
      let b = push_to in_between i l a in
      record b { refresh_farms_cleanup_txn_ixs = push i l b.refresh_farms_cleanup_txn_ixs }
  push_farm cleanup two_token_action i l a = a

  unfoldable pub add_refresh_farms_for_reserve :
      List (KaminoReserve K D)
      → AuxiliaryIx
      → ReserveFarmKind
      → K
      → Bool
      → KaminoAction K D
      → KaminoAction K D
  unfolding refresh_farm_ix
  add_refresh_farms_for_reserve [] phase mode crank two_token_action a = a
  add_refresh_farms_for_reserve (r ∷ rest) phase mode crank two_token_action a =
      add_refresh_farms_for_reserve rest phase mode crank two_token_action (
        if p.equals (farm_of mode r) p.default
        then a
        else push_farm phase two_token_action (refresh_farm_ix mode crank r a)
            (refresh_farm_label mode r a) a)

  unfoldable pub add_refresh_farms_cleanup_txn_ixs_to_cleanup_ixs :
      KaminoAction K D → KaminoAction K D
  add_refresh_farms_cleanup_txn_ixs_to_cleanup_ixs a = record a {
    cleanup_ixs = push_front a.refresh_farms_cleanup_txn_ixs a.cleanup_ixs;
  }

  -- `getReserveByAddress(r)!` of each key; an absent reserve throws when it is read.
  unfoldable pub reserves_of : KaminoMarket K D → List K → Outcome (List (KaminoReserve K D))
  unfolding get_reserve_by_address
  reserves_of m [] = ok []
  reserves_of m (k ∷ ks) = do
    r ← or_throw (get_reserve_by_address m k) "TypeError"
    rs ← reserves_of m ks
    ok (r ∷ rs)
