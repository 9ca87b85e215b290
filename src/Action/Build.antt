-- ===== src/Action/Build.antt =====
-- The static functions `build..Txns` of src/classes/action.ts. The arguments that the code gives defaults for
-- are given here.
pub mod Ensures
pub mod Lending
pub mod Counts
pub mod Builders
pub mod Collateral
pub mod Sending
use Prim.Native.String.{String}
use klend_sdk.Prelude.{
  ℕ, List, [], ◌∷◌, ◌++◌, Bool, true, false, Option, none, some, if◌then◌else◌, ltb, length, ◌&&◌,
  find, not, inl,
}
use klend_sdk.Prelude.Outcome.{Outcome, ok, ◌>>=◌, or_throw}
use klend_sdk.Pubkey.Set
use klend_sdk.Pubkey.Keys.{PublicKeys}
use klend_sdk.Action.Interfaces.{Web3, Decimals}
use klend_sdk.Action.Data.{
  KaminoMarket, KaminoObligation, ActionType, deposit, borrow, withdraw, repay, mint, redeem,
  deposit_collateral, liquidate, deposit_and_borrow, repay_and_withdraw, refresh_obligation, setup,
}
use klend_sdk.Action.State.{KaminoAction}
use klend_sdk.Action.Refresh.{
  add_refresh_farms_cleanup_txn_ixs_to_cleanup_ixs, add_request_elevation_ix,
  get_reserve_by_address,
}
use klend_sdk.Action.Init.{
  add_compute_budget_ixn, get_token_ids_for_scope_refresh, add_scope_refresh_ixs,
}
use klend_sdk.Action.Lending.{
  add_deposit_ix, add_deposit_reserve_liquidity_ix, add_redeem_reserve_collateral_ix,
  add_deposit_obligation_collateral_ix, add_borrow_ix, add_deposit_and_borrow_ix, add_repay_ix,
  add_withdraw_ix, add_repay_and_withdraw_ixs, add_liquidate_ix,
}
use klend_sdk.Action.Support.{add_support_ixs, add_in_between_ixs, add_refresh_obligation}
use klend_sdk.Action.Initialize.{ObligationArg, initialize, initialize_multi_token_action}

pub record ScopeRefresh : Type 0 where
  pub include_scope_refresh : Bool
  pub scope_feed : String

-- The arguments that all builders share.
pub record BuildOptions (K : Type 0) : Type 0 where
  pub extra_compute_budget : ℕ
  pub include_ata_ixns : Bool
  pub request_elevation_group : Bool
  pub include_user_metadata : Bool
  pub referrer : K
  pub current_slot : ℕ
  pub scope_refresh : ScopeRefresh

module _ {K D : Type 0} ⦃p : PublicKeys K⦄ ⦃w : Web3 K⦄ where
  abbrev pub budgeted : BuildOptions K → KaminoAction K D → KaminoAction K D
  budgeted opts a =
      if ltb 0 opts.extra_compute_budget
      then add_compute_budget_ixn opts.extra_compute_budget a
      else a

  -- `allReserves`.
  unfoldable pub all_reserves : KaminoAction K D → List K
  unfolding Set.of_items Set.to_array
  all_reserves a =
      let outflow : List K = elim a.outflow_reserve [ none ↦ [] | some out ↦ out.address ∷ [] ] in
      Set.to_array
        (Set.of_items (a.deposit_reserves ++ (a.borrow_reserves ++ (a.reserve.address ∷ outflow))))

  abbrev pub with_prices : BuildOptions K → List ℕ → KaminoAction K D → KaminoAction K D
  with_prices opts ids a =
      if ltb 0 (length ids) && opts.scope_refresh.include_scope_refresh
      then add_scope_refresh_ixs ids opts.scope_refresh.scope_feed a
      else a

  -- What every builder does first: the compute budget, then the refresh of the oracle's prices.
  unfoldable pub prepare : BuildOptions K → KaminoAction K D → Outcome (KaminoAction K D)
  unfolding all_reserves get_token_ids_for_scope_refresh add_compute_budget_ixn
      add_scope_refresh_ixs
  prepare opts a = do
    ids ← get_token_ids_for_scope_refresh a.kamino_market (all_reserves a)
    ok (with_prices opts ids (budgeted opts a))

  module _ ⦃d : Decimals D⦄ where
    -- The support instructions of a one-token action.
    abbrev pub supported :
        ActionType → BuildOptions K → Option ℕ → KaminoAction K D → Outcome (KaminoAction K D)
    supported action opts override a = do
      b ← prepare opts a
      add_support_ixs action opts.include_ata_ixns opts.request_elevation_group
          opts.include_user_metadata true false override b

    abbrev pub started :
        (K → Option (KaminoObligation K D))
        → KaminoMarket K D
        → ActionType
        → ℕ
        → K
        → K
        → ObligationArg K D
        → K
        → BuildOptions K
        → Option ℕ
        → Outcome (KaminoAction K D)
    started load m action amount mint_key owner arg payer opts override = do
      a ← initialize load action amount mint_key owner m arg opts.referrer opts.current_slot payer
      supported action opts override a

  module _ ⦃d : Decimals D⦄ (load : K → Option (KaminoObligation K D)) (m : KaminoMarket K D) where
    unfoldable pub build_deposit_txns :
        ℕ → K → K → ObligationArg K D → BuildOptions K → Option ℕ → Outcome (KaminoAction K D)
    unfolding initialize prepare add_deposit_ix
    build_deposit_txns amount mint_key owner arg opts override = do
      a ← started load m deposit amount mint_key owner arg owner opts override
      ok (add_refresh_farms_cleanup_txn_ixs_to_cleanup_ixs (add_deposit_ix a))

    unfoldable pub build_borrow_txns :
        ℕ → K → K → ObligationArg K D → BuildOptions K → Option ℕ → Outcome (KaminoAction K D)
    unfolding initialize prepare add_borrow_ix
    build_borrow_txns amount mint_key owner arg opts override = do
      a ← started load m borrow amount mint_key owner arg owner opts override
      b ← add_borrow_ix a
      ok (add_refresh_farms_cleanup_txn_ixs_to_cleanup_ixs b)

    unfoldable pub build_deposit_reserve_liquidity_txns :
        ℕ → K → K → ObligationArg K D → BuildOptions K → Outcome (KaminoAction K D)
    unfolding initialize prepare add_deposit_reserve_liquidity_ix
    build_deposit_reserve_liquidity_txns amount mint_key owner arg opts = do
      a ← started load m mint amount mint_key owner arg owner opts none
      ok (add_refresh_farms_cleanup_txn_ixs_to_cleanup_ixs (add_deposit_reserve_liquidity_ix a))

    unfoldable pub build_redeem_reserve_collateral_txns :
        ℕ → K → K → ObligationArg K D → BuildOptions K → Outcome (KaminoAction K D)
    unfolding initialize prepare add_redeem_reserve_collateral_ix
    build_redeem_reserve_collateral_txns amount mint_key owner arg opts = do
      a ← started load m redeem amount mint_key owner arg owner opts none
      ok (add_refresh_farms_cleanup_txn_ixs_to_cleanup_ixs (add_redeem_reserve_collateral_ix a))

    unfoldable pub build_deposit_obligation_collateral_txns :
        ℕ → K → K → ObligationArg K D → BuildOptions K → Outcome (KaminoAction K D)
    unfolding initialize prepare add_deposit_obligation_collateral_ix
    build_deposit_obligation_collateral_txns amount mint_key owner arg opts = do
      a ← started load m deposit_collateral amount mint_key owner arg owner opts none
      ok (add_refresh_farms_cleanup_txn_ixs_to_cleanup_ixs (add_deposit_obligation_collateral_ix a))

    unfoldable pub build_withdraw_txns :
        ℕ → K → K → ObligationArg K D → BuildOptions K → Outcome (KaminoAction K D)
    unfolding initialize prepare add_withdraw_ix
    build_withdraw_txns amount mint_key owner arg opts = do
      a ← started load m withdraw amount mint_key owner arg owner opts none
      ok (add_refresh_farms_cleanup_txn_ixs_to_cleanup_ixs (add_withdraw_ix a))

    unfoldable pub build_repay_txns :
        ℕ → K → K → ObligationArg K D → K → BuildOptions K → Outcome (KaminoAction K D)
    unfolding initialize prepare add_repay_ix
    build_repay_txns amount mint_key owner arg payer opts = do
      a ← started load m repay amount mint_key owner arg payer opts none
      b ← add_repay_ix a
      ok (add_refresh_farms_cleanup_txn_ixs_to_cleanup_ixs b)

    unfoldable pub build_liquidate_txns :
        ℕ → ℕ → K → K → K → K → ObligationArg K D → ℕ → BuildOptions K → Outcome (KaminoAction K D)
    unfolding initialize_multi_token_action prepare add_liquidate_ix
    build_liquidate_txns amount min_received repay_mint withdraw_mint liquidator obligation_owner
          arg max_ltv opts =
        do
          a ←
              initialize_multi_token_action load m liquidate amount repay_mint withdraw_mint
                liquidator obligation_owner arg (some min_received) opts.referrer opts.current_slot
          b ← supported liquidate opts none a
          c ← add_liquidate_ix max_ltv b
          ok (add_refresh_farms_cleanup_txn_ixs_to_cleanup_ixs c)

    unfoldable pub build_deposit_and_borrow_txns :
        ℕ → K → ℕ → K → K → ObligationArg K D → BuildOptions K → Outcome (KaminoAction K D)
    unfolding initialize_multi_token_action prepare add_deposit_and_borrow_ix
    build_deposit_and_borrow_txns deposit_amount deposit_mint borrow_amount borrow_mint payer arg
          opts =
        do
          a ←
              initialize_multi_token_action load m deposit_and_borrow deposit_amount deposit_mint
                borrow_mint payer payer arg (some borrow_amount) opts.referrer opts.current_slot
          b ← prepare opts a
          c ←
              add_support_ixs deposit opts.include_ata_ixns opts.request_elevation_group
                opts.include_user_metadata true true none b
          e ← add_deposit_and_borrow_ix c
          f ←
              add_in_between_ixs deposit_and_borrow opts.include_ata_ixns
                opts.request_elevation_group false false e
          ok (add_refresh_farms_cleanup_txn_ixs_to_cleanup_ixs f)

    unfoldable pub build_repay_and_withdraw_txns :
        ℕ → K → ℕ → K → K → ObligationArg K D → Bool → BuildOptions K → Outcome (KaminoAction K D)
    unfolding initialize_multi_token_action prepare add_repay_and_withdraw_ixs
    build_repay_and_withdraw_txns repay_amount repay_mint withdraw_amount withdraw_mint payer arg
          is_closing_position opts =
        do
          a ←
              initialize_multi_token_action load m repay_and_withdraw repay_amount repay_mint
                withdraw_mint payer payer arg (some withdraw_amount) opts.referrer opts.current_slot
          b ← prepare opts a
          c ←
              add_support_ixs repay opts.include_ata_ixns opts.request_elevation_group
                opts.include_user_metadata true true none b
          e ← add_repay_and_withdraw_ixs c
          f ←
              add_in_between_ixs repay_and_withdraw opts.include_ata_ixns
                opts.request_elevation_group false is_closing_position e
          ok (add_refresh_farms_cleanup_txn_ixs_to_cleanup_ixs f)

    -- The action for the first reserve in `state.deposits` that `first` picks.
    abbrev placeholder_action :
        ActionType → KaminoObligation K D → K → ℕ → ℕ → Outcome (KaminoAction K D)
    placeholder_action action o first budget slot = do
      r ← or_throw (get_reserve_by_address m first) "Reserve not found"
      a ← initialize load action 0 r.liquidity_mint o.owner m (inl o) p.default slot o.owner
      ok (if ltb 0 budget then add_compute_budget_ixn budget a else a)

    unfoldable pub build_refresh_obligation_txns :
        K → KaminoObligation K D → ℕ → ℕ → Outcome (KaminoAction K D)
    unfolding initialize get_reserve_by_address add_compute_budget_ixn
    build_refresh_obligation_txns payer o budget slot = do
      first ← or_throw (find (λ r. true) o.state_deposits) "TypeError"
      a ← placeholder_action refresh_obligation o first budget slot
      add_refresh_obligation payer a

    unfoldable pub build_request_elevation_group_txns :
        K → KaminoObligation K D → ℕ → ℕ → ℕ → Outcome (KaminoAction K D)
    unfolding initialize get_reserve_by_address add_compute_budget_ixn
    build_request_elevation_group_txns payer o group budget slot = do
      first ← or_throw (find (λ r. not (p.equals r p.default)) o.state_deposits) "TypeError"
      a ← placeholder_action ActionType.request_elevation_group o first budget slot
      b ← add_refresh_obligation payer a
      add_request_elevation_ix group setup false b
