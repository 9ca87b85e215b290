-- ===== src/Examples/Actions.antt =====
-- Actions of src/classes/action.ts on the small market.
use klend_sdk.Prelude.{
  ℕ, [], ◌∷◌, true, false, none, some, ◌≡◌, ◌≤◌, ◌<◌, arith, refl, inl, if◌then◌else◌,
}
use klend_sdk.Prelude.Outcome.{Outcome, ok, error}
use klend_sdk.Pubkey.Keys.{numbered_keys, includes, Distinct}
use klend_sdk.Pubkey.Set
use klend_sdk.Pubkey.HashMap
use klend_sdk.Action.Data.{setup, debt, borrow, withdraw}
use klend_sdk.Action.State.{KaminoAction}
use klend_sdk.Action.Keys.{get_additional_deposit_reserves_list}
use klend_sdk.Action.Keys.Loading
use klend_sdk.Action.Refresh.{add_refresh_reserve_ixs, add_refresh_farms_for_reserve}
use klend_sdk.Action.Refresh.Reserves.{refreshed_in}
use klend_sdk.Action.Refresh.Farms
use klend_sdk.Action.Refresh.Farms.{gain, farm_refreshes}
use klend_sdk.Action.Elevation.{choose_elevation_group}
use klend_sdk.Action.Elevation.Choice
use klend_sdk.Action.Elevation.Choice.{IsBestCommon}
use klend_sdk.Action.Initialize.{load_obligation, found_obligation}
use klend_sdk.Action.Initialize.Limits
use klend_sdk.Action.Initialize.Limits.{
  IsListOf, is_counted_borrow, is_counted_deposit, deposit_keys, borrow_keys,
}
use klend_sdk.Action.Positions.{reserves_excluding}
use klend_sdk.Action.Support.{refresh_positions}
use klend_sdk.Action.Support.Order
use klend_sdk.Action.Support.Coverage
use klend_sdk.Action.Frame.{Returns}
use klend_sdk.Action.Frame.Whole
use klend_sdk.Action.Support.{add_support_ixs}
use klend_sdk.Examples.Market.{
  number_web3, whole_decimals, small_market, small_action, small_obligation, some_groups,
  usdc_reserve, sol_reserve,
}

-- What a computation returns, or a default.
abbrev returned : {A : Type 0} → Outcome A → A → A
returned (ok a) b = a
returned (error e) b = b

-- A withdrawal from the first reserve.
abbrev refreshed_action : KaminoAction ℕ ℕ
refreshed_action =
    returned (refresh_positions withdraw setup true false (102 ∷ []) (101 ∷ []) small_action)
      small_action

refreshed_action-ok :
    refresh_positions withdraw setup true false (102 ∷ []) (101 ∷ []) small_action
    ≡ ok refreshed_action
unfolding refresh_positions add_refresh_reserve_ixs HashMap.get HashMap.of_entries HashMap.set
refreshed_action-ok = refl

refreshed_in-refresh_positions_example : refreshed_in setup refreshed_action ≡ 102 ∷ 101 ∷ []
refreshed_in-refresh_positions_example =
    Order.refreshed_in-refresh_positions withdraw setup true false (102 ∷ []) (101 ∷ [])
      small_action refreshed_action refreshed_action-ok

abbrev covered_action : KaminoAction ℕ ℕ
covered_action =
    returned
      (refresh_positions withdraw setup true false (reserves_excluding (101 ∷ []) small_action)
        (Set.to_array (Set.of_items (101 ∷ []))) small_action)
      small_action

covered_action-ok :
    refresh_positions withdraw setup true false
      (reserves_excluding (101 ∷ []) small_action)
      (Set.to_array (Set.of_items (101 ∷ [])))
      small_action
    ≡ ok covered_action
unfolding refresh_positions reserves_excluding add_refresh_reserve_ixs Set.add HashMap.get
    HashMap.of_entries HashMap.set
covered_action-ok = refl

refresh_positions-covers_example : includes (refreshed_in setup covered_action) 102 ≡ true
refresh_positions-covers_example =
    Coverage.refresh_positions-covers withdraw setup true false (101 ∷ []) small_action
      covered_action covered_action-ok 102 refl

chosen-ok :
    choose_elevation_group some_groups (1 ∷ 2 ∷ 3 ∷ []) (2 ∷ 3 ∷ []) 102 (some 0) ≡ ok (some 3)
unfolding choose_elevation_group
chosen-ok = refl

choose_elevation_group-lem_example :
    IsBestCommon some_groups (1 ∷ 2 ∷ 3 ∷ []) (2 ∷ 3 ∷ []) 102 (some 0) 3
choose_elevation_group-lem_example =
    Choice.choose_elevation_group-lem some_groups (1 ∷ 2 ∷ 3 ∷ []) (2 ∷ 3 ∷ []) 102 (some 0) 3
      chosen-ok

-- The borrow counts the first reserve beside the second, which is owed.
counted_borrows : IsListOf (102 ∷ 101 ∷ []) (is_counted_borrow borrow 101 (some small_obligation))
unfolding HashMap.keys HashMap.of_entries HashMap.set
counted_borrows = ((refl, (refl, tt)), λ k. ground arith)

counted_deposits : IsListOf (101 ∷ []) (is_counted_deposit borrow 101 none (some small_obligation))
unfolding HashMap.keys HashMap.of_entries HashMap.set
counted_deposits = ((refl, tt), λ k. refl)

load_obligation_lem_example :
    (3 ≤ 10
      → load_obligation (λ k. none) borrow small_market 61 101 (inl small_obligation) none
        ≡ ok (record {
          kamino_obligation = some small_obligation;
          deposit_reserves = deposit_keys (some small_obligation);
          borrow_reserves = borrow_keys (some small_obligation);
          distinct_reserve_count = 3;
        }))
    × (10 < 3
        → load_obligation (λ k. none) borrow small_market 61 101 (inl small_obligation) none
          ≡ error "Obligation already has max number of positions")
unfolding found_obligation
load_obligation_lem_example =
    Limits.load_obligation_lem (λ k. none) borrow small_market 61 101 (inl small_obligation) none
      (102 ∷ 101 ∷ []) (101 ∷ []) tt counted_borrows counted_deposits

add_refresh_farms_for_reserve-lem_example :
    add_refresh_farms_for_reserve (usdc_reserve ∷ sol_reserve ∷ []) setup debt 61 false small_action
    ≡ gain false
        (farm_refreshes (usdc_reserve ∷ sol_reserve ∷ []) debt 61 small_action)
        small_action
add_refresh_farms_for_reserve-lem_example =
    Farms.add_refresh_farms_for_reserve-lem (usdc_reserve ∷ sol_reserve ∷ []) debt 61 false
      small_action

abbrev preloaded_action : KaminoAction ℕ ℕ
preloaded_action = record small_action { pre_loaded_deposit_reserves_same_tx = 102 ∷ 101 ∷ [] }

get_additional_deposit_reserves_list-lem_example :
    ((k : ℕ)
      → includes (get_additional_deposit_reserves_list preloaded_action).deposit_reserves k
        ≡ (if includes (101 ∷ []) k then true else includes (102 ∷ 101 ∷ []) k))
    × (Distinct preloaded_action.deposit_reserves
        → Distinct (get_additional_deposit_reserves_list preloaded_action).deposit_reserves)
    × (get_additional_deposit_reserves_list (get_additional_deposit_reserves_list preloaded_action)
        ≡ get_additional_deposit_reserves_list preloaded_action)
get_additional_deposit_reserves_list-lem_example =
    Loading.get_additional_deposit_reserves_list-lem preloaded_action

add_support_ixs-Returns_example :
    Returns small_action (add_support_ixs withdraw true false true true false none small_action)
add_support_ixs-Returns_example =
    Whole.add_support_ixs-Returns withdraw true false true true false none small_action
