-- ===== src/Action/Support.antt =====
-- `addSupportIxsWithoutInitObligation`, `addSupportIxs`, `addInBetweenIxs` and `addRefreshObligation` of
-- src/classes/action.ts, step by step as the code composes them.
pub mod Order
pub mod Coverage
use Prim.Native.String.{String}
use klend_sdk.Prelude.{
  ℕ, List, [], ◌∷◌, ◌++◌, Bool, true, false, Option, none, some, if◌then◌else◌, find, any, filter,
  not, ◌&&◌, ◌==◌, map,
}
use klend_sdk.Prelude.Outcome.{Outcome, ok, error, ◌>>=◌, or_throw}
use klend_sdk.Pubkey.HashMap
use klend_sdk.Pubkey.Set
use klend_sdk.Pubkey.Keys.{PublicKeys, includes}
use klend_sdk.Action.Interfaces.{Web3, Decimals}
use klend_sdk.Action.Data.{
  KaminoReserve, KaminoObligation, ActionType, deposit, borrow, withdraw, repay, mint, redeem,
  deposit_collateral, liquidate, deposit_and_borrow, repay_and_withdraw, refresh_obligation,
  AuxiliaryIx, setup, in_between, cleanup, collateral, debt, ReserveFarmKind,
}
use klend_sdk.Action.State.{KaminoAction}
use klend_sdk.Action.Refresh.{
  get_reserve_by_address, add_refresh_reserve_ixs, add_refresh_obligation_ix,
  add_request_elevation_ix, add_refresh_farms_for_reserve, reserves_of,
}
use klend_sdk.Action.Init.{
  add_init_obligation_for_farm, add_init_obligation_ixs, add_init_user_metadata_ixs,
  add_init_referrer_token_state_ixs,
}
use klend_sdk.Action.Ata.{add_ata_ixs}
use klend_sdk.Action.Elevation.{choose_elevation_group}
use klend_sdk.Action.Positions.{
  preload, current_reserves, add_init_obligation_for_farms, add_farm_refreshes, reserves_excluding,
  addresses,
}
use klend_sdk.Action.Requests.{request_elevation}

-- The actions that work on an obligation.
abbrev pub needs_obligation : ActionType → Bool
needs_obligation deposit_collateral = true
needs_obligation deposit = true
needs_obligation withdraw = true
needs_obligation borrow = true
needs_obligation liquidate = true
needs_obligation repay = true
needs_obligation deposit_and_borrow = true
needs_obligation repay_and_withdraw = true
needs_obligation refresh_obligation = true
needs_obligation _ = false

-- A repayment that closes a position leaves its borrows out of the refresh between the two steps.
abbrev pub skips_borrows : ActionType → AuxiliaryIx → Bool → Bool
skips_borrows repay_and_withdraw in_between is_closing_position = is_closing_position
skips_borrows _ phase is_closing_position = false

module _ {K : Type 0} ⦃w : Web3 K⦄ where
  abbrev pub has_metadata : K → Bool
  has_metadata owner = elim (w.user_metadata owner) [ some m ↦ true | none ↦ false ]

module _ {K D : Type 0} ⦃p : PublicKeys K⦄ ⦃w : Web3 K⦄ ⦃d : Decimals D⦄ where
  -- The instructions up to the refresh of the obligation.
  unfoldable pub refresh_positions :
      ActionType
      → AuxiliaryIx
      → Bool
      → Bool
      → List K
      → List K
      → KaminoAction K D
      → Outcome (KaminoAction K D)
  unfolding add_init_obligation_for_farms
  refresh_positions action phase init_farms skip_borrows excluded current a = do
    refreshed ← add_refresh_reserve_ixs excluded phase a
    farmed ←
        (if init_farms then add_init_obligation_for_farms action phase refreshed else ok refreshed)
    both ← add_refresh_reserve_ixs current phase farmed
    ok (add_refresh_obligation_ix phase skip_borrows both)

  unfoldable pub add_support_ixs_without_init_obligation :
      ActionType
      → Bool
      → AuxiliaryIx
      → Bool
      → Bool
      → Bool
      → Bool
      → Option ℕ
      → KaminoAction K D
      → Outcome (KaminoAction K D)
  unfolding preload current_reserves reserves_excluding refresh_positions request_elevation
      add_farm_refreshes
  add_support_ixs_without_init_obligation action include_atas phase request_group_flag init_farms
        is_closing_position two_token_action override a =
      do
        with_atas ← (if include_atas then add_ata_ixs action a else ok a)
        if needs_obligation action
            then (do
              reserves ← current_reserves action with_atas
              loaded ← preload action with_atas
              let current = Set.to_array (Set.of_items (addresses reserves))
              let excluded = reserves_excluding (addresses reserves) loaded
              refreshed ←
                  refresh_positions action phase init_farms
                    (skips_borrows action phase is_closing_position) excluded current loaded
              requested ←
                  (if request_group_flag
                    then request_elevation action override excluded current refreshed
                    else ok refreshed)
              add_farm_refreshes action phase reserves two_token_action requested)
            else ok with_atas

  -- The metadata account of an owner who has none.
  abbrev pub add_missing_metadata : Bool → KaminoAction K D → KaminoAction K D
  add_missing_metadata include_metadata a =
      if include_metadata && not (has_metadata a.owner) then add_init_user_metadata_ixs a else a

  -- The accounts of the owner's obligation. `mint` and `redeem` need none.
  abbrev pub add_init_ixs : ActionType → Bool → KaminoAction K D → KaminoAction K D
  add_init_ixs mint include_metadata a = a
  add_init_ixs redeem include_metadata a = a
  add_init_ixs _ include_metadata a =
      add_init_obligation_ixs
        (add_init_referrer_token_state_ixs (add_missing_metadata include_metadata a))

  -- `addSupportIxs`.
  unfoldable pub add_support_ixs :
      ActionType
      → Bool
      → Bool
      → Bool
      → Bool
      → Bool
      → Option ℕ
      → KaminoAction K D
      → Outcome (KaminoAction K D)
  unfolding add_init_user_metadata_ixs add_init_referrer_token_state_ixs add_init_obligation_ixs
  add_support_ixs action include_atas request_group_flag include_metadata init_farms
        two_token_action override a =
      add_support_ixs_without_init_obligation action include_atas setup request_group_flag
        init_farms false two_token_action override (add_init_ixs action include_metadata a)

  -- `addInBetweenIxs`.
  unfoldable pub add_in_between_ixs :
      ActionType → Bool → Bool → Bool → Bool → KaminoAction K D → Outcome (KaminoAction K D)
  add_in_between_ixs action include_atas request_group_flag init_farms is_closing_position a =
      add_support_ixs_without_init_obligation action include_atas in_between request_group_flag
        init_farms is_closing_position false none a

  -- `addRefreshObligation`.
  unfoldable pub add_refresh_obligation : K → KaminoAction K D → Outcome (KaminoAction K D)
  unfolding Set.of_items Set.to_array
  add_refresh_obligation crank a = do
    refreshed ←
        add_refresh_reserve_ixs
          (Set.to_array (Set.of_items (a.deposit_reserves ++ a.borrow_reserves))) setup a
    deposited ← reserves_of a.kamino_market a.deposit_reserves
    let collected = add_refresh_farms_for_reserve deposited setup collateral crank false refreshed
    borrowed ← reserves_of a.kamino_market a.borrow_reserves
    let owed = add_refresh_farms_for_reserve borrowed setup debt crank false collected
    ok (add_refresh_obligation_ix setup false owed)
