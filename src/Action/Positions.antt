-- ===== src/Action/Positions.antt =====
-- The reserves that an action touches, and the farms of the obligation in them: steps of
-- `addSupportIxsWithoutInitObligation` of src/classes/action.ts.
use klend_sdk.Prelude.{
  Option, List, [], ◌∷◌, ◌++◌, Bool, false, none, some, if◌then◌else◌, find, any, filter, not, map,
}
use klend_sdk.Prelude.Outcome.{Outcome, ok, error, ◌>>=◌, or_throw}
use klend_sdk.Pubkey.Set
use klend_sdk.Pubkey.Keys.{PublicKeys}
use klend_sdk.Action.Interfaces.{Web3, Decimals}
use klend_sdk.Action.Data.{
  KaminoObligation, ObligationBorrow, KaminoReserve, ActionType, deposit, borrow, withdraw, repay,
  deposit_collateral, liquidate, deposit_and_borrow, repay_and_withdraw, AuxiliaryIx, setup,
  collateral, debt, ReserveFarmKind,
}
use klend_sdk.Action.State.{KaminoAction}
use klend_sdk.Action.Refresh.{add_refresh_farms_for_reserve}
use klend_sdk.Action.Init.{add_init_obligation_for_farm}

module _ {K D : Type 0} where
  abbrev pub preload_deposit : KaminoAction K D → KaminoAction K D
  preload_deposit a = record a {
    pre_loaded_deposit_reserves_same_tx =
        a.pre_loaded_deposit_reserves_same_tx ++ a.reserve.address ∷ [];
  }

  abbrev pub preload_borrow : KaminoAction K D → KaminoAction K D
  preload_borrow a = record a {
    pre_loaded_borrow_reserves_same_tx =
        a.pre_loaded_borrow_reserves_same_tx ++ a.reserve.address ∷ [];
  }

module _ {K D : Type 0} ⦃p : PublicKeys K⦄ ⦃w : Web3 K⦄ ⦃d : Decimals D⦄ where
  -- What the first half of a two-token action does to the positions of the obligation.
  unfoldable pub preload_for_deposit :
      Option (KaminoObligation K D) → KaminoAction K D → KaminoAction K D
  preload_for_deposit none a = preload_deposit a
  preload_for_deposit (some o) a =
      if any (λ r. p.equals r a.reserve.address) o.state_deposits then a else preload_deposit a

  -- The amount repays the borrow with its interest.
  abbrev pub repays_all : ObligationBorrow K D → KaminoAction K D → Bool
  repays_all b a =
      let rate =
        a.reserve.estimated_cumulative_borrow_rate a.current_slot
          a.kamino_market.referral_fee_bps in
      let full_repay = d.div (d.mul b.borrow_amount rate) b.cumulative_borrow_rate in
      d.lte full_repay (d.of_bn a.amount)

  unfoldable pub preload_for_repay :
      Option (KaminoObligation K D) → KaminoAction K D → Outcome (KaminoAction K D)
  preload_for_repay none a = ok (preload_deposit a)
  preload_for_repay (some o) a = do
    b ←
        or_throw (find (λ b. p.equals b.borrow_reserve a.reserve.address) o.state_borrows)
          "Unable to find obligation borrow to repay"
    ok (if repays_all b a then preload_borrow a else a)

  unfoldable pub preload : ActionType → KaminoAction K D → Outcome (KaminoAction K D)
  unfolding preload_for_deposit preload_for_repay
  preload deposit_and_borrow a = ok (preload_for_deposit a.obligation a)
  preload repay_and_withdraw a = preload_for_repay a.obligation a
  preload _ a = ok a

  -- `currentReserves`.
  unfoldable pub current_reserves :
      ActionType → KaminoAction K D → Outcome (List (KaminoReserve K D))
  current_reserves liquidate a = do
    out ← or_throw a.outflow_reserve "outflowReserve is undefined"
    ok (if p.equals out.address a.reserve.address then a.reserve ∷ [] else out ∷ a.reserve ∷ [])
  current_reserves deposit_and_borrow a = do
    out ← or_throw a.outflow_reserve "outflowReserve is undefined"
    ok (a.reserve ∷ out ∷ [])
  current_reserves repay_and_withdraw a = do
    out ← or_throw a.outflow_reserve "outflowReserve is undefined"
    ok (a.reserve ∷ out ∷ [])
  current_reserves _ a = ok (a.reserve ∷ [])

  -- The farms that an action makes for the obligation: of its reserve, then of the outflow reserve.
  abbrev pub init_farms_of :
      ReserveFarmKind → ReserveFarmKind → AuxiliaryIx → KaminoAction K D → KaminoAction K D
  init_farms_of first second phase a =
      let b = add_init_obligation_for_farm a.reserve first phase a in
      elim a.outflow_reserve [
        | none ↦ b
        | some out ↦ add_init_obligation_for_farm out second phase b
      ]

  -- For the other actions, both farms of each reserve.
  abbrev pub init_all_farms : AuxiliaryIx → KaminoAction K D → KaminoAction K D
  init_all_farms phase a =
      let b =
        add_init_obligation_for_farm a.reserve debt phase
          (add_init_obligation_for_farm a.reserve collateral phase a) in
      elim a.outflow_reserve [
        | none ↦ b
        | some out ↦
            add_init_obligation_for_farm out debt phase
              (add_init_obligation_for_farm out collateral phase b)
      ]

  unfoldable pub add_init_obligation_for_farms :
      ActionType → AuxiliaryIx → KaminoAction K D → Outcome (KaminoAction K D)
  unfolding add_init_obligation_for_farm
  add_init_obligation_for_farms liquidate phase a = do
    out ← or_throw a.outflow_reserve "TypeError"
    ok (
        add_init_obligation_for_farm out collateral phase
          (add_init_obligation_for_farm a.reserve debt phase a))
  add_init_obligation_for_farms deposit_and_borrow phase a =
      ok (init_farms_of collateral debt phase a)
  add_init_obligation_for_farms deposit_collateral phase a =
      ok (init_farms_of collateral debt phase a)
  add_init_obligation_for_farms withdraw phase a = ok (init_farms_of collateral debt phase a)
  add_init_obligation_for_farms deposit phase a = ok (init_farms_of collateral debt phase a)
  add_init_obligation_for_farms repay_and_withdraw phase a =
      ok (init_farms_of debt collateral phase a)
  add_init_obligation_for_farms borrow phase a = ok (init_farms_of debt collateral phase a)
  add_init_obligation_for_farms repay phase a = ok (init_farms_of debt collateral phase a)
  add_init_obligation_for_farms _ phase a = ok (init_all_farms phase a)

  -- The refreshes of the obligation's farms, last in the instructions of the phase.
  unfoldable pub add_farm_refreshes :
      ActionType
      → AuxiliaryIx
      → List (KaminoReserve K D)
      → Bool
      → KaminoAction K D
      → Outcome (KaminoAction K D)
  unfolding add_refresh_farms_for_reserve
  add_farm_refreshes liquidate setup current two_token_action a = do
    out ← or_throw a.outflow_reserve "TypeError"
    ok (
        add_refresh_farms_for_reserve (a.reserve ∷ []) setup debt a.payer false
          (add_refresh_farms_for_reserve (out ∷ []) setup collateral a.payer false a))
  add_farm_refreshes deposit_and_borrow setup current two_token_action a =
      ok (add_refresh_farms_for_reserve current setup collateral a.payer two_token_action a)
  add_farm_refreshes deposit_collateral setup current two_token_action a =
      ok (add_refresh_farms_for_reserve current setup collateral a.payer two_token_action a)
  add_farm_refreshes withdraw setup current two_token_action a =
      ok (add_refresh_farms_for_reserve current setup collateral a.payer two_token_action a)
  add_farm_refreshes deposit setup current two_token_action a =
      ok (add_refresh_farms_for_reserve current setup collateral a.payer two_token_action a)
  add_farm_refreshes repay_and_withdraw setup current two_token_action a =
      ok (add_refresh_farms_for_reserve current setup debt a.payer two_token_action a)
  add_farm_refreshes borrow setup current two_token_action a =
      ok (add_refresh_farms_for_reserve current setup debt a.payer two_token_action a)
  add_farm_refreshes repay setup current two_token_action a =
      ok (add_refresh_farms_for_reserve current setup debt a.payer two_token_action a)
  add_farm_refreshes _ setup current two_token_action a =
      error "Could not decide on refresh farm for action"
  add_farm_refreshes deposit_and_borrow phase current two_token_action a = do
    out ← or_throw a.outflow_reserve "TypeError"
    ok (add_refresh_farms_for_reserve (out ∷ []) phase debt a.payer false a)
  add_farm_refreshes repay_and_withdraw phase current two_token_action a = do
    out ← or_throw a.outflow_reserve "TypeError"
    ok (add_refresh_farms_for_reserve (out ∷ []) phase collateral a.payer false a)
  add_farm_refreshes _ phase current two_token_action a =
      error "Could not decide on refresh farm for action"

  -- `allReservesExcludingCurrent`.
  unfoldable pub reserves_excluding : List K → KaminoAction K D → List K
  unfolding Set.of_items Set.to_array Set.contains
  reserves_excluding current a =
      filter (λ k. not (Set.contains (Set.of_items current) k))
        (Set.to_array (Set.of_items (a.deposit_reserves ++ a.borrow_reserves)))

  abbrev pub addresses : List (KaminoReserve K D) → List K
  addresses = map (λ r. r.address)
