-- ===== src/Action/Frame/Whole.antt =====
-- `addSupportIxs` and `addInBetweenIxs` of src/classes/action.ts, in the relation of Frame.
use klend_sdk.Prelude.{ℕ, List, [], ◌∷◌, Bool, false, Option, none, if◌then◌else◌, ◌&&◌, not}
use klend_sdk.Prelude.Outcome.{ok, ◌>>=◌, or_throw}
use klend_sdk.Pubkey.Set
use klend_sdk.Pubkey.Keys.{PublicKeys}
use klend_sdk.Action.Interfaces.{Web3, Decimals}
use klend_sdk.Action.Data.{
  KaminoReserve, AuxiliaryIx, setup, in_between, collateral, debt, ReserveFarmKind, ActionType,
  deposit, borrow, withdraw, repay, mint, redeem, deposit_collateral, liquidate, deposit_and_borrow,
  repay_and_withdraw,
}
use klend_sdk.Action.State.{KaminoAction}
use klend_sdk.Action.Refresh.{add_refresh_farms_for_reserve}
use klend_sdk.Action.Init.{
  add_init_user_metadata_ixs, add_init_referrer_token_state_ixs, add_init_obligation_ixs,
}
use klend_sdk.Action.Ata.{add_ata_ixs}
use klend_sdk.Action.Positions.{
  preload, current_reserves, add_farm_refreshes, reserves_excluding, addresses,
}
use klend_sdk.Action.Requests.{request_elevation}
use klend_sdk.Action.Support.{
  needs_obligation, skips_borrows, refresh_positions, add_support_ixs_without_init_obligation,
  has_metadata, add_missing_metadata, add_init_ixs, add_support_ixs, add_in_between_ixs,
}
use klend_sdk.Action.Frame.{
  Supports, Supports-refl, Supports-trans, Returns, Returns-ok, Returns-error, Returns-bind,
  Returns-read, Returns-if, Supports-if,
}
use klend_sdk.Action.Frame.Steps.{Returns-trans, add_refresh_farms-Supports}
use klend_sdk.Action.Frame.Accounts.{
  add_init_obligation_ixs-Supports, add_init_user_metadata_ixs-Supports,
  add_init_referrer_token_state_ixs-Supports, add_ata_ixs-Returns,
}
use klend_sdk.Action.Frame.Supporting.{preload-Returns, refresh_positions-Returns}
use klend_sdk.Action.Frame.Requests.{request_elevation-Returns}

module _ {K D : Type 0} ⦃p : PublicKeys K⦄ ⦃w : Web3 K⦄ ⦃d : Decimals D⦄ where
  -- One kind of farm of the outflow reserve, after it is read.
  out_farm-Returns :
      (phase : AuxiliaryIx) (mode : ReserveFarmKind) (a : KaminoAction K D)
      → Returns a (
          or_throw a.outflow_reserve "TypeError" >>= λ out.
          ok (add_refresh_farms_for_reserve (out ∷ []) phase mode a.payer false a))
  out_farm-Returns phase mode a =
      Returns-read (or_throw a.outflow_reserve "TypeError") _
        λ out. Returns-ok (add_refresh_farms-Supports (out ∷ []) phase mode a.payer false a)

  farm_refreshes-Returns :
      (action : ActionType) (phase : AuxiliaryIx) (current : List (KaminoReserve K D)) (two : Bool)
      (a : KaminoAction K D)
      → Returns a (add_farm_refreshes action phase current two a)
  unfolding add_farm_refreshes
  farm_refreshes-Returns liquidate setup current two a =
      Returns-read (or_throw a.outflow_reserve "TypeError") _ λ out. Returns-ok (
        Supports-trans (add_refresh_farms-Supports (out ∷ []) setup collateral a.payer false a)
          (add_refresh_farms-Supports (a.reserve ∷ []) setup debt a.payer false _))
  farm_refreshes-Returns deposit_and_borrow setup current two a =
      Returns-ok (add_refresh_farms-Supports current setup collateral a.payer two a)
  farm_refreshes-Returns deposit_collateral setup current two a =
      Returns-ok (add_refresh_farms-Supports current setup collateral a.payer two a)
  farm_refreshes-Returns withdraw setup current two a =
      Returns-ok (add_refresh_farms-Supports current setup collateral a.payer two a)
  farm_refreshes-Returns deposit setup current two a =
      Returns-ok (add_refresh_farms-Supports current setup collateral a.payer two a)
  farm_refreshes-Returns repay_and_withdraw setup current two a =
      Returns-ok (add_refresh_farms-Supports current setup debt a.payer two a)
  farm_refreshes-Returns borrow setup current two a =
      Returns-ok (add_refresh_farms-Supports current setup debt a.payer two a)
  farm_refreshes-Returns repay setup current two a =
      Returns-ok (add_refresh_farms-Supports current setup debt a.payer two a)
  farm_refreshes-Returns _ setup current two a =
      Returns-error "Could not decide on refresh farm for action"
  farm_refreshes-Returns deposit_and_borrow phase current two a = out_farm-Returns phase debt a
  farm_refreshes-Returns repay_and_withdraw phase current two a =
      out_farm-Returns phase collateral a
  farm_refreshes-Returns _ phase current two a =
      Returns-error "Could not decide on refresh farm for action"

  add_support_ixs_without-Returns :
      (action : ActionType) (atas : Bool) (phase : AuxiliaryIx) (group farms closing two : Bool)
      (override : Option ℕ) (a : KaminoAction K D)
      → Returns a (
          add_support_ixs_without_init_obligation action atas phase group farms closing two override
            a)
  unfolding add_support_ixs_without_init_obligation
  add_support_ixs_without-Returns action atas phase group farms closing two override a =
      Returns-bind (if atas then add_ata_ixs action a else ok a) _
        (Returns-if atas _ _ (add_ata_ixs-Returns action a) (Returns-ok (Supports-refl a)))
        λ b.
          Returns-if (needs_obligation action) _ _
            (Returns-read (current_reserves action b) _ λ reserves.
              Returns-bind (preload action b) _ (preload-Returns action b) λ loaded.
                let current = Set.to_array (Set.of_items (addresses reserves)) in
                let excluded = reserves_excluding (addresses reserves) loaded in
                let skip = skips_borrows action phase closing in
                Returns-bind (refresh_positions action phase farms skip excluded current loaded) _
                  (refresh_positions-Returns action phase farms skip excluded current loaded)
                  λ refreshed.
                    Returns-bind
                      (if group
                        then request_elevation action override excluded current refreshed
                        else ok refreshed)
                      _
                      (Returns-if group _ _
                        (request_elevation-Returns action override excluded current refreshed)
                        (Returns-ok (Supports-refl refreshed)))
                      λ requested. farm_refreshes-Returns action phase reserves two requested)
            (Returns-ok (Supports-refl b))

  add_missing_metadata-Supports :
      (include_metadata : Bool) (a : KaminoAction K D)
      → Supports a (add_missing_metadata include_metadata a)
  add_missing_metadata-Supports include_metadata a =
      Supports-if (include_metadata && not (has_metadata a.owner)) (add_init_user_metadata_ixs a) a
        (add_init_user_metadata_ixs-Supports a) (Supports-refl a)

  made-Supports :
      (include_metadata : Bool) (a : KaminoAction K D)
      → Supports a (
          add_init_obligation_ixs
            (add_init_referrer_token_state_ixs (add_missing_metadata include_metadata a)))
  made-Supports include_metadata a =
      let b = add_missing_metadata include_metadata a in
      Supports-trans (add_missing_metadata-Supports include_metadata a) (
        Supports-trans (add_init_referrer_token_state_ixs-Supports b)
          (add_init_obligation_ixs-Supports (add_init_referrer_token_state_ixs b)))

  add_init_ixs-Supports :
      (action : ActionType) (include_metadata : Bool) (a : KaminoAction K D)
      → Supports a (add_init_ixs action include_metadata a)
  add_init_ixs-Supports mint include_metadata a = Supports-refl a
  add_init_ixs-Supports redeem include_metadata a = Supports-refl a
  add_init_ixs-Supports _ include_metadata a = made-Supports include_metadata a

  -- If `addSupportIxs` returns, for any action and any options, the lending instructions, the market,
  -- both reserves and the amount are those of before, and if every queue had one label for each
  -- instruction, every queue still has.
  pub add_support_ixs-Returns :
      (action : ActionType) (atas group metadata farms two : Bool) (override : Option ℕ)
      (a : KaminoAction K D)
      → Returns a (add_support_ixs action atas group metadata farms two override a)
  unfolding add_support_ixs
  add_support_ixs-Returns action atas group metadata farms two override a =
      Returns-trans (add_init_ixs-Supports action metadata a) (
        add_support_ixs_without-Returns action atas setup group farms false two override
          (add_init_ixs action metadata a))

  pub add_in_between_ixs-Returns :
      (action : ActionType) (atas group farms closing : Bool) (a : KaminoAction K D)
      → Returns a (add_in_between_ixs action atas group farms closing a)
  unfolding add_in_between_ixs
  add_in_between_ixs-Returns action atas group farms closing a =
      add_support_ixs_without-Returns action atas in_between group farms closing false none a
