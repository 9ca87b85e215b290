-- ===== src/Action/Frame/Supporting.antt =====
-- The steps of `addSupportIxsWithoutInitObligation` of src/classes/action.ts up to the refresh of the
-- obligation, in the relation of Frame.
use klend_sdk.Prelude.{List, Bool, Option, none, some, if◌then◌else◌, find, any, arith}
use klend_sdk.Prelude.Outcome.{ok, or_throw}
use klend_sdk.Pubkey.Keys.{PublicKeys}
use klend_sdk.Action.Interfaces.{Web3, Decimals}
use klend_sdk.Action.Data.{
  KaminoReserve, KaminoObligation, AuxiliaryIx, collateral, debt, ReserveFarmKind, ActionType,
  deposit, borrow, withdraw, repay, deposit_collateral, liquidate, deposit_and_borrow,
  repay_and_withdraw,
}
use klend_sdk.Action.State.{KaminoAction}
use klend_sdk.Action.Refresh.{add_refresh_reserve_ixs}
use klend_sdk.Action.Init.{add_init_obligation_for_farm}
use klend_sdk.Action.Positions.{
  preload_deposit, preload_borrow, preload_for_deposit, preload_for_repay, repays_all, preload,
  init_farms_of, init_all_farms, add_init_obligation_for_farms,
}
use klend_sdk.Action.Support.{refresh_positions}
use klend_sdk.Action.Frame.{
  Supports, Supports-refl, Supports-trans, Returns, Returns-ok, Returns-bind, Returns-read,
  Returns-if, Supports-if,
}
use klend_sdk.Action.Frame.Steps.{
  add_refresh_reserve_ixs-Returns, add_refresh_obligation_ix-Supports,
}
use klend_sdk.Action.Frame.Accounts.{add_init_obligation_for_farm-Supports}

module _ {K D : Type 0} where
  preload_deposit-Supports : (a : KaminoAction K D) → Supports a (preload_deposit a)
  preload_deposit-Supports a = ground arith

  preload_borrow-Supports : (a : KaminoAction K D) → Supports a (preload_borrow a)
  preload_borrow-Supports a = ground arith

  option-Supports :
      {X : Type 0} {a : KaminoAction K D} (o : Option X) (b : KaminoAction K D)
      (f : X → KaminoAction K D)
      → Supports a b
      → ((x : X) → Supports b (f x))
      → Supports a (elim o [ none ↦ b | some x ↦ f x ])
  option-Supports none b f s t = s
  option-Supports (some x) b f s t = Supports-trans s (t x)

module _ {K D : Type 0} ⦃p : PublicKeys K⦄ ⦃w : Web3 K⦄ ⦃d : Decimals D⦄ where
  preload_for_deposit-Supports :
      (o : Option (KaminoObligation K D)) (a : KaminoAction K D)
      → Supports a (preload_for_deposit o a)
  unfolding preload_for_deposit
  preload_for_deposit-Supports none a = preload_deposit-Supports a
  preload_for_deposit-Supports (some o) a =
      Supports-if (any (λ r. p.equals r a.reserve.address) o.state_deposits) a (preload_deposit a)
        (Supports-refl a) (preload_deposit-Supports a)

  preload_for_repay-Returns :
      (o : Option (KaminoObligation K D)) (a : KaminoAction K D) → Returns a (preload_for_repay o a)
  unfolding preload_for_repay
  preload_for_repay-Returns none a = Returns-ok (preload_deposit-Supports a)
  preload_for_repay-Returns (some o) a =
      Returns-read
        (or_throw (find (λ b. p.equals b.borrow_reserve a.reserve.address) o.state_borrows)
          "Unable to find obligation borrow to repay")
        _
        λ b. Returns-ok (
          Supports-if (repays_all b a) (preload_borrow a) a (preload_borrow-Supports a)
            (Supports-refl a))

  pub preload-Returns : (action : ActionType) (a : KaminoAction K D) → Returns a (preload action a)
  unfolding preload
  preload-Returns deposit_and_borrow a = Returns-ok (preload_for_deposit-Supports a.obligation a)
  preload-Returns repay_and_withdraw a = preload_for_repay-Returns a.obligation a
  preload-Returns _ a = Returns-ok (Supports-refl a)

  init_farms_of-Supports :
      (first second : ReserveFarmKind) (phase : AuxiliaryIx) (a : KaminoAction K D)
      → Supports a (init_farms_of first second phase a)
  init_farms_of-Supports first second phase a =
      let b = add_init_obligation_for_farm a.reserve first phase a in
      option-Supports a.outflow_reserve b (λ out. add_init_obligation_for_farm out second phase b)
        (add_init_obligation_for_farm-Supports a.reserve first phase a)
        (λ out. add_init_obligation_for_farm-Supports out second phase b)

  both_farms-Supports :
      (r : KaminoReserve K D) (phase : AuxiliaryIx) (a : KaminoAction K D)
      → Supports a (
          add_init_obligation_for_farm r debt phase
            (add_init_obligation_for_farm r collateral phase a))
  both_farms-Supports r phase a =
      Supports-trans (add_init_obligation_for_farm-Supports r collateral phase a) (
        add_init_obligation_for_farm-Supports r debt phase
          (add_init_obligation_for_farm r collateral phase a))

  init_all_farms-Supports :
      (phase : AuxiliaryIx) (a : KaminoAction K D) → Supports a (init_all_farms phase a)
  init_all_farms-Supports phase a =
      let b =
        add_init_obligation_for_farm a.reserve debt phase
          (add_init_obligation_for_farm a.reserve collateral phase a) in
      option-Supports a.outflow_reserve b
        (λ out.
          add_init_obligation_for_farm out debt phase
            (add_init_obligation_for_farm out collateral phase b))
        (both_farms-Supports a.reserve phase a) (λ out. both_farms-Supports out phase b)

  pub init_farms-Returns :
      (action : ActionType) (phase : AuxiliaryIx) (a : KaminoAction K D)
      → Returns a (add_init_obligation_for_farms action phase a)
  unfolding add_init_obligation_for_farms
  init_farms-Returns liquidate phase a =
      Returns-read (or_throw a.outflow_reserve "TypeError") _ λ out. Returns-ok (
        Supports-trans (add_init_obligation_for_farm-Supports a.reserve debt phase a) (
          add_init_obligation_for_farm-Supports out collateral phase
            (add_init_obligation_for_farm a.reserve debt phase a)))
  init_farms-Returns deposit_and_borrow phase a =
      Returns-ok (init_farms_of-Supports collateral debt phase a)
  init_farms-Returns deposit_collateral phase a =
      Returns-ok (init_farms_of-Supports collateral debt phase a)
  init_farms-Returns withdraw phase a = Returns-ok (init_farms_of-Supports collateral debt phase a)
  init_farms-Returns deposit phase a = Returns-ok (init_farms_of-Supports collateral debt phase a)
  init_farms-Returns repay_and_withdraw phase a =
      Returns-ok (init_farms_of-Supports debt collateral phase a)
  init_farms-Returns borrow phase a = Returns-ok (init_farms_of-Supports debt collateral phase a)
  init_farms-Returns repay phase a = Returns-ok (init_farms_of-Supports debt collateral phase a)
  init_farms-Returns _ phase a = Returns-ok (init_all_farms-Supports phase a)

  pub refresh_positions-Returns :
      (action : ActionType) (phase : AuxiliaryIx) (init_farms skip : Bool)
      (excluded current : List K) (a : KaminoAction K D)
      → Returns a (refresh_positions action phase init_farms skip excluded current a)
  unfolding refresh_positions
  refresh_positions-Returns action phase init_farms skip excluded current a =
      Returns-bind (add_refresh_reserve_ixs excluded phase a) _
        (add_refresh_reserve_ixs-Returns excluded phase a)
        λ x.
          Returns-bind (if init_farms then add_init_obligation_for_farms action phase x else ok x) _
            (Returns-if init_farms _ _ (init_farms-Returns action phase x)
              (Returns-ok (Supports-refl x)))
            λ y.
              Returns-bind (add_refresh_reserve_ixs current phase y) _
                (add_refresh_reserve_ixs-Returns current phase y)
                λ z. Returns-ok (add_refresh_obligation_ix-Supports phase skip z)
