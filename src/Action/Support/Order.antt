-- ===== src/Action/Support/Order.antt =====
-- The order of the refreshes in `addSupportIxsWithoutInitObligation` of src/classes/action.ts.
use klend_sdk.Prelude.{
  append_assoc, append-nil, List, [], ◌∷◌, ◌++◌, Bool, true, false, none, some, ◌≡◌, refl, ◌∙◌, ap,
  if◌then◌else◌,
}
use mathlib.Core.Path.{subst}
use klend_sdk.Prelude.Outcome.{ok, or_throw, >>=-eq-ok, ok-injective}
use klend_sdk.Pubkey.Keys.{PublicKeys}
use klend_sdk.Action.Interfaces.{Web3, Decimals}
use klend_sdk.Action.Data.{
  Instruction, Call, Label, refresh_obligation, AuxiliaryIx, setup, in_between, cleanup,
  KaminoReserve, ReserveFarmKind, collateral, debt, ActionType,
}
use klend_sdk.Action.Data
use klend_sdk.Action.State.{KaminoAction, push_to, label}
use klend_sdk.Action.Keys.{get_obligation_pda, get_additional_deposit_reserves_list}
use klend_sdk.Action.Refresh.{add_refresh_reserve_ixs, add_refresh_obligation_ix}
use klend_sdk.Action.Refresh.Reserves.{
  refreshed_by, refreshed_in, refreshed_in-push_to, refreshed_in-add_refresh_reserve_ixs,
}
use klend_sdk.Action.Init.{
  add_init_obligation_for_farm, init_farm_ix, lacks_farm_state, push_init_farm, init_farm_label,
}
use klend_sdk.Action.Positions.{init_farms_of, init_all_farms, add_init_obligation_for_farms}
use klend_sdk.Action.Support.{refresh_positions}

module _ {K D : Type 0} ⦃p : PublicKeys K⦄ ⦃w : Web3 K⦄ where
  if-refreshed :
      (c : Bool) (phase : AuxiliaryIx) (x a : KaminoAction K D)
      → refreshed_in phase x ≡ refreshed_in phase a
      → refreshed_in phase (if c then x else a) ≡ refreshed_in phase a
  if-refreshed true phase x a h = h
  if-refreshed false phase x a h = refl

  refreshed_by-init_farm_ix :
      (r : KaminoReserve K D) (mode : ReserveFarmKind) (a : KaminoAction K D)
      → refreshed_by (init_farm_ix r mode a).call ≡ []
  unfolding init_farm_ix
  refreshed_by-init_farm_ix r mode a = refl

  pushed-farm :
      (phase : AuxiliaryIx) (r : KaminoReserve K D) (mode : ReserveFarmKind) (l : Label K)
      (a : KaminoAction K D)
      → refreshed_in phase (push_to phase (init_farm_ix r mode a) l a) ≡ refreshed_in phase a
  pushed-farm phase r mode l a =
      refreshed_in-push_to phase (init_farm_ix r mode a) l a
      ∙ ap (λ x. refreshed_in phase a ++ x) (refreshed_by-init_farm_ix r mode a)
      ∙ append-nil (refreshed_in phase a)

  pushed-farms :
      (phase : AuxiliaryIx) (r : KaminoReserve K D) (mode : ReserveFarmKind) (a : KaminoAction K D)
      → refreshed_in phase (push_init_farm phase (init_farm_ix r mode a) (init_farm_label r a) a)
        ≡ refreshed_in phase a
  pushed-farms setup r mode a = pushed-farm setup r mode (init_farm_label r a) a
  pushed-farms in_between r mode a = pushed-farm in_between r mode (init_farm_label r a) a
  pushed-farms cleanup r mode a = refl

  refreshed_in-farm :
      (r : KaminoReserve K D) (mode : ReserveFarmKind) (phase : AuxiliaryIx) (a : KaminoAction K D)
      → refreshed_in phase (add_init_obligation_for_farm r mode phase a) ≡ refreshed_in phase a
  unfolding add_init_obligation_for_farm
  refreshed_in-farm r mode phase a =
      if-refreshed (lacks_farm_state r mode a) phase
        (push_init_farm phase (init_farm_ix r mode a) (init_farm_label r a) a) a
        (pushed-farms phase r mode a)

  module _ ⦃d : Decimals D⦄ where
    refreshed_in-init_farms_of :
        (first second : ReserveFarmKind) (phase : AuxiliaryIx) (a : KaminoAction K D)
        → refreshed_in phase (init_farms_of first second phase a) ≡ refreshed_in phase a
    refreshed_in-init_farms_of first second phase a =
        elim a.outflow_reserve
          as (λ o.
            refreshed_in phase (elim o [
              | none ↦ add_init_obligation_for_farm a.reserve first phase a
              | some out ↦
                  add_init_obligation_for_farm out second phase
                    (add_init_obligation_for_farm a.reserve first phase a)
            ])
            ≡ refreshed_in phase a) [
              | none ↦ refreshed_in-farm a.reserve first phase a
              | some out ↦
                  refreshed_in-farm out second phase _ ∙ refreshed_in-farm a.reserve first phase a
            ]

    refreshed_in-init_all_farms :
        (phase : AuxiliaryIx) (a : KaminoAction K D)
        → refreshed_in phase (init_all_farms phase a) ≡ refreshed_in phase a
    refreshed_in-init_all_farms phase a =
        let first = add_init_obligation_for_farm a.reserve collateral phase a in
        let b = add_init_obligation_for_farm a.reserve debt phase first in
        let same =
          refreshed_in-farm a.reserve debt phase first
          ∙ refreshed_in-farm a.reserve collateral phase a in
        elim a.outflow_reserve
          as (λ o.
            refreshed_in phase (elim o [
              | none ↦ b
              | some out ↦
                  add_init_obligation_for_farm out debt phase
                    (add_init_obligation_for_farm out collateral phase b)
            ])
            ≡ refreshed_in phase a) [
              | none ↦ same
              | some out ↦
                  refreshed_in-farm out debt phase _
                  ∙ refreshed_in-farm out collateral phase b
                  ∙ same
            ]

    returned :
        (phase : AuxiliaryIx) (x b : KaminoAction K D) (r : List K)
        → refreshed_in phase x ≡ r
        → ok x ≡ ok b
        → refreshed_in phase b ≡ r
    returned phase x b r same h = subst (λ y. refreshed_in phase y ≡ r) (ok-injective x b h) same

    refreshed_in-init :
        (action : ActionType) (phase : AuxiliaryIx) (a b : KaminoAction K D)
        → add_init_obligation_for_farms action phase a ≡ ok b
        → refreshed_in phase b ≡ refreshed_in phase a
    unfolding add_init_obligation_for_farms
    refreshed_in-init ActionType.liquidate phase a b h =
        let (out, ho, h1) = >>=-eq-ok (or_throw a.outflow_reserve "TypeError") _ h in
        returned phase _ b _
          (refreshed_in-farm out collateral phase _ ∙ refreshed_in-farm a.reserve debt phase a) h1
    refreshed_in-init ActionType.deposit_and_borrow phase a b h =
        returned phase (init_farms_of collateral debt phase a) b _
          (refreshed_in-init_farms_of collateral debt phase a) h
    refreshed_in-init ActionType.deposit_collateral phase a b h =
        returned phase (init_farms_of collateral debt phase a) b _
          (refreshed_in-init_farms_of collateral debt phase a) h
    refreshed_in-init ActionType.withdraw phase a b h =
        returned phase (init_farms_of collateral debt phase a) b _
          (refreshed_in-init_farms_of collateral debt phase a) h
    refreshed_in-init ActionType.deposit phase a b h =
        returned phase (init_farms_of collateral debt phase a) b _
          (refreshed_in-init_farms_of collateral debt phase a) h
    refreshed_in-init ActionType.repay_and_withdraw phase a b h =
        returned phase (init_farms_of debt collateral phase a) b _
          (refreshed_in-init_farms_of debt collateral phase a) h
    refreshed_in-init ActionType.borrow phase a b h =
        returned phase (init_farms_of debt collateral phase a) b _
          (refreshed_in-init_farms_of debt collateral phase a) h
    refreshed_in-init ActionType.repay phase a b h =
        returned phase (init_farms_of debt collateral phase a) b _
          (refreshed_in-init_farms_of debt collateral phase a) h
    refreshed_in-init ActionType.mint phase a b h =
        returned phase (init_all_farms phase a) b _ (refreshed_in-init_all_farms phase a) h
    refreshed_in-init ActionType.redeem phase a b h =
        returned phase (init_all_farms phase a) b _ (refreshed_in-init_all_farms phase a) h
    refreshed_in-init ActionType.refresh_obligation phase a b h =
        returned phase (init_all_farms phase a) b _ (refreshed_in-init_all_farms phase a) h
    refreshed_in-init ActionType.request_elevation_group phase a b h =
        returned phase (init_all_farms phase a) b _ (refreshed_in-init_all_farms phase a) h
    refreshed_in-init ActionType.withdraw_referrer_fees phase a b h =
        returned phase (init_all_farms phase a) b _ (refreshed_in-init_all_farms phase a) h

    init-if :
        (c : Bool) (action : ActionType) (phase : AuxiliaryIx) (a b : KaminoAction K D)
        → (if c then add_init_obligation_for_farms action phase a else ok a) ≡ ok b
        → refreshed_in phase b ≡ refreshed_in phase a
    init-if true action phase a b h = refreshed_in-init action phase a b h
    init-if false action phase a b h = returned phase a b _ refl h

    -- The obligation's refresh is pushed last, for the obligation of the action that it is pushed to.
    refreshed_in-obligation :
        (phase : AuxiliaryIx) (skip : Bool) (a : KaminoAction K D)
        → refreshed_in phase (add_refresh_obligation_ix phase skip a) ≡ refreshed_in phase a
    unfolding add_refresh_obligation_ix get_additional_deposit_reserves_list
    refreshed_in-obligation setup skip a =
        refreshed_in-push_to setup _
          (label "RefreshObligation" (Data.key (get_obligation_pda a) ∷ []))
          (get_additional_deposit_reserves_list a)
        ∙ append-nil (refreshed_in setup a)
    refreshed_in-obligation in_between skip a =
        refreshed_in-push_to in_between _
          (label "RefreshObligation" (Data.key (get_obligation_pda a) ∷ []))
          (get_additional_deposit_reserves_list a)
        ∙ append-nil (refreshed_in in_between a)
    refreshed_in-obligation cleanup skip a =
        refreshed_in-push_to cleanup _
          (label "RefreshObligation" (Data.key (get_obligation_pda a) ∷ []))
          (get_additional_deposit_reserves_list a)
        ∙ append-nil (refreshed_in cleanup a)

    -- If the refresh of an obligation's positions returns, the instructions of the phase refresh,
    -- after the reserves that they refreshed before, the other reserves of the obligation and then the
    -- reserves of the action, in these orders, whatever farms are made in between.
    pub refreshed_in-refresh_positions :
        (action : ActionType) (phase : AuxiliaryIx) (init_farms skip : Bool)
        (excluded current : List K) (a b : KaminoAction K D)
        → refresh_positions action phase init_farms skip excluded current a ≡ ok b
        → refreshed_in phase b ≡ refreshed_in phase a ++ (excluded ++ current)
    unfolding refresh_positions
    refreshed_in-refresh_positions action phase init_farms skip excluded current a b h =
        let (x, hx, h1) = >>=-eq-ok (add_refresh_reserve_ixs excluded phase a) _ h in
        let (y, hy, h2) =
          >>=-eq-ok (if init_farms then add_init_obligation_for_farms action phase x else ok x) _
            h1 in
        let (z, hz, h3) = >>=-eq-ok (add_refresh_reserve_ixs current phase y) _ h2 in
        returned phase (add_refresh_obligation_ix phase skip z) b _
          (refreshed_in-obligation phase skip z
            ∙ refreshed_in-add_refresh_reserve_ixs current phase y z hz
            ∙ ap (λ l. l ++ current)
                (init-if init_farms action phase x y hy
                  ∙ refreshed_in-add_refresh_reserve_ixs excluded phase a x hx)
            ∙ append_assoc (refreshed_in phase a) excluded current)
          h3
