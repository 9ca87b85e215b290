-- ===== src/Action/Frame/Requests.antt =====
-- The requests of an elevation group in src/classes/action.ts, in the relation of Frame.
use klend_sdk.Prelude.{ℕ, List, true, false, Option, none, some, arith}
use klend_sdk.Prelude.Outcome.{or_throw}
use klend_sdk.Pubkey.HashMap
use klend_sdk.Pubkey.Keys.{PublicKeys}
use klend_sdk.Action.Interfaces.{Web3, Decimals}
use klend_sdk.Action.Data.{
  KaminoObligation, AuxiliaryIx, setup, cleanup, ActionType, deposit, borrow, repay,
  deposit_and_borrow,
}
use klend_sdk.Action.State.{KaminoAction}
use klend_sdk.Action.Refresh.{
  add_refresh_reserve_ixs, add_refresh_obligation_ix, add_request_elevation_ix,
}
use klend_sdk.Action.Requests.{
  request_group, is_new_group, closes_group, group_on_repay, request_on_repay, group_on_borrow,
  note_on_borrow, request_new_group, request_on_borrow, request_elevation,
}
use klend_sdk.Action.Frame.{
  Supports, Supports-refl, Returns, Returns-ok, Returns-bind, Returns-read, Returns-if,
}
use klend_sdk.Action.Frame.Steps.{
  Returns-trans, add_refresh_reserve_ixs-Returns, add_refresh_obligation_ix-Supports,
  add_request_elevation_ix-Returns,
}

module _ {K D : Type 0} where
  noted-Supports :
      (o : Option (KaminoObligation K D)) (a : KaminoAction K D)
      → Supports a (record a { obligation = o })
  noted-Supports o a = ground arith

module _ {K D : Type 0} ⦃p : PublicKeys K⦄ ⦃w : Web3 K⦄ ⦃d : Decimals D⦄ where
  request_group-Returns :
      (group : ℕ) (phase : AuxiliaryIx) (excluded current : List K) (a : KaminoAction K D)
      → Returns a (request_group group phase excluded current a)
  request_group-Returns group phase excluded current a =
      Returns-bind (add_request_elevation_ix group phase false a) _
        (add_request_elevation_ix-Returns group phase false a)
        λ requested.
          Returns-bind (add_refresh_reserve_ixs excluded phase requested) _
            (add_refresh_reserve_ixs-Returns excluded phase requested)
            λ b.
              Returns-bind (add_refresh_reserve_ixs current phase b) _
                (add_refresh_reserve_ixs-Returns current phase b)
                λ c. Returns-ok (add_refresh_obligation_ix-Supports phase false c)

  request_on_repay-Returns :
      (override : Option ℕ) (excluded : List K) (a : KaminoAction K D)
      → Returns a (request_on_repay override excluded a)
  unfolding request_on_repay
  request_on_repay-Returns override excluded a =
      Returns-read (or_throw a.obligation "TypeError") _ λ o.
        Returns-read
          (or_throw (HashMap.get o.borrows a.reserve.address)
            "Could not find debt reserve in obligation")
          _
          λ b.
            Returns-if (closes_group o b a) _ _
              (Returns-bind (add_refresh_reserve_ixs excluded cleanup a) _
                (add_refresh_reserve_ixs-Returns excluded cleanup a)
                λ c. Returns-trans (add_refresh_obligation_ix-Supports cleanup true c) (
                  add_request_elevation_ix-Returns (group_on_repay override) cleanup true
                    (add_refresh_obligation_ix cleanup true c)))
              (Returns-ok (Supports-refl a))

  note_on_borrow-Returns :
      (action : ActionType) (group : ℕ) (a : KaminoAction K D)
      → Returns a (note_on_borrow action group a)
  note_on_borrow-Returns borrow group a =
      Returns-read (or_throw a.obligation "TypeError") _ λ o. Returns-ok (noted-Supports _ a)
  note_on_borrow-Returns _ group a = Returns-ok (Supports-refl a)

  request_new_group-Returns :
      (action : ActionType) (group : Option ℕ) (phase : AuxiliaryIx) (excluded current : List K)
      (a : KaminoAction K D)
      → Returns a (request_new_group action group phase excluded current a)
  unfolding request_new_group
  request_new_group-Returns action none phase excluded current a = Returns-ok (Supports-refl a)
  request_new_group-Returns action (some group) phase excluded current a =
      Returns-if (is_new_group group a) _ _
        (Returns-bind (request_group group phase excluded current a) _
          (request_group-Returns group phase excluded current a)
          (note_on_borrow-Returns action group))
        (Returns-ok (Supports-refl a))

  request_on_borrow-Returns :
      (action : ActionType) (override : Option ℕ) (excluded current : List K) (a : KaminoAction K D)
      → Returns a (request_on_borrow action override excluded current a)
  unfolding request_on_borrow
  request_on_borrow-Returns action override excluded current a =
      Returns-read (group_on_borrow action override a) _
        λ chosen. request_new_group-Returns action chosen.0 chosen.1 excluded current a

  pub request_elevation-Returns :
      (action : ActionType) (override : Option ℕ) (excluded current : List K) (a : KaminoAction K D)
      → Returns a (request_elevation action override excluded current a)
  unfolding request_elevation
  request_elevation-Returns repay override excluded current a =
      request_on_repay-Returns override excluded a
  request_elevation-Returns deposit_and_borrow override excluded current a =
      request_on_borrow-Returns deposit_and_borrow override excluded current a
  request_elevation-Returns borrow override excluded current a =
      request_on_borrow-Returns borrow override excluded current a
  request_elevation-Returns deposit (some group) excluded current a =
      Returns-if (is_new_group group a) _ _ (request_group-Returns group setup excluded current a)
        (Returns-ok (Supports-refl a))
  request_elevation-Returns _ override excluded current a = Returns-ok (Supports-refl a)
