-- ===== src/Action/Frame/Steps.antt =====
-- The refresh steps of src/classes/action.ts, in the relation of Frame.
use klend_sdk.Prelude.{ℕ, List, [], ◌∷◌, Bool, true, false, arith}
use klend_sdk.Prelude.Outcome.{Outcome}
use klend_sdk.Pubkey.Keys.{PublicKeys}
use klend_sdk.Action.Interfaces.{Web3}
use klend_sdk.Action.Data.{
  AuxiliaryIx, setup, in_between, cleanup, Instruction, Label, KaminoReserve, ReserveFarmKind,
}
use klend_sdk.Action.State.{KaminoAction, push}
use klend_sdk.Action.Keys.{get_additional_deposit_reserves_list}
use klend_sdk.Action.Refresh.{
  add_refresh_reserve_ixs, add_refresh_obligation_ix, add_request_elevation_ix, push_farm,
  read_token_states, remaining_borrow_reserves, add_refresh_farms_for_reserve,
}
use klend_sdk.Action.Frame.{
  push-IsPaired, Supports, Supports-refl, Supports-trans, Returns, Returns-ok, Returns-read,
  Supports-if, push_to-Supports,
}

module _ {K D : Type 0} ⦃p : PublicKeys K⦄ ⦃w : Web3 K⦄ where
  pub Returns-trans :
      {a b : KaminoAction K D} {r : Outcome (KaminoAction K D)}
      → Supports a b
      → Returns b r
      → Returns a r
  Returns-trans s t = record { at = λ c h. Supports-trans s (t.at c h) }

  pub add_refresh_reserve_ixs-Returns :
      (ks : List K) (phase : AuxiliaryIx) (a : KaminoAction K D)
      → Returns a (add_refresh_reserve_ixs ks phase a)
  unfolding add_refresh_reserve_ixs
  add_refresh_reserve_ixs-Returns [] phase a = Returns-ok (Supports-refl a)
  add_refresh_reserve_ixs-Returns (k ∷ ks) phase a =
      Returns-read _ _ λ r.
        Returns-trans (push_to-Supports phase _ _ a) (add_refresh_reserve_ixs-Returns ks phase _)

  pub loaded-Supports : (a : KaminoAction K D) → Supports a (get_additional_deposit_reserves_list a)
  unfolding get_additional_deposit_reserves_list
  loaded-Supports a = ground arith

  pub add_refresh_obligation_ix-Supports :
      (phase : AuxiliaryIx) (skip : Bool) (a : KaminoAction K D)
      → Supports a (add_refresh_obligation_ix phase skip a)
  unfolding add_refresh_obligation_ix
  add_refresh_obligation_ix-Supports phase skip a =
      Supports-trans (loaded-Supports a) (push_to-Supports phase _ _ _)

  pub add_request_elevation_ix-Returns :
      (group : ℕ) (phase : AuxiliaryIx) (skip : Bool) (a : KaminoAction K D)
      → Returns a (add_request_elevation_ix group phase skip a)
  unfolding add_request_elevation_ix
  add_request_elevation_ix-Returns group phase skip a =
      let loaded = get_additional_deposit_reserves_list a in
      Returns-read (read_token_states loaded (remaining_borrow_reserves loaded)) _
        λ states. Returns-ok (Supports-trans (loaded-Supports a) (push_to-Supports phase _ _ _))

  farms-Supports :
      (i : Instruction K) (l : Label K) (a : KaminoAction K D)
      → Supports a
          (record a { refresh_farms_cleanup_txn_ixs = push i l a.refresh_farms_cleanup_txn_ixs })
  farms-Supports i l a = ground (arith, push-IsPaired i l a.refresh_farms_cleanup_txn_ixs)

  push_farm-Supports :
      (phase : AuxiliaryIx) (two : Bool) (i : Instruction K) (l : Label K) (a : KaminoAction K D)
      → Supports a (push_farm phase two i l a)
  push_farm-Supports setup true i l a =
      Supports-trans (push_to-Supports setup i l a) (push_to-Supports in_between i l _)
  push_farm-Supports setup false i l a =
      Supports-trans (push_to-Supports setup i l a) (farms-Supports i l _)
  push_farm-Supports in_between two i l a =
      Supports-trans (push_to-Supports in_between i l a) (farms-Supports i l _)
  push_farm-Supports cleanup two i l a = Supports-refl a

  pub add_refresh_farms-Supports :
      (rs : List (KaminoReserve K D)) (phase : AuxiliaryIx) (mode : ReserveFarmKind) (crank : K)
      (two : Bool) (a : KaminoAction K D)
      → Supports a (add_refresh_farms_for_reserve rs phase mode crank two a)
  unfolding add_refresh_farms_for_reserve
  add_refresh_farms-Supports [] phase mode crank two a = Supports-refl a
  add_refresh_farms-Supports (r ∷ rs) phase mode crank two a =
      Supports-trans (Supports-if _ _ _ (Supports-refl a) (push_farm-Supports phase two _ _ a))
        (add_refresh_farms-Supports rs phase mode crank two _)
