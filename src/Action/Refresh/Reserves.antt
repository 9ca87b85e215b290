-- ===== src/Action/Refresh/Reserves.antt =====
-- The reserves that the instructions of an action refresh: `addRefreshReserveIxs` of src/classes/action.ts.
use klend_sdk.Prelude.{append_assoc, append-nil, List, [], ◌∷◌, ◌++◌, ◌≡◌, refl, ◌∙◌, sym, ap}
use klend_sdk.Prelude.Outcome.{ok, or_throw, >>=-eq-ok, ok-injective}
use klend_sdk.Pubkey.Keys.{PublicKeys}
use klend_sdk.Action.Interfaces.{Web3}
use klend_sdk.Action.Data.{
  Instruction, Call, refresh_reserve, AuxiliaryIx, setup, in_between, cleanup, KaminoMarket,
  KaminoReserve, Label,
}
use klend_sdk.Action.State.{KaminoAction, queue, push_to}
use klend_sdk.Action.Refresh.{get_reserve_by_address, refresh_reserve_ix, add_refresh_reserve_ixs}

module _ {K : Type 0} where
  -- The reserve that an instruction refreshes.
  abbrev pub refreshed_by : Call K → List K
  refreshed_by (refresh_reserve market reserve pyth price twap scope program_id) = reserve ∷ []
  refreshed_by _ = []

  abbrev pub refreshed : List (Instruction K) → List K
  refreshed [] = []
  refreshed (i ∷ is) = refreshed_by i.call ++ refreshed is

  pub refreshed-append :
      (is js : List (Instruction K)) → refreshed (is ++ js) ≡ refreshed is ++ refreshed js
  refreshed-append [] js = refl
  refreshed-append (i ∷ is) js =
      ap (λ l. refreshed_by i.call ++ l) (refreshed-append is js)
      ∙ sym (append_assoc (refreshed_by i.call) (refreshed is) (refreshed js))

module _ {K D : Type 0} ⦃p : PublicKeys K⦄ ⦃w : Web3 K⦄ where
  -- The reserves that the instructions of a phase refresh, in their order.
  abbrev pub refreshed_in : AuxiliaryIx → KaminoAction K D → List K
  refreshed_in phase a = refreshed (queue phase a).ixs

  pub refreshed_in-push_to :
      (phase : AuxiliaryIx) (i : Instruction K) (l : Label K) (a : KaminoAction K D)
      → refreshed_in phase (push_to phase i l a) ≡ refreshed_in phase a ++ refreshed_by i.call
  refreshed_in-push_to setup i l a =
      refreshed-append a.setup_ixs.ixs (i ∷ [])
      ∙ ap (λ x. refreshed a.setup_ixs.ixs ++ x) (append-nil (refreshed_by i.call))
  refreshed_in-push_to in_between i l a =
      refreshed-append a.in_between_ixs.ixs (i ∷ [])
      ∙ ap (λ x. refreshed a.in_between_ixs.ixs ++ x) (append-nil (refreshed_by i.call))
  refreshed_in-push_to cleanup i l a =
      refreshed-append a.cleanup_ixs.ixs (i ∷ [])
      ∙ ap (λ x. refreshed a.cleanup_ixs.ixs ++ x) (append-nil (refreshed_by i.call))

  refreshed_by-refresh_reserve_ix :
      (m : KaminoMarket K D) (k : K) (state : KaminoReserve K D)
      → refreshed_by (refresh_reserve_ix m k state).call ≡ k ∷ []
  unfolding refresh_reserve_ix
  refreshed_by-refresh_reserve_ix m k state = refl

  pub refreshed_in-add_refresh_reserve_ixs :
      (ks : List K) (phase : AuxiliaryIx) (a b : KaminoAction K D)
      → add_refresh_reserve_ixs ks phase a ≡ ok b
      → refreshed_in phase b ≡ refreshed_in phase a ++ ks
  unfolding add_refresh_reserve_ixs
  refreshed_in-add_refresh_reserve_ixs [] phase a b h =
      ap (refreshed_in phase) (sym (ok-injective a b h)) ∙ sym (append-nil (refreshed_in phase a))
  refreshed_in-add_refresh_reserve_ixs (k ∷ ks) phase a b h =
      let (state, hs, h1) =
        >>=-eq-ok
          (or_throw (get_reserve_by_address a.kamino_market k) "Could not find reserve in reserves")
          _ h in
      let i = refresh_reserve_ix a.kamino_market k state in
      refreshed_in-add_refresh_reserve_ixs ks phase _ b h1
      ∙ ap (λ x. x ++ ks)
          (refreshed_in-push_to phase i _ a
            ∙ ap (λ l. refreshed_in phase a ++ l)
                (refreshed_by-refresh_reserve_ix a.kamino_market k state))
      ∙ append_assoc (refreshed_in phase a) (k ∷ []) ks
