-- ===== src/Action/Build/Counts.antt =====
-- How many lending instructions the builders of src/classes/action.ts leave.
use klend_sdk.Prelude.{ℕ, true, false, ltb, length, ◌&&◌, Option, none, some, refl}
use klend_sdk.Prelude.Outcome.{or_throw}
use klend_sdk.Pubkey.Keys.{PublicKeys}
use klend_sdk.Action.Interfaces.{Web3, Decimals}
use klend_sdk.Action.Data.{KaminoMarket, KaminoReserve, KaminoObligation, ActionType}
use klend_sdk.Action.State.{KaminoAction, ObligationType}
use klend_sdk.Action.Init.{
  add_compute_budget_ixn, add_scope_refresh_ixs, get_token_ids_for_scope_refresh,
}
use klend_sdk.Action.Initialize.{
  ObligationArg, LoadedObligation, load_obligation, get_user_account_addresses, get_reserve_by_mint,
  new_kamino_action, initialize, initialize_multi_token_action, multi_accounts,
}
use klend_sdk.Action.Build.{BuildOptions, budgeted, all_reserves, prepare, supported, started}
use klend_sdk.Action.Frame.{
  Supports-refl, Supports-trans, Supports-if, Returns, Returns-ok, Returns-read,
}
use klend_sdk.Action.Frame.Accounts.{
  add_compute_budget_ixn-Supports, add_scope_refresh_ixs-Supports,
}
use klend_sdk.Action.Frame.Whole.{add_support_ixs-Returns}
use klend_sdk.Action.Build.Ensures.{
  Ensures, Ensures-ok, Ensures-read, Ensures-bind, HasLending, Returns-HasLending,
}

module _ {K D : Type 0} ⦃p : PublicKeys K⦄ ⦃w : Web3 K⦄ where
  prepare-Returns : (opts : BuildOptions K) (a : KaminoAction K D) → Returns a (prepare opts a)
  unfolding prepare
  prepare-Returns opts a =
      Returns-read (get_token_ids_for_scope_refresh a.kamino_market (all_reserves a)) _ λ ids.
        Returns-ok (
          Supports-trans
            (Supports-if (ltb 0 opts.extra_compute_budget)
              (add_compute_budget_ixn opts.extra_compute_budget a) a
              (add_compute_budget_ixn-Supports opts.extra_compute_budget a) (Supports-refl a))
            (Supports-if (ltb 0 (length ids) && opts.scope_refresh.include_scope_refresh)
              (add_scope_refresh_ixs ids opts.scope_refresh.scope_feed (budgeted opts a))
              (budgeted opts a)
              (add_scope_refresh_ixs-Supports ids opts.scope_refresh.scope_feed (budgeted opts a))
              (Supports-refl (budgeted opts a))))

  pub prepare-HasLending :
      {n : ℕ} (opts : BuildOptions K) (a : KaminoAction K D)
      → HasLending n a
      → Ensures (HasLending n) (prepare opts a)
  prepare-HasLending opts a h = Returns-HasLending (prepare-Returns opts a) h

  new-HasLending :
      (m : KaminoMarket K D) (owner payer : K) (l : LoadedObligation K D) (t : ObligationType K)
      (accounts : K × K) (mint_key : K) (amount : ℕ) (r : KaminoReserve K D) (slot : ℕ)
      (secondary additional : Option K) (out : Option (KaminoReserve K D)) (out_amount : Option ℕ)
      (referrer : K)
      → HasLending 0 (
          new_kamino_action m owner payer l t accounts mint_key amount r slot secondary additional
            out out_amount referrer)
  new-HasLending m owner payer l t accounts mint_key amount r slot secondary additional out
        out_amount referrer =
      record {
        counted = refl;
        labelled = record {
          setup_paired = refl;
          in_between_paired = refl;
          lending_paired = refl;
          cleanup_paired = refl;
          pre_txn_paired = refl;
          post_txn_paired = refl;
          farms_paired = refl;
        };
      }

  initialize-HasLending :
      (load : K → Option (KaminoObligation K D)) (action : ActionType) (amount : ℕ)
      (mint_key owner : K) (m : KaminoMarket K D) (arg : ObligationArg K D) (referrer : K)
      (slot : ℕ) (payer : K)
      → Ensures
          (HasLending 0)
          (initialize load action amount mint_key owner m arg referrer slot payer)
  unfolding initialize
  initialize-HasLending load action amount mint_key owner m arg referrer slot payer =
      Ensures-read (or_throw (get_reserve_by_mint m mint_key) "Reserve not found in market") _ λ r.
        Ensures-read (load_obligation load action m owner r.address arg none) _
          λ l. Ensures-ok _ (new-HasLending _ _ _ _ _ _ _ _ _ _ _ _ _ _ _)

  pub initialize_multi-HasLending :
      (load : K → Option (KaminoObligation K D)) (m : KaminoMarket K D) (action : ActionType)
      (amount : ℕ) (inflow outflow payer owner : K) (arg : ObligationArg K D)
      (out_amount : Option ℕ) (referrer : K) (slot : ℕ)
      → Ensures (HasLending 0) (
          initialize_multi_token_action load m action amount inflow outflow payer owner arg
            out_amount referrer slot)
  unfolding initialize_multi_token_action
  initialize_multi-HasLending load m action amount inflow outflow payer owner arg out_amount
        referrer slot =
      Ensures-read (or_throw (get_reserve_by_mint m inflow) "reserve states are not fetched") _ λ r.
        Ensures-read (or_throw (get_reserve_by_mint m outflow) "reserve states are not fetched") _
          λ out.
            Ensures-read (load_obligation load action m owner r.address arg (some out.address)) _
              λ l.
                Ensures-read
                  (multi_accounts action (get_user_account_addresses payer r)
                    (get_user_account_addresses payer out) inflow outflow)
                  _ λ accounts. Ensures-ok _ (new-HasLending _ _ _ _ _ _ _ _ _ _ _ _ _ _ _)

  module _ ⦃d : Decimals D⦄ where
    pub supported-HasLending :
        {n : ℕ} (action : ActionType) (opts : BuildOptions K) (override : Option ℕ)
        (a : KaminoAction K D)
        → HasLending n a
        → Ensures (HasLending n) (supported action opts override a)
    supported-HasLending action opts override a h =
        Ensures-bind (prepare opts a) _ (prepare-HasLending opts a h) λ b has.
          Returns-HasLending
            (add_support_ixs-Returns action opts.include_ata_ixns opts.request_elevation_group
              opts.include_user_metadata true false override b)
            has

    pub started-HasLending :
        (load : K → Option (KaminoObligation K D)) (m : KaminoMarket K D) (action : ActionType)
        (amount : ℕ) (mint_key owner : K) (arg : ObligationArg K D) (payer : K)
        (opts : BuildOptions K) (override : Option ℕ)
        → Ensures
            (HasLending 0)
            (started load m action amount mint_key owner arg payer opts override)
    started-HasLending load m action amount mint_key owner arg payer opts override =
        Ensures-bind
          (initialize load action amount mint_key owner m arg opts.referrer opts.current_slot payer)
          _
          (initialize-HasLending load action amount mint_key owner m arg opts.referrer
            opts.current_slot payer)
          λ a has. supported-HasLending action opts override a has
