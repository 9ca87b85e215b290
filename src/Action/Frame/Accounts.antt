-- ===== src/Action/Frame/Accounts.antt =====
-- The steps of src/classes/action.ts that make accounts, in the relation of Frame.
use Prim.Native.String.{String}
use klend_sdk.Prelude.{
  ℕ, List, [], ◌∷◌, Bool, Option, none, some, if◌then◌else◌, refl, ◌&&◌, ◌||◌, not, arith,
}
use klend_sdk.Prelude.Outcome.{ok, or_throw}
use klend_sdk.Pubkey.Keys.{PublicKeys}
use klend_sdk.Action.Interfaces.{Web3, Decimals}
use klend_sdk.Action.Data.{
  AuxiliaryIx, setup, in_between, cleanup, Queue, Instruction, Label, KaminoReserve,
  ReserveFarmKind, ActionType, mint, liquidate,
}
use klend_sdk.Action.State.{KaminoAction, push, push_back, unshift}
use klend_sdk.Action.Init.{
  missing_token_states, lacks_farm_state, push_init_farm, init_farm_ix, init_farm_label,
  add_init_obligation_for_farm, add_init_obligation_ixs, add_init_user_metadata_ixs,
  add_init_referrer_token_state_ixs, unshift_token_states, add_compute_budget_ixn,
  add_scope_refresh_ixs,
}
use klend_sdk.Action.Ata.{
  add_ata_ixs, update_wsol_account, receives, sends, receiving_ata, sending_ata, is_wsol,
  has_two_steps, wsol_account, safe_repay, sends_wsol, with_wsol_ixs, needs_additional_ata,
  add_atas_of_liquidation, add_ata_of_mint, add_receiving_ata, add_liquidation_atas,
  add_additional_ata, add_sending_ata, add_collateral_ata, make_ata, wsol_ixs, has_two_steps,
  wsol_account, safe_repay, sends_wsol,
}
use klend_sdk.Action.Frame.{
  IsPaired, push-IsPaired, push_front-IsPaired, Supports, Supports-refl, Supports-trans, Returns,
  Returns-ok, Returns-bind, Returns-read, Returns-if, Supports-if, push_to-Supports,
}
use klend_sdk.Action.Frame.Steps.{Returns-trans}

module _ {K D : Type 0} where
  unless-Supports :
      {X : Type 0} (o : Option X) (a b : KaminoAction K D)
      → Supports a b
      → Supports a (elim o [ some x ↦ a | none ↦ b ])
  unless-Supports none a b s = s
  unless-Supports (some x) a b s = Supports-refl a

  unshift-Supports :
      (i : Instruction K) (l : Label K) (a : KaminoAction K D)
      → Supports a (record a { setup_ixs = unshift i l a.setup_ixs })
  unshift-Supports i l a = ground arith

  pre_txn-Supports :
      (i : Instruction K) (l : Label K) (a : KaminoAction K D)
      → Supports a (record a { pre_txn_ixs = push i l a.pre_txn_ixs })
  pre_txn-Supports i l a = ground (arith, push-IsPaired i l a.pre_txn_ixs)

  pub add_compute_budget_ixn-Supports :
      (units : ℕ) (a : KaminoAction K D) → Supports a (add_compute_budget_ixn units a)
  unfolding add_compute_budget_ixn
  add_compute_budget_ixn-Supports units a = push_to-Supports setup _ _ a

  pub add_scope_refresh_ixs-Supports :
      (ids : List ℕ) (feed : String) (a : KaminoAction K D)
      → Supports a (add_scope_refresh_ixs ids feed a)
  unfolding add_scope_refresh_ixs
  add_scope_refresh_ixs-Supports ids feed a = ground arith

module _ {K D : Type 0} ⦃p : PublicKeys K⦄ ⦃w : Web3 K⦄ where
  push_init_farm-Supports :
      (phase : AuxiliaryIx) (i : Instruction K) (l : Label K) (a : KaminoAction K D)
      → Supports a (push_init_farm phase i l a)
  push_init_farm-Supports setup i l a = push_to-Supports setup i l a
  push_init_farm-Supports in_between i l a = push_to-Supports in_between i l a
  push_init_farm-Supports cleanup i l a = Supports-refl a

  pub add_init_obligation_for_farm-Supports :
      (r : KaminoReserve K D) (mode : ReserveFarmKind) (phase : AuxiliaryIx) (a : KaminoAction K D)
      → Supports a (add_init_obligation_for_farm r mode phase a)
  unfolding add_init_obligation_for_farm
  add_init_obligation_for_farm-Supports r mode phase a =
      Supports-if (lacks_farm_state r mode a)
        (push_init_farm phase (init_farm_ix r mode a) (init_farm_label r a) a) a
        (push_init_farm-Supports phase (init_farm_ix r mode a) (init_farm_label r a) a)
        (Supports-refl a)

  pub add_init_obligation_ixs-Supports :
      (a : KaminoAction K D) → Supports a (add_init_obligation_ixs a)
  unfolding add_init_obligation_ixs
  add_init_obligation_ixs-Supports a =
      unless-Supports a.obligation a _ (push_to-Supports setup _ _ a)

  pub add_init_user_metadata_ixs-Supports :
      (a : KaminoAction K D) → Supports a (add_init_user_metadata_ixs a)
  unfolding add_init_user_metadata_ixs
  add_init_user_metadata_ixs-Supports a =
      Supports-trans (push_to-Supports setup _ _ a) (push_to-Supports setup _ _ _)

  unshift_token_states-Supports :
      (ss : List (K × K)) (a : KaminoAction K D) → Supports a (unshift_token_states ss a)
  unfolding unshift_token_states
  unshift_token_states-Supports [] a = Supports-refl a
  unshift_token_states-Supports ((s, r) ∷ ss) a =
      Supports-trans (unshift-Supports _ _ a) (unshift_token_states-Supports ss _)

  pub add_init_referrer_token_state_ixs-Supports :
      (a : KaminoAction K D) → Supports a (add_init_referrer_token_state_ixs a)
  unfolding add_init_referrer_token_state_ixs
  add_init_referrer_token_state_ixs-Supports a =
      Supports-if (p.equals a.referrer p.default) a
        (unshift_token_states (missing_token_states a) a) (Supports-refl a)
        (unshift_token_states-Supports (missing_token_states a) a)

  make_ata-Supports :
      (early : Bool) (account token program : K) (l : Label K) (a : KaminoAction K D)
      → Supports a (make_ata early account token program l a)
  unfolding make_ata
  make_ata-Supports early account token program l a =
      Supports-if (w.account_exists account) a _ (Supports-refl a)
        (Supports-if early _ _ (pre_txn-Supports _ _ a) (unshift-Supports _ _ a))

  add_receiving_ata-Supports :
      (action : ActionType) (a : KaminoAction K D) → Supports a (add_receiving_ata action a)
  unfolding add_receiving_ata
  add_receiving_ata-Supports action a =
      Supports-if (receives action && not (is_wsol (some a.mint))) (receiving_ata a) a
        (make_ata-Supports _ _ _ _ _ a) (Supports-refl a)

  add_sending_ata-Supports :
      (action : ActionType) (a : KaminoAction K D) → Supports a (add_sending_ata action a)
  unfolding add_sending_ata
  add_sending_ata-Supports action a =
      Supports-if (sends action) (sending_ata a) a (make_ata-Supports _ _ _ _ _ a) (Supports-refl a)

  add_collateral_ata-Supports : (a : KaminoAction K D) → Supports a (add_collateral_ata a)
  unfolding add_collateral_ata
  add_collateral_ata-Supports a = make_ata-Supports _ _ _ _ _ a

  add_additional_ata-Returns : (a : KaminoAction K D) → Returns a (add_additional_ata a)
  unfolding add_additional_ata
  add_additional_ata-Returns a =
      Returns-read
        (or_throw a.additional_token_account_address "Additional token account address not found") _
        λ account.
          Returns-read (or_throw a.outflow_reserve "Outflow reserve state not found") _
            λ out. Returns-ok (make_ata-Supports _ _ _ _ _ a)

  add_liquidation_atas-Returns : (a : KaminoAction K D) → Returns a (add_liquidation_atas a)
  unfolding add_liquidation_atas
  add_liquidation_atas-Returns a =
      Returns-read (or_throw a.outflow_reserve "Outflow reserve state not found") _ λ out.
        Returns-read
          (or_throw a.additional_token_account_address "Additional token account address not found")
          _
          λ account.
            Returns-ok
              (Supports-trans (make_ata-Supports _ _ _ _ _ a) (make_ata-Supports _ _ _ _ _ _))

  module _ ⦃d : Decimals D⦄ where
    wsol_ixs-IsPaired :
        (account : K) (sent : ℕ) (sends_it : Bool) (a : KaminoAction K D)
        → IsPaired (wsol_ixs account sent sends_it a).0
          × IsPaired (wsol_ixs account sent sends_it a).1
    wsol_ixs-IsPaired account sent sends_it a = ground arith

    queues-Supports :
        (f b : Queue K) (a : KaminoAction K D)
        → IsPaired f
        → IsPaired b
        → Supports a (with_wsol_ixs (f, b) a)
    queues-Supports f b a hf hb =
        let back : IsPaired a.cleanup_ixs → IsPaired (push_back b a.cleanup_ixs) =
          λ h. push_front-IsPaired a.cleanup_ixs b h hb in
        record {
          lending_kept = refl;
          market_kept = refl;
          reserve_kept = refl;
          outflow_kept = refl;
          amount_kept = refl;
          labelled = λ h. record {
            setup_paired = push_front-IsPaired f a.setup_ixs hf h.setup_paired;
            in_between_paired = h.in_between_paired;
            lending_paired = h.lending_paired;
            cleanup_paired = back h.cleanup_paired;
            pre_txn_paired = h.pre_txn_paired;
            post_txn_paired = h.post_txn_paired;
            farms_paired = h.farms_paired;
          };
        }

    update_wsol_account-Returns :
        (action : ActionType) (a : KaminoAction K D) → Returns a (update_wsol_account action a)
    unfolding update_wsol_account
    update_wsol_account-Returns action a =
        Returns-if (has_two_steps action) _ _ (Returns-ok (Supports-refl a)) (
          Returns-read (safe_repay action a) _ λ repaid. Returns-read (wsol_account a) _ λ account.
            let (f, b) = wsol_ixs-IsPaired account (w.parse_int repaid) (sends_wsol action a) a in
            Returns-ok (queues-Supports _ _ a f b))

    add_atas_of_liquidation-Returns :
        (action : ActionType) (a : KaminoAction K D) → Returns a (add_atas_of_liquidation action a)
    add_atas_of_liquidation-Returns liquidate a = add_liquidation_atas-Returns a
    add_atas_of_liquidation-Returns _ a = Returns-ok (Supports-refl a)

    add_ata_of_mint-Supports :
        (action : ActionType) (a : KaminoAction K D) → Supports a (add_ata_of_mint action a)
    add_ata_of_mint-Supports mint a = add_collateral_ata-Supports a
    add_ata_of_mint-Supports _ a = Supports-refl a

    pub add_ata_ixs-Returns :
        (action : ActionType) (a : KaminoAction K D) → Returns a (add_ata_ixs action a)
    unfolding add_ata_ixs
    add_ata_ixs-Returns action a =
        Returns-bind
          (if is_wsol (some a.mint) || is_wsol a.secondary_mint
            then update_wsol_account action a
            else ok a)
          _
          (Returns-if (is_wsol (some a.mint) || is_wsol a.secondary_mint) _ _
            (update_wsol_account-Returns action a) (Returns-ok (Supports-refl a)))
          λ wrapped. Returns-trans (add_receiving_ata-Supports action wrapped) (
            Returns-bind (add_atas_of_liquidation action (add_receiving_ata action wrapped)) _
              (add_atas_of_liquidation-Returns action (add_receiving_ata action wrapped))
              λ liquidated.
                Returns-bind
                  (if needs_additional_ata action liquidated
                    then add_additional_ata liquidated
                    else ok liquidated)
                  _
                  (Returns-if (needs_additional_ata action liquidated) _ _
                    (add_additional_ata-Returns liquidated) (Returns-ok (Supports-refl liquidated)))
                  λ additional. Returns-ok (
                    Supports-trans (add_sending_ata-Supports action additional)
                      (add_ata_of_mint-Supports action (add_sending_ata action additional))))
