-- ===== src/Action/Build/Builders.antt =====
-- What the builders `build..Txns` of src/classes/action.ts leave, if they return.
use klend_sdk.Prelude.{ℕ, Bool, true, false, Option, none, some}
use klend_sdk.Pubkey.Keys.{PublicKeys}
use klend_sdk.Action.Interfaces.{Web3, Decimals}
use klend_sdk.Action.Data.{
  KaminoMarket, KaminoObligation, deposit, borrow, withdraw, repay, liquidate, deposit_and_borrow,
  repay_and_withdraw,
}
use klend_sdk.Action.Initialize.{ObligationArg, initialize_multi_token_action}
use klend_sdk.Action.Lending.{
  add_borrow_ix, add_repay_ix, add_liquidate_ix, add_deposit_and_borrow_ix,
  add_repay_and_withdraw_ixs,
}
use klend_sdk.Action.Support.{add_support_ixs, add_in_between_ixs}
use klend_sdk.Action.Build.{
  BuildOptions, prepare, supported, started, build_deposit_txns, build_borrow_txns,
  build_withdraw_txns, build_repay_txns, build_liquidate_txns, build_deposit_and_borrow_txns,
  build_repay_and_withdraw_txns,
}
use klend_sdk.Action.Frame.Whole.{add_support_ixs-Returns, add_in_between_ixs-Returns}
use klend_sdk.Action.Build.Ensures.{
  Ensures, Ensures-ok, Ensures-bind, HasLending, Returns-HasLending,
}
use klend_sdk.Action.Build.Lending.{
  cleaned-HasLending, add_deposit_ix-HasLending, add_borrow_ix-HasLending, add_repay_ix-HasLending,
  add_liquidate_ix-HasLending, add_withdraw_ix-HasLending, add_deposit_and_borrow_ix-HasLending,
  add_repay_and_withdraw_ixs-HasLending,
}
use klend_sdk.Action.Build.Counts.{
  prepare-HasLending, initialize_multi-HasLending, supported-HasLending, started-HasLending,
}

module _ {K D : Type 0} ⦃p : PublicKeys K⦄ ⦃w : Web3 K⦄ ⦃d : Decimals D⦄
    (load : K → Option (KaminoObligation K D)) (m : KaminoMarket K D) (opts : BuildOptions K) where
  -- If the builder of a deposit returns, the action has exactly one lending instruction, and each of
  -- its seven queues has one label for each instruction.
  pub build_deposit_txns-HasLending :
      (amount : ℕ) (key owner : K) (arg : ObligationArg K D) (override : Option ℕ)
      → Ensures (HasLending 1) (build_deposit_txns load m amount key owner arg opts override)
  unfolding build_deposit_txns
  build_deposit_txns-HasLending amount key owner arg override =
      Ensures-bind (started load m deposit amount key owner arg owner opts override) _
        (started-HasLending load m deposit amount key owner arg owner opts override)
        λ a has. Ensures-ok _ (cleaned-HasLending _ (add_deposit_ix-HasLending a has))

  -- If the builder of a borrow returns, the action has exactly one lending instruction, and each of
  -- its seven queues has one label for each instruction.
  pub build_borrow_txns-HasLending :
      (amount : ℕ) (key owner : K) (arg : ObligationArg K D) (override : Option ℕ)
      → Ensures (HasLending 1) (build_borrow_txns load m amount key owner arg opts override)
  unfolding build_borrow_txns
  build_borrow_txns-HasLending amount key owner arg override =
      Ensures-bind (started load m borrow amount key owner arg owner opts override) _
        (started-HasLending load m borrow amount key owner arg owner opts override)
        λ a has.
          Ensures-bind (add_borrow_ix a) _ (add_borrow_ix-HasLending a has)
            λ b with_borrow. Ensures-ok _ (cleaned-HasLending b with_borrow)

  -- If the builder of a withdrawal returns, the action has exactly one lending instruction, and each
  -- of its seven queues has one label for each instruction.
  pub build_withdraw_txns-HasLending :
      (amount : ℕ) (key owner : K) (arg : ObligationArg K D)
      → Ensures (HasLending 1) (build_withdraw_txns load m amount key owner arg opts)
  unfolding build_withdraw_txns
  build_withdraw_txns-HasLending amount key owner arg =
      Ensures-bind (started load m withdraw amount key owner arg owner opts none) _
        (started-HasLending load m withdraw amount key owner arg owner opts none)
        λ a has. Ensures-ok _ (cleaned-HasLending _ (add_withdraw_ix-HasLending a has))

  -- If the builder of a repayment returns, the action has exactly one lending instruction, and each of
  -- its seven queues has one label for each instruction.
  pub build_repay_txns-HasLending :
      (amount : ℕ) (key owner : K) (arg : ObligationArg K D) (payer : K)
      → Ensures (HasLending 1) (build_repay_txns load m amount key owner arg payer opts)
  unfolding build_repay_txns
  build_repay_txns-HasLending amount key owner arg payer =
      Ensures-bind (started load m repay amount key owner arg payer opts none) _
        (started-HasLending load m repay amount key owner arg payer opts none)
        λ a has.
          Ensures-bind (add_repay_ix a) _ (add_repay_ix-HasLending a has)
            λ b with_repay. Ensures-ok _ (cleaned-HasLending b with_repay)

  -- If the builder of a liquidation returns, the action has exactly one lending instruction, and each
  -- of its seven queues has one label for each instruction.
  pub build_liquidate_txns-HasLending :
      (amount min_received : ℕ) (repay_mint withdraw_mint liquidator owner : K)
      (arg : ObligationArg K D) (max_ltv : ℕ)
      → Ensures (HasLending 1) (
          build_liquidate_txns load m amount min_received repay_mint withdraw_mint liquidator owner
            arg max_ltv opts)
  unfolding build_liquidate_txns
  build_liquidate_txns-HasLending amount min_received repay_mint withdraw_mint liquidator owner arg
        max_ltv =
      Ensures-bind
        (initialize_multi_token_action load m liquidate amount repay_mint withdraw_mint liquidator
          owner arg (some min_received) opts.referrer opts.current_slot)
        _
        (initialize_multi-HasLending load m liquidate amount repay_mint withdraw_mint liquidator
          owner arg (some min_received) opts.referrer opts.current_slot)
        λ a has.
          Ensures-bind (supported liquidate opts none a) _
            (supported-HasLending liquidate opts none a has)
            λ b kept.
              Ensures-bind (add_liquidate_ix max_ltv b) _
                (add_liquidate_ix-HasLending max_ltv b kept)
                λ c with_liquidation. Ensures-ok _ (cleaned-HasLending c with_liquidation)

  -- If the builder of a deposit with a borrow returns, the action has exactly two lending
  -- instructions, and each of its seven queues has one label for each instruction.
  pub build_deposit_and_borrow_txns-HasLending :
      (amount : ℕ) (deposit_mint : K) (borrow_amount : ℕ) (borrow_mint payer : K)
      (arg : ObligationArg K D)
      → Ensures (HasLending 2) (
          build_deposit_and_borrow_txns load m amount deposit_mint borrow_amount borrow_mint payer
            arg opts)
  unfolding build_deposit_and_borrow_txns
  build_deposit_and_borrow_txns-HasLending amount deposit_mint borrow_amount borrow_mint payer arg =
      Ensures-bind
        (initialize_multi_token_action load m deposit_and_borrow amount deposit_mint borrow_mint
          payer payer arg (some borrow_amount) opts.referrer opts.current_slot)
        _
        (initialize_multi-HasLending load m deposit_and_borrow amount deposit_mint borrow_mint payer
          payer arg (some borrow_amount) opts.referrer opts.current_slot)
        λ a has. Ensures-bind (prepare opts a) _ (prepare-HasLending opts a has) λ b prepared.
          Ensures-bind
            (add_support_ixs deposit opts.include_ata_ixns opts.request_elevation_group
              opts.include_user_metadata true true none b)
            _
            (Returns-HasLending
              (add_support_ixs-Returns deposit opts.include_ata_ixns opts.request_elevation_group
                opts.include_user_metadata true true none b)
              prepared)
            λ c set_up.
              Ensures-bind (add_deposit_and_borrow_ix c) _
                (add_deposit_and_borrow_ix-HasLending c set_up)
                λ e both.
                  Ensures-bind
                    (add_in_between_ixs deposit_and_borrow opts.include_ata_ixns
                      opts.request_elevation_group false false e)
                    _
                    (Returns-HasLending
                      (add_in_between_ixs-Returns deposit_and_borrow opts.include_ata_ixns
                        opts.request_elevation_group false false e)
                      both)
                    λ f between. Ensures-ok _ (cleaned-HasLending f between)

  -- If the builder of a repayment with a withdrawal returns, the action has exactly two lending
  -- instructions, and each of its seven queues has one label for each instruction.
  pub build_repay_and_withdraw_txns-HasLending :
      (amount : ℕ) (repay_mint : K) (withdraw_amount : ℕ) (withdraw_mint payer : K)
      (arg : ObligationArg K D) (closing : Bool)
      → Ensures (HasLending 2) (
          build_repay_and_withdraw_txns load m amount repay_mint withdraw_amount withdraw_mint payer
            arg closing opts)
  unfolding build_repay_and_withdraw_txns
  build_repay_and_withdraw_txns-HasLending amount repay_mint withdraw_amount withdraw_mint payer arg
        closing =
      Ensures-bind
        (initialize_multi_token_action load m repay_and_withdraw amount repay_mint withdraw_mint
          payer payer arg (some withdraw_amount) opts.referrer opts.current_slot)
        _
        (initialize_multi-HasLending load m repay_and_withdraw amount repay_mint withdraw_mint payer
          payer arg (some withdraw_amount) opts.referrer opts.current_slot)
        λ a has. Ensures-bind (prepare opts a) _ (prepare-HasLending opts a has) λ b prepared.
          Ensures-bind
            (add_support_ixs repay opts.include_ata_ixns opts.request_elevation_group
              opts.include_user_metadata true true none b)
            _
            (Returns-HasLending
              (add_support_ixs-Returns repay opts.include_ata_ixns opts.request_elevation_group
                opts.include_user_metadata true true none b)
              prepared)
            λ c set_up.
              Ensures-bind (add_repay_and_withdraw_ixs c) _
                (add_repay_and_withdraw_ixs-HasLending c set_up)
                λ e both.
                  Ensures-bind
                    (add_in_between_ixs repay_and_withdraw opts.include_ata_ixns
                      opts.request_elevation_group false closing e)
                    _
                    (Returns-HasLending
                      (add_in_between_ixs-Returns repay_and_withdraw opts.include_ata_ixns
                        opts.request_elevation_group false closing e)
                      both)
                    λ f between. Ensures-ok _ (cleaned-HasLending f between)
