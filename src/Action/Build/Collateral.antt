-- ===== src/Action/Build/Collateral.antt =====
-- What the builders of src/classes/action.ts that move collateral tokens leave, if they return.
use klend_sdk.Prelude.{ℕ, Option, none}
use klend_sdk.Pubkey.Keys.{PublicKeys}
use klend_sdk.Action.Interfaces.{Web3, Decimals}
use klend_sdk.Action.Data.{KaminoMarket, KaminoObligation, mint, redeem, deposit_collateral}
use klend_sdk.Action.Initialize.{ObligationArg}
use klend_sdk.Action.Build.{
  BuildOptions, started, build_deposit_reserve_liquidity_txns, build_redeem_reserve_collateral_txns,
  build_deposit_obligation_collateral_txns,
}
use klend_sdk.Action.Build.Ensures.{Ensures, Ensures-ok, Ensures-bind, HasLending}
use klend_sdk.Action.Build.Lending.{
  cleaned-HasLending, add_deposit_reserve_liquidity_ix-HasLending,
  add_redeem_reserve_collateral_ix-HasLending, add_deposit_obligation_collateral_ix-HasLending,
}
use klend_sdk.Action.Build.Counts.{started-HasLending}

module _ {K D : Type 0} ⦃p : PublicKeys K⦄ ⦃w : Web3 K⦄ ⦃d : Decimals D⦄
    (load : K → Option (KaminoObligation K D)) (m : KaminoMarket K D) (opts : BuildOptions K) where
  -- If the builder of a deposit of reserve liquidity returns, the action has exactly one lending
  -- instruction, and each of its seven queues has one label for each instruction.
  pub build_deposit_reserve_liquidity_txns-HasLending :
      (amount : ℕ) (key owner : K) (arg : ObligationArg K D)
      → Ensures
          (HasLending 1)
          (build_deposit_reserve_liquidity_txns load m amount key owner arg opts)
  unfolding build_deposit_reserve_liquidity_txns
  build_deposit_reserve_liquidity_txns-HasLending amount key owner arg =
      Ensures-bind (started load m mint amount key owner arg owner opts none) _
        (started-HasLending load m mint amount key owner arg owner opts none)
        λ a has.
          Ensures-ok _ (cleaned-HasLending _ (add_deposit_reserve_liquidity_ix-HasLending a has))

  -- If the builder of a redemption of reserve collateral returns, the action has exactly one lending
  -- instruction, and each of its seven queues has one label for each instruction.
  pub build_redeem_reserve_collateral_txns-HasLending :
      (amount : ℕ) (key owner : K) (arg : ObligationArg K D)
      → Ensures
          (HasLending 1)
          (build_redeem_reserve_collateral_txns load m amount key owner arg opts)
  unfolding build_redeem_reserve_collateral_txns
  build_redeem_reserve_collateral_txns-HasLending amount key owner arg =
      Ensures-bind (started load m redeem amount key owner arg owner opts none) _
        (started-HasLending load m redeem amount key owner arg owner opts none)
        λ a has.
          Ensures-ok _ (cleaned-HasLending _ (add_redeem_reserve_collateral_ix-HasLending a has))

  -- If the builder of a deposit of obligation collateral returns, the action has exactly one lending
  -- instruction, and each of its seven queues has one label for each instruction.
  pub build_deposit_obligation_collateral_txns-HasLending :
      (amount : ℕ) (key owner : K) (arg : ObligationArg K D)
      → Ensures
          (HasLending 1)
          (build_deposit_obligation_collateral_txns load m amount key owner arg opts)
  unfolding build_deposit_obligation_collateral_txns
  build_deposit_obligation_collateral_txns-HasLending amount key owner arg =
      Ensures-bind (started load m deposit_collateral amount key owner arg owner opts none) _
        (started-HasLending load m deposit_collateral amount key owner arg owner opts none)
        λ a has.
          Ensures-ok _
            (cleaned-HasLending _ (add_deposit_obligation_collateral_ix-HasLending a has))
