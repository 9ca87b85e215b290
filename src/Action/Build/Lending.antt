-- ===== src/Action/Build/Lending.antt =====
-- The lending instructions that each step of src/classes/action.ts adds.
use klend_sdk.Prelude.{ℕ, suc, List, arith}
use klend_sdk.Prelude.Outcome.{or_throw}
use klend_sdk.Pubkey.Keys.{PublicKeys}
use klend_sdk.Action.Interfaces.{Web3, Decimals}
use klend_sdk.Action.State.{KaminoAction}
use klend_sdk.Action.Keys.{get_additional_deposit_reserves_list}
use klend_sdk.Action.Lending.{
  add_deposit_ix, add_deposit_reserve_liquidity_ix, add_redeem_reserve_collateral_ix,
  add_deposit_obligation_collateral_ix, add_borrow_ix, add_deposit_and_borrow_ix, add_repay_ix,
  add_withdraw_ix, add_repay_and_withdraw_ixs, add_liquidate_ix,
}
use klend_sdk.Action.Refresh.{add_refresh_farms_cleanup_txn_ixs_to_cleanup_ixs}
use klend_sdk.Action.Frame.{push_front-IsPaired, Supports}
use klend_sdk.Action.Frame.Steps.{loaded-Supports}
use klend_sdk.Action.Build.Ensures.{
  Ensures, Ensures-ok, Ensures-read, HasLending, Supports-HasLending, push_lending-HasLending,
}

module _ {K D : Type 0} where
  relisted-Supports :
      (ks : List K) (a : KaminoAction K D) → Supports a (record a { deposit_reserves = ks })
  relisted-Supports ks a = ground arith

module _ {K D : Type 0} ⦃p : PublicKeys K⦄ ⦃w : Web3 K⦄ where
  -- The farm refreshes kept for the clean-up come before it.
  pub cleaned-HasLending :
      {n : ℕ} (a : KaminoAction K D)
      → HasLending n a
      → HasLending n (add_refresh_farms_cleanup_txn_ixs_to_cleanup_ixs a)
  unfolding add_refresh_farms_cleanup_txn_ixs_to_cleanup_ixs
  cleaned-HasLending a h = record {
    counted = h.counted;
    labelled = record {
      setup_paired = h.labelled.setup_paired;
      in_between_paired = h.labelled.in_between_paired;
      lending_paired = h.labelled.lending_paired;
      cleanup_paired =
          push_front-IsPaired a.refresh_farms_cleanup_txn_ixs a.cleanup_ixs h.labelled.farms_paired
            h.labelled.cleanup_paired;
      pre_txn_paired = h.labelled.pre_txn_paired;
      post_txn_paired = h.labelled.post_txn_paired;
      farms_paired = h.labelled.farms_paired;
    };
  }

  loaded-HasLending :
      {n : ℕ} (a : KaminoAction K D)
      → HasLending n a
      → HasLending n (get_additional_deposit_reserves_list a)
  loaded-HasLending a h = Supports-HasLending (loaded-Supports a) h

  pub add_deposit_ix-HasLending :
      {n : ℕ} (a : KaminoAction K D) → HasLending n a → HasLending (suc n) (add_deposit_ix a)
  unfolding add_deposit_ix
  add_deposit_ix-HasLending a h = push_lending-HasLending _ _ a h

  pub add_deposit_reserve_liquidity_ix-HasLending :
      {n : ℕ} (a : KaminoAction K D)
      → HasLending n a
      → HasLending (suc n) (add_deposit_reserve_liquidity_ix a)
  unfolding add_deposit_reserve_liquidity_ix
  add_deposit_reserve_liquidity_ix-HasLending a h = push_lending-HasLending _ _ a h

  pub add_redeem_reserve_collateral_ix-HasLending :
      {n : ℕ} (a : KaminoAction K D)
      → HasLending n a
      → HasLending (suc n) (add_redeem_reserve_collateral_ix a)
  unfolding add_redeem_reserve_collateral_ix
  add_redeem_reserve_collateral_ix-HasLending a h = push_lending-HasLending _ _ a h

  pub add_deposit_obligation_collateral_ix-HasLending :
      {n : ℕ} (a : KaminoAction K D)
      → HasLending n a
      → HasLending (suc n) (add_deposit_obligation_collateral_ix a)
  unfolding add_deposit_obligation_collateral_ix
  add_deposit_obligation_collateral_ix-HasLending a h = push_lending-HasLending _ _ a h

  pub add_borrow_ix-HasLending :
      {n : ℕ} (a : KaminoAction K D)
      → HasLending n a
      → Ensures (HasLending (suc n)) (add_borrow_ix a)
  unfolding add_borrow_ix
  add_borrow_ix-HasLending a h = Ensures-read (or_throw a.obligation "TypeError") _ λ o.
      Ensures-ok _ (
        push_lending-HasLending _ _ (get_additional_deposit_reserves_list a)
          (loaded-HasLending a h))

  pub add_repay_ix-HasLending :
      {n : ℕ} (a : KaminoAction K D)
      → HasLending n a
      → Ensures (HasLending (suc n)) (add_repay_ix a)
  unfolding add_repay_ix
  add_repay_ix-HasLending a h = Ensures-read (or_throw a.obligation "TypeError") _ λ o.
      Ensures-ok _ (
        push_lending-HasLending _ _ (get_additional_deposit_reserves_list a)
          (loaded-HasLending a h))

  pub add_liquidate_ix-HasLending :
      {n : ℕ} (override : ℕ) (a : KaminoAction K D)
      → HasLending n a
      → Ensures (HasLending (suc n)) (add_liquidate_ix override a)
  unfolding add_liquidate_ix
  add_liquidate_ix-HasLending override a h =
      Ensures-read (or_throw a.outflow_reserve "Withdraw reserve during liquidation is not defined")
        _
        λ out.
          Ensures-read
            (or_throw a.additional_token_account_address
              "Liquidating token account address is not defined")
            _
            λ source. Ensures-read (or_throw a.obligation "TypeError") _ λ o. Ensures-ok _ (
              push_lending-HasLending _ _ (get_additional_deposit_reserves_list a)
                (loaded-HasLending a h))

  relisted-HasLending :
      {n : ℕ} (ks : List K) (a : KaminoAction K D)
      → HasLending n a
      → HasLending n (record a { deposit_reserves = ks })
  relisted-HasLending ks a h = Supports-HasLending (relisted-Supports ks a) h

  pub add_deposit_and_borrow_ix-HasLending :
      {n : ℕ} (a : KaminoAction K D)
      → HasLending n a
      → Ensures (HasLending (suc (suc n))) (add_deposit_and_borrow_ix a)
  unfolding add_deposit_and_borrow_ix
  add_deposit_and_borrow_ix-HasLending a h =
      Ensures-read (or_throw a.outflow_reserve "outflowReserve not set") _ λ out.
        Ensures-read
          (or_throw a.additional_token_account_address "additionalTokenAccountAddress not set") _
          λ account. Ensures-read (or_throw a.outflow_amount "outflowAmount not set") _ λ amount.
            Ensures-ok _ (
              push_lending-HasLending _ _ _ (
                relisted-HasLending _ _ (
                  push_lending-HasLending _ _ (get_additional_deposit_reserves_list a)
                    (loaded-HasLending a h))))

  module _ ⦃d : Decimals D⦄ where
    pub add_withdraw_ix-HasLending :
        {n : ℕ} (a : KaminoAction K D) → HasLending n a → HasLending (suc n) (add_withdraw_ix a)
    unfolding add_withdraw_ix
    add_withdraw_ix-HasLending a h = push_lending-HasLending _ _ a h

    pub add_repay_and_withdraw_ixs-HasLending :
        {n : ℕ} (a : KaminoAction K D)
        → HasLending n a
        → Ensures (HasLending (suc (suc n))) (add_repay_and_withdraw_ixs a)
    unfolding add_repay_and_withdraw_ixs
    add_repay_and_withdraw_ixs-HasLending a h =
        Ensures-read (or_throw a.outflow_reserve "outflowReserve not set") _ λ out.
          Ensures-read
            (or_throw a.additional_token_account_address "additionalTokenAccountAddress not set") _
            λ account. Ensures-read (or_throw a.outflow_amount "outflowAmount not set") _ λ amount.
              Ensures-ok _ (
                push_lending-HasLending _ _ _ (
                  push_lending-HasLending _ _ (get_additional_deposit_reserves_list a)
                    (loaded-HasLending a h)))
