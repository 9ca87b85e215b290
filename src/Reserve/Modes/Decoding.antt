-- ===== src/Reserve/Modes/Decoding.antt =====
-- `fromDecoded` and `fromJSON` of src/idl_codegen/types/UpdateConfigMode.ts, test by test.
use Prim.Native.String.{String}
use text.Mathlib.Text.{◌==◌}
use klend_sdk.Prelude.{List, Bool, Option, none, some, any, if◌then◌else◌}
use klend_sdk.Prelude.Outcome.{Outcome, ok, error}
use klend_sdk.Reserve.Modes.{
  UpdateConfigMode, update_loan_to_value_pct, update_max_liquidation_bonus_bps,
  update_liquidation_threshold_pct, update_protocol_liquidation_fee, update_protocol_take_rate,
  update_fees_borrow_fee, update_fees_flash_loan_fee, update_fees_referral_fee_bps,
  update_deposit_limit, update_borrow_limit, update_token_info_lower_heuristic,
  update_token_info_upper_heuristic, update_token_info_exp_heuristic,
  update_token_info_twap_divergence, update_token_info_scope_twap, update_token_info_scope_chain,
  update_token_info_name, update_token_info_price_max_age, update_token_info_twap_max_age,
  update_scope_price_feed, update_pyth_price, update_switchboard_feed, update_switchboard_twap_feed,
  update_borrow_rate_curve, update_entire_reserve_config, update_debt_withdrawal_cap,
  update_deposit_withdrawal_cap, update_debt_withdrawal_cap_current_total,
  update_deposit_withdrawal_cap_current_total, update_bad_debt_liquidation_bonus_bps,
  update_min_liquidation_bonus_bps, deleveraging_margin_call_period, update_borrow_factor,
  update_asset_tier, update_elevation_group, deleveraging_threshold_slots_per_bps,
  deprecated_update_multiplier_side_boost, deprecated_update_multiplier_tag_boost,
  update_reserve_status, update_farm_collateral, update_farm_debt,
  update_disable_usage_as_collateral_outside_emode, update_block_borrowing_above_utilization,
  update_block_price_usage, update_borrow_limit_outside_elevation_group,
  update_borrow_limits_in_elevation_group_against_this_reserve, update_host_fixed_interest_rate_bps,
}

-- `name in obj`, for an object with the given keys.
abbrev pub has_key : String → List String → Bool
has_key name keys = any (λ k. k == name) keys

-- `none` is a value that is no object.
unfoldable pub from_decoded : Option (List String) → Outcome UpdateConfigMode
from_decoded none = error "Invalid enum object"
from_decoded (some keys) =
    if has_key "UpdateLoanToValuePct" keys
    then ok update_loan_to_value_pct
    else if has_key "UpdateMaxLiquidationBonusBps" keys
    then ok update_max_liquidation_bonus_bps
    else if has_key "UpdateLiquidationThresholdPct" keys
    then ok update_liquidation_threshold_pct
    else if has_key "UpdateProtocolLiquidationFee" keys
    then ok update_protocol_liquidation_fee
    else if has_key "UpdateProtocolTakeRate" keys
    then ok update_protocol_take_rate
    else if has_key "UpdateFeesBorrowFee" keys
    then ok update_fees_borrow_fee
    else if has_key "UpdateFeesFlashLoanFee" keys
    then ok update_fees_flash_loan_fee
    else if has_key "UpdateFeesReferralFeeBps" keys
    then ok update_fees_referral_fee_bps
    else if has_key "UpdateDepositLimit" keys
    then ok update_deposit_limit
    else if has_key "UpdateBorrowLimit" keys
    then ok update_borrow_limit
    else if has_key "UpdateTokenInfoLowerHeuristic" keys
    then ok update_token_info_lower_heuristic
    else if has_key "UpdateTokenInfoUpperHeuristic" keys
    then ok update_token_info_upper_heuristic
    else if has_key "UpdateTokenInfoExpHeuristic" keys
    then ok update_token_info_exp_heuristic
    else if has_key "UpdateTokenInfoTwapDivergence" keys
    then ok update_token_info_twap_divergence
    else if has_key "UpdateTokenInfoScopeTwap" keys
    then ok update_token_info_scope_twap
    else if has_key "UpdateTokenInfoScopeChain" keys
    then ok update_token_info_scope_chain
    else if has_key "UpdateTokenInfoName" keys
    then ok update_token_info_name
    else if has_key "UpdateTokenInfoPriceMaxAge" keys
    then ok update_token_info_price_max_age
    else if has_key "UpdateTokenInfoTwapMaxAge" keys
    then ok update_token_info_twap_max_age
    else if has_key "UpdateScopePriceFeed" keys
    then ok update_scope_price_feed
    else if has_key "UpdatePythPrice" keys
    then ok update_pyth_price
    else if has_key "UpdateSwitchboardFeed" keys
    then ok update_switchboard_feed
    else if has_key "UpdateSwitchboardTwapFeed" keys
    then ok update_switchboard_twap_feed
    else if has_key "UpdateBorrowRateCurve" keys
    then ok update_borrow_rate_curve
    else if has_key "UpdateEntireReserveConfig" keys
    then ok update_entire_reserve_config
    else if has_key "UpdateDebtWithdrawalCap" keys
    then ok update_debt_withdrawal_cap
    else if has_key "UpdateDepositWithdrawalCap" keys
    then ok update_deposit_withdrawal_cap
    else if has_key "UpdateDebtWithdrawalCapCurrentTotal" keys
    then ok update_debt_withdrawal_cap_current_total
    else if has_key "UpdateDepositWithdrawalCapCurrentTotal" keys
    then ok update_deposit_withdrawal_cap_current_total
    else if has_key "UpdateBadDebtLiquidationBonusBps" keys
    then ok update_bad_debt_liquidation_bonus_bps
    else if has_key "UpdateMinLiquidationBonusBps" keys
    then ok update_min_liquidation_bonus_bps
    else if has_key "DeleveragingMarginCallPeriod" keys
    then ok deleveraging_margin_call_period
    else if has_key "UpdateBorrowFactor" keys
    then ok update_borrow_factor
    else if has_key "UpdateAssetTier" keys
    then ok update_asset_tier
    else if has_key "UpdateElevationGroup" keys
    then ok update_elevation_group
    else if has_key "DeleveragingThresholdSlotsPerBps" keys
    then ok deleveraging_threshold_slots_per_bps
    else if has_key "DeprecatedUpdateMultiplierSideBoost" keys
    then ok deprecated_update_multiplier_side_boost
    else if has_key "DeprecatedUpdateMultiplierTagBoost" keys
    then ok deprecated_update_multiplier_tag_boost
    else if has_key "UpdateReserveStatus" keys
    then ok update_reserve_status
    else if has_key "UpdateFarmCollateral" keys
    then ok update_farm_collateral
    else if has_key "UpdateFarmDebt" keys
    then ok update_farm_debt
    else if has_key "UpdateDisableUsageAsCollateralOutsideEmode" keys
    then ok update_disable_usage_as_collateral_outside_emode
    else if has_key "UpdateBlockBorrowingAboveUtilization" keys
    then ok update_block_borrowing_above_utilization
    else if has_key "UpdateBlockPriceUsage" keys
    then ok update_block_price_usage
    else if has_key "UpdateBorrowLimitOutsideElevationGroup" keys
    then ok update_borrow_limit_outside_elevation_group
    else if has_key "UpdateBorrowLimitsInElevationGroupAgainstThisReserve" keys
    then ok update_borrow_limits_in_elevation_group_against_this_reserve
    else if has_key "UpdateHostFixedInterestRateBps" keys
    then ok update_host_fixed_interest_rate_bps
    else error "Invalid enum object"

-- `none` is the `undefined` of a switch without a case that fits.
unfoldable pub from_json : String → Option UpdateConfigMode
from_json text =
    if text == "UpdateLoanToValuePct"
    then some update_loan_to_value_pct
    else if text == "UpdateMaxLiquidationBonusBps"
    then some update_max_liquidation_bonus_bps
    else if text == "UpdateLiquidationThresholdPct"
    then some update_liquidation_threshold_pct
    else if text == "UpdateProtocolLiquidationFee"
    then some update_protocol_liquidation_fee
    else if text == "UpdateProtocolTakeRate"
    then some update_protocol_take_rate
    else if text == "UpdateFeesBorrowFee"
    then some update_fees_borrow_fee
    else if text == "UpdateFeesFlashLoanFee"
    then some update_fees_flash_loan_fee
    else if text == "UpdateFeesReferralFeeBps"
    then some update_fees_referral_fee_bps
    else if text == "UpdateDepositLimit"
    then some update_deposit_limit
    else if text == "UpdateBorrowLimit"
    then some update_borrow_limit
    else if text == "UpdateTokenInfoLowerHeuristic"
    then some update_token_info_lower_heuristic
    else if text == "UpdateTokenInfoUpperHeuristic"
    then some update_token_info_upper_heuristic
    else if text == "UpdateTokenInfoExpHeuristic"
    then some update_token_info_exp_heuristic
    else if text == "UpdateTokenInfoTwapDivergence"
    then some update_token_info_twap_divergence
    else if text == "UpdateTokenInfoScopeTwap"
    then some update_token_info_scope_twap
    else if text == "UpdateTokenInfoScopeChain"
    then some update_token_info_scope_chain
    else if text == "UpdateTokenInfoName"
    then some update_token_info_name
    else if text == "UpdateTokenInfoPriceMaxAge"
    then some update_token_info_price_max_age
    else if text == "UpdateTokenInfoTwapMaxAge"
    then some update_token_info_twap_max_age
    else if text == "UpdateScopePriceFeed"
    then some update_scope_price_feed
    else if text == "UpdatePythPrice"
    then some update_pyth_price
    else if text == "UpdateSwitchboardFeed"
    then some update_switchboard_feed
    else if text == "UpdateSwitchboardTwapFeed"
    then some update_switchboard_twap_feed
    else if text == "UpdateBorrowRateCurve"
    then some update_borrow_rate_curve
    else if text == "UpdateEntireReserveConfig"
    then some update_entire_reserve_config
    else if text == "UpdateDebtWithdrawalCap"
    then some update_debt_withdrawal_cap
    else if text == "UpdateDepositWithdrawalCap"
    then some update_deposit_withdrawal_cap
    else if text == "UpdateDebtWithdrawalCapCurrentTotal"
    then some update_debt_withdrawal_cap_current_total
    else if text == "UpdateDepositWithdrawalCapCurrentTotal"
    then some update_deposit_withdrawal_cap_current_total
    else if text == "UpdateBadDebtLiquidationBonusBps"
    then some update_bad_debt_liquidation_bonus_bps
    else if text == "UpdateMinLiquidationBonusBps"
    then some update_min_liquidation_bonus_bps
    else if text == "DeleveragingMarginCallPeriod"
    then some deleveraging_margin_call_period
    else if text == "UpdateBorrowFactor"
    then some update_borrow_factor
    else if text == "UpdateAssetTier"
    then some update_asset_tier
    else if text == "UpdateElevationGroup"
    then some update_elevation_group
    else if text == "DeleveragingThresholdSlotsPerBps"
    then some deleveraging_threshold_slots_per_bps
    else if text == "DeprecatedUpdateMultiplierSideBoost"
    then some deprecated_update_multiplier_side_boost
    else if text == "DeprecatedUpdateMultiplierTagBoost"
    then some deprecated_update_multiplier_tag_boost
    else if text == "UpdateReserveStatus"
    then some update_reserve_status
    else if text == "UpdateFarmCollateral"
    then some update_farm_collateral
    else if text == "UpdateFarmDebt"
    then some update_farm_debt
    else if text == "UpdateDisableUsageAsCollateralOutsideEmode"
    then some update_disable_usage_as_collateral_outside_emode
    else if text == "UpdateBlockBorrowingAboveUtilization"
    then some update_block_borrowing_above_utilization
    else if text == "UpdateBlockPriceUsage"
    then some update_block_price_usage
    else if text == "UpdateBorrowLimitOutsideElevationGroup"
    then some update_borrow_limit_outside_elevation_group
    else if text == "UpdateBorrowLimitsInElevationGroupAgainstThisReserve"
    then some update_borrow_limits_in_elevation_group_against_this_reserve
    else if text == "UpdateHostFixedInterestRateBps"
    then some update_host_fixed_interest_rate_bps
    else none
