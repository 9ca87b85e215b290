-- ===== src/Reserve/Modes/Encodable.antt =====
-- `toEncodable` and `toJSON` of the classes of src/idl_codegen/types/UpdateConfigMode.ts.
use Prim.Native.String.{String}
use klend_sdk.Prelude.{List, [], ◌∷◌}
use klend_sdk.Reserve.Modes.{
  UpdateConfigMode, update_loan_to_value_pct, update_max_liquidation_bonus_bps,
  update_liquidation_threshold_pct, update_protocol_liquidation_fee, update_protocol_take_rate,
  update_fees_borrow_fee, update_fees_flash_loan_fee, update_fees_referral_fee_bps,
  update_deposit_limit, update_borrow_limit, update_token_info_lower_heuristic,
  update_token_info_upper_heuristic, update_token_info_exp_heuristic,
  update_token_info_twap_divergence, update_token_info_scope_twap, update_token_info_scope_chain,
  update_token_info_name, update_token_info_price_max_age, update_token_info_twap_max_age,
  update_scope_price_feed, update_pyth_price, update_switchboard_feed, update_switchboard_twap_feed,
  update_borrow_rate_curve, update_entire_reserve_config, update_debt_withdrawal_cap,
  update_deposit_withdrawal_cap, update_debt_withdrawal_cap_current_total,
  update_deposit_withdrawal_cap_current_total, update_bad_debt_liquidation_bonus_bps,
  update_min_liquidation_bonus_bps, deleveraging_margin_call_period, update_borrow_factor,
  update_asset_tier, update_elevation_group, deleveraging_threshold_slots_per_bps,
  deprecated_update_multiplier_side_boost, deprecated_update_multiplier_tag_boost,
  update_reserve_status, update_farm_collateral, update_farm_debt,
  update_disable_usage_as_collateral_outside_emode, update_block_borrowing_above_utilization,
  update_block_price_usage, update_borrow_limit_outside_elevation_group,
  update_borrow_limits_in_elevation_group_against_this_reserve, update_host_fixed_interest_rate_bps,
}

-- The keys of the object.
unfoldable pub to_encodable : UpdateConfigMode → List String
to_encodable update_loan_to_value_pct = "UpdateLoanToValuePct" ∷ []
to_encodable update_max_liquidation_bonus_bps = "UpdateMaxLiquidationBonusBps" ∷ []
to_encodable update_liquidation_threshold_pct = "UpdateLiquidationThresholdPct" ∷ []
to_encodable update_protocol_liquidation_fee = "UpdateProtocolLiquidationFee" ∷ []
to_encodable update_protocol_take_rate = "UpdateProtocolTakeRate" ∷ []
to_encodable update_fees_borrow_fee = "UpdateFeesBorrowFee" ∷ []
to_encodable update_fees_flash_loan_fee = "UpdateFeesFlashLoanFee" ∷ []
to_encodable update_fees_referral_fee_bps = "UpdateFeesReferralFeeBps" ∷ []
to_encodable update_deposit_limit = "UpdateDepositLimit" ∷ []
to_encodable update_borrow_limit = "UpdateBorrowLimit" ∷ []
to_encodable update_token_info_lower_heuristic = "UpdateTokenInfoLowerHeuristic" ∷ []
to_encodable update_token_info_upper_heuristic = "UpdateTokenInfoUpperHeuristic" ∷ []
to_encodable update_token_info_exp_heuristic = "UpdateTokenInfoExpHeuristic" ∷ []
to_encodable update_token_info_twap_divergence = "UpdateTokenInfoTwapDivergence" ∷ []
to_encodable update_token_info_scope_twap = "UpdateTokenInfoScopeTwap" ∷ []
to_encodable update_token_info_scope_chain = "UpdateTokenInfoScopeChain" ∷ []
to_encodable update_token_info_name = "UpdateTokenInfoName" ∷ []
to_encodable update_token_info_price_max_age = "UpdateTokenInfoPriceMaxAge" ∷ []
to_encodable update_token_info_twap_max_age = "UpdateTokenInfoTwapMaxAge" ∷ []
to_encodable update_scope_price_feed = "UpdateScopePriceFeed" ∷ []
to_encodable update_pyth_price = "UpdatePythPrice" ∷ []
to_encodable update_switchboard_feed = "UpdateSwitchboardFeed" ∷ []
to_encodable update_switchboard_twap_feed = "UpdateSwitchboardTwapFeed" ∷ []
to_encodable update_borrow_rate_curve = "UpdateBorrowRateCurve" ∷ []
to_encodable update_entire_reserve_config = "UpdateEntireReserveConfig" ∷ []
to_encodable update_debt_withdrawal_cap = "UpdateDebtWithdrawalCap" ∷ []
to_encodable update_deposit_withdrawal_cap = "UpdateDepositWithdrawalCap" ∷ []
to_encodable update_debt_withdrawal_cap_current_total = "UpdateDebtWithdrawalCapCurrentTotal" ∷ []
to_encodable update_deposit_withdrawal_cap_current_total =
    "UpdateDepositWithdrawalCapCurrentTotal" ∷ []
to_encodable update_bad_debt_liquidation_bonus_bps = "UpdateBadDebtLiquidationBonusBps" ∷ []
to_encodable update_min_liquidation_bonus_bps = "UpdateMinLiquidationBonusBps" ∷ []
to_encodable deleveraging_margin_call_period = "DeleveragingMarginCallPeriod" ∷ []
to_encodable update_borrow_factor = "UpdateBorrowFactor" ∷ []
to_encodable update_asset_tier = "UpdateAssetTier" ∷ []
to_encodable update_elevation_group = "UpdateElevationGroup" ∷ []
to_encodable deleveraging_threshold_slots_per_bps = "DeleveragingThresholdSlotsPerBps" ∷ []
to_encodable deprecated_update_multiplier_side_boost = "DeprecatedUpdateMultiplierSideBoost" ∷ []
to_encodable deprecated_update_multiplier_tag_boost = "DeprecatedUpdateMultiplierTagBoost" ∷ []
to_encodable update_reserve_status = "UpdateReserveStatus" ∷ []
to_encodable update_farm_collateral = "UpdateFarmCollateral" ∷ []
to_encodable update_farm_debt = "UpdateFarmDebt" ∷ []
to_encodable update_disable_usage_as_collateral_outside_emode =
    "UpdateDisableUsageAsCollateralOutsideEmode" ∷ []
to_encodable update_block_borrowing_above_utilization = "UpdateBlockBorrowingAboveUtilization" ∷ []
to_encodable update_block_price_usage = "UpdateBlockPriceUsage" ∷ []
to_encodable update_borrow_limit_outside_elevation_group =
    "UpdateBorrowLimitOutsideElevationGroup" ∷ []
to_encodable update_borrow_limits_in_elevation_group_against_this_reserve =
    "UpdateBorrowLimitsInElevationGroupAgainstThisReserve" ∷ []
to_encodable update_host_fixed_interest_rate_bps = "UpdateHostFixedInterestRateBps" ∷ []

-- The `kind` of the object.
unfoldable pub to_json : UpdateConfigMode → String
to_json update_loan_to_value_pct = "UpdateLoanToValuePct"
to_json update_max_liquidation_bonus_bps = "UpdateMaxLiquidationBonusBps"
to_json update_liquidation_threshold_pct = "UpdateLiquidationThresholdPct"
to_json update_protocol_liquidation_fee = "UpdateProtocolLiquidationFee"
to_json update_protocol_take_rate = "UpdateProtocolTakeRate"
to_json update_fees_borrow_fee = "UpdateFeesBorrowFee"
to_json update_fees_flash_loan_fee = "UpdateFeesFlashLoanFee"
to_json update_fees_referral_fee_bps = "UpdateFeesReferralFeeBps"
to_json update_deposit_limit = "UpdateDepositLimit"
to_json update_borrow_limit = "UpdateBorrowLimit"
to_json update_token_info_lower_heuristic = "UpdateTokenInfoLowerHeuristic"
to_json update_token_info_upper_heuristic = "UpdateTokenInfoUpperHeuristic"
to_json update_token_info_exp_heuristic = "UpdateTokenInfoExpHeuristic"
to_json update_token_info_twap_divergence = "UpdateTokenInfoTwapDivergence"
to_json update_token_info_scope_twap = "UpdateTokenInfoScopeTwap"
to_json update_token_info_scope_chain = "UpdateTokenInfoScopeChain"
to_json update_token_info_name = "UpdateTokenInfoName"
to_json update_token_info_price_max_age = "UpdateTokenInfoPriceMaxAge"
to_json update_token_info_twap_max_age = "UpdateTokenInfoTwapMaxAge"
to_json update_scope_price_feed = "UpdateScopePriceFeed"
to_json update_pyth_price = "UpdatePythPrice"
to_json update_switchboard_feed = "UpdateSwitchboardFeed"
to_json update_switchboard_twap_feed = "UpdateSwitchboardTwapFeed"
to_json update_borrow_rate_curve = "UpdateBorrowRateCurve"
to_json update_entire_reserve_config = "UpdateEntireReserveConfig"
to_json update_debt_withdrawal_cap = "UpdateDebtWithdrawalCap"
to_json update_deposit_withdrawal_cap = "UpdateDepositWithdrawalCap"
to_json update_debt_withdrawal_cap_current_total = "UpdateDebtWithdrawalCapCurrentTotal"
to_json update_deposit_withdrawal_cap_current_total = "UpdateDepositWithdrawalCapCurrentTotal"
to_json update_bad_debt_liquidation_bonus_bps = "UpdateBadDebtLiquidationBonusBps"
to_json update_min_liquidation_bonus_bps = "UpdateMinLiquidationBonusBps"
to_json deleveraging_margin_call_period = "DeleveragingMarginCallPeriod"
to_json update_borrow_factor = "UpdateBorrowFactor"
to_json update_asset_tier = "UpdateAssetTier"
to_json update_elevation_group = "UpdateElevationGroup"
to_json deleveraging_threshold_slots_per_bps = "DeleveragingThresholdSlotsPerBps"
to_json deprecated_update_multiplier_side_boost = "DeprecatedUpdateMultiplierSideBoost"
to_json deprecated_update_multiplier_tag_boost = "DeprecatedUpdateMultiplierTagBoost"
to_json update_reserve_status = "UpdateReserveStatus"
to_json update_farm_collateral = "UpdateFarmCollateral"
to_json update_farm_debt = "UpdateFarmDebt"
to_json update_disable_usage_as_collateral_outside_emode =
    "UpdateDisableUsageAsCollateralOutsideEmode"
to_json update_block_borrowing_above_utilization = "UpdateBlockBorrowingAboveUtilization"
to_json update_block_price_usage = "UpdateBlockPriceUsage"
to_json update_borrow_limit_outside_elevation_group = "UpdateBorrowLimitOutsideElevationGroup"
to_json update_borrow_limits_in_elevation_group_against_this_reserve =
    "UpdateBorrowLimitsInElevationGroupAgainstThisReserve"
to_json update_host_fixed_interest_rate_bps = "UpdateHostFixedInterestRateBps"
