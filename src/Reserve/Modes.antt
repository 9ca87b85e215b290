-- ===== src/Reserve/Modes.antt =====
-- The modes of an update of a reserve's configuration: the classes of
-- src/idl_codegen/types/UpdateConfigMode.ts with their discriminators and kinds.
pub mod Encodable
pub mod Decoding
pub mod Codes
use Prim.Native.String.{String}
use klend_sdk.Prelude.{ℕ}

-- One constructor for each class, in the order of the file.
pub data UpdateConfigMode : Type 0 where
  update_loan_to_value_pct : UpdateConfigMode
  update_max_liquidation_bonus_bps : UpdateConfigMode
  update_liquidation_threshold_pct : UpdateConfigMode
  update_protocol_liquidation_fee : UpdateConfigMode
  update_protocol_take_rate : UpdateConfigMode
  update_fees_borrow_fee : UpdateConfigMode
  update_fees_flash_loan_fee : UpdateConfigMode
  update_fees_referral_fee_bps : UpdateConfigMode
  update_deposit_limit : UpdateConfigMode
  update_borrow_limit : UpdateConfigMode
  update_token_info_lower_heuristic : UpdateConfigMode
  update_token_info_upper_heuristic : UpdateConfigMode
  update_token_info_exp_heuristic : UpdateConfigMode
  update_token_info_twap_divergence : UpdateConfigMode
  update_token_info_scope_twap : UpdateConfigMode
  update_token_info_scope_chain : UpdateConfigMode
  update_token_info_name : UpdateConfigMode
  update_token_info_price_max_age : UpdateConfigMode
  update_token_info_twap_max_age : UpdateConfigMode
  update_scope_price_feed : UpdateConfigMode
  update_pyth_price : UpdateConfigMode
  update_switchboard_feed : UpdateConfigMode
  update_switchboard_twap_feed : UpdateConfigMode
  update_borrow_rate_curve : UpdateConfigMode
  update_entire_reserve_config : UpdateConfigMode
  update_debt_withdrawal_cap : UpdateConfigMode
  update_deposit_withdrawal_cap : UpdateConfigMode
  update_debt_withdrawal_cap_current_total : UpdateConfigMode
  update_deposit_withdrawal_cap_current_total : UpdateConfigMode
  update_bad_debt_liquidation_bonus_bps : UpdateConfigMode
  update_min_liquidation_bonus_bps : UpdateConfigMode
  deleveraging_margin_call_period : UpdateConfigMode
  update_borrow_factor : UpdateConfigMode
  update_asset_tier : UpdateConfigMode
  update_elevation_group : UpdateConfigMode
  deleveraging_threshold_slots_per_bps : UpdateConfigMode
  deprecated_update_multiplier_side_boost : UpdateConfigMode
  deprecated_update_multiplier_tag_boost : UpdateConfigMode
  update_reserve_status : UpdateConfigMode
  update_farm_collateral : UpdateConfigMode
  update_farm_debt : UpdateConfigMode
  update_disable_usage_as_collateral_outside_emode : UpdateConfigMode
  update_block_borrowing_above_utilization : UpdateConfigMode
  update_block_price_usage : UpdateConfigMode
  update_borrow_limit_outside_elevation_group : UpdateConfigMode
  update_borrow_limits_in_elevation_group_against_this_reserve : UpdateConfigMode
  update_host_fixed_interest_rate_bps : UpdateConfigMode

-- `static readonly discriminator`.
unfoldable pub discriminator : UpdateConfigMode → ℕ
discriminator update_loan_to_value_pct = 0
discriminator update_max_liquidation_bonus_bps = 1
discriminator update_liquidation_threshold_pct = 2
discriminator update_protocol_liquidation_fee = 3
discriminator update_protocol_take_rate = 4
discriminator update_fees_borrow_fee = 5
discriminator update_fees_flash_loan_fee = 6
discriminator update_fees_referral_fee_bps = 7
discriminator update_deposit_limit = 8
discriminator update_borrow_limit = 9
discriminator update_token_info_lower_heuristic = 10
discriminator update_token_info_upper_heuristic = 11
discriminator update_token_info_exp_heuristic = 12
discriminator update_token_info_twap_divergence = 13
discriminator update_token_info_scope_twap = 14
discriminator update_token_info_scope_chain = 15
discriminator update_token_info_name = 16
discriminator update_token_info_price_max_age = 17
discriminator update_token_info_twap_max_age = 18
discriminator update_scope_price_feed = 19
discriminator update_pyth_price = 20
discriminator update_switchboard_feed = 21
discriminator update_switchboard_twap_feed = 22
discriminator update_borrow_rate_curve = 23
discriminator update_entire_reserve_config = 24
discriminator update_debt_withdrawal_cap = 25
discriminator update_deposit_withdrawal_cap = 26
discriminator update_debt_withdrawal_cap_current_total = 27
discriminator update_deposit_withdrawal_cap_current_total = 28
discriminator update_bad_debt_liquidation_bonus_bps = 29
discriminator update_min_liquidation_bonus_bps = 30
discriminator deleveraging_margin_call_period = 31
discriminator update_borrow_factor = 32
discriminator update_asset_tier = 33
discriminator update_elevation_group = 34
discriminator deleveraging_threshold_slots_per_bps = 35
discriminator deprecated_update_multiplier_side_boost = 36
discriminator deprecated_update_multiplier_tag_boost = 37
discriminator update_reserve_status = 38
discriminator update_farm_collateral = 39
discriminator update_farm_debt = 40
discriminator update_disable_usage_as_collateral_outside_emode = 41
discriminator update_block_borrowing_above_utilization = 42
discriminator update_block_price_usage = 43
discriminator update_borrow_limit_outside_elevation_group = 44
discriminator update_borrow_limits_in_elevation_group_against_this_reserve = 45
discriminator update_host_fixed_interest_rate_bps = 46

-- `static readonly kind`, which is also the one key of `toEncodable` and the value of `toJSON`.
unfoldable pub kind : UpdateConfigMode → String
kind update_loan_to_value_pct = "UpdateLoanToValuePct"
kind update_max_liquidation_bonus_bps = "UpdateMaxLiquidationBonusBps"
kind update_liquidation_threshold_pct = "UpdateLiquidationThresholdPct"
kind update_protocol_liquidation_fee = "UpdateProtocolLiquidationFee"
kind update_protocol_take_rate = "UpdateProtocolTakeRate"
kind update_fees_borrow_fee = "UpdateFeesBorrowFee"
kind update_fees_flash_loan_fee = "UpdateFeesFlashLoanFee"
kind update_fees_referral_fee_bps = "UpdateFeesReferralFeeBps"
kind update_deposit_limit = "UpdateDepositLimit"
kind update_borrow_limit = "UpdateBorrowLimit"
kind update_token_info_lower_heuristic = "UpdateTokenInfoLowerHeuristic"
kind update_token_info_upper_heuristic = "UpdateTokenInfoUpperHeuristic"
kind update_token_info_exp_heuristic = "UpdateTokenInfoExpHeuristic"
kind update_token_info_twap_divergence = "UpdateTokenInfoTwapDivergence"
kind update_token_info_scope_twap = "UpdateTokenInfoScopeTwap"
kind update_token_info_scope_chain = "UpdateTokenInfoScopeChain"
kind update_token_info_name = "UpdateTokenInfoName"
kind update_token_info_price_max_age = "UpdateTokenInfoPriceMaxAge"
kind update_token_info_twap_max_age = "UpdateTokenInfoTwapMaxAge"
kind update_scope_price_feed = "UpdateScopePriceFeed"
kind update_pyth_price = "UpdatePythPrice"
kind update_switchboard_feed = "UpdateSwitchboardFeed"
kind update_switchboard_twap_feed = "UpdateSwitchboardTwapFeed"
kind update_borrow_rate_curve = "UpdateBorrowRateCurve"
kind update_entire_reserve_config = "UpdateEntireReserveConfig"
kind update_debt_withdrawal_cap = "UpdateDebtWithdrawalCap"
kind update_deposit_withdrawal_cap = "UpdateDepositWithdrawalCap"
kind update_debt_withdrawal_cap_current_total = "UpdateDebtWithdrawalCapCurrentTotal"
kind update_deposit_withdrawal_cap_current_total = "UpdateDepositWithdrawalCapCurrentTotal"
kind update_bad_debt_liquidation_bonus_bps = "UpdateBadDebtLiquidationBonusBps"
kind update_min_liquidation_bonus_bps = "UpdateMinLiquidationBonusBps"
kind deleveraging_margin_call_period = "DeleveragingMarginCallPeriod"
kind update_borrow_factor = "UpdateBorrowFactor"
kind update_asset_tier = "UpdateAssetTier"
kind update_elevation_group = "UpdateElevationGroup"
kind deleveraging_threshold_slots_per_bps = "DeleveragingThresholdSlotsPerBps"
kind deprecated_update_multiplier_side_boost = "DeprecatedUpdateMultiplierSideBoost"
kind deprecated_update_multiplier_tag_boost = "DeprecatedUpdateMultiplierTagBoost"
kind update_reserve_status = "UpdateReserveStatus"
kind update_farm_collateral = "UpdateFarmCollateral"
kind update_farm_debt = "UpdateFarmDebt"
kind update_disable_usage_as_collateral_outside_emode = "UpdateDisableUsageAsCollateralOutsideEmode"
kind update_block_borrowing_above_utilization = "UpdateBlockBorrowingAboveUtilization"
kind update_block_price_usage = "UpdateBlockPriceUsage"
kind update_borrow_limit_outside_elevation_group = "UpdateBorrowLimitOutsideElevationGroup"
kind update_borrow_limits_in_elevation_group_against_this_reserve =
    "UpdateBorrowLimitsInElevationGroupAgainstThisReserve"
kind update_host_fixed_interest_rate_bps = "UpdateHostFixedInterestRateBps"
