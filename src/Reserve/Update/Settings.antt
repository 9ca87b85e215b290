-- ===== src/Reserve/Update/Settings.antt =====
-- A description of the settings that `parseForChangesReserveConfigAndGetIxs` of
-- src/classes/reserve.ts updates: where the configuration holds each of them, and which instructions
-- take one configuration to another.
use klend_sdk.Prelude.{List, [], ◌∷◌}
use klend_sdk.Reserve.Data.{ReserveConfig, WithdrawalCaps}
use klend_sdk.Reserve.Modes.{UpdateConfigMode}
use klend_sdk.Reserve.Modes
use klend_sdk.Reserve.Encode.{Value, number, numbers, curve, public_key}
use klend_sdk.Reserve.Update.{ConfigKey}
use klend_sdk.Reserve.Update

abbrev cap_value : {K : Type 0} → WithdrawalCaps → Value K
cap_value c = numbers (c.config_capacity ∷ c.config_interval_length_seconds ∷ [])

module _ {K : Type 0} where
  -- What the configuration holds for a mode.
  unfoldable pub held : UpdateConfigMode → ReserveConfig K → Value K
  held Modes.update_reserve_status c = number c.status
  held Modes.update_asset_tier c = number c.asset_tier
  held Modes.update_protocol_take_rate c = number c.protocol_take_rate_pct
  held Modes.update_protocol_liquidation_fee c = number c.protocol_liquidation_fee_pct
  held Modes.update_loan_to_value_pct c = number c.loan_to_value_pct
  held Modes.update_liquidation_threshold_pct c = number c.liquidation_threshold_pct
  held Modes.update_min_liquidation_bonus_bps c = number c.min_liquidation_bonus_bps
  held Modes.update_max_liquidation_bonus_bps c = number c.max_liquidation_bonus_bps
  held Modes.update_bad_debt_liquidation_bonus_bps c = number c.bad_debt_liquidation_bonus_bps
  held Modes.deleveraging_margin_call_period c = number c.deleveraging_margin_call_period_secs
  held Modes.deleveraging_threshold_slots_per_bps c = number c.deleveraging_threshold_slots_per_bps
  held Modes.update_fees_borrow_fee c = number c.fees.borrow_fee_sf
  held Modes.update_fees_flash_loan_fee c = number c.fees.flash_loan_fee_sf
  held Modes.update_borrow_rate_curve c = curve c.borrow_rate_curve
  held Modes.update_borrow_factor c = number c.borrow_factor_pct
  held Modes.update_deposit_limit c = number c.deposit_limit
  held Modes.update_borrow_limit c = number c.borrow_limit
  held Modes.update_token_info_name c = numbers c.token_info.name
  held Modes.update_token_info_lower_heuristic c = number c.token_info.heuristic.lower
  held Modes.update_token_info_upper_heuristic c = number c.token_info.heuristic.upper
  held Modes.update_token_info_exp_heuristic c = number c.token_info.heuristic.exp
  held Modes.update_token_info_twap_divergence c = number c.token_info.max_twap_divergence_bps
  held Modes.update_token_info_price_max_age c = number c.token_info.max_age_price_seconds
  held Modes.update_token_info_twap_max_age c = number c.token_info.max_age_twap_seconds
  held Modes.update_token_info_scope_chain c = numbers c.token_info.scope_configuration.price_chain
  held Modes.update_token_info_scope_twap c = numbers c.token_info.scope_configuration.twap_chain
  held Modes.update_scope_price_feed c = public_key c.token_info.scope_configuration.price_feed
  held Modes.update_switchboard_feed c =
      public_key c.token_info.switchboard_configuration.price_aggregator
  held Modes.update_switchboard_twap_feed c =
      public_key c.token_info.switchboard_configuration.twap_aggregator
  held Modes.update_pyth_price c = public_key c.token_info.pyth_configuration.price
  held Modes.update_block_price_usage c = number c.token_info.block_price_usage
  held Modes.update_deposit_withdrawal_cap c = cap_value c.deposit_withdrawal_cap
  held Modes.update_debt_withdrawal_cap c = cap_value c.debt_withdrawal_cap
  held Modes.update_elevation_group c = numbers c.elevation_groups
  held Modes.update_disable_usage_as_collateral_outside_emode c =
      number c.disable_usage_as_coll_outside_emode
  held Modes.update_block_borrowing_above_utilization c =
      number c.utilization_limit_block_borrowing_above
  held _ c = numbers []

-- The modes of each key, in the order in which the code goes through them.
unfoldable pub modes_of : ConfigKey → List UpdateConfigMode
modes_of Update.status = Modes.update_reserve_status ∷ []
modes_of Update.asset_tier = Modes.update_asset_tier ∷ []
modes_of Update.protocol_take_rate_pct = Modes.update_protocol_take_rate ∷ []
modes_of Update.protocol_liquidation_fee_pct = Modes.update_protocol_liquidation_fee ∷ []
modes_of Update.loan_to_value_pct = Modes.update_loan_to_value_pct ∷ []
modes_of Update.liquidation_threshold_pct = Modes.update_liquidation_threshold_pct ∷ []
modes_of Update.min_liquidation_bonus_bps = Modes.update_min_liquidation_bonus_bps ∷ []
modes_of Update.max_liquidation_bonus_bps = Modes.update_max_liquidation_bonus_bps ∷ []
modes_of Update.bad_debt_liquidation_bonus_bps = Modes.update_bad_debt_liquidation_bonus_bps ∷ []
modes_of Update.deleveraging_margin_call_period_secs = Modes.deleveraging_margin_call_period ∷ []
modes_of Update.deleveraging_threshold_slots_per_bps =
    Modes.deleveraging_threshold_slots_per_bps ∷ []
modes_of Update.fees = Modes.update_fees_borrow_fee ∷ Modes.update_fees_flash_loan_fee ∷ []
modes_of Update.borrow_rate_curve = Modes.update_borrow_rate_curve ∷ []
modes_of Update.borrow_factor_pct = Modes.update_borrow_factor ∷ []
modes_of Update.deposit_limit = Modes.update_deposit_limit ∷ []
modes_of Update.borrow_limit = Modes.update_borrow_limit ∷ []
modes_of Update.token_info =
    Modes.update_token_info_name ∷ Modes.update_token_info_lower_heuristic
    ∷ Modes.update_token_info_upper_heuristic ∷ Modes.update_token_info_exp_heuristic
    ∷ Modes.update_token_info_twap_divergence ∷ Modes.update_token_info_price_max_age
    ∷ Modes.update_token_info_twap_max_age ∷ Modes.update_token_info_scope_chain
    ∷ Modes.update_token_info_scope_twap ∷ Modes.update_switchboard_feed
    ∷ Modes.update_switchboard_twap_feed ∷ Modes.update_pyth_price ∷ Modes.update_block_price_usage
    ∷ Modes.update_scope_price_feed ∷ []
modes_of Update.deposit_withdrawal_cap = Modes.update_deposit_withdrawal_cap ∷ []
modes_of Update.debt_withdrawal_cap = Modes.update_debt_withdrawal_cap ∷ []
modes_of Update.elevation_groups = Modes.update_elevation_group ∷ []
modes_of Update.disable_usage_as_coll_outside_emode =
    Modes.update_disable_usage_as_collateral_outside_emode ∷ []
modes_of Update.utilization_limit_block_borrowing_above =
    Modes.update_block_borrowing_above_utilization ∷ []
modes_of _ = []
