-- ===== src/Reserve/Change/Plain.antt =====
-- The branches of `parseForChangesReserveConfigAndGetIxs` of src/classes/reserve.ts for the keys that
-- hold one number: an update without a reserve, or if the number changes.
use klend_sdk.Prelude.{Option, none, some, ◌==◌}
use klend_sdk.Prelude.Outcome.{ok}
use klend_sdk.Reserve.Data.{ReserveConfig}
use klend_sdk.Reserve.Interfaces.{Codecs}
use klend_sdk.Reserve.Modes
use klend_sdk.Reserve.Encode.{number}
use klend_sdk.Reserve.Change.{Changes, unless, change, bn}

module _ {K : Type 0} (codecs : Codecs K) where
  unfoldable pub deposit_limit_changes : Option (ReserveConfig K) → ReserveConfig K → Changes
  deposit_limit_changes none new =
      change codecs Modes.update_deposit_limit (bn codecs new.deposit_limit)
  deposit_limit_changes (some old) new =
      unless (old.deposit_limit == new.deposit_limit)
        (change codecs Modes.update_deposit_limit (bn codecs new.deposit_limit))

  unfoldable pub borrow_limit_changes : Option (ReserveConfig K) → ReserveConfig K → Changes
  borrow_limit_changes none new =
      change codecs Modes.update_borrow_limit (bn codecs new.borrow_limit)
  borrow_limit_changes (some old) new =
      unless (old.borrow_limit == new.borrow_limit)
        (change codecs Modes.update_borrow_limit (bn codecs new.borrow_limit))

  unfoldable pub max_liquidation_bonus_bps_changes :
      Option (ReserveConfig K) → ReserveConfig K → Changes
  max_liquidation_bonus_bps_changes none new =
      change codecs Modes.update_max_liquidation_bonus_bps
        (ok (number new.max_liquidation_bonus_bps))
  max_liquidation_bonus_bps_changes (some old) new =
      unless (old.max_liquidation_bonus_bps == new.max_liquidation_bonus_bps) (
        change codecs Modes.update_max_liquidation_bonus_bps
          (ok (number new.max_liquidation_bonus_bps)))

  unfoldable pub min_liquidation_bonus_bps_changes :
      Option (ReserveConfig K) → ReserveConfig K → Changes
  min_liquidation_bonus_bps_changes none new =
      change codecs Modes.update_min_liquidation_bonus_bps
        (ok (number new.min_liquidation_bonus_bps))
  min_liquidation_bonus_bps_changes (some old) new =
      unless (old.min_liquidation_bonus_bps == new.min_liquidation_bonus_bps) (
        change codecs Modes.update_min_liquidation_bonus_bps
          (ok (number new.min_liquidation_bonus_bps)))

  unfoldable pub bad_debt_liquidation_bonus_bps_changes :
      Option (ReserveConfig K) → ReserveConfig K → Changes
  bad_debt_liquidation_bonus_bps_changes none new =
      change codecs Modes.update_bad_debt_liquidation_bonus_bps
        (ok (number new.bad_debt_liquidation_bonus_bps))
  bad_debt_liquidation_bonus_bps_changes (some old) new =
      unless (old.bad_debt_liquidation_bonus_bps == new.bad_debt_liquidation_bonus_bps) (
        change codecs Modes.update_bad_debt_liquidation_bonus_bps
          (ok (number new.bad_debt_liquidation_bonus_bps)))

  unfoldable pub liquidation_threshold_pct_changes :
      Option (ReserveConfig K) → ReserveConfig K → Changes
  liquidation_threshold_pct_changes none new =
      change codecs Modes.update_liquidation_threshold_pct
        (ok (number new.liquidation_threshold_pct))
  liquidation_threshold_pct_changes (some old) new =
      unless (old.liquidation_threshold_pct == new.liquidation_threshold_pct) (
        change codecs Modes.update_liquidation_threshold_pct
          (ok (number new.liquidation_threshold_pct)))

  unfoldable pub protocol_take_rate_pct_changes :
      Option (ReserveConfig K) → ReserveConfig K → Changes
  protocol_take_rate_pct_changes none new =
      change codecs Modes.update_protocol_take_rate (ok (number new.protocol_take_rate_pct))
  protocol_take_rate_pct_changes (some old) new =
      unless (old.protocol_take_rate_pct == new.protocol_take_rate_pct)
        (change codecs Modes.update_protocol_take_rate (ok (number new.protocol_take_rate_pct)))

  unfoldable pub status_changes : Option (ReserveConfig K) → ReserveConfig K → Changes
  status_changes none new = change codecs Modes.update_reserve_status (ok (number new.status))
  status_changes (some old) new =
      unless (old.status == new.status)
        (change codecs Modes.update_reserve_status (ok (number new.status)))

  unfoldable pub disable_usage_as_coll_outside_emode_changes :
      Option (ReserveConfig K) → ReserveConfig K → Changes
  disable_usage_as_coll_outside_emode_changes none new =
      change codecs Modes.update_disable_usage_as_collateral_outside_emode
        (ok (number new.disable_usage_as_coll_outside_emode))
  disable_usage_as_coll_outside_emode_changes (some old) new =
      unless (old.disable_usage_as_coll_outside_emode == new.disable_usage_as_coll_outside_emode) (
        change codecs Modes.update_disable_usage_as_collateral_outside_emode
          (ok (number new.disable_usage_as_coll_outside_emode)))

  unfoldable pub utilization_limit_block_borrowing_above_changes :
      Option (ReserveConfig K) → ReserveConfig K → Changes
  utilization_limit_block_borrowing_above_changes none new =
      change codecs Modes.update_block_borrowing_above_utilization
        (ok (number new.utilization_limit_block_borrowing_above))
  utilization_limit_block_borrowing_above_changes (some old) new =
      unless
        (old.utilization_limit_block_borrowing_above == new.utilization_limit_block_borrowing_above)
        (change codecs Modes.update_block_borrowing_above_utilization
          (ok (number new.utilization_limit_block_borrowing_above)))

  unfoldable pub deleveraging_threshold_slots_per_bps_changes :
      Option (ReserveConfig K) → ReserveConfig K → Changes
  deleveraging_threshold_slots_per_bps_changes none new =
      change codecs Modes.deleveraging_threshold_slots_per_bps
        (bn codecs new.deleveraging_threshold_slots_per_bps)
  deleveraging_threshold_slots_per_bps_changes (some old) new =
      unless (old.deleveraging_threshold_slots_per_bps == new.deleveraging_threshold_slots_per_bps)
        (change codecs Modes.deleveraging_threshold_slots_per_bps
          (bn codecs new.deleveraging_threshold_slots_per_bps))

  unfoldable pub borrow_factor_pct_changes : Option (ReserveConfig K) → ReserveConfig K → Changes
  borrow_factor_pct_changes none new =
      change codecs Modes.update_borrow_factor (bn codecs new.borrow_factor_pct)
  borrow_factor_pct_changes (some old) new =
      unless (old.borrow_factor_pct == new.borrow_factor_pct)
        (change codecs Modes.update_borrow_factor (bn codecs new.borrow_factor_pct))

  unfoldable pub loan_to_value_pct_changes : Option (ReserveConfig K) → ReserveConfig K → Changes
  loan_to_value_pct_changes none new =
      change codecs Modes.update_loan_to_value_pct (ok (number new.loan_to_value_pct))
  loan_to_value_pct_changes (some old) new =
      unless (old.loan_to_value_pct == new.loan_to_value_pct)
        (change codecs Modes.update_loan_to_value_pct (ok (number new.loan_to_value_pct)))

  unfoldable pub protocol_liquidation_fee_pct_changes :
      Option (ReserveConfig K) → ReserveConfig K → Changes
  protocol_liquidation_fee_pct_changes none new =
      change codecs Modes.update_protocol_liquidation_fee
        (ok (number new.protocol_liquidation_fee_pct))
  protocol_liquidation_fee_pct_changes (some old) new =
      unless (old.protocol_liquidation_fee_pct == new.protocol_liquidation_fee_pct) (
        change codecs Modes.update_protocol_liquidation_fee
          (ok (number new.protocol_liquidation_fee_pct)))

  unfoldable pub deleveraging_margin_call_period_secs_changes :
      Option (ReserveConfig K) → ReserveConfig K → Changes
  deleveraging_margin_call_period_secs_changes none new =
      change codecs Modes.deleveraging_margin_call_period
        (bn codecs new.deleveraging_margin_call_period_secs)
  deleveraging_margin_call_period_secs_changes (some old) new =
      unless (old.deleveraging_margin_call_period_secs == new.deleveraging_margin_call_period_secs)
        (change codecs Modes.deleveraging_margin_call_period
          (bn codecs new.deleveraging_margin_call_period_secs))

  unfoldable pub asset_tier_changes : Option (ReserveConfig K) → ReserveConfig K → Changes
  asset_tier_changes none new = change codecs Modes.update_asset_tier (ok (number new.asset_tier))
  asset_tier_changes (some old) new =
      unless (old.asset_tier == new.asset_tier)
        (change codecs Modes.update_asset_tier (ok (number new.asset_tier)))
