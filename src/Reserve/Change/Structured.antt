-- ===== src/Reserve/Change/Structured.antt =====
-- The branches of `parseForChangesReserveConfigAndGetIxs` of src/classes/reserve.ts for the curve of
-- borrow rates, the fees, the withdrawal caps and the elevation groups.
use klend_sdk.Prelude.{Option, none, some, ◌==◌, ◌||◌, not, if◌then◌else◌}
use klend_sdk.Prelude.Outcome.{ok, ◌>>=◌}
use klend_sdk.Reserve.Data.{ReserveConfig, WithdrawalCaps}
use klend_sdk.Reserve.Interfaces.{Codecs}
use klend_sdk.Reserve.Modes.{UpdateConfigMode}
use klend_sdk.Reserve.Modes
use klend_sdk.Reserve.Encode.{curve, numbers}
use klend_sdk.Reserve.Change.{
  Changes, no_change, unless, ◌>+>◌, change, change_as, bn, bn_pair, arrays_differ, points_differ,
}

module _ {K : Type 0} (codecs : Codecs K) where
  unfoldable pub borrow_rate_curve_changes : Option (ReserveConfig K) → ReserveConfig K → Changes
  borrow_rate_curve_changes none new =
      change codecs Modes.update_borrow_rate_curve (ok (curve new.borrow_rate_curve))
  borrow_rate_curve_changes (some old) new = do
    differ ← points_differ old.borrow_rate_curve.points new.borrow_rate_curve.points
    unless (not differ)
        (change codecs Modes.update_borrow_rate_curve (ok (curve new.borrow_rate_curve)))

  -- An `else if` chain: with a reserve, at most one of the two fees is updated.
  unfoldable pub fees_changes : Option (ReserveConfig K) → ReserveConfig K → Changes
  fees_changes none new =
      change codecs Modes.update_fees_borrow_fee (bn codecs new.fees.borrow_fee_sf)
      >+> change codecs Modes.update_fees_flash_loan_fee (bn codecs new.fees.flash_loan_fee_sf)
  fees_changes (some old) new =
      if not (old.fees.borrow_fee_sf == new.fees.borrow_fee_sf)
      then change codecs Modes.update_fees_borrow_fee (bn codecs new.fees.borrow_fee_sf)
      else if not (old.fees.flash_loan_fee_sf == new.fees.flash_loan_fee_sf)
      then change codecs Modes.update_fees_flash_loan_fee (bn codecs new.fees.flash_loan_fee_sf)
      else no_change

  -- The two branches for caps differ in the modes alone: that of the cap, and that of its total.
  unfoldable pub cap_created : UpdateConfigMode → UpdateConfigMode → WithdrawalCaps → Changes
  cap_created capped total new =
      change codecs capped (bn_pair codecs new.config_capacity new.config_interval_length_seconds)
      >+> change_as codecs total capped (bn codecs new.current_total)

  unfoldable pub cap_updated :
      UpdateConfigMode → UpdateConfigMode → WithdrawalCaps → WithdrawalCaps → Changes
  cap_updated capped total old new =
      if not (old.config_capacity == new.config_capacity)
        || not (old.config_interval_length_seconds == new.config_interval_length_seconds)
      then change codecs capped
          (bn_pair codecs new.config_capacity new.config_interval_length_seconds)
      else if not (old.current_total == new.current_total)
      then change_as codecs total capped (bn codecs new.current_total)
      else no_change

  unfoldable pub deposit_withdrawal_cap_changes :
      Option (ReserveConfig K) → ReserveConfig K → Changes
  unfolding cap_created cap_updated
  deposit_withdrawal_cap_changes none new =
      cap_created Modes.update_deposit_withdrawal_cap
        Modes.update_deposit_withdrawal_cap_current_total new.deposit_withdrawal_cap
  deposit_withdrawal_cap_changes (some old) new =
      cap_updated Modes.update_deposit_withdrawal_cap
        Modes.update_deposit_withdrawal_cap_current_total old.deposit_withdrawal_cap
        new.deposit_withdrawal_cap

  unfoldable pub debt_withdrawal_cap_changes : Option (ReserveConfig K) → ReserveConfig K → Changes
  unfolding cap_created cap_updated
  debt_withdrawal_cap_changes none new =
      cap_created Modes.update_debt_withdrawal_cap Modes.update_debt_withdrawal_cap_current_total
        new.debt_withdrawal_cap
  debt_withdrawal_cap_changes (some old) new =
      cap_updated Modes.update_debt_withdrawal_cap Modes.update_debt_withdrawal_cap_current_total
        old.debt_withdrawal_cap new.debt_withdrawal_cap

  unfoldable pub elevation_groups_changes : Option (ReserveConfig K) → ReserveConfig K → Changes
  elevation_groups_changes none new =
      change codecs Modes.update_elevation_group (ok (numbers new.elevation_groups))
  elevation_groups_changes (some old) new =
      unless (not (arrays_differ old.elevation_groups new.elevation_groups))
        (change codecs Modes.update_elevation_group (ok (numbers new.elevation_groups)))
