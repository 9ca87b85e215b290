-- ===== src/Reserve/Update.antt =====
-- `parseForChangesReserveConfigAndGetIxs`, `updateReserveConfigIx` and `updateEntireReserveConfigIx` of
-- src/classes/reserve.ts.
pub mod Settings
pub mod Expected
pub mod Agreement
pub mod Settling
pub mod Applied
pub mod Returns
pub mod Unchanged
pub mod Errors
use klend_sdk.Prelude.{
  ℕ, ◌+◌, List, [], ◌∷◌, Bool, true, false, Option, map, take, length, drop, ◌++◌,
}
use klend_sdk.Prelude.Outcome.{Outcome, ok, error, ◌>>=◌}
use klend_sdk.Pubkey.Keys.{PublicKeys}
use klend_sdk.Reserve.Data.{ReserveConfig}
use klend_sdk.Reserve.Bytes.{Buffer, alloc}
use klend_sdk.Reserve.Interfaces.{Codecs}
use klend_sdk.Reserve.Modes.{discriminator}
use klend_sdk.Reserve.Change.{Change, Changes, no_change, ◌>+>◌}
use klend_sdk.Reserve.Change.Plain.{
  status_changes, asset_tier_changes, protocol_take_rate_pct_changes,
  protocol_liquidation_fee_pct_changes, loan_to_value_pct_changes,
  liquidation_threshold_pct_changes, min_liquidation_bonus_bps_changes,
  max_liquidation_bonus_bps_changes, bad_debt_liquidation_bonus_bps_changes,
  deleveraging_margin_call_period_secs_changes, deleveraging_threshold_slots_per_bps_changes,
  borrow_factor_pct_changes, deposit_limit_changes, borrow_limit_changes,
  disable_usage_as_coll_outside_emode_changes, utilization_limit_block_borrowing_above_changes,
}
use klend_sdk.Reserve.Change.Structured.{
  borrow_rate_curve_changes, fees_changes, deposit_withdrawal_cap_changes,
  debt_withdrawal_cap_changes, elevation_groups_changes,
}
use klend_sdk.Reserve.Change.Token.{token_info_changes}

-- The keys of the object that `ReserveConfig.toEncodable` makes.
pub data ConfigKey : Type 0 where
  status : ConfigKey
  asset_tier : ConfigKey
  host_fixed_interest_rate_bps : ConfigKey
  reserved2 : ConfigKey
  reserved3 : ConfigKey
  protocol_take_rate_pct : ConfigKey
  protocol_liquidation_fee_pct : ConfigKey
  loan_to_value_pct : ConfigKey
  liquidation_threshold_pct : ConfigKey
  min_liquidation_bonus_bps : ConfigKey
  max_liquidation_bonus_bps : ConfigKey
  bad_debt_liquidation_bonus_bps : ConfigKey
  deleveraging_margin_call_period_secs : ConfigKey
  deleveraging_threshold_slots_per_bps : ConfigKey
  fees : ConfigKey
  borrow_rate_curve : ConfigKey
  borrow_factor_pct : ConfigKey
  deposit_limit : ConfigKey
  borrow_limit : ConfigKey
  token_info : ConfigKey
  deposit_withdrawal_cap : ConfigKey
  debt_withdrawal_cap : ConfigKey
  elevation_groups : ConfigKey
  disable_usage_as_coll_outside_emode : ConfigKey
  utilization_limit_block_borrowing_above : ConfigKey
  reserved1 : ConfigKey
  borrow_limit_outside_elevation_group : ConfigKey
  borrow_limit_against_this_collateral_in_elevation_group : ConfigKey

-- In the order in which `for (key in ..)` goes through them.
abbrev pub config_keys : List ConfigKey
config_keys =
    status ∷ asset_tier ∷ host_fixed_interest_rate_bps ∷ reserved2 ∷ reserved3
    ∷ protocol_take_rate_pct ∷ protocol_liquidation_fee_pct ∷ loan_to_value_pct
    ∷ liquidation_threshold_pct ∷ min_liquidation_bonus_bps ∷ max_liquidation_bonus_bps
    ∷ bad_debt_liquidation_bonus_bps ∷ deleveraging_margin_call_period_secs
    ∷ deleveraging_threshold_slots_per_bps ∷ fees ∷ borrow_rate_curve ∷ borrow_factor_pct
    ∷ deposit_limit ∷ borrow_limit ∷ token_info ∷ deposit_withdrawal_cap ∷ debt_withdrawal_cap
    ∷ elevation_groups ∷ disable_usage_as_coll_outside_emode
    ∷ utilization_limit_block_borrowing_above ∷ reserved1 ∷ borrow_limit_outside_elevation_group
    ∷ borrow_limit_against_this_collateral_in_elevation_group ∷ []

-- The instruction of the lending program, with its accounts.
pub record UpdateReserveConfig (K : Type 0) : Type 0 where
  pub mode : ℕ
  pub value : Buffer
  pub skip_validation : Bool
  pub lending_market_owner : K
  pub lending_market : K
  pub reserve : K

-- The market with its address, as far as the update reads it.
pub record MarketWithAddress (K : Type 0) : Type 0 where
  pub address : K
  pub lending_market_owner : K

module _ {K : Type 0} where
  unfoldable pub update_reserve_config_ix :
      MarketWithAddress K → K → ℕ → Buffer → UpdateReserveConfig K
  update_reserve_config_ix market reserve_address mode_discriminator value = record {
    mode = mode_discriminator;
    value = value;
    skip_validation = false;
    lending_market_owner = market.lending_market_owner;
    lending_market = market.address;
    reserve = reserve_address;
  }

  module _ (codecs : Codecs K) where
    -- The encoding is written into a buffer of 1000 bytes, and cut off at its length.
    unfoldable pub update_entire_reserve_config_ix :
        MarketWithAddress K → K → ReserveConfig K → UpdateReserveConfig K
    update_entire_reserve_config_ix market reserve_address config = record {
      mode = 25;
      value = codecs.encode_config config;
      skip_validation = true;
      lending_market_owner = market.lending_market_owner;
      lending_market = market.address;
      reserve = reserve_address;
    }

    module _ ⦃p : PublicKeys K⦄ where
      -- The branches on the key; the other keys have none.
      unfoldable pub changes_of : ConfigKey → Option (ReserveConfig K) → ReserveConfig K → Changes
      changes_of status = status_changes codecs
      changes_of asset_tier = asset_tier_changes codecs
      changes_of protocol_take_rate_pct = protocol_take_rate_pct_changes codecs
      changes_of protocol_liquidation_fee_pct = protocol_liquidation_fee_pct_changes codecs
      changes_of loan_to_value_pct = loan_to_value_pct_changes codecs
      changes_of liquidation_threshold_pct = liquidation_threshold_pct_changes codecs
      changes_of min_liquidation_bonus_bps = min_liquidation_bonus_bps_changes codecs
      changes_of max_liquidation_bonus_bps = max_liquidation_bonus_bps_changes codecs
      changes_of bad_debt_liquidation_bonus_bps = bad_debt_liquidation_bonus_bps_changes codecs
      changes_of deleveraging_margin_call_period_secs =
          deleveraging_margin_call_period_secs_changes codecs
      changes_of deleveraging_threshold_slots_per_bps =
          deleveraging_threshold_slots_per_bps_changes codecs
      changes_of fees = fees_changes codecs
      changes_of borrow_rate_curve = borrow_rate_curve_changes codecs
      changes_of borrow_factor_pct = borrow_factor_pct_changes codecs
      changes_of deposit_limit = deposit_limit_changes codecs
      changes_of borrow_limit = borrow_limit_changes codecs
      changes_of token_info = token_info_changes codecs
      changes_of deposit_withdrawal_cap = deposit_withdrawal_cap_changes codecs
      changes_of debt_withdrawal_cap = debt_withdrawal_cap_changes codecs
      changes_of elevation_groups = elevation_groups_changes codecs
      changes_of disable_usage_as_coll_outside_emode =
          disable_usage_as_coll_outside_emode_changes codecs
      changes_of utilization_limit_block_borrowing_above =
          utilization_limit_block_borrowing_above_changes codecs
      changes_of _ = λ reserve new. no_change

      -- The loop over the keys.
      unfoldable pub changes_for :
          List ConfigKey → Option (ReserveConfig K) → ReserveConfig K → Changes
      changes_for [] reserve new = no_change
      changes_for (k ∷ ks) reserve new = changes_of k reserve new >+> changes_for ks reserve new

      unfoldable pub parse_for_changes_reserve_config_and_get_ixs :
          MarketWithAddress K
          → Option (ReserveConfig K)
          → K
          → ReserveConfig K
          → Outcome (List (UpdateReserveConfig K))
      unfolding update_reserve_config_ix
      parse_for_changes_reserve_config_and_get_ixs market reserve reserve_address new = do
        changes ← changes_for config_keys reserve new
        ok (
            map
              (λ (c : Change).
                update_reserve_config_ix market reserve_address (discriminator c.mode + 1) c.value)
              changes)
