-- ===== src/Reserve/Data.antt =====
-- The configuration of a reserve: the classes ReserveConfig and those of its fields, under
-- src/idl_codegen/types, over a type of public keys. Amounts, times and rates are unsigned.
use klend_sdk.Prelude.{ℕ, List}

pub record CurvePoint : Type 0 where
  pub utilization_rate_bps : ℕ
  pub borrow_rate_bps : ℕ

pub record BorrowRateCurve : Type 0 where
  pub points : List CurvePoint

pub record ReserveFees : Type 0 where
  pub borrow_fee_sf : ℕ
  pub flash_loan_fee_sf : ℕ
  pub padding : List ℕ

pub record WithdrawalCaps : Type 0 where
  pub config_capacity : ℕ
  pub current_total : ℕ
  pub last_interval_start_timestamp : ℕ
  pub config_interval_length_seconds : ℕ

pub record PriceHeuristic : Type 0 where
  pub lower : ℕ
  pub upper : ℕ
  pub exp : ℕ

module _ (K : Type 0) where
  pub record ScopeConfiguration : Type 0 where
    pub price_feed : K
    pub price_chain : List ℕ
    pub twap_chain : List ℕ

  pub record SwitchboardConfiguration : Type 0 where
    pub price_aggregator : K
    pub twap_aggregator : K

  pub record PythConfiguration : Type 0 where
    pub price : K

  pub record TokenInfo : Type 0 where
    pub name : List ℕ
    pub heuristic : PriceHeuristic
    pub max_twap_divergence_bps : ℕ
    pub max_age_price_seconds : ℕ
    pub max_age_twap_seconds : ℕ
    pub scope_configuration : ScopeConfiguration
    pub switchboard_configuration : SwitchboardConfiguration
    pub pyth_configuration : PythConfiguration
    pub block_price_usage : ℕ
    pub reserved : List ℕ
    pub padding : List ℕ

  pub record ReserveConfig : Type 0 where
    pub status : ℕ
    pub asset_tier : ℕ
    pub host_fixed_interest_rate_bps : ℕ
    pub reserved2 : List ℕ
    pub reserved3 : List ℕ
    pub protocol_take_rate_pct : ℕ
    pub protocol_liquidation_fee_pct : ℕ
    pub loan_to_value_pct : ℕ
    pub liquidation_threshold_pct : ℕ
    pub min_liquidation_bonus_bps : ℕ
    pub max_liquidation_bonus_bps : ℕ
    pub bad_debt_liquidation_bonus_bps : ℕ
    pub deleveraging_margin_call_period_secs : ℕ
    pub deleveraging_threshold_slots_per_bps : ℕ
    pub fees : ReserveFees
    pub borrow_rate_curve : BorrowRateCurve
    pub borrow_factor_pct : ℕ
    pub deposit_limit : ℕ
    pub borrow_limit : ℕ
    pub token_info : TokenInfo
    pub deposit_withdrawal_cap : WithdrawalCaps
    pub debt_withdrawal_cap : WithdrawalCaps
    pub elevation_groups : List ℕ
    pub disable_usage_as_coll_outside_emode : ℕ
    pub utilization_limit_block_borrowing_above : ℕ
    pub reserved1 : List ℕ
    pub borrow_limit_outside_elevation_group : ℕ
    pub borrow_limit_against_this_collateral_in_elevation_group : List ℕ
