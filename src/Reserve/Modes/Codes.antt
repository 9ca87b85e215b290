-- ===== src/Reserve/Modes/Codes.antt =====
-- The tables of src/idl_codegen/types/UpdateConfigMode.ts that go from a code back to a class:
-- `layout`, `fromDecoded` and `fromJSON`.
use Prim.Native.String.{String}
use text.Mathlib.Text.{◌==◌}
use text.Mathlib.TextEquality.{eq_iff}
use klend_sdk.Prelude.{
  ℕ, zero, suc, Bool, true, Bool-cases, inl, inr, sym, ◌∙◌, if◌then◌else◌, ◌≡◌, refl, List, [], ◌∷◌,
  some, find, get_elem?,
}
use mathlib.Core.Path.{subst}
use mathlib.Core.Option.{some-injective}
use klend_sdk.Prelude.Outcome.{Outcome, ok, error, ok-injective}
use klend_sdk.Reserve.Modes.Encodable.{to_encodable, to_json}
use klend_sdk.Reserve.Modes.Decoding.{has_key, from_decoded, from_json}
use klend_sdk.Reserve.Modes.{
  UpdateConfigMode, discriminator, kind, update_loan_to_value_pct, update_max_liquidation_bonus_bps,
  update_liquidation_threshold_pct, update_protocol_liquidation_fee, update_protocol_take_rate,
  update_fees_borrow_fee, update_fees_flash_loan_fee, update_fees_referral_fee_bps,
  update_deposit_limit, update_borrow_limit, update_token_info_lower_heuristic,
  update_token_info_upper_heuristic, update_token_info_exp_heuristic,
  update_token_info_twap_divergence, update_token_info_scope_twap, update_token_info_scope_chain,
  update_token_info_name, update_token_info_price_max_age, update_token_info_twap_max_age,
  update_scope_price_feed, update_pyth_price, update_switchboard_feed, update_switchboard_twap_feed,
  update_borrow_rate_curve, update_entire_reserve_config, update_debt_withdrawal_cap,
  update_deposit_withdrawal_cap, update_debt_withdrawal_cap_current_total,
  update_deposit_withdrawal_cap_current_total, update_bad_debt_liquidation_bonus_bps,
  update_min_liquidation_bonus_bps, deleveraging_margin_call_period, update_borrow_factor,
  update_asset_tier, update_elevation_group, deleveraging_threshold_slots_per_bps,
  deprecated_update_multiplier_side_boost, deprecated_update_multiplier_tag_boost,
  update_reserve_status, update_farm_collateral, update_farm_debt,
  update_disable_usage_as_collateral_outside_emode, update_block_borrowing_above_utilization,
  update_block_price_usage, update_borrow_limit_outside_elevation_group,
  update_borrow_limits_in_elevation_group_against_this_reserve, update_host_fixed_interest_rate_bps,
}

-- The classes in the order in which `fromDecoded` and `fromJSON` test for them.
abbrev pub classes : List UpdateConfigMode
classes =
    update_loan_to_value_pct ∷ update_max_liquidation_bonus_bps ∷ update_liquidation_threshold_pct
    ∷ update_protocol_liquidation_fee ∷ update_protocol_take_rate ∷ update_fees_borrow_fee
    ∷ update_fees_flash_loan_fee ∷ update_fees_referral_fee_bps ∷ update_deposit_limit
    ∷ update_borrow_limit ∷ update_token_info_lower_heuristic ∷ update_token_info_upper_heuristic
    ∷ update_token_info_exp_heuristic ∷ update_token_info_twap_divergence
    ∷ update_token_info_scope_twap ∷ update_token_info_scope_chain ∷ update_token_info_name
    ∷ update_token_info_price_max_age ∷ update_token_info_twap_max_age ∷ update_scope_price_feed
    ∷ update_pyth_price ∷ update_switchboard_feed ∷ update_switchboard_twap_feed
    ∷ update_borrow_rate_curve ∷ update_entire_reserve_config ∷ update_debt_withdrawal_cap
    ∷ update_deposit_withdrawal_cap ∷ update_debt_withdrawal_cap_current_total
    ∷ update_deposit_withdrawal_cap_current_total ∷ update_bad_debt_liquidation_bonus_bps
    ∷ update_min_liquidation_bonus_bps ∷ deleveraging_margin_call_period ∷ update_borrow_factor
    ∷ update_asset_tier ∷ update_elevation_group ∷ deleveraging_threshold_slots_per_bps
    ∷ deprecated_update_multiplier_side_boost ∷ deprecated_update_multiplier_tag_boost
    ∷ update_reserve_status ∷ update_farm_collateral ∷ update_farm_debt
    ∷ update_disable_usage_as_collateral_outside_emode ∷ update_block_borrowing_above_utilization
    ∷ update_block_price_usage ∷ update_borrow_limit_outside_elevation_group
    ∷ update_borrow_limits_in_elevation_group_against_this_reserve
    ∷ update_host_fixed_interest_rate_bps ∷ []

-- The names of the variants of `layout`; the place of a name is the byte that stands for it.
abbrev pub layout : List String
layout =
    "UpdateLoanToValuePct" ∷ "UpdateMaxLiquidationBonusBps" ∷ "UpdateLiquidationThresholdPct"
    ∷ "UpdateProtocolLiquidationFee" ∷ "UpdateProtocolTakeRate" ∷ "UpdateFeesBorrowFee"
    ∷ "UpdateFeesFlashLoanFee" ∷ "UpdateFeesReferralFeeBps" ∷ "UpdateDepositLimit"
    ∷ "UpdateBorrowLimit" ∷ "UpdateTokenInfoLowerHeuristic" ∷ "UpdateTokenInfoUpperHeuristic"
    ∷ "UpdateTokenInfoExpHeuristic" ∷ "UpdateTokenInfoTwapDivergence" ∷ "UpdateTokenInfoScopeTwap"
    ∷ "UpdateTokenInfoScopeChain" ∷ "UpdateTokenInfoName" ∷ "UpdateTokenInfoPriceMaxAge"
    ∷ "UpdateTokenInfoTwapMaxAge" ∷ "UpdateScopePriceFeed" ∷ "UpdatePythPrice"
    ∷ "UpdateSwitchboardFeed" ∷ "UpdateSwitchboardTwapFeed" ∷ "UpdateBorrowRateCurve"
    ∷ "UpdateEntireReserveConfig" ∷ "UpdateDebtWithdrawalCap" ∷ "UpdateDepositWithdrawalCap"
    ∷ "UpdateDebtWithdrawalCapCurrentTotal" ∷ "UpdateDepositWithdrawalCapCurrentTotal"
    ∷ "UpdateBadDebtLiquidationBonusBps" ∷ "UpdateMinLiquidationBonusBps"
    ∷ "DeleveragingMarginCallPeriod" ∷ "UpdateBorrowFactor" ∷ "UpdateAssetTier"
    ∷ "UpdateElevationGroup" ∷ "DeleveragingThresholdSlotsPerBps"
    ∷ "DeprecatedUpdateMultiplierSideBoost" ∷ "DeprecatedUpdateMultiplierTagBoost"
    ∷ "UpdateReserveStatus" ∷ "UpdateFarmCollateral" ∷ "UpdateFarmDebt"
    ∷ "UpdateDisableUsageAsCollateralOutsideEmode" ∷ "UpdateBlockBorrowingAboveUtilization"
    ∷ "UpdateBlockPriceUsage" ∷ "UpdateBorrowLimitOutsideElevationGroup"
    ∷ "UpdateBorrowLimitsInElevationGroupAgainstThisReserve" ∷ "UpdateHostFixedInterestRateBps" ∷ []

layout-discriminator : (m : UpdateConfigMode) → get_elem? layout (discriminator m) ≡ some (kind m)
unfolding discriminator kind
layout-discriminator update_loan_to_value_pct = refl
layout-discriminator _ = refl

pub get_elem?-discriminator : (m : UpdateConfigMode) → get_elem? classes (discriminator m) ≡ some m
unfolding discriminator
get_elem?-discriminator update_loan_to_value_pct = refl
get_elem?-discriminator _ = refl

from_decoded-to_encodable : (m : UpdateConfigMode) → from_decoded (some (to_encodable m)) ≡ ok m
unfolding from_decoded to_encodable
from_decoded-to_encodable update_loan_to_value_pct = refl
from_decoded-to_encodable _ = refl

from_json-to_json : (m : UpdateConfigMode) → from_json (to_json m) ≡ some m
unfolding from_json to_json
from_json-to_json update_loan_to_value_pct = refl
from_json-to_json _ = refl

-- The tests of `fromJSON` are a search of the classes by their kinds.
from_json-find : (text : String) → from_json text ≡ find (λ m. text == kind m) classes
unfolding from_json kind
from_json-find text = refl

-- The first class of a list that a test finds.
abbrev decoded_by : (UpdateConfigMode → Bool) → List UpdateConfigMode → Outcome UpdateConfigMode
decoded_by test [] = error "Invalid enum object"
decoded_by test (m ∷ ms) = let rest = decoded_by test ms in if test m then ok m else rest

from_decoded-by :
    (keys : List String)
    → from_decoded (some keys) ≡ decoded_by (λ m. has_key (kind m) keys) classes
unfolding from_decoded kind
from_decoded-by keys = refl

find_test :
    (test : UpdateConfigMode → Bool) (ms : List UpdateConfigMode) (m : UpdateConfigMode)
    → find test ms ≡ some m
    → test m ≡ true
find_test test [] m h = cc
find_test test (x ∷ ms) m h = elim (Bool-cases (test x)) [
  | inl passes ↦
      let found : some x ≡ some m = rw passes at h in
      subst (λ y. test y ≡ true) (some-injective x m found) passes
  | inr fails ↦ find_test test ms m (rw fails at h)
]

decoded_by_test :
    (test : UpdateConfigMode → Bool) (ms : List UpdateConfigMode) (m : UpdateConfigMode)
    → decoded_by test ms ≡ ok m
    → test m ≡ true
decoded_by_test test [] m h = cc
decoded_by_test test (x ∷ ms) m h = elim (Bool-cases (test x)) [
  | inl passes ↦
      let found : ok x ≡ ok m = rw passes at h in
      subst (λ y. test y ≡ true) (ok-injective x m found) passes
  | inr fails ↦ decoded_by_test test ms m (rw fails at h)
]

decoded_by_returns :
    (test : UpdateConfigMode → Bool) (ms : List UpdateConfigMode) (i : ℕ) (m : UpdateConfigMode)
    → get_elem? ms i ≡ some m
    → test m ≡ true
    → (found : UpdateConfigMode) × (decoded_by test ms ≡ ok found)
decoded_by_returns test [] i m at passes = cc
decoded_by_returns test (x ∷ ms) zero m at passes =
    let first = subst (λ y. test y ≡ true) (sym (some-injective x m at)) passes in
    (x, rw first refl)
decoded_by_returns test (x ∷ ms) (suc i) m at passes = elim (Bool-cases (test x)) [
  | inl first ↦ (x, rw first refl)
  | inr other ↦
      let (found, returns) = decoded_by_returns test ms i m at passes in (found, rw other returns)
]

-- For every class of the modes, the name at the place of its discriminator in the layout is its kind,
-- and `fromDecoded` of its encodable object and `fromJSON` of its JSON object return the class;
-- `fromJSON` returns the class for no other text than its kind, `fromDecoded` returns it only for an
-- object with its kind among the keys, and `fromDecoded` returns some class for every object that has
-- such a key.
pub codes_agree :
    (m : UpdateConfigMode)
    → (get_elem? layout (discriminator m) ≡ some (kind m))
      × (from_decoded (some (to_encodable m)) ≡ ok m)
      × (from_json (to_json m) ≡ some m)
      × ((text : String) → from_json text ≡ some m → text ≡ kind m)
      × ((keys : List String) → from_decoded (some keys) ≡ ok m → has_key (kind m) keys ≡ true)
      × ((keys : List String)
          → has_key (kind m) keys ≡ true
          → (found : UpdateConfigMode) × (from_decoded (some keys) ≡ ok found))
codes_agree m = (
  layout-discriminator m,
  from_decoded-to_encodable m,
  from_json-to_json m,
  λ text h.
      (eq_iff text (kind m)).0
        (find_test (λ x. text == kind x) classes m (sym (from_json-find text) ∙ h)),
  λ keys h. decoded_by_test (λ x. has_key (kind x) keys) classes m (sym (from_decoded-by keys) ∙ h),
  λ keys h.
      let (found, returns) =
        decoded_by_returns (λ x. has_key (kind x) keys) classes (discriminator m) m
          (get_elem?-discriminator m) h in
      (found, from_decoded-by keys ∙ returns),
)
