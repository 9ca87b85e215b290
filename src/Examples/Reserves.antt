-- ===== src/Examples/Reserves.antt =====
-- Runs of the configuration update of src/classes/reserve.ts at concrete configurations.
use klend_sdk.Prelude.{
  true, ℕ, ◌^◌, false, arith, ◌≡◌, refl, List, [], ◌∷◌, inl, inr, some, none, replicate, ltb,
  get_elem?, if◌then◌else◌,
}
use klend_sdk.Prelude.Outcome.{Outcome, ok, error}
use klend_sdk.Pubkey.Keys.{numbered_keys}
use klend_sdk.Reserve.Data.{ReserveConfig, TokenInfo, WithdrawalCaps}
use klend_sdk.Reserve.Interfaces.{Codecs, IsExact}
use klend_sdk.Reserve.Modes
use klend_sdk.Reserve.Bytes
use klend_sdk.Reserve.Change
use klend_sdk.Reserve.Change.Plain
use klend_sdk.Reserve.Change.Structured
use klend_sdk.Reserve.Change.Token
use klend_sdk.Reserve.Update
use klend_sdk.Reserve.Encode.{numbers, format, update_reserve_config_encoded_value}
use klend_sdk.Reserve.Encode.Laws.{read_as, read_as-update_reserve_config_encoded_value}
use klend_sdk.Reserve.Update.{
  UpdateReserveConfig, MarketWithAddress, config_keys, parse_for_changes_reserve_config_and_get_ixs,
}
use klend_sdk.Reserve.Update.Errors.{
  IsError, parse_for_changes_reserve_config_and_get_ixs_creation,
  parse_for_changes_reserve_config_and_get_ixs_total,
}
use klend_sdk.Reserve.Update.Expected.{IsUpdatable}
use klend_sdk.Reserve.Update.Settings.{held, modes_of}
use klend_sdk.Reserve.Update.Settling.{stored}
use klend_sdk.Reserve.Update.Applied.{applied, applied-parse_for_changes_reserve_config_and_get_ixs}
use klend_sdk.Reserve.Encode.Returns.{Returns}
use klend_sdk.Reserve.Update.Returns.{
  ReturnsSmall, IsEncodable, parse_for_changes_reserve_config_and_get_ixs-Returns,
}
use klend_sdk.Reserve.Modes.Codes.{layout, codes_agree}
use klend_sdk.Reserve.Modes.Encodable.{to_encodable, to_json}
use klend_sdk.Reserve.Modes.Decoding.{has_key, from_decoded, from_json}
use Prim.Native.String.{String}
use klend_sdk.Reserve.Modes.{UpdateConfigMode, discriminator}
use klend_sdk.Reserve.Update.Unchanged.{parse_for_changes_reserve_config_and_get_ixs_unchanged}

abbrev small_numbers : ℕ → Outcome ℕ
small_numbers n =
    if ltb n (2 ^ 53) then ok n else error "Number can only safely store up to 53 bits"

abbrev codecs : Codecs ℕ
codecs = record {
  to_number = small_numbers;
  to_buffer = λ k. replicate 32 k;
  encode_config = λ c. [];
}

abbrev cap_of : ℕ → WithdrawalCaps
cap_of total = record {
  config_capacity = 5000;
  current_total = total;
  last_interval_start_timestamp = 0;
  config_interval_length_seconds = 86400;
}

abbrev sol : TokenInfo ℕ
sol = record {
  name = 83 ∷ 79 ∷ 76 ∷ [];
  heuristic = record { lower = 0; upper = 0; exp = 0 };
  max_twap_divergence_bps = 100;
  max_age_price_seconds = 60;
  max_age_twap_seconds = 120;
  scope_configuration = record {
    price_feed = 80;
    price_chain = 3 ∷ 65535 ∷ 65535 ∷ 65535 ∷ [];
    twap_chain = 65535 ∷ 65535 ∷ 65535 ∷ 65535 ∷ [];
  };
  switchboard_configuration = record { price_aggregator = 0; twap_aggregator = 0 };
  pyth_configuration = record { price = 0 };
  block_price_usage = 0;
  reserved = [];
  padding = [];
}

-- A configuration with a deposit limit, a borrow fee and a total of the cap on deposits.
abbrev config_of : ℕ → ℕ → ℕ → ReserveConfig ℕ
config_of deposit_limit borrow_fee total = record {
  status = 0;
  asset_tier = 0;
  host_fixed_interest_rate_bps = 0;
  reserved2 = [];
  reserved3 = [];
  protocol_take_rate_pct = 10;
  protocol_liquidation_fee_pct = 20;
  loan_to_value_pct = 70;
  liquidation_threshold_pct = 75;
  min_liquidation_bonus_bps = 200;
  max_liquidation_bonus_bps = 500;
  bad_debt_liquidation_bonus_bps = 99;
  deleveraging_margin_call_period_secs = 259200;
  deleveraging_threshold_slots_per_bps = 7200;
  fees = record { borrow_fee_sf = borrow_fee; flash_loan_fee_sf = 5; padding = [] };
  borrow_rate_curve = record {
    points =
        record { utilization_rate_bps = 0; borrow_rate_bps = 1 }
        ∷ record { utilization_rate_bps = 10000; borrow_rate_bps = 8000 }
        ∷ [];
  };
  borrow_factor_pct = 100;
  deposit_limit = deposit_limit;
  borrow_limit = 800;
  token_info = sol;
  deposit_withdrawal_cap = cap_of total;
  debt_withdrawal_cap = cap_of 0;
  elevation_groups = 1 ∷ 2 ∷ 0 ∷ [];
  disable_usage_as_coll_outside_emode = 0;
  utilization_limit_block_borrowing_above = 0;
  reserved1 = [];
  borrow_limit_outside_elevation_group = 0;
  borrow_limit_against_this_collateral_in_elevation_group = [];
}

abbrev market : MarketWithAddress ℕ
market = record { address = 70; lending_market_owner = 71 }

abbrev with_market : ℕ → List ℕ → UpdateReserveConfig ℕ
with_market mode value = record {
  mode = mode;
  value = value;
  skip_validation = false;
  lending_market_owner = 71;
  lending_market = 70;
  reserve = 10;
}

-- Another deposit limit and another borrow fee are two updates.
two_updates :
    parse_for_changes_reserve_config_and_get_ixs codecs market
      (some (config_of 1000 3 0))
      10
      (config_of 513 4 0)
    ≡ ok (with_market 6 (4 ∷ replicate 7 0) ∷ with_market 9 (1 ∷ 2 ∷ replicate 6 0) ∷ [])
unfolding parse_for_changes_reserve_config_and_get_ixs Update.changes_for Change.◌>+>◌
    Update.changes_of Plain.deposit_limit_changes Plain.borrow_limit_changes
    Plain.max_liquidation_bonus_bps_changes Plain.min_liquidation_bonus_bps_changes
    Plain.bad_debt_liquidation_bonus_bps_changes Plain.liquidation_threshold_pct_changes
    Plain.protocol_take_rate_pct_changes Plain.status_changes
    Plain.disable_usage_as_coll_outside_emode_changes
    Plain.utilization_limit_block_borrowing_above_changes
    Plain.deleveraging_threshold_slots_per_bps_changes Plain.borrow_factor_pct_changes
    Plain.loan_to_value_pct_changes Plain.protocol_liquidation_fee_pct_changes
    Plain.deleveraging_margin_call_period_secs_changes Plain.asset_tier_changes
    Structured.fees_changes Structured.borrow_rate_curve_changes Structured.elevation_groups_changes
    Structured.deposit_withdrawal_cap_changes Structured.debt_withdrawal_cap_changes
    Token.token_info_changes Change.arrays_differ Change.points_differ Change.change_as
    update_reserve_config_encoded_value Modes.discriminator Update.update_reserve_config_ix
    Bytes.write_uint_le Bytes.le_bytes
two_updates = refl

small_numbers-IsExact : IsExact codecs
small_numbers-IsExact n m h = ground arith

updatable : (a b c d : ℕ) → IsUpdatable (config_of a b 0) (config_of c d 0)
updatable a b c d = record {
  one_fee = inr refl;
  deposit_total = refl;
  debt_total = refl;
  points = refl;
  groups = refl;
  name = refl;
  price_chain = refl;
  twap_chain = refl;
}

applied-parse_for_changes_reserve_config_and_get_ixs_example :
    applied Modes.update_deposit_limit
      (with_market 6 (4 ∷ replicate 7 0) ∷ with_market 9 (1 ∷ 2 ∷ replicate 6 0) ∷ [])
      (stored codecs (config_of 1000 3 0) Modes.update_deposit_limit)
    ≡ stored codecs (config_of 513 4 0) Modes.update_deposit_limit
unfolding modes_of Modes.discriminator
applied-parse_for_changes_reserve_config_and_get_ixs_example =
    applied-parse_for_changes_reserve_config_and_get_ixs market 10 codecs small_numbers-IsExact
      (config_of 1000 3 0) (config_of 513 4 0) (updatable 1000 3 513 4)
      (with_market 6 (4 ∷ replicate 7 0) ∷ with_market 9 (1 ∷ 2 ∷ replicate 6 0) ∷ []) two_updates
      Modes.update_deposit_limit

small_numbers-ReturnsSmall : ReturnsSmall codecs
small_numbers-ReturnsSmall n h = ground arith

encodable : IsEncodable (config_of 513 4 0)
unfolding modes_of format held
encodable = omega arith

parse_for_changes_reserve_config_and_get_ixs-Returns_example : Returns (
    parse_for_changes_reserve_config_and_get_ixs codecs market
      (some (config_of 1000 3 0))
      10
      (config_of 513 4 0))
parse_for_changes_reserve_config_and_get_ixs-Returns_example =
    parse_for_changes_reserve_config_and_get_ixs-Returns codecs small_numbers-ReturnsSmall
      (config_of 1000 3 0) (config_of 513 4 0) market 10 (updatable 1000 3 513 4) encodable

parse_for_changes_reserve_config_and_get_ixs_creation_example :
    IsError (parse_for_changes_reserve_config_and_get_ixs codecs market none 10 (config_of 513 4 0))
parse_for_changes_reserve_config_and_get_ixs_creation_example =
    parse_for_changes_reserve_config_and_get_ixs_creation codecs market 10 (config_of 513 4 0)

parse_for_changes_reserve_config_and_get_ixs_total_example : IsError (
    parse_for_changes_reserve_config_and_get_ixs codecs market
      (some (config_of 513 4 0))
      10
      (config_of 513 4 9))
parse_for_changes_reserve_config_and_get_ixs_total_example =
    parse_for_changes_reserve_config_and_get_ixs_total codecs market 10 (config_of 513 4 0)
      (config_of 513 4 9) (inl (refl, refl, omega arith))

read_as-update_reserve_config_encoded_value_example :
    read_as (format Modes.update_token_info_scope_chain) (3 ∷ 0 ∷ 255 ∷ 255 ∷ 0 ∷ 0 ∷ 0 ∷ 0 ∷ [])
    ≡ 3 ∷ 65535 ∷ 0 ∷ 0 ∷ []
unfolding format update_reserve_config_encoded_value Bytes.write_each Bytes.write_uint_le
    Bytes.le_bytes
read_as-update_reserve_config_encoded_value_example =
    read_as-update_reserve_config_encoded_value codecs Modes.update_token_info_scope_chain
      (numbers (3 ∷ 65535 ∷ [])) (3 ∷ 0 ∷ 255 ∷ 255 ∷ 0 ∷ 0 ∷ 0 ∷ 0 ∷ []) tt refl

codes_agree_example :
    (get_elem? layout (discriminator Modes.update_borrow_factor) ≡ some "UpdateBorrowFactor")
    × (from_decoded (some (to_encodable Modes.update_borrow_factor))
        ≡ ok Modes.update_borrow_factor)
    × (from_json (to_json Modes.update_borrow_factor) ≡ some Modes.update_borrow_factor)
    × ((text : String)
        → from_json text ≡ some Modes.update_borrow_factor
        → text ≡ "UpdateBorrowFactor")
    × ((keys : List String)
        → from_decoded (some keys) ≡ ok Modes.update_borrow_factor
        → has_key "UpdateBorrowFactor" keys ≡ true)
    × ((keys : List String)
        → has_key "UpdateBorrowFactor" keys ≡ true
        → (found : UpdateConfigMode) × (from_decoded (some keys) ≡ ok found))
unfolding Modes.kind
codes_agree_example = codes_agree Modes.update_borrow_factor

parse_for_changes_reserve_config_and_get_ixs_unchanged_example :
    parse_for_changes_reserve_config_and_get_ixs codecs market
      (some (config_of 513 4 9))
      10
      (config_of 513 4 9)
    ≡ ok []
parse_for_changes_reserve_config_and_get_ixs_unchanged_example =
    parse_for_changes_reserve_config_and_get_ixs_unchanged codecs market 10 (config_of 513 4 9)
