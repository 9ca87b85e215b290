-- ===== src/Reserve/Encode.antt =====
-- `updateReserveConfigEncodedValue` and `serializeBorrowRateCurve` of src/classes/reserve.ts.
pub mod Laws
pub mod Returns
use klend_sdk.Prelude.{ℕ, ◌+◌, ◌*◌, List, [], ◌∷◌, Option, none, some, get_elem?, length}
use klend_sdk.Prelude.Outcome.{Outcome, ok, error, ◌>>=◌, or_throw}
use klend_sdk.Reserve.Data.{CurvePoint, BorrowRateCurve}
use klend_sdk.Reserve.Bytes.{Buffer, alloc, write_uint_le, write_each}
use klend_sdk.Reserve.Interfaces.{Codecs}
use klend_sdk.Reserve.Modes.{UpdateConfigMode}
use klend_sdk.Reserve.Modes

-- `number | number[] | BorrowRateCurve | PublicKey`.
pub data Value (K : Type 0) : Type 0 where
  number : ℕ → Value K
  numbers : List ℕ → Value K
  curve : BorrowRateCurve → Value K
  public_key : K → Value K

write_points : List CurvePoint → ℕ → Buffer → Outcome Buffer
write_points [] offset buffer = ok buffer
write_points (point ∷ rest) offset buffer = do
  first ← write_uint_le point.utilization_rate_bps offset 4 buffer
  second ← write_uint_le point.borrow_rate_bps (offset + 4) 4 first
  write_points rest (offset + 8) second

unfoldable pub serialize_borrow_rate_curve : BorrowRateCurve → Outcome Buffer
unfolding write_points
serialize_borrow_rate_curve c = do
  counted ← write_uint_le (length c.points) 0 4 (alloc (4 + 8 * length c.points))
  write_points c.points 4 counted

-- The layouts of the buffer between which the switch on the discriminator chooses.
pub data Format : Type 0 where
  unsigned : ℕ → Format
  sequence : ℕ → ℕ → Format
  pair : Format
  key_bytes : Format
  curve_bytes : Format
  nothing : Format

-- The cases of the switch.
unfoldable pub format : UpdateConfigMode → Format
format Modes.update_loan_to_value_pct = unsigned 1
format Modes.update_liquidation_threshold_pct = unsigned 1
format Modes.update_protocol_liquidation_fee = unsigned 1
format Modes.update_protocol_take_rate = unsigned 1
format Modes.update_asset_tier = unsigned 1
format Modes.update_reserve_status = unsigned 1
format Modes.update_disable_usage_as_collateral_outside_emode = unsigned 1
format Modes.update_block_borrowing_above_utilization = unsigned 1
format Modes.update_block_price_usage = unsigned 1
format Modes.update_max_liquidation_bonus_bps = unsigned 2
format Modes.update_bad_debt_liquidation_bonus_bps = unsigned 2
format Modes.update_min_liquidation_bonus_bps = unsigned 2
format Modes.update_fees_borrow_fee = unsigned 8
format Modes.update_fees_flash_loan_fee = unsigned 8
format Modes.update_deposit_limit = unsigned 8
format Modes.update_borrow_limit = unsigned 8
format Modes.update_token_info_lower_heuristic = unsigned 8
format Modes.update_token_info_upper_heuristic = unsigned 8
format Modes.update_token_info_exp_heuristic = unsigned 8
format Modes.update_token_info_twap_divergence = unsigned 8
format Modes.update_token_info_price_max_age = unsigned 8
format Modes.update_token_info_twap_max_age = unsigned 8
format Modes.update_debt_withdrawal_cap_current_total = unsigned 8
format Modes.update_deposit_withdrawal_cap_current_total = unsigned 8
format Modes.deleveraging_margin_call_period = unsigned 8
format Modes.update_borrow_factor = unsigned 8
format Modes.deleveraging_threshold_slots_per_bps = unsigned 8
format Modes.update_borrow_limit_outside_elevation_group = unsigned 8
format Modes.update_token_info_scope_chain = sequence 2 8
format Modes.update_token_info_scope_twap = sequence 2 8
format Modes.update_token_info_name = sequence 1 32
format Modes.update_scope_price_feed = key_bytes
format Modes.update_pyth_price = key_bytes
format Modes.update_switchboard_feed = key_bytes
format Modes.update_switchboard_twap_feed = key_bytes
format Modes.update_farm_collateral = key_bytes
format Modes.update_farm_debt = key_bytes
format Modes.update_borrow_rate_curve = curve_bytes
format Modes.update_debt_withdrawal_cap = pair
format Modes.update_deposit_withdrawal_cap = pair
format Modes.update_elevation_group = sequence 1 20
format Modes.update_borrow_limits_in_elevation_group_against_this_reserve = sequence 8 (32 * 8)
format _ = nothing

-- `BigInt(valueArray[i])`, which throws for `undefined`.
unfoldable pub big_int_at : List ℕ → ℕ → Outcome ℕ
big_int_at ns i = or_throw (get_elem? ns i) "Cannot convert undefined to a BigInt"

module _ {K : Type 0} where
  -- `value as number`; the code passes a number wherever it reads one.
  unfoldable pub as_number : Value K → Outcome ℕ
  as_number (number n) = ok n
  as_number _ = error "the value is not a number"

  -- `value as number[]`: the array, which has no items if the value is no array.
  unfoldable pub as_numbers : Value K → List ℕ
  as_numbers (numbers ns) = ns
  as_numbers _ = []

  unfoldable pub as_curve : Value K → Outcome BorrowRateCurve
  as_curve (curve c) = ok c
  as_curve _ = error "cannot read properties of undefined"

  unfoldable pub as_key : Value K → Outcome K
  as_key (public_key k) = ok k
  as_key _ = error "toBuffer is not a function"

  module _ (codecs : Codecs K) where
    unfoldable pub encode_as : Format → Value K → Outcome Buffer
    unfolding as_number as_numbers as_curve as_key big_int_at
    encode_as (unsigned width) value = do n ← as_number value; write_uint_le n 0 width (alloc width)
    encode_as (sequence width size) value = write_each width (as_numbers value) 0 (alloc size)
    encode_as pair value = do
      first ← big_int_at (as_numbers value) 0
      written ← write_uint_le first 0 8 (alloc 16)
      second ← big_int_at (as_numbers value) 1
      write_uint_le second 8 8 written
    encode_as key_bytes value = do k ← as_key value; ok (codecs.to_buffer k)
    encode_as curve_bytes value = do c ← as_curve value; serialize_borrow_rate_curve c
    encode_as nothing value = ok (alloc 0)

    unfoldable pub update_reserve_config_encoded_value : UpdateConfigMode → Value K → Outcome Buffer
    unfolding format encode_as
    update_reserve_config_encoded_value m value = encode_as (format m) value
