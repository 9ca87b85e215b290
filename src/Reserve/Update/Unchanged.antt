-- ===== src/Reserve/Update/Unchanged.antt =====
-- The update of src/classes/reserve.ts to the same configuration.
use klend_sdk.Prelude.{ℕ, ◌≡◌, refl, ◌∙◌, List, [], ◌∷◌, true, some, inl, ==_refl}
use klend_sdk.Prelude.Outcome.{ok}
use klend_sdk.Pubkey.Keys.{PublicKeys, equals_refl}
use klend_sdk.Reserve.Data.{ReserveConfig, CurvePoint}
use klend_sdk.Reserve.Interfaces.{Codecs}
use klend_sdk.Reserve.Modes.{UpdateConfigMode}
use klend_sdk.Reserve.Encode.{Value, number, numbers, curve, public_key}
use klend_sdk.Reserve.Change.{no_change, ◌>+>◌}
use klend_sdk.Reserve.Update.{
  MarketWithAddress, config_keys, parse_for_changes_reserve_config_and_get_ixs,
}
use klend_sdk.Reserve.Update.Settings.{held}
use klend_sdk.Reserve.Update.Expected.{list_eq, points_eq, same_value, IsUpdatable, expected}
use klend_sdk.Reserve.Update.Agreement.{modes_of_keys, changes_for-expected}

list_eq_refl : (xs : List ℕ) → list_eq xs xs ≡ true
list_eq_refl [] = refl
list_eq_refl (x ∷ xs) = rw (==_refl x) (list_eq_refl xs)

points_eq_refl : (xs : List CurvePoint) → points_eq xs xs ≡ true
points_eq_refl [] = refl
points_eq_refl (x ∷ xs) =
    rw (==_refl x.utilization_rate_bps, ==_refl x.borrow_rate_bps) (points_eq_refl xs)

module _ {K : Type 0} ⦃p : PublicKeys K⦄ where
  same_value_refl : (v : Value K) → same_value v v ≡ true
  same_value_refl (number n) = ==_refl n
  same_value_refl (numbers ns) = list_eq_refl ns
  same_value_refl (curve c) = points_eq_refl c.points
  same_value_refl (public_key k) = equals_refl k

  same-IsUpdatable : (c : ReserveConfig K) → IsUpdatable c c
  same-IsUpdatable c = record {
    one_fee = inl refl;
    deposit_total = refl;
    debt_total = refl;
    points = refl;
    groups = refl;
    name = refl;
    price_chain = refl;
    twap_chain = refl;
  }

  module _ (codecs : Codecs K) where
    expected_unchanged :
        (ms : List UpdateConfigMode) (c : ReserveConfig K) → expected codecs ms c c ≡ no_change
    unfolding expected ◌>+>◌
    expected_unchanged [] c = refl
    expected_unchanged (m ∷ ms) c = rw (same_value_refl (held m c), expected_unchanged ms c) refl

    -- The update of a reserve to the configuration that it has returns no instruction.
    pub parse_for_changes_reserve_config_and_get_ixs_unchanged :
        (market : MarketWithAddress K) (reserve_address : K) (c : ReserveConfig K)
        → parse_for_changes_reserve_config_and_get_ixs codecs market (some c) reserve_address c
          ≡ ok []
    unfolding parse_for_changes_reserve_config_and_get_ixs
    parse_for_changes_reserve_config_and_get_ixs_unchanged market reserve_address c =
        rw
          (changes_for-expected codecs c c (same-IsUpdatable c) config_keys
            ∙ expected_unchanged (modes_of_keys config_keys) c)
          refl
