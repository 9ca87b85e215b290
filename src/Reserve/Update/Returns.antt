-- ===== src/Reserve/Update/Returns.antt =====
-- When `parseForChangesReserveConfigAndGetIxs` of src/classes/reserve.ts returns.
use klend_sdk.Prelude.{
  ℕ, ◌^◌, ◌<◌, ◌≡◌, refl, ◌∙◌, List, [], ◌∷◌, ◌++◌, All, Bool, true, some, Bool-cases, inl, inr,
  map, ◌+◌,
}
use klend_sdk.Prelude.Outcome.{ok, ◌>>=◌}
use klend_sdk.Pubkey.Keys.{PublicKeys}
use klend_sdk.Reserve.Data.{ReserveConfig}
use klend_sdk.Reserve.Interfaces.{Codecs}
use klend_sdk.Reserve.Modes.{UpdateConfigMode, discriminator}
use klend_sdk.Reserve.Encode.{Value, number, numbers, format}
use klend_sdk.Reserve.Encode.Returns.{Returns, Fits, update_reserve_config_encoded_value-Returns}
use klend_sdk.Reserve.Change.{Change, ◌>+>◌, change, change_as}
use klend_sdk.Reserve.Update.{
  MarketWithAddress, update_reserve_config_ix, config_keys,
  parse_for_changes_reserve_config_and_get_ixs,
}
use klend_sdk.Reserve.Update.Settings.{held}
use klend_sdk.Reserve.Update.Expected.{
  same_value, IsUpdatable, converted, is_big, update_of, expected,
}
use klend_sdk.Reserve.Update.Agreement.{modes_of_keys, changes_for-expected}

-- `toNumber` returns for a number of at most 53 bits.
abbrev pub ReturnsSmall : {K : Type 0} → Codecs K → Type 0
ReturnsSmall c = (n : ℕ) → n < 2 ^ 53 → c.to_number n ≡ ok n

-- The big integers of a value have at most 53 bits.
abbrev pub Small : {K : Type 0} → Bool → Value K → Type 0
Small true (number n) = n < 2 ^ 53
Small true (numbers ns) = All (λ n. n < 2 ^ 53) ns
Small _ _ = Unit

-- Every setting that the code updates has room in its encoding.
abbrev pub IsEncodable : {K : Type 0} → ReserveConfig K → Type 0
IsEncodable c =
    All (λ m. Fits (format m) (held m c) × Small (is_big (format m)) (held m c))
      (modes_of_keys config_keys)

module _ {K : Type 0} (codecs : Codecs K) (returns : ReturnsSmall codecs) where
  converted_lem : (big : Bool) (v : Value K) → Small big v → converted codecs big v ≡ ok v
  converted_lem true (number n) small = rw (returns n small) refl
  converted_lem true (numbers (a ∷ b ∷ [])) (small_a, (small_b, u)) =
      rw (returns a small_a, returns b small_b) refl
  converted_lem _ v small = refl

  change-Returns :
      (m : UpdateConfigMode) (v : Value K)
      → Fits (format m) v
      → Small (is_big (format m)) v
      → Returns (change codecs m (converted codecs (is_big (format m)) v))
  unfolding change_as
  change-Returns m v fits small =
      let (bytes, e) = update_reserve_config_encoded_value-Returns codecs m v fits in
      (
        record { mode = m; value = bytes } ∷ [],
        rw (converted_lem (is_big (format m)) v small, e) refl,
      )

  module _ ⦃p : PublicKeys K⦄ (old new : ReserveConfig K) where
    update_of-Returns :
        (m : UpdateConfigMode)
        → Fits (format m) (held m new)
        → Small (is_big (format m)) (held m new)
        → Returns (update_of codecs m old new)
    update_of-Returns m fits small = elim (Bool-cases (same_value (held m old) (held m new))) [
      | inl same ↦ ([], rw same refl)
      | inr differ ↦ let (cs, e) = change-Returns m (held m new) fits small in (cs, rw differ e)
    ]

    expected-Returns :
        (ms : List UpdateConfigMode)
        → All (λ m. Fits (format m) (held m new) × Small (is_big (format m)) (held m new)) ms
        → Returns (expected codecs ms old new)
    unfolding expected ◌>+>◌
    expected-Returns [] fits = ([], refl)
    expected-Returns (m ∷ ms) ((fits, small), rest) =
        let (xs, ex) = update_of-Returns m fits small in
        let (ys, ey) = expected-Returns ms rest in
        (xs ++ ys, (λ i. ex i >>= λ xs. ey i >>= λ ys. ok (xs ++ ys)))

    -- The update of a reserve returns if it changes at most one of the two fees, no current total of a
    -- cap, and the length of no array, every covered setting of the new configuration has room in its
    -- encoding and its big integers are below 2^53, and `toNumber` returns the number below that
    -- bound.
    pub parse_for_changes_reserve_config_and_get_ixs-Returns :
        (market : MarketWithAddress K) (reserve_address : K)
        → IsUpdatable old new
        → IsEncodable new
        → Returns (
            parse_for_changes_reserve_config_and_get_ixs codecs market
              (some old)
              reserve_address
              new)
    unfolding parse_for_changes_reserve_config_and_get_ixs
    parse_for_changes_reserve_config_and_get_ixs-Returns market reserve_address v fits =
        let (cs, e) = expected-Returns (modes_of_keys config_keys) fits in
        let pushed = changes_for-expected codecs old new v config_keys ∙ e in
        (
          map
              (λ (c : Change).
                update_reserve_config_ix market reserve_address (discriminator c.mode + 1) c.value)
              cs,
          rw pushed refl,
        )
