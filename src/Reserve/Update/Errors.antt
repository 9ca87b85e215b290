-- ===== src/Reserve/Update/Errors.antt =====
-- The error paths of `parseForChangesReserveConfigAndGetIxs` of src/classes/reserve.ts: the total of a
-- withdrawal cap is encoded with the mode of the cap, which asks for two numbers.
use Prim.Native.String.{String}
use klend_sdk.Prelude.{
  ℕ, ◌≡◌, ◌≢◌, ◌⊎◌, inl, inr, refl, List, [], ◌∷◌, ◌++◌, Option, none, some, take, drop, ◌==◌, true,
  false, arith,
}
use klend_sdk.Prelude.Outcome.{Outcome, ok, error, ◌>>=◌}
use klend_sdk.Pubkey.Keys.{PublicKeys}
use klend_sdk.Reserve.Data.{ReserveConfig, WithdrawalCaps}
use klend_sdk.Reserve.Interfaces.{Codecs}
use klend_sdk.Reserve.Modes.{UpdateConfigMode}
use klend_sdk.Reserve.Modes
use klend_sdk.Reserve.Encode.{number, pair, format, update_reserve_config_encoded_value}
use klend_sdk.Reserve.Change.{Changes, ◌>+>◌, change_as}
use klend_sdk.Reserve.Change.Structured.{
  cap_created, cap_updated, deposit_withdrawal_cap_changes, debt_withdrawal_cap_changes,
}
use klend_sdk.Reserve.Update.{
  ConfigKey, deposit_withdrawal_cap, debt_withdrawal_cap, config_keys, changes_of, changes_for,
  parse_for_changes_reserve_config_and_get_ixs, MarketWithAddress,
}

-- The computation throws.
abbrev pub IsError : {A : Type 0} → Outcome A → Type 0
IsError o = (message : String) × (o ≡ error message)

second-IsError : (first second : Changes) → IsError second → IsError (first >+> second)
unfolding ◌>+>◌
second-IsError (error message) second e = (message, refl)
second-IsError (ok xs) second (message, e) = (message, rw e refl)

first-IsError : (first second : Changes) → IsError first → IsError (first >+> second)
unfolding ◌>+>◌
first-IsError first second (message, e) = (message, rw e refl)

-- The total of a cap is another one; its capacity and its interval are the same.
abbrev pub OnlyTotalDiffers : WithdrawalCaps → WithdrawalCaps → Type 0
OnlyTotalDiffers old new =
    (old.config_capacity ≡ new.config_capacity)
    × (old.config_interval_length_seconds ≡ new.config_interval_length_seconds)
    × (old.current_total ≢ new.current_total)

module _ {K : Type 0} (codecs : Codecs K) where
  -- One number where the format asks for two.
  converted-IsError :
      (total capped : UpdateConfigMode) (n : Outcome ℕ)
      → format capped ≡ pair
      → IsError (change_as codecs total capped (n >>= λ k. ok (number k)))
  unfolding change_as update_reserve_config_encoded_value
  converted-IsError total capped (error message) e = (message, refl)
  converted-IsError total capped (ok k) e = ("Cannot convert undefined to a BigInt", rw e refl)

  cap_created-IsError :
      (capped total : UpdateConfigMode) (new : WithdrawalCaps)
      → format capped ≡ pair
      → IsError (cap_created codecs capped total new)
  unfolding cap_created
  cap_created-IsError capped total new e =
      second-IsError _ _ (converted-IsError total capped (codecs.to_number new.current_total) e)

  cap_updated-IsError :
      (capped total : UpdateConfigMode) (old new : WithdrawalCaps)
      → format capped ≡ pair
      → OnlyTotalDiffers old new
      → IsError (cap_updated codecs capped total old new)
  unfolding cap_updated
  cap_updated-IsError capped total old new e (capacity, interval, total_differs) =
      let same_capacity : (old.config_capacity == new.config_capacity) ≡ true = ground arith in
      let same_interval : (old.config_interval_length_seconds == new.config_interval_length_seconds)
          ≡ true =
        ground arith in
      let other_total : (old.current_total == new.current_total) ≡ false = ground arith in
      let thrown = converted-IsError total capped (codecs.to_number new.current_total) e in
      (thrown.0, rw (same_capacity, same_interval, other_total) thrown.1)

  module _ ⦃p : PublicKeys K⦄ (reserve : Option (ReserveConfig K)) (new : ReserveConfig K) where
    changes_for-IsError :
        (before : List ConfigKey) (k : ConfigKey) (after : List ConfigKey)
        → IsError (changes_of codecs k reserve new)
        → IsError (changes_for codecs (before ++ k ∷ after) reserve new)
    unfolding changes_for
    changes_for-IsError [] k after e = first-IsError _ _ e
    changes_for-IsError (b ∷ before) k after e =
        second-IsError _ _ (changes_for-IsError before k after e)

    module _ (market : MarketWithAddress K) (reserve_address : K) where
      parse-IsError :
          IsError (changes_for codecs config_keys reserve new)
          → IsError (
              parse_for_changes_reserve_config_and_get_ixs codecs market reserve reserve_address
                new)
      unfolding parse_for_changes_reserve_config_and_get_ixs
      parse-IsError (message, e) = (message, rw e refl)

module _ {K : Type 0} (codecs : Codecs K) ⦃p : PublicKeys K⦄ (market : MarketWithAddress K)
    (reserve_address : K) where
  -- Without a reserve to compare with, the update throws for every configuration.
  pub parse_for_changes_reserve_config_and_get_ixs_creation :
      (new : ReserveConfig K)
      → IsError
          (parse_for_changes_reserve_config_and_get_ixs codecs market none reserve_address new)
  unfolding changes_of deposit_withdrawal_cap_changes format
  parse_for_changes_reserve_config_and_get_ixs_creation new =
      parse-IsError codecs none new market reserve_address (
        changes_for-IsError codecs none new (take 20 config_keys) deposit_withdrawal_cap
          (drop 21 config_keys)
          (cap_created-IsError codecs Modes.update_deposit_withdrawal_cap
            Modes.update_deposit_withdrawal_cap_current_total new.deposit_withdrawal_cap refl))

  -- The update throws if the current total of the deposit cap or of the debt cap changes while the
  -- capacity and the interval of that cap stay.
  pub parse_for_changes_reserve_config_and_get_ixs_total :
      (old new : ReserveConfig K)
      → OnlyTotalDiffers old.deposit_withdrawal_cap new.deposit_withdrawal_cap
        ⊎ OnlyTotalDiffers old.debt_withdrawal_cap new.debt_withdrawal_cap
      → IsError (
          parse_for_changes_reserve_config_and_get_ixs codecs market (some old) reserve_address new)
  unfolding changes_of deposit_withdrawal_cap_changes debt_withdrawal_cap_changes format
  parse_for_changes_reserve_config_and_get_ixs_total old new (inl deposit) =
      parse-IsError codecs (some old) new market reserve_address (
        changes_for-IsError codecs (some old) new (take 20 config_keys) deposit_withdrawal_cap
          (drop 21 config_keys)
          (cap_updated-IsError codecs Modes.update_deposit_withdrawal_cap
            Modes.update_deposit_withdrawal_cap_current_total old.deposit_withdrawal_cap
            new.deposit_withdrawal_cap refl deposit))
  parse_for_changes_reserve_config_and_get_ixs_total old new (inr debt) =
      parse-IsError codecs (some old) new market reserve_address (
        changes_for-IsError codecs (some old) new (take 21 config_keys) debt_withdrawal_cap
          (drop 22 config_keys)
          (cap_updated-IsError codecs Modes.update_debt_withdrawal_cap
            Modes.update_debt_withdrawal_cap_current_total old.debt_withdrawal_cap
            new.debt_withdrawal_cap refl debt))
