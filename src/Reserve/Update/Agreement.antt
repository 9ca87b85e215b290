-- ===== src/Reserve/Update/Agreement.antt =====
-- The code of src/classes/reserve.ts pushes the updates of Reserve/Update/Expected.
use klend_sdk.Prelude.{
  ℕ, ◌≡◌, ◌⊎◌, refl, sym, ap, ◌∙◌, List, [], ◌∷◌, ◌++◌, Bool, true, false, not, some, if◌then◌else◌,
  ◌==◌, ◌&&◌, ◌||◌, length, inl, inr, arith, append-nil, append_assoc,
}
use klend_sdk.Prelude.Outcome.{ok, error}
use klend_sdk.Pubkey.Keys.{PublicKeys}
use klend_sdk.Reserve.Data.{ReserveConfig, CurvePoint, WithdrawalCaps}
use klend_sdk.Reserve.Interfaces.{Codecs}
use klend_sdk.Reserve.Modes.{UpdateConfigMode}
use klend_sdk.Reserve.Encode.{format}
use klend_sdk.Reserve.Change.{Changes, no_change, unless, ◌>+>◌, arrays_differ, points_differ}
use klend_sdk.Reserve.Change.Plain
use klend_sdk.Reserve.Change.Structured.{
  fees_changes, deposit_withdrawal_cap_changes, debt_withdrawal_cap_changes,
  borrow_rate_curve_changes, elevation_groups_changes,
}
use klend_sdk.Reserve.Change.Token.{token_info_changes}
use klend_sdk.Reserve.Update.{ConfigKey, config_keys, changes_of, changes_for}
use klend_sdk.Reserve.Update
use klend_sdk.Reserve.Update.Settings.{held, modes_of}
use klend_sdk.Reserve.Update.Expected.{list_eq, points_eq, IsUpdatable, update_of, expected}

>+>-no_change : (c : Changes) → (c >+> no_change) ≡ c
unfolding ◌>+>◌
>+>-no_change (error message) = refl
>+>-no_change (ok xs) = ap ok (append-nil xs)

no_change->+> : (c : Changes) → (no_change >+> c) ≡ c
unfolding ◌>+>◌
no_change->+> (error message) = refl
no_change->+> (ok xs) = refl

>+>_assoc : (a b c : Changes) → ((a >+> b) >+> c) ≡ (a >+> (b >+> c))
unfolding ◌>+>◌
>+>_assoc (error message) b c = refl
>+>_assoc (ok xs) (error message) c = refl
>+>_assoc (ok xs) (ok ys) (error message) = refl
>+>_assoc (ok xs) (ok ys) (ok zs) = ap ok (append_assoc xs ys zs)

-- On arrays of one length the loops decide whether the arrays are equal.
arrays_differ_lem :
    (old new : List ℕ) → length old ≡ length new → not (arrays_differ old new) ≡ list_eq old new
unfolding arrays_differ
arrays_differ_lem [] [] h = refl
arrays_differ_lem [] (n ∷ new) h = absurd (omega arith)
arrays_differ_lem (o ∷ old) [] h = absurd (omega arith)
arrays_differ_lem (o ∷ old) (n ∷ new) h = ground (arith, arrays_differ_lem old new)

points_differ_lem :
    (old new : List CurvePoint)
    → length old ≡ length new
    → points_differ old new ≡ ok (not (points_eq old new))
unfolding points_differ
points_differ_lem [] [] h = refl
points_differ_lem [] (n ∷ new) h = absurd (omega arith)
points_differ_lem (o ∷ old) [] h = absurd (omega arith)
points_differ_lem (o ∷ old) (n ∷ new) h = ground (arith, points_differ_lem old new)

not-not : (b : Bool) → not (not b) ≡ b
not-not true = refl
not-not false = refl

-- An `else if` chain against separate tests: of two things, at most one is not the same.
one_of_two :
    (a b : Bool) (x y : Changes)
    → (a ≡ true) ⊎ (b ≡ true)
    → (if not a then x else (if not b then y else no_change))
      ≡ (unless a x >+> (unless b y >+> no_change))
one_of_two true true x y h = sym (no_change->+> _ ∙ no_change->+> _)
one_of_two true false x y h = sym (no_change->+> _ ∙ >+>-no_change y)
one_of_two false true x y h = sym (ap (λ rest. x >+> rest) (no_change->+> _) ∙ >+>-no_change x)
one_of_two false false x y (inl h) = cc
one_of_two false false x y (inr h) = cc

without_third :
    (a b c : Bool) (x y : Changes)
    → c ≡ true
    → (if not a || not b then x else (if not c then y else no_change))
      ≡ (unless (a && (b && true)) x >+> no_change)
without_third a b false x y h = cc
without_third true true true x y h = sym (no_change->+> _)
without_third true false true x y h = sym (>+>-no_change x)
without_third false b true x y h = sym (>+>-no_change x)

same_number : (m n : ℕ) → m ≡ n → (m == n) ≡ true
same_number m n h = ground arith

-- The modes of a list of keys.
abbrev pub modes_of_keys : List ConfigKey → List UpdateConfigMode
modes_of_keys [] = []
modes_of_keys (k ∷ ks) = modes_of k ++ modes_of_keys ks

module _ {K : Type 0} (codecs : Codecs K) ⦃p : PublicKeys K⦄ (old new : ReserveConfig K) where
  -- The branch of the key pushes the updates of its modes.
  abbrev Agrees : ConfigKey → Type 0
  Agrees k = changes_of codecs k (some old) new ≡ expected codecs (modes_of k) old new

  fees-Agrees : IsUpdatable old new → Agrees Update.fees
  unfolding changes_of modes_of expected held fees_changes format
  fees-Agrees v =
      one_of_two (old.fees.borrow_fee_sf == new.fees.borrow_fee_sf)
        (old.fees.flash_loan_fee_sf == new.fees.flash_loan_fee_sf) _ _
        (elim v.one_fee [
          | inl borrow ↦ inl (same_number old.fees.borrow_fee_sf new.fees.borrow_fee_sf borrow)
          | inr flash ↦
              inr (same_number old.fees.flash_loan_fee_sf new.fees.flash_loan_fee_sf flash)
        ])

  curve-Agrees : IsUpdatable old new → Agrees Update.borrow_rate_curve
  unfolding changes_of modes_of expected held borrow_rate_curve_changes format
  curve-Agrees v =
      rw
        (
          points_differ_lem old.borrow_rate_curve.points new.borrow_rate_curve.points v.points,
          >+>-no_change,
          not-not,
        )
        refl

  groups-Agrees : IsUpdatable old new → Agrees Update.elevation_groups
  unfolding changes_of modes_of expected held elevation_groups_changes format
  groups-Agrees v =
      rw (arrays_differ_lem old.elevation_groups new.elevation_groups v.groups, >+>-no_change) refl

  token-Agrees : IsUpdatable old new → Agrees Update.token_info
  unfolding changes_of modes_of expected held token_info_changes format
  token-Agrees v =
      rw
        (
          arrays_differ_lem old.token_info.name new.token_info.name v.name,
          arrays_differ_lem old.token_info.scope_configuration.price_chain
              new.token_info.scope_configuration.price_chain v.price_chain,
          arrays_differ_lem old.token_info.scope_configuration.twap_chain
              new.token_info.scope_configuration.twap_chain v.twap_chain,
          >+>-no_change,
        )
        refl

  deposit_cap-Agrees : IsUpdatable old new → Agrees Update.deposit_withdrawal_cap
  unfolding changes_of modes_of expected held deposit_withdrawal_cap_changes format
  deposit_cap-Agrees v =
      let from : WithdrawalCaps = old.deposit_withdrawal_cap in
      let to : WithdrawalCaps = new.deposit_withdrawal_cap in
      without_third (from.config_capacity == to.config_capacity)
        (from.config_interval_length_seconds == to.config_interval_length_seconds)
        (from.current_total == to.current_total) _ _
        (same_number from.current_total to.current_total v.deposit_total)

  debt_cap-Agrees : IsUpdatable old new → Agrees Update.debt_withdrawal_cap
  unfolding changes_of modes_of expected held debt_withdrawal_cap_changes format
  debt_cap-Agrees v =
      let from : WithdrawalCaps = old.debt_withdrawal_cap in
      let to : WithdrawalCaps = new.debt_withdrawal_cap in
      without_third (from.config_capacity == to.config_capacity)
        (from.config_interval_length_seconds == to.config_interval_length_seconds)
        (from.current_total == to.current_total) _ _
        (same_number from.current_total to.current_total v.debt_total)

  changes_of-expected : IsUpdatable old new → (k : ConfigKey) → Agrees k
  unfolding changes_of modes_of expected held format Plain.deposit_limit_changes
      Plain.borrow_limit_changes Plain.max_liquidation_bonus_bps_changes
      Plain.min_liquidation_bonus_bps_changes Plain.bad_debt_liquidation_bonus_bps_changes
      Plain.liquidation_threshold_pct_changes Plain.protocol_take_rate_pct_changes
      Plain.status_changes Plain.disable_usage_as_coll_outside_emode_changes
      Plain.utilization_limit_block_borrowing_above_changes
      Plain.deleveraging_threshold_slots_per_bps_changes Plain.borrow_factor_pct_changes
      Plain.loan_to_value_pct_changes Plain.protocol_liquidation_fee_pct_changes
      Plain.deleveraging_margin_call_period_secs_changes Plain.asset_tier_changes
  changes_of-expected v Update.fees = fees-Agrees v
  changes_of-expected v Update.borrow_rate_curve = curve-Agrees v
  changes_of-expected v Update.elevation_groups = groups-Agrees v
  changes_of-expected v Update.token_info = token-Agrees v
  changes_of-expected v Update.deposit_withdrawal_cap = deposit_cap-Agrees v
  changes_of-expected v Update.debt_withdrawal_cap = debt_cap-Agrees v
  changes_of-expected v Update.host_fixed_interest_rate_bps = refl
  changes_of-expected v Update.reserved1 = refl
  changes_of-expected v Update.reserved2 = refl
  changes_of-expected v Update.reserved3 = refl
  changes_of-expected v Update.borrow_limit_outside_elevation_group = refl
  changes_of-expected v Update.borrow_limit_against_this_collateral_in_elevation_group = refl
  changes_of-expected v _ = sym (>+>-no_change _)

  expected-append :
      (ms ns : List UpdateConfigMode)
      → expected codecs (ms ++ ns) old new
        ≡ (expected codecs ms old new >+> expected codecs ns old new)
  unfolding expected
  expected-append [] ns = sym (no_change->+> _)
  expected-append (m ∷ ms) ns =
      ap (λ rest. update_of codecs m old new >+> rest) (expected-append ms ns)
      ∙ sym (>+>_assoc _ _ _)

  pub changes_for-expected :
      IsUpdatable old new
      → (ks : List ConfigKey)
      → changes_for codecs ks (some old) new ≡ expected codecs (modes_of_keys ks) old new
  unfolding changes_for expected
  changes_for-expected v [] = refl
  changes_for-expected v (k ∷ ks) =
      ap (λ c. c >+> changes_for codecs ks (some old) new) (changes_of-expected v k)
      ∙ ap (λ rest. expected codecs (modes_of k) old new >+> rest) (changes_for-expected v ks)
      ∙ sym (expected-append (modes_of k) (modes_of_keys ks))
