-- ===== src/Reserve/Update/Expected.antt =====
-- The instructions that take one configuration to another by the settings of Reserve/Update/Settings,
-- beside the code of src/classes/reserve.ts.
use klend_sdk.Prelude.{ℕ, ◌≡◌, ◌⊎◌, List, [], ◌∷◌, Bool, true, false, ◌==◌, ◌&&◌, length}
use klend_sdk.Prelude.Outcome.{Outcome, ok}
use klend_sdk.Pubkey.Keys.{PublicKeys}
use klend_sdk.Reserve.Data.{ReserveConfig, CurvePoint}
use klend_sdk.Reserve.Interfaces.{Codecs}
use klend_sdk.Reserve.Modes.{UpdateConfigMode}
use klend_sdk.Reserve.Encode.{
  Value, number, numbers, curve, public_key, Format, unsigned, pair, format,
}
use klend_sdk.Reserve.Change.{Changes, no_change, unless, ◌>+>◌, change, bn, bn_pair}
use klend_sdk.Reserve.Update.Settings.{held}

abbrev pub list_eq : List ℕ → List ℕ → Bool
list_eq [] [] = true
list_eq (x ∷ xs) (y ∷ ys) = (x == y) && list_eq xs ys
list_eq _ _ = false

abbrev pub points_eq : List CurvePoint → List CurvePoint → Bool
points_eq [] [] = true
points_eq (x ∷ xs) (y ∷ ys) =
    ((x.utilization_rate_bps == y.utilization_rate_bps) && (x.borrow_rate_bps == y.borrow_rate_bps))
    && points_eq xs ys
points_eq _ _ = false

module _ {K : Type 0} ⦃p : PublicKeys K⦄ where
  -- Equality of two values.
  abbrev pub same_value : Value K → Value K → Bool
  same_value (number a) (number b) = a == b
  same_value (numbers xs) (numbers ys) = list_eq xs ys
  same_value (curve a) (curve b) = points_eq a.points b.points
  same_value (public_key a) (public_key b) = p.equals a b
  same_value _ _ = false

  -- What the code can update: one of the two fees at most, no total of a cap alone, and arrays of
  -- equal lengths, as the fixed layouts of the accounts have.
  pub record IsUpdatable (old new : ReserveConfig K) : Type 0 where
    pub one_fee :
        (old.fees.borrow_fee_sf ≡ new.fees.borrow_fee_sf)
        ⊎ (old.fees.flash_loan_fee_sf ≡ new.fees.flash_loan_fee_sf)
    pub deposit_total :
        old.deposit_withdrawal_cap.current_total ≡ new.deposit_withdrawal_cap.current_total
    pub debt_total : old.debt_withdrawal_cap.current_total ≡ new.debt_withdrawal_cap.current_total
    pub points : length old.borrow_rate_curve.points ≡ length new.borrow_rate_curve.points
    pub groups : length old.elevation_groups ≡ length new.elevation_groups
    pub name : length old.token_info.name ≡ length new.token_info.name
    pub price_chain :
        length old.token_info.scope_configuration.price_chain
        ≡ length new.token_info.scope_configuration.price_chain
    pub twap_chain :
        length old.token_info.scope_configuration.twap_chain
        ≡ length new.token_info.scope_configuration.twap_chain

-- The 64-bit settings are big integers.
abbrev pub is_big : Format → Bool
is_big (unsigned width) = width == 8
is_big pair = true
is_big _ = false

module _ {K : Type 0} (codecs : Codecs K) where
  abbrev pub converted : Bool → Value K → Outcome (Value K)
  converted true (number n) = bn codecs n
  converted true (numbers (a ∷ b ∷ [])) = bn_pair codecs a b
  converted _ value = ok value

  module _ ⦃p : PublicKeys K⦄ where
    abbrev pub update_of : UpdateConfigMode → ReserveConfig K → ReserveConfig K → Changes
    update_of m old new =
        unless (same_value (held m old) (held m new))
          (change codecs m (converted (is_big (format m)) (held m new)))

    -- One update for each setting that differs, in the order of the modes.
    unfoldable pub expected : List UpdateConfigMode → ReserveConfig K → ReserveConfig K → Changes
    expected [] old new = no_change
    expected (m ∷ ms) old new = update_of m old new >+> expected ms old new
