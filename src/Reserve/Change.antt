-- ===== src/Reserve/Change.antt =====
-- The parts of `parseForChangesReserveConfigAndGetIxs` of src/classes/reserve.ts that its branches
-- share: one update of a setting, and the loops that compare arrays.
pub mod Plain
pub mod Structured
pub mod Token
use klend_sdk.Prelude.{ℕ, List, [], ◌∷◌, ◌++◌, Bool, true, false, if◌then◌else◌, ◌==◌, ◌&&◌}
use klend_sdk.Prelude.Outcome.{Outcome, ok, error, ◌>>=◌}
use klend_sdk.Reserve.Data.{CurvePoint}
use klend_sdk.Reserve.Bytes.{Buffer}
use klend_sdk.Reserve.Interfaces.{Codecs}
use klend_sdk.Reserve.Modes.{UpdateConfigMode}
use klend_sdk.Reserve.Encode.{Value, number, numbers, update_reserve_config_encoded_value}

-- An item of `updateReserveIxnsArgs`.
pub record Change : Type 0 where
  pub mode : UpdateConfigMode
  pub value : Buffer

-- The array `updateReserveIxnsArgs`, or what was thrown on the way.
abbrev pub Changes : Type 0
Changes = Outcome (List Change)

-- The items that two pieces of the code push, one after the other.
infixr 5 ◌>+>◌
unfoldable pub ◌>+>◌ : Changes → Changes → Changes
first >+> second = do xs ← first; ys ← second; ok (xs ++ ys)

abbrev pub no_change : Changes
no_change = ok []

-- A branch `if (!same) { .. }`.
abbrev pub unless : Bool → Changes → Changes
unless same pushed = if same then no_change else pushed

module _ {K : Type 0} (codecs : Codecs K) where
  -- `n.toNumber()` of a big integer.
  abbrev pub bn : ℕ → Outcome (Value K)
  bn n = do converted ← codecs.to_number n; ok (number converted)

  abbrev pub bn_pair : ℕ → ℕ → Outcome (Value K)
  bn_pair a b = do
    first ← codecs.to_number a
    second ← codecs.to_number b
    ok (numbers (first ∷ second ∷ []))

  -- `push({ mode: m.discriminator, value: updateReserveConfigEncodedValue(encoded.discriminator, value) })`.
  unfoldable pub change_as : UpdateConfigMode → UpdateConfigMode → Outcome (Value K) → Changes
  change_as m encoded value = do
    v ← value
    bytes ← update_reserve_config_encoded_value codecs encoded v
    ok (record { mode = m; value = bytes } ∷ [])

  abbrev pub change : UpdateConfigMode → Outcome (Value K) → Changes
  change m value = change_as m m value

-- `for (i < new.length) if (old[i] !== new[i]) { ..; break; }`: whether the body is reached. A missing
-- item of the old array is `undefined`, which differs from any number.
unfoldable pub arrays_differ : List ℕ → List ℕ → Bool
arrays_differ old [] = false
arrays_differ [] (n ∷ new) = true
arrays_differ (o ∷ old) (n ∷ new) =
    let rest = arrays_differ old new in if o == n then rest else true

-- The loop over the points of a curve, which throws at a missing old point.
unfoldable pub points_differ : List CurvePoint → List CurvePoint → Outcome Bool
points_differ old [] = ok false
points_differ [] (n ∷ new) = error "cannot read properties of undefined"
points_differ (o ∷ old) (n ∷ new) =
    let rest = points_differ old new in
    if (o.utilization_rate_bps == n.utilization_rate_bps)
      && (o.borrow_rate_bps == n.borrow_rate_bps)
    then rest
    else ok true
