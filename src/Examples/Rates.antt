-- ===== src/Examples/Rates.antt =====
-- The borrow rates of src/classes/utils.ts on a curve of whole numbers, with a utilisation of 10000
-- for all of it.
use klend_sdk.Prelude.{
  ℕ, ◌+◌, ◌-◌, ◌*◌, ◌/◌, ◌≤◌, ◌≡◌, refl, List, [], ◌∷◌, Option, ltb, leb, ◌==◌, length, arith,
}
use klend_sdk.Prelude.Outcome.{ok}
use klend_sdk.Reserve.Data.{CurvePoint}
use klend_sdk.Reserve.Encode.Returns.{Returns}
use klend_sdk.Reserve.Rates.{Numbers, get_borrow_rate, pad_points, truncate_borrow_curve}
use klend_sdk.Reserve.Rates.Order.{IsOrdered}
use klend_sdk.Reserve.Rates.Bounds.{IsCurve, get_borrow_rate-Returns}
use klend_sdk.Reserve.Rates.Values.{IsRounded, IsOnCurve, get_borrow_rate-IsOnCurve}
use klend_sdk.Reserve.Rates.Padding.{present, truncate-pad_points}

abbrev pub bps : Numbers ℕ
bps = record {
  zero = 0;
  one = 10000;
  add = λ a b. a + b;
  sub = λ a b. a - b;
  mul = λ a b. a * b;
  div = λ a b. a / b;
  lt = ltb;
  le = leb;
  eq = λ a b. a == b;
  of_nat = λ a. a;
}

bps-IsOrdered : IsOrdered bps
bps-IsOrdered = record {
  eq_iff = λ a b. (λ h. ground arith, λ h. ground arith);
  le_iff = λ a b. (λ h. ground arith, λ h. ground arith);
  lt_irrefl = λ a. ground arith;
  lt_trans = λ a b c h g. ground arith;
  le_trans = λ a b c h g. ground arith;
}

-- The rate is 5% up to a utilisation of 80%, and grows to 105% behind it.
abbrev kinked : List (ℕ × ℕ)
kinked = (0, 500) ∷ (8000, 500) ∷ (10000, 10500) ∷ []

kinked-IsCurve : IsCurve bps bps-IsOrdered (0, 500) (8000, 500) ((10000, 10500) ∷ [])
kinked-IsCurve = record { start = refl; increasing = (refl, refl, (refl, refl, tt)); full = refl }

at_90 : get_borrow_rate ⦃n = bps⦄ 9000 kinked ≡ ok 5500
unfolding get_borrow_rate
at_90 = refl

bps-IsRounded : IsRounded bps (λ x. x ≤ 1000000)
bps-IsRounded = record {
  between_small = λ a b x ha hb h g. ground arith;
  sub_small = λ a b ha hb h. ground arith;
  zero_small = omega arith;
  sub_pos = λ a b ha hb h. ground arith;
  mul_nonneg = λ a b ha hb. ground arith;
  div_nonneg = λ a b h hb g. ground arith;
  add_nonneg = λ a b ha h. ground arith;
}

get_borrow_rate-Returns_example : Returns (get_borrow_rate ⦃n = bps⦄ 9000 kinked)
get_borrow_rate-Returns_example =
    get_borrow_rate-Returns bps bps-IsOrdered 9000 (0, 500) (8000, 500) ((10000, 10500) ∷ [])
      kinked-IsCurve refl

get_borrow_rate-IsOnCurve_example :
    IsOnCurve bps bps-IsOrdered
      (λ x. x ≤ 1000000)
      bps-IsRounded
      9000
      (0, 500)
      ((8000, 500) ∷ (10000, 10500) ∷ [])
      (get_borrow_rate ⦃n = bps⦄ 9000 kinked)
get_borrow_rate-IsOnCurve_example =
    get_borrow_rate-IsOnCurve bps bps-IsOrdered (λ x. x ≤ 1000000) bps-IsRounded 9000 (0, 500)
      (8000, 500) ((10000, 10500) ∷ []) kinked-IsCurve refl
      ((omega arith, omega arith), ((omega arith, omega arith), ((omega arith, omega arith), tt)))

abbrev kinked_points : List CurvePoint
kinked_points =
    record { utilization_rate_bps = 0; borrow_rate_bps = 500 }
    ∷ record { utilization_rate_bps = 8000; borrow_rate_bps = 500 }
    ∷ record { utilization_rate_bps = 10000; borrow_rate_bps = 10500 }
    ∷ []

truncate-pad_points_example :
    (padded : List (Option CurvePoint)) × (pad_points kinked_points ≡ ok padded)
    × (length padded ≡ 11)
    × (truncate_borrow_curve ⦃n = bps⦄ (present padded)
        ≡ truncate_borrow_curve ⦃n = bps⦄ kinked_points)
truncate-pad_points_example = truncate-pad_points bps kinked_points (omega arith) refl
