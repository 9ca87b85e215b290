-- ===== src/Reserve/Rates.antt =====
-- The curve of borrow rates: src/classes/curve.ts, `interpolate` and `getBorrowRate` of
-- src/classes/utils.ts, and `truncateBorrowCurve` of src/classes/reserve.ts.
pub mod Padding
pub mod Order
pub mod Bounds
pub mod Points
pub mod Values
use klend_sdk.Prelude.{
  ℕ, zero, suc, ◌+◌, ◌-◌, List, [], ◌∷◌, ◌++◌, Bool, true, false, Option, none, some, if◌then◌else◌,
  ltb, ◌==◌, ◌&&◌, ◌||◌, length, replicate, map,
}
use klend_sdk.Prelude.Outcome.{Outcome, ok, error, ◌>>=◌}
use klend_sdk.Reserve.Data.{CurvePoint, BorrowRateCurve}

-- JavaScript numbers, as the rates use them.
pub record Numbers (N : Type 0) : Type 0 where
  pub zero : N
  pub one : N
  pub add : N → N → N
  pub sub : N → N → N
  pub mul : N → N → N
  pub div : N → N → N
  pub lt : N → N → Bool
  pub le : N → N → Bool
  pub eq : N → N → Bool
  pub of_nat : ℕ → N

abbrev pub curve_points_length : ℕ
curve_points_length = 11

-- `points[points.length - 1]`, which is `undefined` in an empty array.
abbrev pub last : {A : Type 0} → List A → Option A
last [] = none
last (x ∷ []) = some x
last (x ∷ y ∷ rest) = last (y ∷ rest)

-- `padPoints`. A point may be `undefined`; an array of negative length throws.
unfoldable pub pad_points : {A : Type 0} → List A → Outcome (List (Option A))
pad_points points =
    if ltb curve_points_length (length points)
    then error "Invalid array length"
    else ok (map some points ++ replicate (curve_points_length - length points) (last points))

unfoldable pub new_flat : ℕ → Outcome (List (Option CurvePoint))
unfolding pad_points
new_flat borrow_rate_bps = pad_points (
    record { utilization_rate_bps = 0; borrow_rate_bps = borrow_rate_bps }
    ∷ record { utilization_rate_bps = 10000; borrow_rate_bps = borrow_rate_bps }
    ∷ [])

-- What the loop of `getBorrowRate` finds: the rate of a point, or the ends of a segment.
pub data Found (N : Type 0) : Type 0 where
  rate : N → Found N
  segment : (x0 y0 x1 y1 : N) → Found N

module _ {N : Type 0} ⦃n : Numbers N⦄ where
  -- `truncateBorrowCurve`.
  unfoldable pub truncate_borrow_curve : List CurvePoint → List (N × N)
  truncate_borrow_curve [] = []
  truncate_borrow_curve (point ∷ rest) =
      let later = truncate_borrow_curve rest in
      (
        n.div (n.of_nat point.utilization_rate_bps) (n.of_nat 10000),
        n.div (n.of_nat point.borrow_rate_bps) (n.of_nat 10000),
      )
      ∷ (if point.utilization_rate_bps == 10000 then [] else later)

  unfoldable pub interpolate : N → N → N → N → N → Outcome N
  interpolate x x0 x1 y0 y1 =
      if n.lt x1 x
      then error "Cannot do extrapolation"
      else ok (n.add y0 (n.div (n.mul (n.sub x x0) (n.sub y1 y0)) (n.sub x1 x0)))

  -- The loop, from the point before `rest`.
  unfoldable pub find_segment : N → N × N → List (N × N) → Found N
  find_segment u before [] = segment n.zero n.zero n.zero n.zero
  find_segment u before (point ∷ rest) =
      let later = find_segment u point rest in
      if n.eq point.0 u
      then rate point.1
      else if n.le u point.0
      then segment before.0 before.1 point.0 point.1
      else later

  -- The checks and the result behind the loop.
  unfoldable pub rate_of : N → Found N → Outcome N
  unfolding interpolate
  rate_of u (rate r) = ok r
  rate_of u (segment x0 y0 x1 y1) =
      if (n.eq x0 n.zero && n.eq y0 n.zero) && (n.eq x1 n.zero && n.eq y1 n.zero)
      then error "Invalid borrow rate curve, could not identify the interpolation points."
      else if n.le x1 x0 || n.lt y1 y0
      then error "Invalid borrow rate curve, curve is not uniformly increasing"
      else interpolate u x0 x1 y0 y1

  unfoldable pub get_borrow_rate : N → List (N × N) → Outcome N
  unfolding find_segment rate_of
  get_borrow_rate current_utilization [] = error "Invalid borrow rate curve, only one point"
  get_borrow_rate current_utilization (point ∷ []) =
      error "Invalid borrow rate curve, only one point"
  get_borrow_rate current_utilization (first ∷ second ∷ rest) =
      let u = if n.lt n.one current_utilization then n.one else current_utilization in
      rate_of u (find_segment u first (second ∷ rest))
