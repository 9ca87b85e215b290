-- ===== src/Reserve/Rates/Values.antt =====
-- Which rates `getBorrowRate` of src/classes/utils.ts returns, by the points of the curve.
use klend_sdk.Prelude.{◌≡◌, refl, sym, List, [], ◌∷◌, true, if◌then◌else◌, All}
use mathlib.Core.Path.{subst}
use klend_sdk.Prelude.Outcome.{Outcome, ok}
use klend_sdk.Reserve.Rates.{Numbers, Found, rate, segment, rate_of, get_borrow_rate}
use klend_sdk.Reserve.Rates.Order.{IsOrdered, last_point, lt_weaken}
use klend_sdk.Reserve.Rates.Bounds.{
  IsAround, IsFound, IsCurve, capped, found, rate_of-segment, capped_to,
}
use klend_sdk.Reserve.Rates.Points.{
  AllFound, AllSmall, find_segment-AllFound, find_segment-AllSmall,
}

-- What the code relies on in the arithmetic of JavaScript numbers, which rounds: `IsSmall` are the numbers from
-- 0 to a bound under which no operation of the interpolation leaves the numbers, such as 2^500.
pub record IsRounded {N : Type 0} (n : Numbers N) (IsSmall : N → Type 0) : Type 0 where
  pub between_small :
      (a b x : N) → IsSmall a → IsSmall b → n.le a x ≡ true → n.le x b ≡ true → IsSmall x
  pub sub_small : (a b : N) → IsSmall a → IsSmall b → n.le a b ≡ true → IsSmall (n.sub b a)
  pub zero_small : IsSmall n.zero
  pub sub_pos : (a b : N) → IsSmall a → IsSmall b → n.lt a b ≡ true → n.lt n.zero (n.sub b a) ≡ true
  pub mul_nonneg : (a b : N) → IsSmall a → IsSmall b → n.le n.zero (n.mul a b) ≡ true
  pub div_nonneg :
      (a b : N)
      → n.le n.zero a ≡ true
      → IsSmall b
      → n.lt n.zero b ≡ true
      → n.le n.zero (n.div a b) ≡ true
  pub add_nonneg : (a b : N) → IsSmall a → n.le n.zero b ≡ true → n.le a (n.add a b) ≡ true

module _ {N : Type 0} (n : Numbers N) (order : IsOrdered n) (IsSmall : N → Type 0)
    (rounded : IsRounded n IsSmall) where
  -- The result is a rate that is not below the rates of the points below the utilisation, and that is the
  -- rate of the point at the utilisation, the first point of the curve aside.
  pub record IsOnCurve (u : N) (first : N × N) (rest : List (N × N)) (o : Outcome N) : Type 0 where
    pub value : N
    pub returns : o ≡ ok value
    pub above : All (λ q. n.lt q.0 u ≡ true → n.le q.1 value ≡ true) (first ∷ rest)
    pub at_point : All (λ q. q.0 ≡ u → value ≡ q.1) rest

  -- The rate in a segment is not below the rate where it starts.
  segment_rises :
      (u x0 y0 x1 y1 : N)
      → IsAround n order u x0 y0 x1 y1
      → IsSmall x0
      → IsSmall y0
      → IsSmall x1
      → IsSmall y1
      → n.le y0 (n.add y0 (n.div (n.mul (n.sub u x0) (n.sub y1 y0)) (n.sub x1 x0))) ≡ true
  segment_rises u x0 y0 x1 y1 around sx0 sy0 sx1 sy1 =
      let su = rounded.between_small x0 x1 u sx0 sx1 around.from around.to in
      let run = rounded.sub_small x0 u sx0 su around.from in
      let rise = rounded.sub_small y0 y1 sy0 sy1 around.rises in
      let width = rounded.sub_small x0 x1 sx0 sx1 (lt_weaken n order x0 x1 around.grows) in
      let positive = rounded.sub_pos x0 x1 sx0 sx1 around.grows in
      rounded.add_nonneg y0 _ sy0
        (rounded.div_nonneg _ (n.sub x1 x0) (rounded.mul_nonneg _ _ run rise) width positive)

  over_each :
      (P : N × N → Type 0) (y value : N) (qs : List (N × N))
      → n.le y value ≡ true
      → All (λ q. P q → n.le q.1 y ≡ true) qs
      → All (λ q. P q → n.le q.1 value ≡ true) qs
  over_each P y value [] h below = tt
  over_each P y value (q ∷ qs) h (b, below) =
      (λ e. order.le_trans q.1 y value (b e) h, over_each P y value qs h below)

  meets_none :
      (u v : N) (qs : List (N × N)) → All (λ q. q.0 ≡ u → ⊥) qs → All (λ q. q.0 ≡ u → v ≡ q.1) qs
  meets_none u v [] h = tt
  meets_none u v (q ∷ qs) (never, h) = (λ e. absurd (never e), meets_none u v qs h)

  found-IsOnCurve :
      (u low high : N) (first : N × N) (rest : List (N × N)) (f : Found N)
      → IsFound n order u low high f
      → AllSmall n order IsSmall f
      → AllFound n order u first rest f
      → IsOnCurve u first rest (rate_of ⦃n = n⦄ u f)
  unfolding rate_of
  found-IsOnCurve u low high first rest (rate r) found small (reach, meet) = record {
    value = r;
    returns = refl;
    above = reach;
    at_point = meet;
  }
  found-IsOnCurve u low high first rest (segment x0 y0 x1 y1) (around, l, t) (sx0, sy0, sx1, sy1)
        (reach, meet) =
      let value = n.add y0 (n.div (n.mul (n.sub u x0) (n.sub y1 y0)) (n.sub x1 x0)) in
      record {
        value = value;
        returns = rate_of-segment n order u x0 y0 x1 y1 around;
        above =
            over_each (λ q. n.lt q.0 u ≡ true) y0 value (first ∷ rest)
              (segment_rises u x0 y0 x1 y1 around sx0 sy0 sx1 sy1) reach;
        at_point = meets_none u value rest meet;
      }

  -- If utilisation grows and rates do not fall along a curve of two or more points, from a utilisation
  -- of nothing or more to full utilisation, the given utilisation is not below the first point, and
  -- the coordinates are small, then, in ordered numbers whose rounded operations keep signs, the
  -- borrow rate is computed; it is not below the rate of any point whose utilisation is below the
  -- given one, this taken as full utilisation when it is above, and it is the rate of the point at
  -- that utilisation, the first point aside.
  pub get_borrow_rate-IsOnCurve :
      (u : N) (first second : N × N) (rest : List (N × N))
      → IsCurve n order first second rest
      → n.le first.0 u ≡ true
      → All (λ q. IsSmall q.0 × IsSmall q.1) (first ∷ second ∷ rest)
      → IsOnCurve
          (if n.lt n.one u then n.one else u)
          first
          (second ∷ rest)
          (get_borrow_rate ⦃n = n⦄ u (first ∷ second ∷ rest))
  unfolding get_borrow_rate
  get_borrow_rate-IsOnCurve u first second rest curve from small =
      let v = capped n order u in
      let top : n.le v (last_point n order second rest).0 ≡ true =
        subst (λ t. n.le v t ≡ true) (sym curve.full) (capped_to n order u) in
      found-IsOnCurve v first.1 (last_point n order second rest).1 first (second ∷ rest) _
        (found n order u first second rest curve from)
        (find_segment-AllSmall n order IsSmall v first (second ∷ rest) rounded.zero_small small)
        (find_segment-AllFound n order v first second rest top curve.increasing)
