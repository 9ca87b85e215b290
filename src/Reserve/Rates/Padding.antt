-- ===== src/Reserve/Rates/Padding.antt =====
-- The points that src/classes/curve.ts adds to a curve do not change its rates.
use klend_sdk.Prelude.{
  ◌≡◌, ◌≤◌, ◌-◌, refl, ap, List, [], ◌∷◌, ◌++◌, true, false, Option, none, some, ltb, ◌==◌, length,
  length-map, length-append, length-replicate, ◌∙◌, replicate, map, any, Bool-cases, inl, inr,
  arith,
}
use klend_sdk.Prelude.Outcome.{ok}
use klend_sdk.Reserve.Data.{CurvePoint}
use klend_sdk.Reserve.Rates.{Numbers, last, pad_points, truncate_borrow_curve}

-- The points that are there.
abbrev pub present : {A : Type 0} → List (Option A) → List A
present [] = []
present (none ∷ rest) = present rest
present (some x ∷ rest) = x ∷ present rest

-- The curve has a point at full utilisation.
abbrev pub IsComplete : List CurvePoint → Type 0
IsComplete points = any (λ p. p.utilization_rate_bps == 10000) points ≡ true

present-append :
    {A : Type 0} (points : List A) (extra : List (Option A))
    → present (map some points ++ extra) ≡ points ++ present extra
present-append [] extra = refl
present-append (x ∷ points) extra = λ i. x ∷ present-append points extra i

module _ {N : Type 0} (n : Numbers N) where
  truncate-append :
      (points extra : List CurvePoint)
      → IsComplete points
      → truncate_borrow_curve ⦃n = n⦄ (points ++ extra) ≡ truncate_borrow_curve ⦃n = n⦄ points
  unfolding truncate_borrow_curve
  truncate-append [] extra h = cc
  truncate-append (point ∷ rest) extra h = elim (Bool-cases (point.utilization_rate_bps == 10000)) [
    | inl full ↦ rw full refl
    | inr partial ↦
        let later : IsComplete rest = rw partial at h in
        rw (partial, truncate-append rest extra later) refl
  ]

  -- If a curve has at most 11 points and one of them is at full utilisation, it is padded to 11
  -- points, and the curve of rates that is read from the padded points is the one read from the given
  -- points.
  pub truncate-pad_points :
      (points : List CurvePoint)
      → length points ≤ 11
      → IsComplete points
      → (padded : List (Option CurvePoint)) × (pad_points points ≡ ok padded)
        × (length padded ≡ 11)
        × (truncate_borrow_curve ⦃n = n⦄ (present padded) ≡ truncate_borrow_curve ⦃n = n⦄ points)
  unfolding pad_points
  truncate-pad_points points h complete =
      let extra = replicate (11 - length points) (last points) in
      let short : ltb 11 (length points) ≡ false = ground arith in
      (
        map some points ++ extra,
        rw short refl,
        omega (
          arith,
          length-append {0} (map some points) extra,
          length-map some points,
          length-replicate (11 - length points) (last points),
        ),
        ap (truncate_borrow_curve ⦃n = n⦄) (present-append points extra)
            ∙ truncate-append points (present extra) complete,
      )
