-- ===== src/Reserve/Rates/Bounds.antt =====
-- When `getBorrowRate` of src/classes/utils.ts returns.
use mathlib.Core.Path.{subst}
use klend_sdk.Reserve.Encode.Returns.{Returns}
use klend_sdk.Prelude.{
  if◌then◌else◌, sym, ◌≡◌, refl, List, [], ◌∷◌, true, ◌&&◌, Bool-cases, inl, inr,
}
use klend_sdk.Prelude.Outcome.{ok}
use klend_sdk.Reserve.Rates.{
  Numbers, Found, rate, segment, interpolate, find_segment, rate_of, get_borrow_rate,
}
use klend_sdk.Reserve.Rates.Order.{
  IsOrdered, IsIncreasing, last_point, le_refl, last_rate, last_utilization, lt_le, le_lt,
  lt_weaken, le_lt_trans, lt_eq,
}

module _ {N : Type 0} (n : Numbers N) (order : IsOrdered n) where
  -- A segment that grows, with the utilisation in it.
  pub record IsAround (u x0 y0 x1 y1 : N) : Type 0 where
    pub positive : n.lt n.zero x1 ≡ true
    pub grows : n.lt x0 x1 ≡ true
    pub rises : n.le y0 y1 ≡ true
    pub from : n.le x0 u ≡ true
    pub to : n.le u x1 ≡ true

  -- What the loop finds lies on the curve, with rates between the two.
  abbrev pub IsFound : N → N → N → Found N → Type 0
  IsFound u low high (rate r) = (n.le low r ≡ true) × (n.le r high ≡ true)
  IsFound u low high (segment x0 y0 x1 y1) =
      IsAround u x0 y0 x1 y1 × (n.le low y0 ≡ true) × (n.le y1 high ≡ true)

  lower-IsFound :
      (u a b high : N) (f : Found N) → n.le a b ≡ true → IsFound u b high f → IsFound u a high f
  lower-IsFound u a b high (rate r) h (l, t) = (order.le_trans a b r h l, t)
  lower-IsFound u a b high (segment x0 y0 x1 y1) h (around, l, t) =
      (around, order.le_trans a b y0 h l, t)

  find_segment-IsFound :
      (u : N) (before point : N × N) (rest : List (N × N))
      → n.le n.zero before.0 ≡ true
      → n.le before.0 u ≡ true
      → n.le u (last_point n order point rest).0 ≡ true
      → IsIncreasing n order before (point ∷ rest)
      → IsFound u before.1
          (last_point n order point rest).1
          (find_segment ⦃n = n⦄ u before (point ∷ rest))
  unfolding find_segment
  find_segment-IsFound u before point [] start from to (h, r, more) =
      elim (Bool-cases (n.eq point.0 u)) [
        | inl same ↦ rw same (r, le_refl n order point.1)
        | inr other ↦
            let around : IsAround u before.0 before.1 point.0 point.1 = record {
              positive = le_lt_trans n order n.zero before.0 point.0 start h;
              grows = h;
              rises = r;
              from = from;
              to = to;
            } in
            rw (other, to) (around, le_refl n order before.1, le_refl n order point.1)
      ]
  find_segment-IsFound u before point (next ∷ rest) start from to (h, r, more) =
      let positive = le_lt_trans n order n.zero before.0 point.0 start h in
      elim (Bool-cases (n.eq point.0 u)) [
        | inl same ↦ rw same (r, last_rate n order point (next ∷ rest) more)
        | inr other ↦ elim (Bool-cases (n.le u point.0)) [
          | inl reached ↦
              let around : IsAround u before.0 before.1 point.0 point.1 = record {
                positive = positive;
                grows = h;
                rises = r;
                from = from;
                to = reached;
              } in
              rw (other, reached)
                (around, le_refl n order before.1, last_rate n order point (next ∷ rest) more)
          | inr passed ↦
              let later =
                find_segment-IsFound u point next rest (lt_weaken n order n.zero point.0 positive)
                  (lt_weaken n order point.0 u (le_lt n order point.0 u passed)) to more in
              rw (other, passed)
                (lower-IsFound u before.1 point.1 (last_point n order next rest).1
                  (find_segment ⦃n = n⦄ u point (next ∷ rest)) r later)
        ]
      ]

  -- The checks pass behind a segment that the loop finds.
  pub rate_of-segment :
      (u x0 y0 x1 y1 : N)
      → IsAround u x0 y0 x1 y1
      → rate_of ⦃n = n⦄ u (segment x0 y0 x1 y1)
        ≡ ok (n.add y0 (n.div (n.mul (n.sub u x0) (n.sub y1 y0)) (n.sub x1 x0)))
  unfolding rate_of interpolate
  rate_of-segment u x0 y0 x1 y1 around =
      let some_nonzero = lt_eq n order n.zero x1 around.positive in
      let width = lt_le n order x0 x1 around.grows in
      let rise = (order.le_iff y0 y1).0 around.rises in
      let inside = (order.le_iff u x1).0 around.to in
      elim (Bool-cases (n.eq x0 n.zero && n.eq y0 n.zero)) [
        | inl both ↦ rw (both, some_nonzero, width, rise, inside) refl
        | inr not_both ↦ rw (not_both, width, rise, inside) refl
      ]

  -- The utilisation that the loop looks for.
  abbrev pub capped : N → N
  capped u = if n.lt n.one u then n.one else u

  pub capped_from :
      (u low : N) → n.le low u ≡ true → n.le low n.one ≡ true → n.le low (capped u) ≡ true
  capped_from u low h g = elim (Bool-cases (n.lt n.one u)) [
    | inl over ↦ rw over g
    | inr within ↦ rw within h
  ]

  pub capped_to : (u : N) → n.le (capped u) n.one ≡ true
  capped_to u = elim (Bool-cases (n.lt n.one u)) [
    | inl over ↦ rw over (le_refl n order n.one)
    | inr within ↦ rw within ((order.le_iff u n.one).1 within)
  ]

  -- A curve from a utilisation of nothing or more to full utilisation.
  pub record IsCurve (first second : N × N) (rest : List (N × N)) : Type 0 where
    pub start : n.le n.zero first.0 ≡ true
    pub increasing : IsIncreasing n order first (second ∷ rest)
    pub full : (last_point n order second rest).0 ≡ n.one

  pub found :
      (u : N) (first second : N × N) (rest : List (N × N))
      → IsCurve first second rest
      → n.le first.0 u ≡ true
      → IsFound
          (capped u)
          first.1
          (last_point n order second rest).1
          (find_segment ⦃n = n⦄ (capped u) first (second ∷ rest))
  found u first second rest curve from =
      let whole : n.le first.0 n.one ≡ true =
        subst (λ t. n.le first.0 t ≡ true) curve.full
          (last_utilization n order first (second ∷ rest) curve.increasing) in
      let top : n.le (capped u) (last_point n order second rest).0 ≡ true =
        subst (λ t. n.le (capped u) t ≡ true) (sym curve.full) (capped_to u) in
      find_segment-IsFound (capped u) first second rest curve.start
        (capped_from u first.0 from whole) top curve.increasing

  found-Returns :
      (u low high : N) (f : Found N) → IsFound u low high f → Returns (rate_of ⦃n = n⦄ u f)
  unfolding rate_of
  found-Returns u low high (rate r) h = (r, refl)
  found-Returns u low high (segment x0 y0 x1 y1) (around, l, t) =
      (_, rate_of-segment u x0 y0 x1 y1 around)

  -- If utilisation grows and rates do not fall along a curve of two or more points, from a utilisation
  -- of nothing or more to full utilisation, and the given utilisation is not below the first point,
  -- then the borrow rate is computed without an error, in any numbers that are ordered.
  pub get_borrow_rate-Returns :
      (u : N) (first second : N × N) (rest : List (N × N))
      → IsCurve first second rest
      → n.le first.0 u ≡ true
      → Returns (get_borrow_rate ⦃n = n⦄ u (first ∷ second ∷ rest))
  unfolding get_borrow_rate
  get_borrow_rate-Returns u first second rest curve from =
      found-Returns (capped u) first.1 (last_point n order second rest).1 _
        (found u first second rest curve from)
