-- ===== src/Reserve/Rates/Points.antt =====
-- What the loop of `getBorrowRate` of src/classes/utils.ts finds, by the points of the curve.
use klend_sdk.Prelude.{
  ◌≡◌, refl, sym, ap, ◌∙◌, List, [], ◌∷◌, true, false, All, Bool-cases, inl, inr,
}
use mathlib.Core.Bool.{false≢true}
use mathlib.Core.Path.{subst}
use klend_sdk.Reserve.Rates.{Numbers, Found, rate, segment, find_segment}
use klend_sdk.Reserve.Rates.Order.{
  IsOrdered, IsIncreasing, last_point, le_refl, lt_le, le_lt, lt_weaken,
}

module _ {N : Type 0} (n : Numbers N) (order : IsOrdered n) where
  -- The rate of a point is not above what the loop finds.
  abbrev pub IsOver : N → Found N → Type 0
  IsOver y (rate r) = n.le y r ≡ true
  IsOver y (segment x0 y0 x1 y1) = n.le y y0 ≡ true

  -- The loop finds the rate of a point.
  abbrev pub IsRate : N → Found N → Type 0
  IsRate y (rate r) = r ≡ y
  IsRate y (segment x0 y0 x1 y1) = ⊥

  abbrev pub Reaches : N → Found N → N × N → Type 0
  Reaches u f q = n.lt q.0 u ≡ true → IsOver q.1 f

  abbrev pub Meets : N → Found N → N × N → Type 0
  Meets u f q = q.0 ≡ u → IsRate q.1 f

  lower_IsOver : (y z : N) (f : Found N) → n.le y z ≡ true → IsOver z f → IsOver y f
  lower_IsOver y z (rate r) h g = order.le_trans y z r h g
  lower_IsOver y z (segment x0 y0 x1 y1) h g = order.le_trans y z y0 h g

  lt_not_eq : (a b : N) → n.lt a b ≡ true → n.eq a b ≡ false
  lt_not_eq a b h = elim (Bool-cases (n.eq a b)) [
    | inl same ↦
        let equal = (order.eq_iff a b).0 same in
        absurd (false≢true (sym (order.lt_irrefl a) ∙ (ap (λ x. n.lt a x) equal ∙ h)))
    | inr other ↦ other
  ]

  -- The points behind one that is not below the utilisation are above it.
  beyond :
      (u : N) (f : Found N) (before : N × N) (rest : List (N × N))
      → n.le u before.0 ≡ true
      → IsIncreasing n order before rest
      → All (Reaches u f) rest × All (Meets u f) rest
  beyond u f before [] h more = (tt, tt)
  beyond u f before (point ∷ rest) h (grows, rises, more) =
      let (reach, meet) =
        beyond u f point rest
          (order.le_trans u before.0 point.0 h (lt_weaken n order before.0 point.0 grows)) more in
      let below = lt_le n order before.0 point.0 grows in
      (
        (
          λ e. absurd (
              false≢true
                (sym below ∙ order.le_trans point.0 u before.0 (lt_weaken n order point.0 u e) h)),
          reach,
        ),
        (λ e. absurd (false≢true (sym below ∙ (ap (λ x. n.le x before.0) e ∙ h))), meet),
      )

  -- What is reached and met by the loop, from the point before the rest.
  abbrev pub AllFound : N → N × N → List (N × N) → Found N → Type 0
  AllFound u before rest f = All (Reaches u f) (before ∷ rest) × All (Meets u f) rest

  find_segment-stop :
      (u : N) (before point : N × N) (rest : List (N × N))
      → n.le u point.0 ≡ true
      → IsIncreasing n order before (point ∷ rest)
      → AllFound u before (point ∷ rest) (find_segment ⦃n = n⦄ u before (point ∷ rest))
  unfolding find_segment
  find_segment-stop u before point rest to (grows, rises, more) =
      elim (Bool-cases (n.eq point.0 u)) [
        | inl same ↦
            let f : Found N = rate point.1 in
            let returns : f ≡ find_segment ⦃n = n⦄ u before (point ∷ rest) = rw same refl in
            let (reach, meet) = beyond u f point rest to more in
            subst (AllFound u before (point ∷ rest)) returns
              ((λ e. rises, (λ e. le_refl n order point.1, reach)), (λ e. refl, meet))
        | inr other ↦
            let f : Found N = segment before.0 before.1 point.0 point.1 in
            let returns : f ≡ find_segment ⦃n = n⦄ u before (point ∷ rest) = rw (other, to) refl in
            let (reach, meet) = beyond u f point rest to more in
            let not_below = (order.le_iff u point.0).0 to in
            subst (AllFound u before (point ∷ rest)) returns (
              (
                λ e. le_refl n order before.1,
                (λ e. absurd (false≢true (sym not_below ∙ e)), reach),
              ),
              (λ e. absurd (false≢true (sym other ∙ (order.eq_iff point.0 u).1 e)), meet),
            )
      ]

  pub find_segment-AllFound :
      (u : N) (before point : N × N) (rest : List (N × N))
      → n.le u (last_point n order point rest).0 ≡ true
      → IsIncreasing n order before (point ∷ rest)
      → AllFound u before (point ∷ rest) (find_segment ⦃n = n⦄ u before (point ∷ rest))
  unfolding find_segment
  find_segment-AllFound u before point [] to h = find_segment-stop u before point [] to h
  find_segment-AllFound u before point (next ∷ rest) to h = elim (Bool-cases (n.le u point.0)) [
    | inl reached ↦ find_segment-stop u before point (next ∷ rest) reached h
    | inr passed ↦
        let f = find_segment ⦃n = n⦄ u point (next ∷ rest) in
        let below = le_lt n order point.0 u passed in
        let other : n.eq point.0 u ≡ false = lt_not_eq point.0 u below in
        let returns : f ≡ find_segment ⦃n = n⦄ u before (point ∷ next ∷ rest) =
          rw (other, passed) refl in
        let (reach, meet) = find_segment-AllFound u point next rest to h.2 in
        subst (AllFound u before (point ∷ next ∷ rest)) returns (
          (λ e. lower_IsOver before.1 point.1 f h.1 (reach.0 below), reach),
          (λ e. absurd (false≢true (sym other ∙ (order.eq_iff point.0 u).1 e)), meet),
        )
  ]

  -- What the loop finds has the coordinates of points.
  abbrev pub AllSmall : (N → Type 0) → Found N → Type 0
  AllSmall IsSmall (rate r) = Unit
  AllSmall IsSmall (segment x0 y0 x1 y1) = IsSmall x0 × IsSmall y0 × IsSmall x1 × IsSmall y1

  pub find_segment-AllSmall :
      (IsSmall : N → Type 0) (u : N) (before : N × N) (rest : List (N × N))
      → IsSmall n.zero
      → All (λ q. IsSmall q.0 × IsSmall q.1) (before ∷ rest)
      → AllSmall IsSmall (find_segment ⦃n = n⦄ u before rest)
  unfolding find_segment
  find_segment-AllSmall IsSmall u before [] nothing small = (nothing, nothing, nothing, nothing)
  find_segment-AllSmall IsSmall u before (point ∷ rest) nothing (b, (q, small)) =
      elim (Bool-cases (n.eq point.0 u)) [
        | inl same ↦ rw same tt
        | inr other ↦ elim (Bool-cases (n.le u point.0)) [
          | inl reached ↦ rw (other, reached) (b.0, b.1, q.0, q.1)
          | inr passed ↦
              rw (other, passed) (find_segment-AllSmall IsSmall u point rest nothing (q, small))
        ]
      ]
