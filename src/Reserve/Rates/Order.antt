-- ===== src/Reserve/Rates/Order.antt =====
-- The order of numbers, on which the branches of `getBorrowRate` of src/classes/utils.ts stand.
use klend_sdk.Prelude.{◌↔◌, ◌≡◌, List, [], ◌∷◌, true, false, Bool-cases, inl, inr}
use klend_sdk.Reserve.Rates.{Numbers}

-- What the code relies on in the comparisons of JavaScript numbers, `NaN` aside and with 0 and -0 as one
-- number.
pub record IsOrdered {N : Type 0} (n : Numbers N) : Type 0 where
  pub eq_iff : (a b : N) → (n.eq a b ≡ true) ↔ (a ≡ b)
  pub le_iff : (a b : N) → (n.le a b ≡ true) ↔ (n.lt b a ≡ false)
  pub lt_irrefl : (a : N) → n.lt a a ≡ false
  pub lt_trans : (a b c : N) → n.lt a b ≡ true → n.lt b c ≡ true → n.lt a c ≡ true
  pub le_trans : (a b c : N) → n.le a b ≡ true → n.le b c ≡ true → n.le a c ≡ true

module _ {N : Type 0} (n : Numbers N) (order : IsOrdered n) where
  -- From one point to the next, utilisation grows and the rate does not fall.
  abbrev pub IsIncreasing : N × N → List (N × N) → Type 0
  IsIncreasing before [] = Unit
  IsIncreasing before (point ∷ rest) =
      (n.lt before.0 point.0 ≡ true) × (n.le before.1 point.1 ≡ true) × IsIncreasing point rest

  -- The last point of the curve.
  abbrev pub last_point : N × N → List (N × N) → N × N
  last_point before [] = before
  last_point before (point ∷ rest) = last_point point rest

  pub le_refl : (a : N) → n.le a a ≡ true
  le_refl a = (order.le_iff a a).1 (order.lt_irrefl a)

  pub last_rate :
      (before : N × N) (rest : List (N × N))
      → IsIncreasing before rest
      → n.le before.1 (last_point before rest).1 ≡ true
  last_rate before [] h = le_refl before.1
  last_rate before (point ∷ rest) (h, r, more) =
      order.le_trans before.1 point.1 (last_point point rest).1 r (last_rate point rest more)

  pub lt_le : (a b : N) → n.lt a b ≡ true → n.le b a ≡ false
  lt_le a b h = elim (Bool-cases (n.le b a)) [
    | inl holds ↦ let fails = (order.le_iff b a).0 holds in cc
    | inr fails ↦ fails
  ]

  pub le_lt : (a b : N) → n.le b a ≡ false → n.lt a b ≡ true
  le_lt a b h = elim (Bool-cases (n.lt a b)) [
    | inl holds ↦ holds
    | inr fails ↦ let holds = (order.le_iff b a).1 fails in cc
  ]

  pub lt_weaken : (a b : N) → n.lt a b ≡ true → n.le a b ≡ true
  lt_weaken a b h = elim (Bool-cases (n.lt b a)) [
    | inl back ↦ let round = order.lt_trans a b a h back in let never = order.lt_irrefl a in cc
    | inr fails ↦ (order.le_iff a b).1 fails
  ]

  pub le_lt_trans : (a b c : N) → n.le a b ≡ true → n.lt b c ≡ true → n.lt a c ≡ true
  le_lt_trans a b c h g = elim (Bool-cases (n.lt a c)) [
    | inl holds ↦ holds
    | inr fails ↦
        let back = order.le_trans c a b ((order.le_iff c a).1 fails) h in
        let never = lt_le b c g in cc
  ]

  pub lt_eq : (a b : N) → n.lt a b ≡ true → n.eq b a ≡ false
  lt_eq a b h = elim (Bool-cases (n.eq b a)) [
    | inl holds ↦ let same = (order.eq_iff b a).0 holds in let never = order.lt_irrefl a in cc
    | inr fails ↦ fails
  ]

  pub last_utilization :
      (before : N × N) (rest : List (N × N))
      → IsIncreasing before rest
      → n.le before.0 (last_point before rest).0 ≡ true
  last_utilization before [] h = le_refl before.0
  last_utilization before (point ∷ rest) (h, r, more) =
      order.le_trans before.0 point.0 (last_point point rest).0 (lt_weaken before.0 point.0 h)
        (last_utilization point rest more)
