-- ===== src/Reserve/Caps/Laws.antt =====
-- The liquidity that src/classes/reserve.ts offers for one group: the greatest amount that the caps allow.
use klend_sdk.Prelude.{
  ℕ, ◌≡◌, refl, sym, ◌∙◌, List, [], ◌∷◌, true, false, ◌==◌, any, All, ◌⊎◌, ◌↔◌, Bool-cases, inl,
  inr,
}
use mathlib.Core.Path.{subst}
use mathlib.Core.Bool.{false≢true}
use klend_sdk.Prelude.Outcome.{ok}
use klend_sdk.Pubkey.Keys.{==_iff}
use klend_sdk.Reserve.Rates.{Numbers}
use klend_sdk.Reserve.Caps.{
  Amounts, CollateralCap, positive_or_zero, remaining_inside, available_for,
}

-- One of a list.
abbrev pub IsAmong : {D : Type 0} → D → List D → Type 0
IsAmong m [] = ⊥
IsAmong m (x ∷ xs) = (m ≡ x) ⊎ IsAmong m xs

-- What decimal.js promises of an order of amounts: `min` of one or more arguments returns one of them that
-- is above none of them, and `max` grows with an argument.
pub record HasOrder {D N : Type 0} (a : Amounts D N) (Le : D → D → Type 0) : Type 0 where
  pub le_trans : (x y z : D) → Le x y → Le y z → Le x z
  pub max_mono : (x y z : D) → Le x y → Le (a.max x z) (a.max y z)
  pub min_returns :
      (x : D) (xs : List D)
      → (m : D) × (a.min (x ∷ xs) ≡ ok m) × IsAmong m (x ∷ xs) × All (Le m) (x ∷ xs)

-- What is true of all of a list is true of one of it.
among_all : {D : Type 0} (P : D → Type 0) (m : D) (xs : List D) → IsAmong m xs → All P xs → P m
among_all P m [] h below = absurd h
among_all P m (x ∷ xs) (inl same) (b, below) = subst P (sym same) b
among_all P m (x ∷ xs) (inr later) (b, below) = among_all P m xs later below

module _ {D N : Type 0} (n : Numbers N) (a : Amounts D N) (Le : D → D → Type 0) where
  -- At most the value, or zero.
  abbrev pub IsUnder : D → D → Type 0
  IsUnder amount value = Le amount (a.max value (a.of_number n.zero))

module _ {K D N : Type 0} (a : Amounts D N) where
  -- What each collateral cap of a group leaves.
  abbrev pub AllInside : (D → Type 0) → ℕ → List (CollateralCap K D) → Type 0
  AllInside P group caps =
      All (λ cap. cap.elevation_group ≡ group → P (a.sub cap.max_debt cap.current_value)) caps

module _ {K D N : Type 0} (n : Numbers N) (a : Amounts D N) where
  -- The group is the default one, or has a cap.
  abbrev pub HasCap : List (CollateralCap K D) → ℕ → Type 0
  HasCap caps group = (group == 0) ≡ false → any (λ cap. cap.elevation_group == group) caps ≡ true

  inside_iff :
      (P : D → Type 0) (group : ℕ) (caps : List (CollateralCap K D))
      → AllInside a P group caps ↔ All P (remaining_inside n a group caps)
  unfolding remaining_inside
  inside_iff P group [] = (λ h. tt, λ h. tt)
  inside_iff P group (cap ∷ caps) =
      let rest = inside_iff P group caps in
      elim (Bool-cases (cap.elevation_group == group)) [
        | inl same ↦
            let equal = (==_iff cap.elevation_group group).0 same in
            (
              λ h. rw same (h.0 equal, rest.0 h.1),
              λ h.
                  let both : P (a.sub cap.max_debt cap.current_value)
                      × All P (remaining_inside n a group caps) =
                    rw same at h in
                  (λ e. both.0, rest.1 both.1),
            )
        | inr other ↦ (
          λ h. rw other (rest.0 h.1),
          λ h.
              let later : All P (remaining_inside n a group caps) = rw other at h in
              (
                λ e. absurd (false≢true (sym other ∙ (==_iff cap.elevation_group group).1 e)),
                rest.1 later,
              ),
        )
      ]

  some_inside :
      (group : ℕ) (caps : List (CollateralCap K D))
      → any (λ cap. cap.elevation_group == group) caps ≡ true
      → (first : D) × (others : List D) × (remaining_inside n a group caps ≡ first ∷ others)
  unfolding remaining_inside
  some_inside group [] h = cc
  some_inside group (cap ∷ caps) h = elim (Bool-cases (cap.elevation_group == group)) [
    | inl same ↦
        (a.sub cap.max_debt cap.current_value, remaining_inside n a group caps, rw same refl)
    | inr other ↦
        let later : any (λ cap. cap.elevation_group == group) caps ≡ true = rw other at h in
        let (first, others, found) = some_inside group caps later in (first, others, rw other found)
  ]

module _ {D N : Type 0} (n : Numbers N) (a : Amounts D N) (Le : D → D → Type 0) where
  -- An amount is allowed for a group by the liquidity, by what the caps leave, and, in a group that is not
  -- the default one, inside the group.
  pub record IsAllowed (liquidity outside daily total given : D) (Inside : (D → Type 0) → Type 0)
      (group : ℕ) (amount : D) : Type 0 where
    pub under_liquidity : IsUnder n a Le amount liquidity
    pub under_daily : IsUnder n a Le amount daily
    pub under_total : IsUnder n a Le amount total
    pub under_utilization : IsUnder n a Le amount given
    pub under_outside : (group == 0) ≡ true → IsUnder n a Le amount outside
    pub under_inside : (group == 0) ≡ false → Inside (IsUnder n a Le amount)

  pub record IsGreatest (liquidity outside daily total given : D) (Inside : (D → Type 0) → Type 0)
      (group : ℕ) (amount : D) : Type 0 where
    pub allowed : IsAllowed liquidity outside daily total given Inside group amount
    pub greatest :
        (bound : D)
        → IsAllowed liquidity outside daily total given Inside group bound
        → Le bound amount

module _ {D N : Type 0} (n : Numbers N) (a : Amounts D N) (Le : D → D → Type 0)
    (order : HasOrder a Le) where
  IsUnder-each :
      (amount least : D) (xs : List D)
      → IsUnder n a Le amount least
      → All (Le least) xs
      → All (IsUnder n a Le amount) xs
  IsUnder-each amount least [] h below = tt
  IsUnder-each amount least (x ∷ xs) h (b, below) = (
    order.le_trans amount _ _ h (order.max_mono least x _ b),
    IsUnder-each amount least xs h below,
  )

module _ {K D N : Type 0} (n : Numbers N) (a : Amounts D N) (Le : D → D → Type 0)
    (order : HasOrder a Le) (caps : List (CollateralCap K D)) (Inside : ℕ → (D → Type 0) → Type 0)
    (same : (group : ℕ) (P : D → Type 0) → Inside group P ↔ AllInside a P group caps) where
  pub available_for-IsGreatest :
      (liquidity outside daily total given : D) (group : ℕ)
      → HasCap n a caps group
      → (amount : D) × (available_for n a liquidity outside daily total given caps group
          ≡ ok amount)
        × IsGreatest n a Le liquidity outside daily total given (Inside group) group amount
  unfolding available_for positive_or_zero
  available_for-IsGreatest liquidity outside daily total given group has =
      elim (Bool-cases (group == 0)) [
        | inl default ↦
            let pos : D → D = λ x. a.max x (a.of_number n.zero) in
            let all_caps = pos outside ∷ pos daily ∷ pos total ∷ pos given ∷ [] in
            let (amount, returns, among, (l, (o, (d, (t, (g, none_left)))))) =
              order.min_returns (pos liquidity) all_caps in
            (
              amount,
              rw default returns,
              record {
                allowed = record {
                  under_liquidity = l;
                  under_daily = d;
                  under_total = t;
                  under_utilization = g;
                  under_outside = λ e. o;
                  under_inside = λ e. absurd (false≢true (sym e ∙ default));
                };
                greatest = λ bound h.
                    among_all (λ x. Le bound x) amount (pos liquidity ∷ all_caps) among
                      (
                        h.under_liquidity,
                        (
                          h.under_outside default,
                          (h.under_daily, (h.under_total, (h.under_utilization, tt))),
                        ),
                      );
              },
            )
        | inr special ↦
            let pos : D → D = λ x. a.max x (a.of_number n.zero) in
            let (first, others, found) = some_inside n a group caps (has special) in
            let (inside, returns_inside, among_caps, below) = order.min_returns first others in
            let all_caps = pos inside ∷ pos daily ∷ pos total ∷ pos given ∷ [] in
            let (amount, returns, among, (l, (i, (d, (t, (g, none_left)))))) =
              order.min_returns (pos liquidity) all_caps in
            let each : All (IsUnder n a Le amount) (first ∷ others) =
              IsUnder-each n a Le order amount inside (first ∷ others) i below in
            let inside_caps : AllInside a (IsUnder n a Le amount) group caps =
              (inside_iff n a (IsUnder n a Le amount) group caps).1 (rw found each) in
            (
              amount,
              rw (special, found, returns_inside) returns,
              record {
                allowed = record {
                  under_liquidity = l;
                  under_daily = d;
                  under_total = t;
                  under_utilization = g;
                  under_outside = λ e. absurd (false≢true (sym special ∙ e));
                  under_inside = λ e. (same group (IsUnder n a Le amount)).1 inside_caps;
                };
                greatest = λ bound h.
                    let shared : AllInside a (IsUnder n a Le bound) group caps =
                      (same group (IsUnder n a Le bound)).0 (h.under_inside special) in
                    let listed : All (IsUnder n a Le bound) (first ∷ others) =
                      rw found at ((inside_iff n a (IsUnder n a Le bound) group caps).0 shared) in
                    among_all (λ x. Le bound x) amount (pos liquidity ∷ all_caps) among
                      (
                        h.under_liquidity,
                        (
                          among_all (IsUnder n a Le bound) inside (first ∷ others) among_caps
                              listed,
                          (h.under_daily, (h.under_total, (h.under_utilization, tt))),
                        ),
                      );
              },
            )
      ]
