-- ===== src/Reserve/Caps/Collateral.antt =====
-- Which collateral caps `getBorrowCapForReserve` of src/classes/reserve.ts collects.
use mathlib.Core.Path.{subst}
use Prim.Native.String.{String}
use klend_sdk.Prelude.{
  ℕ, ◌≡◌, sym, ap, ◌∙◌, List, [], ◌∷◌, ◌++◌, true, All, ◌↔◌, Option, none, some, Bool-cases, inl,
  inr,
}
use mathlib.Core.Bool.{false≢true}
use mathlib.Core.Option.{some-injective}
use klend_sdk.Prelude.Outcome.{ok, or_throw, >>=-eq-ok, ok-injective}
use klend_sdk.Pubkey.Keys.{PublicKeys}
use klend_sdk.Pubkey.HashMap
use klend_sdk.Action.Data.{KaminoMarket, KaminoReserve}
use klend_sdk.Market.Groups.{ElevationGroupDescription}
use klend_sdk.Reserve.Rates.{Numbers}
use klend_sdk.Reserve.Caps.{
  Amounts, CollateralCap, of_group, collateral_cap, group_caps, collateral_caps,
}
use klend_sdk.Reserve.Caps.Laws.{AllInside}

or_throw_ok : {A : Type 0} (o : Option A) (e : String) (x : A) → or_throw o e ≡ ok x → o ≡ some x
or_throw_ok none e x h = cc
or_throw_ok (some y) e x h = λ i. some (ok-injective y x h i)

module _ {K C D N : Type 0} ⦃p : PublicKeys K⦄ (n : Numbers N) (a : Amounts D N)
    (market : KaminoMarket K C) (P : D → Type 0) where
  -- What the limit of a collateral reserve in a group leaves, when its counter is taken off.
  abbrev pub LeavesFor : ℕ → K → Type 0
  LeavesFor group address =
      (coll : KaminoReserve K C) (limit counter : ℕ)
      → HashMap.get market.reserves address ≡ some coll
      → of_group coll.borrow_limit_against_this_collateral_in_elevation_group group ≡ ok limit
      → of_group coll.borrowed_amounts_against_this_reserve_in_elevation_groups group ≡ ok counter
      → P (a.sub (a.of_bn limit) (a.of_bn counter))

  -- For every collateral of the group in the descriptions that lend the reserve.
  abbrev pub InsideGroup : K → List (ElevationGroupDescription K) → ℕ → Type 0
  InsideGroup reserve ds group =
      All
        (λ d.
          p.equals d.debt_reserve reserve ≡ true
          → d.elevation_group ≡ group
          → All (LeavesFor d.elevation_group) d.collateral_reserves)
        ds

  All-split :
      (group : ℕ) (xs ys : List (CollateralCap K D))
      → AllInside a P group (xs ++ ys) ↔ (AllInside a P group xs × AllInside a P group ys)
  All-split group [] ys = (λ h. (tt, h), λ h. h.1)
  All-split group (x ∷ xs) ys =
      let rest = All-split group xs ys in
      (λ h. ((h.0, (rest.0 h.1).0), (rest.0 h.1).1), λ h. (h.0.0, rest.1 (h.0.1, h.1)))

  collateral_cap-leaves :
      (group : ℕ) (address : K) (cap : CollateralCap K D)
      → collateral_cap n a market group address ≡ ok cap
      → (cap.elevation_group ≡ group)
        × (P (a.sub cap.max_debt cap.current_value) ↔ LeavesFor group address)
  unfolding collateral_cap
  collateral_cap-leaves group address cap h =
      let (coll, found, h1) = >>=-eq-ok (or_throw (HashMap.get market.reserves address) _) _ h in
      let (limit, some_limit, h2) =
        >>=-eq-ok (of_group coll.borrow_limit_against_this_collateral_in_elevation_group group) _
          h1 in
      let (counter, some_counter, h3) =
        >>=-eq-ok (of_group coll.borrowed_amounts_against_this_reserve_in_elevation_groups group) _
          h2 in
      let held : HashMap.get market.reserves address ≡ some coll = or_throw_ok _ _ coll found in
      let left : D → D → D = λ x y. a.sub x y in
      let whole = ok-injective _ cap h3 in
      (
        ap (λ c. c.elevation_group) (sym whole),
        (
          λ g other bound count f l c.
              let same : coll ≡ other = some-injective coll other (sym held ∙ f) in
              let same_limit : limit ≡ bound = ok-injective limit bound (
                sym some_limit
                ∙ (ap
                      (λ r.
                        of_group r.borrow_limit_against_this_collateral_in_elevation_group group)
                      same
                    ∙ l)) in
              let same_count : counter ≡ count = ok-injective counter count (
                sym some_counter
                ∙ (ap
                      (λ r.
                        of_group r.borrowed_amounts_against_this_reserve_in_elevation_groups group)
                      same
                    ∙ c)) in
              let own : P (left (a.of_bn limit) (a.of_bn counter)) =
                subst (λ c. P (left c.max_debt c.current_value)) (sym whole) g in
              subst (λ x. P (left (a.of_bn x) (a.of_bn count))) same_limit
                (subst (λ y. P (left (a.of_bn limit) (a.of_bn y))) same_count own),
          λ leaves.
              subst (λ c. P (left c.max_debt c.current_value)) whole
                (leaves coll limit counter held some_limit some_counter),
        ),
      )

  group_caps-leaves :
      (group own : ℕ) (addresses : List K) (caps : List (CollateralCap K D))
      → group_caps n a market own addresses ≡ ok caps
      → AllInside a P group caps ↔ (own ≡ group → All (LeavesFor own) addresses)
  unfolding group_caps
  group_caps-leaves group own [] caps h =
      (λ g e. tt, λ g. subst (AllInside a P group) (ok-injective [] caps h) tt)
  group_caps-leaves group own (address ∷ rest) caps h =
      let (cap, some_cap, h1) = >>=-eq-ok (collateral_cap n a market own address) _ h in
      let (later, some_later, h2) = >>=-eq-ok (group_caps n a market own rest) _ h1 in
      let (own_group, leaves) = collateral_cap-leaves own address cap some_cap in
      let others = group_caps-leaves group own rest later some_later in
      let whole : cap ∷ later ≡ caps = ok-injective (cap ∷ later) caps h2 in
      (
        λ g e.
            let both : AllInside a P group (cap ∷ later) =
              subst (AllInside a P group) (sym whole) g in
            (leaves.0 (both.0 (own_group ∙ e)), others.0 both.1 e),
        λ g.
            subst (AllInside a P group) whole
              (λ e. leaves.1 (g (sym own_group ∙ e)).0, others.1 (λ e. (g e).1)),
      )

  pub collateral_caps-leaves :
      (reserve : K) (group : ℕ) (ds : List (ElevationGroupDescription K))
      (caps : List (CollateralCap K D))
      → collateral_caps n a market reserve ds ≡ ok caps
      → AllInside a P group caps ↔ InsideGroup reserve ds group
  unfolding collateral_caps
  collateral_caps-leaves reserve group [] caps h =
      (λ g. tt, λ g. subst (AllInside a P group) (ok-injective [] caps h) tt)
  collateral_caps-leaves reserve group (d ∷ ds) caps h =
      elim (Bool-cases (p.equals d.debt_reserve reserve)) [
        | inl lends ↦
            let (own, some_own, h1) =
              >>=-eq-ok (group_caps n a market d.elevation_group d.collateral_reserves) _
                (rw lends at h) in
            let (later, some_later, h2) = >>=-eq-ok (collateral_caps n a market reserve ds) _ h1 in
            let first =
              group_caps-leaves group d.elevation_group d.collateral_reserves own some_own in
            let rest = collateral_caps-leaves reserve group ds later some_later in
            let whole : own ++ later ≡ caps = ok-injective (own ++ later) caps h2 in
            let split = All-split group own later in
            (
              λ g.
                  let both = split.0 (subst (AllInside a P group) (sym whole) g) in
                  (λ e. first.0 both.0, rest.0 both.1),
              λ g. subst (AllInside a P group) whole (split.1 (first.1 (g.0 lends), rest.1 g.1)),
            )
        | inr other ↦
            let rest = collateral_caps-leaves reserve group ds caps (rw other at h) in
            (λ g. (λ e. absurd (false≢true (sym other ∙ e)), rest.0 g), λ g. rest.1 g.1)
      ]
