-- ===== src/Market/Groups/Laws.antt =====
-- What the descriptions of src/classes/market.ts hold, when the groups of the market are numbered from 1, and which
-- groups a search by reserves finds.
use klend_sdk.Prelude.{
  length-map, map-map, map_ext, ℕ, suc, ◌≡◌, refl, ap, ◌∙◌, List, [], ◌∷◌, Option, none, some, not,
  ◌==◌, map, filter, length, Bool-cases, inl, inr,
}
use klend_sdk.Prelude.Outcome.{ok}
use klend_sdk.Pubkey.Keys.{PublicKeys}
use klend_sdk.Pubkey.HashMap
use klend_sdk.Reserve.Rates.{last}
use klend_sdk.Action.Data.{KaminoMarket, KaminoReserve, ElevationGroup}
use klend_sdk.Market.Groups.{
  ElevationGroupDescription, partial_descriptions, get_market_elevation_group_descriptions,
}
use klend_sdk.Market.Groups.Joining.{
  IsNumbered, or_later, AllWithin, memberships, collaterals, debts, joined_all, joined_all_lem,
  join_reserves_lem,
}

-- The groups in use.
abbrev pub active : {K : Type 0} → List (ElevationGroup K) → List (ElevationGroup K)
active groups = filter (λ g. not (g.id == 0)) groups

abbrev pub AreNumbered : {K : Type 0} → ℕ → List (ElevationGroup K) → Type 0
AreNumbered n [] = Unit
AreNumbered n (g ∷ gs) = (g.id ≡ n) × AreNumbered (suc n) gs

-- The description of a group before reserves join it.
abbrev fresh : {K : Type 0} → ElevationGroup K → ElevationGroupDescription K
fresh g = record {
  collateral_reserves = [];
  collateral_liquidity_mints = [];
  debt_reserve = g.debt_reserve;
  debt_liquidity_mint = none;
  elevation_group = g.id;
}

partial_descriptions_lem :
    {K : Type 0} (gs : List (ElevationGroup K)) → partial_descriptions gs ≡ map fresh (active gs)
unfolding partial_descriptions
partial_descriptions_lem [] = refl
partial_descriptions_lem (g ∷ gs) = elim (Bool-cases (g.id == 0)) [
  | inl unused ↦ rw unused (partial_descriptions_lem gs)
  | inr used ↦ rw (used, partial_descriptions_lem gs) refl
]

fresh-IsNumbered :
    {K : Type 0} (n : ℕ) (gs : List (ElevationGroup K))
    → AreNumbered n gs
    → IsNumbered n (map fresh gs)
fresh-IsNumbered n [] h = tt
fresh-IsNumbered n (g ∷ gs) (h, more) = (h, fresh-IsNumbered (suc n) gs more)

or_later-none : {A : Type 0} (o : Option A) → or_later none o ≡ o
or_later-none none = refl
or_later-none (some x) = refl

module _ {K D : Type 0} ⦃p : PublicKeys K⦄ where
  -- The reserves of a group: all that have the group among theirs, once for each time, apart from its debt reserve.
  abbrev pub described : List (KaminoReserve K D) → ElevationGroup K → ElevationGroupDescription K
  described reserves g =
      let found = collaterals g.debt_reserve g.id (memberships reserves) in
      record {
        collateral_reserves = map (λ r. r.address) found;
        collateral_liquidity_mints = map (λ r. r.liquidity_mint) found;
        debt_reserve = g.debt_reserve;
        debt_liquidity_mint =
            last (map (λ r. r.liquidity_mint) (debts g.debt_reserve g.id (memberships reserves)));
        elevation_group = g.id;
      }

  joined_all-fresh :
      (rs : List (KaminoReserve K D)) (g : ElevationGroup K)
      → joined_all (memberships rs) (fresh g) ≡ described rs g
  joined_all-fresh rs g =
      rw
        (
          joined_all_lem (memberships rs) (fresh g),
          or_later-none
              (last (map (λ r. r.liquidity_mint) (debts g.debt_reserve g.id (memberships rs)))),
        )
        refl

  -- If the groups in use are numbered from 1 in their order and no reserve has a group above the last
  -- of them, the descriptions are computed, one for each group in use; each has, in the order of the
  -- reserves, the addresses and the mints of all reserves that have the group, its debt reserve
  -- excepted, and the mint of the debt reserve if this has the group.
  pub get_market_elevation_group_descriptions_lem :
      (market : KaminoMarket K D)
      → AreNumbered 1 (active market.elevation_groups)
      → AllWithin (length (active market.elevation_groups)) (HashMap.values market.reserves)
      → get_market_elevation_group_descriptions market
        ≡ ok (map (described (HashMap.values market.reserves)) (active market.elevation_groups))
  unfolding get_market_elevation_group_descriptions
  get_market_elevation_group_descriptions_lem market numbered within =
      let gs = active market.elevation_groups in
      let rs = HashMap.values market.reserves in
      let room : AllWithin (length (map fresh gs)) rs = rw (length-map fresh gs) within in
      let joint = join_reserves_lem rs (map fresh gs) (fresh-IsNumbered 1 gs numbered) room in
      let each =
        map-map fresh (joined_all (memberships rs)) gs
        ∙ map_ext (λ g. joined_all (memberships rs) (fresh g)) (described rs) (joined_all-fresh rs)
            gs in
      rw (partial_descriptions_lem market.elevation_groups) (joint ∙ ap ok each)
