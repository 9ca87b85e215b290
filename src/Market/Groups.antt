-- ===== src/Market/Groups.antt =====
-- `getMarketElevationGroupDescriptions` of src/classes/market.ts and the searches of descriptions. The text of a
-- key stands for the key, and two texts are equal when the keys are.
pub mod Joining
pub mod Laws
pub mod Search
use klend_sdk.Prelude.{
  ℕ, zero, suc, ◌-◌, List, [], ◌∷◌, ◌++◌, Bool, true, false, Option, none, some, if◌then◌else◌, not,
  ◌==◌, ◌&&◌, ◌||◌, map, filter, all,
}
use klend_sdk.Prelude.Outcome.{Outcome, ok, error, ◌>>=◌}
use klend_sdk.Pubkey.Keys.{PublicKeys, includes}
use klend_sdk.Pubkey.HashMap
use klend_sdk.Action.Data.{KaminoMarket, KaminoReserve, ElevationGroup}

-- The empty text in `debt_liquidity_mint` is `none`.
pub record ElevationGroupDescription (K : Type 0) : Type 0 where
  pub collateral_reserves : List K
  pub collateral_liquidity_mints : List K
  pub debt_reserve : K
  pub debt_liquidity_mint : Option K
  pub elevation_group : ℕ

-- The loop that builds the descriptions partially.
unfoldable pub partial_descriptions :
    {K : Type 0} → List (ElevationGroup K) → List (ElevationGroupDescription K)
partial_descriptions [] = []
partial_descriptions (group ∷ rest) =
    let later = partial_descriptions rest in
    if group.id == 0
    then later
    else record {
      collateral_reserves = [];
      collateral_liquidity_mints = [];
      debt_reserve = group.debt_reserve;
      debt_liquidity_mint = none;
      elevation_group = group.id;
    }
      ∷ later

module _ {K : Type 0} ⦃p : PublicKeys K⦄ where
  -- `debt == undefined || debt.toString() === text`
  unfoldable pub is_debt : Option K → Option K → Bool
  is_debt none text = true
  is_debt (some key) none = false
  is_debt (some key) (some text) = p.equals key text

module _ {K D : Type 0} ⦃p : PublicKeys K⦄ where
  -- What a reserve with a group adds to the description at the group's place.
  unfoldable pub joined :
      KaminoReserve K D → ElevationGroupDescription K → ElevationGroupDescription K
  joined reserve d =
      if p.equals reserve.address d.debt_reserve
      then record d { debt_liquidity_mint = some reserve.liquidity_mint }
      else record d {
        collateral_reserves = d.collateral_reserves ++ reserve.address ∷ [];
        collateral_liquidity_mints = d.collateral_liquidity_mints ++ reserve.liquidity_mint ∷ [];
      }

  -- The description at an index is changed; there is none behind the end.
  unfoldable pub join_at :
      KaminoReserve K D
      → ℕ
      → List (ElevationGroupDescription K)
      → Outcome (List (ElevationGroupDescription K))
  unfolding joined
  join_at reserve i [] = error "Invalid elevation group id"
  join_at reserve zero (d ∷ ds) = ok (joined reserve d ∷ ds)
  join_at reserve (suc i) (d ∷ ds) = join_at reserve i ds >>= (λ rest. ok (d ∷ rest))

  -- The inner loop, over the elevation groups of a reserve.
  unfoldable pub join_groups :
      KaminoReserve K D
      → List ℕ
      → List (ElevationGroupDescription K)
      → Outcome (List (ElevationGroupDescription K))
  unfolding join_at
  join_groups reserve [] ds = ok ds
  join_groups reserve (id ∷ ids) ds = do
    next ← (if id == 0 then ok ds else join_at reserve (id - 1) ds)
    join_groups reserve ids next

  -- The outer loop, over the reserves.
  unfoldable pub join_reserves :
      List (KaminoReserve K D)
      → List (ElevationGroupDescription K)
      → Outcome (List (ElevationGroupDescription K))
  unfolding join_groups
  join_reserves [] ds = ok ds
  join_reserves (reserve ∷ rest) ds = do
    next ← join_groups reserve reserve.elevation_groups ds
    join_reserves rest next

  unfoldable pub get_market_elevation_group_descriptions :
      KaminoMarket K D → Outcome (List (ElevationGroupDescription K))
  unfolding partial_descriptions join_reserves
  get_market_elevation_group_descriptions market =
      join_reserves (HashMap.values market.reserves) (partial_descriptions market.elevation_groups)

  unfoldable pub get_elevation_groups_for_mints_combination :
      KaminoMarket K D → List K → Option K → Outcome (List (ElevationGroupDescription K))
  unfolding get_market_elevation_group_descriptions is_debt
  get_elevation_groups_for_mints_combination market coll_liquidity_mints debt_liquidity_mint = do
    all_groups ← get_market_elevation_group_descriptions market
    ok (
        filter
          (λ d.
            all (λ mint. includes d.collateral_liquidity_mints mint) coll_liquidity_mints
            && is_debt debt_liquidity_mint d.debt_liquidity_mint)
          all_groups)

  unfoldable pub get_elevation_groups_for_reserves_combination :
      KaminoMarket K D → List K → Option K → Outcome (List (ElevationGroupDescription K))
  unfolding get_market_elevation_group_descriptions is_debt
  get_elevation_groups_for_reserves_combination market coll_reserves debt_reserve = do
    all_groups ← get_market_elevation_group_descriptions market
    ok (
        filter
          (λ d.
            all (λ mint. includes d.collateral_reserves mint) coll_reserves
            && is_debt debt_reserve (some d.debt_reserve))
          all_groups)
