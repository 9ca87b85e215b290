-- ===== src/Examples/Groups.antt =====
-- The elevation groups of the small market: the first reserve is in three groups, the second in two.
use klend_sdk.Prelude.{ℕ, ◌≡◌, refl, List, [], ◌∷◌, some, map, arith}
use klend_sdk.Prelude.Outcome.{Outcome, ok}
use klend_sdk.Pubkey.Keys.{numbered_keys}
use klend_sdk.Pubkey.HashMap
use klend_sdk.Market.Groups.{
  ElevationGroupDescription, get_market_elevation_group_descriptions,
  get_elevation_groups_for_mints_combination, get_elevation_groups_for_reserves_combination,
}
use klend_sdk.Market.Groups.Joining.{AllWithin}
use klend_sdk.Market.Groups.Laws.{
  active, AreNumbered, described, get_market_elevation_group_descriptions_lem,
}
use klend_sdk.Market.Groups.Search.{fitting, get_elevation_groups_for_reserves_combination_lem}
use klend_sdk.Examples.Market.{small_market, some_groups}

abbrev ids_of : Outcome (List (ElevationGroupDescription ℕ)) → List ℕ
ids_of (ok ds) = map (λ d. d.elevation_group) ds
ids_of _ = []

found_by_mint :
    ids_of (get_elevation_groups_for_mints_combination small_market (201 ∷ []) (some 90))
    ≡ 2 ∷ 3 ∷ []
unfolding get_elevation_groups_for_mints_combination get_market_elevation_group_descriptions
    HashMap.values HashMap.of_entries HashMap.set
found_by_mint = refl

some_groups-AreNumbered : AreNumbered 1 (active some_groups)
some_groups-AreNumbered = (refl, (refl, (refl, tt)))

small_market-AllWithin : AllWithin 3 (HashMap.values small_market.reserves)
unfolding HashMap.values HashMap.of_entries HashMap.set
small_market-AllWithin =
    ((omega arith, (omega arith, (omega arith, tt))), ((omega arith, (omega arith, tt)), tt))

get_market_elevation_group_descriptions_lem_example :
    get_market_elevation_group_descriptions small_market
    ≡ ok (
        map
          (described (HashMap.values small_market.reserves))
          (active small_market.elevation_groups))
get_market_elevation_group_descriptions_lem_example =
    get_market_elevation_group_descriptions_lem small_market some_groups-AreNumbered
      small_market-AllWithin

get_elevation_groups_for_reserves_combination_lem_example :
    get_elevation_groups_for_reserves_combination small_market (101 ∷ []) (some 102)
    ≡ ok (
        map (described (HashMap.values small_market.reserves)) (
          fitting
            (HashMap.values small_market.reserves)
            (101 ∷ [])
            (some 102)
            small_market.elevation_groups))
get_elevation_groups_for_reserves_combination_lem_example =
    get_elevation_groups_for_reserves_combination_lem small_market (101 ∷ []) (some 102)
      some_groups-AreNumbered small_market-AllWithin
