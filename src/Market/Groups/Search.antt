-- ===== src/Market/Groups/Search.antt =====
-- Which groups the search by reserves of src/classes/market.ts finds.
use klend_sdk.Prelude.{
  none, some, any-append, all_ext, filter-map, ℕ, ◌≡◌, refl, ap, ◌∙◌, List, [], ◌∷◌, Bool, true,
  false, Option, some, if◌then◌else◌, not, ◌==◌, ◌&&◌, map, filter, any, all, length, Bool-cases,
  inl, inr, arith,
}
use klend_sdk.Prelude.Outcome.{ok}
use klend_sdk.Pubkey.Keys.{PublicKeys, includes}
use klend_sdk.Pubkey.HashMap
use klend_sdk.Action.Data.{KaminoMarket, KaminoReserve, ElevationGroup}
use klend_sdk.Market.Groups.{
  ElevationGroupDescription, get_elevation_groups_for_reserves_combination, is_debt,
}
use klend_sdk.Market.Groups.Joining.{AllWithin, memberships, with_groups, collaterals}
use klend_sdk.Market.Groups.Laws.{
  active, AreNumbered, described, get_market_elevation_group_descriptions_lem,
}

module _ {K : Type 0} ⦃p : PublicKeys K⦄ where
  -- The group lends the reserve, if one is given.
  abbrev pub lends : Option K → ElevationGroup K → Bool
  lends none g = true
  lends (some key) g = p.equals key g.debt_reserve

  is_debt-lends :
      (debt_reserve : Option K) (g : ElevationGroup K)
      → is_debt debt_reserve (some g.debt_reserve) ≡ lends debt_reserve g
  unfolding is_debt
  is_debt-lends none g = refl
  is_debt-lends (some key) g = refl

module _ {K D : Type 0} ⦃p : PublicKeys K⦄ where
  -- A reserve of the market at the key has the group, which does not lend that key.
  abbrev pub is_collateral : List (KaminoReserve K D) → ElevationGroup K → K → Bool
  is_collateral reserves g key =
      if p.equals key g.debt_reserve
      then false
      else any
          (λ r. if p.equals r.address key then any (λ id. g.id == id) r.elevation_groups else false)
          reserves

  unfoldable hit : K → ℕ → K → KaminoReserve K D × ℕ → Bool
  hit debt group key (r, id) =
      if group == id
      then (if p.equals r.address key then not (p.equals key debt) else false)
      else false

  includes-collaterals :
      (debt : K) (group : ℕ) (key : K) (ms : List (KaminoReserve K D × ℕ))
      → includes (map (λ r. r.address) (collaterals debt group ms)) key
        ≡ any (hit debt group key) ms
  unfolding hit
  includes-collaterals debt group key [] = refl
  includes-collaterals debt group key ((r, id) ∷ ms) =
      let alike : p.equals r.address key ≡ true → p.equals r.address debt ≡ p.equals key debt =
        λ e. ap (λ k. p.equals k debt) ((p.equals_iff r.address key).0 e) in
      ground (arith, alike, includes-collaterals debt group key ms)

  any-with_groups :
      (debt : K) (group : ℕ) (key : K) (r : KaminoReserve K D) (ids : List ℕ)
      → (group == 0) ≡ false
      → any (hit debt group key) (with_groups r ids) ≡ (
          if p.equals key debt
          then false
          else (if p.equals r.address key then any (λ id. group == id) ids else false))
  unfolding hit
  any-with_groups debt group key r [] used = ground arith
  any-with_groups debt group key r (id ∷ ids) used =
      ground (arith, any-with_groups debt group key r ids used)

  any-memberships :
      (g : ElevationGroup K) (key : K) (rs : List (KaminoReserve K D))
      → (g.id == 0) ≡ false
      → any (hit g.debt_reserve g.id key) (memberships rs) ≡ is_collateral rs g key
  any-memberships g key [] used = ground arith
  any-memberships g key (r ∷ rs) used =
      let own = any-with_groups g.debt_reserve g.id key r r.elevation_groups used in
      let both =
        any-append (hit g.debt_reserve g.id key) (with_groups r r.elevation_groups)
          (memberships rs) in
      ground (arith, own, both, any-memberships g key rs used)

  includes-described :
      (rs : List (KaminoReserve K D)) (g : ElevationGroup K) (key : K)
      → (g.id == 0) ≡ false
      → includes (described rs g).collateral_reserves key ≡ is_collateral rs g key
  includes-described rs g key used =
      includes-collaterals g.debt_reserve g.id key (memberships rs) ∙ any-memberships g key rs used

  -- The groups in use that hold the reserves and lend the debt reserve.
  abbrev pub fitting :
      List (KaminoReserve K D)
      → List K
      → Option K
      → List (ElevationGroup K)
      → List (ElevationGroup K)
  fitting reserves coll_reserves debt_reserve groups =
      filter (λ g. all (λ key. is_collateral reserves g key) coll_reserves && lends debt_reserve g)
        (active groups)

  filter-described :
      (rs : List (KaminoReserve K D)) (coll_reserves : List K) (debt_reserve : Option K)
      (gs : List (ElevationGroup K))
      → filter
          (λ g.
            all (λ key. includes (described rs g).collateral_reserves key) coll_reserves
            && is_debt debt_reserve (some g.debt_reserve))
          (active gs)
        ≡ fitting rs coll_reserves debt_reserve gs
  filter-described rs coll_reserves debt_reserve [] = refl
  filter-described rs coll_reserves debt_reserve (g ∷ gs) = elim (Bool-cases (g.id == 0)) [
    | inl unused ↦ rw unused (filter-described rs coll_reserves debt_reserve gs)
    | inr used ↦
        let alike =
          all_ext (λ key. includes (described rs g).collateral_reserves key)
            (λ key. is_collateral rs g key) (λ key. includes-described rs g key used)
            coll_reserves in
        rw
          (
            used,
            alike,
            is_debt-lends debt_reserve g,
            filter-described rs coll_reserves debt_reserve gs,
          )
          refl
  ]

  -- If the groups in use are numbered from 1 in their order and no reserve has a group above the last
  -- of them, the search by reserves returns the descriptions of the groups in use that have every
  -- given collateral, which is a reserve of the market with the group and not the group's debt
  -- reserve, and that lend the given debt reserve, if one is given.
  pub get_elevation_groups_for_reserves_combination_lem :
      (market : KaminoMarket K D) (coll_reserves : List K) (debt_reserve : Option K)
      → AreNumbered 1 (active market.elevation_groups)
      → AllWithin (length (active market.elevation_groups)) (HashMap.values market.reserves)
      → get_elevation_groups_for_reserves_combination market coll_reserves debt_reserve
        ≡ ok (
            map (described (HashMap.values market.reserves)) (
              fitting
                (HashMap.values market.reserves)
                coll_reserves
                debt_reserve
                market.elevation_groups))
  unfolding get_elevation_groups_for_reserves_combination
  get_elevation_groups_for_reserves_combination_lem market coll_reserves debt_reserve numbered
        within =
      let rs = HashMap.values market.reserves in
      let test : ElevationGroupDescription K → Bool = λ d.
        all (λ key. includes d.collateral_reserves key) coll_reserves
        && is_debt debt_reserve (some d.debt_reserve) in
      let kept = filter-map (described rs) test (active market.elevation_groups) in
      rw (get_market_elevation_group_descriptions_lem market numbered within) (
        ap ok (
          kept
          ∙ ap (map (described rs))
              (filter-described rs coll_reserves debt_reserve market.elevation_groups)))
