-- ===== src/Reserve/Caps/Offer.antt =====
-- What `getLiquidityAvailableForDebtReserveGivenCaps` of src/classes/reserve.ts returns, from the state of the
-- reserve and of the collaterals in the market.
use klend_sdk.Prelude.{ℕ, ◌≡◌, refl, List, [], ◌∷◌, if◌then◌else◌, ltb, All, ◌↔◌}
use klend_sdk.Prelude.Outcome.{ok}
use klend_sdk.Pubkey.Keys.{PublicKeys}
use klend_sdk.Action.Data.{KaminoMarket, KaminoReserve}
use klend_sdk.Market.Groups.{ElevationGroupDescription, get_market_elevation_group_descriptions}
use klend_sdk.Reserve.Rates.{Numbers}
use klend_sdk.Reserve.Caps.{
  Amounts, CollateralCap, u64_max, to_decimal, get_total_supply, calculate_utilization_ratio,
  collateral_caps, get_borrow_cap_for_reserve, available_for_each,
  get_liquidity_available_for_debt_reserve_given_caps,
}
use klend_sdk.Reserve.Caps.Laws.{HasOrder, HasCap, AllInside, IsGreatest, available_for-IsGreatest}
use klend_sdk.Reserve.Caps.Collateral.{InsideGroup, collateral_caps-leaves}

module _ {D N : Type 0} (n : Numbers N) (a : Amounts D N) (Le : D → D → Type 0) where
  -- One amount for each group, in the order of the groups.
  abbrev pub AreGreatest :
      D → D → D → D → D → (ℕ → (D → Type 0) → Type 0) → List ℕ → List D → Type 0
  AreGreatest liquidity outside daily total given Inside [] [] = Unit
  AreGreatest liquidity outside daily total given Inside (group ∷ groups) (amount ∷ amounts) =
      IsGreatest n a Le liquidity outside daily total given (Inside group) group amount
      × AreGreatest liquidity outside daily total given Inside groups amounts
  AreGreatest liquidity outside daily total given Inside _ _ = ⊥

module _ {K D N : Type 0} (n : Numbers N) (a : Amounts D N) (Le : D → D → Type 0)
    (order : HasOrder a Le) (caps : List (CollateralCap K D)) (Inside : ℕ → (D → Type 0) → Type 0)
    (same : (group : ℕ) (P : D → Type 0) → Inside group P ↔ AllInside a P group caps) where
  available_for_each-AreGreatest :
      (liquidity outside daily total given : D) (groups : List ℕ)
      → All (HasCap n a caps) groups
      → (amounts : List D) × (available_for_each n a liquidity outside daily total given caps groups
          ≡ ok amounts)
        × AreGreatest n a Le liquidity outside daily total given Inside groups amounts
  unfolding available_for_each
  available_for_each-AreGreatest liquidity outside daily total given [] has = ([], refl, tt)
  available_for_each-AreGreatest liquidity outside daily total given (group ∷ groups) (h, has) =
      let (amount, returns, greatest) =
        available_for-IsGreatest n a Le order caps Inside same liquidity outside daily total given
          group h in
      let (amounts, later, rest) =
        available_for_each-AreGreatest liquidity outside daily total given groups has in
      (amount ∷ amounts, rw (returns, later) refl, (greatest, rest))

module _ {K C D N : Type 0} ⦃p : PublicKeys K⦄ (n : Numbers N) (a : Amounts D N)
    (Le : D → D → Type 0) where
  -- What the state of the reserve leaves of the day's withdrawals.
  abbrev pub left_today : KaminoReserve K C → D
  left_today reserve =
      let cap = reserve.debt_withdrawal_cap in
      if a.eq (a.of_bn cap.config_interval_length_seconds) (a.of_number n.zero)
      then a.of_bn u64_max
      else a.sub (a.of_bn cap.config_capacity) (a.of_bn cap.current_total)

  -- The part of the supply that may be borrowed.
  abbrev pub share_limit : KaminoReserve K C → N
  share_limit reserve =
      let limit = reserve.utilization_limit_block_borrowing_above in
      if ltb 0 limit then n.div (n.of_nat limit) (n.of_nat 100) else n.one

  -- The reads that the offer is made of.
  pub record HasReads (reserve : KaminoReserve K C) (market : KaminoMarket K C)
      (ds : List (ElevationGroupDescription K)) (caps : List (CollateralCap K D))
      (borrowed supply : D) (ratio : N) : Type 0 where
    pub described : get_market_elevation_group_descriptions market ≡ ok ds
    pub capped : collateral_caps n a market reserve.address ds ≡ ok caps
    pub some_borrowed : to_decimal n a reserve.borrowed_amount_sf ≡ ok borrowed
    pub some_supply : get_total_supply n a reserve ≡ ok supply
    pub some_ratio : calculate_utilization_ratio n a reserve ≡ ok ratio

  -- If the descriptions of the market's groups, the caps of the collaterals, the borrowed amount, the
  -- supply and the utilisation of a reserve are computed, and every requested group is 0 or has a
  -- collateral cap, then one amount is returned for each group, in their order: the greatest that is
  -- at most zero or the available liquidity, zero or the rest of the daily cap, zero or the rest of
  -- the borrow limit, zero or the part of the supply up to the utilisation limit, in group 0 zero or
  -- the rest of the limit outside groups, and in another group, for each collateral in the
  -- descriptions of the group that lend this reserve, zero or what the collateral's limit in the group
  -- leaves above its counter.
  pub get_liquidity_available_for_debt_reserve_given_caps-AreGreatest :
      (order : HasOrder a Le) (reserve : KaminoReserve K C) (market : KaminoMarket K C)
      (groups : List ℕ) (ds : List (ElevationGroupDescription K)) (caps : List (CollateralCap K D))
      (borrowed supply : D) (ratio : N)
      → HasReads reserve market ds caps borrowed supply ratio
      → All (HasCap n a caps) groups
      → (amounts : List D) × (get_liquidity_available_for_debt_reserve_given_caps n a reserve market
            groups
          ≡ ok amounts)
        × AreGreatest n a Le
            (a.of_bn reserve.available_amount)
            (a.sub
              (a.of_bn reserve.borrow_limit_outside_elevation_group)
              (a.of_bn reserve.borrowed_amount_outside_elevation_group))
            (left_today reserve)
            (a.sub (a.of_bn reserve.borrow_limit) borrowed)
            (a.mul supply (a.sub (a.of_number (share_limit reserve)) (a.of_number ratio)))
            (λ group P. InsideGroup n a market P reserve.address ds group)
            groups
            amounts
  unfolding get_liquidity_available_for_debt_reserve_given_caps get_borrow_cap_for_reserve
  get_liquidity_available_for_debt_reserve_given_caps-AreGreatest order reserve market groups ds
        caps borrowed supply ratio reads has =
      let same : (group : ℕ) (P : D → Type 0)
          → InsideGroup n a market P reserve.address ds group ↔ AllInside a P group caps =
        λ group P.
          let leaves =
            collateral_caps-leaves n a market P reserve.address group ds caps reads.capped in
          (leaves.1, leaves.0) in
      rw (reads.some_ratio, reads.some_supply, reads.described, reads.capped, reads.some_borrowed)
        (available_for_each-AreGreatest n a Le order caps
          (λ group P. InsideGroup n a market P reserve.address ds group) same _ _ _ _ _ groups has)
