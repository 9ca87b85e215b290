-- ===== src/Reserve/Caps.antt =====
-- The borrow caps of a reserve: `getBorrowCapForReserve`, `getLiquidityAvailableForDebtReserveGivenCaps` and
-- what they read, of src/classes/reserve.ts, with src/classes/fraction.ts.
pub mod Laws
pub mod Collateral
pub mod Offer
use Prim.Native.String.{String}
use klend_sdk.Prelude.{
  ℕ, zero, suc, ◌-◌, ◌^◌, List, [], ◌∷◌, ◌++◌, Bool, true, false, Option, none, some, if◌then◌else◌,
  ltb, ◌==◌, map, filter, get_elem?,
}
use klend_sdk.Prelude.Outcome.{Outcome, ok, error, ◌>>=◌, or_throw}
use klend_sdk.Pubkey.Keys.{PublicKeys}
use klend_sdk.Pubkey.HashMap
use klend_sdk.Action.Data.{KaminoMarket, KaminoReserve}
use klend_sdk.Market.Groups.{ElevationGroupDescription, get_market_elevation_group_descriptions}
use klend_sdk.Reserve.Rates.{Numbers}

-- What the code uses of decimal.js, over JavaScript numbers `N`.
pub record Amounts (D N : Type 0) : Type 0 where
  -- `new Decimal(n.toString())` of a big integer.
  pub of_bn : ℕ → D
  -- `new Decimal(x)` and `toNumber`.
  pub of_number : N → D
  pub to_number : D → N
  pub add : D → D → D
  pub sub : D → D → D
  pub mul : D → D → D
  pub div : D → D → D
  pub eq : D → D → Bool
  pub max : D → D → D
  -- `Decimal.min` of any number of arguments.
  pub min : List D → Outcome D

abbrev pub u64_max : ℕ
u64_max = 18446744073709551615

abbrev max_bn : ℕ
max_bn = 2 ^ 256 - 1

-- The constructor of `Fraction`; its value is no negative number here.
unfoldable pub new_fraction : ℕ → Outcome ℕ
new_fraction value_sf = if ltb max_bn value_sf then error "Number out of range" else ok value_sf

pub record CollateralCap (K D : Type 0) : Type 0 where
  pub collateral_reserve : K
  pub elevation_group : ℕ
  pub max_debt : D
  pub current_value : D

pub record BorrowCapsAndCounters (K D : Type 0) : Type 0 where
  pub utilization_cap : D
  pub utilization_current_value : D
  pub net_withdrawal_cap : D
  pub net_withdrawal_current_value : D
  pub net_withdrawal_last_update_ts : D
  pub net_withdrawal_interval_duration_seconds : D
  pub global_debt_cap : D
  pub global_total_borrowed : D
  pub debt_outside_emode_cap : D
  pub borrowed_outside_emode : D
  pub debt_against_collateral_reserve_caps : List (CollateralCap K D)

-- The amount of a group, whose place is its number less 1; a missing one has no `toString`.
unfoldable pub of_group : List ℕ → ℕ → Outcome ℕ
of_group amounts zero = error "Cannot read properties of undefined"
of_group amounts (suc i) = or_throw (get_elem? amounts i) "Cannot read properties of undefined"

module _ {D N : Type 0} (n : Numbers N) (a : Amounts D N) where
  -- `new Fraction(valueSf).toDecimal()`.
  unfoldable pub to_decimal : ℕ → Outcome D
  unfolding new_fraction
  to_decimal value_sf = new_fraction value_sf >>= (λ v. ok (a.div (a.of_bn v) (a.of_bn (2 ^ 60))))

  unfoldable pub positive_or_zero : D → D
  positive_or_zero value = a.max value (a.of_number n.zero)

module _ {K C D N : Type 0} (n : Numbers N) (a : Amounts D N) where
  -- `getTotalSupply`.
  unfoldable pub get_total_supply : KaminoReserve K C → Outcome D
  unfolding to_decimal
  get_total_supply reserve = do
    borrowed ← to_decimal n a reserve.borrowed_amount_sf
    protocol_fees ← to_decimal n a reserve.accumulated_protocol_fees_sf
    referrer_fees ← to_decimal n a reserve.accumulated_referrer_fees_sf
    pending_fees ← to_decimal n a reserve.pending_referrer_fees_sf
    ok (
        a.sub
          (a.sub (a.sub (a.add (a.of_bn reserve.available_amount) borrowed) protocol_fees)
            referrer_fees)
          pending_fees)

  -- `calculateUtilizationRatio`.
  unfoldable pub calculate_utilization_ratio : KaminoReserve K C → Outcome N
  unfolding to_decimal get_total_supply
  calculate_utilization_ratio reserve = do
    total_borrows ← to_decimal n a reserve.borrowed_amount_sf
    total_supply ← get_total_supply reserve
    if a.eq total_supply (a.of_number n.zero)
        then ok n.zero
        else ok (a.to_number (a.div total_borrows total_supply))

module _ {K C D N : Type 0} ⦃p : PublicKeys K⦄ (n : Numbers N) (a : Amounts D N) where
  -- The cap of a collateral reserve in a group.
  unfoldable pub collateral_cap : KaminoMarket K C → ℕ → K → Outcome (CollateralCap K D)
  unfolding of_group
  collateral_cap market group address = do
    coll_res ← or_throw (HashMap.get market.reserves address) "Cannot read properties of undefined"
    limit ← of_group coll_res.borrow_limit_against_this_collateral_in_elevation_group group
    counter ← of_group coll_res.borrowed_amounts_against_this_reserve_in_elevation_groups group
    ok (record {
      collateral_reserve = coll_res.address;
      elevation_group = group;
      max_debt = a.of_bn limit;
      current_value = a.of_bn counter;
    })

  unfoldable pub group_caps : KaminoMarket K C → ℕ → List K → Outcome (List (CollateralCap K D))
  unfolding collateral_cap
  group_caps market group [] = ok []
  group_caps market group (address ∷ rest) = do
    cap ← collateral_cap market group address
    later ← group_caps market group rest
    ok (cap ∷ later)

  -- The descriptions that lend a reserve, with the caps of their collaterals.
  unfoldable pub collateral_caps :
      KaminoMarket K C → K → List (ElevationGroupDescription K) → Outcome (List (CollateralCap K D))
  unfolding group_caps
  collateral_caps market address [] = ok []
  collateral_caps market address (d ∷ ds) =
      let rest = collateral_caps market address ds in
      if p.equals d.debt_reserve address
      then group_caps market d.elevation_group d.collateral_reserves
        >>= (λ caps. rest >>= (λ later. ok (caps ++ later)))
      else rest

  unfoldable pub get_borrow_cap_for_reserve :
      KaminoReserve K C → KaminoMarket K C → Outcome (BorrowCapsAndCounters K D)
  unfolding calculate_utilization_ratio collateral_caps to_decimal
  get_borrow_cap_for_reserve reserve market = do
    utilization_current_value ← calculate_utilization_ratio n a reserve
    descriptions ← get_market_elevation_group_descriptions market
    caps ← collateral_caps market reserve.address descriptions
    total_borrowed ← to_decimal n a reserve.borrowed_amount_sf
    let utilization_cap = reserve.utilization_limit_block_borrowing_above
    let withdrawal_cap = reserve.debt_withdrawal_cap
    ok (record {
      utilization_cap = a.of_number (
          if ltb 0 utilization_cap then n.div (n.of_nat utilization_cap) (n.of_nat 100) else n.one);
      utilization_current_value = a.of_number utilization_current_value;
      net_withdrawal_cap = a.of_bn withdrawal_cap.config_capacity;
      net_withdrawal_current_value = a.of_bn withdrawal_cap.current_total;
      net_withdrawal_last_update_ts = a.of_bn withdrawal_cap.last_interval_start_timestamp;
      net_withdrawal_interval_duration_seconds =
          a.of_bn withdrawal_cap.config_interval_length_seconds;
      global_debt_cap = a.of_bn reserve.borrow_limit;
      global_total_borrowed = total_borrowed;
      debt_outside_emode_cap = a.of_bn reserve.borrow_limit_outside_elevation_group;
      borrowed_outside_emode = a.of_bn reserve.borrowed_amount_outside_elevation_group;
      debt_against_collateral_reserve_caps = caps;
    })

module _ {K D N : Type 0} (n : Numbers N) (a : Amounts D N) where
  -- What stays of a collateral cap of a group.
  unfoldable pub remaining_inside : ℕ → List (CollateralCap K D) → List D
  remaining_inside group [] = []
  remaining_inside group (cap ∷ caps) =
      let rest = remaining_inside group caps in
      if cap.elevation_group == group then a.sub cap.max_debt cap.current_value ∷ rest else rest

  -- The amount for one group: the least of the liquidity and the caps.
  unfoldable pub available_for : D → D → D → D → D → List (CollateralCap K D) → ℕ → Outcome D
  unfolding positive_or_zero remaining_inside
  available_for liquidity outside daily total given_utilization caps group =
      if group == 0
      then a.min (
          positive_or_zero n a liquidity
          ∷ positive_or_zero n a outside
          ∷ positive_or_zero n a daily
          ∷ positive_or_zero n a total
          ∷ positive_or_zero n a given_utilization
          ∷ [])
      else a.min (remaining_inside group caps) >>= (λ inside. a.min (
          positive_or_zero n a liquidity
          ∷ positive_or_zero n a inside
          ∷ positive_or_zero n a daily
          ∷ positive_or_zero n a total
          ∷ positive_or_zero n a given_utilization
          ∷ []))

  unfoldable pub available_for_each :
      D → D → D → D → D → List (CollateralCap K D) → List ℕ → Outcome (List D)
  unfolding available_for
  available_for_each liquidity outside daily total given_utilization caps [] = ok []
  available_for_each liquidity outside daily total given_utilization caps (group ∷ groups) = do
    amount ← available_for liquidity outside daily total given_utilization caps group
    rest ← available_for_each liquidity outside daily total given_utilization caps groups
    ok (amount ∷ rest)

module _ {K C D N : Type 0} ⦃p : PublicKeys K⦄ (n : Numbers N) (a : Amounts D N) where
  unfoldable pub get_liquidity_available_for_debt_reserve_given_caps :
      KaminoReserve K C → KaminoMarket K C → List ℕ → Outcome (List D)
  unfolding get_borrow_cap_for_reserve available_for_each
  get_liquidity_available_for_debt_reserve_given_caps reserve market elevation_groups = do
    caps ← get_borrow_cap_for_reserve n a reserve market
    current_utilization ← calculate_utilization_ratio n a reserve
    total_supply ← get_total_supply n a reserve
    let given_utilization =
        a.mul total_supply (a.sub caps.utilization_cap (a.of_number current_utilization))
    let daily =
        if a.eq caps.net_withdrawal_interval_duration_seconds (a.of_number n.zero)
        then a.of_bn u64_max
        else a.sub caps.net_withdrawal_cap caps.net_withdrawal_current_value
    let total = a.sub caps.global_debt_cap caps.global_total_borrowed
    let outside = a.sub caps.debt_outside_emode_cap caps.borrowed_outside_emode
    available_for_each n a (a.of_bn reserve.available_amount) outside daily total given_utilization
        caps.debt_against_collateral_reserve_caps elevation_groups
