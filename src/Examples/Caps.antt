-- ===== src/Examples/Caps.antt =====
-- The liquidity that the second reserve of the small market offers, in whole numbers.
use klend_sdk.Prelude.{
  inl, inr, some, Bool-cases, ℕ, ◌+◌, ◌-◌, ◌*◌, ◌/◌, ◌≤◌, ◌≡◌, refl, List, [], ◌∷◌, if◌then◌else◌,
  leb, ◌==◌, All, arith,
}
use klend_sdk.Prelude.Outcome.{Outcome, ok, error}
use klend_sdk.Pubkey.Keys.{numbered_keys}
use klend_sdk.Pubkey.HashMap
use klend_sdk.Reserve.Caps
use klend_sdk.Market.Groups
use klend_sdk.Reserve.Caps.{
  Amounts, BorrowCapsAndCounters, get_borrow_cap_for_reserve,
  get_liquidity_available_for_debt_reserve_given_caps, get_total_supply,
  calculate_utilization_ratio,
}
use mathlib.Core.Path.{subst}
use klend_sdk.Market.Groups.{ElevationGroupDescription}
use klend_sdk.Reserve.Caps.Laws.{HasOrder, HasCap, IsAmong}
use klend_sdk.Reserve.Caps.Collateral.{InsideGroup}
use klend_sdk.Reserve.Caps.Offer.{
  AreGreatest, HasReads, get_liquidity_available_for_debt_reserve_given_caps-AreGreatest,
}
use klend_sdk.Examples.Rates.{bps}
use klend_sdk.Examples.Market.{small_market, sol_reserve}

abbrev least : ℕ → List ℕ → ℕ
least x [] = x
least x (y ∷ ys) = let m = least y ys in if leb x m then x else m

abbrev min_or_error : List ℕ → Outcome ℕ
min_or_error [] = error "[DecimalError] Invalid argument: undefined"
min_or_error (x ∷ xs) = ok (least x xs)

abbrev whole : Amounts ℕ ℕ
whole = record {
  of_bn = λ k. k;
  of_number = λ k. k;
  to_number = λ k. k;
  add = λ x y. x + y;
  sub = λ x y. x - y;
  mul = λ x y. x * y;
  div = λ x y. x / y;
  eq = λ x y. x == y;
  max = λ x y. if leb x y then y else x;
  min = min_or_error;
}

All-below : (m k : ℕ) (xs : List ℕ) → m ≤ k → All (λ x. k ≤ x) xs → All (λ x. m ≤ x) xs
All-below m k [] h below = tt
All-below m k (x ∷ xs) h (b, below) = (omega arith, All-below m k xs h below)

least-All : (x : ℕ) (xs : List ℕ) → All (λ y. least x xs ≤ y) (x ∷ xs)
least-All x [] = (omega arith, tt)
least-All x (y ∷ ys) =
    let first : least x (y ∷ ys) ≤ x = ground arith in
    let others : least x (y ∷ ys) ≤ least y ys = ground arith in
    (first, All-below (least x (y ∷ ys)) (least y ys) (y ∷ ys) others (least-All y ys))

least-IsAmong : (x : ℕ) (xs : List ℕ) → IsAmong (least x xs) (x ∷ xs)
least-IsAmong x [] = inl refl
least-IsAmong x (y ∷ ys) = elim (Bool-cases (leb x (least y ys))) [
  | inl first ↦ inl (rw first refl)
  | inr later ↦
      let rest : IsAmong (least y ys) (y ∷ ys) = least-IsAmong y ys in
      let same : least y ys ≡ least x (y ∷ ys) = rw later refl in
      inr (subst (λ m. IsAmong m (y ∷ ys)) same rest)
]

whole-HasOrder : HasOrder whole (λ x y. x ≤ y)
whole-HasOrder = record {
  le_trans = λ x y z h g. omega arith;
  max_mono = λ x y z h. ground arith;
  min_returns = λ x xs. (least x xs, refl, least-IsAmong x xs, least-All x xs);
}

abbrev sol_caps : BorrowCapsAndCounters ℕ ℕ
sol_caps = record {
  utilization_cap = 10000;
  utilization_current_value = 0;
  net_withdrawal_cap = 700;
  net_withdrawal_current_value = 100;
  net_withdrawal_last_update_ts = 0;
  net_withdrawal_interval_duration_seconds = 86400;
  global_debt_cap = 1000;
  global_total_borrowed = 100;
  debt_outside_emode_cap = 500;
  borrowed_outside_emode = 50;
  debt_against_collateral_reserve_caps =
      record { collateral_reserve = 101; elevation_group = 2; max_debt = 300; current_value = 20 }
      ∷ record { collateral_reserve = 101; elevation_group = 3; max_debt = 400; current_value = 30 }
      ∷ [];
}

get_borrow_cap-sol : get_borrow_cap_for_reserve bps whole sol_reserve small_market ≡ ok sol_caps
unfolding get_borrow_cap_for_reserve Groups.get_market_elevation_group_descriptions HashMap.values
    HashMap.get HashMap.of_entries HashMap.set
get_borrow_cap-sol = refl

offered :
    get_liquidity_available_for_debt_reserve_given_caps bps whole sol_reserve small_market
      (0 ∷ 2 ∷ [])
    ≡ ok (450 ∷ 280 ∷ [])
unfolding get_liquidity_available_for_debt_reserve_given_caps
    Groups.get_market_elevation_group_descriptions HashMap.values HashMap.get HashMap.of_entries
    HashMap.set
offered = refl

sol_ratio : calculate_utilization_ratio bps whole sol_reserve ≡ ok 0
unfolding calculate_utilization_ratio
sol_ratio = refl

sol_supply : get_total_supply bps whole sol_reserve ≡ ok 1000
unfolding get_total_supply
sol_supply = refl

abbrev sol_collaterals : List (ElevationGroupDescription ℕ)
sol_collaterals =
    record {
      collateral_reserves = [];
      collateral_liquidity_mints = [];
      debt_reserve = 101;
      debt_liquidity_mint = some 201;
      elevation_group = 1;
    }
    ∷ record {
      collateral_reserves = 101 ∷ [];
      collateral_liquidity_mints = 201 ∷ [];
      debt_reserve = 102;
      debt_liquidity_mint = some 90;
      elevation_group = 2;
    }
    ∷ record {
      collateral_reserves = 101 ∷ [];
      collateral_liquidity_mints = 201 ∷ [];
      debt_reserve = 102;
      debt_liquidity_mint = some 90;
      elevation_group = 3;
    }
    ∷ []

sol_described : Groups.get_market_elevation_group_descriptions small_market ≡ ok sol_collaterals
unfolding Groups.get_market_elevation_group_descriptions HashMap.values HashMap.of_entries
    HashMap.set
sol_described = refl

sol_capped :
    Caps.collateral_caps bps whole small_market 102 sol_collaterals
    ≡ ok sol_caps.debt_against_collateral_reserve_caps
unfolding Caps.collateral_caps HashMap.get HashMap.of_entries HashMap.set
sol_capped = refl

sol_borrowed : Caps.to_decimal bps whole sol_reserve.borrowed_amount_sf ≡ ok 100
unfolding Caps.to_decimal
sol_borrowed = refl

sol_reads :
    HasReads bps whole
      (λ x y. x ≤ y)
      sol_reserve
      small_market
      sol_collaterals
      sol_caps.debt_against_collateral_reserve_caps
      100
      1000
      0
sol_reads = record {
  described = sol_described;
  capped = sol_capped;
  some_borrowed = sol_borrowed;
  some_supply = sol_supply;
  some_ratio = sol_ratio;
}

have_caps : All (HasCap bps whole sol_caps.debt_against_collateral_reserve_caps) (0 ∷ 2 ∷ [])
have_caps = (λ h. cc, (λ h. refl, tt))

get_liquidity_available_for_debt_reserve_given_caps-AreGreatest_example :
    (amounts : List ℕ) × (get_liquidity_available_for_debt_reserve_given_caps bps whole sol_reserve
        small_market
        (0 ∷ 2 ∷ [])
      ≡ ok amounts)
    × AreGreatest bps whole
        (λ x y. x ≤ y)
        900
        450
        600
        900
        10000000
        (λ group P. InsideGroup bps whole small_market P 102 sol_collaterals group)
        (0 ∷ 2 ∷ [])
        amounts
get_liquidity_available_for_debt_reserve_given_caps-AreGreatest_example =
    get_liquidity_available_for_debt_reserve_given_caps-AreGreatest bps whole (λ x y. x ≤ y)
      whole-HasOrder sol_reserve small_market (0 ∷ 2 ∷ []) sol_collaterals
      sol_caps.debt_against_collateral_reserve_caps 100 1000 0 sol_reads have_caps
