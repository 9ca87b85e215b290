-- ===== src/Examples/Market.antt =====
-- A market of two reserves, an obligation in it, and an action on them. Program addresses are numbers made
-- of the seeds, and no account exists yet.
use klend_sdk.Prelude.{ℕ, ◌+◌, ◌*◌, ◌/◌, ◌^◌, List, [], ◌∷◌, false, none, some, leb}
use klend_sdk.Pubkey.Keys.{numbered_keys}
use klend_sdk.Pubkey.HashMap
use klend_sdk.Action.Interfaces.{Web3, Decimals, Seed, text, byte, key}
use klend_sdk.Action.Data.{KaminoMarket, KaminoReserve, KaminoObligation, ElevationGroup}
use klend_sdk.Action.State.{KaminoAction}
use klend_sdk.Action.Initialize.{new_kamino_action, vanilla_obligation}

abbrev pub seed_sum : List (Seed ℕ) → ℕ
seed_sum [] = 0
seed_sum (text t ∷ seeds) = 7 + 10 * seed_sum seeds
seed_sum (byte n ∷ seeds) = n + 10 * seed_sum seeds
seed_sum (key k ∷ seeds) = k + 10 * seed_sum seeds

instance abbrev pub number_web3 : Web3 ℕ
number_web3 = record {
  wrapped_sol_mint = 90;
  native_mint = 90;
  token_program_id = 91;
  associated_token_program_id = 92;
  farms_id = 93;
  find_program_address = λ seeds program. 1000 + program + seed_sum seeds;
  account_exists = λ k. false;
  rent_exempt = 2039280;
  new_lookup_table = λ k. 94 + k;
  user_metadata = λ k. none;
  u16_max = 65535;
  parse_int = λ n. n;
}

instance abbrev pub whole_decimals : Decimals ℕ
whole_decimals = record {
  of_bn = λ n. n;
  add = ◌+◌;
  mul = ◌*◌;
  div = ◌/◌;
  lte = leb;
  ceil_bn = λ n. n;
  floor_bn = λ n. n;
}

abbrev pub reserve_of : ℕ → ℕ → ℕ → ℕ → List ℕ → KaminoReserve ℕ ℕ
reserve_of address mint farm_collateral farm_debt groups = record {
  address = address;
  liquidity_mint = mint;
  liquidity_token_program = 91;
  liquidity_supply_vault = address + 1000;
  liquidity_fee_vault = address + 2000;
  c_token_mint = mint + 1000;
  collateral_supply_vault = address + 3000;
  farm_collateral = farm_collateral;
  farm_debt = farm_debt;
  pyth_price = 0;
  switchboard_price_aggregator = 0;
  switchboard_twap_aggregator = 1;
  scope_price_feed = 80;
  scope_price_chain = 3 ∷ 65535 ∷ [];
  scope_twap_chain = 65535 ∷ [];
  elevation_groups = groups;
  available_amount = 900;
  borrowed_amount_sf = 100 * 2 ^ 60;
  accumulated_protocol_fees_sf = 0;
  accumulated_referrer_fees_sf = 0;
  pending_referrer_fees_sf = 0;
  utilization_limit_block_borrowing_above = 0;
  debt_withdrawal_cap = record {
    config_capacity = 700;
    current_total = 100;
    last_interval_start_timestamp = 0;
    config_interval_length_seconds = 86400;
  };
  borrow_limit = 1000;
  borrow_limit_outside_elevation_group = 500;
  borrowed_amount_outside_elevation_group = 50;
  borrow_limit_against_this_collateral_in_elevation_group = 10 ∷ 300 ∷ 400 ∷ [];
  borrowed_amounts_against_this_reserve_in_elevation_groups = 0 ∷ 20 ∷ 30 ∷ [];
  estimated_cumulative_borrow_rate = λ slot fee. 1;
  estimated_collateral_exchange_rate = λ slot fee. 1;
}

abbrev pub usdc_reserve : KaminoReserve ℕ ℕ
usdc_reserve = reserve_of 101 201 301 0 (1 ∷ 2 ∷ 3 ∷ [])

abbrev pub sol_reserve : KaminoReserve ℕ ℕ
sol_reserve = reserve_of 102 90 302 402 (2 ∷ 3 ∷ [])

-- Two of the groups lend the second reserve.
abbrev pub some_groups : List (ElevationGroup ℕ)
some_groups =
    record { id = 1; ltv_pct = 95; debt_reserve = 101 }
    ∷ record { id = 2; ltv_pct = 80; debt_reserve = 102 }
    ∷ record { id = 3; ltv_pct = 90; debt_reserve = 102 }
    ∷ []

abbrev pub small_market : KaminoMarket ℕ ℕ
small_market = record {
  address = 50;
  program_id = 51;
  lending_market_authority = 52;
  referral_fee_bps = 0;
  elevation_groups = some_groups;
  reserves = HashMap.of_entries ((101, usdc_reserve) ∷ (102, sol_reserve) ∷ []);
}

-- Deposits in the first reserve, and owes the second.
abbrev pub small_obligation : KaminoObligation ℕ ℕ
small_obligation = record {
  obligation_address = 60;
  owner = 61;
  referrer = 0;
  elevation_group = 0;
  state_deposits = 101 ∷ 0 ∷ [];
  state_borrows =
      record { borrow_reserve = 102; borrow_amount = 40; cumulative_borrow_rate = 1 } ∷ [];
  deposits = HashMap.of_entries ((101, record { amount = 500 }) ∷ []);
  borrows = HashMap.of_entries ((102, record { amount = 40 }) ∷ []);
  potential_elevation_group_update = 0;
}

abbrev pub small_action : KaminoAction ℕ ℕ
small_action =
    new_kamino_action small_market 61 61
      (record {
        kamino_obligation = some small_obligation;
        deposit_reserves = 101 ∷ [];
        borrow_reserves = 102 ∷ [];
        distinct_reserve_count = 2;
      })
      (vanilla_obligation 51) (70, 71) 201 25 usdc_reserve 9 none none none none 0
