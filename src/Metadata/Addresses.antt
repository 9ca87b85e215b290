-- ===== src/Metadata/Addresses.antt =====
-- The addresses that the lookup table of a user should hold: `getUserLookupTableAddresses` of
-- src/utils/userMetadata.ts and the functions that it calls. The texts logged beside the addresses are
-- left out.
pub mod Coverage
use klend_sdk.Prelude.{
  ℕ, List, [], ◌∷◌, ◌++◌, Bool, true, false, Option, none, some, if◌then◌else◌, map, filter,
}
use klend_sdk.Prelude.Outcome.{Outcome, ok, error, ◌>>=◌, or_throw}
use klend_sdk.Pubkey.{is_not_null_pubkey}
use klend_sdk.Pubkey.Keys.{PublicKeys}
use klend_sdk.Pubkey.Set
use klend_sdk.Action.Interfaces.{Web3}
use klend_sdk.Action.Data.{KaminoMarket, KaminoReserve}
use klend_sdk.Action.State.{ObligationType}
use klend_sdk.Action.Keys.{
  obligation_pda_with_args, user_metadata_pda, referrer_token_state_pda, farm_user_state_pda,
}
use klend_sdk.Action.Initialize.{get_associated_token_address, get_reserve_by_mint}

pub record MintPair (K : Type 0) : Type 0 where
  pub coll : K
  pub debt : K

-- An obligation as far as it is read here: its address, and the mints of its borrows and deposits in
-- the order of the maps.
pub record RepaidObligation (K : Type 0) : Type 0 where
  pub obligation_address : K
  pub borrow_mints : List K
  pub deposit_mints : List K

module _ {K : Type 0} where
  -- `MultiplyObligation.toArgs` and `LeverageObligation.toArgs` of src/utils/ObligationType.ts.
  abbrev pub multiply_obligation : K → K → K → ObligationType K
  multiply_obligation coll_token debt_token program_id = record {
    tag = 1;
    id = 0;
    seed1 = coll_token;
    seed2 = debt_token;
    program_id = program_id;
  }

  abbrev pub leverage_obligation : K → K → K → ObligationType K
  leverage_obligation coll_token debt_token program_id = record {
    tag = 3;
    id = 0;
    seed1 = coll_token;
    seed2 = debt_token;
    program_id = program_id;
  }

  abbrev pub pair_mints : List (MintPair K) → List K
  pair_mints [] = []
  pair_mints (pair ∷ pairs) = pair.coll ∷ pair.debt ∷ pair_mints pairs

  abbrev pub repaid_mints : Option (RepaidObligation K) → List K
  repaid_mints none = []
  repaid_mints (some o) = o.borrow_mints ++ o.deposit_mints

module _ {K : Type 0} ⦃p : PublicKeys K⦄ ⦃w : Web3 K⦄ where
  -- A farm user state, where the reserve has a farm.
  unfoldable pub farm_state : K → K → List K
  farm_state farm obligation =
      if p.equals farm p.default then [] else farm_user_state_pda farm obligation ∷ []

module _ {K D : Type 0} ⦃p : PublicKeys K⦄ ⦃w : Web3 K⦄ where
  -- The reserves of the mints that the market has.
  unfoldable pub known_reserves : KaminoMarket K D → List K → List (KaminoReserve K D)
  known_reserves m [] = []
  known_reserves m (mint ∷ mints) = elim (get_reserve_by_mint m mint) [
    | some r ↦ r ∷ known_reserves m mints
    | none ↦ known_reserves m mints
  ]

  -- What one pair adds, if the market has both reserves: the address of its obligation and the farm
  -- user states of that obligation.
  abbrev pub obligation_if_known :
      Option (KaminoReserve K D) → Option (KaminoReserve K D) → K → List K
  obligation_if_known (some coll_reserve) (some debt_reserve) pda = pda ∷ []
  obligation_if_known _ _ pda = []

  abbrev pub farm_states_if_known :
      Option (KaminoReserve K D) → Option (KaminoReserve K D) → K → List K
  farm_states_if_known (some coll_reserve) (some debt_reserve) pda =
      farm_state coll_reserve.farm_collateral pda ++ farm_state debt_reserve.farm_debt pda
  farm_states_if_known _ _ pda = []

  unfoldable pub pair_obligation :
      (K → K → ObligationType K) → KaminoMarket K D → K → MintPair K → List K
  pair_obligation type_of m user pair =
      obligation_if_known (get_reserve_by_mint m pair.coll) (get_reserve_by_mint m pair.debt)
        (obligation_pda_with_args m.address user (type_of pair.coll pair.debt))

  unfoldable pub pair_farm_states :
      (K → K → ObligationType K) → KaminoMarket K D → K → MintPair K → List K
  unfolding farm_state
  pair_farm_states type_of m user pair =
      farm_states_if_known (get_reserve_by_mint m pair.coll) (get_reserve_by_mint m pair.debt)
        (obligation_pda_with_args m.address user (type_of pair.coll pair.debt))

  -- The two arrays that one loop over the pairs fills.
  unfoldable pub pair_addresses :
      (K → K → ObligationType K) → KaminoMarket K D → K → List (MintPair K) → List K × List K
  unfolding pair_obligation pair_farm_states
  pair_addresses type_of m user [] = ([], [])
  pair_addresses type_of m user (pair ∷ pairs) =
      let rest = pair_addresses type_of m user pairs in
      (
        pair_obligation type_of m user pair ++ rest.0,
        pair_farm_states type_of m user pair ++ rest.1,
      )

  -- The seed of the debt token is wrapped SOL, whatever the debt mint of the pair is.
  unfoldable pub multiply_addresses : KaminoMarket K D → K → List (MintPair K) → List K × List K
  unfolding pair_addresses
  multiply_addresses m user mints =
      pair_addresses (λ coll debt. multiply_obligation coll w.wrapped_sol_mint m.program_id) m user
        mints

  unfoldable pub leverage_addresses : KaminoMarket K D → K → List (MintPair K) → List K × List K
  unfolding pair_addresses
  leverage_addresses m user mints =
      pair_addresses (λ coll debt. leverage_obligation coll debt m.program_id) m user mints

  -- One loop over the mints of an obligation; a mint without a reserve throws.
  unfoldable pub farm_states_of :
      (KaminoReserve K D → K) → KaminoMarket K D → K → List K → Outcome (List K)
  unfolding farm_state
  farm_states_of farm m obligation [] = ok []
  farm_states_of farm m obligation (mint ∷ mints) = do
    reserve ← or_throw (get_reserve_by_mint m mint) "Cannot read properties of undefined"
    rest ← farm_states_of farm m obligation mints
    ok (farm_state (farm reserve) obligation ++ rest)

  unfoldable pub repay_with_coll_addresses :
      KaminoMarket K D → Option (RepaidObligation K) → Outcome (List K)
  unfolding farm_states_of
  repay_with_coll_addresses m none = ok []
  repay_with_coll_addresses m (some o) = do
    debts ← farm_states_of (λ r. r.farm_debt) m o.obligation_address o.borrow_mints
    colls ← farm_states_of (λ r. r.farm_collateral) m o.obligation_address o.deposit_mints
    ok ((debts ++ colls) ++ o.obligation_address ∷ [])

  -- The distinct farms of the reserves.
  unfoldable pub farms_of : List (KaminoReserve K D) → List K
  unfolding is_not_null_pubkey
  farms_of reserves = Set.to_array (
      Set.of_items (
        filter is_not_null_pubkey
          (map (λ r. r.farm_collateral) reserves ++ map (λ r. r.farm_debt) reserves)))

  unfoldable pub referrer_states : KaminoMarket K D → K → List (KaminoReserve K D) → List K
  referrer_states m referrer reserves =
      if p.equals referrer p.default
      then []
      else map (λ r. referrer_token_state_pda referrer r.address m.program_id) reserves

  unfoldable pub get_user_lookup_table_addresses :
      KaminoMarket K D
      → K
      → K
      → List (MintPair K)
      → List (MintPair K)
      → Option (RepaidObligation K)
      → Outcome (List K)
  unfolding known_reserves farms_of referrer_states multiply_addresses leverage_addresses
      repay_with_coll_addresses
  get_user_lookup_table_addresses m user referrer multiply_mints leverage_mints repaid = do
    let all_mints = pair_mints multiply_mints ++ (pair_mints leverage_mints ++ repaid_mints repaid)
    let mints = Set.to_array (Set.of_items all_mints)
    let reserves = known_reserves m mints
    let multiply = multiply_addresses m user multiply_mints
    let leverage = leverage_addresses m user leverage_mints
    repay ← repay_with_coll_addresses m repaid
    ok (
        user
        ∷ user_metadata_pda user m.program_id
        ∷ (map (λ mint. get_associated_token_address mint user w.token_program_id) mints
            ++ (map (λ r. get_associated_token_address r.c_token_mint user w.token_program_id)
                  reserves
                ++ (farms_of reserves
                    ++ (referrer_states m referrer reserves
                        ++ (multiply.0
                            ++ (multiply.1 ++ (leverage.0 ++ (leverage.1 ++ repay)))))))))
