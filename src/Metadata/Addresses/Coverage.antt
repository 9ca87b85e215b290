-- ===== src/Metadata/Addresses/Coverage.antt =====
-- Which addresses `getUserLookupTableAddresses` of src/utils/userMetadata.ts returns.
use klend_sdk.Prelude.{
  ◌≡◌, refl, sym, ap, ◌∙◌, List, [], ◌∷◌, ◌++◌, true, false, Option, none, some, map, All, All-map,
  arith,
}
use mathlib.Core.Path.{subst}
use klend_sdk.Prelude.Outcome.{ok, >>=-eq-ok, ok-injective}
use klend_sdk.Pubkey.Keys.{PublicKeys, includes, includes-append, equals_refl}
use klend_sdk.Pubkey.Set
use klend_sdk.Pubkey.Set.{to_array-of_items}
use klend_sdk.Action.Interfaces.{Web3}
use klend_sdk.Action.Data.{KaminoMarket, KaminoReserve}
use klend_sdk.Action.State.{ObligationType}
use klend_sdk.Action.Keys.{obligation_pda_with_args, farm_user_state_pda, user_metadata_pda}
use klend_sdk.Action.Initialize.{get_associated_token_address, get_reserve_by_mint}
use klend_sdk.Metadata.Addresses.{
  MintPair, RepaidObligation, multiply_obligation, leverage_obligation, pair_mints, repaid_mints,
  farms_of, referrer_states, known_reserves, farm_states_of, farm_state, obligation_if_known,
  farm_states_if_known, pair_obligation, pair_farm_states, pair_addresses, multiply_addresses,
  leverage_addresses, repay_with_coll_addresses, get_user_lookup_table_addresses,
}

module _ {K : Type 0} ⦃p : PublicKeys K⦄ where
  -- The list has the key.
  abbrev pub Has : List K → K → Type 0
  Has xs k = includes xs k ≡ true

  Has_first : (xs ys : List K) (k : K) → Has xs k → Has (xs ++ ys) k
  Has_first xs ys k h = ground (arith, includes-append xs ys k)

  Has_second : (xs ys : List K) (k : K) → Has ys k → Has (xs ++ ys) k
  Has_second xs ys k h = ground (arith, includes-append xs ys k)

  Has_one : (k : K) → Has (k ∷ []) k
  Has_one k = rw (equals_refl k) refl

  Has-map : (f : K → K) (xs : List K) (k : K) → Has xs k → Has (map f xs) (f k)
  Has-map f [] k h = cc
  Has-map f (x ∷ xs) k h =
      let alike : p.equals x k ≡ true → p.equals (f x) (f k) ≡ true =
        λ e. (p.equals_iff (f x) (f k)).1 (ap f ((p.equals_iff x k).0 e)) in
      ground (arith, Has-map f xs k, alike)

module _ {K : Type 0} ⦃p : PublicKeys K⦄ ⦃w : Web3 K⦄ where
  farm_state-Has :
      (farm obligation : K)
      → p.equals farm p.default ≡ false
      → Has (farm_state farm obligation) (farm_user_state_pda farm obligation)
  unfolding farm_state
  farm_state-Has farm obligation e = rw e (Has_one (farm_user_state_pda farm obligation))

module _ {K D : Type 0} ⦃p : PublicKeys K⦄ ⦃w : Web3 K⦄ (m : KaminoMarket K D) (user : K) where
  -- The obligation of the pair and the user states of its farms are among the keys, if the market has
  -- both reserves.
  abbrev pub HasPosition : (K → K → ObligationType K) → List K → List K → MintPair K → Type 0
  HasPosition type_of obligations farms pair =
      let pda = obligation_pda_with_args m.address user (type_of pair.coll pair.debt) in
      (coll debt : KaminoReserve K D)
      → get_reserve_by_mint m pair.coll ≡ some coll
      → get_reserve_by_mint m pair.debt ≡ some debt
      → Has obligations pda
        × (p.equals coll.farm_collateral p.default ≡ false
            → Has farms (farm_user_state_pda coll.farm_collateral pda))
        × (p.equals debt.farm_debt p.default ≡ false
            → Has farms (farm_user_state_pda debt.farm_debt pda))

  module _ (type_of : K → K → ObligationType K) where
    pair-HasPosition :
        (pair : MintPair K)
        → HasPosition type_of
            (pair_obligation type_of m user pair)
            (pair_farm_states type_of m user pair)
            pair
    unfolding pair_obligation pair_farm_states
    pair-HasPosition pair coll debt c d =
        let pda = obligation_pda_with_args m.address user (type_of pair.coll pair.debt) in
        let coll_states = farm_state coll.farm_collateral pda in
        let debt_states = farm_state debt.farm_debt pda in
        let states : farm_states_if_known (get_reserve_by_mint m pair.coll)
              (get_reserve_by_mint m pair.debt) pda
            ≡ coll_states ++ debt_states =
          λ i. farm_states_if_known (c i) (d i) pda in
        (
          subst (λ ks. Has ks pda) (sym (λ i. obligation_if_known (c i) (d i) pda)) (Has_one pda),
          λ e.
              subst (λ ks. Has ks (farm_user_state_pda coll.farm_collateral pda)) (sym states)
                (Has_first coll_states debt_states _ (farm_state-Has coll.farm_collateral pda e)),
          λ e.
              subst (λ ks. Has ks (farm_user_state_pda debt.farm_debt pda)) (sym states)
                (Has_second coll_states debt_states _ (farm_state-Has debt.farm_debt pda e)),
        )

    widen-HasPosition :
        (pair : MintPair K) (os fs os' fs' : List K)
        → ((k : K) → Has os k → Has os' k)
        → ((k : K) → Has fs k → Has fs' k)
        → HasPosition type_of os fs pair
        → HasPosition type_of os' fs' pair
    widen-HasPosition pair os fs os' fs' wider_o wider_f h coll debt c d =
        let (o, cf, df) = h coll debt c d in
        (wider_o _ o, λ e. wider_f _ (cf e), λ e. wider_f _ (df e))

    pair_addresses-HasPosition :
        (pairs : List (MintPair K))
        → All
            (HasPosition type_of
              (pair_addresses type_of m user pairs).0
              (pair_addresses type_of m user pairs).1)
            pairs
    unfolding pair_addresses
    pair_addresses-HasPosition [] = tt
    pair_addresses-HasPosition (pair ∷ pairs) =
        let own_o = pair_obligation type_of m user pair in
        let own_f = pair_farm_states type_of m user pair in
        let rest = pair_addresses type_of m user pairs in
        (
          widen-HasPosition pair own_o own_f (own_o ++ rest.0) (own_f ++ rest.1)
              (λ k h. Has_first own_o rest.0 k h) (λ k h. Has_first own_f rest.1 k h)
              (pair-HasPosition pair),
          All-map pairs
              (λ q h.
                widen-HasPosition q rest.0 rest.1 (own_o ++ rest.0) (own_f ++ rest.1)
                  (λ k h. Has_second own_o rest.0 k h) (λ k h. Has_second own_f rest.1 k h) h)
              (pair_addresses-HasPosition pairs),
        )

-- What the keys of a lookup table hold for a user.
pub record Covers {K D : Type 0} ⦃p : PublicKeys K⦄ ⦃w : Web3 K⦄ (m : KaminoMarket K D) (user : K)
    (multiply leverage : List (MintPair K)) (repaid : Option (RepaidObligation K)) (keys : List K)
    : Type 0 where
  pub has_user : Has keys user
  pub has_metadata : Has keys (user_metadata_pda user m.program_id)
  pub has_atas :
      (mint : K)
      → Has (pair_mints multiply ++ (pair_mints leverage ++ repaid_mints repaid)) mint
      → Has keys (get_associated_token_address mint user w.token_program_id)
  pub has_multiply :
      All
        (HasPosition m user
          (λ coll debt. multiply_obligation coll w.wrapped_sol_mint m.program_id)
          keys
          keys)
        multiply
  pub has_leverage :
      All
        (HasPosition m user (λ coll debt. leverage_obligation coll debt m.program_id) keys keys)
        leverage
  pub has_repaid : (o : RepaidObligation K) → repaid ≡ some o → Has keys o.obligation_address

module _ {K : Type 0} ⦃p : PublicKeys K⦄ (u v : K) (a b f r : List K) where
  Has_deep : (t : List K) (k : K) → Has t k → Has (u ∷ v ∷ (a ++ (b ++ (f ++ (r ++ t))))) k
  Has_deep t k h = Has_second (u ∷ v ∷ []) (a ++ (b ++ (f ++ (r ++ t)))) k (
      Has_second a (b ++ (f ++ (r ++ t))) k
        (Has_second b (f ++ (r ++ t)) k (Has_second f (r ++ t) k (Has_second r t k h))))

module _ {K D : Type 0} ⦃p : PublicKeys K⦄ ⦃w : Web3 K⦄ (m : KaminoMarket K D)
    (user referrer : K) where
  repaid-Has :
      (repaid : Option (RepaidObligation K)) (keys : List K) (o : RepaidObligation K)
      → repay_with_coll_addresses m repaid ≡ ok keys
      → repaid ≡ some o
      → Has keys o.obligation_address
  unfolding repay_with_coll_addresses
  repaid-Has none keys o h e = cc
  repaid-Has (some x) keys o h e =
      let (debts, hd, h1) =
        >>=-eq-ok
          (farm_states_of (λ (r : KaminoReserve K D). r.farm_debt) m x.obligation_address
            x.borrow_mints)
          _ h in
      let (colls, hc, h2) =
        >>=-eq-ok
          (farm_states_of (λ (r : KaminoReserve K D). r.farm_collateral) m x.obligation_address
            x.deposit_mints)
          _ h1 in
      let same : x ≡ o = cc e in
      subst (λ ks. Has ks o.obligation_address) (ok-injective _ _ h2)
        (Has_second (debts ++ colls) (x.obligation_address ∷ []) o.obligation_address (
          subst (λ (y : RepaidObligation K). Has (x.obligation_address ∷ []) y.obligation_address)
            same (Has_one x.obligation_address)))

  -- If the addresses for a user's lookup table are computed, they have the user, the metadata account,
  -- the token account of each mint of the pairs and of the repaid obligation, that obligation, and,
  -- for each pair whose two reserves the market has, the obligation of the pair with the user states
  -- of the collateral reserve's collateral farm and of the debt reserve's debt farm, where there are
  -- such farms; the obligation of a multiply pair is that of its collateral with wrapped SOL.
  pub get_user_lookup_table_addresses-Covers :
      (multiply leverage : List (MintPair K)) (repaid : Option (RepaidObligation K)) (keys : List K)
      → get_user_lookup_table_addresses m user referrer multiply leverage repaid ≡ ok keys
      → Covers m user multiply leverage repaid keys
  unfolding get_user_lookup_table_addresses multiply_addresses leverage_addresses
  get_user_lookup_table_addresses-Covers multiply leverage repaid keys h =
      let all_mints = pair_mints multiply ++ (pair_mints leverage ++ repaid_mints repaid) in
      let mints = Set.to_array (Set.of_items all_mints) in
      let reserves = known_reserves m mints in
      let (repay, hr, done) = >>=-eq-ok (repay_with_coll_addresses m repaid) _ h in
      let multi = multiply_addresses m user multiply in
      let lever = leverage_addresses m user leverage in
      let meta : K = user_metadata_pda user m.program_id in
      let ata = λ (mint : K). get_associated_token_address mint user w.token_program_id in
      let atas = map ata mints in
      let ctokens =
        map
          (λ (r : KaminoReserve K D).
            get_associated_token_address r.c_token_mint user w.token_program_id)
          reserves in
      let farms = farms_of reserves in
      let states = referrer_states m referrer reserves in
      let rest4 = lever.1 ++ repay in
      let rest3 = lever.0 ++ rest4 in
      let rest2 = multi.1 ++ rest3 in
      let rest1 = multi.0 ++ rest2 in
      let tail = ctokens ++ (farms ++ (states ++ rest1)) in
      let later = atas ++ tail in
      let all : List K = user ∷ meta ∷ later in
      let deep = Has_deep user meta atas ctokens farms states in
      subst (Covers m user multiply leverage repaid) (ok-injective _ _ done) (record {
        has_user = Has_first (user ∷ []) (meta ∷ later) user (Has_one user);
        has_metadata =
            Has_second (user ∷ []) (meta ∷ later) meta
              (Has_first (meta ∷ []) later meta (Has_one meta));
        has_atas = λ mint e. Has_second (user ∷ meta ∷ []) later (ata mint) (
            Has_first atas tail (ata mint)
              (Has-map ata mints mint ((to_array-of_items all_mints).0 mint ∙ e)));
        has_multiply =
            All-map multiply
              (λ q g.
                widen-HasPosition m user
                  (λ coll debt. multiply_obligation coll w.wrapped_sol_mint m.program_id) q multi.0
                  multi.1 all all (λ k x. deep rest1 k (Has_first multi.0 rest2 k x))
                  (λ k x. deep rest1 k (Has_second multi.0 rest2 k (Has_first multi.1 rest3 k x)))
                  g)
              (pair_addresses-HasPosition m user
                (λ coll debt. multiply_obligation coll w.wrapped_sol_mint m.program_id) multiply);
        has_leverage =
            All-map leverage
              (λ q g.
                widen-HasPosition m user (λ coll debt. leverage_obligation coll debt m.program_id) q
                  lever.0 lever.1 all all
                  (λ k x. deep rest1 k (
                    Has_second multi.0 rest2 k
                      (Has_second multi.1 rest3 k (Has_first lever.0 rest4 k x))))
                  (λ k x. deep rest1 k (
                    Has_second multi.0 rest2 k (
                      Has_second multi.1 rest3 k
                        (Has_second lever.0 rest4 k (Has_first lever.1 repay k x)))))
                  g)
              (pair_addresses-HasPosition m user
                (λ coll debt. leverage_obligation coll debt m.program_id) leverage);
        has_repaid = λ o e. deep rest1 o.obligation_address (
            Has_second multi.0 rest2 o.obligation_address (
              Has_second multi.1 rest3 o.obligation_address (
                Has_second lever.0 rest4 o.obligation_address (
                  Has_second lever.1 repay o.obligation_address
                    (repaid-Has repaid repay o hr e)))));
      })
