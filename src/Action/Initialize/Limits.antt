-- ===== src/Action/Initialize/Limits.antt =====
-- The limit on the positions of an obligation: `loadObligation` of src/classes/action.ts.
use klend_sdk.Prelude.{
  ◌≤◌, ◌<◌, ◌+◌, ◌++◌, List, [], ◌∷◌, Bool, true, false, Option, none, some, ◌≡◌, refl, sym, ◌∙◌,
  arith, if◌then◌else◌, ltb, length,
}
use klend_sdk.Prelude.Outcome.{ok, error}
use klend_sdk.Pubkey.Keys.{PublicKeys, includes, includes-append, Distinct}
use klend_sdk.Pubkey.Set
use klend_sdk.Pubkey.Counting.{length_unique}
use klend_sdk.Pubkey.HashMap
use klend_sdk.Action.Interfaces.{Web3}
use klend_sdk.Action.Data.{
  KaminoMarket, KaminoObligation, ActionType, deposit, borrow, deposit_and_borrow,
}
use klend_sdk.Action.Initialize.{
  found_obligation, loaded_obligation, lacks_outflow, load_obligation, ObligationArg, distinct,
  new_borrows, new_deposits,
}

-- A deposit with a borrow has an outflow reserve.
abbrev pub HasOutflow : {K : Type 0} → ActionType → Option K → Type 0
HasOutflow deposit_and_borrow none = ⊥
HasOutflow _ _ = Unit

lacks_outflow_lem :
    {K : Type 0} (action : ActionType) (outflow : Option K)
    → HasOutflow action outflow
    → lacks_outflow action outflow ≡ false
lacks_outflow_lem deposit_and_borrow none h = absurd h
lacks_outflow_lem deposit_and_borrow (some out) h = refl
lacks_outflow_lem _ outflow h = refl

module _ {K : Type 0} ⦃p : PublicKeys K⦄ where
  -- The list has the keys of the test, each once.
  abbrev pub IsListOf : List K → (K → Bool) → Type 0
  IsListOf ks test = Distinct ks × ((k : K) → includes ks k ≡ test k)

  distinct-IsListOf :
      (items ks : List K) (test : K → Bool)
      → IsListOf ks test
      → ((k : K) → includes items k ≡ test k)
      → distinct items ≡ length ks
  distinct-IsListOf items ks test (once, holds) same =
      let (members, each, short) = Set.to_array-of_items items in
      length_unique (Set.to_array (Set.of_items items)) ks each once
        (λ k. members k ∙ (same k ∙ sym (holds k)))

module _ {K D : Type 0} ⦃p : PublicKeys K⦄ where
  -- The keys of the positions of the obligation, if there is one.
  abbrev pub borrow_keys : Option (KaminoObligation K D) → List K
  borrow_keys none = []
  borrow_keys (some o) = HashMap.keys o.borrows

  abbrev pub deposit_keys : Option (KaminoObligation K D) → List K
  deposit_keys none = []
  deposit_keys (some o) = HashMap.keys o.deposits

  -- Both actions count the given reserve as a borrow.
  abbrev pub is_counted_borrow : ActionType → K → Option (KaminoObligation K D) → K → Bool
  is_counted_borrow borrow reserve o k =
      if includes (borrow_keys o) k then true else p.equals reserve k
  is_counted_borrow deposit_and_borrow reserve o k =
      if includes (borrow_keys o) k then true else p.equals reserve k
  is_counted_borrow _ reserve o k = includes (borrow_keys o) k

  -- A deposit counts the given reserve, a deposit with a borrow the outflow reserve.
  abbrev pub is_counted_deposit :
      ActionType → K → Option K → Option (KaminoObligation K D) → K → Bool
  is_counted_deposit deposit reserve outflow o k =
      if includes (deposit_keys o) k then true else p.equals reserve k
  is_counted_deposit deposit_and_borrow reserve (some out) o k =
      if includes (deposit_keys o) k then true else p.equals out k
  is_counted_deposit _ reserve outflow o k = includes (deposit_keys o) k

  includes-new_borrows :
      (action : ActionType) (reserve : K) (o : Option (KaminoObligation K D)) (k : K)
      → includes (borrow_keys o ++ new_borrows action reserve) k
        ≡ is_counted_borrow action reserve o k
  includes-new_borrows borrow reserve o k =
      ground (arith, includes-append (borrow_keys o) (reserve ∷ []) k)
  includes-new_borrows deposit_and_borrow reserve o k =
      ground (arith, includes-append (borrow_keys o) (reserve ∷ []) k)
  includes-new_borrows _ reserve o k = ground (arith, includes-append (borrow_keys o) [] k)

  includes-new_deposits :
      (action : ActionType) (reserve : K) (outflow : Option K) (o : Option (KaminoObligation K D))
      (k : K)
      → includes (deposit_keys o ++ new_deposits action reserve outflow) k
        ≡ is_counted_deposit action reserve outflow o k
  includes-new_deposits deposit reserve outflow o k =
      ground (arith, includes-append (deposit_keys o) (reserve ∷ []) k)
  includes-new_deposits deposit_and_borrow reserve (some out) o k =
      ground (arith, includes-append (deposit_keys o) (out ∷ []) k)
  includes-new_deposits _ reserve outflow o k =
      ground (arith, includes-append (deposit_keys o) [] k)

module _ {K D : Type 0} ⦃p : PublicKeys K⦄ ⦃w : Web3 K⦄ where
  -- Given a list of the reserves that count as borrows, each once, and a list of those that count as
  -- deposits, `loadObligation` returns the positions of the obligation and the number of items of both
  -- lists if they are 10 or fewer, and throws if they are more. The borrows are those of the
  -- obligation with the given reserve for a borrow and for a deposit with a borrow; the deposits are
  -- those of the obligation with the given reserve for a deposit and with the outflow reserve, which
  -- is given, for a deposit with a borrow.
  pub load_obligation_lem :
      (load : K → Option (KaminoObligation K D)) (action : ActionType) (m : KaminoMarket K D)
      (owner reserve : K) (arg : ObligationArg K D) (outflow : Option K) (borrows deposits : List K)
      → HasOutflow action outflow
      → IsListOf borrows (is_counted_borrow action reserve (found_obligation load m owner arg))
      → IsListOf deposits
          (is_counted_deposit action reserve outflow (found_obligation load m owner arg))
      → (length borrows + length deposits ≤ 10
          → load_obligation load action m owner reserve arg outflow
            ≡ ok (record {
              kamino_obligation = found_obligation load m owner arg;
              deposit_reserves = deposit_keys (found_obligation load m owner arg);
              borrow_reserves = borrow_keys (found_obligation load m owner arg);
              distinct_reserve_count = length borrows + length deposits;
            }))
        × (10 < length borrows + length deposits
            → load_obligation load action m owner reserve arg outflow
              ≡ error "Obligation already has max number of positions")
  unfolding load_obligation loaded_obligation
  load_obligation_lem load action m owner reserve arg outflow borrows deposits has bs ds =
      let o = found_obligation load m owner arg in
      let nb =
        distinct-IsListOf (borrow_keys o ++ new_borrows action reserve) borrows _ bs
          (includes-new_borrows action reserve o) in
      let nd =
        distinct-IsListOf (deposit_keys o ++ new_deposits action reserve outflow) deposits _ ds
          (includes-new_deposits action reserve outflow o) in
      let some_outflow = lacks_outflow_lem action outflow has in
      (
        λ h.
            let within : ltb 10 (length borrows + length deposits) ≡ false = ground arith in
            rw (some_outflow, nb, nd, within) refl,
        λ h.
            let over : ltb 10 (length borrows + length deposits) ≡ true = ground arith in
            rw (some_outflow, nb, nd, over) refl,
      )
