-- ===== src/Action/Support/Coverage.antt =====
-- The reserves that the support instructions of src/classes/action.ts refresh.
use klend_sdk.Prelude.{
  List, ◌++◌, Bool, true, false, not, filter, ◌≡◌, ◌∙◌, sym, arith, if◌then◌else◌,
}
use mathlib.Core.Path.{subst}
use klend_sdk.Prelude.Outcome.{ok}
use klend_sdk.Pubkey.Set
use klend_sdk.Pubkey.Set.{to_array-of_items}
use klend_sdk.Pubkey.Keys.{PublicKeys, includes, includes-append, includes-filter}
use klend_sdk.Action.Interfaces.{Web3, Decimals}
use klend_sdk.Action.Data.{AuxiliaryIx, ActionType}
use klend_sdk.Action.State.{KaminoAction}
use klend_sdk.Action.Refresh.Reserves.{refreshed_in}
use klend_sdk.Action.Positions.{reserves_excluding}
use klend_sdk.Action.Support.{refresh_positions}
use klend_sdk.Action.Support.Order.{refreshed_in-refresh_positions}

kept-excluded :
    (c d : Bool) (x y : Bool)
    → c ≡ d
    → x ≡ y
    → (if not c then x else false) ≡ (if d then false else y)
kept-excluded c d x y h g = ground arith

module _ {K : Type 0} ⦃p : PublicKeys K⦄ where
  contains-of_items : (ks : List K) (k : K) → Set.contains (Set.of_items ks) k ≡ includes ks k
  unfolding Set.contains Set.to_array
  contains-of_items ks k = (to_array-of_items ks).0 k

  includes-excluded :
      (current all : List K) (k : K)
      → includes
          (filter
            (λ x. not (Set.contains (Set.of_items current) x))
            (Set.to_array (Set.of_items all)))
          k
        ≡ (if includes current k then false else includes all k)
  includes-excluded current all k =
      includes-filter (λ x. not (Set.contains (Set.of_items current) x))
        (Set.to_array (Set.of_items all)) k
      ∙ kept-excluded _ _ _ _ (contains-of_items current k) ((to_array-of_items all).0 k)

  covered :
      (r xs ys cs c all : List K) (k : K)
      → r ≡ xs ++ (ys ++ cs)
      → includes ys k ≡ (if includes c k then false else includes all k)
      → includes cs k ≡ includes c k
      → includes (c ++ all) k ≡ true
      → includes r k ≡ true
  covered r xs ys cs c all k e hy hc h =
      subst (λ l. includes l k ≡ true) (sym e)
        (ground (
          arith,
          includes-append xs (ys ++ cs) k,
          includes-append ys cs k,
          includes-append c all k,
        ))

module _ {K D : Type 0} ⦃p : PublicKeys K⦄ ⦃w : Web3 K⦄ ⦃d : Decimals D⦄ where
  -- If the refresh of an obligation's positions returns, for the reserves of the action and the
  -- reserves of the positions less those, then the instructions of the phase refresh every reserve
  -- that the action touches, that the obligation has a deposit in, or that it has a borrow in.
  pub refresh_positions-covers :
      (action : ActionType) (phase : AuxiliaryIx) (init_farms skip : Bool) (current : List K)
      (a b : KaminoAction K D)
      → refresh_positions action phase init_farms skip
          (reserves_excluding current a)
          (Set.to_array (Set.of_items current))
          a
        ≡ ok b
      → (k : K) → includes (current ++ (a.deposit_reserves ++ a.borrow_reserves)) k ≡ true
      → includes (refreshed_in phase b) k ≡ true
  unfolding reserves_excluding
  refresh_positions-covers action phase init_farms skip current a b h k =
      covered (refreshed_in phase b) (refreshed_in phase a) (reserves_excluding current a)
        (Set.to_array (Set.of_items current)) current (a.deposit_reserves ++ a.borrow_reserves) k
        (refreshed_in-refresh_positions action phase init_farms skip (reserves_excluding current a)
          (Set.to_array (Set.of_items current)) a b h)
        (includes-excluded current (a.deposit_reserves ++ a.borrow_reserves) k)
        ((to_array-of_items current).0 k)
