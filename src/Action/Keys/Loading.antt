-- ===== src/Action/Keys/Loading.antt =====
-- The deposit reserves of an action after `getAdditionalDepositReservesList` of src/classes/action.ts.
use klend_sdk.Prelude.{List, [], ◌∷◌, ◌++◌, true, ◌≡◌, refl, ap, arith, if◌then◌else◌}
use klend_sdk.Pubkey.Keys.{
  PublicKeys, includes, includes-append, Distinct, Distinct-snoc, equals_refl,
}
use klend_sdk.Action.State.{KaminoAction}
use klend_sdk.Action.Keys.{load_all, get_additional_deposit_reserves_list}

module _ {K : Type 0} ⦃p : PublicKeys K⦄ where
  includes-load_all :
      (rs ps : List K) (k : K)
      → includes (load_all rs ps) k ≡ (if includes rs k then true else includes ps k)
  unfolding load_all
  includes-load_all rs [] k = ground arith
  includes-load_all rs (x ∷ ps) k = ground (
    arith,
    includes-load_all rs ps k,
    includes-load_all (rs ++ x ∷ []) ps k,
    includes-append rs (x ∷ []) k,
    p.equals_iff x k,
  )

  load_all-Distinct : (rs ps : List K) → Distinct rs → Distinct (load_all rs ps)
  unfolding load_all
  load_all-Distinct rs [] d = d
  load_all-Distinct rs (x ∷ ps) d =
      ground (
        arith,
        load_all-Distinct rs ps d,
        Distinct-snoc rs x d,
        load_all-Distinct (rs ++ x ∷ []) ps,
      )

  -- Keys that are all there already change nothing.
  load_all-included :
      (rs ps : List K)
      → ((k : K) → includes ps k ≡ true → includes rs k ≡ true)
      → load_all rs ps ≡ rs
  unfolding load_all
  load_all-included rs [] h = refl
  load_all-included rs (x ∷ ps) h =
      ground (arith, load_all-included rs ps (λ k e. h k (widen k e)), h x, equals_refl x)
    where
      widen : (k : K) → includes ps k ≡ true → includes (x ∷ ps) k ≡ true
      widen k e = ground arith

module _ {K D : Type 0} ⦃p : PublicKeys K⦄ where
  -- `getAdditionalDepositReservesList` leaves in the deposit reserves those of before and the
  -- preloaded ones and no other, keeps them distinct if they were, and changes nothing when it is
  -- called again.
  pub get_additional_deposit_reserves_list-lem :
      (a : KaminoAction K D)
      → ((k : K)
          → includes (get_additional_deposit_reserves_list a).deposit_reserves k ≡ (
              if includes a.deposit_reserves k
              then true
              else includes a.pre_loaded_deposit_reserves_same_tx k))
        × (Distinct a.deposit_reserves
            → Distinct (get_additional_deposit_reserves_list a).deposit_reserves)
        × (get_additional_deposit_reserves_list (get_additional_deposit_reserves_list a)
            ≡ get_additional_deposit_reserves_list a)
  unfolding get_additional_deposit_reserves_list
  get_additional_deposit_reserves_list-lem a = (
    includes-load_all a.deposit_reserves a.pre_loaded_deposit_reserves_same_tx,
    load_all-Distinct a.deposit_reserves a.pre_loaded_deposit_reserves_same_tx,
    ap (λ rs. record a { deposit_reserves = rs })
        (load_all-included (load_all a.deposit_reserves a.pre_loaded_deposit_reserves_same_tx)
          a.pre_loaded_deposit_reserves_same_tx
          λ k e.
            ground (
              arith,
              includes-load_all a.deposit_reserves a.pre_loaded_deposit_reserves_same_tx k,
            )),
  )
