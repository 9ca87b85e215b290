-- ===== src/Market/Groups/Joining.antt =====
-- What joining reserves to the descriptions of groups adds to each description, in
-- `getMarketElevationGroupDescriptions` of src/classes/market.ts.
use klend_sdk.Prelude.{
  length-map, map-map, map_self, map_ext, ℕ, zero, suc, ◌+◌, ◌-◌, ◌≤◌, ◌<◌, ◌≡◌, refl, ap, sym, ◌∙◌,
  List, [], ◌∷◌, ◌++◌, append-nil, append_assoc, true, false, Option, none, some, if◌then◌else◌,
  ◌==◌, map, length, All, Bool-cases, inl, inr, arith,
}
use klend_sdk.Prelude.Outcome.{ok}
use klend_sdk.Pubkey.Keys.{PublicKeys}
use klend_sdk.Reserve.Rates.{last}
use klend_sdk.Action.Data.{KaminoReserve}
use klend_sdk.Market.Groups.{ElevationGroupDescription, joined, join_at, join_groups, join_reserves}

abbrev pub IsNumbered : {K : Type 0} → ℕ → List (ElevationGroupDescription K) → Type 0
IsNumbered n [] = Unit
IsNumbered n (d ∷ ds) = (d.elevation_group ≡ n) × IsNumbered (suc n) ds

-- The first value, unless there is a later one.
abbrev pub or_later : {A : Type 0} → Option A → Option A → Option A
or_later first none = first
or_later first (some x) = some x

or_later-fixed :
    {A : Type 0} (y : A) (ys : List A) (a b : Option A)
    → or_later a (last (y ∷ ys)) ≡ or_later b (last (y ∷ ys))
or_later-fixed y [] a b = refl
or_later-fixed y (z ∷ ys) a b = or_later-fixed z ys a b

or_later-last :
    {A : Type 0} (x : A) (o : Option A) (ys : List A)
    → or_later (some x) (last ys) ≡ or_later o (last (x ∷ ys))
or_later-last x o [] = refl
or_later-last x o (y ∷ ys) = or_later-fixed y ys (some x) o

module _ {K D : Type 0} ⦃p : PublicKeys K⦄ where
  -- The reserves of a list with the groups in which each of them is.
  abbrev pub with_groups : KaminoReserve K D → List ℕ → List (KaminoReserve K D × ℕ)
  with_groups r [] = []
  with_groups r (id ∷ ids) =
      let rest = with_groups r ids in if id == 0 then rest else (r, id) ∷ rest

  abbrev pub memberships : List (KaminoReserve K D) → List (KaminoReserve K D × ℕ)
  memberships [] = []
  memberships (r ∷ rs) = with_groups r r.elevation_groups ++ memberships rs

  -- The reserves in a group but its debt reserve, and the debt reserve.
  abbrev pub collaterals : K → ℕ → List (KaminoReserve K D × ℕ) → List (KaminoReserve K D)
  collaterals debt id [] = []
  collaterals debt id ((r, i) ∷ ms) =
      let rest = collaterals debt id ms in
      if id == i then (if p.equals r.address debt then rest else r ∷ rest) else rest

  abbrev pub debts : K → ℕ → List (KaminoReserve K D × ℕ) → List (KaminoReserve K D)
  debts debt id [] = []
  debts debt id ((r, i) ∷ ms) =
      let rest = debts debt id ms in
      if id == i then (if p.equals r.address debt then r ∷ rest else rest) else rest

  unfoldable joined_for :
      KaminoReserve K D → ℕ → ElevationGroupDescription K → ElevationGroupDescription K
  unfolding joined
  joined_for r id d = if d.elevation_group == id then joined r d else d

  unfoldable pub joined_all :
      List (KaminoReserve K D × ℕ) → ElevationGroupDescription K → ElevationGroupDescription K
  unfolding joined_for
  joined_all [] d = d
  joined_all ((r, id) ∷ ms) d = joined_all ms (joined_for r id d)

  joined-group :
      (r : KaminoReserve K D) (d : ElevationGroupDescription K)
      → (joined r d).elevation_group ≡ d.elevation_group
  unfolding joined
  joined-group r d = elim (Bool-cases (p.equals r.address d.debt_reserve)) [
    | inl same ↦ rw same refl
    | inr other ↦ rw other refl
  ]

  joined_for-group :
      (r : KaminoReserve K D) (id : ℕ) (d : ElevationGroupDescription K)
      → (joined_for r id d).elevation_group ≡ d.elevation_group
  unfolding joined_for
  joined_for-group r id d = elim (Bool-cases (d.elevation_group == id)) [
    | inl same ↦ rw same (joined-group r d)
    | inr other ↦ rw other refl
  ]

  joined_for-IsNumbered :
      (r : KaminoReserve K D) (id n : ℕ) (ds : List (ElevationGroupDescription K))
      → IsNumbered n ds
      → IsNumbered n (map (joined_for r id) ds)
  joined_for-IsNumbered r id n [] h = tt
  joined_for-IsNumbered r id n (d ∷ ds) (h, more) =
      (joined_for-group r id d ∙ h, joined_for-IsNumbered r id (suc n) ds more)

  -- A group with a smaller number is not in the list.
  map-joined_for :
      (r : KaminoReserve K D) (id n : ℕ) (ds : List (ElevationGroupDescription K))
      → id < n
      → IsNumbered n ds
      → map (joined_for r id) ds ≡ ds
  unfolding joined_for
  map-joined_for r id n [] below h = refl
  map-joined_for r id n (d ∷ ds) below (h, more) =
      let other : (d.elevation_group == id) ≡ false = ground arith in
      rw (other, map-joined_for r id (suc n) ds (omega arith) more) refl

  join_at_lem :
      (r : KaminoReserve K D) (i n id : ℕ) (ds : List (ElevationGroupDescription K))
      → IsNumbered n ds
      → i < length ds
      → id ≡ n + i
      → join_at r i ds ≡ ok (map (joined_for r id) ds)
  unfolding join_at joined_for
  join_at_lem r i n id [] h within e = ground arith
  join_at_lem r zero n id (d ∷ ds) (h, more) within e =
      let same : (d.elevation_group == id) ≡ true = ground arith in
      rw (same, map-joined_for r id (suc n) ds (omega arith) more) refl
  join_at_lem r (suc i) n id (d ∷ ds) (h, more) within e =
      let other : (d.elevation_group == id) ≡ false = ground arith in
      rw (other, join_at_lem r i (suc n) id ds more (omega arith) (omega arith)) refl

module _ {K D : Type 0} ⦃p : PublicKeys K⦄ where
  join_groups_lem :
      (r : KaminoReserve K D) (ids : List ℕ) (ds : List (ElevationGroupDescription K))
      → IsNumbered 1 ds
      → All (λ id. id ≤ length ds) ids
      → join_groups r ids ds ≡ ok (map (joined_all (with_groups r ids)) ds)
  unfolding join_groups joined_all
  join_groups_lem r [] ds h within = ap ok (sym (map_self (joined_all {D = D} []) (λ d. refl) ds))
  join_groups_lem r (id ∷ ids) ds h (fits, within) = elim (Bool-cases (id == 0)) [
    | inl zeroth ↦ rw zeroth (join_groups_lem r ids ds h within)
    | inr real ↦
        let fits_before : id - 1 < length ds = ground arith in
        let step : join_at r (id - 1) ds ≡ ok (map (joined_for r id) ds) =
          join_at_lem r (id - 1) 1 id ds h fits_before (ground arith) in
        let same_length = length-map (joined_for r id) ds in
        let still : All (λ k. k ≤ length (map (joined_for r id) ds)) ids = rw same_length within in
        let later =
          join_groups_lem r ids (map (joined_for r id) ds) (joined_for-IsNumbered r id 1 ds h)
            still in
        rw (real, step)
          (later ∙ ap ok (map-map (joined_for r id) (joined_all (with_groups r ids)) ds))
  ]

  joined_all-IsNumbered :
      (ms : List (KaminoReserve K D × ℕ)) (n : ℕ) (ds : List (ElevationGroupDescription K))
      → IsNumbered n ds
      → IsNumbered n (map (joined_all ms) ds)
  unfolding joined_all
  joined_all-IsNumbered [] n ds h = rw (map_self (joined_all {D = D} []) (λ d. refl) ds) h
  joined_all-IsNumbered ((r, id) ∷ ms) n ds h =
      rw (sym (map-map (joined_for r id) (joined_all ms) ds))
        (joined_all-IsNumbered ms n (map (joined_for r id) ds) (joined_for-IsNumbered r id n ds h))

  joined_all-append :
      (ms ns : List (KaminoReserve K D × ℕ)) (d : ElevationGroupDescription K)
      → joined_all ns (joined_all ms d) ≡ joined_all (ms ++ ns) d
  unfolding joined_all
  joined_all-append [] ns d = refl
  joined_all-append ((r, id) ∷ ms) ns d = joined_all-append ms ns (joined_for r id d)

  -- No reserve has a group that the market lacks.
  abbrev pub AllWithin : ℕ → List (KaminoReserve K D) → Type 0
  AllWithin n rs = All (λ r. All (λ id. id ≤ n) r.elevation_groups) rs

  pub join_reserves_lem :
      (rs : List (KaminoReserve K D)) (ds : List (ElevationGroupDescription K))
      → IsNumbered 1 ds
      → AllWithin (length ds) rs
      → join_reserves rs ds ≡ ok (map (joined_all (memberships rs)) ds)
  unfolding join_reserves joined_all
  join_reserves_lem [] ds h within = ap ok (sym (map_self (joined_all {D = D} []) (λ d. refl) ds))
  join_reserves_lem (r ∷ rs) ds h (fits, within) =
      let ms = with_groups r r.elevation_groups in
      let still : AllWithin (length (map (joined_all ms) ds)) rs =
        rw (length-map (joined_all ms) ds) within in
      let later =
        join_reserves_lem rs (map (joined_all ms) ds) (joined_all-IsNumbered ms 1 ds h) still in
      let both = map-map (joined_all ms) (joined_all (memberships rs)) ds in
      let joint =
        map_ext (λ d. joined_all (memberships rs) (joined_all ms d))
          (joined_all (ms ++ memberships rs)) (joined_all-append ms (memberships rs)) ds in
      rw (join_groups_lem r r.elevation_groups ds h fits) (later ∙ ap ok (both ∙ joint))

  -- What joining adds to a description.
  pub joined_all_lem :
      (ms : List (KaminoReserve K D × ℕ)) (d : ElevationGroupDescription K)
      → joined_all ms d ≡ record d {
        collateral_reserves =
            d.collateral_reserves
            ++ map (λ r. r.address) (collaterals d.debt_reserve d.elevation_group ms);
        collateral_liquidity_mints =
            d.collateral_liquidity_mints
            ++ map (λ r. r.liquidity_mint) (collaterals d.debt_reserve d.elevation_group ms);
        debt_liquidity_mint =
            or_later d.debt_liquidity_mint
              (last (map (λ r. r.liquidity_mint) (debts d.debt_reserve d.elevation_group ms)));
      }
  unfolding joined_all joined_for joined
  joined_all_lem [] d =
      rw (append-nil d.collateral_reserves, append-nil d.collateral_liquidity_mints) refl
  joined_all_lem ((r, id) ∷ ms) d = elim (Bool-cases (d.elevation_group == id)) [
    | inl same ↦ elim (Bool-cases (p.equals r.address d.debt_reserve)) [
      | inl debt ↦
          let named = record d { debt_liquidity_mint = some r.liquidity_mint } in
          let mints = map (λ r. r.liquidity_mint) (debts d.debt_reserve d.elevation_group ms) in
          rw
            (
              same,
              debt,
              joined_all_lem ms named,
              or_later-last r.liquidity_mint d.debt_liquidity_mint mints,
            )
            refl
      | inr coll ↦
          let before = d.collateral_reserves in
          let mints = d.collateral_liquidity_mints in
          let found = collaterals d.debt_reserve d.elevation_group ms in
          let longer = record d {
            collateral_reserves = before ++ r.address ∷ [];
            collateral_liquidity_mints = mints ++ r.liquidity_mint ∷ [];
          } in
          rw
            (
              same,
              coll,
              joined_all_lem ms longer,
              append_assoc before (r.address ∷ []) (map (λ r. r.address) found),
              append_assoc mints (r.liquidity_mint ∷ []) (map (λ r. r.liquidity_mint) found),
            )
            refl
    ]
    | inr other ↦ rw other (joined_all_lem ms d)
  ]
