-- ===== src/Action/Elevation/Choice.antt =====
-- What `choose_elevation_group` returns: the elevation group logic of src/classes/action.ts.
use klend_sdk.Prelude.{
  ℕ, ◌≤◌, List, [], ◌∷◌, Bool, true, false, Option, none, some, ◌≡◌, refl, ◌∙◌, arith,
  if◌then◌else◌, inl, inr, find, ltb, ◌==◌, ==_eq, ==_refl, sym, ltb→lt, ltb→ge,
}
use mathlib.Core.Path.{subst}
use klend_sdk.Prelude.Outcome.{ok, >>=-eq-ok, ok-injective}
use klend_sdk.Pubkey.Keys.{PublicKeys, numbered_keys}
use klend_sdk.Action.Data.{ElevationGroup}
use klend_sdk.Action.Elevation.{
  is_common, common_elevation_groups, group_by_id, max_ltv_group, new_group, best_new_group,
  choose_elevation_group,
}
use klend_sdk.Action.Elevation.Common.{
  In, first-In, later-In, read-lem, In-cases, widen-In, some-injective, absurd-In, Lends,
  common-lem, common_complete,
}

module _ {K : Type 0} ⦃p : PublicKeys K⦄ where
  -- The group's ratio is at least that of each of the groups `ids`.
  abbrev pub Tops : List (ElevationGroup K) → List ℕ → ElevationGroup K → Type 0
  Tops groups ids best =
      (i : ℕ)
      → In ids i
      → (g : ElevationGroup K) → find (λ g. g.id == i) groups ≡ some g
      → g.ltv_pct ≤ best.ltv_pct

  same-group :
      (groups : List (ElevationGroup K)) (i j : ℕ) (x y : ElevationGroup K)
      → i ≡ j
      → find (λ g. g.id == i) groups ≡ some x
      → find (λ g. g.id == j) groups ≡ some y
      → x ≡ y
  same-group groups i j x y same fx fy =
      some-injective (sym (subst (λ k. find (λ g. g.id == k) groups ≡ some x) same fx) ∙ fy)

  -- Of two groups, the one that the fold goes on with has the other's ratio at least.
  step-Tops :
      (groups : List (ElevationGroup K)) (prev curr : ℕ) (rest : List ℕ)
      (pg cg g : ElevationGroup K) (c : Bool)
      → find (λ g. g.id == prev) groups ≡ some pg
      → find (λ g. g.id == curr) groups ≡ some cg
      → ltb cg.ltv_pct pg.ltv_pct ≡ c
      → Tops groups ((if c then prev else curr) ∷ rest) g
      → Tops groups (prev ∷ curr ∷ rest) g
  step-Tops groups prev curr rest pg cg g true fp fc e t i h x fx =
      elim (In-cases prev (curr ∷ rest) i h) [
        | inl here ↦
            subst (λ y. y.ltv_pct ≤ g.ltv_pct) (same-group groups prev i pg x here fp fx)
              (t prev (first-In prev rest) pg fp)
        | inr there ↦ elim (In-cases curr rest i there) [
          | inl next ↦
              subst (λ y. y.ltv_pct ≤ g.ltv_pct) (same-group groups curr i cg x next fc fx)
                (omega (arith, ltb→lt cg.ltv_pct pg.ltv_pct e, t prev (first-In prev rest) pg fp))
          | inr later ↦ t i (later-In prev rest i later) x fx
        ]
      ]
  step-Tops groups prev curr rest pg cg g false fp fc e t i h x fx =
      elim (In-cases prev (curr ∷ rest) i h) [
        | inl here ↦
            subst (λ y. y.ltv_pct ≤ g.ltv_pct) (same-group groups prev i pg x here fp fx)
              (omega (arith, ltb→ge cg.ltv_pct pg.ltv_pct e, t curr (first-In curr rest) cg fc))
        | inr there ↦ t i there x fx
      ]

  max_ltv_group-lem :
      (groups : List (ElevationGroup K)) (prev : ℕ) (ids : List ℕ) (best : ℕ) (g : ElevationGroup K)
      → max_ltv_group groups prev ids ≡ ok best
      → find (λ g. g.id == best) groups ≡ some g
      → In (prev ∷ ids) best × Tops groups (prev ∷ ids) g
  unfolding max_ltv_group
  max_ltv_group-lem groups prev [] best g h f =
      let same = ok-injective prev best h in
      (
        ground (arith, ==_refl prev),
        λ i e x fx. elim (In-cases prev [] i e) [
          | inl here ↦
              subst (λ y. y.ltv_pct ≤ g.ltv_pct)
                (same-group groups best i g x (sym same ∙ here) f fx) (omega arith)
          | inr there ↦ absurd-In i there (x.ltv_pct ≤ g.ltv_pct)
        ],
      )
  max_ltv_group-lem groups prev (curr ∷ rest) best g h f =
      let (pg, hp, h1) = >>=-eq-ok (group_by_id groups prev) _ h in
      let (cg, hc, h2) = >>=-eq-ok (group_by_id groups curr) _ h1 in
      let (a, t) =
        max_ltv_group-lem groups (if ltb cg.ltv_pct pg.ltv_pct then prev else curr) rest best g h2
          f in
      (
        widen-In (ltb cg.ltv_pct pg.ltv_pct) prev curr rest best a,
        step-Tops groups prev curr rest pg cg g (ltb cg.ltv_pct pg.ltv_pct) (read-lem _ _ pg hp)
            (read-lem _ _ cg hc) refl t,
      )

  new_group-lem :
      (current : Option ℕ) (g : ElevationGroup K) (id : ℕ)
      → new_group current g ≡ some id
      → (g.id ≡ id) × ((now : ℕ) → current ≡ some now → (id == now) ≡ false)
  new_group-lem none g id h = (ground arith, λ now e. cc)
  new_group-lem (some now) g id h =
      (ground arith, λ then' e. subst (λ n. (id == n) ≡ false) (some-injective e) (ground arith))

  find-id :
      (groups : List (ElevationGroup K)) (i : ℕ) (g : ElevationGroup K)
      → find (λ g. g.id == i) groups ≡ some g
      → g.id ≡ i
  find-id [] i g h = cc
  find-id (x ∷ groups) i g h =
      ground (arith, find-id groups i g, ==_eq x.id i, some-injective {x = x} {y = g})

  best_new_group-lem :
      (groups : List (ElevationGroup K)) (current : Option ℕ) (common : List ℕ) (id : ℕ)
      → best_new_group groups current common ≡ ok (some id)
      → (g : ElevationGroup K) × (find (λ g. g.id == id) groups ≡ some g)
        × In common id
        × Tops groups common g
        × ((now : ℕ) → current ≡ some now → (id == now) ≡ false)
  unfolding best_new_group
  best_new_group-lem groups current [] id h = cc
  best_new_group-lem groups current (first ∷ rest) id h =
      let (best, hb, h1) = >>=-eq-ok (max_ltv_group groups first rest) _ h in
      let (g, hg, h2) = >>=-eq-ok (group_by_id groups best) _ h1 in
      let fg = read-lem _ _ g hg in
      let (a, t) = max_ltv_group-lem groups first rest best g hb fg in
      let (same, differs) = new_group-lem current g id (ok-injective _ _ h2) in
      let is_id = sym (find-id groups best g fg) ∙ same in
      (
        g,
        subst (λ i. find (λ g. g.id == i) groups ≡ some g) is_id fg,
        subst (In (first ∷ rest)) is_id a,
        t,
        differs,
      )

  -- The group is the one of number `id`: both reserves name it, it lends the debt reserve, it is not the
  -- group of the obligation now, and no group that qualifies has a higher ratio.
  pub record IsBestCommon (groups : List (ElevationGroup K)) (gc gd : List ℕ) (k : K)
      (current : Option ℕ) (id : ℕ) : Type 0 where
    pub named : In gc id
    pub lends : Lends groups gd k id
    pub changes : (now : ℕ) → current ≡ some now → (id == now) ≡ false
    pub best :
        (g : ElevationGroup K) × (find (λ g. g.id == id) groups ≡ some g)
        × ((i : ℕ) (x : ElevationGroup K)
            → is_common groups gd k i ≡ ok true
            → In gc i
            → find (λ g. g.id == i) groups ≡ some x
            → x.ltv_pct ≤ g.ltv_pct)

  -- If the choice of an elevation group returns a group, the collateral reserve and the debt reserve
  -- both name it, it is not 0, the entry of the market at its number lends the debt reserve, it is not
  -- the group of the obligation now, and no group that qualifies has a higher loan-to-value ratio.
  pub choose_elevation_group-lem :
      (groups : List (ElevationGroup K)) (gc gd : List ℕ) (k : K) (current : Option ℕ) (id : ℕ)
      → choose_elevation_group groups gc gd k current ≡ ok (some id)
      → IsBestCommon groups gc gd k current id
  unfolding choose_elevation_group
  choose_elevation_group-lem groups gc gd k current id h =
      let (common, hc, h1) = >>=-eq-ok (common_elevation_groups groups gc gd k) _ h in
      let (g, f, i, t, differs) = best_new_group-lem groups current common id h1 in
      let (a, b) = common-lem groups gc gd k common hc id i in
      record {
        named = a;
        lends = b;
        changes = differs;
        best = (g, f, λ i x y e fx. t i (common_complete groups gc gd k common hc i e y) x fx);
      }
