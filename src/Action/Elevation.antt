-- ===== src/Action/Elevation.antt =====
-- The choice of an elevation group in `addSupportIxsWithoutInitObligation` of src/classes/action.ts.
pub mod Common
pub mod Choice
use klend_sdk.Prelude.{
  ℕ, zero, suc, ◌-◌, List, [], ◌∷◌, Bool, true, false, Option, none, some, if◌then◌else◌, find, any,
  not, ltb, ◌==◌, get_elem?,
}
use klend_sdk.Prelude.Outcome.{Outcome, ok, error, ◌>>=◌, or_throw}
use klend_sdk.Pubkey.Keys.{PublicKeys}
use klend_sdk.Action.Data.{ElevationGroup}

module _ {K : Type 0} ⦃p : PublicKeys K⦄ where
  -- The test of the filter, for one group of the collateral: the debt reserve is in the group too,
  -- and is its debt reserve. A group that the market lacks throws.
  abbrev is_common : List (ElevationGroup K) → List ℕ → K → ℕ → Outcome Bool
  is_common groups groups_debt debt_reserve item =
      if any (λ x. x == item) groups_debt
      then if item == 0
        then ok false
        else (or_throw (get_elem? groups (item - 1)) "TypeError" >>= λ g.
            ok (p.equals g.debt_reserve debt_reserve))
      else ok false

  unfoldable pub common_elevation_groups :
      List (ElevationGroup K) → List ℕ → List ℕ → K → Outcome (List ℕ)
  common_elevation_groups groups [] groups_debt debt_reserve = ok []
  common_elevation_groups groups (item ∷ rest) groups_debt debt_reserve = do
    common ← is_common groups groups_debt debt_reserve item
    more ← common_elevation_groups groups rest groups_debt debt_reserve
    ok (if common then item ∷ more else more)

  -- `groups.find((group) => group.id === id)!`; an absent group throws when it is read.
  abbrev pub group_by_id : List (ElevationGroup K) → ℕ → Outcome (ElevationGroup K)
  group_by_id groups id = or_throw (find (λ g. g.id == id) groups) "TypeError"

  -- The fold of `reduce`: on equal ratios the later group is taken.
  unfoldable pub max_ltv_group : List (ElevationGroup K) → ℕ → List ℕ → Outcome ℕ
  max_ltv_group groups prev [] = ok prev
  max_ltv_group groups prev (curr ∷ rest) = do
    prev_group ← group_by_id groups prev
    curr_group ← group_by_id groups curr
    max_ltv_group groups (if ltb curr_group.ltv_pct prev_group.ltv_pct then prev else curr) rest

  -- The group's id, if it is neither 0 nor the current group. `none` is -1, and so is the current group of
  -- an action with no obligation.
  abbrev pub new_group : Option ℕ → ElevationGroup K → Option ℕ
  new_group none g = if g.id == 0 then none else some g.id
  new_group (some now) g = if g.id == 0 then none else if g.id == now then none else some g.id

  unfoldable pub best_new_group : List (ElevationGroup K) → Option ℕ → List ℕ → Outcome (Option ℕ)
  unfolding max_ltv_group
  best_new_group groups current [] = ok none
  best_new_group groups current (first ∷ rest) = do
    best ← max_ltv_group groups first rest
    g ← group_by_id groups best
    ok (new_group current g)

  -- The group to move to, if the reserves have one in common other than the current one.
  unfoldable pub choose_elevation_group :
      List (ElevationGroup K) → List ℕ → List ℕ → K → Option ℕ → Outcome (Option ℕ)
  unfolding common_elevation_groups best_new_group
  choose_elevation_group groups groups_coll groups_debt debt_reserve current = do
    common ← common_elevation_groups groups groups_coll groups_debt debt_reserve
    best_new_group groups current common
