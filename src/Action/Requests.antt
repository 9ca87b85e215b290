-- ===== src/Action/Requests.antt =====
-- The requests of an elevation group by `addSupportIxsWithoutInitObligation` of src/classes/action.ts.
use klend_sdk.Prelude.{
  ℕ, List, Bool, true, false, Option, none, some, if◌then◌else◌, find, not, ◌&&◌, ◌==◌,
}
use klend_sdk.Prelude.Outcome.{Outcome, ok, ◌>>=◌, or_throw}
use klend_sdk.Pubkey.HashMap
use klend_sdk.Pubkey.Keys.{PublicKeys}
use klend_sdk.Action.Interfaces.{Web3, Decimals}
use klend_sdk.Action.Data.{
  KaminoObligation, Position, ActionType, deposit, borrow, repay, deposit_and_borrow, AuxiliaryIx,
  setup, in_between, cleanup,
}
use klend_sdk.Action.State.{KaminoAction}
use klend_sdk.Action.Refresh.{
  get_reserve_by_address, add_refresh_reserve_ixs, add_refresh_obligation_ix,
  add_request_elevation_ix,
}
use klend_sdk.Action.Elevation.{choose_elevation_group}

-- `overrideElevationGroupRequest ?? 0`.
abbrev pub group_on_repay : Option ℕ → ℕ
group_on_repay none = 0
group_on_repay (some group) = group

module _ {K D : Type 0} ⦃p : PublicKeys K⦄ ⦃w : Web3 K⦄ ⦃d : Decimals D⦄ where
  -- The request of a group, with the refreshes that the obligation needs after it.
  abbrev pub request_group :
      ℕ → AuxiliaryIx → List K → List K → KaminoAction K D → Outcome (KaminoAction K D)
  request_group group phase excluded current a = do
    requested ← add_request_elevation_ix group phase false a
    b ← add_refresh_reserve_ixs excluded phase requested
    c ← add_refresh_reserve_ixs current phase b
    ok (add_refresh_obligation_ix phase false c)

  abbrev pub current_group : KaminoAction K D → Option ℕ
  current_group a = elim a.obligation [ none ↦ none | some o ↦ some o.elevation_group ]

  abbrev pub is_new_group : ℕ → KaminoAction K D → Bool
  is_new_group group a = elim (current_group a) [ none ↦ true | some now ↦ not (group == now) ]

  -- After the repayment of the last borrow: leave the elevation group.
  -- The obligation has one borrow, which the amount repays, and an elevation group to leave.
  abbrev pub closes_group : KaminoObligation K D → Position D → KaminoAction K D → Bool
  closes_group o b a =
      d.lte b.amount (d.of_bn a.amount) && (o.borrows.size == 1) && not (o.elevation_group == 0)

  unfoldable pub request_on_repay :
      Option ℕ → List K → KaminoAction K D → Outcome (KaminoAction K D)
  request_on_repay override excluded a = do
    o ← or_throw a.obligation "TypeError"
    b ←
        or_throw (HashMap.get o.borrows a.reserve.address)
          "Could not find debt reserve in obligation"
    if closes_group o b a
        then (add_refresh_reserve_ixs excluded cleanup a >>= λ c.
            add_request_elevation_ix (group_on_repay override) cleanup true
              (add_refresh_obligation_ix cleanup true c))
        else ok a

  -- The elevation groups of the collateral of a borrower: of the first deposit.
  unfoldable pub first_deposit_groups : KaminoAction K D → Outcome (List ℕ)
  unfolding get_reserve_by_address
  first_deposit_groups a = do
    o ← or_throw a.obligation "TypeError"
    k ← or_throw (find (λ r. not (p.equals r p.default)) o.state_deposits) "TypeError"
    r ← or_throw (get_reserve_by_address a.kamino_market k) "TypeError"
    ok r.elevation_groups

  -- The group to ask for when borrowing, and the instructions that the request joins.
  unfoldable pub group_on_borrow :
      ActionType → Option ℕ → KaminoAction K D → Outcome (Option ℕ × AuxiliaryIx)
  unfolding first_deposit_groups choose_elevation_group
  group_on_borrow action (some group) a = ok (some group, setup)
  group_on_borrow deposit_and_borrow none a = do
    out ← or_throw a.outflow_reserve "TypeError"
    group ←
        choose_elevation_group a.kamino_market.elevation_groups a.reserve.elevation_groups
          out.elevation_groups out.address (current_group a)
    ok (group, in_between)
  group_on_borrow _ none a = do
    coll ← first_deposit_groups a
    group ←
        choose_elevation_group a.kamino_market.elevation_groups coll a.reserve.elevation_groups
          a.reserve.address (current_group a)
    ok (group, setup)

  abbrev pub note_group : ℕ → KaminoAction K D → Outcome (KaminoAction K D)
  note_group group a = do
    o ← or_throw a.obligation "TypeError"
    ok (record a { obligation = some (record o { potential_elevation_group_update = group }) })

  abbrev pub note_on_borrow : ActionType → ℕ → KaminoAction K D → Outcome (KaminoAction K D)
  note_on_borrow borrow group a = note_group group a
  note_on_borrow _ group a = ok a

  unfoldable pub request_new_group :
      ActionType
      → Option ℕ
      → AuxiliaryIx
      → List K
      → List K
      → KaminoAction K D
      → Outcome (KaminoAction K D)
  request_new_group action none phase excluded current a = ok a
  request_new_group action (some group) phase excluded current a =
      if is_new_group group a
      then (request_group group phase excluded current a >>= λ b. note_on_borrow action group b)
      else ok a

  unfoldable pub request_on_borrow :
      ActionType → Option ℕ → List K → List K → KaminoAction K D → Outcome (KaminoAction K D)
  unfolding group_on_borrow request_new_group
  request_on_borrow action override excluded current a = do
    chosen ← group_on_borrow action override a
    request_new_group action chosen.0 chosen.1 excluded current a

  unfoldable pub request_elevation :
      ActionType → Option ℕ → List K → List K → KaminoAction K D → Outcome (KaminoAction K D)
  unfolding request_on_repay request_on_borrow
  request_elevation repay override excluded current a = request_on_repay override excluded a
  request_elevation deposit_and_borrow override excluded current a =
      request_on_borrow deposit_and_borrow override excluded current a
  request_elevation borrow override excluded current a =
      request_on_borrow borrow override excluded current a
  request_elevation deposit (some group) excluded current a =
      if is_new_group group a then request_group group setup excluded current a else ok a
  request_elevation _ override excluded current a = ok a
