-- ===== src/Action/Refresh/Farms.antt =====
-- The refreshes of farms before and after the lending instructions: `addRefreshFarmsForReserve` of
-- src/classes/action.ts.
use klend_sdk.Prelude.{
  append_assoc, append-nil, List, [], ◌∷◌, Bool, true, false, ◌≡◌, refl, ◌∙◌, sym, ap,
  if◌then◌else◌,
}
use klend_sdk.Pubkey.Keys.{PublicKeys}
use klend_sdk.Action.Interfaces.{Web3}
use klend_sdk.Action.Data.{setup, Queue, Instruction, Label, KaminoReserve, ReserveFarmKind}
use klend_sdk.Action.State.{KaminoAction, push_back, empty_queue}
use klend_sdk.Action.Keys.{get_obligation_pda}
use klend_sdk.Action.Refresh.{
  farm_of, refresh_farm_ix, refresh_farm_label, push_farm, add_refresh_farms_for_reserve,
}

abbrev queue_of : {K : Type 0} → List (Instruction K) → List (Label K) → Queue K
queue_of is ls = record { ixs = is; labels = ls }

abbrev put_farm : {K : Type 0} → Bool → Instruction K → Label K → Queue K → Queue K
put_farm c i l rest = if c then rest else queue_of (i ∷ rest.ixs) (l ∷ rest.labels)

module _ {K D : Type 0} ⦃p : PublicKeys K⦄ ⦃w : Web3 K⦄ where
  -- What the setup instructions and those that follow the lending instructions gain.
  abbrev pub gain : Bool → Queue K → KaminoAction K D → KaminoAction K D
  gain true q a = record a {
    setup_ixs = push_back q a.setup_ixs;
    in_between_ixs = push_back q a.in_between_ixs;
  }
  gain false q a = record a {
    setup_ixs = push_back q a.setup_ixs;
    refresh_farms_cleanup_txn_ixs = push_back q a.refresh_farms_cleanup_txn_ixs;
  }

  -- The refreshes of the farms that the reserves have.
  abbrev pub farm_refreshes :
      List (KaminoReserve K D) → ReserveFarmKind → K → KaminoAction K D → Queue K
  farm_refreshes [] mode crank a = empty_queue
  farm_refreshes (r ∷ rs) mode crank a =
      put_farm (p.equals (farm_of mode r) p.default) (refresh_farm_ix mode crank r a)
        (refresh_farm_label mode r a) (farm_refreshes rs mode crank a)

  same-ix :
      (r : KaminoReserve K D) (mode : ReserveFarmKind) (crank : K) (two : Bool) (q : Queue K)
      (a : KaminoAction K D)
      → (refresh_farm_ix mode crank r (gain two q a) ≡ refresh_farm_ix mode crank r a)
        × (refresh_farm_label mode r (gain two q a) ≡ refresh_farm_label mode r a)
  unfolding refresh_farm_ix get_obligation_pda
  same-ix r mode crank true q a = (refl, refl)
  same-ix r mode crank false q a = (refl, refl)

  same-refreshes :
      (rs : List (KaminoReserve K D)) (mode : ReserveFarmKind) (crank : K) (two : Bool)
      (q : Queue K) (a : KaminoAction K D)
      → farm_refreshes rs mode crank (gain two q a) ≡ farm_refreshes rs mode crank a
  same-refreshes [] mode crank two q a = refl
  same-refreshes (r ∷ rs) mode crank two q a =
      let (e, f) = same-ix r mode crank two q a in
      let rest = same-refreshes rs mode crank two q a in
      λ i. put_farm (p.equals (farm_of mode r) p.default) (e i) (f i) (rest i)

  one-farm :
      (two : Bool) (i : Instruction K) (l : Label K) (a : KaminoAction K D)
      → push_farm setup two i l a ≡ gain two (queue_of (i ∷ []) (l ∷ [])) a
  one-farm true i l a = refl
  one-farm false i l a = refl

  gain-gain :
      (two : Bool) (i : Instruction K) (l : Label K) (q : Queue K) (a : KaminoAction K D)
      → gain two q (gain two (queue_of (i ∷ []) (l ∷ [])) a)
        ≡ gain two (queue_of (i ∷ q.ixs) (l ∷ q.labels)) a
  gain-gain true i l q a = λ j. record a {
    setup_ixs =
        queue_of (append_assoc a.setup_ixs.ixs (i ∷ []) q.ixs j)
          (append_assoc a.setup_ixs.labels (l ∷ []) q.labels j);
    in_between_ixs =
        queue_of (append_assoc a.in_between_ixs.ixs (i ∷ []) q.ixs j)
          (append_assoc a.in_between_ixs.labels (l ∷ []) q.labels j);
  }
  gain-gain false i l q a = λ j. record a {
    setup_ixs =
        queue_of (append_assoc a.setup_ixs.ixs (i ∷ []) q.ixs j)
          (append_assoc a.setup_ixs.labels (l ∷ []) q.labels j);
    refresh_farms_cleanup_txn_ixs =
        queue_of (append_assoc a.refresh_farms_cleanup_txn_ixs.ixs (i ∷ []) q.ixs j)
          (append_assoc a.refresh_farms_cleanup_txn_ixs.labels (l ∷ []) q.labels j);
  }

  gain-empty : (two : Bool) (a : KaminoAction K D) → a ≡ gain two empty_queue a
  gain-empty true a = λ j. record a {
    setup_ixs =
        queue_of (sym (append-nil a.setup_ixs.ixs) j) (sym (append-nil a.setup_ixs.labels) j);
    in_between_ixs =
        queue_of (sym (append-nil a.in_between_ixs.ixs) j)
          (sym (append-nil a.in_between_ixs.labels) j);
  }
  gain-empty false a = λ j. record a {
    setup_ixs =
        queue_of (sym (append-nil a.setup_ixs.ixs) j) (sym (append-nil a.setup_ixs.labels) j);
    refresh_farms_cleanup_txn_ixs =
        queue_of (sym (append-nil a.refresh_farms_cleanup_txn_ixs.ixs) j)
          (sym (append-nil a.refresh_farms_cleanup_txn_ixs.labels) j);
  }

  step-lem :
      (c two : Bool) (i : Instruction K) (l : Label K) (a : KaminoAction K D)
      (f : KaminoAction K D → KaminoAction K D) (g : KaminoAction K D → Queue K)
      → ((b : KaminoAction K D) → f b ≡ gain two (g b) b)
      → ((q : Queue K) → g (gain two q a) ≡ g a)
      → f (if c then a else push_farm setup two i l a) ≡ gain two (put_farm c i l (g a)) a
  step-lem true two i l a f g ih same = ih a
  step-lem false two i l a f g ih same =
      let s = queue_of (i ∷ []) (l ∷ []) in
      ap f (one-farm two i l a)
      ∙ ih (gain two s a)
      ∙ ap (λ q. gain two q (gain two s a)) (same s)
      ∙ gain-gain two i l (g a) a

  -- The farm refreshes of the set-up phase append one instruction for each reserve with a farm of the
  -- kind, in the order of the reserves, to the set-up instructions, and the same instructions with the
  -- same labels to the in-between instructions for a two-token action, else to the farm refreshes kept
  -- for the clean-up; nothing else of the action changes.
  pub add_refresh_farms_for_reserve-lem :
      (rs : List (KaminoReserve K D)) (mode : ReserveFarmKind) (crank : K) (two : Bool)
      (a : KaminoAction K D)
      → add_refresh_farms_for_reserve rs setup mode crank two a
        ≡ gain two (farm_refreshes rs mode crank a) a
  unfolding add_refresh_farms_for_reserve
  add_refresh_farms_for_reserve-lem [] mode crank two a = gain-empty two a
  add_refresh_farms_for_reserve-lem (r ∷ rs) mode crank two a =
      step-lem (p.equals (farm_of mode r) p.default) two (refresh_farm_ix mode crank r a)
        (refresh_farm_label mode r a) a (add_refresh_farms_for_reserve rs setup mode crank two)
        (farm_refreshes rs mode crank) (add_refresh_farms_for_reserve-lem rs mode crank two)
        (λ q. same-refreshes rs mode crank two q a)
