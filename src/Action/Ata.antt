-- ===== src/Action/Ata.antt =====
-- `addAtaIxs` and `updateWSOLAccount` of src/classes/action.ts: the token accounts of the user.
use klend_sdk.Prelude.{
  ℕ, ◌+◌, [], ◌∷◌, Bool, true, false, Option, none, some, if◌then◌else◌, find, not, ◌&&◌, ◌||◌,
  ◌==◌,
}
use klend_sdk.Prelude.Outcome.{Outcome, ok, ◌>>=◌, or_throw}
use klend_sdk.Pubkey.Keys.{PublicKeys}
use klend_sdk.Action.Interfaces.{Web3, Decimals}
use klend_sdk.Action.Data.{
  ActionType, deposit, borrow, withdraw, repay, mint, redeem, liquidate, deposit_and_borrow,
  repay_and_withdraw, Queue, Instruction, Label, create_ata, transfer, sync_native, close_account,
  key,
}
use klend_sdk.Action.State.{
  KaminoAction, empty_queue, push, unshift, push_front, push_back, ix, label,
}
use klend_sdk.Action.Lending.{u64_max}

abbrev pub position_limit : ℕ
position_limit = 10

abbrev pub sol_padding_for_interest : ℕ
sol_padding_for_interest = 1000000

-- The actions whose token account receives the liquidity, and those whose token account `addAtaIxs` makes
-- beforehand.
abbrev pub receives : ActionType → Bool
receives withdraw = true
receives borrow = true
receives redeem = true
receives _ = false

abbrev pub sends : ActionType → Bool
sends withdraw = true
sends mint = true
sends deposit = true
sends repay_and_withdraw = true
sends _ = false

-- The actions that `updateWSOLAccount` leaves alone.
abbrev pub has_two_steps : ActionType → Bool
has_two_steps deposit_and_borrow = true
has_two_steps repay_and_withdraw = true
has_two_steps _ = false

module _ {K D : Type 0} where
  abbrev unshift_setup : Instruction K → Label K → KaminoAction K D → KaminoAction K D
  unshift_setup i l a = record a { setup_ixs = unshift i l a.setup_ixs }

  abbrev push_pre_txn : Instruction K → Label K → KaminoAction K D → KaminoAction K D
  push_pre_txn i l a = record a { pre_txn_ixs = push i l a.pre_txn_ixs }

module _ {K : Type 0} ⦃p : PublicKeys K⦄ ⦃w : Web3 K⦄ where
  abbrev pub is_wsol : Option K → Bool
  is_wsol none = false
  is_wsol (some m) = p.equals m w.wrapped_sol_mint

module _ {K D : Type 0} ⦃p : PublicKeys K⦄ ⦃w : Web3 K⦄ where
  -- A new token account, set up before the action or, of `early`, in a transaction before it.
  unfoldable pub make_ata : Bool → K → K → K → Label K → KaminoAction K D → KaminoAction K D
  make_ata early account token token_program l a =
      let i = ix (create_ata a.owner account a.owner token token_program) in
      if w.account_exists account
      then a
      else if early
      then push_pre_txn i l a
      else unshift_setup i l a

  abbrev pub receiving_ata : KaminoAction K D → KaminoAction K D
  receiving_ata a =
      make_ata (a.positions == position_limit) a.user_token_account_address a.reserve.liquidity_mint
        a.reserve.liquidity_token_program (label "CreateLiquidityUserAta" (key a.owner ∷ [])) a

  -- The first test of `addAtaIxs` after the one for wrapped SOL.
  unfoldable pub add_receiving_ata : ActionType → KaminoAction K D → KaminoAction K D
  add_receiving_ata action a =
      if receives action && not (is_wsol (some a.mint)) then receiving_ata a else a

  unfoldable pub add_liquidation_atas : KaminoAction K D → Outcome (KaminoAction K D)
  add_liquidation_atas a = do
    out ← or_throw a.outflow_reserve "Outflow reserve state not found"
    let early = (a.positions == position_limit) && is_wsol (some a.mint)
    let token =
        make_ata early a.user_token_account_address out.liquidity_mint out.liquidity_token_program
          (label "CreateUserAta" (key a.user_token_account_address ∷ [])) a
    let both =
        make_ata early a.user_collateral_account_address out.c_token_mint w.token_program_id
          (label "CreateCollateralUserAta" (key a.user_collateral_account_address ∷ [])) token
    account ←
        or_throw a.additional_token_account_address "Additional token account address not found"
    ok both

  unfoldable pub add_additional_ata : KaminoAction K D → Outcome (KaminoAction K D)
  add_additional_ata a = do
    account ←
        or_throw a.additional_token_account_address "Additional token account address not found"
    out ← or_throw a.outflow_reserve "Outflow reserve state not found"
    ok (
        make_ata false account out.liquidity_mint out.liquidity_token_program
          (label "CreateAdditionalUserTokenAta" (key a.owner ∷ [])) a)

  abbrev pub sending_ata : KaminoAction K D → KaminoAction K D
  sending_ata a =
      make_ata true a.user_token_account_address a.reserve.liquidity_mint
        a.reserve.liquidity_token_program
        (label "CreateUserAta" (key a.user_token_account_address ∷ [])) a

  unfoldable pub add_sending_ata : ActionType → KaminoAction K D → KaminoAction K D
  add_sending_ata action a = if sends action then sending_ata a else a

  unfoldable pub add_collateral_ata : KaminoAction K D → KaminoAction K D
  add_collateral_ata a =
      make_ata ((a.positions == position_limit) && is_wsol (some a.mint))
        a.user_collateral_account_address a.reserve.c_token_mint w.token_program_id
        (label "CreateCollateralUserAta" (key a.user_collateral_account_address ∷ [])) a

  module _ ⦃d : Decimals D⦄ where
    -- `safeRepay`: for a repayment of all, the debt at the reserve's rate and a padding.
    unfoldable pub safe_repay : ActionType → KaminoAction K D → Outcome ℕ
    safe_repay repay a = elim a.obligation [
      | none ↦ ok a.amount
      | some o ↦
          if a.amount == u64_max
          then (or_throw (find (λ b. p.equals b.borrow_reserve a.reserve.address) o.state_borrows)
                "Unable to find obligation borrow to repay"
              >>= λ b.
                  let rate =
                    a.reserve.estimated_cumulative_borrow_rate a.current_slot
                      a.kamino_market.referral_fee_bps in
                  ok (
                    d.floor_bn (
                      d.add (d.div (d.mul b.borrow_amount rate) b.cumulative_borrow_rate)
                        (d.of_bn sol_padding_for_interest))))
          else ok a.amount
    ]
    safe_repay _ a = ok a.amount

    -- `sendAction`: the action sends wrapped SOL.
    abbrev pub sends_wsol : ActionType → KaminoAction K D → Bool
    sends_wsol deposit a = true
    sends_wsol repay a = true
    sends_wsol mint a = true
    sends_wsol liquidate a = is_wsol a.secondary_mint
    sends_wsol _ a = false

    -- `preIxs` with `postIxs`, for an account, the lamports that are sent, and the kind of the action.
    abbrev pub wsol_ixs : K → ℕ → Bool → KaminoAction K D → Queue K × Queue K
    wsol_ixs account sent sends a =
        let exists = w.account_exists account in
        let lamports = (if exists then 0 else w.rent_exempt) + (if sends then sent else 0) in
        let first =
          push (ix (transfer a.owner account lamports))
            (label "TransferLamportsToUserAtaSOL" (key account ∷ [])) empty_queue in
        let synced =
          push (ix (sync_native account)) (label "SyncUserAtaSOL" (key account ∷ [])) first in
        let created = push (ix (sync_native account)) (label "SyncUserAtaSOL" (key account ∷ [])) (
          push (ix (create_ata a.owner account a.owner w.native_mint w.token_program_id))
            (label "CreateUserAtaSOL" (key account ∷ [])) first) in
        let closed =
          push (ix (close_account account a.owner a.owner))
            (label "CloseUserAtaSOL" (key account ∷ [])) empty_queue in
        if exists
        then if sends then (synced, empty_queue) else (first, closed)
        else (created, closed)

    -- The account of wrapped SOL: the second one if the second mint is SOL.
    abbrev pub wsol_account : KaminoAction K D → Outcome K
    wsol_account a =
        if is_wsol a.secondary_mint
        then or_throw a.additional_token_account_address
            "Additional token account address not found"
        else ok a.user_token_account_address

    abbrev pub with_wsol_ixs : Queue K × Queue K → KaminoAction K D → KaminoAction K D
    with_wsol_ixs queues a = record a {
      setup_ixs = push_front queues.0 a.setup_ixs;
      cleanup_ixs = push_back queues.1 a.cleanup_ixs;
    }

    unfoldable pub update_wsol_account : ActionType → KaminoAction K D → Outcome (KaminoAction K D)
    unfolding safe_repay
    update_wsol_account action a =
        if has_two_steps action
        then ok a
        else safe_repay action a >>= λ repaid. wsol_account a >>= λ account.
            ok (with_wsol_ixs (wsol_ixs account (w.parse_int repaid) (sends_wsol action a) a) a)

    abbrev pub needs_additional_ata : ActionType → KaminoAction K D → Bool
    needs_additional_ata deposit_and_borrow a = true
    needs_additional_ata repay_and_withdraw a = not (is_wsol a.secondary_mint)
    needs_additional_ata _ a = false

    abbrev pub add_atas_of_liquidation : ActionType → KaminoAction K D → Outcome (KaminoAction K D)
    add_atas_of_liquidation liquidate a = add_liquidation_atas a
    add_atas_of_liquidation _ a = ok a

    abbrev pub add_ata_of_mint : ActionType → KaminoAction K D → KaminoAction K D
    add_ata_of_mint mint a = add_collateral_ata a
    add_ata_of_mint _ a = a

    unfoldable pub add_ata_ixs : ActionType → KaminoAction K D → Outcome (KaminoAction K D)
    unfolding update_wsol_account add_receiving_ata add_liquidation_atas add_additional_ata
        add_sending_ata add_collateral_ata
    add_ata_ixs action a = do
      wrapped ←
          (if is_wsol (some a.mint) || is_wsol a.secondary_mint
            then update_wsol_account action a
            else ok a)
      liquidated ← add_atas_of_liquidation action (add_receiving_ata action wrapped)
      additional ←
          (if needs_additional_ata action liquidated
            then add_additional_ata liquidated
            else ok liquidated)
      ok (add_ata_of_mint action (add_sending_ata action additional))
