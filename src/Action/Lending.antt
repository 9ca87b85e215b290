-- ===== src/Action/Lending.antt =====
-- The lending instructions themselves, of src/classes/action.ts.
use klend_sdk.Prelude.{ℕ, [], ◌∷◌, none, some, if◌then◌else◌, ltb, ◌==◌, ◌||◌, length}
use klend_sdk.Prelude.Outcome.{Outcome, ok, ◌>>=◌, or_throw}
use klend_sdk.Pubkey.Keys.{PublicKeys}
use klend_sdk.Action.Interfaces.{Web3, Decimals}
use klend_sdk.Action.Data.{
  KaminoReserve, Call, Instruction, Label, key, deposit_reserve_liquidity_and_obligation_collateral,
  deposit_reserve_liquidity, redeem_reserve_collateral, deposit_obligation_collateral,
  borrow_obligation_liquidity, repay_obligation_liquidity,
  withdraw_obligation_collateral_and_redeem_reserve_collateral,
  liquidate_obligation_and_redeem_reserve_collateral,
}
use klend_sdk.Action.State.{KaminoAction, push, ix, ix_with, label}
use klend_sdk.Action.Keys.{
  get_obligation_pda, referrer_token_state_pda, get_additional_deposit_reserves_list,
}

abbrev pub u64_max : ℕ
u64_max = 18446744073709551615

module _ {K D : Type 0} where
  abbrev pub push_lending : Instruction K → Label K → KaminoAction K D → KaminoAction K D
  push_lending i l a = record a { lending_ixs = push i l a.lending_ixs }

module _ {K D : Type 0} ⦃p : PublicKeys K⦄ ⦃w : Web3 K⦄ where
  abbrev deposit_ix : KaminoAction K D → Instruction K
  deposit_ix a =
      let m = a.kamino_market in
      let r = a.reserve in
      ix (
        deposit_reserve_liquidity_and_obligation_collateral a.amount a.owner (get_obligation_pda a)
          m.address m.lending_market_authority r.address r.liquidity_mint r.liquidity_supply_vault
          r.c_token_mint r.collateral_supply_vault a.user_token_account_address m.program_id
          r.liquidity_token_program m.program_id)

  unfoldable pub add_deposit_ix : KaminoAction K D → KaminoAction K D
  unfolding get_obligation_pda
  add_deposit_ix a =
      push_lending (deposit_ix a) (label "depositReserveLiquidityAndObligationCollateral" []) a

  unfoldable pub add_deposit_reserve_liquidity_ix : KaminoAction K D → KaminoAction K D
  add_deposit_reserve_liquidity_ix a =
      let m = a.kamino_market in
      let r = a.reserve in
      push_lending
        (ix (
          deposit_reserve_liquidity a.amount a.owner m.address m.lending_market_authority r.address
            r.liquidity_mint r.liquidity_supply_vault r.c_token_mint a.user_token_account_address
            a.user_collateral_account_address r.liquidity_token_program m.program_id))
        (label "depositReserveLiquidity" []) a

  unfoldable pub add_redeem_reserve_collateral_ix : KaminoAction K D → KaminoAction K D
  add_redeem_reserve_collateral_ix a =
      let m = a.kamino_market in
      let r = a.reserve in
      push_lending
        (ix (
          redeem_reserve_collateral a.amount a.owner m.address m.lending_market_authority r.address
            r.liquidity_mint r.liquidity_supply_vault r.c_token_mint
            a.user_collateral_account_address a.user_token_account_address r.liquidity_token_program
            m.program_id))
        (label "redeemReserveCollateral" []) a

  unfoldable pub add_deposit_obligation_collateral_ix : KaminoAction K D → KaminoAction K D
  unfolding get_obligation_pda
  add_deposit_obligation_collateral_ix a =
      let m = a.kamino_market in
      let r = a.reserve in
      push_lending
        (ix (
          deposit_obligation_collateral a.amount a.owner (get_obligation_pda a) m.address r.address
            r.collateral_supply_vault a.user_collateral_account_address m.program_id))
        (label "depositObligationCollateral" []) a

  abbrev borrow_call : ℕ → KaminoReserve K D → K → KaminoAction K D → Call K
  borrow_call amount r destination a =
      let m = a.kamino_market in
      borrow_obligation_liquidity amount a.owner (get_obligation_pda a) m.address
        m.lending_market_authority r.address r.liquidity_mint r.liquidity_supply_vault destination
        r.liquidity_fee_vault (referrer_token_state_pda a.referrer r.address m.program_id)
        r.liquidity_token_program m.program_id

  -- `this.obligation!` of an absent obligation throws.
  unfoldable pub add_borrow_ix : KaminoAction K D → Outcome (KaminoAction K D)
  unfolding get_obligation_pda referrer_token_state_pda get_additional_deposit_reserves_list
  add_borrow_ix a = do
    o ← or_throw a.obligation "TypeError"
    let loaded = get_additional_deposit_reserves_list a
    let call = borrow_call a.amount a.reserve a.user_token_account_address a
    let grouped = ltb 0 o.elevation_group || ltb 0 o.potential_elevation_group_update
    ok (
        push_lending (ix_with call (if grouped then loaded.deposit_reserves else []))
          (label "borrowObligationLiquidity" []) loaded)

  unfoldable pub add_deposit_and_borrow_ix : KaminoAction K D → Outcome (KaminoAction K D)
  unfolding get_obligation_pda referrer_token_state_pda get_additional_deposit_reserves_list
  add_deposit_and_borrow_ix a = do
    outflow ← or_throw a.outflow_reserve "outflowReserve not set"
    account ← or_throw a.additional_token_account_address "additionalTokenAccountAddress not set"
    amount ← or_throw a.outflow_amount "outflowAmount not set"
    let loaded = get_additional_deposit_reserves_list a
    -- The list is `this.depositReserves` itself, so the push changes the action.
    let all =
        if length loaded.deposit_reserves == 0
        then a.reserve.address ∷ []
        else loaded.deposit_reserves
    let deposited =
        push_lending (deposit_ix a) (label "depositReserveLiquidityAndObligationCollateral" [])
          loaded
    ok (
        push_lending (ix_with (borrow_call amount outflow account a) all)
          (label "borrowObligationLiquidity" []) (record deposited { deposit_reserves = all }))

  abbrev repay_call : K → KaminoAction K D → Call K
  repay_call owner a =
      let m = a.kamino_market in
      let r = a.reserve in
      repay_obligation_liquidity a.amount owner (get_obligation_pda a) m.address r.address
        r.liquidity_mint a.user_token_account_address r.liquidity_supply_vault
        r.liquidity_token_program m.program_id

  abbrev repay_label : KaminoAction K D → Label K
  repay_label a =
      label "repayObligationLiquidity" (key a.reserve.address ∷ key (get_obligation_pda a) ∷ [])

  unfoldable pub add_repay_ix : KaminoAction K D → Outcome (KaminoAction K D)
  unfolding get_obligation_pda get_additional_deposit_reserves_list
  add_repay_ix a = do
    o ← or_throw a.obligation "TypeError"
    let loaded = get_additional_deposit_reserves_list a
    let grouped = ltb 0 o.elevation_group
    ok (
        push_lending
          (ix_with (repay_call a.payer a) (if grouped then loaded.deposit_reserves else []))
          (repay_label a) loaded)

  module _ ⦃d : Decimals D⦄ where
    -- The amount of collateral that stands for an amount of liquidity of a reserve; the largest `u64`,
    -- which asks for all, is passed on.
    unfoldable pub collateral_amount : ℕ → KaminoReserve K D → KaminoAction K D → ℕ
    collateral_amount amount r a =
        let rate =
          r.estimated_collateral_exchange_rate a.current_slot a.kamino_market.referral_fee_bps in
        if amount == u64_max then amount else d.ceil_bn (d.mul (d.of_bn amount) rate)

    abbrev withdraw_call : ℕ → KaminoReserve K D → K → KaminoAction K D → Call K
    withdraw_call amount r destination a =
        let m = a.kamino_market in
        withdraw_obligation_collateral_and_redeem_reserve_collateral (collateral_amount amount r a)
          a.owner (get_obligation_pda a) m.address m.lending_market_authority r.address
          r.liquidity_mint r.c_token_mint r.liquidity_supply_vault r.collateral_supply_vault
          destination m.program_id r.liquidity_token_program m.program_id

    unfoldable pub add_withdraw_ix : KaminoAction K D → KaminoAction K D
    unfolding get_obligation_pda collateral_amount
    add_withdraw_ix a =
        push_lending (ix (withdraw_call a.amount a.reserve a.user_token_account_address a))
          (label "withdrawObligationCollateralAndRedeemReserveCollateral" []) a

    unfoldable pub add_repay_and_withdraw_ixs : KaminoAction K D → Outcome (KaminoAction K D)
    unfolding get_obligation_pda collateral_amount get_additional_deposit_reserves_list
    add_repay_and_withdraw_ixs a = do
      outflow ← or_throw a.outflow_reserve "outflowReserve not set"
      account ← or_throw a.additional_token_account_address "additionalTokenAccountAddress not set"
      amount ← or_throw a.outflow_amount "outflowAmount not set"
      let loaded = get_additional_deposit_reserves_list a
      let repaid =
          push_lending (ix_with (repay_call a.owner a) loaded.deposit_reserves) (repay_label a)
            loaded
      ok (
          push_lending (ix (withdraw_call amount outflow account a))
            (label "withdrawObligationCollateralAndRedeemReserveCollateral" []) repaid)

  unfoldable pub add_liquidate_ix : ℕ → KaminoAction K D → Outcome (KaminoAction K D)
  unfolding get_obligation_pda get_additional_deposit_reserves_list
  add_liquidate_ix max_allowed_ltv_override_percent a = do
    out ← or_throw a.outflow_reserve "Withdraw reserve during liquidation is not defined"
    source ←
        or_throw a.additional_token_account_address
          "Liquidating token account address is not defined"
    o ← or_throw a.obligation "TypeError"
    let m = a.kamino_market
    let r = a.reserve
    let loaded = get_additional_deposit_reserves_list a
    let min_received : ℕ = elim a.outflow_amount [ some n ↦ n | none ↦ 0 ]
    let call =
        liquidate_obligation_and_redeem_reserve_collateral a.amount min_received
          max_allowed_ltv_override_percent a.owner (get_obligation_pda a) m.address
          m.lending_market_authority r.address r.liquidity_mint r.liquidity_supply_vault out.address
          out.liquidity_mint out.c_token_mint out.collateral_supply_vault out.liquidity_supply_vault
          source a.user_collateral_account_address a.user_token_account_address
          out.liquidity_fee_vault r.liquidity_token_program out.liquidity_token_program m.program_id
    ok (
        push_lending
          (ix_with call (if ltb 0 o.elevation_group then loaded.deposit_reserves else []))
          (label "liquidateObligationAndRedeemReserveCollateral" []) loaded)
