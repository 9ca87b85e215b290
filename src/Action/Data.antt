-- ===== src/Action/Data.antt =====
-- The objects that an action reads, the instructions that it makes, and the labels of these.
use Prim.Native.String.{String}
use klend_sdk.Reserve.Data.{WithdrawalCaps}
use klend_sdk.Prelude.{ℕ, Bool, List}
use klend_sdk.Pubkey.HashMap.{PubkeyHashMap}

-- src/idl_codegen/types/ReserveFarmKind.ts.
pub data ReserveFarmKind : Type 0 where
  collateral debt : ReserveFarmKind

-- `AuxiliaryIx`: the group of instructions that a support instruction joins.
pub data AuxiliaryIx : Type 0 where
  setup in_between cleanup : AuxiliaryIx

pub data ActionType : Type 0 where
  deposit borrow withdraw repay mint redeem deposit_collateral liquidate : ActionType
  deposit_and_borrow repay_and_withdraw refresh_obligation request_elevation_group : ActionType
  withdraw_referrer_fees : ActionType

-- What an action reads of a `KaminoReserve`. The two rates are the methods `getEstimated..` of the
-- reserve, of a slot and a referral fee.
pub record KaminoReserve (K D : Type 0) : Type 0 where
  pub address : K
  pub liquidity_mint : K
  pub liquidity_token_program : K
  pub liquidity_supply_vault : K
  pub liquidity_fee_vault : K
  pub c_token_mint : K
  pub collateral_supply_vault : K
  pub farm_collateral : K
  pub farm_debt : K
  pub pyth_price : K
  pub switchboard_price_aggregator : K
  pub switchboard_twap_aggregator : K
  pub scope_price_feed : K
  pub scope_price_chain : List ℕ
  pub scope_twap_chain : List ℕ
  pub elevation_groups : List ℕ
  pub available_amount : ℕ
  pub borrowed_amount_sf : ℕ
  pub accumulated_protocol_fees_sf : ℕ
  pub accumulated_referrer_fees_sf : ℕ
  pub pending_referrer_fees_sf : ℕ
  pub utilization_limit_block_borrowing_above : ℕ
  pub debt_withdrawal_cap : WithdrawalCaps
  pub borrow_limit : ℕ
  pub borrow_limit_outside_elevation_group : ℕ
  pub borrowed_amount_outside_elevation_group : ℕ
  pub borrow_limit_against_this_collateral_in_elevation_group : List ℕ
  pub borrowed_amounts_against_this_reserve_in_elevation_groups : List ℕ
  pub estimated_cumulative_borrow_rate : ℕ → ℕ → D
  pub estimated_collateral_exchange_rate : ℕ → ℕ → D

-- An entry of `obligation.state.borrows`, with `getBorrowAmount` and `getCumulativeBorrowRate` of it.
pub record ObligationBorrow (K D : Type 0) : Type 0 where
  pub borrow_reserve : K
  pub borrow_amount : D
  pub cumulative_borrow_rate : D

-- A position of `obligation.borrows` or `obligation.deposits`, by its amount.
pub record Position (D : Type 0) : Type 0 where
  pub amount : D

pub record KaminoObligation (K D : Type 0) : Type 0 where
  pub obligation_address : K
  pub owner : K
  pub referrer : K
  pub elevation_group : ℕ
  -- The deposit reserves of `state.deposits`, unused slots as the default key.
  pub state_deposits : List K
  pub state_borrows : List (ObligationBorrow K D)
  pub deposits : PubkeyHashMap K (Position D)
  pub borrows : PubkeyHashMap K (Position D)
  -- `refreshedStats.potentialElevationGroupUpdate`.
  pub potential_elevation_group_update : ℕ

pub record ElevationGroup (K : Type 0) : Type 0 where
  pub id : ℕ
  pub ltv_pct : ℕ
  pub debt_reserve : K

pub record KaminoMarket (K D : Type 0) : Type 0 where
  pub address : K
  pub program_id : K
  pub lending_market_authority : K
  pub referral_fee_bps : ℕ
  pub elevation_groups : List (ElevationGroup K)
  pub reserves : PubkeyHashMap K (KaminoReserve K D)

pub record KeyMeta (K : Type 0) : Type 0 where
  pub pubkey : K
  pub is_signer : Bool
  pub is_writable : Bool

-- A call of an instruction's builder, its arguments first and then its accounts in the order of the
-- source. Accounts that are the same in every call (system program, rent, sysvar, farms program) are left
-- out.
pub data Call (K : Type 0) : Type 0 where
  set_compute_unit_limit : (units : ℕ) → Call K
  refresh_price_list : (tokens : List ℕ) (feed : String) → Call K
  refresh_reserve :
      (lending_market reserve pyth switchboard_price switchboard_twap scope_prices program : K)
      → Call K
  refresh_obligation : (lending_market obligation program : K) → Call K
  request_elevation_group : (group : ℕ) (owner obligation lending_market program : K) → Call K
  refresh_obligation_farms :
      (mode : ReserveFarmKind)
      (crank obligation authority reserve farm user_state lending_market program : K)
      → Call K
  init_obligation_farms :
      (mode : ReserveFarmKind)
      (owner payer obligation authority reserve farm user_state lending_market program : K)
      → Call K
  init_obligation :
      (tag id : ℕ) (owner fee_payer obligation lending_market seed1 seed2 user_metadata program : K)
      → Call K
  create_lookup_table : (authority payer table : K) → Call K
  init_user_metadata :
      (lookup_table owner fee_payer user_metadata referrer_metadata program : K) → Call K
  init_referrer_token_state :
      (referrer lending_market payer reserve token_state program : K) → Call K
  create_ata : (payer ata owner mint token_program : K) → Call K
  transfer : (source target : K) (lamports : ℕ) → Call K
  sync_native : (account : K) → Call K
  close_account : (account destination owner : K) → Call K
  deposit_reserve_liquidity_and_obligation_collateral :
      (amount : ℕ)
      (owner obligation lending_market authority reserve mint supply c_token_mint destination source
        placeholder token_program program : K)
      → Call K
  deposit_reserve_liquidity :
      (amount : ℕ)
      (owner lending_market authority reserve mint supply c_token_mint source destination
        token_program program : K)
      → Call K
  redeem_reserve_collateral :
      (amount : ℕ)
      (owner lending_market authority reserve mint supply c_token_mint source destination
        token_program program : K)
      → Call K
  deposit_obligation_collateral :
      (amount : ℕ) (owner obligation lending_market reserve destination source program : K) → Call K
  borrow_obligation_liquidity :
      (amount : ℕ)
      (owner obligation lending_market authority reserve mint supply destination fee_receiver
        referrer_token_state token_program program : K)
      → Call K
  repay_obligation_liquidity :
      (amount : ℕ)
      (owner obligation lending_market reserve mint source supply token_program program : K)
      → Call K
  withdraw_obligation_collateral_and_redeem_reserve_collateral :
      (amount : ℕ)
      (owner obligation lending_market authority reserve mint c_token_mint supply source destination
        placeholder token_program program : K)
      → Call K
  liquidate_obligation_and_redeem_reserve_collateral :
      (amount min_received max_ltv_override : ℕ)
      (liquidator obligation lending_market authority : K)
      (repay_reserve repay_mint repay_supply : K)
      (withdraw_reserve withdraw_mint withdraw_c_token_mint withdraw_collateral withdraw_supply : K)
      (source destination_collateral destination_liquidity fee_receiver : K)
      (repay_token_program withdraw_token_program program : K)
      → Call K
  withdraw_referrer_fees :
      (referrer lending_market reserve mint token_state supply token_account authority token_program
        program : K)
      → Call K

-- `TransactionInstruction`: a builder's call, and the keys concatenated to those of the builder.
pub record Instruction (K : Type 0) : Type 0 where
  pub call : Call K
  pub more_keys : List (KeyMeta K)

-- A label: its fixed text and the keys and numbers that the template inserts.
pub data Part (K : Type 0) : Type 0 where
  key : K → Part K
  number : ℕ → Part K
  kind : ReserveFarmKind → Part K

pub record Label (K : Type 0) : Type 0 where
  pub name : String
  pub parts : List (Part K)

-- An array of instructions and the array of their labels.
pub record Queue (K : Type 0) : Type 0 where
  pub ixs : List (Instruction K)
  pub labels : List (Label K)
