-- ===== src/Action/Initialize.antt =====
-- The constructor of `KaminoAction` and the functions of src/classes/action.ts that prepare it: `initialize`,
-- `initializeMultiTokenAction`, `loadObligation`.
pub mod Limits
use Prim.Native.String.{String}
use klend_sdk.Prelude.{
  ℕ, ◌+◌, List, [], ◌∷◌, ◌++◌, Bool, true, false, Option, none, some, if◌then◌else◌, find, ltb,
  length, ◌⊎◌, inl, inr,
}
use klend_sdk.Prelude.Outcome.{Outcome, ok, error, ◌>>=◌, or_throw}
use klend_sdk.Pubkey.HashMap
use klend_sdk.Pubkey.Set
use klend_sdk.Pubkey.Keys.{PublicKeys}
use klend_sdk.Action.Interfaces.{Web3, key}
use klend_sdk.Action.Data.{
  KaminoMarket, KaminoReserve, KaminoObligation, Position, ActionType, deposit, borrow, liquidate,
  deposit_and_borrow, repay_and_withdraw,
}
use klend_sdk.Action.State.{KaminoAction, ObligationType, empty_queue}
use klend_sdk.Action.Keys.{obligation_pda_with_args}
use klend_sdk.Action.Ata.{position_limit}

-- `KaminoObligation | ObligationType`.
abbrev pub ObligationArg : Type 0 → Type 0 → Type 0
ObligationArg K D = KaminoObligation K D ⊎ ObligationType K

-- `VanillaObligation.toArgs` of src/utils/ObligationType.ts.
abbrev pub vanilla_obligation : {K : Type 0} ⦃p : PublicKeys K⦄ → K → ObligationType K
vanilla_obligation ⦃p⦄ program_id = record {
  tag = 0;
  id = 0;
  seed1 = p.default;
  seed2 = p.default;
  program_id = program_id;
}

pub record LoadedObligation (K D : Type 0) : Type 0 where
  pub kamino_obligation : Option (KaminoObligation K D)
  pub deposit_reserves : List K
  pub borrow_reserves : List K
  pub distinct_reserve_count : ℕ

module _ {K : Type 0} ⦃p : PublicKeys K⦄ ⦃w : Web3 K⦄ where
  -- `getAssociatedTokenAddress` of src/utils/ata.ts, as it is called.
  unfoldable pub get_associated_token_address : K → K → K → K
  get_associated_token_address mint owner program_id =
      w.find_program_address (key owner ∷ key program_id ∷ key mint ∷ [])
        w.associated_token_program_id

module _ {K : Type 0} where
  -- The reserves that the action adds to the borrows, and to the deposits.
  abbrev pub new_borrows : ActionType → K → List K
  new_borrows borrow reserve = reserve ∷ []
  new_borrows deposit_and_borrow reserve = reserve ∷ []
  new_borrows _ reserve = []

  abbrev pub new_deposits : ActionType → K → Option K → List K
  new_deposits deposit reserve outflow = reserve ∷ []
  new_deposits deposit_and_borrow reserve (some out) = out ∷ []
  new_deposits _ reserve outflow = []

  -- The accounts of a two-token action, for its inflow and outflow reserves: the token and the
  -- collateral account, the additional account, the mint and the secondary mint.
  abbrev pub multi_accounts : ActionType → K × K → K × K → K → K → Outcome ((K × K) × K × K × K)
  multi_accounts liquidate inflow outflow inflow_mint outflow_mint =
      ok (outflow, inflow.0, outflow_mint, inflow_mint)
  multi_accounts deposit_and_borrow inflow outflow inflow_mint outflow_mint =
      ok (inflow, outflow.0, inflow_mint, outflow_mint)
  multi_accounts repay_and_withdraw inflow outflow inflow_mint outflow_mint =
      ok ((inflow.0, outflow.1), outflow.0, inflow_mint, outflow_mint)
  multi_accounts _ inflow outflow inflow_mint outflow_mint = error "Invalid action"

  abbrev pub lacks_outflow : ActionType → Option K → Bool
  lacks_outflow deposit_and_borrow none = true
  lacks_outflow _ outflow = false

module _ {K : Type 0} ⦃p : PublicKeys K⦄ where
  abbrev pub distinct : List K → ℕ
  distinct ks = length (Set.to_array (Set.of_items ks))

module _ {K D : Type 0} ⦃p : PublicKeys K⦄ ⦃w : Web3 K⦄ where
  -- `getUserAccountAddresses`: the token account and the collateral account.
  unfoldable pub get_user_account_addresses : K → KaminoReserve K D → K × K
  unfolding get_associated_token_address
  get_user_account_addresses owner r = (
    get_associated_token_address r.liquidity_mint owner r.liquidity_token_program,
    get_associated_token_address r.c_token_mint owner w.token_program_id,
  )

  unfoldable pub found_obligation :
      (K → Option (KaminoObligation K D))
      → KaminoMarket K D
      → K
      → ObligationArg K D
      → Option (KaminoObligation K D)
  unfolding obligation_pda_with_args
  found_obligation load m owner (inl o) = some o
  found_obligation load m owner (inr t) = load (obligation_pda_with_args m.address owner t)

  -- The positions of the obligation, counted with those of the action.
  unfoldable pub loaded_obligation :
      ActionType → K → Option K → Option (KaminoObligation K D) → LoadedObligation K D
  unfolding Set.to_array Set.of_items HashMap.keys
  loaded_obligation action reserve outflow found =
      let deposits : List K = elim found [ none ↦ [] | some o ↦ HashMap.keys o.deposits ] in
      let borrows : List K = elim found [ none ↦ [] | some o ↦ HashMap.keys o.borrows ] in
      record {
        kamino_obligation = found;
        deposit_reserves = deposits;
        borrow_reserves = borrows;
        distinct_reserve_count =
            distinct (borrows ++ new_borrows action reserve)
            + distinct (deposits ++ new_deposits action reserve outflow);
      }

  -- `KaminoObligation.load` of an address is the argument `load`.
  unfoldable pub load_obligation :
      (K → Option (KaminoObligation K D))
      → ActionType
      → KaminoMarket K D
      → K
      → K
      → ObligationArg K D
      → Option K
      → Outcome (LoadedObligation K D)
  unfolding found_obligation loaded_obligation
  load_obligation load action m owner reserve arg outflow =
      let l = loaded_obligation action reserve outflow (found_obligation load m owner arg) in
      if lacks_outflow action outflow
      then error "Outflow reserve has not been set for depositAndBorrow"
      else if ltb position_limit l.distinct_reserve_count
      then error "Obligation already has max number of positions"
      else ok l

  unfoldable pub get_referrer_key : K → Option (KaminoObligation K D) → K → K
  get_referrer_key owner obligation referrer =
      if p.equals referrer p.default
      then elim obligation [
        | some o ↦ o.referrer
        | none ↦ elim (w.user_metadata owner) [ some m ↦ m.referrer | none ↦ referrer ]
      ]
      else referrer

  abbrev pub reserve_by_mint : List (KaminoReserve K D) → K → Option (KaminoReserve K D)
  reserve_by_mint rs address = find (λ r. p.equals r.liquidity_mint address) rs

  -- `getReserveByMint` of src/classes/market.ts.
  unfoldable pub get_reserve_by_mint : KaminoMarket K D → K → Option (KaminoReserve K D)
  unfolding HashMap.values
  get_reserve_by_mint m address = reserve_by_mint (HashMap.values m.reserves) address

  -- `kaminoObligation || obligation` as the field `obligationType`, which is not read beside an obligation.
  abbrev type_of_arg : KaminoMarket K D → ObligationArg K D → ObligationType K
  type_of_arg m (inl o) = vanilla_obligation m.program_id
  type_of_arg m (inr t) = t

  abbrev pub new_kamino_action :
      KaminoMarket K D
      → K
      → K
      → LoadedObligation K D
      → ObligationType K
      → K × K
      → K
      → ℕ
      → KaminoReserve K D
      → ℕ
      → Option K
      → Option K
      → Option (KaminoReserve K D)
      → Option ℕ
      → K
      → KaminoAction K D
  new_kamino_action m owner payer l t accounts mint amount r slot secondary additional out
        out_amount referrer =
      record {
        kamino_market = m;
        reserve = r;
        outflow_reserve = out;
        owner = owner;
        payer = payer;
        obligation = l.kamino_obligation;
        obligation_type = t;
        referrer = referrer;
        user_token_account_address = accounts.0;
        user_collateral_account_address = accounts.1;
        additional_token_account_address = additional;
        mint = mint;
        secondary_mint = secondary;
        positions = l.distinct_reserve_count;
        amount = amount;
        outflow_amount = out_amount;
        setup_ixs = empty_queue;
        in_between_ixs = empty_queue;
        lending_ixs = empty_queue;
        cleanup_ixs = empty_queue;
        pre_txn_ixs = empty_queue;
        post_txn_ixs = empty_queue;
        refresh_farms_cleanup_txn_ixs = empty_queue;
        deposit_reserves = l.deposit_reserves;
        borrow_reserves = l.borrow_reserves;
        pre_loaded_deposit_reserves_same_tx = [];
        pre_loaded_borrow_reserves_same_tx = [];
        current_slot = slot;
      }

  -- `payer ?? owner` is passed as the payer.
  unfoldable pub initialize :
      (K → Option (KaminoObligation K D))
      → ActionType
      → ℕ
      → K
      → K
      → KaminoMarket K D
      → ObligationArg K D
      → K
      → ℕ
      → K
      → Outcome (KaminoAction K D)
  unfolding load_obligation get_user_account_addresses get_referrer_key get_reserve_by_mint
  initialize load action amount mint owner m arg referrer slot payer = do
    r ← or_throw (get_reserve_by_mint m mint) "Reserve not found in market"
    l ← load_obligation load action m owner r.address arg none
    let referrer_key = get_referrer_key owner l.kamino_obligation referrer
    ok (
        new_kamino_action m owner payer l (type_of_arg m arg) (get_user_account_addresses payer r)
          mint amount r slot none none none none referrer_key)

  unfoldable pub initialize_multi_token_action :
      (K → Option (KaminoObligation K D))
      → KaminoMarket K D
      → ActionType
      → ℕ
      → K
      → K
      → K
      → K
      → ObligationArg K D
      → Option ℕ
      → K
      → ℕ
      → Outcome (KaminoAction K D)
  unfolding load_obligation get_user_account_addresses get_referrer_key get_reserve_by_mint
  initialize_multi_token_action load m action inflow_amount inflow_mint outflow_mint payer
        obligation_owner arg outflow_amount referrer slot =
      do
        r ← or_throw (get_reserve_by_mint m inflow_mint) "reserve states are not fetched"
        out ← or_throw (get_reserve_by_mint m outflow_mint) "reserve states are not fetched"
        l ← load_obligation load action m obligation_owner r.address arg (some out.address)
        let referrer_key = get_referrer_key payer l.kamino_obligation referrer
        accounts ←
            multi_accounts action (get_user_account_addresses payer r)
              (get_user_account_addresses payer out) inflow_mint outflow_mint
        ok (
            new_kamino_action m payer payer l (type_of_arg m arg) accounts.0 accounts.2
              inflow_amount r slot (some accounts.3) (some accounts.1) (some out) outflow_amount
              referrer_key)
