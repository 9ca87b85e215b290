-- ===== src/Action/Keys.antt =====
-- The keys that an action derives (src/classes/action.ts, src/utils/seeds.ts, src/utils/ObligationType.ts),
-- and the list of its deposit reserves.
pub mod Loading
use Prim.Native.String.{String}
use klend_sdk.Prelude.{
  ℕ, List, [], ◌∷◌, ◌++◌, Bool, true, false, Option, none, some, if◌then◌else◌, map, filter, not,
}
use klend_sdk.Pubkey.Keys.{PublicKeys, includes}
use klend_sdk.Pubkey.{is_not_null_pubkey}
use klend_sdk.Action.Interfaces.{Seed, text, byte, key, Web3}
use klend_sdk.Action.Data.{
  KaminoMarket, KaminoReserve, KaminoObligation, AuxiliaryIx, setup, in_between, cleanup, Queue,
  Call, Instruction, Label, Part, KeyMeta,
}
use klend_sdk.Action.State.{ObligationType, KaminoAction}

module _ {K : Type 0} ⦃p : PublicKeys K⦄ ⦃w : Web3 K⦄ where
  -- `optionalAccount`: the program stands for a key that is not configured.
  unfoldable pub optional_account : K → K → K
  unfolding is_not_null_pubkey
  optional_account pubkey program_id = if is_not_null_pubkey pubkey then pubkey else program_id

  -- `getObligationPdaWithArgs` of src/utils/ObligationType.ts.
  unfoldable pub obligation_pda_with_args : K → K → ObligationType K → K
  obligation_pda_with_args market user t =
      w.find_program_address
        (byte t.tag ∷ byte t.id ∷ key user ∷ key market ∷ key t.seed1 ∷ key t.seed2 ∷ [])
        t.program_id

  -- `userMetadataPda` of src/utils/seeds.ts, by its key.
  unfoldable pub user_metadata_pda : K → K → K
  user_metadata_pda user program_id =
      w.find_program_address (text "user_meta" ∷ key user ∷ []) program_id

  -- `referrerTokenStatePda` of src/utils/seeds.ts, by its key.
  unfoldable pub referrer_token_state_pda : K → K → K → K
  referrer_token_state_pda referrer reserve program_id =
      if p.equals referrer p.default
      then program_id
      else w.find_program_address (text "referrer_acc" ∷ key referrer ∷ key reserve ∷ []) program_id

  -- The farm user state of an obligation.
  unfoldable pub farm_user_state_pda : K → K → K
  farm_user_state_pda farm obligation =
      w.find_program_address (text "user" ∷ key farm ∷ key obligation ∷ []) w.farms_id

module _ {K : Type 0} ⦃p : PublicKeys K⦄ where
  -- The loop over the preloaded deposit reserves pushes into `this.depositReserves` itself.
  unfoldable pub load_all : List K → List K → List K
  load_all reserves [] = reserves
  load_all reserves (r ∷ rest) =
      load_all (if includes reserves r then reserves else reserves ++ r ∷ []) rest

module _ {K D : Type 0} ⦃p : PublicKeys K⦄ ⦃w : Web3 K⦄ where
  unfoldable pub get_obligation_pda : KaminoAction K D → K
  get_obligation_pda a = elim a.obligation [
    | some o ↦ o.obligation_address
    | none ↦ obligation_pda_with_args a.kamino_market.address a.owner a.obligation_type
  ]

module _ {K D : Type 0} ⦃p : PublicKeys K⦄ where
  -- `getAdditionalDepositReservesList`: the list that it returns is `deposit_reserves` of the result.
  unfoldable pub get_additional_deposit_reserves_list : KaminoAction K D → KaminoAction K D
  unfolding load_all
  get_additional_deposit_reserves_list a = record a {
    deposit_reserves = load_all a.deposit_reserves a.pre_loaded_deposit_reserves_same_tx;
  }
