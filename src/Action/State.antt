-- ===== src/Action/State.antt =====
-- The state of `KaminoAction` (src/classes/action.ts): its fields, its queues of instructions, and the
-- keys that it derives.
use Prim.Native.String.{String}
use klend_sdk.Prelude.{ℕ, List, [], ◌∷◌, ◌++◌, true, false, Option, map}
use klend_sdk.Action.Data.{
  KaminoMarket, KaminoReserve, KaminoObligation, AuxiliaryIx, setup, in_between, cleanup, Queue,
  Call, Instruction, Label, Part,
}

-- `obligationType!.toArgs()`, and the program that the type was made with.
pub record ObligationType (K : Type 0) : Type 0 where
  pub tag : ℕ
  pub id : ℕ
  pub seed1 : K
  pub seed2 : K
  pub program_id : K

-- Where an obligation was passed, `obligation_type` is null in the code and is never read.
pub record KaminoAction (K D : Type 0) : Type 0 where
  pub kamino_market : KaminoMarket K D
  pub reserve : KaminoReserve K D
  pub outflow_reserve : Option (KaminoReserve K D)
  pub owner : K
  pub payer : K
  pub obligation : Option (KaminoObligation K D)
  pub obligation_type : ObligationType K
  pub referrer : K
  pub user_token_account_address : K
  pub user_collateral_account_address : K
  pub additional_token_account_address : Option K
  pub mint : K
  pub secondary_mint : Option K
  pub positions : ℕ
  pub amount : ℕ
  pub outflow_amount : Option ℕ
  pub setup_ixs : Queue K
  pub in_between_ixs : Queue K
  pub lending_ixs : Queue K
  pub cleanup_ixs : Queue K
  pub pre_txn_ixs : Queue K
  pub post_txn_ixs : Queue K
  pub refresh_farms_cleanup_txn_ixs : Queue K
  pub deposit_reserves : List K
  pub borrow_reserves : List K
  pub pre_loaded_deposit_reserves_same_tx : List K
  pub pre_loaded_borrow_reserves_same_tx : List K
  pub current_slot : ℕ

module _ {K : Type 0} where
  abbrev pub empty_queue : Queue K
  empty_queue = record { ixs = []; labels = [] }

  abbrev pub ix : Call K → Instruction K
  ix c = record { call = c; more_keys = [] }

  -- `keys.concat(..)`, each key writable and no signer.
  abbrev pub ix_with : Call K → List K → Instruction K
  ix_with c ks = record {
    call = c;
    more_keys = map (λ k. record { pubkey = k; is_signer = false; is_writable = true }) ks;
  }

  abbrev pub label : String → List (Part K) → Label K
  label name parts = record { name = name; parts = parts }

  abbrev pub push : Instruction K → Label K → Queue K → Queue K
  push i l q = record { ixs = q.ixs ++ i ∷ []; labels = q.labels ++ l ∷ [] }

  abbrev pub unshift : Instruction K → Label K → Queue K → Queue K
  unshift i l q = record { ixs = i ∷ q.ixs; labels = l ∷ q.labels }

  -- `ixs.splice(0, 0, ...front)`, and `unshift(...front)`.
  abbrev pub push_front : Queue K → Queue K → Queue K
  push_front front q = record { ixs = front.ixs ++ q.ixs; labels = front.labels ++ q.labels }

  abbrev pub push_back : Queue K → Queue K → Queue K
  push_back back q = record { ixs = q.ixs ++ back.ixs; labels = q.labels ++ back.labels }

module _ {K D : Type 0} where
  -- `this.setupIxs`, `this.inBetweenIxs` or `this.cleanupIxs`.
  abbrev pub queue : AuxiliaryIx → KaminoAction K D → Queue K
  queue setup a = a.setup_ixs
  queue in_between a = a.in_between_ixs
  queue cleanup a = a.cleanup_ixs

  abbrev pub with_queue : AuxiliaryIx → Queue K → KaminoAction K D → KaminoAction K D
  with_queue setup q a = record a { setup_ixs = q }
  with_queue in_between q a = record a { in_between_ixs = q }
  with_queue cleanup q a = record a { cleanup_ixs = q }

  abbrev pub push_to : AuxiliaryIx → Instruction K → Label K → KaminoAction K D → KaminoAction K D
  push_to phase i l a = with_queue phase (push i l (queue phase a)) a
