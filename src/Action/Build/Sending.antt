-- ===== src/Action/Build/Sending.antt =====
-- The lending transaction of a two-token action: getTransactions of src/classes/action.ts.
use klend_sdk.Prelude.{ℕ, List, [], ◌∷◌, ◌++◌, Option, ◌≡◌, refl, length, arith}
use klend_sdk.Prelude.Outcome.{ok}
use klend_sdk.Pubkey.Keys.{PublicKeys}
use klend_sdk.Action.Interfaces.{Web3, Decimals}
use klend_sdk.Action.Data.{Instruction, KaminoMarket, KaminoObligation}
use klend_sdk.Action.State.{KaminoAction}
use klend_sdk.Action.Initialize.{ObligationArg}
use klend_sdk.Action.Transactions.{get_transactions, lending_txn_of}
use klend_sdk.Action.Build.{BuildOptions, build_deposit_and_borrow_txns}
use klend_sdk.Action.Build.Ensures.{HasLending}
use klend_sdk.Action.Build.Builders.{build_deposit_and_borrow_txns-HasLending}

module _ {K D : Type 0} where
  -- The transaction is the set-up, the first step, the instructions in between, the second step, the clean-up.
  abbrev pub Interleaves : KaminoAction K D → Type 0
  Interleaves a =
      (first second : Instruction K) × (a.lending_ixs.ixs ≡ first ∷ second ∷ [])
      × ((get_transactions a).lending_txn
          ≡ a.setup_ixs.ixs ++ (first ∷ (a.in_between_ixs.ixs ++ (second ∷ a.cleanup_ixs.ixs))))

  two_steps :
      (a : KaminoAction K D) (is : List (Instruction K))
      → length is ≡ 2
      → (first second : Instruction K) × (is ≡ first ∷ second ∷ [])
        × (lending_txn_of a is
            ≡ a.setup_ixs.ixs ++ (first ∷ (a.in_between_ixs.ixs ++ (second ∷ a.cleanup_ixs.ixs))))
  two_steps a [] h = ground arith
  two_steps a (i ∷ []) h = ground arith
  two_steps a (i ∷ j ∷ []) h = (i, j, refl, refl)
  two_steps a (i ∷ j ∷ k ∷ is) h = ground arith

  HasLending-Interleaves : (a : KaminoAction K D) → HasLending 2 a → Interleaves a
  unfolding get_transactions
  HasLending-Interleaves a h = two_steps a a.lending_ixs.ixs h.counted

module _ {K D : Type 0} ⦃p : PublicKeys K⦄ ⦃w : Web3 K⦄ ⦃d : Decimals D⦄
    (load : K → Option (KaminoObligation K D)) (m : KaminoMarket K D) (opts : BuildOptions K) where
  -- If the builder of a deposit with a borrow returns, the action has exactly two lending
  -- instructions, and its lending transaction is the set-up instructions, the first of the two, the
  -- in-between instructions, the second of the two, and the clean-up instructions, in this order.
  pub build_deposit_and_borrow_txns-Interleaves :
      (amount : ℕ) (deposit_mint : K) (borrow_amount : ℕ) (borrow_mint payer : K)
      (arg : ObligationArg K D) (b : KaminoAction K D)
      → build_deposit_and_borrow_txns load m amount deposit_mint borrow_amount borrow_mint payer arg
          opts
        ≡ ok b
      → Interleaves b
  build_deposit_and_borrow_txns-Interleaves amount deposit_mint borrow_amount borrow_mint payer arg
        b h =
      HasLending-Interleaves b (
        (build_deposit_and_borrow_txns-HasLending load m opts amount deposit_mint borrow_amount
            borrow_mint payer arg).at
          b h)
