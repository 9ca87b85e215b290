-- ===== src/Action/Transactions.antt =====
-- `getTransactions` of src/classes/action.ts: the three transactions of an action.
use klend_sdk.Prelude.{List, [], ◌∷◌, ◌++◌, Option, none, some}
use klend_sdk.Action.Data.{Instruction}
use klend_sdk.Action.State.{KaminoAction}

-- The instructions of each transaction; `none` is null.
pub record Transactions (K : Type 0) : Type 0 where
  pub pre_lending_txn : Option (List (Instruction K))
  pub lending_txn : List (Instruction K)
  pub post_lending_txn : Option (List (Instruction K))

abbrev if_any {ℓ} : {A : Type ℓ} → List A → Option (List A)
if_any [] = none
if_any (i ∷ is) = some (i ∷ is)

module _ {K D : Type 0} where
  -- The instructions of the lending transaction, for the two lending instructions or another number.
  abbrev pub lending_txn_of : KaminoAction K D → List (Instruction K) → List (Instruction K)
  lending_txn_of a (first ∷ second ∷ []) =
      a.setup_ixs.ixs ++ (first ∷ (a.in_between_ixs.ixs ++ (second ∷ a.cleanup_ixs.ixs)))
  lending_txn_of a lending = a.setup_ixs.ixs ++ (lending ++ a.cleanup_ixs.ixs)

  unfoldable pub get_transactions : KaminoAction K D → Transactions K
  get_transactions a = record {
    pre_lending_txn = if_any a.pre_txn_ixs.ixs;
    lending_txn = lending_txn_of a a.lending_ixs.ixs;
    post_lending_txn = if_any a.post_txn_ixs.ixs;
  }
