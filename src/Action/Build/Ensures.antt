-- ===== src/Action/Build/Ensures.antt =====
-- What a builder of src/classes/action.ts ensures if it returns: the lending instructions counted, and the labels.
use Prim.Native.String.{String}
use klend_sdk.Prelude.{ℕ, suc, [], ◌∷◌, ◌≡◌, refl, ◌∙◌, ap, length, length-append, arith}
use mathlib.Core.Path.{subst}
use klend_sdk.Prelude.Outcome.{Outcome, ok, error, ◌>>=◌, ok-injective}
use klend_sdk.Action.Data.{Instruction, Label}
use klend_sdk.Action.State.{KaminoAction}
use klend_sdk.Action.Lending.{push_lending}
use klend_sdk.Action.Frame.{push-IsPaired, IsLabelled, Supports, Returns}

-- The value has the property, if there is one.
pub record Ensures {X : Type 0} (P : X → Type 0) (r : Outcome X) : Type 0 where
  pub at : (b : X) → r ≡ ok b → P b

module _ {X : Type 0} {P : X → Type 0} where
  pub Ensures-ok : (b : X) → P b → Ensures P (ok b)
  Ensures-ok b h = record { at = λ c e. subst P (ok-injective b c e) h }

  Ensures-error : (message : String) → Ensures P (error message)
  Ensures-error message = record { at = λ c e. cc }

  pub Ensures-read {κ} :
      {Y : Type κ} (m : Outcome Y) (f : Y → Outcome X)
      → ((y : Y) → Ensures P (f y))
      → Ensures P (m >>= f)
  Ensures-read (ok y) f h = h y
  Ensures-read (error message) f h = Ensures-error message

  pub Ensures-bind :
      {Y : Type 0} {Q : Y → Type 0} (m : Outcome Y) (f : Y → Outcome X)
      → Ensures Q m
      → ((y : Y) → Q y → Ensures P (f y))
      → Ensures P (m >>= f)
  Ensures-bind (ok y) f q h = h y (q.at y refl)
  Ensures-bind (error message) f q h = Ensures-error message

module _ {K D : Type 0} where
  -- `n` lending instructions, and every instruction with its label.
  pub record HasLending (n : ℕ) (a : KaminoAction K D) : Type 0 where
    pub counted : length a.lending_ixs.ixs ≡ n
    pub labelled : IsLabelled a

  pub Supports-HasLending :
      {n : ℕ} {a b : KaminoAction K D} → Supports a b → HasLending n a → HasLending n b
  Supports-HasLending s h = record {
    counted = ap (λ q. length q.ixs) s.lending_kept ∙ h.counted;
    labelled = s.labelled h.labelled;
  }

  pub Returns-HasLending :
      {n : ℕ} {a : KaminoAction K D} {r : Outcome (KaminoAction K D)}
      → Returns a r
      → HasLending n a
      → Ensures (HasLending n) r
  Returns-HasLending s h = record { at = λ b e. Supports-HasLending (s.at b e) h }

  pub push_lending-HasLending :
      {n : ℕ} (i : Instruction K) (l : Label K) (a : KaminoAction K D)
      → HasLending n a
      → HasLending (suc n) (push_lending i l a)
  push_lending-HasLending i l a h = record {
    counted = omega (arith, h.counted, length-append a.lending_ixs.ixs (i ∷ []));
    labelled = record {
      setup_paired = h.labelled.setup_paired;
      in_between_paired = h.labelled.in_between_paired;
      lending_paired = push-IsPaired i l a.lending_ixs h.labelled.lending_paired;
      cleanup_paired = h.labelled.cleanup_paired;
      pre_txn_paired = h.labelled.pre_txn_paired;
      post_txn_paired = h.labelled.post_txn_paired;
      farms_paired = h.labelled.farms_paired;
    };
  }
