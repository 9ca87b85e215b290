-- ===== src/Action/Frame.antt =====
-- The relation between an action of src/classes/action.ts before and after its support steps.
pub mod Steps
pub mod Accounts
pub mod Supporting
pub mod Requests
pub mod Whole
use Prim.Native.String.{String}
use klend_sdk.Prelude.{
  ℕ, ◌+◌, List, [], ◌∷◌, ◌++◌, Bool, true, false, Option, none, some, if◌then◌else◌, ◌≡◌, refl, ◌∙◌,
  length, length-append, arith,
}
use mathlib.Core.Path.{subst}
use klend_sdk.Prelude.Outcome.{ok-injective, Outcome, ok, error, ◌>>=◌, or_throw}
use klend_sdk.Action.Data.{AuxiliaryIx, setup, in_between, cleanup, Queue, Instruction, Label}
use klend_sdk.Action.State.{KaminoAction, push, push_to, push_front, push_back, unshift}

module _ {K : Type 0} where
  abbrev pub IsPaired : Queue K → Type 0
  IsPaired q = length q.ixs ≡ length q.labels

  pub push-IsPaired :
      (i : Instruction K) (l : Label K) (q : Queue K) → IsPaired q → IsPaired (push i l q)
  push-IsPaired i l q h =
      omega (arith, h, length-append q.ixs (i ∷ []), length-append q.labels (l ∷ []))

  pub push_front-IsPaired : (f q : Queue K) → IsPaired f → IsPaired q → IsPaired (push_front f q)
  push_front-IsPaired f q g h =
      omega (arith, g, h, length-append f.ixs q.ixs, length-append f.labels q.labels)

module _ {K D : Type 0} where
  -- Every instruction of the action has its label.
  pub record IsLabelled (a : KaminoAction K D) : Type 0 where
    pub setup_paired : IsPaired a.setup_ixs
    pub in_between_paired : IsPaired a.in_between_ixs
    pub lending_paired : IsPaired a.lending_ixs
    pub cleanup_paired : IsPaired a.cleanup_ixs
    pub pre_txn_paired : IsPaired a.pre_txn_ixs
    pub post_txn_paired : IsPaired a.post_txn_ixs
    pub farms_paired : IsPaired a.refresh_farms_cleanup_txn_ixs

  -- `b` comes from `a` by support steps.
  pub record Supports (a b : KaminoAction K D) : Type 0 where
    pub lending_kept : b.lending_ixs ≡ a.lending_ixs
    pub market_kept : b.kamino_market ≡ a.kamino_market
    pub reserve_kept : b.reserve ≡ a.reserve
    pub outflow_kept : b.outflow_reserve ≡ a.outflow_reserve
    pub amount_kept : b.amount ≡ a.amount
    pub labelled : IsLabelled a → IsLabelled b

  pub Supports-refl : (a : KaminoAction K D) → Supports a a
  Supports-refl a = record {
    lending_kept = refl;
    market_kept = refl;
    reserve_kept = refl;
    outflow_kept = refl;
    amount_kept = refl;
    labelled = λ h. h;
  }

  pub Supports-trans : {a b c : KaminoAction K D} → Supports a b → Supports b c → Supports a c
  Supports-trans s t = record {
    lending_kept = t.lending_kept ∙ s.lending_kept;
    market_kept = t.market_kept ∙ s.market_kept;
    reserve_kept = t.reserve_kept ∙ s.reserve_kept;
    outflow_kept = t.outflow_kept ∙ s.outflow_kept;
    amount_kept = t.amount_kept ∙ s.amount_kept;
    labelled = λ h. t.labelled (s.labelled h);
  }

  -- A step that may throw: if it returns, it is a support step.
  pub record Returns (a : KaminoAction K D) (r : Outcome (KaminoAction K D)) : Type 0 where
    pub at : (b : KaminoAction K D) → r ≡ ok b → Supports a b

  pub push_to-Supports :
      (phase : AuxiliaryIx) (i : Instruction K) (l : Label K) (a : KaminoAction K D)
      → Supports a (push_to phase i l a)
  push_to-Supports setup i l a = record {
    lending_kept = refl;
    market_kept = refl;
    reserve_kept = refl;
    outflow_kept = refl;
    amount_kept = refl;
    labelled = λ h. record {
      setup_paired = push-IsPaired i l a.setup_ixs h.setup_paired;
      in_between_paired = h.in_between_paired;
      lending_paired = h.lending_paired;
      cleanup_paired = h.cleanup_paired;
      pre_txn_paired = h.pre_txn_paired;
      post_txn_paired = h.post_txn_paired;
      farms_paired = h.farms_paired;
    };
  }
  push_to-Supports in_between i l a = ground (arith, push-IsPaired i l a.in_between_ixs)
  push_to-Supports cleanup i l a = ground (arith, push-IsPaired i l a.cleanup_ixs)

  pub Returns-ok : {a b : KaminoAction K D} → Supports a b → Returns a (ok b)
  Returns-ok {a} {b} s = record { at = λ c e. subst (Supports a) (ok-injective b c e) s }

  pub Returns-error : {a : KaminoAction K D} (e : String) → Returns a (error e)
  Returns-error e = record { at = λ c h. cc }

  pub Returns-bind :
      {a : KaminoAction K D} (m : Outcome (KaminoAction K D))
      (f : KaminoAction K D → Outcome (KaminoAction K D))
      → Returns a m
      → ((b : KaminoAction K D) → Returns b (f b))
      → Returns a (m >>= f)
  Returns-bind (ok b) f r k = record { at = λ c h. Supports-trans (r.at b refl) ((k b).at c h) }
  Returns-bind (error e) f r k = Returns-error e

  pub Returns-read {κ} :
      {a : KaminoAction K D} {X : Type κ} (m : Outcome X) (f : X → Outcome (KaminoAction K D))
      → ((x : X) → Returns a (f x))
      → Returns a (m >>= f)
  Returns-read (ok b) f k = k b
  Returns-read (error e) f k = Returns-error e

  pub Returns-if :
      {a : KaminoAction K D} (c : Bool) (r s : Outcome (KaminoAction K D))
      → Returns a r
      → Returns a s
      → Returns a (if c then r else s)
  Returns-if true r s h k = h
  Returns-if false r s h k = k

  pub Supports-if :
      {a : KaminoAction K D} (c : Bool) (x y : KaminoAction K D)
      → Supports a x
      → Supports a y
      → Supports a (if c then x else y)
  Supports-if true x y h k = h
  Supports-if false x y h k = k
