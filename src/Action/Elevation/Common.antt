-- ===== src/Action/Elevation/Common.antt =====
-- The elevation groups that both reserves name: `commonElevationGroups` of src/classes/action.ts.
use Prim.Native.String.{String}
use klend_sdk.Prelude.{
  ℕ, ◌-◌, List, [], ◌∷◌, Bool, true, false, Option, none, some, ◌≡◌, refl, ◌∙◌, ap, arith,
  if◌then◌else◌, Bool-cases, inl, inr, any, get_elem?, ◌==◌, ==_eq, ==_refl, sym, ◌⊎◌,
}
use mathlib.Core.Path.{subst}
use klend_sdk.Prelude.Outcome.{ok, ◌>>=◌, or_throw, >>=-eq-ok, ok-injective}
use klend_sdk.Pubkey.Keys.{PublicKeys, numbered_keys}
use klend_sdk.Action.Data.{ElevationGroup}
use klend_sdk.Action.Elevation.{is_common, common_elevation_groups}

-- `item` is one of the numbers.
abbrev pub In : List ℕ → ℕ → Type 0
In xs item = any (λ x. x == item) xs ≡ true

pub first-In : (x : ℕ) (xs : List ℕ) → In (x ∷ xs) x
first-In x xs = ground (arith, ==_refl x)

pub later-In : (x : ℕ) (xs : List ℕ) (i : ℕ) → In xs i → In (x ∷ xs) i
later-In x xs i h = ground arith

pub chosen-lem :
    (c : Bool) (x : ℕ) (more : List ℕ) (item : ℕ)
    → In (if c then x ∷ more else more) item
    → ((c ≡ true) × (x ≡ item)) ⊎ In more item
chosen-lem c x more item e = ground (arith, ==_eq x item)

pub read-lem : {A : Type 0} (o : Option A) (e : String) (a : A) → or_throw o e ≡ ok a → o ≡ some a
read-lem none e a h = cc
read-lem (some x) e a h = ap some (ok-injective x a h)

pub In-cases : (x : ℕ) (xs : List ℕ) (i : ℕ) → In (x ∷ xs) i → (x ≡ i) ⊎ In xs i
In-cases x xs i h = ground (arith, ==_eq x i)

pub widen-In :
    (c : Bool) (x y : ℕ) (xs : List ℕ) (i : ℕ)
    → In ((if c then x else y) ∷ xs) i
    → In (x ∷ y ∷ xs) i
widen-In true x y xs i h = ground arith
widen-In false x y xs i h = ground arith

pub some-injective : {A : Type 0} {x y : A} → some x ≡ some y → x ≡ y
some-injective h = cc

pub absurd-In : (i : ℕ) → In [] i → (P : Type 0) → P
absurd-In i h P = cc

pub kept-In :
    (c : Bool) (x : ℕ) (more : List ℕ) (i : ℕ)
    → c ≡ true
    → x ≡ i
    → In (if c then x ∷ more else more) i
kept-In c x more i h e = ground (arith, ==_refl i)

pub later-kept-In :
    (c : Bool) (x : ℕ) (more : List ℕ) (i : ℕ) → In more i → In (if c then x ∷ more else more) i
later-kept-In c x more i h = ground arith

module _ {K : Type 0} ⦃p : PublicKeys K⦄ where
  -- A group of the debt reserve's that lends it.
  abbrev pub Lends : List (ElevationGroup K) → List ℕ → K → ℕ → Type 0
  Lends groups groups_debt debt_reserve item =
      In groups_debt item
      × ((item == 0) ≡ false)
      × ((g : ElevationGroup K) × (get_elem? groups (item - 1) ≡ some g)
          × (p.equals g.debt_reserve debt_reserve ≡ true))

  pub found :
      (o : Option (ElevationGroup K)) (k : K)
      → (or_throw o "TypeError" >>= λ g. ok (p.equals g.debt_reserve k)) ≡ ok true
      → (g : ElevationGroup K) × (o ≡ some g) × (p.equals g.debt_reserve k ≡ true)
  found none k h = cc
  found (some g) k h = (g, refl, ok-injective (p.equals g.debt_reserve k) true h)

  pub is_common-lem :
      (groups : List (ElevationGroup K)) (gd : List ℕ) (k : K) (item : ℕ)
      → is_common groups gd k item ≡ ok true
      → Lends groups gd k item
  is_common-lem groups gd k item h = elim (Bool-cases (any (λ x. x == item) gd)) [
    | inr absent ↦ ground (arith)
    | inl present ↦ elim (Bool-cases (item == 0)) [
      | inl zeroth ↦ ground arith
      | inr absent ↦ (present, absent, found (get_elem? groups (item - 1)) k (ground arith))
    ]
  ]

  pub common-lem :
      (groups : List (ElevationGroup K)) (gc gd : List ℕ) (k : K) (common : List ℕ)
      → common_elevation_groups groups gc gd k ≡ ok common
      → (item : ℕ) → In common item
      → In gc item × Lends groups gd k item
  unfolding common_elevation_groups
  common-lem groups [] gd k common h item e = ground (arith, ok-injective [] common h)
  common-lem groups (x ∷ xs) gd k common h item e =
      let (c, hc, h') = >>=-eq-ok (is_common groups gd k x) _ h in
      let (more, hm, h'') = >>=-eq-ok (common_elevation_groups groups xs gd k) _ h' in
      let picked = subst (λ l. In l item) (sym (ok-injective _ _ h'')) e in
      elim (chosen-lem c x more item picked) [
        | inl (taken, same) ↦
            subst (λ i. In (x ∷ xs) i × Lends groups gd k i) same
              (first-In x xs, is_common-lem groups gd k x (hc ∙ ap ok taken))
        | inr later ↦
            let (a, b) = common-lem groups xs gd k more hm item later in (later-In x xs item a, b)
      ]

  pub common_complete :
      (groups : List (ElevationGroup K)) (gc gd : List ℕ) (k : K) (common : List ℕ)
      → common_elevation_groups groups gc gd k ≡ ok common
      → (item : ℕ) → In gc item
      → is_common groups gd k item ≡ ok true
      → In common item
  unfolding common_elevation_groups
  common_complete groups [] gd k common h item e y = absurd-In item e (In common item)
  common_complete groups (x ∷ xs) gd k common h item e y =
      let (c, hc, h') = >>=-eq-ok (is_common groups gd k x) _ h in
      let (more, hm, h'') = >>=-eq-ok (common_elevation_groups groups xs gd k) _ h' in
      subst (λ l. In l item) (ok-injective _ _ h'')
        (elim (In-cases x xs item e) [
          | inl here ↦
              let taken =
                ok-injective c true
                  (sym hc ∙ subst (λ i. is_common groups gd k i ≡ ok true) (sym here) y) in
              kept-In c x more item taken here
          | inr there ↦
              later-kept-In c x more item (common_complete groups xs gd k more hm item there y)
        ])
