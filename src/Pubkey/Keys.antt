-- ===== src/Pubkey/Keys.antt =====
-- The interface of public keys, which the program takes from @solana/web3.js.
use klend_sdk.Prelude.{
  ℕ, ◌≡◌, refl, ◌↔◌, Bool, true, false, ◌==◌, ==_eq, arith, List, [], ◌∷◌, ◌++◌, any, filter, ap,
  if◌then◌else◌,
}

-- A key is held as a big integer, `_bn`; `equals` compares keys.
pub record PublicKeys {ℓ} (K : Type ℓ) : Type ℓ where
  pub equals : K → K → Bool
  pub bn : K → ℕ
  pub default : K
  pub null_pubkey : K
  pub equals_iff : (a b : K) → (equals a b ≡ true) ↔ (a ≡ b)

pub ==_iff : (a b : ℕ) → ((a == b) ≡ true) ↔ (a ≡ b)
==_iff a b = (==_eq a b, λ e. ground arith)

-- Numbers can stand for keys.
instance abbrev pub numbered_keys : PublicKeys ℕ
numbered_keys = record {
  equals = ◌==◌;
  bn = λ k. k;
  default = 0;
  null_pubkey = 1;
  equals_iff = ==_iff;
}

module _ {ℓ} {K : Type ℓ} ⦃p : PublicKeys K⦄ where
  pub equals_refl : (a : K) → p.equals a a ≡ true
  equals_refl a = (p.equals_iff a a).1 refl

  pub equals_sym : (a b : K) → p.equals a b ≡ p.equals b a
  equals_sym a b = ground (arith, p.equals_iff a b, p.equals_iff b a)

  -- `keys.some((x) => x.equals(k))`.
  abbrev pub includes : List K → K → Bool
  includes xs k = any (λ x. p.equals x k) xs

  pub includes-append :
      (xs ys : List K) (k : K)
      → includes (xs ++ ys) k ≡ (if includes xs k then true else includes ys k)
  includes-append [] ys k = refl
  includes-append (x ∷ xs) ys k = ground (arith, includes-append xs ys k)

  pub includes-filter :
      (f : K → Bool) (xs : List K) (k : K)
      → includes (filter f xs) k ≡ (if f k then includes xs k else false)
  includes-filter f [] k = ground arith
  includes-filter f (x ∷ xs) k =
      let alike : p.equals x k ≡ true → f x ≡ f k = λ e. ap f ((p.equals_iff x k).0 e) in
      ground (arith, includes-filter f xs k, alike)

  -- No key stands twice.
  abbrev pub Distinct : List K → Type 0
  Distinct [] = Unit
  Distinct (x ∷ xs) = (includes xs x ≡ false) × Distinct xs

  pub Distinct-snoc :
      (xs : List K) (k : K) → Distinct xs → includes xs k ≡ false → Distinct (xs ++ k ∷ [])
  Distinct-snoc [] k d h = (refl, tt)
  Distinct-snoc (x ∷ xs) k (new, d) h =
      ground (arith, Distinct-snoc xs k d, includes-append xs (k ∷ []) x, equals_sym k x)
