-- ===== src/Pubkey/Counting.antt =====
-- Arrays of keys of src/utils/pubkey.ts that hold the same keys, each once, are equally long.
use klend_sdk.Prelude.{
  ◌≡◌, ◌≤◌, ◌<◌, refl, sym, ap, ◌∙◌, List, [], ◌∷◌, true, not, filter, length, Bool-cases, inl, inr,
  arith,
}
use mathlib.Core.Bool.{false≢true}
use klend_sdk.Pubkey.Keys.{PublicKeys, includes, includes-filter, Distinct, equals_refl}

module _ {K : Type 0} ⦃p : PublicKeys K⦄ where
  -- The keys but one.
  abbrev without : K → List K → List K
  without x ys = filter (λ y. not (p.equals y x)) ys

  length-without_le : (x : K) (ys : List K) → length (without x ys) ≤ length ys
  length-without_le x [] = omega arith
  length-without_le x (y ∷ ys) = ground (arith, length-without_le x ys)

  length-without : (x : K) (ys : List K) → includes ys x ≡ true → length (without x ys) < length ys
  length-without x [] h = cc
  length-without x (y ∷ ys) h = elim (Bool-cases (p.equals y x)) [
    | inl same ↦ let shorter = length-without_le x ys in rw same (omega (arith, shorter))
    | inr other ↦
        let later : includes ys x ≡ true = rw other at h in
        let shorter = length-without x ys later in rw other (omega (arith, shorter))
  ]

  Distinct-length :
      (xs ys : List K)
      → Distinct xs
      → ((k : K) → includes xs k ≡ true → includes ys k ≡ true)
      → length xs ≤ length ys
  Distinct-length [] ys d h = omega arith
  Distinct-length (x ∷ xs) ys (new, d) h =
      let first : includes ys x ≡ true = h x (rw (equals_refl x) refl) in
      let others : (k : K) → includes xs k ≡ true → includes (without x ys) k ≡ true = λ k e.
        elim (Bool-cases (p.equals k x)) [
          | inl same ↦
              let again : includes xs x ≡ true =
                ap (includes xs) (sym ((p.equals_iff k x).0 same)) ∙ e in
              absurd (false≢true (sym new ∙ again))
          | inr other ↦
              let held : includes ys k ≡ true = h k (ground arith) in
              let kept = includes-filter (λ y. not (p.equals y x)) ys k in kept ∙ (rw other held)
        ] in
      let shorter = length-without x ys first in
      let rest = Distinct-length xs (without x ys) d others in omega (arith, shorter, rest)

  -- The same keys.
  pub length_unique :
      (xs ys : List K)
      → Distinct xs
      → Distinct ys
      → ((k : K) → includes xs k ≡ includes ys k)
      → length xs ≡ length ys
  length_unique xs ys dx dy same =
      let up = Distinct-length xs ys dx (λ k e. sym (same k) ∙ e) in
      let down = Distinct-length ys xs dy (λ k e. same k ∙ e) in omega (arith, up, down)
