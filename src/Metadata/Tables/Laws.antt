-- ===== src/Metadata/Tables/Laws.antt =====
-- What the instructions of `extendLookupTableIxs` of src/utils/lookupTable.ts add to a table.
use native.Mathlib.Nat.{zero-add, suc-add}
use klend_sdk.Prelude.{
  ℕ, zero, suc, ◌+◌, ◌≤◌, ◌≡◌, refl, sym, ap, ◌∙◌, List, [], ◌∷◌, ◌++◌, ltb, length, take, drop,
  All, Bool-cases, inl, inr, ltb→lt, ltb→ge, take-append-drop, length-drop, arith,
}
use klend_sdk.Pubkey.Keys.{PublicKeys}
use klend_sdk.Metadata.Tables.{
  TableIx, extend_lookup_table, extend_from, extend_lookup_table_ixs, extend_lookup_table_chunk_ix,
}

-- The addresses that an instruction adds.
abbrev pub added : {K : Type 0} → TableIx K → List K
added (extend_lookup_table authority payer table addresses) = addresses
added _ = []

abbrev pub all_added : {K : Type 0} → List (TableIx K) → List K
all_added [] = []
all_added (ix ∷ ixs) = added ix ++ all_added ixs

-- The instruction extends the table, by at least one address and by no more than a transaction holds.
abbrev pub IsChunk : {K : Type 0} → K → TableIx K → Type 0
IsChunk t (extend_lookup_table authority payer table addresses) =
    (table ≡ t) × (1 ≤ length addresses) × (length addresses ≤ 25)
IsChunk t _ = ⊥

drop_none : {A : Type 0} (n : ℕ) → drop {A = A} n [] ≡ []
drop_none zero = refl
drop_none (suc n) = refl

drop-drop : {A : Type 0} (i n : ℕ) (xs : List A) → drop n (drop i xs) ≡ drop (i + n) xs
drop-drop zero n xs = rw zero-add refl
drop-drop (suc i) n [] = drop_none n ∙ sym (drop_none (suc i + n))
drop-drop (suc i) n (x ∷ xs) = rw suc-add (drop-drop i n xs)

drop_all : {A : Type 0} (i : ℕ) (xs : List A) → length xs ≤ i → drop i xs ≡ []
drop_all zero [] h = refl
drop_all zero (x ∷ xs) h = absurd (omega arith)
drop_all (suc i) [] h = refl
drop_all (suc i) (x ∷ xs) h = drop_all i xs (omega arith)

length-take-le : {A : Type 0} (n : ℕ) (xs : List A) → length (take n xs) ≤ n
length-take-le zero xs = omega arith
length-take-le (suc n) [] = omega arith
length-take-le (suc n) (x ∷ xs) = omega (arith, length-take-le n xs)

take_some : {A : Type 0} (n : ℕ) (xs : List A) → 1 ≤ length xs → 1 ≤ length (take (suc n) xs)
take_some n [] h = h
take_some n (x ∷ xs) h = omega arith

module _ {K : Type 0} ⦃p : PublicKeys K⦄ (wallet table payer : K) (keys : List K) where
  extend_from_lem :
      (fuel i : ℕ)
      → length keys ≤ i + fuel
      → (all_added (extend_from wallet table keys payer fuel i) ≡ drop i keys)
        × All (IsChunk table) (extend_from wallet table keys payer fuel i)
  unfolding extend_from extend_lookup_table_chunk_ix
  extend_from_lem zero i h = (sym (drop_all i keys (omega arith)), tt)
  extend_from_lem (suc fuel) i h = elim (Bool-cases (ltb i (length keys))) [
    | inl more ↦
        let rest = drop i keys in
        let later = extend_from_lem fuel (i + 25) (omega arith) in
        let whole : take 25 rest ++ all_added (extend_from wallet table keys payer fuel (i + 25))
            ≡ rest =
          ap (λ ks. take 25 rest ++ ks) (later.0 ∙ sym (drop-drop i 25 keys))
          ∙ take-append-drop 25 rest in
        let nonempty : 1 ≤ length rest =
          omega (arith, length-drop i keys, ltb→lt i (length keys) more) in
        rw more (whole, ((refl, take_some 24 rest nonempty, length-take-le 25 rest), later.1))
    | inr done ↦ rw done (sym (drop_all i keys (ltb→ge i (length keys) done)), tt)
  ]

  -- The extensions of a lookup table add together the given keys in their order, for any number of
  -- keys, and each of them extends the given table by 1 to 25 addresses; a round for each key is
  -- enough fuel.
  pub extend_lookup_table_ixs_lem :
      (all_added (extend_lookup_table_ixs wallet table keys payer) ≡ keys)
      × All (IsChunk table) (extend_lookup_table_ixs wallet table keys payer)
  unfolding extend_lookup_table_ixs
  extend_lookup_table_ixs_lem = extend_from_lem (length keys) 0 (omega arith)
