-- ===== src/Pubkey/LinearMap.antt =====
-- `PublicKeyMap` of src/utils/pubkey.ts: a map over an array of entries, searched from the front.
pub mod Entries
pub mod Laws
use klend_sdk.Prelude.{
  ℕ, zero, suc, List, [], ◌∷◌, ◌++◌, Bool, true, false, Option, none, some, ◌≡◌, refl, map, arith,
  if◌then◌else◌, Option-cases, inl, inr,
}
use klend_sdk.Pubkey.Keys.{PublicKeys, includes, Distinct, equals_refl, equals_sym}

-- The private array `record`.
pub record PublicKeyMap {ℓ κ} (K : Type ℓ) (V : Type κ) : Type (ℓ ⊔ κ) where
  pub entries : List (K × V)

module _ {ℓ κ} {K : Type ℓ} {V : Type κ} where
  abbrev pub empty : PublicKeyMap K V
  empty = record { entries = [] }

  unfoldable pub clear : PublicKeyMap K V → PublicKeyMap K V
  clear m = record { entries = [] }

  unfoldable pub keys : PublicKeyMap K V → List K
  keys m = map (λ e. e.0) m.entries

  unfoldable pub values : PublicKeyMap K V → List V
  values m = map (λ e. e.1) m.entries

  unfoldable pub is_empty : PublicKeyMap K V → Bool
  is_empty m = elim m.entries [ [] ↦ true | e ∷ es ↦ false ]

  -- `this.record[index].value = value`
  abbrev set_value : List (K × V) → ℕ → V → List (K × V)
  set_value [] i v = []
  set_value ((k, w) ∷ es) zero v = (k, v) ∷ es
  set_value ((k, w) ∷ es) (suc i) v = (k, w) ∷ set_value es i v

  -- `this.record[index].value`
  abbrev value_at : List (K × V) → ℕ → Option V
  value_at [] i = none
  value_at ((k, w) ∷ es) zero = some w
  value_at ((k, w) ∷ es) (suc i) = value_at es i

  -- `this.record.splice(index, 1)`
  abbrev pub splice : List (K × V) → ℕ → List (K × V)
  splice [] i = []
  splice (e ∷ es) zero = es
  splice (e ∷ es) (suc i) = e ∷ splice es i

module _ {ℓ κ} {K : Type ℓ} {V : Type κ} ⦃p : PublicKeys K⦄ where
  -- `none` is the index -1.
  unfoldable pub find_index : List (K × V) → K → Option ℕ
  find_index [] key = none
  find_index ((k, w) ∷ es) key =
      let rest : Option ℕ = elim (find_index es key) [ none ↦ none | some i ↦ some (suc i) ] in
      if p.equals k key then some 0 else rest

  unfoldable pub set : K → V → PublicKeyMap K V → PublicKeyMap K V
  set key value m = elim (find_index m.entries key) [
    | some i ↦ record { entries = set_value m.entries i value }
    | none ↦ record { entries = m.entries ++ (key, value) ∷ [] }
  ]

  unfoldable pub get : PublicKeyMap K V → K → Option V
  get m key = elim (find_index m.entries key) [ some i ↦ value_at m.entries i | none ↦ none ]

  unfoldable pub has : PublicKeyMap K V → K → Bool
  has m key = elim (find_index m.entries key) [ some i ↦ true | none ↦ false ]

  unfoldable pub delete : K → PublicKeyMap K V → PublicKeyMap K V
  delete key m = elim (find_index m.entries key) [
    | some i ↦ record { entries = splice m.entries i }
    | none ↦ m
  ]
