-- ===== src/Pubkey/Set.antt =====
-- `PublicKeySet` of src/utils/pubkey.ts, over an array.
use klend_sdk.Prelude.{
  List, [], ◌∷◌, ◌++◌, Bool, true, ◌≡◌, ◌≤◌, ◌+◌, length, length-append, arith, if◌then◌else◌,
}
use klend_sdk.Pubkey.Keys.{PublicKeys, includes, includes-append, Distinct, Distinct-snoc}

-- The private array `items`.
pub record PublicKeySet {ℓ} (K : Type ℓ) : Type ℓ where
  pub items : List K

module _ {ℓ} {K : Type ℓ} ⦃p : PublicKeys K⦄ where
  unfoldable pub contains : PublicKeySet K → K → Bool
  contains s item = includes s.items item

  unfoldable pub add : K → PublicKeySet K → PublicKeySet K
  unfolding contains
  add item s = if contains s item then s else record { items = s.items ++ item ∷ [] }

  unfoldable pub add_all : PublicKeySet K → List K → PublicKeySet K
  add_all s [] = s
  add_all s (item ∷ rest) = add_all (add item s) rest

  -- The constructor.
  unfoldable pub of_items : List K → PublicKeySet K
  unfolding add_all
  of_items items = add_all (record { items = [] }) items

  unfoldable pub to_array : PublicKeySet K → List K
  to_array s = s.items

  pub contains-add :
      (s : PublicKeySet K) (item k : K)
      → contains (add item s) k ≡ (if p.equals item k then true else contains s k)
  unfolding add
  contains-add s item k = ground (arith, includes-append s.items (item ∷ []) k, p.equals_iff item k)

  add-Distinct : (s : PublicKeySet K) (item : K) → Distinct s.items → Distinct (add item s).items
  unfolding add
  add-Distinct s item d = ground (arith, Distinct-snoc s.items item d)

  contains-add_all :
      (s : PublicKeySet K) (items : List K) (k : K)
      → contains (add_all s items) k ≡ (if contains s k then true else includes items k)
  unfolding add_all
  contains-add_all s [] k = ground arith
  contains-add_all s (item ∷ rest) k =
      ground (arith, contains-add_all (add item s) rest k, contains-add s item k)

  add_all-Distinct :
      (s : PublicKeySet K) (items : List K) → Distinct s.items → Distinct (add_all s items).items
  unfolding add_all
  add_all-Distinct s [] d = d
  add_all-Distinct s (item ∷ rest) d = add_all-Distinct (add item s) rest (add-Distinct s item d)

  length-add_all :
      (s : PublicKeySet K) (items : List K)
      → length (add_all s items).items ≤ length s.items + length items
  unfolding add_all add
  length-add_all s [] = omega arith
  length-add_all s (item ∷ rest) =
      ground (arith, length-add_all (add item s) rest, length-append s.items (item ∷ []))

  -- The array of a set built from an array holds exactly the keys of that array, each once, and is no
  -- longer than it.
  pub to_array-of_items :
      (items : List K)
      → ((k : K) → includes (to_array (of_items items)) k ≡ includes items k)
        × Distinct (to_array (of_items items))
        × (length (to_array (of_items items)) ≤ length items)
  unfolding to_array of_items contains
  to_array-of_items items = (
    contains-add_all (record { items = [] }) items,
    add_all-Distinct (record { items = [] }) items tt,
    omega (arith, length-add_all (record { items = [] }) items),
  )
