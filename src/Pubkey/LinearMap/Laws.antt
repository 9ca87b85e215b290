-- ===== src/Pubkey/LinearMap/Laws.antt =====
-- `PublicKeyMap` as a function from keys to values.
use klend_sdk.Prelude.{
  List, [], ◌∷◌, ◌++◌, true, false, none, some, ◌≡◌, refl, arith, if◌then◌else◌,
}
use klend_sdk.Pubkey.Keys.{PublicKeys, Distinct}
use klend_sdk.Pubkey.LinearMap.{
  PublicKeyMap, find_index, get, set, delete, has, splice, value_at, set_value,
}
use klend_sdk.Pubkey.LinearMap.Entries.{
  lookup, lookup-put, lookup-drop_key, put, put-Distinct, drop_key, drop_key-Distinct, keys_of,
}

module _ {ℓ κ} {K : Type ℓ} {V : Type κ} ⦃p : PublicKeys K⦄ where
  lookup-value_at :
      (es : List (K × V)) (key : K)
      → (elim (find_index es key) [ some i ↦ value_at es i | none ↦ none ]) ≡ lookup es key
  unfolding find_index
  lookup-value_at [] key = refl
  lookup-value_at ((k, w) ∷ es) key = ground (arith, lookup-value_at es key)

  pub get-eq-lookup : (m : PublicKeyMap K V) (key : K) → get m key ≡ lookup m.entries key
  unfolding get
  get-eq-lookup m key = lookup-value_at m.entries key

  -- What `set` does to the array.
  abbrev pub set_entries : List (K × V) → K → V → List (K × V)
  set_entries es key value = elim (find_index es key) [
    | some i ↦ set_value es i value
    | none ↦ es ++ (key, value) ∷ []
  ]

  set_entries-eq-put :
      (es : List (K × V)) (key : K) (value : V) → set_entries es key value ≡ put es key value
  unfolding find_index
  set_entries-eq-put [] key value = refl
  set_entries-eq-put ((k, w) ∷ es) key value = ground (arith, set_entries-eq-put es key value)

  pub entries-set :
      (m : PublicKeyMap K V) (key : K) (value : V)
      → (set key value m).entries ≡ put m.entries key value
  unfolding set
  entries-set m key value = ground (arith, set_entries-eq-put m.entries key value)

  drop_entries-eq-drop_key :
      (es : List (K × V)) (key : K)
      → (elim (find_index es key) [ some i ↦ splice es i | none ↦ es ]) ≡ drop_key es key
  unfolding find_index
  drop_entries-eq-drop_key [] key = refl
  drop_entries-eq-drop_key ((k, w) ∷ es) key = ground (arith, drop_entries-eq-drop_key es key)

  pub entries-delete :
      (m : PublicKeyMap K V) (key : K) → (delete key m).entries ≡ drop_key m.entries key
  unfolding delete
  entries-delete m key = ground (arith, drop_entries-eq-drop_key m.entries key)

  -- No key has two entries.
  abbrev pub IsValid : PublicKeyMap K V → Type 0
  IsValid m = Distinct (keys_of m.entries)

  pub set-IsValid :
      (m : PublicKeyMap K V) (key : K) (value : V) → IsValid m → IsValid (set key value m)
  set-IsValid m key value v = rw (entries-set m key value) (put-Distinct m.entries key value v)

  pub delete-IsValid : (m : PublicKeyMap K V) (key : K) → IsValid m → IsValid (delete key m)
  delete-IsValid m key v = rw (entries-delete m key) (drop_key-Distinct m.entries key v)

  pub get-set :
      (m : PublicKeyMap K V) (key k : K) (value : V)
      → get (set key value m) k ≡ (if p.equals key k then some value else get m k)
  get-set m key k value =
      rw (get-eq-lookup (set key value m) k, get-eq-lookup m k, entries-set m key value)
        (lookup-put m.entries key k value)

  pub get-delete :
      (m : PublicKeyMap K V) (key k : K)
      → IsValid m
      → get (delete key m) k ≡ (if p.equals key k then none else get m k)
  get-delete m key k v =
      rw (get-eq-lookup (delete key m) k, get-eq-lookup m k, entries-delete m key)
        (lookup-drop_key m.entries key k v)

  has-lookup :
      (es : List (K × V)) (k : K)
      → (elim (find_index es k) [ some i ↦ true | none ↦ false ])
        ≡ (elim (lookup es k) [ some v ↦ true | none ↦ false ])
  unfolding find_index
  has-lookup [] k = refl
  has-lookup ((j, w) ∷ es) k = ground (arith, has-lookup es k)

  -- `has` of a PublicKeyMap is true exactly if `get` finds a value.
  pub has-get :
      (m : PublicKeyMap K V) (k : K) → has m k ≡ (elim (get m k) [ some v ↦ true | none ↦ false ])
  unfolding has
  has-get m k = rw (get-eq-lookup m k) (has-lookup m.entries k)
