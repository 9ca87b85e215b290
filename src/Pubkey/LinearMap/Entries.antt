-- ===== src/Pubkey/LinearMap/Entries.antt =====
-- Arrays of entries of `PublicKeyMap` and of the buckets of `PubkeyHashMap` (src/utils/pubkey.ts):
-- reading, writing and removing the first entry of a key, by recursion.
use klend_sdk.Prelude.{
  List, [], ◌∷◌, ◌++◌, true, false, Option, none, some, ◌≡◌, refl, map, arith, if◌then◌else◌,
  length, ◌+◌,
}
use klend_sdk.Pubkey.Keys.{PublicKeys, includes, Distinct, equals_sym}

module _ {ℓ κ} {K : Type ℓ} {V : Type κ} ⦃p : PublicKeys K⦄ where
  -- The value under the first entry of a key.
  abbrev pub lookup : List (K × V) → K → Option V
  lookup [] key = none
  lookup ((k, w) ∷ es) key = if p.equals k key then some w else lookup es key

  pub lookup-append :
      (es ds : List (K × V)) (key : K)
      → lookup (es ++ ds) key ≡ (elim (lookup es key) [ some v ↦ some v | none ↦ lookup ds key ])
  lookup-append [] ds key = refl
  lookup-append ((k, w) ∷ es) ds key = ground (arith, lookup-append es ds key)

  -- The same by recursion on the array.
  abbrev pub put : List (K × V) → K → V → List (K × V)
  put [] key value = (key, value) ∷ []
  put ((k, w) ∷ es) key value =
      let rest = put es key value in if p.equals k key then (k, value) ∷ es else (k, w) ∷ rest

  abbrev pub drop_key : List (K × V) → K → List (K × V)
  drop_key [] key = []
  drop_key ((k, w) ∷ es) key =
      let rest = drop_key es key in if p.equals k key then es else (k, w) ∷ rest

  pub lookup-put :
      (es : List (K × V)) (key k : K) (value : V)
      → lookup (put es key value) k ≡ (if p.equals key k then some value else lookup es k)
  lookup-put [] key k value = refl
  lookup-put ((j, w) ∷ es) key k value =
      ground
        (arith, lookup-put es key k value, p.equals_iff j key, p.equals_iff j k, p.equals_iff key k)

  abbrev pub keys_of : List (K × V) → List K
  keys_of es = map (λ e. e.0) es

  pub lookup_absent :
      (es : List (K × V)) (key : K) → includes (keys_of es) key ≡ false → lookup es key ≡ none
  lookup_absent [] key h = refl
  lookup_absent ((j, w) ∷ es) key h = ground (arith, lookup_absent es key)

  pub lookup-drop_key :
      (es : List (K × V)) (key k : K)
      → Distinct (keys_of es)
      → lookup (drop_key es key) k ≡ (if p.equals key k then none else lookup es k)
  lookup-drop_key [] key k d = ground arith
  lookup-drop_key ((j, w) ∷ es) key k (new, d) = ground (
    arith,
    lookup-drop_key es key k d,
    lookup_absent es j new,
    p.equals_iff j key,
    p.equals_iff j k,
    p.equals_iff key k,
  )

  pub includes-put :
      (es : List (K × V)) (key k : K) (value : V)
      → includes (keys_of (put es key value)) k
        ≡ (if p.equals key k then true else includes (keys_of es) k)
  includes-put [] key k value = refl
  includes-put ((j, w) ∷ es) key k value =
      ground (arith, includes-put es key k value, p.equals_iff j key, p.equals_iff key k)

  pub put-Distinct :
      (es : List (K × V)) (key : K) (value : V)
      → Distinct (keys_of es)
      → Distinct (keys_of (put es key value))
  put-Distinct [] key value d = (refl, tt)
  put-Distinct ((j, w) ∷ es) key value (new, d) =
      ground (arith, put-Distinct es key value d, includes-put es key j value, equals_sym key j)

  pub includes-drop_key :
      (es : List (K × V)) (key k : K)
      → includes (keys_of es) k ≡ false
      → includes (keys_of (drop_key es key)) k ≡ false
  includes-drop_key [] key k h = refl
  includes-drop_key ((j, w) ∷ es) key k h = ground (arith, includes-drop_key es key k)

  pub drop_key-Distinct :
      (es : List (K × V)) (key : K) → Distinct (keys_of es) → Distinct (keys_of (drop_key es key))
  drop_key-Distinct [] key d = tt
  drop_key-Distinct ((j, w) ∷ es) key (new, d) =
      ground (arith, drop_key-Distinct es key d, includes-drop_key es key j new)

  pub length-put :
      (es : List (K × V)) (key : K) (value : V)
      → length (put es key value)
        ≡ (elim (lookup es key) [ some v ↦ length es | none ↦ length es + 1 ])
  length-put [] key value = omega arith
  length-put ((j, w) ∷ es) key value = ground (arith, length-put es key value)

  pub length-drop_key :
      (es : List (K × V)) (key : K)
      → length (drop_key es key) + (elim (lookup es key) [ some v ↦ 1 | none ↦ 0 ]) ≡ length es
  length-drop_key [] key = omega arith
  length-drop_key ((j, w) ∷ es) key = ground (arith, length-drop_key es key)
