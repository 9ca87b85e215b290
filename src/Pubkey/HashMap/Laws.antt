-- ===== src/Pubkey/HashMap/Laws.antt =====
-- `PubkeyHashMap` as a function from keys to values, with its size.
use klend_sdk.Prelude.{
  ℕ, ◌+◌, ◌<◌, List, [], ◌∷◌, none, some, ◌≡◌, refl, arith, if◌then◌else◌, length,
}
use klend_sdk.Pubkey.Keys.{PublicKeys}
use klend_sdk.Pubkey.LinearMap.Entries.{lookup, lookup-put, put, put-Distinct, drop_key, length-put}
use klend_sdk.Pubkey.HashMap.{PubkeyHashMap, hash_code, flatten, get, set}
use klend_sdk.Pubkey.HashMap.JsMap.{map_set}
use klend_sdk.Pubkey.HashMap.Buckets.{
  ValidBuckets, HasHash, bucket, find_entry-eq-lookup, assign-eq-put, map_set-ValidBuckets,
  length-map_set, bucket-HasHash, bucket-map_set,
}

module _ {ℓ κ} {K : Type ℓ} {V : Type κ} ⦃p : PublicKeys K⦄ where
  -- Well-formed buckets, with their entries counted by `size`.
  pub record IsWellFormed (m : PubkeyHashMap K V) : Type (ℓ ⊔ κ) where
    pub valid : ValidBuckets m.buckets
    pub counted : m.size ≡ length (flatten m.buckets)

  -- The bucket that a key belongs to.
  abbrev pub bucket_of : PubkeyHashMap K V → K → List (K × V)
  bucket_of m key = bucket m.buckets (hash_code key)

  pub get-eq-lookup : (m : PubkeyHashMap K V) (key : K) → get m key ≡ lookup (bucket_of m key) key
  unfolding get
  get-eq-lookup m key = ground (arith, find_entry-eq-lookup (bucket_of m key) key)

  buckets-set :
      (m : PubkeyHashMap K V) (key : K) (value : V)
      → (set key value m).buckets
        ≡ map_set m.buckets (hash_code key) (put (bucket_of m key) key value)
  unfolding set
  buckets-set m key value = ground (arith, assign-eq-put (bucket_of m key) key value)

  pub size-set :
      (m : PubkeyHashMap K V) (key : K) (value : V)
      → (set key value m).size ≡ (elim (get m key) [ some v ↦ m.size | none ↦ m.size + 1 ])
  unfolding set get
  size-set m key value = ground arith

  put-HasHash :
      (h : ℕ) (es : List (K × V)) (key : K) (value : V)
      → HasHash h es
      → hash_code key ≡ h
      → HasHash h (put es key value) × (0 < length (put es key value))
  put-HasHash h [] key value v e = ((e, tt), omega arith)
  put-HasHash h ((k, w) ∷ es) key value v e = ground (arith, put-HasHash h es key value)

  pub drop_key-HasHash :
      (h : ℕ) (es : List (K × V)) (key : K) → HasHash h es → HasHash h (drop_key es key)
  drop_key-HasHash h [] key v = tt
  drop_key-HasHash h ((k, w) ∷ es) key v = ground (arith, drop_key-HasHash h es key)

  -- `set` keeps a map well formed: each bucket stands under the hash of all its keys, no hash and no
  -- key stands twice, no bucket is empty, and `size` counts the entries.
  pub set-IsWellFormed :
      (m : PubkeyHashMap K V) (key : K) (value : V)
      → IsWellFormed m
      → IsWellFormed (set key value m)
  set-IsWellFormed m key value w =
      let h = hash_code key in
      let b = bucket_of m key in
      let (hashed, distinct) = bucket-HasHash m.buckets h w.valid in
      let (hashed', pos) = put-HasHash h b key value hashed refl in
      record {
        valid = rw (buckets-set m key value) (
            map_set-ValidBuckets m.buckets h (put b key value) w.valid hashed' pos
              (put-Distinct b key value distinct));
        counted =
            rw (buckets-set m key value, size-set m key value, get-eq-lookup m key)
              (ground (
                arith,
                w.counted,
                length-put b key value,
                length-map_set m.buckets h (put b key value),
              ));
      }

  -- After `set` of a key, `get` returns the new value for that key and what it returned before for any
  -- other key, colliding hashes included.
  pub get-set :
      (m : PubkeyHashMap K V) (key k : K) (value : V)
      → get (set key value m) k ≡ (if p.equals key k then some value else get m k)
  get-set m key k value =
      rw (get-eq-lookup (set key value m) k, get-eq-lookup m k, buckets-set m key value)
        (ground (
          arith,
          bucket-map_set m.buckets (hash_code key) (hash_code k) (put (bucket_of m key) key value),
          lookup-put (bucket_of m key) key k value,
          p.equals_iff key k,
        ))
