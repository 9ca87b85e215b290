-- ===== src/Pubkey/HashMap/Removal.antt =====
-- `delete` of `PubkeyHashMap`.
use klend_sdk.Prelude.{
  ℕ, ◌+◌, ◌-◌, List, [], ◌∷◌, none, some, ◌≡◌, ap, sym, ◌==◌, arith, if◌then◌else◌, length,
  Option-cases, inl, inr, ◌∙◌,
}
use mathlib.Core.Path.{subst}
use klend_sdk.Pubkey.Keys.{PublicKeys, Distinct}
use klend_sdk.Pubkey.LinearMap.Entries.{
  lookup-drop_key, drop_key, drop_key-Distinct, keys_of, length-drop_key,
}
use klend_sdk.Pubkey.HashMap.{PubkeyHashMap, hash_code, flatten, get, has, delete}
use klend_sdk.Pubkey.HashMap.JsMap.{map_set, map_delete}
use klend_sdk.Pubkey.HashMap.Buckets.{
  ValidBuckets, HasHash, bucket, find_entry-eq-lookup, splice-eq-drop_key, find_index-lookup,
  map_set-ValidBuckets, map_delete-ValidBuckets, length-map_set, length-map_delete, bucket-HasHash,
  bucket-map_set, bucket-map_delete,
}
use klend_sdk.Pubkey.HashMap.Laws.{IsWellFormed, bucket_of, get-eq-lookup, drop_key-HasHash}

module _ {ℓ κ} {K : Type ℓ} {V : Type κ} ⦃p : PublicKeys K⦄ where
  -- The buckets once the bucket of a removed key is `left`.
  abbrev shrunk : PubkeyHashMap K V → ℕ → List (K × V) → List (ℕ × List (K × V))
  shrunk m h left =
      if length left == 0 then map_delete (map_set m.buckets h left) h else map_set m.buckets h left

  buckets-delete :
      (m : PubkeyHashMap K V) (key : K)
      → (delete key m).0.buckets ≡ (elim (get m key) [
        | none ↦ m.buckets
        | some v ↦ shrunk m (hash_code key) (drop_key (bucket_of m key) key)
      ])
  unfolding delete get
  buckets-delete m key = ground (
    arith,
    splice-eq-drop_key (bucket_of m key) key,
    find_index-lookup (bucket_of m key) key,
    find_entry-eq-lookup (bucket_of m key) key,
  )

  pub size-delete :
      (m : PubkeyHashMap K V) (key : K)
      → (delete key m).0.size ≡ (elim (get m key) [ none ↦ m.size | some v ↦ m.size - 1 ])
  unfolding delete get
  size-delete m key =
      ground
        (arith, find_index-lookup (bucket_of m key) key, find_entry-eq-lookup (bucket_of m key) key)

  map_delete-map_set :
      (bs : List (ℕ × List (K × V))) (h : ℕ) (b : List (K × V))
      → map_delete (map_set bs h b) h ≡ map_delete bs h
  map_delete-map_set [] h b = ground arith
  map_delete-map_set ((g, c) ∷ rest) h b = ground (arith, map_delete-map_set rest h b)

  shrunk-cons :
      (m : PubkeyHashMap K V) (h : ℕ) (e : K × V) (es : List (K × V))
      → shrunk m h (e ∷ es) ≡ map_set m.buckets h (e ∷ es)
  shrunk-cons m h e es = ground arith

  shrunk-nil : (m : PubkeyHashMap K V) (h : ℕ) → shrunk m h [] ≡ map_delete m.buckets h
  shrunk-nil m h = map_delete-map_set m.buckets h []

  shrunk-ValidBuckets :
      (m : PubkeyHashMap K V) (h : ℕ) (left : List (K × V))
      → IsWellFormed m
      → HasHash h left
      → Distinct (keys_of left)
      → ValidBuckets (shrunk m h left)
  shrunk-ValidBuckets m h [] w hashed d =
      subst ValidBuckets (sym (shrunk-nil m h)) (map_delete-ValidBuckets m.buckets h w.valid)
  shrunk-ValidBuckets m h (e ∷ es) w hashed d =
      subst ValidBuckets (sym (shrunk-cons m h e es))
        (map_set-ValidBuckets m.buckets h (e ∷ es) w.valid hashed (omega arith) d)

  bucket-shrunk :
      (m : PubkeyHashMap K V) (h j : ℕ) (left : List (K × V))
      → IsWellFormed m
      → bucket (shrunk m h left) j ≡ (if h == j then left else bucket m.buckets j)
  bucket-shrunk m h j [] w =
      ap (λ bs. bucket bs j) (shrunk-nil m h) ∙ bucket-map_delete m.buckets h j w.valid
  bucket-shrunk m h j (e ∷ es) w =
      ap (λ bs. bucket bs j) (shrunk-cons m h e es) ∙ bucket-map_set m.buckets h j (e ∷ es)

  length-shrunk :
      (m : PubkeyHashMap K V) (h : ℕ) (left : List (K × V))
      → length (flatten (shrunk m h left)) + length (bucket m.buckets h)
        ≡ length (flatten m.buckets) + length left
  length-shrunk m h [] =
      omega (arith, ap (λ bs. length (flatten bs)) (shrunk-nil m h), length-map_delete m.buckets h)
  length-shrunk m h (e ∷ es) = omega (
    arith,
    ap (λ bs. length (flatten bs)) (shrunk-cons m h e es),
    length-map_set m.buckets h (e ∷ es),
  )

  -- After `delete` of a key from a well-formed map, `get` returns nothing for that key and what it
  -- returned before for any other key.
  pub get-delete :
      (m : PubkeyHashMap K V) (key k : K)
      → IsWellFormed m
      → get (delete key m).0 k ≡ (if p.equals key k then none else get m k)
  get-delete m key k w =
      let b = bucket_of m key in
      let (hashed, distinct) = bucket-HasHash m.buckets (hash_code key) w.valid in
      rw (get-eq-lookup (delete key m).0 k, buckets-delete m key)
        (ground (
          arith,
          get-eq-lookup m k,
          get-eq-lookup m key,
          bucket-shrunk m (hash_code key) (hash_code k) (drop_key b key) w,
          lookup-drop_key b key k distinct,
          p.equals_iff key k,
        ))

  -- `delete` keeps a map well formed, the removal of an emptied bucket and the new size included.
  pub delete-IsWellFormed :
      (m : PubkeyHashMap K V) (key : K) → IsWellFormed m → IsWellFormed (delete key m).0
  delete-IsWellFormed m key w =
      let b = bucket_of m key in
      let (hashed, distinct) = bucket-HasHash m.buckets (hash_code key) w.valid in
      let fits =
        shrunk-ValidBuckets m (hash_code key) (drop_key b key) w
          (drop_key-HasHash (hash_code key) b key hashed) (drop_key-Distinct b key distinct) in
      elim (Option-cases (get m key)) [
        | inl n ↦ record {
          valid = rw (buckets-delete m key, n) w.valid;
          counted = rw (buckets-delete m key, size-delete m key, n) w.counted;
        }
        | inr (v, e) ↦ record {
          valid = rw (buckets-delete m key, e) fits;
          counted =
              rw (buckets-delete m key, size-delete m key, e)
                (ground (
                  arith,
                  w.counted,
                  get-eq-lookup m key,
                  length-drop_key b key,
                  length-shrunk m (hash_code key) (drop_key b key),
                ));
        }
      ]

  -- `delete` returns true exactly if `has` was true of the key.
  pub delete-has : (m : PubkeyHashMap K V) (key : K) → (delete key m).1 ≡ has m key
  unfolding delete has
  delete-has m key =
      ground
        (arith, find_index-lookup (bucket_of m key) key, find_entry-eq-lookup (bucket_of m key) key)
