-- ===== src/Pubkey/HashMap/Buckets.antt =====
-- The buckets of `PubkeyHashMap`: when they are well formed, and what they hold as one array.
use klend_sdk.Prelude.{
  ℕ, ◌+◌, ◌<◌, List, [], ◌∷◌, ◌++◌, true, false, none, some, ◌≡◌, ◌≢◌, refl, ap, ◌==◌, arith,
  if◌then◌else◌, length, length-append, Bool-cases, inl, inr, ==_eq, ◌∙◌,
}
use klend_sdk.Pubkey.Keys.{PublicKeys, Distinct}
use klend_sdk.Pubkey.LinearMap.{splice}
use klend_sdk.Pubkey.LinearMap.Entries.{lookup, put, drop_key, keys_of, lookup-append}
use klend_sdk.Pubkey.HashMap.{hash_code, flatten, find_entry, assign, find_index}
use klend_sdk.Pubkey.HashMap.JsMap.{map_get-map_set, map_get, map_set, map_delete}

module _ {ℓ κ} {K : Type ℓ} {V : Type κ} ⦃p : PublicKeys K⦄ where
  pub find_entry-eq-lookup : (es : List (K × V)) (key : K) → find_entry es key ≡ lookup es key
  find_entry-eq-lookup [] key = refl
  find_entry-eq-lookup ((k, v) ∷ es) key = ground (arith, find_entry-eq-lookup es key)

  pub assign-eq-put :
      (es : List (K × V)) (key : K) (value : V)
      → (elim (find_entry es key) [ some v ↦ assign es key value | none ↦ es ++ (key, value) ∷ [] ])
        ≡ put es key value
  assign-eq-put [] key value = refl
  assign-eq-put ((k, w) ∷ es) key value = ground (arith, assign-eq-put es key value)

  pub splice-eq-drop_key :
      (es : List (K × V)) (key : K)
      → (elim (find_index es key) [ none ↦ es | some i ↦ splice es i ]) ≡ drop_key es key
  splice-eq-drop_key [] key = refl
  splice-eq-drop_key ((k, w) ∷ es) key = ground (arith, splice-eq-drop_key es key)

  pub find_index-lookup :
      (es : List (K × V)) (key : K)
      → (elim (find_index es key) [ none ↦ false | some i ↦ true ])
        ≡ (elim (lookup es key) [ none ↦ false | some v ↦ true ])
  find_index-lookup [] key = refl
  find_index-lookup ((k, w) ∷ es) key = ground (arith, find_index-lookup es key)

  -- Every key of a bucket has the bucket's hash.
  abbrev pub HasHash : ℕ → List (K × V) → Type 0
  HasHash h [] = Unit
  HasHash h (e ∷ es) = (hash_code e.0 ≡ h) × HasHash h es

  -- Buckets are not empty, hold the keys of their hash, each once, and stand once for each hash.
  abbrev pub ValidBuckets : List (ℕ × List (K × V)) → Type (ℓ ⊔ κ)
  ValidBuckets [] = Unit
  ValidBuckets ((h, b) ∷ rest) =
      HasHash h b
      × (0 < length b)
      × Distinct (keys_of b)
      × (map_get rest h ≡ none)
      × ValidBuckets rest

  pub lookup_other_hash :
      (h : ℕ) (b : List (K × V)) (k : K) → HasHash h b → hash_code k ≢ h → lookup b k ≡ none
  lookup_other_hash h [] k v n = refl
  lookup_other_hash h ((j, w) ∷ b) k (v, vs) n =
      ground (arith, lookup_other_hash h b k vs n, p.equals_iff j k)

  -- The bucket of a key's hash, or none.
  abbrev pub bucket : List (ℕ × List (K × V)) → ℕ → List (K × V)
  bucket bs h = elim (map_get bs h) [ none ↦ [] | some b ↦ b ]

  bucket-cons :
      (g : ℕ) (c : List (K × V)) (rest : List (ℕ × List (K × V))) (h : ℕ)
      → bucket ((g, c) ∷ rest) h ≡ (if g == h then c else bucket rest h)
  bucket-cons g c rest h = ground arith

  bucket-none : (bs : List (ℕ × List (K × V))) (h : ℕ) → map_get bs h ≡ none → bucket bs h ≡ []
  bucket-none bs h n = ground arith

  pub lookup-flatten :
      (bs : List (ℕ × List (K × V))) (k : K)
      → ValidBuckets bs
      → lookup (flatten bs) k ≡ lookup (bucket bs (hash_code k)) k
  lookup-flatten [] k v = refl
  lookup-flatten ((h, b) ∷ rest) k (hh, pos, d, new, v) = elim (Bool-cases (h == hash_code k)) [
    | inl e ↦
        let same = ==_eq h (hash_code k) e in
        let gone : bucket rest (hash_code k) ≡ [] = bucket-none rest _ (rw (← same) new) in
        let later : lookup (flatten rest) k ≡ none =
          lookup-flatten rest k v ∙ ap (λ es. lookup es k) gone in
        rw (bucket-cons h b rest (hash_code k), e, lookup-append b (flatten rest) k)
          (ground (arith, later))
    | inr e ↦
        rw (bucket-cons h b rest (hash_code k), e, lookup-append b (flatten rest) k)
          (ground
            (arith, lookup_other_hash h b k hh (λ q. ground (arith)), lookup-flatten rest k v))
  ]

  map_get-none :
      (bs : List (ℕ × List (K × V))) (h j : ℕ) (b : List (K × V))
      → map_get bs j ≡ none
      → (h == j) ≡ false
      → map_get (map_set bs h b) j ≡ none
  map_get-none bs h j b n e = rw (map_get-map_set bs h j b, e) n

  pub map_set-ValidBuckets :
      (bs : List (ℕ × List (K × V))) (h : ℕ) (b : List (K × V))
      → ValidBuckets bs
      → HasHash h b
      → 0 < length b
      → Distinct (keys_of b)
      → ValidBuckets (map_set bs h b)
  map_set-ValidBuckets [] h b v hh pos d = (hh, pos, d, refl, tt)
  map_set-ValidBuckets ((g, c) ∷ rest) h b (hc, pc, dc, new, v) hh pos d =
      elim (Bool-cases (g == h)) [
        | inl e ↦ rw e (rw (==_eq g h e) (hh, pos, d, rw (← ==_eq g h e) new, v))
        | inr e ↦ rw e (
          hc,
          pc,
          dc,
          map_get-none rest h g b new (ground arith),
          map_set-ValidBuckets rest h b v hh pos d,
        )
      ]

  map_get-map_delete :
      (bs : List (ℕ × List (K × V))) (h j : ℕ)
      → map_get bs j ≡ none
      → map_get (map_delete bs h) j ≡ none
  map_get-map_delete [] h j n = refl
  map_get-map_delete ((g, c) ∷ rest) h j n = ground (arith, map_get-map_delete rest h j)

  pub map_delete-ValidBuckets :
      (bs : List (ℕ × List (K × V))) (h : ℕ) → ValidBuckets bs → ValidBuckets (map_delete bs h)
  map_delete-ValidBuckets [] h v = tt
  map_delete-ValidBuckets ((g, c) ∷ rest) h (hc, pc, dc, new, v) = elim (Bool-cases (g == h)) [
    | inl e ↦ rw e v
    | inr e ↦ rw e (hc, pc, dc, map_get-map_delete rest h g new, map_delete-ValidBuckets rest h v)
  ]

  -- Replacing one bucket changes the number of entries by the difference of the two lengths.
  pub length-map_set :
      (bs : List (ℕ × List (K × V))) (h : ℕ) (b : List (K × V))
      → length (flatten (map_set bs h b)) + length (bucket bs h) ≡ length (flatten bs) + length b
  length-map_set [] h b = omega (arith, length-append b [])
  length-map_set ((g, c) ∷ rest) h b = ground (
    arith,
    length-map_set rest h b,
    length-append b (flatten rest),
    length-append c (flatten rest),
    length-append c (flatten (map_set rest h b)),
  )

  pub length-map_delete :
      (bs : List (ℕ × List (K × V))) (h : ℕ)
      → length (flatten (map_delete bs h)) + length (bucket bs h) ≡ length (flatten bs)
  length-map_delete [] h = omega arith
  length-map_delete ((g, c) ∷ rest) h = ground (
    arith,
    length-map_delete rest h,
    length-append c (flatten rest),
    length-append c (flatten (map_delete rest h)),
  )

  -- The bucket of a hash, taken from well-formed buckets, is well formed.
  pub bucket-HasHash :
      (bs : List (ℕ × List (K × V))) (h : ℕ)
      → ValidBuckets bs
      → HasHash h (bucket bs h) × Distinct (keys_of (bucket bs h))
  bucket-HasHash [] h v = (tt, tt)
  bucket-HasHash ((g, c) ∷ rest) h (hc, pc, dc, new, v) = elim (Bool-cases (g == h)) [
    | inl e ↦ rw (bucket-cons g c rest h, e) (rw (← ==_eq g h e) (hc, dc))
    | inr e ↦ rw (bucket-cons g c rest h, e) (bucket-HasHash rest h v)
  ]

  pub bucket-map_set :
      (bs : List (ℕ × List (K × V))) (h j : ℕ) (b : List (K × V))
      → bucket (map_set bs h b) j ≡ (if h == j then b else bucket bs j)
  bucket-map_set bs h j b = ground (arith, map_get-map_set bs h j b)

  pub bucket-map_delete :
      (bs : List (ℕ × List (K × V))) (h j : ℕ)
      → ValidBuckets bs
      → bucket (map_delete bs h) j ≡ (if h == j then [] else bucket bs j)
  bucket-map_delete [] h j v = ground arith
  bucket-map_delete ((g, c) ∷ rest) h j (hc, pc, dc, new, v) =
      ground (arith, bucket-map_delete rest h j v)
