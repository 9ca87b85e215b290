-- ===== src/Pubkey/HashMap/Iteration.antt =====
-- What the iterator of `PubkeyHashMap` yields, and what its constructor builds (src/utils/pubkey.ts).
use klend_sdk.Prelude.{
  ℕ, List, [], ◌∷◌, ◌++◌, true, false, Option, none, some, ◌≡◌, refl, ap, ◌==◌, arith,
  if◌then◌else◌, length, ==_refl, ◌∙◌,
}
use klend_sdk.Pubkey.Keys.{PublicKeys, includes, Distinct}
use klend_sdk.Pubkey.LinearMap.Entries.{lookup, keys_of}
use klend_sdk.Pubkey.HashMap.{
  PubkeyHashMap, hash_code, flatten, get, set, set_all, of_entries, entries, empty,
}
use klend_sdk.Pubkey.HashMap.JsMap.{map_get}
use klend_sdk.Pubkey.HashMap.Buckets.{ValidBuckets, HasHash, lookup-flatten}
use klend_sdk.Pubkey.HashMap.Laws.{IsWellFormed, get-eq-lookup, set-IsWellFormed, get-set}

module _ {ℓ κ} {K : Type ℓ} {V : Type κ} ⦃p : PublicKeys K⦄ where
  includes_other_hash :
      (h : ℕ) (b : List (K × V)) (k : K)
      → HasHash h b
      → (h == hash_code k) ≡ false
      → includes (keys_of b) k ≡ false
  includes_other_hash h [] k v n = refl
  includes_other_hash h ((j, w) ∷ b) k (e, v) n =
      ground (arith, includes_other_hash h b k v n, p.equals_iff j k, ==_refl h)

  keys_of-append :
      (es ds : List (K × V)) (k : K)
      → includes (keys_of (es ++ ds)) k
        ≡ (if includes (keys_of es) k then true else includes (keys_of ds) k)
  keys_of-append [] ds k = refl
  keys_of-append ((j, w) ∷ es) ds k = ground (arith, keys_of-append es ds k)

  includes-flatten :
      (bs : List (ℕ × List (K × V))) (k : K)
      → ValidBuckets bs
      → map_get bs (hash_code k) ≡ none
      → includes (keys_of (flatten bs)) k ≡ false
  includes-flatten [] k v n = refl
  includes-flatten ((h, b) ∷ rest) k (hh, pos, d, new, v) n = ground (
    arith,
    keys_of-append b (flatten rest) k,
    includes_other_hash h b k hh,
    includes-flatten rest k v,
  )

  append-Distinct :
      (h : ℕ) (b ds : List (K × V))
      → HasHash h b
      → Distinct (keys_of b)
      → Distinct (keys_of ds)
      → ((k : K) → hash_code k ≡ h → includes (keys_of ds) k ≡ false)
      → Distinct (keys_of (b ++ ds))
  append-Distinct h [] ds hh d dd f = dd
  append-Distinct h ((k, w) ∷ b) ds (e, hh) (new, d) dd f =
      ground (arith, keys_of-append b ds k, f k e, append-Distinct h b ds hh d dd f)

  flatten-Distinct :
      (bs : List (ℕ × List (K × V))) → ValidBuckets bs → Distinct (keys_of (flatten bs))
  flatten-Distinct [] v = tt
  flatten-Distinct ((h, b) ∷ rest) (hh, pos, d, new, v) =
      append-Distinct h b (flatten rest) hh d (flatten-Distinct rest v)
        λ k e. includes-flatten rest k v (rw e new)

  -- In a well-formed map, the entries that the iterator yields give every key the value that `get`
  -- returns, name no key twice, and are `size` many.
  pub entries-get :
      (m : PubkeyHashMap K V)
      → IsWellFormed m
      → ((k : K) → lookup (entries m) k ≡ get m k)
        × Distinct (keys_of (entries m))
        × (length (entries m) ≡ m.size)
  unfolding entries
  entries-get m w = (
    λ k. rw (get-eq-lookup m k) (lookup-flatten m.buckets k w.valid),
    flatten-Distinct m.buckets w.valid,
    omega (arith, w.counted),
  )

  pub empty-IsWellFormed : IsWellFormed (empty {K = K} {V = V})
  empty-IsWellFormed = record { valid = tt; counted = refl }

  -- The value that an array of pairs gives a key last, else a value from before.
  abbrev pub last_value : Option V → List (K × V) → K → Option V
  last_value old [] k = old
  last_value old ((key, value) ∷ rest) k =
      last_value (if p.equals key k then some value else old) rest k

  get-set_all :
      (m : PubkeyHashMap K V) (es : List (K × V)) (k : K)
      → get (set_all m es) k ≡ last_value (get m k) es k
  unfolding set_all
  get-set_all m [] k = refl
  get-set_all m ((key, value) ∷ rest) k =
      get-set_all (set key value m) rest k ∙ ap (λ o. last_value o rest k) (get-set m key k value)

  set_all-IsWellFormed :
      (m : PubkeyHashMap K V) (es : List (K × V)) → IsWellFormed m → IsWellFormed (set_all m es)
  unfolding set_all
  set_all-IsWellFormed m [] w = w
  set_all-IsWellFormed m ((key, value) ∷ rest) w =
      set_all-IsWellFormed (set key value m) rest (set-IsWellFormed m key value w)

  -- A map built from an array of pairs is well formed, and `get` returns for each key the last value
  -- that the array gives it.
  pub get-of_entries :
      (es : List (K × V))
      → IsWellFormed (of_entries es) × ((k : K) → get (of_entries es) k ≡ last_value none es k)
  unfolding of_entries get
  get-of_entries es = (set_all-IsWellFormed empty es empty-IsWellFormed, get-set_all empty es)
