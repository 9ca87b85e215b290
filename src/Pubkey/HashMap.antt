-- ===== src/Pubkey/HashMap.antt =====
-- `PubkeyHashMap` and `HashablePublicKey` of src/utils/pubkey.ts. `JsMap` is the `Map` of JavaScript, from
-- a hash to the bucket of its entries, in order of insertion.
pub mod JsMap
pub mod Buckets
pub mod Laws
pub mod Removal
pub mod Iteration
pub mod Refinement
use klend_sdk.Prelude.{
  ℕ, suc, ◌+◌, ◌-◌, ◌*◌, ◌%◌, ◌^◌, List, [], ◌∷◌, ◌++◌, Bool, true, false, Option, none, some, ◌==◌,
  map, if◌then◌else◌, length,
}
use klend_sdk.Pubkey.Keys.{PublicKeys}
use klend_sdk.Pubkey.LinearMap.{splice}
use klend_sdk.Pubkey.HashMap.JsMap.{map_get, map_set, map_delete}

pub record PubkeyHashMap {ℓ κ} (K : Type ℓ) (V : Type κ) : Type (ℓ ⊔ κ) where
  pub buckets : List (ℕ × List (K × V))
  pub size : ℕ

module _ {ℓ} {K : Type ℓ} ⦃p : PublicKeys K⦄ where
  -- The last 32 bits of the key, by `iuand` with 2^32 - 1.
  unfoldable pub hash_code : K → ℕ
  hash_code k = 13 * 7 + p.bn k % 2 ^ 32

module _ {ℓ κ} {K : Type ℓ} {V : Type κ} where
  abbrev pub empty : PubkeyHashMap K V
  empty = record { buckets = []; size = 0 }

  unfoldable pub clear : PubkeyHashMap K V → PubkeyHashMap K V
  clear m = record { buckets = []; size = 0 }

  unfoldable pub is_empty : PubkeyHashMap K V → Bool
  is_empty m = m.size == 0

  abbrev pub flatten : List (ℕ × List (K × V)) → List (K × V)
  flatten [] = []
  flatten ((h, bucket) ∷ rest) = bucket ++ flatten rest

  -- The iterator: bucket after bucket, each from its front.
  unfoldable pub entries : PubkeyHashMap K V → List (K × V)
  entries m = flatten m.buckets

  unfoldable pub keys : PubkeyHashMap K V → List K
  unfolding entries
  keys m = map (λ e. e.0) (entries m)

  unfoldable pub values : PubkeyHashMap K V → List V
  unfolding entries
  values m = map (λ e. e.1) (entries m)

module _ {ℓ κ} {K : Type ℓ} {V : Type κ} ⦃p : PublicKeys K⦄ where
  -- `bucket.find((entry) => entry.key.equals(key))`, by its value.
  abbrev pub find_entry : List (K × V) → K → Option V
  find_entry [] key = none
  find_entry ((k, v) ∷ es) key =
      let rest = find_entry es key in if p.equals k key then some v else rest

  -- `entry.value = value` at the entry that `find` returns.
  abbrev pub assign : List (K × V) → K → V → List (K × V)
  assign [] key value = []
  assign ((k, v) ∷ es) key value =
      let rest = assign es key value in if p.equals k key then (k, value) ∷ es else (k, v) ∷ rest

  -- `bucket.findIndex((entry) => entry.key.equals(key))`; `none` is -1.
  abbrev pub find_index : List (K × V) → K → Option ℕ
  find_index [] key = none
  find_index ((k, v) ∷ es) key =
      let rest : Option ℕ = elim (find_index es key) [ none ↦ none | some i ↦ some (suc i) ] in
      if p.equals k key then some 0 else rest

  unfoldable pub set : K → V → PubkeyHashMap K V → PubkeyHashMap K V
  unfolding hash_code
  set key value m =
      let hash = hash_code key in
      elim (map_get m.buckets hash) [
        | none ↦ record { buckets = map_set m.buckets hash ((key, value) ∷ []); size = m.size + 1 }
        | some bucket ↦ elim (find_entry bucket key) [
          | some v ↦ record {
            buckets = map_set m.buckets hash (assign bucket key value);
            size = m.size;
          }
          | none ↦ record {
            buckets = map_set m.buckets hash (bucket ++ (key, value) ∷ []);
            size = m.size + 1;
          }
        ]
      ]

  unfoldable pub get : PubkeyHashMap K V → K → Option V
  unfolding hash_code
  get m key = elim (map_get m.buckets (hash_code key)) [
    | none ↦ none
    | some bucket ↦ find_entry bucket key
  ]

  unfoldable pub has : PubkeyHashMap K V → K → Bool
  unfolding hash_code
  has m key = elim (map_get m.buckets (hash_code key)) [
    | none ↦ false
    | some bucket ↦ elim (find_entry bucket key) [ none ↦ false | some v ↦ true ]
  ]

  -- The map after `delete`, and what it returns.
  unfoldable pub delete : K → PubkeyHashMap K V → PubkeyHashMap K V × Bool
  unfolding hash_code
  delete key m =
      let hash = hash_code key in
      elim (map_get m.buckets hash) [
        | none ↦ (m, false)
        | some bucket ↦ elim (find_index bucket key) [
          | none ↦ (m, false)
          | some index ↦
              let left = splice bucket index in
              (
                record {
                  buckets =
                      if length left == 0
                      then map_delete (map_set m.buckets hash left) hash
                      else map_set m.buckets hash left;
                  size = m.size - 1;
                },
                true,
              )
        ]
      ]

  unfoldable pub set_all : PubkeyHashMap K V → List (K × V) → PubkeyHashMap K V
  set_all m [] = m
  set_all m ((key, value) ∷ rest) = set_all (set key value m) rest

  -- The constructor.
  unfoldable pub of_entries : List (K × V) → PubkeyHashMap K V
  unfolding set_all
  of_entries es = set_all empty es
