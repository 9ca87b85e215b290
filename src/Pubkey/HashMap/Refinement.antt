-- ===== src/Pubkey/HashMap/Refinement.antt =====
-- `PubkeyHashMap` beside `PublicKeyMap`, both of src/utils/pubkey.ts.
use klend_sdk.Prelude.{List, [], ◌∷◌, ◌≡◌, refl, ap, arith, length}
use klend_sdk.Pubkey.Keys.{PublicKeys}
use klend_sdk.Pubkey.LinearMap
use klend_sdk.Pubkey.LinearMap.{PublicKeyMap}
use klend_sdk.Pubkey.LinearMap.Laws
use klend_sdk.Pubkey.LinearMap.Entries.{length-put, length-drop_key}
use klend_sdk.Pubkey.HashMap.{
  PubkeyHashMap, hash_code, flatten, get, set, set_all, of_entries, delete, entries, empty,
}
use klend_sdk.Pubkey.HashMap.Laws.{IsWellFormed, set-IsWellFormed, get-set, size-set}
use klend_sdk.Pubkey.HashMap.Removal.{delete-IsWellFormed, get-delete, size-delete}
use klend_sdk.Pubkey.HashMap.Iteration.{empty-IsWellFormed}

module _ {ℓ κ} (K : Type ℓ) (V : Type κ) where
  -- A call that changes a map.
  pub data Change : Type (ℓ ⊔ κ) where
    put : K → V → Change
    remove : K → Change
    clear : Change

module _ {ℓ κ} {K : Type ℓ} {V : Type κ} ⦃p : PublicKeys K⦄ where
  abbrev pub change_hash : Change K V → PubkeyHashMap K V → PubkeyHashMap K V
  change_hash (put key value) m = set key value m
  change_hash (remove key) m = (delete key m).0
  change_hash clear m = klend_sdk.Pubkey.HashMap.clear m

  abbrev pub change_linear : Change K V → PublicKeyMap K V → PublicKeyMap K V
  change_linear (put key value) m = LinearMap.set key value m
  change_linear (remove key) m = LinearMap.delete key m
  change_linear clear m = LinearMap.clear m

  pub run_hash : List (Change K V) → PubkeyHashMap K V → PubkeyHashMap K V
  run_hash [] m = m
  run_hash (c ∷ cs) m = run_hash cs (change_hash c m)

  pub run_linear : List (Change K V) → PublicKeyMap K V → PublicKeyMap K V
  run_linear [] m = m
  run_linear (c ∷ cs) m = run_linear cs (change_linear c m)

  -- Both maps are well formed, give every key the same value, and have as many entries.
  pub record Agrees (h : PubkeyHashMap K V) (l : PublicKeyMap K V) : Type (ℓ ⊔ κ) where
    pub hash_valid : IsWellFormed h
    pub linear_valid : Laws.IsValid l
    pub same : (k : K) → get h k ≡ LinearMap.get l k
    pub sizes : h.size ≡ length l.entries

  clear-Agrees :
      (h : PubkeyHashMap K V) (l : PublicKeyMap K V)
      → Agrees (change_hash clear h) (change_linear clear l)
  unfolding LinearMap.clear klend_sdk.Pubkey.HashMap.clear get LinearMap.get LinearMap.find_index
  clear-Agrees h l = record {
    hash_valid = empty-IsWellFormed;
    linear_valid = tt;
    same = λ k. refl;
    sizes = refl;
  }

  change-Agrees :
      (c : Change K V) (h : PubkeyHashMap K V) (l : PublicKeyMap K V)
      → Agrees h l
      → Agrees (change_hash c h) (change_linear c l)
  change-Agrees (put key value) h l a = record {
    hash_valid = set-IsWellFormed h key value a.hash_valid;
    linear_valid = Laws.set-IsValid l key value a.linear_valid;
    same = λ k. ground (arith, get-set h key k value, Laws.get-set l key k value, a.same k);
    sizes = ground (
      arith,
      a.sizes,
      a.same key,
      size-set h key value,
      Laws.get-eq-lookup l key,
      length-put l.entries key value,
      ap length (Laws.entries-set l key value),
    );
  }
  change-Agrees (remove key) h l a = record {
    hash_valid = delete-IsWellFormed h key a.hash_valid;
    linear_valid = Laws.delete-IsValid l key a.linear_valid;
    same = λ k.
        ground (
          arith,
          get-delete h key k a.hash_valid,
          Laws.get-delete l key k a.linear_valid,
          a.same k,
        );
    sizes = ground (
      arith,
      a.sizes,
      a.same key,
      size-delete h key,
      Laws.get-eq-lookup l key,
      length-drop_key l.entries key,
      ap length (Laws.entries-delete l key),
    );
  }
  change-Agrees clear h l a = clear-Agrees h l

  run-Agrees_from :
      (cs : List (Change K V)) (h : PubkeyHashMap K V) (l : PublicKeyMap K V)
      → Agrees h l
      → Agrees (run_hash cs h) (run_linear cs l)
  unfolding run_hash run_linear
  run-Agrees_from [] h l a = a
  run-Agrees_from (c ∷ cs) h l a =
      run-Agrees_from cs (change_hash c h) (change_linear c l) (change-Agrees c h l a)

  -- After any sequence of `set`, `delete` and `clear` on an empty PubkeyHashMap and on an empty
  -- PublicKeyMap, both maps are well formed, give every key the same value, and have equally many
  -- entries.
  pub run-Agrees :
      (cs : List (Change K V)) → Agrees (run_hash cs empty) (run_linear cs LinearMap.empty)
  unfolding get LinearMap.get LinearMap.find_index
  run-Agrees cs = run-Agrees_from cs empty LinearMap.empty (record {
    hash_valid = empty-IsWellFormed;
    linear_valid = tt;
    same = λ k. refl;
    sizes = refl;
  })
