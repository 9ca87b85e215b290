-- ===== src/Examples/Maps.antt =====
-- The collections of src/utils/pubkey.ts at small inputs. The keys 5 and 5 + 2^32 share a bucket.
use klend_sdk.Prelude.{ℕ, ◌+◌, ◌^◌, ◌≤◌, List, [], ◌∷◌, true, false, none, some, ◌≡◌, length}
use klend_sdk.Pubkey.Keys.{numbered_keys, includes, Distinct}
use klend_sdk.Pubkey.Set
use klend_sdk.Pubkey.LinearMap
use klend_sdk.Pubkey.LinearMap.Laws.{has-get}
use klend_sdk.Pubkey.LinearMap.Entries.{lookup, keys_of}
use klend_sdk.Pubkey.HashMap
use klend_sdk.Pubkey.HashMap.{PubkeyHashMap}
use klend_sdk.Pubkey.HashMap.Laws
use klend_sdk.Pubkey.HashMap.Laws.{IsWellFormed}
use klend_sdk.Pubkey.HashMap.Removal
use klend_sdk.Pubkey.HashMap.Iteration
use klend_sdk.Pubkey.HashMap.Refinement
use klend_sdk.Pubkey.HashMap.Refinement.{Change, put, remove, Agrees, run_hash, run_linear}

abbrev far_key : ℕ
far_key = 5 + 2 ^ 32

abbrev two_entries : PubkeyHashMap ℕ ℕ
two_entries = HashMap.set far_key 2 (HashMap.set 5 1 HashMap.empty)

abbrev some_changes : List (Change ℕ ℕ)
some_changes = put 5 1 ∷ put far_key 2 ∷ remove 5 ∷ []

abbrev repeated_pairs : List (ℕ × ℕ)
repeated_pairs = (5, 1) ∷ (5, 4) ∷ []

abbrev repeated_keys : List ℕ
repeated_keys = 4 ∷ 2 ∷ 4 ∷ []

abbrev one_entry : LinearMap.PublicKeyMap ℕ ℕ
one_entry = record { entries = (5, 1) ∷ [] }

two_entries-IsWellFormed : IsWellFormed two_entries
two_entries-IsWellFormed =
    Laws.set-IsWellFormed (HashMap.set 5 1 HashMap.empty) far_key 2
      (Laws.set-IsWellFormed HashMap.empty 5 1 Iteration.empty-IsWellFormed)

run-Agrees_example :
    Agrees (run_hash some_changes HashMap.empty) (run_linear some_changes LinearMap.empty)
run-Agrees_example = Refinement.run-Agrees some_changes

get-set_example : HashMap.get (HashMap.set far_key 7 two_entries) far_key ≡ some 7
get-set_example = Laws.get-set two_entries far_key far_key 7

get-delete_example : HashMap.get (HashMap.delete 5 two_entries).0 5 ≡ none
get-delete_example = Removal.get-delete two_entries 5 5 two_entries-IsWellFormed

set-IsWellFormed_example : IsWellFormed (HashMap.set 8 3 two_entries)
set-IsWellFormed_example = Laws.set-IsWellFormed two_entries 8 3 two_entries-IsWellFormed

delete-IsWellFormed_example : IsWellFormed (HashMap.delete far_key two_entries).0
delete-IsWellFormed_example =
    Removal.delete-IsWellFormed two_entries far_key two_entries-IsWellFormed

delete-has_example : (HashMap.delete 8 two_entries).1 ≡ HashMap.has two_entries 8
delete-has_example = Removal.delete-has two_entries 8

entries-get_example :
    ((k : ℕ) → lookup (HashMap.entries two_entries) k ≡ HashMap.get two_entries k)
    × Distinct (keys_of (HashMap.entries two_entries))
    × (length (HashMap.entries two_entries) ≡ two_entries.size)
entries-get_example = Iteration.entries-get two_entries two_entries-IsWellFormed

get-of_entries_example :
    IsWellFormed (HashMap.of_entries repeated_pairs)
    × ((k : ℕ)
        → HashMap.get (HashMap.of_entries repeated_pairs) k
          ≡ Iteration.last_value none repeated_pairs k)
get-of_entries_example = Iteration.get-of_entries repeated_pairs

to_array-of_items_example :
    ((k : ℕ) → includes (Set.to_array (Set.of_items repeated_keys)) k ≡ includes repeated_keys k)
    × Distinct (Set.to_array (Set.of_items repeated_keys))
    × (length (Set.to_array (Set.of_items repeated_keys)) ≤ length repeated_keys)
to_array-of_items_example = Set.to_array-of_items repeated_keys

has-get_example :
    LinearMap.has one_entry 5 ≡ (elim (LinearMap.get one_entry 5) [ some v ↦ true | none ↦ false ])
has-get_example = has-get one_entry 5
