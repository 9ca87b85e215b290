-- ===== src/Pubkey/HashMap/JsMap.antt =====
-- The `Map` of JavaScript with numbers for keys, as the list of its entries in order of insertion.
use klend_sdk.Prelude.{ℕ, List, [], ◌∷◌, Option, none, some, ◌≡◌, refl, ◌==◌, if◌then◌else◌, arith}

module _ {ℓ} {B : Type ℓ} where
  abbrev pub map_get : List (ℕ × B) → ℕ → Option B
  map_get [] h = none
  map_get ((g, b) ∷ rest) h = let later = map_get rest h in if g == h then some b else later

  -- An entry that is there keeps its place; a new one comes last.
  abbrev pub map_set : List (ℕ × B) → ℕ → B → List (ℕ × B)
  map_set [] h b = (h, b) ∷ []
  map_set ((g, c) ∷ rest) h b =
      let later = map_set rest h b in if g == h then (g, b) ∷ rest else (g, c) ∷ later

  abbrev pub map_delete : List (ℕ × B) → ℕ → List (ℕ × B)
  map_delete [] h = []
  map_delete ((g, c) ∷ rest) h =
      let later = map_delete rest h in if g == h then rest else (g, c) ∷ later

  pub map_get-map_set :
      (m : List (ℕ × B)) (h j : ℕ) (b : B)
      → map_get (map_set m h b) j ≡ (if h == j then some b else map_get m j)
  map_get-map_set [] h j b = refl
  map_get-map_set ((g, c) ∷ rest) h j b = ground (arith, map_get-map_set rest h j b)
