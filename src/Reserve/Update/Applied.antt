-- ===== src/Reserve/Update/Applied.antt =====
-- What the instructions of `parseForChangesReserveConfigAndGetIxs` of src/classes/reserve.ts do to the
-- settings of a reserve.
use klend_sdk.Prelude.{
  ℕ, ◌+◌, ◌≡◌, refl, sym, ap, ◌∙◌, inl, List, [], ◌∷◌, map, Bool, some, if◌then◌else◌, ◌==◌, arith,
}
use klend_sdk.Prelude.Outcome.{ok, >>=-eq-ok, ok-injective}
use klend_sdk.Pubkey.Keys.{PublicKeys}
use klend_sdk.Reserve.Data.{ReserveConfig}
use klend_sdk.Reserve.Interfaces.{Codecs, IsExact}
use klend_sdk.Reserve.Modes.{UpdateConfigMode, discriminator}
use klend_sdk.Reserve.Encode.{format}
use klend_sdk.Reserve.Encode.Laws.{read_as}
use klend_sdk.Reserve.Change.{Change}
use klend_sdk.Reserve.Update.{
  UpdateReserveConfig, MarketWithAddress, update_reserve_config_ix, config_keys, changes_for,
  parse_for_changes_reserve_config_and_get_ixs,
}
use klend_sdk.Reserve.Update.Expected.{IsUpdatable, expected}
use klend_sdk.Reserve.Update.Agreement.{modes_of_keys, changes_for-expected}
use klend_sdk.Reserve.Update.Settling.{settle, covered, stored, expected-settle, modes-Suits}

-- The numbers of a mode after instructions, from those before; the program's modes are one above the discriminators.
abbrev pub applied :
    {K : Type 0} → UpdateConfigMode → List (UpdateReserveConfig K) → List ℕ → List ℕ
applied m [] w = w
applied m (ix ∷ ixs) w =
    applied m ixs (if ix.mode == discriminator m + 1 then read_as (format m) ix.value else w)

same_mode : (a b : ℕ) → (a + 1 == b + 1) ≡ (a == b)
same_mode a b = ground arith

module _ {K : Type 0} (market : MarketWithAddress K) (reserve_address : K) where
  applied-map :
      (m : UpdateConfigMode) (cs : List Change) (w : List ℕ)
      → applied m
          (map
            (λ (c : Change).
              update_reserve_config_ix market reserve_address (discriminator c.mode + 1) c.value)
            cs)
          w
        ≡ settle m cs w
  unfolding update_reserve_config_ix
  applied-map m [] w = refl
  applied-map m (c ∷ cs) w =
      applied-map m cs _
      ∙ ap (λ (b : Bool). settle m cs (if b then read_as (format m) c.value else w))
          (same_mode (discriminator c.mode) (discriminator m))

  module _ (codecs : Codecs K) ⦃p : PublicKeys K⦄ where
    -- If the update of a reserve returns instructions, and it changes at most one of the two fees, no
    -- current total of a cap, and the length of no array, and `toNumber` is exact, then a program that
    -- stores for each mode the numbers held in the bytes of an instruction has, after these
    -- instructions, the new numbers for every mode that the code covers and the old numbers for every
    -- other mode.
    pub applied-parse_for_changes_reserve_config_and_get_ixs :
        IsExact codecs
        → (old new : ReserveConfig K) → IsUpdatable old new
        → (ixs : List (UpdateReserveConfig K))
        → parse_for_changes_reserve_config_and_get_ixs codecs market (some old) reserve_address new
          ≡ ok ixs
        → (m : UpdateConfigMode)
        → applied m ixs (stored codecs old m) ≡ (
            if covered (modes_of_keys config_keys) m
            then stored codecs new m
            else stored codecs old m)
    unfolding parse_for_changes_reserve_config_and_get_ixs
    applied-parse_for_changes_reserve_config_and_get_ixs exact old new v ixs h m =
        let (cs, e, r) = >>=-eq-ok (changes_for codecs config_keys (some old) new) _ h in
        let pushed : expected codecs (modes_of_keys config_keys) old new ≡ ok cs =
          sym (changes_for-expected codecs old new v config_keys) ∙ e in
        ap (λ is. applied m is (stored codecs old m)) (sym (ok-injective _ _ r))
        ∙ applied-map m cs (stored codecs old m)
        ∙ expected-settle codecs exact old new (modes_of_keys config_keys) cs
            (modes-Suits codecs exact old new) pushed m (stored codecs old m) (inl refl)
