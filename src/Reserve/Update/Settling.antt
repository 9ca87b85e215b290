-- ===== src/Reserve/Update/Settling.antt =====
-- What the updates of Reserve/Update/Expected, for src/classes/reserve.ts, leave of each setting when
-- the program stores for each mode the numbers that the bytes hold.
use mathlib.Core.Path.{subst}
use klend_sdk.Prelude.{
  ℕ, ◌≡◌, refl, sym, ap, ◌∙◌, ◌⊎◌, inl, inr, List, [], ◌∷◌, ◌++◌, any, All, Bool, true, false,
  if◌then◌else◌, ◌==◌, Bool-cases, arith, ==_refl, ==_eq,
}
use klend_sdk.Prelude.Outcome.{ok, ◌>>=◌, >>=-eq-ok, ok-injective}
use klend_sdk.Pubkey.Keys.{PublicKeys}
use klend_sdk.Reserve.Data.{ReserveConfig, CurvePoint}
use klend_sdk.Reserve.Bytes.{Buffer}
use klend_sdk.Reserve.Interfaces.{Codecs, IsExact}
use klend_sdk.Reserve.Modes.{UpdateConfigMode, discriminator}
use klend_sdk.Reserve.Modes.Codes.{get_elem?-discriminator}
use klend_sdk.Reserve.Encode.{
  Value, number, numbers, curve, public_key, format, update_reserve_config_encoded_value,
}
use klend_sdk.Reserve.Encode.Laws.{
  read_as, words, Suits, read_as-update_reserve_config_encoded_value,
}
use klend_sdk.Reserve.Change.{Change, no_change, ◌>+>◌, change, change_as}
use klend_sdk.Reserve.Update.{config_keys}
use klend_sdk.Reserve.Update.Settings.{held, modes_of}
use klend_sdk.Reserve.Update.Expected.{
  list_eq, points_eq, same_value, converted, is_big, update_of, expected,
}
use klend_sdk.Reserve.Update.Agreement.{modes_of_keys}

list_eq_eq : (xs ys : List ℕ) → list_eq xs ys ≡ true → xs ≡ ys
list_eq_eq [] [] h = refl
list_eq_eq [] (y ∷ ys) h = cc
list_eq_eq (x ∷ xs) [] h = cc
list_eq_eq (x ∷ xs) (y ∷ ys) h = ground (arith, list_eq_eq xs ys)

points_eq_eq : (xs ys : List CurvePoint) → points_eq xs ys ≡ true → xs ≡ ys
points_eq_eq [] [] h = refl
points_eq_eq [] (y ∷ ys) h = cc
points_eq_eq (x ∷ xs) [] h = cc
points_eq_eq (x ∷ xs) (y ∷ ys) h = ground (arith, points_eq_eq xs ys)

discriminator-injective : (m n : UpdateConfigMode) → discriminator m ≡ discriminator n → m ≡ n
discriminator-injective m n e = cc (get_elem?-discriminator m, get_elem?-discriminator n)

module _ {K : Type 0} ⦃p : PublicKeys K⦄ where
  same_value_eq : (a b : Value K) → same_value a b ≡ true → a ≡ b
  same_value_eq (number a) (number b) h = ground arith
  same_value_eq (numbers a) (numbers b) h = ap numbers (list_eq_eq a b h)
  same_value_eq (curve a) (curve b) h =
      ap (λ points. curve (record { points = points })) (points_eq_eq a.points b.points h)
  same_value_eq (public_key a) (public_key b) h = ap public_key ((p.equals_iff a b).0 h)
  same_value_eq _ _ h = cc

-- The numbers of a mode after updates, from those before.
abbrev pub settle : UpdateConfigMode → List Change → List ℕ → List ℕ
settle m [] w = w
settle m (c ∷ cs) w =
    settle m cs (if discriminator c.mode == discriminator m then read_as (format m) c.value else w)

-- The mode is one of the list.
abbrev pub covered : List UpdateConfigMode → UpdateConfigMode → Bool
covered ms m = any (λ k. discriminator k == discriminator m) ms

if_same {ℓ} : {A : Type ℓ} (b : Bool) (x : A) → (if b then x else x) ≡ x
if_same true x = refl
if_same false x = refl

settle-append :
    (m : UpdateConfigMode) (xs ys : List Change) (w : List ℕ)
    → settle m (xs ++ ys) w ≡ settle m ys (settle m xs w)
settle-append m [] ys w = refl
settle-append m (x ∷ xs) ys w = settle-append m xs ys _

module _ {K : Type 0} (codecs : Codecs K) where
  -- The numbers that a configuration stores for a mode.
  abbrev pub stored : ReserveConfig K → UpdateConfigMode → List ℕ
  stored config m = words codecs (format m) (held m config)

  converted_eq :
      IsExact codecs → (big : Bool) (v v' : Value K) → converted codecs big v ≡ ok v' → v' ≡ v
  converted_eq exact true (number n) v' h =
      let (k, e, r) = >>=-eq-ok (codecs.to_number n) (λ k. ok (number k)) h in
      sym (ok-injective _ _ r) ∙ ap number (exact n k e)
  converted_eq exact true (numbers (a ∷ b ∷ [])) v' h =
      let (x, ex, rest) =
        >>=-eq-ok (codecs.to_number a) (λ x. codecs.to_number b >>= λ y. ok (numbers (x ∷ y ∷ [])))
          h in
      let (y, ey, r) = >>=-eq-ok (codecs.to_number b) (λ y. ok (numbers (x ∷ y ∷ []))) rest in
      sym (ok-injective _ _ r) ∙ (λ i. numbers (exact a x ex i ∷ exact b y ey i ∷ []))
  converted_eq exact _ v v' h = sym (ok-injective _ _ h)

  -- An update that was pushed carries the numbers of the setting.
  record Carries (m : UpdateConfigMode) (ns : List ℕ) (xs : List Change) : Type 0 where
    bytes : Buffer
    xs_eq : xs ≡ record { mode = m; value = bytes } ∷ []
    read_eq : read_as (format m) bytes ≡ ns

  change-Carries :
      IsExact codecs
      → (big : Bool) (m : UpdateConfigMode) (v : Value K) (xs : List Change) → Suits (format m) v
      → change codecs m (converted codecs big v) ≡ ok xs
      → Carries m (words codecs (format m) v) xs
  unfolding change_as
  change-Carries exact big m v xs suits h =
      let (v', e, rest) =
        >>=-eq-ok (converted codecs big v)
          (λ v'. update_reserve_config_encoded_value codecs m v' >>= λ bytes.
            ok (record { mode = m; value = bytes } ∷ []))
          h in
      let (bytes, eb, r) =
        >>=-eq-ok (update_reserve_config_encoded_value codecs m v')
          (λ bytes. ok (record { mode = m; value = bytes } ∷ [])) rest in
      let same : v' ≡ v = converted_eq exact big v v' e in
      record {
        bytes = bytes;
        xs_eq = sym (ok-injective _ _ r);
        read_eq =
            read_as-update_reserve_config_encoded_value codecs m v bytes suits
              (ap (update_reserve_config_encoded_value codecs m) (sym same) ∙ eb);
      }

  module _ ⦃p : PublicKeys K⦄ (exact : IsExact codecs) (old new : ReserveConfig K) where
    -- The numbers are those of the old or of the new configuration.
    abbrev pub Between : UpdateConfigMode → List ℕ → Type 0
    Between m w = (w ≡ stored old m) ⊎ (w ≡ stored new m)

    -- A setting is the same and nothing is pushed, or an update with its new numbers is.
    update_of_cases :
        (h : UpdateConfigMode) (xs : List Change)
        → Suits (format h) (held h new)
        → update_of codecs h old new ≡ ok xs
        → ((xs ≡ []) × (held h old ≡ held h new)) ⊎ Carries h (stored new h) xs
    update_of_cases h xs suits e = elim (Bool-cases (same_value (held h old) (held h new))) [
      | inl same ↦
          let nothing : no_change ≡ ok xs = rw same at e in
          inl (sym (ok-injective _ _ nothing), same_value_eq (held h old) (held h new) same)
      | inr differ ↦
          let pushed : change codecs h (converted codecs (is_big (format h)) (held h new)) ≡ ok xs =
            rw differ at e in
          inr (change-Carries exact (is_big (format h)) h (held h new) xs suits pushed)
    ]

    settle_hit :
        (h m : UpdateConfigMode) (xs : List Change) (w : List ℕ)
        → Suits (format h) (held h new)
        → update_of codecs h old new ≡ ok xs
        → Between m w
        → h ≡ m
        → settle m xs w ≡ stored new m
    settle_hit h m xs w suits e between same = elim (update_of_cases h xs suits e) [
      | inl (none_pushed, held_eq) ↦
          let unchanged : stored old m ≡ stored new m =
            subst (λ k. stored old k ≡ stored new k) same (ap (words codecs (format h)) held_eq) in
          rw none_pushed (elim between [ inl is_old ↦ is_old ∙ unchanged | inr is_new ↦ is_new ])
      | inr c ↦
          let test : (discriminator h == discriminator m) ≡ true =
            rw same (==_refl (discriminator m)) in
          rw (c.xs_eq, test) (subst (λ k. read_as (format k) c.bytes ≡ stored new k) same c.read_eq)
    ]

    settle_missed :
        (h m : UpdateConfigMode) (xs : List Change) (w : List ℕ)
        → Suits (format h) (held h new)
        → update_of codecs h old new ≡ ok xs
        → (discriminator h == discriminator m) ≡ false
        → settle m xs w ≡ w
    settle_missed h m xs w suits e other = elim (update_of_cases h xs suits e) [
      | inl (none_pushed, held_eq) ↦ rw none_pushed refl
      | inr c ↦ rw (c.xs_eq, other) refl
    ]

    pub expected-settle :
        (ms : List UpdateConfigMode) (xs : List Change)
        → All (λ m. Suits (format m) (held m new)) ms
        → expected codecs ms old new ≡ ok xs
        → (m : UpdateConfigMode) (w : List ℕ) → Between m w
        → settle m xs w ≡ (if covered ms m then stored new m else w)
    unfolding expected ◌>+>◌
    expected-settle [] xs suits e m w between = rw (← ok-injective _ _ e) refl
    expected-settle (h ∷ ms) xs (suit, suits) e m w between =
        let (first, ef, rest) =
          >>=-eq-ok (update_of codecs h old new)
            (λ xs. expected codecs ms old new >>= λ ys. ok (xs ++ ys)) e in
        let (second, es, r) =
          >>=-eq-ok (expected codecs ms old new) (λ ys. ok (first ++ ys)) rest in
        let joined : settle m xs w ≡ settle m second (settle m first w) =
          ap (λ cs. settle m cs w) (sym (ok-injective _ _ r)) ∙ settle-append m first second w in
        elim (Bool-cases (discriminator h == discriminator m)) [
          | inl hit ↦
              let now =
                settle_hit h m first w suit ef between
                  (discriminator-injective h m (==_eq _ _ hit)) in
              joined
              ∙ expected-settle ms second suits es m (settle m first w) (inr now)
              ∙ rw (hit, now) (if_same (covered ms m) (stored new m))
          | inr miss ↦
              let now = settle_missed h m first w suit ef miss in
              joined ∙ rw (now, miss) (expected-settle ms second suits es m w between)
        ]

    -- Every mode of a key has a value of the type that it asks for.
    pub modes-Suits : All (λ m. Suits (format m) (held m new)) (modes_of_keys config_keys)
    unfolding format held modes_of
    modes-Suits = omega arith
