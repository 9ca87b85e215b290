-- ===== src/Reserve/Encode/Returns.antt =====
-- When `updateReserveConfigEncodedValue` of src/classes/reserve.ts returns.
use klend_sdk.Prelude.{
  suc, ◌*◌, ◌/◌, ◌^◌, ◌≤◌, ◌<◌, ◌≡◌, refl, sym, ap, ◌∙◌, [], ◌∷◌, append-nil, length, All, arith,
}
use klend_sdk.Prelude.Outcome.{Outcome, ok, ◌>>=◌, bind_ok}
use klend_sdk.Reserve.Data.{BorrowRateCurve}
use klend_sdk.Reserve.Bytes.{alloc, write_uint_le, write_each}
use klend_sdk.Reserve.Bytes.Laws.{fill}
use klend_sdk.Reserve.Bytes.Returns.{write_each_returns}
use klend_sdk.Reserve.Interfaces.{Codecs}
use klend_sdk.Reserve.Modes.{UpdateConfigMode}
use klend_sdk.Reserve.Encode.{
  Value, number, numbers, curve, public_key, Format, unsigned, sequence, pair, key_bytes,
  curve_bytes, format, encode_as, update_reserve_config_encoded_value, serialize_borrow_rate_curve,
}
use klend_sdk.Reserve.Encode.Laws.{
  Sized, format-Sized, point_words, length-point_words, serialize-write_each,
}

-- The computation returns.
abbrev pub Returns : {A : Type 0} → Outcome A → Type 0
Returns {A} o = (a : A) × (o ≡ ok a)

-- The value has the type that the format asks for, and its numbers the room.
abbrev pub Fits : {K : Type 0} → Format → Value K → Type 0
Fits (unsigned width) (number n) = n < 256 ^ width
Fits (sequence width size) (numbers ns) = (length ns ≤ size / width) × All (λ n. n < 256 ^ width) ns
Fits pair (numbers (a ∷ c ∷ [])) = (a < 256 ^ 8) × (c < 256 ^ 8)
Fits key_bytes (public_key k) = Unit
Fits curve_bytes (curve c) =
    (length c.points < 256 ^ 4) × All (λ n. n < 256 ^ 4) (point_words c.points)
Fits _ _ = ⊥

curve-Returns :
    (c : BorrowRateCurve)
    → length c.points < 256 ^ 4
    → All (λ n. n < 256 ^ 4) (point_words c.points)
    → Returns (serialize_borrow_rate_curve c)
curve-Returns c count words_fit = (
  fill 4 (length c.points ∷ point_words c.points) (suc (2 * length c.points)),
  serialize-write_each c
      ∙ write_each_returns 4 (length c.points ∷ point_words c.points) (suc (2 * length c.points)) []
          (count, words_fit) (omega (arith, length-point_words c.points)),
)

module _ {K : Type 0} (codecs : Codecs K) where
  encode_as-Returns :
      (f : Format) (value : Value K) → Sized f → Fits f value → Returns (encode_as codecs f value)
  unfolding encode_as write_each
  encode_as-Returns (unsigned width) (number n) sized fits =
      let written = write_each_returns width (n ∷ []) 1 [] (fits, tt) (omega arith) in
      (fill width (n ∷ []) 1, rw (← append-nil (alloc width)) (sym (bind_ok _) ∙ written))
  encode_as-Returns (sequence width size) (numbers ns) (wide, whole) (room, fits) = (
    fill width ns (size / width),
    ap (write_each width ns 0) whole ∙ write_each_returns width ns (size / width) [] fits room,
  )
  encode_as-Returns pair (numbers (a ∷ c ∷ [])) sized (first, second) =
      let written = write_each_returns 8 (a ∷ c ∷ []) 2 [] (first, (second, tt)) (omega arith) in
      (
        fill 8 (a ∷ c ∷ []) 2,
        (λ i. write_uint_le a 0 8 (alloc 16) >>= λ b. sym (bind_ok (write_uint_le c 8 8 b)) i)
            ∙ written,
      )
  encode_as-Returns key_bytes (public_key k) sized fits = (codecs.to_buffer k, refl)
  encode_as-Returns curve_bytes (curve c) sized fits = curve-Returns c fits.0 fits.1
  encode_as-Returns _ _ sized fits = absurd fits

  pub update_reserve_config_encoded_value-Returns :
      (m : UpdateConfigMode) (value : Value K)
      → Fits (format m) value
      → Returns (update_reserve_config_encoded_value codecs m value)
  unfolding update_reserve_config_encoded_value
  update_reserve_config_encoded_value-Returns m value fits =
      encode_as-Returns (format m) value (format-Sized m) fits
