-- ===== src/Reserve/Encode/Laws.antt =====
-- What the bytes hold that `updateReserveConfigEncodedValue` of src/classes/reserve.ts returns.
use native.Mathlib.Nat.{suc-add, zero-add, zero-mul}
use klend_sdk.Prelude.{
  arith, append-nil, ◌≡◌, refl, ◌<◌, ◌/◌, zero, suc, ◌++◌, sym, ap, replicate, ◌∙◌, ℕ, ◌+◌, ◌*◌,
  List, [], ◌∷◌, length, take,
}
use klend_sdk.Prelude.Outcome.{ok, ◌>>=◌, bind_ok, ok-injective}
use klend_sdk.Reserve.Data.{CurvePoint, BorrowRateCurve}
use klend_sdk.Reserve.Bytes.{Buffer, alloc, write_uint_le, write_each}
use klend_sdk.Reserve.Bytes.Laws.{of_le_bytes, read_each, blank, pad, read_each-write_each}
use klend_sdk.Reserve.Interfaces.{Codecs}
use klend_sdk.Reserve.Modes.{UpdateConfigMode}
use klend_sdk.Reserve.Modes
use klend_sdk.Reserve.Encode.{
  Value, number, numbers, curve, public_key, Format, unsigned, sequence, pair, key_bytes,
  curve_bytes, nothing, format, encode_as, update_reserve_config_encoded_value,
  serialize_borrow_rate_curve, write_points,
}

-- The words of a serialised curve behind their count.
abbrev pub point_words : List CurvePoint → List ℕ
point_words [] = []
point_words (point ∷ rest) = point.utilization_rate_bps ∷ point.borrow_rate_bps ∷ point_words rest

-- How a reader of the bytes finds the numbers in them. The count of a curve's points comes first.
abbrev pub read_as : Format → Buffer → List ℕ
read_as (unsigned width) bytes = read_each width 1 bytes
read_as (sequence width size) bytes = read_each width (size / width) bytes
read_as pair bytes = read_each 8 2 bytes
read_as key_bytes bytes = bytes
read_as curve_bytes bytes = read_each 4 (suc (2 * of_le_bytes (take 4 bytes))) bytes
read_as nothing bytes = []

module _ {K : Type 0} where
  -- The value has the type that the mode asks for.
  abbrev pub Suits : Format → Value K → Type 0
  Suits (unsigned width) (number n) = Unit
  Suits (sequence width size) (numbers ns) = Unit
  Suits pair (numbers (a ∷ c ∷ [])) = Unit
  Suits key_bytes (public_key k) = Unit
  Suits curve_bytes (curve c) = Unit
  Suits _ _ = ⊥

module _ {K : Type 0} (codecs : Codecs K) where
  -- The numbers that the bytes should hold; an array is followed by zeros.
  abbrev pub words : Format → Value K → List ℕ
  words (sequence width size) (numbers ns) = pad (size / width) ns
  words _ (number n) = n ∷ []
  words _ (numbers ns) = ns
  words _ (curve c) = length c.points ∷ point_words c.points
  words _ (public_key k) = codecs.to_buffer k

-- Cells of the width fill the buffer.
abbrev pub Sized : Format → Type 0
Sized (unsigned width) = 0 < width
Sized (sequence width size) = (0 < width) × (alloc size ≡ blank width (size / width))
Sized _ = 0 < 1

pub format-Sized : (m : UpdateConfigMode) → Sized (format m)
unfolding format
format-Sized Modes.update_token_info_scope_chain = (omega arith, refl)
format-Sized Modes.update_token_info_scope_twap = (omega arith, refl)
format-Sized Modes.update_token_info_name = (omega arith, refl)
format-Sized Modes.update_elevation_group = (omega arith, refl)
format-Sized Modes.update_borrow_limits_in_elevation_group_against_this_reserve =
    (omega arith, refl)
format-Sized Modes.update_max_liquidation_bonus_bps = omega arith
format-Sized _ = omega arith

replicate-append : (m n : ℕ) → alloc m ++ alloc n ≡ alloc (m + n)
replicate-append zero n = rw zero-add refl
replicate-append (suc m) n = rw suc-add (λ i. 0 ∷ replicate-append m n i)

alloc-blank : (w count : ℕ) → alloc (count * w) ≡ blank w count
alloc-blank w zero = rw zero-mul refl
alloc-blank w (suc count) =
    let grown : suc count * w ≡ w + count * w = grind arith in
    rw (grown, ← replicate-append w (count * w))
      (ap (λ rest. replicate w 0 ++ rest) (alloc-blank w count))

point_words-write_each :
    (points : List CurvePoint) (offset : ℕ) (buffer : Buffer)
    → write_points points offset buffer ≡ write_each 4 (point_words points) offset buffer
unfolding write_points write_each
point_words-write_each [] offset buffer = refl
point_words-write_each (point ∷ rest) offset buffer =
    let later : offset + 8 ≡ offset + 4 + 4 = omega arith in
    λ i. write_uint_le point.utilization_rate_bps offset 4 buffer >>= λ first.
    write_uint_le point.borrow_rate_bps (offset + 4) 4 first >>= λ second.
    (point_words-write_each rest (offset + 8) second
        ∙ ap (λ o. write_each 4 (point_words rest) o second) later)
      i

pub length-point_words :
    (points : List CurvePoint) → length (point_words points) ≡ 2 * length points
length-point_words [] = omega arith
length-point_words (point ∷ rest) = omega (arith, length-point_words rest)

pad-length : (ns : List ℕ) → pad (length ns) ns ≡ ns
pad-length [] = refl
pad-length (n ∷ ns) = λ i. n ∷ pad-length ns i

-- What one loop of writes left, read back.
pub read_written :
    (w : ℕ) (vs : List ℕ) (count : ℕ) (r : Buffer)
    → 0 < w
    → write_each w vs 0 (blank w count) ≡ ok r
    → read_each w count r ≡ pad count vs
read_written zero vs count r h e = absurd (omega arith)
read_written (suc w) vs count r h e = (read_each-write_each w vs count r e).0

write_each-snoc : (w v o : ℕ) (b : Buffer) → write_each w (v ∷ []) o b ≡ write_uint_le v o w b
unfolding write_each
write_each-snoc w v o b = bind_ok (write_uint_le v o w b)

pub serialize-write_each :
    (c : BorrowRateCurve)
    → let count = length c.points in
      serialize_borrow_rate_curve c
      ≡ write_each 4 (count ∷ point_words c.points) 0 (blank 4 (suc (2 * count)))
unfolding serialize_borrow_rate_curve write_each
serialize-write_each c =
    let count : ℕ = length c.points in
    let size : 4 + 8 * count ≡ suc (2 * count) * 4 = omega arith in
    let buffers : alloc (4 + 8 * count) ≡ blank 4 (suc (2 * count)) =
      ap alloc size ∙ alloc-blank 4 (suc (2 * count)) in
    λ i.
      write_uint_le count 0 4 (buffers i) >>= λ counted. point_words-write_each c.points 4 counted i

read_curve :
    (c : BorrowRateCurve) (r : Buffer)
    → serialize_borrow_rate_curve c ≡ ok r
    → read_as curve_bytes r ≡ length c.points ∷ point_words c.points
read_curve c r h =
    let count : ℕ = length c.points in
    let whole =
      read_written 4 (count ∷ point_words c.points) (suc (2 * count)) r (omega arith)
        (sym (serialize-write_each c) ∙ h) in
    let exact : pad (2 * count) (point_words c.points) ≡ point_words c.points =
      rw (← length-point_words c.points) (pad-length (point_words c.points)) in
    let first : of_le_bytes (take 4 r) ≡ count = cc whole in
    ap (λ n. read_each 4 (suc (2 * n)) r) first ∙ whole ∙ ap (λ rest. count ∷ rest) exact

-- The two numbers of a cap.
read_pair :
    (a c : ℕ) (r : Buffer)
    → (write_uint_le a 0 8 (alloc 16) >>= λ written. write_uint_le c 8 8 written) ≡ ok r
    → read_each 8 2 r ≡ a ∷ c ∷ []
unfolding write_each
read_pair a c r h =
    let both : write_each 8 (a ∷ c ∷ []) 0 (blank 8 2) ≡ ok r =
      (λ i. write_uint_le a 0 8 (alloc 16) >>= λ written. bind_ok (write_uint_le c 8 8 written) i)
      ∙ h in
    read_written 8 (a ∷ c ∷ []) 2 r (omega arith) both

module _ {K : Type 0} (codecs : Codecs K) where
  read_as-encode_as :
      (f : Format) (value : Value K) (bytes : Buffer)
      → Sized f
      → Suits f value
      → encode_as codecs f value ≡ ok bytes
      → read_as f bytes ≡ words codecs f value
  unfolding encode_as write_each
  read_as-encode_as (unsigned width) (number n) bytes sized suits h =
      read_written width (n ∷ []) 1 bytes sized
        (bind_ok (write_uint_le n 0 width (blank width 1)) ∙ rw append-nil h)
  read_as-encode_as (sequence width size) (numbers ns) bytes (wide, whole) suits h =
      read_written width ns (size / width) bytes wide (rw (← whole) h)
  read_as-encode_as pair (numbers (a ∷ c ∷ [])) bytes sized suits h = read_pair a c bytes h
  read_as-encode_as key_bytes (public_key k) bytes sized suits h = sym (ok-injective _ _ h)
  read_as-encode_as curve_bytes (curve c) bytes sized suits h = read_curve c bytes h
  read_as-encode_as _ _ bytes sized suits h = absurd suits

  -- If a value of the type that a mode asks for is encoded, then reading the bytes in the cells of the
  -- mode's format gives back its numbers: a number, the two numbers of a cap, an array followed by
  -- zeros, the count and the points of a curve, or the bytes of a key.
  pub read_as-update_reserve_config_encoded_value :
      (m : UpdateConfigMode) (value : Value K) (bytes : Buffer)
      → Suits (format m) value
      → update_reserve_config_encoded_value codecs m value ≡ ok bytes
      → read_as (format m) bytes ≡ words codecs (format m) value
  unfolding update_reserve_config_encoded_value
  read_as-update_reserve_config_encoded_value m value bytes suits h =
      read_as-encode_as (format m) value bytes (format-Sized m) suits h
