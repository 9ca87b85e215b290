-- ===== src/Reserve/Bytes/Laws.antt =====
-- What the writes of numbers leave in a buffer.
use native.Mathlib.Nat.{suc-add}
use mathlib.Core.Path.{subst}
use klend_sdk.Prelude.{
  arith, ℕ, zero, suc, ◌+◌, ◌*◌, ◌/◌, ◌^◌, ◌≤◌, ◌<◌, ◌≡◌, refl, ap, sym, ◌∙◌, List, [], ◌∷◌, ◌++◌,
  take, drop, length, replicate, All, ltb, ltb→lt, Bool-cases, inl, inr, false, leb, true,
  length-replicate, if◌then◌else◌, length-append, append_assoc,
}
use klend_sdk.Prelude.Outcome.{ok, error, ok-injective}
use klend_sdk.Reserve.Bytes.{Buffer, le_bytes, write_uint_le, write_each}

-- The number that bytes stand for, the lowest byte first.
abbrev pub of_le_bytes : Buffer → ℕ
of_le_bytes [] = 0
of_le_bytes (b ∷ bytes) = b + 256 * of_le_bytes bytes

-- `count` numbers of one width that stand side by side.
abbrev pub read_each : ℕ → ℕ → Buffer → List ℕ
read_each width zero bytes = []
read_each width (suc count) bytes =
    of_le_bytes (take width bytes) ∷ read_each width count (drop width bytes)

pub of_le_bytes-le_bytes : (n v : ℕ) → v < 256 ^ n → of_le_bytes (le_bytes n v) ≡ v
unfolding le_bytes
of_le_bytes-le_bytes zero v h = omega arith
of_le_bytes-le_bytes (suc n) v h = omega (arith, of_le_bytes-le_bytes n (v / 256) (omega arith))

pub length-le_bytes : (n v : ℕ) → length (le_bytes n v) ≡ n
unfolding le_bytes
length-le_bytes zero v = refl
length-le_bytes (suc n) v = omega (arith, length-le_bytes n (v / 256))

-- A write into a cell of its width replaces that cell alone.
take_cell : (pre rest : Buffer) → take (length pre) (pre ++ rest) ≡ pre
take_cell [] rest = refl
take_cell (x ∷ pre) rest = λ i. x ∷ take_cell pre rest i

drop_cell : (pre mid rest : Buffer) → drop (length pre + length mid) (pre ++ (mid ++ rest)) ≡ rest
drop_cell [] [] rest = refl
drop_cell [] (m ∷ mid) rest =
    let shorter : 0 + suc (length mid) ≡ suc (0 + length mid) = omega arith in
    rw shorter (drop_cell [] mid rest)
drop_cell (x ∷ pre) mid rest = rw suc-add (drop_cell pre mid rest)

cell_in_bounds :
    (pre mid rest : Buffer) → leb (length pre + length mid) (length (pre ++ (mid ++ rest))) ≡ true
cell_in_bounds pre mid rest =
    ground (arith, length-append {0} pre (mid ++ rest), length-append {0} mid rest)

write_uint_le-cell :
    (v : ℕ) (pre mid rest : Buffer)
    → write_uint_le v (length pre) (length mid) (pre ++ (mid ++ rest)) ≡ (
        if ltb v (256 ^ length mid)
        then ok (pre ++ (le_bytes (length mid) v ++ rest))
        else error "ERR_OUT_OF_RANGE")
unfolding write_uint_le
write_uint_le-cell v pre mid rest =
    rw (cell_in_bounds pre mid rest, take_cell pre (mid ++ rest), drop_cell pre mid rest)

pub write_uint_le-blank :
    (v n : ℕ) (pre rest : Buffer)
    → write_uint_le v (length pre) n (pre ++ (replicate n 0 ++ rest))
      ≡ (if ltb v (256 ^ n) then ok (pre ++ (le_bytes n v ++ rest)) else error "ERR_OUT_OF_RANGE")
write_uint_le-blank v n pre rest =
    let size = length-replicate n 0 in
    subst
      (λ w. write_uint_le v (length pre) w (pre ++ (replicate n 0 ++ rest)) ≡ (
        if ltb v (256 ^ w) then ok (pre ++ (le_bytes w v ++ rest)) else error "ERR_OUT_OF_RANGE"))
      size (write_uint_le-cell v pre (replicate n 0) rest)

-- `count` cells of zeros, and the cells after numbers were written from the first one on.
abbrev pub blank : ℕ → ℕ → Buffer
blank width zero = []
blank width (suc count) = replicate width 0 ++ blank width count

abbrev pub fill : ℕ → List ℕ → ℕ → Buffer
fill width [] count = blank width count
fill width (v ∷ vs) zero = []
fill width (v ∷ vs) (suc count) = le_bytes width v ++ fill width vs count

-- The numbers, and zeros behind them.
abbrev pub pad : ℕ → List ℕ → List ℕ
pad count [] = replicate count 0
pad zero (v ∷ vs) = []
pad (suc count) (v ∷ vs) = v ∷ pad count vs

write_uint_le_outside :
    (v w : ℕ) (pre : Buffer) (vs : List ℕ) (r : Buffer)
    → write_each (suc w) (v ∷ vs) (length pre) (pre ++ []) ≡ ok r
    → ⊥
unfolding write_each write_uint_le
write_uint_le_outside v w pre vs r h = ground (arith, length-append {0} pre [])

module _ (v w : ℕ) (pre : Buffer) (vs : List ℕ) (count : ℕ) (r : Buffer) where
  write_first :
      ltb v (256 ^ suc w) ≡ true
      → write_each (suc w) (v ∷ vs) (length pre) (pre ++ blank (suc w) (suc count)) ≡ ok r
      → write_each
          (suc w)
          vs
          (length pre + suc w)
          (pre ++ (le_bytes (suc w) v ++ blank (suc w) count))
        ≡ ok r
  unfolding write_each
  write_first fits h = ground (arith, write_uint_le-blank v (suc w) pre (blank (suc w) count))

  write_large :
      ltb v (256 ^ suc w) ≡ false
      → write_each (suc w) (v ∷ vs) (length pre) (pre ++ blank (suc w) (suc count)) ≡ ok r
      → ⊥
  unfolding write_each
  write_large fits h = ground (arith, write_uint_le-blank v (suc w) pre (blank (suc w) count))

write_each-fill :
    (w : ℕ) (vs : List ℕ) (count : ℕ) (pre r : Buffer)
    → write_each (suc w) vs (length pre) (pre ++ blank (suc w) count) ≡ ok r
    → (r ≡ pre ++ fill (suc w) vs count) × All (λ v. v < 256 ^ suc w) vs × (length vs ≤ count)
unfolding write_each
write_each-fill w [] count pre r h = (sym (ok-injective _ _ h), tt, omega arith)
write_each-fill w (v ∷ vs) zero pre r h = absurd (write_uint_le_outside v w pre vs r h)
write_each-fill w (v ∷ vs) (suc count) pre r h = elim (Bool-cases (ltb v (256 ^ suc w))) [
  | inl fits ↦
      let cell = le_bytes (suc w) v in
      let next : write_each (suc w) vs (length pre + suc w) (pre ++ (cell ++ blank (suc w) count))
          ≡ ok r =
        write_first v w pre vs count r fits h in
      let there : length pre + suc w ≡ length (pre ++ cell) =
        omega (arith, length-append {0} pre cell, length-le_bytes (suc w) v) in
      let (r_eq, rest, room) =
        write_each-fill w vs count (pre ++ cell) r (rw (← there, append_assoc) next) in
      (
        r_eq ∙ append_assoc pre cell (fill (suc w) vs count),
        (ltb→lt v (256 ^ suc w) fits, rest),
        omega (arith, room),
      )
  | inr large ↦ absurd (write_large v w pre vs count r large h)
]

of_le_bytes-zeros : (n : ℕ) → of_le_bytes (replicate n 0) ≡ 0
of_le_bytes-zeros zero = refl
of_le_bytes-zeros (suc n) = omega (arith, of_le_bytes-zeros n)

drop_first : (cell rest : Buffer) → drop (length cell) (cell ++ rest) ≡ rest
drop_first [] rest = refl
drop_first (x ∷ cell) rest = drop_first cell rest

read_cell :
    (w count : ℕ) (cell rest : Buffer)
    → length cell ≡ w
    → read_each w (suc count) (cell ++ rest) ≡ of_le_bytes cell ∷ read_each w count rest
read_cell w count cell rest h =
    subst (λ n. read_each n (suc count) (cell ++ rest) ≡ of_le_bytes cell ∷ read_each n count rest)
      h (rw (take_cell cell rest, drop_first cell rest) refl)

read_each-blank : (w count : ℕ) → read_each w count (blank w count) ≡ replicate count 0
read_each-blank w zero = refl
read_each-blank w (suc count) =
    read_cell w count (replicate w 0) (blank w count) (length-replicate w 0)
    ∙ rw (of_le_bytes-zeros w, read_each-blank w count) refl

read_each-fill :
    (w : ℕ) (vs : List ℕ) (count : ℕ)
    → All (λ v. v < 256 ^ w) vs
    → read_each w count (fill w vs count) ≡ pad count vs
read_each-fill w [] count fits = read_each-blank w count
read_each-fill w (v ∷ vs) zero fits = refl
read_each-fill w (v ∷ vs) (suc count) (h, fits) =
    read_cell w count (le_bytes w v) (fill w vs count) (length-le_bytes w v)
    ∙ rw (of_le_bytes-le_bytes w v h, read_each-fill w vs count fits) refl

-- If the numbers were written, reading the cells gives them back, and zeros in the cells behind.
pub read_each-write_each :
    (w : ℕ) (vs : List ℕ) (count : ℕ) (r : Buffer)
    → write_each (suc w) vs 0 (blank (suc w) count) ≡ ok r
    → (read_each (suc w) count r ≡ pad count vs)
      × All (λ v. v < 256 ^ suc w) vs
      × (length vs ≤ count)
read_each-write_each w vs count r h =
    let (r_eq, fits, room) = write_each-fill w vs count [] r h in
    (ap (read_each (suc w) count) r_eq ∙ read_each-fill (suc w) vs count fits, fits, room)
