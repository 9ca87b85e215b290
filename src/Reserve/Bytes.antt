-- ===== src/Reserve/Bytes.antt =====
-- The writes of Node's Buffer that src/classes/reserve.ts uses: unsigned numbers, the lowest byte
-- first. A buffer is the list of its bytes.
pub mod Laws
pub mod Returns
use klend_sdk.Prelude.{
  ℕ, zero, suc, ◌+◌, ◌/◌, ◌%◌, ◌^◌, List, [], ◌∷◌, ◌++◌, take, drop, length, replicate, ltb, leb,
  if◌then◌else◌,
}
use klend_sdk.Prelude.Outcome.{Outcome, ok, error, ◌>>=◌}

abbrev pub Buffer : Type 0
Buffer = List ℕ

-- `Buffer.alloc(size)`.
abbrev pub alloc : ℕ → Buffer
alloc size = replicate size 0

unfoldable pub le_bytes : ℕ → ℕ → Buffer
le_bytes zero value = []
le_bytes (suc n) value = (value % 256) ∷ le_bytes n (value / 256)

-- `writeUIntLE(value, offset, byte_length)`; `writeUInt16LE`, `writeUInt32LE` and
-- `writeBigUint64LE` are its cases of 2, 4 and 8 bytes. A number that does not fit and a place out
-- of bounds throw.
unfoldable pub write_uint_le : ℕ → ℕ → ℕ → Buffer → Outcome Buffer
write_uint_le value offset byte_length buffer =
    if ltb value (256 ^ byte_length)
    then if leb (offset + byte_length) (length buffer)
      then ok
          (take offset buffer ++ (le_bytes byte_length value ++ drop (offset + byte_length) buffer))
      else error "ERR_BUFFER_OUT_OF_BOUNDS"
    else error "ERR_OUT_OF_RANGE"

-- A loop that writes numbers of one width side by side.
unfoldable pub write_each : ℕ → List ℕ → ℕ → Buffer → Outcome Buffer
write_each width [] offset buffer = ok buffer
write_each width (value ∷ rest) offset buffer = do
  written ← write_uint_le value offset width buffer
  write_each width rest (offset + width) written
