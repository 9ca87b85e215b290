-- ===== src/Reserve/Bytes/Returns.antt =====
-- Writes of numbers that fit return.
use klend_sdk.Prelude.{
  ℕ, zero, suc, ◌+◌, ◌^◌, ◌≤◌, ◌<◌, ◌≡◌, refl, ◌∙◌, List, [], ◌∷◌, ◌++◌, length, All, ltb, true,
  length-append, append_assoc, arith,
}
use klend_sdk.Prelude.Outcome.{ok}
use klend_sdk.Reserve.Bytes.{Buffer, le_bytes, write_each}
use klend_sdk.Reserve.Bytes.Laws.{length-le_bytes, write_uint_le-blank, blank, fill}

lt→ltb : (a b : ℕ) → a < b → ltb a b ≡ true
lt→ltb a b h = ground arith

write_each_next :
    (w v : ℕ) (vs : List ℕ) (count : ℕ) (pre : Buffer)
    → v < 256 ^ w
    → write_each w (v ∷ vs) (length pre) (pre ++ blank w (suc count))
      ≡ write_each w vs (length (pre ++ le_bytes w v)) ((pre ++ le_bytes w v) ++ blank w count)
unfolding write_each
write_each_next w v vs count pre h =
    let there : length (pre ++ le_bytes w v) ≡ length pre + w =
      omega (arith, length-append {0} pre (le_bytes w v), length-le_bytes w v) in
    rw
      (
        there,
        append_assoc pre (le_bytes w v) (blank w count),
        write_uint_le-blank v w pre (blank w count),
        lt→ltb v (256 ^ w) h,
      )
      refl

write_each_none : (w o : ℕ) (b : Buffer) → write_each w [] o b ≡ ok b
unfolding write_each
write_each_none w o b = refl

pub write_each_returns :
    (w : ℕ) (vs : List ℕ) (count : ℕ) (pre : Buffer)
    → All (λ v. v < 256 ^ w) vs
    → length vs ≤ count
    → write_each w vs (length pre) (pre ++ blank w count) ≡ ok (pre ++ fill w vs count)
write_each_returns w [] count pre fits room = write_each_none w (length pre) (pre ++ blank w count)
write_each_returns w (v ∷ vs) zero pre fits room = absurd (omega arith)
write_each_returns w (v ∷ vs) (suc count) pre (h, fits) room =
    write_each_next w v vs count pre h
    ∙ write_each_returns w vs count (pre ++ le_bytes w v) fits (omega arith)
    ∙ rw (append_assoc pre (le_bytes w v) (fill w vs count)) refl
