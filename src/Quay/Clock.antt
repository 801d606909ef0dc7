-- ===== src/Quay/Clock.antt =====
-- `decode_clock` of src/quay/mod.rs, and the layout that it reads.
use quay_titan_integration.Prelude.{
  ℕ, ◌+◌, ◌^◌, ◌≤◌, ◌<◌, ◌≡◌, Option, none, some, List, ◌++◌, ltb, if◌then◌else◌, length, take,
  drop, take_prefix, drop_prefix, sym, false, ◌↔◌, length-append, append_assoc, arith, ap, ◌∙◌,
}
use quay_titan_integration.Prelude.Bytes.{
  le_bytes, from_le_bytes, length-le_bytes, from_le_bytes-le_bytes,
}
use quay_titan_integration.Prelude.Int.{
  ℤ, pos, negsuc, signed64, pattern64, IsI64, signed64-pattern64,
}

abbrev pub clock_slot_offset : ℕ
clock_slot_offset = 0

abbrev pub clock_unix_ts_offset : ℕ
clock_unix_ts_offset = 32

abbrev pub clock_min_len : ℕ
clock_min_len = clock_unix_ts_offset + 8

-- `data[at..at + 8]` of a buffer that is long enough.
abbrev pub eight_bytes : List ℕ → ℕ → List ℕ
eight_bytes buffer at = take 8 (drop at buffer)

unfoldable pub decode_clock : List ℕ → Option (ℕ × ℤ)
decode_clock buffer =
    if ltb (length buffer) clock_min_len
    then none
    else some (
      from_le_bytes (eight_bytes buffer clock_slot_offset),
      signed64 (from_le_bytes (eight_bytes buffer clock_unix_ts_offset)),
    )

abbrev pub clock_layout : ℕ → ℤ → List ℕ → List ℕ → List ℕ
clock_layout slot timestamp middle rest =
    le_bytes 8 slot ++ (middle ++ (le_bytes 8 (pattern64 timestamp) ++ rest))

pattern64-lt : (z : ℤ) → pattern64 z < 256 ^ 8
pattern64-lt (pos n) = omega arith
pattern64-lt (negsuc n) = omega arith

module _ (slot : ℕ) (timestamp : ℤ) (middle rest : List ℕ) (m : length middle ≡ 24) where
  layout_length : 40 ≤ length (clock_layout slot timestamp middle rest)
  layout_length = omega (
    arith,
    length-append (le_bytes 8 slot) (middle ++ (le_bytes 8 (pattern64 timestamp) ++ rest)),
    length-append middle (le_bytes 8 (pattern64 timestamp) ++ rest),
    length-append (le_bytes 8 (pattern64 timestamp)) rest,
    length-le_bytes 8 slot,
    length-le_bytes 8 (pattern64 timestamp),
  )

  layout_slot : eight_bytes (clock_layout slot timestamp middle rest) 0 ≡ le_bytes 8 slot
  layout_slot = take_prefix 8 (le_bytes 8 slot) _ (length-le_bytes 8 slot)

  layout_timestamp :
      eight_bytes (clock_layout slot timestamp middle rest) 32 ≡ le_bytes 8 (pattern64 timestamp)
  layout_timestamp =
      let tail = le_bytes 8 (pattern64 timestamp) ++ rest in
      let regroup = ap (drop 32) (sym (append_assoc (le_bytes 8 slot) middle tail)) in
      let prefix : length (le_bytes 8 slot ++ middle) ≡ 32 =
        omega (arith, length-append (le_bytes 8 slot) middle, length-le_bytes 8 slot) in
      ap (take 8) (regroup ∙ drop_prefix 32 (le_bytes 8 slot ++ middle) tail prefix)
      ∙ take_prefix 8 (le_bytes 8 (pattern64 timestamp)) rest
          (length-le_bytes 8 (pattern64 timestamp))

  -- `decode_clock` on the layout of the `Clock` sysvar gives the slot and the signed timestamp that
  -- it holds, whatever the 24 bytes between them and the bytes after them are.
  decode_clock-layout :
      slot < 256 ^ 8
      → IsI64 timestamp
      → decode_clock (clock_layout slot timestamp middle rest) ≡ some (slot, timestamp)
  unfolding decode_clock
  decode_clock-layout h k =
      let long : ltb (length (clock_layout slot timestamp middle rest)) 40 ≡ false =
        ground (arith, layout_length) in
      let slot_read : from_le_bytes (eight_bytes (clock_layout slot timestamp middle rest) 0)
          ≡ slot =
        ap from_le_bytes layout_slot ∙ from_le_bytes-le_bytes 8 slot h in
      let ts_read : signed64
            (from_le_bytes (eight_bytes (clock_layout slot timestamp middle rest) 32))
          ≡ timestamp =
        ap (λ b. signed64 (from_le_bytes b)) layout_timestamp
        ∙ ap signed64 (from_le_bytes-le_bytes 8 (pattern64 timestamp) (pattern64-lt timestamp))
        ∙ signed64-pattern64 timestamp k in
      rw long (λ i. some (slot_read i, ts_read i))

-- A buffer is decoded exactly when it has the 40 bytes of the layout.
pub decode_clock-none : (buffer : List ℕ) → (decode_clock buffer ≡ none) ↔ (length buffer < 40)
unfolding decode_clock
decode_clock-none buffer = ground arith
