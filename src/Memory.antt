-- ===== src/Memory.antt =====
-- src/util/xor.h and the bitmaps of src/util/allocator.cpp: bytes in memory, at addresses that do not
-- wrap.
pub mod Bitmaps
pub mod Zeroes
pub mod Copies
pub mod Xor
use vitastor.Base.{
  ℕ, zero, suc, ◌+◌, ◌-◌, ◌*◌, ◌/◌, ◌%◌, ◌^◌, bit_and, bit_or, bit_xor, Bool, true, false, ◌&&◌,
  ◌||◌, ltb, leb, ◌==◌, ◌!=◌, if◌then◌else◌,
}
use vitastor.Base.Words.{uint32_max, add32, add64, sub64, mul64}

abbrev pub Memory : Type 0
Memory = ℕ → ℕ

unfoldable pub write : ℕ → ℕ → Memory → Memory
write a v m = λ x. if x == a then v else m x

-- `memxor` from the byte `i` on
unfoldable pub xor_from : ℕ → ℕ → ℕ → ℕ → ℕ → Memory → Memory
xor_from zero i r1 r2 res m = m
xor_from (suc left) i r1 r2 res m =
    xor_from left (i + 1) r1 r2 res (write (res + i) (bit_xor (m (r1 + i)) (m (r2 + i))) m)

-- `memxor`
unfoldable pub memxor : ℕ → ℕ → ℕ → ℕ → Memory → Memory
memxor r1 r2 res len m = xor_from len 0 r1 r2 res m

-- `memcpy`
unfoldable pub memcpy : ℕ → ℕ → ℕ → Memory → Memory
memcpy dest src zero m = m
memcpy dest src (suc n) m = memcpy (dest + 1) (src + 1) n (write dest (m src) m)

-- The bytes of one value, as the store of a wide integer writes them.
unfoldable pub fill : ℕ → ℕ → ℕ → Memory → Memory
fill zero a v m = m
fill (suc n) a v m = fill n (a + 1) v (write a v m)

-- `(start + len + bitmap_granularity - 1) / bitmap_granularity`, as an `unsigned`
abbrev pub last_bit : ℕ → ℕ → ℕ → ℕ
last_bit start len bitmap_granularity =
    sub64 (add64 (add64 start len) bitmap_granularity) 1 / bitmap_granularity % 2 ^ 32

-- A byte of which all bits are in the range.
abbrev pub is_whole_byte : ℕ → ℕ → Bool
is_whole_byte bit_start bit_end = bit_start % 8 == 0 && leb (add32 bit_start 8) bit_end

-- The loop of `bitmap_set`. As many rounds as there are bits are enough.
unfoldable pub set_bits : ℕ → ℕ → ℕ → ℕ → Memory → Memory
set_bits zero bit_start bit_end bitmap m = m
set_bits (suc fuel) bit_start bit_end bitmap m =
    let byte = bitmap + bit_start / 8 in
    let whole = is_whole_byte bit_start bit_end in
    let v = if whole then 255 else bit_or (m byte) (2 ^ (bit_start % 8)) in
    let rest =
      set_bits fuel (add32 bit_start (if whole then 8 else 1)) bit_end bitmap (write byte v m) in
    if ltb bit_start bit_end then rest else m

-- `bitmap_set`
unfoldable pub bitmap_set : ℕ → ℕ → ℕ → ℕ → Memory → Memory
bitmap_set bitmap start len bitmap_granularity m =
    let bit_start = start / bitmap_granularity % 2 ^ 32 in
    let bit_end = last_bit start len bitmap_granularity in
    if start == 0 && len == mul64 32 bitmap_granularity
    then fill 4 bitmap 255 m
    else if start == 0 && len == mul64 64 bitmap_granularity
    then fill 8 bitmap 255 m
    else set_bits (bit_end - bit_start) bit_start bit_end bitmap m

-- The loop of `bitmap_clear`
unfoldable pub clear_bits : ℕ → ℕ → ℕ → ℕ → Memory → Memory
clear_bits zero bit_start bit_end bitmap m = m
clear_bits (suc fuel) bit_start bit_end bitmap m =
    let byte = bitmap + bit_start / 8 in
    let whole = is_whole_byte bit_start bit_end in
    let v = if whole then 0 else bit_and (m byte) (bit_xor 255 (2 ^ (bit_start % 8))) in
    let rest =
      clear_bits fuel (add32 bit_start (if whole then 8 else 1)) bit_end bitmap (write byte v m) in
    if ltb bit_start bit_end then rest else m

-- `bitmap_clear`
unfoldable pub bitmap_clear : ℕ → ℕ → ℕ → ℕ → Memory → Memory
bitmap_clear bitmap start len bitmap_granularity m =
    let bit_start = start / bitmap_granularity % 2 ^ 32 in
    let bit_end = last_bit start len bitmap_granularity in
    if start == 0 && len == mul64 32 bitmap_granularity
    then fill 4 bitmap 0 m
    else if start == 0 && len == mul64 64 bitmap_granularity
    then fill 8 bitmap 0 m
    else clear_bits (bit_end - bit_start) bit_start bit_end bitmap m

-- One of `n` bytes is not zero.
unfoldable pub any_byte : ℕ → ℕ → Memory → Bool
any_byte zero a m = false
any_byte (suc n) a m = m a != 0 || any_byte n (a + 1) m

-- The loop of `bitmap_check`
unfoldable pub check_bits : ℕ → ℕ → ℕ → ℕ → Memory → Bool → Bool
check_bits zero bit_start bit_end bitmap m r = r
check_bits (suc fuel) bit_start bit_end bitmap m r =
    let byte = bitmap + bit_start / 8 in
    let whole = is_whole_byte bit_start bit_end in
    let v = if whole then m byte else bit_and (m byte) (2 ^ (bit_start % 8)) in
    let rest =
      check_bits fuel (add32 bit_start (if whole then 8 else 1)) bit_end bitmap m (r || v != 0) in
    if ltb bit_start bit_end then rest else r

-- `bitmap_check`
unfoldable pub bitmap_check : ℕ → ℕ → ℕ → ℕ → Memory → Bool
bitmap_check bitmap start len bitmap_granularity m =
    let bit_start = start / bitmap_granularity % 2 ^ 32 in
    let bit_end = last_bit start len bitmap_granularity in
    if start == 0 && len == mul64 32 bitmap_granularity
    then any_byte 4 bitmap m
    else if start == 0 && len == mul64 64 bitmap_granularity
    then any_byte 8 bitmap m
    else check_bits (bit_end - bit_start) bit_start bit_end bitmap m false

-- The second loop of `is_zero`, over the last bytes.
unfoldable pub zero_bytes : ℕ → ℕ → Memory → Bool
zero_bytes zero a m = true
zero_bytes (suc left) a m = let rest = zero_bytes left (a + 1) m in if m a != 0 then false else rest

-- The first loop of `is_zero`, over words of 64 bits. `left` is `size - i`, and a round for each word
-- is enough.
unfoldable pub zero_words : ℕ → ℕ → ℕ → Memory → Bool
zero_words zero left a m = zero_bytes left a m
zero_words (suc fuel) left a m =
    let rest = zero_words fuel (left - 8) (a + 8) m in
    if leb 8 left then (if any_byte 8 a m then false else rest) else zero_bytes left a m

-- `is_zero` of src/util/str_util.cpp
unfoldable pub is_zero : ℕ → ℕ → Memory → Bool
is_zero buf size m = zero_words (size / 8) size buf m
