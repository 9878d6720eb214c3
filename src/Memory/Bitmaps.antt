-- ===== src/Memory/Bitmaps.antt =====
-- src/util/allocator.cpp: what the loops over the bits of a bitmap do.
use vitastor.Base.{
  ℕ, zero, suc, ◌+◌, ◌/◌, ◌%◌, ◌^◌, ◌<◌, ◌≤◌, ◌≡◌, refl, bit_or, Bool, true, false, ◌&&◌, ltb, leb,
  if◌then◌else◌, arith, le→ltb, lt→ltb,
}
use vitastor.Base.Words.{add32}
use vitastor.Base.Bits.{
  nth_bit, nth_bit-lt, nth_bit-bit_or, nth_bit-pow_self, nth_bit-pow_ne, nth_bit-ones,
}
use vitastor.Memory.{Memory, write, set_bits, is_whole_byte}
use native.Mathlib.Decide.{ℕ_discrete, dec_lt}

-- The bit `i` of a bitmap.
unfoldable pub bit_at : ℕ → ℕ → Memory → ℕ
bit_at bitmap i m = nth_bit (i % 8) (m (bitmap + i / 8))

-- A round with a whole byte sets eight bits, any other round one.
round_bits :
    (bitmap b i : ℕ) (m : Memory) (whole : Bool)
    → (whole ≡ true → b % 8 ≡ 0)
    → bit_at bitmap i (
        write (bitmap + b / 8) (if whole then 255 else bit_or (m (bitmap + b / 8)) (2 ^ (b % 8))) m)
      ≡ (if leb b i && ltb i (b + (if whole then 8 else 1)) then 1 else bit_at bitmap i m)
unfolding bit_at write
round_bits bitmap b i m true h =
    let ones = nth_bit-ones 8 (i % 8) (omega arith) in ground (arith, h refl, ones)
round_bits bitmap b i m false h =
    let old = nth_bit-lt (i % 8) (m (bitmap + b / 8)) in
    let bits = nth_bit-bit_or (i % 8) (m (bitmap + b / 8)) (2 ^ (b % 8)) in
    elim (ℕ_discrete (i % 8) (b % 8)) [
      | yes e ↦ ground (arith, old, rw e at bits, nth_bit-pow_self (b % 8))
      | no n ↦ ground (arith, old, bits, nth_bit-pow_ne (i % 8) (b % 8) n)
    ]

-- The bits of a round and those of the rounds after it make up the range.
joined :
    (whole : Bool) (b e i before here all : ℕ)
    → b < e
    → e + 8 < 2 ^ 32
    → (whole ≡ true → b + 8 ≤ e)
    → (whole ≡ true → b % 8 ≡ 0)
    → (b < add32 b (if whole then 8 else 1)
        → all ≡ (if leb (add32 b (if whole then 8 else 1)) i && ltb i e then 1 else here))
    → here ≡ (if leb b i && ltb i (b + (if whole then 8 else 1)) then 1 else before)
    → all ≡ (if leb b i && ltb i e then 1 else before)
joined true b e i before here all lt small room aligned later now =
    ground (arith, room refl, later (omega arith), now)
joined false b e i before here all lt small room aligned later now =
    ground (arith, later (omega arith), now)

-- The loop of `bitmap_set` with a round for each bit sets the bits of the range, and no other one.
pub set_bits-bit_at :
    (fuel bit_start bit_end bitmap i : ℕ) (m : Memory)
    → bit_end ≤ bit_start + fuel
    → bit_end + 8 < 2 ^ 32
    → bit_at bitmap i (set_bits fuel bit_start bit_end bitmap m)
      ≡ (if leb bit_start i && ltb i bit_end then 1 else bit_at bitmap i m)
unfolding set_bits
set_bits-bit_at zero b e bitmap i m enough small = ground arith
set_bits-bit_at (suc fuel) b e bitmap i m enough small = elim (dec_lt b e) [
  | no h ↦ rw (le→ltb b e (omega arith)) (ground arith)
  | yes h ↦ rw (lt→ltb b e h) (
      joined (is_whole_byte b e) b e i (bit_at bitmap i m) _ _ h small (λ q. ground arith)
        (λ q. ground arith)
        (λ wide. set_bits-bit_at fuel _ e bitmap i _ (omega (arith, wide)) small)
        (round_bits bitmap b i m (is_whole_byte b e) (λ q. ground (arith, q))))
]
