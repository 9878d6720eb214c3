-- ===== src/Memory/Xor.antt =====
-- src/util/xor.h: what `memxor` leaves in memory.
use vitastor.Base.{
  ℕ, zero, suc, ◌+◌, ◌-◌, ◌<◌, ◌≤◌, ◌≡◌, bit_xor, ◌⊎◌, inl, inr, ◌&&◌, ltb, leb, if◌then◌else◌,
  arith,
}
use native.Mathlib.Decide.{ℕ_discrete, dec_lt}
use vitastor.Memory.{Memory, write, xor_from, memxor}

-- A source of `len` bytes is the target or does not overlap it.
abbrev pub Apart : ℕ → ℕ → ℕ → Type 0
Apart r res len = (r ≡ res) ⊎ ((r + len ≤ res) ⊎ (res + len ≤ r))

-- The byte written in one round is no byte that a later round reads.
untouched :
    (r res i k n v : ℕ) (m : Memory)
    → Apart r res n
    → i < k
    → k < n
    → write (res + i) v m (r + k) ≡ m (r + k)
unfolding write
untouched r res i k n v m (inl e) lt h = ground (arith, e)
untouched r res i k n v m (inr (inl e)) lt h = ground (arith, e)
untouched r res i k n v m (inr (inr e)) lt h = ground (arith, e)

Apart-later : (r res i left : ℕ) → Apart r res (i + suc left) → Apart r res (i + 1 + left)
Apart-later r res i left (inl e) = inl e
Apart-later r res i left (inr (inl e)) = inr (inl (omega arith))
Apart-later r res i left (inr (inr e)) = inr (inr (omega arith))

xor_from-at :
    (left i r1 r2 res x : ℕ) (m : Memory)
    → Apart r1 res (i + left)
    → Apart r2 res (i + left)
    → xor_from left i r1 r2 res m x ≡ (
        if leb (res + i) x && ltb x (res + i + left)
        then bit_xor (m (r1 + (x - res))) (m (r2 + (x - res)))
        else m x)
unfolding xor_from write
xor_from-at zero i r1 r2 res x m a b = ground arith
xor_from-at (suc left) i r1 r2 res x m a b =
    let next = write (res + i) (bit_xor (m (r1 + i)) (m (r2 + i))) m in
    let rest =
      xor_from-at left (i + 1) r1 r2 res x next (Apart-later r1 res i left a)
        (Apart-later r2 res i left b) in
    elim (ℕ_discrete x (res + i)) [
      | yes e ↦ let k : x - res ≡ i = omega (arith, e) in rw k (ground (arith, rest, e))
      | no n ↦ elim (dec_lt (res + i) x) [
        | no l ↦ ground (arith, rest, n)
        | yes l ↦ elim (dec_lt x (res + i + suc left)) [
          | no u ↦ ground (arith, rest)
          | yes u ↦
              let k = x - res in
              let one =
                untouched r1 res i k (i + suc left) (bit_xor (m (r1 + i)) (m (r2 + i))) m a
                  (omega arith) (omega arith) in
              let two =
                untouched r2 res i k (i + suc left) (bit_xor (m (r1 + i)) (m (r2 + i))) m b
                  (omega arith) (omega arith) in
              ground (arith, rw (one, two) at rest)
        ]
      ]
    ]

-- `memxor` sets each byte of the target to the XOR of the bytes that the sources had at its place
-- before, and changes no other byte, if each source is the target or does not overlap it.
pub memxor-at :
    (r1 r2 res len x : ℕ) (m : Memory)
    → Apart r1 res len
    → Apart r2 res len
    → memxor r1 r2 res len m x ≡ (
        if leb res x && ltb x (res + len)
        then bit_xor (m (r1 + (x - res))) (m (r2 + (x - res)))
        else m x)
unfolding memxor
memxor-at r1 r2 res len x m a b =
    ground (arith, xor_from-at len 0 r1 r2 res x m (ground arith) (ground arith))
