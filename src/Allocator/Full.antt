-- ===== src/Allocator/Full.antt =====
-- src/util/allocator.cpp: `find_free` when no block is free and there is only one word.
use Prim.Native.Nat.{bit_or-bitwise}
use vitastor.Base.{ℕ, ◌%◌, ◌^◌, ◌<◌, ◌≡◌, sym, ◌∙◌, ap, true, arith, bit_or, ◌!=◌}
use vitastor.Base.Bits.{nth_bit, nth_bit-lt, nth_bit_high}
use vitastor.Allocator.{Allocator, get, find_free, max_levels}
use vitastor.Allocator.Blocks.{IsValid, home, get_lem}
use vitastor.Allocator.Edges.{leaves, word, width, Shape-HasLeaf}
use vitastor.Allocator.Scan.{scan, scan-FirstZero, scan-le, find_loop_end, find_loop_next}
use native.Mathlib.Decide.{dec_lt}
use native.Mathlib.Nat.{pow-le-pow_right}

one_of : (b : ℕ) → b < 2 → (b != 0) ≡ true → b ≡ 1
one_of b h e = ground arith

module _ (a : Allocator) (v : IsValid a) (few : a.size < 64)
    (taken : (x : ℕ) → x < a.size → get a x ≡ true) where
  no_levels : leaves a ≡ 0
  no_levels =
      let h = Shape-HasLeaf v.shape in
      let flat : h.depth ≡ 0 = elim (dec_lt 0 h.depth) [
        | no n ↦ omega arith
        | yes p ↦ absurd (
            omega (
              arith,
              pow-le-pow_right {n = 64} (omega arith) {i = 1} {j = h.depth} p,
              h.leaf.level.wide,
              h.leaf.needed,
            ))
      ] in
      omega (arith, h.leaf.level.above, h.leaf.level.wide, ap (λ (j : ℕ). 64 ^ j) flat)

  root_bits : (j : ℕ) → j < a.size → nth_bit j (word a 0) ≡ 1
  root_bits j h =
      let place : home a j ≡ 0 = omega (arith, no_levels) in
      let bit : j % 64 ≡ j = omega arith in
      let set = get_lem v.shape j h in
      one_of (nth_bit j (word a 0)) (nth_bit-lt j (word a 0))
        (sym (rw (place, bit) at set) ∙ taken j h)

  root_width : width a 0 ≡ a.size
  unfolding width
  root_width = ground (arith, no_levels, v.shape.words, v.shape.big)

  root_scan : scan (word a 0) ≡ a.size
  root_scan =
      let fits : word a 0 < 2 ^ a.size = rw root_width at (v.shape.bounded 0) in
      let z = scan-FirstZero (word a 0) in
      let upper =
        scan-le (word a 0) a.size few (nth_bit_high a.size (word a 0) a.size fits (omega arith)) in
      elim (dec_lt (scan (word a 0)) a.size) [
        | yes l ↦ absurd (omega (arith, root_bits (scan (word a 0)) l, z.zero_at (omega arith)))
        | no l ↦ omega (arith, upper)
      ]

  zero_or : bit_or 0 a.size ≡ a.size
  zero_or = bit_or-bitwise 0 a.size

  small_full : find_free a ≡ a.size
  unfolding find_free
  small_full =
      find_loop_next max_levels a 1 0 0 v.shape.big (omega (arith, v.shape.words, v.shape.big))
        (rw root_scan few)
      ∙ rw (root_scan, zero_or) (find_loop_end 5 a 64 1 a.size (omega arith))

-- With fewer than 64 blocks and none free, `find_free` returns the number of blocks, which is no
-- block, and not the value that tells of a full allocator.
pub find_free_small_full :
    (a : Allocator)
    → IsValid a
    → a.size < 64
    → ((x : ℕ) → x < a.size → get a x ≡ true)
    → find_free a ≡ a.size
find_free_small_full a v few taken = small_full a v few taken
