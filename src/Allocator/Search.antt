-- ===== src/Allocator/Search.antt =====
-- src/util/allocator.cpp: `find_free` returns the lowest free block, if there is one.
use vitastor.Base.{
  ℕ, zero, suc, ◌+◌, ◌-◌, ◌*◌, ◌/◌, ◌%◌, ◌^◌, ◌<◌, ◌≤◌, ◌≡◌, ◌≢◌, refl, sym, ◌∙◌, ap, subst, Bool,
  true, false, arith, bit_or,
}
use vitastor.Base.Bits.{nth_bit, nth_bit-lt, bit_or-shl}
use vitastor.Base.Words.{add64, mul64}
use vitastor.Allocator.{Allocator, get, find_loop, find_free, max_levels}
use vitastor.Allocator.Blocks.{IsValid, home, home-lt, home_low, get_lem}
use vitastor.Allocator.Edges.{leaves, leaf_width, word, width, is_full, to_nat, Shape-HasLeaf}
use vitastor.Allocator.Levels.{IsLevel, root-IsLevel, IsLevel-down, IsLevel-up, offset-lt}
use vitastor.Allocator.Marking.{width_inner, Shape-small, parent-lt, not_full_of_zero}
use vitastor.Allocator.Scan.{scan, scan-FirstZero, scan-le, scan-lt, find_loop_end, find_loop_next}
use native.Mathlib.Decide.{ℕ_discrete}
use native.Mathlib.Nat.{pow-le-pow_right, pow-suc, div-eq_of_lt, div-div-eq-div-mul, div-one}

-- Levels with the same number are the same.
IsLevel-unique : {k p q o u : ℕ} → IsLevel k p o → IsLevel k q u → (p ≡ q) × (o ≡ u)
IsLevel-unique v w = (v.wide ∙ sym w.wide, omega (arith, v.wide, w.wide, v.above, w.above))

zero_is_false : (b : Bool) → to_nat b ≡ 0 → b ≡ false
zero_is_false true h = absurd (omega arith)
zero_is_false false h = refl

open_ne :
    (a : Allocator) (w : ℕ)
    → w < a.total
    → width a w ≡ 64
    → is_full a w ≡ false
    → word a w ≢ 2 ^ 64 - 1
unfolding is_full
open_ne a w h wide f e = ground (arith, ap (λ (n : ℕ). 2 ^ n) wide)

module _ {a : Allocator} (v : IsValid a) (x : ℕ) (inside : x < a.size)
    (free : get a x ≡ false) where
  -- The index of the block's ancestor, `n` levels above the blocks.
  ancestor : ℕ → ℕ
  ancestor n = x / 64 ^ n

  ancestor-zero : ancestor 0 ≡ x
  unfolding ancestor
  ancestor-zero = div-one x

  ancestor-suc : (n : ℕ) → ancestor (suc n) ≡ ancestor n / 64
  unfolding ancestor
  ancestor-suc n = rw (pow-suc, div-div-eq-div-mul)

  -- The bit on the way to a free block is zero.
  record IsOpen (offset z : ℕ) : Type 0 where
    bit : nth_bit (z % 64) (word a (offset + z / 64)) ≡ 0
    low : z % 64 < width a (offset + z / 64)
    within : offset + z / 64 < a.total

  -- The word of an open bit is not full, so the bit for it is zero, too.
  IsOpen-above :
      {k p2 offset z : ℕ} → IsLevel k p2 offset → IsOpen (offset + p2) z → IsOpen offset (z / 64)
  IsOpen-above {k} {p2} {offset} {z} l o =
      let w = offset + p2 + z / 64 in
      let parent : (w - 1) / 64 ≡ offset + z / 64 / 64 = omega (arith, l.above) in
      let place : (w - 1) % 64 ≡ z / 64 % 64 = omega (arith, l.above) in
      let pos : 0 < w = omega (arith, l.above) in
      let edge : nth_bit ((w - 1) % 64) (word a ((w - 1) / 64)) ≡ to_nat (is_full a w) =
        v.edges w pos (parent-lt v.shape w pos o.within) in
      let open_bit = edge ∙ ap to_nat (not_full_of_zero a w (z % 64) o.low o.bit) in
      let wide = width_inner a (offset + z / 64 / 64) (omega (arith, o.within, l.above)) in
      record {
        bit = rw (parent, place) at open_bit;
        low = rw wide (omega arith);
        within = omega (arith, o.within);
      }

  ancestor-IsOpen :
      (n k p2 offset : ℕ)
      → k + n ≡ (Shape-HasLeaf v.shape).depth
      → IsLevel k p2 offset
      → IsOpen offset (ancestor n)
  unfolding ancestor
  ancestor-IsOpen zero k p2 offset e l =
      let h = Shape-HasLeaf v.shape in
      let same : offset ≡ leaves a =
        (IsLevel-unique l
          (subst (λ d. IsLevel d (leaf_width a) (leaves a)) (omega arith) h.leaf.level)).1 in
      rw (same, div-one)
        (record {
          bit = ground (arith, get_lem v.shape x inside, nth_bit-lt (x % 64) (word a (home a x)));
          low = home_low v.shape x inside;
          within = home-lt v.shape x inside;
        })
  ancestor-IsOpen (suc n) k p2 offset e l =
      let z = ancestor n in
      let below =
        ancestor-IsOpen n (suc k) (p2 * 64) (offset + p2) (omega arith) (IsLevel-down l) in
      rw (pow-suc, ← div-div-eq-div-mul) (IsOpen-above l below)

  -- The bit of the parent for the index `addr` of level `k` is zero.
  abbrev Way : ℕ → ℕ → Type 0
  Way k addr =
      (j p o : ℕ) → k ≡ suc j → IsLevel j p o → nth_bit (addr % 64) (word a (o + addr / 64)) ≡ 0

  record Found (r : ℕ) : Type 0 where
    least : r ≤ x
    bit : nth_bit (r % 64) (word a (home a r)) ≡ 0

  Way-open :
      {j p2 offset : ℕ} (addr : ℕ)
      → IsLevel (suc j) p2 offset
      → offset + addr < a.total
      → Way (suc j) addr
      → is_full a (offset + addr) ≡ false
  Way-open {j} {p2} {offset} addr l h way =
      let up = IsLevel-up l in
      let w = offset + addr in
      let pos : 0 < w = omega (arith, up.next) in
      let parent : (w - 1) / 64 ≡ offset - p2 / 64 + addr / 64 = omega (arith, up.next) in
      let place : (w - 1) % 64 ≡ addr % 64 = omega (arith, up.next) in
      let edge : nth_bit ((w - 1) % 64) (word a ((w - 1) / 64)) ≡ to_nat (is_full a w) =
        v.edges w pos (parent-lt v.shape w pos h) in
      zero_is_false (is_full a w) (sym edge ∙ rw (parent, place) (way j _ _ refl up.level))

  -- The scanned word has a zero bit, no higher than the one on the way to the free block.
  record Step (offset addr z : ℕ) : Type 0 where
    zero_bit : scan (word a (offset + addr)) < 64
    next : addr * 64 + scan (word a (offset + addr)) ≤ z

  step :
      (k : ℕ) {p2 offset addr z : ℕ}
      → IsLevel k p2 offset
      → IsOpen offset z
      → addr ≤ z / 64
      → (k ≡ 0 → addr ≡ z / 64)
      → Way k addr
      → Step offset addr z
  step k {p2} {offset} {addr} {z} l o le root way = elim (ℕ_discrete addr (z / 64)) [
    | yes e ↦
        let found = scan-le (word a (offset + addr)) (z % 64) (omega arith) (rw e o.bit) in
        record { zero_bit = omega (arith, found); next = omega (arith, found) }
    | no n ↦ lower k l o (omega arith) root way
  ]
    where
      lower :
          (k : ℕ)
          → IsLevel k p2 offset
          → IsOpen offset z
          → addr < z / 64
          → (k ≡ 0 → addr ≡ z / 64)
          → Way k addr
          → Step offset addr z
      lower zero l o lt root way = absurd (omega (arith, root refl))
      lower (suc j) l o lt root way =
          let h : offset + addr + 1 < a.total = omega (arith, o.within) in
          let wide = width_inner a (offset + addr) h in
          let fits : word a (offset + addr) < 2 ^ 64 =
            rw wide at (v.shape.bounded (offset + addr)) in
          let open_word =
            open_ne a (offset + addr) (omega arith) wide (Way-open addr l (omega arith) way) in
          let found = scan-lt (word a (offset + addr)) fits open_word in
          record { zero_bit = found; next = omega (arith, found) }

  next-Way :
      (k : ℕ) {p2 offset : ℕ}
      → IsLevel k p2 offset
      → (addr : ℕ) → scan (word a (offset + addr)) < 64
      → Way (suc k) (addr * 64 + scan (word a (offset + addr)))
  next-Way k {p2} {offset} l addr h j p o e m =
      let same : o ≡ offset =
        (IsLevel-unique (subst (λ i. IsLevel i p o) {y = k} (omega arith) m) l).1 in
      let r = scan (word a (offset + addr)) in
      let bit : (addr * 64 + r) % 64 ≡ r = omega arith in
      let index : (addr * 64 + r) / 64 ≡ addr = omega arith in
      rw (same, bit, index) ((scan-FirstZero (word a (offset + addr))).zero_at h)

  find_loop-Found :
      (fuel n k p2 offset addr : ℕ)
      → n < fuel
      → k + n ≡ suc (Shape-HasLeaf v.shape).depth
      → IsLevel k p2 offset
      → addr ≤ ancestor n
      → (k ≡ 0 → addr ≡ ancestor n)
      → Way k addr
      → Found (find_loop fuel a p2 offset addr)
  find_loop-Found zero n k p2 offset addr f e l le root way = absurd (omega arith)
  find_loop-Found (suc fuel) zero k p2 offset addr f e l le root way =
      let h = Shape-HasLeaf v.shape in
      let last : k ≡ suc h.depth = omega arith in
      let deep : p2 ≡ 64 ^ suc h.depth = l.wide ∙ ap (λ (j : ℕ). 64 ^ j) last in
      let wide : p2 ≡ leaf_width a * 64 =
        omega (arith, deep, pow-suc 64 h.depth, h.leaf.level.wide) in
      rw (find_loop_end fuel a p2 offset addr (omega (arith, wide, h.leaf.enough))) (record {
        least = omega (arith, ancestor-zero);
        bit = way h.depth (leaf_width a) (leaves a) (omega arith) h.leaf.level;
      })
  find_loop-Found (suc fuel) (suc n) k p2 offset addr f e l le root way =
      let h = Shape-HasLeaf v.shape in
      let o = ancestor-IsOpen n k p2 offset (omega arith) l in
      let up = ancestor-suc n in
      let st = step k l o (omega arith) (λ q. root q ∙ up) way in
      let r = scan (word a (offset + addr)) in
      let inner : p2 < a.size = omega (
        arith,
        l.wide,
        pow-le-pow_right {n = 64} (omega arith) {i = k} {j = h.depth} (omega arith),
        h.leaf.level.wide,
        h.leaf.needed,
      ) in
      let here : add64 offset addr ≡ offset + addr = omega (arith, o.within, Shape-small v.shape) in
      let down : mul64 p2 64 ≡ p2 * 64 = omega (arith, v.shape.small) in
      let across : add64 offset p2 ≡ offset + p2 = omega (arith, offset-lt l, v.shape.small) in
      let child : bit_or (mul64 addr 64) r ≡ addr * 64 + r =
        let times : mul64 addr 64 ≡ addr * 2 ^ 6 = omega (arith, o.within, Shape-small v.shape) in
        rw times (bit_or-shl 6 addr r st.zero_bit) in
      rw
        (
          find_loop_next fuel a p2 offset addr inner (omega (arith, here, o.within))
              (rw here st.zero_bit),
          here,
          down,
          across,
          child,
        )
        (find_loop-Found fuel n (suc k) (p2 * 64) (offset + p2) (addr * 64 + r) (omega arith)
          (omega arith) (IsLevel-down l) st.next (λ q. absurd (omega arith))
          (next-Way k l addr st.zero_bit))

  find_free-Found : Found (find_free a)
  unfolding find_free ancestor
  find_free-Found =
      let h = Shape-HasLeaf v.shape in
      let under : x < 64 ^ suc h.depth =
        omega (arith, pow-suc 64 h.depth, h.leaf.enough, h.leaf.level.wide) in
      let top : ancestor (suc h.depth) ≡ 0 = div-eq_of_lt under in
      find_loop-Found (max_levels + 1) (suc h.depth) 0 1 0 0 (omega (arith, h.leaf.depth))
        (omega arith) root-IsLevel (omega arith) (λ _. sym top) (λ j p o q m. absurd (omega arith))

-- If some block is free, `find_free` returns a free block, and none below it is free.
pub find_free_lowest :
    (a : Allocator) (x : ℕ)
    → IsValid a
    → x < a.size
    → get a x ≡ false
    → (find_free a ≤ x) × (get a (find_free a) ≡ false)
find_free_lowest a x v h free =
    let f = find_free-Found v x h free in
    (f.least, rw (get_lem v.shape (find_free a) (omega (arith, f.least)), f.bit))
