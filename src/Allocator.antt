-- ===== src/Allocator.antt =====
-- src/util/allocator.cpp, the hierarchical bitmap allocator: a 64-ary tree of 64-bit words in one
-- array, whose last level has a bit for each block and whose other levels have a bit for each full
-- word below. Its methods return the new state; the throwing constructor returns an option.
pub mod Blocks
pub mod Edges
pub mod Fresh
pub mod Full
pub mod Levels
pub mod Marking
pub mod Scan
pub mod Search
use vitastor.Base.{
  ℕ, zero, suc, ◌+◌, ◌-◌, ◌*◌, ◌/◌, ◌%◌, ◌^◌, bit_and, bit_or, bit_xor, Bool, true, false, not,
  ◌&&◌, ◌||◌, Option, none, some, List, ltb, leb, ◌==◌, ◌!=◌, if◌then◌else◌, get_or, set, replicate,
}
use vitastor.Base.Words.{uint64_max, add64, sub64, mul64}

-- `allocator_t`
pub record Allocator : Type 0 where
  pub total : ℕ
  pub size : ℕ
  pub free : ℕ
  pub last_one_mask : ℕ
  pub mask : List ℕ

-- `while (p2 * 64 < size) { offset += p2; p2 = p2 * 64; }`: the width of the last level and the
-- index of its first word. Six rounds are enough below 2 ^ 31 blocks.
unfoldable pub leaf_level : ℕ → ℕ → ℕ → ℕ → ℕ × ℕ
leaf_level zero size p2 offset = (p2, offset)
leaf_level (suc fuel) size p2 offset = elim (ltb (mul64 p2 64) size) [
  | true ↦ leaf_level fuel size (mul64 p2 64) (add64 offset p2)
  | false ↦ (p2, offset)
]

abbrev pub max_levels : ℕ
max_levels = 6

-- `allocator_t::allocator_t`
unfoldable pub new : ℕ → Option Allocator
new blocks =
    if leb 0x80000000 blocks || leb blocks 1
    then none
    else let (p2, inner) = leaf_level max_levels blocks 1 0 in
      let total = add64 inner (add64 blocks 63 / 64) in
      some (record {
        total = total;
        size = blocks;
        free = blocks;
        last_one_mask = if blocks % 64 == 0 then uint64_max else 2 ^ (blocks % 64) - 1;
        mask = replicate total 0;
      })

-- `(mask[i] >> bit) & 1`
unfoldable pub mask_bit : List ℕ → ℕ → ℕ → ℕ
mask_bit mask i bit = bit_and (get_or mask i 0 / 2 ^ bit) 1

-- `allocator_t::get`
unfoldable pub get : Allocator → ℕ → Bool
get a addr =
    if leb a.size addr
    then false
    else let (p2, offset) = leaf_level max_levels a.size 1 0 in
      mask_bit a.mask (add64 offset (addr / 64)) (addr % 64) != 0

-- `free += value ? -1 : 1`, at the last level only
unfoldable pub count_free : Bool → Bool → Allocator → Allocator
count_free is_last value a = record a {
  free = if is_last then (if value then sub64 a.free 1 else add64 a.free 1) else a.free;
}

-- The value of a word with all its blocks taken.
unfoldable pub full_word : Allocator → Bool → ℕ → ℕ
full_word a is_last cur_addr =
    if not is_last || ltb (cur_addr / 64) (a.size / 64) then uint64_max else a.last_one_mask

unfoldable pub put_word : Allocator → ℕ → ℕ → Allocator
put_word a i w = record a { mask = set a.mask i w }

-- The body of the `while (1)` loop of `set` at the word `last`, up to the move to its parent. The
-- flag says that the loop goes on, not being left by a `break`.
unfoldable pub mark_word : Bool → ℕ → ℕ → Bool → Allocator → Allocator × Bool
mark_word value last cur_addr is_last a =
    let bit = cur_addr % 64 in
    let b = count_free is_last value a in
    let set_one = bit_or (get_or a.mask last 0) (2 ^ bit) in
    let set_zero = bit_and (get_or a.mask last 0) (bit_xor uint64_max (2 ^ bit)) in
    if mask_bit a.mask last bit != (if value then 1 else 0)
    then (if value
        then (put_word b last set_one, set_one == full_word a is_last cur_addr)
        else (put_word b last set_zero, true))
    else (a, false)

-- The loop, from a word of the last level up to the root.
unfoldable pub set_loop : ℕ → Bool → ℕ → ℕ → ℕ → Bool → Allocator → Allocator
set_loop zero value p2 offset cur_addr is_last a = a
set_loop (suc fuel) value p2 offset cur_addr is_last a =
    let (b, up) = mark_word value (add64 offset (cur_addr / 64)) cur_addr is_last a in
    elim (up && ltb 1 p2) [
      | true ↦ set_loop fuel value (p2 / 64) (sub64 offset (p2 / 64)) (cur_addr / 64) false b
      | false ↦ b
    ]

-- `allocator_t::set`
unfoldable pub set_block : Allocator → ℕ → Bool → Allocator
set_block a addr value =
    if leb a.size addr
    then a
    else let (p2, offset) = leaf_level max_levels a.size 1 0 in
      set_loop (max_levels + 1) value p2 offset addr true a

-- `for (i = 0, f = 1; i < 64; i++, f <<= 1) if (!(m & f)) break;`
unfoldable pub first_zero : ℕ → ℕ → ℕ → ℕ → ℕ
first_zero zero i f m = i
first_zero (suc left) i f m = elim (bit_and m f == 0) [
  | true ↦ i
  | false ↦ first_zero left (i + 1) (mul64 f 2) m
]

-- The `while (p2 < size)` loop of `find_free`, from the root down.
unfoldable pub find_loop : ℕ → Allocator → ℕ → ℕ → ℕ → ℕ
find_loop zero a p2 offset addr = addr
find_loop (suc fuel) a p2 offset addr = elim (ltb p2 a.size) [
  | false ↦ addr
  | true ↦ elim (leb a.total (add64 offset addr)) [
    | true ↦ uint64_max
    | false ↦
        let i = first_zero 64 0 1 (get_or a.mask (add64 offset addr) 0) in
        elim (i == 64) [
          | true ↦ uint64_max
          | false ↦ find_loop fuel a (mul64 p2 64) (add64 offset p2) (bit_or (mul64 addr 64) i)
        ]
  ]
]

-- `allocator_t::find_free`
unfoldable pub find_free : Allocator → ℕ
find_free a = find_loop (max_levels + 1) a 1 0 0

-- `allocator_t::get_free_count`
unfoldable pub get_free_count : Allocator → ℕ
get_free_count a = a.free
