-- ===== src/Allocator/Edges.antt =====
-- src/util/allocator.cpp: the tree that the words form. The children of the word `w` are the words
-- 64 * w + 1 to 64 * w + 64, and each bit above the last level tells whether a child is full.
use vitastor.Base.{
  ℕ, ◌+◌, ◌-◌, ◌/◌, ◌%◌, ◌^◌, ◌<◌, ◌≡◌, ◌≢◌, refl, Bool, true, false, ◌&&◌, ltb, ◌==◌,
  if◌then◌else◌, get_or, length,
}
use vitastor.Base.Bits.{nth_bit}
use vitastor.Base.Words.{uint64_max}
use vitastor.Allocator.{Allocator, leaf_level, max_levels}
use vitastor.Allocator.Levels.{IsLeaf, root-IsLevel, leaf_level-IsLeaf}

-- The first word of the last level.
unfoldable pub leaves : Allocator → ℕ
leaves a = (leaf_level max_levels a.size 1 0).1

unfoldable pub leaf_width : Allocator → ℕ
leaf_width a = (leaf_level max_levels a.size 1 0).0

abbrev pub word : Allocator → ℕ → ℕ
word a w = get_or a.mask w 0

-- How many bits of a word are in use.
unfoldable pub width : Allocator → ℕ → ℕ
width a w = if (w + 1 == a.total) && ltb 0 (a.size % 64) then a.size % 64 else 64

abbrev pub full_value : Allocator → ℕ → ℕ
full_value a w = 2 ^ width a w - 1

unfoldable pub is_full : Allocator → ℕ → Bool
is_full a w = ltb w a.total && word a w == full_value a w

abbrev pub to_nat : Bool → ℕ
to_nat true = 1
to_nat false = 0

-- The bit of the parent tells whether the word `c` is full.
abbrev pub Edge : Allocator → ℕ → Type 0
Edge a c = nth_bit ((c - 1) % 64) (word a ((c - 1) / 64)) ≡ to_nat (is_full a c)

-- All edges above the last level are right, but perhaps the one to `x`.
abbrev pub EdgesBut : Allocator → ℕ → Type 0
EdgesBut a x = (c : ℕ) → 0 < c → (c - 1) / 64 < leaves a → c ≢ x → Edge a c

-- What the constructor sets up and no later operation changes, with the bounds of the words.
pub record Shape (a : Allocator) : Type 0 where
  pub big : 1 < a.size
  pub small : a.size < 2 ^ 31
  pub words : a.total ≡ leaves a + (a.size + 63) / 64
  pub ones : a.last_one_mask ≡ (if a.size % 64 == 0 then uint64_max else 2 ^ (a.size % 64) - 1)
  pub measured : length a.mask ≡ a.total
  pub bounded : (w : ℕ) → word a w < 2 ^ width a w

pub record HasLeaf (a : Allocator) : Type 0 where
  pub depth : ℕ
  pub leaf : IsLeaf a.size depth (leaf_width a) (leaves a)

pub Shape-HasLeaf : {a : Allocator} → Shape a → HasLeaf a
unfolding leaves leaf_width
Shape-HasLeaf {a} s =
    let (k, l) = leaf_level-IsLeaf max_levels 0 a.size 1 0 s.small refl root-IsLevel s.big in
    record { depth = k; leaf = l }
