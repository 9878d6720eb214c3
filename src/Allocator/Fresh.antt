-- ===== src/Allocator/Fresh.antt =====
-- src/util/allocator.cpp: the constructor.
use vitastor.Base.{
  ℕ, zero, suc, ◌-◌, ◌/◌, ◌%◌, ◌^◌, ◌<◌, ◌≤◌, ◌≡◌, refl, Bool, false, arith, ◌==◌, if◌then◌else◌,
  ◌⊎◌, inl, inr, lt→leb, none, some, replicate, length-replicate, get_or,
}
use vitastor.Base.Bits.{nth_bit-zero}
use vitastor.Base.Words.{uint64_max, add64}
use vitastor.Allocator.{Allocator, leaf_level, max_levels, new, get}
use vitastor.Allocator.Blocks.{IsValid, count_zeros, get_lem, get_past}
use vitastor.Allocator.Edges.{leaves, word, width, is_full, Shape}
use vitastor.Allocator.Levels.{leaf_level-IsLeaf, root-IsLevel, offset-lt}
use vitastor.Allocator.Marking.{width-le}
use native.Mathlib.Decide.{dec_lt}
use native.Mathlib.Nat.{pow-le-pow_right, one-le-pow}

get_or-replicate_same : (n i v : ℕ) → get_or (replicate n v) i v ≡ v
get_or-replicate_same zero i v = refl
get_or-replicate_same (suc n) zero v = refl
get_or-replicate_same (suc n) (suc i) v = get_or-replicate_same n i v

count_zeros_none :
    (taken : ℕ → Bool) (n : ℕ) → ((x : ℕ) → taken x ≡ false) → count_zeros taken n ≡ n
unfolding count_zeros
count_zeros_none taken zero h = refl
count_zeros_none taken (suc n) h = rw (h n, count_zeros_none taken n h) (omega arith)

-- The allocator that the constructor makes.
abbrev pub fresh : ℕ → Allocator
fresh blocks =
    let total = add64 (leaf_level max_levels blocks 1 0).1 (add64 blocks 63 / 64) in
    record {
      total = total;
      size = blocks;
      free = blocks;
      last_one_mask = if blocks % 64 == 0 then uint64_max else 2 ^ (blocks % 64) - 1;
      mask = replicate total 0;
    }

module _ (blocks : ℕ) (big : 1 < blocks) (small : blocks < 2 ^ 31) where
  word-fresh : (w : ℕ) → word (fresh blocks) w ≡ 0
  word-fresh w = get_or-replicate_same _ w 0

  fresh_open : (w : ℕ) → is_full (fresh blocks) w ≡ false
  unfolding is_full
  fresh_open w =
      let positive : 2 ^ 1 ≤ 2 ^ width (fresh blocks) w =
        pow-le-pow_right (omega arith) (width-le (fresh blocks) w).0 in
      ground (arith, word-fresh w, positive)

  fresh-Shape : Shape (fresh blocks)
  unfolding leaves
  fresh-Shape =
      let (k, l) = leaf_level-IsLeaf max_levels 0 blocks 1 0 small refl root-IsLevel big in
      record {
        big = big;
        small = small;
        words = omega (arith, offset-lt l.level, l.needed);
        ones = refl;
        measured = length-replicate _ 0;
        bounded = λ w. rw (word-fresh w) (one-le-pow (width (fresh blocks) w) 2 (omega arith));
      }

  fresh-get : (x : ℕ) → get (fresh blocks) x ≡ false
  fresh-get x = elim (dec_lt x blocks) [
    | yes l ↦ rw (get_lem fresh-Shape x l, word-fresh, nth_bit-zero)
    | no l ↦ get_past (fresh blocks) x (omega arith)
  ]

  pub fresh-IsValid : IsValid (fresh blocks)
  fresh-IsValid = record {
    shape = fresh-Shape;
    edges = λ x pos inner. rw (fresh_open x, word-fresh, nth_bit-zero);
    counted = rw (count_zeros_none _ blocks fresh-get);
  }

-- An allocator for `blocks` blocks, all of them free.
pub record IsNew (blocks : ℕ) (a : Allocator) : Type 0 where
  pub size : a.size ≡ blocks
  pub free : a.free ≡ blocks
  pub vacant : (x : ℕ) → get a x ≡ false
  pub valid : IsValid a

-- The constructor refuses exactly the sizes up to 1 and from 2 ^ 31 on; for any other size it gives a
-- right allocator of that size with every block free.
pub new-IsNew :
    (blocks : ℕ)
    → (((blocks ≤ 1) ⊎ (2 ^ 31 ≤ blocks)) × (new blocks ≡ none))
      ⊎ ((1 < blocks)
          × (blocks < 2 ^ 31)
          × (new blocks ≡ some (fresh blocks))
          × IsNew blocks (fresh blocks))
unfolding new
new-IsNew blocks = elim (dec_lt 1 blocks) [
  | no h ↦ inl (inl (omega arith), ground arith)
  | yes big ↦ elim (dec_lt blocks (2 ^ 31)) [
    | no h ↦ inl (inr (omega arith), ground arith)
    | yes small ↦ inr (
      big,
      small,
      rw (lt→leb _ _ small, lt→leb _ _ big) refl,
      record {
        size = refl;
        free = refl;
        vacant = fresh-get blocks big small;
        valid = fresh-IsValid blocks big small;
      },
    )
  ]
]
