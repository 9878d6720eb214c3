-- ===== src/Allocator/Levels.antt =====
-- src/util/allocator.cpp: where the levels of the tree begin, and what the search for the last one
-- returns.
use vitastor.Base.{
  ℕ, zero, suc, ◌+◌, ◌-◌, ◌*◌, ◌/◌, ◌^◌, ◌<◌, ◌≤◌, ◌≡◌, refl, ap, ◌∙◌, arith, lt→ltb, le→ltb,
}
use vitastor.Base.Words.{mul64, add64}
use vitastor.Allocator.{leaf_level, max_levels}
use native.Mathlib.Decide.{dec_lt}
use native.Mathlib.Nat.{pow-suc, one-le-pow}

-- Level `k` has 64 ^ k words, after those of the levels above it.
pub record IsLevel (k p2 offset : ℕ) : Type 0 where
  pub wide : p2 ≡ 64 ^ k
  pub above : 63 * offset + 1 ≡ p2

pub root-IsLevel : IsLevel 0 1 0
root-IsLevel = record { wide = refl; above = refl }

pub IsLevel-down : {k p2 offset : ℕ} → IsLevel k p2 offset → IsLevel (suc k) (p2 * 64) (offset + p2)
IsLevel-down {k} v = omega (arith, pow-suc 64 k, v.wide, v.above)

-- The level above one that is not the root.
pub record Above (k p2 offset : ℕ) : Type 0 where
  pub level : IsLevel k (p2 / 64) (offset - p2 / 64)
  pub next : offset ≡ 64 * (offset - p2 / 64) + 1
  pub wider : 1 < p2

pub IsLevel-up : {k p2 offset : ℕ} → IsLevel (suc k) p2 offset → Above k p2 offset
IsLevel-up {k} v = omega (arith, pow-suc 64 k, one-le-pow k 64 (omega arith), v.wide, v.above)

pub offset-lt : {k p2 offset : ℕ} → IsLevel k p2 offset → offset < p2
offset-lt v = omega (arith, v.above)

-- The last level of a tree over `size` blocks.
pub record IsLeaf (size k p2 offset : ℕ) : Type 0 where
  pub level : IsLevel k p2 offset
  pub depth : k < max_levels
  pub needed : p2 < size
  pub enough : size ≤ p2 * 64

module _ (fuel size p2 offset : ℕ) where
  leaf_level_more :
      mul64 p2 64 < size
      → leaf_level (suc fuel) size p2 offset ≡ leaf_level fuel size (mul64 p2 64) (add64 offset p2)
  unfolding leaf_level
  leaf_level_more h = rw (lt→ltb _ _ h, leaf_level)

  leaf_level_last : size ≤ mul64 p2 64 → leaf_level (suc fuel) size p2 offset ≡ (p2, offset)
  unfolding leaf_level
  leaf_level_last h = rw (le→ltb _ _ h, leaf_level)

pub leaf_level-IsLeaf :
    (fuel k size p2 offset : ℕ)
    → size < 2 ^ 31
    → k + fuel ≡ max_levels
    → IsLevel k p2 offset
    → p2 < size
    → (j : ℕ) × IsLeaf size j (leaf_level fuel size p2 offset).0 (leaf_level fuel size p2 offset).1
leaf_level-IsLeaf zero k size p2 offset h e v n =
    let six : k ≡ 6 = omega arith in
    let wide : p2 ≡ 2 ^ 36 = v.wide ∙ ap (λ (j : ℕ). 64 ^ j) six in absurd (omega arith)
leaf_level-IsLeaf (suc fuel) k size p2 offset h e v n =
    let unwrapped : mul64 p2 64 ≡ p2 * 64 = omega arith in
    let sum : add64 offset p2 ≡ offset + p2 = omega (arith, offset-lt v) in
    elim (dec_lt (mul64 p2 64) size) [
      | yes more ↦
          rw (leaf_level_more fuel size p2 offset more, unwrapped, sum)
            (leaf_level-IsLeaf fuel (suc k) size (p2 * 64) (offset + p2) h (omega arith)
              (IsLevel-down v) (omega arith))
      | no last ↦
          rw (leaf_level_last fuel size p2 offset (omega arith))
            (k, record { level = v; depth = omega arith; needed = n; enough = omega arith })
    ]
