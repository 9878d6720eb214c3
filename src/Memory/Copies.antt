-- ===== src/Memory/Copies.antt =====
-- What `memcpy` leaves in memory.
use vitastor.Base.{
  ℕ, zero, suc, ◌+◌, ◌-◌, ◌<◌, ◌≤◌, ◌≡◌, refl, ◌⊎◌, ◌&&◌, ltb, leb, if◌then◌else◌, arith,
}
use native.Mathlib.Decide.{ℕ_discrete, dec_lt}
use vitastor.Memory.{Memory, write, memcpy}

-- The target, which has the bytes from `lo` to `hi`, is apart from a source of `n` bytes.
abbrev pub IsApart : ℕ → ℕ → ℕ → ℕ → Type 0
IsApart lo hi src n = (src + n ≤ lo) ⊎ (hi ≤ src)

pub memcpy-at :
    (dest src n x : ℕ) (m : Memory)
    → IsApart dest (dest + n) src n
    → memcpy dest src n m x ≡ (if leb dest x && ltb x (dest + n) then m (src + (x - dest)) else m x)
unfolding memcpy write
memcpy-at dest src zero x m h = ground arith
memcpy-at dest src (suc n) x m h =
    let rest = memcpy-at (dest + 1) (src + 1) n x (write dest (m src) m) (ground (arith, h)) in
    let source : dest < x → src + 1 + (x - (dest + 1)) ≡ src + (x - dest) = λ l. omega (arith, l) in
    elim (ℕ_discrete x dest) [
      | yes e ↦
          let first : src + (x - dest) ≡ src = omega (arith, e) in
          rw first (ground (arith, rest, e))
      | no n ↦ elim (dec_lt dest x) [
        | no l ↦ ground (arith, rest, n)
        | yes l ↦ ground (arith, rw (source l) at rest, h)
      ]
    ]

-- A copy changes nothing outside its target.
pub memcpy-away :
    (dest src n x : ℕ) (m : Memory) → (x < dest) ⊎ (dest + n ≤ x) → memcpy dest src n m x ≡ m x
unfolding memcpy write
memcpy-away dest src zero x m o = refl
memcpy-away dest src (suc n) x m o =
    let rest = memcpy-away (dest + 1) (src + 1) n x (write dest (m src) m) (ground (arith, o)) in
    ground (arith, rest, o)
