-- ===== src/Memory/Zeroes.antt =====
-- src/util/str_util.cpp: what `is_zero` tells.
use vitastor.Base.{
  ℕ, zero, suc, ◌+◌, ◌-◌, ◌/◌, ◌≡◌, refl, ◌∙◌, ap, not, ◌||◌, ◌!=◌, arith, lt→leb, Bool-cases, inl,
  inr,
}
use vitastor.Memory.{Memory, any_byte, zero_bytes, zero_words, is_zero}
use native.Mathlib.Decide.{dec_lt}

any_byte-split :
    (n left a : ℕ) (m : Memory)
    → any_byte (n + left) a m ≡ (any_byte n a m || any_byte left (a + n) m)
unfolding any_byte
any_byte-split zero left a m =
    let here : a ≡ a + 0 = omega arith in
    let same : 0 + left ≡ left = omega arith in rw same (ap (λ b. any_byte left b m) here)
any_byte-split (suc n) left a m =
    let shift : a + 1 + n ≡ a + suc n = omega arith in
    let sum : suc n + left ≡ suc (n + left) = omega arith in
    let rest =
      any_byte-split n left (a + 1) m ∙ ap (λ b. any_byte n (a + 1) m || any_byte left b m) shift in
    elim (Bool-cases (m a != 0)) [ inl e ↦ rw (sum, e) refl | inr e ↦ rw (sum, e) rest ]

zero_bytes_lem : (left a : ℕ) (m : Memory) → zero_bytes left a m ≡ not (any_byte left a m)
unfolding zero_bytes any_byte
zero_bytes_lem zero a m = refl
zero_bytes_lem (suc left) a m = ground (arith, zero_bytes_lem left (a + 1) m)

zero_words_lem : (fuel left a : ℕ) (m : Memory) → zero_words fuel left a m ≡ not (any_byte left a m)
unfolding zero_words
zero_words_lem zero left a m = zero_bytes_lem left a m
zero_words_lem (suc fuel) left a m = elim (dec_lt left 8) [
  | yes l ↦ rw (lt→leb _ _ l) (zero_bytes_lem left a m)
  | no n ↦
      let whole : 8 + (left - 8) ≡ left = omega (arith, n) in
      let split = any_byte-split 8 (left - 8) a m in
      let same = ap (λ j. any_byte j a m) whole in
      ground (arith, n, split, same, zero_words_lem fuel (left - 8) (a + 8) m)
]

-- `is_zero`, which reads words of 64 bits while it can, tells exactly whether no byte of the buffer
-- differs from zero.
pub is_zero_lem : (buf size : ℕ) (m : Memory) → is_zero buf size m ≡ not (any_byte size buf m)
unfolding is_zero
is_zero_lem buf size m = zero_words_lem (size / 8) size buf m
