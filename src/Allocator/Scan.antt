-- ===== src/Allocator/Scan.antt =====
-- src/util/allocator.cpp: one round of `find_free`, which scans a word for its first zero bit.
use vitastor.Base.{
  ℕ, zero, suc, ◌+◌, ◌-◌, ◌*◌, ◌^◌, ◌<◌, ◌≤◌, ◌≡◌, ◌≢◌, refl, sym, ◌∙◌, ap, arith, bit_and, bit_or,
  lt→leb, le→leb, lt→ltb, le→ltb, eq→==, ne→==,
}
use vitastor.Base.Bits.{nth_bit, nth_bit-lt, nth_bit-ones, eq_of_nth_bit, bit_and-pow}
use vitastor.Base.Words.{uint64_max, add64, mul64}
use vitastor.Allocator.{Allocator, first_zero, find_loop}
use vitastor.Allocator.Edges.{word}
use native.Mathlib.Decide.{dec_lt, ℕ_discrete}
use native.Mathlib.Numerals.{add-one}
use native.Mathlib.Nat.{pow-le-pow_right, one-le-pow, pow-suc}

-- What the scan of a word finds.
pub record FirstZero (i m r : ℕ) : Type 0 where
  pub bounded : r ≤ 64
  pub ones : (j : ℕ) → i ≤ j → j < r → nth_bit j m ≡ 1
  pub zero_at : r < 64 → nth_bit r m ≡ 0

shift_one : (i f : ℕ) → i < 63 → f ≡ 2 ^ i → mul64 f 2 ≡ 2 ^ (i + 1)
shift_one i f h e =
    let small : 2 ^ (i + 1) ≤ 2 ^ 63 = pow-le-pow_right (omega arith) {j = 63} (omega arith) in
    let double : 2 ^ (i + 1) ≡ 2 ^ i * 2 = rw add-one (pow-suc 2 i) in
    omega (arith, small, double, e)

first_zero-FirstZero :
    (left i f m : ℕ)
    → i + left ≡ 64
    → (0 < left → f ≡ 2 ^ i)
    → FirstZero i m (first_zero left i f m)
unfolding first_zero
first_zero-FirstZero zero i f m e p = record {
  bounded = omega arith;
  ones = λ j l h. absurd (omega arith);
  zero_at = λ h. absurd (omega arith);
}
first_zero-FirstZero (suc left) i f m e p =
    let here : bit_and m f ≡ nth_bit i m * 2 ^ i =
      ap (bit_and m) (p (omega arith)) ∙ bit_and-pow i m in
    elim (ℕ_discrete (bit_and m f) 0) [
      | yes z ↦
          let zero_digit : nth_bit i m ≡ 0 =
            grind (arith, here, z, one-le-pow i 2 (omega arith), nth_bit-lt i m) in
          rw (eq→== _ _ z, first_zero)
            (record {
              bounded = omega arith;
              ones = λ j l h. absurd (omega arith);
              zero_at = λ h. zero_digit;
            })
      | no n ↦
          let one_digit : nth_bit i m ≡ 1 = grind (arith, here, n, nth_bit-lt i m) in
          let shifted : 0 < left → mul64 f 2 ≡ 2 ^ (i + 1) =
            λ l. shift_one i f (omega arith) (p (omega arith)) in
          let rest = first_zero-FirstZero left (i + 1) (mul64 f 2) m (omega arith) shifted in
          rw (ne→== _ _ n, first_zero)
            (record {
              bounded = rest.bounded;
              ones = λ j l h. elim (ℕ_discrete j i) [
                | yes q ↦ rw q one_digit
                | no q ↦ rest.ones j (omega arith) h
              ];
              zero_at = rest.zero_at;
            })
    ]

-- The first zero bit of a word, which is below its width if the word has a zero there.
abbrev pub scan : ℕ → ℕ
scan m = first_zero 64 0 1 m

pub scan-FirstZero : (m : ℕ) → FirstZero 0 m (scan m)
scan-FirstZero m = first_zero-FirstZero 64 0 1 m refl (λ _. refl)

pub scan-le : (m j : ℕ) → j < 64 → nth_bit j m ≡ 0 → scan m ≤ j
scan-le m j h z = elim (dec_lt j (scan m)) [
  | yes l ↦ absurd (omega (arith, (scan-FirstZero m).ones j (omega arith) l))
  | no l ↦ omega arith
]

pub scan-lt : (m : ℕ) → m < 2 ^ 64 → m ≢ 2 ^ 64 - 1 → scan m < 64
scan-lt m h n = elim (dec_lt (scan m) 64) [
  | yes l ↦ l
  | no l ↦ absurd (
      n (
        eq_of_nth_bit 64 m (2 ^ 64 - 1) h (omega arith) (λ j q.
          (scan-FirstZero m).ones j (omega arith) (omega arith) ∙ sym (nth_bit-ones 64 j q))))
]

-- The rounds of the search.
module _ (fuel : ℕ) (a : Allocator) (p2 offset addr : ℕ) where
  pub find_loop_end : a.size ≤ p2 → find_loop (suc fuel) a p2 offset addr ≡ addr
  unfolding find_loop
  find_loop_end h = rw (le→ltb _ _ h, find_loop)

  pub find_loop_outside :
      p2 < a.size → a.total ≤ add64 offset addr → find_loop (suc fuel) a p2 offset addr ≡ uint64_max
  unfolding find_loop
  find_loop_outside h k = rw (lt→ltb _ _ h, find_loop, le→leb _ _ k)

  pub find_loop_full :
      p2 < a.size
      → add64 offset addr < a.total
      → scan (word a (add64 offset addr)) ≡ 64
      → find_loop (suc fuel) a p2 offset addr ≡ uint64_max
  unfolding find_loop
  find_loop_full h k e = rw (lt→ltb _ _ h, find_loop, lt→leb _ _ k, e)

  pub find_loop_next :
      p2 < a.size
      → add64 offset addr < a.total
      → scan (word a (add64 offset addr)) < 64
      → find_loop (suc fuel) a p2 offset addr
        ≡ find_loop fuel a
            (mul64 p2 64)
            (add64 offset p2)
            (bit_or (mul64 addr 64) (scan (word a (add64 offset addr))))
  unfolding find_loop
  find_loop_next h k l =
      let inside = ne→== (scan (word a (add64 offset addr))) 64 (λ e. omega arith) in
      rw (lt→ltb _ _ h, find_loop, lt→leb _ _ k, inside)
