-- ===== src/Allocator/Marking/Word.antt =====
-- src/util/allocator.cpp: one round of the loop of `allocator_t::set`.
use vitastor.Base.{
  ℕ, suc, ◌%◌, ◌^◌, ◌<◌, ◌≤◌, ◌≡◌, ◌≢◌, refl, sym, ap, Bool, true, false, List, arith, ◌==◌,
  if◌then◌else◌, get_or, length, get_or-set_self, get_or-set_ne, length-set, bit_or, bit_and,
  bit_xor,
}
use vitastor.Base.Bits.{
  nth_bit, nth_bit-lt, nth_bit-shr, nth_bit-bit_or, nth_bit-bit_and, nth_bit-bit_xor,
  nth_bit-pow_self, nth_bit-pow_ne, nth_bit-ones, nth_bit_high, bit_or-lt, bit_and-le, bit_and-one,
}
use vitastor.Base.Words.{uint64_max}
use vitastor.Allocator.{Allocator, mask_bit, count_free, full_word, put_word, mark_word}
use vitastor.Allocator.Edges.{word, width, to_nat}
use vitastor.Allocator.Marking.Flip.{Flip}
use native.Mathlib.Decide.{dec_lt}
use native.Mathlib.Nat.{pow-le-pow_right, pow-suc, one-le-pow}

pub mask_bit_lem : (mask : List ℕ) (i bit : ℕ) → mask_bit mask i bit ≡ nth_bit bit (get_or mask i 0)
unfolding mask_bit
mask_bit_lem mask i bit = rw (bit_and-one, nth_bit-shr)

-- Setting and clearing one bit of a 64-bit word.
module _ (x b n : ℕ) (low : b < n) (fits : x < 2 ^ n) (narrow : n ≤ 64) where
  pub set_one_made : nth_bit b (bit_or x (2 ^ b)) ≡ 1
  set_one_made = omega (arith, nth_bit-bit_or b x (2 ^ b), nth_bit-pow_self b, nth_bit-lt b x)

  pub set_one_others : (j : ℕ) → j ≢ b → nth_bit j (bit_or x (2 ^ b)) ≡ nth_bit j x
  set_one_others j h = omega (arith, nth_bit-bit_or j x (2 ^ b), nth_bit-pow_ne j b h)

  pub set_one-lt : bit_or x (2 ^ b) < 2 ^ n
  set_one-lt =
      let wider : 2 ^ suc b ≤ 2 ^ n = pow-le-pow_right (omega arith) low in
      bit_or-lt n x (2 ^ b) fits (omega (arith, wider, pow-suc 2 b, one-le-pow b 2 (omega arith)))

  pub set_zero_made : nth_bit b (bit_and x (bit_xor uint64_max (2 ^ b))) ≡ 0
  set_zero_made = omega (
    arith,
    nth_bit-bit_and b x (bit_xor uint64_max (2 ^ b)),
    nth_bit-bit_xor b uint64_max (2 ^ b),
    nth_bit-pow_self b,
    nth_bit-ones 64 b (omega arith),
  )

  pub set_zero_others :
      (j : ℕ) → j ≢ b → nth_bit j (bit_and x (bit_xor uint64_max (2 ^ b))) ≡ nth_bit j x
  set_zero_others j h = elim (dec_lt j 64) [
    | yes in_word ↦ omega (
      arith,
      nth_bit-bit_and j x (bit_xor uint64_max (2 ^ b)),
      nth_bit-bit_xor j uint64_max (2 ^ b),
      nth_bit-pow_ne j b h,
      nth_bit-ones 64 j in_word,
      nth_bit-lt j x,
    )
    | no above ↦ omega (
      arith,
      nth_bit-bit_and j x (bit_xor uint64_max (2 ^ b)),
      nth_bit_high n x j fits (omega arith),
    )
  ]

  pub set_zero-lt : bit_and x (bit_xor uint64_max (2 ^ b)) < 2 ^ n
  set_zero-lt = omega (arith, bit_and-le x x (bit_xor uint64_max (2 ^ b)) (omega arith))

-- What the two writes of a round leave of the allocator.
module _ (a : Allocator) (w b x : ℕ) (is_last value : Bool) (inside : w < length a.mask) where
  put_word-Flip :
      nth_bit b x ≡ to_nat value
      → ((j : ℕ) → j ≢ b → nth_bit j x ≡ nth_bit j (word a w))
      → x < 2 ^ width a w
      → Flip a (put_word (count_free is_last value a) w x) w b (to_nat value)
  unfolding put_word count_free
  put_word-Flip made others fits = record {
    size = refl;
    total = refl;
    ones = refl;
    measured = length-set a.mask w x;
    made = rw (get_or-set_self a.mask w x 0 inside) made;
    others = λ j h. rw (get_or-set_self a.mask w x 0 inside) (others j h);
    elsewhere = λ y n. get_or-set_ne a.mask w y x 0 (λ e. n (sym e));
    bounded = rw (get_or-set_self a.mask w x 0 inside) fits;
  }

-- A round that changes the word `w` of `a`.
pub record Changed (a : Allocator) (value : Bool) (w cur : ℕ) (is_last : Bool) : Type 0 where
  pub was : nth_bit (cur % 64) (word a w) ≢ to_nat value
  pub flip : Flip a (mark_word value w cur is_last a).0 w (cur % 64) (to_nat value)
  pub counted : (mark_word value w cur is_last a).0.free ≡ (count_free is_last value a).free
  pub goes_up : (mark_word value w cur is_last a).1 ≡ (
      if value then word (mark_word value w cur is_last a).0 w == full_word a is_last cur else true)

module _ (a : Allocator) (w cur : ℕ) (is_last : Bool) (inside : w < length a.mask)
    (low : cur % 64 < width a w) (narrow : width a w ≤ 64) (fits : word a w < 2 ^ width a w) where
  pub mark_word_keeps :
      (value : Bool)
      → nth_bit (cur % 64) (word a w) ≡ to_nat value
      → mark_word value w cur is_last a ≡ (a, false)
  unfolding mark_word
  mark_word_keeps true h = rw (mask_bit_lem a.mask w (cur % 64), h)
  mark_word_keeps false h = rw (mask_bit_lem a.mask w (cur % 64), h)

  mark_word_sets :
      nth_bit (cur % 64) (word a w) ≡ 0
      → mark_word true w cur is_last a ≡ (
        put_word (count_free is_last true a) w (bit_or (word a w) (2 ^ (cur % 64))),
        bit_or (word a w) (2 ^ (cur % 64)) == full_word a is_last cur,
      )
  unfolding mark_word
  mark_word_sets h = rw (mask_bit_lem a.mask w (cur % 64), h)

  mark_word_clears :
      nth_bit (cur % 64) (word a w) ≡ 1
      → mark_word false w cur is_last a ≡ (
        put_word
            (count_free is_last false a)
            w
            (bit_and (word a w) (bit_xor uint64_max (2 ^ (cur % 64)))),
        true,
      )
  unfolding mark_word
  mark_word_clears h = rw (mask_bit_lem a.mask w (cur % 64), h)

  pub mark_word-Changed :
      (value : Bool) → nth_bit (cur % 64) (word a w) ≢ to_nat value → Changed a value w cur is_last
  mark_word-Changed true h =
      let b = cur % 64 in
      let x = bit_or (word a w) (2 ^ b) in
      let e = mark_word_sets (omega (arith, nth_bit-lt b (word a w))) in
      record {
        was = h;
        flip = rw e (
            put_word-Flip a w b x is_last true inside
              (set_one_made (word a w) b (width a w) low fits narrow)
              (set_one_others (word a w) b (width a w) low fits narrow)
              (set_one-lt (word a w) b (width a w) low fits narrow));
        counted = rw e (unfold put_word in refl);
        goes_up = rw e (
            unfold put_word count_free in
            ap (λ y. y == full_word a is_last cur) (sym (get_or-set_self a.mask w x 0 inside)));
      }
  mark_word-Changed false h =
      let b = cur % 64 in
      let x = bit_and (word a w) (bit_xor uint64_max (2 ^ b)) in
      let e = mark_word_clears (omega (arith, nth_bit-lt b (word a w))) in
      record {
        was = h;
        flip = rw e (
            put_word-Flip a w b x is_last false inside
              (set_zero_made (word a w) b (width a w) low fits narrow)
              (set_zero_others (word a w) b (width a w) low fits narrow)
              (set_zero-lt (word a w) b (width a w) low fits narrow));
        counted = rw e (unfold put_word in refl);
        goes_up = rw e;
      }
