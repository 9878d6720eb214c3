-- ===== src/Base/Bits.antt =====
-- Laws of the bit operations at variables, through the binary digits of a number.
use Prim.Native.Nat.{
  ℕ, zero, suc, ◌+◌, ◌-◌, ◌*◌, ◌/◌, ◌%◌, ◌^◌, ◌≤◌, ◌<◌, min, max, bit_and, bit_or, bit_xor, digits,
  differ, bit_and-bitwise, bit_or-bitwise, bit_xor-bitwise,
}
use mathlib.Core.Logic.{◌≢◌}
use mathlib.Core.Path.{◌≡◌, refl, sym, ◌∙◌, ap}
use native.Mathlib.Nat.{pow-suc, pow-succ', div-div-eq-div-mul, div-one, one-le-pow, mul_assoc}
use native.Mathlib.Omega.{arith}

-- The digit of `x` of weight 2 ^ j.
unfoldable pub nth_bit : ℕ → ℕ → ℕ
nth_bit zero x = x % 2
nth_bit (suc j) x = nth_bit j (x / 2)

pub nth_bit-lt : (j x : ℕ) → nth_bit j x < 2
unfolding nth_bit
nth_bit-lt zero x = omega arith
nth_bit-lt (suc j) x = nth_bit-lt j (x / 2)

pub nth_bit-shr : (j x : ℕ) → x / 2 ^ j % 2 ≡ nth_bit j x
unfolding nth_bit
nth_bit-shr zero x = rw div-one
nth_bit-shr (suc j) x = rw (pow-succ', ← div-div-eq-div-mul) (nth_bit-shr j (x / 2))

-- One step of the recursion that the native operations stand for.
module _ (z : ℕ → ℕ) (f : ℕ → ℕ → ℕ) (z_step : (b : ℕ) → z b ≡ z (b / 2) * 2 + f 0 (b % 2)) where
  -- Fuel from `x` on makes no difference.
  digits_enough : (x y k l : ℕ) → x ≤ k → x ≤ l → digits z f k x y ≡ digits z f l x y
  digits_enough zero y zero zero hk hl = refl
  digits_enough zero y zero (suc l) hk hl = refl
  digits_enough zero y (suc k) zero hk hl = refl
  digits_enough zero y (suc k) (suc l) hk hl = refl
  digits_enough (suc x) y zero l hk hl = absurd (omega (arith, hk))
  digits_enough (suc x) y (suc k) zero hk hl = absurd (omega (arith, hl))
  digits_enough (suc x) y (suc k) (suc l) hk hl =
      let half = digits_enough (suc x / 2) (y / 2) k l (omega arith) (omega arith) in
      omega (arith, half)

  digits_step :
      (a b : ℕ) → digits z f a a b ≡ digits z f (a / 2) (a / 2) (b / 2) * 2 + f (a % 2) (b % 2)
  digits_step zero b = z_step b
  digits_step (suc a) b =
      omega (arith, digits_enough (suc a / 2) (b / 2) a (suc a / 2) (omega arith) (omega arith))

bit_and_halves : (x y : ℕ) → bit_and x y ≡ min (x % 2) (y % 2) + bit_and (x / 2) (y / 2) * 2
bit_and_halves x y =
    let whole = bit_and-bitwise x y in
    let halves = bit_and-bitwise (x / 2) (y / 2) in
    omega (arith, whole, halves, digits_step (λ _. 0) min (λ b. omega arith) x y)

bit_or_step : (a b : ℕ) → bit_or a b ≡ bit_or (a / 2) (b / 2) * 2 + max (a % 2) (b % 2)
bit_or_step a b = omega (
  arith,
  bit_or-bitwise a b,
  bit_or-bitwise (a / 2) (b / 2),
  digits_step (λ b. b) max (λ b. omega arith) a b,
)

bit_xor_step : (a b : ℕ) → bit_xor a b ≡ bit_xor (a / 2) (b / 2) * 2 + differ (a % 2) (b % 2)
bit_xor_step a b = omega (
  arith,
  bit_xor-bitwise a b,
  bit_xor-bitwise (a / 2) (b / 2),
  digits_step (λ b. b) differ (λ b. omega arith) a b,
)

-- One binary digit of the difference of two.
differ-mod : (a b : ℕ) → a < 2 → b < 2 → differ a b ≡ (a + b) % 2
differ-mod zero b h k = omega arith
differ-mod (suc zero) zero h k = refl
differ-mod (suc zero) (suc zero) h k = refl
differ-mod (suc zero) (suc (suc b)) h k = absurd (omega arith)
differ-mod (suc (suc a)) b h k = absurd (omega arith)

-- The digits of the three operations are those of the operands, combined.
pub nth_bit-bit_and : (j a b : ℕ) → nth_bit j (bit_and a b) ≡ min (nth_bit j a) (nth_bit j b)
unfolding nth_bit
nth_bit-bit_and zero a b = omega (arith, bit_and_halves a b)
nth_bit-bit_and (suc j) a b =
    let e : bit_and a b / 2 ≡ bit_and (a / 2) (b / 2) = omega (arith, bit_and_halves a b) in
    rw e (nth_bit-bit_and j (a / 2) (b / 2))

pub nth_bit-bit_or : (j a b : ℕ) → nth_bit j (bit_or a b) ≡ max (nth_bit j a) (nth_bit j b)
unfolding nth_bit
nth_bit-bit_or zero a b = omega (arith, bit_or_step a b)
nth_bit-bit_or (suc j) a b =
    let e : bit_or a b / 2 ≡ bit_or (a / 2) (b / 2) = omega (arith, bit_or_step a b) in
    rw e (nth_bit-bit_or j (a / 2) (b / 2))

pub nth_bit-bit_xor : (j a b : ℕ) → nth_bit j (bit_xor a b) ≡ (nth_bit j a + nth_bit j b) % 2
unfolding nth_bit
nth_bit-bit_xor zero a b =
    omega (arith, bit_xor_step a b, differ-mod (a % 2) (b % 2) (omega arith) (omega arith))
nth_bit-bit_xor (suc j) a b =
    let d = differ-mod (a % 2) (b % 2) (omega arith) (omega arith) in
    let e : bit_xor a b / 2 ≡ bit_xor (a / 2) (b / 2) = omega (arith, bit_xor_step a b, d) in
    rw e (nth_bit-bit_xor j (a / 2) (b / 2))

pub nth_bit-zero : (j : ℕ) → nth_bit j 0 ≡ 0
unfolding nth_bit
nth_bit-zero zero = refl
nth_bit-zero (suc j) = nth_bit-zero j

-- A power of two has one digit.
pub nth_bit-pow_self : (b : ℕ) → nth_bit b (2 ^ b) ≡ 1
unfolding nth_bit
nth_bit-pow_self zero = refl
nth_bit-pow_self (suc b) =
    let e : 2 ^ suc b / 2 ≡ 2 ^ b = omega (arith, pow-suc 2 b) in rw e (nth_bit-pow_self b)

pub nth_bit-pow_ne : (j b : ℕ) → j ≢ b → nth_bit j (2 ^ b) ≡ 0
unfolding nth_bit
nth_bit-pow_ne zero zero h = absurd (h refl)
nth_bit-pow_ne zero (suc b) h = omega (arith, pow-suc 2 b)
nth_bit-pow_ne (suc j) zero h = nth_bit-zero j
nth_bit-pow_ne (suc j) (suc b) h =
    let e : 2 ^ suc b / 2 ≡ 2 ^ b = omega (arith, pow-suc 2 b) in
    rw e (nth_bit-pow_ne j b (λ e. h (ap suc e)))

-- 2 ^ n - 1 has its n low digits set and no other.
pub nth_bit-ones : (n j : ℕ) → j < n → nth_bit j (2 ^ n - 1) ≡ 1
unfolding nth_bit
nth_bit-ones zero j h = absurd (omega arith)
nth_bit-ones (suc n) zero h = omega (arith, pow-suc 2 n, one-le-pow n 2 (omega arith))
nth_bit-ones (suc n) (suc j) h =
    let e : (2 ^ suc n - 1) / 2 ≡ 2 ^ n - 1 =
      omega (arith, pow-suc 2 n, one-le-pow n 2 (omega arith)) in
    rw e (nth_bit-ones n j (omega arith))

pub nth_bit_high : (n x j : ℕ) → x < 2 ^ n → n ≤ j → nth_bit j x ≡ 0
unfolding nth_bit
nth_bit_high zero zero j h k = nth_bit-zero j
nth_bit_high zero (suc x) j h k = absurd (omega arith)
nth_bit_high (suc n) x zero h k = absurd (omega arith)
nth_bit_high (suc n) x (suc j) h k =
    nth_bit_high n (x / 2) j (omega (arith, pow-suc 2 n)) (omega arith)

-- Numbers below 2 ^ n with the same n digits are equal.
pub eq_of_nth_bit :
    (n x y : ℕ) → x < 2 ^ n → y < 2 ^ n → ((j : ℕ) → j < n → nth_bit j x ≡ nth_bit j y) → x ≡ y
unfolding nth_bit
eq_of_nth_bit zero x y h k e = omega arith
eq_of_nth_bit (suc n) x y h k e =
    let low : x % 2 ≡ y % 2 = e 0 (omega arith) in
    let high : x / 2 ≡ y / 2 =
      eq_of_nth_bit n (x / 2) (y / 2) (omega (arith, pow-suc 2 n)) (omega (arith, pow-suc 2 n))
        (λ j p. e (suc j) (omega arith)) in
    omega arith

-- The operations keep within a width.
pub bit_or-lt : (n a b : ℕ) → a < 2 ^ n → b < 2 ^ n → bit_or a b < 2 ^ n
bit_or-lt zero zero zero h k = omega arith
bit_or-lt zero (suc a) b h k = absurd (omega arith)
bit_or-lt zero zero (suc b) h k = absurd (omega arith)
bit_or-lt (suc n) a b h k = omega (
  arith,
  bit_or_step a b,
  pow-suc 2 n,
  bit_or-lt n (a / 2) (b / 2) (omega (arith, pow-suc 2 n)) (omega (arith, pow-suc 2 n)),
)

pub bit_and-le : (n a b : ℕ) → a ≤ n → bit_and a b ≤ a
bit_and-le n zero b h = omega (arith, bit_and-bitwise 0 b)
bit_and-le zero (suc a) b h = absurd (omega arith)
bit_and-le (suc n) (suc a) b h =
    omega (arith, bit_and_halves (suc a) b, bit_and-le n (suc a / 2) (b / 2) (omega arith))

pub bit_xor-lt : (n a b : ℕ) → a < 2 ^ n → b < 2 ^ n → bit_xor a b < 2 ^ n
bit_xor-lt zero zero zero h k = omega arith
bit_xor-lt zero (suc a) b h k = absurd (omega arith)
bit_xor-lt zero zero (suc b) h k = absurd (omega arith)
bit_xor-lt (suc n) a b h k = omega (
  arith,
  bit_xor_step a b,
  differ-mod (a % 2) (b % 2) (omega arith) (omega arith),
  pow-suc 2 n,
  bit_xor-lt n (a / 2) (b / 2) (omega (arith, pow-suc 2 n)) (omega (arith, pow-suc 2 n)),
)

pub bit_and-one : (a : ℕ) → bit_and a 1 ≡ a % 2
bit_and-one a = omega (arith, bit_and_halves a 1, bit_and-zero_fuel (a / 2) (a / 2) (omega arith))
  where
    bit_and-zero_fuel : (n a : ℕ) → a ≤ n → bit_and a 0 ≡ 0
    bit_and-zero_fuel n zero h = bit_and-bitwise 0 0
    bit_and-zero_fuel zero (suc a) h = absurd (omega arith)
    bit_and-zero_fuel (suc n) (suc a) h =
        omega (arith, bit_and_halves (suc a) 0, bit_and-zero_fuel n (suc a / 2) (omega arith))

-- `m & (1 << i)` is the one digit in its place.
pub bit_and-pow : (i m : ℕ) → bit_and m (2 ^ i) ≡ nth_bit i m * 2 ^ i
unfolding nth_bit
bit_and-pow zero m = omega (arith, bit_and-one m)
bit_and-pow (suc i) m =
    let half : 2 ^ suc i / 2 ≡ 2 ^ i = omega (arith, pow-suc 2 i) in
    let step : bit_and m (2 ^ suc i) ≡ bit_and (m / 2) (2 ^ i) * 2 =
      omega (arith, bit_and_halves m (2 ^ suc i), ap (bit_and (m / 2)) half, pow-suc 2 i) in
    step ∙ rw (bit_and-pow i (m / 2), pow-suc) (mul_assoc (nth_bit i (m / 2)) (2 ^ i) 2)

bit_or-zero : (n x : ℕ) → x ≤ n → bit_or x 0 ≡ x
bit_or-zero n zero h = bit_or-bitwise 0 0
bit_or-zero zero (suc x) h = absurd (omega arith)
bit_or-zero (suc n) (suc x) h =
    omega (arith, bit_or_step (suc x) 0, bit_or-zero n (suc x / 2) (omega arith))

-- `(x << n) | i` for a number `i` of `n` bits.
pub bit_or-shl : (n x i : ℕ) → i < 2 ^ n → bit_or (x * 2 ^ n) i ≡ x * 2 ^ n + i
bit_or-shl zero x (suc i) h = absurd (omega arith)
bit_or-shl zero x zero h = omega (arith, bit_or-zero (x * 1) (x * 1) (omega arith))
bit_or-shl (suc n) x i h =
    let double : x * 2 ^ suc n ≡ x * 2 ^ n * 2 = rw pow-suc (sym (mul_assoc x (2 ^ n) 2)) in
    let half : x * 2 ^ suc n / 2 ≡ x * 2 ^ n = omega arith in
    omega (
      arith,
      bit_or_step (x * 2 ^ suc n) i,
      ap (λ y. bit_or y (i / 2)) half,
      bit_or-shl n x (i / 2) (omega (arith, pow-suc 2 n)),
    )
