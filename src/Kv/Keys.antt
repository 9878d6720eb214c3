-- ===== src/Kv/Keys.antt =====
-- src/kv/kv_db.cpp: the order of the keys.
use vitastor.Base.{◌≡◌, refl, inl, inr, true, false, [], ◌∷◌, arith, Bool-cases}
use vitastor.Kv.{Str, str_lt, str_eq}

pub str_lt_irrefl : (a : Str) → str_lt a a ≡ false
unfolding str_lt
str_lt_irrefl [] = refl
str_lt_irrefl (x ∷ a) = ground (arith, str_lt_irrefl a)

pub str_lt_trans : (a b c : Str) → str_lt a b ≡ true → str_lt b c ≡ true → str_lt a c ≡ true
unfolding str_lt
str_lt_trans a b [] h k = cc
str_lt_trans a [] (z ∷ c) h k = cc
str_lt_trans [] (y ∷ b) (z ∷ c) h k = refl
str_lt_trans (x ∷ a) (y ∷ b) (z ∷ c) h k = ground (arith, str_lt_trans a b c, h, k)

pub str_lt_asymm : (a b : Str) → str_lt a b ≡ true → str_lt b a ≡ false
unfolding str_lt
str_lt_asymm a [] h = cc
str_lt_asymm [] (y ∷ b) h = refl
str_lt_asymm (x ∷ a) (y ∷ b) h = ground (arith, str_lt_asymm a b, h)

pub eq_of_str_lt : (a b : Str) → str_lt a b ≡ false → str_lt b a ≡ false → a ≡ b
unfolding str_lt
eq_of_str_lt [] [] h k = refl
eq_of_str_lt [] (y ∷ b) h k = cc
eq_of_str_lt (x ∷ a) [] h k = cc
eq_of_str_lt (x ∷ a) (y ∷ b) h k = ground (arith, eq_of_str_lt a b, h, k)

pub str_eq→eq : (a b : Str) → str_eq a b ≡ true → a ≡ b
unfolding str_eq
str_eq→eq a b h = eq_of_str_lt a b (ground (arith, h)) (ground (arith, h))

pub str_eq_self : (a : Str) → str_eq a a ≡ true
unfolding str_eq
str_eq_self a = rw (str_lt_irrefl a) refl

pub lt→str_eq : (a b : Str) → str_lt a b ≡ true → str_eq a b ≡ false
unfolding str_eq
lt→str_eq a b h = rw h refl

pub gt→str_eq : (a b : Str) → str_lt b a ≡ true → str_eq a b ≡ false
unfolding str_eq
gt→str_eq a b h = ground (arith, h)

-- Not below a bound, and the bound below a third key.
pub str_lt_of_le_of_lt : (a b c : Str) → str_lt b a ≡ false → str_lt b c ≡ true → str_lt a c ≡ true
str_lt_of_le_of_lt a b c h k = elim (Bool-cases (str_lt a b)) [
  | inl y ↦ str_lt_trans a b c y k
  | inr n ↦ rw (eq_of_str_lt a b n h) k
]

pub str_lt_of_lt_of_le : (a b c : Str) → str_lt a b ≡ true → str_lt c b ≡ false → str_lt a c ≡ true
str_lt_of_lt_of_le a b c h k = elim (Bool-cases (str_lt b c)) [
  | inl y ↦ str_lt_trans a b c h y
  | inr n ↦ rw (← eq_of_str_lt b c n k) h
]
