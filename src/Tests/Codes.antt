-- ===== src/Tests/Codes.antt =====
-- src/util/str_util.cpp and src/osd/osd_rmw.cpp: base64 of `Man` and `Ma`, and the pairs of four.
use vitastor.Base.{◌≡◌, refl, [], ◌∷◌, some, none}
use vitastor.Text.Base64.{
  base64_encode, encode_bytes, put_digits, digit_char, base64_decode, decode_bytes, char_digit,
}
use vitastor.Rmw.Combinations.{
  first_combination, count_up, next_combination, next_at, fill_after, c_n_k, falling, divide_up,
}

encode_three : base64_encode (77 ∷ 97 ∷ 110 ∷ []) ≡ 84 ∷ 87 ∷ 70 ∷ 117 ∷ []
unfolding base64_encode encode_bytes put_digits digit_char
encode_three = refl

encode_two : base64_encode (77 ∷ 97 ∷ []) ≡ 84 ∷ 87 ∷ 69 ∷ 61 ∷ []
unfolding base64_encode encode_bytes put_digits digit_char
encode_two = refl

decode_two : base64_decode (84 ∷ 87 ∷ 69 ∷ 61 ∷ []) ≡ 77 ∷ 97 ∷ []
unfolding base64_decode decode_bytes char_digit
decode_two = refl

first_pair : first_combination 2 4 ≡ some (0 ∷ 1 ∷ [])
unfolding first_combination count_up
first_pair = refl

pair_after : next_combination (0 ∷ 3 ∷ []) 2 4 ≡ some (1 ∷ 2 ∷ [])
unfolding next_combination next_at fill_after
pair_after = refl

last_pair : next_combination (2 ∷ 3 ∷ []) 2 4 ≡ none
unfolding next_combination next_at fill_after
last_pair = refl

pair_count : c_n_k 4 2 ≡ 6
unfolding c_n_k falling divide_up
pair_count = refl
