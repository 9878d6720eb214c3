-- ===== src/Text/Base64.antt =====
-- src/util/str_util.cpp: `base64_encode` and `base64_decode`, over the bytes of a string. `bits` is the
-- number of bits that wait in `val`: `valb + 6` in the encoder and `valb + 8` in the decoder.
use vitastor.Base.{
  ℕ, zero, suc, ◌+◌, ◌-◌, ◌/◌, ◌%◌, ◌^◌, ◌&&◌, List, [], ◌∷◌, ◌++◌, Option, none, some, ltb, leb,
  ◌==◌, if◌then◌else◌, length, replicate,
}
use vitastor.Base.Words.{add32, mul32}

-- The alphabet at an index below 64.
unfoldable pub digit_char : ℕ → ℕ
digit_char d =
    if ltb d 26
    then d + 65
    else if ltb d 52
    then d + 71
    else if ltb d 62
    then d - 4
    else if d == 62
    then 43
    else 47

-- `T`, where `none` is -1
unfoldable pub char_digit : ℕ → Option ℕ
char_digit c =
    if leb 65 c && leb c 90
    then some (c - 65)
    else if leb 97 c && leb c 122
    then some (c - 71)
    else if leb 48 c && leb c 57
    then some (c + 4)
    else if c == 43
    then some 62
    else if c == 47
    then some 63
    else none

-- `while (valb >= 0)`: two rounds at most, since fewer than 6 bits wait before a byte is added.
unfoldable pub put_digits : ℕ → ℕ → ℕ → List ℕ
put_digits zero val bits = []
put_digits (suc fuel) val bits =
    let rest = put_digits fuel val (bits - 6) in
    if leb 6 bits then digit_char (val / 2 ^ (bits - 6) % 64) ∷ rest else []

-- The loop over the bytes and the last digit.
unfoldable pub encode_bytes : ℕ → ℕ → List ℕ → List ℕ
encode_bytes val bits [] =
    if ltb 0 bits then digit_char (mul32 val 256 / 2 ^ (bits + 2) % 64) ∷ [] else []
encode_bytes val bits (c ∷ cs) =
    let next = add32 (mul32 val 256) c in
    put_digits 2 next (bits + 8) ++ encode_bytes next ((bits + 8) % 6) cs

-- `base64_encode`
unfoldable pub base64_encode : List ℕ → List ℕ
base64_encode str = let out = encode_bytes 0 0 str in out ++ replicate ((4 - length out % 4) % 4) 61

-- The loop of `base64_decode`
unfoldable pub decode_bytes : ℕ → ℕ → List ℕ → List ℕ
decode_bytes val bits [] = []
decode_bytes val bits (c ∷ cs) = elim (char_digit c) [
  | none ↦ []
  | some d ↦
      let next = add32 (mul32 val 64) d in
      if leb 8 (bits + 6)
      then next / 2 ^ (bits + 6 - 8) % 256 ∷ decode_bytes next (bits + 6 - 8) cs
      else decode_bytes next (bits + 6) cs
]

-- `base64_decode`
unfoldable pub base64_decode : List ℕ → List ℕ
base64_decode str = decode_bytes 0 0 str
