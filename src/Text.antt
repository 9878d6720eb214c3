-- ===== src/Text.antt =====
-- src/util/str_util.cpp: quoting and unquoting, and other functions on strings. A string is a list of
-- bytes, and a string with a position in it is the rest from that position on.
pub mod Base64
pub mod Quoting
use vitastor.Base.{
  ℕ, zero, suc, ◌+◌, bit_and, Bool, true, false, not, ◌&&◌, ◌||◌, List, [], ◌∷◌, ◌++◌, Option, none,
  some, ◌>>=◌, ltb, leb, ◌==◌, ◌!=◌, if◌then◌else◌,
}

-- `is_white`
unfoldable pub is_white : ℕ → Bool
is_white c = c == 32 || c == 9 || c == 13 || c == 10

abbrev pub double_quote : ℕ
double_quote = 34

abbrev pub single_quote : ℕ
single_quote = 39

abbrev pub backslash : ℕ
backslash = 92

-- A byte is one of `toescape`.
unfoldable pub is_one_of : List ℕ → ℕ → Bool
is_one_of [] c = false
is_one_of (t ∷ ts) c = t == c || is_one_of ts c

-- `auto_addslashes` quotes a string only where it has something to escape.
unfoldable pub has_any : List ℕ → List ℕ → Bool
has_any toescape [] = false
has_any toescape (c ∷ cs) = is_one_of toescape c || has_any toescape cs

-- The loop of `addslashes`
unfoldable pub escape : List ℕ → List ℕ → List ℕ
escape toescape [] = []
escape toescape (c ∷ cs) =
    if is_one_of toescape c then backslash ∷ c ∷ escape toescape cs else c ∷ escape toescape cs

-- `addslashes`
unfoldable pub addslashes : List ℕ → List ℕ → List ℕ
addslashes toescape str = double_quote ∷ escape toescape str ++ double_quote ∷ []

-- `auto_addslashes`
unfoldable pub auto_addslashes : List ℕ → List ℕ → List ℕ
auto_addslashes toescape str = if has_any toescape str then addslashes toescape str else str

-- `while (pos < size && is_white(cmd[pos])) pos++;`
unfoldable pub skip_white : List ℕ → List ℕ
skip_white [] = []
skip_white (c ∷ cs) = if is_white c then skip_white cs else c ∷ cs

-- The part up to white space, and the rest.
unfoldable pub scan_word : List ℕ → List ℕ × List ℕ
scan_word [] = ([], [])
scan_word (c ∷ cs) =
    let (key, rest) = scan_word cs in if is_white c then ([], c ∷ cs) else (c ∷ key, rest)

abbrev pub prepend : ℕ → Option (List ℕ × List ℕ) → Option (List ℕ × List ℕ)
prepend c r = r >>= λ p. some (c ∷ p.0, p.1)

-- The loop over a quoted string, after the quote; `none` is an unfinished one.
unfoldable pub scan_quoted : ℕ → List ℕ → Option (List ℕ × List ℕ)
scan_quoted quot [] = none
scan_quoted quot (c ∷ []) = if c == quot then some ([], []) else none
scan_quoted quot (c ∷ d ∷ ds) =
    let next = prepend c (scan_quoted quot (d ∷ ds)) in
    let escaped = prepend d (scan_quoted quot ds) in
    if c == quot then some ([], d ∷ ds) else if c == backslash then escaped else next

-- `scan_escaped`: the string that was read and what is left of the input.
unfoldable pub scan_escaped : Bool → List ℕ → List ℕ × List ℕ
scan_escaped allow_unquoted cmd = elim (skip_white cmd) [
  | [] ↦ ([], cmd)
  | c ∷ cs ↦
      if c != double_quote && c != single_quote
      then (if allow_unquoted then scan_word (c ∷ cs) else ([], cmd))
      else elim (scan_quoted c cs) [ none ↦ ([], cmd) | some p ↦ p ]
]

-- `str_repeat`
unfoldable pub str_repeat : List ℕ → ℕ → List ℕ
str_repeat str zero = []
str_repeat str (suc times) = str ++ str_repeat str times

-- `utf8_length`: the bytes that do not continue a character.
unfoldable pub utf8_length : List ℕ → ℕ
utf8_length [] = 0
utf8_length (c ∷ cs) = (if bit_and c 0xc0 != 0x80 then 1 else 0) + utf8_length cs
