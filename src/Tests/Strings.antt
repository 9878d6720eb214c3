-- ===== src/Tests/Strings.antt =====
-- src/util/str_util.cpp: the string `a"b`, quoted and read back.
use vitastor.Base.{◌≡◌, refl, true, List, [], ◌∷◌, ◌++◌, ℕ}
use vitastor.Text.{addslashes, scan_escaped, is_one_of, escape}
use vitastor.Text.Quoting.{scan_escaped-addslashes}

abbrev special : List ℕ
special = 34 ∷ 92 ∷ []

abbrev quoted : List ℕ
quoted = 97 ∷ 34 ∷ 98 ∷ []

quoted_bytes : addslashes special quoted ≡ 34 ∷ 97 ∷ 92 ∷ 34 ∷ 98 ∷ 34 ∷ []
unfolding addslashes escape is_one_of
quoted_bytes = refl

scan_escaped-addslashes_example :
    scan_escaped true (addslashes special quoted ++ 32 ∷ []) ≡ (quoted, 32 ∷ [])
unfolding is_one_of
scan_escaped-addslashes_example = scan_escaped-addslashes special quoted (32 ∷ []) true refl refl
