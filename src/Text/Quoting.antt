-- ===== src/Text/Quoting.antt =====
-- src/util/str_util.cpp: `scan_escaped` reads back what `addslashes` wrote.
use vitastor.Base.{
  ℕ, ◌≡◌, refl, sym, ◌∙◌, ap, Bool, true, false, List, [], ◌∷◌, ◌++◌, some, ◌==◌, arith, Bool-cases,
  ne→==, inl, inr,
}
use native.Mathlib.Decide.{ℕ_discrete}
use vitastor.Text.{
  is_white, is_one_of, escape, addslashes, skip_white, scan_quoted, scan_escaped, prepend,
  double_quote, backslash,
}

-- A byte that is not escaped is none that is.
plain_ne :
    (toescape : List ℕ) (c t : ℕ)
    → is_one_of toescape t ≡ true
    → is_one_of toescape c ≡ false
    → (c == t) ≡ false
plain_ne toescape c t h k = elim (ℕ_discrete c t) [
  | no n ↦ ne→== c t n
  | yes e ↦ absurd (ground (arith, sym h ∙ ap (is_one_of toescape) (sym e) ∙ k))
]

scan_quoted-plain :
    (quot c : ℕ) (cs : List ℕ)
    → (c == quot) ≡ false
    → (c == backslash) ≡ false
    → scan_quoted quot (c ∷ cs) ≡ prepend c (scan_quoted quot cs)
unfolding scan_quoted
scan_quoted-plain quot c [] h k = rw h refl
scan_quoted-plain quot c (d ∷ ds) h k = rw (h, k) refl

scan_quoted-escape :
    (toescape str rest : List ℕ)
    → is_one_of toescape double_quote ≡ true
    → is_one_of toescape backslash ≡ true
    → scan_quoted double_quote (escape toescape str ++ double_quote ∷ rest) ≡ some (str, rest)
unfolding scan_quoted escape
scan_quoted-escape toescape [] [] q b = refl
scan_quoted-escape toescape [] (d ∷ ds) q b = refl
scan_quoted-escape toescape (c ∷ cs) rest q b =
    let tail = scan_quoted-escape toescape cs rest q b in
    elim (Bool-cases (is_one_of toescape c)) [
      | inl e ↦ rw (e, tail) refl
      | inr e ↦
          let plain =
            scan_quoted-plain double_quote c (escape toescape cs ++ double_quote ∷ rest)
              (plain_ne toescape c double_quote q e) (plain_ne toescape c backslash b e) in
          rw e (plain ∙ ap (prepend c) tail)
    ]

append_assoc : (xs ys zs : List ℕ) → (xs ++ ys) ++ zs ≡ xs ++ (ys ++ zs)
append_assoc [] ys zs = refl
append_assoc (x ∷ xs) ys zs = ap (λ l. x ∷ l) (append_assoc xs ys zs)

-- `scan_escaped` reads back a string that `addslashes` quoted, up to its end, with or without
-- unquoted strings allowed, if the double quote and the backslash are among the escaped bytes.
pub scan_escaped-addslashes :
    (toescape str rest : List ℕ) (allow_unquoted : Bool)
    → is_one_of toescape double_quote ≡ true
    → is_one_of toescape backslash ≡ true
    → scan_escaped allow_unquoted (addslashes toescape str ++ rest) ≡ (str, rest)
unfolding scan_escaped addslashes skip_white is_white
scan_escaped-addslashes toescape str rest allow q b =
    rw
      (
        append_assoc (escape toescape str) (double_quote ∷ []) rest,
        scan_quoted-escape toescape str rest q b,
      )
      refl
