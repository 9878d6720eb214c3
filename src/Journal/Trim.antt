-- ===== src/Journal/Trim.antt =====
-- src/blockstore/blockstore_journal.cpp: `get_trim_pos`.
use vitastor.Base.{
  ℕ, ◌+◌, ◌-◌, ◌<◌, ◌≤◌, ◌≡◌, refl, ◌⊎◌, inl, inr, List, [], ◌∷◌, Option, none, some, ltb, leb,
  if◌then◌else◌, arith, Bool-cases,
}
use vitastor.Journal.{Journal}

-- `used_sectors.lower_bound`
unfoldable pub lower_used : ℕ → List (ℕ × ℕ) → Option ℕ
lower_used pos [] = none
lower_used pos ((u, n) ∷ used) = if ltb u pos then lower_used pos used else some u

abbrev pub first_used : ℕ → List (ℕ × ℕ) → ℕ
first_used d [] = d
first_used d ((u, n) ∷ used) = u

-- `get_trim_pos`
unfoldable pub get_trim_pos : Journal → ℕ
get_trim_pos j = elim (lower_used j.used_start j.used_sectors) [
  | none ↦ first_used j.next_free j.used_sectors
  | some u ↦ if ltb j.used_start u then u else j.used_start
]

-- The way from `used_start` to a position in the ring.
abbrev pub ahead : Journal → ℕ → ℕ
ahead j pos = if leb j.used_start pos then pos - j.used_start else pos + j.len - j.used_start

-- Positions in order, from a lower bound on and below the length.
abbrev pub AreSectors : ℕ → ℕ → List (ℕ × ℕ) → Type 0
AreSectors low len [] = Unit
AreSectors low len ((u, n) ∷ used) = (low ≤ u) × (u < len) × AreSectors (u + 1) len used

abbrev pub HasSector : ℕ → List (ℕ × ℕ) → Type 0
HasSector u [] = ⊥
HasSector u ((v, n) ∷ used) = (u ≡ v) ⊎ HasSector u used

AreSectors-bounds :
    (low len u : ℕ) (used : List (ℕ × ℕ))
    → AreSectors low len used
    → HasSector u used
    → (low ≤ u) × (u < len)
AreSectors-bounds low len u [] v h = absurd h
AreSectors-bounds low len u ((w, n) ∷ used) (l, r, v) (inl e) = omega (arith, e)
AreSectors-bounds low len u ((w, n) ∷ used) (l, r, v) (inr h) =
    omega (arith, AreSectors-bounds (w + 1) len u used v h)

first_used-le :
    (low len d u : ℕ) (used : List (ℕ × ℕ))
    → AreSectors low len used
    → HasSector u used
    → first_used d used ≤ u
first_used-le low len d u [] v h = absurd h
first_used-le low len d u ((w, n) ∷ used) (l, r, v) (inl e) = omega (arith, e)
first_used-le low len d u ((w, n) ∷ used) (l, r, v) (inr h) =
    omega (arith, AreSectors-bounds (w + 1) len u used v h)

-- The bound is a used sector at or behind the position.
lower_used-some :
    (pos low len w : ℕ) (used : List (ℕ × ℕ))
    → AreSectors low len used
    → lower_used pos used ≡ some w
    → (pos ≤ w) × (w < len) × HasSector w used
unfolding lower_used
lower_used-some pos low len w [] v h = cc
lower_used-some pos low len w ((x, n) ∷ used) (l, r, v) h = elim (Bool-cases (ltb x pos)) [
  | inl y ↦ let (p, q, s) = lower_used-some pos (x + 1) len w used v (rw y at h) in (p, q, inr s)
  | inr o ↦
      let e : w ≡ x = let same = rw o at h in cc in
      (ground (arith, e, o), omega (arith, e, r), inl e)
]

-- Every other used sector at or behind the position is behind the bound.
lower_used-first :
    (pos low len u w : ℕ) (used : List (ℕ × ℕ))
    → AreSectors low len used
    → lower_used pos used ≡ some w
    → HasSector u used
    → (u < pos) ⊎ (w ≤ u)
unfolding lower_used
lower_used-first pos low len u w [] v h s = absurd s
lower_used-first pos low len u w ((x, n) ∷ used) (l, r, v) h s = elim (Bool-cases (ltb x pos)) [
  | inl y ↦ elim s [
    | inl e ↦ inl (ground (arith, e, y))
    | inr t ↦ lower_used-first pos (x + 1) len u w used v (rw y at h) t
  ]
  | inr o ↦
      let e : w ≡ x = let same = rw o at h in cc in
      inr (omega (arith, e, first_used-le low len 0 u ((x, n) ∷ used) (l, r, v) s))
]

lower_used-none :
    (pos low len u : ℕ) (used : List (ℕ × ℕ))
    → lower_used pos used ≡ none
    → HasSector u used
    → u < pos
unfolding lower_used
lower_used-none pos low len u [] h k = absurd k
lower_used-none pos low len u ((x, n) ∷ used) h (inl e) = ground (arith, h, e)
lower_used-none pos low len u ((x, n) ∷ used) h (inr k) = elim (Bool-cases (ltb x pos)) [
  | inl y ↦ lower_used-none pos low len u used (rw y at h) k
  | inr n ↦ let bad = rw n at h in cc
]

first_used-HasSector :
    (d u : ℕ) (used : List (ℕ × ℕ)) → HasSector u used → HasSector (first_used d used) used
first_used-HasSector d u [] h = absurd h
first_used-HasSector d u ((v, n) ∷ used) h = inl refl

get_trim_pos-none :
    (j : Journal)
    → lower_used j.used_start j.used_sectors ≡ none
    → get_trim_pos j ≡ first_used j.next_free j.used_sectors
unfolding get_trim_pos
get_trim_pos-none j e = rw (e, get_trim_pos) refl

get_trim_pos-some :
    (j : Journal) (w : ℕ)
    → lower_used j.used_start j.used_sectors ≡ some w
    → j.used_start ≤ w
    → get_trim_pos j ≡ w
unfolding get_trim_pos
get_trim_pos-some j w e p = rw (e, get_trim_pos) (ground (arith, p))

-- The journal can be trimmed up to a used sector, and none is nearer to `used_start` in the ring, if
-- the used sectors are in order and in the ring and there is one.
pub get_trim_pos-ahead :
    (j : Journal) (low u : ℕ)
    → AreSectors low j.len j.used_sectors
    → j.used_start < j.len
    → HasSector u j.used_sectors
    → HasSector (get_trim_pos j) j.used_sectors × (ahead j (get_trim_pos j) ≤ ahead j u)
get_trim_pos-ahead j low u v h s = cases (lower_used j.used_start j.used_sectors) refl
  where
    cases :
        (o : Option ℕ)
        → lower_used j.used_start j.used_sectors ≡ o
        → HasSector (get_trim_pos j) j.used_sectors × (ahead j (get_trim_pos j) ≤ ahead j u)
    cases none e =
        let behind = lower_used-none j.used_start low j.len u j.used_sectors e s in
        let least = first_used-le low j.len j.next_free u j.used_sectors v s in
        rw (get_trim_pos-none j e)
          (first_used-HasSector j.next_free u j.used_sectors s, ground (arith, behind, least))
    cases (some w) e =
        let (p, q, t) = lower_used-some j.used_start low j.len w j.used_sectors v e in
        let nearest = lower_used-first j.used_start low j.len u w j.used_sectors v e s in
        let bounds = AreSectors-bounds low j.len u j.used_sectors v s in
        rw (get_trim_pos-some j w e p) (t, ground (arith, p, q, nearest, bounds, h))
