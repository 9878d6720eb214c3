-- ===== src/Cache/Order.antt =====
-- src/client/cluster_client_wb.cpp: the order of the buffers, and what a position of an image holds.
use vitastor.Base.{
  ℕ, ◌<◌, ◌≤◌, ◌≡◌, refl, ◌⊎◌, inl, inr, true, ◌||◌, List, [], ◌∷◌, Option, none, some, leb, ◌!=◌,
  arith, Bool-cases,
}
use vitastor.Cache.{Buffer, end_of, Cursor, rewind, is_below, lower_bound, walk_back, find_dirty}

abbrev pub head {ℓ} : {A : Type ℓ} → List A → Option A
head [] = none
head (x ∷ xs) = some x

-- All of a buffer, if there is one, is before the offset `off` of an inode.
abbrev pub Before : Option Buffer → ℕ → ℕ → Type 0
Before none inode off = Unit
Before (some p) inode off = (p.inode < inode) ⊎ ((p.inode ≡ inode) × (end_of p ≤ off))

-- A buffer, if there is one, is at or behind the offset `off` of an inode.
abbrev pub Behind : Option Buffer → ℕ → ℕ → Type 0
Behind none inode off = Unit
Behind (some n) inode off = (inode < n.inode) ⊎ ((inode ≡ n.inode) × (off ≤ n.stripe))

pub Before-back :
    (p : Buffer) (ps : List Buffer) (inode off : ℕ)
    → Before (head ps) p.inode p.stripe
    → Before (some p) inode off
    → Before (head ps) inode off
Before-back p [] inode off h b = tt
Before-back p (q ∷ qs) inode off h b = ground (arith, h, b)

-- Buffers behind `prev` that are not empty, in order and do not overlap.
abbrev pub IsSorted : Option Buffer → List Buffer → Type 0
IsSorted prev [] = Unit
IsSorted prev (e ∷ es) = (0 < e.len) × Before prev e.inode e.stripe × IsSorted (some e) es

pub Behind-front :
    (e : Buffer) (es : List Buffer) (inode off : ℕ)
    → IsSorted (some e) es
    → Behind (some e) inode off
    → Behind (head es) inode off
Behind-front e [] inode off h b = tt
Behind-front e (n ∷ ns) inode off (pos, fits, rest) b = ground (arith, fits, b)

-- The same for a list that goes backwards.
abbrev pub IsBackSorted : List Buffer → Type 0
IsBackSorted [] = Unit
IsBackSorted (p ∷ ps) = (0 < p.len) × Before (head ps) p.inode p.stripe × IsBackSorted ps

-- An iterator into a sorted map.
abbrev pub IsPlace : List Buffer → List Buffer → Type 0
IsPlace before after = IsBackSorted before × IsSorted (head before) after

pub rewind-IsSorted :
    (before after : List Buffer) → IsPlace before after → IsSorted none (rewind before after)
unfolding rewind
rewind-IsSorted [] after v = v.1
rewind-IsSorted (p ∷ ps) after ((pos, fits, back), front) =
    rewind-IsSorted ps (p ∷ after) (back, (pos, fits, front))

-- The first buffer from an iterator on, if it is one of the inode, reaches behind the offset, and no
-- buffer of a lower inode comes.
abbrev pub Reaches : List Buffer → ℕ → ℕ → Type 0
Reaches [] inode off = Unit
Reaches (e ∷ es) inode off = (inode < e.inode) ⊎ ((inode ≡ e.inode) × (off < end_of e))

-- The place that `find_dirty` finds.
pub record IsFound (es : List Buffer) (inode off : ℕ) (c : Cursor) : Type 0 where
  pub whole : rewind c.before c.after ≡ es
  pub place : IsPlace c.before c.after
  pub before : Before (head c.before) inode off
  pub after : Reaches c.after inode off

abbrev IsBelow : List Buffer → ℕ → ℕ → Type 0
IsBelow [] inode off = Unit
IsBelow (p ∷ ps) inode off = is_below inode off p ≡ true

IsBelow-back :
    (inode off : ℕ) (p : Buffer) (ps : List Buffer)
    → is_below inode off p ≡ true
    → Before (head ps) p.inode p.stripe
    → IsBelow ps inode off
IsBelow-back inode off p [] b f = tt
IsBelow-back inode off p (q ∷ qs) b f = ground (arith, b, f)

walk_back-IsFound :
    (es : List Buffer) (inode off : ℕ) (before after : List Buffer)
    → rewind before after ≡ es
    → IsPlace before after
    → IsBelow before inode off
    → Reaches after inode off
    → IsFound es inode off (walk_back inode off before after)
unfolding walk_back rewind
walk_back-IsFound es inode off [] after e v b r = record {
  whole = e;
  place = v;
  before = tt;
  after = r;
}
walk_back-IsFound es inode off (p ∷ ps) after e ((pos, fits, back), front) b r =
    elim (Bool-cases (p.inode != inode || leb (end_of p) off)) [
      | inl h ↦ rw h (record {
        whole = e;
        place = ((pos, fits, back), front);
        before = ground (arith, h, b);
        after = r;
      })
      | inr h ↦ rw h (
          walk_back-IsFound es inode off ps (p ∷ after) e (back, (pos, fits, front))
            (IsBelow-back inode off p ps b fits) (ground (arith, h)))
    ]

lower_bound-IsFound :
    (es : List Buffer) (inode off : ℕ) (before after : List Buffer)
    → rewind before after ≡ es
    → IsPlace before after
    → IsBelow before inode off
    → IsFound es inode off (
        walk_back inode off
          (lower_bound inode off before after).before
          (lower_bound inode off before after).after)
unfolding lower_bound rewind
lower_bound-IsFound es inode off before [] e v b = walk_back-IsFound es inode off before [] e v b tt
lower_bound-IsFound es inode off before (a ∷ later) e (back, (pos, fits, front)) b =
    elim (Bool-cases (is_below inode off a)) [
      | inl h ↦
          rw h (lower_bound-IsFound es inode off (a ∷ before) later e ((pos, fits, back), front) h)
      | inr h ↦ rw h (
          walk_back-IsFound es inode off before (a ∷ later) e (back, (pos, fits, front)) b
            (ground (arith, h, pos)))
    ]

pub find_dirty-IsFound :
    (es : List Buffer) (inode off : ℕ)
    → IsSorted none es
    → IsFound es inode off (find_dirty inode off es)
unfolding find_dirty rewind
find_dirty-IsFound es inode off v = lower_bound-IsFound es inode off [] es refl (tt, v) tt
