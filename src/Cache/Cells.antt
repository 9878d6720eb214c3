-- ===== src/Cache/Cells.antt =====
-- src/client/cluster_client_wb.cpp: what the cache holds at a position of an image.
use vitastor.Base.{
  ℕ, ◌+◌, ◌-◌, ◌<◌, ◌≤◌, ◌≡◌, refl, ◌∙◌, subst, inl, inr, Bool, ◌&&◌, List, [], ◌∷◌, Option, none,
  some, ltb, leb, ◌==◌, if◌then◌else◌, arith, Bool-cases,
}
use mathlib.Core.Option
use vitastor.Cache.{CacheState, Buffer, end_of, rewind}
use vitastor.Cache.Order.{
  head, Before, Behind, Before-back, Behind-front, IsSorted, IsBackSorted, IsPlace,
}

-- The cached byte of a position: its address, or none for a deleted one, and the buffer's state.
pub record Cell : Type 0 where
  pub address : Option ℕ
  pub state : CacheState
  pub flush_id : ℕ
  pub refcnt : ℕ

abbrev pub covers : ℕ → ℕ → Buffer → Bool
covers inode pos e = e.inode == inode && leb e.stripe pos && ltb pos (end_of e)

abbrev pub cell_of : ℕ → Buffer → Cell
cell_of pos e = record {
  address = Option.map (λ a. a + (pos - e.stripe)) e.buf;
  state = e.state;
  flush_id = e.flush_id;
  refcnt = e.refcnt;
}

-- What the buffers hold at a position of an image.
unfoldable pub cell_at : ℕ → ℕ → List Buffer → Option Cell
cell_at inode pos [] = none
cell_at inode pos (e ∷ es) =
    if covers inode pos e then some (cell_of pos e) else cell_at inode pos es

abbrev pub or_else : Option Cell → Option Cell → Option Cell
or_else none b = b
or_else (some a) b = some a

-- Buffers that end before a position do not hold it.
pub cell_at-back :
    (inode pos off : ℕ) (ps : List Buffer)
    → IsBackSorted ps
    → Before (head ps) inode off
    → off ≤ pos
    → cell_at inode pos ps ≡ none
unfolding cell_at
cell_at-back inode pos off [] v b h = refl
cell_at-back inode pos off (p ∷ ps) (nonempty, fits, back) b h =
    let rest = cell_at-back inode pos off ps back (Before-back p ps inode off fits b) h in
    ground (arith, rest, b)

-- Buffers that begin behind a position do not hold it.
pub cell_at-front :
    (inode pos off : ℕ) (prev : Option Buffer) (es : List Buffer)
    → IsSorted prev es
    → Behind (head es) inode off
    → pos < off
    → cell_at inode pos es ≡ none
unfolding cell_at
cell_at-front inode pos off prev [] v b h = refl
cell_at-front inode pos off prev (e ∷ es) (nonempty, fits, front) b h =
    let rest =
      cell_at-front inode pos off (some e) es front (Behind-front e es inode off front b) h in
    ground (arith, rest, b)

pub cell_at-rewind :
    (inode pos : ℕ) (ps after : List Buffer)
    → IsPlace ps after
    → cell_at inode pos (rewind ps after) ≡ or_else (cell_at inode pos ps) (cell_at inode pos after)
unfolding cell_at rewind
cell_at-rewind inode pos [] after v = refl
cell_at-rewind inode pos (p ∷ ps) after ((nonempty, fits, back), front) =
    let rest = cell_at-rewind inode pos ps (p ∷ after) (back, (nonempty, fits, front)) in
    elim (Bool-cases (covers inode pos p)) [
      | inr n ↦ rest ∙ rw n refl
      | inl y ↦
          let same : p.inode ≡ inode = ground (arith, y) in
          let inside : p.stripe ≤ pos = ground (arith, y) in
          let empty =
            cell_at-back inode pos p.stripe ps back
              (subst (λ i. Before (head ps) i p.stripe) same fits) inside in
          rest ∙ rw (y, empty) refl
    ]
