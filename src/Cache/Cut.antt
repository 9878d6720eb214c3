-- ===== src/Cache/Cut.antt =====
-- src/client/cluster_client_wb.cpp: the loop of `copy_write` that removes what a write overlaps.
use vitastor.Base.{
  ℕ, ◌+◌, ◌-◌, ◌<◌, ◌≤◌, ◌≡◌, ◌≢◌, refl, sym, ◌∙◌, ap, subst, ◌⊎◌, inl, inr, true, false, ◌&&◌,
  ◌||◌, List, [], ◌∷◌, Option, none, some, ltb, leb, ◌!=◌, arith, Bool-cases,
}
use mathlib.Core.Option
use vitastor.Cache.{is_dirty, Buffer, end_of, Counters, Cursor, is_right_merged}
use vitastor.Cache.Order.{head, Before, Behind, IsSorted, IsBackSorted, IsPlace, Reaches}
use vitastor.Cache.Cells.{Cell, cell_at, cell_at-back, or_else, covers, cell_of}
use vitastor.Cache.Sums.{IsSorted-shorter, IsSorted-late}
use vitastor.Cache.Counts.{
  IsCounted, shorten-IsCounted, split-IsCounted, behead-IsCounted, remove-IsCounted,
}
use vitastor.Cache.Write.{cut, head_part, tail_part, take_bytes, more_queued}

-- A position that the write from `off` to `new_end` does not reach.
abbrev pub Outside : ℕ → ℕ → ℕ → ℕ → ℕ → Type 0
Outside inode off new_end i x = (i ≢ inode) ⊎ ((x < off) ⊎ (new_end ≤ x))

-- What the iterator's two parts hold.
abbrev pub zip_cell : ℕ → ℕ → List Buffer → List Buffer → Option Cell
zip_cell i x before after = or_else (cell_at i x before) (cell_at i x after)

pub record IsCut (spare inode off new_end : ℕ) (before after : List Buffer) (r : Cursor × Counters)
    : Type 0 where
  pub place : IsPlace r.0.before r.0.after
  pub ends : Before (head r.0.before) inode off
  pub begins : Behind (head r.0.after) inode new_end
  pub cells :
      (i x : ℕ)
      → Outside inode off new_end i x
      → zip_cell i x r.0.before r.0.after ≡ zip_cell i x before after
  pub counted : IsCounted spare r.0.before r.0.after r.1

abbrev pub Cuts : ℕ → ℕ → ℕ → ℕ → List Buffer → List Buffer → Counters → Type 0
Cuts spare inode off new_end before after c =
    (r : Cursor × Counters) × (cut inode off new_end before after c ≡ some r)
    × IsCut spare inode off new_end before after r

address_split :
    (b : Option ℕ) (s n x : ℕ)
    → s ≤ n
    → n ≤ x
    → Option.map (λ a. a + (x - n)) (Option.map (λ a. a + (n - s)) b)
      ≡ Option.map (λ a. a + (x - s)) b
address_split none s n x h k = refl
address_split (some a) s n x h k = ap some (omega (arith, h, k))

-- Outside the write a shortened buffer holds what it held.
cell-head_part :
    (inode off new_end i x : ℕ) (before : List Buffer) (e : Buffer) (rest : List Buffer)
    → e.inode ≡ inode
    → e.stripe < off
    → off < end_of e
    → end_of e ≤ new_end
    → IsBackSorted before
    → Before (head before) e.inode e.stripe
    → Outside inode off new_end i x
    → zip_cell i x (head_part off e ∷ before) rest ≡ zip_cell i x before (e ∷ rest)
unfolding cell_at
cell-head_part inode off new_end i x before e rest same lo mid hi back fits out =
    elim (Bool-cases (covers i x e)) [
      | inr n ↦ let m : covers i x (head_part off e) ≡ false = ground (arith, n) in rw (n, m) refl
      | inl y ↦
          let m : covers i x (head_part off e) ≡ true = ground (arith, y, out) in
          let empty =
            cell_at-back i x e.stripe before back
              (subst (λ j. Before (head before) j e.stripe) (ground (arith, y)) fits)
              (ground (arith, y)) in
          rw (y, m, empty) refl
    ]

cell_of-tail_part :
    (new_end x : ℕ) (e : Buffer)
    → e.stripe ≤ new_end
    → new_end ≤ x
    → cell_of x (tail_part new_end e) ≡ cell_of x e
cell_of-tail_part new_end x e lo h =
    ap
      (λ (b : Option ℕ). record {
        address = b;
        state = e.state;
        flush_id = e.flush_id;
        refcnt = e.refcnt;
      })
      (address_split e.buf e.stripe new_end x lo h)

-- Outside the write the rest of a buffer holds what the buffer held.
cell-tail_part :
    (inode off new_end i x : ℕ) (before : List Buffer) (e : Buffer) (rest : List Buffer)
    → e.inode ≡ inode
    → off ≤ e.stripe
    → e.stripe < new_end
    → Outside inode off new_end i x
    → zip_cell i x before (tail_part new_end e ∷ rest) ≡ zip_cell i x before (e ∷ rest)
unfolding cell_at
cell-tail_part inode off new_end i x before e rest same lo mid out =
    elim (Bool-cases (covers i x e)) [
      | inr n ↦
          let m : covers i x (tail_part new_end e) ≡ false = ground (arith, n, out) in
          rw (n, m) refl
      | inl y ↦
          let m : covers i x (tail_part new_end e) ≡ true = ground (arith, y, out) in
          rw (y, m, cell_of-tail_part new_end x e (omega arith) (ground (arith, y, out))) refl
    ]

-- Outside the write a buffer that is cut in two holds what it held.
cell-parts :
    (inode off new_end i x : ℕ) (before : List Buffer) (e : Buffer) (rest : List Buffer)
    → e.inode ≡ inode
    → e.stripe < off
    → off < new_end
    → new_end < end_of e
    → IsBackSorted before
    → Before (head before) e.inode e.stripe
    → Outside inode off new_end i x
    → zip_cell i x (head_part off e ∷ before) (tail_part new_end e ∷ rest)
      ≡ zip_cell i x before (e ∷ rest)
unfolding cell_at
cell-parts inode off new_end i x before e rest same lo mid hi back fits out =
    elim (Bool-cases (covers i x e)) [
      | inr n ↦
          let m : covers i x (head_part off e) ≡ false = ground (arith, n) in
          let t : covers i x (tail_part new_end e) ≡ false = ground (arith, n) in rw (n, m, t) refl
      | inl y ↦
          let empty =
            cell_at-back i x e.stripe before back
              (subst (λ j. Before (head before) j e.stripe) (ground (arith, y)) fits)
              (ground (arith, y)) in
          elim (Bool-cases (ltb x off)) [
            | inl first ↦
                let m : covers i x (head_part off e) ≡ true = ground (arith, y, first) in
                rw (y, m, empty) refl
            | inr last ↦
                let m : covers i x (head_part off e) ≡ false = ground (arith, last) in
                let t : covers i x (tail_part new_end e) ≡ true = ground (arith, y, last, out) in
                rw
                  (
                    y,
                    m,
                    t,
                    empty,
                    cell_of-tail_part new_end x e (omega arith) (ground (arith, y, last, out)),
                  )
                  refl
          ]
    ]

-- Outside the write a buffer that is removed holds nothing.
cell-removed :
    (inode off new_end i x : ℕ) (before : List Buffer) (e : Buffer) (rest : List Buffer)
    → e.inode ≡ inode
    → off ≤ e.stripe
    → end_of e ≤ new_end
    → Outside inode off new_end i x
    → zip_cell i x before rest ≡ zip_cell i x before (e ∷ rest)
unfolding cell_at
cell-removed inode off new_end i x before e rest same lo hi out =
    let n : covers i x e ≡ false = ground (arith, out) in rw n refl

-- The loop goes on from a place with the same content outside the write.
IsCut-from :
    {spare inode off new_end : ℕ} {before after before' after' : List Buffer}
    {r : Cursor × Counters}
    → ((i x : ℕ)
        → Outside inode off new_end i x
        → zip_cell i x before' after' ≡ zip_cell i x before after)
    → IsCut spare inode off new_end before' after' r
    → IsCut spare inode off new_end before after r
IsCut-from same v = record {
  place = v.place;
  ends = v.ends;
  begins = v.begins;
  cells = λ i x o. v.cells i x o ∙ same i x o;
  counted = v.counted;
}

Before-late :
    (p : Option Buffer) (inode off off' : ℕ) → Before p inode off → off ≤ off' → Before p inode off'
Before-late none inode off off' b h = tt
Before-late (some p) inode off off' b h = ground (arith, b)

pub Reaches-next :
    (inode off : ℕ) (e : Buffer) (rest : List Buffer)
    → e.inode ≡ inode
    → off < end_of e
    → IsSorted (some e) rest
    → Reaches rest inode off
Reaches-next inode off e [] same h v = tt
Reaches-next inode off e (n ∷ ns) same h (pos, fits, front) = ground (arith, fits, pos)

pub cut-IsCut :
    (spare inode off new_end : ℕ) (before after : List Buffer) (c : Counters)
    → off < new_end
    → IsPlace before after
    → Before (head before) inode off
    → Reaches after inode off
    → IsCounted spare before after c
    → Cuts spare inode off new_end before after c
unfolding cut
cut-IsCut spare inode off new_end before [] c h v b r k = (
  (record { before = before; after = [] }, c),
  refl,
  record { place = v; ends = b; begins = tt; cells = λ i x o. refl; counted = k },
)
cut-IsCut spare inode off new_end before (e ∷ rest) c h (back, (pos, fits, front)) b r k =
    elim (Bool-cases (e.inode != inode || leb new_end e.stripe)) [
      | inl stop ↦ (
        (record { before = before; after = e ∷ rest }, c),
        rw stop refl,
        record {
          place = (back, (pos, fits, front));
          ends = b;
          begins = ground (arith, stop, r);
          cells = λ i x o. refl;
          counted = k;
        },
      )
      | inr go ↦
          let same : e.inode ≡ inode = ground (arith, go) in
          let lo : e.stripe < new_end = ground (arith, go) in
          let reach : off < end_of e = ground (arith, r, same) in
          let far : leb (end_of e) off ≡ false = ground (arith, reach) in
          elim (Bool-cases (ltb e.stripe off)) [
            | inl left ↦ elim (Bool-cases (ltb new_end (end_of e))) [
              | inl right ↦
                  let taken =
                    split-IsCounted off new_end before e rest c (ground (arith, left)) h
                      (ground (arith, right)) k in
                  (
                    _,
                    rw (go, far, left, right) refl,
                    record {
                      place = (
                        (ground (arith, left), fits, back),
                        (
                          ground (arith, right),
                          inr (refl, ground (arith, left, h)),
                          IsSorted-shorter e (tail_part new_end e) rest refl (ground (arith, right))
                              front,
                        ),
                      );
                      ends = inr (same, ground (arith, left));
                      begins = inr (sym same, omega arith);
                      cells = λ i x o.
                          cell-parts inode off new_end i x before e rest same (ground (arith, left))
                            h (ground (arith, right)) back fits o;
                      counted = taken;
                    },
                  )
              | inr right ↦
                  (let shorter = head_part off e in
                    let counted =
                      shorten-IsCounted off before e rest c (ground (arith, left)) reach front k in
                    let (rest_of, runs_on, cuts) =
                      cut-IsCut spare inode off new_end (shorter ∷ before) rest
                        (more_queued (is_dirty e.state && is_right_merged e rest)
                          (take_bytes (end_of e - off) e c))
                        h
                        (
                          (ground (arith, left), fits, back),
                          IsSorted-shorter e shorter rest refl (ground (arith, left, reach)) front,
                        )
                        (inr (same, ground (arith, left)))
                        (Reaches-next inode off e rest same reach front) counted in
                    (
                      rest_of,
                      rw (go, far, left, right) runs_on,
                      IsCut-from
                          (λ i x o.
                            cell-head_part inode off new_end i x before e rest same
                              (ground (arith, left)) reach (ground (arith, right)) back fits o)
                          cuts,
                    ))
            ]
            | inr left ↦ elim (Bool-cases (ltb new_end (end_of e))) [
              | inl right ↦ (
                _,
                rw (go, far, left, right) refl,
                record {
                  place = (
                    back,
                    (
                      ground (arith, right),
                      Before-late (head before) e.inode e.stripe new_end fits (omega (arith, lo)),
                      IsSorted-shorter e (tail_part new_end e) rest refl (ground (arith, right))
                          front,
                    ),
                  );
                  ends = b;
                  begins = inr (sym same, omega arith);
                  cells = λ i x o.
                      cell-tail_part inode off new_end i x before e rest same (ground (arith, left))
                        lo o;
                  counted =
                      behead-IsCounted off new_end before e rest c (ground (arith, left)) lo
                        (ground (arith, right)) fits k;
                },
              )
              | inr right ↦
                  (let (d, removed, counted) = remove-IsCounted before e rest c pos fits front k in
                    let (rest_of, runs_on, cuts) =
                      cut-IsCut spare inode off new_end before rest d h
                        (back, IsSorted-late (head before) e rest fits front) b
                        (Reaches-next inode off e rest same reach front) counted in
                    (
                      rest_of,
                      rw (go, far, left, right, removed) runs_on,
                      IsCut-from
                          (λ i x o.
                            cell-removed inode off new_end i x before e rest same
                              (ground (arith, left)) (ground (arith, right)) o)
                          cuts,
                    ))
            ]
          ]
    ]
