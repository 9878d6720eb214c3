-- ===== src/Journal/SmallWrite/Prepared.antt =====
-- src/blockstore/blockstore_journal.cpp: what `prepare_journal_sector_write` of the current sector
-- leaves of the journal.
use vitastor.Base.{
  ℕ, ◌+◌, ◌%◌, ◌^◌, ◌<◌, ◌≤◌, ◌≡◌, refl, ◌⊎◌, inl, inr, Bool, true, false, not, ◌||◌, List, [], ◌∷◌,
  ◌++◌, Option, none, some, leb, ◌==◌, if◌then◌else◌, arith, Bool-cases,
}
use vitastor.Base.Words.{add64}
use vitastor.Journal.{Journal, SectorInfo, Pending}
use vitastor.Journal.Writes.{
  Store, Priv, BlockWrite, set_op, add_pending, submit_sector, wait_for_sector,
  prepare_journal_sector_write,
}
use vitastor.Journal.Entries.{sector_address}
use vitastor.Journal.Writes.Waiting.{waits, waits-add_pending}
use vitastor.Journal.SmallWrite.{prepare_if}

-- A journal whose writes in flight are these.
abbrev pub in_flight : Journal → (ℕ → SectorInfo) → ℕ → List Pending → List ℕ → Journal
in_flight j info id flushing submitting = record j {
  sector_info = info;
  submit_id = id;
  flushing_ops = flushing;
  submitting_sectors = submitting;
}

-- An operation that waits for one more write.
abbrev waiting : ℕ → ℕ → Priv → Priv
waiting first last p = record p {
  pending_ops = p.pending_ops + 1;
  min_flushed_journal_sector = first;
  max_flushed_journal_sector = last;
}

abbrev first_sector : ℕ → Priv → ℕ
first_sector i p = if p.min_flushed_journal_sector == 0 then 1 + i else p.min_flushed_journal_sector

abbrev cleaned : Journal → ℕ → ℕ → Journal
cleaned j i op =
    in_flight j
      (λ k. if k == i then record (j.sector_info i) { dirty = false } else j.sector_info k)
      j.submit_id
      (add_pending
        (record {
          flush_id = (j.sector_info i).submit_id;
          pending = true;
          sector = some i;
          op = op;
        })
        j.flushing_ops)
      j.submitting_sectors

abbrev waited : Store → ℕ → ℕ → Store
waited st i op =
    set_op op (waiting (first_sector i (st.ops op)) (1 + i) (st.ops op))
      (record st { journal = cleaned st.journal i op })

waited-counted :
    (st : Store) (i op o : ℕ)
    → ((waited st i op).ops o).pending_ops + waits o st.journal.flushing_ops
      ≡ (st.ops o).pending_ops + waits o (waited st i op).journal.flushing_ops
waited-counted st i op o =
    let p : Pending = record {
      flush_id = (st.journal.sector_info i).submit_id;
      pending = true;
      sector = some i;
      op = op;
    } in
    ground (arith, waits-add_pending o p st.journal.flushing_ops)

wait_for_sector_run :
    (st : Store) (i op : ℕ)
    → leb (first_sector i (st.ops op)) st.journal.sector_count ≡ true
    → wait_for_sector st i op ≡ some (waited st i op)
unfolding wait_for_sector
wait_for_sector_run st i op h = rw h refl

-- The journal with the write of a sector in flight.
abbrev submitted : Journal → ℕ → Journal
submitted j i =
    let s = j.sector_info i in
    let id = add64 j.submit_id 1 in
    in_flight j
      (λ k.
        if k == i
        then record s { written = true; submit_id = id; flush_count = s.flush_count + 1 }
        else j.sector_info k)
      id j.flushing_ops (j.submitting_sectors ++ i ∷ [])

submit_sector_run :
    (j : Journal) (i : ℕ)
    → j.submit_id + 1 < 2 ^ 64
    → (b : Option BlockWrite) × ((submit_sector j i ≡ some (submitted j i, b))
        ⊎ (submit_sector j i ≡ some (j, b)))
unfolding submit_sector
submit_sector_run j i h =
    let s = j.sector_info i in
    let some_id : (((j.submit_id + 1) % 2 ^ 64) == 0) ≡ false = grind (arith, h) in
    elim (Bool-cases (s.submit_id == 0)) [
      | inl y ↦ (
        some (record {
          address = sector_address (record j { cur_sector = i });
          position = j.offset + s.offset;
          id = (j.submit_id + 1) % 2 ^ 64;
        }),
        inl (rw (y, some_id) refl),
      )
      | inr n ↦ (none, inr (rw n refl))
    ]

-- What `prepare_if` leaves of the sectors, where `i` is the current one.
pub record IsPrepared (test : Bool) (i : ℕ) (before after : ℕ → SectorInfo) : Type 0 where
  pub clean : (not test || not (after i).dirty) ≡ true
  pub less_dirty : (not (after i).dirty || (before i).dirty) ≡ true
  pub others : (k : ℕ) → (k == i) ≡ false → after k ≡ before k
  pub place : (after i).offset ≡ (before i).offset
  pub written : (not (before i).written || (after i).written) ≡ true
  pub unwritten : (test || not (after i).written || (before i).written) ≡ true

submitted-IsPrepared :
    (j : Journal) (i op : ℕ)
    → IsPrepared true i j.sector_info (cleaned (submitted j i) i op).sector_info
submitted-IsPrepared j i op = record {
  clean = ground arith;
  less_dirty = ground arith;
  others = λ k n. ground (arith, n);
  place = ground arith;
  written = ground arith;
  unwritten = ground arith;
}

cleaned-IsPrepared :
    (j : Journal) (i op : ℕ) → IsPrepared true i j.sector_info (cleaned j i op).sector_info
cleaned-IsPrepared j i op = record {
  clean = ground arith;
  less_dirty = ground arith;
  others = λ k n. ground (arith, n);
  place = ground arith;
  written = ground arith;
  unwritten = ground arith;
}

same-IsPrepared : (i : ℕ) (info : ℕ → SectorInfo) → IsPrepared false i info info
same-IsPrepared i info = record {
  clean = refl;
  less_dirty = ground arith;
  others = λ k n. refl;
  place = refl;
  written = ground arith;
  unwritten = ground arith;
}

-- The outcome of `prepare_if`
pub record Prepared (test : Bool) (st : Store) (op : ℕ) : Type 0 where
  pub info : ℕ → SectorInfo
  pub id : ℕ
  pub flushing : List Pending
  pub submitting : List ℕ
  pub ops : ℕ → Priv
  pub run :
      prepare_if test st op
      ≡ some (record { journal = in_flight st.journal info id flushing submitting; ops = ops })
  pub sectors : IsPrepared test st.journal.cur_sector st.journal.sector_info info
  pub ids : id ≤ st.journal.submit_id + 1
  pub counted :
      (o : ℕ)
      → (ops o).pending_ops + waits o st.journal.flushing_ops
        ≡ (st.ops o).pending_ops + waits o flushing
  pub first : (ops op).min_flushed_journal_sector ≤ st.journal.sector_count

prepare_true_run :
    (st : Store) (op : ℕ) (j : Journal) (b : Option BlockWrite)
    → submit_sector st.journal st.journal.cur_sector ≡ some (j, b)
    → leb (first_sector st.journal.cur_sector (st.ops op)) j.sector_count ≡ true
    → prepare_if true st op ≡ some (waited (record st { journal = j }) st.journal.cur_sector op)
unfolding prepare_if prepare_journal_sector_write
prepare_true_run st op j b h fits =
    rw (h, wait_for_sector_run (record st { journal = j }) st.journal.cur_sector op fits) refl

pub prepare :
    (test : Bool) (st : Store) (op : ℕ)
    → st.journal.submit_id + 1 < 2 ^ 64
    → st.journal.cur_sector < st.journal.sector_count
    → (st.ops op).min_flushed_journal_sector ≤ st.journal.sector_count
    → Prepared test st op
unfolding prepare_if
prepare false st op h cur first = record {
  info = st.journal.sector_info;
  id = st.journal.submit_id;
  flushing = st.journal.flushing_ops;
  submitting = st.journal.submitting_sectors;
  ops = st.ops;
  run = refl;
  sectors = same-IsPrepared st.journal.cur_sector st.journal.sector_info;
  ids = omega arith;
  counted = λ o. refl;
  first = first;
}
prepare true st op h cur first =
    let j = st.journal in
    let i = j.cur_sector in
    let fits : leb (first_sector i (st.ops op)) j.sector_count ≡ true =
      ground (arith, cur, first) in
    let (b, submit) = submit_sector_run j i h in
    elim submit [
      | inl y ↦
          let next = cleaned (submitted j i) i op in
          record {
            info = next.sector_info;
            id = next.submit_id;
            flushing = next.flushing_ops;
            submitting = next.submitting_sectors;
            ops = (waited (record st { journal = submitted j i }) i op).ops;
            run = prepare_true_run st op (submitted j i) b y fits;
            sectors = submitted-IsPrepared j i op;
            ids = grind (arith, h);
            counted = waited-counted (record st { journal = submitted j i }) i op;
            first = ground (arith, cur, first);
          }
      | inr y ↦
          let next = cleaned j i op in
          record {
            info = next.sector_info;
            id = next.submit_id;
            flushing = next.flushing_ops;
            submitting = next.submitting_sectors;
            ops = (waited st i op).ops;
            run = prepare_true_run st op j b y fits;
            sectors = cleaned-IsPrepared j i op;
            ids = omega arith;
            counted = waited-counted st i op;
            first = ground (arith, cur, first);
          }
    ]
