-- ===== src/Journal/SmallWrite/Placed.antt =====
-- src/blockstore/blockstore_write.cpp: a small write for which `check_available` found space.
use vitastor.Base.{
  ℕ, suc, ◌+◌, ◌%◌, ◌^◌, ◌<◌, ◌≤◌, ◌≡◌, refl, ◌∙◌, ap, ◌⊎◌, inl, inr, Bool, true, false, not, ◌&&◌,
  ◌||◌, List, some, none, ◌==◌, arith, Bool-cases,
}
use vitastor.Base.Words.{add64}
use vitastor.Memory.{Memory}
use vitastor.Journal.{Journal, SectorInfo, Pending, current, entry_fits}
use vitastor.Journal.Space.{JournalCheck, available, new_check, is_busy, check_available}
use vitastor.Journal.Entries.{is_used_pos, use_sector, pass_data}
use vitastor.Journal.Ring.{IsRing, AreUsed, HasSpace, check_available-HasSpace}
use vitastor.Journal.Fill.{
  IsReady, data_end, reserved, placed, end-IsRing, AreUsed-placed, use_sector-AreUsed,
  reserve_data_run, may_go_to_end, AreUsed-same, used_still,
}
use vitastor.Journal.Fill.Entry.{prefill-IsReady}
use vitastor.Journal.Writes.{Store, Priv, set_op, add_pending}
use vitastor.Journal.Writes.Waiting.{waits, waits-add_pending}
use vitastor.Journal.SmallWrite.{prepare_if, submit_data, put_small_write}
use vitastor.Journal.SmallWrite.Prepared.{in_flight, Prepared, prepare}
use vitastor.Journal.SmallWrite.Sectors.{next_index, prefill-keeps}

-- The places of the data once the writes in flight are others.
abbrev finished : Journal → ℕ → (ℕ → SectorInfo) → ℕ → List Pending → List ℕ → ℕ → Journal
finished e len info id flushing submitting crc32 =
    record (in_flight (reserved e len) info id flushing submitting) {
      crc32_last = crc32;
      next_free = data_end e len;
    }

-- The journal takes small writes. Two sectors are the least that its configuration allows.
pub record IsOpen (immediate_none : Bool) (j : Journal) : Type 0 where
  pub ring : IsRing j
  pub used : AreUsed j j.used_sectors
  pub clean : (immediate_none || not (current j).dirty) ≡ true
  pub sectors : 1 < j.sector_count
  pub sector : j.cur_sector < j.sector_count

module _ (immediate_none : Bool) (st : Store) (op size data_after : ℕ)
    (v : IsOpen immediate_none st.journal)
    (p : Prepared (immediate_none && not (entry_fits st.journal size)) st op) where
  -- The journal when the entry is filled.
  abbrev started : Journal
  started = in_flight st.journal p.info p.id p.flushing p.submitting

  started-fits : entry_fits started size ≡ entry_fits st.journal size
  unfolding entry_fits
  started-fits = ground (arith, p.sectors.written, p.sectors.unwritten)

  started-clean : entry_fits st.journal size ≡ false → (current started).dirty ≡ false
  started-clean h = ground (arith, h, v.clean, p.sectors.clean, p.sectors.less_dirty)

  started-IsRing : IsRing started
  started-IsRing = record {
    block = v.ring.block;
    size = v.ring.size;
    start = v.ring.start;
    start_in = v.ring.start_in;
    free = v.ring.free;
    free_in = v.ring.free_in;
    gap = v.ring.gap;
  }

  started-HasSpace : HasSpace st.journal size data_after → HasSpace started size data_after
  started-HasSpace (inl (y, room)) = inl (started-fits ∙ y, room)
  started-HasSpace (inr (n, idle, room)) =
      let (other, _) =
        next_index st.journal.cur_sector st.journal.sector_count v.sector v.sectors in
      inr (started-fits ∙ n, ap is_busy (p.sectors.others _ other) ∙ idle, room)

  started-sector :
      (not (entry_fits st.journal size) || is_used_pos st.journal (current st.journal).offset)
        ≡ true
      → ((entry_fits started size ≡ true) × (is_used_pos started (current started).offset ≡ true))
        ⊎ ((entry_fits started size ≡ false) × ((current started).dirty ≡ false))
  started-sector h = elim (Bool-cases (entry_fits st.journal size)) [
    | inl y ↦
        let used : is_used_pos st.journal (current st.journal).offset ≡ true =
          ground (arith, h, y) in
        inl (started-fits ∙ y, ap (is_used_pos st.journal) p.sectors.place ∙ used)
    | inr n ↦ inr (started-fits ∙ n, started-clean n)
  ]

-- The write of the data, if there is any.
record Submitted (st : Store) (op len : ℕ) : Type 0 where
  id : ℕ
  flushing : List Pending
  ops : ℕ → Priv
  run :
      submit_data st op len
      ≡ some (record {
        journal = record st.journal { submit_id = id; flushing_ops = flushing };
        ops = ops;
      })
  counted :
      (o : ℕ)
      → (ops o).pending_ops + waits o st.journal.flushing_ops
        ≡ (st.ops o).pending_ops + waits o flushing

submit : (st : Store) (op len : ℕ) → st.journal.submit_id + 1 < 2 ^ 64 → Submitted st op len
unfolding submit_data
submit st op len h =
    let j = st.journal in
    let p = st.ops op in
    let some_id : (((j.submit_id + 1) % 2 ^ 64) == 0) ≡ false = grind (arith, h) in
    elim (Bool-cases (len == 0)) [
      | inl y ↦ record {
        id = j.submit_id;
        flushing = j.flushing_ops;
        ops = st.ops;
        run = rw y refl;
        counted = λ o. refl;
      }
      | inr n ↦
          let q : Pending = record {
            flush_id = add64 j.submit_id 1;
            pending = true;
            sector = none;
            op = op;
          } in
          record {
            id = add64 j.submit_id 1;
            flushing = add_pending q j.flushing_ops;
            ops = (set_op op (record p { pending_ops = p.pending_ops + 1 }) st).ops;
            run = rw (n, some_id) refl;
            counted = λ o. ground (arith, waits-add_pending o q j.flushing_ops);
          }
    ]

module _ (immediate_none : Bool) (e : Journal) (ops : ℕ → Priv) (op data_after len crc32 : ℕ)
    (ready : IsReady e data_after) (h : len ≤ data_after)
    (p : Prepared
      (not immediate_none)
      (record { journal = record (reserved e len) { crc32_last = crc32 }; ops = ops })
      op)
    (id : ℕ) (flushing : List Pending) where
  -- The journal at the end.
  abbrev ended : Journal
  ended = finished e len p.info id flushing p.submitting crc32

  ended-IsOpen : 1 < e.sector_count → e.cur_sector < e.sector_count → IsOpen immediate_none ended
  ended-IsOpen n c =
      let r = end-IsRing e data_after len ready h in
      let used =
        AreUsed-placed e data_after len ready h (use_sector (current e).offset e.used_sectors)
          (use_sector-AreUsed e (current e).offset e.used_sectors ready.sector ready.used) in
      record {
        ring = record {
          block = r.block;
          size = r.size;
          start = r.start;
          start_in = r.start_in;
          free = r.free;
          free_in = r.free_in;
          gap = r.gap;
        };
        used =
            AreUsed-same (placed e len) ended (use_sector (current e).offset e.used_sectors)
              (λ u y. y) used;
        clean = ground (arith, p.sectors.clean);
        sectors = n;
        sector = c;
      }

  ended-sector : is_used_pos ended (current ended).offset ≡ true
  ended-sector =
      ap (is_used_pos ended) p.sectors.place
      ∙ used_still e data_after len ready h (current e).offset ready.sector

-- The last part of a small write, from the filled entry on.
end_small_write :
    (immediate_none : Bool) (e : Journal) (ops : ℕ → Priv) (op data_after len crc32 : ℕ)
    → IsReady e data_after
    → len ≤ data_after
    → 1 < e.sector_count
    → e.cur_sector < e.sector_count
    → (ops op).min_flushed_journal_sector ≤ e.sector_count
    → e.submit_id + 2 < 2 ^ 64
    → (st2 : Store) × (st3 : Store) × (l : Journal) × (prepare_if
          (not immediate_none)
          (record { journal = record (reserved e len) { crc32_last = crc32 }; ops = ops })
          op
        ≡ some st2)
      × (submit_data st2 op len ≡ some st3)
      × (pass_data st3.journal len ≡ some l)
      × IsOpen immediate_none l
      × (is_used_pos l (current l).offset ≡ true)
      × ((o : ℕ)
          → (st3.ops o).pending_ops + waits o e.flushing_ops
            ≡ (ops o).pending_ops + waits o l.flushing_ops)
unfolding pass_data
end_small_write immediate_none e ops op data_after len crc32 ready h n c first ids =
    let p =
      prepare (not immediate_none)
        (record { journal = record (reserved e len) { crc32_last = crc32 }; ops = ops }) op
        (omega (arith, ids)) c first in
    let j =
      in_flight (record (reserved e len) { crc32_last = crc32 }) p.info p.id p.flushing
        p.submitting in
    let q = submit (record { journal = j; ops = p.ops }) op len (omega (arith, ids, p.ids)) in
    (
      record { journal = j; ops = p.ops },
      record { journal = record j { submit_id = q.id; flushing_ops = q.flushing }; ops = q.ops },
      ended immediate_none e ops op data_after len crc32 ready h p q.id q.flushing,
      p.run,
      q.run,
      rw (may_go_to_end e data_after len ready h) refl,
      ended-IsOpen immediate_none e ops op data_after len crc32 ready h p q.id q.flushing n c,
      ended-sector immediate_none e ops op data_after len crc32 ready h p q.id q.flushing,
      λ o. omega (arith, p.counted o, q.counted o),
    )

-- A small write for which `check_available` found space: the write of the full sector before it (if
-- `immediate_commit` is none), the entry, the data and (if it is not) the write of the entry's sector
-- pass all assertions, without an overwrite of a used sector. The `pending_ops` of each operation rises
-- by exactly the number of its entries that are added to `flushing_ops`. The journal is open again, with
-- the entry's sector in the used part: it is a ring with its used sectors in the used part and two
-- sectors or more, and the current one, which is among them, is not dirty if `immediate_commit` is not
-- none. The journal is open at the start, and its current sector is in the used part if the entry fits
-- it; the first sector that the operation waits for, if any, is one of the journal; the entry is not
-- empty and fits a block, the data is no longer than was checked, and three more ids of writes do not
-- overflow.
pub put_small_write-check_available :
    (fuel : ℕ) (immediate_none : Bool) (st : Store) (op type size data_after len crc32 : ℕ)
    → (c : JournalCheck) (m : Memory) → IsOpen immediate_none st.journal
    → (not (entry_fits st.journal size) || is_used_pos st.journal (current st.journal).offset)
      ≡ true
    → (st.ops op).min_flushed_journal_sector ≤ st.journal.sector_count
    → st.journal.submit_id + 3 < 2 ^ 64
    → 0 < size
    → size ≤ st.journal.block_size
    → len ≤ data_after
    → check_available (suc (suc fuel)) st.journal 1 size data_after (new_check st.journal)
      ≡ some (c, available)
    → (r : Store × ℕ × Memory) × (put_small_write immediate_none st op type size len crc32 m
        ≡ some r)
      × IsOpen immediate_none r.0.journal
      × (is_used_pos r.0.journal (current r.0.journal).offset ≡ true)
      × ((o : ℕ)
          → (r.0.ops o).pending_ops + waits o st.journal.flushing_ops
            ≡ (st.ops o).pending_ops + waits o r.0.journal.flushing_ops)
unfolding put_small_write
put_small_write-check_available fuel immediate_none st op type size data_after len crc32 c m v
      sector first ids pos fits h run =
    let p =
      prepare (immediate_none && not (entry_fits st.journal size)) st op (omega (arith, ids))
        v.sector first in
    let j = started immediate_none st op size data_after v p in
    let space = check_available-HasSpace fuel st.journal size data_after c v.ring pos fits run in
    let (e, filled, ready) =
      prefill-IsReady j type size data_after m
        (started-IsRing immediate_none st op size data_after v p) v.used
        (started-sector immediate_none st op size data_after v p sector)
        (started-HasSpace immediate_none st op size data_after v p space) in
    let (id, count, flushing, cur) = prefill-keeps j type size m e filled v.sector v.sectors in
    let (st2, st3, l, written, submitted, passed, is_open, used, counted) =
      end_small_write immediate_none (e.0) p.ops op data_after len crc32 ready h
        (omega (arith, count, v.sectors)) cur (omega (arith, count, p.first))
        (omega (arith, id, p.ids, ids)) in
    (
      (record st3 { journal = l }, e.1, e.2),
      rw (p.run, filled, reserve_data_run (e.0) data_after len ready h, written, submitted, passed)
          refl,
      is_open,
      used,
      λ o. omega (arith, p.counted o, counted o, ap (waits o) flushing),
    )
