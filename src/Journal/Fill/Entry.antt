-- ===== src/Journal/Fill/Entry.antt =====
-- src/blockstore/blockstore_journal.cpp: `prefill_single_journal_entry` in a journal with space for the
-- entry and the data.
use vitastor.Base.{
  ℕ, ◌+◌, ◌%◌, ◌≤◌, ◌≡◌, refl, sym, ◌∙◌, ◌⊎◌, inl, inr, true, false, ◌&&◌, some, ltb, leb, ◌==◌,
  arith, Bool-cases,
}
use vitastor.Memory.{Memory, fill}
use vitastor.Journal.{Journal, current, entry_fits, set_sector, block_after}
use vitastor.Journal.Space.{is_busy}
use vitastor.Journal.Entries.{
  sector_address, may_go_to, choose_sector, start_sector, next_journal_sector, put_entry,
  prefill_single_journal_entry, is_used_pos,
}
use vitastor.Journal.Ring.{IsRing, AreUsed, HasSpace, has_room}
use vitastor.Journal.Fill.{IsReady, AreUsed-same}

-- The journal once the current sector of `k`, which has the positions of `j`, is at `next_free`.
abbrev moved : Journal → Journal
moved k =
    record (set_sector k k.cur_sector
      (record (current k) { written = false; offset = k.next_free })) {
        in_sector_pos = 0;
        next_free = block_after k k.next_free;
      }

module _ (j : Journal) (data_after : ℕ) (r : IsRing j)
    (room : has_room j
        (block_after j j.next_free)
        (leb j.used_start j.next_free && ltb (j.next_free + j.block_size) j.len)
        data_after
      ≡ true) where
  moved_gap :
      (j.used_start ≤ block_after j j.next_free)
      ⊎ (block_after j j.next_free + j.block_size ≤ j.used_start)
  moved_gap = ground (arith, r.block, r.size, r.start, r.start_in, r.free, r.free_in, r.gap, room)

  moved_room :
      has_room j
        (block_after j j.next_free)
        (leb j.used_start (block_after j j.next_free))
        data_after
      ≡ true
  moved_room = ground (arith, r.block, r.size, r.start, r.start_in, r.free, r.free_in, r.gap, room)

  moved_sector : is_used_pos (record j { next_free = block_after j j.next_free }) j.next_free ≡ true
  moved_sector =
      ground (arith, r.block, r.size, r.start, r.start_in, r.free, r.free_in, r.gap, room)

  moved_used :
      (u : ℕ)
      → is_used_pos j u ≡ true
      → is_used_pos (record j { next_free = block_after j j.next_free }) u ≡ true
  moved_used u y =
      ground (arith, r.block, r.size, r.start, r.start_in, r.free, r.free_in, r.gap, room, y)

  moved-IsReady : AreUsed j j.used_sectors → IsReady (moved j) data_after
  moved-IsReady a = record {
    ring = record {
      block = r.block;
      size = r.size;
      start = r.start;
      start_in = r.start_in;
      free = ground (arith, r.size, r.free);
      free_in = ground (arith, r.block, r.size, r.free_in);
      gap = moved_gap;
    };
    sector = ground (arith, moved_sector);
    used = AreUsed-same j (moved j) j.used_sectors moved_used a;
    room = moved_room;
  }

-- The entry is put in the current sector.
put_entry-IsReady :
    (j : Journal) (data_after type size : ℕ) (m : Memory)
    → IsReady j data_after
    → IsReady (put_entry j type size m).0 data_after
unfolding put_entry
put_entry-IsReady j data_after type size m v = record {
  ring = record {
    block = v.ring.block;
    size = v.ring.size;
    start = v.ring.start;
    start_in = v.ring.start_in;
    free = v.ring.free;
    free_in = v.ring.free_in;
    gap = v.ring.gap;
  };
  sector = ground (arith, v.sector);
  used = AreUsed-same j (put_entry j type size m).0 j.used_sectors (λ u h. h) v.used;
  room = v.room;
}

abbrev in_sector : Journal → ℕ → Journal
in_sector j i = record j { cur_sector = i }

in_sector-IsRing : (j : Journal) (i : ℕ) → IsRing j → IsRing (in_sector j i)
in_sector-IsRing j i r = record {
  block = r.block;
  size = r.size;
  start = r.start;
  start_in = r.start_in;
  free = r.free;
  free_in = r.free_in;
  gap = r.gap;
}

abbrev with_dirty_start : Journal → Journal
with_dirty_start j = record j { dirty_start = j.next_free }

with_dirty_start-IsRing : (j : Journal) → IsRing j → IsRing (with_dirty_start j)
with_dirty_start-IsRing j r = record {
  block = r.block;
  size = r.size;
  start = r.start;
  start_in = r.start_in;
  free = r.free;
  free_in = r.free_in;
  gap = r.gap;
}

choose_busy :
    (j : Journal)
    → ltb 0 (current j).flush_count ≡ true
    → ((j.sector_info ((j.cur_sector + 1) % j.sector_count)).flush_count == 0) ≡ true
    → choose_sector j ≡ some (in_sector j ((j.cur_sector + 1) % j.sector_count))
unfolding choose_sector
choose_busy j y quiet = rw (y, quiet) refl

choose_idle :
    (j : Journal)
    → ltb 0 (current j).flush_count ≡ false
    → choose_sector j ≡ some (with_dirty_start j)
unfolding choose_sector
choose_idle j n = rw n refl

start_sector_run :
    (k : Journal) → may_go_to k (block_after k k.next_free) ≡ true → start_sector k ≡ some (moved k)
unfolding start_sector
start_sector_run k may = rw may refl

next_journal_sector_run :
    (j k : Journal)
    → (current j).dirty ≡ false
    → choose_sector j ≡ some k
    → start_sector k ≡ some (moved k)
    → next_journal_sector j ≡ some (moved k)
unfolding next_journal_sector
next_journal_sector_run j k clean chosen started = rw (clean, chosen) started

-- The entry moves the current sector to the next block.
next_journal_sector-IsReady :
    (j : Journal) (data_after : ℕ)
    → IsRing j
    → AreUsed j j.used_sectors
    → (current j).dirty ≡ false
    → is_busy (j.sector_info ((j.cur_sector + 1) % j.sector_count)) ≡ false
    → has_room j
        (block_after j j.next_free)
        (leb j.used_start j.next_free && ltb (j.next_free + j.block_size) j.len)
        data_after
      ≡ true
    → (k : Journal) × (next_journal_sector j ≡ some k) × IsReady k data_after
next_journal_sector-IsReady j data_after r a clean idle room =
    let may : may_go_to j (block_after j j.next_free) ≡ true =
      ground (arith, r.block, r.size, r.start, r.start_in, r.free, r.free_in, r.gap, room) in
    elim (Bool-cases (ltb 0 (current j).flush_count)) [
      | inl y ↦
          let next = (j.cur_sector + 1) % j.sector_count in
          let quiet : ((j.sector_info next).flush_count == 0) ≡ true = ground (arith, idle) in
          (
            _,
            next_journal_sector_run j (in_sector j next) clean (choose_busy j y quiet)
                (start_sector_run (in_sector j next) may),
            moved-IsReady (in_sector j next) data_after (in_sector-IsRing j next r) room
                (AreUsed-same j (in_sector j next) j.used_sectors (λ u h. h) a),
          )
      | inr n ↦ (
        _,
        next_journal_sector_run j (with_dirty_start j) clean (choose_idle j n)
            (start_sector_run (with_dirty_start j) may),
        moved-IsReady (with_dirty_start j) data_after (with_dirty_start-IsRing j r) room
            (AreUsed-same j (with_dirty_start j) j.used_sectors (λ u h. h) a),
      )
    ]

prefill_here :
    (j : Journal) (type size : ℕ) (m : Memory)
    → entry_fits j size ≡ true
    → prefill_single_journal_entry j type size m ≡ some (put_entry j type size m)
unfolding prefill_single_journal_entry
prefill_here j type size m y = rw y refl

prefill_next :
    (j k : Journal) (type size : ℕ) (m : Memory)
    → entry_fits j size ≡ false
    → next_journal_sector j ≡ some k
    → prefill_single_journal_entry j type size m
      ≡ some (put_entry k type size (fill k.block_size (sector_address k) 0 m))
unfolding prefill_single_journal_entry
prefill_next j k type size m n h = rw (n, h) refl

pub prefill-IsReady :
    (j : Journal) (type size data_after : ℕ) (m : Memory)
    → IsRing j
    → AreUsed j j.used_sectors
    → ((entry_fits j size ≡ true) × (is_used_pos j (current j).offset ≡ true))
      ⊎ ((entry_fits j size ≡ false) × ((current j).dirty ≡ false))
    → HasSpace j size data_after
    → (e : Journal × ℕ × Memory) × (prefill_single_journal_entry j type size m ≡ some e)
      × IsReady (e.0) data_after
prefill-IsReady j type size data_after m r a (inl (y, s)) (inl (z, room)) = (
  put_entry j type size m,
  prefill_here j type size m y,
  put_entry-IsReady j data_after type size m
      (record { ring = r; sector = s; used = a; room = room }),
)
prefill-IsReady j type size data_after m r a (inr (n, clean)) (inr (o, idle, room)) =
    let (k, run, ready) = next_journal_sector-IsReady j data_after r a clean idle room in
    let m' = fill k.block_size (sector_address k) 0 m in
    (
      put_entry k type size m',
      prefill_next j k type size m n run,
      put_entry-IsReady k data_after type size m' ready,
    )
prefill-IsReady j type size data_after m r a (inl (y, s)) (inr (o, idle, room)) =
    let bad = sym y ∙ o in cc
prefill-IsReady j type size data_after m r a (inr (n, clean)) (inl (z, room)) =
    let bad = sym n ∙ z in cc
