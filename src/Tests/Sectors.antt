-- ===== src/Tests/Sectors.antt =====
-- src/blockstore/blockstore_journal.cpp: a journal of seven blocks of 512 bytes.
use vitastor.Base.{ℕ, ◌+◌, ◌≤◌, ◌≡◌, refl, true, false, arith, inl, [], ◌∷◌, some, ◌==◌}
use vitastor.Memory.{Memory}
use vitastor.Journal.{Journal, SectorInfo, entry_fits, current}
use vitastor.Journal.Space.{
  JournalCheck, Answer, available, new_check, check_available, check_loop, take_room, room, to_next,
  add_data,
}
use vitastor.Journal.Entries.{is_used_pos}
use vitastor.Journal.SmallWrite.{put_small_write}
use vitastor.Journal.SmallWrite.Placed.{IsOpen, put_small_write-check_available}
use vitastor.Journal.Ring.{IsRing}
use vitastor.Journal.Rounds.{check_available_total}
use vitastor.Journal.Trim.{get_trim_pos, ahead, HasSector, get_trim_pos-ahead}
use vitastor.Journal.Writes.{Store, handle_journal_write}
use vitastor.Journal.Writes.Waiting.{
  waits, resumed, unfinished, without, unfinished-handle_journal_write,
}
use vitastor.Journal.Writes.Sequence.{three_writes, handle_journal_write-out_of_order}

abbrev idle : SectorInfo
idle = record { offset = 1024; flush_count = 0; written = false; dirty = false; submit_id = 0 }

-- The current sector, at 1024, has 12 bytes left.
abbrev ring : Journal
ring = record {
  inmemory = false;
  buffer = 0;
  block_size = 512;
  offset = 0;
  len = 4096;
  next_free = 1536;
  used_start = 512;
  dirty_start = 512;
  crc32_last = 7;
  sector_buf = 65536;
  sector_info = λ i. idle;
  sector_count = 4;
  no_same_sector_overwrites = false;
  cur_sector = 0;
  in_sector_pos = 500;
  submitting_sectors = [];
  flushing_ops = [];
  submit_id = 0;
  used_sectors = (512, 1) ∷ (1024, 3) ∷ [];
}

ring-IsRing : IsRing ring
ring-IsRing = record {
  block = omega arith;
  size = omega arith;
  start = omega arith;
  start_in = omega arith;
  free = omega arith;
  free_in = omega arith;
  gap = inl (omega arith);
}

abbrev empty : Memory
empty a = 0

-- The check goes to the sector 1, with the entry in the block at 1536 and the data behind it.
abbrev found : JournalCheck
found = record {
  next_pos = 3048;
  next_sector = 1;
  next_in_pos = 100;
  sectors_to_write = 1;
  first_sector = some 1;
  right_dir = true;
}

-- The current sector is dirty, and nothing of it is written.
abbrev dirty_ring : Journal
dirty_ring = record ring { sector_info = λ i. record idle { dirty = i == 0 } }

abbrev two_sectors : JournalCheck
two_sectors = record found { sectors_to_write = 2 }

dirty_check :
    check_available 5 dirty_ring 1 100 1000 (new_check dirty_ring) ≡ some (two_sectors, available)
unfolding check_available check_loop take_room room to_next add_data
dirty_check = refl

abbrev dirty_store : Store
dirty_store = record {
  journal = dirty_ring;
  ops = λ o. record {
    pending_ops = 0;
    op_state = 1;
    min_flushed_journal_sector = 0;
    max_flushed_journal_sector = 0;
  };
}

dirty_ring-IsOpen : IsOpen true dirty_ring
dirty_ring-IsOpen = record {
  ring = record {
    block = omega arith;
    size = omega arith;
    start = omega arith;
    start_in = omega arith;
    free = omega arith;
    free_in = omega arith;
    gap = inl (omega arith);
  };
  used = (refl, (refl, tt));
  clean = refl;
  sectors = omega arith;
  sector = omega arith;
}

put_small_write-check_available_example :
    (r : Store × ℕ × Memory) × (put_small_write true dirty_store 9 2 100 800 77 empty ≡ some r)
    × IsOpen true r.0.journal
    × (is_used_pos r.0.journal (current r.0.journal).offset ≡ true)
    × ((o : ℕ)
        → (r.0.ops o).pending_ops + waits o dirty_ring.flushing_ops
          ≡ (dirty_store.ops o).pending_ops + waits o r.0.journal.flushing_ops)
unfolding entry_fits
put_small_write-check_available_example =
    put_small_write-check_available 3 true dirty_store 9 2 100 1000 800 77 two_sectors empty
      dirty_ring-IsOpen refl (omega arith) (omega arith) (omega arith) (omega arith) (omega arith)
      dirty_check

check_available_total_example :
    (r : JournalCheck × Answer) × (check_available 5 ring 9 100 1000 (new_check ring) ≡ some r)
check_available_total_example =
    check_available_total ring 9 100 1000 ring-IsRing (omega arith) (omega arith) (omega arith)

-- The first block is free, so the journal can be trimmed up to 1024.
abbrev trimmable : Journal
trimmable = record ring { used_sectors = (1024, 3) ∷ [] }

get_trim_pos-ahead_example :
    HasSector (get_trim_pos trimmable) trimmable.used_sectors
    × (ahead trimmable (get_trim_pos trimmable) ≤ ahead trimmable 1024)
get_trim_pos-ahead_example =
    get_trim_pos-ahead trimmable 512 1024 (omega arith) (omega arith) (inl refl)

abbrev busy : Store
busy = record {
  journal = record ring { flushing_ops = three_writes 5 6 7 1 2 3 };
  ops = λ o. record {
    pending_ops = 1;
    op_state = 3;
    min_flushed_journal_sector = 0;
    max_flushed_journal_sector = 0;
  };
}

busy_waits : (o : ℕ) → waits o busy.journal.flushing_ops ≤ (busy.ops o).pending_ops
unfolding waits
busy_waits o = ground arith

unfinished-handle_journal_write_example :
    (st' : Store) × (handle_journal_write 6 busy ≡ some st')
    × (unfinished st'.journal.flushing_ops ≡ without 6 (unfinished busy.journal.flushing_ops))
    × ((o : ℕ) → waits o st'.journal.flushing_ops ≤ (st'.ops o).pending_ops)
    × ((o : ℕ)
        → (st'.ops o).pending_ops + waits o busy.journal.flushing_ops
          ≡ (busy.ops o).pending_ops + waits o st'.journal.flushing_ops)
    × ((o : ℕ)
        → (st'.ops o).op_state
          ≡ (busy.ops o).op_state + resumed (busy.ops o).pending_ops (st'.ops o).pending_ops)
unfinished-handle_journal_write_example = unfinished-handle_journal_write 6 busy busy_waits

handle_journal_write-out_of_order_example :
    (st' : Store) × (st'' : Store) × (handle_journal_write 7 busy ≡ some st')
    × (handle_journal_write 6 st' ≡ some st'')
    × ((st''.ops 3).op_state ≡ 4)
    × (unfinished st''.journal.flushing_ops ≡ 5 ∷ [])
handle_journal_write-out_of_order_example =
    handle_journal_write-out_of_order 5 6 7 1 2 3 busy (omega arith) (omega arith) refl refl
