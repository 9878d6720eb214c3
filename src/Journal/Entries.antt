-- ===== src/Journal/Entries.antt =====
-- src/blockstore/blockstore_journal.cpp: `prefill_single_journal_entry`; and the position of the
-- data of a small write, of src/blockstore/blockstore_write.cpp. `none` is a failed assertion.
use vitastor.Base.{
  ℕ, zero, suc, ◌+◌, ◌*◌, ◌/◌, ◌%◌, Bool, true, false, not, ◌&&◌, ◌||◌, List, [], ◌∷◌, Option, none,
  some, ltb, leb, ◌==◌, if◌then◌else◌, ◌>>=◌,
}
use vitastor.Memory.{Memory, fill, write}
use vitastor.Journal.{Journal, current, entry_fits, set_sector, block_after}

-- `JOURNAL_MAGIC`
abbrev pub journal_magic : ℕ
journal_magic = 0x4A33

-- A number of `n` bytes in memory, the lowest byte first.
unfoldable pub store : ℕ → ℕ → ℕ → Memory → Memory
store zero a v m = m
store (suc n) a v m = store n (a + 1) (v / 256) (write a (v % 256) m)

-- The address of the current sector.
abbrev pub sector_address : Journal → ℕ
sector_address j =
    if j.inmemory then j.buffer + (current j).offset else j.sector_buf + j.block_size * j.cur_sector

-- `next_free` does not cross `used_start` from the left.
abbrev pub may_go_to : Journal → ℕ → Bool
may_go_to j next_next_free =
    leb j.used_start j.next_free && leb j.next_free next_next_free
    || ltb next_next_free j.used_start

-- The choice of the buffer for the next sector.
unfoldable pub choose_sector : Journal → Option Journal
choose_sector j =
    let next = (j.cur_sector + 1) % j.sector_count in
    if ltb 0 (current j).flush_count
    then (if (j.sector_info next).flush_count == 0
        then some (record j { cur_sector = next })
        else none)
    else some (record j { dirty_start = j.next_free })

-- The move of the current sector to `next_free`.
unfoldable pub start_sector : Journal → Option Journal
start_sector j =
    if may_go_to j (block_after j j.next_free)
    then some
        (record (set_sector j j.cur_sector
          (record (current j) { written = false; offset = j.next_free })) {
            in_sector_pos = 0;
            next_free = block_after j j.next_free;
          })
    else none

-- The branch for an entry that does not fit.
unfoldable pub next_journal_sector : Journal → Option Journal
next_journal_sector j =
    if (current j).dirty then none else (choose_sector j >>= λ k. start_sector k)

-- The rest of `prefill_single_journal_entry`: the journal, the address of the entry and the memory.
unfoldable pub put_entry : Journal → ℕ → ℕ → Memory → Journal × ℕ × Memory
put_entry j type size m =
    let je = sector_address j + j.in_sector_pos in
    (
      record (set_sector j j.cur_sector (record (current j) { dirty = true })) {
        in_sector_pos = j.in_sector_pos + size;
      },
      je,
      store 4 (je + 12) j.crc32_last
          (store 4 (je + 8) size (store 2 (je + 6) type (store 2 (je + 4) journal_magic m))),
    )

-- `prefill_single_journal_entry`
unfoldable pub prefill_single_journal_entry :
    Journal → ℕ → ℕ → Memory → Option (Journal × ℕ × Memory)
prefill_single_journal_entry j type size m =
    if entry_fits j size
    then some (put_entry j type size m)
    else (next_journal_sector j >>= λ k.
        some (put_entry k type size (fill k.block_size (sector_address k) 0 m)))

-- A position is between `used_start` and `next_free` in the ring.
abbrev pub is_used_pos : Journal → ℕ → Bool
is_used_pos j pos =
    if leb j.used_start j.next_free
    then leb j.used_start pos && ltb pos j.next_free
    else leb j.used_start pos || ltb pos j.next_free

-- `used_sectors[pos]++`
unfoldable pub use_sector : ℕ → List (ℕ × ℕ) → List (ℕ × ℕ)
use_sector pos [] = (pos, 1) ∷ []
use_sector pos ((u, n) ∷ used) =
    if u == pos
    then (u, n + 1) ∷ used
    else if ltb pos u
    then (pos, 1) ∷ (u, n) ∷ used
    else (u, n) ∷ use_sector pos used

-- The first used sector at or behind a position is in the range of the data.
unfoldable pub overwrites : ℕ → ℕ → List (ℕ × ℕ) → Bool
overwrites pos len [] = false
overwrites pos len ((u, n) ∷ used) =
    if ltb u pos then overwrites pos len used else ltb u (pos + len)

-- Where the data of a small write goes, in `dequeue_write`, with the checks that abort.
unfoldable pub reserve_data : Journal → ℕ → Option Journal
reserve_data j len =
    let jsec = (current j).offset in
    let pos = if leb (j.next_free + len) j.len then j.next_free else j.block_size in
    let used = use_sector jsec j.used_sectors in
    if is_used_pos j jsec && not (ltb 0 len && overwrites pos len used) && may_go_to j pos
    then some (record j { used_sectors = used; next_free = pos })
    else none

-- The move behind the data, once it is submitted.
unfoldable pub pass_data : Journal → ℕ → Option Journal
pass_data j len =
    let end = if leb j.len (j.next_free + len) then j.block_size else j.next_free + len in
    if may_go_to j end then some (record j { next_free = end }) else none
