-- ===== src/Journal/Space.antt =====
-- src/blockstore/blockstore_journal.cpp: `blockstore_journal_check_t`.
use vitastor.Base.{
  ℕ, zero, suc, ◌+◌, ◌-◌, ◌*◌, ◌/◌, ◌%◌, Bool, false, not, ◌&&◌, ◌||◌, Option, none, some, ltb, leb,
  ◌==◌, ◌!=◌, if◌then◌else◌, min, ◌>>=◌,
}
use vitastor.Journal.{Journal, SectorInfo}

-- `blockstore_journal_check_t`. `first_sector` is none where the code has -1.
pub record JournalCheck : Type 0 where
  pub next_pos : ℕ
  pub next_sector : ℕ
  pub next_in_pos : ℕ
  pub sectors_to_write : ℕ
  pub first_sector : Option ℕ
  pub right_dir : Bool

-- The results of `check_available`. `wait_journal` has the position that has to change, and
-- `too_small` is the exception.
pub data Answer : Type 0 where
  available : Answer
  wait_journal_buffer : Answer
  wait_journal : ℕ → Answer
  too_small : Answer

-- The constructor.
abbrev pub new_check : Journal → JournalCheck
new_check j = record {
  next_pos = j.next_free;
  next_sector = j.cur_sector;
  next_in_pos = j.in_sector_pos;
  sectors_to_write = 0;
  first_sector = none;
  right_dir = leb j.used_start j.next_free;
}

-- `fits`, before it is cut to what is required
unfoldable pub room : Journal → ℕ → JournalCheck → ℕ
room j size c =
    if j.no_same_sector_overwrites
      && c.next_pos == j.next_free
      && (j.sector_info c.next_sector).written
    then 0
    else (j.block_size - c.next_in_pos) / size

abbrev pub or_first : Option ℕ → ℕ → Option ℕ
or_first none s = some s
or_first (some f) s = some f

-- `sectors_to_write++`, but for a sector of an earlier call
abbrev pub count_sector : ℕ → JournalCheck → ℕ
count_sector prev_next c =
    if c.next_sector != prev_next || c.sectors_to_write == 0
    then c.sectors_to_write + 1
    else c.sectors_to_write

-- The beginning of a round: entries are put into the sector.
unfoldable pub take_room : Journal → ℕ → ℕ → ℕ → JournalCheck → JournalCheck
take_room j prev_next required size c =
    let fits = min (room j size c) required in
    if ltb 0 (room j size c)
    then record c {
      first_sector = or_first c.first_sector c.next_sector;
      next_in_pos = c.next_in_pos + fits * size;
      sectors_to_write = count_sector prev_next c;
    }
    else if (j.sector_info c.next_sector).dirty
    then record c { sectors_to_write = count_sector prev_next c }
    else c

-- The end of a round: the check goes to the next sector.
unfoldable pub to_next : Journal → JournalCheck → JournalCheck
to_next j c =
    let wraps = leb j.len (c.next_pos + j.block_size) in
    record c {
      next_pos = if wraps then j.block_size else c.next_pos + j.block_size;
      right_dir = if wraps then false else c.right_dir;
      next_in_pos = 0;
      next_sector = (c.next_sector + 1) % j.sector_count;
    }

abbrev pub is_first : JournalCheck → Bool
is_first c = elim c.first_sector [ none ↦ false | some f ↦ c.next_sector == f ]

abbrev pub is_busy : SectorInfo → Bool
is_busy s = ltb 0 s.flush_count || s.dirty

-- The loop of `check_available`. `none` means that the fuel ran out.
unfoldable pub check_loop : ℕ → Journal → ℕ → ℕ → ℕ → JournalCheck → Option (JournalCheck × Answer)
check_loop zero j prev_next required size c = none
check_loop (suc fuel) j prev_next required size c =
    let used = take_room j prev_next required size c in
    let left = required - min (room j size c) required in
    let next = to_next j used in
    let rest = check_loop fuel j prev_next left size next in
    if left == 0
    then some (used, available)
    else if is_first next
    then some (next, too_small)
    else if is_busy (j.sector_info next.next_sector)
    then some (next, wait_journal_buffer)
    else rest

-- The space for data behind the entries.
unfoldable pub add_data : Journal → ℕ → JournalCheck → JournalCheck
add_data j data_after c =
    let pos = c.next_pos + data_after in
    if ltb 0 data_after
    then (if leb j.len pos
        then record c {
          next_pos = if c.right_dir then j.block_size + data_after else pos;
          right_dir = false;
        }
        else record c { next_pos = pos })
    else c

-- `check_available`
unfoldable pub check_available :
    ℕ → Journal → ℕ → ℕ → ℕ → JournalCheck → Option (JournalCheck × Answer)
check_available fuel j entries_required size data_after c =
    check_loop fuel j c.next_sector entries_required size c >>= λ r. elim (r.1) [
      | available ↦
          let d = add_data j data_after r.0 in
          if not d.right_dir && leb (j.used_start - j.block_size) d.next_pos
          then some (d, wait_journal j.used_start)
          else some (d, available)
      | other ↦ some (r.0, other)
    ]
