-- ===== src/Journal.antt =====
-- src/blockstore/blockstore_journal.h: the state of the journal, a ring of blocks behind a first
-- block that is not a part of it, with buffers for the sectors that are being filled. An array is a
-- function of the index. Positions do not wrap at 64 bits.
pub mod Space
pub mod Entries
pub mod Writes
pub mod SmallWrite
pub mod Trim
pub mod Ring
pub mod Rounds
pub mod Fill
use vitastor.Base.{
  ℕ, ◌+◌, ◌-◌, Bool, true, false, not, ◌&&◌, ◌||◌, List, [], ◌∷◌, Option, none, some, ltb, leb,
  ◌==◌, if◌then◌else◌,
}

-- `journal_sector_info_t`
pub record SectorInfo : Type 0 where
  pub offset : ℕ
  pub flush_count : ℕ
  pub written : Bool
  pub dirty : Bool
  pub submit_id : ℕ

-- `pending_journaling_t`. The sector of a data write is none. An operation is known by a number.
pub record Pending : Type 0 where
  pub flush_id : ℕ
  pub pending : Bool
  pub sector : Option ℕ
  pub op : ℕ

-- `journal_t`. `flushing_ops` is in order of the flush id, and `used_sectors`, a list of positions
-- with their counts, in order of the position.
pub record Journal : Type 0 where
  pub inmemory : Bool
  pub buffer : ℕ
  pub block_size : ℕ
  pub offset : ℕ
  pub len : ℕ
  pub next_free : ℕ
  pub used_start : ℕ
  pub dirty_start : ℕ
  pub crc32_last : ℕ
  pub sector_buf : ℕ
  pub sector_info : ℕ → SectorInfo
  pub sector_count : ℕ
  pub no_same_sector_overwrites : Bool
  pub cur_sector : ℕ
  pub in_sector_pos : ℕ
  pub submitting_sectors : List ℕ
  pub flushing_ops : List Pending
  pub submit_id : ℕ
  pub used_sectors : List (ℕ × ℕ)

abbrev pub current : Journal → SectorInfo
current j = j.sector_info j.cur_sector

-- `entry_fits`
unfoldable pub entry_fits : Journal → ℕ → Bool
entry_fits j size = not (
    ltb (j.block_size - j.in_sector_pos) size || j.no_same_sector_overwrites && (current j).written)

abbrev pub set_sector : Journal → ℕ → SectorInfo → Journal
set_sector j i s = record j { sector_info = λ k. if k == i then s else j.sector_info k }

-- The block behind a block, in the ring.
abbrev pub block_after : Journal → ℕ → ℕ
block_after j pos = if ltb (pos + j.block_size) j.len then pos + j.block_size else j.block_size
