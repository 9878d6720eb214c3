-- ===== src/Cache.antt =====
-- src/client/cluster_client_wb.cpp and src/client/cluster_client_impl.h: the cache of written and not
-- yet synced data of the client. The map of buffers is a list sorted by inode and offset, and an
-- iterator into it is a pair of lists, the part before it, backwards, and the part from it on. A
-- buffer is an address, and the counter of its references, which the code allocates in front of it,
-- has the buffer's allocation as its name. Offsets do not wrap.
pub mod Write
pub mod Flush
pub mod Read
pub mod Order
pub mod Cells
pub mod Sums
pub mod Counts
pub mod Cut
pub mod Insert
pub mod Content
pub mod Settle
pub mod Sync
pub mod Finish
pub mod Deletions
pub mod Repeat
use vitastor.Base.{
  ℕ, ◌+◌, ◌-◌, Bool, true, false, not, ◌&&◌, ◌||◌, List, [], ◌∷◌, Option, none, some, ltb, leb,
  ◌==◌, ◌!=◌, if◌then◌else◌,
}

-- `CACHE_*`
pub data CacheState : Type 0 where
  dirty : CacheState
  written : CacheState
  flushing : CacheState
  repeating : CacheState

abbrev pub is_dirty : CacheState → Bool
is_dirty dirty = true
is_dirty _ = false

-- An entry of `dirty_buffers`: its key and `cluster_buffer_t`. A deleted range has no buffer.
pub record Buffer : Type 0 where
  pub inode : ℕ
  pub stripe : ℕ
  pub buf : Option ℕ
  pub len : ℕ
  pub state : CacheState
  pub flush_id : ℕ
  pub refcnt : ℕ

abbrev pub is_some {ℓ} : {A : Type ℓ} → Option A → Bool
is_some none = false
is_some (some a) = true

-- `stripe + len`
abbrev pub end_of : Buffer → ℕ
end_of e = e.stripe + e.len

-- `writeback_cache_t` but for `dirty_buffers` and the queue of waiting operations. `refs` holds the
-- reference counters, and `freed` the allocations that were freed.
pub record Counters : Type 0 where
  pub writeback_bytes : ℕ
  pub writeback_queue_size : ℕ
  pub writebacks_active : ℕ
  pub last_flush_id : ℕ
  pub writeback_queue : List (ℕ × ℕ)
  pub flushed_buffers : List (ℕ × ℕ)
  pub refs : ℕ → ℕ
  pub freed : List ℕ

-- An iterator into the map.
pub record Cursor : Type 0 where
  pub before : List Buffer
  pub after : List Buffer

-- The whole map.
unfoldable pub rewind : List Buffer → List Buffer → List Buffer
rewind [] after = after
rewind (p ∷ ps) after = rewind ps (p ∷ after)

-- The key is below `{ inode, offset }`.
abbrev pub is_below : ℕ → ℕ → Buffer → Bool
is_below inode offset e = ltb e.inode inode || e.inode == inode && ltb e.stripe offset

-- `dirty_buffers.lower_bound`
unfoldable pub lower_bound : ℕ → ℕ → List Buffer → List Buffer → Cursor
lower_bound inode offset before [] = record { before = before; after = [] }
lower_bound inode offset before (e ∷ es) =
    let next = lower_bound inode offset (e ∷ before) es in
    if is_below inode offset e then next else record { before = before; after = e ∷ es }

-- The loop of `find_dirty`, back to the first buffer that reaches behind the offset.
unfoldable pub walk_back : ℕ → ℕ → List Buffer → List Buffer → Cursor
walk_back inode offset [] after = record { before = []; after = after }
walk_back inode offset (p ∷ ps) after =
    let next = walk_back inode offset ps (p ∷ after) in
    if p.inode != inode || leb (end_of p) offset
    then record { before = p ∷ ps; after = after }
    else next

-- `find_dirty`. The code returns `end()` where the buffer found is of another inode; all callers stop
-- at such a buffer, too, so the iterator stays where it is.
unfoldable pub find_dirty : ℕ → ℕ → List Buffer → Cursor
find_dirty inode offset es =
    let c = lower_bound inode offset [] es in walk_back inode offset c.before c.after

-- `has_inode`
unfoldable pub has_inode : ℕ → List Buffer → Bool
has_inode inode es = elim (lower_bound inode 0 [] es).after [
  | [] ↦ false
  | e ∷ rest ↦ e.inode == inode
]

abbrev pub same_bool : Bool → Bool → Bool
same_bool true b = b
same_bool false b = not b

-- Two buffers touch and are both written or both deleted.
abbrev pub touches : Buffer → Buffer → Bool
touches p e =
    p.inode == e.inode && same_bool (is_some p.buf) (is_some e.buf) && end_of p == e.stripe

-- `is_left_merged`
unfoldable pub is_left_merged : List Buffer → Buffer → Bool
is_left_merged [] e = false
is_left_merged (p ∷ ps) e = touches p e && is_dirty p.state

-- `is_right_merged`
unfoldable pub is_right_merged : Buffer → List Buffer → Bool
is_right_merged e [] = false
is_right_merged e (n ∷ ns) = touches e n && is_dirty n.state
