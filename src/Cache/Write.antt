-- ===== src/Cache/Write.antt =====
-- src/client/cluster_client_wb.cpp: `copy_write`. `none` is a failed assertion.
use vitastor.Base.{
  ℕ, ◌+◌, ◌-◌, Bool, not, ◌&&◌, ◌||◌, List, [], ◌∷◌, Option, none, some, ltb, leb, ◌==◌, ◌!=◌,
  if◌then◌else◌, ◌++◌, ◌>>=◌,
}
use mathlib.Core.Option
use vitastor.Base.Words.{add64, sub64}
use vitastor.Memory.{Memory, memcpy}
use vitastor.Cache.{
  CacheState, is_dirty, Buffer, is_some, end_of, Counters, Cursor, rewind, find_dirty,
  is_left_merged, is_right_merged,
}

abbrev pub update : (ℕ → ℕ) → ℕ → ℕ → ℕ → ℕ
update f p v q = if q == p then v else f q

-- `(*refcnt)++`, for a buffer that is not deleted
unfoldable pub add_ref : Buffer → Counters → Counters
add_ref e c =
    if is_some e.buf then record c { refs = update c.refs e.refcnt (c.refs e.refcnt + 1) } else c

-- `if (buf && !--(*refcnt)) free(refcnt)`
unfoldable pub drop_ref : Buffer → Counters → Counters
drop_ref e c =
    if is_some e.buf
    then record c {
      refs = update c.refs e.refcnt (c.refs e.refcnt - 1);
      freed = if c.refs e.refcnt == 1 then e.refcnt ∷ c.freed else c.freed;
    }
    else c

-- `if (buf) writeback_bytes -= n`, for a dirty buffer
unfoldable pub take_bytes : ℕ → Buffer → Counters → Counters
take_bytes n e c =
    if is_dirty e.state && is_some e.buf
    then record c { writeback_bytes = sub64 c.writeback_bytes n }
    else c

-- `writeback_queue_size++`
unfoldable pub more_queued : Bool → Counters → Counters
more_queued yes_queued c =
    if yes_queued then record c { writeback_queue_size = c.writeback_queue_size + 1 } else c

-- `assert(writeback_queue_size > 0); writeback_queue_size--`
unfoldable pub less_queued : Bool → Counters → Option Counters
less_queued yes_queued c =
    if yes_queued
    then (if ltb 0 c.writeback_queue_size
        then some (record c { writeback_queue_size = c.writeback_queue_size - 1 })
        else none)
    else some c

-- The part of a buffer before `off`.
abbrev pub head_part : ℕ → Buffer → Buffer
head_part off e = record e { len = off - e.stripe }

-- The part of a buffer from `new_end` on.
abbrev pub tail_part : ℕ → Buffer → Buffer
tail_part new_end e = record e {
  stripe = new_end;
  buf = Option.map (λ a. a + (new_end - e.stripe)) e.buf;
  len = end_of e - new_end;
}

-- The branch for a buffer that is removed: the counters.
unfoldable pub remove_buffer : List Buffer → Buffer → List Buffer → Counters → Option Counters
remove_buffer before e rest c =
    let lm = is_left_merged before e in
    let rm = is_right_merged e rest in
    let d = take_bytes e.len e c in
    if is_dirty e.state
    then (less_queued (not lm && not rm) (more_queued (lm && rm) d) >>= λ g. some (drop_ref e g))
    else some (drop_ref e d)

-- The loop of `copy_write`, which removes what overlaps `[off, new_end)`.
unfoldable pub cut : ℕ → ℕ → ℕ → List Buffer → List Buffer → Counters → Option (Cursor × Counters)
cut inode off new_end before [] c = some (record { before = before; after = [] }, c)
cut inode off new_end before (e ∷ rest) c =
    let d = is_dirty e.state in
    if e.inode != inode || leb new_end e.stripe
    then some (record { before = before; after = e ∷ rest }, c)
    else if leb (end_of e) off
    then none
    else if ltb e.stripe off
    then (if ltb new_end (end_of e)
        then some (
          record { before = head_part off e ∷ before; after = tail_part new_end e ∷ rest },
          more_queued d (take_bytes (new_end - off) e (add_ref e c)),
        )
        else (let kept =
              more_queued (d && is_right_merged e rest) (take_bytes (end_of e - off) e c) in
            cut inode off new_end (head_part off e ∷ before) rest kept))
    else if ltb new_end (end_of e)
    then some (
      record { before = before; after = tail_part new_end e ∷ rest },
      more_queued (d && is_left_merged before e) (take_bytes (new_end - e.stripe) e c),
    )
    else elim (remove_buffer before e rest c) [
      | none ↦ none
      | some next ↦ cut inode off new_end before rest next
    ]

-- `cluster_op_t`, the fields that the cache reads. `iov` has addresses with lengths.
pub record ClusterOp : Type 0 where
  pub is_delete : Bool
  pub inode : ℕ
  pub offset : ℕ
  pub len : ℕ
  pub iov : List (ℕ × ℕ)

-- The new buffer of an operation. `refcnt` names the allocation, and its bytes start at `buf`.
abbrev pub new_buffer : ClusterOp → CacheState → ℕ → ℕ → ℕ → Buffer
new_buffer op state flush_id refcnt buf = record {
  inode = op.inode;
  stripe = op.offset;
  buf = if op.is_delete then none else some buf;
  len = op.len;
  state = state;
  flush_id = flush_id;
  refcnt = refcnt;
}

-- `if (state == CACHE_DIRTY) { ... }` for the new buffer
unfoldable pub queue_buffer : List Buffer → Buffer → List Buffer → Counters → Option Counters
queue_buffer before e rest c =
    let lm = is_left_merged before e in
    let rm = is_right_merged e rest in
    if is_dirty e.state
    then less_queued (lm && rm) (
        more_queued (not lm && not rm) (record c {
          writeback_bytes = add64 c.writeback_bytes (if is_some e.buf then e.len else 0);
          writeback_queue =
              if not lm && not rm
              then c.writeback_queue ++ (e.inode, e.stripe) ∷ []
              else c.writeback_queue;
        }))
    else some c

-- The loop that copies the data, which ends with the vector.
unfoldable pub copy_iov : ℕ → List (ℕ × ℕ) → Memory → Memory
copy_iov dest [] m = m
copy_iov dest ((base, n) ∷ iov) m = copy_iov (dest + n) iov (memcpy dest base n m)

pub record Cache : Type 0 where
  pub dirty_buffers : List Buffer
  pub counters : Counters

-- `copy_write`. `alloc` stands for `malloc_or_die`: the allocation of a size, with the address of the
-- bytes behind its counter.
unfoldable pub copy_write :
    (ℕ → ℕ × ℕ) → ClusterOp → CacheState → ℕ → Cache → Memory → Option (Cache × Memory)
copy_write alloc op state flush_id cache m =
    let place = find_dirty op.inode op.offset cache.dirty_buffers in
    let (refcnt, buf) = alloc op.len in
    let e = new_buffer op state flush_id refcnt buf in
    if op.len == 0 then some (cache, m) else do
      (free, c) ←
          cut op.inode op.offset (op.offset + op.len) place.before place.after cache.counters
      d ←
          queue_buffer free.before e free.after
            (if op.is_delete then c else record c { refs = update c.refs refcnt 1 })
      some (
        record { dirty_buffers = rewind free.before (e ∷ free.after); counters = d },
        if op.is_delete then m else copy_iov buf op.iov m,
      )
