-- ===== src/Cache/Sync.antt =====
-- src/client/cluster_client_wb.cpp: an fsync and the end of a flush, seen from a position of an image.
use vitastor.Base.{
  ℕ, ◌+◌, ◌<◌, ◌≡◌, refl, sym, ◌∙◌, ap, subst, inl, inr, Bool, true, false, ◌&&◌, ◌||◌, List, [],
  ◌∷◌, Option, none, some, ltb, leb, ◌==◌, if◌then◌else◌, arith, Bool-cases, ◌^◌,
}
use mathlib.Core.Option
use vitastor.Cache.{CacheState, dirty, written, flushing, repeating, is_dirty, Buffer, Counters}
use vitastor.Cache.Order.{IsSorted}
use vitastor.Cache.Sums.{dirty_bytes, runs}
use vitastor.Memory.{Memory}
use vitastor.Cache.Cells.{Cell, cell_at, cell_of}
use vitastor.Cache.Write.{Cache, drop_ref, ClusterOp, copy_write}
use vitastor.Cache.Insert.{IsValid, new_cell, copy_write-cell}
use vitastor.Cache.Counts.{drop_ref_sums}
use vitastor.Cache.Settle.{
  cell_at-buffer_at, Step, IsClean, IsCleanAt, settle, buffer_at, step_at, buffer_at-settle,
  settle-IsSorted, dirty_bytes-settle, runs-settle,
}
use vitastor.Cache.Flush.{is_written, is_flushing, fsync_start, fsync_error, fsync_ok}

-- The buffer stays as it is.
abbrev pub stay : Step
stay e = some (e.state, e.flush_id)

-- What an fsync writes goes from one state to another.
abbrev pub restate : (CacheState → Bool) → CacheState → Step
restate p state e = if p e.state then some (state, e.flush_id) else stay e

-- What an fsync wrote is dropped.
abbrev pub drop_flushing : Step
drop_flushing e = if is_flushing e.state then none else stay e

fsync_start-eq-settle :
    (es : List Buffer) → fsync_start es ≡ settle (restate is_written flushing) es
unfolding fsync_start settle
fsync_start-eq-settle [] = refl
fsync_start-eq-settle (e ∷ es) = ground (arith, fsync_start-eq-settle es)

fsync_error-eq-settle :
    (es : List Buffer) → fsync_error es ≡ settle (restate is_flushing written) es
unfolding fsync_error settle
fsync_error-eq-settle [] = refl
fsync_error-eq-settle (e ∷ es) = ground (arith, fsync_error-eq-settle es)

fsync_ok-eq-settle : (es : List Buffer) (c : Counters) → (fsync_ok es c).0 ≡ settle drop_flushing es
unfolding fsync_ok settle
fsync_ok-eq-settle [] c = refl
fsync_ok-eq-settle (e ∷ es) c =
    ground (arith, fsync_ok-eq-settle es c, fsync_ok-eq-settle es (drop_ref e c))

fsync_ok_sums :
    (es : List Buffer) (c : Counters)
    → ((fsync_ok es c).1.writeback_bytes ≡ c.writeback_bytes)
      × ((fsync_ok es c).1.writeback_queue_size ≡ c.writeback_queue_size)
unfolding fsync_ok
fsync_ok_sums [] c = (refl, refl)
fsync_ok_sums (e ∷ es) c =
    let gone = fsync_ok_sums es (drop_ref e c) in
    let kept = fsync_ok_sums es c in
    let d = drop_ref_sums e c in
    elim (Bool-cases (is_flushing e.state)) [
      | inl y ↦ rw y (gone.0 ∙ d.0, gone.1 ∙ d.1)
      | inr n ↦ rw n kept
    ]

-- Steps on buffers that are not dirty keep the cache valid.
pub settle-IsValid :
    (f : Step) (cache cache' : Cache)
    → IsClean f
    → cache'.dirty_buffers ≡ settle f cache.dirty_buffers
    → cache'.counters.writeback_bytes ≡ cache.counters.writeback_bytes
    → cache'.counters.writeback_queue_size ≡ cache.counters.writeback_queue_size
    → IsValid cache
    → IsValid cache'
settle-IsValid f cache cache' c same b q v =
    let sum = ap dirty_bytes same ∙ dirty_bytes-settle f cache.dirty_buffers c in
    record {
      sorted =
          subst (IsSorted none) (sym same) (settle-IsSorted f none cache.dirty_buffers v.sorted);
      bytes = b ∙ v.bytes ∙ sym sum;
      small = omega (arith, v.small, sum);
      queue =
          q
          ∙ v.queue
          ∙ sym (ap (runs none) same ∙ runs-settle f none cache.dirty_buffers c v.sorted);
    }

drop_flushing-IsClean : IsClean drop_flushing
drop_flushing-IsClean e = cases e.state e refl
  where
    cases : (s : CacheState) (e : Buffer) → e.state ≡ s → IsCleanAt e (drop_flushing e)
    cases dirty e h = inl (rw h refl)
    cases written e h = inl (rw h refl)
    cases flushing e h = inr (rw h refl, rw h tt)
    cases repeating e h = inl (rw h refl)

restate-IsClean :
    (p : CacheState → Bool) (state : CacheState)
    → p dirty ≡ false
    → is_dirty state ≡ false
    → IsClean (restate p state)
restate-IsClean p state h n e = elim (Bool-cases (p e.state)) [
  | inr o ↦ inl (rw o refl)
  | inl y ↦ inr (clean e.state y, rw y n)
]
  where
    clean : (s : CacheState) → p s ≡ true → is_dirty s ≡ false
    clean dirty y = cc
    clean written y = refl
    clean flushing y = refl
    clean repeating y = refl

-- The cache after `fsync_start`, and after `fsync_ok`.
abbrev pub started : Cache → Cache
started cache = record cache { dirty_buffers = fsync_start cache.dirty_buffers }

abbrev pub synced : Cache → Cache
synced cache =
    let r = fsync_ok cache.dirty_buffers cache.counters in
    record { dirty_buffers = r.0; counters = r.1 }

started-IsValid : (cache : Cache) → IsValid cache → IsValid (started cache)
started-IsValid cache v =
    settle-IsValid (restate is_written flushing) cache (started cache)
      (restate-IsClean is_written flushing refl refl) (fsync_start-eq-settle cache.dirty_buffers)
      refl refl v

pub synced-IsValid : (cache : Cache) → IsValid cache → IsValid (synced cache)
synced-IsValid cache v =
    let sums = fsync_ok_sums cache.dirty_buffers cache.counters in
    settle-IsValid drop_flushing cache (synced cache) drop_flushing-IsClean
      (fsync_ok-eq-settle cache.dirty_buffers cache.counters) sums.0 sums.1 v

-- What a position holds after a step on each buffer, where the step depends on the state alone.
abbrev pub drop_cell : (CacheState → Bool) → Option Cell → Option Cell
drop_cell p none = none
drop_cell p (some c) = if p c.state then none else some c

abbrev pub restate_cell : (CacheState → Bool) → CacheState → Option Cell → Option Cell
restate_cell p state none = none
restate_cell p state (some c) = some (if p c.state then record c { state = state } else c)

cell_at-synced :
    (i x : ℕ) (cache : Cache)
    → IsValid cache
    → cell_at i x (synced cache).dirty_buffers
      ≡ drop_cell is_flushing (cell_at i x cache.dirty_buffers)
cell_at-synced i x cache v =
    let es = cache.dirty_buffers in
    ap (cell_at i x) (fsync_ok-eq-settle es cache.counters)
    ∙ cell_at-buffer_at i x (settle drop_flushing es)
    ∙ ap (Option.map (cell_of x)) (buffer_at-settle drop_flushing i x none es v.sorted)
    ∙ dropped (buffer_at i x es)
    ∙ ap (drop_cell is_flushing) (sym (cell_at-buffer_at i x es))
  where
    dropped :
        (b : Option Buffer)
        → Option.map (cell_of x) (step_at drop_flushing b)
          ≡ drop_cell is_flushing (Option.map (cell_of x) b)
    dropped none = refl
    dropped (some e) = ground arith

cell_at-started :
    (i x : ℕ) (cache : Cache)
    → IsValid cache
    → cell_at i x (started cache).dirty_buffers
      ≡ restate_cell is_written flushing (cell_at i x cache.dirty_buffers)
cell_at-started i x cache v =
    let es = cache.dirty_buffers in
    ap (cell_at i x) (fsync_start-eq-settle es)
    ∙ cell_at-buffer_at i x (settle (restate is_written flushing) es)
    ∙ ap (Option.map (cell_of x))
        (buffer_at-settle (restate is_written flushing) i x none es v.sorted)
    ∙ changed (buffer_at i x es)
    ∙ ap (restate_cell is_written flushing) (sym (cell_at-buffer_at i x es))
  where
    changed :
        (b : Option Buffer)
        → Option.map (cell_of x) (step_at (restate is_written flushing) b)
          ≡ restate_cell is_written flushing (Option.map (cell_of x) b)
    changed none = refl
    changed (some e) = ground arith

abbrev pub is_stable : CacheState → Bool
is_stable s = is_written s || is_flushing s

drop_restate :
    (c : Option Cell)
    → drop_cell is_flushing (restate_cell is_written flushing c) ≡ drop_cell is_stable c
drop_restate none = refl
drop_restate (some c) = ground arith

dirty_bytes-started :
    (cache : Cache) → dirty_bytes (started cache).dirty_buffers ≡ dirty_bytes cache.dirty_buffers
dirty_bytes-started cache =
    ap dirty_bytes (fsync_start-eq-settle cache.dirty_buffers)
    ∙ dirty_bytes-settle (restate is_written flushing) cache.dirty_buffers
        (restate-IsClean is_written flushing refl refl)

-- Where a write runs between `fsync_start` and `fsync_ok`, the positions of its range hold what it
-- wrote, and any other position holds what it held before, unless that was written already or was a
-- part of an fsync: then it holds nothing. The cache stays valid. The write is not in the state
-- CACHE_FLUSHING, and the bytes to be written back with its own number less than 2 ^ 64.
pub fsync_ok-copy_write :
    (alloc : ℕ → ℕ × ℕ) (op : ClusterOp) (state : CacheState) (flush_id : ℕ) (cache : Cache)
    (m : Memory) (i x : ℕ)
    → IsValid cache
    → is_flushing state ≡ false
    → dirty_bytes cache.dirty_buffers + op.len < 2 ^ 64
    → (cache' : Cache) × (m' : Memory) × (copy_write alloc op state flush_id (started cache) m
        ≡ some (cache', m'))
      × IsValid (synced cache')
      × (cell_at i x (synced cache').dirty_buffers ≡ (
          if i == op.inode && leb op.offset x && ltb x (op.offset + op.len)
          then some (new_cell op state flush_id (alloc op.len) x)
          else drop_cell is_stable (cell_at i x cache.dirty_buffers)))
fsync_ok-copy_write alloc op state flush_id cache m i x v s room =
    let v' = started-IsValid cache v in
    let room' : dirty_bytes (started cache).dirty_buffers + op.len < 2 ^ 64 =
      omega (arith, room, dirty_bytes-started cache) in
    let (cache', m', run, valid, cell) =
      copy_write-cell alloc op state flush_id (started cache) m i x v' room' in
    (
      cache',
      m',
      run,
      synced-IsValid cache' valid,
      cell_at-synced i x cache' valid
          ∙ ap (drop_cell is_flushing) cell
          ∙ elim (Bool-cases (i == op.inode && leb op.offset x && ltb x (op.offset + op.len))) [
            | inl y ↦ rw (y, s) refl
            | inr n ↦ rw n (
                ap (drop_cell is_flushing) (cell_at-started i x cache v)
                ∙ drop_restate (cell_at i x cache.dirty_buffers))
          ],
    )
