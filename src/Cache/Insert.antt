-- ===== src/Cache/Insert.antt =====
-- src/client/cluster_client_wb.cpp: `copy_write` as a whole.
use vitastor.Base.{
  ℕ, ◌+◌, ◌-◌, ◌^◌, ◌<◌, ◌≤◌, ◌≡◌, refl, sym, ◌∙◌, ap, ◌⊎◌, inl, inr, true, false, not, ◌&&◌, List,
  [], ◌∷◌, Option, none, some, ltb, leb, ◌==◌, if◌then◌else◌, arith, Bool-cases, ◌++◌,
}
use native.Mathlib.Decide.{dec_lt, ℕ_discrete}
use mathlib.Core.Option
use vitastor.Base.Words.{add64}
use vitastor.Memory.{Memory}
use vitastor.Cache.{
  CacheState, is_dirty, Buffer, is_some, end_of, Counters, Cursor, rewind, find_dirty,
  is_left_merged, is_right_merged,
}
use vitastor.Cache.Order.{
  head, Before, Behind, IsSorted, IsPlace, rewind-IsSorted, find_dirty-IsFound,
}
use vitastor.Cache.Cells.{Cell, cell_at, cell_at-back, cell_at-rewind, covers, cell_of}
use vitastor.Cache.Sums.{
  dirty_bytes, runs, dirty_bytes-rewind, runs-rewind, runs_late, is_left_merged_lem,
}
use vitastor.Cache.Counts.{IsCounted, fewer, less_queued_lem}
use vitastor.Cache.Cut.{Outside, zip_cell, cut-IsCut}
use vitastor.Cache.Write.{
  cut, less_queued, more_queued, queue_buffer, update, ClusterOp, new_buffer, copy_iov, Cache,
  copy_write,
}

-- The buffers are in order and do not overlap, and the counters agree with them.
pub record IsValid (cache : Cache) : Type 0 where
  pub sorted : IsSorted none cache.dirty_buffers
  pub bytes : cache.counters.writeback_bytes ≡ dirty_bytes cache.dirty_buffers
  pub small : dirty_bytes cache.dirty_buffers < 2 ^ 64
  pub queue : cache.counters.writeback_queue_size ≡ runs none cache.dirty_buffers

-- The state before `writeback_queue_size` is changed.
abbrev pending : List Buffer → Buffer → List Buffer → Counters → Counters
pending before e after c = record c {
  writeback_bytes = add64 c.writeback_bytes (if is_some e.buf then e.len else 0);
  writeback_queue =
      if not (is_left_merged before e) && not (is_right_merged e after)
      then c.writeback_queue ++ (e.inode, e.stripe) ∷ []
      else c.writeback_queue;
}

queue_buffer-dirty :
    (before : List Buffer) (e : Buffer) (after : List Buffer) (c g : Counters)
    → is_dirty e.state ≡ true
    → less_queued (is_left_merged before e && is_right_merged e after) (
        more_queued
          (not (is_left_merged before e) && not (is_right_merged e after))
          (pending before e after c))
      ≡ some g
    → queue_buffer before e after c ≡ some g
unfolding queue_buffer
queue_buffer-dirty before e after c g y h = rw (y, h) refl

-- The counters after the new buffer is put in its place.
queue_buffer-IsCounted :
    (before : List Buffer) (e : Buffer) (after : List Buffer) (c : Counters)
    → 0 < e.len
    → Before (head before) e.inode e.stripe
    → IsSorted (some e) after
    → IsCounted e.len before after c
    → (d : Counters) × (queue_buffer before e after c ≡ some d) × IsCounted 0 before (e ∷ after) d
unfolding dirty_bytes runs more_queued
queue_buffer-IsCounted before e after c pos fits v k =
    let late = runs_late (head before) e after e.stripe (omega (arith, pos)) fits v in
    let left = is_left_merged_lem before e in
    let lm = is_left_merged before e in
    let rm = is_right_merged e after in
    elim (Bool-cases (is_dirty e.state)) [
      | inr n ↦ (
        c,
        (let run : queue_buffer before e after c ≡ some c = unfold queue_buffer in rw n refl in
            run),
        record {
          bytes = ground (arith, k.bytes, n);
          small = ground (arith, k.small, n);
          queue = ground (arith, k.queue, late, left, n);
        },
      )
      | inl y ↦
          let f = more_queued (not lm && not rm) (pending before e after c) in
          let g = fewer (lm && rm) f in
          let enough : ((lm && rm) ≡ false) ⊎ (0 < f.writeback_queue_size) =
            ground (arith, k.queue, late, y) in
          (
            g,
            queue_buffer-dirty before e after c g y (less_queued_lem (lm && rm) f enough),
            record {
              bytes = ground (arith, k.bytes, k.small, y);
              small = ground (arith, k.small, y);
              queue = ground (arith, k.queue, late, left, y);
            },
          )
    ]

-- What a position in the range of a new buffer holds.
abbrev pub new_cell : ClusterOp → CacheState → ℕ → ℕ × ℕ → ℕ → Cell
new_cell op state flush_id (refcnt, buf) x = record {
  address = Option.map (λ a. a + (x - op.offset)) (if op.is_delete then none else some buf);
  state = state;
  flush_id = flush_id;
  refcnt = refcnt;
}

-- A cache after a write.
pub record IsCopied (op : ClusterOp) (state : CacheState) (flush_id : ℕ) (place : ℕ × ℕ)
    (cache cache' : Cache) : Type 0 where
  pub valid : IsValid cache'
  pub inside :
      (x : ℕ)
      → op.offset ≤ x
      → x < op.offset + op.len
      → cell_at op.inode x cache'.dirty_buffers ≡ some (new_cell op state flush_id place x)
  pub outside :
      (i x : ℕ)
      → Outside op.inode op.offset (op.offset + op.len) i x
      → cell_at i x cache'.dirty_buffers ≡ cell_at i x cache.dirty_buffers

-- The counters once the new buffer has its reference.
abbrev counted_ref : ClusterOp → ℕ → Counters → Counters
counted_ref op refcnt c = if op.is_delete then c else record c { refs = update c.refs refcnt 1 }

IsCounted-counted_ref :
    (spare : ℕ) (before after : List Buffer) (op : ClusterOp) (refcnt : ℕ) (c : Counters)
    → IsCounted spare before after c
    → IsCounted spare before after (counted_ref op refcnt c)
IsCounted-counted_ref spare before after op refcnt c k = record {
  bytes = ground (arith, k.bytes);
  small = k.small;
  queue = ground (arith, k.queue);
}

IsCounted-start :
    (n : ℕ) (cache : Cache) (before after : List Buffer)
    → rewind before after ≡ cache.dirty_buffers
    → IsValid cache
    → dirty_bytes cache.dirty_buffers + n < 2 ^ 64
    → IsCounted n before after cache.counters
IsCounted-start n cache before after whole v h =
    let sum = dirty_bytes-rewind before after in
    let number = runs-rewind before after in
    let same_sum = ap dirty_bytes whole in
    let same_number = ap (runs none) whole in
    record {
      bytes = v.bytes ∙ sym same_sum ∙ sum;
      small = omega (arith, same_sum, sum, h);
      queue = v.queue ∙ sym same_number ∙ number;
    }

rewind-IsValid :
    (before : List Buffer) (e : Buffer) (after : List Buffer) (d : Counters)
    → IsPlace before (e ∷ after)
    → IsCounted 0 before (e ∷ after) d
    → IsValid (record { dirty_buffers = rewind before (e ∷ after); counters = d })
rewind-IsValid before e after d p k =
    let sum = dirty_bytes-rewind before (e ∷ after) in
    record {
      sorted = rewind-IsSorted before (e ∷ after) p;
      bytes = k.bytes ∙ sym sum;
      small = omega (arith, sum, k.small);
      queue = k.queue ∙ sym (runs-rewind before (e ∷ after));
    }

cell-inside :
    (before : List Buffer) (e : Buffer) (after : List Buffer) (x : ℕ)
    → IsPlace before (e ∷ after)
    → e.stripe ≤ x
    → x < end_of e
    → cell_at e.inode x (rewind before (e ∷ after)) ≡ some (cell_of x e)
unfolding cell_at
cell-inside before e after x (back, (pos, fits, front)) lo hi =
    let here : covers e.inode x e ≡ true = ground (arith, lo, hi) in
    let empty = cell_at-back e.inode x e.stripe before back fits lo in
    cell_at-rewind e.inode x before (e ∷ after) (back, (pos, fits, front)) ∙ rw (empty, here) refl

cell-Outside :
    (before : List Buffer) (e : Buffer) (after : List Buffer) (i x : ℕ)
    → IsPlace before (e ∷ after)
    → Outside e.inode e.stripe (end_of e) i x
    → cell_at i x (rewind before (e ∷ after)) ≡ zip_cell i x before after
unfolding cell_at
cell-Outside before e after i x p o =
    let away : covers i x e ≡ false = ground (arith, o) in
    cell_at-rewind i x before (e ∷ after) p ∙ rw away refl

IsSorted-Behind :
    (prev : Option Buffer) (e : Buffer) (after : List Buffer)
    → IsSorted prev after
    → Behind (head after) e.inode (end_of e)
    → IsSorted (some e) after
IsSorted-Behind prev e [] v b = tt
IsSorted-Behind prev e (n ∷ ns) (pos, fits, front) b = (pos, ground (arith, b), front)

-- What `copy_write` leaves in memory.
abbrev pub copied_memory : ClusterOp → ℕ → Memory → Memory
copied_memory op buf m = if op.is_delete then m else copy_iov buf op.iov m

-- A write that is not empty, as it runs.
copy_write_run :
    (alloc : ℕ → ℕ × ℕ) (op : ClusterOp) (state : CacheState) (flush_id : ℕ) (cache : Cache)
    (m : Memory) (free : Cursor × Counters) (d : Counters)
    → 0 < op.len
    → cut op.inode op.offset
        (op.offset + op.len)
        (find_dirty op.inode op.offset cache.dirty_buffers).before
        (find_dirty op.inode op.offset cache.dirty_buffers).after
        cache.counters
      ≡ some free
    → queue_buffer free.0.before
        (new_buffer op state flush_id (alloc op.len).0 (alloc op.len).1)
        free.0.after
        (counted_ref op (alloc op.len).0 free.1)
      ≡ some d
    → copy_write alloc op state flush_id cache m
      ≡ some (
        record {
          dirty_buffers =
              rewind free.0.before
                (new_buffer op state flush_id (alloc op.len).0 (alloc op.len).1 ∷ free.0.after);
          counters = d;
        },
        copied_memory op (alloc op.len).1 m,
      )
unfolding copy_write
copy_write_run alloc op state flush_id cache m free d pos h k =
    let some_len : (op.len == 0) ≡ false = ground (arith, pos) in rw (some_len, h, k) refl

pub copy_write_lem :
    (alloc : ℕ → ℕ × ℕ) (op : ClusterOp) (state : CacheState) (flush_id : ℕ) (cache : Cache)
    (m : Memory)
    → IsValid cache
    → 0 < op.len
    → dirty_bytes cache.dirty_buffers + op.len < 2 ^ 64
    → (cache' : Cache) × (copy_write alloc op state flush_id cache m
        ≡ some (cache', copied_memory op (alloc op.len).1 m))
      × IsCopied op state flush_id (alloc op.len) cache cache'
copy_write_lem alloc op state flush_id cache m v pos room =
    let e = new_buffer op state flush_id (alloc op.len).0 (alloc op.len).1 in
    let found = find_dirty-IsFound cache.dirty_buffers op.inode op.offset v.sorted in
    let start = find_dirty op.inode op.offset cache.dirty_buffers in
    let (free, cuts, is_cut) =
      cut-IsCut op.len op.inode op.offset (op.offset + op.len) start.before start.after
        cache.counters (omega (arith, pos)) found.place found.before found.after
        (IsCounted-start op.len cache start.before start.after found.whole v room) in
    let front = IsSorted-Behind (head free.0.before) e free.0.after is_cut.place.1 is_cut.begins in
    let here : IsPlace free.0.before (e ∷ free.0.after) =
      (is_cut.place.0, (pos, is_cut.ends, front)) in
    let (d, queued, counted) =
      queue_buffer-IsCounted free.0.before e free.0.after (counted_ref op (alloc op.len).0 free.1)
        pos is_cut.ends front
        (IsCounted-counted_ref op.len free.0.before free.0.after op (alloc op.len).0 free.1
          is_cut.counted) in
    (
      record { dirty_buffers = rewind free.0.before (e ∷ free.0.after); counters = d },
      copy_write_run alloc op state flush_id cache m free d pos cuts queued,
      record {
        valid = rewind-IsValid free.0.before e free.0.after d here counted;
        inside = λ x lo hi. cell-inside free.0.before e free.0.after x here lo hi;
        outside = λ i x o.
            cell-Outside free.0.before e free.0.after i x here o
            ∙ is_cut.cells i x o
            ∙ sym (cell_at-rewind i x start.before start.after found.place)
            ∙ ap (cell_at i x) found.whole;
      },
    )

pub Outside-of_test :
    (inode off new_end i x : ℕ)
    → (i == inode && leb off x && ltb x new_end) ≡ false
    → Outside inode off new_end i x
Outside-of_test inode off new_end i x h = elim (ℕ_discrete i inode) [
  | no n ↦ inl n
  | yes e ↦ elim (dec_lt x off) [ yes l ↦ inr (inl l) | no r ↦ inr (inr (ground (arith, h, e, r))) ]
]

-- A write of any length, also of length zero, passes all assertions and keeps the cache valid, and a
-- position then holds the new buffer if it is in the write's range, and what it held before if not.
-- The bytes to be written back with those of the write number less than 2 ^ 64.
pub copy_write-cell :
    (alloc : ℕ → ℕ × ℕ) (op : ClusterOp) (state : CacheState) (flush_id : ℕ) (cache : Cache)
    (m : Memory) (i x : ℕ)
    → IsValid cache
    → dirty_bytes cache.dirty_buffers + op.len < 2 ^ 64
    → (cache' : Cache) × (m' : Memory) × (copy_write alloc op state flush_id cache m
        ≡ some (cache', m'))
      × IsValid cache'
      × (cell_at i x cache'.dirty_buffers ≡ (
          if i == op.inode && leb op.offset x && ltb x (op.offset + op.len)
          then some (new_cell op state flush_id (alloc op.len) x)
          else cell_at i x cache.dirty_buffers))
copy_write-cell alloc op state flush_id cache m i x v room = elim (Bool-cases (op.len == 0)) [
  | inl none_len ↦
      let run : copy_write alloc op state flush_id cache m ≡ some (cache, m) =
        unfold copy_write in rw none_len refl in
      let away : (i == op.inode && leb op.offset x && ltb x (op.offset + op.len)) ≡ false =
        ground (arith, none_len) in
      (cache, m, run, v, rw away refl)
  | inr some_len ↦
      let (cache', run, copied) =
        copy_write_lem alloc op state flush_id cache m v (ground (arith, some_len)) room in
      (
        cache',
        _,
        run,
        copied.valid,
        elim (Bool-cases (i == op.inode && leb op.offset x && ltb x (op.offset + op.len))) [
          | inl y ↦
              let same : i ≡ op.inode = ground (arith, y) in
              rw y (rw same (copied.inside x (ground (arith, y)) (ground (arith, y))))
          | inr n ↦
              rw n
                (copied.outside i x (Outside-of_test op.inode op.offset (op.offset + op.len) i x n))
        ],
      )
]
