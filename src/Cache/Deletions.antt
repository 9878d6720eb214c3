-- ===== src/Cache/Deletions.antt =====
-- src/client/cluster_client_wb.cpp: the writeback of a deleted range.
use vitastor.Base.{
  ℕ, ◌+◌, ◌-◌, ◌^◌, ◌<◌, ◌≡◌, refl, true, false, [], ◌∷◌, none, some, ltb, ◌==◌, ◌||◌, arith,
}
use vitastor.Memory.{Memory}
use vitastor.Base.Words.{sub64}
use vitastor.Cache.{
  dirty, Counters, Buffer, lower_bound, walk_back, find_dirty, rewind, is_left_merged,
  is_right_merged,
}
use vitastor.Cache.Write.{ClusterOp, Cache, copy_write, cut, queue_buffer, less_queued, more_queued}
use vitastor.Cache.Flush.{start_writebacks, write_queue, write_back, run_front, run_back, uncount}

abbrev pub no_counters : Counters
no_counters = record {
  writeback_bytes = 0;
  writeback_queue_size = 0;
  writebacks_active = 0;
  last_flush_id = 0;
  writeback_queue = [];
  flushed_buffers = [];
  refs = λ p. 0;
  freed = [];
}

abbrev pub no_buffers : Cache
no_buffers = record { dirty_buffers = []; counters = no_counters }

abbrev deleted : ClusterOp → ℕ → ℕ → Buffer
deleted op flush_id refcnt = record {
  inode = op.inode;
  stripe = op.offset;
  buf = none;
  len = op.len;
  state = dirty;
  flush_id = flush_id;
  refcnt = refcnt;
}

-- The cache that has the deletion alone.
abbrev pub one_deletion : ClusterOp → ℕ → ℕ → Cache
one_deletion op flush_id refcnt = record {
  dirty_buffers = deleted op flush_id refcnt ∷ [];
  counters = record no_counters {
    writeback_queue_size = 1;
    writeback_queue = (op.inode, op.offset) ∷ [];
  };
}

copy_write-delete :
    (alloc : ℕ → ℕ × ℕ) (op : ClusterOp) (flush_id : ℕ) (m : Memory)
    → op.is_delete ≡ true
    → 0 < op.len
    → copy_write alloc op dirty flush_id no_buffers m
      ≡ some (one_deletion op flush_id (alloc op.len).0, m)
unfolding copy_write find_dirty lower_bound walk_back cut queue_buffer is_left_merged
    is_right_merged more_queued less_queued rewind
copy_write-delete alloc op flush_id m d pos =
    let full : (op.len == 0) ≡ false = ground (arith, pos) in rw (full, d) refl

place_of_one :
    (inode off : ℕ) (e : Buffer)
    → e.inode ≡ inode
    → e.stripe ≡ off
    → ((find_dirty inode off (e ∷ [])).before ≡ [])
      × ((find_dirty inode off (e ∷ [])).after ≡ e ∷ [])
unfolding find_dirty lower_bound walk_back
place_of_one inode off e i o = (ground (arith, i, o), ground (arith, i, o))

write_back-delete :
    (op : ClusterOp) (flush_id refcnt : ℕ) (c : Counters)
    → 0 < op.len
    → op.len < 2 ^ 64
    → c.writeback_bytes ≡ 0
    → c.writeback_queue_size ≡ 1
    → write_back [] (deleted op flush_id refcnt) [] c ≡ none
unfolding write_back run_front run_back uncount
write_back-delete op flush_id refcnt c pos small b q =
    let wrapped : (sub64 c.writeback_bytes (op.offset + op.len - op.offset) == 0) ≡ false =
      ground (arith, pos, small, b) in
    rw (q, wrapped) refl

write_queue-delete :
    (count : ℕ) (op : ClusterOp) (flush_id refcnt : ℕ)
    → 0 < op.len
    → op.len < 2 ^ 64
    → start_writebacks count (one_deletion op flush_id refcnt) ≡ none
unfolding start_writebacks write_queue
write_queue-delete count op flush_id refcnt pos small =
    let e = deleted op flush_id refcnt in
    let place = place_of_one op.inode op.offset e refl refl in
    let c = record no_counters { writeback_queue_size = 1 } in
    let fails = write_back-delete op flush_id refcnt c pos small refl refl in
    let first : (count == 0 || ltb 0 count) ≡ true = ground arith in
    let here : (op.inode == op.inode) ≡ true = ground arith in
    rw (first, place.1, place.0, here, fails) refl

-- A deletion with write-back that is not empty, the only buffer of the cache, is taken, and then
-- `start_writebacks` fails on an assertion, with any count: the length is taken from
-- `writeback_bytes`, to which a deletion does not add it.
pub start_writebacks-delete :
    (alloc : ℕ → ℕ × ℕ) (count : ℕ) (op : ClusterOp) (flush_id : ℕ) (m : Memory)
    → op.is_delete ≡ true
    → 0 < op.len
    → op.len < 2 ^ 64
    → (cache : Cache) × (copy_write alloc op dirty flush_id no_buffers m ≡ some (cache, m))
      × (start_writebacks count cache ≡ none)
start_writebacks-delete alloc count op flush_id m d pos small = (
  one_deletion op flush_id (alloc op.len).0,
  copy_write-delete alloc op flush_id m d pos,
  write_queue-delete count op flush_id (alloc op.len).0 pos small,
)
