-- ===== src/Tests/Buffers.antt =====
-- src/client/cluster_client_wb.cpp: a cache with one dirty buffer, which a write cuts in two.
use vitastor.Base.{
  List, ℕ, ◌+◌, ◌<◌, ◌≡◌, ◌^◌, bit_and, refl, Bool, true, false, arith, inr, [], ◌∷◌, Option, none,
  some, if◌then◌else◌, ◌==◌,
}
use vitastor.Memory.{Memory, memcpy, write, fill}
use vitastor.Cache.{Counters, dirty, repeating, Buffer, lower_bound, walk_back, find_dirty}
use vitastor.Cache.Cells.{cell_at}
use vitastor.Cache.Sums.{dirty_bytes, runs}
use vitastor.Cache.Write.{ClusterOp, Cache, copy_write}
use vitastor.Cache.Insert.{IsValid, new_cell, copy_write-cell}
use vitastor.Cache.Content.{iov_len, image, new_byte, copy_write-image}
use vitastor.Cache.Repeat.{
  repeat_ops_for, written_range, deleted_range, mixed_op, repeat_ops_for-mixed_op,
}
use vitastor.Cache.Deletions.{no_counters, no_buffers, start_writebacks-delete}
use vitastor.Cache.Read.{
  ReadOp, copy_ranges, mark_bits, copy_to_op, copy_part, is_filled, scan, read_buffer, read_buffers,
  read_from_cache,
}
use vitastor.Cache.Flush.{FlushOp, start_writebacks, finish_flush}
use vitastor.Cache.Finish.{finish_flush-buffer_at}
use vitastor.Cache.Settle.{buffer_at}
use vitastor.Cache.Sync.{started, synced, fsync_ok-copy_write}

-- Eight bytes at 4096, written at the position 16 of the inode 1.
abbrev eight_bytes : Buffer
eight_bytes = record {
  inode = 1;
  stripe = 16;
  buf = some 4096;
  len = 8;
  state = dirty;
  flush_id = 0;
  refcnt = 1;
}

abbrev one_dirty : Cache
one_dirty = record {
  dirty_buffers = eight_bytes ∷ [];
  counters = record no_counters {
    writeback_bytes = 8;
    writeback_queue_size = 1;
    writeback_queue = (1, 16) ∷ [];
    refs = λ p. if p == 1 then 1 else 0;
  };
}

one_dirty-IsValid : IsValid one_dirty
unfolding dirty_bytes runs
one_dirty-IsValid = record { sorted = omega arith; bytes = refl; small = omega arith; queue = refl }

abbrev two_bytes : ClusterOp
two_bytes = record { is_delete = false; inode = 1; offset = 18; len = 2; iov = (512, 2) ∷ [] }

abbrev alloc : ℕ → ℕ × ℕ
alloc n = (2, 8192)

-- The byte at each address is the address modulo 256.
abbrev bytes : Memory
bytes a = bit_and a 255

abbrev deletion : ClusterOp
deletion = record { is_delete = true; inode = 1; offset = 16; len = 8; iov = [] }

room_left : dirty_bytes one_dirty.dirty_buffers + 2 < 2 ^ 64
unfolding dirty_bytes
room_left = omega arith

copy_write-cell_example :
    (cache' : Cache) × (m' : Memory) × (copy_write alloc two_bytes dirty 0 one_dirty bytes
      ≡ some (cache', m'))
    × IsValid cache'
    × (cell_at 1 19 cache'.dirty_buffers ≡ some (new_cell two_bytes dirty 0 (2, 8192) 19))
copy_write-cell_example =
    copy_write-cell alloc two_bytes dirty 0 one_dirty bytes 1 19 one_dirty-IsValid room_left

copy_write-image_example :
    (cache' : Cache) × (m' : Memory) × (copy_write alloc two_bytes dirty 0 one_dirty bytes
      ≡ some (cache', m'))
    × (image cache' m' 1 19 ≡ some (new_byte two_bytes bytes 19))
copy_write-image_example =
    copy_write-image alloc two_bytes dirty 0 one_dirty bytes 1 19 one_dirty-IsValid room_left
      (omega arith) (inr (omega arith))

fsync_ok-copy_write_example :
    (cache' : Cache) × (m' : Memory) × (copy_write alloc two_bytes dirty 0 (started one_dirty) bytes
      ≡ some (cache', m'))
    × IsValid (synced cache')
    × (cell_at 1 19 (synced cache').dirty_buffers ≡ some (new_cell two_bytes dirty 0 (2, 8192) 19))
fsync_ok-copy_write_example =
    fsync_ok-copy_write alloc two_bytes dirty 0 one_dirty bytes 1 19 one_dirty-IsValid refl
      room_left

start_writebacks-delete_example :
    (cache : Cache) × (copy_write alloc deletion dirty 0 no_buffers bytes ≡ some (cache, bytes))
    × (start_writebacks 1 cache ≡ none)
start_writebacks-delete_example =
    start_writebacks-delete alloc 1 deletion 0 bytes refl (omega arith) (omega arith)

-- The buffer once it was sent, and the operation that sends it.
abbrev one_repeating : Cache
one_repeating = record {
  dirty_buffers = record eight_bytes { state = repeating; flush_id = 1 } ∷ [];
  counters = record no_counters {
    writebacks_active = 1;
    last_flush_id = 1;
    flushed_buffers = (1, 1) ∷ [];
    refs = λ p. if p == 1 then 2 else 0;
  };
}

one_repeating-IsValid : IsValid one_repeating
unfolding dirty_bytes runs
one_repeating-IsValid = record {
  sorted = omega arith;
  bytes = refl;
  small = omega arith;
  queue = refl;
}

abbrev flush : FlushOp
flush = record {
  is_delete = false;
  inode = 1;
  offset = 16;
  len = 8;
  iov = (4096, 8) ∷ [];
  flush_id = 1;
  is_writeback = true;
}

finish_flush-buffer_at_example :
    (cache' : Cache) × (finish_flush flush 8 true one_repeating ≡ some cache')
    × IsValid cache'
    × (buffer_at 1 20 cache'.dirty_buffers ≡ none)
unfolding buffer_at
finish_flush-buffer_at_example =
    finish_flush-buffer_at flush true one_repeating 1 20 one_repeating-IsValid

-- A read of the eight bytes into the address 256, whose bitmap at 128 has the second half filled.
abbrev read_eight : ReadOp
read_eight = record {
  is_data = true;
  cur_inode = 1;
  offset = 16;
  len = 8;
  iov = (256, 8) ∷ [];
  bitmap_buf = 128;
}

abbrev bitmap_is : ℕ → Memory
bitmap_is b a = if a == 128 then b else bit_and a 255

abbrev answer : Option (Bool × Memory) → Option (Bool × ℕ × ℕ × ℕ)
answer none = none
answer (some (copied, m)) = some (copied, m 256, m 260, m 128)

-- With nothing filled the read gets all bytes of the buffer, here 4096 modulo 256 and so on.
read_all :
    answer (read_from_cache read_eight 4 (eight_bytes ∷ []) (bitmap_is 0)) ≡ some (true, 0, 4, 3)
unfolding read_from_cache read_buffers read_buffer scan is_filled copy_part copy_to_op copy_ranges
    mark_bits memcpy fill write find_dirty lower_bound walk_back
read_all = refl

-- With the first half filled the read gets the filled half again, over what was there, too.
read_filled_again :
    answer (read_from_cache read_eight 4 (eight_bytes ∷ []) (bitmap_is 1)) ≡ some (true, 0, 4, 3)
unfolding read_from_cache read_buffers read_buffer scan is_filled copy_part copy_to_op copy_ranges
    mark_bits memcpy fill write find_dirty lower_bound walk_back
read_filled_again = refl

-- With the second half filled the read gets nothing, though the first half is in the cache only.
read_nothing :
    answer (read_from_cache read_eight 4 (eight_bytes ∷ []) (bitmap_is 2)) ≡ some (false, 0, 4, 2)
unfolding read_from_cache read_buffers read_buffer scan is_filled copy_part copy_to_op copy_ranges
    mark_bits memcpy fill write find_dirty lower_bound walk_back
read_nothing = refl

repeat_ops_for-mixed_op_example :
    (es : List Buffer) × (d : Counters) × (repeat_ops_for
        (λ i off n. true)
        (written_range 1 16 4096 8 1 ∷ deleted_range 1 24 8 ∷ [])
        no_counters
      ≡ some (es, d, mixed_op 1 16 4096 8 8 1 ∷ []))
    × (iov_len (mixed_op 1 16 4096 8 8 1).iov ≡ 8)
repeat_ops_for-mixed_op_example =
    repeat_ops_for-mixed_op (λ i off n. true) 1 16 4096 8 8 1 no_counters refl refl (omega arith)
