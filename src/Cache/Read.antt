-- ===== src/Cache/Read.antt =====
-- src/client/cluster_client_wb.cpp: `copy_to_op` and `read_from_cache`. `none` is a failed assertion.
use vitastor.Base.{
  ℕ, zero, suc, ◌+◌, ◌-◌, ◌/◌, ◌%◌, ◌^◌, bit_or, Bool, true, false, not, ◌&&◌, List, [], ◌∷◌,
  Option, none, some, ltb, leb, ◌==◌, if◌then◌else◌, ◌>>=◌, max, min,
}
use vitastor.Memory.{Memory, memcpy, fill, write}
use vitastor.Cache.{Buffer, end_of, find_dirty, same_bool}

-- `cluster_op_t`, the fields that a read uses. `is_data` tells OSD_OP_READ from the reads of bitmaps.
pub record ReadOp : Type 0 where
  pub is_data : Bool
  pub cur_inode : ℕ
  pub offset : ℕ
  pub len : ℕ
  pub iov : List (ℕ × ℕ)
  pub bitmap_buf : ℕ

-- The two loops over the vector of `copy_to_op`, the first of which passes over ranges that end
-- before `offset`.
unfoldable pub copy_ranges : ℕ → ℕ → Option ℕ → ℕ → List (ℕ × ℕ) → Memory → Memory
copy_ranges cur_offset offset buf len [] m = m
copy_ranges cur_offset offset buf len ((base, n) ∷ iov) m =
    let begin = max cur_offset offset in
    let end = min (cur_offset + n) (offset + len) in
    let dest = base + begin - cur_offset in
    let copied : Memory = elim buf [
      | none ↦ fill (end - begin) dest 0 m
      | some a ↦ memcpy dest (a + (cur_offset - offset)) (end - begin) m
    ] in
    let passed = copy_ranges (cur_offset + n) offset buf len iov m in
    let next = copy_ranges (cur_offset + n) offset buf len iov copied in
    if leb (cur_offset + n) offset
    then passed
    else if ltb cur_offset (offset + len)
    then next
    else m

-- The last loop of `copy_to_op`. A round for each bit is enough.
unfoldable pub mark_bits : ℕ → ℕ → ℕ → ℕ → Memory → Memory
mark_bits zero bit end_bit bitmap m = m
mark_bits (suc fuel) bit end_bit bitmap m =
    let byte = bitmap + bit / 8 in
    let whole = bit % 8 == 0 && leb (bit + 8) end_bit in
    let v = if whole then 255 else bit_or (m byte) (2 ^ (bit % 8)) in
    let rest = mark_bits fuel (bit + (if whole then 8 else 1)) end_bit bitmap (write byte v m) in
    if ltb bit end_bit then rest else m

-- `copy_to_op`
unfoldable pub copy_to_op : ReadOp → ℕ → Option ℕ → ℕ → ℕ → Memory → Memory
copy_to_op op offset buf len bitmap_granularity m =
    let start_bit = (offset - op.offset) / bitmap_granularity in
    let end_bit = (offset - op.offset + len) / bitmap_granularity in
    let read = if op.is_data then copy_ranges op.offset offset buf len op.iov m else m in
    elim buf [
      | none ↦ read
      | some a ↦ mark_bits (end_bit - start_bit) start_bit end_bit op.bitmap_buf read
    ]

-- The variables of the inner loop of `read_from_cache`.
pub record Scan : Type 0 where
  pub cur : ℕ
  pub prev : ℕ
  pub skip_prev : Bool
  pub copied : Bool
  pub memory : Memory

-- The call of `copy_to_op` for the part of a buffer from `prev` to `cur`.
unfoldable pub copy_part : ReadOp → ℕ → Buffer → Scan → Scan
copy_part op bitmap_granularity e s = record s {
  copied = true;
  memory =
      copy_to_op op s.prev (elim e.buf [ none ↦ none | some a ↦ some (a + s.prev - e.stripe) ])
        (s.cur - s.prev) bitmap_granularity s.memory;
}

-- `skip`, the bit of the position `cur`
unfoldable pub is_filled : ReadOp → ℕ → ℕ → Memory → Bool
is_filled op bitmap_granularity cur m =
    let bmp_loc = (cur - op.offset) / bitmap_granularity in
    m (op.bitmap_buf + bmp_loc / 8) / 2 ^ (bmp_loc % 8) % 2 == 1

-- The inner loop. A round for each byte is enough, as the granularity is not zero.
unfoldable pub scan : ℕ → ReadOp → ℕ → Buffer → ℕ → Scan → Scan
scan zero op bitmap_granularity e end s = s
scan (suc fuel) op bitmap_granularity e end s =
    let skip = is_filled op bitmap_granularity s.cur s.memory in
    let t =
      if same_bool s.skip_prev skip
      then s
      else (let u =
            if ltb s.prev s.cur && not skip then copy_part op bitmap_granularity e s else s in
          record u { skip_prev = skip; prev = s.cur }) in
    let rest =
      scan fuel op bitmap_granularity e end (record t { cur = s.cur + bitmap_granularity }) in
    if ltb s.cur end then rest else s

-- One buffer of the outer loop, with the result `dirty_copied` and the memory so far.
unfoldable pub read_buffer : ReadOp → ℕ → Buffer → Bool → Memory → Option (Bool × Memory)
read_buffer op bitmap_granularity e copied m =
    let begin = max e.stripe op.offset in
    let end = min (end_of e) (op.offset + op.len) in
    let s =
      scan (end - begin) op bitmap_granularity e end
        (record { cur = begin; prev = begin; skip_prev = true; copied = copied; memory = m }) in
    let t = if s.skip_prev then s else copy_part op bitmap_granularity e s in
    if ltb s.prev s.cur then some (t.copied, t.memory) else none

-- The outer loop of `read_from_cache`
unfoldable pub read_buffers : ReadOp → ℕ → List Buffer → Bool → Memory → Option (Bool × Memory)
read_buffers op bitmap_granularity [] copied m = some (copied, m)
read_buffers op bitmap_granularity (e ∷ es) copied m =
    if e.inode == op.cur_inode && ltb e.stripe (op.offset + op.len)
    then (read_buffer op bitmap_granularity e copied m >>= λ r.
        read_buffers op bitmap_granularity es r.0 r.1)
    else some (copied, m)

-- `read_from_cache` for an operation that reads.
unfoldable pub read_from_cache : ReadOp → ℕ → List Buffer → Memory → Option (Bool × Memory)
read_from_cache op bitmap_granularity es m =
    read_buffers op bitmap_granularity (find_dirty op.cur_inode op.offset es).after false m
