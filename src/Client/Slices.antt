-- ===== src/Client/Slices.antt =====
-- src/client/cluster_client.cpp: `slice_rw`, `add_iov`, `affects_pg` and `affects_osd`. The buffers of
-- an operation are numbered byte by byte in a row.
use vitastor.Base.{
  ℕ, zero, suc, ◌+◌, ◌-◌, ◌*◌, ◌/◌, ◌%◌, ◌^◌, Bool, true, false, not, ◌&&◌, ◌||◌, List, [], ◌∷◌,
  ◌++◌, Option, none, some, ltb, leb, ◌==◌, ◌!=◌, if◌then◌else◌,
}
use vitastor.Base.Words.{add64, sub64, mul32, u32_mod}
use vitastor.Memory.{Memory}
use vitastor.Client.{osd_op_delete}

-- `OSD_OP_READ`, `OSD_OP_READ_BITMAP`, `OSD_OP_READ_CHAIN_BITMAP`
abbrev pub osd_op_read : ℕ
osd_op_read = 11

abbrev pub osd_op_read_bitmap : ℕ
osd_op_read_bitmap = 16

abbrev pub osd_op_read_chain_bitmap : ℕ
osd_op_read_chain_bitmap = 0x102

-- `pool_config_t`, as far as the slicing reads it; `pg_config` gives the primary of each placement group.
pub record PoolConfig : Type 0 where
  pub replicated : Bool
  pub pg_size : ℕ
  pub parity_chunks : ℕ
  pub data_block_size : ℕ
  pub bitmap_granularity : ℕ
  pub real_pg_count : ℕ
  pub pg_stripe_size : ℕ
  pub pg_config : List (ℕ × ℕ)

-- `pg_block_size`. Both factors have 32 bits, and so has the product.
unfoldable pub pg_block_size : PoolConfig → ℕ
pg_block_size pool_cfg =
    mul32 pool_cfg.data_block_size
      (if pool_cfg.replicated then 1 else sub64 pool_cfg.pg_size pool_cfg.parity_chunks % u32_mod)

unfoldable pub first_stripe : PoolConfig → ℕ → ℕ
first_stripe pool_cfg offset = offset / pg_block_size pool_cfg * pg_block_size pool_cfg

unfoldable pub last_stripe : PoolConfig → ℕ → ℕ → ℕ
last_stripe pool_cfg offset len =
    if ltb 0 len
    then sub64 (add64 offset len) 1 / pg_block_size pool_cfg * pg_block_size pool_cfg
    else first_stripe pool_cfg offset

-- The placement group of a stripe
unfoldable pub map_to_pg : PoolConfig → ℕ → ℕ
map_to_pg pool_cfg stripe =
    (stripe / pool_cfg.pg_stripe_size % pool_cfg.real_pg_count + 1) % u32_mod

-- An operation, as far as it is sliced.
pub record Request : Type 0 where
  pub opcode : ℕ
  pub inode : ℕ
  pub cur_inode : ℕ
  pub offset : ℕ
  pub len : ℕ

-- One buffer of a part: bytes of the operation's buffers, or of the buffer for bytes not wanted.
pub data Piece : Type 0 where
  user : ℕ → ℕ → Piece
  scrap : ℕ → Piece

-- `cluster_op_part_t`. `done` is the flags `PART_SENT|PART_DONE`.
pub record Part : Type 0 where
  pub offset : ℕ
  pub len : ℕ
  pub pg_num : ℕ
  pub done : Bool
  pub iov : List Piece

-- `add_iov`, from a position in the operation's buffers: the next position and the buffers.
unfoldable pub add_iov : ℕ → Bool → ℕ → List Piece → ℕ → ℕ × List Piece
add_iov size skip pos iov scrap_len = (
  pos + size,
  if size == 0
      then iov
      else if not skip
      then iov ++ user pos size ∷ []
      else if ltb 0 scrap_len
      then iov ++ scrap size ∷ []
      else iov,
)

-- Where `slice_rw` stands in a part of which some bytes are there already.
pub record Trim : Type 0 where
  pub begin : ℕ
  pub prev : ℕ
  pub skip_prev : Bool
  pub pos : ℕ
  pub iov : List Piece

-- The bit of the bitmap for a position of the image
unfoldable pub is_present : PoolConfig → Request → ℕ → Memory → ℕ → Bool
is_present pool_cfg op bitmap_buf m cur =
    let bmp_loc = sub64 cur op.offset / pool_cfg.bitmap_granularity % u32_mod in
    m (bitmap_buf + bmp_loc / 8) / 2 ^ (bmp_loc % 8) % 2 == 1

-- The branch for `skip_prev != skip`
unfoldable pub turn : ℕ → Bool → ℕ → Trim → Trim
turn scrap_len skip cur t =
    if ltb t.prev cur
    then if t.prev == t.begin && t.skip_prev
      then (let r = add_iov (cur - t.prev) true t.pos t.iov 0 in
          record { begin = cur; prev = cur; skip_prev = skip; pos = r.0; iov = r.1 })
      else (let r = add_iov (cur - t.prev) t.skip_prev t.pos t.iov scrap_len in
          record { begin = t.begin; prev = cur; skip_prev = skip; pos = r.0; iov = r.1 })
    else record t { prev = cur; skip_prev = skip }

-- One round of the loop over the granules
unfoldable pub trim_step : (ℕ → Bool) → ℕ → ℕ → Trim → Trim
trim_step present scrap_len cur t =
    if t.skip_prev && present cur || not t.skip_prev && not (present cur)
    then t
    else turn scrap_len (present cur) cur t

-- The loop, with the position where it stops. As many rounds as there are bytes are enough.
unfoldable pub trim_loop : (ℕ → Bool) → ℕ → ℕ → ℕ → ℕ → ℕ → Trim → Trim × ℕ
trim_loop present granularity scrap_len zero cur end t = (t, cur)
trim_loop present granularity scrap_len (suc n) cur end t =
    let rest =
      trim_loop present granularity scrap_len n (cur + granularity) end
        (trim_step present scrap_len cur t) in
    if ltb cur end then rest else (t, cur)

-- What follows the loop
unfoldable pub trim_end : ℕ → ℕ → Trim → ℕ → ℕ × ℕ × ℕ × List Piece
trim_end scrap_len end t cur =
    if t.skip_prev
    then (let r = add_iov (end - t.prev) true t.pos t.iov 0 in (t.begin, t.prev, r.0, r.1))
    else let r = add_iov (cur - t.prev) t.skip_prev t.pos t.iov scrap_len in
      (t.begin, end, r.0, r.1)

-- The part of a stripe between `begin` and `end`, without what is there at both ends: the new bounds,
-- the position in the operation's buffers and the part's buffers.
unfoldable pub trim_part : (ℕ → Bool) → ℕ → ℕ → ℕ → ℕ → ℕ → ℕ × ℕ × ℕ × List Piece
trim_part present granularity scrap_len begin end pos =
    let start : Trim = record {
      begin = begin;
      prev = begin;
      skip_prev = true;
      pos = pos;
      iov = [];
    } in
    let (t, cur) = trim_loop present granularity scrap_len (end - begin) begin end start in
    trim_end scrap_len end t cur

-- `op->opcode != OSD_OP_READ_CHAIN_BITMAP && op->cur_inode != op->inode ||
-- op->opcode == OSD_OP_READ && dirty_copied`
abbrev pub is_partial : Request → Bool → Bool
is_partial op dirty_copied =
    op.opcode != osd_op_read_chain_bitmap && op.cur_inode != op.inode
    || op.opcode == osd_op_read && dirty_copied

-- The operation carries no bytes.
abbrev pub is_bare : Request → Bool
is_bare op =
    op.opcode == osd_op_read_bitmap
    || op.opcode == osd_op_read_chain_bitmap
    || op.opcode == osd_op_delete

-- The bounds and the buffers of the part of one stripe, and the next position in the buffers.
unfoldable pub slice_part : Request → (ℕ → Bool) → ℕ → ℕ → Bool → ℕ → ℕ → ℕ → ℕ × ℕ × ℕ × List Piece
slice_part op present granularity scrap_len dirty_copied begin end pos =
    if is_partial op dirty_copied
    then trim_part present granularity scrap_len begin end pos
    else if not (is_bare op)
    then (let r = add_iov (end - begin) false pos [] 0 in (begin, end, r.0, r.1))
    else (begin, end, pos, [])

unfoldable pub stripe_begin : Request → ℕ → ℕ
stripe_begin op stripe = if ltb op.offset stripe then stripe else op.offset

unfoldable pub stripe_end : PoolConfig → Request → ℕ → ℕ
stripe_end pool_cfg op stripe =
    if ltb (add64 stripe (pg_block_size pool_cfg)) (add64 op.offset op.len)
    then add64 stripe (pg_block_size pool_cfg)
    else add64 op.offset op.len

-- What `slice_rw` fills in for a stripe
unfoldable pub make_part : PoolConfig → Request → Bool → ℕ → ℕ × ℕ × ℕ × List Piece → Part
make_part pool_cfg op dirty_copied stripe (begin, end, next, iov) = record {
  offset = begin;
  len = if is_bare op then 0 else (end - begin) % u32_mod;
  pg_num = map_to_pg pool_cfg stripe;
  done = is_partial op dirty_copied && end == begin;
  iov = iov;
}

-- The loop of `slice_rw`, a round for each element of `parts`.
unfoldable pub slice_from : PoolConfig → Request → (ℕ → Bool) → ℕ → Bool → ℕ → ℕ → ℕ → List Part
slice_from pool_cfg op present scrap_len dirty_copied zero stripe pos = []
slice_from pool_cfg op present scrap_len dirty_copied (suc n) stripe pos =
    let r =
      slice_part op present pool_cfg.bitmap_granularity scrap_len dirty_copied
        (stripe_begin op stripe) (stripe_end pool_cfg op stripe) pos in
    let rest =
      slice_from pool_cfg op present scrap_len dirty_copied n
        (add64 stripe (pg_block_size pool_cfg)) r.2 in
    if leb stripe (last_stripe pool_cfg op.offset op.len)
    then make_part pool_cfg op dirty_copied stripe r ∷ rest
    else []

-- `slice_rw`, once the bitmap is filled in
unfoldable pub slice_rw : PoolConfig → Request → ℕ → Memory → ℕ → Bool → List Part
slice_rw pool_cfg op bitmap_buf m scrap_len dirty_copied =
    let first = first_stripe pool_cfg op.offset in
    let last = last_stripe pool_cfg op.offset op.len in
    slice_from pool_cfg op (is_present pool_cfg op bitmap_buf m) scrap_len dirty_copied
      ((last - first) / pg_block_size pool_cfg + 1) first 0

-- `affects_pg`
unfoldable pub affects_pg : PoolConfig → ℕ → ℕ → ℕ → ℕ → ℕ → Bool
affects_pg pool_cfg inode offset len pool_id pg_num =
    let first = first_stripe pool_cfg offset in
    let last = last_stripe pool_cfg offset len in
    let first_pg_num = map_to_pg pool_cfg first in
    let last_pg_num = map_to_pg pool_cfg last in
    if inode / 2 ^ 48 != pool_id
    then false
    else if leb pool_cfg.real_pg_count
        (last / pool_cfg.pg_stripe_size - first / pool_cfg.pg_stripe_size + 1)
    then true
    else if leb first_pg_num last_pg_num
    then leb first_pg_num pg_num && leb pg_num last_pg_num
    else leb first_pg_num pg_num || leb pg_num last_pg_num

-- `pg_config.find`
unfoldable pub find_primary : ℕ → List (ℕ × ℕ) → Option ℕ
find_primary pg_num [] = none
find_primary pg_num ((num, primary) ∷ pgs) =
    if num == pg_num then some primary else find_primary pg_num pgs

abbrev pub is_some_eq : Option ℕ → ℕ → Bool
is_some_eq none osd = false
is_some_eq (some primary) osd = primary == osd

-- The loop of `affects_osd`. A round for each stripe is enough.
unfoldable pub affects_osd_from : PoolConfig → ℕ → ℕ → ℕ → ℕ → Bool
affects_osd_from pool_cfg zero stripe last osd = false
affects_osd_from pool_cfg (suc n) stripe last osd =
    let rest = affects_osd_from pool_cfg n (add64 stripe (pg_block_size pool_cfg)) last osd in
    if leb stripe last
    then (if is_some_eq (find_primary (map_to_pg pool_cfg stripe) pool_cfg.pg_config) osd
        then true
        else rest)
    else false

-- `affects_osd`
unfoldable pub affects_osd : PoolConfig → ℕ → ℕ → ℕ → Bool
affects_osd pool_cfg offset len osd =
    let first = first_stripe pool_cfg offset in
    let last = last_stripe pool_cfg offset len in
    affects_osd_from pool_cfg ((last - first) / pg_block_size pool_cfg + 1) first last osd
