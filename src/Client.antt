-- ===== src/Client.antt =====
-- src/client/cluster_client.cpp: the queue of the client's operations. An operation waits while an
-- earlier one that it may not overtake is in the queue. `none` is a failed assertion.
pub mod Counts
pub mod Erasure
pub mod Arrival
pub mod Drain
pub mod Slices
pub mod Stripes
pub mod Pieces
pub mod Trimming
pub mod Coverage
pub mod Affected
use vitastor.Base.{
  ℕ, zero, suc, ◌+◌, bit_and, Bool, true, false, not, ◌&&◌, ◌||◌, List, [], ◌∷◌, ◌++◌, Option, none,
  some, ◌==◌, ◌!=◌, if◌then◌else◌, ◌>>=◌,
}

-- `OSD_OP_WRITE`, `OSD_OP_SYNC`, `OSD_OP_DELETE`
abbrev pub osd_op_write : ℕ
osd_op_write = 12

abbrev pub osd_op_sync : ℕ
osd_op_sync = 13

abbrev pub osd_op_delete : ℕ
osd_op_delete = 14

-- `cluster_op_t`, as far as the queue reads it. The name stands for its address.
pub record ClientOp : Type 0 where
  pub name : ℕ
  pub opcode : ℕ
  pub flags : ℕ
  pub prev_wait : ℕ

-- `flags & OP_FLUSH_BUFFER`
unfoldable pub is_flush : ℕ → Bool
is_flush flags = bit_and flags 2 != 0

-- `!(flags & OP_IMMEDIATE_COMMIT) || enable_writeback`
unfoldable pub is_tracked : Bool → ℕ → Bool
is_tracked enable_writeback flags = bit_and flags 4 == 0 || enable_writeback

-- `opcode == OSD_OP_WRITE || opcode == OSD_OP_DELETE`
abbrev pub is_write : ℕ → Bool
is_write opcode = opcode == osd_op_write || opcode == osd_op_delete

-- The tests of the loops of `calc_wait`: whether an operation waits for an earlier one.
unfoldable pub waits_for : Bool → ClientOp → ClientOp → Bool
waits_for enable_writeback op prev =
    if is_write op.opcode
    then prev.opcode == osd_op_sync
      || is_write prev.opcode && not (is_flush op.flags) && is_flush prev.flags
    else if op.opcode == osd_op_sync
    then prev.opcode == osd_op_sync
      || is_write prev.opcode && is_tracked enable_writeback prev.flags
    else false

-- The loops of `calc_wait`, from the nearest earlier operation to the first one.
unfoldable pub count_waits : Bool → ClientOp → List ClientOp → ℕ
count_waits enable_writeback op [] = 0
count_waits enable_writeback op (prev ∷ before) =
    (if waits_for enable_writeback op prev then 1 else 0) + count_waits enable_writeback op before

-- `calc_wait`: the operation, and whether it is continued.
unfoldable pub calc_wait : Bool → List ClientOp → ClientOp → ClientOp × Bool
calc_wait enable_writeback before op =
    let n = count_waits enable_writeback op before in (record op { prev_wait = n }, n == 0)

-- The test of the loop of `inc_wait`, for an operation behind the one that comes or leaves.
unfoldable pub is_affected : Bool → ℕ → ℕ → ClientOp → Bool
is_affected enable_writeback opcode flags next =
    if is_write opcode
    then next.opcode == osd_op_sync && is_tracked enable_writeback flags
      || is_write next.opcode && is_flush flags && not (is_flush next.flags)
    else next.opcode == osd_op_sync || is_write next.opcode

-- The third argument of `inc_wait`
pub data Increment : Type 0 where
  up : Increment
  down : Increment

abbrev pub add_wait : Increment → ℕ → Option ℕ
add_wait up n = some (n + 1)
add_wait down zero = none
add_wait down (suc n) = some n

-- One round of the loop: the operation, and the operations to continue.
unfoldable pub inc_one : Bool → ℕ → ℕ → Increment → ClientOp → Option (ClientOp × List ClientOp)
inc_one enable_writeback opcode flags inc next =
    if is_affected enable_writeback opcode flags next
    then (add_wait inc next.prev_wait >>= λ n.
        let op = record next { prev_wait = n } in some (op, if n == 0 then op ∷ [] else []))
    else some (next, [])

-- The loop of `inc_wait`
unfoldable pub inc_rest :
    Bool → ℕ → ℕ → Increment → List ClientOp → Option (List ClientOp × List ClientOp)
inc_rest enable_writeback opcode flags inc [] = some ([], [])
inc_rest enable_writeback opcode flags inc (next ∷ rest) =
    inc_one enable_writeback opcode flags inc next >>= λ one.
    inc_rest enable_writeback opcode flags inc rest >>= λ others.
    some (one.0 ∷ others.0, one.1 ++ others.1)

-- `inc_wait`: the operations behind, and those to continue.
unfoldable pub inc_wait :
    Bool → ℕ → ℕ → Increment → List ClientOp → Option (List ClientOp × List ClientOp)
inc_wait enable_writeback opcode flags inc next =
    if not (is_write opcode) && opcode != osd_op_sync
    then some (next, [])
    else inc_rest enable_writeback opcode flags inc next

-- `unshift_op`
unfoldable pub unshift_op : Bool → ClientOp → List ClientOp → Option (List ClientOp × List ClientOp)
unshift_op enable_writeback op queue =
    inc_wait enable_writeback op.opcode op.flags up queue >>= λ r. some (op ∷ r.0, r.1)

-- The end of `execute_internal`. The earlier operations are listed from the last one back.
unfoldable pub enqueue : Bool → List ClientOp → ClientOp → ClientOp × Bool
enqueue enable_writeback before op =
    if is_tracked enable_writeback op.flags
    then calc_wait enable_writeback before op
    else (op, true)

-- `erase_op` of the operation at a place in the queue, without the callbacks. Beyond the end there is
-- no operation.
unfoldable pub erase_op : Bool → ℕ → List ClientOp → Option (List ClientOp × List ClientOp)
erase_op enable_writeback n [] = none
erase_op enable_writeback zero (op ∷ next) =
    if is_tracked enable_writeback op.flags
    then inc_wait enable_writeback op.opcode op.flags down next
    else some (next, [])
erase_op enable_writeback (suc n) (op ∷ next) =
    erase_op enable_writeback n next >>= λ r. some (op ∷ r.0, r.1)
