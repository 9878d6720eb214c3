-- ===== src/Lib.antt =====
-- A model of parts of vitastor, a distributed block storage: the allocator of blocks, the peering
-- of a placement group, the plan of reads and writes of an erasure-coded object with its XOR
-- parity, the journal of a blockstore, the write-back cache of a client, the queue and the slicing
-- of a client's operations, the stored blocks of the key-value database, and functions on bitmaps,
-- bytes in memory and strings.
--
-- An OSD's blockstore allocates the blocks of its data device with `allocator_t`. A placement group
-- that starts collects the lists of object versions of its OSDs and decides for each object which
-- version is current and where its copies are (`pg_t::calc_object_states`). Reads and writes of the
-- group's objects then use the OSD sets found so: of an erasure-coded object `split_stripes` cuts a
-- request into chunks, `extend_missing_stripes` plans a read with lost chunks, and `calc_rmw` plans
-- the reads and writes of an update.
--
-- Allocator.antt models src/util/allocator.cpp (`allocator_t`): `new`, `get`, `set` (`set_block`),
-- `find_free` and `get_free_count`. Its children hold the tree (Edges, Levels), the invariant and
-- the effect of `set` (Blocks, Marking), the search (Scan, Search, Full) and the constructor
-- (Fresh).
--
-- Peering.antt models src/osd/osd_peering_pg.cpp and src/osd/osd_peering_pg.h: Types has the data,
-- Check has `start_object` and `handle_version`, Walk has `finish_object`, `add_object_to_state`,
-- `walk` and `calc_object_states`. A map is an association list without an order, a pointer into
-- `state_dict` is its key, and the sort is an insertion sort.
--
-- Memory.antt models src/util/xor.h and `bitmap_set`, `bitmap_clear` and `bitmap_check` of
-- src/util/allocator.cpp over a memory of bytes at addresses that do not wrap.
--
-- Rmw.antt models src/osd/osd_rmw.cpp: Stripes has `extend_read`, `cover_read`, `split_stripes`,
-- `extend_missing_stripes` and `alloc_read_buffer`, Plan has `calc_rmw`, Parity has
-- `reconstruct_stripes_xor`, `get_old_new_buffers`, `xor_multiple_buffers` and
-- `calc_rmw_parity_xor`, Combinations the subsets that `ec_find_good` goes through. An address is a
-- number, and the allocation function of the C library is a parameter that takes a size to an
-- address.
--
-- Cache.antt models `writeback_cache_t` of src/client/cluster_client_wb.cpp, in which a client keeps
-- what is written and not yet synced: Write has `copy_write`, Flush has `flush_buffers` with its
-- callback, `start_writebacks` and the steps of an fsync, Read has `read_from_cache`, Repeat has
-- `repeat_ops_for`, and Deletions is about the writeback of a deleted range. The map is a
-- sorted list, an iterator the two parts of it, and an operation handed to the client is a result.
-- Order, Cells, Sums, Counts and Cut are about the loop of `copy_write`, Insert and Content about
-- `copy_write` as a whole, Settle, Sync and Finish about the steps that drop buffers.
--
-- Client.antt models the queue of `cluster_client_t` of src/client/cluster_client.cpp, as a list
-- from the first operation to the last: `calc_wait`, `inc_wait`, `unshift_op`, `erase_op` and the
-- end of `execute_internal`. The callbacks and the operations that go on are not part of a step;
-- those to continue are a result. Counts says what is counted, Erasure and Arrival are about one
-- step, Drain about all until the queue is empty. Slices has `slice_rw` with `add_iov`,
-- `affects_pg` and `affects_osd`; Pieces and Trimming are about the bytes of a part that are there
-- already, Stripes and Coverage about all parts, Affected about placement groups and OSDs. The
-- buffers of an operation are numbered in a row, so the assertions that they are long enough and
-- that a part is not empty are left out, and the buffer for unwanted bytes is one piece of any
-- length.
--
-- Kv.antt models the blocks of src/kv/kv_db.cpp: Format has `parse`, `serialize`, `apply_change`
-- and `cancel_change`. A map is a list of its entries by key, an iterator the number of an entry,
-- and the number of items is stored once they are written. Keys and Items are about the maps, Left
-- and Written about what is written of one, Applied about `apply_change`, Buffer about strings in
-- memory, Stored, Serialized and Parsing about whole blocks, and RoundTrip joins them. The tree of
-- blocks and its updates are not modelled.
--
-- Journal.antt models src/blockstore/blockstore_journal.h and .cpp: Space has `check_available`,
-- Entries has `prefill_single_journal_entry` and the place of the data of a small write from
-- `dequeue_write` of src/blockstore/blockstore_write.cpp, Writes has `prepare_journal_sector_write`,
-- `handle_journal_write` and `release_journal_sectors`, SmallWrite has what `dequeue_write` does with
-- the journal for a small write, Trim has `get_trim_pos`. Ring, Fill and SmallWrite/Placed join the
-- check with what it allows. The body of an entry and the copy of the data into a journal in memory
-- are not modelled, and the checksum of an entry is a parameter.
--
-- Text.antt models `addslashes`, `auto_addslashes`, `scan_escaped`, `str_repeat`, `utf8_length`,
-- `base64_encode` and `base64_decode` of src/util/str_util.cpp, whose `is_zero` is in Memory. A
-- position in a string is the rest of the string from there on.
--
-- Tests.antt has runs at concrete inputs.
--
-- Numbers are natural. The wrap-around of 32 and 64 bits is written out in the allocator, the bitmaps,
-- the stripes of Rmw, and the requests and placement groups of the client. It is not written out for
-- the positions and lengths in the journal and in the write-back cache, where `offset + len` is not
-- reduced, for the size that `slice_rw` gives `add_iov`, which is an `int` in the code and so other for
-- a part of 2 GiB or more, and for counters of list entries. The loop over
-- bitmap bits has a round for each bit, the one over two buffer lists a round for each buffer. The
-- loops over the levels of the allocator have six rounds of fuel, which is enough below 2 ^ 31
-- blocks, the bound of the constructor, and the theorems hold with that fuel. Other loops recurse
-- on what they count or walk over, `check_available` takes one round more than sectors, `slice_rw`
-- one round for each part and one for each byte of a part.
--
-- An array access past the end reads a default and writes nothing; in the code it is undefined.
-- Roles are taken to be below the width of `1 << role`. Log output is left out, and so are I/O, the
-- network and the erasure coders of jerasure and ISA-L.
pub mod Base
pub mod Allocator
pub mod Memory
pub mod Peering
pub mod Rmw
pub mod Text
pub mod Cache
pub mod Client
pub mod Kv
pub mod Journal
pub mod Tests
