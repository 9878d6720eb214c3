-- ===== src/Journal/SmallWrite.antt =====
-- src/blockstore/blockstore_write.cpp: what `dequeue_write` does with the journal for a small write,
-- once `check_available` found space for it. The fields of the entry behind its header and the copy of
-- the data into an in-memory journal are left out; the checksum of the filled entry is given. `none`
-- is a failed assertion.
pub mod Prepared
pub mod Sectors
pub mod Placed
use vitastor.Base.{ℕ, ◌+◌, Bool, true, not, ◌&&◌, Option, none, some, ◌==◌, if◌then◌else◌, ◌>>=◌}
use vitastor.Base.Words.{add64}
use vitastor.Memory.{Memory}
use vitastor.Journal.{entry_fits}
use vitastor.Journal.Entries.{prefill_single_journal_entry, reserve_data, pass_data}
use vitastor.Journal.Writes.{Store, set_op, add_pending, prepare_journal_sector_write}

-- `prepare_journal_sector_write` of the current sector, on a condition.
unfoldable pub prepare_if : Bool → Store → ℕ → Option Store
prepare_if test st op =
    if test
    then (prepare_journal_sector_write st st.journal.cur_sector op >>= λ r. some r.0)
    else some st

-- The write of the data is submitted, and the operation waits for it.
unfoldable pub submit_data : Store → ℕ → ℕ → Option Store
submit_data st op len =
    let j = st.journal in
    let p = st.ops op in
    let id = add64 j.submit_id 1 in
    if len == 0
    then some st
    else if id == 0
    then none
    else some (
        set_op op (record p { pending_ops = p.pending_ops + 1 })
          (record st {
            journal = record j {
              submit_id = id;
              flushing_ops =
                  add_pending (record { flush_id = id; pending = true; sector = none; op = op })
                    j.flushing_ops;
            };
          }))

-- The small write: the store, the address of the entry and the memory. `immediate_none` is
-- `immediate_commit == IMMEDIATE_NONE`.
unfoldable pub put_small_write :
    Bool → Store → ℕ → ℕ → ℕ → ℕ → ℕ → Memory → Option (Store × ℕ × Memory)
put_small_write immediate_none st op type size len crc32 m =
    prepare_if (immediate_none && not (entry_fits st.journal size)) st op >>= λ st1.
    prefill_single_journal_entry st1.journal type size m >>= λ e. reserve_data e.0 len >>= λ j.
    prepare_if (not immediate_none) (record st1 { journal = record j { crc32_last = crc32 } }) op
    >>= λ st2. submit_data st2 op len >>= λ st3.
        pass_data st3.journal len >>= λ l. some (record st3 { journal = l }, e.1, e.2)
