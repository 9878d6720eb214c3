-- ===== src/Journal/Writes.antt =====
-- src/blockstore/blockstore_journal.cpp: `prepare_journal_sector_write` and `handle_journal_write`;
-- and `release_journal_sectors` of src/blockstore/blockstore_write.cpp. `none` is a failed assertion.
pub mod Waiting
pub mod Sequence
use vitastor.Base.{
  ℕ, zero, suc, ◌+◌, ◌-◌, ◌*◌, ◌%◌, Bool, true, false, not, ◌&&◌, ◌||◌, List, [], ◌∷◌, ◌++◌, Option,
  none, some, ltb, leb, ◌==◌, if◌then◌else◌, ◌>>=◌,
}
use vitastor.Base.Words.{add64}
use vitastor.Journal.{Journal, SectorInfo, Pending, current, set_sector}
use vitastor.Journal.Entries.{sector_address}

-- `blockstore_op_private_t`, the fields that the journal changes. The numbers of the sectors are one
-- higher than the index, and 0 for none.
pub record Priv : Type 0 where
  pub pending_ops : ℕ
  pub op_state : ℕ
  pub min_flushed_journal_sector : ℕ
  pub max_flushed_journal_sector : ℕ

pub record Store : Type 0 where
  pub journal : Journal
  pub ops : ℕ → Priv

abbrev pub set_op : ℕ → Priv → Store → Store
set_op o p st = record st { ops = λ q. if q == o then p else st.ops q }

-- A write of one block that is submitted.
pub record BlockWrite : Type 0 where
  pub address : ℕ
  pub position : ℕ
  pub id : ℕ

-- `emplace` of a multimap
unfoldable pub add_pending : Pending → List Pending → List Pending
add_pending p [] = p ∷ []
add_pending p (q ∷ qs) = if ltb p.flush_id q.flush_id then p ∷ q ∷ qs else q ∷ add_pending p qs

-- The branch that submits a sector once in a batch.
unfoldable pub submit_sector : Journal → ℕ → Option (Journal × Option BlockWrite)
submit_sector j i =
    let s = j.sector_info i in
    let id = add64 j.submit_id 1 in
    if s.submit_id == 0
    then (if id == 0
        then none
        else some (
          record (set_sector j i
              (record s { written = true; submit_id = id; flush_count = s.flush_count + 1 })) {
                submit_id = id;
                submitting_sectors = j.submitting_sectors ++ i ∷ [];
              },
          some (record {
            address = sector_address (record j { cur_sector = i });
            position = j.offset + s.offset;
            id = id;
          }),
        ))
    else some (j, none)

-- The rest of `prepare_journal_sector_write`, where the operation waits for the sector.
unfoldable pub wait_for_sector : Store → ℕ → ℕ → Option Store
wait_for_sector st i op =
    let j = st.journal in
    let s = j.sector_info i in
    let p = st.ops op in
    let first = if p.min_flushed_journal_sector == 0 then 1 + i else p.min_flushed_journal_sector in
    if leb first j.sector_count
    then some (
        set_op op
          (record p {
            pending_ops = p.pending_ops + 1;
            min_flushed_journal_sector = first;
            max_flushed_journal_sector = 1 + i;
          })
          (record st {
            journal = record (set_sector j i (record s { dirty = false })) {
              flushing_ops =
                  add_pending
                    (record { flush_id = s.submit_id; pending = true; sector = some i; op = op })
                    j.flushing_ops;
            };
          }))
    else none

-- `prepare_journal_sector_write`
unfoldable pub prepare_journal_sector_write : Store → ℕ → ℕ → Option (Store × Option BlockWrite)
prepare_journal_sector_write st i op = submit_sector st.journal i >>= λ r.
    wait_for_sector (record st { journal = r.0 }) i op >>= λ t. some (t, r.1)

-- One sector of `release_journal_sectors`, by its index.
unfoldable pub release_sector : ℕ → Journal → Journal
release_sector i j =
    let s = j.sector_info i in
    let moved = if i == j.cur_sector then record j { in_sector_pos = j.block_size } else j in
    let after = s.offset + j.block_size in
    let new_ds = if leb j.len after then j.block_size else after in
    let place = λ (x : ℕ). x + (if leb j.used_start x then 0 else j.len) in
    if s.dirty || not (s.flush_count == 0)
    then j
    else if ltb (place j.dirty_start) (place new_ds)
    then record moved { dirty_start = new_ds }
    else moved

-- The loop of `release_journal_sectors`. A round for each sector is enough.
unfoldable pub release_loop : ℕ → ℕ → ℕ → Journal → Journal
release_loop zero s last j = j
release_loop (suc fuel) s last j =
    let next = release_sector (s - 1) j in
    let rest = release_loop fuel (1 + s % j.sector_count) last next in
    if s == last then next else rest

-- `release_journal_sectors`
unfoldable pub release_journal_sectors : ℕ → Store → Store
release_journal_sectors op st =
    let p = st.ops op in
    if ltb 0 p.min_flushed_journal_sector && ltb 0 p.max_flushed_journal_sector
    then set_op op (record p { min_flushed_journal_sector = 0; max_flushed_journal_sector = 0 })
        (record st {
          journal =
              release_loop st.journal.sector_count p.min_flushed_journal_sector
                p.max_flushed_journal_sector st.journal;
        })
    else st

-- The branch of `handle_journal_write` that completes a write.
unfoldable pub complete : ℕ → Store → Option Store
complete op st =
    let p = st.ops op in
    let left = record p { pending_ops = p.pending_ops - 1 } in
    let st' = set_op op left st in
    let st'' = release_journal_sectors op st' in
    if p.pending_ops == 0
    then none
    else if left.pending_ops == 0
    then some (set_op op (record (st''.ops op) { op_state = (st''.ops op).op_state + 1 }) st'')
    else some st'

-- The loop of `handle_journal_write`
unfoldable pub handle_loop : Bool → ℕ → List Pending → Store → Option (List Pending × Store)
handle_loop is_first flush_id [] st = some ([], st)
handle_loop is_first flush_id (p ∷ ps) st =
    let this = p.flush_id == flush_id in
    let q = if this then record p { pending = false } else p in
    let del = if this then is_first else not p.pending in
    let gone : Option (List Pending × Store) = elim (complete p.op st) [
      | none ↦ none
      | some next ↦ handle_loop is_first flush_id ps next
    ] in
    let kept : Option (List Pending × Store) = elim (handle_loop is_first flush_id ps st) [
      | none ↦ none
      | some (qs, next) ↦ some (q ∷ qs, next)
    ] in
    if del then gone else kept

-- The writes before the first one with the id, and those from it on.
unfoldable pub pending_from : ℕ → List Pending → List Pending × List Pending
pending_from flush_id [] = ([], [])
pending_from flush_id (p ∷ ps) =
    let rest = pending_from flush_id ps in
    if ltb p.flush_id flush_id then (p ∷ rest.0, rest.1) else ([], p ∷ ps)

-- `flush_count--`, for the sector of the first write with the id
unfoldable pub less_flushed : ℕ → List Pending → Journal → Journal
less_flushed flush_id [] j = j
less_flushed flush_id (p ∷ ps) j = elim p.sector [
  | none ↦ j
  | some i ↦
      let s = j.sector_info i in
      if p.flush_id == flush_id
      then set_sector j i (record s { flush_count = s.flush_count - 1 })
      else j
]

abbrev pub is_nil : List Pending → Bool
is_nil [] = true
is_nil (p ∷ ps) = false

-- `handle_journal_write` for a write that succeeded.
unfoldable pub handle_journal_write : ℕ → Store → Option Store
handle_journal_write flush_id st =
    let (before, from) = pending_from flush_id st.journal.flushing_ops in
    handle_loop (is_nil before) flush_id from
      (record st { journal = less_flushed flush_id from st.journal })
    >>= λ r. some (record (r.1) { journal = record r.1.journal { flushing_ops = before ++ r.0 } })
