-- ===== src/Journal/Writes/Sequence.antt =====
-- src/blockstore/blockstore_journal.cpp: the order in which operations complete.
use vitastor.Base.{
  ℕ, ◌+◌, ◌-◌, ◌<◌, ◌≡◌, refl, true, false, List, [], ◌∷◌, none, some, ltb, ◌==◌, arith,
}
use vitastor.Journal.{Pending}
use vitastor.Journal.Writes.{
  Store, set_op, release_journal_sectors, complete, handle_loop, pending_from, less_flushed,
  handle_journal_write,
}
use vitastor.Journal.Writes.Waiting.{unfinished}

-- A write of data, which no sector waits for.
abbrev pub data_write : ℕ → ℕ → Pending
data_write id op = record { flush_id = id; pending = true; sector = none; op = op }

-- Three writes of data in the order of their ids, of three operations.
abbrev pub three_writes : ℕ → ℕ → ℕ → ℕ → ℕ → ℕ → List Pending
three_writes a b c x y z = data_write a x ∷ data_write b y ∷ data_write c z ∷ []

abbrev finished_write : Pending → Pending
finished_write p = record p { pending = false }

abbrev with_flushing : List Pending → Store → Store
with_flushing ps st = record st { journal = record st.journal { flushing_ops = ps } }

last_finishes :
    (a b c x y z : ℕ) (st : Store)
    → a < b
    → b < c
    → st.journal.flushing_ops ≡ three_writes a b c x y z
    → handle_journal_write c st
      ≡ some (
          with_flushing (data_write a x ∷ data_write b y ∷ finished_write (data_write c z) ∷ []) st)
unfolding handle_journal_write pending_from less_flushed handle_loop
last_finishes a b c x y z st h k e =
    let ac : ltb a c ≡ true = ground (arith, h, k) in
    let bc : ltb b c ≡ true = ground (arith, k) in
    let cc' : ltb c c ≡ false = ground arith in
    let same : (c == c) ≡ true = ground arith in rw (e, ac, bc, cc', same) refl

release_state :
    (op o : ℕ) (st : Store) → ((release_journal_sectors op st).ops o).op_state ≡ (st.ops o).op_state
unfolding release_journal_sectors
release_state op o st = ground arith

complete_last :
    (op : ℕ) (st : Store)
    → (st.ops op).pending_ops ≡ 1
    → (st' : Store) × (complete op st ≡ some st')
      × ((st'.ops op).op_state ≡ (st.ops op).op_state + 1)
unfolding complete
complete_last op st h =
    let p = st.ops op in
    let st' = set_op op (record p { pending_ops = p.pending_ops - 1 }) st in
    let st'' = release_journal_sectors op st' in
    let open_op : (p.pending_ops == 0) ≡ false = ground (arith, h) in
    let done : (p.pending_ops - 1 == 0) ≡ true = ground (arith, h) in
    (
      set_op op (record (st''.ops op) { op_state = (st''.ops op).op_state + 1 }) st'',
      rw (open_op, done) refl,
      ground (arith, release_state op op st'),
    )

middle_finishes :
    (a b c x y z : ℕ) (st next : Store)
    → a < b
    → b < c
    → complete z
        (with_flushing (data_write a x ∷ data_write b y ∷ finished_write (data_write c z) ∷ []) st)
      ≡ some next
    → handle_journal_write b
        (with_flushing (data_write a x ∷ data_write b y ∷ finished_write (data_write c z) ∷ []) st)
      ≡ some (with_flushing (data_write a x ∷ finished_write (data_write b y) ∷ []) next)
unfolding handle_journal_write pending_from less_flushed handle_loop
middle_finishes a b c x y z st next h k e =
    let ab : ltb a b ≡ true = ground (arith, h) in
    let bb : ltb b b ≡ false = ground arith in
    let same : (b == b) ≡ true = ground arith in
    let other : (c == b) ≡ false = ground (arith, k) in rw (ab, bb, same, other, e) (rw same refl)

-- Of three writes of data that are under way, the last one finishes, and then the one in the middle.
-- The operation of the last one, which waits for nothing else, is completed then, while the first
-- write is not finished.
pub handle_journal_write-out_of_order :
    (a b c x y z : ℕ) (st : Store)
    → a < b
    → b < c
    → st.journal.flushing_ops ≡ three_writes a b c x y z
    → (st.ops z).pending_ops ≡ 1
    → (st' : Store) × (st'' : Store) × (handle_journal_write c st ≡ some st')
      × (handle_journal_write b st' ≡ some st'')
      × ((st''.ops z).op_state ≡ (st.ops z).op_state + 1)
      × (unfinished st''.journal.flushing_ops ≡ a ∷ [])
unfolding unfinished
handle_journal_write-out_of_order a b c x y z st h k e p =
    let next =
      with_flushing (data_write a x ∷ data_write b y ∷ finished_write (data_write c z) ∷ []) st in
    let (done, run, state) = complete_last z next p in
    (
      next,
      with_flushing (data_write a x ∷ finished_write (data_write b y) ∷ []) done,
      last_finishes a b c x y z st h k e,
      middle_finishes a b c x y z st done h k run,
      state,
      refl,
    )
