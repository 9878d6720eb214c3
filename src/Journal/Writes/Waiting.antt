-- ===== src/Journal/Writes/Waiting.antt =====
-- src/blockstore/blockstore_journal.cpp: the writes that operations wait for.
use vitastor.Base.{
  ℕ, ◌+◌, ◌-◌, ◌<◌, ◌≤◌, ◌≡◌, refl, sym, ◌∙◌, ap, Bool, true, false, not, List, [], ◌∷◌, ◌++◌, some,
  ltb, ◌==◌, ◌&&◌, if◌then◌else◌, arith, Bool-cases, inl, inr,
}
use vitastor.Journal.{Pending}
use vitastor.Journal.Writes.{
  Store, set_op, add_pending, release_journal_sectors, complete, handle_loop, pending_from,
  less_flushed, is_nil, handle_journal_write,
}

-- The number of writes that an operation waits for.
unfoldable pub waits : ℕ → List Pending → ℕ
waits o [] = 0
waits o (p ∷ ps) = (if p.op == o then 1 else 0) + waits o ps

pub waits-add_pending :
    (o : ℕ) (p : Pending) (ps : List Pending)
    → waits o (add_pending p ps) ≡ (if p.op == o then 1 else 0) + waits o ps
unfolding waits add_pending
waits-add_pending o p [] = refl
waits-add_pending o p (q ∷ qs) = ground (arith, waits-add_pending o p qs)

-- The ids of the writes that are not finished.
unfoldable pub unfinished : List Pending → List ℕ
unfinished [] = []
unfinished (p ∷ ps) = if p.pending then p.flush_id ∷ unfinished ps else unfinished ps

-- The ids but for one.
unfoldable pub without : ℕ → List ℕ → List ℕ
without a [] = []
without a (x ∷ xs) = if x == a then without a xs else x ∷ without a xs

release_pending :
    (op o : ℕ) (st : Store)
    → ((release_journal_sectors op st).ops o).pending_ops ≡ (st.ops o).pending_ops
unfolding release_journal_sectors
release_pending op o st = ground arith

release_state :
    (op o : ℕ) (st : Store) → ((release_journal_sectors op st).ops o).op_state ≡ (st.ops o).op_state
unfolding release_journal_sectors
release_state op o st = ground arith

-- 1 for an operation that waited and waits no more.
abbrev pub resumed : ℕ → ℕ → ℕ
resumed before after = if ltb 0 before && after == 0 then 1 else 0

resumed_trans : (a b c : ℕ) → b ≤ a → c ≤ b → resumed a b + resumed b c ≡ resumed a c
resumed_trans a b c h k = ground (arith, h, k)

complete_pending :
    (op : ℕ) (st : Store)
    → 0 < (st.ops op).pending_ops
    → (st' : Store) × (complete op st ≡ some st')
      × ((o : ℕ) → (st'.ops o).pending_ops ≡ (st.ops o).pending_ops - (if o == op then 1 else 0))
      × ((o : ℕ)
          → (st'.ops o).op_state
            ≡ (st.ops o).op_state + resumed (st.ops o).pending_ops (st'.ops o).pending_ops)
unfolding complete
complete_pending op st h =
    let p = st.ops op in
    let left = record p { pending_ops = p.pending_ops - 1 } in
    let st' = set_op op left st in
    let st'' = release_journal_sectors op st' in
    let open_op : (p.pending_ops == 0) ≡ false = ground (arith, h) in
    elim (Bool-cases (p.pending_ops - 1 == 0)) [
      | inr n ↦ (st', rw (open_op, n) refl, λ o. ground arith, λ o. ground (arith, n))
      | inl y ↦ (
        set_op op (record (st''.ops op) { op_state = (st''.ops op).op_state + 1 }) st'',
        rw (open_op, y) refl,
        λ o. ground (arith, release_pending op o st', release_pending op op st'),
        λ o. ground (
          arith,
          y,
          release_pending op o st',
          release_pending op op st',
          release_state op o st',
          release_state op op st',
        ),
      )
    ]

-- An operation waits for at least the writes that are listed for it, and for those before them.
abbrev AreCounted : (ℕ → ℕ) → List Pending → Store → Type 0
AreCounted before ps st = (o : ℕ) → before o + waits o ps ≤ (st.ops o).pending_ops

abbrev one_more : ℕ → (ℕ → ℕ) → ℕ → ℕ
one_more op before o = before o + (if op == o then 1 else 0)

-- What the loop leaves of the writes `ps` and the store `start`.
record IsHandled (before : ℕ → ℕ) (flush_id : ℕ) (ps qs : List Pending) (start st : Store)
    : Type 0 where
  counted : AreCounted before qs st
  exact : (o : ℕ) → (st.ops o).pending_ops + waits o ps ≡ (start.ops o).pending_ops + waits o qs
  less : (o : ℕ) → (st.ops o).pending_ops ≤ (start.ops o).pending_ops
  states :
      (o : ℕ)
      → (st.ops o).op_state
        ≡ (start.ops o).op_state + resumed (start.ops o).pending_ops (st.ops o).pending_ops
  still : unfinished qs ≡ without flush_id (unfinished ps)

handle_loop_gone :
    (is_first : Bool) (flush_id : ℕ) (p : Pending) (ps : List Pending) (st next : Store)
    → (if p.flush_id == flush_id then is_first else not p.pending) ≡ true
    → complete p.op st ≡ some next
    → handle_loop is_first flush_id (p ∷ ps) st ≡ handle_loop is_first flush_id ps next
unfolding handle_loop
handle_loop_gone is_first flush_id p ps st next d h = rw (d, h) refl

handle_loop_kept :
    (is_first : Bool) (flush_id : ℕ) (p : Pending) (ps : List Pending) (st : Store)
    → (r : List Pending × Store)
    → (if p.flush_id == flush_id then is_first else not p.pending) ≡ false
    → handle_loop is_first flush_id ps st ≡ some r
    → handle_loop is_first flush_id (p ∷ ps) st
      ≡ some ((if p.flush_id == flush_id then record p { pending = false } else p) ∷ r.0, r.1)
unfolding handle_loop
handle_loop_kept is_first flush_id p ps st (qs, next) d h = rw (d, h) refl

handle_loop-IsHandled :
    (is_first : Bool) (flush_id : ℕ) (before : ℕ → ℕ) (ps : List Pending) (st : Store)
    → AreCounted before ps st
    → (r : List Pending × Store) × (handle_loop is_first flush_id ps st ≡ some r)
      × IsHandled before flush_id ps r.0 st r.1
unfolding handle_loop waits unfinished without
handle_loop-IsHandled is_first flush_id before [] st v = (
  ([], st),
  refl,
  record {
    counted = v;
    exact = λ o. refl;
    less = λ o. omega arith;
    states = λ o. ground arith;
    still = refl;
  },
)
handle_loop-IsHandled is_first flush_id before (p ∷ ps) st v =
    elim (Bool-cases (if p.flush_id == flush_id then is_first else not p.pending)) [
      | inl d ↦
          let (next, done, left, state) = complete_pending p.op st (ground (arith, v p.op)) in
          let (r, run, ih) =
            handle_loop-IsHandled is_first flush_id before ps next
              (λ o. ground (arith, v o, left o)) in
          (
            r,
            handle_loop_gone is_first flush_id p ps st next d done ∙ run,
            record {
              counted = ih.counted;
              exact = λ o. ground (arith, v o, v p.op, left o, ih.exact o);
              less = λ o. omega (arith, left o, ih.less o);
              states = λ o. omega (
                arith,
                ih.states o,
                state o,
                resumed_trans (st.ops o).pending_ops (next.ops o).pending_ops
                    (r.1.ops o).pending_ops (omega (arith, left o)) (ih.less o),
              );
              still = ground (arith, ih.still, d);
            },
          )
      | inr k ↦
          let (r, run, ih) =
            handle_loop-IsHandled is_first flush_id (one_more p.op before) ps st
              (λ o. ground (arith, v o)) in
          (
            _,
            handle_loop_kept is_first flush_id p ps st r k run,
            record {
              counted = λ o. ground (arith, ih.counted o);
              exact = λ o. ground (arith, ih.exact o);
              less = ih.less;
              states = ih.states;
              still = ground (arith, ih.still, k);
            },
          )
    ]

unfinished-append : (ps qs : List Pending) → unfinished (ps ++ qs) ≡ unfinished ps ++ unfinished qs
unfolding unfinished
unfinished-append [] qs = refl
unfinished-append (p ∷ ps) qs = ground (arith, unfinished-append ps qs)

without-append : (a : ℕ) (xs ys : List ℕ) → without a (xs ++ ys) ≡ without a xs ++ without a ys
unfolding without
without-append a [] ys = refl
without-append a (x ∷ xs) ys = ground (arith, without-append a xs ys)

waits-append : (o : ℕ) (ps qs : List Pending) → waits o (ps ++ qs) ≡ waits o ps + waits o qs
unfolding waits
waits-append o [] qs = omega arith
waits-append o (p ∷ ps) qs = omega (arith, waits-append o ps qs)

pending_from_whole :
    (flush_id : ℕ) (ps : List Pending)
    → (pending_from flush_id ps).0 ++ (pending_from flush_id ps).1 ≡ ps
unfolding pending_from
pending_from_whole flush_id [] = refl
pending_from_whole flush_id (p ∷ ps) = ground (arith, pending_from_whole flush_id ps)

-- The writes before the id are others.
pending_from_others :
    (flush_id : ℕ) (ps : List Pending)
    → without flush_id (unfinished (pending_from flush_id ps).0)
      ≡ unfinished (pending_from flush_id ps).0
unfolding pending_from unfinished without
pending_from_others flush_id [] = refl
pending_from_others flush_id (p ∷ ps) = ground (arith, pending_from_others flush_id ps)

handle_journal_write_run :
    (flush_id : ℕ) (st : Store) (r : List Pending × Store)
    → handle_loop
        (is_nil (pending_from flush_id st.journal.flushing_ops).0)
        flush_id
        (pending_from flush_id st.journal.flushing_ops).1
        (record st {
          journal =
              less_flushed flush_id (pending_from flush_id st.journal.flushing_ops).1 st.journal;
        })
      ≡ some r
    → handle_journal_write flush_id st
      ≡ some (record (r.1) {
        journal = record r.1.journal {
          flushing_ops = (pending_from flush_id st.journal.flushing_ops).0 ++ r.0;
        };
      })
unfolding handle_journal_write
handle_journal_write_run flush_id st r h = rw h refl

-- If each operation's `pending_ops` is at least the number of its entries in `flushing_ops`, the end
-- of a write passes its assertion and keeps it so; of the unfinished writes it takes the write with
-- this id away and no other one, in the same order; the `pending_ops` of each operation falls by
-- exactly the number of its entries that are removed from `flushing_ops`; and the `op_state` goes up
-- by one for the operations whose `pending_ops` falls to 0 by this, and for no other.
pub unfinished-handle_journal_write :
    (flush_id : ℕ) (st : Store)
    → ((o : ℕ) → waits o st.journal.flushing_ops ≤ (st.ops o).pending_ops)
    → (st' : Store) × (handle_journal_write flush_id st ≡ some st')
      × (unfinished st'.journal.flushing_ops
          ≡ without flush_id (unfinished st.journal.flushing_ops))
      × ((o : ℕ) → waits o st'.journal.flushing_ops ≤ (st'.ops o).pending_ops)
      × ((o : ℕ)
          → (st'.ops o).pending_ops + waits o st.journal.flushing_ops
            ≡ (st.ops o).pending_ops + waits o st'.journal.flushing_ops)
      × ((o : ℕ)
          → (st'.ops o).op_state
            ≡ (st.ops o).op_state + resumed (st.ops o).pending_ops (st'.ops o).pending_ops)
unfinished-handle_journal_write flush_id st v =
    let all = st.journal.flushing_ops in
    let before = (pending_from flush_id all).0 in
    let from = (pending_from flush_id all).1 in
    let start = record st { journal = less_flushed flush_id from st.journal } in
    let whole = pending_from_whole flush_id all in
    let (r, run, handled) =
      handle_loop-IsHandled (is_nil before) flush_id (λ o. waits o before) from start
        (λ o. omega (arith, v o, waits-append o before from, ap (waits o) whole)) in
    (
      _,
      handle_journal_write_run flush_id st r run,
      unfinished-append before r.0
          ∙ ap (λ l. unfinished before ++ l) handled.still
          ∙ ap (λ l. l ++ without flush_id (unfinished from))
              (sym (pending_from_others flush_id all))
          ∙ sym (without-append flush_id (unfinished before) (unfinished from))
          ∙ ap (without flush_id) (sym (unfinished-append before from) ∙ ap unfinished whole),
      λ o. omega (arith, handled.counted o, waits-append o before r.0),
      λ o. omega (
        arith,
        handled.exact o,
        waits-append o before r.0,
        waits-append o before from,
        ap (waits o) whole,
      ),
      handled.states,
    )
