-- ===== src/Client/Drain.antt =====
-- src/client/cluster_client.cpp: every operation of the queue is continued, in whatever order the
-- started ones end; and `erase_op` fails where operations with immediate commits are among others.
use vitastor.Base.{
  ℕ, zero, suc, ◌≡◌, refl, ◌∙◌, Bool, true, false, List, [], ◌∷◌, ◌++◌, Option, none, some, length,
  ◌>>=◌, arith,
}
use vitastor.Client.{
  ClientOp, is_tracked, osd_op_sync, osd_op_write, count_waits, is_affected, inc_one, inc_rest,
  inc_wait, erase_op, enqueue,
}
use vitastor.Client.Counts.{IsCounted, waiting, occurrences, occurrences-append, IsStarted}
use vitastor.Client.Erasure.{erase_op-IsErased}

-- The operations end one after another, at the places that `pick` names; the result is what has been
-- continued. `none` is a failed assertion, a place without an operation, or a queue that is left over.
unfoldable pub drain : Bool → (List ClientOp → ℕ) → ℕ → List ClientOp → Option (List ClientOp)
drain wb pick n [] = some []
drain wb pick zero (op ∷ next) = none
drain wb pick (suc n) (op ∷ next) = erase_op wb (pick (op ∷ next)) (op ∷ next) >>= λ r.
    drain wb pick n r.0 >>= λ later. some (r.1 ++ later)

-- The operations end in an order in which each has been started.
abbrev pub PicksStarted : Bool → (List ClientOp → ℕ) → Type 0
PicksStarted wb pick =
    (op : ClientOp) (next : List ClientOp)
    → IsCounted wb [] (op ∷ next)
    → IsStarted (pick (op ∷ next)) (op ∷ next)

abbrev pub Drained : List ClientOp → Option (List ClientOp) → Type 0
Drained queue o =
    (started : List ClientOp) × (o ≡ some started)
    × ((x : ℕ) → occurrences x started ≡ waiting x queue)

-- In a counted queue, started operations can end in any order until the queue is empty: no assertion
-- fails, and each operation that has waited is continued exactly once on the way.
pub drain-Drained :
    (wb : Bool) (pick : List ClientOp → ℕ) (n : ℕ) (queue : List ClientOp)
    → PicksStarted wb pick
    → IsCounted wb [] queue
    → length queue ≡ n
    → Drained queue (drain wb pick n queue)
unfolding drain waiting occurrences
drain-Drained wb pick n [] p v size = ([], refl, λ x. refl)
drain-Drained wb pick zero (op ∷ next) p v size = absurd (omega arith)
drain-Drained wb pick (suc n) (op ∷ next) p v size =
    let (r, run, (counted, shorter, kept)) =
      erase_op-IsErased wb [] (pick (op ∷ next)) (op ∷ next) v (p op next v) in
    let (later, rest, all) = drain-Drained wb pick n r.0 p counted (omega (arith, shorter)) in
    (
      r.1 ++ later,
      rw (run, rest) refl,
      λ x. occurrences-append x r.1 later ∙ omega (arith, kept x, all x),
    )

-- The first operation waits for nothing.
pub first_PicksStarted : (wb : Bool) → PicksStarted wb (λ queue. 0)
unfolding count_waits
first_PicksStarted wb op next (count, regular, v) = count

-- Without write-back, a write with immediate commits that execute_internal appends right behind a SYNC
-- which is still in the queue, as it may be for the writes of a pool without immediate commits, does not
-- wait for it: when the SYNC leaves, the assertion of inc_wait fails.
pub erase_op-enqueue-fails :
    (before next : List ClientOp) (sync op : ClientOp)
    → sync.opcode ≡ osd_op_sync
    → is_tracked false sync.flags ≡ true
    → op.opcode ≡ osd_op_write
    → op.prev_wait ≡ 0
    → is_tracked false op.flags ≡ false
    → erase_op false 0 (sync ∷ (enqueue false (sync ∷ before) op).0 ∷ next) ≡ none
unfolding erase_op inc_wait inc_rest inc_one is_affected enqueue
erase_op-enqueue-fails before next sync op s t w z u = rw u (ground (arith, s, t, w, z))
