-- ===== src/Client/Arrival.antt =====
-- src/client/cluster_client.cpp: `unshift_op` and the end of `execute_internal` keep the counts.
use vitastor.Base.{
  ℕ, ◌+◌, ◌≡◌, refl, ◌⊎◌, inl, inr, Bool, true, false, not, ◌&&◌, List, [], ◌∷◌, some, ◌==◌, ◌!=◌,
  if◌then◌else◌, arith, Bool-cases,
}
use vitastor.Client.{
  ClientOp, up, is_flush, is_tracked, is_write, osd_op_sync, waits_for, count_waits, is_affected,
  inc_one, inc_rest, inc_wait, unshift_op,
}
use vitastor.Client.Counts.{
  IsRegular, IsCounted, DiffersBy, DiffersBy-cons, count_waits-record, waits_for_other,
  is_affected-waits_for,
}

-- The operation with one more to wait for, if it waits for the new one.
abbrev pub delayed : Bool → ClientOp → ClientOp → ClientOp
delayed wb op next =
    if waits_for wb next op then record next { prev_wait = next.prev_wait + 1 } else next

abbrev pub delay_all : Bool → ClientOp → List ClientOp → List ClientOp
delay_all wb op [] = []
delay_all wb op (n ∷ next) = delayed wb op n ∷ delay_all wb op next

inc_one-up :
    (wb : Bool) (op next : ClientOp)
    → is_affected wb op.opcode op.flags next ≡ waits_for wb next op
    → inc_one wb op.opcode op.flags up next ≡ some (delayed wb op next, [])
unfolding inc_one
inc_one-up wb op next same = elim (Bool-cases (waits_for wb next op)) [
  | inl y ↦ ground (arith, same, y)
  | inr f ↦ ground (arith, same, f)
]

inc_rest-up :
    (wb : Bool) (op : ClientOp) (next : List ClientOp)
    → ((x : ClientOp) → is_affected wb op.opcode op.flags x ≡ waits_for wb x op)
    → inc_rest wb op.opcode op.flags up next ≡ some (delay_all wb op next, [])
unfolding inc_rest
inc_rest-up wb op [] same = refl
inc_rest-up wb op (n ∷ next) same =
    rw (inc_one-up wb op n (same n), inc_rest-up wb op next same) refl

delay_none :
    (wb : Bool) (op : ClientOp) (next : List ClientOp)
    → ((x : ClientOp) → waits_for wb x op ≡ false)
    → delay_all wb op next ≡ next
delay_none wb op [] h = refl
delay_none wb op (n ∷ next) h = ground (arith, h n, delay_none wb op next h)

-- `inc_wait`, when an operation comes in front.
inc_wait-up :
    (wb : Bool) (op : ClientOp) (next : List ClientOp)
    → inc_wait wb op.opcode op.flags up next ≡ some (delay_all wb op next, [])
unfolding inc_wait
inc_wait-up wb op next = elim (Bool-cases (not (is_write op.opcode) && op.opcode != osd_op_sync)) [
  | inl y ↦ rw (y, delay_none wb op next (λ x. waits_for_other wb x op y)) refl
  | inr n ↦ rw n (inc_rest-up wb op next (λ x. is_affected-waits_for wb x op n))
]

delayed-IsCounted :
    (wb : Bool) (op : ClientOp) (more less : List ClientOp) (next : List ClientOp)
    → DiffersBy wb op more less
    → IsCounted wb less next
    → IsCounted wb more (delay_all wb op next)
delayed-IsCounted wb op more less [] d v = tt
delayed-IsCounted wb op more less (n ∷ next) d (count, regular, v) =
    elim (Bool-cases (waits_for wb n op)) [
      | inl y ↦
          let k : ℕ = n.prev_wait + 1 in
          let e : k ≡ count_waits wb (record n { prev_wait = k }) more =
            ground (arith, count, d n, y, count_waits-record wb n k more) in
          rw y (
            e,
            regular,
            delayed-IsCounted wb op (record n { prev_wait = k } ∷ more) (n ∷ less) next
                (DiffersBy-cons wb op n k n.prev_wait more less d) v,
          )
      | inr f ↦ rw f (
        ground (arith, count, d n, f),
        regular,
        delayed-IsCounted wb op (n ∷ more) (n ∷ less) next
            (DiffersBy-cons wb op n n.prev_wait n.prev_wait more less d) v,
      )
    ]

-- An operation that waits for nothing, put in front of a counted queue by `unshift_op`, makes those
-- wait one more which wait for it; the queue is counted again, and no operation is continued by it.
pub unshift_op-IsCounted :
    (wb : Bool) (op : ClientOp) (queue : List ClientOp)
    → op.prev_wait ≡ 0
    → IsRegular wb op
    → IsCounted wb [] queue
    → (unshift_op wb op queue ≡ some (op ∷ delay_all wb op queue, []))
      × IsCounted wb [] (op ∷ delay_all wb op queue)
unfolding unshift_op count_waits
unshift_op-IsCounted wb op queue z regular v = (
  rw (inc_wait-up wb op queue) refl,
  (z, regular, delayed-IsCounted wb op (op ∷ []) [] queue (λ x. refl) v),
)

-- The operations of a queue from the last one back, behind those given.
abbrev pub backward : List ClientOp → List ClientOp → List ClientOp
backward before [] = before
backward before (op ∷ next) = backward (op ∷ before) next

-- No SYNC and no write that flushes
abbrev pub HasNoBarrier : List ClientOp → Type 0
HasNoBarrier [] = Unit
HasNoBarrier (op ∷ next) =
    ((op.opcode == osd_op_sync) ≡ false)
    × ((is_write op.opcode && is_flush op.flags) ≡ false)
    × HasNoBarrier next

-- A new operation, which execute_internal counts, or else neither a SYNC nor a flush, and then a write
-- only where no barrier is in the queue.
abbrev pub MayArrive : Bool → List ClientOp → ClientOp → Type 0
MayArrive wb queue op =
    (is_tracked wb op.flags ≡ true)
    ⊎ ((op.prev_wait ≡ 0)
        × ((op.opcode == osd_op_sync) ≡ false)
        × (is_flush op.flags ≡ false)
        × ((is_write op.opcode ≡ false) ⊎ HasNoBarrier queue))
