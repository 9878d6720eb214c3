-- ===== src/Client/Erasure.antt =====
-- src/client/cluster_client.cpp: `inc_wait` and `erase_op` keep the counts, and what has waited goes on
-- waiting or is continued.
use vitastor.Base.{
  ℕ, zero, suc, ◌+◌, ◌≡◌, refl, sym, ap, ◌∙◌, inl, inr, Bool, true, false, not, ◌&&◌, List, [], ◌∷◌,
  ◌++◌, Option, some, ◌==◌, ◌!=◌, length, if◌then◌else◌, arith, Bool-cases,
}
use vitastor.Client.{
  ClientOp, down, is_tracked, is_write, osd_op_sync, waits_for, count_waits, is_affected, inc_one,
  inc_rest, inc_wait, erase_op,
}
use vitastor.Client.Counts.{
  IsCounted, weight, DiffersBy, DiffersBy-cons, count_waits-record, waits_for_other,
  is_affected-waits_for, waits_for_untracked, waiting, occurrences, occurrences-append, IsStarted,
}

-- The queue after a step, with the operations to continue.
abbrev pub Outcome : Type 0
Outcome = List ClientOp × List ClientOp

-- The step leaves as many operations, counted, and each that has waited waits or is continued.
abbrev pub IsKept : Bool → List ClientOp → List ClientOp → Outcome → Type 0
IsKept wb before next r =
    IsCounted wb before r.0
    × (length r.0 ≡ length next)
    × ((x : ℕ) → waiting x next ≡ occurrences x r.1 + waiting x r.0)

-- The step runs without a failed assertion and keeps the counts.
abbrev pub Keeps : Bool → List ClientOp → List ClientOp → Option Outcome → Type 0
Keeps wb before next o = (r : Outcome) × (o ≡ some r) × IsKept wb before next r

-- The operation to continue, if it has waited and waits no more.
abbrev pub freed : Bool → ClientOp → List ClientOp
freed waited op = if waited && op.prev_wait == 0 then op ∷ [] else []

-- One operation behind the one that leaves.
inc_one-down :
    (wb : Bool) (op next : ClientOp) (k : ℕ)
    → is_affected wb op.opcode op.flags next ≡ waits_for wb next op
    → next.prev_wait ≡ weight (waits_for wb next op) + k
    → (inc_one wb op.opcode op.flags down next
        ≡ some (
          record next { prev_wait = k },
          freed (waits_for wb next op) (record next { prev_wait = k }),
        ))
unfolding inc_one
inc_one-down wb op next k same n = elim (Bool-cases (waits_for wb next op)) [
  | inl y ↦ let e : next.prev_wait ≡ suc k = ground (arith, n, y) in ground (arith, same, y, e)
  | inr f ↦ let e : next.prev_wait ≡ k = ground (arith, n, f) in ground (arith, same, f, e)
]

waiting-freed :
    (x : ℕ) (op : ClientOp) (waited : Bool) (k : ℕ)
    → op.prev_wait ≡ weight waited + k
    → (if op.name == x && op.prev_wait != 0 then 1 else 0)
      ≡ occurrences x (freed waited (record op { prev_wait = k }))
        + (if op.name == x && k != 0 then 1 else 0)
unfolding occurrences
waiting-freed x op true k e = ground (arith, e)
waiting-freed x op false k e = ground (arith, e)

-- The loop, when an operation leaves.
inc_rest-down :
    (wb : Bool) (op : ClientOp) (more less : List ClientOp) (next : List ClientOp)
    → DiffersBy wb op more less
    → ((x : ClientOp) → is_affected wb op.opcode op.flags x ≡ waits_for wb x op)
    → IsCounted wb more next
    → Keeps wb less next (inc_rest wb op.opcode op.flags down next)
unfolding inc_rest waiting occurrences
inc_rest-down wb op more less [] d same v = (([], []), refl, (tt, refl, λ x. refl))
inc_rest-down wb op more less (n ∷ next) d same (count, regular, behind) =
    let k : ℕ = count_waits wb n less in
    let now : ClientOp = record n { prev_wait = k } in
    let before = count ∙ d n in
    let (r, run, (counted, size, kept)) =
      inc_rest-down wb op (n ∷ more) (now ∷ less) next
        (DiffersBy-cons wb op n n.prev_wait k more less d) same behind in
    (
      (now ∷ r.0, freed (waits_for wb n op) now ++ r.1),
      rw (inc_one-down wb op n k (same n) before, run) refl,
      (
        (sym (count_waits-record wb n k less), regular, counted),
        ap suc size,
        λ x. omega (
          arith,
          kept x,
          waiting-freed x n (waits_for wb n op) k before,
          occurrences-append x (freed (waits_for wb n op) now) r.1,
        ),
      ),
    )

-- Operations that do not wait for the one that leaves stay as they are.
stays :
    (wb : Bool) (op : ClientOp) (more less : List ClientOp) (next : List ClientOp)
    → DiffersBy wb op more less
    → ((x : ClientOp) → waits_for wb x op ≡ false)
    → IsCounted wb more next
    → Keeps wb less next (some (next, []))
unfolding waiting occurrences
stays wb op more less next d none_waits v =
    ((next, []), refl, (counts more less next d v, refl, λ x. omega arith))
  where
    counts :
        (more less : List ClientOp) (next : List ClientOp)
        → DiffersBy wb op more less
        → IsCounted wb more next
        → IsCounted wb less next
    counts more less [] d v = tt
    counts more less (n ∷ next) d (count, regular, behind) = (
      count ∙ ground (arith, d n, none_waits n),
      regular,
      counts (n ∷ more) (n ∷ less) next (DiffersBy-cons wb op n n.prev_wait n.prev_wait more less d)
          behind,
    )

-- `inc_wait`, when an operation leaves.
inc_wait-down :
    (wb : Bool) (op : ClientOp) (more less : List ClientOp) (next : List ClientOp)
    → DiffersBy wb op more less
    → IsCounted wb more next
    → Keeps wb less next (inc_wait wb op.opcode op.flags down next)
unfolding inc_wait
inc_wait-down wb op more less next d v =
    elim (Bool-cases (not (is_write op.opcode) && op.opcode != osd_op_sync)) [
      | inl y ↦ rw y (stays wb op more less next d (λ x. waits_for_other wb x op y) v)
      | inr n ↦ rw n (inc_rest-down wb op more less next d (λ x. is_affected-waits_for wb x op n) v)
    ]

-- The queue without one started operation: it is counted, and what has waited in it waits or is
-- continued.
abbrev pub IsErased : Bool → List ClientOp → List ClientOp → Outcome → Type 0
IsErased wb before queue r =
    IsCounted wb before r.0
    × (length queue ≡ suc (length r.0))
    × ((x : ℕ) → waiting x queue ≡ occurrences x r.1 + waiting x r.0)

erase_here :
    (wb : Bool) (before : List ClientOp) (op : ClientOp) (next : List ClientOp)
    → IsCounted wb before (op ∷ next)
    → Keeps wb before next (erase_op wb 0 (op ∷ next))
unfolding erase_op count_waits
erase_here wb before op next (count, regular, v) = elim (Bool-cases (is_tracked wb op.flags)) [
  | inl y ↦ rw y (inc_wait-down wb op (op ∷ before) before next (λ x. refl) v)
  | inr n ↦ rw n (
      stays wb op (op ∷ before) before next (λ x. refl) (λ x. waits_for_untracked wb x op n regular)
        v)
]

pub erase_op-IsErased :
    (wb : Bool) (before : List ClientOp) (n : ℕ) (queue : List ClientOp)
    → IsCounted wb before queue
    → IsStarted n queue
    → (r : Outcome) × (erase_op wb n queue ≡ some r) × IsErased wb before queue r
unfolding erase_op waiting
erase_op-IsErased wb before n [] v s = absurd s
erase_op-IsErased wb before zero (op ∷ next) v s =
    let (r, run, (counted, size, kept)) = erase_here wb before op next v in
    (r, run, (counted, ap suc (sym size), λ x. ground (arith, kept x, s)))
erase_op-IsErased wb before (suc n) (op ∷ next) (count, regular, v) s =
    let (r, run, (counted, size, kept)) = erase_op-IsErased wb (op ∷ before) n next v s in
    (
      (op ∷ r.0, r.1),
      rw run refl,
      ((count, regular, counted), ap suc size, λ x. omega (arith, kept x)),
    )
