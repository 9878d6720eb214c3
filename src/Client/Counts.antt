-- ===== src/Client/Counts.antt =====
-- src/client/cluster_client.cpp: what `prev_wait` counts, and that the tests of `calc_wait` and
-- `inc_wait` are the same.
use vitastor.Base.{
  ℕ, zero, suc, ◌+◌, ◌≡◌, refl, ◌⊎◌, Bool, true, false, not, ◌&&◌, List, [], ◌∷◌, ◌++◌, ◌==◌, ◌!=◌,
  if◌then◌else◌, arith,
}
use vitastor.Client.{
  ClientOp, is_flush, is_tracked, is_write, osd_op_sync, waits_for, count_waits, is_affected,
}

-- An operation that is not tracked holds no other one up.
abbrev pub IsRegular : Bool → ClientOp → Type 0
IsRegular wb op =
    (is_tracked wb op.flags ≡ true)
    ⊎ (((op.opcode == osd_op_sync) ≡ false) × (is_flush op.flags ≡ false))

-- Each operation counts the earlier ones that it waits for. Those before the queue are given.
abbrev pub IsCounted : Bool → List ClientOp → List ClientOp → Type 0
IsCounted wb before [] = Unit
IsCounted wb before (op ∷ next) =
    (op.prev_wait ≡ count_waits wb op before) × IsRegular wb op × IsCounted wb (op ∷ before) next

-- 1 if an operation waits for another.
abbrev pub weight : Bool → ℕ
weight b = if b then 1 else 0

-- Two lists of earlier operations differ by one operation, for all that wait.
abbrev pub DiffersBy : Bool → ClientOp → List ClientOp → List ClientOp → Type 0
DiffersBy wb op more less =
    (x : ClientOp) → count_waits wb x more ≡ weight (waits_for wb x op) + count_waits wb x less

pub DiffersBy-cons :
    (wb : Bool) (op next : ClientOp) (n m : ℕ) (more less : List ClientOp)
    → DiffersBy wb op more less
    → DiffersBy wb op (record next { prev_wait = n } ∷ more) (record next { prev_wait = m } ∷ less)
unfolding count_waits waits_for
DiffersBy-cons wb op next n m more less d x = ground (arith, d x)

-- What an operation waits for does not depend on what it has counted.
pub count_waits-record :
    (wb : Bool) (op : ClientOp) (n : ℕ) (before : List ClientOp)
    → count_waits wb (record op { prev_wait = n }) before ≡ count_waits wb op before
unfolding count_waits waits_for
count_waits-record wb op n [] = refl
count_waits-record wb op n (prev ∷ before) = ground (arith, count_waits-record wb op n before)

-- An operation that neither syncs nor writes holds nothing up.
pub waits_for_other :
    (wb : Bool) (x op : ClientOp)
    → (not (is_write op.opcode) && op.opcode != osd_op_sync) ≡ true
    → waits_for wb x op ≡ false
unfolding waits_for
waits_for_other wb x op h = ground arith

pub is_affected-waits_for :
    (wb : Bool) (x op : ClientOp)
    → (not (is_write op.opcode) && op.opcode != osd_op_sync) ≡ false
    → is_affected wb op.opcode op.flags x ≡ waits_for wb x op
unfolding waits_for is_affected
is_affected-waits_for wb x op h = ground arith

pub waits_for_untracked :
    (wb : Bool) (x op : ClientOp)
    → is_tracked wb op.flags ≡ false
    → IsRegular wb op
    → waits_for wb x op ≡ false
unfolding waits_for
waits_for_untracked wb x op h r = ground (arith, h, r)

-- How many operations of a name wait.
unfoldable pub waiting : ℕ → List ClientOp → ℕ
waiting name [] = 0
waiting name (op ∷ next) =
    (if op.name == name && op.prev_wait != 0 then 1 else 0) + waiting name next

-- How many operations of a name are in a list.
unfoldable pub occurrences : ℕ → List ClientOp → ℕ
occurrences name [] = 0
occurrences name (op ∷ ops) = (if op.name == name then 1 else 0) + occurrences name ops

pub occurrences-append :
    (x : ℕ) (xs ys : List ClientOp) → occurrences x (xs ++ ys) ≡ occurrences x xs + occurrences x ys
unfolding occurrences
occurrences-append x [] ys = omega arith
occurrences-append x (op ∷ xs) ys = omega (arith, occurrences-append x xs ys)

-- The operation at a place is there and waits for nothing.
abbrev pub IsStarted : ℕ → List ClientOp → Type 0
IsStarted n [] = ⊥
IsStarted zero (op ∷ next) = op.prev_wait ≡ 0
IsStarted (suc n) (op ∷ next) = IsStarted n next
