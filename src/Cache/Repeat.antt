-- ===== src/Cache/Repeat.antt =====
-- src/client/cluster_client_wb.cpp: `repeat_ops_for`. Whether a range of an image affects an OSD or a
-- placement group is asked of the client, by a function of the inode, the offset and the length.
use vitastor.Base.{
  ℕ, ◌+◌, ◌-◌, ◌%◌, ◌^◌, ◌<◌, ◌≡◌, refl, ◌∙◌, Bool, true, false, not, ◌&&◌, ◌||◌, List, [], ◌∷◌,
  ◌++◌, Option, none, some, ◌==◌, ◌!=◌, if◌then◌else◌, ◌>>=◌, arith,
}
use vitastor.Base.Words.{add32}
use vitastor.Cache.{written, is_dirty, Buffer, end_of, Counters, rewind}
use vitastor.Cache.Flush.{is_repeating, FlushOp, last_of, flush_buffers, send_buffers, hold, sent}
use vitastor.Cache.Content.{iov_len}

-- `flush_this`
abbrev pub is_lost : (ℕ → ℕ → ℕ → Bool) → Buffer → Bool
is_lost affects w =
    not (is_repeating w.state) && not (is_dirty w.state) && affects w.inode w.stripe w.len

-- The buffer `w` does not go on with the run, which is backwards.
abbrev pub ends_run : List Buffer → Buffer → Bool → Bool
ends_run [] w this = false
ends_run (r ∷ rs) w this = not this || w.inode != (last_of r rs).inode || w.stripe != end_of r

-- `flush_buffers` for a run: its buffers, the counters and the operation.
unfoldable pub send_run : List Buffer → Counters → Option (List Buffer × Counters × FlushOp)
send_run run c = elim (rewind run []) [
  | [] ↦ none
  | e ∷ es ↦ flush_buffers [] e es [] c >>= λ r. some (r.0.dirty_buffers, r.0.counters, r.1)
]

-- The loop of `repeat_ops_for`
unfoldable pub repeat_loop :
    (ℕ → ℕ → ℕ → Bool)
    → List Buffer
    → List Buffer
    → Counters
    → Option (List Buffer × Counters × List FlushOp)
repeat_loop affects [] [] c = some ([], c, [])
repeat_loop affects (r ∷ rs) [] c = send_run (r ∷ rs) c >>= λ s. some (s.0, s.1, s.2 ∷ [])
repeat_loop affects run (w ∷ ws) c =
    let this = is_lost affects w in
    let start = λ (d : Counters).
      if this
      then repeat_loop affects (w ∷ []) ws d
      else (repeat_loop affects [] ws d >>= λ t. some (w ∷ t.0, t.1, t.2)) in
    let go_on = repeat_loop affects (w ∷ run) ws c in
    let cut_here = send_run run c >>= λ s. start (s.1) >>= λ t. some (s.0 ++ t.0, t.1, s.2 ∷ t.2) in
    if ends_run run w this then cut_here else if this then go_on else start c

-- `repeat_ops_for`, whose result is the number of the operations.
unfoldable pub repeat_ops_for :
    (ℕ → ℕ → ℕ → Bool) → List Buffer → Counters → Option (List Buffer × Counters × List FlushOp)
repeat_ops_for affects es c = repeat_loop affects [] es c

-- A written range of `n` bytes, and a deleted range of `k` bytes behind it.
abbrev pub written_range : ℕ → ℕ → ℕ → ℕ → ℕ → Buffer
written_range inode stripe a n refcnt = record {
  inode = inode;
  stripe = stripe;
  buf = some a;
  len = n;
  state = written;
  flush_id = 0;
  refcnt = refcnt;
}

abbrev pub deleted_range : ℕ → ℕ → ℕ → Buffer
deleted_range inode stripe k = record {
  inode = inode;
  stripe = stripe;
  buf = none;
  len = k;
  state = written;
  flush_id = 0;
  refcnt = 0;
}

-- The operation that repeats both.
abbrev pub mixed_op : ℕ → ℕ → ℕ → ℕ → ℕ → ℕ → FlushOp
mixed_op inode stripe a n k flush_id = record {
  is_delete = false;
  inode = inode;
  offset = stripe;
  len = n + k;
  iov = (a, n) ∷ [];
  flush_id = flush_id;
  is_writeback = false;
}

send_run_mixed :
    (inode stripe a n k refcnt : ℕ) (c : Counters)
    → n + k < 2 ^ 32
    → (es : List Buffer) × (d : Counters) × (send_run
          (deleted_range inode (stripe + n) k ∷ written_range inode stripe a n refcnt ∷ [])
          c
        ≡ some (es, d, mixed_op inode stripe a n k (c.last_flush_id + 1)))
unfolding send_run flush_buffers send_buffers rewind
send_run_mixed inode stripe a n k refcnt c h =
    let whole : stripe + n + k - stripe ≡ n + k = omega arith in
    let sum : (add32 (add32 0 (n % 2 ^ 32)) (k % 2 ^ 32) == n + k) ≡ true = ground (arith, h) in
    let id = c.last_flush_id + 1 in
    let first = written_range inode stripe a n refcnt in
    let last = deleted_range inode (stripe + n) k in
    let held = hold id last (hold id first (record c { last_flush_id = id })) in
    (
      sent id first ∷ sent id last ∷ [],
      record held { writebacks_active = held.writebacks_active + 1 },
      rw (whole, sum) refl,
    )

repeat_loop_mixed :
    (affects : ℕ → ℕ → ℕ → Bool) (inode stripe a n k refcnt : ℕ) (c : Counters)
    → affects inode stripe n ≡ true
    → affects inode (stripe + n) k ≡ true
    → repeat_ops_for affects
        (written_range inode stripe a n refcnt ∷ deleted_range inode (stripe + n) k ∷ [])
        c
      ≡ (send_run
            (deleted_range inode (stripe + n) k ∷ written_range inode stripe a n refcnt ∷ [])
            c
          >>= λ s. some (s.0, s.1, s.2 ∷ []))
unfolding repeat_ops_for repeat_loop
repeat_loop_mixed affects inode stripe a n k refcnt c first last =
    let same : (inode != inode) ≡ false = ground arith in
    let next : (stripe + n != stripe + n) ≡ false = ground arith in
    rw (first, last, same, next) refl

-- Where a written range is followed by a deleted one and both are lost, `repeat_ops_for` sends one
-- write over both, whose data are those of the first range alone, and no deletion. Both have fewer
-- than 2 ^ 32 bytes together.
pub repeat_ops_for-mixed_op :
    (affects : ℕ → ℕ → ℕ → Bool) (inode stripe a n k refcnt : ℕ) (c : Counters)
    → affects inode stripe n ≡ true
    → affects inode (stripe + n) k ≡ true
    → n + k < 2 ^ 32
    → (es : List Buffer) × (d : Counters) × (repeat_ops_for affects
          (written_range inode stripe a n refcnt ∷ deleted_range inode (stripe + n) k ∷ [])
          c
        ≡ some (es, d, mixed_op inode stripe a n k (c.last_flush_id + 1) ∷ []))
      × (iov_len (mixed_op inode stripe a n k (c.last_flush_id + 1)).iov ≡ n)
repeat_ops_for-mixed_op affects inode stripe a n k refcnt c first last h =
    let (es, d, run) = send_run_mixed inode stripe a n k refcnt c h in
    (
      es,
      d,
      repeat_loop_mixed affects inode stripe a n k refcnt c first last ∙ rw run refl,
      omega arith,
    )
