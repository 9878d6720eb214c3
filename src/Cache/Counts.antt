-- ===== src/Cache/Counts.antt =====
-- src/client/cluster_client_wb.cpp: the counters of `copy_write`, for each way to cut a buffer.
use vitastor.Base.{
  ℕ, ◌+◌, ◌-◌, ◌^◌, ◌<◌, ◌≤◌, ◌≡◌, refl, sym, ◌⊎◌, inl, inr, Bool, true, false, not, ◌&&◌, List,
  ◌∷◌, Option, none, some, if◌then◌else◌, arith, Bool-cases, lt→ltb,
}
use vitastor.Cache.{is_dirty, Buffer, end_of, Counters, is_left_merged, is_right_merged}
use vitastor.Cache.Order.{head, Before, IsSorted}
use vitastor.Cache.Sums.{
  dirty_bytes, starts, runs, back_runs, runs_late, is_left_merged_lem, runs_same_end, is_some-map,
}
use vitastor.Cache.Write.{
  head_part, tail_part, add_ref, drop_ref, take_bytes, more_queued, less_queued, remove_buffer,
}

-- The counters agree with the buffers at an iterator, and `spare` more bytes can be counted.
pub record IsCounted (spare : ℕ) (before after : List Buffer) (c : Counters) : Type 0 where
  pub bytes : c.writeback_bytes ≡ dirty_bytes before + dirty_bytes after
  pub small : dirty_bytes before + dirty_bytes after + spare < 2 ^ 64
  pub queue : c.writeback_queue_size ≡ back_runs before + runs (head before) after

starts-head_part :
    (off : ℕ) (p : Option Buffer) (e : Buffer) → starts p (head_part off e) ≡ starts p e
starts-head_part off none e = refl
starts-head_part off (some p) e = refl

-- The counters after one buffer is shortened at its end.
pub shorten-IsCounted :
    {spare : ℕ} (off : ℕ) (before : List Buffer) (e : Buffer) (rest : List Buffer) (c : Counters)
    → e.stripe < off
    → off < end_of e
    → IsSorted (some e) rest
    → IsCounted spare before (e ∷ rest) c
    → IsCounted spare
        (head_part off e ∷ before)
        rest
        (more_queued (is_dirty e.state && is_right_merged e rest) (take_bytes (end_of e - off) e c))
unfolding more_queued take_bytes dirty_bytes runs back_runs
shorten-IsCounted off before e rest c lo hi v k =
    let late = runs_late (some (head_part off e)) e rest off hi (inr (refl, omega (arith, lo))) v in
    record {
      bytes = ground (arith, k.bytes, k.small);
      small = ground (arith, k.small);
      queue = ground (arith, k.queue, late, starts-head_part off (head before) e);
    }

-- The counters after a buffer is cut in two.
pub split-IsCounted :
    {spare : ℕ} (off new_end : ℕ) (before : List Buffer) (e : Buffer) (rest : List Buffer)
    (c : Counters)
    → e.stripe < off
    → off < new_end
    → new_end < end_of e
    → IsCounted spare before (e ∷ rest) c
    → IsCounted spare
        (head_part off e ∷ before)
        (tail_part new_end e ∷ rest)
        (more_queued (is_dirty e.state) (take_bytes (new_end - off) e (add_ref e c)))
unfolding more_queued take_bytes dirty_bytes runs back_runs add_ref
split-IsCounted off new_end before e rest c lo mid hi k =
    let same =
      runs_same_end e (tail_part new_end e) rest refl (sym (is_some-map _ e.buf)) (omega arith)
        refl in
    let left = starts-head_part off (head before) e in
    let some_buf = is_some-map (λ a. a + (new_end - e.stripe)) e.buf in
    record {
      bytes = ground (arith, k.bytes, k.small, some_buf);
      small = ground (arith, k.small, some_buf);
      queue = ground (arith, k.queue, same, left);
    }

-- A buffer that begins behind the end of the one before starts a request.
pub starts_late :
    (p : Option Buffer) (f : Buffer) (off : ℕ)
    → Before p f.inode off
    → off < f.stripe
    → starts p f ≡ (if is_dirty f.state then 1 else 0)
starts_late none f off b h = refl
starts_late (some p) f off b h = ground (arith, b)

-- The counters after a buffer loses its beginning.
pub behead-IsCounted :
    {spare : ℕ} (off new_end : ℕ) (before : List Buffer) (e : Buffer) (rest : List Buffer)
    (c : Counters)
    → off ≤ e.stripe
    → e.stripe < new_end
    → new_end < end_of e
    → Before (head before) e.inode e.stripe
    → IsCounted spare before (e ∷ rest) c
    → IsCounted spare before (tail_part new_end e ∷ rest) (
        more_queued
          (is_dirty e.state && is_left_merged before e)
          (take_bytes (new_end - e.stripe) e c))
unfolding more_queued take_bytes dirty_bytes runs
behead-IsCounted off new_end before e rest c lo mid hi fits k =
    let same =
      runs_same_end e (tail_part new_end e) rest refl (sym (is_some-map _ e.buf)) (omega arith)
        refl in
    let left = is_left_merged_lem before e in
    let some_buf = is_some-map (λ a. a + (new_end - e.stripe)) e.buf in
    record {
      bytes = ground (arith, k.bytes, k.small, some_buf);
      small = ground (arith, k.small, some_buf);
      queue = ground (
        arith,
        k.queue,
        same,
        left,
        starts_late (head before) (tail_part new_end e) e.stripe fits mid,
      );
    }

abbrev pub fewer : Bool → Counters → Counters
fewer b c = if b then record c { writeback_queue_size = c.writeback_queue_size - 1 } else c

pub less_queued_lem :
    (b : Bool) (c : Counters)
    → (b ≡ false) ⊎ (0 < c.writeback_queue_size)
    → less_queued b c ≡ some (fewer b c)
unfolding less_queued
less_queued_lem false c h = refl
less_queued_lem true c (inl h) = absurd (ground (arith, h))
less_queued_lem true c (inr h) = rw (lt→ltb _ _ h) refl

pub drop_ref_sums :
    (e : Buffer) (c : Counters)
    → ((drop_ref e c).writeback_bytes ≡ c.writeback_bytes)
      × ((drop_ref e c).writeback_queue_size ≡ c.writeback_queue_size)
unfolding drop_ref
drop_ref_sums e c = ground arith

remove_buffer_dirty :
    (before : List Buffer) (e : Buffer) (rest : List Buffer) (c g : Counters)
    → is_dirty e.state ≡ true
    → less_queued
        (not (is_left_merged before e) && not (is_right_merged e rest))
        (more_queued (is_left_merged before e && is_right_merged e rest) (take_bytes e.len e c))
      ≡ some g
    → remove_buffer before e rest c ≡ some (drop_ref e g)
unfolding remove_buffer
remove_buffer_dirty before e rest c g y h = rw (y, h) refl

remove_buffer_clean :
    (before : List Buffer) (e : Buffer) (rest : List Buffer) (c : Counters)
    → is_dirty e.state ≡ false
    → remove_buffer before e rest c ≡ some (drop_ref e (take_bytes e.len e c))
unfolding remove_buffer
remove_buffer_clean before e rest c n = rw n refl

-- The counters after a buffer is removed.
pub remove-IsCounted :
    {spare : ℕ} (before : List Buffer) (e : Buffer) (rest : List Buffer) (c : Counters)
    → 0 < e.len
    → Before (head before) e.inode e.stripe
    → IsSorted (some e) rest
    → IsCounted spare before (e ∷ rest) c
    → (d : Counters) × (remove_buffer before e rest c ≡ some d) × IsCounted spare before rest d
unfolding more_queued take_bytes dirty_bytes runs
remove-IsCounted before e rest c pos fits v k =
    let late = runs_late (head before) e rest e.stripe (omega arith) fits v in
    let left = is_left_merged_lem before e in
    let lm = is_left_merged before e in
    let rm = is_right_merged e rest in
    let d = take_bytes e.len e c in
    elim (Bool-cases (is_dirty e.state)) [
      | inr n ↦
          let sums = drop_ref_sums e d in
          (
            drop_ref e d,
            remove_buffer_clean before e rest c n,
            record {
              bytes = ground (arith, sums, k.bytes, k.small, n);
              small = ground (arith, k.small);
              queue = ground (arith, sums, k.queue, late, left, n);
            },
          )
      | inl y ↦
          let f = more_queued (lm && rm) d in
          let g = fewer (not lm && not rm) f in
          let sums = drop_ref_sums e g in
          let enough : ((not lm && not rm) ≡ false) ⊎ (0 < f.writeback_queue_size) =
            ground (arith, k.queue, left, y) in
          (
            drop_ref e g,
            remove_buffer_dirty before e rest c g y (less_queued_lem (not lm && not rm) f enough),
            record {
              bytes = ground (arith, sums, k.bytes, k.small, y);
              small = ground (arith, k.small);
              queue = ground (arith, sums, k.queue, late, left, y);
            },
          )
    ]
