-- ===== src/Cache/Finish.antt =====
-- src/client/cluster_client_wb.cpp: the callback of `flush_buffers`, seen from a position of an image.
use vitastor.Base.{
  ℕ, ◌+◌, ◌-◌, ◌≡◌, refl, sym, ◌∙◌, ap, inl, inr, Bool, true, false, ◌&&◌, List, [], ◌∷◌, Option,
  none, some, ltb, ◌==◌, if◌then◌else◌, arith, Bool-cases,
}
use vitastor.Cache.{
  CacheState, dirty, written, flushing, repeating, is_dirty, Buffer, end_of, rewind, find_dirty,
  Counters,
}
use vitastor.Cache.Order.{
  head, Before, Before-back, IsSorted, IsBackSorted, find_dirty-IsFound, Behind, Behind-front,
  Reaches,
}
use vitastor.Cache.Cut.{Reaches-next}
use vitastor.Cache.Write.{Cache, drop_ref, update}
use vitastor.Cache.Counts.{drop_ref_sums}
use vitastor.Cache.Insert.{IsValid}
use vitastor.Cache.Settle.{
  Step, IsClean, IsCleanState, settle, buffer_at, step_at, buffer_at-settle,
}
use vitastor.Cache.Sync.{stay, settle-IsValid}
use vitastor.Cache.Flush.{
  is_repeating, delete_loop, delete_flush, mark_loop, mark_flush_written, FlushOp, release_flushed,
  finish_flush,
}

-- The buffer is one of the flush and reaches into its range.
abbrev pub in_flush : ℕ → ℕ → ℕ → ℕ → Buffer → Bool
in_flush inode off new_end flush_id e =
    e.inode == inode
    && ltb e.stripe new_end
    && ltb off (end_of e)
    && (e.flush_id == flush_id && is_repeating e.state)

-- What a finished flush does to a buffer: it is dropped, or is written.
abbrev pub finished : Bool → ℕ → ℕ → ℕ → ℕ → Step
finished immediate_commit inode off new_end flush_id e =
    if in_flush inode off new_end flush_id e
    then (if immediate_commit then none else some (written, 0))
    else stay e

finished-IsClean :
    (ic : Bool) (inode off new_end flush_id : ℕ) → IsClean (finished ic inode off new_end flush_id)
finished-IsClean ic inode off new_end flush_id e =
    elim (Bool-cases (in_flush inode off new_end flush_id e)) [
      | inr n ↦ inl (rw n refl)
      | inl y ↦ inr (clean e.state (ground (arith, y)), rw y (clean_step ic))
    ]
  where
    clean : (s : CacheState) → is_repeating s ≡ true → is_dirty s ≡ false
    clean dirty h = cc
    clean written h = refl
    clean flushing h = refl
    clean repeating h = refl

    clean_step : (ic : Bool) → IsCleanState (if ic then none else some (written, 0))
    clean_step true = tt
    clean_step false = refl

-- Buffers behind the range stay.
settle-Behind :
    (ic : Bool) (inode off new_end flush_id : ℕ) (prev : Option Buffer) (es : List Buffer)
    → IsSorted prev es
    → Behind (head es) inode new_end
    → settle (finished ic inode off new_end flush_id) es ≡ es
unfolding settle
settle-Behind ic inode off new_end flush_id prev [] v b = refl
settle-Behind ic inode off new_end flush_id prev (e ∷ es) (pos, fits, front) b =
    let out : in_flush inode off new_end flush_id e ≡ false = ground (arith, b) in
    rw out (
      ap (λ r. e ∷ r)
        (settle-Behind ic inode off new_end flush_id (some e) es front
          (Behind-front e es inode new_end front b)))

-- Buffers before the range stay.
settle-Before :
    (ic : Bool) (inode off new_end flush_id : ℕ) (before after : List Buffer)
    → IsBackSorted before
    → Before (head before) inode off
    → settle (finished ic inode off new_end flush_id) (rewind before after)
      ≡ rewind before (settle (finished ic inode off new_end flush_id) after)
unfolding settle rewind
settle-Before ic inode off new_end flush_id [] after v b = refl
settle-Before ic inode off new_end flush_id (p ∷ ps) after (pos, fits, back) b =
    let out : in_flush inode off new_end flush_id p ≡ false = ground (arith, b) in
    settle-Before ic inode off new_end flush_id ps (p ∷ after) back
      (Before-back p ps inode off fits b)
    ∙ rw out refl

delete_loop-eq-settle :
    (inode off new_end flush_id : ℕ) (prev : Option Buffer) (es : List Buffer) (c : Counters)
    → IsSorted prev es
    → Reaches es inode off
    → (delete_loop inode new_end flush_id es c).0
      ≡ settle (finished true inode off new_end flush_id) es
unfolding delete_loop settle
delete_loop-eq-settle inode off new_end flush_id prev [] c v r = refl
delete_loop-eq-settle inode off new_end flush_id prev (e ∷ es) c (pos, fits, front) r =
    elim (Bool-cases (e.inode == inode && ltb e.stripe new_end)) [
      | inr n ↦
          let stop : (delete_loop inode new_end flush_id (e ∷ es) c).0 ≡ e ∷ es = rw n refl in
          stop
          ∙ sym (
              settle-Behind true inode off new_end flush_id prev (e ∷ es) (pos, fits, front)
                (ground (arith, n, r)))
      | inl y ↦
          let next = Reaches-next inode off e es (ground (arith, y)) (ground (arith, y, r)) front in
          let reach : ltb off (end_of e) ≡ true = ground (arith, y, r) in
          elim (Bool-cases (e.flush_id == flush_id && is_repeating e.state)) [
            | inl gone ↦
                rw (y, reach, gone)
                  (delete_loop-eq-settle inode off new_end flush_id (some e) es (drop_ref e c) front
                    next)
            | inr kept ↦
                rw (y, reach, kept)
                  (ap (λ r. e ∷ r)
                    (delete_loop-eq-settle inode off new_end flush_id (some e) es c front next))
          ]
    ]

delete_loop_sums :
    (inode new_end flush_id : ℕ) (es : List Buffer) (c : Counters)
    → ((delete_loop inode new_end flush_id es c).1.writeback_bytes ≡ c.writeback_bytes)
      × ((delete_loop inode new_end flush_id es c).1.writeback_queue_size ≡ c.writeback_queue_size)
unfolding delete_loop
delete_loop_sums inode new_end flush_id [] c = (refl, refl)
delete_loop_sums inode new_end flush_id (e ∷ es) c =
    let gone = delete_loop_sums inode new_end flush_id es (drop_ref e c) in
    let kept = delete_loop_sums inode new_end flush_id es c in
    let d = drop_ref_sums e c in
    elim (Bool-cases (e.inode == inode && ltb e.stripe new_end)) [
      | inr n ↦ rw n (refl, refl)
      | inl y ↦ elim (Bool-cases (e.flush_id == flush_id && is_repeating e.state)) [
        | inl z ↦ rw (y, z) (gone.0 ∙ d.0, gone.1 ∙ d.1)
        | inr n ↦ rw (y, n) kept
      ]
    ]

mark_loop-eq-settle :
    (inode off new_end flush_id : ℕ) (prev : Option Buffer) (es : List Buffer)
    → IsSorted prev es
    → Reaches es inode off
    → mark_loop inode new_end flush_id es ≡ settle (finished false inode off new_end flush_id) es
unfolding mark_loop settle
mark_loop-eq-settle inode off new_end flush_id prev [] v r = refl
mark_loop-eq-settle inode off new_end flush_id prev (e ∷ es) (pos, fits, front) r =
    elim (Bool-cases (e.inode == inode && ltb e.stripe new_end)) [
      | inr n ↦
          let stop : mark_loop inode new_end flush_id (e ∷ es) ≡ e ∷ es = rw n refl in
          stop
          ∙ sym (
              settle-Behind false inode off new_end flush_id prev (e ∷ es) (pos, fits, front)
                (ground (arith, n, r)))
      | inl y ↦
          let next = Reaches-next inode off e es (ground (arith, y)) (ground (arith, y, r)) front in
          let reach : ltb off (end_of e) ≡ true = ground (arith, y, r) in
          let rest = mark_loop-eq-settle inode off new_end flush_id (some e) es front next in
          elim (Bool-cases (e.flush_id == flush_id && is_repeating e.state)) [
            | inl z ↦
                rw (y, reach, z) (ap (λ r. record e { flush_id = 0; state = written } ∷ r) rest)
            | inr n ↦ rw (y, reach, n) (ap (λ r. e ∷ r) rest)
          ]
    ]

release_flushed_sums :
    (flush_id : ℕ) (flushed : List (ℕ × ℕ)) (c : Counters)
    → ((release_flushed flush_id flushed c).writeback_bytes ≡ c.writeback_bytes)
      × ((release_flushed flush_id flushed c).writeback_queue_size ≡ c.writeback_queue_size)
unfolding release_flushed
release_flushed_sums flush_id [] c = (refl, refl)
release_flushed_sums flush_id ((id, p) ∷ flushed) c =
    let gone = release_flushed_sums flush_id flushed (record c {
      refs = update c.refs p (c.refs p - 1);
      freed = if c.refs p == 1 then p ∷ c.freed else c.freed;
    }) in
    let kept = release_flushed_sums flush_id flushed c in
    elim (Bool-cases (id == flush_id)) [ inl y ↦ rw y gone | inr n ↦ rw n kept ]

-- The cache with the flush's references given back.
abbrev released : ℕ → Cache → Cache
released flush_id cache = record cache {
  counters = release_flushed flush_id cache.counters.flushed_buffers cache.counters;
}

abbrev less_active : Cache → Cache
less_active cache = record cache {
  counters = record cache.counters { writebacks_active = cache.counters.writebacks_active - 1 };
}

-- A step of a finished flush in both modes: what it leaves of the buffers, and of the sums.
record IsFinished (f : Step) (cache cache' : Cache) : Type 0 where
  buffers : cache'.dirty_buffers ≡ settle f cache.dirty_buffers
  bytes : cache'.counters.writeback_bytes ≡ cache.counters.writeback_bytes
  queue : cache'.counters.writeback_queue_size ≡ cache.counters.writeback_queue_size

finish-of_place :
    (ic : Bool) (inode off new_end flush_id : ℕ) (es part : List Buffer)
    → IsSorted none es
    → part ≡ settle (finished ic inode off new_end flush_id) (find_dirty inode off es).after
    → rewind (find_dirty inode off es).before part
      ≡ settle (finished ic inode off new_end flush_id) es
finish-of_place ic inode off new_end flush_id es part v h =
    let found = find_dirty-IsFound es inode off v in
    let place = find_dirty inode off es in
    ap (rewind place.before) h
    ∙ sym (
        settle-Before ic inode off new_end flush_id place.before place.after found.place.0
          found.before)
    ∙ ap (settle (finished ic inode off new_end flush_id)) found.whole

delete_flush-IsFinished :
    (inode off len flush_id : ℕ) (cache : Cache)
    → IsSorted none cache.dirty_buffers
    → IsFinished
        (finished true inode off (off + len) flush_id)
        cache
        (delete_flush inode off len flush_id cache)
unfolding delete_flush
delete_flush-IsFinished inode off len flush_id cache v =
    let es = cache.dirty_buffers in
    let place = find_dirty inode off es in
    let found = find_dirty-IsFound es inode off v in
    let sums = delete_loop_sums inode (off + len) flush_id place.after cache.counters in
    record {
      buffers =
          finish-of_place true inode off (off + len) flush_id es
            (delete_loop inode (off + len) flush_id place.after cache.counters).0 v
            (delete_loop-eq-settle inode off (off + len) flush_id (head place.before) place.after
              cache.counters found.place.1 found.after);
      bytes = sums.0;
      queue = sums.1;
    }

mark_flush_written-IsFinished :
    (inode off len flush_id : ℕ) (cache : Cache)
    → IsSorted none cache.dirty_buffers
    → IsFinished
        (finished false inode off (off + len) flush_id)
        cache
        (mark_flush_written inode off len flush_id cache)
unfolding mark_flush_written
mark_flush_written-IsFinished inode off len flush_id cache v =
    let es = cache.dirty_buffers in
    let place = find_dirty inode off es in
    let found = find_dirty-IsFound es inode off v in
    record {
      buffers =
          finish-of_place false inode off (off + len) flush_id es
            (mark_loop inode (off + len) flush_id place.after) v
            (mark_loop-eq-settle inode off (off + len) flush_id (head place.before) place.after
              found.place.1 found.after);
      bytes = refl;
      queue = refl;
    }

finish_flush_run :
    (op : FlushOp) (ic : Bool) (cache : Cache)
    → IsSorted none cache.dirty_buffers
    → (next : Cache) × (finish_flush op op.len ic cache ≡ some (less_active next))
      × IsFinished
          (finished ic op.inode op.offset (op.offset + op.len) op.flush_id)
          (released op.flush_id cache)
          next
unfolding finish_flush
finish_flush_run op true cache v =
    let whole : (op.len == op.len) ≡ true = ground arith in
    (
      delete_flush op.inode op.offset op.len op.flush_id (released op.flush_id cache),
      rw whole refl,
      delete_flush-IsFinished op.inode op.offset op.len op.flush_id (released op.flush_id cache) v,
    )
finish_flush_run op false cache v =
    let whole : (op.len == op.len) ≡ true = ground arith in
    (
      mark_flush_written op.inode op.offset op.len op.flush_id (released op.flush_id cache),
      rw whole refl,
      mark_flush_written-IsFinished op.inode op.offset op.len op.flush_id
          (released op.flush_id cache) v,
    )

-- The end of a flush that returned its whole length passes the assertion and keeps the cache valid.
-- The buffer at a position is dropped with an immediate commit, or becomes written, if it is a
-- repeating one with the flush's id and overlaps its range, and else it stays as it is.
pub finish_flush-buffer_at :
    (op : FlushOp) (immediate_commit : Bool) (cache : Cache) (i x : ℕ)
    → IsValid cache
    → (cache' : Cache) × (finish_flush op op.len immediate_commit cache ≡ some cache')
      × IsValid cache'
      × (buffer_at i x cache'.dirty_buffers
          ≡ step_at
              (finished immediate_commit op.inode op.offset (op.offset + op.len) op.flush_id)
              (buffer_at i x cache.dirty_buffers))
finish_flush-buffer_at op immediate_commit cache i x v =
    let r = released op.flush_id cache in
    let f = finished immediate_commit op.inode op.offset (op.offset + op.len) op.flush_id in
    let sums = release_flushed_sums op.flush_id cache.counters.flushed_buffers cache.counters in
    let (next, run, done) = finish_flush_run op immediate_commit cache v.sorted in
    (
      less_active next,
      run,
      settle-IsValid f cache (less_active next)
          (finished-IsClean immediate_commit op.inode op.offset (op.offset + op.len) op.flush_id)
          done.buffers (done.bytes ∙ sums.0) (done.queue ∙ sums.1) v,
      ap (buffer_at i x) done.buffers ∙ buffer_at-settle f i x none cache.dirty_buffers v.sorted,
    )
