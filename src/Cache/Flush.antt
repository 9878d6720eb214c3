-- ===== src/Cache/Flush.antt =====
-- src/client/cluster_client_wb.cpp: `flush_buffers` with its callback, `delete_flush`,
-- `mark_flush_written`, `start_writebacks` and the three steps of an fsync. `none` is a failed
-- assertion. The operations that the code hands to the client are returned in order.
use vitastor.Base.{
  ℕ, ◌+◌, ◌-◌, ◌%◌, ◌^◌, Bool, true, false, not, ◌&&◌, ◌||◌, List, [], ◌∷◌, Option, none, some, ltb,
  ◌==◌, if◌then◌else◌, ◌++◌, ◌>>=◌,
}
use vitastor.Base.Words.{add32, sub64}
use vitastor.Cache.{
  CacheState, written, flushing, repeating, is_dirty, Buffer, is_some, end_of, Counters, Cursor,
  rewind, find_dirty, same_bool,
}
use vitastor.Cache.Write.{Cache, add_ref, drop_ref, update}

abbrev pub is_repeating : CacheState → Bool
is_repeating repeating = true
is_repeating _ = false

abbrev pub is_written : CacheState → Bool
is_written written = true
is_written _ = false

abbrev pub is_flushing : CacheState → Bool
is_flushing flushing = true
is_flushing _ = false

-- An operation that `flush_buffers` makes. `is_writeback` tells whether it is new or repeated.
pub record FlushOp : Type 0 where
  pub is_delete : Bool
  pub inode : ℕ
  pub offset : ℕ
  pub len : ℕ
  pub iov : List (ℕ × ℕ)
  pub flush_id : ℕ
  pub is_writeback : Bool

abbrev pub last_of : Buffer → List Buffer → Buffer
last_of e [] = e
last_of e (n ∷ ns) = last_of n ns

-- A buffer that is sent.
abbrev pub sent : ℕ → Buffer → Buffer
sent flush_id e = record e { state = repeating; flush_id = flush_id }

-- `(*refcnt)++; flushed_buffers.emplace(flush_id, refcnt)`
unfoldable pub hold : ℕ → Buffer → Counters → Counters
hold flush_id e c =
    if is_some e.buf
    then (let d = add_ref e c in
        record d { flushed_buffers = d.flushed_buffers ++ (flush_id, e.refcnt) ∷ [] })
    else c

abbrev pub push_buffer : Buffer → List (ℕ × ℕ) → List (ℕ × ℕ)
push_buffer e iov = elim e.buf [ none ↦ iov | some a ↦ iov ++ (a, e.len) ∷ [] ]

-- The loop of `flush_buffers`: the buffers, the counters, the vector and `calc_len`.
unfoldable pub send_buffers :
    ℕ → List Buffer → Counters → List (ℕ × ℕ) → ℕ → List Buffer × Counters × List (ℕ × ℕ) × ℕ
send_buffers flush_id [] c iov calc_len = ([], c, iov, calc_len)
send_buffers flush_id (e ∷ es) c iov calc_len =
    let (rest, d, all, n) =
      send_buffers flush_id es (hold flush_id e c) (push_buffer e iov)
        (add32 calc_len (e.len % 2 ^ 32)) in
    (sent flush_id e ∷ rest, d, all, n)

-- `flush_buffers` for the buffers `e ∷ run` between the two iterators.
unfoldable pub flush_buffers :
    List Buffer → Buffer → List Buffer → List Buffer → Counters → Option (Cache × FlushOp)
flush_buffers before e run after c =
    let prev = last_of e run in
    let len = end_of prev - e.stripe in
    let flush_id = c.last_flush_id + 1 in
    let (buffers, d, iov, calc_len) =
      send_buffers flush_id (e ∷ run) (record c { last_flush_id = flush_id }) [] 0 in
    if calc_len == len
    then some (
      record {
        dirty_buffers = rewind before (buffers ++ after);
        counters = record d { writebacks_active = d.writebacks_active + 1 };
      },
      record {
        is_delete = not (is_some e.buf);
        inode = e.inode;
        offset = e.stripe;
        len = len;
        iov = iov;
        flush_id = flush_id;
        is_writeback = is_dirty e.state;
      },
    )
    else none

-- The buffers of a flush that the callback releases.
unfoldable pub release_flushed : ℕ → List (ℕ × ℕ) → Counters → Counters
release_flushed flush_id [] c = record c { flushed_buffers = [] }
release_flushed flush_id ((id, p) ∷ flushed) c =
    let kept = release_flushed flush_id flushed c in
    let gone = release_flushed flush_id flushed (record c {
      refs = update c.refs p (c.refs p - 1);
      freed = if c.refs p == 1 then p ∷ c.freed else c.freed;
    }) in
    if id == flush_id
    then gone
    else record kept { flushed_buffers = (id, p) ∷ kept.flushed_buffers }

-- The loop of `delete_flush`
unfoldable pub delete_loop : ℕ → ℕ → ℕ → List Buffer → Counters → List Buffer × Counters
delete_loop inode new_end flush_id [] c = ([], c)
delete_loop inode new_end flush_id (e ∷ es) c =
    let gone = delete_loop inode new_end flush_id es (drop_ref e c) in
    let kept = delete_loop inode new_end flush_id es c in
    if e.inode == inode && ltb e.stripe new_end
    then (if e.flush_id == flush_id && is_repeating e.state then gone else (e ∷ kept.0, kept.1))
    else (e ∷ es, c)

-- `delete_flush`
unfoldable pub delete_flush : ℕ → ℕ → ℕ → ℕ → Cache → Cache
delete_flush inode offset len flush_id cache =
    let place = find_dirty inode offset cache.dirty_buffers in
    let (es, c) = delete_loop inode (offset + len) flush_id place.after cache.counters in
    record { dirty_buffers = rewind place.before es; counters = c }

-- The loop of `mark_flush_written`
unfoldable pub mark_loop : ℕ → ℕ → ℕ → List Buffer → List Buffer
mark_loop inode new_end flush_id [] = []
mark_loop inode new_end flush_id (e ∷ es) =
    let rest = mark_loop inode new_end flush_id es in
    if e.inode == inode && ltb e.stripe new_end
    then (if e.flush_id == flush_id && is_repeating e.state
        then record e { flush_id = 0; state = written }
        else e)
      ∷ rest
    else e ∷ es

-- `mark_flush_written`
unfoldable pub mark_flush_written : ℕ → ℕ → ℕ → ℕ → Cache → Cache
mark_flush_written inode offset len flush_id cache =
    let place = find_dirty inode offset cache.dirty_buffers in
    record cache {
      dirty_buffers = rewind place.before (mark_loop inode (offset + len) flush_id place.after);
    }

-- The callback of `flush_buffers`. `immediate_commit` is the flag `OP_IMMEDIATE_COMMIT`.
unfoldable pub finish_flush : FlushOp → ℕ → Bool → Cache → Option Cache
finish_flush op retval immediate_commit cache =
    let freed = record cache {
      counters = release_flushed op.flush_id cache.counters.flushed_buffers cache.counters;
    } in
    let next =
      if immediate_commit
      then delete_flush op.inode op.offset op.len op.flush_id freed
      else mark_flush_written op.inode op.offset op.len op.flush_id freed in
    if retval == op.len
    then some (record next {
      counters = record next.counters { writebacks_active = next.counters.writebacks_active - 1 };
    })
    else none

-- The buffer continues a consecutive dirty request.
abbrev pub continues : ℕ → Bool → Buffer → Bool
continues inode is_del e =
    is_dirty e.state && same_bool (not (is_some e.buf)) is_del && e.inode == inode

-- The first inner loop of `start_writebacks`, back to the first buffer of a request.
unfoldable pub run_back : ℕ → Bool → ℕ → List Buffer → List Buffer → Cursor
run_back inode is_del off [] run = record { before = []; after = run }
run_back inode is_del off (p ∷ ps) run =
    let next = run_back inode is_del p.stripe ps (p ∷ run) in
    if continues inode is_del p && end_of p == off
    then next
    else record { before = p ∷ ps; after = run }

-- The second one: the rest of the request and what comes behind it.
unfoldable pub run_front : ℕ → Bool → ℕ → List Buffer → List Buffer × List Buffer
run_front inode is_del off [] = ([], [])
run_front inode is_del off (e ∷ es) =
    let next = run_front inode is_del (end_of e) es in
    if continues inode is_del e && e.stripe == off then (e ∷ next.0, next.1) else ([], e ∷ es)

-- What `start_writebacks` counts before it sends a request.
unfoldable pub uncount : ℕ → Counters → Option Counters
uncount n c =
    if ltb 0 c.writeback_queue_size
    then (let bytes = sub64 c.writeback_bytes n in
        let queued = c.writeback_queue_size - 1 in
        if ltb 0 queued || bytes == 0
        then some (record c { writeback_queue_size = queued; writeback_bytes = bytes })
        else none)
    else none

-- One entry of the queue whose buffer `e` is still dirty.
unfoldable pub write_back : List Buffer → Buffer → List Buffer → Counters → Option (Cache × FlushOp)
write_back before e rest c =
    let is_del = not (is_some e.buf) in
    let front = run_front e.inode is_del (end_of e) rest in
    let back = run_back e.inode is_del e.stripe before (e ∷ front.0) in
    elim back.after [
      | [] ↦ none
      | first ∷ run ↦ uncount (end_of (last_of first run) - first.stripe) c >>= λ d.
          flush_buffers back.before first run front.1 d
    ]

-- The outer loop of `start_writebacks`. A `count` of zero is no limit.
unfoldable pub write_queue :
    ℕ → ℕ → List (ℕ × ℕ) → Cache → Option (Cache × List FlushOp × List (ℕ × ℕ))
write_queue count started [] cache = some (cache, [], [])
write_queue count started ((inode, stripe) ∷ queue) cache =
    let next = write_queue count started queue cache in
    let place = find_dirty inode stripe cache.dirty_buffers in
    if count == 0 || ltb started count
    then elim place.after [
      | [] ↦ next
      | e ∷ rest ↦
          if e.inode == inode && is_dirty e.state
          then (write_back place.before e rest cache.counters >>= λ r.
              write_queue count (started + 1) queue r.0 >>= λ s. some (s.0, r.1 ∷ s.1, s.2))
          else next
    ]
    else some (cache, [], (inode, stripe) ∷ queue)

-- `start_writebacks`
unfoldable pub start_writebacks : ℕ → Cache → Option (Cache × List FlushOp)
start_writebacks count cache =
    write_queue count 0 cache.counters.writeback_queue
      (record cache { counters = record cache.counters { writeback_queue = [] } })
    >>= λ r. some (
      record (r.0) {
        counters = record r.0.counters { writeback_queue = r.2 ++ r.0.counters.writeback_queue };
      },
      r.1,
    )

-- `fsync_start`
unfoldable pub fsync_start : List Buffer → List Buffer
fsync_start [] = []
fsync_start (e ∷ es) =
    (if is_written e.state then record e { state = flushing } else e) ∷ fsync_start es

-- `fsync_error`
unfoldable pub fsync_error : List Buffer → List Buffer
fsync_error [] = []
fsync_error (e ∷ es) =
    (if is_flushing e.state then record e { state = written } else e) ∷ fsync_error es

-- `fsync_ok`
unfoldable pub fsync_ok : List Buffer → Counters → List Buffer × Counters
fsync_ok [] c = ([], c)
fsync_ok (e ∷ es) c =
    let gone = fsync_ok es (drop_ref e c) in
    let kept = fsync_ok es c in if is_flushing e.state then gone else (e ∷ kept.0, kept.1)
