-- ===== src/Rmw/Parity.antt =====
-- src/osd/osd_rmw.cpp: `reconstruct_stripes_xor` and `calc_rmw_parity_xor`, over the bytes in memory.
-- `none` is a failed assertion.
use vitastor.Base.{
  ℕ, zero, suc, ◌+◌, ◌-◌, ◌/◌, min, max, Bool, false, ◌&&◌, ◌||◌, List, [], ◌∷◌, Option, none, some,
  ltb, leb, ◌==◌, ◌!=◌, if◌then◌else◌, modify, length, ◌>>=◌,
}
use vitastor.Base.Words.{uint32_max, add32, sub32}
use vitastor.Memory.{Memory, memcpy, memxor, bitmap_set}
use vitastor.Rmw.Stripes.{Stripe, stripe_at, osd_at}
use vitastor.Rmw.Plan.{Span, widen_span}

-- `prev`: -2, a role, or -1 once two stripes are combined.
pub data Prev : Type 0 where
  unset : Prev
  role : ℕ → Prev
  combined : Prev

-- The bytes of a stripe for the first byte that is read of another one.
abbrev pub read_at : Stripe → Stripe → ℕ
read_at s t = t.read_buf + (s.read_start - t.read_start)

-- The branch for the second stripe, which stores the XOR of two.
unfoldable pub xor_pair : ℕ → Stripe → Stripe → Stripe → Memory → Option Memory
xor_pair bitmap_size s p o m =
    let mixed = memxor (read_at s p) (read_at s o) s.read_buf (sub32 s.read_end s.read_start) m in
    if s.read_end != uint32_max
    then (if leb p.read_start s.read_start && leb o.read_start s.read_start
        then some (memxor p.bmp_buf o.bmp_buf s.bmp_buf bitmap_size mixed)
        else none)
    else some (memxor p.bmp_buf o.bmp_buf s.bmp_buf bitmap_size m)

-- The branch for a later stripe, which is combined with the result so far.
unfoldable pub xor_next : ℕ → Stripe → Stripe → Memory → Option Memory
xor_next bitmap_size s o m =
    let mixed = memxor s.read_buf (read_at s o) s.read_buf (sub32 s.read_end s.read_start) m in
    if s.read_end != uint32_max
    then (if leb o.read_start s.read_start
        then some (memxor s.bmp_buf o.bmp_buf s.bmp_buf bitmap_size mixed)
        else none)
    else some (memxor s.bmp_buf o.bmp_buf s.bmp_buf bitmap_size m)

-- The body of the loop over the other stripes.
unfoldable pub xor_other : ℕ → List Stripe → Stripe → ℕ → Prev → Memory → Option (Prev × Memory)
xor_other bitmap_size stripes s other unset m = some (role other, m)
xor_other bitmap_size stripes s other (role prev) m = do
  next ← xor_pair bitmap_size s (stripe_at stripes prev) (stripe_at stripes other) m
  some (combined, next)
xor_other bitmap_size stripes s other combined m = do
  next ← xor_next bitmap_size s (stripe_at stripes other) m
  some (combined, next)

unfoldable pub xor_others : ℕ → ℕ → ℕ → List Stripe → ℕ → Prev → Memory → Option Memory
xor_others zero other bitmap_size stripes lost prev m = some m
xor_others (suc n) other bitmap_size stripes lost prev m =
    elim (if other != lost
      then xor_other bitmap_size stripes (stripe_at stripes lost) other prev m
      else some (prev, m)) [
        | none ↦ none
        | some next ↦ xor_others n (other + 1) bitmap_size stripes lost next.0 next.1
      ]

unfoldable pub reconstruct_roles : ℕ → ℕ → ℕ → List Stripe → ℕ → Memory → Option Memory
reconstruct_roles zero lost pg_size stripes bitmap_size m = some m
reconstruct_roles (suc n) lost pg_size stripes bitmap_size m =
    let s = stripe_at stripes lost in
    elim (if s.read_end != 0 && s.missing
      then xor_others pg_size 0 bitmap_size stripes lost unset m
      else some m) [
        | none ↦ none
        | some next ↦ reconstruct_roles n (lost + 1) pg_size stripes bitmap_size next
      ]

-- `reconstruct_stripes_xor`
unfoldable pub reconstruct_stripes_xor : List Stripe → ℕ → ℕ → Memory → Option Memory
reconstruct_stripes_xor stripes pg_size bitmap_size m =
    reconstruct_roles pg_size 0 pg_size stripes bitmap_size m

-- `buf_len_t`
pub record BufLen : Type 0 where
  pub buf : ℕ
  pub len : ℕ

-- The part of a range in `[wr_start, wr_end)`, or (0, 0).
unfoldable pub clip : ℕ → ℕ → ℕ → ℕ → ℕ × ℕ
clip start end wr_start wr_end =
    if ltb wr_start end && ltb start wr_end then (max start wr_start, min end wr_end) else (0, 0)

abbrev pub piece : ℕ → ℕ → ℕ → ℕ → BufLen
piece buf base from to = record { buf = buf + from - base; len = to - from }

-- The branches of `get_old_new_buffers` on the new range and the old one.
unfoldable pub order_pieces : Stripe → ℕ → ℕ → ℕ → ℕ → List BufLen
order_pieces s ns ne os oe =
    let fresh = piece s.write_buf s.write_start ns ne in
    let after = if ltb os ne then ne else os in
    if ne != 0 && (oe == 0 || leb ns os)
    then fresh ∷ (if ltb after oe then piece s.read_buf s.read_start after oe ∷ [] else [])
    else if oe != 0
    then (if ne != 0
        then piece s.read_buf s.read_start os ns
          ∷ fresh
          ∷ (if ltb ne oe then piece s.read_buf s.read_start ne oe ∷ [] else [])
        else piece s.read_buf s.read_start os oe ∷ [])
    else []

-- `get_old_new_buffers`, which callers call with an empty list of buffers
unfoldable pub get_old_new_buffers : Stripe → ℕ → ℕ → List BufLen
get_old_new_buffers s wr_start wr_end =
    let (ns, ne) = clip s.write_start s.write_end wr_start wr_end in
    let (os, oe) = clip s.read_start s.read_end wr_start wr_end in order_pieces s ns ne os oe

abbrev no_buf : BufLen
no_buf = record { buf = 0; len = 0 }

abbrev head_buf : List BufLen → BufLen
head_buf [] = no_buf
head_buf (b ∷ bs) = b

abbrev tail_bufs : List BufLen → List BufLen
tail_bufs [] = []
tail_bufs (b ∷ bs) = bs

-- The position in one of the two buffer lists: the buffers from the current one on, and the range of
-- the current one.
pub record Cursor : Type 0 where
  pub bufs : List BufLen
  pub start : ℕ
  pub end : ℕ

unfoldable pub advance : Cursor → Cursor
advance c =
    let rest = tail_bufs c.bufs in
    record { bufs = rest; start = c.end; end = add32 c.end (head_buf rest).len }

-- The loop of `xor_multiple_buffers`. Each round ends a buffer of one of the lists.
unfoldable pub xor_bufs : ℕ → Cursor → Cursor → ℕ → ℕ → ℕ → Memory → Option Memory
xor_bufs zero c1 c2 dest len pos m = some m
xor_bufs (suc fuel) c1 c2 dest len pos m =
    let end = min c1.end c2.end in
    let next =
      memxor ((head_buf c1.bufs).buf + pos - c1.start) ((head_buf c2.bufs).buf + pos - c2.start)
        (dest + pos) (sub32 end pos) m in
    let d1 = if leb c1.end end then advance c1 else c1 in
    let d2 = if leb c2.end end then advance c2 else c2 in
    let rest = xor_bufs fuel d1 d2 dest len end next in
    if ltb pos len
    then (if leb c1.end end && length (tail_bufs c1.bufs) == 0
        then (if leb c2.end end then some next else none)
        else rest)
    else some m

-- `xor_multiple_buffers`
unfoldable pub xor_multiple_buffers : List BufLen → List BufLen → ℕ → ℕ → Memory → Option Memory
xor_multiple_buffers xor1 xor2 dest len m =
    if length xor1 == 0 || length xor2 == 0
    then none
    else xor_bufs (length xor1 + length xor2)
        (record { bufs = xor1; start = 0; end = (head_buf xor1).len })
        (record { bufs = xor2; start = 0; end = (head_buf xor2).len }) dest len 0 m

-- The loop over the parity roles of `calc_rmw_parity_copy_mod`: `end` and `required`.
unfoldable pub need_parity : ℕ → ℕ → List ℕ → List ℕ → ℕ → ℕ × Bool → ℕ × Bool
need_parity zero r read_osd_set write_osd_set chunk_size p = p
need_parity (suc n) r read_osd_set write_osd_set chunk_size (end, required) =
    need_parity n (r + 1) read_osd_set write_osd_set chunk_size (
      (if osd_at write_osd_set r != 0 && osd_at write_osd_set r != osd_at read_osd_set r
          then chunk_size
          else end),
      osd_at write_osd_set r != 0 || required,
    )

-- The loops over the data roles of `calc_rmw_parity_copy_mod`.
unfoldable pub mod_span : ℕ → List Stripe → Span → Span
mod_span zero stripes w = w
mod_span (suc n) [] w = w
mod_span (suc n) (s ∷ stripes) w = mod_span n stripes (widen_span s w)

unfoldable pub mod_bitmaps : ℕ → List Stripe → ℕ → Memory → Memory
mod_bitmaps zero stripes bitmap_granularity m = m
mod_bitmaps (suc n) [] bitmap_granularity m = m
mod_bitmaps (suc n) (s ∷ stripes) bitmap_granularity m = mod_bitmaps n stripes bitmap_granularity (
    if s.req_end != 0
    then bitmap_set s.bmp_buf s.req_start (sub32 s.req_end s.req_start) bitmap_granularity m
    else m)

-- The chunk is moved to another OSD and not overwritten in full.
unfoldable pub copies_chunk : ℕ → List ℕ → List ℕ → ℕ → ℕ → ℕ → Bool
copies_chunk r read_osd_set write_osd_set chunk_size start end =
    osd_at write_osd_set r != osd_at read_osd_set r
    && osd_at write_osd_set r != 0
    && (start != 0 || end != chunk_size)

-- `write_buf = read_buf; write_start = 0; write_end = chunk_size;`
abbrev pub write_back : ℕ → Stripe → Stripe
write_back chunk_size s = record s {
  write_buf = s.read_buf;
  write_start = 0;
  write_end = chunk_size;
}

unfoldable pub copy_mods : ℕ → ℕ → List ℕ → List ℕ → ℕ → List Stripe × Memory → List Stripe × Memory
copy_mods zero r read_osd_set write_osd_set chunk_size p = p
copy_mods (suc n) r read_osd_set write_osd_set chunk_size (stripes, m) =
    let s = stripe_at stripes r in
    let copies = copies_chunk r read_osd_set write_osd_set chunk_size s.req_start s.req_end in
    copy_mods n (r + 1) read_osd_set write_osd_set chunk_size (
      (if copies then modify stripes r (write_back chunk_size) else stripes),
      (if copies
          then memcpy (s.read_buf + s.req_start) s.write_buf (sub32 s.req_end s.req_start) m
          else m),
    )

-- `calc_rmw_parity_copy_mod`. `moved` tells whether the two OSD sets are two arrays.
unfoldable pub copy_mod :
    List Stripe
    → ℕ
    → ℕ
    → Bool
    → List ℕ
    → List ℕ
    → ℕ
    → ℕ
    → Span
    → Memory
    → List Stripe × Span × Memory
copy_mod stripes pg_size pg_minsize moved read_osd_set write_osd_set chunk_size bitmap_granularity w
      m =
    let (end, required) =
      need_parity (pg_size - pg_minsize) pg_minsize read_osd_set write_osd_set chunk_size
        (w.end, false) in
    let first : Span = record { start = w.start; end = end } in
    let span = if required && end != chunk_size then mod_span pg_minsize stripes first else first in
    let marked =
      if ltb 0 bitmap_granularity then mod_bitmaps pg_minsize stripes bitmap_granularity m else m in
    let (copied, next) =
      if moved
      then copy_mods pg_minsize 0 read_osd_set write_osd_set chunk_size (stripes, marked)
      else (stripes, marked) in
    (copied, span, next)

unfoldable pub copy_parities :
    ℕ → ℕ → List ℕ → List ℕ → ℕ → Span → List Stripe × Memory → List Stripe × Memory
copy_parities zero r read_osd_set write_osd_set chunk_size w p = p
copy_parities (suc n) r read_osd_set write_osd_set chunk_size w (stripes, m) =
    let s = stripe_at stripes r in
    let copies = copies_chunk r read_osd_set write_osd_set chunk_size w.start w.end in
    copy_parities n (r + 1) read_osd_set write_osd_set chunk_size w (
      (if copies then modify stripes r (write_back chunk_size) else stripes),
      (if copies
          then memcpy (s.read_buf + w.start - s.read_start) s.write_buf (sub32 w.end w.start) m
          else m),
    )

-- `calc_rmw_parity_copy_parity`
unfoldable pub copy_parity :
    List Stripe → ℕ → ℕ → Bool → List ℕ → List ℕ → ℕ → Span → Memory → List Stripe × Memory
copy_parity stripes pg_size pg_minsize moved read_osd_set write_osd_set chunk_size w m =
    if moved && w.end != 0
    then copy_parities (pg_size - pg_minsize) pg_minsize read_osd_set write_osd_set chunk_size w
        (stripes, m)
    else (stripes, m)

-- The body of the loop that calculates the parity.
unfoldable pub parity_other :
    List Stripe → ℕ → ℕ → ℕ → Span → Prev → Memory → Option (Prev × Memory)
parity_other stripes parity other bitmap_size w unset m = some (role other, m)
parity_other stripes parity other bitmap_size w (role prev) m =
    let p = stripe_at stripes parity in
    let a = stripe_at stripes prev in
    let b = stripe_at stripes other in
    do
      next ←
          xor_multiple_buffers (get_old_new_buffers a w.start w.end)
            (get_old_new_buffers b w.start w.end) p.write_buf (sub32 w.end w.start)
            (memxor a.bmp_buf b.bmp_buf p.bmp_buf bitmap_size m)
      some (combined, next)
parity_other stripes parity other bitmap_size w combined m =
    let p = stripe_at stripes parity in
    let b = stripe_at stripes other in
    do
      next ←
          xor_multiple_buffers (record { buf = p.write_buf; len = sub32 w.end w.start } ∷ [])
            (get_old_new_buffers b w.start w.end) p.write_buf (sub32 w.end w.start)
            (memxor p.bmp_buf b.bmp_buf p.bmp_buf bitmap_size m)
      some (combined, next)

unfoldable pub parity_others : ℕ → ℕ → List Stripe → ℕ → ℕ → Span → Prev → Memory → Option Memory
parity_others zero other stripes parity bitmap_size w prev m = some m
parity_others (suc n) other stripes parity bitmap_size w prev m =
    elim (parity_other stripes parity other bitmap_size w prev m) [
      | none ↦ none
      | some next ↦ parity_others n (other + 1) stripes parity bitmap_size w next.0 next.1
    ]

-- `calc_rmw_parity_xor`
unfoldable pub calc_rmw_parity_xor :
    List Stripe → ℕ → Bool → List ℕ → List ℕ → ℕ → ℕ → Memory → Option (List Stripe × Memory)
calc_rmw_parity_xor stripes pg_size moved read_osd_set write_osd_set chunk_size bitmap_size m =
    let bitmap_granularity = if ltb 0 bitmap_size then chunk_size / bitmap_size / 8 else 0 in
    let pg_minsize = pg_size - 1 in
    do
      restored ← reconstruct_stripes_xor stripes pg_size bitmap_size m
      let (copied, w, marked) =
          copy_mod stripes pg_size pg_minsize moved read_osd_set write_osd_set chunk_size
            bitmap_granularity (record { start = 0; end = 0 }) restored
      next ←
          (if osd_at write_osd_set pg_minsize != 0 && w.end != 0
            then parity_others pg_minsize 0 copied pg_minsize bitmap_size w unset marked
            else some marked)
      some
          (copy_parity copied pg_size pg_minsize moved read_osd_set write_osd_set chunk_size w next)
