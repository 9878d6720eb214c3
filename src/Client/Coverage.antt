-- ===== src/Client/Coverage.antt =====
-- src/client/cluster_client.cpp: the parts of `slice_rw` take every byte of an operation to its stripe.
use vitastor.Base.{
  ℕ, zero, suc, ◌+◌, ◌-◌, ◌*◌, ◌/◌, ◌%◌, ◌^◌, ◌≤◌, ◌<◌, ◌≡◌, refl, sym, ap, ◌∙◌, subst, ◌⊎◌, inl,
  inr, Bool, true, false, ◌&&◌, List, [], ◌∷◌, Option, none, some, ltb, leb, ◌==◌, if◌then◌else◌,
  length, arith, le→leb, Bool-cases,
}
use mathlib.Core.Path.{fun_ext}
use native.Mathlib.Decide.{dec_lt}
use native.Mathlib.Nat.{
  suc-mul, add-mul, one-mul, div-mul-le_self, lt-div-mul-add, add-mul-div_right, div-eq_of_lt,
  mul-le-mul_right, lt_of_mul-lt-mul_right,
}
use vitastor.Base.Words.{add64, sub64}
use vitastor.Memory.{Memory}
use vitastor.Client.Slices.{
  PoolConfig, Request, Part, Piece, pg_block_size, first_stripe, last_stripe, map_to_pg, add_iov,
  is_present, make_part, trim_part, is_partial, is_bare, slice_part, stripe_begin, stripe_end,
  slice_from, slice_rw,
}
use vitastor.Client.Pieces.{piece_byte, pieces_size}
use vitastor.Client.Trimming.{IsGranule, IsCut, trim_part-IsCut}
use vitastor.Client.Stripes.{
  pg_block_size-lt, last_bounds, stripe_count, IsSliced, IsAt, last_stripe-eq, begin-IsAt,
  next-begin, end-eq, end-IsAt, IsTouched, bounds,
}

-- The byte of the operation's buffers that a byte of the image is read into or written from.
unfoldable pub user_byte : List Part → ℕ → Option ℕ
user_byte [] x = none
user_byte (p ∷ ps) x =
    if leb p.offset x && ltb x (p.offset + p.len)
    then piece_byte p.iov (x - p.offset)
    else user_byte ps x

-- The parts belong to one stripe after another, each to the placement group of its stripe, and each has
-- as many bytes of buffers as it is long.
abbrev pub IsPlaced : PoolConfig → ℕ → List Part → Type 0
IsPlaced pool_cfg q [] = Unit
IsPlaced pool_cfg q (p ∷ ps) =
    (q * pg_block_size pool_cfg ≤ p.offset)
    × (p.offset + p.len ≤ q * pg_block_size pool_cfg + pg_block_size pool_cfg)
    × (p.pg_num ≡ map_to_pg pool_cfg (q * pg_block_size pool_cfg))
    × (pieces_size p.iov ≡ p.len)
    × IsPlaced pool_cfg (suc q) ps

module _ (pool_cfg : PoolConfig) (op : Request) (v : IsSliced pool_cfg op) where
  module _ (present : ℕ → Bool)
      (same : (k x : ℕ)
        → op.offset + k * pool_cfg.bitmap_granularity ≤ x
        → x < op.offset + k * pool_cfg.bitmap_granularity + pool_cfg.bitmap_granularity
        → x < 2 ^ 64
        → present x ≡ present (op.offset + k * pool_cfg.bitmap_granularity))
      (scrap_len : ℕ) (some_scrap : 0 < scrap_len) (dirty_copied : Bool)
      (bytes : is_bare op ≡ false) where
    -- A byte is there, and the operation asks.
    abbrev is_skipped : ℕ → Bool
    is_skipped x = is_partial op dirty_copied && present x

    -- The granules between two of them.
    granules_between :
        (b e : ℕ)
        → IsAt pool_cfg op v b
        → IsAt pool_cfg op v e
        → b < e
        → e ≤ op.offset + op.len
        → (j : ℕ) × (b + j * pool_cfg.bitmap_granularity ≡ e)
          × ((i : ℕ)
              → i < j
              → IsGranule present b
                  (b - op.offset)
                  pool_cfg.bitmap_granularity
                  (b + i * pool_cfg.bitmap_granularity))
    granules_between b e (k, at_b) (l, at_e) l_be high =
        let g : ℕ = pool_cfg.bitmap_granularity in
        let order : k < l = lt_of_mul-lt-mul_right g (omega (arith, at_b, at_e, l_be)) in
        let d : k + (l - k) ≡ l = omega arith in
        let whole : b + (l - k) * g ≡ e =
          omega (arith, at_b, at_e, add-mul k (l - k) g, ap (λ (t : ℕ). t * g) d) in
        (
          l - k,
          whole,
          λ i l_i x low up.
              let m : suc i * g ≤ (l - k) * g = mul-le-mul_right g l_i in
              let here : b + i * g ≡ op.offset + (k + i) * g = omega (arith, at_b, add-mul k i g) in
              rw here (
                same (k + i) x (omega (arith, low, here)) (omega (arith, up, here))
                  (omega (arith, up, m, suc-mul i g, whole, high, v.range))),
        )

    slice_part-IsCut :
        (b e : ℕ)
        → IsAt pool_cfg op v b
        → IsAt pool_cfg op v e
        → b < e
        → e ≤ op.offset + op.len
        → IsCut is_skipped b (b - op.offset) b e (
            slice_part op present pool_cfg.bitmap_granularity scrap_len dirty_copied b e
              (b - op.offset))
    unfolding slice_part add_iov pieces_size piece_byte
    slice_part-IsCut b e at_b at_e l high = elim (Bool-cases (is_partial op dirty_copied)) [
      | inl y ↦
          let (j, whole, granules) = granules_between b e at_b at_e l high in
          let skip : (λ x. is_skipped x) ≡ present =
            fun_ext (λ x. ap (λ (c : Bool). c && present x) y) in
          rw y (
            subst
              (λ p.
                IsCut p b (b - op.offset) b e
                  (trim_part present pool_cfg.bitmap_granularity scrap_len b e (b - op.offset)))
              (sym skip)
              (trim_part-IsCut present pool_cfg.bitmap_granularity scrap_len b e (b - op.offset) j
                some_scrap v.granule granules whole))
      | inr n ↦
          let some_size : (e - b == 0) ≡ false = ground (arith, l) in
          rw (n, bytes, some_size)
            record {
              from = omega arith;
              order = omega (arith, l);
              to = omega arith;
              next = refl;
              size = omega arith;
              cells = λ x low up. ground (arith, low, up, n);
            }
    ]

    -- The stripe of the last byte
    last : ℕ
    last = (op.offset + op.len - 1) / pg_block_size pool_cfg

    -- What the bytes from a position on are to be read into or written from.
    abbrev target : ℕ → ℕ → Option ℕ
    target low x =
        if leb low x && ltb x (op.offset + op.len)
        then (if is_skipped x then none else some (x - op.offset))
        else none

    touched :
        (q : ℕ)
        → q ≤ last
        → op.offset < q * pg_block_size pool_cfg + pg_block_size pool_cfg
        → IsTouched pool_cfg op v q
    unfolding last
    touched q l m = record {
      starts = omega (
        arith,
        mul-le-mul_right (pg_block_size pool_cfg) l,
        (last_bounds (op.offset + op.len) (pg_block_size pool_cfg) v.block
            (omega (arith, v.some_len))).0,
      );
      ends = m;
    }

    -- One part and those behind it.
    user_byte-cons :
        (b e low x : ℕ) (part : Part) (r : ℕ × ℕ × ℕ × List Piece) (rest : List Part)
        → op.offset ≤ b
        → e ≤ op.offset + op.len
        → IsCut is_skipped b (b - op.offset) b e r
        → (low ≡ e) ⊎ ((op.offset + op.len ≤ low) × (e ≡ op.offset + op.len))
        → part.offset ≡ r.0
        → part.len ≡ r.1 - r.0
        → part.iov ≡ r.3
        → user_byte rest x ≡ target low x
        → user_byte (part ∷ rest) x ≡ target b x
    unfolding user_byte
    user_byte-cons b e low x part (b', e', next, iov) rest lb he cut next_low pb pl pi ih =
        let same_end : part.offset + part.len ≡ e' = omega (arith, pb, pl, cut.order) in
        let place : b ≤ x → b - op.offset + (x - b) ≡ x - op.offset = λ l. omega (arith, l, lb) in
        let piece : piece_byte part.iov (x - part.offset) ≡ piece_byte iov (x - b') =
          rw (pb, pi) refl in
        rw (same_end, piece, pb)
          (elim (dec_lt x b) [
            | yes y ↦ ground (arith, y, ih, cut.from, cut.to, cut.order, next_low)
            | no n ↦ elim (dec_lt x e) [
              | no m ↦ ground (arith, n, m, ih, cut.from, cut.to, cut.order, next_low, he)
              | yes m ↦
                  let at : b - op.offset + (x - b) ≡ x - op.offset = place (omega (arith, n)) in
                  let cell = cut.cells x (omega (arith, n)) m in
                  ground (arith, rw at at cell, n, m, ih, next_low, he)
            ]
          ])

    -- What the loop makes of a stripe
    abbrev sliced : ℕ → ℕ × ℕ × ℕ × List Piece
    sliced q =
        let b = stripe_begin op (q * pg_block_size pool_cfg) in
        slice_part op present pool_cfg.bitmap_granularity scrap_len dirty_copied b
          (stripe_end pool_cfg op (q * pg_block_size pool_cfg)) (b - op.offset)

    sliced-IsCut :
        (q : ℕ)
        → IsTouched pool_cfg op v q
        → (let b = stripe_begin op (q * pg_block_size pool_cfg) in
            IsCut is_skipped b
              (b - op.offset)
              b
              (stripe_end pool_cfg op (q * pg_block_size pool_cfg))
              (sliced q))
    sliced-IsCut q t =
        let (low, above, order, high, inside) = bounds pool_cfg op v q t in
        slice_part-IsCut (stripe_begin op (q * pg_block_size pool_cfg))
          (stripe_end pool_cfg op (q * pg_block_size pool_cfg)) (begin-IsAt pool_cfg op v q)
          (end-IsAt pool_cfg op v q t.starts t.ends) order high

    slice_from_step :
        (n q pos : ℕ)
        → q ≤ last
        → IsTouched pool_cfg op v q
        → pos ≡ stripe_begin op (q * pg_block_size pool_cfg) - op.offset
        → slice_from pool_cfg op present scrap_len dirty_copied
            (suc n)
            (q * pg_block_size pool_cfg)
            pos
          ≡ make_part pool_cfg op dirty_copied (q * pg_block_size pool_cfg) (sliced q)
            ∷ slice_from pool_cfg op present scrap_len dirty_copied n
                (suc q * pg_block_size pool_cfg)
                (sliced q).2
    unfolding slice_from last
    slice_from_step n q pos l t at =
        let next : add64 (q * pg_block_size pool_cfg) (pg_block_size pool_cfg)
            ≡ suc q * pg_block_size pool_cfg =
          omega (arith, suc-mul q (pg_block_size pool_cfg), t.starts, v.range) in
        let go : leb (q * pg_block_size pool_cfg) (last_stripe pool_cfg op.offset op.len) ≡ true =
          le→leb _ _ (
            omega
              (arith, last_stripe-eq pool_cfg op v, mul-le-mul_right (pg_block_size pool_cfg) l)) in
        rw (at, next, go) refl

    abbrev IsSlicedFrom : ℕ → ℕ → List Part → Type 0
    IsSlicedFrom n q parts =
        IsPlaced pool_cfg q parts
        × (length parts ≡ n)
        × ((x : ℕ) → user_byte parts x ≡ target (stripe_begin op (q * pg_block_size pool_cfg)) x)

    next-end :
        (q : ℕ)
        → IsTouched pool_cfg op v q
        → (stripe_begin op (suc q * pg_block_size pool_cfg)
            ≡ stripe_end pool_cfg op (q * pg_block_size pool_cfg))
          ⊎ ((op.offset + op.len ≤ stripe_begin op (suc q * pg_block_size pool_cfg))
              × (stripe_end pool_cfg op (q * pg_block_size pool_cfg) ≡ op.offset + op.len))
    next-end q t =
        let s : ℕ = q * pg_block_size pool_cfg in
        let b : ℕ = pg_block_size pool_cfg in
        let e = next-begin pool_cfg op v q t.ends in
        let f = end-eq pool_cfg op v s t.starts in
        elim (Bool-cases (ltb (s + b) (op.offset + op.len))) [
          | inl y ↦ inl (e ∙ sym (f ∙ rw y refl))
          | inr n ↦ inr (ground (arith, e, n), f ∙ rw n refl)
        ]

    make_part-IsSlicedFrom :
        (n q : ℕ) (rest : List Part)
        → q ≤ last
        → IsTouched pool_cfg op v q
        → IsSlicedFrom n (suc q) rest
        → IsSlicedFrom
            (suc n)
            q
            (make_part pool_cfg op dirty_copied (q * pg_block_size pool_cfg) (sliced q) ∷ rest)
    unfolding make_part last
    make_part-IsSlicedFrom n q rest l t (placed, count, cells) =
        let (low, above, order, high, inside) = bounds pool_cfg op v q t in
        let cut = sliced-IsCut q t in
        let size : ((sliced q).1 - (sliced q).0) % 2 ^ 32 ≡ (sliced q).1 - (sliced q).0 =
          omega (arith, cut.from, cut.to, above, inside, pg_block_size-lt pool_cfg) in
        let begin_next = next-begin pool_cfg op v q t.ends in
        let next_low = next-end q t in
        (
          (
            omega (arith, above, cut.from),
            rw bytes (omega (arith, size, cut.to, inside, cut.order)),
            refl,
            rw bytes (cut.size ∙ sym size),
            placed,
          ),
          ap suc count,
          λ x.
              user_byte-cons (stripe_begin op (q * pg_block_size pool_cfg))
                (stripe_end pool_cfg op (q * pg_block_size pool_cfg))
                (stripe_begin op (suc q * pg_block_size pool_cfg)) x
                (make_part pool_cfg op dirty_copied (q * pg_block_size pool_cfg) (sliced q))
                (sliced q) rest low high cut next_low refl (rw bytes size) refl (cells x),
        )

    next-pos :
        (q : ℕ)
        → q < last
        → IsTouched pool_cfg op v q
        → (sliced q).2 ≡ stripe_begin op (suc q * pg_block_size pool_cfg) - op.offset
    unfolding last
    next-pos q l t =
        let (low, above, order, high, inside) = bounds pool_cfg op v q t in
        let cut = sliced-IsCut q t in
        let next = touched (suc q) l (omega (arith, t.ends, suc-mul q (pg_block_size pool_cfg))) in
        elim (next-end q t) [
          | inl e ↦ omega (arith, cut.next, e, order, low)
          | inr (far, e) ↦ absurd (
              omega (
                arith,
                far,
                next.starts,
                next-begin pool_cfg op v q t.ends,
                suc-mul q (pg_block_size pool_cfg),
              ))
        ]

    behind_last :
        (q : ℕ) → last < q → op.offset + op.len ≤ stripe_begin op (q * pg_block_size pool_cfg)
    unfolding last stripe_begin
    behind_last q l =
        let b : ℕ = pg_block_size pool_cfg in
        let (starts, ends) =
          last_bounds (op.offset + op.len) b v.block (omega (arith, v.some_len)) in
        let far : suc last * b ≤ q * b = mul-le-mul_right b l in
        ground (arith, ends, far, suc-mul last b, v.some_len)

    slice_from_lem :
        (n q pos : ℕ)
        → q + n ≡ last + 1
        → op.offset < q * pg_block_size pool_cfg + pg_block_size pool_cfg
        → (0 < n → pos ≡ stripe_begin op (q * pg_block_size pool_cfg) - op.offset)
        → IsSlicedFrom n q (
            slice_from pool_cfg op present scrap_len dirty_copied n
              (q * pg_block_size pool_cfg)
              pos)
    unfolding user_byte slice_from
    slice_from_lem zero q pos count m at =
        (tt, refl, λ x. ground (arith, behind_last q (omega (arith, count))))
    slice_from_lem (suc n) q pos count m at =
        let l : q ≤ last = omega (arith, count) in
        let t = touched q l m in
        let later =
          slice_from_lem n (suc q) (sliced q).2 (omega (arith, count))
            (omega (arith, m, suc-mul q (pg_block_size pool_cfg)))
            (λ more. next-pos q (omega (arith, count, more)) t) in
        rw (slice_from_step n q pos l t (at (omega arith))) (
          make_part-IsSlicedFrom n q
            (slice_from pool_cfg op present scrap_len dirty_copied n
              (suc q * pg_block_size pool_cfg) (sliced q).2)
            l t later)

is_present-granule :
    (pool_cfg : PoolConfig) (op : Request) (bitmap_buf : ℕ) (m : Memory) (k x : ℕ)
    → 0 < pool_cfg.bitmap_granularity
    → op.offset + k * pool_cfg.bitmap_granularity ≤ x
    → x < op.offset + k * pool_cfg.bitmap_granularity + pool_cfg.bitmap_granularity
    → x < 2 ^ 64
    → is_present pool_cfg op bitmap_buf m x
      ≡ is_present pool_cfg op bitmap_buf m (op.offset + k * pool_cfg.bitmap_granularity)
unfolding is_present
is_present-granule pool_cfg op bitmap_buf m k x p low up wide =
    let g : ℕ = pool_cfg.bitmap_granularity in
    let r : ℕ = x - (op.offset + k * g) in
    let here : sub64 x op.offset ≡ r + k * g = omega (arith, low, wide) in
    let there : sub64 (op.offset + k * g) op.offset ≡ 0 + k * g = omega (arith, low, wide) in
    let small : r / g ≡ 0 = div-eq_of_lt (omega (arith, up, low)) in
    let zeroth : 0 / g ≡ 0 = div-eq_of_lt p in
    rw (here, there, add-mul-div_right r k p, add-mul-div_right 0 k p, small, zeroth) refl

-- Take a read or write of at least one byte whose range and pool have whole granules and whose addresses
-- do not wrap, and a buffer for unwanted bytes that is not empty. slice_rw makes one part for each stripe
-- that the range touches, in order. Each part lies within its stripe, belongs to the placement group of the
-- stripe, and has as many bytes of buffers as it is long. Every byte of the range is taken to its own place
-- in the operation's buffers, except the bytes which are there already when they are asked for: these are
-- not transferred to the operation's buffers. No byte outside the range is transferred.
pub slice_rw_lem :
    (pool_cfg : PoolConfig) (op : Request) (bitmap_buf : ℕ) (m : Memory) (scrap_len : ℕ)
    (dirty_copied : Bool)
    → IsSliced pool_cfg op
    → 0 < scrap_len
    → is_bare op ≡ false
    → (let parts = slice_rw pool_cfg op bitmap_buf m scrap_len dirty_copied in
        IsPlaced pool_cfg (op.offset / pg_block_size pool_cfg) parts
        × (op.offset / pg_block_size pool_cfg + length parts
            ≡ (op.offset + op.len - 1) / pg_block_size pool_cfg + 1)
        × ((x : ℕ)
            → user_byte parts x ≡ (
                if leb op.offset x && ltb x (op.offset + op.len)
                then if is_partial op dirty_copied && is_present pool_cfg op bitmap_buf m x
                  then none
                  else some (x - op.offset)
                else none)))
unfolding slice_rw first_stripe stripe_begin last
slice_rw_lem pool_cfg op bitmap_buf m scrap_len dirty_copied v k bytes =
    let b : ℕ = pg_block_size pool_cfg in
    let first : ℕ = op.offset / b in
    let last : ℕ = (op.offset + op.len - 1) / b in
    let (starts, ends) = last_bounds (op.offset + op.len) b v.block (omega (arith, v.some_len)) in
    let low : first * b ≤ op.offset = div-mul-le_self op.offset b in
    let high : op.offset < first * b + b = lt-div-mul-add {a = op.offset} v.block in
    let order : first < last + 1 =
      lt_of_mul-lt-mul_right b
        (omega (arith, low, ends, v.some_len, add-mul last 1 b, one-mul b)) in
    let count : (last_stripe pool_cfg op.offset op.len - first * b) / b + 1 ≡ last - first + 1 =
      rw (last_stripe-eq pool_cfg op v)
        (omega (arith, stripe_count first last b v.block (omega arith), order)) in
    let begin : stripe_begin op (first * b) ≡ op.offset = ground (arith, low) in
    let (placed, many, cells) =
      slice_from_lem pool_cfg op v (is_present pool_cfg op bitmap_buf m)
        (λ k x lo up wide. is_present-granule pool_cfg op bitmap_buf m k x v.granule lo up wide)
        scrap_len k dirty_copied bytes (last - first + 1) first 0 (omega (arith, order)) high
        (λ some. omega (arith, begin)) in
    rw count (placed, omega (arith, many, order), λ x. rw begin at (cells x))
