-- ===== src/Rmw/Buffers.antt =====
-- src/osd/osd_rmw.cpp: the buffers that `alloc_read_buffer` gives out.
use vitastor.Base.{ℕ, zero, suc, ◌+◌, ◌^◌, ◌≤◌, ◌<◌, ◌≡◌, true, List, [], ◌∷◌, if◌then◌else◌, arith}
use vitastor.Base.Words.{add64, sub32}
use vitastor.Rmw.Stripes.{Stripe, stripe_at, reads_data, read_size, place_reads, alloc_read_buffer}

-- How much is read of a stripe.
unfoldable pub read_length : Stripe → ℕ
read_length s = if reads_data s then sub32 s.read_end s.read_start else 0

-- How much is read of the first `n` stripes.
unfoldable pub total_length : ℕ → List Stripe → ℕ
total_length zero stripes = 0
total_length (suc n) [] = 0
total_length (suc n) (s ∷ stripes) = read_length s + total_length n stripes

read_size-total :
    (n : ℕ) (stripes : List Stripe) (size : ℕ)
    → size + total_length n stripes < 2 ^ 64
    → read_size n stripes size ≡ size + total_length n stripes
unfolding read_size total_length read_length
read_size-total zero stripes size h = omega arith
read_size-total (suc n) [] size h = omega arith
read_size-total (suc n) (s ∷ stripes) size h = ground (
  arith,
  read_size-total n stripes (add64 size (sub32 s.read_end s.read_start)),
  read_size-total n stripes size,
)

place_reads-at :
    (n buf : ℕ) (stripes : List Stripe) (pos role : ℕ)
    → role < n
    → buf + pos + total_length n stripes < 2 ^ 64
    → reads_data (stripe_at stripes role) ≡ true
    → (stripe_at (place_reads n buf stripes pos) role).read_buf
      ≡ buf + pos + total_length role stripes
unfolding place_reads total_length read_length reads_data
place_reads-at zero buf stripes pos role h fits reads = absurd (omega arith)
place_reads-at (suc n) buf [] pos role h fits reads = ground arith
place_reads-at (suc n) buf (s ∷ stripes) pos zero h fits reads = ground arith
place_reads-at (suc n) buf (s ∷ stripes) pos (suc role) h fits reads = ground (
  arith,
  place_reads-at n buf stripes (add64 pos (sub32 s.read_end s.read_start)) role,
  place_reads-at n buf stripes pos role,
)

total_length-lt :
    (i j : ℕ) (stripes : List Stripe)
    → i < j
    → total_length i stripes + read_length (stripe_at stripes i) ≤ total_length j stripes
unfolding total_length read_length reads_data
total_length-lt i zero stripes h = absurd (omega arith)
total_length-lt zero (suc j) [] h = ground arith
total_length-lt (suc i) (suc j) [] h = ground arith
total_length-lt zero (suc j) (s ∷ stripes) h = ground arith
total_length-lt (suc i) (suc j) (s ∷ stripes) h =
    omega (arith, total_length-lt i j stripes (omega arith))

-- The read buffers of two roles lie in the allocated buffer behind its first `add_size` bytes, in the
-- order of the roles, and do not overlap, as long as the buffer ends below 2 ^ 64.
pub read_buffers_apart :
    (alloc : ℕ → ℕ) (stripes : List Stripe) (n add_size i j : ℕ)
    → i < j
    → j < n
    → reads_data (stripe_at stripes i) ≡ true
    → reads_data (stripe_at stripes j) ≡ true
    → add_size + total_length n stripes < 2 ^ 64
    → alloc (add_size + total_length n stripes) + add_size + total_length n stripes < 2 ^ 64
    → (alloc (add_size + total_length n stripes) + add_size
        ≤ (stripe_at (alloc_read_buffer alloc stripes n add_size).1 i).read_buf)
      × ((stripe_at (alloc_read_buffer alloc stripes n add_size).1 i).read_buf
            + read_length (stripe_at stripes i)
          ≤ (stripe_at (alloc_read_buffer alloc stripes n add_size).1 j).read_buf)
      × ((stripe_at (alloc_read_buffer alloc stripes n add_size).1 j).read_buf
            + read_length (stripe_at stripes j)
          ≤ alloc (add_size + total_length n stripes) + add_size + total_length n stripes)
unfolding alloc_read_buffer
read_buffers_apart alloc stripes n add_size i j below inside ri rj size fits =
    let e = read_size-total n stripes add_size size in
    let buf = alloc (add_size + total_length n stripes) in
    let pi = place_reads-at n buf stripes add_size i (omega arith) fits ri in
    let pj = place_reads-at n buf stripes add_size j inside fits rj in
    rw (e, pi, pj)
      (
        omega arith,
        omega (arith, total_length-lt i j stripes below),
        omega (arith, total_length-lt j n stripes inside),
      )
