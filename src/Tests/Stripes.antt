-- ===== src/Tests/Stripes.antt =====
-- src/osd/osd_rmw.cpp: an object of two data chunks of 4096 bytes and one of parity.
use vitastor.Base.{ℕ, ◌<◌, ◌≤◌, ◌≡◌, ◌+◌, refl, true, arith, inl, List, [], ◌∷◌, ltb, leb, ◌&&◌}
use vitastor.Rmw.Stripes.{
  Stripe, no_stripe, stripe_at, extend_read, cover_read, split_stripes, reads_data,
  alloc_read_buffer, extend_missing_stripes,
}
use vitastor.Rmw.Ranges.{hull, read_range, extend_read-hull, cover_read-covers, split_stripes-range}
use vitastor.Rmw.Missing.{is_none, alive, is_lost, extend_missing_stripes_refuses}
use vitastor.Base.{inr, bit_xor}
use vitastor.Base.{false}
use vitastor.Memory.Zeroes.{is_zero_lem}
use vitastor.Memory.{is_zero, any_byte, Memory, memxor, set_bits}
use vitastor.Memory.Xor.{memxor-at}
use vitastor.Memory.Bitmaps.{bit_at, set_bits-bit_at}
use vitastor.Rmw.Parity.{get_old_new_buffers}
use vitastor.Rmw.Pieces.{locate, get_old_new_buffers-locate}
use vitastor.Rmw.Buffers.{read_length, total_length, read_buffers_apart}

abbrev read_part : ℕ → ℕ → Stripe
read_part start end = record no_stripe { read_start = start; read_end = end }

extend_read-hull_example : read_range (extend_read 10 20 (read_part 15 40)) ≡ (10, 40)
unfolding reads_data
extend_read-hull_example = extend_read-hull 10 20 (read_part 15 40) (omega arith)

-- A planned read, of which the request overwrites a part
abbrev overwritten_part : Stripe
overwritten_part = record (read_part 15 40) { req_start = 12; req_end = 30 }

cover_read-covers_example :
    (reads_data (cover_read 10 20 overwritten_part) ≡ true)
    × ((cover_read 10 20 overwritten_part).read_start ≤ 17)
    × (17 < (cover_read 10 20 overwritten_part).read_end)
    × ((hull 10 20 overwritten_part).0 ≤ (cover_read 10 20 overwritten_part).read_start)
    × ((cover_read 10 20 overwritten_part).read_end ≤ (hull 10 20 overwritten_part).1)
cover_read-covers_example =
    cover_read-covers 10 20 17 overwritten_part (omega arith) (omega arith)
      (inr (omega arith, omega arith))

abbrev empty : List Stripe
empty = no_stripe ∷ no_stripe ∷ no_stripe ∷ []

split_stripes-range_example :
    (leb (stripe_at (split_stripes 2 4096 4000 200 empty) 1).req_start 5
      && ltb 5 (stripe_at (split_stripes 2 4096 4000 200 empty) 1).req_end)
    ≡ true
split_stripes-range_example =
    split_stripes-range 2 4096 4000 200 1 5 empty (omega arith) (omega arith) (omega arith)
      (omega arith) (omega arith) refl refl

extend_missing_stripes_refuses_example :
    is_none
      (extend_missing_stripes (read_part 0 8 ∷ no_stripe ∷ no_stripe ∷ []) (0 ∷ 5 ∷ 0 ∷ []) 2 3)
    ≡ true
unfolding alive is_lost
extend_missing_stripes_refuses_example =
    extend_missing_stripes_refuses (read_part 0 8 ∷ no_stripe ∷ no_stripe ∷ []) (0 ∷ 5 ∷ 0 ∷ []) 2 3

read_buffers_apart_example :
    (1010
      ≤ (stripe_at
          (alloc_read_buffer (λ size. 1000) (read_part 0 8 ∷ read_part 4 8 ∷ []) 2 10).1
          0).read_buf)
    × ((stripe_at
            (alloc_read_buffer (λ size. 1000) (read_part 0 8 ∷ read_part 4 8 ∷ []) 2 10).1
            0).read_buf
          + 8
        ≤ (stripe_at
            (alloc_read_buffer (λ size. 1000) (read_part 0 8 ∷ read_part 4 8 ∷ []) 2 10).1
            1).read_buf)
    × ((stripe_at
            (alloc_read_buffer (λ size. 1000) (read_part 0 8 ∷ read_part 4 8 ∷ []) 2 10).1
            1).read_buf
          + 4
        ≤ 1022)
unfolding total_length read_length reads_data
read_buffers_apart_example =
    read_buffers_apart (λ size. 1000) (read_part 0 8 ∷ read_part 4 8 ∷ []) 2 10 0 1 (omega arith)
      (omega arith) refl refl (omega arith) (omega arith)

abbrev bytes : Memory
bytes = λ x. x

memxor-at_example : memxor 10 20 30 4 bytes 32 ≡ bit_xor 12 22
memxor-at_example =
    memxor-at 10 20 30 4 32 bytes (inr (inl (omega arith))) (inr (inl (omega arith)))

set_bits-bit_at_example : bit_at 100 9 (set_bits 12 3 15 100 (λ x. 0)) ≡ 1
set_bits-bit_at_example = set_bits-bit_at 12 3 15 100 9 (λ x. 0) (omega arith) (omega arith)

abbrev half : Stripe
half = record no_stripe {
  read_buf = 1000;
  read_start = 0;
  read_end = 8;
  write_buf = 2000;
  write_start = 4;
  write_end = 6;
}

get_old_new_buffers-locate_example : locate (get_old_new_buffers half 2 8) 3 ≡ 2001
get_old_new_buffers-locate_example =
    get_old_new_buffers-locate half 2 8 5 (inr (omega arith)) (inr (omega arith)) (omega arith)
      (omega arith) (λ p low high. inr (omega arith, high))

is_zero_lem_example : is_zero 5 12 bytes ≡ false
unfolding any_byte
is_zero_lem_example = is_zero_lem 5 12 bytes
