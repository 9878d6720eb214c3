-- ===== src/Tests/Requests.antt =====
-- src/client/cluster_client.cpp: a write, a SYNC and a write in the queue; and a read of 12 KB over
-- stripes of 8 KB, of which 4 KB are there.
use vitastor.Base.{
  ℕ, ◌+◌, ◌-◌, ◌*◌, ◌/◌, ◌^◌, ◌≤◌, ◌≡◌, ◌↔◌, refl, inl, true, false, ◌&&◌, List, [], ◌∷◌, none,
  some, ltb, leb, ◌==◌, length, if◌then◌else◌, arith,
}
use vitastor.Memory.{Memory}
use vitastor.Client.{ClientOp, is_tracked, is_flush, waits_for, count_waits, enqueue, erase_op}
use vitastor.Client.Counts.{IsCounted}
use vitastor.Client.Drain.{
  drain, Drained, drain-Drained, first_PicksStarted, erase_op-enqueue-fails,
}
use vitastor.Client.Slices.{
  PoolConfig, Request, pg_block_size, is_present, is_partial, slice_rw, map_to_pg, affects_pg,
  affects_osd,
}
use vitastor.Client.Stripes.{IsSliced}
use vitastor.Client.Coverage.{IsPlaced, user_byte, slice_rw_lem}
use vitastor.Client.Affected.{
  IsRange, last_number, IsPrimaryOf, affects_pg-map_to_pg, affects_osd_lem,
}

abbrev first_write : ClientOp
first_write = record { name = 1; opcode = 12; flags = 0; prev_wait = 0 }

abbrev sync : ClientOp
sync = record { name = 2; opcode = 13; flags = 0; prev_wait = 1 }

abbrev second_write : ClientOp
second_write = record { name = 3; opcode = 12; flags = 0; prev_wait = 1 }

abbrev queue : List ClientOp
queue = first_write ∷ sync ∷ second_write ∷ []

queue-IsCounted : IsCounted false [] queue
unfolding count_waits waits_for is_tracked is_flush
queue-IsCounted = (refl, inl refl, (refl, inl refl, (refl, inl refl, tt)))

drain-Drained_example : Drained queue (drain false (λ q. 0) 3 queue)
drain-Drained_example =
    drain-Drained false (λ q. 0) 3 queue (first_PicksStarted false) queue-IsCounted refl

is_tracked-sync : is_tracked false 0 ≡ true
unfolding is_tracked
is_tracked-sync = refl

-- A write to a pool with immediate commits
abbrev immediate_write : ClientOp
immediate_write = record { name = 4; opcode = 12; flags = 4; prev_wait = 0 }

is_tracked-immediate : is_tracked false 4 ≡ false
unfolding is_tracked
is_tracked-immediate = refl

erase_op-enqueue-fails_example :
    erase_op false 0 (sync ∷ (enqueue false (sync ∷ []) immediate_write).0 ∷ []) ≡ none
erase_op-enqueue-fails_example =
    erase_op-enqueue-fails [] [] sync immediate_write refl is_tracked-sync refl refl
      is_tracked-immediate

-- Two data chunks of 4 KB, four placement groups
abbrev pool : PoolConfig
pool = record {
  replicated = false;
  pg_size = 3;
  parity_chunks = 1;
  data_block_size = 4096;
  bitmap_granularity = 4096;
  real_pg_count = 4;
  pg_stripe_size = 8192;
  pg_config = (1, 7) ∷ (2, 8) ∷ [];
}

pg_block_size-pool : pg_block_size pool ≡ 8192
unfolding pg_block_size
pg_block_size-pool = refl

abbrev read : Request
read = record { opcode = 11; inode = 5; cur_inode = 5; offset = 4096; len = 12288 }

read-IsSliced : IsSliced pool read
read-IsSliced = record {
  block = omega (arith, pg_block_size-pool);
  granule = omega arith;
  some_len = omega arith;
  range = omega (arith, pg_block_size-pool);
  offset_granules = (1, omega arith);
  len_granules = (3, omega arith);
  block_granules = (2, omega (arith, pg_block_size-pool));
}

-- The second granule of the read is there.
abbrev bitmap : Memory
bitmap x = if x == 100 then 2 else 0

slice_rw_lem_example :
    (let parts = slice_rw pool read 100 bitmap 65536 true in
      IsPlaced pool (4096 / pg_block_size pool) parts
      × (4096 / pg_block_size pool + length parts ≡ (4096 + 12288 - 1) / pg_block_size pool + 1)
      × ((x : ℕ)
          → user_byte parts x ≡ (
              if leb 4096 x && ltb x (4096 + 12288)
              then if is_partial read true && is_present pool read 100 bitmap x
                then none
                else some (x - 4096)
              else none)))
slice_rw_lem_example = slice_rw_lem pool read 100 bitmap 65536 true read-IsSliced (omega arith) refl

range : IsRange pool 4096 12288
range = record {
  block = omega (arith, pg_block_size-pool);
  stripe = omega arith;
  groups = omega arith;
  few = omega arith;
  some_len = omega arith;
  wide = omega (arith, pg_block_size-pool);
}

stripe_low : 4096 / pg_block_size pool ≤ 1
unfolding pg_block_size
stripe_low = omega arith

stripe_high : 1 ≤ last_number pool 4096 12288
unfolding pg_block_size
stripe_high = omega arith

affects_pg-map_to_pg_example :
    affects_pg pool 5 4096 12288 (5 / 2 ^ 48) (map_to_pg pool (1 * pg_block_size pool)) ≡ true
affects_pg-map_to_pg_example = affects_pg-map_to_pg pool 5 4096 12288 1 range stripe_low stripe_high

affects_osd_lem_example :
    (affects_osd pool 4096 12288 8 ≡ true)
    ↔ IsPrimaryOf pool 8 (4096 / pg_block_size pool) (last_number pool 4096 12288)
affects_osd_lem_example = affects_osd_lem pool 4096 12288 8 range
