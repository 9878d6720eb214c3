-- ===== src/Journal/Ring.antt =====
-- src/blockstore/blockstore_journal.cpp and src/blockstore/blockstore_write.cpp: the space that
-- `check_available` found is enough for the entry and the data of a small write.
use vitastor.Base.{
  ℕ, suc, ◌+◌, ◌-◌, ◌*◌, ◌/◌, ◌%◌, ◌<◌, ◌≤◌, ◌≡◌, refl, ◌∙◌, ◌⊎◌, inl, inr, Bool, true, false, not,
  ◌&&◌, ◌||◌, List, [], ◌∷◌, none, some, ltb, leb, ◌==◌, if◌then◌else◌, min, arith, Bool-cases,
}
use native.Mathlib.Decide.{dec_lt}
use vitastor.Journal.{Journal, entry_fits, block_after}
use vitastor.Journal.Space.{
  JournalCheck, available, wait_journal_buffer, new_check, room, take_room, to_next, is_first,
  is_busy, check_loop, add_data, check_available,
}
use vitastor.Journal.Entries.{is_used_pos}

-- The positions of the journal are in the ring, and a block is left between its end and its start.
pub record IsRing (j : Journal) : Type 0 where
  pub block : 0 < j.block_size
  pub size : 2 * j.block_size < j.len
  pub start : j.block_size ≤ j.used_start
  pub start_in : j.used_start < j.len
  pub free : j.block_size ≤ j.next_free
  pub free_in : j.next_free < j.len
  pub gap : (j.used_start ≤ j.next_free) ⊎ (j.next_free + j.block_size ≤ j.used_start)

-- All used sectors are in the used part.
abbrev pub AreUsed : Journal → List (ℕ × ℕ) → Type 0
AreUsed j [] = Unit
AreUsed j ((u, n) ∷ used) = (is_used_pos j u ≡ true) × AreUsed j used

-- The last test of `check_available`, at a position.
abbrev pub has_room : Journal → ℕ → Bool → ℕ → Bool
has_room j pos right data_after =
    let wraps = ltb 0 data_after && leb j.len (pos + data_after) in
    let end = if wraps && right then j.block_size + data_after else pos + data_after in
    right && not wraps || ltb end (j.used_start - j.block_size)

-- What `check_available` found for one entry.
abbrev pub HasSpace : Journal → ℕ → ℕ → Type 0
HasSpace j size data_after =
    ((entry_fits j size ≡ true)
      × (has_room j j.next_free (leb j.used_start j.next_free) data_after ≡ true))
    ⊎ ((entry_fits j size ≡ false)
        × (is_busy (j.sector_info ((j.cur_sector + 1) % j.sector_count)) ≡ false)
        × (has_room j (block_after j j.next_free)
              (leb j.used_start j.next_free && ltb (j.next_free + j.block_size) j.len) data_after
            ≡ true))

add_data_lem :
    (j : Journal) (data_after : ℕ) (c : JournalCheck)
    → (not (add_data j data_after c).right_dir
        && leb (j.used_start - j.block_size) (add_data j data_after c).next_pos)
      ≡ not (has_room j c.next_pos c.right_dir data_after)
unfolding add_data
add_data_lem j data_after c = ground arith

quotient_small : (a n : ℕ) → a < n → a / n ≡ 0
quotient_small a n h = grind arith

quotient_pos : (a n : ℕ) → 0 < n → n ≤ a → 0 < a / n
quotient_pos a n h k = grind arith

room-first :
    (j : Journal) (size : ℕ) → 0 < size → ltb 0 (room j size (new_check j)) ≡ entry_fits j size
unfolding room entry_fits
room-first j size h = elim (dec_lt (j.block_size - j.in_sector_pos) size) [
  | yes l ↦ ground (arith, quotient_small (j.block_size - j.in_sector_pos) size l)
  | no n ↦ ground (arith, quotient_pos (j.block_size - j.in_sector_pos) size h (omega (arith, n)))
]

take_room_keeps :
    (j : Journal) (p n size : ℕ) (c : JournalCheck)
    → ((take_room j p n size c).next_pos ≡ c.next_pos)
      × ((take_room j p n size c).right_dir ≡ c.right_dir)
      × ((take_room j p n size c).next_sector ≡ c.next_sector)
unfolding take_room
take_room_keeps j p n size c = ground arith

-- With room for an entry in the sector the loop ends.
check_loop_here :
    (fuel : ℕ) (j : Journal) (p size : ℕ) (c : JournalCheck)
    → 0 < room j size c
    → check_loop (suc fuel) j p 1 size c ≡ some (take_room j p 1 size c, available)
unfolding check_loop
check_loop_here fuel j p size c h =
    let last : (1 - min (room j size c) 1 == 0) ≡ true = ground (arith, h) in rw last refl

check_available_answer :
    (fuel : ℕ) (j : Journal) (size data_after : ℕ) (b u c : JournalCheck)
    → check_loop fuel j b.next_sector 1 size b ≡ some (u, available)
    → check_available fuel j 1 size data_after b ≡ some (c, available)
    → has_room j u.next_pos u.right_dir data_after ≡ true
unfolding check_available
check_available_answer fuel j size data_after b u c run h =
    let test = add_data_lem j data_after u in
    elim (Bool-cases (has_room j u.next_pos u.right_dir data_after)) [
      | inl y ↦ y
      | inr n ↦
          let full : (not (add_data j data_after u).right_dir
                && leb (j.used_start - j.block_size) (add_data j data_after u).next_pos)
              ≡ true =
            test ∙ rw n refl in
          let bad = rw (run, full) at h in cc
    ]

check_available_wait :
    (fuel : ℕ) (j : Journal) (size data_after : ℕ) (b u c : JournalCheck)
    → check_loop fuel j b.next_sector 1 size b ≡ some (u, wait_journal_buffer)
    → check_available fuel j 1 size data_after b ≡ some (c, available)
    → ⊥
unfolding check_available
check_available_wait fuel j size data_after b u c run h = let bad = rw run at h in cc

-- The sector behind the current one.
abbrev pub next_of : Journal → ℕ → ℕ → ℕ → JournalCheck
next_of j p n size = to_next j (take_room j p n size (new_check j))

is_first-none : (c : JournalCheck) → c.first_sector ≡ none → is_first c ≡ false
is_first-none c h = rw h refl

pub take_room_none :
    (j : Journal) (p n size : ℕ) (c : JournalCheck)
    → room j size c ≡ 0
    → (take_room j p n size c).first_sector ≡ c.first_sector
unfolding take_room
take_room_none j p n size c h =
    let full : ltb 0 (room j size c) ≡ false = ground (arith, h) in
    elim (Bool-cases (j.sector_info c.next_sector).dirty) [
      | inl y ↦ rw (full, y) refl
      | inr n ↦ rw (full, n) refl
    ]

first_none :
    (j : Journal) (size : ℕ)
    → room j size (new_check j) ≡ 0
    → is_first (next_of j j.cur_sector 1 size) ≡ false
unfolding to_next
first_none j size h =
    is_first-none (next_of j j.cur_sector 1 size)
      (take_room_none j j.cur_sector 1 size (new_check j) h)

-- With no room in the current sector the loop goes to the next one.
check_loop_next :
    (fuel : ℕ) (j : Journal) (size : ℕ)
    → room j size (new_check j) ≡ 0
    → check_loop (suc fuel) j j.cur_sector 1 size (new_check j) ≡ (
        if is_busy (j.sector_info (next_of j j.cur_sector 1 size).next_sector)
        then some (next_of j j.cur_sector 1 size, wait_journal_buffer)
        else check_loop fuel j j.cur_sector 1 size (next_of j j.cur_sector 1 size))
unfolding check_loop
check_loop_next fuel j size h =
    let more : (1 - min (room j size (new_check j)) 1 == 0) ≡ false = ground (arith, h) in
    let not_first : is_first (next_of j j.cur_sector 1 size) ≡ false = first_none j size h in
    rw (more, not_first) (rw h refl)

next_of_lem :
    (j : Journal) (p n size : ℕ)
    → ((next_of j p n size).next_pos ≡ block_after j j.next_free)
      × ((next_of j p n size).right_dir
          ≡ (leb j.used_start j.next_free && ltb (j.next_free + j.block_size) j.len))
      × ((next_of j p n size).next_sector ≡ (j.cur_sector + 1) % j.sector_count)
      × ((next_of j p n size).next_in_pos ≡ 0)
unfolding to_next
next_of_lem j p n size =
    let keeps = take_room_keeps j p n size (new_check j) in
    (ground (arith, keeps.0), ground (arith, keeps.0, keeps.1), rw (keeps.2) refl, refl)

pub room-next :
    (j : Journal) (p n size : ℕ)
    → IsRing j
    → 0 < size
    → size ≤ j.block_size
    → 0 < room j size (next_of j p n size)
unfolding room
room-next j p n size v pos fits =
    let at = next_of_lem j p n size in
    let moved : ((next_of j p n size).next_pos == j.next_free) ≡ false =
      ground (arith, at.0, v.block, v.size, v.free, v.free_in) in
    let whole : 0 < (j.block_size - (next_of j p n size).next_in_pos) / size =
      quotient_pos (j.block_size - (next_of j p n size).next_in_pos) size pos
        (omega (arith, at.3, fits)) in
    ground (arith, moved, whole)

-- What a successful check says of the journal.
pub check_available-HasSpace :
    (fuel : ℕ) (j : Journal) (size data_after : ℕ) (c : JournalCheck)
    → IsRing j
    → 0 < size
    → size ≤ j.block_size
    → check_available (suc (suc fuel)) j 1 size data_after (new_check j) ≡ some (c, available)
    → HasSpace j size data_after
check_available-HasSpace fuel j size data_after c v pos fits h =
    let same = room-first j size pos in
    let b = new_check j in
    elim (Bool-cases (entry_fits j size)) [
      | inl y ↦
          let u = take_room j j.cur_sector 1 size b in
          let keeps = take_room_keeps j j.cur_sector 1 size b in
          let run = check_loop_here (suc fuel) j j.cur_sector size b (ground (arith, same, y)) in
          inl (
            y,
            rw (keeps.0, keeps.1) at
                (check_available_answer (suc (suc fuel)) j size data_after b u c run h),
          )
      | inr n ↦
          let next = next_of j j.cur_sector 1 size in
          let at = next_of_lem j j.cur_sector 1 size in
          let moved = check_loop_next (suc fuel) j size (ground (arith, same, n)) in
          elim (Bool-cases (is_busy (j.sector_info next.next_sector))) [
            | inl busy ↦ absurd (
                check_available_wait (suc (suc fuel)) j size data_after b next c
                  (moved ∙ rw busy refl) h)
            | inr idle ↦
                let u = take_room j j.cur_sector 1 size next in
                let keeps = take_room_keeps j j.cur_sector 1 size next in
                let run =
                  moved
                  ∙ rw idle (
                      check_loop_here fuel j j.cur_sector size next
                        (room-next j j.cur_sector 1 size v pos fits)) in
                inr (
                  n,
                  rw (at.2) at idle,
                  rw (keeps.0, keeps.1, at.0, at.1) at
                      (check_available_answer (suc (suc fuel)) j size data_after b u c run h),
                )
          ]
    ]
