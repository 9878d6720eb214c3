-- ===== src/Journal/Rounds.antt =====
-- src/blockstore/blockstore_journal.cpp: the loop of `check_available` ends.
use vitastor.Base.{
  ℕ, zero, suc, ◌+◌, ◌-◌, ◌%◌, ◌<◌, ◌≤◌, ◌≡◌, refl, sym, ◌∙◌, ap, inl, inr, true, not, ◌&&◌, none,
  some, ltb, leb, ◌==◌, if◌then◌else◌, min, arith, Bool-cases,
}
use native.Mathlib.Decide.{ℕ_discrete}
use native.Mathlib.Nat.{mod-add-mod, add-mod_right, mod-eq_of_lt, mod-lt}
use vitastor.Journal.{Journal}
use vitastor.Journal.Space.{
  JournalCheck, Answer, available, wait_journal_buffer, wait_journal, too_small, new_check, room,
  take_room, to_next, is_first, is_busy, check_loop, add_data, check_available,
}
use vitastor.Journal.Ring.{IsRing, room-next, next_of, take_room_none}

abbrev Ends : ℕ → Journal → ℕ → ℕ → ℕ → JournalCheck → Type 0
Ends fuel j p required size c =
    (r : JournalCheck × Answer) × (check_loop fuel j p required size c ≡ some r)

-- The first sector stays the first one.
take_room_first :
    (j : Journal) (p n size f : ℕ) (c : JournalCheck)
    → c.first_sector ≡ some f
    → ((take_room j p n size c).first_sector ≡ some f)
unfolding take_room
take_room_first j p n size f c h = ground (arith, h)

to_next_first : (j : Journal) (c : JournalCheck) → (to_next j c).first_sector ≡ c.first_sector
unfolding to_next
to_next_first j c = refl

next_sector_lem :
    (j : Journal) (p n size : ℕ) (c : JournalCheck)
    → (to_next j (take_room j p n size c)).next_sector ≡ (c.next_sector + 1) % j.sector_count
unfolding to_next take_room
next_sector_lem j p n size c = ground arith

is_first-some :
    (c : JournalCheck) (f : ℕ) → c.first_sector ≡ some f → c.next_sector ≡ f → is_first c ≡ true
is_first-some c f h e = rw h (ground (arith, e))

-- The loop ends when it comes to the first sector again.
check_loop_round :
    (fuel k f : ℕ) (j : Journal) (p required size : ℕ) (c : JournalCheck)
    → (take_room j p required size c).first_sector ≡ some f
    → f < j.sector_count
    → c.next_sector ≡ (f + k) % j.sector_count
    → k < j.sector_count
    → j.sector_count ≤ fuel + k
    → Ends fuel j p required size c
unfolding check_loop
check_loop_round zero k f j p required size c h b e l n = absurd (omega (arith, l, n))
check_loop_round (suc fuel) k f j p required size c h b e l n =
    let used = take_room j p required size c in
    let left = required - min (room j size c) required in
    let next = to_next j used in
    let step : next.next_sector ≡ (f + k + 1) % j.sector_count =
      next_sector_lem j p required size c
      ∙ ap (λ (s : ℕ). (s + 1) % j.sector_count) e
      ∙ mod-add-mod (f + k) j.sector_count 1 in
    elim (Bool-cases (left == 0)) [
      | inl y ↦ ((used, available), rw y refl)
      | inr m ↦ elim (Bool-cases (is_first next)) [
        | inl y ↦ ((next, too_small), rw (m, y) refl)
        | inr o ↦ elim (Bool-cases (is_busy (j.sector_info next.next_sector))) [
          | inl y ↦ ((next, wait_journal_buffer), rw (m, o, y) refl)
          | inr q ↦ elim (ℕ_discrete (k + 1) j.sector_count) [
            | yes whole ↦
                let back : next.next_sector ≡ f =
                  step
                  ∙ ap (λ (s : ℕ). s % j.sector_count) (omega (arith, whole))
                  ∙ add-mod_right f j.sector_count
                  ∙ mod-eq_of_lt b in
                let bad = sym (is_first-some next f (to_next_first j used ∙ h) back) ∙ o in cc
            | no more ↦
                let at : next.next_sector ≡ (f + (k + 1)) % j.sector_count =
                  step ∙ ap (λ (s : ℕ). s % j.sector_count) (omega arith) in
                let (r, run) =
                  check_loop_round fuel (k + 1) f j p left size next
                    (take_room_first j p left size f next (to_next_first j used ∙ h)) b at
                    (omega (arith, l, more)) (omega (arith, n)) in
                (r, rw (m, o, q) run)
          ]
        ]
      ]
    ]

take_room_starts :
    (j : Journal) (p n size : ℕ) (c : JournalCheck)
    → 0 < room j size c
    → c.first_sector ≡ none
    → (take_room j p n size c).first_sector ≡ some c.next_sector
unfolding take_room
take_room_starts j p n size c h e =
    let some_room : ltb 0 (room j size c) ≡ true = ground (arith, h) in rw (some_room, e) refl

-- A loop that begins with room for an entry.
check_loop_roomy :
    (fuel : ℕ) (j : Journal) (p required size : ℕ) (c : JournalCheck)
    → 0 < room j size c
    → c.first_sector ≡ none
    → c.next_sector < j.sector_count
    → j.sector_count ≤ fuel
    → Ends fuel j p required size c
check_loop_roomy fuel j p required size c h e b n =
    let zero_add : c.next_sector + 0 ≡ c.next_sector = omega arith in
    let at : c.next_sector ≡ (c.next_sector + 0) % j.sector_count =
      sym (ap (λ (s : ℕ). s % j.sector_count) zero_add ∙ mod-eq_of_lt b) in
    check_loop_round fuel 0 c.next_sector j p required size c
      (take_room_starts j p required size c h e) b at (omega (arith, b)) (omega (arith, n))

check_loop_total :
    (j : Journal) (required size : ℕ)
    → IsRing j
    → 0 < size
    → size ≤ j.block_size
    → j.cur_sector < j.sector_count
    → Ends (suc j.sector_count) j j.cur_sector required size (new_check j)
unfolding check_loop
check_loop_total j required size v pos fits b =
    let c = new_check j in
    let p = j.cur_sector in
    elim (Bool-cases (ltb 0 (room j size c))) [
      | inl y ↦
          check_loop_roomy (suc j.sector_count) j p required size c (ground (arith, y)) refl b
            (omega arith)
      | inr full ↦
          let used = take_room j p required size c in
          let left = required - min (room j size c) required in
          let next = next_of j p required size in
          elim (Bool-cases (left == 0)) [
            | inl y ↦ ((used, available), rw y refl)
            | inr m ↦ elim (Bool-cases (is_first next)) [
              | inl y ↦ ((next, too_small), rw (m, y) refl)
              | inr o ↦ elim (Bool-cases (is_busy (j.sector_info next.next_sector))) [
                | inl y ↦ ((next, wait_journal_buffer), rw (m, o, y) refl)
                | inr q ↦
                    let none_yet : next.first_sector ≡ none =
                      to_next_first j used
                      ∙ take_room_none j p required size c (ground (arith, full)) in
                    let at = next_sector_lem j p required size c in
                    let inside : next.next_sector < j.sector_count =
                      omega (arith, at, mod-lt (p + 1) {m = j.sector_count} (omega (arith, b))) in
                    let (r, run) =
                      check_loop_roomy j.sector_count j p left size next
                        (room-next j p required size v pos fits) none_yet inside (omega arith) in
                    (r, rw (m, o, q) run)
              ]
            ]
          ]
    ]

-- What `check_available` makes of the loop's result.
abbrev answered : Journal → ℕ → JournalCheck → Answer → JournalCheck × Answer
answered j data_after c available =
    let d = add_data j data_after c in
    if not d.right_dir && leb (j.used_start - j.block_size) d.next_pos
    then (d, wait_journal j.used_start)
    else (d, available)
answered j data_after c other = (c, other)

-- `check_available` on a new check always gives an answer, if an entry fits a block: one round more
-- than there are sectors is enough.
pub check_available_total :
    (j : Journal) (entries_required size data_after : ℕ)
    → IsRing j
    → 0 < size
    → size ≤ j.block_size
    → j.cur_sector < j.sector_count
    → (r : JournalCheck × Answer) × (check_available
          (suc j.sector_count)
          j
          entries_required
          size
          data_after
          (new_check j)
        ≡ some r)
unfolding check_available
check_available_total j entries_required size data_after v pos fits b =
    let (r, run) = check_loop_total j entries_required size v pos fits b in finish (r.0) (r.1) run
  where
    finish :
        (c : JournalCheck) (answer : Answer)
        → check_loop (suc j.sector_count) j j.cur_sector entries_required size (new_check j)
          ≡ some (c, answer)
        → (r : JournalCheck × Answer) × (check_available
              (suc j.sector_count)
              j
              entries_required
              size
              data_after
              (new_check j)
            ≡ some r)
    finish c available run = (answered j data_after c available, rw run (ground arith))
    finish c wait_journal_buffer run = ((c, wait_journal_buffer), rw run refl)
    finish c (wait_journal pos) run = ((c, wait_journal pos), rw run refl)
    finish c too_small run = ((c, too_small), rw run refl)
