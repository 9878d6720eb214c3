-- ===== src/Journal/Fill.antt =====
-- src/blockstore/blockstore_write.cpp: the place of the data of a small write in a journal with space.
pub mod Entry
use vitastor.Base.{
  ℕ, ◌+◌, ◌<◌, ◌≤◌, ◌≡◌, refl, ◌⊎◌, inl, inr, true, false, not, ◌&&◌, List, [], ◌∷◌, some, ltb, leb,
  ◌==◌, if◌then◌else◌, arith, Bool-cases,
}
use vitastor.Journal.{Journal, current}
use vitastor.Journal.Entries.{
  may_go_to, is_used_pos, use_sector, overwrites, reserve_data, pass_data,
}
use vitastor.Journal.Ring.{IsRing, AreUsed, has_room}

-- What the data needs of the journal once the entry is in its place.
pub record IsReady (j : Journal) (data_after : ℕ) : Type 0 where
  pub ring : IsRing j
  pub sector : is_used_pos j (current j).offset ≡ true
  pub used : AreUsed j j.used_sectors
  pub room : has_room j j.next_free (leb j.used_start j.next_free) data_after ≡ true

-- The place of the data, and the end of it.
abbrev pub data_pos : Journal → ℕ → ℕ
data_pos j len = if leb (j.next_free + len) j.len then j.next_free else j.block_size

abbrev pub data_end : Journal → ℕ → ℕ
data_end j len = if leb j.len (data_pos j len + len) then j.block_size else data_pos j len + len

abbrev pub placed : Journal → ℕ → Journal
placed j len = record j {
  used_sectors = use_sector (current j).offset j.used_sectors;
  next_free = data_end j len;
}

module _ (j : Journal) (data_after len : ℕ) (v : IsReady j data_after) (h : len ≤ data_after) where
  may_go_to_pos : may_go_to j (data_pos j len) ≡ true
  may_go_to_pos =
      let r = v.ring in
      let room = v.room in
      ground (arith, h, r.block, r.size, r.start, r.start_in, r.free, r.free_in, r.gap, room)

  pub may_go_to_end : may_go_to (record j { next_free = data_pos j len }) (data_end j len) ≡ true
  may_go_to_end =
      let r = v.ring in
      let room = v.room in
      ground (arith, h, r.block, r.size, r.start, r.start_in, r.free, r.free_in, r.gap, room)

  pub end-IsRing : IsRing (placed j len)
  end-IsRing =
      let r = v.ring in
      let room = v.room in
      record {
        block = r.block;
        size = r.size;
        start = r.start;
        start_in = r.start_in;
        free = ground (arith, h, r.size, r.free, room);
        free_in = ground (arith, h, r.block, r.size, r.start_in, r.free_in, room);
        gap = end_gap;
      }
    where
      end_gap : (j.used_start ≤ data_end j len) ⊎ (data_end j len + j.block_size ≤ j.used_start)
      end_gap =
          let r = v.ring in
          let room = v.room in
          ground (arith, h, r.block, r.size, r.start, r.start_in, r.free, r.free_in, r.gap, room)

  -- A used position is not in the place of the data.
  data_apart : (u : ℕ) → is_used_pos j u ≡ true → (u < data_pos j len) ⊎ (data_pos j len + len ≤ u)
  data_apart u y =
      let r = v.ring in
      let room = v.room in
      ground (arith, h, r.block, r.size, r.start, r.start_in, r.free, r.free_in, r.gap, room, y)

  overwrites-none :
      (used : List (ℕ × ℕ)) → AreUsed j used → overwrites (data_pos j len) len used ≡ false
  unfolding overwrites
  overwrites-none [] a = refl
  overwrites-none ((u, n) ∷ used) (y, a) = ground (arith, overwrites-none used a, data_apart u y)

  -- What is used stays in the used part.
  pub used_still : (u : ℕ) → is_used_pos j u ≡ true → is_used_pos (placed j len) u ≡ true
  used_still u y =
      let r = v.ring in
      let room = v.room in
      ground (arith, h, r.block, r.size, r.start, r.start_in, r.free, r.free_in, r.gap, room, y)

pub use_sector-AreUsed :
    (j : Journal) (pos : ℕ) (used : List (ℕ × ℕ))
    → is_used_pos j pos ≡ true
    → AreUsed j used
    → AreUsed j (use_sector pos used)
unfolding use_sector
use_sector-AreUsed j pos [] y a = (y, tt)
use_sector-AreUsed j pos ((u, n) ∷ used) y (z, a) =
    let rest = use_sector-AreUsed j pos used y a in
    elim (Bool-cases (u == pos)) [
      | inl e ↦ rw e (z, a)
      | inr o ↦ elim (Bool-cases (ltb pos u)) [
        | inl l ↦ rw (o, l) (y, (z, a))
        | inr g ↦ rw (o, g) (z, rest)
      ]
    ]

-- All used sectors stay in the used part.
pub AreUsed-placed :
    (j : Journal) (data_after len : ℕ)
    → IsReady j data_after
    → len ≤ data_after
    → (used : List (ℕ × ℕ)) → AreUsed j used
    → AreUsed (placed j len) used
AreUsed-placed j data_after len v h [] a = tt
AreUsed-placed j data_after len v h ((u, n) ∷ used) (y, a) =
    (used_still j data_after len v h u y, AreUsed-placed j data_after len v h used a)

-- The journal with the data's place reserved.
abbrev pub reserved : Journal → ℕ → Journal
reserved j len = record j {
  used_sectors = use_sector (current j).offset j.used_sectors;
  next_free = data_pos j len;
}

pub reserve_data_run :
    (j : Journal) (data_after len : ℕ)
    → IsReady j data_after
    → len ≤ data_after
    → reserve_data j len ≡ some (reserved j len)
unfolding reserve_data
reserve_data_run j data_after len v h =
    let used = use_sector-AreUsed j (current j).offset j.used_sectors v.sector v.used in
    let free =
      overwrites-none j data_after len v h (use_sector (current j).offset j.used_sectors) used in
    let kept : not (
          ltb 0 len
          && overwrites (data_pos j len) len (use_sector (current j).offset j.used_sectors))
        ≡ true =
      ground (arith, free) in
    rw (v.sector, kept, may_go_to_pos j data_after len v h) refl

pass_data_run :
    (j : Journal) (data_after len : ℕ)
    → IsReady j data_after
    → len ≤ data_after
    → pass_data (reserved j len) len ≡ some (placed j len)
unfolding pass_data
pass_data_run j data_after len v h = rw (may_go_to_end j data_after len v h) refl

pub AreUsed-same :
    (j k : Journal) (used : List (ℕ × ℕ))
    → ((u : ℕ) → is_used_pos j u ≡ true → is_used_pos k u ≡ true)
    → AreUsed j used
    → AreUsed k used
AreUsed-same j k [] h a = tt
AreUsed-same j k ((u, n) ∷ used) h (y, a) = (h u y, AreUsed-same j k used h a)
