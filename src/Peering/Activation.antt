-- ===== src/Peering/Activation.antt =====
-- src/osd/osd_peering_pg.cpp: the state in which `walk` leaves a placement group.
use vitastor.Base.{
  ℕ, ◌^◌, ◌<◌, bit_and, bit_or, Bool, true, false, List, ltb, ◌==◌, ◌!=◌, if◌then◌else◌, length,
  ◌≡◌, refl, arith, ap, ◌∙◌, ◌⊎◌, inl, inr, ◌≢◌, Bool-cases,
}
use vitastor.Base.Bits.{
  nth_bit, nth_bit-bit_or, nth_bit-pow_ne, nth_bit-zero, nth_bit-lt, nth_bit-pow_self, bit_and-pow,
}
use vitastor.Peering.Types.{
  ObjVerRole, Pg, pg_incomplete, pg_active, pg_degraded, pg_has_invalid, pg_left_on_dead,
}
use vitastor.Peering.Walk.{activate, walk, walk_entries, new_check}
use vitastor.Peering.Flags.{IsFlags, Kept, config, walk_entries-Kept}

-- One bit of a state with another flag set under a test.
module _ (s k : ℕ) where
  pub or_if_self :
      (b : Bool)
      → nth_bit k s ≡ 0
      → nth_bit k (if b then bit_or s (2 ^ k) else s) ≡ (if b then 1 else 0)
  or_if_self true h = omega (arith, nth_bit-bit_or k s (2 ^ k), nth_bit-pow_self k)
  or_if_self false h = h

  pub or_if_ne :
      (b : Bool) (j : ℕ) → j ≢ k → nth_bit j (if b then bit_or s (2 ^ k) else s) ≡ nth_bit j s
  or_if_ne true j n = omega (arith, nth_bit-bit_or j s (2 ^ k), nth_bit-pow_ne j k n)
  or_if_ne false j n = refl

-- The state of an active group: PG_ACTIVE is set, PG_INCOMPLETE and PG_HAS_INVALID are not, and
-- PG_DEGRADED and PG_LEFT_ON_DEAD tell of missing OSDs and peers.
pub record IsActive (pg : Pg) (state : ℕ) : Type 0 where
  pub active : nth_bit 3 state ≡ 1
  pub complete : nth_bit 2 state ≡ 0
  pub valid : nth_bit 12 state ≡ 0
  pub degraded : nth_bit 7 state ≡ (if ltb pg.pg_cursize pg.pg_size then 1 else 0)
  pub left_on_dead :
      nth_bit 15 state ≡ (if ltb (length pg.cur_peers) (length pg.all_peers) then 1 else 0)

has_invalid_test : (s : ℕ) → (bit_and s pg_has_invalid != 0) ≡ (nth_bit 12 s == 1)
has_invalid_test s = ground (arith, bit_and-pow 12 s, nth_bit-lt 12 s)

-- The three flags that `activate` sets, one after the other.
module _ (s : ℕ) (degraded left : Bool) (f : IsFlags s) where
  abbrev with_degraded : ℕ
  with_degraded = if degraded then bit_or s pg_degraded else s

  abbrev with_active : ℕ
  with_active = bit_or with_degraded pg_active

  abbrev with_left : ℕ
  with_left = if left then bit_or with_active pg_left_on_dead else with_active

  bit_other : (j : ℕ) → j ≢ 7 → j ≢ 3 → j ≢ 15 → nth_bit j with_left ≡ nth_bit j s
  bit_other j p q r =
      or_if_ne with_active 15 left j r
      ∙ or_if_ne with_degraded 3 true j q
      ∙ or_if_ne s 7 degraded j p

  bit_low : (j : ℕ) → j < 8 → nth_bit j s ≡ 0
  unfolding IsFlags
  bit_low j h = f j (inl h)

  bit_high : (j : ℕ) → 12 < j → nth_bit j s ≡ 0
  unfolding IsFlags
  bit_high j h = f j (inr h)

  bit_degraded : nth_bit 7 with_left ≡ (if degraded then 1 else 0)
  bit_degraded =
      or_if_ne with_active 15 left 7 (omega arith)
      ∙ or_if_ne with_degraded 3 true 7 (omega arith)
      ∙ or_if_self s 7 degraded (bit_low 7 (omega arith))

  bit_active : nth_bit 3 with_left ≡ 1
  bit_active =
      or_if_ne with_active 15 left 3 (omega arith)
      ∙ or_if_self with_degraded 3 true
          (or_if_ne s 7 degraded 3 (omega arith) ∙ bit_low 3 (omega arith))

  bit_left : nth_bit 15 with_left ≡ (if left then 1 else 0)
  bit_left = or_if_self with_active 15 left (
      or_if_ne with_degraded 3 true 15 (omega arith)
      ∙ or_if_ne s 7 degraded 15 (omega arith)
      ∙ bit_high 15 (omega arith))

activate_state :
    (pg : Pg)
    → IsFlags pg.state
    → ((activate pg).state ≡ bit_or pg_incomplete pg_has_invalid) ⊎ IsActive pg (activate pg).state
unfolding activate
activate_state pg f = elim (Bool-cases (nth_bit 12 pg.state == 1)) [
  | inl e ↦ inl (rw (has_invalid_test pg.state, e))
  | inr e ↦
      let degraded = ltb pg.pg_cursize pg.pg_size in
      let left = ltb (length pg.cur_peers) (length pg.all_peers) in
      inr (
        rw (has_invalid_test pg.state, e)
          (record {
            active = bit_active pg.state degraded left f;
            complete =
                bit_other pg.state degraded left f 2 (omega arith) (omega arith) (omega arith)
                ∙ bit_low pg.state degraded left f 2 (omega arith);
            valid =
                bit_other pg.state degraded left f 12 (omega arith) (omega arith) (omega arith)
                ∙ ground (arith, nth_bit-lt 12 pg.state);
            degraded = bit_degraded pg.state degraded left f;
            left_on_dead = bit_left pg.state degraded left f;
          }))
]

no-IsFlags : IsFlags 0
unfolding IsFlags
no-IsFlags j out = nth_bit-zero j

IsActive-of_config : {p q : Pg} {s : ℕ} → config p ≡ config q → IsActive p s → IsActive q s
IsActive-of_config e a = record {
  active = a.active;
  complete = a.complete;
  valid = a.valid;
  degraded = rw (← ap (λ c. c.1) e, ← ap (λ c. c.2) e) a.degraded;
  left_on_dead = rw (← ap (λ c. c.4) e, ← ap (λ c. c.5) e) a.left_on_dead;
}

-- After `walk` the group is either stopped, in exactly the state PG_INCOMPLETE | PG_HAS_INVALID, or
-- active, degraded exactly if it has fewer OSDs than its size, and marked as left on dead OSDs
-- exactly if fewer peers are connected than there are.
pub walk_state :
    (list : List ObjVerRole) (pg : Pg)
    → ((walk list pg).state ≡ bit_or pg_incomplete pg_has_invalid)
      ⊎ IsActive pg (walk list pg).state
unfolding walk
walk_state list pg =
    let read = walk_entries list list 0 (new_check pg) in
    let start : Kept pg (new_check pg).pg = record { flags = no-IsFlags; same = refl } in
    let k = walk_entries-Kept list list 0 (new_check pg) start in
    elim (activate_state read.pg k.flags) [
      | inl e ↦ inl e
      | inr a ↦ inr (IsActive-of_config k.same a)
    ]
