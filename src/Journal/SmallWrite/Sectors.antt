-- ===== src/Journal/SmallWrite/Sectors.antt =====
-- src/blockstore/blockstore_journal.cpp: what `prefill_single_journal_entry` keeps of the sectors.
use vitastor.Base.{
  ℕ, ◌+◌, ◌%◌, ◌<◌, ◌≡◌, refl, ◌∙◌, ap, inl, inr, false, Option, some, none, ltb, ◌==◌, arith,
  Bool-cases, ◌>>=◌,
}
use native.Mathlib.Nat.{mod-eq_of_lt, mod_self}
use vitastor.Memory.{Memory, fill}
use vitastor.Journal.{Journal, current, entry_fits}
use vitastor.Journal.Entries.{
  sector_address, prefill_single_journal_entry, next_journal_sector, choose_sector, start_sector,
  put_entry,
}

pub next_index : (i n : ℕ) → i < n → 1 < n → ((((i + 1) % n) == i) ≡ false) × ((i + 1) % n < n)
next_index i n h k = elim (Bool-cases (ltb (i + 1) n)) [
  | inl y ↦
      let e : (i + 1) % n ≡ i + 1 = mod-eq_of_lt (ground (arith, y)) in
      (ground (arith, e), ground (arith, e, y))
  | inr g ↦
      let last : i + 1 ≡ n = ground (arith, h, g) in
      let e : (i + 1) % n ≡ 0 = ap (λ x. x % n) last ∙ mod_self n in
      (ground (arith, e, last, k), ground (arith, e, k))
]

-- The numbers that the filling of an entry keeps.
abbrev pub KeepsSectors : Journal → Journal → Type 0
KeepsSectors j k =
    (k.submit_id ≡ j.submit_id)
    × (k.sector_count ≡ j.sector_count)
    × (k.flushing_ops ≡ j.flushing_ops)
    × (k.cur_sector < k.sector_count)

choose_sector-keeps :
    (j k : Journal)
    → choose_sector j ≡ some k
    → j.cur_sector < j.sector_count
    → 1 < j.sector_count
    → KeepsSectors j k
unfolding choose_sector
choose_sector-keeps j k h c n =
    let next = (next_index j.cur_sector j.sector_count c n).1 in ground (arith, h, c, next)

start_sector-keeps :
    (j k : Journal) → start_sector j ≡ some k → j.cur_sector < j.sector_count → KeepsSectors j k
unfolding start_sector
start_sector-keeps j k h c = ground (arith, h, c)

bind_some {ℓ κ} :
    {A : Type ℓ} {B : Type κ} (m : Option A) (f : A → Option B) {b : B}
    → (m >>= f) ≡ some b
    → (a : A) × (m ≡ some a) × (f a ≡ some b)
bind_some (some a) f h = (a, refl, h)
bind_some none f h = cc

next_journal_sector-keeps :
    (j k : Journal)
    → next_journal_sector j ≡ some k
    → j.cur_sector < j.sector_count
    → 1 < j.sector_count
    → KeepsSectors j k
unfolding next_journal_sector
next_journal_sector-keeps j k h c n = elim (Bool-cases (current j).dirty) [
  | inl y ↦ let bad = rw y at h in cc
  | inr clean ↦
      let (i, chosen, started) = bind_some (choose_sector j) start_sector (rw clean at h) in
      let (id, count, flushing, cur) = choose_sector-keeps j i chosen c n in
      let (id', count', flushing', cur') = start_sector-keeps i k started cur in
      (id' ∙ id, count' ∙ count, flushing' ∙ flushing, cur')
]

pub prefill-keeps :
    (j : Journal) (type size : ℕ) (m : Memory) (e : Journal × ℕ × Memory)
    → prefill_single_journal_entry j type size m ≡ some e
    → j.cur_sector < j.sector_count
    → 1 < j.sector_count
    → KeepsSectors j (e.0)
unfolding prefill_single_journal_entry put_entry
prefill-keeps j type size m e h c n = elim (Bool-cases (entry_fits j size)) [
  | inl y ↦ let here = rw y at h in ground (arith, here, c)
  | inr full ↦
      let (k, moved, put) =
        bind_some (next_journal_sector j)
          (λ k. some (put_entry k type size (fill k.block_size (sector_address k) 0 m)))
          (rw full at h) in
      let (id, count, flushing, cur) = next_journal_sector-keeps j k moved c n in
      ground (arith, put, id, count, flushing, cur)
]
