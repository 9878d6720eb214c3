-- ===== src/Peering/Flags.antt =====
-- src/osd/osd_peering_pg.cpp: the bits of the state of a placement group after the walk.
use vitastor.Base.{
  ℕ, ◌+◌, ◌^◌, ◌<◌, ◌≤◌, bit_or, Bool, true, false, not, ◌&&◌, List, [], ◌∷◌, ltb, ◌==◌,
  if◌then◌else◌, ◌≡◌, arith, subst, sym, ◌∙◌, ◌⊎◌, inl, inr, ◌≢◌, Bool-cases,
}
use vitastor.Base.Bits.{nth_bit, nth_bit-bit_or, nth_bit-pow_ne, nth_bit-zero}
use vitastor.Peering.Types.{ObjectId, ObjVerRole, ObjLoc, Pg, pg_has_misplaced}
use vitastor.Peering.Check.{
  Check, start_object, handle_version, close_version, open_version, count_copy, count_role,
  count_unstable, add_outdated, add_older, is_extra, is_whole,
}
use vitastor.Peering.Walk.{
  add_object_to_state, count_osd_set, close_object, flush_object, object_state, object_set,
  override_version, record_object, finish_object, finish_current, same_object, walk_entry,
  walk_entries,
}

-- While it walks, the code sets only the bits from PG_HAS_INCOMPLETE to PG_HAS_INVALID.
unfoldable pub IsFlags : ℕ → Type 0
IsFlags s = (j : ℕ) → (j < 8) ⊎ (12 < j) → nth_bit j s ≡ 0

or-IsFlags : (s k : ℕ) → IsFlags s → 8 ≤ k → k ≤ 12 → IsFlags (bit_or s (2 ^ k))
unfolding IsFlags
or-IsFlags s k f lo hi j out =
    let n : j ≢ k = λ e. ground arith in
    omega (arith, nth_bit-bit_or j s (2 ^ k), f j out, nth_bit-pow_ne j k n)

or_zero-IsFlags : (s : ℕ) → IsFlags s → IsFlags (bit_or s 0)
unfolding IsFlags
or_zero-IsFlags s f j out = omega (arith, nth_bit-bit_or j s 0, f j out, nth_bit-zero j)

-- Reading an entry leaves the group as it is.
pub handle_version-pg :
    (item : ObjVerRole) (list_pos : ℕ) (c : Check) → (handle_version item list_pos c).pg ≡ c.pg
unfolding handle_version close_version open_version count_copy count_role count_unstable
handle_version-pg item list_pos c = ground arith

-- The settings of the group, which the walk only reads.
abbrev pub config : Pg → Bool × ℕ × ℕ × ℕ × List ℕ × List ℕ × List ℕ × ℕ
config pg = (
  pg.replicated, pg.pg_cursize, pg.pg_size, pg.pg_data_size, pg.all_peers, pg.cur_peers, pg.cur_set,
  pg.epoch,
)

-- What the walk keeps of the group `start`.
pub record Kept (start pg : Pg) : Type 0 where
  pub flags : IsFlags pg.state
  pub same : config pg ≡ config start

if-IsFlags : (b : Bool) (s t : ℕ) → IsFlags s → IsFlags t → IsFlags (if b then s else t)
if-IsFlags true s t f g = f
if-IsFlags false s t f g = g

add_outdated-IsFlags :
    (cur_set : List ℕ) (items : List ObjVerRole) (r : List ObjLoc × ℕ × ℕ)
    → IsFlags r.2
    → IsFlags (add_outdated cur_set items r).2
unfolding add_outdated add_older
add_outdated-IsFlags cur_set [] r f = f
add_outdated-IsFlags cur_set (item ∷ items) r f =
    add_outdated-IsFlags cur_set items (add_older cur_set item r) (
      if-IsFlags (is_extra cur_set item r.0 && is_whole r.1) (bit_or r.2 pg_has_misplaced) r.2
        (or-IsFlags r.2 10 f (omega arith) (omega arith)) f)

object_state-flag :
    (c : Check) → IsFlags c.pg.state → IsFlags (bit_or c.pg.state (object_state c).1)
unfolding object_state
object_state-flag c f = elim (Bool-cases (not c.pg.replicated && ltb c.n_roles c.pg.pg_data_size)) [
  | inl e ↦ rw e (or-IsFlags c.pg.state 8 f (omega arith) (omega arith))
  | inr e ↦
      rw e
        (elim (Bool-cases
          (ltb (if c.pg.replicated then c.n_copies else c.n_roles) c.pg.pg_cursize)) [
            | inl h ↦ rw h (or-IsFlags c.pg.state 9 f (omega arith) (omega arith))
            | inr h ↦ rw h (elim (Bool-cases (ltb 0 c.n_mismatched)) [
              | inl m ↦ rw m (or-IsFlags c.pg.state 10 f (omega arith) (omega arith))
              | inr m ↦ rw m (or_zero-IsFlags c.pg.state f)
            ])
          ])
]

object_set-IsFlags :
    (list : List ObjVerRole) (list_pos : ℕ) (c : Check)
    → IsFlags c.pg.state
    → IsFlags (object_set list list_pos c).2
unfolding object_set
object_set-IsFlags list list_pos c f = elim (Bool-cases (ltb c.ver_end list_pos)) [
  | inl e ↦ rw e (add_outdated-IsFlags _ _ _ (object_state-flag c f))
  | inr e ↦ rw e (object_state-flag c f)
]

pub close_object-pg : (list_pos : ℕ) (c : Check) → (close_object list_pos c).pg ≡ c.pg
unfolding close_object
close_object-pg list_pos c = ground arith

module _ {start : Pg} where
  flush_object-Kept :
      (list : List ObjVerRole) (list_pos : ℕ) (c : Check)
      → Kept start c.pg
      → Kept start (flush_object list list_pos c).pg
  unfolding flush_object
  flush_object-Kept list list_pos c k = elim (Bool-cases (ltb 0 c.n_unstable)) [
    | inr e ↦ rw e k
    | inl e ↦ rw e (record {
      flags = or-IsFlags c.pg.state 11 k.flags (omega arith) (omega arith);
      same = k.same;
    })
  ]

add_object_to_state-config :
    (oid : ObjectId) (state : ℕ) (osd_set : List ObjLoc) (pg : Pg)
    → (config (add_object_to_state oid state osd_set pg) ≡ config pg)
      × ((add_object_to_state oid state osd_set pg).state ≡ pg.state)
unfolding add_object_to_state count_osd_set
add_object_to_state-config oid state osd_set pg = ground arith

override_version-config :
    (c : Check)
    → (config (override_version c).pg ≡ config c.pg) × ((override_version c).pg.state ≡ c.pg.state)
unfolding override_version
override_version-config c = ground arith

module _ {start : Pg} where
  Kept-of_same :
      (pg q : Pg) → (config q ≡ config pg) × (q.state ≡ pg.state) → Kept start pg → Kept start q
  Kept-of_same pg q e k = record { flags = subst IsFlags (sym e.1) k.flags; same = e.0 ∙ k.same }

  record_object-Kept :
      (list : List ObjVerRole) (list_pos : ℕ) (c : Check)
      → Kept start c.pg
      → Kept start (record_object list list_pos c).pg
  unfolding record_object
  record_object-Kept list list_pos c k =
      let r = object_set list list_pos c in
      let d : Check = record c {
        osd_set = r.0;
        pg = record c.pg { state = r.2; total_count = c.pg.total_count + 1 };
      } in
      let walked : Kept start d.pg = record {
        flags = object_set-IsFlags list list_pos c k.flags;
        same = k.same;
      } in
      let o = override_version d in
      let overridden = Kept-of_same d.pg o.pg (override_version-config d) walked in
      elim (Bool-cases (r.1 == 0)) [
        | inl e ↦ rw e (record { flags = overridden.flags; same = overridden.same })
        | inr e ↦ rw e (
            Kept-of_same o.pg (add_object_to_state o.oid r.1 r.0 o.pg)
              (add_object_to_state-config o.oid r.1 r.0 o.pg) overridden)
      ]

  finish_object-Kept :
      (list : List ObjVerRole) (list_pos : ℕ) (c : Check)
      → Kept start c.pg
      → Kept start (finish_object list list_pos c).pg
  unfolding finish_object
  finish_object-Kept list list_pos c k =
      let d = close_object list_pos c in
      let closed : Kept start d.pg = subst (Kept start) (sym (close_object-pg list_pos c)) k in
      let f = flush_object list list_pos d in
      let flushed = flush_object-Kept list list_pos d closed in
      elim (Bool-cases (ltb 0 d.n_invalid)) [
        | inl e ↦ rw e (record {
          flags = or-IsFlags d.pg.state 12 closed.flags (omega arith) (omega arith);
          same = closed.same;
        })
        | inr e ↦ rw e (elim (Bool-cases (f.target_ver == 0)) [
          | inl z ↦ rw z flushed
          | inr z ↦ rw z (record_object-Kept list list_pos f flushed)
        ])
      ]

  finish_current-Kept :
      (list : List ObjVerRole) (list_pos : ℕ) (c : Check)
      → Kept start c.pg
      → Kept start (finish_current list list_pos c).pg
  unfolding finish_current
  finish_current-Kept list list_pos c k = elim (Bool-cases (c.oid.inode == 0)) [
    | inl e ↦ rw e k
    | inr e ↦ rw e (finish_object-Kept list list_pos c k)
  ]

  walk_entry-Kept :
      (list : List ObjVerRole) (item : ObjVerRole) (list_pos : ℕ) (c : Check)
      → Kept start c.pg
      → Kept start (walk_entry list item list_pos c).pg
  unfolding walk_entry
  walk_entry-Kept list item list_pos c k =
      rw handle_version-pg (elim (Bool-cases (same_object c item)) [
        | inl e ↦ rw e k
        | inr e ↦ rw e (unfold start_object in finish_current-Kept list list_pos c k)
      ])

  pub walk_entries-Kept :
      (list items : List ObjVerRole) (list_pos : ℕ) (c : Check)
      → Kept start c.pg
      → Kept start (walk_entries list items list_pos c).pg
  unfolding walk_entries
  walk_entries-Kept list [] list_pos c k = finish_current-Kept list list_pos c k
  walk_entries-Kept list (item ∷ items) list_pos c k =
      walk_entries-Kept list items (list_pos + 1) (walk_entry list item list_pos c)
        (walk_entry-Kept list item list_pos c k)
