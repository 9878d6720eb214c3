-- ===== src/Peering/Counts.antt =====
-- src/osd/osd_peering_pg.cpp: every object is counted as clean or in one entry of `state_dict`.
use vitastor.Base.{
  ℕ, ◌+◌, ◌^◌, bit_and, bit_or, Bool, true, false, List, [], ◌∷◌, ltb, ◌==◌, if◌then◌else◌, ◌≡◌,
  refl, arith, subst, ap, sym, ◌∙◌, ◌⊎◌, inl, inr, Bool-cases, none, some, Option-cases, ◌&&◌,
}
use vitastor.Base.Bits.{nth_bit, nth_bit-bit_or, nth_bit-pow_self, nth_bit-lt, bit_and-pow}
use vitastor.Peering.Types.{
  ObjectId, ObjVerRole, ObjLoc, OsdSetState, Pg, find, put, same_set, pg_incomplete, pg_has_invalid,
  pg_has_misplaced,
}
use vitastor.Peering.Check.{Check, add_outdated, add_older, is_extra, is_whole, start_object}
use vitastor.Peering.Walk.{
  add_object_to_state, count_osd_set, close_object, flush_object, object_state, object_set,
  override_version, record_object, finish_object, finish_current, same_object, walk_entry,
  walk_entries, activate, walk, new_check,
}
use vitastor.Peering.Flags.{handle_version-pg, close_object-pg}

-- The objects that the entries of `state_dict` count.
unfoldable pub dict_objects : List (List ObjLoc × OsdSetState) → ℕ
dict_objects [] = 0
dict_objects ((k, s) ∷ m) = s.object_count + dict_objects m

dict_objects-put_new :
    (k : List ObjLoc) (s : OsdSetState) (m : List (List ObjLoc × OsdSetState))
    → find same_set k m ≡ none
    → dict_objects (put same_set k s m) ≡ dict_objects m + s.object_count
unfolding dict_objects find put
dict_objects-put_new k s [] h = omega arith
dict_objects-put_new k s ((j, t) ∷ m) h = elim (Bool-cases (same_set j k)) [
  | inl e ↦ cc (sym h ∙ ap (λ b. if b then some t else find same_set k m) e)
  | inr e ↦
      let rest : find same_set k m ≡ none =
        ap (λ b. if b then some t else find same_set k m) (sym e) ∙ h in
      rw e (omega (arith, dict_objects-put_new k s m rest))
]

dict_objects-put_old :
    (k : List ObjLoc) (old new : OsdSetState) (m : List (List ObjLoc × OsdSetState))
    → find same_set k m ≡ some old
    → new.object_count ≡ old.object_count + 1
    → dict_objects (put same_set k new m) ≡ dict_objects m + 1
unfolding dict_objects find put
dict_objects-put_old k old new [] h n = cc
dict_objects-put_old k old new ((j, t) ∷ m) h n = elim (Bool-cases (same_set j k)) [
  | inl e ↦
      let same : some t ≡ some old =
        ap (λ b. if b then some t else find same_set k m) (sym e) ∙ h in
      rw e (ground (arith, same))
  | inr e ↦
      let rest : find same_set k m ≡ some old =
        ap (λ b. if b then some t else find same_set k m) (sym e) ∙ h in
      rw e (omega (arith, dict_objects-put_old k old new m rest n))
]

-- Recording an object adds one to `state_dict`, and changes no other count and no state.
count_osd_set-dict :
    (pg : Pg) (state : ℕ) (osd_set : List ObjLoc)
    → dict_objects (count_osd_set pg state osd_set).state_dict ≡ dict_objects pg.state_dict + 1
unfolding count_osd_set
count_osd_set-dict pg state osd_set = elim (Option-cases (find same_set osd_set pg.state_dict)) [
  | inl e ↦ rw (e, count_osd_set) (dict_objects-put_new osd_set _ pg.state_dict e)
  | inr (s, e) ↦ rw (e, count_osd_set) (dict_objects-put_old osd_set s _ pg.state_dict e refl)
]

add_object-counts :
    (oid : ObjectId) (state : ℕ) (osd_set : List ObjLoc) (pg : Pg)
    → ((add_object_to_state oid state osd_set pg).state_dict
        ≡ (count_osd_set pg state osd_set).state_dict)
      × ((add_object_to_state oid state osd_set pg).clean_count ≡ pg.clean_count)
      × ((add_object_to_state oid state osd_set pg).total_count ≡ pg.total_count)
      × ((add_object_to_state oid state osd_set pg).state ≡ pg.state)
unfolding add_object_to_state count_osd_set
add_object-counts oid state osd_set pg = ground arith

override-counts :
    (c : Check)
    → ((override_version c).pg.state_dict ≡ c.pg.state_dict)
      × ((override_version c).pg.clean_count ≡ c.pg.clean_count)
      × ((override_version c).pg.total_count ≡ c.pg.total_count)
      × ((override_version c).pg.state ≡ c.pg.state)
unfolding override_version
override-counts c = ground arith

-- PG_HAS_INVALID is set, or each of the objects is counted once.
unfoldable pub IsBalanced : ℕ → Pg → Type 0
IsBalanced start pg =
    (nth_bit 12 pg.state ≡ 1)
    ⊎ (pg.total_count + start ≡ pg.clean_count + dict_objects pg.state_dict)

or_keeps : (s f : ℕ) → nth_bit 12 s ≡ 1 → nth_bit 12 (bit_or s f) ≡ 1
or_keeps s f h = omega (arith, nth_bit-bit_or 12 s f, nth_bit-lt 12 f)

if_or_keeps : (b : Bool) (s f : ℕ) → nth_bit 12 s ≡ 1 → nth_bit 12 (if b then bit_or s f else s) ≡ 1
if_or_keeps true s f h = or_keeps s f h
if_or_keeps false s f h = h

add_outdated_keeps :
    (cur_set : List ℕ) (items : List ObjVerRole) (r : List ObjLoc × ℕ × ℕ)
    → nth_bit 12 r.2 ≡ 1
    → nth_bit 12 (add_outdated cur_set items r).2 ≡ 1
unfolding add_outdated add_older
add_outdated_keeps cur_set [] r h = h
add_outdated_keeps cur_set (item ∷ items) r h =
    add_outdated_keeps cur_set items (add_older cur_set item r)
      (if_or_keeps (is_extra cur_set item r.0 && is_whole r.1) r.2 pg_has_misplaced h)

object_set_keeps :
    (list : List ObjVerRole) (list_pos : ℕ) (c : Check)
    → nth_bit 12 c.pg.state ≡ 1
    → nth_bit 12 (object_set list list_pos c).2 ≡ 1
unfolding object_set
object_set_keeps list list_pos c h =
    let flagged = or_keeps c.pg.state (object_state c).1 h in
    elim (Bool-cases (ltb c.ver_end list_pos)) [
      | inl e ↦ rw e (add_outdated_keeps _ _ _ flagged)
      | inr e ↦ rw e flagged
    ]

module _ (start : ℕ) where
  invalid-IsBalanced :
      (pg : Pg)
      → IsBalanced start
          (record pg { state = bit_or pg.state pg_has_invalid; total_count = pg.total_count + 1 })
  unfolding IsBalanced
  invalid-IsBalanced pg = inl (
      omega
        (arith, nth_bit-bit_or 12 pg.state (2 ^ 12), nth_bit-pow_self 12, nth_bit-lt 12 pg.state))

  flush_object-IsBalanced :
      (list : List ObjVerRole) (list_pos : ℕ) (c : Check)
      → IsBalanced start c.pg
      → IsBalanced start (flush_object list list_pos c).pg
  unfolding flush_object IsBalanced
  flush_object-IsBalanced list list_pos c b = elim (Bool-cases (ltb 0 c.n_unstable)) [
    | inr e ↦ rw e b
    | inl e ↦ rw e (elim b [ inl h ↦ inl (or_keeps c.pg.state _ h) | inr h ↦ inr h ])
  ]

  record_object-IsBalanced :
      (list : List ObjVerRole) (list_pos : ℕ) (c : Check)
      → IsBalanced start c.pg
      → IsBalanced start (record_object list list_pos c).pg
  unfolding record_object IsBalanced
  record_object-IsBalanced list list_pos c b =
      let r = object_set list list_pos c in
      let d : Check = record c {
        osd_set = r.0;
        pg = record c.pg { state = r.2; total_count = c.pg.total_count + 1 };
      } in
      let o = override_version d in
      let (dict, clean, total, state) = override-counts d in
      elim (Bool-cases (r.1 == 0)) [
        | inl e ↦ rw e (elim b [
          | inl h ↦ inl (ap (nth_bit 12) state ∙ object_set_keeps list list_pos c h)
          | inr h ↦ inr (omega (arith, ap dict_objects dict, clean, total, h))
        ])
        | inr e ↦
            let (dict', clean', total', state') = add_object-counts o.oid r.1 r.0 o.pg in
            rw e (elim b [
              | inl h ↦ inl (ap (nth_bit 12) (state' ∙ state) ∙ object_set_keeps list list_pos c h)
              | inr h ↦ inr (
                  omega (
                    arith,
                    ap dict_objects dict',
                    count_osd_set-dict o.pg r.1 r.0,
                    ap dict_objects dict,
                    clean',
                    total',
                    clean,
                    total,
                    h,
                  ))
            ])
      ]

  finish_object-IsBalanced :
      (list : List ObjVerRole) (list_pos : ℕ) (c : Check)
      → IsBalanced start c.pg
      → IsBalanced start (finish_object list list_pos c).pg
  unfolding finish_object
  finish_object-IsBalanced list list_pos c b =
      let d = close_object list_pos c in
      let closed : IsBalanced start d.pg =
        subst (IsBalanced start) (sym (close_object-pg list_pos c)) b in
      let f = flush_object list list_pos d in
      let flushed = flush_object-IsBalanced list list_pos d closed in
      elim (Bool-cases (ltb 0 d.n_invalid)) [
        | inl e ↦ rw e (invalid-IsBalanced d.pg)
        | inr e ↦ rw e (elim (Bool-cases (f.target_ver == 0)) [
          | inl z ↦ rw z flushed
          | inr z ↦ rw z (record_object-IsBalanced list list_pos f flushed)
        ])
      ]

  finish_current-IsBalanced :
      (list : List ObjVerRole) (list_pos : ℕ) (c : Check)
      → IsBalanced start c.pg
      → IsBalanced start (finish_current list list_pos c).pg
  unfolding finish_current
  finish_current-IsBalanced list list_pos c k = elim (Bool-cases (c.oid.inode == 0)) [
    | inl e ↦ rw e k
    | inr e ↦ rw e (finish_object-IsBalanced list list_pos c k)
  ]

  walk_entry-IsBalanced :
      (list : List ObjVerRole) (item : ObjVerRole) (list_pos : ℕ) (c : Check)
      → IsBalanced start c.pg
      → IsBalanced start (walk_entry list item list_pos c).pg
  unfolding walk_entry
  walk_entry-IsBalanced list item list_pos c k =
      rw handle_version-pg (elim (Bool-cases (same_object c item)) [
        | inl e ↦ rw e k
        | inr e ↦ rw e (unfold start_object in finish_current-IsBalanced list list_pos c k)
      ])

  walk_entries-IsBalanced :
      (list items : List ObjVerRole) (list_pos : ℕ) (c : Check)
      → IsBalanced start c.pg
      → IsBalanced start (walk_entries list items list_pos c).pg
  unfolding walk_entries
  walk_entries-IsBalanced list [] list_pos c k = finish_current-IsBalanced list list_pos c k
  walk_entries-IsBalanced list (item ∷ items) list_pos c k =
      walk_entries-IsBalanced list items (list_pos + 1) (walk_entry list item list_pos c)
        (walk_entry-IsBalanced list item list_pos c k)

activate-counts :
    (pg : Pg)
    → ((activate pg).total_count ≡ pg.total_count)
      × ((activate pg).clean_count ≡ pg.clean_count)
      × ((activate pg).state_dict ≡ pg.state_dict)
unfolding activate
activate-counts pg = ground arith

activate_invalid :
    (pg : Pg) → nth_bit 12 pg.state ≡ 1 → (activate pg).state ≡ bit_or pg_incomplete pg_has_invalid
unfolding activate
activate_invalid pg h =
    let test : (bit_and pg.state pg_has_invalid == 0) ≡ false =
      ground (arith, bit_and-pow 12 pg.state, h) in
    rw test

-- Unless `walk` stops the group for invalid copies, every object that it counts in `total_count` is
-- counted once more, either in `clean_count` or in the entry of one OSD set in `state_dict`, whose
-- counts from before stay.
pub walk_counts :
    (list : List ObjVerRole) (pg : Pg)
    → ((walk list pg).state ≡ bit_or pg_incomplete pg_has_invalid)
      ⊎ ((walk list pg).total_count + dict_objects pg.state_dict
          ≡ (walk list pg).clean_count + dict_objects (walk list pg).state_dict)
unfolding walk IsBalanced
walk_counts list pg =
    let start = dict_objects pg.state_dict in
    let read = (walk_entries list list 0 (new_check pg)).pg in
    let (total, clean, dict) = activate-counts read in
    elim (walk_entries-IsBalanced start list list 0 (new_check pg) (inr refl)) [
      | inl h ↦ inl (activate_invalid read h)
      | inr h ↦ inr (omega (arith, total, clean, ap dict_objects dict, h))
    ]
