-- ===== src/Peering/Check.antt =====
-- src/osd/osd_peering_pg.cpp: `pg_obj_state_check_t`, the walk over the sorted list of all copies of
-- all objects of a placement group, and `pg_t::calc_object_states`. Log output is left out.
use vitastor.Base.{
  ℕ, ◌+◌, ◌-◌, ◌^◌, bit_and, bit_or, Bool, true, false, not, ◌&&◌, ◌||◌, List, [], ◌∷◌, ◌++◌, none,
  some, ltb, leb, ◌==◌, ◌!=◌, if◌then◌else◌, get_or, take, drop,
}
use vitastor.Peering.Types.{
  ObjectId, ObjVerRole, PieceVer, PieceId, ObjLoc, FlushAction, Pg, role_of, base_of, same_piece,
  find, put, pg_has_misplaced, obj_degraded, obj_incomplete, obj_misplaced, loc_outdated,
}

-- `pg_obj_state_check_t`. The list that is walked is an argument of the functions that read it.
pub record Check : Type 0 where
  pub pg : Pg
  pub obj_start : ℕ
  pub ver_start : ℕ
  pub ver_end : ℕ
  pub oid : ObjectId
  pub max_ver : ℕ
  pub last_ver : ℕ
  pub target_ver : ℕ
  pub n_copies : ℕ
  pub has_roles : ℕ
  pub n_roles : ℕ
  pub n_stable : ℕ
  pub n_mismatched : ℕ
  pub n_unstable : ℕ
  pub n_invalid : ℕ
  pub osd_set : List ObjLoc

-- `list[i]` for `first <= i < last`
abbrev pub slice {ℓ} : {A : Type ℓ} → ℕ → ℕ → List A → List A
slice first last xs = take (last - first) (drop first xs)

-- `start_object`
unfoldable pub start_object : ObjVerRole → ℕ → Check → Check
start_object item list_pos c = record c {
  obj_start = list_pos;
  oid = record { inode = item.oid.inode; stripe = base_of item.oid.stripe };
  last_ver = item.version;
  max_ver = item.version;
  target_ver = 0;
  ver_start = list_pos;
  has_roles = 0;
  n_copies = 0;
  n_roles = 0;
  n_stable = 0;
  n_mismatched = 0;
  n_unstable = 0;
  n_invalid = 0;
}

-- `!target_ver && (n_stable > 0 || n_roles >= pg->pg_data_size)`
unfoldable pub recoverable : Check → Bool
recoverable c = c.target_ver == 0 && (ltb 0 c.n_stable || leb c.pg.pg_data_size c.n_roles)

-- The decision on the version before, when an entry of another version comes.
unfoldable pub close_version : ObjVerRole → ℕ → Check → Check
close_version item list_pos c =
    if recoverable c && c.last_ver != item.version
    then record c { target_ver = c.last_ver; ver_end = list_pos }
    else c

unfoldable pub open_version : ObjVerRole → ℕ → Check → Check
open_version item list_pos c =
    if c.last_ver != item.version
    then record c {
      ver_start = list_pos;
      has_roles = 0;
      n_copies = 0;
      n_roles = 0;
      n_stable = 0;
      n_mismatched = 0;
      last_ver = item.version;
    }
    else c

-- `for (i = 0; i < cur_set.size(); i++) if (cur_set[i] == osd_num) break;`, then `i < size`
unfoldable pub contains : List ℕ → ℕ → Bool
contains [] a = false
contains (x ∷ xs) a = x == a || contains xs a

-- The copy is of a role that the pool does not have.
unfoldable pub is_invalid : Pg → ℕ → Bool
is_invalid pg replica = pg.replicated && ltb 0 replica || leb pg.pg_size replica

unfoldable pub count_role : ℕ → Check → Check
count_role replica c =
    if bit_and c.has_roles (2 ^ replica) == 0
    then record c { has_roles = bit_or c.has_roles (2 ^ replica); n_roles = c.n_roles + 1 }
    else c

-- The counters of the version that is being read.
unfoldable pub count_copy : ObjVerRole → Check → Check
count_copy item c =
    let replica = role_of item.oid.stripe in
    let d = record c { n_copies = c.n_copies + 1 } in
    if is_invalid c.pg replica
    then record d { n_invalid = d.n_invalid + 1 }
    else let e = record d { n_stable = if item.is_stable then d.n_stable + 1 else d.n_stable } in
      if c.pg.replicated
      then record e {
        n_mismatched =
            if contains c.pg.cur_set item.osd_num then e.n_mismatched else e.n_mismatched + 1;
      }
      else count_role replica (record e {
        n_mismatched =
            if get_or c.pg.cur_set replica 0 != item.osd_num
            then e.n_mismatched + 1
            else e.n_mismatched;
      })

unfoldable pub count_unstable : ObjVerRole → Check → Check
count_unstable item c = record c {
  n_unstable = if item.is_stable then c.n_unstable else c.n_unstable + 1;
}

-- `handle_version`
unfoldable pub handle_version : ObjVerRole → ℕ → Check → Check
handle_version item list_pos c =
    let d = close_version item list_pos c in
    count_unstable item
      (if d.target_ver == 0 then count_copy item (open_version item list_pos d) else d)

-- The versions of one copy, as the entries of the object give them.
unfoldable pub add_piece : ℕ → ObjVerRole → List (PieceId × PieceVer) → List (PieceId × PieceVer)
add_piece target_ver item pieces =
    let key : PieceId = record { oid = item.oid; osd_num = item.osd_num } in
    let old : PieceVer = elim (find same_piece key pieces) [
      | some pcs ↦ pcs
      | none ↦ record { max_ver = 0; stable_ver = 0; max_target = 0 }
    ] in
    let v = item.version in
    put same_piece key
      (record {
        max_ver = if old.max_ver == 0 then v else old.max_ver;
        stable_ver = if item.is_stable && old.stable_ver == 0 then v else old.stable_ver;
        max_target = if leb v target_ver && old.max_target == 0 then v else old.max_target;
      })
      pieces

unfoldable pub collect_pieces :
    ℕ → List ObjVerRole → List (PieceId × PieceVer) → List (PieceId × PieceVer)
collect_pieces target_ver [] pieces = pieces
collect_pieces target_ver (item ∷ items) pieces =
    collect_pieces target_ver items (add_piece target_ver item pieces)

-- What has to be flushed on one copy.
unfoldable pub flush_piece : ℕ → PieceVer → FlushAction → FlushAction
flush_piece target_ver pcs act =
    let last = if ltb target_ver pcs.max_ver then pcs.max_target else pcs.max_ver in
    let a =
      if ltb target_ver pcs.max_ver
      then record act { rollback = true; rollback_to = pcs.max_target }
      else act in
    if ltb pcs.stable_ver last then record a { make_stable = true; stable_to = last } else a

unfoldable pub flush_pieces :
    ℕ → List (PieceId × PieceVer) → List (PieceId × FlushAction) → List (PieceId × FlushAction)
flush_pieces target_ver [] acts = acts
flush_pieces target_ver ((key, pcs) ∷ pieces) acts =
    let old : FlushAction = elim (find same_piece key acts) [
      | some act ↦ act
      | none ↦ record {
        rollback = false;
        make_stable = false;
        stable_to = 0;
        rollback_to = 0;
        submitted = false;
      }
    ] in
    flush_pieces target_ver pieces (
      if ltb pcs.stable_ver pcs.max_ver
      then put same_piece key (flush_piece target_ver pcs old) acts
      else acts)

-- The entries of the target version, as locations.
unfoldable pub locations : List ObjVerRole → List ObjLoc
locations [] = []
locations (item ∷ items) =
    record { role = role_of item.oid.stripe; osd_num = item.osd_num; loc_bad = 0 } ∷ locations items

unfoldable pub has_osd : List ObjLoc → ℕ → Bool
has_osd [] osd_num = false
has_osd (l ∷ ls) osd_num = l.osd_num == osd_num || has_osd ls osd_num

-- The copy of an outdated version is added if its OSD is not in the set and is not the one of its
-- role.
unfoldable pub is_extra : List ℕ → ObjVerRole → List ObjLoc → Bool
is_extra cur_set item osd_set =
    not (has_osd osd_set item.osd_num) && get_or cur_set (role_of item.oid.stripe) 0 != item.osd_num

-- `!(state & (OBJ_INCOMPLETE | OBJ_DEGRADED))`
unfoldable pub is_whole : ℕ → Bool
is_whole state = bit_and state (bit_or obj_incomplete obj_degraded) == 0

-- One round of the loop over outdated versions: the OSD set, the object's state and the group's.
unfoldable pub add_older : List ℕ → ObjVerRole → List ObjLoc × ℕ × ℕ → List ObjLoc × ℕ × ℕ
add_older cur_set item (osd_set, state, pg_state) =
    let extra = is_extra cur_set item osd_set in
    let loc : ObjLoc = record {
      role = role_of item.oid.stripe;
      osd_num = item.osd_num;
      loc_bad = loc_outdated;
    } in
    (
      (if extra then osd_set ++ loc ∷ [] else osd_set),
      (if extra && is_whole state then bit_or state obj_misplaced else state),
      (if extra && is_whole state then bit_or pg_state pg_has_misplaced else pg_state),
    )

unfoldable pub add_outdated : List ℕ → List ObjVerRole → List ObjLoc × ℕ × ℕ → List ObjLoc × ℕ × ℕ
add_outdated cur_set [] r = r
add_outdated cur_set (item ∷ items) r = add_outdated cur_set items (add_older cur_set item r)
