-- ===== src/Peering/Walk.antt =====
-- src/osd/osd_peering_pg.cpp: `finish_object`, `add_object_to_state`, `walk` and
-- `calc_object_states`, over the steps of `Check`.
use vitastor.Base.{
  ℕ, ◌+◌, ◌-◌, ◌/◌, ◌^◌, bit_and, bit_or, Bool, not, ◌&&◌, ◌||◌, List, [], ◌∷◌, ◌++◌, Option, none,
  some, ltb, ◌==◌, ◌!=◌, if◌then◌else◌, set, replicate, length,
}
use vitastor.Peering.Types.{
  ObjectId, ObjVerRole, ObjLoc, Pg, base_of, role_lt, same_oid, same_set, find, put, pg_incomplete,
  pg_active, pg_degraded, pg_has_incomplete, pg_has_degraded, pg_has_misplaced, pg_has_unclean,
  pg_has_invalid, pg_left_on_dead, obj_degraded, obj_incomplete, obj_misplaced, obj_inconsistent,
  loc_outdated, loc_corrupted,
}
use vitastor.Peering.Check.{
  Check, slice, start_object, recoverable, handle_version, collect_pieces, flush_pieces, locations,
  add_outdated,
}

-- `!(o.loc_bad & (LOC_OUTDATED | LOC_CORRUPTED))`
unfoldable pub is_readable : ObjLoc → Bool
is_readable o = bit_and o.loc_bad (bit_or loc_outdated loc_corrupted) == 0

unfoldable pub readable_osds : List ObjLoc → List ℕ
readable_osds [] = []
readable_osds (o ∷ os) = if is_readable o then o.osd_num ∷ readable_osds os else readable_osds os

unfoldable pub place_osds : List ObjLoc → List ℕ → List ℕ
place_osds [] target = target
place_osds (o ∷ os) target =
    place_osds os (if is_readable o then set target o.role o.osd_num else target)

-- The OSDs to read an object from: in any order, padded with zeroes, for replicas; by role otherwise.
unfoldable pub read_targets : Pg → List ObjLoc → List ℕ
read_targets pg osd_set =
    if pg.replicated
    then (let osds = readable_osds osd_set in osds ++ replicate (pg.pg_size - length osds) 0)
    else place_osds osd_set (replicate pg.pg_size 0)

-- `state_dict`, with one more object on `osd_set`
unfoldable pub count_osd_set : Pg → ℕ → List ObjLoc → Pg
count_osd_set pg state osd_set = record pg {
  state_dict = elim (find same_set osd_set pg.state_dict) [
    | some s ↦ put same_set osd_set (record s { object_count = s.object_count + 1 }) pg.state_dict
    | none ↦
        put same_set osd_set
          (record {
            read_target = read_targets pg osd_set;
            osd_set = osd_set;
            state = state;
            object_count = 1;
            ref_count = 0;
          })
          pg.state_dict
  ];
}

-- `pg_t::add_object_to_state`
unfoldable pub add_object_to_state : ObjectId → ℕ → List ObjLoc → Pg → Pg
add_object_to_state oid state osd_set old =
    let pg = count_osd_set old state osd_set in
    if bit_and state obj_inconsistent != 0
    then record pg { inconsistent_objects = put same_oid oid osd_set pg.inconsistent_objects }
    else if bit_and state obj_incomplete != 0
    then record pg { incomplete_objects = put same_oid oid osd_set pg.incomplete_objects }
    else if bit_and state obj_degraded != 0
    then record pg { degraded_objects = put same_oid oid osd_set pg.degraded_objects }
    else record pg { misplaced_objects = put same_oid oid osd_set pg.misplaced_objects }

-- The last version of the object is closed like the others.
unfoldable pub close_object : ℕ → Check → Check
close_object list_pos c =
    if recoverable c then record c { target_ver = c.last_ver; ver_end = list_pos } else c

-- The flush actions of an object that has unstable entries.
unfoldable pub flush_object : List ObjVerRole → ℕ → Check → Check
flush_object list list_pos c =
    if ltb 0 c.n_unstable
    then record c {
      pg = record c.pg {
        state = bit_or c.pg.state pg_has_unclean;
        flush_actions =
            flush_pieces c.target_ver
              (collect_pieces c.target_ver (slice c.obj_start list_pos list) []) c.pg.flush_actions;
      };
    }
    else c

-- The state of an object with a target version, by its copies of that version, and its bit in the
-- state of the group.
unfoldable pub object_state : Check → ℕ × ℕ
object_state c =
    if not c.pg.replicated && ltb c.n_roles c.pg.pg_data_size
    then (obj_incomplete, pg_has_incomplete)
    else if ltb (if c.pg.replicated then c.n_copies else c.n_roles) c.pg.pg_cursize
    then (obj_degraded, pg_has_degraded)
    else if ltb 0 c.n_mismatched
    then (obj_misplaced, pg_has_misplaced)
    else (0, 0)

-- The OSD set of the object and the two states, with the outdated versions.
unfoldable pub object_set : List ObjVerRole → ℕ → Check → List ObjLoc × ℕ × ℕ
object_set list list_pos c =
    let (state, flag) = object_state c in
    let pg_state = bit_or c.pg.state flag in
    let older = ltb c.ver_end list_pos in
    let osd_set =
      if state != 0 || older then locations (slice c.ver_start c.ver_end list) else c.osd_set in
    if older
    then add_outdated c.pg.cur_set (slice c.ver_end list_pos list) (osd_set, state, pg_state)
    else (osd_set, state, pg_state)

unfoldable pub override_version : Check → Check
override_version c =
    if ltb c.target_ver c.max_ver
    then record c {
      pg = record c.pg { ver_override = put same_oid c.oid c.target_ver c.pg.ver_override };
    }
    else c

-- The record of an object that has a target version.
unfoldable pub record_object : List ObjVerRole → ℕ → Check → Check
record_object list list_pos c =
    let (osd_set, state, pg_state) = object_set list list_pos c in
    let d = override_version (record c {
      osd_set = osd_set;
      pg = record c.pg { state = pg_state; total_count = c.pg.total_count + 1 };
    }) in
    if state == 0
    then record d { pg = record d.pg { clean_count = d.pg.clean_count + 1 } }
    else record d { pg = add_object_to_state d.oid state osd_set d.pg }

-- `finish_object`
unfoldable pub finish_object : List ObjVerRole → ℕ → Check → Check
finish_object list list_pos old =
    let c = close_object list_pos old in
    if ltb 0 c.n_invalid
    then record c {
      pg = record c.pg {
        state = bit_or c.pg.state pg_has_invalid;
        total_count = c.pg.total_count + 1;
      };
    }
    else let d = flush_object list list_pos c in
      if d.target_ver == 0 then d else record_object list list_pos d

-- The entry belongs to the object that is being read.
unfoldable pub same_object : Check → ObjVerRole → Bool
same_object c item = c.oid.inode == item.oid.inode && c.oid.stripe == base_of item.oid.stripe

unfoldable pub finish_current : List ObjVerRole → ℕ → Check → Check
finish_current list list_pos c = if c.oid.inode != 0 then finish_object list list_pos c else c

-- The body of the loop of `walk`.
unfoldable pub walk_entry : List ObjVerRole → ObjVerRole → ℕ → Check → Check
walk_entry list item list_pos c =
    handle_version item list_pos (
      if same_object c item then c else start_object item list_pos (finish_current list list_pos c))

unfoldable pub walk_entries : List ObjVerRole → List ObjVerRole → ℕ → Check → Check
walk_entries list [] list_pos c = finish_current list list_pos c
walk_entries list (item ∷ items) list_pos c =
    walk_entries list items (list_pos + 1) (walk_entry list item list_pos c)

-- The end of `walk`: the state of the group.
unfoldable pub activate : Pg → Pg
activate pg =
    if bit_and pg.state pg_has_invalid != 0
    then record pg { state = bit_or pg_incomplete pg_has_invalid }
    else let degraded =
        if ltb pg.pg_cursize pg.pg_size then bit_or pg.state pg_degraded else pg.state in
      let active = bit_or degraded pg_active in
      record pg {
        state =
            if ltb (length pg.cur_peers) (length pg.all_peers)
            then bit_or active pg_left_on_dead
            else active;
      }

abbrev pub new_check : Pg → Check
new_check pg = record {
  pg = record pg { clean_count = 0; total_count = 0; state = 0 };
  obj_start = 0;
  ver_start = 0;
  ver_end = 0;
  oid = record { inode = 0; stripe = 0 };
  max_ver = 0;
  last_ver = 0;
  target_ver = 0;
  n_copies = 0;
  has_roles = 0;
  n_roles = 0;
  n_stable = 0;
  n_mismatched = 0;
  n_unstable = 0;
  n_invalid = 0;
  osd_set = [];
}

-- `walk`
unfoldable pub walk : List ObjVerRole → Pg → Pg
walk list pg = activate (walk_entries list list 0 (new_check pg)).pg

-- `std::sort` with `operator <`
unfoldable pub insert_entry : ObjVerRole → List ObjVerRole → List ObjVerRole
insert_entry x [] = x ∷ []
insert_entry x (y ∷ ys) = if role_lt y x then y ∷ insert_entry x ys else x ∷ y ∷ ys

unfoldable pub sort_entries : List ObjVerRole → List ObjVerRole
sort_entries [] = []
sort_entries (x ∷ xs) = insert_entry x (sort_entries xs)

-- `obj_ver_id`, an entry of a peer's list
pub record ObjVerId : Type 0 where
  pub oid : ObjectId
  pub version : ℕ

-- `pg_list_result_t`: the list of a peer, with how many stable entries come first
pub record ListResult : Type 0 where
  pub osd_num : ℕ
  pub entries : List ObjVerId
  pub stable_count : ℕ

-- `version >> (64 - PG_EPOCH_BITS)`
abbrev pub epoch_of : ℕ → ℕ
epoch_of version = version / 2 ^ 16

unfoldable pub copy_list : ℕ → ℕ → ℕ → List ObjVerId → List ObjVerRole
copy_list osd_num stable_count i [] = []
copy_list osd_num stable_count i (ov ∷ ovs) =
    record { oid = ov.oid; version = ov.version; osd_num = osd_num; is_stable = ltb i stable_count }
    ∷ copy_list osd_num stable_count (i + 1) ovs

unfoldable pub copy_lists : List ListResult → List ObjVerRole
copy_lists [] = []
copy_lists (r ∷ rs) = copy_list r.osd_num r.stable_count 0 r.entries ++ copy_lists rs

unfoldable pub max_epoch : ℕ → List ObjVerRole → ℕ
max_epoch epoch [] = epoch
max_epoch epoch (x ∷ xs) =
    max_epoch (if ltb epoch (epoch_of x.version) then epoch_of x.version else epoch) xs

-- `calc_object_states`; `none` is the failed assertion on the last epoch.
unfoldable pub calc_object_states : List ListResult → Pg → Option Pg
calc_object_states results pg =
    let all = copy_lists results in
    let epoch = max_epoch 0 all in
    let walked = walk (sort_entries all) (record pg { epoch = epoch }) in
    if walked.state == pg_active
    then some walked
    else if epoch == 2 ^ 48 - 1
    then none
    else some (record walked { epoch = epoch + 1 })
