-- ===== src/Tests/Objects.antt =====
-- src/osd/osd_peering_pg.cpp: a group of two replicas, one of which lacks an object.
use vitastor.Base.{ℕ, ◌+◌, ◌≡◌, true, ◌⊎◌, List, [], ◌∷◌, bit_or}
use vitastor.Peering.Types.{ObjVerRole, Pg, pg_incomplete, pg_has_invalid}
use vitastor.Peering.Walk.{walk}
use vitastor.Peering.Activation.{IsActive, walk_state}
use vitastor.Peering.Counts.{dict_objects, walk_counts}

abbrev group : Pg
group = record {
  state = 0;
  replicated = true;
  pg_cursize = 2;
  pg_size = 2;
  pg_data_size = 1;
  clean_count = 0;
  total_count = 0;
  epoch = 0;
  all_peers = 1 ∷ 2 ∷ [];
  cur_peers = 1 ∷ 2 ∷ [];
  cur_set = 1 ∷ 2 ∷ [];
  state_dict = [];
  inconsistent_objects = [];
  incomplete_objects = [];
  degraded_objects = [];
  misplaced_objects = [];
  flush_actions = [];
  ver_override = [];
}

abbrev copy : ℕ → ℕ → ℕ → ObjVerRole
copy inode version osd_num = record {
  oid = record { inode = inode; stripe = 0 };
  version = version;
  osd_num = osd_num;
  is_stable = true;
}

abbrev copies : List ObjVerRole
copies = copy 1 5 1 ∷ copy 1 5 2 ∷ copy 2 7 1 ∷ copy 2 6 2 ∷ []

walk_state_example :
    ((walk copies group).state ≡ bit_or pg_incomplete pg_has_invalid)
    ⊎ IsActive group (walk copies group).state
walk_state_example = walk_state copies group

walk_counts_example :
    ((walk copies group).state ≡ bit_or pg_incomplete pg_has_invalid)
    ⊎ ((walk copies group).total_count + dict_objects group.state_dict
        ≡ (walk copies group).clean_count + dict_objects (walk copies group).state_dict)
walk_counts_example = walk_counts copies group
