-- ===== src/Peering/Types.antt =====
-- src/osd/osd_peering_pg.h and src/client/pg_states.h: the data of a placement group. A pointer to
-- an entry of `state_dict` is the entry's key, the OSD set.
use vitastor.Base.{
  ℕ, ◌-◌, ◌%◌, ◌^◌, Bool, true, false, ◌&&◌, ◌||◌, List, [], ◌∷◌, Option, none, some, ltb, ◌==◌,
  if◌then◌else◌,
}

-- `object_id`
pub record ObjectId : Type 0 where
  pub inode : ℕ
  pub stripe : ℕ

-- `stripe & STRIPE_MASK`: the 12 low bits, the role of a copy.
abbrev pub role_of : ℕ → ℕ
role_of stripe = stripe % 4096

-- `stripe & ~STRIPE_MASK`
abbrev pub base_of : ℕ → ℕ
base_of stripe = stripe - stripe % 4096

-- `obj_ver_role`: one version of one copy of an object.
pub record ObjVerRole : Type 0 where
  pub oid : ObjectId
  pub version : ℕ
  pub osd_num : ℕ
  pub is_stable : Bool

-- `operator <` on them: by object, then from the last version to the first, then by role and OSD.
unfoldable pub role_lt : ObjVerRole → ObjVerRole → Bool
role_lt a b =
    ltb a.oid.inode b.oid.inode
    || a.oid.inode == b.oid.inode
      && (ltb (base_of a.oid.stripe) (base_of b.oid.stripe)
          || base_of a.oid.stripe == base_of b.oid.stripe
            && (ltb b.version a.version
                || a.version == b.version
                  && (ltb a.oid.stripe b.oid.stripe
                      || a.oid.stripe == b.oid.stripe && ltb a.osd_num b.osd_num)))

-- `obj_piece_ver_t`
pub record PieceVer : Type 0 where
  pub max_ver : ℕ
  pub stable_ver : ℕ
  pub max_target : ℕ

-- `pg_obj_loc_t`
pub record ObjLoc : Type 0 where
  pub role : ℕ
  pub osd_num : ℕ
  pub loc_bad : ℕ

-- `obj_piece_id_t`
pub record PieceId : Type 0 where
  pub oid : ObjectId
  pub osd_num : ℕ

-- `flush_action_t`
pub record FlushAction : Type 0 where
  pub rollback : Bool
  pub make_stable : Bool
  pub stable_to : ℕ
  pub rollback_to : ℕ
  pub submitted : Bool

-- `pg_osd_set_state_t`
pub record OsdSetState : Type 0 where
  pub read_target : List ℕ
  pub osd_set : List ObjLoc
  pub state : ℕ
  pub object_count : ℕ
  pub ref_count : ℕ

-- `pg_t`, the fields that the object lists decide.
pub record Pg : Type 0 where
  pub state : ℕ
  pub replicated : Bool
  pub pg_cursize : ℕ
  pub pg_size : ℕ
  pub pg_data_size : ℕ
  pub clean_count : ℕ
  pub total_count : ℕ
  pub epoch : ℕ
  pub all_peers : List ℕ
  pub cur_peers : List ℕ
  pub cur_set : List ℕ
  pub state_dict : List (List ObjLoc × OsdSetState)
  pub inconsistent_objects : List (ObjectId × List ObjLoc)
  pub incomplete_objects : List (ObjectId × List ObjLoc)
  pub degraded_objects : List (ObjectId × List ObjLoc)
  pub misplaced_objects : List (ObjectId × List ObjLoc)
  pub flush_actions : List (PieceId × FlushAction)
  pub ver_override : List (ObjectId × ℕ)

-- `PG_*`, `OBJ_*` and `LOC_*`.
abbrev pub pg_incomplete : ℕ
pg_incomplete = 2 ^ 2

abbrev pub pg_active : ℕ
pg_active = 2 ^ 3

abbrev pub pg_degraded : ℕ
pg_degraded = 2 ^ 7

abbrev pub pg_has_incomplete : ℕ
pg_has_incomplete = 2 ^ 8

abbrev pub pg_has_degraded : ℕ
pg_has_degraded = 2 ^ 9

abbrev pub pg_has_misplaced : ℕ
pg_has_misplaced = 2 ^ 10

abbrev pub pg_has_unclean : ℕ
pg_has_unclean = 2 ^ 11

abbrev pub pg_has_invalid : ℕ
pg_has_invalid = 2 ^ 12

abbrev pub pg_left_on_dead : ℕ
pg_left_on_dead = 2 ^ 15

abbrev pub obj_degraded : ℕ
obj_degraded = 0x02

abbrev pub obj_incomplete : ℕ
obj_incomplete = 0x04

abbrev pub obj_misplaced : ℕ
obj_misplaced = 0x08

abbrev pub obj_inconsistent : ℕ
obj_inconsistent = 0x20

abbrev pub loc_outdated : ℕ
loc_outdated = 1

abbrev pub loc_corrupted : ℕ
loc_corrupted = 2

abbrev pub same_oid : ObjectId → ObjectId → Bool
same_oid a b = a.inode == b.inode && a.stripe == b.stripe

abbrev pub same_piece : PieceId → PieceId → Bool
same_piece a b = same_oid a.oid b.oid && a.osd_num == b.osd_num

abbrev pub same_loc : ObjLoc → ObjLoc → Bool
same_loc a b = a.role == b.role && a.osd_num == b.osd_num && a.loc_bad == b.loc_bad

abbrev pub same_set : List ObjLoc → List ObjLoc → Bool
same_set [] [] = true
same_set (x ∷ xs) (y ∷ ys) = same_loc x y && same_set xs ys
same_set _ _ = false

-- A map as an association list: the value at a key, and the map with a value put there.
module _ {ℓ κ} {K : Type ℓ} {V : Type κ} (same : K → K → Bool) where
  unfoldable pub find : K → List (K × V) → Option V
  find k [] = none
  find k ((j, v) ∷ m) = if same j k then some v else find k m

  unfoldable pub put : K → V → List (K × V) → List (K × V)
  put k v [] = (k, v) ∷ []
  put k v ((j, w) ∷ m) = if same j k then (j, v) ∷ m else (j, w) ∷ put k v m
