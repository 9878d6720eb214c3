-- ===== src/Tests/Records.antt =====
-- src/kv/kv_db.cpp: a leaf with two items, to which a third one is added; and a split leaf that is split
-- again.
use vitastor.Base.{◌+◌, ◌≤◌, ◌<◌, ◌≡◌, ◌⊎◌, refl, [], ◌∷◌, Option, none, some, length, arith}
use vitastor.Memory.{Memory}
use vitastor.Kv.{KvBlock, header_size, str_lt, str_eq, lower_bound_item, write_string}
use vitastor.Kv.Format.{
  parsed, parse, is_add, is_del, is_upd, is_split, is_clear_right, new_type, serialize, write_body,
  write_right, write_items, write_from, write_entry, write_item, apply_change,
}
use vitastor.Kv.Left.{written_from}
use vitastor.Kv.Stored.{written_items}
use vitastor.Kv.Serialized.{stored_bytes}
use vitastor.Kv.Parsing.{new_block}
use vitastor.Kv.Applied.{IsChange}
use vitastor.Kv.RoundTrip.{parse-serialize, apply_change-split_again}

abbrev blank : Memory
blank x = 0

abbrev leaf : KvBlock
leaf = record {
  type = 3;
  offset = 4096;
  key_ge = [];
  key_lt = 122 ∷ [];
  right_half = [];
  right_half_block = 0;
  items = (97 ∷ [], 1 ∷ []) ∷ (99 ∷ [], 2 ∷ []) ∷ [];
  data_size = 53;
  change_type = 1;
  change_key = 98 ∷ [];
  change_value = 7 ∷ [];
  change_rh = [];
  change_rh_block = 0;
}

leaf-IsChange : IsChange leaf
unfolding is_add is_del is_upd is_split is_clear_right str_lt str_eq lower_bound_item written_from
leaf-IsChange = record {
  kinds = omega arith;
  low = omega arith;
  high = omega arith;
  clears = λ h. cc h;
  splits = λ h. cc h;
  whole = λ h. (refl, refl);
  left = λ h g. cc h;
  found = λ h. cc;
  sorted = ((refl, tt), (tt, tt));
  few = omega arith;
  wide = omega arith;
}

parse-serialize_example :
    ((serialize leaf blank 4096 ≡ none) × (4096 < header_size + length (stored_bytes leaf)))
    ⊎ ((m' : Memory) × (a : KvBlock) × (serialize leaf blank 4096 ≡ some m')
        × (apply_change leaf ≡ some a)
        × (parse new_block 4096 m' 4096
            ≡ parsed (record a { data_size = header_size + length (stored_bytes leaf) })))
parse-serialize_example = parse-serialize leaf blank 4096 leaf-IsChange (omega arith)

abbrev split_leaf : KvBlock
split_leaf = record leaf {
  type = 4;
  right_half = 99 ∷ [];
  right_half_block = 8192;
  items = (97 ∷ [], 1 ∷ []) ∷ [];
  change_type = 4;
  change_rh = 98 ∷ [];
  change_rh_block = 12288;
}

abbrev or_blank : Option Memory → Memory
or_blank none = blank
or_blank (some m) = m

split_leaf-fits :
    serialize split_leaf blank 4096 ≡ some (or_blank (serialize split_leaf blank 4096))
unfolding serialize write_body write_right write_items write_from write_entry write_item
    write_string new_type is_add is_del is_upd is_split is_clear_right str_lt str_eq
    lower_bound_item
split_leaf-fits = refl

split_leaf-few : length (written_items split_leaf) ≤ 1048576
unfolding is_add is_del is_upd is_split str_lt str_eq lower_bound_item written_from
split_leaf-few = omega arith

apply_change-split_again_example :
    (p : KvBlock) × (a : KvBlock) × (parse new_block 4096
        (or_blank (serialize split_leaf blank 4096))
        4096
      ≡ parsed p)
    × (apply_change split_leaf ≡ some a)
    × (p.right_half ≡ split_leaf.change_rh)
    × (a.right_half ≡ split_leaf.right_half)
    × (a.items ≡ split_leaf.items)
apply_change-split_again_example =
    apply_change-split_again split_leaf blank (or_blank (serialize split_leaf blank 4096)) 4096
      (omega arith) refl refl split_leaf-few (omega arith) split_leaf-fits
