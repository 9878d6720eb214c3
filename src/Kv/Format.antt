-- ===== src/Kv/Format.antt =====
-- src/kv/kv_db.cpp: `parse`, `serialize`, `apply_change` and `cancel_change` of a block.
use vitastor.Base.{
  ℕ, zero, suc, ◌+◌, bit_and, Bool, not, ◌&&◌, ◌||◌, List, [], ◌∷◌, Option, none, some, ltb, ◌==◌,
  ◌!=◌, length, if◌then◌else◌, ◌>>=◌,
}
use vitastor.Base.Words.{add32, sub32}
use vitastor.Memory.{Memory}
use vitastor.Journal.Entries.{store}
use vitastor.Kv.{
  Str, str_eq, kv_block_magic, kv_block_max_items, kv_int, kv_int_split, kv_leaf, kv_leaf_split,
  kv_empty, header_size, KvBlock, is_split_type, kv_size, set_data_size, lower_bound_item,
  insert_item, find_item, erase_item, erase_from, load, read_string, write_string,
}

-- The results of `parse`: a block, -ENOTBLK, -EILSEQ, or a failed assertion.
pub data Parsed : Type 0 where
  parsed : KvBlock → Parsed
  not_block : Parsed
  corrupt : Parsed
  fault : Parsed

-- The right half of a block that is split, or what the block has.
unfoldable pub parse_right : Memory → ℕ → ℕ → Str × ℕ → ℕ → Option ((Str × ℕ) × ℕ)
parse_right m size type right pos =
    if is_split_type type
    then (read_string m size pos >>= λ s.
        if ltb size (s.1 + 8) then none else some ((s.0, load 8 s.1 m), s.1 + 8))
    else some (right, pos)

-- The loop of `parse`
unfoldable pub parse_items : Memory → ℕ → ℕ → List (Str × Str) → ℕ → Option (List (Str × Str) × ℕ)
parse_items m size zero items pos = some (items, pos)
parse_items m size (suc n) items pos = read_string m size pos >>= λ key.
    read_string m size key.1 >>= λ value.
    parse_items m size n (insert_item key.0 value.0 items) value.1

-- `parse`, once the header is checked
unfoldable pub parse_body : KvBlock → ℕ → Memory → ℕ → ℕ → ℕ → Option KvBlock
parse_body this offset m size type count = read_string m size header_size >>= λ ge.
    read_string m size ge.1 >>= λ lt.
    parse_right m size type (this.right_half, this.right_half_block) lt.1 >>= λ right.
    parse_items m size count this.items right.1 >>= λ all. some (record this {
      type = type;
      offset = offset;
      key_ge = ge.0;
      key_lt = lt.0;
      right_half = right.0.0;
      right_half_block = right.0.1;
      items = all.0;
      data_size = all.1;
    })

abbrev pub parsed_or_corrupt : Option KvBlock → Parsed
parsed_or_corrupt none = corrupt
parsed_or_corrupt (some b) = parsed b

-- `parse`
unfoldable pub parse : KvBlock → ℕ → Memory → ℕ → Parsed
parse this offset m size =
    let magic = load 8 0 m in
    let block_size = load 4 8 m in
    let type = load 4 12 m in
    let items = load 8 16 m in
    if magic == 0 || type == kv_empty
    then not_block
    else if magic != kv_block_magic
        || block_size != size
        || type == 0
        || ltb kv_empty type
        || ltb kv_block_max_items items
    then corrupt
    else if this.type != 0
    then fault
    else parsed_or_corrupt (parse_body this offset m size type items)

-- `change_type & KV_CH_ADD`, `KV_CH_DEL`, `KV_CH_UPD`, `KV_CH_SPLIT`, `KV_CH_CLEAR_RIGHT`
unfoldable pub is_add : ℕ → Bool
is_add change_type = bit_and change_type 1 != 0

unfoldable pub is_del : ℕ → Bool
is_del change_type = bit_and change_type 2 != 0

unfoldable pub is_upd : ℕ → Bool
is_upd change_type = bit_and change_type 3 != 0

unfoldable pub is_split : ℕ → Bool
is_split change_type = bit_and change_type 4 != 0

unfoldable pub is_clear_right : ℕ → Bool
is_clear_right change_type = bit_and change_type 8 != 0

-- The type that `serialize` stores
unfoldable pub new_type : KvBlock → ℕ
new_type b =
    if is_clear_right b.change_type
    then if b.type == kv_leaf_split
      then kv_leaf
      else if b.type == kv_int_split
      then kv_int
      else b.type
    else if is_split b.change_type
    then if b.type == kv_leaf
      then kv_leaf_split
      else if b.type == kv_int
      then kv_int_split
      else b.type
    else b.type

-- The reference to the right half
unfoldable pub write_right : KvBlock → ℕ → Memory × ℕ → Option (Memory × ℕ)
write_right b size w =
    if is_split_type (new_type b)
    then (write_string size (if is_split b.change_type then b.change_rh else b.right_half) w
        >>= λ v.
            if ltb size (v.1 + 8)
            then none
            else some (
              store 8 v.1 (if is_split b.change_type then b.change_rh_block else b.right_half_block)
                  v.0,
              v.1 + 8,
            ))
    else some w

-- The buffer and the next position, with the number of items.
abbrev pub Writing : Type 0
Writing = (Memory × ℕ) × ℕ

-- One item
unfoldable pub write_item : ℕ → Str → Str → Writing → Option Writing
write_item size key value (w, n) =
    write_string size key w >>= λ v. write_string size value v >>= λ u. some (u, n + 1)

-- The body of the loop of `serialize`; the first flag is `kv_it == old_it`.
unfoldable pub write_entry : KvBlock → ℕ → Bool → Str → Str → Writing → Option Writing
write_entry b size at_old key value s =
    (if not (is_del b.change_type) || not at_old || not (str_eq key b.change_key)
      then write_item size key value s
      else some s)
    >>= λ t.
        if is_add b.change_type && at_old
        then write_item size b.change_key b.change_value t
        else some t

-- The loop, from the item `i` on
unfoldable pub write_from : KvBlock → ℕ → ℕ → ℕ → ℕ → List (Str × Str) → Writing → Option Writing
write_from b size old_it end_it i [] s = some s
write_from b size old_it end_it i ((key, value) ∷ kvs) s =
    if i == end_it
    then some s
    else (write_entry b size (i == old_it) key value s >>= λ t.
        write_from b size old_it end_it (i + 1) kvs t)

abbrev pub old_item : KvBlock → ℕ
old_item b = if is_upd b.change_type then lower_bound_item b.change_key b.items else length b.items

abbrev pub end_item : KvBlock → ℕ
end_item b = if is_split b.change_type then lower_bound_item b.change_rh b.items else length b.items

-- All items, with the one that the change adds behind the others.
unfoldable pub write_items : KvBlock → ℕ → Writing → Option Writing
write_items b size s = write_from b size (old_item b) (end_item b) 0 b.items s >>= λ t.
    if is_add b.change_type && end_item b == old_item b
    then write_item size b.change_key b.change_value t
    else some t

-- `serialize` behind the header
unfoldable pub write_body : KvBlock → ℕ → Memory × ℕ → Option Writing
write_body b size w = write_string size b.key_ge w >>= λ ge.
    write_string size (if is_clear_right b.change_type then b.right_half else b.key_lt) ge >>= λ lt.
    write_right b size lt >>= λ right. write_items b size (right, 0)

-- `serialize`. The number of items is stored once they are written.
unfoldable pub serialize : KvBlock → Memory → ℕ → Option Memory
serialize b m size =
    let head = store 4 12 (new_type b) (store 4 8 size (store 8 0 kv_block_magic m)) in
    write_body b size (head, header_size) >>= λ all. some (store 8 16 all.1 all.0.0)

-- `apply_change` of the deletion of an item
unfoldable pub apply_del : KvBlock → Option KvBlock
apply_del b =
    if is_del b.change_type && not (is_add b.change_type)
    then (find_item b.change_key b.items >>= λ value. some (record b {
      data_size = sub32 b.data_size (kv_size b.change_key value);
      items = erase_item b.change_key b.items;
    }))
    else some b

-- The size without the item that is there
abbrev pub size_without : KvBlock → Option Str → ℕ
size_without b none = b.data_size
size_without b (some value) = sub32 b.data_size (kv_size b.change_key value)

-- `apply_change` of a new or changed item
unfoldable pub apply_add : KvBlock → KvBlock
apply_add b =
    if is_add b.change_type
    then record b {
      data_size =
          add32 (size_without b (find_item b.change_key b.items))
            (kv_size b.change_key b.change_value);
      items = insert_item b.change_key b.change_value b.items;
    }
    else b

-- `apply_change` of the right half
unfoldable pub apply_right : KvBlock → KvBlock
apply_right b =
    if is_clear_right b.change_type && is_split_type b.type
    then set_data_size (record b {
      type = if b.type == kv_leaf_split then kv_leaf else kv_int;
      key_lt = b.right_half;
      right_half = [];
      right_half_block = 0;
    })
    else if is_split b.change_type && (b.type == kv_int || b.type == kv_leaf)
    then set_data_size (record b {
      type = if b.type == kv_leaf then kv_leaf_split else kv_int_split;
      right_half = b.change_rh;
      right_half_block = b.change_rh_block;
      items = erase_from b.change_rh b.items;
    })
    else b

-- `apply_change`
unfoldable pub apply_change : KvBlock → Option KvBlock
apply_change b = apply_del b >>= λ c. some (record (apply_right (apply_add c)) {
  change_type = 0;
  change_key = [];
  change_value = [];
  change_rh = [];
  change_rh_block = 0;
})

-- `cancel_change`
unfoldable pub cancel_change : KvBlock → Option KvBlock
cancel_change b = apply_change (record b { change_type = 0 })
