-- ===== src/Kv.antt =====
-- src/kv/kv_db.cpp: the blocks of the key-value database, in memory and as they are stored. A string is
-- the list of its bytes, and a stored block starts at address 0 of its buffer.
pub mod Format
pub mod Keys
pub mod Items
pub mod Left
pub mod Written
pub mod Buffer
pub mod Stored
pub mod Serialized
pub mod Parsing
pub mod Applied
pub mod RoundTrip
use vitastor.Base.{
  ℕ, zero, suc, ◌+◌, ◌-◌, ◌*◌, ◌%◌, ◌^◌, bit_and, Bool, true, false, not, ◌&&◌, ◌||◌, List, [], ◌∷◌,
  ◌++◌, Option, none, some, ltb, leb, ◌==◌, ◌!=◌, length, if◌then◌else◌, ◌>>=◌,
}
use vitastor.Base.Words.{add32, u32_mod}
use vitastor.Memory.{Memory, write}
use vitastor.Journal.Entries.{store}

abbrev pub Str : Type 0
Str = List ℕ

-- The order of `std::string`
unfoldable pub str_lt : Str → Str → Bool
str_lt a [] = false
str_lt [] (y ∷ b) = true
str_lt (x ∷ a) (y ∷ b) = let rest = str_lt a b in if x == y then rest else ltb x y

unfoldable pub str_eq : Str → Str → Bool
str_eq a b = not (str_lt a b) && not (str_lt b a)

-- `KV_BLOCK_MAGIC`
abbrev pub kv_block_magic : ℕ
kv_block_magic = 0x761A5106097B18EE

-- `KV_BLOCK_MAX_ITEMS`
abbrev pub kv_block_max_items : ℕ
kv_block_max_items = 1048576

-- `KV_INT`, `KV_INT_SPLIT`, `KV_LEAF`, `KV_LEAF_SPLIT`, `KV_EMPTY`
abbrev pub kv_int : ℕ
kv_int = 1

abbrev pub kv_int_split : ℕ
kv_int_split = 2

abbrev pub kv_leaf : ℕ
kv_leaf = 3

abbrev pub kv_leaf_split : ℕ
kv_leaf_split = 4

abbrev pub kv_empty : ℕ
kv_empty = 5

-- `sizeof(kv_stored_block_t)`
abbrev pub header_size : ℕ
header_size = 24

-- `kv_block_t`, less what only the cache of blocks uses. A map is the list of its entries by key.
pub record KvBlock : Type 0 where
  pub type : ℕ
  pub offset : ℕ
  pub key_ge : Str
  pub key_lt : Str
  pub right_half : Str
  pub right_half_block : ℕ
  pub items : List (Str × Str)
  pub data_size : ℕ
  pub change_type : ℕ
  pub change_key : Str
  pub change_value : Str
  pub change_rh : Str
  pub change_rh_block : ℕ

abbrev pub is_split_type : ℕ → Bool
is_split_type type = type == kv_int_split || type == kv_leaf_split

-- `kv_size`
unfoldable pub kv_size : Str → Str → ℕ
kv_size key value = 4 * 2 + length key + length value

-- The loop of `set_data_size`
unfoldable pub items_size : List (Str × Str) → ℕ
items_size [] = 0
items_size ((key, value) ∷ kvs) = kv_size key value + items_size kvs

-- `set_data_size`
unfoldable pub set_data_size : KvBlock → KvBlock
set_data_size b = record b {
  data_size =
      (header_size
        + 4 * 2
        + length b.key_ge
        + length b.key_lt
        + (if is_split_type b.type then 4 + length b.right_half + 8 else 0)
        + items_size b.items)
      % u32_mod;
}

-- `data.lower_bound`, as the number of the entry
unfoldable pub lower_bound_item : Str → List (Str × Str) → ℕ
lower_bound_item key [] = 0
lower_bound_item key ((k, v) ∷ kvs) =
    let rest = lower_bound_item key kvs in if str_lt k key then suc rest else 0

-- `data[key] = value`
unfoldable pub insert_item : Str → Str → List (Str × Str) → List (Str × Str)
insert_item key value [] = (key, value) ∷ []
insert_item key value ((k, v) ∷ kvs) =
    let rest = insert_item key value kvs in
    if str_lt k key
    then (k, v) ∷ rest
    else if str_eq k key
    then (key, value) ∷ kvs
    else (key, value) ∷ (k, v) ∷ kvs

-- `data.find(key)`
unfoldable pub find_item : Str → List (Str × Str) → Option Str
find_item key [] = none
find_item key ((k, v) ∷ kvs) = let rest = find_item key kvs in if str_eq k key then some v else rest

-- `data.erase(data.find(key))`
unfoldable pub erase_item : Str → List (Str × Str) → List (Str × Str)
erase_item key [] = []
erase_item key ((k, v) ∷ kvs) =
    let rest = erase_item key kvs in if str_eq k key then kvs else (k, v) ∷ rest

-- `data.erase(data.lower_bound(key), data.end())`
unfoldable pub erase_from : Str → List (Str × Str) → List (Str × Str)
erase_from key [] = []
erase_from key ((k, v) ∷ kvs) =
    let rest = erase_from key kvs in if str_lt k key then (k, v) ∷ rest else []

-- A number of `n` bytes in memory, the lowest byte first.
unfoldable pub load : ℕ → ℕ → Memory → ℕ
load zero a m = 0
load (suc n) a m = m a + 256 * load n (a + 1) m

-- The bytes of a string in memory
unfoldable pub load_bytes : ℕ → ℕ → Memory → Str
load_bytes zero a m = []
load_bytes (suc n) a m = m a ∷ load_bytes n (a + 1) m

unfoldable pub store_bytes : ℕ → Str → Memory → Memory
store_bytes a [] m = m
store_bytes a (x ∷ s) m = store_bytes (a + 1) s (write a x m)

-- `read_string`: the string and the next position. `none` is the position -1.
unfoldable pub read_string : Memory → ℕ → ℕ → Option (Str × ℕ)
read_string m size pos =
    let len = load 4 pos m in
    if ltb size (pos + 4)
    then none
    else if ltb size (add32 (pos + 4) len)
    then none
    else some (load_bytes len (pos + 4) m, add32 (pos + 4) len)

-- `write_string`: the buffer and the next position.
unfoldable pub write_string : ℕ → Str → Memory × ℕ → Option (Memory × ℕ)
write_string size s (m, pos) =
    if ltb size (pos + length s + 4)
    then none
    else some (store_bytes (pos + 4) s (store 4 pos (length s) m), pos + 4 + length s)
