-- ===== src/Kv/Parsing.antt =====
-- src/kv/kv_db.cpp: `parse` of the bytes that `serialize` leaves.
use vitastor.Base.{
  ℕ, ◌+◌, ◌^◌, ◌≤◌, ◌<◌, ◌≡◌, refl, ap, subst, Bool, true, false, List, [], ◌∷◌, ◌++◌, some, ltb,
  length, length-append, le→ltb, arith,
}
use vitastor.Memory.{Memory}
use vitastor.Kv.{
  Str, kv_block_magic, kv_block_max_items, kv_empty, header_size, KvBlock, is_split_type,
  insert_item, load, read_string,
}
use vitastor.Kv.Format.{parse_right, parse_items, parse_body, parsed_or_corrupt, parse, new_type}
use vitastor.Kv.Items.{Items, insert_all}
use vitastor.Kv.Buffer.{
  Holds, number_bytes, string_bytes, length-number_bytes, length-string_bytes, Holds-split,
  load-Holds, read_string-Holds,
}
use vitastor.Kv.Stored.{items_bytes, bytes_assoc, written_items}
use vitastor.Kv.Serialized.{
  stored_lt, stored_rh, stored_rh_block, right_bytes, stored_bytes, HasHeader,
}

-- A block that is not read yet
abbrev pub new_block : KvBlock
new_block = record {
  type = 0;
  offset = 0;
  key_ge = [];
  key_lt = [];
  right_half = [];
  right_half_block = 0;
  items = [];
  data_size = 0;
  change_type = 0;
  change_key = [];
  change_value = [];
  change_rh = [];
  change_rh_block = 0;
}

-- The right half that is read, or what there was
abbrev pub right_pair : Bool → Str → ℕ → Str × ℕ → Str × ℕ
right_pair true rh block right = (rh, block)
right_pair false rh block right = right

module _ (m : Memory) (size : ℕ) (small : size < 2 ^ 31) where
  -- The string at a position, and what the buffer holds behind it
  read_next :
      (pos : ℕ) (s : Str) (rest : List ℕ)
      → Holds m pos (string_bytes s ++ rest)
      → pos + length (string_bytes s ++ rest) ≤ size
      → (read_string m size pos ≡ some (s, pos + 4 + length s))
        × Holds m (pos + 4 + length s) rest
        × (pos + length (string_bytes s ++ rest) ≡ pos + 4 + length s + length rest)
  read_next pos s rest h fits =
      let total = length-append {0} (string_bytes s) rest in
      let four = length-string_bytes s in
      let (first, behind) = Holds-split m pos (string_bytes s) rest h in
      (
        read_string-Holds m size pos s small (omega (arith, fits, total, four)) first,
        subst (λ a. Holds m a rest) (omega (arith, four)) behind,
        omega (arith, total, four),
      )

  parse_items-Holds :
      (kvs acc : Items) (pos : ℕ)
      → Holds m pos (items_bytes kvs)
      → pos + length (items_bytes kvs) ≤ size
      → parse_items m size (length kvs) acc pos
        ≡ some (insert_all acc kvs, pos + length (items_bytes kvs))
  unfolding parse_items items_bytes insert_all
  parse_items-Holds [] acc pos h fits = ap (λ (p : ℕ). some (acc, p)) (omega arith)
  parse_items-Holds ((k, v) ∷ kvs) acc pos h fits =
      let e = bytes_assoc (string_bytes k) (string_bytes v) (items_bytes kvs) in
      let (key, behind, size1) =
        read_next pos k (string_bytes v ++ items_bytes kvs) (rw e at h) (rw e at fits) in
      let (value, later, size2) =
        read_next (pos + 4 + length k) v (items_bytes kvs) behind
          (omega (arith, size1, rw e at fits)) in
      let room : pos + 4 + length k + 4 + length v + length (items_bytes kvs) ≤ size =
        omega (arith, size1, size2, rw e at fits) in
      let rest =
        parse_items-Holds kvs (insert_item k v acc) (pos + 4 + length k + 4 + length v) later
          room in
      let end : pos + 4 + length k + 4 + length v + length (items_bytes kvs)
          ≡ pos + length ((string_bytes k ++ string_bytes v) ++ items_bytes kvs) =
        rw e (omega (arith, size1, size2)) in
      rw (key, value, rest) (ap (λ (p : ℕ). some (insert_all (insert_item k v acc) kvs, p)) end)

  parse_right-Holds :
      (type : ℕ) (s : Bool) (rh : Str) (block pos : ℕ) (right : Str × ℕ) (rest : List ℕ)
      → is_split_type type ≡ s
      → block < 2 ^ 64
      → Holds m pos (right_bytes s rh block ++ rest)
      → pos + length (right_bytes s rh block ++ rest) ≤ size
      → (parse_right m size type right pos
          ≡ some (right_pair s rh block right, pos + length (right_bytes s rh block)))
        × Holds m (pos + length (right_bytes s rh block)) rest
  unfolding parse_right right_bytes
  parse_right-Holds type false rh block pos right rest t wide h fits =
      let e : pos ≡ pos + 0 = omega arith in
      (rw t (ap (λ (p : ℕ). some (right, p)) e), subst (λ a. Holds m a rest) e h)
  parse_right-Holds type true rh block pos right rest t wide h fits =
      let e = bytes_assoc (string_bytes rh) (number_bytes 8 block) rest in
      let eight = length-number_bytes 8 block in
      let four = length-string_bytes rh in
      let total = length-append {0} (number_bytes 8 block) rest in
      let both = length-append {0} (string_bytes rh) (number_bytes 8 block) in
      let (first, behind, size1) =
        read_next pos rh (number_bytes 8 block ++ rest) (rw e at h) (rw e at fits) in
      let (number, later) =
        Holds-split m (pos + 4 + length rh) (number_bytes 8 block) rest behind in
      let room : ltb size (pos + 4 + length rh + 8) ≡ false =
        le→ltb _ _ (omega (arith, rw e at fits, size1, total, eight)) in
      let value : load 8 (pos + 4 + length rh) m ≡ block =
        load-Holds 8 (pos + 4 + length rh) block m wide number in
      let end : pos + 4 + length rh + 8 ≡ pos + length (string_bytes rh ++ number_bytes 8 block) =
        omega (arith, both, eight, four) in
      (
        rw (t, first, room, value) (ap (λ (p : ℕ). some ((rh, block), p)) end),
        subst (λ a. Holds m a rest) (omega (arith, eight, both, four)) later,
      )

  pub parse_body-Holds :
      (this b : KvBlock) (offset : ℕ)
      → stored_rh_block b < 2 ^ 64
      → Holds m header_size (stored_bytes b)
      → header_size + length (stored_bytes b) ≤ size
      → parse_body this offset m size (new_type b) (length (written_items b))
        ≡ some (record this {
          type = new_type b;
          offset = offset;
          key_ge = b.key_ge;
          key_lt = stored_lt b;
          right_half =
              (right_pair
                (is_split_type (new_type b))
                (stored_rh b)
                (stored_rh_block b)
                (this.right_half, this.right_half_block)).0;
          right_half_block =
              (right_pair
                (is_split_type (new_type b))
                (stored_rh b)
                (stored_rh_block b)
                (this.right_half, this.right_half_block)).1;
          items = insert_all this.items (written_items b);
          data_size = header_size + length (stored_bytes b);
        })
  unfolding parse_body
  parse_body-Holds this b offset wide h fits =
      let s : Bool = is_split_type (new_type b) in
      let right : List ℕ = right_bytes s (stored_rh b) (stored_rh_block b) in
      let all : List ℕ = items_bytes (written_items b) in
      let (ge, h1, size1) =
        read_next header_size b.key_ge (string_bytes (stored_lt b) ++ (right ++ all)) h fits in
      let pos1 : ℕ = header_size + 4 + length b.key_ge in
      let (lt, h2, size2) =
        read_next pos1 (stored_lt b) (right ++ all) h1 (omega (arith, size1, fits)) in
      let pos2 : ℕ = pos1 + 4 + length (stored_lt b) in
      let (half, h3) =
        parse_right-Holds (new_type b) s (stored_rh b) (stored_rh_block b) pos2
          (this.right_half, this.right_half_block) all refl wide h2
          (omega (arith, size1, size2, fits)) in
      let total = length-append {0} right all in
      let items =
        parse_items-Holds (written_items b) this.items (pos2 + length right) h3
          (omega (arith, size1, size2, fits, total)) in
      let end : pos2 + length right + length all ≡ header_size + length (stored_bytes b) =
        omega (arith, size1, size2, total) in
      rw (ge, lt, half, items, end) refl

-- A stored block passes the checks of its header.
pub parse-HasHeader :
    (this : KvBlock) (offset : ℕ) (m : Memory) (size type count : ℕ)
    → size < 2 ^ 31
    → 0 < type
    → type < kv_empty
    → count ≤ kv_block_max_items
    → this.type ≡ 0
    → HasHeader m size type count
    → parse this offset m size ≡ parsed_or_corrupt (parse_body this offset m size type count)
unfolding parse
parse-HasHeader this offset m size type count small low high few fresh (h1, h2, h3, h4) =
    let magic : load 8 0 m ≡ kv_block_magic = load-Holds 8 0 kv_block_magic m (omega arith) h1 in
    let length_ok : load 4 8 m ≡ size = load-Holds 4 8 size m (omega (arith, small)) h2 in
    let kind : load 4 12 m ≡ type = load-Holds 4 12 type m (omega (arith, high)) h3 in
    let number : load 8 16 m ≡ count = load-Holds 8 16 count m (omega (arith, few)) h4 in
    rw (magic, length_ok, kind, number) (ground (arith, low, high, few, fresh))
