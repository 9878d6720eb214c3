-- ===== src/Kv/RoundTrip.antt =====
-- src/kv/kv_db.cpp: `serialize` stores the block that `apply_change` makes in memory.
use vitastor.Base.{
  ℕ, ◌+◌, ◌^◌, ◌≤◌, ◌<◌, ◌≡◌, ◌⊎◌, refl, sym, ap, subst, ◌∙◌, inl, inr, true, false, [], Option,
  none, some, ◌==◌, length, arith,
}
use vitastor.Memory.{Memory}
use vitastor.Kv.{kv_block_max_items, kv_int, kv_leaf, kv_empty, header_size, KvBlock, is_split_type}
use vitastor.Kv.Format.{
  parsed, parsed_or_corrupt, parse, is_add, is_del, is_split, is_clear_right, new_type, serialize,
  apply_del, apply_add, apply_right, apply_change,
}
use vitastor.Kv.Items.{insert_all}
use vitastor.Kv.Stored.{written_items}
use vitastor.Kv.Serialized.{stored_rh_block, stored_bytes, HasHeader, serialize-IsSerialized}
use vitastor.Kv.Parsing.{new_block, parse_body-Holds, parse-HasHeader}
use vitastor.Kv.Buffer.{Holds}
use vitastor.Kv.Applied.{IsChange, insert_all-written_items, applied, settled, apply_change-applied}

new_type_bounds :
    (b : KvBlock) → 0 < b.type → b.type < kv_empty → (0 < new_type b) × (new_type b < kv_empty)
unfolding new_type
new_type_bounds b low high = ground (arith, low, high)

-- A block that serialize stored is read back as its header and strings say.
parse_stored :
    (b : KvBlock) (m : Memory) (size : ℕ)
    → size < 2 ^ 31
    → 0 < b.type
    → b.type < kv_empty
    → length (written_items b) ≤ kv_block_max_items
    → stored_rh_block b < 2 ^ 64
    → HasHeader m size (new_type b) (length (written_items b))
    → Holds m header_size (stored_bytes b)
    → header_size + length (stored_bytes b) ≤ size
    → parse new_block b.offset m size
      ≡ parsed (record (applied b (header_size + length (stored_bytes b))) {
        items = insert_all [] (written_items b);
      })
parse_stored b m size small low high few wide header holds fits =
    let (l, h) = new_type_bounds b low high in
    parse-HasHeader new_block b.offset m size (new_type b) (length (written_items b)) small l h few
      refl header
    ∙ ap parsed_or_corrupt (parse_body-Holds m size small new_block b b.offset wide holds fits)

-- Take a block in memory whose keys rise, with a change that update_block makes, except a second split of
-- a split block, and a buffer of less than 2 ^ 31 bytes, with no more items than parse allows. serialize
-- fails if the bytes of the block with its change do not fit the buffer. Else it succeeds, and parse reads
-- from its buffer exactly the block that apply_change makes in memory, up to the size, for which it takes
-- the number of bytes.
pub parse-serialize :
    (b : KvBlock) (m : Memory) (size : ℕ)
    → IsChange b
    → size < 2 ^ 31
    → ((serialize b m size ≡ none) × (size < header_size + length (stored_bytes b)))
      ⊎ ((m' : Memory) × (a : KvBlock) × (serialize b m size ≡ some m')
          × (apply_change b ≡ some a)
          × (parse new_block b.offset m' size
              ≡ parsed (record a { data_size = header_size + length (stored_bytes b) })))
parse-serialize b m size v small = elim (serialize-IsSerialized b m size) [
  | inl fails ↦ inl fails
  | inr (m', e, header, holds, fits) ↦
      let (s, applies) = apply_change-applied b v in
      let reads = parse_stored b m' size small v.low v.high v.few v.wide header holds fits in
      inr (m', applied b s, e, applies, rw (← insert_all-written_items b v) reads)
]

new_type_again :
    (b : KvBlock)
    → is_split b.change_type ≡ true
    → is_clear_right b.change_type ≡ false
    → is_split_type b.type ≡ true
    → is_split_type (new_type b) ≡ true
unfolding new_type
new_type_again b y n t = ground (arith, y, n, t)

no_result : {m : Memory} → ◌≡◌ {A = Option Memory} none (some m) → ⊥
no_result e = cc

same_result : {m m' : Memory} → ◌≡◌ {A = Option Memory} (some m) (some m') → m ≡ m'
same_result e = cc

-- A second split of a block that is split already, without a change of an item, in a buffer of less than
-- 2 ^ 31 bytes and with no more items than parse allows: if serialize succeeds, parse reads a block with
-- the new right half, while apply_change keeps the old right half and all items in memory.
pub apply_change-split_again :
    (b : KvBlock) (m m' : Memory) (size : ℕ)
    → size < 2 ^ 31
    → b.change_type ≡ 4
    → is_split_type b.type ≡ true
    → length (written_items b) ≤ kv_block_max_items
    → b.change_rh_block < 2 ^ 64
    → serialize b m size ≡ some m'
    → (p : KvBlock) × (a : KvBlock) × (parse new_block b.offset m' size ≡ parsed p)
      × (apply_change b ≡ some a)
      × (p.right_half ≡ b.change_rh)
      × (a.right_half ≡ b.right_half)
      × (a.items ≡ b.items)
unfolding apply_change apply_del apply_add apply_right is_split is_add is_del is_clear_right
apply_change-split_again b m m' size small kind split few wide ok =
    let again : is_split b.change_type ≡ true = ap is_split kind in
    let no_clear : is_clear_right b.change_type ≡ false = ap is_clear_right kind in
    let no_add : is_add b.change_type ≡ false = ap is_add kind in
    let no_del : is_del b.change_type ≡ false = ap is_del kind in
    let no_leaf : (b.type == kv_leaf) ≡ false = ground (arith, split) in
    let no_int : (b.type == kv_int) ≡ false = ground (arith, split) in
    let type = new_type_again b again no_clear split in
    let ref : stored_rh_block b ≡ b.change_rh_block = rw again refl in
    elim (serialize-IsSerialized b m size) [
      | inl (fails, l) ↦ absurd (no_result (sym fails ∙ ok))
      | inr (m2, e, header, holds, fits) ↦
          let reads =
            parse_stored b m2 size small (ground (arith, split)) (ground (arith, split)) few
              (omega (arith, wide, ref)) header holds fits in
          let same : m2 ≡ m' = same_result (sym e ∙ ok) in
          (
            record (applied b (header_size + length (stored_bytes b))) {
              items = insert_all [] (written_items b);
            },
            settled b,
            subst
                (λ n.
                  parse new_block b.offset n size
                  ≡ parsed (record (applied b (header_size + length (stored_bytes b))) {
                    items = insert_all [] (written_items b);
                  }))
                same reads,
            rw (no_del, no_add, no_clear, again, no_leaf, no_int) refl,
            rw (type, again) refl,
            refl,
            refl,
          )
    ]
