-- ===== src/Kv/Applied.antt =====
-- src/kv/kv_db.cpp: what `apply_change` makes of a block in memory.
use vitastor.Base.{
  ℕ, zero, suc, ◌+◌, ◌^◌, ◌≤◌, ◌<◌, ◌≡◌, ◌≢◌, refl, ap, ◌∙◌, inl, inr, true, false, not, ◌&&◌, ◌||◌,
  [], none, some, ◌==◌, length, if◌then◌else◌, Option-cases, arith, Bool-cases,
}
use vitastor.Base.Words.{sub32}
use vitastor.Kv.{
  str_lt, kv_block_max_items, kv_int, kv_leaf, kv_int_split, kv_leaf_split, kv_empty, KvBlock,
  is_split_type, kv_size, set_data_size, lower_bound_item, find_item, erase_item,
}
use vitastor.Kv.Format.{
  is_add, is_del, is_upd, is_split, is_clear_right, new_type, old_item, end_item, apply_del,
  apply_add, apply_right, apply_change,
}
use vitastor.Kv.Items.{Items, IsSorted, insert_all, append_nil}
use vitastor.Kv.Left.{
  written_last, left_items, left_count, changed_items, written_from-left, insert_all-left,
  IsBefore-none,
}
use vitastor.Kv.Written.{insert_all-written}
use vitastor.Kv.Stored.{change_of, written_items}
use vitastor.Kv.Serialized.{stored_lt, stored_rh, stored_rh_block}
use vitastor.Kv.Parsing.{new_block, right_pair}

-- A block in memory with a change that `update_block` gives to a block which is not split yet, or to a
-- split one without a new split.
pub record IsChange (b : KvBlock) : Type 0 where
  pub kinds : b.change_type < 16
  pub low : 0 < b.type
  pub high : b.type < kv_empty
  pub clears : is_clear_right b.change_type ≡ true → is_split_type b.type ≡ true
  pub splits : is_split b.change_type ≡ true → is_split_type b.type ≡ false
  pub whole : is_split_type b.type ≡ false → (b.right_half ≡ []) × (b.right_half_block ≡ 0)
  pub left :
      is_split b.change_type ≡ true
      → is_upd b.change_type ≡ true
      → str_lt b.change_key b.change_rh ≡ true
  pub found :
      (is_del b.change_type && not (is_add b.change_type)) ≡ true
      → find_item b.change_key b.items ≢ none
  pub sorted : IsSorted b.items
  pub few : length (written_items b) ≤ kv_block_max_items
  pub wide : stored_rh_block b < 2 ^ 64

is_upd_lem : (n : ℕ) → n < 16 → is_upd n ≡ (is_add n || is_del n)
unfolding is_upd is_add is_del
is_upd_lem zero l = refl
is_upd_lem (suc zero) l = refl
is_upd_lem (suc (suc zero)) l = refl
is_upd_lem (suc (suc (suc zero))) l = refl
is_upd_lem (suc (suc (suc (suc zero)))) l = refl
is_upd_lem (suc (suc (suc (suc (suc zero))))) l = refl
is_upd_lem (suc (suc (suc (suc (suc (suc zero)))))) l = refl
is_upd_lem (suc (suc (suc (suc (suc (suc (suc zero))))))) l = refl
is_upd_lem (suc (suc (suc (suc (suc (suc (suc (suc zero)))))))) l = refl
is_upd_lem (suc (suc (suc (suc (suc (suc (suc (suc (suc zero))))))))) l = refl
is_upd_lem (suc (suc (suc (suc (suc (suc (suc (suc (suc (suc zero)))))))))) l = refl
is_upd_lem (suc (suc (suc (suc (suc (suc (suc (suc (suc (suc (suc zero))))))))))) l = refl
is_upd_lem (suc (suc (suc (suc (suc (suc (suc (suc (suc (suc (suc (suc zero)))))))))))) l = refl
is_upd_lem (suc (suc (suc (suc (suc (suc (suc (suc (suc (suc (suc (suc (suc zero))))))))))))) l =
    refl
is_upd_lem (suc (suc (suc (suc (suc (suc (suc (suc (suc (suc (suc (suc (suc (suc zero))))))))))))))
      l =
    refl
is_upd_lem
      (suc (suc (suc (suc (suc (suc (suc (suc (suc (suc (suc (suc (suc (suc (suc zero)))))))))))))))
      l =
    refl
is_upd_lem
      (suc
        (suc (suc (suc (suc (suc (suc (suc (suc (suc (suc (suc (suc (suc (suc (suc n))))))))))))))))
      l =
    absurd (omega (arith, l))

-- Reading back what is written gives the changed items of the left half.
pub insert_all-written_items :
    (b : KvBlock)
    → IsChange b
    → insert_all [] (written_items b)
      ≡ left_items (is_split b.change_type) b.change_rh (changed_items (change_of b) b.items)
insert_all-written_items b v = elim (Bool-cases (is_upd b.change_type)) [
  | inl y ↦
      let old : old_item b ≡ 0 + lower_bound_item b.change_key b.items = ground (arith, y) in
      let end : end_item b ≡ 0 + left_count (is_split b.change_type) b.change_rh b.items =
        ground arith in
      insert_all-written (change_of b) (is_split b.change_type) b.change_rh (λ s. v.left s y) []
        (old_item b) (end_item b) 0 b.items (IsBefore-none b.items) tt v.sorted old end
  | inr n ↦
      let kind = is_upd_lem b.change_type v.kinds in
      let no_add : is_add b.change_type ≡ false = ground (arith, kind, n) in
      let no_del : is_del b.change_type ≡ false = ground (arith, kind, n) in
      let end : end_item b ≡ 0 + left_count (is_split b.change_type) b.change_rh b.items =
        ground arith in
      let far : (j : ℕ) → 0 ≤ j → j < 0 + length b.items → (j == old_item b) ≡ false =
        λ j l u. ground (arith, n, u) in
      let all =
        written_from-left (change_of b) (is_split b.change_type) b.change_rh (old_item b)
          (end_item b) 0 b.items far end in
      let last : written_last (change_of b) (old_item b) (end_item b) ≡ [] =
        ground (arith, no_add) in
      let same : changed_items (change_of b) b.items ≡ b.items = ground (arith, no_add, no_del) in
      rw (last, all, same)
        (ap (insert_all []) (append_nil (left_items (is_split b.change_type) b.change_rh b.items))
          ∙ insert_all-left [] (is_split b.change_type) b.change_rh b.items (IsBefore-none b.items)
              v.sorted)
]

-- The block that is read back
abbrev pub applied : KvBlock → ℕ → KvBlock
applied b size = record new_block {
  type = new_type b;
  offset = b.offset;
  key_ge = b.key_ge;
  key_lt = stored_lt b;
  right_half =
      (right_pair (is_split_type (new_type b)) (stored_rh b) (stored_rh_block b) ([], 0)).0;
  right_half_block =
      (right_pair (is_split_type (new_type b)) (stored_rh b) (stored_rh_block b) ([], 0)).1;
  items = left_items (is_split b.change_type) b.change_rh (changed_items (change_of b) b.items);
  data_size = size;
}

-- The block with other items
abbrev with_items : KvBlock → Items → ℕ → KvBlock
with_items b items size = record b { items = items; data_size = size }

-- The items without one that is to be deleted
abbrev without_item : KvBlock → Items
without_item b =
    if is_del b.change_type && not (is_add b.change_type)
    then erase_item b.change_key b.items
    else b.items

apply_del_lem :
    (b : KvBlock)
    → IsChange b
    → (size : ℕ) × (apply_del b ≡ some (with_items b (without_item b) size))
unfolding apply_del
apply_del_lem b v = elim (Bool-cases (is_del b.change_type && not (is_add b.change_type))) [
  | inr n ↦ (b.data_size, rw n refl)
  | inl y ↦ elim (Option-cases (find_item b.change_key b.items)) [
    | inl none_there ↦ absurd (v.found y none_there)
    | inr (value, there) ↦ (sub32 b.data_size (kv_size b.change_key value), rw (y, there) refl)
  ]
]

apply_add_lem :
    (b : KvBlock) (size : ℕ)
    → (size' : ℕ) × (apply_add (with_items b (without_item b) size)
        ≡ with_items b (changed_items (change_of b) b.items) size')
unfolding apply_add
apply_add_lem b size = elim (Bool-cases (is_add b.change_type)) [
  | inl y ↦ elim (Bool-cases (is_del b.change_type)) [
    | inl d ↦ ((apply_add (with_items b (without_item b) size)).data_size, rw (y, d) refl)
    | inr m ↦ ((apply_add (with_items b (without_item b) size)).data_size, rw (y, m) refl)
  ]
  | inr n ↦ elim (Bool-cases (is_del b.change_type)) [
    | inl d ↦ (size, rw (n, d) refl)
    | inr m ↦ (size, rw (n, m) refl)
  ]
]

-- The block with no change to make
abbrev pub settled : KvBlock → KvBlock
settled b = record b {
  change_type = 0;
  change_key = [];
  change_value = [];
  change_rh = [];
  change_rh_block = 0;
}

apply_right_lem :
    (b : KvBlock) (items : Items) (size : ℕ)
    → IsChange b
    → (size' : ℕ) × (settled (apply_right (with_items b items size)) ≡ record (applied b size') {
      items = left_items (is_split b.change_type) b.change_rh items;
    })
unfolding apply_right set_data_size new_type
apply_right_lem b items size v =
    let d : ℕ = (apply_right (with_items b items size)).data_size in
    elim (Bool-cases (is_clear_right b.change_type)) [
      | inl c ↦
          let kind = v.clears c in
          let no_split : is_split b.change_type ≡ false = ground (arith, v.splits, kind) in
          elim (Bool-cases (b.type == kv_leaf_split)) [
            | inl e ↦
                let f : (b.type == kv_int_split) ≡ false = ground (arith, e) in
                (d, rw (c, no_split, e, f) refl)
            | inr e ↦
                let f : (b.type == kv_int_split) ≡ true = ground (arith, e, kind) in
                (d, rw (c, no_split, e, f) refl)
          ]
      | inr c ↦ elim (Bool-cases (is_split b.change_type)) [
        | inl y ↦
            let kind = v.splits y in
            elim (Bool-cases (b.type == kv_leaf)) [
              | inl e ↦
                  let f : (b.type == kv_int) ≡ false = ground (arith, e) in
                  (d, rw (c, y, e, f) refl)
              | inr e ↦
                  let f : (b.type == kv_int) ≡ true = ground (arith, e, kind, v.low, v.high) in
                  (d, rw (c, y, e, f) refl)
            ]
        | inr n ↦ elim (Bool-cases (is_split_type b.type)) [
          | inl kind ↦ (d, rw (c, n, kind) refl)
          | inr kind ↦
              let (rh, block) = v.whole kind in (size, rw (c, n, kind) (ground (arith, rh, block)))
        ]
      ]
    ]

pub apply_change-applied :
    (b : KvBlock) → IsChange b → (size : ℕ) × (apply_change b ≡ some (applied b size))
unfolding apply_change
apply_change-applied b v =
    let (s1, del) = apply_del_lem b v in
    let (s2, add) = apply_add_lem b s1 in
    let (s3, right) = apply_right_lem b (changed_items (change_of b) b.items) s2 v in
    (s3, rw (del, add) (ap some right))
