-- ===== src/Kv/Written.antt =====
-- src/kv/kv_db.cpp: reading back the items that `serialize` writes gives what `apply_change` makes of
-- them.
use vitastor.Base.{
  ℕ, ◌+◌, ◌≡◌, sym, ap, ◌∙◌, inl, inr, Bool, true, false, not, ◌&&◌, ◌||◌, [], ◌∷◌, ◌++◌, ◌==◌,
  if◌then◌else◌, arith, Bool-cases,
}
use vitastor.Kv.{Str, str_lt, str_eq, lower_bound_item, insert_item, erase_item, erase_from}
use vitastor.Kv.Keys.{
  str_lt_trans, str_lt_asymm, lt→str_eq, gt→str_eq, str_lt_of_le_of_lt, str_lt_of_lt_of_le,
}
use vitastor.Kv.Items.{
  Items, IsAbove, IsSorted, IsBelow, IsBefore, insert_all, insert_item-end, IsAbove-lt,
  IsBefore-snoc, IsBelow-append, append_assoc, append_nil,
}
use vitastor.Kv.Left.{
  ItemChange, entry_items, written_from, written_last, left_items, left_count, changed_items,
  entry_items-other, written_from-left, insert_all-left, erase_item-IsAbove, insert_all-append,
  IsBefore-append, IsBefore-one, IsBefore-none, replaced, insert_all-entry_items,
}

IsAbove-le : (key k : Str) (kvs : Items) → str_lt k key ≡ false → IsAbove k kvs → IsAbove key kvs
IsAbove-le key k [] n a = tt
IsAbove-le key k ((k', v') ∷ kvs) n (l, a) =
    (str_lt_of_le_of_lt key k k' n l, IsAbove-le key k kvs n a)

module _ (c : ItemChange) (split : Bool) (rh : Str)
    (below : split ≡ true → str_lt c.key rh ≡ true) where
  left_items-at_old :
      (k v : Str) (kvs : Items)
      → IsAbove k kvs
      → str_lt k c.key ≡ false
      → (split ≡ true → str_lt k rh ≡ true)
      → left_items split rh (changed_items c ((k, v) ∷ kvs))
        ≡ replaced c k v ++ left_items split rh kvs
  unfolding insert_item erase_item erase_from
  left_items-at_old k v kvs a n inside =
      let other = erase_item-IsAbove c.key kvs (IsAbove-le c.key k kvs n a) in
      elim (Bool-cases split) [
        | inl y ↦ elim (Bool-cases (str_eq k c.key)) [
          | inl e ↦ ground (arith, n, e, y, below y, inside y)
          | inr m ↦ ground (arith, n, m, y, below y, inside y, other)
        ]
        | inr f ↦ elim (Bool-cases (str_eq k c.key)) [
          | inl e ↦ ground (arith, n, e, f)
          | inr m ↦ ground (arith, n, m, f, other)
        ]
      ]

  -- The right half starts at the item.
  left_items-at_end :
      (k v : Str) (kvs : Items)
      → IsAbove k kvs
      → split ≡ true
      → str_lt k rh ≡ false
      → left_items split rh (changed_items c ((k, v) ∷ kvs))
        ≡ (if c.add then (c.key, c.value) ∷ [] else [])
  unfolding insert_item erase_item erase_from
  left_items-at_end k v kvs a y n =
      let l : str_lt c.key k ≡ true = str_lt_of_lt_of_le c.key rh k (below y) n in
      let other = erase_item-IsAbove c.key kvs (IsAbove-lt c.key k kvs l a) in
      ground (arith, y, n, below y, l, str_lt_asymm c.key k l, gt→str_eq k c.key l, other)

  replaced-IsBefore :
      (k v : Str) (kvs : Items)
      → IsAbove k kvs
      → str_lt k c.key ≡ false
      → IsBefore (replaced c k v) kvs
  replaced-IsBefore k v kvs a n =
      IsBefore-append (if c.add then (c.key, c.value) ∷ [] else [])
        (if str_eq k c.key && (c.add || c.del) then [] else (k, v) ∷ []) kvs
        (elim (Bool-cases c.add) [
          | inl y ↦ rw y (IsBefore-one c.key c.value kvs (IsAbove-le c.key k kvs n a))
          | inr m ↦ rw m (IsBefore-none kvs)
        ])
        (elim (Bool-cases (str_eq k c.key && (c.add || c.del))) [
          | inl y ↦ rw y (IsBefore-none kvs)
          | inr m ↦ rw m (IsBefore-one k v kvs a)
        ])

  -- The loop from the item that the change is about, or the first one behind, and what follows it
  insert_all-at_old :
      (acc : Items) (old_it end_it i : ℕ) (k v : Str) (kvs : Items)
      → IsBefore acc ((k, v) ∷ kvs)
      → IsBelow c.key acc
      → IsSorted ((k, v) ∷ kvs)
      → str_lt k c.key ≡ false
      → old_it ≡ i
      → end_it ≡ i + left_count split rh ((k, v) ∷ kvs)
      → insert_all acc
          (written_from c old_it end_it i ((k, v) ∷ kvs) ++ written_last c old_it end_it)
        ≡ acc ++ left_items split rh (changed_items c ((k, v) ∷ kvs))
  unfolding written_from lower_bound_item insert_all
  insert_all-at_old acc old_it end_it i k v kvs (l, b) low (a, s) behind at e =
      elim (Bool-cases (split && not (str_lt k rh))) [
        | inl stops ↦
            let cut : split ≡ true = ground (arith, stops) in
            let far : str_lt k rh ≡ false = ground (arith, stops) in
            let stop : (i == end_it) ≡ true = ground (arith, e, cut, far) in
            let same : (end_it == old_it) ≡ true = ground (arith, e, cut, far, at) in
            rw (stop, same, left_items-at_end k v kvs a cut far)
              (elim (Bool-cases c.add) [
                | inl y ↦ rw y (insert_item-end c.key c.value acc low)
                | inr m ↦ rw m (sym (append_nil acc))
              ])
        | inr goes ↦
            let inside : split ≡ true → str_lt k rh ≡ true = λ y. ground (arith, goes, y) in
            let more : end_it ≡ i + 1 + left_count split rh kvs = ground (arith, e, goes) in
            let go : (i == end_it) ≡ false = ground (arith, more) in
            let here : (i == old_it) ≡ true = ground (arith, at) in
            let last : (end_it == old_it) ≡ false = ground (arith, more, at) in
            let rest =
              written_from-left c split rh old_it end_it (i + 1) kvs
                (λ j lo hi. ground (arith, at, lo)) more in
            let no_last : written_last c old_it end_it ≡ [] = ground (arith, last) in
            let all : Items = left_items split rh kvs in
            rw (no_last, left_items-at_old k v kvs a behind inside, go, here, rest)
              (ap (insert_all acc) (append_nil (entry_items c true k v ++ all))
                ∙ insert_all-append acc (entry_items c true k v) all
                ∙ rw (insert_all-entry_items c acc k v l low behind) (
                    insert_all-left (acc ++ replaced c k v) split rh kvs
                      (IsBefore-append acc (replaced c k v) kvs b
                        (replaced-IsBefore k v kvs a behind))
                      s
                    ∙ append_assoc acc (replaced c k v) all))
      ]

  left_items-before :
      (k v : Str) (kvs : Items)
      → str_lt k c.key ≡ true
      → left_items split rh (changed_items c ((k, v) ∷ kvs))
        ≡ (k, v) ∷ left_items split rh (changed_items c kvs)
  unfolding insert_item erase_item erase_from
  left_items-before k v kvs y = elim (Bool-cases split) [
    | inl cut ↦
        let inside = str_lt_trans k c.key rh y (below cut) in
        ground (arith, y, lt→str_eq k c.key y, cut, inside)
    | inr f ↦ ground (arith, y, lt→str_eq k c.key y, f)
  ]

  -- The loop, the item that the change adds behind it, and the map that is read back.
  pub insert_all-written :
      (acc : Items) (old_it end_it i : ℕ) (kvs : Items)
      → IsBefore acc kvs
      → IsBelow c.key acc
      → IsSorted kvs
      → old_it ≡ i + lower_bound_item c.key kvs
      → end_it ≡ i + left_count split rh kvs
      → insert_all acc (written_from c old_it end_it i kvs ++ written_last c old_it end_it)
        ≡ acc ++ left_items split rh (changed_items c kvs)
  unfolding written_from erase_from lower_bound_item insert_item erase_item insert_all
  insert_all-written acc old_it end_it i [] b low s o e =
      let same : (end_it == old_it) ≡ true = ground (arith, o, e) in
      let first = insert_item-end c.key c.value acc low in
      rw same (ground (arith, first, below, append_nil acc))
  insert_all-written acc old_it end_it i ((k, v) ∷ kvs) (l, b) low (a, s) o e =
      elim (Bool-cases (str_lt k c.key)) [
        | inr n ↦
            insert_all-at_old acc old_it end_it i k v kvs (l, b) low (a, s) n (ground (arith, o, n))
              e
        | inl y ↦
            let later : old_it ≡ i + 1 + lower_bound_item c.key kvs = ground (arith, o, y) in
            let more : end_it ≡ i + 1 + left_count split rh kvs = elim (Bool-cases split) [
              | inl cut ↦ ground (arith, e, cut, str_lt_trans k c.key rh y (below cut))
              | inr f ↦ ground (arith, e, f)
            ] in
            let go : (i == end_it) ≡ false = ground (arith, more) in
            let here : (i == old_it) ≡ false = ground (arith, later) in
            let acc' : Items = acc ++ (k, v) ∷ [] in
            let rest =
              insert_all-written acc' old_it end_it (i + 1) kvs (IsBefore-snoc acc kvs k v b a)
                (IsBelow-append c.key acc ((k, v) ∷ []) low (y, tt)) s later more in
            let behind : Items =
              written_from c old_it end_it (i + 1) kvs ++ written_last c old_it end_it in
            rw (go, here, entry_items-other c k v, left_items-before k v kvs y)
              (ap (λ (t : Items). insert_all t behind) (insert_item-end k v acc l)
                ∙ rest
                ∙ append_assoc acc ((k, v) ∷ []) (left_items split rh (changed_items c kvs)))
      ]
