-- ===== src/Kv/Left.antt =====
-- src/kv/kv_db.cpp: the items that `serialize` writes, with the item that changes and without it.
use vitastor.Base.{
  ℕ, ◌+◌, ◌≤◌, ◌<◌, ◌≡◌, refl, ap, inl, inr, Bool, true, false, not, ◌&&◌, ◌||◌, [], ◌∷◌, ◌++◌,
  ◌==◌, length, if◌then◌else◌, arith, Bool-cases,
}
use vitastor.Kv.{Str, str_lt, str_eq, lower_bound_item, insert_item, erase_item, erase_from}
use vitastor.Kv.Keys.{gt→str_eq}
use vitastor.Kv.Items.{
  Items, IsAbove, IsSorted, IsBelow, IsBefore, insert_all, insert_item-end, insert_all-IsSorted,
  IsBelow-append, append_nil,
}

-- The change of an item: whether one is added, whether one is taken away, the key and the value.
pub record ItemChange : Type 0 where
  pub add : Bool
  pub del : Bool
  pub key : Str
  pub value : Str

-- What the body of the loop writes for an item
abbrev pub entry_items : ItemChange → Bool → Str → Str → Items
entry_items c at_old k v =
    (if not c.del || not at_old || not (str_eq k c.key) then (k, v) ∷ [] else [])
    ++ (if c.add && at_old then (c.key, c.value) ∷ [] else [])

-- What the loop writes
unfoldable pub written_from : ItemChange → ℕ → ℕ → ℕ → Items → Items
written_from c old_it end_it i [] = []
written_from c old_it end_it i ((k, v) ∷ kvs) =
    let rest = written_from c old_it end_it (i + 1) kvs in
    if i == end_it then [] else entry_items c (i == old_it) k v ++ rest

-- What is behind the loop
abbrev pub written_last : ItemChange → ℕ → ℕ → Items
written_last c old_it end_it = if c.add && end_it == old_it then (c.key, c.value) ∷ [] else []

-- The items below the right half, if there is a split.
abbrev pub left_items : Bool → Str → Items → Items
left_items split rh kvs = if split then erase_from rh kvs else kvs

abbrev pub left_count : Bool → Str → Items → ℕ
left_count split rh kvs = if split then lower_bound_item rh kvs else length kvs

-- The items with the change
abbrev pub changed_items : ItemChange → Items → Items
changed_items c kvs =
    if c.add then insert_item c.key c.value kvs else if c.del then erase_item c.key kvs else kvs

pub entry_items-other : (c : ItemChange) (k v : Str) → entry_items c false k v ≡ (k, v) ∷ []
entry_items-other c k v = ground arith

-- Behind the changed item, or with no change, the loop writes the items up to the end.
pub written_from-left :
    (c : ItemChange) (split : Bool) (rh : Str) (old_it end_it i : ℕ) (kvs : Items)
    → ((j : ℕ) → i ≤ j → j < i + length kvs → (j == old_it) ≡ false)
    → end_it ≡ i + left_count split rh kvs
    → written_from c old_it end_it i kvs ≡ left_items split rh kvs
unfolding written_from erase_from lower_bound_item
written_from-left c split rh old_it end_it i [] far e = ground arith
written_from-left c false rh old_it end_it i ((k, v) ∷ kvs) far e =
    let rest =
      written_from-left c false rh old_it end_it (i + 1) kvs
        (λ j l m. far j (omega arith) (omega arith)) (omega arith) in
    let go : (i == end_it) ≡ false = ground arith in
    rw (go, far i (omega arith) (omega arith), entry_items-other c k v, rest) refl
written_from-left c true rh old_it end_it i ((k, v) ∷ kvs) far e = elim (Bool-cases (str_lt k rh)) [
  | inl y ↦
      let more : end_it ≡ i + 1 + lower_bound_item rh kvs = ground (arith, e, y) in
      let rest =
        written_from-left c true rh old_it end_it (i + 1) kvs
          (λ j l m. far j (omega arith) (omega arith)) more in
      let go : (i == end_it) ≡ false = ground (arith, more) in
      rw (go, far i (omega arith) (omega arith), entry_items-other c k v, rest, y) refl
  | inr n ↦ let stop : (i == end_it) ≡ true = ground (arith, e, n) in rw (n, stop) refl
]

erase_from-IsAbove :
    (bound rh : Str) (kvs : Items) → IsAbove bound kvs → IsAbove bound (erase_from rh kvs)
unfolding erase_from
erase_from-IsAbove bound rh [] a = tt
erase_from-IsAbove bound rh ((k, v) ∷ kvs) (l, a) = elim (Bool-cases (str_lt k rh)) [
  | inl y ↦ rw y (l, erase_from-IsAbove bound rh kvs a)
  | inr n ↦ rw n tt
]

erase_from-IsSorted : (rh : Str) (kvs : Items) → IsSorted kvs → IsSorted (erase_from rh kvs)
unfolding erase_from
erase_from-IsSorted rh [] s = tt
erase_from-IsSorted rh ((k, v) ∷ kvs) (a, s) = elim (Bool-cases (str_lt k rh)) [
  | inl y ↦ rw y (erase_from-IsAbove k rh kvs a, erase_from-IsSorted rh kvs s)
  | inr n ↦ rw n tt
]

erase_from-IsBefore :
    (acc : Items) (rh : Str) (kvs : Items) → IsBefore acc kvs → IsBefore acc (erase_from rh kvs)
unfolding erase_from
erase_from-IsBefore acc rh [] b = tt
erase_from-IsBefore acc rh ((k, v) ∷ kvs) (l, b) = elim (Bool-cases (str_lt k rh)) [
  | inl y ↦ rw y (l, erase_from-IsBefore acc rh kvs b)
  | inr n ↦ rw n tt
]

-- Items that are left over are read one after another.
pub insert_all-left :
    (acc : Items) (split : Bool) (rh : Str) (kvs : Items)
    → IsBefore acc kvs
    → IsSorted kvs
    → insert_all acc (left_items split rh kvs) ≡ acc ++ left_items split rh kvs
insert_all-left acc false rh kvs b s = insert_all-IsSorted acc kvs b s
insert_all-left acc true rh kvs b s =
    insert_all-IsSorted acc (erase_from rh kvs) (erase_from-IsBefore acc rh kvs b)
      (erase_from-IsSorted rh kvs s)

insert_item-behind :
    (key value : Str) (acc kvs : Items)
    → IsBelow key acc
    → insert_item key value (acc ++ kvs) ≡ acc ++ insert_item key value kvs
unfolding insert_item
insert_item-behind key value [] kvs b = refl
insert_item-behind key value ((k, v) ∷ acc) kvs (l, b) =
    rw l (ap (λ (r : Items). (k, v) ∷ r) (insert_item-behind key value acc kvs b))

pub erase_item-IsAbove : (key : Str) (kvs : Items) → IsAbove key kvs → erase_item key kvs ≡ kvs
unfolding erase_item
erase_item-IsAbove key [] a = refl
erase_item-IsAbove key ((k, v) ∷ kvs) (l, a) =
    rw (gt→str_eq k key l) (ap (λ (r : Items). (k, v) ∷ r) (erase_item-IsAbove key kvs a))

pub insert_all-append :
    (acc xs ys : Items) → insert_all acc (xs ++ ys) ≡ insert_all (insert_all acc xs) ys
unfolding insert_all
insert_all-append acc [] ys = refl
insert_all-append acc ((k, v) ∷ xs) ys = insert_all-append (insert_item k v acc) xs ys

pub IsBefore-append :
    (xs ys kvs : Items) → IsBefore xs kvs → IsBefore ys kvs → IsBefore (xs ++ ys) kvs
IsBefore-append xs ys [] b c = tt
IsBefore-append xs ys ((k, v) ∷ kvs) (l, b) (m, c) =
    (IsBelow-append k xs ys l m, IsBefore-append xs ys kvs b c)

pub IsBefore-one : (k v : Str) (kvs : Items) → IsAbove k kvs → IsBefore ((k, v) ∷ []) kvs
IsBefore-one k v [] a = tt
IsBefore-one k v ((k', v') ∷ kvs) (l, a) = ((l, tt), IsBefore-one k v kvs a)

pub IsBefore-none : (kvs : Items) → IsBefore [] kvs
IsBefore-none [] = tt
IsBefore-none ((k, v) ∷ kvs) = (tt, IsBefore-none kvs)

-- What becomes of the item that the change is about or the first one behind
abbrev pub replaced : ItemChange → Str → Str → Items
replaced c k v =
    (if c.add then (c.key, c.value) ∷ [] else [])
    ++ (if str_eq k c.key && (c.add || c.del) then [] else (k, v) ∷ [])

pub insert_all-entry_items :
    (c : ItemChange) (acc : Items) (k v : Str)
    → IsBelow k acc
    → IsBelow c.key acc
    → str_lt k c.key ≡ false
    → insert_all acc (entry_items c true k v) ≡ acc ++ replaced c k v
unfolding insert_all insert_item
insert_all-entry_items c acc k v l low n =
    let first = insert_item-end k v acc l in
    let only = insert_item-end c.key c.value acc low in
    let second = insert_item-behind c.key c.value acc ((k, v) ∷ []) low in
    elim (Bool-cases (str_eq k c.key)) [
      | inl y ↦ ground (arith, first, only, second, n, y, append_nil acc)
      | inr m ↦ ground (arith, first, only, second, n, m, append_nil acc)
    ]
