-- ===== src/Kv/Items.antt =====
-- src/kv/kv_db.cpp: the items that `serialize` writes, and what reading them in order gives.
use vitastor.Base.{◌≡◌, refl, sym, ap, ◌∙◌, true, List, [], ◌∷◌, ◌++◌}
use vitastor.Kv.{Str, str_lt, insert_item}
use vitastor.Kv.Keys.{str_lt_trans}

abbrev pub Items : Type 0
Items = List (Str × Str)

-- All keys are above a bound.
abbrev pub IsAbove : Str → Items → Type 0
IsAbove bound [] = Unit
IsAbove bound ((k, v) ∷ kvs) = (str_lt bound k ≡ true) × IsAbove bound kvs

-- The keys rise.
abbrev pub IsSorted : Items → Type 0
IsSorted [] = Unit
IsSorted ((k, v) ∷ kvs) = IsAbove k kvs × IsSorted kvs

-- Reading items in order into a map
unfoldable pub insert_all : Items → Items → Items
insert_all acc [] = acc
insert_all acc ((k, v) ∷ kvs) = insert_all (insert_item k v acc) kvs

pub IsAbove-lt : (a b : Str) (kvs : Items) → str_lt a b ≡ true → IsAbove b kvs → IsAbove a kvs
IsAbove-lt a b [] l h = tt
IsAbove-lt a b ((k, v) ∷ kvs) l (m, h) = (str_lt_trans a b k l m, IsAbove-lt a b kvs l h)

-- All keys are below a bound.
abbrev pub IsBelow : Str → Items → Type 0
IsBelow bound [] = Unit
IsBelow bound ((k, v) ∷ kvs) = (str_lt k bound ≡ true) × IsBelow bound kvs

-- A key above all others is put at the end.
pub insert_item-end :
    (key value : Str) (kvs : Items)
    → IsBelow key kvs
    → insert_item key value kvs ≡ kvs ++ (key, value) ∷ []
unfolding insert_item
insert_item-end key value [] b = refl
insert_item-end key value ((k, v) ∷ kvs) (l, b) =
    rw l (ap (λ (r : Items). (k, v) ∷ r) (insert_item-end key value kvs b))

pub IsBelow-append :
    (bound : Str) (xs ys : Items) → IsBelow bound xs → IsBelow bound ys → IsBelow bound (xs ++ ys)
IsBelow-append bound [] ys h k = k
IsBelow-append bound ((k, v) ∷ xs) ys (l, h) m = (l, IsBelow-append bound xs ys h m)

pub IsBelow-lt : (a b : Str) (kvs : Items) → str_lt a b ≡ true → IsBelow a kvs → IsBelow b kvs
IsBelow-lt a b [] l h = tt
IsBelow-lt a b ((k, v) ∷ kvs) l (m, h) = (str_lt_trans k a b m l, IsBelow-lt a b kvs l h)

-- All keys of a list are below all keys of another.
abbrev pub IsBefore : Items → Items → Type 0
IsBefore acc [] = Unit
IsBefore acc ((k, v) ∷ kvs) = IsBelow k acc × IsBefore acc kvs

pub IsBefore-snoc :
    (acc kvs : Items) (k v : Str)
    → IsBefore acc kvs
    → IsAbove k kvs
    → IsBefore (acc ++ (k, v) ∷ []) kvs
IsBefore-snoc acc [] k v h a = tt
IsBefore-snoc acc ((k', v') ∷ kvs) k v (b, h) (l, a) =
    (IsBelow-append k' acc ((k, v) ∷ []) b (l, tt), IsBefore-snoc acc kvs k v h a)

pub append_assoc : (xs ys zs : Items) → (xs ++ ys) ++ zs ≡ xs ++ (ys ++ zs)
append_assoc [] ys zs = refl
append_assoc (x ∷ xs) ys zs = ap (λ (r : Items). x ∷ r) (append_assoc xs ys zs)

pub append_nil : (xs : Items) → xs ++ [] ≡ xs
append_nil [] = refl
append_nil (x ∷ xs) = ap (λ (r : Items). x ∷ r) (append_nil xs)

-- Sorted items behind all others are read one after another.
pub insert_all-IsSorted :
    (acc kvs : Items) → IsBefore acc kvs → IsSorted kvs → insert_all acc kvs ≡ acc ++ kvs
unfolding insert_all
insert_all-IsSorted acc [] h s = sym (append_nil acc)
insert_all-IsSorted acc ((k, v) ∷ kvs) (b, h) (a, s) = rw (insert_item-end k v acc b) (
    insert_all-IsSorted (acc ++ (k, v) ∷ []) kvs (IsBefore-snoc acc kvs k v h a) s
    ∙ append_assoc acc ((k, v) ∷ []) kvs)
