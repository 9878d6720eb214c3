-- ===== src/Kv/Stored.antt =====
-- src/kv/kv_db.cpp: what `serialize` leaves in the buffer, and where it fails.
use vitastor.Base.{
  ℕ, ◌+◌, ◌≤◌, ◌<◌, ◌≡◌, ◌⊎◌, refl, sym, ap, subst, ◌∙◌, inl, inr, Bool, true, false, not, ◌&&◌,
  ◌||◌, List, [], ◌∷◌, ◌++◌, Option, none, some, ltb, ◌==◌, length, length-append, if◌then◌else◌,
  ◌>>=◌, arith, Bool-cases,
}
use vitastor.Memory.{Memory}
use vitastor.Journal.Entries.{store}
use vitastor.Kv.{Str, str_eq, header_size, KvBlock, write_string, store_bytes}
use vitastor.Kv.Format.{
  is_add, is_del, Writing, write_item, write_entry, write_from, old_item, end_item, write_items,
}
use vitastor.Kv.Items.{Items}
use vitastor.Kv.Left.{ItemChange, entry_items, written_from, written_last}
use vitastor.Kv.Buffer.{
  Holds, number_bytes, string_bytes, length-number_bytes, length-string_bytes, Holds-append,
  Holds-same, store-away, store-Holds, store_bytes-away, store_bytes-Holds,
}

-- The bytes written so far, behind the header, which is as it was.
abbrev pub IsWritten : Memory → List ℕ → Memory × ℕ → Type 0
IsWritten m0 acc w =
    Holds w.0 header_size acc
    × (w.1 ≡ header_size + length acc)
    × ((x : ℕ) → x < header_size → w.0 x ≡ m0 x)

-- The bytes do not fit, or they are written.
abbrev pub Outcome : ℕ → Memory → List ℕ → Option (Memory × ℕ) → Type 0
Outcome size m0 acc o =
    ((o ≡ none) × (size < header_size + length acc))
    ⊎ ((w : Memory × ℕ) × (o ≡ some w) × IsWritten m0 acc w × (header_size + length acc ≤ size))

-- The same with the number of items
abbrev pub OutcomeItems : ℕ → Memory → List ℕ → ℕ → Option Writing → Type 0
OutcomeItems size m0 acc n o =
    ((o ≡ none) × (size < header_size + length acc))
    ⊎ ((w : Writing) × (o ≡ some w)
        × IsWritten m0 acc w.0
        × (header_size + length acc ≤ size)
        × (w.1 ≡ n))

-- The bytes of items one after another
unfoldable pub items_bytes : Items → List ℕ
items_bytes [] = []
items_bytes ((key, value) ∷ kvs) = (string_bytes key ++ string_bytes value) ++ items_bytes kvs

pub bytes_assoc : (xs ys zs : List ℕ) → (xs ++ ys) ++ zs ≡ xs ++ (ys ++ zs)
bytes_assoc [] ys zs = refl
bytes_assoc (x ∷ xs) ys zs = ap (λ (r : List ℕ). x ∷ r) (bytes_assoc xs ys zs)

pub bytes_nil : (xs : List ℕ) → xs ++ [] ≡ xs
bytes_nil [] = refl
bytes_nil (x ∷ xs) = ap (λ (r : List ℕ). x ∷ r) (bytes_nil xs)

pub items_bytes-append : (xs ys : Items) → items_bytes (xs ++ ys) ≡ items_bytes xs ++ items_bytes ys
unfolding items_bytes
items_bytes-append [] ys = refl
items_bytes-append ((k, v) ∷ xs) ys =
    ap (λ (r : List ℕ). (string_bytes k ++ string_bytes v) ++ r) (items_bytes-append xs ys)
    ∙ sym (bytes_assoc (string_bytes k ++ string_bytes v) (items_bytes xs) (items_bytes ys))

-- The change of an item that a block is to make
abbrev pub change_of : KvBlock → ItemChange
change_of b = record {
  add = is_add b.change_type;
  del = is_del b.change_type;
  key = b.change_key;
  value = b.change_value;
}

-- The items that `serialize` writes
abbrev pub written_items : KvBlock → Items
written_items b =
    written_from (change_of b) (old_item b) (end_item b) 0 b.items
    ++ written_last (change_of b) (old_item b) (end_item b)

module _ (size : ℕ) (m0 : Memory) where
  pub Outcome->>= :
      (acc more : List ℕ) (o : Option (Memory × ℕ)) (f : Memory × ℕ → Option (Memory × ℕ))
      → Outcome size m0 acc o
      → ((w : Memory × ℕ)
          → IsWritten m0 acc w
          → header_size + length acc ≤ size
          → Outcome size m0 (acc ++ more) (f w))
      → Outcome size m0 (acc ++ more) (o >>= f)
  Outcome->>= acc more o f (inl (e, l)) go =
      inl (rw e refl, omega (arith, l, length-append {0} acc more))
  Outcome->>= acc more o f (inr (w, e, written, fits)) go = rw e (go w written fits)

  OutcomeItems->>= :
      (acc more : List ℕ) (n k : ℕ) (o : Option Writing) (f : Writing → Option Writing)
      → OutcomeItems size m0 acc n o
      → ((w : Writing)
          → IsWritten m0 acc w.0
          → header_size + length acc ≤ size
          → w.1 ≡ n
          → OutcomeItems size m0 (acc ++ more) k (f w))
      → OutcomeItems size m0 (acc ++ more) k (o >>= f)
  OutcomeItems->>= acc more n k o f (inl (e, l)) go =
      inl (rw e refl, omega (arith, l, length-append {0} acc more))
  OutcomeItems->>= acc more n k o f (inr (w, e, written, fits, count)) go =
      rw e (go w written fits count)

  pub write_string-Outcome :
      (s : Str) (acc : List ℕ) (w : Memory × ℕ)
      → IsWritten m0 acc w
      → Outcome size m0 (acc ++ string_bytes s) (write_string size s w)
  unfolding write_string string_bytes
  write_string-Outcome s acc (m, pos) (holds, at, head) =
      let total = length-append {0} acc (string_bytes s) in
      let four = length-number_bytes 4 (length s) in
      let all = length-string_bytes s in
      let m1 : Memory = store 4 pos (length s) m in
      let m2 : Memory = store_bytes (pos + 4) s m1 in
      elim (Bool-cases (ltb size (pos + length s + 4))) [
        | inl y ↦ inl (rw y refl, ground (arith, y, at, total, all))
        | inr n ↦
            let before : (x : ℕ) → x < pos → m2 x ≡ m x = λ x l.
              store_bytes-away (pos + 4) x s m1 (inl (omega arith))
              ∙ store-away 4 pos (length s) x m (inl l) in
            let number : Holds m2 pos (number_bytes 4 (length s)) =
              Holds-same m1 m2 pos (number_bytes 4 (length s))
                (λ x l u. store_bytes-away (pos + 4) x s m1 (inl (omega (arith, u, four))))
                (store-Holds 4 pos (length s) m) in
            let chars : Holds m2 (pos + length (number_bytes 4 (length s))) s =
              subst (λ a. Holds m2 a s) (omega (arith, four)) (store_bytes-Holds (pos + 4) s m1) in
            inr (
              (m2, pos + 4 + length s),
              rw n refl,
              (
                Holds-append m2 header_size acc (string_bytes s)
                    (Holds-same m m2 header_size acc (λ x l u. before x (omega (arith, u, at)))
                      holds)
                    (subst (λ a. Holds m2 a (string_bytes s)) at
                      (Holds-append m2 pos (number_bytes 4 (length s)) s number chars)),
                omega (arith, at, total, all),
                λ x l. before x (omega (arith, l, at)) ∙ head x l,
              ),
              ground (arith, n, at, total, all),
            )
      ]

  pub Outcome-items :
      (acc more : List ℕ) (k : ℕ) (o : Option (Memory × ℕ)) (f : Memory × ℕ → Option Writing)
      → Outcome size m0 acc o
      → ((w : Memory × ℕ)
          → IsWritten m0 acc w
          → header_size + length acc ≤ size
          → OutcomeItems size m0 (acc ++ more) k (f w))
      → OutcomeItems size m0 (acc ++ more) k (o >>= f)
  Outcome-items acc more k o f (inl (e, l)) go =
      inl (rw e refl, omega (arith, l, length-append {0} acc more))
  Outcome-items acc more k o f (inr (w, e, written, fits)) go = rw e (go w written fits)

  counted :
      (acc : List ℕ) (n : ℕ) (o : Option (Memory × ℕ))
      → Outcome size m0 acc o
      → OutcomeItems size m0 acc n (o >>= λ u. some (u, n))
  counted acc n o (inl (e, l)) = inl (rw e refl, l)
  counted acc n o (inr (w, e, written, fits)) = inr ((w, n), rw e refl, written, fits, refl)

  write_item-OutcomeItems :
      (key value : Str) (acc : List ℕ) (n : ℕ) (w : Writing)
      → IsWritten m0 acc w.0
      → w.1 ≡ n
      → OutcomeItems size m0
          (acc ++ items_bytes ((key, value) ∷ []))
          (n + 1)
          (write_item size key value w)
  unfolding write_item items_bytes
  write_item-OutcomeItems key value acc n (w, c) written count =
      let e : (acc ++ string_bytes key) ++ string_bytes value
          ≡ acc ++ ((string_bytes key ++ string_bytes value) ++ []) =
        bytes_assoc acc (string_bytes key) (string_bytes value)
        ∙ ap (λ (t : List ℕ). acc ++ t)
            (sym (bytes_nil (string_bytes key ++ string_bytes value))) in
      subst (λ t. OutcomeItems size m0 t (n + 1) (write_item size key value (w, c))) e
        (Outcome-items (acc ++ string_bytes key) (string_bytes value) (n + 1)
          (write_string size key w) (λ v. write_string size value v >>= λ u. some (u, c + 1))
          (write_string-Outcome key acc w written)
          (λ v kept fits. rw count (
            counted ((acc ++ string_bytes key) ++ string_bytes value) (n + 1)
              (write_string size value v)
              (write_string-Outcome value (acc ++ string_bytes key) v kept))))

  -- An item that a test lets through
  abbrev one_if : Bool → Str → Str → Items
  one_if b key value = if b then (key, value) ∷ [] else []

  one_if-OutcomeItems :
      (b : Bool) (key value : Str) (acc : List ℕ) (n : ℕ) (w : Writing)
      → IsWritten m0 acc w.0
      → header_size + length acc ≤ size
      → w.1 ≡ n
      → OutcomeItems size m0
          (acc ++ items_bytes (one_if b key value))
          (n + length (one_if b key value))
          (if b then write_item size key value w else some w)
  unfolding items_bytes
  one_if-OutcomeItems true key value acc n w written fits count =
      write_item-OutcomeItems key value acc n w written count
  one_if-OutcomeItems false key value acc n w written fits count =
      let e = bytes_nil acc in inr (w, refl, rw e written, rw e fits, omega (arith, count))

  -- Two steps that write items, one after the other
  both-OutcomeItems :
      (acc : List ℕ) (xs ys : Items) (n : ℕ) (o : Option Writing) (f : Writing → Option Writing)
      → OutcomeItems size m0 (acc ++ items_bytes xs) (n + length xs) o
      → ((w : Writing)
          → IsWritten m0 (acc ++ items_bytes xs) w.0
          → header_size + length (acc ++ items_bytes xs) ≤ size
          → w.1 ≡ n + length xs
          → OutcomeItems size m0
              ((acc ++ items_bytes xs) ++ items_bytes ys)
              (n + length xs + length ys)
              (f w))
      → OutcomeItems size m0 (acc ++ items_bytes (xs ++ ys)) (n + length (xs ++ ys)) (o >>= f)
  both-OutcomeItems acc xs ys n o f first go =
      let e : (acc ++ items_bytes xs) ++ items_bytes ys ≡ acc ++ items_bytes (xs ++ ys) =
        bytes_assoc acc (items_bytes xs) (items_bytes ys)
        ∙ ap (λ (t : List ℕ). acc ++ t) (sym (items_bytes-append xs ys)) in
      let k : n + length xs + length ys ≡ n + length (xs ++ ys) =
        omega (arith, length-append {0} xs ys) in
      rw (← e, ← k)
        (OutcomeItems->>= (acc ++ items_bytes xs) (items_bytes ys) (n + length xs)
          (n + length xs + length ys) o f first go)

  write_entry-OutcomeItems :
      (b : KvBlock) (at_old : Bool) (key value : Str) (acc : List ℕ) (n : ℕ) (w : Writing)
      → IsWritten m0 acc w.0
      → header_size + length acc ≤ size
      → w.1 ≡ n
      → OutcomeItems size m0
          (acc ++ items_bytes (entry_items (change_of b) at_old key value))
          (n + length (entry_items (change_of b) at_old key value))
          (write_entry b size at_old key value w)
  unfolding write_entry
  write_entry-OutcomeItems b at_old key value acc n w written fits count =
      let t : Bool = not (is_del b.change_type) || not at_old || not (str_eq key b.change_key) in
      let u : Bool = is_add b.change_type && at_old in
      both-OutcomeItems acc (one_if t key value) (one_if u b.change_key b.change_value) n
        (if t then write_item size key value w else some w)
        (λ v. if u then write_item size b.change_key b.change_value v else some v)
        (one_if-OutcomeItems t key value acc n w written fits count)
        (λ v kept room number.
          one_if-OutcomeItems u b.change_key b.change_value
            (acc ++ items_bytes (one_if t key value)) (n + length (one_if t key value)) v kept room
            number)

  write_from-OutcomeItems :
      (b : KvBlock) (old_it end_it i : ℕ) (kvs : Items) (acc : List ℕ) (n : ℕ) (w : Writing)
      → IsWritten m0 acc w.0
      → header_size + length acc ≤ size
      → w.1 ≡ n
      → OutcomeItems size m0
          (acc ++ items_bytes (written_from (change_of b) old_it end_it i kvs))
          (n + length (written_from (change_of b) old_it end_it i kvs))
          (write_from b size old_it end_it i kvs w)
  unfolding write_from written_from
  write_from-OutcomeItems b old_it end_it i [] acc n w written fits count =
      one_if-OutcomeItems false [] [] acc n w written fits count
  write_from-OutcomeItems b old_it end_it i ((k, v) ∷ kvs) acc n w written fits count =
      let rest : Items = written_from (change_of b) old_it end_it (i + 1) kvs in
      let first : Items = entry_items (change_of b) (i == old_it) k v in
      elim (Bool-cases (i == end_it)) [
        | inl y ↦ rw y (one_if-OutcomeItems false [] [] acc n w written fits count)
        | inr m ↦ rw m (
            both-OutcomeItems acc first rest n (write_entry b size (i == old_it) k v w)
              (λ t. write_from b size old_it end_it (i + 1) kvs t)
              (write_entry-OutcomeItems b (i == old_it) k v acc n w written fits count)
              (λ t kept room number.
                write_from-OutcomeItems b old_it end_it (i + 1) kvs (acc ++ items_bytes first)
                  (n + length first) t kept room number))
      ]

  pub write_items-OutcomeItems :
      (b : KvBlock) (acc : List ℕ) (w : Memory × ℕ)
      → IsWritten m0 acc w
      → header_size + length acc ≤ size
      → OutcomeItems size m0
          (acc ++ items_bytes (written_items b))
          (length (written_items b))
          (write_items b size (w, 0))
  unfolding write_items
  write_items-OutcomeItems b acc w written fits =
      let t : Bool = is_add b.change_type && end_item b == old_item b in
      let first : Items = written_from (change_of b) (old_item b) (end_item b) 0 b.items in
      let none : 0 + length (written_items b) ≡ length (written_items b) = omega arith in
      rw (← none) (
        both-OutcomeItems acc first (one_if t b.change_key b.change_value) 0
          (write_from b size (old_item b) (end_item b) 0 b.items (w, 0))
          (λ v. if t then write_item size b.change_key b.change_value v else some v)
          (write_from-OutcomeItems b (old_item b) (end_item b) 0 b.items acc 0 (w, 0) written fits
            refl)
          (λ v kept room number.
            one_if-OutcomeItems t b.change_key b.change_value (acc ++ items_bytes first)
              (0 + length first) v kept room number))
