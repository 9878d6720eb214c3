-- ===== src/Kv/Serialized.antt =====
-- src/kv/kv_db.cpp: the whole buffer that `serialize` leaves.
use vitastor.Base.{
  ℕ, ◌+◌, ◌≤◌, ◌<◌, ◌≡◌, ◌⊎◌, refl, subst, ◌∙◌, inl, inr, Bool, true, false, List, [], ◌++◌, Option,
  none, some, ltb, length, length-append, if◌then◌else◌, ◌>>=◌, arith, Bool-cases,
}
use vitastor.Memory.{Memory}
use vitastor.Journal.Entries.{store}
use vitastor.Kv.{Str, kv_block_magic, header_size, KvBlock, is_split_type, write_string}
use vitastor.Kv.Format.{
  is_split, is_clear_right, new_type, write_right, write_items, write_body, serialize,
}
use vitastor.Kv.Buffer.{
  Holds, number_bytes, string_bytes, length-number_bytes, Holds-append, Holds-same, store-away,
  store-Holds,
}
use vitastor.Kv.Stored.{
  IsWritten, Outcome, OutcomeItems, items_bytes, bytes_assoc, bytes_nil, written_items, Outcome->>=,
  Outcome-items, write_string-Outcome, write_items-OutcomeItems,
}

-- The right end of the keys, the right half and its block, as they are stored.
abbrev pub stored_lt : KvBlock → Str
stored_lt b = if is_clear_right b.change_type then b.right_half else b.key_lt

abbrev pub stored_rh : KvBlock → Str
stored_rh b = if is_split b.change_type then b.change_rh else b.right_half

abbrev pub stored_rh_block : KvBlock → ℕ
stored_rh_block b = if is_split b.change_type then b.change_rh_block else b.right_half_block

unfoldable pub right_bytes : Bool → Str → ℕ → List ℕ
right_bytes true rh block = string_bytes rh ++ number_bytes 8 block
right_bytes false rh block = []

-- The bytes of a block behind the header
abbrev pub stored_bytes : KvBlock → List ℕ
stored_bytes b =
    string_bytes b.key_ge
    ++ (string_bytes (stored_lt b)
        ++ (right_bytes (is_split_type (new_type b)) (stored_rh b) (stored_rh_block b)
            ++ items_bytes (written_items b)))

module _ (size : ℕ) (m0 : Memory) where
  write_block_ref :
      (v : ℕ) (acc : List ℕ) (w : Memory × ℕ)
      → IsWritten m0 acc w
      → Outcome size m0
          (acc ++ number_bytes 8 v)
          (if ltb size (w.1 + 8) then none else some (store 8 w.1 v w.0, w.1 + 8))
  write_block_ref v acc (m, pos) (holds, at, head) =
      let total = length-append {0} acc (number_bytes 8 v) in
      let eight = length-number_bytes 8 v in
      elim (Bool-cases (ltb size (pos + 8))) [
        | inl y ↦ inl (rw y refl, ground (arith, y, at, total, eight))
        | inr n ↦
            let before : (x : ℕ) → x < pos → store 8 pos v m x ≡ m x =
              λ x l. store-away 8 pos v x m (inl l) in
            inr (
              (store 8 pos v m, pos + 8),
              rw n refl,
              (
                Holds-append (store 8 pos v m) header_size acc (number_bytes 8 v)
                    (Holds-same m (store 8 pos v m) header_size acc
                      (λ x l u. before x (omega (arith, u, at))) holds)
                    (subst (λ a. Holds (store 8 pos v m) a (number_bytes 8 v)) at
                      (store-Holds 8 pos v m)),
                omega (arith, at, total, eight),
                λ x l. before x (omega (arith, l, at)) ∙ head x l,
              ),
              ground (arith, n, at, total, eight),
            )
      ]

  write_right-Outcome :
      (b : KvBlock) (acc : List ℕ) (w : Memory × ℕ)
      → IsWritten m0 acc w
      → header_size + length acc ≤ size
      → Outcome size m0
          (acc ++ right_bytes (is_split_type (new_type b)) (stored_rh b) (stored_rh_block b))
          (write_right b size w)
  unfolding write_right right_bytes
  write_right-Outcome b acc w written fits = elim (Bool-cases (is_split_type (new_type b))) [
    | inr n ↦ let e = bytes_nil acc in rw n (inr (w, refl, rw e written, rw e fits))
    | inl y ↦
        rw (y, ← bytes_assoc acc (string_bytes (stored_rh b)) (number_bytes 8 (stored_rh_block b)))
          (Outcome->>= size m0 (acc ++ string_bytes (stored_rh b))
            (number_bytes 8 (stored_rh_block b)) (write_string size (stored_rh b) w)
            (λ v.
              if ltb size (v.1 + 8)
              then none
              else some (store 8 v.1 (stored_rh_block b) v.0, v.1 + 8))
            (write_string-Outcome size m0 (stored_rh b) acc w written)
            (λ v kept room.
              write_block_ref (stored_rh_block b) (acc ++ string_bytes (stored_rh b)) v kept))
  ]

  write_body-OutcomeItems :
      (b : KvBlock) (w : Memory × ℕ)
      → IsWritten m0 [] w
      → OutcomeItems size m0 (stored_bytes b) (length (written_items b)) (write_body b size w)
  unfolding write_body
  write_body-OutcomeItems b w written =
      let ge : List ℕ = string_bytes b.key_ge in
      let lt : List ℕ = string_bytes (stored_lt b) in
      let right : List ℕ =
        right_bytes (is_split_type (new_type b)) (stored_rh b) (stored_rh_block b) in
      let all : List ℕ = items_bytes (written_items b) in
      let n : ℕ = length (written_items b) in
      Outcome-items size m0 ge (lt ++ (right ++ all)) n (write_string size b.key_ge w)
        (λ u. write_string size (stored_lt b) u >>= λ l.
          write_right b size l >>= λ r. write_items b size (r, 0))
        (write_string-Outcome size m0 b.key_ge [] w written)
        (λ u kept room. rw (← bytes_assoc ge lt (right ++ all)) (
          Outcome-items size m0 (ge ++ lt) (right ++ all) n (write_string size (stored_lt b) u)
            (λ l. write_right b size l >>= λ r. write_items b size (r, 0))
            (write_string-Outcome size m0 (stored_lt b) ge u kept)
            (λ l kept room. rw (← bytes_assoc (ge ++ lt) right all) (
              Outcome-items size m0 ((ge ++ lt) ++ right) all n (write_right b size l)
                (λ r. write_items b size (r, 0)) (write_right-Outcome b (ge ++ lt) l kept room)
                (λ r kept room.
                  write_items-OutcomeItems size m0 b ((ge ++ lt) ++ right) r kept room)))))

-- The header of a stored block
abbrev pub HasHeader : Memory → ℕ → ℕ → ℕ → Type 0
HasHeader m size type count =
    Holds m 0 (number_bytes 8 kv_block_magic)
    × Holds m 8 (number_bytes 4 size)
    × Holds m 12 (number_bytes 4 type)
    × Holds m 16 (number_bytes 8 count)

-- The result of `serialize`: no bytes because they do not fit, or the header and all bytes.
abbrev pub IsSerialized : KvBlock → ℕ → Option Memory → Type 0
IsSerialized b size o =
    ((o ≡ none) × (size < header_size + length (stored_bytes b)))
    ⊎ ((m : Memory) × (o ≡ some m)
        × HasHeader m size (new_type b) (length (written_items b))
        × Holds m header_size (stored_bytes b)
        × (header_size + length (stored_bytes b) ≤ size))

-- serialize fails if and only if the bytes of the block do not fit, and else it leaves all of them.
pub serialize-IsSerialized :
    (b : KvBlock) (m : Memory) (size : ℕ) → IsSerialized b size (serialize b m size)
unfolding serialize
serialize-IsSerialized b m size =
    let m1 : Memory = store 8 0 kv_block_magic m in
    let m2 : Memory = store 4 8 size m1 in
    let head : Memory = store 4 12 (new_type b) m2 in
    let count : ℕ = length (written_items b) in
    elim (write_body-OutcomeItems size head b (head, header_size) (tt, refl, λ x l. refl)) [
      | inl (e, l) ↦ inl (rw e refl, l)
      | inr (((m3, pos), n), e, (holds, at, same), fits, all) ↦
          let last : Memory = store 8 16 n m3 in
          let low : (x : ℕ) → x < 16 → last x ≡ head x =
            λ x l. store-away 8 16 n x m3 (inl l) ∙ same x (omega (arith, l)) in
          inr (
            last,
            rw e refl,
            (
              Holds-same m1 last 0 (number_bytes 8 kv_block_magic)
                  (λ x l u.
                    let eight = length-number_bytes 8 kv_block_magic in
                    low x (omega (arith, u, eight))
                    ∙ store-away 4 12 (new_type b) x m2 (inl (omega (arith, u, eight)))
                    ∙ store-away 4 8 size x m1 (inl (omega (arith, u, eight))))
                  (store-Holds 8 0 kv_block_magic m),
              Holds-same m2 last 8 (number_bytes 4 size)
                  (λ x l u.
                    let four = length-number_bytes 4 size in
                    low x (omega (arith, u, four))
                    ∙ store-away 4 12 (new_type b) x m2 (inl (omega (arith, u, four))))
                  (store-Holds 4 8 size m1),
              Holds-same head last 12 (number_bytes 4 (new_type b))
                  (λ x l u. low x (omega (arith, u, length-number_bytes 4 (new_type b))))
                  (store-Holds 4 12 (new_type b) m2),
              subst (λ k. Holds last 16 (number_bytes 8 k)) all (store-Holds 8 16 n m3),
            ),
            Holds-same m3 last header_size (stored_bytes b)
                (λ x l u. store-away 8 16 n x m3 (inr (omega (arith, l)))) holds,
            fits,
          )
    ]
