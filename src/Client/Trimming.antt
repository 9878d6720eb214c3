-- ===== src/Client/Trimming.antt =====
-- src/client/cluster_client.cpp: the loop of `slice_rw` over a part of which some bytes are there
-- already.
use vitastor.Base.{
  ℕ, zero, suc, ◌+◌, ◌-◌, ◌*◌, ◌≤◌, ◌<◌, ◌≡◌, refl, subst, sym, ap, ◌∙◌, inl, inr, Bool, true,
  false, not, ◌&&◌, ◌||◌, List, [], ◌∷◌, ◌++◌, Option, none, some, ltb, ◌==◌, if◌then◌else◌, arith,
  lt→ltb, ltb→lt, Bool-cases,
}
use native.Mathlib.Decide.{dec_lt}
use native.Mathlib.Nat.{suc-mul, le-mul_of_pos_right}
use vitastor.Client.Slices.{
  Piece, user, scrap, add_iov, Trim, turn, trim_step, trim_loop, trim_end, trim_part,
}
use vitastor.Client.Pieces.{
  piece_byte, pieces_size, pieces_size-append, piece_byte-append, part_byte, add_iov_pos,
  add_iov_none,
}

module _ (present : ℕ → Bool) (begin0 pos0 : ℕ) where
  -- What a byte of the part is to be read into.
  abbrev pub wanted : ℕ → Option ℕ
  wanted x = if present x then none else some (pos0 + (x - begin0))

  -- The bytes from `begin` to `end` have their buffers, and those before `begin` are there.
  record IsBuilt (begin end pos : ℕ) (iov : List Piece) : Type 0 where
    pub low : begin0 ≤ begin
    pub high : begin ≤ end
    pub moved : pos ≡ pos0 + (end - begin0)
    pub size : pieces_size iov ≡ end - begin
    pub cells : (x : ℕ) → begin0 ≤ x → x < end → part_byte begin end iov x ≡ wanted x

  -- The bytes from `prev` to `cur` are there, or none of them is.
  abbrev IsRun : ℕ → ℕ → Bool → Type 0
  IsRun prev cur skip = (x : ℕ) → prev ≤ x → x < cur → present x ≡ skip

  -- One more buffer, for the bytes of a run.
  append-IsBuilt :
      (begin prev cur pos : ℕ) (iov : List Piece) (p : Piece)
      → IsBuilt begin prev pos iov
      → prev ≤ cur
      → pieces_size (p ∷ []) ≡ cur - prev
      → ((x : ℕ) → prev ≤ x → x < cur → piece_byte (p ∷ []) (x - prev) ≡ wanted x)
      → IsBuilt begin cur (pos + (cur - prev)) (iov ++ p ∷ [])
  append-IsBuilt begin prev cur pos iov p b l size here = record {
    low = b.low;
    high = omega (arith, b.high);
    moved = omega (arith, b.moved, b.high, b.low);
    size = omega (arith, pieces_size-append iov (p ∷ []), size, b.size, b.high);
    cells = λ x begins ends. cell x begins ends;
  }
    where
      cell : (x : ℕ) → begin0 ≤ x → x < cur → part_byte begin cur (iov ++ p ∷ []) x ≡ wanted x
      cell x begins ends =
          let both = piece_byte-append iov (p ∷ []) (x - begin) in
          elim (dec_lt x prev) [
            | yes y ↦ ground (arith, both, b.cells x begins y, b.size, b.high, y, ends)
            | no n ↦
                let e : x - begin - pieces_size iov ≡ x - prev = omega (arith, b.size, b.high) in
                ground (arith, rw e at both, here x (omega arith) ends, b.size, b.high, n, ends)
          ]

  add_iov-IsBuilt :
      (begin prev cur pos scrap_len : ℕ) (iov : List Piece) (skip : Bool)
      → IsBuilt begin prev pos iov
      → IsRun prev cur skip
      → prev < cur
      → 0 < scrap_len
      → IsBuilt begin cur
          (add_iov (cur - prev) skip pos iov scrap_len).0
          (add_iov (cur - prev) skip pos iov scrap_len).1
  unfolding add_iov pieces_size piece_byte
  add_iov-IsBuilt begin prev cur pos scrap_len iov false b run l k =
      let e : (cur - prev == 0) ≡ false = ground arith in
      rw e (
        append-IsBuilt begin prev cur pos iov (user pos (cur - prev)) b (omega arith) (omega arith)
          (λ x low high. ground (arith, run x low high, b.moved, b.high, b.low)))
  add_iov-IsBuilt begin prev cur pos scrap_len iov true b run l k =
      let e : (cur - prev == 0) ≡ false = ground arith in
      rw (e, lt→ltb 0 scrap_len k)
        (append-IsBuilt begin prev cur pos iov (scrap (cur - prev)) b (omega arith) (omega arith)
          (λ x low high. ground (arith, run x low high)))

  -- Bytes that are there at the front move the begin.
  skip_front-IsBuilt :
      (begin prev cur pos : ℕ) (iov : List Piece)
      → IsBuilt begin prev pos iov
      → IsRun prev cur true
      → prev < cur
      → prev ≡ begin
      → IsBuilt cur cur
          (add_iov (cur - prev) true pos iov 0).0
          (add_iov (cur - prev) true pos iov 0).1
  unfolding add_iov
  skip_front-IsBuilt begin prev cur pos iov b run l e = record {
    low = omega (arith, b.low);
    high = omega arith;
    moved = omega (arith, b.moved, b.high, b.low);
    size = ground (arith, b.size);
    cells = λ x begins ends. front x begins ends;
  }
    where
      front :
          (x : ℕ)
          → begin0 ≤ x
          → x < cur
          → part_byte cur cur (add_iov (cur - prev) true pos iov 0).1 x ≡ wanted x
      front x begins ends = elim (dec_lt x prev) [
        | yes y ↦ ground (arith, b.cells x begins y)
        | no n ↦ ground (arith, run x (omega arith) ends)
      ]

  -- What holds before each round of the loop.
  record IsTrim (cur : ℕ) (t : Trim) : Type 0 where
    pub built : IsBuilt t.begin t.prev t.pos t.iov
    pub ahead : t.prev ≤ cur
    pub run : IsRun t.prev cur t.skip_prev

  turn-IsBuilt :
      (scrap_len cur : ℕ) (skip : Bool) (t : Trim)
      → 0 < scrap_len
      → IsTrim cur t
      → IsBuilt
          (turn scrap_len skip cur t).begin
          cur
          (turn scrap_len skip cur t).pos
          (turn scrap_len skip cur t).iov
  unfolding turn
  turn-IsBuilt scrap_len cur skip t k v = elim (Bool-cases (ltb t.prev cur)) [
    | inr stays ↦
        let e : t.prev ≡ cur = ground (arith, stays, v.ahead) in
        rw stays (subst (λ c. IsBuilt t.begin c t.pos t.iov) e v.built)
    | inl moves ↦
        let l = ltb→lt t.prev cur moves in
        elim (Bool-cases (t.prev == t.begin && t.skip_prev)) [
          | inr inner ↦
              rw (moves, inner)
                (add_iov-IsBuilt t.begin t.prev cur t.pos scrap_len t.iov t.skip_prev v.built v.run
                  l k)
          | inl front ↦
              let there : t.skip_prev ≡ true = ground (arith, front) in
              let e : t.prev ≡ t.begin = ground (arith, front) in
              rw (moves, front)
                (skip_front-IsBuilt t.begin t.prev cur t.pos t.iov v.built
                  (λ x low high. v.run x low high ∙ there) l e)
        ]
  ]

  turn_prev :
      (scrap_len cur : ℕ) (skip : Bool) (t : Trim)
      → ((turn scrap_len skip cur t).prev ≡ cur) × ((turn scrap_len skip cur t).skip_prev ≡ skip)
  unfolding turn
  turn_prev scrap_len cur skip t = ground arith

  -- All bytes of a granule are there, or none is.
  abbrev pub IsGranule : ℕ → ℕ → Type 0
  IsGranule granularity cur = (x : ℕ) → cur ≤ x → x < cur + granularity → present x ≡ present cur

  trim_step-IsTrim :
      (granularity scrap_len cur : ℕ) (t : Trim)
      → 0 < scrap_len
      → IsGranule granularity cur
      → IsTrim cur t
      → IsTrim (cur + granularity) (trim_step present scrap_len cur t)
  unfolding trim_step
  trim_step-IsTrim g scrap_len cur t k same v =
      elim (Bool-cases (t.skip_prev && present cur || not t.skip_prev && not (present cur))) [
        | inl goes_on ↦
            let e : present cur ≡ t.skip_prev = ground (arith, goes_on) in
            rw goes_on record {
              built = v.built;
              ahead = omega (arith, v.ahead);
              run = λ x low high. elim (dec_lt x cur) [
                | yes y ↦ v.run x low y
                | no n ↦ same x (omega arith) high ∙ e
              ];
            }
        | inr turns ↦
            let (at, kind) = turn_prev scrap_len cur (present cur) t in
            rw turns record {
              built =
                  subst
                    (λ c.
                      IsBuilt (turn scrap_len (present cur) cur t).begin c
                        (turn scrap_len (present cur) cur t).pos
                        (turn scrap_len (present cur) cur t).iov)
                    (sym at) (turn-IsBuilt scrap_len cur (present cur) t k v);
              ahead = omega (arith, at);
              run = λ x low high. same x (omega (arith, at)) high ∙ sym kind;
            }
      ]

  trim_loop-IsTrim :
      (granularity scrap_len n j cur end : ℕ) (t : Trim)
      → 0 < scrap_len
      → 0 < granularity
      → ((i : ℕ) → i < j → IsGranule granularity (cur + i * granularity))
      → cur + j * granularity ≡ end
      → j ≤ n
      → IsTrim cur t
      → (u : Trim) × (trim_loop present granularity scrap_len n cur end t ≡ (u, end)) × IsTrim end u
  unfolding trim_loop
  trim_loop-IsTrim g scrap_len zero zero cur end t k p same e l v =
      let c : cur ≡ end = omega (arith, e) in (t, ap (λ y. (t, y)) c, subst (λ y. IsTrim y t) c v)
  trim_loop-IsTrim g scrap_len (suc n) zero cur end t k p same e l v =
      let c : cur ≡ end = omega (arith, e) in
      let stop : ltb cur end ≡ false = ground (arith, c) in
      (t, rw stop (ap (λ y. (t, y)) c), subst (λ y. IsTrim y t) c v)
  trim_loop-IsTrim g scrap_len zero (suc j) cur end t k p same e l v = absurd (omega arith)
  trim_loop-IsTrim g scrap_len (suc n) (suc j) cur end t k p same e l v =
      let first : IsGranule g cur = subst (IsGranule g) (omega arith) (same 0 (omega arith)) in
      let later : (i : ℕ) → i < j → IsGranule g (cur + g + i * g) =
        λ i l. subst (IsGranule g) (omega (arith, suc-mul i g)) (same (suc i) (omega arith)) in
      let go : ltb cur end ≡ true = ground (arith, e, suc-mul j g) in
      let (u, run, done) =
        trim_loop-IsTrim g scrap_len n j (cur + g) end (trim_step present scrap_len cur t) k p later
          (omega (arith, e, suc-mul j g)) (omega arith)
          (trim_step-IsTrim g scrap_len cur t k first v) in
      (u, rw go run, done)

  -- The bounds and buffers that a part is cut down to.
  pub record IsCut (begin end : ℕ) (r : ℕ × ℕ × ℕ × List Piece) : Type 0 where
    pub from : begin ≤ r.0
    pub order : r.0 ≤ r.1
    pub to : r.1 ≤ end
    pub next : r.2 ≡ pos0 + (end - begin)
    pub size : pieces_size r.3 ≡ r.1 - r.0
    pub cells : (x : ℕ) → begin ≤ x → x < end → part_byte r.0 r.1 r.3 x ≡ wanted x

  start_IsTrim :
      IsTrim begin0
        (record { begin = begin0; prev = begin0; skip_prev = true; pos = pos0; iov = [] })
  unfolding pieces_size
  start_IsTrim = record {
    built = record {
      low = omega arith;
      high = omega arith;
      moved = omega arith;
      size = omega arith;
      cells = λ x low high. absurd (omega (arith, low, high));
    };
    ahead = omega arith;
    run = λ x low high. absurd (omega (arith, low, high));
  }

  add_nothing :
      (begin prev pos scrap_len : ℕ) (iov : List Piece)
      → IsBuilt begin prev pos iov
      → IsBuilt begin prev
          (add_iov (prev - prev) false pos iov scrap_len).0
          (add_iov (prev - prev) false pos iov scrap_len).1
  unfolding add_iov
  add_nothing begin prev pos scrap_len iov b =
      let e : prev - prev ≡ 0 = omega arith in let f : pos + 0 ≡ pos = omega arith in rw (e, f) b

  trim_end-IsCut :
      (scrap_len end : ℕ) (t : Trim)
      → 0 < scrap_len
      → IsTrim end t
      → IsCut begin0 end (trim_end scrap_len end t end)
  unfolding trim_end
  trim_end-IsCut scrap_len end t k v = elim (Bool-cases t.skip_prev) [
    | inl there ↦ rw there record {
      from = v.built.low;
      order = v.built.high;
      to = v.ahead;
      next = omega (
        arith,
        add_iov_pos (end - t.prev) true t.pos 0 t.iov,
        v.built.moved,
        v.built.low,
        v.built.high,
        v.ahead,
      );
      size = ap pieces_size (add_iov_none (end - t.prev) t.pos t.iov) ∙ v.built.size;
      cells = λ x low high. elim (dec_lt x t.prev) [
        | yes y ↦ rw (add_iov_none (end - t.prev) t.pos t.iov) (v.built.cells x low y)
        | no n ↦ ground (arith, v.run x (omega arith) high, there, n)
      ];
    }
    | inr missing ↦ rw missing (whole (last (ltb t.prev end) refl missing))
  ]
    where
      whole :
          {pos : ℕ} {iov : List Piece}
          → IsBuilt t.begin end pos iov
          → IsCut begin0 end (t.begin, end, pos, iov)
      whole b = record {
        from = b.low;
        order = b.high;
        to = omega arith;
        next = b.moved;
        size = b.size;
        cells = b.cells;
      }

      last :
          (b : Bool)
          → ltb t.prev end ≡ b
          → t.skip_prev ≡ false
          → IsBuilt t.begin end
              (add_iov (end - t.prev) false t.pos t.iov scrap_len).0
              (add_iov (end - t.prev) false t.pos t.iov scrap_len).1
      last true l m =
          add_iov-IsBuilt t.begin t.prev end t.pos scrap_len t.iov false v.built
            (λ x low high. v.run x low high ∙ m) (ltb→lt t.prev end l) k
      last false l m =
          let e : t.prev ≡ end = ground (arith, l, v.ahead) in
          rw (sym e) (add_nothing t.begin t.prev t.pos scrap_len t.iov v.built)

-- The part of a stripe that `trim_part` leaves: it lies between the bounds, its buffers are as long as it
-- is, and they take each byte that is not there to its place in the operation's buffers.
pub trim_part-IsCut :
    (present : ℕ → Bool) (granularity scrap_len begin end pos j : ℕ)
    → 0 < scrap_len
    → 0 < granularity
    → ((i : ℕ) → i < j → IsGranule present begin pos granularity (begin + i * granularity))
    → begin + j * granularity ≡ end
    → IsCut present begin pos begin end (trim_part present granularity scrap_len begin end pos)
unfolding trim_part add_iov
trim_part-IsCut present g scrap_len begin end pos j k p same e =
    let l : j ≤ end - begin = omega (arith, e, le-mul_of_pos_right j p) in
    let (t, run, v) =
      trim_loop-IsTrim present begin pos g scrap_len (end - begin) j begin end
        (record { begin = begin; prev = begin; skip_prev = true; pos = pos; iov = [] }) k p same e l
        (start_IsTrim present begin pos) in
    rw run (trim_end-IsCut present begin pos scrap_len end t k v)
