-- ===== src/Rmw/Plan.antt =====
-- src/osd/osd_rmw.cpp: `calc_rmw`, which plans what an update of an erasure-coded object reads and
-- writes.
use vitastor.Base.{
  ℕ, zero, suc, ◌+◌, ◌-◌, ◌%◌, ◌^◌, max, Bool, true, not, ◌&&◌, ◌||◌, List, [], ◌∷◌, Option, none,
  some, ltb, leb, ◌==◌, ◌!=◌, if◌then◌else◌, modify,
}
use vitastor.Base.Words.{uint32_max, add64, sub32, mul32}
use vitastor.Rmw.Stripes.{Stripe, stripe_at, osd_at, extend_read, cover_read, alloc_read_buffer}

-- `start` and `end`, the hull of the written ranges of the data stripes.
pub record Span : Type 0 where
  pub start : ℕ
  pub end : ℕ

abbrev pub set_write : ℕ → ℕ → Stripe → Stripe
set_write start end s = record s { write_start = start; write_end = end }

-- One round of the loop over the data stripes.
unfoldable pub widen_span : Stripe → Span → Span
widen_span s w =
    if s.req_end != 0
    then record {
      start = if w.end == 0 || ltb s.req_start w.start then s.req_start else w.start;
      end = max s.req_end w.end;
    }
    else w

unfoldable pub data_span : ℕ → List Stripe → Span → Span
data_span zero stripes w = w
data_span (suc n) [] w = w
data_span (suc n) (s ∷ stripes) w = data_span n stripes (widen_span s w)

unfoldable pub write_data : ℕ → List Stripe → List Stripe
write_data zero stripes = stripes
write_data (suc n) [] = []
write_data (suc n) (s ∷ stripes) =
    (if s.req_end != 0 then set_write s.req_start s.req_end s else s) ∷ write_data n stripes

-- The loop over the parity roles before one that moves, which get its range.
unfoldable pub rewrite_parity : ℕ → ℕ → List ℕ → Span → List Stripe → List Stripe
rewrite_parity zero r2 write_osd_set w stripes = stripes
rewrite_parity (suc n) r2 write_osd_set w stripes =
    rewrite_parity n (r2 + 1) write_osd_set w (
      if osd_at write_osd_set r2 != 0 then modify stripes r2 (set_write w.start w.end) else stripes)

-- One round of the loop over the parity stripes: the range, the stripes and `write_parity`.
pub record ParityPlan : Type 0 where
  pub span : Span
  pub stripes : List Stripe
  pub write_parity : ℕ

unfoldable pub plan_parity : ℕ → ℕ → ℕ → List ℕ → List ℕ → ParityPlan → ParityPlan
plan_parity role pg_minsize chunk_size read_osd_set write_osd_set p =
    if osd_at write_osd_set role != 0
    then (let whole : Span = record { start = 0; end = chunk_size % 2 ^ 32 } in
        let moves = osd_at write_osd_set role != osd_at read_osd_set role in
        let w = if moves then whole else p.span in
        let earlier =
          if moves
          then rewrite_parity (role - pg_minsize) pg_minsize write_osd_set w p.stripes
          else p.stripes in
        record {
          span = w;
          stripes = modify earlier role (set_write w.start w.end);
          write_parity = p.write_parity + 1;
        })
    else p

unfoldable pub plan_parities : ℕ → ℕ → ℕ → ℕ → List ℕ → List ℕ → ParityPlan → ParityPlan
plan_parities zero role pg_minsize chunk_size read_osd_set write_osd_set p = p
plan_parities (suc n) role pg_minsize chunk_size read_osd_set write_osd_set p =
    plan_parities n (role + 1) pg_minsize chunk_size read_osd_set write_osd_set
      (plan_parity role pg_minsize chunk_size read_osd_set write_osd_set p)

-- What has to be read of a data stripe to calculate the parity.
unfoldable pub cover_stripe : ℕ → Span → Stripe → Stripe
cover_stripe chunk_size w s =
    let t = cover_read w.start w.end s in
    if t.read_end == 0 && (t.req_start != 0 || t.req_end != chunk_size)
    then record t { read_end = uint32_max }
    else t

unfoldable pub cover_stripes : ℕ → ℕ → Span → List Stripe → List Stripe
cover_stripes zero chunk_size w stripes = stripes
cover_stripes (suc n) chunk_size w [] = []
cover_stripes (suc n) chunk_size w (s ∷ stripes) =
    cover_stripe chunk_size w s ∷ cover_stripes n chunk_size w stripes

-- A data chunk that moves to another OSD is read in full, unless it is overwritten in full.
unfoldable pub read_moved : ℕ → ℕ → ℕ → List ℕ → List ℕ → Stripe → Stripe
read_moved role pg_minsize chunk_size read_osd_set write_osd_set s =
    if ltb role pg_minsize
      && osd_at write_osd_set role != osd_at read_osd_set role
      && osd_at write_osd_set role != 0
      && (s.req_start != 0 || s.req_end != chunk_size)
    then record s { read_start = 0; read_end = chunk_size % 2 ^ 32 }
    else s

unfoldable pub read_all_moved : ℕ → ℕ → ℕ → ℕ → List ℕ → List ℕ → List Stripe → List Stripe
read_all_moved zero role pg_minsize chunk_size read_osd_set write_osd_set stripes = stripes
read_all_moved (suc n) role pg_minsize chunk_size read_osd_set write_osd_set [] = []
read_all_moved (suc n) role pg_minsize chunk_size read_osd_set write_osd_set (s ∷ stripes) =
    read_moved role pg_minsize chunk_size read_osd_set write_osd_set s
    ∷ read_all_moved n (role + 1) pg_minsize chunk_size read_osd_set write_osd_set stripes

-- How many of the first roles have an OSD.
unfoldable pub count_osds : ℕ → List ℕ → ℕ
count_osds zero osds = 0
count_osds (suc n) [] = 0
count_osds (suc n) (o ∷ osds) = (if o != 0 then 1 else 0) + count_osds n osds

-- The loop over the stripes that are read to restore a missing one.
unfoldable pub extend_found : ℕ → ℕ → List ℕ → ℕ → ℕ → ℕ → ℕ → List Stripe → List Stripe × ℕ
extend_found zero r2 read_osd_set pg_minsize start end found stripes = (stripes, found)
extend_found (suc n) r2 read_osd_set pg_minsize start end found stripes =
    let here = osd_at read_osd_set r2 != 0 in
    let rest =
      extend_found n (r2 + 1) read_osd_set pg_minsize start end (if here then found + 1 else found)
        (if here then modify stripes r2 (extend_read start end) else stripes) in
    if ltb found pg_minsize then rest else (stripes, found)

-- One round of the loop over missing stripes; `none` refuses the update.
unfoldable pub restore_role : ℕ → ℕ → ℕ → List ℕ → List Stripe → Option (List Stripe)
restore_role role pg_size pg_minsize read_osd_set stripes =
    if osd_at read_osd_set role == 0
    then (let marked = modify stripes role (λ t. record t { missing = true }) in
        let s = stripe_at marked role in
        let (wider, found) =
          extend_found pg_size 0 read_osd_set pg_minsize s.read_start s.read_end 0 marked in
        if s.read_end != 0
        then (if ltb found pg_minsize then none else some wider)
        else some marked)
    else some stripes

unfoldable pub restore_roles : ℕ → ℕ → ℕ → ℕ → List ℕ → List Stripe → Option (List Stripe)
restore_roles zero role pg_size pg_minsize read_osd_set stripes = some stripes
restore_roles (suc n) role pg_size pg_minsize read_osd_set stripes =
    elim (restore_role role pg_size pg_minsize read_osd_set stripes) [
      | none ↦ none
      | some next ↦ restore_roles n (role + 1) pg_size pg_minsize read_osd_set next
    ]

-- The positions of the write buffers, in the request and in the new buffer.
unfoldable pub place_writes : ℕ → ℕ → ℕ → List ℕ → Span → ℕ → ℕ → ℕ → ℕ → List Stripe → List Stripe
place_writes zero role pg_minsize write_osd_set w request_buf rmw_buf in_pos buf_pos stripes =
    stripes
place_writes (suc n) role pg_minsize write_osd_set w request_buf rmw_buf in_pos buf_pos [] = []
place_writes (suc n) role pg_minsize write_osd_set w request_buf rmw_buf in_pos buf_pos (s ∷ ss) =
    let from_request = s.req_end != 0 in
    let parity = leb pg_minsize role && osd_at write_osd_set role != 0 && w.end != 0 in
    (if from_request
      then record s { write_buf = add64 request_buf in_pos }
      else if parity
      then record s { write_buf = add64 rmw_buf buf_pos }
      else s)
    ∷ place_writes n (role + 1) pg_minsize write_osd_set w request_buf rmw_buf
        (if from_request then add64 in_pos (sub32 s.req_end s.req_start) else in_pos)
        (if not from_request && parity then add64 buf_pos (sub32 w.end w.start) else buf_pos) ss

-- `calc_rmw`. `moved` tells whether `write_osd_set` and `read_osd_set` are two arrays, which the code
-- asks of the pointers; `alloc` stands for `memalign_or_die`. `none` is the result NULL.
unfoldable pub calc_rmw :
    (ℕ → ℕ) → ℕ → List Stripe → List ℕ → ℕ → ℕ → ℕ → Bool → List ℕ → ℕ → Option (ℕ × List Stripe)
calc_rmw alloc request_buf stripes read_osd_set pg_size pg_minsize pg_cursize moved write_osd_set
      chunk_size =
    let p =
      plan_parities (pg_size - pg_minsize) pg_minsize pg_minsize chunk_size read_osd_set
        write_osd_set
        (record {
          span = data_span pg_minsize stripes (record { start = 0; end = 0 });
          stripes = write_data pg_minsize stripes;
          write_parity = 0;
        }) in
    let covered =
      if p.write_parity != 0
      then cover_stripes pg_minsize chunk_size p.span p.stripes
      else p.stripes in
    let read =
      if moved
      then read_all_moved pg_size 0 pg_minsize chunk_size read_osd_set write_osd_set covered
      else covered in
    let cursize = if moved then count_osds pg_size read_osd_set else pg_cursize in
    let restored =
      if ltb cursize pg_size
      then restore_roles pg_size 0 pg_size pg_minsize read_osd_set read
      else some read in
    elim restored [
      | none ↦ none
      | some ready ↦
          let (rmw_buf, placed) =
            alloc_read_buffer alloc ready pg_size
              (mul32 p.write_parity (sub32 p.span.end p.span.start)) in
          some (
            rmw_buf,
            place_writes pg_size 0 pg_minsize write_osd_set p.span request_buf rmw_buf 0 0 placed,
          )
    ]
