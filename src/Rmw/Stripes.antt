-- ===== src/Rmw/Stripes.antt =====
-- src/osd/osd_rmw.cpp: the ranges of one stripe, and which stripes are read to restore others.
use vitastor.Base.{
  ℕ, zero, suc, ◌+◌, Bool, true, false, ◌&&◌, List, [], ◌∷◌, Option, none, some, ltb, leb, ◌==◌,
  ◌!=◌, if◌then◌else◌, get_or, modify,
}
use vitastor.Base.Words.{uint32_max, add32, sub32, mul32, add64}

-- `osd_rmw_stripe_t`, without the fields that this file does not use
pub record Stripe : Type 0 where
  pub read_buf : ℕ
  pub write_buf : ℕ
  pub bmp_buf : ℕ
  pub req_start : ℕ
  pub req_end : ℕ
  pub read_start : ℕ
  pub read_end : ℕ
  pub write_start : ℕ
  pub write_end : ℕ
  pub missing : Bool

abbrev pub no_stripe : Stripe
no_stripe = record {
  read_buf = 0;
  write_buf = 0;
  bmp_buf = 0;
  req_start = 0;
  req_end = 0;
  read_start = 0;
  read_end = 0;
  write_start = 0;
  write_end = 0;
  missing = false;
}

-- `stripes[role]`
abbrev pub stripe_at : List Stripe → ℕ → Stripe
stripe_at stripes role = get_or stripes role no_stripe

-- `osd_set[role]`
abbrev pub osd_at : List ℕ → ℕ → ℕ
osd_at osd_set role = get_or osd_set role 0

-- The last branches of `extend_read` and `cover_read`: the hull of two ranges.
unfoldable pub widen_read : ℕ → ℕ → Stripe → Stripe
widen_read start end s = record s {
  read_end = if ltb s.read_end end then end else s.read_end;
  read_start = if ltb start s.read_start then start else s.read_start;
}

-- `extend_read`
unfoldable pub extend_read : ℕ → ℕ → Stripe → Stripe
extend_read start end s =
    if end == uint32_max
    then (if s.read_end == 0 then record s { read_start = 0; read_end = uint32_max } else s)
    else if s.read_end == uint32_max
    then (if ltb 0 end then record s { read_start = start; read_end = end } else s)
    else if s.read_end == 0
    then record s { read_start = start; read_end = end }
    else widen_read start end s

-- The range that `cover_read` has left after it cuts off what the request overwrites.
unfoldable pub uncovered : ℕ → ℕ → Stripe → ℕ × ℕ
uncovered start end s =
    if leb start s.req_start && leb s.req_start end && leb end s.req_end
    then (start, s.req_start)
    else if leb s.req_start start && leb start s.req_end && leb s.req_end end
    then (s.req_end, end)
    else (start, end)

-- `cover_read`
unfoldable pub cover_read : ℕ → ℕ → Stripe → Stripe
cover_read start end s =
    if leb s.req_start start && leb end s.req_end
    then s
    else let (from, to) = uncovered start end s in
      if s.read_end == 0
      then record s { read_start = from; read_end = to }
      else widen_read from to s

-- The part of the request from `start` to `end` in the chunk of `role`.
unfoldable pub split_stripe : ℕ → ℕ → ℕ → ℕ → Stripe → Stripe
split_stripe block start end role s =
    let chunk_start = mul32 role block in
    let chunk_end = mul32 (role + 1) block in
    if ltb start chunk_end && ltb chunk_start end
    then record s {
      req_start = if ltb start chunk_start then 0 else sub32 start chunk_start;
      req_end = if ltb chunk_end end then block else sub32 end chunk_start;
    }
    else s

-- `for (role = first; role < first + n; role++)`
unfoldable pub split_roles : ℕ → ℕ → ℕ → ℕ → ℕ → List Stripe → List Stripe
split_roles zero role block start end stripes = stripes
split_roles (suc n) role block start end stripes =
    split_roles n (role + 1) block start end
      (modify stripes role (split_stripe block start end role))

-- `split_stripes`; the parameter `end` is the length of the request at first.
unfoldable pub split_stripes : ℕ → ℕ → ℕ → ℕ → List Stripe → List Stripe
split_stripes pg_minsize block start len stripes =
    if len == 0 then stripes else split_roles pg_minsize 0 block start (add32 start len) stripes

-- The inner loop of `extend_missing_stripes` from the role `j` on, with the count of stripes found.
unfoldable pub extend_others : ℕ → ℕ → List ℕ → ℕ → ℕ → ℕ → ℕ → List Stripe → List Stripe × ℕ
extend_others zero j osd_set pg_minsize start end exist stripes = (stripes, exist)
extend_others (suc n) j osd_set pg_minsize start end exist stripes =
    let wider = modify stripes j (extend_read start end) in
    let rest = extend_others n (j + 1) osd_set pg_minsize start end (exist + 1) wider in
    let skip = extend_others n (j + 1) osd_set pg_minsize start end exist stripes in
    if osd_at osd_set j != 0
    then (if leb pg_minsize (exist + 1) then (wider, exist + 1) else rest)
    else skip

-- The loop of `extend_missing_stripes`. The range is read anew in each round, since the missing
-- stripe is not one of those that are extended. `none` is the result -1.
unfoldable pub extend_roles : ℕ → ℕ → List ℕ → ℕ → ℕ → List Stripe → Option (List Stripe)
extend_roles zero role osd_set pg_minsize pg_size stripes = some stripes
extend_roles (suc n) role osd_set pg_minsize pg_size stripes =
    let s = stripe_at stripes role in
    if s.read_end != 0 && osd_at osd_set role == 0
    then (let marked = modify stripes role (λ t. record t { missing = true }) in
        let (wider, exist) =
          extend_others pg_size 0 osd_set pg_minsize s.read_start s.read_end 0 marked in
        let rest = extend_roles n (role + 1) osd_set pg_minsize pg_size wider in
        if ltb exist pg_minsize then none else rest)
    else (let rest = extend_roles n (role + 1) osd_set pg_minsize pg_size stripes in rest)

-- `extend_missing_stripes`
unfoldable pub extend_missing_stripes : List Stripe → List ℕ → ℕ → ℕ → Option (List Stripe)
extend_missing_stripes stripes osd_set pg_minsize pg_size =
    extend_roles pg_minsize 0 osd_set pg_minsize pg_size stripes

-- `stripes[role].read_end != 0 && stripes[role].read_end != UINT32_MAX`
unfoldable pub reads_data : Stripe → Bool
reads_data s = s.read_end != 0 && s.read_end != uint32_max

-- The size of the read buffers of the first roles.
unfoldable pub read_size : ℕ → List Stripe → ℕ → ℕ
read_size zero stripes size = size
read_size (suc n) [] size = size
read_size (suc n) (s ∷ stripes) size =
    read_size n stripes (if reads_data s then add64 size (sub32 s.read_end s.read_start) else size)

-- The positions of the read buffers in the buffer at `buf`.
unfoldable pub place_reads : ℕ → ℕ → List Stripe → ℕ → List Stripe
place_reads zero buf stripes pos = stripes
place_reads (suc n) buf [] pos = []
place_reads (suc n) buf (s ∷ stripes) pos =
    (if reads_data s then record s { read_buf = add64 buf pos } else s)
    ∷ place_reads n buf stripes
        (if reads_data s then add64 pos (sub32 s.read_end s.read_start) else pos)

-- `alloc_read_buffer`. `alloc` stands for `memalign_or_die`: it takes a size to an address.
unfoldable pub alloc_read_buffer : (ℕ → ℕ) → List Stripe → ℕ → ℕ → ℕ × List Stripe
alloc_read_buffer alloc stripes read_pg_size add_size =
    let buf = alloc (read_size read_pg_size stripes add_size) in
    (buf, place_reads read_pg_size buf stripes add_size)
