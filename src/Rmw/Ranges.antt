-- ===== src/Rmw/Ranges.antt =====
-- src/osd/osd_rmw.cpp: the ranges that `extend_read`, `cover_read` and `split_stripes` give.
use vitastor.Base.{
  ℕ, zero, suc, ◌+◌, ◌*◌, ◌^◌, ◌≤◌, ◌<◌, min, max, ◌≡◌, refl, ◌∙◌, ap, ◌⊎◌, inl, inr, true, ◌&&◌,
  List, ltb, leb, ◌==◌, if◌then◌else◌, modify, length, arith, get_or-modify_self, get_or-modify_ne,
  length-modify, ne→==,
}
use vitastor.Base.Words.{uint32_max, add32, mul32}
use vitastor.Rmw.Stripes.{
  Stripe, stripe_at, widen_read, extend_read, uncovered, cover_read, split_stripe, split_roles,
  split_stripes, reads_data, no_stripe,
}
use native.Mathlib.Decide.{ℕ_discrete}
use native.Mathlib.Nat.{mul-le-mul_right}

-- What is to be read of a stripe.
abbrev pub read_range : Stripe → ℕ × ℕ
read_range s = (s.read_start, s.read_end)

-- A request for the bitmap alone.
abbrev bitmap_only : ℕ → Stripe → ℕ × ℕ
bitmap_only start s = if s.read_end == 0 then (0, uint32_max) else (s.read_start, s.read_end)

-- The least range with both the data that is read already and the new range.
abbrev pub hull : ℕ → ℕ → Stripe → ℕ × ℕ
hull start end s =
    if reads_data s then (min start s.read_start, max end s.read_end) else (start, end)

-- `extend_read` with a range that is not empty: the stripe is read in the least range that holds the
-- new one and what is read of its data already; a request for the bitmap alone keeps the data range.
pub extend_read-hull :
    (start end : ℕ) (s : Stripe)
    → 0 < end
    → read_range (extend_read start end s)
      ≡ (if end == uint32_max then bitmap_only start s else hull start end s)
unfolding extend_read widen_read reads_data
extend_read-hull start end s h = ground arith

-- After `cover_read` data of the stripe is read, if a position of the range is not overwritten by the
-- request or data was to be read before: every position of the range that the request does not
-- overwrite is read, and every position that was to be read before still is, also where the request
-- overwrites it. No more is read than the least range with the given one and what was to be read.
-- The ends are less than UINT32_MAX, which stands for the bitmap alone.
pub cover_read-covers :
    (start end p : ℕ) (s : Stripe)
    → end < uint32_max
    → s.read_end < uint32_max
    → (((start ≤ p) × (p < end) × ((p < s.req_start) ⊎ (s.req_end ≤ p)))
        ⊎ ((s.read_start ≤ p) × (p < s.read_end)))
    → (reads_data (cover_read start end s) ≡ true)
      × ((cover_read start end s).read_start ≤ p)
      × (p < (cover_read start end s).read_end)
      × ((hull start end s).0 ≤ (cover_read start end s).read_start)
      × ((cover_read start end s).read_end ≤ (hull start end s).1)
unfolding cover_read widen_read uncovered reads_data
cover_read-covers start end p s e r (inl h) = ground arith
cover_read-covers start end p s e r (inr h) = ground arith

-- A position of the object in the chunk of a role is in the request exactly if it is in the range
-- that `split_stripe` gives the stripe, which had none.
split_stripe-range :
    (block start end role x : ℕ) (s : Stripe)
    → (role + 1) * block < 2 ^ 32
    → end < 2 ^ 32
    → start < end
    → x < block
    → s.req_start ≡ 0
    → s.req_end ≡ 0
    → (leb (split_stripe block start end role s).req_start x
        && ltb x (split_stripe block start end role s).req_end)
      ≡ (leb start (role * block + x) && ltb (role * block + x) end)
unfolding split_stripe
split_stripe-range block start end role x s fits small filled inside zs ze =
    let wide : (role + 1) * block ≡ role * block + block = omega arith in
    let low : mul32 role block ≡ role * block = omega arith in
    let high : mul32 (role + 1) block ≡ role * block + block = omega arith in
    rw (low, high) (ground arith)

-- Later rounds do not touch the stripe of an earlier role.
split_roles-before :
    (n first block start end role : ℕ) (stripes : List Stripe)
    → role < first
    → stripe_at (split_roles n first block start end stripes) role ≡ stripe_at stripes role
unfolding split_roles
split_roles-before zero first block start end role stripes h = refl
split_roles-before (suc n) first block start end role stripes h =
    split_roles-before n (first + 1) block start end role _ (omega arith)
    ∙ get_or-modify_ne stripes first role _ no_stripe (λ e. omega (arith, e))

split_roles-at :
    (n first block start end role : ℕ) (stripes : List Stripe)
    → first ≤ role
    → role < first + n
    → role < length stripes
    → stripe_at (split_roles n first block start end stripes) role
      ≡ split_stripe block start end role (stripe_at stripes role)
unfolding split_roles
split_roles-at zero first block start end role stripes low high inside = absurd (omega arith)
split_roles-at (suc n) first block start end role stripes low high inside =
    let round = split_stripe block start end first in
    elim (ℕ_discrete first role) [
      | yes e ↦
          split_roles-before n (first + 1) block start end role _ (omega arith)
          ∙ rw e
              (get_or-modify_self stripes role (split_stripe block start end role) no_stripe inside)
      | no m ↦
          split_roles-at n (first + 1) block start end role (modify stripes first round)
            (omega arith) (omega arith) (rw (length-modify stripes first round) inside)
          ∙ ap (split_stripe block start end role)
              (get_or-modify_ne stripes first role round no_stripe m)
    ]

-- `split_stripes` of a request of `len` bytes at `start`, over stripes without a request: for each
-- data role, a position of the object in the chunk of the role belongs to the request exactly if it
-- is in the range of the role's stripe, as long as nothing exceeds 32 bits. An empty request is in no
-- stripe.
pub split_stripes-range :
    (pg_minsize block start len role x : ℕ) (stripes : List Stripe)
    → pg_minsize * block < 2 ^ 32
    → start + len < 2 ^ 32
    → role < pg_minsize
    → role < length stripes
    → x < block
    → (stripe_at stripes role).req_start ≡ 0
    → (stripe_at stripes role).req_end ≡ 0
    → (leb (stripe_at (split_stripes pg_minsize block start len stripes) role).req_start x
        && ltb x (stripe_at (split_stripes pg_minsize block start len stripes) role).req_end)
      ≡ (leb start (role * block + x) && ltb (role * block + x) (start + len))
unfolding split_stripes
split_stripes-range pg_minsize block start len role x stripes fits small low inside within zs ze =
    let chunks : (role + 1) * block ≤ pg_minsize * block =
      mul-le-mul_right {m = role + 1} {n = pg_minsize} block (omega arith) in
    let end : add32 start len ≡ start + len = omega arith in
    elim (ℕ_discrete len 0) [
      | yes e ↦ rw (e, zs, ze) (ground arith)
      | no m ↦
          rw
            (
              ne→== len 0 m,
              end,
              split_roles-at pg_minsize 0 block start (start + len) role stripes (omega arith)
                  (omega arith) inside,
            )
            (split_stripe-range block start (start + len) role x (stripe_at stripes role)
              (omega (arith, chunks)) small (omega arith) within zs ze)
    ]
