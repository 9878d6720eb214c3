-- ===== src/Client/Affected.antt =====
-- src/client/cluster_client.cpp: `affects_pg` and `affects_osd` against the stripes of a range.
use vitastor.Base.{
  ℕ, zero, suc, ◌+◌, ◌-◌, ◌*◌, ◌/◌, ◌%◌, ◌^◌, ◌≤◌, ◌<◌, ◌≡◌, refl, ap, ◌∙◌, ◌⊎◌, ◌↔◌, inl, inr,
  true, false, ◌&&◌, ◌||◌, Option, none, some, ltb, leb, ◌!=◌, if◌then◌else◌, le→leb, arith,
  Bool-cases,
}
use native.Mathlib.Decide.{dec_lt}
use native.Mathlib.Nat.{
  suc-mul, add-mul, one-mul, div-mul-le_self, lt-div-mul-add, mod-add-div, mod-lt, mul-add, mul-one,
  mul-le-mul_right, mul-le-mul_left, mul_comm, lt_of_mul-lt-mul_right,
}
use vitastor.Base.Words.{add64, sub64}
use vitastor.Client.Slices.{
  PoolConfig, pg_block_size, first_stripe, last_stripe, map_to_pg, affects_pg, find_primary,
  is_some_eq, affects_osd_from, affects_osd,
}
use vitastor.Client.Stripes.{stripe_count}

-- The counts of a pool are positive, and no address of a range wraps.
pub record IsRange (pool_cfg : PoolConfig) (offset len : ℕ) : Type 0 where
  pub block : 0 < pg_block_size pool_cfg
  pub stripe : 0 < pool_cfg.pg_stripe_size
  pub groups : 0 < pool_cfg.real_pg_count
  pub few : pool_cfg.real_pg_count < 2 ^ 32 - 1
  pub some_len : 0 < len
  pub wide : offset + len + pg_block_size pool_cfg < 2 ^ 64

-- The number of the last stripe of a range
abbrev pub last_number : PoolConfig → ℕ → ℕ → ℕ
last_number pool_cfg offset len = (offset + len - 1) / pg_block_size pool_cfg

div-le : (a c b : ℕ) → 0 < b → a ≤ c → a / b ≤ c / b
div-le a c b p l =
    let order : a / b < c / b + 1 = lt_of_mul-lt-mul_right b (
      omega (
        arith,
        div-mul-le_self a b,
        lt-div-mul-add {a = c} p,
        add-mul (c / b) 1 b,
        one-mul b,
        l,
      )) in
    omega (arith, order)

step : (n x y : ℕ) → x ≤ y → y < x + 2 → (n * y ≡ n * x) ⊎ (n * y ≡ n * x + n)
step n x y l m = elim (dec_lt x y) [
  | yes h ↦
      let e : y ≡ x + 1 = omega arith in
      inr (ap (λ (t : ℕ). n * t) e ∙ omega (arith, mul-add n x 1, mul-one n))
  | no h ↦ let e : y ≡ x = omega arith in inl (ap (λ (t : ℕ). n * t) e)
]

-- Three numbers in a row that span less than a period: their remainders lie in cyclic order.
cyclic :
    (n a q c : ℕ)
    → 0 < n
    → a ≤ q
    → q ≤ c
    → c - a + 1 < n
    → (if leb (a % n + 1) (c % n + 1)
        then leb (a % n + 1) (q % n + 1) && leb (q % n + 1) (c % n + 1)
        else leb (a % n + 1) (q % n + 1) || leb (q % n + 1) (c % n + 1))
      ≡ true
cyclic n a q c p l m s =
    let ra = mod-add-div a n in
    let rq = mod-add-div q n in
    let rc = mod-add-div c n in
    let la : a % n < n = mod-lt a p in
    let lq : q % n < n = mod-lt q p in
    let lc : c % n < n = mod-lt c p in
    let oq : a / n ≤ q / n = div-le a q n p l in
    let oc : q / n ≤ c / n = div-le q c n p m in
    let ea = mul_comm n (a / n) in
    let near : c / n < a / n + 2 =
      lt_of_mul-lt-mul_right n
        (omega (arith, ra, rc, la, lc, s, l, m, mul_comm n (c / n), ea, add-mul (a / n) 2 n)) in
    let mono = mul-le-mul_left n oc in
    elim (step n (a / n) (q / n) oq (omega (arith, near, oc))) [
      | inl eq ↦ elim (step n (a / n) (c / n) (omega (arith, oq, oc)) near) [
        | inl ec ↦ ground (arith, ra, rq, rc, la, lq, lc, eq, ec, l, m)
        | inr ec ↦ ground (arith, ra, rq, rc, la, lq, lc, eq, ec, l, m, s)
      ]
      | inr eq ↦ elim (step n (a / n) (c / n) (omega (arith, oq, oc)) near) [
        | inl ec ↦ absurd (omega (arith, mono, eq, ec, p))
        | inr ec ↦ ground (arith, ra, rq, rc, la, lq, lc, eq, ec, l, m, s)
      ]
    ]

-- For a range of at least one byte whose addresses do not wrap, in a pool with positive sizes and fewer
-- than 2 ^ 32 - 1 placement groups, affects_pg says that the range affects a placement group of the pool
-- if a stripe that the range touches belongs to the group.
pub affects_pg-map_to_pg :
    (pool_cfg : PoolConfig) (inode offset len q : ℕ)
    → IsRange pool_cfg offset len
    → offset / pg_block_size pool_cfg ≤ q
    → q ≤ last_number pool_cfg offset len
    → affects_pg pool_cfg inode offset len
        (inode / 2 ^ 48)
        (map_to_pg pool_cfg (q * pg_block_size pool_cfg))
      ≡ true
unfolding affects_pg first_stripe last_stripe map_to_pg
affects_pg-map_to_pg pool_cfg inode offset len q v low high =
    let b : ℕ = pg_block_size pool_cfg in
    let s : ℕ = pool_cfg.pg_stripe_size in
    let n : ℕ = pool_cfg.real_pg_count in
    let some : ltb 0 len ≡ true = ground (arith, v.some_len) in
    let end : sub64 (add64 offset len) 1 ≡ offset + len - 1 = omega (arith, v.wide, v.some_len) in
    let a : ℕ = offset / b * b / s in
    let c : ℕ = last_number pool_cfg offset len * b / s in
    let l : a ≤ q * b / s = div-le (offset / b * b) (q * b) s v.stripe (mul-le-mul_right b low) in
    let m : q * b / s ≤ c =
      div-le (q * b) (last_number pool_cfg offset len * b) s v.stripe (mul-le-mul_right b high) in
    let ma = mod-lt a v.groups in
    let mq = mod-lt (q * b / s) v.groups in
    let mc = mod-lt c v.groups in
    let wa : (a % n + 1) % 2 ^ 32 ≡ a % n + 1 = omega (arith, ma, v.few) in
    let wq : (q * b / s % n + 1) % 2 ^ 32 ≡ q * b / s % n + 1 = omega (arith, mq, v.few) in
    let wc : (c % n + 1) % 2 ^ 32 ≡ c % n + 1 = omega (arith, mc, v.few) in
    let pool : (inode / 2 ^ 48 != inode / 2 ^ 48) ≡ false = ground arith in
    elim (Bool-cases (leb n (c - a + 1))) [
      | inl y ↦ rw (some, end, pool, y) refl
      | inr f ↦
          rw (some, end, pool, f, wa, wq, wc)
            (cyclic n a (q * b / s) c v.groups l m (ground (arith, f)))
    ]

-- A stripe of a range belongs to a placement group of which an OSD is the primary.
abbrev pub IsPrimaryOf : PoolConfig → ℕ → ℕ → ℕ → Type 0
IsPrimaryOf pool_cfg osd low high =
    (q : ℕ) × (low ≤ q)
    × (q ≤ high)
    × (find_primary (map_to_pg pool_cfg (q * pg_block_size pool_cfg)) pool_cfg.pg_config ≡ some osd)

is_some_eq→eq : (o : Option ℕ) (n : ℕ) → is_some_eq o n ≡ true → o ≡ some n
is_some_eq→eq none n h = cc
is_some_eq→eq (some m) n h = ground (arith, h)

affects_osd_from_lem :
    (pool_cfg : PoolConfig) (n q last osd : ℕ)
    → last * pg_block_size pool_cfg + pg_block_size pool_cfg < 2 ^ 64
    → q + n ≡ last + 1
    → (affects_osd_from pool_cfg n (q * pg_block_size pool_cfg) (last * pg_block_size pool_cfg) osd
        ≡ true)
      ↔ IsPrimaryOf pool_cfg osd q last
unfolding affects_osd_from
affects_osd_from_lem pool_cfg zero q last osd wide e =
    ((λ h. cc h), λ w. absurd (omega (arith, w.1, w.2, e)))
affects_osd_from_lem pool_cfg (suc n) q last osd wide e =
    let b : ℕ = pg_block_size pool_cfg in
    let le : q * b ≤ last * b = mul-le-mul_right b (omega (arith, e)) in
    let go : leb (q * b) (last * b) ≡ true = le→leb _ _ le in
    let next : add64 (q * b) b ≡ suc q * b = omega (arith, suc-mul q b, le, wide) in
    let (there, back) = affects_osd_from_lem pool_cfg n (suc q) last osd wide (omega (arith, e)) in
    elim (Bool-cases
      (is_some_eq (find_primary (map_to_pg pool_cfg (q * b)) pool_cfg.pg_config) osd)) [
        | inl y ↦
            rw (go, y) ((λ h. (q, omega arith, omega (arith, e), is_some_eq→eq _ osd y)), λ w. refl)
        | inr f ↦
            rw (go, f, next)
              (
                (λ h. let (k, low, high, at) = there h in (k, omega (arith, low), high, at)),
                λ w. elim (dec_lt q w.0) [
                  | yes m ↦ back (w.0, m, w.2, w.3)
                  | no m ↦
                      let same : w.0 ≡ q = omega (arith, w.1) in
                      let at = rw same at w.3 in ground (arith, f, at)
                ],
              )
      ]

-- For a range of at least one byte whose addresses do not wrap, in a pool with positive sizes and fewer
-- than 2 ^ 32 - 1 placement groups, affects_osd says that the range affects an OSD if and only if a stripe
-- that the range touches belongs to a placement group of which the OSD is the primary.
pub affects_osd_lem :
    (pool_cfg : PoolConfig) (offset len osd : ℕ)
    → IsRange pool_cfg offset len
    → (affects_osd pool_cfg offset len osd ≡ true)
      ↔ IsPrimaryOf pool_cfg osd (offset / pg_block_size pool_cfg) (last_number pool_cfg offset len)
unfolding affects_osd first_stripe last_stripe
affects_osd_lem pool_cfg offset len osd v =
    let b : ℕ = pg_block_size pool_cfg in
    let some : ltb 0 len ≡ true = ground (arith, v.some_len) in
    let end : sub64 (add64 offset len) 1 ≡ offset + len - 1 = omega (arith, v.wide, v.some_len) in
    let first : ℕ = offset / b in
    let last : ℕ = last_number pool_cfg offset len in
    let order : first ≤ last =
      div-le offset (offset + len - 1) b v.block (omega (arith, v.some_len)) in
    let wide : last * b + b < 2 ^ 64 =
      omega (arith, div-mul-le_self (offset + len - 1) b, v.wide, v.some_len) in
    rw (some, end)
      (affects_osd_from_lem pool_cfg ((last * b - first * b) / b + 1) first last osd wide
        (stripe_count first last b v.block order))
