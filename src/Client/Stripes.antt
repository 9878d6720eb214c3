-- ===== src/Client/Stripes.antt =====
-- src/client/cluster_client.cpp: the bounds of the stripes that `slice_rw` goes through.
use vitastor.Base.{
  ℕ, suc, ◌+◌, ◌-◌, ◌*◌, ◌/◌, ◌^◌, ◌≤◌, ◌<◌, ◌≡◌, refl, sym, ap, ◌∙◌, inl, inr, true, ltb,
  if◌then◌else◌, arith, lt→ltb, ltb→lt, Bool-cases,
}
use native.Mathlib.Nat.{
  suc-mul, add-mul, div-mul-le_self, lt-div-mul-add, mul-div_cancel, mul_assoc,
  lt_of_mul-lt-mul_right,
}
use vitastor.Base.Words.{add64, sub64}
use vitastor.Client.Slices.{
  PoolConfig, Request, pg_block_size, last_stripe, stripe_begin, stripe_end,
}

pub pg_block_size-lt : (pool_cfg : PoolConfig) → pg_block_size pool_cfg < 2 ^ 32
unfolding pg_block_size
pg_block_size-lt pool_cfg = omega arith

-- The stripes of a range, of a block size `b`.
pub last_bounds :
    (hi b : ℕ) → 0 < b → 0 < hi → ((hi - 1) / b * b < hi) × (hi ≤ (hi - 1) / b * b + b)
last_bounds hi b p q =
    (omega (arith, div-mul-le_self (hi - 1) b), omega (arith, lt-div-mul-add {a = hi - 1} p))

pub stripe_count : (p q b : ℕ) → 0 < b → p ≤ q → p + ((q * b - p * b) / b + 1) ≡ q + 1
stripe_count p q b k l =
    let d : ℕ = q - p in
    let e : q ≡ p + d = omega arith in
    let f : q * b - p * b ≡ d * b = omega (arith, ap (λ (t : ℕ). t * b) e, add-mul p d b) in
    omega (arith, ap (λ (t : ℕ). t / b) f, mul-div_cancel d k)

-- The sizes of a pool and the range of an operation are whole granules, and no address wraps.
pub record IsSliced (pool_cfg : PoolConfig) (op : Request) : Type 0 where
  pub block : 0 < pg_block_size pool_cfg
  pub granule : 0 < pool_cfg.bitmap_granularity
  pub some_len : 0 < op.len
  pub range : op.offset + op.len + pg_block_size pool_cfg < 2 ^ 64
  pub offset_granules : (a : ℕ) × (op.offset ≡ a * pool_cfg.bitmap_granularity)
  pub len_granules : (a : ℕ) × (op.len ≡ a * pool_cfg.bitmap_granularity)
  pub block_granules : (a : ℕ) × (pg_block_size pool_cfg ≡ a * pool_cfg.bitmap_granularity)

module _ (pool_cfg : PoolConfig) (op : Request) (v : IsSliced pool_cfg op) where
  -- The number of a granule of the operation that starts at a position.
  abbrev pub IsAt : ℕ → Type 0
  IsAt x = (k : ℕ) × (x ≡ op.offset + k * pool_cfg.bitmap_granularity)

  pub last_stripe-eq :
      last_stripe pool_cfg op.offset op.len
      ≡ (op.offset + op.len - 1) / pg_block_size pool_cfg * pg_block_size pool_cfg
  unfolding last_stripe
  last_stripe-eq =
      let some : ltb 0 op.len ≡ true = ground (arith, v.some_len) in
      let e : sub64 (add64 op.offset op.len) 1 ≡ op.offset + op.len - 1 =
        omega (arith, v.range, v.some_len) in
      rw (some, e) refl

  pub begin-IsAt : (q : ℕ) → IsAt (stripe_begin op (q * pg_block_size pool_cfg))
  unfolding stripe_begin
  begin-IsAt q = elim (Bool-cases (ltb op.offset (q * pg_block_size pool_cfg))) [
    | inl y ↦
        let (a, e) = v.offset_granules in
        let (c, f) = v.block_granules in
        let g : ℕ = pool_cfg.bitmap_granularity in
        let s : q * pg_block_size pool_cfg ≡ q * c * g =
          ap (λ (t : ℕ). q * t) f ∙ sym (mul_assoc q c g) in
        let l : a < q * c =
          lt_of_mul-lt-mul_right g
            (omega (arith, e, s, ltb→lt op.offset (q * pg_block_size pool_cfg) y)) in
        let d : a + (q * c - a) ≡ q * c = omega arith in
        let whole : q * pg_block_size pool_cfg ≡ op.offset + (q * c - a) * g =
          omega (arith, s, e, add-mul a (q * c - a) g, ap (λ (t : ℕ). t * g) d) in
        (q * c - a, rw y whole)
    | inr n ↦ (0, rw n (omega arith))
  ]

  pub next-begin :
      (q : ℕ)
      → op.offset < q * pg_block_size pool_cfg + pg_block_size pool_cfg
      → stripe_begin op (suc q * pg_block_size pool_cfg)
        ≡ q * pg_block_size pool_cfg + pg_block_size pool_cfg
  unfolding stripe_begin
  next-begin q m = let e = suc-mul q (pg_block_size pool_cfg) in rw e (rw (lt→ltb _ _ m) refl)

  pub end-eq :
      (s : ℕ)
      → s < op.offset + op.len
      → stripe_end pool_cfg op s ≡ (
          if ltb (s + pg_block_size pool_cfg) (op.offset + op.len)
          then s + pg_block_size pool_cfg
          else op.offset + op.len)
  unfolding stripe_end
  end-eq s l =
      let e : add64 s (pg_block_size pool_cfg) ≡ s + pg_block_size pool_cfg =
        omega (arith, v.range, l) in
      let f : add64 op.offset op.len ≡ op.offset + op.len = omega (arith, v.range) in rw (e, f) refl

  pub end-IsAt :
      (q : ℕ)
      → q * pg_block_size pool_cfg < op.offset + op.len
      → op.offset < q * pg_block_size pool_cfg + pg_block_size pool_cfg
      → IsAt (stripe_end pool_cfg op (q * pg_block_size pool_cfg))
  end-IsAt q l m =
      let s : ℕ = q * pg_block_size pool_cfg in
      let (k, at) = begin-IsAt (suc q) in
      let (c, whole) = v.len_granules in
      let next : stripe_begin op (suc q * pg_block_size pool_cfg) ≡ s + pg_block_size pool_cfg =
        next-begin q m in
      elim (Bool-cases (ltb (s + pg_block_size pool_cfg) (op.offset + op.len))) [
        | inl y ↦ (k, end-eq s l ∙ rw y (sym next ∙ at))
        | inr n ↦ (c, end-eq s l ∙ rw n (ap (λ (t : ℕ). op.offset + t) whole))
      ]

  -- A stripe that the operation touches.
  pub record IsTouched (q : ℕ) : Type 0 where
    pub starts : q * pg_block_size pool_cfg < op.offset + op.len
    pub ends : op.offset < q * pg_block_size pool_cfg + pg_block_size pool_cfg

  pub bounds :
      (q : ℕ)
      → IsTouched q
      → (op.offset ≤ stripe_begin op (q * pg_block_size pool_cfg))
        × (q * pg_block_size pool_cfg ≤ stripe_begin op (q * pg_block_size pool_cfg))
        × (stripe_begin op (q * pg_block_size pool_cfg)
            < stripe_end pool_cfg op (q * pg_block_size pool_cfg))
        × (stripe_end pool_cfg op (q * pg_block_size pool_cfg) ≤ op.offset + op.len)
        × (stripe_end pool_cfg op (q * pg_block_size pool_cfg)
            ≤ q * pg_block_size pool_cfg + pg_block_size pool_cfg)
  unfolding stripe_begin
  bounds q t =
      ground
        (arith, end-eq (q * pg_block_size pool_cfg) t.starts, t.starts, t.ends, v.block, v.some_len)
