-- ===== src/Rmw/Missing.antt =====
-- src/osd/osd_rmw.cpp: when `extend_missing_stripes` refuses.
use vitastor.Base.{
  ℕ, zero, suc, ◌+◌, ◌≤◌, ◌<◌, ◌≡◌, refl, Bool, true, false, ◌&&◌, ◌||◌, List, Option, none, some,
  ltb, ◌==◌, ◌!=◌, if◌then◌else◌, modify, arith, lt→ltb, le→ltb,
}
use vitastor.Rmw.Stripes.{
  Stripe, stripe_at, osd_at, extend_read, extend_others, extend_roles, extend_missing_stripes,
}
use native.Mathlib.Decide.{dec_lt}

-- How many of the `n` roles from `j` on have an OSD.
unfoldable pub alive : ℕ → ℕ → List ℕ → ℕ
alive zero j osd_set = 0
alive (suc n) j osd_set = (if osd_at osd_set j != 0 then 1 else 0) + alive n (j + 1) osd_set

-- One of the `n` roles from `role` on is to be read and has no OSD.
unfoldable pub is_lost : ℕ → ℕ → List ℕ → List Stripe → Bool
is_lost zero role osd_set stripes = false
is_lost (suc n) role osd_set stripes =
    (stripe_at stripes role).read_end != 0 && osd_at osd_set role == 0
    || is_lost n (role + 1) osd_set stripes

abbrev pub is_none {ℓ} : {A : Type ℓ} → Option A → Bool
is_none none = true
is_none (some a) = false

extend_others-enough :
    (n j : ℕ) (osd_set : List ℕ) (need start end found : ℕ) (stripes : List Stripe)
    → need ≤ found + alive n j osd_set
    → need ≤ (extend_others n j osd_set need start end found stripes).1
unfolding extend_others alive
extend_others-enough zero j osd_set need start end found stripes h = omega (arith, h)
extend_others-enough (suc n) j osd_set need start end found stripes h =
    let wider = modify stripes j (extend_read start end) in
    ground (
      arith,
      extend_others-enough n (j + 1) osd_set need start end (found + 1) wider,
      extend_others-enough n (j + 1) osd_set need start end found stripes,
    )

extend_others-few :
    (n j : ℕ) (osd_set : List ℕ) (need start end found : ℕ) (stripes : List Stripe)
    → found + alive n j osd_set < need
    → (extend_others n j osd_set need start end found stripes).1 < need
unfolding extend_others alive
extend_others-few zero j osd_set need start end found stripes h = omega (arith, h)
extend_others-few (suc n) j osd_set need start end found stripes h =
    let wider = modify stripes j (extend_read start end) in
    ground (
      arith,
      extend_others-few n (j + 1) osd_set need start end (found + 1) wider,
      extend_others-few n (j + 1) osd_set need start end found stripes,
    )

extend_roles-enough :
    (n role : ℕ) (osd_set : List ℕ) (need pg_size : ℕ) (stripes : List Stripe)
    → need ≤ alive pg_size 0 osd_set
    → is_none (extend_roles n role osd_set need pg_size stripes) ≡ false
unfolding extend_roles
extend_roles-enough zero role osd_set need pg_size stripes h = refl
extend_roles-enough (suc n) role osd_set need pg_size stripes h =
    let marked = modify stripes role (λ t. record t { missing = true }) in
    let s = stripe_at stripes role in
    let found = extend_others pg_size 0 osd_set need s.read_start s.read_end 0 marked in
    let here =
      extend_others-enough pg_size 0 osd_set need s.read_start s.read_end 0 marked (omega arith) in
    ground (
      arith,
      here,
      extend_roles-enough n (role + 1) osd_set need pg_size found.0 h,
      extend_roles-enough n (role + 1) osd_set need pg_size stripes h,
    )

extend_roles-few :
    (n role : ℕ) (osd_set : List ℕ) (need pg_size : ℕ) (stripes : List Stripe)
    → alive pg_size 0 osd_set < need
    → is_none (extend_roles n role osd_set need pg_size stripes) ≡ is_lost n role osd_set stripes
unfolding extend_roles is_lost
extend_roles-few zero role osd_set need pg_size stripes h = refl
extend_roles-few (suc n) role osd_set need pg_size stripes h =
    let marked = modify stripes role (λ t. record t { missing = true }) in
    let s = stripe_at stripes role in
    let here =
      extend_others-few pg_size 0 osd_set need s.read_start s.read_end 0 marked (omega arith) in
    ground (arith, here, extend_roles-few n (role + 1) osd_set need pg_size stripes h)

-- `extend_missing_stripes` refuses exactly if a stripe that is to be read has no OSD and fewer than
-- `pg_minsize` of all roles have one.
pub extend_missing_stripes_refuses :
    (stripes : List Stripe) (osd_set : List ℕ) (pg_minsize pg_size : ℕ)
    → is_none (extend_missing_stripes stripes osd_set pg_minsize pg_size)
      ≡ (ltb (alive pg_size 0 osd_set) pg_minsize && is_lost pg_minsize 0 osd_set stripes)
unfolding extend_missing_stripes
extend_missing_stripes_refuses stripes osd_set pg_minsize pg_size =
    elim (dec_lt (alive pg_size 0 osd_set) pg_minsize) [
      | yes l ↦
          rw (lt→ltb _ _ l) (extend_roles-few pg_minsize 0 osd_set pg_minsize pg_size stripes l)
      | no m ↦
          rw (le→ltb (alive pg_size 0 osd_set) pg_minsize (omega arith))
            (extend_roles-enough pg_minsize 0 osd_set pg_minsize pg_size stripes (omega arith))
    ]
