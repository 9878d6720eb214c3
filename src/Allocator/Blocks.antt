-- ===== src/Allocator/Blocks.antt =====
-- src/util/allocator.cpp: what the allocator promises of its blocks.
use vitastor.Base.{
  ℕ, zero, suc, ◌+◌, ◌-◌, ◌*◌, ◌/◌, ◌%◌, ◌^◌, ◌<◌, ◌≤◌, ◌≡◌, ◌≢◌, refl, sym, ap, ◌∙◌, Bool, true,
  false, arith, ◌==◌, ◌!=◌, if◌then◌else◌, lt→leb, le→leb,
}
use vitastor.Base.Bits.{nth_bit, nth_bit-lt}
use vitastor.Base.Words.{add64, sub64}
use vitastor.Allocator.{
  Allocator, leaf_level, new, get, set_block, count_free, full_word, max_levels,
}
use vitastor.Allocator.Edges.{
  leaves, leaf_width, word, width, full_value, to_nat, Edge, Shape, Shape-HasLeaf,
}
use vitastor.Allocator.Marking.{At, Done, set_loop-Done, mask_bit_lem, Shape-small, leaves_congr}
use native.Mathlib.Decide.{ℕ_discrete, dec_lt}

-- How many of the first `n` blocks are free.
unfoldable pub count_zeros : (ℕ → Bool) → ℕ → ℕ
count_zeros taken zero = 0
count_zeros taken (suc n) = (if taken n then 0 else 1) + count_zeros taken n

count_zeros_same :
    (f g : ℕ → Bool) (n : ℕ) → ((y : ℕ) → y < n → g y ≡ f y) → count_zeros g n ≡ count_zeros f n
unfolding count_zeros
count_zeros_same f g zero h = refl
count_zeros_same f g (suc n) h =
    rw (h n (omega arith), count_zeros_same f g n (λ y l. h y (omega arith)))

count_zeros_update :
    (f g : ℕ → Bool) (n x : ℕ)
    → x < n
    → ((y : ℕ) → y < n → y ≢ x → g y ≡ f y)
    → count_zeros g n + (if f x then 0 else 1) ≡ count_zeros f n + (if g x then 0 else 1)
unfolding count_zeros
count_zeros_update f g zero x h same = absurd (omega arith)
count_zeros_update f g (suc n) x h same = elim (ℕ_discrete x n) [
  | yes e ↦
      let rest = count_zeros_same f g n (λ y l. same y (omega arith) (λ q. omega arith)) in
      rw (e, rest) (omega arith)
  | no m ↦
      let rest = count_zeros_update f g n x (omega arith) (λ y l. same y (omega arith)) in
      let last = same n (omega arith) (λ q. m (sym q)) in rw last (omega (arith, rest))
]

count_zeros-le : (f : ℕ → Bool) (n : ℕ) → count_zeros f n ≤ n
unfolding count_zeros
count_zeros-le f zero = omega arith
count_zeros-le f (suc n) = ground (arith, count_zeros-le f n)

-- The word of a block.
abbrev pub home : Allocator → ℕ → ℕ
home a addr = leaves a + addr / 64

pub home-lt : {a : Allocator} → Shape a → (addr : ℕ) → addr < a.size → home a addr < a.total
home-lt s addr h = omega (arith, s.words)

pub home_low :
    {a : Allocator} → Shape a → (addr : ℕ) → addr < a.size → addr % 64 < width a (home a addr)
unfolding width
home_low {a} s addr h = ground (arith, s.words)

home_whole :
    {a : Allocator}
    → Shape a
    → (addr : ℕ) → addr < a.size
    → full_word a true addr ≡ full_value a (home a addr)
unfolding width full_word
home_whole {a} s addr h = ground (arith, s.words, s.ones)

home64 :
    {a : Allocator}
    → Shape a
    → (addr : ℕ) → addr < a.size
    → add64 (leaves a) (addr / 64) ≡ home a addr
home64 s addr h = omega (arith, home-lt s addr h, Shape-small s)

pub get_lem :
    {a : Allocator}
    → Shape a
    → (addr : ℕ) → addr < a.size
    → get a addr ≡ (nth_bit (addr % 64) (word a (home a addr)) != 0)
unfolding get
get_lem {a} s addr h =
    let e : add64 (leaf_level max_levels a.size 1 0).1 (addr / 64) ≡ home a addr =
      unfold leaves in home64 s addr h in
    rw (lt→leb _ _ h, e, mask_bit_lem)

-- A right allocator: its tree and its count of free blocks agree with its blocks.
pub record IsValid (a : Allocator) : Type 0 where
  pub shape : Shape a
  pub edges : (x : ℕ) → 0 < x → (x - 1) / 64 < leaves a → Edge a x
  pub counted : a.free ≡ count_zeros (get a) a.size

to_nat_ne_zero : (b : Bool) → (to_nat b != 0) ≡ b
to_nat_ne_zero true = refl
to_nat_ne_zero false = refl

-- What `set` does to a right allocator.
set_block-Done :
    {a : Allocator} (v : IsValid a) (addr : ℕ) (value : Bool)
    → addr < a.size
    → Done a (set_block a addr value) value true (home a addr) addr
unfolding set_block
set_block-Done {a} v addr value h =
    let s = v.shape in
    let l = Shape-HasLeaf s in
    let t : At a l.depth (leaf_width a) (leaves a) addr true (home a addr)
        (64 * home a addr + 1 + addr % 64) =
      record {
        level = l.leaf.level;
        here = refl;
        child = refl;
        room = omega (arith, l.leaf.enough);
        inside = home-lt s addr h;
        low = home_low s addr h;
        whole = home_whole s addr h;
      } in
    rw (lt→leb _ _ h) (
      unfold leaves leaf_width in
      set_loop-Done (max_levels + 1) l.depth (leaf_width a) (leaves a) addr (home a addr) _ value
        true a (omega (arith, l.leaf.depth)) s t (λ x pos inner _. v.edges x pos inner)
        (λ q. absurd (omega arith)))

-- A write past the end changes nothing.
pub set_block_past :
    (a : Allocator) (addr : ℕ) (value : Bool) → a.size ≤ addr → set_block a addr value ≡ a
unfolding set_block
set_block_past a addr value h = rw (le→leb _ _ h)

pub get_past : (a : Allocator) (addr : ℕ) → a.size ≤ addr → get a addr ≡ false
unfolding get
get_past a addr h = rw (le→leb _ _ h)

module _ (a : Allocator) (addr : ℕ) (value : Bool) (v : IsValid a) (h : addr < a.size) where
  abbrev after : Allocator
  after = set_block a addr value

  done : Done a after value true (home a addr) addr
  done = set_block-Done v addr value h

  same_home : (x : ℕ) → home after x ≡ home a x
  same_home x = ap (λ l. l + x / 64) (leaves_congr a after done.size)

  after-get : (x : ℕ) → x < a.size → get after x ≡ (nth_bit (x % 64) (word after (home a x)) != 0)
  after-get x l = rw (← same_home x) (get_lem done.shape x (rw done.size l))

  get_self : get after addr ≡ value
  get_self = after-get addr h ∙ ap (λ b. b != 0) done.made ∙ to_nat_ne_zero value

  same_bit :
      (x : ℕ)
      → x ≢ addr
      → nth_bit (x % 64) (word after (home a x)) ≡ nth_bit (x % 64) (word a (home a x))
  same_bit x n = elim (ℕ_discrete (home a x) (home a addr)) [
    | yes e ↦ rw e (done.others (x % 64) (λ q. n (omega arith)))
    | no m ↦ ap (nth_bit (x % 64)) (done.leaf_words (home a x) (omega arith) m)
  ]

  get_other : (x : ℕ) → x ≢ addr → get after x ≡ get a x
  get_other x n = elim (dec_lt x a.size) [
    | yes l ↦ after-get x l ∙ ap (λ b. b != 0) (same_bit x n) ∙ sym (get_lem v.shape x l)
    | no l ↦ get_past after x (rw done.size (omega arith)) ∙ sym (get_past a x (omega arith))
  ]

  get-after : (x : ℕ) → get after x ≡ (if x == addr then value else get a x)
  get-after x = ground (arith, get_self, get_other x)

  counted_by :
      (bit : ℕ) (value : Bool) (free before now : ℕ) (old new : Bool)
      → free ≡ before
      → before ≤ 2 ^ 31
      → bit < 2
      → old ≡ (bit != 0)
      → new ≡ value
      → now + (if old then 0 else 1) ≡ before + (if new then 0 else 1)
      → (if bit == to_nat value then free else if value then sub64 free 1 else add64 free 1) ≡ now
  counted_by bit true free before now old new p q r e f g = ground arith
  counted_by bit false free before now old new p q r e f g = ground arith

  counted_after : after.free ≡ count_zeros (get after) a.size
  unfolding count_free
  counted_after =
      done.counted
      ∙ counted_by (nth_bit (addr % 64) (word a (home a addr))) value a.free
          (count_zeros (get a) a.size) (count_zeros (get after) a.size) (get a addr)
          (get after addr) v.counted (omega (arith, count_zeros-le (get a) a.size, v.shape.small))
          (nth_bit-lt _ _) (get_lem v.shape addr h) get_self
          (count_zeros_update (get a) (get after) a.size addr h (λ y _ n. get_other y n))

  after-IsValid : IsValid after
  after-IsValid = record {
    shape = done.shape;
    edges = done.edges;
    counted = counted_after ∙ ap (count_zeros (get after)) (sym done.size);
  }

-- A block of a right allocator after `set` of a block that exists: the named one has the new value,
-- and no other one changed.
pub get-set_block :
    (a : Allocator) (addr x : ℕ) (value : Bool)
    → IsValid a
    → addr < a.size
    → get (set_block a addr value) x ≡ (if x == addr then value else get a x)
get-set_block a addr x value v h = get-after a addr value v h x

-- `set` keeps an allocator right, its tree of full words and its count of free blocks included,
-- whether or not the block exists.
pub set_block-IsValid :
    (a : Allocator) (addr : ℕ) (value : Bool) → IsValid a → IsValid (set_block a addr value)
set_block-IsValid a addr value v = elim (dec_lt addr a.size) [
  | yes h ↦ after-IsValid a addr value v h
  | no h ↦ rw (set_block_past a addr value (omega arith)) v
]
