-- ===== src/Cache/Content.antt =====
-- src/client/cluster_client_wb.cpp: the bytes that `copy_write` keeps.
use vitastor.Base.{
  ℕ, ◌+◌, ◌-◌, ◌^◌, ◌<◌, ◌≤◌, ◌≡◌, refl, ◌∙◌, ap, ◌⊎◌, inl, inr, true, false, List, [], ◌∷◌, Option,
  none, some, ltb, leb, if◌then◌else◌, arith, ◌==◌, ◌&&◌, Bool-cases,
}
use native.Mathlib.Decide.{dec_lt}
use mathlib.Core.Option
use vitastor.Memory.{Memory, memcpy}
use vitastor.Memory.Copies.{IsApart, memcpy-at, memcpy-away}
use vitastor.Cache.{CacheState, Buffer}
use vitastor.Cache.Cells.{Cell, cell_at, covers}
use vitastor.Cache.Sums.{dirty_bytes}
use vitastor.Cache.Write.{ClusterOp, copy_iov, Cache, copy_write}
use vitastor.Cache.Insert.{IsValid, new_cell, copied_memory, copy_write_lem, Outside-of_test}

-- The length of a vector's ranges together.
abbrev pub iov_len : List (ℕ × ℕ) → ℕ
iov_len [] = 0
iov_len ((base, n) ∷ iov) = n + iov_len iov

-- The address of the byte `k` of a vector.
abbrev pub iov_at : List (ℕ × ℕ) → ℕ → ℕ
iov_at [] k = 0
iov_at ((base, n) ∷ iov) k = if ltb k n then base + k else iov_at iov (k - n)

-- All ranges of a vector are apart from a target.
abbrev pub AreApart : ℕ → ℕ → List (ℕ × ℕ) → Type 0
AreApart lo hi [] = Unit
AreApart lo hi ((base, n) ∷ iov) = IsApart lo hi base n × AreApart lo hi iov

iov_at-apart :
    (lo hi : ℕ) (iov : List (ℕ × ℕ)) (k : ℕ)
    → AreApart lo hi iov
    → k < iov_len iov
    → (iov_at iov k < lo) ⊎ (hi ≤ iov_at iov k)
iov_at-apart lo hi [] k v h = absurd (omega (arith, h))
iov_at-apart lo hi ((base, n) ∷ iov) k (a, v) h = elim (dec_lt k n) [
  | yes l ↦ ground (arith, a, l)
  | no l ↦
      let rest = iov_at-apart lo hi iov (k - n) v (omega (arith, h, l)) in ground (arith, rest, l)
]

copy_iov-away :
    (dest : ℕ) (iov : List (ℕ × ℕ)) (x : ℕ) (m : Memory)
    → (x < dest) ⊎ (dest + iov_len iov ≤ x)
    → copy_iov dest iov m x ≡ m x
unfolding copy_iov
copy_iov-away dest [] x m o = refl
copy_iov-away dest ((base, n) ∷ iov) x m o =
    copy_iov-away (dest + n) iov x (memcpy dest base n m) (ground (arith, o))
    ∙ memcpy-away dest base n x m (ground (arith, o))

-- The copy of a vector holds its bytes.
copy_iov-at :
    (lo hi dest : ℕ) (iov : List (ℕ × ℕ)) (k : ℕ) (m : Memory)
    → AreApart lo hi iov
    → lo ≤ dest
    → dest + iov_len iov ≤ hi
    → k < iov_len iov
    → copy_iov dest iov m (dest + k) ≡ m (iov_at iov k)
unfolding copy_iov
copy_iov-at lo hi dest [] k m v l r h = absurd (omega (arith, h))
copy_iov-at lo hi dest ((base, n) ∷ iov) k m (a, v) l r h = elim (dec_lt k n) [
  | yes first ↦
      let apart : IsApart dest (dest + n) base n = ground (arith, a, l, r) in
      let place : base + (dest + k - dest) ≡ base + k = omega arith in
      copy_iov-away (dest + n) iov (dest + k) (memcpy dest base n m) (inl (omega (arith, first)))
      ∙ ground (arith, rw place at (memcpy-at dest base n (dest + k) m apart), first)
  | no later ↦
      let rest =
        copy_iov-at lo hi (dest + n) iov (k - n) (memcpy dest base n m) v (omega (arith, l))
          (omega (arith, r)) (omega (arith, h, later)) in
      let place : dest + n + (k - n) ≡ dest + k = omega (arith, later) in
      let away = iov_at-apart lo hi iov (k - n) v (omega (arith, h, later)) in
      let kept = memcpy-away dest base n (iov_at iov (k - n)) m (ground (arith, away, l, r)) in
      (rw place at rest) ∙ kept ∙ ground (arith, later)
]

-- The byte at an address; a deleted position has none and is zero.
abbrev pub byte_at : Memory → Option ℕ → ℕ
byte_at m none = 0
byte_at m (some a) = m a

-- The byte at a cached position.
abbrev pub value_of : Memory → Option Cell → Option ℕ
value_of m none = none
value_of m (some c) = some (byte_at m c.address)

-- The image that a cache stands for: the byte of a position, if it has one.
abbrev pub image : Cache → Memory → ℕ → ℕ → Option ℕ
image cache m inode pos = value_of m (cell_at inode pos cache.dirty_buffers)

-- A buffer's bytes, if it has any, are apart from a target.
abbrev pub BufferApart : ℕ → ℕ → Option ℕ → ℕ → Type 0
BufferApart lo hi none n = Unit
BufferApart lo hi (some a) n = IsApart lo hi a n

-- No buffer has bytes from `lo` to `hi`.
abbrev pub IsFresh : ℕ → ℕ → List Buffer → Type 0
IsFresh lo hi [] = Unit
IsFresh lo hi (e ∷ es) = BufferApart lo hi e.buf e.len × IsFresh lo hi es

-- The bytes of a write of an image: those of its vector, or zeroes where it deletes.
abbrev pub new_byte : ClusterOp → Memory → ℕ → ℕ
new_byte op m x = if op.is_delete then 0 else m (iov_at op.iov (x - op.offset))

-- What the operation needs of its vector.
abbrev pub HasData : ClusterOp → ℕ → Type 0
HasData op buf =
    (op.is_delete ≡ true) ⊎ ((iov_len op.iov ≡ op.len) × AreApart buf (buf + op.len) op.iov)

value_of-buffer :
    (lo hi x : ℕ) (b : Option ℕ) (s n : ℕ) (st : CacheState) (f r : ℕ) (m m' : Memory)
    → BufferApart lo hi b n
    → s ≤ x
    → x < s + n
    → ((a : ℕ) → (a < lo) ⊎ (hi ≤ a) → m' a ≡ m a)
    → value_of m' (
        some (record {
          address = Option.map (λ a. a + (x - s)) b;
          state = st;
          flush_id = f;
          refcnt = r;
        }))
      ≡ value_of m (
          some (record {
            address = Option.map (λ a. a + (x - s)) b;
            state = st;
            flush_id = f;
            refcnt = r;
          }))
value_of-buffer lo hi x none s n st f r m m' v l h same = refl
value_of-buffer lo hi x (some a) s n st f r m m' v l h same =
    ap some (same (a + (x - s)) (ground (arith, v, l, h)))

-- Where memory is the same but for the fresh range, the buffers hold the same bytes.
image-fresh :
    (lo hi i x : ℕ) (es : List Buffer) (m m' : Memory)
    → IsFresh lo hi es
    → ((a : ℕ) → (a < lo) ⊎ (hi ≤ a) → m' a ≡ m a)
    → value_of m' (cell_at i x es) ≡ value_of m (cell_at i x es)
unfolding cell_at
image-fresh lo hi i x [] m m' v same = refl
image-fresh lo hi i x (e ∷ es) m m' (here, v) same =
    let rest = image-fresh lo hi i x es m m' v same in
    elim (Bool-cases (covers i x e)) [
      | inr n ↦ rw n rest
      | inl y ↦ rw y (
          value_of-buffer lo hi x e.buf e.stripe e.len e.state e.flush_id e.refcnt m m' here
            (ground (arith, y)) (ground (arith, y)) same)
    ]

copied_memory-away :
    (op : ClusterOp) (buf : ℕ) (m : Memory)
    → HasData op buf
    → (a : ℕ) → (a < buf) ⊎ (buf + op.len ≤ a)
    → copied_memory op buf m a ≡ m a
copied_memory-away op buf m (inl gone) a o = rw gone refl
copied_memory-away op buf m (inr (whole, apart)) a o = elim (Bool-cases op.is_delete) [
  | inl gone ↦ rw gone refl
  | inr kept ↦ rw kept (copy_iov-away buf op.iov a m (ground (arith, o, whole)))
]

copied_kept :
    (op : ClusterOp) (buf a : ℕ) (m : Memory)
    → op.is_delete ≡ false
    → copied_memory op buf m a ≡ copy_iov buf op.iov m a
copied_kept op buf a m kept = rw kept refl

value_of-new_cell :
    (op : ClusterOp) (state : CacheState) (flush_id refcnt buf x : ℕ) (m : Memory)
    → HasData op buf
    → op.offset ≤ x
    → x < op.offset + op.len
    → value_of (copied_memory op buf m) (some (new_cell op state flush_id (refcnt, buf) x))
      ≡ some (new_byte op m x)
value_of-new_cell op state flush_id refcnt buf x m (inl gone) lo hi = rw gone refl
value_of-new_cell op state flush_id refcnt buf x m (inr (whole, apart)) lo hi =
    elim (Bool-cases op.is_delete) [
      | inl gone ↦ rw gone refl
      | inr kept ↦
          let place : Option.map (λ a. a + (x - op.offset))
                (if op.is_delete then none else some buf)
              ≡ some (buf + (x - op.offset)) =
            rw kept refl in
          let byte : m (iov_at op.iov (x - op.offset)) ≡ new_byte op m x = rw kept refl in
          ap some (
            ap (byte_at (copied_memory op buf m)) place
            ∙ copied_kept op buf (buf + (x - op.offset)) m kept
            ∙ (copy_iov-at buf (buf + op.len) buf op.iov (x - op.offset) m apart (omega arith)
                (omega (arith, whole)) (omega (arith, whole, lo, hi)))
            ∙ byte)
    ]

-- A write puts its bytes, or zeroes for a deletion, at the positions of its range into the image that
-- the cache stands for, and changes no other position of any inode. The new allocation does not
-- overlap the bytes of the other buffers nor those of the operation, the operation's vector has the
-- operation's length, and the bytes to be written back number less than 2 ^ 64.
pub copy_write-image :
    (alloc : ℕ → ℕ × ℕ) (op : ClusterOp) (state : CacheState) (flush_id : ℕ) (cache : Cache)
    (m : Memory) (i x : ℕ)
    → IsValid cache
    → dirty_bytes cache.dirty_buffers + op.len < 2 ^ 64
    → IsFresh (alloc op.len).1 ((alloc op.len).1 + op.len) cache.dirty_buffers
    → HasData op (alloc op.len).1
    → (cache' : Cache) × (m' : Memory) × (copy_write alloc op state flush_id cache m
        ≡ some (cache', m'))
      × (image cache' m' i x ≡ (
          if i == op.inode && leb op.offset x && ltb x (op.offset + op.len)
          then some (new_byte op m x)
          else image cache m i x))
copy_write-image alloc op state flush_id cache m i x v room fresh has =
    elim (Bool-cases (op.len == 0)) [
      | inl none_len ↦
          let run : copy_write alloc op state flush_id cache m ≡ some (cache, m) =
            unfold copy_write in rw none_len refl in
          let away : (i == op.inode && leb op.offset x && ltb x (op.offset + op.len)) ≡ false =
            ground (arith, none_len) in
          (cache, m, run, rw away refl)
      | inr some_len ↦
          let buf = (alloc op.len).1 in
          let (cache', run, copied) =
            copy_write_lem alloc op state flush_id cache m v (ground (arith, some_len)) room in
          (
            cache',
            copied_memory op buf m,
            run,
            elim (Bool-cases (i == op.inode && leb op.offset x && ltb x (op.offset + op.len))) [
              | inl y ↦
                  let same : i ≡ op.inode = ground (arith, y) in
                  let lo : op.offset ≤ x = ground (arith, y) in
                  let hi : x < op.offset + op.len = ground (arith, y) in
                  rw y (
                    rw (same, copied.inside x lo hi)
                      (value_of-new_cell op state flush_id (alloc op.len).0 buf x m has lo hi))
              | inr n ↦
                  let out = Outside-of_test op.inode op.offset (op.offset + op.len) i x n in
                  rw (n, copied.outside i x out)
                    (image-fresh buf (buf + op.len) i x cache.dirty_buffers m
                      (copied_memory op buf m) fresh (copied_memory-away op buf m has))
            ],
          )
    ]
