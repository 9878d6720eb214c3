-- ===== src/Kv/Buffer.antt =====
-- src/kv/kv_db.cpp: `read_string` and `write_string` over the bytes of a buffer.
use vitastor.Base.{
  ℕ, zero, suc, ◌+◌, ◌/◌, ◌%◌, ◌^◌, ◌≤◌, ◌<◌, ◌≡◌, ◌⊎◌, refl, ap, subst, ◌∙◌, inl, List, [], ◌∷◌,
  ◌++◌, some, length, length-append, le→ltb, arith,
}
use native.Mathlib.Nat.{pow-suc}
use vitastor.Base.Words.{add32}
use vitastor.Memory.{Memory, write}
use vitastor.Journal.Entries.{store}
use vitastor.Kv.{Str, load, load_bytes, store_bytes, read_string}

-- The memory has these bytes from an address on.
abbrev pub Holds : Memory → ℕ → List ℕ → Type 0
Holds m a [] = Unit
Holds m a (x ∷ xs) = (m a ≡ x) × Holds m (a + 1) xs

-- The bytes of a number, the lowest first
unfoldable pub number_bytes : ℕ → ℕ → List ℕ
number_bytes zero v = []
number_bytes (suc n) v = (v % 256) ∷ number_bytes n (v / 256)

-- A string with its length in front
unfoldable pub string_bytes : Str → List ℕ
string_bytes s = number_bytes 4 (length s) ++ s

pub length-number_bytes : (n v : ℕ) → length (number_bytes n v) ≡ n
unfolding number_bytes
length-number_bytes zero v = refl
length-number_bytes (suc n) v = ap suc (length-number_bytes n (v / 256))

pub length-string_bytes : (s : Str) → length (string_bytes s) ≡ 4 + length s
unfolding string_bytes
length-string_bytes s =
    omega (arith, length-append {0} (number_bytes 4 (length s)) s, length-number_bytes 4 (length s))

pub Holds-append :
    (m : Memory) (a : ℕ) (xs ys : List ℕ)
    → Holds m a xs
    → Holds m (a + length xs) ys
    → Holds m a (xs ++ ys)
Holds-append m a [] ys h k = subst (λ b. Holds m b ys) (omega arith) k
Holds-append m a (x ∷ xs) ys (e, h) k =
    (e, Holds-append m (a + 1) xs ys h (subst (λ b. Holds m b ys) (omega arith) k))

pub Holds-split :
    (m : Memory) (a : ℕ) (xs ys : List ℕ)
    → Holds m a (xs ++ ys)
    → Holds m a xs × Holds m (a + length xs) ys
Holds-split m a [] ys h = (tt, subst (λ b. Holds m b ys) (omega arith) h)
Holds-split m a (x ∷ xs) ys (e, h) =
    let (k, l) = Holds-split m (a + 1) xs ys h in
    ((e, k), subst (λ b. Holds m b ys) (omega arith) l)

-- Bytes that do not change stay held.
pub Holds-same :
    (m m' : Memory) (a : ℕ) (xs : List ℕ)
    → ((x : ℕ) → a ≤ x → x < a + length xs → m' x ≡ m x)
    → Holds m a xs
    → Holds m' a xs
Holds-same m m' a [] same h = tt
Holds-same m m' a (x ∷ xs) same (e, h) = (
  same a (omega arith) (omega arith) ∙ e,
  Holds-same m m' (a + 1) xs (λ y l u. same y (omega arith) (omega arith)) h,
)

pub store-away : (n a v x : ℕ) (m : Memory) → (x < a) ⊎ (a + n ≤ x) → store n a v m x ≡ m x
unfolding store write
store-away zero a v x m o = refl
store-away (suc n) a v x m o =
    ground (arith, store-away n (a + 1) (v / 256) x (write a (v % 256) m) (ground (arith, o)), o)

pub store-Holds : (n a v : ℕ) (m : Memory) → Holds (store n a v m) a (number_bytes n v)
unfolding store number_bytes write
store-Holds zero a v m = tt
store-Holds (suc n) a v m = (
  store-away n (a + 1) (v / 256) a (write a (v % 256) m) (inl (omega arith)) ∙ ground arith,
  store-Holds n (a + 1) (v / 256) (write a (v % 256) m),
)

pub store_bytes-away :
    (a x : ℕ) (s : Str) (m : Memory) → (x < a) ⊎ (a + length s ≤ x) → store_bytes a s m x ≡ m x
unfolding store_bytes write
store_bytes-away a x [] m o = refl
store_bytes-away a x (c ∷ s) m o =
    ground (arith, store_bytes-away (a + 1) x s (write a c m) (ground (arith, o)), o)

pub store_bytes-Holds : (a : ℕ) (s : Str) (m : Memory) → Holds (store_bytes a s m) a s
unfolding store_bytes write
store_bytes-Holds a [] m = tt
store_bytes-Holds a (c ∷ s) m = (
  store_bytes-away (a + 1) a s (write a c m) (inl (omega arith)) ∙ ground arith,
  store_bytes-Holds (a + 1) s (write a c m),
)

-- A number below its width is loaded as it was stored.
pub load-Holds :
    (n a v : ℕ) (m : Memory) → v < 256 ^ n → Holds m a (number_bytes n v) → load n a m ≡ v
unfolding load number_bytes
load-Holds zero a v m l h = omega (arith, l)
load-Holds (suc n) a v m l (e, h) =
    omega (arith, e, load-Holds n (a + 1) (v / 256) m (omega (arith, l, pow-suc 256 n)) h)

pub load_bytes-Holds : (a : ℕ) (s : Str) (m : Memory) → Holds m a s → load_bytes (length s) a m ≡ s
unfolding load_bytes
load_bytes-Holds a [] m h = refl
load_bytes-Holds a (c ∷ s) m (e, h) = rw (e, load_bytes-Holds (a + 1) s m h) refl

-- A string that the buffer holds is read.
pub read_string-Holds :
    (m : Memory) (size pos : ℕ) (s : Str)
    → size < 2 ^ 31
    → pos + 4 + length s ≤ size
    → Holds m pos (string_bytes s)
    → read_string m size pos ≡ some (s, pos + 4 + length s)
unfolding read_string string_bytes
read_string-Holds m size pos s small fits h =
    let (h4, hs) = Holds-split m pos (number_bytes 4 (length s)) s h in
    let len : load 4 pos m ≡ length s = load-Holds 4 pos (length s) m (omega arith) h4 in
    let at : pos + length (number_bytes 4 (length s)) ≡ pos + 4 =
      omega (arith, length-number_bytes 4 (length s)) in
    let chars : Holds m (pos + 4) s = subst (λ b. Holds m b s) at hs in
    let whole : add32 (pos + 4) (length s) ≡ pos + 4 + length s = omega arith in
    rw
      (
        len,
        whole,
        le→ltb size (pos + 4) (omega arith),
        le→ltb size (pos + 4 + length s) fits,
        load_bytes-Holds (pos + 4) s m chars,
      )
      refl
