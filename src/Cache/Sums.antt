-- ===== src/Cache/Sums.antt =====
-- src/client/cluster_client_wb.cpp: how many bytes wait to be written back, and in how many
-- consecutive requests.
use vitastor.Base.{
  ℕ, ◌+◌, ◌<◌, ◌≤◌, ◌≡◌, refl, not, ◌&&◌, List, [], ◌∷◌, Option, none, some, if◌then◌else◌, arith,
}
use mathlib.Core.Option
use vitastor.Cache.{
  is_dirty, Buffer, is_some, end_of, touches, rewind, is_left_merged, is_right_merged,
}
use vitastor.Cache.Order.{head, Before, IsSorted}

-- The bytes of a buffer that wait to be written back; a deleted range has none.
abbrev pub waiting : Buffer → ℕ
waiting e = if is_dirty e.state && is_some e.buf then e.len else 0

unfoldable pub dirty_bytes : List Buffer → ℕ
dirty_bytes [] = 0
dirty_bytes (e ∷ es) = waiting e + dirty_bytes es

-- A dirty buffer that does not continue the one before it starts a request.
abbrev pub starts : Option Buffer → Buffer → ℕ
starts none e = if is_dirty e.state then 1 else 0
starts (some p) e = if is_dirty e.state && not (touches p e && is_dirty p.state) then 1 else 0

unfoldable pub runs : Option Buffer → List Buffer → ℕ
runs prev [] = 0
runs prev (e ∷ es) = starts prev e + runs (some e) es

unfoldable pub back_runs : List Buffer → ℕ
back_runs [] = 0
back_runs (p ∷ ps) = starts (head ps) p + back_runs ps

pub dirty_bytes-rewind :
    (ps after : List Buffer) → dirty_bytes (rewind ps after) ≡ dirty_bytes ps + dirty_bytes after
unfolding dirty_bytes rewind
dirty_bytes-rewind [] after = omega arith
dirty_bytes-rewind (p ∷ ps) after = omega (arith, dirty_bytes-rewind ps (p ∷ after))

pub runs-rewind :
    (ps after : List Buffer) → runs none (rewind ps after) ≡ back_runs ps + runs (head ps) after
unfolding runs rewind back_runs
runs-rewind [] after = omega arith
runs-rewind (p ∷ ps) after = omega (arith, runs-rewind ps (p ∷ after))

-- The number of requests after a buffer that is cut or removed, where `late` stands for the buffer
-- before, which ends too early for the rest to continue it.
pub runs_late :
    (late : Option Buffer) (e : Buffer) (rest : List Buffer) (off : ℕ)
    → off < end_of e
    → Before late e.inode off
    → IsSorted (some e) rest
    → runs (some e) rest + (if is_dirty e.state && is_right_merged e rest then 1 else 0)
      ≡ runs late rest
unfolding runs is_right_merged
runs_late late e [] off pos b v = ground arith
runs_late none e (n ∷ ns) off pos b v = ground arith
runs_late (some p) e (n ∷ ns) off pos b v = ground (arith, b, v.1)

pub is_left_merged_lem :
    (ps : List Buffer) (e : Buffer)
    → starts (head ps) e + (if is_dirty e.state && is_left_merged ps e then 1 else 0)
      ≡ (if is_dirty e.state then 1 else 0)
unfolding is_left_merged
is_left_merged_lem [] e = ground arith
is_left_merged_lem (p ∷ ps) e = ground arith

-- A buffer that ends where another did, and that has its state, has the same requests behind it.
pub runs_same_end :
    (e f : Buffer) (rest : List Buffer)
    → e.inode ≡ f.inode
    → is_some e.buf ≡ is_some f.buf
    → end_of e ≡ end_of f
    → e.state ≡ f.state
    → runs (some e) rest ≡ runs (some f) rest
unfolding runs
runs_same_end e f [] i b n s = refl
runs_same_end e f (r ∷ rs) i b n s = rw (i, b, n, s) refl

pub IsSorted-shorter :
    (e f : Buffer) (rest : List Buffer)
    → e.inode ≡ f.inode
    → end_of f ≤ end_of e
    → IsSorted (some e) rest
    → IsSorted (some f) rest
IsSorted-shorter e f [] i n v = tt
IsSorted-shorter e f (r ∷ rs) i n (pos, fits, rest) = (pos, ground (arith, fits), rest)

-- What remains sorted when a buffer is removed.
pub IsSorted-late :
    (late : Option Buffer) (e : Buffer) (rest : List Buffer)
    → Before late e.inode e.stripe
    → IsSorted (some e) rest
    → IsSorted late rest
IsSorted-late late e [] b v = tt
IsSorted-late none e (r ∷ rs) b (pos, fits, rest) = (pos, tt, rest)
IsSorted-late (some p) e (r ∷ rs) b (pos, fits, rest) = (pos, ground (arith, fits, b), rest)

pub is_some-map : (f : ℕ → ℕ) (b : Option ℕ) → is_some (Option.map f b) ≡ is_some b
is_some-map f none = refl
is_some-map f (some a) = refl
