-- ===== src/Cache/Settle.antt =====
-- src/client/cluster_client_wb.cpp: what the steps that change or drop buffers which do not wait to be
-- written back have in common.
use vitastor.Base.{
  ℕ, ◌≡◌, refl, ◌∙◌, ap, ◌⊎◌, inl, inr, true, false, ◌&&◌, List, [], ◌∷◌, Option, none, some,
  if◌then◌else◌, arith, Bool-cases,
}
use mathlib.Core.Option
use vitastor.Cache.{CacheState, is_dirty, Buffer, is_some}
use vitastor.Cache.Order.{IsSorted}
use vitastor.Cache.Cells.{cell_at, covers, cell_of}
use vitastor.Cache.Sums.{dirty_bytes, starts, runs, runs_late, IsSorted-shorter, IsSorted-late}

-- A step on a buffer: the new state with its flush, or none where the buffer is dropped.
abbrev pub Step : Type 0
Step = Buffer → Option (CacheState × ℕ)

abbrev pub apply_to : Buffer → Option (CacheState × ℕ) → Option Buffer
apply_to e none = none
apply_to e (some (state, flush_id)) = some (record e { state = state; flush_id = flush_id })

abbrev pub cons_maybe : Option Buffer → List Buffer → List Buffer
cons_maybe none es = es
cons_maybe (some e) es = e ∷ es

-- The buffers after a step on each.
unfoldable pub settle : Step → List Buffer → List Buffer
settle f [] = []
settle f (e ∷ es) = cons_maybe (apply_to e (f e)) (settle f es)

-- The step leaves a dirty buffer alone and makes no buffer dirty.
abbrev pub IsCleanState : Option (CacheState × ℕ) → Type 0
IsCleanState none = Unit
IsCleanState (some (state, flush_id)) = is_dirty state ≡ false

abbrev pub IsCleanAt : Buffer → Option (CacheState × ℕ) → Type 0
IsCleanAt e o = (o ≡ some (e.state, e.flush_id)) ⊎ ((is_dirty e.state ≡ false) × IsCleanState o)

abbrev pub IsClean : Step → Type 0
IsClean f = (e : Buffer) → IsCleanAt e (f e)

-- The buffer that holds a position.
unfoldable pub buffer_at : ℕ → ℕ → List Buffer → Option Buffer
buffer_at inode pos [] = none
buffer_at inode pos (e ∷ es) = if covers inode pos e then some e else buffer_at inode pos es

pub cell_at-buffer_at :
    (i x : ℕ) (es : List Buffer) → cell_at i x es ≡ Option.map (cell_of x) (buffer_at i x es)
unfolding cell_at buffer_at
cell_at-buffer_at i x [] = refl
cell_at-buffer_at i x (e ∷ es) = elim (Bool-cases (covers i x e)) [
  | inl y ↦ rw y refl
  | inr n ↦ rw n (cell_at-buffer_at i x es)
]

-- A buffer in front, not overlapping with those behind it, is the only one at its positions.
buffer_at-behind :
    (i x : ℕ) (p : Buffer) (es : List Buffer)
    → IsSorted (some p) es
    → covers i x p ≡ true
    → buffer_at i x es ≡ none
unfolding buffer_at
buffer_at-behind i x p [] v y = refl
buffer_at-behind i x p (e ∷ es) (pos, fits, front) y =
    let away : covers i x e ≡ false = ground (arith, fits, y) in
    rw away (buffer_at-behind i x p es (IsSorted-late (some p) e es fits front) y)

abbrev pub step_at : Step → Option Buffer → Option Buffer
step_at f none = none
step_at f (some e) = apply_to e (f e)

buffer_at-cons_maybe :
    (i x : ℕ) (e : Buffer) (o : Option (CacheState × ℕ)) (rest : List Buffer)
    → buffer_at i x (cons_maybe (apply_to e o) rest)
      ≡ (if covers i x e && is_some o then apply_to e o else buffer_at i x rest)
unfolding buffer_at
buffer_at-cons_maybe i x e none rest = ground arith
buffer_at-cons_maybe i x e (some (state, flush_id)) rest = ground arith

apply_or :
    (o : Option (CacheState × ℕ)) (e : Buffer)
    → (if is_some o then apply_to e o else none) ≡ apply_to e o
apply_or none e = refl
apply_or (some (state, flush_id)) e = refl

-- A position holds what the step makes of the buffer there.
pub buffer_at-settle :
    (f : Step) (i x : ℕ) (prev : Option Buffer) (es : List Buffer)
    → IsSorted prev es
    → buffer_at i x (settle f es) ≡ step_at f (buffer_at i x es)
unfolding settle buffer_at
buffer_at-settle f i x prev [] v = refl
buffer_at-settle f i x prev (e ∷ es) (pos, fits, front) =
    let rest = buffer_at-settle f i x (some e) es front in
    let first = buffer_at-cons_maybe i x e (f e) (settle f es) in
    elim (Bool-cases (covers i x e)) [
      | inr n ↦ first ∙ rw n rest
      | inl y ↦
          let empty = rest ∙ ap (step_at f) (buffer_at-behind i x e es front y) in
          first ∙ rw (y, empty) (apply_or (f e) e)
    ]

settle-cons-IsSorted :
    (prev : Option Buffer) (e : Buffer) (o : Option (CacheState × ℕ)) (rest rest' : List Buffer)
    → ((p : Option Buffer) → IsSorted p rest → IsSorted p rest')
    → IsSorted prev (e ∷ rest)
    → IsSorted prev (cons_maybe (apply_to e o) rest')
settle-cons-IsSorted prev e none rest rest' ih (pos, fits, front) =
    ih prev (IsSorted-late prev e rest fits front)
settle-cons-IsSorted prev e (some (st, id)) rest rest' ih (pos, fits, front) =
    let e' = record e { state = st; flush_id = id } in
    (pos, fits, ih (some e') (IsSorted-shorter e e' rest refl (omega arith) front))

pub settle-IsSorted :
    (f : Step) (prev : Option Buffer) (es : List Buffer)
    → IsSorted prev es
    → IsSorted prev (settle f es)
unfolding settle
settle-IsSorted f prev [] v = tt
settle-IsSorted f prev (e ∷ es) v =
    settle-cons-IsSorted prev e (f e) es (settle f es) (λ p h. settle-IsSorted f p es h) v

dirty_bytes-cons_maybe :
    (e : Buffer) (o : Option (CacheState × ℕ)) (rest rest' : List Buffer)
    → IsCleanAt e o
    → dirty_bytes rest' ≡ dirty_bytes rest
    → dirty_bytes (cons_maybe (apply_to e o) rest') ≡ dirty_bytes (e ∷ rest)
unfolding dirty_bytes
dirty_bytes-cons_maybe e none rest rest' (inl c) ih = cc
dirty_bytes-cons_maybe e none rest rest' (inr (n, c)) ih = ground (arith, n, ih)
dirty_bytes-cons_maybe e (some (st, id)) rest rest' (inl c) ih = ground (arith, c, ih)
dirty_bytes-cons_maybe e (some (st, id)) rest rest' (inr (n, c)) ih = ground (arith, n, c, ih)

pub dirty_bytes-settle :
    (f : Step) (es : List Buffer) → IsClean f → dirty_bytes (settle f es) ≡ dirty_bytes es
unfolding settle
dirty_bytes-settle f [] c = refl
dirty_bytes-settle f (e ∷ es) c =
    dirty_bytes-cons_maybe e (f e) es (settle f es) (c e) (dirty_bytes-settle f es c)

-- Behind a buffer that is not dirty a request starts anew.
runs_clean :
    (e : Buffer) (rest : List Buffer)
    → is_dirty e.state ≡ false
    → runs (some e) rest ≡ runs none rest
unfolding runs
runs_clean e [] n = refl
runs_clean e (r ∷ rs) n = ground (arith, n)

starts_clean : (prev : Option Buffer) (e : Buffer) → is_dirty e.state ≡ false → starts prev e ≡ 0
starts_clean none e n = rw n refl
starts_clean (some p) e n = rw n refl

same_buffer :
    (e : Buffer) (st : CacheState) (id : ℕ)
    → ◌≡◌ {A = Option (CacheState × ℕ)} (some (st, id)) (some (e.state, e.flush_id))
    → record e { state = st; flush_id = id } ≡ e
same_buffer e st id h = cc

runs-cons_maybe :
    (prev : Option Buffer) (e : Buffer) (o : Option (CacheState × ℕ)) (rest rest' : List Buffer)
    → IsCleanAt e o
    → IsSorted prev (e ∷ rest)
    → ((p : Option Buffer) → IsSorted p rest → runs p rest' ≡ runs p rest)
    → runs prev (cons_maybe (apply_to e o) rest') ≡ runs prev (e ∷ rest)
unfolding runs
runs-cons_maybe prev e none rest rest' (inl c) v ih = cc
runs-cons_maybe prev e none rest rest' (inr (n, c)) (pos, fits, front) ih =
    let late = runs_late prev e rest e.stripe (omega (arith, pos)) fits front in
    ground (arith, ih prev (IsSorted-late prev e rest fits front), late, starts_clean prev e n, n)
runs-cons_maybe prev e (some (st, id)) rest rest' (inl c) (pos, fits, front) ih =
    rw (same_buffer e st id c) (omega (arith, ih (some e) front))
runs-cons_maybe prev e (some (st, id)) rest rest' (inr (n, c)) (pos, fits, front) ih =
    let e' = record e { state = st; flush_id = id } in
    omega (
      arith,
      ih (some e') (IsSorted-shorter e e' rest refl (omega arith) front),
      starts_clean prev e n,
      starts_clean prev e' c,
      runs_clean e rest n,
      runs_clean e' rest c,
    )

pub runs-settle :
    (f : Step) (prev : Option Buffer) (es : List Buffer)
    → IsClean f
    → IsSorted prev es
    → runs prev (settle f es) ≡ runs prev es
unfolding settle
runs-settle f prev [] c v = refl
runs-settle f prev (e ∷ es) c v =
    runs-cons_maybe prev e (f e) es (settle f es) (c e) v (λ p h. runs-settle f p es c h)
