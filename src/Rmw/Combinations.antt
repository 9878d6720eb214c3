-- ===== src/Rmw/Combinations.antt =====
-- src/osd/osd_rmw.cpp: the subsets that the search for good chunks goes through, as increasing lists
-- of indices, and their number.
use vitastor.Base.{
  ℕ, zero, suc, ◌+◌, ◌-◌, ◌/◌, List, [], ◌∷◌, Option, none, some, ltb, leb, if◌then◌else◌, get_or,
  set,
}
use vitastor.Base.Words.{uint64_max, mul64}

-- `0, 1, ..., k - 1` from an index on
unfoldable pub count_up : ℕ → ℕ → List ℕ
count_up zero i = []
count_up (suc k) i = i ∷ count_up k (i + 1)

-- `first_combination`; `none` is the result false.
unfoldable pub first_combination : ℕ → ℕ → Option (List ℕ)
first_combination k n = if ltb n k then none else some (count_up k 0)

-- `for (pos++; pos < k; pos++) subset[pos] = subset[pos-1]+1;`
unfoldable pub fill_after : ℕ → ℕ → List ℕ → List ℕ
fill_after zero pos subset = subset
fill_after (suc left) pos subset =
    fill_after left (pos + 1) (set subset pos (get_or subset (pos - 1) 0 + 1))

-- The loop of `next_combination` at `pos`.
unfoldable pub next_at : ℕ → List ℕ → ℕ → ℕ → Option (List ℕ)
next_at zero subset k n =
    let more = set subset 0 (get_or subset 0 0 + 1) in
    if leb (n - (k - 1)) (get_or more 0 0) then none else some (fill_after (k - 1) 1 more)
next_at (suc pos) subset k n =
    let more = set subset (suc pos) (get_or subset (suc pos) 0 + 1) in
    let earlier = next_at pos more k n in
    if leb (n - (k - 1 - suc pos)) (get_or more (suc pos) 0)
    then earlier
    else some (fill_after (k - 1 - suc pos) (suc pos + 1) more)

-- `next_combination`; `none` is the result false.
unfoldable pub next_combination : List ℕ → ℕ → ℕ → Option (List ℕ)
next_combination subset k n = next_at (k - 1) subset k n

-- `for (i = n; i > k; i--)`, with `none` for the early result; `left` is `i - k`.
unfoldable pub falling : ℕ → ℕ → ℕ → Option ℕ
falling zero k c = some c
falling (suc left) k c =
    let i = k + suc left in
    let rest = falling left k (mul64 c i) in if ltb (mul64 c i) i then none else rest

-- `for (i = 2; i <= (n-k); i++) c /= i;`
unfoldable pub divide_up : ℕ → ℕ → ℕ → ℕ
divide_up zero i c = c
divide_up (suc left) i c = divide_up left (i + 1) (c / i)

-- `c_n_k`, for `k <= n`
unfoldable pub c_n_k : ℕ → ℕ → ℕ
c_n_k n k = elim (falling (n - k) k 1) [ none ↦ uint64_max | some c ↦ divide_up (n - k - 1) 2 c ]
