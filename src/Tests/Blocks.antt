-- ===== src/Tests/Blocks.antt =====
-- src/util/allocator.cpp: an allocator of two blocks and one of a hundred.
use vitastor.Base.{ℕ, ◌<◌, ◌≤◌, ◌≡◌, ◌^◌, refl, true, false, arith, ◌⊎◌, none, some}
use vitastor.Allocator.{
  Allocator, new, get, set_block, set_loop, mark_word, count_free, put_word, leaf_level, find_free,
  find_loop, first_zero, mask_bit, full_word,
}
use vitastor.Allocator.Blocks.{IsValid, get-set_block, set_block-IsValid}
use vitastor.Allocator.Fresh.{fresh, fresh-IsValid, IsNew, new-IsNew}
use vitastor.Allocator.Full.{find_free_small_full}
use vitastor.Allocator.Search.{find_free_lowest}

abbrev hundred : Allocator
hundred = fresh 100

hundred-IsValid : IsValid hundred
hundred-IsValid = fresh-IsValid 100 (omega arith) (omega arith)

new-IsNew_example :
    (((100 ≤ 1) ⊎ (2 ^ 31 ≤ 100)) × (new 100 ≡ none))
    ⊎ ((1 < 100) × (100 < 2 ^ 31) × (new 100 ≡ some (fresh 100)) × IsNew 100 (fresh 100))
new-IsNew_example = new-IsNew 100

abbrev marked : Allocator
marked = set_block hundred 70 true

get-set_block_example : get (set_block hundred 70 true) 70 ≡ true
get-set_block_example = get-set_block hundred 70 70 true hundred-IsValid (omega arith)

set_block-IsValid_example : IsValid (set_block hundred 70 true)
set_block-IsValid_example = set_block-IsValid hundred 70 true hundred-IsValid

marked-IsValid : IsValid marked
marked-IsValid = set_block-IsValid hundred 70 true hundred-IsValid

marked_size : marked.size ≡ 100
unfolding set_block set_loop mark_word count_free put_word leaf_level mask_bit full_word
marked_size = refl

marked_open : get marked 3 ≡ false
unfolding get mask_bit leaf_level
marked_open = get-set_block hundred 70 3 true hundred-IsValid (omega arith)

find_free_lowest_example : (find_free marked ≤ 3) × (get marked (find_free marked) ≡ false)
find_free_lowest_example =
    find_free_lowest marked 3 marked-IsValid (rw marked_size (omega arith)) marked_open

abbrev pair : Allocator
pair = set_block (set_block (fresh 2) 0 true) 1 true

pair_size : pair.size ≡ 2
unfolding set_block set_loop mark_word count_free put_word leaf_level mask_bit full_word
pair_size = refl

half-IsValid : IsValid (set_block (fresh 2) 0 true)
half-IsValid = set_block-IsValid (fresh 2) 0 true (fresh-IsValid 2 (omega arith) (omega arith))

half_size : (set_block (fresh 2) 0 true).size ≡ 2
unfolding set_block set_loop mark_word count_free put_word leaf_level mask_bit full_word
half_size = refl

pair_taken : (x : ℕ) → x < pair.size → get pair x ≡ true
pair_taken x h =
    let small : x < 2 = rw pair_size at h in
    let second =
      get-set_block (set_block (fresh 2) 0 true) 1 x true half-IsValid
        (rw half_size (omega arith)) in
    let first =
      get-set_block (fresh 2) 0 x true (fresh-IsValid 2 (omega arith) (omega arith))
        (omega arith) in
    ground (arith, first, second, small)

find_free_small_full_example : find_free pair ≡ pair.size
find_free_small_full_example =
    find_free_small_full pair (set_block-IsValid (set_block (fresh 2) 0 true) 1 true half-IsValid)
      (rw pair_size (omega arith)) pair_taken

-- A full allocator of two blocks returns 2.
pair_found : find_free pair ≡ 2
unfolding set_block set_loop mark_word count_free put_word leaf_level mask_bit full_word find_free
    find_loop first_zero
pair_found = refl
