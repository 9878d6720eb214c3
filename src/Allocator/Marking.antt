-- ===== src/Allocator/Marking.antt =====
-- src/util/allocator.cpp: the walk of `allocator_t::set` from a word of the last level to the root.
mod Flip
mod Word
mod Loop
pub use Flip.{leaves_congr, width_congr, is_full_congr}
pub use Word.{mask_bit_lem}
pub use Loop.{
  At, Done, set_loop-Done, Shape-small, width-le, width_inner, parent-lt, not_full_of_zero,
}
