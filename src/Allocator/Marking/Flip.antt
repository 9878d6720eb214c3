-- ===== src/Allocator/Marking/Flip.antt =====
-- src/util/allocator.cpp: what changing one bit of one word does to the tree.
use vitastor.Base.{
  ℕ, ◌+◌, ◌-◌, ◌*◌, ◌/◌, ◌%◌, ◌^◌, ◌<◌, ◌≡◌, ◌≢◌, sym, ap, ◌∙◌, subst, arith, length,
}
use vitastor.Base.Bits.{nth_bit}
use vitastor.Allocator.{Allocator}
use vitastor.Allocator.Edges.{leaves, word, width, is_full, to_nat, Edge, EdgesBut}
use native.Mathlib.Decide.{ℕ_discrete}

-- `r` is `a` with the bit `b` of the word `w` made `v`.
pub record Flip (a r : Allocator) (w b v : ℕ) : Type 0 where
  pub size : r.size ≡ a.size
  pub total : r.total ≡ a.total
  pub ones : r.last_one_mask ≡ a.last_one_mask
  pub measured : length r.mask ≡ length a.mask
  pub made : nth_bit b (word r w) ≡ v
  pub others : (j : ℕ) → j ≢ b → nth_bit j (word r w) ≡ nth_bit j (word a w)
  pub elsewhere : (x : ℕ) → x ≢ w → word r x ≡ word a x
  pub bounded : word r w < 2 ^ width a w

module _ (a r : Allocator) (size : r.size ≡ a.size) where
  pub leaves_congr : leaves r ≡ leaves a
  unfolding leaves
  leaves_congr = rw size

module _ (a r : Allocator) (size : r.size ≡ a.size) (total : r.total ≡ a.total) where
  pub width_congr : (w : ℕ) → width r w ≡ width a w
  unfolding width
  width_congr w = rw (size, total)

  pub is_full_congr : (w : ℕ) → word r w ≡ word a w → is_full r w ≡ is_full a w
  unfolding is_full
  is_full_congr w e = rw (width_congr w, e, total)

module _ {a r : Allocator} {w b v : ℕ} (f : Flip a r w b v) (low : b < 64) where
  -- An edge that neither starts at the changed bit nor leads to the changed word.
  Flip-Edge : (c : ℕ) → 0 < c → c ≢ w → c ≢ 64 * w + 1 + b → Edge a c → Edge r c
  Flip-Edge c pos n m e =
      rw (is_full_congr a r f.size f.total c (f.elsewhere c n))
        (elim (ℕ_discrete ((c - 1) / 64) w) [
          | yes h ↦ rw h (
              f.others ((c - 1) % 64) (λ q. m (omega arith))
              ∙ ap (λ x. nth_bit ((c - 1) % 64) (word a x)) (sym h)
              ∙ e)
          | no h ↦ rw (f.elsewhere _ h) e
        ])

  -- If the changed bit now tells the truth, only the edge to the changed word may be wrong.
  pub Flip-EdgesBut :
      (c : ℕ)
      → c ≡ 64 * w + 1 + b
      → (w < leaves a → v ≡ to_nat (is_full a c))
      → EdgesBut a c
      → EdgesBut r w
  Flip-EdgesBut c at true_bit es x pos inner n = elim (ℕ_discrete x c) [
    | no m ↦
        Flip-Edge x pos n (λ q. m (q ∙ sym at))
          (es x pos (subst (λ l. (x - 1) / 64 < l) (leaves_congr a r f.size) inner) m)
    | yes q ↦
        let parent : (x - 1) / 64 ≡ w = omega arith in
        let bit : (x - 1) % 64 ≡ b = omega arith in
        rw (is_full_congr a r f.size f.total x (f.elsewhere x n), parent, bit, f.made, q)
          (true_bit (subst (λ l. w < l) (leaves_congr a r f.size) (rw parent at inner)))
  ]
