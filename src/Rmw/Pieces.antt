-- ===== src/Rmw/Pieces.antt =====
-- src/osd/osd_rmw.cpp: what the buffers of `get_old_new_buffers` hold.
use vitastor.Base.{
  ℕ, ◌+◌, ◌-◌, ◌<◌, ◌≤◌, ◌≡◌, ◌⊎◌, inl, inr, ◌&&◌, ltb, leb, if◌then◌else◌, arith, List, [], ◌∷◌,
}
use native.Mathlib.Decide.{dec_lt}
use vitastor.Rmw.Stripes.{Stripe}
use vitastor.Rmw.Parity.{BufLen, clip, order_pieces, get_old_new_buffers}

-- The address of a byte of a list of buffers.
unfoldable pub locate : List BufLen → ℕ → ℕ
locate [] k = 0
locate (b ∷ bs) k = if ltb k b.len then b.buf + k else locate bs (k - b.len)

-- A position is written or has been read.
abbrev pub IsKnown : Stripe → ℕ → Type 0
IsKnown s p = ((s.write_start ≤ p) × (p < s.write_end)) ⊎ ((s.read_start ≤ p) × (p < s.read_end))

abbrev In : ℕ → ℕ → ℕ → Type 0
In p start end = (start ≤ p) × (p < end)

-- What `clip` leaves of a range.
record IsClip (start end lo hi from to : ℕ) : Type 0 where
  kept :
      ((from ≡ 0) × (to ≡ 0))
      ⊎ ((lo ≤ from) × (from < to) × (start ≤ from) × (to ≤ hi) × (to ≤ end))
  last : (to ≡ 0) ⊎ ((to ≡ end) ⊎ (to ≡ hi))
  inside : (k : ℕ) → lo ≤ k → k < hi → start ≤ k → k < end → In k from to

clip-IsClip :
    (start end lo hi : ℕ)
    → lo < hi
    → (end ≡ 0) ⊎ (start < end)
    → IsClip start end lo hi (clip start end lo hi).0 (clip start end lo hi).1
unfolding clip
clip-IsClip start end lo hi h v = record {
  kept = ground arith;
  last = ground arith;
  inside = λ k a b c d. ground arith;
}

ordered :
    (s : Stripe) (lo hi k ns ne os oe : ℕ)
    → lo ≤ k
    → k < hi
    → ((ns ≡ 0) × (ne ≡ 0)) ⊎ ((lo ≤ ns) × (ns < ne) × (s.write_start ≤ ns))
    → ((os ≡ 0) × (oe ≡ 0)) ⊎ ((lo ≤ os) × (os < oe) × (s.read_start ≤ os))
    → In lo ns ne ⊎ In lo os oe
    → In k ns ne ⊎ In k os oe
    → (ne ≡ 0) ⊎ ((hi ≤ ne) ⊎ ((oe ≤ ne) ⊎ In ne os oe))
    → locate (order_pieces s ns ne os oe) (k - lo) ≡ (
        if leb ns k && ltb k ne
        then s.write_buf + (k - s.write_start)
        else s.read_buf + (k - s.read_start))
unfolding locate order_pieces
ordered s lo hi k ns ne os oe low high (inl w) (inl r) f h e = ground arith
ordered s lo hi k ns ne os oe low high (inl w) (inr r) f h e = ground arith
ordered s lo hi k ns ne os oe low high (inr w) (inl r) f h e = ground arith
ordered s lo hi k ns ne os oe low high (inr w) (inr r) (inl f) (inl h) e = ground arith
ordered s lo hi k ns ne os oe low high (inr w) (inr r) (inl f) (inr h) e = ground arith
ordered s lo hi k ns ne os oe low high (inr w) (inr r) (inr f) (inl h) e = ground arith
ordered s lo hi k ns ne os oe low high (inr w) (inr r) (inr f) (inr h) (inl e) = ground arith
ordered s lo hi k ns ne os oe low high (inr w) (inr r) (inr f) (inr h) (inr (inl e)) = ground arith
ordered s lo hi k ns ne os oe low high (inr w) (inr r) (inr f) (inr h) (inr (inr (inl e))) =
    ground arith
ordered s lo hi k ns ne os oe low high (inr w) (inr r) (inr f) (inr h) (inr (inr (inr e))) =
    ground arith

kept_start :
    {start end lo hi from to : ℕ}
    → IsClip start end lo hi from to
    → ((from ≡ 0) × (to ≡ 0)) ⊎ ((lo ≤ from) × (from < to) × (start ≤ from))
kept_start c = elim c.kept [ inl z ↦ inl z | inr p ↦ inr (p.0, p.1, p.2) ]

module _ (s : Stripe) {lo hi ns ne os oe : ℕ} (w : IsClip s.write_start s.write_end lo hi ns ne)
    (r : IsClip s.read_start s.read_end lo hi os oe) where
  clipped : (k : ℕ) → lo ≤ k → k < hi → IsKnown s k → In k ns ne ⊎ In k os oe
  clipped k low high (inl p) = inl (w.inside k low high p.0 p.1)
  clipped k low high (inr p) = inr (r.inside k low high p.0 p.1)

  clip_edge :
      ((p : ℕ) → lo ≤ p → p < hi → IsKnown s p) → (ne ≡ 0) ⊎ ((hi ≤ ne) ⊎ ((oe ≤ ne) ⊎ In ne os oe))
  clip_edge known = elim w.kept [
    | inl z ↦ inl z.1
    | inr p ↦ elim (dec_lt ne hi) [
      | no n ↦ inr (inl (omega arith))
      | yes h ↦
          let end : ne ≡ s.write_end = ground (arith, w.last, p.1) in
          elim (known ne (omega (arith, p.0, p.1)) h) [
            | inl q ↦ absurd (omega (arith, q.1, end))
            | inr q ↦ inr (inr (inr (r.inside ne (omega (arith, p.0, p.1)) h q.0 q.1)))
          ]
    ]
  ]

-- Where the written and the read range are empty or in order, and every position of the range asked
-- for is in one of them, the buffers that `get_old_new_buffers` gives hold the bytes of the range in
-- order: the new byte where one is written, the old one elsewhere.
pub get_old_new_buffers-locate :
    (s : Stripe) (wr_start wr_end k : ℕ)
    → (s.write_end ≡ 0) ⊎ (s.write_start < s.write_end)
    → (s.read_end ≡ 0) ⊎ (s.read_start < s.read_end)
    → wr_start ≤ k
    → k < wr_end
    → ((p : ℕ) → wr_start ≤ p → p < wr_end → IsKnown s p)
    → locate (get_old_new_buffers s wr_start wr_end) (k - wr_start) ≡ (
        if leb s.write_start k && ltb k s.write_end
        then s.write_buf + (k - s.write_start)
        else s.read_buf + (k - s.read_start))
unfolding get_old_new_buffers
get_old_new_buffers-locate s lo hi k writes reads low high known =
    let w = clip-IsClip s.write_start s.write_end lo hi (omega arith) writes in
    let r = clip-IsClip s.read_start s.read_end lo hi (omega arith) reads in
    let (ns, ne) = clip s.write_start s.write_end lo hi in
    let (os, oe) = clip s.read_start s.read_end lo hi in
    let agree : (leb s.write_start k && ltb k s.write_end) ≡ (leb ns k && ltb k ne) =
      ground (arith, w.kept, w.inside k low high) in
    rw agree (
      ordered s lo hi k ns ne os oe low high (kept_start w) (kept_start r)
        (clipped s w r lo (omega arith) (omega arith) (known lo (omega arith) (omega arith)))
        (clipped s w r k low high (known k low high)) (clip_edge s w r known))
