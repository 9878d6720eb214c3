-- ===== src/Allocator/Marking/Loop.antt =====
-- src/util/allocator.cpp: the whole loop of `allocator_t::set`.
use vitastor.Base.{
  ℕ, zero, suc, ◌+◌, ◌-◌, ◌*◌, ◌/◌, ◌%◌, ◌^◌, ◌<◌, ◌≤◌, ◌≡◌, ◌≢◌, refl, sym, ap, ◌∙◌, Bool, true,
  false, arith, ◌==◌, if◌then◌else◌, length, inl, inr, Bool-cases, lt→ltb, le→ltb,
}
use vitastor.Base.Bits.{nth_bit, nth_bit-lt, nth_bit-ones}
use vitastor.Base.Words.{add64, sub64}
use vitastor.Allocator.{Allocator, count_free, full_word, mark_word, set_loop}
use vitastor.Allocator.Levels.{IsLevel, IsLevel-up, offset-lt}
use vitastor.Allocator.Edges.{
  leaves, word, width, full_value, is_full, to_nat, Edge, EdgesBut, Shape, Shape-HasLeaf,
}
use vitastor.Allocator.Marking.Flip.{Flip, Flip-EdgesBut, leaves_congr, width_congr}
use vitastor.Allocator.Marking.Word.{Changed, mark_word_keeps, mark_word-Changed}
use native.Mathlib.Decide.{ℕ_discrete}

-- Where a round of the loop stands: at the word `w`, whose bit for the word `c` is to change.
pub record At (a : Allocator) (k p2 offset cur : ℕ) (is_last : Bool) (w c : ℕ) : Type 0 where
  pub level : IsLevel k p2 offset
  pub here : w ≡ offset + cur / 64
  pub child : c ≡ 64 * w + 1 + cur % 64
  pub room : cur / 64 < p2
  pub inside : w < a.total
  pub low : cur % 64 < width a w
  pub whole : full_word a is_last cur ≡ full_value a w

-- What the loop leaves.
pub record Done (a r : Allocator) (value is_last : Bool) (w cur : ℕ) : Type 0 where
  pub size : r.size ≡ a.size
  pub shape : Shape r
  pub edges : (x : ℕ) → 0 < x → (x - 1) / 64 < leaves r → Edge r x
  pub made : nth_bit (cur % 64) (word r w) ≡ to_nat value
  pub others : (j : ℕ) → j ≢ cur % 64 → nth_bit j (word r w) ≡ nth_bit j (word a w)
  pub below : (x : ℕ) → w < x → word r x ≡ word a x
  pub leaf_words : (x : ℕ) → leaves a ≤ x → x ≢ w → word r x ≡ word a x
  pub counted : r.free ≡ (
      if nth_bit (cur % 64) (word a w) == to_nat value
      then a.free
      else (count_free is_last value a).free)

pub Shape-small : {a : Allocator} → Shape a → a.total < 2 ^ 40
Shape-small {a} s =
    let h = Shape-HasLeaf s in omega (arith, offset-lt h.leaf.level, h.leaf.needed, s.words)

pub width-le : (a : Allocator) (w : ℕ) → (0 < width a w) × (width a w ≤ 64)
unfolding width
width-le a w = ground arith

-- A change of one bit keeps the shape.
Flip-Shape : {a r : Allocator} {w b v : ℕ} → Flip a r w b v → Shape a → Shape r
Flip-Shape {a} {r} {w} f s = record {
  big = rw f.size s.big;
  small = rw f.size s.small;
  words = omega (arith, s.words, leaves_congr a r f.size, f.total, f.size);
  ones = rw (f.ones, f.size) s.ones;
  measured = rw (f.measured, f.total) s.measured;
  bounded = λ x. rw (width_congr a r f.size f.total x) (elim (ℕ_discrete x w) [
    | yes e ↦ rw e f.bounded
    | no n ↦ rw (f.elsewhere x n) (s.bounded x)
  ]);
}

-- The ways in which a round ends.
module _ (fuel p2 offset cur : ℕ) (value is_last : Bool) (a : Allocator) where
  abbrev marked : Allocator × Bool
  marked = mark_word value (add64 offset (cur / 64)) cur is_last a

  set_loop_stop : marked.1 ≡ false → set_loop (suc fuel) value p2 offset cur is_last a ≡ marked.0
  unfolding set_loop
  set_loop_stop h = rw (h, set_loop)

  set_loop_top : p2 ≤ 1 → set_loop (suc fuel) value p2 offset cur is_last a ≡ marked.0
  unfolding set_loop
  set_loop_top h = elim (Bool-cases marked.1) [
    | inl u ↦ rw (u, le→ltb 1 p2 h, set_loop)
    | inr u ↦ rw (u, set_loop)
  ]

  set_loop_next :
      marked.1 ≡ true
      → 1 < p2
      → set_loop (suc fuel) value p2 offset cur is_last a
        ≡ set_loop fuel value (p2 / 64) (sub64 offset (p2 / 64)) (cur / 64) false marked.0
  unfolding set_loop
  set_loop_next h big = rw (h, lt→ltb 1 p2 big, set_loop)

-- A word with a zero bit is not full.
pub not_full_of_zero :
    (a : Allocator) (w j : ℕ) → j < width a w → nth_bit j (word a w) ≡ 0 → is_full a w ≡ false
unfolding is_full
not_full_of_zero a w j low z =
    let ones = nth_bit-ones (width a w) j low in
    elim (ℕ_discrete (word a w) (full_value a w)) [
      | yes e ↦ absurd (omega (arith, ap (nth_bit j) e))
      | no n ↦ ground arith
    ]

not_full_of_ne : (a : Allocator) (w : ℕ) → word a w ≢ full_value a w → is_full a w ≡ false
unfolding is_full
not_full_of_ne a w n = ground arith

is_full_of_eq :
    (a : Allocator) (w : ℕ) → w < a.total → word a w ≡ full_value a w → is_full a w ≡ true
unfolding is_full
is_full_of_eq a w h e = ground arith

pub width_inner : (a : Allocator) (w : ℕ) → w + 1 < a.total → width a w ≡ 64
unfolding width
width_inner a w h = ground arith

-- A word that has a parent has it above the last level.
pub parent-lt : {a : Allocator} → Shape a → (w : ℕ) → 0 < w → w < a.total → (w - 1) / 64 < leaves a
parent-lt {a} s w pos h =
    let l = Shape-HasLeaf s in omega (arith, s.words, l.leaf.enough, l.leaf.level.above)

-- The parent of a word is where the next round stands.
At-up :
    {a : Allocator} {k p2 offset cur w c : ℕ} {is_last : Bool}
    → Shape a
    → At a (suc k) p2 offset cur is_last w c
    → At a k (p2 / 64) (sub64 offset (p2 / 64)) (cur / 64) false ((w - 1) / 64) w
unfolding full_word
At-up {a} {k} {p2} {offset} {cur} {w} s t =
    let up = IsLevel-up t.level in
    let small = Shape-small s in
    let moved : sub64 offset (p2 / 64) ≡ offset - p2 / 64 =
      omega (arith, small, t.level.above, t.here, t.inside) in
    let wide = width_inner a ((w - 1) / 64) (omega (arith, t.here, up.next, t.inside)) in
    record {
      level = rw moved up.level;
      here = rw moved (omega (arith, t.here, up.next));
      child = omega (arith, t.here, up.next);
      room = omega (arith, t.room, up.level.above, up.next, t.level.above);
      inside = omega (arith, t.inside);
      low = rw wide (omega arith);
      whole = rw wide;
    }

At-Flip :
    {a r : Allocator} {k p2 offset cur w c v b x : ℕ} {is_last : Bool}
    → Flip a r x b v
    → At a k p2 offset cur is_last w c
    → At r k p2 offset cur is_last w c
unfolding full_word
At-Flip {a} {r} {w = w} f t = record {
  level = t.level;
  here = t.here;
  child = t.child;
  room = t.room;
  inside = rw f.total t.inside;
  low = rw (width_congr a r f.size f.total w) t.low;
  whole = rw (width_congr a r f.size f.total w, f.ones, f.size) t.whole;
}

-- One round at the word `w`.
module _ {a : Allocator} {k p2 offset cur w c : ℕ} {is_last : Bool} (value : Bool) (s : Shape a)
    (t : At a k p2 offset cur is_last w c) (es : EdgesBut a c)
    (truth : w < leaves a → to_nat value ≡ to_nat (is_full a c)) where
  stands : add64 offset (cur / 64) ≡ w
  stands = omega (arith, Shape-small s, t.here, t.inside)

  keeps-Done : nth_bit (cur % 64) (word a w) ≡ to_nat value → Done a a value is_last w cur
  keeps-Done same = record {
    size = refl;
    shape = s;
    edges = λ x pos inner. elim (ℕ_discrete x c) [
      | no n ↦ es x pos inner n
      | yes e ↦
          let parent : (x - 1) / 64 ≡ w = omega (arith, t.child) in
          let bit : (x - 1) % 64 ≡ cur % 64 = omega (arith, t.child) in
          rw (parent, bit, same, e) (truth (rw parent at inner))
    ];
    made = same;
    others = λ j n. refl;
    below = λ x h. refl;
    leaf_words = λ x h n. refl;
    counted = rw same (ground arith);
  }

  module _ (ch : Changed a value w cur is_last) where
    abbrev after : Allocator
    after = (mark_word value w cur is_last a).0

    after_edges : EdgesBut after w
    after_edges = Flip-EdgesBut ch.flip (omega arith) c t.child truth es

    after-Done :
        ((x : ℕ) → 0 < x → (x - 1) / 64 < leaves after → Edge after x)
        → Done a after value is_last w cur
    after-Done edges = record {
      size = ch.flip.size;
      shape = Flip-Shape ch.flip s;
      edges = edges;
      made = ch.flip.made;
      others = ch.flip.others;
      below = λ x h. ch.flip.elsewhere x (λ e. omega arith);
      leaf_words = λ x h n. ch.flip.elsewhere x n;
      counted = ground (arith, ch.was, ch.counted);
    }

    same_width : width after w ≡ width a w
    same_width = width_congr a after ch.flip.size ch.flip.total w

    -- If the walk goes on, the word is as full as the bits that are written.
    goes_up_truth :
        (mark_word value w cur is_last a).1 ≡ true → to_nat value ≡ to_nat (is_full after w)
    goes_up_truth up = elim (Bool-cases value) [
      | inl e ↦
          let full : word after w ≡ full_value after w =
            rw (same_width, ← t.whole) (ground (arith, ch.goes_up)) in
          ap to_nat (e ∙ sym (is_full_of_eq after w (rw ch.flip.total t.inside) full))
      | inr e ↦
          let zero_bit : nth_bit (cur % 64) (word after w) ≡ 0 = ch.flip.made ∙ ap to_nat e in
          ap to_nat (e ∙ sym (not_full_of_zero after w (cur % 64) (rw same_width t.low) zero_bit))
    ]

    stops_at_set : (mark_word value w cur is_last a).1 ≡ false → value ≡ true
    stops_at_set left = elim (Bool-cases value) [ inl e ↦ e | inr e ↦ ground (arith, ch.goes_up) ]

    -- The round ended by its `break`: the word did not become full, and was not.
    stop-Edge : (mark_word value w cur is_last a).1 ≡ false → 0 < w → Edge after w
    stop-Edge left pos =
        let e = stops_at_set left in
        let was_open =
          not_full_of_zero a w (cur % 64) t.low
            (omega (arith, ch.was, ap to_nat e, nth_bit-lt (cur % 64) (word a w))) in
        let still_open : word after w ≢ full_value after w =
          rw (same_width, ← t.whole) (ground (arith, ch.goes_up)) in
        rw (ch.flip.elsewhere ((w - 1) / 64) (λ q. omega arith), not_full_of_ne after w still_open)
          (es w pos (parent-lt s w pos t.inside) (λ q. omega (arith, t.child)) ∙ ap to_nat was_open)

    stop_edges :
        (mark_word value w cur is_last a).1 ≡ false
        → (x : ℕ) → 0 < x
        → (x - 1) / 64 < leaves after
        → Edge after x
    stop_edges left x pos inner = elim (ℕ_discrete x w) [
      | no n ↦ after_edges x pos inner n
      | yes e ↦ rw e (stop-Edge left (rw e at pos))
    ]

    pub stop-Done : (mark_word value w cur is_last a).1 ≡ false → Done a after value is_last w cur
    stop-Done left = after-Done (stop_edges left)

    pub top-Done : p2 ≤ 1 → Done a after value is_last w cur
    top-Done h =
        after-Done (λ x pos inner.
          after_edges x pos inner (λ e. omega (arith, t.here, t.room, t.level.above)))

    pub next-Done :
        {r : Allocator}
        → 0 < w
        → Done after r value false ((w - 1) / 64) (cur / 64)
        → Done a r value is_last w cur
    unfolding count_free
    next-Done {r} pos d =
        let up = parent-lt s w pos t.inside in
        record {
          size = d.size ∙ ch.flip.size;
          shape = d.shape;
          edges = d.edges;
          made = rw (d.below w (omega arith)) ch.flip.made;
          others = λ j n. rw (d.below w (omega arith)) (ch.flip.others j n);
          below = λ x h. d.below x (omega arith) ∙ ch.flip.elsewhere x (λ e. omega arith);
          leaf_words = λ x h n.
              d.leaf_words x (omega (arith, leaves_congr a after ch.flip.size)) (λ e. omega arith)
              ∙ ch.flip.elsewhere x n;
          counted = ground (arith, ch.was, ch.counted, d.counted);
        }

-- A round either ends the walk or changes a word and goes up.
module _ (fuel : ℕ) {k p2 offset cur w c : ℕ} (value is_last : Bool) {a : Allocator} (s : Shape a)
    (t : At a k p2 offset cur is_last w c) (es : EdgesBut a c)
    (truth : w < leaves a → to_nat value ≡ to_nat (is_full a c)) where
  round-Done :
      (Changed a value w cur is_last
        → (mark_word value w cur is_last a).1 ≡ true
        → Done a (set_loop (suc fuel) value p2 offset cur is_last a) value is_last w cur)
      → Done a (set_loop (suc fuel) value p2 offset cur is_last a) value is_last w cur
  round-Done go_up =
      let e = stands value s t es truth in
      let narrow = (width-le a w).1 in
      let inside : w < length a.mask = rw s.measured t.inside in
      let stop = set_loop_stop fuel p2 offset cur value is_last a in
      elim (ℕ_discrete (nth_bit (cur % 64) (word a w)) (to_nat value)) [
        | yes same ↦
            let keep =
              mark_word_keeps a w cur is_last inside t.low narrow (s.bounded w) value same in
            rw (stop (rw (e, keep)), e, keep) (keeps-Done value s t es truth same)
        | no differs ↦
            let ch =
              mark_word-Changed a w cur is_last inside t.low narrow (s.bounded w) value differs in
            elim (Bool-cases (mark_word value w cur is_last a).1) [
              | inr left ↦ rw (stop (rw e left), e) (stop-Done value s t es truth ch left)
              | inl up ↦ go_up ch up
            ]
      ]

-- The loop leaves a right tree in which only the one block has changed.
pub set_loop-Done :
    (fuel k p2 offset cur w c : ℕ) (value is_last : Bool) (a : Allocator)
    → k < fuel
    → Shape a
    → At a k p2 offset cur is_last w c
    → EdgesBut a c
    → (w < leaves a → to_nat value ≡ to_nat (is_full a c))
    → Done a (set_loop fuel value p2 offset cur is_last a) value is_last w cur
set_loop-Done zero k p2 offset cur w c value is_last a h s t es truth = absurd (omega arith)
set_loop-Done (suc fuel) zero p2 offset cur w c value is_last a h s t es truth =
    round-Done fuel value is_last s t es truth (λ ch up.
      let top : p2 ≤ 1 = omega (arith, t.level.wide) in
      rw (set_loop_top fuel p2 offset cur value is_last a top, stands value s t es truth)
        (top-Done value s t es truth ch top))
set_loop-Done (suc fuel) (suc k) p2 offset cur w c value is_last a h s t es truth =
    round-Done fuel value is_last s t es truth (λ ch up.
      let e = stands value s t es truth in
      let pos : 0 < w = omega (arith, t.here, (IsLevel-up t.level).next) in
      let b = (mark_word value w cur is_last a).0 in
      let rest =
        set_loop-Done fuel k (p2 / 64) (sub64 offset (p2 / 64)) (cur / 64) ((w - 1) / 64) w value
          false b (omega arith) (Flip-Shape ch.flip s) (At-Flip ch.flip (At-up s t))
          (after_edges value s t es truth ch) (λ _. goes_up_truth value s t es truth ch up) in
      rw (set_loop_next fuel p2 offset cur value is_last a (rw e up) (IsLevel-up t.level).wider, e)
        (next-Done value s t es truth ch pos rest))
