-- ===== src/Results/Fits.antt =====
-- When a column is shown beside those to its left: the widths that the loop of `column_is_visible`
-- adds up (crates/ui/src/state/results_state/scroll.rs).
use poqi.Prelude.{
  ℕ, zero, suc, ◌+◌, ◌-◌, ◌≤◌, ◌<◌, ◌≡◌, refl, ap, ◌∙◌, true, false, ◌||◌, List, [], ◌∷◌, ◌==◌,
  arith, length, drop, leb, ltb, if◌then◌else◌, if_false, if_true, max, min, u16_max, Bool-cases,
  inl, inr, leb→le,
}
use poqi.Results.Scroll.{columns_fit, column_is_visible}

-- The columns of the list up to the one at an index, each at least one wide, with separators between.
abbrev pub total_width : ℕ → ℕ → List ℕ → ℕ
total_width separator last [] = 0
total_width separator zero (w ∷ ws) = max w 1
total_width separator (suc last) (w ∷ ws) = max w 1 + (separator + total_width separator last ws)

length-drop : (n : ℕ) (ws : List ℕ) → length (drop n ws) ≡ length ws - n
length-drop zero ws = omega arith
length-drop (suc n) [] = omega arith
length-drop (suc n) (w ∷ ws) = omega (arith, length-drop n ws)

not_same : (i d : ℕ) → (i == i + suc d) ≡ false
not_same i d = ground arith

module _ (max_width separator : ℕ) (u16 : max_width ≤ u16_max) where
  columns_fit-over :
      (target i used shown w : ℕ) (ws : List ℕ)
      → max_width < used + (separator + max w 1)
      → columns_fit max_width separator target i used (suc shown) (w ∷ ws) ≡ false
  unfolding columns_fit
  columns_fit-over target i used shown w ws h = ground arith

  columns_fit-next :
      (target i used shown w : ℕ) (ws : List ℕ)
      → used + (separator + max w 1) ≤ max_width
      → columns_fit max_width separator target i used (suc shown) (w ∷ ws) ≡ (
          if i == target
          then true
          else columns_fit max_width separator target
              (suc i)
              (used + (separator + max w 1))
              (suc (suc shown))
              ws)
  unfolding columns_fit
  columns_fit-next target i used shown w ws h =
      let before : leb max_width used ≡ false = ground arith in
      let later : (suc shown == 0) ≡ false = ground arith in
      let some_left : (max_width - used == 0) ≡ false = ground arith in
      let counted : ltb 0 (suc shown) ≡ true = ground arith in
      let parted : leb (max_width - used) separator ≡ false = ground arith in
      let held : ltb (max_width - used - separator) (max w 1) ≡ false = ground arith in
      let reached : min (min (used + separator) u16_max + max w 1) u16_max
          ≡ used + (separator + max w 1) =
        omega arith in
      rw (before, later, some_left, counted, parted, held, reached) refl

  -- Behind a first column, the column `last` ones on is shown exactly if all up to it have room.
  columns_fit-total :
      (ws : List ℕ) (i used shown last : ℕ)
      → last < length ws
      → columns_fit max_width separator (i + last) i used (suc shown) ws
        ≡ leb (used + (separator + total_width separator last ws)) max_width
  columns_fit-total [] i used shown last h = absurd (omega arith)
  columns_fit-total (w ∷ ws) i used shown zero h =
      elim (Bool-cases (leb (used + (separator + max w 1)) max_width)) [
        | inl y ↦ rw y (
            columns_fit-next (i + 0) i used shown w ws (leb→le _ _ y)
            ∙ if_true (i == i + 0) _ _ (ground arith))
        | inr n ↦ rw n (columns_fit-over (i + 0) i used shown w ws (ground (arith, n)))
      ]
  columns_fit-total (w ∷ ws) i used shown (suc last) h =
      let here = used + (separator + max w 1) in
      let room = separator + total_width separator last ws in
      let sum : here + room ≡ used + (separator + (max w 1 + room)) = omega arith in
      let on : i + suc last ≡ suc i + last = omega arith in
      elim (Bool-cases (leb here max_width)) [
        | inl y ↦
            columns_fit-next (i + suc last) i used shown w ws (leb→le _ _ y)
            ∙ if_false (i == i + suc last) _ _ (not_same i last)
            ∙ ap (λ (t : ℕ). columns_fit max_width separator t (suc i) here (suc (suc shown)) ws) on
            ∙ columns_fit-total ws (suc i) here (suc shown) last (omega arith)
            ∙ ap (λ (n : ℕ). leb n max_width) sum
        | inr n ↦
            columns_fit-over (i + suc last) i used shown w ws (ground (arith, n))
            ∙ over (used + (separator + (max w 1 + room))) (ground (arith, n, sum))
      ]
    where
      over : (n : ℕ) → max_width < n → false ≡ leb n max_width
      over n h = ground arith

  columns_fit-first :
      (w : ℕ) (ws : List ℕ) (i last : ℕ)
      → 0 < max_width
      → last < length ws
      → columns_fit max_width separator (i + suc last) i 0 0 (w ∷ ws)
        ≡ leb (total_width separator (suc last) (w ∷ ws)) max_width
  unfolding columns_fit
  columns_fit-first w ws i last p h =
      let room = separator + total_width separator last ws in
      let on : i + suc last ≡ suc i + last = omega arith in
      let before : leb max_width 0 ≡ false = ground arith in
      let some_left : (max_width - 0 == 0) ≡ false = ground arith in
      elim (Bool-cases (ltb max_width (max w 1))) [
        | inl y ↦
            let wide : leb (max w 1 + room) max_width ≡ false = ground (arith, y) in
            rw (before, y, wide, not_same i last) refl
        | inr n ↦
            let reached : min (0 + max w 1) u16_max ≡ max w 1 = ground (arith, n) in
            let held : ltb (max_width - 0) (max w 1) ≡ false = ground (arith, n) in
            rw (before, some_left, n, not_same i last, held)
              (ap (λ (x : ℕ). columns_fit max_width separator (i + suc last) (suc i) x 1 ws) reached
                ∙ ap (λ (t : ℕ). columns_fit max_width separator t (suc i) (max w 1) 1 ws) on
                ∙ columns_fit-total ws (suc i) (max w 1) 0 last h)
      ]

  -- A column behind the first one is shown exactly if all from the first one on have room.
  pub column_is_visible-total :
      (widths : List ℕ) (left focus : ℕ)
      → 0 < max_width
      → left < focus
      → focus < length widths
      → column_is_visible max_width separator left focus widths
        ≡ leb (total_width separator (focus - left) (drop left widths)) max_width
  unfolding column_is_visible
  column_is_visible-total widths left focus p h k =
      if_false (leb (length widths) left || (leb (length widths) focus || (max_width == 0))) _ _
        (ground arith)
      ∙ from_first (drop left widths) (focus - left - 1) (omega (arith, length-drop left widths))
          (omega arith) (omega arith)
    where
      from_first :
          (ws : List ℕ) (last : ℕ)
          → suc last < length ws
          → focus ≡ left + suc last
          → focus - left ≡ suc last
          → columns_fit max_width separator focus left 0 0 ws
            ≡ leb (total_width separator (focus - left) ws) max_width
      from_first [] last a b c = absurd (omega arith)
      from_first (w ∷ ws) last a b c = rw c (
          ap (λ (t : ℕ). columns_fit max_width separator t left 0 0 (w ∷ ws)) b
          ∙ columns_fit-first w ws left last p (omega arith))
