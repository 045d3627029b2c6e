-- ===== src/TextInput/View/Vertical.antt =====
-- The steps up and down keep the byte column. In texts of one-byte characters that is a boundary;
-- elsewhere it can be inside a character, and the next edit panics.
use poqi.Prelude.{
  ℕ, zero, suc, ◌+◌, ◌<◌, ◌≤◌, ◌≡◌, refl, sym, ap, ◌∙◌, Option, some, List, [], ◌∷◌, ◌++◌, arith,
  length, get_elem?, get_elem?-lt, min, lt→ltb,
}
use mathlib.Core.Path.{subst}
use poqi.TextInput.Utf8.{Line, len_utf8, byte_len}
use poqi.TextInput.State.{TextInputState}
use poqi.TextInput.Cursor.{move_up, move_down, move_to_row}
use poqi.TextInput.View.{before, after, at_cursor, Shows, shows}
use poqi.TextInput.View.Last.{suc_sub_one}

-- A text of one-byte characters.
abbrev IsAscii : Line → Type 0
IsAscii [] = Unit {0}
IsAscii (c ∷ cs) = (c < 0x80) × IsAscii cs

abbrev pub AllAscii : List Line → Type 0
AllAscii [] = Unit {0}
AllAscii (l ∷ ls) = IsAscii l × AllAscii ls

len_utf8-ascii : (c : ℕ) → c < 0x80 → len_utf8 c ≡ 1
unfolding len_utf8
len_utf8-ascii c h = ground arith

-- Every offset is a boundary there.
cut-IsAscii :
    (line : Line) (n : ℕ)
    → IsAscii line
    → n ≤ byte_len line
    → (p : Line) × (q : Line) × (line ≡ p ++ q) × (byte_len p ≡ n)
cut-IsAscii line zero a h = ([], line, refl, refl)
cut-IsAscii [] (suc n) a h = absurd (omega arith)
cut-IsAscii (c ∷ cs) (suc n) (x, a) h =
    let (p, q, e, f) = cut-IsAscii cs n a (omega (arith, len_utf8-ascii c x)) in
    (c ∷ p, q, ap (c ∷◌) e, omega (arith, len_utf8-ascii c x))

get_elem?-split :
    (ls : List Line) (i : ℕ) (l : Line)
    → get_elem? ls i ≡ some l
    → (above : List Line) × (below : List Line) × (ls ≡ above ++ l ∷ below) × (i ≡ length above)
get_elem?-split [] i l h = cc
get_elem?-split (m ∷ ls) zero l h = ([], ls, cc, refl)
get_elem?-split (m ∷ ls) (suc i) l h =
    let (above, below, e, f) = get_elem?-split ls i l h in (m ∷ above, below, ap (m ∷◌) e, ap suc f)

AllAscii-get_elem? :
    (ls : List Line) (i : ℕ) (l : Line) → AllAscii ls → get_elem? ls i ≡ some l → IsAscii l
AllAscii-get_elem? [] i l a h = cc
AllAscii-get_elem? (m ∷ ls) zero l (x, a) h = subst IsAscii (some_inj m l h) x
  where
    some_inj : (x y : Line) → some x ≡ some y → x ≡ y
    some_inj x y e = cc
AllAscii-get_elem? (m ∷ ls) (suc i) l (x, a) h = AllAscii-get_elem? ls i l a h

Shows-of :
    (s : TextInputState) (above : List Line) (p q : Line) (below : List Line)
    → s.lines ≡ above ++ (p ++ q) ∷ below
    → s.cursor_row ≡ length above
    → s.cursor_col ≡ byte_len p
    → Shows s (before above p) (after q below)
Shows-of s above p q below e f g =
    subst (λ t. Shows t (before above p) (after q below)) (sym same)
      (shows above p q below s.scroll_row s.selection_anchor)
  where
    same : s ≡ at_cursor above p q below s.scroll_row s.selection_anchor
    same = λ i. record s { lines = e i; cursor_row = f i; cursor_col = g i }

move_to_row-eq :
    (s : TextInputState) (row : ℕ) (line : Line)
    → get_elem? s.lines row ≡ some line
    → move_to_row row s
      ≡ some (record s { cursor_row = row; cursor_col = min s.cursor_col (byte_len line) })
unfolding move_to_row
move_to_row-eq s row line h = rw h (ground arith)

-- A vertical step onto `row` succeeds, keeps the text, and leaves the cursor on a boundary.
abbrev pub StepsTo : Option TextInputState → TextInputState → ℕ → Type 0
StepsTo result s row =
    (t : TextInputState) × (left : Line) × (right : Line) × (result ≡ some t)
    × Shows t left right
    × (t.lines ≡ s.lines)
    × (t.cursor_row ≡ row)

move_to_row-StepsTo :
    (s : TextInputState) (row : ℕ)
    → AllAscii s.lines
    → row < length s.lines
    → StepsTo (move_to_row row s) s row
move_to_row-StepsTo s row a h =
    let (line, e) = get_elem?-lt s.lines row h in
    let (above, below, f, g) = get_elem?-split s.lines row line e in
    let (p, q, k, m) =
      cut-IsAscii line (min s.cursor_col (byte_len line)) (AllAscii-get_elem? s.lines row line a e)
        (omega arith) in
    let t : TextInputState = record s {
      cursor_row = row;
      cursor_col = min s.cursor_col (byte_len line);
    } in
    (
      t,
      before above p,
      after q below,
      move_to_row-eq s row line e,
      Shows-of t above p q below (f ∙ ap (λ l. above ++ l ∷ below) k) g (sym m),
      refl,
      refl,
    )

move_up-eq : (s : TextInputState) (r : ℕ) → s.cursor_row ≡ suc r → move_up s ≡ move_to_row r s
unfolding move_up
move_up-eq s r e = rw (e, lt→ltb 0 (suc r) (omega arith), suc_sub_one r)

move_down-eq :
    (s : TextInputState)
    → s.cursor_row + 1 < length s.lines
    → move_down s ≡ move_to_row (s.cursor_row + 1) s
unfolding move_down
move_down-eq s h = rw (lt→ltb _ _ h)

-- In a text of one-byte characters the step up from row `r + 1` does not panic, keeps the lines,
-- reaches row `r`, and leaves the cursor on a boundary.
pub move_up-StepsTo :
    (s : TextInputState) (r : ℕ)
    → AllAscii s.lines
    → s.cursor_row ≡ suc r
    → suc r < length s.lines
    → StepsTo (move_up s) s r
move_up-StepsTo s r a e h = rw (move_up-eq s r e) (move_to_row-StepsTo s r a (omega arith))

-- Likewise the step down from a row that is not the last.
pub move_down-StepsTo :
    (s : TextInputState)
    → AllAscii s.lines
    → s.cursor_row + 1 < length s.lines
    → StepsTo (move_down s) s (s.cursor_row + 1)
move_down-StepsTo s a h = rw (move_down-eq s h) (move_to_row-StepsTo s (s.cursor_row + 1) a h)
