-- ===== src/TextInput/View/Last.antt =====
-- The last character before the cursor: taking a step over it, and deleting it.
use poqi.Prelude.{
  ℕ, suc, ◌-◌, ◌<◌, ◌≤◌, ◌≡◌, refl, sym, ap, ◌∙◌, Option, some, List, [], ◌∷◌, ◌++◌, arith,
  append_assoc, append-nil, length, get_elem?-append-cons, set-append-cons, length-snoc, get_elem?,
  false, ltb, ◌==◌, ◌⊎◌, inl, inr, lt→ltb, erase_idx, ◌||◌,
}
use poqi.TextInput.Utf8.{
  Line, len_utf8_pos, byte_len, byte_len-append, byte_len-snoc, split_at-append,
}
use poqi.TextInput.Utils.{Position, last_char_index, prev_char_boundary}
use poqi.TextInput.State.{TextInputState}
use poqi.TextInput.Cursor.{move_left}
use poqi.TextInput.Selection.{drain}
use poqi.TextInput.Editing.{delete_back, delete_in_line, join_with_previous}
use poqi.TextInput.View.{terminated, before, at_cursor, Shows, min-byte_len}
use poqi.TextInput.View.Insert.{terminated-append, lt→leb-false, row-lt}

-- A list is empty or has a last element.
pub snoc-cases {ℓ} :
    {A : Type ℓ} (xs : List A) → (xs ≡ []) ⊎ ((ys : List A) × (y : A) × (xs ≡ ys ++ y ∷ []))
snoc-cases [] = inl refl
snoc-cases (x ∷ xs) = inr (elim (snoc-cases xs) [
  | inl e ↦ ([], x, ap (x ∷◌) e)
  | inr (ys, y, e) ↦ (x ∷ ys, y, ap (x ∷◌) e)
])

-- The last character of a text starts behind the others.
last_char_index-snoc : (p : Line) (d : ℕ) → last_char_index (p ++ d ∷ []) ≡ some (byte_len p)
unfolding last_char_index
last_char_index-snoc [] d = refl
last_char_index-snoc (c ∷ []) d = refl
last_char_index-snoc (c ∷ e ∷ p) d = rw (last_char_index-snoc (e ∷ p) d)

byte_len_snoc_pos : (p : Line) (d : ℕ) → 0 < byte_len (p ++ d ∷ [])
byte_len_snoc_pos p d = omega (arith, byte_len-snoc p d, len_utf8_pos d)

prev_char_boundary-snoc :
    (p : Line) (d : ℕ) (post : Line)
    → prev_char_boundary ((p ++ d ∷ []) ++ post) (byte_len (p ++ d ∷ [])) ≡ some (some (byte_len p))
unfolding prev_char_boundary
prev_char_boundary-snoc p d post =
    rw
      (
        first_test (byte_len (p ++ d ∷ [])) (byte_len ((p ++ d ∷ []) ++ post))
            (byte_len_snoc_pos p d) (omega (arith, byte_len-append (p ++ d ∷ []) post)),
        split_at-append,
      )
      (ap some (last_char_index-snoc p d))
  where
    first_test : (i n : ℕ) → 0 < i → i ≤ n → ((i == 0) || ltb n i) ≡ false
    first_test i n h k = ground arith

module _ (above : List Line) (p : Line) (d : ℕ) (post : Line) (below : List Line) (scroll : ℕ)
    (anchor : Option Position) where
  pub move_left-in_line :
      move_left (at_cursor above (p ++ d ∷ []) post below scroll anchor)
      ≡ some (at_cursor above p (d ∷ post) below scroll anchor)
  unfolding move_left
  move_left-in_line = rw (
    lt→ltb 0 _ (byte_len_snoc_pos p d),
    get_elem?-append-cons,
    prev_char_boundary-snoc,
    append_assoc p (d ∷ []) post,
  )

  delete_in_line-at :
      delete_in_line (at_cursor above (p ++ d ∷ []) post below scroll anchor)
      ≡ some (at_cursor above p post below scroll anchor)
  unfolding delete_in_line drain
  delete_in_line-at = rw (
    get_elem?-append-cons, prev_char_boundary-snoc, min-byte_len, split_at-append, split_at-append,
    set-append-cons,
  )

  pub delete_back-in_line :
      delete_back (at_cursor above (p ++ d ∷ []) post below scroll anchor)
      ≡ some (at_cursor above p post below scroll anchor)
  unfolding delete_back
  delete_back-in_line =
      rw
        (
          lt→leb-false _ _ (row-lt above ((p ++ d ∷ []) ++ post) below),
          lt→ltb 0 _ (byte_len_snoc_pos p d),
        )
        delete_in_line-at

pub get_elem?-above :
    (above : List Line) (l m : Line) (below : List Line)
    → get_elem? ((above ++ l ∷ []) ++ m ∷ below) (length above) ≡ some l
get_elem?-above above l m below = rw append_assoc (get_elem?-append-cons above (m ∷ below) l)

erase_idx-at :
    (above : List Line) (m : Line) (below : List Line)
    → erase_idx (above ++ m ∷ below) (length above) ≡ above ++ below
erase_idx-at [] m below = refl
erase_idx-at (a ∷ above) m below = ap (a ∷◌) (erase_idx-at above m below)

pub suc_sub_one : (n : ℕ) → suc n - 1 ≡ n
suc_sub_one n = omega arith

module _ (above : List Line) (l post : Line) (below : List Line) (scroll : ℕ)
    (anchor : Option Position) where
  pub move_left-line_start :
      move_left (at_cursor (above ++ l ∷ []) [] post below scroll anchor)
      ≡ some (at_cursor above l [] (post ∷ below) scroll anchor)
  unfolding move_left
  move_left-line_start = rw (
    length-snoc above l,
    lt→ltb 0 (suc (length above)) (omega arith),
    suc_sub_one,
    get_elem?-above,
    append_assoc above (l ∷ []) (post ∷ below),
    append-nil l,
  )

  join_with_previous-at :
      join_with_previous (at_cursor (above ++ l ∷ []) [] post below scroll anchor)
      ≡ some (at_cursor above l post below scroll anchor)
  unfolding join_with_previous
  join_with_previous-at = rw (
    get_elem?-append-cons,
    erase_idx-at,
    length-snoc above l,
    suc_sub_one,
    append_assoc above (l ∷ []) below,
    get_elem?-append-cons,
    set-append-cons,
  )

pub at_start :
    (post : Line) (below : List Line) (scroll : ℕ) (anchor : Option Position)
    → (move_left (at_cursor [] [] post below scroll anchor)
        ≡ some (at_cursor [] [] post below scroll anchor))
      × (delete_back (at_cursor [] [] post below scroll anchor)
          ≡ some (at_cursor [] [] post below scroll anchor))
unfolding move_left delete_back
at_start post below scroll anchor = (refl, rw (lt→leb-false (suc (length below)) 0 (omega arith)))

pub delete_back-line_start :
    (above : List Line) (l post : Line) (below : List Line) (scroll : ℕ) (anchor : Option Position)
    → delete_back (at_cursor (above ++ l ∷ []) [] post below scroll anchor)
      ≡ some (at_cursor above l post below scroll anchor)
unfolding delete_back
delete_back-line_start above l post below scroll anchor =
    rw
      (
        lt→leb-false _ _ (row-lt (above ++ l ∷ []) post below),
        lt→ltb 0 (length (above ++ l ∷ [])) (omega (arith, length-snoc above l)),
      )
      (join_with_previous-at above l post below scroll anchor)

-- What the text before the cursor is when a line starts there.
pub before-line_start :
    (above : List Line) (l : Line) → before (above ++ l ∷ []) [] ≡ before above l ++ b'\n' ∷ []
before-line_start above l =
    append-nil (terminated (above ++ l ∷ []))
    ∙ terminated-append above l
    ∙ sym (append_assoc (terminated above) l (b'\n' ∷ []))

-- A step to the left, or a deletion there, either finds nothing before the cursor and changes
-- nothing, or takes the last character from the text before the cursor.
abbrev pub TakesLast :
    (TextInputState → Option TextInputState) → TextInputState → Line → (ℕ → Line) → Type 0
TakesLast op s left right =
    ((left ≡ []) × (op s ≡ some s))
    ⊎ ((left' : Line) × (c : ℕ) × (t : TextInputState) × (left ≡ left' ++ c ∷ [])
        × (op s ≡ some t)
        × Shows t left' (right c))
