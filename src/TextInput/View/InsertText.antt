-- ===== src/TextInput/View/InsertText.antt =====
-- Insertion of a text with line breaks at the cursor.
use poqi.Prelude.{
  ℕ, ◌≡◌, refl, sym, ap, ◌∙◌, Option, some, List, [], ◌∷◌, ◌++◌, append_assoc, append-nil, length,
  get_elem?-append-cons, set-append-cons, length-snoc, add-one, ◌>>=◌, Bool-cases, inl, inr, ◌==◌,
  ==_iff,
}
use mathlib.Core.Path.{subst}
use poqi.TextInput.Utf8.{Line, byte_len, split_at-append}
use poqi.TextInput.Utils.{Position}
use poqi.TextInput.Lines.{split_lines, add_char, normalize, insert_row-at}
use poqi.TextInput.State.{TextInputState, join_rest, join_lines}
use poqi.TextInput.Editing.{put_text, push_first, insert_parts, push_tail}
use poqi.TextInput.View.{terminated, before, after, at_cursor, Shows, shows, min-byte_len}
use poqi.TextInput.View.Insert.{terminated-append}

join_lines-add_char : (c : ℕ) (ls : List Line) → join_lines (add_char c ls) ≡ c ∷ join_lines ls
unfolding join_lines add_char
join_lines-add_char c [] = refl
join_lines-add_char c (l ∷ ls) = refl

join_lines-cons-nil : (ls : List Line) → join_lines ([] ∷ ls) ≡ join_rest ls
unfolding join_lines
join_lines-cons-nil ls = refl

add_char-cons :
    (c : ℕ) (ls : List Line) → (first : Line) × (rest : List Line) × (add_char c ls ≡ first ∷ rest)
unfolding add_char
add_char-cons c [] = (c ∷ [], [], refl)
add_char-cons c (l ∷ ls) = (c ∷ l, ls, refl)

split_lines-cons : (t : Line) → (first : Line) × (rest : List Line) × (split_lines t ≡ first ∷ rest)
unfolding split_lines
split_lines-cons [] = ([], [], refl)
split_lines-cons (c ∷ cs) = elim (Bool-cases (c == b'\n')) [
  | inl y ↦ ([], split_lines cs, rw y)
  | inr n ↦ rw n (add_char-cons c (split_lines cs))
]

join_rest-non_empty :
    (ls : List Line) (first : Line) (rest : List Line)
    → ls ≡ first ∷ rest
    → join_rest ls ≡ b'\n' ∷ join_lines ls
unfolding join_lines
join_rest-non_empty [] first rest e = cc
join_rest-non_empty (l ∷ ls) first rest e = refl

-- Cutting a text at its line feeds and joining the pieces gives the text back.
pub join_lines-split_lines : (t : Line) → join_lines (split_lines t) ≡ t
unfolding split_lines
join_lines-split_lines [] = unfold join_lines in refl
join_lines-split_lines (c ∷ cs) = elim (Bool-cases (c == b'\n')) [
  | inl y ↦
      rw (y, (==_iff c b'\n').0 y)
        (let (first, rest, e) = split_lines-cons cs in
          join_lines-cons-nil (split_lines cs)
          ∙ join_rest-non_empty (split_lines cs) first rest e
          ∙ ap (b'\n' ∷◌) (join_lines-split_lines cs))
  | inr n ↦ rw n (join_lines-add_char c (split_lines cs) ∙ ap (c ∷◌) (join_lines-split_lines cs))
]

-- The lines above the last of `line` and `parts`, and that last one.
ends : List Line → Line → List Line → List Line × Line
ends above line [] = (above, line)
ends above line (part ∷ parts) = ends (above ++ line ∷ []) part parts

before-ends :
    (above : List Line) (line : Line) (parts : List Line)
    → before (ends above line parts).0 (ends above line parts).1
      ≡ before above line ++ join_rest parts
unfolding ends join_rest
before-ends above line [] = sym (append-nil _)
before-ends above line (part ∷ parts) =
    before-ends (above ++ line ∷ []) part parts ∙ rw terminated-append (simp append_assoc)

-- A state whose cursor stands at the end of its line.
abbrev at_end : List Line → Line → List Line → ℕ → Option Position → TextInputState
at_end above line below scroll anchor = record {
  lines = above ++ line ∷ below;
  cursor_row = length above;
  cursor_col = byte_len line;
  scroll_row = scroll;
  selection_anchor = anchor;
}

module _ (below : List Line) (scroll : ℕ) (anchor : Option Position) where
  insert_parts-at :
      (above : List Line) (line : Line) (parts : List Line)
      → insert_parts parts (at_end above line below scroll anchor)
        ≡ some (at_end (ends above line parts).0 (ends above line parts).1 below scroll anchor)
  unfolding insert_parts ends
  insert_parts-at above line [] = refl
  insert_parts-at above line (part ∷ parts) =
      rw (add-one, insert_row-at, ← length-snoc above line, get_elem?-append-cons)
        (insert_parts-at (above ++ line ∷ []) part parts)

  push_first-at :
      (above : List Line) (pre first : Line) (parts : List Line)
      → push_first (first ∷ parts) (at_end above pre below scroll anchor)
        ≡ some (
            at_end
              (ends above (pre ++ first) parts).0
              (ends above (pre ++ first) parts).1
              below
              scroll
              anchor)
  unfolding push_first
  push_first-at above pre first parts =
      rw (get_elem?-append-cons, set-append-cons) (insert_parts-at above (pre ++ first) parts)

  push_tail-at :
      (above : List Line) (pre post : Line)
      → push_tail post (at_end above pre below scroll anchor)
        ≡ some (at_cursor above pre post below scroll anchor)
  unfolding push_tail
  push_tail-at above pre post = rw (get_elem?-append-cons, set-append-cons)

  put_text-at :
      (above : List Line) (pre post t : Line)
      → put_text t (at_cursor above pre post below scroll anchor) ≡ (
          push_first (split_lines (normalize t)) (at_end above pre below scroll anchor)
          >>= push_tail post)
  unfolding put_text
  put_text-at above pre post t =
      rw (get_elem?-append-cons, min-byte_len, split_at-append, set-append-cons)

before-pieces :
    (above : List Line) (pre t first : Line) (rest : List Line)
    → split_lines t ≡ first ∷ rest
    → before (ends above (pre ++ first) rest).0 (ends above (pre ++ first) rest).1
      ≡ before above pre ++ t
unfolding join_lines
before-pieces above pre t first rest e =
    before-ends above (pre ++ first) rest
    ∙ simp append_assoc
        (ap (λ u. terminated above ++ (pre ++ u)) (rw e at (join_lines-split_lines t)))

put_text-pieces :
    (above : List Line) (pre post : Line) (below : List Line) (scroll : ℕ)
    (anchor : Option Position) (t first : Line) (rest : List Line)
    → split_lines (normalize t) ≡ first ∷ rest
    → (u : TextInputState) × (put_text t (at_cursor above pre post below scroll anchor) ≡ some u)
      × Shows u (before above pre ++ normalize t) (after post below)
put_text-pieces above pre post below scroll anchor t first rest e =
    let (A, l) = ends above (pre ++ first) rest in
    (
      at_cursor A l post below scroll anchor,
      put_text-at below scroll anchor above pre post t
          ∙ rw (e, push_first-at below scroll anchor above pre first rest)
              (push_tail-at below scroll anchor A l post),
      subst (λ x. Shows (at_cursor A l post below scroll anchor) x (after post below))
          (before-pieces above pre (normalize t) first rest e) (shows A l post below scroll anchor),
    )

pub put_text-Shows :
    {s : TextInputState} {left right : Line} (t : Line)
    → Shows s left right
    → (u : TextInputState) × (put_text t s ≡ some u) × Shows u (left ++ normalize t) right
put_text-Shows t (shows above pre post below scroll anchor) =
    let (first, rest, e) = split_lines-cons (normalize t) in
    put_text-pieces above pre post below scroll anchor t first rest e
