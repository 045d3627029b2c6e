-- ===== src/StartMenu/Editing.antt =====
-- Editing a field of the form, against a text with a cursor in it
-- (crates/app/src/bootstrap/start_menu/form.rs).
use poqi.Prelude.{
  Option, none, some, inr, inl, Bool-cases, ==_iff, true, false, ℕ, suc, ◌+◌, ◌-◌, ◌≡◌, refl, sym,
  ap, ◌∙◌, List, [], ◌∷◌, ◌++◌, arith, length, take, drop, ◌==◌, if_false, if_true, append-nil,
}
use poqi.TextInput.Utf8.{Line}
use poqi.StartMenu.Field.{
  remove_next, TextInput, insert, backspace, delete, move_left, move_right, clear,
}
use poqi.StartMenu.Offsets.{insert-chars, remove_next-chars}

-- The first text, which is read backwards, in front of the second.
abbrev pub rev_onto : Line → Line → Line
rev_onto [] b = b
rev_onto (c ∷ r) b = rev_onto r (c ∷ b)

length-rev_onto : (r b : Line) → length (rev_onto r b) ≡ length r + length b
length-rev_onto [] b = omega arith
length-rev_onto (c ∷ r) b = omega (arith, length-rev_onto r (c ∷ b))

take-rev_onto :
    (r b : Line) (k n : ℕ) → n ≡ length r + k → take n (rev_onto r b) ≡ rev_onto r (take k b)
take-rev_onto [] b k n h = rw h (ap (λ (m : ℕ). take m b) (omega arith))
take-rev_onto (c ∷ r) b k n h = take-rev_onto r (c ∷ b) (suc k) n (omega arith)

drop-rev_onto : (r b : Line) (k n : ℕ) → n ≡ length r + k → drop n (rev_onto r b) ≡ drop k b
drop-rev_onto [] b k n h = rw h (ap (λ (m : ℕ). drop m b) (omega arith))
drop-rev_onto (c ∷ r) b k n h = drop-rev_onto r (c ∷ b) (suc k) n (omega arith)

rev_onto-append : (r a b : Line) → rev_onto r a ++ b ≡ rev_onto r (a ++ b)
rev_onto-append [] a b = refl
rev_onto-append (c ∷ r) a b = rev_onto-append r (c ∷ a) b

pub rev_onto-rev_onto : (t r b : Line) → rev_onto (rev_onto t r) b ≡ rev_onto r (t ++ b)
rev_onto-rev_onto [] r b = refl
rev_onto-rev_onto (c ∷ t) r b = rev_onto-rev_onto t (c ∷ r) b

-- The edits of a field.
pub data Edit : Type 0 where
  insert_text : Line → Edit
  erase_before erase_behind left right home end erase_all : Edit

-- What is before the cursor, backwards, and what is behind it.
abbrev pub Split : Type 0
Split = Line × Line

abbrev pub edit_split : Edit → Split → Split
edit_split (insert_text t) (r, b) = (rev_onto t r, b)
edit_split erase_before ([], b) = ([], b)
edit_split erase_before (c ∷ r, b) = (r, b)
edit_split erase_behind (r, []) = (r, [])
edit_split erase_behind (r, c ∷ b) = (r, b)
edit_split left ([], b) = ([], b)
edit_split left (c ∷ r, b) = (r, c ∷ b)
edit_split right (r, []) = (r, [])
edit_split right (r, c ∷ b) = (c ∷ r, b)
edit_split home (r, b) = ([], rev_onto r b)
edit_split end (r, b) = (rev_onto b r, [])
edit_split erase_all z = ([], [])

abbrev pub edit_input : Edit → TextInput → Option TextInput
edit_input (insert_text t) i = insert t i
edit_input erase_before i = backspace i
edit_input erase_behind i = delete i
edit_input left i = some (move_left i)
edit_input right i = some (move_right i)
edit_input home i = some (record { value = i.value; cursor = 0 })
edit_input end i = some (record { value = i.value; cursor = length i.value })
edit_input erase_all i = some (clear i)

pub record Shows (i : TextInput) (r b : Line) : Type 0 where
  pub text : i.value ≡ rev_onto r b
  pub at : i.cursor ≡ length r

-- The edit does not panic.
abbrev pub Yields : Option TextInput → Split → Type 0
Yields o (r, b) = (j : TextInput) × (o ≡ some j) × Shows j r b

insert_between-Shows :
    (t value r b : Line) (n : ℕ)
    → value ≡ rev_onto r b
    → n ≡ length r
    → take n value ++ t ++ drop n value ≡ rev_onto (rev_onto t r) b
insert_between-Shows t value r b n h p =
    rw (h, take-rev_onto r b 0 n (omega arith), drop-rev_onto r b 0 n (omega arith))
      (ap (λ (x : Line). x ++ b) (rev_onto-append r [] t)
        ∙ (rev_onto-append r t b ∙ sym (rev_onto-rev_onto t r b)))

insert-Yields :
    (t : Line) (i : TextInput) (r b : Line) → Shows i r b → Yields (insert t i) (rev_onto t r, b)
insert-Yields t i r b s = (
  record {
    value = take i.cursor i.value ++ t ++ drop i.cursor i.value;
    cursor = i.cursor + length t;
  },
  insert-chars t i,
  record {
    text = insert_between-Shows t i.value r b i.cursor s.text s.at;
    at = omega (arith, s.at, length-rev_onto t r);
  },
)

-- The character behind a cursor removed.
remove_next-text :
    (c : ℕ) (value r b : Line) (n : ℕ)
    → value ≡ rev_onto r (c ∷ b)
    → n ≡ length r
    → take n value ++ drop (n + 1) value ≡ rev_onto r b
remove_next-text c value r b n h p =
    rw
      (
        h,
        take-rev_onto r (c ∷ b) 0 n (omega arith),
        drop-rev_onto r (c ∷ b) 1 (n + 1) (omega arith),
      )
      (rev_onto-append r [] b)

remove_next-Yields :
    (c : ℕ) (i : TextInput) (r b : Line) → Shows i r (c ∷ b) → Yields (remove_next i) (r, b)
remove_next-Yields c i r b s = (
  record { value = take i.cursor i.value ++ drop (i.cursor + 1) i.value; cursor = i.cursor },
  remove_next-chars i,
  record { text = remove_next-text c i.value r b i.cursor s.text s.at; at = s.at },
)

backspace-Yields :
    (i : TextInput) (r b : Line)
    → Shows i r b
    → Yields (backspace i) (edit_split erase_before (r, b))
unfolding backspace
backspace-Yields i [] b s =
    rw
      (if_true (i.cursor == 0) (some i)
        (remove_next (record { value = i.value; cursor = i.cursor - 1 })) (ground (arith, s.at)))
      (i, refl, s)
backspace-Yields i (c ∷ r) b s =
    rw
      (if_false (i.cursor == 0) (some i)
        (remove_next (record { value = i.value; cursor = i.cursor - 1 })) (ground (arith, s.at)))
      (remove_next-Yields c (record { value = i.value; cursor = i.cursor - 1 }) r b
        (record { text = s.text; at = omega (arith, s.at) }))

at_end : (i : TextInput) (r : Line) → Shows i r [] → (i.cursor == length i.value) ≡ true
at_end i r s =
    (==_iff i.cursor (length i.value)).1
      (omega (arith, s.at, ap length s.text, length-rev_onto r []))

not_at_end :
    (i : TextInput) (r : Line) (c : ℕ) (b : Line)
    → Shows i r (c ∷ b)
    → (i.cursor == length i.value) ≡ false
not_at_end i r c b s = elim (Bool-cases (i.cursor == length i.value)) [
  | inl y ↦ absurd (
      omega (
        arith,
        (==_iff i.cursor (length i.value)).0 y,
        s.at,
        ap length s.text,
        length-rev_onto r (c ∷ b),
      ))
  | inr n ↦ n
]

delete-Yields :
    (i : TextInput) (r b : Line) → Shows i r b → Yields (delete i) (edit_split erase_behind (r, b))
unfolding delete
delete-Yields i r [] s =
    rw (if_true (i.cursor == length i.value) (some i) (remove_next i) (at_end i r s)) (i, refl, s)
delete-Yields i r (c ∷ b) s =
    rw (if_false (i.cursor == length i.value) (some i) (remove_next i) (not_at_end i r c b s))
      (remove_next-Yields c i r b s)

move_right-Shows :
    (i : TextInput) (r b : Line)
    → Shows i r b
    → Shows (move_right i) (edit_split right (r, b)).0 (edit_split right (r, b)).1
unfolding move_right
move_right-Shows i r [] s = record {
  text = s.text;
  at = omega (arith, s.at, ap length s.text, length-rev_onto r []);
}
move_right-Shows i r (c ∷ b) s = record {
  text = s.text;
  at = omega (arith, s.at, ap length s.text, length-rev_onto r (c ∷ b));
}

move_left-Shows :
    (i : TextInput) (r b : Line)
    → Shows i r b
    → Shows (move_left i) (edit_split left (r, b)).0 (edit_split left (r, b)).1
unfolding move_left
move_left-Shows i [] b s = record { text = s.text; at = omega (arith, s.at) }
move_left-Shows i (c ∷ r) b s = record { text = s.text; at = omega (arith, s.at) }

pub edit_input-Yields :
    (e : Edit) (i : TextInput) (r b : Line)
    → Shows i r b
    → Yields (edit_input e i) (edit_split e (r, b))
unfolding clear
edit_input-Yields (insert_text t) i r b s = insert-Yields t i r b s
edit_input-Yields erase_before i r b s = backspace-Yields i r b s
edit_input-Yields erase_behind i r b s = delete-Yields i r b s
edit_input-Yields left i r b s = (move_left i, refl, move_left-Shows i r b s)
edit_input-Yields right i r b s = (move_right i, refl, move_right-Shows i r b s)
edit_input-Yields home i r b s =
    (record { value = i.value; cursor = 0 }, refl, record { text = s.text; at = refl })
edit_input-Yields end i r b s = (
  record { value = i.value; cursor = length i.value },
  refl,
  record {
    text = s.text ∙ sym (rev_onto-rev_onto b r [] ∙ ap (rev_onto r) (append-nil b));
    at = ap length s.text ∙ omega (arith, length-rev_onto r b, length-rev_onto b r);
  },
)
edit_input-Yields erase_all i r b s = (clear i, refl, record { text = refl; at = refl })

abbrev pub then_edits : Option TextInput → (TextInput → Option TextInput) → Option TextInput
then_edits none next = none
then_edits (some i) next = next i

abbrev pub edit_inputs : List Edit → TextInput → Option TextInput
edit_inputs [] i = some i
edit_inputs (e ∷ es) i = then_edits (edit_input e i) (λ j. edit_inputs es j)

abbrev pub edit_splits : List Edit → Split → Split
edit_splits [] z = z
edit_splits (e ∷ es) z = edit_splits es (edit_split e z)

-- Any edits of a field, in any order, do not panic, in a text of characters of any length in bytes,
-- and do to its value and its cursor what they do to the text before and behind the cursor: typing
-- and pasting adds to the one before, backspace and delete take one character off the one before or
-- behind, if it has one, the arrows, home and end move characters from one to the other, and
-- clearing empties both.
pub edit_inputs-Shows :
    (es : List Edit) (i : TextInput) (r b : Line)
    → Shows i r b
    → (j : TextInput) × (edit_inputs es i ≡ some j)
      × Shows j (edit_splits es (r, b)).0 (edit_splits es (r, b)).1
edit_inputs-Shows [] i r b s = (i, refl, s)
edit_inputs-Shows (e ∷ es) i r b s =
    let (j, done, shows) = edit_input-Yields e i r b s in
    rw done (edit_inputs-Shows es j (edit_split e (r, b)).0 (edit_split e (r, b)).1 shows)
