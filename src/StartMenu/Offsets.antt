-- ===== src/StartMenu/Offsets.antt =====
-- The byte offsets of a field's edits (crates/app/src/bootstrap/start_menu/form.rs): each is the one
-- of a character or of the end, so that no edit panics.
use poqi.Prelude.{
  ℕ, zero, suc, ◌+◌, ◌≤◌, ◌≡◌, refl, sym, ap, ◌∙◌, Option, some, [], ◌∷◌, ◌++◌, arith, length, take,
  drop, leb, le→leb, if_true,
}
use poqi.TextInput.Utf8.{Line, len_utf8, byte_len, split_at, split_at-append}
use poqi.StartMenu.Field.{
  TextInput, nth_index, or_length, byte_index, next_byte_index, insert, insert_between, outer_parts,
  remove_range, with_value, remove_next,
}

take-append-drop : (n : ℕ) (v : Line) → take n v ++ drop n v ≡ v
take-append-drop zero v = refl
take-append-drop (suc n) [] = refl
take-append-drop (suc n) (c ∷ v) = ap (c ∷◌) (take-append-drop n v)

-- The offset behind the first `n` characters.
nth_index-take :
    (base n : ℕ) (v : Line)
    → or_length (nth_index base n v) (base + byte_len v) ≡ base + byte_len (take n v)
nth_index-take base zero [] = refl
nth_index-take base (suc n) [] = refl
nth_index-take base zero (c ∷ v) = omega arith
nth_index-take base (suc n) (c ∷ v) =
    let more = nth_index-take (base + len_utf8 c) n v in
    let total : base + byte_len (c ∷ v) ≡ base + len_utf8 c + byte_len v = omega arith in
    ap (or_length (nth_index (base + len_utf8 c) n v)) total ∙ omega (arith, more)

nth_index-start :
    (n : ℕ) (v : Line) → or_length (nth_index 0 n v) (byte_len v) ≡ byte_len (take n v)
nth_index-start n v =
    let total : byte_len v ≡ 0 + byte_len v = omega arith in
    let front : 0 + byte_len (take n v) ≡ byte_len (take n v) = omega arith in
    ap (or_length (nth_index 0 n v)) total ∙ (nth_index-take 0 n v ∙ front)

split_at-take : (n : ℕ) (v : Line) → split_at v (byte_len (take n v)) ≡ some (take n v, drop n v)
split_at-take n v =
    ap (λ (x : Line). split_at x (byte_len (take n v))) (sym (take-append-drop n v))
    ∙ split_at-append (take n v) (drop n v)

byte_index-take : (i : TextInput) → byte_index i ≡ byte_len (take i.cursor i.value)
unfolding byte_index
byte_index-take i = nth_index-start i.cursor i.value

next_byte_index-take : (i : TextInput) → next_byte_index i ≡ byte_len (take (i.cursor + 1) i.value)
unfolding next_byte_index
next_byte_index-take i = nth_index-start (i.cursor + 1) i.value

-- An insertion does not panic, and puts the text behind as many characters as the cursor says.
pub insert-chars :
    (text : Line) (i : TextInput)
    → insert text i
      ≡ some (record {
        value = take i.cursor i.value ++ text ++ drop i.cursor i.value;
        cursor = i.cursor + length text;
      })
unfolding insert
insert-chars text i =
    ap (λ (o : Option (Line × Line)). insert_between o text (i.cursor + length text))
      (ap (split_at i.value) (byte_index-take i) ∙ split_at-take i.cursor i.value)

byte_len-take-suc : (n : ℕ) (v : Line) → byte_len (take n v) ≤ byte_len (take (suc n) v)
byte_len-take-suc zero v = omega arith
byte_len-take-suc (suc n) [] = omega arith
byte_len-take-suc (suc n) (c ∷ v) = omega (arith, byte_len-take-suc n v)

byte_len-take-le : (n : ℕ) (v : Line) → byte_len (take n v) ≤ byte_len (take (n + 1) v)
byte_len-take-le n v = let next : suc n ≡ n + 1 = omega arith in rw (← next) (byte_len-take-suc n v)

remove_range-take :
    (n : ℕ) (v : Line)
    → remove_range (byte_len (take n v)) (byte_len (take (n + 1) v)) v
      ≡ some (take n v ++ drop (n + 1) v)
unfolding remove_range
remove_range-take n v =
    if_true (leb (byte_len (take n v)) (byte_len (take (n + 1) v))) _ _
      (le→leb _ _ (byte_len-take-le n v))
    ∙ ap (λ (o : Option (Line × Line)). outer_parts o (split_at v (byte_len (take (n + 1) v))))
        (split_at-take n v)
    ∙ ap (outer_parts (some (take n v, drop n v))) (split_at-take (n + 1) v)

-- Nor does the removal of the character behind the cursor.
pub remove_next-chars :
    (i : TextInput)
    → remove_next i
      ≡ some (record {
        value = take i.cursor i.value ++ drop (i.cursor + 1) i.value;
        cursor = i.cursor;
      })
unfolding remove_next
remove_next-chars i =
    ap (λ (o : Option Line). with_value o i.cursor)
      (ap (λ (n : ℕ). remove_range n (next_byte_index i) i.value) (byte_index-take i)
        ∙ ap (λ (n : ℕ). remove_range (byte_len (take i.cursor i.value)) n i.value)
            (next_byte_index-take i)
        ∙ remove_range-take i.cursor i.value)
