-- ===== src/TextInput/View/Range.antt =====
-- Cutting a range out of the lines, and reading it.
use poqi.Prelude.{
  ℕ, suc, ◌-◌, ◌<◌, ◌≡◌, ◌≢◌, refl, ap, ◌∙◌, some, List, [], ◌∷◌, ◌++◌, arith, append_assoc, length,
  length-append, get_elem?-append-cons, set-append-cons, add-one, get_elem?, take, drop, lt→ltb,
  ==_refl,
}
use poqi.TextInput.Utf8.{Line, len_utf8_pos, byte_len, byte_len-append, split_at-append}
use poqi.TextInput.State.{join_lines}
use poqi.TextInput.Selection.{
  remove_range, drain_line, drain, slice_from, slice_to, slice_between, merge_tail, drain_rows,
  collect_range_text, keep_one, get_then, piece,
}
use poqi.TextInput.View.{min-byte_len, ==_lt}
use poqi.TextInput.View.Insert.{row-lt}

byte_len_pos : (m : Line) → m ≢ [] → 0 < byte_len m
byte_len_pos [] ne = absurd (ne refl)
byte_len_pos (c ∷ m) ne = omega (arith, len_utf8_pos c)

-- Between two boundaries of one line.
module _ (p m q : Line) where
  pub ends_lt : m ≢ [] → byte_len p < byte_len (p ++ m)
  ends_lt ne = omega (arith, byte_len-append p m, byte_len_pos m ne)

  drain_line-at :
      m ≢ [] → drain_line (p ++ (m ++ q)) (byte_len p) (byte_len (p ++ m)) ≡ some (p ++ q)
  unfolding drain_line drain
  drain_line-at ne = rw (
    min-byte_len p (m ++ q),
    ← append_assoc p m q,
    min-byte_len (p ++ m) q,
    lt→ltb _ _ (ends_lt ne),
    split_at-append,
    split_at-append,
  )

  slice_between-at : slice_between (p ++ (m ++ q)) (byte_len p) (byte_len (p ++ m)) ≡ some m
  unfolding slice_between slice_to
  slice_between-at = rw (
    min-byte_len p (m ++ q),
    ← append_assoc p m q,
    min-byte_len (p ++ m) q,
    split_at-append,
    split_at-append,
  )

slice_to-at : (p q : Line) → slice_to (p ++ q) (byte_len p) ≡ some p
unfolding slice_to
slice_to-at p q = rw (min-byte_len, split_at-append)

slice_from-at : (p q : Line) → slice_from (p ++ q) (byte_len p) ≡ some q
unfolding slice_from
slice_from-at p q = rw (min-byte_len, split_at-append)

take-at :
    (above : List Line) (l : Line) (below : List Line)
    → take (suc (length above)) (above ++ l ∷ below) ≡ above ++ l ∷ []
take-at [] l below = refl
take-at (a ∷ above) l below = ap (a ∷◌) (take-at above l below)

drop-at :
    (above : List Line) (l : Line) (below : List Line)
    → drop (suc (length above)) (above ++ l ∷ below) ≡ below
drop-at [] l below = refl
drop-at (a ∷ above) l below = drop-at above l below

pub remove_range-in_row :
    (above : List Line) (p m q : Line) (below : List Line)
    → m ≢ []
    → remove_range
        (above ++ (p ++ (m ++ q)) ∷ below)
        (length above, byte_len p)
        (length above, byte_len (p ++ m))
      ≡ some (above ++ (p ++ q) ∷ below)
unfolding remove_range
remove_range-in_row above p m q below ne =
    rw (==_refl (length above), get_elem?-append-cons, drain_line-at p m q ne, set-append-cons)

drain_rows-at :
    (above : List Line) (x : Line) (mids : List Line) (y : Line) (below : List Line) (r : ℕ)
    → r ≡ length (above ++ x ∷ mids)
    → drain_rows (above ++ x ∷ (mids ++ y ∷ below)) (length above) r ≡ above ++ x ∷ below
unfolding drain_rows
drain_rows-at above x mids y below r e =
    rw
      (
        e,
        lt→ltb _ _ (row-lt above x mids),
        lt→ltb (length (above ++ x ∷ mids)) (length (above ++ x ∷ (mids ++ y ∷ below))) (
            omega (
              arith,
              length-append above (x ∷ mids),
              length-append above (x ∷ (mids ++ y ∷ below)),
              length-append mids (y ∷ below),
            )),
        add-one (length above),
        add-one (length (above ++ x ∷ mids)),
        take-at,
        ← append_assoc above (x ∷ mids) (y ∷ below),
        drop-at,
      )
      (append_assoc above (x ∷ []) below)

merge_tail-at :
    (above : List Line) (p m : Line) (rest : List Line) (tail : Line)
    → merge_tail (above ++ (p ++ m) ∷ rest) (length above) (byte_len p) tail
      ≡ some (above ++ (p ++ tail) ∷ rest)
unfolding merge_tail
merge_tail-at above p m rest tail =
    rw (get_elem?-append-cons, merge_tail) (rw (slice_to-at, set-append-cons))

keep_one-at :
    (above : List Line) (x : Line) (below : List Line)
    → keep_one (above ++ x ∷ below) ≡ above ++ x ∷ below
keep_one-at [] x below = refl
keep_one-at (a ∷ above) x below = refl

length-rows :
    (above mids : List Line) (x y : Line) → length (above ++ x ∷ mids) ≡ length (above ++ y ∷ mids)
length-rows above mids x y =
    omega (arith, length-append above (x ∷ mids), length-append above (y ∷ mids))

pub get_last :
    (above : List Line) (x : Line) (mids : List Line) (y : Line) (below : List Line)
    → get_elem? (above ++ x ∷ (mids ++ y ∷ below)) (length (above ++ x ∷ mids)) ≡ some y
get_last above x mids y below =
    rw (← append_assoc above (x ∷ mids) (y ∷ below))
      (get_elem?-append-cons (above ++ x ∷ mids) below y)

pub remove_range-across :
    (above : List Line) (p m : Line) (mids : List Line) (n q : Line) (below : List Line)
    → remove_range
        (above ++ (p ++ m) ∷ (mids ++ (n ++ q) ∷ below))
        (length above, byte_len p)
        (length (above ++ (p ++ m) ∷ mids), byte_len n)
      ≡ some (above ++ (p ++ q) ∷ below)
unfolding remove_range
remove_range-across above p m mids n q below =
    rw (==_lt _ _ (row-lt above (p ++ m) mids), get_last, get_then, slice_from-at, merge_tail-at)
      (ap some (
        ap keep_one (
          drain_rows-at above (p ++ q) mids (n ++ q) below _
            (length-rows above mids (p ++ m) (p ++ q)))
        ∙ keep_one-at above (p ++ q) below))

sub_suc-length :
    (above mids : List Line) (x : Line)
    → length (above ++ x ∷ mids) - suc (length above) ≡ length mids
sub_suc-length above mids x = omega (arith, length-append above (x ∷ mids))

take-append : (xs ys : List Line) → take (length xs) (xs ++ ys) ≡ xs
take-append [] ys = refl
take-append (x ∷ xs) ys = ap (x ∷◌) (take-append xs ys)

pub collect_range_text-in_row :
    (above : List Line) (p m q : Line) (below : List Line)
    → collect_range_text
        (above ++ (p ++ (m ++ q)) ∷ below)
        (length above, byte_len p)
        (length above, byte_len (p ++ m))
      ≡ some m
unfolding collect_range_text
collect_range_text-in_row above p m q below =
    rw (==_refl (length above), get_elem?-append-cons, get_then, slice_between-at)

pub collect_range_text-across :
    (above : List Line) (p m : Line) (mids : List Line) (n q : Line) (below : List Line)
    → collect_range_text
        (above ++ (p ++ m) ∷ (mids ++ (n ++ q) ∷ below))
        (length above, byte_len p)
        (length (above ++ (p ++ m) ∷ mids), byte_len n)
      ≡ some (join_lines (m ∷ (mids ++ n ∷ [])))
unfolding collect_range_text
collect_range_text-across above p m mids n q below = rw (
  ==_lt _ _ (row-lt above (p ++ m) mids),
  get_elem?-append-cons,
  piece,
  get_last,
  slice_from-at,
  slice_to-at,
  add-one (length above),
  drop-at,
  sub_suc-length,
  take-append,
)
