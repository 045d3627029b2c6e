-- ===== src/TextInput/Lines.antt =====
-- The `str` methods by which the text input cuts a text into lines.
use poqi.Prelude.{
  length, ◌++◌, ◌≡◌, refl, zero, suc, Option, none, some, ◌>>=◌, ℕ, true, false, List, [], ◌∷◌,
  ◌==◌, if◌then◌else◌,
}
use poqi.TextInput.Utf8.{Line}

-- `str::split('\n')`: the pieces between line feeds, at least one.
unfoldable pub add_char : ℕ → List Line → List Line
add_char c [] = (c ∷ []) ∷ []
add_char c (l ∷ ls) = (c ∷ l) ∷ ls

unfoldable pub split_lines : Line → List Line
unfolding add_char
split_lines [] = [] ∷ []
split_lines (c ∷ cs) =
    let rest = split_lines cs in if c == b'\n' then [] ∷ rest else add_char c rest

-- `replace("\r\n", "\n").replace('\r', "\n")`
abbrev drop_feed : Line → Line
drop_feed [] = []
drop_feed (c ∷ cs) = if c == b'\n' then cs else c ∷ cs

-- The first replacement alone.
crlf_to_lf : Line → Line
crlf_to_lf [] = []
crlf_to_lf (c ∷ []) = c ∷ []
crlf_to_lf (c ∷ d ∷ cs) =
    let skip = b'\n' ∷ crlf_to_lf cs in
    let keep = c ∷ crlf_to_lf (d ∷ cs) in
    elim (c == b'\r') [ true ↦ elim (d == b'\n') [ true ↦ skip | false ↦ keep ] | false ↦ keep ]

cr_to_lf : Line → Line
cr_to_lf [] = []
cr_to_lf (c ∷ cs) = (if c == b'\r' then b'\n' else c) ∷ cr_to_lf cs

unfoldable pub normalize : Line → Line
unfolding crlf_to_lf cr_to_lf
normalize t = cr_to_lf (crlf_to_lf t)

-- `str::lines`: no empty last line, and a line feed takes a carriage return before it along.
strip_cr : Line → Line
strip_cr [] = []
strip_cr (c ∷ []) = if c == b'\r' then [] else c ∷ []
strip_cr (c ∷ d ∷ cs) = c ∷ strip_cr (d ∷ cs)

finish_lines : List Line → List Line
unfolding strip_cr
finish_lines [] = []
finish_lines ([] ∷ []) = []
finish_lines ((c ∷ cs) ∷ []) = (c ∷ cs) ∷ []
finish_lines (l ∷ m ∷ ls) = strip_cr l ∷ finish_lines (m ∷ ls)

unfoldable pub str_lines : Line → List Line
unfolding finish_lines split_lines
str_lines t = finish_lines (split_lines t)

-- `Vec::insert`, which panics behind the end.
unfoldable pub insert_row : List Line → ℕ → Line → Option (List Line)
insert_row ls zero l = some (l ∷ ls)
insert_row [] (suc i) l = none
insert_row (m ∷ ls) (suc i) l = do rest ← insert_row ls i l; some (m ∷ rest)

pub insert_row-at :
    (above : List Line) (l : Line) (below : List Line) (m : Line)
    → insert_row (above ++ l ∷ below) (suc (length above)) m ≡ some ((above ++ l ∷ []) ++ m ∷ below)
unfolding insert_row
insert_row-at [] l below m = refl
insert_row-at (a ∷ above) l below m = rw (insert_row-at above l below m)
