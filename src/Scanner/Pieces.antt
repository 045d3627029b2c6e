-- ===== src/Scanner/Pieces.antt =====
-- A statement up to the cursor as a person reads it: words, signs, texts and comments, and at its
-- end perhaps a text or a comment that the cursor stands in. It describes what the scan of
-- crates/search/completion/src/analyzer/scan.rs is to find, and does not use it.
use poqi.Prelude.{
  ℕ, zero, suc, ◌≡◌, Bool, true, false, ◌&&◌, List, [], ◌∷◌, ◌++◌, ◌==◌, if◌then◌else◌,
  is_whitespace,
}
use poqi.TextInput.Utf8.{Line}
use poqi.WithClause.Token.{has_prefix, lower}
use poqi.QueryScope.Lexer.{CharTables, next_is}
use poqi.Scanner.Machine.{is_identifier_char, is_identifier_start, utf8_bytes, all_identifier}

-- What a block comment is made of: the begin and the end of a comment within it, or a character.
pub data Mark : Type 0 where
  deeper shallower : Mark
  inner : ℕ → Mark

pub data Piece : Type 0 where
  gap sign : ℕ → Piece
  end_of_statement : Piece
  word : ℕ → Line → Piece
  single_quoted double_quoted line_comment : Line → Piece
  block_comment : List Mark → Piece
  dollar_quoted : Line → Line → Piece

pub data Ending : Type 0 where
  closed : Ending
  within_single within_double within_line : Line → Ending
  within_block : ℕ → List Mark → Ending
  within_dollar : Line → Line → Ending

-- The text with the quote doubled in it, and the rest behind.
abbrev pub put_doubled : ℕ → Line → Line → Line
put_doubled quote [] rest = rest
put_doubled quote (c ∷ cs) rest =
    let more = put_doubled quote cs rest in if c == quote then quote ∷ quote ∷ more else c ∷ more

abbrev pub put_marks : List Mark → Line → Line
put_marks [] rest = rest
put_marks (deeper ∷ ms) rest = b'/' ∷ b'*' ∷ put_marks ms rest
put_marks (shallower ∷ ms) rest = b'*' ∷ b'/' ∷ put_marks ms rest
put_marks (inner c ∷ ms) rest = c ∷ put_marks ms rest

-- A tag with its dollar signs, but for the first.
abbrev pub tag_end : Line → Line
tag_end tag = tag ++ b'$' ∷ []

abbrev pub put_piece : Piece → Line → Line
put_piece (gap c) rest = c ∷ rest
put_piece (sign c) rest = c ∷ rest
put_piece end_of_statement rest = b';' ∷ rest
put_piece (word c w) rest = c ∷ w ++ rest
put_piece (single_quoted body) rest = b'\'' ∷ put_doubled b'\'' body (b'\'' ∷ rest)
put_piece (double_quoted body) rest = b'"' ∷ put_doubled b'"' body (b'"' ∷ rest)
put_piece (line_comment body) rest = b'-' ∷ b'-' ∷ (body ++ 10 ∷ rest)
put_piece (block_comment ms) rest = b'/' ∷ b'*' ∷ put_marks ms (b'*' ∷ b'/' ∷ rest)
put_piece (dollar_quoted tag body) rest =
    b'$' ∷ (tag_end tag ++ (body ++ ((b'$' ∷ tag_end tag) ++ rest)))

abbrev pub put_ending : Ending → Line
put_ending closed = []
put_ending (within_single body) = b'\'' ∷ put_doubled b'\'' body []
put_ending (within_double body) = b'"' ∷ put_doubled b'"' body []
put_ending (within_line body) = b'-' ∷ b'-' ∷ (body ++ [])
put_ending (within_block depth ms) = b'/' ∷ b'*' ∷ put_marks ms []
put_ending (within_dollar tag body) = b'$' ∷ (tag_end tag ++ (body ++ []))

abbrev pub put_pieces : List Piece → Ending → Line
put_pieces [] end = put_ending end
put_pieces (p ∷ ps) end = put_piece p (put_pieces ps end)

-- The words of the statement that the cursor stands in, in lower case, behind those before.
abbrev pub words_of : List Line → List Piece → List Line
words_of ts [] = ts
words_of ts (word c w ∷ ps) = words_of (ts ++ lower (c ∷ w) ∷ []) ps
words_of ts (end_of_statement ∷ ps) = words_of [] ps
words_of ts (p ∷ ps) = words_of ts ps

abbrev pub is_within : Ending → Bool
is_within closed = false
is_within _ = true

-- No text or comment begins at the character.
abbrev pub OpensNothing : ℕ → Line → Type 0
OpensNothing c cs =
    (((c == b'-') && next_is b'-' cs) ≡ false)
    × (((c == b'/') && next_is b'*' cs) ≡ false)
    × ((c == b'\'') ≡ false)
    × ((c == b'"') ≡ false)
    × ((c == b'$') ≡ false)

-- Nor does it end a statement or a word.
abbrev pub NoSpace : ℕ → Line → Type 0
NoSpace c cs = OpensNothing c cs × ((c == b';') ≡ false) × (is_whitespace c ≡ false)

abbrev pub OneLine : Line → Type 0
OneLine [] = Unit {0}
OneLine (c ∷ cs) = ((c == 10) ≡ false) × OneLine cs

-- From a depth of `suc n` to one of `suc m`, never out of the comment, and its characters form no
-- begin and no end of a comment.
abbrev pub Nested : ℕ → ℕ → List Mark → Line → Type 0
Nested n m [] rest = n ≡ m
Nested n m (deeper ∷ ms) rest = Nested (suc n) m ms rest
Nested zero m (shallower ∷ ms) rest = ⊥
Nested (suc n) m (shallower ∷ ms) rest = Nested n m ms rest
Nested n m (inner c ∷ ms) rest =
    (((c == b'/') && next_is b'*' (put_marks ms rest)) ≡ false)
    × (((c == b'*') && next_is b'/' (put_marks ms rest)) ≡ false)
    × Nested n m ms rest

-- The delimiter does not begin anywhere in the body.
abbrev pub Hides : Line → Line → Line → Type 0
Hides delim [] rest = Unit {0}
Hides delim (c ∷ cs) rest = (has_prefix (c ∷ cs ++ rest) delim ≡ false) × Hides delim cs rest

module _ (u : CharTables) where
  abbrev pub IsTag : Line → Type 0
  IsTag [] = Unit {0}
  IsTag (c ∷ cs) = ((c == b'$') ≡ false) × (all_identifier u (utf8_bytes c) ≡ true) × IsTag cs

  -- The text is made of identifier characters, and the rest does not go on with one.
  abbrev pub WordEnds : Line → Line → Type 0
  WordEnds [] [] = Unit {0}
  WordEnds [] (r ∷ rest) = is_identifier_char u r ≡ false
  WordEnds (c ∷ cs) rest = (is_identifier_char u c ≡ true) × WordEnds cs rest

  abbrev pub IsPiece : Piece → Line → Type 0
  IsPiece (gap c) rest = is_whitespace c ≡ true
  IsPiece (sign c) rest = NoSpace c rest × (is_identifier_start u c ≡ false)
  IsPiece end_of_statement rest = Unit {0}
  IsPiece (word c w) rest =
      NoSpace c (w ++ rest) × (is_identifier_start u c ≡ true) × WordEnds w rest
  IsPiece (single_quoted body) rest = next_is b'\'' rest ≡ false
  IsPiece (double_quoted body) rest = next_is b'"' rest ≡ false
  IsPiece (line_comment body) rest = OneLine body
  IsPiece (block_comment ms) rest = Nested 0 0 ms (b'*' ∷ b'/' ∷ rest)
  IsPiece (dollar_quoted tag body) rest =
      IsTag tag × Hides (b'$' ∷ tag_end tag) body ((b'$' ∷ tag_end tag) ++ rest)

  abbrev pub IsEnding : Ending → Type 0
  IsEnding (within_line body) = OneLine body
  IsEnding (within_block depth ms) = Nested 0 depth ms []
  IsEnding (within_dollar tag body) = IsTag tag × Hides (b'$' ∷ tag_end tag) body []
  IsEnding _ = Unit {0}

  abbrev pub ArePieces : List Piece → Ending → Type 0
  ArePieces [] end = IsEnding end
  ArePieces (p ∷ ps) end = IsPiece p (put_pieces ps end) × ArePieces ps end
