-- ===== src/Scanner/Print.antt =====
-- The scan finds the words of a statement, and whether the cursor stands in a text or a comment
-- (crates/search/completion/src/analyzer/scan.rs).
use mathlib.Core.Path.{subst}
use poqi.Prelude.{
  ℕ, suc, ◌+◌, ◌-◌, ◌≡◌, refl, ap, ◌∙◌, true, some, List, [], ◌∷◌, ◌++◌, arith, length, if_false,
  length-append, le→leb, leb, lt→ltb,
}
use poqi.TextInput.Utf8.{Line, len_utf8, len_utf8_pos, byte_len}
use poqi.WithClause.Token.{lower}
use poqi.QueryScope.Lexer.{CharTables}
use poqi.Scanner.Machine.{
  ScanState, scan_new, scanned, split_cursor, scan_fuel, scan_halves, scan_sql,
}
use poqi.Scanner.Pieces.{
  Piece, gap, sign, end_of_statement, word, single_quoted, double_quoted, line_comment,
  block_comment, dollar_quoted, Ending, closed, within_single, within_double, within_line,
  within_block, within_dollar, tag_end, put_piece, put_ending, put_pieces, words_of, is_within,
  IsPiece, IsEnding, ArePieces,
}
use poqi.Scanner.Rounds.{
  plain, single, double, line, block, dollar, Runs, done, round, scan_fuel-Runs, step_single-end,
  step_double-end, step_line-end, step_block-end, step_plain-single, step_plain-double,
  step_plain-line, step_plain-block, step_plain-token, step_plain-sign, step_plain-statement,
}
use poqi.Scanner.Texts.{
  space-OpensNothing, consume_token-gap, consume_token-sign, consume_token-word, goes_single,
  goes_double, goes_line, goes_block, goes_dollar, goes_tag, goes_tag_end,
}

abbrev end_state : List Line → Ending → ScanState
end_state ts closed = plain ts
end_state ts (within_single body) = single ts
end_state ts (within_double body) = double ts
end_state ts (within_line body) = line ts
end_state ts (within_block depth ms) = block ts (suc depth)
end_state ts (within_dollar tag body) = dollar ts (b'$' ∷ tag_end tag)

abbrev words_behind : List Line → Piece → List Line
words_behind ts (word c w) = ts ++ lower (c ∷ w) ∷ []
words_behind ts end_of_statement = []
words_behind ts _ = ts

module _ (u : CharTables) (after : Line) (r : ScanState) where
  goes_piece :
      (ts : List Line) (p : Piece) (rest : Line)
      → IsPiece u p rest
      → Runs u after (plain (words_behind ts p)) rest r
      → Runs u after (plain ts) (put_piece p rest) r
  goes_piece ts (gap c) rest h g =
      round
        (step_plain-token u after ts c rest (plain ts, rest) (space-OpensNothing c rest h)
          (consume_token-gap u after ts c rest h))
        (omega arith) g
  goes_piece ts (sign c) rest (h, k) g =
      round (step_plain-sign u after ts c rest h.0 (consume_token-sign u after ts c rest h k))
        (omega arith) g
  goes_piece ts end_of_statement rest h g =
      round (step_plain-statement u after ts rest) (omega arith) g
  goes_piece ts (word c w) rest (h, k, e) g =
      round
        (step_plain-token u after ts c (w ++ rest) (plain (ts ++ lower (c ∷ w) ∷ []), rest) h.0
          (consume_token-word u after ts c w rest h k e))
        (omega (arith, length-append w rest)) g
  goes_piece ts (single_quoted body) rest h g =
      round (step_plain-single u after ts _) (omega arith) (
        goes_single u after r ts body (b'\'' ∷ rest)
          (round (step_single-end u after ts rest h) (omega arith) g))
  goes_piece ts (double_quoted body) rest h g =
      round (step_plain-double u after ts _) (omega arith) (
        goes_double u after r ts body (b'"' ∷ rest)
          (round (step_double-end u after ts rest h) (omega arith) g))
  goes_piece ts (line_comment body) rest h g = round (step_plain-line u after ts _) (omega arith) (
      goes_line u after r ts body (10 ∷ rest) h
        (round (step_line-end u after ts rest) (omega arith) g))
  goes_piece ts (block_comment ms) rest h g = round (step_plain-block u after ts _) (omega arith) (
      goes_block u after r ts 0 0 ms (b'*' ∷ b'/' ∷ rest) h
        (round (step_block-end u after ts 0 rest) (omega arith) g))
  goes_piece ts (dollar_quoted tag body) rest (h, k) g =
      goes_tag u after r ts tag (body ++ ((b'$' ∷ tag_end tag) ++ rest)) h (
        goes_dollar u after r ts (b'$' ∷ tag_end tag) body ((b'$' ∷ tag_end tag) ++ rest) k
          (goes_tag_end u after r ts (tag_end tag) rest g))

words_of-behind :
    (ts : List Line) (p : Piece) (ps : List Piece)
    → words_of (words_behind ts p) ps ≡ words_of ts (p ∷ ps)
words_of-behind ts (gap c) ps = refl
words_of-behind ts (sign c) ps = refl
words_of-behind ts end_of_statement ps = refl
words_of-behind ts (word c w) ps = refl
words_of-behind ts (single_quoted body) ps = refl
words_of-behind ts (double_quoted body) ps = refl
words_of-behind ts (line_comment body) ps = refl
words_of-behind ts (block_comment ms) ps = refl
words_of-behind ts (dollar_quoted tag body) ps = refl

goes_ending :
    (u : CharTables) (after : Line) (ts : List Line) (end : Ending)
    → IsEnding u end
    → Runs u after (plain ts) (put_ending end) (end_state ts end)
goes_ending u after ts closed h = done
goes_ending u after ts (within_single body) h =
    round (step_plain-single u after ts _) (omega arith)
      (goes_single u after (single ts) ts body [] done)
goes_ending u after ts (within_double body) h =
    round (step_plain-double u after ts _) (omega arith)
      (goes_double u after (double ts) ts body [] done)
goes_ending u after ts (within_line body) h =
    round (step_plain-line u after ts _) (omega arith)
      (goes_line u after (line ts) ts body [] h done)
goes_ending u after ts (within_block depth ms) h =
    round (step_plain-block u after ts _) (omega arith)
      (goes_block u after (block ts (suc depth)) ts 0 depth ms [] h done)
goes_ending u after ts (within_dollar tag body) (h, k) =
    let d = b'$' ∷ tag_end tag in
    goes_tag u after (dollar ts d) ts tag (body ++ []) h
      (goes_dollar u after (dollar ts d) ts d body [] k done)

goes_all :
    (u : CharTables) (after : Line) (ts : List Line) (ps : List Piece) (end : Ending)
    → ArePieces u ps end
    → Runs u after (plain ts) (put_pieces ps end) (end_state (words_of ts ps) end)
goes_all u after ts [] end h = goes_ending u after ts end h
goes_all u after ts (p ∷ ps) end (h, hs) =
    goes_piece u after (end_state (words_of ts (p ∷ ps)) end) ts p (put_pieces ps end) h (
      subst
        (λ (vs : List Line).
          Runs u after (plain (words_behind ts p)) (put_pieces ps end) (end_state vs end))
        (words_of-behind ts p ps) (goes_all u after (words_behind ts p) ps end hs))

split_cursor-append : (a b : Line) → split_cursor (a ++ b) (byte_len a) ≡ (a, b)
unfolding split_cursor
split_cursor-append [] [] = refl
split_cursor-append [] (c ∷ b) = if_false (leb (len_utf8 c) 0) _ _ (ground (arith, len_utf8_pos c))
split_cursor-append (c ∷ a) b =
    let here : leb (len_utf8 c) (len_utf8 c + byte_len a) ≡ true = le→leb _ _ (omega arith) in
    let left : len_utf8 c + byte_len a - len_utf8 c ≡ byte_len a = omega arith in
    rw (here, left, split_cursor-append a b) refl

scanned-end_state :
    (ts : List Line) (end : Ending)
    → scanned (some (end_state ts end)) ≡ some (record { tokens = ts; suppressed = is_within end })
scanned-end_state ts closed = refl
scanned-end_state ts (within_single body) = refl
scanned-end_state ts (within_double body) = refl
scanned-end_state ts (within_line body) = refl
scanned-end_state ts (within_block depth ms) = rw (lt→ltb 0 (suc depth) (omega arith)) refl
scanned-end_state ts (within_dollar tag body) = refl

pub scan_sql-halves :
    (u : CharTables) (buffer : Line) (cursor : ℕ)
    → scan_sql u buffer cursor ≡ scan_halves u (split_cursor buffer cursor)
unfolding scan_sql scan_halves split_cursor scan_fuel
scan_sql-halves u [] cursor = refl
scan_sql-halves u (c ∷ cs) cursor = refl

scan_halves-put_pieces :
    (u : CharTables) (ps : List Piece) (end : Ending) (after : Line)
    → ArePieces u ps end
    → scan_halves u (put_pieces ps end, after)
      ≡ some (record { tokens = words_of [] ps; suppressed = is_within end })
unfolding scan_halves
scan_halves-put_pieces u ps end after h =
    ap scanned (
      scan_fuel-Runs u after (suc (length (put_pieces ps end))) scan_new (put_pieces ps end)
        (end_state (words_of [] ps) end) (goes_all u after [] ps end h) (omega arith))
    ∙ scanned-end_state (words_of [] ps) end

-- The scan of a statement that is written up to the cursor as words, signs, texts and comments
-- yields the words behind the last semicolon, in lower case and in their order, and none from
-- inside a text or a comment; and it suppresses the completion exactly when the cursor stands in a
-- text or a comment that is not closed. Any text may stand behind the cursor.
pub scan_sql-put_pieces :
    (u : CharTables) (ps : List Piece) (end : Ending) (after : Line)
    → ArePieces u ps end
    → scan_sql u (put_pieces ps end ++ after) (byte_len (put_pieces ps end))
      ≡ some (record { tokens = words_of [] ps; suppressed = is_within end })
scan_sql-put_pieces u ps end after h =
    scan_sql-halves u (put_pieces ps end ++ after) (byte_len (put_pieces ps end))
    ∙ ap (scan_halves u) (split_cursor-append (put_pieces ps end) after)
    ∙ scan_halves-put_pieces u ps end after h
