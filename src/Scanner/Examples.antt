-- ===== src/Scanner/Examples.antt =====
-- The scan of concrete statements.
use poqi.Prelude.{
  ◌≡◌, refl, true, false, some, List, [], ◌∷◌, ◌++◌, ◌==◌, leb, ◌&&◌, ◌||◌, is_whitespace,
}
use poqi.TextInput.Utf8.{len_utf8, byte_len}
use poqi.WithClause.Token.{has_prefix, to_lower}
use poqi.QueryScope.Lexer.{CharTables}
use poqi.Scanner.Machine.{SqlScan, scan_sql, is_identifier_char, is_identifier_start}
use poqi.Scanner.Pieces.{
  deeper, shallower, inner, Piece, gap, sign, end_of_statement, word, single_quoted, line_comment,
  block_comment, dollar_quoted, Ending, within_double, put_pieces, ArePieces,
}
use poqi.Scanner.Print.{scan_sql-put_pieces}
use poqi.Scanner.Total.{scan_sql-terminates}

-- Letters and digits of ASCII, and two letters behind it.
abbrev latin : CharTables
latin = record {
  alphabetic = λ c.
      (leb b'a' c && leb c b'z') || ((leb b'A' c && leb c b'Z') || ((c == 0xC3) || (c == 0xE9)));
  numeric = λ c. leb b'0' c && leb c b'9';
}

-- Behind a semicolon, with the cursor in a comment within a comment.
comment_scan :
    scan_sql latin
      (b'a' ∷ b';' ∷ b'B' ∷ b'$' ∷ b' ' ∷ b'/' ∷ b'*' ∷ b'/' ∷ b'*' ∷ b'*' ∷ b'/' ∷ b'x' ∷ [])
      12
    ≡ some (record { tokens = (b'b' ∷ b'$' ∷ []) ∷ []; suppressed = true })
unfolding scan_sql len_utf8 to_lower
comment_scan = refl

-- A cursor within a character stands before it.
within_character_scan :
    scan_sql latin (b'x' ∷ 0xE9 ∷ []) 2
    ≡ some (record { tokens = (b'x' ∷ []) ∷ []; suppressed = false })
unfolding scan_sql len_utf8 to_lower
within_character_scan = refl

-- A tag with a letter that has two bytes opens no quoted text.
tag_scan :
    scan_sql latin (b'$' ∷ 0xE9 ∷ b'$' ∷ b' ' ∷ b'x' ∷ []) 6
    ≡ some (record { tokens = (0xE9 ∷ b'$' ∷ []) ∷ (b'x' ∷ []) ∷ []; suppressed = false })
unfolding scan_sql len_utf8 to_lower
tag_scan = refl

-- s 'o''"';-A -- ;
-- /*/*x*/*/$t$;$t$ "q
abbrev pieces : List Piece
pieces =
    word b's' []
    ∷ gap b' '
    ∷ single_quoted (b'o' ∷ b'\'' ∷ b'"' ∷ [])
    ∷ end_of_statement
    ∷ sign b'-'
    ∷ word b'A' []
    ∷ gap b' '
    ∷ line_comment (b' ' ∷ b';' ∷ [])
    ∷ block_comment (deeper ∷ inner b'x' ∷ shallower ∷ [])
    ∷ dollar_quoted (b't' ∷ []) (b';' ∷ [])
    ∷ gap b' '
    ∷ []

abbrev ending : Ending
ending = within_double (b'q' ∷ [])

pair : {A B : Type 0} → A → B → A × B
pair a b = (a, b)

pieces-ArePieces : ArePieces latin pieces ending
unfolding is_identifier_char is_identifier_start is_whitespace has_prefix
pieces-ArePieces =
    pair (((refl, refl, refl, refl, refl), refl, refl), refl, refl)
      (pair refl (
        pair refl (
          pair tt (
            pair (((refl, refl, refl, refl, refl), refl, refl), refl)
              (pair (((refl, refl, refl, refl, refl), refl, refl), refl, refl)
                (pair refl (
                  pair (pair refl (pair refl tt)) (
                    pair (refl, refl, refl)
                      (pair (pair (refl, refl, tt) (pair refl tt)) (pair refl tt))))))))))

scan_sql-put_pieces_example :
    scan_sql latin (put_pieces pieces ending ++ b'"' ∷ []) (byte_len (put_pieces pieces ending))
    ≡ some (record { tokens = (b'a' ∷ []) ∷ []; suppressed = true })
unfolding to_lower
scan_sql-put_pieces_example = scan_sql-put_pieces latin pieces ending (b'"' ∷ []) pieces-ArePieces

scan_sql-terminates_example :
    (r : SqlScan) × (scan_sql latin (b'$' ∷ b't' ∷ b'$' ∷ b'x' ∷ []) 4 ≡ some r)
scan_sql-terminates_example = scan_sql-terminates latin (b'$' ∷ b't' ∷ b'$' ∷ b'x' ∷ []) 4
