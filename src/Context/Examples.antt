-- ===== src/Context/Examples.antt =====
-- The completion's context at the cursor of concrete statements.
use poqi.Prelude.{
  ◌≡◌, refl, true, false, none, some, List, [], ◌∷◌, ◌++◌, leb, ◌&&◌, ◌||◌, is_whitespace,
}
use poqi.TextInput.Utf8.{Line, len_utf8, byte_len}
use poqi.QueryScope.Identifier.{QueryScope}
use poqi.QueryScope.Keywords.{kw_from, kw_select}
use poqi.QueryScope.Lexer.{CharTables}
use poqi.Scanner.Machine.{SqlScan, scan_sql, is_identifier_char, is_identifier_start}
use poqi.Scanner.Pieces.{gap, word, Piece, Ending, within_single, put_pieces, ArePieces}
use poqi.Context.Before.{
  TokenWindow, current_token, literal_after_operator, previous_non_whitespace,
  trailing_literal_punctuation,
}
use poqi.Context.Detect.{literal_context, from_source_context, table_context, detect_context}
use poqi.Context.Opened.{opens_from, OpensNone, IsOrdinary}
use poqi.Context.Offered.{NoSign, detect_context-opened, detect_context-within}

abbrev ascii : CharTables
ascii = record {
  alphabetic = λ c. (leb b'a' c && leb c b'z') || (leb b'A' c && leb c b'Z');
  numeric = λ c. leb b'0' c && leb c b'9';
}

abbrev no_scope : QueryScope
no_scope = record { relations = []; has_relation_source = false; select_list_has_star = false }

-- Behind FROM s.ta
abbrev dotted_text : Line
dotted_text = b'F' ∷ b'R' ∷ b'O' ∷ b'M' ∷ b' ' ∷ b's' ∷ b'.' ∷ b't' ∷ b'a' ∷ []

dotted_token :
    current_token ascii dotted_text 9
    ≡ some (record { current = b't' ∷ b'a' ∷ []; prev_char = some b'.'; start_offset = 7 })
unfolding current_token len_utf8
dotted_token = refl

dotted_context :
    detect_context ascii dotted_text 9
      (record { current = b't' ∷ b'a' ∷ []; prev_char = some b'.'; start_offset = 7 })
      (record { tokens = kw_from ∷ (b's' ∷ []) ∷ (b't' ∷ b'a' ∷ []) ∷ []; suppressed = false })
      no_scope
    ≡ table_context (some (b's' ∷ []))
unfolding detect_context len_utf8
dotted_context = refl

-- A cursor within a character has no word.
token_within_character : current_token ascii (b'x' ∷ 0xE9 ∷ []) 2 ≡ none
unfolding current_token len_utf8
token_within_character = refl

-- Behind x = 'it''s' there is a value.
value_behind :
    literal_after_operator (b'x' ∷ b'=' ∷ b'\'' ∷ b't' ∷ b'\'' ∷ b'\'' ∷ b's' ∷ b'\'' ∷ b' ' ∷ []) 9
    ≡ true
unfolding literal_after_operator len_utf8
value_behind = refl

-- select c from a b
abbrev from_text : Line
from_text = kw_select ++ b' ' ∷ b'c' ∷ b' ' ∷ kw_from ++ b' ' ∷ b'a' ∷ b' ' ∷ b'b' ∷ b' ' ∷ []

abbrev from_token : TokenWindow
from_token = record { current = []; prev_char = some b' '; start_offset = 18 }

from_text-NoSign : NoSign from_text from_token
unfolding literal_after_operator previous_non_whitespace trailing_literal_punctuation len_utf8
from_text-NoSign = record {
  no_value = refl;
  no_punctuation = refl;
  no_comparison = refl;
  no_dot = refl;
}

pair : {A B : Type 0} → A → B → A × B
pair a b = (a, b)

a-OpensNone : OpensNone ((b'a' ∷ []) ∷ [])
a-OpensNone =
    pair
      (pair refl (
        pair refl (
          pair refl (
            pair refl (
              pair refl (
                pair refl (
                  pair refl (
                    pair refl (
                      pair refl (
                        pair refl (
                          pair refl (
                            pair refl (
                              pair refl (
                                pair refl (
                                  pair refl (
                                    pair refl (
                                      pair refl (
                                        pair refl (
                                          pair refl (
                                            pair refl (pair refl (pair refl tt))))))))))))))))))))))
      tt

b-IsOrdinary : IsOrdinary (b'b' ∷ [])
b-IsOrdinary =
    pair
      (pair refl (
        pair refl (
          pair refl (
            pair refl (
              pair refl (
                pair refl (
                  pair refl (
                    pair refl (
                      pair refl (
                        pair refl (
                          pair refl (
                            pair refl (
                              pair refl (
                                pair refl (
                                  pair refl (
                                    pair refl (
                                      pair refl (
                                        pair refl (
                                          pair refl (
                                            pair refl (pair refl (pair refl tt))))))))))))))))))))))
      (pair refl (
        pair refl (
          pair refl (
            pair refl (
              pair refl (
                pair refl
                  (pair refl (pair refl (pair refl (pair refl (pair refl (pair refl tt))))))))))))

detect_context-opened_example :
    detect_context ascii from_text 18 from_token
      (record {
        tokens = kw_select ∷ (b'c' ∷ []) ∷ kw_from ∷ (b'a' ∷ []) ∷ (b'b' ∷ []) ∷ [];
        suppressed = false;
      })
      no_scope
    ≡ from_source_context
detect_context-opened_example =
    detect_context-opened ascii from_text 18 from_token no_scope (kw_select ∷ (b'c' ∷ []) ∷ [])
      opens_from ((b'a' ∷ []) ∷ []) (b'b' ∷ []) from_text-NoSign tt a-OpensNone b-IsOrdinary

abbrev pieces : List Piece
pieces = word b'x' [] ∷ gap b' ' ∷ []

abbrev ending : Ending
ending = within_single (b'f' ∷ [])

pieces-ArePieces : ArePieces ascii pieces ending
unfolding is_identifier_char is_identifier_start is_whitespace
pieces-ArePieces = pair (((refl, refl, refl, refl, refl), refl, refl), refl, refl) (pair refl tt)

detect_context-within_example :
    (scan : SqlScan) × (scan_sql ascii
        (put_pieces pieces ending ++ b'\'' ∷ [])
        (byte_len (put_pieces pieces ending))
      ≡ some scan)
    × (detect_context ascii (put_pieces pieces ending ++ b'\'' ∷ []) 4 from_token scan no_scope
        ≡ literal_context)
detect_context-within_example =
    detect_context-within ascii pieces ending (b'\'' ∷ []) 4 from_token no_scope pieces-ArePieces
      refl
