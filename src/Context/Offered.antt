-- ===== src/Context/Offered.antt =====
-- What the completion offers behind the words that opened a clause, and in a text or a comment
-- (crates/search/completion/src/analyzer/context.rs).
use poqi.Prelude.{
  ℕ, ◌≡◌, refl, sym, if_true, ap, ◌∙◌, Bool, true, false, Option, none, some, List, [], ◌∷◌, ◌++◌,
  ◌==◌, get_elem?, append_assoc,
}
use poqi.TextInput.Utf8.{Line, byte_len}
use poqi.WithClause.Token.{kw_with, kw_insert, kw_update, kw_delete}
use poqi.QueryScope.Keywords.{
  kw_select, kw_distinct, kw_from, kw_join, kw_where, kw_group, kw_having, kw_window, kw_order,
  kw_limit, kw_fetch, kw_offset, kw_returning, kw_on, kw_using, kw_left, kw_right, kw_full,
  kw_inner, kw_cross, kw_natural,
}
use poqi.QueryScope.Identifier.{QueryScope}
use poqi.QueryScope.Lexer.{CharTables}
use poqi.Scanner.Machine.{SqlScan, scan_sql}
use poqi.Scanner.Pieces.{Piece, Ending, put_pieces, words_of, is_within, ArePieces}
use poqi.Scanner.Print.{scan_sql-put_pieces}
use poqi.Context.Clause.{
  kw_by, kw_into, kw_values, kw_set, kw_outer, clause_from_tokens, last_word, word_before_last,
  joins, is_join_prefix,
}
use poqi.Context.Before.{
  previous_non_whitespace, trailing_literal_punctuation, literal_after_operator, TokenWindow,
}
use poqi.Context.Detect.{
  CompletionContext, start_context, select_list_context, from_source_context, where_context,
  having_context, window_context, limit_context, offset_context, returning_context,
  group_by_context, order_by_context, insert_values_context, update_set_context, literal_context,
  kw_table, context_of, char_is, compares, names_relation, context_behind, behind_last,
  context_of_tokens, detect_context,
}
use poqi.Context.Opened.{
  opens_with, opens_select, opens_from, opens_join, opens_where, opens_having, opens_window,
  opens_limit, opens_fetch, opens_offset, opens_insert, opens_update, opens_delete, opens_returning,
  opens_union, opens_intersect, opens_except, opens_group, opens_order, opens_into, opens_values,
  opens_set, IsOpening, Opening, opening_words, opened_clause, clause_words, last_words, Differs,
  Differs-at, OpensNone, IsOrdinary, clause_from_tokens-opened,
}

last_word-snoc : (ts : List Line) (w : Line) → last_word (ts ++ w ∷ []) ≡ some w
last_word-snoc [] w = refl
last_word-snoc (t ∷ []) w = refl
last_word-snoc (t ∷ v ∷ ts) w = last_word-snoc (v ∷ ts) w

context_behind-IsOrdinary : (w : Line) (named : Bool) → IsOrdinary w → context_behind w named ≡ none
unfolding context_behind
context_behind-IsOrdinary w named (h, l) =
    let no = λ (i : ℕ) (k : Line) (e : get_elem? clause_words i ≡ some k).
      Differs-at w clause_words i k e h in
    let nor =
      λ (i : ℕ) (k : Line) (e : get_elem? last_words i ≡ some k). Differs-at w last_words i k e l in
    rw
      (
        no 0 kw_with refl,
        no 1 kw_select refl,
        no 2 kw_from refl,
        no 3 kw_join refl,
        no 4 kw_where refl,
        no 5 kw_having refl,
        no 6 kw_window refl,
        no 7 kw_limit refl,
        no 8 kw_fetch refl,
        no 9 kw_offset refl,
        no 10 kw_insert refl,
        no 11 kw_into refl,
        no 12 kw_values refl,
        no 13 kw_update refl,
        no 14 kw_set refl,
        no 15 kw_delete refl,
        no 16 kw_returning refl,
        no 20 kw_group refl,
        no 21 kw_order refl,
        nor 0 kw_distinct refl,
        nor 1 kw_table refl,
        nor 2 kw_on refl,
        nor 3 kw_using refl,
      )
      refl

joins-IsOrdinary : (w : Line) (before : Option Line) → IsOrdinary w → joins (some w) before ≡ false
joins-IsOrdinary w before (h, l) =
    let nor =
      λ (i : ℕ) (k : Line) (e : get_elem? last_words i ≡ some k). Differs-at w last_words i k e l in
    rw
      (
        nor 4 kw_left refl,
        nor 5 kw_right refl,
        nor 6 kw_full refl,
        nor 7 kw_inner refl,
        nor 8 kw_cross refl,
        nor 9 kw_natural refl,
        nor 10 kw_outer refl,
      )
      refl

context_of_tokens-ordinary :
    (tokens : List Line) (w : Line) (named : Bool)
    → last_word tokens ≡ some w
    → IsOrdinary w
    → context_of_tokens tokens named ≡ context_of (clause_from_tokens tokens)
unfolding context_of_tokens behind_last is_join_prefix
context_of_tokens-ordinary tokens w named e h =
    let by = Differs-at w last_words 11 kw_by refl h.1 in
    rw (e, by, context_behind-IsOrdinary w named h, joins-IsOrdinary w (word_before_last tokens) h)
      refl

OpensNone-snoc :
    (ws : List Line) (w : Line) → OpensNone ws → Differs w clause_words → OpensNone (ws ++ w ∷ [])
OpensNone-snoc [] w h k = (k, tt)
OpensNone-snoc (v ∷ ws) w (h, hs) k = (h, OpensNone-snoc ws w hs k)

-- The tests on the characters before the word at the cursor fail.
pub record NoSign (buffer : Line) (token : TokenWindow) : Type 0 where
  pub no_value : literal_after_operator buffer token.start_offset ≡ false
  pub no_punctuation : char_is trailing_literal_punctuation token.prev_char ≡ false
  pub no_comparison : char_is compares (previous_non_whitespace buffer token.start_offset) ≡ false
  pub no_dot : char_is (λ c. c == b'.') token.prev_char ≡ false

detect_context-tokens :
    (u : CharTables) (buffer : Line) (cursor : ℕ) (token : TokenWindow) (tokens : List Line)
    (scope : QueryScope)
    → NoSign buffer token
    → detect_context u buffer cursor token (record { tokens = tokens; suppressed = false }) scope
      ≡ context_of_tokens tokens
          (names_relation buffer cursor (previous_non_whitespace buffer token.start_offset) scope)
unfolding detect_context
detect_context-tokens u buffer cursor token tokens scope h =
    rw (h.no_value, h.no_punctuation, h.no_comparison, h.no_dot) refl

-- What is offered behind the words that open a clause.
abbrev pub offered : Opening → CompletionContext
offered opens_with = start_context
offered opens_select = select_list_context
offered opens_from = from_source_context
offered opens_join = from_source_context
offered opens_where = where_context
offered opens_having = having_context
offered opens_window = window_context
offered opens_limit = limit_context
offered opens_fetch = limit_context
offered opens_offset = offset_context
offered opens_insert = from_source_context
offered opens_update = from_source_context
offered opens_delete = from_source_context
offered opens_returning = returning_context
offered opens_union = start_context
offered opens_intersect = start_context
offered opens_except = start_context
offered opens_group = group_by_context
offered opens_order = order_by_context
offered opens_into = from_source_context
offered (opens_values ws) = insert_values_context
offered (opens_set ws) = update_set_context

context_of-offered : (o : Opening) → context_of (opened_clause o) ≡ offered o
context_of-offered opens_with = refl
context_of-offered opens_select = refl
context_of-offered opens_from = refl
context_of-offered opens_join = refl
context_of-offered opens_where = refl
context_of-offered opens_having = refl
context_of-offered opens_window = refl
context_of-offered opens_limit = refl
context_of-offered opens_fetch = refl
context_of-offered opens_offset = refl
context_of-offered opens_insert = refl
context_of-offered opens_update = refl
context_of-offered opens_delete = refl
context_of-offered opens_returning = refl
context_of-offered opens_union = refl
context_of-offered opens_intersect = refl
context_of-offered opens_except = refl
context_of-offered opens_group = refl
context_of-offered opens_order = refl
context_of-offered opens_into = refl
context_of-offered (opens_values ws) = refl
context_of-offered (opens_set ws) = refl

-- Outside of texts and comments, where no value, operator, punctuation or dot stands before the
-- word at the cursor, and the last word before it is an ordinary one, the completion offers what
-- belongs to the words that opened a clause last, whatever words stand before them: a start behind
-- WITH, UNION, INTERSECT and EXCEPT, a relation behind FROM, JOIN, INSERT, INTO, UPDATE and DELETE,
-- a count behind LIMIT and FETCH, and behind SELECT, WHERE, HAVING, WINDOW, OFFSET, RETURNING,
-- GROUP BY, ORDER BY, VALUES and SET what is theirs. INTO opens a clause behind INSERT, VALUES
-- behind INSERT INTO and SET behind UPDATE, and the words between and behind open none.
pub detect_context-opened :
    (u : CharTables) (buffer : Line) (cursor : ℕ) (token : TokenWindow) (scope : QueryScope)
    (ts : List Line) (o : Opening) (ws : List Line) (w : Line)
    → NoSign buffer token
    → IsOpening o
    → OpensNone ws
    → IsOrdinary w
    → detect_context u buffer cursor token
        (record { tokens = ts ++ (opening_words o ++ (ws ++ w ∷ [])); suppressed = false })
        scope
      ≡ offered o
detect_context-opened u buffer cursor token scope ts o ws w h opens quiet ordinary =
    let tokens = ts ++ (opening_words o ++ (ws ++ w ∷ [])) in
    let front = ts ++ (opening_words o ++ ws) in
    let parted : tokens ≡ front ++ w ∷ [] =
      ap (ts ++◌) (sym (append_assoc (opening_words o) ws (w ∷ [])))
      ∙ sym (append_assoc ts (opening_words o ++ ws) (w ∷ [])) in
    detect_context-tokens u buffer cursor token tokens scope h
    ∙ context_of_tokens-ordinary tokens w _ (ap last_word parted ∙ last_word-snoc front w) ordinary
    ∙ ap context_of
        (clause_from_tokens-opened ts o (ws ++ w ∷ []) opens (OpensNone-snoc ws w quiet ordinary.0))
    ∙ context_of-offered o

-- In a statement that is written up to the cursor as words, signs, texts and comments, where the
-- cursor stands in a text or a comment that is not closed, the scan of the statement makes the
-- completion take that for a value, whatever word and relations were found at the cursor.
pub detect_context-within :
    (u : CharTables) (ps : List Piece) (end : Ending) (after : Line) (cursor : ℕ)
    (token : TokenWindow) (scope : QueryScope)
    → ArePieces u ps end
    → is_within end ≡ true
    → (scan : SqlScan) × (scan_sql u (put_pieces ps end ++ after) (byte_len (put_pieces ps end))
        ≡ some scan)
      × (detect_context u (put_pieces ps end ++ after) cursor token scan scope ≡ literal_context)
unfolding detect_context
detect_context-within u ps end after cursor token scope h within = (
  record { tokens = words_of [] ps; suppressed = is_within end },
  scan_sql-put_pieces u ps end after h,
  if_true (is_within end) _ _ within,
)
