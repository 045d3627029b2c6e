-- ===== src/Context/Detect.antt =====
-- `CompletionContext` and `detect_context` (crates/search/completion/src/types.rs and
-- analyzer/context.rs).
use poqi.Prelude.{
  ℕ, Bool, true, false, ◌&&◌, ◌||◌, not, Option, none, some, List, [], ◌∷◌, ◌==◌, eq_text,
  if◌then◌else◌,
}
use poqi.TextInput.Utf8.{Line, split_at}
use poqi.WithClause.Token.{kw_with, kw_insert, kw_update, kw_delete}
use poqi.QueryScope.Keywords.{
  kw_select, kw_distinct, kw_from, kw_join, kw_where, kw_group, kw_having, kw_window, kw_order,
  kw_limit, kw_fetch, kw_offset, kw_returning, kw_on, kw_using,
}
use poqi.QueryScope.Identifier.{QueryScope, ScopedRelation}
use poqi.QueryScope.Lexer.{CharTables}
use poqi.Scanner.Machine.{SqlScan}
use poqi.Context.Clause.{
  kw_by, kw_into, kw_values, kw_set, SqlClause, start, with_names, select_list, from_list,
  join_list, where_test, group_by, having_test, window_list, order_by, limit_count, fetch_count,
  offset_count, insert_target, insert_values, update_target, update_set, delete_target,
  returning_list, one_of, clause_from_tokens, last_word, tokens_end_with, join_condition_started,
  is_join_prefix,
}
use poqi.Context.Before.{
  first_visible, previous_non_whitespace, trailing_literal_punctuation, literal_after_operator,
  TokenWindow, extract_identifier_before_dot,
}

pub data CompletionContext : Type 0 where
  start_context select_list_context from_source_context join_type_context : CompletionContext
  join_condition_context where_context group_by_context having_context : CompletionContext
  window_context order_by_context limit_context offset_context : CompletionContext
  returning_context insert_values_context update_set_context : CompletionContext
  keyword_context general_context literal_context : CompletionContext
  table_context column_context : Option Line → CompletionContext

abbrev pub kw_table : Line
kw_table = b't' ∷ b'a' ∷ b'b' ∷ b'l' ∷ b'e' ∷ []

abbrev pub context_of : SqlClause → CompletionContext
context_of start = start_context
context_of with_names = start_context
context_of select_list = select_list_context
context_of from_list = from_source_context
context_of join_list = from_source_context
context_of insert_target = from_source_context
context_of update_target = from_source_context
context_of delete_target = from_source_context
context_of where_test = where_context
context_of group_by = group_by_context
context_of having_test = having_context
context_of window_list = window_context
context_of order_by = order_by_context
context_of limit_count = limit_context
context_of fetch_count = limit_context
context_of offset_count = offset_context
context_of insert_values = insert_values_context
context_of update_set = update_set_context
context_of returning_list = returning_context

abbrev pub char_is : (ℕ → Bool) → Option ℕ → Bool
char_is test none = false
char_is test (some c) = test c

abbrev pub compares : ℕ → Bool
compares c = (c == b'=') || ((c == b'<') || ((c == b'>') || (c == b'!')))

unfoldable pub names_tables : SqlClause → List Line → Bool
unfolding join_condition_started
names_tables from_list tokens = true
names_tables join_list tokens = not (join_condition_started tokens)
names_tables insert_target tokens = true
names_tables update_target tokens = true
names_tables delete_target tokens = true
names_tables _ tokens = false

abbrev pub dotted : Bool → Option Line → CompletionContext
dotted true hint = table_context hint
dotted false hint = column_context hint

-- The cursor is behind a quoted name, whose schema it is not.
abbrev pub no_relation : List ScopedRelation → Bool
no_relation [] = true
no_relation (r ∷ rs) = false

unfoldable pub dot_in : Option (Line × Line) → Bool
unfolding first_visible
dot_in none = false
dot_in (some (a, tail)) = char_is (λ c. c == b'.') (first_visible tail)

unfoldable pub names_relation : Line → ℕ → Option ℕ → QueryScope → Bool
unfolding dot_in split_at
names_relation buffer cursor previous scope =
    char_is (λ c. c == b'"') previous
    && (not (no_relation scope.relations) && not (dot_in (split_at buffer cursor)))

-- What the last word asks for; `none` if it leaves that to the clause.
unfoldable pub context_behind : Line → Bool → Option CompletionContext
context_behind word named =
    if eq_text word kw_with
    then some start_context
    else if one_of word (kw_select ∷ kw_distinct ∷ [])
    then some select_list_context
    else if one_of word (kw_from ∷ kw_join ∷ []) && named
    then none
    else if one_of word
        (kw_from ∷ kw_join ∷ kw_table ∷ kw_insert ∷ kw_into ∷ kw_update ∷ kw_delete ∷ [])
    then some (table_context none)
    else if eq_text word kw_where
    then some where_context
    else if eq_text word kw_having
    then some having_context
    else if eq_text word kw_window
    then some window_context
    else if one_of word (kw_order ∷ kw_group ∷ [])
    then some keyword_context
    else if one_of word (kw_limit ∷ kw_fetch ∷ [])
    then some limit_context
    else if eq_text word kw_offset
    then some offset_context
    else if eq_text word kw_values
    then some insert_values_context
    else if eq_text word kw_set
    then some update_set_context
    else if eq_text word kw_returning
    then some returning_context
    else if one_of word (kw_on ∷ kw_using ∷ [])
    then some join_condition_context
    else none

unfoldable pub behind_last : Option Line → Bool → Option CompletionContext
unfolding context_behind
behind_last none named = none
behind_last (some word) named = context_behind word named

abbrev pub or_clause : Option CompletionContext → CompletionContext → CompletionContext
or_clause (some context) other = context
or_clause none other = other

-- Behind the tests on the characters before the word.
unfoldable pub context_of_tokens : List Line → Bool → CompletionContext
unfolding clause_from_tokens is_join_prefix behind_last
context_of_tokens tokens named =
    if tokens_end_with tokens kw_group kw_by
    then group_by_context
    else if tokens_end_with tokens kw_order kw_by
    then order_by_context
    else or_clause (behind_last (last_word tokens) named) (
        if is_join_prefix tokens then join_type_context else context_of (clause_from_tokens tokens))

module _ (u : CharTables) where
  unfoldable pub detect_context : Line → ℕ → TokenWindow → SqlScan → QueryScope → CompletionContext
  unfolding literal_after_operator previous_non_whitespace trailing_literal_punctuation
      extract_identifier_before_dot names_relation context_of_tokens names_tables clause_from_tokens
  detect_context buffer cursor token scan scope =
      let previous = previous_non_whitespace buffer token.start_offset in
      if scan.suppressed
      then literal_context
      else if literal_after_operator buffer token.start_offset
      then literal_context
      else if char_is trailing_literal_punctuation token.prev_char
      then literal_context
      else if char_is compares previous
      then literal_context
      else if char_is (λ c. c == b'.') token.prev_char
      then dotted (names_tables (clause_from_tokens scan.tokens) scan.tokens)
          (extract_identifier_before_dot u buffer cursor)
      else context_of_tokens scan.tokens (names_relation buffer cursor previous scope)
