-- ===== src/Context/Clause.antt =====
-- `SqlClause`, and the tests on the words of a statement
-- (crates/search/completion/src/analyzer/context.rs).
use poqi.Prelude.{
  Bool, true, false, ◌&&◌, ◌||◌, Option, none, some, List, [], ◌∷◌, eq_text, if◌then◌else◌,
}
use poqi.TextInput.Utf8.{Line}
use poqi.WithClause.Token.{kw_with, kw_insert, kw_update, kw_delete}
use poqi.QueryScope.Keywords.{
  kw_select, kw_from, kw_join, kw_where, kw_group, kw_having, kw_window, kw_order, kw_limit,
  kw_fetch, kw_offset, kw_returning, kw_union, kw_intersect, kw_except, kw_left, kw_right, kw_full,
  kw_inner, kw_cross, kw_natural, kw_on, kw_using,
}

abbrev pub kw_by : Line
kw_by = b'b' ∷ b'y' ∷ []

abbrev pub kw_into : Line
kw_into = b'i' ∷ b'n' ∷ b't' ∷ b'o' ∷ []

abbrev pub kw_values : Line
kw_values = b'v' ∷ b'a' ∷ b'l' ∷ b'u' ∷ b'e' ∷ b's' ∷ []

abbrev pub kw_set : Line
kw_set = b's' ∷ b'e' ∷ b't' ∷ []

abbrev pub kw_outer : Line
kw_outer = b'o' ∷ b'u' ∷ b't' ∷ b'e' ∷ b'r' ∷ []

pub data SqlClause : Type 0 where
  start with_names select_list from_list join_list where_test group_by having_test : SqlClause
  window_list order_by limit_count fetch_count offset_count insert_target : SqlClause
  insert_values update_target update_set delete_target returning_list : SqlClause

-- A word is one of the words of a list.
abbrev pub one_of : Line → List Line → Bool
one_of w [] = false
one_of w (k ∷ ks) = eq_text w k || one_of w ks

abbrev pub may_insert : SqlClause → Bool
may_insert start = true
may_insert insert_target = true
may_insert _ = false

abbrev pub may_give_values : SqlClause → Bool
may_give_values insert_target = true
may_give_values insert_values = true
may_give_values _ = false

abbrev pub may_set : SqlClause → Bool
may_set update_target = true
may_set update_set = true
may_set _ = false

unfoldable pub next_clause : SqlClause → Line → SqlClause
next_clause clause word =
    if eq_text word kw_with
    then with_names
    else if eq_text word kw_select
    then select_list
    else if eq_text word kw_from
    then from_list
    else if eq_text word kw_join
    then join_list
    else if eq_text word kw_where
    then where_test
    else if eq_text word kw_having
    then having_test
    else if eq_text word kw_window
    then window_list
    else if eq_text word kw_limit
    then limit_count
    else if eq_text word kw_fetch
    then fetch_count
    else if eq_text word kw_offset
    then offset_count
    else if eq_text word kw_insert
    then insert_target
    else if eq_text word kw_into
    then (if may_insert clause then insert_target else clause)
    else if eq_text word kw_values
    then (if may_give_values clause then insert_values else clause)
    else if eq_text word kw_update
    then update_target
    else if eq_text word kw_set
    then (if may_set clause then update_set else clause)
    else if eq_text word kw_delete
    then delete_target
    else if eq_text word kw_returning
    then returning_list
    else if one_of word (kw_union ∷ kw_intersect ∷ kw_except ∷ [])
    then start
    else clause

-- The clause, and whether `group` or `order` was the word before.
pub record ClauseState : Type 0 where
  pub clause : SqlClause
  pub expect_group_by : Bool
  pub expect_order_by : Bool

unfoldable pub read_word : ClauseState → Line → ClauseState
unfolding next_clause
read_word s word =
    if s.expect_group_by && eq_text word kw_by
    then record s { clause = group_by; expect_group_by = false }
    else if s.expect_order_by && eq_text word kw_by
    then record { clause = order_by; expect_group_by = false; expect_order_by = false }
    else record {
      clause = next_clause s.clause word;
      expect_group_by = eq_text word kw_group;
      expect_order_by = eq_text word kw_order;
    }

unfoldable pub read_words : ClauseState → List Line → ClauseState
unfolding read_word
read_words s [] = s
read_words s (w ∷ ws) = read_words (read_word s w) ws

unfoldable pub clause_from_tokens : List Line → SqlClause
unfolding read_words
clause_from_tokens tokens =
    (read_words (record { clause = start; expect_group_by = false; expect_order_by = false })
      tokens).clause

abbrev pub last_word : List Line → Option Line
last_word [] = none
last_word (w ∷ []) = some w
last_word (w ∷ v ∷ ws) = last_word (v ∷ ws)

-- The word before the last one, if there is one.
abbrev pub word_before_last : List Line → Option Line
word_before_last [] = none
word_before_last (w ∷ []) = none
word_before_last (w ∷ v ∷ []) = some w
word_before_last (w ∷ v ∷ x ∷ ws) = word_before_last (v ∷ x ∷ ws)

abbrev pub is_word : Option Line → Line → Bool
is_word none k = false
is_word (some w) k = eq_text w k

-- The words end with these two.
abbrev pub tokens_end_with : List Line → Line → Line → Bool
tokens_end_with tokens a b = is_word (last_word tokens) b && is_word (word_before_last tokens) a

-- The words behind the last `join`.
abbrev pub behind_join : List Line → Option (List Line)
behind_join [] = none
behind_join (w ∷ ws) = elim (behind_join ws) [
  | some rest ↦ some rest
  | none ↦ if eq_text w kw_join then some ws else none
]

abbrev pub any_condition : List Line → Bool
any_condition [] = false
any_condition (w ∷ ws) = one_of w (kw_on ∷ kw_using ∷ []) || any_condition ws

unfoldable pub join_condition_started : List Line → Bool
join_condition_started tokens = elim (behind_join tokens) [
  | none ↦ false
  | some rest ↦ any_condition rest
]

abbrev pub completes_outer : Option Line → Bool
completes_outer none = false
completes_outer (some w) = one_of w (kw_left ∷ kw_right ∷ kw_full ∷ [])

abbrev pub joins : Option Line → Option Line → Bool
joins none before = false
joins (some w) before =
    one_of w (kw_left ∷ kw_right ∷ kw_full ∷ kw_inner ∷ kw_cross ∷ kw_natural ∷ [])
    || (eq_text w kw_outer && completes_outer before)

unfoldable pub is_join_prefix : List Line → Bool
is_join_prefix tokens = joins (last_word tokens) (word_before_last tokens)
