-- ===== src/WithClause/Analyzer.antt =====
-- `WithClauseAnalyzer` (crates/search/completion/src/start_keywords/with/state.rs). An index into
-- the tokens is the list of the tokens from there on: an index at the end is the empty list.
pub mod Total
pub mod Body
pub mod Head
pub mod Clause
use poqi.Prelude.{
  ℕ, zero, suc, ◌-◌, Bool, true, false, ◌&&◌, Option, none, some, List, [], ◌∷◌, ◌==◌,
  if◌then◌else◌, length, not,
}
use poqi.WithClause.Token.{
  WithToken, word, open_paren, close_paren, comma, eq_word, eq_ignore_case, has_prefix, lower,
  kw_with, kw_recursive, kw_as, kw_not, kw_materialized, kw_select, kw_insert, kw_update, kw_delete,
}

pub data CteBodyKind : Type 0 where
  select insert update delete : CteBodyKind

pub data WithState : Type 0 where
  expect_name column_list expect_as : WithState
  -- whether NOT has been typed
  expect_materialized : Bool → WithState
  expect_open_paren : WithState
  inside_query : Option CteBodyKind → WithState
  -- whether a statement follows
  after_query : Bool → WithState

-- `Result<usize, WithState>`, `MaterializedParse`, `BodyScanResult` and `CteScanOutcome`: the
-- tokens to go on with, or a state.
pub data Scan : Type 0 where
  advance : List WithToken → Scan
  need_state : WithState → Scan

pub data BodyScan : Type 0 where
  complete : Option CteBodyKind → List WithToken → BodyScan
  incomplete : Option CteBodyKind → BodyScan

abbrev pub then_scan : Scan → (List WithToken → Scan) → Scan
then_scan (advance ts) f = f ts
then_scan (need_state s) f = need_state s

unfoldable pub from_word : List ℕ → Option CteBodyKind
unfolding eq_ignore_case
from_word w =
    if eq_ignore_case w kw_select
    then some select
    else if eq_ignore_case w kw_insert
    then some insert
    else if eq_ignore_case w kw_update
    then some update
    else if eq_ignore_case w kw_delete
    then some delete
    else none

-- `depth` closing parentheses are missing. The loop stops when none is.
unfoldable pub skip_column_list : ℕ → List WithToken → Scan
skip_column_list zero ts = advance ts
skip_column_list (suc depth) [] = need_state column_list
skip_column_list (suc depth) (open_paren ∷ ts) = skip_column_list (suc (suc depth)) ts
skip_column_list (suc depth) (close_paren ∷ ts) = skip_column_list depth ts
skip_column_list (suc depth) (word w ∷ ts) = skip_column_list (suc depth) ts
skip_column_list (suc depth) (comma ∷ ts) = skip_column_list (suc depth) ts

abbrev pub columns : List WithToken → Scan
columns (open_paren ∷ ts) = skip_column_list 1 ts
columns ts = advance ts

unfoldable pub parse_cte_name_and_columns : List WithToken → Scan
unfolding skip_column_list
parse_cte_name_and_columns (word w ∷ ts) = columns ts
parse_cte_name_and_columns _ = need_state expect_name

unfoldable pub parse_as_keyword : List WithToken → Scan
unfolding eq_word
parse_as_keyword [] = need_state expect_as
parse_as_keyword (t ∷ ts) = if eq_word t kw_as then advance ts else need_state expect_as

-- After NOT.
unfoldable pub materialized_after_not : List WithToken → Scan
materialized_after_not (word w ∷ ts) =
    if eq_ignore_case w kw_materialized then advance ts else need_state (expect_materialized true)
materialized_after_not _ = need_state (expect_materialized true)

-- `AwaitingParen` advances, the other two outcomes name their state.
unfoldable pub materialized_state : List WithToken → Scan
unfolding materialized_after_not eq_ignore_case has_prefix
materialized_state [] = need_state expect_open_paren
materialized_state (word w ∷ ts) =
    if eq_ignore_case w kw_not
    then materialized_after_not ts
    else if has_prefix (lower w) kw_not
    then need_state (expect_materialized false)
    else if has_prefix (lower w) kw_materialized && not (length w == length kw_materialized)
    then need_state (expect_materialized false)
    else if eq_ignore_case w kw_materialized
    then advance ts
    else advance (word w ∷ ts)
materialized_state (t ∷ ts) = advance (t ∷ ts)

unfoldable pub parse_open_paren : List WithToken → Scan
parse_open_paren (open_paren ∷ ts) = advance ts
parse_open_paren _ = need_state expect_open_paren

abbrev pub or_kind : Option CteBodyKind → Option CteBodyKind → Option CteBodyKind
or_kind none k = k
or_kind (some j) k = some j

-- A word sets the kind of the body at depth 1, if none is set.
abbrev pub kind_at : ℕ → Option CteBodyKind → List ℕ → Option CteBodyKind
kind_at depth kind w = if depth == 1 then or_kind kind (from_word w) else kind

-- The depth is the number of closing parentheses that are missing, at least 1.
unfoldable pub scan_cte_body : ℕ → Option CteBodyKind → List WithToken → BodyScan
scan_cte_body depth kind [] = incomplete kind
scan_cte_body depth kind (open_paren ∷ ts) = scan_cte_body (suc depth) kind ts
scan_cte_body depth kind (close_paren ∷ ts) =
    let rest = scan_cte_body (depth - 1) kind ts in
    if depth - 1 == 0 then complete kind ts else rest
scan_cte_body depth kind (word w ∷ ts) = scan_cte_body depth (kind_at depth kind w) ts
scan_cte_body depth kind (comma ∷ ts) = scan_cte_body depth kind ts

abbrev pub body_outcome : BodyScan → Scan
body_outcome (complete kind ts) = advance ts
body_outcome (incomplete kind) = need_state (inside_query kind)

unfoldable pub parse_cte : List WithToken → Scan
unfolding parse_cte_name_and_columns parse_as_keyword materialized_state parse_open_paren
    scan_cte_body
parse_cte ts = then_scan (parse_cte_name_and_columns ts) λ named.
    then_scan (parse_as_keyword named) λ typed.
      then_scan (materialized_state typed) λ opened.
        then_scan (parse_open_paren opened) λ body. body_outcome (scan_cte_body 1 none body)

-- What one round of `walk_ctes` makes of a scanned CTE: the next round starts behind a comma.
abbrev pub after_cte : Scan → (List WithToken → Option WithState) → Option WithState
after_cte (need_state st) next = some st
after_cte (advance []) next = some (after_query false)
after_cte (advance (comma ∷ ts)) next = next ts
after_cte (advance (t ∷ ts)) next = some (after_query true)

-- The loop of `walk_ctes`, on fuel; `none` means that the fuel ran out.
unfoldable pub walk_ctes : ℕ → List WithToken → Option WithState
walk_ctes zero ts = none
walk_ctes (suc fuel) ts = after_cte (parse_cte ts) λ rest. walk_ctes fuel rest

unfoldable pub skip_recursive : List WithToken → List WithToken
skip_recursive [] = []
skip_recursive (t ∷ ts) = if eq_word t kw_recursive then ts else t ∷ ts

-- `position(|token| token.eq_word("with"))`, and the tokens behind it and RECURSIVE.
unfoldable pub locate_with_clause : List WithToken → Option (List WithToken)
unfolding skip_recursive eq_word
locate_with_clause [] = none
locate_with_clause (t ∷ ts) =
    let rest = locate_with_clause ts in if eq_word t kw_with then some (skip_recursive ts) else rest

-- `WithClauseAnalyzer::analyze`, with a round for each token left and one more.
unfoldable pub analyze : List WithToken → Option WithState
unfolding locate_with_clause walk_ctes
analyze ts = elim (locate_with_clause ts) [
  | none ↦ some (after_query true)
  | some rest ↦ walk_ctes (suc (length rest)) rest
]
