-- ===== src/WithClause/Examples.antt =====
-- Runs of the WITH clause's lexer and analyzer.
use poqi.Prelude.{◌≡◌, refl, some, none, List, [], ◌∷◌, ◌++◌, ℕ}
use poqi.WithClause.Token.{
  WithToken, word, open_paren, close_paren, comma, eq_ignore_case, to_lower, eq_word, kw_with,
  kw_as, kw_select, kw_materialized,
}
use poqi.WithClause.Lexer.{lex, is_identifier_start, is_identifier_char}
use poqi.WithClause.Lexer.Print.{AllPrintable, print_all, lex-print_all, escape_quotes, lex-literal}
use poqi.WithClause.Analyzer.{WithState, after_query, locate_with_clause, skip_recursive, analyze}
use poqi.WithClause.Analyzer.Body.{Body, finished, then_word, then_comma, then_group, tokens}
use poqi.WithClause.Analyzer.Head.{Head, plain, not_materialized, IsHead, head_tokens, cte_tokens}
use poqi.WithClause.Analyzer.Clause.{listed, begun, analyze_complete}
use poqi.WithClause.Analyzer.Total.{analyze-total}

-- `WITH a AS (SELECT`
abbrev clause : List WithToken
clause = word kw_with ∷ word (b'a' ∷ []) ∷ word kw_as ∷ open_paren ∷ word kw_select ∷ []

-- `f$1 ( , )`
abbrev call : List WithToken
call = word (b'f' ∷ b'$' ∷ b'1' ∷ []) ∷ open_paren ∷ comma ∷ close_paren ∷ []

call-AllPrintable : AllPrintable call
unfolding is_identifier_start is_identifier_char
call-AllPrintable = ((refl, (refl, (refl, tt))), (tt, (tt, (tt, tt))))

lex-print_all_example : lex (print_all call) ≡ some call
lex-print_all_example = lex-print_all call call-AllPrintable

-- The literal `'it''s ('` before a comma.
lex-literal_example :
    lex
      (b'\'' ∷ (escape_quotes (b'i' ∷ b't' ∷ b'\'' ∷ b's' ∷ b' ' ∷ b'(' ∷ []) ++ b'\'' ∷ b',' ∷ []))
    ≡ lex (b',' ∷ [])
lex-literal_example = lex-literal (b'i' ∷ b't' ∷ b'\'' ∷ b's' ∷ b' ' ∷ b'(' ∷ []) (b',' ∷ []) refl

analyze-total_example : (st : WithState) × (analyze clause ≡ some st)
analyze-total_example = analyze-total clause

abbrev upper_as : List ℕ
upper_as = b'A' ∷ b'S' ∷ []

-- `a AS (`
abbrev first_head : Head
first_head = record { name = b'a' ∷ []; columns = none; as_word = upper_as; modifier = plain }

-- `b (x, y) as NOT materialized (`
abbrev second_head : Head
second_head = record {
  name = b'b' ∷ [];
  columns = some (then_word (b'x' ∷ []) (then_comma (then_word (b'y' ∷ []) finished)));
  as_word = kw_as;
  modifier = not_materialized (b'N' ∷ b'O' ∷ b'T' ∷ []) kw_materialized;
}

-- `SELECT (1)`
abbrev select_body : Body
select_body = then_word kw_select (then_group (then_word (b'q' ∷ []) finished) finished)

first_head-IsHead : IsHead first_head
unfolding eq_ignore_case to_lower
first_head-IsHead = (refl, tt)

second_head-IsHead : IsHead second_head
unfolding eq_ignore_case to_lower
second_head-IsHead = (refl, (refl, refl))

-- `WITH a AS (SELECT (q)), b (x, y) as NOT materialized (SELECT (q)) SELECT`
abbrev complete_clause : List WithToken
complete_clause =
    word kw_with
    ∷ listed ((first_head, select_body) ∷ [])
        (cte_tokens (second_head, select_body) (word kw_select ∷ []))

complete_clause-located :
    locate_with_clause complete_clause
    ≡ some (
        listed
          ((first_head, select_body) ∷ [])
          (cte_tokens (second_head, select_body) (word kw_select ∷ [])))
unfolding locate_with_clause eq_word eq_ignore_case to_lower skip_recursive
complete_clause-located = refl

analyze_complete_example :
    analyze complete_clause ≡ some (after_query (begun (word kw_select ∷ [])))
analyze_complete_example =
    analyze_complete complete_clause ((first_head, select_body) ∷ []) (second_head, select_body)
      (word kw_select ∷ []) complete_clause-located (first_head-IsHead, tt) second_head-IsHead tt

-- `WITH a AS (SELECT (q)), b (x, y) as NOT materialized (SELECT (q)`
abbrev open_clause : List WithToken
open_clause =
    word kw_with
    ∷ listed ((first_head, select_body) ∷ []) (head_tokens second_head (tokens select_body))

-- `WITH a AS (SELECT (q)),`
abbrev comma_clause : List WithToken
comma_clause = word kw_with ∷ listed ((first_head, select_body) ∷ []) []

comma_clause-located :
    locate_with_clause comma_clause ≡ some (listed ((first_head, select_body) ∷ []) [])
unfolding locate_with_clause eq_word eq_ignore_case to_lower skip_recursive
comma_clause-located = refl
