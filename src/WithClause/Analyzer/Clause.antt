-- ===== src/WithClause/Analyzer/Clause.antt =====
-- What the analyzer answers for WITH clauses that are complete up to where the typing stops.
use poqi.Prelude.{
  suc, ◌≡◌, refl, ap, ◌∙◌, Bool, true, false, Option, some, List, [], ◌∷◌, arith, length,
}
use poqi.WithClause.Token.{WithToken, word, open_paren, close_paren, comma}
use poqi.WithClause.Analyzer.{
  WithState, expect_name, after_query, advance, parse_cte_name_and_columns, parse_cte, after_cte,
  walk_ctes, locate_with_clause, analyze,
}
use poqi.WithClause.Analyzer.Body.{Body}
use poqi.WithClause.Analyzer.Total.{after_cte_agree, walk_ctes-enough, parse_cte-le}
use poqi.WithClause.Analyzer.Head.{Head, IsHead, cte_tokens, parse_cte-cte_tokens}

-- The rounds of `walk_ctes`, with fuel enough.
abbrev walk : List WithToken → Option WithState
walk ts = walk_ctes (suc (length ts)) ts

walk-round : (ts : List WithToken) → walk ts ≡ after_cte (parse_cte ts) (λ rest. walk rest)
unfolding walk_ctes
walk-round ts =
    after_cte_agree _ (parse_cte ts) (λ rest. walk_ctes (length ts) rest) (λ rest. walk rest)
      (parse_cte-le ts)
      λ rest l. walk_ctes-enough (length ts) (suc (length rest)) rest (omega arith) (omega arith)

-- CTEs, each with a comma behind it.
abbrev pub listed : List (Head × Body) → List WithToken → List WithToken
listed [] rest = rest
listed (c ∷ cs) rest = cte_tokens c (comma ∷ listed cs rest)

abbrev AllHeads : List (Head × Body) → Type 0
AllHeads [] = Unit {0}
AllHeads (c ∷ cs) = IsHead c.0 × AllHeads cs

walk-listed :
    (cs : List (Head × Body)) (rest : List WithToken)
    → AllHeads cs
    → walk (listed cs rest) ≡ walk rest
walk-listed [] rest h = refl
walk-listed (c ∷ cs) rest (h, hs) =
    walk-round (listed (c ∷ cs) rest)
    ∙ ap (λ s. after_cte s walk) (parse_cte-cte_tokens c (comma ∷ listed cs rest) h)
    ∙ walk-listed cs rest hs

analyze-located :
    (ts clause : List WithToken) → locate_with_clause ts ≡ some clause → analyze ts ≡ walk clause
unfolding analyze
analyze-located ts clause h = rw (h, analyze) refl

-- Whether a statement has begun behind the last CTE.
abbrev pub begun : List WithToken → Bool
begun [] = false
begun (t ∷ ts) = true

abbrev NoComma : List WithToken → Type 0
NoComma (comma ∷ ts) = ⊥
NoComma _ = Unit {0}

after_cte-tail :
    (tail : List WithToken) (next : List WithToken → Option WithState)
    → NoComma tail
    → after_cte (advance tail) next ≡ some (after_query (begun tail))
after_cte-tail [] next h = refl
after_cte-tail (word w ∷ tail) next h = refl
after_cte-tail (open_paren ∷ tail) next h = refl
after_cte-tail (close_paren ∷ tail) next h = refl
after_cte-tail (comma ∷ tail) next h = elim h [ ]

-- Behind complete CTEs the statement is awaited, and it has begun if a token other than a comma
-- follows the last one.
pub analyze_complete :
    (ts : List WithToken) (cs : List (Head × Body)) (c : Head × Body) (tail : List WithToken)
    → locate_with_clause ts ≡ some (listed cs (cte_tokens c tail))
    → AllHeads cs
    → IsHead c.0
    → NoComma tail
    → analyze ts ≡ some (after_query (begun tail))
analyze_complete ts cs c tail e hs h n =
    analyze-located ts (listed cs (cte_tokens c tail)) e
    ∙ walk-listed cs (cte_tokens c tail) hs
    ∙ walk-round (cte_tokens c tail)
    ∙ ap (λ s. after_cte s walk) (parse_cte-cte_tokens c tail h)
    ∙ after_cte-tail tail walk n

-- Behind WITH and behind a comma the name of a CTE is expected.
pub analyze-name :
    (ts : List WithToken) (cs : List (Head × Body))
    → locate_with_clause ts ≡ some (listed cs [])
    → AllHeads cs
    → analyze ts ≡ some expect_name
unfolding walk_ctes parse_cte parse_cte_name_and_columns
analyze-name ts cs e hs = analyze-located ts (listed cs []) e ∙ walk-listed cs [] hs
