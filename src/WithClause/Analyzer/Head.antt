-- ===== src/WithClause/Analyzer/Head.antt =====
-- What one CTE, written down, is to the analyzer.
use poqi.Prelude.{
  ℕ, suc, ◌≡◌, refl, sym, ap, ◌∙◌, true, false, ◌&&◌, not, Option, none, some, List, [], ◌∷◌, ◌++◌,
  ◌==◌, length, if_true, if_false, eq_text→eq, eq_text,
}
use poqi.WithClause.Token.{
  WithToken, word, open_paren, close_paren, lower, eq_ignore_case, has_prefix, eq_word, to_lower,
  kw_as, kw_not, kw_materialized,
}
use poqi.WithClause.Analyzer.{
  advance, columns, parse_cte_name_and_columns, parse_as_keyword, materialized_after_not,
  materialized_state, parse_open_paren, scan_cte_body, body_outcome, parse_cte,
}
use poqi.WithClause.Analyzer.Body.{Body, tokens, scan_cte_body-closed, skip_column_list-closed}

-- A word that spells a keyword, in letters of any case.
abbrev Spells : List ℕ → List ℕ → Type 0
Spells w keyword = eq_ignore_case w keyword ≡ true

pub data Modifier : Type 0 where
  plain : Modifier
  materialized : List ℕ → Modifier
  not_materialized : List ℕ → List ℕ → Modifier

-- What stands before the body of a CTE: `name (columns) AS NOT MATERIALIZED (`.
pub record Head : Type 0 where
  pub name : List ℕ
  pub columns : Option Body
  pub as_word : List ℕ
  pub modifier : Modifier

abbrev column_tokens : Option Body → List WithToken → List WithToken
column_tokens none rest = rest
column_tokens (some b) rest = open_paren ∷ tokens b ++ close_paren ∷ rest

abbrev pub modifier_tokens : Modifier → List WithToken → List WithToken
modifier_tokens plain rest = rest
modifier_tokens (materialized w) rest = word w ∷ rest
modifier_tokens (not_materialized n w) rest = word n ∷ word w ∷ rest

abbrev pub head_tokens : Head → List WithToken → List WithToken
head_tokens h rest =
    word h.name
    ∷ column_tokens h.columns (word h.as_word ∷ modifier_tokens h.modifier (open_paren ∷ rest))

abbrev IsModifier : Modifier → Type 0
IsModifier plain = Unit {0}
IsModifier (materialized w) = Spells w kw_materialized
IsModifier (not_materialized n w) = Spells n kw_not × Spells w kw_materialized

abbrev pub IsHead : Head → Type 0
IsHead h = Spells h.as_word kw_as × IsModifier h.modifier

name-scanned :
    (h : Head) (as_word : List ℕ) (rest : List WithToken)
    → parse_cte_name_and_columns (word h.name ∷ column_tokens h.columns (word as_word ∷ rest))
      ≡ advance (word as_word ∷ rest)
unfolding parse_cte_name_and_columns
name-scanned h as_word rest = go h.columns
  where
    go :
        (c : Option Body)
        → columns (column_tokens c (word as_word ∷ rest)) ≡ advance (word as_word ∷ rest)
    go none = refl
    go (some b) = skip_column_list-closed b (word as_word ∷ rest)

as-scanned :
    (w : List ℕ) (rest : List WithToken)
    → Spells w kw_as
    → parse_as_keyword (word w ∷ rest) ≡ advance rest
unfolding parse_as_keyword eq_word
as-scanned w rest h = rw h refl

lower-Spells : (w : List ℕ) → Spells w kw_materialized → lower w ≡ kw_materialized
unfolding eq_ignore_case to_lower
lower-Spells w h = eq_text→eq (lower w) kw_materialized h

length-lower : (w : List ℕ) → length (lower w) ≡ length w
length-lower [] = refl
length-lower (c ∷ w) = ap suc (length-lower w)

other_keyword : (w : List ℕ) → Spells w kw_materialized → eq_ignore_case w kw_not ≡ false
unfolding eq_ignore_case to_lower
other_keyword w h = ap (λ x. eq_text x (lower kw_not)) (lower-Spells w h)

not-prefixed : (w : List ℕ) → Spells w kw_materialized → has_prefix (lower w) kw_not ≡ false
unfolding has_prefix
not-prefixed w h = ap (λ x. has_prefix x kw_not) (lower-Spells w h)

not-longer :
    (w : List ℕ)
    → Spells w kw_materialized
    → (has_prefix (lower w) kw_materialized && not (length w == length kw_materialized)) ≡ false
unfolding has_prefix
not-longer w h =
    ap (λ n. has_prefix (lower w) kw_materialized && not (n == length kw_materialized))
      (sym (length-lower w) ∙ ap length (lower-Spells w h))
    ∙ ap (λ x. has_prefix x kw_materialized && false) (lower-Spells w h)

materialized-scanned :
    (w : List ℕ) (rest : List WithToken)
    → Spells w kw_materialized
    → materialized_state (word w ∷ rest) ≡ advance rest
unfolding materialized_state
materialized-scanned w rest h =
    if_false _ _ _ (other_keyword w h)
    ∙ if_false _ _ _ (not-prefixed w h)
    ∙ if_false _ _ _ (not-longer w h)
    ∙ if_true _ _ _ h

not_materialized-scanned :
    (n w : List ℕ) (rest : List WithToken)
    → Spells n kw_not
    → Spells w kw_materialized
    → materialized_state (word n ∷ word w ∷ rest) ≡ advance rest
unfolding materialized_state materialized_after_not
not_materialized-scanned n w rest h k = if_true _ _ _ h ∙ if_true _ _ _ k

modifier-scanned :
    (m : Modifier) (rest : List WithToken)
    → IsModifier m
    → materialized_state (modifier_tokens m (open_paren ∷ rest)) ≡ advance (open_paren ∷ rest)
unfolding materialized_state
modifier-scanned plain rest h = refl
modifier-scanned (materialized w) rest h = materialized-scanned w (open_paren ∷ rest) h
modifier-scanned (not_materialized n w) rest (h, k) =
    not_materialized-scanned n w (open_paren ∷ rest) h k

-- Behind a head the body is scanned.
pub parse_cte-head :
    (h : Head) (rest : List WithToken)
    → IsHead h
    → parse_cte (head_tokens h rest) ≡ body_outcome (scan_cte_body 1 none rest)
unfolding parse_cte parse_open_paren
parse_cte-head h rest (a, m) =
    rw
      (
        name-scanned h h.as_word (modifier_tokens h.modifier (open_paren ∷ rest)),
        as-scanned h.as_word (modifier_tokens h.modifier (open_paren ∷ rest)) a,
        modifier-scanned h.modifier rest m,
      )
      refl

-- A CTE with its body, and whatever follows.
abbrev pub cte_tokens : Head × Body → List WithToken → List WithToken
cte_tokens (h, b) rest = head_tokens h (tokens b ++ close_paren ∷ rest)

pub parse_cte-cte_tokens :
    (c : Head × Body) (rest : List WithToken)
    → IsHead c.0
    → parse_cte (cte_tokens c rest) ≡ advance rest
parse_cte-cte_tokens (h, b) rest v =
    parse_cte-head h (tokens b ++ close_paren ∷ rest) v
    ∙ ap body_outcome (scan_cte_body-closed b rest)
