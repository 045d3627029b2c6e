-- ===== src/WithClause/Analyzer/Total.antt =====
-- The analysis of a WITH clause ends: each CTE takes at least one token.
use poqi.Prelude.{
  ℕ, zero, suc, ◌-◌, ◌≤◌, ◌<◌, ◌≡◌, refl, sym, true, false, Option, none, some, List, [], ◌∷◌, ◌==◌,
  arith, length, Option-cases, inl, inr, Bool-cases,
}
use poqi.WithClause.Token.{WithToken, word, open_paren, close_paren, comma}
use poqi.WithClause.Analyzer.{
  WithState, after_query, Scan, advance, need_state, BodyScan, complete, incomplete, then_scan,
  skip_column_list, columns, CteBodyKind, kind_at, expect_name, parse_cte_name_and_columns,
  parse_as_keyword, materialized_after_not, materialized_state, parse_open_paren, scan_cte_body,
  body_outcome, parse_cte, after_cte, walk_ctes, locate_with_clause, analyze,
}

-- A scan goes on with at most `n` tokens.
abbrev LeavesAtMost : ℕ → Scan → Type 0
LeavesAtMost n (advance ts) = length ts ≤ n
LeavesAtMost n (need_state s) = Unit {0}

then_scan-LeavesAtMost :
    (n m : ℕ) (s : Scan) (f : List WithToken → Scan)
    → LeavesAtMost m s
    → ((ts : List WithToken) → length ts ≤ m → LeavesAtMost n (f ts))
    → LeavesAtMost n (then_scan s f)
then_scan-LeavesAtMost n m (advance ts) f h k = k ts h
then_scan-LeavesAtMost n m (need_state s) f h k = tt

weaken : (n m : ℕ) (s : Scan) → n ≤ m → LeavesAtMost n s → LeavesAtMost m s
weaken n m (advance ts) h k = omega arith
weaken n m (need_state s) h k = tt

skip_column_list-le :
    (d : ℕ) (ts : List WithToken) → LeavesAtMost (length ts) (skip_column_list d ts)
unfolding skip_column_list
skip_column_list-le zero ts = omega arith
skip_column_list-le (suc d) [] = tt
skip_column_list-le (suc d) (open_paren ∷ ts) =
    weaken (length ts) _ _ (omega arith) (skip_column_list-le (suc (suc d)) ts)
skip_column_list-le (suc d) (close_paren ∷ ts) =
    weaken (length ts) _ _ (omega arith) (skip_column_list-le d ts)
skip_column_list-le (suc d) (word w ∷ ts) =
    weaken (length ts) _ _ (omega arith) (skip_column_list-le (suc d) ts)
skip_column_list-le (suc d) (comma ∷ ts) =
    weaken (length ts) _ _ (omega arith) (skip_column_list-le (suc d) ts)

columns-le : (ts : List WithToken) → LeavesAtMost (length ts) (columns ts)
columns-le [] = omega arith
columns-le (open_paren ∷ ts) = weaken (length ts) _ _ (omega arith) (skip_column_list-le 1 ts)
columns-le (close_paren ∷ ts) = omega arith
columns-le (word w ∷ ts) = omega arith
columns-le (comma ∷ ts) = omega arith

-- The name takes a token.
name-le : (ts : List WithToken) → LeavesAtMost (length ts - 1) (parse_cte_name_and_columns ts)
unfolding parse_cte_name_and_columns
name-le [] = tt
name-le (word w ∷ ts) = weaken (length ts) _ _ (omega arith) (columns-le ts)
name-le (open_paren ∷ ts) = tt
name-le (_ ∷ ts) = tt

as-le : (ts : List WithToken) → LeavesAtMost (length ts) (parse_as_keyword ts)
unfolding parse_as_keyword
as-le [] = tt
as-le (t ∷ ts) = ground arith

not-le : (ts : List WithToken) → LeavesAtMost (suc (length ts)) (materialized_after_not ts)
unfolding materialized_after_not
not-le [] = tt
not-le (word w ∷ ts) = ground arith
not-le (open_paren ∷ ts) = tt
not-le (_ ∷ ts) = tt

materialized-le : (ts : List WithToken) → LeavesAtMost (length ts) (materialized_state ts)
unfolding materialized_state
materialized-le [] = tt
materialized-le (word w ∷ ts) = ground (arith, not-le ts)
materialized-le (open_paren ∷ ts) = omega arith
materialized-le (_ ∷ ts) = omega arith

open-le : (ts : List WithToken) → LeavesAtMost (length ts) (parse_open_paren ts)
unfolding parse_open_paren
open-le [] = tt
open-le (open_paren ∷ ts) = omega arith
open-le (_ ∷ ts) = tt

-- A scanned body leaves at most `n` tokens.
abbrev BodyLeavesAtMost : ℕ → BodyScan → Type 0
BodyLeavesAtMost n (complete k ts) = length ts ≤ n
BodyLeavesAtMost n (incomplete k) = Unit {0}

body_weaken : (n m : ℕ) (s : BodyScan) → n ≤ m → BodyLeavesAtMost n s → BodyLeavesAtMost m s
body_weaken n m (complete k ts) h b = omega arith
body_weaken n m (incomplete k) h b = tt

body-le :
    (d : ℕ) (k : Option CteBodyKind) (ts : List WithToken)
    → BodyLeavesAtMost (length ts) (scan_cte_body d k ts)
unfolding scan_cte_body
body-le d k [] = tt
body-le d k (open_paren ∷ ts) = body_weaken (length ts) _ _ (omega arith) (body-le (suc d) k ts)
body-le d k (close_paren ∷ ts) = elim (Bool-cases (d - 1 == 0)) [
  | inl y ↦ rw y (omega arith)
  | inr n ↦ rw n (body_weaken (length ts) _ _ (omega arith) (body-le (d - 1) k ts))
]
body-le d k (word w ∷ ts) = body_weaken (length ts) _ _ (omega arith) (body-le d (kind_at d k w) ts)
body-le d k (comma ∷ ts) = body_weaken (length ts) _ _ (omega arith) (body-le d k ts)

outcome-le : (n : ℕ) (s : BodyScan) → BodyLeavesAtMost n s → LeavesAtMost n (body_outcome s)
outcome-le n (complete k ts) h = h
outcome-le n (incomplete k) h = tt

-- A CTE takes at least one token.
pub parse_cte-le : (ts : List WithToken) → LeavesAtMost (length ts - 1) (parse_cte ts)
unfolding parse_cte
parse_cte-le ts =
    let n = length ts - 1 in
    then_scan-LeavesAtMost n n _ _ (name-le ts) λ named h1.
      then_scan-LeavesAtMost n n _ _ (weaken (length named) n _ h1 (as-le named)) λ typed h2.
        then_scan-LeavesAtMost n n _ _ (weaken (length typed) n _ h2 (materialized-le typed))
          λ opened h3.
            then_scan-LeavesAtMost n n _ _ (weaken (length opened) n _ h3 (open-le opened))
              λ body h4. outcome-le n _ (body_weaken (length body) n _ h4 (body-le 1 none body))

parse_cte-nil : (s : Scan) → parse_cte [] ≡ s → s ≡ need_state expect_name
unfolding parse_cte
parse_cte-nil s h = sym h

after_cte-total :
    (n : ℕ) (s : Scan) (next : List WithToken → Option WithState)
    → LeavesAtMost n s
    → ((ts : List WithToken) → suc (length ts) ≤ n → (st : WithState) × (next ts ≡ some st))
    → (st : WithState) × (after_cte s next ≡ some st)
after_cte-total n (need_state s) next h k = (s, refl)
after_cte-total n (advance []) next h k = (after_query false, refl)
after_cte-total n (advance (comma ∷ ts)) next h k = k ts h
after_cte-total n (advance (word w ∷ ts)) next h k = (after_query true, refl)
after_cte-total n (advance (open_paren ∷ ts)) next h k = (after_query true, refl)
after_cte-total n (advance (close_paren ∷ ts)) next h k = (after_query true, refl)

walk_ctes-total :
    (fuel : ℕ) (ts : List WithToken)
    → length ts < fuel
    → (st : WithState) × (walk_ctes fuel ts ≡ some st)
unfolding walk_ctes
walk_ctes-total zero ts h = absurd (omega arith)
walk_ctes-total (suc fuel) ts h =
    after_cte-total (length ts - 1) (parse_cte ts) (λ rest. walk_ctes fuel rest) (parse_cte-le ts)
      λ rest k. walk_ctes-total fuel rest (omega arith)

pub after_cte_agree :
    (n : ℕ) (s : Scan) (f g : List WithToken → Option WithState)
    → LeavesAtMost n s
    → ((ts : List WithToken) → suc (length ts) ≤ n → f ts ≡ g ts)
    → after_cte s f ≡ after_cte s g
after_cte_agree n (need_state s) f g h k = refl
after_cte_agree n (advance []) f g h k = refl
after_cte_agree n (advance (comma ∷ ts)) f g h k = k ts h
after_cte_agree n (advance (word w ∷ ts)) f g h k = refl
after_cte_agree n (advance (open_paren ∷ ts)) f g h k = refl
after_cte_agree n (advance (close_paren ∷ ts)) f g h k = refl

-- Any fuel above the number of tokens gives the same state.
pub walk_ctes-enough :
    (f g : ℕ) (ts : List WithToken)
    → length ts < f
    → length ts < g
    → walk_ctes f ts ≡ walk_ctes g ts
unfolding walk_ctes
walk_ctes-enough zero g ts h k = absurd (omega arith)
walk_ctes-enough (suc f) zero ts h k = absurd (omega arith)
walk_ctes-enough (suc f) (suc g) ts h k =
    after_cte_agree (length ts - 1) (parse_cte ts) (λ rest. walk_ctes f rest)
      (λ rest. walk_ctes g rest) (parse_cte-le ts)
      λ rest l. walk_ctes-enough f g rest (omega arith) (omega arith)

-- The analysis ends on every list of tokens.
pub analyze-total : (ts : List WithToken) → (st : WithState) × (analyze ts ≡ some st)
unfolding analyze
analyze-total ts = elim (Option-cases (locate_with_clause ts)) [
  | inl e ↦ (after_query true, rw (e, analyze) refl)
  | inr (rest, e) ↦
      let w = walk_ctes-total (suc (length rest)) rest (omega arith) in (w.0, rw (e, analyze) w.1)
]
