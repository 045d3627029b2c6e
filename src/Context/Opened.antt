-- ===== src/Context/Opened.antt =====
-- The clause that the words before the cursor have opened, and what the completion offers there
-- (crates/search/completion/src/analyzer/context.rs).
use poqi.Prelude.{
  ℕ, ◌≡◌, refl, ap, ◌∙◌, Bool, true, false, ◌&&◌, some, List, [], ◌∷◌, ◌++◌, eq_text, get_elem?,
  zero, suc,
}
use poqi.TextInput.Utf8.{Line}
use poqi.WithClause.Token.{kw_with, kw_insert, kw_update, kw_delete}
use poqi.QueryScope.Keywords.{
  kw_select, kw_distinct, kw_from, kw_join, kw_where, kw_group, kw_having, kw_window, kw_order,
  kw_limit, kw_fetch, kw_offset, kw_returning, kw_union, kw_intersect, kw_except, kw_on, kw_using,
  kw_left, kw_right, kw_full, kw_inner, kw_cross, kw_natural,
}
use poqi.Context.Clause.{
  kw_by, kw_into, kw_values, kw_set, kw_outer, SqlClause, start, with_names, select_list, from_list,
  join_list, where_test, group_by, having_test, window_list, order_by, limit_count, fetch_count,
  offset_count, insert_target, insert_values, update_set, update_target, delete_target,
  returning_list, next_clause, ClauseState, read_word, read_words, clause_from_tokens,
}
use poqi.Context.Detect.{kw_table}

-- The words that open a clause wherever they stand. INTO does so behind INSERT, VALUES behind INSERT
-- INTO and SET behind UPDATE, with other words between.
pub data Opening : Type 0 where
  opens_with opens_select opens_from opens_join opens_where opens_having opens_window : Opening
  opens_limit opens_fetch opens_offset opens_insert opens_update opens_delete : Opening
  opens_returning opens_union opens_intersect opens_except opens_group opens_order : Opening
  opens_into : Opening
  opens_values opens_set : List Line → Opening

abbrev pub opening_words : Opening → List Line
opening_words opens_with = kw_with ∷ []
opening_words opens_select = kw_select ∷ []
opening_words opens_from = kw_from ∷ []
opening_words opens_join = kw_join ∷ []
opening_words opens_where = kw_where ∷ []
opening_words opens_having = kw_having ∷ []
opening_words opens_window = kw_window ∷ []
opening_words opens_limit = kw_limit ∷ []
opening_words opens_fetch = kw_fetch ∷ []
opening_words opens_offset = kw_offset ∷ []
opening_words opens_insert = kw_insert ∷ []
opening_words opens_update = kw_update ∷ []
opening_words opens_delete = kw_delete ∷ []
opening_words opens_returning = kw_returning ∷ []
opening_words opens_union = kw_union ∷ []
opening_words opens_intersect = kw_intersect ∷ []
opening_words opens_except = kw_except ∷ []
opening_words opens_group = kw_group ∷ kw_by ∷ []
opening_words opens_order = kw_order ∷ kw_by ∷ []
opening_words opens_into = kw_insert ∷ kw_into ∷ []
opening_words (opens_values ws) = kw_insert ∷ kw_into ∷ (ws ++ kw_values ∷ [])
opening_words (opens_set ws) = kw_update ∷ (ws ++ kw_set ∷ [])

abbrev pub opened_clause : Opening → SqlClause
opened_clause opens_with = with_names
opened_clause opens_select = select_list
opened_clause opens_from = from_list
opened_clause opens_join = join_list
opened_clause opens_where = where_test
opened_clause opens_having = having_test
opened_clause opens_window = window_list
opened_clause opens_limit = limit_count
opened_clause opens_fetch = fetch_count
opened_clause opens_offset = offset_count
opened_clause opens_insert = insert_target
opened_clause opens_update = update_target
opened_clause opens_delete = delete_target
opened_clause opens_returning = returning_list
opened_clause opens_union = start
opened_clause opens_intersect = start
opened_clause opens_except = start
opened_clause opens_group = group_by
opened_clause opens_order = order_by
opened_clause opens_into = insert_target
opened_clause (opens_values ws) = insert_values
opened_clause (opens_set ws) = update_set

abbrev pub clause_words : List Line
clause_words =
    kw_with ∷ kw_select ∷ kw_from ∷ kw_join ∷ kw_where ∷ kw_having ∷ kw_window ∷ kw_limit ∷ kw_fetch
    ∷ kw_offset ∷ kw_insert ∷ kw_into ∷ kw_values ∷ kw_update ∷ kw_set ∷ kw_delete ∷ kw_returning
    ∷ kw_union ∷ kw_intersect ∷ kw_except ∷ kw_group ∷ kw_order ∷ []

-- The other words that the completion looks at when they come last.
abbrev pub last_words : List Line
last_words =
    kw_distinct ∷ kw_table ∷ kw_on ∷ kw_using ∷ kw_left ∷ kw_right ∷ kw_full ∷ kw_inner ∷ kw_cross
    ∷ kw_natural ∷ kw_outer ∷ kw_by ∷ []

abbrev pub Differs : Line → List Line → Type 0
Differs w [] = Unit {0}
Differs w (k ∷ ks) = (eq_text w k ≡ false) × Differs w ks

abbrev pub OpensNone : List Line → Type 0
OpensNone [] = Unit {0}
OpensNone (w ∷ ws) = Differs w clause_words × OpensNone ws

-- The words within the opening open no other.
abbrev pub IsOpening : Opening → Type 0
IsOpening (opens_values ws) = OpensNone ws
IsOpening (opens_set ws) = OpensNone ws
IsOpening _ = Unit {0}

abbrev pub IsOrdinary : Line → Type 0
IsOrdinary w = Differs w clause_words × Differs w last_words

abbrev settled : SqlClause → ClauseState
settled c = record { clause = c; expect_group_by = false; expect_order_by = false }

and_false : (a b : Bool) → b ≡ false → (a && b) ≡ false
and_false true b h = h
and_false false b h = refl

pub Differs-at :
    (w : Line) (ks : List Line) (i : ℕ) (k : Line)
    → get_elem? ks i ≡ some k
    → Differs w ks
    → eq_text w k ≡ false
Differs-at w [] i k e h = cc
Differs-at w (x ∷ ks) zero k e (h, hs) = let same : x ≡ k = some_injective x k e in rw⁻¹ same h
  where
    some_injective : (x k : Line) → some x ≡ some k → x ≡ k
    some_injective x k e = cc
Differs-at w (x ∷ ks) (suc i) k e (h, hs) = Differs-at w ks i k e hs

next_clause-quiet : (c : SqlClause) (w : Line) → Differs w clause_words → next_clause c w ≡ c
unfolding next_clause
next_clause-quiet c w h =
    let no = λ (i : ℕ) (k : Line) (e : get_elem? clause_words i ≡ some k).
      Differs-at w clause_words i k e h in
    rw
      (
        no 0 kw_with refl,
        no 1 kw_select refl,
        no 2 kw_from refl,
        no 3 kw_join refl,
        no 4 kw_where refl,
        no 5 kw_having refl,
        no 6 kw_window refl,
        no 7 kw_limit refl,
        no 8 kw_fetch refl,
        no 9 kw_offset refl,
        no 10 kw_insert refl,
        no 11 kw_into refl,
        no 12 kw_values refl,
        no 13 kw_update refl,
        no 14 kw_set refl,
        no 15 kw_delete refl,
        no 16 kw_returning refl,
        no 17 kw_union refl,
        no 18 kw_intersect refl,
        no 19 kw_except refl,
      )
      refl

read_word-fresh :
    (s : ClauseState) (w : Line)
    → eq_text w kw_by ≡ false
    → read_word s w ≡ record {
      clause = next_clause s.clause w;
      expect_group_by = eq_text w kw_group;
      expect_order_by = eq_text w kw_order;
    }
unfolding read_word
read_word-fresh s w h = rw (and_false s.expect_group_by _ h, and_false s.expect_order_by _ h) refl

read_word-quiet :
    (c : SqlClause) (w : Line) → Differs w clause_words → read_word (settled c) w ≡ settled c
unfolding read_word
read_word-quiet c w h =
    rw
      (
        next_clause-quiet c w h,
        Differs-at w clause_words 20 kw_group refl h,
        Differs-at w clause_words 21 kw_order refl h,
      )
      refl

read_words-quiet :
    (c : SqlClause) (ws : List Line) → OpensNone ws → read_words (settled c) ws ≡ settled c
unfolding read_words
read_words-quiet c [] h = refl
read_words-quiet c (w ∷ ws) (h, hs) =
    ap (λ (s : ClauseState). read_words s ws) (read_word-quiet c w h) ∙ read_words-quiet c ws hs

read_words-append :
    (s : ClauseState) (xs ys : List Line)
    → read_words s (xs ++ ys) ≡ read_words (read_words s xs) ys
unfolding read_words
read_words-append s [] ys = refl
read_words-append s (x ∷ xs) ys = read_words-append (read_word s x) xs ys

read_words-opening :
    (s : ClauseState) (o : Opening)
    → IsOpening o
    → read_words s (opening_words o) ≡ settled (opened_clause o)
unfolding read_words next_clause read_word
read_words-opening s opens_with h = read_word-fresh s kw_with refl
read_words-opening s opens_select h = read_word-fresh s kw_select refl
read_words-opening s opens_from h = read_word-fresh s kw_from refl
read_words-opening s opens_join h = read_word-fresh s kw_join refl
read_words-opening s opens_where h = read_word-fresh s kw_where refl
read_words-opening s opens_having h = read_word-fresh s kw_having refl
read_words-opening s opens_window h = read_word-fresh s kw_window refl
read_words-opening s opens_limit h = read_word-fresh s kw_limit refl
read_words-opening s opens_fetch h = read_word-fresh s kw_fetch refl
read_words-opening s opens_offset h = read_word-fresh s kw_offset refl
read_words-opening s opens_insert h = read_word-fresh s kw_insert refl
read_words-opening s opens_update h = read_word-fresh s kw_update refl
read_words-opening s opens_delete h = read_word-fresh s kw_delete refl
read_words-opening s opens_returning h = read_word-fresh s kw_returning refl
read_words-opening s opens_union h = read_word-fresh s kw_union refl
read_words-opening s opens_intersect h = read_word-fresh s kw_intersect refl
read_words-opening s opens_except h = read_word-fresh s kw_except refl
read_words-opening s opens_group h =
    ap (λ (t : ClauseState). read_word t kw_by) (read_word-fresh s kw_group refl)
read_words-opening s opens_order h =
    ap (λ (t : ClauseState). read_word t kw_by) (read_word-fresh s kw_order refl)
read_words-opening s opens_into h =
    ap (λ (t : ClauseState). read_word t kw_into) (read_word-fresh s kw_insert refl)
read_words-opening s (opens_values ws) h =
    ap (λ (t : ClauseState). read_words (read_word t kw_into) (ws ++ kw_values ∷ []))
      (read_word-fresh s kw_insert refl)
    ∙ read_words-append (settled insert_target) ws (kw_values ∷ [])
    ∙ ap (λ (t : ClauseState). read_word t kw_values) (read_words-quiet insert_target ws h)
read_words-opening s (opens_set ws) h =
    ap (λ (t : ClauseState). read_words t (ws ++ kw_set ∷ [])) (read_word-fresh s kw_update refl)
    ∙ read_words-append (settled update_target) ws (kw_set ∷ [])
    ∙ ap (λ (t : ClauseState). read_word t kw_set) (read_words-quiet update_target ws h)

-- Whatever words stand before, the words that open a clause, and behind them words that open none
-- and change none, leave the statement in that clause: GROUP and ORDER only with BY behind them.
pub clause_from_tokens-opened :
    (ts : List Line) (o : Opening) (ws : List Line)
    → IsOpening o
    → OpensNone ws
    → clause_from_tokens (ts ++ (opening_words o ++ ws)) ≡ opened_clause o
unfolding clause_from_tokens
clause_from_tokens-opened ts o ws opens h =
    let clause_of : ClauseState → SqlClause = λ s. s.clause in
    let before = read_words (settled start) ts in
    ap clause_of (
      read_words-append (settled start) ts (opening_words o ++ ws)
      ∙ read_words-append before (opening_words o) ws
      ∙ ap (λ (s : ClauseState). read_words s ws) (read_words-opening before o opens)
      ∙ read_words-quiet (opened_clause o) ws h)
