-- ===== src/QueryScope/Scope.antt =====
-- The scope of a query (crates/search/completion/src/analyzer/scope.rs). An index into tokens is the
-- list of those from there on; the tokens before an index are kept backwards.
use poqi.Prelude.{
  ℕ, zero, suc, ◌+◌, ◌-◌, min, Bool, true, false, ◌&&◌, ◌||◌, Option, none, some, List, [], ◌∷◌,
  ◌==◌, leb, ltb, if◌then◌else◌, length, eq_text, usize_max,
}
use poqi.TextInput.Utf8.{Line, byte_len, len_utf8}
use poqi.QueryScope.Identifier.{
  SqlIdentifier, ScopedRelation, QueryScope, TokenKind, identifier, dot, comma, star, open_paren,
  close_paren, semicolon, Token, keyword, folded, qualifier_matches,
}
use poqi.QueryScope.Keywords.{
  kw_from, kw_join, kw_select, kw_as, kw_all, kw_distinct, reserved_words, select_list_ends,
}
use poqi.QueryScope.Lexer.{CharTables, lex}

-- `is_char_boundary` and the walk back to one.
unfoldable pub boundary_below : Line → ℕ → ℕ
boundary_below [] cursor = 0
boundary_below (c ∷ cs) cursor =
    let rest = len_utf8 c + boundary_below cs (cursor - len_utf8 c) in
    if leb (len_utf8 c) cursor then rest else 0

unfoldable pub clamp_boundary : Line → ℕ → ℕ
unfolding boundary_below
clamp_boundary input cursor = boundary_below input (min cursor (byte_len input))

abbrev is_open : TokenKind → Bool
is_open open_paren = true
is_open _ = false

abbrev after_token : TokenKind → ℕ → ℕ
after_token open_paren depth = depth + 1
after_token close_paren depth = depth - 1
after_token _ depth = depth

abbrev pub depth_from : ℕ → List Token → ℕ → ℕ
depth_from cursor [] depth = depth
depth_from cursor (t ∷ ts) depth =
    depth_from cursor ts (if ltb t.start cursor then after_token t.kind depth else depth)

unfoldable pub depth_at_cursor : List Token → ℕ → ℕ
depth_at_cursor tokens cursor = depth_from cursor tokens 0

abbrev pub is_semicolon : TokenKind → Bool
is_semicolon semicolon = true
is_semicolon _ = false

-- The end of the last semicolon before the cursor, outside parentheses.
abbrev pub start_from : ℕ → List Token → ℕ → ℕ
start_from cursor [] start = start
start_from cursor (t ∷ ts) start =
    start_from cursor ts
      (if (t.depth == 0) && (leb t.end cursor && is_semicolon t.kind) then t.end else start)

-- The start of the first semicolon behind it.
abbrev pub end_from : ℕ → List Token → ℕ
end_from cursor [] = usize_max
end_from cursor (t ∷ ts) =
    let rest = end_from cursor ts in
    if (t.depth == 0) && (leb cursor t.start && is_semicolon t.kind) then t.start else rest

unfoldable pub statement_bounds : List Token → ℕ → ℕ × ℕ
statement_bounds tokens cursor = (start_from cursor tokens 0, end_from cursor tokens)

-- The depth of the last SELECT before the cursor that is no deeper than it.
abbrev pub query_depth_from : ℕ → ℕ → ℕ → List Token → ℕ → ℕ
query_depth_from cursor start limit [] depth = depth
query_depth_from cursor start limit (t ∷ ts) depth = query_depth_from cursor start limit ts (
    if leb start t.start && (ltb t.start cursor && (leb t.depth limit && keyword t kw_select))
    then t.depth
    else depth)

unfoldable pub query_depth : List Token → ℕ → ℕ → ℕ
unfolding depth_at_cursor keyword
query_depth tokens cursor statement_start =
    let cursor_depth = depth_at_cursor tokens cursor in
    query_depth_from cursor statement_start cursor_depth tokens cursor_depth

-- The tokens of the statement at one depth.
unfoldable pub tokens_between : ℕ → ℕ → ℕ → List Token → List Token
tokens_between start end depth [] = []
tokens_between start end depth (t ∷ ts) =
    let rest = tokens_between start end depth ts in
    if leb start t.start && (leb t.end end && (t.depth == depth)) then t ∷ rest else rest

abbrev any_word : Line → List Line → Bool
any_word w [] = false
any_word w (x ∷ xs) = eq_text w x || any_word w xs

unfoldable pub is_reserved_relation_word : SqlIdentifier → Bool
unfolding folded
is_reserved_relation_word i = if i.quoted then false else any_word (folded i.value) reserved_words

abbrev pub as_identifier : TokenKind → Option SqlIdentifier
as_identifier (identifier i) = some i
as_identifier _ = none

-- `identifier_at`, at the front.
unfoldable pub identifier_at : List Token → Option SqlIdentifier
identifier_at [] = none
identifier_at (t ∷ ts) = as_identifier t.kind

abbrev pub is_dot : TokenKind → Bool
is_dot dot = true
is_dot _ = false

abbrev pub dot_first : List Token → Bool
dot_first [] = false
dot_first (t ∷ ts) = is_dot t.kind

abbrev pub rest_of : List Token → List Token
rest_of [] = []
rest_of (t ∷ ts) = ts

abbrev pub keyword_first : Line → List Token → Bool
keyword_first expected [] = false
keyword_first expected (t ∷ ts) = keyword t expected

abbrev pub alias_here : Option SqlIdentifier → List Token → Option SqlIdentifier × List Token
alias_here none tokens = (none, tokens)
alias_here (some a) tokens = (some a, rest_of tokens)

abbrev pub unless_reserved : Option SqlIdentifier → Option SqlIdentifier
unless_reserved none = none
unless_reserved (some a) = if is_reserved_relation_word a then none else some a

-- The alias behind a relation's name, with AS or without.
unfoldable pub parse_alias : List Token → Option SqlIdentifier × List Token
unfolding identifier_at is_reserved_relation_word keyword
parse_alias tokens =
    if keyword_first kw_as tokens
    then alias_here (identifier_at (rest_of tokens)) (rest_of tokens)
    else alias_here (unless_reserved (identifier_at tokens)) tokens

abbrev pub with_alias :
    Option SqlIdentifier
    → SqlIdentifier
    → Option SqlIdentifier × List Token
    → ScopedRelation × List Token
with_alias schema table (alias, rest) =
    (record { schema = schema; table = table; alias = alias }, rest)

abbrev pub qualified :
    SqlIdentifier → Option SqlIdentifier → List Token → Option (ScopedRelation × List Token)
qualified first none rest = none
qualified first (some table) rest = some (with_alias (some first) table (parse_alias rest))

abbrev pub relation_from : Option SqlIdentifier → List Token → Option (ScopedRelation × List Token)
relation_from none rest = none
relation_from (some first) rest =
    if dot_first rest
    then qualified first (identifier_at (rest_of rest)) (rest_of (rest_of rest))
    else some (with_alias none first (parse_alias rest))

unfoldable pub parse_relation : List Token → Option (ScopedRelation × List Token)
unfolding identifier_at parse_alias
parse_relation tokens = relation_from (identifier_at tokens) (rest_of tokens)

unfoldable pub is_source : Token → Bool
unfolding keyword
is_source t = keyword t kw_from || keyword t kw_join

-- One round: a relation behind a source, or nothing.
abbrev pub collect_here :
    Bool
    → Option (ScopedRelation × List Token)
    → (List Token → List ScopedRelation)
    → List Token
    → List ScopedRelation
collect_here false found next ts = next ts
collect_here true none next ts = next ts
collect_here true (some (relation, rest)) next ts = relation ∷ next rest

-- The loop, with as much fuel as there are tokens.
unfoldable pub collect_fuel : ℕ → List Token → List ScopedRelation
unfolding is_source parse_relation
collect_fuel zero tokens = []
collect_fuel (suc fuel) [] = []
collect_fuel (suc fuel) (t ∷ ts) =
    collect_here (is_source t) (parse_relation ts) (λ rest. collect_fuel fuel rest) ts

unfoldable pub collect_relations : List Token → List ScopedRelation
unfolding collect_fuel
collect_relations tokens = collect_fuel (length tokens) tokens

abbrev pub is_identifier : TokenKind → Bool
is_identifier (identifier i) = true
is_identifier _ = false

-- The qualifiers before a star passed over, backwards.
unfoldable pub before_qualifiers : List Token → List Token
before_qualifiers [] = []
before_qualifiers (t ∷ []) = t ∷ []
before_qualifiers (t ∷ s ∷ ts) =
    let rest = before_qualifiers ts in
    if is_dot t.kind && is_identifier s.kind then rest else t ∷ s ∷ ts

abbrev pub is_comma : TokenKind → Bool
is_comma comma = true
is_comma _ = false

abbrev pub projects : ℕ → List Token → Bool
projects select_index [] = false
projects select_index (t ∷ ts) =
    (length ts == select_index)
    || (is_comma t.kind
        || ((length ts == select_index + 1) && (keyword t kw_all || keyword t kw_distinct)))

-- `before` are the tokens before the star.
unfoldable pub is_projection_star : List Token → ℕ → Bool
unfolding before_qualifiers keyword
is_projection_star before select_index = projects select_index (before_qualifiers before)

abbrev any_keyword : Token → List Line → Bool
any_keyword t [] = false
any_keyword t (x ∷ xs) = keyword t x || any_keyword t xs

unfoldable pub is_select_list_end : Token → Bool
unfolding keyword
is_select_list_end t = any_keyword t select_list_ends

abbrev is_star : TokenKind → Bool
is_star star = true
is_star _ = false

-- The state of the loop over the tokens of the select list.
pub record StarScan : Type 0 where
  pub in_select_list : Bool
  pub has_star : Bool
  pub select_index : ℕ

unfoldable pub star_step : Token → List Token → StarScan → StarScan
unfolding is_select_list_end is_projection_star keyword
star_step t before s =
    if keyword t kw_select
    then record { in_select_list = true; has_star = false; select_index = length before }
    else if s.in_select_list && is_select_list_end t
    then record s { in_select_list = false }
    else if s.in_select_list && (is_star t.kind && is_projection_star before s.select_index)
    then record s { has_star = true }
    else s

unfoldable pub star_scan : List Token → List Token → StarScan → StarScan
unfolding star_step
star_scan [] before s = s
star_scan (t ∷ ts) before s = star_scan ts (t ∷ before) (star_step t before s)

abbrev pub visible : ℕ → List Token → List Token
visible cursor [] = []
visible cursor (t ∷ ts) =
    let rest = visible cursor ts in if ltb t.start cursor then t ∷ rest else rest

unfoldable pub has_star_in : List Token → ℕ → Bool
unfolding star_scan
has_star_in tokens cursor =
    (star_scan (visible cursor tokens) []
      (record { in_select_list = false; has_star = false; select_index = 0 })).has_star

abbrev pub any_source : List Token → Bool
any_source [] = false
any_source (t ∷ ts) = is_source t || any_source ts

unfoldable pub scope_of_tokens : List Token → ℕ → QueryScope
unfolding statement_bounds query_depth tokens_between collect_relations is_source has_star_in
scope_of_tokens tokens cursor =
    let bounds = statement_bounds tokens cursor in
    let query_tokens =
      tokens_between bounds.0 bounds.1 (query_depth tokens cursor bounds.0) tokens in
    record {
      relations = collect_relations query_tokens;
      has_relation_source = any_source query_tokens;
      select_list_has_star = has_star_in query_tokens cursor;
    }

abbrev pub only_identifier : List Token → Option SqlIdentifier
only_identifier (t ∷ []) = as_identifier t.kind
only_identifier _ = none

abbrev pub any_qualifier : SqlIdentifier → List ScopedRelation → Bool
any_qualifier q [] = false
any_qualifier q (r ∷ rs) = qualifier_matches r q || any_qualifier q rs

abbrev pub of_lexed : Option (List Token) → Option SqlIdentifier
of_lexed none = none
of_lexed (some tokens) = only_identifier tokens

abbrev pub scope_of_lexed : Option (List Token) → ℕ → Option QueryScope
scope_of_lexed none cursor = none
scope_of_lexed (some tokens) cursor = some (scope_of_tokens tokens cursor)

abbrev pub matched : Option SqlIdentifier → List ScopedRelation → Bool
matched none relations = false
matched (some q) relations = any_qualifier q relations

module _ (u : CharTables) where
  unfoldable pub parse_identifier : Line → Option SqlIdentifier
  unfolding lex
  parse_identifier raw = of_lexed (lex u raw)

  -- `none` means that the lexer's fuel ran out.
  unfoldable pub analyze_query_scope : Line → ℕ → Option QueryScope
  unfolding clamp_boundary lex scope_of_tokens
  analyze_query_scope buffer cursor = scope_of_lexed (lex u buffer) (clamp_boundary buffer cursor)

  unfoldable pub has_qualifier : QueryScope → Line → Bool
  unfolding parse_identifier qualifier_matches
  has_qualifier scope raw_qualifier = matched (parse_identifier raw_qualifier) scope.relations
