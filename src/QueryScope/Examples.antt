-- ===== src/QueryScope/Examples.antt =====
-- The scope of concrete queries.
use poqi.Prelude.{ℕ, ◌+◌, ◌≡◌, refl, true, false, none, some, List, [], ◌∷◌, map, leb, ◌&&◌, ◌||◌}
use poqi.TextInput.Utf8.{Line, len_utf8}
use poqi.Catalog.Identifier.{quote_identifier}
use poqi.QueryScope.Identifier.{SqlIdentifier, ScopedRelation, identifier, comma, Token, keyword}
use poqi.QueryScope.Keywords.{kw_from, kw_join}
use poqi.QueryScope.Lexer.{CharTables}
use poqi.QueryScope.Scope.{
  analyze_query_scope, has_qualifier, parse_identifier, collect_relations, is_source,
  is_reserved_relation_word,
}
use poqi.QueryScope.Quoted.{parse_identifier-quote_identifier}
use poqi.QueryScope.Relations.{Written, put, print_query, IsQuery, collect_relations-print}

-- ASCII letters and digits.
abbrev ascii : CharTables
ascii = record {
  alphabetic = λ c. (leb b'a' c && leb c b'z') || (leb b'A' c && leb c b'Z');
  numeric = λ c. leb b'0' c && leb c b'9';
}

abbrev plain : Line → SqlIdentifier
plain value = record { value = value; quoted = false }

abbrev name_a : Line
name_a = b'a' ∷ []

abbrev name_w : Line
name_w = b'w' ∷ []

abbrev table_a : ScopedRelation
table_a = record { schema = none; table = plain name_a; alias = some (plain name_w) }

abbrev query : Line
query =
    b'-' ∷ b'-' ∷ b' ' ∷ b'x' ∷ 10 ∷ b'F' ∷ b'R' ∷ b'O' ∷ b'M' ∷ b' ' ∷ b'c' ∷ b';' ∷ b' ' ∷ b'S'
    ∷ b'E' ∷ b'L' ∷ b'E' ∷ b'C' ∷ b'T' ∷ b' ' ∷ b'w' ∷ b'.' ∷ b'*' ∷ b' ' ∷ b'F' ∷ b'R' ∷ b'O'
    ∷ b'M' ∷ b' ' ∷ b'a' ∷ b' ' ∷ b'w' ∷ b';' ∷ []

-- The relation of the statement behind the semicolon, with its alias.
query_scope :
    analyze_query_scope ascii query 32
    ≡ some (record {
      relations = table_a ∷ [];
      has_relation_source = true;
      select_list_has_star = true;
    })
unfolding analyze_query_scope len_utf8
query_scope = refl

query_has_alias :
    has_qualifier ascii
      (record { relations = table_a ∷ []; has_relation_source = true; select_list_has_star = true })
      name_w
    ≡ true
unfolding has_qualifier
query_has_alias = refl

parse_identifier-quote_identifier_example :
    parse_identifier ascii (quote_identifier (b'o' ∷ b'"' ∷ b'.' ∷ []))
    ≡ some (record { value = b'o' ∷ b'"' ∷ b'.' ∷ []; quoted = true })
parse_identifier-quote_identifier_example =
    parse_identifier-quote_identifier ascii (b'o' ∷ b'"' ∷ b'.' ∷ [])

abbrev place : ℕ → Token
place n = record { kind = comma; start = n; end = n + 1; depth = 0 }

abbrev word_token : Line → Token
word_token w = put (identifier (plain w)) (place 0)

-- FROM a w, b JOIN b
abbrev written : List Written
written =
    record {
      source = word_token kw_from;
      relation = table_a;
      as_word = false;
      at = place;
      condition = place 0 ∷ word_token (b'b' ∷ []) ∷ [];
    }
    ∷ record {
      source = word_token kw_join;
      relation = record { schema = none; table = plain (b'b' ∷ []); alias = none };
      as_word = false;
      at = place;
      condition = [];
    }
    ∷ []

written-IsQuery : IsQuery written
unfolding keyword is_source is_reserved_relation_word
written-IsQuery =
    (refl, (refl, refl), (refl, (refl, tt)), (refl, refl, refl), (refl, tt, tt, tt, tt))

collect_relations-print_example :
    collect_relations (print_query written) ≡ map (λ (w : Written). w.relation) written
collect_relations-print_example = collect_relations-print written written-IsQuery
