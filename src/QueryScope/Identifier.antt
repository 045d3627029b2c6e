-- ===== src/QueryScope/Identifier.antt =====
-- `SqlIdentifier`, `ScopedRelation` and `QueryScope` with their comparisons, and the tokens
-- (crates/search/completion/src/analyzer/scope.rs).
use poqi.Prelude.{ℕ, Bool, true, false, ◌&&◌, not, Option, none, some, List, eq_text}
use poqi.TextInput.Utf8.{Line}
use poqi.WithClause.Token.{eq_ignore_case, lower}

pub record SqlIdentifier : Type 0 where
  pub value : Line
  pub quoted : Bool

-- `to_ascii_lowercase`
unfoldable pub folded : Line → Line
unfolding poqi.WithClause.Token.to_lower
folded w = lower w

abbrev pub matches_name : Bool → Line → Line → Bool
matches_name true value catalog_name = eq_text value catalog_name
matches_name false value catalog_name = eq_text (folded value) catalog_name

unfoldable pub matches_catalog_name : SqlIdentifier → Line → Bool
unfolding folded
matches_catalog_name i catalog_name = matches_name i.quoted i.value catalog_name

abbrev pub matches_values : Bool → Bool → Line → Line → Bool
matches_values true true a b = eq_text a b
matches_values false false a b = eq_ignore_case a b
matches_values true false a b = eq_text a (folded b)
matches_values false true a b = eq_text (folded a) b

unfoldable pub matches_sql_identifier : SqlIdentifier → SqlIdentifier → Bool
unfolding folded eq_ignore_case
matches_sql_identifier a b = matches_values a.quoted b.quoted a.value b.value

pub record ScopedRelation : Type 0 where
  pub schema : Option SqlIdentifier
  pub table : SqlIdentifier
  pub alias : Option SqlIdentifier

abbrev pub name_in_query : Option SqlIdentifier → SqlIdentifier → SqlIdentifier
name_in_query none table = table
name_in_query (some alias) table = alias

unfoldable pub qualifier_matches : ScopedRelation → SqlIdentifier → Bool
unfolding matches_sql_identifier
qualifier_matches r qualifier = matches_sql_identifier (name_in_query r.alias r.table) qualifier

pub record QueryScope : Type 0 where
  pub relations : List ScopedRelation
  pub has_relation_source : Bool
  pub select_list_has_star : Bool

pub data TokenKind : Type 0 where
  identifier : SqlIdentifier → TokenKind
  dot comma star open_paren close_paren semicolon other : TokenKind

pub record Token : Type 0 where
  pub kind : TokenKind
  pub start : ℕ
  pub end : ℕ
  pub depth : ℕ

abbrev pub is_keyword : TokenKind → Line → Bool
is_keyword (identifier i) expected = not i.quoted && eq_ignore_case i.value expected
is_keyword _ expected = false

unfoldable pub keyword : Token → Line → Bool
unfolding eq_ignore_case
keyword t expected = is_keyword t.kind expected
