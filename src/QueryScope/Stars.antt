-- ===== src/QueryScope/Stars.antt =====
-- Stars of the select list (crates/search/completion/src/analyzer/scope.rs).
use poqi.Prelude.{ℕ, ◌≡◌, refl, ap, ◌∙◌, false, ◌&&◌, List, [], ◌∷◌, if_false}
use poqi.QueryScope.Identifier.{SqlIdentifier, identifier, dot, Token}
use poqi.QueryScope.Relations.{put}
use poqi.QueryScope.Scope.{is_dot, is_identifier, before_qualifiers, projects, is_projection_star}

-- Qualifiers with their dots, backwards, each with the places of its dot and its name.
abbrev pub qualifiers : List (Token × SqlIdentifier × Token) → List Token → List Token
qualifiers [] before = before
qualifiers ((d, i, p) ∷ q) before = put dot d ∷ put (identifier i) p ∷ qualifiers q before

-- No qualifier with its dot stands last.
abbrev pub NoQualifier : List Token → Type 0
NoQualifier [] = Unit {0}
NoQualifier (t ∷ []) = Unit {0}
NoQualifier (t ∷ s ∷ ts) = (is_dot t.kind && is_identifier s.kind) ≡ false

before_qualifiers-NoQualifier :
    (before : List Token) → NoQualifier before → before_qualifiers before ≡ before
unfolding before_qualifiers
before_qualifiers-NoQualifier [] h = refl
before_qualifiers-NoQualifier (t ∷ []) h = refl
before_qualifiers-NoQualifier (t ∷ s ∷ ts) h =
    if_false (is_dot t.kind && is_identifier s.kind) _ _ h

before_qualifiers-put :
    (d : Token) (i : SqlIdentifier) (p : Token) (rest : List Token)
    → before_qualifiers (put dot d ∷ put (identifier i) p ∷ rest) ≡ before_qualifiers rest
unfolding before_qualifiers
before_qualifiers-put d i p rest = refl

before_qualifiers-qualifiers :
    (q : List (Token × SqlIdentifier × Token)) (before : List Token)
    → before_qualifiers (qualifiers q before) ≡ before_qualifiers before
before_qualifiers-qualifiers [] before = refl
before_qualifiers-qualifiers ((d, i, p) ∷ q) before =
    before_qualifiers-put d i p (qualifiers q before) ∙ before_qualifiers-qualifiers q before

-- A star with any number of qualifiers is one of the select list exactly if the token before its
-- first qualifier is the SELECT, a comma, or ALL or DISTINCT directly behind the SELECT.
pub is_projection_star-qualifiers :
    (q : List (Token × SqlIdentifier × Token)) (before : List Token) (select_index : ℕ)
    → NoQualifier before
    → is_projection_star (qualifiers q before) select_index ≡ projects select_index before
unfolding is_projection_star
is_projection_star-qualifiers q before select_index h =
    ap (λ (b : List Token). projects select_index b)
      (before_qualifiers-qualifiers q before ∙ before_qualifiers-NoQualifier before h)
