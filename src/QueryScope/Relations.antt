-- ===== src/QueryScope/Relations.antt =====
-- The relations of a query are read back from its tokens
-- (crates/search/completion/src/analyzer/scope.rs).
use poqi.Prelude.{
  ℕ, zero, suc, ◌+◌, ◌-◌, ◌≤◌, ◌≡◌, refl, ap, ◌∙◌, Bool, true, false, Option, none, some, List, [],
  ◌∷◌, ◌++◌, map, arith, length, if_false, length-append,
}
use poqi.QueryScope.Identifier.{
  SqlIdentifier, ScopedRelation, TokenKind, identifier, dot, Token, keyword,
}
use poqi.QueryScope.Keywords.{kw_as}
use poqi.QueryScope.Scope.{
  collect_here, as_identifier, identifier_at, is_dot, dot_first, keyword_first, alias_here,
  unless_reserved, parse_alias, with_alias, parse_relation, is_source, is_reserved_relation_word,
  collect_fuel, collect_relations,
}

-- A token of a kind, at the place of another.
abbrev pub put : TokenKind → Token → Token
put k t = record { kind = k; start = t.start; end = t.end; depth = t.depth }

-- A relation as it stands behind FROM or JOIN, with what follows it up to the next: the places of
-- its tokens, and whether AS stands before its alias.
pub record Written : Type 0 where
  pub source : Token
  pub relation : ScopedRelation
  pub as_word : Bool
  pub at : ℕ → Token
  pub condition : List Token

abbrev pub alias_tokens : Bool → Option SqlIdentifier → (ℕ → Token) → List Token
alias_tokens as_word none at = []
alias_tokens true (some a) at =
    put (identifier (record { value = kw_as; quoted = false })) (at 3)
    ∷ put (identifier a) (at 4)
    ∷ []
alias_tokens false (some a) at = put (identifier a) (at 4) ∷ []

abbrev pub name_tokens : Option SqlIdentifier → SqlIdentifier → (ℕ → Token) → List Token
name_tokens none table at = put (identifier table) (at 2) ∷ []
name_tokens (some schema) table at =
    put (identifier schema) (at 0) ∷ put dot (at 1) ∷ put (identifier table) (at 2) ∷ []

-- The tokens of a relation, and of what follows it.
abbrev pub print_relation : Written → List Token → List Token
print_relation w rest =
    name_tokens w.relation.schema w.relation.table w.at
    ++ (alias_tokens w.as_word w.relation.alias w.at ++ rest)

abbrev pub print_query : List Written → List Token
print_query [] = []
print_query (w ∷ ws) = w.source ∷ print_relation w (w.condition ++ print_query ws)

-- Tokens that neither go on with the name before them nor give it an alias.
abbrev pub Ends : List Token → Type 0
Ends [] = Unit {0}
Ends (t ∷ ts) =
    (keyword t kw_as ≡ false)
    × (is_dot t.kind ≡ false)
    × (unless_reserved (as_identifier t.kind) ≡ none)

abbrev pub NoSource : List Token → Type 0
NoSource [] = Unit {0}
NoSource (t ∷ ts) = (is_source t ≡ false) × NoSource ts

-- An alias without AS is no reserved word.
abbrev pub AliasStands : Bool → Option SqlIdentifier → (ℕ → Token) → Type 0
AliasStands as_word none at = Unit {0}
AliasStands true (some a) at = Unit {0}
AliasStands false (some a) at =
    (is_reserved_relation_word a ≡ false) × (keyword (put (identifier a) (at 4)) kw_as ≡ false)

abbrev pub IsQuery : List Written → Type 0
IsQuery [] = Unit {0}
IsQuery (w ∷ ws) =
    (is_source w.source ≡ true)
    × AliasStands w.as_word w.relation.alias w.at
    × NoSource w.condition
    × Ends (w.condition ++ print_query ws)
    × IsQuery ws

parse_alias-Ends : (rest : List Token) → Ends rest → parse_alias rest ≡ (none, rest)
unfolding parse_alias identifier_at
parse_alias-Ends [] h = refl
parse_alias-Ends (t ∷ ts) h =
    if_false (keyword_first kw_as (t ∷ ts)) _ _ h.0
    ∙ ap (λ (o : Option SqlIdentifier). alias_here o (t ∷ ts)) h.2

parse_alias-word :
    (a : SqlIdentifier) (at : ℕ → Token) (rest : List Token)
    → parse_alias (alias_tokens true (some a) at ++ rest) ≡ (some a, rest)
unfolding parse_alias identifier_at keyword
parse_alias-word a at rest = refl

parse_alias-bare :
    (a : SqlIdentifier) (t : Token) (rest : List Token)
    → is_reserved_relation_word a ≡ false
    → keyword (put (identifier a) t) kw_as ≡ false
    → parse_alias (put (identifier a) t ∷ rest) ≡ (some a, rest)
unfolding parse_alias identifier_at
parse_alias-bare a t rest r k =
    let here = put (identifier a) t in
    if_false (keyword_first kw_as (here ∷ rest)) _ _ k
    ∙ ap (λ (o : Option SqlIdentifier). alias_here o (here ∷ rest))
        (if_false (is_reserved_relation_word a) none (some a) r)

parse_alias-print :
    (as_word : Bool) (alias : Option SqlIdentifier) (at : ℕ → Token) (rest : List Token)
    → AliasStands as_word alias at
    → Ends rest
    → parse_alias (alias_tokens as_word alias at ++ rest) ≡ (alias, rest)
parse_alias-print as_word none at rest a e = parse_alias-Ends rest e
parse_alias-print true (some a) at rest s e = parse_alias-word a at rest
parse_alias-print false (some a) at rest s e = parse_alias-bare a (at 4) rest s.0 s.1

dot_first-Ends : (rest : List Token) → Ends rest → dot_first rest ≡ false
dot_first-Ends [] h = refl
dot_first-Ends (t ∷ ts) h = h.1

dot_first-alias :
    (as_word : Bool) (alias : Option SqlIdentifier) (at : ℕ → Token) (rest : List Token)
    → Ends rest
    → dot_first (alias_tokens as_word alias at ++ rest) ≡ false
dot_first-alias as_word none at rest e = dot_first-Ends rest e
dot_first-alias true (some a) at rest e = refl
dot_first-alias false (some a) at rest e = refl

relation_from-print :
    (schema : Option SqlIdentifier) (table : SqlIdentifier) (alias : Option SqlIdentifier)
    (at : ℕ → Token) (tail rest : List Token)
    → dot_first tail ≡ false
    → parse_alias tail ≡ (alias, rest)
    → parse_relation (name_tokens schema table at ++ tail)
      ≡ some (record { schema = schema; table = table; alias = alias }, rest)
unfolding parse_relation identifier_at
relation_from-print none table alias at tail rest d p =
    if_false (dot_first tail) _ _ d
    ∙ ap (λ (x : Option SqlIdentifier × List Token). some (with_alias none table x)) p
relation_from-print (some schema) table alias at tail rest d p =
    ap (λ (x : Option SqlIdentifier × List Token). some (with_alias (some schema) table x)) p

collect_fuel-source :
    (f : ℕ) (t : Token) (ts rest : List Token) (r : ScopedRelation)
    → is_source t ≡ true
    → parse_relation ts ≡ some (r, rest)
    → collect_fuel (suc f) (t ∷ ts) ≡ r ∷ collect_fuel f rest
unfolding collect_fuel
collect_fuel-source f t ts rest r s p =
    let next = λ (l : List Token). collect_fuel f l in
    ap (λ (b : Bool). collect_here b (parse_relation ts) next ts) s
    ∙ ap (λ (o : Option (ScopedRelation × List Token)). collect_here true o next ts) p

collect_fuel-skip :
    (f : ℕ) (t : Token) (ts : List Token)
    → is_source t ≡ false
    → collect_fuel (suc f) (t ∷ ts) ≡ collect_fuel f ts
unfolding collect_fuel
collect_fuel-skip f t ts s =
    ap (λ (b : Bool). collect_here b (parse_relation ts) (λ rest. collect_fuel f rest) ts) s

collect_fuel-nil : (f : ℕ) → collect_fuel f [] ≡ []
unfolding collect_fuel
collect_fuel-nil zero = refl
collect_fuel-nil (suc f) = refl

collect_fuel-condition :
    (f : ℕ) (condition rest : List Token)
    → NoSource condition
    → collect_fuel (length condition + f) (condition ++ rest) ≡ collect_fuel f rest
collect_fuel-condition f [] rest h = ap (λ (n : ℕ). collect_fuel n rest) (omega arith)
collect_fuel-condition f (t ∷ ts) rest h =
    ap (λ (n : ℕ). collect_fuel n (t ∷ ts ++ rest)) (omega arith)
    ∙ (collect_fuel-skip (length ts + f) t (ts ++ rest) h.0 ∙ collect_fuel-condition f ts rest h.1)

parse_relation-print :
    (w : Written) (rest : List Token)
    → AliasStands w.as_word w.relation.alias w.at
    → Ends rest
    → parse_relation (print_relation w rest) ≡ some (w.relation, rest)
parse_relation-print w rest a e =
    relation_from-print w.relation.schema w.relation.table w.relation.alias w.at
      (alias_tokens w.as_word w.relation.alias w.at ++ rest) rest
      (dot_first-alias w.as_word w.relation.alias w.at rest e)
      (parse_alias-print w.as_word w.relation.alias w.at rest a e)

print_relation-le : (w : Written) (rest : List Token) → length rest ≤ length (print_relation w rest)
print_relation-le w rest = omega (
  arith,
  length-append (name_tokens w.relation.schema w.relation.table w.at)
      (alias_tokens w.as_word w.relation.alias w.at ++ rest),
  length-append (alias_tokens w.as_word w.relation.alias w.at) rest,
)

collect_fuel-print :
    (ws : List Written) (f : ℕ)
    → IsQuery ws
    → length (print_query ws) ≤ f
    → collect_fuel f (print_query ws) ≡ map (λ (w : Written). w.relation) ws
collect_fuel-print [] f q h = collect_fuel-nil f
collect_fuel-print (w ∷ ws) zero q h = absurd (omega arith)
collect_fuel-print (w ∷ ws) (suc f) q h =
    let rest = w.condition ++ print_query ws in
    let enough : length w.condition + length (print_query ws) ≤ f =
      omega (arith, print_relation-le w rest, length-append w.condition (print_query ws)) in
    collect_fuel-source f w.source (print_relation w rest) rest w.relation q.0
      (parse_relation-print w rest q.1 q.3)
    ∙ ap (w.relation ∷◌) (
        ap (λ (n : ℕ). collect_fuel n rest) (omega (arith, enough))
        ∙ (collect_fuel-condition (f - length w.condition) w.condition (print_query ws) q.2
            ∙ collect_fuel-print ws (f - length w.condition) q.4 (omega (arith, enough))))

-- Behind FROM and JOIN, whatever follows each relation up to the next, as long as it holds no FROM
-- or JOIN and does not go on with the relation's name or alias, the relations of a query are
-- exactly those written, with their schemas and aliases, where an alias without AS is no reserved
-- word.
pub collect_relations-print :
    (ws : List Written)
    → IsQuery ws
    → collect_relations (print_query ws) ≡ map (λ (w : Written). w.relation) ws
unfolding collect_relations
collect_relations-print ws q = collect_fuel-print ws (length (print_query ws)) q (omega arith)
