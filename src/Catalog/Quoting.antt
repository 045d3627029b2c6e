-- ===== src/Catalog/Quoting.antt =====
-- The SQL form of a relation name determines the relation.
use poqi.Prelude.{
  ℕ, true, false, ◌≡◌, refl, ap, sym, ◌∙◌, Option, none, some, [], ◌∷◌, ◌++◌, ◌==◌, if◌then◌else◌,
  Bool-cases, inl, inr, append-nil, arith, append_assoc,
}
use poqi.TextInput.Utf8.{Line}
use poqi.Catalog.Identifier.{QualifiedRelation, double_quotes, quote_identifier, quoted}

abbrev cons_fst : ℕ → Line × Line → Line × Line
cons_fst c (a, b) = (c ∷ a, b)

-- How PostgreSQL reads a quoted identifier, behind its opening quote: up to the first quote
-- that is not doubled.
unfoldable pub read_quoted : Line → Line × Line
read_quoted [] = ([], [])
read_quoted (a ∷ []) = if a == b'"' then ([], []) else (a ∷ [], [])
read_quoted (a ∷ b ∷ cs) =
    let doubled = cons_fst b'"' (read_quoted cs) in
    let more = cons_fst a (read_quoted (b ∷ cs)) in
    elim (a == b'"') [
      | true ↦ elim (b == b'"') [ true ↦ doubled | false ↦ ([], b ∷ cs) ]
      | false ↦ more
    ]

-- A text that does not go on with a quote.
abbrev pub NoQuote : Line → Type 0
NoQuote [] = Unit {0}
NoQuote (c ∷ cs) = (c == b'"') ≡ false

read_quoted-end : (rest : Line) → NoQuote rest → read_quoted (b'"' ∷ rest) ≡ ([], rest)
unfolding read_quoted
read_quoted-end [] h = refl
read_quoted-end (c ∷ cs) h = rw (h, read_quoted) refl

read_quoted-cons :
    (a : ℕ) (x y : Line)
    → (a == b'"') ≡ false
    → read_quoted (a ∷ x ++ b'"' ∷ y) ≡ cons_fst a (read_quoted (x ++ b'"' ∷ y))
unfolding read_quoted
read_quoted-cons a [] y h = rw (h, read_quoted) refl
read_quoted-cons a (c ∷ x) y h = rw (h, read_quoted) refl

same : (a b : ℕ) → (a == b) ≡ true → a ≡ b
same a b h = ground arith

-- Reading stops behind what `double_quotes` wrote.
pub read_quoted-double_quotes :
    (value rest : Line)
    → NoQuote rest
    → read_quoted (double_quotes value ++ b'"' ∷ rest) ≡ (value, rest)
unfolding double_quotes read_quoted
read_quoted-double_quotes [] rest h = read_quoted-end rest h
read_quoted-double_quotes (c ∷ cs) rest h = elim (Bool-cases (c == b'"')) [
  | inl y ↦
      rw (y, read_quoted)
        (ap (cons_fst b'"') (read_quoted-double_quotes cs rest h)
          ∙ ap (λ x. (x ∷ cs, rest)) (sym (same c _ y)))
  | inr n ↦ rw n (
      read_quoted-cons c (double_quotes cs) rest n
      ∙ ap (cons_fst c) (read_quoted-double_quotes cs rest h))
]

abbrev cons_name : ℕ → Option (Line × Line) → Option (Line × Line)
cons_name c none = none
cons_name c (some (a, b)) = some (c ∷ a, b)

-- The same behind the opening quote, where the closing one must not be missing.
unfoldable read_closed : Line → Option (Line × Line)
read_closed [] = none
read_closed (a ∷ []) = if a == b'"' then some ([], []) else none
read_closed (a ∷ b ∷ cs) =
    let doubled = cons_name b'"' (read_closed cs) in
    let more = cons_name a (read_closed (b ∷ cs)) in
    elim (a == b'"') [
      | true ↦ elim (b == b'"') [ true ↦ doubled | false ↦ some ([], b ∷ cs) ]
      | false ↦ more
    ]

-- A quoted identifier begins with a quote.
unfoldable read_name : Line → Option (Line × Line)
unfolding read_closed
read_name [] = none
read_name (c ∷ cs) = if c == b'"' then read_closed cs else none

abbrev whole_name : Option (Line × Line) → Option Line
whole_name (some (n, [])) = some n
whole_name _ = none

abbrev qualified : Line → Option Line → Option QualifiedRelation
qualified schema none = none
qualified schema (some n) = some (record { schema = some schema; name = n })

-- Behind the first identifier: the end, or a dot and the second.
unfoldable behind_name : Option (Line × Line) → Option QualifiedRelation
unfolding read_name
behind_name none = none
behind_name (some (n, [])) = some (record { schema = none; name = n })
behind_name (some (n, c ∷ rest)) =
    let second = qualified n (whole_name (read_name rest)) in if c == b'.' then second else none

-- How PostgreSQL reads the name of a relation that is made of quoted identifiers: one, or two with a
-- dot between them, and nothing else. (It refuses an empty one, which no relation has.)
unfoldable pub read_relation : Line → Option QualifiedRelation
unfolding read_name behind_name
read_relation text = behind_name (read_name text)

read_closed-end : (rest : Line) → NoQuote rest → read_closed (b'"' ∷ rest) ≡ some ([], rest)
unfolding read_closed
read_closed-end [] h = refl
read_closed-end (c ∷ cs) h = rw (h, read_closed) refl

read_closed-cons :
    (a : ℕ) (x y : Line)
    → (a == b'"') ≡ false
    → read_closed (a ∷ x ++ b'"' ∷ y) ≡ cons_name a (read_closed (x ++ b'"' ∷ y))
unfolding read_closed
read_closed-cons a [] y h = rw (h, read_closed) refl
read_closed-cons a (c ∷ x) y h = rw (h, read_closed) refl

read_closed-double_quotes :
    (value rest : Line)
    → NoQuote rest
    → read_closed (double_quotes value ++ b'"' ∷ rest) ≡ some (value, rest)
unfolding double_quotes read_closed
read_closed-double_quotes [] rest h = read_closed-end rest h
read_closed-double_quotes (c ∷ cs) rest h = elim (Bool-cases (c == b'"')) [
  | inl y ↦
      rw (y, read_closed)
        (ap (cons_name b'"') (read_closed-double_quotes cs rest h)
          ∙ ap (λ x. some (x ∷ cs, rest)) (sym (same c _ y)))
  | inr n ↦ rw n (
      read_closed-cons c (double_quotes cs) rest n
      ∙ ap (cons_name c) (read_closed-double_quotes cs rest h))
]

-- A quoted identifier is read back, whatever characters it is made of.
read_name-quote_identifier :
    (value rest : Line)
    → NoQuote rest
    → read_name (quote_identifier value ++ rest) ≡ some (value, rest)
unfolding quote_identifier read_name
read_name-quote_identifier value rest h =
    rw (append_assoc (double_quotes value)) (read_closed-double_quotes value rest h)

read_name-whole : (n : Line) → read_name (quote_identifier n) ≡ some (n, [])
read_name-whole n =
    ap read_name (sym (append-nil (quote_identifier n))) ∙ read_name-quote_identifier n [] tt

reads :
    (sch : Option Line) (n : Line)
    → read_relation (quoted (record { schema = sch; name = n }))
      ≡ some (record { schema = sch; name = n })
unfolding quoted read_relation behind_name
reads none n = ap behind_name (read_name-whole n)
reads (some sch) n =
    ap behind_name (read_name-quote_identifier sch (b'.' ∷ quote_identifier n) refl)
    ∙ ap (λ (o : Option (Line × Line)). qualified sch (whole_name o)) (read_name-whole n)

-- The SQL name of a relation is read back as that relation, by a reader that takes one quoted
-- identifier, or two with a dot between them, and nothing before, between or behind them.
pub read_relation-quoted : (r : QualifiedRelation) → read_relation (quoted r) ≡ some r
read_relation-quoted r = reads r.schema r.name
