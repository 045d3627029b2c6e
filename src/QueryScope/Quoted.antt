-- ===== src/QueryScope/Quoted.antt =====
-- A quoted identifier, as the catalog writes it and the scope's parser reads it
-- (crates/catalog/src/lib.rs, crates/search/completion/src/analyzer/scope.rs).
use poqi.Prelude.{◌-◌, ℕ, suc, ◌≡◌, refl, ap, ◌∙◌, true, some, [], ◌∷◌, ◌++◌, arith, length}
use poqi.TextInput.Utf8.{Line, byte_len}
use poqi.Catalog.Identifier.{double_quotes, quote_identifier}
use poqi.Catalog.Quoting.{read_quoted, read_quoted-double_quotes}
use poqi.QueryScope.Identifier.{identifier}
use poqi.QueryScope.Lexer.{
  CharTables, quoted_identifier, lex_step, lex_char, identifier_from, lex_fuel, lex, continue,
}
use poqi.QueryScope.Scope.{of_lexed, parse_identifier}

-- The parser reads quotes the way PostgreSQL does.
quoted_identifier-read_quoted : (cs : Line) → quoted_identifier cs ≡ read_quoted cs
unfolding quoted_identifier read_quoted
quoted_identifier-read_quoted [] = refl
quoted_identifier-read_quoted (a ∷ []) = refl
quoted_identifier-read_quoted (a ∷ b ∷ cs) =
    ground (arith, quoted_identifier-read_quoted cs, quoted_identifier-read_quoted (b ∷ cs))

quoted_identifier-double_quotes :
    (value : Line) → quoted_identifier (double_quotes value ++ b'"' ∷ []) ≡ (value, [])
quoted_identifier-double_quotes value =
    quoted_identifier-read_quoted (double_quotes value ++ b'"' ∷ [])
    ∙ read_quoted-double_quotes value [] tt

module _ (u : CharTables) where
  lex-quote :
      (cs : Line)
      → lex u (b'"' ∷ cs)
        ≡ continue
            (byte_len (b'"' ∷ cs))
            (byte_len (b'"' ∷ cs))
            (identifier_from true 0 (quoted_identifier cs))
            0
            (λ rest below. lex_fuel u (suc (length cs)) (byte_len (b'"' ∷ cs)) rest below)
  unfolding lex lex_fuel lex_step lex_char
  lex-quote cs = refl

  one_token :
      (fuel total front : ℕ) (value : Line)
      → continue total front
          (identifier_from true 0 (value, []))
          0
          (λ rest below. lex_fuel u (suc fuel) total rest below)
        ≡ some (
            record {
              kind = identifier (record { value = value; quoted = true });
              start = total - front;
              end = total - 0;
              depth = 0;
            }
            ∷ [])
  unfolding lex_fuel
  one_token fuel total front value = refl

  -- The identifier that the catalog quotes, whatever its name, is read back by the parser of the
  -- scope as a quoted identifier of that name.
  pub parse_identifier-quote_identifier :
      (name : Line)
      → parse_identifier u (quote_identifier name) ≡ some (record { value = name; quoted = true })
  unfolding parse_identifier quote_identifier
  parse_identifier-quote_identifier name =
      let cs = double_quotes name ++ b'"' ∷ [] in
      let n = byte_len (b'"' ∷ cs) in
      ap of_lexed (
        lex-quote cs
        ∙ (ap
              (λ (p : Line × Line).
                continue n n (identifier_from true 0 p) 0
                  (λ rest below. lex_fuel u (suc (length cs)) n rest below))
              (quoted_identifier-double_quotes name)
            ∙ one_token (length cs) n n name))
