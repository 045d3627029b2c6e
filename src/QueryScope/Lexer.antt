-- ===== src/QueryScope/Lexer.antt =====
-- The lexer of scope.rs (crates/search/completion/src/analyzer/scope.rs). Its index is the length
-- of the input in bytes less that of the rest. The Unicode tables behind `char::is_alphabetic` and
-- `char::is_alphanumeric` are arguments.
use poqi.Prelude.{
  ℕ, zero, suc, ◌+◌, ◌-◌, Bool, true, false, ◌&&◌, ◌||◌, Option, none, some, List, [], ◌∷◌, ◌++◌,
  ◌==◌, if◌then◌else◌, length, drop, is_whitespace,
}
use poqi.TextInput.Utf8.{Line, byte_len}
use poqi.WithClause.Token.{has_prefix}
use poqi.QueryScope.Identifier.{
  TokenKind, identifier, dot, comma, star, open_paren, close_paren, semicolon, other, Token,
}

-- `char::is_alphabetic` and `char::is_numeric`
pub record CharTables : Type 0 where
  pub alphabetic : ℕ → Bool
  pub numeric : ℕ → Bool

abbrev pub next_is : ℕ → Line → Bool
next_is ch [] = false
next_is ch (c ∷ cs) = c == ch

abbrev pub cons_fst : ℕ → Line × Line → Line × Line
cons_fst c (a, b) = (c ∷ a, b)

-- Behind the opening quote: the value, and the rest.
unfoldable pub quoted_identifier : Line → Line × Line
quoted_identifier [] = ([], [])
quoted_identifier (a ∷ []) = if a == b'"' then ([], []) else (a ∷ [], [])
quoted_identifier (a ∷ b ∷ cs) =
    let doubled = cons_fst b'"' (quoted_identifier cs) in
    let more = cons_fst a (quoted_identifier (b ∷ cs)) in
    elim (a == b'"') [
      | true ↦ elim (b == b'"') [ true ↦ doubled | false ↦ ([], b ∷ cs) ]
      | false ↦ more
    ]

-- Behind the two dashes.
unfoldable pub skip_line_comment : Line → Line
skip_line_comment [] = []
skip_line_comment (c ∷ cs) = let more = skip_line_comment cs in if c == 10 then cs else more

-- Behind the opening of `nesting` comments.
unfoldable pub skip_block_comment : ℕ → Line → Line
skip_block_comment zero cs = cs
skip_block_comment (suc nesting) [] = []
skip_block_comment (suc nesting) (a ∷ []) = []
skip_block_comment (suc nesting) (a ∷ b ∷ cs) =
    let opened = skip_block_comment (suc (suc nesting)) cs in
    let closed = skip_block_comment nesting cs in
    let more = skip_block_comment (suc nesting) (b ∷ cs) in
    elim ((a == b'/') && (b == b'*')) [
      | true ↦ opened
      | false ↦ elim ((a == b'*') && (b == b'/')) [ true ↦ closed | false ↦ more ]
    ]

-- Behind the opening quote.
unfoldable pub skip_single_quoted : Line → Line
skip_single_quoted [] = []
skip_single_quoted (a ∷ []) = []
skip_single_quoted (a ∷ b ∷ cs) =
    let doubled = skip_single_quoted cs in
    let more = skip_single_quoted (b ∷ cs) in
    elim (a == b'\'') [
      | true ↦ elim (b == b'\'') [ true ↦ doubled | false ↦ b ∷ cs ]
      | false ↦ more
    ]

-- The text before the first dollar sign, and the text behind it.
abbrev pub before_dollar : Line → Option (Line × Line)
before_dollar [] = none
before_dollar (c ∷ cs) =
    let rest = before_dollar cs in
    if c == b'$' then some ([], cs) else elim rest [ none ↦ none | some (a, b) ↦ some (c ∷ a, b) ]

-- Behind the next delimiter, or the end.
unfoldable pub skip_to_delimiter : Line → Line → Line
unfolding has_prefix
skip_to_delimiter delimiter [] = []
skip_to_delimiter delimiter (c ∷ cs) =
    let more = skip_to_delimiter delimiter cs in
    if has_prefix (c ∷ cs) delimiter then drop (length delimiter) (c ∷ cs) else more

-- One round of `next_token`: a token's kind and depth, the rest and the depth there, or characters
-- passed over.
pub data Lexed : Type 0 where
  token : TokenKind → ℕ → Line → ℕ → Lexed
  skip : Line → Lexed

abbrev pub identifier_from : Bool → ℕ → Line × Line → Lexed
identifier_from quoted depth (value, rest) =
    token (identifier (record { value = value; quoted = quoted })) depth rest depth

unfoldable pub punctuation : ℕ → ℕ → Line → Lexed
punctuation c depth cs =
    if c == b'('
    then token open_paren depth cs (depth + 1)
    else if c == b')'
    then token close_paren (depth - 1) cs (depth - 1)
    else if c == b'.'
    then token dot depth cs depth
    else if c == b','
    then token comma depth cs depth
    else if c == b'*'
    then token star depth cs depth
    else if c == b';'
    then token semicolon depth cs depth
    else token other depth cs depth

abbrev pub cons_token : Token → Option (List Token) → Option (List Token)
cons_token t none = none
cons_token t (some ts) = some (t ∷ ts)

-- A round that began with `front` bytes left of `total`, and the tokens of the rest.
abbrev pub continue : ℕ → ℕ → Lexed → ℕ → (Line → ℕ → Option (List Token)) → Option (List Token)
continue total front (token kind depth rest below) at next =
    cons_token
      (record { kind = kind; start = total - front; end = total - byte_len rest; depth = depth })
      (next rest below)
continue total front (skip rest) at next = next rest at

module _ (u : CharTables) where
  unfoldable pub identifier_start : ℕ → Bool
  identifier_start c = (c == b'_') || u.alphabetic c

  unfoldable pub identifier_continue : ℕ → Bool
  identifier_continue c = (c == b'_') || ((c == b'$') || (u.alphabetic c || u.numeric c))

  unfoldable pub unquoted_identifier : Line → Line × Line
  unfolding identifier_continue
  unquoted_identifier [] = ([], [])
  unquoted_identifier (c ∷ cs) =
      let more = cons_fst c (unquoted_identifier cs) in
      if identifier_continue c then more else ([], c ∷ cs)

  abbrev pub all_continue : Line → Bool
  all_continue [] = true
  all_continue (c ∷ cs) = identifier_continue c && all_continue cs

  abbrev pub dollar_body : Option (Line × Line) → Option Line
  dollar_body none = none
  dollar_body (some (tag, rest)) =
      if all_continue tag then some (skip_to_delimiter (b'$' ∷ tag ++ b'$' ∷ []) rest) else none

  -- Behind a dollar sign: the rest behind a quoted text, if one begins here.
  unfoldable pub skip_dollar_quoted : Line → Option Line
  unfolding skip_to_delimiter identifier_continue
  skip_dollar_quoted cs = dollar_body (before_dollar cs)

  -- Behind the test for a dollar quote.
  unfoldable pub lex_char : ℕ → Line → ℕ → Lexed
  unfolding quoted_identifier identifier_start unquoted_identifier punctuation
  lex_char c cs depth =
      if c == b'"'
      then identifier_from true depth (quoted_identifier cs)
      else if identifier_start c
      then identifier_from false depth (unquoted_identifier (c ∷ cs))
      else punctuation c depth cs

  abbrev pub lex_dollar : Option Line → ℕ → Line → ℕ → Lexed
  lex_dollar none c cs depth = lex_char c cs depth
  lex_dollar (some rest) c cs depth = skip rest

  unfoldable pub lex_step : ℕ → Line → ℕ → Lexed
  unfolding is_whitespace skip_line_comment skip_block_comment skip_single_quoted skip_dollar_quoted
      lex_char
  lex_step c cs depth =
      if is_whitespace c
      then skip cs
      else if (c == b'-') && next_is b'-' cs
      then skip (skip_line_comment (drop 1 cs))
      else if (c == b'/') && next_is b'*' cs
      then skip (skip_block_comment 1 (drop 1 cs))
      else if c == b'\''
      then skip (skip_single_quoted cs)
      else if c == b'$'
      then lex_dollar (skip_dollar_quoted cs) c cs depth
      else lex_char c cs depth

  -- The tokens of the rest of an input of `total` bytes, on fuel; `none` means that it ran out.
  unfoldable pub lex_fuel : ℕ → ℕ → Line → ℕ → Option (List Token)
  unfolding lex_step
  lex_fuel zero total cs depth = none
  lex_fuel (suc fuel) total [] depth = some []
  lex_fuel (suc fuel) total (c ∷ cs) depth =
      continue total (byte_len (c ∷ cs)) (lex_step c cs depth) depth
        (λ rest below. lex_fuel fuel total rest below)

  unfoldable pub lex : Line → Option (List Token)
  unfolding lex_fuel
  lex input = lex_fuel (suc (length input)) (byte_len input) input 0
