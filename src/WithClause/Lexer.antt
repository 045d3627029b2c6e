-- ===== src/WithClause/Lexer.antt =====
-- `WithLexer` (crates/search/completion/src/start_keywords/with/lexer.rs). The lexer's index is
-- the list of the bytes from there on. Its slices start and end at ASCII bytes or at the end of
-- the input, so that they do not panic and are lists of bytes.
pub mod Total
pub mod Print
use poqi.Prelude.{
  ℕ, zero, suc, Bool, true, false, ◌&&◌, ◌||◌, Option, none, some, List, [], ◌∷◌, ◌++◌, ◌==◌, leb,
  if◌then◌else◌, length, drop,
}
use poqi.WithClause.Token.{WithToken, word, open_paren, close_paren, comma, has_prefix}

unfoldable pub is_identifier_start : ℕ → Bool
is_identifier_start c = (leb b'a' c && leb c b'z') || ((leb b'A' c && leb c b'Z') || (c == b'_'))

unfoldable pub is_identifier_char : ℕ → Bool
unfolding is_identifier_start
is_identifier_char c = is_identifier_start c || ((leb b'0' c && leb c b'9') || (c == b'$'))

-- `is_ascii_whitespace`
unfoldable pub is_space : ℕ → Bool
is_space c = (c == b' ') || ((c == 9) || ((c == 10) || ((c == 12) || (c == 13))))

abbrev pub next_is : ℕ → List ℕ → Bool
next_is ch [] = false
next_is ch (c ∷ cs) = c == ch

abbrev pub cons_fst : ℕ → List ℕ × List ℕ → List ℕ × List ℕ
cons_fst c (a, b) = (c ∷ a, b)

-- The identifier characters at the front, and the rest.
unfoldable pub consume_word : List ℕ → List ℕ × List ℕ
unfolding is_identifier_char
consume_word [] = ([], [])
consume_word (c ∷ cs) =
    let more = cons_fst c (consume_word cs) in if is_identifier_char c then more else ([], c ∷ cs)

-- Behind the opening double quote: what belongs to the identifier, and the rest.
unfoldable pub consume_quoted_identifier : List ℕ → List ℕ × List ℕ
consume_quoted_identifier [] = ([], [])
consume_quoted_identifier (a ∷ []) = (a ∷ [], [])
consume_quoted_identifier (a ∷ b ∷ cs) =
    let doubled = cons_fst a (cons_fst b (consume_quoted_identifier cs)) in
    let more = cons_fst a (consume_quoted_identifier (b ∷ cs)) in
    elim (a == b'"') [
      | true ↦ elim (b == b'"') [ true ↦ doubled | false ↦ (a ∷ [], b ∷ cs) ]
      | false ↦ more
    ]

-- Behind the two dashes.
unfoldable pub skip_line_comment : List ℕ → List ℕ
skip_line_comment [] = []
skip_line_comment (c ∷ cs) = let more = skip_line_comment cs in if c == 10 then cs else more

-- Behind the opening of `depth` nested comments.
unfoldable pub skip_block_comment : ℕ → List ℕ → List ℕ
skip_block_comment zero cs = cs
skip_block_comment (suc depth) [] = []
skip_block_comment (suc depth) (a ∷ []) = []
skip_block_comment (suc depth) (a ∷ b ∷ cs) =
    let opened = skip_block_comment (suc (suc depth)) cs in
    let closed = skip_block_comment depth cs in
    let more = skip_block_comment (suc depth) (b ∷ cs) in
    elim ((a == b'/') && (b == b'*')) [
      | true ↦ opened
      | false ↦ elim ((a == b'*') && (b == b'/')) [ true ↦ closed | false ↦ more ]
    ]

-- Behind the opening quote.
unfoldable pub skip_single_quote : List ℕ → List ℕ
skip_single_quote [] = []
skip_single_quote (a ∷ []) = []
skip_single_quote (a ∷ b ∷ cs) =
    let doubled = skip_single_quote cs in
    let more = skip_single_quote (b ∷ cs) in
    elim (a == b'\'') [
      | true ↦ elim (b == b'\'') [ true ↦ doubled | false ↦ b ∷ cs ]
      | false ↦ more
    ]

abbrev cons_some : ℕ → Option (List ℕ) → Option (List ℕ)
cons_some c none = none
cons_some c (some cs) = some (c ∷ cs)

-- Behind the first dollar sign: the rest of the delimiter.
unfoldable pub parse_dollar_delimiter : List ℕ → Option (List ℕ)
unfolding is_identifier_char
parse_dollar_delimiter [] = none
parse_dollar_delimiter (c ∷ cs) =
    let more = cons_some c (parse_dollar_delimiter cs) in
    if c == b'$' then some (c ∷ []) else if is_identifier_char c then more else none

unfoldable pub skip_to_delimiter : List ℕ → List ℕ → List ℕ
unfolding has_prefix
skip_to_delimiter delim [] = []
skip_to_delimiter delim (c ∷ cs) =
    let more = skip_to_delimiter delim cs in
    if has_prefix (c ∷ cs) delim then drop (length delim) (c ∷ cs) else more

-- Behind a dollar sign that opens no quote the lexer goes on at once.
unfoldable pub skip_dollar_quote : List ℕ → List ℕ
unfolding parse_dollar_delimiter skip_to_delimiter
skip_dollar_quote cs = elim (parse_dollar_delimiter cs) [
  | none ↦ cs
  | some d ↦ skip_to_delimiter (b'$' ∷ d) (drop (length d) cs)
]

-- One round of `next_token`: a token, or bytes passed over.
pub data Lexed : Type 0 where
  token : WithToken → List ℕ → Lexed
  skip : List ℕ → Lexed

abbrev pub word_from : List ℕ → List ℕ × List ℕ → Lexed
word_from front (w, rest) = token (word (front ++ w)) rest

unfoldable pub lex_step : ℕ → List ℕ → Lexed
lex_step c cs =
    if c == b'('
    then token open_paren cs
    else if c == b')'
    then token close_paren cs
    else if c == b','
    then token comma cs
    else if (c == b'-') && next_is b'-' cs
    then skip (skip_line_comment (drop 1 cs))
    else if (c == b'/') && next_is b'*' cs
    then skip (skip_block_comment 1 (drop 1 cs))
    else if c == b'\''
    then skip (skip_single_quote cs)
    else if c == b'$'
    then skip (skip_dollar_quote cs)
    else if c == b'"'
    then word_from (c ∷ []) (consume_quoted_identifier cs)
    else if is_space c
    then skip cs
    else if is_identifier_start c
    then word_from (c ∷ []) (consume_word cs)
    else skip cs

abbrev pub cons_token : WithToken → Option (List WithToken) → Option (List WithToken)
cons_token t none = none
cons_token t (some ts) = some (t ∷ ts)

-- A round, and the tokens of the rest.
abbrev pub continue : Lexed → (List ℕ → Option (List WithToken)) → Option (List WithToken)
continue (token t rest) next = cons_token t (next rest)
continue (skip rest) next = next rest

-- All tokens, on fuel; `none` means that the fuel ran out.
unfoldable pub lex_fuel : ℕ → List ℕ → Option (List WithToken)
lex_fuel zero cs = none
lex_fuel (suc fuel) [] = some []
lex_fuel (suc fuel) (c ∷ cs) = continue (lex_step c cs) λ rest. lex_fuel fuel rest

-- `WithLexer::new(input).collect()`
unfoldable pub lex : List ℕ → Option (List WithToken)
unfolding lex_fuel lex_step consume_word consume_quoted_identifier skip_line_comment
    skip_block_comment skip_single_quote skip_dollar_quote is_space is_identifier_start
lex input = lex_fuel (suc (length input)) input
