-- ===== src/QueryScope/Total.antt =====
-- The lexer of scope.rs ends: each round passes at least one character over.
use poqi.Prelude.{
  length-drop-le, ◌&&◌, is_whitespace, ℕ, zero, suc, ◌≤◌, ◌<◌, ◌≡◌, refl, ap, Bool, true, false,
  Option, some, none, List, [], ◌∷◌, ◌++◌, arith, length, drop, Bool-cases, inl, inr, if◌then◌else◌,
  ◌==◌,
}
use poqi.TextInput.Utf8.{Line, byte_len}
use poqi.QueryScope.Identifier.{Token}
use poqi.QueryScope.Lexer.{
  next_is, CharTables, quoted_identifier, skip_line_comment, skip_block_comment, skip_single_quoted,
  before_dollar, skip_to_delimiter, Lexed, token, skip, punctuation, identifier_continue,
  identifier_start, unquoted_identifier, dollar_body, skip_dollar_quoted, lex_char, lex_dollar,
  lex_step, cons_token, continue, lex_fuel, lex,
}

quoted_identifier-le : (cs : Line) → length (quoted_identifier cs).1 ≤ length cs
unfolding quoted_identifier
quoted_identifier-le [] = omega arith
quoted_identifier-le (a ∷ []) = ground arith
quoted_identifier-le (a ∷ b ∷ cs) =
    ground (arith, quoted_identifier-le cs, quoted_identifier-le (b ∷ cs))

skip_line_comment-le : (cs : Line) → length (skip_line_comment cs) ≤ length cs
unfolding skip_line_comment
skip_line_comment-le [] = omega arith
skip_line_comment-le (c ∷ cs) = ground (arith, skip_line_comment-le cs)

skip_block_comment-le : (d : ℕ) (cs : Line) → length (skip_block_comment d cs) ≤ length cs
unfolding skip_block_comment
skip_block_comment-le zero cs = omega arith
skip_block_comment-le (suc d) [] = omega arith
skip_block_comment-le (suc d) (a ∷ []) = omega arith
skip_block_comment-le (suc d) (a ∷ b ∷ cs) = ground (
  arith,
  skip_block_comment-le (suc (suc d)) cs,
  skip_block_comment-le d cs,
  skip_block_comment-le (suc d) (b ∷ cs),
)

skip_single_quoted-le : (cs : Line) → length (skip_single_quoted cs) ≤ length cs
unfolding skip_single_quoted
skip_single_quoted-le [] = omega arith
skip_single_quoted-le (a ∷ []) = omega arith
skip_single_quoted-le (a ∷ b ∷ cs) =
    ground (arith, skip_single_quoted-le cs, skip_single_quoted-le (b ∷ cs))

skip_to_delimiter-le : (d cs : Line) → length (skip_to_delimiter d cs) ≤ length cs
unfolding skip_to_delimiter
skip_to_delimiter-le d [] = omega arith
skip_to_delimiter-le d (c ∷ cs) =
    ground (arith, skip_to_delimiter-le d cs, length-drop-le (length d) (c ∷ cs))

-- What is behind a dollar sign that was found.
abbrev Behind : Option (Line × Line) → ℕ → Type 0
Behind none n = Unit {0}
Behind (some (a, b)) n = length b ≤ n

before_dollar-Behind : (cs : Line) → Behind (before_dollar cs) (length cs)
before_dollar-Behind [] = tt
before_dollar-Behind (c ∷ cs) =
    cons_behind c (c == b'$') cs (before_dollar cs) (before_dollar-Behind cs)
  where
    cons_behind :
        (c : ℕ) (found : Bool) (cs : Line) (o : Option (Line × Line))
        → Behind o (length cs)
        → Behind
            (if found
              then some ([], cs)
              else elim o [ none ↦ none | some (a, b) ↦ some (c ∷ a, b) ])
            (suc (length cs))
    cons_behind c true cs o h = omega arith
    cons_behind c false cs none h = tt
    cons_behind c false cs (some (a, b)) h = omega arith

-- The rest behind a round.
abbrev rest_of : Lexed → Line
rest_of (token kind depth rest below) = rest
rest_of (skip rest) = rest

punctuation-le : (c d : ℕ) (cs : Line) → length (rest_of (punctuation c d cs)) ≤ length cs
unfolding punctuation
punctuation-le c d cs = ground arith

either-le :
    (b : Bool) (x y : Lexed) (n : ℕ)
    → length (rest_of x) ≤ n
    → length (rest_of y) ≤ n
    → length (rest_of (if b then x else y)) ≤ n
either-le true x y n h k = h
either-le false x y n h k = k

cons_token-some :
    (t : Token) (o : Option (List Token))
    → ((ts : List Token) × (o ≡ some ts))
    → (ts : List Token) × (cons_token t o ≡ some ts)
cons_token-some t o (ts, e) = (t ∷ ts, rw e)

continue-total :
    (total front : ℕ) (l : Lexed) (depth : ℕ) (next : Line → ℕ → Option (List Token))
    → ((below : ℕ) → (ts : List Token) × (next (rest_of l) below ≡ some ts))
    → (ts : List Token) × (continue total front l depth next ≡ some ts)
continue-total total front (token kind d rest below) depth next h = cons_token-some _ _ (h below)
continue-total total front (skip rest) depth next h = h depth

continue_agree :
    (total front : ℕ) (l : Lexed) (depth : ℕ) (f g : Line → ℕ → Option (List Token))
    → ((below : ℕ) → f (rest_of l) below ≡ g (rest_of l) below)
    → continue total front l depth f ≡ continue total front l depth g
continue_agree total front (token kind d rest below) depth f g h = ap (cons_token _) (h below)
continue_agree total front (skip rest) depth f g h = h depth

module _ (u : CharTables) where
  unquoted_identifier-le : (cs : Line) → length (unquoted_identifier u cs).1 ≤ length cs
  unfolding unquoted_identifier
  unquoted_identifier-le [] = omega arith
  unquoted_identifier-le (c ∷ cs) = ground (arith, unquoted_identifier-le cs)

  dollar_body-le :
      (o : Option (Line × Line)) (n : ℕ) (rest : Line)
      → Behind o n
      → dollar_body u o ≡ some rest
      → length rest ≤ n
  dollar_body-le none n rest h e = absurd (cc)
  dollar_body-le (some (a, b)) n rest h e =
      ground (arith, skip_to_delimiter-le (b'$' ∷ a ++ b'$' ∷ []) b)

  identifier_start-continue : (c : ℕ) → identifier_start u c ≡ true → identifier_continue u c ≡ true
  unfolding identifier_start identifier_continue
  identifier_start-continue c h = ground arith

  unquoted-le :
      (c : ℕ) (cs : Line)
      → identifier_start u c ≡ true
      → length (unquoted_identifier u (c ∷ cs)).1 ≤ length cs
  unfolding unquoted_identifier
  unquoted-le c cs h = rw (identifier_start-continue c h) (unquoted_identifier-le cs)

  lex_char-le : (c : ℕ) (cs : Line) (d : ℕ) → length (rest_of (lex_char u c cs d)) ≤ length cs
  unfolding lex_char
  lex_char-le c cs d = elim (Bool-cases (c == b'"')) [
    | inl y ↦ rw y (quoted_identifier-le cs)
    | inr n ↦ elim (Bool-cases (identifier_start u c)) [
      | inl y ↦ rw (n, y) (unquoted-le c cs y)
      | inr k ↦ rw (n, k) (punctuation-le c d cs)
    ]
  ]

  lex_dollar-le :
      (o : Option Line) (c : ℕ) (cs : Line) (d : ℕ)
      → skip_dollar_quoted u cs ≡ o
      → length (rest_of (lex_dollar u o c cs d)) ≤ length cs
  unfolding skip_dollar_quoted
  lex_dollar-le none c cs d e = lex_char-le c cs d
  lex_dollar-le (some rest) c cs d e =
      dollar_body-le (before_dollar cs) (length cs) rest (before_dollar-Behind cs) e

  lex_step-le : (c : ℕ) (cs : Line) (d : ℕ) → length (rest_of (lex_step u c cs d)) ≤ length cs
  unfolding lex_step
  lex_step-le c cs d =
      let n = length cs in
      either-le (is_whitespace c) _ _ n (omega arith) (
        either-le ((c == b'-') && next_is b'-' cs) _ _ n
          (omega (arith, skip_line_comment-le (drop 1 cs), length-drop-le 1 cs))
          (either-le ((c == b'/') && next_is b'*' cs) _ _ n
            (omega (arith, skip_block_comment-le 1 (drop 1 cs), length-drop-le 1 cs))
            (either-le (c == b'\'') _ _ n (skip_single_quoted-le cs) (
              either-le (c == b'$') _ _ n (lex_dollar-le (skip_dollar_quoted u cs) c cs d refl)
                (lex_char-le c cs d)))))

  lex_fuel-total :
      (fuel total : ℕ) (cs : Line) (depth : ℕ)
      → length cs < fuel
      → (ts : List Token) × (lex_fuel u fuel total cs depth ≡ some ts)
  unfolding lex_fuel
  lex_fuel-total zero total cs depth h = absurd (omega arith)
  lex_fuel-total (suc fuel) total [] depth h = ([], refl)
  lex_fuel-total (suc fuel) total (c ∷ cs) depth h =
      continue-total total (byte_len (c ∷ cs)) (lex_step u c cs depth) depth
        (λ rest below. lex_fuel u fuel total rest below)
        (λ below.
          lex_fuel-total fuel total (rest_of (lex_step u c cs depth)) below
            (omega (arith, lex_step-le c cs depth)))

  -- The lexer of the query's scope ends with a list of tokens on every input.
  pub lex-terminates : (input : Line) → (ts : List Token) × (lex u input ≡ some ts)
  unfolding lex
  lex-terminates input = lex_fuel-total (suc (length input)) (byte_len input) input 0 (omega arith)

  lex_fuel-enough :
      (f g total : ℕ) (cs : Line) (depth : ℕ)
      → length cs < f
      → length cs < g
      → lex_fuel u f total cs depth ≡ lex_fuel u g total cs depth
  unfolding lex_fuel
  lex_fuel-enough zero g total cs depth h k = absurd (omega arith)
  lex_fuel-enough (suc f) zero total cs depth h k = absurd (omega arith)
  lex_fuel-enough (suc f) (suc g) total [] depth h k = refl
  lex_fuel-enough (suc f) (suc g) total (c ∷ cs) depth h k =
      continue_agree total (byte_len (c ∷ cs)) (lex_step u c cs depth) depth
        (λ rest below. lex_fuel u f total rest below) (λ rest below. lex_fuel u g total rest below)
        (λ below.
          lex_fuel-enough f g total (rest_of (lex_step u c cs depth)) below
            (omega (arith, lex_step-le c cs depth)) (omega (arith, lex_step-le c cs depth)))
