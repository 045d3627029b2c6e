-- ===== src/WithClause/Lexer/Total.antt =====
-- The lexer ends: each round passes at least one byte over.
use poqi.Prelude.{
  length-drop-le, ℕ, zero, suc, ◌≤◌, ◌<◌, ◌≡◌, refl, ap, Option, some, List, [], ◌∷◌, arith, length,
  drop, Bool-cases, Option-cases, inl, inr,
}
use poqi.WithClause.Token.{WithToken}
use poqi.WithClause.Lexer.{
  consume_word, consume_quoted_identifier, skip_line_comment, skip_block_comment, skip_single_quote,
  skip_to_delimiter, skip_dollar_quote, parse_dollar_delimiter, Lexed, token, skip, lex_step,
  lex_fuel, lex, is_identifier_char, cons_token, continue,
}

consume_word-le : (cs : List ℕ) → length (consume_word cs).1 ≤ length cs
unfolding consume_word
consume_word-le [] = omega arith
consume_word-le (c ∷ cs) = elim (Bool-cases (is_identifier_char c)) [
  | inl y ↦ rw y (omega (arith, consume_word-le cs))
  | inr n ↦ rw n (omega arith)
]

consume_quoted_identifier-le : (cs : List ℕ) → length (consume_quoted_identifier cs).1 ≤ length cs
unfolding consume_quoted_identifier
consume_quoted_identifier-le [] = omega arith
consume_quoted_identifier-le (a ∷ []) = omega arith
consume_quoted_identifier-le (a ∷ b ∷ cs) =
    ground (arith, consume_quoted_identifier-le cs, consume_quoted_identifier-le (b ∷ cs))

skip_line_comment-le : (cs : List ℕ) → length (skip_line_comment cs) ≤ length cs
unfolding skip_line_comment
skip_line_comment-le [] = omega arith
skip_line_comment-le (c ∷ cs) = ground (arith, skip_line_comment-le cs)

skip_block_comment-le : (d : ℕ) (cs : List ℕ) → length (skip_block_comment d cs) ≤ length cs
unfolding skip_block_comment
skip_block_comment-le zero cs = omega arith
skip_block_comment-le (suc d) [] = omega arith
skip_block_comment-le (suc d) (a ∷ []) = omega arith
skip_block_comment-le (suc d) (a ∷ b ∷ cs) = ground (
  arith,
  skip_block_comment-le (suc (suc d)) cs,
  skip_block_comment-le d cs,
  skip_block_comment-le (suc d) (b ∷ cs),
)

skip_single_quote-le : (cs : List ℕ) → length (skip_single_quote cs) ≤ length cs
unfolding skip_single_quote
skip_single_quote-le [] = omega arith
skip_single_quote-le (a ∷ []) = omega arith
skip_single_quote-le (a ∷ b ∷ cs) =
    ground (arith, skip_single_quote-le cs, skip_single_quote-le (b ∷ cs))

skip_to_delimiter-le : (d cs : List ℕ) → length (skip_to_delimiter d cs) ≤ length cs
unfolding skip_to_delimiter
skip_to_delimiter-le d [] = omega arith
skip_to_delimiter-le d (c ∷ cs) =
    ground (arith, skip_to_delimiter-le d cs, length-drop-le (length d) (c ∷ cs))

skip_dollar_quote-le : (cs : List ℕ) → length (skip_dollar_quote cs) ≤ length cs
unfolding skip_dollar_quote
skip_dollar_quote-le cs = elim (Option-cases (parse_dollar_delimiter cs)) [
  | inl e ↦ rw (e, skip_dollar_quote) (omega arith)
  | inr (d, e) ↦
      rw (e, skip_dollar_quote)
        (omega (
          arith,
          skip_to_delimiter-le (b'$' ∷ d) (drop (length d) cs),
          length-drop-le (length d) cs,
        ))
]

-- The bytes behind a round.
abbrev rest_of : Lexed → List ℕ
rest_of (token t cs) = cs
rest_of (skip cs) = cs

lex_step-le : (c : ℕ) (cs : List ℕ) → length (rest_of (lex_step c cs)) ≤ length cs
unfolding lex_step
lex_step-le c cs = ground (
  arith,
  skip_line_comment-le (drop 1 cs),
  skip_block_comment-le 1 (drop 1 cs),
  length-drop-le 1 cs,
  skip_single_quote-le cs,
  skip_dollar_quote-le cs,
  consume_quoted_identifier-le cs,
  consume_word-le cs,
)

cons_token-some :
    (t : WithToken) (o : Option (List WithToken))
    → ((ts : List WithToken) × (o ≡ some ts))
    → (ts : List WithToken) × (cons_token t o ≡ some ts)
cons_token-some t o (ts, e) = (t ∷ ts, rw e)

continue-total :
    (l : Lexed) (next : List ℕ → Option (List WithToken))
    → ((ts : List WithToken) × (next (rest_of l) ≡ some ts))
    → (ts : List WithToken) × (continue l next ≡ some ts)
continue-total (token t rest) next h = cons_token-some t (next rest) h
continue-total (skip rest) next h = h

lex_fuel-total :
    (fuel : ℕ) (cs : List ℕ)
    → length cs < fuel
    → (ts : List WithToken) × (lex_fuel fuel cs ≡ some ts)
unfolding lex_fuel
lex_fuel-total zero cs h = absurd (omega arith)
lex_fuel-total (suc fuel) [] h = ([], refl)
lex_fuel-total (suc fuel) (c ∷ cs) h =
    continue-total (lex_step c cs) (λ rest. lex_fuel fuel rest)
      (lex_fuel-total fuel (rest_of (lex_step c cs)) (omega (arith, lex_step-le c cs)))

-- The lexer ends on every input.
pub lex-total : (input : List ℕ) → (ts : List WithToken) × (lex input ≡ some ts)
unfolding lex
lex-total input = lex_fuel-total (suc (length input)) input (omega arith)

continue_agree :
    (l : Lexed) (f g : List ℕ → Option (List WithToken))
    → f (rest_of l) ≡ g (rest_of l)
    → continue l f ≡ continue l g
continue_agree (token t rest) f g h = ap (cons_token t) h
continue_agree (skip rest) f g h = h

-- Any fuel above the length gives the same tokens.
lex_fuel-enough :
    (f g : ℕ) (cs : List ℕ) → length cs < f → length cs < g → lex_fuel f cs ≡ lex_fuel g cs
unfolding lex_fuel
lex_fuel-enough zero g cs h k = absurd (omega arith)
lex_fuel-enough (suc f) zero cs h k = absurd (omega arith)
lex_fuel-enough (suc f) (suc g) [] h k = refl
lex_fuel-enough (suc f) (suc g) (c ∷ cs) h k =
    continue_agree (lex_step c cs) (λ rest. lex_fuel f rest) (λ rest. lex_fuel g rest)
      (lex_fuel-enough f g (rest_of (lex_step c cs)) (omega (arith, lex_step-le c cs))
        (omega (arith, lex_step-le c cs)))

-- One round at a time.
pub lex-cons : (c : ℕ) (cs : List ℕ) → lex (c ∷ cs) ≡ continue (lex_step c cs) (λ rest. lex rest)
unfolding lex
lex-cons c cs =
    continue_agree (lex_step c cs) (λ rest. lex_fuel (suc (length cs)) rest) (λ rest. lex rest)
      (lex_fuel-enough (suc (length cs)) (suc (length (rest_of (lex_step c cs))))
        (rest_of (lex_step c cs)) (omega (arith, lex_step-le c cs)) (omega arith))

pub lex-nil : lex [] ≡ some []
unfolding lex
lex-nil = refl
