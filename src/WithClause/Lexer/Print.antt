-- ===== src/WithClause/Lexer/Print.antt =====
-- Printing tokens and reading them back, and what a string literal yields.
use poqi.Prelude.{
  ℕ, ◌≡◌, refl, ap, ◌∙◌, true, false, some, List, [], ◌∷◌, ◌++◌, ◌==◌, arith, append_assoc,
  if◌then◌else◌, Bool-cases, inl, inr,
}
use poqi.WithClause.Token.{WithToken, word, open_paren, close_paren, comma}
use poqi.WithClause.Lexer.{
  consume_word, skip_single_quote, token, lex_step, lex, is_space, is_identifier_start,
  is_identifier_char, next_is, cons_token, word_from,
}
use poqi.WithClause.Lexer.Total.{lex-cons, lex-nil}

abbrev AllIdentifier : List ℕ → Type 0
AllIdentifier [] = Unit {0}
AllIdentifier (c ∷ cs) = (is_identifier_char c ≡ true) × AllIdentifier cs

-- A plain identifier: a letter or `_`, and letters, digits, `_` and `$`.
abbrev IsIdentifier : List ℕ → Type 0
IsIdentifier [] = ⊥
IsIdentifier (c ∷ cs) = (is_identifier_start c ≡ true) × AllIdentifier cs

abbrev Printable : WithToken → Type 0
Printable (word w) = IsIdentifier w
Printable _ = Unit {0}

abbrev pub AllPrintable : List WithToken → Type 0
AllPrintable [] = Unit {0}
AllPrintable (t ∷ ts) = Printable t × AllPrintable ts

-- A token as it is written, with a space behind it.
abbrev print : WithToken → List ℕ
print (word w) = w ++ b' ' ∷ []
print open_paren = b'(' ∷ b' ' ∷ []
print close_paren = b')' ∷ b' ' ∷ []
print comma = b',' ∷ b' ' ∷ []

abbrev pub print_all : List WithToken → List ℕ
print_all [] = []
print_all (t ∷ ts) = print t ++ print_all ts

consume_word-print :
    (w rest : List ℕ) → AllIdentifier w → consume_word (w ++ b' ' ∷ rest) ≡ (w, b' ' ∷ rest)
unfolding consume_word
consume_word-print [] rest h = unfold is_identifier_char in refl
consume_word-print (c ∷ w) rest (h, hs) = rw (h, consume_word-print w rest hs)

-- An identifier's first character starts a word, and nothing else.
lex_step-identifier :
    (c : ℕ) (cs : List ℕ)
    → is_identifier_start c ≡ true
    → lex_step c cs ≡ word_from (c ∷ []) (consume_word cs)
unfolding lex_step is_identifier_start is_space
lex_step-identifier c cs h = ground arith

lex_space : (rest : List ℕ) → lex (b' ' ∷ rest) ≡ lex rest
lex_space rest = lex-cons b' ' rest ∙ (unfold lex_step is_space in refl)

lex_punctuation :
    (c : ℕ) (t : WithToken) (rest : List ℕ)
    → lex_step c (b' ' ∷ rest) ≡ token t (b' ' ∷ rest)
    → lex (c ∷ b' ' ∷ rest) ≡ cons_token t (lex rest)
lex_punctuation c t rest e = lex-cons c (b' ' ∷ rest) ∙ rw e (ap (cons_token t) (lex_space rest))

lex_word :
    (c : ℕ) (w rest : List ℕ)
    → is_identifier_start c ≡ true
    → AllIdentifier w
    → lex (c ∷ (w ++ b' ' ∷ rest)) ≡ cons_token (word (c ∷ w)) (lex rest)
lex_word c w rest h hs =
    lex-cons c (w ++ b' ' ∷ rest)
    ∙ rw (lex_step-identifier c (w ++ b' ' ∷ rest) h, consume_word-print w rest hs)
        (ap (cons_token (word (c ∷ w))) (lex_space rest))

lex-print :
    (t : WithToken) (rest : List ℕ) → Printable t → lex (print t ++ rest) ≡ cons_token t (lex rest)
lex-print (word []) rest h = absurd h
lex-print (word (c ∷ w)) rest (h, hs) =
    rw (append_assoc w (b' ' ∷ []) rest) (lex_word c w rest h hs)
lex-print open_paren rest h = lex_punctuation b'(' open_paren rest (unfold lex_step in refl)
lex-print close_paren rest h = lex_punctuation b')' close_paren rest (unfold lex_step in refl)
lex-print comma rest h = lex_punctuation b',' comma rest (unfold lex_step in refl)

-- The lexer reads back every list of tokens whose words are plain identifiers.
pub lex-print_all : (ts : List WithToken) → AllPrintable ts → lex (print_all ts) ≡ some ts
lex-print_all [] h = lex-nil
lex-print_all (t ∷ ts) (h, hs) =
    lex-print t (print_all ts) h ∙ ap (cons_token t) (lex-print_all ts hs)

-- The inside of a string literal, with each quote doubled.
abbrev pub escape_quotes : List ℕ → List ℕ
escape_quotes [] = []
escape_quotes (c ∷ cs) =
    let rest = escape_quotes cs in if c == b'\'' then b'\'' ∷ b'\'' ∷ rest else c ∷ rest

skip_single_quote-doubled :
    (cs : List ℕ) → skip_single_quote (b'\'' ∷ b'\'' ∷ cs) ≡ skip_single_quote cs
unfolding skip_single_quote
skip_single_quote-doubled cs = refl

skip_single_quote-end :
    (rest : List ℕ) → next_is b'\'' rest ≡ false → skip_single_quote (b'\'' ∷ rest) ≡ rest
unfolding skip_single_quote
skip_single_quote-end [] h = refl
skip_single_quote-end (c ∷ rest) h = ground arith

-- Behind a character that is no quote the scan goes on, whatever the rest is.
skip_single_quote-other :
    (c : ℕ) (cs : List ℕ) → (c == b'\'') ≡ false → skip_single_quote (c ∷ cs) ≡ skip_single_quote cs
unfolding skip_single_quote
skip_single_quote-other c [] n = refl
skip_single_quote-other c (b ∷ cs) n = ground arith

skip_single_quote-literal :
    (body rest : List ℕ)
    → next_is b'\'' rest ≡ false
    → skip_single_quote (escape_quotes body ++ b'\'' ∷ rest) ≡ rest
skip_single_quote-literal [] rest h = skip_single_quote-end rest h
skip_single_quote-literal (c ∷ body) rest h = elim (Bool-cases (c == b'\'')) [
  | inl y ↦ rw y (skip_single_quote-doubled _ ∙ skip_single_quote-literal body rest h)
  | inr n ↦ rw n (skip_single_quote-other c _ n ∙ skip_single_quote-literal body rest h)
]

-- A string literal yields no token, whatever text it holds: parentheses, commas and keywords in
-- it are not seen.
pub lex-literal :
    (body rest : List ℕ)
    → next_is b'\'' rest ≡ false
    → lex (b'\'' ∷ (escape_quotes body ++ b'\'' ∷ rest)) ≡ lex rest
unfolding lex_step
lex-literal body rest h =
    lex-cons b'\'' (escape_quotes body ++ b'\'' ∷ rest)
    ∙ ap lex (skip_single_quote-literal body rest h)
