-- ===== src/Scanner/Texts.antt =====
-- The rounds over a word, a text or a comment as it is written
-- (crates/search/completion/src/analyzer/scan.rs).
use poqi.Prelude.{
  ℕ, zero, suc, ◌≤◌, ◌≡◌, refl, ap, ◌∙◌, true, false, none, some, List, [], ◌∷◌, ◌++◌, ◌==◌, arith,
  length, drop, Bool-cases, inl, inr, eq_text_refl, length-append, is_whitespace,
}
use poqi.TextInput.Utf8.{Line}
use poqi.WithClause.Token.{has_prefix, lower}
use poqi.QueryScope.Lexer.{CharTables}
use poqi.Scanner.Machine.{
  ScanState, delimiter_end, identifier_run, is_identifier_start, consume_token,
}
use poqi.Scanner.Pieces.{
  Mark, deeper, shallower, inner, put_doubled, put_marks, tag_end, OpensNothing, NoSpace, OneLine,
  Nested, Hides, IsTag, WordEnds,
}
use poqi.Scanner.Rounds.{
  plain, single, double, line, block, dollar, Runs, round, step_single-other, step_single-doubled,
  step_double-other, step_double-doubled, step_line-other, step_block-deeper, step_block-end,
  step_block-other, step_dollar-other, step_dollar-end, step_plain-dollar,
}

length-drop-append : (d rest : Line) → drop (length d) (d ++ rest) ≡ rest
length-drop-append [] rest = refl
length-drop-append (c ∷ d) rest = length-drop-append d rest

has_prefix-append : (d rest : Line) → has_prefix (d ++ rest) d ≡ true
unfolding has_prefix
has_prefix-append [] rest = refl
has_prefix-append (c ∷ d) rest = rw (eq_text_refl (c ∷ [])) (has_prefix-append d rest)

length-append-le : (d rest : Line) → length rest ≤ length (d ++ rest)
length-append-le d rest = omega (arith, length-append d rest)

delimiter_end-tag :
    (u : CharTables) (tag rest after : Line)
    → IsTag u tag
    → delimiter_end u ((tag_end tag ++ rest) ++ after) ≡ some (tag_end tag)
unfolding delimiter_end
delimiter_end-tag u [] rest after h = refl
delimiter_end-tag u (c ∷ tag) rest after (h, k, hs) =
    rw (h, k, delimiter_end-tag u tag rest after hs) refl

identifier_run-WordEnds :
    (u : CharTables) (w rest : Line) → WordEnds u w rest → identifier_run u (w ++ rest) ≡ (w, rest)
unfolding identifier_run
identifier_run-WordEnds u [] [] h = refl
identifier_run-WordEnds u [] (c ∷ rest) h = rw h refl
identifier_run-WordEnds u (c ∷ w) rest (h, hs) = rw (h, identifier_run-WordEnds u w rest hs) refl

pub space-OpensNothing : (c : ℕ) (cs : Line) → is_whitespace c ≡ true → OpensNothing c cs
unfolding is_whitespace
space-OpensNothing c cs h = (ground arith, ground arith, ground arith, ground arith, ground arith)

module _ (u : CharTables) (after : Line) (ts : List Line) (c : ℕ) where
  pub consume_token-gap :
      (cs : Line)
      → is_whitespace c ≡ true
      → consume_token u after c cs (plain ts) ≡ some (plain ts, cs)
  unfolding consume_token is_whitespace
  consume_token-gap cs h = ground arith

  pub consume_token-sign :
      (cs : Line)
      → NoSpace c cs
      → is_identifier_start u c ≡ false
      → consume_token u after c cs (plain ts) ≡ none
  unfolding consume_token
  consume_token-sign cs (o, h, k) l = rw (h, k, l) refl

  pub consume_token-word :
      (w rest : Line)
      → NoSpace c (w ++ rest)
      → is_identifier_start u c ≡ true
      → WordEnds u w rest
      → consume_token u after c (w ++ rest) (plain ts)
        ≡ some (plain (ts ++ lower (c ∷ w) ∷ []), rest)
  unfolding consume_token
  consume_token-word w rest (o, h, k) l e = rw (h, k, l, identifier_run-WordEnds u w rest e) refl

module _ (u : CharTables) (after : Line) (r : ScanState) where
  abbrev Finishes : ScanState → Line → Type 0
  Finishes s cs = Runs u after s cs r

  pub goes_single :
      (ts : List Line) (body rest : Line)
      → Finishes (single ts) rest
      → Finishes (single ts) (put_doubled b'\'' body rest)
  goes_single ts [] rest g = g
  goes_single ts (c ∷ body) rest g =
      let more = goes_single ts body rest g in
      elim (Bool-cases (c == b'\'')) [
        | inl y ↦ rw y (round (step_single-doubled u after ts _) (omega arith) more)
        | inr n ↦ rw n (round (step_single-other u after ts c _ n) (omega arith) more)
      ]

  pub goes_double :
      (ts : List Line) (body rest : Line)
      → Finishes (double ts) rest
      → Finishes (double ts) (put_doubled b'"' body rest)
  goes_double ts [] rest g = g
  goes_double ts (c ∷ body) rest g =
      let more = goes_double ts body rest g in
      elim (Bool-cases (c == b'"')) [
        | inl y ↦ rw y (round (step_double-doubled u after ts _) (omega arith) more)
        | inr n ↦ rw n (round (step_double-other u after ts c _ n) (omega arith) more)
      ]

  pub goes_line :
      (ts : List Line) (body rest : Line)
      → OneLine body
      → Finishes (line ts) rest
      → Finishes (line ts) (body ++ rest)
  goes_line ts [] rest h g = g
  goes_line ts (c ∷ body) rest (h, hs) g =
      round (step_line-other u after ts c (body ++ rest) h) (omega arith)
        (goes_line ts body rest hs g)

  pub goes_block :
      (ts : List Line) (n m : ℕ) (ms : List Mark) (rest : Line)
      → Nested n m ms rest
      → Finishes (block ts (suc m)) rest
      → Finishes (block ts (suc n)) (put_marks ms rest)
  goes_block ts n m [] rest e g = rw e g
  goes_block ts n m (deeper ∷ ms) rest h g =
      round (step_block-deeper u after ts n (put_marks ms rest)) (omega arith)
        (goes_block ts (suc n) m ms rest h g)
  goes_block ts zero m (shallower ∷ ms) rest h g = absurd h
  goes_block ts (suc n) m (shallower ∷ ms) rest h g =
      round (step_block-end u after ts (suc n) (put_marks ms rest)) (omega arith)
        (goes_block ts n m ms rest h g)
  goes_block ts n m (inner c ∷ ms) rest h g =
      round (step_block-other u after ts n c (put_marks ms rest) h.0 h.1) (omega arith)
        (goes_block ts n m ms rest h.2 g)

  pub goes_dollar :
      (ts : List Line) (d body rest : Line)
      → Hides d body rest
      → Finishes (dollar ts d) rest
      → Finishes (dollar ts d) (body ++ rest)
  goes_dollar ts d [] rest h g = g
  goes_dollar ts d (c ∷ body) rest (h, hs) g =
      round (step_dollar-other u after ts d c (body ++ rest) h) (omega arith)
        (goes_dollar ts d body rest hs g)

  pub goes_tag :
      (ts : List Line) (tag rest : Line)
      → IsTag u tag
      → Finishes (dollar ts (b'$' ∷ tag_end tag)) rest
      → Finishes (plain ts) (b'$' ∷ (tag_end tag ++ rest))
  goes_tag ts tag rest h g =
      round
        (step_plain-dollar u after ts (tag_end tag) (tag_end tag ++ rest)
            (delimiter_end-tag u tag rest after h)
          ∙ ap (λ (x : Line). (dollar ts (b'$' ∷ tag_end tag), x))
              (length-drop-append (tag_end tag) rest))
        (length-append-le (tag_end tag) rest) g

  pub goes_tag_end :
      (ts : List Line) (d rest : Line)
      → Finishes (plain ts) rest
      → Finishes (dollar ts (b'$' ∷ d)) ((b'$' ∷ d) ++ rest)
  goes_tag_end ts d rest g =
      round
        (step_dollar-end u after ts (b'$' ∷ d) b'$' (d ++ rest) (has_prefix-append (b'$' ∷ d) rest)
          ∙ ap (λ (x : Line). (plain ts, x)) (length-drop-append (b'$' ∷ d) rest))
        (length-append-le d rest) g
