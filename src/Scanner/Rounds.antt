-- ===== src/Scanner/Rounds.antt =====
-- The rounds of the scan as steps from a state and a rest to the next, and what a round does in a
-- text or a comment (crates/search/completion/src/analyzer/scan.rs).
use poqi.Prelude.{
  ◌-◌, lt→ltb, ℕ, zero, suc, ◌+◌, ◌≤◌, ◌<◌, ◌≡◌, refl, ap, ◌∙◌, true, false, none, some, List, [],
  ◌∷◌, ◌++◌, ◌==◌, arith, length, drop, if_false, if_true, ◌&&◌,
}
use poqi.TextInput.Utf8.{Line}
use poqi.WithClause.Token.{has_prefix}
use poqi.QueryScope.Lexer.{CharTables, next_is}
use poqi.Scanner.Pieces.{OpensNothing}
use poqi.Scanner.Machine.{
  with_dollar, parse_dollar_delimiter, consume_dollar, in_dollar, delimiter_end, consume_token,
  consume_single_quote, consume_double_quote, open_text, consume_block_comment,
  skip_comment_or_quote, ScanState, scan_step, scan_fuel, resume, scan_new,
}

abbrev pub plain : List Line → ScanState
plain ts = record scan_new { tokens = ts }

abbrev pub single : List Line → ScanState
single ts = record scan_new { tokens = ts; in_single = true }

abbrev pub double : List Line → ScanState
double ts = record scan_new { tokens = ts; in_double = true }

abbrev pub line : List Line → ScanState
line ts = record scan_new { tokens = ts; in_line_comment = true }

abbrev pub block : List Line → ℕ → ScanState
block ts depth = record scan_new { tokens = ts; block_depth = depth }

abbrev pub dollar : List Line → Line → ScanState
dollar ts delim = record scan_new { tokens = ts; dollar_delim = some delim }

module _ (u : CharTables) (after : Line) where
  -- The rounds from a state and a rest end in a state.
  pub data Runs : ScanState → Line → ScanState → Type 0 where
    done : {s : ScanState} → Runs s [] s
    round :
        {s t r : ScanState} {c : ℕ} {cs ds : Line}
        → scan_step u after c cs s ≡ (t, ds)
        → length ds ≤ length cs
        → Runs t ds r
        → Runs s (c ∷ cs) r

  pub scan_fuel-Runs :
      (f : ℕ) (s : ScanState) (cs : Line) (r : ScanState)
      → Runs s cs r
      → length cs < f
      → scan_fuel u after f cs s ≡ some r
  unfolding scan_fuel
  scan_fuel-Runs zero s cs r w h = absurd (omega arith)
  scan_fuel-Runs (suc f) s [] _ done h = refl
  scan_fuel-Runs (suc f) s (c ∷ cs) r (round {t = t} {ds = ds} e l w) h =
      ap (λ (x : ScanState × Line). resume x (λ rest t. scan_fuel u after f rest t)) e
      ∙ scan_fuel-Runs f t ds r w (omega (arith, l, h))

  pub step_single-other :
      (ts : List Line) (c : ℕ) (cs : Line)
      → (c == b'\'') ≡ false
      → scan_step u after c cs (single ts) ≡ (single ts, cs)
  unfolding scan_step skip_comment_or_quote consume_single_quote
  step_single-other ts c cs h = if_false (c == b'\'') _ _ h

  pub step_single-doubled :
      (ts : List Line) (cs : Line)
      → scan_step u after b'\'' (b'\'' ∷ cs) (single ts) ≡ (single ts, cs)
  unfolding scan_step skip_comment_or_quote consume_single_quote
  step_single-doubled ts cs = refl

  pub step_single-end :
      (ts : List Line) (cs : Line)
      → next_is b'\'' cs ≡ false
      → scan_step u after b'\'' cs (single ts) ≡ (plain ts, cs)
  unfolding scan_step skip_comment_or_quote consume_single_quote
  step_single-end ts cs h = if_false (next_is b'\'' cs) _ _ h

  pub step_double-other :
      (ts : List Line) (c : ℕ) (cs : Line)
      → (c == b'"') ≡ false
      → scan_step u after c cs (double ts) ≡ (double ts, cs)
  unfolding scan_step skip_comment_or_quote consume_double_quote
  step_double-other ts c cs h = if_false (c == b'"') _ _ h

  pub step_double-doubled :
      (ts : List Line) (cs : Line)
      → scan_step u after b'"' (b'"' ∷ cs) (double ts) ≡ (double ts, cs)
  unfolding scan_step skip_comment_or_quote consume_double_quote
  step_double-doubled ts cs = refl

  pub step_double-end :
      (ts : List Line) (cs : Line)
      → next_is b'"' cs ≡ false
      → scan_step u after b'"' cs (double ts) ≡ (plain ts, cs)
  unfolding scan_step skip_comment_or_quote consume_double_quote
  step_double-end ts cs h = if_false (next_is b'"' cs) _ _ h

  pub step_line-other :
      (ts : List Line) (c : ℕ) (cs : Line)
      → (c == 10) ≡ false
      → scan_step u after c cs (line ts) ≡ (line ts, cs)
  unfolding scan_step skip_comment_or_quote
  step_line-other ts c cs h = if_false (c == 10) _ _ h

  pub step_line-end :
      (ts : List Line) (cs : Line) → scan_step u after 10 cs (line ts) ≡ (plain ts, cs)
  unfolding scan_step skip_comment_or_quote
  step_line-end ts cs = refl

  pub step_block :
      (ts : List Line) (n c : ℕ) (cs : Line)
      → scan_step u after c cs (block ts (suc n)) ≡ consume_block_comment c cs (block ts (suc n))
  unfolding scan_step skip_comment_or_quote
  step_block ts n c cs = rw (lt→ltb 0 (suc n) (omega arith)) refl

  pub step_block-deeper :
      (ts : List Line) (n : ℕ) (cs : Line)
      → scan_step u after b'/' (b'*' ∷ cs) (block ts (suc n)) ≡ (block ts (suc (suc n)), cs)
  unfolding consume_block_comment
  step_block-deeper ts n cs =
      let e : suc n + 1 ≡ suc (suc n) = omega arith in
      step_block ts n b'/' (b'*' ∷ cs) ∙ ap (λ (d : ℕ). (block ts d, cs)) e

  pub step_block-end :
      (ts : List Line) (n : ℕ) (cs : Line)
      → scan_step u after b'*' (b'/' ∷ cs) (block ts (suc n)) ≡ (block ts n, cs)
  unfolding consume_block_comment
  step_block-end ts n cs =
      let e : suc n - 1 ≡ n = omega arith in
      step_block ts n b'*' (b'/' ∷ cs) ∙ ap (λ (d : ℕ). (block ts d, cs)) e

  pub step_block-other :
      (ts : List Line) (n c : ℕ) (cs : Line)
      → ((c == b'/') && next_is b'*' cs) ≡ false
      → ((c == b'*') && next_is b'/' cs) ≡ false
      → scan_step u after c cs (block ts (suc n)) ≡ (block ts (suc n), cs)
  unfolding consume_block_comment
  step_block-other ts n c cs h k = step_block ts n c cs ∙ rw (h, k) refl

  pub step_dollar-other :
      (ts : List Line) (d : Line) (c : ℕ) (cs : Line)
      → has_prefix (c ∷ cs) d ≡ false
      → scan_step u after c cs (dollar ts d) ≡ (dollar ts d, cs)
  unfolding scan_step skip_comment_or_quote in_dollar consume_dollar
  step_dollar-other ts d c cs h = if_false (has_prefix (c ∷ cs) d) _ _ h

  pub step_dollar-end :
      (ts : List Line) (d : Line) (c : ℕ) (cs : Line)
      → has_prefix (c ∷ cs) d ≡ true
      → scan_step u after c cs (dollar ts d) ≡ (plain ts, drop (length d) (c ∷ cs))
  unfolding scan_step skip_comment_or_quote in_dollar consume_dollar
  step_dollar-end ts d c cs h = if_true (has_prefix (c ∷ cs) d) _ _ h

  pub step_plain-single :
      (ts : List Line) (cs : Line) → scan_step u after b'\'' cs (plain ts) ≡ (single ts, cs)
  unfolding scan_step skip_comment_or_quote in_dollar open_text
  step_plain-single ts cs = refl

  pub step_plain-double :
      (ts : List Line) (cs : Line) → scan_step u after b'"' cs (plain ts) ≡ (double ts, cs)
  unfolding scan_step skip_comment_or_quote in_dollar open_text
  step_plain-double ts cs = refl

  pub step_plain-line :
      (ts : List Line) (cs : Line) → scan_step u after b'-' (b'-' ∷ cs) (plain ts) ≡ (line ts, cs)
  unfolding scan_step skip_comment_or_quote in_dollar open_text
  step_plain-line ts cs = refl

  pub step_plain-statement :
      (ts : List Line) (cs : Line) → scan_step u after b';' cs (plain ts) ≡ (plain [], cs)
  unfolding scan_step skip_comment_or_quote in_dollar open_text consume_token
  step_plain-statement ts cs = refl

  pub step_plain-block :
      (ts : List Line) (cs : Line)
      → scan_step u after b'/' (b'*' ∷ cs) (plain ts) ≡ (block ts 1, cs)
  unfolding scan_step skip_comment_or_quote in_dollar open_text
  step_plain-block ts cs = refl

  parse_dollar_delimiter-some :
      (tag cs : Line)
      → delimiter_end u cs ≡ some tag
      → parse_dollar_delimiter u cs ≡ some (b'$' ∷ tag)
  unfolding parse_dollar_delimiter
  parse_dollar_delimiter-some tag cs h = ap with_dollar h

  pub step_plain-delimiter :
      (ts : List Line) (d cs : Line)
      → parse_dollar_delimiter u (cs ++ after) ≡ some d
      → scan_step u after b'$' cs (plain ts) ≡ (dollar ts d, drop (length d - 1) cs)
  unfolding scan_step skip_comment_or_quote in_dollar open_text
  step_plain-delimiter ts d cs h = rw h refl

  pub step_plain-dollar :
      (ts : List Line) (tag cs : Line)
      → delimiter_end u (cs ++ after) ≡ some tag
      → scan_step u after b'$' cs (plain ts) ≡ (dollar ts (b'$' ∷ tag), drop (length tag) cs)
  step_plain-dollar ts tag cs h =
      let e : suc (length tag) - 1 ≡ length tag = omega arith in
      step_plain-delimiter ts (b'$' ∷ tag) cs (parse_dollar_delimiter-some tag (cs ++ after) h)
      ∙ ap (λ (n : ℕ). (dollar ts (b'$' ∷ tag), drop n cs)) e

  pub step_plain-token :
      (ts : List Line) (c : ℕ) (cs : Line) (r : ScanState × Line)
      → OpensNothing c cs
      → consume_token u after c cs (plain ts) ≡ some r
      → scan_step u after c cs (plain ts) ≡ r
  unfolding scan_step skip_comment_or_quote in_dollar open_text
  step_plain-token ts c cs r (h, k, l, m, n) e = rw (h, k, l, m, n, e) refl

  pub step_plain-sign :
      (ts : List Line) (c : ℕ) (cs : Line)
      → OpensNothing c cs
      → consume_token u after c cs (plain ts) ≡ none
      → scan_step u after c cs (plain ts) ≡ (plain ts, cs)
  unfolding scan_step skip_comment_or_quote in_dollar open_text
  step_plain-sign ts c cs (h, k, l, m, n) e = rw (h, k, l, m, n, e) refl
