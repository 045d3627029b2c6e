-- ===== src/Scanner/Total.antt =====
-- The scan ends: a delimiter that it looks for is never empty, so each round passes a character over
-- (crates/search/completion/src/analyzer/scan.rs).
use poqi.Prelude.{
  length-drop-le, ltb, ℕ, zero, suc, ◌≤◌, ◌<◌, ◌≡◌, refl, ap, ◌∙◌, Bool, true, false, ◌&&◌, Option,
  none, some, [], ◌∷◌, ◌++◌, ◌==◌, arith, length, if◌then◌else◌, is_whitespace,
}
use poqi.TextInput.Utf8.{Line}
use poqi.WithClause.Token.{has_prefix}
use poqi.QueryScope.Lexer.{CharTables, next_is}
use poqi.Scanner.Machine.{
  SqlScan, ScanState, scan_new, is_suppressed, consume_block_comment, consume_single_quote,
  consume_double_quote, consume_line_comment, consume_dollar, with_dollar, open_dollar, first_of,
  scanned, identifier_run, is_identifier_start, delimiter_end, parse_dollar_delimiter, open_text,
  in_dollar, skip_comment_or_quote, consume_token, scan_step, scan_fuel, scan_halves, split_cursor,
  scan_sql,
}
use poqi.Scanner.Print.{scan_sql-halves}

abbrev Stands : Option Line → Type 0
Stands none = Unit {0}
Stands (some []) = ⊥
Stands (some (c ∷ d)) = Unit {0}

-- What a round leaves is no longer than `n`, and its delimiter is not empty.
abbrev Leaves : ℕ → Option (ScanState × Line) → Type 0
Leaves n none = Unit {0}
Leaves n (some (s, rest)) = (length rest ≤ n) × Stands s.dollar_delim

either-Leaves :
    (b : Bool) (x y : Option (ScanState × Line)) (n : ℕ)
    → Leaves n x
    → Leaves n y
    → Leaves n (if b then x else y)
either-Leaves true x y n h k = h
either-Leaves false x y n h k = k

-- The same for a round that is made in any case.
either-some :
    (b : Bool) (x y : ScanState × Line) (n : ℕ)
    → Leaves n (some x)
    → Leaves n (some y)
    → Leaves n (some (if b then x else y))
either-some true x y n h k = h
either-some false x y n h k = k

module _ (c : ℕ) (cs : Line) (s : ScanState) (stands : Stands s.dollar_delim) where
  consume_line_comment-Leaves : Leaves (length cs) (some (consume_line_comment c cs s))
  consume_line_comment-Leaves =
      either-some (c == 10) _ _ (length cs) (omega arith, stands) (omega arith, stands)

  consume_block_comment-Leaves : Leaves (length cs) (some (consume_block_comment c cs s))
  unfolding consume_block_comment
  consume_block_comment-Leaves =
      let n = length cs in
      either-some ((c == b'/') && next_is b'*' cs) _ _ n (length-drop-le 1 cs, stands)
        (either-some ((c == b'*') && next_is b'/' cs) _ _ n (length-drop-le 1 cs, stands)
          (omega arith, stands))

  consume_single_quote-Leaves : Leaves (length cs) (some (consume_single_quote c cs s))
  unfolding consume_single_quote
  consume_single_quote-Leaves =
      let n = length cs in
      either-some (c == b'\'') _ _ n
        (either-some (next_is b'\'' cs) _ _ n (length-drop-le 1 cs, stands) (omega arith, stands))
        (omega arith, stands)

  consume_double_quote-Leaves : Leaves (length cs) (some (consume_double_quote c cs s))
  unfolding consume_double_quote
  consume_double_quote-Leaves =
      let n = length cs in
      either-some (c == b'"') _ _ n
        (either-some (next_is b'"' cs) _ _ n (length-drop-le 1 cs, stands) (omega arith, stands))
        (omega arith, stands)

  consume_dollar-Leaves :
      (d : Line) → Stands (some d) → Leaves (length cs) (some (consume_dollar d c cs s))
  unfolding consume_dollar
  consume_dollar-Leaves [] h = absurd h
  consume_dollar-Leaves (x ∷ d) h =
      either-some (has_prefix (c ∷ cs) (x ∷ d)) _ _ (length cs) (length-drop-le (length d) cs, tt)
        (omega arith, stands)

first_of-Leaves :
    (o p : Option (ScanState × Line)) (e : ScanState × Line) (n : ℕ)
    → Leaves n o
    → Leaves n p
    → Leaves n (some e)
    → Leaves n (some (first_of o p e))
first_of-Leaves (some r) p e n h k l = h
first_of-Leaves none (some r) e n h k l = k
first_of-Leaves none none e n h k l = l

module _ (u : CharTables) where
  identifier_run-le : (cs : Line) → length (identifier_run u cs).1 ≤ length cs
  unfolding identifier_run
  identifier_run-le [] = omega arith
  identifier_run-le (c ∷ cs) = ground (arith, identifier_run-le cs)

  open_dollar-Leaves :
      (o : Option Line) (cs : Line) (s : ScanState)
      → Leaves (length cs) (open_dollar (with_dollar o) cs s)
  open_dollar-Leaves none cs s = tt
  open_dollar-Leaves (some d) cs s = (length-drop-le _ cs, tt)

  module _ (after : Line) (c : ℕ) (cs : Line) (s : ScanState) (stands : Stands s.dollar_delim) where
    open_text-Leaves : Leaves (length cs) (open_text u after c cs s)
    unfolding open_text parse_dollar_delimiter
    open_text-Leaves =
        let n = length cs in
        either-Leaves ((c == b'-') && next_is b'-' cs) _ _ n (length-drop-le 1 cs, stands)
          (either-Leaves ((c == b'/') && next_is b'*' cs) _ _ n (length-drop-le 1 cs, stands)
            (either-Leaves (c == b'\'') _ _ n (omega arith, stands)
              (either-Leaves (c == b'"') _ _ n (omega arith, stands)
                (either-Leaves (c == b'$') _ _ n
                  (open_dollar-Leaves (delimiter_end u (cs ++ after)) cs s) tt))))

    in_dollar-Leaves :
        (o : Option Line) → Stands o → Leaves (length cs) (in_dollar u after o c cs s)
    unfolding in_dollar
    in_dollar-Leaves none h = open_text-Leaves
    in_dollar-Leaves (some d) h = consume_dollar-Leaves c cs s stands d h

    skip_comment_or_quote-Leaves : Leaves (length cs) (skip_comment_or_quote u after c cs s)
    unfolding skip_comment_or_quote
    skip_comment_or_quote-Leaves =
        let n = length cs in
        either-Leaves s.in_line_comment _ _ n (consume_line_comment-Leaves c cs s stands) (
          either-Leaves (ltb 0 s.block_depth) _ _ n (consume_block_comment-Leaves c cs s stands) (
            either-Leaves s.in_single _ _ n (consume_single_quote-Leaves c cs s stands) (
              either-Leaves s.in_double _ _ n (consume_double_quote-Leaves c cs s stands)
                (in_dollar-Leaves s.dollar_delim stands))))

    consume_token-Leaves : Leaves (length cs) (consume_token u after c cs s)
    unfolding consume_token
    consume_token-Leaves =
        let n = length cs in
        either-Leaves (c == b';') _ _ n (omega arith, stands)
          (either-Leaves (is_whitespace c) _ _ n (omega arith, stands)
            (either-Leaves (is_identifier_start u c) _ _ n (identifier_run-le cs, stands) tt))

    scan_step-Leaves : Leaves (length cs) (some (scan_step u after c cs s))
    unfolding scan_step
    scan_step-Leaves =
        first_of-Leaves (skip_comment_or_quote u after c cs s) (consume_token u after c cs s)
          (s, cs) (length cs) skip_comment_or_quote-Leaves consume_token-Leaves
          (omega arith, stands)

  scan_fuel-total :
      (after : Line) (fuel : ℕ) (cs : Line) (s : ScanState)
      → Stands s.dollar_delim
      → length cs < fuel
      → (t : ScanState) × (scan_fuel u after fuel cs s ≡ some t)
  unfolding scan_fuel
  scan_fuel-total after zero cs s h l = absurd (omega arith)
  scan_fuel-total after (suc fuel) [] s h l = (s, refl)
  scan_fuel-total after (suc fuel) (c ∷ cs) s h l =
      let (shorter, stands) = scan_step-Leaves after c cs s h in
      scan_fuel-total after fuel (scan_step u after c cs s).1 (scan_step u after c cs s).0 stands
        (omega (arith, shorter))

  -- The scan of a buffer ends at any cursor, also at one behind its end or within a character: the
  -- delimiter of a quoted text is never empty, so each of its rounds passes a character over.
  pub scan_sql-terminates :
      (buffer : Line) (cursor : ℕ) → (r : SqlScan) × (scan_sql u buffer cursor ≡ some r)
  unfolding scan_halves
  scan_sql-terminates buffer cursor =
      let (before, after) = split_cursor buffer cursor in
      let (t, e) = scan_fuel-total after (suc (length before)) before scan_new tt (omega arith) in
      (
        record { tokens = t.tokens; suppressed = is_suppressed t },
        scan_sql-halves u buffer cursor ∙ ap scanned e,
      )
