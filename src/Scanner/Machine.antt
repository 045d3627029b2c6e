-- ===== src/Scanner/Machine.antt =====
-- `ScanState` and its steps (crates/search/completion/src/analyzer/scan.rs). Its index is the end of
-- the text before the cursor less the rest of that text. In a text or a comment the code goes on by
-- a byte and here by a character: the other bytes of a character are never those that it looks for.
-- The Unicode tables are an argument.
use poqi.Prelude.{
  ℕ, zero, suc, ◌+◌, ◌-◌, ◌/◌, ◌%◌, Bool, true, false, ◌&&◌, ◌||◌, Option, none, some, List, [],
  ◌∷◌, ◌++◌, ◌==◌, leb, ltb, if◌then◌else◌, length, drop, is_whitespace,
}
use poqi.TextInput.Utf8.{Line, len_utf8}
use poqi.WithClause.Token.{has_prefix, lower}
use poqi.QueryScope.Lexer.{CharTables, next_is, cons_fst}

pub record SqlScan : Type 0 where
  pub tokens : List Line
  pub suppressed : Bool

pub record ScanState : Type 0 where
  pub tokens : List Line
  pub in_single : Bool
  pub in_double : Bool
  pub in_line_comment : Bool
  pub block_depth : ℕ
  pub dollar_delim : Option Line

abbrev pub scan_new : ScanState
scan_new = record {
  tokens = [];
  in_single = false;
  in_double = false;
  in_line_comment = false;
  block_depth = 0;
  dollar_delim = none;
}

-- The bytes of a character.
abbrev pub utf8_bytes : ℕ → List ℕ
utf8_bytes c =
    if ltb c 0x80
    then c ∷ []
    else if ltb c 0x800
    then (0xC0 + c / 64) ∷ (0x80 + c % 64) ∷ []
    else if ltb c 0x10000
    then (0xE0 + c / 4096) ∷ (0x80 + (c / 64) % 64) ∷ (0x80 + c % 64) ∷ []
    else (0xF0 + c / 262144)
      ∷ (0x80 + (c / 4096) % 64)
      ∷ (0x80 + (c / 64) % 64)
      ∷ (0x80 + c % 64)
      ∷ []

-- The text before the cursor, which is put back to the character that it stands in, and the text
-- behind.
unfoldable pub split_cursor : Line → ℕ → Line × Line
unfolding len_utf8
split_cursor [] cursor = ([], [])
split_cursor (c ∷ cs) cursor =
    let rest = cons_fst c (split_cursor cs (cursor - len_utf8 c)) in
    if leb (len_utf8 c) cursor then rest else ([], c ∷ cs)

unfoldable pub consume_block_comment : ℕ → Line → ScanState → ScanState × Line
consume_block_comment c cs s =
    if (c == b'/') && next_is b'*' cs
    then (record s { block_depth = s.block_depth + 1 }, drop 1 cs)
    else if (c == b'*') && next_is b'/' cs
    then (record s { block_depth = s.block_depth - 1 }, drop 1 cs)
    else (s, cs)

unfoldable pub consume_single_quote : ℕ → Line → ScanState → ScanState × Line
consume_single_quote c cs s =
    if c == b'\''
    then if next_is b'\'' cs then (s, drop 1 cs) else (record s { in_single = false }, cs)
    else (s, cs)

unfoldable pub consume_double_quote : ℕ → Line → ScanState → ScanState × Line
consume_double_quote c cs s =
    if c == b'"'
    then if next_is b'"' cs then (s, drop 1 cs) else (record s { in_double = false }, cs)
    else (s, cs)

abbrev pub consume_line_comment : ℕ → Line → ScanState → ScanState × Line
consume_line_comment c cs s =
    if c == 10 then (record s { in_line_comment = false }, cs) else (s, cs)

unfoldable pub consume_dollar : Line → ℕ → Line → ScanState → ScanState × Line
unfolding has_prefix
consume_dollar delim c cs s =
    if has_prefix (c ∷ cs) delim
    then (record s { dollar_delim = none }, drop (length delim) (c ∷ cs))
    else (s, cs)

abbrev pub is_suppressed : ScanState → Bool
is_suppressed s =
    s.in_single
    || (s.in_double
        || (s.in_line_comment
            || (ltb 0 s.block_depth || elim s.dollar_delim [ none ↦ false | some d ↦ true ])))

abbrev pub with_dollar : Option Line → Option Line
with_dollar none = none
with_dollar (some d) = some (b'$' ∷ d)

abbrev pub open_dollar : Option Line → Line → ScanState → Option (ScanState × Line)
open_dollar none cs s = none
open_dollar (some delim) cs s =
    some (record s { dollar_delim = some delim }, drop (length delim - 1) cs)

abbrev pub push_word : Line × Line → ScanState → Option (ScanState × Line)
push_word (word, rest) s = some (record s { tokens = s.tokens ++ lower word ∷ [] }, rest)

abbrev pub first_of :
    Option (ScanState × Line) → Option (ScanState × Line) → ScanState × Line → ScanState × Line
first_of (some r) o end = r
first_of none (some r) end = r
first_of none none end = end

abbrev pub resume : ScanState × Line → (Line → ScanState → Option ScanState) → Option ScanState
resume (s, rest) next = next rest s

abbrev pub scanned : Option ScanState → Option SqlScan
scanned none = none
scanned (some s) = some (record { tokens = s.tokens; suppressed = is_suppressed s })

module _ (u : CharTables) where
  unfoldable pub is_identifier_char : ℕ → Bool
  is_identifier_char c = u.alphabetic c || (u.numeric c || ((c == b'_') || (c == b'$')))

  unfoldable pub is_identifier_start : ℕ → Bool
  is_identifier_start c = u.alphabetic c || (c == b'_')

  -- The code reads each byte as a character.
  abbrev pub all_identifier : List ℕ → Bool
  all_identifier [] = true
  all_identifier (b ∷ bs) = is_identifier_char b && all_identifier bs

  -- Behind a dollar sign: the text up to the next one, with it.
  unfoldable pub delimiter_end : Line → Option Line
  unfolding is_identifier_char
  delimiter_end [] = none
  delimiter_end (c ∷ cs) =
      let rest = delimiter_end cs in
      if c == b'$'
      then some (c ∷ [])
      else if all_identifier (utf8_bytes c)
      then elim rest [ none ↦ none | some d ↦ some (c ∷ d) ]
      else none

  unfoldable pub parse_dollar_delimiter : Line → Option Line
  unfolding delimiter_end
  parse_dollar_delimiter cs = with_dollar (delimiter_end cs)

  -- The rest of an identifier, and the text behind it.
  unfoldable pub identifier_run : Line → Line × Line
  unfolding is_identifier_char
  identifier_run [] = ([], [])
  identifier_run (c ∷ cs) =
      let more = cons_fst c (identifier_run cs) in
      if is_identifier_char c then more else ([], c ∷ cs)

  module _ (after : Line) where
    -- Where a text or a comment begins.
    unfoldable pub open_text : ℕ → Line → ScanState → Option (ScanState × Line)
    unfolding parse_dollar_delimiter
    open_text c cs s =
        if (c == b'-') && next_is b'-' cs
        then some (record s { in_line_comment = true }, drop 1 cs)
        else if (c == b'/') && next_is b'*' cs
        then some (record s { block_depth = s.block_depth + 1 }, drop 1 cs)
        else if c == b'\''
        then some (record s { in_single = true }, cs)
        else if c == b'"'
        then some (record s { in_double = true }, cs)
        else if c == b'$'
        then open_dollar (parse_dollar_delimiter (cs ++ after)) cs s
        else none

    unfoldable pub in_dollar : Option Line → ℕ → Line → ScanState → Option (ScanState × Line)
    unfolding open_text consume_dollar
    in_dollar none c cs s = open_text c cs s
    in_dollar (some delim) c cs s = some (consume_dollar delim c cs s)

    unfoldable pub skip_comment_or_quote : ℕ → Line → ScanState → Option (ScanState × Line)
    unfolding consume_block_comment consume_single_quote consume_double_quote in_dollar
    skip_comment_or_quote c cs s =
        if s.in_line_comment
        then some (consume_line_comment c cs s)
        else if ltb 0 s.block_depth
        then some (consume_block_comment c cs s)
        else if s.in_single
        then some (consume_single_quote c cs s)
        else if s.in_double
        then some (consume_double_quote c cs s)
        else in_dollar s.dollar_delim c cs s

    unfoldable pub consume_token : ℕ → Line → ScanState → Option (ScanState × Line)
    unfolding is_whitespace is_identifier_start identifier_run
    consume_token c cs s =
        if c == b';'
        then some (record s { tokens = [] }, cs)
        else if is_whitespace c
        then some (s, cs)
        else if is_identifier_start c
        then push_word (cons_fst c (identifier_run cs)) s
        else none

    unfoldable pub scan_step : ℕ → Line → ScanState → ScanState × Line
    unfolding skip_comment_or_quote consume_token
    scan_step c cs s = first_of (skip_comment_or_quote c cs s) (consume_token c cs s) (s, cs)

    -- The rounds over the rest of the text before the cursor, on fuel; `none` means that it ran out.
    unfoldable pub scan_fuel : ℕ → Line → ScanState → Option ScanState
    unfolding scan_step
    scan_fuel zero cs s = none
    scan_fuel (suc fuel) [] s = some s
    scan_fuel (suc fuel) (c ∷ cs) s = resume (scan_step c cs s) (λ rest t. scan_fuel fuel rest t)

  unfoldable pub scan_halves : Line × Line → Option SqlScan
  unfolding scan_fuel
  scan_halves (before, after) = scanned (scan_fuel after (suc (length before)) before scan_new)

  unfoldable pub scan_sql : Line → ℕ → Option SqlScan
  unfolding split_cursor scan_halves
  scan_sql [] cursor = some (record { tokens = []; suppressed = false })
  scan_sql (c ∷ cs) cursor = scan_halves (split_cursor (c ∷ cs) cursor)
