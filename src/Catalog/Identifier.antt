-- ===== src/Catalog/Identifier.antt =====
-- `QualifiedRelation` and `quote_identifier` (crates/catalog/src/lib.rs), and the readable form of
-- an identifier (crates/catalog/src/display.rs).
use poqi.Prelude.{
  ℕ, zero, suc, ◌+◌, ◌/◌, ◌%◌, Bool, false, ◌&&◌, ◌||◌, Option, none, some, [], ◌∷◌, ◌++◌, ◌==◌,
  leb, ltb, if◌then◌else◌,
}
use poqi.TextInput.Utf8.{Line}

pub record QualifiedRelation : Type 0 where
  pub schema : Option Line
  pub name : Line

-- `value.replace('"', "\"\"")`
unfoldable pub double_quotes : Line → Line
double_quotes [] = []
double_quotes (c ∷ cs) =
    let rest = double_quotes cs in if c == b'"' then b'"' ∷ b'"' ∷ rest else c ∷ rest

unfoldable pub quote_identifier : Line → Line
quote_identifier value = b'"' ∷ double_quotes value ++ b'"' ∷ []

abbrev with_schema : Option Line → Line → (Line → Line) → Line
with_schema none name show = show name
with_schema (some schema) name show = show schema ++ b'.' ∷ show name

unfoldable pub quoted : QualifiedRelation → Line
unfolding quote_identifier double_quotes
quoted r = with_schema r.schema r.name quote_identifier

-- `char::is_control`: the general category Cc
unfoldable pub is_control : ℕ → Bool
is_control c = ltb c 0x20 || (leb 0x7F c && leb c 0x9F)

unfoldable pub is_bidi_control : ℕ → Bool
is_bidi_control c =
    (c == 0x061C)
    || ((c == 0x200E)
        || ((c == 0x200F) || ((leb 0x202A c && leb c 0x202E) || (leb 0x2066 c && leb c 0x2069))))

abbrev pub hex_digit : ℕ → ℕ
hex_digit d = if ltb d 10 then b'0' + d else 55 + d

-- The hexadecimal digits of a number below 16 to the power of `width`, without leading zeros.
unfoldable pub hex : ℕ → ℕ → Line
hex zero n = []
hex (suc width) n =
    let front = hex width (n / 16) in if n == 0 then [] else front ++ hex_digit (n % 16) ∷ []

-- `{:04X}`
unfoldable pub hex_4 : ℕ → Line
unfolding hex
hex_4 n =
    if ltb n 0x10000
    then hex_digit (n / 4096 % 16)
      ∷ hex_digit (n / 256 % 16)
      ∷ hex_digit (n / 16 % 16)
      ∷ hex_digit (n % 16)
      ∷ []
    else hex 8 n

unfoldable pub escape : ℕ → Line
unfolding is_control is_bidi_control hex_4
escape c =
    if c == b'\\'
    then b'\\' ∷ b'\\' ∷ []
    else if is_control c || is_bidi_control c
    then b'\\' ∷ b'u' ∷ b'{' ∷ hex_4 c ++ b'}' ∷ []
    else c ∷ []

unfoldable pub display_identifier : Line → Line
unfolding escape
display_identifier [] = []
display_identifier (c ∷ cs) = escape c ++ display_identifier cs

unfoldable display_name : QualifiedRelation → Line
unfolding display_identifier quote_identifier double_quotes
display_name r = with_schema r.schema r.name λ n. quote_identifier (display_identifier n)

unfoldable pub identifier_requires_explicit_preview : Line → Bool
unfolding is_control is_bidi_control
identifier_requires_explicit_preview [] = false
identifier_requires_explicit_preview (c ∷ cs) =
    (is_control c || is_bidi_control c) || identifier_requires_explicit_preview cs

-- `is_some_and` on the schema
abbrev pub schema_requires : Option Line → Bool
schema_requires none = false
schema_requires (some schema) = identifier_requires_explicit_preview schema

unfoldable pub requires_explicit_preview : QualifiedRelation → Bool
unfolding identifier_requires_explicit_preview
requires_explicit_preview r =
    schema_requires r.schema || identifier_requires_explicit_preview r.name
