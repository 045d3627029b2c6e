-- ===== src/WithClause/Token.antt =====
-- `WithToken` and its tests on words (crates/search/completion/src/start_keywords/with/lexer.rs).
-- A text is the list of its bytes.
use poqi.Prelude.{ℕ, ◌+◌, Bool, true, false, ◌&&◌, List, [], ◌∷◌, leb, eq_text, if◌then◌else◌, map}

pub data WithToken : Type 0 where
  word : List ℕ → WithToken
  open_paren close_paren comma : WithToken

-- `to_ascii_lowercase`
unfoldable pub to_lower : ℕ → ℕ
to_lower c = if leb b'A' c && leb c b'Z' then c + 32 else c

abbrev pub lower : List ℕ → List ℕ
lower w = map to_lower w

-- `eq_ignore_ascii_case`
unfoldable pub eq_ignore_case : List ℕ → List ℕ → Bool
unfolding to_lower
eq_ignore_case a b = eq_text (lower a) (lower b)

-- `str::starts_with`
unfoldable pub has_prefix : List ℕ → List ℕ → Bool
has_prefix text [] = true
has_prefix [] (p ∷ ps) = false
has_prefix (c ∷ cs) (p ∷ ps) = eq_text (c ∷ []) (p ∷ []) && has_prefix cs ps

abbrev is_word : WithToken → Bool
is_word (word w) = true
is_word _ = false

unfoldable pub eq_word : WithToken → List ℕ → Bool
unfolding eq_ignore_case
eq_word (word w) keyword = eq_ignore_case w keyword
eq_word _ keyword = false

-- Keywords, in lower case.
abbrev pub kw_with : List ℕ
kw_with = b'w' ∷ b'i' ∷ b't' ∷ b'h' ∷ []

abbrev pub kw_recursive : List ℕ
kw_recursive = b'r' ∷ b'e' ∷ b'c' ∷ b'u' ∷ b'r' ∷ b's' ∷ b'i' ∷ b'v' ∷ b'e' ∷ []

abbrev pub kw_as : List ℕ
kw_as = b'a' ∷ b's' ∷ []

abbrev pub kw_not : List ℕ
kw_not = b'n' ∷ b'o' ∷ b't' ∷ []

abbrev pub kw_materialized : List ℕ
kw_materialized =
    b'm' ∷ b'a' ∷ b't' ∷ b'e' ∷ b'r' ∷ b'i' ∷ b'a' ∷ b'l' ∷ b'i' ∷ b'z' ∷ b'e' ∷ b'd' ∷ []

abbrev pub kw_select : List ℕ
kw_select = b's' ∷ b'e' ∷ b'l' ∷ b'e' ∷ b'c' ∷ b't' ∷ []

abbrev pub kw_insert : List ℕ
kw_insert = b'i' ∷ b'n' ∷ b's' ∷ b'e' ∷ b'r' ∷ b't' ∷ []

abbrev pub kw_update : List ℕ
kw_update = b'u' ∷ b'p' ∷ b'd' ∷ b'a' ∷ b't' ∷ b'e' ∷ []

abbrev pub kw_delete : List ℕ
kw_delete = b'd' ∷ b'e' ∷ b'l' ∷ b'e' ∷ b't' ∷ b'e' ∷ []
