-- ===== src/QueryScope/Keywords.antt =====
-- The keywords of scope.rs, in lower case (crates/search/completion/src/analyzer/scope.rs).
use poqi.Prelude.{[], ◌∷◌, List}
use poqi.TextInput.Utf8.{Line}

abbrev pub kw_all : Line
kw_all = b'a' ∷ b'l' ∷ b'l' ∷ []

abbrev pub kw_as : Line
kw_as = b'a' ∷ b's' ∷ []

abbrev pub kw_cross : Line
kw_cross = b'c' ∷ b'r' ∷ b'o' ∷ b's' ∷ b's' ∷ []

abbrev pub kw_distinct : Line
kw_distinct = b'd' ∷ b'i' ∷ b's' ∷ b't' ∷ b'i' ∷ b'n' ∷ b'c' ∷ b't' ∷ []

abbrev pub kw_except : Line
kw_except = b'e' ∷ b'x' ∷ b'c' ∷ b'e' ∷ b'p' ∷ b't' ∷ []

abbrev pub kw_fetch : Line
kw_fetch = b'f' ∷ b'e' ∷ b't' ∷ b'c' ∷ b'h' ∷ []

abbrev pub kw_from : Line
kw_from = b'f' ∷ b'r' ∷ b'o' ∷ b'm' ∷ []

abbrev pub kw_full : Line
kw_full = b'f' ∷ b'u' ∷ b'l' ∷ b'l' ∷ []

abbrev pub kw_group : Line
kw_group = b'g' ∷ b'r' ∷ b'o' ∷ b'u' ∷ b'p' ∷ []

abbrev pub kw_having : Line
kw_having = b'h' ∷ b'a' ∷ b'v' ∷ b'i' ∷ b'n' ∷ b'g' ∷ []

abbrev pub kw_inner : Line
kw_inner = b'i' ∷ b'n' ∷ b'n' ∷ b'e' ∷ b'r' ∷ []

abbrev pub kw_intersect : Line
kw_intersect = b'i' ∷ b'n' ∷ b't' ∷ b'e' ∷ b'r' ∷ b's' ∷ b'e' ∷ b'c' ∷ b't' ∷ []

abbrev pub kw_join : Line
kw_join = b'j' ∷ b'o' ∷ b'i' ∷ b'n' ∷ []

abbrev pub kw_left : Line
kw_left = b'l' ∷ b'e' ∷ b'f' ∷ b't' ∷ []

abbrev pub kw_limit : Line
kw_limit = b'l' ∷ b'i' ∷ b'm' ∷ b'i' ∷ b't' ∷ []

abbrev pub kw_natural : Line
kw_natural = b'n' ∷ b'a' ∷ b't' ∷ b'u' ∷ b'r' ∷ b'a' ∷ b'l' ∷ []

abbrev pub kw_offset : Line
kw_offset = b'o' ∷ b'f' ∷ b'f' ∷ b's' ∷ b'e' ∷ b't' ∷ []

abbrev pub kw_on : Line
kw_on = b'o' ∷ b'n' ∷ []

abbrev pub kw_order : Line
kw_order = b'o' ∷ b'r' ∷ b'd' ∷ b'e' ∷ b'r' ∷ []

abbrev pub kw_returning : Line
kw_returning = b'r' ∷ b'e' ∷ b't' ∷ b'u' ∷ b'r' ∷ b'n' ∷ b'i' ∷ b'n' ∷ b'g' ∷ []

abbrev pub kw_right : Line
kw_right = b'r' ∷ b'i' ∷ b'g' ∷ b'h' ∷ b't' ∷ []

abbrev pub kw_select : Line
kw_select = b's' ∷ b'e' ∷ b'l' ∷ b'e' ∷ b'c' ∷ b't' ∷ []

abbrev pub kw_union : Line
kw_union = b'u' ∷ b'n' ∷ b'i' ∷ b'o' ∷ b'n' ∷ []

abbrev pub kw_using : Line
kw_using = b'u' ∷ b's' ∷ b'i' ∷ b'n' ∷ b'g' ∷ []

abbrev pub kw_where : Line
kw_where = b'w' ∷ b'h' ∷ b'e' ∷ b'r' ∷ b'e' ∷ []

abbrev pub kw_window : Line
kw_window = b'w' ∷ b'i' ∷ b'n' ∷ b'd' ∷ b'o' ∷ b'w' ∷ []

abbrev pub reserved_words : List Line
reserved_words =
    kw_where ∷ kw_join ∷ kw_inner ∷ kw_left ∷ kw_right ∷ kw_full ∷ kw_cross ∷ kw_natural ∷ kw_on
    ∷ kw_using ∷ kw_group ∷ kw_having ∷ kw_window ∷ kw_order ∷ kw_limit ∷ kw_offset ∷ kw_fetch
    ∷ kw_returning ∷ kw_union ∷ kw_intersect ∷ kw_except ∷ []

abbrev pub select_list_ends : List Line
select_list_ends =
    kw_from ∷ kw_where ∷ kw_group ∷ kw_having ∷ kw_window ∷ kw_order ∷ kw_limit ∷ kw_offset
    ∷ kw_fetch ∷ kw_join ∷ kw_union ∷ kw_intersect ∷ kw_except ∷ []
