-- ===== src/SchemaTree/Tree.antt =====
-- The rows of the tree: `SchemaItem`, `SchemaItemKey` and the loop of `rebuild_items`
-- (crates/ui/src/state/schema.rs). A map is the list of its entries, in the order of iteration,
-- and a set the list of its members.
use poqi.Prelude.{
  ℕ, Bool, true, false, ◌&&◌, ◌||◌, Option, none, some, List, [], ◌∷◌, ◌++◌, ◌+◌, ◌==◌, ltb, map,
  if◌then◌else◌, length, eq_text,
}
use poqi.TextInput.Utf8.{Line}
use poqi.Catalog.Identifier.{QualifiedRelation}

pub data SchemaItem : Type 0 where
  schema_row : Line → Bool → ℕ → SchemaItem
  table_row : Line → Line → Bool → SchemaItem

pub data SchemaItemKey : Type 0 where
  schema_key : Line → SchemaItemKey
  table_key : QualifiedRelation → SchemaItemKey

abbrev pub Schemas : Type 0
Schemas = List (Line × List Line)

-- `QualifiedRelation::in_schema`
abbrev pub in_schema : Line → Line → QualifiedRelation
in_schema s n = record { schema = some s; name = n }

unfoldable pub item_key : SchemaItem → SchemaItemKey
item_key (schema_row name expanded count) = schema_key name
item_key (table_row schema name last) = table_key (in_schema schema name)

abbrev pub eq_schema : Option Line → Option Line → Bool
eq_schema none none = true
eq_schema (some a) (some b) = eq_text a b
eq_schema _ _ = false

abbrev pub eq_relation : QualifiedRelation → QualifiedRelation → Bool
eq_relation a b = eq_schema a.schema b.schema && eq_text a.name b.name

abbrev pub eq_key : SchemaItemKey → SchemaItemKey → Bool
eq_key (schema_key a) (schema_key b) = eq_text a b
eq_key (table_key a) (table_key b) = eq_relation a b
eq_key _ _ = false

-- `HashSet::contains`
unfoldable pub contains : List Line → Line → Bool
contains [] name = false
contains (x ∷ xs) name = eq_text x name || contains xs name

-- `HashSet::remove`; whether the name was there is `contains`.
unfoldable pub remove : List Line → Line → List Line
remove [] name = []
remove (x ∷ xs) name = let rest = remove xs name in if eq_text x name then rest else x ∷ rest

-- `HashMap::get`
unfoldable pub tables_of : Schemas → Line → Option (List Line)
tables_of [] name = none
tables_of ((x, tables) ∷ m) name = if eq_text x name then some tables else tables_of m name

abbrev pub or_default : Option (List Line) → List Line
or_default none = []
or_default (some tables) = tables

abbrev pub keys : Schemas → List Line
keys m = map (λ (e : Line × List Line). e.0) m

-- The order of `String`, which compares bytes, and so code points.
unfoldable pub text_le : Line → Line → Bool
text_le [] b = true
text_le (x ∷ xs) [] = false
text_le (x ∷ xs) (y ∷ ys) = ltb x y || ((x == y) && text_le xs ys)

abbrev pub insert_sorted : Line → List Line → List Line
insert_sorted x [] = x ∷ []
insert_sorted x (y ∷ ys) =
    let rest = y ∷ insert_sorted x ys in if text_le x y then x ∷ y ∷ ys else rest

-- `schema_names.sort()`
unfoldable pub sort : List Line → List Line
unfolding text_le
sort [] = []
sort (x ∷ xs) = insert_sorted x (sort xs)

abbrev pub is_empty : List Line → Bool
is_empty [] = true
is_empty (x ∷ xs) = false

unfoldable pub table_rows : Line → List Line → List SchemaItem
table_rows schema [] = []
table_rows schema (t ∷ ts) = table_row schema t (is_empty ts) ∷ table_rows schema ts

-- The rows of one schema.
unfoldable pub schema_rows : List Line → Line → List Line → List SchemaItem
unfolding contains table_rows
schema_rows open_schemas schema tables =
    schema_row schema (contains open_schemas schema) (length tables)
    ∷ (if contains open_schemas schema then table_rows schema tables else [])

unfoldable pub rows_of : Schemas → List Line → List Line → List SchemaItem
unfolding schema_rows tables_of
rows_of schemas open_schemas [] = []
rows_of schemas open_schemas (n ∷ ns) =
    schema_rows open_schemas n (or_default (tables_of schemas n)) ++ rows_of schemas open_schemas ns

-- All rows of the tree.
unfoldable pub tree : Schemas → List Line → List SchemaItem
unfolding sort rows_of
tree schemas open_schemas = rows_of schemas open_schemas (sort (keys schemas))

-- `items.iter().position(…)`.
unfoldable pub position : SchemaItemKey → List SchemaItem → Option ℕ
unfolding item_key
position key [] = none
position key (x ∷ xs) =
    let rest = position key xs in
    if eq_key (item_key x) key then some 0 else elim rest [ none ↦ none | some i ↦ some (1 + i) ]
