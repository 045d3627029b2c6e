-- ===== src/SchemaTree/State.antt =====
-- `SchemaState` and its operations (crates/ui/src/state/schema.rs).
use poqi.Prelude.{
  ℕ, ◌+◌, ◌-◌, min, max, Bool, true, false, ◌&&◌, ◌||◌, not, Option, none, some, List, [], ◌∷◌,
  ◌==◌, ltb, if◌then◌else◌, length, get_elem?, sat_add,
}
use poqi.TextInput.Utf8.{Line}
use poqi.Catalog.Identifier.{QualifiedRelation, requires_explicit_preview}
use poqi.SchemaTree.Tree.{
  SchemaItem, schema_row, table_row, SchemaItemKey, schema_key, table_key, Schemas, in_schema,
  item_key, eq_relation, contains, remove, tables_of, tree, position,
}

pub data NavigationMode : Type 0 where
  schema_level table_level : NavigationMode

pub record SchemaState : Type 0 where
  pub schemas : Schemas
  pub expanded : List Line
  pub navigation_mode : NavigationMode
  pub items : List SchemaItem
  pub selected : ℕ
  pub last_fetched_table : Option QualifiedRelation
  pub scroll_top : ℕ
  pub suspend_selection_sync : Bool

unfoldable pub selected_item : SchemaState → Option SchemaItem
selected_item s = get_elem? s.items s.selected

abbrev pub mode_of : Option SchemaItem → NavigationMode
mode_of (some (table_row schema name last)) = table_level
mode_of _ = schema_level

-- `index.min(len - 1)`, and 0 where there are no rows.
abbrev pub clamp_index : ℕ → List SchemaItem → ℕ
clamp_index index [] = 0
clamp_index index (x ∷ xs) = min index (length xs)

unfoldable pub select_index : ℕ → SchemaState → SchemaState
select_index index s = record s {
  selected = clamp_index index s.items;
  navigation_mode = mode_of (get_elem? s.items (clamp_index index s.items));
  suspend_selection_sync = false;
}

abbrev pub or_key : Option SchemaItemKey → Option SchemaItem → Option SchemaItemKey
or_key (some key) item = some key
or_key none none = none
or_key none (some item) = some (item_key item)

abbrev pub or_zero : Option ℕ → ℕ
or_zero none = 0
or_zero (some i) = i

abbrev pub position_of : Option SchemaItemKey → List SchemaItem → ℕ
position_of none items = 0
position_of (some key) items = or_zero (position key items)

unfoldable pub rebuild_items : Option SchemaItemKey → SchemaState → SchemaState
unfolding selected_item select_index item_key position tree
rebuild_items desired s =
    let items = tree s.schemas s.expanded in
    select_index (position_of (or_key desired (selected_item s)) items) (record s { items = items })

-- The first table of a map with one schema, and that schema.
abbrev pub first_table : Line → List Line → Option SchemaItemKey
first_table schema [] = none
first_table schema (t ∷ ts) = some (table_key (in_schema schema t))

abbrev pub initial_expanded : Schemas → List Line
initial_expanded ((schema, tables) ∷ []) = schema ∷ []
initial_expanded _ = []

abbrev pub initial_selection : Schemas → Option SchemaItemKey
initial_selection ((schema, tables) ∷ []) = first_table schema tables
initial_selection _ = none

unfoldable pub schema_new : Schemas → SchemaState
unfolding rebuild_items
schema_new m = rebuild_items (initial_selection m) (record {
  schemas = m;
  expanded = initial_expanded m;
  navigation_mode = schema_level;
  items = [];
  selected = 0;
  last_fetched_table = none;
  scroll_top = 0;
  suspend_selection_sync = false;
})

abbrev pub schema_of : Option SchemaItem → Option Line
schema_of (some (table_row schema name last)) = some schema
schema_of _ = none

unfoldable current_schema : SchemaState → Option Line
unfolding selected_item
current_schema s = schema_of (selected_item s)

abbrev pub table_name_of : Option SchemaItem → Option QualifiedRelation
table_name_of (some (table_row schema name last)) = some (in_schema schema name)
table_name_of _ = none

unfoldable pub selected_table_name : SchemaState → Option QualifiedRelation
unfolding selected_item
selected_table_name s = table_name_of (selected_item s)

abbrev pub desired_table : Line → Option (List Line) → Option SchemaItemKey
desired_table schema none = none
desired_table schema (some tables) = first_table schema tables

-- Expands the schema, or collapses it if it is expanded.
unfoldable pub toggle_schema : Line → SchemaState → SchemaState
unfolding rebuild_items contains remove tables_of
toggle_schema name s =
    if contains s.expanded name
    then rebuild_items (some (schema_key name)) (record s { expanded = remove s.expanded name })
    else rebuild_items (desired_table name (tables_of s.schemas name))
        (record s { expanded = name ∷ s.expanded })

abbrev pub drill_into : Option SchemaItem → SchemaState → SchemaState × Bool
drill_into (some (schema_row name expanded table_count)) s =
    if table_count == 0 then (s, false) else (toggle_schema name s, true)
drill_into _ s = (s, false)

unfoldable pub drill_down : SchemaState → SchemaState × Bool
unfolding selected_item toggle_schema
drill_down s = drill_into (selected_item s) s

abbrev pub back_from : Option SchemaItem → SchemaState → SchemaState × Bool
back_from (some (table_row schema name last)) s =
    (record (rebuild_items (some (schema_key schema)) s) { last_fetched_table = none }, true)
back_from (some (schema_row name expanded count)) s =
    if contains s.expanded name
    then (
      rebuild_items (some (schema_key name)) (record s { expanded = remove s.expanded name }),
      true,
    )
    else (s, false)
back_from none s = (s, false)

unfoldable pub go_back : SchemaState → SchemaState × Bool
unfolding selected_item rebuild_items contains remove
go_back s = back_from (selected_item s) s

abbrev pub is_last_fetched : Option QualifiedRelation → QualifiedRelation → Bool
is_last_fetched none table = false
is_last_fetched (some last) table = eq_relation last table

abbrev pub fetch_due : Option QualifiedRelation → Option QualifiedRelation → Bool
fetch_due last none = false
fetch_due last (some table) =
    not (requires_explicit_preview table) && not (is_last_fetched last table)

unfoldable pub should_auto_fetch : SchemaState → Bool
unfolding selected_table_name requires_explicit_preview
should_auto_fetch s = fetch_due s.last_fetched_table (selected_table_name s)

abbrev preview_asked : Option QualifiedRelation → Bool
preview_asked none = false
preview_asked (some table) = requires_explicit_preview table

unfoldable pub selected_table_requires_explicit_preview : SchemaState → Bool
unfolding selected_table_name requires_explicit_preview
selected_table_requires_explicit_preview s = preview_asked (selected_table_name s)

unfoldable pub mark_auto_fetch_dispatched : QualifiedRelation → SchemaState → SchemaState
mark_auto_fetch_dispatched table s = record s { last_fetched_table = some table }

abbrev pub retain_known : Schemas → List Line → List Line
retain_known m [] = []
retain_known m (x ∷ xs) =
    let rest = retain_known m xs in elim (tables_of m x) [ none ↦ rest | some ts ↦ x ∷ rest ]

-- The key to select in a new map: in a single schema with nothing expanded, its first table.
abbrev pub replacement : Schemas → List Line → Option SchemaItem → Option SchemaItemKey
replacement ((schema, tables) ∷ []) [] item = or_key (first_table schema tables) item
replacement _ _ item = or_key none item

unfoldable pub replace : Schemas → SchemaState → SchemaState
unfolding selected_item rebuild_items tables_of item_key
replace m s =
    let kept = retain_known m s.expanded in
    rebuild_items (replacement m kept (selected_item s))
      (record s { schemas = m; expanded = kept; last_fetched_table = none })

unfoldable pub move_up : SchemaState → SchemaState
unfolding select_index
move_up s = if ltb 0 s.selected then select_index (s.selected - 1) s else s

unfoldable pub move_down : SchemaState → SchemaState
unfolding select_index
move_down s = if ltb (s.selected + 1) (length s.items) then select_index (s.selected + 1) s else s

unfoldable pub page_up : SchemaState → SchemaState
unfolding select_index
page_up s = select_index (s.selected - 5) s

unfoldable pub page_down : SchemaState → SchemaState
unfolding select_index
page_down s =
    if length s.items == 0 then s else select_index (min (s.selected + 5) (length s.items - 1)) s

unfoldable pub jump_start : SchemaState → SchemaState
unfolding select_index
jump_start s = select_index 0 s

unfoldable pub jump_end : SchemaState → SchemaState
unfolding select_index
jump_end s = if length s.items == 0 then s else select_index (length s.items - 1) s

-- The first row that brings the selected row into a viewport which starts at `top`.
abbrev pub follow : ℕ → ℕ → ℕ → ℕ
follow selected top viewport =
    if ltb selected top
    then selected
    else if ltb (sat_add top (viewport - 1)) selected
    then sat_add selected 1 - viewport
    else top

unfoldable pub ensure_selected_visible : ℕ → SchemaState → SchemaState
ensure_selected_visible viewport_rows s =
    let viewport = max viewport_rows 1 in
    let max_scroll = length s.items - viewport in
    let top = min s.scroll_top max_scroll in
    let followed = if s.suspend_selection_sync then top else follow s.selected top viewport in
    record s {
      scroll_top =
          if (length s.items == 0) || (viewport_rows == 0) then 0 else min followed max_scroll;
    }

unfoldable pub set_manual_scroll_top : ℕ → ℕ → SchemaState → SchemaState
set_manual_scroll_top top viewport_rows s = record s {
  scroll_top = min top (length s.items - max viewport_rows 1);
  suspend_selection_sync = true;
}
