-- ===== src/SchemaTree/Examples.antt =====
-- The tree of schemas at concrete catalogs.
use poqi.Prelude.{
  ℕ, ◌+◌, ◌-◌, ◌≤◌, ◌<◌, ◌≡◌, ◌≢◌, refl, Bool, true, false, none, some, [], ◌∷◌, arith, length,
}
use poqi.TextInput.Utf8.{Line}
use poqi.Catalog.Display.{AllShown}
use poqi.SchemaTree.Tree.{
  tables_of, item_key, Schemas, schema_row, table_row, schema_key, table_key, in_schema, contains,
  tree,
}
use poqi.SchemaTree.State.{
  retain_known, SchemaState, schema_new, selected_item, selected_table_name, drill_down, go_back,
  should_auto_fetch, selected_table_requires_explicit_preview, replace, jump_start,
  ensure_selected_visible,
}
use poqi.SchemaTree.Rows.{here, Has, Listed}
use poqi.SchemaTree.Valid.{browse-IsValid}
use poqi.SchemaTree.Moves.{moves_down, moves_down-reaches, ensure_selected_visible-shows}
use poqi.SchemaTree.Drill.{Selects}
use poqi.SchemaTree.Sequence.{drill_down-sequence}
use poqi.SchemaTree.Preview.{should_auto_fetch-Safe, replace-Selects, replace-single}

abbrev hr : Line
hr = b'h' ∷ b'r' ∷ []

abbrev sales : Line
sales = b's' ∷ b'a' ∷ b'l' ∷ b'e' ∷ b's' ∷ []

abbrev staff : Line
staff = b's' ∷ b't' ∷ b'a' ∷ b'f' ∷ b'f' ∷ []

abbrev pay : Line
pay = b'p' ∷ b'a' ∷ b'y' ∷ []

abbrev deals : Line
deals = b'd' ∷ b'e' ∷ b'a' ∷ b'l' ∷ b's' ∷ []

-- Two schemas, `sales` before `hr` in the map.
abbrev catalog : Schemas
catalog = (sales, deals ∷ []) ∷ (hr, staff ∷ pay ∷ []) ∷ []

abbrev start : SchemaState
start = schema_new catalog

-- The schemas are sorted, and collapsed.
start_rows : start.items ≡ schema_row hr false 2 ∷ schema_row sales false 1 ∷ []
unfolding schema_new
start_rows = refl

drill_shows_tables :
    (drill_down start).0.items
    ≡ schema_row hr true 2
      ∷ table_row hr staff false
      ∷ table_row hr pay true
      ∷ schema_row sales false 1
      ∷ []
unfolding schema_new drill_down
drill_shows_tables = refl

-- The relation with a control character in its name is not previewed.
hidden_is_not_fetched : should_auto_fetch (schema_new ((hr, (10 ∷ staff) ∷ []) ∷ [])) ≡ false
unfolding should_auto_fetch schema_new
hidden_is_not_fetched = refl

hidden_asks :
    selected_table_requires_explicit_preview (schema_new ((hr, (10 ∷ staff) ∷ []) ∷ [])) ≡ true
unfolding selected_table_requires_explicit_preview schema_new
hidden_asks = refl

start-Selects : Selects (schema_key hr) start
unfolding schema_new selected_item
start-Selects = (schema_row hr false 2, refl, refl)

start_collapsed : contains start.expanded hr ≡ false
unfolding schema_new contains
start_collapsed = refl

start_tables : tables_of start.schemas hr ≡ some (staff ∷ pay ∷ [])
unfolding schema_new tables_of
start_tables = refl

drill_down-sequence_example :
    let opened = (drill_down start).0 in
    let closed = (drill_down (go_back opened).0).0 in
    Selects (table_key (in_schema hr staff)) opened
    × Selects (schema_key hr) (go_back opened).0
    × (contains (go_back opened).0.expanded hr ≡ true)
    × Selects (schema_key hr) closed
    × (contains closed.expanded hr ≡ false)
drill_down-sequence_example =
    drill_down-sequence hr staff (pay ∷ []) start (browse-IsValid catalog []) start-Selects
      start_tables start_collapsed

abbrev single : SchemaState
single = schema_new ((hr, staff ∷ pay ∷ []) ∷ [])

single_fetches : should_auto_fetch single ≡ true
unfolding should_auto_fetch schema_new
single_fetches = refl

should_auto_fetch-Safe_example :
    (n : Line) × (t : Line) × (selected_table_name single ≡ some (in_schema n t))
    × Listed single.schemas n t
    × AllShown n
    × AllShown t
    × (single.last_fetched_table ≢ some (in_schema n t))
should_auto_fetch-Safe_example =
    should_auto_fetch-Safe single (browse-IsValid ((hr, staff ∷ pay ∷ []) ∷ []) []) single_fetches

start_rows_many : length start.items ≡ 2
unfolding schema_new
start_rows_many = refl

moves_down-reaches_example :
    ((moves_down 1 (jump_start start)).selected ≡ 1)
    × ((moves_down 1 (jump_start start)).items ≡ start.items)
moves_down-reaches_example = moves_down-reaches 1 start (omega (arith, start_rows_many))

start_follows : start.suspend_selection_sync ≡ false
unfolding schema_new
start_follows = refl

ensure_selected_visible-shows_example :
    let top = (ensure_selected_visible 1 start).scroll_top in
    (top ≤ start.selected) × (start.selected < top + 1) × (top ≤ length start.items - 1)
ensure_selected_visible-shows_example =
    ensure_selected_visible-shows 1 start (browse-IsValid catalog [])
      (omega (arith, start_rows_many)) (omega (arith, start_rows_many)) (omega arith) start_follows

hr_stays :
    Has
      (schema_key hr)
      (tree ((hr, pay ∷ []) ∷ []) (retain_known ((hr, pay ∷ []) ∷ []) start.expanded))
unfolding schema_new tree item_key
hr_stays = here refl

replace-Selects_example : Selects (schema_key hr) (replace ((hr, pay ∷ []) ∷ []) start)
replace-Selects_example =
    replace-Selects ((hr, pay ∷ []) ∷ []) start (schema_key hr) start-Selects hr_stays

none_kept : retain_known ((hr, pay ∷ []) ∷ []) start.expanded ≡ []
unfolding schema_new
none_kept = refl

replace-single_example :
    (e : Bool) × (c : ℕ) × (selected_item (replace ((hr, pay ∷ []) ∷ []) start)
      ≡ some (schema_row hr e c))
    × (selected_table_name (replace ((hr, pay ∷ []) ∷ []) start) ≡ none)
replace-single_example = replace-single hr pay [] start none_kept
