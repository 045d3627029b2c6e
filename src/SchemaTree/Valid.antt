-- ===== src/SchemaTree/Valid.antt =====
-- Whatever is done with the tree, in whatever order, it stays valid.
use poqi.Prelude.{
  ℕ, ◌+◌, ◌≡◌, refl, inl, inr, Bool, true, false, Option, none, some, List, [], ◌∷◌, arith, ltb,
  ◌==◌, length, if◌then◌else◌, Bool-cases,
}
use poqi.TextInput.Utf8.{Line}
use poqi.Catalog.Identifier.{QualifiedRelation}
use poqi.SchemaTree.Tree.{
  remove, SchemaItem, tables_of, schema_row, table_row, SchemaItemKey, schema_key, Schemas, tree,
  contains,
}
use poqi.SchemaTree.State.{
  schema_level, initial_expanded, desired_table, retain_known, initial_selection, replacement,
  SchemaState, selected_item, mode_of, clamp_index, select_index, rebuild_items, schema_new,
  toggle_schema, drill_into, drill_down, back_from, go_back, mark_auto_fetch_dispatched, replace,
  move_up, move_down, page_up, page_down, jump_start, jump_end, ensure_selected_visible,
  set_manual_scroll_top,
}

-- The rows are those of the schemas and what is expanded, one of them is selected, and the mode
-- is the one of the selected row.
pub record IsValid (s : SchemaState) : Type 0 where
  pub rows : s.items ≡ tree s.schemas s.expanded
  pub inside : s.selected ≡ clamp_index s.selected s.items
  pub mode : s.navigation_mode ≡ mode_of (selected_item s)

clamp_index_idem :
    (i : ℕ) (xs : List SchemaItem) → clamp_index i xs ≡ clamp_index (clamp_index i xs) xs
clamp_index_idem i [] = refl
clamp_index_idem i (x ∷ xs) = omega arith

pub select_index-IsValid :
    (i : ℕ) (s : SchemaState) → s.items ≡ tree s.schemas s.expanded → IsValid (select_index i s)
unfolding select_index selected_item
select_index-IsValid i s r = record { rows = r; inside = clamp_index_idem i s.items; mode = refl }

pub rebuild_items-IsValid :
    (desired : Option SchemaItemKey) (s : SchemaState) → IsValid (rebuild_items desired s)
unfolding rebuild_items
rebuild_items-IsValid desired s =
    select_index-IsValid _ (record s { items = tree s.schemas s.expanded }) refl

schema_new-IsValid : (m : Schemas) → IsValid (schema_new m)
unfolding schema_new
schema_new-IsValid m = rebuild_items-IsValid (initial_selection m) (record {
  schemas = m;
  expanded = initial_expanded m;
  navigation_mode = schema_level;
  items = [];
  selected = 0;
  last_fetched_table = none;
  scroll_top = 0;
  suspend_selection_sync = false;
})

either-IsValid :
    (b : Bool) (s t : SchemaState) → IsValid s → IsValid t → IsValid (if b then s else t)
either-IsValid true s t h k = h
either-IsValid false s t h k = k

toggle_schema-IsValid : (name : Line) (s : SchemaState) → IsValid (toggle_schema name s)
unfolding toggle_schema
toggle_schema-IsValid name s =
    either-IsValid (contains s.expanded name) _ _
      (rebuild_items-IsValid (some (schema_key name))
        (record s { expanded = remove s.expanded name }))
      (rebuild_items-IsValid (desired_table name (tables_of s.schemas name))
        (record s { expanded = name ∷ s.expanded }))

drill_into-IsValid :
    (item : Option SchemaItem) (s : SchemaState) → IsValid s → IsValid (drill_into item s).0
drill_into-IsValid none s v = v
drill_into-IsValid (some (table_row schema name last)) s v = v
drill_into-IsValid (some (schema_row name expanded count)) s v = elim (Bool-cases (count == 0)) [
  | inl y ↦ rw y v
  | inr n ↦ rw n (toggle_schema-IsValid name s)
]

-- What was fetched last is no part of the validity.
fetched-IsValid :
    (last : Option QualifiedRelation) (s : SchemaState)
    → IsValid s
    → IsValid (record s { last_fetched_table = last })
unfolding selected_item
fetched-IsValid last s v = record { rows = v.rows; inside = v.inside; mode = v.mode }

scrolled-IsValid :
    (top : ℕ) (suspended : Bool) (s : SchemaState)
    → IsValid s
    → IsValid (record s { scroll_top = top; suspend_selection_sync = suspended })
unfolding selected_item
scrolled-IsValid top suspended s v = record { rows = v.rows; inside = v.inside; mode = v.mode }

back_from-IsValid :
    (item : Option SchemaItem) (s : SchemaState) → IsValid s → IsValid (back_from item s).0
back_from-IsValid none s v = v
back_from-IsValid (some (table_row schema name last)) s v =
    fetched-IsValid none _ (rebuild_items-IsValid (some (schema_key schema)) s)
back_from-IsValid (some (schema_row name expanded count)) s v =
    elim (Bool-cases (contains s.expanded name)) [
      | inl y ↦ rw y (
          rebuild_items-IsValid (some (schema_key name))
            (record s { expanded = remove s.expanded name }))
      | inr n ↦ rw n v
    ]

-- Everything that changes the tree.
pub data Change : Type 0 where
  drill back up down page_before page_after start end : Change
  select show : ℕ → Change
  scroll : ℕ → ℕ → Change
  fetched : QualifiedRelation → Change
  reload : Schemas → Change

unfoldable pub apply : Change → SchemaState → SchemaState
apply drill s = (drill_down s).0
apply back s = (go_back s).0
apply up s = move_up s
apply down s = move_down s
apply page_before s = page_up s
apply page_after s = page_down s
apply start s = jump_start s
apply end s = jump_end s
apply (select i) s = select_index i s
apply (show n) s = ensure_selected_visible n s
apply (scroll top n) s = set_manual_scroll_top top n s
apply (fetched r) s = mark_auto_fetch_dispatched r s
apply (reload m) s = replace m s

abbrev pub browse : List Change → SchemaState → SchemaState
browse [] s = s
browse (c ∷ cs) s = browse cs (apply c s)

pub apply-IsValid : (c : Change) (s : SchemaState) → IsValid s → IsValid (apply c s)
unfolding apply drill_down go_back move_up move_down page_up page_down jump_start jump_end
    ensure_selected_visible set_manual_scroll_top mark_auto_fetch_dispatched replace
apply-IsValid drill s v = drill_into-IsValid (selected_item s) s v
apply-IsValid back s v = back_from-IsValid (selected_item s) s v
apply-IsValid up s v = either-IsValid (ltb 0 s.selected) _ _ (select_index-IsValid _ s v.rows) v
apply-IsValid down s v =
    either-IsValid (ltb (s.selected + 1) (length s.items)) _ _ (select_index-IsValid _ s v.rows) v
apply-IsValid page_before s v = select_index-IsValid _ s v.rows
apply-IsValid page_after s v =
    either-IsValid (length s.items == 0) _ _ v (select_index-IsValid _ s v.rows)
apply-IsValid start s v = select_index-IsValid 0 s v.rows
apply-IsValid end s v = either-IsValid (length s.items == 0) _ _ v (select_index-IsValid _ s v.rows)
apply-IsValid (select i) s v = select_index-IsValid i s v.rows
apply-IsValid (show n) s v = scrolled-IsValid _ s.suspend_selection_sync s v
apply-IsValid (scroll top n) s v = scrolled-IsValid _ true s v
apply-IsValid (fetched r) s v = fetched-IsValid (some r) s v
apply-IsValid (reload m) s v =
    rebuild_items-IsValid (replacement m (retain_known m s.expanded) (selected_item s))
      (record s { schemas = m; expanded = retain_known m s.expanded; last_fetched_table = none })

browse-IsValid_from : (cs : List Change) (s : SchemaState) → IsValid s → IsValid (browse cs s)
browse-IsValid_from [] s v = v
browse-IsValid_from (c ∷ cs) s v = browse-IsValid_from cs (apply c s) (apply-IsValid c s v)

pub browse-IsValid : (m : Schemas) (cs : List Change) → IsValid (browse cs (schema_new m))
browse-IsValid m cs = browse-IsValid_from cs (schema_new m) (schema_new-IsValid m)
