-- ===== src/SchemaTree/Preview.antt =====
-- What is previewed without being asked for, and what a new catalog selects
-- (crates/ui/src/state/schema.rs).
use poqi.Prelude.{
  length, ℕ, ◌≡◌, ◌≢◌, refl, ap, Bool, true, false, Option, none, some, List, [], ◌∷◌, arith,
  get_elem?, eq_text_refl,
}
use poqi.TextInput.Utf8.{Line}
use poqi.Catalog.Identifier.{
  QualifiedRelation, identifier_requires_explicit_preview, requires_explicit_preview,
}
use poqi.Catalog.Display.{AllShown}
use poqi.SchemaTree.Tree.{
  eq_relation, SchemaItem, schema_row, table_row, SchemaItemKey, schema_key, table_key, Schemas,
  in_schema, contains, tables_of, item_key, tree, rows_of, schema_rows, sort, position,
}
use poqi.SchemaTree.State.{
  position_of, clamp_index, fetch_due, is_last_fetched, table_name_of, SchemaState, selected_item,
  rebuild_items, select_index, selected_table_name, should_auto_fetch, replace, replacement,
  retain_known,
}
use poqi.SchemaTree.Rows.{Has, here, there, tree-Tells, All-get_elem?, Tells, Listed}
use poqi.SchemaTree.Valid.{IsValid}
use poqi.SchemaTree.Sequence.{schema_row_of_key}
use poqi.SchemaTree.Drill.{eq_key_refl, Selects, rebuild_items-Selects}

plain_is_shown : (name : Line) → identifier_requires_explicit_preview name ≡ false → AllShown name
unfolding identifier_requires_explicit_preview
plain_is_shown [] h = tt
plain_is_shown (c ∷ cs) h = (ground arith, plain_is_shown cs (ground arith))

fetch_of_item :
    (last : Option QualifiedRelation) (item : Option SchemaItem)
    → fetch_due last (table_name_of item) ≡ true
    → (n : Line) × (t : Line) × (l : Bool) × (item ≡ some (table_row n t l))
      × (requires_explicit_preview (in_schema n t) ≡ false)
      × (is_last_fetched last (in_schema n t) ≡ false)
fetch_of_item last none h = absurd (cc)
fetch_of_item last (some (schema_row n e c)) h = absurd (cc)
fetch_of_item last (some (table_row n t l)) h = (n, t, l, refl, ground arith, ground arith)

last_ne :
    (last : Option QualifiedRelation) (r : QualifiedRelation)
    → is_last_fetched last r ≡ false
    → last ≢ some r
last_ne none r h e = cc
last_ne (some q) r h e =
    let same : q ≡ r = cc in
    let found : eq_relation q r ≡ true = rw same (eq_key_refl (table_key r)) in cc

-- In a valid tree, the relation that is previewed without being asked for is the selected one, is
-- listed in the catalog, has only characters in its schema and name that are neither control
-- characters nor change the direction of the text, and is not the one that was fetched last.
pub should_auto_fetch-Safe :
    (s : SchemaState)
    → IsValid s
    → should_auto_fetch s ≡ true
    → (n : Line) × (t : Line) × (selected_table_name s ≡ some (in_schema n t))
      × Listed s.schemas n t
      × AllShown n
      × AllShown t
      × (s.last_fetched_table ≢ some (in_schema n t))
unfolding should_auto_fetch selected_table_name selected_item requires_explicit_preview
should_auto_fetch-Safe s v h =
    let (n, t, l, at, plain, fresh) = fetch_of_item s.last_fetched_table (selected_item s) h in
    let told : Tells s.schemas s.expanded (table_row n t l) =
      All-get_elem? (Tells s.schemas s.expanded) s.items s.selected (table_row n t l)
        (rw v.rows (tree-Tells s.schemas s.expanded)) at in
    (
      n,
      t,
      ap table_name_of at,
      told.0,
      plain_is_shown n (ground arith),
      plain_is_shown t (ground arith),
      last_ne s.last_fetched_table (in_schema n t) fresh,
    )

-- The tree of one collapsed schema is its row.
single_row :
    (sc : Line) (ts : List Line) → tree ((sc, ts) ∷ []) [] ≡ schema_row sc false (length ts) ∷ []
unfolding tree rows_of sort tables_of schema_rows contains
single_row sc ts = rw (eq_text_refl sc) refl

abbrev loaded : Schemas → List Line → SchemaState → SchemaState
loaded m kept s = record s { schemas = m; expanded = kept; last_fetched_table = none }

rebuild_items-row :
    (key : SchemaItemKey) (s : SchemaState) (rows : List SchemaItem)
    → tree s.schemas s.expanded ≡ rows
    → selected_item (rebuild_items (some key) s)
      ≡ get_elem? rows (clamp_index (position_of (some key) rows) rows)
unfolding rebuild_items select_index selected_item
rebuild_items-row key s rows h =
    ap (λ (r : List SchemaItem). get_elem? r (clamp_index (position_of (some key) r) r)) h

single-Selects :
    (sc t : Line) (ts : List Line) (s : SchemaState)
    → Selects
        (schema_key sc)
        (rebuild_items (some (table_key (in_schema sc t))) (loaded ((sc, t ∷ ts) ∷ []) [] s))
unfolding position item_key
single-Selects sc t ts s = (
  schema_row sc false (length (t ∷ ts)),
  rebuild_items-row (table_key (in_schema sc t)) (loaded ((sc, t ∷ ts) ∷ []) [] s) _
      (single_row sc (t ∷ ts)),
  refl,
)

single-key :
    (key : SchemaItemKey) (sc : Line) (c : ℕ)
    → Has key (schema_row sc false c ∷ [])
    → schema_key sc ≡ key
unfolding item_key
single-key key sc c (here e) = e
single-key key sc c (there h) = elim h [ ]

loaded-Selects :
    (m : Schemas) (kept : List Line) (x : SchemaItem) (s : SchemaState)
    → Has (item_key x) (tree m kept)
    → Selects (item_key x) (rebuild_items (replacement m kept (some x)) (loaded m kept s))
loaded-Selects [] kept x s h = rebuild_items-Selects (item_key x) (loaded [] kept s) h
loaded-Selects ((sc, tables) ∷ e ∷ m) kept x s h =
    rebuild_items-Selects (item_key x) (loaded ((sc, tables) ∷ e ∷ m) kept s) h
loaded-Selects ((sc, tables) ∷ []) (k ∷ ks) x s h =
    rebuild_items-Selects (item_key x) (loaded ((sc, tables) ∷ []) (k ∷ ks) s) h
loaded-Selects ((sc, []) ∷ []) [] x s h =
    rebuild_items-Selects (item_key x) (loaded ((sc, []) ∷ []) [] s) h
loaded-Selects ((sc, t ∷ ts) ∷ []) [] x s h =
    let same : schema_key sc ≡ item_key x =
      single-key (item_key x) sc (length (t ∷ ts)) (rw (← single_row sc (t ∷ ts)) h) in
    rw (← same) (single-Selects sc t ts s)

replace-loads_row :
    (m : Schemas) (s : SchemaState) (x : SchemaItem)
    → selected_item s ≡ some x
    → replace m s
      ≡ rebuild_items
          (replacement m (retain_known m s.expanded) (some x))
          (loaded m (retain_known m s.expanded) s)
unfolding replace
replace-loads_row m s x at =
    let kept = retain_known m s.expanded in
    ap (λ (i : Option SchemaItem). rebuild_items (replacement m kept i) (loaded m kept s)) at

-- A new catalog keeps the selected row, by its schema or relation, if the rows of the new catalog
-- still have it.
pub replace-Selects :
    (m : Schemas) (s : SchemaState) (key : SchemaItemKey)
    → Selects key s
    → Has key (tree m (retain_known m s.expanded))
    → Selects key (replace m s)
replace-Selects m s key (x, at, same) h =
    rw (← same) (
      rw (replace-loads_row m s x at)
        (loaded-Selects m (retain_known m s.expanded) x s (rw same h)))

replace-loads :
    (sc t : Line) (ts : List Line) (s : SchemaState)
    → retain_known ((sc, t ∷ ts) ∷ []) s.expanded ≡ []
    → replace ((sc, t ∷ ts) ∷ []) s
      ≡ rebuild_items (some (table_key (in_schema sc t))) (loaded ((sc, t ∷ ts) ∷ []) [] s)
unfolding replace
replace-loads sc t ts s h =
    let m : Schemas = (sc, t ∷ ts) ∷ [] in
    ap
      (λ (kept : List Line). rebuild_items (replacement m kept (selected_item s)) (loaded m kept s))
      h

table_name_of_row :
    (s : SchemaState) (n : Line) (e : Bool) (c : ℕ)
    → selected_item s ≡ some (schema_row n e c)
    → selected_table_name s ≡ none
unfolding selected_table_name
table_name_of_row s n e c h = ap table_name_of h

-- A new catalog of a single schema, which was not expanded, leaves the schema's row selected and
-- no table, although the code asks for its first table.
pub replace-single :
    (sc t : Line) (ts : List Line) (s : SchemaState)
    → retain_known ((sc, t ∷ ts) ∷ []) s.expanded ≡ []
    → (e : Bool) × (c : ℕ) × (selected_item (replace ((sc, t ∷ ts) ∷ []) s)
        ≡ some (schema_row sc e c))
      × (selected_table_name (replace ((sc, t ∷ ts) ∷ []) s) ≡ none)
replace-single sc t ts s h =
    let (e, c, at) =
      schema_row_of_key (replace ((sc, t ∷ ts) ∷ []) s) sc
        (rw (replace-loads sc t ts s h) (single-Selects sc t ts s)) in
    (e, c, at, table_name_of_row (replace ((sc, t ∷ ts) ∷ []) s) sc e c at)
