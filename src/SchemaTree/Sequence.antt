-- ===== src/SchemaTree/Sequence.antt =====
-- Opening a schema, going back and closing it; a new catalog (crates/ui/src/state/schema.rs).
use poqi.Prelude.{arith, ℕ, ◌≡◌, refl, ap, ◌∙◌, Bool, true, false, some, List, ◌∷◌}
use poqi.TextInput.Utf8.{Line}
use poqi.SchemaTree.Tree.{
  schema_row, table_row, schema_key, table_key, in_schema, contains, remove, tables_of, item_key,
}
use poqi.SchemaTree.State.{
  SchemaState, selected_item, rebuild_items, drill_down, go_back, select_index,
}
use poqi.SchemaTree.Rows.{Has-tree-schema, Has-tree-table}
use poqi.SchemaTree.Valid.{IsValid, rebuild_items-IsValid}
use poqi.SchemaTree.Drill.{
  Selects, rebuild_items-Selects, drill_down-toggles, contains_head, contains-remove,
  toggle_schema-opens, toggle_schema-closes, back_from_table, table_row_of_key,
}

pub schema_row_of_key :
    (s : SchemaState) (n : Line)
    → Selects (schema_key n) s
    → (e : Bool) × (c : ℕ) × (selected_item s ≡ some (schema_row n e c))
unfolding item_key
schema_row_of_key s n (schema_row m e c, h, k) = (e, c, ground arith)
schema_row_of_key s n (table_row m u l, h, k) = absurd (cc)

-- What an operation leaves: a valid tree of the same schemas, with the expanded ones given.
record Leaves (s t : SchemaState) (expanded : List Line) : Type 0 where
  valid : IsValid t
  schemas : t.schemas ≡ s.schemas
  opened : t.expanded ≡ expanded

module _ (n t : Line) (ts : List Line) where
  open_lem :
      (s : SchemaState)
      → IsValid s
      → Selects (schema_key n) s
      → tables_of s.schemas n ≡ some (t ∷ ts)
      → contains s.expanded n ≡ false
      → Selects (table_key (in_schema n t)) (drill_down s).0
        × Leaves s (drill_down s).0 (n ∷ s.expanded)
  unfolding rebuild_items select_index
  open_lem s v sel k closed =
      let (e, c, h) = schema_row_of_key s n sel in
      let s' : SchemaState = record s { expanded = n ∷ s.expanded } in
      let there = Has-tree-table s.schemas (n ∷ s.expanded) n t ts k (contains_head n s.expanded) in
      rw (drill_down-toggles s n t ts e c v h k) (
        rw (toggle_schema-opens s n t ts k closed) (
          rebuild_items-Selects (table_key (in_schema n t)) s' there,
          record {
            valid = rebuild_items-IsValid (some (table_key (in_schema n t))) s';
            schemas = refl;
            opened = refl;
          },
        ))

  close_lem :
      (s : SchemaState)
      → IsValid s
      → Selects (schema_key n) s
      → tables_of s.schemas n ≡ some (t ∷ ts)
      → contains s.expanded n ≡ true
      → Selects (schema_key n) (drill_down s).0 × Leaves s (drill_down s).0 (remove s.expanded n)
  unfolding rebuild_items select_index
  close_lem s v sel k opened =
      let (e, c, h) = schema_row_of_key s n sel in
      let s' : SchemaState = record s { expanded = remove s.expanded n } in
      let there = Has-tree-schema s.schemas (remove s.expanded n) n (t ∷ ts) k in
      rw (drill_down-toggles s n t ts e c v h k) (
        rw (toggle_schema-closes s n opened) (
          rebuild_items-Selects (schema_key n) s' there,
          record {
            valid = rebuild_items-IsValid (some (schema_key n)) s';
            schemas = refl;
            opened = refl;
          },
        ))

  back_lem :
      (s : SchemaState)
      → Selects (table_key (in_schema n t)) s
      → tables_of s.schemas n ≡ some (t ∷ ts)
      → Selects (schema_key n) (go_back s).0 × Leaves s (go_back s).0 s.expanded
  unfolding rebuild_items select_index selected_item
  back_lem s sel k =
      let (l, h) = table_row_of_key s n t sel in
      let there = Has-tree-schema s.schemas s.expanded n (t ∷ ts) k in
      let v = rebuild_items-IsValid (some (schema_key n)) s in
      rw (back_from_table s n t l h) (
        rebuild_items-Selects (schema_key n) s there,
        record {
          valid = record { rows = v.rows; inside = v.inside; mode = v.mode };
          schemas = refl;
          opened = refl;
        },
      )

  -- In a valid tree, with a collapsed schema selected that has tables: drilling down selects the
  -- first of them, going back selects the schema again, which stays expanded, and drilling down
  -- once more collapses it and keeps it selected.
  pub drill_down-sequence :
      (s : SchemaState)
      → IsValid s
      → Selects (schema_key n) s
      → tables_of s.schemas n ≡ some (t ∷ ts)
      → contains s.expanded n ≡ false
      → let opened = (drill_down s).0 in
        let back = (go_back opened).0 in
        let closed = (drill_down back).0 in
        Selects (table_key (in_schema n t)) opened
        × Selects (schema_key n) back
        × (contains back.expanded n ≡ true)
        × Selects (schema_key n) closed
        × (contains closed.expanded n ≡ false)
  drill_down-sequence s v sel k closed =
      let s1 = (drill_down s).0 in
      let s2 = (go_back s1).0 in
      let one = open_lem s v sel k closed in
      let k1 : tables_of s1.schemas n ≡ some (t ∷ ts) = rw one.1.schemas k in
      let two = back_lem s1 one.0 k1 in
      let k2 : tables_of s2.schemas n ≡ some (t ∷ ts) = rw two.1.schemas k1 in
      let is_open : contains s2.expanded n ≡ true =
        rw (two.1.opened, one.1.opened) (contains_head n s.expanded) in
      let three = close_lem s2 two.1.valid two.0 k2 is_open in
      (
        one.0,
        two.0,
        is_open,
        three.0,
        ap (λ (x : List Line). contains x n) three.1.opened ∙ contains-remove n s2.expanded,
      )
