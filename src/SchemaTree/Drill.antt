-- ===== src/SchemaTree/Drill.antt =====
-- What drilling down, going back and a new catalog select, and what is previewed
-- (crates/ui/src/state/schema.rs).
use poqi.Prelude.{
  lt-length_of_get_elem?, ℕ, suc, ◌≡◌, refl, ap, ◌∙◌, Bool, true, false, ◌&&◌, Option, none, some,
  List, [], ◌∷◌, ◌==◌, arith, length, get_elem?, if_true, if_false, Bool-cases, eq_text, eq_text→eq,
  eq_text_refl, inl, inr,
}
use poqi.TextInput.Utf8.{Line}
use poqi.Catalog.Identifier.{QualifiedRelation}
use poqi.SchemaTree.Tree.{
  SchemaItem, schema_row, table_row, SchemaItemKey, schema_key, table_key, in_schema, item_key,
  eq_relation, eq_key, eq_schema, contains, remove, tables_of, tree, position,
}
use poqi.SchemaTree.State.{
  SchemaState, selected_item, clamp_index, select_index, rebuild_items, toggle_schema,
  desired_table, drill_down, drill_into, go_back, back_from,
}
use poqi.SchemaTree.Valid.{IsValid}
use poqi.SchemaTree.Rows.{tree-Tells, All-get_elem?, Tells, Has, here, there}

pub eq_key_refl : (key : SchemaItemKey) → eq_key key key ≡ true
eq_key_refl (schema_key a) = eq_text_refl a
eq_key_refl (table_key r) = eq_relation_refl r.schema r.name
  where
    eq_relation_refl : (s : Option Line) (n : Line) → (eq_schema s s && eq_text n n) ≡ true
    eq_relation_refl none n = eq_text_refl n
    eq_relation_refl (some s) n = rw (eq_text_refl s) (eq_text_refl n)

abbrev Found : SchemaItemKey → List SchemaItem → Type 0
Found key xs =
    (i : ℕ) × (x : SchemaItem) × (position key xs ≡ some i)
    × (get_elem? xs i ≡ some x)
    × (eq_key (item_key x) key ≡ true)

Found-later :
    (key : SchemaItemKey) (x : SchemaItem) (xs : List SchemaItem)
    → eq_key (item_key x) key ≡ false
    → Found key xs
    → Found key (x ∷ xs)
unfolding position
Found-later key x xs k (i, y, found, at, same) =
    (suc i, y, rw (k, found) (ap some (omega arith)), at, same)

Found-first :
    (key : SchemaItemKey) (x : SchemaItem) (xs : List SchemaItem)
    → eq_key (item_key x) key ≡ true
    → Found key (x ∷ xs)
unfolding position
Found-first key x xs y = (0, x, rw y refl, refl, y)

-- The position of a key is the one of a row with an equal key.
position-finds : (key : SchemaItemKey) (xs : List SchemaItem) → Has key xs → Found key xs
position-finds key [] h = elim h [ ]
position-finds key (x ∷ xs) (here e) = Found-first key x xs (rw e (eq_key_refl key))
position-finds key (x ∷ xs) (there h) = elim (Bool-cases (eq_key (item_key x) key)) [
  | inl y ↦ Found-first key x xs y
  | inr k ↦ Found-later key x xs k (position-finds key xs h)
]

eq_schema→eq : (a b : Option Line) → eq_schema a b ≡ true → a ≡ b
eq_schema→eq none none h = refl
eq_schema→eq none (some b) h = cc
eq_schema→eq (some a) none h = cc
eq_schema→eq (some a) (some b) h = ap some (eq_text→eq a b h)

eq_relation→eq : (a b : QualifiedRelation) → eq_relation a b ≡ true → a ≡ b
eq_relation→eq a b h = ground (arith, eq_schema→eq a.schema b.schema, eq_text→eq a.name b.name)

eq_key→eq : (a b : SchemaItemKey) → eq_key a b ≡ true → a ≡ b
eq_key→eq (schema_key a) (schema_key b) h = ap schema_key (eq_text→eq a b h)
eq_key→eq (schema_key a) (table_key b) h = cc
eq_key→eq (table_key a) (schema_key b) h = cc
eq_key→eq (table_key a) (table_key b) h = ap table_key (eq_relation→eq a b h)

-- The row with the key is selected.
abbrev pub Selects : SchemaItemKey → SchemaState → Type 0
Selects key s = (x : SchemaItem) × (selected_item s ≡ some x) × (item_key x ≡ key)

clamp_index_found :
    (xs : List SchemaItem) (i : ℕ) (x : SchemaItem) → get_elem? xs i ≡ some x → clamp_index i xs ≡ i
clamp_index_found [] i x h = cc
clamp_index_found (y ∷ ys) i x h = omega (arith, lt-length_of_get_elem? (y ∷ ys) i h)

pub rebuild_items-Selects :
    (key : SchemaItemKey) (s : SchemaState)
    → Has key (tree s.schemas s.expanded)
    → Selects key (rebuild_items (some key) s)
unfolding rebuild_items select_index selected_item
rebuild_items-Selects key s h =
    let (i, x, found, at, same) = position-finds key (tree s.schemas s.expanded) h in
    (x, rw found (rw (clamp_index_found _ i x at) at), eq_key→eq (item_key x) key same)

-- The count of a row is that of the tables of its schema, so that one with tables can be opened.
count_of_row :
    (s : SchemaState) (n t : Line) (ts : List Line) (e : Bool) (c : ℕ)
    → IsValid s
    → selected_item s ≡ some (schema_row n e c)
    → tables_of s.schemas n ≡ some (t ∷ ts)
    → (c == 0) ≡ false
unfolding selected_item
count_of_row s n t ts e c v h k =
    let told : Tells s.schemas s.expanded (schema_row n e c) =
      All-get_elem? (Tells s.schemas s.expanded) s.items s.selected (schema_row n e c)
        (rw v.rows (tree-Tells s.schemas s.expanded)) h in
    let counted : c ≡ suc (length ts) = told.1 ∙ rw k refl in ground (arith, counted)

pub drill_down-toggles :
    (s : SchemaState) (n t : Line) (ts : List Line) (e : Bool) (c : ℕ)
    → IsValid s
    → selected_item s ≡ some (schema_row n e c)
    → tables_of s.schemas n ≡ some (t ∷ ts)
    → drill_down s ≡ (toggle_schema n s, true)
unfolding drill_down
drill_down-toggles s n t ts e c v h k =
    ap (λ (i : Option SchemaItem). drill_into i s) h
    ∙ if_false (c == 0) _ _ (count_of_row s n t ts e c v h k)

pub contains_head : (n : Line) (xs : List Line) → contains (n ∷ xs) n ≡ true
unfolding contains
contains_head n xs = rw (eq_text_refl n) refl

pub contains-remove : (n : Line) (xs : List Line) → contains (remove xs n) n ≡ false
unfolding contains remove
contains-remove n [] = refl
contains-remove n (x ∷ xs) = elim (Bool-cases (eq_text x n)) [
  | inl y ↦ rw y (contains-remove n xs)
  | inr k ↦ rw k (rw k (contains-remove n xs))
]

pub toggle_schema-opens :
    (s : SchemaState) (n t : Line) (ts : List Line)
    → tables_of s.schemas n ≡ some (t ∷ ts)
    → contains s.expanded n ≡ false
    → toggle_schema n s
      ≡ rebuild_items (some (table_key (in_schema n t))) (record s { expanded = n ∷ s.expanded })
unfolding toggle_schema
toggle_schema-opens s n t ts k closed =
    if_false (contains s.expanded n) _ _ closed
    ∙ ap
        (λ (o : Option (List Line)).
          rebuild_items (desired_table n o) (record s { expanded = n ∷ s.expanded }))
        k

pub toggle_schema-closes :
    (s : SchemaState) (n : Line)
    → contains s.expanded n ≡ true
    → toggle_schema n s
      ≡ rebuild_items (some (schema_key n)) (record s { expanded = remove s.expanded n })
unfolding toggle_schema
toggle_schema-closes s n opened = if_true (contains s.expanded n) _ _ opened

pub back_from_table :
    (s : SchemaState) (n t : Line) (l : Bool)
    → selected_item s ≡ some (table_row n t l)
    → (go_back s).0 ≡ record (rebuild_items (some (schema_key n)) s) { last_fetched_table = none }
unfolding go_back
back_from_table s n t l h = ap (λ (i : Option SchemaItem). (back_from i s).0) h

pub table_row_of_key :
    (s : SchemaState) (n t : Line)
    → Selects (table_key (in_schema n t)) s
    → (l : Bool) × (selected_item s ≡ some (table_row n t l))
unfolding item_key
table_row_of_key s n t (schema_row m e c, h, k) = absurd (cc)
table_row_of_key s n t (table_row m u l, h, k) = (l, ground arith)
