-- ===== src/SchemaTree/Rows.antt =====
-- What the rows of the tree say of the catalog, and which rows there are.
use poqi.Prelude.{
  ℕ, zero, suc, ◌≡◌, refl, sym, ◌∙◌, inl, inr, true, Option, none, some, List, [], ◌∷◌, ◌++◌,
  length, get_elem?, if_false, Bool-cases, eq_text, eq_text→eq,
}
use poqi.TextInput.Utf8.{Line}
use poqi.SchemaTree.Tree.{
  SchemaItem, schema_row, table_row, SchemaItemKey, schema_key, table_key, Schemas, in_schema,
  item_key, contains, tables_of, or_default, keys, text_le, insert_sorted, sort, table_rows,
  schema_rows, rows_of, tree,
}

abbrev pub All {ℓ κ} : {A : Type ℓ} → (A → Type κ) → List A → Type κ
All P [] = Unit
All P (x ∷ xs) = P x × All P xs

pub All-append {ℓ κ} :
    {A : Type ℓ} (P : A → Type κ) (xs ys : List A) → All P xs → All P ys → All P (xs ++ ys)
All-append P [] ys h k = k
All-append P (x ∷ xs) ys h k = (h.0, All-append P xs ys h.1 k)

pub All-get_elem? {ℓ κ} :
    {A : Type ℓ} (P : A → Type κ) (xs : List A) (i : ℕ) (x : A)
    → All P xs
    → get_elem? xs i ≡ some x
    → P x
All-get_elem? P [] i x h e = absurd (cc)
All-get_elem? P (y ∷ xs) zero x h e = let same : y ≡ x = cc in rw (← same) h.0
All-get_elem? P (y ∷ xs) (suc i) x h e = All-get_elem? P xs i x h.1 e

-- The catalog lists the relation.
abbrev pub Listed : Schemas → Line → Line → Type 0
Listed m schema name =
    (tables : List Line) × (tables_of m schema ≡ some tables)
    × (i : ℕ) × (get_elem? tables i ≡ some name)

-- A row tells what the catalog holds, and what is expanded.
abbrev pub Tells : Schemas → List Line → SchemaItem → Type 0
Tells m ex (schema_row n e c) = (e ≡ contains ex n) × (c ≡ length (or_default (tables_of m n)))
Tells m ex (table_row s n l) = Listed m s n × (contains ex s ≡ true)

table_rows-Tells :
    (m : Schemas) (ex : List Line) (schema : Line) (ts : List Line)
    → contains ex schema ≡ true
    → ((i : ℕ) (x : Line) → get_elem? ts i ≡ some x → Listed m schema x)
    → All (Tells m ex) (table_rows schema ts)
unfolding table_rows
table_rows-Tells m ex schema [] o h = tt
table_rows-Tells m ex schema (t ∷ ts) o h =
    ((h 0 t refl, o), table_rows-Tells m ex schema ts o (λ i x e. h (suc i) x e))

tables_behind_default :
    (m : Schemas) (schema : Line) (o : Option (List Line))
    → tables_of m schema ≡ o
    → (i : ℕ) (x : Line) → get_elem? (or_default o) i ≡ some x
    → Listed m schema x
tables_behind_default m schema none e i x h = absurd (cc)
tables_behind_default m schema (some ts) e i x h = (ts, e, i, h)

schema_rows-Tells :
    (m : Schemas) (ex : List Line) (n : Line)
    → All (Tells m ex) (schema_rows ex n (or_default (tables_of m n)))
unfolding schema_rows
schema_rows-Tells m ex n = elim (Bool-cases (contains ex n)) [
  | inl y ↦ ((refl, refl), rw y (table_rows-Tells m ex n _ y (tables_behind_default m n _ refl)))
  | inr k ↦ ((refl, refl), rw k tt)
]

rows_of-Tells : (m : Schemas) (ex ns : List Line) → All (Tells m ex) (rows_of m ex ns)
unfolding rows_of
rows_of-Tells m ex [] = tt
rows_of-Tells m ex (n ∷ ns) =
    All-append (Tells m ex) (schema_rows ex n (or_default (tables_of m n))) (rows_of m ex ns)
      (schema_rows-Tells m ex n) (rows_of-Tells m ex ns)

pub tree-Tells : (m : Schemas) (ex : List Line) → All (Tells m ex) (tree m ex)
unfolding tree
tree-Tells m ex = rows_of-Tells m ex (sort (keys m))

-- A row with the key is among the items.
pub data Has (key : SchemaItemKey) : List SchemaItem → Type 0 where
  here : {x : SchemaItem} {xs : List SchemaItem} → item_key x ≡ key → Has key (x ∷ xs)
  there : {x : SchemaItem} {xs : List SchemaItem} → Has key xs → Has key (x ∷ xs)

Has-left : (key : SchemaItemKey) (xs ys : List SchemaItem) → Has key xs → Has key (xs ++ ys)
Has-left key [] ys h = elim h [ ]
Has-left key (x ∷ xs) ys (here e) = here e
Has-left key (x ∷ xs) ys (there h) = there (Has-left key xs ys h)

Has-right : (key : SchemaItemKey) (xs ys : List SchemaItem) → Has key ys → Has key (xs ++ ys)
Has-right key [] ys h = h
Has-right key (x ∷ xs) ys h = there (Has-right key xs ys h)

-- A name is in a list.
pub data In (name : Line) : List Line → Type 0 where
  first : {x : Line} {xs : List Line} → x ≡ name → In name (x ∷ xs)
  later : {x : Line} {xs : List Line} → In name xs → In name (x ∷ xs)

In-insert_sorted_first : (n x : Line) (ys : List Line) → x ≡ n → In n (insert_sorted x ys)
In-insert_sorted_first n x [] e = first e
In-insert_sorted_first n x (y ∷ ys) e = elim (Bool-cases (text_le x y)) [
  | inl p ↦ rw p (first e)
  | inr q ↦ rw q (later (In-insert_sorted_first n x ys e))
]

In-insert_sorted : (n x : Line) (ys : List Line) → In n ys → In n (insert_sorted x ys)
In-insert_sorted n x [] h = elim h [ ]
In-insert_sorted n x (y ∷ ys) (first e) = elim (Bool-cases (text_le x y)) [
  | inl p ↦ rw p (later (first e))
  | inr q ↦ rw q (first e)
]
In-insert_sorted n x (y ∷ ys) (later h) = elim (Bool-cases (text_le x y)) [
  | inl p ↦ rw p (later (later h))
  | inr q ↦ rw q (later (In-insert_sorted n x ys h))
]

In-sort : (n : Line) (xs : List Line) → In n xs → In n (sort xs)
unfolding sort
In-sort n [] h = elim h [ ]
In-sort n (x ∷ xs) (first e) = In-insert_sorted_first n x (sort xs) e
In-sort n (x ∷ xs) (later h) = In-insert_sorted n x (sort xs) (In-sort n xs h)

In-keys : (m : Schemas) (n : Line) (ts : List Line) → tables_of m n ≡ some ts → In n (keys m)
unfolding tables_of
In-keys [] n ts e = absurd (cc)
In-keys ((x, tables) ∷ m) n ts e = elim (Bool-cases (eq_text x n)) [
  | inl y ↦ first (eq_text→eq x n y)
  | inr k ↦ later (In-keys m n ts (sym (if_false (eq_text x n) _ _ k) ∙ e))
]

Has-rows_of :
    (key : SchemaItemKey) (m : Schemas) (ex : List Line) (n : Line) (ns : List Line)
    → In n ns
    → Has key (schema_rows ex n (or_default (tables_of m n)))
    → Has key (rows_of m ex ns)
unfolding rows_of
Has-rows_of key m ex n [] i h = elim i [ ]
Has-rows_of key m ex n (x ∷ ns) (first e) h =
    Has-left key (schema_rows ex x (or_default (tables_of m x))) (rows_of m ex ns) (rw e h)
Has-rows_of key m ex n (x ∷ ns) (later i) h =
    Has-right key (schema_rows ex x (or_default (tables_of m x))) _ (Has-rows_of key m ex n ns i h)

Has-tree :
    (key : SchemaItemKey) (m : Schemas) (ex : List Line) (n : Line) (ts : List Line)
    → tables_of m n ≡ some ts
    → Has key (schema_rows ex n ts)
    → Has key (tree m ex)
unfolding tree
Has-tree key m ex n ts e h =
    Has-rows_of key m ex n (sort (keys m)) (In-sort n (keys m) (In-keys m n ts e)) (rw e h)

-- The row of a known schema is shown,
pub Has-tree-schema :
    (m : Schemas) (ex : List Line) (n : Line) (ts : List Line)
    → tables_of m n ≡ some ts
    → Has (schema_key n) (tree m ex)
unfolding schema_rows item_key
Has-tree-schema m ex n ts e = Has-tree (schema_key n) m ex n ts e (here refl)

-- and the first table of an expanded one.
pub Has-tree-table :
    (m : Schemas) (ex : List Line) (n t : Line) (ts : List Line)
    → tables_of m n ≡ some (t ∷ ts)
    → contains ex n ≡ true
    → Has (table_key (in_schema n t)) (tree m ex)
unfolding schema_rows item_key table_rows
Has-tree-table m ex n t ts e o =
    Has-tree (table_key (in_schema n t)) m ex n (t ∷ ts) e (there (rw o (here refl)))
