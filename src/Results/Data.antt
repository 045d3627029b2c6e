-- ===== src/Results/Data.antt =====
-- What the engine hands to the results grid (crates/engine/src/models.rs).
use poqi.Prelude.{ℕ, ℤ, Bool, Option, List}
use poqi.TextInput.Utf8.{Line}
use poqi.Catalog.Identifier.{QualifiedRelation}

pub record PrimaryKeyValue : Type 0 where
  pub column : Line
  pub attribute_number : ℤ
  pub type_oid : ℕ
  pub value : List ℕ

pub record RowIdentity : Type 0 where
  pub relation_oid : ℕ
  pub table_oid : ℕ
  pub ctid : Line
  pub xmin : Line
  pub primary_key : List PrimaryKeyValue

pub data RunSqlRefresh : Type 0 where
  simple_single_table complex_single_table : QualifiedRelation → RunSqlRefresh

pub data ResultOrigin : Type 0 where
  unknown : ResultOrigin
  select_top : QualifiedRelation → ℕ → ResultOrigin
  run_sql : Line → RunSqlRefresh → ResultOrigin

pub record ResultMetadata : Type 0 where
  pub source_table : Option QualifiedRelation
  pub row_identities : List (Option RowIdentity)
  pub source_columns : List (Option Line)
  pub column_types : List Line
  pub null_cells : List (List Bool)
  pub origin : ResultOrigin
