-- ===== src/Results/Editing.antt =====
-- crates/ui/src/state/results_state/editing.rs
use poqi.Prelude.{
  ℕ, Bool, true, false, ◌&&◌, not, Option, none, some, List, [], ◌∷◌, ◌++◌, ◌==◌, eq_text,
  if◌then◌else◌, length, get_elem?, ◌>>=◌,
}
use poqi.TextInput.Utf8.{Line}
use poqi.Catalog.Identifier.{QualifiedRelation}
use poqi.Results.Data.{RowIdentity}
use poqi.Results.Grid.{EditSession, ResultsState, is_empty}
use poqi.Results.Selection.{session_at}

-- The text of an SQL NULL.
abbrev pub null_text : Line
null_text = b'N' ∷ b'U' ∷ b'L' ∷ b'L' ∷ []

-- `EditSession::new`
abbrev session_new : ℕ → ℕ → Line → Bool → EditSession
session_new row column initial is_null = record {
  row = row;
  column = column;
  buffer = initial;
  original_value = if is_null then none else some initial;
  is_null = is_null;
}

-- `String::pop`
abbrev pub drop_last : Line → Line
drop_last [] = []
drop_last (c ∷ []) = []
drop_last (c ∷ d ∷ cs) = c ∷ drop_last (d ∷ cs)

abbrev typed_text : EditSession → Line
typed_text e = if e.is_null then [] else e.buffer

-- `EditSession::insert_char`
unfoldable pub session_insert_char : ℕ → EditSession → EditSession
session_insert_char ch e = record e { buffer = typed_text e ++ ch ∷ []; is_null = false }

-- `EditSession::backspace`
unfoldable pub session_backspace : EditSession → EditSession
session_backspace e = record e { buffer = drop_last (typed_text e); is_null = false }

unfoldable pub set_null : EditSession → EditSession
set_null e = record e { buffer = null_text; is_null = true }

unfoldable pub value : EditSession → Option Line
value e = if e.is_null then none else some e.buffer

abbrev pub eq_value : Option Line → Option Line → Bool
eq_value none none = true
eq_value (some a) (some b) = eq_text a b
eq_value _ _ = false

unfoldable pub is_unchanged : EditSession → Bool
unfolding value
is_unchanged e = eq_value (value e) e.original_value

pub record PendingEdit : Type 0 where
  pub row : ℕ
  pub column : ℕ
  pub column_name : Line
  pub row_identity : RowIdentity
  pub new_value : Option Line
  pub column_type : Option Line

pub data EditCompletion : Type 0 where
  unchanged : EditCompletion
  changed : PendingEdit → EditCompletion

abbrev pub is_some {ℓ} : {A : Type ℓ} → Option A → Bool
is_some none = false
is_some (some a) = true

abbrev pub all_some {ℓ} : {A : Type ℓ} → List (Option A) → Bool
all_some [] = true
all_some (o ∷ os) = is_some o && all_some os

abbrev join_option {ℓ} : {A : Type ℓ} → Option (Option A) → Option A
join_option none = none
join_option (some o) = o

-- `get(row).and_then(|r| r.get(col))`
abbrev pub cell_at {ℓ} : {A : Type ℓ} → List (List A) → ℕ → ℕ → Option A
cell_at rows row col = get_elem? rows row >>= λ r. get_elem? r col

abbrev pub or_else {ℓ} : {A : Type ℓ} → Option A → A → A
or_else none d = d
or_else (some a) d = a

unfoldable current_value : ResultsState → Option Line
current_value s = elim (session_at s.focus_cell s.edit_session) [
  | some e ↦ some e.buffer
  | none ↦ cell_at s.rows s.focus_cell.0 s.focus_cell.1
]

unfoldable pub can_edit : ResultsState → Bool
can_edit s =
    is_some s.source_table
    && (not (is_empty s.rows)
        && ((length s.row_identities == length s.rows)
            && (all_some s.row_identities
                && ((length s.source_columns == length s.headers)
                    && (all_some s.source_columns
                        && (length s.column_types == length s.headers))))))

abbrev pub session_for : ResultsState → EditSession
session_for s =
    let (row, col) = s.focus_cell in
    session_new row col (or_else (cell_at s.rows row col) [])
      (or_else (cell_at s.null_cells row col) false)

-- The state, and whether a session is open.
unfoldable pub begin_edit : ResultsState → ResultsState × Bool
unfolding can_edit
begin_edit s =
    if is_empty s.headers
    then (s, false)
    else if not (can_edit s)
    then (s, false)
    else if is_some s.edit_session
    then (s, true)
    else (record s { edit_session = some (session_for s) }, true)

unfoldable pub cancel_edit : ResultsState → ResultsState
cancel_edit s = record s { edit_session = none }

-- What a call through `edit_session_mut` does with the session that is there.
abbrev pub change_session :
    (EditSession → EditSession) → Option EditSession → ResultsState → ResultsState
change_session f none s = s
change_session f (some e) s = record s { edit_session = some (f e) }

abbrev pub on_session : (EditSession → EditSession) → ResultsState → ResultsState
on_session f s = change_session f s.edit_session s

unfoldable pub set_edit_value_null : ResultsState → ResultsState × Bool
unfolding set_null
set_edit_value_null s = (on_session set_null s, is_some s.edit_session)

abbrev pub pending : EditSession → Line → RowIdentity → Option Line → PendingEdit
pending e name identity type = record {
  row = e.row;
  column = e.column;
  column_name = name;
  row_identity = identity;
  new_value = if e.is_null then none else some e.buffer;
  column_type = type;
}

-- What `finish_edit` makes of the session that it takes.
unfoldable pub completion : EditSession → ResultsState → Option EditCompletion
unfolding is_unchanged value
completion e s =
    if is_unchanged e
    then some unchanged
    else join_option (get_elem? s.source_columns e.column) >>= λ name.
        join_option (get_elem? s.row_identities e.row) >>= λ identity.
        some (changed (pending e name identity (get_elem? s.column_types e.column)))

unfoldable pub finish_with :
    Option EditSession → ResultsState → ResultsState × Option EditCompletion
unfolding completion
finish_with none s = (s, none)
finish_with (some e) s = let taken = record s { edit_session = none } in (taken, completion e taken)

unfoldable pub finish_edit : ResultsState → ResultsState × Option EditCompletion
unfolding finish_with
finish_edit s = finish_with s.edit_session s

unfoldable focused_row_identity : ResultsState → Option (QualifiedRelation × RowIdentity)
focused_row_identity s = s.source_table >>= λ table.
    join_option (get_elem? s.row_identities s.focus_cell.0) >>= λ identity. some (table, identity)
