-- ===== src/Lib.antt =====
-- poqi, a terminal client for PostgreSQL: the components that keep its state right.
--
-- The program's parts and how they interact. The start menu lists the saved connection profiles, and
-- its form makes or edits one (crates/app/src/bootstrap/start_menu). Connected, the user browses a
-- tree of schemas and relations, where the selected relation may be previewed
-- (crates/ui/src/state/schema.rs). A query is written in a multi-line text input
-- (crates/ui/src/state/text_input); while it is typed, the completion finds the relations that the
-- query around the cursor reads from (crates/search/completion/src/analyzer/scope.rs), unless a scan
-- shows that the cursor stands in a text or a comment (scan.rs there), and what belongs to the clause
-- that the cursor is in (context.rs there); inside a WITH clause its lexer and analyzer say what may
-- follow (crates/search/completion/src/start_keywords/with). The statement runs through a pooled
-- client of the database (crates/db/src), where a second task may cancel it. Its rows come back into
-- the results grid (crates/ui/src/state/results_state), where the user moves, scrolls, edits cells and
-- deletes rows; the changes go back to the server under the identity of the row. Names of relations
-- are quoted for SQL and made readable for the interface (crates/catalog/src). The model of the
-- semantic search is downloaded on first use (crates/ui/src/runtime/bootstrap/download).
--
-- The files.
--   Prelude      shared names, tests on numbers, lists, machine integers, Option as a monad.
--   TextInput    Utf8: texts, byte offsets and slices. Utils: utils.rs. State: mod.rs. Cursor:
--                cursor.rs. Selection: selection.rs. Lines, Editing and Indent: editing.rs. An
--                operation has the name of its Rust method, and takes and returns the state; one
--                that may panic returns an Option, none for a panic. View and its children relate
--                the state to the whole text before and behind the cursor, or to the text before, in
--                and behind the selection; Scroll has the bounds of scrolling.
--   Results      Data: what the engine hands over (crates/engine/src/models.rs). Presentation,
--                Grid (mod.rs), Selection, Scroll, Editing and Mutation: the files of
--                results_state. Valid and its children: the invariant of the grid and every change.
--                Session: an edit from its first key to its end. Update: writing a cell. Visible and
--                Fits: scrolling to the focus.
--   Cancellation Registry: cancellation.rs, with a store of operation states that tasks share by
--                their addresses. System: with_client and cancel_current of database.rs and the drop
--                in client.rs, as events in any order. Safety and Pending: what holds of every
--                schedule.
--   WithClause   Token and Lexer: lexer.rs. Analyzer: state.rs. An index into the bytes or tokens
--                is the list of those from there on.
--   Catalog      Identifier: QualifiedRelation and quote_identifier of lib.rs, and display.rs.
--                Quoting and Display: what their texts are.
--   Download     policy.rs of crates/ui/src/runtime/bootstrap/download: Policy has the limits and
--                the plans for a response, Transfer writes its body to a file, which is its bytes,
--                and Cleanup, Start and Outcome say what is left when it fails or succeeds. Copy has
--                the copy of a local file in its place. What the stream and the disk do is an
--                argument.
--   SchemaTree   Tree and State: crates/ui/src/state/schema.rs; a map is the list of its entries. Rows
--                says what the rows tell of the catalog, Valid has the invariant over all
--                operations, Moves the steps and scrolling, Drill and Sequence what expanding and
--                going back select, Preview what is previewed and what a new catalog selects.
--   StartMenu    Field and Form: crates/app/src/bootstrap/start_menu/form.rs. Menu: state.rs and
--                input.rs there; what the clipboard and the profile store answer comes with the
--                key. Offsets: the byte indices of a field's text. Editing, Submit, Locked and Fields:
--                the form; Valid and its children: the invariant over all events of the loop in
--                mod.rs.
--   QueryScope   crates/search/completion/src/analyzer/scope.rs: Identifier, Keywords, Lexer (its
--                index is the length of the input less that of the rest) and Scope. Total, Quoted,
--                Relations and Stars: what holds of them.
--   Scanner      Machine: crates/search/completion/src/analyzer/scan.rs, whose index is the end of the
--                text before the cursor less the rest of that text. Pieces: a statement as words,
--                signs, texts and comments. Rounds and Texts: the steps over them; Print: what the
--                scan finds. Total: that it ends.
--   Context      Clause: the words of a statement in context.rs of the same directory. Before: what
--                token.rs, identifiers.rs and context.rs read before the cursor. Detect:
--                detect_context. Opened and Offered: the clause that its words open, and what is
--                offered there and in a text.
--   Each component's Examples run it at concrete inputs.
--
-- Numbers, bounds and fuel. usize, u64 and u16 are natural numbers; where the source saturates, the
-- bound is written out, and where it adds plainly to a length or an index of something in memory, no
-- bound is needed. The registry's generation wraps at 2 ^ 64. The lexer takes one more round than
-- the input has bytes, and walk_ctes one more than there are tokens: each round takes at least one
-- byte or token, so that the rounds never run out. So does the lexer of QueryScope with its
-- characters, and the scan of Scanner, and collect_relations takes as many rounds as there are
-- tokens. The other loops are structural. A rectangle's x + width and y + height are plain sums, as in an area that fits in u16.
--
-- Concurrency. Each section of the cancellation that runs under its locks is one step; begin, whose
-- fetch_add and write of the registry are two atomic actions, is modelled as one.
--
-- Outside. The display width of a text (crate unicode-width) is a parameter of Results, and the
-- cancel tokens of tokio-postgres are a type parameter of Cancellation. ratatui's scrollbar states
-- are the values that are handed to them. The Unicode tables of letters and digits are a parameter of
-- QueryScope, Scanner and Context; the calls of crate url, and the check of a connection URL, which
-- crates/db makes with tokio-postgres, are parameters of StartMenu.
--
-- Not modelled: drawing and terminal input, connecting to the server and the SQL that is run there,
-- the profile store, configuration, and the semantic search with its archives and processes, which
-- are I/O or calls of other crates; and, of the completion, what it collects and ranks.
pub mod Prelude
pub mod TextInput
pub mod Results
pub mod Cancellation
pub mod WithClause
pub mod Catalog
pub mod Context
pub mod Download
pub mod SchemaTree
pub mod Scanner
pub mod StartMenu
pub mod QueryScope
