-- ===== src/Catalog/Examples.antt =====
-- Names of relations with characters that SQL or a terminal would take for their own.
use poqi.Prelude.{◌≡◌, some, [], ◌∷◌}
use poqi.TextInput.Utf8.{Line}
use poqi.Catalog.Identifier.{QualifiedRelation, quoted, display_identifier}
use poqi.Catalog.Quoting.{read_relation, read_relation-quoted}
use poqi.Catalog.Display.{AllShown, display_identifier-AllShown}

-- `a"b`
abbrev odd_name : Line
odd_name = b'a' ∷ b'"' ∷ b'b' ∷ []

abbrev odd_relation : QualifiedRelation
odd_relation = record { schema = some (b'"' ∷ b'.' ∷ []); name = odd_name }

read_relation-quoted_example : read_relation (quoted odd_relation) ≡ some odd_relation
read_relation-quoted_example = read_relation-quoted odd_relation

display_identifier-AllShown_example : AllShown (display_identifier (b'a' ∷ 10 ∷ 0x202E ∷ []))
display_identifier-AllShown_example = display_identifier-AllShown (b'a' ∷ 10 ∷ 0x202E ∷ [])
