-- ===== src/Download/Examples.antt =====
-- A download that is resumed behind its third byte, as the server has it and as it has not.
use poqi.Prelude.{arith, ◌≡◌, refl, ◌⊎◌, true, some, none, Option, List, [], ◌∷◌, ◌++◌, length}
use poqi.TextInput.Utf8.{Line}
use poqi.Download.Policy.{exact, readable, Response, ok, err, over_limit}
use poqi.Download.Transfer.{Bytes, Arrival, received, Disk, write_http_response}
use poqi.Download.Copy.{copy_local_file, reads_of, NoneEmpty, copy_local_file-Copies}
use poqi.Download.Outcome.{bytes, FitsLimit, write_http_response-FitsLimit}

-- `bytes 3-5/6`
abbrev range_text : Line
range_text = b'b' ∷ b'y' ∷ b't' ∷ b'e' ∷ b's' ∷ b' ' ∷ b'3' ∷ b'-' ∷ b'5' ∷ b'/' ∷ b'6' ∷ []

abbrev partial : Response
partial = record {
  status = 206;
  content_length = readable (b'3' ∷ []);
  content_range = readable range_text;
}

abbrev disk : Disk
disk = record { opens = true; flushes = true }

abbrev chunks : List Arrival
chunks = received (4 ∷ 5 ∷ []) ∷ received (6 ∷ []) ∷ []

abbrev old : Bytes
old = 1 ∷ 2 ∷ 3 ∷ []

resumed :
    write_http_response partial (some old) 3 (exact 6) disk chunks
    ≡ (some (1 ∷ 2 ∷ 3 ∷ 4 ∷ 5 ∷ 6 ∷ []), ok 6)
unfolding write_http_response
resumed = refl

write_http_response-FitsLimit_example :
    (base : Bytes) × ((base ≡ []) ⊎ (some old ≡ some base))
    × (some (1 ∷ 2 ∷ 3 ∷ 4 ∷ 5 ∷ 6 ∷ []) ≡ some (base ++ bytes chunks))
    × (length (base ++ bytes chunks) ≡ 6)
    × FitsLimit (exact 6) 6
write_http_response-FitsLimit_example =
    write_http_response-FitsLimit partial (some old) (some (1 ∷ 2 ∷ 3 ∷ 4 ∷ 5 ∷ 6 ∷ [])) 3 (exact 6)
      disk chunks 6 resumed

abbrev no_file : Option Bytes
no_file = none

-- The source got longer than the limit after its size was read.
copy_grown :
    copy_local_file
      (record { size = some 3; opens = true })
      (some old)
      (exact 3)
      disk
      (received (1 ∷ 2 ∷ []) ∷ received (3 ∷ 4 ∷ []) ∷ [])
    ≡ (none, err over_limit)
unfolding copy_local_file
copy_grown = refl

abbrev parts : List Bytes
parts = (1 ∷ 2 ∷ []) ∷ (3 ∷ []) ∷ []

parts-NoneEmpty : NoneEmpty parts
parts-NoneEmpty = let last : NoneEmpty ((3 ∷ []) ∷ []) = (λ e. cc, tt) in (λ e. cc, last)

copy_local_file-Copies_example :
    copy_local_file
      (record { size = some 3; opens = true })
      (some old)
      (exact 3)
      disk
      (reads_of parts (received [] ∷ []))
    ≡ (some (1 ∷ 2 ∷ 3 ∷ []), ok 3)
copy_local_file-Copies_example =
    copy_local_file-Copies (exact 3) (some old) parts [] parts-NoneEmpty (omega arith) refl
