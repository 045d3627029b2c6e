-- ===== src/Download/Copy.antt =====
-- `copy_local_file`: a local file takes the place of a download
-- (crates/ui/src/runtime/bootstrap/download/policy.rs). The arrivals are what the reads of the
-- source give, and what becomes of their writes.
use poqi.Prelude.{
  ℕ, ◌+◌, ◌≤◌, ◌≡◌, ◌≢◌, refl, ap, ◌∙◌, Bool, true, Option, none, some, List, [], ◌∷◌, ◌++◌, arith,
  length, le→leb, if◌then◌else◌, if_true, u64_max, length-append, append_assoc, append-nil,
}
use poqi.Download.Policy.{
  DownloadLimit, exact, at_most, max_bytes, validate_total, Result, ok, err, over_limit,
  write_failed, metadata_failed, source_failed, create_failed, read_failed,
}
use poqi.Download.Transfer.{
  Bytes, Arrival, received, broken, unwritten, Disk, Written, within, done, finish,
}
use poqi.Download.Outcome.{FitsLimit}

-- Its size, if the file system tells it, and whether it opens the file.
pub record SourceFile : Type 0 where
  pub size : Option ℕ
  pub opens : Bool

-- The loop over the reads, on the bytes of the copy and their number; an empty read is the end.
unfoldable pub copy_chunks : DownloadLimit → Bytes → ℕ → List Arrival → Written
unfolding max_bytes
copy_chunks limit content copied [] = done (some content) copied
copy_chunks limit content copied (broken ∷ more) = (some content, err read_failed)
copy_chunks limit content copied (received [] ∷ more) = done (some content) copied
copy_chunks limit content copied (received (b ∷ bs) ∷ more) =
    let next = copied + length (b ∷ bs) in
    let rest = copy_chunks limit (content ++ b ∷ bs) next more in
    if within limit next then rest else (none, err over_limit)
copy_chunks limit content copied (unwritten [] written ∷ more) = done (some content) copied
copy_chunks limit content copied (unwritten (b ∷ bs) written ∷ more) =
    if within limit (copied + length (b ∷ bs))
    then (some (content ++ written), err write_failed)
    else (none, err over_limit)

-- Behind the checks: both files are opened, and the copy is flushed and its size is checked.
abbrev pub copy_opened :
    Bool → Option Bytes → DownloadLimit → Disk → List Arrival → Result Bool → Written
copy_opened opens file limit disk reads (err e) = (none, err e)
copy_opened opens file limit disk reads (ok valid) =
    if opens
    then (if disk.opens
        then finish limit none disk.flushes (copy_chunks limit [] 0 reads)
        else (file, err create_failed))
    else (file, err source_failed)

abbrev pub copy_sized :
    Option ℕ → Bool → Option Bytes → DownloadLimit → Disk → List Arrival → Written
copy_sized none opens file limit disk reads = (file, err metadata_failed)
copy_sized (some size) opens file limit disk reads =
    copy_opened opens file limit disk reads (validate_total limit size)

unfoldable pub copy_local_file :
    SourceFile → Option Bytes → DownloadLimit → Disk → List Arrival → Written
unfolding validate_total copy_chunks finish
copy_local_file source file limit disk reads =
    copy_sized source.size source.opens file limit disk reads

-- The reads that give the parts one by one.
abbrev pub reads_of : List Bytes → List Arrival → List Arrival
reads_of [] more = more
reads_of (part ∷ parts) more = received part ∷ reads_of parts more

abbrev pub content_of : List Bytes → Bytes
content_of [] = []
content_of (part ∷ parts) = part ++ content_of parts

abbrev pub NoneEmpty : List Bytes → Type 0
NoneEmpty [] = Unit {0}
NoneEmpty (part ∷ parts) = (part ≢ []) × NoneEmpty parts

FitsLimit-validate_total :
    (limit : DownloadLimit) (n : ℕ) → FitsLimit limit n → validate_total limit n ≡ ok true
unfolding validate_total
FitsLimit-validate_total (exact expected) n h = ground arith
FitsLimit-validate_total (at_most maximum) n h = ground arith

FitsLimit-le : (limit : DownloadLimit) (n : ℕ) → FitsLimit limit n → n ≤ max_bytes limit
unfolding max_bytes
FitsLimit-le (exact expected) n h = omega arith
FitsLimit-le (at_most maximum) n h = h

within-le :
    (limit : DownloadLimit) (n total : ℕ)
    → n ≤ total
    → total ≤ u64_max
    → total ≤ max_bytes limit
    → within limit n ≡ true
within-le limit n total h k l =
    rw (le→leb n u64_max (omega arith), le→leb n (max_bytes limit) (omega arith)) refl

copy_chunks-reads_of :
    (limit : DownloadLimit) (base : Bytes) (n total : ℕ) (parts : List Bytes) (more : List Arrival)
    → NoneEmpty parts
    → n + length (content_of parts) ≡ total
    → total ≤ u64_max
    → total ≤ max_bytes limit
    → copy_chunks limit base n (reads_of parts (received [] ∷ more))
      ≡ done (some (base ++ content_of parts)) total
unfolding copy_chunks
copy_chunks-reads_of limit base n total [] more h e k l =
    let same : n ≡ total = omega arith in
    rw (append-nil base) (ap (λ (m : ℕ). done (some base) m) same)
copy_chunks-reads_of limit base n total ([] ∷ parts) more (h, hs) e k l = absurd (h refl)
copy_chunks-reads_of limit base n total ((b ∷ bs) ∷ parts) more (h, hs) e k l =
    let part = b ∷ bs in
    let left : n + length part + length (content_of parts) ≡ total =
      omega (arith, length-append part (content_of parts)) in
    if_true (within limit (n + length part)) _ _
      (within-le limit (n + length part) total (omega (arith, left)) k l)
    ∙ copy_chunks-reads_of limit (base ++ part) (n + length part) total parts more hs left k l
    ∙ ap (λ (bytes : Bytes). done (some bytes) total) (append_assoc base part (content_of parts))

finish-done :
    (limit : DownloadLimit) (bytes : Bytes) (n : ℕ)
    → validate_total limit n ≡ ok true
    → finish limit none true (done (some bytes) n) ≡ done (some bytes) n
unfolding finish
finish-done limit bytes n h = rw h refl

-- A source that tells its size and is read to its end in parts, none of them empty, is copied whole,
-- whatever was at the path before, if its size is a `u64` and is the exact one, or at most the
-- largest one, that the limit allows, and the files open and the copy is flushed. The number
-- returned is the size.
pub copy_local_file-Copies :
    (limit : DownloadLimit) (file : Option Bytes) (parts : List Bytes) (more : List Arrival)
    → NoneEmpty parts
    → length (content_of parts) ≤ u64_max
    → FitsLimit limit (length (content_of parts))
    → copy_local_file
        (record { size = some (length (content_of parts)); opens = true })
        file
        limit
        (record { opens = true; flushes = true })
        (reads_of parts (received [] ∷ more))
      ≡ (some (content_of parts), ok (length (content_of parts)))
unfolding copy_local_file
copy_local_file-Copies limit file parts more h k fits =
    let n = length (content_of parts) in
    let valid = FitsLimit-validate_total limit n fits in
    let disk : Disk = record { opens = true; flushes = true } in
    let reads = reads_of parts (received [] ∷ more) in
    ap (copy_opened true file limit disk reads) valid
    ∙ ap (finish limit none true)
        (copy_chunks-reads_of limit [] 0 n parts more h (omega arith) k (FitsLimit-le limit n fits))
    ∙ finish-done limit (content_of parts) n valid
