-- ===== src/Download/Transfer.antt =====
-- `write_http_response`: the body of a response goes to a file
-- (crates/ui/src/runtime/bootstrap/download/policy.rs). The file at the path is its bytes, or
-- `none` if there is none; progress events are left out. Asking for the size of a file that is
-- there and removing a file are taken to succeed (the source ignores that a removal fails).
use poqi.Prelude.{
  ℕ, true, ◌+◌, Bool, ◌&&◌, Option, none, some, List, [], ◌∷◌, ◌++◌, ◌==◌, leb, if◌then◌else◌,
  length, u64_max,
}
use poqi.Download.Policy.{
  DownloadLimit, max_bytes, validate_total, DownloadError, Result, ok, err, over_limit, body_failed,
  write_failed, flush_failed, incomplete, resume_missing, resume_changed, open_failed, Response,
  ResponsePlan, response_plan,
}

abbrev pub Bytes : Type 0
Bytes = List ℕ

-- What the stream and the file system do with the next chunk.
pub data Arrival : Type 0 where
  -- the chunk is there and is written
  received : Bytes → Arrival
  -- the stream fails
  broken : Arrival
  -- the chunk is there, and its write fails behind some of its bytes
  unwritten : Bytes → Bytes → Arrival

-- Whether the file system opens the file, and flushes it at the end.
pub record Disk : Type 0 where
  pub opens : Bool
  pub flushes : Bool

abbrev pub Written : Type 0
Written = Option Bytes × Result ℕ

-- The file and its error; a file that is `none` was removed.
abbrev fails : Option Bytes → DownloadError → Written
fails file e = (file, err e)

abbrev pub done : Option Bytes → ℕ → Written
done file n = (file, ok n)

abbrev pub within : DownloadLimit → ℕ → Bool
within limit next = leb next u64_max && leb next (max_bytes limit)

-- The loop over the chunks, on the file's bytes and their number.
unfoldable pub write_chunks : DownloadLimit → Bytes → ℕ → List Arrival → Written
unfolding max_bytes
write_chunks limit content downloaded [] = done (some content) downloaded
write_chunks limit content downloaded (broken ∷ more) = fails (some content) body_failed
write_chunks limit content downloaded (received chunk ∷ more) =
    let next = downloaded + length chunk in
    let rest = write_chunks limit (content ++ chunk) next more in
    if within limit next then rest else fails none over_limit
write_chunks limit content downloaded (unwritten chunk written ∷ more) =
    if within limit (downloaded + length chunk)
    then fails (some (content ++ written)) write_failed
    else fails none over_limit

abbrev pub ends_at : Option ℕ → ℕ → Bool
ends_at none n = true
ends_at (some expected) n = n == expected

abbrev pub accepted : Option Bytes → ℕ → Result Bool → Written
accepted file n (ok valid) = done file n
accepted file n (err e) = fails none e

-- Behind the loop: the flush, the expected end and the limit.
unfoldable pub finish : DownloadLimit → Option ℕ → Bool → Written → Written
unfolding validate_total
finish limit expected flushes (file, err e) = fails file e
finish limit expected flushes (file, ok n) =
    if flushes
    then (if ends_at expected n
        then accepted file n (validate_total limit n)
        else fails none incomplete)
    else fails file flush_failed

abbrev pub transfer :
    DownloadLimit → Disk → List Arrival → ResponsePlan → Option Bytes → Bytes → Written
transfer limit disk arrivals plan file base =
    if disk.opens
    then finish limit plan.expected_end disk.flushes
        (write_chunks limit base plan.start_bytes arrivals)
    else fails file open_failed

-- A resumed download goes on behind the file that is there, a fresh one starts with an empty file.
abbrev pub resume : DownloadLimit → Disk → List Arrival → ResponsePlan → Option Bytes → Written
resume limit disk arrivals plan none = fails none resume_missing
resume limit disk arrivals plan (some content) =
    if length content == plan.start_bytes
    then transfer limit disk arrivals plan (some content) content
    else fails none resume_changed

abbrev pub follow_plan :
    DownloadLimit → Disk → List Arrival → Option Bytes → Result ResponsePlan → Written
follow_plan limit disk arrivals file (err e) = fails none e
follow_plan limit disk arrivals file (ok plan) =
    if plan.append
    then resume limit disk arrivals plan file
    else transfer limit disk arrivals plan file []

unfoldable pub write_http_response :
    Response → Option Bytes → ℕ → DownloadLimit → Disk → List Arrival → Written
unfolding response_plan write_chunks finish
write_http_response response file resume_from limit disk arrivals =
    follow_plan limit disk arrivals file (response_plan response resume_from limit)
