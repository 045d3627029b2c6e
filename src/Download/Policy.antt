-- ===== src/Download/Policy.antt =====
-- Which responses a download accepts, and how it goes on with them
-- (crates/ui/src/runtime/bootstrap/download/policy.rs).
use poqi.Prelude.{
  ℕ, ◌+◌, ◌-◌, ◌*◌, Bool, true, false, ◌&&◌, ◌||◌, Option, none, some, [], ◌∷◌, ◌==◌, leb, ltb,
  if◌then◌else◌, u64_max,
}
use poqi.TextInput.Utf8.{Line}
use poqi.WithClause.Token.{eq_ignore_case}

pub data DownloadLimit : Type 0 where
  exact at_most : ℕ → DownloadLimit

abbrev max_runtime_archive_bytes : ℕ
max_runtime_archive_bytes = 512 * 1024 * 1024

abbrev runtime_archive : DownloadLimit
runtime_archive = at_most max_runtime_archive_bytes

unfoldable pub max_bytes : DownloadLimit → ℕ
max_bytes (exact bytes) = bytes
max_bytes (at_most bytes) = bytes

unfoldable expected_bytes : DownloadLimit → Option ℕ
expected_bytes (exact bytes) = some bytes
expected_bytes (at_most bytes) = none

unfoldable pub accepts_existing : DownloadLimit → ℕ → Bool
accepts_existing (exact expected) bytes = leb bytes expected
accepts_existing (at_most maximum) bytes = leb bytes maximum

-- The errors, one for each message.
pub data DownloadError : Type 0 where
  invalid_size over_limit unexpected_status invalid_content_length : DownloadError
  fresh_partial offset_over_limit missing_range invalid_range wrong_start : DownloadError
  range_over_limit invalid_length invalid_end wrong_end length_mismatch : DownloadError
  resume_missing resume_changed open_failed body_failed write_failed : DownloadError
  flush_failed incomplete metadata_failed source_failed create_failed read_failed : DownloadError

pub data Result (A : Type 0) : Type 0 where
  ok : A → Result A
  err : DownloadError → Result A

abbrev pub and_then : {A B : Type 0} → Result A → (A → Result B) → Result B
and_then (ok a) f = f a
and_then (err e) f = err e

-- `ok_or_else`
abbrev pub ok_or : {A : Type 0} → Option A → DownloadError → Result A
ok_or none e = err e
ok_or (some a) e = ok a

-- A check that is passed, or its error.
abbrev pub check : Bool → DownloadError → Result Bool
check passed e = if passed then ok true else err e

unfoldable pub validate_total : DownloadLimit → ℕ → Result Bool
validate_total (exact expected) bytes = check (bytes == expected) invalid_size
validate_total (at_most maximum) bytes = check (leb bytes maximum) over_limit

pub record ResponsePlan : Type 0 where
  pub append : Bool
  pub start_bytes : ℕ
  pub expected_end : Option ℕ
  pub progress_total : Option ℕ

pub record ContentRange : Type 0 where
  pub start : ℕ
  pub end : ℕ
  pub total : ℕ

-- A header of the response, as `to_str` reads it.
pub data Header : Type 0 where
  absent unreadable : Header
  readable : Line → Header

pub record Response : Type 0 where
  pub status : ℕ
  pub content_length : Header
  pub content_range : Header

-- `str::parse::<u64>`: the digits behind an optional plus sign.
abbrev parse_digits : ℕ → Line → Option ℕ
parse_digits acc [] = some acc
parse_digits acc (c ∷ cs) =
    let v = acc * 10 + (c - b'0') in
    let rest = parse_digits v cs in
    if leb b'0' c && (leb c b'9' && leb v u64_max) then rest else none

abbrev some_digits : Line → Option ℕ
some_digits [] = none
some_digits (c ∷ cs) = parse_digits 0 (c ∷ cs)

unfoldable parse_u64 : Line → Option ℕ
parse_u64 [] = none
parse_u64 (c ∷ cs) = if c == b'+' then some_digits cs else some_digits (c ∷ cs)

unfoldable pub header_u64 : Header → Result (Option ℕ)
unfolding parse_u64
header_u64 absent = ok none
header_u64 unreadable = err invalid_content_length
header_u64 (readable text) =
    and_then (ok_or (parse_u64 text) invalid_content_length) λ n. ok (some n)

abbrev before_first : ℕ → Option (Line × Line) → Option (Line × Line)
before_first c none = none
before_first c (some (a, b)) = some (c ∷ a, b)

-- `str::split_once`
unfoldable split_once : ℕ → Line → Option (Line × Line)
split_once sep [] = none
split_once sep (c ∷ cs) =
    let rest = split_once sep cs in if c == sep then some ([], cs) else before_first c rest

abbrev kw_bytes : Line
kw_bytes = b'b' ∷ b'y' ∷ b't' ∷ b'e' ∷ b's' ∷ []

abbrev ordered : ContentRange → Result ContentRange
ordered r = if ltb r.end r.start || leb r.total r.end then err invalid_range else ok r

unfoldable pub parse_content_range : Line → Result ContentRange
unfolding split_once parse_u64 eq_ignore_case
parse_content_range text =
    and_then (ok_or (split_once b' ' text) invalid_range) λ (unit, range_and_total).
      and_then (check (eq_ignore_case unit kw_bytes) invalid_range) λ known.
        and_then (ok_or (split_once b'/' range_and_total) invalid_range) λ (range, total).
          and_then (ok_or (split_once b'-' range) invalid_range) λ (start, end).
            and_then (ok_or (parse_u64 start) invalid_range) λ s.
              and_then (ok_or (parse_u64 end) invalid_range) λ e.
                and_then (ok_or (parse_u64 total) invalid_range)
                  λ t. ordered (record { start = s; end = e; total = t })

abbrev pub or_else : {A : Type 0} → Option A → Option A → Option A
or_else none b = b
or_else (some a) b = some a

abbrev pub validated : Option ℕ → DownloadLimit → Result Bool
validated none limit = ok true
validated (some length) limit = validate_total limit length

unfoldable pub full_response_plan : Option ℕ → DownloadLimit → Result ResponsePlan
unfolding validate_total expected_bytes
full_response_plan content_length limit = and_then (validated content_length limit) λ valid.
    ok (record {
      append = false;
      start_bytes = 0;
      expected_end = or_else content_length (expected_bytes limit);
      progress_total = or_else (expected_bytes limit) content_length;
    })

abbrev pub range_of : Header → Result ContentRange
range_of absent = err missing_range
range_of unreadable = err invalid_range
range_of (readable text) = parse_content_range text

-- `checked_add` of `u64`
abbrev pub checked_add : ℕ → ℕ → Option ℕ
checked_add a b = if leb (a + b) u64_max then some (a + b) else none

-- `checked_sub`
abbrev checked_sub : ℕ → ℕ → Option ℕ
checked_sub a b = if leb b a then some (a - b) else none

abbrev pub segment : ContentRange → Result ℕ
segment range =
    and_then (ok_or (checked_sub range.end range.start) invalid_length)
      λ length. ok_or (checked_add length 1) invalid_length

abbrev pub same_length : Option ℕ → ℕ → Result Bool
same_length none segment_length = ok true
same_length (some length) segment_length = check (length == segment_length) length_mismatch

unfoldable pub partial_response_plan : Response → Option ℕ → ℕ → DownloadLimit → Result ResponsePlan
unfolding accepts_existing max_bytes parse_content_range validate_total
partial_response_plan response content_length resume_from limit =
    and_then (check (ltb 0 resume_from) fresh_partial) λ resumed.
      and_then (check (accepts_existing limit resume_from) offset_over_limit) λ accepted.
        and_then (range_of response.content_range) λ range.
          and_then (check (range.start == resume_from) wrong_start) λ started.
            and_then (validate_total limit range.total) λ valid.
              and_then (check (ltb range.end (max_bytes limit)) range_over_limit) λ within.
                and_then (segment range) λ segment_length.
                  and_then (ok_or (checked_add range.end 1) invalid_end) λ response_end.
                    and_then (check (response_end == range.total) wrong_end) λ ended.
                      and_then (same_length content_length segment_length) λ agreed. ok (record {
                        append = true;
                        start_bytes = resume_from;
                        expected_end = some response_end;
                        progress_total = some range.total;
                      })

unfoldable pub response_plan : Response → ℕ → DownloadLimit → Result ResponsePlan
unfolding header_u64 full_response_plan partial_response_plan
response_plan response resume_from limit =
    and_then (header_u64 response.content_length) λ content_length.
      if response.status == 200
      then full_response_plan content_length limit
      else if response.status == 206
      then partial_response_plan response content_length resume_from limit
      else err unexpected_status
