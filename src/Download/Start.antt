-- ===== src/Download/Start.antt =====
-- Where a plan starts.
use poqi.Prelude.{ltb, ℕ, ◌≡◌, refl, ◌⊎◌, inl, inr, Bool, true, false, Option, ◌==◌, if◌then◌else◌}
use mathlib.Core.Path.{subst}
use poqi.Download.Policy.{
  DownloadLimit, validate_total, check, validated, fresh_partial, accepts_existing,
  offset_over_limit, range_of, wrong_start, max_bytes, range_over_limit, segment, ok_or,
  checked_add, invalid_end, wrong_end, same_length, header_u64, unexpected_status, DownloadError,
  Result, ok, err, and_then, ResponsePlan, Response, response_plan, full_response_plan,
  partial_response_plan,
}

-- A plan that does not append starts at byte 0.
pub record Started (r : Result ResponsePlan) : Type 0 where
  pub start : (plan : ResponsePlan) → r ≡ ok plan → (plan.append ≡ true) ⊎ (plan.start_bytes ≡ 0)

ok_injective : {A : Type 0} (a b : A) → ok a ≡ ok b → a ≡ b
ok_injective a b h = cc

err-Started : (e : DownloadError) → Started (err e)
err-Started e = record { start = λ plan h. cc }

append-Started : (p : ResponsePlan) → (p.append ≡ true) ⊎ (p.start_bytes ≡ 0) → Started (ok p)
append-Started p h = record {
  start = λ plan e.
      subst (λ (q : ResponsePlan). (q.append ≡ true) ⊎ (q.start_bytes ≡ 0)) (ok_injective p plan e)
        h;
}

and_then-Started :
    {A : Type 0} (r : Result A) (f : A → Result ResponsePlan)
    → ((a : A) → Started (f a))
    → Started (and_then r f)
and_then-Started (ok a) f h = h a
and_then-Started (err e) f h = err-Started e

full-Started :
    (content_length : Option ℕ) (limit : DownloadLimit)
    → Started (full_response_plan content_length limit)
unfolding full_response_plan
full-Started content_length limit =
    and_then-Started (validated content_length limit) _ λ valid. append-Started _ (inr refl)

partial-Started :
    (response : Response) (content_length : Option ℕ) (from : ℕ) (limit : DownloadLimit)
    → Started (partial_response_plan response content_length from limit)
unfolding partial_response_plan
partial-Started response content_length from limit =
    and_then-Started (check (ltb 0 from) fresh_partial) _ λ a.
      and_then-Started (check (accepts_existing limit from) offset_over_limit) _ λ b.
        and_then-Started (range_of response.content_range) _ λ range.
          and_then-Started (check (range.start == from) wrong_start) _ λ c.
            and_then-Started (validate_total limit range.total) _ λ d.
              and_then-Started (check (ltb range.end (max_bytes limit)) range_over_limit) _ λ e.
                and_then-Started (segment range) _ λ segment_length.
                  and_then-Started (ok_or (checked_add range.end 1) invalid_end) _ λ response_end.
                    and_then-Started (check (response_end == range.total) wrong_end) _ λ h.
                      and_then-Started (same_length content_length segment_length) _
                        λ i. append-Started _ (inl refl)

either-Started :
    (b : Bool) (x y : Result ResponsePlan) → Started x → Started y → Started (if b then x else y)
either-Started true x y h k = h
either-Started false x y h k = k

pub response_plan-Started :
    (response : Response) (from : ℕ) (limit : DownloadLimit)
    → Started (response_plan response from limit)
unfolding response_plan
response_plan-Started response from limit =
    and_then-Started (header_u64 response.content_length) _ λ content_length.
      either-Started (response.status == 200) _ _ (full-Started content_length limit) (
        either-Started (response.status == 206) _ _
          (partial-Started response content_length from limit) (err-Started unexpected_status))
