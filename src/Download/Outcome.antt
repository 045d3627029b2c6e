-- ===== src/Download/Outcome.antt =====
-- What a download that succeeds leaves behind.
use poqi.Prelude.{
  ◌≤◌, ℕ, ◌+◌, ◌≡◌, refl, sym, ap, ◌∙◌, ◌⊎◌, inl, inr, Bool, true, false, Option, none, some, List,
  [], ◌∷◌, ◌++◌, ◌==◌, arith, length, length-append, append_assoc, append-nil, Bool-cases,
  if◌then◌else◌,
}
use mathlib.Core.Path.{subst}
use poqi.Download.Policy.{
  DownloadLimit, exact, at_most, validate_total, Result, ok, err, ResponsePlan, Response,
  response_plan,
}
use poqi.Download.Transfer.{
  Bytes, Arrival, received, broken, unwritten, Disk, Written, within, write_chunks, ends_at,
  accepted, finish, transfer, resume, follow_plan, write_http_response,
}
use poqi.Download.Start.{Started, response_plan-Started}

-- The bytes of the chunks that are there.
abbrev pub bytes : List Arrival → Bytes
bytes [] = []
bytes (received chunk ∷ more) = chunk ++ bytes more
bytes (_ ∷ more) = bytes more

abbrev pub FitsLimit : DownloadLimit → ℕ → Type 0
FitsLimit (exact expected) n = n ≡ expected
FitsLimit (at_most maximum) n = n ≤ maximum

-- The file holds the base and the chunks, and its length was counted.
abbrev Grown : Bytes → List Arrival → Written → Type 0
Grown base xs (file, err e) = Unit {0}
Grown base xs (file, ok n) = (file ≡ some (base ++ bytes xs)) × (length (base ++ bytes xs) ≡ n)

Grown-received :
    (base chunk : Bytes) (xs : List Arrival) (w : Written)
    → Grown (base ++ chunk) xs w
    → Grown base (received chunk ∷ xs) w
Grown-received base chunk xs (file, err e) h = tt
Grown-received base chunk xs (file, ok n) h = rw⁻¹ (append_assoc base chunk (bytes xs)) h

either-Grown :
    (base : Bytes) (xs : List Arrival) (b : Bool) (x y : Written)
    → Grown base xs x
    → Grown base xs y
    → Grown base xs (if b then x else y)
either-Grown base xs true x y h k = h
either-Grown base xs false x y h k = k

write_chunks-Grown :
    (limit : DownloadLimit) (base : Bytes) (n : ℕ) (xs : List Arrival)
    → length base ≡ n
    → Grown base xs (write_chunks limit base n xs)
unfolding write_chunks
write_chunks-Grown limit base n [] h =
    (ap some (sym (append-nil base)), ap length (append-nil base) ∙ h)
write_chunks-Grown limit base n (broken ∷ xs) h = tt
write_chunks-Grown limit base n (received chunk ∷ xs) h =
    either-Grown base (received chunk ∷ xs) (within limit (n + length chunk)) _ _
      (Grown-received base chunk xs _ (
        write_chunks-Grown limit (base ++ chunk) (n + length chunk) xs
          (omega (arith, length-append base chunk))))
      tt
write_chunks-Grown limit base n (unwritten chunk written ∷ xs) h =
    either-Grown base (unwritten chunk written ∷ xs) (within limit (n + length chunk)) _ _ tt tt

-- Besides, the length passed the limit.
abbrev Sound : DownloadLimit → Bytes → List Arrival → Written → Type 0
Sound limit base xs (file, err e) = Unit {0}
Sound limit base xs (file, ok n) =
    (file ≡ some (base ++ bytes xs)) × (length (base ++ bytes xs) ≡ n) × FitsLimit limit n

either-Sound :
    (limit : DownloadLimit) (base : Bytes) (xs : List Arrival) (b : Bool) (x y : Written)
    → Sound limit base xs x
    → Sound limit base xs y
    → Sound limit base xs (if b then x else y)
either-Sound limit base xs true x y h k = h
either-Sound limit base xs false x y h k = k

validate_total-FitsLimit :
    (limit : DownloadLimit) (n : ℕ) (v : Bool) → validate_total limit n ≡ ok v → FitsLimit limit n
unfolding validate_total
validate_total-FitsLimit (exact expected) n v h = ground arith
validate_total-FitsLimit (at_most maximum) n v h = ground arith

accepted-Sound :
    (limit : DownloadLimit) (base : Bytes) (xs : List Arrival) (file : Option Bytes) (n : ℕ)
    (r : Result Bool)
    → validate_total limit n ≡ r
    → Grown base xs (file, ok n)
    → Sound limit base xs (accepted file n r)
accepted-Sound limit base xs file n (ok v) e (g, h) = (g, h, validate_total-FitsLimit limit n v e)
accepted-Sound limit base xs file n (err x) e g = tt

finish-Sound :
    (limit : DownloadLimit) (base : Bytes) (xs : List Arrival) (expected : Option ℕ)
    (flushes : Bool) (w : Written)
    → Grown base xs w
    → Sound limit base xs (finish limit expected flushes w)
unfolding finish
finish-Sound limit base xs expected flushes (file, err e) g = tt
finish-Sound limit base xs expected flushes (file, ok n) g =
    either-Sound limit base xs flushes _ _
      (either-Sound limit base xs (ends_at expected n) _ _
        (accepted-Sound limit base xs file n (validate_total limit n) refl g) tt)
      tt

transfer-Sound :
    (limit : DownloadLimit) (disk : Disk) (xs : List Arrival) (plan : ResponsePlan)
    (file : Option Bytes) (base : Bytes)
    → length base ≡ plan.start_bytes
    → Sound limit base xs (transfer limit disk xs plan file base)
transfer-Sound limit disk xs plan file base h =
    either-Sound limit base xs disk.opens _ _
      (finish-Sound limit base xs plan.expected_end disk.flushes _
        (write_chunks-Grown limit base plan.start_bytes xs h))
      tt

-- What the file was before: nothing of it is kept, or all of it.
abbrev Downloaded : DownloadLimit → Option Bytes → List Arrival → Written → Type 0
Downloaded limit file xs w =
    (base : Bytes) × ((base ≡ []) ⊎ (file ≡ some base)) × Sound limit base xs w

resume-Downloaded :
    (limit : DownloadLimit) (disk : Disk) (xs : List Arrival) (plan : ResponsePlan)
    (file : Option Bytes)
    → Downloaded limit file xs (resume limit disk xs plan file)
resume-Downloaded limit disk xs plan none = ([], inl refl, tt)
resume-Downloaded limit disk xs plan (some content) =
    elim (Bool-cases (length content == plan.start_bytes)) [
      | inl y ↦ (
        content,
        inr refl,
        rw y (transfer-Sound limit disk xs plan (some content) content (same _ _ y)),
      )
      | inr n ↦ ([], inl refl, rw n tt)
    ]
  where
    same : (a b : ℕ) → (a == b) ≡ true → a ≡ b
    same a b h = ground arith

follow_plan-Downloaded :
    (limit : DownloadLimit) (disk : Disk) (xs : List Arrival) (file : Option Bytes)
    (r : Result ResponsePlan)
    → Started r
    → Downloaded limit file xs (follow_plan limit disk xs file r)
follow_plan-Downloaded limit disk xs file (err e) s = ([], inl refl, tt)
follow_plan-Downloaded limit disk xs file (ok plan) s = elim (Bool-cases plan.append) [
  | inl y ↦ rw y (resume-Downloaded limit disk xs plan file)
  | inr n ↦
      rw n (
        [],
        inl refl,
        transfer-Sound limit disk xs plan file [] (at_zero plan (s.start plan refl) n),
      )
]
  where
    at_zero :
        (p : ResponsePlan)
        → ((p.append ≡ true) ⊎ (p.start_bytes ≡ 0))
        → p.append ≡ false
        → 0 ≡ p.start_bytes
    at_zero p (inl a) b = cc
    at_zero p (inr a) b = sym a

-- After a download that succeeds the file holds the chunks, behind all or nothing of what it held
-- before, the number returned is its length, and that is the exact size, or at most the largest
-- one, that the limit allows.
pub write_http_response-FitsLimit :
    (response : Response) (file file' : Option Bytes) (from : ℕ) (limit : DownloadLimit)
    (disk : Disk) (xs : List Arrival) (n : ℕ)
    → write_http_response response file from limit disk xs ≡ (file', ok n)
    → (base : Bytes) × ((base ≡ []) ⊎ (file ≡ some base))
      × (file' ≡ some (base ++ bytes xs))
      × (length (base ++ bytes xs) ≡ n)
      × FitsLimit limit n
unfolding write_http_response
write_http_response-FitsLimit response file file' from limit disk xs n h =
    let (base, kept, sound) =
      subst (λ w. Downloaded limit file xs w) h
        (follow_plan-Downloaded limit disk xs file (response_plan response from limit)
          (response_plan-Started response from limit)) in
    (base, kept, sound.0, sound.1, sound.2)
