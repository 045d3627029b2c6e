-- ===== src/Results/Valid/Sizes.antt =====
-- The sizes of the results grid's tables under its operations on lists.
use poqi.Prelude.{
  ℕ, zero, suc, ◌-◌, ◌<◌, ◌≡◌, refl, ap, Bool, true, false, List, [], ◌∷◌, ◌==◌, arith, length,
  replicate, length-replicate, erase_idx, Bool-cases, inl, inr, map, ◌∙◌,
}
use poqi.TextInput.Utf8.{Line}
use poqi.Results.Presentation.{widen, widen_rows, build_presentation_cache}
use poqi.Results.Grid.{fitted, all_length, fitted_nulls, max_at}
use poqi.Results.Mutation.{at_row}
use poqi.Results.Valid.{AllLength}

==→≡ : (a b : ℕ) → (a == b) ≡ true → a ≡ b
==→≡ a b h = ground arith

pub length-fitted {ℓ κ} :
    {A : Type ℓ} {B : Type κ} (xs : List A) (d : A) (ys : List B)
    → length (fitted xs d ys) ≡ length ys
length-fitted xs d ys = elim (Bool-cases (length xs == length ys)) [
  | inl y ↦ rw y (==→≡ _ _ y)
  | inr n ↦ rw n (length-replicate (length ys) d)
]

AllLength-all_length {ℓ} :
    {A : Type ℓ} (n : ℕ) (xss : List (List A)) → all_length n xss ≡ true → AllLength n xss
AllLength-all_length n [] h = tt
AllLength-all_length n (xs ∷ xss) h = elim (Bool-cases (length xs == n)) [
  | inl y ↦ (==→≡ _ _ y, AllLength-all_length n xss (rw y at h))
  | inr k ↦ cc
]

AllLength-replicate {ℓ} : {A : Type ℓ} (n m : ℕ) (a : A) → AllLength n (replicate m (replicate n a))
AllLength-replicate n zero a = tt
AllLength-replicate n (suc m) a = (length-replicate n a, AllLength-replicate n m a)

-- Null flags that do not fit are replaced, so that they always do.
pub fitted_nulls-fit :
    (nulls : List (List Bool)) (headers : List Line) (rows : List (List Line))
    → (length (fitted_nulls nulls headers rows) ≡ length rows)
      × AllLength (length headers) (fitted_nulls nulls headers rows)
fitted_nulls-fit nulls headers rows = elim (Bool-cases (length nulls == length rows)) [
  | inl y ↦ elim (Bool-cases (all_length (length headers) nulls)) [
    | inl z ↦ rw (y, z) (==→≡ _ _ y, AllLength-all_length (length headers) nulls z)
    | inr n ↦
        rw (y, n)
          (
            length-replicate (length rows) _,
            AllLength-replicate (length headers) (length rows) false,
          )
  ]
  | inr n ↦
      rw n
        (length-replicate (length rows) _, AllLength-replicate (length headers) (length rows) false)
]

length-map {ℓ κ} :
    {A : Type ℓ} {B : Type κ} (f : A → B) (xs : List A) → length (map f xs) ≡ length xs
length-map f [] = refl
length-map f (x ∷ xs) = ap suc (length-map f xs)

module _ (width : Line → ℕ) where
  length-widen : (ws : List ℕ) (row : List Line) → length (widen width ws row) ≡ length ws
  unfolding widen
  length-widen [] row = refl
  length-widen (w ∷ ws) [] = refl
  length-widen (w ∷ ws) (v ∷ row) = ap suc (length-widen ws row)

  pub length-widen_rows :
      (ws : List ℕ) (rows : List (List Line)) → length (widen_rows width ws rows) ≡ length ws
  unfolding widen_rows
  length-widen_rows ws [] = refl
  length-widen_rows ws (row ∷ rows) =
      length-widen_rows (widen width ws row) rows ∙ length-widen ws row

  pub build_presentation_cache-lengths :
      (headers : List Line) (rows : List (List Line))
      → (length (build_presentation_cache width headers rows).0 ≡ length headers)
        × (length (build_presentation_cache width headers rows).1 ≡ length headers)
  unfolding build_presentation_cache
  build_presentation_cache-lengths headers rows = (
    length-map _ headers,
    length-widen_rows _ rows ∙ length-map _ (map _ headers) ∙ length-map _ headers,
  )

pub length-max_at : (ws : List ℕ) (i w : ℕ) → length (max_at ws i w) ≡ length ws
length-max_at [] i w = refl
length-max_at (v ∷ ws) zero w = refl
length-max_at (v ∷ ws) (suc i) w = ap suc (length-max_at ws i w)

module _ {ℓ} {A : Type ℓ} where
  pub length-erase_idx :
      (xs : List A) (i : ℕ) → i < length xs → length (erase_idx xs i) ≡ length xs - 1
  length-erase_idx [] i h = absurd (omega arith)
  length-erase_idx (x ∷ xs) zero h = omega arith
  length-erase_idx (x ∷ xs) (suc i) h = omega (arith, length-erase_idx xs i (omega arith))

  pub length-at_row :
      (f : List A → List A) (i : ℕ) (rs : List (List A)) → length (at_row f i rs) ≡ length rs
  length-at_row f i [] = refl
  length-at_row f zero (r ∷ rs) = refl
  length-at_row f (suc i) (r ∷ rs) = ap suc (length-at_row f i rs)

  pub AllLength-at_row :
      (f : List A → List A) (n i : ℕ) (rs : List (List A))
      → ((r : List A) → length (f r) ≡ length r)
      → AllLength n rs
      → AllLength n (at_row f i rs)
  AllLength-at_row f n i [] k h = tt
  AllLength-at_row f n zero (r ∷ rs) k (h, hs) = (k r ∙ h, hs)
  AllLength-at_row f n (suc i) (r ∷ rs) k (h, hs) = (h, AllLength-at_row f n i rs k hs)

  pub AllLength-erase_idx :
      (n i : ℕ) (rs : List (List A)) → AllLength n rs → AllLength n (erase_idx rs i)
  AllLength-erase_idx n i [] h = tt
  AllLength-erase_idx n zero (r ∷ rs) (h, hs) = hs
  AllLength-erase_idx n (suc i) (r ∷ rs) (h, hs) = (h, AllLength-erase_idx n i rs hs)
