-- ===== src/TextInput/Utf8.antt =====
-- Rust's `str` and `String`, as the text input uses them: a text is the list of its characters'
-- code points, and every position is a byte offset. Slicing a `str` at an offset that is no
-- character boundary panics, which is `none`.
use poqi.Prelude.{
  ℕ, zero, suc, ◌+◌, ◌-◌, ◌≤◌, ◌≡◌, refl, ap, ◌∙◌, Option, none, some, List, [], ◌∷◌, ◌++◌, arith,
  leb, ltb, if◌then◌else◌, le→leb, leb→le, Bool-cases, inl, inr,
}

abbrev pub Line : Type 0
Line = List ℕ

-- `char::len_utf8`
unfoldable pub len_utf8 : ℕ → ℕ
len_utf8 c = if ltb c 0x80 then 1 else if ltb c 0x800 then 2 else if ltb c 0x10000 then 3 else 4

-- `str::len`
abbrev pub byte_len : Line → ℕ
byte_len [] = 0
byte_len (c ∷ cs) = len_utf8 c + byte_len cs

abbrev pub cons_left : ℕ → Option (Line × Line) → Option (Line × Line)
cons_left c none = none
cons_left c (some (a, b)) = some (c ∷ a, b)

-- `str::split_at`, and `String::split_off` with both halves.
unfoldable pub split_at : Line → ℕ → Option (Line × Line)
split_at cs zero = some ([], cs)
split_at [] (suc n) = none
split_at (c ∷ cs) (suc n) =
    let rest = split_at cs (suc n - len_utf8 c) in
    if leb (len_utf8 c) (suc n) then cons_left c rest else none

pub len_utf8_pos : (c : ℕ) → 1 ≤ len_utf8 c
unfolding len_utf8
len_utf8_pos c = ground arith

pub byte_len-append : (a b : Line) → byte_len (a ++ b) ≡ byte_len a + byte_len b
byte_len-append [] b = omega arith
byte_len-append (c ∷ a) b = omega (arith, byte_len-append a b)

pub byte_len-snoc : (a : Line) (c : ℕ) → byte_len (a ++ c ∷ []) ≡ byte_len a + len_utf8 c
byte_len-snoc a c = omega (arith, byte_len-append a (c ∷ []))

pub split_at-cons :
    (c : ℕ) (cs : Line) (n : ℕ)
    → len_utf8 c ≤ n
    → split_at (c ∷ cs) n ≡ cons_left c (split_at cs (n - len_utf8 c))
unfolding split_at
split_at-cons c cs zero h = absurd (omega (arith, len_utf8_pos c))
split_at-cons c cs (suc n) h = rw (le→leb _ _ h)

add_sub_left : (a b : ℕ) → a + b - a ≡ b
add_sub_left a b = omega arith

-- A text splits where a prefix of it ends.
pub split_at-append : (a b : Line) → split_at (a ++ b) (byte_len a) ≡ some (a, b)
split_at-append [] b = unfold split_at in refl
split_at-append (c ∷ a) b =
    split_at-cons c (a ++ b) _ (omega arith)
    ∙ rw (add_sub_left (len_utf8 c) (byte_len a)) (ap (cons_left c) (split_at-append a b))

abbrev Parts : Line → ℕ → Option (Line × Line) → Type 0
Parts cs n none = Unit {0}
Parts cs n (some (a, b)) = (cs ≡ a ++ b) × (byte_len a ≡ n)

Parts-cons_left :
    (c n : ℕ) (cs : Line) (r : Option (Line × Line))
    → len_utf8 c ≤ n
    → Parts cs (n - len_utf8 c) r
    → Parts (c ∷ cs) n (cons_left c r)
Parts-cons_left c n cs none h p = tt
Parts-cons_left c n cs (some (a, b)) h (p, q) = (ap (c ∷◌) p, omega arith)

-- The halves of a split make up the text, and the first is as long as the offset says.
split_at-Parts : (cs : Line) (n : ℕ) → Parts cs n (split_at cs n)
unfolding split_at
split_at-Parts cs zero = (refl, refl)
split_at-Parts [] (suc n) = tt
split_at-Parts (c ∷ cs) (suc n) = elim (Bool-cases (leb (len_utf8 c) (suc n))) [
  | inl y ↦ rw y (Parts-cons_left c (suc n) cs _ (leb→le _ _ y) (split_at-Parts cs _))
  | inr y ↦ rw y tt
]

split_at-parts :
    (cs : Line) (n : ℕ) (a b : Line)
    → split_at cs n ≡ some (a, b)
    → (cs ≡ a ++ b) × (byte_len a ≡ n)
split_at-parts cs n a b h = rw h at (split_at-Parts cs n)
