-- ===== src/Catalog/Display.antt =====
-- The readable form of an identifier shows no control characters.
use poqi.Prelude.{
  ℕ, refl, zero, suc, ◌/◌, ◌%◌, ◌<◌, ◌≡◌, false, ◌||◌, [], ◌∷◌, ◌++◌, ◌==◌, arith, ltb, Bool-cases,
  inl, inr,
}
use poqi.TextInput.Utf8.{Line}
use poqi.Catalog.Identifier.{
  hex_digit, hex, hex_4, is_control, is_bidi_control, escape, display_identifier,
}

abbrev IsShown : ℕ → Type 0
IsShown c = (is_control c || is_bidi_control c) ≡ false

abbrev pub AllShown : Line → Type 0
AllShown [] = Unit {0}
AllShown (c ∷ cs) = IsShown c × AllShown cs

AllShown-append : (a b : Line) → AllShown a → AllShown b → AllShown (a ++ b)
AllShown-append [] b h k = k
AllShown-append (c ∷ a) b (h, hs) k = (h, AllShown-append a b hs k)

ascii : (c : ℕ) → 0x1F < c → c < 0x7F → IsShown c
unfolding is_control is_bidi_control
ascii c h k = ground arith

digit : (d : ℕ) → d < 16 → IsShown (hex_digit d)
digit d h = ascii (hex_digit d) (ground arith) (ground arith)

last_digit : (n : ℕ) → IsShown (hex_digit (n % 16))
last_digit n = digit (n % 16) (omega arith)

hex-AllShown : (w n : ℕ) → AllShown (hex w n)
unfolding hex
hex-AllShown zero n = tt
hex-AllShown (suc w) n = elim (Bool-cases (n == 0)) [
  | inl y ↦ rw y tt
  | inr k ↦ rw k (AllShown-append (hex w (n / 16)) _ (hex-AllShown w (n / 16)) (last_digit n, tt))
]

hex_4-AllShown : (n : ℕ) → AllShown (hex_4 n)
unfolding hex_4
hex_4-AllShown n = elim (Bool-cases (ltb n 0x10000)) [
  | inl y ↦
      rw y
        (last_digit (n / 4096), (last_digit (n / 256), (last_digit (n / 16), (last_digit n, tt))))
  | inr k ↦ rw k (hex-AllShown 8 n)
]

escape-AllShown : (c : ℕ) → AllShown (escape c)
unfolding escape
escape-AllShown c = elim (Bool-cases (c == b'\\')) [
  | inl y ↦ rw y (refl, (refl, tt))
  | inr n ↦ elim (Bool-cases (is_control c || is_bidi_control c)) [
    | inl y ↦
        rw (n, y)
          (
            refl,
            (refl, (refl, AllShown-append (hex_4 c) (b'}' ∷ []) (hex_4-AllShown c) (refl, tt))),
          )
    | inr k ↦ rw (n, k) (k, tt)
  ]
]

-- No character of the readable form is a control character or changes the direction of the text.
pub display_identifier-AllShown : (value : Line) → AllShown (display_identifier value)
unfolding display_identifier
display_identifier-AllShown [] = tt
display_identifier-AllShown (c ∷ cs) =
    AllShown-append (escape c) _ (escape-AllShown c) (display_identifier-AllShown cs)
