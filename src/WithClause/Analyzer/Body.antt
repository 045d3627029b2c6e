-- ===== src/WithClause/Analyzer/Body.antt =====
-- What the analyzer's scans make of token lists whose parentheses are balanced.
use poqi.Prelude.{
  arith, true, false, Bool-cases, inl, inr, ◌-◌, ◌==◌, if◌then◌else◌, ℕ, suc, ◌≡◌, refl, ap, ◌∙◌,
  Option, none, some, List, [], ◌∷◌, ◌++◌, append_assoc, append-nil, sym,
}
use poqi.WithClause.Token.{
  WithToken, word, open_paren, close_paren, comma, eq_ignore_case, kw_select, kw_insert, kw_update,
  kw_delete,
}
use poqi.WithClause.Analyzer.{
  CteBodyKind, select, insert, update, delete, from_word, advance, complete, incomplete, or_kind,
  skip_column_list, scan_cte_body,
}

-- A token list with balanced parentheses.
pub data Body : Type 0 where
  finished : Body
  then_word : List ℕ → Body → Body
  then_comma : Body → Body
  then_group : Body → Body → Body

abbrev pub tokens : Body → List WithToken
tokens finished = []
tokens (then_word w b) = word w ∷ tokens b
tokens (then_comma b) = comma ∷ tokens b
tokens (then_group inner b) = open_paren ∷ tokens inner ++ close_paren ∷ tokens b

-- The kind of the first word outside all parentheses that names one.
abbrev pub first_kind : Body → Option CteBodyKind
first_kind finished = none
first_kind (then_word w b) = or_kind (from_word w) (first_kind b)
first_kind (then_comma b) = first_kind b
first_kind (then_group inner b) = first_kind b

-- The word that names a kind, in letters of any case.
abbrev keyword_of : CteBodyKind → List ℕ
keyword_of select = b's' ∷ b'e' ∷ b'l' ∷ b'e' ∷ b'c' ∷ b't' ∷ []
keyword_of insert = b'i' ∷ b'n' ∷ b's' ∷ b'e' ∷ b'r' ∷ b't' ∷ []
keyword_of update = b'u' ∷ b'p' ∷ b'd' ∷ b'a' ∷ b't' ∷ b'e' ∷ []
keyword_of delete = b'd' ∷ b'e' ∷ b'l' ∷ b'e' ∷ b't' ∷ b'e' ∷ []

abbrev pub Spells : List ℕ → CteBodyKind → Type 0
Spells w k = eq_ignore_case w (keyword_of k) ≡ true

abbrev pub NamesNone : List ℕ → Type 0
NamesNone w = (k : CteBodyKind) → eq_ignore_case w (keyword_of k) ≡ false

-- The kind that the first word names which names one, outside all parentheses of the body, or none.
pub data FirstNames : Body → Option CteBodyKind → Type 0 where
  at_end : FirstNames finished none
  behind_comma : {b : Body} {k : Option CteBodyKind} → FirstNames b k → FirstNames (then_comma b) k
  behind_group :
      {inner b : Body} {k : Option CteBodyKind} → FirstNames b k → FirstNames (then_group inner b) k
  behind_word :
      {w : List ℕ} {b : Body} {k : Option CteBodyKind}
      → NamesNone w
      → FirstNames b k
      → FirstNames (then_word w b) k
  at_word :
      {w : List ℕ} {b : Body} {k : CteBodyKind} → Spells w k → FirstNames (then_word w b) (some k)

-- What a word names.
abbrev Named : List ℕ → Option CteBodyKind → Type 0
Named w none = NamesNone w
Named w (some k) = Spells w k

from_word-Named : (w : List ℕ) → Named w (from_word w)
unfolding from_word
from_word-Named w = elim (Bool-cases (eq_ignore_case w kw_select)) [
  | inl y ↦ rw y y
  | inr n ↦ elim (Bool-cases (eq_ignore_case w kw_insert)) [
    | inl y ↦ rw (n, y) y
    | inr m ↦ elim (Bool-cases (eq_ignore_case w kw_update)) [
      | inl y ↦ rw (n, m, y) y
      | inr l ↦ elim (Bool-cases (eq_ignore_case w kw_delete)) [
        | inl y ↦ rw (n, m, l, y) y
        | inr k ↦ rw (n, m, l, k) (none_of n m l k)
      ]
    ]
  ]
]
  where
    none_of :
        eq_ignore_case w kw_select ≡ false
        → eq_ignore_case w kw_insert ≡ false
        → eq_ignore_case w kw_update ≡ false
        → eq_ignore_case w kw_delete ≡ false
        → NamesNone w
    none_of n m l k select = n
    none_of n m l k insert = m
    none_of n m l k update = l
    none_of n m l k delete = k

word-FirstNames :
    (w : List ℕ) (b : Body) (k : Option CteBodyKind)
    → Named w k
    → FirstNames b (first_kind b)
    → FirstNames (then_word w b) (or_kind k (first_kind b))
word-FirstNames w b none h f = behind_word h f
word-FirstNames w b (some k) h f = at_word h

pub first_kind-FirstNames : (b : Body) → FirstNames b (first_kind b)
first_kind-FirstNames finished = at_end
first_kind-FirstNames (then_word w b) =
    word-FirstNames w b (from_word w) (from_word-Named w) (first_kind-FirstNames b)
first_kind-FirstNames (then_comma b) = behind_comma (first_kind-FirstNames b)
first_kind-FirstNames (then_group inner b) = behind_group (first_kind-FirstNames b)

or_kind_assoc : (a b c : Option CteBodyKind) → or_kind (or_kind a b) c ≡ or_kind a (or_kind b c)
or_kind_assoc none b c = refl
or_kind_assoc (some x) b c = refl

or_kind-none : (a : Option CteBodyKind) → or_kind a none ≡ a
or_kind-none none = refl
or_kind-none (some x) = refl

not_one : (d : ℕ) → (suc (suc d) == 1) ≡ false
not_one d = ground arith

not_zero : (d : ℕ) → (suc (suc d) == 0) ≡ false
not_zero d = ground arith

pred_suc : (d : ℕ) → suc (suc (suc d)) - 1 ≡ suc (suc d)
pred_suc d = omega arith

scan_cte_body-close :
    (d : ℕ) (k : Option CteBodyKind) (ts : List WithToken)
    → scan_cte_body (suc (suc (suc d))) k (close_paren ∷ ts) ≡ scan_cte_body (suc (suc d)) k ts
unfolding scan_cte_body
scan_cte_body-close d k ts =
    ap (λ x. if x == 0 then complete k ts else scan_cte_body x k ts) (pred_suc d)
    ∙ ap (λ x. if x then complete k ts else scan_cte_body (suc (suc d)) k ts) (not_zero d)

-- Within a group nothing changes the kind.
scan_cte_body-inner :
    (d : ℕ) (k : Option CteBodyKind) (b : Body) (rest : List WithToken)
    → scan_cte_body (suc (suc d)) k (tokens b ++ rest) ≡ scan_cte_body (suc (suc d)) k rest
unfolding scan_cte_body
scan_cte_body-inner d k finished rest = refl
scan_cte_body-inner d k (then_word w b) rest =
    ap
      (λ x.
        scan_cte_body (suc (suc d)) (if x then or_kind k (from_word w) else k) (tokens b ++ rest))
      (not_one d)
    ∙ scan_cte_body-inner d k b rest
scan_cte_body-inner d k (then_comma b) rest = scan_cte_body-inner d k b rest
scan_cte_body-inner d k (then_group inner b) rest =
    ap (scan_cte_body (suc (suc (suc d))) k)
      (append_assoc (tokens inner) (close_paren ∷ tokens b) rest)
    ∙ scan_cte_body-inner (suc d) k inner (close_paren ∷ tokens b ++ rest)
    ∙ scan_cte_body-close d k (tokens b ++ rest)
    ∙ scan_cte_body-inner d k b rest

scan_cte_body-outer :
    (k : Option CteBodyKind) (b : Body) (rest : List WithToken)
    → scan_cte_body 1 k (tokens b ++ rest) ≡ scan_cte_body 1 (or_kind k (first_kind b)) rest
unfolding scan_cte_body
scan_cte_body-outer k finished rest = ap (λ x. scan_cte_body 1 x rest) (sym (or_kind-none k))
scan_cte_body-outer k (then_word w b) rest =
    scan_cte_body-outer (or_kind k (from_word w)) b rest
    ∙ ap (λ x. scan_cte_body 1 x rest) (or_kind_assoc k (from_word w) (first_kind b))
scan_cte_body-outer k (then_comma b) rest = scan_cte_body-outer k b rest
scan_cte_body-outer k (then_group inner b) rest =
    ap (scan_cte_body 2 k) (append_assoc (tokens inner) (close_paren ∷ tokens b) rest)
    ∙ scan_cte_body-inner 0 k inner (close_paren ∷ tokens b ++ rest)
    ∙ scan_cte_body-outer k b rest

-- A body ends at the parenthesis that closes it.
pub scan_cte_body-closed :
    (b : Body) (rest : List WithToken)
    → scan_cte_body 1 none (tokens b ++ close_paren ∷ rest) ≡ complete (first_kind b) rest
unfolding scan_cte_body
scan_cte_body-closed b rest = scan_cte_body-outer none b (close_paren ∷ rest)

-- Without it the body is incomplete.
pub scan_cte_body-open : (b : Body) → scan_cte_body 1 none (tokens b) ≡ incomplete (first_kind b)
unfolding scan_cte_body
scan_cte_body-open b =
    ap (scan_cte_body 1 none) (sym (append-nil (tokens b))) ∙ scan_cte_body-outer none b []

-- A column list is passed over to the parenthesis that closes it.
skip_column_list-inner :
    (d : ℕ) (b : Body) (rest : List WithToken)
    → skip_column_list (suc d) (tokens b ++ rest) ≡ skip_column_list (suc d) rest
unfolding skip_column_list
skip_column_list-inner d finished rest = refl
skip_column_list-inner d (then_word w b) rest = skip_column_list-inner d b rest
skip_column_list-inner d (then_comma b) rest = skip_column_list-inner d b rest
skip_column_list-inner d (then_group inner b) rest =
    ap (skip_column_list (suc (suc d))) (append_assoc (tokens inner) (close_paren ∷ tokens b) rest)
    ∙ skip_column_list-inner (suc d) inner (close_paren ∷ tokens b ++ rest)
    ∙ skip_column_list-inner d b rest

pub skip_column_list-closed :
    (b : Body) (rest : List WithToken)
    → skip_column_list 1 (tokens b ++ close_paren ∷ rest) ≡ advance rest
unfolding skip_column_list
skip_column_list-closed b rest = skip_column_list-inner 0 b (close_paren ∷ rest)
