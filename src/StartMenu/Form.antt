-- ===== src/StartMenu/Form.antt =====
-- `ProfileForm` (crates/app/src/bootstrap/start_menu/form.rs). The crate `url`, and the check of a
-- connection URL by crates/db, which parses it with tokio-postgres, are arguments.
use poqi.Prelude.{
  ℕ, ◌%◌, suc, ◌+◌, ◌-◌, ◌*◌, Bool, true, false, ◌&&◌, ◌||◌, not, Option, none, some, List, [], ◌∷◌,
  ◌==◌, leb, if◌then◌else◌, length, get_elem?, eq_text, u16_max,
}
use poqi.TextInput.Utf8.{Line}
use poqi.StartMenu.Field.{TextInput, input_new, is_empty, trim}

pub data ConnectionMode : Type 0 where
  url structured : ConnectionMode

pub data TlsMode : Type 0 where
  prefer require disable : TlsMode

unfoldable pub next : TlsMode → TlsMode
next prefer = require
next require = disable
next disable = prefer

unfoldable pub label : TlsMode → Line
label prefer = b'p' ∷ b'r' ∷ b'e' ∷ b'f' ∷ b'e' ∷ b'r' ∷ []
label require = b'r' ∷ b'e' ∷ b'q' ∷ b'u' ∷ b'i' ∷ b'r' ∷ b'e' ∷ []
label disable = b'd' ∷ b'i' ∷ b's' ∷ b'a' ∷ b'b' ∷ b'l' ∷ b'e' ∷ []

pub data CreationField : Type 0 where
  name_field mode_field uri_field host_field port_field : CreationField
  user_field password_field database_field tls_field : CreationField

-- The messages of the form.
pub data FormError : Type 0 where
  locked_mode clear_url empty_name empty_url missing_host missing_user bad_port : FormError
  no_url bad_host refused_port bad_user bad_password bad_database : FormError
  name_taken hint clipboard_failed recovered : Line → FormError

pub record ProfileForm : Type 0 where
  pub name : TextInput
  pub uri : TextInput
  pub host : TextInput
  pub port : TextInput
  pub user : TextInput
  pub password : TextInput
  pub database : TextInput
  pub mode : ConnectionMode
  pub tls : TlsMode
  pub active_field : CreationField
  pub error : Option FormError
  pub name_locked : Bool

pub data Result (A : Type 0) : Type 0 where
  ok : A → Result A
  err : FormError → Result A

-- The question mark: a step that fails ends the function with its error.
infixl 5 ◌>>=◌
abbrev pub ◌>>=◌ : {A B : Type 0} → Result A → (A → Result B) → Result B
err problem >>= rest = err problem
ok value >>= rest = rest value

infixl 5 ◌>>◌
abbrev pub ◌>>◌ : {B : Type 0} → Result (Unit {0}) → Result B → Result B
err problem >> next_step = err problem
ok _ >> next_step = next_step

abbrev pub refuse_if : Bool → FormError → Result (Unit {0})
refuse_if true e = err e
refuse_if false e = ok tt

abbrev pub map_err : {A : Type 0} → Option A → FormError → Result A
map_err none e = err e
map_err (some a) e = ok a

abbrev pub localhost : Line
localhost = b'l' ∷ b'o' ∷ b'c' ∷ b'a' ∷ b'l' ∷ b'h' ∷ b'o' ∷ b's' ∷ b't' ∷ []

abbrev pub default_port : Line
default_port = b'5' ∷ b'4' ∷ b'3' ∷ b'2' ∷ []

unfoldable pub form_new : ProfileForm
unfolding input_new
form_new = record {
  name = input_new [];
  uri = input_new [];
  host = input_new localhost;
  port = input_new default_port;
  user = input_new [];
  password = input_new [];
  database = input_new [];
  mode = url;
  tls = require;
  active_field = name_field;
  error = none;
  name_locked = false;
}

unfoldable pub from_profile : Line → Line → Bool → Option FormError → ProfileForm
unfolding input_new form_new
from_profile name uri name_locked error = record form_new {
  name = input_new name;
  uri = input_new uri;
  active_field = uri_field;
  error = error;
  name_locked = name_locked;
}

-- `active_text_mut`, as what is read and what is written through it.
abbrev pub text_of : CreationField → ProfileForm → Option TextInput
text_of name_field f = if f.name_locked then none else some f.name
text_of uri_field f = some f.uri
text_of host_field f = some f.host
text_of port_field f = some f.port
text_of user_field f = some f.user
text_of password_field f = some f.password
text_of database_field f = some f.database
text_of mode_field f = none
text_of tls_field f = none

unfoldable pub active_text : ProfileForm → Option TextInput
active_text f = text_of f.active_field f

abbrev pub with_text : CreationField → TextInput → ProfileForm → ProfileForm
with_text name_field i f = record f { name = i }
with_text uri_field i f = record f { uri = i }
with_text host_field i f = record f { host = i }
with_text port_field i f = record f { port = i }
with_text user_field i f = record f { user = i }
with_text password_field i f = record f { password = i }
with_text database_field i f = record f { database = i }
with_text mode_field i f = f
with_text tls_field i f = f

-- `edit_text` of input.rs
abbrev pub edit_found : Option TextInput → (TextInput → TextInput) → ProfileForm → ProfileForm
edit_found none operation f = f
edit_found (some i) operation f = record (with_text f.active_field (operation i) f) { error = none }

unfoldable pub edit_text : (TextInput → TextInput) → ProfileForm → ProfileForm
unfolding active_text
edit_text operation f = edit_found (active_text f) operation f

abbrev pub fields_of : ConnectionMode → List CreationField
fields_of url = name_field ∷ uri_field ∷ mode_field ∷ []
fields_of structured =
    name_field ∷ host_field ∷ port_field ∷ user_field ∷ password_field ∷ database_field ∷ tls_field
    ∷ mode_field ∷ []

-- The place of a field in the source's order.
abbrev pub field_number : CreationField → ℕ
field_number name_field = 0
field_number mode_field = 1
field_number uri_field = 2
field_number host_field = 3
field_number port_field = 4
field_number user_field = 5
field_number password_field = 6
field_number database_field = 7
field_number tls_field = 8

abbrev pub eq_field : CreationField → CreationField → Bool
eq_field a b = field_number a == field_number b

-- `position(…).unwrap_or(0)`, over the fields from number `n` on.
abbrev pub position_or_zero : CreationField → ℕ → List CreationField → ℕ
position_or_zero a n [] = 0
position_or_zero a n (x ∷ xs) =
    let rest = position_or_zero a (suc n) xs in if eq_field x a then n else rest

-- `current.checked_sub(1).unwrap_or(len - 1)`, or `(current + 1) % len`
abbrev pub step_index : Bool → ℕ → ℕ → ℕ
step_index true current len = if current == 0 then len - 1 else current - 1
step_index false current len = (current + 1) % len

abbrev pub or_field : Option CreationField → CreationField → CreationField
or_field none a = a
or_field (some b) a = b

unfoldable pub move_field : Bool → ProfileForm → ProfileForm
move_field backwards f =
    let fields = fields_of f.mode in
    let next = step_index backwards (position_or_zero f.active_field 0 fields) (length fields) in
    record f { active_field = or_field (get_elem? fields next) f.active_field }

-- `str::parse::<u16>`: the digits behind an optional plus sign.
abbrev u16_digits : ℕ → Line → Option ℕ
u16_digits acc [] = some acc
u16_digits acc (c ∷ cs) =
    let v = acc * 10 + (c - b'0') in
    let rest = u16_digits v cs in if leb b'0' c && (leb c b'9' && leb v u16_max) then rest else none

abbrev some_u16_digits : Line → Option ℕ
some_u16_digits [] = none
some_u16_digits (c ∷ cs) = u16_digits 0 (c ∷ cs)

unfoldable pub parse_u16 : Line → Option ℕ
parse_u16 [] = none
parse_u16 (c ∷ cs) = if c == b'+' then some_u16_digits cs else some_u16_digits (c ∷ cs)

-- `url::Url`, with the calls that the form makes.
pub record UrlOps : Type 1 where
  pub Url : Type 0
  pub postgresql_localhost : Option Url
  pub set_host : Line → Url → Option Url
  pub set_port : ℕ → Url → Option Url
  pub set_username : Line → Url → Option Url
  pub set_password : Line → Url → Option Url
  pub set_path : Line → Url → Option Url
  pub append_sslmode : Line → Url → Url
  pub into : Url → Line

pub record StoredConnectionProfile : Type 0 where
  pub name : Line
  pub uri : Line

-- `ProfileSelectionResult` of state.rs
pub data ProfileSelectionResult : Type 0 where
  selected : StoredConnectionProfile → ProfileSelectionResult
  create_new : Line → Line → ProfileForm → ProfileSelectionResult
  generate_test_data : ProfileSelectionResult

abbrev pub taken : Line → List StoredConnectionProfile → Bool
taken name [] = false
taken name (p ∷ ps) = eq_text p.name name || taken name ps

abbrev pub keep_uri : Result Line → TextInput → TextInput
keep_uri (ok uri) i = input_new uri
keep_uri (err e) i = i

abbrev pub is_url : ConnectionMode → Bool
is_url url = true
is_url structured = false

abbrev pub submitted_name : ProfileForm → Line
submitted_name f = if f.name_locked then f.name.value else trim f.name.value

-- `validate_connection_uri`, with the hint of its error.
abbrev pub valid_uri : (Line → Option Line) → Line → Result (Unit {0})
valid_uri validate uri = elim (validate uri) [ none ↦ ok tt | some h ↦ err (hint h) ]

module _ (ops : UrlOps) where
  unfoldable pub build_structured_url : Line → Line → ℕ → ProfileForm → Result Line
  unfolding trim label
  build_structured_url host database port f = do
    u0 ← map_err ops.postgresql_localhost no_url
    u1 ← map_err (ops.set_host host u0) bad_host
    u2 ← map_err (ops.set_port port u1) refused_port
    u3 ← map_err (ops.set_username (trim f.user.value) u2) bad_user
    u4 ←
        if is_empty f.password.value
        then ok u3
        else map_err (ops.set_password f.password.value u3) bad_password
    u5 ← map_err (ops.set_path database u4) bad_database
    ok (ops.into (ops.append_sslmode (label f.tls) u5))

  unfoldable pub structured_uri : ProfileForm → Result Line
  unfolding trim parse_u16 build_structured_url
  structured_uri f = do
    let host = trim f.host.value
    let database = trim f.database.value
    refuse_if (is_empty host || is_empty database) missing_host
    refuse_if (is_empty (trim f.user.value)) missing_user
    port ← map_err (parse_u16 f.port.value) bad_port
    refuse_if (port == 0) bad_port
    build_structured_url host database port f

  abbrev pub uri_of_mode : ConnectionMode → ProfileForm → Result Line
  uri_of_mode url f = if is_empty (trim f.uri.value) then err empty_url else ok (trim f.uri.value)
  uri_of_mode structured f = structured_uri f

  unfoldable pub connection_uri : ProfileForm → Result Line
  unfolding trim structured_uri
  connection_uri f = uri_of_mode f.mode f

  abbrev pub switch_mode : ConnectionMode → ProfileForm → ProfileForm
  switch_mode url f = record f { mode = structured; active_field = mode_field; error = none }
  switch_mode structured f = record f {
    uri = keep_uri (structured_uri f) f.uri;
    mode = url;
    active_field = mode_field;
    error = none;
  }

  unfoldable pub toggle_mode : ProfileForm → ProfileForm
  unfolding trim structured_uri input_new
  toggle_mode f =
      if f.name_locked
      then record f { error = some locked_mode }
      else if is_url f.mode && not (is_empty (trim f.uri.value))
      then record f { error = some clear_url }
      else switch_mode f.mode f

  abbrev pub toggle_field : CreationField → ProfileForm → ProfileForm
  toggle_field mode_field f = toggle_mode f
  toggle_field tls_field f = record f { tls = next f.tls }
  toggle_field _ f = f

  unfoldable pub toggle_active : ProfileForm → ProfileForm
  unfolding toggle_mode next
  toggle_active f = toggle_field f.active_field f

  module _ (validate : Line → Option Line) where
    unfoldable pub submit :
        List StoredConnectionProfile → ProfileForm → Result ProfileSelectionResult
    unfolding trim connection_uri
    submit profiles f = do
      let name = submitted_name f
      refuse_if (is_empty name) empty_name
      refuse_if (not f.name_locked && taken name profiles) (name_taken name)
      uri ← connection_uri f
      valid_uri validate uri
      ok (create_new name uri f)
