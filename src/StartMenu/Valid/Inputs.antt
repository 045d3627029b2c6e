-- ===== src/StartMenu/Valid/Inputs.antt =====
-- Each input of the form has its cursor in its text (crates/app/src/bootstrap/start_menu).
use poqi.Prelude.{
  ◌≡◌, refl, Bool, true, false, Option, none, some, [], arith, if◌then◌else◌, not, ◌&&◌,
}
use poqi.TextInput.Utf8.{Line}
use poqi.StartMenu.Field.{runs, trim, is_empty, TextInput, input_new}
use poqi.StartMenu.Form.{
  database_field, clear_url, user_field, port_field, url, structured_uri, host_field, is_url,
  default_port, tls_field, password_field, locked_mode, name_field, localhost, structured,
  uri_field, mode_field, eq_field, CreationField, ProfileForm, text_of, with_text, edit_found,
  edit_text, move_field, UrlOps, Result, ok, err, keep_uri, toggle_mode, toggle_field,
  toggle_active, form_new, from_profile, next, switch_mode, ConnectionMode, FormError, TlsMode,
}
use poqi.StartMenu.Editing.{
  Edit, insert_text, end, edit_input, edit_split, Shows, edit_input-Yields,
}
use poqi.StartMenu.Menu.{insert_paste, paste_from_clipboard}

-- The cursor stands between two parts of the text.
abbrev pub IsSplit : TextInput → Type 0
IsSplit i = (r : Line) × (b : Line) × Shows i r b

pub record AllSplit (f : ProfileForm) : Type 0 where
  pub name : IsSplit f.name
  pub uri : IsSplit f.uri
  pub host : IsSplit f.host
  pub port : IsSplit f.port
  pub user : IsSplit f.user
  pub password : IsSplit f.password
  pub database : IsSplit f.database

runs-IsSplit : (e : Edit) (i : TextInput) → IsSplit i → IsSplit (runs (edit_input e) i)
runs-IsSplit e i (r, b, s) =
    let (j, done, shows) = edit_input-Yields e i r b s in
    rw (done, runs) ((edit_split e (r, b)).0, (edit_split e (r, b)).1, shows)

input_new-IsSplit : (value : Line) → IsSplit (input_new value)
unfolding input_new
input_new-IsSplit value =
    runs-IsSplit end (record { value = value; cursor = 0 })
      ([], value, record { text = refl; at = refl })

with_text-AllSplit :
    (field : CreationField) (i : TextInput) (f : ProfileForm)
    → IsSplit i
    → AllSplit f
    → AllSplit (with_text field i f)
with_text-AllSplit name_field i f h v = record {
  name = h;
  uri = v.uri;
  host = v.host;
  port = v.port;
  user = v.user;
  password = v.password;
  database = v.database;
}
with_text-AllSplit uri_field i f h v = record {
  name = v.name;
  uri = h;
  host = v.host;
  port = v.port;
  user = v.user;
  password = v.password;
  database = v.database;
}
with_text-AllSplit host_field i f h v = record {
  name = v.name;
  uri = v.uri;
  host = h;
  port = v.port;
  user = v.user;
  password = v.password;
  database = v.database;
}
with_text-AllSplit port_field i f h v = record {
  name = v.name;
  uri = v.uri;
  host = v.host;
  port = h;
  user = v.user;
  password = v.password;
  database = v.database;
}
with_text-AllSplit user_field i f h v = record {
  name = v.name;
  uri = v.uri;
  host = v.host;
  port = v.port;
  user = h;
  password = v.password;
  database = v.database;
}
with_text-AllSplit password_field i f h v = record {
  name = v.name;
  uri = v.uri;
  host = v.host;
  port = v.port;
  user = v.user;
  password = h;
  database = v.database;
}
with_text-AllSplit database_field i f h v = record {
  name = v.name;
  uri = v.uri;
  host = v.host;
  port = v.port;
  user = v.user;
  password = v.password;
  database = h;
}
with_text-AllSplit mode_field i f h v = v
with_text-AllSplit tls_field i f h v = v

-- What is no input is no part of it.
with_rest-AllSplit :
    (f : ProfileForm) (mode : ConnectionMode) (tls : TlsMode) (field : CreationField)
    (e : Option FormError) (locked : Bool)
    → AllSplit f
    → AllSplit
        (record f { mode = mode; tls = tls; active_field = field; error = e; name_locked = locked })
with_rest-AllSplit f mode tls field e locked v = record {
  name = v.name;
  uri = v.uri;
  host = v.host;
  port = v.port;
  user = v.user;
  password = v.password;
  database = v.database;
}

text_of-IsSplit :
    (field : CreationField) (f : ProfileForm) (i : TextInput)
    → text_of field f ≡ some i
    → AllSplit f
    → IsSplit i
text_of-IsSplit uri_field f i h v = let same : f.uri ≡ i = cc in rw (← same) v.uri
text_of-IsSplit host_field f i h v = let same : f.host ≡ i = cc in rw (← same) v.host
text_of-IsSplit port_field f i h v = let same : f.port ≡ i = cc in rw (← same) v.port
text_of-IsSplit user_field f i h v = let same : f.user ≡ i = cc in rw (← same) v.user
text_of-IsSplit password_field f i h v = let same : f.password ≡ i = cc in rw (← same) v.password
text_of-IsSplit database_field f i h v = let same : f.database ≡ i = cc in rw (← same) v.database
text_of-IsSplit mode_field f i h v = absurd (cc)
text_of-IsSplit tls_field f i h v = absurd (cc)
text_of-IsSplit name_field f i h v = let same : f.name ≡ i = ground (arith, h) in rw (← same) v.name

edit_found-AllSplit :
    (o : Option TextInput) (e : Edit) (f : ProfileForm)
    → text_of f.active_field f ≡ o
    → AllSplit f
    → AllSplit (edit_found o (runs (edit_input e)) f)
edit_found-AllSplit none e f h v = v
edit_found-AllSplit (some i) e f h v =
    let edited =
      with_text-AllSplit f.active_field (runs (edit_input e) i) f
        (runs-IsSplit e i (text_of-IsSplit f.active_field f i h v)) v in
    let g = with_text f.active_field (runs (edit_input e) i) f in
    with_rest-AllSplit g g.mode g.tls g.active_field none g.name_locked edited

-- Every edit of the active input keeps the cursors.
pub edit_text-AllSplit :
    (e : Edit) (f : ProfileForm) → AllSplit f → AllSplit (edit_text (runs (edit_input e)) f)
unfolding edit_text
edit_text-AllSplit e f v = edit_found-AllSplit (text_of f.active_field f) e f refl v

pub insert_paste-AllSplit :
    (text : Line) (f : ProfileForm) → AllSplit f → AllSplit (insert_paste text f)
unfolding insert_paste
insert_paste-AllSplit text f v =
    edit_text-AllSplit
      (insert_text (if eq_field f.active_field password_field then text else trim text)) f v

pub paste_from_clipboard-AllSplit :
    (clipboard : Result Line) (f : ProfileForm)
    → AllSplit f
    → AllSplit (paste_from_clipboard clipboard f)
unfolding paste_from_clipboard
paste_from_clipboard-AllSplit (ok text) f v = insert_paste-AllSplit text f v
paste_from_clipboard-AllSplit (err e) f v =
    with_rest-AllSplit f f.mode f.tls f.active_field (some e) f.name_locked v

pub error-AllSplit :
    (e : FormError) (f : ProfileForm) → AllSplit f → AllSplit (record f { error = some e })
error-AllSplit e f v = with_rest-AllSplit f f.mode f.tls f.active_field (some e) f.name_locked v

pub active_field-AllSplit :
    (field : CreationField) (f : ProfileForm)
    → AllSplit f
    → AllSplit (record f { active_field = field })
active_field-AllSplit field f v = with_rest-AllSplit f f.mode f.tls field f.error f.name_locked v

pub move_field-AllSplit :
    (backwards : Bool) (f : ProfileForm) → AllSplit f → AllSplit (move_field backwards f)
unfolding move_field
move_field-AllSplit backwards f v = active_field-AllSplit _ f v

pub either-AllSplit :
    (b : Bool) (f g : ProfileForm) → AllSplit f → AllSplit g → AllSplit (if b then f else g)
either-AllSplit true f g h k = h
either-AllSplit false f g h k = k

pub form_new-AllSplit : AllSplit form_new
unfolding form_new
form_new-AllSplit = record {
  name = input_new-IsSplit [];
  uri = input_new-IsSplit [];
  host = input_new-IsSplit localhost;
  port = input_new-IsSplit default_port;
  user = input_new-IsSplit [];
  password = input_new-IsSplit [];
  database = input_new-IsSplit [];
}

pub from_profile-AllSplit :
    (name uri : Line) (locked : Bool) (e : Option FormError)
    → AllSplit (from_profile name uri locked e)
unfolding from_profile
from_profile-AllSplit name uri locked e = record {
  name = input_new-IsSplit name;
  uri = input_new-IsSplit uri;
  host = input_new-IsSplit localhost;
  port = input_new-IsSplit default_port;
  user = input_new-IsSplit [];
  password = input_new-IsSplit [];
  database = input_new-IsSplit [];
}

-- A draft that is recovered keeps its inputs.
pub draft-AllSplit :
    (f : ProfileForm) (e : Option FormError) (locked : Bool)
    → AllSplit f
    → AllSplit (record f { error = e; name_locked = locked })
draft-AllSplit f e locked v = with_rest-AllSplit f f.mode f.tls f.active_field e locked v

keep_uri-IsSplit : (u : Result Line) (i : TextInput) → IsSplit i → IsSplit (keep_uri u i)
keep_uri-IsSplit (ok u) i h = input_new-IsSplit u
keep_uri-IsSplit (err e) i h = h

module _ (ops : UrlOps) where
  switch_mode-AllSplit :
      (m : ConnectionMode) (f : ProfileForm) → AllSplit f → AllSplit (switch_mode ops m f)
  switch_mode-AllSplit url f v =
      with_rest-AllSplit f structured f.tls mode_field none f.name_locked v
  switch_mode-AllSplit structured f v = record {
    name = v.name;
    uri = keep_uri-IsSplit (structured_uri ops f) f.uri v.uri;
    host = v.host;
    port = v.port;
    user = v.user;
    password = v.password;
    database = v.database;
  }

  toggle_mode-AllSplit : (f : ProfileForm) → AllSplit f → AllSplit (toggle_mode ops f)
  unfolding toggle_mode
  toggle_mode-AllSplit f v = either-AllSplit f.name_locked _ _ (error-AllSplit locked_mode f v) (
      either-AllSplit (is_url f.mode && not (is_empty (trim f.uri.value))) _ _
        (error-AllSplit clear_url f v) (switch_mode-AllSplit f.mode f v))

  toggle_field-AllSplit :
      (field : CreationField) (f : ProfileForm) → AllSplit f → AllSplit (toggle_field ops field f)
  toggle_field-AllSplit mode_field f v = toggle_mode-AllSplit f v
  toggle_field-AllSplit tls_field f v =
      with_rest-AllSplit f f.mode (next f.tls) f.active_field f.error f.name_locked v
  toggle_field-AllSplit _ f v = v

  pub toggle_active-AllSplit : (f : ProfileForm) → AllSplit f → AllSplit (toggle_active ops f)
  unfolding toggle_active
  toggle_active-AllSplit f v = toggle_field-AllSplit f.active_field f v
