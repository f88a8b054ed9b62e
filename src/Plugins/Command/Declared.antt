-- ===== src/Plugins/Command/Declared.antt =====
-- What the inputs of a built command have passed.
use secu_scan.Prelude.{
  string, ◌≡◌, refl, sym, ap, ◌∙◌, inl, inr, Bool, true, false, not, ◌&&◌, Option, none, some, List,
  [], ◌∷◌, arith, Bool-cases, Text, text_eq, text_eq_iff, Dict, lookup,
}
use secu_scan.Plugins.{
  InputValue, PluginFieldType, string, text, integer, boolean, select, multiselect, file, keyvalue,
  PluginField, Plugin, Outside, printed, is_blank,
}
use secu_scan.Plugins.Schema.{
  Check, accepted, value_error, pattern_error, has_traversal, is_no_flag, is_integer, is_boolean,
  is_option, find_field, is_control, validate_input, validate_field, validate_string_field,
  match_pattern, validate_inputs_against_schema,
}
use secu_scan.Plugins.Command.{
  Built, no_plugin, raised_value_error, raised_pattern_error, built, is_kept, kept_inputs,
  build_from, build_command,
}

-- What a value has to be for a field of its type
abbrev pub conforms : Outside → PluginField → Text → InputValue → Bool
conforms o f field_id value = elim f.field_type [
  | integer ↦ is_integer o value
  | boolean ↦ is_boolean value
  | select ↦ is_option f.options value
  | string ↦ is_no_flag o field_id (printed value) && not (has_traversal (printed value))
  | text ↦ is_no_flag o field_id (printed value) && not (has_traversal (printed value))
  | multiselect ↦ true
  | file ↦ true
  | keyvalue ↦ true
]

abbrev is_accepted : Check → Bool
is_accepted accepted = true
is_accepted value_error = false
is_accepted pattern_error = false

string-accepted :
    (o : Outside) (f : PluginField) (field_id value : Text)
    → is_accepted (validate_string_field o f field_id value) ≡ true
    → (is_no_flag o field_id value && not (has_traversal value)) ≡ true
unfolding validate_string_field
string-accepted o f field_id value h = split (match_pattern o f value) refl
  where
    split :
        (r : Check)
        → match_pattern o f value ≡ r
        → (is_no_flag o field_id value && not (has_traversal value)) ≡ true
    split accepted q = ground (arith, q, h)
    split value_error q = ground (arith, q, h)
    split pattern_error q = ground (arith, q, h)

field-conforms :
    (o : Outside) (f : PluginField) (field_id : Text) (value : InputValue)
    → is_accepted (validate_field o f field_id value) ≡ true
    → conforms o f field_id value ≡ true
unfolding validate_field
field-conforms o f field_id value h = split f.field_type refl
  where
    textual :
        is_accepted (validate_string_field o f field_id (printed value)) ≡ true
        → (is_no_flag o field_id (printed value) && not (has_traversal (printed value))) ≡ true
    textual = string-accepted o f field_id (printed value)

    split : (t : PluginFieldType) → f.field_type ≡ t → conforms o f field_id value ≡ true
    split integer q = rw q (ground (arith, q, h))
    split boolean q = rw q (ground (arith, q, h))
    split select q = rw q (ground (arith, q, h))
    split string q = rw q (textual (ground (arith, q, h)))
    split text q = rw q (textual (ground (arith, q, h)))
    split multiselect q = rw q refl
    split file q = rw q refl
    split keyvalue q = rw q refl

input-conforms :
    (o : Outside) (fields : List PluginField) (field_id : Text) (value : InputValue)
    → is_control field_id ≡ false
    → is_blank value ≡ false
    → is_accepted (validate_input o fields field_id value) ≡ true
    → (f : PluginField) × (find_field field_id fields ≡ some f)
      × (conforms o f field_id value ≡ true)
unfolding validate_input
input-conforms o fields field_id value user filled h = split (find_field field_id fields) refl
  where
    split :
        (r : Option PluginField)
        → find_field field_id fields ≡ r
        → (f : PluginField) × (find_field field_id fields ≡ some f)
          × (conforms o f field_id value ≡ true)
    split none q = absurd (ground (arith, q, user, h))
    split (some f) q =
        (f, q, field-conforms o f field_id value (ground (arith, q, user, filled, h)))

-- Every input has been accepted.
lookup-accepted :
    (o : Outside) (fields : List PluginField) (inputs : Dict InputValue) (key : Text)
    (value : InputValue)
    → validate_inputs_against_schema o fields inputs ≡ accepted
    → lookup key inputs ≡ some value
    → is_accepted (validate_input o fields key value) ≡ true
unfolding validate_inputs_against_schema lookup
lookup-accepted o fields [] key value h e = cc
lookup-accepted o fields ((k, v) ∷ inputs) key value h e =
    split (validate_input o fields k v) refl (lookup-accepted o fields inputs key value)
  where
    split :
        (r : Check)
        → validate_input o fields k v ≡ r
        → (validate_inputs_against_schema o fields inputs ≡ accepted
            → lookup key inputs ≡ some value
            → is_accepted (validate_input o fields key value) ≡ true)
        → is_accepted (validate_input o fields key value) ≡ true
    split accepted q ih = elim (Bool-cases (text_eq key k)) [
      | inl same ↦ ground (arith, same, text_eq_iff key k, q, e)
      | inr differs ↦ ih (ground (arith, q, h)) (ground (arith, differs, e))
    ]
    split value_error q ih = ground (arith, q, ap is_accepted h)
    split pattern_error q ih = ground (arith, q, ap is_accepted h)

lookup-kept :
    (fields : List PluginField) (inputs : Dict InputValue) (key : Text)
    → is_kept fields key ≡ true
    → lookup key (kept_inputs fields inputs) ≡ lookup key inputs
unfolding lookup kept_inputs
lookup-kept fields [] key h = refl
lookup-kept fields ((k, v) ∷ inputs) key h = elim (Bool-cases (text_eq key k)) [
  | inl same ↦ ground (arith, same, text_eq_iff key k, h, lookup-kept fields inputs key h)
  | inr differs ↦ ground (arith, differs, h, lookup-kept fields inputs key h)
]

user-kept :
    (fields : List PluginField) (key : Text) → is_control key ≡ false → is_kept fields key ≡ true
unfolding is_control is_kept
user-kept fields key h = ground (arith, h)

abbrev is_built : Built → Bool
is_built no_plugin = false
is_built raised_value_error = false
is_built raised_pattern_error = false
is_built (built command) = true

built-accepted :
    (o : Outside) (pl : Plugin) (inputs : Dict InputValue)
    → is_built (build_from o pl inputs) ≡ true
    → validate_inputs_against_schema o pl.fields inputs ≡ accepted
unfolding build_from
built-accepted o pl inputs h = split (validate_inputs_against_schema o pl.fields inputs) refl
  where
    split :
        (r : Check)
        → validate_inputs_against_schema o pl.fields inputs ≡ r
        → validate_inputs_against_schema o pl.fields inputs ≡ accepted
    split accepted q = q
    split value_error q = absurd (ground (arith, q, h))
    split pattern_error q = absurd (ground (arith, q, h))

-- When a command is built, every input that is not blank and no control key belongs to a field that the plugin
-- declares, and its value is one for the type of that field: a choice of the options, an integer, a Boolean, or a
-- text that is no flag and has no `..` among the parts of a path, before it is sanitized.
pub build_command-conforms :
    (o : Outside) (plugins : Dict Plugin) (plugin_id : Text) (pl : Plugin)
    (inputs : Dict InputValue) (key : Text) (value : InputValue) (command : List Text)
    → lookup plugin_id plugins ≡ some pl
    → lookup key inputs ≡ some value
    → is_control key ≡ false
    → is_blank value ≡ false
    → build_command o plugins plugin_id inputs ≡ built command
    → (f : PluginField) × (find_field key pl.fields ≡ some f) × (conforms o f key value ≡ true)
unfolding build_command
build_command-conforms o plugins plugin_id pl inputs key value command found given user filled h =
    let kept = kept_inputs pl.fields inputs in
    let same : build_command o plugins plugin_id inputs ≡ build_from o pl kept =
      rw (found, build_command) refl in
    let checked = built-accepted o pl kept (ap is_built (sym same ∙ h)) in
    input-conforms o pl.fields key value user filled (
      lookup-accepted o pl.fields kept key value checked
        (lookup-kept pl.fields inputs key (user-kept pl.fields key user) ∙ given))
